-- ===== src/Dhcp/Packet/Nak.antt =====
-- A refusal of the DHCP server, read by src/dhcp/protocol.mts.
use tsbootkit.Base.{◌^◌, ◌≡◌, ◌<◌, refl, ap, arith, some, [], ◌∷◌, ◌++◌, ok, le→not_ltb, replicate}
use tsbootkit.Base.Text.{Str, codes, split, join, to_decimal}
use tsbootkit.Base.Buffer.{Buffer, bytes32, write_bytes, write_uint16_be, write_uint32_be}
use tsbootkit.Dhcp.Options.{encode_options, get_option}
use tsbootkit.Dhcp.Options.RoundTrip.{IsEncodable}
use tsbootkit.Dhcp.Packet.{
  DhcpPacket, parse_dhcp_packet, packet_of, mac_bytes, ipv4_to_buffer, write_ipv4, write_mac,
  read_ipv4, read_mac,
}
use tsbootkit.Dhcp.Packet.Fields.{IsAddress, IsMac, dotted_of-quad_bytes, mac_text-mac_bytes}
use tsbootkit.Dhcp.Packet.Encode.{encode_dhcp_nak, nak_options, nak_type, reply_header}
use tsbootkit.Dhcp.Packet.RoundTrip.{cookie_bytes, parse-fixed}

nak_options-IsEncodable : (server_ip : Str) → IsEncodable [] (nak_options server_ip)
unfolding get_option ipv4_to_buffer write_ipv4 write_bytes
nak_options-IsEncodable server_ip =
    (omega arith, omega arith, omega arith, refl, (omega arith, omega arith, omega arith, refl, tt))

abbrev nak_fixed : DhcpPacket → Buffer
nak_fixed request =
    2
    ∷ 1
    ∷ 6
    ∷ 0
    ∷ (bytes32 request.xid
        ++ (0
            ∷ 0
            ∷ 128
            ∷ 0
            ∷ (replicate 16 0 ++ (mac_bytes (split b':' request.chaddr) ++ replicate 202 0))))

encode_dhcp_nak_lem :
    (request : DhcpPacket) (server_ip : Str)
    → request.xid < 2 ^ 32
    → encode_dhcp_nak request server_ip
      ≡ some (nak_fixed request ++ (cookie_bytes ++ encode_options (nak_options server_ip)))
unfolding encode_dhcp_nak reply_header write_uint16_be write_uint32_be write_mac write_bytes
encode_dhcp_nak_lem request server_ip h = rw (le→not_ltb 4294967295 request.xid (omega arith)) refl

-- A refusal, with a transaction number of 32 bits and addresses in canonical form, is encoded without an error and
-- read as one: a DHCPNAK of the server for the transaction and the hardware address of the request, to be
-- broadcast, that gives no address.
pub parse-encode_dhcp_nak :
    (request : DhcpPacket) (server_ip : Str)
    → request.xid < 2 ^ 32
    → IsMac request.chaddr
    → IsAddress server_ip
    → (buf : Buffer) × (p : DhcpPacket) × (encode_dhcp_nak request server_ip ≡ some buf)
      × (parse_dhcp_packet buf ≡ ok p)
      × (p.message_type ≡ some nak_type)
      × (p.server_id ≡ some server_ip)
      × (p.xid ≡ request.xid)
      × (p.chaddr ≡ request.chaddr)
      × (p.flags ≡ 32768)
      × (p.yiaddr ≡ codes "0.0.0.0")
unfolding packet_of read_ipv4 read_mac get_option ipv4_to_buffer write_ipv4 write_bytes join
    to_decimal
parse-encode_dhcp_nak request server_ip small mac address =
    let os = nak_options server_ip in
    let buf = nak_fixed request ++ (cookie_bytes ++ encode_options os) in
    (
      buf,
      packet_of buf os,
      encode_dhcp_nak_lem request server_ip small,
      parse-fixed (nak_fixed request) os refl (nak_options-IsEncodable server_ip),
      refl,
      ap some (dotted_of-quad_bytes server_ip address),
      omega arith,
      mac_text-mac_bytes request.chaddr mac,
      refl,
      refl,
    )
