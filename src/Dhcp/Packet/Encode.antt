-- ===== src/Dhcp/Packet/Encode.antt =====
-- src/dhcp/protocol.mts: the replies of the DHCP server as packets. `none` is a RangeError of a
-- transaction number or a lease time that does not fit into 32 bits.
use tsbootkit.Base.{ℕ, Option, some, List, [], ◌∷◌, ◌++◌}
use tsbootkit.Base.Text.{Str, codes}
use tsbootkit.Base.Buffer.{
  Buffer, alloc, write_bytes, write_uint16_be, write_uint32_be, from_ascii, ◌>>=◌,
}
use tsbootkit.Dhcp.Options.{RawDhcpOption, encode_options}
use tsbootkit.Dhcp.Packet.{
  DhcpPacket, fixed_size, magic_cookie, write_ipv4, write_mac, ipv4_to_buffer, message_type_option,
  lease_time_option, subnet_mask_option, router_option, server_id_option, dns_option,
}

-- DHCPMessageType.NAK
abbrev pub nak_type : ℕ
nak_type = 6

-- The first 12 bytes of a reply, in a buffer of the fixed size.
unfoldable pub reply_header : ℕ → ℕ → Option Buffer
unfolding write_bytes
reply_header xid flags = do
  identified ← write_uint32_be (write_bytes (alloc fixed_size) 0 (2 ∷ 1 ∷ 6 ∷ 0 ∷ [])) xid 4
  timed ← write_uint16_be identified 0 8
  write_uint16_be timed flags 10

abbrev pub address_opt : ℕ → Str → RawDhcpOption
address_opt code ip = record { code = code; content = ipv4_to_buffer ip }

-- The addresses one after another.
abbrev pub dns_bytes : List Str → Buffer
dns_bytes [] = []
dns_bytes (ip ∷ ips) = ipv4_to_buffer ip ++ dns_bytes ips

-- `[]` is also the absent list.
abbrev pub dns_opts : List Str → List RawDhcpOption
dns_opts [] = []
dns_opts (ip ∷ ips) = record { code = dns_option; content = dns_bytes (ip ∷ ips) } ∷ []

-- The arguments of encodeDHCPReply behind the request.
pub record ReplyData : Type 0 where
  pub offered_ip : Str
  pub server_ip : Str
  pub tftp_server_ip : Str
  pub boot_file : Str
  pub reply_type : ℕ
  pub subnet_mask : Str
  pub router : Str
  pub lease_time : ℕ
  pub dns_servers : List Str

abbrev pub reply_options : ReplyData → Buffer → List RawDhcpOption
reply_options a lease =
    record { code = message_type_option; content = a.reply_type ∷ [] }
    ∷ record { code = lease_time_option; content = lease }
    ∷ address_opt subnet_mask_option a.subnet_mask
    ∷ address_opt router_option a.router
    ∷ address_opt server_id_option a.server_ip
    ∷ dns_opts a.dns_servers

-- The rest of the fixed part.
unfoldable pub reply_fields : DhcpPacket → ReplyData → Buffer → Buffer
unfolding write_bytes
reply_fields request a header =
    let with_client = write_ipv4 header 12 request.ciaddr in
    let with_offer = write_ipv4 with_client 16 a.offered_ip in
    let with_next = write_ipv4 with_offer 20 a.tftp_server_ip in
    let with_relay = write_ipv4 with_next 24 (codes "0.0.0.0") in
    let with_mac = write_mac with_relay 28 request.chaddr in
    write_bytes with_mac 108 (from_ascii a.boot_file)

unfoldable pub encode_dhcp_reply : DhcpPacket → ReplyData → Option Buffer
unfolding reply_header reply_fields
encode_dhcp_reply request a = do
  header ← reply_header request.xid 0
  cookie ← write_uint32_be (alloc 4) magic_cookie 0
  lease ← write_uint32_be (alloc 4) a.lease_time 0
  some (reply_fields request a header ++ (cookie ++ encode_options (reply_options a lease)))

abbrev pub nak_options : Str → List RawDhcpOption
nak_options server_ip =
    record { code = message_type_option; content = nak_type ∷ [] }
    ∷ address_opt server_id_option server_ip
    ∷ []

unfoldable pub encode_dhcp_nak : DhcpPacket → Str → Option Buffer
unfolding reply_header
encode_dhcp_nak request server_ip = do
  header ← reply_header request.xid 32768
  cookie ← write_uint32_be (alloc 4) magic_cookie 0
  some (write_mac header 28 request.chaddr ++ (cookie ++ encode_options (nak_options server_ip)))
