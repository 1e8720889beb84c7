-- ===== src/Bootp/Packet.antt =====
-- src/bootp/protocol.mts: the reply of the BOOTP server as a packet. `none` is a RangeError of a
-- transaction number that does not fit into 32 bits.
pub mod RoundTrip
mod Tests
use tsbootkit.Base.{ℕ, ◌-◌, Option, none, some, List, [], ◌∷◌, ◌++◌, if◌then◌else◌, ltb, length}
use tsbootkit.Base.Text.{Str}
use tsbootkit.Base.Buffer.{Buffer, alloc, write_bytes, write_uint32_be, from_ascii, ◌>>=◌}
use tsbootkit.Dhcp.Options.{RawDhcpOption, encode_options}
use tsbootkit.Dhcp.Packet.{
  DhcpPacket, magic_cookie, write_ipv4, write_mac, subnet_mask_option, router_option,
}
use tsbootkit.Dhcp.Packet.Encode.{reply_header, address_opt, dns_opts}

abbrev pub bootp_broadcast_flag : ℕ
bootp_broadcast_flag = 32768

abbrev pub bootp_min_packet_size : ℕ
bootp_min_packet_size = 300

-- The arguments of encodeBOOTPReply behind the request, less the server address, which it ignores.
pub record BootpReplyData : Type 0 where
  pub offered_ip : Str
  pub tftp_server_ip : Str
  pub boot_file : Str
  pub server_hostname : Str
  pub subnet_mask : Str
  pub router : Str
  pub dns_servers : List Str

abbrev pub vendor_options : BootpReplyData → List RawDhcpOption
vendor_options a =
    address_opt subnet_mask_option a.subnet_mask
    ∷ address_opt router_option a.router
    ∷ dns_opts a.dns_servers

-- The name of the host is written first, and then the name of the file, over it where it is long.
unfoldable pub bootp_fields : DhcpPacket → BootpReplyData → Buffer → Buffer
unfolding write_bytes
bootp_fields request a header =
    let with_offer = write_ipv4 header 16 a.offered_ip in
    let with_next = write_ipv4 with_offer 20 a.tftp_server_ip in
    let with_mac = write_mac with_next 28 request.chaddr in
    write_bytes (write_bytes with_mac 44 (from_ascii a.server_hostname)) 108
      (from_ascii a.boot_file)

unfoldable pub padded : Buffer → Buffer
padded packet =
    if ltb (length packet) bootp_min_packet_size
    then packet ++ alloc (bootp_min_packet_size - length packet)
    else packet

unfoldable pub encode_bootp_reply : DhcpPacket → BootpReplyData → Option Buffer
unfolding bootp_fields padded
encode_bootp_reply request a = do
  header ← reply_header request.xid bootp_broadcast_flag
  cookie ← write_uint32_be (alloc 4) magic_cookie 0
  some (padded (bootp_fields request a header ++ (cookie ++ encode_options (vendor_options a))))
