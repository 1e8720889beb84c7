-- ===== src/Dhcp/Frame.antt =====
-- src/dhcp/protocol.mts: ipChecksum and encodeRawDHCPFrame.
pub mod Checksum
mod Tests
use tsbootkit.Base.{
  ℕ, ◌+◌, ◌-◌, ◌*◌, ◌%◌, Option, none, some, List, [], ◌∷◌, ◌++◌, if◌then◌else◌, ltb, length,
}
use tsbootkit.Base.Text.{Str}
use tsbootkit.Base.Buffer.{Buffer, alloc, write_bytes, write_uint16_be, ◌>>=◌}
use tsbootkit.Dhcp.Packet.{write_ipv4, write_mac}

abbrev pub dhcp_server_port : ℕ
dhcp_server_port = 67

abbrev pub dhcp_client_port : ℕ
dhcp_client_port = 68

abbrev pub ethernet_ip_proto : ℕ
ethernet_ip_proto = 2048

abbrev pub ip_udp_proto : ℕ
ip_udp_proto = 17

-- if (sum > 0xffff) sum = (sum & 0xffff) + 1
abbrev pub carried : ℕ → ℕ
carried sum = if ltb 65535 sum then sum % 65536 + 1 else sum

-- The loop over the words; a last odd byte is the high byte of one.
unfoldable pub ip_sum : ℕ → Buffer → ℕ
ip_sum sum [] = sum
ip_sum sum (high ∷ []) = carried (sum + high * 256)
ip_sum sum (high ∷ low ∷ rest) = ip_sum (carried (sum + (high * 256 + low))) rest

-- The sum stays below 65536, so that the subtraction is one of integers.
unfoldable pub ip_checksum : Buffer → ℕ
unfolding ip_sum
ip_checksum header = 65535 - ip_sum 0 header

-- The IP header before its checksum. `none` is the RangeError of a length above 65535.
unfoldable pub ip_header : ℕ → Str → Str → Option Buffer
unfolding write_bytes
ip_header total_len src_ip dst_ip = do
  sized ← write_uint16_be (write_bytes (alloc 20) 0 (69 ∷ 0 ∷ [])) total_len 2
  identified ← write_uint16_be sized 0 4
  flagged ← write_uint16_be identified 0 6
  zeroed ← write_uint16_be (write_bytes flagged 8 (64 ∷ ip_udp_proto ∷ [])) 0 10
  some (write_ipv4 (write_ipv4 zeroed 12 src_ip) 16 dst_ip)

unfoldable pub udp_header : ℕ → Option Buffer
udp_header udp_len = do
  from_port ← write_uint16_be (alloc 8) dhcp_server_port 0
  to_port ← write_uint16_be from_port dhcp_client_port 2
  sized ← write_uint16_be to_port udp_len 4
  write_uint16_be sized 0 6

-- The IP header with its checksum.
unfoldable pub checked_header : Buffer → Option Buffer
checked_header header = write_uint16_be header (ip_checksum header) 10

unfoldable pub encode_raw_dhcp_frame : Buffer → Str → Str → Str → Str → Option Buffer
encode_raw_dhcp_frame payload src_mac dst_mac src_ip dst_ip = do
  udp ← udp_header (8 + length payload)
  unchecked ← ip_header (20 + (8 + length payload)) src_ip dst_ip
  header ← checked_header unchecked
  eth ← write_uint16_be (write_mac (write_mac (alloc 14) 0 dst_mac) 6 src_mac) ethernet_ip_proto 12
  some (eth ++ (header ++ (udp ++ payload)))
