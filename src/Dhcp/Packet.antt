-- ===== src/Dhcp/Packet.antt =====
-- src/dhcp/protocol.mts and src/shared/encoding.mts: the fields of a DHCP packet, read and written.
-- Bytes are read at places that the length check has shown to be there.
pub mod Encode
pub mod Fields
pub mod Text
pub mod Nak
pub mod Errors
mod Tests
pub mod RoundTrip
use tsbootkit.Base.{
  ℕ, zero, suc, ◌+◌, ◌-◌, ◌*◌, ◌%◌, ◌==◌, Bool, true, false, not, ◌&&◌, Option, none, some, List,
  [], ◌∷◌, ◌++◌, map, if◌then◌else◌, ltb, leb, length, take, drop, get_or, get_elem?, Result, ok,
  err,
}
use tsbootkit.Base.Text.{
  Str, codes, to_decimal, hex_byte, parse_hex, split, join, trim, starts_with, is_empty,
}
use tsbootkit.Base.Buffer.{Buffer, subarray, to_ascii, uint16_at, uint32_at, write_bytes}
use tsbootkit.Net.{word_of}
use tsbootkit.Dhcp.Options.{OptionMap, parse_options, get_option}

abbrev pub fixed_size : ℕ
fixed_size = 236

abbrev pub min_packet_size : ℕ
min_packet_size = 240

abbrev pub magic_cookie : ℕ
magic_cookie = 1669485411

abbrev pub client_uuid_length : ℕ
client_uuid_length = 16

-- enum DHCPOption
abbrev pub subnet_mask_option : ℕ
subnet_mask_option = 1

abbrev pub router_option : ℕ
router_option = 3

abbrev pub dns_option : ℕ
dns_option = 6

abbrev pub hostname_option : ℕ
hostname_option = 12

abbrev pub requested_ip_option : ℕ
requested_ip_option = 50

abbrev pub lease_time_option : ℕ
lease_time_option = 51

abbrev pub message_type_option : ℕ
message_type_option = 53

abbrev pub server_id_option : ℕ
server_id_option = 54

abbrev pub vendor_class_option : ℕ
vendor_class_option = 60

abbrev pub client_uuid_option : ℕ
client_uuid_option = 61

abbrev pub client_arch_option : ℕ
client_arch_option = 93

abbrev pub client_uuid2_option : ℕ
client_uuid2_option = 97

-- Four bytes as an address.
unfoldable pub dotted : ℕ → ℕ → ℕ → ℕ → Str
dotted a b c d = join b'.' (to_decimal a ∷ to_decimal b ∷ to_decimal c ∷ to_decimal d ∷ [])

unfoldable pub read_ipv4 : Buffer → ℕ → Str
unfolding dotted
read_ipv4 buf o =
    dotted (get_or buf o 0) (get_or buf (o + 1) 0) (get_or buf (o + 2) 0) (get_or buf (o + 3) 0)

-- The n bytes of a hardware address from `o` on, in hexadecimal.
abbrev pub hex_parts : ℕ → Buffer → ℕ → List Str
hex_parts zero buf o = []
hex_parts (suc n) buf o = hex_byte (get_or buf o 0) ∷ hex_parts n buf (o + 1)

unfoldable pub read_mac : Buffer → ℕ → Str
read_mac buf o = join b':' (hex_parts 6 buf o)

-- Storing a number in a byte keeps its low 8 bits; NaN, also that of a missing part, is stored as 0.
abbrev pub quad_bytes : List Str → List ℕ
quad_bytes parts =
    word_of (get_elem? parts 0) % 256
    ∷ word_of (get_elem? parts 1) % 256
    ∷ word_of (get_elem? parts 2) % 256
    ∷ word_of (get_elem? parts 3) % 256
    ∷ []

unfoldable pub write_ipv4 : Buffer → ℕ → Str → Buffer
unfolding write_bytes
write_ipv4 buf offset ip = write_bytes buf offset (quad_bytes (split b'.' ip))

abbrev pub hex_of : Option Str → ℕ
hex_of none = 0
hex_of (some s) = parse_hex s

abbrev pub mac_bytes : List Str → List ℕ
mac_bytes parts =
    hex_of (get_elem? parts 0) % 256
    ∷ hex_of (get_elem? parts 1) % 256
    ∷ hex_of (get_elem? parts 2) % 256
    ∷ hex_of (get_elem? parts 3) % 256
    ∷ hex_of (get_elem? parts 4) % 256
    ∷ hex_of (get_elem? parts 5) % 256
    ∷ []

unfoldable pub write_mac : Buffer → ℕ → Str → Buffer
unfolding write_bytes
write_mac buf offset mac = write_bytes buf offset (mac_bytes (split b':' mac))

unfoldable pub ipv4_to_buffer : Str → Buffer
unfolding write_ipv4
ipv4_to_buffer ip = write_ipv4 (0 ∷ 0 ∷ 0 ∷ 0 ∷ []) 0 ip

-- toString('ascii').replace(/\0+$/, '')
abbrev pub strip_zeros : Str → Str
strip_zeros [] = []
strip_zeros (c ∷ cs) =
    let rest = strip_zeros cs in if is_empty rest && (c == 0) then [] else c ∷ rest

-- DHCPPacket
pub record DhcpPacket : Type 0 where
  pub op : ℕ
  pub htype : ℕ
  pub hlen : ℕ
  pub hops : ℕ
  pub xid : ℕ
  pub secs : ℕ
  pub flags : ℕ
  pub ciaddr : Str
  pub yiaddr : Str
  pub siaddr : Str
  pub giaddr : Str
  pub chaddr : Str
  pub sname : Str
  pub file : Str
  pub options : OptionMap
  pub message_type : Option ℕ
  pub is_pxe : Bool
  pub requested_ip : Option Str
  pub client_uuid : Option Str
  pub client_arch : Option ℕ
  pub hostname : Option Str
  pub server_id : Option Str

-- DHCPProtocolError; `out_of_fuel` is no error of the source, and never comes.
pub data DhcpError : Type 0 where
  too_short : ℕ → DhcpError
  bad_cookie : ℕ → DhcpError
  out_of_fuel : DhcpError

-- What is made of an option's data.
abbrev pub first_byte : Option Buffer → Option ℕ
first_byte none = none
first_byte (some []) = none
first_byte (some (b ∷ bs)) = some b

abbrev pub is_pxe_class : Option Buffer → Bool
is_pxe_class none = false
is_pxe_class (some class) = starts_with (to_ascii class) (codes "PXEClient")

abbrev pub address_option : Option Buffer → Option Str
address_option none = none
address_option (some bytes) = if length bytes == 4 then some (read_ipv4 bytes 0) else none

abbrev pub hex_text : Buffer → Str
hex_text [] = []
hex_text (b ∷ bs) = hex_byte b ++ hex_text bs

-- The first byte is a type.
abbrev pub uuid_text : Option Buffer → Option Str
uuid_text none = none
uuid_text (some bytes) =
    let uuid = drop 1 bytes in
    if length bytes == client_uuid_length + 1
    then some (
        join b'-' (
          hex_text (subarray uuid 0 4)
          ∷ hex_text (subarray uuid 4 6)
          ∷ hex_text (subarray uuid 6 8)
          ∷ hex_text (subarray uuid 8 10)
          ∷ hex_text (subarray uuid 10 16)
          ∷ []))
    else none

abbrev pub arch_of : Option Buffer → Option ℕ
arch_of none = none
arch_of (some bytes) = if leb 2 (length bytes) then some (uint16_at bytes 0) else none

abbrev pub hostname_of : Option Buffer → Option Str
hostname_of none = none
hostname_of (some []) = none
hostname_of (some (b ∷ bs)) = some (trim (to_ascii (b ∷ bs)))

abbrev pub or_else {ℓ} : {A : Type ℓ} → Option A → Option A → Option A
or_else (some a) other = some a
or_else none other = other

unfoldable pub packet_of : Buffer → OptionMap → DhcpPacket
unfolding get_option
packet_of buf options = record {
  op = get_or buf 0 0;
  htype = get_or buf 1 0;
  hlen = get_or buf 2 0;
  hops = get_or buf 3 0;
  xid = uint32_at buf 4;
  secs = uint16_at buf 8;
  flags = uint16_at buf 10;
  ciaddr = read_ipv4 buf 12;
  yiaddr = read_ipv4 buf 16;
  siaddr = read_ipv4 buf 20;
  giaddr = read_ipv4 buf 24;
  chaddr = read_mac buf 28;
  sname = strip_zeros (to_ascii (subarray buf 44 108));
  file = strip_zeros (to_ascii (subarray buf 108 236));
  options = options;
  message_type = first_byte (get_option message_type_option options);
  is_pxe = is_pxe_class (get_option vendor_class_option options);
  requested_ip = address_option (get_option requested_ip_option options);
  client_uuid =
      uuid_text
        (or_else (get_option client_uuid_option options) (get_option client_uuid2_option options));
  client_arch = arch_of (get_option client_arch_option options);
  hostname = hostname_of (get_option hostname_option options);
  server_id = address_option (get_option server_id_option options);
}

abbrev pub with_options : Buffer → Option OptionMap → Result DhcpError DhcpPacket
with_options buf none = err out_of_fuel
with_options buf (some options) = ok (packet_of buf options)

unfoldable pub parse_dhcp_packet : Buffer → Result DhcpError DhcpPacket
parse_dhcp_packet buf =
    if ltb (length buf) min_packet_size
    then err (too_short (length buf))
    else if not (uint32_at buf fixed_size == magic_cookie)
    then err (bad_cookie (uint32_at buf fixed_size))
    else with_options buf (parse_options (drop (fixed_size + 4) buf))
