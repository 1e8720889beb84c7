-- ===== src/Bootp/Packet/RoundTrip.antt =====
-- A reply of the BOOTP server, read by src/dhcp/protocol.mts.
use tsbootkit.Base.{
  take, drop, drop-append, ℕ, ◌-◌, ◌^◌, ◌≡◌, ◌<◌, ◌≤◌, refl, ap, sym, subst, ◌∙◌, arith, some, none,
  List, [], ◌∷◌, ◌++◌, replicate, length, length-append, length-replicate, le→not_ltb, ok, All,
  append_assoc, append-nil, ltb, Bool-cases, inl, inr, ltb→lt, not_ltb→ge,
}
use tsbootkit.Base.Text.{Str, split}
use tsbootkit.Base.Buffer.{
  Buffer, to_ascii, alloc, bytes32, write_bytes, write_uint16_be, write_uint32_be, from_ascii,
  length-from_ascii, length-write_bytes,
}
use tsbootkit.Dhcp.Options.{RawDhcpOption, encode_options, get_option}
use tsbootkit.Dhcp.Options.RoundTrip.{IsEncodable}
use tsbootkit.Dhcp.Packet.{
  dotted, message_type_option, first_byte, strip_zeros, DhcpPacket, parse_dhcp_packet, packet_of,
  quad_bytes, mac_bytes, write_ipv4, write_mac, read_ipv4, read_mac, ipv4_to_buffer,
}
use tsbootkit.Dhcp.Packet.Text.{IsName, read_field, write_bytes-first, write_bytes-second}
use tsbootkit.Dhcp.Packet.Fields.{IsAddress, IsMac, dotted_of-quad_bytes, mac_text-mac_bytes}
use tsbootkit.Dhcp.Packet.Encode.{reply_header, dns_bytes, dns_opts}
use tsbootkit.Dhcp.Packet.RoundTrip.{cookie_bytes, parse-fixed_padded, dns_opts-IsEncodable}
use tsbootkit.Bootp.Packet.{
  BootpReplyData, encode_bootp_reply, bootp_fields, padded, vendor_options,
}

vendor_options-IsEncodable :
    (a : BootpReplyData) → length a.dns_servers ≤ 63 → IsEncodable [] (vendor_options a)
unfolding get_option ipv4_to_buffer write_ipv4 write_bytes
vendor_options-IsEncodable a h = (
  omega arith,
  omega arith,
  omega arith,
  refl,
  (omega arith, omega arith, omega arith, refl, dns_opts-IsEncodable a.dns_servers _ h refl),
)

dns_opts-lacks_type : (ips : List Str) → get_option message_type_option (dns_opts ips) ≡ none
unfolding get_option
dns_opts-lacks_type [] = refl
dns_opts-lacks_type (ip ∷ ips) = refl

-- The fixed part up to the names, and the names.
abbrev before_names : DhcpPacket → BootpReplyData → Buffer
before_names request a =
    2
    ∷ 1
    ∷ 6
    ∷ 0
    ∷ (bytes32 request.xid
        ++ (0
            ∷ 0
            ∷ 128
            ∷ 0
            ∷ 0
            ∷ 0
            ∷ 0
            ∷ 0
            ∷ (quad_bytes (split b'.' a.offered_ip)
                ++ (quad_bytes (split b'.' a.tftp_server_ip)
                    ++ (0
                        ∷ 0
                        ∷ 0
                        ∷ 0
                        ∷ (mac_bytes (split b':' request.chaddr) ++ replicate 10 0))))))

abbrev name_field : ℕ → Str → Buffer
name_field room s = write_bytes (replicate room 0) 0 (from_ascii s)

names_lem :
    (a : BootpReplyData)
    → length a.server_hostname ≤ 64
    → write_bytes
        (write_bytes (replicate 192 0) 0 (from_ascii a.server_hostname))
        64
        (from_ascii a.boot_file)
      ≡ name_field 64 a.server_hostname ++ name_field 128 a.boot_file
names_lem a h =
    ap (λ b. write_bytes b 64 (from_ascii a.boot_file))
      (write_bytes-first (replicate 64 0) (replicate 128 0) (from_ascii a.server_hostname)
        (omega (arith, length-from_ascii a.server_hostname)))
    ∙ write_bytes-second (name_field 64 a.server_hostname) (replicate 128 0)
        (from_ascii a.boot_file) 64
        (length-write_bytes (replicate 64 0) (from_ascii a.server_hostname) 0)

header_lem :
    (xid : ℕ)
    → xid < 2 ^ 32
    → reply_header xid 32768
      ≡ some (2 ∷ 1 ∷ 6 ∷ 0 ∷ (bytes32 xid ++ (0 ∷ 0 ∷ 128 ∷ 0 ∷ replicate 224 0)))
unfolding reply_header write_uint16_be write_uint32_be write_bytes
header_lem xid h = rw (le→not_ltb 4294967295 xid (omega arith)) refl

bootp_fields_lem :
    (request : DhcpPacket) (a : BootpReplyData)
    → bootp_fields request a
        (2 ∷ 1 ∷ 6 ∷ 0 ∷ (bytes32 request.xid ++ (0 ∷ 0 ∷ 128 ∷ 0 ∷ replicate 224 0)))
      ≡ before_names request a
        ++ write_bytes
            (write_bytes (replicate 192 0) 0 (from_ascii a.server_hostname))
            64
            (from_ascii a.boot_file)
unfolding bootp_fields write_ipv4 write_mac write_bytes
bootp_fields_lem request a = refl

-- Padding with zeros up to the least size.
padded_lem :
    (packet : Buffer)
    → (padding : Buffer) × (padded packet ≡ packet ++ padding) × (300 ≤ length (padded packet))
unfolding padded
padded_lem packet = elim (Bool-cases (ltb (length packet) 300)) [
  | inl short ↦
      let less = ltb→lt (length packet) 300 short in
      let fill = alloc (300 - length packet) in
      (
        fill,
        rw short refl,
        rw short (
            omega (
              arith,
              less,
              length-append packet fill,
              length-replicate {A = ℕ} (300 - length packet) 0,
            )),
      )
  | inr long ↦
      let enough = not_ltb→ge (length packet) 300 long in
      ([], rw long (sym (append-nil packet)), rw long enough)
]

-- What an encoder may be given.
pub record IsBootpReplyData (request : DhcpPacket) (a : BootpReplyData) : Type 0 where
  pub xid : request.xid < 2 ^ 32
  pub dns_servers : length a.dns_servers ≤ 63
  pub offered_ip : IsAddress a.offered_ip
  pub tftp_server_ip : IsAddress a.tftp_server_ip
  pub chaddr : IsMac request.chaddr
  pub subnet_mask : IsAddress a.subnet_mask
  pub router : IsAddress a.router
  pub name_servers : All IsAddress a.dns_servers
  pub server_hostname : IsName 64 a.server_hostname
  pub boot_file : IsName 128 a.boot_file

-- The addresses that stand one after another in an option, in four bytes each.
abbrev pub dotted_all : List ℕ → List Str
dotted_all (a ∷ b ∷ c ∷ d ∷ rest) = dotted a b c d ∷ dotted_all rest
dotted_all bs = []

-- The addresses in the option with a code; none where the packet has no such option.
abbrev pub addresses_in : ℕ → List RawDhcpOption → List Str
addresses_in code os = elim (get_option code os) [ none ↦ [] | some content ↦ dotted_all content ]

dotted_all-four :
    (ip : Str) (rest : Buffer)
    → IsAddress ip
    → dotted_all (quad_bytes (split b'.' ip) ++ rest) ≡ ip ∷ dotted_all rest
dotted_all-four ip rest w = ap (λ s. s ∷ dotted_all rest) (dotted_of-quad_bytes ip w)

dotted_all-dns_bytes : (ips : List Str) → All IsAddress ips → dotted_all (dns_bytes ips) ≡ ips
unfolding ipv4_to_buffer write_ipv4 write_bytes
dotted_all-dns_bytes [] w = refl
dotted_all-dns_bytes (ip ∷ ips) (w, ws) =
    dotted_all-four ip (dns_bytes ips) w ∙ ap (λ s. ip ∷ s) (dotted_all-dns_bytes ips ws)

name_servers_in : (ips : List Str) → All IsAddress ips → addresses_in 6 (dns_opts ips) ≡ ips
unfolding get_option
name_servers_in [] w = refl
name_servers_in (ip ∷ ips) w = dotted_all-dns_bytes (ip ∷ ips) w

-- What the client reads; options 1, 3 and 6 are the subnet mask, the routers and the name servers
-- of RFC 2132.
pub record AnswersBootp (request : DhcpPacket) (a : BootpReplyData) (p : DhcpPacket) : Type 0 where
  pub is_reply : p.op ≡ 2
  pub xid : p.xid ≡ request.xid
  pub yiaddr : p.yiaddr ≡ a.offered_ip
  pub siaddr : p.siaddr ≡ a.tftp_server_ip
  pub chaddr : p.chaddr ≡ request.chaddr
  pub sname : p.sname ≡ a.server_hostname
  pub file : p.file ≡ a.boot_file
  pub subnet_mask : addresses_in 1 p.options ≡ a.subnet_mask ∷ []
  pub router : addresses_in 3 p.options ≡ a.router ∷ []
  pub name_servers : addresses_in 6 p.options ≡ a.dns_servers
  pub no_message_type : p.message_type ≡ none

module _ (request : DhcpPacket) (a : BootpReplyData) (w : IsBootpReplyData request a) where
  abbrev fixed_part : Buffer
  fixed_part =
      before_names request a ++ (name_field 64 a.server_hostname ++ name_field 128 a.boot_file)

  length-fixed_part : length fixed_part ≡ 236
  length-fixed_part = omega (
    arith,
    length-append (name_field 64 a.server_hostname) (name_field 128 a.boot_file),
    length-write_bytes (replicate 64 0) (from_ascii a.server_hostname) 0,
    length-write_bytes (replicate 128 0) (from_ascii a.boot_file) 0,
  )

  encoded :
      encode_bootp_reply request a
      ≡ some (padded (fixed_part ++ (cookie_bytes ++ encode_options (vendor_options a))))
  unfolding encode_bootp_reply write_uint32_be write_bytes
  encoded =
      rw (header_lem request.xid w.xid, bootp_fields_lem request a, names_lem a w.server_hostname.1)
        refl

  both_names :
      (rest : Buffer)
      → (name_field 64 a.server_hostname ++ name_field 128 a.boot_file) ++ rest
        ≡ name_field 64 a.server_hostname ++ (name_field 128 a.boot_file ++ rest)
  both_names rest = append_assoc (name_field 64 a.server_hostname) (name_field 128 a.boot_file) rest

  file_behind :
      (rest : Buffer)
      → drop 64 ((name_field 64 a.server_hostname ++ name_field 128 a.boot_file) ++ rest)
        ≡ name_field 128 a.boot_file ++ rest
  file_behind rest =
      ap (drop 64) (both_names rest)
      ∙ subst
          (λ n.
            drop n (name_field 64 a.server_hostname ++ (name_field 128 a.boot_file ++ rest))
            ≡ name_field 128 a.boot_file ++ rest)
          (length-write_bytes (replicate 64 0) (from_ascii a.server_hostname) 0)
          (drop-append (name_field 64 a.server_hostname) (name_field 128 a.boot_file ++ rest))

  answers :
      (rest : Buffer) → AnswersBootp request a (packet_of (fixed_part ++ rest) (vendor_options a))
  unfolding packet_of read_ipv4 read_mac get_option ipv4_to_buffer write_ipv4 write_bytes
  answers rest = record {
    is_reply = refl;
    xid = omega (arith, w.xid);
    yiaddr = dotted_of-quad_bytes a.offered_ip w.offered_ip;
    siaddr = dotted_of-quad_bytes a.tftp_server_ip w.tftp_server_ip;
    chaddr = mac_text-mac_bytes request.chaddr w.chaddr;
    sname =
        ap (λ b. strip_zeros (to_ascii (take 64 b))) (both_names rest)
        ∙ read_field 64 a.server_hostname (name_field 128 a.boot_file ++ rest) w.server_hostname;
    file =
        ap (λ b. strip_zeros (to_ascii (take 128 b))) (file_behind rest)
        ∙ read_field 128 a.boot_file rest w.boot_file;
    subnet_mask = dotted_all-four a.subnet_mask [] w.subnet_mask;
    router = dotted_all-four a.router [] w.router;
    name_servers = name_servers_in a.dns_servers w.name_servers;
    no_message_type = ap first_byte (dns_opts-lacks_type a.dns_servers);
  }

  -- A reply to a request, with addresses in canonical form, a transaction number of 32 bits, a host name of at most 64 and
  -- a boot file name of at most 128 7-bit characters without NUL, and at most 63 name servers, is encoded without an error in at least 300
  -- bytes and parsed without one. It reads as the answer: a BOOTREPLY with the request's transaction number and
  -- hardware address, the offered address, the TFTP server as the next server, both names, and in its
  -- options the subnet mask, the router and the name servers in their order; and it has no DHCP
  -- message type.
  pub parse-encode_bootp_reply :
      (buf : Buffer) × (p : DhcpPacket) × (encode_bootp_reply request a ≡ some buf)
      × (parse_dhcp_packet buf ≡ ok p)
      × AnswersBootp request a p
      × (300 ≤ length buf)
  parse-encode_bootp_reply =
      let os = vendor_options a in
      let packet = fixed_part ++ (cookie_bytes ++ encode_options os) in
      let (padding, shape, size) = padded_lem packet in
      let rest = cookie_bytes ++ (encode_options os ++ padding) in
      let whole : padded packet ≡ fixed_part ++ rest =
        shape ∙ append_assoc fixed_part (cookie_bytes ++ encode_options os) padding in
      (
        fixed_part ++ rest,
        packet_of (fixed_part ++ rest) os,
        encoded ∙ ap some whole,
        parse-fixed_padded fixed_part os padding length-fixed_part
            (vendor_options-IsEncodable a w.dns_servers),
        answers rest,
        subst (λ b. 300 ≤ length b) whole size,
      )
