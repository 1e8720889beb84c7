-- ===== src/Dhcp/Packet/RoundTrip.antt =====
-- A reply of the DHCP server, read by the client's side of src/dhcp/protocol.mts.
use tsbootkit.Base.{
  ℕ, suc, ◌+◌, ◌*◌, ◌^◌, ◌≡◌, ◌<◌, ◌≤◌, refl, ap, subst, ◌∙◌, arith, some, none, List, [], ◌∷◌,
  ◌++◌, false, replicate, length, drop, get_or, le→not_ltb, length-append, ok, append-nil, ltb,
}
use tsbootkit.Base.Text.{Str, split, codes}
use tsbootkit.Base.Buffer.{
  Buffer, bytes16, bytes32, write_bytes, write_uint16_be, write_uint32_be, from_ascii,
  length-write_bytes, uint32_at,
}
use tsbootkit.Dhcp.Options.{get_option, RawDhcpOption, encode_options, OptionMap}
use tsbootkit.Dhcp.Options.RoundTrip.{parse-encode_options, IsEncodable}
use tsbootkit.Dhcp.Packet.{
  ipv4_to_buffer, dns_option, DhcpPacket, parse_dhcp_packet, packet_of, quad_bytes, mac_bytes,
  write_ipv4, write_mac, read_ipv4, read_mac,
}
use tsbootkit.Dhcp.Packet.Text.{IsName, read_field}
use tsbootkit.Dhcp.Packet.Fields.{IsAddress, IsMac, dotted_of-quad_bytes, mac_text-mac_bytes}
use tsbootkit.Dhcp.Packet.Encode.{
  dns_bytes, dns_opts, ReplyData, reply_header, reply_fields, reply_options, encode_dhcp_reply,
}

-- The parts of a packet that lie before the boot file name.
abbrev before_file : ℕ → ℕ → List ℕ → List ℕ → Buffer
before_file xid flags addresses mac =
    2
    ∷ 1
    ∷ 6
    ∷ 0
    ∷ (bytes32 xid ++ (0 ∷ 0 ∷ (bytes16 flags ++ (addresses ++ (mac ++ replicate 74 0)))))

reply_header_lem :
    (xid : ℕ)
    → xid < 2 ^ 32
    → reply_header xid 0 ≡ some (2 ∷ 1 ∷ 6 ∷ 0 ∷ (bytes32 xid ++ (0 ∷ 0 ∷ 0 ∷ 0 ∷ replicate 224 0)))
unfolding reply_header write_uint16_be write_uint32_be write_bytes
reply_header_lem xid h = rw (le→not_ltb 4294967295 xid (omega arith)) refl

reply_fields_lem :
    (request : DhcpPacket) (a : ReplyData) (xid : ℕ)
    → reply_fields request a (2 ∷ 1 ∷ 6 ∷ 0 ∷ (bytes32 xid ++ (0 ∷ 0 ∷ 0 ∷ 0 ∷ replicate 224 0)))
      ≡ before_file xid 0
          (quad_bytes (split b'.' request.ciaddr)
            ++ (quad_bytes (split b'.' a.offered_ip)
                ++ (quad_bytes (split b'.' a.tftp_server_ip)
                    ++ quad_bytes (split b'.' (codes "0.0.0.0")))))
          (mac_bytes (split b':' request.chaddr))
        ++ write_bytes (replicate 128 0) 0 (from_ascii a.boot_file)
unfolding reply_fields write_ipv4 write_mac write_bytes
reply_fields_lem request a xid = refl

get_or-append :
    (xs ys : Buffer) (n i : ℕ) → length xs ≡ n → get_or (xs ++ ys) (n + i) 0 ≡ get_or ys i 0
get_or-append [] ys n i h = ap (λ k. get_or ys k 0) (omega arith)
get_or-append (x ∷ xs) ys n i h =
    let same : n + i ≡ suc (length xs + i) = omega (arith, h) in
    ap (λ k. get_or (x ∷ xs ++ ys) k 0) same ∙ get_or-append xs ys (length xs) i refl

drop-append_more : (xs ys : Buffer) (n i : ℕ) → length xs ≡ n → drop (n + i) (xs ++ ys) ≡ drop i ys
drop-append_more [] ys n i h = ap (λ k. drop k ys) (omega arith)
drop-append_more (x ∷ xs) ys n i h =
    let same : n + i ≡ suc (length xs + i) = omega (arith, h) in
    ap (λ k. drop k (x ∷ xs ++ ys)) same ∙ drop-append_more xs ys (length xs) i refl

abbrev pub cookie_bytes : Buffer
cookie_bytes = 99 ∷ 130 ∷ 83 ∷ 99 ∷ []

cookie_at :
    (fixed rest : Buffer)
    → length fixed ≡ 236
    → uint32_at (fixed ++ (cookie_bytes ++ rest)) 236 ≡ 1669485411
cookie_at fixed rest h =
    let tail = cookie_bytes ++ rest in
    rw
      (
        get_or-append fixed tail 236 0 h,
        get_or-append fixed tail 236 1 h,
        get_or-append fixed tail 236 2 h,
        get_or-append fixed tail 236 3 h,
      )
      refl

options_at :
    (fixed rest : Buffer) → length fixed ≡ 236 → drop 240 (fixed ++ (cookie_bytes ++ rest)) ≡ rest
options_at fixed rest h = drop-append_more fixed (cookie_bytes ++ rest) 236 4 h

-- A packet with the cookie and encoded options behind its fixed part is parsed, whatever follows.
pub parse-fixed_padded :
    (fixed : Buffer) (os : List RawDhcpOption) (padding : Buffer)
    → length fixed ≡ 236
    → IsEncodable [] os
    → let buf = fixed ++ (cookie_bytes ++ (encode_options os ++ padding)) in
      parse_dhcp_packet buf ≡ ok (packet_of buf os)
unfolding parse_dhcp_packet
parse-fixed_padded fixed os padding h encodable =
    let rest = encode_options os ++ padding in
    let buf = fixed ++ (cookie_bytes ++ rest) in
    let long : ltb (length buf) 240 ≡ false =
      le→not_ltb (length buf) 240 (omega (arith, length-append fixed (cookie_bytes ++ rest), h)) in
    rw
      (
        long,
        cookie_at fixed rest h,
        options_at fixed rest h,
        parse-encode_options os padding encodable,
      )
      refl

pub parse-fixed :
    (fixed : Buffer) (os : List RawDhcpOption)
    → length fixed ≡ 236
    → IsEncodable [] os
    → let buf = fixed ++ (cookie_bytes ++ encode_options os) in
      parse_dhcp_packet buf ≡ ok (packet_of buf os)
parse-fixed fixed os h encodable =
    subst
      (λ r. let buf = fixed ++ (cookie_bytes ++ r) in parse_dhcp_packet buf ≡ ok (packet_of buf os))
      (append-nil (encode_options os)) (parse-fixed_padded fixed os [] h encodable)

length-dns_bytes : (ips : List Str) → length (dns_bytes ips) ≡ 4 * length ips
unfolding ipv4_to_buffer write_ipv4 write_bytes
length-dns_bytes [] = refl
length-dns_bytes (ip ∷ ips) = omega (arith, length-dns_bytes ips)

-- Up to 63 name servers fit into an option.
pub dns_opts-IsEncodable :
    (ips : List Str) (seen : OptionMap)
    → length ips ≤ 63
    → get_option dns_option seen ≡ none
    → IsEncodable seen (dns_opts ips)
dns_opts-IsEncodable [] seen h new = tt
dns_opts-IsEncodable (ip ∷ ips) seen h new =
    (omega arith, omega arith, omega (arith, length-dns_bytes (ip ∷ ips)), new, tt)

reply_options-IsEncodable :
    (a : ReplyData)
    → length a.dns_servers ≤ 63
    → IsEncodable [] (reply_options a (bytes32 a.lease_time))
unfolding get_option ipv4_to_buffer write_ipv4 write_bytes
reply_options-IsEncodable a h = (
  omega arith,
  omega arith,
  omega arith,
  refl,
  (
    omega arith,
    omega arith,
    omega arith,
    refl,
    (
      omega arith,
      omega arith,
      omega arith,
      refl,
      (
        omega arith,
        omega arith,
        omega arith,
        refl,
        (omega arith, omega arith, omega arith, refl, dns_opts-IsEncodable a.dns_servers _ h refl),
      ),
    ),
  ),
)

-- What the client reads.
pub record Answers (request : DhcpPacket) (a : ReplyData) (p : DhcpPacket) : Type 0 where
  pub is_reply : p.op ≡ 2
  pub xid : p.xid ≡ request.xid
  pub ciaddr : p.ciaddr ≡ request.ciaddr
  pub yiaddr : p.yiaddr ≡ a.offered_ip
  pub siaddr : p.siaddr ≡ a.tftp_server_ip
  pub chaddr : p.chaddr ≡ request.chaddr
  pub message_type : p.message_type ≡ some a.reply_type
  pub file : p.file ≡ a.boot_file
  pub server_id : p.server_id ≡ some a.server_ip

-- What an encoder may be given.
pub record IsReplyData (request : DhcpPacket) (a : ReplyData) : Type 0 where
  pub xid : request.xid < 2 ^ 32
  pub lease_time : a.lease_time < 2 ^ 32
  pub dns_servers : length a.dns_servers ≤ 63
  pub ciaddr : IsAddress request.ciaddr
  pub offered_ip : IsAddress a.offered_ip
  pub tftp_server_ip : IsAddress a.tftp_server_ip
  pub server_ip : IsAddress a.server_ip
  pub boot_file : IsName 128 a.boot_file
  pub chaddr : IsMac request.chaddr

module _ (request : DhcpPacket) (a : ReplyData) (w : IsReplyData request a) where
  fixed_part : Buffer
  fixed_part =
      before_file request.xid 0
        (quad_bytes (split b'.' request.ciaddr)
          ++ (quad_bytes (split b'.' a.offered_ip)
              ++ (quad_bytes (split b'.' a.tftp_server_ip)
                  ++ quad_bytes (split b'.' (codes "0.0.0.0")))))
        (mac_bytes (split b':' request.chaddr))
      ++ write_bytes (replicate 128 0) 0 (from_ascii a.boot_file)

  length-fixed_part : length fixed_part ≡ 236
  unfolding fixed_part
  length-fixed_part = omega (arith, length-write_bytes (replicate 128 0) (from_ascii a.boot_file) 0)

  encoded :
      encode_dhcp_reply request a
      ≡ some
          (fixed_part ++ (cookie_bytes ++ encode_options (reply_options a (bytes32 a.lease_time))))
  unfolding encode_dhcp_reply write_uint32_be write_bytes fixed_part
  encoded =
      rw
        (
          reply_header_lem request.xid w.xid,
          le→not_ltb 4294967295 a.lease_time (omega (arith, w.lease_time)),
          reply_fields_lem request a request.xid,
        )
        refl

  answers :
      (rest : Buffer)
      → Answers request a (packet_of (fixed_part ++ rest) (reply_options a (bytes32 a.lease_time)))
  unfolding packet_of fixed_part read_ipv4 read_mac get_option ipv4_to_buffer write_ipv4 write_bytes
  answers rest = record {
    is_reply = refl;
    xid = omega (arith, w.xid);
    ciaddr = dotted_of-quad_bytes request.ciaddr w.ciaddr;
    yiaddr = dotted_of-quad_bytes a.offered_ip w.offered_ip;
    siaddr = dotted_of-quad_bytes a.tftp_server_ip w.tftp_server_ip;
    chaddr = mac_text-mac_bytes request.chaddr w.chaddr;
    message_type = refl;
    file = read_field 128 a.boot_file rest w.boot_file;
    server_id = ap some (dotted_of-quad_bytes a.server_ip w.server_ip);
  }

  -- A reply to a request, with addresses in canonical form, numbers that fit into 32 bits, a boot file name of at most 128 7-bit characters without NUL and at most 63 name
  -- servers, is encoded without an error and parsed without one, and it reads as the answer: a BOOTREPLY with the
  -- request's transaction number and hardware address, the offered address, the TFTP server as the
  -- next server, the boot file name, the message type and the server's identifier.
  pub parse-encode_dhcp_reply :
      (buf : Buffer) × (p : DhcpPacket) × (encode_dhcp_reply request a ≡ some buf)
      × (parse_dhcp_packet buf ≡ ok p)
      × Answers request a p
  parse-encode_dhcp_reply =
      let os = reply_options a (bytes32 a.lease_time) in
      let rest = cookie_bytes ++ encode_options os in
      (
        fixed_part ++ rest,
        packet_of (fixed_part ++ rest) os,
        encoded,
        parse-fixed fixed_part os length-fixed_part (reply_options-IsEncodable a w.dns_servers),
        answers rest,
      )
