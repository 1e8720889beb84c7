-- ===== src/Dhcp/Frame/Checksum.antt =====
-- The checksum of an IP header against its definition, the ones' complement sum of the words.
use tsbootkit.Base.{
  le→not_ltb, ◌/◌, ℕ, ◌+◌, ◌-◌, ◌*◌, ◌%◌, ◌==◌, ◌≡◌, ◌≤◌, ◌<◌, refl, ap, ◌∙◌, arith, some, List, [],
  ◌∷◌, ◌++◌, if◌then◌else◌, All,
}
use tsbootkit.Base.Buffer.{write_uint16_be, write_bytes, Buffer, IsByte}
use tsbootkit.Base.Text.{Str, split}
use tsbootkit.Dhcp.Packet.{quad_bytes, write_ipv4}
use tsbootkit.Dhcp.Frame.{ip_header, checked_header, carried, ip_sum, ip_checksum}

-- The sum of the words without a bound.
unfoldable pub word_sum : Buffer → ℕ
word_sum [] = 0
word_sum (high ∷ []) = high * 256
word_sum (high ∷ low ∷ rest) = (high * 256 + low) + word_sum rest

-- A sum with its carries added back: 0 is 0, and the others are 1 to 65535 modulo 65535.
abbrev pub ones_complement : ℕ → ℕ
ones_complement n = if n == 0 then 0 else (n - 1) % 65535 + 1

carried-ones_complement :
    (n w : ℕ) → w ≤ 65535 → carried (ones_complement n + w) ≡ ones_complement (n + w)
carried-ones_complement n w h = ground arith

ip_sum-ones_complement :
    (header : Buffer) (n : ℕ)
    → All IsByte header
    → ip_sum (ones_complement n) header ≡ ones_complement (n + word_sum header)
unfolding ip_sum word_sum
ip_sum-ones_complement [] n h = ap ones_complement (omega arith)
ip_sum-ones_complement (high ∷ []) n (h, hs) = carried-ones_complement n (high * 256) (omega arith)
ip_sum-ones_complement (high ∷ low ∷ rest) n (h, (l, hs)) =
    rw (carried-ones_complement n (high * 256 + low) (omega arith))
      (ip_sum-ones_complement rest (n + (high * 256 + low)) hs ∙ ap ones_complement (omega arith))

-- Of bytes, the checksum that is computed with a carry after every word is the complement of the ones' complement
-- sum of all words, and needs no more than 16 bits.
pub ip_checksum-ones_complement :
    (header : Buffer)
    → All IsByte header
    → (ip_checksum header ≡ 65535 - ones_complement (word_sum header))
      × (ones_complement (word_sum header) ≤ 65535)
unfolding ip_checksum
ip_checksum-ones_complement header h =
    let from_zero : 0 + word_sum header ≡ word_sum header = omega arith in
    (
      ap (λ n. 65535 - n) (ip_sum-ones_complement header 0 h ∙ ap ones_complement from_zero),
      ground arith,
    )

-- The header of a frame, with `ck` for its checksum.
abbrev header_bytes : ℕ → ℕ → List ℕ → Buffer
header_bytes total_len ck quads =
    69
    ∷ 0
    ∷ total_len / 256
    ∷ total_len % 256
    ∷ 0
    ∷ 0
    ∷ 0
    ∷ 0
    ∷ 64
    ∷ 17
    ∷ ck / 256
    ∷ ck % 256
    ∷ quads

abbrev both_quads : Str → Str → List ℕ
both_quads src_ip dst_ip = quad_bytes (split b'.' src_ip) ++ quad_bytes (split b'.' dst_ip)

ip_header_lem :
    (total_len : ℕ) (src_ip dst_ip : Str)
    → total_len ≤ 65535
    → ip_header total_len src_ip dst_ip ≡ some (header_bytes total_len 0 (both_quads src_ip dst_ip))
unfolding ip_header write_uint16_be write_ipv4 write_bytes
ip_header_lem total_len src_ip dst_ip h = rw (le→not_ltb 65535 total_len h) refl

checked_header_lem :
    (total_len ck : ℕ) (src_ip dst_ip : Str)
    → let header = header_bytes total_len 0 (both_quads src_ip dst_ip) in
      ip_checksum header ≡ ck
      → ck ≤ 65535
      → checked_header header ≡ some (header_bytes total_len ck (both_quads src_ip dst_ip))
unfolding checked_header write_uint16_be write_bytes
checked_header_lem total_len ck src_ip dst_ip e h = rw (e, le→not_ltb 65535 ck h) refl

quads-IsByte : (src_ip dst_ip : Str) → All IsByte (both_quads src_ip dst_ip)
quads-IsByte src_ip dst_ip = ground arith

header-IsByte :
    (total_len ck : ℕ) (quads : List ℕ)
    → total_len ≤ 65535
    → ck ≤ 65535
    → All IsByte quads
    → All IsByte (header_bytes total_len ck quads)
header-IsByte total_len ck quads fits small bytes = ground arith

word_sum-header :
    (total_len ck : ℕ) (quads : List ℕ)
    → word_sum (header_bytes total_len ck quads) ≡ 34065 + (total_len + ck + word_sum quads)
unfolding word_sum
word_sum-header total_len ck quads = omega arith

completes : (n : ℕ) → 0 < n → ones_complement (n + (65535 - ones_complement n)) ≡ 65535
completes n h = ground arith

-- The IP header of a frame whose total length fits into 16 bits is built and gets its checksum without an error,
-- and the sum that its receiver takes over the whole header, the checksum included, is 65535: the
-- header verifies, whatever the addresses are.
pub checked_header_verifies :
    (total_len : ℕ) (src_ip dst_ip : Str)
    → total_len ≤ 65535
    → (header : Buffer) × (checked : Buffer) × (ip_header total_len src_ip dst_ip ≡ some header)
      × (checked_header header ≡ some checked)
      × (ip_sum 0 checked ≡ 65535)
checked_header_verifies total_len src_ip dst_ip fits =
    let quads = both_quads src_ip dst_ip in
    let header = header_bytes total_len 0 quads in
    let bytes = quads-IsByte src_ip dst_ip in
    let ck = ip_checksum header in
    let (reference, _) =
      ip_checksum-ones_complement header
        (header-IsByte total_len 0 quads fits (omega arith) bytes) in
    let small : ck ≤ 65535 = omega (arith, reference) in
    let total = word_sum header in
    let same : word_sum (header_bytes total_len ck quads)
        ≡ total + (65535 - ones_complement total) =
      omega
        (arith, reference, word_sum-header total_len ck quads, word_sum-header total_len 0 quads) in
    (
      header,
      header_bytes total_len ck quads,
      ip_header_lem total_len src_ip dst_ip fits,
      checked_header_lem total_len ck src_ip dst_ip refl small,
      ip_sum-ones_complement (header_bytes total_len ck quads) 0
            (header-IsByte total_len ck quads fits small bytes)
          ∙ ap ones_complement (omega (arith, same))
          ∙ completes total (omega (arith, word_sum-header total_len 0 quads)),
    )
