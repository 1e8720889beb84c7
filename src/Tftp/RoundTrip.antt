-- ===== src/Tftp/RoundTrip.antt =====
-- src/tftp/protocol.mts: parsePacket after each encoder.
use tsbootkit.Base.{
  ℕ, ◌+◌, ◌-◌, ◌≡◌, ◌≢◌, ◌≤◌, ◌%◌, ◌⊎◌, inl, inr, refl, ap, ap₂, ◌∙◌, arith, true, false, Option,
  some, [], ◌∷◌, ◌++◌, length, ◌==◌, ok, length-append, le→not_ltb, take-all,
}
use tsbootkit.Base.Text.{Str, codes, to_lower, is_empty}
use tsbootkit.Base.Buffer.{uint16_at, Buffer, from_ascii, to_ascii, bytes16}
use tsbootkit.Base.Store.{has}
use tsbootkit.Tftp.Types.{RawOptions, Request, Packet, transfer_modes}
use tsbootkit.Tftp.Encode.{
  encode_rrq, encode_wrq, encode_data, encode_ack, encode_error, encode_oack, message_or_standard,
}
use tsbootkit.Tftp.Encode.Layout.{
  null_terminated, length-null_terminated, pair_bytes, encode_request_lem, encode_data_lem,
  encode_ack_lem, encode_error_lem, encode_oack_lem,
}
use tsbootkit.Tftp.Parse.{
  parse_packet, parse_payload, parse_rrq_payload, parse_wrq_payload, parse_data_payload,
  parse_ack_payload, parse_error_payload, parse_oack_payload, parse_request, request_of_parts,
  split_null_strings, pop_empty, before_null, parse_option_pairs,
}
use tsbootkit.Tftp.Parse.Strings.{
  IsText, IsWellFormed, split-null_terminated, split-pair_bytes, collect-parts_of,
  pop_empty-parts_of, parts_of_even, parts_of,
}

-- What a request must be to survive the wire.
pub record IsSendable (r : Request) : Type 0 where
  pub name_text : IsText r.filename
  pub named : is_empty r.filename ≡ false
  pub mode_known : (r.mode ≡ codes "octet") ⊎ (r.mode ≡ codes "netascii")
  pub options_fit : IsWellFormed [] r.options

request_parts :
    (r : Request)
    → IsSendable r
    → IsText r.mode
    → split_null_strings
        (null_terminated r.filename ++ (null_terminated r.mode ++ pair_bytes r.options))
      ≡ r.filename ∷ r.mode ∷ parts_of r.options
unfolding split_null_strings
request_parts r v t = rw (
  split-null_terminated r.filename (null_terminated r.mode ++ pair_bytes r.options) v.name_text,
  split-null_terminated r.mode (pair_bytes r.options) t,
  split-pair_bytes [] r.options v.options_fit,
)

pop_empty-request :
    (filename mode : Str) (opts : RawOptions)
    → is_empty mode ≡ false
    → IsWellFormed [] opts
    → pop_empty (filename ∷ mode ∷ parts_of opts) ≡ filename ∷ mode ∷ parts_of opts
unfolding pop_empty parts_of
pop_empty-request filename mode [] full h = rw full
pop_empty-request filename mode (p ∷ opts) full h =
    ap (λ t. filename ∷ mode ∷ t) (pop_empty-parts_of [] (p ∷ opts) h)

request_of_parts-sendable :
    (label : Str) (r : Request)
    → IsSendable r
    → to_lower r.mode ≡ r.mode
    → has r.mode transfer_modes ≡ true
    → request_of_parts label (r.filename ∷ r.mode ∷ parts_of r.options) ≡ ok r
unfolding request_of_parts
request_of_parts-sendable label r v low known =
    rw (low, v.named, known, parts_of_even r.options, collect-parts_of [] r.options v.options_fit)

mode_facts :
    (mode : Str)
    → (mode ≡ codes "octet") ⊎ (mode ≡ codes "netascii")
    → IsText mode
      × (is_empty mode ≡ false)
      × (to_lower mode ≡ mode)
      × (has mode transfer_modes ≡ true)
unfolding to_lower has
mode_facts mode (inl e) = rw e (grind arith, refl, refl, refl)
mode_facts mode (inr e) = rw e (grind arith, refl, refl, refl)

parse_request-sendable :
    (label : Str) (r : Request)
    → IsSendable r
    → parse_request label
        (null_terminated r.filename ++ (null_terminated r.mode ++ pair_bytes r.options))
      ≡ ok r
unfolding parse_request
parse_request-sendable label r v =
    let (text, full, low, known) = mode_facts r.mode v.mode_known in
    rw (
      request_parts r v text,
      pop_empty-request r.filename r.mode r.options full v.options_fit,
      request_of_parts-sendable label r v low known,
    )

parse_packet-opcode :
    (op : ℕ) (payload : Buffer) → parse_packet (0 ∷ op ∷ payload) ≡ parse_payload op payload
unfolding parse_packet
parse_packet-opcode op payload =
    rw (le→not_ltb (length (0 ∷ op ∷ payload)) 2 (omega arith), parse_packet)
      (ap (λ k. parse_payload k payload) {x = uint16_at (0 ∷ op ∷ payload) 0} {y = op}
        (omega arith))

-- A read request with a non-empty ASCII file name without nulls, mode "octet" or "netascii", and
-- known options, each once, with such non-empty values, is encoded to a packet that parses back to
-- it.
pub parse-encode_rrq :
    (r : Request)
    → IsSendable r
    → (packet : Buffer) × (encode_rrq r.filename r.mode r.options ≡ some packet)
      × (parse_packet packet ≡ ok (some (Packet.rrq r)))
unfolding encode_rrq parse_rrq_payload
parse-encode_rrq r v = (
  _,
  encode_request_lem 1 r.filename r.mode r.options (omega arith),
  parse_packet-opcode 1 _ ∙ rw (parse_request-sendable (codes "RRQ") r v),
)

-- The same of a write request.
pub parse-encode_wrq :
    (r : Request)
    → IsSendable r
    → (packet : Buffer) × (encode_wrq r.filename r.mode r.options ≡ some packet)
      × (parse_packet packet ≡ ok (some (Packet.wrq r)))
unfolding encode_wrq parse_wrq_payload
parse-encode_wrq r v = (
  _,
  encode_request_lem 2 r.filename r.mode r.options (omega arith),
  parse_packet-opcode 2 _ ∙ rw (parse_request-sendable (codes "WRQ") r v),
)

-- DATA with a 16-bit block number, and whatever bytes, parses back to itself.
pub parse-encode_data :
    (block_num : ℕ) (content : Buffer)
    → block_num ≤ 65535
    → (packet : Buffer) × (encode_data block_num content ≡ some packet)
      × (parse_packet packet ≡ ok (some (Packet.data_packet block_num content)))
unfolding parse_data_payload
parse-encode_data block_num content fits = (
  _,
  encode_data_lem block_num content fits,
  parse_packet-opcode 3 _
      ∙ rw (le→not_ltb (length (bytes16 block_num ++ content)) 2 (omega arith))
          (ap (λ k. ok (some (Packet.data_packet k content))) (omega arith)),
)

-- So does ACK.
pub parse-encode_ack :
    (block_num : ℕ)
    → block_num ≤ 65535
    → (packet : Buffer) × (encode_ack block_num ≡ some packet)
      × (parse_packet packet ≡ ok (some (Packet.ack block_num)))
unfolding parse_ack_payload
parse-encode_ack block_num fits = (
  _,
  encode_ack_lem block_num fits,
  parse_packet-opcode 4 _ ∙ ap (λ k. ok (some (Packet.ack k))) (omega arith),
)

before_null-text : (s : Str) → IsText s → to_ascii (before_null (null_terminated s)) ≡ s
unfolding before_null to_ascii null_terminated from_ascii
before_null-text [] h = refl
before_null-text (c ∷ s) ((nz, p), h) =
    let kept : (c % 256 == 0) ≡ false = ground arith in
    rw kept (ap₂ ◌∷◌ (omega arith) (before_null-text s h))

-- ERROR with a 16-bit code and an ASCII message without nulls parses back to its code and message;
-- sent without a message, to the standard one.
pub parse-encode_error :
    (code : ℕ) (message : Option Str)
    → code ≤ 65535
    → IsText (message_or_standard code message)
    → (packet : Buffer) × (encode_error code message ≡ some packet)
      × (parse_packet packet ≡ ok (some (Packet.error code (message_or_standard code message))))
unfolding parse_error_payload
parse-encode_error code message fits text =
    let msg : Str = message_or_standard code message in
    (
      _,
      encode_error_lem code message fits,
      parse_packet-opcode 5 _
          ∙ rw (le→not_ltb (length (bytes16 code ++ null_terminated msg)) 2 (omega arith))
              (ap₂ (λ k m. ok (some (Packet.error k m))) (omega arith) (before_null-text msg text)),
    )

pair_bytes_ne : (p : Str × Str) (opts : RawOptions) → (length (pair_bytes (p ∷ opts)) == 0) ≡ false
unfolding pair_bytes
pair_bytes_ne (key, val) opts = ground (
  arith,
  length-append (null_terminated key) (null_terminated val ++ pair_bytes opts),
  length-null_terminated key,
)

-- OACK with at least one option, each known, named once and with a non-empty ASCII value without
-- nulls, parses back to its options.
pub parse-encode_oack :
    (opts : RawOptions)
    → opts ≢ []
    → IsWellFormed [] opts
    → (packet : Buffer) × (encode_oack opts ≡ some packet)
      × (parse_packet packet ≡ ok (some (Packet.oack opts)))
unfolding parse_oack_payload parse_option_pairs split_null_strings
parse-encode_oack [] some_option v = absurd (some_option refl)
parse-encode_oack (p ∷ opts) some_option v =
    let all = p ∷ opts in
    (
      _,
      encode_oack_lem all,
      parse_packet-opcode 6 _
          ∙ rw (
            pair_bytes_ne p opts,
            take-all (0 + length (pair_bytes all) - 0) (pair_bytes all) (omega arith),
            split-pair_bytes [] all v,
            pop_empty-parts_of [] all v,
            parts_of_even all,
            collect-parts_of [] all v,
          ),
    )
