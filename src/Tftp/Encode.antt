-- ===== src/Tftp/Encode.antt =====
-- src/tftp/protocol.mts: the encoders, which fill a buffer of the computed length from the left.
-- `none` is a RangeError of a buffer method.
pub mod Layout
use tsbootkit.Base.{
  ℕ, ◌+◌, ◌≡◌, Option, none, some, List, [], ◌∷◌, ◌++◌, if◌then◌else◌, length, ltb, get_elem?, take,
}
use tsbootkit.Base.Text.{Str}
use tsbootkit.Base.Buffer.{
  Buffer, alloc, write_bytes, write_uint8, write_uint16_be, from_ascii, ◌>>=◌,
}
use tsbootkit.Tftp.Opcode
use tsbootkit.Tftp.Types.{RawOptions, opcode_len, blocknum_len, data_header_len, error_messages}

-- buf.write(str, offset, 'ascii')
unfoldable pub write_ascii : Buffer → ℕ → Str → Option Buffer
unfolding write_bytes from_ascii
write_ascii buf offset str =
    if ltb (length buf) offset then none else some (write_bytes buf offset (from_ascii str))

unfoldable pub write_null_string : Buffer → ℕ → Str → Option (Buffer × ℕ)
unfolding write_ascii write_uint8
write_null_string buf offset str = do
  written ← write_ascii buf offset str
  ended ← write_uint8 written 0 (offset + length str)
  some (ended, offset + length str + 1)

unfoldable pub option_pairs_length : RawOptions → ℕ
option_pairs_length [] = 0
option_pairs_length ((key, val) ∷ opts) =
    (length key + 1) + (length val + 1) + option_pairs_length opts

unfoldable pub write_option_pairs : Buffer → ℕ → RawOptions → Option (Buffer × ℕ)
unfolding write_null_string
write_option_pairs buf offset [] = some (buf, offset)
write_option_pairs buf offset ((key, val) ∷ opts) = do
  (keyed, after_key) ← write_null_string buf offset key
  (valued, after_val) ← write_null_string keyed after_key val
  write_option_pairs valued after_val opts

-- The common body of encodeRRQ and encodeWRQ.
unfoldable pub encode_request : ℕ → Str → Str → RawOptions → Option Buffer
unfolding option_pairs_length write_option_pairs write_uint16_be
encode_request opcode filename mode opts = do
  let payload_len = length filename + 1 + length mode + 1 + option_pairs_length opts
  headed ← write_uint16_be (alloc (opcode_len + payload_len)) opcode 0
  (named, after_name) ← write_null_string headed opcode_len filename
  (moded, after_mode) ← write_null_string named after_name mode
  (full, offset) ← write_option_pairs moded after_mode opts
  some (take offset full)

unfoldable pub encode_rrq : Str → Str → RawOptions → Option Buffer
unfolding encode_request
encode_rrq = encode_request Opcode.rrq

unfoldable pub encode_wrq : Str → Str → RawOptions → Option Buffer
unfolding encode_request
encode_wrq = encode_request Opcode.wrq

unfoldable pub encode_data : ℕ → Buffer → Option Buffer
unfolding write_uint16_be write_bytes
encode_data block_num content = do
  headed ← write_uint16_be (alloc (data_header_len + length content)) Opcode.data_op 0
  numbered ← write_uint16_be headed block_num opcode_len
  some (write_bytes numbered data_header_len content)

unfoldable pub encode_ack : ℕ → Option Buffer
unfolding write_uint16_be
encode_ack block_num = do
  headed ← write_uint16_be (alloc (opcode_len + blocknum_len)) Opcode.ack 0
  write_uint16_be headed block_num opcode_len

-- A missing message is replaced by the standard one. A code outside the enumeration has none;
-- the callers pass only codes of the enumeration.
abbrev pub message_or_standard : ℕ → Option Str → Str
message_or_standard code (some message) = message
message_or_standard code none = elim (get_elem? error_messages code) [ none ↦ [] | some m ↦ m ]

unfoldable pub encode_error : ℕ → Option Str → Option Buffer
unfolding write_uint16_be write_null_string
encode_error error_code message = do
  let msg = message_or_standard error_code message
  headed ← write_uint16_be (alloc (opcode_len + blocknum_len + length msg + 1)) Opcode.error 0
  coded ← write_uint16_be headed error_code opcode_len
  (full, offset) ← write_null_string coded (opcode_len + blocknum_len) msg
  some (take offset full)

unfoldable pub encode_oack : RawOptions → Option Buffer
unfolding option_pairs_length write_option_pairs write_uint16_be
encode_oack opts = do
  headed ← write_uint16_be (alloc (opcode_len + option_pairs_length opts)) Opcode.oack 0
  (full, offset) ← write_option_pairs headed opcode_len opts
  some (take offset full)
