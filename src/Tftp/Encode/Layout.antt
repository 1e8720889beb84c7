-- ===== src/Tftp/Encode/Layout.antt =====
-- The bytes that the encoders of src/tftp/protocol.mts produce.
use tsbootkit.Base.{
  ℕ, ◌+◌, ◌≡◌, ◌≤◌, ◌<◌, refl, ap, ap₂, arith, Option, none, some, List, [], ◌∷◌, ◌++◌, length,
  length-append, append_assoc, append-nil, take, take-append, le→not_ltb, lt→ltb, replicate,
  length-replicate,
}
use tsbootkit.Base.Text.{Str}
use tsbootkit.Base.Buffer.{
  Buffer, Filled, write_bytes-Filled, write_uint8, write_uint16_be, from_ascii, bytes16,
  length-from_ascii,
}
use tsbootkit.Tftp.Types.{RawOptions}
use tsbootkit.Tftp.Encode.{
  write_ascii, write_null_string, write_option_pairs, option_pairs_length, encode_request,
  encode_oack, encode_error, encode_data, encode_ack, message_or_standard,
}

unfoldable pub null_terminated : Str → List ℕ
null_terminated s = from_ascii s ++ (0 ∷ [])

unfoldable pub pair_bytes : RawOptions → List ℕ
pair_bytes [] = []
pair_bytes ((key, val) ∷ opts) = null_terminated key ++ (null_terminated val ++ pair_bytes opts)

pub length-null_terminated : (s : Str) → length (null_terminated s) ≡ length s + 1
unfolding null_terminated
length-null_terminated s = omega (arith, length-append (from_ascii s) (0 ∷ []), length-from_ascii s)

length-Filled : (done : List ℕ) (n : ℕ) → length (Filled done n) ≡ length done + n
length-Filled done n =
    omega (arith, length-append done (replicate n 0), length-replicate {A = ℕ} n 0)

write_ascii-Filled :
    (done : List ℕ) (s : Str) {n : ℕ} (room : ℕ)
    → n ≡ length s + room
    → write_ascii (Filled done n) (length done) s ≡ some (Filled (done ++ from_ascii s) room)
unfolding write_ascii
write_ascii-Filled done s {n} room e =
    rw (le→not_ltb (length (Filled done n)) (length done) (omega (arith, length-Filled done n)))
      (ap some (write_bytes-Filled done (from_ascii s) room (omega (arith, length-from_ascii s))))

write_uint8-Filled :
    (done : List ℕ) (room o : ℕ)
    → o ≡ length done
    → write_uint8 (Filled done (room + 1)) 0 o ≡ some (Filled (done ++ 0 ∷ []) room)
unfolding write_uint8
write_uint8-Filled done room o e =
    rw
      (
        le→not_ltb (length (Filled done (room + 1))) (o + 1)
            (omega (arith, length-Filled done (room + 1))),
        e,
      )
      (ap some (write_bytes-Filled done (0 ∷ []) room (omega arith)))

pub write_null_string-Filled :
    (done : List ℕ) (s : Str) {n : ℕ} (room : ℕ)
    → n ≡ length s + (room + 1)
    → write_null_string (Filled done n) (length done) s
      ≡ some (Filled (done ++ null_terminated s) room, length (done ++ null_terminated s))
unfolding write_null_string null_terminated
write_null_string-Filled done s {n} room e =
    rw
      (
        write_ascii-Filled done s (room + 1) e,
        write_uint8-Filled (done ++ from_ascii s) room (length done + length s)
            (omega (arith, length-append done (from_ascii s), length-from_ascii s)),
      )
      (ap₂ (λ bs o. some (Filled bs room, o)) (append_assoc done (from_ascii s) (0 ∷ []))
        (omega (
          arith,
          length-append done (from_ascii s ++ (0 ∷ [])),
          length-append (from_ascii s) (0 ∷ []),
          length-from_ascii s,
        )))

write_option_pairs-Filled :
    (done : List ℕ) (opts : RawOptions) {n : ℕ} (room : ℕ)
    → n ≡ option_pairs_length opts + room
    → write_option_pairs (Filled done n) (length done) opts
      ≡ some (Filled (done ++ pair_bytes opts) room, length (done ++ pair_bytes opts))
unfolding write_option_pairs pair_bytes option_pairs_length
write_option_pairs-Filled done [] {n} room e =
    rw (append-nil done) (ap (λ k. some (Filled done k, length done)) (omega arith))
write_option_pairs-Filled done ((key, val) ∷ opts) {n} room e =
    rw
      (
        write_null_string-Filled done key {n = n} (length val + 1 + option_pairs_length opts + room)
            (omega arith),
        write_null_string-Filled (done ++ null_terminated key) val
            {n = length val + 1 + option_pairs_length opts + room} (option_pairs_length opts + room)
            (omega arith),
        write_option_pairs-Filled ((done ++ null_terminated key) ++ null_terminated val) opts room
            refl,
      )
      (ap (λ bs. some (Filled bs room, length bs)) (simp append_assoc))

write_uint16_be-Filled :
    (done : List ℕ) (v o : ℕ) {n : ℕ} (room : ℕ)
    → v ≤ 65535
    → o ≡ length done
    → n ≡ 2 + room
    → write_uint16_be (Filled done n) v o ≡ some (Filled (done ++ bytes16 v) room)
unfolding write_uint16_be
write_uint16_be-Filled done v o {n} room fits at_end e =
    rw
      (
        le→not_ltb 65535 v fits,
        le→not_ltb (length (Filled done n)) (o + 2) (omega (arith, length-Filled done n)),
        at_end,
      )
      (ap some (write_bytes-Filled done (bytes16 v) room e))

take-Filled : (done : List ℕ) → take (length done) (Filled done 0) ≡ done
take-Filled done = take-append done []

-- An encoded request is the opcode and the null-terminated strings, with no byte before, between
-- or behind them, for every file name, mode and option list.
pub encode_request_lem :
    (opcode : ℕ) (filename mode : Str) (opts : RawOptions)
    → opcode ≤ 65535
    → encode_request opcode filename mode opts
      ≡ some (
          bytes16 opcode ++ (null_terminated filename ++ (null_terminated mode ++ pair_bytes opts)))
unfolding encode_request
encode_request_lem opcode filename mode opts fits =
    rw
      (
        write_uint16_be-Filled [] opcode 0
            (length filename + 1 + length mode + 1 + option_pairs_length opts) fits refl refl,
        write_null_string-Filled (bytes16 opcode) filename
            {n = length filename + 1 + length mode + 1 + option_pairs_length opts}
            (length mode + 1 + option_pairs_length opts) (omega arith),
        write_null_string-Filled (bytes16 opcode ++ null_terminated filename) mode
            {n = length mode + 1 + option_pairs_length opts} (option_pairs_length opts)
            (omega arith),
        write_option_pairs-Filled
            ((bytes16 opcode ++ null_terminated filename) ++ null_terminated mode) opts
            {n = option_pairs_length opts} 0 (omega arith),
        take-Filled (
            ((bytes16 opcode ++ null_terminated filename) ++ null_terminated mode)
            ++ pair_bytes opts),
      )
      (ap some (simp append_assoc))

-- An encoded OACK is the opcode and the null-terminated pairs.
pub encode_oack_lem : (opts : RawOptions) → encode_oack opts ≡ some (0 ∷ 6 ∷ pair_bytes opts)
unfolding encode_oack
encode_oack_lem opts = rw (
  write_uint16_be-Filled [] 6 0 {n = 2 + option_pairs_length opts} (option_pairs_length opts)
      (omega arith) refl refl,
  write_option_pairs-Filled (bytes16 6) opts {n = option_pairs_length opts} 0 (omega arith),
  take-Filled (bytes16 6 ++ pair_bytes opts),
)

-- An encoded ERROR is the opcode, the code and the null-terminated message; without a message, the
-- standard one.
pub encode_error_lem :
    (code : ℕ) (message : Option Str)
    → code ≤ 65535
    → encode_error code message
      ≡ some (0 ∷ 5 ∷ (bytes16 code ++ null_terminated (message_or_standard code message)))
unfolding encode_error
encode_error_lem code message fits =
    let msg : Str = message_or_standard code message in
    rw (
      write_uint16_be-Filled [] 5 0 {n = 2 + 2 + length msg + 1} (2 + length msg + 1) (omega arith)
          refl (omega arith),
      write_uint16_be-Filled (bytes16 5) code 2 {n = 2 + length msg + 1} (length msg + 1) fits refl
          (omega arith),
      write_null_string-Filled (bytes16 5 ++ bytes16 code) msg {n = length msg + 1} 0 (omega arith),
      take-Filled ((bytes16 5 ++ bytes16 code) ++ null_terminated msg),
    )

-- An encoded DATA packet is the opcode, the block number and the data.
pub encode_data_lem :
    (block_num : ℕ) (content : Buffer)
    → block_num ≤ 65535
    → encode_data block_num content ≡ some (0 ∷ 3 ∷ (bytes16 block_num ++ content))
unfolding encode_data
encode_data_lem block_num content fits = rw (
  write_uint16_be-Filled [] 3 0 {n = 2 + 2 + length content} (2 + length content) (omega arith) refl
      (omega arith),
  write_uint16_be-Filled (bytes16 3) block_num 2 {n = 2 + length content} (length content) fits refl
      (omega arith),
  write_bytes-Filled (bytes16 3 ++ bytes16 block_num) content {n = length content} 0 (omega arith),
  append-nil content,
)

-- A block number that does not fit 16 bits makes the encoder throw.
pub encode_data_range :
    (block_num : ℕ) (content : Buffer) → 65535 < block_num → encode_data block_num content ≡ none
unfolding encode_data write_uint16_be
encode_data_range block_num content big = rw (lt→ltb 65535 block_num big) (ground arith)

pub encode_ack_lem :
    (block_num : ℕ) → block_num ≤ 65535 → encode_ack block_num ≡ some (0 ∷ 4 ∷ bytes16 block_num)
unfolding encode_ack
encode_ack_lem block_num fits = rw (le→not_ltb 65535 block_num fits)
