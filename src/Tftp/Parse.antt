-- ===== src/Tftp/Parse.antt =====
-- src/tftp/protocol.mts: the parsers. A thrown ProtocolError is `err` with its message.
pub mod Strings
use tsbootkit.Base.{
  ℕ, ◌+◌, ◌%◌, ◌≡◌, refl, Bool, true, false, Option, none, some, List, [], ◌∷◌, ◌++◌, if◌then◌else◌,
  length, ltb, get_or, drop, Result, ok, err, ◌>>=◌, ◌>>◌, throw_if, ◌==◌, not, take,
}
use tsbootkit.Base.Text.{Str, codes, to_lower, is_empty}
use tsbootkit.Base.Buffer.{Buffer, to_ascii, uint16_at, subarray}
use tsbootkit.Base.Store.{has}
use tsbootkit.Base.Store
use tsbootkit.Tftp.Opcode
use tsbootkit.Tftp.Types.{
  RawOptions, Request, Packet, option_names, transfer_modes, opcode_len, blocknum_len,
}

-- ProtocolError
pub data ProtocolError : Type 0 where
  protocol_error : Str → ProtocolError

-- `none` is the source's `undefined`, for a buffer that is too short.
unfoldable pub get_opcode : Buffer → Option ℕ
get_opcode buf = if ltb (length buf) opcode_len then none else some (uint16_at buf 0)

-- The loop of splitNullStrings: `current` is buf[start..i). A remainder that no null ends counts
-- if it is not empty.
unfoldable pub split_null_from : Buffer → Buffer → List Str
unfolding to_ascii
split_null_from current [] = if is_empty current then [] else to_ascii current ∷ []
split_null_from current (b ∷ bs) =
    let next = split_null_from [] bs in
    let longer = split_null_from (current ++ (b ∷ [])) bs in
    if b == 0 then to_ascii current ∷ next else longer

unfoldable pub split_null_strings : Buffer → List Str
unfolding split_null_from
split_null_strings buf = split_null_from [] buf

-- `if (parts[parts.length - 1] === '') parts.pop()`
unfoldable pub pop_empty : List Str → List Str
pop_empty [] = []
pop_empty (s ∷ []) = if is_empty s then [] else s ∷ []
pop_empty (s ∷ t ∷ ts) = s ∷ pop_empty (t ∷ ts)

-- The loop over option pairs; options that are not known are skipped.
unfoldable pub collect_options : RawOptions → List Str → RawOptions
unfolding to_lower has Store.set
collect_options opts [] = opts
collect_options opts (key ∷ []) = opts
collect_options opts (key ∷ val ∷ rest) =
    let name = to_lower key in
    collect_options (if has name option_names then Store.set name val opts else opts) rest

unfoldable pub parse_option_pairs : Buffer → ℕ → ℕ → Result ProtocolError RawOptions
unfolding split_null_strings pop_empty collect_options
parse_option_pairs buf offset len = do
  let parts = pop_empty (split_null_strings (subarray buf offset (offset + len)))
  throw_if (not (length parts % 2 == 0))
      (protocol_error (codes "Malformed option list: odd number of null-terminated parts"))
  ok (collect_options [] parts)

-- The rest of parseRRQPayload, and of parseWRQPayload, with the parts at hand; `label` is "RRQ" or
-- "WRQ".
unfoldable pub request_of_parts : Str → List Str → Result ProtocolError Request
unfolding to_lower has collect_options
request_of_parts label [] =
    err (protocol_error (label ++ codes " packet too short: missing filename or mode"))
request_of_parts label (filename ∷ []) =
    err (protocol_error (label ++ codes " packet too short: missing filename or mode"))
request_of_parts label (filename ∷ raw_mode ∷ option_parts) = do
  let mode = to_lower raw_mode
  throw_if (is_empty filename) (protocol_error (codes "Empty filename in " ++ label))
  throw_if (not (has mode transfer_modes))
      (protocol_error (codes "Unknown transfer mode: " ++ mode))
  throw_if (not (length option_parts % 2 == 0))
      (protocol_error (codes "Malformed " ++ (label ++ codes " options: odd number of parts")))
  ok (record { filename = filename; mode = mode; options = collect_options [] option_parts })

unfoldable pub parse_request : Str → Buffer → Result ProtocolError Request
unfolding split_null_strings pop_empty request_of_parts
parse_request label payload = request_of_parts label (pop_empty (split_null_strings payload))

unfoldable pub parse_rrq_payload : Buffer → Result ProtocolError Packet
unfolding parse_request
parse_rrq_payload payload = do ok (Packet.rrq (← parse_request (codes "RRQ") payload))

unfoldable pub parse_wrq_payload : Buffer → Result ProtocolError Packet
unfolding parse_request
parse_wrq_payload payload = do ok (Packet.wrq (← parse_request (codes "WRQ") payload))

unfoldable pub parse_data_payload : Buffer → Result ProtocolError Packet
parse_data_payload payload =
    if ltb (length payload) blocknum_len
    then err (protocol_error (codes "DATA packet too short: missing block number"))
    else ok (Packet.data_packet (uint16_at payload 0) (drop blocknum_len payload))

unfoldable pub parse_ack_payload : Buffer → Result ProtocolError Packet
parse_ack_payload payload =
    if ltb (length payload) blocknum_len
    then err (protocol_error (codes "ACK packet too short: missing block number"))
    else ok (Packet.ack (uint16_at payload 0))

-- msgBuf up to its first null byte.
unfoldable pub before_null : Buffer → Buffer
before_null [] = []
before_null (b ∷ bs) = let rest = before_null bs in if b == 0 then [] else b ∷ rest

unfoldable pub parse_error_payload : Buffer → Result ProtocolError Packet
unfolding before_null to_ascii
parse_error_payload payload =
    if ltb (length payload) blocknum_len
    then err (protocol_error (codes "ERROR packet too short: missing error code"))
    else ok
        (Packet.error (uint16_at payload 0) (to_ascii (before_null (drop blocknum_len payload))))

unfoldable pub parse_oack_payload : Buffer → Result ProtocolError Packet
unfolding parse_option_pairs
parse_oack_payload payload = do
  throw_if (length payload == 0) (protocol_error (codes "OACK packet has no options"))
  ok (Packet.oack (← parse_option_pairs payload 0 (length payload)))

-- `ok none` is the source's `undefined`, for an unknown opcode.
abbrev pub parse_payload : ℕ → Buffer → Result ProtocolError (Option Packet)
parse_payload opcode payload =
    if opcode == Opcode.rrq
    then (parse_rrq_payload payload >>= λ p. ok (some p))
    else if opcode == Opcode.wrq
    then (parse_wrq_payload payload >>= λ p. ok (some p))
    else if opcode == Opcode.data_op
    then (parse_data_payload payload >>= λ p. ok (some p))
    else if opcode == Opcode.ack
    then (parse_ack_payload payload >>= λ p. ok (some p))
    else if opcode == Opcode.error
    then (parse_error_payload payload >>= λ p. ok (some p))
    else if opcode == Opcode.oack
    then (parse_oack_payload payload >>= λ p. ok (some p))
    else ok none

unfoldable pub parse_packet : Buffer → Result ProtocolError (Option Packet)
unfolding get_opcode
parse_packet buf = elim (get_opcode buf) [
  | none ↦ err (protocol_error (codes "Packet too short to contain opcode"))
  | some opcode ↦ parse_payload opcode (drop opcode_len buf)
]
