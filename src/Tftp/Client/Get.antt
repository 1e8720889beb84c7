-- ===== src/Tftp/Client/Get.antt =====
-- src/tftp/client.mts: TFTPClient.get, the download.
pub mod Effects
pub mod Blocks
pub mod Stores
pub mod Acks
pub mod FromServer
pub mod Overlap
use tsbootkit.Base.{
  ℕ, ◌+◌, ◌==◌, Bool, true, false, not, Option, none, some, List, [], ◌∷◌, ◌++◌, if◌then◌else◌, ltb,
  leb, length, Result, ok, err, ◌||◌,
}
use tsbootkit.Base.Text.{Str, codes, str_eq}
use tsbootkit.Base.Buffer.{Buffer}
use tsbootkit.Tftp.Opcode
use tsbootkit.Tftp.Types.{Packet, RawOptions, ValidatedOptions}
use tsbootkit.Tftp.Parse.{ProtocolError, protocol_error, get_opcode, parse_packet}
use tsbootkit.Tftp.Options.{validate_options}
use tsbootkit.Tftp.Encode.{encode_rrq, encode_ack}
use tsbootkit.Tftp.Client.{
  ClientSettings, ClientEffect, Sender, request_options, unnegotiated, block_size_of,
  window_size_of, cleanup, wrong_port, send_to, open_local, error_text, write_local, restart_timer,
  resolved, rejected,
}

-- The variables of the promise. Port 0 is a server that has not answered.
pub record Get : Type 0 where
  pub server_port : ℕ
  pub validated : Option ValidatedOptions
  pub block_num : ℕ
  pub bytes_received : ℕ
  pub is_open : Bool
  pub retries : ℕ
  pub last_packet : Buffer
  pub in_window : ℕ
  pub listening : Bool

-- The request, as sent to the server's port. `none` is an exception of the encoder.
unfoldable pub start_get : ClientSettings → Str → Option (Get × List ClientEffect)
start_get c remote_file = elim (encode_rrq remote_file c.mode (request_options c 0)) [
  | none ↦ none
  | some rrq ↦ some (
    record {
      server_port = 0;
      validated = none;
      block_num = 0;
      bytes_received = 0;
      is_open = false;
      retries = 0;
      last_packet = rrq;
      in_window = 0;
      listening = true;
    },
    send_to c.port rrq ∷ restart_timer ∷ [],
  )
]

-- The timer: send the last packet again, or give up.
unfoldable pub get_timed_out : ClientSettings → Get → Get × List ClientEffect
get_timed_out c g =
    if ltb g.retries c.max_retries
    then (
      record g { retries = g.retries + 1 },
      send_to (if g.server_port == 0 then c.port else g.server_port) g.last_packet
          ∷ restart_timer
          ∷ [],
    )
    else (
      record g { listening = false },
      cleanup g.is_open ++ (rejected (codes "Transfer timed out") ∷ []),
    )

-- The catch of the handler, and the branch of an ERROR packet.
abbrev pub fail_get : Get → Str → Get × List ClientEffect
fail_get g message = (record g { listening = false }, cleanup g.is_open ++ (rejected message ∷ []))

-- An ACK is kept for retransmission and sent.
abbrev pub acknowledging : Get → Option Buffer → List ClientEffect → Get × List ClientEffect
acknowledging g none after = fail_get g (codes "RangeError")
acknowledging g (some ack) after =
    (record g { last_packet = ack }, send_to g.server_port ack ∷ after)

abbrev pub get_negotiated : Get → Result ProtocolError ValidatedOptions → Get × List ClientEffect
get_negotiated g (err (protocol_error message)) = fail_get g message
get_negotiated g (ok v) =
    let (g', effects) =
      acknowledging (record g { validated = some v; is_open = true }) (encode_ack 0)
        (restart_timer ∷ []) in
    (g', open_local ∷ effects)

-- Block numbers run from 1 to 65535 and start again at 1.
abbrev pub expected_block : ℕ → ℕ
expected_block n = if n == 65535 then 1 else n + 1

-- The first DATA without an OACK opens the file.
abbrev pub opened : ClientSettings → Get → Get × List ClientEffect
opened c g =
    if g.is_open
    then (g, [])
    else (record g { validated = some (unnegotiated c); is_open = true }, open_local ∷ [])

-- A block that is not the expected one: the last good block is acknowledged once more, others are
-- dropped.
abbrev pub unexpected_block : Get → ℕ → Get × List ClientEffect
unexpected_block g block_num =
    if block_num == g.block_num then acknowledging g (encode_ack g.block_num) [] else (g, [])

-- What follows the write of the expected block.
unfoldable pub data_written : Get → ℕ → Buffer → Get × List ClientEffect
data_written g block_num content =
    let is_last = ltb (length content) (block_size_of g.validated) in
    let g1 = record g {
      bytes_received = g.bytes_received + length content;
      block_num = block_num;
      in_window = g.in_window + 1;
    } in
    let (g2, sent) =
      if is_last || leb (window_size_of g.validated) (g.in_window + 1)
      then acknowledging (record g1 { in_window = 0 }) (encode_ack block_num) (restart_timer ∷ [])
      else (g1, restart_timer ∷ []) in
    if is_last
    then (
      record g2 { listening = false },
      sent ++ (cleanup g2.is_open ++ (resolved g2.bytes_received g2.validated ∷ [])),
    )
    else (g2, sent)

-- The handler of DATA up to its write: `true` where a write is under way.
unfoldable pub data_arrived : ClientSettings → Get → ℕ → (Get × List ClientEffect) × Bool
data_arrived c g block_num =
    let (g', opening) = opened c g in
    let (g2, sent) = unexpected_block g' block_num in
    if block_num == expected_block g'.block_num
    then ((g', opening), true)
    else ((g2, opening ++ sent), false)

abbrev pub then_write : (Get × List ClientEffect) × Bool → ℕ → Buffer → Get × List ClientEffect
then_write (r, false) block_num content = r
then_write ((g, before), true) block_num content =
    let (g', after) = data_written g block_num content in
    (g', before ++ (write_local content ∷ after))

abbrev pub on_get_packet : ClientSettings → Get → ℕ → Option Packet → Get × List ClientEffect
on_get_packet c g opcode (some (Packet.oack raw)) = get_negotiated g (validate_options raw none)
on_get_packet c g opcode (some (Packet.error code message)) = fail_get g (error_text code message)
on_get_packet c g opcode (some (Packet.data_packet block_num content)) =
    then_write (data_arrived c g block_num) block_num content
on_get_packet c g opcode (some (Packet.ack block_num)) = (g, [])
on_get_packet c g opcode (some (Packet.rrq r)) = (g, [])
on_get_packet c g opcode (some (Packet.wrq r)) = (g, [])
on_get_packet c g opcode none = (g, [])

abbrev pub get_parsed :
    ClientSettings → Get → ℕ → Result ProtocolError (Option Packet) → Get × List ClientEffect
get_parsed c g opcode (err (protocol_error message)) = fail_get g message
get_parsed c g opcode (ok p) = on_get_packet c g opcode p

abbrev pub is_get_opcode : ℕ → Bool
is_get_opcode opcode =
    (opcode == Opcode.oack) || ((opcode == Opcode.error) || (opcode == Opcode.data_op))

-- A packet of the server, by its opcode. Those that a download does not know are dropped unparsed.
abbrev pub of_opcode : ClientSettings → Get → Buffer → Option ℕ → Get × List ClientEffect
of_opcode c g msg none = (g, [])
of_opcode c g msg (some opcode) =
    let g' = record g { retries = 0 } in
    let answer = get_parsed c g' opcode (parse_packet msg) in
    if is_get_opcode opcode then answer else (g', [])

unfoldable pub from_server : ClientSettings → Get → Buffer → Get × List ClientEffect
from_server c g msg = of_opcode c g msg (get_opcode msg)

-- The listener. The first sender's port is the server's from then on.
unfoldable pub on_get_message : ClientSettings → Get → Sender → Buffer → Get × List ClientEffect
on_get_message c g sender msg =
    if not g.listening || not (str_eq sender.address c.host)
    then (g, [])
    else if g.server_port == 0
    then from_server c (record g { server_port = sender.port }) msg
    else if not (sender.port == g.server_port)
    then (g, wrong_port sender.port)
    else from_server c g msg
