-- ===== src/Tftp/Client/Put.antt =====
-- src/tftp/client.mts: TFTPClient.put, the upload. The file keeps its size and content while it is
-- sent, so that a read gives the bytes at the offset, at most as many as asked for. A handler's
-- reads are done before the next message.
pub mod Numbers
pub mod Window
pub mod Packets
pub mod WholeFile
pub mod ToServer
use tsbootkit.Base.{
  ℕ, zero, suc, ◌+◌, ◌-◌, ◌%◌, ◌==◌, Bool, true, false, not, Option, none, some, List, [], ◌∷◌,
  ◌++◌, if◌then◌else◌, ltb, leb, length, take, drop, Result, ok, err, ◌||◌, ◌&&◌,
}
use tsbootkit.Base.Text.{Str, codes, str_eq, is_empty}
use tsbootkit.Base.Buffer.{Buffer}
use tsbootkit.Tftp.Opcode
use tsbootkit.Tftp.Types.{Packet, ValidatedOptions}
use tsbootkit.Tftp.Parse.{ProtocolError, protocol_error, get_opcode, parse_packet}
use tsbootkit.Tftp.Options.{get_or, validate_options}
use tsbootkit.Tftp.Encode.{encode_wrq, encode_data}
use tsbootkit.Tftp.Client.{
  ClientSettings, ClientEffect, Sender, request_options, unnegotiated, block_size_of,
  window_size_of, cleanup, wrong_port, error_text, send_to, open_local, restart_timer, resolved,
  rejected,
}

-- The variables of the promise. `block_num` counts the blocks and does not wrap.
pub record Put : Type 0 where
  pub server_port : ℕ
  pub validated : Option ValidatedOptions
  pub block_num : ℕ
  pub bytes_sent : ℕ
  pub is_open : Bool
  pub retries : ℕ
  pub last_packet : Buffer
  pub offset : ℕ
  pub listening : Bool

-- The request. `none` is an exception of the encoder.
unfoldable pub start_put : ClientSettings → Str → Buffer → Option (Put × List ClientEffect)
start_put c remote_file file =
    elim (encode_wrq remote_file c.mode (request_options c (length file))) [
      | none ↦ none
      | some wrq ↦ some (
        record {
          server_port = 0;
          validated = none;
          block_num = 0;
          bytes_sent = 0;
          is_open = false;
          retries = 0;
          last_packet = wrq;
          offset = 0;
          listening = true;
        },
        send_to c.port wrq ∷ restart_timer ∷ [],
      )
    ]

unfoldable pub put_timed_out : ClientSettings → Put → Put × List ClientEffect
put_timed_out c p =
    if ltb p.retries c.max_retries
    then (
      record p { retries = p.retries + 1 },
      send_to (if p.server_port == 0 then c.port else p.server_port) p.last_packet
          ∷ restart_timer
          ∷ [],
    )
    else (
      record p { listening = false },
      cleanup p.is_open ++ (rejected (codes "Transfer timed out") ∷ []),
    )

abbrev pub fail_put : Put → Str → Put × List ClientEffect
fail_put p message = (record p { listening = false }, cleanup p.is_open ++ (rejected message ∷ []))

-- The block number on the wire.
abbrev pub wire_block : ℕ → ℕ
wire_block n = if ltb 65535 n then (n - 1) % 65535 + 1 else n

-- fd.read(readBuf, 0, blksize, offset)
abbrev pub read_block : Buffer → ℕ → ℕ → Buffer
read_block file offset size = take size (drop offset file)

-- A block read and sent; `none` for its packet is a RangeError.
abbrev pub sent_block : Put → Buffer → Put
sent_block p content = record p {
  offset = p.offset + length content;
  block_num = p.block_num + 1;
  bytes_sent = p.bytes_sent + length content;
}

-- The rest of a round, with the packet and what the rounds after it do. A thrown RangeError leaves the
-- read behind; a short block is the last.
abbrev pub block_sent :
    Put
    → Put
    → Option Buffer
    → Bool
    → (Put × List ClientEffect) × Option Str
    → (Put × List ClientEffect) × Option Str
block_sent p p1 none is_last rest =
    ((record p { offset = p1.offset; block_num = p1.block_num }, []), some (codes "RangeError"))
block_sent p p1 (some packet) is_last ((p3, more), thrown) =
    let sent = send_to p.server_port packet in
    if is_last
    then ((record p1 { last_packet = packet }, sent ∷ []), none)
    else ((p3, sent ∷ more), thrown)

-- The for loop of sendNextWindow, with what is left of the window. `some message` is an exception.
unfoldable pub send_blocks : ℕ → Buffer → Put → (Put × List ClientEffect) × Option Str
send_blocks zero file p = ((p, []), none)
send_blocks (suc left) file p =
    let size = block_size_of p.validated in
    let content = read_block file p.offset size in
    let p1 = sent_block p content in
    let packet = encode_data (wire_block p1.block_num) content in
    let rest = send_blocks left file (record p1 { last_packet = get_or packet p.last_packet }) in
    if is_empty content
    then ((p, []), none)
    else block_sent p p1 packet (ltb (length content) size) rest

abbrev pub window_sent : (Put × List ClientEffect) × Option Str → Put × List ClientEffect
window_sent ((p, sent), none) = (p, sent ++ (restart_timer ∷ []))
window_sent ((p, sent), some message) =
    let (p', failing) = fail_put p message in (p', sent ++ failing)

-- sendNextWindow, which does nothing before the file is open.
unfoldable pub send_next_window : Buffer → Put → Put × List ClientEffect
send_next_window file p =
    if p.is_open then window_sent (send_blocks (window_size_of p.validated) file p) else (p, [])

abbrev pub put_negotiated :
    Buffer → Put → Result ProtocolError ValidatedOptions → Put × List ClientEffect
put_negotiated file p (err (protocol_error message)) = fail_put p message
put_negotiated file p (ok v) =
    let (p', effects) = send_next_window file (record p { validated = some v; is_open = true }) in
    (p', open_local ∷ effects)

-- The first ACK of block 0 without an OACK opens the file.
abbrev pub opened_for_ack : ClientSettings → Put → ℕ → Put × List ClientEffect
opened_for_ack c p block_num =
    if not p.is_open && (block_num == 0)
    then (record p { validated = some (unnegotiated c); is_open = true }, open_local ∷ [])
    else (p, [])

-- An ACK. Its number is read for the opening only.
unfoldable pub put_acknowledged : ClientSettings → Buffer → Put → ℕ → Put × List ClientEffect
put_acknowledged c file p block_num =
    let (p', opening) = opened_for_ack c p block_num in
    let (p2, sent) = send_next_window file p' in
    if leb (length file) p'.offset
    then (
      record p' { listening = false },
      opening ++ (cleanup p'.is_open ++ (resolved p'.bytes_sent p'.validated ∷ [])),
    )
    else (p2, opening ++ sent)

abbrev pub on_put_packet : ClientSettings → Buffer → Put → Option Packet → Put × List ClientEffect
on_put_packet c file p (some (Packet.error code message)) = fail_put p (error_text code message)
on_put_packet c file p (some (Packet.oack raw)) = put_negotiated file p (validate_options raw none)
on_put_packet c file p (some (Packet.ack block_num)) = put_acknowledged c file p block_num
on_put_packet c file p (some (Packet.data_packet block_num content)) = (p, [])
on_put_packet c file p (some (Packet.rrq r)) = (p, [])
on_put_packet c file p (some (Packet.wrq r)) = (p, [])
on_put_packet c file p none = (p, [])

abbrev pub put_parsed :
    ClientSettings → Buffer → Put → Result ProtocolError (Option Packet) → Put × List ClientEffect
put_parsed c file p (err (protocol_error message)) = fail_put p message
put_parsed c file p (ok packet) = on_put_packet c file p packet

abbrev pub is_put_opcode : ℕ → Bool
is_put_opcode opcode =
    (opcode == Opcode.error) || ((opcode == Opcode.oack) || (opcode == Opcode.ack))

abbrev pub put_opcode : ClientSettings → Buffer → Put → Buffer → Option ℕ → Put × List ClientEffect
put_opcode c file p msg none = (p, [])
put_opcode c file p msg (some opcode) =
    let p' = record p { retries = 0 } in
    let answer = put_parsed c file p' (parse_packet msg) in
    if is_put_opcode opcode then answer else (p', [])

-- The listener.
unfoldable pub on_put_message :
    ClientSettings → Buffer → Put → Sender → Buffer → Put × List ClientEffect
on_put_message c file p sender msg =
    if not p.listening || not (str_eq sender.address c.host)
    then (p, [])
    else if p.server_port == 0
    then put_opcode c file (record p { server_port = sender.port }) msg (get_opcode msg)
    else if not (sender.port == p.server_port)
    then (p, wrong_port sender.port)
    else put_opcode c file p msg (get_opcode msg)
