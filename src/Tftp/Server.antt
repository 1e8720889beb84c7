-- ===== src/Tftp/Server.antt =====
-- src/tftp/server.mts: what the server does with a transfer's packets. The effects on the outside
-- are a list in the order in which they happen. Sends and the file operations succeed unless a
-- parameter says otherwise; `file` is what the file at the transfer's path holds.
pub mod Chunks
pub mod Rounds
pub mod Run
pub mod Window
pub mod Download
pub mod WholeFile
pub mod Duplicates
pub mod Upload
pub mod Total
use tsbootkit.Base.{
  ℕ, zero, suc, ◌+◌, ◌-◌, ◌≡◌, refl, Bool, true, false, ◌&&◌, ◌||◌, not, Option, none, some, List,
  [], ◌∷◌, ◌++◌, if◌then◌else◌, length, ltb, leb, ◌==◌, take, drop, map, Result, ok, err,
}
use tsbootkit.Base.Text.{Str, codes, is_empty}
use tsbootkit.Base.Buffer.{Buffer, uint16_at}
use tsbootkit.Tftp.Opcode
use tsbootkit.Tftp.ErrorCode
use tsbootkit.Tftp.Types.{Packet}
use tsbootkit.Base.Store.{Map}
use tsbootkit.Tftp.Encode.{encode_error}
use tsbootkit.Tftp.Parse.{parse_packet, ProtocolError}
use tsbootkit.Tftp.Transfer.{
  Transfer, TransferState, Reply, nothing, reply, range_error, send, send_last, is_send,
  is_send_last, is_done, is_errored, advance_send, set_error, produce_data_packet, handle_ack,
  handle_data, handle_error, is_timed_out, increment_retry,
}

-- What the server does to the outside.
pub data Effect : Type 0 where
  send_packet : Buffer → Effect
  append_file : Buffer → Effect
  close_file : Effect
  remove_transfer : Effect
  emit_complete : Effect
  emit_error : ℕ → Str → Effect

-- A transfer with the effects so far; `thrown` is an exception that leaves the handler.
pub record Outcome : Type 0 where
  pub transfer : Transfer
  pub effects : List Effect
  pub thrown : Bool

abbrev pub packets_of : Reply → List Effect
packets_of nothing = []
packets_of (reply packets finished) = map send_packet packets
packets_of range_error = []

abbrev pub threw : Reply → Bool
threw range_error = true
threw _ = false

abbrev pub is_sending : TransferState → Bool
is_sending s = is_send s || is_send_last s

-- sendError
abbrev pub send_error_effect : ℕ → Str → List Effect
send_error_effect code message = elim (encode_error code (some message)) [
  | none ↦ []
  | some p ↦ send_packet p ∷ []
]

-- The catch of sendDataBlocks: `message` is that of the exception.
unfoldable pub report_failure : Str → ℕ → Transfer → List Effect → Outcome
unfolding set_error advance_send
report_failure message now t sent =
    let (t', r) = advance_send (set_error t ErrorCode.not_defined message) now in
    record { transfer = t'; effects = sent ++ packets_of r; thrown = threw r }

-- How one round of the while loop of sendDataBlocks ends.
pub data Round : Type 0 where
  stop : Transfer → Round
  failed : Transfer → Round
  sent : Transfer → Buffer → Round

-- A packed block is sent and counted; a block number out of range throws.
abbrev pub count_block : ℕ → Transfer × Option Buffer → Round
count_block bytes_read (made, none) = failed made
count_block bytes_read (made, some packet) =
    sent (record made { bytes_sent = made.bytes_sent + bytes_read }) packet

-- The round with the bytes that `fileHandle.read` gave.
unfoldable pub send_round : ℕ → Transfer → Buffer → Round
send_round blksize t content =
    let read = record t { file_offset = t.file_offset + length content } in
    if not (is_sending t.state)
    then stop t
    else if length content == 0 && is_send t.state
    then stop (record read { state = send_last })
    else count_block (length content)
        (produce_data_packet read content (ltb (length content) blksize))

abbrev pub unthrown : Transfer → List Effect → Option Outcome
unthrown t effects = some (record { transfer = t; effects = effects; thrown = false })

module _ (file : Buffer) (range_message : Str) (now : ℕ) where
  -- The while loop of sendDataBlocks, with `blksize` and `windowsize` as read before it, the number
  -- of blocks sent and the effects so far. `none` is fuel that ran out.
  unfoldable pub send_loop : ℕ → ℕ → ℕ → Transfer → ℕ → List Effect → Option Outcome
  send_loop zero blksize windowsize t sent_in_window effects = none
  send_loop (suc fuel) blksize windowsize t sent_in_window effects =
      elim (send_round blksize t (take blksize (drop t.file_offset file))) [
        | stop u ↦ unthrown u effects
        | failed u ↦ some (report_failure range_message now u effects)
        | sent u packet ↦
            let more =
              send_loop fuel blksize windowsize u (sent_in_window + 1)
                (effects ++ (send_packet packet ∷ [])) in
            if is_send_last u.state || leb windowsize (sent_in_window + 1)
            then unthrown u (effects ++ (send_packet packet ∷ []))
            else more
      ]

  -- `windowsize + 1` rounds are enough, since every round that goes on sends a block.
  unfoldable pub send_data_blocks : Transfer → Option Outcome
  send_data_blocks t =
      send_loop (suc t.opts.windowsize) t.opts.blksize t.opts.windowsize
        (record t { file_open = true }) 0 []

-- removeTransfer
unfoldable pub remove_effects : Transfer → List Effect
remove_effects t =
    remove_transfer
    ∷ ((if t.file_open then close_file ∷ [] else [])
        ++ (if is_errored t.state then emit_error t.error_code t.error_message ∷ [] else []))

abbrev pub closed : Transfer → Transfer
closed t = record t { file_open = false }

-- handleTransferACK, with the reply of handleACK at hand.
abbrev pub after_ack : Buffer → Str → ℕ → Transfer → Reply → Option Outcome
after_ack file range_message now t r =
    let more = send_data_blocks file range_message now t in
    if threw r
    then some (record { transfer = t; effects = []; thrown = true })
    else if is_done t.state
    then some (record {
      transfer = closed t;
      effects = remove_effects t ++ (emit_complete ∷ []);
      thrown = false;
    })
    else if is_errored t.state
    then some
        (record { transfer = closed t; effects = packets_of r ++ remove_effects t; thrown = false })
    else if is_send t.state
    then more
    else some (record { transfer = t; effects = []; thrown = false })

unfoldable pub handle_transfer_ack : Buffer → Str → ℕ → Transfer → ℕ → Option Outcome
handle_transfer_ack file range_message now t block_num =
    let (t', r) = handle_ack t block_num now in after_ack file range_message now t' r

-- handleTransferDATA, with the reply of handleDATA at hand; `write_fails` is the outcome of mkdir
-- and appendFile.
unfoldable pub after_data : Bool → Transfer → Reply → Outcome
unfolding remove_effects
after_data write_fails t r =
    let writes = not (is_empty t.recv_data) in
    let written = if writes then append_file t.recv_data ∷ [] else [] in
    if threw r
    then record { transfer = t; effects = []; thrown = true }
    else if writes && write_fails
    then record {
      transfer = closed t;
      effects = send_error_effect ErrorCode.disk_full (codes "Write error") ++ remove_effects t;
      thrown = false;
    }
    else if is_done t.state
    then record {
      transfer = closed t;
      effects = written ++ (packets_of r ++ (remove_effects t ++ (emit_complete ∷ [])));
      thrown = false;
    }
    else record { transfer = t; effects = written ++ packets_of r; thrown = false }

unfoldable pub handle_transfer_data : Bool → ℕ → Transfer → ℕ → Buffer → Outcome
handle_transfer_data write_fails now t block_num content =
    let (t', r) = handle_data t block_num content now in after_data write_fails t' r

abbrev pub unchanged : Transfer → Outcome
unchanged t = record { transfer = t; effects = []; thrown = false }

-- handleExistingTransfer: what the transfer makes of a packet; malformed ones are ignored.
abbrev pub on_packet :
    Buffer → Str → Bool → ℕ → Transfer → Result ProtocolError (Option Packet) → Option Outcome
on_packet file range_message write_fails now t (ok (some (Packet.ack n))) =
    handle_transfer_ack file range_message now t n
on_packet file range_message write_fails now t (ok (some (Packet.data_packet n content))) =
    some (handle_transfer_data write_fails now t n content)
on_packet file range_message write_fails now t (ok (some (Packet.error code message))) =
    some (record {
      transfer = closed (handle_error t).0;
      effects = remove_effects (handle_error t).0;
      thrown = false;
    })
on_packet file range_message write_fails now t _ = some (unchanged t)

unfoldable pub handle_existing_transfer :
    Buffer → Str → Bool → ℕ → Transfer → Buffer → Option Outcome
handle_existing_transfer file range_message write_fails now t msg =
    on_packet file range_message write_fails now t (parse_packet msg)

-- collectGarbage, for one transfer: what is kept of it, and what is done to the outside. A retry is
-- only counted.
abbrev pub timed_out_effects : Transfer → List Effect
timed_out_effects t =
    emit_error ErrorCode.unknown_transfer_id (codes "Transfer timed out")
    ∷ remove_transfer
    ∷ (if t.file_open then close_file ∷ [] else [])

unfoldable pub collect_transfer : ℕ → Transfer → Option Transfer × List Effect
collect_transfer now t =
    let (retried, allowed) = increment_retry t in
    if not (is_timed_out t now)
    then (some t, [])
    else if allowed
    then (some retried, [])
    else (none, timed_out_effects t)

abbrev pub kept_transfer : Str → Option Transfer → Map Transfer → Map Transfer
kept_transfer key none rest = rest
kept_transfer key (some t) rest = (key, t) ∷ rest

unfoldable pub collect_garbage : ℕ → Map Transfer → Map Transfer × List Effect
collect_garbage now [] = ([], [])
collect_garbage now ((key, t) ∷ transfers) =
    let (rest, later) = collect_garbage now transfers in
    let (kept, effects) = collect_transfer now t in (kept_transfer key kept rest, effects ++ later)
