-- ===== src/Tftp/Requests.antt =====
-- src/tftp/server.mts: handleMessage for a packet that belongs to no transfer, handleNewRequest,
-- handleRRQ and handleWRQ. What the file system and the path check answer for the requested file is
-- an argument. Hooks, events and logging are left out.
pub mod Negotiation
pub mod Total
pub mod Peers
use tsbootkit.Base.{
  ℕ, zero, suc, ◌+◌, ◌≤◌, ◌≡◌, refl, ap, subst, ◌∙◌, arith, Bool, true, false, ◌&&◌, ◌||◌, not,
  Option, none, some, List, [], ◌∷◌, ◌++◌, if◌then◌else◌, length, ltb, leb, ◌==◌, Result, ok, err,
  Option-cases, Bool-cases, inl, inr, get_elem?,
}
use tsbootkit.Base.Text.{Str, codes, is_empty, parse_int, JsInt, nan, int, minus, to_decimal}
use tsbootkit.Base.Text.Decimal.{parse_int-to_decimal}
use tsbootkit.Base.Buffer.{Buffer, uint16_at}
use tsbootkit.Base.Store
use tsbootkit.Base.Store.{Map, get-set, str_eq_refl}
use tsbootkit.Tftp.Opcode
use tsbootkit.Tftp.ErrorCode
use tsbootkit.Tftp.Types.{
  Packet, Request, RawOptions, ValidatedOptions, blksize_name, blksize_limits, default_block_size,
}
use tsbootkit.Tftp.Parse.{parse_packet, get_opcode, ProtocolError, protocol_error}
use tsbootkit.Tftp.Options.{PartialOptions, validate_options, limited_option, within, or_throw}
use tsbootkit.Tftp.Transfer.{
  Transfer, Reply, nothing, reply, range_error, is_send, new_transfer, set_options, init_rrq,
  init_wrq, advance_send,
}
use tsbootkit.Tftp.Server.{
  Effect, Outcome, remove_transfer, send_packet, append_file, close_file, emit_complete, emit_error,
  handle_existing_transfer, packets_of, threw, send_error_effect, send_data_blocks,
}

-- The options of the server that a request is checked against.
pub record Settings : Type 0 where
  pub max_transfers : ℕ
  pub max_retries : ℕ
  pub max_blksize : ℕ
  pub timeout : ℕ
  pub allow_write : Bool
  pub rfc1350 : Bool

-- fs.stat of the requested path: a file of a size, something else, or an error.
pub data Stat : Type 0 where
  regular : ℕ → Stat
  other_kind : Stat
  missing : Stat
  denied : Stat
  failed : Str → Stat

-- What the outside answers about the requested path.
pub record Disk : Type 0 where
  pub in_root : Bool
  pub stat : Stat
  pub exists : Bool
  pub parent_writable : Bool
  pub content : Buffer
  pub read_error : Str

-- A NaN is not greater than a number.
abbrev pub exceeds : JsInt → ℕ → Bool
exceeds nan limit = false
exceeds (int n) limit = ltb limit n
exceeds (minus n) limit = false

abbrev pub cap_text : ℕ → Option Str → RawOptions → RawOptions
cap_text limit none opts = opts
cap_text limit (some text) opts =
    if not (is_empty text) && exceeds (parse_int text) limit
    then Store.set blksize_name (to_decimal limit) opts
    else opts

-- The copy of the options whose block size is capped.
unfoldable pub capped_options : ℕ → RawOptions → RawOptions
capped_options limit opts = cap_text limit (Store.get blksize_name opts) opts

-- The transfer after the first answer; one that failed is not `kept`.
pub record Begun : Type 0 where
  pub transfer : Transfer
  pub effects : List Effect
  pub kept : Bool
  pub thrown : Bool

abbrev pub refused : Transfer → ℕ → Str → Option Begun
refused t code message = some (record {
  transfer = t;
  effects = send_error_effect code message;
  kept = false;
  thrown = false;
})

abbrev pub after_blocks : List Effect → Option Outcome → Option Begun
after_blocks sent none = none
after_blocks sent (some o) =
    some (record {
      transfer = o.transfer;
      effects = sent ++ o.effects;
      kept = true;
      thrown = o.thrown;
    })

abbrev pub sent_oack : Reply → Bool
sent_oack nothing = false
sent_oack (reply [] finished) = false
sent_oack (reply (p ∷ ps) finished) = uint16_at p 0 == Opcode.oack
sent_oack range_error = false

abbrev pub asks_size : Option ℕ → Bool
asks_size none = false
asks_size (some n) = n == 0

-- The part of handleRRQ after fs.stat.
unfoldable pub answer_rrq : Disk → ℕ → Transfer → Option Begun
answer_rrq disk now t =
    let (t', r) = advance_send (if asks_size t.opts.tsize then set_options t t.opts else t) now in
    let begun : Begun = record {
      transfer = t';
      effects = packets_of r;
      kept = true;
      thrown = threw r;
    } in
    if threw r || sent_oack r
    then some begun
    else if is_send t'.state
    then after_blocks (packets_of r) (send_data_blocks disk.content disk.read_error now t')
    else some begun

unfoldable pub handle_rrq : Disk → ℕ → Transfer → Option Begun
handle_rrq disk now t = elim disk.stat [
  | regular size ↦ answer_rrq disk now (record t { filesize = size })
  | other_kind ↦ refused t ErrorCode.file_not_found (codes "Not a file")
  | missing ↦ refused t ErrorCode.file_not_found (codes "File not found")
  | denied ↦ refused t ErrorCode.access_violation (codes "Access denied")
  | failed message ↦ refused t ErrorCode.not_defined message
]

unfoldable pub handle_wrq : Disk → ℕ → Transfer → Option Begun
handle_wrq disk now t =
    let (t', r) = advance_send t now in
    if disk.exists
    then refused t ErrorCode.file_already_exists (codes "File already exists")
    else if not disk.parent_writable
    then refused t ErrorCode.access_violation (codes "Cannot write to directory")
    else some (record { transfer = t'; effects = packets_of r; kept = true; thrown = threw r })

-- The transfers by the peer's address and port, and what was done to the outside. `none` stands for
-- an exhausted send loop.
abbrev pub Served : Type 0
Served = Option (Map Transfer × List Effect)

abbrev pub turned_away : Map Transfer → ℕ → Str → Served
turned_away transfers code message = some (transfers, send_error_effect code message)

abbrev pub settle : Map Transfer → Str → Option Begun → Served
settle transfers key none = none
settle transfers key (some b) =
    some
      (if b.kept then Store.set key b.transfer transfers else Store.delete key transfers, b.effects)

abbrev pub is_some_option : RawOptions → Bool
is_some_option [] = false
is_some_option (o ∷ os) = true

abbrev pub has_options : Settings → Request → Bool
has_options settings r = is_some_option r.options && not settings.rfc1350

-- validateOptions with the server's default for the timeout only.
abbrev pub negotiated : Settings → Request → Result ProtocolError ValidatedOptions
negotiated settings r = validate_options (capped_options settings.max_blksize r.options) (
    some
      (record { blksize = none; timeout = some settings.timeout; tsize = none; windowsize = none }))

abbrev pub fresh_transfer : Settings → ℕ → ℕ → Request → Transfer
fresh_transfer settings now opcode r =
    record (new_transfer opcode r.filename r.mode none (not settings.rfc1350) now) {
      max_retries = settings.max_retries;
    }

abbrev pub begin : Disk → ℕ → ℕ → Bool → Transfer → Option Begun
begin disk now opcode opts t =
    if opcode == Opcode.rrq
    then handle_rrq disk now (init_rrq t opts)
    else handle_wrq disk now (init_wrq t opts)

abbrev pub negotiate :
    Settings
    → Disk
    → ℕ
    → Map Transfer
    → Str
    → ℕ
    → Transfer
    → Result ProtocolError ValidatedOptions
    → Served
negotiate settings disk now transfers key opcode t (err (protocol_error message)) =
    turned_away transfers ErrorCode.option_negotiation message
negotiate settings disk now transfers key opcode t (ok v) =
    settle transfers key (begin disk now opcode true (set_options t v))

-- handleNewRequest after the packet was parsed.
unfoldable pub accept_request : Settings → Disk → ℕ → Map Transfer → Str → ℕ → Request → Served
accept_request settings disk now transfers key opcode r =
    let t = fresh_transfer settings now opcode r in
    if leb settings.max_transfers (length transfers)
    then turned_away transfers ErrorCode.illegal_operation (codes "Server busy")
    else if (opcode == Opcode.wrq) && not settings.allow_write
    then turned_away transfers ErrorCode.access_violation (codes "Write requests not allowed")
    else if not disk.in_root
    then turned_away transfers ErrorCode.access_violation (codes "Access violation")
    else if has_options settings r
    then negotiate settings disk now transfers key opcode t (negotiated settings r)
    else settle transfers key (begin disk now opcode false t)

abbrev pub on_request :
    Settings → Disk → ℕ → Map Transfer → Str → Result ProtocolError (Option Packet) → Served
on_request settings disk now transfers key (err (protocol_error message)) =
    turned_away transfers ErrorCode.illegal_operation message
on_request settings disk now transfers key (ok (some (Packet.rrq r))) =
    accept_request settings disk now transfers key Opcode.rrq r
on_request settings disk now transfers key (ok (some (Packet.wrq r))) =
    accept_request settings disk now transfers key Opcode.wrq r
on_request settings disk now transfers key (ok other) =
    turned_away transfers ErrorCode.illegal_operation (codes "Invalid request")

unfoldable pub handle_new_request : Settings → Disk → ℕ → Map Transfer → Str → Buffer → Served
handle_new_request settings disk now transfers key msg =
    on_request settings disk now transfers key (parse_packet msg)

-- The transfers after a packet for one of them: it is gone where the handler removed it.
abbrev pub is_removal : Effect → Bool
is_removal remove_transfer = true
is_removal (send_packet p) = false
is_removal (append_file content) = false
is_removal close_file = false
is_removal emit_complete = false
is_removal (emit_error code message) = false

abbrev pub removes : List Effect → Bool
removes [] = false
removes (e ∷ es) = is_removal e || removes es

abbrev pub store_outcome : Map Transfer → Str → Option Outcome → Served
store_outcome transfers key none = none
store_outcome transfers key (some o) = some (
  if removes o.effects then Store.delete key transfers else Store.set key o.transfer transfers,
  o.effects,
)

-- A packet goes to the transfer of its peer; without one it must be a request.
abbrev pub route :
    Settings → Disk → Bool → ℕ → Map Transfer → Str → Buffer → ℕ → Option Transfer → Served
route settings disk write_fails now transfers key msg opcode (some t) =
    store_outcome transfers key
      (handle_existing_transfer disk.content disk.read_error write_fails now t msg)
route settings disk write_fails now transfers key msg opcode none =
    if (opcode == Opcode.rrq) || (opcode == Opcode.wrq)
    then handle_new_request settings disk now transfers key msg
    else turned_away transfers ErrorCode.illegal_operation (codes "No active transfer")

unfoldable pub handle_message : Settings → Disk → Bool → ℕ → Map Transfer → Str → Buffer → Served
handle_message settings disk write_fails now transfers key msg = elim (get_opcode msg) [
  | none ↦ some (transfers, [])
  | some opcode ↦
      route settings disk write_fails now transfers key msg opcode (Store.get key transfers)
]
