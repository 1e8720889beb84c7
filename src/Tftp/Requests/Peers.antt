-- ===== src/Tftp/Requests/Peers.antt =====
-- Every message is answered, and the transfers of different peers do not touch each other.
use tsbootkit.Base.{
  ℕ, ◌≡◌, ◌≢◌, refl, ◌∙◌, Bool, true, false, ◌&&◌, ◌||◌, not, Option, none, some, List, [],
  if◌then◌else◌, Result, ok, err, ◌==◌, leb, length,
}
use tsbootkit.Base.Text.{Str, str_eq}
use tsbootkit.Base.Buffer.{Buffer}
use tsbootkit.Base.Store.{Map, get, set, delete, get-set, get-delete}
use tsbootkit.Tftp.Opcode
use tsbootkit.Tftp.ErrorCode
use tsbootkit.Tftp.Types.{Packet, Request, ValidatedOptions}
use tsbootkit.Tftp.Parse.{get_opcode, parse_packet, ProtocolError, protocol_error}
use tsbootkit.Tftp.Transfer.{Transfer, set_options}
use tsbootkit.Tftp.Server.{Effect, Outcome}
use tsbootkit.Tftp.Server.Total.{handle_existing_transfer_total}
use tsbootkit.Tftp.Requests.Total.{begin_total}
use tsbootkit.Tftp.Requests.{
  Settings, Disk, Begun, Served, settle, turned_away, begin, negotiate, negotiated, fresh_transfer,
  has_options, accept_request, on_request, handle_new_request, store_outcome, removes, route,
  handle_message,
}

module _ (transfers : Map Transfer) (key : Str) where
  -- There is an answer, and the other peers' transfers are as before.
  Spares : Served → Type 0
  Spares none = ⊥
  Spares (some (after, effects)) =
      (other : Str) → str_eq key other ≡ false → get other after ≡ get other transfers

  turned_away-Spares : (code : ℕ) (message : Str) → Spares (turned_away transfers code message)
  unfolding Spares
  turned_away-Spares code message = λ other apart. refl

  unchanged-Spares : Spares (some (transfers, []))
  unfolding Spares
  unchanged-Spares = λ other apart. refl

  changed-Spares :
      (gone : Bool) (t : Transfer) (effects : List Effect)
      → Spares (some (if gone then delete key transfers else set key t transfers, effects))
  unfolding Spares
  changed-Spares true t effects = λ other apart. get-delete key other transfers ∙ rw apart
  changed-Spares false t effects = λ other apart. get-set key other t transfers ∙ rw apart

  kept-Spares :
      (kept : Bool) (t : Transfer) (effects : List Effect)
      → Spares (some (if kept then set key t transfers else delete key transfers, effects))
  kept-Spares true t effects = changed-Spares false t effects
  kept-Spares false t effects = changed-Spares true t effects

  settle-Spares : (b : Option Begun) → b ≢ none → Spares (settle transfers key b)
  unfolding Spares
  settle-Spares none h = h refl
  settle-Spares (some b) h = kept-Spares b.kept b.transfer b.effects

  store_outcome-Spares : (o : Option Outcome) → o ≢ none → Spares (store_outcome transfers key o)
  unfolding Spares
  store_outcome-Spares none h = h refl
  store_outcome-Spares (some o) h = changed-Spares (removes o.effects) o.transfer o.effects

  if-Spares : (b : Bool) (r s : Served) → Spares r → Spares s → Spares (if b then r else s)
  if-Spares true r s h k = h
  if-Spares false r s h k = k

  module _ (settings : Settings) (disk : Disk) (now : ℕ) where
    negotiate-Spares :
        (opcode : ℕ) (t : Transfer) (r : Result ProtocolError ValidatedOptions)
        → Spares (negotiate settings disk now transfers key opcode t r)
    negotiate-Spares opcode t (ok v) =
        settle-Spares (begin disk now opcode true (set_options t v))
          (begin_total disk now opcode true (set_options t v))
    negotiate-Spares opcode t (err (protocol_error message)) =
        turned_away-Spares ErrorCode.option_negotiation message

    accept_request-Spares :
        (opcode : ℕ) (r : Request)
        → Spares (accept_request settings disk now transfers key opcode r)
    unfolding accept_request
    accept_request-Spares opcode r =
        let t = fresh_transfer settings now opcode r in
        if-Spares (leb settings.max_transfers (length transfers)) _ _ (turned_away-Spares _ _) (
          if-Spares ((opcode == Opcode.wrq) && not settings.allow_write) _ _
            (turned_away-Spares _ _)
            (if-Spares (not disk.in_root) _ _ (turned_away-Spares _ _) (
              if-Spares (has_options settings r) _ _
                (negotiate-Spares opcode t (negotiated settings r))
                (settle-Spares (begin disk now opcode false t)
                  (begin_total disk now opcode false t)))))

    on_request-Spares :
        (p : Result ProtocolError (Option Packet))
        → Spares (on_request settings disk now transfers key p)
    on_request-Spares (err (protocol_error message)) = turned_away-Spares _ _
    on_request-Spares (ok none) = turned_away-Spares _ _
    on_request-Spares (ok (some (Packet.rrq r))) = accept_request-Spares Opcode.rrq r
    on_request-Spares (ok (some (Packet.wrq r))) = accept_request-Spares Opcode.wrq r
    on_request-Spares (ok (some (Packet.data_packet n content))) = turned_away-Spares _ _
    on_request-Spares (ok (some (Packet.ack n))) = turned_away-Spares _ _
    on_request-Spares (ok (some (Packet.error code message))) = turned_away-Spares _ _
    on_request-Spares (ok (some (Packet.oack opts))) = turned_away-Spares _ _

    route-Spares :
        (write_fails : Bool) (msg : Buffer) (opcode : ℕ) (o : Option Transfer)
        → Spares (route settings disk write_fails now transfers key msg opcode o)
    unfolding handle_new_request
    route-Spares write_fails msg opcode (some t) =
        store_outcome-Spares _
          (handle_existing_transfer_total disk.content disk.read_error write_fails now t msg)
    route-Spares write_fails msg opcode none =
        if-Spares ((opcode == Opcode.rrq) || (opcode == Opcode.wrq)) _ _
          (on_request-Spares (parse_packet msg)) (turned_away-Spares _ _)

    handle_message-Spares :
        (write_fails : Bool) (msg : Buffer) (o : Option ℕ)
        → get_opcode msg ≡ o
        → Spares (handle_message settings disk write_fails now transfers key msg)
    unfolding handle_message
    handle_message-Spares write_fails msg none e = rw (e, handle_message) unchanged-Spares
    handle_message-Spares write_fails msg (some opcode) e =
        rw (e, handle_message) (route-Spares write_fails msg opcode _)

answered :
    (transfers : Map Transfer) (key other : Str) (served : Served)
    → Spares transfers key served
    → str_eq key other ≡ false
    → (after : Map Transfer) × (effects : List Effect) × (served ≡ some (after, effects))
      × (get other after ≡ get other transfers)
unfolding Spares
answered transfers key other none h apart = absurd h
answered transfers key other (some (after, effects)) h apart = (after, effects, refl, h other apart)

-- Every message of a peer, whatever it is and whatever the options of the transfer are, is handled
-- to its end, so that the send loop does not run out of fuel; and it leaves the transfers of all the
-- other peers as they are, whatever the file system answers.
pub handle_message_spares_peers :
    (transfers : Map Transfer) (key other : Str) (settings : Settings) (disk : Disk) (now : ℕ)
    (write_fails : Bool) (msg : Buffer)
    → str_eq key other ≡ false
    → (after : Map Transfer) × (effects : List Effect) × (handle_message settings disk write_fails
          now transfers key msg
        ≡ some (after, effects))
      × (get other after ≡ get other transfers)
handle_message_spares_peers transfers key other settings disk now write_fails msg apart =
    answered transfers key other (handle_message settings disk write_fails now transfers key msg)
      (handle_message-Spares transfers key settings disk now write_fails msg (get_opcode msg) refl)
      apart
