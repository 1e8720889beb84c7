-- ===== src/Tftp/Requests/Total.antt =====
-- src/tftp/server.mts: the answers to new requests come to an end.
use tsbootkit.Base.{
  ℕ, ◌≢◌, refl, Bool, not, true, false, ◌||◌, Option, none, some, List, if◌then◌else◌, ◌==◌,
}
use tsbootkit.Base.Text.{codes}
use tsbootkit.Tftp.Opcode
use tsbootkit.Tftp.ErrorCode
use tsbootkit.Tftp.Transfer.{Transfer, set_options, advance_send, is_send, init_rrq, init_wrq}
use tsbootkit.Tftp.Server.{Effect, Outcome, packets_of, threw, send_data_blocks}
use tsbootkit.Tftp.Server.Total.{send_data_blocks_total}
use tsbootkit.Tftp.Requests.{
  Disk, Stat, regular, other_kind, missing, denied, failed, Begun, begin, handle_rrq, handle_wrq,
  refused, answer_rrq, asks_size, sent_oack, after_blocks,
}

after_blocks_total :
    (effects : List Effect) (o : Option Outcome) → o ≢ none → after_blocks effects o ≢ none
after_blocks_total effects none h = absurd (h refl)
after_blocks_total effects (some o) h = λ e. cc

chosen :
    (a b : Bool) (first last : Begun) (middle : Option Begun)
    → middle ≢ none
    → (if a then some first else if b then middle else some last) ≢ none
chosen true b first last middle h = λ e. cc
chosen false true first last middle h = h
chosen false false first last middle h = λ e. cc

answer_rrq_total : (disk : Disk) (now : ℕ) (t : Transfer) → answer_rrq disk now t ≢ none
unfolding answer_rrq
answer_rrq_total disk now t =
    let step = advance_send (if asks_size t.opts.tsize then set_options t t.opts else t) now in
    chosen (threw step.1 || sent_oack step.1) (is_send step.0.state) _ _ _ (
      after_blocks_total (packets_of step.1)
        (send_data_blocks disk.content disk.read_error now step.0)
        (send_data_blocks_total disk.content disk.read_error now step.0))

handle_rrq_total : (disk : Disk) (now : ℕ) (t : Transfer) → handle_rrq disk now t ≢ none
unfolding handle_rrq
handle_rrq_total disk now t = by_stat disk.stat
  where
    by_stat :
        (s : Stat)
        → ◌≢◌ {A = Option Begun}
            (elim s [
              | regular size ↦ answer_rrq disk now (record t { filesize = size })
              | other_kind ↦ refused t ErrorCode.file_not_found (codes "Not a file")
              | missing ↦ refused t ErrorCode.file_not_found (codes "File not found")
              | denied ↦ refused t ErrorCode.access_violation (codes "Access denied")
              | failed message ↦ refused t ErrorCode.not_defined message
            ])
            none
    by_stat (regular size) = answer_rrq_total disk now (record t { filesize = size })
    by_stat other_kind = λ e. cc
    by_stat missing = λ e. cc
    by_stat denied = λ e. cc
    by_stat (failed message) = λ e. cc

handle_wrq_total : (disk : Disk) (now : ℕ) (t : Transfer) → handle_wrq disk now t ≢ none
unfolding handle_wrq
handle_wrq_total disk now t = tested disk.exists disk.parent_writable _ _ _
  where
    tested :
        (exists writable : Bool) (first middle last : Begun)
        → (if exists then some first else if not writable then some middle else some last) ≢ none
    tested true writable a b c = λ e. cc
    tested false true a b c = λ e. cc
    tested false false a b c = λ e. cc

pub begin_total :
    (disk : Disk) (now opcode : ℕ) (opts : Bool) (t : Transfer)
    → begin disk now opcode opts t ≢ none
begin_total disk now opcode opts t = by_opcode (opcode == Opcode.rrq)
  where
    by_opcode :
        (b : Bool)
        → (if b
            then handle_rrq disk now (init_rrq t opts)
            else handle_wrq disk now (init_wrq t opts))
          ≢ none
    by_opcode true = handle_rrq_total disk now (init_rrq t opts)
    by_opcode false = handle_wrq_total disk now (init_wrq t opts)
