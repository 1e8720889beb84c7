-- ===== src/Tftp/Server/Total.antt =====
-- src/tftp/server.mts: the send loop ends in every mode, and with it every handler of a transfer.
use tsbootkit.Base.{
  ℕ, zero, suc, ◌+◌, ◌≡◌, ◌≢◌, ◌<◌, refl, arith, Bool, true, false, ◌||◌, Option, none, some, List,
  ◌∷◌, [], ◌++◌, if◌then◌else◌, leb, take, drop, Result, ok, err,
}
use tsbootkit.Base.Text.{Str}
use tsbootkit.Base.Buffer.{Buffer}
use tsbootkit.Tftp.Types.{Packet}
use tsbootkit.Tftp.Parse.{ProtocolError, parse_packet}
use tsbootkit.Tftp.Transfer.{
  Transfer, Reply, handle_ack, is_send, is_send_last, is_done, is_errored,
}
use tsbootkit.Tftp.Server.{
  Effect, Outcome, Round, stop, failed, sent, send_packet, send_round, send_loop, send_data_blocks,
  report_failure, unthrown, after_ack, handle_transfer_ack, handle_existing_transfer, on_packet,
  threw,
}

module _ (file : Buffer) (message : Str) (now : ℕ) where
  -- What one round leads to, where what follows it is a result.
  after_round :
      (w s : ℕ) (effects : List Effect) (more : Transfer → Buffer → Option Outcome) (r : Round)
      → ((u : Transfer) (p : Buffer) → leb w (s + 1) ≡ false → more u p ≢ none)
      → ◌≢◌ {A = Option Outcome}
          (elim r [
            | stop u ↦ unthrown u effects
            | failed u ↦ some (report_failure message now u effects)
            | sent u p ↦
                if is_send_last u.state || leb w (s + 1)
                then unthrown u (effects ++ (send_packet p ∷ []))
                else more u p
          ])
          none
  after_round w s effects more (stop u) h = λ e. cc
  after_round w s effects more (failed u) h = λ e. cc
  after_round w s effects more (sent u p) h =
      sent_more (is_send_last u.state) (leb w (s + 1)) (more u p) (h u p)
    where
      sent_more :
          (last full : Bool) (rest : Option Outcome)
          → (full ≡ false → rest ≢ none)
          → (if last || full then unthrown u (effects ++ (send_packet p ∷ [])) else rest) ≢ none
      sent_more true full rest g = λ e. cc
      sent_more false true rest g = λ e. cc
      sent_more false false rest g = g refl

  -- With `s` blocks of a window of `w` sent and fuel for the rest of it, and for one round at least.
  loop_total :
      (fuel b w : ℕ) (t : Transfer) (s : ℕ) (effects : List Effect)
      → w < suc fuel + s
      → send_loop file message now (suc fuel) b w t s effects ≢ none
  unfolding send_loop
  loop_total zero b w t s effects h =
      after_round w s effects
        (λ u p. send_loop file message now zero b w u (s + 1) (effects ++ (send_packet p ∷ [])))
        (send_round b t (take b (drop t.file_offset file))) λ u p e. absurd (ground arith)
  loop_total (suc fuel) b w t s effects h =
      after_round w s effects
        (λ u p.
          send_loop file message now (suc fuel) b w u (s + 1) (effects ++ (send_packet p ∷ [])))
        (send_round b t (take b (drop t.file_offset file)))
        λ u p e. loop_total fuel b w u (s + 1) (effects ++ (send_packet p ∷ [])) (omega arith)

  pub send_data_blocks_total : (t : Transfer) → send_data_blocks file message now t ≢ none
  unfolding send_data_blocks
  send_data_blocks_total t =
      loop_total t.opts.windowsize t.opts.blksize t.opts.windowsize (record t { file_open = true })
        0 [] (omega arith)

  after_ack_total : (t : Transfer) (r : Reply) → after_ack file message now t r ≢ none
  after_ack_total t r =
      chosen (threw r) (is_done t.state) (is_errored t.state) (is_send t.state) _ _ _ _
        (send_data_blocks file message now t) (send_data_blocks_total t)
    where
      chosen :
          (a b c d : Bool) (o1 o2 o3 o4 : Outcome) (rest : Option Outcome)
          → rest ≢ none
          → (if a
              then some o1
              else if b
              then some o2
              else if c
              then some o3
              else if d
              then rest
              else some o4)
            ≢ none
      chosen true b c d o1 o2 o3 o4 rest g = λ e. cc
      chosen false true c d o1 o2 o3 o4 rest g = λ e. cc
      chosen false false true d o1 o2 o3 o4 rest g = λ e. cc
      chosen false false false true o1 o2 o3 o4 rest g = g
      chosen false false false false o1 o2 o3 o4 rest g = λ e. cc

  handle_transfer_ack_total :
      (t : Transfer) (n : ℕ) → handle_transfer_ack file message now t n ≢ none
  unfolding handle_transfer_ack
  handle_transfer_ack_total t n = after_ack_total (handle_ack t n now).0 (handle_ack t n now).1

  on_packet_total :
      (write_fails : Bool) (t : Transfer) (p : Result ProtocolError (Option Packet))
      → on_packet file message write_fails now t p ≢ none
  on_packet_total write_fails t (ok (some (Packet.ack n))) = handle_transfer_ack_total t n
  on_packet_total write_fails t (ok (some (Packet.data_packet n content))) = λ e. cc
  on_packet_total write_fails t (ok (some (Packet.error code text))) = λ e. cc
  on_packet_total write_fails t (ok (some (Packet.rrq r))) = λ e. cc
  on_packet_total write_fails t (ok (some (Packet.wrq r))) = λ e. cc
  on_packet_total write_fails t (ok (some (Packet.oack opts))) = λ e. cc
  on_packet_total write_fails t (ok none) = λ e. cc
  on_packet_total write_fails t (err e) = λ e. cc

pub handle_existing_transfer_total :
    (file : Buffer) (message : Str) (write_fails : Bool) (now : ℕ) (t : Transfer) (msg : Buffer)
    → handle_existing_transfer file message write_fails now t msg ≢ none
unfolding handle_existing_transfer
handle_existing_transfer_total file message write_fails now t msg =
    on_packet_total file message now write_fails t (parse_packet msg)
