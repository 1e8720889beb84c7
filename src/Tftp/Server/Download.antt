-- ===== src/Tftp/Server/Download.antt =====
-- A whole download: the windows that a client's ACKs draw from src/tftp/server.mts.
use tsbootkit.Base.{
  ℕ, zero, suc, ◌+◌, ◌-◌, ◌≡◌, ◌≤◌, ◌<◌, ap, arith, ◌∙◌, sym, ◌⊎◌, true, false, List, [], ◌++◌,
  if◌then◌else◌, length, drop, inl, inr, Option, some, none, ◌==◌, drop-drop, ==_refl,
}
use tsbootkit.Base.Text.{Str}
use tsbootkit.Base.Buffer.{Buffer, ◌>>=◌}
use tsbootkit.Tftp.Transfer.{Transfer, send, send_last, is_send, handle_ack, nothing, reply}
use tsbootkit.Tftp.Server.{Effect, Outcome, send_data_blocks, handle_transfer_ack}
use tsbootkit.Tftp.Server.Chunks.{
  window_chunks, window_state, window_rest, concat, data_effects, file_chunks, window_chunks-split,
  length-window_rest, data_effects-append, drop-window_chunks, window_state_enough,
  window_chunks-same, last_number-le, length-window_chunks, window_state_cases,
}
use tsbootkit.Tftp.Server.Rounds.{IsReady}
use tsbootkit.Tftp.Server.Run.{Ran}
use tsbootkit.Tftp.Server.Window.{send_data_blocks-Ran}

-- The ACK of the block that was sent last, with at least one block sent.
abbrev acked_transfer : Transfer → ℕ → Transfer
acked_transfer t now = record t { last_seen = now; retries = 0; last_acked = t.block_num }

handle_ack-last :
    (t : Transfer) (now : ℕ)
    → t.state ≡ send
    → 0 < t.total_packets
    → handle_ack t t.block_num now ≡ (acked_transfer t now, nothing)
unfolding handle_ack
handle_ack-last t now s sent =
    let more : (t.total_packets == 0) ≡ false = ground arith in
    rw (s, more, ==_refl t.block_num) (ground arith)

-- The ACK(0) that answers an OACK.
handle_ack-first :
    (t : Transfer) (now : ℕ)
    → t.state ≡ send
    → t.total_packets ≡ 0
    → t.block_num ≡ 0
    → handle_ack t t.block_num now ≡ (record t { last_seen = now; retries = 0 }, reply [] false)
unfolding handle_ack
handle_ack-first t now s none_sent first = rw (s, none_sent, first) (ground arith)

-- Either blocks were sent, or the client answers the OACK with ACK(0).
abbrev pub HasStarted : Transfer → Type 0
HasStarted t =
    (0 < t.total_packets)
    ⊎ ((t.total_packets ≡ 0) × (t.block_num ≡ 0) × (t.last_acked ≡ t.block_num))

module _ (file : Buffer) (message : Str) (now : ℕ) where
  handle_transfer_ack-last :
      (t : Transfer)
      → t.state ≡ send
      → HasStarted t
      → handle_transfer_ack file message now t t.block_num
        ≡ send_data_blocks file message now (acked_transfer t now)
  unfolding handle_transfer_ack
  handle_transfer_ack-last t s (inl sent) = rw (handle_ack-last t now s sent, s)
  handle_transfer_ack-last t s (inr (none_sent, first, acked)) =
      rw (handle_ack-first t now s none_sent first, s, ← acked)

  -- Acknowledge the last block until the server has nothing more to send; the effects of all the
  -- handlers. `none` is fuel that ran out.
  unfoldable pub acknowledge : ℕ → Transfer → Option (Transfer × List Effect)
  acknowledge zero t = none
  acknowledge (suc fuel) t = do
    o ← handle_transfer_ack file message now t t.block_num
    let more = (acknowledge fuel o.transfer >>= λ (u, effects). some (u, o.effects ++ effects))
    if is_send o.transfer.state then more else some (o.transfer, o.effects)

  -- A download that waits for the ACK of its last block.
  pub record IsWaiting (t : Transfer) : Type 0 where
    pub ready : IsReady t
    pub started : HasStarted t

  rest_of : Transfer → Buffer
  rest_of t = drop t.file_offset file

  acked-IsReady : (t : Transfer) → IsWaiting t → IsReady (acked_transfer t now)
  acked-IsReady t w = record {
    sending = w.ready.sending;
    unbuffered = w.ready.unbuffered;
    block_size = w.ready.block_size;
    window_size = w.ready.window_size;
    wrapping = w.ready.wrapping;
    numbered = w.ready.numbered;
  }

  -- One ACK draws one window.
  one_ack :
      (t : Transfer)
      → IsWaiting t
      → (o : Outcome) × (handle_transfer_ack file message now t t.block_num ≡ some o)
        × Ran t t.opts.windowsize (rest_of t) [] o
  unfolding rest_of
  one_ack t w =
      let (o, run, ran) =
        send_data_blocks-Ran file message now (acked_transfer t now) (acked-IsReady t w) in
      (
        o,
        handle_transfer_ack-last t w.ready.sending w.started ∙ run,
        record {
          effects = ran.effects;
          calm = ran.calm;
          state = ran.state;
          number = ran.number;
          offset = ran.offset;
          total = ran.total;
          opts = ran.opts;
          wrapping = ran.wrapping;
          unbuffered = ran.unbuffered;
        },
      )

  Ran-IsWaiting :
      (t : Transfer) (o : Outcome)
      → IsWaiting t
      → Ran t t.opts.windowsize (rest_of t) [] o
      → window_state t.opts.windowsize t.opts.blksize (rest_of t) ≡ send
      → IsWaiting o.transfer
  Ran-IsWaiting t o w ran h = record {
    ready = record {
      sending = ran.state ∙ h;
      unbuffered = ran.unbuffered;
      block_size = rw ran.opts w.ready.block_size;
      window_size = rw ran.opts w.ready.window_size;
      wrapping = ran.wrapping;
      numbered = rw ran.number (
          last_number-le t.block_num (window_chunks t.opts.windowsize t.opts.blksize (rest_of t))
            w.ready.numbered);
    };
    started = inl (
        omega (
          arith,
          ran.total,
          w.ready.window_size,
          length-window_chunks t.opts.windowsize t.opts.blksize (rest_of t) h,
        ));
  }

  -- What a run leaves is what its transfer points at.
  Ran-rest :
      (t : Transfer) (o : Outcome)
      → Ran t t.opts.windowsize (rest_of t) [] o
      → rest_of o.transfer ≡ window_rest t.opts.windowsize t.opts.blksize (rest_of t)
  unfolding rest_of
  Ran-rest t o ran = rw ran.offset (
      sym (
        drop-drop
          (length
            (concat (window_chunks t.opts.windowsize t.opts.blksize (drop t.file_offset file))))
          t.file_offset file)
      ∙ drop-window_chunks t.opts.windowsize t.opts.blksize (drop t.file_offset file))

  Sends : ℕ → ℕ → Transfer → Type 0
  Sends f n t =
      (u : Transfer) × (effects : List Effect) × (acknowledge f t ≡ some (u, effects))
      × (effects ≡ data_effects true t.block_num (window_chunks n t.opts.blksize (rest_of t)))
      × (u.state ≡ send_last)

  Sends-last_window :
      (f n : ℕ) (t : Transfer)
      → IsWaiting t
      → length (rest_of t) < n
      → window_state t.opts.windowsize t.opts.blksize (rest_of t) ≡ send_last
      → Sends (suc f) n t
  unfolding acknowledge Sends
  Sends-last_window f n t w many h =
      let (o, run, ran) = one_ack t w in
      (
        o.transfer,
        o.effects,
        rw (run, ran.state, h),
        ran.effects
            ∙ ap (data_effects true t.block_num) (
                sym (
                  window_chunks-same t.opts.windowsize n t.opts.blksize (rest_of t) h
                    (window_state_enough n t.opts.blksize (rest_of t) w.ready.block_size many))),
        ran.state ∙ h,
      )

  Sends-more :
      (f n : ℕ) (t : Transfer)
      → IsWaiting t
      → t.opts.windowsize ≤ n
      → window_state t.opts.windowsize t.opts.blksize (rest_of t) ≡ send
      → ((u : Transfer)
          → IsWaiting u
          → length (rest_of u) + t.opts.windowsize ≤ length (rest_of t)
          → Sends f (n - t.opts.windowsize) u)
      → Sends (suc f) n t
  unfolding acknowledge Sends
  Sends-more f n t w fits h next =
      let size = t.opts.windowsize in
      let (o, run, ran) = one_ack t w in
      let rest' = Ran-rest t o ran in
      let (u, effects, more, shape, last) =
        next o.transfer (Ran-IsWaiting t o w ran h)
          (rw rest' (length-window_rest size t.opts.blksize (rest_of t) w.ready.block_size h)) in
      (
        u,
        o.effects ++ effects,
        rw (run, ran.state, h, more),
        rw (
          window_chunks-split size n (n - size) t.opts.blksize (rest_of t) (omega arith) h,
          data_effects-append true t.block_num (window_chunks size t.opts.blksize (rest_of t)) (
              window_chunks (n - size) t.opts.blksize
                (window_rest size t.opts.blksize (rest_of t))),
          ran.effects,
          shape,
          ran.number,
          ran.opts,
          rest',
        ),
        last,
      )

  -- The file from the transfer's position on goes out block by block, whatever the window size.
  acknowledge-Sends :
      (f n : ℕ) (t : Transfer)
      → IsWaiting t
      → length (rest_of t) < f
      → length (rest_of t) < n
      → Sends f n t
  acknowledge-Sends zero n t w enough many = absurd (omega arith)
  acknowledge-Sends (suc f) n t w enough many =
      elim (window_state_cases t.opts.windowsize t.opts.blksize (rest_of t)) [
        | inr h ↦ Sends-last_window f n t w many h
        | inl h ↦
            let shorter =
              length-window_rest t.opts.windowsize t.opts.blksize (rest_of t) w.ready.block_size
                h in
            Sends-more f n t w (omega arith) h λ u v less.
              acknowledge-Sends f (n - t.opts.windowsize) u v (omega (arith, w.ready.window_size))
                (omega arith)
      ]

-- A download from the start of the file: after the RRQ without options, or after its OACK.
pub record IsFresh (t : Transfer) : Type 0 where
  pub ready : IsReady t
  pub unstarted : t.total_packets ≡ 0
  pub first : t.block_num ≡ 0
  pub acked : t.last_acked ≡ 0
  pub at_start : t.file_offset ≡ 0

module _ (file : Buffer) (message : Str) (now : ℕ) (t : Transfer) (fresh : IsFresh t) where
  -- The effects of a download whose blocks are `cs`, up to the last block.
  abbrev pub Delivers : List Buffer → Type 0
  Delivers cs =
      (u : Transfer) × (acknowledge file message now (suc (length file)) t
        ≡ some (u, data_effects true 0 cs))
      × (u.state ≡ send_last)

  pub fresh_sends : Delivers (file_chunks t.opts.blksize file)
  unfolding Sends rest_of
  fresh_sends =
      let waiting : IsWaiting file message now t = record {
        ready = fresh.ready;
        started = inr (fresh.unstarted, fresh.first, fresh.acked ∙ sym fresh.first);
      } in
      let whole : drop t.file_offset file ≡ file = ap (λ k. drop k file) fresh.at_start in
      let (u, effects, run, shape, last) =
        acknowledge-Sends file message now (suc (length file)) (suc (length file)) t waiting
          (rw whole (omega arith)) (rw whole (omega arith)) in
      (u, rw (run, shape, whole, fresh.first), last)
