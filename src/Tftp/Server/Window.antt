-- ===== src/Tftp/Server/Window.antt =====
-- One run of sendDataBlocks in src/tftp/server.mts.
use tsbootkit.Base.{
  ℕ, zero, suc, ◌+◌, ◌-◌, ◌≡◌, ◌≤◌, ◌<◌, refl, ap, arith, ◌∙◌, sym, subst, true, false, List, [],
  ◌∷◌, ◌++◌, if◌then◌else◌, length, ltb, take, drop, length-take, Bool-cases, inl, inr, drop-drop,
  Option, some, append-nil, take-all, lt→ltb, ltb→lt, leb,
}
use tsbootkit.Base.Text.{Str, is_empty}
use tsbootkit.Base.Buffer.{Buffer}
use tsbootkit.Tftp.Transfer.{Transfer, send_last, wrap_number}
use tsbootkit.Tftp.Server.{Effect, Outcome, send_packet, send_loop, send_data_blocks}
use tsbootkit.Tftp.Server.Chunks.{window_chunks, window_state, data_packet_bytes}
use tsbootkit.Tftp.Server.Rounds.{
  IsReady, take-nil, advanced, round_at_end, round_short, round_full,
}
use tsbootkit.Tftp.Server.Run.{Ran, Ran-cons, Ran-nothing, advanced-IsReady}

module _ (file : Buffer) (message : Str) (now : ℕ) where
  abbrev loop : ℕ → Transfer → ℕ → List Effect → Option Outcome
  loop fuel t s before = send_loop file message now fuel t.opts.blksize t.opts.windowsize t s before

  abbrev left : Transfer → Buffer
  left t = drop t.file_offset file

  loop_at_end :
      (f r s : ℕ) (t : Transfer) (before : List Effect)
      → IsReady t
      → left t ≡ []
      → (o : Outcome) × (loop (suc f) t s before ≡ some o) × Ran t (suc r) [] before o
  unfolding send_loop window_chunks window_state
  loop_at_end f r s t before ready e = (
    record {
      transfer = record t { file_offset = t.file_offset + 0; state = send_last };
      effects = before;
      thrown = false;
    },
    rw (e, take-nil t.opts.blksize, round_at_end t ready, send_loop),
    record {
      effects = sym (append-nil before);
      calm = refl;
      state = refl;
      number = refl;
      offset = refl;
      total = omega arith;
      opts = refl;
      wrapping = ready.wrapping;
      unbuffered = ready.unbuffered;
    },
  )

  loop_short :
      (f r s : ℕ) (t : Transfer) (before : List Effect) (rest : Buffer)
      → IsReady t
      → left t ≡ rest
      → is_empty rest ≡ false
      → length rest < t.opts.blksize
      → (o : Outcome) × (loop (suc f) t s before ≡ some o) × Ran t (suc r) rest before o
  unfolding send_loop window_chunks window_state
  loop_short f r s t before rest ready e full short =
      let few = lt→ltb (length rest) t.opts.blksize short in
      (
        record {
          transfer = record (advanced t rest) { state = send_last };
          effects =
              before
              ++ (send_packet (data_packet_bytes (wrap_number true (t.block_num + 1)) rest) ∷ []);
          thrown = false;
        },
        rw (
          e,
          take-all t.opts.blksize rest (omega arith),
          round_short t rest ready full short,
          send_loop,
        ),
        record {
          effects = rw (full, few);
          calm = refl;
          state = rw (full, few);
          number = rw (full, few);
          offset = rw (full, few, append-nil rest);
          total = rw (full, few);
          opts = refl;
          wrapping = ready.wrapping;
          unbuffered = refl;
        },
      )

  -- The border of the block just sent.
  left-advanced :
      (t : Transfer) (rest : Buffer)
      → left t ≡ rest
      → t.opts.blksize ≤ length rest
      → left (advanced t (take t.opts.blksize rest)) ≡ drop t.opts.blksize rest
  left-advanced t rest e fits =
      let cut : length (take t.opts.blksize rest) ≡ t.opts.blksize =
        omega (arith, length-take t.opts.blksize rest) in
      rw cut (sym (drop-drop t.opts.blksize t.file_offset file) ∙ ap (drop t.opts.blksize) e)

  loop_full :
      (f s : ℕ) (t : Transfer) (before : List Effect) (rest : Buffer)
      → IsReady t
      → left t ≡ rest
      → t.opts.blksize ≤ length rest
      → let u = advanced t (take t.opts.blksize rest) in
        let effects =
          before
          ++ (send_packet
                (data_packet_bytes (wrap_number true (t.block_num + 1)) (take t.opts.blksize rest))
              ∷ []) in
        loop (suc f) t s before ≡ (
          if leb t.opts.windowsize (s + 1)
          then some (record { transfer = u; effects = effects; thrown = false })
          else loop f u (s + 1) effects)
  unfolding send_loop
  loop_full f s t before rest ready e fits =
      let cut : length (take t.opts.blksize rest) ≡ t.opts.blksize =
        omega (arith, length-take t.opts.blksize rest) in
      rw (e, round_full t (take t.opts.blksize rest) ready cut, ready.sending, send_loop)

  -- One full block and what follows it, by the run that the rest makes.
  loop_after_full :
      (f r s : ℕ) (t : Transfer) (before : List Effect) (rest : Buffer)
      → IsReady t
      → left t ≡ rest
      → t.opts.blksize ≤ length rest
      → s + suc (suc r) ≡ t.opts.windowsize
      → ((before' : List Effect)
          → let u = advanced t (take t.opts.blksize rest) in
            (o : Outcome) × (loop f u (s + 1) before' ≡ some o)
            × Ran u (suc r) (drop t.opts.blksize rest) before' o)
      → (o : Outcome) × (loop (suc f) t s before ≡ some o) × Ran t (suc (suc r)) rest before o
  loop_after_full f r s t before rest ready e fits count next =
      let before' =
        before
        ++ (send_packet
              (data_packet_bytes (wrap_number true (t.block_num + 1)) (take t.opts.blksize rest))
            ∷ []) in
      let open_window : leb t.opts.windowsize (s + 1) ≡ false = ground arith in
      let (o, run, ran) = next before' in
      (
        o,
        loop_full f s t before rest ready e fits ∙ rw open_window run,
        Ran-cons t (suc r) rest before o fits ready.block_size ran,
      )

  loop_last :
      (f s : ℕ) (t : Transfer) (before : List Effect) (rest : Buffer)
      → IsReady t
      → left t ≡ rest
      → t.opts.blksize ≤ length rest
      → s + 1 ≡ t.opts.windowsize
      → (o : Outcome) × (loop (suc f) t s before ≡ some o) × Ran t 1 rest before o
  loop_last f s t before rest ready e fits count =
      let u = advanced t (take t.opts.blksize rest) in
      let before' =
        before
        ++ (send_packet
              (data_packet_bytes (wrap_number true (t.block_num + 1)) (take t.opts.blksize rest))
            ∷ []) in
      let full_window : leb t.opts.windowsize (s + 1) ≡ true = ground arith in
      (
        record { transfer = u; effects = before'; thrown = false },
        loop_full f s t before rest ready e fits ∙ rw full_window,
        Ran-cons t 0 rest before _ fits ready.block_size (
            Ran-nothing u (drop t.opts.blksize rest) before'
              (advanced-IsReady t (take t.opts.blksize rest) ready)),
      )

  -- `s` blocks of the window are out and `r + 1` may follow; then `r + 1` rounds are enough.
  loop_runs :
      (r f s : ℕ) (t : Transfer) (before : List Effect) (rest : Buffer)
      → IsReady t
      → left t ≡ rest
      → r ≤ f
      → s + suc r ≡ t.opts.windowsize
      → (o : Outcome) × (loop (suc f) t s before ≡ some o) × Ran t (suc r) rest before o
  loop_runs r f s t before [] ready e enough count = loop_at_end f r s t before ready e
  loop_runs zero f s t before (x ∷ xs) ready e enough count =
      elim (Bool-cases (ltb (length (x ∷ xs)) t.opts.blksize)) [
        | inl few ↦
            loop_short f 0 s t before (x ∷ xs) ready e refl
              (ltb→lt (length (x ∷ xs)) t.opts.blksize few)
        | inr many ↦ loop_last f s t before (x ∷ xs) ready e (ground arith) (omega arith)
      ]
  loop_runs (suc r) zero s t before (x ∷ xs) ready e enough count = absurd (omega arith)
  loop_runs (suc r) (suc f) s t before (x ∷ xs) ready e enough count =
      elim (Bool-cases (ltb (length (x ∷ xs)) t.opts.blksize)) [
        | inl few ↦
            loop_short (suc f) (suc r) s t before (x ∷ xs) ready e refl
              (ltb→lt (length (x ∷ xs)) t.opts.blksize few)
        | inr many ↦
            loop_after_full (suc f) r s t before (x ∷ xs) ready e (ground arith) count λ before'.
              loop_runs r f (s + 1) (advanced t (take t.opts.blksize (x ∷ xs))) before'
                (drop t.opts.blksize (x ∷ xs))
                (advanced-IsReady t (take t.opts.blksize (x ∷ xs)) ready)
                (left-advanced t (x ∷ xs) e (ground arith)) (omega arith) (omega arith)
      ]

  -- One run of sendDataBlocks from a transfer that is ready: it ends, throws nothing, and sends, in
  -- order and with consecutive numbers, exactly the blocks of one window of what is left of the file.
  pub send_data_blocks-Ran :
      (t : Transfer)
      → IsReady t
      → (o : Outcome) × (send_data_blocks file message now t ≡ some o)
        × Ran (record t { file_open = true }) t.opts.windowsize (left t) [] o
  unfolding send_data_blocks
  send_data_blocks-Ran t ready =
      let e : t.opts.windowsize ≡ suc (t.opts.windowsize - 1) = omega (arith, ready.window_size) in
      let (o, run, ran) =
        loop_runs (t.opts.windowsize - 1) t.opts.windowsize 0 (record t { file_open = true }) []
          (left t)
          (record {
            sending = ready.sending;
            unbuffered = ready.unbuffered;
            block_size = ready.block_size;
            window_size = ready.window_size;
            wrapping = ready.wrapping;
            numbered = ready.numbered;
          })
          refl (omega arith) (omega (arith, ready.window_size)) in
      (o, run, subst (λ w. Ran (record t { file_open = true }) w (left t) [] o) (sym e) ran)
