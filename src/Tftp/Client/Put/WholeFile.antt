-- ===== src/Tftp/Client/Put/WholeFile.antt =====
-- A whole upload of src/tftp/client.mts, window by window.
use tsbootkit.Base.{
  ℕ, zero, suc, ◌+◌, ◌≡◌, ◌≤◌, ◌<◌, refl, ap, sym, subst, ◌∙◌, arith, true, false, Option, none,
  some, List, [], ◌∷◌, ◌++◌, if◌then◌else◌, length, drop, length-drop, drop-drop, drop-all, le→leb,
  lt→not_leb,
}
use native.Mathlib.Decide.{dec_le}
use tsbootkit.Base.Buffer.{Buffer}
use tsbootkit.Tftp.Server.Chunks.{
  window_chunks, window_rest, drop-window_chunks, concat, file_chunks, concat-file_chunks,
}
use tsbootkit.Tftp.Client.{
  ClientSettings, ClientEffect, close_local, restart_timer, stop_timer, resolved, block_size_of,
  window_size_of,
}
use tsbootkit.Tftp.Client.Get.Effects.{settled}
use tsbootkit.Tftp.Client.Put.{Put, send_blocks, put_acknowledged, send_next_window, wire_block}
use tsbootkit.Tftp.Client.Put.Window.{send_blocks-SentBlocks}
use tsbootkit.Tftp.Client.Put.Packets.{
  sent, numbered_blocks, window_sent-none, window_chunks-nil, chunks_after, window_shrinks,
  length-window, window_then, settled_then,
}

-- An upload under way.
pub record IsUploading (p : Put) : Type 0 where
  pub is_open : p.is_open ≡ true
  pub listening : p.listening ≡ true
  pub block_size : 0 < block_size_of p.validated
  pub window_size : 0 < window_size_of p.validated

abbrev prepend :
    List ClientEffect → Option (Put × List ClientEffect) → Option (Put × List ClientEffect)
prepend es none = none
prepend es (some (q, more)) = some (q, es ++ more)

module _ (c : ClientSettings) (file : Buffer) where
  -- An ACK of the last block that was sent.
  next_ack : Put → Put × List ClientEffect
  next_ack p = put_acknowledged c file p (wire_block p.block_num)

  -- An upload whose windows are acknowledged, until it is settled.
  unfoldable pub acknowledged : ℕ → Put → Option (Put × List ClientEffect)
  unfolding next_ack
  acknowledged zero p = none
  acknowledged (suc f) p =
      let r = next_ack p in
      let rest = acknowledged f r.0 in if r.0.listening then prepend r.1 rest else some r

  ack_settles :
      (p : Put)
      → p.is_open ≡ true
      → length file ≤ p.offset
      → next_ack p ≡ (
        record p { listening = false },
        stop_timer ∷ close_local ∷ resolved p.bytes_sent p.validated ∷ [],
      )
  unfolding next_ack put_acknowledged
  ack_settles p is_open done = rw (is_open, le→leb (length file) p.offset done) refl

  ack_sends :
      (p : Put)
      → p.is_open ≡ true
      → p.offset < length file
      → 0 < block_size_of p.validated
      → let r = send_blocks (window_size_of p.validated) file p in
        next_ack p ≡ (r.0.0, r.0.1 ++ (restart_timer ∷ []))
  unfolding next_ack put_acknowledged send_next_window
  ack_sends p is_open more pos =
      let r = send_blocks (window_size_of p.validated) file p in
      let s = send_blocks-SentBlocks (window_size_of p.validated) file p pos in
      simp (is_open, lt→not_leb p.offset (length file) more, window_sent-none r s.unthrown)

  -- The rest of an upload goes out block by block, and its end settles it.
  abbrev pub Uploads : ℕ → ℕ → Put → Type 0
  Uploads f n p =
      (q : Put) × (effects : List ClientEffect) × (acknowledged f p ≡ some (q, effects))
      × (sent effects
          ≡ numbered_blocks p.block_num
              (window_chunks n (block_size_of p.validated) (drop p.offset file)))
      × (settled effects ≡ some (p.bytes_sent + length (drop p.offset file)))

  Uploads-end : (f n : ℕ) (p : Put) → IsUploading p → length file ≤ p.offset → Uploads (suc f) n p
  unfolding acknowledged
  Uploads-end f n p u done =
      let empty = drop-all p.offset file done in
      (
        record p { listening = false },
        stop_timer ∷ close_local ∷ resolved p.bytes_sent p.validated ∷ [],
        rw (ack_settles p u.is_open done) refl,
        rw (empty, window_chunks-nil n (block_size_of p.validated)) refl,
        rw empty (ap some (omega arith)),
      )

  Uploads-window :
      (f n : ℕ) (p : Put)
      → IsUploading p
      → p.offset < length file
      → length (drop p.offset file) < n
      → ((m : ℕ) (q : Put)
          → IsUploading q
          → length (drop q.offset file) < length (drop p.offset file)
          → length (drop q.offset file) < m
          → Uploads f m q)
      → Uploads (suc f) n p
  unfolding acknowledged
  Uploads-window f n p u more many next =
      let w = window_size_of p.validated in
      let b = block_size_of p.validated in
      let rest = drop p.offset file in
      let r = send_blocks w file p in
      let s = send_blocks-SentBlocks w file p u.block_size in
      let cs = window_chunks w b rest in
      let left : drop r.0.0.offset file ≡ window_rest w b rest =
        ap (λ k. drop k file) s.offset
        ∙ sym (drop-drop (length (concat cs)) p.offset file)
        ∙ drop-window_chunks w b rest in
      let (m, enough, split) = chunks_after w n b rest u.block_size many in
      let going : IsUploading r.0.0 = record {
        is_open = s.is_open ∙ u.is_open;
        listening = s.listening ∙ u.listening;
        block_size = subst (λ v. 0 < block_size_of v) (sym s.validated) u.block_size;
        window_size = subst (λ v. 0 < window_size_of v) (sym s.validated) u.window_size;
      } in
      let shorter =
        window_shrinks w b rest u.block_size u.window_size
          (omega (arith, more, length-drop p.offset file)) in
      let (q, effects, run, packets, end) = next m r.0.0 going (rw left shorter) (rw left enough) in
      let renumbered =
        ap
          (λ k.
            numbered_blocks k
              (window_chunks m (block_size_of r.0.0.validated) (drop r.0.0.offset file)))
          s.block_num
        ∙ ap
            (λ v.
              numbered_blocks (p.block_num + length cs)
                (window_chunks m (block_size_of v) (drop r.0.0.offset file)))
            s.validated
        ∙ ap (λ d. numbered_blocks (p.block_num + length cs) (window_chunks m b d)) left in
      (
        q,
        (r.0.1 ++ (restart_timer ∷ [])) ++ effects,
        rw (ack_sends p u.is_open more u.block_size, going.listening, run) refl,
        window_then p.server_port p.block_num cs (window_chunks m b (window_rest w b rest)) r.0.1
              effects s.packets (packets ∙ renumbered)
            ∙ ap (numbered_blocks p.block_num) (sym split),
        settled_then p.server_port p.block_num cs r.0.1 effects s.packets
            ∙ end
            ∙ ap some (omega (arith, s.bytes_sent, ap length left, length-window w b rest)),
      )

  uploads :
      (f n : ℕ) (p : Put)
      → IsUploading p
      → length (drop p.offset file) < f
      → length (drop p.offset file) < n
      → Uploads f n p
  uploads zero n p u enough many = absurd (omega arith)
  uploads (suc f) n p u enough many = elim (dec_le (length file) p.offset) [
    | yes done ↦ Uploads-end f n p u done
    | no more ↦
        Uploads-window f n p u (omega arith) many
          λ m q v shorter fits. uploads f m q v (omega arith) fits
  ]

  -- From the first block on, with the file open and block and window sizes above 0, an upload whose windows are acknowledged
  -- ends, whatever the file: it sends the blocks of the file, which make it up when put together,
  -- under the numbers that the server counts to, and its promise resolves with the length of the file.
  pub upload_sends_file :
      (p : Put)
      → IsUploading p
      → p.offset ≡ 0
      → p.block_num ≡ 0
      → p.bytes_sent ≡ 0
      → let cs = file_chunks (block_size_of p.validated) file in
        (concat cs ≡ file)
        × ((q : Put) × (effects : List ClientEffect) × (acknowledged (suc (length file)) p
              ≡ some (q, effects))
            × (sent effects ≡ numbered_blocks 0 cs)
            × (settled effects ≡ some (length file)))
  upload_sends_file p u start first none_sent =
      let b = block_size_of p.validated in
      let whole : drop p.offset file ≡ file = ap (λ k. drop k file) start in
      let (q, effects, run, packets, end) =
        uploads (suc (length file)) (suc (length file)) p u (rw whole (omega arith))
          (rw whole (omega arith)) in
      (
        concat-file_chunks b file u.block_size,
        (
          q,
          effects,
          run,
          packets
              ∙ ap
                  (λ k.
                    numbered_blocks k (window_chunks (suc (length file)) b (drop p.offset file)))
                  first
              ∙ ap (λ rest. numbered_blocks 0 (window_chunks (suc (length file)) b rest)) whole,
          end ∙ ap some (omega (arith, ap length whole, none_sent)),
        ),
      )
