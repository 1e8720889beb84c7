-- ===== src/Tftp/Client/Put/Packets.antt =====
-- The packets of an upload in src/tftp/client.mts, and its windows put together.
use tsbootkit.Base.{
  ℕ, zero, suc, ◌+◌, ◌-◌, ◌≡◌, ◌<◌, refl, ap, sym, ◌∙◌, arith, inl, inr, Option, none, some, List,
  [], ◌∷◌, ◌++◌, length, append_assoc, append-nil, length-append,
}
use tsbootkit.Base.Text.{Str}
use tsbootkit.Base.Buffer.{Buffer}
use tsbootkit.Tftp.Server.Chunks.{
  window_chunks, window_rest, window_state_cases, window_chunks-split, window_chunks-same,
  window_state_enough, length-window_rest, window_rest_nil, concat, data_packet_bytes,
  concat-window_chunks,
}
use tsbootkit.Tftp.Client.{
  ClientEffect, send_to, open_local, write_local, close_local, restart_timer, stop_timer, resolved,
  rejected,
}
use tsbootkit.Tftp.Client.Get.Effects.{settled}
use tsbootkit.Tftp.Client.Put.{Put, window_sent}
use tsbootkit.Tftp.Client.Put.Numbers.{counted}
use tsbootkit.Tftp.Client.Put.Window.{block_packets}

-- The packets that the client sends.
abbrev pub sent : List ClientEffect → List Buffer
sent [] = []
sent (send_to port p ∷ es) = p ∷ sent es
sent (write_local content ∷ es) = sent es
sent (open_local ∷ es) = sent es
sent (close_local ∷ es) = sent es
sent (restart_timer ∷ es) = sent es
sent (stop_timer ∷ es) = sent es
sent (resolved bytes v ∷ es) = sent es
sent (rejected message ∷ es) = sent es

-- The DATA packets of blocks, the first the one after `n`, numbered as the server counts.
abbrev pub numbered_blocks : ℕ → List Buffer → List Buffer
numbered_blocks n [] = []
numbered_blocks n (c ∷ cs) = data_packet_bytes (counted (n + 1)) c ∷ numbered_blocks (n + 1) cs

sent-append : (es fs : List ClientEffect) → sent (es ++ fs) ≡ sent es ++ sent fs
sent-append [] fs = refl
sent-append (send_to port p ∷ es) fs = ap (◌∷◌ p) (sent-append es fs)
sent-append (write_local content ∷ es) fs = sent-append es fs
sent-append (open_local ∷ es) fs = sent-append es fs
sent-append (close_local ∷ es) fs = sent-append es fs
sent-append (restart_timer ∷ es) fs = sent-append es fs
sent-append (stop_timer ∷ es) fs = sent-append es fs
sent-append (resolved bytes v ∷ es) fs = sent-append es fs
sent-append (rejected message ∷ es) fs = sent-append es fs

sent-block_packets :
    (port n : ℕ) (cs : List Buffer) (fs : List ClientEffect)
    → sent (block_packets port n cs ++ fs) ≡ numbered_blocks n cs ++ sent fs
sent-block_packets port n [] fs = refl
sent-block_packets port n (c ∷ cs) fs =
    ap (◌∷◌ (data_packet_bytes (counted (n + 1)) c)) (sent-block_packets port (n + 1) cs fs)

settled-block_packets :
    (port n : ℕ) (cs : List Buffer) (fs : List ClientEffect)
    → settled (block_packets port n cs ++ fs) ≡ settled fs
settled-block_packets port n [] fs = refl
settled-block_packets port n (c ∷ cs) fs = settled-block_packets port (n + 1) cs fs

numbered_blocks-append :
    (n : ℕ) (cs ds : List Buffer)
    → numbered_blocks n (cs ++ ds) ≡ numbered_blocks n cs ++ numbered_blocks (n + length cs) ds
numbered_blocks-append n [] ds = ap (λ k. numbered_blocks k ds) (omega arith)
numbered_blocks-append n (c ∷ cs) ds =
    let same : n + 1 + length cs ≡ n + suc (length cs) = omega arith in
    ap (◌∷◌ (data_packet_bytes (counted (n + 1)) c)) (
      numbered_blocks-append (n + 1) cs ds
      ∙ ap (λ k. numbered_blocks (n + 1) cs ++ numbered_blocks k ds) same)

pub window_sent-none :
    (r : (Put × List ClientEffect) × Option Str)
    → r.1 ≡ none
    → window_sent r ≡ (r.0.0, r.0.1 ++ (restart_timer ∷ []))
window_sent-none ((p, es), none) h = refl
window_sent-none ((p, es), some message) h = cc

-- No block is left.
pub window_chunks-nil : (n b : ℕ) → window_chunks n b [] ≡ []
unfolding window_chunks
window_chunks-nil zero b = refl
window_chunks-nil (suc n) b = refl

-- A window and the blocks after it, whether it reaches the end or not.
pub chunks_after :
    (w n b : ℕ) (rest : Buffer)
    → 0 < b
    → length rest < n
    → (m : ℕ) × (length (window_rest w b rest) < m)
      × (window_chunks n b rest
          ≡ window_chunks w b rest ++ window_chunks m b (window_rest w b rest))
chunks_after w n b rest pos many = elim (window_state_cases w b rest) [
  | inl more ↦
      let shorter = length-window_rest w b rest pos more in
      (
        n - w,
        omega (arith, shorter),
        window_chunks-split w n (n - w) b rest (omega (arith, shorter)) more,
      )
  | inr last ↦
      let empty = window_rest_nil w b rest last in
      (
        1,
        rw empty (omega arith),
        window_chunks-same w n b rest last (window_state_enough n b rest pos many)
            ∙ sym (append-nil (window_chunks w b rest))
            ∙ ap (◌++◌ (window_chunks w b rest)) (rw empty (sym (window_chunks-nil 1 b))),
      )
]

-- The window leaves less than there was.
pub window_shrinks :
    (w b : ℕ) (rest : Buffer)
    → 0 < b
    → 0 < w
    → 0 < length rest
    → length (window_rest w b rest) < length rest
window_shrinks w b rest pos window some_bytes = elim (window_state_cases w b rest) [
  | inl more ↦ omega (arith, length-window_rest w b rest pos more)
  | inr last ↦ rw (window_rest_nil w b rest last) some_bytes
]

pub length-window :
    (w b : ℕ) (rest : Buffer)
    → length (concat (window_chunks w b rest)) + length (window_rest w b rest) ≡ length rest
length-window w b rest =
    sym (length-append (concat (window_chunks w b rest)) (window_rest w b rest))
    ∙ ap length (concat-window_chunks w b rest)

-- The effects of a window and of what follows it.
pub window_then :
    (port n : ℕ) (cs ds : List Buffer) (window effects : List ClientEffect)
    → window ≡ block_packets port n cs
    → sent effects ≡ numbered_blocks (n + length cs) ds
    → sent ((window ++ (restart_timer ∷ [])) ++ effects) ≡ numbered_blocks n (cs ++ ds)
window_then port n cs ds window effects e h =
    ap sent (append_assoc window (restart_timer ∷ []) effects)
    ∙ ap (λ es. sent (es ++ (restart_timer ∷ effects))) e
    ∙ sent-block_packets port n cs (restart_timer ∷ effects)
    ∙ ap (◌++◌ (numbered_blocks n cs)) h
    ∙ sym (numbered_blocks-append n cs ds)

pub settled_then :
    (port n : ℕ) (cs : List Buffer) (window effects : List ClientEffect)
    → window ≡ block_packets port n cs
    → settled ((window ++ (restart_timer ∷ [])) ++ effects) ≡ settled effects
settled_then port n cs window effects e =
    ap settled (append_assoc window (restart_timer ∷ []) effects)
    ∙ ap (λ es. settled (es ++ (restart_timer ∷ effects))) e
    ∙ settled-block_packets port n cs (restart_timer ∷ effects)
