-- ===== src/Tftp/Server/Chunks.antt =====
-- An independent description of what one window of a download carries.
use tsbootkit.Base.{
  ℕ, zero, suc, ◌+◌, ◌*◌, ◌≡◌, ◌≤◌, ◌<◌, refl, ap, arith, ◌∙◌, sym, ◌⊎◌, Bool, true, List, [], ◌∷◌,
  ◌++◌, if◌then◌else◌, length, ltb, take, drop, append_assoc, take-append-drop, length-take,
  length-drop, All, Bool-cases, inl, inr, le→not_ltb, lt→ltb, drop-append, subst, append-nil,
}
use native.Mathlib.Decide.{dec_le}
use tsbootkit.Base.Text.{is_empty}
use tsbootkit.Base.Buffer.{Buffer, bytes16}
use tsbootkit.Tftp.Transfer.{TransferState, send, send_last, wrap_number}
use tsbootkit.Tftp.Server.{Effect, send_packet}

-- The next blocks of `rest`, at most `w`; a short one is the last.
unfoldable pub window_chunks : ℕ → ℕ → Buffer → List Buffer
window_chunks zero b rest = []
window_chunks (suc w) b rest =
    let more = window_chunks w b (drop b rest) in
    if is_empty rest then [] else if ltb (length rest) b then rest ∷ [] else take b rest ∷ more

-- Whether the server knows the end of the file once it has sent them.
unfoldable pub window_state : ℕ → ℕ → Buffer → TransferState
window_state zero b rest = send
window_state (suc w) b rest =
    let more = window_state w b (drop b rest) in
    if is_empty rest then send_last else if ltb (length rest) b then send_last else more

abbrev pub concat : List Buffer → Buffer
concat [] = []
concat (c ∷ cs) = c ++ concat cs

-- DATA packets for the chunks, numbered from `n + 1` on.
abbrev pub data_packet_bytes : ℕ → Buffer → Buffer
data_packet_bytes n c = 0 ∷ 3 ∷ (bytes16 n ++ c)

abbrev pub data_effects : Bool → ℕ → List Buffer → List Effect
data_effects wrap n [] = []
data_effects wrap n (c ∷ cs) =
    send_packet (data_packet_bytes (wrap_number wrap (n + 1)) c)
    ∷ data_effects wrap (wrap_number wrap (n + 1)) cs

abbrev pub last_number : Bool → ℕ → List Buffer → ℕ
last_number wrap n [] = n
last_number wrap n (c ∷ cs) = last_number wrap (wrap_number wrap (n + 1)) cs

-- What the window leaves for later.
unfoldable pub window_rest : ℕ → ℕ → Buffer → Buffer
window_rest zero b rest = rest
window_rest (suc w) b rest =
    let more = window_rest w b (drop b rest) in
    if is_empty rest then [] else if ltb (length rest) b then [] else more

pub concat-window_chunks :
    (w b : ℕ) (rest : Buffer) → concat (window_chunks w b rest) ++ window_rest w b rest ≡ rest
unfolding window_chunks window_rest
concat-window_chunks zero b rest = refl
concat-window_chunks (suc w) b [] = refl
concat-window_chunks (suc w) b (x ∷ xs) = elim (Bool-cases (ltb (length (x ∷ xs)) b)) [
  | inl e ↦ rw (e, append-nil (x ∷ xs ++ [])) (ap (◌∷◌ x) (append-nil xs))
  | inr e ↦
      rw
        (
          e,
          append_assoc (take b (x ∷ xs)) (concat (window_chunks w b (drop b (x ∷ xs))))
              (window_rest w b (drop b (x ∷ xs))),
          concat-window_chunks w b (drop b (x ∷ xs)),
        )
        (take-append-drop b (x ∷ xs))
]

pub drop-window_chunks :
    (w b : ℕ) (rest : Buffer)
    → drop (length (concat (window_chunks w b rest))) rest ≡ window_rest w b rest
drop-window_chunks w b rest =
    subst (λ all. drop (length (concat (window_chunks w b rest))) all ≡ window_rest w b rest)
      (concat-window_chunks w b rest)
      (drop-append (concat (window_chunks w b rest)) (window_rest w b rest))

-- A window that does not reach the end splits off the chunks.
pub window_chunks-split :
    (w n v b : ℕ) (rest : Buffer)
    → n ≡ w + v
    → window_state w b rest ≡ send
    → window_chunks n b rest ≡ window_chunks w b rest ++ window_chunks v b (window_rest w b rest)
unfolding window_chunks window_state window_rest
window_chunks-split zero n v b rest e h = ap (λ k. window_chunks k b rest) (omega arith)
window_chunks-split (suc w) zero v b rest e h = absurd (omega arith)
window_chunks-split (suc w) (suc n) v b [] e h = cc
window_chunks-split (suc w) (suc n) v b (x ∷ xs) e h =
    ground (arith, window_chunks-split w n v b (drop b (x ∷ xs)))

-- One that does holds all of them.
pub window_chunks-all :
    (w n b : ℕ) (rest : Buffer)
    → w ≤ n
    → window_state w b rest ≡ send_last
    → window_chunks n b rest ≡ window_chunks w b rest
unfolding window_chunks window_state
window_chunks-all zero n b rest e h = cc
window_chunks-all (suc w) zero b rest e h = absurd (omega arith)
window_chunks-all (suc w) (suc n) b [] e h = refl
window_chunks-all (suc w) (suc n) b (x ∷ xs) e h =
    ground (arith, window_chunks-all w n b (drop b (x ∷ xs)))

pub length-window_rest :
    (w b : ℕ) (rest : Buffer)
    → 0 < b
    → window_state w b rest ≡ send
    → length (window_rest w b rest) + w ≤ length rest
unfolding window_state window_rest
length-window_rest zero b rest pos h = omega arith
length-window_rest (suc w) b [] pos h = cc
length-window_rest (suc w) b (x ∷ xs) pos h =
    ground (arith, length-window_rest w b (drop b (x ∷ xs)), length-drop b (x ∷ xs))

pub window_rest_nil :
    (w b : ℕ) (rest : Buffer) → window_state w b rest ≡ send_last → window_rest w b rest ≡ []
unfolding window_state window_rest
window_rest_nil zero b rest h = cc
window_rest_nil (suc w) b [] h = refl
window_rest_nil (suc w) b (x ∷ xs) h = ground (arith, window_rest_nil w b (drop b (x ∷ xs)))

-- More blocks than bytes reach the end.
pub window_state_enough :
    (n b : ℕ) (rest : Buffer) → 0 < b → length rest < n → window_state n b rest ≡ send_last
unfolding window_state
window_state_enough zero b rest pos h = absurd (omega arith)
window_state_enough (suc n) b [] pos h = refl
window_state_enough (suc n) b (x ∷ xs) pos h =
    ground (arith, window_state_enough n b (drop b (x ∷ xs)), length-drop b (x ∷ xs))

pub data_effects-append :
    (wrap : Bool) (n : ℕ) (cs ds : List Buffer)
    → data_effects wrap n (cs ++ ds)
      ≡ data_effects wrap n cs ++ data_effects wrap (last_number wrap n cs) ds
data_effects-append wrap n [] ds = refl
data_effects-append wrap n (c ∷ cs) ds =
    ap (◌∷◌ (send_packet (data_packet_bytes (wrap_number wrap (n + 1)) c)))
      (data_effects-append wrap (wrap_number wrap (n + 1)) cs ds)

-- The blocks of a whole file.
abbrev pub file_chunks : ℕ → Buffer → List Buffer
file_chunks b rest = window_chunks (suc (length rest)) b rest

pub concat-file_chunks : (b : ℕ) (rest : Buffer) → 0 < b → concat (file_chunks b rest) ≡ rest
concat-file_chunks b rest pos =
    sym (append-nil _)
    ∙ subst (λ r. concat (file_chunks b rest) ++ r ≡ rest)
        (window_rest_nil (suc (length rest)) b rest
          (window_state_enough (suc (length rest)) b rest pos (omega arith)))
        (concat-window_chunks (suc (length rest)) b rest)

-- Of a length that is a multiple of the block size every block is full.
pub window_chunks_full :
    (n b k : ℕ) (rest : Buffer)
    → length rest ≡ k * b
    → All (λ c. length c ≡ b) (window_chunks n b rest)
unfolding window_chunks
window_chunks_full zero b k rest e = tt
window_chunks_full (suc n) b k [] e = tt
window_chunks_full (suc n) b zero (x ∷ xs) e = absurd (omega arith)
window_chunks_full (suc n) b (suc k) (x ∷ xs) e =
    let enough : b ≤ length (x ∷ xs) = grind arith in
    rw (le→not_ltb (length (x ∷ xs)) b enough) (
      omega (arith, length-take b (x ∷ xs)),
      window_chunks_full n b k (drop b (x ∷ xs)) (grind (arith, length-drop b (x ∷ xs))),
    )

-- Two windows that reach the end hold the same chunks.
pub window_chunks-same :
    (w n b : ℕ) (rest : Buffer)
    → window_state w b rest ≡ send_last
    → window_state n b rest ≡ send_last
    → window_chunks n b rest ≡ window_chunks w b rest
window_chunks-same w n b rest h k = elim (dec_le w n) [
  | yes le ↦ window_chunks-all w n b rest le h
  | no gt ↦ sym (window_chunks-all n w b rest (omega arith) k)
]

pub last_number-le : (n : ℕ) (cs : List Buffer) → n ≤ 65535 → last_number true n cs ≤ 65535
last_number-le n [] h = h
last_number-le n (c ∷ cs) h = last_number-le (wrap_number true (n + 1)) cs (ground arith)

pub window_state_cases :
    (w b : ℕ) (rest : Buffer) → (window_state w b rest ≡ send) ⊎ (window_state w b rest ≡ send_last)
unfolding window_state
window_state_cases zero b rest = inl refl
window_state_cases (suc w) b [] = inr refl
window_state_cases (suc w) b (x ∷ xs) = ground (arith, window_state_cases w b (drop b (x ∷ xs)))

pub length-window_chunks :
    (w b : ℕ) (rest : Buffer) → window_state w b rest ≡ send → length (window_chunks w b rest) ≡ w
unfolding window_chunks window_state
length-window_chunks zero b rest h = refl
length-window_chunks (suc w) b [] h = cc
length-window_chunks (suc w) b (x ∷ xs) h =
    ground (arith, length-window_chunks w b (drop b (x ∷ xs)))

-- A list of blocks of which the last, and only it, is short.
abbrev pub EndsShort : ℕ → List Buffer → Type 0
EndsShort b [] = ⊥
EndsShort b (c ∷ []) = (0 < length c) × (length c < b)
EndsShort b (c ∷ d ∷ cs) = (length c ≡ b) × EndsShort b (d ∷ cs)

EndsShort-cons :
    (b : ℕ) (c : Buffer) (cs : List Buffer) → length c ≡ b → EndsShort b cs → EndsShort b (c ∷ cs)
EndsShort-cons b c [] e h = absurd h
EndsShort-cons b c (d ∷ cs) e h = (e, h)

-- Of a length that is no multiple of the block size the last block is short.
pub window_chunks-EndsShort :
    (n b k r : ℕ) (rest : Buffer)
    → length rest ≡ k * b + r
    → 0 < r
    → r < b
    → length rest < n
    → EndsShort b (window_chunks n b rest)
unfolding window_chunks
window_chunks-EndsShort zero b k r rest e pos small many = absurd (omega arith)
window_chunks-EndsShort (suc n) b k r [] e pos small many = absurd (omega arith)
window_chunks-EndsShort (suc n) b zero r (x ∷ xs) e pos small many =
    rw (lt→ltb (length (x ∷ xs)) b (omega arith)) (omega arith, omega arith)
window_chunks-EndsShort (suc n) b (suc k) r (x ∷ xs) e pos small many =
    let enough : b ≤ length (x ∷ xs) = grind arith in
    rw (le→not_ltb (length (x ∷ xs)) b enough) (
      EndsShort-cons b (take b (x ∷ xs)) (window_chunks n b (drop b (x ∷ xs)))
        (omega (arith, length-take b (x ∷ xs)))
        (window_chunks-EndsShort n b k r (drop b (x ∷ xs)) (grind (arith, length-drop b (x ∷ xs)))
          pos small (omega (arith, length-drop b (x ∷ xs)))))
