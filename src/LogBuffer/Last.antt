-- ===== src/LogBuffer/Last.antt =====
-- The ring buffer of src/shared/log-buffer.mts keeps the last entries.
use tsbootkit.Base.{
  ℕ, suc, ◌-◌, ◌≡◌, ◌≤◌, ◌<◌, refl, ap, sym, ◌∙◌, arith, List, [], ◌∷◌, ◌++◌, ltb, length, drop,
  append_assoc, append-nil, length-append, Bool-cases, inl, inr, ltb→lt, not_ltb→ge,
}
use tsbootkit.Base.Text.{Str}
use tsbootkit.LogBuffer.{LogBuffer, LogInfo, BufferedLogEntry, log, entry_of, pushed, shift}

-- Messages, each with the time at which it is logged, one after another.
unfoldable pub log_all : List (Str × LogInfo) → LogBuffer → LogBuffer
log_all [] b = b
log_all ((now, info) ∷ rest) b = log_all rest (log now info b)

abbrev pub entries_of : List (Str × LogInfo) → List BufferedLogEntry
entries_of [] = []
entries_of ((now, info) ∷ rest) = entry_of now info ∷ entries_of rest

-- The last `max` of the entries.
abbrev pub last_of : ℕ → List BufferedLogEntry → List BufferedLogEntry
last_of max es = drop (length es - max) es

last_of-all : (max : ℕ) (es : List BufferedLogEntry) → length es ≤ max → last_of max es ≡ es
last_of-all max es h =
    let none_over : length es - max ≡ 0 = omega arith in ap (λ k. drop k es) none_over

-- An entry too many in front does not count.
last_of-shift :
    (max : ℕ) (more es : List BufferedLogEntry)
    → max < length more
    → last_of max (shift more ++ es) ≡ last_of max (more ++ es)
last_of-shift max [] es h = absurd (omega arith)
last_of-shift max (m ∷ more) es h =
    let longer : suc (length (more ++ es)) - max ≡ suc (length (more ++ es) - max) =
      omega (arith, length-append more es) in
    ap (λ k. drop k (m ∷ (more ++ es))) (sym longer)

length-shift : (es : List BufferedLogEntry) → length (shift es) ≡ length es - 1
length-shift [] = refl
length-shift (e ∷ es) = omega arith

length-pushed :
    (buffer : List BufferedLogEntry) (max : ℕ) (e : BufferedLogEntry)
    → length buffer ≤ max
    → length (pushed buffer max e) ≤ max
length-pushed buffer max e h =
    let size = length-append buffer (e ∷ []) in
    elim (Bool-cases (ltb max (length (buffer ++ (e ∷ []))))) [
      | inl over ↦ rw over (omega (arith, size, length-shift (buffer ++ (e ∷ []))))
      | inr fits ↦ rw fits (not_ltb→ge max (length (buffer ++ (e ∷ []))) fits)
    ]

last_of-pushed :
    (buffer : List BufferedLogEntry) (max : ℕ) (e : BufferedLogEntry) (es : List BufferedLogEntry)
    → last_of max (pushed buffer max e ++ es) ≡ last_of max (buffer ++ (e ∷ es))
last_of-pushed buffer max e es =
    let one = append_assoc buffer (e ∷ []) es in
    elim (Bool-cases (ltb max (length (buffer ++ (e ∷ []))))) [
      | inl over ↦ rw over (
          last_of-shift max (buffer ++ (e ∷ [])) es (ltb→lt max (length (buffer ++ (e ∷ []))) over)
          ∙ ap (last_of max) one)
      | inr fits ↦ rw fits (ap (last_of max) one)
    ]

-- A buffer that is not over its size holds, after any messages, the last entries of what it held and what was
-- logged, as many as its size allows, in their order.
pub log_all-last_of :
    (messages : List (Str × LogInfo)) (b : LogBuffer)
    → length b.buffer ≤ b.max_size
    → (log_all messages b).buffer ≡ last_of b.max_size (b.buffer ++ entries_of messages)
unfolding log_all log
log_all-last_of [] b h =
    sym (ap (last_of b.max_size) (append-nil b.buffer) ∙ last_of-all b.max_size b.buffer h)
log_all-last_of ((now, info) ∷ rest) b h =
    let e = entry_of now info in
    log_all-last_of rest (log now info b) (length-pushed b.buffer b.max_size e h)
    ∙ last_of-pushed b.buffer b.max_size e (entries_of rest)
