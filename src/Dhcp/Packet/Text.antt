-- ===== src/Dhcp/Packet/Text.antt =====
-- The text fields of a packet: a name in a field of zeros, read back.
use tsbootkit.Base.{
  ℕ, zero, suc, ◌%◌, ◌≡◌, ◌<◌, ◌≤◌, refl, ap, subst, ◌∙◌, arith, [], ◌∷◌, ◌++◌, replicate, length,
  take, All, take-append, length-replicate,
}
use tsbootkit.Base.Text.{Str}
use tsbootkit.Base.Buffer.{
  Buffer, write_bytes, from_ascii, to_ascii, write_bytes-nil, length-write_bytes,
}
use tsbootkit.Dhcp.Packet.{strip_zeros}

-- A name of at most `room` 7-bit characters, none of them NUL.
abbrev pub IsName : ℕ → Str → Type 0
IsName room s = All (λ c. (0 < c) × (c < 128)) s × (length s ≤ room)

strip_zeros-zeros : (n : ℕ) → strip_zeros (replicate n 0) ≡ []
strip_zeros-zeros zero = refl
strip_zeros-zeros (suc n) = rw (strip_zeros-zeros n) refl

strip_zeros-cons : (c : ℕ) (s : Str) → 0 < c → strip_zeros (c ∷ s) ≡ c ∷ strip_zeros s
strip_zeros-cons c s h = ground arith

to_ascii-zeros : (n : ℕ) → to_ascii (replicate n 0) ≡ replicate n 0
unfolding to_ascii
to_ascii-zeros zero = refl
to_ascii-zeros (suc n) = ap (◌∷◌ 0) (to_ascii-zeros n)

-- The name written over zeros.
read_name :
    (room : ℕ) (s : Str)
    → IsName room s
    → strip_zeros (to_ascii (write_bytes (replicate room 0) 0 (from_ascii s))) ≡ s
unfolding to_ascii from_ascii write_bytes
read_name zero [] h = refl
read_name (suc room) [] h =
    ap strip_zeros (to_ascii-zeros (suc room)) ∙ strip_zeros-zeros (suc room)
read_name zero (c ∷ s) h = absurd (omega (arith, h.1))
read_name (suc room) (c ∷ s) ((here, more), fits) =
    let kept : c % 256 % 128 ≡ c = omega (arith, here.1) in
    rw kept (
      strip_zeros-cons c (to_ascii (write_bytes (replicate room 0) 0 (from_ascii s))) here.0
      ∙ ap (◌∷◌ c) (read_name room s (more, omega (arith, fits))))

take-field : (n : ℕ) (field rest : Buffer) → length field ≡ n → take n (field ++ rest) ≡ field
take-field n field rest h = subst (λ k. take k (field ++ rest) ≡ field) h (take-append field rest)

-- A client reads the name that was written into a field of `room` zeros, whatever follows the field.
pub read_field :
    (room : ℕ) (s : Str) (rest : Buffer)
    → IsName room s
    → strip_zeros (to_ascii (take room (write_bytes (replicate room 0) 0 (from_ascii s) ++ rest)))
      ≡ s
read_field room s rest h =
    let field = write_bytes (replicate room 0) 0 (from_ascii s) in
    ap (λ f. strip_zeros (to_ascii f))
      (take-field room field rest
        (length-write_bytes (replicate room 0) (from_ascii s) 0 ∙ length-replicate room 0))
    ∙ read_name room s h

-- Writing that stays in the first of two buffers, and writing behind it.
pub write_bytes-first :
    (xs ys bs : Buffer)
    → length bs ≤ length xs
    → write_bytes (xs ++ ys) 0 bs ≡ write_bytes xs 0 bs ++ ys
unfolding write_bytes
write_bytes-first [] ys [] h = write_bytes-nil ys
write_bytes-first (x ∷ xs) ys [] h = refl
write_bytes-first [] ys (b ∷ bs) h = absurd (omega arith)
write_bytes-first (x ∷ xs) ys (b ∷ bs) h = ap (◌∷◌ b) (write_bytes-first xs ys bs (omega arith))

pub write_bytes-second :
    (xs ys bs : Buffer) (n : ℕ)
    → length xs ≡ n
    → write_bytes (xs ++ ys) n bs ≡ xs ++ write_bytes ys 0 bs
unfolding write_bytes
write_bytes-second [] ys bs zero h = refl
write_bytes-second [] ys bs (suc n) h = absurd (omega arith)
write_bytes-second (x ∷ xs) ys bs zero h = absurd (omega arith)
write_bytes-second (x ∷ xs) ys bs (suc n) h =
    ap (◌∷◌ x) (write_bytes-second xs ys bs n (omega arith))
