-- ===== src/Http/Range.antt =====
-- The ranges of src/shared/http.mts.
use tsbootkit.Base.{
  ℕ, suc, ◌-◌, ◌≡◌, ◌≤◌, ◌<◌, refl, sym, arith, Bool, true, false, ltb, leb, min, ltb→lt, Option,
  none, some, [], ◌∷◌, ◌++◌, drop-append, subst, inl, inr, Bool-cases,
}
use tsbootkit.Base.Text.{
  Str, codes, is_empty, digit_prefix, all_digits, is_digit, value, to_decimal,
}
use tsbootkit.Base.Text.Decimal.{all_digits-to_decimal, to_decimal_full, value-to_decimal}
use tsbootkit.Http.{parse_range, range_of, valid_range, match_range}

abbrev InFile : ℕ → Option (ℕ × ℕ) → Type 0
InFile size none = Unit {0}
InFile size (some (start, end)) = (start ≤ end) × (end < size)

valid_range-InFile : (size start end : ℕ) → InFile size (valid_range size start end)
valid_range-InFile size start end = ground arith

range_of-InFile : (size : ℕ) (m : Option (Str × Str)) → InFile size (range_of size m)
range_of-InFile size none = tt
range_of-InFile size (some (a, b)) = elim (Bool-cases (is_empty a)) [
  | inl ea ↦ elim (Bool-cases (is_empty b)) [
    | inl eb ↦ rw (ea, eb) tt
    | inr eb ↦ rw (ea, eb) (valid_range-InFile size (size - value 0 b) (size - 1))
  ]
  | inr ea ↦ elim (Bool-cases (is_empty b)) [
    | inl eb ↦ rw (ea, eb) (valid_range-InFile size (value 0 a) (size - 1))
    | inr eb ↦ rw (ea, eb) (valid_range-InFile size (value 0 a) (value 0 b))
  ]
]

-- Whatever the header, a range that is taken lies in the file and has a byte at least.
pub parse_range_inside :
    (header : Str) (size start end : ℕ)
    → parse_range header size ≡ some (start, end)
    → (start ≤ end) × (end < size)
unfolding parse_range
parse_range_inside header size start end h =
    subst (InFile size) h (range_of-InFile size (match_range header))

digit_prefix-digits :
    (s : Str) (c : ℕ) (t : Str)
    → all_digits s ≡ true
    → is_digit c ≡ false
    → digit_prefix (s ++ (c ∷ t)) ≡ s
digit_prefix-digits [] c t h e = rw e refl
digit_prefix-digits (d ∷ s) c t h e = ground (arith, digit_prefix-digits s c t)

-- What a range from `start` to `end` asks of a file of a size: its bytes, cut off at the last one.
pub data Asks (start end size : ℕ) : Option (ℕ × ℕ) → Type 0 where
  whole : start ≤ end → end < size → Asks start end size (some (start, end))
  cut_off :
      (last : ℕ)
      → start < size
      → size ≤ end
      → suc last ≡ size
      → Asks start end size (some (start, last))
  out_of_order : end < start → Asks start end size none
  behind : size ≤ start → Asks start end size none

valid_range-Asks :
    (start end size : ℕ) (unordered past beyond : Bool)
    → ltb end start ≡ unordered
    → leb size start ≡ past
    → ltb end size ≡ beyond
    → Asks start end size (valid_range size start end)
valid_range-Asks start end size true past beyond e f g = rw e (out_of_order (ltb→lt end start e))
valid_range-Asks start end size false true beyond e f g = rw (e, f) (behind (ground arith))
valid_range-Asks start end size false false true e f g =
    let last : min end (size - 1) ≡ end = ground arith in
    rw (e, f, last) (whole (ground arith) (ground arith))
valid_range-Asks start end size false false false e f g =
    let last : min end (size - 1) ≡ size - 1 = ground arith in
    rw (e, f, last) (cut_off (size - 1) (ground arith) (ground arith) (ground arith))

parse_range-valid_range :
    (start end size : ℕ)
    → parse_range (codes "bytes=" ++ (to_decimal start ++ (b'-' ∷ to_decimal end))) size
      ≡ valid_range size start end
unfolding parse_range
parse_range-valid_range start end size =
    let digits =
      digit_prefix-digits (to_decimal start) b'-' (to_decimal end) (all_digits-to_decimal start)
        refl in
    rw
      (
        digits,
        drop-append (to_decimal start) (b'-' ∷ to_decimal end),
        all_digits-to_decimal end,
        to_decimal_full start,
        to_decimal_full end,
        value-to_decimal start,
        value-to_decimal end,
      )
      refl

-- A header "bytes=start-end" of two decimal numbers is refused where they are out of order or start
-- behind the file, is taken for them where the file holds both, and is else cut off at the last
-- byte of the file.
pub parse_range-decimals :
    (start end size : ℕ)
    → Asks start end size
        (parse_range (codes "bytes=" ++ (to_decimal start ++ (b'-' ∷ to_decimal end))) size)
parse_range-decimals start end size =
    subst (Asks start end size) (sym (parse_range-valid_range start end size)) (
      valid_range-Asks start end size (ltb end start) (leb size start) (ltb end size) refl refl
        refl)
