-- ===== src/Base/Text/Decimal.antt =====
-- Printing a number and reading it back, for String(n), Number and parseInt.
use Prim.Native.Nat.{ℕ, zero, suc, ◌+◌, ◌-◌, ◌*◌, ◌/◌, ◌%◌, ◌≤◌}
use mathlib.Core.Path.{◌≡◌, ◌∙◌, refl, ap}
use mathlib.Core.Bool.{true, false}
use mathlib.Core.Logic.{inl, inr}
use mathlib.Core.Option.{some}
use mathlib.Core.List.{[], ◌∷◌, ◌++◌}
use native.Mathlib.Omega.{arith}
use tsbootkit.Base.Tests.{ltb, Bool-cases}
use tsbootkit.Base.Text.{
  Str, is_digit, all_digits, value, decimal_loop, to_decimal, number, parse_int, int, digit_prefix,
  is_empty,
}

value-append_one : (acc d : ℕ) (s : Str) → value acc (s ++ (d ∷ [])) ≡ value acc s * 10 + (d - 48)
value-append_one acc d [] = refl
value-append_one acc d (c ∷ s) = value-append_one (acc * 10 + (c - 48)) d s

pub value-decimal_loop : (f n : ℕ) → n ≤ f → value 0 (decimal_loop f n) ≡ n
unfolding decimal_loop
value-decimal_loop zero n h = omega arith
value-decimal_loop (suc f) n h = elim (Bool-cases (ltb n 10)) [
  | inl e ↦ rw e (omega arith)
  | inr e ↦ rw e (
      value-append_one 0 (48 + n % 10) (decimal_loop f (n / 10))
      ∙ ground (arith, value-decimal_loop f (n / 10)))
]

all_digits-append_one :
    (d : ℕ) (s : Str) → is_digit d ≡ true → all_digits s ≡ true → all_digits (s ++ (d ∷ [])) ≡ true
all_digits-append_one d [] h k = rw h
all_digits-append_one d (c ∷ s) h k = ground (arith, all_digits-append_one d s h)

all_digits-decimal_loop : (f n : ℕ) → all_digits (decimal_loop f n) ≡ true
unfolding decimal_loop
all_digits-decimal_loop zero n = ground arith
all_digits-decimal_loop (suc f) n = elim (Bool-cases (ltb n 10)) [
  | inl e ↦ rw e (ground arith)
  | inr e ↦ rw e (
      all_digits-append_one (48 + n % 10) (decimal_loop f (n / 10)) (ground arith)
        (all_digits-decimal_loop f (n / 10)))
]

decimal_loop_full : (f n : ℕ) → is_empty (decimal_loop f n) ≡ false
unfolding decimal_loop
decimal_loop_full zero n = refl
decimal_loop_full (suc f) n = ground (arith, snoc_full (decimal_loop f (n / 10)))
  where
    snoc_full : (s : Str) → is_empty (s ++ ((48 + n % 10) ∷ [])) ≡ false
    snoc_full [] = refl
    snoc_full (c ∷ s) = refl

digit_prefix-digits : (s : Str) → all_digits s ≡ true → digit_prefix s ≡ s
digit_prefix-digits [] h = refl
digit_prefix-digits (c ∷ s) h = ground (arith, digit_prefix-digits s)

-- A digit is no blank and no sign.
parse_int-digits :
    (s : Str) → all_digits s ≡ true → is_empty s ≡ false → parse_int s ≡ int (value 0 s)
unfolding parse_int
parse_int-digits [] h k = cc
parse_int-digits (c ∷ s) h k = ground (arith, digit_prefix-digits s)

pub all_digits-to_decimal : (n : ℕ) → all_digits (to_decimal n) ≡ true
unfolding to_decimal
all_digits-to_decimal n = all_digits-decimal_loop n n

pub to_decimal_full : (n : ℕ) → is_empty (to_decimal n) ≡ false
unfolding to_decimal
to_decimal_full n = decimal_loop_full n n

pub value-to_decimal : (n : ℕ) → value 0 (to_decimal n) ≡ n
unfolding to_decimal
value-to_decimal n = value-decimal_loop n n (omega arith)

pub parse_int-to_decimal : (n : ℕ) → parse_int (to_decimal n) ≡ int n
parse_int-to_decimal n =
    parse_int-digits (to_decimal n) (all_digits-to_decimal n) (to_decimal_full n)
    ∙ ap int (value-to_decimal n)

pub number-to_decimal : (n : ℕ) → number (to_decimal n) ≡ some n
unfolding number
number-to_decimal n = rw (all_digits-to_decimal n) (ap some (value-to_decimal n))
