-- ===== src/Base/Bits.antt =====
-- Laws of the bitwise operations at variables: one equation for the lowest digit of each, and from
-- these what the address computations need.
use Prim.Native.Nat.{
  ℕ, zero, suc, ◌+◌, ◌-◌, ◌*◌, ◌/◌, ◌%◌, ◌^◌, ◌≤◌, ◌<◌, min, max, bit_and, bit_or, digits, bitwise,
  bit_and-bitwise, bit_or-bitwise,
}
use mathlib.Core.Path.{◌≡◌, refl, ◌∙◌, sym, ap}
use native.Mathlib.Omega.{arith}

-- A bitwise operation, given by what it does on a second number alone and on two digits.
module _ (alone : ℕ → ℕ) (op : ℕ → ℕ → ℕ) where
  digits-zero : (b fuel : ℕ) → digits alone op fuel 0 b ≡ alone b
  digits-zero b zero = refl
  digits-zero b (suc fuel) = refl

  -- Fuel that reaches the first number may be exchanged for more of it.
  more_fuel :
      (fuel total a b : ℕ)
      → (a ≤ fuel) × (fuel ≤ total)
      → digits alone op total a b ≡ digits alone op fuel a b
  more_fuel fuel total zero b h = digits-zero b total ∙ sym (digits-zero b fuel)
  more_fuel zero total (suc a) b h = absurd (omega (arith, h.0))
  more_fuel (suc fuel) zero (suc a) b h = absurd (omega (arith, h.1))
  more_fuel (suc fuel) (suc total) (suc a) b (reaches, less) =
      let upper = more_fuel fuel total (suc a / 2) (b / 2) (omega arith, omega arith) in
      ap (λ u. u * 2 + op (suc a % 2) (b % 2)) upper

  -- The lowest digit of the result comes from the lowest digits, the rest from the halves.
  halves :
      (a b : ℕ)
      → bitwise alone op (suc a) b
        ≡ bitwise alone op (suc a / 2) (b / 2) * 2 + op (suc a % 2) (b % 2)
  halves a b =
      let exchanged = more_fuel (suc a / 2) a (suc a / 2) (b / 2) (omega arith, omega arith) in
      ap (λ upper. upper * 2 + op (suc a % 2) (b % 2)) exchanged

pub bit_and_step : (a b : ℕ) → bit_and a b ≡ bit_and (a / 2) (b / 2) * 2 + min (a % 2) (b % 2)
bit_and_step (suc a) b = simp bit_and-bitwise (halves (λ y. 0) min a b)
bit_and_step zero b = simp bit_and-bitwise (omega arith)

pub bit_or_step : (c d : ℕ) → bit_or c d ≡ bit_or (c / 2) (d / 2) * 2 + max (c % 2) (d % 2)
bit_or_step (suc c) d = simp bit_or-bitwise (halves (λ y. y) max c d)
bit_or_step zero d = simp bit_or-bitwise (omega arith)

pow_suc : (k : ℕ) → 2 ^ suc k ≡ 2 * 2 ^ k
pow_suc k = omega arith

bit_or-zero : (n a : ℕ) → a ≤ n → bit_or a 0 ≡ a
bit_or-zero n zero h = refl
bit_or-zero zero (suc a) h = absurd (omega arith)
bit_or-zero (suc n) (suc a) h =
    omega (arith, bit_or_step (suc a) 0, bit_or-zero n (suc a / 2) (omega arith))

bit_and-zero : (n a : ℕ) → a ≤ n → bit_and a 0 ≡ 0
bit_and-zero n zero h = refl
bit_and-zero zero (suc a) h = absurd (omega arith)
bit_and-zero (suc n) (suc a) h =
    omega (arith, bit_and_step (suc a) 0, bit_and-zero n (suc a / 2) (omega arith))

-- The operations on numbers given by their lowest digit and the rest.
bit_and-double : (a x b : ℕ) → x < 2 → bit_and (a * 2 + x) b ≡ bit_and a (b / 2) * 2 + min x (b % 2)
bit_and-double a x b h =
    let half : (a * 2 + x) / 2 ≡ a = omega arith in
    let low : (a * 2 + x) % 2 ≡ x = omega arith in bit_and_step (a * 2 + x) b ∙ rw (half, low)

bit_or-double :
    (a x b y : ℕ) → x < 2 → y < 2 → bit_or (a * 2 + x) (b * 2 + y) ≡ bit_or a b * 2 + max x y
bit_or-double a x b y h k =
    let half_a : (a * 2 + x) / 2 ≡ a = omega arith in
    let half_b : (b * 2 + y) / 2 ≡ b = omega arith in
    let low_a : (a * 2 + x) % 2 ≡ x = omega arith in
    let low_b : (b * 2 + y) % 2 ≡ y = omega arith in
    bit_or_step (a * 2 + x) (b * 2 + y) ∙ rw (half_a, half_b, low_a, low_b)

-- A number whose low bits are free takes any number that fits there by addition.
pub bit_or-shifted : (k a b : ℕ) → b < 2 ^ k → bit_or (a * 2 ^ k) b ≡ a * 2 ^ k + b
bit_or-shifted zero a b h =
    let nothing : b ≡ 0 = omega arith in
    rw nothing (omega (arith, bit_or-zero (a * 2 ^ 0) (a * 2 ^ 0) (omega arith)))
bit_or-shifted (suc k) a b h =
    let twice : a * 2 ^ suc k ≡ a * 2 ^ k * 2 + 0 =
      omega (arith, ap (λ (t : ℕ). a * t) (pow_suc k)) in
    let digits_of_b : b ≡ b / 2 * 2 + b % 2 = omega arith in
    rw twice (
      ap (bit_or (a * 2 ^ k * 2 + 0)) digits_of_b
      ∙ omega (
        arith,
        bit_or-double (a * 2 ^ k) 0 (b / 2) (b % 2) (omega arith) (omega arith),
        bit_or-shifted k a (b / 2) (omega (arith, pow_suc k)),
      ))

-- Masking what was put together from two masked parts gives the first part.
pub mask_of_parts :
    (k s e m : ℕ)
    → m < 2 ^ k
    → bit_and (bit_or (bit_and s m) (bit_and e (2 ^ k - 1 - m))) m ≡ bit_and s m
mask_of_parts zero s e m h =
    let nothing : m ≡ 0 = omega arith in
    let x = bit_or (bit_and s 0) (bit_and e (2 ^ 0 - 1 - 0)) in
    rw nothing (bit_and-zero x x (omega arith) ∙ sym (bit_and-zero s s (omega arith)))
mask_of_parts (suc k) s e m h =
    let a = bit_and (s / 2) (m / 2) in
    let b = bit_and (e / 2) (2 ^ k - 1 - m / 2) in
    let other_half : (2 ^ suc k - 1 - m) / 2 ≡ 2 ^ k - 1 - m / 2 = omega (arith, pow_suc k) in
    let other_low : (2 ^ suc k - 1 - m) % 2 ≡ 1 - m % 2 = omega (arith, pow_suc k) in
    let second : bit_and e (2 ^ suc k - 1 - m) ≡ b * 2 + min (e % 2) (1 - m % 2) =
      bit_and_step e (2 ^ suc k - 1 - m) ∙ rw (other_half, other_low) in
    rw
      (
        bit_and_step s m,
        second,
        bit_or-double a (min (s % 2) (m % 2)) b (min (e % 2) (1 - m % 2)) (omega arith)
            (omega arith),
        bit_and-double (bit_or a b) (max (min (s % 2) (m % 2)) (min (e % 2) (1 - m % 2))) m
            (omega arith),
        mask_of_parts k (s / 2) (e / 2) (m / 2) (omega (arith, pow_suc k)),
      )
      (omega arith)

-- Both operations stay within the width of their arguments.
pub bit_or_below : (k a b : ℕ) → a < 2 ^ k → b < 2 ^ k → bit_or a b < 2 ^ k
bit_or_below zero a b p q =
    let a_zero : a ≡ 0 = omega arith in
    let b_zero : b ≡ 0 = omega arith in
    rw (a_zero, b_zero) (omega (arith, bit_or-zero 0 0 (omega arith)))
bit_or_below (suc k) a b p q = omega (
  arith,
  pow_suc k,
  bit_or_step a b,
  bit_or_below k (a / 2) (b / 2) (omega (arith, pow_suc k)) (omega (arith, pow_suc k)),
)

pub bit_and_below : (k a b : ℕ) → b < 2 ^ k → bit_and a b < 2 ^ k
bit_and_below zero a b q =
    let b_zero : b ≡ 0 = omega arith in rw b_zero (omega (arith, bit_and-zero a a (omega arith)))
bit_and_below (suc k) a b q =
    omega (
      arith,
      pow_suc k,
      bit_and_step a b,
      bit_and_below k (a / 2) (b / 2) (omega (arith, pow_suc k)),
    )
