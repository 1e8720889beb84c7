-- ===== src/Net/Quad.antt =====
-- Dotted quads and 32-bit numbers are two forms of one address.
use Prim.Native.Nat.{bit_or}
use tsbootkit.Base.{
  ℕ, zero, suc, ◌+◌, ◌*◌, ◌/◌, ◌%◌, ◌^◌, ◌<◌, ◌≡◌, refl, ap, ◌∙◌, arith, some, [], ◌∷◌, ◌++◌, Bool,
  true, ◌&&◌,
}
use tsbootkit.Base.Bits.{bit_or-shifted, bit_or_below}
use tsbootkit.Base.Text.{Str, split, join, all_digits, to_decimal, decimal_loop}
use tsbootkit.Base.Text.Decimal.{number-to_decimal, all_digits-to_decimal}
use tsbootkit.Net.{
  is_valid_ipv4, is_quad_part, ipv4_of_parts, ipv4_to_int, quads, int_to_ipv4, word_of, shift_left,
}

pub split-digits : (s : Str) → all_digits s ≡ true → split b'.' s ≡ s ∷ []
unfolding split
split-digits [] h = refl
split-digits (c ∷ s) h = ground (arith, split-digits s)

pub split-digits_then :
    (s t : Str) → all_digits s ≡ true → split b'.' (s ++ (b'.' ∷ t)) ≡ s ∷ split b'.' t
unfolding split
split-digits_then [] t h = refl
split-digits_then (c ∷ s) t h = ground (arith, split-digits_then s t)

split-int_to_ipv4 : (n : ℕ) → split b'.' (int_to_ipv4 n) ≡ quads n
unfolding int_to_ipv4 join quads
split-int_to_ipv4 n =
    let a = n / 2 ^ 24 % 256 in
    let b = n / 2 ^ 16 % 256 in
    let c = n / 2 ^ 8 % 256 in
    let d = n % 256 in
    split-digits_then (to_decimal a) _ (all_digits-to_decimal a)
    ∙ ap (λ r. to_decimal a ∷ r)
        (split-digits_then (to_decimal b) _ (all_digits-to_decimal b)
          ∙ ap (λ r. to_decimal b ∷ r)
              (split-digits_then (to_decimal c) _ (all_digits-to_decimal c)
                ∙ ap (λ r. to_decimal c ∷ r)
                    (split-digits (to_decimal d) (all_digits-to_decimal d))))

pub word_of-to_decimal : (n : ℕ) → word_of (some (to_decimal n)) ≡ n
word_of-to_decimal n = rw (number-to_decimal n, word_of)

-- Four bytes put together by shifts.
shifts :
    (a b c d : ℕ)
    → a < 256
    → b < 256
    → c < 256
    → d < 256
    → bit_or (bit_or (bit_or (shift_left a 24) (shift_left b 16)) (shift_left c 8)) (d % 2 ^ 32)
      ≡ a * 2 ^ 24 + b * 2 ^ 16 + c * 2 ^ 8 + d
shifts a b c d ha hb hc hd =
    let ea : a * 2 ^ 24 % 2 ^ 32 ≡ a * 2 ^ 24 = omega arith in
    let eb : b * 2 ^ 16 % 2 ^ 32 ≡ b * 2 ^ 16 = omega arith in
    let ec : c * 2 ^ 8 % 2 ^ 32 ≡ c * 2 ^ 8 = omega arith in
    let ed : d % 2 ^ 32 ≡ d = omega arith in
    let first : a * 2 ^ 24 + b * 2 ^ 16 ≡ (a * 2 ^ 8 + b) * 2 ^ 16 = omega arith in
    let second : (a * 2 ^ 8 + b) * 2 ^ 16 + c * 2 ^ 8 ≡ (a * 2 ^ 16 + b * 2 ^ 8 + c) * 2 ^ 8 =
      omega arith in
    rw
      (
        ea,
        eb,
        ec,
        ed,
        bit_or-shifted 24 a (b * 2 ^ 16) (omega arith),
        first,
        bit_or-shifted 16 (a * 2 ^ 8 + b) (c * 2 ^ 8) (omega arith),
        second,
        bit_or-shifted 8 (a * 2 ^ 16 + b * 2 ^ 8 + c) d (omega arith),
      )
      (omega arith)

ipv4_of_parts-quads : (n : ℕ) → n < 2 ^ 32 → ipv4_of_parts (quads n) ≡ n
unfolding ipv4_of_parts quads
ipv4_of_parts-quads n h =
    rw
      (
        word_of-to_decimal (n / 2 ^ 24 % 256),
        word_of-to_decimal (n / 2 ^ 16 % 256),
        word_of-to_decimal (n / 2 ^ 8 % 256),
        word_of-to_decimal (n % 256),
        shifts (n / 2 ^ 24 % 256) (n / 2 ^ 16 % 256) (n / 2 ^ 8 % 256) (n % 256) (omega arith)
            (omega arith) (omega arith) (omega arith),
      )
      (omega arith)

-- Every 32-bit number is read back from the dotted quad that is written for it.
pub ipv4_to_int-int_to_ipv4 : (n : ℕ) → n < 2 ^ 32 → ipv4_to_int (int_to_ipv4 n) ≡ n
unfolding ipv4_to_int
ipv4_to_int-int_to_ipv4 n h = ap ipv4_of_parts (split-int_to_ipv4 n) ∙ ipv4_of_parts-quads n h

-- The number of an address has 32 bits, whatever the string is.
pub ipv4_to_int_below : (ip : Str) → ipv4_to_int ip < 2 ^ 32
unfolding ipv4_to_int ipv4_of_parts
ipv4_to_int_below ip =
    bit_or_below 32 _ _
      (bit_or_below 32 _ _ (bit_or_below 32 _ _ (omega arith) (omega arith)) (omega arith))
      (omega arith)

-- A test that holds for every number below a bound that it was run for.
holds_below : (ℕ → Bool) → ℕ → Bool
holds_below p zero = true
holds_below p (suc n) = p n && holds_below p n

holds_below-holds : (p : ℕ → Bool) (k n : ℕ) → holds_below p k ≡ true → n < k → p n ≡ true
unfolding holds_below
holds_below-holds p zero n h q = absurd (omega arith)
holds_below-holds p (suc k) n h q = ground (arith, holds_below-holds p k n, ap p)

is_quad_part-bytes : holds_below (λ d. is_quad_part (to_decimal d)) 256 ≡ true
unfolding holds_below to_decimal decimal_loop
is_quad_part-bytes = refl

is_quad_part-to_decimal : (d : ℕ) → d < 256 → is_quad_part (to_decimal d) ≡ true
is_quad_part-to_decimal d h =
    holds_below-holds (λ e. is_quad_part (to_decimal e)) 256 d is_quad_part-bytes h

-- What intToIPv4 writes passes isValidIPv4.
pub is_valid_ipv4-int_to_ipv4 : (n : ℕ) → is_valid_ipv4 (int_to_ipv4 n) ≡ true
unfolding is_valid_ipv4 quads
is_valid_ipv4-int_to_ipv4 n = rw (
  split-int_to_ipv4 n,
  is_quad_part-to_decimal (n / 2 ^ 24 % 256) (omega arith),
  is_quad_part-to_decimal (n / 2 ^ 16 % 256) (omega arith),
  is_quad_part-to_decimal (n / 2 ^ 8 % 256) (omega arith),
  is_quad_part-to_decimal (n % 256) (omega arith),
)
