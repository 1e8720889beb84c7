-- ===== src/Base/Text.antt =====
-- JavaScript strings as lists of character codes, with the built-in operations that the sources
-- call: ===, split, join, String(n), Number, parseInt, toLowerCase, trim and toString(16).
pub mod Decimal
use Prim.Native.Char.{code}
use Prim.Native.String.{String}
use Prim.Native.Nat.{ℕ, zero, suc, ◌+◌, ◌-◌, ◌*◌, ◌/◌, ◌%◌}
use mathlib.Core.Bool.{Bool, true, false, ◌&&◌, ◌||◌}
use mathlib.Core.Option.{Option, none, some}
use mathlib.Core.List.{List, [], ◌∷◌, ◌++◌, map, reverse}
use tsbootkit.Base.Tests.{ltb, leb, ◌==◌, if◌then◌else◌}

abbrev pub Str : Type 0
Str = List ℕ

-- The codes of a literal.
abbrev pub codes : String → Str
codes String.[] = []
codes (String.◌∷◌ c s) = code c ∷ codes s

abbrev pub str_eq : Str → Str → Bool
str_eq [] [] = true
str_eq [] (y ∷ ys) = false
str_eq (x ∷ xs) [] = false
str_eq (x ∷ xs) (y ∷ ys) = (x == y) && str_eq xs ys

abbrev pub is_empty : Str → Bool
is_empty [] = true
is_empty (x ∷ xs) = false

abbrev pub starts_with : Str → Str → Bool
starts_with xs [] = true
starts_with [] (y ∷ ys) = false
starts_with (x ∷ xs) (y ∷ ys) = (x == y) && starts_with xs ys

-- s.split(c) for a separator of one character.
abbrev pub cons_head : ℕ → List Str → List Str
cons_head x [] = (x ∷ []) ∷ []
cons_head x (s ∷ ss) = (x ∷ s) ∷ ss

unfoldable pub split : ℕ → Str → List Str
split c [] = [] ∷ []
split c (x ∷ xs) = let rest = split c xs in if x == c then [] ∷ rest else cons_head x rest

unfoldable pub join : ℕ → List Str → Str
join c [] = []
join c (s ∷ []) = s
join c (s ∷ t ∷ ts) = s ++ (c ∷ join c (t ∷ ts))

abbrev pub is_digit : ℕ → Bool
is_digit c = leb 48 c && leb c 57

abbrev pub all_digits : Str → Bool
all_digits [] = true
all_digits (c ∷ cs) = is_digit c && all_digits cs

-- The value of a run of decimal digits read after `acc`.
abbrev pub value : ℕ → Str → ℕ
value acc [] = acc
value acc (c ∷ cs) = value (acc * 10 + (c - 48)) cs

-- String(n) for an integer n ≥ 0; one digit a round, so `n` rounds are enough.
unfoldable pub decimal_loop : ℕ → ℕ → Str
decimal_loop zero n = (48 + n % 10) ∷ []
decimal_loop (suc f) n =
    let more = decimal_loop f (n / 10) in
    if ltb n 10 then (48 + n) ∷ [] else more ++ ((48 + n % 10) ∷ [])

unfoldable pub to_decimal : ℕ → Str
unfolding decimal_loop
to_decimal n = decimal_loop n n

-- Number(s): decimal digits, with Number("") being 0. `none` is NaN. The other notations that
-- Number reads (signs, fractions, exponents, hexadecimal, blanks) are taken for NaN.
unfoldable pub number : Str → Option ℕ
number s = if all_digits s then some (value 0 s) else none

-- What parseInt gives: NaN, n, or -n for n > 0. (-0 compares like 0.) The numbers are exact, as
-- doubles are up to 2^53.
pub data JsInt : Type 0 where
  nan : JsInt
  int : ℕ → JsInt
  minus : ℕ → JsInt

abbrev pub is_blank : ℕ → Bool
is_blank c = (leb 9 c && leb c 13) || c == 32

abbrev pub trim_start : Str → Str
trim_start [] = []
trim_start (c ∷ cs) = let rest = trim_start cs in if is_blank c then rest else c ∷ cs

unfoldable pub trim : Str → Str
trim s = reverse (trim_start (reverse (trim_start s)))

abbrev pub digit_prefix : Str → Str
digit_prefix [] = []
digit_prefix (c ∷ cs) = let rest = digit_prefix cs in if is_digit c then c ∷ rest else []

abbrev pub digits_int : Str → JsInt
digits_int [] = nan
digits_int (c ∷ cs) = int (value 0 (c ∷ cs))

abbrev pub negate : JsInt → JsInt
negate nan = nan
negate (int zero) = int zero
negate (int (suc n)) = minus (suc n)
negate (minus n) = int n

abbrev pub signed_int : Str → JsInt
signed_int [] = nan
signed_int (c ∷ cs) =
    if c == b'-'
    then negate (digits_int (digit_prefix cs))
    else if c == b'+'
    then digits_int (digit_prefix cs)
    else digits_int (digit_prefix (c ∷ cs))

-- parseInt(s, 10)
unfoldable pub parse_int : Str → JsInt
parse_int s = signed_int (trim_start s)

-- toLowerCase, on ASCII.
abbrev pub lower : ℕ → ℕ
lower c = if leb b'A' c && leb c b'Z' then c + 32 else c

unfoldable pub to_lower : Str → Str
to_lower = map lower

-- n.toString(16).padStart(2, '0') for a byte.
abbrev pub hex_digit : ℕ → ℕ
hex_digit n = if ltb n 10 then 48 + n else 87 + n

unfoldable pub hex_byte : ℕ → Str
hex_byte n = hex_digit (n / 16) ∷ hex_digit (n % 16) ∷ []

abbrev pub is_hex : ℕ → Bool
is_hex c = is_digit c || ((leb b'a' c && leb c b'f') || (leb b'A' c && leb c b'F'))

abbrev pub hex_value : ℕ → ℕ
hex_value c = if is_digit c then c - 48 else if leb b'a' c then c - 87 else c - 55

-- parseInt(s, 16) of a part that holds hexadecimal digits; 0 stands for NaN, which is what a
-- buffer stores for it.
abbrev pub hex_prefix_value : ℕ → Str → ℕ
hex_prefix_value acc [] = acc
hex_prefix_value acc (c ∷ cs) =
    let rest = hex_prefix_value (acc * 16 + hex_value c) cs in if is_hex c then rest else acc

unfoldable pub parse_hex : Str → ℕ
parse_hex = hex_prefix_value 0
