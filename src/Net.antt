-- ===== src/Net.antt =====
-- src/shared/network.mts: IPv4 addresses as dotted quads and as 32-bit numbers, networks, and the
-- choice of a random free address. The bitwise operators of JavaScript work on 32-bit integers;
-- every result here is read as unsigned, which is what `>>> 0` does and what the comparisons of
-- two such results cannot tell apart.
pub mod Quad
pub mod Random
mod Tests
use Prim.Native.Nat.{bit_and, bit_or}
use tsbootkit.Base.{
  ℕ, zero, suc, ◌+◌, ◌-◌, ◌*◌, ◌/◌, ◌%◌, ◌^◌, ◌≤◌, ◌<◌, ◌≡◌, refl, arith, Option, none, some, List,
  [], ◌∷◌, ◌++◌, map, Bool, true, false, ◌&&◌, ◌||◌, if◌then◌else◌, ltb, leb, ◌==◌, Result, ok, err,
  length, get_elem?,
}
use tsbootkit.Base.Text.{Str, codes, split, join, all_digits, value, number, to_decimal}
use tsbootkit.Base.Store

-- /^\d{1,3}$/.test(p) && n >= 0 && n <= 255
abbrev pub is_quad_part : Str → Bool
is_quad_part p = (all_digits p && (leb 1 (length p) && leb (length p) 3)) && leb (value 0 p) 255

abbrev pub every : List Str → Bool
every [] = true
every (p ∷ ps) = is_quad_part p && every ps

unfoldable pub is_valid_ipv4 : Str → Bool
is_valid_ipv4 value = let parts = split b'.' value in (length parts == 4) && every parts

-- What a bitwise operator makes of a part: NaN and a missing part are 0.
abbrev pub word_of : Option Str → ℕ
word_of none = 0
word_of (some p) = elim (number p) [ none ↦ 0 | some n ↦ n ]

abbrev pub shift_left : ℕ → ℕ → ℕ
shift_left n k = n * 2 ^ k % 2 ^ 32

unfoldable pub ipv4_of_parts : List Str → ℕ
ipv4_of_parts parts =
    bit_or
      (bit_or
        (bit_or (shift_left (word_of (get_elem? parts 0)) 24)
          (shift_left (word_of (get_elem? parts 1)) 16))
        (shift_left (word_of (get_elem? parts 2)) 8))
      (word_of (get_elem? parts 3) % 2 ^ 32)

unfoldable pub ipv4_to_int : Str → ℕ
ipv4_to_int ip = ipv4_of_parts (split b'.' ip)

unfoldable pub quads : ℕ → List Str
quads n =
    to_decimal (n / 2 ^ 24 % 256)
    ∷ to_decimal (n / 2 ^ 16 % 256)
    ∷ to_decimal (n / 2 ^ 8 % 256)
    ∷ to_decimal (n % 256)
    ∷ []

unfoldable pub int_to_ipv4 : ℕ → Str
int_to_ipv4 n = join b'.' (quads n)

-- The set bits of a number, whose digits fuel `f` covers.
abbrev pub popcount : ℕ → ℕ → ℕ
popcount zero n = 0
popcount (suc f) n = n % 2 + popcount f (n / 2)

unfoldable pub netmask_to_prefix : Str → ℕ
netmask_to_prefix netmask = popcount 32 (ipv4_to_int netmask)

pub record NetworkCidr : Type 0 where
  pub network : Str
  pub netmask : Str
  pub prefix : ℕ
  pub broadcast : Str

-- ~n >>> 0
abbrev pub complement : ℕ → ℕ
complement n = 2 ^ 32 - 1 - n

unfoldable pub compute_cidr : Str → Str → NetworkCidr
compute_cidr address netmask =
    let mask_int = ipv4_to_int netmask in
    let network_int = bit_and (ipv4_to_int address) mask_int in
    let broadcast_int = bit_or network_int (complement mask_int) in
    record {
      network = int_to_ipv4 network_int;
      netmask = netmask;
      prefix = netmask_to_prefix netmask;
      broadcast = int_to_ipv4 broadcast_int;
    }

-- One attempt with what Math.floor(Math.random() * 0xffffffff) gave.
unfoldable pub candidate_of : Str → Str → ℕ → ℕ
candidate_of address netmask entropy =
    bit_or (bit_and (ipv4_to_int address) (ipv4_to_int netmask))
      (bit_and entropy (complement (ipv4_to_int netmask)))

unfoldable pub is_skipped : Str → Str → List Str → ℕ → Bool
is_skipped address netmask allocated candidate =
    (candidate == ipv4_to_int address)
    || ((candidate == ipv4_to_int (compute_cidr address netmask).network)
        || ((candidate == ipv4_to_int (compute_cidr address netmask).broadcast)
            || Store.has (int_to_ipv4 candidate) allocated))

-- The loop over the attempts; `random attempt` is the number drawn in that attempt.
unfoldable pub try_addresses : ℕ → Str → Str → List Str → (ℕ → ℕ) → ℕ → Result Str Str
try_addresses zero address netmask allocated random attempt =
    err (codes "No available IP addresses")
try_addresses (suc left) address netmask allocated random attempt =
    let rest = try_addresses left address netmask allocated random (suc attempt) in
    let candidate = candidate_of address netmask (random attempt) in
    if is_skipped address netmask allocated candidate then rest else ok (int_to_ipv4 candidate)

unfoldable pub generate_random_ip : Str → Str → List Str → (ℕ → ℕ) → Result Str Str
generate_random_ip address netmask allocated random =
    try_addresses 1000 address netmask allocated random 0
