-- ===== src/Base/Buffer.antt =====
-- Node's Buffer as the list of its bytes, with the methods that the codecs call. Writing past the
-- end drops what does not fit, as `copy`, `write` and an assignment to an index do; the numeric
-- readers and writers throw a RangeError instead, which is `none` here.
use Prim.Native.Nat.{ℕ, zero, suc, ◌+◌, ◌-◌, ◌*◌, ◌/◌, ◌%◌, ◌<◌}
use mathlib.Core.Path.{◌≡◌, refl, ap, ap₂, ◌∙◌}
use mathlib.Core.Bool.{◌||◌}
use mathlib.Core.Option.{Option, none, some}
use mathlib.Core.List.{List, [], ◌∷◌, ◌++◌, map}
use native.Mathlib.Omega.{arith}
use tsbootkit.Base.Tests.{ltb, if◌then◌else◌}
use tsbootkit.Base.Lists.{length, get_or, take, drop, replicate, All, length-map}
use tsbootkit.Base.Text.{Str}

abbrev pub Buffer : Type 0
Buffer = List ℕ

abbrev pub IsByte : ℕ → Type 0
IsByte b = b < 256

abbrev pub alloc : ℕ → Buffer
alloc n = replicate n 0

-- Overwrite from `offset` on.
unfoldable pub write_bytes : Buffer → ℕ → List ℕ → Buffer
write_bytes [] offset bs = []
write_bytes (x ∷ xs) zero [] = x ∷ xs
write_bytes (x ∷ xs) zero (b ∷ bs) = b ∷ write_bytes xs zero bs
write_bytes (x ∷ xs) (suc o) bs = x ∷ write_bytes xs o bs

-- The two, or four, bytes of a number, the highest first.
abbrev pub bytes16 : ℕ → List ℕ
bytes16 v = v / 256 ∷ v % 256 ∷ []

abbrev pub bytes32 : ℕ → List ℕ
bytes32 v = v / 16777216 ∷ v / 65536 % 256 ∷ v / 256 % 256 ∷ v % 256 ∷ []

-- buf.writeUInt8, buf.writeUInt16BE and buf.writeUInt32BE.
unfoldable pub write_uint8 : Buffer → ℕ → ℕ → Option Buffer
unfolding write_bytes
write_uint8 buf v offset =
    if ltb 255 v || ltb (length buf) (offset + 1)
    then none
    else some (write_bytes buf offset (v ∷ []))

unfoldable pub write_uint16_be : Buffer → ℕ → ℕ → Option Buffer
unfolding write_bytes
write_uint16_be buf v offset =
    if ltb 65535 v || ltb (length buf) (offset + 2)
    then none
    else some (write_bytes buf offset (bytes16 v))

unfoldable pub write_uint32_be : Buffer → ℕ → ℕ → Option Buffer
unfolding write_bytes
write_uint32_be buf v offset =
    if ltb 4294967295 v || ltb (length buf) (offset + 4)
    then none
    else some (write_bytes buf offset (bytes32 v))

-- buf.readUInt16BE and buf.readUInt32BE.
abbrev pub uint16_at : Buffer → ℕ → ℕ
uint16_at buf o = get_or buf o 0 * 256 + get_or buf (o + 1) 0

abbrev pub uint32_at : Buffer → ℕ → ℕ
uint32_at buf o = uint16_at buf o * 65536 + uint16_at buf (o + 2)

unfoldable pub read_uint16_be : Buffer → ℕ → Option ℕ
read_uint16_be buf o = if ltb (length buf) (o + 2) then none else some (uint16_at buf o)

unfoldable pub read_uint32_be : Buffer → ℕ → Option ℕ
read_uint32_be buf o = if ltb (length buf) (o + 4) then none else some (uint32_at buf o)

-- buf.subarray(start, end)
abbrev pub subarray : Buffer → ℕ → ℕ → Buffer
subarray buf start end = take (end - start) (drop start buf)

-- buf.toString('ascii') clears the top bit; writing a string as 'ascii' keeps the low byte.
unfoldable pub to_ascii : Buffer → Str
to_ascii = map (λ b. b % 128)

unfoldable pub from_ascii : Str → Buffer
from_ascii = map (λ c. c % 256)

infixl 5 ◌>>=◌
abbrev pub ◌>>=◌ {ℓ κ} : {A : Type ℓ} {B : Type κ} → Option A → (A → Option B) → Option B
none >>= f = none
some a >>= f = f a

-- Filling a buffer from the left: `done` is written, and the zeros behind it are not yet.
module _ (done : List ℕ) where
  abbrev pub Filled : ℕ → Buffer
  Filled room = done ++ replicate room 0

pub write_bytes-nil : (buf : Buffer) → write_bytes buf 0 [] ≡ buf
unfolding write_bytes
write_bytes-nil [] = refl
write_bytes-nil (x ∷ xs) = refl

write_bytes-zeros :
    (n room : ℕ) (bs : List ℕ)
    → n ≡ length bs + room
    → write_bytes (replicate n 0) 0 bs ≡ bs ++ replicate room 0
unfolding write_bytes
write_bytes-zeros n room [] e =
    write_bytes-nil (replicate n 0) ∙ ap (λ k. replicate k 0) (omega arith)
write_bytes-zeros zero room (b ∷ bs) e = absurd (omega arith)
write_bytes-zeros (suc n) room (b ∷ bs) e = ap (◌∷◌ b) (write_bytes-zeros n room bs (omega arith))

-- The next write of a chain: it fits, and moves the border by its length.
pub write_bytes-Filled :
    (done bs : List ℕ) {n : ℕ} (room : ℕ)
    → n ≡ length bs + room
    → write_bytes (Filled done n) (length done) bs ≡ Filled (done ++ bs) room
unfolding write_bytes
write_bytes-Filled [] bs {n} room e = write_bytes-zeros n room bs e
write_bytes-Filled (x ∷ done) bs room e = ap (◌∷◌ x) (write_bytes-Filled done bs room e)

pub length-write_bytes : (buf bs : List ℕ) (o : ℕ) → length (write_bytes buf o bs) ≡ length buf
unfolding write_bytes
length-write_bytes [] bs o = refl
length-write_bytes (x ∷ xs) [] zero = refl
length-write_bytes (x ∷ xs) (b ∷ bs) zero = ap suc (length-write_bytes xs bs zero)
length-write_bytes (x ∷ xs) bs (suc o) = ap suc (length-write_bytes xs bs o)

-- Decoding gives back an encoded string of 7-bit characters.
abbrev pub IsAscii : Str → Type 0
IsAscii s = All (λ c. c < 128) s

pub to_ascii-from_ascii : (s : Str) → IsAscii s → to_ascii (from_ascii s) ≡ s
unfolding to_ascii from_ascii
to_ascii-from_ascii [] h = refl
to_ascii-from_ascii (c ∷ s) (p, h) = ap₂ ◌∷◌ (omega arith) (to_ascii-from_ascii s h)

pub length-from_ascii : (s : Str) → length (from_ascii s) ≡ length s
unfolding from_ascii
length-from_ascii s = length-map _ s
