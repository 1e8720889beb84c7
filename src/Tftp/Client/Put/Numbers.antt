-- ===== src/Tftp/Client/Put/Numbers.antt =====
-- The block numbers that an upload sends.
use tsbootkit.Base.{ℕ, zero, suc, ◌+◌, ◌≡◌, refl, ap, ◌∙◌, arith, true}
use tsbootkit.Tftp.Transfer.{wrap_number}
use tsbootkit.Tftp.Client.Put.{wire_block}

-- The number of the block that follows `n` blocks, as the server counts: one by one, and starting again after 65535.
abbrev pub counted : ℕ → ℕ
counted zero = 0
counted (suc n) = wrap_number true (counted n + 1)

wire_block-suc : (n : ℕ) → wire_block (suc n) ≡ wrap_number true (wire_block n + 1)
wire_block-suc n = ground arith

-- The number that the client computes for its n-th block out of the running count, without a limit on the size of
-- the file, is the number that the server counts to.
pub wire_block-counted : (n : ℕ) → wire_block n ≡ counted n
wire_block-counted zero = refl
wire_block-counted (suc n) =
    wire_block-suc n ∙ ap (λ k. wrap_number true (k + 1)) (wire_block-counted n)

pub counted_next : (n : ℕ) → counted (n + 1) ≡ wrap_number true (counted n + 1)
counted_next n = let same : n + 1 ≡ suc n = omega arith in ap counted same
