-- ===== src/Tftp/Client/Get/Overlap.antt =====
-- A DATA packet that arrives while the one before it is being written to the file.
use tsbootkit.Base.{ℕ, ◌==◌, ◌≡◌, ◌≤◌, refl, arith, true, false, ==_refl, []}
use tsbootkit.Tftp.Client.{ClientSettings}
use tsbootkit.Tftp.Client.Get.{Get, data_arrived, expected_block}

-- The next block of an open download waits for its write, and changes nothing before.
pub data_arrived_expected :
    (c : ClientSettings) (g : Get)
    → g.is_open ≡ true
    → data_arrived c g (expected_block g.block_num) ≡ ((g, []), true)
unfolding data_arrived
data_arrived_expected c g is_open = rw (is_open, ==_refl (expected_block g.block_num))

-- A block that is neither the expected nor the last one is dropped.
data_arrived_other :
    (c : ClientSettings) (g : Get) (n : ℕ)
    → g.is_open ≡ true
    → (n == expected_block g.block_num) ≡ false
    → (n == g.block_num) ≡ false
    → data_arrived c g n ≡ ((g, []), false)
unfolding data_arrived
data_arrived_other c g n is_open not_expected not_last = rw (is_open, not_expected, not_last)

expected_block_differs :
    (n : ℕ)
    → n ≤ 65535
    → ((expected_block (expected_block n) == expected_block n) ≡ false)
      × ((expected_block (expected_block n) == n) ≡ false)
expected_block_differs n fits = ground arith

-- While the block after the last good one is being written, the block that follows it is dropped:
-- it changes nothing, is not written and is not acknowledged.
pub overlapping_data_dropped :
    (c : ClientSettings) (g : Get)
    → g.is_open ≡ true
    → g.block_num ≤ 65535
    → let during = data_arrived c g (expected_block g.block_num) in
      let next = expected_block (expected_block g.block_num) in
      (during.1 ≡ true) × (data_arrived c during.0.0 next ≡ ((g, []), false))
overlapping_data_dropped c g is_open fits =
    let differs = expected_block_differs g.block_num fits in
    rw (data_arrived_expected c g is_open) (
      refl,
      data_arrived_other c g (expected_block (expected_block g.block_num)) is_open differs.0
          differs.1,
    )
