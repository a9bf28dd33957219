-- ===== src/Examples/Numbers.antt =====
-- The theorems on amounts and fees at concrete amounts.
use blink_lightning_gateway.Base.{ℕ, ◌*◌, ◌/◌, ◌+◌, ◌<◌, ◌≤◌, ◌≡◌, ◌⊎◌, some, arith}
use blink_lightning_gateway.Primitives.Amount.{u64_max, round_up_to_sat, round_up_to_sat_checked}
use blink_lightning_gateway.Primitives.Amount.Bounds.{round_up_to_sat_checked_iff}
use blink_lightning_gateway.Fees.Policy.{max_for, max_for_nearest}

round_up_to_sat_checked_iff_example :
    round_up_to_sat_checked 1_234_567 ≡ some (round_up_to_sat 1_234_567)
round_up_to_sat_checked_iff_example =
    (round_up_to_sat_checked_iff 1_234_567 (ground arith)).0 (ground arith)

max_for_nearest_example :
    (f : ℕ) × (max_for 10_100_000 ≡ f * 1000)
    × (10 ≤ f)
    × (10_100_000 / 1000 * 50 ≤ f * 10_000 + 5_000)
    × ((f ≡ 10) ⊎ (f * 10_000 < 10_100_000 / 1000 * 50 + 5_000))
    × (max_for 10_100_000 ≤ u64_max)
max_for_nearest_example = max_for_nearest 10_100_000 (ground arith)
