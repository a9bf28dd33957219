-- ===== src/Fees/Policy.antt =====
-- src/fees/policy.rs: `LnFees::max_for`.
use blink_lightning_gateway.Base.{
  ℕ, ◌+◌, ◌*◌, ◌/◌, ◌%◌, ◌≤◌, ◌<◌, ◌≡◌, refl, ◌⊎◌, max, arith, ltb, if◌then◌else◌,
}
use blink_lightning_gateway.Primitives.Amount.{MilliSatoshi, saturating_mul, u64_max, whole_sat}

abbrev pub fee_cap_basis_points : ℕ
fee_cap_basis_points = 50

abbrev pub fee_cap_min_sat : ℕ
fee_cap_min_sat = 10

-- The quotient by 10 000, rounded half down.
abbrev round_half_down : ℕ → ℕ
round_half_down scaled =
    let quotient = scaled / 10_000 in if ltb 5_000 (scaled % 10_000) then quotient + 1 else quotient

unfoldable pub max_fee_sat : MilliSatoshi → ℕ
unfolding whole_sat
max_fee_sat amount_msat =
    let amount_sat = whole_sat amount_msat in
    let pct_sat = round_half_down (saturating_mul amount_sat fee_cap_basis_points) in
    max pct_sat fee_cap_min_sat

unfoldable pub max_for : MilliSatoshi → MilliSatoshi
unfolding max_fee_sat
max_for amount_msat = max_fee_sat amount_msat * 1000

-- For every amount that a `u64` holds, the cap is a whole number `f` of satoshis, at least 10, which
-- is the nearest to half a percent of the whole satoshis of the amount, halves rounded down, or is 10
-- where that is less; the multiplication never saturates and the cap fits in a `u64`.
pub max_for_nearest :
    (m : MilliSatoshi)
    → m ≤ u64_max
    → (f : ℕ) × (max_for m ≡ f * 1000)
      × (10 ≤ f)
      × (m / 1000 * 50 ≤ f * 10_000 + 5_000)
      × ((f ≡ 10) ⊎ (f * 10_000 < m / 1000 * 50 + 5_000))
      × (max_for m ≤ u64_max)
unfolding max_for
max_for_nearest m h = (max_fee_sat m, refl, ground arith, ground arith, ground arith, ground arith)

-- A larger payment never has a smaller cap.
pub max_for_mono : (m n : MilliSatoshi) → m ≤ n → max_for m ≤ max_for n
unfolding max_for
max_for_mono m n h = ground arith
