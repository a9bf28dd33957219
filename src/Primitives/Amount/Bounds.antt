-- ===== src/Primitives/Amount/Bounds.antt =====
-- Rounding to whole satoshis, and where the arithmetic and the database column keep an amount.
use blink_lightning_gateway.Base.{ℕ, ◌*◌, ◌≤◌, ◌<◌, ◌≡◌, refl, none, some, ok, err, arith}
use blink_lightning_gateway.Primitives.Amount.{
  MilliSatoshi, ℤ, pos, negsuc, u64_max, i64_max, round_up_to_sat, round_up_to_sat_checked,
  whole_sat, to_msat, try_from, encode, overflow, negative,
}

-- Rounding up gives the least whole number of satoshis that is enough: a multiple of 1000 that is not
-- below the amount, and at most any other such multiple. Rounding again changes nothing.
pub round_up_to_sat_least :
    (m : MilliSatoshi)
    → (m ≤ round_up_to_sat m)
      × (whole_sat (round_up_to_sat m) * 1000 ≡ round_up_to_sat m)
      × ((k : ℕ) → m ≤ k * 1000 → round_up_to_sat m ≤ k * 1000)
      × (round_up_to_sat (round_up_to_sat m) ≡ round_up_to_sat m)
unfolding round_up_to_sat whole_sat
round_up_to_sat_least m = (omega arith, omega arith, λ k h. omega arith, omega arith)

-- The product in `round_up_to_sat` leaves the `u64` exactly for the 615 amounts above
-- 18446744073709551000; for all others the function is the unbounded rounding.
pub round_up_to_sat_checked_iff :
    (m : MilliSatoshi)
    → m ≤ u64_max
    → (m ≤ 18_446_744_073_709_551_000 → round_up_to_sat_checked m ≡ some (round_up_to_sat m))
      × (18_446_744_073_709_551_000 < m → round_up_to_sat_checked m ≡ none)
unfolding round_up_to_sat round_up_to_sat_checked
round_up_to_sat_checked_iff m h = (λ a. ground arith, λ a. ground arith)

-- An amount is stored in a BIGINT and read back exactly, if it is at most `i64::MAX`; a larger one is
-- refused with `Overflow`, and a negative column is never read as an amount.
pub encode-try_from :
    (m : MilliSatoshi)
    → (m ≤ i64_max → (z : ℤ) × (encode m ≡ ok z) × (try_from z ≡ ok m))
      × (i64_max < m → encode m ≡ err overflow)
      × ((n : ℕ) → try_from (negsuc n) ≡ err (negative (negsuc n)))
unfolding encode try_from
encode-try_from m = (λ h. (pos m, ground arith, refl), λ h. ground arith, λ n. refl)

-- Up to the supply of 21 million bitcoin, a satoshi amount converts to millisatoshis and back with no
-- overflow, and the millisatoshis fit in the database column.
pub to_msat_supply :
    (s : ℕ)
    → s ≤ 2_100_000_000_000_000
    → (m : MilliSatoshi) × (to_msat s ≡ some m) × (whole_sat m ≡ s) × (encode m ≡ ok (pos m))
unfolding to_msat whole_sat encode
to_msat_supply s h = (s * 1000, ground arith, omega arith, ground arith)
