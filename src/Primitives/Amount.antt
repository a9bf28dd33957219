-- ===== src/Primitives/Amount.antt =====
-- src/primitives/milli_satoshi.rs. A `MilliSatoshi` or a `Satoshis` is its `u64`; an `i64` is an
-- integer of the kind below. Multiplication on a `u64` is checked here: `none` stands for the
-- overflow, at which a debug build panics and a release build wraps.
pub mod Bounds
use blink_lightning_gateway.Base.{
  ℕ, ◌+◌, ◌*◌, ◌/◌, ◌-◌, ◌^◌, ◌%◌, Option, none, some, Result, ok, err, leb, if◌then◌else◌,
}

abbrev pub MilliSatoshi : Type 0
MilliSatoshi = ℕ

abbrev pub Satoshis : Type 0
Satoshis = ℕ

-- `negsuc n` is -(n + 1).
pub data ℤ : Type 0 where
  pos : ℕ → ℤ
  negsuc : ℕ → ℤ

abbrev pub u64_max : ℕ
u64_max = 2 ^ 64 - 1

abbrev pub i64_max : ℕ
i64_max = 2 ^ 63 - 1

-- `u64::saturating_mul`
abbrev pub saturating_mul : ℕ → ℕ → ℕ
saturating_mul a b = if leb (a * b) u64_max then a * b else u64_max

abbrev pub checked : ℕ → Option ℕ
checked n = if leb n u64_max then some n else none

-- `u64::div_ceil(1000)`
abbrev pub div_ceil_1000 : ℕ → ℕ
div_ceil_1000 n = (n + 999) / 1000

-- `MilliSatoshi::round_up_to_sat`, at unbounded numbers.
unfoldable pub round_up_to_sat : MilliSatoshi → MilliSatoshi
round_up_to_sat m = div_ceil_1000 m * 1000

-- `MilliSatoshi::round_up_to_sat`, where the product may leave the `u64`.
unfoldable pub round_up_to_sat_checked : MilliSatoshi → Option MilliSatoshi
round_up_to_sat_checked m = checked (div_ceil_1000 m * 1000)

-- `MilliSatoshi::round_up_to_sat` as a release build computes it: the product wraps.
unfoldable pub round_up_to_sat_wrapping : MilliSatoshi → MilliSatoshi
round_up_to_sat_wrapping m = div_ceil_1000 m * 1000 % 2 ^ 64

unfoldable pub whole_sat : MilliSatoshi → ℕ
whole_sat m = m / 1000

-- `Satoshis::to_msat`
unfoldable pub to_msat : Satoshis → Option MilliSatoshi
to_msat s = checked (s * 1000)

pub data MilliSatoshiError : Type 0 where
  negative : ℤ → MilliSatoshiError
  overflow : MilliSatoshiError

-- `TryFrom<i64>`, and the `Decode` of a Postgres BIGINT, which makes the same test.
unfoldable pub try_from : ℤ → Result MilliSatoshiError MilliSatoshi
try_from (pos n) = ok n
try_from (negsuc n) = err (negative (negsuc n))

-- `Encode` as a Postgres BIGINT.
unfoldable pub encode : MilliSatoshi → Result MilliSatoshiError ℤ
encode m = if leb m i64_max then ok (pos m) else err overflow

-- `u64 as i64`, which wraps.
abbrev pub as_i64 : ℕ → ℤ
as_i64 n = if leb n i64_max then pos n else negsuc (u64_max - n)
