-- ===== src/Grpc/Resume.antt =====
-- The sequence that a subscriber gets in a message, and hands back when it subscribes again.
use blink_lightning_gateway.Primitives.Amount.{as_i64}
use blink_lightning_gateway.Base.{◌^◌, ◌<◌, ◌≡◌, arith}
use blink_lightning_gateway.Primitives.Amount.{ℤ, pos, negsuc}
use blink_lightning_gateway.Outbox.Wire.{as_u64}

-- An integer of 64 bits.
abbrev pub IsI64 : ℤ → Type 0
IsI64 (pos n) = n < 2 ^ 63
IsI64 (negsuc n) = n < 2 ^ 63

-- The sequence of a sent event, handed back by the subscriber, is the sequence of the row again.
pub as_i64-as_u64 : (s : ℤ) → IsI64 s → as_i64 (as_u64 s) ≡ s
as_i64-as_u64 (pos n) h = ground arith
as_i64-as_u64 (negsuc n) h = ground arith
