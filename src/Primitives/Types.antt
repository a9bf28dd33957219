-- ===== src/Primitives/Types.antt =====
-- The identifiers and texts of src/primitives: ids.rs, timestamp.rs, bolt_invoice.rs.
-- An identifier is the text of its UUID; an instant is its number of milliseconds.
use Prim.Native.String.{String}
use text.Mathlib.Text.{◌==◌ as str_eq}
use blink_lightning_gateway.Base.{ℕ, ◌+◌, ◌*◌, Bool}

abbrev pub InvoiceId : Type 0
InvoiceId = String

abbrev pub PaymentId : Type 0
PaymentId = String

abbrev pub WalletId : Type 0
WalletId = String

abbrev pub BoltInvoice : Type 0
BoltInvoice = String

-- `DateTime<Utc>`, in milliseconds.
abbrev pub Timestamp : Type 0
Timestamp = ℕ

-- `now + chrono::Duration::seconds(s)`
abbrev pub add_seconds : Timestamp → ℕ → Timestamp
add_seconds t s = t + s * 1000

-- `String::is_empty`
abbrev pub is_empty : String → Bool
is_empty s = str_eq s ""
