-- ===== src/Invoice/Event.antt =====
-- src/invoice/event.rs and error.rs: the events and the errors of an invoice.
use blink_lightning_gateway.Base.{Bool, true, false, Option, none, some, String}
use blink_lightning_gateway.Primitives.Amount.{MilliSatoshi}
use blink_lightning_gateway.Primitives.Hex.{PaymentHash, Preimage}
use blink_lightning_gateway.Primitives.Types.{WalletId, BoltInvoice, Timestamp}

pub data CancelReason : Type 0 where
  expired : CancelReason

unfoldable pub cancel_reason_as_str : CancelReason → String
cancel_reason_as_str expired = "Expired"

pub data InvoiceEvent : Type 0 where
  created :
      (payment_hash : PaymentHash) (payment_preimage : Preimage) (wallet_id : WalletId)
      (amount_msat : Option MilliSatoshi) (expiry_at : Timestamp) (bolt_invoice : BoltInvoice)
      (external_id : String) (created_at : Timestamp)
      → InvoiceEvent
  htlc_held : (held_at : Timestamp) (htlc_amount_msat : MilliSatoshi) → InvoiceEvent
  settled : (settled_at : Timestamp) → InvoiceEvent
  settled_intraledger : (settled_at : Timestamp) → InvoiceEvent
  canceled : (canceled_at : Timestamp) (reason : CancelReason) → InvoiceEvent

-- The patterns of the idempotency guards.
abbrev pub is_htlc_held : InvoiceEvent → Bool
is_htlc_held (htlc_held _ _) = true
is_htlc_held _ = false

abbrev pub is_settled : InvoiceEvent → Bool
is_settled (settled _) = true
is_settled _ = false

abbrev pub is_settled_intraledger : InvoiceEvent → Bool
is_settled_intraledger (settled_intraledger _) = true
is_settled_intraledger _ = false

abbrev pub is_canceled : InvoiceEvent → Bool
is_canceled (canceled _ _) = true
is_canceled _ = false

pub data InvoiceState : Type 0 where
  open_ held settled canceled : InvoiceState

-- The errors that `es-entity` generates, as far as the code looks into them.
pub data InvoiceColumn : Type 0 where
  external_id other_column : InvoiceColumn

pub data InvoiceCreateError : Type 0 where
  constraint_violation :
      (column : Option InvoiceColumn) (value : Option String) → InvoiceCreateError
  other_create : String → InvoiceCreateError

pub data InvoiceFindError : Type 0 where
  not_found : InvoiceFindError
  other_find : String → InvoiceFindError

pub data InvoiceModifyError : Type 0 where
  concurrent_modification : InvoiceModifyError
  other_modify : String → InvoiceModifyError

pub data InvoiceError : Type 0 where
  invalid_amount : InvoiceError
  invoice_not_found : PaymentHash → InvoiceError
  invalid_state_transition : (from : InvoiceState) (attempted : String) → InvoiceError
  duplicate_external_id : (detail : String) → InvoiceError
  invalid_external_id : String → InvoiceError
  invoice_create : InvoiceCreateError → InvoiceError
  invoice_modify : InvoiceModifyError → InvoiceError
  invoice_find : InvoiceFindError → InvoiceError
  -- The query error of the generated repository, by its text.
  invoice_query : String → InvoiceError
  sqlx : String → InvoiceError

abbrev unwrap_or_default : Option String → String
unwrap_or_default none = ""
unwrap_or_default (some s) = s

-- `From<InvoiceCreateError>`: a violated `external_id` constraint is the client's error.
unfoldable pub from_create_error : InvoiceCreateError → InvoiceError
from_create_error (constraint_violation (some external_id) value) =
    duplicate_external_id (unwrap_or_default value)
from_create_error other = invoice_create other
