-- ===== src/Payment/Event.antt =====
-- src/payment/event.rs and error.rs: the events and the errors of a payment.
use Prim.Native.String.{◌++◌ as append}
use blink_lightning_gateway.Base.{ℕ, Bool, true, false, Option, none, some, List, String}
use blink_lightning_gateway.Primitives.Amount.{MilliSatoshi}
use blink_lightning_gateway.Primitives.Hex.{PaymentHash, Preimage, Pubkey}
use blink_lightning_gateway.Primitives.Types.{WalletId, BoltInvoice, Timestamp}

pub data FailureReason : Type 0 where
  timeout no_route insufficient_balance incorrect_payment_details : FailureReason
  other : String → FailureReason

unfoldable pub failure_as_str : FailureReason → String
failure_as_str timeout = "Timeout"
failure_as_str no_route = "NoRoute"
failure_as_str insufficient_balance = "InsufficientBalance"
failure_as_str incorrect_payment_details = "IncorrectPaymentDetails"
failure_as_str (other s) = "Other"

unfoldable pub detail_str : FailureReason → String
unfolding failure_as_str
detail_str (other s) = append "Other: " s
detail_str timeout = failure_as_str timeout
detail_str no_route = failure_as_str no_route
detail_str insufficient_balance = failure_as_str insufficient_balance
detail_str incorrect_payment_details = failure_as_str incorrect_payment_details

pub record Hop : Type 0 where
  pub pub_key : Pubkey
  pub channel_id : ℕ
  pub fee_msat : MilliSatoshi
  pub amt_msat : MilliSatoshi
  pub expiry : ℕ

pub data PaymentEvent : Type 0 where
  initiated :
      (payment_hash : PaymentHash) (wallet_id : WalletId) (amount_msat : MilliSatoshi)
      (max_fee_msat : MilliSatoshi) (bolt_invoice : BoltInvoice) (destination : String)
      (initiated_at : Timestamp)
      → PaymentEvent
  pending : (sent_at : Timestamp) → PaymentEvent
  completed :
      (settled_at : Timestamp) (payment_preimage : Preimage) (fees_paid_msat : MilliSatoshi)
      (route_hops : List Hop)
      → PaymentEvent
  failed : (failed_at : Timestamp) (failure_reason : FailureReason) → PaymentEvent
  reversed : (reversed_at : Timestamp) (reason : String) → PaymentEvent

-- The patterns of the idempotency guards.
abbrev pub is_pending : PaymentEvent → Bool
is_pending (pending _) = true
is_pending _ = false

abbrev pub is_completed : PaymentEvent → Bool
is_completed (completed _ _ _ _) = true
is_completed _ = false

abbrev pub is_failed : PaymentEvent → Bool
is_failed (failed _ _) = true
is_failed _ = false

abbrev pub is_reversed : PaymentEvent → Bool
is_reversed (reversed _ _) = true
is_reversed _ = false

pub data PaymentState : Type 0 where
  initiated pending completed failed reversed : PaymentState

-- The errors that `es-entity` generates, as far as the code looks into them.
pub data PaymentColumn : Type 0 where
  payment_hash other_column : PaymentColumn

pub data PaymentCreateError : Type 0 where
  constraint_violation :
      (column : Option PaymentColumn) (value : Option String) → PaymentCreateError
  other_create : String → PaymentCreateError

pub data PaymentFindError : Type 0 where
  not_found : PaymentFindError
  other_find : String → PaymentFindError

pub data PaymentModifyError : Type 0 where
  concurrent_modification : PaymentModifyError
  other_modify : String → PaymentModifyError

pub data PaymentError : Type 0 where
  invalid_amount amount_required amount_overspecified amount_mismatch : PaymentError
  invalid_max_fee empty_bolt_invoice : PaymentError
  invalid_bolt_invoice : String → PaymentError
  expired_bolt_invoice : PaymentError
  already_paid : (payment_hash : String) → PaymentError
  self_payment recipient_invoice_canceled : PaymentError
  recipient_invoice_in_progress recipient_invoice_expired : PaymentError
  invalid_state_transition : (from : PaymentState) (attempted : String) → PaymentError
  corrupt_event_log : PaymentError
  payment_create : PaymentCreateError → PaymentError
  payment_modify : PaymentModifyError → PaymentError
  payment_find : PaymentFindError → PaymentError
  -- The query error of the generated repository, by its text.
  payment_query : String → PaymentError
  sqlx : String → PaymentError

abbrev unwrap_or_default : Option String → String
unwrap_or_default none = ""
unwrap_or_default (some s) = s

-- `From<PaymentCreateError>`: a violated `payment_hash` constraint means that it was paid before.
unfoldable pub from_create_error : PaymentCreateError → PaymentError
from_create_error (constraint_violation (some payment_hash) value) =
    already_paid (unwrap_or_default value)
from_create_error error = payment_create error
