-- ===== src/Lnd/Types.antt =====
-- src/lnd/payment.rs, invoice.rs, subscription.rs and error.rs: what the application layer and LND
-- tell each other. The RPC calls themselves are parameters of `App.World`.
use Prim.Native.String.{◌++◌ as append}
use blink_lightning_gateway.Base.{ℕ, Option, List, String}
use blink_lightning_gateway.Primitives.Amount.{MilliSatoshi}
use blink_lightning_gateway.Primitives.Hex.{PaymentHash, Preimage}
use blink_lightning_gateway.Primitives.Types.{BoltInvoice}
use blink_lightning_gateway.Payment.Event.{FailureReason, Hop}

-- A `tonic::Status` is the text that it is displayed as.
pub data LndError : Type 0 where
  connect rpc : String → LndError
  stub : LndError
  invalid_response : String → LndError
  payment_not_found payment_timeout no_route incorrect_payment_details : LndError

-- The `Display` of an error.
unfoldable pub lnd_error_text : LndError → String
lnd_error_text (connect t) = append "LND connection failed: " t
lnd_error_text (rpc t) = append "LND RPC returned status: " t
lnd_error_text stub = "LND adapter is stubbed; real wiring is exercised through `tilt up`"
lnd_error_text (invalid_response t) = append "invalid LND response: " t
lnd_error_text payment_not_found = "LND has no record of this payment"
lnd_error_text payment_timeout = "payment timed out before LND found a route"
lnd_error_text no_route = "no route found to destination"
lnd_error_text incorrect_payment_details = "destination rejected payment details"

pub record SendPaymentParams : Type 0 where
  pub bolt_invoice : BoltInvoice
  pub max_fee_msat : MilliSatoshi
  pub timeout_seconds : ℕ

pub data SendPaymentStatus : Type 0 where
  in_flight succeeded failed : SendPaymentStatus

pub record SendPaymentResponse : Type 0 where
  pub payment_hash : PaymentHash
  pub payment_preimage : Option Preimage
  pub status : SendPaymentStatus
  pub fees_paid_msat : MilliSatoshi
  pub route_hops : List Hop
  pub failure_reason : Option FailureReason

-- `PaymentUpdate` has the fields of a `SendPaymentResponse`.
abbrev pub PaymentUpdate : Type 0
PaymentUpdate = SendPaymentResponse

pub data LndInvoiceState : Type 0 where
  open_ accepted settled canceled : LndInvoiceState

pub record InvoiceUpdate : Type 0 where
  pub payment_hash : PaymentHash
  pub state : LndInvoiceState
  pub amt_paid_msat : MilliSatoshi
  pub payment_preimage : Option Preimage

pub record AddHoldInvoiceParams : Type 0 where
  pub payment_hash : PaymentHash
  pub amount_msat : Option MilliSatoshi
  pub memo : Option String
  pub expiry_seconds : ℕ
