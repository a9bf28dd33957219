-- ===== src/Lnd/Client.antt =====
-- src/lnd/client.rs: the calls that the use cases make of LND. A connected client has the remote calls,
-- which are parameters; a boot stub has none. Of a stream only its first message is read. The messages
-- that are sent are records of the fields that are set.
use Prim.Native.String.{◌++◌ as append}
use blink_lightning_gateway.Base.{
  ℕ, ◌-◌, ◌^◌, Bool, true, false, Option, none, some, List, String, Result, ok, err, ltb, leb,
  if◌then◌else◌,
}
use blink_lightning_gateway.Primitives.Amount.{
  MilliSatoshi, ℤ, pos, negsuc, i64_max, MilliSatoshiError, try_from,
}
use blink_lightning_gateway.Primitives.Hex.{PaymentHash, Preimage, HexCodec, hash_eq, hash_to_hex}
use blink_lightning_gateway.Primitives.Types.{BoltInvoice}
use blink_lightning_gateway.Lnd.Types.{
  LndError, rpc, stub, invalid_response, payment_not_found, payment_timeout, no_route,
  incorrect_payment_details, SendPaymentParams, SendPaymentResponse, InvoiceUpdate,
  AddHoldInvoiceParams,
}
use blink_lightning_gateway.Lnd.Wire.{
  PaymentFailureReason, reason_none, reason_timeout, reason_no_route, reason_error,
  reason_incorrect_payment_details, LndPayment, LndInvoice, Lnrpc, lnd_payment_to_send_response,
  lnd_invoice_to_update,
}

-- `tonic::Status`, as far as the client looks into it.
pub record RpcStatus : Type 0 where
  pub is_not_found : Bool
  pub text : String

pub record AddHoldInvoiceRequest : Type 0 where
  pub hash : List ℕ
  pub value_msat : ℤ
  pub expiry : ℕ
  pub memo : String

pub record SendPaymentRequest : Type 0 where
  pub payment_request : String
  pub fee_limit_msat : ℤ
  pub timeout_seconds : ℤ

pub record RouteFeeResponse : Type 0 where
  pub failure_reason : ℤ
  pub routing_fee_msat : ℤ
  pub time_lock_delay : ℤ

pub record FeeProbeResponse : Type 0 where
  pub fee_msat : MilliSatoshi
  pub expiry_seconds : ℕ

-- The remote calls. A stream is the result of opening it, and then of reading its first message.
pub record Remote : Type 0 where
  pub add_hold_invoice : AddHoldInvoiceRequest → Result RpcStatus String
  pub settle_invoice : List ℕ → Result {0, 0} RpcStatus Unit
  pub cancel_invoice : List ℕ → Result {0, 0} RpcStatus Unit
  pub lookup_invoice : List ℕ → Result RpcStatus LndInvoice
  pub track_payment_v2 : List ℕ → Result RpcStatus (Result RpcStatus (Option LndPayment))
  pub send_payment_v2 : SendPaymentRequest → Result RpcStatus (Result RpcStatus (Option LndPayment))
  pub estimate_route_fee : String → Result RpcStatus RouteFeeResponse

-- `LndClient`, by its field `inner`.
abbrev pub LndClient : Type 0
LndClient = Option Remote

unfoldable pub is_connected : LndClient → Bool
is_connected none = false
is_connected (some remote) = true

unfoldable pub require_inner : LndClient → Result LndError Remote
require_inner none = err stub
require_inner (some remote) = ok remote

infixl 5 ◌>>=◌
abbrev ◌>>=◌ {ℓ κ} :
    {A : Type ℓ} {B : Type κ} → Result LndError A → (A → Result LndError B) → Result LndError B
ok a >>= f = f a
err e >>= f = err e

-- `?` on the result of a remote call
abbrev remote_call {ℓ} :
    {A : Type ℓ} → (RpcStatus → LndError) → Result RpcStatus A → Result LndError A
remote_call map_err (ok a) = ok a
remote_call map_err (err s) = err (map_err s)

abbrev from_status : RpcStatus → LndError
from_status s = rpc s.text

unfoldable pub map_track_payment_status : RpcStatus → LndError
map_track_payment_status s = if s.is_not_found then payment_not_found else rpc s.text

-- `u64::try_into::<i64>()`, or the given error
abbrev to_i64 : MilliSatoshi → String → Result LndError ℤ
to_i64 m message = if leb m i64_max then ok (pos m) else err (invalid_response message)

-- `u32 as i32`, which wraps.
unfoldable pub as_i32 : ℕ → ℤ
as_i32 n = if ltb n (2 ^ 31) then pos n else negsuc (2 ^ 32 - 1 - n)

-- `u32::try_from(i64).unwrap_or(0)`
unfoldable pub u32_or_zero : ℤ → ℕ
u32_or_zero (pos n) = if ltb n (2 ^ 32) then n else 0
u32_or_zero (negsuc n) = 0

abbrev first_message : String → Option LndPayment → Result LndError LndPayment
first_message message none = err (invalid_response message)
first_message message (some p) = ok p

abbrev memo_or_default : Option String → String
memo_or_default none = ""
memo_or_default (some s) = s

abbrev amount_or_zero : Option MilliSatoshi → Result LndError ℤ
amount_or_zero none = ok (pos 0)
amount_or_zero (some a) = to_i64 a "amount_msat exceeds i64::MAX"

module _ {hex : HexCodec} (lnrpc : Lnrpc hex) where
  unfoldable pub add_hold_invoice : LndClient → AddHoldInvoiceParams → Result LndError BoltInvoice
  add_hold_invoice client params = do
    remote ← require_inner client
    value_msat ← amount_or_zero params.amount_msat
    remote_call from_status (
        remote.add_hold_invoice (record {
          hash = params.payment_hash.bytes;
          value_msat = value_msat;
          expiry = params.expiry_seconds;
          memo = memo_or_default params.memo;
        }))

  unfoldable pub settle_invoice : LndClient → Preimage → Result {0, 0} LndError Unit
  settle_invoice client preimage = do
    remote ← require_inner client
    remote_call from_status (remote.settle_invoice preimage.bytes)

  unfoldable pub cancel_invoice : LndClient → PaymentHash → Result {0, 0} LndError Unit
  cancel_invoice client payment_hash = do
    remote ← require_inner client
    remote_call from_status (remote.cancel_invoice payment_hash.bytes)

  -- What LND says of another hash is refused.
  abbrev pub for_hash {ℓ} :
      {A : Type ℓ} → String → PaymentHash → (A → PaymentHash) → A → Result LndError A
  for_hash call requested hash_of answer =
      if hash_eq (hash_of answer) requested
      then ok answer
      else err (
          invalid_response (
            append call (
              append (hash_to_hex hex requested)
                (append ", LND returned " (hash_to_hex hex (hash_of answer))))))

  unfoldable pub lookup_invoice : LndClient → PaymentHash → Result LndError InvoiceUpdate
  lookup_invoice client payment_hash = do
    remote ← require_inner client
    invoice ← remote_call from_status (remote.lookup_invoice payment_hash.bytes)
    update ← lnd_invoice_to_update lnrpc invoice
    for_hash "lookup_invoice: requested " payment_hash (λ u. u.payment_hash) update

  unfoldable pub lookup_payment : LndClient → PaymentHash → Result LndError SendPaymentResponse
  lookup_payment client payment_hash = do
    remote ← require_inner client
    stream ← remote_call map_track_payment_status (remote.track_payment_v2 payment_hash.bytes)
    message ← remote_call map_track_payment_status stream
    payment ← first_message "TrackPaymentV2 stream closed without yielding a Payment" message
    resp ← lnd_payment_to_send_response lnrpc payment
    for_hash "lookup_payment: requested " payment_hash (λ r. r.payment_hash) resp

  unfoldable pub send_payment : LndClient → SendPaymentParams → Result LndError SendPaymentResponse
  send_payment client params = do
    remote ← require_inner client
    fee_limit_msat ← to_i64 params.max_fee_msat "max_fee_msat exceeds i64::MAX"
    stream ← remote_call from_status (
        remote.send_payment_v2 (record {
          payment_request = params.bolt_invoice;
          fee_limit_msat = fee_limit_msat;
          timeout_seconds = as_i32 params.timeout_seconds;
        }))
    message ← remote_call from_status stream
    payment ← first_message "SendPaymentV2 stream closed without yielding a Payment" message
    lnd_payment_to_send_response lnrpc payment

  -- The printing of a reason by `{:?}` and of an amount's error are parameters.
  module _ (debug_reason : PaymentFailureReason → String)
      (show_error : MilliSatoshiError → String) where
    abbrev lnd_error_of : PaymentFailureReason → LndError
    lnd_error_of reason_timeout = payment_timeout
    lnd_error_of reason_no_route = no_route
    lnd_error_of reason_incorrect_payment_details = incorrect_payment_details
    lnd_error_of other = invalid_response (append "LND failure reason: " (debug_reason other))

    unfoldable pub map_failure_reason_to_lnd_error : ℤ → LndError
    map_failure_reason_to_lnd_error value = elim (lnrpc.failure_reason value) [
      | none ↦ lnd_error_of reason_error
      | some r ↦ lnd_error_of r
    ]

    abbrev fee_of : RouteFeeResponse → Result LndError FeeProbeResponse
    fee_of resp = elim (try_from resp.routing_fee_msat) [
      | err e ↦
          err (invalid_response (append "estimate_route_fee.routing_fee_msat: " (show_error e)))
      | ok fee ↦ ok (record { fee_msat = fee; expiry_seconds = u32_or_zero resp.time_lock_delay })
    ]

    -- The number of `FailureReasonNone` is the one that is decoded to it.
    unfoldable pub fee_probe : LndClient → BoltInvoice → Result LndError FeeProbeResponse
    fee_probe client bolt_invoice = do
      remote ← require_inner client
      resp ← remote_call from_status (remote.estimate_route_fee bolt_invoice)
      elim (lnrpc.failure_reason resp.failure_reason) [
        | some reason_none ↦ fee_of resp
        | _ ↦ err (map_failure_reason_to_lnd_error resp.failure_reason)
      ]
