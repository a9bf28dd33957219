-- ===== src/Lnd/Wire.antt =====
-- src/lnd/client.rs and invoice.rs: how LND's messages are read. The message types of `lnrpc` are
-- generated: they are records of the fields that are read, and the decoding of an enum's number is a
-- parameter, as is the display of numbers and errors. Warnings are dropped.
use Prim.Native.String.{◌++◌ as append, len}
use text.Mathlib.Text.{◌==◌ as str_eq}
use blink_lightning_gateway.Base.{
  ℕ, Option, none, some, List, [], ◌∷◌, String, Result, ok, err, length, ◌==◌, if◌then◌else◌,
}
use blink_lightning_gateway.Primitives.Amount.{
  MilliSatoshi, ℤ, pos, negsuc, try_from, round_up_to_sat_wrapping,
}
use blink_lightning_gateway.Primitives.Hex.{
  PaymentHash, Preimage, Pubkey, HexCodec, ArrayError, hash_from_str, preimage_from_str,
  pubkey_from_str,
}
use blink_lightning_gateway.Payment.Event.{FailureReason, timeout, insufficient_balance, other, Hop}
use blink_lightning_gateway.Lnd.Types.{
  LndError, invalid_response, SendPaymentStatus, in_flight, succeeded, failed, SendPaymentResponse,
  LndInvoiceState, InvoiceUpdate,
}

pub data PaymentStatus : Type 0 where
  unknown initiated flying done lost : PaymentStatus

pub data PaymentFailureReason : Type 0 where
  reason_none reason_timeout reason_no_route reason_error : PaymentFailureReason
  reason_incorrect_payment_details reason_insufficient_balance reason_canceled :
      PaymentFailureReason

pub record LndHop : Type 0 where
  pub pub_key : String
  pub chan_id : ℕ
  pub fee_msat : ℤ
  pub amt_to_forward_msat : ℤ
  pub expiry : ℕ

-- `lnrpc::Payment`; an HTLC attempt is its route, if it has one.
pub record LndPayment : Type 0 where
  pub payment_hash : String
  pub payment_preimage : String
  pub status : ℤ
  pub fee_msat : ℤ
  pub htlcs : List (Option (List LndHop))
  pub failure_reason : ℤ

-- `lnrpc::Invoice`
pub record LndInvoice : Type 0 where
  pub r_hash : List ℕ
  pub state : ℤ
  pub amt_paid_msat : ℤ
  pub r_preimage : List ℕ

-- What the generated code and the formatting give.
pub record Lnrpc (hex : HexCodec) : Type 0 where
  pub payment_status : ℤ → Option PaymentStatus
  pub failure_reason : ℤ → Option PaymentFailureReason
  pub invoice_state : ℤ → Option LndInvoiceState
  pub show : ℤ → String
  pub show_size : ℕ → String
  pub show_hash_error : ArrayError hex.FromHexError → String

infixl 5 ◌>>=◌
abbrev ◌>>=◌ {ℓ κ} :
    {A : Type ℓ} {B : Type κ} → Result LndError A → (A → Result LndError B) → Result LndError B
ok a >>= f = f a
err e >>= f = err e

-- `MilliSatoshi::try_from(..).unwrap_or(ZERO).round_up_to_sat()`
unfoldable pub fee_or_zero : ℤ → MilliSatoshi
fee_or_zero z = elim (try_from z) [
  | ok m ↦ round_up_to_sat_wrapping m
  | err e ↦ round_up_to_sat_wrapping 0
]

module _ {hex : HexCodec} (rpc : Lnrpc hex) where
  unfoldable pub map_payment_status : ℤ → Result LndError SendPaymentStatus
  map_payment_status value = elim (rpc.payment_status value) [
    | none ↦ err (invalid_response (append "unknown PaymentStatus: " (rpc.show value)))
    | some initiated ↦ ok in_flight
    | some flying ↦ ok in_flight
    | some done ↦ ok succeeded
    | some lost ↦ ok failed
    | some unknown ↦ err (invalid_response "LND returned PaymentStatus::Unknown")
  ]

  abbrev typed : PaymentFailureReason → FailureReason
  typed reason_none = other "none"
  typed reason_timeout = timeout
  typed reason_no_route = FailureReason.no_route
  typed reason_insufficient_balance = insufficient_balance
  typed reason_incorrect_payment_details = FailureReason.incorrect_payment_details
  typed reason_error = other "LND failure_reason: error"
  typed reason_canceled = other "canceled"

  unfoldable pub map_failure_reason_to_typed : ℤ → FailureReason
  map_failure_reason_to_typed value = elim (rpc.failure_reason value) [
    | none ↦ typed reason_error
    | some r ↦ typed r
  ]

  -- `parse_preimage` of client.rs, on a text.
  unfoldable pub parse_preimage : String → Option Preimage
  parse_preimage s =
      if str_eq s ""
      then none
      else if len s == 64
      then elim (preimage_from_str hex s) [ ok p ↦ some p | err e ↦ none ]
      else none

  abbrev hop_of : LndHop → Pubkey → Hop
  hop_of hop pub_key = record {
    pub_key = pub_key;
    channel_id = hop.chan_id;
    fee_msat = fee_or_zero hop.fee_msat;
    amt_msat = fee_or_zero hop.amt_to_forward_msat;
    expiry = hop.expiry;
  }

  -- The `filter_map` over the hops of a route.
  unfoldable pub readable_hops : List LndHop → List Hop
  readable_hops [] = []
  readable_hops (hop ∷ hops) =
      let rest = readable_hops hops in
      elim (pubkey_from_str hex hop.pub_key) [ ok k ↦ hop_of hop k ∷ rest | err e ↦ rest ]

  unfoldable pub first_route_hops : List (Option (List LndHop)) → List Hop
  first_route_hops [] = []
  first_route_hops (none ∷ htlcs) = first_route_hops htlcs
  first_route_hops (some hops ∷ htlcs) = readable_hops hops

  abbrev reason_if_failed : SendPaymentStatus → ℤ → Option FailureReason
  reason_if_failed failed value = some (map_failure_reason_to_typed value)
  reason_if_failed _ value = none

  abbrev parse_hex_payment_hash : String → Result LndError PaymentHash
  parse_hex_payment_hash s = elim (hash_from_str hex s) [
    | ok h ↦ ok h
    | err e ↦ err (invalid_response (append "payment.payment_hash: " (rpc.show_hash_error e)))
  ]

  unfoldable pub lnd_payment_to_send_response : LndPayment → Result LndError SendPaymentResponse
  lnd_payment_to_send_response p = do
    payment_hash ← parse_hex_payment_hash p.payment_hash
    status ← map_payment_status p.status
    ok (record {
      payment_hash = payment_hash;
      payment_preimage = parse_preimage p.payment_preimage;
      status = status;
      fees_paid_msat = fee_or_zero p.fee_msat;
      route_hops = first_route_hops p.htlcs;
      failure_reason = reason_if_failed status p.failure_reason;
    })

  -- `parse_preimage` of invoice.rs, on bytes: empty and wrong lengths are `None`.
  abbrev pub preimage_of_bytes : List ℕ → Option Preimage
  preimage_of_bytes bs = if length bs == 32 then some (record { bytes = bs }) else none

  abbrev paid_amount : ℤ → Result LndError MilliSatoshi
  paid_amount (pos n) = ok n
  paid_amount (negsuc n) =
      err (invalid_response (append "amt_paid_msat negative: " (rpc.show (negsuc n))))

  unfoldable pub map_invoice_state : ℤ → Result LndError LndInvoiceState
  map_invoice_state value = elim (rpc.invoice_state value) [
    | none ↦ err (invalid_response (append "unknown InvoiceState: " (rpc.show value)))
    | some s ↦ ok s
  ]

  abbrev hash_of_bytes : List ℕ → Result LndError PaymentHash
  hash_of_bytes bs =
      if length bs == 32
      then ok (record { bytes = bs })
      else err (
          invalid_response
            (append "r_hash length " (append (rpc.show_size (length bs)) ", expected 32")))

  unfoldable pub lnd_invoice_to_update : LndInvoice → Result LndError InvoiceUpdate
  lnd_invoice_to_update i = do
    payment_hash ← hash_of_bytes i.r_hash
    state ← map_invoice_state i.state
    amt_paid_msat ← paid_amount i.amt_paid_msat
    ok (record {
      payment_hash = payment_hash;
      state = state;
      amt_paid_msat = amt_paid_msat;
      payment_preimage = preimage_of_bytes i.r_preimage;
    })
