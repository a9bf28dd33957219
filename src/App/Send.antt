-- ===== src/App/Send.antt =====
-- src/app/send_payment.rs: an outgoing payment. Tracing is dropped; `amount + max_fee` and the
-- rounding wrap, as in a release build.
use Prim.Native.String.{◌++◌ as append}
use blink_lightning_gateway.Base.{
  ℕ, ◌+◌, ◌%◌, ◌^◌, Option, none, some, List, String, ok, err, ok_or, if◌then◌else◌,
}
use blink_lightning_gateway.Json.{number, string, object, end, field}
use blink_lightning_gateway.Fees.Policy.{max_for}
use blink_lightning_gateway.Primitives.Amount.{
  MilliSatoshi, ℤ, whole_sat, as_i64, round_up_to_sat_wrapping,
}
use blink_lightning_gateway.Primitives.Hex.{PaymentHash, Preimage, hash_eq}
use blink_lightning_gateway.Primitives.Types.{WalletId, BoltInvoice, Timestamp}
use blink_lightning_gateway.Invoice.Event.{invoice_find}
use blink_lightning_gateway.Payment.Event.{
  FailureReason, insufficient_balance, other, Hop, amount_required, payment_modify, payment_find,
}
use blink_lightning_gateway.Payment.Entity.{
  Payment, NewPayment, DecodedInvoice, try_new, mark_pending,
}
use blink_lightning_gateway.Outbox.Event.{NewOutboxEvent, for_lightning_payment_initiated}
use blink_lightning_gateway.Lnd.Types.{
  invalid_response, SendPaymentResponse, SendPaymentParams, in_flight, succeeded, failed,
}
use blink_lightning_gateway.Symphony.Client.{
  SymphonyAuthorizeRequest, approved, declined, SymphonyError, symphony_error_text,
  is_authorize_unavailable, DeclineReason, insufficient_funds, wallet_liability,
}
use blink_lightning_gateway.App.Error.{AppError, payment, invoice, lnd}
use blink_lightning_gateway.App.World.{
  Crates, World, Task, invoice_read, payment_read, payment_saved, hold_asked, send_asked, pure,
  fail_with, ask, peek, write, or_fail, ◌>>=◌, ◌>>◌,
}
use blink_lightning_gateway.App.Commit.{
  on_executed, hex_of, clock, begin_tx, commit_tx, publish_in_tx, check_wallet_ownership,
  commit_completed, commit_failed, lnd_error_to_failure_reason, is_concurrent_modification,
}
use blink_lightning_gateway.App.Requests.{SendPaymentRequest, decode_bolt11}
use blink_lightning_gateway.App.Intraledger.{create_payment_in_op, send_intraledger_payment}

-- The worst case of the payment in whole satoshis, which the hold covers.
unfoldable pub hold_sat : MilliSatoshi → MilliSatoshi → ℕ
hold_sat amount_msat max_fee_msat =
    whole_sat (round_up_to_sat_wrapping ((amount_msat + max_fee_msat) % 2 ^ 64))

abbrev pub no_preimage : AppError
no_preimage = lnd (invalid_response "Succeeded status but payment_preimage missing/malformed")

abbrev pub or_reason : Option FailureReason → String → FailureReason
or_reason none text = other text
or_reason (some r) text = r

module _ {c : Crates} (w : World c) where
  unfoldable pub authorize_failure_reason : SymphonyError → FailureReason
  authorize_failure_reason e =
      if is_authorize_unavailable e
      then other (append "Symphony service unavailable: " (symphony_error_text c.debug_reason e))
      else other (append "Symphony error: " (symphony_error_text c.debug_reason e))

  unfoldable pub declined_reason : Option DeclineReason → FailureReason
  declined_reason none = other "Symphony declined: no reason"
  declined_reason (some insufficient_funds) = insufficient_balance
  declined_reason (some r) = other (append "Symphony declined: " (c.debug_reason r))

  unfoldable pub transition_to_pending :
      Payment c.payment_log → PaymentHash → Timestamp → Task c (Payment c.payment_log)
  transition_to_pending p payment_hash t = do
    let pending = mark_pending c.payment_log t p
    outcome ← or_fail payment pending.0
    on_executed outcome
        (do
          saved ← write (λ tr. w.update_payment tr pending.1) (payment_saved pending.1)
          elim saved [
            | ok _ ↦ pure pending.1
            | err e ↦
                if is_concurrent_modification e
                then (do
                  found ←
                      ask (λ tr. w.find_payment tr payment_hash) (λ _. payment_read payment_hash)
                  or_fail (λ x. payment (payment_find x)) found)
                else fail_with (payment (payment_modify e))
          ])
        (pure pending.1)

  unfoldable pub settle_inline :
      Payment c.payment_log
      → PaymentHash
      → ℤ
      → Preimage
      → MilliSatoshi
      → List Hop
      → Timestamp
      → Task c (Payment c.payment_log)
  settle_inline p payment_hash amount_sat preimage fees_paid_msat route_hops t = do
    let pending = mark_pending c.payment_log t p
    or_fail payment pending.0
    commit_completed w pending.1 payment_hash amount_sat preimage fees_paid_msat route_hops t

  unfoldable pub fail_inline :
      Payment c.payment_log
      → PaymentHash
      → ℤ
      → FailureReason
      → Timestamp
      → Task c (Payment c.payment_log)
  fail_inline p payment_hash amount_sat failure_reason t = do
    let pending = mark_pending c.payment_log t p
    or_fail payment pending.0
    commit_failed w pending.1 payment_hash amount_sat failure_reason t

  abbrev mismatch : PaymentHash → PaymentHash → FailureReason
  mismatch expected got = other (
      append "LND payment_hash mismatch: expected "
        (append (hex_of w expected) (append ", got " (hex_of w got))))

  -- Steps 7 and 8: the echo of the hash, and the dispatch on the status of the response.
  unfoldable pub dispatch :
      Payment c.payment_log
      → PaymentHash
      → ℤ
      → Timestamp
      → SendPaymentResponse
      → Task c (Payment c.payment_log)
  dispatch p payment_hash amount_sat t resp =
      if hash_eq resp.payment_hash payment_hash
      then elim resp.status [
        | in_flight ↦ transition_to_pending p payment_hash t
        | succeeded ↦ elim resp.payment_preimage [
          | none ↦ fail_with no_preimage
          | some preimage ↦
              settle_inline p payment_hash amount_sat preimage resp.fees_paid_msat resp.route_hops t
        ]
        | failed ↦
            fail_inline p payment_hash amount_sat
              (or_reason resp.failure_reason "LND returned Failed with no reason") t
      ]
      else fail_inline p payment_hash amount_sat (mismatch payment_hash resp.payment_hash) t

  -- Step 6, once the hold is there.
  unfoldable pub send_over_lnd :
      Payment c.payment_log
      → PaymentHash
      → ℤ
      → SendPaymentParams
      → Timestamp
      → Task c (Payment c.payment_log)
  send_over_lnd p payment_hash amount_sat params t = do
    answer ← ask (λ tr. w.send_payment tr params) (send_asked params)
    elim answer [
      | ok resp ↦ dispatch p payment_hash amount_sat t resp
      | err e ↦ fail_inline p payment_hash amount_sat (lnd_error_to_failure_reason e) t
    ]

  -- The handshake before LND: an error and a refusal fail the payment, and LND is not called.
  unfoldable pub authorize_then_send :
      Payment c.payment_log
      → PaymentHash
      → ℤ
      → SymphonyAuthorizeRequest
      → SendPaymentParams
      → Timestamp
      → Task c (Payment c.payment_log)
  authorize_then_send p payment_hash amount_sat hold params t = do
    answer ← ask (λ tr. w.authorize_spend tr hold) (hold_asked hold)
    elim answer [
      | err e ↦ fail_inline p payment_hash amount_sat (authorize_failure_reason e) t
      | ok resp ↦ elim resp.status [
        | declined ↦ fail_inline p payment_hash amount_sat (declined_reason resp.decline_reason) t
        | approved ↦ send_over_lnd p payment_hash amount_sat params t
      ]
    ]

  abbrev pub hold_request :
      PaymentHash → WalletId → MilliSatoshi → MilliSatoshi → SymphonyAuthorizeRequest
  hold_request payment_hash wallet_id amount_msat max_fee_msat = record {
    correlation_id = hex_of w payment_hash;
    account = record { kind = wallet_liability; id = wallet_id };
    sat_amount = hold_sat amount_msat max_fee_msat;
    idempotency_key = hex_of w payment_hash;
    gateway_metadata = object end;
  }

  abbrev pub build_initiated_outbox :
      PaymentHash → WalletId → ℤ → MilliSatoshi → String → BoltInvoice → Timestamp → NewOutboxEvent
  build_initiated_outbox payment_hash wallet_id amount_sat max_fee_msat destination bolt_invoice t =
      for_lightning_payment_initiated (hex_of w payment_hash) (hex_of w payment_hash) amount_sat t (
        object (
          field "max_fee_msat" (number max_fee_msat) (
            field "destination" (string destination) (
              field "wallet_id" (string wallet_id)
                (field "bolt_invoice" (string bolt_invoice) end)))))

  -- The intent row and its event, in one transaction.
  unfoldable pub persist_intent :
      NewPayment → (Timestamp → NewOutboxEvent) → Task c (Payment c.payment_log)
  persist_intent new_payment event = do
    begin_tx w
    p ← create_payment_in_op w new_payment
    event_time ← clock w
    publish_in_tx w (event event_time)
    commit_tx w
    pure p

  -- The path over LND from the validated payment on.
  unfoldable pub send_new :
      NewPayment
      → DecodedInvoice
      → WalletId
      → MilliSatoshi
      → Timestamp
      → Task c (Payment c.payment_log)
  send_new new_payment decoded wallet_id amount_msat t = do
    let max_fee_msat = max_for amount_msat
    let amount_sat = as_i64 (whole_sat amount_msat)
    p ← persist_intent new_payment (
        build_initiated_outbox decoded.payment_hash wallet_id amount_sat max_fee_msat
          decoded.destination decoded.bolt_invoice)
    authorize_then_send p decoded.payment_hash amount_sat
        (hold_request decoded.payment_hash wallet_id amount_msat max_fee_msat)
        (record {
          bolt_invoice = decoded.bolt_invoice;
          max_fee_msat = max_fee_msat;
          timeout_seconds = 60;
        })
        t

  -- The path over LND, for an invoice that is not of this gateway.
  unfoldable pub send_external :
      SendPaymentRequest → DecodedInvoice → Timestamp → Task c (Payment c.payment_log)
  send_external request decoded t = do
    amount_msat ← or_fail payment (ok_or decoded.amount_msat amount_required)
    id ← peek w.new_payment_id
    new_payment ←
        or_fail payment (try_new id decoded request.wallet_id none (max_for amount_msat) t)
    send_new new_payment decoded request.wallet_id amount_msat t

  -- Where a decoded invoice is paid: an invoice of this gateway in the ledger, any other over LND.
  unfoldable pub route :
      SendPaymentRequest → Timestamp → DecodedInvoice → Task c (Payment c.payment_log)
  route request t decoded = do
    answer ←
        ask (λ tr. w.maybe_find_invoice tr decoded.payment_hash)
          (λ _. invoice_read decoded.payment_hash)
    found ← or_fail (λ e. invoice (invoice_find e)) answer
    elim found [
      | some recipient_invoice ↦ send_intraledger_payment w request decoded recipient_invoice t
      | none ↦ send_external request decoded t
    ]

  unfoldable pub send_payment : SendPaymentRequest → Task c (Payment c.payment_log)
  send_payment request = do
    t ← clock w
    check_wallet_ownership w request.caller_auth request.wallet_id
    decoded ← decode_bolt11 w request.payment_request
    route request t decoded
