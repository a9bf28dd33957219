-- ===== src/App/Intraledger.antt =====
-- src/app/send_intraledger_payment.rs: a payment to an invoice of this gateway, which moves in the
-- ledger and never over LND.
use text.Mathlib.Text.{◌==◌ as str_eq}
use blink_lightning_gateway.Base.{true, Option, none, some, [], leb, if◌then◌else◌}
use blink_lightning_gateway.Json.{bool, number, string, object, end, field}
use blink_lightning_gateway.Primitives.Amount.{
  MilliSatoshi, whole_sat, as_i64, round_up_to_sat_wrapping,
}
use blink_lightning_gateway.Primitives.Hex.{PaymentHash}
use blink_lightning_gateway.Primitives.Types.{WalletId, Timestamp}
use blink_lightning_gateway.Invoice.Event.{InvoiceState, open_, held}
use blink_lightning_gateway.Invoice.Entity.{Invoice, settle_intraledger}
use blink_lightning_gateway.Payment.Event.{
  self_payment, recipient_invoice_expired, already_paid, recipient_invoice_canceled,
  recipient_invoice_in_progress, from_create_error,
}
use blink_lightning_gateway.Payment.Entity as Payments
use blink_lightning_gateway.Payment.Entity.{
  Payment, NewPayment, DecodedInvoice, try_new_intraledger,
}
use blink_lightning_gateway.Payment.Lifecycle.{fresh}
use blink_lightning_gateway.Outbox.Event.{for_lightning_intraledger_transfer_completed}
use blink_lightning_gateway.Symphony.Client.{
  SymphonyAuthorizeRequest, SymphonyAuthorizeResponse, approved, declined, SymphonyError,
  DeclineReason, wallet_liability,
}
use blink_lightning_gateway.App.Error.{payment, invoice, lnd, symphony}
use blink_lightning_gateway.App.World.{
  Crates, World, Task, payment_created, hold_asked, cancel_asked, pure, fail_with, ask, peek, write,
  or_fail, ◌>>=◌, ◌>>◌,
}
use blink_lightning_gateway.App.Commit.{
  hex_of, clock, begin_tx, commit_tx, update_invoice_in_op, update_payment_in_op, publish_in_tx,
  check_wallet_ownership,
}
use blink_lightning_gateway.App.Requests.{SendPaymentRequest}

module _ {c : Crates} (w : World c) where
  -- `payments.create_in_op`, which returns the payment that the new row stands for.
  abbrev pub create_payment_in_op : NewPayment → Task c (Payment c.payment_log)
  create_payment_in_op n = do
    answer ← write (λ tr. w.create_payment tr n) (payment_created n)
    or_fail (λ e. payment (from_create_error e)) answer
    pure (fresh c.payment_log n)

  -- The guard on the recipient's invoice: only an open one that has not expired is paid.
  unfoldable pub check_recipient :
      InvoiceState → Timestamp → Timestamp → PaymentHash → Task c (Unit {0})
  check_recipient open_ expiry_at t payment_hash =
      if leb expiry_at t then fail_with (payment recipient_invoice_expired) else pure tt
  check_recipient InvoiceState.settled expiry_at t payment_hash =
      fail_with (payment (already_paid (hex_of w payment_hash)))
  check_recipient InvoiceState.canceled expiry_at t payment_hash =
      fail_with (payment recipient_invoice_canceled)
  check_recipient held expiry_at t payment_hash = fail_with (payment recipient_invoice_in_progress)

  abbrev reason_or_none : Option DeclineReason → DeclineReason
  reason_or_none none = DeclineReason.other "no reason"
  reason_or_none (some r) = r

  abbrev pub refuse_declined : SymphonyAuthorizeResponse → Task c (Unit {0})
  refuse_declined resp = elim resp.status [
    | approved ↦ pure tt
    | declined ↦ fail_with (symphony (SymphonyError.declined (reason_or_none resp.decline_reason)))
  ]

  abbrev pub committed_amount : Option MilliSatoshi → Option MilliSatoshi
  committed_amount none = none
  committed_amount (some m) = some (round_up_to_sat_wrapping m)

  -- The one local transaction, after the ledger has moved and LND has dropped the invoice.
  unfoldable pub commit_transfer :
      NewPayment
      → Invoice c.invoice_log
      → PaymentHash
      → WalletId
      → Timestamp
      → Task c (Payment c.payment_log)
  commit_transfer new_payment recipient_invoice payment_hash sender_wallet_id t = do
    begin_tx w
    created ← create_payment_in_op new_payment
    let settled = Payments.settle c.payment_log recipient_invoice.payment_preimage 0 [] t created
    or_fail payment settled.0
    update_payment_in_op w settled.1
    let recipient = settle_intraledger c.invoice_log t recipient_invoice
    or_fail invoice recipient.0
    update_invoice_in_op w recipient.1
    event_time ← clock w
    publish_in_tx w (
        for_lightning_intraledger_transfer_completed (hex_of w payment_hash) (hex_of w payment_hash)
          (as_i64 (whole_sat new_payment.amount_msat)) event_time
          (object (
            field "intraledger" (bool true) (
              field "sender_wallet_id" (string sender_wallet_id) (
                field "recipient_wallet_id" (string recipient_invoice.wallet_id)
                  (field "amount_msat" (number new_payment.amount_msat) end))))))
    commit_tx w
    pure settled.1

  abbrev pub transfer_request :
      PaymentHash → WalletId → WalletId → MilliSatoshi → SymphonyAuthorizeRequest
  transfer_request payment_hash sender recipient amount_msat = record {
    correlation_id = hex_of w payment_hash;
    account = record { kind = wallet_liability; id = sender };
    sat_amount = whole_sat amount_msat;
    idempotency_key = hex_of w payment_hash;
    gateway_metadata =
        object
          (field "intraledger" (bool true) (field "recipient_wallet_id" (string recipient) end));
  }

  unfoldable pub send_intraledger_payment :
      SendPaymentRequest
      → DecodedInvoice
      → Invoice c.invoice_log
      → Timestamp
      → Task c (Payment c.payment_log)
  send_intraledger_payment request decoded recipient_invoice t = do
    let payment_hash = decoded.payment_hash
    check_wallet_ownership w request.caller_auth request.wallet_id
    if str_eq recipient_invoice.wallet_id request.wallet_id
        then fail_with (payment self_payment)
        else pure tt
    check_recipient recipient_invoice.state recipient_invoice.expiry_at t payment_hash
    id ← peek w.new_payment_id
    new_payment ← or_fail payment (
        try_new_intraledger id decoded (committed_amount recipient_invoice.amount_msat)
          request.wallet_id t)
    let hold =
        transfer_request payment_hash request.wallet_id recipient_invoice.wallet_id
          new_payment.amount_msat
    answer ← ask (λ tr. w.authorize_spend tr hold) (hold_asked hold)
    resp ← or_fail symphony answer
    refuse_declined resp
    canceled ← ask (λ tr. w.cancel_invoice tr payment_hash) (cancel_asked payment_hash)
    or_fail lnd canceled
    commit_transfer new_payment recipient_invoice payment_hash request.wallet_id t
