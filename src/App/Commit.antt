-- ===== src/App/Commit.antt =====
-- src/app/commit_invoice.rs, commit_payment.rs and the helpers of helpers.rs: an entity's command and
-- the event that announces it, written in one transaction. Tracing is dropped.
use Prim.Native.String.{◌++◌ as append}
use blink_lightning_gateway.Base.{Bool, true, false, Option, none, some, List, map, String}
use blink_lightning_gateway.EventLog.{Idempotent, executed, already_applied}
use blink_lightning_gateway.Json.{Json, number, string, array, object, end, field, optional, items}
use blink_lightning_gateway.Primitives.Amount.{MilliSatoshi, ℤ, whole_sat, as_i64}
use blink_lightning_gateway.Primitives.Hex.{
  PaymentHash, Preimage, hash_to_hex, preimage_to_hex, pubkey_to_hex,
}
use blink_lightning_gateway.Primitives.Types.{WalletId, Timestamp}
use blink_lightning_gateway.Invoice.Event.{
  CancelReason, cancel_reason_as_str, InvoiceFindError, invoice_modify,
}
use blink_lightning_gateway.Invoice.Entity as Invoices
use blink_lightning_gateway.Invoice.Entity.{Invoice, cancel}
use blink_lightning_gateway.Payment.Event.{
  FailureReason, detail_str, Hop, PaymentFindError, PaymentModifyError, payment_modify,
  concurrent_modification, timeout, other,
}
use blink_lightning_gateway.Payment.Entity as Payments
use blink_lightning_gateway.Payment.Entity.{Payment, fail}
use blink_lightning_gateway.Outbox.Event.{
  NewOutboxEvent, for_lightning_invoice_settled, for_lightning_invoice_canceled,
  for_lightning_payment_completed, for_lightning_payment_failed,
}
use blink_lightning_gateway.Lnd.Types.{
  LndError, lnd_error_text, payment_timeout, no_route, incorrect_payment_details,
}
use blink_lightning_gateway.App.Error.{invoice, payment, outbox, db, wallet_ownership, panicked}
use blink_lightning_gateway.App.World.{
  Crates, World, Task, clock_read, ownership_checked, begun, committed, payment_updated,
  invoice_updated, published, pure, stop, ask, write, or_fail, ◌>>=◌, ◌>>◌,
}
use blink_lightning_gateway.Wallet.Ownership.{CallerAuth}

unfoldable pub is_concurrent_modification : PaymentModifyError → Bool
is_concurrent_modification concurrent_modification = true
is_concurrent_modification _ = false

unfoldable pub is_payment_not_found : PaymentFindError → Bool
is_payment_not_found PaymentFindError.not_found = true
is_payment_not_found _ = false

unfoldable pub is_invoice_not_found : InvoiceFindError → Bool
is_invoice_not_found InvoiceFindError.not_found = true
is_invoice_not_found _ = false

unfoldable pub lnd_error_to_failure_reason : LndError → FailureReason
lnd_error_to_failure_reason payment_timeout = timeout
lnd_error_to_failure_reason no_route = FailureReason.no_route
lnd_error_to_failure_reason incorrect_payment_details = FailureReason.incorrect_payment_details
lnd_error_to_failure_reason e = other (append "LND error: " (lnd_error_text e))

-- `match command? { Executed => {}, AlreadyApplied => return .. }`
abbrev pub on_executed : {c : Crates} {A : Type 0} → Idempotent → Task c A → Task c A → Task c A
on_executed executed go back = go
on_executed already_applied go back = back

module _ {c : Crates} (w : World c) where
  open w use {now, check, begin, commit, update_invoice, update_payment, publish}

  abbrev pub hex_of : PaymentHash → String
  hex_of h = hash_to_hex c.hex h

  abbrev hop_to_json : Hop → Json
  hop_to_json h = object (
      field "pub_key" (string (pubkey_to_hex c.hex h.pub_key)) (
        field "channel_id" (number h.channel_id)
          (field "fee_msat" (number h.fee_msat) (field "amt_msat" (number h.amt_msat) end))))

  unfoldable pub hops_to_json : List Hop → List Json
  hops_to_json route_hops = map hop_to_json route_hops

  abbrev pub clock : Task c Timestamp
  clock = ask now (λ _. clock_read)

  unfoldable pub check_wallet_ownership : CallerAuth → WalletId → Task c (Unit {0})
  check_wallet_ownership caller wallet_id =
      ask (λ tr. check tr caller wallet_id) (λ _. ownership_checked wallet_id)
      >>= or_fail wallet_ownership

  -- `self.pool.begin().await?`, `tx.commit().await?` and the writes between them.
  abbrev pub begin_tx : Task c (Unit {0})
  begin_tx = write begin begun >>= or_fail db

  abbrev pub commit_tx : Task c (Unit {0})
  commit_tx = write commit committed >>= or_fail db

  abbrev pub update_invoice_in_op : Invoice c.invoice_log → Task c (Unit {0})
  update_invoice_in_op inv =
      write (λ tr. update_invoice tr inv) (invoice_updated inv)
      >>= or_fail (λ e. invoice (invoice_modify e))

  abbrev pub update_payment_in_op : Payment c.payment_log → Task c (Unit {0})
  update_payment_in_op p =
      write (λ tr. update_payment tr p) (payment_updated p)
      >>= or_fail (λ e. payment (payment_modify e))

  abbrev pub publish_in_tx : NewOutboxEvent → Task c (Unit {0})
  publish_in_tx e = write (λ tr. publish tr e) (published e) >>= or_fail outbox

  -- `held_amount_msat.expect(..)`
  abbrev expect_held : Option MilliSatoshi → Task c MilliSatoshi
  expect_held (some m) = pure m
  expect_held none = stop (panicked "settle requires Held; mark_held sets held_amount_msat")

  unfoldable pub commit_settle :
      Invoice c.invoice_log → PaymentHash → MilliSatoshi → Task c (Unit {0})
  commit_settle inv payment_hash amt_paid_msat = do
    t ← clock
    let settled = Invoices.settle c.invoice_log t inv
    outcome ← or_fail invoice settled.0
    on_executed outcome
        (do
          held_amount_msat ← expect_held settled.1.held_amount_msat
          begin_tx
          update_invoice_in_op settled.1
          event_time ← clock
          publish_in_tx (
              for_lightning_invoice_settled (hex_of payment_hash) (hex_of payment_hash)
                (as_i64 (whole_sat amt_paid_msat)) event_time
                (object (
                  field "wallet_id" (string inv.wallet_id) (
                    field "amt_paid_msat" (number amt_paid_msat) (
                      field "held_amount_msat" (number held_amount_msat)
                        (field "external_id" (string inv.external_id) end))))))
          commit_tx)
        (pure tt)

  unfoldable pub commit_cancel :
      Invoice c.invoice_log → PaymentHash → CancelReason → MilliSatoshi → Task c (Unit {0})
  commit_cancel inv payment_hash reason amt_paid_msat = do
    t ← clock
    let canceled = cancel c.invoice_log reason t inv
    outcome ← or_fail invoice canceled.0
    on_executed outcome
        (do
          begin_tx
          update_invoice_in_op canceled.1
          event_time ← clock
          publish_in_tx (
              for_lightning_invoice_canceled (hex_of payment_hash) (hex_of payment_hash)
                (as_i64 (whole_sat amt_paid_msat)) event_time
                (object (
                  field "reason" (string (cancel_reason_as_str reason)) (
                    field "wallet_id" (string inv.wallet_id) (
                      field "amt_paid_msat" (number amt_paid_msat)
                        (field "held_amount_msat" (optional canceled.1.held_amount_msat) end))))))
          commit_tx)
        (pure tt)

  unfoldable pub commit_completed :
      Payment c.payment_log
      → PaymentHash
      → ℤ
      → Preimage
      → MilliSatoshi
      → List Hop
      → Timestamp
      → Task c (Payment c.payment_log)
  commit_completed p payment_hash amount_sat preimage fees_paid_msat route_hops t = do
    let settled = Payments.settle c.payment_log preimage fees_paid_msat route_hops t p
    outcome ← or_fail payment settled.0
    on_executed outcome
        (do
          begin_tx
          update_payment_in_op settled.1
          event_time ← clock
          publish_in_tx (
              for_lightning_payment_completed (hex_of payment_hash) (hex_of payment_hash) amount_sat
                event_time
                (object (
                  field "payment_preimage" (string (preimage_to_hex c.hex preimage)) (
                    field "fees_paid_msat" (number fees_paid_msat)
                      (field "route_hops" (array (items (hops_to_json route_hops))) end)))))
          commit_tx
          pure settled.1)
        (pure settled.1)

  unfoldable pub commit_failed :
      Payment c.payment_log
      → PaymentHash
      → ℤ
      → FailureReason
      → Timestamp
      → Task c (Payment c.payment_log)
  commit_failed p payment_hash amount_sat failure_reason t = do
    let failed = fail c.payment_log failure_reason t p
    outcome ← or_fail payment failed.0
    on_executed outcome
        (do
          begin_tx
          update_payment_in_op failed.1
          event_time ← clock
          publish_in_tx (
              for_lightning_payment_failed (hex_of payment_hash) (hex_of payment_hash) amount_sat
                event_time
                (object (field "failure_reason" (string (detail_str failure_reason)) end)))
          commit_tx
          pure failed.1)
        (pure failed.1)
