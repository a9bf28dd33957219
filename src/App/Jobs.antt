-- ===== src/App/Jobs.antt =====
-- src/job/invoice_reconciliation_sweep.rs and invoice_subscription_recovery_sweep.rs: one run of the two
-- jobs of invoices, and src/app/fee_probe.rs. The scheduling is the library's. What the query of held
-- invoices answers and the fee probe of LND are arguments.
use blink_lightning_gateway.Base.{List, [], ◌∷◌, String, Result, ok, err}
use blink_lightning_gateway.Primitives.Amount.{MilliSatoshi}
use blink_lightning_gateway.Primitives.Hex.{PaymentHash}
use blink_lightning_gateway.Primitives.Types.{BoltInvoice, InvoiceId, WalletId}
use blink_lightning_gateway.Invoice.Event.{InvoiceError}
use blink_lightning_gateway.Invoice.Repo.{InvoiceRow, list_open_invoices}
use blink_lightning_gateway.Lnd.Types.{LndError}
use blink_lightning_gateway.Lnd.Client.{FeeProbeResponse}
use blink_lightning_gateway.Lnd.Dispatch.{Dispatcher, spawn_listener_for}
use blink_lightning_gateway.Wallet.Ownership.{CallerAuth}
use blink_lightning_gateway.App.Error.{Stop, panicked, invoice, lnd}
use blink_lightning_gateway.App.World.{
  Crates, World, Task, Trace, pure, fail_with, or_fail, ◌>>=◌, ◌>>◌,
}
use blink_lightning_gateway.App.Commit.{check_wallet_ownership}
use blink_lightning_gateway.App.Requests.{decode_bolt11}
use blink_lightning_gateway.App.Receive.{reconcile_held_invoice}

module _ {c : Crates} (w : World c) where
  -- An error of one invoice is logged, and the next one follows; a panic is no error.
  abbrev pub continued :
      Result Stop (Unit {0}) × Trace c → Task c (Unit {0}) → Result Stop (Unit {0}) × Trace c
  continued (err (panicked p), tr) next = (err (panicked p), tr)
  continued (_, tr) next = next tr

  unfoldable pub reconcile_each : List PaymentHash → Task c (Unit {0})
  reconcile_each [] = pure tt
  reconcile_each (h ∷ hs) = λ tr. continued (reconcile_held_invoice w h tr) (reconcile_each hs)

  -- `InvoiceReconciliationSweepRunner::run`
  unfoldable pub reconciliation_sweep : Result InvoiceError (List PaymentHash) → Task c (Unit {0})
  reconciliation_sweep (err e) = fail_with (invoice e)
  reconciliation_sweep (ok held) = reconcile_each held

  unfoldable pub fee_probe :
      (BoltInvoice → Result LndError FeeProbeResponse)
      → CallerAuth
      → WalletId
      → String
      → Task c MilliSatoshi
  fee_probe probe caller wallet_id payment_request = do
    check_wallet_ownership w caller wallet_id
    decoded ← decode_bolt11 w payment_request
    resp ← or_fail lnd (probe decoded.bolt_invoice)
    pure resp.fee_msat

-- `run_invoice_subscription_recovery_sweep`, over the hashes of the open invoices.
unfoldable pub spawn_each : List PaymentHash → Dispatcher → Dispatcher
spawn_each [] d = d
spawn_each (h ∷ hs) d = spawn_each hs (spawn_listener_for h d)

unfoldable pub recovery_sweep :
    {E : Type 0} → (InvoiceId → Result E PaymentHash) → List InvoiceRow → Dispatcher → Dispatcher
recovery_sweep find_by_id rows d = spawn_each (list_open_invoices find_by_id rows) d
