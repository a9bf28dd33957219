-- ===== src/App/Receive.antt =====
-- src/app/settle_hold_invoice.rs, reconcile_held_invoice.rs and handle_invoice_update.rs: how an invoice
-- follows what LND says of it. Log lines are dropped.
use blink_lightning_gateway.Base.{Result, ok, err, if◌then◌else◌}
use blink_lightning_gateway.Json.{number, string, object, end, field}
use blink_lightning_gateway.Primitives.Amount.{MilliSatoshi, whole_sat, as_i64}
use blink_lightning_gateway.Primitives.Hex.{PaymentHash, Preimage, payment_hash}
use blink_lightning_gateway.Primitives.Types.{Timestamp}
use blink_lightning_gateway.Invoice.Event.{InvoiceState, expired, invoice_find}
use blink_lightning_gateway.Invoice.Entity.{Invoice, mark_held}
use blink_lightning_gateway.Outbox.Event.{for_lightning_htlc_held}
use blink_lightning_gateway.Lnd.Types.{
  LndInvoiceState, open_, accepted, settled, canceled, InvoiceUpdate,
}
use blink_lightning_gateway.App.Error.{Stop, returned, panicked, invoice, lnd}
use blink_lightning_gateway.App.World.{
  Crates, World, Task, Trace, invoice_read, invoice_looked_up, settle_asked, pure, fail_with, ask,
  or_fail, ◌>>=◌, ◌>>◌,
}
use blink_lightning_gateway.App.Commit.{
  on_executed, hex_of, clock, begin_tx, commit_tx, update_invoice_in_op, publish_in_tx,
  is_invoice_not_found, commit_settle, commit_cancel,
}

module _ {c : Crates} where
  -- `if let Err(e) = task.await { log }`: an error is logged, a panic is not caught.
  abbrev swallowed : {A : Type 0} → Result Stop A × Trace c → Result Stop (Unit {0}) × Trace c
  swallowed (ok a, tr) = (ok tt, tr)
  swallowed (err (returned e), tr) = (ok tt, tr)
  swallowed (err (panicked s), tr) = (err (panicked s), tr)

module _ {c : Crates} (w : World c) where
  open w use {
    find_invoice, settle_invoice, lookup_invoice, add_hold_invoice, new_invoice_id, generate,
    create_invoice as insert_invoice,
  }

  abbrev settle_at_lnd : Preimage → Task c (Unit {0})
  settle_at_lnd preimage =
      ask (λ tr. settle_invoice tr preimage) (settle_asked preimage) >>= or_fail lnd

  -- A missing invoice is ignored.
  abbrev with_invoice :
      PaymentHash → (Invoice c.invoice_log → Task c (Unit {0})) → Task c (Unit {0})
  with_invoice payment_hash use_it = do
    found ← ask (λ tr. find_invoice tr payment_hash) (λ _. invoice_read payment_hash)
    elim found [
      | ok inv ↦ use_it inv
      | err e ↦ if is_invoice_not_found e then pure tt else fail_with (invoice (invoice_find e))
    ]

  -- The match on what LND says of a held invoice, the same in both callers.
  unfoldable pub settle_by_lnd_state :
      LndInvoiceState → Invoice c.invoice_log → PaymentHash → MilliSatoshi → Task c (Unit {0})
  settle_by_lnd_state accepted inv payment_hash amt_paid_msat = do
    settle_at_lnd inv.payment_preimage
    commit_settle w inv payment_hash amt_paid_msat
  settle_by_lnd_state settled inv payment_hash amt_paid_msat =
      commit_settle w inv payment_hash amt_paid_msat
  settle_by_lnd_state canceled inv payment_hash amt_paid_msat =
      commit_cancel w inv payment_hash expired amt_paid_msat
  settle_by_lnd_state open_ inv payment_hash amt_paid_msat = pure tt

  abbrev if_held : InvoiceState → Task c (Unit {0}) → Task c (Unit {0})
  if_held InvoiceState.held go = go
  if_held _ go = pure tt

  unfoldable pub settle_hold_invoice : PaymentHash → Task c (Unit {0})
  settle_hold_invoice payment_hash = with_invoice payment_hash λ inv. if_held inv.state (do
    answer ← ask (λ tr. lookup_invoice tr payment_hash) (invoice_looked_up payment_hash)
    lnd_state ← or_fail lnd answer
    settle_by_lnd_state lnd_state.state inv payment_hash lnd_state.amt_paid_msat)

  unfoldable pub reconcile_held_invoice : PaymentHash → Task c (Unit {0})
  reconcile_held_invoice payment_hash = with_invoice payment_hash λ inv. if_held inv.state (do
    answer ← ask (λ tr. lookup_invoice tr payment_hash) (invoice_looked_up payment_hash)
    lnd_state ← or_fail lnd answer
    settle_by_lnd_state lnd_state.state inv payment_hash lnd_state.amt_paid_msat)

  unfoldable pub transition_to_held :
      Invoice c.invoice_log → PaymentHash → MilliSatoshi → Timestamp → Task c (Unit {0})
  transition_to_held inv payment_hash amt_paid_msat t = do
    let held = mark_held c.invoice_log amt_paid_msat t inv
    outcome ← or_fail invoice held.0
    on_executed outcome
        (do
          begin_tx w
          update_invoice_in_op w held.1
          event_time ← clock w
          publish_in_tx w (
              for_lightning_htlc_held (hex_of w payment_hash) (hex_of w payment_hash)
                (as_i64 (whole_sat amt_paid_msat)) event_time
                (object (
                  field "amt_paid_msat" (number amt_paid_msat)
                    (field "wallet_id" (string inv.wallet_id) end))))
          commit_tx w)
        (pure tt)

  unfoldable pub apply_update :
      LndInvoiceState → InvoiceUpdate → Invoice c.invoice_log → Timestamp → Task c (Unit {0})
  apply_update open_ update inv t = pure tt
  apply_update accepted update inv t = do
    transition_to_held inv inv.payment_hash update.amt_paid_msat t
    λ tr. swallowed (settle_hold_invoice inv.payment_hash tr)
  apply_update settled update inv t = pure tt
  apply_update canceled update inv t =
      commit_cancel w inv inv.payment_hash expired update.amt_paid_msat

  unfoldable pub handle_invoice_update : InvoiceUpdate → Task c (Unit {0})
  handle_invoice_update update =
      with_invoice update.payment_hash λ inv. do t ← clock w; apply_update update.state update inv t
