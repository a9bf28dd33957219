-- ===== src/App/ReceiveLaws.antt =====
-- Every use case on the receiving side announces what it changes.
use blink_lightning_gateway.Base.{◌≡◌, ◌∷◌, arith, refl, inl, inr, Result-cases}
use blink_lightning_gateway.Primitives.Amount.{MilliSatoshi}
use blink_lightning_gateway.Primitives.Hex.{PaymentHash}
use blink_lightning_gateway.Primitives.Types.{Timestamp}
use blink_lightning_gateway.Invoice.Event.{expired}
use blink_lightning_gateway.Invoice.Entity.{Invoice, mark_held}
use blink_lightning_gateway.Lnd.Types.{
  InvoiceUpdate, LndInvoiceState, open_, accepted, settled, canceled,
}
use blink_lightning_gateway.App.World.{Crates, World, Trace, settle_asked}
use blink_lightning_gateway.App.Announced.{IsAnnounced, FindsByHash}
use blink_lightning_gateway.App.CommitLaws.{commit_settle-IsAnnounced, commit_cancel-IsAnnounced}
use blink_lightning_gateway.App.Receive.{
  handle_invoice_update, reconcile_held_invoice, apply_update, settle_by_lnd_state,
  settle_hold_invoice, transition_to_held,
}

module _ {c : Crates} (w : World c) where
  settle_by_lnd_state-IsAnnounced :
      (s : LndInvoiceState) (inv : Invoice c.invoice_log) (h : PaymentHash) (a : MilliSatoshi)
      (tr : Trace c)
      → inv.payment_hash ≡ h
      → IsAnnounced tr
      → IsAnnounced (settle_by_lnd_state w s inv h a tr).1
  unfolding settle_by_lnd_state
  settle_by_lnd_state-IsAnnounced accepted inv h a tr e k = ground (
    arith,
    commit_settle-IsAnnounced w inv h a
        (settle_asked inv.payment_preimage (w.settle_invoice tr inv.payment_preimage) ∷ tr),
  )
  settle_by_lnd_state-IsAnnounced settled inv h a tr e k =
      commit_settle-IsAnnounced w inv h a tr e k
  settle_by_lnd_state-IsAnnounced canceled inv h a tr e k =
      commit_cancel-IsAnnounced w inv h expired a tr e k
  settle_by_lnd_state-IsAnnounced open_ inv h a tr e k = k

  pub settle_hold_invoice-IsAnnounced :
      FindsByHash w
      → (h : PaymentHash) (tr : Trace c) → IsAnnounced tr
      → IsAnnounced (settle_hold_invoice w h tr).1
  unfolding settle_hold_invoice
  settle_hold_invoice-IsAnnounced found h tr k = elim (Result-cases (w.find_invoice tr h)) [
    | inl (inv, e) ↦
        let same = found.invoices tr h inv e in grind (arith, settle_by_lnd_state-IsAnnounced)
    | inr (x, e) ↦ ground arith
  ]

  transition_to_held-IsAnnounced :
      (inv : Invoice c.invoice_log) (h : PaymentHash) (a : MilliSatoshi) (t : Timestamp)
      (tr : Trace c)
      → inv.payment_hash ≡ h
      → IsAnnounced tr
      → IsAnnounced (transition_to_held w inv h a t tr).1
  unfolding transition_to_held mark_held
  transition_to_held-IsAnnounced inv h a t tr e k = ground arith

  pub reconcile_held_invoice-IsAnnounced :
      FindsByHash w
      → (h : PaymentHash) (tr : Trace c) → IsAnnounced tr
      → IsAnnounced (reconcile_held_invoice w h tr).1
  unfolding reconcile_held_invoice
  reconcile_held_invoice-IsAnnounced found h tr k = elim (Result-cases (w.find_invoice tr h)) [
    | inl (inv, e) ↦
        let same = found.invoices tr h inv e in grind (arith, settle_by_lnd_state-IsAnnounced)
    | inr (x, e) ↦ ground arith
  ]

  apply_update-IsAnnounced :
      FindsByHash w
      → (s : LndInvoiceState) (u : InvoiceUpdate) (inv : Invoice c.invoice_log) (t : Timestamp)
        (tr : Trace c)
      → IsAnnounced tr
      → IsAnnounced (apply_update w s u inv t tr).1
  unfolding apply_update
  apply_update-IsAnnounced found open_ u inv t tr k = k
  apply_update-IsAnnounced found accepted u inv t tr k =
      grind (arith, transition_to_held-IsAnnounced, settle_hold_invoice-IsAnnounced found)
  apply_update-IsAnnounced found settled u inv t tr k = k
  apply_update-IsAnnounced found canceled u inv t tr k =
      commit_cancel-IsAnnounced w inv inv.payment_hash expired u.amt_paid_msat tr refl k

  pub handle_invoice_update-IsAnnounced :
      FindsByHash w
      → (u : InvoiceUpdate) (tr : Trace c) → IsAnnounced tr
      → IsAnnounced (handle_invoice_update w u tr).1
  unfolding handle_invoice_update
  handle_invoice_update-IsAnnounced found u tr k = grind (arith, apply_update-IsAnnounced found)

  -- If a lookup by hash finds the row with this hash, then whatever the environment answers: every
  -- transaction that is committed on an update from LND's
  -- invoice stream, on the settlement of a held invoice and in the reconciliation changes the invoice
  -- whose hash
  -- its one event names, to the state that the event says.
  pub receiving-IsAnnounced :
      FindsByHash w
      → (u : InvoiceUpdate) (h : PaymentHash) (tr : Trace c) → IsAnnounced tr
      → IsAnnounced (handle_invoice_update w u tr).1
        × IsAnnounced (settle_hold_invoice w h tr).1
        × IsAnnounced (reconcile_held_invoice w h tr).1
  receiving-IsAnnounced found u h tr k = (
    handle_invoice_update-IsAnnounced found u tr k,
    settle_hold_invoice-IsAnnounced found h tr k,
    reconcile_held_invoice-IsAnnounced found h tr k,
  )
