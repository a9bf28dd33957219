-- ===== src/App/HoldLaws.antt =====
-- The hold of an outgoing payment, and the settlement of a held invoice.
use blink_lightning_gateway.App.Commit.{commit_cancel, commit_settle}
use blink_lightning_gateway.App.Receive.{
  apply_update, handle_invoice_update, reconcile_held_invoice, settle_by_lnd_state,
  settle_hold_invoice, transition_to_held,
}
use blink_lightning_gateway.App.Send.{hold_sat}
use blink_lightning_gateway.Base.{ok, refl, ◌≡◌, inl, inr, Result-cases}
use blink_lightning_gateway.Invoice.Entity.{Invoice}
use blink_lightning_gateway.Invoice.Event.{expired, CancelReason}
use blink_lightning_gateway.Lnd.Types.{InvoiceUpdate}
use blink_lightning_gateway.Primitives.Amount.{MilliSatoshi, round_up_to_sat_wrapping, whole_sat}
use blink_lightning_gateway.Primitives.Hex.{PaymentHash, Preimage}
use blink_lightning_gateway.Primitives.Types.{Timestamp}
use blink_lightning_gateway.Base.{◌+◌, ◌*◌, ◌≤◌, ◌<◌, [], ◌∷◌, arith}
use blink_lightning_gateway.Lnd.Types.{LndInvoiceState, open_, accepted, settled, canceled}
use blink_lightning_gateway.App.World.{
  Crates, World, Trace, settle_asked, invoice_looked_up, invoice_read,
}

-- Up to the largest amount that can be rounded in a `u64`, the hold covers the amount and the fee cap,
-- and exceeds them by less than one satoshi.
pub hold_sat_covers :
    (amount fee : MilliSatoshi)
    → amount + fee ≤ 18_446_744_073_709_551_000
    → (amount + fee ≤ hold_sat amount fee * 1000)
      × (hold_sat amount fee * 1000 < amount + fee + 1000)
unfolding hold_sat round_up_to_sat_wrapping whole_sat
hold_sat_covers amount fee h = (omega (arith, h), omega (arith, h))

module _ {c : Crates} (w : World c) where
  -- The invoice with this preimage was found by a hash, and then LND said of this hash that it has
  -- accepted the HTLC.
  abbrev pub IsAccepted : Preimage → Trace c → Type 0
  IsAccepted preimage (invoice_looked_up h (ok u) ∷ (invoice_read k ∷ tr)) =
      (u.state ≡ accepted)
      × (k ≡ h)
      × (inv : Invoice c.invoice_log) × (w.find_invoice tr h ≡ ok inv)
      × (inv.payment_preimage ≡ preimage)
  IsAccepted preimage _ = ⊥

  -- A preimage is released only right after LND said that the HTLC of its invoice is accepted.
  abbrev pub IsReleased : Trace c → Type 0
  IsReleased [] = Unit
  IsReleased (settle_asked preimage answer ∷ tr) = IsAccepted preimage tr × IsReleased tr
  IsReleased (_ ∷ tr) = IsReleased tr

  commit_settle-IsReleased :
      (inv : Invoice c.invoice_log) (h : PaymentHash) (a : MilliSatoshi) (tr : Trace c)
      → IsReleased tr
      → IsReleased (commit_settle w inv h a tr).1
  unfolding commit_settle
  commit_settle-IsReleased inv h a tr k = ground arith

  commit_cancel-IsReleased :
      (inv : Invoice c.invoice_log) (h : PaymentHash) (r : CancelReason) (a : MilliSatoshi)
      (tr : Trace c)
      → IsReleased tr
      → IsReleased (commit_cancel w inv h r a tr).1
  unfolding commit_cancel
  commit_cancel-IsReleased inv h r a tr k = ground arith

  settle_by_lnd_state-IsReleased :
      (s : LndInvoiceState) (inv : Invoice c.invoice_log) (h : PaymentHash) (a : MilliSatoshi)
      (tr : Trace c)
      → (s ≡ accepted → IsAccepted inv.payment_preimage tr)
      → IsReleased tr
      → IsReleased (settle_by_lnd_state w s inv h a tr).1
  unfolding settle_by_lnd_state
  settle_by_lnd_state-IsReleased accepted inv h a tr e k =
      grind (arith, e refl, commit_settle-IsReleased)
  settle_by_lnd_state-IsReleased settled inv h a tr e k = commit_settle-IsReleased inv h a tr k
  settle_by_lnd_state-IsReleased canceled inv h a tr e k =
      commit_cancel-IsReleased inv h expired a tr k
  settle_by_lnd_state-IsReleased open_ inv h a tr e k = k

  settle_hold_invoice-IsReleased :
      (h : PaymentHash) (tr : Trace c) → IsReleased tr → IsReleased (settle_hold_invoice w h tr).1
  unfolding settle_hold_invoice
  settle_hold_invoice-IsReleased h tr k = elim (Result-cases (w.find_invoice tr h)) [
    | inr (x, e) ↦ ground arith
    | inl (inv, e) ↦ elim (Result-cases (w.lookup_invoice (invoice_read h ∷ tr) h)) [
      | inr (x, l) ↦ ground arith
      | inl (u, l) ↦ ground (
        arith,
        settle_by_lnd_state-IsReleased u.state inv h u.amt_paid_msat
            (invoice_looked_up h (ok u) ∷ (invoice_read h ∷ tr)) (λ a. (a, refl, inv, e, refl)) k,
      )
    ]
  ]

  reconcile_held_invoice-IsReleased :
      (h : PaymentHash) (tr : Trace c)
      → IsReleased tr
      → IsReleased (reconcile_held_invoice w h tr).1
  unfolding reconcile_held_invoice
  reconcile_held_invoice-IsReleased h tr k = elim (Result-cases (w.find_invoice tr h)) [
    | inr (x, e) ↦ ground arith
    | inl (inv, e) ↦ elim (Result-cases (w.lookup_invoice (invoice_read h ∷ tr) h)) [
      | inr (x, l) ↦ ground arith
      | inl (u, l) ↦ ground (
        arith,
        settle_by_lnd_state-IsReleased u.state inv h u.amt_paid_msat
            (invoice_looked_up h (ok u) ∷ (invoice_read h ∷ tr)) (λ a. (a, refl, inv, e, refl)) k,
      )
    ]
  ]

  transition_to_held-IsReleased :
      (inv : Invoice c.invoice_log) (h : PaymentHash) (a : MilliSatoshi) (t : Timestamp)
      (tr : Trace c)
      → IsReleased tr
      → IsReleased (transition_to_held w inv h a t tr).1
  unfolding transition_to_held
  transition_to_held-IsReleased inv h a t tr k = ground arith

  apply_update-IsReleased :
      (s : LndInvoiceState) (u : InvoiceUpdate) (inv : Invoice c.invoice_log) (t : Timestamp)
      (tr : Trace c)
      → IsReleased tr
      → IsReleased (apply_update w s u inv t tr).1
  unfolding apply_update
  apply_update-IsReleased open_ u inv t tr k = k
  apply_update-IsReleased accepted u inv t tr k =
      grind (arith, transition_to_held-IsReleased, settle_hold_invoice-IsReleased)
  apply_update-IsReleased settled u inv t tr k = k
  apply_update-IsReleased canceled u inv t tr k =
      commit_cancel-IsReleased inv inv.payment_hash expired u.amt_paid_msat tr k

  handle_invoice_update-IsReleased :
      (u : InvoiceUpdate) (tr : Trace c)
      → IsReleased tr
      → IsReleased (handle_invoice_update w u tr).1
  unfolding handle_invoice_update
  handle_invoice_update-IsReleased u tr k = grind (arith, apply_update-IsReleased)

  -- Whatever the environment answers: on an update from LND's invoice stream, on the settlement of a
  -- held invoice and in the reconciliation, the preimage of an invoice is released to LND only
  -- right after the invoice was found by a hash and LND said of this hash that it has accepted the
  -- HTLC.
  pub receiving-IsReleased :
      (u : InvoiceUpdate) (h : PaymentHash) (tr : Trace c)
      → IsReleased tr
      → IsReleased (handle_invoice_update w u tr).1
        × IsReleased (settle_hold_invoice w h tr).1
        × IsReleased (reconcile_held_invoice w h tr).1
  receiving-IsReleased u h tr k = (
    handle_invoice_update-IsReleased u tr k,
    settle_hold_invoice-IsReleased h tr k,
    reconcile_held_invoice-IsReleased h tr k,
  )
