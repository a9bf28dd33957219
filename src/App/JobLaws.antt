-- ===== src/App/JobLaws.antt =====
-- What one run of the jobs of invoices achieves.
use blink_lightning_gateway.Base.{
  ◌∙◌, List, [], ◌∷◌, ◌++◌, Result, ok, err, true, ◌≡◌, ap, sym, arith, Bool-cases, inl, inr,
  Result-cases,
}
use blink_lightning_gateway.Primitives.Hex.{PaymentHash, hash_eq_refl}
use blink_lightning_gateway.Primitives.Types.{InvoiceId}
use blink_lightning_gateway.Invoice.Event.{InvoiceError, InvoiceState}
use blink_lightning_gateway.Invoice.Repo.{
  InvoiceRow, is_open_row, is_open_row_lem, loaded, open_rows, list_open_invoices, not_final,
  invoice_state_as_str,
}
use blink_lightning_gateway.Lnd.Dispatch.{
  Dispatcher, spawn_listener_for, contains_hash, IsRegistry, IsDistinct, Step-IsRegistry, spawned,
}
use blink_lightning_gateway.App.Error.{Stop, returned, panicked}
use blink_lightning_gateway.App.World.{Crates, World, Trace}
use blink_lightning_gateway.App.Receive.{reconcile_held_invoice}
use blink_lightning_gateway.App.ReceiveLaws.{reconcile_held_invoice-IsAnnounced}
use blink_lightning_gateway.App.Announced.{IsAnnounced, FindsByHash}
use blink_lightning_gateway.App.Jobs.{
  continued, reconcile_each, reconciliation_sweep, spawn_each, recovery_sweep,
}

module _ {c : Crates} (w : World c) where
  reconcile_each-IsAnnounced :
      FindsByHash w
      → (hs : List PaymentHash) (tr : Trace c) → IsAnnounced tr
      → IsAnnounced (reconcile_each w hs tr).1
  unfolding reconcile_each
  reconcile_each-IsAnnounced found [] tr k = k
  reconcile_each-IsAnnounced found (h ∷ hs) tr k =
      next (reconcile_held_invoice w h tr) (reconcile_held_invoice-IsAnnounced w found h tr k)
        (λ t. reconcile_each-IsAnnounced found hs t)
    where
      next :
          (r : Result Stop (Unit {0}) × Trace c)
          → IsAnnounced r.1
          → ((t : Trace c) → IsAnnounced t → IsAnnounced (reconcile_each w hs t).1)
          → IsAnnounced (continued w r (reconcile_each w hs)).1
      next (ok tt, t) h more = more t h
      next (err (panicked p), t) h more = h
      next (err (returned e), t) h more = more t h

  -- If a lookup by hash finds the row with this hash, then every transaction that it commits changes the invoice
  -- whose hash its one event names, to the state that the event says, whatever the errors on the way.
  pub reconciliation_sweep-IsAnnounced :
      FindsByHash w
      → (held : Result InvoiceError (List PaymentHash)) (tr : Trace c) → IsAnnounced tr
      → IsAnnounced (reconciliation_sweep w held tr).1
  unfolding reconciliation_sweep
  reconciliation_sweep-IsAnnounced found (ok held) tr k = reconcile_each-IsAnnounced found held tr k
  reconciliation_sweep-IsAnnounced found (err e) tr k = k

spawn_listener_for-active :
    (h : PaymentHash) (d : Dispatcher) → contains_hash h (spawn_listener_for h d).active ≡ true
unfolding spawn_listener_for
spawn_listener_for-active h d = ground (arith, hash_eq_refl h)

spawn_listener_for-keeps :
    (h k : PaymentHash) (d : Dispatcher)
    → contains_hash k d.active ≡ true
    → contains_hash k (spawn_listener_for h d).active ≡ true
unfolding spawn_listener_for
spawn_listener_for-keeps h k d a = ground (arith, a)

spawn_each-keeps :
    (hs : List PaymentHash) (k : PaymentHash) (d : Dispatcher)
    → contains_hash k d.active ≡ true
    → contains_hash k (spawn_each hs d).active ≡ true
unfolding spawn_each
spawn_each-keeps [] k d a = a
spawn_each-keeps (h ∷ hs) k d a =
    spawn_each-keeps hs k (spawn_listener_for h d) (spawn_listener_for-keeps h k d a)

recovery_sweep-active :
    {E : Type 0} (find_by_id : InvoiceId → Result E PaymentHash) (before after : List InvoiceRow)
    (row : InvoiceRow) (s : InvoiceState) (h : PaymentHash) (d : Dispatcher)
    → row.state ≡ invoice_state_as_str s
    → not_final s ≡ true
    → find_by_id row.id ≡ ok h
    → contains_hash h (recovery_sweep find_by_id (before ++ row ∷ after) d).active ≡ true
unfolding recovery_sweep list_open_invoices loaded open_rows spawn_each
recovery_sweep-active find_by_id [] after row s h d e n f =
    let listed : is_open_row row ≡ true = is_open_row_lem row s e ∙ n in
    rw (recovery_sweep, list_open_invoices, open_rows, listed, loaded, f, spawn_each)
      (spawn_each-keeps (loaded find_by_id (open_rows find_by_id after)) h (spawn_listener_for h d)
        (spawn_listener_for-active h d))
recovery_sweep-active find_by_id (q ∷ before) after row s h d e n f =
    elim (Bool-cases (is_open_row q)) [
      | inr b ↦
          rw (recovery_sweep, list_open_invoices, open_rows, b)
            (recovery_sweep-active find_by_id before after row s h d e n f)
      | inl b ↦ elim (Result-cases (find_by_id q.id)) [
        | inr (x, l) ↦
            rw (recovery_sweep, list_open_invoices, open_rows, b, loaded, l)
              (recovery_sweep-active find_by_id before after row s h d e n f)
        | inl (k, l) ↦
            rw (recovery_sweep, list_open_invoices, open_rows, b, loaded, l, spawn_each)
              (recovery_sweep-active find_by_id before after row s h (spawn_listener_for k d) e n f)
      ]
    ]

spawn_each-IsRegistry :
    (hs : List PaymentHash) (d : Dispatcher) → IsRegistry d → IsRegistry (spawn_each hs d)
unfolding spawn_each
spawn_each-IsRegistry [] d k = k
spawn_each-IsRegistry (h ∷ hs) d k =
    spawn_each-IsRegistry hs (spawn_listener_for h d) (Step-IsRegistry (spawned h) k)

-- After the sweep at the start of the process, over any tasks that ran before it, at most one for
-- each invoice and as the set of the dispatcher says: every invoice that is open or held in its row
-- and can be loaded has a running task that listens for it, whichever others cannot be loaded, and
-- still none has two.
pub recovery_sweep-listeners :
    {E : Type 0} (find_by_id : InvoiceId → Result E PaymentHash) (before after : List InvoiceRow)
    (row : InvoiceRow) (s : InvoiceState) (h : PaymentHash) (d : Dispatcher)
    → IsRegistry d
    → row.state ≡ invoice_state_as_str s
    → not_final s ≡ true
    → find_by_id row.id ≡ ok h
    → (contains_hash h (recovery_sweep find_by_id (before ++ row ∷ after) d).listeners ≡ true)
      × IsDistinct (recovery_sweep find_by_id (before ++ row ∷ after) d).listeners
unfolding recovery_sweep
recovery_sweep-listeners find_by_id before after row s h d k e n f =
    let listed = list_open_invoices find_by_id (before ++ row ∷ after) in
    let (same, distinct) = spawn_each-IsRegistry listed d k in
    let active = recovery_sweep-active find_by_id before after row s h d e n f in
    (ap (contains_hash h) (sym same) ∙ active, distinct)
