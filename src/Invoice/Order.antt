-- ===== src/Invoice/Order.antt =====
-- The order of the events in the log of an invoice.
use blink_lightning_gateway.Base.{
  ◌≡◌, refl, true, not, ◌||◌, List, [], ◌∷◌, arith, any, preceded, preceded-append,
}
use blink_lightning_gateway.Invoice.Event.{
  InvoiceEvent, htlc_held, settled_intraledger, is_htlc_held, is_settled,
}
use blink_lightning_gateway.Invoice.Entity.{
  InvoiceLog, Invoice, NewInvoice, mark_held, settle_intraledger, settle, cancel, into_events,
  created_event,
}
use blink_lightning_gateway.Invoice.Lifecycle.{
  Call, marks_held, settles, settles_intraledger, cancels, apply_call, run, fresh, Status, issued,
  next, Shows,
}
use blink_lightning_gateway.Invoice.Refinement.{invoice_call-Follows, fresh-Shows}

module _ (log : InvoiceLog) where
  -- Every settlement over LND comes after a parked HTLC.
  abbrev pub IsParkedFirst : Invoice log → Type 0
  IsParkedFirst inv = preceded is_htlc_held is_settled (log.iter_all inv.events) ≡ true

  push-preceded :
      (l : log.Events) (e : InvoiceEvent)
      → preceded is_htlc_held is_settled (log.iter_all l) ≡ true
      → (not (is_settled e) || any is_htlc_held (log.iter_all l)) ≡ true
      → preceded is_htlc_held is_settled (log.iter_all (log.push l e)) ≡ true
  push-preceded l e h k =
      rw (log.iter_all-push l e) (preceded-append is_htlc_held is_settled (log.iter_all l) e h k)

  apply_call-IsParkedFirst :
      (c : Call) (s : Status) (inv : Invoice log)
      → Shows log s inv
      → IsParkedFirst inv
      → IsParkedFirst (apply_call log c inv).1
  unfolding apply_call mark_held settle settle_intraledger cancel
  apply_call-IsParkedFirst (marks_held a t) s inv h k =
      ground (arith, k, push-preceded inv.events (htlc_held t a) k)
  apply_call-IsParkedFirst (settles t) s inv h k =
      ground (arith, h, k, push-preceded inv.events (InvoiceEvent.settled t) k)
  apply_call-IsParkedFirst (settles_intraledger t) s inv h k =
      ground (arith, k, push-preceded inv.events (settled_intraledger t) k)
  apply_call-IsParkedFirst (cancels r t) s inv h k =
      ground (arith, k, push-preceded inv.events (InvoiceEvent.canceled t r) k)

  run-IsParkedFirst :
      (cs : List Call) (s : Status) (inv : Invoice log)
      → Shows log s inv
      → IsParkedFirst inv
      → IsParkedFirst (run log cs inv)
  unfolding run
  run-IsParkedFirst [] s inv h k = k
  run-IsParkedFirst (c ∷ cs) s inv h k =
      run-IsParkedFirst cs (next s c).1 (apply_call log c inv).1
        (invoice_call-Follows log s inv c h).1 (apply_call-IsParkedFirst c s inv h k)

  fresh-IsParkedFirst : (n : NewInvoice) → IsParkedFirst (fresh log n)
  unfolding fresh into_events
  fresh-IsParkedFirst n = rw (log.iter_all-init n.id (created_event n ∷ [])) refl

  pub invoice_run-IsParkedFirst :
      (n : NewInvoice) (cs : List Call) → IsParkedFirst (run log cs (fresh log n))
  invoice_run-IsParkedFirst n cs =
      run-IsParkedFirst cs issued (fresh log n) (fresh-Shows log n) (fresh-IsParkedFirst n)
