-- ===== src/Invoice/Refinement.antt =====
-- The commands of an invoice follow its state machine, and what follows for any run of commands.
use blink_lightning_gateway.Base.{
  ◌+◌, ◌≡◌, Bool, List, [], ◌∷◌, arith, ◌||◌, length, any, length-append, any-append,
}
use blink_lightning_gateway.Primitives.Amount.{MilliSatoshi}
use blink_lightning_gateway.Primitives.Types.{Timestamp}
use blink_lightning_gateway.Invoice.Event.{
  CancelReason, InvoiceEvent, htlc_held, settled_intraledger, is_htlc_held, is_settled,
  is_settled_intraledger, is_canceled,
}
use blink_lightning_gateway.Invoice.Entity.{
  InvoiceLog, Invoice, NewInvoice, into_events, created_event, mark_held, settle,
  settle_intraledger, cancel,
}
use blink_lightning_gateway.Invoice.Lifecycle.{
  Call, marks_held, settles, settles_intraledger, cancels, apply_call, run, fresh, Status, issued,
  parked, next, run_status, Shows,
}

module _ (log : InvoiceLog) where
  pub fresh-Shows : (n : NewInvoice) → Shows log issued (fresh log n)
  unfolding fresh into_events
  fresh-Shows n = ground (arith, log.iter_all-init n.id (created_event n ∷ []))

  any-push :
      (l : log.Events) (e : InvoiceEvent) (p : InvoiceEvent → Bool)
      → any p (log.iter_all (log.push l e)) ≡ (any p (log.iter_all l) || any p (e ∷ []))
  any-push l e p = rw (log.iter_all-push l e) (any-append p (log.iter_all l) (e ∷ []))

  -- What one more event does to the tests on the log, and to its length.
  record Grown (l : log.Events) (e : InvoiceEvent) : Type 0 where
    htlc :
        any is_htlc_held (log.iter_all (log.push l e))
        ≡ (any is_htlc_held (log.iter_all l) || any is_htlc_held (e ∷ []))
    settle :
        any is_settled (log.iter_all (log.push l e))
        ≡ (any is_settled (log.iter_all l) || any is_settled (e ∷ []))
    intraledger :
        any is_settled_intraledger (log.iter_all (log.push l e))
        ≡ (any is_settled_intraledger (log.iter_all l) || any is_settled_intraledger (e ∷ []))
    cancel :
        any is_canceled (log.iter_all (log.push l e))
        ≡ (any is_canceled (log.iter_all l) || any is_canceled (e ∷ []))
    count : length (log.iter_all (log.push l e)) ≡ length (log.iter_all l) + 1

  push-Grown : (l : log.Events) (e : InvoiceEvent) → Grown l e
  push-Grown l e = record {
    htlc = any-push l e is_htlc_held;
    settle = any-push l e is_settled;
    intraledger = any-push l e is_settled_intraledger;
    cancel = any-push l e is_canceled;
    count = rw (log.iter_all-push l e) (length-append (log.iter_all l) (e ∷ []));
  }

  -- The answer of the command, and the status that it leaves, are those of the state machine.
  abbrev pub Follows : Status → Call → Invoice log → Type 0
  Follows s c inv =
      ((apply_call log c inv).0 ≡ (next s c).0) × Shows log (next s c).1 (apply_call log c inv).1

  mark_held-Follows :
      (s : Status) (inv : Invoice log) (a : MilliSatoshi) (t : Timestamp)
      → Shows log s inv
      → Follows s (marks_held a t) inv
  unfolding apply_call mark_held next
  mark_held-Follows issued inv a t h = ground (
    arith,
    log.already_applied-any inv.events is_htlc_held,
    push-Grown inv.events (htlc_held t a),
  )
  mark_held-Follows _ inv a t h = ground (arith, log.already_applied-any inv.events is_htlc_held)

  settle-Follows :
      (s : Status) (inv : Invoice log) (t : Timestamp) → Shows log s inv → Follows s (settles t) inv
  unfolding apply_call settle next
  settle-Follows (parked a) inv t h = ground (
    arith,
    log.already_applied-any inv.events is_settled,
    push-Grown inv.events (InvoiceEvent.settled t),
  )
  settle-Follows _ inv t h = ground (arith, log.already_applied-any inv.events is_settled)

  settle_intraledger-Follows :
      (s : Status) (inv : Invoice log) (t : Timestamp)
      → Shows log s inv
      → Follows s (settles_intraledger t) inv
  unfolding apply_call settle_intraledger next
  settle_intraledger-Follows issued inv t h = ground (
    arith,
    log.already_applied-any inv.events is_settled_intraledger,
    push-Grown inv.events (settled_intraledger t),
  )
  settle_intraledger-Follows _ inv t h =
      ground (arith, log.already_applied-any inv.events is_settled_intraledger)

  cancel-Follows :
      (s : Status) (inv : Invoice log) (r : CancelReason) (t : Timestamp)
      → Shows log s inv
      → Follows s (cancels r t) inv
  unfolding apply_call cancel next
  cancel-Follows issued inv r t h = ground (
    arith,
    log.already_applied-any inv.events is_canceled,
    push-Grown inv.events (InvoiceEvent.canceled t r),
  )
  cancel-Follows (parked a) inv r t h = ground (
    arith,
    log.already_applied-any inv.events is_canceled,
    push-Grown inv.events (InvoiceEvent.canceled t r),
  )
  cancel-Follows _ inv r t h = ground (arith, log.already_applied-any inv.events is_canceled)

  -- On an invoice that stands where a status says, every command gives the answer of the state
  -- machine `next` (executed, already applied, or the refusal that names the state and the command),
  -- and leaves an invoice that stands where `next` says, in its fields and in its log.
  pub invoice_call-Follows :
      (s : Status) (inv : Invoice log) (c : Call)
      → Shows log s inv
      → ((apply_call log c inv).0 ≡ (next s c).0) × Shows log (next s c).1 (apply_call log c inv).1
  invoice_call-Follows s inv (marks_held a t) h = mark_held-Follows s inv a t h
  invoice_call-Follows s inv (settles t) h = settle-Follows s inv t h
  invoice_call-Follows s inv (settles_intraledger t) h = settle_intraledger-Follows s inv t h
  invoice_call-Follows s inv (cancels r t) h = cancel-Follows s inv r t h

  run_from-Shows :
      (cs : List Call) (s : Status) (inv : Invoice log)
      → Shows log s inv
      → Shows log (run_status cs s) (run log cs inv)
  unfolding run run_status
  run_from-Shows [] s inv h = h
  run_from-Shows (c ∷ cs) s inv h =
      run_from-Shows cs (next s c).1 (apply_call log c inv).1 (invoice_call-Follows s inv c h).1

  -- The machine's view of a new invoice after any commands.
  pub run-Shows :
      (n : NewInvoice) (cs : List Call)
      → Shows log (run_status cs issued) (run log cs (fresh log n))
  run-Shows n cs = run_from-Shows cs issued (fresh log n) (fresh-Shows n)
