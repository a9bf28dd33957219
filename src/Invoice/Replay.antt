-- ===== src/Invoice/Replay.antt =====
-- The log is the truth: replaying it gives back the invoice, after every command.
use blink_lightning_gateway.Base.{some, List, [], ◌∷◌, ◌≡◌, refl, ok, arith}
use blink_lightning_gateway.Primitives.Amount.{MilliSatoshi}
use blink_lightning_gateway.Primitives.Types.{Timestamp}
use blink_lightning_gateway.Invoice.Event.{
  CancelReason, InvoiceEvent, htlc_held, settled_intraledger, held, InvoiceState,
}
use blink_lightning_gateway.Invoice.Entity.{
  InvoiceLog, Invoice, NewInvoice, into_events, created_event, mark_held, settle,
  settle_intraledger, cancel,
}
use blink_lightning_gateway.Invoice.Lifecycle.{
  Call, marks_held, settles, settles_intraledger, cancels, apply_call, run, fresh,
}
use blink_lightning_gateway.Invoice.Hydration.{
  InvoiceBuilder, empty_builder, apply_event, apply_all, apply_all-append, build, try_from_events,
}

module _ (log : InvoiceLog) where
  abbrev pub Replays : Invoice log → Type 0
  Replays inv = try_from_events log inv.events ≡ ok inv

  -- One more event in the log is one more event applied to the builder.
  try_from_events-push :
      (l : log.Events) (e : InvoiceEvent)
      → try_from_events log (log.push l e)
        ≡ build log
            (apply_event
              (apply_all (record empty_builder { id = some (log.id l) }) (log.iter_all l))
              e)
            (log.push l e)
  unfolding try_from_events apply_all
  try_from_events-push l e = rw (log.id-push l e, log.iter_all-push l e, apply_all-append) refl

  module _ (b : InvoiceBuilder) (l l' : log.Events) (inv : Invoice log)
      (h : build log b l ≡ ok inv) where
    build_held :
        (t : Timestamp) (a : MilliSatoshi)
        → build log (apply_event b (htlc_held t a)) l'
          ≡ ok (record inv { events = l'; state = held; held_amount_msat = some a })
    unfolding build apply_event
    build_held t a = ground arith

    build_settled :
        (t : Timestamp)
        → build log (apply_event b (InvoiceEvent.settled t)) l'
          ≡ ok (record inv { events = l'; state = InvoiceState.settled })
    unfolding build apply_event
    build_settled t = ground arith

    build_settled_intraledger :
        (t : Timestamp)
        → build log (apply_event b (settled_intraledger t)) l'
          ≡ ok (record inv { events = l'; state = InvoiceState.settled })
    unfolding build apply_event
    build_settled_intraledger t = ground arith

    build_canceled :
        (t : Timestamp) (r : CancelReason)
        → build log (apply_event b (InvoiceEvent.canceled t r)) l'
          ≡ ok (record inv { events = l'; state = InvoiceState.canceled; canceled_reason = some r })
    unfolding build apply_event
    build_canceled t r = ground arith

  -- The builder that the log of `inv` leads to.
  abbrev builder_of : Invoice log → InvoiceBuilder
  builder_of inv =
      apply_all (record empty_builder { id = some (log.id inv.events) }) (log.iter_all inv.events)

  Replays-build : (inv : Invoice log) → Replays inv → build log (builder_of inv) inv.events ≡ ok inv
  unfolding try_from_events
  Replays-build inv h = h

  module _ (inv : Invoice log) (h : Replays inv) where
    mark_held-Replays : (a : MilliSatoshi) (t : Timestamp) → Replays (mark_held log a t inv).1
    unfolding mark_held
    mark_held-Replays a t = ground (
      arith,
      try_from_events-push inv.events (htlc_held t a),
      build_held (builder_of inv) inv.events (log.push inv.events (htlc_held t a)) inv
          (Replays-build inv h) t a,
    )

    settle-Replays : (t : Timestamp) → Replays (settle log t inv).1
    unfolding settle
    settle-Replays t = ground (
      arith,
      try_from_events-push inv.events (InvoiceEvent.settled t),
      build_settled (builder_of inv) inv.events (log.push inv.events (InvoiceEvent.settled t)) inv
          (Replays-build inv h) t,
    )

    settle_intraledger-Replays : (t : Timestamp) → Replays (settle_intraledger log t inv).1
    unfolding settle_intraledger
    settle_intraledger-Replays t = ground (
      arith,
      try_from_events-push inv.events (settled_intraledger t),
      build_settled_intraledger (builder_of inv) inv.events
          (log.push inv.events (settled_intraledger t)) inv (Replays-build inv h) t,
    )

    cancel-Replays : (r : CancelReason) (t : Timestamp) → Replays (cancel log r t inv).1
    unfolding cancel
    cancel-Replays r t = ground (
      arith,
      try_from_events-push inv.events (InvoiceEvent.canceled t r),
      build_canceled (builder_of inv) inv.events (log.push inv.events (InvoiceEvent.canceled t r))
          inv (Replays-build inv h) t r,
    )

    call-Replays : (c : Call) → Replays (apply_call log c inv).1
    unfolding apply_call
    call-Replays (marks_held a t) = mark_held-Replays a t
    call-Replays (settles t) = settle-Replays t
    call-Replays (settles_intraledger t) = settle_intraledger-Replays t
    call-Replays (cancels r t) = cancel-Replays r t

  -- The invoice that a new one's log gives back.
  pub fresh-Replays : (n : NewInvoice) → Replays (fresh log n)
  unfolding fresh into_events try_from_events build apply_all apply_event
  fresh-Replays n =
      rw (log.id-init n.id (created_event n ∷ []), log.iter_all-init n.id (created_event n ∷ []))

  run_from-Replays : (cs : List Call) (inv : Invoice log) → Replays inv → Replays (run log cs inv)
  unfolding run
  run_from-Replays [] inv h = h
  run_from-Replays (c ∷ cs) inv h =
      run_from-Replays cs (apply_call log c inv).1 (call-Replays inv h c)

  -- Whatever commands an invoice gets after its creation, rebuilding it from its log gives exactly
  -- the invoice in memory: the state, the held amount, the reason of a cancellation, every other
  -- field and the log itself.
  pub invoice_run-Replays :
      (n : NewInvoice) (cs : List Call)
      → let inv = run log cs (fresh log n) in try_from_events log inv.events ≡ ok inv
  invoice_run-Replays n cs = run_from-Replays cs (fresh log n) (fresh-Replays n)
