-- ===== src/Payment/Replay.antt =====
-- The log is the truth: replaying it gives back the payment, after every command.
use blink_lightning_gateway.Base.{some, List, [], ◌∷◌, ◌≡◌, refl, String, ok, arith}
use blink_lightning_gateway.Primitives.Amount.{MilliSatoshi}
use blink_lightning_gateway.Primitives.Hex.{Preimage}
use blink_lightning_gateway.Primitives.Types.{Timestamp}
use blink_lightning_gateway.Payment.Event.{FailureReason, Hop, PaymentEvent, PaymentState}
use blink_lightning_gateway.Payment.Entity.{
  PaymentLog, Payment, NewPayment, into_events, initiated_event, mark_pending, settle, fail,
  reverse,
}
use blink_lightning_gateway.Payment.Lifecycle.{
  Call, marks_pending, settles, fails, reverses, apply_call, run, fresh,
}
use blink_lightning_gateway.Payment.Hydration.{
  PaymentBuilder, empty_builder, apply_event, apply_all, apply_all-append, build, try_from_events,
}

module _ (log : PaymentLog) where
  abbrev Replays : Payment log → Type 0
  Replays p = try_from_events log p.events ≡ ok p

  abbrev built_by : log.Events → PaymentBuilder
  built_by l = apply_all (record empty_builder { id = some (log.id l) }) (log.iter_all l)

  -- One more event in the log is one more event applied to the builder.
  try_from_events-push :
      (l : log.Events) (e : PaymentEvent)
      → try_from_events log (log.push l e) ≡ build log (apply_event (built_by l) e) (log.push l e)
  unfolding try_from_events apply_all
  try_from_events-push l e = rw (log.id-push l e, log.iter_all-push l e, apply_all-append) refl

  module _ (b : PaymentBuilder) (l l' : log.Events) (p : Payment log)
      (h : build log b l ≡ ok p) where
    build_pending :
        (t : Timestamp)
        → build log (apply_event b (PaymentEvent.pending t)) l'
          ≡ ok (record p { events = l'; state = PaymentState.pending })
    unfolding build apply_event
    build_pending t = ground arith

    build_completed :
        (t : Timestamp) (pre : Preimage) (fee : MilliSatoshi) (hops : List Hop)
        → build log (apply_event b (PaymentEvent.completed t pre fee hops)) l'
          ≡ ok (record p {
            events = l';
            state = PaymentState.completed;
            fees_paid_msat = some fee;
            payment_preimage = some pre;
            settled_at = some t;
          })
    unfolding build apply_event
    build_completed t pre fee hops = ground arith

    build_failed :
        (t : Timestamp) (r : FailureReason)
        → build log (apply_event b (PaymentEvent.failed t r)) l'
          ≡ ok (record p { events = l'; state = PaymentState.failed })
    unfolding build apply_event
    build_failed t r = ground arith

    build_reversed :
        (t : Timestamp) (r : String)
        → build log (apply_event b (PaymentEvent.reversed t r)) l'
          ≡ ok (record p { events = l'; state = PaymentState.reversed })
    unfolding build apply_event
    build_reversed t r = ground arith

  Replays-build : (p : Payment log) → Replays p → build log (built_by p.events) p.events ≡ ok p
  unfolding try_from_events
  Replays-build p h = h

  module _ (p : Payment log) (h : Replays p) where
    mark_pending-Replays : (t : Timestamp) → Replays (mark_pending log t p).1
    unfolding mark_pending
    mark_pending-Replays t = ground (
      arith,
      try_from_events-push p.events (PaymentEvent.pending t),
      build_pending (built_by p.events) p.events (log.push p.events (PaymentEvent.pending t)) p
          (Replays-build p h) t,
    )

    settle-Replays :
        (pre : Preimage) (fee : MilliSatoshi) (hops : List Hop) (t : Timestamp)
        → Replays (settle log pre fee hops t p).1
    unfolding settle
    settle-Replays pre fee hops t = ground (
      arith,
      try_from_events-push p.events (PaymentEvent.completed t pre fee hops),
      build_completed (built_by p.events) p.events
          (log.push p.events (PaymentEvent.completed t pre fee hops)) p (Replays-build p h) t pre
          fee hops,
    )

    fail-Replays : (r : FailureReason) (t : Timestamp) → Replays (fail log r t p).1
    unfolding fail
    fail-Replays r t = ground (
      arith,
      try_from_events-push p.events (PaymentEvent.failed t r),
      build_failed (built_by p.events) p.events (log.push p.events (PaymentEvent.failed t r)) p
          (Replays-build p h) t r,
    )

    reverse-Replays : (r : String) (t : Timestamp) → Replays (reverse log r t p).1
    unfolding reverse
    reverse-Replays r t = ground (
      arith,
      try_from_events-push p.events (PaymentEvent.reversed t r),
      build_reversed (built_by p.events) p.events (log.push p.events (PaymentEvent.reversed t r)) p
          (Replays-build p h) t r,
    )

    call-Replays : (c : Call) → Replays (apply_call log c p).1
    unfolding apply_call
    call-Replays (marks_pending t) = mark_pending-Replays t
    call-Replays (settles pre fee hops t) = settle-Replays pre fee hops t
    call-Replays (fails r t) = fail-Replays r t
    call-Replays (reverses r t) = reverse-Replays r t

  fresh-Replays : (n : NewPayment) → Replays (fresh log n)
  unfolding fresh into_events try_from_events build apply_all apply_event
  fresh-Replays n =
      rw
        (log.id-init n.id (initiated_event n ∷ []), log.iter_all-init n.id (initiated_event n ∷ []))

  run_from-Replays : (cs : List Call) (p : Payment log) → Replays p → Replays (run log cs p)
  unfolding run
  run_from-Replays [] p h = h
  run_from-Replays (c ∷ cs) p h = run_from-Replays cs (apply_call log c p).1 (call-Replays p h c)

  -- Whatever commands a payment gets after its creation, rebuilding it from its log gives exactly the
  -- payment in memory: the state, the fees, the preimage, the settlement time, every other field and
  -- the log itself.
  pub payment_run-Replays :
      (n : NewPayment) (cs : List Call)
      → let p = run log cs (fresh log n) in try_from_events log p.events ≡ ok p
  payment_run-Replays n cs = run_from-Replays cs (fresh log n) (fresh-Replays n)
