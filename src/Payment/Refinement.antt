-- ===== src/Payment/Refinement.antt =====
-- The commands of a payment follow its state machine.
use blink_lightning_gateway.Base.{
  ◌+◌, ◌≡◌, Bool, ◌||◌, List, [], ◌∷◌, String, arith, length, any, length-append, any-append,
}
use blink_lightning_gateway.Primitives.Amount.{MilliSatoshi}
use blink_lightning_gateway.Primitives.Hex.{Preimage}
use blink_lightning_gateway.Primitives.Types.{Timestamp}
use blink_lightning_gateway.Payment.Event.{
  FailureReason, Hop, PaymentEvent, is_pending, is_completed, is_failed, is_reversed,
}
use blink_lightning_gateway.Payment.Entity.{
  PaymentLog, Payment, NewPayment, into_events, initiated_event, mark_pending, settle, fail,
  reverse,
}
use blink_lightning_gateway.Payment.Lifecycle.{
  Call, marks_pending, settles, fails, reverses, apply_call, run, fresh, Status, intended, sent,
  paid, next, run_status, Shows,
}

module _ (log : PaymentLog) where
  pub fresh-Shows : (n : NewPayment) → Shows log intended (fresh log n)
  unfolding fresh into_events
  fresh-Shows n = ground (arith, log.iter_all-init n.id (initiated_event n ∷ []))

  any-push :
      (l : log.Events) (e : PaymentEvent) (p : PaymentEvent → Bool)
      → any p (log.iter_all (log.push l e)) ≡ (any p (log.iter_all l) || any p (e ∷ []))
  any-push l e p = rw (log.iter_all-push l e) (any-append p (log.iter_all l) (e ∷ []))

  -- What one more event does to the tests on the log, and to its length.
  record Grown (l : log.Events) (e : PaymentEvent) : Type 0 where
    pending :
        any is_pending (log.iter_all (log.push l e))
        ≡ (any is_pending (log.iter_all l) || any is_pending (e ∷ []))
    completed :
        any is_completed (log.iter_all (log.push l e))
        ≡ (any is_completed (log.iter_all l) || any is_completed (e ∷ []))
    failed :
        any is_failed (log.iter_all (log.push l e))
        ≡ (any is_failed (log.iter_all l) || any is_failed (e ∷ []))
    reversed :
        any is_reversed (log.iter_all (log.push l e))
        ≡ (any is_reversed (log.iter_all l) || any is_reversed (e ∷ []))
    count : length (log.iter_all (log.push l e)) ≡ length (log.iter_all l) + 1

  push-Grown : (l : log.Events) (e : PaymentEvent) → Grown l e
  push-Grown l e = record {
    pending = any-push l e is_pending;
    completed = any-push l e is_completed;
    failed = any-push l e is_failed;
    reversed = any-push l e is_reversed;
    count = rw (log.iter_all-push l e) (length-append (log.iter_all l) (e ∷ []));
  }

  abbrev Follows : Status → Call → Payment log → Type 0
  Follows s c p =
      ((apply_call log c p).0 ≡ (next s c).0) × Shows log (next s c).1 (apply_call log c p).1

  mark_pending-Follows :
      (s : Status) (p : Payment log) (t : Timestamp) → Shows log s p → Follows s (marks_pending t) p
  unfolding apply_call mark_pending next
  mark_pending-Follows intended p t h = ground (arith, push-Grown p.events (PaymentEvent.pending t))
  mark_pending-Follows _ p t h = ground (arith, log.already_applied-any p.events is_pending)

  settle-Follows :
      (s : Status) (p : Payment log) (pre : Preimage) (fee : MilliSatoshi) (hops : List Hop)
      (t : Timestamp)
      → Shows log s p
      → Follows s (settles pre fee hops t) p
  unfolding apply_call settle next
  settle-Follows intended p pre fee hops t h = ground (
    arith,
    log.already_applied-any p.events is_completed,
    push-Grown p.events (PaymentEvent.completed t pre fee hops),
  )
  settle-Follows sent p pre fee hops t h = ground (
    arith,
    log.already_applied-any p.events is_completed,
    push-Grown p.events (PaymentEvent.completed t pre fee hops),
  )
  settle-Follows _ p pre fee hops t h =
      ground (arith, log.already_applied-any p.events is_completed)

  fail-Follows :
      (s : Status) (p : Payment log) (r : FailureReason) (t : Timestamp)
      → Shows log s p
      → Follows s (fails r t) p
  unfolding apply_call fail next
  fail-Follows intended p r t h = ground (
    arith,
    log.already_applied-any p.events is_failed,
    push-Grown p.events (PaymentEvent.failed t r),
  )
  fail-Follows sent p r t h = ground (
    arith,
    log.already_applied-any p.events is_failed,
    push-Grown p.events (PaymentEvent.failed t r),
  )
  fail-Follows _ p r t h = ground (arith, log.already_applied-any p.events is_failed)

  reverse-Follows :
      (s : Status) (p : Payment log) (r : String) (t : Timestamp)
      → Shows log s p
      → Follows s (reverses r t) p
  unfolding apply_call reverse next
  reverse-Follows (paid b q) p r t h = ground (
    arith,
    log.already_applied-any p.events is_reversed,
    push-Grown p.events (PaymentEvent.reversed t r),
  )
  reverse-Follows _ p r t h = ground (arith, log.already_applied-any p.events is_reversed)

  -- On a payment that stands where a status says, every command gives the answer of the state
  -- machine `next` (executed, already applied, or the refusal that names the state and the command),
  -- and leaves a payment that stands where `next` says, in its fields and in its log.
  pub payment_call-Follows :
      (s : Status) (p : Payment log) (c : Call)
      → Shows log s p
      → ((apply_call log c p).0 ≡ (next s c).0) × Shows log (next s c).1 (apply_call log c p).1
  payment_call-Follows s p (marks_pending t) h = mark_pending-Follows s p t h
  payment_call-Follows s p (settles pre fee hops t) h = settle-Follows s p pre fee hops t h
  payment_call-Follows s p (fails r t) h = fail-Follows s p r t h
  payment_call-Follows s p (reverses r t) h = reverse-Follows s p r t h

  pub run_from-Shows :
      (cs : List Call) (s : Status) (p : Payment log)
      → Shows log s p
      → Shows log (run_status cs s) (run log cs p)
  unfolding run run_status
  run_from-Shows [] s p h = h
  run_from-Shows (c ∷ cs) s p h =
      run_from-Shows cs (next s c).1 (apply_call log c p).1 (payment_call-Follows s p c h).1

  -- The machine's view of a new payment after any commands.
  pub run-Shows :
      (n : NewPayment) (cs : List Call)
      → Shows log (run_status cs intended) (run log cs (fresh log n))
  run-Shows n cs = run_from-Shows cs intended (fresh log n) (fresh-Shows n)
