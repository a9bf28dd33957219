-- ===== src/Payment/Order.antt =====
-- The order of the events in the log of a payment.
use blink_lightning_gateway.Base.{
  ◌≡◌, refl, true, not, ◌||◌, List, [], ◌∷◌, arith, any, preceded, preceded-append,
}
use blink_lightning_gateway.Payment.Event.{PaymentEvent, is_completed, is_reversed}
use blink_lightning_gateway.Payment.Entity.{
  PaymentLog, Payment, NewPayment, mark_pending, settle, fail, reverse, into_events,
  initiated_event,
}
use blink_lightning_gateway.Payment.Lifecycle.{
  Call, marks_pending, settles, fails, reverses, apply_call, run, fresh, Status, intended, next,
  Shows,
}
use blink_lightning_gateway.Payment.Refinement.{payment_call-Follows, fresh-Shows}

module _ (log : PaymentLog) where
  -- Every reversal comes after a completion.
  abbrev pub IsPaidFirst : Payment log → Type 0
  IsPaidFirst p = preceded is_completed is_reversed (log.iter_all p.events) ≡ true

  push-preceded :
      (l : log.Events) (e : PaymentEvent)
      → preceded is_completed is_reversed (log.iter_all l) ≡ true
      → (not (is_reversed e) || any is_completed (log.iter_all l)) ≡ true
      → preceded is_completed is_reversed (log.iter_all (log.push l e)) ≡ true
  push-preceded l e h k =
      rw (log.iter_all-push l e) (preceded-append is_completed is_reversed (log.iter_all l) e h k)

  apply_call-IsPaidFirst :
      (c : Call) (s : Status) (p : Payment log)
      → Shows log s p
      → IsPaidFirst p
      → IsPaidFirst (apply_call log c p).1
  unfolding apply_call mark_pending settle fail reverse
  apply_call-IsPaidFirst (marks_pending t) s p h k =
      ground (arith, k, push-preceded p.events (PaymentEvent.pending t) k)
  apply_call-IsPaidFirst (settles pre fee hops t) s p h k =
      ground (arith, k, push-preceded p.events (PaymentEvent.completed t pre fee hops) k)
  apply_call-IsPaidFirst (fails r t) s p h k =
      ground (arith, k, push-preceded p.events (PaymentEvent.failed t r) k)
  apply_call-IsPaidFirst (reverses r t) s p h k =
      ground (arith, h, k, push-preceded p.events (PaymentEvent.reversed t r) k)

  run-IsPaidFirst :
      (cs : List Call) (s : Status) (p : Payment log)
      → Shows log s p
      → IsPaidFirst p
      → IsPaidFirst (run log cs p)
  unfolding run
  run-IsPaidFirst [] s p h k = k
  run-IsPaidFirst (c ∷ cs) s p h k =
      run-IsPaidFirst cs (next s c).1 (apply_call log c p).1 (payment_call-Follows log s p c h).1
        (apply_call-IsPaidFirst c s p h k)

  fresh-IsPaidFirst : (n : NewPayment) → IsPaidFirst (fresh log n)
  unfolding fresh into_events
  fresh-IsPaidFirst n = rw (log.iter_all-init n.id (initiated_event n ∷ [])) refl

  pub payment_run-IsPaidFirst :
      (n : NewPayment) (cs : List Call) → IsPaidFirst (run log cs (fresh log n))
  payment_run-IsPaidFirst n cs =
      run-IsPaidFirst cs intended (fresh log n) (fresh-Shows log n) (fresh-IsPaidFirst n)
