-- ===== src/Payment/Outcomes.antt =====
-- What a payment can come to, after any commands in any order.
use blink_lightning_gateway.Base.{
  preceded, ◌≤◌, ◌≡◌, ◌≢◌, refl, sym, ap, ◌∙◌, Bool, true, false, ◌&&◌, some, List, [], ◌∷◌, ◌++◌,
  ok, arith, length, any,
}
use blink_lightning_gateway.EventLog.{executed, already_applied}
use blink_lightning_gateway.Primitives.Amount.{MilliSatoshi}
use blink_lightning_gateway.Primitives.Hex.{Preimage}
use blink_lightning_gateway.Primitives.Types.{Timestamp}
use blink_lightning_gateway.Payment.Event.{
  Hop, PaymentEvent, PaymentState, is_pending, is_completed, is_failed, is_reversed,
}
use blink_lightning_gateway.Payment.Entity.{
  PaymentLog, Payment, NewPayment, mark_pending, settle, fail, reverse,
}
use blink_lightning_gateway.Payment.Lifecycle.{
  paid, undone, Call, marks_pending, settles, fails, reverses, apply_call, run, fresh, Status,
  intended, lost, Receipt, receipt_of, next, run_status, Shows,
}
use blink_lightning_gateway.Payment.Order.{IsPaidFirst, payment_run-IsPaidFirst}
use blink_lightning_gateway.Payment.Refinement.{run_from-Shows, payment_call-Follows, run-Shows}

-- A log that tells one story.
abbrev pub Exclusive : List PaymentEvent → Type 0
Exclusive es =
    ((any is_completed es && any is_failed es) ≡ false)
    × ((any is_failed es && any is_reversed es) ≡ false)
    × (preceded is_completed is_reversed es ≡ true)
    × (length es ≤ 4)

any_last :
    (p : PaymentEvent → Bool) (es : List PaymentEvent) (e : PaymentEvent)
    → p e ≡ true
    → any p (es ++ e ∷ []) ≡ true
any_last p [] e h = ground arith
any_last p (x ∷ es) e h = ground (arith, any_last p es e h)

module _ (log : PaymentLog) where
  guard_again :
      (q : Payment log) (e : PaymentEvent) (p : PaymentEvent → Bool)
      → p e ≡ true
      → log.already_applied (log.push q.events e) p ≡ true
  guard_again q e p h =
      log.already_applied-any (log.push q.events e) p
      ∙ ap (any p) (log.iter_all-push q.events e)
      ∙ any_last p (log.iter_all q.events) e h

  Shows-Exclusive :
      (s : Status) (p : Payment log)
      → Shows log s p
      → IsPaidFirst log p
      → Exclusive (log.iter_all p.events)
  Shows-Exclusive s p h k = ground arith

  -- After any commands: the log of a payment never has both a completion and a failure, never both a
  -- failure and a reversal, has a completion before each reversal, and has at most four events.
  pub payment_run-Exclusive :
      (n : NewPayment) (cs : List Call) → Exclusive (log.iter_all (run log cs (fresh log n)).events)
  payment_run-Exclusive n cs =
      Shows-Exclusive (run_status cs intended) (run log cs (fresh log n)) (run-Shows log n cs)
        (payment_run-IsPaidFirst log n cs)

  -- A command that is not executed changes nothing.
  pub apply_call_unchanged :
      (c : Call) (p : Payment log)
      → (apply_call log c p).0 ≢ ok executed
      → (apply_call log c p).1 ≡ p
  unfolding apply_call mark_pending settle fail reverse
  apply_call_unchanged (marks_pending t) p h = ground arith
  apply_call_unchanged (settles pre fee hops t) p h = ground arith
  apply_call_unchanged (fails r t) p h = ground arith
  apply_call_unchanged (reverses r t) p h = ground arith

  lost_refuses :
      (b : Bool) (c : Call) → ((next (lost b) c).0 ≢ ok executed) × ((next (lost b) c).1 ≡ lost b)
  unfolding next
  lost_refuses b c = ground arith

  run_lost : (ds : List Call) (b : Bool) (p : Payment log) → Shows log (lost b) p → run log ds p ≡ p
  unfolding run
  run_lost [] b p h = refl
  run_lost (d ∷ ds) b p h =
      let same : (apply_call log d p).1 ≡ p =
        apply_call_unchanged d p
          (λ e. (lost_refuses b d).0 (sym (payment_call-Follows log (lost b) p d h).0 ∙ e)) in
      rw same (run_lost ds b p h)

  lost_of_state :
      (s : Status) (p : Payment log)
      → Shows log s p
      → p.state ≡ PaymentState.failed
      → (b : Bool) × (s ≡ lost b)
  lost_of_state (lost b) p h f = (b, refl)
  lost_of_state _ p h f = absurd (ground arith)

  -- Failure is final: a payment that some commands have failed is not changed in any field, nor in
  -- its log, by any further commands; in particular a late success cannot overwrite it.
  pub run_failed :
      (n : NewPayment) (cs ds : List Call)
      → (run log cs (fresh log n)).state ≡ PaymentState.failed
      → run log ds (run log cs (fresh log n)) ≡ run log cs (fresh log n)
  run_failed n cs ds f =
      let h = run-Shows log n cs in
      let (b, e) = lost_of_state (run_status cs intended) (run log cs (fresh log n)) h f in
      run_lost ds b (run log cs (fresh log n)) (rw e at h)

  receipt_kept :
      (s : Status) (c : Call) (q : Receipt)
      → receipt_of s ≡ some q
      → receipt_of (next s c).1 ≡ some q
  unfolding next
  receipt_kept s c q e = ground arith

  run_status_receipt :
      (ds : List Call) (s : Status) (q : Receipt)
      → receipt_of s ≡ some q
      → receipt_of (run_status ds s) ≡ some q
  unfolding run_status
  run_status_receipt [] s q e = e
  run_status_receipt (d ∷ ds) s q e = run_status_receipt ds (next s d).1 q (receipt_kept s d q e)

  receipt_shown :
      (s : Status) (ds : List Call) (p p' : Payment log) (t : Timestamp)
      → Shows log s p
      → Shows log (run_status ds s) p'
      → p.settled_at ≡ some t
      → (p'.settled_at ≡ p.settled_at)
        × (p'.fees_paid_msat ≡ p.fees_paid_msat)
        × (p'.payment_preimage ≡ p.payment_preimage)
  receipt_shown (paid b q) ds p p' t h h' e =
      ground (arith, run_status_receipt ds (paid b q) q refl)
  receipt_shown (undone b q) ds p p' t h h' e =
      ground (arith, run_status_receipt ds (undone b q) q refl)
  receipt_shown _ ds p p' t h h' e = absurd (ground arith)

  -- The receipt is final: once some commands have settled a payment, no further commands, a reversal
  -- and a second settlement included, change its preimage, its fees or its settlement time.
  pub run_receipt :
      (n : NewPayment) (cs ds : List Call) (t : Timestamp)
      → let p = run log cs (fresh log n) in
        let p' = run log ds p in
        p.settled_at ≡ some t
        → (p'.settled_at ≡ p.settled_at)
          × (p'.fees_paid_msat ≡ p.fees_paid_msat)
          × (p'.payment_preimage ≡ p.payment_preimage)
  run_receipt n cs ds t e =
      let s = run_status cs intended in
      let p = run log cs (fresh log n) in
      let h = run-Shows log n cs in
      receipt_shown s ds p (run log ds p) t h (run_from-Shows log ds s p h) e

  reversed_answers :
      (s : Status) (p : Payment log) (pre : Preimage) (fee : MilliSatoshi) (hops : List Hop)
      (t : Timestamp)
      → Shows log s p
      → p.state ≡ PaymentState.reversed
      → settle log pre fee hops t p ≡ (ok already_applied, p)
  unfolding settle
  reversed_answers s p pre fee hops t h f =
      ground (arith, log.already_applied-any p.events is_completed)

  -- A success reported for a payment that was reversed is answered as already applied, and not, as
  -- the comment on `settle` says, as an invalid state transition.
  pub run_reversed-settle :
      (n : NewPayment) (cs : List Call) (pre : Preimage) (fee : MilliSatoshi) (hops : List Hop)
      (t : Timestamp)
      → let p = run log cs (fresh log n) in
        p.state ≡ PaymentState.reversed → settle log pre fee hops t p ≡ (ok already_applied, p)
  run_reversed-settle n cs pre fee hops t f =
      reversed_answers (run_status cs intended) (run log cs (fresh log n)) pre fee hops t
        (run-Shows log n cs) f

  pending_again :
      (t t' : Timestamp) (p : Payment log)
      → (mark_pending log t p).0 ≡ ok executed
      → mark_pending log t' (mark_pending log t p).1
        ≡ (ok already_applied, (mark_pending log t p).1)
  unfolding mark_pending
  pending_again t t' p h = ground (arith, guard_again p (PaymentEvent.pending t) is_pending)

  -- Replays are harmless: a command that was executed, given again, is answered `already_applied` and
  -- changes nothing.
  pub payment_call_again :
      (c : Call) (p : Payment log)
      → (apply_call log c p).0 ≡ ok executed
      → apply_call log c (apply_call log c p).1 ≡ (ok already_applied, (apply_call log c p).1)
  unfolding apply_call settle fail reverse
  payment_call_again (marks_pending t) p h = pending_again t t p h
  payment_call_again (settles pre fee hops t) p h =
      ground (arith, guard_again p (PaymentEvent.completed t pre fee hops) is_completed)
  payment_call_again (fails r t) p h =
      ground (arith, guard_again p (PaymentEvent.failed t r) is_failed)
  payment_call_again (reverses r t) p h =
      ground (arith, guard_again p (PaymentEvent.reversed t r) is_reversed)
