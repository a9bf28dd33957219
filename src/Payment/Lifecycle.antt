-- ===== src/Payment/Lifecycle.antt =====
-- The commands of src/payment/entity.rs as one type, run one after another, and the life of a
-- payment as a small state machine, which `Refinement` shows the commands to follow.
use blink_lightning_gateway.Base.{
  ℕ, ◌+◌, ◌≡◌, Bool, true, false, Option, none, some, List, [], ◌∷◌, String, Result, ok, err,
  length, any, if◌then◌else◌,
}
use blink_lightning_gateway.EventLog.{Idempotent, executed, already_applied}
use blink_lightning_gateway.Primitives.Amount.{MilliSatoshi}
use blink_lightning_gateway.Primitives.Hex.{Preimage}
use blink_lightning_gateway.Primitives.Types.{Timestamp}
use blink_lightning_gateway.Payment.Event.{
  FailureReason, Hop, PaymentState, PaymentError, invalid_state_transition, is_pending,
  is_completed, is_failed, is_reversed,
}
use blink_lightning_gateway.Payment.Entity.{
  PaymentLog, Payment, NewPayment, Command, into_events, mark_pending, settle, fail, reverse,
}

pub data Call : Type 0 where
  marks_pending : Timestamp → Call
  settles : Preimage → MilliSatoshi → List Hop → Timestamp → Call
  fails : FailureReason → Timestamp → Call
  reverses : String → Timestamp → Call

module _ (log : PaymentLog) where
  unfoldable pub apply_call : Call → Payment log → Command log
  apply_call (marks_pending t) p = mark_pending log t p
  apply_call (settles pre fee hops t) p = settle log pre fee hops t p
  apply_call (fails r t) p = fail log r t p
  apply_call (reverses r t) p = reverse log r t p

  -- The results are dropped: a command that fails leaves the payment as it was.
  unfoldable pub run : List Call → Payment log → Payment log
  run [] p = p
  run (c ∷ cs) p = run cs (apply_call c p).1

  -- The payment that `create` returns for a new one.
  unfoldable pub fresh : NewPayment → Payment log
  fresh n = record {
    id = n.id;
    payment_hash = n.payment_hash;
    wallet_id = n.wallet_id;
    amount_msat = n.amount_msat;
    max_fee_msat = n.max_fee_msat;
    state = PaymentState.initiated;
    fees_paid_msat = none;
    payment_preimage = none;
    initiated_at = n.initiated_at;
    settled_at = none;
    events = into_events log n;
  }

-- The proof of payment, the fees and the time that a settlement records.
pub record Receipt : Type 0 where
  pub preimage : Preimage
  pub fees : MilliSatoshi
  pub time : Timestamp

-- Where a payment stands. The Boolean says whether it passed through `Pending`.
pub data Status : Type 0 where
  intended sent : Status
  paid : Bool → Receipt → Status
  lost : Bool → Status
  undone : Bool → Receipt → Status

abbrev pub state_of : Status → PaymentState
state_of intended = PaymentState.initiated
state_of sent = PaymentState.pending
state_of (paid b r) = PaymentState.completed
state_of (lost b) = PaymentState.failed
state_of (undone b r) = PaymentState.reversed

abbrev pub receipt_of : Status → Option Receipt
receipt_of (paid b r) = some r
receipt_of (undone b r) = some r
receipt_of _ = none

-- Which events the log has, and how many.
abbrev pub was_pending : Status → Bool
was_pending intended = false
was_pending sent = true
was_pending (paid b r) = b
was_pending (lost b) = b
was_pending (undone b r) = b

abbrev pub was_completed : Status → Bool
was_completed (paid b r) = true
was_completed (undone b r) = true
was_completed _ = false

abbrev pub was_failed : Status → Bool
was_failed (lost b) = true
was_failed _ = false

abbrev pub was_reversed : Status → Bool
was_reversed (undone b r) = true
was_reversed _ = false

abbrev one_if : Bool → ℕ
one_if b = if b then 1 else 0

abbrev pub events_of : Status → ℕ
events_of intended = 1
events_of sent = 2
events_of (paid b r) = 2 + one_if b
events_of (lost b) = 2 + one_if b
events_of (undone b r) = 3 + one_if b

abbrev refused : PaymentState → String → Result PaymentError Idempotent
refused from attempted = err (invalid_state_transition from attempted)

abbrev pub receipt : Preimage → MilliSatoshi → Timestamp → Receipt
receipt pre fee t = record { preimage = pre; fees = fee; time = t }

-- The answer to a command, and the status after it.
unfoldable pub next : Status → Call → Result PaymentError Idempotent × Status
next intended (marks_pending t) = (ok executed, sent)
next intended (settles pre fee hops t) = (ok executed, paid false (receipt pre fee t))
next intended (fails r t) = (ok executed, lost false)
next intended (reverses r t) = (refused PaymentState.initiated "reverse", intended)
next sent (marks_pending t) = (ok already_applied, sent)
next sent (settles pre fee hops t) = (ok executed, paid true (receipt pre fee t))
next sent (fails r t) = (ok executed, lost true)
next sent (reverses r t) = (refused PaymentState.pending "reverse", sent)
next (paid b q) (marks_pending t) = (refused PaymentState.completed "mark_pending", paid b q)
next (paid b q) (settles pre fee hops t) = (ok already_applied, paid b q)
next (paid b q) (fails r t) = (refused PaymentState.completed "fail", paid b q)
next (paid b q) (reverses r t) = (ok executed, undone b q)
next (lost b) (marks_pending t) = (refused PaymentState.failed "mark_pending", lost b)
next (lost b) (settles pre fee hops t) = (refused PaymentState.failed "settle", lost b)
next (lost b) (fails r t) = (ok already_applied, lost b)
next (lost b) (reverses r t) = (refused PaymentState.failed "reverse", lost b)
next (undone b q) (marks_pending t) = (refused PaymentState.reversed "mark_pending", undone b q)
next (undone b q) (settles pre fee hops t) = (ok already_applied, undone b q)
next (undone b q) (fails r t) = (refused PaymentState.reversed "fail", undone b q)
next (undone b q) (reverses r t) = (ok already_applied, undone b q)

unfoldable pub run_status : List Call → Status → Status
run_status [] s = s
run_status (c ∷ cs) s = run_status cs (next s c).1

abbrev pub fees_of : Option Receipt → Option MilliSatoshi
fees_of none = none
fees_of (some r) = some r.fees

abbrev pub preimage_of : Option Receipt → Option Preimage
preimage_of none = none
preimage_of (some r) = some r.preimage

abbrev pub time_of : Option Receipt → Option Timestamp
time_of none = none
time_of (some r) = some r.time

-- The payment stands where the status says, in its fields and in its log.
pub record Shows (log : PaymentLog) (s : Status) (p : Payment log) : Type 0 where
  pub state : p.state ≡ state_of s
  pub fees : p.fees_paid_msat ≡ fees_of (receipt_of s)
  pub preimage : p.payment_preimage ≡ preimage_of (receipt_of s)
  pub time : p.settled_at ≡ time_of (receipt_of s)
  pub pending : any is_pending (log.iter_all p.events) ≡ was_pending s
  pub completed : any is_completed (log.iter_all p.events) ≡ was_completed s
  pub failed : any is_failed (log.iter_all p.events) ≡ was_failed s
  pub reversed : any is_reversed (log.iter_all p.events) ≡ was_reversed s
  pub count : length (log.iter_all p.events) ≡ events_of s
