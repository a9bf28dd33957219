-- ===== src/Invoice/Lifecycle.antt =====
-- The commands of src/invoice/entity.rs as one type, run one after another, and the life of an
-- invoice as a small state machine, which `Refinement` shows the commands to follow.
use blink_lightning_gateway.Base.{
  ℕ, ◌≡◌, Bool, true, false, Option, none, some, List, [], ◌∷◌, String, Result, ok, err, length,
  any,
}
use blink_lightning_gateway.EventLog.{Idempotent, executed, already_applied}
use blink_lightning_gateway.Primitives.Amount.{MilliSatoshi}
use blink_lightning_gateway.Primitives.Types.{Timestamp}
use blink_lightning_gateway.Invoice.Event.{
  CancelReason, InvoiceState, open_, held, settled, canceled, InvoiceError,
  invalid_state_transition, is_htlc_held, is_settled, is_settled_intraledger, is_canceled,
}
use blink_lightning_gateway.Invoice.Entity.{
  InvoiceLog, Invoice, NewInvoice, Command, into_events, mark_held, settle, settle_intraledger,
  cancel,
}

pub data Call : Type 0 where
  marks_held : MilliSatoshi → Timestamp → Call
  settles settles_intraledger : Timestamp → Call
  cancels : CancelReason → Timestamp → Call

module _ (log : InvoiceLog) where
  unfoldable pub apply_call : Call → Invoice log → Command log
  apply_call (marks_held a t) inv = mark_held log a t inv
  apply_call (settles t) inv = settle log t inv
  apply_call (settles_intraledger t) inv = settle_intraledger log t inv
  apply_call (cancels r t) inv = cancel log r t inv

  -- The results are dropped: a command that fails leaves the invoice as it was.
  unfoldable pub run : List Call → Invoice log → Invoice log
  run [] inv = inv
  run (c ∷ cs) inv = run cs (apply_call c inv).1

  -- The invoice that `create` returns for a new one.
  unfoldable pub fresh : NewInvoice → Invoice log
  fresh n = record {
    id = n.id;
    payment_hash = n.payment_hash;
    payment_preimage = n.payment_preimage;
    wallet_id = n.wallet_id;
    amount_msat = n.amount_msat;
    expiry_at = n.expiry_at;
    bolt_invoice = n.bolt_invoice;
    external_id = n.external_id;
    state = open_;
    created_at = n.created_at;
    held_amount_msat = none;
    canceled_reason = none;
    events = into_events log n;
  }

-- Where an invoice stands: `parked` holds the amount of its HTLC, `paid` was settled from there,
-- `paid_intraledger` was settled by a transfer, and the last two were canceled before and after an
-- HTLC was parked.
pub data Status : Type 0 where
  issued : Status
  parked : MilliSatoshi → Status
  paid : MilliSatoshi → Status
  paid_intraledger : Status
  dropped : CancelReason → Status
  returned : MilliSatoshi → CancelReason → Status

abbrev pub state_of : Status → InvoiceState
state_of issued = open_
state_of (parked a) = held
state_of (paid a) = settled
state_of paid_intraledger = settled
state_of (dropped r) = canceled
state_of (returned a r) = canceled

abbrev pub held_of : Status → Option MilliSatoshi
held_of (parked a) = some a
held_of (paid a) = some a
held_of (returned a r) = some a
held_of _ = none

abbrev pub reason_of : Status → Option CancelReason
reason_of (dropped r) = some r
reason_of (returned a r) = some r
reason_of _ = none

-- Which events the log has, and how many.
abbrev pub had_htlc : Status → Bool
had_htlc (parked a) = true
had_htlc (paid a) = true
had_htlc (returned a r) = true
had_htlc _ = false

abbrev pub was_settled : Status → Bool
was_settled (paid a) = true
was_settled _ = false

abbrev pub was_settled_intraledger : Status → Bool
was_settled_intraledger paid_intraledger = true
was_settled_intraledger _ = false

abbrev pub was_canceled : Status → Bool
was_canceled (dropped r) = true
was_canceled (returned a r) = true
was_canceled _ = false

abbrev pub events_of : Status → ℕ
events_of issued = 1
events_of (parked a) = 2
events_of (paid a) = 3
events_of paid_intraledger = 2
events_of (dropped r) = 2
events_of (returned a r) = 3

abbrev refused : InvoiceState → String → Result InvoiceError Idempotent
refused from attempted = err (invalid_state_transition from attempted)

-- The answer to a command, and the status after it.
unfoldable pub next : Status → Call → Result InvoiceError Idempotent × Status
next issued (marks_held a t) = (ok executed, parked a)
next issued (settles t) = (refused open_ "settle", issued)
next issued (settles_intraledger t) = (ok executed, paid_intraledger)
next issued (cancels r t) = (ok executed, dropped r)
next (parked a) (marks_held _ t) = (ok already_applied, parked a)
next (parked a) (settles t) = (ok executed, paid a)
next (parked a) (settles_intraledger t) = (refused held "settle_intraledger", parked a)
next (parked a) (cancels r t) = (ok executed, returned a r)
next (paid a) (marks_held _ t) = (ok already_applied, paid a)
next (paid a) (settles t) = (ok already_applied, paid a)
next (paid a) (settles_intraledger t) = (refused settled "settle_intraledger", paid a)
next (paid a) (cancels r t) = (refused settled "cancel", paid a)
next paid_intraledger (marks_held _ t) = (refused settled "mark_held", paid_intraledger)
next paid_intraledger (settles t) = (refused settled "settle", paid_intraledger)
next paid_intraledger (settles_intraledger t) = (ok already_applied, paid_intraledger)
next paid_intraledger (cancels r t) = (refused settled "cancel", paid_intraledger)
next (dropped r) (marks_held _ t) = (refused canceled "mark_held", dropped r)
next (dropped r) (settles t) = (refused canceled "settle", dropped r)
next (dropped r) (settles_intraledger t) = (refused canceled "settle_intraledger", dropped r)
next (dropped r) (cancels _ t) = (ok already_applied, dropped r)
next (returned a r) (marks_held _ t) = (ok already_applied, returned a r)
next (returned a r) (settles t) = (refused canceled "settle", returned a r)
next (returned a r) (settles_intraledger t) = (refused canceled "settle_intraledger", returned a r)
next (returned a r) (cancels _ t) = (ok already_applied, returned a r)

unfoldable pub run_status : List Call → Status → Status
run_status [] s = s
run_status (c ∷ cs) s = run_status cs (next s c).1

-- The invoice stands where the status says, in its fields and in its log.
pub record Shows (log : InvoiceLog) (s : Status) (inv : Invoice log) : Type 0 where
  pub state : inv.state ≡ state_of s
  pub held_amount : inv.held_amount_msat ≡ held_of s
  pub reason : inv.canceled_reason ≡ reason_of s
  pub htlc : any is_htlc_held (log.iter_all inv.events) ≡ had_htlc s
  pub settle : any is_settled (log.iter_all inv.events) ≡ was_settled s
  pub intraledger : any is_settled_intraledger (log.iter_all inv.events) ≡ was_settled_intraledger s
  pub cancel : any is_canceled (log.iter_all inv.events) ≡ was_canceled s
  pub count : length (log.iter_all inv.events) ≡ events_of s
