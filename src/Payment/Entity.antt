-- ===== src/Payment/Entity.antt =====
-- src/payment/entity.rs: the two constructors and the commands of a payment. A command takes
-- `&mut self`: it returns its result and the payment that it leaves.
use blink_lightning_gateway.Base.{
  Bool, true, false, not, Option, none, some, List, [], ◌∷◌, String, Result, ok, err, ◌==◌,
  if◌then◌else◌,
}
use blink_lightning_gateway.EventLog.{EventLog, Idempotent, executed, already_applied}
use blink_lightning_gateway.Primitives.Amount.{MilliSatoshi}
use blink_lightning_gateway.Primitives.Hex.{PaymentHash, Preimage}
use blink_lightning_gateway.Primitives.Types.{PaymentId, WalletId, BoltInvoice, Timestamp, is_empty}
use blink_lightning_gateway.Payment.Event.{
  FailureReason, Hop, PaymentEvent, PaymentState, is_pending, is_completed, is_failed, is_reversed,
  PaymentError, invalid_amount, amount_required, amount_overspecified, amount_mismatch,
  invalid_max_fee, empty_bolt_invoice, invalid_state_transition,
}

pub record DecodedInvoice : Type 0 where
  pub payment_hash : PaymentHash
  pub destination : String
  pub amount_msat : Option MilliSatoshi
  pub bolt_invoice : BoltInvoice

pub record NewPayment : Type 0 where
  pub id : PaymentId
  pub payment_hash : PaymentHash
  pub wallet_id : WalletId
  pub amount_msat : MilliSatoshi
  pub max_fee_msat : MilliSatoshi
  pub bolt_invoice : BoltInvoice
  pub destination : String
  pub initiated_at : Timestamp

infixl 5 ◌>>=◌ ◌>>◌
abbrev ◌>>=◌ {ℓ κ} :
    {A : Type ℓ} {B : Type κ}
    → Result PaymentError A
    → (A → Result PaymentError B)
    → Result PaymentError B
ok a >>= f = f a
err e >>= f = err e

abbrev ◌>>◌ {ℓ} :
    {B : Type ℓ} → Result PaymentError (Unit {0}) → Result PaymentError B → Result PaymentError B
m >> k = m >>= λ _. k

-- `if test { return Err(e) }`
abbrev refuse_if : Bool → PaymentError → Result PaymentError (Unit {0})
refuse_if test e = if test then err e else ok tt

-- The match of `try_new` on the invoice's amount and the one that the caller supplies.
unfoldable pub resolve_amount :
    Option MilliSatoshi → Option MilliSatoshi → Result PaymentError MilliSatoshi
resolve_amount (some invoice_amount) none = ok invoice_amount
resolve_amount none (some requested) = ok requested
resolve_amount (some _) (some _) = err amount_overspecified
resolve_amount none none = err amount_required

-- The match of `try_new_intraledger`, where the recipient's invoice has the last word.
unfoldable pub resolve_intraledger :
    Option MilliSatoshi → Option MilliSatoshi → Result PaymentError MilliSatoshi
resolve_intraledger (some invoice_amount) (some sender_amount) =
    if sender_amount == invoice_amount then ok invoice_amount else err amount_mismatch
resolve_intraledger (some invoice_amount) none = ok invoice_amount
resolve_intraledger none (some sender_amount) = ok sender_amount
resolve_intraledger none none = err amount_required

abbrev pub payment_of :
    PaymentId → DecodedInvoice → WalletId → MilliSatoshi → MilliSatoshi → Timestamp → NewPayment
payment_of id decoded wallet_id amount_msat max_fee_msat initiated_at = record {
  id = id;
  payment_hash = decoded.payment_hash;
  wallet_id = wallet_id;
  amount_msat = amount_msat;
  max_fee_msat = max_fee_msat;
  bolt_invoice = decoded.bolt_invoice;
  destination = decoded.destination;
  initiated_at = initiated_at;
}

-- `NewPayment::try_new`; `id` is the identifier that `PaymentId::new()` mints.
unfoldable pub try_new :
    PaymentId
    → DecodedInvoice
    → WalletId
    → Option MilliSatoshi
    → MilliSatoshi
    → Timestamp
    → Result PaymentError NewPayment
unfolding resolve_amount
try_new id decoded wallet_id requested max_fee_msat initiated_at = do
  amount_msat ← resolve_amount decoded.amount_msat requested
  refuse_if (amount_msat == 0) invalid_amount
  refuse_if (max_fee_msat == 0) invalid_max_fee
  refuse_if (is_empty decoded.bolt_invoice) empty_bolt_invoice
  ok (payment_of id decoded wallet_id amount_msat max_fee_msat initiated_at)

-- `NewPayment::try_new_intraledger`
unfoldable pub try_new_intraledger :
    PaymentId
    → DecodedInvoice
    → Option MilliSatoshi
    → WalletId
    → Timestamp
    → Result PaymentError NewPayment
unfolding resolve_intraledger
try_new_intraledger id decoded invoice_amount_msat wallet_id initiated_at = do
  amount_msat ← resolve_intraledger invoice_amount_msat decoded.amount_msat
  refuse_if (amount_msat == 0) invalid_amount
  refuse_if (is_empty decoded.bolt_invoice) empty_bolt_invoice
  ok (payment_of id decoded wallet_id amount_msat 0 initiated_at)

abbrev pub PaymentLog : Type 1
PaymentLog = EventLog PaymentId PaymentEvent

-- The `Initiated` event of a new payment.
abbrev pub initiated_event : NewPayment → PaymentEvent
initiated_event n =
    PaymentEvent.initiated n.payment_hash n.wallet_id n.amount_msat n.max_fee_msat n.bolt_invoice
      n.destination n.initiated_at

-- The state test of `settle` and `fail`: `Initiated | Pending`.
abbrev pub is_open : PaymentState → Bool
is_open PaymentState.initiated = true
is_open PaymentState.pending = true
is_open _ = false

module _ (log : PaymentLog) where
  open log use {Events, init, push}

  pub record Payment : Type 0 where
    pub id : PaymentId
    pub payment_hash : PaymentHash
    pub wallet_id : WalletId
    pub amount_msat : MilliSatoshi
    pub max_fee_msat : MilliSatoshi
    pub state : PaymentState
    pub fees_paid_msat : Option MilliSatoshi
    pub payment_preimage : Option Preimage
    pub initiated_at : Timestamp
    pub settled_at : Option Timestamp
    pub events : Events

  -- `IntoEvents`
  unfoldable pub into_events : NewPayment → Events
  into_events n = init n.id (initiated_event n ∷ [])

  abbrev pub Command : Type 0
  Command = Result PaymentError Idempotent × Payment

  abbrev refuse : Payment → String → Command
  refuse p attempted = (err (invalid_state_transition p.state attempted), p)

  abbrev push_pending : Timestamp → Payment → Command
  push_pending sent_at p = (
    ok executed,
    record p {
      events = push p.events (PaymentEvent.pending sent_at);
      state = PaymentState.pending;
    },
  )

  abbrev mark_pending_from : PaymentState → Timestamp → Payment → Command
  mark_pending_from PaymentState.initiated sent_at p = push_pending sent_at p
  mark_pending_from PaymentState.pending sent_at p =
      if log.already_applied p.events is_pending
      then (ok already_applied, p)
      else push_pending sent_at p
  mark_pending_from _ sent_at p = refuse p "mark_pending"

  unfoldable pub mark_pending : Timestamp → Payment → Command
  mark_pending sent_at p = mark_pending_from p.state sent_at p

  unfoldable pub settle : Preimage → MilliSatoshi → List Hop → Timestamp → Payment → Command
  settle payment_preimage fees_paid_msat route_hops settled_at p =
      if log.already_applied p.events is_completed
      then (ok already_applied, p)
      else if not (is_open p.state)
      then refuse p "settle"
      else (
        ok executed,
        record p {
          events =
              push p.events
                (PaymentEvent.completed settled_at payment_preimage fees_paid_msat route_hops);
          state = PaymentState.completed;
          fees_paid_msat = some fees_paid_msat;
          payment_preimage = some payment_preimage;
          settled_at = some settled_at;
        },
      )

  unfoldable pub fail : FailureReason → Timestamp → Payment → Command
  fail failure_reason failed_at p =
      if log.already_applied p.events is_failed
      then (ok already_applied, p)
      else if not (is_open p.state)
      then refuse p "fail"
      else (
        ok executed,
        record p {
          events = push p.events (PaymentEvent.failed failed_at failure_reason);
          state = PaymentState.failed;
        },
      )

  abbrev reverse_from : PaymentState → String → Timestamp → Payment → Command
  reverse_from PaymentState.completed reason reversed_at p = (
    ok executed,
    record p {
      events = push p.events (PaymentEvent.reversed reversed_at reason);
      state = PaymentState.reversed;
    },
  )
  reverse_from _ reason reversed_at p = refuse p "reverse"

  unfoldable pub reverse : String → Timestamp → Payment → Command
  reverse reason reversed_at p =
      if log.already_applied p.events is_reversed
      then (ok already_applied, p)
      else reverse_from p.state reason reversed_at p
