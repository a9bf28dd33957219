-- ===== src/Invoice/Entity.antt =====
-- src/invoice/entity.rs: the constructor, the commands and the hydration of an invoice. A command
-- takes `&mut self`: it returns its result and the invoice that it leaves.
use blink_lightning_gateway.Base.{
  ℕ, ◌*◌, ◌&&◌, Bool, true, false, Option, none, some, [], ◌∷◌, String, Result, ok, err, leb, ◌==◌,
  if◌then◌else◌,
}
use blink_lightning_gateway.EventLog.{EventLog, Idempotent, executed, already_applied}
use blink_lightning_gateway.Primitives.Amount.{MilliSatoshi}
use blink_lightning_gateway.Primitives.Hex.{PaymentHash, Preimage}
use blink_lightning_gateway.Primitives.Types.{
  InvoiceId, WalletId, BoltInvoice, Timestamp, add_seconds,
}
use blink_lightning_gateway.Invoice.Event.{
  CancelReason, InvoiceEvent, created, htlc_held, settled_intraledger, InvoiceState, open_, held,
  is_htlc_held, is_settled, is_settled_intraledger, is_canceled, InvoiceError, invalid_amount,
  invalid_state_transition,
}

abbrev pub secs_per_min : ℕ
secs_per_min = 60

abbrev pub secs_per_hour : ℕ
secs_per_hour = 60 * 60

abbrev pub btc_invoice_min_seconds : ℕ
btc_invoice_min_seconds = secs_per_min

abbrev pub btc_invoice_max_seconds : ℕ
btc_invoice_max_seconds = secs_per_hour * 24

abbrev pub btc_invoice_default_seconds : ℕ
btc_invoice_default_seconds = secs_per_hour * 4

pub record NewInvoice : Type 0 where
  pub id : InvoiceId
  pub payment_hash : PaymentHash
  pub payment_preimage : Preimage
  pub wallet_id : WalletId
  pub amount_msat : Option MilliSatoshi
  pub expiry_at : Timestamp
  pub bolt_invoice : BoltInvoice
  pub external_id : String
  pub created_at : Timestamp

unfoldable pub effective_expiry : ℕ → ℕ
effective_expiry expiry_seconds =
    if leb btc_invoice_min_seconds expiry_seconds && leb expiry_seconds btc_invoice_max_seconds
    then expiry_seconds
    else btc_invoice_default_seconds

abbrev pub is_zero_amount : Option MilliSatoshi → Bool
is_zero_amount none = false
is_zero_amount (some a) = a == 0

-- `NewInvoice::try_new`; `id` is the identifier that `InvoiceId::new()` mints.
module _ (id : InvoiceId) (payment_hash : PaymentHash) (payment_preimage : Preimage)
    (wallet_id : WalletId) (amount_msat : Option MilliSatoshi) (expiry_seconds : ℕ)
    (bolt_invoice : BoltInvoice) (external_id : String) (now : Timestamp) where
  abbrev pub validated : NewInvoice
  validated = record {
    id = id;
    payment_hash = payment_hash;
    payment_preimage = payment_preimage;
    wallet_id = wallet_id;
    amount_msat = amount_msat;
    expiry_at = add_seconds now (effective_expiry expiry_seconds);
    bolt_invoice = bolt_invoice;
    external_id = external_id;
    created_at = now;
  }

  unfoldable pub try_new : Result InvoiceError NewInvoice
  try_new = if is_zero_amount amount_msat then err invalid_amount else ok validated

abbrev pub InvoiceLog : Type 1
InvoiceLog = EventLog InvoiceId InvoiceEvent

-- The `Created` event of a new invoice.
abbrev pub created_event : NewInvoice → InvoiceEvent
created_event n =
    created n.payment_hash n.payment_preimage n.wallet_id n.amount_msat n.expiry_at n.bolt_invoice
      n.external_id n.created_at

module _ (log : InvoiceLog) where
  open log use {Events, init, push, iter_all}

  pub record Invoice : Type 0 where
    pub id : InvoiceId
    pub payment_hash : PaymentHash
    pub payment_preimage : Preimage
    pub wallet_id : WalletId
    pub amount_msat : Option MilliSatoshi
    pub expiry_at : Timestamp
    pub bolt_invoice : BoltInvoice
    pub external_id : String
    pub state : InvoiceState
    pub created_at : Timestamp
    pub held_amount_msat : Option MilliSatoshi
    pub canceled_reason : Option CancelReason
    pub events : Events

  -- `IntoEvents`
  unfoldable pub into_events : NewInvoice → Events
  into_events n = init n.id (created_event n ∷ [])

  abbrev pub Command : Type 0
  Command = Result InvoiceError Idempotent × Invoice

  abbrev refuse : Invoice → String → Command
  refuse inv attempted = (err (invalid_state_transition inv.state attempted), inv)

  abbrev mark_held_from : InvoiceState → MilliSatoshi → Timestamp → Invoice → Command
  mark_held_from open_ htlc_amount_msat held_at inv = (
    ok executed,
    record inv {
      events = push inv.events (htlc_held held_at htlc_amount_msat);
      state = held;
      held_amount_msat = some htlc_amount_msat;
    },
  )
  mark_held_from _ htlc_amount_msat held_at inv = refuse inv "mark_held"

  unfoldable pub mark_held : MilliSatoshi → Timestamp → Invoice → Command
  mark_held htlc_amount_msat held_at inv =
      if log.already_applied inv.events is_htlc_held
      then (ok already_applied, inv)
      else mark_held_from inv.state htlc_amount_msat held_at inv

  abbrev settle_from : InvoiceState → Timestamp → Invoice → Command
  settle_from held settled_at inv = (
    ok executed,
    record inv {
      events = push inv.events (InvoiceEvent.settled settled_at);
      state = InvoiceState.settled;
    },
  )
  settle_from _ settled_at inv = refuse inv "settle"

  unfoldable pub settle : Timestamp → Invoice → Command
  settle settled_at inv =
      if log.already_applied inv.events is_settled
      then (ok already_applied, inv)
      else settle_from inv.state settled_at inv

  abbrev settle_intraledger_from : InvoiceState → Timestamp → Invoice → Command
  settle_intraledger_from open_ settled_at inv = (
    ok executed,
    record inv {
      events = push inv.events (settled_intraledger settled_at);
      state = InvoiceState.settled;
    },
  )
  settle_intraledger_from _ settled_at inv = refuse inv "settle_intraledger"

  unfoldable pub settle_intraledger : Timestamp → Invoice → Command
  settle_intraledger settled_at inv =
      if log.already_applied inv.events is_settled_intraledger
      then (ok already_applied, inv)
      else settle_intraledger_from inv.state settled_at inv

  -- The state test of `cancel`: `Open | Held`.
  abbrev pub is_open_or_held : InvoiceState → Bool
  is_open_or_held open_ = true
  is_open_or_held held = true
  is_open_or_held _ = false

  unfoldable pub cancel : CancelReason → Timestamp → Invoice → Command
  cancel reason canceled_at inv =
      if log.already_applied inv.events is_canceled
      then (ok already_applied, inv)
      else if is_open_or_held inv.state
      then (
        ok executed,
        record inv {
          events = push inv.events (InvoiceEvent.canceled canceled_at reason);
          state = InvoiceState.canceled;
          canceled_reason = some reason;
        },
      )
      else refuse inv "cancel"
