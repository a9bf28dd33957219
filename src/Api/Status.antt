-- ===== src/Api/Status.antt =====
-- src/api/graphql/subscription.rs and mutation.rs: the statuses that the API reports, and the stream of
-- them that one subscriber gets. A payload is its status, with the preimage and the request where they
-- are given; the fetch of the stored invoice is a parameter.
use text.Mathlib.Text.{◌==◌ as str_eq}
use blink_lightning_gateway.Base.{
  Bool, true, false, Option, none, some, List, [], ◌∷◌, String, leb, if◌then◌else◌,
}
use blink_lightning_gateway.Primitives.Amount.{ℤ, pos}
use blink_lightning_gateway.Primitives.Hex.{Preimage}
use blink_lightning_gateway.Primitives.Types.{BoltInvoice, Timestamp}
use blink_lightning_gateway.Invoice.Event.{InvoiceState, open_, held}
use blink_lightning_gateway.Payment.Event.{PaymentState}
use blink_lightning_gateway.Outbox.Sequence.{le_sequence}
use blink_lightning_gateway.Outbox.Event.{
  GatewayDomainEvent, lightning_invoice_settled, lightning_htlc_held, lightning_invoice_canceled,
  lightning_intraledger_transfer_completed, OutboxEvent,
}

pub data InvoicePaymentStatus : Type 0 where
  pending paid expired : InvoicePaymentStatus

abbrev pub same_status : InvoicePaymentStatus → InvoicePaymentStatus → Bool
same_status pending pending = true
same_status paid paid = true
same_status expired expired = true
same_status _ _ = false

unfoldable pub is_terminal : InvoicePaymentStatus → Bool
is_terminal paid = true
is_terminal expired = true
is_terminal pending = false

unfoldable pub initial_status : Option (InvoiceState × Timestamp) → Timestamp → InvoicePaymentStatus
initial_status none now = expired
initial_status (some (InvoiceState.settled, _)) now = paid
initial_status (some (InvoiceState.canceled, _)) now = expired
initial_status (some (held, _)) now = pending
initial_status (some (open_, expiry_at)) now = if leb expiry_at now then expired else pending

unfoldable pub status_from_event : GatewayDomainEvent → Option InvoicePaymentStatus
status_from_event lightning_htlc_held = some pending
status_from_event lightning_invoice_settled = some paid
status_from_event lightning_intraledger_transfer_completed = some paid
status_from_event lightning_invoice_canceled = some expired
status_from_event _ = none

-- `StatusEmitter`, by its field `last`.
abbrev pub StatusEmitter : Type 0
StatusEmitter = Option InvoicePaymentStatus

abbrev changed :
    Bool → StatusEmitter → InvoicePaymentStatus → Option InvoicePaymentStatus × StatusEmitter
changed true last s = (none, last)
changed false last s = (some s, some s)

-- `StatusEmitter::next`: what is emitted, and the emitter after it.
unfoldable pub emitter_next :
    StatusEmitter → InvoicePaymentStatus → Option InvoicePaymentStatus × StatusEmitter
emitter_next none s = (some s, some s)
emitter_next (some last) s = changed (same_status last s) (some last) s

pub record Payload : Type 0 where
  pub payment_preimage : Option Preimage
  pub payment_request : Option BoltInvoice
  pub status : InvoicePaymentStatus

-- `build_payload`, over the preimage and the text of the stored invoice.
unfoldable pub build_payload : InvoicePaymentStatus → Option (Preimage × BoltInvoice) → Payload
build_payload paid (some (p, b)) = record {
  payment_preimage = some p;
  payment_request = some b;
  status = paid;
}
build_payload s _ = record { payment_preimage = none; payment_request = none; status = s }

-- What `emit_for_event` does to the rest of the stream: the payloads that `rest` gives after the
-- emitter that it gets, unless the status is terminal.
module _ (stored : Option (Preimage × BoltInvoice)) where
  abbrev invoice_for : InvoicePaymentStatus → Option (Preimage × BoltInvoice)
  invoice_for paid = stored
  invoice_for _ = none

  abbrev after_emit :
      Option InvoicePaymentStatus × StatusEmitter → (StatusEmitter → List Payload) → List Payload
  after_emit (none, emitter) rest = rest emitter
  after_emit (some s, emitter) rest =
      let more = rest emitter in
      build_payload s (invoice_for s) ∷ (if is_terminal s then [] else more)

  unfoldable pub emit_for_event :
      GatewayDomainEvent → StatusEmitter → (StatusEmitter → List Payload) → List Payload
  emit_for_event domain_event emitter rest = elim (status_from_event domain_event) [
    | none ↦ rest emitter
    | some s ↦ after_emit (emitter_next emitter s) rest
  ]

  -- The loop over the live events of the fan-out, for a subscriber that stays, up to the end of the
  -- list or a terminal status.
  unfoldable pub follow : String → ℤ → StatusEmitter → List OutboxEvent → List Payload
  follow reference cursor emitter [] = []
  follow reference cursor emitter (event ∷ events) =
      let skipped = follow reference cursor emitter events in
      if le_sequence event.sequence cursor
      then skipped
      else if str_eq event.reference_id reference
      then emit_for_event event.domain_event emitter (λ e. follow reference event.sequence e events)
      else follow reference event.sequence emitter events

  -- A subscription with no resume point: the status of the stored invoice, and then the live events.
  unfoldable pub fresh_stream :
      Option (InvoiceState × Timestamp) → Timestamp → String → List OutboxEvent → List Payload
  fresh_stream state now reference events =
      let s = initial_status state now in
      let more = follow reference (pos 0) (some s) events in
      build_payload s stored ∷ (if is_terminal s then [] else more)

-- `PaymentSendResult`, as `ln_invoice_payment_send` reports a payment that `send_payment` returns.
pub data PaymentSendResult : Type 0 where
  success failure send_pending already_paid : PaymentSendResult

unfoldable pub send_result : PaymentState → PaymentSendResult
send_result PaymentState.pending = send_pending
send_result PaymentState.initiated = send_pending
send_result PaymentState.completed = success
send_result PaymentState.failed = failure
send_result PaymentState.reversed = failure
