-- ===== src/Api/Stream.antt =====
-- What a subscriber can rely on.
use blink_lightning_gateway.Api.Status.{
  expired, pending, paid, InvoicePaymentStatus, Payload, StatusEmitter, build_payload,
  emit_for_event, emitter_next, follow, fresh_stream, initial_status, is_terminal,
  status_from_event,
}
use blink_lightning_gateway.Base.{◌≢◌, ◌≡◌, true, Option, none, some, List, [], ◌∷◌, String, arith}
use blink_lightning_gateway.Outbox.Event.{GatewayDomainEvent, OutboxEvent}
use blink_lightning_gateway.Primitives.Amount.{pos, ℤ}
use blink_lightning_gateway.Primitives.Hex.{Preimage}
use blink_lightning_gateway.Primitives.Types.{BoltInvoice, Timestamp}
use blink_lightning_gateway.Invoice.Event.{InvoiceState}
use blink_lightning_gateway.App.Announced.{announced_invoice_state}

-- A stream that repeats no status (`last` is the one before it) and ends with the first terminal one;
-- only a payload with the status PAID shows the preimage.
abbrev pub IsStream : StatusEmitter → List Payload → Type 0
IsStream last [] = Unit
IsStream last (p ∷ ps) =
    (last ≢ some p.status)
    × (is_terminal p.status ≡ true → ps ≡ [])
    × (p.payment_preimage ≢ none → p.status ≡ paid)
    × IsStream (some p.status) ps

build_payload_cases :
    (s : InvoicePaymentStatus) (i : Option (Preimage × BoltInvoice))
    → ((build_payload s i).status ≡ s)
      × ((build_payload s i).payment_preimage ≢ none → (build_payload s i).status ≡ paid)
unfolding build_payload
build_payload_cases s i = ground arith

module _ (stored : Option (Preimage × BoltInvoice)) where
  follow-IsStream :
      (reference : String) (cursor : ℤ) (emitter : StatusEmitter) (events : List OutboxEvent)
      → IsStream emitter (follow stored reference cursor emitter events)
  unfolding follow emit_for_event emitter_next status_from_event is_terminal build_payload
  follow-IsStream reference cursor emitter [] = tt
  follow-IsStream reference cursor emitter (event ∷ events) = ground (
    arith,
    follow-IsStream reference cursor emitter events,
    follow-IsStream reference event.sequence emitter events,
    follow-IsStream reference event.sequence (some pending) events,
    follow-IsStream reference event.sequence (some paid) events,
    follow-IsStream reference event.sequence (some expired) events,
  )

  -- Whatever events arrive, in whatever order: a subscriber gets first the status of the stored
  -- invoice, never the same status twice in a row, nothing after PAID or EXPIRED, and the preimage
  -- only with PAID.
  pub fresh_stream-IsStream :
      (state : Option (InvoiceState × Timestamp)) (now : Timestamp) (reference : String)
      (events : List OutboxEvent)
      → IsStream none (fresh_stream stored state now reference events)
  unfolding fresh_stream build_payload is_terminal
  fresh_stream-IsStream state now reference events =
      ground (arith, follow-IsStream reference (pos 0) (some (initial_status state now)) events)

-- The live events and the snapshot agree: an event that announces a state of an invoice is reported as
-- the status that a subscriber would read from an invoice in this state, before and after its expiry.
pub status_agrees :
    (e : GatewayDomainEvent) (s : InvoiceState) (expiry now : Timestamp)
    → announced_invoice_state e ≡ some s
    → status_from_event e ≡ some (initial_status (some (s, expiry)) now)
unfolding status_from_event initial_status
status_agrees e s expiry now h = ground arith
