-- ===== src/Api/Subscription.antt =====
-- src/api/graphql/subscription.rs: the whole stream of one subscriber, with a resume point or without,
-- its recovery of missed events, and its failures. What it meets is given by the number of operations
-- it has made. The loop over the pages runs on fuel; a broadcast is an event or a lag.
use text.Mathlib.Text.{◌==◌ as str_eq}
use blink_lightning_gateway.Base.{
  ℕ, zero, suc, Bool, true, false, Option, none, some, String, List, [], ◌∷◌, Result, ok, err, ltb,
  if◌then◌else◌,
}
use blink_lightning_gateway.Primitives.Amount.{ℤ, pos}
use blink_lightning_gateway.Primitives.Hex.{Preimage}
use blink_lightning_gateway.Primitives.Types.{BoltInvoice, Timestamp}
use blink_lightning_gateway.Invoice.Event.{InvoiceState}
use blink_lightning_gateway.Outbox.Sequence.{le_sequence}
use blink_lightning_gateway.Outbox.Event.{GatewayDomainEvent, OutboxEvent}
use blink_lightning_gateway.Outbox.Store.{
  OutboxError, Row, fetch_after_batch, count_after, max_backfill_events,
}
use blink_lightning_gateway.Api.Status.{
  InvoicePaymentStatus, paid, Payload, StatusEmitter, build_payload, emitter_next, initial_status,
  is_terminal, status_from_event,
}

-- The messages of `error_payload`, by what they are for.
pub data ErrorPayload : Type 0 where
  bad_request : String → ErrorPayload
  not_configured : ErrorPayload
  too_many_events : ℕ → ErrorPayload

pub data Item : Type 0 where
  error_payload : ErrorPayload → Item
  status_payload : Payload → Item

-- What is read of the stored invoice.
pub record StoredInvoice : Type 0 where
  pub state : InvoiceState
  pub expiry_at : Timestamp
  pub preimage : Preimage
  pub bolt_invoice : BoltInvoice

-- `lookup_invoice` is `none` for a missing invoice and for a failed read.
pub record Setting : Type 0 where
  pub table : ℕ → Result OutboxError (List Row)
  pub lookup_invoice : ℕ → Option StoredInvoice
  pub now : ℕ → Timestamp
  pub is_sent : ℕ → Bool
  pub is_over : ℕ → Bool

-- The state of one subscriber, with what it has got, the latest first.
pub record Subscriber : Type 0 where
  pub cursor : ℤ
  pub emitter : StatusEmitter
  pub sent : List Item
  pub clock : ℕ

pub data Flow : Type 0 where
  continues stops out_of_fuel : Flow

pub data Broadcast : Type 0 where
  received : OutboxEvent → Broadcast
  lagged : Broadcast

abbrev pub and_then : Flow × Subscriber → (Subscriber → Flow × Subscriber) → Flow × Subscriber
and_then (continues, s) next = next s
and_then (stops, s) next = (stops, s)
and_then (out_of_fuel, s) next = (out_of_fuel, s)

abbrev pub tick : Subscriber → Subscriber
tick s = record s { clock = suc s.clock }

abbrev pub state_and_expiry : Option StoredInvoice → Option (InvoiceState × Timestamp)
state_and_expiry none = none
state_and_expiry (some i) = some (i.state, i.expiry_at)

abbrev pub preimage_and_request : Option StoredInvoice → Option (Preimage × BoltInvoice)
preimage_and_request none = none
preimage_and_request (some i) = some (i.preimage, i.bolt_invoice)

module _ (setting : Setting) (reference : String) where
  -- `tx.send(item)`, and then the flow that follows a send that is received.
  unfoldable pub send_item : Item → Flow → Subscriber → Flow × Subscriber
  send_item item flow s =
      if setting.is_sent s.clock
      then (flow, record (tick s) { sent = item ∷ s.sent })
      else (stops, tick s)

  abbrev pub flow_after : InvoicePaymentStatus → Flow
  flow_after status = if is_terminal status then stops else continues

  abbrev pub invoice_for : InvoicePaymentStatus → ℕ → Option StoredInvoice
  invoice_for paid clock = setting.lookup_invoice clock
  invoice_for _ clock = none

  abbrev pub emit_new : Option InvoicePaymentStatus × StatusEmitter → Subscriber → Flow × Subscriber
  emit_new (none, emitter) s = (continues, record s { emitter = emitter })
  emit_new (some status, emitter) s =
      let payload = build_payload status (preimage_and_request (invoice_for status s.clock)) in
      send_item (status_payload payload) (flow_after status) (record (tick s) { emitter = emitter })

  -- `emit_for_event`
  unfoldable pub emit_for_event : GatewayDomainEvent → Subscriber → Flow × Subscriber
  emit_for_event domain_event s = elim (status_from_event domain_event) [
    | none ↦ (continues, s)
    | some status ↦ emit_new (emitter_next s.emitter status) s
  ]

  -- An event of the stream or of a page: the cursor is set, and an event of this invoice is reported.
  unfoldable pub scan_event : OutboxEvent → Subscriber → Flow × Subscriber
  scan_event event s =
      let s' = record s { cursor = event.sequence } in
      if str_eq event.reference_id reference
      then emit_for_event event.domain_event s'
      else (continues, s')

  unfoldable pub scan_page : List OutboxEvent → Subscriber → Flow × Subscriber
  scan_page [] s = (continues, s)
  scan_page (event ∷ events) s = and_then (scan_event event s) (scan_page events)

  unfoldable pub drain_pages : ℕ → Subscriber → Flow × Subscriber
  drain_pages zero s = (out_of_fuel, s)
  drain_pages (suc fuel) s = elim (setting.table s.clock) [
    | err e ↦ (stops, tick s)
    | ok table ↦ elim (fetch_after_batch s.cursor table) [
      | err e ↦ (stops, tick s)
      | ok [] ↦ (continues, tick s)
      | ok (event ∷ events) ↦ and_then (scan_page (event ∷ events) (tick s)) (drain_pages fuel)
    ]
  ]

  -- `drain_backfill`: the size of the gap is checked before it is paged through.
  unfoldable pub drain_backfill : ℕ → Subscriber → Flow × Subscriber
  drain_backfill fuel s = elim (setting.table s.clock) [
    | err e ↦ (stops, tick s)
    | ok table ↦ elim (ltb max_backfill_events (count_after s.cursor table)) [
      | true ↦
          send_item (error_payload (too_many_events (count_after s.cursor table))) stops (tick s)
      | false ↦ drain_pages fuel (tick s)
    ]
  ]

  unfoldable pub on_broadcast : ℕ → Broadcast → Subscriber → Flow × Subscriber
  on_broadcast fuel (received e) s =
      if le_sequence e.sequence s.cursor then (continues, s) else scan_event e s
  on_broadcast fuel lagged s = drain_backfill fuel s

  -- The loop over the broadcasts, until their channel is closed.
  unfoldable pub live : ℕ → List Broadcast → Subscriber → Flow × Subscriber
  live fuel [] s = (stops, s)
  live fuel (b ∷ bs) s = elim (setting.is_over s.clock) [
    | true ↦ (stops, s)
    | false ↦ and_then (on_broadcast fuel b (tick s)) (live fuel bs)
  ]

  -- The status of the stored invoice, emitted if it differs from the last one.
  abbrev pub emit_stored :
      Option StoredInvoice
      → Option InvoicePaymentStatus × StatusEmitter
      → Flow
      → Subscriber
      → Flow × Subscriber
  emit_stored invoice (none, emitter) flow s = (flow, record s { emitter = emitter })
  emit_stored invoice (some status, emitter) flow s =
      send_item (status_payload (build_payload status (preimage_and_request invoice))) flow
        (record s { emitter = emitter })

  -- Without a resume point: the status of the invoice comes first.
  unfoldable pub start_fresh : Subscriber → Flow × Subscriber
  start_fresh s =
      let invoice = setting.lookup_invoice s.clock in
      let status = initial_status (state_and_expiry invoice) (setting.now s.clock) in
      emit_stored invoice (emitter_next s.emitter status) (flow_after status) (tick s)

  -- After the missed events of a resumed stream: the invoice may be finished with no further event.
  unfoldable pub finish_resumed : Subscriber → Flow × Subscriber
  finish_resumed s =
      let invoice = setting.lookup_invoice s.clock in
      let status = initial_status (state_and_expiry invoice) (setting.now s.clock) in
      if is_terminal status
      then emit_stored invoice (emitter_next s.emitter status) stops (tick s)
      else (continues, tick s)

  unfoldable pub run_status_stream : ℕ → Option ℤ → List Broadcast → Flow × Subscriber
  run_status_stream fuel none broadcasts =
      let s : Subscriber = record { cursor = pos 0; emitter = none; sent = []; clock = 0 } in
      and_then (start_fresh s) (live fuel broadcasts)
  run_status_stream fuel (some cursor) broadcasts =
      let s : Subscriber = record { cursor = cursor; emitter = none; sent = []; clock = 0 } in
      and_then (and_then (drain_backfill fuel s) finish_resumed) (live fuel broadcasts)

-- `build_status_stream`: a bad request or a missing backend is one error, and the stream ends.
unfoldable pub build_status_stream :
    Option Setting → Result String String → ℕ → Option ℤ → List Broadcast → List Item
build_status_stream _ (err message) fuel resume broadcasts =
    error_payload (bad_request message) ∷ []
build_status_stream none (ok reference) fuel resume broadcasts = error_payload not_configured ∷ []
build_status_stream (some setting) (ok reference) fuel resume broadcasts =
    (run_status_stream setting reference fuel resume broadcasts).1.sent
