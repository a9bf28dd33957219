-- ===== src/Grpc/Service.antt =====
-- src/api/grpc/service.rs: one subscriber's stream. What the loop meets is given by the number of
-- operations it has made: what a query reads from the table, whether the process is shutting down, and
-- what becomes of a send. The channel of notifications is the list of what arrives on it, and the
-- loops that read pages run on fuel. The texts of the statuses are left out.
use blink_lightning_gateway.Base.{
  ℕ, zero, suc, Bool, true, false, Option, none, some, String, List, [], ◌∷◌, Result, ok, err, ltb,
}
use blink_lightning_gateway.Primitives.Amount.{ℤ}
use blink_lightning_gateway.Json.{Json}
use blink_lightning_gateway.Primitives.Amount.{as_i64}
use blink_lightning_gateway.Outbox.Sequence.{le_sequence}
use blink_lightning_gateway.Outbox.Event.{OutboxEvent}
use blink_lightning_gateway.Outbox.Wire.{PaymentEvent, to_proto}
use blink_lightning_gateway.Outbox.Store.{
  OutboxError, Row, listen_disconnected, fetch_after_batch, find_by_sequence, count_after,
  max_backfill_events,
}
use blink_lightning_gateway.Symphony.Client.{Code, resource_exhausted}
use blink_lightning_gateway.Grpc.Status.{from_outbox_error}

-- What becomes of a send within its time limit.
pub data Sent : Type 0 where
  delivered disconnected timed_out : Sent

pub record Surroundings : Type 0 where
  pub table : ℕ → Result OutboxError (List Row)
  pub is_cancelled : ℕ → Bool
  pub send : ℕ → Sent
  pub to_string : Json → Option String

-- The state of one subscription: the cursor, and what the subscriber has got, the latest first.
pub record Feed : Type 0 where
  pub last_sent_sequence : ℤ
  pub stream : List (Result Code PaymentEvent)
  pub clock : ℕ

-- How a part of the loop ends: the code goes on after it, or the subscription is over, or the fuel is.
pub data Outcome : Type 0 where
  proceeds returned out_of_fuel : Outcome

-- `inject_trace_context`
abbrev pub inject_trace_context : PaymentEvent → PaymentEvent
inject_trace_context event = event

-- A query reads the table, unless the database fails.
abbrev pub query {ℓ} :
    {A : Type ℓ}
    → Result OutboxError (List Row)
    → (List Row → Result OutboxError A)
    → Result OutboxError A
query (err e) read = err e
query (ok table) read = read table

abbrev pub tick : Feed → Feed
tick f = record f { clock = suc f.clock }

-- `tx.send(Err(status))`, and then a return
abbrev pub close_with : Code → Feed → Feed
close_with code f = record f { stream = err code ∷ f.stream; clock = suc f.clock }

abbrev pub and_then : Outcome × Feed → (Feed → Outcome × Feed) → Outcome × Feed
and_then (proceeds, f) next = next f
and_then (returned, f) next = (returned, f)
and_then (out_of_fuel, f) next = (out_of_fuel, f)

module _ (env : Surroundings) where
  abbrev pub fetch : Feed → Result OutboxError (List OutboxEvent)
  fetch f = query (env.table f.clock) (fetch_after_batch f.last_sent_sequence)

  -- One event: the cursor is set, and then the event is sent. A failed send ends the subscription.
  unfoldable pub send_event : OutboxEvent → Feed → Outcome × Feed
  send_event event f =
      let proto = inject_trace_context (to_proto env.to_string event) in
      let f' = record (tick f) { last_sent_sequence = event.sequence } in
      elim (env.send f.clock) [
        | delivered ↦ (proceeds, record f' { stream = ok proto ∷ f'.stream })
        | disconnected ↦ (returned, f')
        | timed_out ↦ (returned, f')
      ]

  unfoldable pub send_page : List OutboxEvent → Feed → Outcome × Feed
  send_page [] f = (proceeds, f)
  send_page (event ∷ events) f = and_then (send_event event f) (send_page events)

  -- The loop over the pages.
  unfoldable pub backfill : ℕ → Feed → Outcome × Feed
  backfill zero f = (out_of_fuel, f)
  backfill (suc fuel) f = elim (env.is_cancelled f.clock) [
    | true ↦ (returned, f)
    | false ↦ elim (fetch f) [
      | err e ↦ (returned, close_with (from_outbox_error e) (tick f))
      | ok [] ↦ (proceeds, tick f)
      | ok (event ∷ events) ↦ and_then (send_page (event ∷ events) (tick f)) (backfill fuel)
    ]
  ]

  -- `Some(Err(OutboxError::ListenDisconnected))`: the size of the gap is checked, and it is read.
  unfoldable pub on_disconnected : ℕ → Feed → Outcome × Feed
  on_disconnected fuel f =
      elim (query (env.table f.clock) (λ table. ok (count_after f.last_sent_sequence table))) [
        | err e ↦ (returned, close_with (from_outbox_error e) (tick f))
        | ok count ↦ elim (ltb max_backfill_events count) [
          | true ↦ (returned, close_with resource_exhausted (tick f))
          | false ↦ backfill fuel (tick f)
        ]
      ]

  -- `Some(Ok(sequence))`
  unfoldable pub on_sequence : ℤ → Feed → Outcome × Feed
  on_sequence sequence f = elim (le_sequence sequence f.last_sent_sequence) [
    | true ↦ (proceeds, f)
    | false ↦ elim (query (env.table f.clock) (find_by_sequence sequence)) [
      | err e ↦ (proceeds, tick f)
      | ok none ↦ (proceeds, tick f)
      | ok (some event) ↦ send_event event (tick f)
    ]
  ]

  unfoldable pub on_notification : ℕ → Result OutboxError ℤ → Feed → Outcome × Feed
  on_notification fuel (ok sequence) f = on_sequence sequence f
  on_notification fuel (err listen_disconnected) f = on_disconnected fuel f
  on_notification fuel (err e) f = (proceeds, f)

  -- The loop over the notifications, until their stream ends.
  unfoldable pub live : ℕ → List (Result OutboxError ℤ) → Feed → Outcome × Feed
  live fuel [] f = (returned, f)
  live fuel (n ∷ ns) f = elim (env.is_cancelled f.clock) [
    | true ↦ (returned, f)
    | false ↦ and_then (on_notification fuel n (tick f)) (live fuel ns)
  ]

  unfoldable pub subscription_loop : ℕ → ℤ → List (Result OutboxError ℤ) → ℕ → Outcome × Feed
  subscription_loop fuel after_sequence notifications clock =
      let f : Feed = record { last_sent_sequence = after_sequence; stream = []; clock = clock } in
      and_then (backfill fuel f) (live fuel notifications)

  -- `subscribe`: the size of the backfill is checked before the loop is started.
  unfoldable pub subscribe : ℕ → ℕ → List (Result OutboxError ℤ) → Result Code (Outcome × Feed)
  subscribe fuel after_sequence notifications =
      elim (query (env.table 0) (λ table. ok (count_after (as_i64 after_sequence) table))) [
        | err e ↦ err (from_outbox_error e)
        | ok count ↦ elim (ltb max_backfill_events count) [
          | true ↦ err resource_exhausted
          | false ↦ ok (subscription_loop fuel (as_i64 after_sequence) notifications 1)
        ]
      ]
