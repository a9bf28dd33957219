-- ===== src/Grpc/Order.antt =====
-- In which order a subscriber gets the events, whatever the database, the notifications and the
-- channel do.
use blink_lightning_gateway.Base.{
  ℕ, zero, suc, none, some, List, [], ◌∷◌, Result, ok, err, ◌≡◌, refl, ap, ltb, arith, Bool-cases,
  Result-cases, inl, inr,
}
use blink_lightning_gateway.Primitives.Amount.{ℤ}
use blink_lightning_gateway.Outbox.Sequence.{
  le_sequence, ◌⊑◌, ◌⊏◌, sequence_refl, sequence_weak, sequence_le-lt, sequence_lt-le, Ascending,
}
use blink_lightning_gateway.Outbox.Event.{OutboxEvent}
use blink_lightning_gateway.Outbox.Wire.{PaymentEvent, to_proto}
use blink_lightning_gateway.Outbox.Store.{
  OutboxError, Row, find_by_sequence, count_after, max_backfill_events, listen_disconnected,
}
use blink_lightning_gateway.Outbox.Order.{
  IsTable, event_sequences, fetch_after_batch-Ascending, find_by_sequence-sequence,
}
use blink_lightning_gateway.Symphony.Client.{Code}
use blink_lightning_gateway.Grpc.Service.{
  Surroundings, Sent, disconnected, timed_out, Feed, Outcome, proceeds, returned, out_of_fuel,
  delivered, query, fetch, tick, and_then, send_event, send_page, backfill, on_disconnected,
  on_sequence, on_notification, live, subscription_loop,
}

-- The messages that are events.
abbrev pub events_of : List (Result Code PaymentEvent) → List PaymentEvent
events_of [] = []
events_of (ok event ∷ stream) = event ∷ events_of stream
events_of (err code ∷ stream) = events_of stream

abbrev pub newest : ℤ → List OutboxEvent → ℤ
newest c [] = c
newest c (e ∷ es) = e.sequence

-- Strictly descending, above `c`.
abbrev pub Descending : ℤ → List OutboxEvent → Type 0
Descending c [] = Unit
Descending c (e ∷ es) = (newest c es ⊏ e.sequence) × Descending c es

module _ (env : Surroundings) where
  abbrev pub protos : List OutboxEvent → List PaymentEvent
  protos [] = []
  protos (e ∷ es) = to_proto env.to_string e ∷ protos es

  -- What a subscriber has got, the latest first, are events with strictly descending sequences above
  -- `c`, none of them above the cursor.
  abbrev pub IsOrdered : ℤ → Feed → Type 0
  IsOrdered c f =
      (es : List OutboxEvent) × (events_of f.stream ≡ protos es)
      × Descending c es
      × (newest c es ⊑ f.last_sent_sequence)

  module _ (c : ℤ) where
    send_event-IsOrdered :
        (e : OutboxEvent) (f : Feed)
        → f.last_sent_sequence ⊏ e.sequence
        → IsOrdered c f
        → IsOrdered c (send_event env e f).1
    unfolding send_event
    send_event-IsOrdered e f h (es, p, d, n) = go (env.send f.clock) refl
      where
        missed : newest c es ⊑ e.sequence
        missed =
            sequence_weak (newest c es) e.sequence
              (sequence_le-lt (newest c es) f.last_sent_sequence e.sequence n h)

        go : (s : Sent) → env.send f.clock ≡ s → IsOrdered c (send_event env e f).1
        go delivered q =
            rw (send_event, q)
              (
                e ∷ es,
                ap (◌∷◌ (to_proto env.to_string e)) p,
                (sequence_le-lt (newest c es) f.last_sent_sequence e.sequence n h, d),
                sequence_refl e.sequence,
              )
        go disconnected q = rw (send_event, q) (es, p, d, missed)
        go timed_out q = rw (send_event, q) (es, p, d, missed)

    send_event-cursor :
        (e : OutboxEvent) (f : Feed) → (send_event env e f).1.last_sent_sequence ≡ e.sequence
    unfolding send_event
    send_event-cursor e f = ground arith

    and_then-IsOrdered :
        (r : Outcome × Feed) (next : Feed → Outcome × Feed)
        → IsOrdered c r.1
        → (IsOrdered c r.1 → IsOrdered c (next r.1).1)
        → IsOrdered c (and_then r next).1
    and_then-IsOrdered (proceeds, f) next h k = k h
    and_then-IsOrdered (returned, f) next h k = h
    and_then-IsOrdered (out_of_fuel, f) next h k = h

    send_page-IsOrdered :
        (es : List OutboxEvent) (f : Feed)
        → Ascending f.last_sent_sequence (event_sequences es)
        → IsOrdered c f
        → IsOrdered c (send_page env es f).1
    unfolding send_page
    send_page-IsOrdered [] f a h = h
    send_page-IsOrdered (e ∷ es) f a h =
        and_then-IsOrdered (send_event env e f) (send_page env es) (send_event-IsOrdered e f a.0 h)
          (send_page-IsOrdered es (send_event env e f).1 (rw (send_event-cursor e f) a.1))

    module _ (keyed : (n : ℕ) (t : List Row) → env.table n ≡ ok t → IsTable t) where
      fetch-Ascending :
          (f : Feed) (es : List OutboxEvent)
          → fetch env f ≡ ok es
          → Ascending f.last_sent_sequence (event_sequences es)
      fetch-Ascending f es h = elim (Result-cases (env.table f.clock)) [
        | inr (x, p) ↦ ground (arith, p)
        | inl (t, p) ↦
            fetch_after_batch-Ascending f.last_sent_sequence t es (keyed f.clock t p)
              (ground (arith, p))
      ]

      backfill-IsOrdered :
          (fuel : ℕ) (f : Feed) → IsOrdered c f → IsOrdered c (backfill env fuel f).1
      unfolding backfill
      backfill-IsOrdered zero f h = h
      backfill-IsOrdered (suc fuel) f h = elim (Bool-cases (env.is_cancelled f.clock)) [
        | inl p ↦ rw (backfill, p) h
        | inr p ↦ elim (Result-cases (fetch env f)) [
          | inr (x, q) ↦ rw (backfill, p, q) h
          | inl ([], q) ↦ rw (backfill, p, q) h
          | inl (e ∷ es, q) ↦
              rw (backfill, p, q)
                (and_then-IsOrdered (send_page env (e ∷ es) (tick f)) (backfill env fuel)
                  (send_page-IsOrdered (e ∷ es) (tick f) (fetch-Ascending f (e ∷ es) q) h)
                  (backfill-IsOrdered fuel (send_page env (e ∷ es) (tick f)).1))
        ]
      ]

      on_disconnected-IsOrdered :
          (fuel : ℕ) (f : Feed) → IsOrdered c f → IsOrdered c (on_disconnected env fuel f).1
      unfolding on_disconnected
      on_disconnected-IsOrdered fuel f h =
          elim (Result-cases
            (query (env.table f.clock) (λ table. ok (count_after f.last_sent_sequence table)))) [
              | inr (x, q) ↦ rw (on_disconnected, q) h
              | inl (count, q) ↦ elim (Bool-cases (ltb max_backfill_events count)) [
                | inl p ↦ rw (on_disconnected, q, p) h
                | inr p ↦ rw (on_disconnected, q, p) (backfill-IsOrdered fuel (tick f) h)
              ]
            ]

      on_sequence-IsOrdered :
          (s : ℤ) (f : Feed) → IsOrdered c f → IsOrdered c (on_sequence env s f).1
      unfolding on_sequence
      on_sequence-IsOrdered s f h = elim (Bool-cases (le_sequence s f.last_sent_sequence)) [
        | inl p ↦ rw (on_sequence, p) h
        | inr p ↦ elim (Result-cases (query (env.table f.clock) (find_by_sequence s))) [
          | inr (x, q) ↦ rw (on_sequence, p, q) h
          | inl (none, q) ↦ rw (on_sequence, p, q) h
          | inl (some e, q) ↦
              rw (on_sequence, p, q)
                (send_event-IsOrdered e (tick f)
                  (sequence_lt-le f.last_sent_sequence s e.sequence p (found e q)) h)
        ]
      ]
        where
          found :
              (e : OutboxEvent)
              → query (env.table f.clock) (find_by_sequence s) ≡ ok (some e)
              → s ⊑ e.sequence
          found e q = elim (Result-cases (env.table f.clock)) [
            | inr (x, t) ↦ ground (arith, t)
            | inl (rows, t) ↦ find_by_sequence-sequence s rows e (ground (arith, t))
          ]

      on_notification-IsOrdered :
          (fuel : ℕ) (n : Result OutboxError ℤ) (f : Feed)
          → IsOrdered c f
          → IsOrdered c (on_notification env fuel n f).1
      unfolding on_notification
      on_notification-IsOrdered fuel (ok s) f h = on_sequence-IsOrdered s f h
      on_notification-IsOrdered fuel (err listen_disconnected) f h =
          on_disconnected-IsOrdered fuel f h
      on_notification-IsOrdered fuel (err _) f h = h

      live-IsOrdered :
          (fuel : ℕ) (ns : List (Result OutboxError ℤ)) (f : Feed)
          → IsOrdered c f
          → IsOrdered c (live env fuel ns f).1
      unfolding live
      live-IsOrdered fuel [] f h = h
      live-IsOrdered fuel (n ∷ ns) f h = elim (Bool-cases (env.is_cancelled f.clock)) [
        | inl p ↦ rw (live, p) h
        | inr p ↦
            rw (live, p)
              (and_then-IsOrdered (on_notification env fuel n (tick f)) (live env fuel ns)
                (on_notification-IsOrdered fuel n (tick f) h)
                (live-IsOrdered fuel ns (on_notification env fuel n (tick f)).1))
      ]

-- No event is sent twice or out of order: whatever each query finds in a table whose sequences are
-- distinct, whatever is notified (stale, repeated, out of order, a lost connection), and wherever the
-- stream ends, the events that a subscriber gets have strictly ascending sequences above the one it
-- subscribed after.
pub subscription_loop-IsOrdered :
    (env : Surroundings) (fuel : ℕ) (after_sequence : ℤ)
    (notifications : List (Result OutboxError ℤ)) (clock : ℕ)
    → ((n : ℕ) (t : List Row) → env.table n ≡ ok t → IsTable t)
    → IsOrdered env after_sequence (subscription_loop env fuel after_sequence notifications clock).1
unfolding subscription_loop
subscription_loop-IsOrdered env fuel after_sequence notifications clock keyed =
    let f : Feed = record { last_sent_sequence = after_sequence; stream = []; clock = clock } in
    let start : IsOrdered env after_sequence f = ([], refl, tt, sequence_refl after_sequence) in
    and_then-IsOrdered env after_sequence (backfill env fuel f) (live env fuel notifications)
      (backfill-IsOrdered env after_sequence keyed fuel f start)
      (live-IsOrdered env after_sequence keyed fuel notifications (backfill env fuel f).1)
