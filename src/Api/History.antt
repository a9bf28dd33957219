-- ===== src/Api/History.antt =====
-- What a subscriber can get in the end, whatever happens.
use text.Mathlib.Text.{◌==◌ as str_eq}
use blink_lightning_gateway.Base.{
  ℕ, zero, suc, Option, none, some, String, List, [], ◌∷◌, Result, ok, err, ltb, ◌≡◌, inl, inr,
  refl, arith, Bool-cases, Result-cases,
}
use blink_lightning_gateway.Primitives.Amount.{ℤ, pos}
use blink_lightning_gateway.Outbox.Event.{OutboxEvent}
use blink_lightning_gateway.Outbox.Store.{fetch_after_batch, count_after, max_backfill_events}
use blink_lightning_gateway.Outbox.Sequence.{le_sequence}
use blink_lightning_gateway.Api.Status.{initial_status, is_terminal}
use blink_lightning_gateway.Api.Subscription.{
  preimage_and_request, state_and_expiry, too_many_events, error_payload, Setting, Subscriber,
  continues, stops, out_of_fuel, Broadcast, received, lagged, and_then, tick, scan_event, scan_page,
  drain_pages, drain_backfill, on_broadcast, live, start_fresh, finish_resumed, run_status_stream,
  build_status_stream,
}
use blink_lightning_gateway.Api.Emission.{
  IsHistory, IsRunning, IsKept, IsRunning-IsKept, IsRunning-stops, and_then-IsKept,
  emitter_next-cases, emitter_next-first, send_item-cases, send_item-terminal, emitted,
  emit_for_event-IsKept,
}

module _ (setting : Setting) (reference : String) where
  scan_event-IsKept :
      (e : OutboxEvent) (s : Subscriber) → IsRunning s → IsKept (scan_event setting reference e s)
  unfolding scan_event
  scan_event-IsKept e s h = elim (Bool-cases (str_eq e.reference_id reference)) [
    | inl p ↦
        rw (scan_event, p)
          (emit_for_event-IsKept setting reference e.domain_event (record s { cursor = e.sequence })
            h)
    | inr p ↦ rw (scan_event, p) (IsRunning-IsKept continues (record s { cursor = e.sequence }) h)
  ]

  scan_page-IsKept :
      (es : List OutboxEvent) (s : Subscriber)
      → IsRunning s
      → IsKept (scan_page setting reference es s)
  unfolding scan_page
  scan_page-IsKept [] s h = IsRunning-IsKept continues s h
  scan_page-IsKept (e ∷ es) s h =
      and_then-IsKept (scan_event setting reference e s) (scan_page setting reference es)
        (scan_event-IsKept e s h) (scan_page-IsKept es (scan_event setting reference e s).1)

  drain_pages-IsKept :
      (fuel : ℕ) (s : Subscriber) → IsRunning s → IsKept (drain_pages setting reference fuel s)
  unfolding drain_pages
  drain_pages-IsKept zero s h = IsRunning-IsKept out_of_fuel s h
  drain_pages-IsKept (suc fuel) s h = elim (Result-cases (setting.table s.clock)) [
    | inr (x, p) ↦ rw (drain_pages, p) (IsRunning-stops (tick s) h.0)
    | inl (t, p) ↦ elim (Result-cases (fetch_after_batch s.cursor t)) [
      | inr (x, q) ↦ rw (drain_pages, p, q) (IsRunning-stops (tick s) h.0)
      | inl ([], q) ↦ rw (drain_pages, p, q) (IsRunning-IsKept continues (tick s) h)
      | inl (e ∷ es, q) ↦
          rw (drain_pages, p, q)
            (and_then-IsKept (scan_page setting reference (e ∷ es) (tick s))
              (drain_pages setting reference fuel) (scan_page-IsKept (e ∷ es) (tick s) h)
              (drain_pages-IsKept fuel (scan_page setting reference (e ∷ es) (tick s)).1))
    ]
  ]

  pub drain_backfill-IsKept :
      (fuel : ℕ) (s : Subscriber) → IsRunning s → IsKept (drain_backfill setting reference fuel s)
  unfolding drain_backfill
  drain_backfill-IsKept fuel s h = elim (Result-cases (setting.table s.clock)) [
    | inr (x, p) ↦ rw (drain_backfill, p) (IsRunning-stops (tick s) h.0)
    | inl (t, p) ↦ elim (Bool-cases (ltb max_backfill_events (count_after s.cursor t))) [
      | inl q ↦
          rw (drain_backfill, p, q)
            (send_item-cases setting reference
              (error_payload (too_many_events (count_after s.cursor t))) stops (tick s) h.0
              (h.0, λ e. ground arith))
      | inr q ↦ rw (drain_backfill, p, q) (drain_pages-IsKept fuel (tick s) h)
    ]
  ]

  live-IsKept :
      (fuel : ℕ) (bs : List Broadcast) (s : Subscriber)
      → IsRunning s
      → IsKept (live setting reference fuel bs s)
  unfolding live on_broadcast
  live-IsKept fuel [] s h = IsRunning-stops s h.0
  live-IsKept fuel (b ∷ bs) s h = elim (Bool-cases (setting.is_over s.clock)) [
    | inl p ↦ rw (live, p) (IsRunning-stops s h.0)
    | inr p ↦
        rw (live, p)
          (and_then-IsKept (on_broadcast setting reference fuel b (tick s))
            (live setting reference fuel bs) (one b)
            (live-IsKept fuel bs (on_broadcast setting reference fuel b (tick s)).1))
  ]
    where
      one : (b : Broadcast) → IsKept (on_broadcast setting reference fuel b (tick s))
      one lagged = drain_backfill-IsKept fuel (tick s) h
      one (received e) = elim (Bool-cases (le_sequence e.sequence s.cursor)) [
        | inl p ↦ rw (on_broadcast, p) (IsRunning-IsKept continues (tick s) h)
        | inr p ↦ rw (on_broadcast, p) (scan_event-IsKept e (tick s) h)
      ]

  start_fresh-IsKept :
      (s : Subscriber) → IsRunning s → s.emitter ≡ none → IsKept (start_fresh setting reference s)
  unfolding start_fresh
  start_fresh-IsKept s h e =
      let invoice = setting.lookup_invoice s.clock in
      let status = initial_status (state_and_expiry invoice) (setting.now s.clock) in
      elim (emitter_next-cases s.emitter status) [
        | inl q ↦ absurd (emitter_next-first s.emitter status e q)
        | inr (n, q) ↦
            rw (start_fresh, q)
              (emitted setting reference status (preimage_and_request invoice) s (suc s.clock) h n)
      ]

  finish_resumed-IsKept :
      (s : Subscriber) → IsRunning s → IsKept (finish_resumed setting reference s)
  unfolding finish_resumed
  finish_resumed-IsKept s h =
      let invoice = setting.lookup_invoice s.clock in
      let status = initial_status (state_and_expiry invoice) (setting.now s.clock) in
      elim (Bool-cases (is_terminal status)) [
        | inr t ↦ rw (finish_resumed, t) (IsRunning-IsKept continues (tick s) h)
        | inl t ↦ elim (emitter_next-cases s.emitter status) [
          | inl q ↦ rw (finish_resumed, t, q) (IsRunning-stops (tick s) h.0)
          | inr (n, q) ↦
              rw (finish_resumed, t, q)
                (send_item-terminal setting reference status (preimage_and_request invoice)
                  (record (tick s) { emitter = some status }) h.0 t)
        ]
      ]

-- Whatever the database, the broadcasts and the channel do, and whether the client resumes or not, a
-- subscriber gets at most one PENDING, without a preimage, and then at most one more item, which is a
-- terminal status or an error. Only PAID shows a preimage.
pub build_status_stream-IsHistory :
    (setting : Option Setting) (request : Result String String) (fuel : ℕ) (resume : Option ℤ)
    (broadcasts : List Broadcast)
    → IsHistory (build_status_stream setting request fuel resume broadcasts)
unfolding build_status_stream run_status_stream
build_status_stream-IsHistory setting (err message) fuel resume broadcasts = tt
build_status_stream-IsHistory none (ok reference) fuel resume broadcasts = tt
build_status_stream-IsHistory (some setting) (ok reference) fuel none broadcasts =
    (and_then-IsKept (start_fresh setting reference start) (live setting reference fuel broadcasts)
      (start_fresh-IsKept setting reference start (tt, refl) refl)
      (live-IsKept setting reference fuel broadcasts (start_fresh setting reference start).1)).0
  where
    start : Subscriber
    start = record { cursor = pos 0; emitter = none; sent = []; clock = 0 }
build_status_stream-IsHistory (some setting) (ok reference) fuel (some cursor) broadcasts =
    (and_then-IsKept
      (and_then (drain_backfill setting reference fuel start) (finish_resumed setting reference))
      (live setting reference fuel broadcasts)
      (and_then-IsKept (drain_backfill setting reference fuel start)
        (finish_resumed setting reference)
        (drain_backfill-IsKept setting reference fuel start (tt, refl))
        (finish_resumed-IsKept setting reference (drain_backfill setting reference fuel start).1))
      (live-IsKept setting reference fuel broadcasts
        (and_then (drain_backfill setting reference fuel start)
          (finish_resumed setting reference)).1)).0
  where
    start : Subscriber
    start = record { cursor = cursor; emitter = none; sent = []; clock = 0 }
