-- ===== src/Api/Resumed.antt =====
-- A resumed stream of a finished invoice reports the outcome and ends.
use blink_lightning_gateway.Api.Emission.{
  IsKept, IsOpening, IsRunning, last_status, emitter_next-cases,
}
use blink_lightning_gateway.Api.History.{drain_backfill-IsKept}
use blink_lightning_gateway.Api.Status.{
  StatusEmitter, emitter_next, initial_status, InvoicePaymentStatus, build_payload, is_terminal,
  status_from_event,
}
use blink_lightning_gateway.Api.Subscription.{
  error_payload, tick, Broadcast, preimage_and_request, run_status_stream, drain_backfill,
  finish_resumed, state_and_expiry, drain_pages, Item, status_payload, Setting, Subscriber, Flow,
  continues, stops, and_then, send_item, flow_after, emit_for_event, scan_event, scan_page,
}
use blink_lightning_gateway.Base.{
  none, false, ◌≢◌, ◌≤◌, ◌*◌, length, suc, zero, sym, ◌++◌, ltb, [], List, ℕ, true, Option, some,
  String, ◌∷◌, ok, ◌≡◌, ◌⊎◌, inl, inr, refl, ap, ◌∙◌, arith, Bool-cases, Option-cases,
}
use text.Mathlib.Text.{◌==◌ as str_eq}
use blink_lightning_gateway.Primitives.Amount.{ℤ}
use blink_lightning_gateway.Outbox.Event.{OutboxEvent}
use blink_lightning_gateway.Outbox.Sequence.{last_of}
use blink_lightning_gateway.Outbox.Store.{
  read_rows, Row, fetch_after_batch, count_after, max_backfill_events,
}
use blink_lightning_gateway.Outbox.Order.{pending_rows, IsTable, event_sequences}
use blink_lightning_gateway.Outbox.Pages.{
  fetch_after_batch-next, length-pending_rows, nil_of_length, cons_not_nil, read_rows-nil,
}

-- The last item is a terminal status.
abbrev pub IsFinished : List Item → Type 0
IsFinished (status_payload p ∷ items) = is_terminal p.status ≡ true
IsFinished _ = ⊥

-- Nothing fails, and no row is added.
pub record IsSteady (setting : Setting) (table : List Row) : Type 0 where
  pub reads : (n : ℕ) → setting.table n ≡ ok table
  pub sends : (n : ℕ) → setting.is_sent n ≡ true

-- The stream ends with a terminal status, or it goes on from the cursor `c`.
abbrev Goes : ℤ → Flow × Subscriber → Type 0
Goes c (flow, s) = (flow ≡ stops) × IsFinished s.sent ⊎ (flow ≡ continues) × (s.cursor ≡ c)

-- The stream ends with a terminal status, or it goes on.
abbrev Halts : Flow × Subscriber → Type 0
Halts (flow, s) = (flow ≡ stops) × IsFinished s.sent ⊎ (flow ≡ continues)

build_payload-status :
    (status : InvoicePaymentStatus) (i : Option _) → (build_payload status i).status ≡ status
unfolding build_payload
build_payload-status status i = ground arith

emitter_next-passes :
    (last : StatusEmitter) (status : InvoicePaymentStatus)
    → last ≢ some status
    → emitter_next last status ≡ (some status, some status)
unfolding emitter_next
emitter_next-passes none status n = refl
emitter_next-passes (some last) status n = ground arith

module _ (setting : Setting) (reference : String) (table : List Row)
    (calm : IsSteady setting table) where
  send_item-Goes :
      (status : InvoicePaymentStatus) (i : Option _) (s : Subscriber)
      → Goes s.cursor (
          send_item setting reference
            (status_payload (build_payload status i))
            (flow_after setting reference status)
            s)
  unfolding send_item
  send_item-Goes status i s =
      rw (send_item, calm.sends s.clock)
        (elim (Bool-cases (is_terminal status)) [
          | inl e ↦ inl (rw e refl, ap is_terminal (build_payload-status status i) ∙ e)
          | inr e ↦ inr (rw e refl, refl)
        ])

  scan_event-Goes :
      (e : OutboxEvent) (s : Subscriber) → Goes e.sequence (scan_event setting reference e s)
  unfolding scan_event emit_for_event
  scan_event-Goes e s = elim (Bool-cases (str_eq e.reference_id reference)) [
    | inr p ↦ rw (scan_event, p) (inr (refl, refl))
    | inl p ↦ elim (Option-cases (status_from_event e.domain_event)) [
      | inl q ↦ rw (scan_event, p, emit_for_event, q) (inr (refl, refl))
      | inr (status, q) ↦ elim (emitter_next-cases s.emitter status) [
        | inl r ↦ rw (scan_event, p, emit_for_event, q, r) (inr (refl, refl))
        | inr (n, r) ↦
            rw (scan_event, p, emit_for_event, q, r)
              (send_item-Goes status _
                (record s { cursor = e.sequence; emitter = some status; clock = suc s.clock }))
      ]
    ]
  ]

  and_then-Goes :
      (c d : ℤ) (r : Flow × Subscriber) (next : Subscriber → Flow × Subscriber)
      → Goes c r
      → (r.1.cursor ≡ c → Goes d (next r.1))
      → Goes d (and_then r next)
  and_then-Goes c d (flow, s) next (inl (e, h)) k = rw e (inl (refl, h))
  and_then-Goes c d (flow, s) next (inr (e, h)) k = rw e (k h)

  scan_page-Goes :
      (es : List OutboxEvent) (s : Subscriber)
      → Goes (last_of s.cursor (event_sequences es)) (scan_page setting reference es s)
  unfolding scan_page
  scan_page-Goes [] s = inr (refl, refl)
  scan_page-Goes (e ∷ es) s =
      and_then-Goes e.sequence (last_of e.sequence (event_sequences es))
        (scan_event setting reference e s) (scan_page setting reference es) (scan_event-Goes e s)
        (λ h.
          rw (ap (λ c. last_of c (event_sequences es)) (sym h))
            (scan_page-Goes es (scan_event setting reference e s).1))

  drain_pages-round :
      (n : ℕ) (s : Subscriber) (p : List OutboxEvent)
      → fetch_after_batch s.cursor table ≡ ok p
      → ((e : OutboxEvent) (r : List OutboxEvent) (s' : Subscriber)
          → p ≡ e ∷ r
          → s'.cursor ≡ last_of s.cursor (event_sequences p)
          → Halts (drain_pages setting reference n s'))
      → Halts (drain_pages setting reference (suc n) s)
  unfolding drain_pages
  drain_pages-round n s [] u next = rw (drain_pages, calm.reads s.clock, u) (inr refl)
  drain_pages-round n s (e ∷ p) u next =
      rw (drain_pages, calm.reads s.clock, u)
        (go (scan_page setting reference (e ∷ p) (tick s)) (scan_page-Goes (e ∷ p) (tick s)))
    where
      go :
          (r : Flow × Subscriber)
          → Goes (last_of s.cursor (event_sequences (e ∷ p))) r
          → Halts (and_then r (drain_pages setting reference n))
      go (flow, s') (inl (f, h)) = rw f (inl (refl, h))
      go (flow, s') (inr (f, h)) = rw f (next e p s' refl h)

  -- Enough rounds read all pages.
  drain_pages-Halts :
      (n : ℕ) (s : Subscriber) (es : List OutboxEvent)
      → IsTable table
      → read_rows (pending_rows s.cursor table) ≡ ok es
      → length (pending_rows s.cursor table) ≤ 1000 * n
      → Halts (drain_pages setting reference (suc n) s)
  drain_pages-Halts zero s es h k few =
      let none_left = read_rows-nil (pending_rows s.cursor table) es (nil_of_length _ few) k in
      let (p, q, u, w, v, len, empty) = fetch_after_batch-next s.cursor table es h k in
      drain_pages-round zero s p u (λ e r s' is at.
        absurd (cons_not_nil e r q (ap (λ x. x ++ q) (sym is) ∙ sym w ∙ none_left)))
  drain_pages-Halts (suc n) s es h k few =
      let (p, q, u, w, v, len, empty) = fetch_after_batch-next s.cursor table es h k in
      drain_pages-round (suc n) s p u
        (λ e r s' is at. drain_pages-Halts n s' q h (rw at v) (rw at (omega (arith, len, few))))

  drain_backfill-Halts :
      (s : Subscriber) (es : List OutboxEvent)
      → IsTable table
      → read_rows (pending_rows s.cursor table) ≡ ok es
      → count_after s.cursor table ≤ max_backfill_events
      → Halts (drain_backfill setting reference 101 s)
  unfolding drain_backfill
  drain_backfill-Halts s es h k few =
      let within : ltb max_backfill_events (count_after s.cursor table) ≡ false = ground arith in
      rw (drain_backfill, calm.reads s.clock, within)
        (drain_pages-Halts 100 (tick s) es h k
          (omega (arith, length-pending_rows s.cursor table, few)))

  IsOpening-pending :
      (items : List Item) (status : InvoicePaymentStatus)
      → IsOpening items
      → is_terminal status ≡ true
      → last_status items ≢ some status
  unfolding is_terminal
  IsOpening-pending [] status h t = ground arith
  IsOpening-pending (status_payload p ∷ []) status h t = λ e. ground arith
  IsOpening-pending (status_payload p ∷ q ∷ items) status h t = absurd h
  IsOpening-pending (error_payload e ∷ items) status h t = absurd h

  finish_resumed-IsFinished :
      (s : Subscriber)
      → is_terminal
          (initial_status (state_and_expiry (setting.lookup_invoice s.clock)) (setting.now s.clock))
        ≡ true
      → IsRunning s
      → (t : Subscriber) × (finish_resumed setting reference s ≡ (stops, t)) × IsFinished t.sent
  unfolding finish_resumed send_item
  finish_resumed-IsFinished s t h =
      let status =
        initial_status (state_and_expiry (setting.lookup_invoice s.clock)) (setting.now s.clock) in
      let passes =
        emitter_next-passes s.emitter status
          (λ e. IsOpening-pending s.sent status h.0 t (sym h.1 ∙ e)) in
      let i = preimage_and_request (setting.lookup_invoice s.clock) in
      (
        record {
          cursor = s.cursor;
          emitter = some status;
          sent = status_payload (build_payload status i) ∷ s.sent;
          clock = suc (suc s.clock);
        },
        rw (finish_resumed, t, passes, send_item, calm.sends (suc s.clock)) refl,
        ap is_terminal (build_payload-status status i) ∙ t,
      )

-- A client that resumes is told of a finished invoice: while nothing fails, the gap is within the limit
-- of 100,000 events and its rows can be read, and the invoice is finished whenever it is looked up, the
-- resumed stream reports a terminal status and ends, whatever is broadcast later and even if no row
-- after the resume point tells of it. 101 rounds are enough for the gap.
pub run_status_stream-IsFinished :
    (setting : Setting) (reference : String) (table : List Row) (cursor : ℤ)
    (missed : List OutboxEvent) (broadcasts : List Broadcast)
    → IsSteady setting table
    → IsTable table
    → read_rows (pending_rows cursor table) ≡ ok missed
    → count_after cursor table ≤ max_backfill_events
    → ((n m : ℕ)
        → is_terminal (initial_status (state_and_expiry (setting.lookup_invoice n)) (setting.now m))
          ≡ true)
    → (s : Subscriber) × (run_status_stream setting reference 101 (some cursor) broadcasts
        ≡ (stops, s))
      × IsFinished s.sent
unfolding run_status_stream
run_status_stream-IsFinished setting reference table cursor missed broadcasts calm keyed readable
      few finished =
    go (drain_backfill setting reference 101 start) refl
      (drain_backfill-Halts setting reference table calm start missed keyed readable few)
      (drain_backfill-IsKept setting reference 101 start (tt, refl))
  where
    start : Subscriber
    start = record { cursor = cursor; emitter = none; sent = []; clock = 0 }

    go :
        (r : Flow × Subscriber)
        → drain_backfill setting reference 101 start ≡ r
        → Halts r
        → IsKept r
        → (s : Subscriber) × (run_status_stream setting reference 101 (some cursor) broadcasts
            ≡ (stops, s))
          × IsFinished s.sent
    go (flow, s) e (inl (f, h)) k = (s, rw (e, f) refl, h)
    go (flow, s) e (inr f) k =
        let (t, stopped, h) =
          finish_resumed-IsFinished setting reference table calm s (finished s.clock s.clock)
            (k.1 f) in
        (t, rw (e, f, stopped) refl, h)
