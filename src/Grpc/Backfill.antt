-- ===== src/Grpc/Backfill.antt =====
-- What a subscriber gets while nothing fails: the events of the table, page by page, and then those
-- that are added and notified.
use blink_lightning_gateway.Primitives.Amount.{as_i64}
use blink_lightning_gateway.Base.{
  ltb, ◌<◌, inl, inr, Bool-cases, All, some, true, ℕ, zero, suc, ◌*◌, ◌≤◌, false, List, [], ◌∷◌,
  ◌++◌, Result, ok, ◌≡◌, refl, sym, ap, ◌∙◌, if◌then◌else◌, arith, length,
}
use blink_lightning_gateway.Primitives.Amount.{ℤ}
use blink_lightning_gateway.Outbox.Sequence.{le_sequence, last_of}
use blink_lightning_gateway.Outbox.Event.{OutboxEvent}
use blink_lightning_gateway.Outbox.Wire.{PaymentEvent, to_proto}
use blink_lightning_gateway.Outbox.Store.{
  max_backfill_events, count_after, find_by_sequence, OutboxError, Row, read_rows,
  fetch_after_batch,
}
use blink_lightning_gateway.Outbox.Order.{IsTable, event_sequences, pending_rows}
use blink_lightning_gateway.Outbox.Pages.{
  length-pending_rows, nil_of_length, cons_not_nil, fetch_after_batch-next, read_rows-nil,
}
use blink_lightning_gateway.Symphony.Client.{Code}
use blink_lightning_gateway.Grpc.Clock.{backfill-clock, round-clock}
use blink_lightning_gateway.Grpc.Service.{
  returned, subscription_loop, on_notification, on_sequence, live, subscribe, Surroundings, Feed,
  proceeds, delivered, tick, send_event, send_page, backfill,
}

-- The state when a subscription after `c` is started.
abbrev pub start_after : ℤ → Feed
start_after c = record { last_sent_sequence = c; stream = []; clock = 1 }

-- The time when the first backfill is over.
abbrev pub filled_at : Surroundings → ℤ → ℕ
filled_at env c = (backfill env 101 (start_after c)).1.clock

-- Nothing fails and nothing is cancelled. The table is `table` until the first backfill is over, and
-- with the rows that are added then it is `later`.
pub record IsCalm (env : Surroundings) (c : ℤ) (table later : List Row) : Type 0 where
  pub reads : (n : ℕ) → n < filled_at env c → env.table n ≡ ok table
  pub reads_later : (n : ℕ) → filled_at env c ≤ n → env.table n ≡ ok later
  pub runs : (n : ℕ) → env.is_cancelled n ≡ false
  pub sends : (n : ℕ) → env.send n ≡ delivered

last_of-append :
    (c : ℤ) (xs ys : List OutboxEvent)
    → last_of c (event_sequences (xs ++ ys))
      ≡ last_of (last_of c (event_sequences xs)) (event_sequences ys)
last_of-append c [] ys = refl
last_of-append c (x ∷ xs) ys = last_of-append x.sequence xs ys

-- The notifications of some events, as the database sends them.
abbrev pub notices : List OutboxEvent → List (Result OutboxError ℤ)
notices [] = []
notices (e ∷ es) = ok e.sequence ∷ notices es

-- The events whose sequence is above `c` and all those before them.
abbrev pub advancing : ℤ → List OutboxEvent → List OutboxEvent
advancing c [] = []
advancing c (e ∷ es) =
    let stale = advancing c es in
    let rest = advancing e.sequence es in if le_sequence e.sequence c then stale else e ∷ rest

module _ (env : Surroundings) where
  -- The events on top of what was sent before, the latest first.
  abbrev pub push :
      List OutboxEvent → List (Result Code PaymentEvent) → List (Result Code PaymentEvent)
  push [] stream = stream
  push (e ∷ es) stream = push es (ok (to_proto env.to_string e) ∷ stream)

  -- The state after these events are sent.
  abbrev pub after : List OutboxEvent → Feed → ℕ → Feed
  after es f clock = record {
    last_sent_sequence = last_of f.last_sent_sequence (event_sequences es);
    stream = push es f.stream;
    clock = clock;
  }

  push-append :
      (xs ys : List OutboxEvent) (stream : List (Result Code PaymentEvent))
      → push (xs ++ ys) stream ≡ push ys (push xs stream)
  push-append [] ys stream = refl
  push-append (x ∷ xs) ys stream = push-append xs ys (ok (to_proto env.to_string x) ∷ stream)

  after-append :
      (xs ys : List OutboxEvent) (f : Feed) (clock end : ℕ)
      → after (xs ++ ys) f end ≡ after ys (after xs f clock) end
  after-append xs ys f clock end =
      rw (last_of-append f.last_sent_sequence xs ys, push-append xs ys f.stream) refl

  module _ (runs : (n : ℕ) → env.is_cancelled n ≡ false)
      (sends : (n : ℕ) → env.send n ≡ delivered) where
    send_event-after :
        (e : OutboxEvent) (f : Feed)
        → send_event env e f ≡ (proceeds, after (e ∷ []) f (suc f.clock))
    unfolding send_event
    send_event-after e f = rw (send_event, sends f.clock) refl

    send_page-after :
        (es : List OutboxEvent) (f : Feed)
        → (clock : ℕ) × (send_page env es f ≡ (proceeds, after es f clock))
    unfolding send_page
    send_page-after [] f = (f.clock, refl)
    send_page-after (e ∷ es) f =
        rw (send_event-after e f) (send_page-after es (after (e ∷ []) f (suc f.clock)))

    module _ (table : List Row) where
      backfill-empty :
          (n : ℕ) (f : Feed)
          → env.table f.clock ≡ ok table
          → fetch_after_batch f.last_sent_sequence table ≡ ok []
          → backfill env (suc n) f ≡ (proceeds, tick f)
      unfolding backfill
      backfill-empty n f t u = rw (backfill, runs f.clock, t, u) refl

      backfill-page :
          (n : ℕ) (f : Feed) (e : OutboxEvent) (es : List OutboxEvent)
          → env.table f.clock ≡ ok table
          → fetch_after_batch f.last_sent_sequence table ≡ ok (e ∷ es)
          → (clock : ℕ) × (backfill env (suc n) f ≡ backfill env n (after (e ∷ es) f clock))
      unfolding backfill
      backfill-page n f e es t u =
          let (clock, sent) = send_page-after (e ∷ es) (tick f) in
          (clock, rw (backfill, runs f.clock, t, u, sent) refl)

      -- The table is read as `table` until this backfill is over.
      abbrev IsRead : ℕ → Feed → Type 0
      IsRead fuel f = (n : ℕ) → n < (backfill env fuel f).1.clock → env.table n ≡ ok table

      -- One round, given what the rounds after it do.
      backfill-round :
          (n : ℕ) (f : Feed) (es p q : List OutboxEvent)
          → IsRead (suc n) f
          → fetch_after_batch f.last_sent_sequence table ≡ ok p
          → es ≡ p ++ q
          → (p ≡ [] → es ≡ [])
          → ((e : OutboxEvent) (r : List OutboxEvent) (clock : ℕ)
              → p ≡ e ∷ r
              → IsRead n (after p f clock)
              → (end : ℕ) × (backfill env n (after p f clock)
                  ≡ (proceeds, after q (after p f clock) end)))
          → (clock : ℕ) × (backfill env (suc n) f ≡ (proceeds, after es f clock))
      backfill-round n f es [] q t u w empty next =
          let now = t f.clock (round-clock env n f (runs f.clock)) in
          (suc f.clock, rw (empty refl) (backfill-empty n f now u))
      backfill-round n f es (e ∷ p) q t u w empty next =
          let now = t f.clock (round-clock env n f (runs f.clock)) in
          let (clock, page) = backfill-page n f e p now u in
          let (end, rest) = next e p clock refl (rw page at t) in
          (
            end,
            rw w (page ∙ rest ∙ sym (ap (λ x. (proceeds, x)) (after-append (e ∷ p) q f clock end))),
          )

      backfill-after :
          (n : ℕ) (f : Feed) (es : List OutboxEvent)
          → IsRead (suc n) f
          → IsTable table
          → read_rows (pending_rows f.last_sent_sequence table) ≡ ok es
          → length (pending_rows f.last_sent_sequence table) ≤ 1000 * n
          → (clock : ℕ) × (backfill env (suc n) f ≡ (proceeds, after es f clock))
      backfill-after zero f es t h k few =
          let none_left =
            read_rows-nil (pending_rows f.last_sent_sequence table) es (nil_of_length _ few) k in
          let (p, q, u, w, v, len, empty) =
            fetch_after_batch-next f.last_sent_sequence table es h k in
          backfill-round zero f es p q t u w empty (λ e r clock is t'.
            absurd (cons_not_nil e r q (ap (λ x. x ++ q) (sym is) ∙ sym w ∙ none_left)))
      backfill-after (suc n) f es t h k few =
          let (p, q, u, w, v, len, empty) =
            fetch_after_batch-next f.last_sent_sequence table es h k in
          backfill-round (suc n) f es p q t u w empty (λ e r clock is t'.
            backfill-after n (after p f clock) q t' h v (omega (arith, len, few)))

    on_sequence-stale :
        (s : ℤ) (f : Feed)
        → le_sequence s f.last_sent_sequence ≡ true
        → on_sequence env s f ≡ (proceeds, f)
    unfolding on_sequence
    on_sequence-stale s f h = rw (on_sequence, h) refl

    on_sequence-after :
        (e : OutboxEvent) (f : Feed) (later : List Row)
        → env.table f.clock ≡ ok later
        → le_sequence e.sequence f.last_sent_sequence ≡ false
        → find_by_sequence e.sequence later ≡ ok (some e)
        → on_sequence env e.sequence f ≡ (proceeds, after (e ∷ []) f (suc (suc f.clock)))
    unfolding on_sequence
    on_sequence-after e f later t h found =
        rw (on_sequence, h, t, found) (send_event-after e (tick f))

    live-after :
        (fuel : ℕ) (es : List OutboxEvent) (f : Feed) (later : List Row)
        → ((n : ℕ) → f.clock ≤ n → env.table n ≡ ok later)
        → All (λ e. find_by_sequence e.sequence later ≡ ok (some e)) es
        → (clock : ℕ) × (live env fuel (notices es) f
            ≡ (returned, after (advancing f.last_sent_sequence es) f clock))
    unfolding live on_notification
    live-after fuel [] f later t found = (f.clock, refl)
    live-after fuel (e ∷ es) f later t found =
        elim (Bool-cases (le_sequence e.sequence f.last_sent_sequence)) [
          | inl h ↦
              let (clock, rest) =
                live-after fuel es (tick f) later (λ n k. t n (omega (arith, k))) found.1 in
              (clock, rw (live, runs f.clock, on_sequence-stale e.sequence (tick f) h, h) rest)
          | inr h ↦
              let now : env.table (suc f.clock) ≡ ok later = t (suc f.clock) (omega arith) in
              let (clock, rest) =
                live-after fuel es (after (e ∷ []) f (suc (suc (suc f.clock)))) later
                  (λ n k. t n (omega (arith, k))) found.1 in
              (
                clock,
                rw (live, runs f.clock, on_sequence-after e (tick f) later now h found.0, h) rest,
              )
        ]

-- A subscription is complete: while nothing fails, a subscriber whose backfill is within the limit of
-- 100,000 events gets every readable event that is in the table until its backfill is over and above
-- the sequence it asked for, each once and in the order of the sequences, and 101 rounds are enough
-- for it. It then gets, of the events that are added after that and notified, in whatever order and
-- however often, those whose sequence is above all that were sent before them.
pub subscribe_complete :
    (env : Surroundings) (table later : List Row) (after_sequence : ℕ)
    (history notified : List OutboxEvent)
    → IsCalm env (as_i64 after_sequence) table later
    → IsTable table
    → read_rows (pending_rows (as_i64 after_sequence) table) ≡ ok history
    → All (λ e. find_by_sequence e.sequence later ≡ ok (some e)) notified
    → count_after (as_i64 after_sequence) table ≤ max_backfill_events
    → (f : Feed) × (subscribe env 101 after_sequence (notices notified) ≡ ok (returned, f))
      × (f.stream
          ≡ push env
              (history
                ++ advancing (last_of (as_i64 after_sequence) (event_sequences history)) notified)
              [])
unfolding subscribe subscription_loop
subscribe_complete env table later after_sequence history notified calm keyed readable found few =
    let c = as_i64 after_sequence in
    let f = start_after c in
    let (clock, filled) =
      backfill-after env calm.runs calm.sends table 100 f history calm.reads keyed readable
        (omega (arith, length-pending_rows c table, few)) in
    let f' = after env history f clock in
    let over : filled_at env c ≡ clock = ap (λ r. r.1.clock) filled in
    let (end, streamed) =
      live-after env calm.runs calm.sends 101 notified f' later
        (λ n k. calm.reads_later n (omega (arith, over, k))) found in
    let within : ltb max_backfill_events (count_after c table) ≡ false = ground arith in
    let first : env.table 0 ≡ ok table = calm.reads 0 (omega (arith, backfill-clock env 101 f)) in
    (
      after env (advancing f'.last_sent_sequence notified) f' end,
      rw (subscribe, first, within, filled, streamed) refl,
      sym (push-append env history (advancing f'.last_sent_sequence notified) []),
    )
