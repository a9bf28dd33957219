-- ===== src/Outbox/Delivery.antt =====
-- What a listener is told of, and what is read back of a published event.
use blink_lightning_gateway.Base.{
  ℕ, zero, suc, ◌*◌, ◌^◌, ◌≤◌, Option, some, String, List, [], ◌∷◌, ok, err, leb, if◌then◌else◌,
  ◌≡◌, refl, arith, Option-cases, inl, inr, false,
}
use blink_lightning_gateway.Primitives.Amount.{ℤ}
use blink_lightning_gateway.Outbox.Event.{OutboxEvent, NewOutboxEvent, to_standardized}
use blink_lightning_gateway.Outbox.Sequence.{same_sequence, sequence_refl}
use blink_lightning_gateway.Outbox.Texts.{domain_from_str-as_str, type_from_str-as_str}
use blink_lightning_gateway.Outbox.Store.{
  Row, listen_disconnected, find_by_sequence, row_with, read_row, publish_in_tx,
}
use blink_lightning_gateway.Outbox.Listen.{
  Attempt, refused, listen_failed, session, Action, send, sleep_ms, base_backoff_ms, max_backoff_ms,
  next_backoff, forward, connection_loop,
}

-- Every sleep lasts between the least and the greatest delay, and it follows a report that the
-- connection is lost.
abbrev pub IsPaced : List Action → Type 0
IsPaced [] = Unit
IsPaced (send (err e) ∷ sleep_ms d ∷ actions) =
    (e ≡ listen_disconnected) × (base_backoff_ms ≤ d) × (d ≤ max_backoff_ms) × IsPaced actions
IsPaced (send (ok s) ∷ actions) = IsPaced actions
IsPaced _ = ⊥

-- The same failure to connect, `n` times.
abbrev pub refusals : ℕ → List Attempt
refusals zero = []
refusals (suc n) = refused ∷ refusals n

-- The delay after `i` failures in a row.
abbrev pub delay : ℕ → ℕ
delay i =
    if leb (base_backoff_ms * 2 ^ i) max_backoff_ms then base_backoff_ms * 2 ^ i else max_backoff_ms

-- The reports and the delays of `n` failures in a row, after `i` others.
abbrev pub outage : ℕ → ℕ → List Action
outage i zero = []
outage i (suc n) = send (err listen_disconnected) ∷ sleep_ms (delay i) ∷ outage (suc i) n

next_backoff-delay : (i : ℕ) → next_backoff (delay i) ≡ delay (suc i)
next_backoff-delay i = ground arith

module _ (parse : String → Option ℤ) where
  forward-IsPaced :
      (payloads : List String) (next : List Action)
      → IsPaced next
      → IsPaced (forward parse payloads next)
  unfolding forward
  forward-IsPaced [] next h = h
  forward-IsPaced (p ∷ ps) next h = elim (Option-cases (parse p)) [
    | inl e ↦ rw (forward, e) (forward-IsPaced ps next h)
    | inr (s, e) ↦ rw (forward, e) (forward-IsPaced ps next h)
  ]

  -- The delays of the listener are between 1 and 30 seconds, whatever fails, and before each of them
  -- the subscriber is told that the connection is lost, so that it reads what it may have missed.
  pub connection_loop-IsPaced :
      (attempts : List Attempt) (backoff_ms : ℕ)
      → base_backoff_ms ≤ backoff_ms
      → backoff_ms ≤ max_backoff_ms
      → IsPaced (connection_loop parse backoff_ms attempts)
  unfolding connection_loop
  connection_loop-IsPaced [] b h k = tt
  connection_loop-IsPaced (refused ∷ attempts) b h k =
      (refl, h, k, connection_loop-IsPaced attempts (next_backoff b) (ground arith) (ground arith))
  connection_loop-IsPaced (listen_failed ∷ attempts) b h k = (
    refl,
    omega arith,
    omega arith,
    connection_loop-IsPaced attempts 2000 (omega arith) (omega arith),
  )
  connection_loop-IsPaced (session ps ∷ attempts) b h k = forward-IsPaced ps _ (
    refl,
    omega arith,
    omega arith,
    connection_loop-IsPaced attempts 2000 (omega arith) (omega arith),
  )

  connection_loop-outage : (n i : ℕ) → connection_loop parse (delay i) (refusals n) ≡ outage i n
  unfolding connection_loop
  connection_loop-outage zero i = refl
  connection_loop-outage (suc n) i =
      rw (next_backoff-delay i, connection_loop-outage n (suc i)) refl

-- The row of a published event as a reader gets it: with its sequence, and with the standard type of
-- its domain event.
abbrev pub stored : NewOutboxEvent → ℤ → OutboxEvent
stored event sequence = record {
  sequence = sequence;
  correlation_id = event.correlation_id;
  domain_event = event.domain_event;
  event_type = to_standardized event.domain_event;
  reference_id = event.reference_id;
  amount_sat = event.amount_sat;
  timestamp = event.timestamp;
  gateway_metadata = event.gateway_metadata;
}

-- An event that is published is found by the sequence that publishing returns, with all its fields and
-- the standard type of its domain event, and the rows of every other sequence are found as before.
pub publish_in_tx-find :
    (event : NewOutboxEvent) (next sequence : ℤ) (table : List Row)
    → same_sequence next sequence ≡ false
    → let (after, assigned) = publish_in_tx event next table in
      (find_by_sequence assigned after ≡ ok (some (stored event next)))
      × (find_by_sequence sequence after ≡ find_by_sequence sequence table)
unfolding publish_in_tx find_by_sequence row_with read_row
publish_in_tx-find event next sequence table h = (
  rw
      (
        find_by_sequence,
        row_with,
        publish_in_tx,
        read_row,
        sequence_refl next,
        domain_from_str-as_str event.domain_event,
        type_from_str-as_str (to_standardized event.domain_event),
      )
      refl,
  rw (find_by_sequence, row_with, publish_in_tx, h) refl,
)
