-- ===== src/Outbox/Listen.antt =====
-- src/outbox/listen_connection.rs and src/outbox/fanout.rs: the connection that listens for new rows,
-- and the task that reads each notified row once for all API subscribers. The connection meets one
-- attempt to connect after the other until the shutdown, at the end of the list; its receiver stays.
-- Reading a payload as an `i64` is a parameter.
use blink_lightning_gateway.Base.{
  ℕ, suc, ◌*◌, Option, none, some, String, List, [], ◌∷◌, Result, ok, err, leb, if◌then◌else◌,
}
use text.Mathlib.Text.{◌==◌ as str_eq}
use blink_lightning_gateway.Primitives.Amount.{ℤ}
use blink_lightning_gateway.Outbox.Event.{OutboxEvent}
use blink_lightning_gateway.Outbox.Store.{
  OutboxError, Row, listen_disconnected, configuration, find_by_sequence,
}

abbrev pub base_backoff_ms : ℕ
base_backoff_ms = 1000

abbrev pub max_backoff_ms : ℕ
max_backoff_ms = 30000

-- `ListenConnection::validate`
unfoldable pub validate : String → Result {0, 0} OutboxError Unit
validate pg_config =
    if str_eq pg_config ""
    then err (
        configuration
          "pg_config is empty - LISTEN connection requires valid PostgreSQL connection string")
    else ok tt

-- What becomes of an attempt: no connection, no LISTEN, or a session that gets payloads and is lost.
pub data Attempt : Type 0 where
  refused listen_failed : Attempt
  session : List String → Attempt

-- What the connection does: it sends on the channel, or it sleeps.
pub data Action : Type 0 where
  send : Result OutboxError ℤ → Action
  sleep_ms : ℕ → Action

-- `(backoff_ms * 2).min(MAX_BACKOFF_MS)`
abbrev pub next_backoff : ℕ → ℕ
next_backoff backoff_ms =
    if leb (backoff_ms * 2) max_backoff_ms then backoff_ms * 2 else max_backoff_ms

module _ (parse : String → Option ℤ) where
  -- The payloads of one session, and what follows them. One that is no number is skipped.
  unfoldable pub forward : List String → List Action → List Action
  forward [] next = next
  forward (payload ∷ payloads) next = elim (parse payload) [
    | none ↦ forward payloads next
    | some sequence ↦ send (ok sequence) ∷ forward payloads next
  ]

  unfoldable pub connection_loop : ℕ → List Attempt → List Action
  connection_loop backoff_ms [] = []
  connection_loop backoff_ms (refused ∷ attempts) =
      send (err listen_disconnected)
      ∷ sleep_ms backoff_ms
      ∷ connection_loop (next_backoff backoff_ms) attempts
  connection_loop backoff_ms (listen_failed ∷ attempts) =
      send (err listen_disconnected)
      ∷ sleep_ms base_backoff_ms
      ∷ connection_loop (next_backoff base_backoff_ms) attempts
  connection_loop backoff_ms (session payloads ∷ attempts) = forward payloads (
      send (err listen_disconnected)
      ∷ sleep_ms base_backoff_ms
      ∷ connection_loop (next_backoff base_backoff_ms) attempts)

-- `start_listening`
abbrev pub start_listening : (String → Option ℤ) → List Attempt → List Action
start_listening parse attempts = connection_loop parse base_backoff_ms attempts

-- What arrives on the channel.
abbrev pub received : List Action → List (Result OutboxError ℤ)
received [] = []
received (send n ∷ actions) = n ∷ received actions
received (sleep_ms d ∷ actions) = received actions

-- `ingest_loop`: the events that are broadcast. The table is what a query finds at its number.
unfoldable pub ingest_loop :
    (ℕ → Result OutboxError (List Row)) → ℕ → List (Result OutboxError ℤ) → List OutboxEvent
ingest_loop table clock [] = []
ingest_loop table clock (err e ∷ ns) = ingest_loop table clock ns
ingest_loop table clock (ok sequence ∷ ns) = elim (table clock) [
  | err e ↦ ingest_loop table (suc clock) ns
  | ok rows ↦ elim (find_by_sequence sequence rows) [
    | err e ↦ ingest_loop table (suc clock) ns
    | ok none ↦ ingest_loop table (suc clock) ns
    | ok (some event) ↦ event ∷ ingest_loop table (suc clock) ns
  ]
]
