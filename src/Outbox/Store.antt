-- ===== src/Outbox/Store.antt =====
-- src/outbox/publisher.rs and src/outbox/error.rs: the table `outbox_events` as the list of its rows in
-- the order in which they become visible, the latest first, and the queries of the publisher. The
-- sequence that the database draws for a new row is an argument.
use blink_lightning_gateway.Base.{
  ℕ, zero, suc, Option, none, some, String, List, [], ◌∷◌, Result, ok, err, if◌then◌else◌, length,
}
use blink_lightning_gateway.Primitives.Amount.{ℤ}
use blink_lightning_gateway.Primitives.Types.{Timestamp}
use blink_lightning_gateway.Json.{Json}
use blink_lightning_gateway.Outbox.Sequence.{le_sequence, same_sequence}
use blink_lightning_gateway.Outbox.Event.{
  ParseError, OutboxEvent, NewOutboxEvent, domain_as_str, domain_from_str, type_as_str,
  type_from_str, to_standardized,
}

pub data OutboxError : Type 0 where
  db metadata listen_disconnected : OutboxError
  unreadable : ParseError → OutboxError
  configuration : String → OutboxError

-- The columns of `outbox_events`.
pub record Row : Type 0 where
  pub sequence : ℤ
  pub correlation_id : String
  pub domain_event_type : String
  pub event_type : String
  pub reference_id : String
  pub amount_sat : ℤ
  pub timestamp : Timestamp
  pub gateway_metadata : Json

unfoldable pub backfill_batch_size : ℕ
backfill_batch_size = 1000

abbrev pub max_backfill_events : ℕ
max_backfill_events = 100000

-- `publish_in_tx`: the table after it, and the sequence that it returns.
unfoldable pub publish_in_tx : NewOutboxEvent → ℤ → List Row → List Row × ℤ
publish_in_tx event next table =
    let event_type = to_standardized event.domain_event in
    let row : Row = record {
      sequence = next;
      correlation_id = event.correlation_id;
      domain_event_type = domain_as_str event.domain_event;
      event_type = type_as_str event_type;
      reference_id = event.reference_id;
      amount_sat = event.amount_sat;
      timestamp = event.timestamp;
      gateway_metadata = event.gateway_metadata;
    } in
    (row ∷ table, next)

-- One row as an event: both names are parsed, the domain event first.
unfoldable pub read_row : Row → Result OutboxError OutboxEvent
read_row r = elim (domain_from_str r.domain_event_type) [
  | err e ↦ err (unreadable e)
  | ok domain_event ↦ elim (type_from_str r.event_type) [
    | err e ↦ err (unreadable e)
    | ok event_type ↦ ok (record {
      sequence = r.sequence;
      correlation_id = r.correlation_id;
      domain_event = domain_event;
      event_type = event_type;
      reference_id = r.reference_id;
      amount_sat = r.amount_sat;
      timestamp = r.timestamp;
      gateway_metadata = r.gateway_metadata;
    })
  ]
]

-- `WHERE sequence = $1`, for at most one row
unfoldable pub row_with : ℤ → List Row → Option Row
row_with sequence [] = none
row_with sequence (r ∷ rows) =
    if same_sequence r.sequence sequence then some r else row_with sequence rows

unfoldable pub find_by_sequence : ℤ → List Row → Result OutboxError (Option OutboxEvent)
find_by_sequence sequence table = elim (row_with sequence table) [
  | none ↦ ok none
  | some r ↦ elim (read_row r) [ ok e ↦ ok (some e) | err e ↦ err e ]
]

-- `WHERE sequence > $1`
unfoldable pub rows_after : ℤ → List Row → List Row
rows_after after [] = []
rows_after after (r ∷ rows) =
    if le_sequence r.sequence after then rows_after after rows else r ∷ rows_after after rows

-- `ORDER BY sequence`
unfoldable pub insert_row : Row → List Row → List Row
insert_row r [] = r ∷ []
insert_row r (s ∷ rows) =
    if le_sequence r.sequence s.sequence then r ∷ s ∷ rows else s ∷ insert_row r rows

unfoldable pub order_by_sequence : List Row → List Row
order_by_sequence [] = []
order_by_sequence (r ∷ rows) = insert_row r (order_by_sequence rows)

-- `LIMIT $2`
unfoldable pub limit : ℕ → List Row → List Row
limit zero rows = []
limit (suc n) [] = []
limit (suc n) (r ∷ rows) = r ∷ limit n rows

-- The rows, collected into a `Result`: the first that cannot be read is the error.
unfoldable pub read_rows : List Row → Result OutboxError (List OutboxEvent)
read_rows [] = ok []
read_rows (r ∷ rows) = elim (read_row r) [
  | err e ↦ err e
  | ok event ↦ elim (read_rows rows) [ err e ↦ err e | ok events ↦ ok (event ∷ events) ]
]

unfoldable pub fetch_after_batch : ℤ → List Row → Result OutboxError (List OutboxEvent)
fetch_after_batch after table =
    read_rows (limit backfill_batch_size (order_by_sequence (rows_after after table)))

unfoldable pub count_after : ℤ → List Row → ℕ
count_after after table = length (rows_after after table)
