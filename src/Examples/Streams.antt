-- ===== src/Examples/Streams.antt =====
-- The theorems on the outbox and its two streams at a table of two rows.
use blink_lightning_gateway.Primitives.Amount.{as_i64}
use blink_lightning_gateway.Api.Status.{initial_status, is_terminal}
use blink_lightning_gateway.Api.Subscription.{
  state_and_expiry, Setting, StoredInvoice, Subscriber, received, lagged, run_status_stream,
  build_status_stream, stops,
}
use blink_lightning_gateway.Base.{
  ltb, ◌<◌, if◌then◌else◌, ap, zero, suc, ◌≡◌, ◌≤◌, ◌++◌, ℕ, refl, true, false, none, some, List,
  [], ◌∷◌, ok, err, arith, Result,
}
use blink_lightning_gateway.Outbox.Event.{
  domain_as_str, type_as_str, OutboxEvent, NewOutboxEvent, domain_from_str, type_from_str,
  to_standardized, for_lightning_htlc_held, for_lightning_invoice_settled,
}
use blink_lightning_gateway.Primitives.Amount.{pos}
use blink_lightning_gateway.Json.{null}
use blink_lightning_gateway.Invoice.Event.{InvoiceState}
use blink_lightning_gateway.Outbox.Sequence.{last_of}
use blink_lightning_gateway.Outbox.Store.{
  limit, fetch_after_batch, Row, OutboxError, db, listen_disconnected, read_rows, read_row,
  rows_after, order_by_sequence, insert_row, count_after, find_by_sequence, row_with, publish_in_tx,
}
use blink_lightning_gateway.Outbox.Order.{IsTable, pending_rows, event_sequences}
use blink_lightning_gateway.Outbox.Delivery.{
  publish_in_tx-find, stored, connection_loop-IsPaced, IsPaced,
}
use blink_lightning_gateway.Outbox.Listen.{connection_loop, refused, listen_failed, session}
use blink_lightning_gateway.Outbox.Wire.{as_u64}
use blink_lightning_gateway.Grpc.Service.{
  send_event, send_page, backfill, Surroundings, delivered, subscription_loop, subscribe, returned,
  Feed,
}
use blink_lightning_gateway.Grpc.Order.{IsOrdered, subscription_loop-IsOrdered}
use blink_lightning_gateway.Outbox.Store.{backfill_batch_size}
use blink_lightning_gateway.Grpc.Backfill.{
  IsCalm, filled_at, notices, push, advancing, subscribe_complete,
}
use blink_lightning_gateway.Grpc.Resume.{as_i64-as_u64}
use blink_lightning_gateway.Api.Resumed.{IsFinished, run_status_stream-IsFinished}
use blink_lightning_gateway.Api.History.{build_status_stream-IsHistory}
use blink_lightning_gateway.Api.Emission.{IsHistory}
use blink_lightning_gateway.Examples.Codec.{some_preimage}

abbrev held_event : NewOutboxEvent
held_event = for_lightning_htlc_held "c" "aa" (pos 5) 1_000 null

abbrev settled_event : NewOutboxEvent
settled_event = for_lightning_invoice_settled "c" "aa" (pos 5) 2_000 null

abbrev held_row : Row
held_row = record {
  sequence = pos 1;
  correlation_id = "c";
  domain_event_type = "lightning_htlc_held";
  event_type = "INCOMING_PAYMENT_PENDING";
  reference_id = "aa";
  amount_sat = pos 5;
  timestamp = 1_000;
  gateway_metadata = null;
}

abbrev settled_row : Row
settled_row = record {
  sequence = pos 2;
  correlation_id = "c";
  domain_event_type = "lightning_invoice_settled";
  event_type = "INCOMING_PAYMENT_CONFIRMED";
  reference_id = "aa";
  amount_sat = pos 5;
  timestamp = 2_000;
  gateway_metadata = null;
}

abbrev table : List Row
table = settled_row ∷ held_row ∷ []

abbrev history : List OutboxEvent
history = stored held_event (pos 1) ∷ stored settled_event (pos 2) ∷ []

table-IsTable : IsTable table
table-IsTable = ((refl, tt), (tt, tt))

table-read : read_rows (pending_rows (pos 0) table) ≡ ok history
unfolding read_rows order_by_sequence insert_row rows_after read_row domain_from_str type_from_str
    to_standardized
table-read = refl

table-count : count_after (pos 0) table ≤ 100000
unfolding count_after rows_after
table-count = omega arith

abbrev steady : Surroundings
steady = record {
  table = λ n. ok table;
  is_cancelled = λ n. false;
  send = λ n. delivered;
  to_string = λ j. some "null";
}

-- The database fails at the second query.
abbrev shaky : Surroundings
shaky = record {
  table = λ n. elim n [ suc zero ↦ err db | _ ↦ ok table ];
  is_cancelled = λ n. false;
  send = λ n. delivered;
  to_string = λ j. none;
}

-- A third event is added when the first backfill is over.
abbrev late_row : Row
late_row = record settled_row { sequence = pos 3 }

abbrev later : List Row
later = late_row ∷ table

abbrev growing : Surroundings
growing = record steady { table = λ n. ok (if ltb n 5 then table else later) }

growing-filled : filled_at growing (pos 0) ≡ 5
unfolding backfill send_page send_event fetch_after_batch rows_after read_row order_by_sequence
    insert_row domain_from_str type_from_str to_standardized read_rows limit backfill_batch_size
growing-filled = refl

growing_early : (n : ℕ) → n < 5 → growing.table n ≡ ok table
growing_early n h = ground (arith, h)

growing_late : (n : ℕ) → 5 ≤ n → growing.table n ≡ ok later
growing_late n h = ground (arith, h)

growing-IsCalm : IsCalm growing (pos 0) table later
growing-IsCalm = record {
  reads = λ n h. growing_early n (rw (← growing-filled) h);
  reads_later = λ n h. growing_late n (rw (← growing-filled) h);
  runs = λ n. refl;
  sends = λ n. refl;
}

late_found :
    (find_by_sequence (pos 3) later ≡ ok (some (stored settled_event (pos 3))))
    × (find_by_sequence (pos 2) later ≡ ok (some (stored settled_event (pos 2))))
unfolding find_by_sequence row_with read_row domain_from_str type_from_str to_standardized
late_found = (refl, refl)

-- The second event is notified late, and the third one twice.
abbrev notified : List OutboxEvent
notified =
    stored settled_event (pos 2) ∷ stored settled_event (pos 3) ∷ stored settled_event (pos 3) ∷ []

abbrev rows_or_none : Result OutboxError (List Row) → List Row
rows_or_none (ok t) = t
rows_or_none (err e) = []

shaky-IsTable : (n : ℕ) → IsTable (rows_or_none (shaky.table n))
shaky-IsTable zero = table-IsTable
shaky-IsTable (suc zero) = tt
shaky-IsTable (suc (suc n)) = table-IsTable

shaky-keyed : (n : ℕ) (t : List Row) → shaky.table n ≡ ok t → IsTable t
shaky-keyed n t h = rw (← ap rows_or_none h) (shaky-IsTable n)

subscription_loop-IsOrdered_example :
    IsOrdered shaky
      (pos 0)
      (subscription_loop shaky 3
        (pos 0)
        (ok (pos 2) ∷ ok (pos 1) ∷ err listen_disconnected ∷ ok (pos 2) ∷ [])
        0).1
subscription_loop-IsOrdered_example =
    subscription_loop-IsOrdered shaky 3 (pos 0)
      (ok (pos 2) ∷ ok (pos 1) ∷ err listen_disconnected ∷ ok (pos 2) ∷ []) 0 shaky-keyed

subscribe_complete_example :
    (f : Feed) × (subscribe growing 101 0 (notices notified) ≡ ok (returned, f))
    × (f.stream
        ≡ push growing
            (history ++ advancing (last_of (as_i64 0) (event_sequences history)) notified)
            [])
subscribe_complete_example =
    subscribe_complete growing table later 0 history notified growing-IsCalm table-IsTable
      table-read (late_found.1, (late_found.0, (late_found.0, tt))) table-count

-- The third event is delivered live.
notified_late : advancing (pos 2) notified ≡ stored settled_event (pos 3) ∷ []
notified_late = refl

as_i64-as_u64_example : as_i64 (as_u64 (pos 7)) ≡ pos 7
as_i64-as_u64_example = as_i64-as_u64 (pos 7) (omega arith)

publish_in_tx-find_example :
    (find_by_sequence (pos 2) table ≡ ok (some (stored settled_event (pos 2))))
    × (find_by_sequence (pos 1) table ≡ find_by_sequence (pos 1) (held_row ∷ []))
unfolding publish_in_tx domain_as_str type_as_str to_standardized
publish_in_tx-find_example = publish_in_tx-find settled_event (pos 2) (pos 1) (held_row ∷ []) refl

connection_loop-IsPaced_example :
    IsPaced
      (connection_loop (λ s. some (pos 7)) 1000 (refused ∷ session ("7" ∷ []) ∷ listen_failed ∷ []))
connection_loop-IsPaced_example =
    connection_loop-IsPaced (λ s. some (pos 7)) (refused ∷ session ("7" ∷ []) ∷ listen_failed ∷ [])
      1000 (omega arith) (omega arith)

abbrev settled_invoice : StoredInvoice
settled_invoice = record {
  state = InvoiceState.settled;
  expiry_at = 9_000;
  preimage = some_preimage;
  bolt_invoice = "lnbc1";
}

abbrev setting : Setting
setting = record {
  table = λ n. ok table;
  lookup_invoice = λ n. some settled_invoice;
  now = λ n. 2_000;
  is_sent = λ n. true;
  is_over = λ n. false;
}

finished_invoice :
    is_terminal (initial_status (state_and_expiry (some settled_invoice)) 2_000) ≡ true
unfolding is_terminal initial_status
finished_invoice = refl

missed_nothing : read_rows (pending_rows (pos 2) table) ≡ ok []
unfolding read_rows order_by_sequence rows_after
missed_nothing = refl

none_counted : count_after (pos 2) table ≤ 100000
unfolding count_after rows_after
none_counted = omega arith

run_status_stream-IsFinished_example :
    (s : Subscriber) × (run_status_stream setting "aa" 101 (some (pos 2)) (lagged ∷ [])
      ≡ (stops, s))
    × IsFinished s.sent
run_status_stream-IsFinished_example =
    run_status_stream-IsFinished setting "aa" table (pos 2) [] (lagged ∷ [])
      (record { reads = λ n. refl; sends = λ n. refl }) table-IsTable missed_nothing none_counted
      (λ n m. finished_invoice)

build_status_stream-IsHistory_example : IsHistory (
    build_status_stream
      (some setting)
      (ok "aa")
      3
      (some (pos 0))
      (received (stored settled_event (pos 2)) ∷ lagged ∷ []))
build_status_stream-IsHistory_example =
    build_status_stream-IsHistory (some setting) (ok "aa") 3 (some (pos 0))
      (received (stored settled_event (pos 2)) ∷ lagged ∷ [])
