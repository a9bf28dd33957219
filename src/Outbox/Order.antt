-- ===== src/Outbox/Order.antt =====
-- What the queries of the publisher return: the order and the pages of the rows.
use blink_lightning_gateway.Base.{
  Option-cases, some, ℕ, zero, suc, true, false, List, [], ◌∷◌, ok, ◌≡◌, arith, All, Bool-cases,
  Result-cases, inl, inr,
}
use blink_lightning_gateway.Primitives.Amount.{ℤ}
use blink_lightning_gateway.Outbox.Sequence.{◌⊑◌, le_sequence, same_sequence, ◌⊏◌, Ascending}
use blink_lightning_gateway.Outbox.Event.{OutboxEvent}
use blink_lightning_gateway.Outbox.Store.{
  find_by_sequence, Row, read_row, rows_after, insert_row, order_by_sequence, limit, read_rows,
  fetch_after_batch, backfill_batch_size, row_with,
}

abbrev pub row_sequences : List Row → List ℤ
row_sequences [] = []
row_sequences (r ∷ rows) = r.sequence ∷ row_sequences rows

abbrev pub event_sequences : List OutboxEvent → List ℤ
event_sequences [] = []
event_sequences (e ∷ es) = e.sequence ∷ event_sequences es

-- No two rows have the same sequence, the primary key of the table.
abbrev pub IsTable : List Row → Type 0
IsTable [] = Unit
IsTable (r ∷ rows) = All (λ s. same_sequence r.sequence s.sequence ≡ false) rows × IsTable rows

module _ (P : Row → Type 0) where
  All-rows_after : (c : ℤ) (rows : List Row) → All P rows → All P (rows_after c rows)
  unfolding rows_after
  All-rows_after c [] h = tt
  All-rows_after c (r ∷ rows) h = ground (arith, All-rows_after c rows h.1)

  All-insert_row : (r : Row) (rows : List Row) → P r → All P rows → All P (insert_row r rows)
  unfolding insert_row
  All-insert_row r [] p h = (p, tt)
  All-insert_row r (s ∷ rows) p h = ground (arith, All-insert_row r rows p h.1)

  All-order : (rows : List Row) → All P rows → All P (order_by_sequence rows)
  unfolding order_by_sequence
  All-order [] h = tt
  All-order (r ∷ rows) h = All-insert_row r (order_by_sequence rows) h.0 (All-order rows h.1)

rows_after-above : (c : ℤ) (rows : List Row) → All (λ r. c ⊏ r.sequence) (rows_after c rows)
unfolding rows_after
rows_after-above c [] = tt
rows_after-above c (r ∷ rows) = ground (arith, rows_after-above c rows)

rows_after-IsTable : (c : ℤ) (rows : List Row) → IsTable rows → IsTable (rows_after c rows)
unfolding rows_after
rows_after-IsTable c [] h = tt
rows_after-IsTable c (r ∷ rows) h = ground (
  arith,
  rows_after-IsTable c rows h.1,
  All-rows_after (λ s. same_sequence r.sequence s.sequence ≡ false) c rows h.0,
)

insert_row-Ascending :
    (c : ℤ) (r : Row) (rows : List Row)
    → c ⊏ r.sequence
    → All (λ s. same_sequence r.sequence s.sequence ≡ false) rows
    → Ascending c (row_sequences rows)
    → Ascending c (row_sequences (insert_row r rows))
unfolding insert_row
insert_row-Ascending c r [] h d a = (h, tt)
insert_row-Ascending c r (s ∷ rows) h d a = elim (Bool-cases (le_sequence r.sequence s.sequence)) [
  | inl e ↦ ground (arith, e, d.0)
  | inr e ↦ ground (arith, e, insert_row-Ascending s.sequence r rows e d.1 a.1)
]

order-Ascending :
    (c : ℤ) (rows : List Row)
    → IsTable rows
    → All (λ r. c ⊏ r.sequence) rows
    → Ascending c (row_sequences (order_by_sequence rows))
unfolding order_by_sequence
order-Ascending c [] h a = tt
order-Ascending c (r ∷ rows) h a =
    insert_row-Ascending c r (order_by_sequence rows) a.0
      (All-order (λ s. same_sequence r.sequence s.sequence ≡ false) rows h.0)
      (order-Ascending c rows h.1 a.1)

-- The rows that a backfill from `c` has to deliver, in the order of their sequences.
abbrev pub pending_rows : ℤ → List Row → List Row
pending_rows c table = order_by_sequence (rows_after c table)

pub pending_rows-Ascending :
    (c : ℤ) (table : List Row) → IsTable table → Ascending c (row_sequences (pending_rows c table))
pending_rows-Ascending c table h =
    order-Ascending c (rows_after c table) (rows_after-IsTable c table h) (rows_after-above c table)

pub limit-Ascending :
    (n : ℕ) (c : ℤ) (rows : List Row)
    → Ascending c (row_sequences rows)
    → Ascending c (row_sequences (limit n rows))
unfolding limit
limit-Ascending zero c rows a = tt
limit-Ascending (suc n) c [] a = tt
limit-Ascending (suc n) c (r ∷ rows) a = (a.0, limit-Ascending n r.sequence rows a.1)

read_row-sequence : (r : Row) (e : OutboxEvent) → read_row r ≡ ok e → e.sequence ≡ r.sequence
unfolding read_row
read_row-sequence r e h = ground arith

pub read_rows-sequences :
    (rows : List Row) (es : List OutboxEvent)
    → read_rows rows ≡ ok es
    → event_sequences es ≡ row_sequences rows
unfolding read_rows
read_rows-sequences [] es h = ground arith
read_rows-sequences (r ∷ rows) es h = elim (Result-cases (read_row r)) [
  | inr (x, p) ↦ ground (arith, p)
  | inl (e, p) ↦ elim (Result-cases (read_rows rows)) [
    | inr (x, q) ↦ ground (arith, p, q)
    | inl (rest, q) ↦ ground (arith, p, q, read_row-sequence r e p, read_rows-sequences rows rest q)
  ]
]

-- A page is in strictly ascending order, above the cursor.
pub fetch_after_batch-Ascending :
    (c : ℤ) (table : List Row) (es : List OutboxEvent)
    → IsTable table
    → fetch_after_batch c table ≡ ok es
    → Ascending c (event_sequences es)
unfolding fetch_after_batch
fetch_after_batch-Ascending c table es h p =
    let q = read_rows-sequences (limit backfill_batch_size (pending_rows c table)) es p in
    rw q (
      limit-Ascending backfill_batch_size c (pending_rows c table)
        (pending_rows-Ascending c table h))

row_with-sequence :
    (s : ℤ) (table : List Row) (r : Row)
    → row_with s table ≡ some r
    → same_sequence r.sequence s ≡ true
unfolding row_with
row_with-sequence s [] r h = ground arith
row_with-sequence s (q ∷ table) r h = ground (arith, row_with-sequence s table r)

pub find_by_sequence-sequence :
    (s : ℤ) (table : List Row) (e : OutboxEvent)
    → find_by_sequence s table ≡ ok (some e)
    → s ⊑ e.sequence
unfolding find_by_sequence
find_by_sequence-sequence s table e h = elim (Option-cases (row_with s table)) [
  | inl p ↦ ground (arith, p)
  | inr (r, p) ↦ elim (Result-cases (read_row r)) [
    | inr (x, q) ↦ ground (arith, p, q)
    | inl (e', q) ↦ ground (arith, p, q, row_with-sequence s table r p, read_row-sequence r e' q)
  ]
]
