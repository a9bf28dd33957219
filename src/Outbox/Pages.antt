-- ===== src/Outbox/Pages.antt =====
-- How one page of the backfill leads to the next.
use blink_lightning_gateway.Base.{
  ◌*◌, ℕ, zero, suc, ◌-◌, ◌≤◌, List, [], ◌∷◌, ◌++◌, ok, ◌≡◌, refl, sym, ap, ◌∙◌, arith, length,
  Result-cases, inl, inr,
}
use blink_lightning_gateway.Primitives.Amount.{ℤ}
use blink_lightning_gateway.Outbox.Sequence.{
  ◌⊑◌, ◌⊏◌, sequence_trans, sequence_lt-le, sequence_weak, Ascending, last_of, last_of-Ascending,
}
use blink_lightning_gateway.Outbox.Event.{OutboxEvent}
use blink_lightning_gateway.Outbox.Store.{
  Row, read_row, rows_after, insert_row, order_by_sequence, limit, read_rows, fetch_after_batch,
  backfill_batch_size, count_after,
}
use blink_lightning_gateway.Outbox.Order.{
  row_sequences, event_sequences, IsTable, pending_rows, pending_rows-Ascending,
  read_rows-sequences, limit-Ascending,
}

rows_after-twice :
    (c d : ℤ) (rows : List Row) → c ⊑ d → rows_after d (rows_after c rows) ≡ rows_after d rows
unfolding rows_after
rows_after-twice c d [] h = refl
rows_after-twice c d (r ∷ rows) h =
    ground (arith, rows_after-twice c d rows h, sequence_trans r.sequence c d)

rows_after-insert_above :
    (c : ℤ) (r : Row) (rows : List Row)
    → c ⊏ r.sequence
    → rows_after c (insert_row r rows) ≡ insert_row r (rows_after c rows)
unfolding rows_after insert_row
rows_after-insert_above c r [] h = ground arith
rows_after-insert_above c r (s ∷ rows) h =
    ground (arith, rows_after-insert_above c r rows h, sequence_trans r.sequence s.sequence c)

rows_after-insert_below :
    (c : ℤ) (r : Row) (rows : List Row)
    → r.sequence ⊑ c
    → rows_after c (insert_row r rows) ≡ rows_after c rows
unfolding rows_after insert_row
rows_after-insert_below c r [] h = ground arith
rows_after-insert_below c r (s ∷ rows) h = ground (arith, rows_after-insert_below c r rows h)

rows_after-order :
    (c : ℤ) (rows : List Row)
    → rows_after c (order_by_sequence rows) ≡ order_by_sequence (rows_after c rows)
unfolding rows_after order_by_sequence
rows_after-order c [] = refl
rows_after-order c (r ∷ rows) = ground (
  arith,
  rows_after-order c rows,
  rows_after-insert_above c r (order_by_sequence rows),
  rows_after-insert_below c r (order_by_sequence rows),
)

rows_after-Ascending :
    (c : ℤ) (rows : List Row) → Ascending c (row_sequences rows) → rows_after c rows ≡ rows
unfolding rows_after
rows_after-Ascending c [] a = refl
rows_after-Ascending c (r ∷ rows) a =
    ground (arith, a.0, rows_after-Ascending c rows (weaken rows a))
  where
    weaken :
        (rows : List Row)
        → Ascending c (r.sequence ∷ row_sequences rows)
        → Ascending c (row_sequences rows)
    weaken [] b = tt
    weaken (s ∷ rows) b = (
      sequence_lt-le c r.sequence s.sequence b.0 (sequence_weak r.sequence s.sequence b.1.0),
      b.1.1,
    )

abbrev drop : ℕ → List Row → List Row
drop zero rows = rows
drop (suc n) [] = []
drop (suc n) (r ∷ rows) = drop n rows

pub nil_of_length : (rows : List Row) → length rows ≤ 1000 * 0 → rows ≡ []
nil_of_length [] h = refl
nil_of_length (r ∷ rows) h = absurd (omega arith)

pub cons_not_nil : (e : OutboxEvent) (r q : List OutboxEvent) → ¬ ((e ∷ r) ++ q ≡ [])
cons_not_nil e r q h = ground arith

length-drop : (n : ℕ) (rows : List Row) → length (drop n rows) ≡ length rows - n
length-drop zero rows = omega arith
length-drop (suc n) [] = omega arith
length-drop (suc n) (r ∷ rows) = omega (arith, length-drop n rows)

limit-last :
    (n : ℕ) (c : ℤ) (rows : List Row)
    → Ascending c (row_sequences rows)
    → rows_after (last_of c (row_sequences (limit n rows))) rows ≡ drop n rows
unfolding limit rows_after
limit-last zero c rows a = rows_after-Ascending c rows a
limit-last (suc n) c [] a = refl
limit-last (suc n) c (r ∷ rows) a = ground (
  arith,
  limit-last n r.sequence rows a.1,
  last_of-Ascending r.sequence (row_sequences (limit n rows))
      (limit-Ascending n r.sequence rows a.1),
)

-- After a page, what is still to be delivered is what the page has left.
pending_rows-next :
    (n : ℕ) (c : ℤ) (table : List Row)
    → IsTable table
    → pending_rows (last_of c (row_sequences (limit n (pending_rows c table)))) table
      ≡ drop n (pending_rows c table)
pending_rows-next n c table h =
    let rows = pending_rows c table in
    let a = pending_rows-Ascending c table h in
    let d = last_of c (row_sequences (limit n rows)) in
    ap order_by_sequence
      (sym (rows_after-twice c d table (last_of-Ascending c _ (limit-Ascending n c rows a))))
    ∙ sym (rows_after-order d (rows_after c table))
    ∙ limit-last n c rows a

length-insert : (r : Row) (rows : List Row) → length (insert_row r rows) ≡ suc (length rows)
unfolding insert_row
length-insert r [] = refl
length-insert r (s ∷ rows) = ground (arith, length-insert r rows)

length-order : (rows : List Row) → length (order_by_sequence rows) ≡ length rows
unfolding order_by_sequence
length-order [] = refl
length-order (r ∷ rows) =
    ground (arith, length-insert r (order_by_sequence rows), length-order rows)

-- The count that the guard on the size of a backfill reads is the number of rows to deliver.
pub length-pending_rows :
    (c : ℤ) (table : List Row) → length (pending_rows c table) ≡ count_after c table
unfolding count_after
length-pending_rows c table = length-order (rows_after c table)

read_rows-split :
    (n : ℕ) (rows : List Row) (es : List OutboxEvent)
    → read_rows rows ≡ ok es
    → (p q : List OutboxEvent) × (read_rows (limit n rows) ≡ ok p)
      × (read_rows (drop n rows) ≡ ok q)
      × (es ≡ p ++ q)
unfolding read_rows limit
read_rows-split zero rows es h = ([], es, refl, h, refl)
read_rows-split (suc n) [] es h = ([], [], refl, refl, ground arith)
read_rows-split (suc n) (r ∷ rows) es h = elim (Result-cases (read_row r)) [
  | inr (x, p) ↦ ground (arith, p)
  | inl (e, p) ↦ elim (Result-cases (read_rows rows)) [
    | inr (x, q) ↦ ground (arith, p, q)
    | inl (rest, q) ↦
        let (a, b, u, v, w) = read_rows-split n rows rest q in
        (e ∷ a, b, ground (arith, p, u), v, ground (arith, p, q, w))
  ]
]

limit-empty : (n : ℕ) (rows : List Row) → 1 ≤ n → read_rows (limit n rows) ≡ ok [] → rows ≡ []
unfolding limit read_rows
limit-empty n [] h k = refl
limit-empty zero (r ∷ rows) h k = absurd (omega arith)
limit-empty (suc n) (r ∷ rows) h k = elim (Result-cases (read_row r)) [
  | inr (x, p) ↦ ground (arith, p)
  | inl (e, p) ↦ elim (Result-cases (read_rows (limit n rows))) [
    | inr (x, q) ↦ ground (arith, p, q)
    | inl (rest, q) ↦ ground (arith, p, q)
  ]
]

pub read_rows-nil :
    (rows : List Row) (es : List OutboxEvent) → rows ≡ [] → read_rows rows ≡ ok es → es ≡ []
unfolding read_rows
read_rows-nil [] es e k = ground arith
read_rows-nil (r ∷ rows) es e k = ground arith

batch_size-value : backfill_batch_size ≡ 1000
unfolding backfill_batch_size
batch_size-value = refl

-- A page is a first part of the events to deliver, and after it the rest is to be delivered. The
-- first page that is empty finds nothing left.
pub fetch_after_batch-next :
    (c : ℤ) (table : List Row) (es : List OutboxEvent)
    → IsTable table
    → read_rows (pending_rows c table) ≡ ok es
    → (p q : List OutboxEvent) × (fetch_after_batch c table ≡ ok p)
      × (es ≡ p ++ q)
      × (read_rows (pending_rows (last_of c (event_sequences p)) table) ≡ ok q)
      × (length (pending_rows (last_of c (event_sequences p)) table)
          ≡ length (pending_rows c table) - 1000)
      × (p ≡ [] → es ≡ [])
unfolding fetch_after_batch
fetch_after_batch-next c table es h k =
    let rows = pending_rows c table in
    let n = backfill_batch_size in
    let (p, q, u, v, w) = read_rows-split n rows es k in
    let next : pending_rows (last_of c (event_sequences p)) table ≡ drop n rows =
      rw (read_rows-sequences (limit n rows) p u) (pending_rows-next n c table h) in
    (
      p,
      q,
      u,
      w,
      ap read_rows next ∙ v,
      ap length next ∙ length-drop n rows ∙ ap (λ m. length rows - m) batch_size-value,
      λ e.
          read_rows-nil rows es (limit-empty n rows (omega (arith, batch_size-value)) (u ∙ ap ok e))
            k,
    )
