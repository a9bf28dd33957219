-- ===== src/Invoice/Repo.antt =====
-- src/invoice/repo.rs: the two queries that are written by hand, over the rows of the table `invoices`,
-- and the text of a state in its column (src/invoice/entity.rs). Loading an entity is generated code,
-- and a parameter.
use text.Mathlib.Text.{◌==◌ as str_eq}
use blink_lightning_gateway.Base.{
  ℕ, zero, suc, Bool, true, false, ◌||◌, List, [], ◌∷◌, String, Result, ok, err, if◌then◌else◌, ◌≡◌,
  refl,
}
use blink_lightning_gateway.Primitives.Hex.{PaymentHash}
use blink_lightning_gateway.Primitives.Types.{InvoiceId}
use blink_lightning_gateway.Invoice.Event.{InvoiceState, open_, held, settled, canceled}

-- `InvoiceState::as_str`
unfoldable pub invoice_state_as_str : InvoiceState → String
invoice_state_as_str open_ = "open"
invoice_state_as_str held = "held"
invoice_state_as_str settled = "settled"
invoice_state_as_str canceled = "canceled"

abbrev pub not_final : InvoiceState → Bool
not_final open_ = true
not_final held = true
not_final settled = false
not_final canceled = false

-- The columns that the queries read.
pub record InvoiceRow : Type 0 where
  pub id : InvoiceId
  pub payment_hash : PaymentHash
  pub state : String

-- `WHERE state IN ('open', 'held')`
unfoldable pub is_open_row : InvoiceRow → Bool
is_open_row row = str_eq row.state "open" || str_eq row.state "held"

module _ {E A : Type 0} (find_by_id : InvoiceId → Result E A) where
  -- The loop over the ids: an invoice that cannot be loaded is skipped.
  unfoldable pub loaded : List InvoiceRow → List A
  loaded [] = []
  loaded (row ∷ rows) = elim (find_by_id row.id) [ ok a ↦ a ∷ loaded rows | err e ↦ loaded rows ]

  unfoldable pub open_rows : List InvoiceRow → List InvoiceRow
  open_rows [] = []
  open_rows (row ∷ rows) = if is_open_row row then row ∷ open_rows rows else open_rows rows

  unfoldable pub list_open_invoices : List InvoiceRow → List A
  list_open_invoices rows = loaded (open_rows rows)

-- `list_held`
unfoldable pub list_held : ℕ → List InvoiceRow → List PaymentHash
list_held zero rows = []
list_held (suc limit) [] = []
list_held (suc limit) (row ∷ rows) =
    if str_eq row.state "held"
    then row.payment_hash ∷ list_held limit rows
    else list_held (suc limit) rows

-- The query for open invoices takes a row exactly when its state is not final.
pub is_open_row_lem :
    (row : InvoiceRow) (s : InvoiceState)
    → row.state ≡ invoice_state_as_str s
    → is_open_row row ≡ not_final s
unfolding is_open_row invoice_state_as_str
is_open_row_lem row open_ h = rw h refl
is_open_row_lem row held h = rw h refl
is_open_row_lem row settled h = rw h refl
is_open_row_lem row canceled h = rw h refl
