-- ===== src/App/TransferLaws.antt =====
-- The order of an intraledger transfer: the ledger, then LND's invoice, then the local rows.
use blink_lightning_gateway.App.Announced.{
  creates, changes, changes_invoice, announces, Write, open_writes,
}
use blink_lightning_gateway.Base.{ok, Option, none, some, suc, ℕ, ◌≡◌, ◌⊎◌, ◌<◌}
use blink_lightning_gateway.Invoice.Entity.{Invoice}
use blink_lightning_gateway.Payment.Entity.{DecodedInvoice, NewPayment, try_new_intraledger}
use blink_lightning_gateway.Primitives.Amount.{MilliSatoshi, whole_sat}
use blink_lightning_gateway.Primitives.Types.{PaymentId, Timestamp, WalletId}
use blink_lightning_gateway.Base.{List, [], ◌∷◌, arith}
use blink_lightning_gateway.Symphony.Client.{approved}
use blink_lightning_gateway.App.World.{
  Crates, World, Trace, begun, committed, payment_saved, invoice_saved, send_asked, hold_asked,
  cancel_asked,
}

module _ {c : Crates} where
  abbrev pub count_sends : Trace c → ℕ
  count_sends [] = 0
  count_sends (send_asked params answer ∷ tr) = suc (count_sends tr)
  count_sends (_ ∷ tr) = count_sends tr

  -- The past of the transaction that is open.
  abbrev pub before_tx : Trace c → Trace c
  before_tx [] = []
  before_tx (begun ∷ tr) = tr
  before_tx (_ ∷ tr) = before_tx tr

  -- The payment that the writes of a transfer create.
  abbrev pub transferred : List (Write c) → Option NewPayment
  transferred (announces e ∷ (changes_invoice inv ∷ (changes p ∷ (creates n ∷ [])))) = some n
  transferred _ = none

  -- Symphony moved the amount of the payment from its wallet, and then LND canceled the invoice.
  abbrev pub IsMoved : NewPayment → Trace c → Type 0
  IsMoved n (cancel_asked h (ok _) ∷ (hold_asked hold (ok resp) ∷ tr)) =
      (resp.status ≡ approved)
      × (hold.sat_amount ≡ whole_sat n.amount_msat)
      × (hold.account.id ≡ n.wallet_id)
      × (h ≡ n.payment_hash)
  IsMoved n _ = ⊥

  abbrev pub IsBacked : Option NewPayment → Trace c → Type 0
  IsBacked none tr = ⊥
  IsBacked (some n) tr = IsMoved n tr

  -- How often something was stored: a transaction was committed, or a row saved without one.
  abbrev pub count_stored : Trace c → ℕ
  count_stored [] = 0
  count_stored (committed ∷ tr) = suc (count_stored tr)
  count_stored (payment_saved p ∷ tr) = suc (count_stored tr)
  count_stored (invoice_saved n ∷ tr) = suc (count_stored tr)
  count_stored (_ ∷ tr) = count_stored tr

  -- After the first `past` times, nothing was stored but transfers, and every one had been moved
  -- before.
  abbrev pub IsPaidFor : ℕ → Trace c → Type 0
  IsPaidFor past [] = Unit
  IsPaidFor past (committed ∷ tr) =
      ((count_stored tr < past) ⊎ IsBacked (transferred (open_writes tr)) (before_tx tr))
      × IsPaidFor past tr
  IsPaidFor past (payment_saved p ∷ tr) = (count_stored tr < past) × IsPaidFor past tr
  IsPaidFor past (invoice_saved n ∷ tr) = (count_stored tr < past) × IsPaidFor past tr
  IsPaidFor past (_ ∷ tr) = IsPaidFor past tr

module _ {c : Crates} (w : World c) where
  pub try_new_intraledger_made :
      (id : PaymentId) (decoded : DecodedInvoice) (a : Option MilliSatoshi) (wallet : WalletId)
      (t : Timestamp) (n : NewPayment)
      → try_new_intraledger id decoded a wallet t ≡ ok n
      → (n.payment_hash ≡ decoded.payment_hash) × (n.wallet_id ≡ wallet)
  unfolding try_new_intraledger
  try_new_intraledger_made id decoded a wallet t n e = ground arith
