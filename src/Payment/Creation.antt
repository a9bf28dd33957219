-- ===== src/Payment/Creation.antt =====
-- What the two validating constructors of a payment accept.
use text.Mathlib.TextEquality.{eq_iff}
use blink_lightning_gateway.Base.{◌<◌, ◌≡◌, ◌≢◌, ◌⊎◌, ◌↔◌, Option, none, some, ok, arith}
use blink_lightning_gateway.Primitives.Amount.{MilliSatoshi}
use blink_lightning_gateway.Primitives.Types.{PaymentId, WalletId, Timestamp}
use blink_lightning_gateway.Payment.Entity.{
  DecodedInvoice, NewPayment, payment_of, try_new, try_new_intraledger,
}

module _ (id : PaymentId) (d : DecodedInvoice) (w : WalletId) (now : Timestamp) where
  -- `try_new` gives a payment exactly when one of the two amounts is there and not the other, and
  -- that amount, the fee cap and the invoice's text are not empty; the payment has this amount, this
  -- fee cap, and the hash, destination and text of the decoded invoice.
  pub new_payment_iff :
      (requested : Option MilliSatoshi) (max_fee : MilliSatoshi) (n : NewPayment)
      → (try_new id d w requested max_fee now ≡ ok n) ↔ (
          (n ≡ payment_of id d w n.amount_msat max_fee now)
          × (((d.amount_msat ≡ some n.amount_msat) × (requested ≡ none))
              ⊎ ((d.amount_msat ≡ none) × (requested ≡ some n.amount_msat)))
          × (0 < n.amount_msat)
          × (0 < max_fee)
          × (d.bolt_invoice ≢ ""))
  unfolding try_new
  new_payment_iff requested max_fee n =
      (λ h. ground (arith, eq_iff d.bolt_invoice ""), λ h. ground (arith, eq_iff d.bolt_invoice ""))

  -- `try_new_intraledger` gives a payment exactly when its amount is the one that the recipient's
  -- invoice commits to, with no other amount in the sender's copy, or the sender's copy has the only
  -- amount; and the amount and the invoice's text are not empty. The payment's fee cap is zero.
  pub intraledger_payment_iff :
      (committed : Option MilliSatoshi) (n : NewPayment)
      → (try_new_intraledger id d committed w now ≡ ok n) ↔ (
          (n ≡ payment_of id d w n.amount_msat 0 now)
          × (((committed ≡ some n.amount_msat)
                × ((d.amount_msat ≡ none) ⊎ (d.amount_msat ≡ some n.amount_msat)))
              ⊎ ((committed ≡ none) × (d.amount_msat ≡ some n.amount_msat)))
          × (0 < n.amount_msat)
          × (d.bolt_invoice ≢ ""))
  unfolding try_new_intraledger
  intraledger_payment_iff committed n =
      (λ h. ground (arith, eq_iff d.bolt_invoice ""), λ h. ground (arith, eq_iff d.bolt_invoice ""))
