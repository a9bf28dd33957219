-- ===== src/Invoice/Creation.antt =====
-- What the validating constructor of an invoice accepts, and when an invoice expires.
use blink_lightning_gateway.Base.{
  ℕ, ◌≤◌, ◌<◌, ◌≡◌, ◌≢◌, ◌⊎◌, Option, none, some, ok, err, arith, String, refl,
}
use blink_lightning_gateway.Primitives.Amount.{MilliSatoshi}
use blink_lightning_gateway.Primitives.Hex.{PaymentHash, Preimage}
use blink_lightning_gateway.Primitives.Types.{
  InvoiceId, WalletId, BoltInvoice, Timestamp, add_seconds,
}
use blink_lightning_gateway.Invoice.Event.{invalid_amount}
use blink_lightning_gateway.Invoice.Entity.{NewInvoice, validated, try_new, effective_expiry}

effective_expiry_cases :
    (s : ℕ)
    → (60 ≤ effective_expiry s)
      × (effective_expiry s ≤ 86400)
      × (60 ≤ s → s ≤ 86400 → effective_expiry s ≡ s)
      × ((s < 60) ⊎ (86400 < s) → effective_expiry s ≡ 14400)
unfolding effective_expiry
effective_expiry_cases s = (ground arith, ground arith, λ a b. ground arith, λ h. ground arith)

-- An invoice that expires between one minute and one day after `now`: at the time asked for if that
-- is in this range, and after four hours if it is not.
abbrev pub ExpiresInTime : Timestamp → ℕ → NewInvoice → Type 0
ExpiresInTime now expiry n =
    (add_seconds now 60 ≤ n.expiry_at)
    × (n.expiry_at ≤ add_seconds now 86400)
    × (60 ≤ expiry → expiry ≤ 86400 → n.expiry_at ≡ add_seconds now expiry)
    × ((expiry < 60) ⊎ (86400 < expiry) → n.expiry_at ≡ add_seconds now 14400)

module _ (id : InvoiceId) (h : PaymentHash) (p : Preimage) (w : WalletId) (expiry : ℕ)
    (b : BoltInvoice) (x : String) (now : Timestamp) where
  accepted :
      (amount : Option MilliSatoshi)
      → amount ≢ some 0
      → (n : NewInvoice) × (try_new id h p w amount expiry b x now ≡ ok n)
        × (n.amount_msat ≡ amount)
        × (n.payment_hash ≡ h)
        × (n.payment_preimage ≡ p)
        × ExpiresInTime now expiry n
  unfolding try_new
  accepted none ne = (
    validated id h p w none expiry b x now,
    refl,
    refl,
    refl,
    refl,
    ground (arith, effective_expiry_cases expiry),
  )
  accepted (some a) ne = (
    validated id h p w (some a) expiry b x now,
    ground arith,
    refl,
    refl,
    refl,
    ground (arith, effective_expiry_cases expiry),
  )

  -- `try_new` refuses an amount of zero and nothing else. Otherwise the new invoice keeps the amount
  -- (or its absence), the hash and the preimage, and expires in time: between one minute and one day
  -- after `now`, when asked if that is in the range, and after four hours if it is not.
  pub new_invoice_cases :
      (amount : Option MilliSatoshi)
      → (amount ≡ some 0 → try_new id h p w amount expiry b x now ≡ err invalid_amount)
        × (amount ≢ some 0
            → (n : NewInvoice) × (try_new id h p w amount expiry b x now ≡ ok n)
              × (n.amount_msat ≡ amount)
              × (n.payment_hash ≡ h)
              × (n.payment_preimage ≡ p)
              × ExpiresInTime now expiry n)
  unfolding try_new
  new_invoice_cases amount = (λ e. rw e, accepted amount)
