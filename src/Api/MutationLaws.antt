-- ===== src/Api/MutationLaws.antt =====
-- What the payload of a new invoice tells the client.
use blink_lightning_gateway.Base.{
  List, ℕ, ◌*◌, ◌^◌, ◌<◌, ◌≡◌, refl, Option, none, some, String, [], ◌∷◌, Result, ok, err, arith,
}
use blink_lightning_gateway.Invoice.Entity.{Invoice, try_new}
use blink_lightning_gateway.Invoice.Lifecycle.{fresh}
use blink_lightning_gateway.Wallet.Ownership.{CallerAuth}
use blink_lightning_gateway.App.Error.{AppError, Stop, returned, panicked}
use blink_lightning_gateway.App.World.{Crates, World, Trace, invoice_saved, listener_spawned}
use blink_lightning_gateway.App.Commit.{check_wallet_ownership}
use blink_lightning_gateway.App.Issue.{Mode, NewInvoiceRequest, create_invoice}
use blink_lightning_gateway.Api.Mutation.{
  SatAmount, LnInvoiceCreateInput, LnInvoice, LnInvoicePayload, to_msat, create_request,
  issued_payload, create_payload, ln_invoice_create,
}

module _ {c : Crates} where
  -- What a use case that issues an invoice of this amount leaves: the row it wrote, then the listener.
  abbrev pub IsSaved : ℕ → Invoice c.invoice_log → Trace c → Type 0
  IsSaved amount_msat inv (listener_spawned h ∷ invoice_saved n ∷ tr) =
      (h ≡ inv.payment_hash)
      × (n.payment_hash ≡ inv.payment_hash)
      × (n.bolt_invoice ≡ inv.bolt_invoice)
      × (n.amount_msat ≡ some amount_msat)
      × (inv.amount_msat ≡ some amount_msat)
  IsSaved amount_msat inv tr = ⊥

  abbrev pub IsIssuedAs : Result Stop (Invoice c.invoice_log) → ℕ → Trace c → Type 0
  IsIssuedAs (ok inv) amount_msat tr = IsSaved amount_msat inv tr
  IsIssuedAs (err (returned e)) amount_msat tr = Unit
  IsIssuedAs (err (panicked p)) amount_msat tr = ⊥

  module _ (w : World c) where
    create_invoice-IsIssuedAs :
        (mode : Mode) (request : NewInvoiceRequest) (tr : Trace c)
        → (let r = create_invoice w mode request tr in IsIssuedAs r.0 request.amount_msat r.1)
    unfolding create_invoice check_wallet_ownership try_new fresh
    create_invoice-IsIssuedAs mode request tr = ground arith

to_msat_fits : (amount : SatAmount) → amount * 1000 < 2 ^ 64 → to_msat amount ≡ amount * 1000
unfolding to_msat
to_msat_fits amount fits = omega (arith, fits)

module _ {c : Crates} where
  -- The row of an invoice of this amount, which the client was told of.
  abbrev pub IsRow : SatAmount → LnInvoice → Trace c → Type 0
  IsRow amount i (listener_spawned h ∷ invoice_saved n ∷ tr) =
      (h ≡ i.payment_hash)
      × (n.payment_hash ≡ i.payment_hash)
      × (n.bolt_invoice ≡ i.payment_request)
      × (n.amount_msat ≡ some (amount * 1000))
  IsRow amount i tr = ⊥

  abbrev pub IsTold : SatAmount → List String → Option LnInvoice → Trace c → Type 0
  IsTold amount errors (some i) tr = (errors ≡ []) × (i.satoshis ≡ amount) × IsRow amount i tr
  IsTold amount errors none tr = (message : String) × (errors ≡ message ∷ [])

  abbrev pub IsAnswered : SatAmount → Result Stop LnInvoicePayload → Trace c → Type 0
  IsAnswered amount (ok p) tr = IsTold amount p.errors p.invoice tr
  IsAnswered amount (err s) tr = ⊥

  module _ (describe : AppError → String) where
    saved_told :
        (amount amount_msat : ℕ) (inv : Invoice c.invoice_log) (tr : Trace c)
        → amount_msat ≡ amount * 1000
        → IsSaved amount_msat inv tr
        → IsAnswered amount (issued_payload describe inv) tr
    unfolding issued_payload
    saved_told amount amount_msat inv (listener_spawned h ∷ invoice_saved n ∷ tr) same saved =
        ground (arith, same, saved)
    saved_told amount amount_msat inv tr same saved = ground (arith, saved)

    answered :
        (amount amount_msat : ℕ) (r : Result Stop (Invoice c.invoice_log)) (tr : Trace c)
        → amount_msat ≡ amount * 1000
        → IsIssuedAs r amount_msat tr
        → IsAnswered amount (create_payload describe r) tr
    unfolding create_payload
    answered amount amount_msat (ok inv) tr same h = saved_told amount amount_msat inv tr same h
    answered amount amount_msat (err (returned e)) tr same h = (describe e, refl)
    answered amount amount_msat (err (panicked p)) tr same h = h

    -- The mutation that creates an invoice always answers, whatever the environment does, if the amount
    -- in millisatoshis fits a `u64`: either with one error and no invoice, or with no error and an
    -- invoice of exactly the satoshis asked for, whose row with this amount, hash and text was written
    -- last, before its listener was asked for.
    pub ln_invoice_create-IsAnswered :
        (w : World c) (mode : Mode) (caller : CallerAuth) (input : LnInvoiceCreateInput)
        (tr : Trace c)
        → input.amount * 1000 < 2 ^ 64
        → (let r = ln_invoice_create describe w mode caller input tr in
            IsAnswered input.amount r.0 r.1)
    unfolding ln_invoice_create create_request
    ln_invoice_create-IsAnswered w mode caller input tr fits =
        let request = create_request caller input in
        answered input.amount (to_msat input.amount) (create_invoice w mode request tr).0
          (create_invoice w mode request tr).1 (to_msat_fits input.amount fits)
          (create_invoice-IsIssuedAs w mode request tr)
