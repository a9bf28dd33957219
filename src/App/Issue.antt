-- ===== src/App/Issue.antt =====
-- src/app/create_invoice.rs: how an invoice is issued, and what its row stands on. The preimage comes
-- from the environment.
use blink_lightning_gateway.App.Commit.{check_wallet_ownership, clock, hex_of}
use blink_lightning_gateway.Invoice.Entity.{Invoice, NewInvoice}
use blink_lightning_gateway.Lnd.Types.{AddHoldInvoiceParams}
use blink_lightning_gateway.Primitives.Amount.{MilliSatoshi}
use blink_lightning_gateway.Primitives.Hex.{PaymentHash, payment_hash}
use blink_lightning_gateway.Primitives.Types.{WalletId}
use Prim.Native.String.{[] as empty, ◌∷◌ as cons, len}
use Prim.Native.Char.{Char, code}
use blink_lightning_gateway.Base.{
  ℕ, ◌&&◌, ◌||◌, ◌==◌, Bool, true, Option, none, some, ◌∷◌, [], ◌≡◌, String, Result, ok, err, leb,
  if◌then◌else◌, arith,
}
use blink_lightning_gateway.Primitives.Hex.{payment_hash as hash_of}
use blink_lightning_gateway.Invoice.Entity.{try_new}
use blink_lightning_gateway.Invoice.Event.{from_create_error, invalid_external_id, InvoiceError}
use blink_lightning_gateway.Invoice.Lifecycle.{fresh}
use blink_lightning_gateway.App.Error.{invoice, lnd, wallet_ownership}
use blink_lightning_gateway.App.World.{
  Crates, World, Task, Trace, invoice_saved, hold_invoice_added, preimage_generated,
  listener_spawned, pure, fail_with, ask, peek, write, or_fail, ◌>>=◌, ◌>>◌,
}
use blink_lightning_gateway.Wallet.Ownership.{CallerAuth}

pub data Mode : Type 0 where
  live dry_run : Mode

pub record NewInvoiceRequest : Type 0 where
  pub caller_auth : CallerAuth
  pub wallet_id : WalletId
  pub amount_msat : MilliSatoshi
  pub expiry_seconds : ℕ
  pub memo : Option String
  pub external_id : Option String

-- The class `[a-z0-9_-]`. A character beyond ASCII fails it, as each of its bytes does.
abbrev is_id_char : Char → Bool
is_id_char ch =
    (leb b'a' (code ch) && leb (code ch) b'z')
    || ((leb b'0' (code ch) && leb (code ch) b'9') || ((code ch == b'-') || (code ch == b'_')))

abbrev all_id_chars : String → Bool
all_id_chars empty = true
all_id_chars (cons ch s) = is_id_char ch && all_id_chars s

unfoldable pub is_valid_external_id : String → Bool
is_valid_external_id s = (leb 1 (len s) && leb (len s) 100) && all_id_chars s

abbrev supplied_or : Option String → String → String
supplied_or none default = default
supplied_or (some s) default = s

module _ {c : Crates} (w : World c) where
  unfoldable pub resolve_external_id : Option String → PaymentHash → Result InvoiceError String
  resolve_external_id supplied payment_hash =
      let external_id = supplied_or supplied (hex_of w payment_hash) in
      if is_valid_external_id external_id
      then ok external_id
      else err (invalid_external_id external_id)

  abbrev refuse_dry_run : Mode → Task c (Unit {0})
  refuse_dry_run live = pure tt
  refuse_dry_run dry_run = fail_with (wallet_ownership "DryRun mode not yet wired in slice 1a")

  unfoldable pub create_invoice : Mode → NewInvoiceRequest → Task c (Invoice c.invoice_log)
  create_invoice mode request = do
    t ← clock w
    check_wallet_ownership w request.caller_auth request.wallet_id
    payment_preimage ← ask w.generate (λ _. preimage_generated)
    let payment_hash = hash_of c.sha256 payment_preimage
    external_id ← or_fail invoice (resolve_external_id request.external_id payment_hash)
    let params : AddHoldInvoiceParams = record {
      payment_hash = payment_hash;
      amount_msat = some request.amount_msat;
      memo = request.memo;
      expiry_seconds = request.expiry_seconds;
    }
    answer ← ask (λ tr. w.add_hold_invoice tr params) (hold_invoice_added params)
    bolt_invoice ← or_fail lnd answer
    id ← peek w.new_invoice_id
    new_invoice ← or_fail invoice (
        try_new id payment_hash payment_preimage request.wallet_id (some request.amount_msat)
          request.expiry_seconds bolt_invoice external_id t)
    refuse_dry_run mode
    saved ← write (λ tr. w.create_invoice tr new_invoice) (invoice_saved new_invoice)
    or_fail (λ e. invoice (from_create_error e)) saved
    ask (λ _. tt) (λ _. listener_spawned payment_hash)
    pure (fresh c.invoice_log new_invoice)

module _ {c : Crates} where
  -- The call of LND that an invoice row stands on.
  abbrev pub IsBackedAtLnd : NewInvoice → Trace c → Type 0
  IsBackedAtLnd n (hold_invoice_added params (ok bolt_invoice) ∷ tr) =
      (params.payment_hash ≡ n.payment_hash)
      × (params.amount_msat ≡ n.amount_msat)
      × (n.bolt_invoice ≡ bolt_invoice)
      × (n.payment_hash ≡ hash_of c.sha256 n.payment_preimage)
      × (is_valid_external_id n.external_id ≡ true)
  IsBackedAtLnd n _ = ⊥

  abbrev pub IsIssued : Trace c → Type 0
  IsIssued [] = Unit
  IsIssued (invoice_saved n ∷ tr) = IsBackedAtLnd n tr × IsIssued tr
  IsIssued (_ ∷ tr) = IsIssued tr

module _ {c : Crates} (w : World c) where
  resolved_valid :
      (supplied : Option String) (h : PaymentHash) (x : String)
      → resolve_external_id w supplied h ≡ ok x
      → is_valid_external_id x ≡ true
  unfolding resolve_external_id
  resolved_valid supplied h x e = ground arith

  -- Whatever the environment answers: an invoice row is written only right after LND issued a hold
  -- invoice for its hash and its amount, with the text that LND gave; the hash is that of the preimage
  -- in the row, and the external identifier is valid.
  pub create_invoice-IsIssued :
      (mode : Mode) (request : NewInvoiceRequest) (tr : Trace c)
      → IsIssued tr
      → IsIssued (create_invoice w mode request tr).1
  unfolding create_invoice check_wallet_ownership try_new
  create_invoice-IsIssued mode request tr k = grind (arith, resolved_valid)
