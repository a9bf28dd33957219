-- ===== src/App/World.antt =====
-- The environment of src/app: Postgres, LND, Symphony, the ownership check and the clock. What each of
-- them answers is a parameter, which may depend on everything that was asked and done before. A use
-- case is a function of that past, newest first; it returns its result and the longer past.
use blink_lightning_gateway.Wallet.Ownership.{CallerAuth}
use blink_lightning_gateway.Base.{ℕ, Bool, Option, List, ◌∷◌, String, Result, ok, err}
use blink_lightning_gateway.Primitives.Hex.{PaymentHash, Preimage, HexCodec}
use blink_lightning_gateway.Primitives.Types.{
  WalletId, BoltInvoice, Timestamp, InvoiceId, PaymentId,
}
use blink_lightning_gateway.Invoice.Event.{InvoiceCreateError, InvoiceFindError, InvoiceModifyError}
use blink_lightning_gateway.Invoice.Entity.{InvoiceLog, Invoice, NewInvoice}
use blink_lightning_gateway.Payment.Event.{
  PaymentCreateError, PaymentFindError, PaymentModifyError, PaymentError,
}
use blink_lightning_gateway.Payment.Entity.{PaymentLog, Payment, NewPayment}
use blink_lightning_gateway.Outbox.Event.{NewOutboxEvent}
use blink_lightning_gateway.Lnd.Types.{
  LndError, SendPaymentParams, SendPaymentResponse, InvoiceUpdate, AddHoldInvoiceParams,
}
use blink_lightning_gateway.Symphony.Client.{
  SymphonyAuthorizeRequest, SymphonyAuthorizeResponse, SymphonyError, DeclineReason,
}
use blink_lightning_gateway.App.Error.{AppError, Stop, returned}

-- What `decode_bolt11` reads from the `lightning-invoice` crate's `Bolt11Invoice`; `destination` is the
-- key that is named or recovered.
pub record Bolt11 : Type 0 where
  pub payment_hash : List ℕ
  pub destination : List ℕ
  pub amount_milli_satoshis : Option ℕ
  pub would_expire : Timestamp → Bool

-- What the use cases take of other crates, with no state.
pub record Crates : Type 1 where
  pub invoice_log : InvoiceLog
  pub payment_log : PaymentLog
  pub hex : HexCodec
  pub sha256 : List ℕ → List ℕ
  -- `Bolt11Invoice::from_str`, with the text of its error.
  pub parse_bolt11 : String → Result String Bolt11
  -- A `DeclineReason` printed by `{:?}`.
  pub debug_reason : DeclineReason → String

-- What a use case did, in the order of its calls. A row is recorded when it was written; `committed`
-- when a transaction was committed; a call of another service with the answer that it got.
pub data Effect (c : Crates) : Type 0 where
  clock_read : Effect c
  ownership_checked : WalletId → Effect c
  invoice_read payment_read : PaymentHash → Effect c
  stranded_listed : Effect c
  begun committed : Effect c
  payment_created : NewPayment → Effect c
  payment_updated : Payment c.payment_log → Effect c
  invoice_updated : Invoice c.invoice_log → Effect c
  published : NewOutboxEvent → Effect c
  -- Written in a transaction of its own.
  payment_saved : Payment c.payment_log → Effect c
  invoice_saved : NewInvoice → Effect c
  hold_asked : SymphonyAuthorizeRequest → Result SymphonyError SymphonyAuthorizeResponse → Effect c
  send_asked : SendPaymentParams → Result LndError SendPaymentResponse → Effect c
  cancel_asked : PaymentHash → Result LndError (Unit {0}) → Effect c
  settle_asked : Preimage → Result LndError (Unit {0}) → Effect c
  invoice_looked_up : PaymentHash → Result LndError InvoiceUpdate → Effect c
  -- `none` when the lookup did not answer in time.
  payment_looked_up : PaymentHash → Option (Result LndError SendPaymentResponse) → Effect c
  hold_invoice_added : AddHoldInvoiceParams → Result LndError BoltInvoice → Effect c
  preimage_generated : Effect c
  listener_spawned : PaymentHash → Effect c

abbrev pub Trace : Crates → Type 0
Trace c = List (Effect c)

-- The answers of the environment.
pub record World (c : Crates) : Type 0 where
  pub now : Trace c → Timestamp
  pub new_payment_id : Trace c → PaymentId
  pub new_invoice_id : Trace c → InvoiceId
  pub generate : Trace c → Preimage
  pub check : Trace c → CallerAuth → WalletId → Result String (Unit {0})
  pub find_invoice : Trace c → PaymentHash → Result InvoiceFindError (Invoice c.invoice_log)
  pub maybe_find_invoice :
      Trace c → PaymentHash → Result InvoiceFindError (Option (Invoice c.invoice_log))
  pub find_payment : Trace c → PaymentHash → Result PaymentFindError (Payment c.payment_log)
  pub list_stranded : Trace c → Timestamp → ℕ → Result PaymentError (List PaymentHash)
  pub begin : Trace c → Result String (Unit {0})
  pub commit : Trace c → Result String (Unit {0})
  pub create_payment : Trace c → NewPayment → Result PaymentCreateError (Unit {0})
  pub create_invoice : Trace c → NewInvoice → Result InvoiceCreateError (Unit {0})
  pub update_payment : Trace c → Payment c.payment_log → Result PaymentModifyError (Unit {0})
  pub update_invoice : Trace c → Invoice c.invoice_log → Result InvoiceModifyError (Unit {0})
  pub publish : Trace c → NewOutboxEvent → Result String (Unit {0})
  pub authorize_spend :
      Trace c → SymphonyAuthorizeRequest → Result SymphonyError SymphonyAuthorizeResponse
  pub send_payment : Trace c → SendPaymentParams → Result LndError SendPaymentResponse
  pub cancel_invoice : Trace c → PaymentHash → Result LndError (Unit {0})
  pub settle_invoice : Trace c → Preimage → Result LndError (Unit {0})
  pub lookup_invoice : Trace c → PaymentHash → Result LndError InvoiceUpdate
  pub lookup_payment : Trace c → PaymentHash → Option (Result LndError SendPaymentResponse)
  pub add_hold_invoice : Trace c → AddHoldInvoiceParams → Result LndError BoltInvoice

-- A part of a use case.
abbrev pub Task : Crates → Type 0 → Type 0
Task c A = Trace c → Result Stop A × Trace c

module _ {c : Crates} where
  abbrev pub pure : {A : Type 0} → A → Task c A
  pure a tr = (ok a, tr)

  abbrev pub stop : {A : Type 0} → Stop → Task c A
  stop s tr = (err s, tr)

  abbrev pub fail_with : {A : Type 0} → AppError → Task c A
  fail_with e tr = (err (returned e), tr)

  abbrev and_then :
      {A B : Type 0} → Result Stop A → Trace c → (A → Task c B) → Result Stop B × Trace c
  and_then (ok a) tr f = f a tr
  and_then (err s) tr f = (err s, tr)

  infixl 5 ◌>>=◌ ◌>>◌
  abbrev pub ◌>>=◌ : {A B : Type 0} → Task c A → (A → Task c B) → Task c B
  (t >>= f) tr = let r = t tr in and_then r.0 r.1 f

  abbrev pub ◌>>◌ : {A B : Type 0} → Task c A → Task c B → Task c B
  t >> u = t >>= λ _. u

  -- A call whose answer is recorded, or that always answers.
  abbrev pub ask : {A : Type 0} → (Trace c → A) → (A → Effect c) → Task c A
  ask f e tr = let a = f tr in (ok a, e a ∷ tr)

  -- A value from outside, such as a new identifier, that is not recorded.
  abbrev pub peek : {A : Type 0} → (Trace c → A) → Task c A
  peek f tr = (ok (f tr), tr)

  abbrev write_answer :
      {E : Type 0}
      → Result E (Unit {0})
      → Effect c
      → Trace c
      → Result Stop (Result E (Unit {0})) × Trace c
  write_answer (ok u) e tr = (ok (ok u), e ∷ tr)
  write_answer (err x) e tr = (ok (err x), tr)

  -- A write, which is recorded when it succeeds.
  abbrev pub write :
      {E : Type 0} → (Trace c → Result E (Unit {0})) → Effect c → Task c (Result E (Unit {0}))
  write f e tr = write_answer (f tr) e tr

  -- `result.map_err(wrap)?`
  abbrev pub or_fail : {E A : Type 0} → (E → AppError) → Result E A → Task c A
  or_fail wrap (ok a) tr = (ok a, tr)
  or_fail wrap (err e) tr = (err (returned (wrap e)), tr)
