-- ===== src/Invoice/Hydration.antt =====
-- src/invoice/entity.rs, `TryFromEvents`: an invoice is rebuilt from its log through the builder that
-- `derive_builder` writes, in which a field is unset until an event sets it.
use blink_lightning_gateway.Base.{
  Option, none, some, List, [], ◌∷◌, ◌++◌, ◌≡◌, refl, String, Result, ok, err,
}
use blink_lightning_gateway.Primitives.Amount.{MilliSatoshi}
use blink_lightning_gateway.Primitives.Hex.{PaymentHash, Preimage}
use blink_lightning_gateway.Primitives.Types.{InvoiceId, WalletId, BoltInvoice, Timestamp}
use blink_lightning_gateway.Invoice.Event.{
  CancelReason, InvoiceEvent, created, htlc_held, settled_intraledger, InvoiceState, open_, held,
}
use blink_lightning_gateway.Invoice.Entity.{InvoiceLog, Invoice}

pub record InvoiceBuilder : Type 0 where
  pub id : Option InvoiceId
  pub payment_hash : Option PaymentHash
  pub payment_preimage : Option Preimage
  pub wallet_id : Option WalletId
  pub amount_msat : Option (Option MilliSatoshi)
  pub expiry_at : Option Timestamp
  pub bolt_invoice : Option BoltInvoice
  pub external_id : Option String
  pub state : Option InvoiceState
  pub created_at : Option Timestamp
  pub held_amount_msat : Option (Option MilliSatoshi)
  pub canceled_reason : Option (Option CancelReason)

abbrev pub empty_builder : InvoiceBuilder
empty_builder = record {
  id = none;
  payment_hash = none;
  payment_preimage = none;
  wallet_id = none;
  amount_msat = none;
  expiry_at = none;
  bolt_invoice = none;
  external_id = none;
  state = none;
  created_at = none;
  held_amount_msat = none;
  canceled_reason = none;
}

-- `UninitializedFieldError` names the field.
pub data EntityHydrationError : Type 0 where
  uninitialized_field : String → EntityHydrationError

infixl 5 ◌>>=◌
abbrev ◌>>=◌ {ℓ κ} :
    {A : Type ℓ} {B : Type κ}
    → Result EntityHydrationError A
    → (A → Result EntityHydrationError B)
    → Result EntityHydrationError B
ok a >>= f = f a
err e >>= f = err e

abbrev required {ℓ} : {A : Type ℓ} → Option A → String → Result EntityHydrationError A
required none field = err (uninitialized_field field)
required (some a) field = ok a

abbrev or_default {ℓ} : {A : Type ℓ} → Option A → A → A
or_default none d = d
or_default (some a) d = a

-- The body of the loop over the events.
unfoldable pub apply_event : InvoiceBuilder → InvoiceEvent → InvoiceBuilder
apply_event b (created h p w a e bolt x c) = record b {
  payment_hash = some h;
  payment_preimage = some p;
  wallet_id = some w;
  amount_msat = some a;
  expiry_at = some e;
  bolt_invoice = some bolt;
  external_id = some x;
  created_at = some c;
}
apply_event b (htlc_held _ htlc_amount_msat) = record b {
  state = some held;
  held_amount_msat = some (some htlc_amount_msat);
}
apply_event b (InvoiceEvent.settled _) = record b { state = some InvoiceState.settled }
apply_event b (settled_intraledger _) = record b { state = some InvoiceState.settled }
apply_event b (InvoiceEvent.canceled _ reason) = record b {
  state = some InvoiceState.canceled;
  canceled_reason = some (some reason);
}

unfoldable pub apply_all : InvoiceBuilder → List InvoiceEvent → InvoiceBuilder
apply_all b [] = b
apply_all b (e ∷ es) = apply_all (apply_event b e) es

pub apply_all-append :
    (b : InvoiceBuilder) (es fs : List InvoiceEvent)
    → apply_all b (es ++ fs) ≡ apply_all (apply_all b es) fs
unfolding apply_all
apply_all-append b [] fs = refl
apply_all-append b (e ∷ es) fs = apply_all-append (apply_event b e) es fs

module _ (log : InvoiceLog) where
  open log use {Events, iter_all}

  -- `builder.events(events).build()`
  unfoldable pub build : InvoiceBuilder → Events → Result EntityHydrationError (Invoice log)
  build b events = do
    id ← required b.id "id"
    payment_hash ← required b.payment_hash "payment_hash"
    payment_preimage ← required b.payment_preimage "payment_preimage"
    wallet_id ← required b.wallet_id "wallet_id"
    amount_msat ← required b.amount_msat "amount_msat"
    expiry_at ← required b.expiry_at "expiry_at"
    bolt_invoice ← required b.bolt_invoice "bolt_invoice"
    external_id ← required b.external_id "external_id"
    created_at ← required b.created_at "created_at"
    ok (record {
      id = id;
      payment_hash = payment_hash;
      payment_preimage = payment_preimage;
      wallet_id = wallet_id;
      amount_msat = amount_msat;
      expiry_at = expiry_at;
      bolt_invoice = bolt_invoice;
      external_id = external_id;
      state = or_default b.state open_;
      created_at = created_at;
      held_amount_msat = or_default b.held_amount_msat none;
      canceled_reason = or_default b.canceled_reason none;
      events = events;
    })

  unfoldable pub try_from_events : Events → Result EntityHydrationError (Invoice log)
  try_from_events events =
      build (apply_all (record empty_builder { id = some (log.id events) }) (iter_all events))
        events
