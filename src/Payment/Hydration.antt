-- ===== src/Payment/Hydration.antt =====
-- src/payment/entity.rs, `TryFromEvents`: a payment is rebuilt from its log through the builder that
-- `derive_builder` writes, in which a field is unset until an event sets it.
use blink_lightning_gateway.Base.{
  Option, none, some, List, [], ◌∷◌, ◌++◌, ◌≡◌, refl, String, Result, ok, err,
}
use blink_lightning_gateway.Primitives.Amount.{MilliSatoshi}
use blink_lightning_gateway.Primitives.Hex.{PaymentHash, Preimage}
use blink_lightning_gateway.Primitives.Types.{PaymentId, WalletId, Timestamp}
use blink_lightning_gateway.Payment.Event.{PaymentEvent, PaymentState}
use blink_lightning_gateway.Payment.Entity.{PaymentLog, Payment}

pub record PaymentBuilder : Type 0 where
  pub id : Option PaymentId
  pub payment_hash : Option PaymentHash
  pub wallet_id : Option WalletId
  pub amount_msat : Option MilliSatoshi
  pub max_fee_msat : Option MilliSatoshi
  pub state : Option PaymentState
  pub fees_paid_msat : Option (Option MilliSatoshi)
  pub payment_preimage : Option (Option Preimage)
  pub initiated_at : Option Timestamp
  pub settled_at : Option (Option Timestamp)

abbrev pub empty_builder : PaymentBuilder
empty_builder = record {
  id = none;
  payment_hash = none;
  wallet_id = none;
  amount_msat = none;
  max_fee_msat = none;
  state = none;
  fees_paid_msat = none;
  payment_preimage = none;
  initiated_at = none;
  settled_at = none;
}

-- `UninitializedFieldError` names the field.
pub data EntityHydrationError : Type 0 where
  uninitialized_field : String → EntityHydrationError

infixl 5 ◌>>=◌
abbrev ◌>>=◌ {ℓ κ} :
    {A : Type ℓ} {B : Type κ}
    → Result EntityHydrationError A
    → (A → Result EntityHydrationError B)
    → Result EntityHydrationError B
ok a >>= f = f a
err e >>= f = err e

abbrev required {ℓ} : {A : Type ℓ} → Option A → String → Result EntityHydrationError A
required none field = err (uninitialized_field field)
required (some a) field = ok a

abbrev or_default {ℓ} : {A : Type ℓ} → Option A → A → A
or_default none d = d
or_default (some a) d = a

-- The body of the loop over the events.
unfoldable pub apply_event : PaymentBuilder → PaymentEvent → PaymentBuilder
apply_event b (PaymentEvent.initiated h w a f _ _ t) = record b {
  payment_hash = some h;
  wallet_id = some w;
  amount_msat = some a;
  max_fee_msat = some f;
  initiated_at = some t;
}
apply_event b (PaymentEvent.pending _) = record b { state = some PaymentState.pending }
apply_event b (PaymentEvent.completed settled_at payment_preimage fees_paid_msat _) = record b {
  state = some PaymentState.completed;
  settled_at = some (some settled_at);
  payment_preimage = some (some payment_preimage);
  fees_paid_msat = some (some fees_paid_msat);
}
apply_event b (PaymentEvent.failed _ _) = record b { state = some PaymentState.failed }
apply_event b (PaymentEvent.reversed _ _) = record b { state = some PaymentState.reversed }

unfoldable pub apply_all : PaymentBuilder → List PaymentEvent → PaymentBuilder
apply_all b [] = b
apply_all b (e ∷ es) = apply_all (apply_event b e) es

pub apply_all-append :
    (b : PaymentBuilder) (es fs : List PaymentEvent)
    → apply_all b (es ++ fs) ≡ apply_all (apply_all b es) fs
unfolding apply_all
apply_all-append b [] fs = refl
apply_all-append b (e ∷ es) fs = apply_all-append (apply_event b e) es fs

module _ (log : PaymentLog) where
  open log use {Events, iter_all}

  -- `builder.events(events).build()`
  unfoldable pub build : PaymentBuilder → Events → Result EntityHydrationError (Payment log)
  build b events = do
    id ← required b.id "id"
    payment_hash ← required b.payment_hash "payment_hash"
    wallet_id ← required b.wallet_id "wallet_id"
    amount_msat ← required b.amount_msat "amount_msat"
    max_fee_msat ← required b.max_fee_msat "max_fee_msat"
    initiated_at ← required b.initiated_at "initiated_at"
    ok (record {
      id = id;
      payment_hash = payment_hash;
      wallet_id = wallet_id;
      amount_msat = amount_msat;
      max_fee_msat = max_fee_msat;
      state = or_default b.state PaymentState.initiated;
      fees_paid_msat = or_default b.fees_paid_msat none;
      payment_preimage = or_default b.payment_preimage none;
      initiated_at = initiated_at;
      settled_at = or_default b.settled_at none;
      events = events;
    })

  unfoldable pub try_from_events : Events → Result EntityHydrationError (Payment log)
  try_from_events events =
      build (apply_all (record empty_builder { id = some (log.id events) }) (iter_all events))
        events
