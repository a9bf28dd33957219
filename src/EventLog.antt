-- ===== src/EventLog.antt =====
-- What the entities use of the `es-entity` crate: `EntityEvents`, the log of an entity's events with
-- the entity's id, and the macro `idempotency_guard!`, which looks through that log.
use blink_lightning_gateway.Base.{◌≡◌, refl, Bool, List, [], ◌∷◌, ◌++◌, any}

pub record EventLog (Key E : Type 0) : Type 1 where
  pub Events : Type 0
  pub init : Key → List E → Events
  pub id : Events → Key
  pub push : Events → E → Events
  pub iter_all : Events → List E
  -- `idempotency_guard!(events.iter_all().rev(), already_applied: p)` returns from its method.
  pub already_applied : Events → (E → Bool) → Bool
  pub id-init : (i : Key) (es : List E) → id (init i es) ≡ i
  pub iter_all-init : (i : Key) (es : List E) → iter_all (init i es) ≡ es
  pub id-push : (l : Events) (e : E) → id (push l e) ≡ id l
  pub iter_all-push : (l : Events) (e : E) → iter_all (push l e) ≡ iter_all l ++ e ∷ []
  pub already_applied-any : (l : Events) (p : E → Bool) → already_applied l p ≡ any p (iter_all l)

-- The outcome of a command method: `Idempotent<()>`.
pub data Idempotent : Type 0 where
  executed already_applied : Idempotent

-- A log kept as a list beside the id: the laws can hold.
abbrev pub list_log : {Key E : Type 0} → EventLog Key E
list_log {Key} {E} = record {
  Events = Key × List E;
  init = λ i es. (i, es);
  id = λ l. l.0;
  push = λ l e. (l.0, l.1 ++ e ∷ []);
  iter_all = λ l. l.1;
  already_applied = λ l p. any p l.1;
  id-init = λ i es. refl;
  iter_all-init = λ i es. refl;
  id-push = λ l e. refl;
  iter_all-push = λ l e. refl;
  already_applied-any = λ l p. refl;
}
