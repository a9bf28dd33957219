-- ===== src/Lnd/Dispatch.antt =====
-- src/app/handle_invoice_update.rs, `InvoiceUpdateDispatcher`: which invoices have a listener. The
-- dispatcher is its set `active`, in its live mode; the tasks that it has started are listed beside it.
use blink_lightning_gateway.Base.{
  Bool, true, false, List, [], ◌∷◌, if◌then◌else◌, ◌≡◌, refl, ap, ◌∙◌, arith, any, Bool-cases, inl,
  inr,
}
use blink_lightning_gateway.Primitives.Hex.{PaymentHash, hash_eq, hash_eq→eq}

pub record Dispatcher : Type 0 where
  pub active : List PaymentHash
  pub listeners : List PaymentHash

-- `InvoiceUpdateDispatcher::new`
abbrev pub new_dispatcher : Dispatcher
new_dispatcher = record { active = []; listeners = [] }

abbrev pub contains_hash : PaymentHash → List PaymentHash → Bool
contains_hash h hashes = any (λ k. hash_eq k h) hashes

-- `HashSet::remove`
unfoldable pub remove_hash : PaymentHash → List PaymentHash → List PaymentHash
remove_hash h [] = []
remove_hash h (k ∷ hashes) = if hash_eq k h then remove_hash h hashes else k ∷ remove_hash h hashes

-- `spawn_listener_for`: a task is started unless the hash is in the set.
unfoldable pub spawn_listener_for : PaymentHash → Dispatcher → Dispatcher
spawn_listener_for h d =
    if contains_hash h d.active
    then d
    else record { active = h ∷ d.active; listeners = h ∷ d.listeners }

-- The end of a task: one listener of this hash is gone, and the hash leaves the set. A task that
-- panics would leave its hash there; panics are not modelled.
unfoldable pub without_one : PaymentHash → List PaymentHash → List PaymentHash
without_one h [] = []
without_one h (k ∷ hashes) = if hash_eq k h then hashes else k ∷ without_one h hashes

unfoldable pub listener_ends : PaymentHash → Dispatcher → Dispatcher
listener_ends h d = record {
  active = remove_hash h d.active;
  listeners = without_one h d.listeners;
}

-- What happens to the dispatcher; only a listener that runs can end.
pub data Step : Dispatcher → Dispatcher → Type 0 where
  spawned : {d : Dispatcher} (h : PaymentHash) → Step d (spawn_listener_for h d)
  ended :
      {d : Dispatcher} (h : PaymentHash)
      → contains_hash h d.listeners ≡ true
      → Step d (listener_ends h d)

pub data Steps (d : Dispatcher) : Dispatcher → Type 0 where
  start : Steps d d
  step : {e f : Dispatcher} → Steps d e → Step e f → Steps d f

-- No hash occurs twice.
abbrev pub IsDistinct : List PaymentHash → Type 0
IsDistinct [] = Unit
IsDistinct (h ∷ hashes) = (contains_hash h hashes ≡ false) × IsDistinct hashes

-- The set is exactly the running listeners, of which no two have the same hash.
abbrev pub IsRegistry : Dispatcher → Type 0
IsRegistry d = (d.active ≡ d.listeners) × IsDistinct d.listeners

remove_hash-absent :
    (h : PaymentHash) (hashes : List PaymentHash)
    → contains_hash h hashes ≡ false
    → remove_hash h hashes ≡ hashes
unfolding remove_hash
remove_hash-absent h [] a = refl
remove_hash-absent h (k ∷ hashes) a = ground (arith, a, remove_hash-absent h hashes)

-- In a list without repetitions both ways to remove a hash are the same.
remove_hash-one :
    (h : PaymentHash) (hashes : List PaymentHash)
    → IsDistinct hashes
    → remove_hash h hashes ≡ without_one h hashes
unfolding remove_hash without_one
remove_hash-one h [] d = refl
remove_hash-one h (k ∷ hashes) d = elim (Bool-cases (hash_eq k h)) [
  | inl e ↦
      rw (remove_hash, without_one, e) (remove_hash-absent h hashes (rw (← hash_eq→eq k h e) d.0))
  | inr e ↦ rw (remove_hash, without_one, e) (ap (◌∷◌ k) (remove_hash-one h hashes d.1))
]

without_one-absent :
    (h k : PaymentHash) (hashes : List PaymentHash)
    → contains_hash k hashes ≡ false
    → contains_hash k (without_one h hashes) ≡ false
unfolding without_one
without_one-absent h k [] a = refl
without_one-absent h k (g ∷ hashes) a = ground (arith, a, without_one-absent h k hashes)

without_one-IsDistinct :
    (h : PaymentHash) (hashes : List PaymentHash)
    → IsDistinct hashes
    → IsDistinct (without_one h hashes)
unfolding without_one
without_one-IsDistinct h [] d = tt
without_one-IsDistinct h (k ∷ hashes) d = elim (Bool-cases (hash_eq k h)) [
  | inl e ↦ rw (without_one, e) d.1
  | inr e ↦
      rw (without_one, e) (without_one-absent h k hashes d.0, without_one-IsDistinct h hashes d.1)
]

pub Step-IsRegistry : {d e : Dispatcher} → Step d e → IsRegistry d → IsRegistry e
unfolding spawn_listener_for listener_ends
Step-IsRegistry (spawned {d} h) (same, distinct) = elim (Bool-cases (contains_hash h d.active)) [
  | inl e ↦ rw (spawn_listener_for, e) (same, distinct)
  | inr e ↦ rw (spawn_listener_for, e) (ap (◌∷◌ h) same, (rw (← same) e, distinct))
]
Step-IsRegistry (ended {d} h runs) (same, distinct) = (
  ap (remove_hash h) same ∙ remove_hash-one h d.listeners distinct,
  without_one-IsDistinct h d.listeners distinct,
)

-- At most one task listens for an invoice, in whatever order tasks are asked for and end, and the set
-- of the dispatcher is at every time exactly the invoices with a task: a listener that
-- ends can be started again.
pub Steps-IsRegistry : {d : Dispatcher} → Steps new_dispatcher d → IsRegistry d
Steps-IsRegistry start = (refl, tt)
Steps-IsRegistry (step {e} {f} before last) = Step-IsRegistry last (Steps-IsRegistry before)
