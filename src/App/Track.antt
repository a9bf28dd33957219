-- ===== src/App/Track.antt =====
-- src/app/handle_payment_update.rs and sweep_orphan_holds.rs: how a payment follows what LND says of
-- it later. Re-raising an error after a log line is dropped: the result is the same.
use blink_lightning_gateway.Base.{
  ℕ, ◌-◌, suc, Bool, true, false, Option, none, some, List, [], ◌∷◌, Result, ok, err, if◌then◌else◌,
}
use blink_lightning_gateway.Primitives.Amount.{whole_sat, as_i64}
use blink_lightning_gateway.Primitives.Hex.{PaymentHash}
use blink_lightning_gateway.Primitives.Types.{Timestamp}
use blink_lightning_gateway.Payment.Event.{PaymentState, payment_find}
use blink_lightning_gateway.Payment.Entity.{Payment}
use blink_lightning_gateway.Lnd.Types.{
  LndError, invalid_response, payment_not_found, SendPaymentResponse, in_flight, succeeded, failed,
  PaymentUpdate,
}
use blink_lightning_gateway.App.Error.{AppError, Stop, returned, panicked, payment, lnd}
use blink_lightning_gateway.App.World.{
  Crates, World, Task, Trace, payment_read, payment_looked_up, stranded_listed, pure, fail_with,
  ask, or_fail, ◌>>=◌, ◌>>◌,
}
use blink_lightning_gateway.App.Commit.{
  clock, is_payment_not_found, commit_completed, commit_failed,
}
use blink_lightning_gateway.App.Send.{no_preimage, or_reason}

module _ {c : Crates} where
  -- One step of the sweep's loop: an error is logged, a panic is not caught.
  abbrev counted : Result Stop Bool × Trace c → (ℕ → Task c ℕ) → ℕ → Result Stop ℕ × Trace c
  counted (ok true, tr) k n = k (suc n) tr
  counted (ok false, tr) k n = k n tr
  counted (err (returned e), tr) k n = k n tr
  counted (err (panicked s), tr) k n = (err (panicked s), tr)

module _ {c : Crates} (w : World c) where
  unfoldable pub apply_payment_update :
      PaymentUpdate → Payment c.payment_log → Timestamp → Task c (Unit {0})
  apply_payment_update update p t = elim update.status [
    | in_flight ↦ pure tt
    | succeeded ↦ elim update.payment_preimage [
      | none ↦ fail_with no_preimage
      | some preimage ↦ (do
        commit_completed w p p.payment_hash (as_i64 (whole_sat p.amount_msat)) preimage
            update.fees_paid_msat update.route_hops t
        pure tt)
    ]
    | failed ↦ (do
      commit_failed w p p.payment_hash (as_i64 (whole_sat p.amount_msat))
          (or_reason update.failure_reason "LND TrackPayments emitted Failed with no reason") t
      pure tt)
  ]

  unfoldable pub handle_payment_update : PaymentUpdate → Task c (Unit {0})
  handle_payment_update update = do
    found ←
        ask (λ tr. w.find_payment tr update.payment_hash) (λ _. payment_read update.payment_hash)
    elim found [
      | ok p ↦ (do t ← clock w; apply_payment_update update p t)
      | err e ↦ if is_payment_not_found e then pure tt else fail_with (payment (payment_find e))
    ]

  abbrev pub lookup_without_preimage : AppError
  lookup_without_preimage =
      lnd (invalid_response "lookup_payment: Succeeded but payment_preimage missing")

  -- The match on what LND says of a stranded payment.
  unfoldable pub resolve_stranded :
      Payment c.payment_log → PaymentHash → Timestamp → SendPaymentResponse → Task c Bool
  resolve_stranded p payment_hash t lookup = elim lookup.status [
    | in_flight ↦ pure false
    | succeeded ↦ elim lookup.payment_preimage [
      | none ↦ fail_with lookup_without_preimage
      | some preimage ↦ (do
        commit_completed w p payment_hash (as_i64 (whole_sat p.amount_msat)) preimage
            lookup.fees_paid_msat lookup.route_hops t
        pure true)
    ]
    | failed ↦ (do
      commit_failed w p payment_hash (as_i64 (whole_sat p.amount_msat))
          (or_reason lookup.failure_reason "LND reported Failed with no reason") t
      pure true)
  ]

  abbrev if_initiated : PaymentState → Task c Bool → Task c Bool
  if_initiated PaymentState.initiated go = go
  if_initiated _ go = pure false

  -- The lookup's answer, `none` when it took longer than `LND_LOOKUP_TIMEOUT`.
  unfoldable pub after_lookup :
      Payment c.payment_log
      → PaymentHash
      → Timestamp
      → Option (Result LndError SendPaymentResponse)
      → Task c Bool
  after_lookup p payment_hash t none = pure false
  after_lookup p payment_hash t (some (err payment_not_found)) = pure false
  after_lookup p payment_hash t (some (err e)) = fail_with (lnd e)
  after_lookup p payment_hash t (some (ok lookup)) = resolve_stranded p payment_hash t lookup

  unfoldable pub reconcile_orphan_hold : PaymentHash → Task c Bool
  reconcile_orphan_hold payment_hash = do
    found ← ask (λ tr. w.find_payment tr payment_hash) (λ _. payment_read payment_hash)
    p ← or_fail (λ e. payment (payment_find e)) found
    if_initiated p.state (do
      t ← clock w
      answer ← ask (λ tr. w.lookup_payment tr payment_hash) (payment_looked_up payment_hash)
      after_lookup p payment_hash t answer)

  unfoldable pub sweep_each : List PaymentHash → ℕ → Task c ℕ
  sweep_each [] reconciled = pure reconciled
  sweep_each (h ∷ hs) reconciled =
      λ tr. counted (reconcile_orphan_hold h tr) (sweep_each hs) reconciled

  -- `idle` is in milliseconds.
  unfoldable pub sweep_orphan_holds : ℕ → ℕ → Task c ℕ
  sweep_orphan_holds idle limit = do
    t ← clock w
    listed ← ask (λ tr. w.list_stranded tr (t - idle) limit) (λ _. stranded_listed)
    stranded ← or_fail payment listed
    sweep_each stranded 0
