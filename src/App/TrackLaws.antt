-- ===== src/App/TrackLaws.antt =====
-- What the later reports of LND do to a payment, and what they leave alone.
use blink_lightning_gateway.Base.{
  Result-cases, err, ok, Result, Option, inl, inr, none, refl, some, ◌-◌, ◌≡◌, ◌≢◌,
}
use blink_lightning_gateway.Lnd.Types.{LndError, SendPaymentStatus}
use blink_lightning_gateway.App.Announced.{IsAnnounced, FindsByHash}
use blink_lightning_gateway.App.CommitLaws.{commit_completed-IsAnnounced, commit_failed-IsAnnounced}
use blink_lightning_gateway.App.Track.{
  after_lookup, apply_payment_update, handle_payment_update, reconcile_orphan_hold,
  resolve_stranded, sweep_each, sweep_orphan_holds,
}
use blink_lightning_gateway.Base.{if◌then◌else◌, Bool, false, suc, true}
use blink_lightning_gateway.Lnd.Types.{PaymentUpdate, SendPaymentResponse}
use blink_lightning_gateway.Payment.Entity.{Payment}
use blink_lightning_gateway.Primitives.Hex.{PaymentHash}
use blink_lightning_gateway.Primitives.Types.{Timestamp}
use blink_lightning_gateway.Base.{ℕ, List, [], ◌∷◌, arith}
use blink_lightning_gateway.App.World.{
  clock_read, stranded_listed, payment_looked_up, Crates, World, Trace, Effect, committed,
  payment_updated, invoice_updated, published, payment_created, payment_saved, payment_read,
}

-- Whether an effect changes what is stored.
abbrev pub is_write : {c : Crates} → Effect c → Bool
is_write committed = true
is_write (payment_updated _) = true
is_write (invoice_updated _) = true
is_write (payment_created _) = true
is_write (payment_saved _) = true
is_write (published _) = true
is_write _ = false

abbrev pub count_writes : {c : Crates} → Trace c → ℕ
count_writes [] = 0
count_writes (e ∷ tr) = if is_write e then suc (count_writes tr) else count_writes tr

-- An answer of LND that does not settle what became of a payment: none in time, an error (that it
-- knows no such payment, too), or that it is in flight.
abbrev pub IsUndecided : Option (Result LndError SendPaymentResponse) → Type 0
IsUndecided none = Unit
IsUndecided (some (err e)) = Unit
IsUndecided (some (ok r)) = r.status ≡ SendPaymentStatus.in_flight

module _ {c : Crates} (w : World c) where
  apply_payment_update-IsAnnounced :
      (u : PaymentUpdate) (p : Payment c.payment_log) (t : Timestamp) (tr : Trace c)
      → IsAnnounced tr
      → IsAnnounced (apply_payment_update w u p t tr).1
  unfolding apply_payment_update
  apply_payment_update-IsAnnounced u p t tr k =
      grind (arith, commit_completed-IsAnnounced, commit_failed-IsAnnounced)

  handle_payment_update-IsAnnounced :
      (u : PaymentUpdate) (tr : Trace c)
      → IsAnnounced tr
      → IsAnnounced (handle_payment_update w u tr).1
  unfolding handle_payment_update
  handle_payment_update-IsAnnounced u tr k = grind (arith, apply_payment_update-IsAnnounced)

  resolve_stranded-IsAnnounced :
      (p : Payment c.payment_log) (h : PaymentHash) (t : Timestamp) (l : SendPaymentResponse)
      (tr : Trace c)
      → p.payment_hash ≡ h
      → IsAnnounced tr
      → IsAnnounced (resolve_stranded w p h t l tr).1
  unfolding resolve_stranded
  resolve_stranded-IsAnnounced p h t l tr same k =
      grind (arith, commit_completed-IsAnnounced, commit_failed-IsAnnounced)

  after_lookup-IsAnnounced :
      (p : Payment c.payment_log) (h : PaymentHash) (t : Timestamp)
      (l : Option (Result LndError SendPaymentResponse)) (tr : Trace c)
      → p.payment_hash ≡ h
      → IsAnnounced tr
      → IsAnnounced (after_lookup w p h t l tr).1
  unfolding after_lookup
  after_lookup-IsAnnounced p h t none tr same k = k
  after_lookup-IsAnnounced p h t (some (err e)) tr same k = ground arith
  after_lookup-IsAnnounced p h t (some (ok l)) tr same k =
      resolve_stranded-IsAnnounced p h t l tr same k

  reconcile_orphan_hold-IsAnnounced :
      FindsByHash w
      → (h : PaymentHash) (tr : Trace c) → IsAnnounced tr
      → IsAnnounced (reconcile_orphan_hold w h tr).1
  unfolding reconcile_orphan_hold
  reconcile_orphan_hold-IsAnnounced found h tr k = elim (Result-cases (w.find_payment tr h)) [
    | inl (p, e) ↦ let same = found.payments tr h p e in grind (arith, after_lookup-IsAnnounced)
    | inr (x, e) ↦ ground arith
  ]

  sweep_each-IsAnnounced :
      FindsByHash w
      → (hs : List PaymentHash) (n : ℕ) (tr : Trace c) → IsAnnounced tr
      → IsAnnounced (sweep_each w hs n tr).1
  unfolding sweep_each
  sweep_each-IsAnnounced found [] n tr k = k
  sweep_each-IsAnnounced found (h ∷ hs) n tr k = grind (
    arith,
    reconcile_orphan_hold-IsAnnounced found h tr k,
    sweep_each-IsAnnounced found hs (suc n) (reconcile_orphan_hold w h tr).1,
    sweep_each-IsAnnounced found hs n (reconcile_orphan_hold w h tr).1,
  )

  sweep_orphan_holds-IsAnnounced :
      FindsByHash w
      → (idle limit : ℕ) (tr : Trace c) → IsAnnounced tr
      → IsAnnounced (sweep_orphan_holds w idle limit tr).1
  unfolding sweep_orphan_holds
  sweep_orphan_holds-IsAnnounced found idle limit tr k = grind (arith, sweep_each-IsAnnounced found)

  -- If a lookup by hash finds the row with this hash, then whatever the environment answers: every
  -- transaction that is committed on a report of LND's payment
  -- stream, or by the sweep over stranded payments, changes the payment whose hash its
  -- one event names, to the state that the event says.
  pub tracking-IsAnnounced :
      FindsByHash w
      → (u : PaymentUpdate) (idle limit : ℕ) (tr : Trace c) → IsAnnounced tr
      → IsAnnounced (handle_payment_update w u tr).1
        × IsAnnounced (sweep_orphan_holds w idle limit tr).1
  tracking-IsAnnounced found u idle limit tr k = (
    handle_payment_update-IsAnnounced u tr k,
    sweep_orphan_holds-IsAnnounced found idle limit tr k,
  )

  after_lookup_undecided :
      (p : Payment c.payment_log) (h : PaymentHash) (t : Timestamp)
      (l : Option (Result LndError SendPaymentResponse)) (tr : Trace c)
      → IsUndecided l
      → (count_writes (after_lookup w p h t l tr).1 ≡ count_writes tr)
        × ((after_lookup w p h t l tr).0 ≢ ok true)
  unfolding after_lookup resolve_stranded
  after_lookup_undecided p h t none tr k = (refl, ground arith)
  after_lookup_undecided p h t (some (err e)) tr k = (ground arith, ground arith)
  after_lookup_undecided p h t (some (ok l)) tr k = (ground arith, ground arith)

  reconcile_undecided :
      (h : PaymentHash) (tr : Trace c)
      → IsUndecided (w.lookup_payment (clock_read ∷ (payment_read h ∷ tr)) h)
      → (count_writes (reconcile_orphan_hold w h tr).1 ≡ count_writes tr)
        × ((reconcile_orphan_hold w h tr).0 ≢ ok true)
  unfolding reconcile_orphan_hold
  reconcile_undecided h tr k =
      let after = clock_read ∷ (payment_read h ∷ tr) in
      let l = w.lookup_payment after h in
      elim (Result-cases (w.find_payment tr h)) [
        | inl (p, e) ↦ ground (
          arith,
          e,
          after_lookup_undecided p h (w.now (payment_read h ∷ tr)) l (payment_looked_up h l ∷ after)
              k,
        )
        | inr (x, e) ↦ ground (arith, e)
      ]

  sweep_each_undecided :
      ((tr : Trace c) (h : PaymentHash) → IsUndecided (w.lookup_payment tr h))
      → (hs : List PaymentHash) (n : ℕ) (tr : Trace c)
      → (count_writes (sweep_each w hs n tr).1 ≡ count_writes tr)
        × ((m : ℕ) → (sweep_each w hs n tr).0 ≡ ok m → m ≡ n)
  unfolding sweep_each
  sweep_each_undecided k [] n tr = (refl, λ m e. ground arith)
  sweep_each_undecided k (h ∷ hs) n tr =
      let now = reconcile_undecided h tr (k (clock_read ∷ (payment_read h ∷ tr)) h) in
      let rest = sweep_each_undecided k hs n (reconcile_orphan_hold w h tr).1 in
      (ground (arith, now, rest.0), λ m e. ground (arith, now, rest.1 m))

  -- As long as LND does not say what became of the payments (it does not answer in time, answers with
  -- an error, does not know them, or has them in flight), the sweep writes nothing, and counts none as
  -- reconciled: it never releases a hold on time and state alone.
  pub sweep_undecided :
      (idle limit : ℕ) (tr : Trace c)
      → ((tr' : Trace c) (h : PaymentHash) → IsUndecided (w.lookup_payment tr' h))
      → (count_writes (sweep_orphan_holds w idle limit tr).1 ≡ count_writes tr)
        × ((m : ℕ) → (sweep_orphan_holds w idle limit tr).0 ≡ ok m → m ≡ 0)
  unfolding sweep_orphan_holds
  sweep_undecided idle limit tr k =
      let listed = w.list_stranded (clock_read ∷ tr) (w.now tr - idle) limit in
      let after = stranded_listed ∷ (clock_read ∷ tr) in
      elim (Result-cases listed) [
        | inl (hs, e) ↦
            let each = sweep_each_undecided k hs 0 after in
            (ground (arith, e, each.0), λ m q. ground (arith, e, each.1 m))
        | inr (x, e) ↦ (ground (arith, e), λ m q. ground (arith, e))
      ]
