-- ===== src/Grpc/Clock.antt =====
-- The clock of a subscription never goes back, whatever fails.
use blink_lightning_gateway.Base.{
  ℕ, zero, suc, ◌≤◌, ◌<◌, Bool-cases, Result-cases, inl, inr, false, List, [], ◌∷◌, ◌≡◌, arith,
}
use blink_lightning_gateway.Outbox.Event.{OutboxEvent}
use blink_lightning_gateway.Grpc.Service.{
  Surroundings, Feed, Outcome, proceeds, returned, out_of_fuel, and_then, tick, fetch, send_event,
  send_page, backfill,
}

module _ (env : Surroundings) where
  -- Time goes on.
  send_event-clock : (e : OutboxEvent) (f : Feed) → f.clock ≤ (send_event env e f).1.clock
  unfolding send_event
  send_event-clock e f = ground arith

  and_then-clock :
      (n : ℕ) (r : Outcome × Feed) (rest : Feed → Outcome × Feed)
      → n ≤ r.1.clock
      → ((g : Feed) → g.clock ≤ (rest g).1.clock)
      → n ≤ (and_then r rest).1.clock
  and_then-clock n (proceeds, g) rest h k = omega (arith, h, k g)
  and_then-clock n (returned, g) rest h k = h
  and_then-clock n (out_of_fuel, g) rest h k = h

  send_page-clock : (es : List OutboxEvent) (f : Feed) → f.clock ≤ (send_page env es f).1.clock
  unfolding send_page
  send_page-clock [] f = omega arith
  send_page-clock (e ∷ es) f =
      and_then-clock f.clock (send_event env e f) (send_page env es) (send_event-clock e f)
        (λ g. send_page-clock es g)

  -- A round takes time, given that the rounds after it do not go back.
  round_later :
      (fuel : ℕ) (f : Feed)
      → ((g : Feed) → g.clock ≤ (backfill env fuel g).1.clock)
      → env.is_cancelled f.clock ≡ false
      → f.clock < (backfill env (suc fuel) f).1.clock
  unfolding backfill
  round_later fuel f rest c = elim (Result-cases (fetch env f)) [
    | inr (e, q) ↦ ground (arith, c, q)
    | inl ([], q) ↦ ground (arith, c, q)
    | inl (e ∷ es, q) ↦
        rw (backfill, c, q)
          (and_then-clock (suc f.clock) (send_page env (e ∷ es) (tick f)) (backfill env fuel)
            (send_page-clock (e ∷ es) (tick f)) rest)
  ]

  pub backfill-clock : (fuel : ℕ) (f : Feed) → f.clock ≤ (backfill env fuel f).1.clock
  unfolding backfill
  backfill-clock zero f = omega arith
  backfill-clock (suc fuel) f = elim (Bool-cases (env.is_cancelled f.clock)) [
    | inl c ↦ rw (backfill, c) (omega arith)
    | inr c ↦ omega (arith, round_later fuel f (λ g. backfill-clock fuel g) c)
  ]

  pub round-clock :
      (fuel : ℕ) (f : Feed)
      → env.is_cancelled f.clock ≡ false
      → f.clock < (backfill env (suc fuel) f).1.clock
  round-clock fuel f c = round_later fuel f (backfill-clock fuel) c
