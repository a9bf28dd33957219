-- ===== src/Examples/Payments.antt =====
-- The theorems on payments at a concrete payment, with a log kept as a list.
use blink_lightning_gateway.Payment.Outcomes.{run_receipt}
use blink_lightning_gateway.Base.{◌≡◌, refl, inl, some, none, [], ◌∷◌, ok, arith}
use blink_lightning_gateway.EventLog.{list_log, already_applied}
use blink_lightning_gateway.Payment.Event.{timeout, no_route}
use blink_lightning_gateway.Payment.Entity.{
  PaymentLog, Payment, NewPayment, DecodedInvoice, payment_of, try_new, settle, fail, reverse,
  into_events,
}
use blink_lightning_gateway.Payment.Hydration.{try_from_events}
use blink_lightning_gateway.Payment.Lifecycle.{
  marks_pending, settles, fails, reverses, apply_call, run, fresh, intended, next, Shows,
  run_status,
}
use blink_lightning_gateway.Payment.Replay.{payment_run-Replays}
use blink_lightning_gateway.Payment.Refinement.{payment_call-Follows, run-Shows}
use blink_lightning_gateway.Payment.Outcomes.{
  Exclusive, payment_run-Exclusive, run_failed, run_reversed-settle,
}
use blink_lightning_gateway.Payment.Creation.{new_payment_iff}
use blink_lightning_gateway.Examples.Codec.{some_hash, some_preimage}

abbrev pub log : PaymentLog
log = list_log

abbrev pub decoded : DecodedInvoice
decoded = record {
  payment_hash = some_hash;
  destination = "02ab";
  amount_msat = some 5_000;
  bolt_invoice = "lnbc50n1";
}

abbrev pub new_payment : NewPayment
new_payment = payment_of "pay-1" decoded "wallet-a" 5_000 10_000 1_000

abbrev free_payment : NewPayment
free_payment = payment_of "pay-1" decoded "wallet-a" 5_000 0 1_000

abbrev sent_payment : Payment log
sent_payment = run log (marks_pending 2_000 ∷ []) (fresh log new_payment)

new_payment_iff_example : try_new "pay-1" decoded "wallet-a" none 10_000 1_000 ≡ ok new_payment
new_payment_iff_example =
    (new_payment_iff "pay-1" decoded "wallet-a" 1_000 none 10_000 new_payment).1
      (refl, inl (refl, refl), ground arith, ground arith, λ e. cc)

payment_run-Replays_example :
    let p =
      run log
        (marks_pending 2_000 ∷ settles some_preimage 3 [] 3_000 ∷ [])
        (fresh log new_payment) in
    try_from_events log p.events ≡ ok p
payment_run-Replays_example =
    payment_run-Replays log new_payment
      (marks_pending 2_000 ∷ settles some_preimage 3 [] 3_000 ∷ [])

payment_call-Follows_example :
    ((apply_call log (fails timeout 3_000) sent_payment).0
      ≡ (next (run_status (marks_pending 2_000 ∷ []) intended) (fails timeout 3_000)).0)
    × Shows log
        (next (run_status (marks_pending 2_000 ∷ []) intended) (fails timeout 3_000)).1
        (apply_call log (fails timeout 3_000) sent_payment).1
payment_call-Follows_example =
    payment_call-Follows log (run_status (marks_pending 2_000 ∷ []) intended) sent_payment
      (fails timeout 3_000) (run-Shows log new_payment (marks_pending 2_000 ∷ []))

payment_run-Exclusive_example : Exclusive (
    log.iter_all
      (run log
        (settles some_preimage 3 [] 3_000 ∷ fails timeout 4_000 ∷ [])
        (fresh log new_payment)).events)
payment_run-Exclusive_example =
    payment_run-Exclusive log new_payment
      (settles some_preimage 3 [] 3_000 ∷ fails timeout 4_000 ∷ [])

run_failed_example :
    run log
      (settles some_preimage 3 [] 4_000 ∷ [])
      (run log (fails no_route 3_000 ∷ []) (fresh log new_payment))
    ≡ run log (fails no_route 3_000 ∷ []) (fresh log new_payment)
unfolding run apply_call fail fresh into_events
run_failed_example =
    run_failed log new_payment (fails no_route 3_000 ∷ []) (settles some_preimage 3 [] 4_000 ∷ [])
      refl

run_reversed-settle_example :
    let p =
      run log
        (settles some_preimage 3 [] 3_000 ∷ reverses "chargeback" 4_000 ∷ [])
        (fresh log new_payment) in
    settle log some_preimage 3 [] 5_000 p ≡ (ok already_applied, p)
unfolding run apply_call settle reverse fresh into_events
run_reversed-settle_example =
    run_reversed-settle log new_payment
      (settles some_preimage 3 [] 3_000 ∷ reverses "chargeback" 4_000 ∷ []) some_preimage 3 [] 5_000
      refl

run_receipt_example :
    (run log
      (reverses "chargeback" 4_000 ∷ settles some_preimage 9 [] 5_000 ∷ [])
      (run log (settles some_preimage 3 [] 3_000 ∷ []) (fresh log new_payment))).fees_paid_msat
    ≡ (run log (settles some_preimage 3 [] 3_000 ∷ []) (fresh log new_payment)).fees_paid_msat
unfolding run apply_call settle fresh into_events
run_receipt_example =
    (run_receipt log new_payment (settles some_preimage 3 [] 3_000 ∷ [])
      (reverses "chargeback" 4_000 ∷ settles some_preimage 9 [] 5_000 ∷ []) 3_000 refl).1
