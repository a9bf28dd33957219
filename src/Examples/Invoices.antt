-- ===== src/Examples/Invoices.antt =====
-- The theorems on invoices at a concrete invoice, with a log kept as a list.
use blink_lightning_gateway.Base.{◌≡◌, some, [], ◌∷◌, ok}
use blink_lightning_gateway.EventLog.{list_log}
use blink_lightning_gateway.Invoice.Event.{expired}
use blink_lightning_gateway.Invoice.Entity.{InvoiceLog, Invoice, NewInvoice, validated}
use blink_lightning_gateway.Invoice.Hydration.{try_from_events}
use blink_lightning_gateway.Invoice.Lifecycle.{
  marks_held, settles, cancels, apply_call, run, fresh, issued, next, Shows, run_status,
}
use blink_lightning_gateway.Invoice.Replay.{invoice_run-Replays}
use blink_lightning_gateway.Invoice.Refinement.{invoice_call-Follows, run-Shows}
use blink_lightning_gateway.Invoice.Outcomes.{Exclusive, invoice_run-Exclusive}
use blink_lightning_gateway.Examples.Codec.{some_hash, some_preimage}

abbrev pub log : InvoiceLog
log = list_log

abbrev pub new_invoice : NewInvoice
new_invoice =
    validated "inv-1" some_hash some_preimage "wallet-b" (some 5_000) 3_600 "lnbc50n1" "order-7"
      1_000

abbrev pub held_invoice : Invoice log
held_invoice = run log (marks_held 6_000 2_000 ∷ []) (fresh log new_invoice)

invoice_run-Replays_example :
    let inv = run log (marks_held 6_000 2_000 ∷ settles 3_000 ∷ []) (fresh log new_invoice) in
    try_from_events log inv.events ≡ ok inv
invoice_run-Replays_example =
    invoice_run-Replays log new_invoice (marks_held 6_000 2_000 ∷ settles 3_000 ∷ [])

invoice_call-Follows_example :
    ((apply_call log (settles 3_000) held_invoice).0
      ≡ (next (run_status (marks_held 6_000 2_000 ∷ []) issued) (settles 3_000)).0)
    × Shows log
        (next (run_status (marks_held 6_000 2_000 ∷ []) issued) (settles 3_000)).1
        (apply_call log (settles 3_000) held_invoice).1
invoice_call-Follows_example =
    invoice_call-Follows log (run_status (marks_held 6_000 2_000 ∷ []) issued) held_invoice
      (settles 3_000) (run-Shows log new_invoice (marks_held 6_000 2_000 ∷ []))

invoice_run-Exclusive_example : Exclusive (
    log.iter_all
      (run log
        (marks_held 6_000 2_000 ∷ settles 3_000 ∷ cancels expired 4_000 ∷ [])
        (fresh log new_invoice)).events)
invoice_run-Exclusive_example =
    invoice_run-Exclusive log new_invoice
      (marks_held 6_000 2_000 ∷ settles 3_000 ∷ cancels expired 4_000 ∷ [])
