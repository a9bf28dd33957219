-- ===== src/Invoice/Outcomes.antt =====
-- What an invoice can come to, after any commands in any order.
use blink_lightning_gateway.Base.{
  preceded, ◌≤◌, ◌≡◌, ◌≢◌, refl, ◌⊎◌, Bool, true, false, ◌&&◌, some, List, [], ◌∷◌, ok, arith,
  length, any, sym, ap, ◌∙◌, ◌++◌,
}
use blink_lightning_gateway.EventLog.{executed, already_applied}
use blink_lightning_gateway.Primitives.Amount.{MilliSatoshi}
use blink_lightning_gateway.Primitives.Types.{Timestamp}
use blink_lightning_gateway.Invoice.Event.{
  InvoiceEvent, htlc_held, settled_intraledger, settled, canceled, is_htlc_held, is_settled,
  is_settled_intraledger, is_canceled,
}
use blink_lightning_gateway.Invoice.Entity.{
  InvoiceLog, Invoice, NewInvoice, mark_held, settle_intraledger, settle, cancel,
}
use blink_lightning_gateway.Invoice.Lifecycle.{
  Call, marks_held, settles, settles_intraledger, cancels, apply_call, run, fresh, Status, issued,
  parked, next, run_status, Shows,
}
use blink_lightning_gateway.Invoice.Order.{IsParkedFirst, invoice_run-IsParkedFirst}
use blink_lightning_gateway.Invoice.Refinement.{invoice_call-Follows, run-Shows}

-- A status that no command leaves.
abbrev is_final : Status → Bool
is_final issued = false
is_final (parked a) = false
is_final _ = true

-- A log that tells one story.
abbrev pub Exclusive : List InvoiceEvent → Type 0
Exclusive es =
    ((any is_settled es && any is_canceled es) ≡ false)
    × ((any is_settled_intraledger es && any is_canceled es) ≡ false)
    × ((any is_settled es && any is_settled_intraledger es) ≡ false)
    × (preceded is_htlc_held is_settled es ≡ true)
    × (length es ≤ 3)

any_last :
    (p : InvoiceEvent → Bool) (es : List InvoiceEvent) (e : InvoiceEvent)
    → p e ≡ true
    → any p (es ++ e ∷ []) ≡ true
any_last p [] e h = ground arith
any_last p (x ∷ es) e h = ground (arith, any_last p es e h)

module _ (log : InvoiceLog) where
  guard_again :
      (inv : Invoice log) (e : InvoiceEvent) (p : InvoiceEvent → Bool)
      → p e ≡ true
      → log.already_applied (log.push inv.events e) p ≡ true
  guard_again inv e p h =
      log.already_applied-any (log.push inv.events e) p
      ∙ ap (any p) (log.iter_all-push inv.events e)
      ∙ any_last p (log.iter_all inv.events) e h

  final_absorbs : (c : Call) (s : Status) → is_final s ≡ true → (next s c).1 ≡ s
  unfolding next
  final_absorbs c s h = ground arith

  Shows-Exclusive :
      (s : Status) (inv : Invoice log)
      → Shows log s inv
      → IsParkedFirst log inv
      → Exclusive (log.iter_all inv.events)
  Shows-Exclusive s inv h k = ground arith

  -- After any commands: the log of an invoice never has both a settlement (of either kind) and a
  -- cancellation, never both kinds of settlement, has a parked HTLC before each LND settlement, and has
  -- at most three events.
  pub invoice_run-Exclusive :
      (n : NewInvoice) (cs : List Call) → Exclusive (log.iter_all (run log cs (fresh log n)).events)
  invoice_run-Exclusive n cs =
      Shows-Exclusive (run_status cs issued) (run log cs (fresh log n)) (run-Shows log n cs)
        (invoice_run-IsParkedFirst log n cs)

  settle_held :
      (s : Status) (inv : Invoice log) (t : Timestamp)
      → Shows log s inv
      → (settle log t inv).0 ≡ ok executed
      → (a : MilliSatoshi) × ((settle log t inv).1.held_amount_msat ≡ some a)
  unfolding settle
  settle_held (parked a) inv t h e =
      (a, ground (arith, log.already_applied-any inv.events is_settled))
  settle_held _ inv t h e = absurd (ground (arith, log.already_applied-any inv.events is_settled))

  -- After any commands, a `settle` that is executed leaves an invoice with a held amount: the `expect`
  -- of `commit_settle` does not panic.
  pub run-settle_held :
      (n : NewInvoice) (cs : List Call) (t : Timestamp)
      → (settle log t (run log cs (fresh log n))).0 ≡ ok executed
      → (a : MilliSatoshi) × ((settle log t (run log cs (fresh log n))).1.held_amount_msat ≡ some a)
  run-settle_held n cs t =
      settle_held (run_status cs issued) (run log cs (fresh log n)) t (run-Shows log n cs)

  -- A command that is not executed changes nothing.
  apply_call_unchanged :
      (c : Call) (inv : Invoice log)
      → (apply_call log c inv).0 ≢ ok executed
      → (apply_call log c inv).1 ≡ inv
  unfolding apply_call mark_held settle settle_intraledger cancel
  apply_call_unchanged (marks_held a t) inv h = ground arith
  apply_call_unchanged (settles t) inv h = ground arith
  apply_call_unchanged (settles_intraledger t) inv h = ground arith
  apply_call_unchanged (cancels r t) inv h = ground arith

  final_refuses : (s : Status) (c : Call) → is_final s ≡ true → (next s c).0 ≢ ok executed
  unfolding next
  final_refuses s c h = ground arith

  run_final :
      (ds : List Call) (s : Status) (inv : Invoice log)
      → Shows log s inv
      → is_final s ≡ true
      → run log ds inv ≡ inv
  unfolding run
  run_final [] s inv h f = refl
  run_final (d ∷ ds) s inv h f =
      let same : (apply_call log d inv).1 ≡ inv =
        apply_call_unchanged d inv
          (λ e. final_refuses s d f (sym (invoice_call-Follows log s inv d h).0 ∙ e)) in
      rw same (run_final ds s inv h f)

  final_of_state :
      (s : Status) (inv : Invoice log)
      → Shows log s inv
      → (inv.state ≡ settled) ⊎ (inv.state ≡ canceled)
      → is_final s ≡ true
  final_of_state s inv h f = ground arith

  -- Settled and canceled are final: an invoice that some commands have brought there is not changed
  -- in any field, nor in its log, by any further commands.
  pub run_final_state :
      (n : NewInvoice) (cs ds : List Call)
      → ((run log cs (fresh log n)).state ≡ settled) ⊎ ((run log cs (fresh log n)).state ≡ canceled)
      → run log ds (run log cs (fresh log n)) ≡ run log cs (fresh log n)
  run_final_state n cs ds f =
      let h = run-Shows log n cs in
      run_final ds (run_status cs issued) (run log cs (fresh log n)) h
        (final_of_state (run_status cs issued) (run log cs (fresh log n)) h f)

  -- Replays are harmless: a command that was executed, given again at whatever time, is answered
  -- `already_applied` and changes nothing.
  pub invoice_call_again :
      (c : Call) (inv : Invoice log)
      → (apply_call log c inv).0 ≡ ok executed
      → apply_call log c (apply_call log c inv).1 ≡ (ok already_applied, (apply_call log c inv).1)
  unfolding apply_call mark_held settle settle_intraledger cancel
  invoice_call_again (marks_held a t) inv h =
      ground (arith, guard_again inv (htlc_held t a) is_htlc_held)
  invoice_call_again (settles t) inv h =
      ground (arith, guard_again inv (InvoiceEvent.settled t) is_settled)
  invoice_call_again (settles_intraledger t) inv h =
      ground (arith, guard_again inv (settled_intraledger t) is_settled_intraledger)
  invoice_call_again (cancels r t) inv h =
      ground (arith, guard_again inv (InvoiceEvent.canceled t r) is_canceled)
