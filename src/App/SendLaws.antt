-- ===== src/App/SendLaws.antt =====
-- Every use case on the sending side announces what it changes.
use blink_lightning_gateway.App.Send.{send_new}
use blink_lightning_gateway.Base.{Result-cases, inl, inr, none}
use blink_lightning_gateway.App.Send.{route}
use blink_lightning_gateway.Base.{String, Option}
use blink_lightning_gateway.App.Commit.{check_wallet_ownership}
use blink_lightning_gateway.App.Intraledger.{check_recipient, send_intraledger_payment}
use blink_lightning_gateway.App.Requests.{decode_bolt11}
use blink_lightning_gateway.Base.{ok, any, false, some}
use blink_lightning_gateway.Invoice.Event.{InvoiceState, is_settled_intraledger}
use blink_lightning_gateway.Payment.Event.{is_completed}
use blink_lightning_gateway.App.Announced.{IsAnnounced, IsNamed}
use blink_lightning_gateway.App.CommitLaws.{commit_completed-IsAnnounced, commit_failed-IsAnnounced}
use blink_lightning_gateway.App.Intraledger.{commit_transfer}
use blink_lightning_gateway.App.Requests.{SendPaymentRequest}
use blink_lightning_gateway.App.Send.{
  send_payment, authorize_then_send, dispatch, fail_inline, persist_intent, send_external,
  send_over_lnd, settle_inline, transition_to_pending,
}
use blink_lightning_gateway.Base.{◌≡◌, refl}
use blink_lightning_gateway.Invoice.Entity.{Invoice, settle_intraledger}
use blink_lightning_gateway.Lnd.Types.{SendPaymentParams, SendPaymentResponse}
use blink_lightning_gateway.Outbox.Event.{lightning_payment_initiated, NewOutboxEvent}
use blink_lightning_gateway.Payment.Entity.{
  DecodedInvoice, NewPayment, Payment, mark_pending, try_new,
}
use blink_lightning_gateway.Payment.Event.{FailureReason, Hop}
use blink_lightning_gateway.Primitives.Amount.{MilliSatoshi, ℤ}
use blink_lightning_gateway.Primitives.Hex.{PaymentHash, Preimage}
use blink_lightning_gateway.Primitives.Types.{Timestamp, WalletId, PaymentId}
use blink_lightning_gateway.Symphony.Client.{SymphonyAuthorizeRequest}
use blink_lightning_gateway.Base.{List, ◌∷◌, arith}
use blink_lightning_gateway.Payment.Entity as Payments
use blink_lightning_gateway.Invoice.Lifecycle.{Status, Shows}
use blink_lightning_gateway.Payment.Lifecycle.{fresh}
use blink_lightning_gateway.Payment.Refinement.{fresh-Shows}
use blink_lightning_gateway.App.World.{invoice_read, Crates, World, Trace}
use blink_lightning_gateway.App.TransferLaws.{try_new_intraledger_made}

module _ {c : Crates} (w : World c) where
  transition_to_pending-IsAnnounced :
      (p : Payment c.payment_log) (h : PaymentHash) (t : Timestamp) (tr : Trace c)
      → IsAnnounced tr
      → IsAnnounced (transition_to_pending w p h t tr).1
  unfolding transition_to_pending mark_pending
  transition_to_pending-IsAnnounced p h t tr k = ground arith

  mark_pending_kept :
      (t : Timestamp) (p : Payment c.payment_log)
      → (mark_pending c.payment_log t p).1.payment_hash ≡ p.payment_hash
  unfolding mark_pending
  mark_pending_kept t p = ground arith

  settle_inline-IsAnnounced :
      (p : Payment c.payment_log) (h : PaymentHash) (z : ℤ) (pre : Preimage) (fee : MilliSatoshi)
      (hops : List Hop) (t : Timestamp) (tr : Trace c)
      → p.payment_hash ≡ h
      → IsAnnounced tr
      → IsAnnounced (settle_inline w p h z pre fee hops t tr).1
  unfolding settle_inline
  settle_inline-IsAnnounced p h z pre fee hops t tr e k = grind (
    arith,
    mark_pending_kept t p,
    commit_completed-IsAnnounced w (mark_pending c.payment_log t p).1,
  )

  fail_inline-IsAnnounced :
      (p : Payment c.payment_log) (h : PaymentHash) (z : ℤ) (r : FailureReason) (t : Timestamp)
      (tr : Trace c)
      → p.payment_hash ≡ h
      → IsAnnounced tr
      → IsAnnounced (fail_inline w p h z r t tr).1
  unfolding fail_inline
  fail_inline-IsAnnounced p h z r t tr e k =
      grind (
        arith,
        mark_pending_kept t p,
        commit_failed-IsAnnounced w (mark_pending c.payment_log t p).1,
      )

  dispatch-IsAnnounced :
      (p : Payment c.payment_log) (h : PaymentHash) (z : ℤ) (t : Timestamp)
      (resp : SendPaymentResponse) (tr : Trace c)
      → p.payment_hash ≡ h
      → IsAnnounced tr
      → IsAnnounced (dispatch w p h z t resp tr).1
  unfolding dispatch
  dispatch-IsAnnounced p h z t resp tr e k =
      grind (
        arith, transition_to_pending-IsAnnounced, settle_inline-IsAnnounced,
        fail_inline-IsAnnounced,
      )

  send_over_lnd-IsAnnounced :
      (p : Payment c.payment_log) (h : PaymentHash) (z : ℤ) (params : SendPaymentParams)
      (t : Timestamp) (tr : Trace c)
      → p.payment_hash ≡ h
      → IsAnnounced tr
      → IsAnnounced (send_over_lnd w p h z params t tr).1
  unfolding send_over_lnd
  send_over_lnd-IsAnnounced p h z params t tr e k =
      grind (arith, dispatch-IsAnnounced, fail_inline-IsAnnounced)

  authorize_then_send-IsAnnounced :
      (p : Payment c.payment_log) (h : PaymentHash) (z : ℤ) (hold : SymphonyAuthorizeRequest)
      (params : SendPaymentParams) (t : Timestamp) (tr : Trace c)
      → p.payment_hash ≡ h
      → IsAnnounced tr
      → IsAnnounced (authorize_then_send w p h z hold params t tr).1
  unfolding authorize_then_send
  authorize_then_send-IsAnnounced p h z hold params t tr e k =
      grind (arith, send_over_lnd-IsAnnounced, fail_inline-IsAnnounced)

  persist_intent-IsAnnounced :
      (n : NewPayment) (event : Timestamp → NewOutboxEvent) (tr : Trace c)
      → ((t : Timestamp) → IsNamed c.hex (event t) n.payment_hash)
      → ((t : Timestamp) → (event t).domain_event ≡ lightning_payment_initiated)
      → IsAnnounced tr
      → IsAnnounced (persist_intent w n event tr).1
  unfolding persist_intent
  persist_intent-IsAnnounced n event tr named e k = grind arith

  persist_intent_hash :
      (n : NewPayment) (event : Timestamp → NewOutboxEvent) (p : Payment c.payment_log)
      (tr : Trace c)
      → (persist_intent w n event tr).0 ≡ ok p
      → p.payment_hash ≡ n.payment_hash
  unfolding persist_intent fresh
  persist_intent_hash n event p tr e = ground arith

  send_new-IsAnnounced :
      (n : NewPayment) (decoded : DecodedInvoice) (wallet : WalletId) (a : MilliSatoshi)
      (t : Timestamp) (tr : Trace c)
      → n.payment_hash ≡ decoded.payment_hash
      → IsAnnounced tr
      → IsAnnounced (send_new w n decoded wallet a t tr).1
  unfolding send_new
  send_new-IsAnnounced n decoded wallet a t tr e k =
      grind
        (arith, persist_intent-IsAnnounced, persist_intent_hash n, authorize_then_send-IsAnnounced)

  try_new_made :
      (id : PaymentId) (decoded : DecodedInvoice) (wallet : WalletId) (a : Option MilliSatoshi)
      (fee : MilliSatoshi) (t : Timestamp) (n : NewPayment)
      → try_new id decoded wallet a fee t ≡ ok n
      → n.payment_hash ≡ decoded.payment_hash
  unfolding try_new
  try_new_made id decoded wallet a fee t n e = ground arith

  send_external-IsAnnounced :
      (request : SendPaymentRequest) (decoded : DecodedInvoice) (t : Timestamp) (tr : Trace c)
      → IsAnnounced tr
      → IsAnnounced (send_external w request decoded t tr).1
  unfolding send_external
  send_external-IsAnnounced request decoded t tr k =
      grind (arith, send_new-IsAnnounced, try_new_made)

  fresh_kept : (n : NewPayment) → (fresh c.payment_log n).payment_hash ≡ n.payment_hash
  unfolding fresh
  fresh_kept n = refl

  commit_transfer-IsAnnounced :
      (n : NewPayment) (inv : Invoice c.invoice_log) (h : PaymentHash) (s : WalletId)
      (t : Timestamp) (tr : Trace c)
      → n.payment_hash ≡ h
      → inv.payment_hash ≡ h
      → any is_settled_intraledger (c.invoice_log.iter_all inv.events) ≡ false
      → IsAnnounced tr
      → IsAnnounced (commit_transfer w n inv h s t tr).1
  unfolding commit_transfer Payments.settle settle_intraledger
  commit_transfer-IsAnnounced n inv h s t tr e f a k = ground (
    arith,
    fresh-Shows c.payment_log n,
    fresh_kept n,
    c.payment_log.already_applied-any (fresh c.payment_log n).events is_completed,
    c.invoice_log.already_applied-any inv.events is_settled_intraledger,
  )

  -- An open invoice was not settled before.
  open_unsettled :
      (inv : Invoice c.invoice_log) (s : Status)
      → Shows c.invoice_log s inv
      → inv.state ≡ InvoiceState.open_
      → any is_settled_intraledger (c.invoice_log.iter_all inv.events) ≡ false
  open_unsettled inv s h o = ground arith

  send_intraledger_payment-IsAnnounced :
      (request : SendPaymentRequest) (decoded : DecodedInvoice) (inv : Invoice c.invoice_log)
      (t : Timestamp) (tr : Trace c) (s : Status)
      → inv.payment_hash ≡ decoded.payment_hash
      → Shows c.invoice_log s inv
      → IsAnnounced tr
      → IsAnnounced (send_intraledger_payment w request decoded inv t tr).1
  unfolding send_intraledger_payment check_recipient check_wallet_ownership
  send_intraledger_payment-IsAnnounced request decoded inv t tr s same h k =
      grind (arith, commit_transfer-IsAnnounced, open_unsettled inv s h, try_new_intraledger_made)

  decode_bolt11-IsAnnounced :
      (s : String) (tr : Trace c) → IsAnnounced tr → IsAnnounced (decode_bolt11 w s tr).1
  unfolding decode_bolt11
  decode_bolt11-IsAnnounced s tr k = ground arith

  -- The invoices that a lookup by hash finds have this hash and stand somewhere in their life.
  abbrev pub FindsStanding : Type 0
  FindsStanding =
      (tr : Trace c) (h : PaymentHash) (inv : Invoice c.invoice_log)
      → w.maybe_find_invoice tr h ≡ ok (some inv)
      → (inv.payment_hash ≡ h) × (s : Status) × Shows c.invoice_log s inv

  route-IsAnnounced :
      (request : SendPaymentRequest) (t : Timestamp) (decoded : DecodedInvoice) (tr : Trace c)
      → FindsStanding
      → IsAnnounced tr
      → IsAnnounced (route w request t decoded tr).1
  unfolding route
  route-IsAnnounced request t decoded tr found k =
      let h = decoded.payment_hash in
      elim (Result-cases (w.maybe_find_invoice tr h)) [
        | inl (none, e) ↦
            ground (arith, e, send_external-IsAnnounced request decoded t (invoice_read h ∷ tr) k)
        | inl (some inv, e) ↦
            let (same, s, stands) = found tr h inv e in
            ground (
              arith,
              e,
              send_intraledger_payment-IsAnnounced request decoded inv t (invoice_read h ∷ tr) s
                  same stands k,
            )
        | inr (x, e) ↦ ground (arith, e)
      ]

  -- If the invoices that a lookup by hash finds have this hash and stand somewhere in their life,
  -- then whatever the environment answers: every transaction that `send_payment` commits changes the
  -- entities whose hash its one event names, to the state that the event says.
  pub send_payment-IsAnnounced :
      (request : SendPaymentRequest) (tr : Trace c)
      → FindsStanding
      → IsAnnounced tr
      → IsAnnounced (send_payment w request tr).1
  unfolding send_payment check_wallet_ownership
  send_payment-IsAnnounced request tr found k =
      grind (arith, decode_bolt11-IsAnnounced, route-IsAnnounced)
