-- ===== src/App/Contradictions.antt =====
-- What becomes of a payment when the call of LND fails, and of LND's word after that.
use blink_lightning_gateway.Payment.Entity as Payments
use blink_lightning_gateway.Payment.Event.{
  Hop, PaymentEvent, FailureReason, PaymentState, is_completed, is_failed, invalid_state_transition,
}
use blink_lightning_gateway.Primitives.Amount.{MilliSatoshi, ℤ}
use blink_lightning_gateway.App.Commit.{
  commit_completed, commit_failed, lnd_error_to_failure_reason, check_wallet_ownership,
}
use blink_lightning_gateway.App.Send.{
  authorize_then_send, fail_inline, persist_intent, route, send_external, send_new, send_over_lnd,
  send_payment,
}
use blink_lightning_gateway.App.Requests.{SendPaymentRequest}
use blink_lightning_gateway.Payment.Entity.{NewPayment, DecodedInvoice, Payment, fail, mark_pending}
use blink_lightning_gateway.Payment.Refinement.{fresh-Shows}
use blink_lightning_gateway.Fees.Policy.{max_for}
use blink_lightning_gateway.Primitives.Amount.{whole_sat, as_i64}
use blink_lightning_gateway.Symphony.Client.{
  SymphonyAuthorizeRequest, SymphonyAuthorizeResponse, SymphonyAuthorizeStatus, approved, declined,
}
use blink_lightning_gateway.Base.{Result-cases, inl, inr, refl}
use blink_lightning_gateway.App.Send.{
  build_initiated_outbox, hold_request, authorize_failure_reason, declined_reason,
}
use blink_lightning_gateway.Outbox.Event.{NewOutboxEvent}
use blink_lightning_gateway.Primitives.Types.{WalletId, Timestamp}
use blink_lightning_gateway.Base.{
  none, any-append, err, any, ok, Bool, false, some, ◌≡◌, List, [], ◌∷◌, arith,
}
use blink_lightning_gateway.App.World.{hold_asked, send_asked, Crates, World, Trace}
use blink_lightning_gateway.App.Track.{apply_payment_update, handle_payment_update}
use blink_lightning_gateway.App.TrackLaws.{count_writes}
use blink_lightning_gateway.Lnd.Types.{LndError, PaymentUpdate, SendPaymentParams, succeeded}
use blink_lightning_gateway.Primitives.Hex.{PaymentHash, Preimage}
use blink_lightning_gateway.Payment.Lifecycle.{lost, Shows}
use blink_lightning_gateway.App.Error.{returned, payment}

module _ {c : Crates} (w : World c) where
  commit_failed_failed :
      (p q : Payment c.payment_log) (h : PaymentHash) (z : ℤ) (r : FailureReason) (t : Timestamp)
      (tr : Trace c)
      → any is_failed (c.payment_log.iter_all p.events) ≡ false
      → (commit_failed w p h z r t tr).0 ≡ ok q
      → q.state ≡ PaymentState.failed
  unfolding commit_failed fail
  commit_failed_failed p q h z r t tr f e =
      ground (arith, c.payment_log.already_applied-any p.events is_failed)

  pending_unfailed :
      (p : Payment c.payment_log) (t : Timestamp)
      → any is_failed (c.payment_log.iter_all p.events) ≡ false
      → any is_failed (c.payment_log.iter_all (mark_pending c.payment_log t p).1.events) ≡ false
  unfolding mark_pending
  pending_unfailed p t f = ground (
    arith,
    c.payment_log.iter_all-push p.events (PaymentEvent.pending t),
    any-append is_failed (c.payment_log.iter_all p.events) (PaymentEvent.pending t ∷ []),
  )

  fail_inline_failed :
      (p q : Payment c.payment_log) (h : PaymentHash) (z : ℤ) (r : FailureReason) (t : Timestamp)
      (tr : Trace c)
      → any is_failed (c.payment_log.iter_all p.events) ≡ false
      → (fail_inline w p h z r t tr).0 ≡ ok q
      → q.state ≡ PaymentState.failed
  unfolding fail_inline
  fail_inline_failed p q h z r t tr f e =
      let pending = mark_pending c.payment_log t p in
      ground (arith, commit_failed_failed pending.1 q h z r t tr (pending_unfailed p t f))

  send_over_lnd_failed :
      (p q : Payment c.payment_log) (h : PaymentHash) (z : ℤ) (params : SendPaymentParams)
      (t : Timestamp) (e : LndError) (tr : Trace c)
      → any is_failed (c.payment_log.iter_all p.events) ≡ false
      → w.send_payment tr params ≡ err e
      → (send_over_lnd w p h z params t tr).0 ≡ ok q
      → q.state ≡ PaymentState.failed
  unfolding send_over_lnd
  send_over_lnd_failed p q h z params t e tr f a r = ground (
    arith,
    a,
    fail_inline_failed p q h z (lnd_error_to_failure_reason e) t (send_asked params (err e) ∷ tr) f,
  )

  -- Every call that asks LND to send ends with an error, of whatever kind.
  abbrev pub IsUnreachable : Type 0
  IsUnreachable =
      (tr : Trace c) (params : SendPaymentParams)
      → (e : LndError) × (w.send_payment tr params ≡ err e)

  module _ (down : IsUnreachable) where
    authorize_then_send_failed :
        (p q : Payment c.payment_log) (h : PaymentHash) (z : ℤ) (hold : SymphonyAuthorizeRequest)
        (params : SendPaymentParams) (t : Timestamp) (tr : Trace c)
        → any is_failed (c.payment_log.iter_all p.events) ≡ false
        → (authorize_then_send w p h z hold params t tr).0 ≡ ok q
        → q.state ≡ PaymentState.failed
    unfolding authorize_then_send
    authorize_then_send_failed p q h z hold params t tr f r =
        elim (Result-cases (w.authorize_spend tr hold)) [
          | inr (x, l) ↦
              fail_inline_failed p q h z (authorize_failure_reason w x) t
                (hold_asked hold (err x) ∷ tr) f (ground (arith, l, r))
          | inl (resp, l) ↦ by_status resp l resp.status refl
        ]
      where
        by_status :
            (resp : SymphonyAuthorizeResponse)
            → w.authorize_spend tr hold ≡ ok resp
            → (s : SymphonyAuthorizeStatus) → resp.status ≡ s
            → q.state ≡ PaymentState.failed
        by_status resp l declined is =
            fail_inline_failed p q h z (declined_reason w resp.decline_reason) t
              (hold_asked hold (ok resp) ∷ tr) f (ground (arith, l, is, r))
        by_status resp l approved is =
            let asked = hold_asked hold (ok resp) ∷ tr in
            let (e, a) = down asked params in
            send_over_lnd_failed p q h z params t e asked f a (ground (arith, l, is, r))

    persist_intent_unfailed :
        (n : NewPayment) (event : Timestamp → NewOutboxEvent) (p : Payment c.payment_log)
        (tr : Trace c)
        → (persist_intent w n event tr).0 ≡ ok p
        → any is_failed (c.payment_log.iter_all p.events) ≡ false
    unfolding persist_intent
    persist_intent_unfailed n event p tr e = ground (arith, fresh-Shows c.payment_log n)

    send_new_failed :
        (n : NewPayment) (decoded : DecodedInvoice) (wallet : WalletId) (a : MilliSatoshi)
        (t : Timestamp) (q : Payment c.payment_log) (tr : Trace c)
        → (send_new w n decoded wallet a t tr).0 ≡ ok q
        → q.state ≡ PaymentState.failed
    unfolding send_new
    send_new_failed n decoded wallet a t q tr e =
        let fee = max_for a in
        let sat = as_i64 (whole_sat a) in
        let h = decoded.payment_hash in
        let event =
          build_initiated_outbox w h wallet sat fee decoded.destination decoded.bolt_invoice in
        let params : SendPaymentParams = record {
          bolt_invoice = decoded.bolt_invoice;
          max_fee_msat = fee;
          timeout_seconds = 60;
        } in
        elim (Result-cases (persist_intent w n event tr).0) [
          | inr (x, l) ↦ absurd (ground (arith, l, e))
          | inl (p, l) ↦
              authorize_then_send_failed p q h sat (hold_request w h wallet a fee) params t
                (persist_intent w n event tr).1 (persist_intent_unfailed n event p tr l)
                (ground (arith, l, e))
        ]

    route_failed :
        (request : SendPaymentRequest) (t : Timestamp) (decoded : DecodedInvoice)
        (q : Payment c.payment_log) (tr : Trace c)
        → ((tr' : Trace c) (h : PaymentHash) → w.maybe_find_invoice tr' h ≡ ok none)
        → (route w request t decoded tr).0 ≡ ok q
        → q.state ≡ PaymentState.failed
    unfolding route send_external
    route_failed request t decoded q tr outside e =
        grind (arith, outside tr decoded.payment_hash, send_new_failed)

    -- If every call that asks LND to send ends with an error of whatever kind, also one of the
    -- connection, which says nothing of the payment at LND, and no invoice of this gateway is paid,
    -- then a payment that `send_payment` returns is a failed one.
    pub send_error_failed :
        (request : SendPaymentRequest) (q : Payment c.payment_log) (tr : Trace c)
        → ((tr' : Trace c) (h : PaymentHash) → w.maybe_find_invoice tr' h ≡ ok none)
        → (send_payment w request tr).0 ≡ ok q
        → q.state ≡ PaymentState.failed
    unfolding send_payment check_wallet_ownership
    send_error_failed request q tr outside e = grind (
      arith,
      λ (t : Timestamp) (decoded : DecodedInvoice) (tr' : Trace c).
          route_failed request t decoded q tr' outside,
    )

  lost_settle :
      (p : Payment c.payment_log) (b : Bool) (pre : Preimage) (fee : MilliSatoshi) (hops : List Hop)
      (t : Timestamp)
      → Shows c.payment_log (lost b) p
      → Payments.settle c.payment_log pre fee hops t p
        ≡ (err (invalid_state_transition PaymentState.failed "settle"), p)
  unfolding Payments.settle
  lost_settle p b pre fee hops t h =
      ground (arith, c.payment_log.already_applied-any p.events is_completed)

  lost_commit :
      (p : Payment c.payment_log) (b : Bool) (h : PaymentHash) (z : ℤ) (pre : Preimage)
      (fee : MilliSatoshi) (hops : List Hop) (t : Timestamp) (tr : Trace c)
      → Shows c.payment_log (lost b) p
      → commit_completed w p h z pre fee hops t tr
        ≡ (err (returned (payment (invalid_state_transition PaymentState.failed "settle"))), tr)
  unfolding commit_completed
  lost_commit p b h z pre fee hops t tr k = rw (lost_settle p b pre fee hops t k)

  -- A payment that stands as failed stays so when LND reports later, with the preimage, that it
  -- succeeded: the report is answered with an invalid transition, and nothing is written.
  pub late_success_refused :
      (u : PaymentUpdate) (pre : Preimage) (p : Payment c.payment_log) (b : Bool) (tr : Trace c)
      → Shows c.payment_log (lost b) p
      → w.find_payment tr u.payment_hash ≡ ok p
      → u.status ≡ succeeded
      → u.payment_preimage ≡ some pre
      → ((handle_payment_update w u tr).0
          ≡ err (returned (payment (invalid_state_transition PaymentState.failed "settle"))))
        × (count_writes (handle_payment_update w u tr).1 ≡ count_writes tr)
  unfolding handle_payment_update apply_payment_update
  late_success_refused u pre p b tr h f s q = grind (arith, lost_commit p b)
