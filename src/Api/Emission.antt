-- ===== src/Api/Emission.antt =====
-- What one step of a subscriber's stream keeps.
use blink_lightning_gateway.Base.{
  ℕ, suc, true, Option, none, some, String, List, [], ◌∷◌, ◌≡◌, ◌≢◌, ◌⊎◌, inl, inr, refl, ap, ◌∙◌,
  arith, Bool-cases, Option-cases,
}
use blink_lightning_gateway.Primitives.Hex.{Preimage}
use blink_lightning_gateway.Primitives.Types.{BoltInvoice}
use blink_lightning_gateway.Outbox.Event.{GatewayDomainEvent}
use blink_lightning_gateway.Api.Status.{
  InvoicePaymentStatus, pending, paid, expired, Payload, StatusEmitter, build_payload, emitter_next,
  is_terminal, status_from_event,
}
use blink_lightning_gateway.Api.Subscription.{
  invoice_for, preimage_and_request, Item, error_payload, status_payload, Setting, Subscriber, Flow,
  continues, stops, out_of_fuel, and_then, tick, send_item, flow_after, emit_for_event,
}

abbrev pub pending_payload : Payload
pending_payload = record { payment_preimage = none; payment_request = none; status = pending }

-- Of a stream that goes on: nothing, or one PENDING.
abbrev pub IsOpening : List Item → Type 0
IsOpening [] = Unit
IsOpening (status_payload p ∷ []) = p ≡ pending_payload
IsOpening _ = ⊥

-- A finished or an unfinished stream, the latest first: a terminal status or an error comes last, and
-- only PAID shows a preimage.
abbrev pub IsHistory : List Item → Type 0
IsHistory [] = Unit
IsHistory (error_payload e ∷ rest) = IsOpening rest
IsHistory (status_payload p ∷ rest) =
    IsOpening (status_payload p ∷ rest)
    ⊎ (is_terminal p.status ≡ true) × (p.payment_preimage ≢ none → p.status ≡ paid) × IsOpening rest

abbrev pub last_status : List Item → StatusEmitter
last_status (status_payload p ∷ items) = some p.status
last_status _ = none

abbrev pub IsRunning : Subscriber → Type 0
IsRunning s = IsOpening s.sent × (s.emitter ≡ last_status s.sent)

-- What a part of the code leaves, given that it may go on.
abbrev pub IsKept : Flow × Subscriber → Type 0
IsKept r = IsHistory r.1.sent × (r.0 ≡ continues → IsRunning r.1)

IsOpening-IsHistory : (items : List Item) → IsOpening items → IsHistory items
IsOpening-IsHistory [] h = tt
IsOpening-IsHistory (status_payload p ∷ []) h = inl h
IsOpening-IsHistory (status_payload p ∷ q ∷ items) h = absurd h
IsOpening-IsHistory (error_payload e ∷ items) h = absurd h

pub IsRunning-IsKept : (flow : Flow) (s : Subscriber) → IsRunning s → IsKept (flow, s)
IsRunning-IsKept flow s h = (IsOpening-IsHistory s.sent h.0, λ _. h)

pub IsRunning-stops : (s : Subscriber) → IsOpening s.sent → IsKept (stops, s)
IsRunning-stops s h = (IsOpening-IsHistory s.sent h, λ e. ground arith)

pub and_then-IsKept :
    (r : Flow × Subscriber) (next : Subscriber → Flow × Subscriber)
    → IsKept r
    → (IsRunning r.1 → IsKept (next r.1))
    → IsKept (and_then r next)
and_then-IsKept (continues, s) next h k = k (h.1 refl)
and_then-IsKept (stops, s) next h k = h
and_then-IsKept (out_of_fuel, s) next h k = h

build_payload-terminal :
    (status : InvoicePaymentStatus) (i : Option (Preimage × BoltInvoice)) (items : List Item)
    → is_terminal status ≡ true
    → IsOpening items
    → IsHistory (status_payload (build_payload status i) ∷ items)
unfolding build_payload is_terminal
build_payload-terminal paid (some i) items h k = inr (refl, λ _. refl, k)
build_payload-terminal paid none items h k = inr (refl, λ _. refl, k)
build_payload-terminal expired i items h k = inr (refl, λ n. absurd (n refl), k)
build_payload-terminal pending i items h k = ground arith

-- A status passes exactly when it is not the last one.
pub emitter_next-cases :
    (last : StatusEmitter) (status : InvoicePaymentStatus)
    → (emitter_next last status ≡ (none, last))
      ⊎ (last ≢ some status) × (emitter_next last status ≡ (some status, some status))
unfolding emitter_next
emitter_next-cases none status = inr (ground arith, refl)
emitter_next-cases (some last) status = ground arith

pub emitter_next-first :
    (last : StatusEmitter) (status : InvoicePaymentStatus)
    → last ≡ none
    → ¬ (emitter_next last status ≡ (none, last))
unfolding emitter_next
emitter_next-first none status e h = ground arith
emitter_next-first (some last) status e h = ground arith

-- A PENDING that the emitter lets through is the first item.
pending-first :
    (items : List Item) → IsOpening items → last_status items ≢ some pending → items ≡ []
pending-first [] h n = refl
pending-first (status_payload p ∷ []) h n = absurd (n (ap (λ q. some q.status) h))
pending-first (status_payload p ∷ q ∷ items) h n = absurd h
pending-first (error_payload e ∷ items) h n = absurd h

module _ (setting : Setting) (reference : String) where
  pub send_item-cases :
      (item : Item) (flow : Flow) (s : Subscriber)
      → IsOpening s.sent
      → IsKept (flow, record s { sent = item ∷ s.sent; clock = suc s.clock })
      → IsKept (send_item setting reference item flow s)
  unfolding send_item
  send_item-cases item flow s o k = elim (Bool-cases (setting.is_sent s.clock)) [
    | inl e ↦ rw (send_item, e) k
    | inr e ↦ rw (send_item, e) (IsRunning-stops (tick s) o)
  ]

  pub send_item-terminal :
      (status : InvoicePaymentStatus) (i : Option (Preimage × BoltInvoice)) (s : Subscriber)
      → IsOpening s.sent
      → is_terminal status ≡ true
      → IsKept (send_item setting reference (status_payload (build_payload status i)) stops s)
  send_item-terminal status i s o t =
      send_item-cases (status_payload (build_payload status i)) stops s o
        (build_payload-terminal status i s.sent t o, λ e. ground arith)

  send_item-pending :
      (i : Option (Preimage × BoltInvoice)) (s : Subscriber)
      → s.sent ≡ []
      → s.emitter ≡ some pending
      → IsKept (send_item setting reference (status_payload (build_payload pending i)) continues s)
  unfolding build_payload
  send_item-pending i s o e =
      send_item-cases (status_payload (build_payload pending i)) continues s (rw o tt) (
        IsRunning-IsKept continues
          (record s {
            sent = status_payload (build_payload pending i) ∷ s.sent;
            clock = suc s.clock;
          })
          (rw o (refl, e)))

  -- A status that the emitter lets through, from a subscriber whose stream goes on.
  pub emitted :
      (status : InvoicePaymentStatus) (i : Option (Preimage × BoltInvoice)) (s : Subscriber)
      (clock : ℕ)
      → IsRunning s
      → s.emitter ≢ some status
      → IsKept (
          send_item setting reference
            (status_payload (build_payload status i))
            (flow_after setting reference status)
            (record s { emitter = some status; clock = clock }))
  unfolding is_terminal
  emitted paid i s clock h n = send_item-terminal paid i _ h.0 refl
  emitted expired i s clock h n = send_item-terminal expired i _ h.0 refl
  emitted pending i s clock h n =
      send_item-pending i _ (pending-first s.sent h.0 (λ e. n (h.1 ∙ e))) refl

  pub emit_for_event-IsKept :
      (e : GatewayDomainEvent) (s : Subscriber)
      → IsRunning s
      → IsKept (emit_for_event setting reference e s)
  unfolding emit_for_event
  emit_for_event-IsKept e s h = elim (Option-cases (status_from_event e)) [
    | inl p ↦ rw (emit_for_event, p) (IsRunning-IsKept continues s h)
    | inr (status, p) ↦ elim (emitter_next-cases s.emitter status) [
      | inl q ↦ rw (emit_for_event, p, q) (IsRunning-IsKept continues s h)
      | inr (n, q) ↦
          rw (emit_for_event, p, q)
            (emitted status (preimage_and_request (invoice_for setting reference status s.clock)) s
              (suc s.clock) h n)
    ]
  ]
