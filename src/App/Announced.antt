-- ===== src/App/Announced.antt =====
-- What every committed transaction has to contain: the change of an entity together with the one event
-- that announces it.
use blink_lightning_gateway.Base.{◌≡◌, ok, Option, some, none, List, [], ◌∷◌}
use blink_lightning_gateway.Invoice.Event.{InvoiceState}
use blink_lightning_gateway.Primitives.Hex.{PaymentHash, HexCodec, hash_to_hex}
use blink_lightning_gateway.Invoice.Entity.{Invoice}
use blink_lightning_gateway.Payment.Event.{PaymentState}
use blink_lightning_gateway.Payment.Entity.{Payment, NewPayment}
use blink_lightning_gateway.Outbox.Event.{
  GatewayDomainEvent, lightning_invoice_settled, lightning_htlc_held, lightning_invoice_canceled,
  lightning_payment_initiated, lightning_payment_completed, lightning_payment_failed,
  lightning_intraledger_transfer_completed, NewOutboxEvent,
}
use blink_lightning_gateway.App.World.{
  Crates, World, Trace, begun, committed, payment_created, payment_updated, invoice_updated,
  published, payment_saved,
}

-- The writes of a transaction.
pub data Write (c : Crates) : Type 0 where
  creates : NewPayment → Write c
  changes : Payment c.payment_log → Write c
  changes_invoice : Invoice c.invoice_log → Write c
  announces : NewOutboxEvent → Write c

abbrev pub announced_invoice_state : GatewayDomainEvent → Option InvoiceState
announced_invoice_state lightning_invoice_settled = some InvoiceState.settled
announced_invoice_state lightning_htlc_held = some InvoiceState.held
announced_invoice_state lightning_invoice_canceled = some InvoiceState.canceled
announced_invoice_state _ = none

abbrev pub announced_payment_state : GatewayDomainEvent → Option PaymentState
announced_payment_state lightning_payment_completed = some PaymentState.completed
announced_payment_state lightning_payment_failed = some PaymentState.failed
announced_payment_state _ = none

-- The event is about the entity with this hash.
abbrev pub IsNamed : HexCodec → NewOutboxEvent → PaymentHash → Type 0
IsNamed hex e h = (e.correlation_id ≡ hash_to_hex hex h) × (e.reference_id ≡ hash_to_hex hex h)

module _ {c : Crates} where
  -- The writes since the latest `begun`, newest first.
  abbrev pub open_writes : Trace c → List (Write c)
  open_writes [] = []
  open_writes (begun ∷ tr) = []
  open_writes (committed ∷ tr) = []
  open_writes (payment_created n ∷ tr) = creates n ∷ open_writes tr
  open_writes (payment_updated p ∷ tr) = changes p ∷ open_writes tr
  open_writes (invoice_updated inv ∷ tr) = changes_invoice inv ∷ open_writes tr
  open_writes (published e ∷ tr) = announces e ∷ open_writes tr
  open_writes (_ ∷ tr) = open_writes tr

  -- A transaction changes an invoice, changes a payment or creates one, or completes an intraledger
  -- transfer, and in each case publishes one event, which names the hash of
  -- the entity and says the state that was reached.
  abbrev pub IsHonest : List (Write c) → Type 0
  IsHonest (announces e ∷ (changes_invoice inv ∷ [])) =
      IsNamed c.hex e inv.payment_hash × (announced_invoice_state e.domain_event ≡ some inv.state)
  IsHonest (announces e ∷ (changes p ∷ [])) =
      IsNamed c.hex e p.payment_hash × (announced_payment_state e.domain_event ≡ some p.state)
  IsHonest (announces e ∷ (creates n ∷ [])) =
      IsNamed c.hex e n.payment_hash × (e.domain_event ≡ lightning_payment_initiated)
  IsHonest (announces e ∷ (changes_invoice inv ∷ (changes p ∷ (creates n ∷ [])))) =
      (e.domain_event ≡ lightning_intraledger_transfer_completed)
      × IsNamed c.hex e inv.payment_hash
      × (p.payment_hash ≡ inv.payment_hash)
      × (n.payment_hash ≡ inv.payment_hash)
      × (inv.state ≡ InvoiceState.settled)
      × (p.state ≡ PaymentState.completed)
  IsHonest _ = ⊥

  -- Every transaction that was committed is honest, and a payment that was saved without a
  -- transaction is `Pending`, for which there is no event.
  abbrev pub IsAnnounced : Trace c → Type 0
  IsAnnounced [] = Unit
  IsAnnounced (committed ∷ tr) = IsHonest (open_writes tr) × IsAnnounced tr
  IsAnnounced (payment_saved p ∷ tr) = (p.state ≡ PaymentState.pending) × IsAnnounced tr
  IsAnnounced (_ ∷ tr) = IsAnnounced tr

-- A lookup by hash finds the row with this hash.
pub record FindsByHash {c : Crates} (w : World c) : Type 0 where
  pub invoices :
      (tr : Trace c) (h : PaymentHash) (inv : Invoice c.invoice_log)
      → w.find_invoice tr h ≡ ok inv
      → inv.payment_hash ≡ h
  pub payments :
      (tr : Trace c) (h : PaymentHash) (p : Payment c.payment_log)
      → w.find_payment tr h ≡ ok p
      → p.payment_hash ≡ h
