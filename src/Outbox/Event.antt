-- ===== src/Outbox/Event.antt =====
-- src/outbox/entity.rs: the gateway's domain events, the eight standard event types, their texts in
-- the database, and the constructors of a new row.
use text.Mathlib.Text.{◌==◌ as str_eq}
use blink_lightning_gateway.Base.{String, Result, ok, err, if◌then◌else◌}
use blink_lightning_gateway.Primitives.Amount.{ℤ}
use blink_lightning_gateway.Primitives.Types.{Timestamp}
use blink_lightning_gateway.Json.{Json}

pub data GatewayEventType : Type 0 where
  outgoing_payment_initiated outgoing_payment_completed : GatewayEventType
  outgoing_payment_failed outgoing_payment_reversed : GatewayEventType
  incoming_payment_received incoming_payment_pending : GatewayEventType
  incoming_payment_confirmed incoming_payment_canceled : GatewayEventType

-- `OutboxError::UnknownEventType`
pub data ParseError : Type 0 where
  unknown_event_type : String → ParseError

unfoldable pub type_as_str : GatewayEventType → String
type_as_str outgoing_payment_initiated = "OUTGOING_PAYMENT_INITIATED"
type_as_str outgoing_payment_completed = "OUTGOING_PAYMENT_COMPLETED"
type_as_str outgoing_payment_failed = "OUTGOING_PAYMENT_FAILED"
type_as_str outgoing_payment_reversed = "OUTGOING_PAYMENT_REVERSED"
type_as_str incoming_payment_received = "INCOMING_PAYMENT_RECEIVED"
type_as_str incoming_payment_pending = "INCOMING_PAYMENT_PENDING"
type_as_str incoming_payment_confirmed = "INCOMING_PAYMENT_CONFIRMED"
type_as_str incoming_payment_canceled = "INCOMING_PAYMENT_CANCELED"

-- `FromStr for GatewayEventType`
unfoldable pub type_from_str : String → Result ParseError GatewayEventType
type_from_str s =
    if str_eq s "OUTGOING_PAYMENT_INITIATED"
    then ok outgoing_payment_initiated
    else if str_eq s "OUTGOING_PAYMENT_COMPLETED"
    then ok outgoing_payment_completed
    else if str_eq s "OUTGOING_PAYMENT_FAILED"
    then ok outgoing_payment_failed
    else if str_eq s "OUTGOING_PAYMENT_REVERSED"
    then ok outgoing_payment_reversed
    else if str_eq s "INCOMING_PAYMENT_RECEIVED"
    then ok incoming_payment_received
    else if str_eq s "INCOMING_PAYMENT_PENDING"
    then ok incoming_payment_pending
    else if str_eq s "INCOMING_PAYMENT_CONFIRMED"
    then ok incoming_payment_confirmed
    else if str_eq s "INCOMING_PAYMENT_CANCELED"
    then ok incoming_payment_canceled
    else err (unknown_event_type s)

pub data GatewayDomainEvent : Type 0 where
  lightning_invoice_settled lightning_htlc_held lightning_invoice_canceled : GatewayDomainEvent
  lightning_payment_initiated lightning_payment_completed : GatewayDomainEvent
  lightning_payment_failed lightning_payment_reversed : GatewayDomainEvent
  lightning_intraledger_transfer_completed : GatewayDomainEvent

unfoldable pub domain_as_str : GatewayDomainEvent → String
domain_as_str lightning_invoice_settled = "lightning_invoice_settled"
domain_as_str lightning_htlc_held = "lightning_htlc_held"
domain_as_str lightning_invoice_canceled = "lightning_invoice_canceled"
domain_as_str lightning_payment_initiated = "lightning_payment_initiated"
domain_as_str lightning_payment_completed = "lightning_payment_completed"
domain_as_str lightning_payment_failed = "lightning_payment_failed"
domain_as_str lightning_payment_reversed = "lightning_payment_reversed"
domain_as_str lightning_intraledger_transfer_completed = "lightning_intraledger_transfer_completed"

-- `FromStr for GatewayDomainEvent`
unfoldable pub domain_from_str : String → Result ParseError GatewayDomainEvent
domain_from_str s =
    if str_eq s "lightning_invoice_settled"
    then ok lightning_invoice_settled
    else if str_eq s "lightning_htlc_held"
    then ok lightning_htlc_held
    else if str_eq s "lightning_invoice_canceled"
    then ok lightning_invoice_canceled
    else if str_eq s "lightning_payment_initiated"
    then ok lightning_payment_initiated
    else if str_eq s "lightning_payment_completed"
    then ok lightning_payment_completed
    else if str_eq s "lightning_payment_failed"
    then ok lightning_payment_failed
    else if str_eq s "lightning_payment_reversed"
    then ok lightning_payment_reversed
    else if str_eq s "lightning_intraledger_transfer_completed"
    then ok lightning_intraledger_transfer_completed
    else err (unknown_event_type s)

unfoldable pub to_standardized : GatewayDomainEvent → GatewayEventType
to_standardized lightning_invoice_settled = incoming_payment_confirmed
to_standardized lightning_htlc_held = incoming_payment_pending
to_standardized lightning_invoice_canceled = incoming_payment_canceled
to_standardized lightning_payment_initiated = outgoing_payment_initiated
to_standardized lightning_payment_completed = outgoing_payment_completed
to_standardized lightning_payment_failed = outgoing_payment_failed
to_standardized lightning_payment_reversed = outgoing_payment_reversed
to_standardized lightning_intraledger_transfer_completed = outgoing_payment_completed

pub record OutboxEvent : Type 0 where
  pub sequence : ℤ
  pub correlation_id : String
  pub domain_event : GatewayDomainEvent
  pub event_type : GatewayEventType
  pub reference_id : String
  pub amount_sat : ℤ
  pub timestamp : Timestamp
  pub gateway_metadata : Json

pub record NewOutboxEvent : Type 0 where
  pub correlation_id : String
  pub domain_event : GatewayDomainEvent
  pub reference_id : String
  pub amount_sat : ℤ
  pub timestamp : Timestamp
  pub gateway_metadata : Json

-- `NewOutboxEvent::new`
abbrev pub new_event : GatewayDomainEvent → String → String → ℤ → Timestamp → Json → NewOutboxEvent
new_event domain_event correlation_id payment_hash_hex amount_sat timestamp gateway_metadata =
    record {
      correlation_id = correlation_id;
      domain_event = domain_event;
      reference_id = payment_hash_hex;
      amount_sat = amount_sat;
      timestamp = timestamp;
      gateway_metadata = gateway_metadata;
    }

abbrev pub for_lightning_invoice_settled : String → String → ℤ → Timestamp → Json → NewOutboxEvent
for_lightning_invoice_settled = new_event lightning_invoice_settled

abbrev pub for_lightning_payment_initiated : String → String → ℤ → Timestamp → Json → NewOutboxEvent
for_lightning_payment_initiated = new_event lightning_payment_initiated

abbrev pub for_lightning_payment_completed : String → String → ℤ → Timestamp → Json → NewOutboxEvent
for_lightning_payment_completed = new_event lightning_payment_completed

abbrev pub for_lightning_payment_failed : String → String → ℤ → Timestamp → Json → NewOutboxEvent
for_lightning_payment_failed = new_event lightning_payment_failed

abbrev pub for_lightning_htlc_held : String → String → ℤ → Timestamp → Json → NewOutboxEvent
for_lightning_htlc_held = new_event lightning_htlc_held

abbrev pub for_lightning_intraledger_transfer_completed :
    String → String → ℤ → Timestamp → Json → NewOutboxEvent
for_lightning_intraledger_transfer_completed = new_event lightning_intraledger_transfer_completed

abbrev pub for_lightning_invoice_canceled : String → String → ℤ → Timestamp → Json → NewOutboxEvent
for_lightning_invoice_canceled = new_event lightning_invoice_canceled
