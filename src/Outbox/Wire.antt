-- ===== src/Outbox/Wire.antt =====
-- src/outbox/entity.rs, `to_proto`: a stored row as the message that subscribers get. The messages
-- are those of proto/lightning_payment_gateway.proto; printing the JSON metadata is a parameter.
use blink_lightning_gateway.Base.{ℕ, ◌-◌, ◌^◌, Option, none, some, String}
use blink_lightning_gateway.Primitives.Amount.{ℤ, pos, negsuc}
use blink_lightning_gateway.Primitives.Types.{Timestamp}
use blink_lightning_gateway.Json.{Json}
use blink_lightning_gateway.Outbox.Event.{
  GatewayEventType, outgoing_payment_initiated, outgoing_payment_completed, outgoing_payment_failed,
  outgoing_payment_reversed, incoming_payment_received, incoming_payment_pending,
  incoming_payment_confirmed, incoming_payment_canceled, OutboxEvent,
}

-- `to_proto() as i32`: the tags of the proto enum.
unfoldable pub type_to_proto : GatewayEventType → ℕ
type_to_proto outgoing_payment_initiated = 1
type_to_proto outgoing_payment_completed = 2
type_to_proto outgoing_payment_failed = 3
type_to_proto outgoing_payment_reversed = 4
type_to_proto incoming_payment_received = 5
type_to_proto incoming_payment_pending = 6
type_to_proto incoming_payment_confirmed = 7
type_to_proto incoming_payment_canceled = 8

pub record PaymentEvent : Type 0 where
  pub sequence : ℕ
  pub correlation_id : String
  pub event_type : ℕ
  pub reference_id : String
  pub amount : ℕ
  pub timestamp_ms : Timestamp
  pub gateway_metadata : String

-- `i64 as u64`, which wraps.
abbrev pub as_u64 : ℤ → ℕ
as_u64 (pos n) = n
as_u64 (negsuc n) = 2 ^ 64 - 1 - n

-- A negative amount is clamped to 0.
abbrev pub safe_amount_sat : ℤ → ℕ
safe_amount_sat (pos n) = n
safe_amount_sat (negsuc n) = 0

abbrev unwrap_or : Option String → String → String
unwrap_or none d = d
unwrap_or (some s) d = s

unfoldable pub to_proto : (Json → Option String) → OutboxEvent → PaymentEvent
unfolding type_to_proto
to_proto to_string e = record {
  sequence = as_u64 e.sequence;
  correlation_id = e.correlation_id;
  event_type = type_to_proto e.event_type;
  reference_id = e.reference_id;
  amount = safe_amount_sat e.amount_sat;
  timestamp_ms = e.timestamp;
  gateway_metadata = unwrap_or (to_string e.gateway_metadata) "{}";
}
