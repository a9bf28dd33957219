-- ===== src/Outbox/Texts.antt =====
-- The event names written to the database are read back, and nothing else is.
use text.Mathlib.TextEquality.{eq_iff}
use blink_lightning_gateway.Base.{◌≡◌, ◌↔◌, refl, String, ok, arith}
use blink_lightning_gateway.Outbox.Event.{
  GatewayEventType, GatewayDomainEvent, outgoing_payment_initiated, lightning_invoice_settled,
  type_as_str, type_from_str, domain_as_str, domain_from_str,
}

pub type_from_str-as_str : (t : GatewayEventType) → type_from_str (type_as_str t) ≡ ok t
unfolding type_from_str type_as_str
type_from_str-as_str outgoing_payment_initiated = refl
type_from_str-as_str _ = refl

pub domain_from_str-as_str : (e : GatewayDomainEvent) → domain_from_str (domain_as_str e) ≡ ok e
unfolding domain_from_str domain_as_str
domain_from_str-as_str lightning_invoice_settled = refl
domain_from_str-as_str _ = refl

type_from_str_only :
    (s : String) (t : GatewayEventType) → type_from_str s ≡ ok t → s ≡ type_as_str t
unfolding type_from_str type_as_str
type_from_str_only s t h = ground (
  arith,
  eq_iff s "OUTGOING_PAYMENT_INITIATED",
  eq_iff s "OUTGOING_PAYMENT_COMPLETED",
  eq_iff s "OUTGOING_PAYMENT_FAILED",
  eq_iff s "OUTGOING_PAYMENT_REVERSED",
  eq_iff s "INCOMING_PAYMENT_RECEIVED",
  eq_iff s "INCOMING_PAYMENT_PENDING",
  eq_iff s "INCOMING_PAYMENT_CONFIRMED",
  eq_iff s "INCOMING_PAYMENT_CANCELED",
)

domain_from_str_only :
    (s : String) (e : GatewayDomainEvent) → domain_from_str s ≡ ok e → s ≡ domain_as_str e
unfolding domain_from_str domain_as_str
domain_from_str_only s e h = ground (
  arith,
  eq_iff s "lightning_invoice_settled",
  eq_iff s "lightning_htlc_held",
  eq_iff s "lightning_invoice_canceled",
  eq_iff s "lightning_payment_initiated",
  eq_iff s "lightning_payment_completed",
  eq_iff s "lightning_payment_failed",
  eq_iff s "lightning_payment_reversed",
  eq_iff s "lightning_intraledger_transfer_completed",
)

-- A text is read as a standard event type exactly when it is the text that this type is written as,
-- and the same holds for the domain events: every written name is read back, and no two names are
-- confused.
pub from_str_iff :
    (s : String) (t : GatewayEventType) (e : GatewayDomainEvent)
    → ((type_from_str s ≡ ok t) ↔ (s ≡ type_as_str t))
      × ((domain_from_str s ≡ ok e) ↔ (s ≡ domain_as_str e))
from_str_iff s t e = (
  (type_from_str_only s t, λ h. rw h (type_from_str-as_str t)),
  (domain_from_str_only s e, λ h. rw h (domain_from_str-as_str e)),
)
