-- ===== src/Examples/Wires.antt =====
-- The theorems on LND's messages and on the status stream at concrete messages and events.
use blink_lightning_gateway.Base.{some, none, [], ◌∷◌}
use blink_lightning_gateway.Primitives.Amount.{ℤ, pos, negsuc}
use blink_lightning_gateway.Lnd.Types as Lnd
use blink_lightning_gateway.Lnd.Types.{SendPaymentResponse, InvoiceUpdate}
use blink_lightning_gateway.Lnd.Wire.{Lnrpc, LndPayment, LndInvoice, done}
use blink_lightning_gateway.Outbox.Event.{
  OutboxEvent, GatewayDomainEvent, incoming_payment_confirmed,
}
use blink_lightning_gateway.Json.{null}
use blink_lightning_gateway.Examples.Codec.{hex_codec, some_hash}

abbrev pub rpc : Lnrpc hex_codec
rpc = record {
  payment_status = λ z. some done;
  failure_reason = λ z. none;
  invoice_state = λ z. some Lnd.accepted;
  show = λ z. "number";
  show_size = λ n. "size";
  show_hash_error = λ e. "error";
}

abbrev pub lnd_invoice : LndInvoice
lnd_invoice = record {
  r_hash = some_hash.bytes;
  state = pos 3;
  amt_paid_msat = pos 5_000;
  r_preimage = [];
}

abbrev update : InvoiceUpdate
update = record {
  payment_hash = some_hash;
  state = Lnd.accepted;
  amt_paid_msat = 5_000;
  payment_preimage = none;
}

abbrev pub lnd_payment : LndPayment
lnd_payment = record {
  payment_hash = "000102030405060708090a0b0c0d0e0f101112131415161718191a1b1c1d1e1f";
  payment_preimage = "";
  status = pos 2;
  fee_msat = negsuc 0;
  htlcs = [];
  failure_reason = pos 0;
}

abbrev pub response : SendPaymentResponse
response = record {
  payment_hash = record {
    bytes =
        0 ∷ 1 ∷ 2 ∷ 3 ∷ 4 ∷ 5 ∷ 6 ∷ 7 ∷ 8 ∷ 9 ∷ 10 ∷ 11 ∷ 12 ∷ 13 ∷ 14 ∷ 15 ∷ 16 ∷ 17 ∷ 18 ∷ 19 ∷ 20
        ∷ 21 ∷ 22 ∷ 23 ∷ 24 ∷ 25 ∷ 26 ∷ 27 ∷ 28 ∷ 29 ∷ 30 ∷ 31 ∷ [];
  };
  payment_preimage = none;
  status = Lnd.succeeded;
  fees_paid_msat = 0;
  route_hops = [];
  failure_reason = none;
}

abbrev row : ℤ → GatewayDomainEvent → OutboxEvent
row sequence event = record {
  sequence = sequence;
  correlation_id = "aa";
  domain_event = event;
  event_type = incoming_payment_confirmed;
  reference_id = "aa";
  amount_sat = pos 5;
  timestamp = 2_000;
  gateway_metadata = null;
}
