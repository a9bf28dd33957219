-- ===== src/App/Requests.antt =====
-- src/app.rs and decode.rs: the requests of the use cases and the decoding of a BOLT11 invoice.
use blink_lightning_gateway.Base.{Option, none, some, String, length, ◌==◌, if◌then◌else◌}
use blink_lightning_gateway.Primitives.Amount.{MilliSatoshi, round_up_to_sat_wrapping}
use blink_lightning_gateway.Primitives.Types.{WalletId}
use blink_lightning_gateway.Payment.Event.{expired_bolt_invoice}
use blink_lightning_gateway.Payment.Entity.{DecodedInvoice}
use blink_lightning_gateway.App.Error.{payment, invalid_bolt_invoice}
use blink_lightning_gateway.App.World.{
  Crates, World, Task, clock_read, pure, fail_with, ask, or_fail, ◌>>=◌,
}
use blink_lightning_gateway.Wallet.Ownership.{CallerAuth}

pub record SendPaymentRequest : Type 0 where
  pub caller_auth : CallerAuth
  pub wallet_id : WalletId
  pub payment_request : String
  pub memo : Option String

abbrev pub rounded : Option MilliSatoshi → Option MilliSatoshi
rounded none = none
rounded (some m) = some (round_up_to_sat_wrapping m)

module _ {c : Crates} (w : World c) where
  unfoldable pub decode_bolt11 : String → Task c DecodedInvoice
  decode_bolt11 payment_request = do
    inv ← or_fail invalid_bolt_invoice (c.parse_bolt11 payment_request)
    t ← ask w.now (λ _. clock_read)
    if inv.would_expire t
        then fail_with (payment expired_bolt_invoice)
        else if length inv.payment_hash == 32
        then pure (record {
          payment_hash = record { bytes = inv.payment_hash };
          destination = c.hex.encode inv.destination;
          amount_msat = rounded inv.amount_milli_satoshis;
          bolt_invoice = payment_request;
        })
        else fail_with (invalid_bolt_invoice "payment hash not 32 bytes")
