-- ===== src/Api/Mutation.antt =====
-- src/api/graphql/mutation.rs: the three mutations, from the input of a client to the payload. The caller
-- is the one that Server/Jwks gives to the request. The text of an error is a parameter.
use blink_lightning_gateway.Base.{
  ℕ, ◌*◌, ◌/◌, ◌%◌, ◌^◌, Option, none, some, String, List, [], ◌∷◌, Result, ok, err, ltb,
  if◌then◌else◌,
}
use blink_lightning_gateway.Primitives.Amount.{MilliSatoshi}
use blink_lightning_gateway.Primitives.Hex.{PaymentHash}
use blink_lightning_gateway.Primitives.Types.{WalletId, BoltInvoice}
use blink_lightning_gateway.Payment.Event.{already_paid}
use blink_lightning_gateway.Payment.Entity.{Payment, PaymentLog}
use blink_lightning_gateway.Invoice.Entity.{Invoice, InvoiceLog}
use blink_lightning_gateway.Lnd.Types.{LndError}
use blink_lightning_gateway.Lnd.Client.{FeeProbeResponse}
use blink_lightning_gateway.Wallet.Ownership.{CallerAuth}
use blink_lightning_gateway.App.Error.{AppError, Stop, returned, panicked, payment}
use blink_lightning_gateway.App.World.{Crates, World, Task}
use blink_lightning_gateway.App.Issue.{Mode, NewInvoiceRequest, create_invoice}
use blink_lightning_gateway.App.Requests.{SendPaymentRequest}
use blink_lightning_gateway.App.Send.{send_payment}
use blink_lightning_gateway.App.Jobs.{fee_probe}
use blink_lightning_gateway.Api.Status.{PaymentSendResult, failure, send_result}

-- `SatAmount`, a `u64`
abbrev pub SatAmount : Type 0
SatAmount = ℕ

-- `SatAmount::to_msat`; the product wraps in a release build.
unfoldable pub to_msat : SatAmount → MilliSatoshi
to_msat sat = (sat * 1000) % 2 ^ 64

pub record LnInvoiceCreateInput : Type 0 where
  pub amount : SatAmount
  pub expires_in : Option ℕ
  pub external_id : Option String
  pub memo : Option String
  pub wallet_id : WalletId

abbrev minutes_or_default : Option ℕ → ℕ
minutes_or_default none = 1440
minutes_or_default (some minutes) = minutes

-- `u32::saturating_mul`
unfoldable pub expiry_seconds_of : Option ℕ → ℕ
expiry_seconds_of expires_in =
    let seconds = minutes_or_default expires_in * 60 in
    if ltb seconds (2 ^ 32) then seconds else 4_294_967_295

pub record LnInvoice : Type 0 where
  pub payment_hash : PaymentHash
  pub payment_request : BoltInvoice
  pub payment_secret : String
  pub satoshis : SatAmount

pub record LnInvoicePayload : Type 0 where
  pub errors : List String
  pub invoice : Option LnInvoice

-- Its `transaction` is left out: the code always gives none.
pub record PaymentSendPayload : Type 0 where
  pub errors : List String
  pub status : Option PaymentSendResult

pub record SatAmountPayload : Type 0 where
  pub amount : Option SatAmount
  pub errors : List String

unfoldable pub create_request : CallerAuth → LnInvoiceCreateInput → NewInvoiceRequest
create_request caller input = record {
  caller_auth = caller;
  wallet_id = input.wallet_id;
  amount_msat = to_msat input.amount;
  expiry_seconds = expiry_seconds_of input.expires_in;
  memo = input.memo;
  external_id = input.external_id;
}

module _ (describe : AppError → String) where
  -- The payload of an issued invoice; an invoice without an amount is a panic of `expect`.
  unfoldable pub issued_payload : {log : InvoiceLog} → Invoice log → Result Stop LnInvoicePayload
  issued_payload inv = elim inv.amount_msat [
    | none ↦ err (panicked "lnInvoiceCreate always supplies Some(amount_msat)")
    | some amount_msat ↦ ok (record {
      errors = [];
      invoice = some (record {
        payment_hash = inv.payment_hash;
        payment_request = inv.bolt_invoice;
        payment_secret = "";
        satoshis = amount_msat / 1000;
      });
    })
  ]

  unfoldable pub create_payload :
      {log : InvoiceLog} → Result Stop (Invoice log) → Result Stop LnInvoicePayload
  create_payload (ok inv) = issued_payload inv
  create_payload (err (returned e)) = ok (record { errors = describe e ∷ []; invoice = none })
  create_payload (err (panicked p)) = err (panicked p)

  unfoldable pub send_payload :
      {log : PaymentLog} → Result Stop (Payment log) → Result Stop PaymentSendPayload
  send_payload (ok p) = ok (record { errors = []; status = some (send_result p.state) })
  send_payload (err (returned (payment (already_paid h)))) =
      ok (record { errors = []; status = some PaymentSendResult.already_paid })
  send_payload (err (returned e)) = ok (record { errors = describe e ∷ []; status = some failure })
  send_payload (err (panicked p)) = err (panicked p)

  unfoldable pub probe_payload : Result Stop MilliSatoshi → Result Stop SatAmountPayload
  probe_payload (ok fee_msat) = ok (record { amount = some (fee_msat / 1000); errors = [] })
  probe_payload (err (returned e)) = ok (record { amount = none; errors = describe e ∷ [] })
  probe_payload (err (panicked p)) = err (panicked p)

  module _ {c : Crates} (w : World c) where
    unfoldable pub ln_invoice_create :
        Mode → CallerAuth → LnInvoiceCreateInput → Task c LnInvoicePayload
    ln_invoice_create mode caller input tr =
        let r = create_invoice w mode (create_request caller input) tr in (create_payload r.0, r.1)

    unfoldable pub ln_invoice_payment_send :
        CallerAuth → WalletId → String → Option String → Task c PaymentSendPayload
    ln_invoice_payment_send caller wallet_id payment_request memo tr =
        let request : SendPaymentRequest = record {
          caller_auth = caller;
          wallet_id = wallet_id;
          payment_request = payment_request;
          memo = memo;
        } in
        let r = send_payment w request tr in (send_payload r.0, r.1)

    unfoldable pub ln_invoice_fee_probe :
        (BoltInvoice → Result LndError FeeProbeResponse)
        → CallerAuth
        → WalletId
        → String
        → Task c SatAmountPayload
    ln_invoice_fee_probe probe caller wallet_id payment_request tr =
        let r = fee_probe w probe caller wallet_id payment_request tr in (probe_payload r.0, r.1)
