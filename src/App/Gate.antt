-- ===== src/App/Gate.antt =====
-- What has to come before LND is asked to send: the persisted intent, and the hold that covers it.
use blink_lightning_gateway.Invoice.Entity.{Invoice}
use blink_lightning_gateway.Payment.Entity.{Payment}
use blink_lightning_gateway.App.Announced.{creates, announces, Write, open_writes}
use blink_lightning_gateway.App.Send.{hold_sat}
use blink_lightning_gateway.Base.{ok, ◌≡◌}
use blink_lightning_gateway.Lnd.Types.{SendPaymentParams}
use blink_lightning_gateway.Outbox.Event.{lightning_payment_initiated}
use blink_lightning_gateway.Primitives.Hex.{hash_to_hex}
use blink_lightning_gateway.Symphony.Client.{SymphonyAuthorizeRequest}
use blink_lightning_gateway.Base.{List, [], ◌∷◌}
use blink_lightning_gateway.Symphony.Client.{approved}
use blink_lightning_gateway.App.World.{Crates, World, Trace, committed, send_asked, hold_asked}

module _ {c : Crates} where
  -- The transaction that persisted the intent, and the hold and the send that belong to it.
  abbrev pub IsCovered : SendPaymentParams → SymphonyAuthorizeRequest → List (Write c) → Type 0
  IsCovered params hold (announces e ∷ (creates n ∷ [])) =
      (e.domain_event ≡ lightning_payment_initiated)
      × (params.bolt_invoice ≡ n.bolt_invoice)
      × (params.max_fee_msat ≡ n.max_fee_msat)
      × (hold.sat_amount ≡ hold_sat n.amount_msat n.max_fee_msat)
      × (hold.idempotency_key ≡ hash_to_hex c.hex n.payment_hash)
      × (hold.account.id ≡ n.wallet_id)
  IsCovered params hold _ = ⊥

  abbrev pub IsPersisted : SendPaymentParams → SymphonyAuthorizeRequest → Trace c → Type 0
  IsPersisted params hold (committed ∷ tr) = IsCovered params hold (open_writes tr)
  IsPersisted params hold _ = ⊥

  abbrev pub IsAuthorized : SendPaymentParams → Trace c → Type 0
  IsAuthorized params (hold_asked hold (ok resp) ∷ tr) =
      (resp.status ≡ approved) × IsPersisted params hold tr
  IsAuthorized params _ = ⊥

  -- Just before every send, Symphony approved a hold for the worst case of the payment, and just
  -- before that the payment was created and announced in a committed transaction.
  abbrev pub IsGated : Trace c → Type 0
  IsGated [] = Unit
  IsGated (send_asked params answer ∷ tr) = IsAuthorized params tr × IsGated tr
  IsGated (_ ∷ tr) = IsGated tr
