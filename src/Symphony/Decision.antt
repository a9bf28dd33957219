-- ===== src/Symphony/Decision.antt =====
-- When Symphony's answer lets a payment go on.
use blink_lightning_gateway.Base.{true, Option, String, err, ◌≡◌, refl}
use blink_lightning_gateway.Primitives.Amount.{ℤ}
use blink_lightning_gateway.Json.{Json}
use blink_lightning_gateway.Symphony.Client.{
  SymphonyAuthorizeRequest, SymphonyError, is_authorize_unavailable,
}
use blink_lightning_gateway.Symphony.Requests.{
  SpendDeclineReason, boot_stub, client_of, authorize_spend,
}

module _ (decode : ℤ → Option SpendDeclineReason) (to_string : Json → Option String) where
  -- Without a configured Symphony every request fails, and fails as an outage, which the use cases
  -- decline without a payment.
  pub boot_stub_unavailable :
      (request : SymphonyAuthorizeRequest)
      → (e : SymphonyError) × (authorize_spend decode to_string boot_stub request ≡ err e)
        × (is_authorize_unavailable e ≡ true)
  unfolding authorize_spend client_of is_authorize_unavailable
  boot_stub_unavailable request = (_, refl, refl)
