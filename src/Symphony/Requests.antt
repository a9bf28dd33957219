-- ===== src/Symphony/Requests.antt =====
-- src/symphony/client.rs: what the client sends to Symphony and reads of its answers. The remote call,
-- the decoding of an enum's number and the printing of JSON are parameters.
use text.Mathlib.Text.{◌==◌ as str_eq}
use blink_lightning_gateway.Base.{Bool, Option, none, some, String, Result, ok, err, if◌then◌else◌}
use blink_lightning_gateway.Primitives.Amount.{ℤ, as_i64}
use blink_lightning_gateway.Json.{Json}
use blink_lightning_gateway.Symphony.Client.{
  approved, declined, DeclineReason, insufficient_funds, account_frozen, amount_exceeds_limit,
  other, AccountKind, SymphonyAuthorizeRequest, SymphonyAuthorizeResponse, unavailable, Status,
  SymphonyError, status, config,
}

pub data SpendDeclineReason : Type 0 where
  unspecified insufficient_balance frozen exceeds_limit account_not_found internal_error :
      SpendDeclineReason

-- `proto::SpendAuthorizeRequest`, with its account in two fields.
pub record SpendAuthorizeRequest : Type 0 where
  pub correlation_id : String
  pub account_kind : AccountKind
  pub account_id : String
  pub sat_amount : ℤ
  pub idempotency_key : String
  pub gateway_metadata : String

-- `proto::SpendAuthorizeResponse`
pub record SpendAuthorizeResponse : Type 0 where
  pub authorized : Bool
  pub authorization_id : String
  pub decline_reason : ℤ
  pub decline_message : String

pub record SpendService : Type 0 where
  pub authorize_spend : SpendAuthorizeRequest → Result Status SpendAuthorizeResponse
  pub void_spend_authorization :
      (correlation_id authorization_id : String) → Result {0, 0} Status Unit

pub data ClientMode : Type 0 where
  real : SpendService → ClientMode
  boot_stub : ClientMode

unfoldable pub client_of : ClientMode → Result SymphonyError SpendService
client_of (real c) = ok c
client_of boot_stub = err (
    status (record {
      code = unavailable;
      text = "symphony spend-authorization client not configured (boot stub); failing closed";
    }))

-- `connect_lazy`, over the parsing of the endpoint.
unfoldable pub connect_lazy : Result String SpendService → Result SymphonyError ClientMode
connect_lazy (ok channel) = ok (real channel)
connect_lazy (err e) = err (config e)

abbrev detail : String → String → String
detail message fallback = if str_eq message "" then fallback else message

abbrev decline_of : SpendDeclineReason → String → DeclineReason
decline_of insufficient_balance message = insufficient_funds
decline_of frozen message = account_frozen
decline_of exceeds_limit message = amount_exceeds_limit
decline_of account_not_found message = other (detail message "account not found")
decline_of internal_error message = other (detail message "symphony internal error")
decline_of unspecified message = other (detail message "unspecified decline")

abbrev unless_empty : String → Option String
unless_empty s = if str_eq s "" then none else some s

abbrev text_or_empty_object : Option String → String
text_or_empty_object none = "{}"
text_or_empty_object (some s) = s

module _ (decode : ℤ → Option SpendDeclineReason) (to_string : Json → Option String) where
  unfoldable pub map_decline_reason : ℤ → String → DeclineReason
  map_decline_reason code message = elim (decode code) [
    | none ↦ decline_of unspecified message
    | some r ↦ decline_of r message
  ]

  unfoldable pub spend_request : SymphonyAuthorizeRequest → SpendAuthorizeRequest
  spend_request request = record {
    correlation_id = request.correlation_id;
    account_kind = request.account.kind;
    account_id = request.account.id;
    sat_amount = as_i64 request.sat_amount;
    idempotency_key = request.idempotency_key;
    gateway_metadata = text_or_empty_object (to_string request.gateway_metadata);
  }

  unfoldable pub read_response : SpendAuthorizeResponse → SymphonyAuthorizeResponse
  read_response resp =
      if resp.authorized
      then record {
        status = approved;
        authorization_id = unless_empty resp.authorization_id;
        decline_reason = none;
      }
      else record {
        status = declined;
        authorization_id = unless_empty resp.authorization_id;
        decline_reason = some (map_decline_reason resp.decline_reason resp.decline_message);
      }

  unfoldable pub authorize_spend :
      ClientMode → SymphonyAuthorizeRequest → Result SymphonyError SymphonyAuthorizeResponse
  authorize_spend mode request = elim (client_of mode) [
    | err e ↦ err e
    | ok client ↦ elim (client.authorize_spend (spend_request request)) [
      | err s ↦ err (status s)
      | ok resp ↦ ok (read_response resp)
    ]
  ]

  unfoldable pub void_spend_authorization :
      ClientMode → String → String → Result {0, 0} SymphonyError Unit
  void_spend_authorization mode correlation_id authorization_id = elim (client_of mode) [
    | err e ↦ err e
    | ok client ↦ elim (client.void_spend_authorization correlation_id authorization_id) [
      | err s ↦ err (status s)
      | ok u ↦ ok u
    ]
  ]
