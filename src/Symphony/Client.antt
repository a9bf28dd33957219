-- ===== src/Symphony/Client.antt =====
-- src/symphony/client.rs and error.rs: the requests, the answers and the errors of the handshake, and
-- the test that tells an outage from a decision. The gRPC call itself is a parameter of `App.World`.
use Prim.Native.String.{◌++◌ as append}
use blink_lightning_gateway.Base.{ℕ, Bool, true, false, Option, String}
use blink_lightning_gateway.Json.{Json}

pub data SymphonyAuthorizeStatus : Type 0 where
  approved declined : SymphonyAuthorizeStatus

pub data DeclineReason : Type 0 where
  insufficient_funds account_frozen amount_exceeds_limit : DeclineReason
  other : String → DeclineReason

pub data AccountKind : Type 0 where
  wallet_liability card_collateral : AccountKind

pub record AccountRef : Type 0 where
  pub kind : AccountKind
  pub id : String

pub record SymphonyAuthorizeRequest : Type 0 where
  pub correlation_id : String
  pub account : AccountRef
  pub sat_amount : ℕ
  pub idempotency_key : String
  pub gateway_metadata : Json

pub record SymphonyAuthorizeResponse : Type 0 where
  pub status : SymphonyAuthorizeStatus
  pub authorization_id : Option String
  pub decline_reason : Option DeclineReason

-- `tonic::Code`
pub data Code : Type 0 where
  ok_ cancelled unknown invalid_argument deadline_exceeded not_found already_exists : Code
  permission_denied resource_exhausted failed_precondition aborted out_of_range : Code
  unimplemented internal unavailable data_loss unauthenticated : Code

-- `tonic::Status`, as far as the code looks into it: the code and the text that it is displayed as.
pub record Status : Type 0 where
  pub code : Code
  pub text : String

pub data SymphonyError : Type 0 where
  transport : String → SymphonyError
  status : Status → SymphonyError
  declined : (reason : DeclineReason) → SymphonyError
  config : String → SymphonyError

-- The codes of the `matches!` in `is_authorize_unavailable`.
abbrev is_outage : Code → Bool
is_outage unavailable = true
is_outage unknown = true
is_outage deadline_exceeded = true
is_outage cancelled = true
is_outage unimplemented = true
is_outage _ = false

unfoldable pub is_authorize_unavailable : SymphonyError → Bool
is_authorize_unavailable (transport _) = true
is_authorize_unavailable (status s) = is_outage s.code
is_authorize_unavailable (SymphonyError.declined _) = false
is_authorize_unavailable (config _) = false

-- The `Display` of an error; how a reason is printed by `{:?}` is a parameter.
unfoldable pub symphony_error_text : (DeclineReason → String) → SymphonyError → String
symphony_error_text debug (transport t) = append "symphony gRPC transport error: " t
symphony_error_text debug (status s) = append "symphony gRPC status: " s.text
symphony_error_text debug (SymphonyError.declined r) = append "symphony declined: " (debug r)
symphony_error_text debug (config t) = append "symphony client config error: " t
