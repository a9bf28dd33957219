-- ===== src/Server/Jwks.antt =====
-- src/server/jwks.rs and src/server/graphql.rs: the keys of the token issuer, the validation of a token,
-- and the caller that a request is given. Reading a token's header, verifying a token with a key,
-- building a key and asking for the keys are parameters; the sleeps are dropped.
use text.Mathlib.Text.{◌==◌ as str_eq}
use blink_lightning_gateway.Base.{
  ℕ, zero, suc, Bool, false, Option, none, some, String, List, [], ◌∷◌, Result, ok, err,
  if◌then◌else◌,
}
use blink_lightning_gateway.Wallet.Ownership.{CallerAuth}

pub data JwksError : Type 0 where
  jwt fetch_failed : String → JwksError
  no_key_available : JwksError

pub record Jwk : Type 0 where
  pub kid : Option String
  pub n : String
  pub e : String

-- `FETCH_RETRY_COUNT`
abbrev pub fetch_retry_count : ℕ
fetch_retry_count = 10

abbrev exhausted : Option String → String
exhausted none = "jwks fetch retries exhausted"
exhausted (some e) = e

abbrev pub same_kid : Option String → String → Bool
same_kid none target = false
same_kid (some kid) target = str_eq kid target

module _ {Key : Type 0} where
  module _ (from_rsa_components : String → String → Option Key) where
    -- The keys that can be built.
    unfoldable pub usable_keys : List Jwk → List (Option String × Key)
    usable_keys [] = []
    usable_keys (jwk ∷ jwks) = elim (from_rsa_components jwk.n jwk.e) [
      | none ↦ usable_keys jwks
      | some key ↦ (jwk.kid, key) ∷ usable_keys jwks
    ]

    -- The loop of `fetch_jwks`, with the number of attempts that are left. An attempt is not answered,
    -- or it is answered with a body that is read or not.
    unfoldable pub fetch_attempts :
        (ℕ → Result String (Result String (List Jwk)))
        → ℕ
        → Option String
        → Result JwksError (List (Option String × Key))
    fetch_attempts send zero last_error = err (fetch_failed (exhausted last_error))
    fetch_attempts send (suc left) last_error = elim (send left) [
      | err e ↦ fetch_attempts send left (some e)
      | ok (err e) ↦ err (fetch_failed e)
      | ok (ok jwks) ↦ ok (usable_keys jwks)
    ]

    unfoldable pub fetch_jwks :
        (ℕ → Result String (Result String (List Jwk)))
        → Result JwksError (List (Option String × Key))
    fetch_jwks send = fetch_attempts send fetch_retry_count none

    -- `refresh_keys`: the keys in the cache after it.
    unfoldable pub refresh_keys :
        (ℕ → Result String (Result String (List Jwk)))
        → List (Option String × Key)
        → List (Option String × Key)
    refresh_keys send keys = elim (fetch_jwks send) [ ok fetched ↦ fetched | err e ↦ keys ]

  unfoldable pub key_with : String → List (Option String × Key) → Option Key
  key_with target [] = none
  key_with target ((kid, key) ∷ keys) =
      if same_kid kid target then some key else key_with target keys

  module _ (decode_header : String → Result String (Option String))
      (verify : String → Key → Result String String) where
    abbrev pub verified : String → Key → Result JwksError String
    verified token key = elim (verify token key) [ ok sub ↦ ok sub | err e ↦ err (jwt e) ]

    -- The loop over all keys.
    unfoldable pub try_keys :
        String → List (Option String × Key) → JwksError → Result JwksError String
    try_keys token [] last_err = err last_err
    try_keys token ((kid, key) ∷ keys) last_err = elim (verify token key) [
      | ok sub ↦ ok sub
      | err e ↦ try_keys token keys (jwt e)
    ]

    abbrev pub target_key : Option String → List (Option String × Key) → Option Key
    target_key none keys = none
    target_key (some kid) keys = key_with kid keys

    -- `decode`: the subject of a valid token.
    unfoldable pub decode : List (Option String × Key) → String → Result JwksError String
    decode keys token = elim (decode_header token) [
      | err e ↦ err (jwt e)
      | ok kid ↦ elim (target_key kid keys) [
        | some key ↦ verified token key
        | none ↦ try_keys token keys no_key_available
      ]
    ]

    -- `graphql_handler` and `caller_auth`: the caller of a request with this bearer token. Without a valid
    -- one it is the default caller.
    unfoldable pub caller_of : List (Option String × Key) → Option String → CallerAuth
    caller_of keys none = record { jwt = ""; sub = "" }
    caller_of keys (some token) = elim (decode keys token) [
      | ok sub ↦ record { jwt = token; sub = sub }
      | err e ↦ record { jwt = ""; sub = "" }
    ]
