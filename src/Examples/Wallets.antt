-- ===== src/Examples/Wallets.antt =====
-- The theorems on the ownership check at one caller with one wallet.
use blink_lightning_gateway.Base.{
  Option, Result, String, List, ◌≡◌, ◌≤◌, ◌<◌, ◌-◌, ◌⊎◌, inl, suc, refl, true, none, some, ltb,
  length, if◌then◌else◌, [], ◌∷◌, ok, err, arith,
}
use blink_lightning_gateway.Wallet.Ownership.{
  insert, WalletOwnershipConfig, WalletOwnershipError, Checker, Entry, real, Response, envelope,
  new_checker, contains, check, cached, get, store, retain, is_live, is_authenticated,
  fetch_owned_wallets, read_envelope, wallets_of, cache_prune_threshold,
}
use blink_lightning_gateway.Server.Jwks.{caller_of, decode, try_keys}
use blink_lightning_gateway.Server.Auth.{IsVerified, check-IsVerified}
use blink_lightning_gateway.Wallet.Cache.{store-cached}
use blink_lightning_gateway.Wallet.Safety.{
  Call, IsAnswered, check_call, run, check_sound, check-closed,
}

abbrev checker : Checker
checker = record { mode = real "http://router"; ttl = 60; cache = [] }

abbrev answer : Response
answer =
    envelope (record { data_me_default_account = some (some (some ("w1" ∷ []))); errors = none })

-- The first check asks the Router; the second is answered by the cache.
abbrev first : Call
first = record {
  caller = record { jwt = "j"; sub = "alice" };
  target = "w2";
  now = 5;
  later = 6;
  response = answer;
}

abbrev second : Call
second = record {
  caller = record { jwt = "j"; sub = "alice" };
  target = "w1";
  now = 20;
  later = 21;
  response = Response.no_answer "timeout";
}

second_passes : (check_call (λ s. true) (run (λ s. true) checker (first ∷ [])) second).0 ≡ ok tt
unfolding check is_authenticated cached get fetch_owned_wallets read_envelope wallets_of store
    cache_prune_threshold insert retain
second_passes = refl

check_sound_example :
    (e : Entry) × IsAnswered (λ s. true) (real "http://router") (second ∷ first ∷ []) e
    × (e.sub ≡ "alice")
    × (contains e.wallets "w1" ≡ true)
    × ((e.at ≡ 21) ⊎ (20 - e.at < 60))
check_sound_example = check_sound (λ s. true) checker (first ∷ []) second refl second_passes

abbrev no_endpoint : WalletOwnershipConfig
no_endpoint = record { router_endpoint = ""; cache_secs = 60 }

check-closed_example :
    (e : WalletOwnershipError) × ((check_call
        (λ s. true)
        (run (λ s. true) (new_checker (λ s. s) (ok tt) no_endpoint) (first ∷ []))
        second).0
      ≡ err e)
check-closed_example =
    check-closed (λ s. true) (λ s. s) (ok tt) no_endpoint (first ∷ []) second (inl (inl refl))

store-cached_example :
    (cached (store checker 6 "alice" ("w1" ∷ [])) 20 "bob" ≡ cached checker 20 "bob")
    × (cached (store checker 6 "alice" ("w1" ∷ [])) 20 "alice"
        ≡ (if ltb 14 60 then some ("w1" ∷ []) else none))
    × ((length (store checker 6 "alice" ("w1" ∷ [])).cache ≤ cache_prune_threshold)
        ⊎ (length (store checker 6 "alice" ("w1" ∷ [])).cache
            ≤ suc (length (retain (is_live 60 6) []))))
store-cached_example = store-cached checker 6 20 "alice" "bob" ("w1" ∷ []) tt (omega arith) refl

abbrev issuer_keys : List (Option String × String)
issuer_keys = (some "k1", "key 1") ∷ []

abbrev read_header : String → Result String (Option String)
read_header token = ok none

abbrev verify_alice : String → String → Result String String
verify_alice token key = ok "alice"

abbrev from_bearer : Call
from_bearer = record {
  caller = record { jwt = "j"; sub = "alice" };
  target = "w1";
  now = 5;
  later = 6;
  response = answer;
}

is_caller_of : from_bearer.caller ≡ caller_of read_header verify_alice issuer_keys (some "j")
unfolding caller_of decode try_keys
is_caller_of = refl

from_bearer_passes : (check_call (λ s. true) checker from_bearer).0 ≡ ok tt
unfolding check is_authenticated cached get fetch_owned_wallets read_envelope wallets_of store
    cache_prune_threshold insert retain
from_bearer_passes = refl

check-IsVerified_example :
    (token : String) × (some "j" ≡ some token)
    × IsVerified read_header verify_alice token "alice" issuer_keys
check-IsVerified_example =
    check-IsVerified read_header verify_alice (λ s. true) checker from_bearer issuer_keys (some "j")
      is_caller_of from_bearer_passes
