-- ===== src/Wallet/Ownership.antt =====
-- src/wallet/ownership.rs: the check that a caller owns a wallet. The clock and the answer of the
-- Router are arguments of each check, and so are trimming a text, building the HTTP client, and
-- whether a token can stand in a header. An instant is a number, at the unit of the time to live.
use text.Mathlib.Text.{◌==◌ as str_eq}
use blink_lightning_gateway.Base.{
  ℕ, ◌-◌, Bool, true, false, not, ◌&&◌, Option, none, some, String, List, [], ◌∷◌, Result, ok, err,
  any, length, ltb, leb, if◌then◌else◌, ok_or,
}

pub record CallerAuth : Type 0 where
  pub jwt : String
  pub sub : String

unfoldable pub is_authenticated : CallerAuth → Bool
is_authenticated caller = not (str_eq caller.jwt "") && not (str_eq caller.sub "")

pub data WalletOwnershipError : Type 0 where
  not_owned : String → WalletOwnershipError
  unauthenticated : WalletOwnershipError
  unreachable query_error : String → WalletOwnershipError

pub record WalletOwnershipConfig : Type 0 where
  pub router_endpoint : String
  pub cache_secs : ℕ

unfoldable pub cache_prune_threshold : ℕ
cache_prune_threshold = 10000

-- The answer of the Router, as it is decoded: `MeData`, `Me` and `DefaultAccount` are options, and a
-- wallet is its id.
pub record Envelope : Type 0 where
  pub data_me_default_account : Option (Option (Option (List String)))
  pub errors : Option (List String)

-- The answer to the request: no answer, a status that is no success, a body that is not read, or an
-- envelope.
pub data Response : Type 0 where
  no_answer bad_status undecodable : String → Response
  envelope : Envelope → Response

-- An entry of the cache: the caller, its wallets, and when they were stored.
pub record Entry : Type 0 where
  pub sub : String
  pub wallets : List String
  pub at : ℕ

pub data Mode : Type 0 where
  real : String → Mode
  boot_stub : Mode

pub record Checker : Type 0 where
  pub mode : Mode
  pub ttl : ℕ
  pub cache : List Entry

-- `new`
unfoldable pub new_checker :
    (String → String) → Result {0, 0} String Unit → WalletOwnershipConfig → Checker
new_checker trim client config =
    if str_eq (trim config.router_endpoint) ""
    then record { mode = boot_stub; ttl = config.cache_secs; cache = [] }
    else elim client [
      | err e ↦ record { mode = boot_stub; ttl = config.cache_secs; cache = [] }
      | ok _ ↦ record { mode = real config.router_endpoint; ttl = config.cache_secs; cache = [] }
    ]

abbrev pub contains : List String → String → Bool
contains wallets target = any (λ w. str_eq w target) wallets

-- `at.elapsed() < self.ttl`
abbrev pub is_live : ℕ → ℕ → Entry → Bool
is_live ttl now e = ltb (now - e.at) ttl

unfoldable pub get : String → List Entry → Option Entry
get sub [] = none
get sub (e ∷ entries) = if str_eq e.sub sub then some e else get sub entries

unfoldable pub cached : Checker → ℕ → String → Option (List String)
cached checker now sub = elim (get sub checker.cache) [
  | none ↦ none
  | some e ↦ if is_live checker.ttl now e then some e.wallets else none
]

unfoldable pub retain : (Entry → Bool) → List Entry → List Entry
retain keep [] = []
retain keep (e ∷ entries) = if keep e then e ∷ retain keep entries else retain keep entries

-- `HashMap::insert`, in the place of an entry with the same key
unfoldable pub insert : Entry → List Entry → List Entry
insert new [] = new ∷ []
insert new (e ∷ entries) = if str_eq e.sub new.sub then new ∷ entries else e ∷ insert new entries

unfoldable pub store : Checker → ℕ → String → List String → Checker
store checker now sub wallets =
    let new : Entry = record { sub = sub; wallets = wallets; at = now } in
    let pruned = retain (is_live checker.ttl now) checker.cache in
    if leb cache_prune_threshold (length checker.cache)
    then record checker { cache = insert new pruned }
    else record checker { cache = insert new checker.cache }

unfoldable pub wallets_of : Option (Option (Option (List String))) → Option (List String)
wallets_of (some (some account)) = account
wallets_of (some none) = none
wallets_of none = none

-- What is read of the envelope: the first error, or the wallets.
unfoldable pub read_envelope : Envelope → Result WalletOwnershipError (List String)
unfolding wallets_of
read_envelope e = elim e.errors [
  | some (message ∷ _) ↦ err (query_error message)
  | some [] ↦ ok_or (wallets_of e.data_me_default_account) (query_error "me.defaultAccount missing")
  | none ↦ ok_or (wallets_of e.data_me_default_account) (query_error "me.defaultAccount missing")
]

module _ (is_header : String → Bool) where
  unfoldable pub fetch_owned_wallets :
      Mode → CallerAuth → Response → Result WalletOwnershipError (List String)
  fetch_owned_wallets mode caller response = elim mode [
    | boot_stub ↦ err (unreachable "wallet-ownership checker not configured (boot stub)")
    | real endpoint ↦ elim (is_header caller.jwt) [
      | false ↦ err (query_error "invalid bearer token")
      | true ↦ elim response [
        | no_answer e ↦ err (unreachable e)
        | bad_status e ↦ err (query_error e)
        | undecodable e ↦ err (query_error e)
        | envelope e ↦ read_envelope e
      ]
    ]
  ]

  abbrev pub decide : List String → String → Result {0, 0} WalletOwnershipError Unit
  decide wallets target = if contains wallets target then ok tt else err (not_owned target)

  -- `check`: its result, and the checker after it. The request is sent at
  -- `now`, and the answer is stored at `later`.
  unfoldable pub check :
      Checker
      → CallerAuth
      → String
      → (now later : ℕ) → Response
      → Result {0, 0} WalletOwnershipError Unit × Checker
  check checker caller target now later response = elim (is_authenticated caller) [
    | false ↦ (err unauthenticated, checker)
    | true ↦ elim (cached checker now caller.sub) [
      | some wallets ↦ (decide wallets target, checker)
      | none ↦ elim (fetch_owned_wallets checker.mode caller response) [
        | err e ↦ (err e, checker)
        | ok owned ↦ (decide owned target, store checker later caller.sub owned)
      ]
    ]
  ]
