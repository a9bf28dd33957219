-- ===== src/Wallet/Safety.antt =====
-- When the ownership check lets a caller pass.
use text.Mathlib.Text.{◌==◌ as str_eq}
use text.Mathlib.TextEquality.{eq_iff}
use blink_lightning_gateway.Base.{
  ℕ, ◌-◌, ◌<◌, Bool, true, false, some, String, List, [], ◌∷◌, Result, ok, err, ◌≡◌, ◌⊎◌, inl, inr,
  refl, sym, ap, ◌∙◌, arith, All, Bool-cases, Option-cases, Result-cases,
}
use blink_lightning_gateway.Wallet.Ownership.{
  CallerAuth, WalletOwnershipError, WalletOwnershipConfig, Response, Entry, Mode, boot_stub,
  Checker, new_checker, contains, get, retain, store, cached, is_live, decide, check,
  fetch_owned_wallets, is_authenticated, unauthenticated,
}
use blink_lightning_gateway.Wallet.Cache.{All-insert, All-retain}

-- One check: the caller, the wallet, the instants of the request and of its answer, and the answer.
pub record Call : Type 0 where
  pub caller : CallerAuth
  pub target : String
  pub now : ℕ
  pub later : ℕ
  pub response : Response

module _ (is_header : String → Bool) where
  abbrev pub check_call : Checker → Call → Result {0, 0} WalletOwnershipError Unit × Checker
  check_call checker call =
      check is_header checker call.caller call.target call.now call.later call.response

  -- The checker after some checks, of which the latest stands first.
  abbrev pub run : Checker → List Call → Checker
  run checker [] = checker
  run checker (call ∷ calls) = (check_call (run checker calls) call).1

  -- The wallets of `e` are what the Router answered at one of these checks to this caller.
  abbrev pub IsAnswered : Mode → List Call → Entry → Type 0
  IsAnswered mode [] e = ⊥
  IsAnswered mode (call ∷ calls) e =
      (call.caller.sub ≡ e.sub)
        × (fetch_owned_wallets is_header mode call.caller call.response ≡ ok e.wallets)
        × (call.later ≡ e.at)
      ⊎ IsAnswered mode calls e

  All-weaken :
      (mode : Mode) (call : Call) (calls : List Call) (entries : List Entry)
      → All (IsAnswered mode calls) entries
      → All (IsAnswered mode (call ∷ calls)) entries
  All-weaken mode call calls [] h = tt
  All-weaken mode call calls (e ∷ entries) h = (inr h.0, All-weaken mode call calls entries h.1)

  store-All :
      (P : Entry → Type 0) (checker : Checker) (now : ℕ) (sub : String) (wallets : List String)
      → P (record { sub = sub; wallets = wallets; at = now })
      → All P checker.cache
      → All P (store checker now sub wallets).cache
  unfolding store
  store-All P checker now sub wallets p h = ground (
    arith,
    All-insert P (record { sub = sub; wallets = wallets; at = now }) checker.cache p h,
    All-insert P (record { sub = sub; wallets = wallets; at = now })
        (retain (is_live checker.ttl now) checker.cache) p
        (All-retain (is_live checker.ttl now) P checker.cache h),
  )

  store-fixed :
      (checker : Checker) (now : ℕ) (sub : String) (wallets : List String)
      → ((store checker now sub wallets).mode ≡ checker.mode)
        × ((store checker now sub wallets).ttl ≡ checker.ttl)
  unfolding store
  store-fixed checker now sub wallets = ground arith

  -- The four ways of a check.
  check-cases :
      (checker : Checker) (call : Call)
      → ((e : WalletOwnershipError) × (check_call checker call ≡ (err e, checker)))
        ⊎ ((wallets : List String) × (cached checker call.now call.caller.sub ≡ some wallets)
            × (check_call checker call ≡ (decide is_header wallets call.target, checker)))
        ⊎ ((owned : List String) × (fetch_owned_wallets is_header checker.mode call.caller
                call.response
              ≡ ok owned)
            × (check_call checker call ≡ (
              decide is_header owned call.target,
              store checker call.later call.caller.sub owned,
            )))
  unfolding check
  check-cases checker call = elim (Bool-cases (is_authenticated call.caller)) [
    | inr p ↦ inl (unauthenticated, rw (check, p) refl)
    | inl p ↦ elim (Option-cases (cached checker call.now call.caller.sub)) [
      | inr (wallets, q) ↦ inr (inl (wallets, q, rw (check, p, q) refl))
      | inl q ↦
          elim (Result-cases
            (fetch_owned_wallets is_header checker.mode call.caller call.response)) [
              | inr (e, r) ↦ inl (e, rw (check, p, q, r) refl)
              | inl (owned, r) ↦ inr (inr (owned, r, rw (check, p, q, r) refl))
            ]
    ]
  ]

  check-fixed :
      (checker : Checker) (call : Call)
      → ((check_call checker call).1.mode ≡ checker.mode)
        × ((check_call checker call).1.ttl ≡ checker.ttl)
  check-fixed checker call = elim (check-cases checker call) [
    | inl (e, q) ↦ rw q (refl, refl)
    | inr (inl (wallets, p, q)) ↦ rw q (refl, refl)
    | inr (inr (owned, p, q)) ↦ rw q (store-fixed checker call.later call.caller.sub owned)
  ]

  run-fixed :
      (checker : Checker) (calls : List Call)
      → ((run checker calls).mode ≡ checker.mode) × ((run checker calls).ttl ≡ checker.ttl)
  run-fixed checker [] = (refl, refl)
  run-fixed checker (call ∷ calls) =
      let (a, b) = check-fixed (run checker calls) call in
      let (c, d) = run-fixed checker calls in (a ∙ c, b ∙ d)

  -- Every entry of the cache is an answer of the Router.
  run-IsAnswered :
      (checker : Checker) (calls : List Call)
      → checker.cache ≡ []
      → All (IsAnswered checker.mode calls) (run checker calls).cache
  run-IsAnswered checker [] h = rw h tt
  run-IsAnswered checker (call ∷ calls) h =
      rest (check_call before call) refl
        (All-weaken checker.mode call calls before.cache (run-IsAnswered checker calls h))
    where
      before : Checker
      before = run checker calls

      rest :
          (r : Result {0, 0} WalletOwnershipError Unit × Checker)
          → check_call before call ≡ r
          → All (IsAnswered checker.mode (call ∷ calls)) before.cache
          → All (IsAnswered checker.mode (call ∷ calls)) r.1.cache
      rest r is held = elim (check-cases before call) [
        | inl (e, q) ↦ rw (sym is ∙ q) held
        | inr (inl (wallets, p, q)) ↦ rw (sym is ∙ q) held
        | inr (inr (owned, p, q)) ↦ rw (sym is ∙ q) (
            store-All (IsAnswered checker.mode (call ∷ calls)) before call.later call.caller.sub
              owned (inl (refl, rw (← (run-fixed checker calls).0) p, refl)) held)
      ]

cached-found :
    (P : Entry → Type 0) (ttl now : ℕ) (sub : String) (cache : List Entry) (mode : Mode)
    (wallets : List String)
    → All P cache
    → cached (record { mode = mode; ttl = ttl; cache = cache }) now sub ≡ some wallets
    → (e : Entry) × P e × (e.sub ≡ sub) × (e.wallets ≡ wallets) × (now - e.at < ttl)
unfolding cached get
cached-found P ttl now sub [] mode wallets a h = ground arith
cached-found P ttl now sub (e ∷ cache) mode wallets a h = elim (Bool-cases (str_eq e.sub sub)) [
  | inl p ↦ (e, a.0, (eq_iff e.sub sub).0 p, ground (arith, p, h), ground (arith, p, h))
  | inr p ↦ cached-found P ttl now sub cache mode wallets a.1 (ground (arith, p, h))
]

decide-passes :
    (is_header : String → Bool) (wallets : List String) (target : String)
    → decide is_header wallets target ≡ ok tt
    → contains wallets target ≡ true
decide-passes is_header wallets target h = ground arith

-- Nobody passes the check without an answer of the Router: after any checks that started with an empty
-- cache, a check passes only if at this check, or at one of the earlier ones with an answer that is
-- younger than the time to live, the Router answered the same caller with wallets that contain the one
-- asked for.
pub check_sound :
    (is_header : String → Bool) (checker : Checker) (calls : List Call) (call : Call)
    → checker.cache ≡ []
    → (check_call is_header (run is_header checker calls) call).0 ≡ ok tt
    → (e : Entry) × IsAnswered is_header checker.mode (call ∷ calls) e
      × (e.sub ≡ call.caller.sub)
      × (contains e.wallets call.target ≡ true)
      × ((e.at ≡ call.later) ⊎ (call.now - e.at < checker.ttl))
check_sound is_header checker calls call empty passed =
    let before = run is_header checker calls in
    let held = run-IsAnswered is_header checker calls empty in
    elim (check-cases is_header before call) [
      | inl (e, q) ↦ absurd (refused e _ (ap (λ r. r.0) q) passed)
      | inr (inl (wallets, p, q)) ↦
          let (e, a, same, is, young) =
            cached-found (IsAnswered is_header checker.mode calls) before.ttl call.now
              call.caller.sub before.cache before.mode wallets held p in
          (
            e,
            inr a,
            same,
            rw is (decide-passes is_header wallets call.target (ap (λ r. r.0) (sym q) ∙ passed)),
            inr (omega (arith, young, (run-fixed is_header checker calls).1)),
          )
      | inr (inr (owned, p, q)) ↦ (
        record { sub = call.caller.sub; wallets = owned; at = call.later },
        inl (refl, rw (← (run-fixed is_header checker calls).0) p, refl),
        refl,
        decide-passes is_header owned call.target (ap (λ r. r.0) (sym q) ∙ passed),
        inl refl,
      )
    ]
  where
    refused :
        (e : WalletOwnershipError) (r : Result {0, 0} WalletOwnershipError Unit)
        → r ≡ err e
        → ¬ (r ≡ ok tt)
    refused e r p q = ground arith

stub_answers_none :
    (is_header : String → Bool) (mode : Mode) (calls : List Call) (e : Entry)
    → mode ≡ boot_stub
    → ¬ IsAnswered is_header mode calls e
unfolding fetch_owned_wallets
stub_answers_none is_header mode [] e stub h = h
stub_answers_none is_header mode (call ∷ calls) e stub (inl (a, b, c)) = ground arith
stub_answers_none is_header mode (call ∷ calls) e stub (inr h) =
    stub_answers_none is_header mode calls e stub h

new_checker-empty :
    (trim : String → String) (client : Result {0, 0} String Unit) (config : WalletOwnershipConfig)
    → (new_checker trim client config).cache ≡ []
unfolding new_checker
new_checker-empty trim client config = ground arith

new_checker-stub :
    (trim : String → String) (client : Result {0, 0} String Unit) (config : WalletOwnershipConfig)
    → (trim config.router_endpoint ≡ "") ⊎ ((e : String) × (client ≡ err e))
    → (new_checker trim client config).mode ≡ boot_stub
unfolding new_checker
new_checker-stub trim client config (inl h) =
    rw (new_checker, (eq_iff (trim config.router_endpoint) "").1 h) refl
new_checker-stub trim client config (inr (e, h)) = ground arith

-- A caller without a token or without a subject is not authenticated.
nameless :
    (caller : CallerAuth) → (caller.jwt ≡ "") ⊎ (caller.sub ≡ "") → is_authenticated caller ≡ false
unfolding is_authenticated
nameless caller (inl h) = rw h refl
nameless caller (inr h) = ground (arith, (eq_iff caller.sub "").1 h)

-- A checker with no endpoint, or with no HTTP client, lets nobody pass, whatever was asked before; and
-- nobody passes whose token or whose subject is empty.
pub check-closed :
    (is_header : String → Bool) (trim : String → String) (client : Result {0, 0} String Unit)
    (config : WalletOwnershipConfig) (calls : List Call) (call : Call)
    → ((trim config.router_endpoint ≡ "") ⊎ ((e : String) × (client ≡ err e)))
      ⊎ ((call.caller.jwt ≡ "") ⊎ (call.caller.sub ≡ ""))
    → (e : WalletOwnershipError) × ((check_call is_header
          (run is_header (new_checker trim client config) calls)
          call).0
        ≡ err e)
unfolding check
check-closed is_header trim client config calls call h =
    go (Result-cases (check_call is_header before call).0) h
  where
    checker : Checker
    checker = new_checker trim client config

    before : Checker
    before = run is_header checker calls

    go :
        ((a : Unit) × ((check_call is_header before call).0 ≡ ok a))
          ⊎ ((e : WalletOwnershipError) × ((check_call is_header before call).0 ≡ err e))
        → ((trim config.router_endpoint ≡ "") ⊎ ((e : String) × (client ≡ err e)))
          ⊎ ((call.caller.jwt ≡ "") ⊎ (call.caller.sub ≡ ""))
        → (e : WalletOwnershipError) × ((check_call is_header before call).0 ≡ err e)
    go (inr x) h = x
    go (inl (a, p)) (inr h) = (unauthenticated, rw (check, nameless call.caller h) refl)
    go (inl (a, p)) (inl h) =
        let (e, answered, same, within, young) =
          check_sound is_header checker calls call (new_checker-empty trim client config) p in
        absurd (
          stub_answers_none is_header checker.mode (call ∷ calls) e
            (new_checker-stub trim client config h) answered)
