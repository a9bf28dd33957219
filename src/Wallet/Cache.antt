-- ===== src/Wallet/Cache.antt =====
-- What the cache of the ownership check finds after it stores and prunes.
use blink_lightning_gateway.Base.{
  ltb, leb, suc, ◌-◌, ◌⊎◌, ℕ, ◌≤◌, Bool, true, false, none, some, String, List, [], ◌∷◌, ◌≡◌, refl,
  sym, ap, ◌∙◌, arith, All, length, if◌then◌else◌, Bool-cases, inl, inr,
}
use blink_lightning_gateway.Wallet.Ownership.{
  cache_prune_threshold, cached, Checker, is_live, store, Entry, get, retain, insert,
}
use text.Mathlib.Text.{◌==◌ as str_eq}
use text.Mathlib.TextEquality.{eq_iff}

-- One entry for each caller.
abbrev pub IsCache : List Entry → Type 0
IsCache [] = Unit
IsCache (e ∷ entries) = All (λ f. str_eq f.sub e.sub ≡ false) entries × IsCache entries

pub str_eq_refl : (a : String) → str_eq a a ≡ true
str_eq_refl a = (eq_iff a a).1 refl

-- Texts that are the same compare alike.
str_eq_trans : (a b c : String) → str_eq a b ≡ true → str_eq b c ≡ str_eq a c
str_eq_trans a b c h = ap (λ x. str_eq x c) (sym ((eq_iff a b).0 h))

str_eq_sym : (a b : String) → str_eq a b ≡ true → str_eq b a ≡ true
str_eq_sym a b h = str_eq_trans a b a h ∙ str_eq_refl a

pub get-insert_same :
    (new : Entry) (entries : List Entry) → get new.sub (insert new entries) ≡ some new
unfolding get insert
get-insert_same new [] = ground (arith, str_eq_refl new.sub)
get-insert_same new (e ∷ entries) = ground (arith, str_eq_refl new.sub, get-insert_same new entries)

get-insert_other :
    (new : Entry) (sub : String) (entries : List Entry)
    → str_eq new.sub sub ≡ false
    → get sub (insert new entries) ≡ get sub entries
unfolding get insert
get-insert_other new sub [] h = ground arith
get-insert_other new sub (e ∷ entries) h =
    ground (arith, str_eq_trans e.sub new.sub sub, get-insert_other new sub entries h)

get-absent :
    (e : Entry) (sub : String) (entries : List Entry)
    → str_eq e.sub sub ≡ true
    → All (λ f. str_eq f.sub e.sub ≡ false) entries
    → get sub entries ≡ none
unfolding get
get-absent e sub [] h a = refl
get-absent e sub (f ∷ entries) h a = elim (Bool-cases (str_eq f.sub sub)) [
  | inl p ↦ absurd (bad (str_eq_trans f.sub sub e.sub p ∙ sym refl))
  | inr p ↦ rw p (get-absent e sub entries h a.1)
]
  where
    bad : ¬ (str_eq sub e.sub ≡ str_eq f.sub e.sub)
    bad q = ground (arith, str_eq_sym e.sub sub h, a.0)

module _ (keep : Entry → Bool) where
  pub All-retain :
      (P : Entry → Type 0) (entries : List Entry) → All P entries → All P (retain keep entries)
  unfolding retain
  All-retain P [] h = tt
  All-retain P (e ∷ entries) h = ground (arith, All-retain P entries h.1)

  retain-IsCache : (entries : List Entry) → IsCache entries → IsCache (retain keep entries)
  unfolding retain
  retain-IsCache [] h = tt
  retain-IsCache (e ∷ entries) h =
      ground (
        arith,
        retain-IsCache entries h.1,
        All-retain (λ f. str_eq f.sub e.sub ≡ false) entries h.0,
      )

  length-retain : (entries : List Entry) → length (retain keep entries) ≤ length entries
  unfolding retain
  length-retain [] = omega arith
  length-retain (e ∷ entries) = ground (arith, length-retain entries)

  -- An entry is found after the pruning if it is kept, and nothing in its place if it is not.
  get-retain :
      (sub : String) (entries : List Entry)
      → IsCache entries
      → get sub (retain keep entries)
        ≡ elim (get sub entries) [ none ↦ none | some e ↦ if keep e then some e else none ]
  unfolding get retain
  get-retain sub [] h = refl
  get-retain sub (e ∷ entries) h = elim (Bool-cases (str_eq e.sub sub)) [
    | inl p ↦ elim (Bool-cases (keep e)) [
      | inl k ↦ rw (retain, p, k) (rw p refl)
      | inr k ↦
          rw (retain, p, k)
            (get-absent e sub (retain keep entries) p
              (All-retain (λ f. str_eq f.sub e.sub ≡ false) entries h.0))
    ]
    | inr p ↦ elim (Bool-cases (keep e)) [
      | inl k ↦ rw (retain, p, k) (rw p (get-retain sub entries h.1))
      | inr k ↦ rw (retain, p, k) (get-retain sub entries h.1)
    ]
  ]

pub All-insert :
    (P : Entry → Type 0) (new : Entry) (entries : List Entry)
    → P new
    → All P entries
    → All P (insert new entries)
unfolding insert
All-insert P new [] p h = (p, tt)
All-insert P new (e ∷ entries) p h = ground (arith, All-insert P new entries p h.1)

insert-IsCache :
    (new : Entry) (entries : List Entry) → IsCache entries → IsCache (insert new entries)
unfolding insert
insert-IsCache new [] h = (tt, tt)
insert-IsCache new (e ∷ entries) h = elim (Bool-cases (str_eq e.sub new.sub)) [
  | inl p ↦ rw (insert, p) (rw (← ((eq_iff e.sub new.sub).0 p)) h.0, h.1)
  | inr p ↦
      rw (insert, p)
        (
          All-insert (λ f. str_eq f.sub e.sub ≡ false) new entries (apart p) h.0,
          insert-IsCache new entries h.1,
        )
]
  where
    apart : str_eq e.sub new.sub ≡ false → str_eq new.sub e.sub ≡ false
    apart p = elim (Bool-cases (str_eq new.sub e.sub)) [
      | inl q ↦ ground (arith, p, str_eq_sym new.sub e.sub q)
      | inr q ↦ q
    ]

-- Storing keeps one entry for each caller.
pub store-IsCache :
    (checker : Checker) (now : ℕ) (sub : String) (wallets : List String)
    → IsCache checker.cache
    → IsCache (store checker now sub wallets).cache
unfolding store
store-IsCache checker now sub wallets h = ground (
  arith,
  insert-IsCache (record { sub = sub; wallets = wallets; at = now }) checker.cache h,
  insert-IsCache (record { sub = sub; wallets = wallets; at = now })
      (retain (is_live checker.ttl now) checker.cache)
      (retain-IsCache (is_live checker.ttl now) checker.cache h),
)

length-insert :
    (new : Entry) (entries : List Entry) → length (insert new entries) ≤ suc (length entries)
unfolding insert
length-insert new [] = omega arith
length-insert new (e ∷ entries) = ground (arith, length-insert new entries)

-- Pruning is not to be seen: a check finds for every other caller what it found before, at any later
-- instant, and for the caller itself the wallets that were stored, until their time is over. The cache
-- grows past 10,000 entries only with callers whose entries are live.
pub store-cached :
    (checker : Checker) (now later : ℕ) (sub other : String) (wallets : List String)
    → IsCache checker.cache
    → now ≤ later
    → str_eq sub other ≡ false
    → (cached (store checker now sub wallets) later other ≡ cached checker later other)
      × (cached (store checker now sub wallets) later sub
          ≡ (if ltb (later - now) checker.ttl then some wallets else none))
      × ((length (store checker now sub wallets).cache ≤ cache_prune_threshold)
          ⊎ (length (store checker now sub wallets).cache
              ≤ suc (length (retain (is_live checker.ttl now) checker.cache))))
unfolding store cached
store-cached checker now later sub other wallets h le apart =
    elim (Bool-cases (leb cache_prune_threshold (length checker.cache))) [
      | inl big ↦
          rw (store, big)
            (
              rw
                  (
                    cached,
                    get-insert_other new other pruned apart,
                    get-retain (is_live checker.ttl now) other checker.cache h,
                  )
                  (ground arith),
              rw (cached, get-insert_same new pruned) refl,
              inr (length-insert new pruned),
            )
      | inr small ↦
          rw (store, small)
            (
              rw (cached, get-insert_other new other checker.cache apart) refl,
              rw (cached, get-insert_same new checker.cache) refl,
              inl (ground (arith, length-insert new checker.cache)),
            )
    ]
  where
    new : Entry
    new = record { sub = sub; wallets = wallets; at = now }

    pruned : List Entry
    pruned = retain (is_live checker.ttl now) checker.cache
