-- ===== src/Server/Auth.antt =====
-- What a request must carry to pass the ownership check.
use blink_lightning_gateway.Base.{
  Bool, true, false, Option, none, some, String, List, [], ◌∷◌, Result, ok, ◌≡◌, ◌⊎◌, inl, inr,
  refl, ap, ◌∙◌, arith, Bool-cases, Option-cases, Result-cases,
}
use blink_lightning_gateway.Wallet.Ownership.{Checker, is_authenticated, check}
use blink_lightning_gateway.Wallet.Safety.{Call, check_call}
use blink_lightning_gateway.Server.Jwks.{
  JwksError, no_key_available, jwt, key_with, try_keys, decode, caller_of, same_kid,
}

default_refused :
    (is_header : String → Bool) (checker : Checker) (call : Call)
    → call.caller ≡ record { jwt = ""; sub = "" }
    → ¬ ((check_call is_header checker call).0 ≡ ok tt)
unfolding check is_authenticated
default_refused is_header checker call default passed =
    let closed : is_authenticated call.caller ≡ false = rw default refl in
    ground (arith, closed, passed)

module _ {Key : Type 0} (decode_header : String → Result String (Option String))
    (verify : String → Key → Result String String) where
  -- One of the keys verifies the token, for this subject.
  abbrev pub IsVerified : String → String → List (Option String × Key) → Type 0
  IsVerified token sub [] = ⊥
  IsVerified token sub ((kid, key) ∷ keys) = (verify token key ≡ ok sub) ⊎ IsVerified token sub keys

  key_with-IsVerified :
      (target token sub : String) (keys : List (Option String × Key)) (key : Key)
      → key_with target keys ≡ some key
      → verify token key ≡ ok sub
      → IsVerified token sub keys
  unfolding key_with
  key_with-IsVerified target token sub [] key h v = ground arith
  key_with-IsVerified target token sub ((kid, k) ∷ keys) key h v =
      elim (Bool-cases (same_kid kid target)) [
        | inl e ↦ inl (ap (verify token) (found e) ∙ v)
        | inr e ↦ inr (key_with-IsVerified target token sub keys key (ground (arith, e, h)) v)
      ]
    where
      found : same_kid kid target ≡ true → k ≡ key
      found e = ground (arith, e, h)

  try_keys-IsVerified :
      (token sub : String) (keys : List (Option String × Key)) (last_err : JwksError)
      → try_keys decode_header verify token keys last_err ≡ ok sub
      → IsVerified token sub keys
  unfolding try_keys
  try_keys-IsVerified token sub [] last_err h = ground arith
  try_keys-IsVerified token sub ((kid, key) ∷ keys) last_err h =
      elim (Result-cases (verify token key)) [
        | inl (s, p) ↦ inl (p ∙ ground (arith, p, h))
        | inr (e, p) ↦ inr (try_keys-IsVerified token sub keys (jwt e) (ground (arith, p, h)))
      ]

  decode-IsVerified :
      (keys : List (Option String × Key)) (token sub : String)
      → decode decode_header verify keys token ≡ ok sub
      → IsVerified token sub keys
  unfolding decode
  decode-IsVerified keys token sub h = elim (Result-cases (decode_header token)) [
    | inr (e, p) ↦ absurd (ground (arith, p, h))
    | inl (none, p) ↦ try_keys-IsVerified token sub keys no_key_available (ground (arith, p, h))
    | inl (some kid, p) ↦ elim (Option-cases (key_with kid keys)) [
      | inl q ↦ try_keys-IsVerified token sub keys no_key_available (ground (arith, p, q, h))
      | inr (key, q) ↦ key_with-IsVerified kid token sub keys key q (verified_by key p q)
    ]
  ]
    where
      verified_by :
          {kid : String} (key : Key)
          → decode_header token ≡ ok (some kid)
          → key_with kid keys ≡ some key
          → verify token key ≡ ok sub
      verified_by key p q = ground (arith, p, q, h)

  -- Only a verified token gets a request past the ownership check: if the check passes for the caller of
  -- a request, then the request has a bearer token that one of the cached keys verifies, and the
  -- caller is the subject that this key gives.
  pub check-IsVerified :
      (is_header : String → Bool) (checker : Checker) (call : Call)
      (keys : List (Option String × Key)) (bearer : Option String)
      → call.caller ≡ caller_of decode_header verify keys bearer
      → (check_call is_header checker call).0 ≡ ok tt
      → (token : String) × (bearer ≡ some token) × IsVerified token call.caller.sub keys
  unfolding caller_of
  check-IsVerified is_header checker call keys none same passed =
      absurd (default_refused is_header checker call same passed)
  check-IsVerified is_header checker call keys (some token) same passed =
      elim (Result-cases (decode decode_header verify keys token)) [
        | inr (e, p) ↦
            absurd (default_refused is_header checker call (same ∙ rw (caller_of, p) refl) passed)
        | inl (sub, p) ↦
            let at : caller_of decode_header verify keys (some token)
                ≡ record { jwt = token; sub = sub } =
              rw (caller_of, p) refl in
            let is : call.caller.sub ≡ sub = ap (λ c. c.sub) (same ∙ at) in
            (token, refl, rw is (decode-IsVerified keys token sub p))
      ]
