-- ===== src/Lnd/ClientLaws.antt =====
-- What the calls of LND ask for, and whose answers they take.
use blink_lightning_gateway.Base.{◌≤◌, ◌⊎◌}
use blink_lightning_gateway.Lnd.Wire.{LndPayment, map_payment_status}
use blink_lightning_gateway.Primitives.Hex.{payment_hash}
use blink_lightning_gateway.Base.{
  String, true, none, some, ok, err, ◌≡◌, refl, sym, ap, ◌∙◌, arith, Bool-cases, Result-cases,
  Option-cases, inl, inr, leb,
}
use blink_lightning_gateway.Primitives.Amount.{pos, i64_max}
use blink_lightning_gateway.Primitives.Hex.{HexCodec, PaymentHash, hash_eq, hash_eq→eq}
use blink_lightning_gateway.Lnd.Types.{
  invalid_response, payment_not_found, SendPaymentParams, SendPaymentResponse,
}
use blink_lightning_gateway.Lnd.Wire.{Lnrpc, lnd_payment_to_send_response}
use blink_lightning_gateway.Lnd.Client.{
  Remote, RpcStatus, SendPaymentRequest, LndClient, require_inner, lookup_payment, send_payment,
  map_track_payment_status, as_i32, for_hash,
}

module _ {hex : HexCodec} (lnrpc : Lnrpc hex) where
  for_hash_same :
      {A : Type 0} (call : String) (requested : PaymentHash) (hash_of : A → PaymentHash)
      (answer given : A)
      → for_hash lnrpc call requested hash_of answer ≡ ok given
      → hash_of given ≡ requested
  for_hash_same call requested hash_of answer given h =
      elim (Bool-cases (hash_eq (hash_of answer) requested)) [
        | inl e ↦ hash_eq→eq (hash_of given) requested (same (hash_of answer) e)
        | inr e ↦ ground (arith, e, h)
      ]
    where
      same :
          (k : PaymentHash)
          → hash_eq (hash_of answer) requested ≡ true
          → hash_eq (hash_of given) requested ≡ true
      same k e = ground (arith, e, h)

  -- A payment that is looked up is the first message of LND's stream for this hash, read, and it is the
  -- payment with this hash.
  pub lookup_payment_same_hash :
      (client : LndClient) (payment_hash : PaymentHash) (payment : SendPaymentResponse)
      → lookup_payment lnrpc client payment_hash ≡ ok payment
      → (payment.payment_hash ≡ payment_hash)
        × (remote : Remote) × (message : LndPayment) × (client ≡ some remote)
        × (remote.track_payment_v2 payment_hash.bytes ≡ ok (ok (some message)))
        × (lnd_payment_to_send_response lnrpc message ≡ ok payment)
  unfolding lookup_payment require_inner
  lookup_payment_same_hash none payment_hash payment h = ground arith
  lookup_payment_same_hash (some remote) payment_hash payment h =
      elim (Result-cases (remote.track_payment_v2 payment_hash.bytes)) [
        | inr (x, p) ↦ ground (arith, p, h)
        | inl (stream, p) ↦ elim (Result-cases stream) [
          | inr (x, q) ↦ ground (arith, p, q, h)
          | inl (first, q) ↦ elim (Option-cases first) [
            | inl r ↦ ground (arith, p, q, r, h)
            | inr (message, r) ↦ elim (Result-cases (lnd_payment_to_send_response lnrpc message)) [
              | inr (x, t) ↦ ground (arith, p, q, r, t, h)
              | inl (resp, t) ↦ elim (Bool-cases (hash_eq resp.payment_hash payment_hash)) [
                | inr b ↦ ground (arith, p, q, r, t, b, h)
                | inl b ↦
                    let is : resp ≡ payment = ground (arith, p, q, r, t, b, h) in
                    (
                      ap (λ x. x.payment_hash) (sym is)
                          ∙ hash_eq→eq resp.payment_hash payment_hash b,
                      remote,
                      message,
                      refl,
                      p ∙ ap ok (q ∙ ap ok r),
                      t ∙ ap ok is,
                    )
              ]
            ]
          ]
        ]
      ]

  response_found :
      (message : LndPayment)
      → ¬ (lnd_payment_to_send_response lnrpc message ≡ err payment_not_found)
  unfolding lnd_payment_to_send_response map_payment_status
  response_found message h = ground arith

  -- A payment is reported as unknown only if LND answers so, when the stream is opened or with its first
  -- message.
  pub lookup_payment_not_found :
      (client : LndClient) (payment_hash : PaymentHash)
      → lookup_payment lnrpc client payment_hash ≡ err payment_not_found
      → (remote : Remote) × (s : RpcStatus) × (client ≡ some remote)
        × (s.is_not_found ≡ true)
        × ((remote.track_payment_v2 payment_hash.bytes ≡ err s)
            ⊎ (remote.track_payment_v2 payment_hash.bytes ≡ ok (err s)))
  unfolding lookup_payment require_inner map_track_payment_status
  lookup_payment_not_found none payment_hash h = ground arith
  lookup_payment_not_found (some remote) payment_hash h =
      elim (Result-cases (remote.track_payment_v2 payment_hash.bytes)) [
        | inr (s, p) ↦ (remote, s, refl, ground (arith, p, h), inl p)
        | inl (stream, p) ↦ elim (Result-cases stream) [
          | inr (s, q) ↦ (remote, s, refl, ground (arith, p, q, h), inr (p ∙ ap ok q))
          | inl (first, q) ↦ elim (Option-cases first) [
            | inl r ↦ absurd (ground (arith, p, q, r, h))
            | inr (message, r) ↦ elim (Result-cases (lnd_payment_to_send_response lnrpc message)) [
              | inr (x, t) ↦ absurd (ground (arith, p, q, r, t, h, response_found message))
              | inl (resp, t) ↦ absurd (ground (arith, p, q, r, t, h))
            ]
          ]
        ]
      ]

  -- LND is never asked to pay with another fee limit than the one given: two LNDs that answer alike to
  -- the requests with this limit give the same result, and a limit that is no i64 gives the error that
  -- says so, whatever LND would answer.
  pub send_payment_limit :
      (a b : Remote) (params : SendPaymentParams)
      → ((request : SendPaymentRequest)
          → request.fee_limit_msat ≡ pos params.max_fee_msat
          → a.send_payment_v2 request ≡ b.send_payment_v2 request)
      → (send_payment lnrpc (some a) params ≡ send_payment lnrpc (some b) params)
        × ((params.max_fee_msat ≤ i64_max)
            ⊎ (send_payment lnrpc (some a) params
                ≡ err (invalid_response "max_fee_msat exceeds i64::MAX")))
  unfolding send_payment require_inner
  send_payment_limit a b params same = elim (Bool-cases (leb params.max_fee_msat i64_max)) [
    | inl e ↦ (
      rw
          (
            e,
            same
                (record {
                  payment_request = params.bolt_invoice;
                  fee_limit_msat = pos params.max_fee_msat;
                  timeout_seconds = as_i32 params.timeout_seconds;
                })
                refl,
          )
          refl,
      inl (ground (arith, e)),
    )
    | inr e ↦ (rw e refl, inr (rw e refl))
  ]
