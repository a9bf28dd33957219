-- ===== src/Lnd/ListenLaws.antt =====
-- What the listeners forward.
use blink_lightning_gateway.Base.{
  ℕ, suc, ◌+◌, Bool, true, false, Option, none, some, List, [], ◌∷◌, ◌++◌, ◌||◌, ◌≡◌, ◌≢◌, ◌⊎◌, inl,
  inr, refl, arith, All, length, Bool-cases, Result-cases,
}
use blink_lightning_gateway.Primitives.Hex.{PaymentHash, HexCodec, hash_eq, hash_eq→eq}
use blink_lightning_gateway.Lnd.Types.{InvoiceUpdate}
use blink_lightning_gateway.Lnd.Wire.{LndInvoice, Lnrpc, lnd_invoice_to_update}
use blink_lightning_gateway.Lnd.Listen.{
  SubscribeInvoiceExit, terminal, cancelled, Yield, message, failure, shutdown, Pumped, exits,
  closed, failed, is_terminal_state, drive_invoice_stream, after_pump, Opened, listen_for_invoice,
  subscribe_invoice,
}

-- Whether the shutdown has fired at the end of one of the pumps.
abbrev pub any_fired : List (Option (Opened LndInvoice)) → Bool
any_fired [] = false
any_fired (none ∷ attempts) = any_fired attempts
any_fired (some opened ∷ attempts) = opened.is_cancelled || any_fired attempts

module _ (payment_hash : PaymentHash) where
  -- An update of this invoice that does not finish it.
  abbrev pub IsProgress : InvoiceUpdate → Type 0
  IsProgress u = (u.payment_hash ≡ payment_hash) × (is_terminal_state u.state ≡ false)

  -- Updates of this invoice of which the last, and no other, finishes it.
  abbrev pub IsDone : List InvoiceUpdate → Type 0
  IsDone [] = ⊥
  IsDone (u ∷ []) = (u.payment_hash ≡ payment_hash) × (is_terminal_state u.state ≡ true)
  IsDone (u ∷ us) = IsProgress u × IsDone us

  IsDone-cons :
      (u : InvoiceUpdate) (us : List InvoiceUpdate) → IsProgress u → IsDone us → IsDone (u ∷ us)
  IsDone-cons u [] p h = absurd h
  IsDone-cons u (v ∷ us) p h = (p, h)

  IsDone-append : (us vs : List InvoiceUpdate) → All IsProgress us → IsDone vs → IsDone (us ++ vs)
  IsDone-append [] vs a h = h
  IsDone-append (u ∷ us) vs a h = IsDone-cons u (us ++ vs) a.0 (IsDone-append us vs a.1 h)

  All-append :
      (us vs : List InvoiceUpdate)
      → All IsProgress us
      → All IsProgress vs
      → All IsProgress (us ++ vs)
  All-append [] vs a b = b
  All-append (u ∷ us) vs a b = (a.0, All-append us vs a.1 b)

  abbrev IsPumped : Pumped × List InvoiceUpdate → Type 0
  IsPumped (end, us) =
      (end ≡ exits terminal) × IsDone us ⊎ (end ≢ exits terminal) × All IsProgress us

  -- How a listener ends, and whether the shutdown fired at the end of a pump.
  abbrev pub IsListened : Bool → SubscribeInvoiceExit × List InvoiceUpdate → Type 0
  IsListened fired (exit, us) =
      (exit ≡ terminal) × IsDone us
      ⊎ (exit ≡ cancelled) × (All IsProgress us ⊎ (fired ≡ true) × IsDone us)

  append-IsListened :
      (fired : Bool) (us : List InvoiceUpdate) (rest : SubscribeInvoiceExit × List InvoiceUpdate)
      → All IsProgress us
      → IsListened fired rest
      → IsListened fired (rest.0, us ++ rest.1)
  append-IsListened fired us (exit, more) h (inl (q, k)) = inl (q, IsDone-append us more h k)
  append-IsListened fired us (exit, more) h (inr (q, inl k)) = inr (q, inl (All-append us more h k))
  append-IsListened fired us (exit, more) h (inr (q, inr (b, k))) =
      inr (q, inr (b, IsDone-append us more h k))

  after_pump-IsListened :
      (over fired : Bool) (r : Pumped × List InvoiceUpdate)
      (rest : SubscribeInvoiceExit × List InvoiceUpdate)
      → IsPumped r
      → IsListened fired rest
      → IsListened (over || fired) (after_pump over r rest)
  after_pump-IsListened true fired (end, us) rest (inl (p, h)) k = inr (refl, inr (refl, h))
  after_pump-IsListened true fired (end, us) rest (inr (p, h)) k = inr (refl, inl h)
  after_pump-IsListened false fired (exits terminal, us) rest (inl (p, h)) k = inl (refl, h)
  after_pump-IsListened false fired (exits terminal, us) rest (inr (p, h)) k = absurd (p refl)
  after_pump-IsListened false fired (exits cancelled, us) rest (inl (p, h)) k =
      absurd (ground arith)
  after_pump-IsListened false fired (exits cancelled, us) rest (inr (p, h)) k = inr (refl, inl h)
  after_pump-IsListened false fired (closed, us) rest (inl (p, h)) k = absurd (ground arith)
  after_pump-IsListened false fired (closed, us) rest (inr (p, h)) k =
      append-IsListened fired us rest h k
  after_pump-IsListened false fired (failed, us) rest (inl (p, h)) k = absurd (ground arith)
  after_pump-IsListened false fired (failed, us) rest (inr (p, h)) k =
      append-IsListened fired us rest h k

  module _ {hex : HexCodec} (lnrpc : Lnrpc hex) (is_received : ℕ → Bool) where
    drive-IsPumped :
        (n : ℕ) (yields : List (Yield LndInvoice))
        → IsPumped (drive_invoice_stream lnrpc is_received payment_hash n yields)
    unfolding drive_invoice_stream
    drive-IsPumped n [] = inr (ground arith, tt)
    drive-IsPumped n (failure ∷ yields) = inr (ground arith, tt)
    drive-IsPumped n (shutdown ∷ yields) = inr (ground arith, tt)
    drive-IsPumped n (message i ∷ yields) = elim (Result-cases (lnd_invoice_to_update lnrpc i)) [
      | inr (e, p) ↦ rw (drive_invoice_stream, p) (drive-IsPumped n yields)
      | inl (u, p) ↦ elim (Bool-cases (hash_eq u.payment_hash payment_hash)) [
        | inr q ↦ rw (drive_invoice_stream, p, q) (drive-IsPumped n yields)
        | inl q ↦ elim (Bool-cases (is_received n)) [
          | inr r ↦ rw (drive_invoice_stream, p, q, r) (inr (ground arith, tt))
          | inl r ↦ elim (Bool-cases (is_terminal_state u.state)) [
            | inl t ↦
                rw (drive_invoice_stream, p, q, r, t)
                  (inl (refl, (hash_eq→eq u.payment_hash payment_hash q, t)))
            | inr t ↦
                rw (drive_invoice_stream, p, q, r, t)
                  (add u (hash_eq→eq u.payment_hash payment_hash q, t)
                    (drive_invoice_stream lnrpc is_received payment_hash (suc n) yields)
                    (drive-IsPumped (suc n) yields))
          ]
        ]
      ]
    ]
      where
        add :
            (u : InvoiceUpdate)
            → IsProgress u
            → (r : Pumped × List InvoiceUpdate) → IsPumped r
            → IsPumped (r.0, u ∷ r.1)
        add u p (end, us) (inl (e, h)) = inl (e, IsDone-cons u us p h)
        add u p (end, us) (inr (e, h)) = inr (e, (p, h))

    listen-IsListened :
        (n : ℕ) (attempts : List (Option (Opened LndInvoice)))
        → IsListened
            (any_fired attempts)
            (listen_for_invoice lnrpc is_received payment_hash n attempts)
    unfolding listen_for_invoice
    listen-IsListened n [] = inr (refl, inl tt)
    listen-IsListened n (none ∷ attempts) = listen-IsListened n attempts
    listen-IsListened n (some opened ∷ attempts) =
        let pumped = drive_invoice_stream lnrpc is_received payment_hash n opened.yields in
        after_pump-IsListened opened.is_cancelled (any_fired attempts) pumped
          (listen_for_invoice lnrpc is_received payment_hash (n + length pumped.1) attempts)
          (drive-IsPumped n opened.yields) (listen-IsListened (n + length pumped.1) attempts)

-- A listener forwards only updates of its own invoice, and none after the one that finishes it. If it
-- exits with `Terminal`, the last forwarded update finishes the invoice; if it exits with `Cancelled`
-- after such an update, the shutdown had fired when the pump of that stream or of one of the others
-- ended. It is so whatever LND sends, however often the stream breaks, and wherever the receiver or
-- the shutdown stops it.
pub subscribe_invoice-IsListened :
    {hex : HexCodec} (lnrpc : Lnrpc hex) (is_received : ℕ → Bool) (connected : Bool)
    (payment_hash : PaymentHash) (attempts : List (Option (Opened LndInvoice)))
    → IsListened payment_hash
        (any_fired attempts)
        (subscribe_invoice lnrpc is_received connected payment_hash attempts)
unfolding subscribe_invoice
subscribe_invoice-IsListened lnrpc is_received true payment_hash attempts =
    listen-IsListened payment_hash lnrpc is_received 0 attempts
subscribe_invoice-IsListened lnrpc is_received false payment_hash attempts = inr (refl, inl tt)
