-- ===== src/Lnd/Listen.antt =====
-- src/lnd/invoice.rs and src/lnd/subscription.rs: the two tasks that listen to LND. A task meets one
-- attempt to open its stream after the other until the shutdown, at the end of the list; between two
-- attempts it sleeps for 2 seconds. A stream is the list of what it yields until it is closed. Whether
-- the receiver takes an update is given by the number of updates that it took.
use blink_lightning_gateway.Base.{
  ℕ, suc, ◌+◌, Bool, true, false, Option, none, some, List, [], ◌∷◌, ◌++◌, ok, err, length,
  if◌then◌else◌,
}
use blink_lightning_gateway.Primitives.Hex.{PaymentHash, HexCodec, hash_eq}
use blink_lightning_gateway.Lnd.Types.{
  LndInvoiceState, open_, accepted, settled, canceled, InvoiceUpdate, PaymentUpdate,
}
use blink_lightning_gateway.Lnd.Wire.{
  LndPayment, LndInvoice, Lnrpc, lnd_invoice_to_update, lnd_payment_to_send_response,
}

pub data SubscribeInvoiceExit : Type 0 where
  terminal cancelled : SubscribeInvoiceExit

-- What a stream yields: a message, an error, or the shutdown while it is awaited.
pub data Yield {ℓ} (A : Type ℓ) : Type ℓ where
  message : A → Yield A
  failure shutdown : Yield A

-- How the pump of one stream ends: it exits, the stream is closed, or it fails.
pub data Pumped : Type 0 where
  exits : SubscribeInvoiceExit → Pumped
  closed failed : Pumped

unfoldable pub is_terminal_state : LndInvoiceState → Bool
is_terminal_state settled = true
is_terminal_state canceled = true
is_terminal_state accepted = false
is_terminal_state open_ = false

abbrev prepend {ℓ κ} : {A : Type ℓ} {B : Type κ} → A → B × List A → B × List A
prepend u (r, us) = (r, u ∷ us)

-- The pump of one stream, and then, unless the shutdown has fired by its end or it exits, what the
-- attempts after it do.
abbrev pub after_pump :
    Bool
    → Pumped × List InvoiceUpdate
    → SubscribeInvoiceExit × List InvoiceUpdate
    → SubscribeInvoiceExit × List InvoiceUpdate
after_pump true (end, updates) rest = (cancelled, updates)
after_pump false (exits e, updates) rest = (e, updates)
after_pump false (closed, updates) (exit, more) = (exit, updates ++ more)
after_pump false (failed, updates) (exit, more) = (exit, updates ++ more)

-- An attempt that opens a stream: what it yields, and whether the shutdown has fired when the pump ends.
pub record Opened {ℓ} (A : Type ℓ) : Type ℓ where
  pub yields : List (Yield A)
  pub is_cancelled : Bool

module _ {hex : HexCodec} (lnrpc : Lnrpc hex) (is_received : ℕ → Bool) where
  -- `drive_stream` of invoice.rs: how it ends, and the updates that it has forwarded.
  unfoldable pub drive_invoice_stream :
      PaymentHash → ℕ → List (Yield LndInvoice) → Pumped × List InvoiceUpdate
  drive_invoice_stream payment_hash n [] = (closed, [])
  drive_invoice_stream payment_hash n (failure ∷ yields) = (failed, [])
  drive_invoice_stream payment_hash n (shutdown ∷ yields) = (exits cancelled, [])
  drive_invoice_stream payment_hash n (message invoice ∷ yields) =
      elim (lnd_invoice_to_update lnrpc invoice) [
        | err e ↦ drive_invoice_stream payment_hash n yields
        | ok update ↦ elim (hash_eq update.payment_hash payment_hash) [
          | false ↦ drive_invoice_stream payment_hash n yields
          | true ↦ elim (is_received n) [
            | false ↦ (exits cancelled, [])
            | true ↦ elim (is_terminal_state update.state) [
              | true ↦ (exits terminal, update ∷ [])
              | false ↦ prepend update (drive_invoice_stream payment_hash (suc n) yields)
            ]
          ]
        ]
      ]

  -- `subscribe_invoice` on a connected client, with what each attempt opens.
  unfoldable pub listen_for_invoice :
      PaymentHash
      → ℕ
      → List (Option (Opened LndInvoice))
      → SubscribeInvoiceExit × List InvoiceUpdate
  listen_for_invoice payment_hash n [] = (cancelled, [])
  listen_for_invoice payment_hash n (none ∷ attempts) = listen_for_invoice payment_hash n attempts
  listen_for_invoice payment_hash n (some opened ∷ attempts) =
      let pumped = drive_invoice_stream payment_hash n opened.yields in
      after_pump opened.is_cancelled pumped
        (listen_for_invoice payment_hash (n + length pumped.1) attempts)

  -- `subscribe_invoice`; a boot stub waits for the shutdown.
  unfoldable pub subscribe_invoice :
      Bool
      → PaymentHash
      → List (Option (Opened LndInvoice))
      → SubscribeInvoiceExit × List InvoiceUpdate
  subscribe_invoice connected payment_hash attempts =
      if connected then listen_for_invoice payment_hash 0 attempts else (cancelled, [])

  -- `drive_stream` of subscription.rs. An update that is not received ends the pump.
  unfoldable pub drive_payment_stream : ℕ → List (Yield LndPayment) → Pumped × List PaymentUpdate
  drive_payment_stream n [] = (closed, [])
  drive_payment_stream n (failure ∷ yields) = (failed, [])
  drive_payment_stream n (shutdown ∷ yields) = (exits cancelled, [])
  drive_payment_stream n (message payment ∷ yields) =
      elim (lnd_payment_to_send_response lnrpc payment) [
        | err e ↦ drive_payment_stream n yields
        | ok update ↦ elim (is_received n) [
          | false ↦ (closed, [])
          | true ↦ prepend update (drive_payment_stream (suc n) yields)
        ]
      ]

  -- `subscribe_payments`: the updates that it has forwarded when it returns.
  unfoldable pub listen_for_payments :
      ℕ → List (Option (List (Yield LndPayment))) → List PaymentUpdate
  listen_for_payments n [] = []
  listen_for_payments n (none ∷ attempts) = listen_for_payments n attempts
  listen_for_payments n (some yields ∷ attempts) =
      let (end, updates) = drive_payment_stream n yields in
      let more = listen_for_payments (n + length updates) attempts in
      elim end [ exits e ↦ updates | _ ↦ updates ++ more ]

  unfoldable pub subscribe_payments :
      Bool → List (Option (List (Yield LndPayment))) → List PaymentUpdate
  subscribe_payments connected attempts = if connected then listen_for_payments 0 attempts else []
