-- ===== src/Examples/Remotes.antt =====
-- The theorems on the calls of LND and Symphony, the listeners and the sweeps, with concrete answers.
use blink_lightning_gateway.Invoice.Repo.{invoice_state_as_str}
use blink_lightning_gateway.Lnd.Client.{map_track_payment_status, require_inner}
use blink_lightning_gateway.Lnd.Wire.{
  fee_or_zero, first_route_hops, map_payment_status, parse_preimage,
}
use blink_lightning_gateway.Primitives.Amount.{round_up_to_sat_wrapping, try_from}
use blink_lightning_gateway.Primitives.Hex.{hash_eq, hash_from_str}
use text.Mathlib.Text.{◌==◌ as str_eq}
use blink_lightning_gateway.Base.{if◌then◌else◌}
use blink_lightning_gateway.Base.{
  ◌≡◌, ◌≤◌, ◌⊎◌, Bool, List, refl, true, false, none, some, String, [], ◌∷◌, ok, err, Result,
}
use blink_lightning_gateway.Primitives.Amount.{pos, i64_max}
use blink_lightning_gateway.Primitives.Hex.{PaymentHash}
use blink_lightning_gateway.Json.{null}
use blink_lightning_gateway.Invoice.Event.{InvoiceState}
use blink_lightning_gateway.Invoice.Repo.{InvoiceRow}
use blink_lightning_gateway.Lnd.Types.{SendPaymentParams, payment_not_found, invalid_response}
use blink_lightning_gateway.Lnd.Wire.{lnd_payment_to_send_response}
use blink_lightning_gateway.Lnd.Client.{Remote, RpcStatus, send_payment, lookup_payment}
use blink_lightning_gateway.Lnd.ClientLaws.{send_payment_limit, lookup_payment_not_found}
use blink_lightning_gateway.Lnd.Listen.{Yield, Opened, message, failure, subscribe_invoice}
use blink_lightning_gateway.Lnd.ListenLaws.{IsListened, subscribe_invoice-IsListened}
use blink_lightning_gateway.Lnd.Dispatch.{
  new_dispatcher, spawn_listener_for, listener_ends, start, step, spawned, ended, IsRegistry,
  IsDistinct, Steps-IsRegistry, contains_hash,
}
use blink_lightning_gateway.Symphony.Client.{
  SymphonyAuthorizeRequest, SymphonyAuthorizeResponse, approved, wallet_liability,
}
use blink_lightning_gateway.Symphony.Requests.{SpendService, authorize_spend}
use blink_lightning_gateway.App.Jobs.{recovery_sweep}
use blink_lightning_gateway.App.JobLaws.{recovery_sweep-listeners}
use blink_lightning_gateway.Examples.Codec.{hex_decode, some_hash}
use blink_lightning_gateway.Lnd.Wire.{LndInvoice}
use blink_lightning_gateway.Examples.Wires.{lnd_invoice, rpc, lnd_payment, response}

-- An LND that knows the payment of `lnd_payment`, and one that knows none.
abbrev remote : Remote
remote = record {
  add_hold_invoice = λ r. ok "lnbc1";
  settle_invoice = λ p. ok tt;
  cancel_invoice = λ h. ok tt;
  lookup_invoice = λ h. err (record { is_not_found = true; text = "no invoice" });
  track_payment_v2 = λ h. ok (ok (some lnd_payment));
  send_payment_v2 = λ r. ok (ok (some lnd_payment));
  estimate_route_fee = λ b. err (record { is_not_found = false; text = "no route" });
}

abbrev empty_remote : Remote
empty_remote = record remote {
  track_payment_v2 = λ h. ok (err (record { is_not_found = true; text = "unknown" }));
}

abbrev params : SendPaymentParams
params = record { bolt_invoice = "lnbc1"; max_fee_msat = 5_000; timeout_seconds = 60 }

-- Another LND, which answers alike to requests with the limit of `params`.
abbrev strict_remote : Remote
strict_remote = record remote {
  lookup_invoice = λ h. err (record { is_not_found = false; text = "down" });
}

send_payment_limit_example :
    (send_payment rpc (some remote) params ≡ send_payment rpc (some strict_remote) params)
    × ((5_000 ≤ i64_max)
        ⊎ (send_payment rpc (some remote) params
            ≡ err (invalid_response "max_fee_msat exceeds i64::MAX")))
send_payment_limit_example =
    send_payment_limit rpc remote strict_remote params (λ request same. refl)

payment_found : lookup_payment rpc (some remote) response.payment_hash ≡ ok response
unfolding lookup_payment require_inner lnd_payment_to_send_response map_payment_status
    first_route_hops fee_or_zero parse_preimage hash_from_str hex_decode round_up_to_sat_wrapping
    try_from hash_eq
payment_found = refl

payment_unknown : lookup_payment rpc (some empty_remote) some_hash ≡ err payment_not_found
unfolding lookup_payment require_inner map_track_payment_status
payment_unknown = refl

lookup_payment_not_found_example :
    (r : Remote) × (s : RpcStatus) × (some empty_remote ≡ some r)
    × (s.is_not_found ≡ true)
    × ((r.track_payment_v2 some_hash.bytes ≡ err s)
        ⊎ (r.track_payment_v2 some_hash.bytes ≡ ok (err s)))
lookup_payment_not_found_example =
    lookup_payment_not_found rpc (some empty_remote) some_hash payment_unknown

abbrev opened : Bool → List (Yield LndInvoice) → Opened LndInvoice
opened over yields = record { yields = yields; is_cancelled = over }

subscribe_invoice-IsListened_example : IsListened some_hash true (
    subscribe_invoice rpc
      (λ n. true)
      true
      some_hash
      (some (opened false (message lnd_invoice ∷ failure ∷ []))
        ∷ none
        ∷ some (opened true (message lnd_invoice ∷ []))
        ∷ []))
subscribe_invoice-IsListened_example =
    subscribe_invoice-IsListened rpc (λ n. true) true some_hash
      (some (opened false (message lnd_invoice ∷ failure ∷ []))
        ∷ none
        ∷ some (opened true (message lnd_invoice ∷ []))
        ∷ [])

listener_runs :
    contains_hash some_hash (spawn_listener_for some_hash new_dispatcher).listeners ≡ true
unfolding spawn_listener_for hash_eq
listener_runs = refl

Steps-IsRegistry_example : IsRegistry (
    spawn_listener_for some_hash
      (listener_ends some_hash (spawn_listener_for some_hash new_dispatcher)))
Steps-IsRegistry_example = Steps-IsRegistry (
    step (step (step start (spawned some_hash)) (ended some_hash listener_runs))
      (spawned some_hash))

abbrev service : SpendService
service = record {
  authorize_spend = λ r. ok (record {
    authorized = true;
    authorization_id = "a1";
    decline_reason = pos 0;
    decline_message = "";
  });
  void_spend_authorization = λ c a. ok tt;
}

abbrev spend : SymphonyAuthorizeRequest
spend = record {
  correlation_id = "aa";
  account = record { kind = wallet_liability; id = "w1" };
  sat_amount = 1_000;
  idempotency_key = "aa";
  gateway_metadata = null;
}

abbrev approval : SymphonyAuthorizeResponse
approval = record { status = approved; authorization_id = some "a1"; decline_reason = none }

abbrev poisoned : InvoiceRow
poisoned = record { id = "bad"; payment_hash = some_hash; state = "open" }

abbrev held_row : InvoiceRow
held_row = record { id = "good"; payment_hash = some_hash; state = "held" }

abbrev find_by_id : String → Result String PaymentHash
find_by_id id = if str_eq id "good" then ok some_hash else err "unreadable"

held_text : "held" ≡ invoice_state_as_str InvoiceState.held
unfolding invoice_state_as_str
held_text = refl

recovery_sweep-listeners_example :
    (contains_hash some_hash
        (recovery_sweep find_by_id (poisoned ∷ held_row ∷ []) new_dispatcher).listeners
      ≡ true)
    × IsDistinct (recovery_sweep find_by_id (poisoned ∷ held_row ∷ []) new_dispatcher).listeners
recovery_sweep-listeners_example =
    recovery_sweep-listeners find_by_id (poisoned ∷ []) [] held_row InvoiceState.held some_hash
      new_dispatcher (refl, tt) held_text refl refl
