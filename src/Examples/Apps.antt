-- ===== src/Examples/Apps.antt =====
-- The theorems on the use cases in concrete environments: one where every service agrees, and variants
-- of it.
use blink_lightning_gateway.App.Issue.{
  NewInvoiceRequest, create_invoice, live, IsIssued, create_invoice-IsIssued,
}
use blink_lightning_gateway.App.Commit.{commit_failed, check_wallet_ownership}
use blink_lightning_gateway.App.Contradictions.{send_error_failed, late_success_refused}
use blink_lightning_gateway.App.Send.{
  fail_inline, send_over_lnd, hold_sat, send_payment, route, send_external, send_new,
  persist_intent, authorize_then_send,
}
use blink_lightning_gateway.App.Announced.{IsAnnounced, FindsByHash}
use blink_lightning_gateway.Invoice.Entity.{Invoice}
use blink_lightning_gateway.Payment.Event.{invalid_state_transition, PaymentState, timeout}
use blink_lightning_gateway.Base.{
  ap, sym, ◌≡◌, ◌+◌, ◌*◌, ◌≤◌, ◌<◌, refl, false, some, none, [], ◌∷◌, ok, err, arith, Result,
}
use blink_lightning_gateway.Primitives.Hex.{PaymentHash}
use blink_lightning_gateway.App.HoldLaws.{IsReleased, hold_sat_covers, receiving-IsReleased}
use blink_lightning_gateway.App.Receive.{
  handle_invoice_update, reconcile_held_invoice, settle_hold_invoice,
}
use blink_lightning_gateway.App.ReceiveLaws.{receiving-IsAnnounced}
use blink_lightning_gateway.App.Requests.{SendPaymentRequest, decode_bolt11}
use blink_lightning_gateway.App.SendLaws.{FindsStanding, send_payment-IsAnnounced}
use blink_lightning_gateway.App.Track.{handle_payment_update, sweep_orphan_holds}
use blink_lightning_gateway.App.TrackLaws.{count_writes, sweep_undecided, tracking-IsAnnounced}
use blink_lightning_gateway.EventLog.{list_log}
use blink_lightning_gateway.Lnd.Types.{
  SendPaymentResponse, succeeded, in_flight, accepted, InvoiceUpdate, connect, SendPaymentParams,
}
use blink_lightning_gateway.Symphony.Client.{approved}
use blink_lightning_gateway.Invoice.Lifecycle.{fresh as fresh_invoice, issued}
use blink_lightning_gateway.Payment.Lifecycle.{fresh as fresh_payment, run, fails, run_status, next}
use blink_lightning_gateway.Invoice.Refinement.{fresh-Shows}
use blink_lightning_gateway.Payment.Refinement.{run-Shows}
use blink_lightning_gateway.Primitives.Amount.{round_up_to_sat_wrapping, whole_sat}
use blink_lightning_gateway.Payment.Entity.{into_events, fail, mark_pending, Payment, try_new}
use blink_lightning_gateway.App.Error.{Stop, payment, returned}
use blink_lightning_gateway.Fees.Policy.{max_for}
use blink_lightning_gateway.Examples.Codec.{hex_codec, some_hash, some_preimage}
use blink_lightning_gateway.Examples.Payments.{new_payment}
use blink_lightning_gateway.Examples.Invoices.{new_invoice}
use blink_lightning_gateway.App.World.{Crates, World}

abbrev crates : Crates
crates = record {
  invoice_log = list_log;
  payment_log = list_log;
  hex = hex_codec;
  sha256 = λ bs. bs;
  parse_bolt11 = λ s. ok (record {
    payment_hash = some_hash.bytes;
    destination = 2 ∷ 0xab ∷ [];
    amount_milli_satoshis = some 4_999_500;
    would_expire = λ t. false;
  });
  debug_reason = λ r. "reason";
}

abbrev paid_response : SendPaymentResponse
paid_response = record {
  payment_hash = some_hash;
  payment_preimage = some some_preimage;
  status = succeeded;
  fees_paid_msat = 3_000;
  route_hops = [];
  failure_reason = none;
}

abbrev invoice_update : InvoiceUpdate
invoice_update = record {
  payment_hash = some_hash;
  state = accepted;
  amt_paid_msat = 5_000;
  payment_preimage = none;
}

abbrev pub calm : World crates
calm = record {
  now = λ tr. 1_000;
  new_payment_id = λ tr. "pay-1";
  new_invoice_id = λ tr. "inv-1";
  generate = λ tr. some_preimage;
  check = λ tr caller wallet. ok tt;
  find_invoice = λ tr h. ok (fresh_invoice list_log new_invoice);
  maybe_find_invoice = λ tr h. ok none;
  find_payment = λ tr h. ok (fresh_payment list_log new_payment);
  list_stranded = λ tr t limit. ok (some_hash ∷ []);
  begin = λ tr. ok tt;
  commit = λ tr. ok tt;
  create_payment = λ tr n. ok tt;
  create_invoice = λ tr n. ok tt;
  update_payment = λ tr p. ok tt;
  update_invoice = λ tr inv. ok tt;
  publish = λ tr e. ok tt;
  authorize_spend = λ tr hold.
      ok (record { status = approved; authorization_id = some "auth-1"; decline_reason = none });
  send_payment = λ tr params. ok paid_response;
  cancel_invoice = λ tr h. ok tt;
  settle_invoice = λ tr preimage. ok tt;
  lookup_invoice = λ tr h. ok invoice_update;
  lookup_payment = λ tr h. some (ok (record paid_response { status = in_flight }));
  add_hold_invoice = λ tr params. ok "lnbc1";
}

-- An invoice and a payment with a given hash.
abbrev invoice_of : PaymentHash → Invoice crates.invoice_log
invoice_of h = fresh_invoice list_log (record new_invoice { payment_hash = h })

abbrev payment_of : PaymentHash → Payment crates.payment_log
payment_of h = fresh_payment list_log (record new_payment { payment_hash = h })

-- An environment with a row for every hash, which finds the recipient's invoice at this gateway.
abbrev local : World crates
local = record calm {
  find_invoice = λ tr h. ok (invoice_of h);
  find_payment = λ tr h. ok (payment_of h);
  maybe_find_invoice = λ tr h. ok (some (invoice_of h));
}

local-FindsByHash : FindsByHash local
unfolding fresh_invoice fresh_payment
local-FindsByHash = record {
  invoices =
      λ tr h inv e. let same : invoice_of h ≡ inv = cc in ap (λ i. i.payment_hash) (sym same);
  payments = λ tr h p e. let same : payment_of h ≡ p = cc in ap (λ i. i.payment_hash) (sym same);
}

abbrev request : SendPaymentRequest
request = record {
  caller_auth = record { jwt = "jwt"; sub = "alice" };
  wallet_id = "wallet-a";
  payment_request = "lnbc50n1";
  memo = none;
}

local_found : FindsStanding local
unfolding fresh_invoice
local_found tr h inv e =
    let same : invoice_of h ≡ inv = cc in
    (
      ap (λ i. i.payment_hash) (sym same),
      issued,
      rw same at (fresh-Shows list_log (record new_invoice { payment_hash = h })),
    )

send_payment-IsAnnounced_example : IsAnnounced (send_payment local request []).1
send_payment-IsAnnounced_example = send_payment-IsAnnounced local request [] local_found tt

abbrev recipient : Invoice crates.invoice_log
recipient = fresh_invoice list_log new_invoice

receiving-IsAnnounced_example :
    IsAnnounced (handle_invoice_update local invoice_update []).1
    × IsAnnounced (settle_hold_invoice local some_hash []).1
    × IsAnnounced (reconcile_held_invoice local some_hash []).1
receiving-IsAnnounced_example =
    receiving-IsAnnounced local local-FindsByHash invoice_update some_hash [] tt

receiving-IsReleased_example :
    IsReleased calm (handle_invoice_update calm invoice_update []).1
    × IsReleased calm (settle_hold_invoice calm some_hash []).1
    × IsReleased calm (reconcile_held_invoice calm some_hash []).1
receiving-IsReleased_example = receiving-IsReleased calm invoice_update some_hash [] tt

tracking-IsAnnounced_example :
    IsAnnounced (handle_payment_update local paid_response []).1
    × IsAnnounced (sweep_orphan_holds local 600_000 10 []).1
tracking-IsAnnounced_example =
    tracking-IsAnnounced local local-FindsByHash paid_response 600_000 10 [] tt

sweep_undecided_example : count_writes (sweep_orphan_holds calm 600_000 10 []).1 ≡ 0
sweep_undecided_example = (sweep_undecided calm 600_000 10 [] (λ tr h. refl)).0

-- An environment where the call of LND fails, and where the payment that failed is found.
abbrev failed_payment : Payment crates.payment_log
failed_payment = run list_log (fails timeout 3_000 ∷ []) (fresh_payment list_log new_payment)

abbrev broken : World crates
broken = record calm {
  send_payment = λ tr params. err (connect "broken pipe");
  find_payment = λ tr h. ok failed_payment;
}

abbrev params : SendPaymentParams
params = record { bolt_invoice = "lnbc50n1"; max_fee_msat = 10_000; timeout_seconds = 60 }

late_success_refused_example :
    ((handle_payment_update broken paid_response []).0
      ≡ err (returned (payment (invalid_state_transition PaymentState.failed "settle"))))
    × (count_writes (handle_payment_update broken paid_response []).1 ≡ 0)
unfolding run_status next
late_success_refused_example =
    late_success_refused broken paid_response some_preimage failed_payment false []
      (run-Shows list_log new_payment (fails timeout 3_000 ∷ [])) refl refl refl

hold_sat_covers_example :
    (5_000 + 10_000 ≤ hold_sat 5_000 10_000 * 1000)
    × (hold_sat 5_000 10_000 * 1000 < 5_000 + 10_000 + 1000)
hold_sat_covers_example = hold_sat_covers 5_000 10_000 (ground arith)

abbrev payment_or :
    Payment crates.payment_log
    → Result Stop (Payment crates.payment_log)
    → Payment crates.payment_log
payment_or p (ok q) = q
payment_or p (err e) = p

abbrev failed_one : Payment crates.payment_log
failed_one = payment_or failed_payment (send_payment broken request []).0

broken_answers : (send_payment broken request []).0 ≡ ok failed_one
unfolding send_payment check_wallet_ownership decode_bolt11 route send_external send_new
    persist_intent authorize_then_send send_over_lnd fail_inline commit_failed fail mark_pending
    fresh_payment into_events try_new max_for round_up_to_sat_wrapping whole_sat
broken_answers = refl

send_error_failed_example : failed_one.state ≡ PaymentState.failed
send_error_failed_example =
    send_error_failed broken (λ tr p. (connect "broken pipe", refl)) request failed_one []
      (λ tr h. refl) broken_answers

abbrev invoice_request : NewInvoiceRequest
invoice_request = record {
  caller_auth = record { jwt = "jwt"; sub = "bob" };
  wallet_id = "wallet-b";
  amount_msat = 5_000;
  expiry_seconds = 3_600;
  memo = none;
  external_id = some "order-7";
}

create_invoice-IsIssued_example : IsIssued (create_invoice calm live invoice_request []).1
create_invoice-IsIssued_example = create_invoice-IsIssued calm live invoice_request [] tt
