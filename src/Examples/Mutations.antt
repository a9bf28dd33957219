-- ===== src/Examples/Mutations.antt =====
-- The theorem on the payload of a new invoice, over a calm environment.
use blink_lightning_gateway.Base.{some, none, [], arith}
use blink_lightning_gateway.Wallet.Ownership.{CallerAuth}
use blink_lightning_gateway.App.Issue.{live}
use blink_lightning_gateway.Api.Mutation.{LnInvoiceCreateInput, ln_invoice_create}
use blink_lightning_gateway.Api.MutationLaws.{IsAnswered, ln_invoice_create-IsAnswered}
use blink_lightning_gateway.Examples.Apps.{calm}

abbrev create_input : LnInvoiceCreateInput
create_input = record {
  amount = 5;
  expires_in = some 60;
  external_id = some "order-7";
  memo = none;
  wallet_id = "wallet-b";
}

abbrev bob : CallerAuth
bob = record { jwt = "jwt"; sub = "bob" }

ln_invoice_create-IsAnswered_example :
    (let r = ln_invoice_create (λ e. "refused") calm live bob create_input [] in
      IsAnswered 5 r.0 r.1)
ln_invoice_create-IsAnswered_example =
    ln_invoice_create-IsAnswered (λ e. "refused") calm live bob create_input [] (omega arith)
