-- ===== src/App/Error.antt =====
-- src/app/error.rs: the errors of the use cases.
use blink_lightning_gateway.Base.{String}
use blink_lightning_gateway.Invoice.Event.{InvoiceError}
use blink_lightning_gateway.Payment.Event.{PaymentError}
use blink_lightning_gateway.Lnd.Types.{LndError}
use blink_lightning_gateway.Symphony.Client.{SymphonyError}

pub data AppError : Type 0 where
  invoice : InvoiceError → AppError
  payment : PaymentError → AppError
  lnd : LndError → AppError
  outbox : String → AppError
  symphony : SymphonyError → AppError
  db : String → AppError
  invalid_bolt_invoice : String → AppError
  wallet_ownership : String → AppError

-- How a use case ends early: by an error that it returns, or by a panic.
pub data Stop : Type 0 where
  returned : AppError → Stop
  panicked : String → Stop
