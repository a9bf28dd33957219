-- ===== src/App/CommitLaws.antt =====
-- The four commits announce what they change.
use blink_lightning_gateway.Base.{◌≡◌, List, arith}
use blink_lightning_gateway.Primitives.Amount.{MilliSatoshi, ℤ}
use blink_lightning_gateway.Primitives.Hex.{PaymentHash, Preimage}
use blink_lightning_gateway.Primitives.Types.{Timestamp}
use blink_lightning_gateway.Invoice.Event.{CancelReason}
use blink_lightning_gateway.Invoice.Entity as Invoices
use blink_lightning_gateway.Invoice.Entity.{Invoice, cancel}
use blink_lightning_gateway.Payment.Event.{FailureReason, Hop}
use blink_lightning_gateway.Payment.Entity as Payments
use blink_lightning_gateway.Payment.Entity.{Payment, fail}
use blink_lightning_gateway.App.World.{Crates, World, Trace}
use blink_lightning_gateway.App.Commit.{
  commit_settle, commit_cancel, commit_completed, commit_failed,
}
use blink_lightning_gateway.App.Announced.{IsAnnounced}

module _ {c : Crates} (w : World c) where
  pub commit_settle-IsAnnounced :
      (inv : Invoice c.invoice_log) (h : PaymentHash) (a : MilliSatoshi) (tr : Trace c)
      → inv.payment_hash ≡ h
      → IsAnnounced tr
      → IsAnnounced (commit_settle w inv h a tr).1
  unfolding commit_settle Invoices.settle
  commit_settle-IsAnnounced inv h a tr e k = ground arith

  pub commit_cancel-IsAnnounced :
      (inv : Invoice c.invoice_log) (h : PaymentHash) (r : CancelReason) (a : MilliSatoshi)
      (tr : Trace c)
      → inv.payment_hash ≡ h
      → IsAnnounced tr
      → IsAnnounced (commit_cancel w inv h r a tr).1
  unfolding commit_cancel cancel
  commit_cancel-IsAnnounced inv h r a tr e k = ground arith

  pub commit_completed-IsAnnounced :
      (p : Payment c.payment_log) (h : PaymentHash) (z : ℤ) (pre : Preimage) (fee : MilliSatoshi)
      (hops : List Hop) (t : Timestamp) (tr : Trace c)
      → p.payment_hash ≡ h
      → IsAnnounced tr
      → IsAnnounced (commit_completed w p h z pre fee hops t tr).1
  unfolding commit_completed Payments.settle
  commit_completed-IsAnnounced p h z pre fee hops t tr e k = ground arith

  pub commit_failed-IsAnnounced :
      (p : Payment c.payment_log) (h : PaymentHash) (z : ℤ) (r : FailureReason) (t : Timestamp)
      (tr : Trace c)
      → p.payment_hash ≡ h
      → IsAnnounced tr
      → IsAnnounced (commit_failed w p h z r t tr).1
  unfolding commit_failed fail
  commit_failed-IsAnnounced p h z r t tr e k = ground arith
