-- ===== src/Lnd/WireLaws.antt =====
-- What the use cases can rely on in a message of LND that was read.
use blink_lightning_gateway.Lnd.Wire.{preimage_of_bytes}
use blink_lightning_gateway.Lnd.Types.{InvoiceUpdate}
use blink_lightning_gateway.Lnd.Wire.{
  LndInvoice, LndPayment, Lnrpc, fee_or_zero, lnd_invoice_to_update, lnd_payment_to_send_response,
  map_invoice_state, parse_preimage,
}
use blink_lightning_gateway.Primitives.Amount.{
  pos, negsuc, i64_max, round_up_to_sat, round_up_to_sat_wrapping, try_from,
}
use blink_lightning_gateway.Primitives.Hex.{HexCodec, Preimage, hash_from_str, preimage_from_str}
use blink_lightning_gateway.Base.{
  ℕ, ◌≡◌, ◌≢◌, ◌↔◌, ◌≤◌, refl, none, some, String, ok, length, arith,
}
use blink_lightning_gateway.Lnd.Types.{SendPaymentResponse, SendPaymentStatus}

fee_or_zero_pos : (n : ℕ) → n ≤ i64_max → fee_or_zero (pos n) ≡ round_up_to_sat n
unfolding fee_or_zero try_from round_up_to_sat_wrapping round_up_to_sat
fee_or_zero_pos n h = omega (arith, h)

fee_or_zero_negsuc : (n : ℕ) → fee_or_zero (negsuc n) ≡ 0
unfolding fee_or_zero try_from round_up_to_sat_wrapping
fee_or_zero_negsuc n = refl

module _ {hex : HexCodec} (rpc : Lnrpc hex) where
  parse_preimage_read :
      (s : String) (q : Preimage) → parse_preimage rpc s ≡ some q → preimage_from_str hex s ≡ ok q
  unfolding parse_preimage
  parse_preimage_read s q e = ground arith

  -- A payment of LND that is read: its hash is that of the text; a preimage, where there is one, is that
  -- of the text; there is a failure reason exactly if it failed; the fee is rounded up to whole satoshis,
  -- and a negative one, which LND has been seen to send, is zero.
  pub payment_response_read :
      (p : LndPayment) (r : SendPaymentResponse)
      → lnd_payment_to_send_response rpc p ≡ ok r
      → (hash_from_str hex p.payment_hash ≡ ok r.payment_hash)
        × ((q : Preimage)
            → r.payment_preimage ≡ some q
            → preimage_from_str hex p.payment_preimage ≡ ok q)
        × ((r.failure_reason ≢ none) ↔ (r.status ≡ SendPaymentStatus.failed))
        × ((n : ℕ) → p.fee_msat ≡ pos n → n ≤ i64_max → r.fees_paid_msat ≡ round_up_to_sat n)
        × ((n : ℕ) → p.fee_msat ≡ negsuc n → r.fees_paid_msat ≡ 0)
  unfolding lnd_payment_to_send_response
  payment_response_read p r e = (
    ground arith,
    λ q h. ground (arith, parse_preimage_read p.payment_preimage q),
    (λ h. ground arith, λ h. ground arith),
    λ n h b. ground (arith, fee_or_zero_pos n b),
    λ n h. ground (arith, fee_or_zero_negsuc n),
  )

  -- An invoice of LND is read exactly if its hash has 32 bytes, its state is known and its paid amount
  -- is not negative; these are then the parts of the update, with a preimage if there are 32 bytes of
  -- one.
  pub invoice_update_iff :
      (i : LndInvoice) (u : InvoiceUpdate)
      → (lnd_invoice_to_update rpc i ≡ ok u) ↔ (
          (length i.r_hash ≡ 32)
          × (rpc.invoice_state i.state ≡ some u.state)
          × (i.amt_paid_msat ≡ pos u.amt_paid_msat)
          × (u.payment_hash ≡ record { bytes = i.r_hash })
          × (u.payment_preimage ≡ preimage_of_bytes rpc i.r_preimage))
  unfolding lnd_invoice_to_update map_invoice_state
  invoice_update_iff i u = (λ e. ground arith, λ h. ground arith)
