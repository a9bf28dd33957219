-- ===== src/Primitives/Hex/RoundTrip.antt =====
-- Printing and parsing of the byte arrays.
use blink_lightning_gateway.Base.{ℕ, ◌≡◌, ◌≢◌, List, String, ok, err, length, arith}
use blink_lightning_gateway.Primitives.Hex.{
  PaymentHash, Preimage, Pubkey, HexCodec, invalid_length, IsArray, hash_to_hex, hash_from_str,
  preimage_to_hex, preimage_from_str, pubkey_to_hex, pubkey_from_str,
}

module _ (hex : HexCodec) where
  -- Each of the three kinds of byte array is read back from its hex text: a payment hash, a preimage
  -- (32 bytes each) and a public key (33 bytes), whatever codec decodes what it has encoded.
  pub from_str-to_hex :
      (h : PaymentHash) (p : Preimage) (k : Pubkey)
      → IsArray 32 h.bytes
      → IsArray 32 p.bytes
      → IsArray 33 k.bytes
      → (hash_from_str hex (hash_to_hex hex h) ≡ ok h)
        × (preimage_from_str hex (preimage_to_hex hex p) ≡ ok p)
        × (pubkey_from_str hex (pubkey_to_hex hex k) ≡ ok k)
  unfolding hash_from_str hash_to_hex preimage_from_str preimage_to_hex pubkey_from_str
      pubkey_to_hex
  from_str-to_hex h p k ah ap ak = ground (
    arith,
    hex.decode-encode h.bytes ah.1,
    hex.decode-encode p.bytes ap.1,
    hex.decode-encode k.bytes ak.1,
  )

  -- A text is a payment hash exactly when the codec decodes it to 32 bytes; those are its bytes, and
  -- any other length is refused with that length.
  pub hash_from_str_cases :
      (s : String)
      → (bs : List ℕ) → hex.decode s ≡ ok bs
      → ((length bs ≡ 32) → hash_from_str hex s ≡ ok (record { bytes = bs }))
        × ((length bs ≢ 32) → hash_from_str hex s ≡ err (invalid_length (length bs)))
  unfolding hash_from_str
  hash_from_str_cases s bs e = (λ l. ground arith, λ l. ground arith)
