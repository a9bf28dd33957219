-- ===== src/Primitives/Hex.antt =====
-- src/primitives/preimage.rs, payment_hash.rs and pubkey.rs: byte arrays of a fixed size, printed as
-- hex. The `hex` crate and the SHA-256 of the `sha2` crate are parameters.
pub mod RoundTrip
use blink_lightning_gateway.Base.{
  ℕ, ◌<◌, ◌≡◌, ◌↔◌, Bool, true, false, ◌&&◌, List, [], ◌∷◌, String, Result, ok, err, All, length,
  arith, ◌==◌, if◌then◌else◌,
}

pub record PaymentHash : Type 0 where
  pub bytes : List ℕ

pub record Preimage : Type 0 where
  pub bytes : List ℕ

pub record Pubkey : Type 0 where
  pub bytes : List ℕ

-- A Rust array `[u8; n]`.
abbrev pub IsArray : ℕ → List ℕ → Type 0
IsArray n bs = (length bs ≡ n) × All (λ b. b < 256) bs

abbrev pub bytes_eq : List ℕ → List ℕ → Bool
bytes_eq [] [] = true
bytes_eq [] (b ∷ bs) = false
bytes_eq (a ∷ as') [] = false
bytes_eq (a ∷ as') (b ∷ bs) = (a == b) && bytes_eq as' bs

-- The derived `PartialEq` of `PaymentHash`.
unfoldable pub hash_eq : PaymentHash → PaymentHash → Bool
hash_eq h k = bytes_eq h.bytes k.bytes

bytes_eq→eq : (as' bs : List ℕ) → bytes_eq as' bs ≡ true → as' ≡ bs
bytes_eq→eq [] [] h = ground arith
bytes_eq→eq [] (b ∷ bs) h = cc
bytes_eq→eq (a ∷ as') [] h = cc
bytes_eq→eq (a ∷ as') (b ∷ bs) h = ground (arith, bytes_eq→eq as' bs)

bytes_eq_refl : (bs : List ℕ) → bytes_eq bs bs ≡ true
bytes_eq_refl [] = ground arith
bytes_eq_refl (b ∷ bs) = ground (arith, bytes_eq_refl bs)

pub hash_eq→eq : (h k : PaymentHash) → hash_eq h k ≡ true → h ≡ k
unfolding hash_eq
hash_eq→eq h k e = ground (arith, bytes_eq→eq h.bytes k.bytes)

pub hash_eq_refl : (h : PaymentHash) → hash_eq h h ≡ true
unfolding hash_eq
hash_eq_refl h = bytes_eq_refl h.bytes

-- What the code uses of the `hex` crate: decoding inverts encoding.
pub record HexCodec : Type 1 where
  pub FromHexError : Type 0
  pub encode : List ℕ → String
  pub decode : String → Result FromHexError (List ℕ)
  pub decode-encode : (bs : List ℕ) → All (λ b. b < 256) bs → decode (encode bs) ≡ ok bs

-- `PaymentHashError`, `PreimageError` and `PubkeyError` have the same two variants.
pub data ArrayError (FromHexError : Type 0) : Type 0 where
  hex_error : FromHexError → ArrayError FromHexError
  invalid_length : ℕ → ArrayError FromHexError

-- `bytes.try_into()` at an array type of `n` bytes.
abbrev pub try_into_array {ℓ} :
    {T : Type ℓ} {E : Type 0} → ℕ → (List ℕ → T) → List ℕ → Result (ArrayError E) T
try_into_array n wrap bs = if length bs == n then ok (wrap bs) else err (invalid_length (length bs))

module _ (hex : HexCodec) where
  open hex use {FromHexError, encode, decode}

  abbrev from_hex {ℓ} :
      {T : Type ℓ} → ℕ → (List ℕ → T) → String → Result (ArrayError FromHexError) T
  from_hex n wrap s = elim (decode s) [
    | err e ↦ err (hex_error e)
    | ok bs ↦ try_into_array n wrap bs
  ]

  unfoldable pub hash_to_hex : PaymentHash → String
  hash_to_hex h = encode h.bytes

  unfoldable pub hash_from_str : String → Result (ArrayError FromHexError) PaymentHash
  hash_from_str s = from_hex 32 (λ bs. record { bytes = bs }) s

  unfoldable pub preimage_to_hex : Preimage → String
  preimage_to_hex p = encode p.bytes

  unfoldable pub preimage_from_str : String → Result (ArrayError FromHexError) Preimage
  preimage_from_str s = from_hex 32 (λ bs. record { bytes = bs }) s

  unfoldable pub pubkey_to_hex : Pubkey → String
  pubkey_to_hex k = encode k.bytes

  unfoldable pub pubkey_from_str : String → Result (ArrayError FromHexError) Pubkey
  pubkey_from_str s = from_hex 33 (λ bs. record { bytes = bs }) s

-- `Preimage::payment_hash`, over the digest of `sha2`.
unfoldable pub payment_hash : (List ℕ → List ℕ) → Preimage → PaymentHash
payment_hash sha256 p = record { bytes = sha256 p.bytes }
