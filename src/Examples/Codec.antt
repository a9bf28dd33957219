-- ===== src/Examples/Codec.antt =====
-- A hex codec over native texts, which has the law that `HexCodec` asks of the `hex` crate, and the
-- theorems on hex texts at it.
use Prim.Native.String.{[] as empty, ◌∷◌ as cons}
use Prim.Native.Char.{Char, code}
use blink_lightning_gateway.Base.{
  ℕ, zero, suc, ◌+◌, ◌-◌, ◌*◌, ◌/◌, ◌%◌, ◌<◌, ◌≡◌, refl, List, [], ◌∷◌, String, Result, ok, err,
  All, arith, leb, if◌then◌else◌,
}
use blink_lightning_gateway.Primitives.Hex.{PaymentHash, Preimage, Pubkey, HexCodec}

digit : ℕ → Char
digit zero = "0"
digit (suc zero) = "1"
digit (suc (suc zero)) = "2"
digit (suc (suc (suc zero))) = "3"
digit (suc (suc (suc (suc zero)))) = "4"
digit (suc (suc (suc (suc (suc zero))))) = "5"
digit (suc (suc (suc (suc (suc (suc zero)))))) = "6"
digit (suc (suc (suc (suc (suc (suc (suc zero))))))) = "7"
digit (suc (suc (suc (suc (suc (suc (suc (suc zero)))))))) = "8"
digit (suc (suc (suc (suc (suc (suc (suc (suc (suc zero))))))))) = "9"
digit (suc (suc (suc (suc (suc (suc (suc (suc (suc (suc zero)))))))))) = "a"
digit (suc (suc (suc (suc (suc (suc (suc (suc (suc (suc (suc zero))))))))))) = "b"
digit (suc (suc (suc (suc (suc (suc (suc (suc (suc (suc (suc (suc zero)))))))))))) = "c"
digit (suc (suc (suc (suc (suc (suc (suc (suc (suc (suc (suc (suc (suc zero))))))))))))) = "d"
digit (suc (suc (suc (suc (suc (suc (suc (suc (suc (suc (suc (suc (suc (suc zero)))))))))))))) = "e"
digit _ = "f"

abbrev value : Char → ℕ
value c = if leb 97 (code c) then code c - 87 else code c - 48

value-digit : (n : ℕ) → n < 16 → value (digit n) ≡ n
unfolding digit
value-digit zero h = refl
value-digit (suc zero) h = refl
value-digit (suc (suc zero)) h = refl
value-digit (suc (suc (suc zero))) h = refl
value-digit (suc (suc (suc (suc zero)))) h = refl
value-digit (suc (suc (suc (suc (suc zero))))) h = refl
value-digit (suc (suc (suc (suc (suc (suc zero)))))) h = refl
value-digit (suc (suc (suc (suc (suc (suc (suc zero))))))) h = refl
value-digit (suc (suc (suc (suc (suc (suc (suc (suc zero)))))))) h = refl
value-digit (suc (suc (suc (suc (suc (suc (suc (suc (suc zero))))))))) h = refl
value-digit (suc (suc (suc (suc (suc (suc (suc (suc (suc (suc zero)))))))))) h = refl
value-digit (suc (suc (suc (suc (suc (suc (suc (suc (suc (suc (suc zero))))))))))) h = refl
value-digit (suc (suc (suc (suc (suc (suc (suc (suc (suc (suc (suc (suc zero)))))))))))) h = refl
value-digit (suc (suc (suc (suc (suc (suc (suc (suc (suc (suc (suc (suc (suc zero))))))))))))) h =
    refl
value-digit (suc (suc (suc (suc (suc (suc (suc (suc (suc (suc (suc (suc (suc (suc zero))))))))))))))
      h =
    refl
value-digit
      (suc (suc (suc (suc (suc (suc (suc (suc (suc (suc (suc (suc (suc (suc (suc zero)))))))))))))))
      h =
    refl
value-digit
      (suc
        (suc (suc (suc (suc (suc (suc (suc (suc (suc (suc (suc (suc (suc (suc (suc n))))))))))))))))
      h =
    absurd (omega (arith, h))

unfoldable pub hex_encode : List ℕ → String
unfolding digit
hex_encode [] = empty
hex_encode (b ∷ bs) = cons (digit (b / 16)) (cons (digit (b % 16)) (hex_encode bs))

abbrev with_byte : ℕ → Result String (List ℕ) → Result String (List ℕ)
with_byte b (ok bs) = ok (b ∷ bs)
with_byte b (err e) = err e

unfoldable pub hex_decode : String → Result String (List ℕ)
hex_decode empty = ok []
hex_decode (cons c empty) = err "odd length"
hex_decode (cons c (cons d s)) = with_byte (value c * 16 + value d) (hex_decode s)

pub hex_decode-encode : (bs : List ℕ) → All (λ b. b < 256) bs → hex_decode (hex_encode bs) ≡ ok bs
unfolding hex_encode hex_decode
hex_decode-encode [] h = refl
hex_decode-encode (b ∷ bs) (h, hs) =
    ground (arith, value-digit (b / 16), value-digit (b % 16), hex_decode-encode bs hs)

abbrev pub hex_codec : HexCodec
hex_codec = record {
  FromHexError = String;
  encode = hex_encode;
  decode = hex_decode;
  decode-encode = hex_decode-encode;
}

abbrev bytes_32 : List ℕ
bytes_32 =
    0xab ∷ 1 ∷ 2 ∷ 3 ∷ 4 ∷ 5 ∷ 6 ∷ 7 ∷ 8 ∷ 9 ∷ 10 ∷ 11 ∷ 12 ∷ 13 ∷ 14 ∷ 15 ∷ 16 ∷ 17 ∷ 18 ∷ 19 ∷ 20
    ∷ 21 ∷ 22 ∷ 23 ∷ 24 ∷ 25 ∷ 26 ∷ 27 ∷ 28 ∷ 29 ∷ 30 ∷ 255 ∷ []

abbrev pub some_hash : PaymentHash
some_hash = record { bytes = bytes_32 }

abbrev pub some_preimage : Preimage
some_preimage = record { bytes = bytes_32 }

abbrev some_key : Pubkey
some_key = record { bytes = 2 ∷ bytes_32 }
