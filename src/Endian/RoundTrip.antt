-- ===== src/Endian/RoundTrip.antt =====
-- Decoding is the sum of the weighted bytes, and inverts encoding at every width.
use hazelnet.Base.{ℕ, ◌+◌, ◌*◌, ◌%◌, ◌^◌, ◌<◌, ◌≡◌, refl, ◌∙◌, List, [], ◌∷◌, arith}
use hazelnet.Base.Bits.{bit_or-low_high, bit_or-high_low}
use hazelnet.Endian.{byte_of, encode_le24, decode_le16, decode_le24, decode_le32}

module _ (a b c d : ℕ) (ha : a < 256) (hb : b < 256) (hc : c < 256) where
  pub decode_le16-bytes : (rest : List ℕ) → decode_le16 (a ∷ b ∷ rest) ≡ a + b * 2 ^ 8
  unfolding decode_le16
  decode_le16-bytes rest = omega (arith, bit_or-high_low 8 b a (omega arith))

  pub decode_le24-bytes :
      (rest : List ℕ) → decode_le24 (a ∷ b ∷ c ∷ rest) ≡ a + b * 2 ^ 8 + c * 2 ^ 16
  unfolding decode_le24
  decode_le24-bytes rest =
      rw (bit_or-low_high 8 a b (omega arith), bit_or-low_high 16 (a + b * 2 ^ 8) c (omega arith))
        refl

  pub decode_le32-bytes :
      (rest : List ℕ) → decode_le32 (a ∷ b ∷ c ∷ d ∷ rest) ≡ a + b * 2 ^ 8 + c * 2 ^ 16 + d * 2 ^ 24
  unfolding decode_le32
  decode_le32-bytes rest =
      rw
        (
          bit_or-low_high 8 a b (omega arith),
          bit_or-low_high 16 (a + b * 2 ^ 8) c (omega arith),
          bit_or-low_high 24 (a + b * 2 ^ 8 + c * 2 ^ 16) d (omega arith),
        )
        refl

-- Decoding the 24 bits of an encoded counter nonce gives it back modulo 2 ^ 24.
pub decode_le24-encode_le24 : (v : ℕ) → decode_le24 (encode_le24 v) ≡ v % 2 ^ 24
unfolding encode_le24
decode_le24-encode_le24 v =
    decode_le24-bytes (byte_of v 0) (byte_of v 8) (byte_of v 16) 0 (omega arith) (omega arith)
      (omega arith) []
    ∙ omega arith
