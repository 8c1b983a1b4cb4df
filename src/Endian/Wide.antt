-- ===== src/Endian/Wide.antt =====
-- The encodings of 16, 32 and 64 bits: decoding inverts encoding, and encoding inverts decoding.
use hazelnet.Base.{ℕ, ◌+◌, ◌*◌, ◌%◌, ◌^◌, ◌<◌, ◌≡◌, refl, ◌∙◌, List, [], ◌∷◌, arith}
use hazelnet.Base.{length}
use hazelnet.Base.All.{All}
use hazelnet.Base.Bits.{bit_or-low_high}
use hazelnet.Endian.{
  byte_of, encode_le16, encode_le32, encode_le64, decode_le16, decode_le32, decode_le64,
}
use hazelnet.Endian.RoundTrip.{decode_le16-bytes, decode_le32-bytes}

-- Eight bytes, each below 256.
pub record AreBytes (a b c d e f g h : ℕ) : Type 0 where
  pub a_fits : a < 256
  pub b_fits : b < 256
  pub c_fits : c < 256
  pub d_fits : d < 256
  pub e_fits : e < 256
  pub f_fits : f < 256
  pub g_fits : g < 256
  pub h_fits : h < 256

module _ (a b c d e f g h : ℕ) (bytes : AreBytes a b c d e f g h) where
  pub decode_le64-bytes :
      (rest : List ℕ)
      → decode_le64 (a ∷ b ∷ c ∷ d ∷ e ∷ f ∷ g ∷ h ∷ rest)
        ≡ a
          + b * 2 ^ 8
          + c * 2 ^ 16
          + d * 2 ^ 24
          + e * 2 ^ 32
          + f * 2 ^ 40
          + g * 2 ^ 48
          + h * 2 ^ 56
  unfolding decode_le64
  decode_le64-bytes rest =
      rw
        (
          bit_or-low_high 8 a b (omega arith),
          bit_or-low_high 16 (a + b * 2 ^ 8) c (omega arith),
          bit_or-low_high 24 (a + b * 2 ^ 8 + c * 2 ^ 16) d (omega arith),
          bit_or-low_high 32 (a + b * 2 ^ 8 + c * 2 ^ 16 + d * 2 ^ 24) e (omega arith),
          bit_or-low_high 40 (a + b * 2 ^ 8 + c * 2 ^ 16 + d * 2 ^ 24 + e * 2 ^ 32) f (omega arith),
          bit_or-low_high 48 (a + b * 2 ^ 8 + c * 2 ^ 16 + d * 2 ^ 24 + e * 2 ^ 32 + f * 2 ^ 40) g
              (omega arith),
          bit_or-low_high 56
              (a + b * 2 ^ 8 + c * 2 ^ 16 + d * 2 ^ 24 + e * 2 ^ 32 + f * 2 ^ 40 + g * 2 ^ 48) h
              (omega arith),
        )
        refl

  -- The eight bytes come back from the number that they encode.
  pub encode_le64-decode_le64 :
      encode_le64 (decode_le64 (a ∷ b ∷ c ∷ d ∷ e ∷ f ∷ g ∷ h ∷ []))
      ≡ a ∷ b ∷ c ∷ d ∷ e ∷ f ∷ g ∷ h ∷ []
  unfolding encode_le64
  encode_le64-decode_le64 = rw (decode_le64-bytes []) (ground arith)

-- Decoding the encoding of a number gives its low 64 bits.
pub decode_le64-encode_le64 : (v : ℕ) → decode_le64 (encode_le64 v) ≡ v % 2 ^ 64
unfolding encode_le64
decode_le64-encode_le64 v =
    decode_le64-bytes (byte_of v 0) (byte_of v 8) (byte_of v 16) (byte_of v 24) (byte_of v 32)
      (byte_of v 40) (byte_of v 48) (byte_of v 56) (omega arith) []
    ∙ omega arith

pub decode_le32-encode_le32 : (v : ℕ) → decode_le32 (encode_le32 v) ≡ v % 2 ^ 32
unfolding encode_le32
decode_le32-encode_le32 v =
    decode_le32-bytes (byte_of v 0) (byte_of v 8) (byte_of v 16) (byte_of v 24) (omega arith)
      (omega arith) (omega arith) []
    ∙ omega arith

pub decode_le16-encode_le16 : (v : ℕ) → decode_le16 (encode_le16 v) ≡ v % 2 ^ 16
unfolding encode_le16
decode_le16-encode_le16 v =
    decode_le16-bytes (byte_of v 0) (byte_of v 8) 0 0 (omega arith) (omega arith) (omega arith) []
    ∙ omega arith

-- Eight bytes come back from the number that they encode.
pub encode_le64-decode_le64_of_length :
    (xs : List ℕ) → length xs ≡ 8 → All (λ x. x < 256) xs → encode_le64 (decode_le64 xs) ≡ xs
encode_le64-decode_le64_of_length ([]) len w = absurd (omega arith)
encode_le64-decode_le64_of_length (a ∷ []) len w = absurd (omega arith)
encode_le64-decode_le64_of_length (a ∷ b ∷ []) len w = absurd (omega arith)
encode_le64-decode_le64_of_length (a ∷ b ∷ c ∷ []) len w = absurd (omega arith)
encode_le64-decode_le64_of_length (a ∷ b ∷ c ∷ d ∷ []) len w = absurd (omega arith)
encode_le64-decode_le64_of_length (a ∷ b ∷ c ∷ d ∷ e ∷ []) len w = absurd (omega arith)
encode_le64-decode_le64_of_length (a ∷ b ∷ c ∷ d ∷ e ∷ f ∷ []) len w = absurd (omega arith)
encode_le64-decode_le64_of_length (a ∷ b ∷ c ∷ d ∷ e ∷ f ∷ g ∷ []) len w = absurd (omega arith)
encode_le64-decode_le64_of_length (a ∷ b ∷ c ∷ d ∷ e ∷ f ∷ g ∷ h ∷ []) len w =
    encode_le64-decode_le64 a b c d e f g h (omega (arith, w))
encode_le64-decode_le64_of_length (a ∷ b ∷ c ∷ d ∷ e ∷ f ∷ g ∷ h ∷ i ∷ rest) len w =
    absurd (omega arith)
