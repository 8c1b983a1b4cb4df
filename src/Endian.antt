-- ===== src/Endian.antt =====
-- src/common/hzl_CommonEndian.c: little-endian encoding of integers. An encoder gives the bytes
-- that it writes; `(uint8_t) (value >> k)` is `value / 2 ^ k % 256`.
pub mod RoundTrip
pub mod Wide
use Prim.Native.Nat.{bit_or}
use hazelnet.Base.{ℕ, ◌*◌, ◌/◌, ◌%◌, ◌^◌, List, [], ◌∷◌, get_or}

-- The low byte of `value >> k`.
abbrev pub byte_of : ℕ → ℕ → ℕ
byte_of value k = value / 2 ^ k % 256

-- `((uintN_t) encoded[i]) << k`, in a type that holds it.
abbrev pub shifted : List ℕ → ℕ → ℕ → ℕ
shifted encoded i k = get_or encoded i 0 * 2 ^ k

unfoldable pub encode_le8 : ℕ → List ℕ
encode_le8 value = value ∷ []

unfoldable pub encode_le16 : ℕ → List ℕ
encode_le16 value = byte_of value 0 ∷ byte_of value 8 ∷ []

unfoldable pub encode_le24 : ℕ → List ℕ
encode_le24 value = byte_of value 0 ∷ byte_of value 8 ∷ byte_of value 16 ∷ []

unfoldable pub encode_le32 : ℕ → List ℕ
encode_le32 value = byte_of value 0 ∷ byte_of value 8 ∷ byte_of value 16 ∷ byte_of value 24 ∷ []

unfoldable pub encode_le64 : ℕ → List ℕ
encode_le64 value =
    byte_of value 0
    ∷ byte_of value 8
    ∷ byte_of value 16
    ∷ byte_of value 24
    ∷ byte_of value 32
    ∷ byte_of value 40
    ∷ byte_of value 48
    ∷ byte_of value 56
    ∷ []

unfoldable pub decode_le8 : List ℕ → ℕ
decode_le8 encoded = get_or encoded 0 0

unfoldable pub decode_le16 : List ℕ → ℕ
decode_le16 encoded = bit_or (shifted encoded 1 8) (get_or encoded 0 0) % 2 ^ 16

unfoldable pub decode_le24 : List ℕ → ℕ
decode_le24 encoded =
    let value = get_or encoded 0 0 in
    let value = bit_or value (shifted encoded 1 8) in bit_or value (shifted encoded 2 16)

unfoldable pub decode_le32 : List ℕ → ℕ
decode_le32 encoded =
    let value = get_or encoded 0 0 in
    let value = bit_or value (shifted encoded 1 8) in
    let value = bit_or value (shifted encoded 2 16) in bit_or value (shifted encoded 3 24)

unfoldable pub decode_le64 : List ℕ → ℕ
decode_le64 encoded =
    let value = get_or encoded 0 0 in
    let value = bit_or value (shifted encoded 1 8) in
    let value = bit_or value (shifted encoded 2 16) in
    let value = bit_or value (shifted encoded 3 24) in
    let value = bit_or value (shifted encoded 4 32) in
    let value = bit_or value (shifted encoded 5 40) in
    let value = bit_or value (shifted encoded 6 48) in bit_or value (shifted encoded 7 56)
