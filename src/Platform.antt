-- ===== src/Platform.antt =====
-- What the library calls and does not implement: the Ascon AEAD and hash of the submodule LibAscon,
-- the `float` arithmetic of the C platform, and the callbacks `hzl_Io_t`. The first two are abstract
-- types with operations; what the code relies on of them is the record of laws of each.
-- Also the wrappers of src/common/hzl_CommonAead.c and src/common/hzl_CommonHash.c.
use hazelnet.Base.{
  ℕ, ◌+◌, ◌≡◌, ◌<◌, ◌≤◌, ◌^◌, ◌↔◌, Bool, true, false, List, ◌++◌, length, if◌then◌else◌,
}
use hazelnet.Err.{Err, ok, secwarn_invalid_tag}

-- The functions `ascon_aead128_*` and `ascon_hash_xof_*`. An update returns the bytes that it
-- writes beside the new context, and a final call the bytes it flushes.
pub record Ascon : Type 1 where
  pub Aead : Type 0
  pub aead128_init : List ℕ → List ℕ → Aead
  pub aead128_assoc_data_update : Aead → List ℕ → Aead
  pub aead128_encrypt_update : Aead → List ℕ → Aead × List ℕ
  pub aead128_encrypt_final : Aead → ℕ → List ℕ × List ℕ
  pub aead128_decrypt_update : Aead → List ℕ → Aead × List ℕ
  pub aead128_decrypt_final : Aead → List ℕ → List ℕ × Bool
  pub Hash : Type 0
  pub hash_xof_init : Hash
  pub hash_xof_update : Hash → List ℕ → Hash
  pub hash_xof_final : Hash → ℕ → List ℕ
  pub hash_xof_final_matches : Hash → List ℕ → Bool

-- `float` with the operations that src/common/hzl_CommonCtrDelay.c uses of it.
pub record Floats : Type 1 where
  pub Float : Type 0
  pub of_uint : ℕ → Float
  pub div : Float → Float → Float
  pub mul : Float → Float → Float
  pub sub : Float → Float → Float
  pub less : Float → Float → Bool
  pub trunc : Float → ℕ

-- The callbacks of `hzl_Io_t`. The calls of each are numbered: the n-th call of `currentTime` returns
-- the code and the timestamp `clock n`, the n-th call of `trng` for an amount the code and the bytes
-- `random n amount`. The timestamp beside an error code is never read. The bytes beside an error code
-- are those that a failing `trng` wrote: none by the documentation of `hzl_TrngFunc`, but
-- `hzl_OsTrng` leaves what it could read. So any behaviour of the callbacks is some `Callbacks`.
pub record Callbacks : Type 0 where
  pub clock : ℕ → Err × ℕ
  pub random : ℕ → ℕ → Err × List ℕ

pub record Platform : Type 1 where
  pub ascon : Ascon
  pub floats : Floats
  pub callbacks : Callbacks

-- How often each callback was called.
pub record Io : Type 0 where
  pub clock_calls : ℕ
  pub random_calls : ℕ

module _ (p : Platform) where
  -- `ctx->io.currentTime(&timestamp)`
  unfoldable pub current_time : Io → Err × ℕ × Io
  current_time io = (
    (p.callbacks.clock io.clock_calls).0,
    (p.callbacks.clock io.clock_calls).1,
    record io { clock_calls = io.clock_calls + 1 },
  )

  -- `ctx->io.trng(bytes, amount)`
  unfoldable pub trng : Io → ℕ → Err × List ℕ × Io
  trng io amount = (
    (p.callbacks.random io.random_calls amount).0,
    (p.callbacks.random io.random_calls amount).1,
    record io { random_calls = io.random_calls + 1 },
  )

module _ (p : Platform) where
  abbrev pub Aead : Type 0
  Aead = p.ascon.Aead

  abbrev pub Hash : Type 0
  Hash = p.ascon.Hash

  unfoldable pub aead_init : List ℕ → List ℕ → Aead
  aead_init key nonce = p.ascon.aead128_init key nonce

  unfoldable pub aead_assoc_data_update : Aead → List ℕ → Aead
  aead_assoc_data_update ctx assoc_data = p.ascon.aead128_assoc_data_update ctx assoc_data

  unfoldable pub aead_encrypt_update : Aead → List ℕ → Aead × List ℕ
  aead_encrypt_update ctx plaintext = p.ascon.aead128_encrypt_update ctx plaintext

  -- The rest of the ciphertext, and the tag.
  unfoldable pub aead_encrypt_finish : Aead → ℕ → List ℕ × List ℕ
  aead_encrypt_finish ctx tag_len = p.ascon.aead128_encrypt_final ctx tag_len

  unfoldable pub aead_decrypt_update : Aead → List ℕ → Aead × List ℕ
  aead_decrypt_update ctx ciphertext = p.ascon.aead128_decrypt_update ctx ciphertext

  -- The code, and the rest of the plaintext.
  unfoldable pub aead_decrypt_finish : Aead → List ℕ → Err × List ℕ
  aead_decrypt_finish ctx tag =
      let (plaintext, is_tag_valid) = p.ascon.aead128_decrypt_final ctx tag in
      (if is_tag_valid then ok else secwarn_invalid_tag, plaintext)

  unfoldable pub hash_init : Hash
  hash_init = p.ascon.hash_xof_init

  unfoldable pub hash_update : Hash → List ℕ → Hash
  hash_update ctx bytes = p.ascon.hash_xof_update ctx bytes

  unfoldable pub hash_digest : Hash → ℕ → List ℕ
  hash_digest ctx digest_len = p.ascon.hash_xof_final ctx digest_len

  unfoldable pub hash_digest_check : Hash → List ℕ → Err
  hash_digest_check ctx expected_digest =
      if p.ascon.hash_xof_final_matches ctx expected_digest then ok else secwarn_invalid_tag

-- What LibAscon documents of the AEAD: decryption under the same key, nonce and associated data
-- (the same context) gives the plaintext back and accepts the tag; the lengths of ciphertext,
-- plaintext and tag are those asked for, however much of them the update already writes.
pub record AeadLaws (a : Ascon) : Type 0 where
  pub length-encrypt :
      (c : a.Aead) (plaintext : List ℕ) (n : ℕ)
      → let (c', front) = a.aead128_encrypt_update c plaintext in
        length (front ++ (a.aead128_encrypt_final c' n).0) ≡ length plaintext
  pub length-tag : (c : a.Aead) (n : ℕ) → length (a.aead128_encrypt_final c n).1 ≡ n
  pub decrypt-encrypt :
      (c : a.Aead) (plaintext : List ℕ) (n : ℕ)
      → let (c', front) = a.aead128_encrypt_update c plaintext in
        let (back, tag) = a.aead128_encrypt_final c' n in
        let (d, left) = a.aead128_decrypt_update c (front ++ back) in
        let (right, valid) = a.aead128_decrypt_final d tag in
        (left ++ right ≡ plaintext) × (valid ≡ true)

-- What LibAscon documents of the hash: a digest has the length asked for, and the check accepts
-- the digest itself, at its length, and nothing else.
pub record HashLaws (a : Ascon) : Type 0 where
  pub length-digest : (h : a.Hash) (n : ℕ) → length (a.hash_xof_final h n) ≡ n
  pub matches_iff :
      (h : a.Hash) (digest : List ℕ)
      → (a.hash_xof_final_matches h digest ≡ true) ↔ (a.hash_xof_final h (length digest) ≡ digest)

-- What IEEE 754 gives of `float`, by exact small integers and monotone rounding: a quotient
-- a / b with a < b < 2 ^ 24 is at most 1, so is 1 - x, a product m * y with y at most 1 is at most
-- m, and the truncation of a value at most m, or of one that lies above k, is bounded so.
pub record FloatLaws (f : Floats) : Type 0 where
  pub sub-div_le_one :
      (a b : ℕ)
      → a < b
      → b < 2 ^ 24
      → f.less (f.of_uint 1) (f.sub (f.of_uint 1) (f.div (f.of_uint a) (f.of_uint b))) ≡ false
  pub mul_le :
      (m : ℕ) (y : f.Float)
      → m < 2 ^ 24
      → f.less (f.of_uint 1) y ≡ false
      → f.less (f.of_uint m) (f.mul (f.of_uint m) y) ≡ false
  pub trunc_le : (m : ℕ) (x : f.Float) → m < 2 ^ 24 → f.less (f.of_uint m) x ≡ false → f.trunc x ≤ m
  pub lt_of_less :
      (k m : ℕ) (x : f.Float)
      → m < 2 ^ 24
      → f.less (f.of_uint m) x ≡ false
      → f.less (f.of_uint k) x ≡ true
      → k < m
