-- ===== src/Tests/Toy.antt =====
-- A platform that satisfies the laws: a cipher that leaves the plaintext and tags with its
-- transcript, arithmetic on whole numbers for `float`, a clock that ticks.
use hazelnet.Base.{
  ℕ, zero, suc, ◌<◌, ◌+◌, ◌-◌, ◌*◌, ◌/◌, ◌≡◌, refl, Bool, true, false, arith, List, [], ◌∷◌, ◌++◌,
  length, length-replicate, replicate, write, ltb, ◌==◌, ◌&&◌,
}
use hazelnet.Base.Buffers.{length-write}
use hazelnet.Err.{ok}
use hazelnet.Base.All.{All-replicate}
use hazelnet.Interop.Request.{GivesBytes}
use hazelnet.Platform.{Ascon, Floats, Callbacks, Platform, AeadLaws, HashLaws, FloatLaws, Io}

abbrev pub same_bytes : List ℕ → List ℕ → Bool
same_bytes [] [] = true
same_bytes (x ∷ xs) (y ∷ ys) = (x == y) && same_bytes xs ys
same_bytes _ _ = false

same_bytes_refl : (xs : List ℕ) → same_bytes xs xs ≡ true
same_bytes_refl [] = refl
same_bytes_refl (x ∷ xs) = ground (arith, same_bytes_refl xs)

abbrev pub tag_of : List ℕ → ℕ → List ℕ
tag_of transcript n = write (replicate n 0) 0 transcript

length-tag_of : (transcript : List ℕ) (n : ℕ) → length (tag_of transcript n) ≡ n
length-tag_of t n = omega (arith, length-write (replicate n 0) 0 t, length-replicate {A = ℕ} n 0)

abbrev pub toy_ascon : Ascon
toy_ascon = record {
  Aead = List ℕ;
  aead128_init = λ key nonce. nonce ++ key;
  aead128_assoc_data_update = λ c ad. ad ++ c;
  aead128_encrypt_update = λ c plaintext. (c, plaintext);
  aead128_encrypt_final = λ c n. ([], tag_of c n);
  aead128_decrypt_update = λ c ciphertext. (c, ciphertext);
  aead128_decrypt_final = λ c tag. ([], same_bytes tag (tag_of c (length tag)));
  Hash = List ℕ;
  hash_xof_init = [];
  hash_xof_update = λ h bytes. bytes ++ h;
  hash_xof_final = λ h n. tag_of h n;
  hash_xof_final_matches = λ h digest. same_bytes digest (tag_of h (length digest));
}

same_bytes_only : (xs ys : List ℕ) → same_bytes xs ys ≡ true → ys ≡ xs
same_bytes_only [] [] h = refl
same_bytes_only [] (y ∷ ys) h = absurd (ground (arith, h))
same_bytes_only (x ∷ xs) [] h = absurd (ground (arith, h))
same_bytes_only (x ∷ xs) (y ∷ ys) h = ground (arith, same_bytes_only xs ys)

pub toy_hash_laws : HashLaws toy_ascon
toy_hash_laws = record {
  length-digest = λ h n. length-tag_of h n;
  matches_iff = λ h digest. (
    (λ same. same_bytes_only digest (tag_of h (length digest)) same),
    (λ e. rw (e) (same_bytes_refl digest)),
  );
}

append_nil : (xs : List ℕ) → xs ++ [] ≡ xs
append_nil [] = refl
append_nil (x ∷ xs) = ground (arith, append_nil xs)

pub toy_aead_laws : AeadLaws toy_ascon
toy_aead_laws = record {
  length-encrypt = λ c plaintext n. rw (append_nil plaintext) refl;
  length-tag = λ c n. length-tag_of c n;
  decrypt-encrypt = λ c plaintext n. (
    rw (append_nil plaintext) (append_nil plaintext),
    rw (length-tag_of c n) (same_bytes_refl (tag_of c n)),
  );
}

abbrev pub toy_floats : Floats
toy_floats = record {
  Float = ℕ;
  of_uint = λ n. n;
  div = λ a b. a / b;
  mul = λ a b. a * b;
  sub = λ a b. a - b;
  less = ltb;
  trunc = λ x. x;
}

mul_le_lem : (m y : ℕ) → ltb 1 y ≡ false → ltb m (m * y) ≡ false
mul_le_lem m zero h = ground arith
mul_le_lem m (suc zero) h = ground arith
mul_le_lem m (suc (suc y)) h = absurd (ground arith)

pub toy_float_laws : FloatLaws toy_floats
toy_float_laws = record {
  sub-div_le_one = λ a b lt fits. ground arith;
  mul_le = λ m y fits h. mul_le_lem m y h;
  trunc_le = λ m x fits h. ground arith;
  lt_of_less = λ k m x fits h less. ground arith;
}

abbrev pub toy_callbacks : Callbacks
toy_callbacks = record { clock = λ n. (ok, 100 + n); random = λ n amount. (ok, replicate amount 7) }

abbrev pub toy : Platform
toy = record { ascon = toy_ascon; floats = toy_floats; callbacks = toy_callbacks }

abbrev pub no_calls : Io
no_calls = record { clock_calls = 0; random_calls = 0 }

-- Random bytes are bytes.
pub toy-GivesBytes : GivesBytes toy
toy-GivesBytes n amount = All-replicate (λ b. b < 256) amount 7 (omega arith)
