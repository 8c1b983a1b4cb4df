-- ===== src/Loading/Consumed.antt =====
-- How much of a file the loads of hzl_ServerNew.c and hzl_ClientNew.c under src read.
use hazelnet.Base.{
  ℕ, ◌+◌, ◌*◌, ◌≡◌, arith, List, [], ◌∷◌, length, length-take, length-drop, take, replicate,
}
use hazelnet.Err.{ok, is_ok, is_ok-ok, is_ok_iff}
use hazelnet.Loading.Stream.{
  load_bytes, load_uint32_le, load_uint16_le, load_uint8, Loader, load_fields, load_each,
  check_magic_number,
}

pub load_bytes_consumes :
    (bytes : List ℕ) (amount : ℕ) (stream : List ℕ)
    → (load_bytes bytes amount stream).0 ≡ ok
    → length stream ≡ amount + length (load_bytes bytes amount stream).2
unfolding load_bytes
load_bytes_consumes bytes amount stream h =
    ground (arith, h, length-take amount stream, length-drop amount stream)

pub load_uint32_le_consumes :
    (stream : List ℕ)
    → (load_uint32_le stream).0 ≡ ok
    → length stream ≡ 4 + length (load_uint32_le stream).2
unfolding load_uint32_le
load_uint32_le_consumes stream h = load_bytes_consumes (replicate 4 0) 4 stream h

pub load_uint16_le_consumes :
    (stream : List ℕ)
    → (load_uint16_le stream).0 ≡ ok
    → length stream ≡ 2 + length (load_uint16_le stream).2
unfolding load_uint16_le
load_uint16_le_consumes stream h = load_bytes_consumes (replicate 2 0) 2 stream h

pub load_uint8_consumes :
    (value : ℕ) (stream : List ℕ)
    → (load_uint8 value stream).0 ≡ ok
    → length stream ≡ 1 + length (load_uint8 value stream).2
unfolding load_uint8
load_uint8_consumes value stream h = load_bytes_consumes (value ∷ []) 1 stream h

-- On success, as many bytes as are given here.
pub record Consumes {ℓ} {A : Type ℓ} (load : Loader A) (n : ℕ) : Type ℓ where
  pub reads :
      (x : A) (stream : List ℕ)
      → (load x stream).0 ≡ ok
      → length stream ≡ n + length (load x stream).2

module _ {ℓ} {A : Type ℓ} where
  pub fields_end : Consumes {A = A} (load_fields []) 0
  unfolding load_fields
  fields_end = record { reads = λ x stream h. omega arith }

  pub field_first :
      {load : Loader A} {n m : ℕ}
      → Consumes load n
      → (later : List (Loader A)) → Consumes (load_fields later) m
      → Consumes (load_fields (load ∷ later)) (n + m)
  unfolding load_fields
  field_first {load = load} here later rest = record {
    reads = λ x stream h. ground (
      arith,
      is_ok-ok,
      is_ok_iff (load x stream).0,
      here.reads x stream,
      rest.reads (load x stream).1 (load x stream).2,
      h,
    );
  }

  pub load_each-Consumes :
      {load : Loader A} {n : ℕ}
      → Consumes load n
      → (xs : List A) (stream : List ℕ) → (load_each load xs stream).0 ≡ ok
      → length stream ≡ length xs * n + length (load_each load xs stream).2
  unfolding load_each
  load_each-Consumes c [] stream h = ground arith
  load_each-Consumes {load = load} {n = n} c (x ∷ xs) stream h = ground (
    arith,
    is_ok-ok,
    is_ok_iff (load x stream).0,
    c.reads x stream,
    load_each-Consumes c xs (load x stream).2,
    h,
  )

-- The five letters.
pub check_magic_number_consumes :
    (kind : ℕ) (stream : List ℕ)
    → (check_magic_number kind stream).0 ≡ ok
    → (take 5 stream ≡ 72 ∷ 90 ∷ 76 ∷ kind ∷ 0 ∷ [])
      × (length stream ≡ 5 + length (check_magic_number kind stream).1)
unfolding check_magic_number load_bytes is_ok
check_magic_number_consumes kind (a ∷ b ∷ c ∷ d ∷ e ∷ stream) h = ground (arith, h)
check_magic_number_consumes kind (a ∷ b ∷ c ∷ d ∷ []) h = absurd (ground (arith, h))
check_magic_number_consumes kind (a ∷ b ∷ c ∷ []) h = absurd (ground (arith, h))
check_magic_number_consumes kind (a ∷ b ∷ []) h = absurd (ground (arith, h))
check_magic_number_consumes kind (a ∷ []) h = absurd (ground (arith, h))
check_magic_number_consumes kind [] h = absurd (ground (arith, h))
