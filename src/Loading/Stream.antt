-- ===== src/Loading/Stream.antt =====
-- Reading a configuration file: the helpers of src/server/hzl_ServerNew.c, of which
-- src/client/hzl_ClientNew.c has copies.
use hazelnet.Base.{
  ℕ, ◌^◌, ◌<◌, ◌≡◌, refl, sym, ◌||◌, not, arith, List, [], ◌∷◌, ◌++◌, length, write, take, drop,
  replicate, get_or, if◌then◌else◌, ◌==◌,
}
use hazelnet.Base.All.{All}
use hazelnet.Base.Fields.{overwritten}
use hazelnet.Base.Wire.{take-append, drop-append}
use hazelnet.Endian.{encode_le16, encode_le32, decode_le16, decode_le32}
use hazelnet.Endian.Wide.{decode_le16-encode_le16, decode_le32-encode_le32}
use hazelnet.Err.{Err, ok, is_ok, unexpected_eof, invalid_file_magic_number}

-- `hzl_LoadBytes`: `fread` stores what there is, up to the amount.
unfoldable pub load_bytes : List ℕ → ℕ → List ℕ → Err × List ℕ × List ℕ
load_bytes bytes amount stream = (
  if length (take amount stream) == amount then ok else unexpected_eof,
  write bytes 0 (take amount stream),
  drop amount stream,
)

-- `hzl_CheckMagicNumber` with the letter of the kind of the file: 's' of a Server's, 'c' of a Client's.
unfoldable pub check_magic_number : ℕ → List ℕ → Err × List ℕ
check_magic_number kind stream =
    let (err, magic, rest) = load_bytes (replicate 5 0) 5 stream in
    if not (is_ok err)
    then (err, rest)
    else if not (get_or magic 0 0 == 72)
        || (not (get_or magic 1 0 == 90)
            || (not (get_or magic 2 0 == 76)
                || (not (get_or magic 3 0 == kind) || not (get_or magic 4 0 == 0))))
    then (invalid_file_magic_number, rest)
    else (err, rest)

unfoldable pub load_uint32_le : List ℕ → Err × ℕ × List ℕ
load_uint32_le stream =
    let (err, bytes, rest) = load_bytes (replicate 4 0) 4 stream in (err, decode_le32 bytes, rest)

unfoldable pub load_uint16_le : List ℕ → Err × ℕ × List ℕ
load_uint16_le stream =
    let (err, bytes, rest) = load_bytes (replicate 2 0) 2 stream in (err, decode_le16 bytes, rest)

-- `hzl_LoadUint8` into a field that holds `value`.
unfoldable pub load_uint8 : ℕ → List ℕ → Err × ℕ × List ℕ
load_uint8 value stream =
    let (err, bytes, rest) = load_bytes (value ∷ []) 1 stream in (err, get_or bytes 0 0, rest)

-- What loads a part of a structure: the error, the structure and the rest of the file.
abbrev pub Loader {ℓ} : Type ℓ → Type ℓ
Loader A = A → List ℕ → Err × A × List ℕ

module _ {ℓ} {A : Type ℓ} where
  -- Loads with `HZL_ERR_CHECK` after each.
  unfoldable pub load_fields : List (Loader A) → A → List ℕ → Err × A × List ℕ
  load_fields [] x stream = (ok, x, stream)
  load_fields (load ∷ later) x stream =
      let here = load x stream in
      let rest = load_fields later here.1 here.2 in if is_ok here.0 then rest else here

  -- A loop over an array with `HZL_ERR_CLEANUP` in each round.
  unfoldable pub load_each : Loader A → List A → List ℕ → Err × List A × List ℕ
  load_each load [] stream = (ok, [], stream)
  load_each load (x ∷ xs) stream =
      let here = load x stream in
      let rest = load_each load xs here.2 in
      if is_ok here.0 then (rest.0, here.1 ∷ rest.1, rest.2) else (here.0, here.1 ∷ xs, here.2)

  -- Items that are written one after the other, in front of a rest.
  abbrev pub print_each : (A → List ℕ) → List A → List ℕ → List ℕ
  print_each print [] rest = rest
  print_each print (y ∷ ys) rest = print y ++ print_each print ys rest

  -- A loop reads such items back, if the load of one item does.
  pub load_each-print_each :
      (load : Loader A) (print : A → List ℕ) (IsValid : A → Type 0) (start : A)
      → ((y : A) (rest : List ℕ) → IsValid y → load start (print y ++ rest) ≡ (ok, y, rest))
      → (ys : List A) (rest : List ℕ) → All IsValid ys
      → load_each load (replicate (length ys) start) (print_each print ys rest) ≡ (ok, ys, rest)
  unfolding load_each is_ok
  load_each-print_each load print IsValid start step [] rest h = refl
  load_each-print_each load print IsValid start step (y ∷ ys) rest h =
      rw
        (
          step y (print_each print ys rest) h.0,
          load_each-print_each load print IsValid start step ys rest h.1,
        )
        refl

-- What was written is read back, and the rest of the file stays.
pub load_bytes-append :
    (bytes : List ℕ) (amount : ℕ) (xs rest : List ℕ)
    → amount ≡ length xs
    → length bytes ≡ length xs
    → load_bytes bytes amount (xs ++ rest) ≡ (ok, xs, rest)
unfolding load_bytes
load_bytes-append bytes amount xs rest e f =
    rw (take-append xs rest amount e, drop-append xs rest amount e, overwritten bytes xs (sym f))
      (ground arith)

length-encode_le32 : (v : ℕ) → 4 ≡ length (encode_le32 v)
unfolding encode_le32
length-encode_le32 v = refl

length-encode_le16 : (v : ℕ) → 2 ≡ length (encode_le16 v)
unfolding encode_le16
length-encode_le16 v = refl

pub load_uint32_le-encode_le32 :
    (v : ℕ) (rest : List ℕ) → v < 2 ^ 32 → load_uint32_le (encode_le32 v ++ rest) ≡ (ok, v, rest)
unfolding load_uint32_le
load_uint32_le-encode_le32 v rest fits =
    rw
      (
        load_bytes-append (replicate 4 0) 4 (encode_le32 v) rest (length-encode_le32 v)
            (length-encode_le32 v),
        decode_le32-encode_le32 v,
      )
      (ground arith)

pub load_uint16_le-encode_le16 :
    (v : ℕ) (rest : List ℕ) → v < 2 ^ 16 → load_uint16_le (encode_le16 v ++ rest) ≡ (ok, v, rest)
unfolding load_uint16_le
load_uint16_le-encode_le16 v rest fits =
    rw
      (
        load_bytes-append (replicate 2 0) 2 (encode_le16 v) rest (length-encode_le16 v)
            (length-encode_le16 v),
        decode_le16-encode_le16 v,
      )
      (ground arith)

pub load_uint8-byte : (value v : ℕ) (rest : List ℕ) → load_uint8 value (v ∷ rest) ≡ (ok, v, rest)
unfolding load_uint8
load_uint8-byte value v rest = rw (load_bytes-append (value ∷ []) 1 (v ∷ []) rest refl refl) refl
