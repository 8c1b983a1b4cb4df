-- ===== src/Os/Random.antt =====
-- src/common/hzl_CommonOsTrng.c: `hzl_OsTrng` for Windows and for Unix.
use hazelnet.Base.{
  ℕ, zero, suc, ◌∷◌, refl, ap, length-take, ◌≤◌, ◌<◌, ◌≡◌, ◌≢◌, ◌↔◌, Bool, arith, List, [], length,
  take, drop, write, Option, some, none, if◌then◌else◌, ◌==◌,
}
use hazelnet.Err.{Err, ok, cannot_generate_random}

-- `BCryptGenRandom` succeeds and gives the bytes, or fails.
unfoldable pub trng_windows : Bool → List ℕ → List ℕ → ℕ → Err × List ℕ
trng_windows works random buffer amount =
    if works then (ok, write buffer 0 (take amount random)) else (cannot_generate_random, buffer)

-- What `/dev/urandom` still gives, or `none` if it cannot be opened: `fread` takes what it can.
unfoldable pub trng_unix : Option (List ℕ) → List ℕ → ℕ → Err × List ℕ
trng_unix none buffer amount = (if amount == 0 then ok else cannot_generate_random, buffer)
trng_unix (some random) buffer amount =
    let obtained = length (take amount random) in
    (if obtained == amount then ok else cannot_generate_random, write buffer 0 (take amount random))

take-write_first :
    (xs bs : List ℕ) (n : ℕ) → length bs ≡ n → n ≤ length xs → take n (write xs 0 bs) ≡ bs
take-write_first xs [] zero e h = refl
take-write_first xs [] (suc n) e h = absurd (omega arith)
take-write_first xs (b ∷ bs) zero e h = absurd (omega arith)
take-write_first [] (b ∷ bs) (suc n) e h = absurd (omega arith)
take-write_first (x ∷ xs) (b ∷ bs) (suc n) e h =
    ap (λ l. b ∷ l) (take-write_first xs bs n (omega arith) (omega arith))

drop-write_first : (xs bs : List ℕ) (n : ℕ) → length bs ≤ n → drop n (write xs 0 bs) ≡ drop n xs
drop-write_first [] bs n h = refl
drop-write_first (x ∷ xs) [] n h = refl
drop-write_first (x ∷ xs) (b ∷ bs) zero h = absurd (omega arith)
drop-write_first (x ∷ xs) (b ∷ bs) (suc n) h = drop-write_first xs bs n (omega arith)

take_short : (xs : List ℕ) (n : ℕ) → length xs ≤ n → take n xs ≡ xs
take_short [] zero h = refl
take_short [] (suc n) h = refl
take_short (x ∷ xs) zero h = absurd (omega arith)
take_short (x ∷ xs) (suc n) h = ap (λ l. x ∷ l) (take_short xs n (omega arith))

-- `hzl_OsTrng` on Unix, with a buffer that has room: it returns HZL_OK exactly if the device has as
-- many bytes as were asked for, and then the buffer starts with them. It never writes behind them,
-- also when it fails; but it fails with all bytes that the device had already written.
pub trng_unix-fills :
    (random buffer : List ℕ) (amount : ℕ)
    → amount ≤ length buffer
    → let (err, filled) = trng_unix (some random) buffer amount in
      ((err ≡ ok) ↔ (amount ≤ length random))
      × (err ≡ ok → take amount filled ≡ take amount random)
      × (drop amount filled ≡ drop amount buffer)
      × (length random < amount → (err ≢ ok) × (take (length random) filled ≡ random))
unfolding trng_unix
trng_unix-fills random buffer amount room =
    let len = length-take amount random in
    (
      ((λ h. ground (arith, len, h)), (λ h. ground (arith, len, h))),
      (λ h. take-write_first buffer (take amount random) amount (ground (arith, h)) room),
      drop-write_first buffer (take amount random) amount (omega (arith, len)),
      (λ short. (
        ground (arith, len),
        rw (take_short random amount (omega arith))
            (take-write_first buffer random (length random) refl (omega arith)),
      )),
    )
