-- ===== src/Utils.antt =====
-- src/common/hzl_CommonUtils.c: the test for zeros, and random bytes that are not all zero.
pub mod Trng
pub mod Checks
use hazelnet.Base.{
  ℕ, zero, suc, ◌+◌, Bool, true, false, List, [], ◌∷◌, ltb, ◌==◌, replicate, write, if◌then◌else◌,
  ◌&&◌,
}
use hazelnet.Err.{Err, ok, is_ok, cannot_generate_non_zero_random, programming}
use hazelnet.Payload.{max_trng_tries_for_nonzero_value}
use hazelnet.Platform.{Platform, Io, trng}

-- `hzl_IsAllZeros`, on the array's bytes: the loop returns at the first byte that is not 0.
unfoldable pub is_all_zeros : List ℕ → Bool
is_all_zeros [] = true
is_all_zeros (b ∷ bytes) = b == 0 && is_all_zeros bytes

-- `hzl_ZeroOut`, as the bytes that it leaves.
unfoldable pub zero_out : ℕ → List ℕ
zero_out amount = replicate amount 0

-- A loop that returns at the first error, over `rounds` indices from `i` on.
unfoldable pub check_from : (ℕ → Err) → ℕ → ℕ → Err
check_from check zero i = ok
check_from check (suc rounds) i =
    let later = check_from check rounds (i + 1) in if is_ok (check i) then later else check i

module _ (p : Platform) where
  -- The `do`/`while` loop of `hzl_NonZeroTrng`, from `tries` calls on, with the bytes of the target.
  -- It makes at most 22 calls, so 22 is enough fuel: with the fuel out the result would be the
  -- initial `HZL_ERR_PROGRAMMING`.
  unfoldable pub non_zero_trng_loop : ℕ → ℕ → Io → List ℕ → ℕ → Err × List ℕ × Io
  non_zero_trng_loop zero tries io bytes amount = (programming, bytes, io)
  non_zero_trng_loop (suc fuel) tries io bytes amount =
      let (err, random, io') = trng p io amount in
      let bytes' = write bytes 0 random in
      let again = non_zero_trng_loop fuel (tries + 1) io' bytes' amount in
      if is_ok err
      then if ltb max_trng_tries_for_nonzero_value tries
        then (cannot_generate_non_zero_random, bytes', io')
        else if is_all_zeros bytes'
        then again
        else (ok, bytes', io')
      else (err, bytes', io')

  -- The code, the bytes of the target, and the calls made.
  unfoldable pub non_zero_trng : Io → List ℕ → ℕ → Err × List ℕ × Io
  non_zero_trng io bytes amount = non_zero_trng_loop 22 0 io bytes amount
