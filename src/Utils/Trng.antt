-- ===== src/Utils/Trng.antt =====
-- What `hzl_NonZeroTrng` returns: on success bytes that are not all zero, always within 22 calls.
use hazelnet.Base.{
  ℕ, zero, suc, ◌+◌, ◌≤◌, ◌<◌, ◌≡◌, refl, true, false, arith, length, List, write, min,
}
use hazelnet.Base.All.{All, All-write}
use hazelnet.Base.Buffers.{length-write}
use hazelnet.Base.{ltb, if_either}
use hazelnet.Err.{Err, is_ok, ok, is_ok-ok, is_ok_iff}
use hazelnet.Platform.{Platform, Io, trng}
use hazelnet.Utils.{is_all_zeros, zero_out, non_zero_trng_loop, non_zero_trng}

-- Clearing leaves only zeros.
pub is_all_zeros-zero_out : (n : ℕ) → is_all_zeros (zero_out n) ≡ true
unfolding is_all_zeros zero_out
is_all_zeros-zero_out zero = refl
is_all_zeros-zero_out (suc n) = is_all_zeros-zero_out n

-- What the loop has done when it returns `HZL_OK`, started after `tries` calls.
record Drew (io : Io) (tries : ℕ) (io' : Io) : Type 0 where
  within : io'.random_calls + tries ≤ io.random_calls + 21
  called : io.random_calls < io'.random_calls

module _ (p : Platform) where
  calls-trng : (io : Io) (amount : ℕ) → (trng p io amount).2.random_calls ≡ io.random_calls + 1
  unfolding trng
  calls-trng io amount = refl

  loop_ok :
      (fuel tries : ℕ) (io : Io) (bytes : List ℕ) (amount : ℕ)
      → (non_zero_trng_loop p fuel tries io bytes amount).0 ≡ ok
      → (is_all_zeros (non_zero_trng_loop p fuel tries io bytes amount).1 ≡ false)
        × Drew io tries (non_zero_trng_loop p fuel tries io bytes amount).2
  unfolding non_zero_trng_loop
  loop_ok zero tries io bytes amount = λ e. cc
  loop_ok (suc fuel) tries io bytes amount = ground (
    arith,
    is_ok_iff (trng p io amount).0,
    is_ok-ok,
    calls-trng io amount,
    loop_ok fuel (tries + 1) (trng p io amount).2 (write bytes 0 (trng p io amount).1) amount,
  )

  -- On success the bytes are not all zero, and between one and 21 calls of the callback were made.
  pub non_zero_trng_ok :
      (io : Io) (bytes : List ℕ) (amount : ℕ)
      → (non_zero_trng p io bytes amount).0 ≡ ok
      → (is_all_zeros (non_zero_trng p io bytes amount).1 ≡ false)
        × (io.random_calls < (non_zero_trng p io bytes amount).2.random_calls)
        × ((non_zero_trng p io bytes amount).2.random_calls ≤ io.random_calls + 21)
  unfolding non_zero_trng
  non_zero_trng_ok io bytes amount e =
      let done = loop_ok 22 0 io bytes amount e in
      (done.0, omega (arith, done.1), omega (arith, done.1))

  -- More fuel than the 22 rounds changes nothing.
  pub non_zero_trng_fuel :
      (fuel tries : ℕ) (io : Io) (bytes : List ℕ) (amount : ℕ)
      → 22 ≤ fuel + tries
      → 0 < fuel
      → non_zero_trng_loop p (suc fuel) tries io bytes amount
        ≡ non_zero_trng_loop p fuel tries io bytes amount
  unfolding non_zero_trng_loop
  non_zero_trng_fuel zero tries io bytes amount enough some_left = elim some_left [ ]
  non_zero_trng_fuel (suc fuel) tries io bytes amount enough some_left = ground (
    arith,
    non_zero_trng_fuel fuel (tries + 1) (trng p io amount).2 (write bytes 0 (trng p io amount).1)
        amount,
  )

  pub length-non_zero_trng_loop :
      (fuel tries : ℕ) (io : Io) (bytes : List ℕ) (amount : ℕ)
      → length (non_zero_trng_loop p fuel tries io bytes amount).1 ≡ length bytes
  unfolding non_zero_trng_loop
  length-non_zero_trng_loop zero tries io bytes amount = refl
  length-non_zero_trng_loop (suc fuel) tries io bytes amount = ground (
    arith,
    length-write bytes 0 (trng p io amount).1,
    length-non_zero_trng_loop fuel (tries + 1) (trng p io amount).2
        (write bytes 0 (trng p io amount).1) amount,
  )

  -- The target keeps its length.
  pub length-non_zero_trng :
      (io : Io) (bytes : List ℕ) (amount : ℕ)
      → length (non_zero_trng p io bytes amount).1 ≡ length bytes
  unfolding non_zero_trng
  length-non_zero_trng io bytes amount = length-non_zero_trng_loop 22 0 io bytes amount

  -- The random generator is called at least once.
  pub non_zero_trng_loop_draws :
      (fuel tries : ℕ) (io : Io) (bytes : List ℕ) (amount : ℕ)
      → io.random_calls + min 1 fuel
        ≤ (non_zero_trng_loop p fuel tries io bytes amount).2.random_calls
  unfolding non_zero_trng_loop trng
  non_zero_trng_loop_draws zero tries io bytes amount = omega arith
  non_zero_trng_loop_draws (suc fuel) tries io bytes amount = ground (
    arith,
    non_zero_trng_loop_draws fuel (tries + 1) (trng p io amount).2
        (write bytes 0 (trng p io amount).1) amount,
  )

  pub non_zero_trng_draws :
      (io : Io) (bytes : List ℕ) (amount : ℕ)
      → io.random_calls < (non_zero_trng p io bytes amount).2.random_calls
  unfolding non_zero_trng
  non_zero_trng_draws io bytes amount = omega (arith, non_zero_trng_loop_draws 22 0 io bytes amount)

  -- With random bytes that are bytes, the target holds bytes.
  non_zero_trng_loop-All :
      ((n amount : ℕ) → All (λ b. b < 256) (p.callbacks.random n amount).1)
      → (fuel tries : ℕ) (io : Io) (bytes : List ℕ) (amount : ℕ) → All (λ b. b < 256) bytes
      → All (λ b. b < 256) (non_zero_trng_loop p fuel tries io bytes amount).1
  unfolding non_zero_trng_loop trng
  non_zero_trng_loop-All drawn zero tries io bytes amount h = h
  non_zero_trng_loop-All drawn (suc fuel) tries io bytes amount h =
      if_either Fine (is_ok (trng p io amount).0) _ _
        (if_either Fine (ltb 20 tries) _ _ written (
          if_either Fine (is_all_zeros bytes') _ _
            (non_zero_trng_loop-All drawn fuel (tries + 1) (trng p io amount).2 bytes' amount
              written)
            written))
        written
    where
      Fine : Err × List ℕ × Io → Type 0
      Fine r = All (λ b. b < 256) r.1

      bytes' : List ℕ
      bytes' = write bytes 0 (trng p io amount).1

      written : All (λ b. b < 256) bytes'
      written =
          All-write (λ b. b < 256) bytes 0 (trng p io amount).1 h (drawn io.random_calls amount)

  pub non_zero_trng-All :
      ((n amount : ℕ) → All (λ b. b < 256) (p.callbacks.random n amount).1)
      → (io : Io) (bytes : List ℕ) (amount : ℕ) → All (λ b. b < 256) bytes
      → All (λ b. b < 256) (non_zero_trng p io bytes amount).1
  unfolding non_zero_trng
  non_zero_trng-All drawn io bytes amount h = non_zero_trng_loop-All drawn 22 0 io bytes amount h
