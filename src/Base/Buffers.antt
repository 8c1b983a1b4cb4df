-- ===== src/Base/Buffers.antt =====
-- Reading a buffer back after writes: in the written range, before it and behind it.
use Prim.Native.Nat.{ℕ, zero, suc, ◌+◌, ◌≤◌}
use mathlib.Core.Path.{◌≡◌, refl, ap}
use mathlib.Core.List.{List, [], ◌∷◌, ◌++◌}
use native.Mathlib.Omega.{arith}
use hazelnet.Base.Lists.{length, get_or, write, slice}

module _ {ℓ} {A : Type ℓ} where
  pub length-write : (buf : List A) (o : ℕ) (bs : List A) → length (write buf o bs) ≡ length buf
  length-write [] o bs = refl
  length-write (b ∷ buf) (suc o) bs = ap suc (length-write buf o bs)
  length-write (b ∷ buf) zero [] = refl
  length-write (b ∷ buf) zero (x ∷ bs) = ap suc (length-write buf zero bs)

  pub slice-write_self :
      (buf : List A) (o : ℕ) (bs : List A)
      → o + length bs ≤ length buf
      → slice o (length bs) (write buf o bs) ≡ bs
  slice-write_self [] zero [] h = refl
  slice-write_self [] zero (x ∷ bs) h = absurd (omega arith)
  slice-write_self [] (suc o) bs h = absurd (omega arith)
  slice-write_self (b ∷ buf) (suc o) bs h = slice-write_self buf o bs (omega arith)
  slice-write_self (b ∷ buf) zero [] h = refl
  slice-write_self (b ∷ buf) zero (x ∷ bs) h =
      ap (λ ys. x ∷ ys) (slice-write_self buf zero bs (omega arith))

  pub slice-write_before :
      (buf : List A) (o : ℕ) (bs : List A) (p n : ℕ)
      → p + n ≤ o
      → slice p n (write buf o bs) ≡ slice p n buf
  slice-write_before [] o bs p n h = refl
  slice-write_before (b ∷ buf) (suc o) bs (suc p) n h =
      slice-write_before buf o bs p n (omega arith)
  slice-write_before (b ∷ buf) (suc o) bs zero zero h = refl
  slice-write_before (b ∷ buf) (suc o) bs zero (suc n) h =
      ap (λ ys. b ∷ ys) (slice-write_before buf o bs zero n (omega arith))
  slice-write_before (b ∷ buf) zero bs zero zero h = refl
  slice-write_before (b ∷ buf) zero bs zero (suc n) h = absurd (omega arith)
  slice-write_before (b ∷ buf) zero bs (suc p) n h = absurd (omega arith)

  pub slice-write_after :
      (buf : List A) (o : ℕ) (bs : List A) (p n : ℕ)
      → o + length bs ≤ p
      → slice p n (write buf o bs) ≡ slice p n buf
  slice-write_after [] o bs p n h = refl
  slice-write_after (b ∷ buf) (suc o) bs (suc p) n h = slice-write_after buf o bs p n (omega arith)
  slice-write_after (b ∷ buf) (suc o) bs zero n h = absurd (omega arith)
  slice-write_after (b ∷ buf) zero [] p n h = refl
  slice-write_after (b ∷ buf) zero (x ∷ bs) zero n h = absurd (omega arith)
  slice-write_after (b ∷ buf) zero (x ∷ bs) (suc p) n h =
      slice-write_after buf zero bs p n (omega arith)

  -- Two writes back to back are one.
  pub write-write :
      (buf : List A) (o k : ℕ) (front back : List A)
      → k ≡ o + length front
      → write (write buf o front) k back ≡ write buf o (front ++ back)
  write-write [] o k front back e = refl
  write-write (b ∷ buf) zero zero [] back e = refl
  write-write (b ∷ buf) zero (suc k) [] back e = absurd (omega arith)
  write-write (b ∷ buf) zero zero (x ∷ front) back e = absurd (omega arith)
  write-write (b ∷ buf) zero (suc k) (x ∷ front) back e =
      ap (λ ys. x ∷ ys) (write-write buf zero k front back (omega arith))
  write-write (b ∷ buf) (suc o) zero front back e = absurd (omega arith)
  write-write (b ∷ buf) (suc o) (suc k) front back e =
      ap (λ ys. b ∷ ys) (write-write buf o k front back (omega arith))

  -- The item that a slice of length one holds.
  pub get_or_of_slice :
      (buf : List A) (i : ℕ) (x d : A) (rest : List A)
      → slice i 1 buf ≡ x ∷ rest
      → get_or buf i d ≡ x
  get_or_of_slice [] zero x d rest h = cc
  get_or_of_slice [] (suc i) x d rest h = cc
  get_or_of_slice (b ∷ buf) zero x d rest h = cc
  get_or_of_slice (b ∷ buf) (suc i) x d rest h = get_or_of_slice buf i x d rest h
