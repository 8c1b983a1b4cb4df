-- ===== src/Base/Fields.antt =====
-- Messages as lists of fields, one behind the other: what writes in sequence leave, and how one
-- field is read back.
use Prim.Native.Nat.{ℕ, zero, suc, ◌+◌, ◌≤◌}
use mathlib.Core.Path.{◌≡◌, refl, ap, sym, ◌∙◌}
use mathlib.Core.List.{List, [], ◌∷◌, ◌++◌}
use native.Mathlib.Omega.{arith}
use hazelnet.Base.Lists.{length, get_or, write, slice, take, length-append}
use hazelnet.Base.Buffers.{slice-write_self, write-write}
use hazelnet.Base.Wire.{append_assoc, slice-append, get_or-append}

abbrev pub concat {ℓ} : {A : Type ℓ} → List (List A) → List A
concat [] = []
concat (f ∷ fs) = f ++ concat fs

-- The number of items in all fields.
abbrev pub total {ℓ} : {A : Type ℓ} → List (List A) → ℕ
total [] = 0
total (f ∷ fs) = length f + total fs

module _ {ℓ} {A : Type ℓ} where
  append_nil : (xs : List A) → xs ++ [] ≡ xs
  append_nil [] = refl
  append_nil (x ∷ xs) = ap (λ l. x ∷ l) (append_nil xs)

  pub length-concat : (fs : List (List A)) → length (concat fs) ≡ total fs
  length-concat [] = refl
  length-concat (f ∷ fs) = omega (arith, length-append f (concat fs), length-concat fs)

  concat-append : (pre post : List (List A)) → concat (pre ++ post) ≡ concat pre ++ concat post
  concat-append [] post = refl
  concat-append (f ∷ pre) post =
      ap (λ l. f ++ l) (concat-append pre post) ∙ sym (append_assoc f (concat pre) (concat post))

  pub write-first : (buf f : List A) → write buf 0 f ≡ write buf 0 (concat (f ∷ []))
  write-first buf f = rw (append_nil f) refl

  -- One more field behind those that are written.
  pub write-next :
      (buf : List A) (pre : List (List A)) (f : List A) (o : ℕ)
      → o ≡ total pre
      → write (write buf 0 (concat pre)) o f ≡ write buf 0 (concat (pre ++ (f ∷ [])))
  write-next buf pre f o e =
      write-write buf 0 o (concat pre) f (omega (arith, length-concat pre))
      ∙ ap (write buf 0)
          (ap (λ l. concat pre ++ l) (sym (append_nil f)) ∙ sym (concat-append pre (f ∷ [])))

  -- The message of all fields.
  pub take-fields :
      (buf : List A) (fs : List (List A)) (n : ℕ)
      → n ≡ total fs
      → n ≤ length buf
      → take n (write buf 0 (concat fs)) ≡ concat fs
  take-fields buf fs n e fits =
      ap (λ k. take k (write buf 0 (concat fs))) same
      ∙ slice-write_self buf 0 (concat fs) (omega (arith, same))
    where
      same : n ≡ length (concat fs)
      same = omega (arith, length-concat fs)

  -- The field `f` behind `pre`.
  pub slice-field :
      (pre : List (List A)) (f : List A) (post : List (List A)) (o n : ℕ)
      → o ≡ total pre
      → n ≡ length f
      → slice o n (concat (pre ++ (f ∷ post))) ≡ f
  slice-field pre f post o n e k =
      ap (slice o n) (concat-append pre (f ∷ post))
      ∙ slice-append (concat pre) f (concat post) o n (omega (arith, length-concat pre)) k

  pub get-field :
      (pre : List (List A)) (x : A) (post : List (List A)) (o : ℕ) (d : A)
      → o ≡ total pre
      → get_or (concat (pre ++ ((x ∷ []) ∷ post))) o d ≡ x
  get-field pre x post o d e =
      ap (λ l. get_or l o d) (concat-append pre ((x ∷ []) ∷ post))
      ∙ get_or-append (concat pre) x (concat post) o d (omega (arith, length-concat pre))

  -- Cutting a message behind a field does not change the field.
  pub slice-take : (xs : List A) (o n m : ℕ) → o + n ≤ m → slice o n (take m xs) ≡ slice o n xs
  slice-take xs zero zero m h = refl
  slice-take [] zero (suc n) zero h = absurd (omega arith)
  slice-take [] zero (suc n) (suc m) h = refl
  slice-take [] (suc o) n zero h = refl
  slice-take [] (suc o) n (suc m) h = refl
  slice-take (x ∷ xs) zero (suc n) zero h = absurd (omega arith)
  slice-take (x ∷ xs) zero (suc n) (suc m) h =
      ap (λ l. x ∷ l) (slice-take xs zero n m (omega arith))
  slice-take (x ∷ xs) (suc o) n zero h = absurd (omega arith)
  slice-take (x ∷ xs) (suc o) n (suc m) h = slice-take xs o n m (omega arith)

  total-append : (pre post : List (List A)) → total (pre ++ post) ≡ total pre + total post
  total-append [] post = omega arith
  total-append (f ∷ pre) post = omega (arith, total-append pre post)

  -- A field that was written is read back from the buffer itself too.
  pub slice-written :
      (buf : List A) (pre : List (List A)) (f : List A) (post : List (List A)) (o n : ℕ)
      → o ≡ total pre
      → n ≡ length f
      → total (pre ++ (f ∷ post)) ≤ length buf
      → slice o n (write buf 0 (concat (pre ++ (f ∷ post)))) ≡ f
  slice-written buf pre f post o n e k fits =
      sym (
        slice-take (write buf 0 (concat fs)) o n (total fs)
          (omega (arith, total-append pre (f ∷ post))))
      ∙ (ap (slice o n) (take-fields buf fs (total fs) refl fits) ∙ slice-field pre f post o n e k)
    where
      fs : List (List A)
      fs = pre ++ (f ∷ post)

  -- Two neighbouring fields are one.
  pub concat-merge :
      (pre : List (List A)) (f g : List A) (post : List (List A))
      → concat (pre ++ (f ∷ g ∷ post)) ≡ concat (pre ++ ((f ++ g) ∷ post))
  concat-merge pre f g post =
      concat-append pre (f ∷ g ∷ post)
      ∙ (ap (λ l. concat pre ++ l) (sym (append_assoc f g (concat post)))
          ∙ sym (concat-append pre ((f ++ g) ∷ post)))

  -- Writing over all of a buffer replaces it.
  pub overwritten : (buf xs : List A) → length xs ≡ length buf → write buf 0 xs ≡ xs
  overwritten [] [] e = refl
  overwritten [] (x ∷ xs) e = absurd (omega arith)
  overwritten (b ∷ buf) [] e = absurd (omega arith)
  overwritten (b ∷ buf) (x ∷ xs) e = ap (λ l. x ∷ l) (overwritten buf xs (omega arith))
