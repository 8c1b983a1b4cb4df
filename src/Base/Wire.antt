-- ===== src/Base/Wire.antt =====
-- Messages as the concatenation of their fields: what a sequence of writes leaves, and how a field
-- is read back.
use Prim.Native.Nat.{ℕ, zero, suc, ◌+◌, ◌≤◌}
use mathlib.Core.Path.{◌≡◌, refl, ap, ◌∙◌}
use mathlib.Core.List.{List, [], ◌∷◌, ◌++◌}
use native.Mathlib.Omega.{arith}
use hazelnet.Base.Lists.{length, get_or, write, slice, take, drop, length-append}
use hazelnet.Base.Buffers.{slice-write_self, write-write}

module _ {ℓ} {A : Type ℓ} where
  pub append_assoc : (xs ys zs : List A) → (xs ++ ys) ++ zs ≡ xs ++ (ys ++ zs)
  append_assoc [] ys zs = refl
  append_assoc (x ∷ xs) ys zs = ap (λ l. x ∷ l) (append_assoc xs ys zs)

  pub take-append : (xs ys : List A) (n : ℕ) → n ≡ length xs → take n (xs ++ ys) ≡ xs
  take-append [] ys zero e = refl
  take-append [] ys (suc n) e = absurd (omega arith)
  take-append (x ∷ xs) ys zero e = absurd (omega arith)
  take-append (x ∷ xs) ys (suc n) e = ap (λ l. x ∷ l) (take-append xs ys n (omega arith))

  pub drop-append : (xs ys : List A) (n : ℕ) → n ≡ length xs → drop n (xs ++ ys) ≡ ys
  drop-append [] ys zero e = refl
  drop-append [] ys (suc n) e = absurd (omega arith)
  drop-append (x ∷ xs) ys zero e = absurd (omega arith)
  drop-append (x ∷ xs) ys (suc n) e = drop-append xs ys n (omega arith)

  -- The field `ys` behind `xs`.
  pub slice-append :
      (xs ys zs : List A) (o n : ℕ)
      → o ≡ length xs
      → n ≡ length ys
      → slice o n (xs ++ (ys ++ zs)) ≡ ys
  slice-append [] ys zs zero n e f = take-append ys zs n f
  slice-append [] ys zs (suc o) n e f = absurd (omega arith)
  slice-append (x ∷ xs) ys zs zero n e f = absurd (omega arith)
  slice-append (x ∷ xs) ys zs (suc o) n e f = slice-append xs ys zs o n (omega arith) f

  -- The single item behind `xs`.
  pub get_or-append :
      (xs : List A) (y : A) (zs : List A) (o : ℕ) (d : A)
      → o ≡ length xs
      → get_or (xs ++ (y ∷ zs)) o d ≡ y
  get_or-append [] y zs zero d e = refl
  get_or-append [] y zs (suc o) d e = absurd (omega arith)
  get_or-append (x ∷ xs) y zs zero d e = absurd (omega arith)
  get_or-append (x ∷ xs) y zs (suc o) d e = get_or-append xs y zs o d (omega arith)

  pub take_all : (xs : List A) (n : ℕ) → n ≡ length xs → take n xs ≡ xs
  take_all [] zero e = refl
  take_all [] (suc n) e = absurd (omega arith)
  take_all (x ∷ xs) zero e = absurd (omega arith)
  take_all (x ∷ xs) (suc n) e = ap (λ l. x ∷ l) (take_all xs n (omega arith))

  -- The last field.
  pub slice-last :
      (xs ys : List A) (o n : ℕ) → o ≡ length xs → n ≡ length ys → slice o n (xs ++ ys) ≡ ys
  slice-last [] ys zero n e f = take_all ys n f
  slice-last [] ys (suc o) n e f = absurd (omega arith)
  slice-last (x ∷ xs) ys zero n e f = absurd (omega arith)
  slice-last (x ∷ xs) ys (suc o) n e f = slice-last xs ys o n (omega arith) f

  -- A message of six fields.
  abbrev pub fields : (h c l front back tag : List A) → List A
  fields h c l front back tag = h ++ (c ++ (l ++ ((front ++ back) ++ tag)))

  -- Six fields written one behind the other are what the first bytes of the buffer are.
  pub write-fields :
      (buf h c l front back tag : List A) (o1 o2 o3 o4 o5 n : ℕ)
      → o1 ≡ length h
      → o2 ≡ o1 + length c
      → o3 ≡ o2 + length l
      → o4 ≡ o3 + length front
      → o5 ≡ o4 + length back
      → n ≡ o5 + length tag
      → n ≤ length buf
      → take n
          (write (write (write (write (write (write buf 0 h) o1 c) o2 l) o3 front) o4 back) o5 tag)
        ≡ fields h c l front back tag
  write-fields buf h c l front back tag o1 o2 o3 o4 o5 n e1 e2 e3 e4 e5 en fits =
      rw
        (
          write-write buf 0 o1 h c (omega arith),
          write-write buf 0 o2 hc l (omega (arith, length-append h c)),
          write-write buf 0 o3 hcl front (omega (arith, length-append h c, length-append hc l)),
          write-write buf 0 o4 hclf back
              (omega (arith, length-append h c, length-append hc l, length-append hcl front)),
          write-write buf 0 o5 hclfb tag long_enough,
        )
        (cut ∙ regrouped)
    where
      hc : List A
      hc = h ++ c

      hcl : List A
      hcl = hc ++ l

      hclf : List A
      hclf = hcl ++ front

      hclfb : List A
      hclfb = hclf ++ back

      long_enough : o5 ≡ 0 + length hclfb
      long_enough = omega (
        arith,
        length-append h c,
        length-append hc l,
        length-append hcl front,
        length-append hclf back,
      )

      total : n ≡ length (hclfb ++ tag)
      total = omega (arith, long_enough, length-append hclfb tag)

      cut : take n (write buf 0 (hclfb ++ tag)) ≡ hclfb ++ tag
      cut = rw total (slice-write_self buf 0 (hclfb ++ tag) (omega (arith, total)))

      regrouped : hclfb ++ tag ≡ fields h c l front back tag
      regrouped = simp append_assoc
