-- ===== src/Server/Slots.antt =====
-- The keys of a Group of the Server as a small machine: the current key and the previous one, each
-- with its counter nonce. It forgets the instants, the messages and everything else of the context.
pub mod Groups
pub mod Operations
pub mod Refinement
use hazelnet.Base.{ℕ, ◌≤◌, ◌<◌, ◌≡◌, ◌∙◌, refl, true, false, List, arith}
use hazelnet.Err.{Err, is_ok}
use hazelnet.Payload.{stk_len}
use hazelnet.Platform.{Platform, Io, current_time}
use hazelnet.Utils.{is_all_zeros, non_zero_trng, zero_out}
use hazelnet.Utils.Trng.{non_zero_trng_draws}
use hazelnet.Server.{GroupState}

-- `draws` counts the calls of the random generator.
pub record Slots : Type 0 where
  pub draws : ℕ
  pub key : List ℕ
  pub ctr : ℕ
  pub old_key : List ℕ
  pub old_ctr : ℕ

abbrev pub slots : ℕ → GroupState → Slots
slots draws s = record {
  draws = draws;
  key = s.current_stk;
  ctr = s.current_ctr_nonce;
  old_key = s.previous_stk;
  old_ctr = s.previous_ctr_nonce;
}

module _ (p : Platform) where
  -- The draw of a new key over the current one.
  abbrev pub drawn : Slots → Io → Err × List ℕ × Io
  drawn a io = non_zero_trng p io a.key stk_len

  -- The current key is replaced only by the draw that starts at the calls made so far, and only a
  -- draw that succeeded sets its counter back, to 0. The previous key is replaced by the current one,
  -- when a new key is drawn or the clock fails before the draw, or erased while it is not zero.
  pub data Rolls : Slots → Slots → Type 0 where
    -- Random bytes are drawn for something else.
    waits :
        (a b : Slots)
        → a.draws ≤ b.draws
        → b.key ≡ a.key
        → b.ctr ≡ a.ctr
        → b.old_key ≡ a.old_key
        → b.old_ctr ≡ a.old_ctr
        → Rolls a b
    uses_current :
        (a b : Slots)
        → b.draws ≡ a.draws
        → b.key ≡ a.key
        → a.ctr ≤ b.ctr
        → b.old_key ≡ a.old_key
        → b.old_ctr ≡ a.old_ctr
        → Rolls a b
    uses_previous :
        (a b : Slots)
        → b.draws ≡ a.draws
        → b.key ≡ a.key
        → b.ctr ≡ a.ctr
        → b.old_key ≡ a.old_key
        → a.old_ctr ≤ b.old_ctr
        → Rolls a b
    erases :
        (a b : Slots)
        → is_all_zeros a.old_key ≡ false
        → b.draws ≡ a.draws
        → b.key ≡ a.key
        → b.ctr ≡ a.ctr
        → b.old_key ≡ zero_out stk_len
        → b.old_ctr ≡ 0
        → Rolls a b
    -- The clock failed before the draw.
    backs_up :
        (a b : Slots) (io : Io)
        → is_ok (current_time p io).0 ≡ false
        → b.draws ≡ a.draws
        → b.key ≡ a.key
        → b.ctr ≡ a.ctr
        → b.old_key ≡ a.key
        → b.old_ctr ≡ a.ctr
        → Rolls a b
    -- The random generator failed: what it left is the key, and the counter stays.
    spoils :
        (a b : Slots) (io : Io)
        → io.random_calls ≡ a.draws
        → is_ok (drawn a io).0 ≡ false
        → b.draws ≡ (drawn a io).2.random_calls
        → b.key ≡ (drawn a io).1
        → b.ctr ≡ a.ctr
        → b.old_key ≡ a.key
        → b.old_ctr ≡ a.ctr
        → Rolls a b
    renews :
        (a b : Slots) (io : Io)
        → io.random_calls ≡ a.draws
        → is_ok (drawn a io).0 ≡ true
        → b.draws ≡ (drawn a io).2.random_calls
        → b.key ≡ (drawn a io).1
        → b.ctr ≡ 0
        → b.old_key ≡ a.key
        → b.old_ctr ≡ a.ctr
        → Rolls a b

  -- Any number of steps.
  pub data Evolves : Slots → Slots → Type 0 where
    stays : (a : Slots) → Evolves a a
    then : {a b c : Slots} → Evolves a b → Rolls b c → Evolves a c

  abbrev pub once : {a b : Slots} → Rolls a b → Evolves a b
  once {a = a} r = then (stays a) r

  pub Evolves-trans : {a b c : Slots} → Evolves a b → Evolves b c → Evolves a c
  Evolves-trans e (stays _) = e
  Evolves-trans e (then f r) = then (Evolves-trans e f) r

-- What becomes of the previous key without a draw.
pub data Remains (a b : Slots) : Type 0 where
  stays_behind : b.old_key ≡ a.old_key → a.old_ctr ≤ b.old_ctr → Remains a b
  is_current : b.old_key ≡ a.key → a.ctr ≤ b.old_ctr → Remains a b
  is_erased : b.old_key ≡ zero_out stk_len → Remains a b

-- What the steps come to without a draw.
pub record Holds (a b : Slots) : Type 0 where
  pub draws_grow : a.draws ≤ b.draws
  pub same_key : b.draws ≡ a.draws → b.key ≡ a.key
  pub ctr_grows : b.draws ≡ a.draws → a.ctr ≤ b.ctr
  pub remains : b.draws ≡ a.draws → Remains a b

module _ {a b c : Slots} (h : Holds a b) where
  Remains-then : c.old_key ≡ b.old_key → b.old_ctr ≤ c.old_ctr → b.draws ≡ a.draws → Remains a c
  Remains-then k n same = elim (h.remains same) [
    | stays_behind e l ↦ stays_behind (k ∙ e) (omega arith)
    | is_current e l ↦ is_current (k ∙ e) (omega arith)
    | is_erased e ↦ is_erased (k ∙ e)
  ]

  -- A step without a draw.
  Holds-quiet :
      b.draws ≤ c.draws
      → c.key ≡ b.key
      → b.ctr ≤ c.ctr
      → (b.draws ≡ a.draws → Remains a c)
      → Holds a c
  Holds-quiet d k n old = record {
    draws_grow = omega (arith, h.draws_grow);
    same_key = λ same. k ∙ h.same_key (omega (arith, h.draws_grow));
    ctr_grows = λ same. omega (arith, h.draws_grow, h.ctr_grows (omega (arith, h.draws_grow)));
    remains = λ same. old (omega (arith, h.draws_grow));
  }

  -- A step with a draw.
  Holds-drawn : b.draws < c.draws → Holds a c
  Holds-drawn d = record {
    draws_grow = omega (arith, h.draws_grow);
    same_key = λ same. absurd (omega (arith, h.draws_grow));
    ctr_grows = λ same. absurd (omega (arith, h.draws_grow));
    remains = λ same. absurd (omega (arith, h.draws_grow));
  }

  Remains-current : c.old_key ≡ b.key → c.old_ctr ≡ b.ctr → b.draws ≡ a.draws → Remains a c
  Remains-current k n same = is_current (k ∙ h.same_key same) (omega (arith, h.ctr_grows same))

module _ (p : Platform) where
  Holds-then : {a b c : Slots} → Holds a b → Rolls p b c → Holds a c
  Holds-then h (waits b c d k n ok oc) =
      Holds-quiet h d k (omega arith) (Remains-then h ok (omega arith))
  Holds-then h (uses_current b c d k n ok oc) =
      Holds-quiet h (omega arith) k n (Remains-then h ok (omega arith))
  Holds-then h (uses_previous b c d k n ok oc) =
      Holds-quiet h (omega arith) k (omega arith) (Remains-then h ok oc)
  Holds-then h (erases b c z d k n ok oc) =
      Holds-quiet h (omega arith) k (omega arith) (λ same. is_erased ok)
  Holds-then h (backs_up b c io f d k n ok oc) =
      Holds-quiet h (omega arith) k (omega arith) (Remains-current h ok oc)
  Holds-then h (spoils b c io e f d k n ok oc) =
      Holds-drawn h (omega (arith, non_zero_trng_draws p io b.key stk_len))
  Holds-then h (renews b c io e f d k n ok oc) =
      Holds-drawn h (omega (arith, non_zero_trng_draws p io b.key stk_len))

  -- While the random generator is not called, the current key stays and its counter does not fall,
  -- and the previous key stays, is the current one by now, or is erased.
  pub Evolves-Holds : {a b : Slots} → Evolves p a b → Holds a b
  Evolves-Holds (stays a) = record {
    draws_grow = omega arith;
    same_key = λ _. refl;
    ctr_grows = λ _. omega arith;
    remains = λ _. stays_behind refl (omega arith);
  }
  Evolves-Holds (then e r) = Holds-then (Evolves-Holds e) r
