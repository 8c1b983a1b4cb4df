-- ===== src/Client/Groups.antt =====
-- The search for a Group by its GID: hzl_ClientFindGroup.
use hazelnet.Base.{
  ℕ, zero, suc, ◌+◌, ◌≤◌, ◌<◌, ◌≡◌, ◌≢◌, refl, ap, sym, ◌∙◌, inl, inr, Bool-cases, some, none,
  arith, ◌==◌,
}
use hazelnet.Platform.{Io}
use hazelnet.Client.{ClientCtx, group_config}
use hazelnet.Client.Group.{find_group_from, find_group}

find_group_from-io :
    (ctx : ClientCtx) (io : Io) (gid rounds i : ℕ)
    → find_group_from (record ctx { io = io }) gid rounds i ≡ find_group_from ctx gid rounds i
unfolding find_group_from
find_group_from-io ctx io gid zero i = refl
find_group_from-io ctx io gid (suc rounds) i =
    ground (arith, find_group_from-io ctx io gid rounds (i + 1))

-- The search does not depend on the callbacks.
pub find_group-io :
    (ctx : ClientCtx) (io : Io) (gid : ℕ)
    → find_group (record ctx { io = io }) gid ≡ find_group ctx gid
unfolding find_group
find_group-io ctx io gid = find_group_from-io ctx io gid ctx.client_config.amount_of_groups 0

-- What a search from an index on finds.
pub record Found (ctx : ClientCtx) (gid : ℕ) (from upto : ℕ) (i : ℕ) : Type 0 where
  pub lower : from ≤ i
  pub upper : i < upto
  pub has_gid : (group_config ctx i).gid ≡ gid
  pub is_first : (j : ℕ) → from ≤ j → j < i → (group_config ctx j).gid ≢ gid

find_group_from-some :
    (ctx : ClientCtx) (gid rounds from i : ℕ)
    → find_group_from ctx gid rounds from ≡ some i
    → Found ctx gid from (from + rounds) i
unfolding find_group_from
find_group_from-some ctx gid zero from i h = cc
find_group_from-some ctx gid (suc rounds) from i h =
    elim (Bool-cases ((group_config ctx from).gid == gid)) [
      | inl hit ↦
          let here : from ≡ i = ground arith in
          record {
            lower = omega arith;
            upper = omega arith;
            has_gid = ap (λ (k : ℕ). (group_config ctx k).gid) (sym here) ∙ ground arith;
            is_first = λ j lo hi. absurd (omega arith);
          }
      | inr missed ↦
          let later : Found ctx gid (from + 1) (from + 1 + rounds) i =
            find_group_from-some ctx gid rounds (from + 1) i (ground arith) in
          record {
            lower = omega (arith, later.lower);
            upper = omega (arith, later.upper);
            has_gid = later.has_gid;
            is_first = λ j lo hi same. ground (
              arith,
              missed,
              later.is_first j,
              ap (λ (k : ℕ). (group_config ctx k).gid) {x = from} {y = j},
            );
          }
    ]

find_group_from-none :
    (ctx : ClientCtx) (gid rounds from : ℕ)
    → find_group_from ctx gid rounds from ≡ none
    → (j : ℕ) → from ≤ j
    → j < from + rounds
    → (group_config ctx j).gid ≢ gid
unfolding find_group_from
find_group_from-none ctx gid zero from h j lo hi = absurd (omega arith)
find_group_from-none ctx gid (suc rounds) from h j lo hi = λ same. ground (
  arith,
  λ (later : find_group_from ctx gid rounds (from + 1) ≡ none).
      find_group_from-none ctx gid rounds (from + 1) later j,
  λ (e : from ≡ j). ap (λ (k : ℕ). (group_config ctx k).gid) e,
)

-- `hzl_ClientFindGroup` gives the first configured Group with the GID, and HZL_ERR_UNKNOWN_GROUP
-- exactly if no configured Group has it.
pub find_group_lem :
    (ctx : ClientCtx) (gid : ℕ)
    → ((i : ℕ) → find_group ctx gid ≡ some i → Found ctx gid 0 ctx.client_config.amount_of_groups i)
      × (find_group ctx gid ≡ none
          → (j : ℕ) → j < ctx.client_config.amount_of_groups
          → (group_config ctx j).gid ≢ gid)
unfolding find_group
find_group_lem ctx gid = (
  λ i h.
      let found : Found ctx gid 0 (0 + ctx.client_config.amount_of_groups) i =
        find_group_from-some ctx gid ctx.client_config.amount_of_groups 0 i h in
      record {
        lower = found.lower;
        upper = omega (arith, found.upper);
        has_gid = found.has_gid;
        is_first = found.is_first;
      },
  λ h j lt.
      find_group_from-none ctx gid ctx.client_config.amount_of_groups 0 h j (omega arith)
        (omega arith),
)
