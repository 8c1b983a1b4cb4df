-- ===== src/Server/Init/Sessions.antt =====
-- The Sessions that hzl_ServerInit starts.
use hazelnet.Base.{
  ◌⊎◌, inl, inr, subst, ℕ, zero, suc, ◌+◌, ◌≤◌, ◌<◌, ◌≡◌, ◌≢◌, refl, false, arith, length, set,
}
use hazelnet.Base.Lists.{get_or-set_self, get_or-set_ne, length-set}
use hazelnet.Err.{Err, ok, is_ok_iff, is_ok-ok, programming}
use hazelnet.Payload.{stk_len}
use hazelnet.Platform.{Platform, Io, current_time}
use hazelnet.Utils.{is_all_zeros, non_zero_trng}
use hazelnet.Utils.Trng.{non_zero_trng_ok, is_all_zeros-zero_out}
use hazelnet.Server.{GroupState, ServerCtx, group_state, put_state, zero_state}
use hazelnet.Server.Group.{did_any_client_already_request, renewal_phase_is_active}
use hazelnet.Server.Init.{
  check_ctx, start_session, start_sessions_from, start_all_sessions, server_init,
}

-- A Session that has just begun.
pub record IsFresh (s : GroupState) : Type 0 where
  pub has_key : is_all_zeros s.current_stk ≡ false
  pub starts_at_zero : s.current_ctr_nonce ≡ 0
  pub unused : did_any_client_already_request s ≡ false
  pub no_renewal : renewal_phase_is_active s ≡ false

module _ (p : Platform) where
  start_session_ok :
      (io : Io) (s : GroupState) → (start_session p io s).0 ≡ ok → IsFresh (start_session p io s).1
  unfolding start_session did_any_client_already_request renewal_phase_is_active
  start_session_ok io s h = ground (
    arith,
    is_ok-ok,
    is_all_zeros-zero_out stk_len,
    is_ok_iff (non_zero_trng p (current_time p io).2 s.current_stk stk_len).0,
    non_zero_trng_ok p (current_time p io).2 s.current_stk stk_len,
  )

  -- One round on the context.
  abbrev after : ServerCtx → ℕ → ServerCtx
  after ctx i = record (put_state ctx i (start_session p ctx.io (group_state ctx i)).1) {
    io = (start_session p ctx.io (group_state ctx i)).2;
  }

  -- A round at `i` or above leaves the states below.
  start_sessions-below :
      (rounds i : ℕ) (err : Err) (ctx : ServerCtx) (j : ℕ)
      → j < i
      → group_state (start_sessions_from p rounds i err ctx).1 j ≡ group_state ctx j
  unfolding start_sessions_from
  start_sessions-below zero i err ctx j lt = refl
  start_sessions-below (suc rounds) i err ctx j lt = ground (
    arith,
    get_or-set_ne ctx.group_states (start_session p ctx.io (group_state ctx i)).1 zero_state differ,
    start_sessions-below rounds (i + 1) (start_session p ctx.io (group_state ctx i)).0 (after ctx i)
        j (omega arith),
  )
    where
      differ : i ≢ j
      differ = λ e. omega arith

  abbrev last_err : ServerCtx → ℕ → Err
  last_err ctx i = (start_session p ctx.io (group_state ctx i)).0

  start_sessions_first :
      (rounds i : ℕ) (err : Err) (ctx : ServerCtx)
      → i < length ctx.group_states
      → (start_sessions_from p (suc rounds) i err ctx).0 ≡ ok
      → IsFresh (group_state (start_sessions_from p (suc rounds) i err ctx).1 i)
  unfolding start_sessions_from
  start_sessions_first rounds i err ctx room h = ground (
    arith,
    is_ok-ok,
    is_ok_iff (last_err ctx i),
    get_or-set_self ctx.group_states i (start_session p ctx.io (group_state ctx i)).1 zero_state
        room,
    start_sessions-below rounds (i + 1) (last_err ctx i) (after ctx i) i (omega arith),
    start_session_ok ctx.io (group_state ctx i),
  )

  start_sessions_ok :
      (rounds i : ℕ) (err : Err) (ctx : ServerCtx)
      → i + rounds ≤ length ctx.group_states
      → (start_sessions_from p rounds i err ctx).0 ≡ ok
      → (j : ℕ) → i ≤ j
      → j < i + rounds
      → IsFresh (group_state (start_sessions_from p rounds i err ctx).1 j)
  unfolding start_sessions_from
  start_sessions_ok zero i err ctx room h j lo hi = absurd (omega arith)
  start_sessions_ok (suc rounds) i err ctx room h j lo hi = elim cases [
    | inl e ↦
        subst (λ k. IsFresh (group_state (start_sessions_from p (suc rounds) i err ctx).1 k)) e
          (start_sessions_first rounds i err ctx (omega arith) h)
    | inr above ↦ ground (
      arith,
      is_ok-ok,
      is_ok_iff (last_err ctx i),
      λ (later : (start_sessions_from p rounds (i + 1) (last_err ctx i) (after ctx i)).0 ≡ ok).
          start_sessions_ok rounds (i + 1) (last_err ctx i) (after ctx i) same_room later j above
            (omega arith),
    )
  ]
    where
      cases : (i ≡ j) ⊎ (i + 1 ≤ j)
      cases = ground arith

      same_room :
          i + 1 + rounds
          ≤ length (set ctx.group_states i (start_session p ctx.io (group_state ctx i)).1)
      same_room =
          omega
            (arith, length-set ctx.group_states i (start_session p ctx.io (group_state ctx i)).1)

  -- If `hzl_ServerInit` returns HZL_OK, with memory for the state of every configured Group, then
  -- each of them has a fresh Session: a key that is not zero, counter nonce 0, no Client that
  -- requested it yet and no renewal phase.
  pub server_init_ok :
      (ctx : ServerCtx)
      → ctx.server_config.amount_of_groups ≤ length ctx.group_states
      → (server_init p ctx).0 ≡ ok
      → (gid : ℕ) → gid < ctx.server_config.amount_of_groups
      → IsFresh (group_state (server_init p ctx).1 gid)
  unfolding server_init start_all_sessions
  server_init_ok ctx room h gid lt = ground (
    arith,
    is_ok-ok,
    is_ok_iff (check_ctx ctx),
    λ (e : (start_sessions_from p ctx.server_config.amount_of_groups 0 programming ctx).0 ≡ ok).
        start_sessions_ok ctx.server_config.amount_of_groups 0 programming ctx (omega arith) e gid
          (omega arith) (omega arith),
  )
