-- ===== src/Server/Init.antt =====
-- src/server/hzl_ServerInit.c and hzl_ServerDeInit.c: the checks of the configuration, the start of
-- all Sessions, and the clearing of the state.
pub mod Checks
pub mod Sessions
use Prim.Native.Nat.{bit_and}
use hazelnet.Base.{
  ℕ, zero, suc, ◌+◌, ◌-◌, ◌/◌, ◌%◌, ◌^◌, Bool, not, ◌&&◌, List, ltb, leb, ◌==◌, get_or, replicate,
  drop, ◌++◌, if◌then◌else◌,
}
use hazelnet.Err.{
  Err, ok, is_ok, programming, zero_groups, too_many_groups_for_configured_header_type,
  zero_clients, too_many_clients_for_configured_header_type, too_many_clients, ltk_is_all_zeros,
  server_sid_assigned_to_client, sids_are_not_presorted_strictly_ascending, gap_in_sids,
  missing_gid_0, clients_bitmap_invalid_broadcast_group, gids_are_not_presorted_strictly_ascending,
  gap_in_gids, clients_bitmap_zero_clients, clients_bitmap_unknown_sid, invalid_max_ctrnonce_delay,
  too_large_ctrnonce_upper_limit, invalid_delay_between_ren_notifications, null_ctx,
  null_config_server, null_states_groups,
}
use hazelnet.Header.{header_type_check, header_type_max_gid, header_type_max_sid, broadcast_gid}
use hazelnet.Payload.{server_sid, stk_len, largest_max_counter_nonce_delay}
use hazelnet.Platform.{Platform, Io, current_time}
use hazelnet.Utils.{is_all_zeros, non_zero_trng, zero_out, check_from}
use hazelnet.Server.{
  ServerConfig, ClientConfig, GroupConfig, GroupState, ServerCtx, group_config, group_state,
  put_state, no_client, zero_state, check_ctx_pointers,
}

-- `HZL_SERVER_MAX_AMOUNT_OF_CLIENTS`
abbrev pub max_amount_of_clients : ℕ
max_amount_of_clients = 32

-- `HZL_SERVER_MAX_COUNTER_NONCE_UPPER_LIMIT`
abbrev pub max_counter_nonce_upper_limit : ℕ
max_counter_nonce_upper_limit = 0xff_ff80

unfoldable pub check_server_config : ServerConfig → Err
check_server_config config =
    let err = header_type_check config.header_type in
    if not (is_ok err)
    then err
    else if config.amount_of_groups == 0
    then zero_groups
    else if ltb (header_type_max_gid config.header_type + 1) config.amount_of_groups
    then too_many_groups_for_configured_header_type
    else if config.amount_of_clients == 0
    then zero_clients
    else if ltb (header_type_max_sid config.header_type) config.amount_of_clients
    then too_many_clients_for_configured_header_type
    else if ltb max_amount_of_clients config.amount_of_clients
    then too_many_clients
    else ok

-- `ctx->clientConfigs[i]`
abbrev pub client_config : List ClientConfig → ℕ → ClientConfig
client_config configs i = get_or configs i no_client

-- One round of the loop of `hzl_ServerInitCheckClientConfigs`.
unfoldable pub check_client : List ClientConfig → ℕ → Err
check_client configs i =
    if is_all_zeros (client_config configs i).ltk
    then ltk_is_all_zeros
    else if (client_config configs i).sid == server_sid
    then server_sid_assigned_to_client
    else if ltb 0 i
    then if leb (client_config configs i).sid (client_config configs (i - 1)).sid
      then sids_are_not_presorted_strictly_ascending
      else if not ((client_config configs (i - 1)).sid + 1 == (client_config configs i).sid)
      then gap_in_sids
      else ok
    else ok

unfoldable pub check_client_configs : ServerCtx → Err
check_client_configs ctx =
    check_from (check_client ctx.client_configs) ctx.server_config.amount_of_clients 0

unfoldable pub is_valid_delay_between_ren : GroupConfig → Bool
is_valid_delay_between_ren cfg =
    ltb 0 cfg.delay_between_ren_notifications_millis
    && ltb cfg.delay_between_ren_notifications_millis (cfg.session_duration_millis / 6)

-- `(uint32_t) (UINT64_MAX >> (64U - amountOfClients))`
unfoldable pub all_clients_bitmap : ℕ → ℕ
all_clients_bitmap amount_of_clients = (2 ^ 64 - 1) / 2 ^ (64 - amount_of_clients) % 2 ^ 32

-- One round of the loop of `hzl_ServerInitCheckGroupConfigs`, without and with a predecessor.
unfoldable pub check_group_limits : GroupConfig → Err
check_group_limits cfg =
    if ltb largest_max_counter_nonce_delay cfg.max_ctrnonce_delay_msgs
    then invalid_max_ctrnonce_delay
    else if ltb max_counter_nonce_upper_limit cfg.ctr_nonce_upper_limit
    then too_large_ctrnonce_upper_limit
    else if not (is_valid_delay_between_ren cfg)
    then invalid_delay_between_ren_notifications
    else ok

unfoldable pub check_group : ServerCtx → ℕ → Err
check_group ctx i =
    let all_client_sids = all_clients_bitmap ctx.server_config.amount_of_clients in
    let bitmap = (group_config ctx i).client_sids_in_group_bitmap in
    if ltb 0 i
    then if leb (group_config ctx i).gid (group_config ctx (i - 1)).gid
      then gids_are_not_presorted_strictly_ascending
      else if not ((group_config ctx (i - 1)).gid + 1 == (group_config ctx i).gid)
      then gap_in_gids
      else if bitmap == 0
      then clients_bitmap_zero_clients
      else if not (bit_and bitmap (2 ^ 32 - 1 - all_client_sids) == 0)
      then clients_bitmap_unknown_sid
      else check_group_limits (group_config ctx i)
    else check_group_limits (group_config ctx i)

unfoldable pub check_group_configs : ServerCtx → Err
check_group_configs ctx =
    let all_client_sids = all_clients_bitmap ctx.server_config.amount_of_clients in
    let first = group_config ctx 0 in
    if not (first.gid == broadcast_gid)
    then missing_gid_0
    else if not (bit_and first.client_sids_in_group_bitmap all_client_sids == all_client_sids)
    then clients_bitmap_invalid_broadcast_group
    else check_from (check_group ctx) ctx.server_config.amount_of_groups 0

unfoldable pub check_ctx : ServerCtx → Err
check_ctx ctx =
    if not (is_ok (check_ctx_pointers ctx.nulls))
    then check_ctx_pointers ctx.nulls
    else if not (is_ok (check_server_config ctx.server_config))
    then check_server_config ctx.server_config
    else if not (is_ok (check_client_configs ctx))
    then check_client_configs ctx
    else check_group_configs ctx

module _ (p : Platform) where
  -- One round of the loop of `hzl_ServerInitStartAllSessions`.
  unfoldable pub start_session : Io → GroupState → Err × GroupState × Io
  start_session io s =
      let (time_err, now, io') = current_time p io in
      if is_ok time_err
      then (let cleared : GroupState = record s {
        session_start_instant = now;
        current_rx_last_message_instant = now;
        previous_rx_last_message_instant = 0;
        current_ctr_nonce = 0;
        previous_ctr_nonce = 0;
      } in
          let (rng_err, stk, io'') = non_zero_trng p io' s.current_stk stk_len in
          let keyed : GroupState = record cleared { current_stk = stk } in
          if is_ok rng_err
          then (ok, record keyed { previous_stk = zero_out stk_len }, io'')
          else (rng_err, keyed, io''))
      else (time_err, s, io')

  -- The loop, with `err` as the rounds before left it.
  unfoldable pub start_sessions_from : ℕ → ℕ → Err → ServerCtx → Err × ServerCtx
  start_sessions_from zero i err ctx = (err, ctx)
  start_sessions_from (suc rounds) i err ctx =
      let (err', s, io') = start_session ctx.io (group_state ctx i) in
      let ctx' : ServerCtx = record (put_state ctx i s) { io = io' } in
      let later = start_sessions_from rounds (i + 1) err' ctx' in
      if is_ok err' then later else (err', ctx')

  unfoldable pub start_all_sessions : ServerCtx → Err × ServerCtx
  start_all_sessions ctx = start_sessions_from ctx.server_config.amount_of_groups 0 programming ctx

  unfoldable pub server_init : ServerCtx → Err × ServerCtx
  server_init ctx =
      if not (is_ok (check_ctx ctx)) then (check_ctx ctx, ctx) else start_all_sessions ctx

-- The states of the configured Groups are zeroed; what lies behind them in memory stays.
unfoldable pub server_de_init : ServerCtx → Err × ServerCtx
server_de_init ctx =
    if ctx.nulls.ctx
    then (null_ctx, ctx)
    else if ctx.nulls.server_config
    then (null_config_server, ctx)
    else if ctx.nulls.group_states
    then (null_states_groups, ctx)
    else (
      ok,
      record ctx {
        group_states =
            replicate ctx.server_config.amount_of_groups zero_state
            ++ drop ctx.server_config.amount_of_groups ctx.group_states;
      },
    )
