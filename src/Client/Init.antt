-- ===== src/Client/Init.antt =====
-- src/client/hzl_ClientInit.c and hzl_ClientDeinit.c: the checks of the configuration, and the
-- clearing of the state.
use hazelnet.Base.{ℕ, ◌+◌, ◌-◌, not, ltb, leb, ◌==◌, replicate, drop, ◌++◌, if◌then◌else◌}
use hazelnet.Err.{
  Err, ok, is_ok, ltk_is_all_zeros, server_sid_assigned_to_client,
  sid_too_large_for_configured_header_type, zero_groups, too_many_groups_for_configured_header_type,
  missing_gid_0, invalid_max_ctrnonce_delay, gid_too_large_for_configured_header_type,
  gids_are_not_presorted_strictly_ascending, null_ctx, null_config_client, null_states_groups,
}
use hazelnet.Header.{header_type_check, header_type_max_gid, header_type_max_sid, broadcast_gid}
use hazelnet.Payload.{server_sid, largest_max_counter_nonce_delay}
use hazelnet.Utils.{is_all_zeros, check_from}
use hazelnet.Client.{ClientConfig, ClientCtx, group_config, zero_state, check_ctx_pointers}

unfoldable pub check_client_config : ClientConfig → Err
check_client_config config =
    if is_all_zeros config.ltk
    then ltk_is_all_zeros
    else if config.sid == server_sid
    then server_sid_assigned_to_client
    else if not (is_ok (header_type_check config.header_type))
    then header_type_check config.header_type
    else if ltb (header_type_max_sid config.header_type) config.sid
    then sid_too_large_for_configured_header_type
    else if config.amount_of_groups == 0
    then zero_groups
    else if ltb (header_type_max_gid config.header_type + 1) config.amount_of_groups
    then too_many_groups_for_configured_header_type
    else ok

-- One round of the loop of `hzl_ClientInitCheckGroupConfigs`.
unfoldable pub check_group : ClientCtx → ℕ → Err
check_group ctx i =
    if ltb largest_max_counter_nonce_delay (group_config ctx i).max_ctrnonce_delay_msgs
    then invalid_max_ctrnonce_delay
    else if ltb (header_type_max_gid ctx.client_config.header_type) (group_config ctx i).gid
    then gid_too_large_for_configured_header_type
    else if ltb 0 i
    then if leb (group_config ctx i).gid (group_config ctx (i - 1)).gid
      then gids_are_not_presorted_strictly_ascending
      else ok
    else ok

unfoldable pub check_group_configs : ClientCtx → Err
check_group_configs ctx =
    if not ((group_config ctx 0).gid == broadcast_gid)
    then missing_gid_0
    else check_from (check_group ctx) ctx.client_config.amount_of_groups 0

unfoldable pub check_ctx : ClientCtx → Err
check_ctx ctx =
    if not (is_ok (check_ctx_pointers ctx.nulls))
    then check_ctx_pointers ctx.nulls
    else if not (is_ok (check_client_config ctx.client_config))
    then check_client_config ctx.client_config
    else check_group_configs ctx

-- The states of the configured Groups are zeroed; what lies behind them in memory stays.
unfoldable pub clear_state_unchecked : ClientCtx → ClientCtx
clear_state_unchecked ctx = record ctx {
  group_states =
      replicate ctx.client_config.amount_of_groups zero_state
      ++ drop ctx.client_config.amount_of_groups ctx.group_states;
}

unfoldable pub client_init : ClientCtx → Err × ClientCtx
client_init ctx =
    if not (is_ok (check_ctx ctx)) then (check_ctx ctx, ctx) else (ok, clear_state_unchecked ctx)

unfoldable pub client_de_init : ClientCtx → Err × ClientCtx
client_de_init ctx =
    if ctx.nulls.ctx
    then (null_ctx, ctx)
    else if ctx.nulls.client_config
    then (null_config_client, ctx)
    else if ctx.nulls.group_states
    then (null_states_groups, ctx)
    else (ok, clear_state_unchecked ctx)
