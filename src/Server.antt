-- ===== src/Server.antt =====
-- inc/hzl_Server.h and src/server/hzl_ServerInternal.h: the data of the Server, and the access to
-- one Group of it.
--
-- The functions on a Group take its configuration `ctx->groupConfigs[gid]` and its state
-- `ctx->groupStates[gid]`, and return the new state; the handlers read and write them in the context.
pub mod Group
pub mod Invariant
pub mod Preservation
pub mod Safety
pub mod Traces
pub mod Slots
pub mod Renewal
pub mod Init
pub mod Build
pub mod Request
pub mod SecuredFd
pub mod Receive
use hazelnet.Base.{ℕ, Bool, List, get_or, set, if◌then◌else◌}
use hazelnet.Err.{
  Err, ok, null_ctx, null_config_server, null_config_clients, null_config_groups,
  null_states_groups, null_current_time_func, null_trng_func,
}
use hazelnet.Payload.{stk_len}
use hazelnet.Platform.{Io}
use hazelnet.Utils.{zero_out}

-- `hzl_ServerConfig_t`
pub record ServerConfig : Type 0 where
  pub amount_of_groups : ℕ
  pub amount_of_clients : ℕ
  pub header_type : ℕ

-- `hzl_ServerClientConfig_t`
pub record ClientConfig : Type 0 where
  pub sid : ℕ
  pub ltk : List ℕ

-- `hzl_ServerGroupConfig_t`
pub record GroupConfig : Type 0 where
  pub max_ctrnonce_delay_msgs : ℕ
  pub ctr_nonce_upper_limit : ℕ
  pub session_duration_millis : ℕ
  pub delay_between_ren_notifications_millis : ℕ
  pub client_sids_in_group_bitmap : ℕ
  pub max_silence_interval_millis : ℕ
  pub gid : ℕ

-- `hzl_ServerGroupState_t`
pub record GroupState : Type 0 where
  pub session_start_instant : ℕ
  pub current_rx_last_message_instant : ℕ
  pub previous_rx_last_message_instant : ℕ
  pub current_ctr_nonce : ℕ
  pub previous_ctr_nonce : ℕ
  pub current_stk : List ℕ
  pub previous_stk : List ℕ

-- Which of the pointers that `hzl_ServerCheckCtxPointers` checks are NULL.
pub record Nulls : Type 0 where
  pub ctx : Bool
  pub server_config : Bool
  pub client_configs : Bool
  pub group_configs : Bool
  pub group_states : Bool
  pub current_time : Bool
  pub trng : Bool

-- `hzl_ServerCtx_t`
pub record ServerCtx : Type 0 where
  pub nulls : Nulls
  pub server_config : ServerConfig
  pub client_configs : List ClientConfig
  pub group_configs : List GroupConfig
  pub group_states : List GroupState
  pub io : Io

-- What a read outside of the arrays gives in the model; the guards of the code exclude it.
abbrev pub no_client : ClientConfig
no_client = record { sid = 0; ltk = zero_out stk_len }

abbrev pub no_config : GroupConfig
no_config = record {
  max_ctrnonce_delay_msgs = 0;
  ctr_nonce_upper_limit = 0;
  session_duration_millis = 0;
  delay_between_ren_notifications_millis = 0;
  client_sids_in_group_bitmap = 0;
  max_silence_interval_millis = 0;
  gid = 0;
}

-- A Group state of zeros, which `hzl_ZeroOut` leaves.
abbrev pub zero_state : GroupState
zero_state = record {
  session_start_instant = 0;
  current_rx_last_message_instant = 0;
  previous_rx_last_message_instant = 0;
  current_ctr_nonce = 0;
  previous_ctr_nonce = 0;
  current_stk = zero_out stk_len;
  previous_stk = zero_out stk_len;
}

-- `ctx->groupStates[gid]`
abbrev pub group_state : ServerCtx → ℕ → GroupState
group_state ctx gid = get_or ctx.group_states gid zero_state

-- `ctx->groupConfigs[gid]`
abbrev pub group_config : ServerCtx → ℕ → GroupConfig
group_config ctx gid = get_or ctx.group_configs gid no_config

-- The context with a new state of a Group.
abbrev pub put_state : ServerCtx → ℕ → GroupState → ServerCtx
put_state ctx gid s = record ctx { group_states = set ctx.group_states gid s }

-- `hzl_ServerCheckCtxPointers`
unfoldable pub check_ctx_pointers : Nulls → Err
check_ctx_pointers nulls =
    if nulls.ctx
    then null_ctx
    else if nulls.server_config
    then null_config_server
    else if nulls.client_configs
    then null_config_clients
    else if nulls.group_configs
    then null_config_groups
    else if nulls.group_states
    then null_states_groups
    else if nulls.current_time
    then null_current_time_func
    else if nulls.trng
    then null_trng_func
    else ok
