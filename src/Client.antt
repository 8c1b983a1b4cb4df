-- ===== src/Client.antt =====
-- inc/hzl_Client.h, src/client/hzl_ClientInternal.h and the check of the pointers in
-- src/client/hzl_ClientInit.c: the data of the Client.
--
-- `hzl_ClientGroup_t`, a pair of pointers into the arrays of configurations and states, is the index
-- of the Group; the functions on a Group take its configuration and state and return the new state.
pub mod Group
pub mod Init
pub mod Build
pub mod Response
pub mod Renewal
pub mod SecuredFd
pub mod Receive
pub mod Groups
pub mod Rejection
pub mod Handshake
pub mod Nonce
use hazelnet.Base.{ℕ, zero, suc, Bool, List, get_or, set, if◌then◌else◌}
use hazelnet.Err.{
  Err, ok, null_ctx, null_config_client, null_config_groups, null_states_groups,
  null_current_time_func, null_trng_func,
}
use hazelnet.Payload.{stk_len}
use hazelnet.Platform.{Io}
use hazelnet.Utils.{zero_out}

-- `hzl_ClientConfig_t`
pub record ClientConfig : Type 0 where
  pub timeout_req_to_res_millis : ℕ
  pub ltk : List ℕ
  pub sid : ℕ
  pub header_type : ℕ
  pub amount_of_groups : ℕ

-- `hzl_ClientGroupConfig_t`
pub record GroupConfig : Type 0 where
  pub max_ctrnonce_delay_msgs : ℕ
  pub max_silence_interval_millis : ℕ
  pub session_renewal_duration_millis : ℕ
  pub gid : ℕ

-- `hzl_ClientGroupState_t`
pub record GroupState : Type 0 where
  pub request_nonce : ℕ
  pub last_handshake_event_instant : ℕ
  pub current_rx_last_message_instant : ℕ
  pub previous_rx_last_message_instant : ℕ
  pub current_ctr_nonce : ℕ
  pub previous_ctr_nonce : ℕ
  pub current_stk : List ℕ
  pub previous_stk : List ℕ

-- Which of the pointers that `hzl_ClientCheckCtxPointers` checks are NULL.
pub record Nulls : Type 0 where
  pub ctx : Bool
  pub client_config : Bool
  pub group_configs : Bool
  pub group_states : Bool
  pub current_time : Bool
  pub trng : Bool

-- `hzl_ClientCtx_t`
pub record ClientCtx : Type 0 where
  pub nulls : Nulls
  pub client_config : ClientConfig
  pub group_configs : List GroupConfig
  pub group_states : List GroupState
  pub io : Io

-- What a read outside of the array gives in the model.
abbrev pub no_config : GroupConfig
no_config = record {
  max_ctrnonce_delay_msgs = 0;
  max_silence_interval_millis = 0;
  session_renewal_duration_millis = 0;
  gid = 0;
}

-- A Group state of zeros, which `hzl_ZeroOut` leaves.
abbrev pub zero_state : GroupState
zero_state = record {
  request_nonce = 0;
  last_handshake_event_instant = 0;
  current_rx_last_message_instant = 0;
  previous_rx_last_message_instant = 0;
  current_ctr_nonce = 0;
  previous_ctr_nonce = 0;
  current_stk = zero_out stk_len;
  previous_stk = zero_out stk_len;
}

-- `group->state` and `group->config` of the Group at an index.
abbrev pub group_state : ClientCtx → ℕ → GroupState
group_state ctx i = get_or ctx.group_states i zero_state

abbrev pub group_config : ClientCtx → ℕ → GroupConfig
group_config ctx i = get_or ctx.group_configs i no_config

abbrev pub put_state : ClientCtx → ℕ → GroupState → ClientCtx
put_state ctx i s = record ctx { group_states = set ctx.group_states i s }

-- `hzl_ClientCheckCtxPointers`
unfoldable pub check_ctx_pointers : Nulls → Err
check_ctx_pointers nulls =
    if nulls.ctx
    then null_ctx
    else if nulls.client_config
    then null_config_client
    else if nulls.group_configs
    then null_config_groups
    else if nulls.group_states
    then null_states_groups
    else if nulls.current_time
    then null_current_time_func
    else if nulls.trng
    then null_trng_func
    else ok
