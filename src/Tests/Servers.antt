-- ===== src/Tests/Servers.antt =====
-- The Server at concrete inputs.
use hazelnet.Base.{◌+◌, ◌*◌, ◌≤◌, ◌<◌, ◌≡◌, refl, ◌↔◌, true, false, not, arith, [], ◌∷◌, replicate}
use hazelnet.Base.{replicate}
use hazelnet.Err.{ok, is_ok}
use hazelnet.Header.{header_type_check, header_type_max_gid, header_type_max_sid}
use hazelnet.Platform.{current_time, trng}
use hazelnet.Timing.{time_delta}
use hazelnet.Utils.{is_all_zeros, zero_out, check_from, non_zero_trng, non_zero_trng_loop}
use hazelnet.Server.{
  GroupConfig, GroupState, ServerCtx, Nulls, group_state, zero_state, check_ctx_pointers,
}
use hazelnet.Server.Group.{
  check_rx_ctrnonce, update_ctrnonce_and_rx_timestamp, renewal_phase_is_active,
}
use hazelnet.Server.Group.Counters.{
  IsBounded, IsTolerant, is_previous, selected_ctrnonce, tolerance, check_rx_ctrnonce_iff,
  update_ctrnonce_advances,
}
use hazelnet.Server.Init.{
  check_ctx, check_server_config, check_client_configs, check_client, check_group_configs,
  check_group, check_group_limits, is_valid_delay_between_ren, all_clients_bitmap, start_session,
  start_sessions_from, start_all_sessions, server_init,
}
use hazelnet.Server.Init.Checks.{IsConfigured, IsLimited, check_ctx_ok}
use hazelnet.Server.Init.Sessions.{IsFresh, server_init_ok}
use hazelnet.Server.Preservation.{AllWellFormed}
use hazelnet.Server.Renewal.{back_up_session, renewal_phase_enter, renewal_phase_exit_if_needed}
use hazelnet.Server.Renewal.Phases.{
  Renewed, without_previous, renewal_phase_enter_ok, renewal_phase_exit_cases,
}
use hazelnet.Tests.Toy.{toy, toy_float_laws, no_calls}

abbrev all_set : Nulls
all_set = record {
  ctx = false;
  server_config = false;
  client_configs = false;
  group_configs = false;
  group_states = false;
  current_time = false;
  trng = false;
}

abbrev broadcast_config : GroupConfig
broadcast_config = record {
  max_ctrnonce_delay_msgs = 10;
  ctr_nonce_upper_limit = 1000;
  session_duration_millis = 60000;
  delay_between_ren_notifications_millis = 100;
  client_sids_in_group_bitmap = 3;
  max_silence_interval_millis = 5000;
  gid = 0;
}

abbrev pub two_clients : ServerCtx
two_clients = record {
  nulls = all_set;
  server_config = record { amount_of_groups = 1; amount_of_clients = 2; header_type = 0 };
  client_configs =
      record { sid = 1; ltk = replicate 16 1 } ∷ record { sid = 2; ltk = replicate 16 2 } ∷ [];
  group_configs = broadcast_config ∷ [];
  group_states = zero_state ∷ [];
  io = no_calls;
}

-- A Group in a renewal phase.
abbrev renewing : GroupState
renewing = record {
  session_start_instant = 50;
  current_rx_last_message_instant = 60;
  previous_rx_last_message_instant = 55;
  current_ctr_nonce = 5;
  previous_ctr_nonce = 70;
  current_stk = replicate 16 9;
  previous_stk = replicate 16 8;
}

pub two_clients-AllWellFormed : AllWellFormed two_clients
unfolding zero_out
two_clients-AllWellFormed = (omega arith, tt)

checked : check_ctx two_clients ≡ ok
unfolding check_ctx check_ctx_pointers check_server_config header_type_check header_type_max_gid
    header_type_max_sid check_client_configs check_client check_group_configs check_group
    check_group_limits is_valid_delay_between_ren all_clients_bitmap check_from is_all_zeros is_ok
checked = refl

check_ctx_ok_example : IsConfigured two_clients
check_ctx_ok_example = check_ctx_ok two_clients checked

started : (server_init toy two_clients).0 ≡ ok
unfolding server_init start_all_sessions start_sessions_from start_session current_time trng
    non_zero_trng non_zero_trng_loop check_ctx check_ctx_pointers check_server_config
    header_type_check header_type_max_gid header_type_max_sid check_client_configs check_client
    check_group_configs check_group check_group_limits is_valid_delay_between_ren all_clients_bitmap
    check_from is_all_zeros is_ok zero_out
started = refl

server_init_ok_example : IsFresh (group_state (server_init toy two_clients).1 0)
server_init_ok_example = server_init_ok toy two_clients (omega arith) started 0 (omega arith)

renewing-IsBounded : IsBounded renewing
renewing-IsBounded = omega arith

broadcast-IsTolerant : IsTolerant broadcast_config
broadcast-IsTolerant = omega arith

check_rx_ctrnonce_iff_example :
    (check_rx_ctrnonce toy broadcast_config renewing 66 80 ≡ (ok, is_previous renewing 66)) ↔ (
      (66 < 0xff_ffff)
      × (selected_ctrnonce renewing 66
          ≤ 66 + tolerance toy toy_float_laws broadcast_config renewing 66 80))
check_rx_ctrnonce_iff_example =
    check_rx_ctrnonce_iff toy toy_float_laws broadcast_config renewing 66 80 renewing-IsBounded
      broadcast-IsTolerant (omega arith)

update_ctrnonce_advances_example :
    let s' = update_ctrnonce_and_rx_timestamp renewing 66 80 true in
    (true ≡ true
      → (66 < s'.previous_ctr_nonce) × (70 ≤ s'.previous_ctr_nonce) × (s'.current_ctr_nonce ≡ 5))
    × (true ≡ false
        → (66 < s'.current_ctr_nonce) × (5 ≤ s'.current_ctr_nonce) × (s'.previous_ctr_nonce ≡ 70))
update_ctrnonce_advances_example = update_ctrnonce_advances renewing 66 80 true (omega arith)

entered : (renewal_phase_enter toy no_calls renewing).0 ≡ ok
unfolding renewal_phase_enter back_up_session current_time trng non_zero_trng non_zero_trng_loop
    is_all_zeros is_ok
entered = refl

renewal_phase_enter_ok_example :
    let s' = (renewal_phase_enter toy no_calls renewing).1 in
    Renewed renewing s' × (renewal_phase_is_active s' ≡ not (is_all_zeros renewing.current_stk))
renewal_phase_enter_ok_example = renewal_phase_enter_ok toy no_calls renewing entered

broadcast-IsLimited : IsLimited broadcast_config
broadcast-IsLimited = omega arith

active : renewal_phase_is_active renewing ≡ true
unfolding renewal_phase_is_active is_all_zeros
active = refl

renewal_phase_exit_cases_example :
    let s' = renewal_phase_exit_if_needed broadcast_config renewing 700 in
    (2 * 10 ≤ 5 → s' ≡ without_previous renewing)
    × (6 * 100 < time_delta 50 700 → s' ≡ without_previous renewing)
    × (5 < 2 * 10 → time_delta 50 700 ≤ 6 * 100 → s' ≡ renewing)
renewal_phase_exit_cases_example =
    renewal_phase_exit_cases broadcast_config renewing 700 broadcast-IsLimited (omega arith) active
