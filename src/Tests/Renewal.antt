-- ===== src/Tests/Renewal.antt =====
-- A forced renewal that a Client answers.
use hazelnet.Base.{◌≡◌, refl, false, true, arith, [], ◌∷◌, replicate, some, ◌≤◌}
use hazelnet.Err.{ok, is_ok}
use hazelnet.Header.{header_type_max_gid}
use hazelnet.Message.{zero_pdu, zero_sdu}
use hazelnet.Platform.{current_time, trng}
use hazelnet.Timing.{ctr_delay, ceil_uint32, time_delta}
use hazelnet.Utils.{is_all_zeros, non_zero_trng, non_zero_trng_loop}
use hazelnet.Server
use hazelnet.Server.Build.{server_force_session_renewal}
use hazelnet.Server.Group.{did_any_client_already_request}
use hazelnet.Server.Renewal.{renewal_phase_enter, back_up_session, build_msg_renewal}
use hazelnet.Client
use hazelnet.Client.Build.{build_msg_req}
use hazelnet.Client.Group.{
  find_group, find_group_from, is_session_established_and_valid, is_renewal_acceptable,
  check_rx_ctrnonce, update_ctrnonce_and_rx_timestamp, is_ctrnonce_of_previous_session,
}
use hazelnet.Client.Receive.{client_process_received}
use hazelnet.Interop.Renewal.{forced_renewal-answered}
use hazelnet.Tests.Toy.{toy, toy_hash_laws}
use hazelnet.Tests.Channel.{server}
use hazelnet.Tests.Clients.{one_group}

abbrev in_session : Client.GroupState
in_session = record {
  request_nonce = 0;
  last_handshake_event_instant = 50;
  current_rx_last_message_instant = 60;
  previous_rx_last_message_instant = 0;
  current_ctr_nonce = 5;
  previous_ctr_nonce = 0;
  current_stk = replicate 16 9;
  previous_stk = replicate 16 0;
}

abbrev client : Client.ClientCtx
client = record one_group { group_states = in_session ∷ [] }

found : find_group client 0 ≡ some 0
unfolding find_group find_group_from
found = refl

inactive : Server.Group.renewal_phase_is_active (Server.group_state server 0) ≡ false
unfolding Server.Group.renewal_phase_is_active is_all_zeros
inactive = refl

valid : is_session_established_and_valid in_session ≡ true
unfolding is_session_established_and_valid is_all_zeros
valid = refl

acceptable : is_renewal_acceptable in_session ≡ true
unfolding is_renewal_acceptable Client.Group.renewal_phase_is_active is_all_zeros
acceptable = refl

clock : (current_time toy client.io).0 ≡ ok
unfolding current_time
clock = refl

pointers : Client.check_ctx_pointers client.nulls ≡ ok
unfolding Client.check_ctx_pointers
pointers = refl

in_range : 0 ≤ header_type_max_gid 0
unfolding header_type_max_gid
in_range = omega arith

accepted :
    (check_rx_ctrnonce toy false
      (Client.group_config client 0)
      in_session
      6
      (current_time toy client.io).1).0
    ≡ ok
unfolding current_time check_rx_ctrnonce is_ctrnonce_of_previous_session
    Client.Group.renewal_phase_is_active is_all_zeros ctr_delay ceil_uint32 time_delta
accepted = refl

forced : (server_force_session_renewal toy false zero_pdu server 0).0 ≡ ok
unfolding server_force_session_renewal Server.check_ctx_pointers
    Server.Group.renewal_phase_is_active did_any_client_already_request renewal_phase_enter
    back_up_session build_msg_renewal current_time trng non_zero_trng non_zero_trng_loop
    is_all_zeros is_ok
forced = refl

forced_renewal-answered_example :
    let sent = (server_force_session_renewal toy false zero_pdu server 0).2 in
    let request =
      build_msg_req toy client.client_config 0
        (current_time toy client.io).2
        (Client.Group.renewal_phase_enter
          (update_ctrnonce_and_rx_timestamp in_session 6 (current_time toy client.io).1 false))
        zero_pdu in
    client_process_received toy false false zero_pdu zero_sdu client
      (some sent.bytes)
      sent.data_len
      77
    ≡ (
      request.0,
      record (Client.put_state client 0 request.1) { io = request.2 },
      request.3,
      record zero_sdu { can_id = 77 },
    )
forced_renewal-answered_example =
    forced_renewal-answered toy toy_hash_laws server client 0 0 77 zero_pdu zero_pdu zero_sdu refl
      (omega arith) in_range (λ _. refl) pointers clock (λ e. omega arith) refl found refl
      (omega arith) inactive valid acceptable accepted forced
