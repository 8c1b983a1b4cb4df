-- ===== src/Tests/Channel.antt =====
-- A secured message from a Server to a Client.
use hazelnet.Base.{ℕ, ◌≡◌, refl, false, arith, List, [], ◌∷◌, replicate, some}
use hazelnet.Err.{ok, is_ok}
use hazelnet.Header.{header_len, header_type_max_gid}
use hazelnet.Message.{check_msg_before_packing, max_data_len, zero_pdu, zero_sdu}
use hazelnet.Platform.{current_time}
use hazelnet.Timing.{time_delta, ctr_delay, ceil_uint32}
use hazelnet.Utils.{is_all_zeros}
use hazelnet.Server
use hazelnet.Server.Build.{server_build_secured_fd, build_msg_sadfd}
use hazelnet.Server.Group.{did_any_client_already_request}
use hazelnet.Client
use hazelnet.Client.Group.{
  find_group, find_group_from, is_session_established_and_valid, renewal_phase_exit_if_needed,
  renewal_phase_is_active, update_ctrnonce_and_rx_timestamp, check_rx_ctrnonce,
  is_ctrnonce_of_previous_session,
}
use hazelnet.Client.Receive.{client_process_received}
use hazelnet.Interop.Delivery.{Listens, heard, delivered}
use hazelnet.Interop.EndToEnd.{secured_fd-delivered}
use hazelnet.Tests.Toy.{toy, toy_aead_laws, no_calls}
use hazelnet.Tests.Servers.{two_clients}
use hazelnet.Tests.Clients.{one_group}

-- The Session that the Client has.
abbrev pub in_session : Server.GroupState
in_session = record {
  session_start_instant = 50;
  current_rx_last_message_instant = 60;
  previous_rx_last_message_instant = 0;
  current_ctr_nonce = 6;
  previous_ctr_nonce = 0;
  current_stk = replicate 16 9;
  previous_stk = replicate 16 0;
}

abbrev pub server : Server.ServerCtx
server = record two_clients { group_states = in_session ∷ [] }

abbrev text : List ℕ
text = 104 ∷ 101 ∷ 108 ∷ 108 ∷ 111 ∷ []

listens : Listens toy 0 0 in_session one_group 0
unfolding Client.check_ctx_pointers current_time find_group find_group_from
    is_session_established_and_valid renewal_phase_exit_if_needed renewal_phase_is_active
    is_all_zeros check_rx_ctrnonce is_ctrnonce_of_previous_session ctr_delay ceil_uint32 time_delta
listens = record {
  has_pointers = refl;
  has_clock = refl;
  same_type = refl;
  own_sid = λ e. omega arith;
  in_group = refl;
  is_established = refl;
  same_stk = refl;
  accepted = refl;
}

sent : (server_build_secured_fd toy false zero_pdu server (some text) 5 0).0 ≡ ok
unfolding server_build_secured_fd Server.check_ctx_pointers check_msg_before_packing max_data_len
    header_len header_type_max_gid did_any_client_already_request build_msg_sadfd is_ok
sent = refl

secured_fd-delivered_example :
    let built = (server_build_secured_fd toy false zero_pdu server (some text) 5 0).2 in
    client_process_received toy false false zero_pdu zero_sdu one_group
      (some built.bytes)
      built.data_len
      77
    ≡ (
      ok,
      record (Client.put_state one_group 0 (
          update_ctrnonce_and_rx_timestamp
            (heard toy one_group 0)
            6
            (current_time toy no_calls).1
            false)) { io = (current_time toy no_calls).2 },
      zero_pdu,
      delivered (record zero_sdu { can_id = 77 }) 0 text,
    )
secured_fd-delivered_example =
    secured_fd-delivered toy toy_aead_laws server one_group text 0 0 77 zero_pdu zero_pdu zero_sdu
      (omega arith) (λ e. refl) (omega arith) refl listens sent
