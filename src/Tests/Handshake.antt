-- ===== src/Tests/Handshake.antt =====
-- A Client and a Server that agree on a Session.
use hazelnet.Base.{◌≡◌, ◌≤◌, refl, false, arith, [], ◌∷◌, replicate, some}
use hazelnet.Err.{Err, ok}
use hazelnet.Client.Build.{build_msg_req, client_build_request}
use hazelnet.Server.Request.{build_msg_response, process_received_request, validate_sid_and_gid}
use hazelnet.Client.{check_ctx_pointers}
use hazelnet.Message.{check_received_generic_msg, req_hash_init}
use hazelnet.Client.Receive.{client_process_received}
use hazelnet.Platform.{current_time, hash_digest, hash_digest_check, hash_update, trng}
use hazelnet.Endian.{decode_le64, encode_le24, encode_le64}
use hazelnet.Client.Group.{
  find_group, find_group_from, is_a_handshake_ongoing, set_request_tx_time_to_now,
}
use hazelnet.Header.{
  header0_pack, header0_unpack, header_len, header_pack, header_type_max_sid, header_unpack,
}
use hazelnet.Utils.{is_all_zeros, non_zero_trng, non_zero_trng_loop}
use hazelnet.Err.{is_ok}
use hazelnet.Server.Receive.{server_process_received}
use hazelnet.Timing.{time_delta}
use hazelnet.Message.{CbsPduMsg, RxSduMsg, zero_pdu, zero_sdu}
use hazelnet.Server
use hazelnet.Client
use hazelnet.Interop.Agreement.{handshake-SharesSession}
use hazelnet.Interop.Shared.{SharesSession}
use hazelnet.Interop.Handshake.{Partners}
use hazelnet.Tests.Toy.{toy, toy_aead_laws, toy_hash_laws, toy-GivesBytes}
use hazelnet.Tests.Servers.{two_clients}
use hazelnet.Tests.Clients.{one_group}

-- A Session of the Server that no Client has asked for yet.
abbrev offered : Server.GroupState
offered = record {
  session_start_instant = 50;
  current_rx_last_message_instant = 50;
  previous_rx_last_message_instant = 50;
  current_ctr_nonce = 6;
  previous_ctr_nonce = 0;
  current_stk = replicate 16 9;
  previous_stk = replicate 16 0;
}

abbrev server : Server.ServerCtx
server = record two_clients { group_states = offered ∷ [] }

-- A Client without a Session.
abbrev client : Client.ClientCtx
client = record one_group {
  group_states =
      record Client.zero_state { current_stk = replicate 16 0; previous_stk = replicate 16 0 } ∷ [];
}

abbrev requested : Err × Client.ClientCtx × CbsPduMsg
requested = client_build_request toy false zero_pdu client 0

abbrev answered : Err × Server.ServerCtx × CbsPduMsg × RxSduMsg
answered =
    server_process_received toy false false zero_pdu zero_sdu server (some requested.2.bytes)
      requested.2.data_len 77

partners : Partners client server 0 0
unfolding find_group find_group_from header_type_max_sid is_all_zeros
partners = record {
  fits = record {
    known = omega arith;
    gid_fits = omega arith;
    sid_fits = omega arith;
    pty_fits = omega arith;
  };
  own_sid = λ e. omega arith;
  not_type1 = λ e. omega arith;
  gid_kept = λ e. refl;
  same_type = refl;
  same_ltk = refl;
  in_group = refl;
  client_stk_full = refl;
  client_room = omega arith;
  server_room = omega arith;
  stk_full = refl;
  has_key = refl;
  fresh = omega arith;
}

asks : requested.0 ≡ ok
unfolding build_msg_req check_ctx_pointers client_build_request current_time find_group
    find_group_from is_a_handshake_ongoing is_all_zeros is_ok non_zero_trng non_zero_trng_loop
    set_request_tx_time_to_now trng
asks = refl

answers : answered.0 ≡ ok
unfolding build_msg_req build_msg_response check_ctx_pointers check_received_generic_msg
    client_build_request current_time decode_le64 encode_le24 encode_le64 find_group find_group_from
    hash_digest hash_digest_check hash_update hazelnet.Server.Receive.dispatch
    hazelnet.Server.check_ctx_pointers header0_pack header0_unpack header_len header_pack
    header_unpack is_a_handshake_ongoing is_all_zeros is_ok non_zero_trng non_zero_trng_loop
    process_received_request req_hash_init server_process_received set_request_tx_time_to_now trng
    validate_sid_and_gid
answers = refl

clock : (current_time toy requested.1.io).0 ≡ ok
unfolding current_time
clock = refl

in_time :
    time_delta
      (Client.group_state requested.1 0).last_handshake_event_instant
      (current_time toy requested.1.io).1
    ≤ 1000
unfolding build_msg_req check_ctx_pointers client_build_request client_process_received current_time
    find_group find_group_from is_a_handshake_ongoing is_all_zeros is_ok non_zero_trng
    non_zero_trng_loop set_request_tx_time_to_now time_delta trng
in_time = omega arith

handshake-SharesSession_example :
    let finished =
      client_process_received toy false false zero_pdu zero_sdu requested.1
        (some answered.2.bytes)
        answered.2.data_len
        77 in
    (finished.0 ≡ ok)
    × SharesSession (Client.group_state finished.1 0) (Server.group_state answered.1 0)
handshake-SharesSession_example =
    handshake-SharesSession toy toy_hash_laws toy_aead_laws toy-GivesBytes client server 0 0 77 77
      zero_pdu zero_pdu zero_pdu zero_sdu zero_sdu partners refl asks answers clock in_time
