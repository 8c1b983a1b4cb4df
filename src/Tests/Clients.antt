-- ===== src/Tests/Clients.antt =====
-- The Client at concrete inputs.
use hazelnet.Base.{
  ℕ, ◌+◌, ◌≤◌, ◌<◌, ◌≡◌, ◌≢◌, ◌⊎◌, refl, true, false, arith, List, [], ◌∷◌, ◌++◌, replicate, some,
  take, none,
}
use hazelnet.Endian.{encode_le64, decode_le24}
use hazelnet.Err.{Err, ok, is_ok}
use hazelnet.Header.{Header, header_len}
use hazelnet.Message.{RxSduMsg, zero_pdu, zero_sdu, aead_init_res}
use hazelnet.Platform.{aead_init, aead_assoc_data_update, aead_decrypt_update, aead_decrypt_finish}
use hazelnet.Timing.{time_delta}
use hazelnet.Utils.{is_all_zeros}
use hazelnet.Client.{
  GroupConfig, GroupState, ClientCtx, Nulls, group_state, group_config, put_state,
}
use hazelnet.Client.Build.{client_build_secured_fd}
use hazelnet.Client.Group.{
  find_group, find_group_from, is_response_acceptable, check_rx_ctrnonce,
  update_ctrnonce_and_rx_timestamp,
}
use hazelnet.Client.Groups.{Found, find_group_lem}
use hazelnet.Client.Handshake.{
  Answers, established, process_received_response_cases, response_not_replayable,
}
use hazelnet.Client.Nonce.{wire, client_build_secured_fd_nonce}
use hazelnet.Client.Rejection.{opened, received_ctrnonce, open_secured_fd_cases}
use hazelnet.Client.Response.{decrypt_stk, process_received_response}
use hazelnet.Tests.Toy.{toy, toy_aead_laws, no_calls}

abbrev all_set : Nulls
all_set = record {
  ctx = false;
  client_config = false;
  group_configs = false;
  group_states = false;
  current_time = false;
  trng = false;
}

abbrev pub broadcast_config : GroupConfig
broadcast_config = record {
  max_ctrnonce_delay_msgs = 10;
  max_silence_interval_millis = 5000;
  session_renewal_duration_millis = 600;
  gid = 0;
}

-- A Group with a Session and an outstanding Request.
abbrev pub requesting : GroupState
requesting = record {
  request_nonce = 42;
  last_handshake_event_instant = 60;
  current_rx_last_message_instant = 60;
  previous_rx_last_message_instant = 0;
  current_ctr_nonce = 5;
  previous_ctr_nonce = 0;
  current_stk = replicate 16 9;
  previous_stk = replicate 16 0;
}

abbrev pub one_group : ClientCtx
one_group = record {
  nulls = all_set;
  client_config = record {
    timeout_req_to_res_millis = 1000;
    ltk = replicate 16 1;
    sid = 1;
    header_type = 0;
    amount_of_groups = 1;
  };
  group_configs = broadcast_config ∷ [];
  group_states = requesting ∷ [];
  io = no_calls;
}

abbrev response : Header
response = record { gid = 0; sid = 0; pty = 1 }

-- Header, SID of the Client, counter nonce 5, response nonce, key and tag.
abbrev response_bytes : List ℕ
response_bytes =
    (0 ∷ 0 ∷ 1 ∷ 1 ∷ 5 ∷ 0 ∷ 0 ∷ [])
    ++ (replicate 8 7
        ++ (replicate 16 9
            ++ (5 ∷ 0 ∷ 0 ∷ 1 ∷ 1 ∷ 0 ∷ 0 ∷ 99 ∷ 98 ∷ 115 ∷ 95 ∷ 114 ∷ 101 ∷ 115 ∷ 112 ∷ 111 ∷ [])))

found : find_group one_group 0 ≡ some 0
unfolding find_group find_group_from
found = refl

accepted : (process_received_response toy one_group response_bytes 47 response 100).0 ≡ ok
unfolding process_received_response find_group find_group_from is_response_acceptable time_delta
    decode_le24 decrypt_stk encode_le64 aead_init_res aead_init aead_assoc_data_update
    aead_decrypt_update aead_decrypt_finish is_all_zeros is_ok header_len
accepted = refl

find_group_lem_example :
    ((i : ℕ) → find_group one_group 0 ≡ some i → Found one_group 0 0 1 i)
    × (find_group one_group 0 ≡ none → (j : ℕ) → j < 1 → (group_config one_group j).gid ≢ 0)
find_group_lem_example = find_group_lem one_group 0

process_received_response_cases_example :
    ((process_received_response toy one_group response_bytes 47 response 100).0 ≢ ok
      → (process_received_response toy one_group response_bytes 47 response 100).1 ≡ one_group)
    × ((process_received_response toy one_group response_bytes 47 response 100).0 ≡ ok
        → (response.sid ≡ 0)
          × ((process_received_response toy one_group response_bytes 47 response 100).1
              ≡ put_state one_group 0 (established toy one_group response_bytes 47 response 100 0))
          × (is_all_zeros (decrypt_stk toy one_group.client_config response 42 response_bytes).1
              ≡ false)
          × Answers 1000 requesting 100
              (established toy one_group response_bytes 47 response 100 0))
process_received_response_cases_example =
    process_received_response_cases toy one_group response_bytes 47 response 100 0 found

response_not_replayable_example :
    let ctx' = (process_received_response toy one_group response_bytes 47 response 100).1 in
    ((process_received_response toy ctx' response_bytes 47 response 120).0 ≢ ok)
    × ((process_received_response toy ctx' response_bytes 47 response 120).1 ≡ ctx')
response_not_replayable_example =
    response_not_replayable toy one_group response_bytes 47 response 100 0 found (omega arith)
      accepted response_bytes 47 120

client_build_secured_fd_nonce_example :
    let result = client_build_secured_fd toy false zero_pdu one_group (some (1 ∷ 2 ∷ [])) 2 0 in
    let s' = group_state result.1 0 in
    (result.0 ≡ ok
      → (5 < 0xff_ffff)
        × (is_all_zeros requesting.current_stk ≡ false)
        × (take result.2.data_len result.2.bytes
            ≡ wire toy toy_aead_laws one_group.client_config 0 requesting (1 ∷ 2 ∷ []))
        × (s'.current_ctr_nonce ≡ 5 + 1)
        × (s'.current_stk ≡ requesting.current_stk))
    × (result.0 ≢ ok → (result.1 ≡ one_group) × (result.2.data_len ≡ 0))
client_build_secured_fd_nonce_example =
    client_build_secured_fd_nonce toy toy_aead_laws zero_pdu one_group (1 ∷ 2 ∷ []) 0 0 found
      (omega arith) (omega arith) refl

abbrev data_header : Header
data_header = record { gid = 0; sid = 0; pty = 4 }

-- Header, counter nonce 6, one byte of user data and a tag that is wrong.
abbrev data_bytes : List ℕ
data_bytes = (0 ∷ 0 ∷ 4 ∷ 6 ∷ 0 ∷ 0 ∷ 1 ∷ 33 ∷ []) ++ replicate 8 0

abbrev unpacked : Err × GroupState × RxSduMsg
unpacked = opened toy 3 broadcast_config requesting zero_sdu data_bytes 16 data_header 100

abbrev data_ctrnonce : ℕ
data_ctrnonce =
    received_ctrnonce toy 3 broadcast_config requesting zero_sdu data_bytes 16 data_header 100

open_secured_fd_cases_example :
    (unpacked.0 ≢ ok
      → (unpacked.1 ≡ requesting) × (unpacked.2.is_for_user ≡ false) × (unpacked.2.data_len ≡ 0))
    × (unpacked.0 ≡ ok
        → (3 + 12 + unpacked.2.data_len ≤ 16)
          × (3 + 12 + unpacked.2.data_len ≤ 64)
          × (unpacked.2.gid ≡ 0)
          × (unpacked.2.sid ≡ 0)
          × ((check_rx_ctrnonce toy true broadcast_config requesting data_ctrnonce 100).0 ≡ ok)
          × (unpacked.1
              ≡ update_ctrnonce_and_rx_timestamp requesting data_ctrnonce 100
                  (check_rx_ctrnonce toy true broadcast_config requesting data_ctrnonce 100).1)
          × (data_ctrnonce < unpacked.1.current_ctr_nonce
              ⊎ data_ctrnonce < unpacked.1.previous_ctr_nonce))
open_secured_fd_cases_example =
    open_secured_fd_cases toy 3 broadcast_config requesting zero_sdu data_bytes 16 data_header 100
