-- ===== src/Err.antt =====
-- inc/hzl.h, `hzl_Err_t`: the error codes, under their names without the prefix HZL_ERR_.
use hazelnet.Base.{ℕ, ◌≡◌, refl, Bool, true, false, ◌&&◌, leb, arith}

pub data Err : Type 0 where
  ok secwarn_invalid_tag secwarn_message_from_myself secwarn_not_expecting_a_response : Err
  secwarn_server_only_message secwarn_response_timeout secwarn_old_message : Err
  secwarn_denial_of_service secwarn_not_in_group secwarn_received_overflown_nonce : Err
  secwarn_received_zero_key secwarn_rfu_1 secwarn_rfu_2 secwarn_rfu_3 secwarn_rfu_4 : Err
  secwarn_rfu_5 programming null_ctx null_config_client null_config_server zero_groups : Err
  ltk_is_all_zeros invalid_header_type server_sid_assigned_to_client : Err
  sids_are_not_presorted_strictly_ascending gap_in_sids : Err
  sid_too_large_for_configured_header_type too_many_groups_for_configured_header_type : Err
  zero_clients too_many_clients too_many_clients_for_configured_header_type null_config_clients :
      Err
  null_config_groups gids_are_not_presorted_strictly_ascending gap_in_gids missing_gid_0 : Err
  invalid_max_ctrnonce_delay gid_too_large_for_configured_header_type : Err
  too_large_ctrnonce_upper_limit invalid_delay_between_ren_notifications : Err
  clients_bitmap_zero_clients clients_bitmap_unknown_sid clients_bitmap_invalid_broadcast_group :
      Err
  null_states_groups null_current_time_func null_trng_func null_pdu null_sdu unknown_group : Err
  unknown_source session_not_established too_long_sdu handshake_ongoing no_potential_receiver : Err
  renewal_ongoing invalid_payload_type too_short_pdu_to_contain_header : Err
  too_short_pdu_to_contain_sadfd too_short_pdu_to_contain_req too_short_pdu_to_contain_res : Err
  too_short_pdu_to_contain_ren too_long_ciphertext msg_ignored secwarn_received_zero_reqnonce : Err
  cannot_get_current_time cannot_generate_random cannot_generate_non_zero_random null_filename : Err
  cannot_open_config_file unexpected_eof invalid_file_magic_number malloc_failed : Err

-- The number of each code.
unfoldable pub code : Err → ℕ
code ok = 0
code secwarn_invalid_tag = 1
code secwarn_message_from_myself = 2
code secwarn_not_expecting_a_response = 3
code secwarn_server_only_message = 4
code secwarn_response_timeout = 5
code secwarn_old_message = 6
code secwarn_denial_of_service = 7
code secwarn_not_in_group = 8
code secwarn_received_overflown_nonce = 9
code secwarn_received_zero_key = 10
code secwarn_rfu_1 = 11
code secwarn_rfu_2 = 12
code secwarn_rfu_3 = 13
code secwarn_rfu_4 = 14
code secwarn_rfu_5 = 15
code programming = 16
code null_ctx = 17
code null_config_client = 18
code null_config_server = 19
code zero_groups = 20
code ltk_is_all_zeros = 21
code invalid_header_type = 22
code server_sid_assigned_to_client = 23
code sids_are_not_presorted_strictly_ascending = 24
code gap_in_sids = 25
code sid_too_large_for_configured_header_type = 26
code too_many_groups_for_configured_header_type = 27
code zero_clients = 28
code too_many_clients = 29
code too_many_clients_for_configured_header_type = 30
code null_config_clients = 31
code null_config_groups = 32
code gids_are_not_presorted_strictly_ascending = 33
code gap_in_gids = 34
code missing_gid_0 = 35
code invalid_max_ctrnonce_delay = 36
code gid_too_large_for_configured_header_type = 37
code too_large_ctrnonce_upper_limit = 38
code invalid_delay_between_ren_notifications = 39
code clients_bitmap_zero_clients = 40
code clients_bitmap_unknown_sid = 41
code clients_bitmap_invalid_broadcast_group = 42
code null_states_groups = 43
code null_current_time_func = 44
code null_trng_func = 45
code null_pdu = 60
code null_sdu = 61
code unknown_group = 62
code unknown_source = 63
code session_not_established = 64
code too_long_sdu = 70
code handshake_ongoing = 71
code no_potential_receiver = 72
code renewal_ongoing = 73
code invalid_payload_type = 80
code too_short_pdu_to_contain_header = 81
code too_short_pdu_to_contain_sadfd = 82
code too_short_pdu_to_contain_req = 83
code too_short_pdu_to_contain_res = 84
code too_short_pdu_to_contain_ren = 85
code too_long_ciphertext = 86
code msg_ignored = 87
code secwarn_received_zero_reqnonce = 88
code cannot_get_current_time = 100
code cannot_generate_random = 101
code cannot_generate_non_zero_random = 102
code null_filename = 120
code cannot_open_config_file = 121
code unexpected_eof = 122
code invalid_file_magic_number = 123
code malloc_failed = 124

-- `HZL_IS_SECURITY_WARNING(err)`.
pub is_security_warning : Err → Bool
unfolding code
is_security_warning e = leb 1 (code e) && leb (code e) 15

-- The test of `HZL_ERR_CHECK(err)`, negated.
unfoldable pub is_ok : Err → Bool
is_ok ok = true
is_ok _ = false

pub is_ok_iff : (e : Err) → is_ok e ≡ true → e ≡ ok
unfolding is_ok
is_ok_iff ok h = ground arith
is_ok_iff _ h = cc

pub is_ok-ok : is_ok ok ≡ true
unfolding is_ok
is_ok-ok = refl
