-- ===== src/Client/Group.antt =====
-- src/client/hzl_ClientGroup.c: the functions on one Group of the Client.
use hazelnet.Base.{
  ℕ, zero, suc, ◌+◌, ◌*◌, ◌/◌, ◌%◌, ◌^◌, Bool, false, not, ◌&&◌, ◌||◌, Option, none, some, ltb, leb,
  ◌==◌, if◌then◌else◌,
}
use hazelnet.Base.Int.{◌-ℤ◌, ltb_ℤ, to_int32}
use hazelnet.Err.{
  Err, ok, is_ok, secwarn_received_overflown_nonce, secwarn_old_message,
  secwarn_not_expecting_a_response, secwarn_response_timeout,
}
use hazelnet.Payload.{max_ctrnonce, stk_len, reqnonce_not_expecting_a_response}
use hazelnet.Platform.{Platform, Io, current_time}
use hazelnet.Timing.{time_delta, ctr_delay}
use hazelnet.Utils.{is_all_zeros, zero_out}
use hazelnet.Client.{GroupConfig, GroupState, ClientCtx, group_config}

-- `HZL_IS_CTRNONCE_EXPIRED(ctr)`
abbrev pub is_ctrnonce_expired : ℕ → Bool
is_ctrnonce_expired ctr = leb max_ctrnonce ctr

-- The loop of `hzl_ClientFindGroup` over `rounds` indices from `i` on.
unfoldable pub find_group_from : ClientCtx → ℕ → ℕ → ℕ → Option ℕ
find_group_from ctx group_id zero i = none
find_group_from ctx group_id (suc rounds) i =
    let later = find_group_from ctx group_id rounds (i + 1) in
    if (group_config ctx i).gid == group_id then some i else later

-- `hzl_ClientFindGroup`: the index of the Group; `none` is `HZL_ERR_UNKNOWN_GROUP`.
unfoldable pub find_group : ClientCtx → ℕ → Option ℕ
find_group ctx group_id = find_group_from ctx group_id ctx.client_config.amount_of_groups 0

unfoldable pub is_session_established_and_valid : GroupState → Bool
is_session_established_and_valid s =
    not (is_all_zeros s.current_stk) && not (is_ctrnonce_expired s.current_ctr_nonce)

unfoldable pub is_response_acceptable : ℕ → GroupState → ℕ → Err
is_response_acceptable timeout_req_to_res_millis s rx_timestamp =
    if s.request_nonce == reqnonce_not_expecting_a_response
    then secwarn_not_expecting_a_response
    else if ltb timeout_req_to_res_millis (time_delta s.last_handshake_event_instant rx_timestamp)
    then secwarn_response_timeout
    else ok

unfoldable pub renewal_phase_is_active : GroupState → Bool
renewal_phase_is_active s = not (is_all_zeros s.previous_stk)

unfoldable pub is_renewal_acceptable : GroupState → Bool
is_renewal_acceptable s =
    not (renewal_phase_is_active s) && s.request_nonce == reqnonce_not_expecting_a_response

unfoldable pub incr_current_ctrnonce : GroupState → GroupState
incr_current_ctrnonce s =
    if not (is_ctrnonce_expired s.current_ctr_nonce)
    then record s { current_ctr_nonce = s.current_ctr_nonce + 1 }
    else s

unfoldable pub incr_previous_ctrnonce : GroupState → GroupState
incr_previous_ctrnonce s =
    if not (is_ctrnonce_expired s.previous_ctr_nonce)
    then record s { previous_ctr_nonce = s.previous_ctr_nonce + 1 }
    else s

unfoldable pub update_ctrnonce_and_rx_timestamp : GroupState → ℕ → ℕ → Bool → GroupState
update_ctrnonce_and_rx_timestamp s received_ctrnonce reception_timestamp is_previous_session =
    if is_previous_session
    then (let newest : GroupState =
          if ltb s.previous_ctr_nonce received_ctrnonce
          then record s { previous_ctr_nonce = received_ctrnonce }
          else s in
        let next = incr_previous_ctrnonce newest in
        record next { previous_rx_last_message_instant = reception_timestamp })
    else (let newest : GroupState =
          if ltb s.current_ctr_nonce received_ctrnonce
          then record s { current_ctr_nonce = received_ctrnonce }
          else s in
        let next = incr_current_ctrnonce newest in
        record next { current_rx_last_message_instant = reception_timestamp })

unfoldable pub renewal_phase_enter : GroupState → GroupState
renewal_phase_enter s = record s {
  previous_stk = s.current_stk;
  previous_rx_last_message_instant = s.current_rx_last_message_instant;
  previous_ctr_nonce = s.current_ctr_nonce;
}

unfoldable pub renewal_phase_exit : GroupState → GroupState
renewal_phase_exit s = record s {
  previous_stk = zero_out stk_len;
  previous_rx_last_message_instant = 0;
  previous_ctr_nonce = 0;
}

-- The product is of `uint32_t`.
unfoldable pub renewal_phase_is_over : GroupConfig → GroupState → ℕ → Bool
renewal_phase_is_over cfg s now =
    leb (2 * cfg.max_ctrnonce_delay_msgs % 2 ^ 32) s.current_ctr_nonce
    || ltb cfg.session_renewal_duration_millis (time_delta s.last_handshake_event_instant now)

unfoldable pub renewal_phase_exit_if_needed : GroupConfig → GroupState → ℕ → GroupState
renewal_phase_exit_if_needed cfg s now =
    if renewal_phase_is_active s && renewal_phase_is_over cfg s now then renewal_phase_exit s else s

unfoldable pub is_ctrnonce_of_previous_session : GroupState → ℕ → Bool
is_ctrnonce_of_previous_session s received_ctrnonce =
    leb ((s.current_ctr_nonce + s.previous_ctr_nonce) % 2 ^ 32 / 2) received_ctrnonce

module _ (p : Platform) where
  -- The code, `*isOngoing` (written only on success), and the calls made.
  unfoldable pub is_a_handshake_ongoing : ℕ → Io → GroupState → Err × Bool × Io
  is_a_handshake_ongoing timeout_req_to_res_millis io s =
      let was_request_transmitted = not (s.request_nonce == reqnonce_not_expecting_a_response) in
      let (err, now, io') = current_time p io in
      if is_ok err
      then (let elapsed = time_delta s.last_handshake_event_instant now in
          let is_response_timeout_expired = ltb timeout_req_to_res_millis elapsed in
          (ok, was_request_transmitted && not is_response_timeout_expired, io'))
      else (err, false, io')

  unfoldable pub set_request_tx_time_to_now : Io → GroupState → Err × GroupState × Io
  set_request_tx_time_to_now io s =
      let (err, now, io') = current_time p io in
      if is_ok err
      then (ok, record s { last_handshake_event_instant = now }, io')
      else (err, s, io')

  -- `wants_session` says whether the argument `isPreviousSession` is not NULL. The code, and
  -- `*isPreviousSession` (written only on success).
  unfoldable pub check_rx_ctrnonce : Bool → GroupConfig → GroupState → ℕ → ℕ → Err × Bool
  check_rx_ctrnonce wants_session cfg s received_ctrnonce rx_timestamp =
      if is_ctrnonce_expired received_ctrnonce
      then (secwarn_received_overflown_nonce, false)
      else (let is_previous =
            wants_session
            && (renewal_phase_is_active s && is_ctrnonce_of_previous_session s received_ctrnonce) in
          let selected_last_rx_timestamp : ℕ =
            if is_previous
            then s.previous_rx_last_message_instant
            else s.current_rx_last_message_instant in
          let selected_ctr_nonce : ℕ =
            if is_previous then s.previous_ctr_nonce else s.current_ctr_nonce in
          let delay =
            ctr_delay p selected_last_rx_timestamp rx_timestamp cfg.max_ctrnonce_delay_msgs
              cfg.max_silence_interval_millis in
          let oldest_tolerated_ctr_nonce = to_int32 selected_ctr_nonce -ℤ to_int32 delay in
          if ltb_ℤ (to_int32 received_ctrnonce) oldest_tolerated_ctr_nonce
          then (secwarn_old_message, false)
          else (ok, is_previous))
