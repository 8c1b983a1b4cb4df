-- ===== src/Server/Group.antt =====
-- src/server/hzl_ServerGroup.c, and the functions on one Group's counters and instants in
-- src/server/hzl_ServerBuildSecuredFd.c, hzl_ServerProcessReceivedRequest.c and
-- hzl_ServerProcessReceivedSecuredFd.c.
pub mod Counters
use hazelnet.Base.{
  ℕ, ◌+◌, ◌/◌, ◌%◌, ◌^◌, Bool, false, not, ◌&&◌, List, ltb, leb, ◌==◌, if◌then◌else◌,
}
use hazelnet.Base.Int.{◌-ℤ◌, ltb_ℤ, to_int32}
use hazelnet.Err.{Err, ok, secwarn_received_overflown_nonce, secwarn_old_message}
use hazelnet.Payload.{max_ctrnonce}
use hazelnet.Platform.{Platform}
use hazelnet.Timing.{ctr_delay}
use hazelnet.Utils.{is_all_zeros}
use hazelnet.Server.{GroupConfig, GroupState}

-- `HZL_IS_CTRNONCE_EXPIRED(ctr)`
abbrev pub is_ctrnonce_expired : ℕ → Bool
is_ctrnonce_expired ctr = leb max_ctrnonce ctr

unfoldable pub incr_current_ctrnonce : GroupState → GroupState
incr_current_ctrnonce s =
    if not (is_ctrnonce_expired s.current_ctr_nonce)
    then record s { current_ctr_nonce = s.current_ctr_nonce + 1 }
    else s

unfoldable pub incr_previous_ctrnonce : GroupState → GroupState
incr_previous_ctrnonce s =
    if not (is_ctrnonce_expired s.previous_ctr_nonce)
    then record s { previous_ctr_nonce = s.previous_ctr_nonce + 1 }
    else s

unfoldable pub renewal_phase_is_active : GroupState → Bool
renewal_phase_is_active s = not (is_all_zeros s.previous_stk)

unfoldable pub did_any_client_already_request : GroupState → Bool
did_any_client_already_request s =
    not (s.current_rx_last_message_instant == s.session_start_instant)

-- `currentRxLastMessageInstant++` is of a `uint32_t`.
unfoldable pub update_current_rx_last_message_instant : ℕ → GroupState → GroupState
update_current_rx_last_message_instant rx_timestamp s =
    if rx_timestamp == s.session_start_instant
    then record s { current_rx_last_message_instant = (rx_timestamp + 1) % 2 ^ 32 }
    else record s { current_rx_last_message_instant = rx_timestamp }

unfoldable pub is_ctrnonce_of_previous_session : GroupState → ℕ → Bool
is_ctrnonce_of_previous_session s received_ctrnonce =
    leb ((s.current_ctr_nonce + s.previous_ctr_nonce) % 2 ^ 32 / 2) received_ctrnonce

unfoldable pub choose_previous_or_current_stk : GroupState → Bool → List ℕ
choose_previous_or_current_stk s is_previous_session =
    if is_previous_session then s.previous_stk else s.current_stk

unfoldable pub update_ctrnonce_and_rx_timestamp : GroupState → ℕ → ℕ → Bool → GroupState
update_ctrnonce_and_rx_timestamp s received_ctrnonce reception_timestamp is_previous_session =
    if is_previous_session
    then (let newest : GroupState =
          if ltb s.previous_ctr_nonce received_ctrnonce
          then record s { previous_ctr_nonce = received_ctrnonce }
          else s in
        let next = incr_previous_ctrnonce newest in
        record next { previous_rx_last_message_instant = reception_timestamp })
    else (let newest : GroupState =
          if ltb s.current_ctr_nonce received_ctrnonce
          then record s { current_ctr_nonce = received_ctrnonce }
          else s in
        update_current_rx_last_message_instant reception_timestamp (incr_current_ctrnonce newest))

module _ (p : Platform) where
  -- The code, and `*isPreviousSession` (which is written only on success).
  unfoldable pub check_rx_ctrnonce : GroupConfig → GroupState → ℕ → ℕ → Err × Bool
  check_rx_ctrnonce cfg s received_ctrnonce rx_timestamp =
      if is_ctrnonce_expired received_ctrnonce
      then (secwarn_received_overflown_nonce, false)
      else (let is_previous =
            renewal_phase_is_active s && is_ctrnonce_of_previous_session s received_ctrnonce in
          let selected_last_rx_timestamp : ℕ =
            if is_previous
            then s.previous_rx_last_message_instant
            else s.current_rx_last_message_instant in
          let selected_ctr_nonce : ℕ =
            if is_previous then s.previous_ctr_nonce else s.current_ctr_nonce in
          let delay =
            ctr_delay p selected_last_rx_timestamp rx_timestamp cfg.max_ctrnonce_delay_msgs
              cfg.max_silence_interval_millis in
          let oldest_tolerated_ctr_nonce = to_int32 selected_ctr_nonce -ℤ to_int32 delay in
          if ltb_ℤ (to_int32 received_ctrnonce) oldest_tolerated_ctr_nonce
          then (secwarn_old_message, false)
          else (ok, is_previous))
