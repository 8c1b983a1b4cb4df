-- ===== src/Server/Renewal/Phases.antt =====
-- The phases of a renewal: what entering and leaving it does to the two Sessions of a Group.
use hazelnet.Base.{ℕ, ◌*◌, ◌^◌, ◌≤◌, ◌<◌, ◌≡◌, true, false, arith, not}
use hazelnet.Err.{ok, is_ok_iff, is_ok-ok}
use hazelnet.Payload.{stk_len}
use hazelnet.Platform.{Platform, Io, current_time}
use hazelnet.Timing.{time_delta}
use hazelnet.Utils.{is_all_zeros, non_zero_trng, zero_out}
use hazelnet.Utils.Trng.{non_zero_trng_ok}
use hazelnet.Server.{GroupConfig, GroupState}
use hazelnet.Server.Group.{did_any_client_already_request, renewal_phase_is_active}
use hazelnet.Server.Init.Checks.{IsLimited}
use hazelnet.Server.Renewal.{
  back_up_session, renewal_phase_enter, renewal_phase_exit, renewal_phase_exit_if_needed,
  renewal_phase_is_over,
}

-- What a renewal that began has made of the state `s`.
pub record Renewed (s s' : GroupState) : Type 0 where
  pub keeps_old_key : s'.previous_stk ≡ s.current_stk
  pub keeps_old_counter : s'.previous_ctr_nonce ≡ s.current_ctr_nonce
  pub keeps_old_instant : s'.previous_rx_last_message_instant ≡ s.current_rx_last_message_instant
  pub has_new_key : is_all_zeros s'.current_stk ≡ false
  pub starts_at_zero : s'.current_ctr_nonce ≡ 0
  pub unused : did_any_client_already_request s' ≡ false

-- When `hzl_ServerSessionRenewalPhaseEnter` returns HZL_OK, the Session so far is the previous one,
-- whole, and the current one is new: a key that is not zero, counter nonce 0, no Client yet. The
-- renewal phase is then active if the key so far was not zero.
pub renewal_phase_enter_ok :
    (p : Platform) (io : Io) (s : GroupState)
    → (renewal_phase_enter p io s).0 ≡ ok
    → let s' = (renewal_phase_enter p io s).1 in
      Renewed s s' × (renewal_phase_is_active s' ≡ not (is_all_zeros s.current_stk))
unfolding renewal_phase_enter back_up_session did_any_client_already_request renewal_phase_is_active
renewal_phase_enter_ok p io s h = ground (
  arith,
  is_ok-ok,
  is_ok_iff (non_zero_trng p (current_time p io).2 s.current_stk stk_len).0,
  non_zero_trng_ok p (current_time p io).2 s.current_stk stk_len,
)

-- The state without its previous Session.
abbrev pub without_previous : GroupState → GroupState
without_previous s = record s {
  previous_stk = zero_out stk_len;
  previous_rx_last_message_instant = 0;
  previous_ctr_nonce = 0;
}

-- For a configuration in its limits with a Session of at most 32 bits of milliseconds: looking at
-- a Group ends an active renewal phase exactly when the current Session's counter has reached
-- twice the tolerated delay or six notification intervals have passed since the Session began. The
-- previous Session's key, counter nonce and instant are then zeroed; nothing else of the state
-- changes, and without the end nothing at all.
pub renewal_phase_exit_cases :
    (cfg : GroupConfig) (s : GroupState) (now : ℕ)
    → IsLimited cfg
    → cfg.session_duration_millis < 2 ^ 32
    → renewal_phase_is_active s ≡ true
    → let s' = renewal_phase_exit_if_needed cfg s now in
      (2 * cfg.max_ctrnonce_delay_msgs ≤ s.current_ctr_nonce → s' ≡ without_previous s)
      × (6 * cfg.delay_between_ren_notifications_millis < time_delta s.session_start_instant now
          → s' ≡ without_previous s)
      × (s.current_ctr_nonce < 2 * cfg.max_ctrnonce_delay_msgs
          → time_delta s.session_start_instant now ≤ 6 * cfg.delay_between_ren_notifications_millis
          → s' ≡ s)
unfolding renewal_phase_exit_if_needed renewal_phase_exit renewal_phase_is_over
renewal_phase_exit_cases cfg s now l short active =
    ground (arith, l.six_notifications, l.delay_fits)
