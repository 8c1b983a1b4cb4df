-- ===== src/Server/Group/Counters.antt =====
-- The counter nonces of a Server's Group: freshness, and what an accepted message does to them.
use hazelnet.Base.{
  ℕ, ◌+◌, ◌^◌, ◌≤◌, ◌<◌, ◌≡◌, refl, ◌↔◌, Bool, true, false, ◌&&◌, arith, ltb, leb, if◌then◌else◌,
}
use hazelnet.Base.Int.{ltb-to_int32-sub}
use hazelnet.Err.{ok, secwarn_received_overflown_nonce, secwarn_old_message}
use hazelnet.Platform.{Platform, FloatLaws}
use hazelnet.Timing.{ctr_delay}
use hazelnet.Timing.Bounds.{ctr_delay_bounds}
use hazelnet.Server.{GroupConfig, GroupState}
use hazelnet.Server.Group.{
  incr_current_ctrnonce, incr_previous_ctrnonce, renewal_phase_is_active,
  is_ctrnonce_of_previous_session, update_current_rx_last_message_instant,
  update_ctrnonce_and_rx_timestamp, check_rx_ctrnonce,
}

-- The ranges that the library keeps: 24-bit counters.
pub record IsBounded (s : GroupState) : Type 0 where
  pub current_fits : s.current_ctr_nonce < 2 ^ 24
  pub previous_fits : s.previous_ctr_nonce < 2 ^ 24

-- The part of a configuration that `hzl_ServerInit` checks and the counters depend on.
pub record IsTolerant (cfg : GroupConfig) : Type 0 where
  pub delay_fits : cfg.max_ctrnonce_delay_msgs ≤ 2 ^ 22
  pub silence_fits : cfg.max_silence_interval_millis < 2 ^ 16

-- Whether a received counter nonce is judged by the previous Session.
abbrev pub is_previous : GroupState → ℕ → Bool
is_previous s r = renewal_phase_is_active s && is_ctrnonce_of_previous_session s r

abbrev pub selected_instant : GroupState → ℕ → ℕ
selected_instant s r =
    if is_previous s r
    then s.previous_rx_last_message_instant
    else s.current_rx_last_message_instant

abbrev pub selected_ctrnonce : GroupState → ℕ → ℕ
selected_ctrnonce s r = if is_previous s r then s.previous_ctr_nonce else s.current_ctr_nonce

selected_fits : (s : GroupState) (r : ℕ) → IsBounded s → selected_ctrnonce s r < 2 ^ 24
selected_fits s r b = ground arith

module _ (p : Platform) (laws : FloatLaws p.floats) (cfg : GroupConfig) (s : GroupState)
    (r now : ℕ) where
  abbrev pub tolerance : ℕ
  tolerance =
      ctr_delay p (selected_instant s r) now cfg.max_ctrnonce_delay_msgs
        cfg.max_silence_interval_millis

  -- The check without the detour by signed numbers.
  check_rx_ctrnonce_lem :
      IsBounded s
      → IsTolerant cfg
      → r < 2 ^ 24
      → check_rx_ctrnonce p cfg s r now ≡ (
          if leb 0xff_ffff r
          then (secwarn_received_overflown_nonce, false)
          else if ltb (r + tolerance) (selected_ctrnonce s r)
          then (secwarn_old_message, false)
          else (ok, is_previous s r))
  unfolding check_rx_ctrnonce
  check_rx_ctrnonce_lem b t hr =
      let small : tolerance ≤ cfg.max_ctrnonce_delay_msgs =
        (ctr_delay_bounds p laws (selected_instant s r) now cfg.max_ctrnonce_delay_msgs
          cfg.max_silence_interval_millis (omega arith) (omega arith)).0 in
      rw
        (ltb-to_int32-sub r (selected_ctrnonce s r) tolerance (omega arith)
          (omega (arith, selected_fits s r b)) (omega arith))
        refl

  -- For counters of 24 bits and a configuration that passed the checks, a 24-bit counter nonce is
  -- accepted exactly if it is not the largest one and, raised by the tolerance of the Session that
  -- it is judged by, reaches that Session's counter; the answer names the Session.
  pub check_rx_ctrnonce_iff :
      IsBounded s
      → IsTolerant cfg
      → r < 2 ^ 24
      → (check_rx_ctrnonce p cfg s r now ≡ (ok, is_previous s r))
        ↔ ((r < 0xff_ffff) × (selected_ctrnonce s r ≤ r + tolerance))
  check_rx_ctrnonce_iff b t hr = rw (check_rx_ctrnonce_lem b t hr) (ground arith)

-- When a message is accepted, the counter of its Session becomes larger than its counter nonce
-- and does not fall; the other Session's counter stays.
pub update_ctrnonce_advances :
    (s : GroupState) (r now : ℕ) (previous : Bool)
    → r < 0xff_ffff
    → let s' = update_ctrnonce_and_rx_timestamp s r now previous in
      (previous ≡ true
        → (r < s'.previous_ctr_nonce)
          × (s.previous_ctr_nonce ≤ s'.previous_ctr_nonce)
          × (s'.current_ctr_nonce ≡ s.current_ctr_nonce))
      × (previous ≡ false
          → (r < s'.current_ctr_nonce)
            × (s.current_ctr_nonce ≤ s'.current_ctr_nonce)
            × (s'.previous_ctr_nonce ≡ s.previous_ctr_nonce))
unfolding update_ctrnonce_and_rx_timestamp incr_previous_ctrnonce incr_current_ctrnonce
    update_current_rx_last_message_instant
update_ctrnonce_advances s r now previous hr = ground arith
