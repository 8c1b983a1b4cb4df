-- ===== src/Server/Invariant.antt =====
-- The invariant of the Server's Group states, kept by every function on one Group.
use hazelnet.Base.{ℕ, ◌≤◌, ◌<◌, ◌≡◌, Bool, arith, length, length-replicate}
use hazelnet.Err.{ok}
use hazelnet.Message.{CbsPduMsg}
use hazelnet.Payload.{stk_len, max_ctrnonce}
use hazelnet.Platform.{Platform, Io, current_time}
use hazelnet.Utils.{zero_out}
use hazelnet.Utils.Trng.{length-non_zero_trng}
use hazelnet.Server.{GroupConfig, GroupState, zero_state}
use hazelnet.Server.Group.{
  incr_current_ctrnonce, incr_previous_ctrnonce, update_current_rx_last_message_instant,
  update_ctrnonce_and_rx_timestamp, check_rx_ctrnonce,
}
use hazelnet.Server.Init.{start_session}
use hazelnet.Server.Renewal.{
  back_up_session, renewal_phase_exit, renewal_phase_exit_if_needed, renewal_phase_enter,
  build_msg_renewal, renewal_phase_enter_if_needed,
}

-- Counters of 24 bits, keys of 16 bytes.
pub record IsWellFormed (s : GroupState) : Type 0 where
  pub current_fits : s.current_ctr_nonce ≤ max_ctrnonce
  pub previous_fits : s.previous_ctr_nonce ≤ max_ctrnonce
  pub current_stk_len : length s.current_stk ≡ stk_len
  pub previous_stk_len : length s.previous_stk ≡ stk_len

pub length-zero_out : (n : ℕ) → length (zero_out n) ≡ n
unfolding zero_out
length-zero_out n = length-replicate n 0

pub zero_state-IsWellFormed : IsWellFormed zero_state
zero_state-IsWellFormed = omega (arith, length-zero_out stk_len)

module _ {s : GroupState} (w : IsWellFormed s) where
  pub incr_current_ctrnonce-IsWellFormed : IsWellFormed (incr_current_ctrnonce s)
  unfolding incr_current_ctrnonce
  incr_current_ctrnonce-IsWellFormed = ground arith

  pub incr_previous_ctrnonce-IsWellFormed : IsWellFormed (incr_previous_ctrnonce s)
  unfolding incr_previous_ctrnonce
  incr_previous_ctrnonce-IsWellFormed = ground arith

  pub update_current_rx-IsWellFormed :
      (now : ℕ) → IsWellFormed (update_current_rx_last_message_instant now s)
  unfolding update_current_rx_last_message_instant
  update_current_rx-IsWellFormed now = ground arith

  pub update_ctrnonce-IsWellFormed :
      (r now : ℕ) (previous : Bool)
      → r < max_ctrnonce
      → IsWellFormed (update_ctrnonce_and_rx_timestamp s r now previous)
  unfolding update_ctrnonce_and_rx_timestamp incr_previous_ctrnonce incr_current_ctrnonce
      update_current_rx_last_message_instant
  update_ctrnonce-IsWellFormed r now previous h = ground arith

  pub renewal_phase_exit_if_needed-IsWellFormed :
      (cfg : GroupConfig) (now : ℕ) → IsWellFormed (renewal_phase_exit_if_needed cfg s now)
  unfolding renewal_phase_exit_if_needed renewal_phase_exit
  renewal_phase_exit_if_needed-IsWellFormed cfg now = ground (arith, length-zero_out stk_len)

  module _ (p : Platform) where
    pub renewal_phase_enter-IsWellFormed : (io : Io) → IsWellFormed (renewal_phase_enter p io s).1
    unfolding renewal_phase_enter back_up_session
    renewal_phase_enter-IsWellFormed io =
        ground (arith, length-non_zero_trng p (current_time p io).2 s.current_stk stk_len)

    pub start_session-IsWellFormed : (io : Io) → IsWellFormed (start_session p io s).1
    unfolding start_session
    start_session-IsWellFormed io = ground (
      arith,
      length-zero_out stk_len,
      length-non_zero_trng p (current_time p io).2 s.current_stk stk_len,
    )

-- An accepted counter nonce is below the largest.
pub check_rx_ctrnonce_ok :
    (p : Platform) (cfg : GroupConfig) (s : GroupState) (r now : ℕ)
    → (check_rx_ctrnonce p cfg s r now).0 ≡ ok
    → r < max_ctrnonce
unfolding check_rx_ctrnonce
check_rx_ctrnonce_ok p cfg s r now h = ground arith

pub enter_if_needed-IsWellFormed :
    (p : Platform) (header_type gid : ℕ) (cfg : GroupConfig) (now : ℕ) (io : Io) (s : GroupState)
    (pdu : CbsPduMsg)
    → IsWellFormed s
    → IsWellFormed (renewal_phase_enter_if_needed p header_type gid cfg now io s pdu).1
unfolding renewal_phase_enter_if_needed build_msg_renewal
enter_if_needed-IsWellFormed p header_type gid cfg now io s pdu w = ground (
  arith,
  renewal_phase_enter-IsWellFormed w p io,
  incr_previous_ctrnonce-IsWellFormed (renewal_phase_enter-IsWellFormed w p io),
)
