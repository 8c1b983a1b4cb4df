-- ===== src/Server/Slots/Groups.antt =====
-- Every function on one Group's state is steps of the machine.
use hazelnet.Base.{ℕ, ◌≤◌, refl, Bool, true, false, ◌≡◌, arith, List}
use hazelnet.Err.{is_ok}
use hazelnet.Message.{CbsPduMsg}
use hazelnet.Payload.{stk_len}
use hazelnet.Platform.{Platform, Io, current_time}
use hazelnet.Utils.{non_zero_trng}
use hazelnet.Server.{GroupConfig, GroupState}
use hazelnet.Server.Group.{
  incr_current_ctrnonce, incr_previous_ctrnonce, update_current_rx_last_message_instant,
  update_ctrnonce_and_rx_timestamp,
}
use hazelnet.Server.Group.{renewal_phase_is_active}
use hazelnet.Server.Renewal.{
  back_up_session, renewal_phase_exit, renewal_phase_exit_if_needed, renewal_phase_enter,
  build_msg_renewal, renewal_phase_enter_if_needed,
}
use hazelnet.Server.Slots.{
  Slots, slots, waits, uses_current, uses_previous, erases, spoils, renews, backs_up, Evolves,
  stays, once, Evolves-trans,
}

module _ (p : Platform) (n : ℕ) (s : GroupState) where
  pub idle-Evolves : (m : ℕ) → n ≤ m → Evolves p (slots n s) (slots m s)
  idle-Evolves m h = once p (waits _ _ h refl refl refl refl)

  pub incr_current-Evolves : Evolves p (slots n s) (slots n (incr_current_ctrnonce s))
  unfolding incr_current_ctrnonce
  incr_current-Evolves =
      once p (
        uses_current _ _ (ground arith) (ground arith) (ground arith) (ground arith) (ground arith))

  pub incr_previous-Evolves : Evolves p (slots n s) (slots n (incr_previous_ctrnonce s))
  unfolding incr_previous_ctrnonce
  incr_previous-Evolves =
      once p (
        uses_previous _ _ (ground arith) (ground arith) (ground arith) (ground arith)
          (ground arith))

  pub update_current_rx-Evolves :
      (now : ℕ) → Evolves p (slots n s) (slots n (update_current_rx_last_message_instant now s))
  unfolding update_current_rx_last_message_instant
  update_current_rx-Evolves now =
      once p (
        uses_current _ _ (ground arith) (ground arith) (ground arith) (ground arith) (ground arith))

  pub update_ctrnonce-Evolves :
      (r now : ℕ) (previous : Bool)
      → Evolves p (slots n s) (slots n (update_ctrnonce_and_rx_timestamp s r now previous))
  unfolding update_ctrnonce_and_rx_timestamp incr_previous_ctrnonce incr_current_ctrnonce
      update_current_rx_last_message_instant
  update_ctrnonce-Evolves r now true =
      once p (
        uses_previous _ _ (ground arith) (ground arith) (ground arith) (ground arith)
          (ground arith))
  update_ctrnonce-Evolves r now false =
      once p (
        uses_current _ _ (ground arith) (ground arith) (ground arith) (ground arith) (ground arith))

  exit-Evolves :
      renewal_phase_is_active s ≡ true → Evolves p (slots n s) (slots n (renewal_phase_exit s))
  unfolding renewal_phase_exit renewal_phase_is_active
  exit-Evolves active = once p (erases _ _ (ground (arith, active)) refl refl refl refl refl)

  pub exit_if_needed-Evolves :
      (cfg : GroupConfig) (now : ℕ)
      → Evolves p (slots n s) (slots n (renewal_phase_exit_if_needed cfg s now))
  unfolding renewal_phase_exit_if_needed
  exit_if_needed-Evolves cfg now =
      let same : Evolves p (slots n s) (slots n s) = stays (slots n s) in
      ground (arith, exit-Evolves, same)

pub enter-Evolves :
    (s : GroupState) (p : Platform) (io : Io)
    → Evolves p
        (slots io.random_calls s)
        (slots (renewal_phase_enter p io s).2.random_calls (renewal_phase_enter p io s).1)
unfolding renewal_phase_enter back_up_session current_time
enter-Evolves s p io =
    let asked = (current_time p io).2 in
    let made = non_zero_trng p asked s.current_stk stk_len in
    let from = slots io.random_calls s in
    ground (
      arith,
      λ (late : is_ok (current_time p io).0 ≡ false). once p (
          backs_up from (moved io.random_calls s.current_stk s.current_ctr_nonce) io late refl refl
            refl refl refl),
      λ (broken : is_ok made.0 ≡ false). once p (
          spoils from (moved made.2.random_calls made.1 s.current_ctr_nonce) asked refl broken refl
            refl refl refl refl),
      λ (fine : is_ok made.0 ≡ true). once p (
          renews from (moved made.2.random_calls made.1 0) asked refl fine refl refl refl refl
            refl),
    )
  where
    moved : ℕ → List ℕ → ℕ → Slots
    moved n key ctr = record {
      draws = n;
      key = key;
      ctr = ctr;
      old_key = s.current_stk;
      old_ctr = s.current_ctr_nonce;
    }

pub enter_if_needed-Evolves :
    (s : GroupState) (p : Platform) (header_type gid : ℕ) (cfg : GroupConfig) (now : ℕ) (io : Io)
    (pdu : CbsPduMsg)
    → let last = renewal_phase_enter_if_needed p header_type gid cfg now io s pdu in
      Evolves p (slots io.random_calls s) (slots last.2.random_calls last.1)
unfolding renewal_phase_enter_if_needed build_msg_renewal
enter_if_needed-Evolves s p header_type gid cfg now io pdu =
    let entered = renewal_phase_enter p io s in
    let same : Evolves p (slots io.random_calls s) (slots io.random_calls s) =
      stays (slots io.random_calls s) in
    ground (
      arith,
      same,
      enter-Evolves s p io,
      Evolves-trans p (enter-Evolves s p io)
          (incr_previous-Evolves p entered.2.random_calls entered.1),
    )
