-- ===== src/Client/Rejection.antt =====
-- Secured messages that the Client refuses, and the counter nonces that it accepts or uses.
use hazelnet.Base.{
  ℕ, ◌+◌, ◌≤◌, ◌<◌, ◌≡◌, ◌≢◌, ◌⊎◌, inl, inr, Bool-cases, true, false, arith, List, Option, some,
  length, slice,
}
use hazelnet.Base.Lists.{get_or-set_self}
use hazelnet.Endian.{decode_le24}
use hazelnet.Err.{Err, ok, is_ok, is_ok_iff, is_ok-ok}
use hazelnet.Header.{Header}
use hazelnet.Message.{CbsPduMsg, RxSduMsg}
use hazelnet.Payload.{max_ctrnonce, sadfd_ctrnonce_idx, sadfd_ctrnonce_len}
use hazelnet.Platform.{Platform}
use hazelnet.Utils.{is_all_zeros}
use hazelnet.Client.{ClientCtx, GroupConfig, GroupState, group_state, put_state, zero_state}
use hazelnet.Client.Build.{client_build_secured_fd, build_msg_sadfd}
use hazelnet.Client.Group.{
  find_group, check_rx_ctrnonce, update_ctrnonce_and_rx_timestamp, incr_previous_ctrnonce,
  incr_current_ctrnonce, is_session_established_and_valid,
}
use hazelnet.Client.SecuredFd.{open_secured_fd}

module _ (p : Platform) (hl : ℕ) (cfg : GroupConfig) (s : GroupState) (sdu : RxSduMsg) (rx : List ℕ)
    (len : ℕ) (hdr : Header) (now : ℕ) where
  abbrev pub opened : Err × GroupState × RxSduMsg
  opened = open_secured_fd p hl cfg s sdu rx len hdr now

  abbrev pub received_ctrnonce : ℕ
  received_ctrnonce = decode_le24 (slice (hl + sadfd_ctrnonce_idx) sadfd_ctrnonce_len rx)

  check_ok :
      (check_rx_ctrnonce p true cfg s received_ctrnonce now).0 ≡ ok
      → received_ctrnonce < max_ctrnonce
  unfolding check_rx_ctrnonce
  check_ok h = ground arith

  -- Secured data for a Group with an established Session: if it is refused, for whatever reason, the
  -- Group's state stays as it was, and the length and the mark for the user of the output stay too.
  -- If it is accepted, it lies within the received length and the 64 bytes of a frame, the output has
  -- the header's GID and SID, the counter nonce passed its check, the state is updated for the Session
  -- that this check chose, and one of the two counters is then above the counter nonce.
  pub open_secured_fd_cases :
      (opened.0 ≢ ok
        → (opened.1 ≡ s)
          × (opened.2.is_for_user ≡ sdu.is_for_user)
          × (opened.2.data_len ≡ sdu.data_len))
      × (opened.0 ≡ ok
          → (hl + 12 + opened.2.data_len ≤ len)
            × (hl + 12 + opened.2.data_len ≤ 64)
            × (opened.2.gid ≡ hdr.gid)
            × (opened.2.sid ≡ hdr.sid)
            × ((check_rx_ctrnonce p true cfg s received_ctrnonce now).0 ≡ ok)
            × (opened.1
                ≡ update_ctrnonce_and_rx_timestamp s received_ctrnonce now
                    (check_rx_ctrnonce p true cfg s received_ctrnonce now).1)
            × (received_ctrnonce < opened.1.current_ctr_nonce
                ⊎ received_ctrnonce < opened.1.previous_ctr_nonce))
  unfolding open_secured_fd update_ctrnonce_and_rx_timestamp incr_previous_ctrnonce
      incr_current_ctrnonce
  open_secured_fd_cases = (
    (λ h. ground (arith, is_ok-ok)),
    (λ h. ground (
      arith,
      is_ok-ok,
      check_ok,
      is_ok_iff (check_rx_ctrnonce p true cfg s received_ctrnonce now).0,
    )),
  )

valid_session :
    (s : GroupState)
    → is_session_established_and_valid s ≡ true
    → (is_all_zeros s.current_stk ≡ false) × (s.current_ctr_nonce < max_ctrnonce)
unfolding is_session_established_and_valid
valid_session s h = ground arith

incremented :
    (s : GroupState)
    → s.current_ctr_nonce < max_ctrnonce
    → ((incr_current_ctrnonce s).current_ctr_nonce ≡ s.current_ctr_nonce + 1)
      × ((incr_current_ctrnonce s).current_stk ≡ s.current_stk)
unfolding incr_current_ctrnonce
incremented s h = ground arith

module _ (p : Platform) where
  build_ok :
      (pdu : CbsPduMsg) (ctx : ClientCtx) (user_data : Option (List ℕ)) (len gid i : ℕ)
      → find_group ctx gid ≡ some i
      → (client_build_secured_fd p false pdu ctx user_data len gid).0 ≡ ok
      → (is_session_established_and_valid (group_state ctx i) ≡ true)
        × ((client_build_secured_fd p false pdu ctx user_data len gid).1
            ≡ put_state ctx i (incr_current_ctrnonce (group_state ctx i)))
  unfolding client_build_secured_fd build_msg_sadfd is_ok
  build_ok pdu ctx user_data len gid i found h = ground arith

  build_refused :
      (pdu : CbsPduMsg) (ctx : ClientCtx) (user_data : Option (List ℕ)) (len gid i : ℕ)
      → find_group ctx gid ≡ some i
      → (client_build_secured_fd p false pdu ctx user_data len gid).0 ≢ ok
      → ((client_build_secured_fd p false pdu ctx user_data len gid).1 ≡ ctx)
        × ((client_build_secured_fd p false pdu ctx user_data len gid).2.data_len ≡ 0)
  unfolding client_build_secured_fd build_msg_sadfd
  build_refused pdu ctx user_data len gid i found h =
      elim (Bool-cases (is_session_established_and_valid (group_state ctx i))) [
        | inl valid ↦ rw (found, valid) (ground arith)
        | inr invalid ↦ rw (found, invalid) (ground arith)
      ]

  pub build_uses_nonce :
      (pdu : CbsPduMsg) (ctx : ClientCtx) (user_data : Option (List ℕ)) (len gid i : ℕ)
      → find_group ctx gid ≡ some i
      → i < length ctx.group_states
      → let result = client_build_secured_fd p false pdu ctx user_data len gid in
        (result.0 ≡ ok
          → ((group_state ctx i).current_ctr_nonce < max_ctrnonce)
            × (is_all_zeros (group_state ctx i).current_stk ≡ false)
            × ((group_state result.1 i).current_ctr_nonce
                ≡ (group_state ctx i).current_ctr_nonce + 1)
            × ((group_state result.1 i).current_stk ≡ (group_state ctx i).current_stk))
        × (result.0 ≢ ok → (result.1 ≡ ctx) × (result.2.data_len ≡ 0))
  build_uses_nonce pdu ctx user_data len gid i found room = (
    (λ h.
        let used : is_session_established_and_valid (group_state ctx i) ≡ true =
          (build_ok pdu ctx user_data len gid i found h).0 in
        let valid : (is_all_zeros (group_state ctx i).current_stk ≡ false)
            × ((group_state ctx i).current_ctr_nonce < max_ctrnonce) =
          valid_session (group_state ctx i) used in
        let next : (client_build_secured_fd p false pdu ctx user_data len gid).1
            ≡ put_state ctx i (incr_current_ctrnonce (group_state ctx i)) =
          (build_ok pdu ctx user_data len gid i found h).1 in
        (
          valid.1,
          valid.0,
          rw
              (
                next,
                get_or-set_self ctx.group_states i (incr_current_ctrnonce (group_state ctx i))
                    zero_state room,
              )
              (incremented (group_state ctx i) valid.1).0,
          rw
              (
                next,
                get_or-set_self ctx.group_states i (incr_current_ctrnonce (group_state ctx i))
                    zero_state room,
              )
              (incremented (group_state ctx i) valid.1).1,
        )),
    build_refused pdu ctx user_data len gid i found,
  )
