-- ===== src/Server/Slots/Operations.antt =====
-- Every call of the Server's API is steps of the machine of its keys, for each Group:
-- src/server/hzl_ServerBuildSecuredFd.c, hzl_ServerForceSessionRenewal.c and hzl_ServerProcessReceived.c.
use hazelnet.Base.{
  ℕ, zero, suc, Bool, arith, List, [], ◌∷◌, Option, get_or, set, slice, ◌+◌, ◌≤◌, write,
}
use hazelnet.Base.Lists.{set-set_self}
use hazelnet.Server.Renewal.{renewal_phase_enter_if_needed}
use hazelnet.Endian.{decode_le24, encode_le24}
use hazelnet.Header.{Header, header_len, header_pack, header_unpack}
use hazelnet.Message.{CbsPduMsg, RxSduMsg, bytes_of, zero_pdu, zero_sdu, check_received_generic_msg}
use hazelnet.Payload.{
  sadfd_ctrnonce_idx, sadfd_ctrnonce_len, res_client_idx, res_ctrnonce_idx, res_resnonce_idx,
  res_resnonce_len,
}
use hazelnet.Platform.{Platform, current_time}
use hazelnet.Utils.{non_zero_trng}
use hazelnet.Utils.Trng.{non_zero_trng_draws}
use hazelnet.Server.{GroupState, ServerCtx, group_state, group_config, zero_state}
use hazelnet.Server.Build.{build_msg_sadfd, server_build_secured_fd, server_force_session_renewal}
use hazelnet.Server.Group.{
  check_rx_ctrnonce, update_current_rx_last_message_instant, update_ctrnonce_and_rx_timestamp,
  incr_current_ctrnonce, incr_previous_ctrnonce,
}
use hazelnet.Server.Receive.{dispatch, server_process_received}
use hazelnet.Server.Renewal.{renewal_phase_exit_if_needed, renewal_phase_enter, build_msg_renewal}
use hazelnet.Server.Request.{process_received_request, build_msg_response, res_header}
use hazelnet.Server.SecuredFd.{accept_secured_fd, process_received_secured_fd}
use hazelnet.Server.Slots.{slots, Evolves, stays, Evolves-trans, Evolves-Holds}
use hazelnet.Server.Slots.Groups.{
  idle-Evolves, incr_current-Evolves, incr_previous-Evolves, update_current_rx-Evolves,
  update_ctrnonce-Evolves, exit_if_needed-Evolves, enter-Evolves, enter_if_needed-Evolves,
}

module _ (p : Platform) where
  -- Every state makes steps of the machine, with these calls of the random generator before and after.
  pub data AllEvolve : ℕ → List GroupState → ℕ → List GroupState → Type 0 where
    by_state :
        {n m : ℕ} {xs ys : List GroupState}
        → n ≤ m
        → ((i : ℕ)
            → Evolves p (slots n (get_or xs i zero_state)) (slots m (get_or ys i zero_state)))
        → AllEvolve n xs m ys

  -- Every Group of the context does.
  abbrev pub Refines : ServerCtx → ServerCtx → Type 0
  Refines ctx ctx' =
      AllEvolve ctx.io.random_calls ctx.group_states ctx'.io.random_calls ctx'.group_states

  set-Evolves :
      (n m : ℕ)
      → n ≤ m
      → (xs : List GroupState) (i : ℕ) (s : GroupState)
      → Evolves p (slots n (get_or xs i zero_state)) (slots m s)
      → (j : ℕ)
      → Evolves p (slots n (get_or xs j zero_state)) (slots m (get_or (set xs i s) j zero_state))
  set-Evolves n m h [] i s e j = idle-Evolves p n zero_state m h
  set-Evolves n m h (x ∷ xs) zero s e zero = e
  set-Evolves n m h (x ∷ xs) zero s e (suc j) = idle-Evolves p n (get_or xs j zero_state) m h
  set-Evolves n m h (x ∷ xs) (suc i) s e zero = idle-Evolves p n x m h
  set-Evolves n m h (x ∷ xs) (suc i) s e (suc j) = set-Evolves n m h xs i s e j

  AllEvolve-refl : (n : ℕ) (xs : List GroupState) → AllEvolve n xs n xs
  AllEvolve-refl n xs = by_state (omega arith) (λ i. stays (slots n (get_or xs i zero_state)))

  pub AllEvolve-trans :
      {n m k : ℕ} {xs ys zs : List GroupState}
      → AllEvolve n xs m ys
      → AllEvolve m ys k zs
      → AllEvolve n xs k zs
  AllEvolve-trans (by_state h f) (by_state k g) =
      by_state (omega (arith, h, k)) (λ i. Evolves-trans p (f i) (g i))

module _ (p : Platform) (ctx : ServerCtx) where
  pub unchanged : Refines p ctx ctx
  unchanged = AllEvolve-refl p ctx.io.random_calls ctx.group_states

  -- A new state of one Group, after calls of the random generator.
  Refines-put :
      (gid : ℕ) (s : GroupState) (m : ℕ)
      → Evolves p (slots ctx.io.random_calls (group_state ctx gid)) (slots m s)
      → AllEvolve p ctx.io.random_calls ctx.group_states m (set ctx.group_states gid s)
  Refines-put gid s m e =
      let h = (Evolves-Holds p e).draws_grow in
      by_state h (set-Evolves p ctx.io.random_calls m h ctx.group_states gid s e)

  Refines-put_twice :
      (gid : ℕ) (s s' : GroupState) (m : ℕ)
      → Evolves p (slots ctx.io.random_calls (group_state ctx gid)) (slots m s')
      → AllEvolve p ctx.io.random_calls ctx.group_states m (set (set ctx.group_states gid s) gid s')
  Refines-put_twice gid s s' m e =
      rw (set-set_self ctx.group_states gid s s') (Refines-put gid s' m e)

module _ (p : Platform) (ctx : ServerCtx) where
  pub build_secured_fd-Refines :
      (pdu_null : Bool) (pdu : CbsPduMsg) (user_data : Option (List ℕ)) (len gid : ℕ)
      → Refines p ctx (server_build_secured_fd p pdu_null pdu ctx user_data len gid).1
  unfolding server_build_secured_fd build_msg_sadfd
  build_secured_fd-Refines pdu_null pdu user_data len gid = ground (
    arith,
    unchanged p ctx,
    Refines-put p ctx gid (incr_current_ctrnonce (group_state ctx gid)) ctx.io.random_calls
        (incr_current-Evolves p ctx.io.random_calls (group_state ctx gid)),
  )

  pub force_renewal-Refines :
      (pdu_null : Bool) (pdu : CbsPduMsg) (gid : ℕ)
      → Refines p ctx (server_force_session_renewal p pdu_null pdu ctx gid).1
  unfolding server_force_session_renewal build_msg_renewal
  force_renewal-Refines pdu_null pdu gid =
      let s = group_state ctx gid in
      let entered = renewal_phase_enter p ctx.io s in
      let first =
        Refines-put p ctx gid entered.1 entered.2.random_calls (enter-Evolves s p ctx.io) in
      ground (
        arith,
        unchanged p ctx,
        first,
        Refines-put p ctx gid (incr_previous_ctrnonce s) ctx.io.random_calls
            (incr_previous-Evolves p ctx.io.random_calls s),
        Refines-put_twice p ctx gid entered.1 (incr_previous_ctrnonce entered.1)
            entered.2.random_calls
            (Evolves-trans p (enter-Evolves s p ctx.io)
              (incr_previous-Evolves p entered.2.random_calls entered.1)),
      )

  request-Refines :
      (pdu : CbsPduMsg) (rx : List ℕ) (len : ℕ) (hdr : Header) (now : ℕ)
      → Refines p ctx (process_received_request p pdu ctx rx len hdr now).1
  unfolding process_received_request build_msg_response
  request-Refines pdu rx len hdr now =
      let s = update_current_rx_last_message_instant now (group_state ctx hdr.gid) in
      let hdr_len = header_len ctx.server_config.header_type in
      let bytes =
        write pdu.bytes 0 (header_pack ctx.server_config.header_type (res_header hdr.gid)) in
      let bytes = write bytes (hdr_len + res_client_idx) (hdr.sid ∷ []) in
      let bytes = write bytes (hdr_len + res_ctrnonce_idx) (encode_le24 s.current_ctr_nonce) in
      let target = slice (hdr_len + res_resnonce_idx) res_resnonce_len bytes in
      let m = (non_zero_trng p ctx.io target res_resnonce_len).2.random_calls in
      let draws = non_zero_trng_draws p ctx.io target res_resnonce_len in
      ground (
        arith,
        unchanged p ctx,
        Refines-put p ctx hdr.gid s m (
            Evolves-trans p
              (update_current_rx-Evolves p ctx.io.random_calls (group_state ctx hdr.gid) now)
              (idle-Evolves p ctx.io.random_calls s m (omega (arith, draws)))),
      )

  accept-Refines :
      (pdu : CbsPduMsg) (sdu : RxSduMsg) (rx : List ℕ) (len : ℕ) (hdr : Header) (now : ℕ)
      (s : GroupState) (r : ℕ) (previous : Bool)
      → Evolves p
          (slots ctx.io.random_calls (group_state ctx hdr.gid))
          (slots ctx.io.random_calls s)
      → Refines p ctx (accept_secured_fd p pdu sdu ctx rx len hdr now s r previous).1
  unfolding accept_secured_fd
  accept-Refines pdu sdu rx len hdr now s r previous e =
      let used = update_ctrnonce_and_rx_timestamp s r now previous in
      let cfg = group_config ctx hdr.gid in
      let last =
        renewal_phase_enter_if_needed p ctx.server_config.header_type hdr.gid cfg now ctx.io used
          pdu in
      ground (
        arith,
        Refines-put p ctx hdr.gid s ctx.io.random_calls e,
        Refines-put p ctx hdr.gid last.1 last.2.random_calls (
            Evolves-trans p
              (Evolves-trans p e (update_ctrnonce-Evolves p ctx.io.random_calls s r now previous))
              (enter_if_needed-Evolves used p ctx.server_config.header_type hdr.gid cfg now ctx.io
                pdu)),
      )

  secured_fd-Refines :
      (pdu : CbsPduMsg) (sdu : RxSduMsg) (rx : List ℕ) (len : ℕ) (hdr : Header) (now : ℕ)
      → Refines p ctx (process_received_secured_fd p pdu sdu ctx rx len hdr now).1
  unfolding process_received_secured_fd
  secured_fd-Refines pdu sdu rx len hdr now =
      let cfg = group_config ctx hdr.gid in
      let exited = renewal_phase_exit_if_needed cfg (group_state ctx hdr.gid) now in
      let r = decode_le24 (
        slice (header_len ctx.server_config.header_type + sadfd_ctrnonce_idx) sadfd_ctrnonce_len
          rx) in
      let e = exit_if_needed-Evolves p ctx.io.random_calls (group_state ctx hdr.gid) cfg now in
      ground (
        arith,
        unchanged p ctx,
        Refines-put p ctx hdr.gid exited ctx.io.random_calls e,
        accept-Refines pdu sdu rx len hdr now exited r (check_rx_ctrnonce p cfg exited r now).1 e,
      )

  dispatch-Refines :
      (pdu : CbsPduMsg) (sdu : RxSduMsg) (rx : Option (List ℕ)) (len : ℕ) (hdr : Header) (now : ℕ)
      → Refines p ctx (dispatch p pdu sdu ctx rx len hdr now).1
  unfolding dispatch
  dispatch-Refines pdu sdu rx len hdr now = ground (
    arith,
    unchanged p ctx,
    request-Refines pdu (bytes_of rx len) len hdr now,
    secured_fd-Refines pdu sdu (bytes_of rx len) len hdr now,
  )

module _ (p : Platform) where
  pub receive-Refines :
      (ctx : ServerCtx) (pdu_null sdu_null : Bool) (pdu : CbsPduMsg) (sdu : RxSduMsg)
      (rx : Option (List ℕ)) (len can_id : ℕ)
      → Refines p ctx (server_process_received p pdu_null sdu_null pdu sdu ctx rx len can_id).1
  unfolding server_process_received check_received_generic_msg current_time
  receive-Refines ctx pdu_null sdu_null pdu sdu rx len can_id =
      let now = current_time p ctx.io in
      ground (
        arith,
        unchanged p ctx,
        (dispatch-Refines p (record ctx { io = now.2 }) zero_pdu
            (record zero_sdu { can_id = can_id }) rx len
            (header_unpack ctx.server_config.header_type (bytes_of rx len)) now.1),
      )
