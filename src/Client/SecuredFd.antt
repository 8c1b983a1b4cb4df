-- ===== src/Client/SecuredFd.antt =====
-- src/client/hzl_ClientProcessReceivedSecuredFd.c: secured application data.
use hazelnet.Base.{
  ℕ, ◌+◌, Bool, true, not, ◌||◌, List, some, none, ltb, get_or, length, write, slice, if◌then◌else◌,
}
use hazelnet.Endian.{decode_le24}
use hazelnet.Err.{
  Err, ok, is_ok, msg_ignored, too_short_pdu_to_contain_sadfd, too_long_ciphertext,
  session_not_established,
}
use hazelnet.Header.{Header, header_len}
use hazelnet.Message.{RxSduMsg, aead_init_sadfd}
use hazelnet.Payload.{
  max_can_fd_data_len, sadfd_ctrnonce_idx, sadfd_ctrnonce_len, sadfd_ptlen_idx, sadfd_ctext_idx,
  sadfd_tag_idx, sadfd_tag_len, sadfd_payload_len, sadfd_metadata_in_payload_len,
}
use hazelnet.Platform.{Platform, aead_decrypt_update, aead_decrypt_finish}
use hazelnet.Utils.{zero_out}
use hazelnet.Client.{GroupConfig, GroupState, ClientCtx, group_state, group_config, put_state}
use hazelnet.Client.Group.{
  find_group, is_session_established_and_valid, renewal_phase_exit_if_needed,
  update_ctrnonce_and_rx_timestamp, check_rx_ctrnonce,
}

unfoldable pub choose_previous_or_current_stk : GroupState → Bool → List ℕ
choose_previous_or_current_stk s is_previous_session =
    if is_previous_session then s.previous_stk else s.current_stk

module _ (p : Platform) where
  -- The decryption and the check of the tag: the code, and the 64 bytes of user data, cleared as
  -- far as the plaintext reaches if the tag is refused.
  unfoldable pub decrypt_sadfd : ℕ → List ℕ → Header → ℕ → ℕ → List ℕ → List ℕ → Err × List ℕ
  decrypt_sadfd hdr_len stk hdr received_ctrnonce ptlen rx_pdu out =
      let aead = aead_init_sadfd p stk hdr received_ctrnonce ptlen in
      let (aead', front) =
        aead_decrypt_update p aead (slice (hdr_len + sadfd_ctext_idx) ptlen rx_pdu) in
      let out' = write out 0 front in
      let (err, back) =
        aead_decrypt_finish p aead' (slice (hdr_len + sadfd_tag_idx ptlen) sadfd_tag_len rx_pdu) in
      let out'' = write out' (length front) back in
      if is_ok err then (ok, out'') else (err, write out'' 0 (zero_out ptlen))

  -- The part of `hzl_ClientProcessReceivedSecuredFd` on a Group whose state is valid.
  unfoldable pub open_secured_fd :
      ℕ
      → GroupConfig
      → GroupState
      → RxSduMsg
      → List ℕ
      → ℕ
      → Header
      → ℕ
      → Err × GroupState × RxSduMsg
  open_secured_fd hdr_len cfg s sdu rx_pdu rx_pdu_len hdr rx_timestamp =
      if ltb rx_pdu_len (hdr_len + sadfd_metadata_in_payload_len)
      then (too_short_pdu_to_contain_sadfd, s, sdu)
      else (let received_ctrnonce =
            decode_le24 (slice (hdr_len + sadfd_ctrnonce_idx) sadfd_ctrnonce_len rx_pdu) in
          let (err, is_previous) = check_rx_ctrnonce p true cfg s received_ctrnonce rx_timestamp in
          if not (is_ok err)
          then (err, s, sdu)
          else (let ptlen = get_or rx_pdu (hdr_len + sadfd_ptlen_idx) 0 in
              let inferred = hdr_len + sadfd_payload_len ptlen in
              if ltb rx_pdu_len inferred || ltb max_can_fd_data_len inferred
              then (too_long_ciphertext, s, sdu)
              else (let (err, out) =
                    decrypt_sadfd hdr_len (choose_previous_or_current_stk s is_previous) hdr
                      received_ctrnonce ptlen rx_pdu sdu.bytes in
                  if not (is_ok err) then (err, s, record sdu { bytes = out }) else (
                    ok,
                    update_ctrnonce_and_rx_timestamp s received_ctrnonce rx_timestamp is_previous,
                    record sdu {
                      was_secured = true;
                      is_for_user = true;
                      gid = hdr.gid;
                      sid = hdr.sid;
                      data_len = ptlen;
                      bytes = out;
                    },
                  ))))

  unfoldable pub process_received_secured_fd :
      RxSduMsg → ClientCtx → List ℕ → ℕ → Header → ℕ → Err × ClientCtx × RxSduMsg
  process_received_secured_fd sdu ctx rx_pdu rx_pdu_len hdr rx_timestamp =
      elim (find_group ctx hdr.gid) [
        | none ↦ (msg_ignored, ctx, sdu)
        | some i ↦
            let s =
              renewal_phase_exit_if_needed (group_config ctx i) (group_state ctx i) rx_timestamp in
            if not (is_session_established_and_valid s)
            then (session_not_established, put_state ctx i s, sdu)
            else (let (err, s', sdu') =
                  open_secured_fd (header_len ctx.client_config.header_type) (group_config ctx i) s
                    sdu rx_pdu rx_pdu_len hdr rx_timestamp in
                (err, put_state ctx i s', sdu'))
      ]
