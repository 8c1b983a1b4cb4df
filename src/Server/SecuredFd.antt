-- ===== src/Server/SecuredFd.antt =====
-- src/server/hzl_ServerProcessReceivedSecuredFd.c: secured application data.
pub mod Refusal
use hazelnet.Base.{
  ℕ, ◌+◌, Bool, true, not, ◌||◌, List, ltb, get_or, length, write, slice, if◌then◌else◌,
}
use hazelnet.Endian.{decode_le24}
use hazelnet.Err.{Err, ok, is_ok, too_short_pdu_to_contain_sadfd, too_long_ciphertext}
use hazelnet.Header.{Header, header_len}
use hazelnet.Message.{CbsPduMsg, RxSduMsg, aead_init_sadfd}
use hazelnet.Payload.{
  max_can_fd_data_len, sadfd_ctrnonce_idx, sadfd_ctrnonce_len, sadfd_ptlen_idx, sadfd_ctext_idx,
  sadfd_tag_idx, sadfd_tag_len, sadfd_payload_len, sadfd_metadata_in_payload_len,
}
use hazelnet.Platform.{Platform, aead_decrypt_update, aead_decrypt_finish}
use hazelnet.Utils.{zero_out}
use hazelnet.Server.{GroupState, ServerCtx, group_state, group_config, put_state}
use hazelnet.Server.Group.{
  check_rx_ctrnonce, choose_previous_or_current_stk, update_ctrnonce_and_rx_timestamp,
}
use hazelnet.Server.Renewal.{renewal_phase_exit_if_needed, renewal_phase_enter_if_needed}
use hazelnet.Server.Request.{validate_sid_and_gid}

module _ (p : Platform) where
  -- The decryption and the check of the tag: the code, and the 64 bytes of user data, cleared as
  -- far as the plaintext reaches if the tag is refused.
  unfoldable pub decrypt_sadfd : ℕ → List ℕ → Header → ℕ → ℕ → List ℕ → List ℕ → Err × List ℕ
  decrypt_sadfd hdr_len stk hdr received_ctrnonce ptlen rx_pdu out =
      let aead = aead_init_sadfd p stk hdr received_ctrnonce ptlen in
      let (aead', front) =
        aead_decrypt_update p aead (slice (hdr_len + sadfd_ctext_idx) ptlen rx_pdu) in
      let out' = write out 0 front in
      let (err, back) =
        aead_decrypt_finish p aead' (slice (hdr_len + sadfd_tag_idx ptlen) sadfd_tag_len rx_pdu) in
      let out'' = write out' (length front) back in
      if is_ok err then (ok, out'') else (err, write out'' 0 (zero_out ptlen))

  -- What remains once the message is long enough and its counter nonce accepted.
  unfoldable pub accept_secured_fd :
      CbsPduMsg
      → RxSduMsg
      → ServerCtx
      → List ℕ
      → ℕ
      → Header
      → ℕ
      → GroupState
      → ℕ
      → Bool
      → Err × ServerCtx × CbsPduMsg × RxSduMsg
  accept_secured_fd pdu sdu ctx rx_pdu rx_pdu_len hdr rx_timestamp s received_ctrnonce is_previous =
      let header_type = ctx.server_config.header_type in
      let hdr_len = header_len header_type in
      let cfg = group_config ctx hdr.gid in
      let ptlen = get_or rx_pdu (hdr_len + sadfd_ptlen_idx) 0 in
      let inferred = hdr_len + sadfd_payload_len ptlen in
      if ltb rx_pdu_len inferred || ltb max_can_fd_data_len inferred
      then (too_long_ciphertext, put_state ctx hdr.gid s, pdu, sdu)
      else (let (err, out) =
            decrypt_sadfd hdr_len (choose_previous_or_current_stk s is_previous) hdr
              received_ctrnonce ptlen rx_pdu sdu.bytes in
          if not (is_ok err)
          then (err, put_state ctx hdr.gid s, pdu, record sdu { bytes = out })
          else (let s' =
                update_ctrnonce_and_rx_timestamp s received_ctrnonce rx_timestamp is_previous in
              let sdu' : RxSduMsg = record sdu {
                was_secured = true;
                is_for_user = true;
                gid = hdr.gid;
                sid = hdr.sid;
                data_len = ptlen;
                bytes = out;
              } in
              let (err, s'', io', pdu') =
                renewal_phase_enter_if_needed p header_type hdr.gid cfg rx_timestamp ctx.io s'
                  pdu in
              (err, record (put_state ctx hdr.gid s'') { io = io' }, pdu', sdu')))

  unfoldable pub process_received_secured_fd :
      CbsPduMsg
      → RxSduMsg
      → ServerCtx
      → List ℕ
      → ℕ
      → Header
      → ℕ
      → Err × ServerCtx × CbsPduMsg × RxSduMsg
  process_received_secured_fd pdu sdu ctx rx_pdu rx_pdu_len hdr rx_timestamp =
      let err = validate_sid_and_gid ctx hdr.gid hdr.sid in
      if not (is_ok err)
      then (err, ctx, pdu, sdu)
      else (let cfg = group_config ctx hdr.gid in
          let s = renewal_phase_exit_if_needed cfg (group_state ctx hdr.gid) rx_timestamp in
          let hdr_len = header_len ctx.server_config.header_type in
          if ltb rx_pdu_len (hdr_len + sadfd_metadata_in_payload_len)
          then (too_short_pdu_to_contain_sadfd, put_state ctx hdr.gid s, pdu, sdu)
          else (let received_ctrnonce =
                decode_le24 (slice (hdr_len + sadfd_ctrnonce_idx) sadfd_ctrnonce_len rx_pdu) in
              let (err, is_previous) = check_rx_ctrnonce p cfg s received_ctrnonce rx_timestamp in
              if not (is_ok err)
              then (err, put_state ctx hdr.gid s, pdu, sdu)
              else accept_secured_fd pdu sdu ctx rx_pdu rx_pdu_len hdr rx_timestamp s
                  received_ctrnonce is_previous))
