-- ===== src/Server/Build.antt =====
-- src/server/hzl_ServerBuildSecuredFd.c, hzl_ServerBuildUnsecured.c and
-- hzl_ServerForceSessionRenewal.c: the messages that the user asks the Server for.
use hazelnet.Base.{
  ℕ, ◌+◌, ◌%◌, Bool, not, ◌&&◌, List, [], ◌∷◌, Option, leb, length, write, if◌then◌else◌,
}
use hazelnet.Endian.{encode_le24}
use hazelnet.Err.{Err, ok, is_ok, null_pdu, unknown_group, no_potential_receiver}
use hazelnet.Header.{Header, header_len, header_pack}
use hazelnet.Header.Pty
use hazelnet.Message.{
  CbsPduMsg, bytes_of, check_msg_before_packing, build_unsecured, aead_init_sadfd,
}
use hazelnet.Payload.{
  server_sid, sadfd_ctrnonce_idx, sadfd_ptlen_idx, sadfd_ctext_idx, sadfd_tag_idx, sadfd_tag_len,
  sadfd_payload_len, sadfd_metadata_in_payload_len,
}
use hazelnet.Platform.{Platform, aead_encrypt_update, aead_encrypt_finish}
use hazelnet.Server.{GroupState, ServerCtx, group_state, put_state, check_ctx_pointers}
use hazelnet.Server.Group.{
  incr_current_ctrnonce, renewal_phase_is_active, did_any_client_already_request,
}
use hazelnet.Server.Renewal.{renewal_phase_enter, build_msg_renewal}

abbrev pub sadfd_header : ℕ → Header
sadfd_header gid = record { gid = gid; sid = server_sid; pty = Pty.sadfd }

unfoldable pub server_build_unsecured :
    Bool → CbsPduMsg → ServerCtx → Option (List ℕ) → ℕ → ℕ → Err × CbsPduMsg
server_build_unsecured pdu_null pdu ctx user_data user_data_len group_id =
    let err = check_ctx_pointers ctx.nulls in
    if is_ok err
    then build_unsecured pdu_null pdu user_data user_data_len group_id server_sid
        ctx.server_config.header_type
    else (err, pdu)

module _ (p : Platform) where
  -- The message that `hzl_ServerBuildMsgSadfd` writes.
  unfoldable pub sadfd_pdu : ℕ → ℕ → GroupState → List ℕ → ℕ → CbsPduMsg → CbsPduMsg
  sadfd_pdu header_type gid s plaintext user_data_len pdu =
      let hdr_len = header_len header_type in
      let bytes = write pdu.bytes 0 (header_pack header_type (sadfd_header gid)) in
      let bytes = write bytes (hdr_len + sadfd_ctrnonce_idx) (encode_le24 s.current_ctr_nonce) in
      let bytes = write bytes (hdr_len + sadfd_ptlen_idx) (user_data_len % 256 ∷ []) in
      let aead =
        aead_init_sadfd p s.current_stk (sadfd_header gid) s.current_ctr_nonce
          (user_data_len % 256) in
      let (aead', front) = aead_encrypt_update p aead plaintext in
      let bytes = write bytes (hdr_len + sadfd_ctext_idx) front in
      let (back, tag) = aead_encrypt_finish p aead' sadfd_tag_len in
      let bytes = write bytes (hdr_len + sadfd_ctext_idx + length front) back in
      record {
        data_len = hdr_len + sadfd_payload_len user_data_len;
        bytes = write bytes (hdr_len + sadfd_tag_idx user_data_len) tag;
      }

  -- `hzl_ServerBuildMsgSadfd`
  unfoldable pub build_msg_sadfd :
      ℕ → ℕ → GroupState → Option (List ℕ) → ℕ → CbsPduMsg → Err × GroupState × CbsPduMsg
  build_msg_sadfd header_type gid s user_data user_data_len pdu = (
    ok,
    incr_current_ctrnonce s,
    sadfd_pdu header_type gid s (bytes_of user_data user_data_len) user_data_len pdu,
  )

  unfoldable pub server_build_secured_fd :
      Bool → CbsPduMsg → ServerCtx → Option (List ℕ) → ℕ → ℕ → Err × ServerCtx × CbsPduMsg
  server_build_secured_fd pdu_null pdu ctx user_data user_data_len group_id =
      if pdu_null
      then (null_pdu, ctx, pdu)
      else (let emptied : CbsPduMsg = record pdu { data_len = 0 } in
          let err = check_ctx_pointers ctx.nulls in
          if not (is_ok err)
          then (err, ctx, emptied)
          else (let header_type = ctx.server_config.header_type in
              let err =
                check_msg_before_packing user_data user_data_len group_id
                  sadfd_metadata_in_payload_len header_type in
              if not (is_ok err)
              then (err, ctx, emptied)
              else if leb ctx.server_config.amount_of_groups group_id
              then (unknown_group, ctx, emptied)
              else if not (did_any_client_already_request (group_state ctx group_id))
              then (no_potential_receiver, ctx, emptied)
              else (let (err, s, pdu') =
                    build_msg_sadfd header_type group_id (group_state ctx group_id) user_data
                      user_data_len emptied in
                  (err, put_state ctx group_id s, pdu'))))

  unfoldable pub server_force_session_renewal :
      Bool → CbsPduMsg → ServerCtx → ℕ → Err × ServerCtx × CbsPduMsg
  server_force_session_renewal pdu_null pdu ctx group_id =
      if pdu_null
      then (null_pdu, ctx, pdu)
      else (let emptied : CbsPduMsg = record pdu { data_len = 0 } in
          let err = check_ctx_pointers ctx.nulls in
          if not (is_ok err)
          then (err, ctx, emptied)
          else if leb ctx.server_config.amount_of_groups group_id
          then (unknown_group, ctx, emptied)
          else (let header_type = ctx.server_config.header_type in
              let s = group_state ctx group_id in
              let active = renewal_phase_is_active s in
              if not active && not (did_any_client_already_request s)
              then (no_potential_receiver, ctx, emptied)
              else if not active
              then (let (err, s', io') = renewal_phase_enter p ctx.io s in
                  let entered : ServerCtx = record (put_state ctx group_id s') { io = io' } in
                  if not (is_ok err)
                  then (err, entered, emptied)
                  else (let (err, s'', pdu') =
                        build_msg_renewal p header_type group_id s' emptied in
                      (err, put_state entered group_id s'', pdu')))
              else (let (err, s', pdu') = build_msg_renewal p header_type group_id s emptied in
                  (err, put_state ctx group_id s', pdu'))))
