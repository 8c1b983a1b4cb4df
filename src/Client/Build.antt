-- ===== src/Client/Build.antt =====
-- src/client/hzl_ClientBuildRequest.c, hzl_ClientBuildSecuredFd.c and hzl_ClientBuildUnsecured.c:
-- the messages that the Client builds.
use hazelnet.Base.{
  ℕ, ◌+◌, ◌%◌, Bool, not, List, [], ◌∷◌, Option, none, some, length, write, slice, replicate,
  if◌then◌else◌,
}
use hazelnet.Endian.{encode_le24, encode_le64, decode_le64}
use hazelnet.Err.{
  Err, ok, is_ok, null_pdu, unknown_group, handshake_ongoing, session_not_established,
}
use hazelnet.Header.{Header, header_len, header_pack}
use hazelnet.Header.Pty
use hazelnet.Message.{
  CbsPduMsg, bytes_of, check_msg_before_packing, build_unsecured, aead_init_sadfd, req_hash_init,
}
use hazelnet.Payload.{
  req_reqnonce_idx, req_reqnonce_len, req_tag_idx, req_tag_len, req_payload_len, sadfd_ctrnonce_idx,
  sadfd_ptlen_idx, sadfd_ctext_idx, sadfd_tag_idx, sadfd_tag_len, sadfd_payload_len,
  sadfd_metadata_in_payload_len,
}
use hazelnet.Platform.{Platform, Io, aead_encrypt_update, aead_encrypt_finish, hash_digest}
use hazelnet.Utils.{non_zero_trng}
use hazelnet.Client.{
  ClientConfig, GroupState, ClientCtx, group_state, group_config, put_state, check_ctx_pointers,
}
use hazelnet.Client.Group.{
  find_group, is_session_established_and_valid, is_a_handshake_ongoing, set_request_tx_time_to_now,
  incr_current_ctrnonce,
}

abbrev pub req_header : ClientConfig → ℕ → Header
req_header config gid = record { gid = gid; sid = config.sid; pty = Pty.req }

abbrev pub sadfd_header : ClientConfig → ℕ → Header
sadfd_header config gid = record { gid = gid; sid = config.sid; pty = Pty.sadfd }

unfoldable pub client_build_unsecured :
    Bool → CbsPduMsg → ClientCtx → Option (List ℕ) → ℕ → ℕ → Err × CbsPduMsg
client_build_unsecured pdu_null pdu ctx user_data user_data_len group_id =
    let err = check_ctx_pointers ctx.nulls in
    if is_ok err
    then build_unsecured pdu_null pdu user_data user_data_len group_id ctx.client_config.sid
        ctx.client_config.header_type
    else (err, pdu)

module _ (p : Platform) where
  -- `hzl_ClientBuildMsgReq` on the Group with the given GID. The nonce is drawn into the memory of
  -- a `uint64_t`, read as on a little-endian machine.
  unfoldable pub build_msg_req :
      ClientConfig → ℕ → Io → GroupState → CbsPduMsg → Err × GroupState × Io × CbsPduMsg
  build_msg_req config gid io s pdu =
      let hdr_len = header_len config.header_type in
      let bytes = write pdu.bytes 0 (header_pack config.header_type (req_header config gid)) in
      let (rng_err, drawn, io') = non_zero_trng p io (replicate 8 0) req_reqnonce_len in
      if not (is_ok rng_err)
      then (rng_err, s, io', record pdu { bytes = bytes })
      else (let request_nonce = decode_le64 drawn in
          let bytes = write bytes (hdr_len + req_reqnonce_idx) (encode_le64 request_nonce) in
          let hash =
            req_hash_init p config.ltk (req_header config gid)
              (slice (hdr_len + req_reqnonce_idx) req_reqnonce_len bytes) in
          let bytes = write bytes (hdr_len + req_tag_idx) (hash_digest p hash req_tag_len) in
          let (time_err, s', io'') = set_request_tx_time_to_now p io' s in
          if not (is_ok time_err) then (time_err, s', io'', record pdu { bytes = bytes }) else (
            ok,
            record s' { request_nonce = request_nonce },
            io'',
            record { data_len = hdr_len + req_payload_len; bytes = bytes },
          ))

  unfoldable pub client_build_request :
      Bool → CbsPduMsg → ClientCtx → ℕ → Err × ClientCtx × CbsPduMsg
  client_build_request pdu_null pdu ctx group_id =
      if pdu_null
      then (null_pdu, ctx, pdu)
      else (let emptied : CbsPduMsg = record pdu { data_len = 0 } in
          let err = check_ctx_pointers ctx.nulls in
          if not (is_ok err) then (err, ctx, emptied) else elim (find_group ctx group_id) [
            | none ↦ (unknown_group, ctx, emptied)
            | some i ↦
                let (err, is_ongoing, io') =
                  is_a_handshake_ongoing p ctx.client_config.timeout_req_to_res_millis ctx.io
                    (group_state ctx i) in
                if not (is_ok err)
                then (err, record ctx { io = io' }, emptied)
                else if is_ongoing
                then (handshake_ongoing, record ctx { io = io' }, emptied)
                else (let (err, s, io'', pdu') =
                      build_msg_req ctx.client_config (group_config ctx i).gid io'
                        (group_state ctx i) emptied in
                    (err, record (put_state ctx i s) { io = io'' }, pdu'))
          ])

  -- The message that `hzl_ClientBuildMsgSadfd` writes.
  unfoldable pub sadfd_pdu : ClientConfig → ℕ → GroupState → List ℕ → ℕ → CbsPduMsg → CbsPduMsg
  sadfd_pdu config gid s plaintext user_data_len pdu =
      let hdr_len = header_len config.header_type in
      let bytes = write pdu.bytes 0 (header_pack config.header_type (sadfd_header config gid)) in
      let bytes = write bytes (hdr_len + sadfd_ctrnonce_idx) (encode_le24 s.current_ctr_nonce) in
      let bytes = write bytes (hdr_len + sadfd_ptlen_idx) (user_data_len % 256 ∷ []) in
      let aead =
        aead_init_sadfd p s.current_stk (sadfd_header config gid) s.current_ctr_nonce
          (user_data_len % 256) in
      let (aead', front) = aead_encrypt_update p aead plaintext in
      let bytes = write bytes (hdr_len + sadfd_ctext_idx) front in
      let (back, tag) = aead_encrypt_finish p aead' sadfd_tag_len in
      let bytes = write bytes (hdr_len + sadfd_ctext_idx + length front) back in
      record {
        data_len = hdr_len + sadfd_payload_len user_data_len;
        bytes = write bytes (hdr_len + sadfd_tag_idx user_data_len) tag;
      }

  -- `hzl_ClientBuildMsgSadfd`
  unfoldable pub build_msg_sadfd :
      ClientConfig → ℕ → GroupState → Option (List ℕ) → ℕ → CbsPduMsg → Err × GroupState × CbsPduMsg
  build_msg_sadfd config gid s user_data user_data_len pdu = (
    ok,
    incr_current_ctrnonce s,
    sadfd_pdu config gid s (bytes_of user_data user_data_len) user_data_len pdu,
  )

  unfoldable pub client_build_secured_fd :
      Bool → CbsPduMsg → ClientCtx → Option (List ℕ) → ℕ → ℕ → Err × ClientCtx × CbsPduMsg
  client_build_secured_fd pdu_null pdu ctx user_data user_data_len group_id =
      if pdu_null
      then (null_pdu, ctx, pdu)
      else (let emptied : CbsPduMsg = record pdu { data_len = 0 } in
          let err = check_ctx_pointers ctx.nulls in
          if not (is_ok err)
          then (err, ctx, emptied)
          else (let err =
                check_msg_before_packing user_data user_data_len group_id
                  sadfd_metadata_in_payload_len ctx.client_config.header_type in
              if not (is_ok err) then (err, ctx, emptied) else elim (find_group ctx group_id) [
                | none ↦ (unknown_group, ctx, emptied)
                | some i ↦
                    if not (is_session_established_and_valid (group_state ctx i))
                    then (session_not_established, ctx, emptied)
                    else (let (err, s, pdu') =
                          build_msg_sadfd ctx.client_config (group_config ctx i).gid
                            (group_state ctx i) user_data user_data_len emptied in
                        (err, put_state ctx i s, pdu'))
              ]))
