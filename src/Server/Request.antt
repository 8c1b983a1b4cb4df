-- ===== src/Server/Request.antt =====
-- src/server/hzl_ServerProcessReceivedRequest.c: a Client asks for the Session information.
pub mod Authentic
use Prim.Native.Nat.{bit_and}
use hazelnet.Base.{
  ℕ, ◌+◌, ◌-◌, ◌^◌, not, List, [], ◌∷◌, ltb, leb, ◌==◌, get_or, length, write, slice, if◌then◌else◌,
}
use hazelnet.Endian.{encode_le24}
use hazelnet.Err.{
  Err, ok, is_ok, unknown_source, unknown_group, secwarn_not_in_group, too_short_pdu_to_contain_req,
  secwarn_received_zero_reqnonce,
}
use hazelnet.Header.{Header, header_len, header_pack}
use hazelnet.Header.Pty
use hazelnet.Message.{CbsPduMsg, aead_init_res, req_hash_init}
use hazelnet.Payload.{
  server_sid, req_reqnonce_idx, req_reqnonce_len, req_tag_idx, req_tag_len, req_payload_len,
  res_client_idx, res_ctrnonce_idx, res_ctrnonce_len, res_resnonce_idx, res_resnonce_len,
  res_ctext_idx, res_tag_idx, res_tag_len, res_payload_len,
}
use hazelnet.Platform.{Platform, Io, aead_encrypt_update, aead_encrypt_finish, hash_digest_check}
use hazelnet.Utils.{is_all_zeros, non_zero_trng}
use hazelnet.Server.{GroupState, ServerCtx, group_state, group_config, put_state, no_client}
use hazelnet.Server.Group.{update_current_rx_last_message_instant}

-- `1U << (sid - 1U)` is reached only with a SID that is not the Server's 0.
unfoldable pub validate_sid_and_gid : ServerCtx → ℕ → ℕ → Err
validate_sid_and_gid ctx gid sid =
    if leb ctx.server_config.amount_of_clients sid
    then unknown_source
    else if leb ctx.server_config.amount_of_groups gid
    then unknown_group
    else if bit_and (group_config ctx gid).client_sids_in_group_bitmap (2 ^ (sid - 1)) == 0
    then secwarn_not_in_group
    else ok

abbrev pub res_header : ℕ → Header
res_header gid = record { gid = gid; sid = server_sid; pty = Pty.res }

-- `ctx->clientConfigs[sid - 1U].ltk`
abbrev pub client_ltk : ServerCtx → ℕ → List ℕ
client_ltk ctx sid = (get_or ctx.client_configs (sid - 1) no_client).ltk

module _ (p : Platform) where
  -- The RES message, once the header, the SID, the counter nonce and the response nonce are
  -- written into `bytes`.
  unfoldable pub response_pdu : ℕ → ℕ → GroupState → List ℕ → List ℕ → ℕ → List ℕ → CbsPduMsg
  response_pdu header_type gid s ltk encoded_request_nonce client_sid bytes =
      let hdr_len = header_len header_type in
      let aead =
        aead_init_res p ltk (res_header gid)
          (slice (hdr_len + res_ctrnonce_idx) res_ctrnonce_len bytes) encoded_request_nonce
          (slice (hdr_len + res_resnonce_idx) res_resnonce_len bytes) client_sid in
      let (aead', front) = aead_encrypt_update p aead s.current_stk in
      let bytes = write bytes (hdr_len + res_ctext_idx) front in
      let (back, tag) = aead_encrypt_finish p aead' res_tag_len in
      let bytes = write bytes (hdr_len + res_ctext_idx + length front) back in
      record {
        data_len = hdr_len + res_payload_len;
        bytes = write bytes (hdr_len + res_tag_idx) tag;
      }

  -- `hzl_ServerBuildMsgResponse`
  unfoldable pub build_msg_response :
      ℕ → ℕ → GroupState → List ℕ → List ℕ → ℕ → Io → CbsPduMsg → Err × Io × CbsPduMsg
  build_msg_response header_type gid s ltk encoded_request_nonce client_sid io pdu =
      let hdr_len = header_len header_type in
      let bytes = write pdu.bytes 0 (header_pack header_type (res_header gid)) in
      let bytes = write bytes (hdr_len + res_client_idx) (client_sid ∷ []) in
      let bytes = write bytes (hdr_len + res_ctrnonce_idx) (encode_le24 s.current_ctr_nonce) in
      let (err, resnonce, io') =
        non_zero_trng p io (slice (hdr_len + res_resnonce_idx) res_resnonce_len bytes)
          res_resnonce_len in
      let bytes = write bytes (hdr_len + res_resnonce_idx) resnonce in
      if is_ok err
      then (ok, io', response_pdu header_type gid s ltk encoded_request_nonce client_sid bytes)
      else (err, io', record pdu { bytes = bytes })

  unfoldable pub process_received_request :
      CbsPduMsg → ServerCtx → List ℕ → ℕ → Header → ℕ → Err × ServerCtx × CbsPduMsg
  process_received_request pdu ctx rx_pdu rx_pdu_len hdr rx_timestamp =
      let err = validate_sid_and_gid ctx hdr.gid hdr.sid in
      if not (is_ok err)
      then (err, ctx, pdu)
      else (let hdr_len = header_len ctx.server_config.header_type in
          if ltb rx_pdu_len (hdr_len + req_payload_len)
          then (too_short_pdu_to_contain_req, ctx, pdu)
          else (let request_nonce = slice (hdr_len + req_reqnonce_idx) req_reqnonce_len rx_pdu in
              if is_all_zeros request_nonce
              then (secwarn_received_zero_reqnonce, ctx, pdu)
              else (let hash = req_hash_init p (client_ltk ctx hdr.sid) hdr request_nonce in
                  let err =
                    hash_digest_check p hash (slice (hdr_len + req_tag_idx) req_tag_len rx_pdu) in
                  if not (is_ok err)
                  then (err, ctx, pdu)
                  else (let s =
                        update_current_rx_last_message_instant rx_timestamp
                          (group_state ctx hdr.gid) in
                      let ctx' = put_state ctx hdr.gid s in
                      let (err, io', pdu') =
                        build_msg_response ctx.server_config.header_type hdr.gid s
                          (client_ltk ctx hdr.sid) request_nonce hdr.sid ctx.io pdu in
                      (err, record ctx' { io = io' }, pdu')))))
