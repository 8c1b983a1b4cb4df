-- ===== src/Client/Response.antt =====
-- src/client/hzl_ClientProcessReceivedResponse.c: the end of a handshake.
use hazelnet.Base.{
  ℕ, ◌+◌, not, List, some, none, ltb, ◌==◌, get_or, length, write, slice, replicate, if◌then◌else◌,
}
use hazelnet.Endian.{decode_le24, encode_le64}
use hazelnet.Err.{
  Err, ok, is_ok, secwarn_server_only_message, msg_ignored, unknown_group,
  too_short_pdu_to_contain_res, secwarn_received_overflown_nonce, secwarn_received_zero_key,
}
use hazelnet.Header.{Header, header_len}
use hazelnet.Message.{aead_init_res}
use hazelnet.Payload.{
  server_sid, reqnonce_not_expecting_a_response, res_client_idx, res_ctrnonce_idx, res_ctrnonce_len,
  res_resnonce_idx, res_resnonce_len, res_ctext_idx, res_ctext_len, res_tag_idx, res_tag_len,
  res_payload_len,
}
use hazelnet.Platform.{Platform, aead_decrypt_update, aead_decrypt_finish}
use hazelnet.Utils.{is_all_zeros}
use hazelnet.Client.{ClientConfig, GroupState, ClientCtx, group_state, put_state}
use hazelnet.Client.Group.{is_ctrnonce_expired, find_group, is_response_acceptable}

-- The state that `hzl_ClientProcessReceivedResponse` leaves on success.
unfoldable pub establish_session : GroupState → List ℕ → ℕ → ℕ → GroupState
establish_session s stk received_ctrnonce rx_timestamp = record s {
  request_nonce = reqnonce_not_expecting_a_response;
  current_stk = write s.current_stk 0 stk;
  current_ctr_nonce = received_ctrnonce;
  current_rx_last_message_instant = rx_timestamp;
  last_handshake_event_instant = rx_timestamp;
}

module _ (p : Platform) where
  -- The decryption of the STK in a Response, into `plaintextStk`.
  unfoldable pub decrypt_stk : ClientConfig → Header → ℕ → List ℕ → Err × List ℕ
  decrypt_stk config hdr request_nonce rx_pdu =
      let hdr_len = header_len config.header_type in
      let aead =
        aead_init_res p config.ltk hdr (slice (hdr_len + res_ctrnonce_idx) res_ctrnonce_len rx_pdu)
          (encode_le64 request_nonce) (slice (hdr_len + res_resnonce_idx) res_resnonce_len rx_pdu)
          (get_or rx_pdu (hdr_len + res_client_idx) 0) in
      let (aead', front) =
        aead_decrypt_update p aead (slice (hdr_len + res_ctext_idx) res_ctext_len rx_pdu) in
      let stk = write (replicate res_ctext_len 0) 0 front in
      let (err, back) =
        aead_decrypt_finish p aead' (slice (hdr_len + res_tag_idx) res_tag_len rx_pdu) in
      (err, write stk (length front) back)

  unfoldable pub process_received_response : ClientCtx → List ℕ → ℕ → Header → ℕ → Err × ClientCtx
  process_received_response ctx rx_pdu rx_pdu_len hdr rx_timestamp =
      let hdr_len = header_len ctx.client_config.header_type in
      if not (hdr.sid == server_sid)
      then (secwarn_server_only_message, ctx)
      else if ltb rx_pdu_len (hdr_len + res_payload_len)
      then (too_short_pdu_to_contain_res, ctx)
      else if not (get_or rx_pdu (hdr_len + res_client_idx) 0 == ctx.client_config.sid)
      then (msg_ignored, ctx)
      else elim (find_group ctx hdr.gid) [
        | none ↦ (unknown_group, ctx)
        | some i ↦
            let s = group_state ctx i in
            let err =
              is_response_acceptable ctx.client_config.timeout_req_to_res_millis s rx_timestamp in
            if not (is_ok err)
            then (err, ctx)
            else (let received_ctrnonce =
                  decode_le24 (slice (hdr_len + res_ctrnonce_idx) res_ctrnonce_len rx_pdu) in
                if is_ctrnonce_expired received_ctrnonce
                then (secwarn_received_overflown_nonce, ctx)
                else (let (err, stk) = decrypt_stk ctx.client_config hdr s.request_nonce rx_pdu in
                    if not (is_ok err)
                    then (err, ctx)
                    else if is_all_zeros stk
                    then (secwarn_received_zero_key, ctx)
                    else (
                      ok,
                      put_state ctx i (establish_session s stk received_ctrnonce rx_timestamp),
                    )))
      ]
