-- ===== src/Client/Renewal.antt =====
-- src/client/hzl_ClientProcessReceivedRenewal.c: a Session renewal notification.
use hazelnet.Base.{ℕ, ◌+◌, false, not, List, [], ◌∷◌, some, none, ltb, ◌==◌, slice, if◌then◌else◌}
use hazelnet.Endian.{decode_le24}
use hazelnet.Err.{
  Err, is_ok, secwarn_server_only_message, msg_ignored, too_short_pdu_to_contain_ren,
  session_not_established,
}
use hazelnet.Header.{Header, header_len}
use hazelnet.Message.{CbsPduMsg}
use hazelnet.Payload.{
  server_sid, ren_label, ren_ctrnonce_idx, ren_ctrnonce_len, ren_tag_idx, ren_tag_len,
  ren_payload_len,
}
use hazelnet.Platform.{Platform, Io, Hash, hash_init, hash_update, hash_digest_check}
use hazelnet.Client.{
  ClientConfig, GroupConfig, GroupState, ClientCtx, group_state, group_config, put_state,
}
use hazelnet.Client.Group.{
  find_group, is_session_established_and_valid, is_renewal_acceptable, renewal_phase_exit_if_needed,
  renewal_phase_enter, update_ctrnonce_and_rx_timestamp, check_rx_ctrnonce,
}
use hazelnet.Client.Build.{build_msg_req}

module _ (p : Platform) where
  unfoldable pub ren_hash : List ℕ → Header → List ℕ → Hash p
  ren_hash stk hdr encoded_ctrnonce =
      let hash = hash_init p in
      let hash = hash_update p hash stk in
      let hash = hash_update p hash ren_label in
      let hash = hash_update p hash (hdr.gid ∷ []) in
      let hash = hash_update p hash (hdr.sid ∷ []) in
      let hash = hash_update p hash (hdr.pty ∷ []) in hash_update p hash encoded_ctrnonce

  -- The part of `hzl_ClientProcessReceivedRenewal` on an established Group whose state accepts a
  -- renewal.
  unfoldable pub renew :
      ClientConfig
      → GroupConfig
      → Io
      → GroupState
      → CbsPduMsg
      → List ℕ
      → ℕ
      → Header
      → ℕ
      → Err × GroupState × Io × CbsPduMsg
  renew config cfg io s pdu rx_pdu rx_pdu_len hdr rx_timestamp =
      let hdr_len = header_len config.header_type in
      if ltb rx_pdu_len (hdr_len + ren_payload_len)
      then (too_short_pdu_to_contain_ren, s, io, pdu)
      else (let encoded_ctrnonce = slice (hdr_len + ren_ctrnonce_idx) ren_ctrnonce_len rx_pdu in
          let received_ctrnonce = decode_le24 encoded_ctrnonce in
          let (err, is_previous) = check_rx_ctrnonce p false cfg s received_ctrnonce rx_timestamp in
          if not (is_ok err)
          then (err, s, io, pdu)
          else (let hash = ren_hash s.current_stk hdr encoded_ctrnonce in
              let err =
                hash_digest_check p hash (slice (hdr_len + ren_tag_idx) ren_tag_len rx_pdu) in
              if not (is_ok err)
              then (err, s, io, pdu)
              else build_msg_req p config cfg.gid io
                  (renewal_phase_enter
                    (update_ctrnonce_and_rx_timestamp s received_ctrnonce rx_timestamp false))
                  pdu))

  unfoldable pub process_received_renewal :
      CbsPduMsg → ClientCtx → List ℕ → ℕ → Header → ℕ → Err × ClientCtx × CbsPduMsg
  process_received_renewal pdu ctx rx_pdu rx_pdu_len hdr rx_timestamp =
      let emptied : CbsPduMsg = record pdu { data_len = 0 } in
      if not (hdr.sid == server_sid)
      then (secwarn_server_only_message, ctx, emptied)
      else elim (find_group ctx hdr.gid) [
        | none ↦ (msg_ignored, ctx, emptied)
        | some i ↦
            let s = group_state ctx i in
            if not (is_session_established_and_valid s)
            then (session_not_established, ctx, emptied)
            else if not (is_renewal_acceptable s)
            then (
              msg_ignored,
              put_state ctx i (renewal_phase_exit_if_needed (group_config ctx i) s rx_timestamp),
              emptied,
            )
            else (let (err, s', io', pdu') =
                  renew ctx.client_config (group_config ctx i) ctx.io s emptied rx_pdu rx_pdu_len
                    hdr rx_timestamp in
                (err, record (put_state ctx i s') { io = io' }, pdu'))
      ]
