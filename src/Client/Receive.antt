-- ===== src/Client/Receive.antt =====
-- src/client/hzl_ClientProcessReceived.c and hzl_ClientProcessReceivedSecuredTp.c: the dispatch of a
-- received message.
use hazelnet.Base.{ℕ, Bool, not, List, Option, some, none, ◌==◌, if◌then◌else◌}
use hazelnet.Err.{Err, is_ok, null_pdu, null_sdu, programming, msg_ignored, invalid_payload_type}
use hazelnet.Header.{Header}
use hazelnet.Header.Pty
use hazelnet.Message.{
  CbsPduMsg, RxSduMsg, zero_pdu, zero_sdu, bytes_of, check_received_generic_msg,
  process_received_unsecured,
}
use hazelnet.Platform.{Platform, current_time}
use hazelnet.Client.{ClientCtx, check_ctx_pointers}
use hazelnet.Client.Response.{process_received_response}
use hazelnet.Client.Renewal.{process_received_renewal}
use hazelnet.Client.SecuredFd.{process_received_secured_fd}

module _ (p : Platform) where
  -- The `switch` of `hzl_ClientProcessReceived` on the payload type, with the call of
  -- `hzl_ClientProcessReceivedSecuredTp`, which only returns HZL_ERR_PROGRAMMING.
  unfoldable pub dispatch :
      CbsPduMsg
      → RxSduMsg
      → ClientCtx
      → Option (List ℕ)
      → ℕ
      → Header
      → ℕ
      → Err × ClientCtx × CbsPduMsg × RxSduMsg
  dispatch pdu sdu ctx received_pdu received_pdu_len hdr rx_timestamp =
      let rx_pdu = bytes_of received_pdu received_pdu_len in
      if hdr.pty == Pty.req
      then (msg_ignored, ctx, pdu, sdu)
      else if hdr.pty == Pty.res
      then (let (err, ctx') =
            process_received_response p ctx rx_pdu received_pdu_len hdr rx_timestamp in
          (err, ctx', pdu, sdu))
      else if hdr.pty == Pty.ren
      then (let (err, ctx', pdu') =
            process_received_renewal p pdu ctx rx_pdu received_pdu_len hdr rx_timestamp in
          (err, ctx', pdu', sdu))
      else if hdr.pty == Pty.sadtp
      then (programming, ctx, pdu, sdu)
      else if hdr.pty == Pty.sadfd
      then (let (err, ctx', sdu') =
            process_received_secured_fd p sdu ctx rx_pdu received_pdu_len hdr rx_timestamp in
          (err, ctx', pdu, sdu'))
      else if hdr.pty == Pty.uad
      then (let (err, sdu') =
            process_received_unsecured sdu received_pdu received_pdu_len hdr
              ctx.client_config.header_type in
          (err, ctx, pdu, sdu'))
      else (invalid_payload_type, ctx, pdu, sdu)

  unfoldable pub client_process_received :
      Bool
      → Bool
      → CbsPduMsg
      → RxSduMsg
      → ClientCtx
      → Option (List ℕ)
      → ℕ
      → ℕ
      → Err × ClientCtx × CbsPduMsg × RxSduMsg
  client_process_received pdu_null sdu_null pdu sdu ctx received_pdu received_pdu_len can_id =
      if pdu_null
      then (null_pdu, ctx, pdu, sdu)
      else if sdu_null
      then (null_sdu, ctx, pdu, sdu)
      else (let err = check_ctx_pointers ctx.nulls in
          if not (is_ok err)
          then (err, ctx, pdu, sdu)
          else (let (time_err, rx_timestamp, io') = current_time p ctx.io in
              let ctx' : ClientCtx = record ctx { io = io' } in
              if not (is_ok time_err)
              then (time_err, ctx', zero_pdu, zero_sdu)
              else (let (err, unpacked) =
                    check_received_generic_msg received_pdu received_pdu_len ctx.client_config.sid
                      ctx.client_config.header_type in
                  if not (is_ok err) then (err, ctx', zero_pdu, zero_sdu) else elim unpacked [
                    | none ↦ (err, ctx', zero_pdu, zero_sdu)
                    | some hdr ↦
                        dispatch zero_pdu (record zero_sdu { can_id = can_id }) ctx' received_pdu
                          received_pdu_len hdr rx_timestamp
                  ])))
