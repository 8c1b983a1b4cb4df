-- ===== src/Server/Receive.antt =====
-- src/server/hzl_ServerProcessReceived.c: the dispatch of a received message.
use hazelnet.Base.{ℕ, Bool, not, List, Option, some, none, ◌==◌, if◌then◌else◌}
use hazelnet.Err.{
  Err, is_ok, null_pdu, null_sdu, programming, secwarn_server_only_message, invalid_payload_type,
}
use hazelnet.Header.{Header}
use hazelnet.Header.Pty
use hazelnet.Message.{
  CbsPduMsg, RxSduMsg, zero_pdu, zero_sdu, bytes_of, check_received_generic_msg,
  process_received_unsecured,
}
use hazelnet.Payload.{server_sid}
use hazelnet.Platform.{Platform, current_time}
use hazelnet.Server.{ServerCtx, check_ctx_pointers}
use hazelnet.Server.Request.{process_received_request}
use hazelnet.Server.SecuredFd.{process_received_secured_fd}

module _ (p : Platform) where
  -- The `switch` of `hzl_ServerProcessReceived` on the payload type.
  unfoldable pub dispatch :
      CbsPduMsg
      → RxSduMsg
      → ServerCtx
      → Option (List ℕ)
      → ℕ
      → Header
      → ℕ
      → Err × ServerCtx × CbsPduMsg × RxSduMsg
  dispatch pdu sdu ctx received_pdu received_pdu_len hdr rx_timestamp =
      let rx_pdu = bytes_of received_pdu received_pdu_len in
      if hdr.pty == Pty.req
      then (let (err, ctx', pdu') =
            process_received_request p pdu ctx rx_pdu received_pdu_len hdr rx_timestamp in
          (err, ctx', pdu', sdu))
      else if hdr.pty == Pty.res
      then (secwarn_server_only_message, ctx, pdu, sdu)
      else if hdr.pty == Pty.ren
      then (secwarn_server_only_message, ctx, pdu, sdu)
      else if hdr.pty == Pty.sadtp
      then (programming, ctx, pdu, sdu)
      else if hdr.pty == Pty.sadfd
      then process_received_secured_fd p pdu sdu ctx rx_pdu received_pdu_len hdr rx_timestamp
      else if hdr.pty == Pty.uad
      then (let (err, sdu') =
            process_received_unsecured sdu received_pdu received_pdu_len hdr
              ctx.server_config.header_type in
          (err, ctx, pdu, sdu'))
      else (invalid_payload_type, ctx, pdu, sdu)

  unfoldable pub server_process_received :
      Bool
      → Bool
      → CbsPduMsg
      → RxSduMsg
      → ServerCtx
      → Option (List ℕ)
      → ℕ
      → ℕ
      → Err × ServerCtx × CbsPduMsg × RxSduMsg
  server_process_received pdu_null sdu_null pdu sdu ctx received_pdu received_pdu_len can_id =
      if pdu_null
      then (null_pdu, ctx, pdu, sdu)
      else if sdu_null
      then (null_sdu, ctx, pdu, sdu)
      else (let err = check_ctx_pointers ctx.nulls in
          if not (is_ok err)
          then (err, ctx, pdu, sdu)
          else (let (time_err, rx_timestamp, io') = current_time p ctx.io in
              let ctx' : ServerCtx = record ctx { io = io' } in
              if not (is_ok time_err)
              then (time_err, ctx', zero_pdu, zero_sdu)
              else (let (err, unpacked) =
                    check_received_generic_msg received_pdu received_pdu_len server_sid
                      ctx.server_config.header_type in
                  if not (is_ok err) then (err, ctx', zero_pdu, zero_sdu) else elim unpacked [
                    | none ↦ (err, ctx', zero_pdu, zero_sdu)
                    | some hdr ↦
                        dispatch zero_pdu (record zero_sdu { can_id = can_id }) ctx' received_pdu
                          received_pdu_len hdr rx_timestamp
                  ])))
