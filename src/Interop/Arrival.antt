-- ===== src/Interop/Arrival.antt =====
-- How a message of the handshake reaches the function that processes it: what is read of it, and
-- which handler hzl_ClientProcessReceived calls.
use hazelnet.Base.{ℕ, ◌≤◌, ◌≡◌, ◌≢◌, refl, true, false, arith, List, take, some}
use hazelnet.Endian.{encode_le64}
use hazelnet.Err.{ok, is_ok-ok, is_ok_iff}
use hazelnet.Header.{header_len, header_unpack}
use hazelnet.Message.{CbsPduMsg, RxSduMsg, zero_pdu, zero_sdu, check_received_generic_msg}
use hazelnet.Platform.{Platform, current_time}
use hazelnet.Timing.{time_delta}
use hazelnet.Utils.{is_all_zeros}
use hazelnet.Server
use hazelnet.Server.Receive.{server_process_received}
use hazelnet.Server.Renewal.{ren_header}
use hazelnet.Server.Request.{res_header}
use hazelnet.Client
use hazelnet.Client.Build.{build_msg_req, client_build_request}
use hazelnet.Client.Group.{find_group, is_response_acceptable, is_a_handshake_ongoing}
use hazelnet.Client.Receive.{client_process_received, dispatch}
use hazelnet.Client.Renewal.{process_received_renewal}
use hazelnet.Client.Response.{process_received_response}
use hazelnet.Interop.Answer.{server-cut, asked}
use hazelnet.Interop.EndToEnd.{receive-cut}

module _ (p : Platform) where
  -- Messages that agree up to their length are processed alike.
  pub server-reads :
      (pdu : CbsPduMsg) (sdu : RxSduMsg) (ctx : Server.ServerCtx) (xs ys : List ℕ) (n m can_id : ℕ)
      → n ≡ m
      → take m xs ≡ ys
      → server_process_received p false false pdu sdu ctx (some xs) n can_id
        ≡ server_process_received p false false pdu sdu ctx (some ys) m can_id
  server-reads pdu sdu ctx xs ys n m can_id e t = rw (e, ← t) (server-cut p pdu sdu ctx xs m can_id)

  pub client-reads :
      (pdu : CbsPduMsg) (sdu : RxSduMsg) (ctx : Client.ClientCtx) (xs ys : List ℕ) (n m can_id : ℕ)
      → n ≡ m
      → take m xs ≡ ys
      → client_process_received p false false pdu sdu ctx (some xs) n can_id
        ≡ client_process_received p false false pdu sdu ctx (some ys) m can_id
  client-reads pdu sdu ctx xs ys n m can_id e t =
      rw (e, ← t) (receive-cut p pdu sdu ctx xs m can_id)

  pub client_build_request_ok :
      (pdu : CbsPduMsg) (client : Client.ClientCtx) (gid i : ℕ)
      → find_group client gid ≡ some i
      → (client_build_request p false pdu client gid).0 ≡ ok
      → let result = client_build_request p false pdu client gid in
        let io =
          (is_a_handshake_ongoing p client.client_config.timeout_req_to_res_millis client.io
            (Client.group_state client i)).2 in
        let built =
          build_msg_req p client.client_config
            (Client.group_config client i).gid
            io
            (Client.group_state client i)
            (record pdu { data_len = 0 }) in
        (built.0 ≡ ok)
        × (result.1 ≡ record (Client.put_state client i built.1) { io = built.2 })
        × (result.2 ≡ built.3)
        × (Client.check_ctx_pointers client.nulls ≡ ok)
  unfolding client_build_request
  client_build_request_ok pdu client gid i found h =
      ground (arith, is_ok-ok, is_ok_iff (Client.check_ctx_pointers client.nulls))

  -- A Response for this Client is handed to the function for Responses.
  pub client-dispatches :
      (pdu : CbsPduMsg) (sdu : RxSduMsg) (client : Client.ClientCtx) (bytes : List ℕ)
      (gid len can_id : ℕ)
      → Client.check_ctx_pointers client.nulls ≡ ok
      → (current_time p client.io).0 ≡ ok
      → client.client_config.sid ≢ 0
      → header_unpack client.client_config.header_type bytes ≡ res_header gid
      → take len bytes ≡ bytes
      → header_len client.client_config.header_type ≤ len
      → let inner =
          process_received_response p
            (record client { io = (current_time p client.io).2 })
            bytes
            len
            (res_header gid)
            (current_time p client.io).1 in
        client_process_received p false false pdu sdu client (some bytes) len can_id
        ≡ (inner.0, inner.1, zero_pdu, record zero_sdu { can_id = can_id })
  unfolding client_process_received check_received_generic_msg dispatch
  client-dispatches pdu sdu client bytes gid len can_id pointers clock own_sid hdr whole long =
      rw (whole, hdr) (ground (arith, is_ok-ok, pointers, clock))

  -- A renewal notification is handed to the function for renewals.
  pub client-dispatches_renewal :
      (pdu : CbsPduMsg) (sdu : RxSduMsg) (client : Client.ClientCtx) (bytes : List ℕ)
      (gid len can_id : ℕ)
      → Client.check_ctx_pointers client.nulls ≡ ok
      → (current_time p client.io).0 ≡ ok
      → client.client_config.sid ≢ 0
      → header_unpack client.client_config.header_type bytes ≡ ren_header gid
      → take len bytes ≡ bytes
      → header_len client.client_config.header_type ≤ len
      → let inner =
          process_received_renewal p zero_pdu
            (record client { io = (current_time p client.io).2 })
            bytes
            len
            (ren_header gid)
            (current_time p client.io).1 in
        client_process_received p false false pdu sdu client (some bytes) len can_id
        ≡ (inner.0, inner.1, inner.2, record zero_sdu { can_id = can_id })
  unfolding client_process_received check_received_generic_msg dispatch
  client-dispatches_renewal pdu sdu client bytes gid len can_id pointers clock own_sid hdr whole
        long =
      rw (whole, hdr) (ground (arith, is_ok-ok, pointers, clock))

pub zero-encoded : is_all_zeros (encode_le64 0) ≡ true
unfolding is_all_zeros encode_le64
zero-encoded = refl

-- A Response to an outstanding Request that has not timed out is acceptable.
pub acceptable_in_time :
    (timeout : ℕ) (s : Client.GroupState) (now : ℕ)
    → s.request_nonce ≢ 0
    → time_delta s.last_handshake_event_instant now ≤ timeout
    → is_response_acceptable timeout s now ≡ ok
unfolding is_response_acceptable
acceptable_in_time timeout s now asked in_time = ground arith
