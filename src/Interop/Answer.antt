-- ===== src/Interop/Answer.antt =====
-- The Server answers a Request, and the Client takes the answer: hzl_ServerProcessReceived on the
-- Request, hzl_ClientProcessReceivedResponse on the Response.
use hazelnet.Base.{
  zero, suc, ℕ, ◌+◌, ◌≤◌, ◌<◌, ◌≡◌, ◌≢◌, refl, sym, ap, ◌∙◌, false, arith, List, [], ◌∷◌, length,
  take, some, replicate,
}
use hazelnet.Base.Wire.{take_all}
use hazelnet.Endian.{encode_le24, decode_le24, encode_le64}
use hazelnet.Endian.RoundTrip.{decode_le24-encode_le24}
use hazelnet.Err.{Err, ok, is_ok, is_ok-ok, is_ok_iff}
use hazelnet.Header.{Header, header_len, header_unpack}
use hazelnet.Header.RoundTrip.{Fits, unpack-pack_exact}
use hazelnet.Message.{
  CbsPduMsg, RxSduMsg, zero_pdu, zero_sdu, check_received_generic_msg, process_received_unsecured,
}
use hazelnet.Payload.{max_ctrnonce}
use hazelnet.Platform.{Platform, Io, AeadLaws, HashLaws, current_time}
use hazelnet.Utils.{is_all_zeros, non_zero_trng}
use hazelnet.Server
use hazelnet.Server.Group.{update_current_rx_last_message_instant}
use hazelnet.Server.Receive
use hazelnet.Server.Receive.{server_process_received}
use hazelnet.Server.Request.{
  validate_sid_and_gid, client_ltk, build_msg_response, process_received_request, res_header,
}
use hazelnet.Client
use hazelnet.Client.Build.{req_header}
use hazelnet.Client.Group.{find_group, is_response_acceptable}
use hazelnet.Client.Response.{process_received_response, establish_session}
use hazelnet.Interop.Request.{
  GivesBytes, nonce, request_wire, length-request_wire, request_wire-nonce, request_wire-checked,
  nonce-not-zero,
}
use hazelnet.Interop.Response.{
  response_wire, response_wire-client, response_wire-ctrnonce, decrypt_stk-response_wire,
}

validate-io :
    (ctx : Server.ServerCtx) (io : Io) (gid sid : ℕ)
    → validate_sid_and_gid (record ctx { io = io }) gid sid ≡ validate_sid_and_gid ctx gid sid
unfolding validate_sid_and_gid
validate-io ctx io gid sid = refl

-- Bytes behind the length do not matter to the Server.
take-take : (xs : List ℕ) (n : ℕ) → take n (take n xs) ≡ take n xs
take-take xs zero = refl
take-take [] (suc n) = refl
take-take (x ∷ xs) (suc n) = ap (λ (l : List ℕ). x ∷ l) (take-take xs n)

module _ (p : Platform) where
  dispatch-cut :
      (pdu : CbsPduMsg) (sdu : RxSduMsg) (ctx : Server.ServerCtx) (xs : List ℕ) (len : ℕ)
      (hdr : Header) (now : ℕ)
      → Receive.dispatch p pdu sdu ctx (some xs) len hdr now
        ≡ Receive.dispatch p pdu sdu ctx (some (take len xs)) len hdr now
  unfolding Receive.dispatch process_received_unsecured
  dispatch-cut pdu sdu ctx xs len hdr now = rw (take-take xs len) refl

  pub server-cut :
      (pdu : CbsPduMsg) (sdu : RxSduMsg) (ctx : Server.ServerCtx) (xs : List ℕ) (len can_id : ℕ)
      → server_process_received p false false pdu sdu ctx (some xs) len can_id
        ≡ server_process_received p false false pdu sdu ctx (some (take len xs)) len can_id
  unfolding server_process_received check_received_generic_msg
  server-cut pdu sdu ctx xs len can_id = rw (take-take xs len) (
      ground (
        arith,
        dispatch-cut zero_pdu (record zero_sdu { can_id = can_id })
            (record ctx { io = (current_time p ctx.io).2 }) xs len
            (header_unpack ctx.server_config.header_type (take len xs)) (current_time p ctx.io).1,
      ))

module _ (p : Platform) (laws : HashLaws p.ascon) (config : Client.ClientConfig) (gid : ℕ) (io : Io)
    (fits : Fits config.header_type (req_header config gid)) (own_sid : config.sid ≢ 0)
    (not_type1 : config.header_type ≢ 1) (gid_kept : config.header_type ≡ 2 → gid ≡ 0)
    (server : Server.ServerCtx) (same_type : server.server_config.header_type ≡ config.header_type)
    (same_ltk : client_ltk server config.sid ≡ config.ltk) where
  abbrev request : List ℕ
  request = request_wire p laws config gid io

  abbrev len : ℕ
  len = header_len config.header_type + 24

  whole : take len request ≡ request
  whole = take_all request len (sym (length-request_wire p laws config gid io fits.known))

  header-request : header_unpack config.header_type request ≡ req_header config gid
  header-request =
      unpack-pack_exact config.header_type (req_header config gid) _ fits
        (λ e. absurd (not_type1 e)) gid_kept

  check-request :
      check_received_generic_msg (some request) len 0 server.server_config.header_type
      ≡ (ok, some (req_header config gid))
  unfolding check_received_generic_msg
  check-request = rw (same_type, whole, header-request) (ground arith)

  -- The Group's state that the Request leaves, and the call that builds the Response.
  abbrev pub asked : Server.GroupState
  asked =
      update_current_rx_last_message_instant (current_time p server.io).1
        (Server.group_state server gid)

  abbrev pub answer : Err × Io × CbsPduMsg
  answer =
      build_msg_response p config.header_type gid asked config.ltk
        (encode_le64 (nonce p laws config gid io)) config.sid (current_time p server.io).2 zero_pdu

  process-request :
      GivesBytes p
      → (non_zero_trng p io (replicate 8 0) 8).0 ≡ ok
      → validate_sid_and_gid server gid config.sid ≡ ok
      → process_received_request p zero_pdu
          (record server { io = (current_time p server.io).2 })
          request
          len
          (req_header config gid)
          (current_time p server.io).1
        ≡ (answer.0, record (Server.put_state server gid asked) { io = answer.1 }, answer.2)
  unfolding process_received_request
  process-request bytes drew valid =
      rw
        (
          validated,
          same_type,
          same_ltk,
          request_wire-nonce p laws config gid io fits.known,
          nonce-not-zero p laws config gid io bytes drew,
          request_wire-checked p laws config gid io fits.known,
        )
        (ground (arith, is_ok-ok))
    where
      validated :
          validate_sid_and_gid (record server { io = (current_time p server.io).2 }) gid config.sid
          ≡ ok
      validated = validate-io server (current_time p server.io).2 gid config.sid ∙ valid

  -- The message reaches the function for Requests.
  reached :
      (pdu : CbsPduMsg) (sdu : RxSduMsg) (can_id : ℕ)
      → (server_process_received p false false pdu sdu server (some request) len can_id).0 ≡ ok
      → let result =
          server_process_received p false false pdu sdu server (some request) len can_id in
        let inner =
          process_received_request p zero_pdu
            (record server { io = (current_time p server.io).2 })
            request
            len
            (req_header config gid)
            (current_time p server.io).1 in
        (result.0 ≡ inner.0) × (result.1 ≡ inner.1) × (result.2 ≡ inner.2)
  unfolding server_process_received Receive.dispatch is_ok
  reached pdu sdu can_id = rw (check-request, whole) (λ h. ground arith)

  was_valid :
      (pdu : CbsPduMsg) (sdu : RxSduMsg) (can_id : ℕ)
      → (server_process_received p false false pdu sdu server (some request) len can_id).0 ≡ ok
      → validate_sid_and_gid server gid config.sid ≡ ok
  unfolding process_received_request
  was_valid pdu sdu can_id h = ground (
    arith,
    is_ok-ok,
    reached pdu sdu can_id h,
    validate-io server (current_time p server.io).2 gid config.sid,
    is_ok_iff (validate_sid_and_gid server gid config.sid),
  )

  -- A Request that the Server processes without an error is answered.
  pub request-answered :
      GivesBytes p
      → (non_zero_trng p io (replicate 8 0) 8).0 ≡ ok
      → (pdu : CbsPduMsg) (sdu : RxSduMsg) (can_id : ℕ)
      → (server_process_received p false false pdu sdu server (some request) len can_id).0 ≡ ok
      → let result =
          server_process_received p false false pdu sdu server (some request) len can_id in
        (answer.0 ≡ ok)
        × (result.1 ≡ record (Server.put_state server gid asked) { io = answer.1 })
        × (result.2 ≡ answer.2)
        × (validate_sid_and_gid server gid config.sid ≡ ok)
  request-answered bytes drew pdu sdu can_id h =
      ground (arith, reached pdu sdu can_id h, valid, process-request bytes drew valid)
    where
      valid : validate_sid_and_gid server gid config.sid ≡ ok
      valid = was_valid pdu sdu can_id h

-- The Client takes a Response that fits its outstanding Request.
module _ (p : Platform) (laws : AeadLaws p.ascon) (header_type gid : ℕ) (s : Server.GroupState)
    (req_nonce res_nonce : List ℕ) (client : Client.ClientCtx) (i now : ℕ) (known : header_type ≤ 6)
    (nonce_len : length res_nonce ≡ 8) (stk_full : length s.current_stk ≡ 16)
    (has_key : is_all_zeros s.current_stk ≡ false) (fresh : s.current_ctr_nonce < max_ctrnonce)
    (same_type : client.client_config.header_type ≡ header_type)
    (in_group : find_group client gid ≡ some i)
    (outstanding : encode_le64 (Client.group_state client i).request_nonce ≡ req_nonce)
    (acceptable : is_response_acceptable client.client_config.timeout_req_to_res_millis
        (Client.group_state client i)
        now
      ≡ ok) where
  abbrev answer_bytes : List ℕ
  answer_bytes =
      response_wire p laws header_type gid s client.client_config.ltk req_nonce
        client.client_config.sid res_nonce

  pub process-response :
      process_received_response p client answer_bytes
        (header_len header_type + 44)
        (res_header gid)
        now
      ≡ (
        ok,
        Client.put_state client i
            (establish_session (Client.group_state client i) s.current_stk s.current_ctr_nonce now),
      )
  unfolding process_received_response
  process-response =
      simp
        (
          same_type,
          response_wire-client p laws header_type gid s client.client_config.ltk req_nonce
              client.client_config.sid res_nonce known nonce_len stk_full,
          response_wire-ctrnonce p laws header_type gid s client.client_config.ltk req_nonce
              client.client_config.sid res_nonce known nonce_len stk_full,
          ctr,
          in_group,
          acceptable,
          has_key,
          decrypt_stk-response_wire p laws header_type gid s client.client_config.ltk req_nonce
              client.client_config.sid res_nonce known nonce_len stk_full client.client_config
              (Client.group_state client i).request_nonce same_type refl outstanding,
        )
        (ground (arith, is_ok-ok))
    where
      ctr : decode_le24 (encode_le24 s.current_ctr_nonce) ≡ s.current_ctr_nonce
      ctr = omega (arith, decode_le24-encode_le24 s.current_ctr_nonce)
