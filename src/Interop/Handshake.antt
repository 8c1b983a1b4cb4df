-- ===== src/Interop/Handshake.antt =====
-- The handshake: hzl_ClientBuildRequest, hzl_ServerProcessReceived and hzl_ClientProcessReceived, one
-- on the message of the other.
use hazelnet.Base.{
  ℕ, ◌+◌, ◌≤◌, ◌<◌, ◌≡◌, ◌≢◌, refl, sym, ap, ◌∙◌, true, false, arith, List, length, take, some,
  replicate,
}
use hazelnet.Base.Lists.{get_or-set_self}
use hazelnet.Endian.{encode_le64}
use hazelnet.Err.{Err, ok}
use hazelnet.Header.{header_len, header_unpack}
use hazelnet.Header.RoundTrip.{Fits}
use hazelnet.Message.{CbsPduMsg, RxSduMsg, zero_pdu}
use hazelnet.Payload.{max_ctrnonce}
use hazelnet.Platform.{Platform, Io, AeadLaws, HashLaws, current_time}
use hazelnet.Timing.{time_delta}
use hazelnet.Utils.{is_all_zeros, non_zero_trng}
use hazelnet.Server
use hazelnet.Server.Group.{update_current_rx_last_message_instant, did_any_client_already_request}
use hazelnet.Server.Receive.{server_process_received}
use hazelnet.Server.Request.{validate_sid_and_gid, client_ltk, res_header}
use hazelnet.Client
use hazelnet.Client.Build.{req_header, build_msg_req, client_build_request}
use hazelnet.Client.Group.{find_group, is_a_handshake_ongoing, set_request_tx_time_to_now}
use hazelnet.Client.Groups.{find_group-io, find_group_lem}
use hazelnet.Client.Handshake.{find_group-put}
use hazelnet.Client.Receive.{client_process_received}
use hazelnet.Client.Response.{process_received_response, establish_session}
use hazelnet.Interop.Answer.{asked, answer, request-answered, process-response}
use hazelnet.Interop.Request.{GivesBytes, nonce, request_wire, build_msg_req-wire, nonce-not-zero}
use hazelnet.Interop.Response.{length-response_wire}
use hazelnet.Interop.Drawn.{response, length-draw, build_msg_response-wire, draw}
use hazelnet.Interop.Arrival.{
  server-reads, client-reads, client_build_request_ok, client-dispatches, zero-encoded,
  acceptable_in_time,
}

-- A Client and a Server that are configured for each other in the Group `gid`, which the Client has
-- at the index `i`.
pub record Partners (client : Client.ClientCtx) (server : Server.ServerCtx) (gid i : ℕ)
    : Type 0 where
  pub fits : Fits client.client_config.header_type (req_header client.client_config gid)
  pub own_sid : client.client_config.sid ≢ 0
  pub not_type1 : client.client_config.header_type ≢ 1
  pub gid_kept : client.client_config.header_type ≡ 2 → gid ≡ 0
  pub same_type : server.server_config.header_type ≡ client.client_config.header_type
  pub same_ltk : client_ltk server client.client_config.sid ≡ client.client_config.ltk
  pub in_group : find_group client gid ≡ some i
  pub client_stk_full : length (Client.group_state client i).current_stk ≡ 16
  pub client_room : i < length client.group_states
  pub server_room : gid < length server.group_states
  pub stk_full : length (Server.group_state server gid).current_stk ≡ 16
  pub has_key : is_all_zeros (Server.group_state server gid).current_stk ≡ false
  pub fresh : (Server.group_state server gid).current_ctr_nonce < max_ctrnonce

module _ (p : Platform) (hash : HashLaws p.ascon) (aead : AeadLaws p.ascon) (bytes : GivesBytes p)
    (client : Client.ClientCtx) (server : Server.ServerCtx) (gid i : ℕ)
    (w : Partners client server gid i) (pdu : CbsPduMsg) (full : length pdu.bytes ≡ 64)
    (h : (client_build_request p false pdu client gid).0 ≡ ok) where
  abbrev pub requested : Err × Client.ClientCtx × CbsPduMsg
  requested = client_build_request p false pdu client gid

  abbrev pub io : Io
  io =
      (is_a_handshake_ongoing p client.client_config.timeout_req_to_res_millis client.io
        (Client.group_state client i)).2

  pub same_gid : (Client.group_config client i).gid ≡ gid
  same_gid = ((find_group_lem client gid).0 i w.in_group).has_gid

  abbrev pub built : Err × Client.GroupState × Io × CbsPduMsg
  built =
      build_msg_req p client.client_config gid io (Client.group_state client i)
        (record pdu { data_len = 0 })

  -- The Request on the wire.
  pub sent :
      (built.0 ≡ ok)
      × (requested.1 ≡ record (Client.put_state client i built.1) { io = built.2 })
      × (requested.2 ≡ built.3)
      × (Client.check_ctx_pointers client.nulls ≡ ok)
  sent = rw same_gid at (client_build_request_ok p pdu client gid i w.in_group h)

  abbrev pub wire_request : List ℕ
  wire_request = request_wire p hash client.client_config gid io

  pub on_wire :
      (built.1
        ≡ record (set_request_tx_time_to_now p
            (non_zero_trng p io (replicate 8 0) 8).2
            (Client.group_state client i)).1 {
              request_nonce = nonce p hash client.client_config gid io;
            })
      × (built.3.data_len ≡ header_len client.client_config.header_type + 24)
      × (take (header_len client.client_config.header_type + 24) built.3.bytes ≡ wire_request)
      × ((non_zero_trng p io (replicate 8 0) 8).0 ≡ ok)
  on_wire =
      build_msg_req-wire p hash client.client_config gid io w.fits.known
        (Client.group_state client i) (record pdu { data_len = 0 }) full sent.0

  module _ (pdu' : CbsPduMsg) (sdu' : RxSduMsg) (can_id : ℕ)
      (k : (server_process_received p false false pdu' sdu' server
          (some requested.2.bytes)
          requested.2.data_len
          can_id).0
        ≡ ok) where
    abbrev pub answered : Err × Server.ServerCtx × CbsPduMsg × RxSduMsg
    answered =
        server_process_received p false false pdu' sdu' server (some requested.2.bytes)
          requested.2.data_len can_id

    arrives :
        answered
        ≡ server_process_received p false false pdu' sdu' server
            (some wire_request)
            (header_len client.client_config.header_type + 24)
            can_id
    arrives =
        server-reads p pdu' sdu' server requested.2.bytes wire_request requested.2.data_len
          (header_len client.client_config.header_type + 24) can_id
          (ap (λ (m : CbsPduMsg). m.data_len) sent.2 ∙ on_wire.1)
          (ap (λ (m : CbsPduMsg). take (header_len client.client_config.header_type + 24) m.bytes)
              sent.2
            ∙ on_wire.2)

    abbrev pub state' : Server.GroupState
    state' =
        asked p hash client.client_config gid io w.fits w.own_sid w.not_type1 w.gid_kept server
          w.same_type w.same_ltk

    abbrev pub reply : Err × Io × CbsPduMsg
    reply =
        answer p hash client.client_config gid io w.fits w.own_sid w.not_type1 w.gid_kept server
          w.same_type w.same_ltk

    pub replied :
        (reply.0 ≡ ok)
        × (answered.1 ≡ record (Server.put_state server gid state') { io = reply.1 })
        × (answered.2 ≡ reply.2)
        × (validate_sid_and_gid server gid client.client_config.sid ≡ ok)
    replied = rw (sym arrives) at (
        request-answered p hash client.client_config gid io w.fits w.own_sid w.not_type1 w.gid_kept
          server w.same_type w.same_ltk bytes on_wire.3 pdu' sdu' can_id (rw arrives at k))

    pub stk_kept :
        (state'.current_stk ≡ (Server.group_state server gid).current_stk)
        × (state'.current_ctr_nonce ≡ (Server.group_state server gid).current_ctr_nonce)
        × (did_any_client_already_request state' ≡ true)
    unfolding update_current_rx_last_message_instant did_any_client_already_request
    stk_kept = ground arith

    pub stk_len : length state'.current_stk ≡ 16
    stk_len = ap length stk_kept.0 ∙ w.stk_full

    abbrev pub wire_response : List ℕ
    wire_response =
        response p aead client.client_config.header_type gid state' client.client_config.ltk
          (encode_le64 (nonce p hash client.client_config gid io)) client.client_config.sid
          (current_time p server.io).2 zero_pdu w.fits.known stk_len refl

    pub response-sent :
        (answered.2.data_len ≡ header_len client.client_config.header_type + 44)
        × (take (header_len client.client_config.header_type + 44) answered.2.bytes ≡ wire_response)
    response-sent = rw (sym replied.2) at (
        build_msg_response-wire p aead client.client_config.header_type gid state'
          client.client_config.ltk (encode_le64 (nonce p hash client.client_config gid io))
          client.client_config.sid (current_time p server.io).2 zero_pdu w.fits.known stk_len refl
          replied.0)

    abbrev pub nonce_drawn : List ℕ
    nonce_drawn =
        (draw p aead client.client_config.header_type gid state' client.client_config.ltk
          (encode_le64 (nonce p hash client.client_config gid io)) client.client_config.sid
          (current_time p server.io).2 zero_pdu w.fits.known stk_len refl).1

    pub length-wire_response :
        length wire_response ≡ header_len client.client_config.header_type + 44
    length-wire_response =
        length-response_wire p aead client.client_config.header_type gid state'
          client.client_config.ltk (encode_le64 (nonce p hash client.client_config gid io))
          client.client_config.sid nonce_drawn w.fits.known
          (length-draw p aead client.client_config.header_type gid state' client.client_config.ltk
            (encode_le64 (nonce p hash client.client_config gid io)) client.client_config.sid
            (current_time p server.io).2 zero_pdu w.fits.known stk_len refl)
          stk_len

    -- The Client after its Request.
    abbrev pub waiting : Client.ClientCtx
    waiting = record (Client.put_state client i built.1) { io = built.2 }

    pub waits : Client.group_state waiting i ≡ built.1
    waits = get_or-set_self client.group_states i built.1 Client.zero_state w.client_room

    module _ (clock : (current_time p waiting.io).0 ≡ ok)
        (in_time : time_delta built.1.last_handshake_event_instant (current_time p waiting.io).1
          ≤ client.client_config.timeout_req_to_res_millis) where
      abbrev pub ticked : Client.ClientCtx
      ticked = record waiting { io = (current_time p waiting.io).2 }

      asked_nonce : built.1.request_nonce ≡ nonce p hash client.client_config gid io
      asked_nonce = ap (λ (c : Client.GroupState). c.request_nonce) on_wire.0

      asked_something : built.1.request_nonce ≢ 0
      asked_something e = cc (
        zero-encoded,
        nonce-not-zero p hash client.client_config gid io bytes on_wire.3,
        ap (λ (n : ℕ). is_all_zeros (encode_le64 n)) (sym asked_nonce ∙ e),
      )

      pub established :
          process_received_response p ticked wire_response
            (header_len client.client_config.header_type + 44)
            (res_header gid)
            (current_time p waiting.io).1
          ≡ (
            ok,
            Client.put_state ticked i (
                establish_session
                  (Client.group_state ticked i)
                  state'.current_stk
                  state'.current_ctr_nonce
                  (current_time p waiting.io).1),
          )
      established =
          process-response p aead client.client_config.header_type gid state'
            (encode_le64 (nonce p hash client.client_config gid io)) nonce_drawn ticked i
            (current_time p waiting.io).1 w.fits.known
            (length-draw p aead client.client_config.header_type gid state' client.client_config.ltk
              (encode_le64 (nonce p hash client.client_config gid io)) client.client_config.sid
              (current_time p server.io).2 zero_pdu w.fits.known stk_len refl)
            stk_len (ap is_all_zeros stk_kept.0 ∙ w.has_key) (omega (arith, stk_kept.1, w.fresh))
            refl
            (find_group-io waiting (current_time p waiting.io).2 gid
              ∙ (find_group-io (Client.put_state client i built.1) built.2 gid
                  ∙ (find_group-put client i built.1 gid ∙ w.in_group)))
            (ap (λ (c : Client.GroupState). encode_le64 c.request_nonce) waits
              ∙ ap encode_le64 asked_nonce)
            (rw waits (
              acceptable_in_time client.client_config.timeout_req_to_res_millis built.1
                (current_time p waiting.io).1 asked_something in_time))

      pub finished :
          header_unpack client.client_config.header_type wire_response ≡ res_header gid
          → take (header_len client.client_config.header_type + 44) wire_response ≡ wire_response
          → (pdu'' : CbsPduMsg) (sdu'' : RxSduMsg) (can_id' : ℕ)
          → let result =
              client_process_received p false false pdu'' sdu'' waiting
                (some answered.2.bytes)
                answered.2.data_len
                can_id' in
            (result.0 ≡ ok)
            × (result.1
                ≡ Client.put_state ticked i (
                    establish_session built.1 state'.current_stk state'.current_ctr_nonce
                      (current_time p waiting.io).1))
      finished hdr whole pdu'' sdu'' can_id' =
          rw
            (
              client-reads p pdu'' sdu'' waiting answered.2.bytes wire_response answered.2.data_len
                  (header_len client.client_config.header_type + 44) can_id' response-sent.0
                  response-sent.1,
              client-dispatches p pdu'' sdu'' waiting wire_response gid
                  (header_len client.client_config.header_type + 44) can_id' sent.3 clock w.own_sid
                  hdr whole (omega arith),
              established,
              waits,
            )
            (refl, refl)
