-- ===== src/Interop/Agreement.antt =====
-- The handshake as a whole: after it the Client shares the Server's Session.
use hazelnet.Base.{
  ℕ, ◌+◌, ◌≤◌, ◌≡◌, refl, sym, ap, ◌∙◌, true, false, arith, List, length, some, replicate, take,
}
use hazelnet.Base.Lists.{length-set}
use hazelnet.Base.Wire.{take_all}
use hazelnet.Err.{Err, ok}
use hazelnet.Header.{header_len, header_unpack}
use hazelnet.Header.RoundTrip.{unpack-pack_exact}
use hazelnet.Message.{CbsPduMsg, RxSduMsg}
use hazelnet.Platform.{Platform, AeadLaws, HashLaws, current_time}
use hazelnet.Timing.{time_delta}
use hazelnet.Utils.{is_all_zeros, non_zero_trng}
use hazelnet.Server
use hazelnet.Server.Group.{did_any_client_already_request}
use hazelnet.Server.Receive.{server_process_received}
use hazelnet.Server.Request.{res_header}
use hazelnet.Client
use hazelnet.Client.Build.{client_build_request}
use hazelnet.Client.Receive.{client_process_received}
use hazelnet.Client.Response.{establish_session}
use hazelnet.Interop.Request.{GivesBytes}
use hazelnet.Interop.Handshake
use hazelnet.Interop.Handshake.{Partners}
use hazelnet.Interop.Shared.{SharesSession, res_header-Fits, request_keeps_stk, shares}

-- A Client and a Server with the same header type, not 1 and, if it is 2, for the Group 0; the
-- header of the Client's Request fits the type, its SID is not the Server's, and the Server has the
-- Client's long-term key under that SID. Both have a state of the Group with keys of 16 bytes, the
-- Server's key is not zero and its counter nonce not expired, and the Client's message has 64 bytes.
-- If `hzl_ClientBuildRequest` returns HZL_OK, `hzl_ServerProcessReceived` on its message returns
-- HZL_OK, the Client's clock works and the answer is back before the timeout, then
-- `hzl_ClientProcessReceived` on the answer returns HZL_OK. The Client then has the Server's key and
-- counter nonce of the Group, its Session is established and valid and no Request is outstanding,
-- and the Server knows that the Group has a receiver. LibAscon is relied on to decrypt what it
-- encrypted and to check the digests that it made, and the random generators to give bytes.
pub handshake-SharesSession :
    (p : Platform) (hash : HashLaws p.ascon) (aead : AeadLaws p.ascon) (bytes : GivesBytes p)
    (client : Client.ClientCtx) (server : Server.ServerCtx) (gid i can_id can_id' : ℕ)
    (pdu pdu' pdu'' : CbsPduMsg) (sdu' sdu'' : RxSduMsg)
    → Partners client server gid i
    → length pdu.bytes ≡ 64
    → let requested = client_build_request p false pdu client gid in
      let answered =
        server_process_received p false false pdu' sdu' server
          (some requested.2.bytes)
          requested.2.data_len
          can_id in
      let finished =
        client_process_received p false false pdu'' sdu'' requested.1
          (some answered.2.bytes)
          answered.2.data_len
          can_id' in
      requested.0 ≡ ok
      → answered.0 ≡ ok
      → (current_time p requested.1.io).0 ≡ ok
      → time_delta
          (Client.group_state requested.1 i).last_handshake_event_instant
          (current_time p requested.1.io).1
        ≤ client.client_config.timeout_req_to_res_millis
      → (finished.0 ≡ ok)
        × SharesSession (Client.group_state finished.1 i) (Server.group_state answered.1 gid)
handshake-SharesSession p hash aead bytes client server gid i can_id can_id' pdu pdu' pdu'' sdu'
      sdu'' w full h k clock in_time =
    let answers =
      Handshake.replied p hash aead bytes client server gid i w pdu full h pdu' sdu' can_id k in
    let done =
      Handshake.finished p hash aead bytes client server gid i w pdu full h pdu' sdu' can_id k
        clock' in_time' hdr whole pdu'' sdu'' can_id' in
    rw asks (done.0, rw (done.1, answers.1) shared)
  where
    config : Client.ClientConfig
    config = client.client_config

    requested : Err × Client.ClientCtx × CbsPduMsg
    requested = client_build_request p false pdu client gid

    waiting : Client.ClientCtx
    waiting =
        Handshake.waiting p hash aead bytes client server gid i w pdu full h pdu' sdu' can_id k

    asks : requested.1 ≡ waiting
    asks = (Handshake.sent p hash aead bytes client server gid i w pdu full h).1

    waits :
        Client.group_state waiting i
        ≡ (Handshake.built p hash aead bytes client server gid i w pdu full h).1
    waits = Handshake.waits p hash aead bytes client server gid i w pdu full h pdu' sdu' can_id k

    state' : Server.GroupState
    state' = Handshake.state' p hash aead bytes client server gid i w pdu full h pdu' sdu' can_id k

    wire : List ℕ
    wire =
        Handshake.wire_response p hash aead bytes client server gid i w pdu full h pdu' sdu' can_id
          k

    stk_len : length state'.current_stk ≡ 16
    stk_len =
        Handshake.stk_len p hash aead bytes client server gid i w pdu full h pdu' sdu' can_id k

    clock' : (current_time p waiting.io).0 ≡ ok
    clock' = rw asks at clock

    in_time' :
        time_delta
          (Handshake.built p hash aead bytes client server gid i w pdu full
            h).1.last_handshake_event_instant
          (current_time p waiting.io).1
        ≤ config.timeout_req_to_res_millis
    in_time' = rw waits at (rw asks at in_time)

    hdr : header_unpack config.header_type wire ≡ res_header gid
    hdr =
        unpack-pack_exact config.header_type (res_header gid) _
          (res_header-Fits config.header_type gid config w.fits) (λ _. refl) w.gid_kept

    whole : take (header_len config.header_type + 44) wire ≡ wire
    whole = take_all wire (header_len config.header_type + 44) (
        sym (
          Handshake.length-wire_response p hash aead bytes client server gid i w pdu full h pdu'
            sdu' can_id k))

    after : Client.GroupState
    after =
        establish_session (Handshake.built p hash aead bytes client server gid i w pdu full h).1
          state'.current_stk state'.current_ctr_nonce (current_time p waiting.io).1

    kept :
        (state'.current_stk ≡ (Server.group_state server gid).current_stk)
        × (state'.current_ctr_nonce ≡ (Server.group_state server gid).current_ctr_nonce)
        × (did_any_client_already_request state' ≡ true)
    kept = Handshake.stk_kept p hash aead bytes client server gid i w pdu full h pdu' sdu' can_id k

    shared :
        SharesSession
          (Client.group_state
            (Client.put_state (record waiting { io = (current_time p waiting.io).2 }) i after)
            i)
          (Server.group_state
            (record (Server.put_state server gid state') {
              io =
                  (Handshake.reply p hash aead bytes client server gid i w pdu full h pdu' sdu'
                    can_id k).1;
            })
            gid)
    shared =
        shares waiting server i gid
          (omega (
            arith,
            w.client_room,
            length-set client.group_states i
                (Handshake.built p hash aead bytes client server gid i w pdu full h).1,
          ))
          w.server_room (Handshake.built p hash aead bytes client server gid i w pdu full h).1
          state' (current_time p waiting.io).1
          (ap (λ (c : Client.GroupState). length c.current_stk)
              (Handshake.on_wire p hash aead bytes client server gid i w pdu full h).0
            ∙ (ap length (
                  request_keeps_stk p
                    (non_zero_trng p
                      (Handshake.io p hash aead bytes client server gid i w pdu full h)
                      (replicate 8 0) 8).2
                    (Client.group_state client i))
                ∙ (w.client_stk_full ∙ sym stk_len)))
          (ap is_all_zeros kept.0 ∙ w.has_key) (omega (arith, kept.1, w.fresh)) kept.2
          (current_time p waiting.io).2
          (Handshake.reply p hash aead bytes client server gid i w pdu full h pdu' sdu' can_id k).1
