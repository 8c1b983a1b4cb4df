-- ===== src/Interop/Renewal.antt =====
-- The notification of a renewal: hzl_ServerBuildMsgRenewal of src/server/hzl_ServerRenewalPhase.c
-- against src/client/hzl_ClientProcessReceivedRenewal.c.
pub mod Wire
use hazelnet.Base.{
  ℕ, ◌+◌, ◌≤◌, ◌≡◌, ◌≢◌, refl, sym, ap, ◌∙◌, true, false, arith, List, [], ◌∷◌, length, take, slice,
  some,
}
use hazelnet.Base.Fields.{
  concat, length-concat, write-first, write-next, take-fields, slice-field, slice-written,
}
use hazelnet.Base.Wire.{take_all}
use hazelnet.Endian.{encode_le24, decode_le24}
use hazelnet.Endian.RoundTrip.{decode_le24-encode_le24}
use hazelnet.Err.{Err, ok, is_ok-ok, is_ok_iff}
use hazelnet.Header.{header_len, header_pack, header_type_max_gid, header_unpack}
use hazelnet.Header.RoundTrip.{length-header_pack, unpack-pack_exact}
use hazelnet.Message.{CbsPduMsg, RxSduMsg, zero_pdu, zero_sdu}
use hazelnet.Payload.{ren_ctrnonce_idx, ren_ctrnonce_len, ren_tag_idx, ren_tag_len, max_ctrnonce}
use hazelnet.Platform.{Platform, Io, HashLaws, current_time, hash_digest, hash_digest_check}
use hazelnet.Server
use hazelnet.Server.Build.{server_force_session_renewal}
use hazelnet.Server.Group.{renewal_phase_is_active}
use hazelnet.Server.Renewal.{
  ren_header, ren_hash_init, renewal_pdu, build_msg_renewal, back_up_session, renewal_phase_enter,
}
use hazelnet.Client
use hazelnet.Client.Build.{build_msg_req}
use hazelnet.Client.Group.{
  find_group, check_rx_ctrnonce, update_ctrnonce_and_rx_timestamp, is_session_established_and_valid,
  is_renewal_acceptable,
}
use hazelnet.Client.Renewal.{ren_hash, renew, process_received_renewal}
use hazelnet.Client.Groups.{find_group-io}
use hazelnet.Client.Receive.{client_process_received}
use hazelnet.Interop.Arrival.{client-reads, client-dispatches_renewal}
use hazelnet.Interop.Request.{small}
use hazelnet.Interop.Response.{length-encode_le24}
use hazelnet.Interop.Renewal.Wire.{
  renewal_wire, renewal_pdu-wire, renewal_wire-whole, renew-renewal_wire,
}

-- Sent by a Server that is not yet in a renewal phase.
force_renewal-sent :
    (p : Platform) (server : Server.ServerCtx) (gid : ℕ) (pdu : CbsPduMsg)
    → (server_force_session_renewal p false pdu server gid).0 ≡ ok
    → renewal_phase_is_active (Server.group_state server gid) ≡ false
    → let entered = (renewal_phase_enter p server.io (Server.group_state server gid)).1 in
      ((server_force_session_renewal p false pdu server gid).2
        ≡ renewal_pdu p server.server_config.header_type gid entered (record pdu { data_len = 0 }))
      × (entered.previous_stk ≡ (Server.group_state server gid).current_stk)
      × (entered.previous_ctr_nonce ≡ (Server.group_state server gid).current_ctr_nonce)
unfolding server_force_session_renewal build_msg_renewal renewal_phase_enter back_up_session
force_renewal-sent p server gid pdu h inactive =
    ground (arith, h, inactive, is_ok-ok, is_ok_iff (Server.check_ctx_pointers server.nulls))

-- A notification that reaches an established Group is handed to `renew`.
client-renews :
    (p : Platform) (client : Client.ClientCtx) (bytes : List ℕ) (len gid i now : ℕ)
    (pdu : CbsPduMsg)
    → find_group client gid ≡ some i
    → is_session_established_and_valid (Client.group_state client i) ≡ true
    → is_renewal_acceptable (Client.group_state client i) ≡ true
    → let result =
        renew p client.client_config
          (Client.group_config client i)
          client.io
          (Client.group_state client i)
          (record pdu { data_len = 0 })
          bytes
          len
          (ren_header gid)
          now in
      process_received_renewal p pdu client bytes len (ren_header gid) now
      ≡ (result.0, record (Client.put_state client i result.1) { io = result.2 }, result.3)
unfolding process_received_renewal
client-renews p client bytes len gid i now pdu found valid acceptable =
    rw found (ground (arith, valid, acceptable))

-- A Server that is not in a renewal phase of a Group sends a notification when it is forced to. A
-- Client of the same header type, one of the seven (the GID within its range, and 0 under type 2),
-- with a SID that is not the Server's and a working clock, that has the Server's Session of that
-- Group until then, with no Request outstanding and no renewal phase, and that tolerates the
-- Server's counter nonce, accepts the bytes in `hzl_ClientProcessReceived`: it enters its own
-- renewal phase and what it returns, the message included, is what its Request for the new
-- Session gives, with nothing for its user. LibAscon is relied on to check the digests that it made.
pub forced_renewal-answered :
    (p : Platform) (laws : HashLaws p.ascon) (server : Server.ServerCtx) (client : Client.ClientCtx)
    (gid i can_id : ℕ) (pdu pdu' : CbsPduMsg) (sdu : RxSduMsg)
    → length pdu.bytes ≡ 64
    → server.server_config.header_type ≤ 6
    → gid ≤ header_type_max_gid server.server_config.header_type
    → (server.server_config.header_type ≡ 2 → gid ≡ 0)
    → Client.check_ctx_pointers client.nulls ≡ ok
    → (current_time p client.io).0 ≡ ok
    → client.client_config.sid ≢ 0
    → client.client_config.header_type ≡ server.server_config.header_type
    → find_group client gid ≡ some i
    → (Client.group_state client i).current_stk ≡ (Server.group_state server gid).current_stk
    → (Server.group_state server gid).current_ctr_nonce ≤ max_ctrnonce
    → renewal_phase_is_active (Server.group_state server gid) ≡ false
    → is_session_established_and_valid (Client.group_state client i) ≡ true
    → is_renewal_acceptable (Client.group_state client i) ≡ true
    → (check_rx_ctrnonce p false
        (Client.group_config client i)
        (Client.group_state client i)
        (Server.group_state server gid).current_ctr_nonce
        (current_time p client.io).1).0
      ≡ ok
    → (server_force_session_renewal p false pdu server gid).0 ≡ ok
    → let sent = (server_force_session_renewal p false pdu server gid).2 in
      let request =
        build_msg_req p client.client_config
          (Client.group_config client i).gid
          (current_time p client.io).2
          (Client.Group.renewal_phase_enter (
            update_ctrnonce_and_rx_timestamp
              (Client.group_state client i)
              (Server.group_state server gid).current_ctr_nonce
              (current_time p client.io).1
              false))
          zero_pdu in
      client_process_received p false false pdu' sdu client (some sent.bytes) sent.data_len can_id
      ≡ (
        request.0,
        record (Client.put_state client i request.1) { io = request.2 },
        request.3,
        record zero_sdu { can_id = can_id },
      )
forced_renewal-answered p laws server client gid i can_id pdu pdu' sdu full known in_range kept
      pointers clock own_sid same_type found same_stk fits inactive valid acceptable accepted h =
    client-reads p pdu' sdu client sent.bytes on_wire sent.data_len (hl + 19) can_id
      (ap (λ (m : CbsPduMsg). m.data_len) (force_renewal-sent p server gid pdu h inactive).0
        ∙ wire.0)
      (ap (λ (m : CbsPduMsg). take (hl + 19) m.bytes)
          (force_renewal-sent p server gid pdu h inactive).0
        ∙ wire.1)
    ∙ (client-dispatches_renewal p pdu' sdu client on_wire gid (hl + 19) can_id pointers clock
          own_sid
          (ap (λ (t : ℕ). header_unpack t on_wire) same_type
            ∙ unpack-pack_exact server.server_config.header_type (ren_header gid) _
                (omega (arith, known, in_range)) (λ _. refl) kept)
          (renewal_wire-whole p laws server.server_config.header_type gid entered known)
          (rw same_type (omega arith))
        ∙ ap result (
            client-renews p (record client { io = (current_time p client.io).2 }) on_wire (hl + 19)
              gid i (current_time p client.io).1 zero_pdu
              (find_group-io client (current_time p client.io).2 gid ∙ found) valid acceptable
            ∙ ap after (
                renew-renewal_wire p laws server.server_config.header_type gid entered known
                  client.client_config (Client.group_config client i) (current_time p client.io).2
                  (Client.group_state client i) zero_pdu (current_time p client.io).1 same_type
                  (same_stk ∙ sym key_kept) (omega (arith, fits, ctr_kept)) (rw ctr_kept accepted)
                ∙ ap request ctr_kept)))
  where
    sent : CbsPduMsg
    sent = (server_force_session_renewal p false pdu server gid).2

    hl : ℕ
    hl = header_len server.server_config.header_type

    entered : Server.GroupState
    entered = (renewal_phase_enter p server.io (Server.group_state server gid)).1

    on_wire : List ℕ
    on_wire = renewal_wire p laws server.server_config.header_type gid entered

    wire :
        let built =
          renewal_pdu p server.server_config.header_type gid entered
            (record pdu { data_len = 0 }) in
        (built.data_len ≡ hl + 19) × (take (hl + 19) built.bytes ≡ on_wire)
    wire =
        renewal_pdu-wire p laws server.server_config.header_type gid entered known
          (record pdu { data_len = 0 }) full

    result : Err × Client.ClientCtx × CbsPduMsg → Err × Client.ClientCtx × CbsPduMsg × RxSduMsg
    result r = (r.0, r.1, r.2, record zero_sdu { can_id = can_id })

    after : Err × Client.GroupState × Io × CbsPduMsg → Err × Client.ClientCtx × CbsPduMsg
    after r = (r.0, record (Client.put_state client i r.1) { io = r.2 }, r.3)

    request : ℕ → Err × Client.GroupState × Io × CbsPduMsg
    request ctr =
        build_msg_req p client.client_config (Client.group_config client i).gid
          (current_time p client.io).2
          (Client.Group.renewal_phase_enter (
            update_ctrnonce_and_rx_timestamp (Client.group_state client i) ctr
              (current_time p client.io).1 false))
          zero_pdu

    key_kept : entered.previous_stk ≡ (Server.group_state server gid).current_stk
    key_kept = (force_renewal-sent p server gid pdu h inactive).1

    ctr_kept : entered.previous_ctr_nonce ≡ (Server.group_state server gid).current_ctr_nonce
    ctr_kept = (force_renewal-sent p server gid pdu h inactive).2
