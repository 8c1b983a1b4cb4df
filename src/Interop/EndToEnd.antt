-- ===== src/Interop/EndToEnd.antt =====
-- From the call of hzl_ServerBuildSecuredFd to the message that hzl_ClientProcessReceived unpacks.
use hazelnet.Base.{
  ℕ, zero, suc, ◌+◌, ◌^◌, ◌≤◌, ◌<◌, ◌≡◌, refl, ap, ◌∙◌, false, arith, List, [], ◌∷◌, length, take,
  some,
}
use hazelnet.Base.Wire.{take_all}
use hazelnet.Err.{ok, is_ok}
use hazelnet.Header.{Header, header_len, header_type_max_gid, header_type_max_sid, header_unpack}
use hazelnet.Header.RoundTrip.{Fits}
use hazelnet.Message.{
  CbsPduMsg, RxSduMsg, zero_pdu, zero_sdu, check_received_generic_msg, check_msg_before_packing,
  max_data_len, process_received_unsecured,
}
use hazelnet.Platform.{Platform, AeadLaws, current_time}
use hazelnet.Server
use hazelnet.Server.Build.{sadfd_pdu, sadfd_header, build_msg_sadfd, server_build_secured_fd}
use hazelnet.Client
use hazelnet.Client.Group.{update_ctrnonce_and_rx_timestamp}
use hazelnet.Client.Receive.{client_process_received, dispatch}
use hazelnet.Interop.SecuredFd.{wire, sadfd_pdu-wire}
use hazelnet.Interop.Delivery.{delivered, heard, Listens, receive-message}

take-take : (xs : List ℕ) (n : ℕ) → take n (take n xs) ≡ take n xs
take-take xs zero = refl
take-take [] (suc n) = refl
take-take (x ∷ xs) (suc n) = ap (λ (l : List ℕ). x ∷ l) (take-take xs n)

module _ (p : Platform) where
  dispatch-cut :
      (pdu : CbsPduMsg) (sdu : RxSduMsg) (ctx : Client.ClientCtx) (xs : List ℕ) (len : ℕ)
      (hdr : Header) (now : ℕ)
      → dispatch p pdu sdu ctx (some xs) len hdr now
        ≡ dispatch p pdu sdu ctx (some (take len xs)) len hdr now
  unfolding dispatch process_received_unsecured
  dispatch-cut pdu sdu ctx xs len hdr now = rw (take-take xs len) refl

  -- The receiver looks at no more bytes than the length says.
  pub receive-cut :
      (pdu : CbsPduMsg) (sdu : RxSduMsg) (ctx : Client.ClientCtx) (xs : List ℕ) (len can_id : ℕ)
      → client_process_received p false false pdu sdu ctx (some xs) len can_id
        ≡ client_process_received p false false pdu sdu ctx (some (take len xs)) len can_id
  unfolding client_process_received check_received_generic_msg
  receive-cut pdu sdu ctx xs len can_id = rw (take-take xs len) (
      ground (
        arith,
        dispatch-cut zero_pdu (record zero_sdu { can_id = can_id })
            (record ctx { io = (current_time p ctx.io).2 }) xs len
            (header_unpack ctx.client_config.header_type (take len xs)) (current_time p ctx.io).1,
      ))

  -- What a successful call has checked.
  built_ok :
      (pdu : CbsPduMsg) (server : Server.ServerCtx) (plaintext : List ℕ) (gid : ℕ)
      → server.server_config.header_type ≤ 6
      → (server_build_secured_fd p false pdu server (some plaintext) (length plaintext) gid).0 ≡ ok
      → Fits server.server_config.header_type (sadfd_header gid)
        × (header_len server.server_config.header_type + 12 + length plaintext ≤ 64)
        × ((server_build_secured_fd p false pdu server (some plaintext) (length plaintext) gid).2
            ≡ sadfd_pdu p server.server_config.header_type gid
                (Server.group_state server gid)
                (take (length plaintext) plaintext)
                (length plaintext)
                (record pdu { data_len = 0 }))
  unfolding server_build_secured_fd check_msg_before_packing max_data_len build_msg_sadfd header_len
      header_type_max_gid header_type_max_sid is_ok
  built_ok pdu server plaintext gid known h = ground arith

  sadfd_pdu-data_len :
      (header_type gid : ℕ) (s : Server.GroupState) (plaintext : List ℕ) (pdu : CbsPduMsg)
      → (sadfd_pdu p header_type gid s plaintext (length plaintext) pdu).data_len
        ≡ header_len header_type + 12 + length plaintext
  unfolding sadfd_pdu
  sadfd_pdu-data_len header_type gid s plaintext pdu = omega arith

  -- For the seven header types, any GID and any user data: if `hzl_ServerBuildSecuredFd` returns
  -- HZL_OK into a message of 64 bytes (with GID 0 under header type 2, and a 24-bit counter nonce), and
  -- a Client with the same header type, a SID that is not the Server's, a working clock and a valid
  -- Session with the Server's current key in that Group accepts that counter nonce for its current
  -- Session, then `hzl_ClientProcessReceived` on the message returns HZL_OK, gives its user exactly the
  -- user data with the Group's GID and the Server's SID, and changes only that Group's state (its
  -- renewal phase ended where it was over, the received counter nonce and instant taken over) and
  -- the calls of the clock. LibAscon is relied on to decrypt what it encrypted.
  pub secured_fd-delivered :
      (laws : AeadLaws p.ascon) (server : Server.ServerCtx) (client : Client.ClientCtx)
      (plaintext : List ℕ) (gid i can_id : ℕ) (pdu pdu' : CbsPduMsg) (sdu : RxSduMsg)
      → server.server_config.header_type ≤ 6
      → (server.server_config.header_type ≡ 2 → gid ≡ 0)
      → (Server.group_state server gid).current_ctr_nonce < 2 ^ 24
      → length pdu.bytes ≡ 64
      → Listens p server.server_config.header_type gid (Server.group_state server gid) client i
      → (server_build_secured_fd p false pdu server (some plaintext) (length plaintext) gid).0 ≡ ok
      → let built =
          (server_build_secured_fd p false pdu server (some plaintext) (length plaintext) gid).2 in
        client_process_received p false false pdu' sdu client
          (some built.bytes)
          built.data_len
          can_id
        ≡ (
          ok,
          record (Client.put_state client i (
              update_ctrnonce_and_rx_timestamp
                (heard p client i)
                (Server.group_state server gid).current_ctr_nonce
                (current_time p client.io).1
                false)) { io = (current_time p client.io).2 },
          zero_pdu,
          delivered (record zero_sdu { can_id = can_id }) gid plaintext,
        )
  secured_fd-delivered laws server client plaintext gid i can_id pdu pdu' sdu known gid_kept
        ctr_fits full l h =
      rw (checked.2, take_all plaintext (length plaintext) refl)
        (receive-cut pdu' sdu client built.bytes built.data_len can_id
          ∙ (ap
                (λ (bytes : List ℕ).
                  client_process_received p false false pdu' sdu client (some bytes) built.data_len
                    can_id)
                on_wire
              ∙ rw sent_len (
                  receive-message p laws _ gid s plaintext checked.0 gid_kept checked.1 ctr_fits
                    client i pdu' sdu can_id l)))
    where
      s : Server.GroupState
      s = Server.group_state server gid

      built : CbsPduMsg
      built =
          sadfd_pdu p server.server_config.header_type gid s plaintext (length plaintext)
            (record pdu { data_len = 0 })

      checked :
          Fits server.server_config.header_type (sadfd_header gid)
          × (header_len server.server_config.header_type + 12 + length plaintext ≤ 64)
          × ((server_build_secured_fd p false pdu server (some plaintext) (length plaintext) gid).2
              ≡ sadfd_pdu p server.server_config.header_type gid s
                  (take (length plaintext) plaintext)
                  (length plaintext)
                  (record pdu { data_len = 0 }))
      checked = built_ok pdu server plaintext gid known h

      on_wire :
          take built.data_len built.bytes
          ≡ wire p laws server.server_config.header_type gid s plaintext
      on_wire =
          sadfd_pdu-wire p laws server.server_config.header_type gid s plaintext
            (record pdu { data_len = 0 }) known full checked.1

      sent_len :
          built.data_len ≡ header_len server.server_config.header_type + 12 + length plaintext
      sent_len =
          sadfd_pdu-data_len server.server_config.header_type gid s plaintext
            (record pdu { data_len = 0 })
