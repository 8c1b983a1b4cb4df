-- ===== src/Interop/Delivery.antt =====
-- A secured message of the Server reaches the Client's user: hzl_ServerBuildSecuredFd against
-- hzl_ClientProcessReceived.
use hazelnet.Base.{
  ℕ, ◌+◌, ◌^◌, ◌≤◌, ◌<◌, ◌≡◌, ◌≢◌, refl, ◌∙◌, true, false, arith, List, length, take, write, some,
}
use hazelnet.Endian.{encode_le24, decode_le24}
use hazelnet.Endian.RoundTrip.{decode_le24-encode_le24}
use hazelnet.Err.{ok, is_ok-ok}
use hazelnet.Header.{header_len, header_unpack}
use hazelnet.Header.RoundTrip.{Fits, unpack-pack_exact}
use hazelnet.Message.{CbsPduMsg, RxSduMsg, zero_sdu, zero_pdu, bytes_of, check_received_generic_msg}
use hazelnet.Platform.{Platform, AeadLaws, current_time}
use hazelnet.Server
use hazelnet.Server.Build.{sadfd_header}
use hazelnet.Client
use hazelnet.Client.Group.{
  check_rx_ctrnonce, update_ctrnonce_and_rx_timestamp, find_group, is_session_established_and_valid,
  renewal_phase_exit_if_needed,
}
use hazelnet.Client.Groups.{find_group-io}
use hazelnet.Client.SecuredFd.{
  open_secured_fd, choose_previous_or_current_stk, process_received_secured_fd,
}
use hazelnet.Client.Receive.{client_process_received, dispatch}
use hazelnet.Interop.SecuredFd.{wire, wire-ctrnonce, wire-ptlen, take-wire, decrypt_sadfd-wire}

-- The message that the Client's user gets.
abbrev pub delivered : RxSduMsg → ℕ → List ℕ → RxSduMsg
delivered sdu gid plaintext = record sdu {
  was_secured = true;
  is_for_user = true;
  gid = gid;
  sid = 0;
  data_len = length plaintext;
  bytes = write sdu.bytes 0 plaintext;
}

module _ (p : Platform) where
  -- The state of the Client's Group when the message is looked at.
  abbrev pub heard : Client.ClientCtx → ℕ → Client.GroupState
  heard ctx i =
      renewal_phase_exit_if_needed (Client.group_config ctx i) (Client.group_state ctx i)
        (current_time p ctx.io).1

  -- A Client that shares the Session of the state `s`, in the Group at the index `i`.
  pub record Listens (header_type gid : ℕ) (s : Server.GroupState) (ctx : Client.ClientCtx) (i : ℕ)
      : Type 0 where
    pub has_pointers : Client.check_ctx_pointers ctx.nulls ≡ ok
    pub has_clock : (current_time p ctx.io).0 ≡ ok
    pub same_type : ctx.client_config.header_type ≡ header_type
    pub own_sid : ctx.client_config.sid ≢ 0
    pub in_group : find_group ctx gid ≡ some i
    pub is_established : is_session_established_and_valid (heard ctx i) ≡ true
    pub same_stk : (heard ctx i).current_stk ≡ s.current_stk
    pub accepted :
        check_rx_ctrnonce p true
          (Client.group_config ctx i)
          (heard ctx i)
          s.current_ctr_nonce
          (current_time p ctx.io).1
        ≡ (ok, false)

module _ (p : Platform) (laws : AeadLaws p.ascon) where
  module _ (header_type gid : ℕ) (s : Server.GroupState) (plaintext : List ℕ)
      (fits : Fits header_type (sadfd_header gid)) (gid_kept : header_type ≡ 2 → gid ≡ 0)
      (short : header_len header_type + 12 + length plaintext ≤ 64)
      (ctr_fits : s.current_ctr_nonce < 2 ^ 24) where
    abbrev message : List ℕ
    message = wire p laws header_type gid s plaintext

    header-message : header_unpack header_type message ≡ sadfd_header gid
    header-message = unpack-pack_exact header_type (sadfd_header gid) _ fits (λ _. refl) gid_kept

    open_secured_fd-message :
        (cfg : Client.GroupConfig) (c : Client.GroupState) (sdu : RxSduMsg) (now : ℕ)
        → c.current_stk ≡ s.current_stk
        → check_rx_ctrnonce p true cfg c s.current_ctr_nonce now ≡ (ok, false)
        → open_secured_fd p
            (header_len header_type)
            cfg
            c
            sdu
            message
            (header_len header_type + 12 + length plaintext)
            (sadfd_header gid)
            now
          ≡ (
            ok,
            update_ctrnonce_and_rx_timestamp c s.current_ctr_nonce now false,
            delivered sdu gid plaintext,
          )
    unfolding open_secured_fd choose_previous_or_current_stk
    open_secured_fd-message cfg c sdu now same_stk accepted =
        rw
          (
            wire-ctrnonce p laws header_type gid s plaintext fits.known (omega arith),
            ctr,
            accepted,
            wire-ptlen p laws header_type gid s plaintext fits.known (omega arith),
            same_stk,
            decrypt_sadfd-wire p laws header_type gid s plaintext fits.known (omega arith)
                sdu.bytes,
          )
          (ground (arith, is_ok-ok))
      where
        ctr : decode_le24 (encode_le24 s.current_ctr_nonce) ≡ s.current_ctr_nonce
        ctr = omega (arith, decode_le24-encode_le24 s.current_ctr_nonce)

    whole : take (header_len header_type + 12 + length plaintext) message ≡ message
    whole = take-wire p laws header_type gid s plaintext fits.known (omega arith)

    check-message :
        (sid : ℕ)
        → sid ≢ 0
        → check_received_generic_msg
            (some message)
            (header_len header_type + 12 + length plaintext)
            sid
            header_type
          ≡ (ok, some (sadfd_header gid))
    unfolding check_received_generic_msg
    check-message sid other = rw (whole, header-message) (ground arith)

    secured_fd-message :
        (ctx : Client.ClientCtx) (i : ℕ) (sdu : RxSduMsg)
        → Listens p header_type gid s ctx i
        → process_received_secured_fd p sdu
            (record ctx { io = (current_time p ctx.io).2 })
            (bytes_of (some message) (header_len header_type + 12 + length plaintext))
            (header_len header_type + 12 + length plaintext)
            (sadfd_header gid)
            (current_time p ctx.io).1
          ≡ (
            ok,
            record (Client.put_state ctx i (
                update_ctrnonce_and_rx_timestamp
                  (heard p ctx i)
                  s.current_ctr_nonce
                  (current_time p ctx.io).1
                  false)) { io = (current_time p ctx.io).2 },
            delivered sdu gid plaintext,
          )
    unfolding process_received_secured_fd
    secured_fd-message ctx i sdu l = rw whole (
        ground (
          arith,
          is_ok-ok,
          l.same_type,
          l.is_established,
          found,
          open_secured_fd-message (Client.group_config ctx i) (heard p ctx i) sdu
              (current_time p ctx.io).1 l.same_stk l.accepted,
        ))
      where
        found : find_group (record ctx { io = (current_time p ctx.io).2 }) gid ≡ some i
        found = find_group-io ctx (current_time p ctx.io).2 gid ∙ l.in_group

    pub receive-message :
        (ctx : Client.ClientCtx) (i : ℕ) (pdu : CbsPduMsg) (sdu : RxSduMsg) (can_id : ℕ)
        → Listens p header_type gid s ctx i
        → client_process_received p false false pdu sdu ctx
            (some message)
            (header_len header_type + 12 + length plaintext)
            can_id
          ≡ (
            ok,
            record (Client.put_state ctx i (
                update_ctrnonce_and_rx_timestamp
                  (heard p ctx i)
                  s.current_ctr_nonce
                  (current_time p ctx.io).1
                  false)) { io = (current_time p ctx.io).2 },
            zero_pdu,
            delivered (record zero_sdu { can_id = can_id }) gid plaintext,
          )
    unfolding client_process_received dispatch
    receive-message ctx i pdu sdu can_id l = ground (
      arith,
      is_ok-ok,
      l.has_pointers,
      l.has_clock,
      l.same_type,
      checked,
      secured_fd-message ctx i (record zero_sdu { can_id = can_id }) l,
    )
      where
        checked :
            check_received_generic_msg
              (some message)
              (header_len header_type + 12 + length plaintext)
              ctx.client_config.sid
              ctx.client_config.header_type
            ≡ (ok, some (sadfd_header gid))
        checked = rw l.same_type (check-message ctx.client_config.sid l.own_sid)
