-- ===== src/Server/SecuredFd/Refusal.antt =====
-- What secured application data does to the Server: hzl_ServerProcessReceivedSecuredFd.
use hazelnet.Base.{
  ℕ, ◌+◌, ◌≤◌, ◌≡◌, ◌≢◌, ◌⊎◌, List, slice, length, ◌||◌, ltb, write, get_or, Bool, true,
  if◌then◌else◌,
}
use hazelnet.Endian.{decode_le24}
use hazelnet.Err.{Err, ok}
use hazelnet.Header.{Header, header_len}
use hazelnet.Message.{CbsPduMsg, RxSduMsg, aead_init_sadfd}
use hazelnet.Payload.{
  sadfd_ctrnonce_idx, sadfd_ctrnonce_len, sadfd_ptlen_idx, sadfd_ctext_idx, sadfd_tag_idx,
  sadfd_tag_len, sadfd_payload_len, sadfd_metadata_in_payload_len, max_can_fd_data_len,
}
use hazelnet.Platform.{Platform, Io, Aead, aead_decrypt_update, aead_decrypt_finish}
use hazelnet.Server.{GroupConfig, GroupState, ServerCtx, group_state, group_config, put_state}
use hazelnet.Server.Group.{check_rx_ctrnonce, update_ctrnonce_and_rx_timestamp}
use hazelnet.Server.Renewal.{renewal_phase_exit_if_needed, renewal_phase_enter_if_needed}
use hazelnet.Server.Request.{validate_sid_and_gid}
use hazelnet.Server.SecuredFd.{accept_secured_fd, process_received_secured_fd}

module _ (p : Platform) (pdu : CbsPduMsg) (sdu : RxSduMsg) (ctx : ServerCtx) (rx : List ℕ) (len : ℕ)
    (hdr : Header) (now : ℕ) where
  abbrev header_type : ℕ
  header_type = ctx.server_config.header_type

  abbrev hdr_len : ℕ
  hdr_len = header_len header_type

  abbrev cfg : GroupConfig
  cfg = group_config ctx hdr.gid

  -- The Group's state once a renewal phase that is over has ended.
  abbrev pub exited : GroupState
  exited = renewal_phase_exit_if_needed cfg (group_state ctx hdr.gid) now

  -- The counter nonce and the length field of the message.
  abbrev pub received : ℕ
  received = decode_le24 (slice (hdr_len + sadfd_ctrnonce_idx) sadfd_ctrnonce_len rx)

  abbrev pub ptlen : ℕ
  ptlen = get_or rx (hdr_len + sadfd_ptlen_idx) 0

  -- The check of the counter nonce: the code, and whether it is of the previous Session.
  abbrev pub checked : Err × Bool
  checked = check_rx_ctrnonce p cfg exited received now

  -- The key of the Session that the check chose.
  abbrev pub chosen_stk : List ℕ
  chosen_stk = if checked.1 then exited.previous_stk else exited.current_stk

  -- The decryption under that key, and the check of the tag.
  abbrev pub decrypted : Aead p × List ℕ
  decrypted =
      aead_decrypt_update p (aead_init_sadfd p chosen_stk hdr received ptlen)
        (slice (hdr_len + sadfd_ctext_idx) ptlen rx)

  abbrev pub finished : Err × List ℕ
  finished =
      aead_decrypt_finish p decrypted.0 (slice (hdr_len + sadfd_tag_idx ptlen) sadfd_tag_len rx)

  -- What the Group's state becomes, with the renewal that may follow.
  abbrev pub advanced : Err × GroupState × Io × CbsPduMsg
  advanced =
      renewal_phase_enter_if_needed p header_type hdr.gid cfg now ctx.io
        (update_ctrnonce_and_rx_timestamp exited received now checked.1) pdu

  abbrev pub result : Err × ServerCtx × CbsPduMsg × RxSduMsg
  result = process_received_secured_fd p pdu sdu ctx rx len hdr now

  -- What is made of the output on acceptance, and on a refused tag.
  abbrev plaintext : List ℕ
  plaintext = write (write sdu.bytes 0 decrypted.1) (length decrypted.1) finished.1

  abbrev taken : Err × ServerCtx × CbsPduMsg × RxSduMsg
  taken = accept_secured_fd p pdu sdu ctx rx len hdr now exited received checked.1

  -- The message is longer than what was received or than a frame.
  abbrev too_long : Bool
  too_long =
      let inferred = hdr_len + sadfd_payload_len ptlen in
      ltb len inferred || ltb max_can_fd_data_len inferred

  -- The message was accepted: every check held, the tag included, and this is what was made of it.
  pub record Accepts : Type 0 where
    pub from_member : validate_sid_and_gid ctx hdr.gid hdr.sid ≡ ok
    pub has_fresh_nonce : checked.0 ≡ ok
    pub within_received : hdr_len + 12 + ptlen ≤ len
    pub within_frame : hdr_len + 12 + ptlen ≤ 64
    pub has_right_tag : finished.0 ≡ ok
    pub same_code : result.0 ≡ advanced.0
    pub next_ctx : result.1 ≡ record (put_state ctx hdr.gid advanced.1) { io = advanced.2 }
    pub next_message : result.2 ≡ advanced.3
    pub for_user : result.3 ≡ record sdu {
      was_secured = true;
      is_for_user = true;
      gid = hdr.gid;
      sid = hdr.sid;
      data_len = ptlen;
      bytes = plaintext;
    }

  -- The message was refused: of the output only the bytes may have changed, and of the context only
  -- that a renewal phase of the Group that was over has ended.
  pub record Refuses : Type 0 where
    pub is_error : result.0 ≢ ok
    pub same_message : result.2 ≡ pdu
    pub same_output : result.3 ≡ record sdu { bytes = result.3.bytes }
    pub same_ctx : (result.1 ≡ ctx) ⊎ (result.1 ≡ put_state ctx hdr.gid exited)

  abbrev too_short : Bool
  too_short = ltb len (hdr_len + sadfd_metadata_in_payload_len)
