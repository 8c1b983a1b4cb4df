-- ===== src/Server/Renewal.antt =====
-- src/server/hzl_ServerRenewalPhase.c: the renewal of a Group's Session, from start to end.
pub mod Phases
use hazelnet.Base.{
  ℕ, ◌+◌, ◌*◌, ◌%◌, ◌^◌, Bool, ◌&&◌, ◌||◌, List, [], ◌∷◌, ltb, leb, write, slice, if◌then◌else◌,
}
use hazelnet.Endian.{encode_le24}
use hazelnet.Err.{Err, ok, is_ok}
use hazelnet.Header.{Header, header_len, header_pack}
use hazelnet.Header.Pty
use hazelnet.Message.{CbsPduMsg}
use hazelnet.Payload.{
  server_sid, stk_len, ren_label, ren_ctrnonce_idx, ren_ctrnonce_len, ren_tag_idx, ren_tag_len,
  ren_payload_len,
}
use hazelnet.Platform.{Platform, Io, Hash, current_time, hash_init, hash_update, hash_digest}
use hazelnet.Timing.{time_delta}
use hazelnet.Utils.{non_zero_trng, zero_out}
use hazelnet.Server.{GroupConfig, GroupState}
use hazelnet.Server.Group.{incr_previous_ctrnonce, renewal_phase_is_active}

-- The products are of `uint32_t`.
unfoldable pub renewal_phase_is_over : GroupConfig → GroupState → ℕ → Bool
renewal_phase_is_over cfg s now =
    leb (2 * cfg.max_ctrnonce_delay_msgs % 2 ^ 32) s.current_ctr_nonce
    || ltb (6 * cfg.delay_between_ren_notifications_millis % 2 ^ 32)
        (time_delta s.session_start_instant now)

unfoldable pub session_is_expired : GroupConfig → GroupState → ℕ → Bool
session_is_expired cfg s now =
    leb cfg.ctr_nonce_upper_limit s.current_ctr_nonce
    || ltb cfg.session_duration_millis (time_delta s.session_start_instant now)

unfoldable pub renewal_phase_exit : GroupState → GroupState
renewal_phase_exit s = record s {
  previous_stk = zero_out stk_len;
  previous_rx_last_message_instant = 0;
  previous_ctr_nonce = 0;
}

unfoldable pub renewal_phase_exit_if_needed : GroupConfig → GroupState → ℕ → GroupState
renewal_phase_exit_if_needed cfg s now =
    if renewal_phase_is_active s && renewal_phase_is_over cfg s now then renewal_phase_exit s else s

-- The first step of `hzl_ServerSessionRenewalPhaseEnter`.
unfoldable pub back_up_session : GroupState → GroupState
back_up_session s = record s {
  previous_stk = s.current_stk;
  previous_rx_last_message_instant = s.current_rx_last_message_instant;
  previous_ctr_nonce = s.current_ctr_nonce;
}

abbrev pub ren_header : ℕ → Header
ren_header gid = record { gid = gid; sid = server_sid; pty = Pty.ren }

module _ (p : Platform) where
  unfoldable pub renewal_phase_enter : Io → GroupState → Err × GroupState × Io
  renewal_phase_enter io s =
      let backed_up = back_up_session s in
      let (time_err, now, io') = current_time p io in
      if is_ok time_err
      then (let started : GroupState = record backed_up {
        session_start_instant = now;
        current_rx_last_message_instant = now;
      } in
          let (rng_err, stk, io'') = non_zero_trng p io' s.current_stk stk_len in
          let keyed : GroupState = record started { current_stk = stk } in
          if is_ok rng_err
          then (ok, record keyed { current_ctr_nonce = 0 }, io'')
          else (rng_err, keyed, io''))
      else (time_err, backed_up, io')

  unfoldable pub ren_hash_init : List ℕ → Header → List ℕ → Hash p
  ren_hash_init stk hdr encoded_ctrnonce =
      let hash = hash_init p in
      let hash = hash_update p hash stk in
      let hash = hash_update p hash ren_label in
      let hash = hash_update p hash (hdr.gid ∷ []) in
      let hash = hash_update p hash (hdr.sid ∷ []) in
      let hash = hash_update p hash (hdr.pty ∷ []) in hash_update p hash encoded_ctrnonce

  -- The message that `hzl_ServerBuildMsgRenewal` writes.
  unfoldable pub renewal_pdu : ℕ → ℕ → GroupState → CbsPduMsg → CbsPduMsg
  renewal_pdu header_type gid s pdu =
      let hdr_len = header_len header_type in
      let with_header = write pdu.bytes 0 (header_pack header_type (ren_header gid)) in
      let with_ctrnonce =
        write with_header (hdr_len + ren_ctrnonce_idx) (encode_le24 s.previous_ctr_nonce) in
      let hash =
        ren_hash_init s.previous_stk (ren_header gid)
          (slice (hdr_len + ren_ctrnonce_idx) ren_ctrnonce_len with_ctrnonce) in
      record {
        data_len = hdr_len + ren_payload_len;
        bytes = write with_ctrnonce (hdr_len + ren_tag_idx) (hash_digest p hash ren_tag_len);
      }

  unfoldable pub build_msg_renewal : ℕ → ℕ → GroupState → CbsPduMsg → Err × GroupState × CbsPduMsg
  build_msg_renewal header_type gid s pdu =
      (ok, incr_previous_ctrnonce s, renewal_pdu header_type gid s pdu)

  unfoldable pub renewal_phase_enter_if_needed :
      ℕ → ℕ → GroupConfig → ℕ → Io → GroupState → CbsPduMsg → Err × GroupState × Io × CbsPduMsg
  renewal_phase_enter_if_needed header_type gid cfg now io s pdu =
      if session_is_expired cfg s now
      then (let (err, s', io') = renewal_phase_enter io s in
          if is_ok err
          then (let (err', s'', pdu') = build_msg_renewal header_type gid s' pdu in
              (err', s'', io', pdu'))
          else (err, s', io', pdu))
      else (ok, s, io, pdu)
