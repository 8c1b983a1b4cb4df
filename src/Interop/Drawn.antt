-- ===== src/Interop/Drawn.antt =====
-- The Response of hzl_ServerProcessReceivedRequest.c under src/server with the nonce that it drew.
use hazelnet.Base.{
  ℕ, ◌+◌, ◌≤◌, ◌≡◌, sym, arith, List, [], ◌∷◌, length, take, write, slice, length-take, length-drop,
  drop,
}
use hazelnet.Base.Buffers.{length-write}
use hazelnet.Base.Fields.{concat, write-first, write-next}
use hazelnet.Endian.{encode_le24}
use hazelnet.Err.{Err, ok, is_ok-ok, is_ok_iff}
use hazelnet.Header.{header_len, header_pack}
use hazelnet.Header.RoundTrip.{length-header_pack}
use hazelnet.Message.{CbsPduMsg}
use hazelnet.Payload.{res_client_idx, res_ctrnonce_idx, res_resnonce_idx, res_resnonce_len}
use hazelnet.Platform.{Platform, Io, AeadLaws}
use hazelnet.Utils.{non_zero_trng}
use hazelnet.Utils.Trng.{length-non_zero_trng}
use hazelnet.Server
use hazelnet.Server.Request.{res_header, build_msg_response}
use hazelnet.Interop.Request.{small}
use hazelnet.Interop.Response.{response_wire, response_pdu-wire, length-encode_le24}

-- The Response that the Server builds on success, with the nonce that it drew.
module _ (p : Platform) (laws : AeadLaws p.ascon) (header_type gid : ℕ) (s : Server.GroupState)
    (ltk req_nonce : List ℕ) (sid : ℕ) (io : Io) (pdu : CbsPduMsg) (known : header_type ≤ 6)
    (stk_full : length s.current_stk ≡ 16) (full : length pdu.bytes ≡ 64) where
  abbrev unfilled : List ℕ
  unfilled = write pdu.bytes 0 (
      concat (
        header_pack header_type (res_header gid)
        ∷ (sid ∷ [])
        ∷ encode_le24 s.current_ctr_nonce
        ∷ []))

  abbrev pub draw : Err × List ℕ × Io
  draw =
      non_zero_trng p io
        (slice (header_len header_type + res_resnonce_idx) res_resnonce_len unfilled)
        res_resnonce_len

  abbrev pub response : List ℕ
  response = response_wire p laws header_type gid s ltk req_nonce sid draw.1

  hdr_len : header_len header_type ≡ length (header_pack header_type (res_header gid))
  hdr_len = sym (length-header_pack header_type (res_header gid) known)

  pub length-draw : length draw.1 ≡ 8
  length-draw = omega (
    arith,
    small header_type,
    length-non_zero_trng p io
        (slice (header_len header_type + res_resnonce_idx) res_resnonce_len unfilled)
        res_resnonce_len,
    length-take res_resnonce_len (drop (header_len header_type + res_resnonce_idx) unfilled),
    length-drop (header_len header_type + res_resnonce_idx) unfilled,
    length-write pdu.bytes 0 (
        concat (
          header_pack header_type (res_header gid)
          ∷ (sid ∷ [])
          ∷ encode_le24 s.current_ctr_nonce
          ∷ [])),
  )

  -- The buffer up to the counter nonce.
  begun :
      write
        (write
          (write pdu.bytes 0 (header_pack header_type (res_header gid)))
          (header_len header_type + res_client_idx)
          (sid ∷ []))
        (header_len header_type + res_ctrnonce_idx)
        (encode_le24 s.current_ctr_nonce)
      ≡ unfilled
  begun =
      rw
        (
          write-first pdu.bytes (header_pack header_type (res_header gid)),
          write-next pdu.bytes (header_pack header_type (res_header gid) ∷ []) (sid ∷ [])
              (header_len header_type + res_client_idx) (omega (arith, hdr_len)),
        )
        (write-next pdu.bytes (header_pack header_type (res_header gid) ∷ (sid ∷ []) ∷ [])
          (encode_le24 s.current_ctr_nonce) (header_len header_type + res_ctrnonce_idx)
          (omega (arith, hdr_len)))

  filled :
      write unfilled (header_len header_type + res_resnonce_idx) draw.1
      ≡ write pdu.bytes 0 (
          concat (
            header_pack header_type (res_header gid)
            ∷ (sid ∷ [])
            ∷ encode_le24 s.current_ctr_nonce
            ∷ draw.1
            ∷ []))
  filled =
      write-next pdu.bytes
        (header_pack header_type (res_header gid)
          ∷ (sid ∷ [])
          ∷ encode_le24 s.current_ctr_nonce
          ∷ [])
        draw.1 (header_len header_type + res_resnonce_idx)
        (omega (arith, hdr_len, length-encode_le24 s.current_ctr_nonce))

  pub build_msg_response-wire :
      (build_msg_response p header_type gid s ltk req_nonce sid io pdu).0 ≡ ok
      → let built = (build_msg_response p header_type gid s ltk req_nonce sid io pdu).2 in
        (built.data_len ≡ header_len header_type + 44)
        × (take (header_len header_type + 44) built.bytes ≡ response)
  unfolding build_msg_response
  build_msg_response-wire =
      rw (begun, filled)
        (λ h. ground (
          arith,
          is_ok-ok,
          is_ok_iff draw.0,
          response_pdu-wire p laws header_type gid s ltk req_nonce sid draw.1 known length-draw
              stk_full pdu.bytes full,
        ))
