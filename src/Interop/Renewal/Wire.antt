-- ===== src/Interop/Renewal/Wire.antt =====
-- The bytes of hzl_ServerBuildMsgRenewal, src/server/hzl_ServerRenewalPhase.c, and what
-- src/client/hzl_ClientProcessReceivedRenewal.c reads of them.
use hazelnet.Base.{
  ℕ, ◌+◌, ◌≤◌, ◌≡◌, refl, sym, ap, ◌∙◌, false, arith, List, [], ◌∷◌, length, take, slice,
}
use hazelnet.Base.Fields.{
  concat, length-concat, write-first, write-next, take-fields, slice-field, slice-written,
}
use hazelnet.Base.Wire.{take_all}
use hazelnet.Endian.{encode_le24, decode_le24}
use hazelnet.Endian.RoundTrip.{decode_le24-encode_le24}
use hazelnet.Err.{ok, is_ok-ok}
use hazelnet.Header.{header_len, header_pack}
use hazelnet.Header.RoundTrip.{length-header_pack}
use hazelnet.Message.{CbsPduMsg}
use hazelnet.Payload.{ren_ctrnonce_idx, ren_ctrnonce_len, ren_tag_idx, ren_tag_len, max_ctrnonce}
use hazelnet.Platform.{Platform, Io, HashLaws, hash_digest, hash_digest_check}
use hazelnet.Server
use hazelnet.Server.Renewal.{ren_header, ren_hash_init, renewal_pdu}
use hazelnet.Client
use hazelnet.Client.Build.{build_msg_req}
use hazelnet.Client.Group.{
  find_group, check_rx_ctrnonce, update_ctrnonce_and_rx_timestamp, is_session_established_and_valid,
  is_renewal_acceptable,
}
use hazelnet.Client.Renewal.{ren_hash, renew}
use hazelnet.Interop.Request.{small}
use hazelnet.Interop.Response.{length-encode_le24}

module _ (p : Platform) (laws : HashLaws p.ascon) (header_type gid : ℕ)
    (s : Server.GroupState) where
  abbrev hdr_bytes : List ℕ
  hdr_bytes = header_pack header_type (ren_header gid)

  abbrev ctr_bytes : List ℕ
  ctr_bytes = encode_le24 s.previous_ctr_nonce

  abbrev digest : List ℕ
  digest = hash_digest p (ren_hash_init p s.previous_stk (ren_header gid) ctr_bytes) ren_tag_len

  -- Header, counter nonce and tag.
  abbrev pub renewal_wire : List ℕ
  renewal_wire = concat (hdr_bytes ∷ ctr_bytes ∷ digest ∷ [])

  length-digest_tag : length digest ≡ 16
  unfolding hash_digest
  length-digest_tag = laws.length-digest _ ren_tag_len

  module _ (known : header_type ≤ 6) where
    hl : header_len header_type ≡ length hdr_bytes
    hl = sym (length-header_pack header_type (ren_header gid) known)

    pub renewal_pdu-wire :
        (pdu : CbsPduMsg)
        → length pdu.bytes ≡ 64
        → let built = renewal_pdu p header_type gid s pdu in
          (built.data_len ≡ header_len header_type + 19)
          × (take (header_len header_type + 19) built.bytes ≡ renewal_wire)
    unfolding renewal_pdu
    renewal_pdu-wire pdu full =
        rw
          (
            write-first pdu.bytes hdr_bytes,
            write-next pdu.bytes (hdr_bytes ∷ []) ctr_bytes
                (header_len header_type + ren_ctrnonce_idx) (omega (arith, hl)),
            slice-written pdu.bytes (hdr_bytes ∷ []) ctr_bytes []
                (header_len header_type + ren_ctrnonce_idx) ren_ctrnonce_len (omega (arith, hl))
                (omega (arith, length-encode_le24 s.previous_ctr_nonce))
                (omega (arith, hl, length-encode_le24 s.previous_ctr_nonce, small header_type)),
            write-next pdu.bytes (hdr_bytes ∷ ctr_bytes ∷ []) digest
                (header_len header_type + ren_tag_idx)
                (omega (arith, hl, length-encode_le24 s.previous_ctr_nonce)),
          )
          (
            refl,
            take-fields pdu.bytes (hdr_bytes ∷ ctr_bytes ∷ digest ∷ [])
                (header_len header_type + 19)
                (omega (arith, hl, length-encode_le24 s.previous_ctr_nonce, length-digest_tag))
                (omega (arith, small header_type)),
          )

    pub renewal_wire-whole : take (header_len header_type + 19) renewal_wire ≡ renewal_wire
    renewal_wire-whole = take_all renewal_wire (header_len header_type + 19) (
        omega (
          arith,
          hl,
          length-encode_le24 s.previous_ctr_nonce,
          length-digest_tag,
          length-concat (hdr_bytes ∷ ctr_bytes ∷ digest ∷ []),
        ))

    renewal_wire-ctrnonce :
        slice (header_len header_type + ren_ctrnonce_idx) ren_ctrnonce_len renewal_wire ≡ ctr_bytes
    renewal_wire-ctrnonce =
        slice-field (hdr_bytes ∷ []) ctr_bytes (digest ∷ [])
          (header_len header_type + ren_ctrnonce_idx) ren_ctrnonce_len (omega (arith, hl))
          (omega (arith, length-encode_le24 s.previous_ctr_nonce))

    renewal_wire-tag :
        slice (header_len header_type + ren_tag_idx) ren_tag_len renewal_wire ≡ digest
    renewal_wire-tag =
        slice-field (hdr_bytes ∷ ctr_bytes ∷ []) digest [] (header_len header_type + ren_tag_idx)
          ren_tag_len (omega (arith, hl, length-encode_le24 s.previous_ctr_nonce))
          (omega (arith, length-digest_tag))

    checked : hash_digest_check p (ren_hash p s.previous_stk (ren_header gid) ctr_bytes) digest ≡ ok
    unfolding hash_digest_check hash_digest ren_hash ren_hash_init
    checked =
        rw ((laws.matches_iff _ digest).1 (ap (p.ascon.hash_xof_final _) length-digest_tag)) refl

    -- The Client finds the notification right and goes on to its Request.
    pub renew-renewal_wire :
        (config : Client.ClientConfig) (cfg : Client.GroupConfig) (io : Io) (c : Client.GroupState)
        (pdu : CbsPduMsg) (now : ℕ)
        → config.header_type ≡ header_type
        → c.current_stk ≡ s.previous_stk
        → s.previous_ctr_nonce ≤ max_ctrnonce
        → (check_rx_ctrnonce p false cfg c s.previous_ctr_nonce now).0 ≡ ok
        → renew p config cfg io c pdu renewal_wire
            (header_len header_type + 19)
            (ren_header gid)
            now
          ≡ build_msg_req p config cfg.gid io
              (Client.Group.renewal_phase_enter
                (update_ctrnonce_and_rx_timestamp c s.previous_ctr_nonce now false))
              pdu
    unfolding renew
    renew-renewal_wire config cfg io c pdu now same_type same_stk fits accepted =
        let number : decode_le24 ctr_bytes ≡ s.previous_ctr_nonce =
          decode_le24-encode_le24 s.previous_ctr_nonce ∙ omega (arith, fits) in
        rw (same_type, same_stk, renewal_wire-ctrnonce, renewal_wire-tag, number)
          (ground (arith, accepted, checked, is_ok-ok))
