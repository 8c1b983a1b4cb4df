-- ===== src/Interop/Request.antt =====
-- The Request of a Client as the Server reads it: hzl_ClientBuildMsgReq against
-- hzl_ServerProcessReceivedRequest.
use hazelnet.Base.{
  ℕ, ◌+◌, ◌≤◌, ◌<◌, ◌≡◌, refl, sym, ap, ◌∙◌, false, arith, List, [], ◌∷◌, length, take, write,
  slice, replicate,
}
use hazelnet.Base.All.{All, All-replicate}
use hazelnet.Base.Fields.{
  concat, write-first, write-next, take-fields, slice-field, slice-written, length-concat,
}
use hazelnet.Endian.{encode_le64, decode_le64}
use hazelnet.Endian.Wide.{encode_le64-decode_le64_of_length}
use hazelnet.Err.{ok, is_ok-ok, is_ok_iff}
use hazelnet.Header.{header_len, header_pack}
use hazelnet.Header.RoundTrip.{length-header_pack}
use hazelnet.Message.{CbsPduMsg, req_hash_init}
use hazelnet.Payload.{req_reqnonce_idx, req_reqnonce_len, req_tag_idx, req_tag_len}
use hazelnet.Platform.{Platform, Io, HashLaws, hash_digest, hash_digest_check}
use hazelnet.Utils.{is_all_zeros, non_zero_trng}
use hazelnet.Utils.Trng.{non_zero_trng_ok, length-non_zero_trng, non_zero_trng-All}
use hazelnet.Client.{ClientConfig, GroupState}
use hazelnet.Client.Build.{req_header, build_msg_req}
use hazelnet.Client.Group.{set_request_tx_time_to_now}

pub length-encode_le64 : (v : ℕ) → length (encode_le64 v) ≡ 8
unfolding encode_le64
length-encode_le64 v = refl

pub small : (type : ℕ) → header_len type ≤ 3
unfolding header_len
small type = ground arith

-- The random bytes of the callback are bytes.
abbrev pub GivesBytes : Platform → Type 0
GivesBytes p = (n amount : ℕ) → All (λ b. b < 256) (p.callbacks.random n amount).1

module _ (p : Platform) (laws : HashLaws p.ascon) (config : ClientConfig) (gid : ℕ) (io : Io) where
  -- The nonce that the Client draws.
  abbrev pub drawn : List ℕ
  drawn = (non_zero_trng p io (replicate 8 0) req_reqnonce_len).1

  abbrev pub nonce : ℕ
  nonce = decode_le64 drawn

  abbrev digest : List ℕ
  digest =
      hash_digest p (req_hash_init p config.ltk (req_header config gid) (encode_le64 nonce))
        req_tag_len

  abbrev hdr_bytes : List ℕ
  hdr_bytes = header_pack config.header_type (req_header config gid)

  -- The header, the nonce and the tag.
  abbrev pub request_wire : List ℕ
  request_wire = concat (hdr_bytes ∷ encode_le64 nonce ∷ digest ∷ [])

  -- The buffer as the code fills it.
  abbrev with_nonce_bytes : List ℕ → List ℕ
  with_nonce_bytes buf =
      write (write buf 0 hdr_bytes) (header_len config.header_type + req_reqnonce_idx)
        (encode_le64 nonce)

  abbrev request_bytes : List ℕ → List ℕ
  request_bytes buf = write (with_nonce_bytes buf) (header_len config.header_type + req_tag_idx) (
      hash_digest p
        (req_hash_init p config.ltk (req_header config gid) (
          slice (header_len config.header_type + req_reqnonce_idx) req_reqnonce_len
            (with_nonce_bytes buf)))
        req_tag_len)

  length-digest_tag : length digest ≡ 16
  unfolding hash_digest
  length-digest_tag = laws.length-digest _ req_tag_len

  module _ (known : config.header_type ≤ 6) where
    hl : header_len config.header_type ≡ length hdr_bytes
    hl = sym (length-header_pack config.header_type (req_header config gid) known)

    pub length-request_wire : length request_wire ≡ header_len config.header_type + 24
    length-request_wire = omega (
      arith,
      hl,
      length-encode_le64 nonce,
      length-digest_tag,
      length-concat (hdr_bytes ∷ encode_le64 nonce ∷ digest ∷ []),
    )

    -- What was written before the tag is read back for the tag.
    nonce-slice :
        (buf : List ℕ)
        → length buf ≡ 64
        → slice
            (header_len config.header_type + req_reqnonce_idx)
            req_reqnonce_len
            (write buf 0 (concat (hdr_bytes ∷ encode_le64 nonce ∷ [])))
          ≡ encode_le64 nonce
    nonce-slice buf full =
        slice-written buf (hdr_bytes ∷ []) (encode_le64 nonce) []
          (header_len config.header_type + req_reqnonce_idx) req_reqnonce_len (omega (arith, hl))
          (omega (arith, length-encode_le64 nonce))
          (omega (arith, hl, length-encode_le64 nonce, small config.header_type))

    with_nonce :
        (buf : List ℕ)
        → length buf ≡ 64
        → with_nonce_bytes buf ≡ write buf 0 (concat (hdr_bytes ∷ encode_le64 nonce ∷ []))
    with_nonce buf full =
        ap
          (λ (b : List ℕ).
            write b (header_len config.header_type + req_reqnonce_idx) (encode_le64 nonce))
          (write-first buf hdr_bytes)
        ∙ write-next buf (hdr_bytes ∷ []) (encode_le64 nonce)
            (header_len config.header_type + req_reqnonce_idx) (omega (arith, hl))

    request_bytes-wire :
        (buf : List ℕ)
        → length buf ≡ 64
        → take (header_len config.header_type + 24) (request_bytes buf) ≡ request_wire
    request_bytes-wire buf full =
        rw
          (
            with_nonce buf full,
            nonce-slice buf full,
            write-next buf (hdr_bytes ∷ encode_le64 nonce ∷ []) digest
                (header_len config.header_type + req_tag_idx)
                (omega (arith, hl, length-encode_le64 nonce)),
          )
          (take-fields buf (hdr_bytes ∷ encode_le64 nonce ∷ digest ∷ [])
            (header_len config.header_type + 24)
            (omega (arith, hl, length-encode_le64 nonce, length-digest_tag))
            (omega (arith, small config.header_type)))

    -- A successful Request: the state remembers the nonce, and the bytes are the message.
    pub build_msg_req-wire :
        (s : GroupState) (pdu : CbsPduMsg)
        → length pdu.bytes ≡ 64
        → (build_msg_req p config gid io s pdu).0 ≡ ok
        → let result = build_msg_req p config gid io s pdu in
          (result.1
            ≡ record (set_request_tx_time_to_now p
                (non_zero_trng p io (replicate 8 0) req_reqnonce_len).2
                s).1 { request_nonce = nonce })
          × (result.3.data_len ≡ header_len config.header_type + 24)
          × (take (header_len config.header_type + 24) result.3.bytes ≡ request_wire)
          × ((non_zero_trng p io (replicate 8 0) req_reqnonce_len).0 ≡ ok)
    unfolding build_msg_req
    build_msg_req-wire s pdu full h = ground (
      arith,
      is_ok-ok,
      request_bytes-wire pdu.bytes full,
      is_ok_iff (non_zero_trng p io (replicate 8 0) req_reqnonce_len).0,
    )

    -- The Server finds in the message the nonce and a tag that fits it.
    pub request_wire-nonce :
        slice (header_len config.header_type + req_reqnonce_idx) req_reqnonce_len request_wire
        ≡ encode_le64 nonce
    request_wire-nonce =
        slice-field (hdr_bytes ∷ []) (encode_le64 nonce) (digest ∷ [])
          (header_len config.header_type + req_reqnonce_idx) req_reqnonce_len (omega (arith, hl))
          (omega (arith, length-encode_le64 nonce))

    request_wire-tag :
        slice (header_len config.header_type + req_tag_idx) req_tag_len request_wire ≡ digest
    request_wire-tag =
        slice-field (hdr_bytes ∷ encode_le64 nonce ∷ []) digest []
          (header_len config.header_type + req_tag_idx) req_tag_len
          (omega (arith, hl, length-encode_le64 nonce)) (omega (arith, length-digest_tag))

    pub request_wire-checked :
        hash_digest_check p
          (req_hash_init p config.ltk (req_header config gid) (encode_le64 nonce))
          (slice (header_len config.header_type + req_tag_idx) req_tag_len request_wire)
        ≡ ok
    unfolding hash_digest_check hash_digest
    request_wire-checked =
        rw
          (
            request_wire-tag,
            (laws.matches_iff _ digest).1 (ap (p.ascon.hash_xof_final _) length-digest_tag),
          )
          refl

  -- The nonce is sent as it was drawn, and is not zero.
  pub nonce-drawn : GivesBytes p → encode_le64 nonce ≡ drawn
  nonce-drawn bytes =
      encode_le64-decode_le64_of_length drawn
        (length-non_zero_trng p io (replicate 8 0) req_reqnonce_len)
        (non_zero_trng-All p bytes io (replicate 8 0) req_reqnonce_len
          (All-replicate (λ b. b < 256) 8 0 (omega arith)))

  pub nonce-not-zero :
      GivesBytes p
      → (non_zero_trng p io (replicate 8 0) req_reqnonce_len).0 ≡ ok
      → is_all_zeros (encode_le64 nonce) ≡ false
  nonce-not-zero bytes h =
      rw (nonce-drawn bytes) (non_zero_trng_ok p io (replicate 8 0) req_reqnonce_len h).0
