-- ===== src/Interop/Response.antt =====
-- The Response of the Server as the Client reads it: hzl_ServerBuildMsgResponse against
-- hzl_ClientProcessReceivedResponse.
use hazelnet.Base.{
  ℕ, ◌+◌, ◌≤◌, ◌≡◌, refl, sym, ◌∙◌, arith, List, [], ◌∷◌, ◌++◌, length, take, write, get_or, slice,
  replicate, length-append,
}
use hazelnet.Base.Buffers.{write-write}
use hazelnet.Base.Fields.{
  concat, total, overwritten, write-next, take-fields, slice-field, get-field, slice-written,
  length-concat, concat-merge,
}
use hazelnet.Endian.{encode_le24, encode_le64}
use hazelnet.Err.{ok}
use hazelnet.Header.{header_len, header_pack}
use hazelnet.Header.RoundTrip.{length-header_pack}
use hazelnet.Message.{aead_init_res}
use hazelnet.Payload.{
  res_client_idx, res_ctrnonce_idx, res_ctrnonce_len, res_resnonce_idx, res_resnonce_len,
  res_ctext_idx, res_ctext_len, res_tag_idx, res_tag_len,
}
use hazelnet.Platform.{
  Platform, Aead, AeadLaws, aead_encrypt_update, aead_encrypt_finish, aead_decrypt_update,
  aead_decrypt_finish,
}
use hazelnet.Server
use hazelnet.Server.Request.{res_header, response_pdu}
use hazelnet.Client
use hazelnet.Client.Response.{decrypt_stk}
use hazelnet.Interop.Request.{small}

pub length-encode_le24 : (v : ℕ) → length (encode_le24 v) ≡ 3
unfolding encode_le24
length-encode_le24 v = refl

module _ (p : Platform) (laws : AeadLaws p.ascon) (header_type gid : ℕ) (s : Server.GroupState)
    (ltk req_nonce : List ℕ) (sid : ℕ) (res_nonce : List ℕ) where
  abbrev hdr_bytes : List ℕ
  hdr_bytes = header_pack header_type (res_header gid)

  abbrev ctr_bytes : List ℕ
  ctr_bytes = encode_le24 s.current_ctr_nonce

  abbrev aead : Aead p
  aead = aead_init_res p ltk (res_header gid) ctr_bytes req_nonce res_nonce sid

  abbrev front : List ℕ
  front = (aead_encrypt_update p aead s.current_stk).1

  abbrev final : List ℕ × List ℕ
  final = aead_encrypt_finish p (aead_encrypt_update p aead s.current_stk).0 res_tag_len

  -- Header, SID of the Client, counter nonce, nonce, encrypted key and tag.
  abbrev pub response_wire : List ℕ
  response_wire =
      concat (hdr_bytes ∷ (sid ∷ []) ∷ ctr_bytes ∷ res_nonce ∷ (front ++ final.0) ∷ final.1 ∷ [])

  abbrev before_key : List (List ℕ)
  before_key = hdr_bytes ∷ (sid ∷ []) ∷ ctr_bytes ∷ res_nonce ∷ []

  length-ciphertext : length (front ++ final.0) ≡ length s.current_stk
  unfolding aead_encrypt_update aead_encrypt_finish
  length-ciphertext = laws.length-encrypt aead s.current_stk res_tag_len

  length-final_tag : length final.1 ≡ 16
  unfolding aead_encrypt_finish
  length-final_tag = laws.length-tag _ res_tag_len

  module _ (known : header_type ≤ 6) (nonce_len : length res_nonce ≡ 8)
      (stk_full : length s.current_stk ≡ 16) where
    hl : header_len header_type ≡ length hdr_bytes
    hl = sym (length-header_pack header_type (res_header gid) known)

    pub response_pdu-wire :
        (buf : List ℕ)
        → length buf ≡ 64
        → let built =
            response_pdu p header_type gid s ltk req_nonce sid (write buf 0 (concat before_key)) in
          (built.data_len ≡ header_len header_type + 44)
          × (take (header_len header_type + 44) built.bytes ≡ response_wire)
    unfolding response_pdu
    response_pdu-wire buf full =
        rw
          (
            slice-written buf (hdr_bytes ∷ (sid ∷ []) ∷ []) ctr_bytes (res_nonce ∷ [])
                (header_len header_type + res_ctrnonce_idx) res_ctrnonce_len (omega (arith, hl))
                (omega (arith, length-encode_le24 s.current_ctr_nonce)) room,
            slice-written buf (hdr_bytes ∷ (sid ∷ []) ∷ ctr_bytes ∷ []) res_nonce []
                (header_len header_type + res_resnonce_idx) res_resnonce_len
                (omega (arith, hl, length-encode_le24 s.current_ctr_nonce)) (omega arith) room,
            write-next buf before_key front (header_len header_type + res_ctext_idx)
                (omega (arith, hl, length-encode_le24 s.current_ctr_nonce)),
            write-next buf (hdr_bytes ∷ (sid ∷ []) ∷ ctr_bytes ∷ res_nonce ∷ front ∷ []) final.0
                (header_len header_type + res_ctext_idx + length front)
                (omega (arith, hl, length-encode_le24 s.current_ctr_nonce)),
            write-next buf (hdr_bytes ∷ (sid ∷ []) ∷ ctr_bytes ∷ res_nonce ∷ front ∷ final.0 ∷ [])
                final.1 (header_len header_type + res_tag_idx)
                (omega (
                  arith,
                  hl,
                  length-encode_le24 s.current_ctr_nonce,
                  length-ciphertext,
                  length-append front final.0,
                )),
          )
          (omega arith, taken)
      where
        room : total before_key ≤ length buf
        room = omega (arith, hl, length-encode_le24 s.current_ctr_nonce, small header_type)

        taken :
            take (header_len header_type + 44) (
              write buf 0 (
                concat (
                  hdr_bytes ∷ (sid ∷ []) ∷ ctr_bytes ∷ res_nonce ∷ front ∷ final.0 ∷ final.1 ∷ [])))
            ≡ response_wire
        taken =
            take-fields buf
              (hdr_bytes ∷ (sid ∷ []) ∷ ctr_bytes ∷ res_nonce ∷ front ∷ final.0 ∷ final.1 ∷ [])
              (header_len header_type + 44)
              (omega (
                arith,
                hl,
                length-encode_le24 s.current_ctr_nonce,
                length-ciphertext,
                length-final_tag,
                length-append front final.0,
              ))
              (omega (arith, small header_type))
            ∙ concat-merge before_key front final.0 (final.1 ∷ [])

    -- The fields of the message, as the Client reads them.
    pub response_wire-client :
        get_or response_wire (header_len header_type + res_client_idx) 0 ≡ sid
    response_wire-client =
        get-field (hdr_bytes ∷ []) sid (ctr_bytes ∷ res_nonce ∷ (front ++ final.0) ∷ final.1 ∷ [])
          (header_len header_type + res_client_idx) 0 (omega (arith, hl))

    pub response_wire-ctrnonce :
        slice (header_len header_type + res_ctrnonce_idx) res_ctrnonce_len response_wire ≡ ctr_bytes
    response_wire-ctrnonce =
        slice-field (hdr_bytes ∷ (sid ∷ []) ∷ []) ctr_bytes
          (res_nonce ∷ (front ++ final.0) ∷ final.1 ∷ [])
          (header_len header_type + res_ctrnonce_idx) res_ctrnonce_len (omega (arith, hl))
          (omega (arith, length-encode_le24 s.current_ctr_nonce))

    response_wire-resnonce :
        slice (header_len header_type + res_resnonce_idx) res_resnonce_len response_wire ≡ res_nonce
    response_wire-resnonce =
        slice-field (hdr_bytes ∷ (sid ∷ []) ∷ ctr_bytes ∷ []) res_nonce
          ((front ++ final.0) ∷ final.1 ∷ []) (header_len header_type + res_resnonce_idx)
          res_resnonce_len (omega (arith, hl, length-encode_le24 s.current_ctr_nonce)) (omega arith)

    response_wire-ctext :
        slice (header_len header_type + res_ctext_idx) res_ctext_len response_wire
        ≡ front ++ final.0
    response_wire-ctext =
        slice-field before_key (front ++ final.0) (final.1 ∷ [])
          (header_len header_type + res_ctext_idx) res_ctext_len
          (omega (arith, hl, length-encode_le24 s.current_ctr_nonce))
          (omega (arith, length-ciphertext))

    response_wire-tag :
        slice (header_len header_type + res_tag_idx) res_tag_len response_wire ≡ final.1
    response_wire-tag =
        slice-field (hdr_bytes ∷ (sid ∷ []) ∷ ctr_bytes ∷ res_nonce ∷ (front ++ final.0) ∷ [])
          final.1 [] (header_len header_type + res_tag_idx) res_tag_len
          (omega (arith, hl, length-encode_le24 s.current_ctr_nonce, length-ciphertext))
          (omega (arith, length-final_tag))

    pub length-response_wire : length response_wire ≡ header_len header_type + 44
    length-response_wire = omega (
      arith,
      hl,
      length-encode_le24 s.current_ctr_nonce,
      length-ciphertext,
      length-final_tag,
      length-concat
          (hdr_bytes ∷ (sid ∷ []) ∷ ctr_bytes ∷ res_nonce ∷ (front ++ final.0) ∷ final.1 ∷ []),
    )

    decrypted :
        let d = aead_decrypt_update p aead (front ++ final.0) in
        let (err, right) = aead_decrypt_finish p d.0 final.1 in
        (d.1 ++ right ≡ s.current_stk) × (err ≡ ok)
    unfolding aead_decrypt_update aead_decrypt_finish aead_encrypt_update aead_encrypt_finish
    decrypted = ground (arith, laws.decrypt-encrypt aead s.current_stk res_tag_len)

    -- The Client decrypts the Server's key.
    pub decrypt_stk-response_wire :
        (config : Client.ClientConfig) (request_nonce : ℕ)
        → config.header_type ≡ header_type
        → config.ltk ≡ ltk
        → encode_le64 request_nonce ≡ req_nonce
        → decrypt_stk p config (res_header gid) request_nonce response_wire ≡ (ok, s.current_stk)
    unfolding decrypt_stk
    decrypt_stk-response_wire config request_nonce same_type same_ltk same_nonce =
        simp
          (
            same_type, same_ltk, same_nonce, response_wire-client, response_wire-ctrnonce,
            response_wire-resnonce, response_wire-ctext, response_wire-tag,
          )
          (ground (
            arith,
            decrypted,
            whole,
            write-write (replicate 16 0) 0
                (length (aead_decrypt_update p aead (front ++ final.0)).1)
                (aead_decrypt_update p aead (front ++ final.0)).1
                (aead_decrypt_finish p (aead_decrypt_update p aead (front ++ final.0)).0 final.1).1
                (omega arith),
          ))
      where
        whole : write (replicate 16 0) 0 s.current_stk ≡ s.current_stk
        whole = overwritten (replicate 16 0) s.current_stk (omega arith)
