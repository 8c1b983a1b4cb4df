-- ===== src/Interop/SecuredFd.antt =====
-- Secured application data from the Server to a Client: hzl_ServerBuildMsgSadfd against
-- hzl_ClientProcessReceivedSecuredFd.
use hazelnet.Base.{
  ℕ, ◌+◌, ◌%◌, ◌≤◌, ◌<◌, ◌≡◌, refl, sym, ap, ◌∙◌, arith, List, [], ◌∷◌, ◌++◌, length, take, write,
  get_or, slice, length-append,
}
use hazelnet.Base.Wire.{
  fields, write-fields, slice-append, slice-last, get_or-append, take_all, append_assoc,
}
use hazelnet.Base.Buffers.{write-write}
use hazelnet.Endian.{encode_le24}
use hazelnet.Err.{ok, is_ok-ok}
use hazelnet.Header.{header_len, header_pack}
use hazelnet.Header.RoundTrip.{length-header_pack}
use hazelnet.Message.{CbsPduMsg, aead_init_sadfd}
use hazelnet.Payload.{
  sadfd_ctrnonce_idx, sadfd_ptlen_idx, sadfd_ctext_idx, sadfd_tag_idx, sadfd_tag_len,
}
use hazelnet.Platform.{
  Platform, Aead, AeadLaws, aead_encrypt_update, aead_encrypt_finish, aead_decrypt_update,
  aead_decrypt_finish,
}
use hazelnet.Server
use hazelnet.Server.Build.{sadfd_pdu, sadfd_header}
use hazelnet.Client.SecuredFd.{decrypt_sadfd}

length-encode_le24 : (v : ℕ) → length (encode_le24 v) ≡ 3
unfolding encode_le24
length-encode_le24 v = refl

module _ (p : Platform) (laws : AeadLaws p.ascon) where
  -- The message of `hzl_ServerBuildMsgSadfd`: the AEAD context, and the pieces that it gives.
  module _ (header_type gid : ℕ) (s : Server.GroupState) (plaintext : List ℕ) where
    abbrev pub aead : Aead p
    aead =
        aead_init_sadfd p s.current_stk (sadfd_header gid) s.current_ctr_nonce
          (length plaintext % 256)

    abbrev pub front : List ℕ
    front = (aead_encrypt_update p aead plaintext).1

    abbrev pub final : List ℕ × List ℕ
    final = aead_encrypt_finish p (aead_encrypt_update p aead plaintext).0 sadfd_tag_len

    abbrev pub wire : List ℕ
    wire =
        fields (header_pack header_type (sadfd_header gid)) (encode_le24 s.current_ctr_nonce)
          (length plaintext % 256 ∷ []) front final.0 final.1

    length-ciphertext : length (front ++ final.0) ≡ length plaintext
    unfolding aead_encrypt_update aead_encrypt_finish
    length-ciphertext = laws.length-encrypt aead plaintext sadfd_tag_len

    length-final_tag : length final.1 ≡ 8
    unfolding aead_encrypt_finish
    length-final_tag = laws.length-tag _ sadfd_tag_len

    -- The bytes on the wire are the header, the counter nonce, the length, the ciphertext and the tag.
    pub sadfd_pdu-wire :
        (pdu : CbsPduMsg)
        → header_type ≤ 6
        → length pdu.bytes ≡ 64
        → header_len header_type + 12 + length plaintext ≤ 64
        → let built = sadfd_pdu p header_type gid s plaintext (length plaintext) pdu in
          take built.data_len built.bytes ≡ wire
    unfolding sadfd_pdu
    sadfd_pdu-wire pdu known full fits =
        write-fields pdu.bytes (header_pack header_type (sadfd_header gid))
          (encode_le24 s.current_ctr_nonce) (length plaintext % 256 ∷ []) front final.0 final.1 _ _
          _ _ _ _ (omega (arith, hl)) (omega (arith, length-encode_le24 s.current_ctr_nonce))
          (omega arith) (omega arith)
          (omega (arith, length-ciphertext, length-append front final.0))
          (omega (arith, length-final_tag)) (omega arith)
      where
        hl : length (header_pack header_type (sadfd_header gid)) ≡ header_len header_type
        hl = length-header_pack header_type (sadfd_header gid) known

    -- The fields of the message, as the receiver reads them.
    module _ (known : header_type ≤ 6) (fits : length plaintext < 256) where
      hl : header_len header_type ≡ length (header_pack header_type (sadfd_header gid))
      hl = sym (length-header_pack header_type (sadfd_header gid) known)

      pub wire-ctrnonce :
          slice (header_len header_type + sadfd_ctrnonce_idx) 3 wire
          ≡ encode_le24 s.current_ctr_nonce
      wire-ctrnonce =
          slice-append (header_pack header_type (sadfd_header gid))
            (encode_le24 s.current_ctr_nonce)
            ((length plaintext % 256 ∷ []) ++ ((front ++ final.0) ++ final.1))
            (header_len header_type + sadfd_ctrnonce_idx) 3 (omega (arith, hl))
            (omega (arith, length-encode_le24 s.current_ctr_nonce))

      abbrev before_ptlen : List ℕ
      before_ptlen = header_pack header_type (sadfd_header gid) ++ encode_le24 s.current_ctr_nonce

      abbrev before_ctext : List ℕ
      before_ctext = before_ptlen ++ (length plaintext % 256 ∷ [])

      length-before_ptlen : length before_ptlen ≡ header_len header_type + 3
      length-before_ptlen = omega (
        arith,
        hl,
        length-encode_le24 s.current_ctr_nonce,
        length-append (header_pack header_type (sadfd_header gid))
            (encode_le24 s.current_ctr_nonce),
      )

      length-before_ctext : length before_ctext ≡ header_len header_type + 4
      length-before_ctext =
          omega
            (arith, length-before_ptlen, length-append before_ptlen (length plaintext % 256 ∷ []))

      pub wire-ptlen : get_or wire (header_len header_type + sadfd_ptlen_idx) 0 ≡ length plaintext
      wire-ptlen =
          ap (λ (l : List ℕ). get_or l (header_len header_type + sadfd_ptlen_idx) 0) regrouped
          ∙ (get_or-append before_ptlen (length plaintext % 256) ((front ++ final.0) ++ final.1)
                (header_len header_type + sadfd_ptlen_idx) 0 (omega (arith, length-before_ptlen))
              ∙ omega arith)
        where
          regrouped :
              wire ≡ before_ptlen ++ ((length plaintext % 256) ∷ ((front ++ final.0) ++ final.1))
          regrouped = simp append_assoc

      wire-ctext :
          slice (header_len header_type + sadfd_ctext_idx) (length plaintext) wire
          ≡ front ++ final.0
      wire-ctext =
          ap (slice (header_len header_type + sadfd_ctext_idx) (length plaintext)) regrouped
          ∙ slice-append before_ctext (front ++ final.0) final.1
              (header_len header_type + sadfd_ctext_idx) (length plaintext)
              (omega (arith, length-before_ctext)) (omega (arith, length-ciphertext))
        where
          regrouped : wire ≡ before_ctext ++ ((front ++ final.0) ++ final.1)
          regrouped = simp append_assoc

      wire-tag : slice (header_len header_type + sadfd_tag_idx (length plaintext)) 8 wire ≡ final.1
      wire-tag =
          ap (slice (header_len header_type + sadfd_tag_idx (length plaintext)) 8) regrouped
          ∙ slice-last (before_ctext ++ (front ++ final.0)) final.1
              (header_len header_type + sadfd_tag_idx (length plaintext)) 8
              (omega (
                arith,
                length-before_ctext,
                length-ciphertext,
                length-append before_ctext (front ++ final.0),
              ))
              (omega (arith, length-final_tag))
        where
          regrouped : wire ≡ (before_ctext ++ (front ++ final.0)) ++ final.1
          regrouped = simp append_assoc

      same_aead :
          aead_init_sadfd p s.current_stk (sadfd_header gid) s.current_ctr_nonce (length plaintext)
          ≡ aead
      same_aead =
          ap (aead_init_sadfd p s.current_stk (sadfd_header gid) s.current_ctr_nonce) (omega arith)

      decrypted :
          let d = aead_decrypt_update p aead (front ++ final.0) in
          let (err, right) = aead_decrypt_finish p d.0 final.1 in
          (d.1 ++ right ≡ plaintext) × (err ≡ ok)
      unfolding aead_decrypt_update aead_decrypt_finish aead_encrypt_update aead_encrypt_finish
      decrypted = ground (arith, laws.decrypt-encrypt aead plaintext sadfd_tag_len)

      pub decrypt_sadfd-wire :
          (out : List ℕ)
          → decrypt_sadfd p
              (header_len header_type)
              s.current_stk
              (sadfd_header gid)
              s.current_ctr_nonce
              (length plaintext)
              wire
              out
            ≡ (ok, write out 0 plaintext)
      unfolding decrypt_sadfd
      decrypt_sadfd-wire out =
          rw (wire-ctext, wire-tag, same_aead)
            (ground (
              arith,
              is_ok-ok,
              decrypted,
              write-write out 0 (length (aead_decrypt_update p aead (front ++ final.0)).1)
                  (aead_decrypt_update p aead (front ++ final.0)).1
                  (aead_decrypt_finish p (aead_decrypt_update p aead (front ++ final.0)).0
                    final.1).1
                  (omega arith),
            ))

      length-wire : length wire ≡ header_len header_type + 12 + length plaintext
      length-wire = omega (
        arith,
        hl,
        length-encode_le24 s.current_ctr_nonce,
        length-ciphertext,
        length-final_tag,
        length-append (header_pack header_type (sadfd_header gid)) (
            encode_le24 s.current_ctr_nonce
            ++ ((length plaintext % 256 ∷ []) ++ ((front ++ final.0) ++ final.1))),
        length-append (encode_le24 s.current_ctr_nonce)
            ((length plaintext % 256 ∷ []) ++ ((front ++ final.0) ++ final.1)),
        length-append (front ++ final.0) final.1,
      )

      -- Cutting the message at its own length leaves it.
      pub take-wire : take (header_len header_type + 12 + length plaintext) wire ≡ wire
      take-wire = take_all wire _ (sym length-wire)
