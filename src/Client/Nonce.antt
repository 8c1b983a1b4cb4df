-- ===== src/Client/Nonce.antt =====
-- The counter nonce in the secured messages of the Client: src/client/hzl_ClientBuildSecuredFd.c.
use hazelnet.Base.{
  ℕ, ◌+◌, ◌%◌, ◌≤◌, ◌<◌, ◌≡◌, ◌≢◌, refl, false, arith, List, [], ◌∷◌, ◌++◌, length, length-append,
  take, some,
}
use hazelnet.Base.Wire.{fields, write-fields, take_all}
use hazelnet.Endian.{encode_le24}
use hazelnet.Err.{ok, is_ok}
use hazelnet.Header.{header_len, header_pack, header_type_max_gid, header_type_max_sid}
use hazelnet.Header.RoundTrip.{length-header_pack}
use hazelnet.Message.{CbsPduMsg, aead_init_sadfd, check_msg_before_packing, max_data_len}
use hazelnet.Payload.{max_ctrnonce, sadfd_tag_len}
use hazelnet.Platform.{Platform, Aead, AeadLaws, aead_encrypt_update, aead_encrypt_finish}
use hazelnet.Utils.{is_all_zeros}
use hazelnet.Client.{ClientConfig, ClientCtx, GroupState, group_state, group_config}
use hazelnet.Client.Build.{client_build_secured_fd, build_msg_sadfd, sadfd_pdu, sadfd_header}
use hazelnet.Client.Group.{find_group}
use hazelnet.Client.Groups.{find_group_lem}
use hazelnet.Client.Rejection.{build_uses_nonce}

length-encode_le24 : (v : ℕ) → length (encode_le24 v) ≡ 3
unfolding encode_le24
length-encode_le24 v = refl

module _ (p : Platform) (laws : AeadLaws p.ascon) where
  module _ (config : ClientConfig) (gid : ℕ) (s : GroupState) (plaintext : List ℕ) where
    -- The AEAD context over the current key, the header, the counter nonce and the length.
    abbrev pub aead : Aead p
    aead =
        aead_init_sadfd p s.current_stk (sadfd_header config gid) s.current_ctr_nonce
          (length plaintext % 256)

    abbrev pub front : List ℕ
    front = (aead_encrypt_update p aead plaintext).1

    abbrev pub final : List ℕ × List ℕ
    final = aead_encrypt_finish p (aead_encrypt_update p aead plaintext).0 sadfd_tag_len

    -- Header, counter nonce, length, ciphertext and tag.
    abbrev pub wire : List ℕ
    wire =
        fields (header_pack config.header_type (sadfd_header config gid))
          (encode_le24 s.current_ctr_nonce) (length plaintext % 256 ∷ []) front final.0 final.1

    length-ciphertext : length (front ++ final.0) ≡ length plaintext
    unfolding aead_encrypt_update aead_encrypt_finish
    length-ciphertext = laws.length-encrypt aead plaintext sadfd_tag_len

    length-final_tag : length final.1 ≡ 8
    unfolding aead_encrypt_finish
    length-final_tag = laws.length-tag _ sadfd_tag_len

    sadfd_pdu-wire :
        (pdu : CbsPduMsg)
        → config.header_type ≤ 6
        → length pdu.bytes ≡ 64
        → header_len config.header_type + 12 + length plaintext ≤ 64
        → let built = sadfd_pdu p config gid s plaintext (length plaintext) pdu in
          take built.data_len built.bytes ≡ wire
    unfolding sadfd_pdu
    sadfd_pdu-wire pdu known full fits =
        write-fields pdu.bytes (header_pack config.header_type (sadfd_header config gid))
          (encode_le24 s.current_ctr_nonce) (length plaintext % 256 ∷ []) front final.0 final.1 _ _
          _ _ _ _ (omega (arith, hl)) (omega (arith, length-encode_le24 s.current_ctr_nonce))
          (omega arith) (omega arith)
          (omega (arith, length-ciphertext, length-append front final.0))
          (omega (arith, length-final_tag)) (omega arith)
      where
        hl :
            length (header_pack config.header_type (sadfd_header config gid))
            ≡ header_len config.header_type
        hl = length-header_pack config.header_type (sadfd_header config gid) known

  -- What a successful call has checked, and the message that it made.
  built_ok :
      (pdu : CbsPduMsg) (ctx : ClientCtx) (plaintext : List ℕ) (gid i : ℕ)
      → find_group ctx gid ≡ some i
      → ctx.client_config.header_type ≤ 6
      → let result =
          client_build_secured_fd p false pdu ctx (some plaintext) (length plaintext) gid in
        result.0 ≡ ok
        → (header_len ctx.client_config.header_type + 12 + length plaintext ≤ 64)
          × (result.2
              ≡ sadfd_pdu p ctx.client_config
                  (group_config ctx i).gid
                  (group_state ctx i)
                  (take (length plaintext) plaintext)
                  (length plaintext)
                  (record pdu { data_len = 0 }))
  unfolding client_build_secured_fd check_msg_before_packing max_data_len build_msg_sadfd header_len
      header_type_max_gid header_type_max_sid is_ok
  built_ok pdu ctx plaintext gid i found known h = ground (arith, h, found)

  -- For a Group whose state is in memory, a message of 64 bytes that is not NULL and one of the seven
  -- header types: if `hzl_ClientBuildSecuredFd` returns HZL_OK, the Group's counter nonce was below
  -- the largest and its key was not zero. The message is then the header, that counter nonce, the
  -- length, and the ciphertext and tag that the AEAD gives under that key and that counter nonce; and
  -- the Group's counter is one more afterwards, under the same key. If it returns an error, the
  -- context has not changed, and the message is empty. LibAscon is relied on for the lengths of its
  -- outputs.
  pub client_build_secured_fd_nonce :
      (pdu : CbsPduMsg) (ctx : ClientCtx) (plaintext : List ℕ) (gid i : ℕ)
      → find_group ctx gid ≡ some i
      → i < length ctx.group_states
      → ctx.client_config.header_type ≤ 6
      → length pdu.bytes ≡ 64
      → let result =
          client_build_secured_fd p false pdu ctx (some plaintext) (length plaintext) gid in
        let s = group_state ctx i in
        let s' = group_state result.1 i in
        (result.0 ≡ ok
          → (s.current_ctr_nonce < max_ctrnonce)
            × (is_all_zeros s.current_stk ≡ false)
            × (take result.2.data_len result.2.bytes ≡ wire ctx.client_config gid s plaintext)
            × (s'.current_ctr_nonce ≡ s.current_ctr_nonce + 1)
            × (s'.current_stk ≡ s.current_stk))
        × (result.0 ≢ ok → (result.1 ≡ ctx) × (result.2.data_len ≡ 0))
  client_build_secured_fd_nonce pdu ctx plaintext gid i found room known full =
      let nonce = build_uses_nonce p pdu ctx (some plaintext) (length plaintext) gid i found room in
      (
        (λ h.
            let old = nonce.0 h in
            let made = built_ok pdu ctx plaintext gid i found known h in
            (
              old.0,
              old.1,
              rw
                  (
                    made.1,
                    take_all plaintext (length plaintext) refl,
                    ((find_group_lem ctx gid).0 i found).has_gid,
                  )
                  (sadfd_pdu-wire ctx.client_config gid (group_state ctx i) plaintext
                    (record pdu { data_len = 0 }) known full made.0),
              old.2,
              old.3,
            )),
        nonce.1,
      )
