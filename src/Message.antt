-- ===== src/Message.antt =====
-- The messages of inc/hzl.h, and the parts of src/common that build and check them:
-- hzl_CommonPacking.c, hzl_CommonBuildUnsecured.c, hzl_CommonProcessReceivedUnsecured.c,
-- hzl_CommonBuildRequest.c, hzl_CommonBuildResponse.c and hzl_CommonBuildSecuredFd.c.
--
-- A buffer is the list of its bytes. A pointer argument that may be NULL is an `Option`, or, where
-- the pointed-to object is written, the object beside a flag that says whether the pointer is NULL.
use hazelnet.Base.{
  ℕ, ◌+◌, ◌-◌, ◌%◌, ◌^◌, Bool, true, false, not, ◌&&◌, List, [], ◌∷◌, Option, none, some, ltb, ◌==◌,
  write, slice, replicate, take, if◌then◌else◌,
}
use hazelnet.Err.{
  Err, ok, is_ok, null_pdu, null_sdu, gid_too_large_for_configured_header_type, too_long_sdu,
  too_short_pdu_to_contain_header, secwarn_message_from_myself,
}
use hazelnet.Header.{Header, header_len, header_type_max_gid, header_pack, header_unpack}
use hazelnet.Header.Pty
use hazelnet.Payload.{
  max_can_fd_data_len, uad_metadata_in_payload_len, req_label, res_label, sadfd_label,
  aead_nonce_len,
}
use hazelnet.Endian.{encode_le24}
use hazelnet.Platform.{
  Platform, Aead, Hash, aead_init, aead_assoc_data_update, hash_init, hash_update,
}

-- `hzl_CbsPduMsg_t`; `bytes` is the 64-byte array `data`.
pub record CbsPduMsg : Type 0 where
  pub data_len : ℕ
  pub bytes : List ℕ

-- `hzl_RxSduMsg_t`; `bytes` is the 64-byte array `data`.
pub record RxSduMsg : Type 0 where
  pub data_len : ℕ
  pub can_id : ℕ
  pub gid : ℕ
  pub sid : ℕ
  pub was_secured : Bool
  pub is_for_user : Bool
  pub bytes : List ℕ

-- `hzl_ZeroOut` of a whole message.
abbrev pub zero_pdu : CbsPduMsg
zero_pdu = record { data_len = 0; bytes = replicate max_can_fd_data_len 0 }

abbrev pub zero_sdu : RxSduMsg
zero_sdu = record {
  data_len = 0;
  can_id = 0;
  gid = 0;
  sid = 0;
  was_secured = false;
  is_for_user = false;
  bytes = replicate max_can_fd_data_len 0;
}

-- The first `len` bytes behind a pointer that may be NULL if `len` is 0.
abbrev pub bytes_of : Option (List ℕ) → ℕ → List ℕ
bytes_of none len = []
bytes_of (some bytes) len = take len bytes

abbrev pub is_null {ℓ} : {A : Type ℓ} → Option A → Bool
is_null none = true
is_null (some x) = false

-- `size_t` differences wrap.
unfoldable pub max_data_len : ℕ → ℕ → ℕ
max_data_len header_len metadata_len =
    (max_can_fd_data_len + 2 ^ 64 - header_len - metadata_len) % 2 ^ 64

unfoldable pub check_msg_before_packing : Option (List ℕ) → ℕ → ℕ → ℕ → ℕ → Err
unfolding max_data_len
check_msg_before_packing user_data user_data_len group metadata_in_payload_len header_type =
    if is_null user_data && not (user_data_len == 0)
    then null_sdu
    else if ltb (header_type_max_gid header_type) group
    then gid_too_large_for_configured_header_type
    else if ltb (max_data_len (header_len header_type) metadata_in_payload_len) user_data_len
    then too_long_sdu
    else ok

-- The code, and the header where it was unpacked (`none` before that).
unfoldable pub check_received_generic_msg : Option (List ℕ) → ℕ → ℕ → ℕ → Err × Option Header
check_received_generic_msg received_pdu received_pdu_len receiver_sid header_type =
    if is_null received_pdu && not (received_pdu_len == 0)
    then (null_pdu, none)
    else if ltb received_pdu_len (header_len header_type)
    then (too_short_pdu_to_contain_header, none)
    else (let hdr = header_unpack header_type (bytes_of received_pdu received_pdu_len) in
        (if hdr.sid == receiver_sid then secwarn_message_from_myself else ok, some hdr))

-- `hzl_CommonBuildUnsecured`; `pdu_null` says whether `unsecuredPdu` is NULL.
unfoldable pub build_unsecured :
    Bool → CbsPduMsg → Option (List ℕ) → ℕ → ℕ → ℕ → ℕ → Err × CbsPduMsg
build_unsecured pdu_null pdu user_data user_data_len group_id source_id header_type =
    if pdu_null
    then (null_pdu, pdu)
    else (let emptied : CbsPduMsg = record pdu { data_len = 0 } in
        let err =
          check_msg_before_packing user_data user_data_len group_id uad_metadata_in_payload_len
            header_type in
        if is_ok err
        then (let hdr : Header = record { gid = group_id; sid = source_id; pty = Pty.uad } in
            let with_header = write pdu.bytes 0 (header_pack header_type hdr) in
            let hdr_len = header_len header_type in
            (
              ok,
              record {
                data_len = hdr_len + user_data_len;
                bytes = write with_header hdr_len (bytes_of user_data user_data_len);
              },
            ))
        else (err, emptied))

-- `hzl_CommonProcessReceivedUnsecured`
unfoldable pub process_received_unsecured :
    RxSduMsg → Option (List ℕ) → ℕ → Header → ℕ → Err × RxSduMsg
process_received_unsecured unpacked rx_pdu rx_pdu_len hdr header_type =
    let data_len = rx_pdu_len - header_len header_type in
    (
      ok,
      record unpacked {
        was_secured = false;
        is_for_user = true;
        gid = hdr.gid;
        sid = hdr.sid;
        data_len = data_len;
        bytes =
            write unpacked.bytes 0
              (slice (header_len header_type) data_len (bytes_of rx_pdu rx_pdu_len));
      },
    )

module _ (p : Platform) where
  -- `hzl_CommonAeadInitSadfd`: the nonce is ctrnonce, GID, SID and zeros.
  unfoldable pub aead_init_sadfd : List ℕ → Header → ℕ → ℕ → Aead p
  aead_init_sadfd stk hdr ctrnonce plaintext_len =
      let nonce = write (replicate aead_nonce_len 0) 0 (encode_le24 ctrnonce) in
      let nonce = write nonce 3 (hdr.gid ∷ []) in
      let nonce = write nonce 4 (hdr.sid ∷ []) in
      let aead = aead_init p stk nonce in
      let aead = aead_assoc_data_update p aead sadfd_label in
      let aead = aead_assoc_data_update p aead (hdr.gid ∷ []) in
      let aead = aead_assoc_data_update p aead (hdr.sid ∷ []) in
      let aead = aead_assoc_data_update p aead (hdr.pty ∷ []) in
      aead_assoc_data_update p aead (plaintext_len ∷ [])

  -- `hzl_CommonAeadInitRes`: the nonce is the Request's nonce and the Response's.
  unfoldable pub aead_init_res : List ℕ → Header → List ℕ → List ℕ → List ℕ → ℕ → Aead p
  aead_init_res ltk hdr encoded_ctrnonce encoded_request_nonce encoded_response_nonce client_sid =
      let nonce = write (replicate aead_nonce_len 0) 0 encoded_request_nonce in
      let nonce = write nonce 8 encoded_response_nonce in
      let aead = aead_init p ltk nonce in
      let aead = aead_assoc_data_update p aead res_label in
      let aead = aead_assoc_data_update p aead (hdr.gid ∷ []) in
      let aead = aead_assoc_data_update p aead (hdr.sid ∷ []) in
      let aead = aead_assoc_data_update p aead (hdr.pty ∷ []) in
      let aead = aead_assoc_data_update p aead (client_sid ∷ []) in
      aead_assoc_data_update p aead encoded_ctrnonce

  -- `hzl_ReqHashInit`
  unfoldable pub req_hash_init : List ℕ → Header → List ℕ → Hash p
  req_hash_init ltk hdr req_nonce =
      let hash = hash_init p in
      let hash = hash_update p hash ltk in
      let hash = hash_update p hash req_label in
      let hash = hash_update p hash (hdr.gid ∷ []) in
      let hash = hash_update p hash (hdr.sid ∷ []) in
      let hash = hash_update p hash (hdr.pty ∷ []) in hash_update p hash req_nonce
