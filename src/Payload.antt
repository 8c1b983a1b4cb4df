-- ===== src/Payload.antt =====
-- The constants of inc/hzl.h, src/common/hzl_CommonInternal.h and src/common/hzl_CommonPayload.h:
-- lengths and offsets of the fields, labels as ASCII bytes.
use hazelnet.Base.{ℕ, ◌+◌, ◌^◌, List, [], ◌∷◌}

abbrev pub server_sid : ℕ
server_sid = 0

abbrev pub ltk_len : ℕ
ltk_len = 16

abbrev pub stk_len : ℕ
stk_len = 16

abbrev pub max_can_fd_data_len : ℕ
max_can_fd_data_len = 64

abbrev pub max_trng_tries_for_nonzero_value : ℕ
max_trng_tries_for_nonzero_value = 20

abbrev pub largest_max_counter_nonce_delay : ℕ
largest_max_counter_nonce_delay = 2 ^ 22

abbrev pub max_ctrnonce : ℕ
max_ctrnonce = 0xff_ffff

abbrev pub reqnonce_not_expecting_a_response : ℕ
reqnonce_not_expecting_a_response = 0

abbrev pub timestamp_domain_size : ℕ
timestamp_domain_size = 2 ^ 32

-- `HZL_AEAD_NONCE_LEN`, which is ASCON_AEAD_NONCE_LEN: a static assertion of
-- src/common/hzl_CommonPayload.h has it at least the 16 bytes of two nonces, which it is.
abbrev pub aead_nonce_len : ℕ
aead_nonce_len = 16

-- "cbs_request"
abbrev pub req_label : List ℕ
req_label = b'c' ∷ b'b' ∷ b's' ∷ b'_' ∷ b'r' ∷ b'e' ∷ b'q' ∷ b'u' ∷ b'e' ∷ b's' ∷ b't' ∷ []

-- "cbs_response"
abbrev pub res_label : List ℕ
res_label = b'c' ∷ b'b' ∷ b's' ∷ b'_' ∷ b'r' ∷ b'e' ∷ b's' ∷ b'p' ∷ b'o' ∷ b'n' ∷ b's' ∷ b'e' ∷ []

-- "cbs_renewal"
abbrev pub ren_label : List ℕ
ren_label = b'c' ∷ b'b' ∷ b's' ∷ b'_' ∷ b'r' ∷ b'e' ∷ b'n' ∷ b'e' ∷ b'w' ∷ b'a' ∷ b'l' ∷ []

-- "cbs_secured_fd"
abbrev pub sadfd_label : List ℕ
sadfd_label =
    b'c' ∷ b'b' ∷ b's' ∷ b'_' ∷ b's' ∷ b'e' ∷ b'c' ∷ b'u' ∷ b'r' ∷ b'e' ∷ b'd' ∷ b'_' ∷ b'f' ∷ b'd'
    ∷ []

abbrev pub uad_metadata_in_payload_len : ℕ
uad_metadata_in_payload_len = 0

abbrev pub req_reqnonce_idx : ℕ
req_reqnonce_idx = 0

abbrev pub req_reqnonce_len : ℕ
req_reqnonce_len = 8

abbrev pub req_tag_idx : ℕ
req_tag_idx = req_reqnonce_idx + req_reqnonce_len

abbrev pub req_tag_len : ℕ
req_tag_len = 16

abbrev pub req_payload_len : ℕ
req_payload_len = req_reqnonce_len + req_tag_len

abbrev pub res_client_idx : ℕ
res_client_idx = 0

abbrev pub res_ctrnonce_idx : ℕ
res_ctrnonce_idx = 1

abbrev pub res_ctrnonce_len : ℕ
res_ctrnonce_len = 3

abbrev pub res_resnonce_idx : ℕ
res_resnonce_idx = res_ctrnonce_idx + res_ctrnonce_len

abbrev pub res_resnonce_len : ℕ
res_resnonce_len = 8

abbrev pub res_ctext_idx : ℕ
res_ctext_idx = res_resnonce_idx + res_resnonce_len

abbrev pub res_ctext_len : ℕ
res_ctext_len = stk_len

abbrev pub res_tag_idx : ℕ
res_tag_idx = res_ctext_idx + res_ctext_len

abbrev pub res_tag_len : ℕ
res_tag_len = 16

abbrev pub res_payload_len : ℕ
res_payload_len = 1 + res_ctrnonce_len + res_resnonce_len + res_ctext_len + req_tag_len

abbrev pub ren_ctrnonce_idx : ℕ
ren_ctrnonce_idx = 0

abbrev pub ren_ctrnonce_len : ℕ
ren_ctrnonce_len = 3

abbrev pub ren_tag_idx : ℕ
ren_tag_idx = ren_ctrnonce_idx + ren_ctrnonce_len

abbrev pub ren_tag_len : ℕ
ren_tag_len = 16

abbrev pub ren_payload_len : ℕ
ren_payload_len = ren_ctrnonce_len + ren_tag_len

abbrev pub sadfd_ctrnonce_idx : ℕ
sadfd_ctrnonce_idx = 0

abbrev pub sadfd_ctrnonce_len : ℕ
sadfd_ctrnonce_len = 3

abbrev pub sadfd_ptlen_idx : ℕ
sadfd_ptlen_idx = sadfd_ctrnonce_idx + sadfd_ctrnonce_len

abbrev pub sadfd_ctext_idx : ℕ
sadfd_ctext_idx = sadfd_ptlen_idx + 1

abbrev pub sadfd_tag_len : ℕ
sadfd_tag_len = 8

abbrev pub sadfd_tag_idx : ℕ → ℕ
sadfd_tag_idx ctlen = sadfd_ctext_idx + ctlen

abbrev pub sadfd_metadata_in_payload_len : ℕ
sadfd_metadata_in_payload_len = sadfd_ctrnonce_len + 1 + sadfd_tag_len

abbrev pub sadfd_payload_len : ℕ → ℕ
sadfd_payload_len ctlen = sadfd_metadata_in_payload_len + ctlen
