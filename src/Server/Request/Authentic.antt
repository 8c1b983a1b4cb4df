-- ===== src/Server/Request/Authentic.antt =====
-- Which Requests the Server answers: hzl_ServerProcessReceivedRequest.
use Prim.Native.Nat.{bit_and}
use hazelnet.Base.{ℕ, ◌+◌, ◌-◌, ◌^◌, ◌≤◌, ◌<◌, ◌≡◌, ◌≢◌, ◌⊎◌, false, arith, List, slice}
use hazelnet.Err.{ok, is_ok_iff, is_ok-ok}
use hazelnet.Header.{Header, header_len}
use hazelnet.Message.{CbsPduMsg, req_hash_init}
use hazelnet.Payload.{req_reqnonce_idx, req_reqnonce_len, req_tag_idx, req_tag_len}
use hazelnet.Platform.{Platform, hash_digest_check}
use hazelnet.Utils.{is_all_zeros}
use hazelnet.Server.{ServerCtx, group_state, group_config, put_state}
use hazelnet.Server.Group.{update_current_rx_last_message_instant}
use hazelnet.Server.Request.{validate_sid_and_gid, client_ltk, process_received_request}

-- What the Server has checked of a Request.
pub record Checked (p : Platform) (ctx : ServerCtx) (rx : List ℕ) (len : ℕ) (hdr : Header)
    : Type 0 where
  pub known_client : hdr.sid < ctx.server_config.amount_of_clients
  pub known_group : hdr.gid < ctx.server_config.amount_of_groups
  pub in_group :
      bit_and (group_config ctx hdr.gid).client_sids_in_group_bitmap (2 ^ (hdr.sid - 1)) ≢ 0
  pub long_enough : header_len ctx.server_config.header_type + 24 ≤ len
  pub has_nonce :
      is_all_zeros
        (slice (header_len ctx.server_config.header_type + req_reqnonce_idx) req_reqnonce_len rx)
      ≡ false
  pub has_tag :
      hash_digest_check p
        (req_hash_init p
          (client_ltk ctx hdr.sid)
          hdr
          (slice (header_len ctx.server_config.header_type + req_reqnonce_idx) req_reqnonce_len rx))
        (slice (header_len ctx.server_config.header_type + req_tag_idx) req_tag_len rx)
      ≡ ok

validated :
    (ctx : ServerCtx) (gid sid : ℕ)
    → validate_sid_and_gid ctx gid sid ≡ ok
    → (sid < ctx.server_config.amount_of_clients)
      × (gid < ctx.server_config.amount_of_groups)
      × (bit_and (group_config ctx gid).client_sids_in_group_bitmap (2 ^ (sid - 1)) ≢ 0)
unfolding validate_sid_and_gid
validated ctx gid sid h = (ground arith, ground arith, λ e. ground arith)

-- When the Server processes a Request, either the context stays as it was, or the Request comes from a
-- Client whose SID is below the amount of Clients and whose bit is set in a configured Group, is
-- long enough, has a nonce that is not zero and a tag that is right under that Client's long term
-- key; then only that Group's instant of the last message and the calls of the callbacks change.
-- It is the latter whenever the result is HZL_OK.
pub process_received_request_cases :
    (p : Platform) (pdu : CbsPduMsg) (ctx : ServerCtx) (rx : List ℕ) (len : ℕ) (hdr : Header)
    (now : ℕ)
    → let result = process_received_request p pdu ctx rx len hdr now in
      ((result.1 ≡ ctx) × (result.0 ≢ ok))
      ⊎ (Checked p ctx rx len hdr
          × (result.1
              ≡ record (put_state ctx hdr.gid
                  (update_current_rx_last_message_instant now (group_state ctx hdr.gid))) {
                    io = result.1.io;
                  }))
unfolding process_received_request
process_received_request_cases p pdu ctx rx len hdr now = ground (
  arith,
  is_ok-ok,
  is_ok_iff (validate_sid_and_gid ctx hdr.gid hdr.sid),
  validated ctx hdr.gid hdr.sid,
  is_ok_iff (
      hash_digest_check p
        (req_hash_init p (client_ltk ctx hdr.sid) hdr
          (slice (header_len ctx.server_config.header_type + req_reqnonce_idx) req_reqnonce_len rx))
        (slice (header_len ctx.server_config.header_type + req_tag_idx) req_tag_len rx)),
)
