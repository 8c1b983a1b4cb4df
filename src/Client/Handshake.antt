-- ===== src/Client/Handshake.antt =====
-- The acceptance of a Response: hzl_ClientProcessReceivedResponse.
use hazelnet.Base.{
  ℕ, zero, suc, ◌+◌, ◌≤◌, ◌<◌, ◌≡◌, ◌≢◌, refl, ◌∙◌, false, arith, List, some, length, slice,
}
use hazelnet.Base.Lists.{get_or-set_self}
use hazelnet.Endian.{decode_le24}
use hazelnet.Err.{Err, ok, is_ok}
use hazelnet.Header.{Header, header_len}
use hazelnet.Payload.{server_sid, res_ctrnonce_idx, res_ctrnonce_len}
use hazelnet.Platform.{Platform}
use hazelnet.Timing.{time_delta}
use hazelnet.Utils.{is_all_zeros}
use hazelnet.Client.{ClientCtx, GroupState, group_state, put_state, zero_state}
use hazelnet.Client.Group.{find_group, find_group_from, is_response_acceptable}
use hazelnet.Client.Response.{establish_session, process_received_response, decrypt_stk}

find_group_from-put :
    (ctx : ClientCtx) (k : ℕ) (s : GroupState) (gid rounds i : ℕ)
    → find_group_from (put_state ctx k s) gid rounds i ≡ find_group_from ctx gid rounds i
unfolding find_group_from
find_group_from-put ctx k s gid zero i = refl
find_group_from-put ctx k s gid (suc rounds) i =
    ground (arith, find_group_from-put ctx k s gid rounds (i + 1))

pub find_group-put :
    (ctx : ClientCtx) (k : ℕ) (s : GroupState) (gid : ℕ)
    → find_group (put_state ctx k s) gid ≡ find_group ctx gid
unfolding find_group
find_group-put ctx k s gid = find_group_from-put ctx k s gid ctx.client_config.amount_of_groups 0

-- What accepting a Response shows of the Group's state `s`, and makes of it.
pub record Answers (timeout : ℕ) (s : GroupState) (now : ℕ) (s' : GroupState) : Type 0 where
  pub was_requested : s.request_nonce ≢ 0
  pub in_time : time_delta s.last_handshake_event_instant now ≤ timeout
  pub no_longer_requested : s'.request_nonce ≡ 0
  pub counter_fits : s'.current_ctr_nonce < 0xff_ffff
  pub previous_key_kept : s'.previous_stk ≡ s.previous_stk

module _ (p : Platform) (ctx : ClientCtx) (rx : List ℕ) (len : ℕ) (hdr : Header) (now : ℕ) where
  abbrev result : Err × ClientCtx
  result = process_received_response p ctx rx len hdr now

  refused : result.0 ≢ ok → result.1 ≡ ctx
  unfolding process_received_response
  refused h = ground arith

  -- The new state of the Group at the index `i`.
  abbrev pub established : ℕ → GroupState
  established i =
      establish_session (group_state ctx i)
        (decrypt_stk p ctx.client_config hdr (group_state ctx i).request_nonce rx).1
        (decode_le24
          (slice (header_len ctx.client_config.header_type + res_ctrnonce_idx) res_ctrnonce_len rx))
        now

  -- For the Group that the header's GID names: a Response that `hzl_ClientProcessReceivedResponse`
  -- refuses changes nothing of the context. One that it accepts carries the Server's SID and a key
  -- that is not zero, for a Request that is outstanding and has not timed out; only that Group's
  -- state changes, the Request is over, the counter nonce is not expired, and the previous
  -- Session's key stays.
  pub process_received_response_cases :
      (i : ℕ)
      → find_group ctx hdr.gid ≡ some i
      → (result.0 ≢ ok → result.1 ≡ ctx)
        × (result.0 ≡ ok
            → (hdr.sid ≡ server_sid)
              × (result.1 ≡ put_state ctx i (established i))
              × (is_all_zeros
                    (decrypt_stk p ctx.client_config hdr (group_state ctx i).request_nonce rx).1
                  ≡ false)
              × Answers ctx.client_config.timeout_req_to_res_millis
                  (group_state ctx i)
                  now
                  (established i))
  unfolding process_received_response is_response_acceptable establish_session is_ok
  process_received_response_cases i found = (refused, λ h. ground arith)

module _ (p : Platform) (ctx : ClientCtx) (rx : List ℕ) (len : ℕ) (hdr : Header) (now : ℕ) where
  not_requested :
      (i : ℕ)
      → find_group ctx hdr.gid ≡ some i
      → (group_state ctx i).request_nonce ≡ 0
      → (process_received_response p ctx rx len hdr now).0 ≢ ok
  unfolding process_received_response is_response_acceptable is_ok
  not_requested i found idle h = ground arith

module _ (p : Platform) (ctx : ClientCtx) (rx : List ℕ) (len : ℕ) (hdr : Header) (now : ℕ) where
  -- After a Response was accepted for a Group that is in the memory of the states, any Response for
  -- this GID, the same again or another one, is refused and changes nothing.
  pub response_not_replayable :
      (i : ℕ)
      → find_group ctx hdr.gid ≡ some i
      → i < length ctx.group_states
      → (process_received_response p ctx rx len hdr now).0 ≡ ok
      → (rx' : List ℕ) (len' now' : ℕ)
      → let ctx' = (process_received_response p ctx rx len hdr now).1 in
        ((process_received_response p ctx' rx' len' hdr now').0 ≢ ok)
        × ((process_received_response p ctx' rx' len' hdr now').1 ≡ ctx')
  response_not_replayable i found room h rx' len' now' = (
    blocked,
    refused p (process_received_response p ctx rx len hdr now).1 rx' len' hdr now' blocked,
  )
    where
      accepted :
          (process_received_response p ctx rx len hdr now).1
          ≡ put_state ctx i (established p ctx rx len hdr now i)
      accepted = ((process_received_response_cases p ctx rx len hdr now i found).1 h).1

      still_found : find_group (process_received_response p ctx rx len hdr now).1 hdr.gid ≡ some i
      still_found =
          rw accepted (find_group-put ctx i (established p ctx rx len hdr now i) hdr.gid ∙ found)

      idle : (group_state (process_received_response p ctx rx len hdr now).1 i).request_nonce ≡ 0
      idle =
          rw
            (
              accepted,
              get_or-set_self ctx.group_states i (established p ctx rx len hdr now i) zero_state
                  room,
            )
            (((process_received_response_cases p ctx rx len hdr now i found).1
              h).3.no_longer_requested)

      blocked :
          (process_received_response p
            (process_received_response p ctx rx len hdr now).1
            rx'
            len'
            hdr
            now').0
          ≢ ok
      blocked =
          not_requested p (process_received_response p ctx rx len hdr now).1 rx' len' hdr now' i
            still_found idle
