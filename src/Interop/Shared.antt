-- ===== src/Interop/Shared.antt =====
-- What it means that hzl_ClientProcessReceivedResponse.c under src gave the Client the Server's Session.
use hazelnet.Base.{ℕ, ◌<◌, ◌≡◌, sym, true, false, arith, List, length}
use hazelnet.Base.Lists.{get_or-set_self}
use hazelnet.Header.RoundTrip.{Fits}
use hazelnet.Header.{header_type_max_sid}
use hazelnet.Payload.{max_ctrnonce}
use hazelnet.Platform.{Platform}
use hazelnet.Utils.{is_all_zeros}
use hazelnet.Server
use hazelnet.Server.Group.{did_any_client_already_request}
use hazelnet.Server.Request.{res_header}
use hazelnet.Client
use hazelnet.Client.Build.{req_header}
use hazelnet.Client.Group.{is_session_established_and_valid}
use hazelnet.Client.Response.{establish_session}
use hazelnet.Base.Fields.{overwritten}
use hazelnet.Client.Group.{set_request_tx_time_to_now}
use hazelnet.Platform.{Io}

-- The Client's state of a Group and the Server's share a Session.
pub record SharesSession (c : Client.GroupState) (s : Server.GroupState) : Type 0 where
  pub same_key : c.current_stk ≡ s.current_stk
  pub same_counter : c.current_ctr_nonce ≡ s.current_ctr_nonce
  pub is_established : is_session_established_and_valid c ≡ true
  pub no_longer_requested : c.request_nonce ≡ 0
  pub has_receiver : did_any_client_already_request s ≡ true

pub res_header-Fits :
    (type gid : ℕ) (config : Client.ClientConfig)
    → Fits type (req_header config gid)
    → Fits type (res_header gid)
unfolding header_type_max_sid
res_header-Fits type gid config f = record {
  known = f.known;
  gid_fits = f.gid_fits;
  sid_fits = omega arith;
  pty_fits = omega arith;
}

established_session :
    (c : Client.GroupState) (stk : List ℕ) (ctr now : ℕ)
    → length c.current_stk ≡ length stk
    → is_all_zeros stk ≡ false
    → ctr < max_ctrnonce
    → let c' = establish_session c stk ctr now in
      (c'.current_stk ≡ stk)
      × (c'.current_ctr_nonce ≡ ctr)
      × (c'.request_nonce ≡ 0)
      × (is_session_established_and_valid c' ≡ true)
unfolding is_session_established_and_valid establish_session
established_session c stk ctr now len key fresh =
    rw (overwritten c.current_stk stk (sym len)) (ground (arith, key))

pub request_keeps_stk :
    (p : Platform) (io : Io) (c : Client.GroupState)
    → (set_request_tx_time_to_now p io c).1.current_stk ≡ c.current_stk
unfolding set_request_tx_time_to_now
request_keeps_stk p io c = ground arith

-- A Group state with the Server's key and counter nonce, set in the Client's context.
pub shares :
    (client : Client.ClientCtx) (server : Server.ServerCtx) (i gid : ℕ)
    → i < length client.group_states
    → gid < length server.group_states
    → (c : Client.GroupState) (s : Server.GroupState) (now : ℕ)
    → length c.current_stk ≡ length s.current_stk
    → is_all_zeros s.current_stk ≡ false
    → s.current_ctr_nonce < max_ctrnonce
    → did_any_client_already_request s ≡ true
    → (io io' : Io)
    → SharesSession
        (Client.group_state
          (Client.put_state
            (record client { io = io })
            i
            (establish_session c s.current_stk s.current_ctr_nonce now))
          i)
        (Server.group_state (record (Server.put_state server gid s) { io = io' }) gid)
shares client server i gid room room' c s now len key fresh known io io' =
    let session = established_session c s.current_stk s.current_ctr_nonce now len key fresh in
    rw
      (
        get_or-set_self client.group_states i
            (establish_session c s.current_stk s.current_ctr_nonce now) Client.zero_state room,
        get_or-set_self server.group_states gid s Server.zero_state room',
      )
      (record {
        same_key = session.0;
        same_counter = session.1;
        is_established = session.3;
        no_longer_requested = session.2;
        has_receiver = known;
      })
