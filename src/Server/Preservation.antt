-- ===== src/Server/Preservation.antt =====
-- Every function of the API keeps the configuration and the invariant of all Group states.
use hazelnet.Base.{ℕ, ◌+◌, ◌<◌, ◌≡◌, refl, Bool, List, Option, arith, length, length-set}
use hazelnet.Base.All.{All, All-set, All-get_or}
use hazelnet.Base.{slice}
use hazelnet.Endian.{decode_le24}
use hazelnet.Payload.{sadfd_ctrnonce_idx, sadfd_ctrnonce_len}
use hazelnet.Err.{is_ok_iff}
use hazelnet.Header.{Header, header_len}
use hazelnet.Message.{CbsPduMsg, RxSduMsg, bytes_of}
use hazelnet.Platform.{Platform, Io}
use hazelnet.Server.{GroupState, ServerCtx, group_state, group_config, put_state, zero_state}
use hazelnet.Server.Group.{check_rx_ctrnonce}
use hazelnet.Server.Build.{build_msg_sadfd, server_build_secured_fd, server_force_session_renewal}
use hazelnet.Server.Renewal.{renewal_phase_exit_if_needed, renewal_phase_enter, build_msg_renewal}
use hazelnet.Server.Request.{process_received_request}
use hazelnet.Server.SecuredFd.{accept_secured_fd, process_received_secured_fd}
use hazelnet.Server.Receive.{dispatch}
use hazelnet.Server.Invariant.{
  IsWellFormed, zero_state-IsWellFormed, incr_current_ctrnonce-IsWellFormed,
  incr_previous_ctrnonce-IsWellFormed, update_current_rx-IsWellFormed, update_ctrnonce-IsWellFormed,
  renewal_phase_exit_if_needed-IsWellFormed, renewal_phase_enter-IsWellFormed, check_rx_ctrnonce_ok,
  enter_if_needed-IsWellFormed,
}

abbrev pub AllWellFormed : ServerCtx → Type 0
AllWellFormed ctx = All IsWellFormed ctx.group_states

-- What a call leaves: the same configuration, as many states, all of them well formed.
pub record Keeps (ctx ctx' : ServerCtx) : Type 0 where
  pub same_nulls : ctx'.nulls ≡ ctx.nulls
  pub same_server : ctx'.server_config ≡ ctx.server_config
  pub same_clients : ctx'.client_configs ≡ ctx.client_configs
  pub same_groups : ctx'.group_configs ≡ ctx.group_configs
  pub same_length : length ctx'.group_states ≡ length ctx.group_states
  pub well_formed : AllWellFormed ctx'

module _ (ctx : ServerCtx) (w : AllWellFormed ctx) where
  pub group_state-IsWellFormed : (gid : ℕ) → IsWellFormed (group_state ctx gid)
  group_state-IsWellFormed gid =
      All-get_or IsWellFormed ctx.group_states gid zero_state w zero_state-IsWellFormed

  pub Keeps-refl : (io : Io) → Keeps ctx (record ctx { io = io })
  Keeps-refl io = record {
    same_nulls = refl;
    same_server = refl;
    same_clients = refl;
    same_groups = refl;
    same_length = refl;
    well_formed = w;
  }

  pub Keeps-put :
      (gid : ℕ) (s : GroupState) (io : Io)
      → IsWellFormed s
      → Keeps ctx (record (put_state ctx gid s) { io = io })
  Keeps-put gid s io ws = record {
    same_nulls = refl;
    same_server = refl;
    same_clients = refl;
    same_groups = refl;
    same_length = length-set ctx.group_states gid s;
    well_formed = All-set IsWellFormed ctx.group_states gid s w ws;
  }

module _ (p : Platform) (ctx : ServerCtx) (w : AllWellFormed ctx) where
  pub build_secured_fd-Keeps :
      (pdu_null : Bool) (pdu : CbsPduMsg) (user_data : Option (List ℕ)) (len gid : ℕ)
      → Keeps ctx (server_build_secured_fd p pdu_null pdu ctx user_data len gid).1
  unfolding server_build_secured_fd build_msg_sadfd
  build_secured_fd-Keeps pdu_null pdu user_data len gid = ground (
    arith,
    Keeps-refl ctx w ctx.io,
    Keeps-put ctx w gid _ ctx.io
        (incr_current_ctrnonce-IsWellFormed (group_state-IsWellFormed ctx w gid)),
  )

  -- For a Server whose Group states are well formed, a forced renewal of any Group, whether it
  -- succeeds or returns an error, keeps the configuration, the number of states, and every state
  -- well formed: counters of at most 24 bits and keys of 16 bytes.
  pub force_session_renewal-Keeps :
      (pdu_null : Bool) (pdu : CbsPduMsg) (gid : ℕ)
      → Keeps ctx (server_force_session_renewal p pdu_null pdu ctx gid).1
  unfolding server_force_session_renewal build_msg_renewal
  force_session_renewal-Keeps pdu_null pdu gid = ground (
    arith,
    Keeps-refl ctx w ctx.io,
    Keeps-put ctx w gid _ ctx.io (incr_previous_ctrnonce-IsWellFormed ws),
    Keeps-put ctx w gid _ io' entered,
    Keeps-put ctx' w' gid _ io' (incr_previous_ctrnonce-IsWellFormed entered),
  )
    where
      ws : IsWellFormed (group_state ctx gid)
      ws = group_state-IsWellFormed ctx w gid

      entered : IsWellFormed (renewal_phase_enter p ctx.io (group_state ctx gid)).1
      entered = renewal_phase_enter-IsWellFormed ws p ctx.io

      io' : Io
      io' = (renewal_phase_enter p ctx.io (group_state ctx gid)).2

      ctx' : ServerCtx
      ctx' = record (put_state ctx gid (renewal_phase_enter p ctx.io (group_state ctx gid)).1) {
        io = io';
      }

      w' : AllWellFormed ctx'
      w' = (Keeps-put ctx w gid _ io' entered).well_formed

  process_received_request-Keeps :
      (pdu : CbsPduMsg) (rx : List ℕ) (len : ℕ) (hdr : Header) (now : ℕ)
      → Keeps ctx (process_received_request p pdu ctx rx len hdr now).1
  unfolding process_received_request
  process_received_request-Keeps pdu rx len hdr now = ground (
    arith,
    Keeps-refl ctx w ctx.io,
    Keeps-put ctx w hdr.gid _ ctx.io
        (update_current_rx-IsWellFormed (group_state-IsWellFormed ctx w hdr.gid) now),
  )

  accept_secured_fd-Keeps :
      (pdu : CbsPduMsg) (sdu : RxSduMsg) (rx : List ℕ) (len : ℕ) (hdr : Header) (now : ℕ)
      (s : GroupState) (r : ℕ) (previous : Bool)
      → IsWellFormed s
      → r < 0xff_ffff
      → Keeps ctx (accept_secured_fd p pdu sdu ctx rx len hdr now s r previous).1
  unfolding accept_secured_fd
  accept_secured_fd-Keeps pdu sdu rx len hdr now s r previous ws hr = ground (
    arith,
    Keeps-put ctx w hdr.gid s ctx.io ws,
    Keeps-put ctx w hdr.gid _ ctx.io (
        enter_if_needed-IsWellFormed p ctx.server_config.header_type hdr.gid
          (group_config ctx hdr.gid) now ctx.io _ pdu
          (update_ctrnonce-IsWellFormed ws r now previous hr)),
  )

  secured_fd-Keeps :
      (pdu : CbsPduMsg) (sdu : RxSduMsg) (rx : List ℕ) (len : ℕ) (hdr : Header) (now : ℕ)
      → Keeps ctx (process_received_secured_fd p pdu sdu ctx rx len hdr now).1
  unfolding process_received_secured_fd
  secured_fd-Keeps pdu sdu rx len hdr now = ground (
    arith,
    Keeps-refl ctx w ctx.io,
    Keeps-put ctx w hdr.gid exited ctx.io exited-ws,
    accept_secured_fd-Keeps pdu sdu rx len hdr now exited r
        (check_rx_ctrnonce p (group_config ctx hdr.gid) exited r now).1 exited-ws,
    is_ok_iff (check_rx_ctrnonce p (group_config ctx hdr.gid) exited r now).0,
    check_rx_ctrnonce_ok p (group_config ctx hdr.gid) exited r now,
  )
    where
      exited : GroupState
      exited = renewal_phase_exit_if_needed (group_config ctx hdr.gid) (group_state ctx hdr.gid) now

      exited-ws : IsWellFormed exited
      exited-ws =
          renewal_phase_exit_if_needed-IsWellFormed (group_state-IsWellFormed ctx w hdr.gid)
            (group_config ctx hdr.gid) now

      r : ℕ
      r = decode_le24 (
          slice (header_len ctx.server_config.header_type + sadfd_ctrnonce_idx) sadfd_ctrnonce_len
            rx)

  pub dispatch-Keeps :
      (pdu : CbsPduMsg) (sdu : RxSduMsg) (rx : Option (List ℕ)) (len : ℕ) (hdr : Header) (now : ℕ)
      → Keeps ctx (dispatch p pdu sdu ctx rx len hdr now).1
  unfolding dispatch
  dispatch-Keeps pdu sdu rx len hdr now = ground (
    arith,
    Keeps-refl ctx w ctx.io,
    process_received_request-Keeps pdu (bytes_of rx len) len hdr now,
    secured_fd-Keeps pdu sdu (bytes_of rx len) len hdr now,
  )
