-- ===== src/Server/Safety.antt =====
-- The whole API of the Server: no call leaves a Group state malformed or touches the configuration.
use hazelnet.Base.{ℕ, zero, suc, ◌+◌, ◌∙◌, Bool, List, Option, arith}
use hazelnet.Err.{Err, programming}
use hazelnet.Header.{Header, header_unpack}
use hazelnet.Message.{CbsPduMsg, RxSduMsg, zero_pdu, zero_sdu, bytes_of, check_received_generic_msg}
use hazelnet.Platform.{Platform, Io, current_time}
use hazelnet.Server.{ServerCtx, group_state, put_state}
use hazelnet.Server.Init.{start_session, start_sessions_from, start_all_sessions, server_init}
use hazelnet.Server.Receive.{dispatch, server_process_received}
use hazelnet.Server.Invariant.{start_session-IsWellFormed}
use hazelnet.Server.Preservation.{
  AllWellFormed, Keeps, group_state-IsWellFormed, Keeps-refl, Keeps-put, dispatch-Keeps,
}

pub Keeps-trans : {a b c : ServerCtx} → Keeps a b → Keeps b c → Keeps a c
Keeps-trans f g = record {
  same_nulls = g.same_nulls ∙ f.same_nulls;
  same_server = g.same_server ∙ f.same_server;
  same_clients = g.same_clients ∙ f.same_clients;
  same_groups = g.same_groups ∙ f.same_groups;
  same_length = g.same_length ∙ f.same_length;
  well_formed = g.well_formed;
}

module _ (p : Platform) where
  dispatch_later-Keeps :
      (ctx : ServerCtx) (io : Io) (pdu : CbsPduMsg) (sdu : RxSduMsg) (rx : Option (List ℕ))
      (len : ℕ) (hdr : Header) (now : ℕ)
      → AllWellFormed ctx
      → Keeps ctx (dispatch p pdu sdu (record ctx { io = io }) rx len hdr now).1
  dispatch_later-Keeps ctx io pdu sdu rx len hdr now w =
      Keeps-trans (Keeps-refl ctx w io)
        (dispatch-Keeps p (record ctx { io = io }) w pdu sdu rx len hdr now)

  -- For a Server whose Group states are well formed, whatever message arrives, processing it keeps
  -- the Server's configuration, the number of states, and every state well formed: counters of at
  -- most 24 bits and keys of 16 bytes.
  pub process_received-Keeps :
      (ctx : ServerCtx) (pdu_null sdu_null : Bool) (pdu : CbsPduMsg) (sdu : RxSduMsg)
      (rx : Option (List ℕ)) (len can_id : ℕ)
      → AllWellFormed ctx
      → Keeps ctx (server_process_received p pdu_null sdu_null pdu sdu ctx rx len can_id).1
  unfolding server_process_received check_received_generic_msg
  process_received-Keeps ctx pdu_null sdu_null pdu sdu rx len can_id w = ground (
    arith,
    Keeps-refl ctx w ctx.io,
    Keeps-refl ctx w (current_time p ctx.io).2,
    dispatch_later-Keeps ctx (current_time p ctx.io).2 zero_pdu
        (record zero_sdu { can_id = can_id }) rx len
        (header_unpack ctx.server_config.header_type (bytes_of rx len)) (current_time p ctx.io).1 w,
  )

  start_sessions-Keeps :
      (rounds i : ℕ) (err : Err) (ctx : ServerCtx)
      → AllWellFormed ctx
      → Keeps ctx (start_sessions_from p rounds i err ctx).1
  unfolding start_sessions_from
  start_sessions-Keeps zero i err ctx w = Keeps-refl ctx w ctx.io
  start_sessions-Keeps (suc rounds) i err ctx w = ground (
    arith,
    first,
    Keeps-trans first (
        start_sessions-Keeps rounds (i + 1) (start_session p ctx.io (group_state ctx i)).0 ctx'
          first.well_formed),
  )
    where
      ctx' : ServerCtx
      ctx' = record (put_state ctx i (start_session p ctx.io (group_state ctx i)).1) {
        io = (start_session p ctx.io (group_state ctx i)).2;
      }

      first : Keeps ctx ctx'
      first =
          Keeps-put ctx w i _ _
            (start_session-IsWellFormed (group_state-IsWellFormed ctx w i) p ctx.io)

  -- For a Server whose Group states are well formed, `hzl_ServerInit`, whether it succeeds or stops at
  -- an error, keeps the configuration, the number of states, and every state well formed.
  pub server_init-Keeps : (ctx : ServerCtx) → AllWellFormed ctx → Keeps ctx (server_init p ctx).1
  unfolding server_init start_all_sessions
  server_init-Keeps ctx w = ground (
    arith,
    Keeps-refl ctx w ctx.io,
    start_sessions-Keeps ctx.server_config.amount_of_groups 0 programming ctx w,
  )
