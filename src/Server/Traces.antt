-- ===== src/Server/Traces.antt =====
-- Any sequence of calls of the Server's API, as steps of a relation on contexts.
use hazelnet.Base.{
  ℕ, ◌≤◌, refl, Bool, List, Option, arith, length, replicate, drop, ◌++◌, length-append,
  length-replicate, length-drop,
}
use hazelnet.Base.All.{All-append, All-replicate, All-drop}
use hazelnet.Message.{CbsPduMsg, RxSduMsg}
use hazelnet.Platform.{Platform}
use hazelnet.Server.{ServerCtx, zero_state}
use hazelnet.Server.Build.{server_build_secured_fd, server_force_session_renewal}
use hazelnet.Server.Init.{server_init, server_de_init}
use hazelnet.Server.Invariant.{IsWellFormed, zero_state-IsWellFormed}
use hazelnet.Server.Preservation.{
  AllWellFormed, Keeps, Keeps-refl, build_secured_fd-Keeps, force_session_renewal-Keeps,
}
use hazelnet.Server.Receive.{server_process_received}
use hazelnet.Server.Safety.{Keeps-trans, process_received-Keeps, server_init-Keeps}

-- One call of the API that may change the context, with any arguments and any result.
pub data Step (p : Platform) : ServerCtx → ServerCtx → Type 0 where
  initialise : (ctx : ServerCtx) → Step p ctx (server_init p ctx).1
  de_initialise :
      (ctx : ServerCtx)
      → ctx.server_config.amount_of_groups ≤ length ctx.group_states
      → Step p ctx (server_de_init ctx).1
  build_secured :
      (ctx : ServerCtx) (pdu_null : Bool) (pdu : CbsPduMsg) (user_data : Option (List ℕ))
      (len gid : ℕ)
      → Step p ctx (server_build_secured_fd p pdu_null pdu ctx user_data len gid).1
  force_renewal :
      (ctx : ServerCtx) (pdu_null : Bool) (pdu : CbsPduMsg) (gid : ℕ)
      → Step p ctx (server_force_session_renewal p pdu_null pdu ctx gid).1
  receive :
      (ctx : ServerCtx) (pdu_null sdu_null : Bool) (pdu : CbsPduMsg) (sdu : RxSduMsg)
      (rx : Option (List ℕ)) (len can_id : ℕ)
      → Step p ctx (server_process_received p pdu_null sdu_null pdu sdu ctx rx len can_id).1

pub data Reaches (p : Platform) : ServerCtx → ServerCtx → Type 0 where
  nothing : (ctx : ServerCtx) → Reaches p ctx ctx
  then : {a b c : ServerCtx} → Reaches p a b → Step p b c → Reaches p a c

de_init-Keeps :
    (ctx : ServerCtx)
    → ctx.server_config.amount_of_groups ≤ length ctx.group_states
    → AllWellFormed ctx
    → Keeps ctx (server_de_init ctx).1
unfolding server_de_init
de_init-Keeps ctx room w = ground (arith, Keeps-refl ctx w ctx.io, cleared)
  where
    n : ℕ
    n = ctx.server_config.amount_of_groups

    cleared :
        Keeps ctx (record ctx { group_states = replicate n zero_state ++ drop n ctx.group_states })
    cleared = record {
      same_nulls = refl;
      same_server = refl;
      same_clients = refl;
      same_groups = refl;
      same_length = omega (
        arith,
        room,
        length-append (replicate n zero_state) (drop n ctx.group_states),
        length-replicate n zero_state,
        length-drop n ctx.group_states,
      );
      well_formed =
          All-append IsWellFormed (replicate n zero_state) (drop n ctx.group_states)
            (All-replicate IsWellFormed n zero_state zero_state-IsWellFormed)
            (All-drop IsWellFormed n ctx.group_states w);
    }

Step-Keeps : (p : Platform) {a b : ServerCtx} → Step p a b → AllWellFormed a → Keeps a b
Step-Keeps p (initialise ctx) w = server_init-Keeps p ctx w
Step-Keeps p (de_initialise ctx room) w = de_init-Keeps ctx room w
Step-Keeps p (build_secured ctx pdu_null pdu user_data len gid) w =
    build_secured_fd-Keeps p ctx w pdu_null pdu user_data len gid
Step-Keeps p (force_renewal ctx pdu_null pdu gid) w =
    force_session_renewal-Keeps p ctx w pdu_null pdu gid
Step-Keeps p (receive ctx pdu_null sdu_null pdu sdu rx len can_id) w =
    process_received-Keeps p ctx pdu_null sdu_null pdu sdu rx len can_id w

-- Whatever calls of the Server's API are made, in any order, with any arguments, messages, clock and
-- random bytes, from a context whose Group states are well formed: the configuration and the number
-- of states stay, and every state is well formed (counters of at most 24 bits and keys of 16
-- bytes). De-initialisation is called only with memory for every configured Group.
pub Reaches-Keeps : (p : Platform) {a b : ServerCtx} → Reaches p a b → AllWellFormed a → Keeps a b
Reaches-Keeps p (nothing ctx) w = Keeps-refl ctx w ctx.io
Reaches-Keeps p (then {a} {b} {c} before step) w =
    let sofar : Keeps a b = Reaches-Keeps p before w in
    Keeps-trans sofar (Step-Keeps p step sofar.well_formed)
