-- ===== src/Server/Slots/Refinement.antt =====
-- The Server refines the machine of its keys: src/server/hzl_ServerBuildSecuredFd.c,
-- hzl_ServerForceSessionRenewal.c and hzl_ServerProcessReceived.c.
use hazelnet.Base.{ℕ, Bool, List, Option, ◌≤◌, ◌≡◌}
use hazelnet.Message.{CbsPduMsg, RxSduMsg}
use hazelnet.Platform.{Platform}
use hazelnet.Server.{ServerCtx, group_state}
use hazelnet.Server.Build.{server_build_secured_fd, server_force_session_renewal}
use hazelnet.Server.Receive.{server_process_received}
use hazelnet.Server.Slots.{slots, Evolves, Holds, Remains, Evolves-Holds}
use hazelnet.Server.Slots.Operations.{
  AllEvolve, by_state, Refines, unchanged, AllEvolve-trans, build_secured_fd-Refines,
  force_renewal-Refines, receive-Refines,
}

module _ (p : Platform) where
  -- A call of the API between the initialisation and the de-initialisation.
  pub data Call : ServerCtx → ServerCtx → Type 0 where
    build_secured :
        (ctx : ServerCtx) (pdu_null : Bool) (pdu : CbsPduMsg) (user_data : Option (List ℕ))
        (len gid : ℕ)
        → Call ctx (server_build_secured_fd p pdu_null pdu ctx user_data len gid).1
    force_renewal :
        (ctx : ServerCtx) (pdu_null : Bool) (pdu : CbsPduMsg) (gid : ℕ)
        → Call ctx (server_force_session_renewal p pdu_null pdu ctx gid).1
    receive :
        (ctx : ServerCtx) (pdu_null sdu_null : Bool) (pdu : CbsPduMsg) (sdu : RxSduMsg)
        (rx : Option (List ℕ)) (len can_id : ℕ)
        → Call ctx (server_process_received p pdu_null sdu_null pdu sdu ctx rx len can_id).1

  pub data Calls : ServerCtx → ServerCtx → Type 0 where
    none_yet : (ctx : ServerCtx) → Calls ctx ctx
    and_then : {a b c : ServerCtx} → Calls a b → Call b c → Calls a c

  Call-Refines : {a b : ServerCtx} → Call a b → Refines p a b
  Call-Refines (build_secured ctx n pdu text len gid) =
      build_secured_fd-Refines p ctx n pdu text len gid
  Call-Refines (force_renewal ctx n pdu gid) = force_renewal-Refines p ctx n pdu gid
  Call-Refines (receive ctx n m pdu sdu rx len id) = receive-Refines p ctx n m pdu sdu rx len id

  pub Calls-Refines : {a b : ServerCtx} → Calls a b → Refines p a b
  Calls-Refines (none_yet ctx) = unchanged p ctx
  Calls-Refines (and_then calls call) = AllEvolve-trans p (Calls-Refines calls) (Call-Refines call)

  -- However many secured messages the Server builds, renewals it is forced to and messages it
  -- receives, in any order and with any errors: while the random generator is not called, the current
  -- key of every Group stays and its counter nonce does not fall. The previous key stays too, and its
  -- counter nonce does not fall, or it has become the current key with at least the counter nonce
  -- that this had, or it has been erased.
  pub Calls-Holds :
      (a b : ServerCtx)
      → Calls a b
      → b.io.random_calls ≡ a.io.random_calls
      → (gid : ℕ)
      → let s = group_state a gid in
        let s' = group_state b gid in
        (s'.current_stk ≡ s.current_stk)
        × (s.current_ctr_nonce ≤ s'.current_ctr_nonce)
        × Remains (slots a.io.random_calls s) (slots b.io.random_calls s')
  Calls-Holds a b calls same gid = (holds.same_key same, holds.ctr_grows same, holds.remains same)
    where
      evolved :
          AllEvolve p a.io.random_calls a.group_states b.io.random_calls b.group_states
          → Evolves p
              (slots a.io.random_calls (group_state a gid))
              (slots b.io.random_calls (group_state b gid))
      evolved (by_state h f) = f gid

      holds :
          Holds
            (slots a.io.random_calls (group_state a gid))
            (slots b.io.random_calls (group_state b gid))
      holds = Evolves-Holds p (evolved (Calls-Refines calls))
