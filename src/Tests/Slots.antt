-- ===== src/Tests/Slots.antt =====
-- The keys of a Server over a message that it sends, a forced renewal and a message that it receives.
use hazelnet.Base.{◌≤◌, ◌≡◌, refl, false, [], ◌∷◌, some}
use hazelnet.Err.{is_ok}
use hazelnet.Header.{header_len, header_type_max_gid}
use hazelnet.Message.{zero_pdu, zero_sdu, check_msg_before_packing, max_data_len}
use hazelnet.Server.{ServerCtx, group_state, check_ctx_pointers}
use hazelnet.Server.Build.{server_build_secured_fd, server_force_session_renewal, build_msg_sadfd}
use hazelnet.Server.Group.{did_any_client_already_request}
use hazelnet.Server.Receive.{server_process_received}
use hazelnet.Server.Slots.{Remains, slots}
use hazelnet.Server.Slots.Refinement.{Calls, none_yet, and_then, build_secured, Calls-Holds}
use hazelnet.Tests.Toy.{toy}
use hazelnet.Tests.Channel.{server}

abbrev sent : ServerCtx
sent = (server_build_secured_fd toy false zero_pdu server (some (104 ∷ 105 ∷ [])) 2 0).1

abbrev renewed : ServerCtx
renewed = (server_force_session_renewal toy false zero_pdu sent 0).1

abbrev heard : ServerCtx
heard =
    (server_process_received toy false false zero_pdu zero_sdu renewed (some (0 ∷ 1 ∷ 4 ∷ 42 ∷ []))
      4 77).1

sends : Calls toy server sent
sends = and_then (none_yet server) (build_secured server false zero_pdu (some (104 ∷ 105 ∷ [])) 2 0)

no_draw : sent.io.random_calls ≡ server.io.random_calls
unfolding server_build_secured_fd check_ctx_pointers check_msg_before_packing max_data_len
    header_len header_type_max_gid did_any_client_already_request build_msg_sadfd is_ok
no_draw = refl

Calls-Holds_example :
    ((group_state sent 0).current_stk ≡ (group_state server 0).current_stk)
    × ((group_state server 0).current_ctr_nonce ≤ (group_state sent 0).current_ctr_nonce)
    × Remains
        (slots server.io.random_calls (group_state server 0))
        (slots sent.io.random_calls (group_state sent 0))
Calls-Holds_example = Calls-Holds toy server sent sends no_draw 0
