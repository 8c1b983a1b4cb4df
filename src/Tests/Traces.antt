-- ===== src/Tests/Traces.antt =====
-- A Request that the Server answers, and a sequence of calls.
use hazelnet.Base.{ℕ, ◌≡◌, ◌≢◌, ◌⊎◌, false, List, [], ◌∷◌, ◌++◌, replicate, some}
use hazelnet.Err.{ok}
use hazelnet.Header.{Header}
use hazelnet.Message.{zero_pdu, zero_sdu}
use hazelnet.Server.{ServerCtx, group_state, put_state}
use hazelnet.Server.Group.{update_current_rx_last_message_instant}
use hazelnet.Server.Init.{server_init}
use hazelnet.Server.Preservation.{Keeps}
use hazelnet.Server.Receive.{server_process_received}
use hazelnet.Server.Request.{process_received_request}
use hazelnet.Server.Request.Authentic.{Checked, process_received_request_cases}
use hazelnet.Server.Traces.{Reaches, Step, Reaches-Keeps}
use hazelnet.Tests.Servers.{two_clients, two_clients-AllWellFormed}
use hazelnet.Tests.Toy.{toy}

abbrev request : Header
request = record { gid = 0; sid = 1; pty = 2 }

-- Header, nonce and tag.
abbrev request_bytes : List ℕ
request_bytes =
    (0 ∷ 1 ∷ 2 ∷ [])
    ++ (replicate 8 7 ++ (replicate 8 7 ++ (2 ∷ 1 ∷ 0 ∷ 99 ∷ 98 ∷ 115 ∷ 95 ∷ 114 ∷ [])))

process_received_request_cases_example :
    let result = process_received_request toy zero_pdu two_clients request_bytes 27 request 100 in
    ((result.1 ≡ two_clients) × (result.0 ≢ ok))
    ⊎ (Checked toy two_clients request_bytes 27 request
        × (result.1
            ≡ record (put_state two_clients 0
                (update_current_rx_last_message_instant 100 (group_state two_clients 0))) {
                  io = result.1.io;
                }))
process_received_request_cases_example =
    process_received_request_cases toy zero_pdu two_clients request_bytes 27 request 100

abbrev begun : ServerCtx
begun = (server_init toy two_clients).1

abbrev answered : ServerCtx
answered =
    (server_process_received toy false false zero_pdu zero_sdu begun (some request_bytes) 27 5).1

first_calls : Reaches toy two_clients answered
first_calls =
    Reaches.then (Reaches.then (Reaches.nothing two_clients) (Step.initialise two_clients))
      (Step.receive begun false false zero_pdu zero_sdu (some request_bytes) 27 5)

Reaches-Keeps_example : Keeps two_clients answered
Reaches-Keeps_example = Reaches-Keeps toy first_calls two_clients-AllWellFormed

abbrev data_header : Header
data_header = record { gid = 0; sid = 1; pty = 4 }

-- Header, counter nonce 3, one byte of user data and a tag that is wrong.
abbrev data_bytes : List ℕ
data_bytes = (0 ∷ 1 ∷ 4 ∷ 3 ∷ 0 ∷ 0 ∷ 1 ∷ 33 ∷ []) ++ replicate 8 0
