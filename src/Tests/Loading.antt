-- ===== src/Tests/Loading.antt =====
-- Configuration files, the clock, randomness and messages at concrete inputs.
use hazelnet.Base.{
  ℕ, ◌+◌, ◌-◌, ◌*◌, ◌/◌, ◌^◌, ◌≤◌, ◌<◌, ◌≡◌, ◌≢◌, ◌↔◌, refl, Bool, true, false, arith, List, [],
  ◌∷◌, length, take, drop, replicate, some, none, ltb,
}
use hazelnet.Base.All.{All}
use hazelnet.Endian.{encode_le16, encode_le32, decode_le16, decode_le32}
use hazelnet.Err.{ok, is_ok}
use hazelnet.Loading.Stream.{
  check_magic_number, load_bytes, load_fields, load_uint8, load_each, load_uint32_le,
  load_uint16_le,
}
use hazelnet.Utils.{zero_out}
use hazelnet.Loading.Heap.{Heap, IsCleared, calloc}
use hazelnet.Loading.Server as ServerNew
use hazelnet.Loading.Server.Release.{Releases, server_new-Releases, server_free-server_new}
use hazelnet.Loading.Server.RoundTrip.{server_file, context_of, server_new-server_file}
use hazelnet.Loading.Server.Truncated.{server_new_reads}
use hazelnet.Loading.Client as ClientNew
use hazelnet.Loading.Client.Release as ClientRelease
use hazelnet.Loading.Client.RoundTrip as ClientRoundTrip
use hazelnet.Os.Clock.{current_time_unix, current_time_windows, millis_of, time_delta-current_time}
use hazelnet.Os.Random.{trng_unix, trng_unix-fills}
use hazelnet.Os.Messages.{
  server_new_msg, server_free_msg, client_new_msg, client_free_msg, free_msg-new_msg,
}
use hazelnet.Server.{ServerCtx}
use hazelnet.Server.Init.{server_init}
use hazelnet.Client.{ClientCtx}
use hazelnet.Timing.{time_delta}
use hazelnet.Tests.Toy.{toy, no_calls}
use hazelnet.Tests.Servers.{two_clients}
use hazelnet.Tests.Clients.{one_group}

abbrev sizes : ServerNew.Sizes
sizes = record {
  of_ctx = 48;
  of_config = 3;
  of_client_config = 17;
  of_group_config = 24;
  of_group_state = 52;
}

abbrev client_sizes : ClientNew.Sizes
client_sizes = record { of_ctx = 40; of_config = 22; of_group_config = 12; of_group_state = 64 }

-- A heap with one block and an open file of another part of the program.
abbrev heap : Heap
heap = record { calls = 7; live = record { id = 3; size = 10 } ∷ []; freed = []; open_files = 1 }

-- The memory lasts for three more allocations.
abbrev scarce : ℕ → Bool
scarce n = ltb n 10

abbrev plenty : ℕ → Bool
plenty n = true

abbrev file : List ℕ
file = server_file 0 two_clients.client_configs two_clients.group_configs (5 ∷ [])

server_new-Releases_example :
    Releases sizes 7
      (record { id = 3; size = 10 } ∷ [])
      1
      (ServerNew.server_new sizes toy scarce false false (some file) no_calls heap)
server_new-Releases_example =
    server_new-Releases sizes toy scarce no_calls false false (some file) heap tt

server_new-server_file_example :
    let result = ServerNew.server_new sizes toy plenty false false (some file) no_calls heap in
    let init = server_init toy (
      ServerNew.loaded sizes toy plenty two_clients.server_config two_clients.client_configs
        two_clients.group_configs no_calls) in
    (result.0 ≡ init.0) × (context_of result.1 ≡ some init.1)
server_new-server_file_example =
    server_new-server_file sizes toy plenty (λ n. refl) no_calls 0 two_clients.client_configs
      (refl, (refl, tt)) two_clients.group_configs (omega arith, tt) (5 ∷ []) heap

abbrev blocks : ServerNew.Blocks
blocks = record {
  ctx = some (record { id = 7; size = 48 });
  server_config = some (record { id = 8; size = 3 });
  client_configs = some (record { id = 9; size = 34 });
  group_configs = some (record { id = 10; size = 24 });
  group_states = some (record { id = 11; size = 52 });
}

abbrev started : ServerCtx
started =
    (server_init toy (
      ServerNew.loaded sizes toy plenty two_clients.server_config two_clients.client_configs
        two_clients.group_configs no_calls)).1

new_server :
    (ServerNew.server_new sizes toy plenty false false (some file) no_calls heap).1
    ≡ some (blocks, started)
unfolding ServerNew.server_new ServerNew.load_server is_ok check_magic_number load_bytes
    ServerNew.with_ctx calloc ServerNew.with_config ServerNew.load_server_config load_fields
    load_uint8 ServerNew.with_clients load_each ServerNew.load_client_config ServerNew.with_groups
    ServerNew.load_group_config load_uint32_le load_uint16_le decode_le16 decode_le32 encode_le16
    encode_le32 ServerNew.with_states zero_out
new_server = refl

server_free-server_new_example :
    let heap' = (ServerNew.server_new sizes toy plenty false false (some file) no_calls heap).2 in
    let (handle, heap'') = ServerNew.server_free sizes (some (blocks, started)) heap' in
    (handle ≡ none) × (heap''.live ≡ heap.live) × All IsCleared heap''.freed
server_free-server_new_example =
    server_free-server_new sizes toy plenty no_calls file heap blocks started started tt new_server
      refl

server_new_reads_example :
    (take 5 file ≡ 72 ∷ 90 ∷ 76 ∷ 115 ∷ 0 ∷ [])
    × (8
          + (17 * started.server_config.amount_of_clients
              + 24 * started.server_config.amount_of_groups)
        ≤ length file)
server_new_reads_example =
    server_new_reads sizes toy plenty no_calls file heap blocks started new_server

abbrev client_file : List ℕ
client_file = ClientRoundTrip.client_file one_group.client_config one_group.group_configs []

client_new-Releases_example :
    ClientRelease.Releases client_sizes 7
      (record { id = 3; size = 10 } ∷ [])
      1
      (ClientNew.client_new client_sizes scarce false false (some client_file) no_calls heap)
client_new-Releases_example =
    ClientRelease.client_new-Releases client_sizes scarce no_calls false false (some client_file)
      heap tt

abbrev client_blocks : ClientNew.Blocks
client_blocks = record {
  ctx = some (record { id = 7; size = 40 });
  client_config = some (record { id = 8; size = 22 });
  group_configs = some (record { id = 9; size = 12 });
  group_states = some (record { id = 10; size = 64 });
}

abbrev loaded_client : ClientCtx
loaded_client = ClientNew.loaded one_group.client_config one_group.group_configs no_calls

new_client :
    (ClientNew.client_new client_sizes plenty false false (some client_file) no_calls heap).1
    ≡ some (client_blocks, loaded_client)
unfolding ClientNew.client_new ClientNew.load_client is_ok check_magic_number load_bytes
    ClientNew.with_ctx calloc ClientNew.with_config ClientNew.load_client_config load_fields
    load_uint8 ClientNew.with_groups load_each ClientNew.load_group_config load_uint32_le
    load_uint16_le decode_le16 decode_le32 encode_le16 encode_le32 ClientNew.with_states zero_out
new_client = refl

client_free-client_new_example :
    let heap' =
      (ClientNew.client_new client_sizes plenty false false (some client_file) no_calls heap).2 in
    let (handle, heap'') =
      ClientNew.client_free client_sizes (some (client_blocks, one_group)) heap' in
    (handle ≡ none) × (heap''.live ≡ heap.live) × All IsCleared heap''.freed
client_free-client_new_example =
    ClientRelease.client_free-client_new client_sizes plenty no_calls client_file heap client_blocks
      loaded_client one_group tt new_client refl

-- The Unix timestamps roll over between the two instants.
time_delta-current_time_example :
    let ticks = 100 * 2 ^ 32 + 5 in
    let ticks' = 100 * 2 ^ 32 + 70005 in
    (millis_of 4294967 200000 ≤ millis_of 4294968 1000
      → millis_of 4294968 1000 < millis_of 4294967 200000 + 2 ^ 32
      → time_delta
          (current_time_unix (some (4294967, 200000)) 0).1
          (current_time_unix (some (4294968, 1000)) 0).1
        ≡ millis_of 4294968 1000 - millis_of 4294967 200000)
    × (ticks / 10000 ≤ ticks' / 10000
        → ticks' / 10000 < ticks / 10000 + 2 ^ 32
        → time_delta (current_time_windows 100 5).1 (current_time_windows 100 70005).1
          ≡ ticks' / 10000 - ticks / 10000)
time_delta-current_time_example =
    time_delta-current_time 4294967 200000 4294968 1000 0 0 (omega arith) (omega arith) 100 5 100
      70005

trng_unix-fills_example :
    let (err, filled) = trng_unix (some (1 ∷ 2 ∷ 3 ∷ [])) (replicate 4 0) 2 in
    ((err ≡ ok) ↔ (2 ≤ 3))
    × (err ≡ ok → take 2 filled ≡ 1 ∷ 2 ∷ [])
    × (drop 2 filled ≡ 0 ∷ 0 ∷ [])
    × (3 < 2 → (err ≢ ok) × (take 3 filled ≡ 1 ∷ 2 ∷ 3 ∷ []))
trng_unix-fills_example = trng_unix-fills (1 ∷ 2 ∷ 3 ∷ []) (replicate 4 0) 2 (omega arith)

free_msg-new_msg_example :
    let (err, msg, heap') = server_new_msg plenty 72 false heap in
    let heap'' = (server_free_msg plenty 72 msg heap').1 in
    (heap''.live ≡ heap.live)
    × All IsCleared heap''.freed
    × ((err ≡ ok) ↔ (msg ≢ none))
    × (client_new_msg plenty 72 false heap ≡ (err, msg, heap'))
    × ((client_free_msg plenty 72 msg heap').1 ≡ heap'')
free_msg-new_msg_example = free_msg-new_msg plenty 72 false heap tt
