-- ===== src/Loading/Server/Release.antt =====
-- What loading and freeing a Server leaves on the heap.
use hazelnet.Base.{
  ℕ, ◌+◌, ◌*◌, ◌≡◌, ◌≢◌, Bool, false, arith, List, [], ◌∷◌, ◌++◌, Option, some, none, replicate,
}
use hazelnet.Base.All.{All, All-replicate}
use hazelnet.Server.Init.{server_init}
use hazelnet.Server.Safety.{server_init-Keeps}
use hazelnet.Server.Invariant.{IsWellFormed, zero_state-IsWellFormed}
use hazelnet.Err.{Err, ok, is_ok-ok}
use hazelnet.Loading.Heap.{
  Block, Freed, Heap, IsCleared, calloc, release, secure_free, open_file, owned,
}
use hazelnet.Loading.Server.{
  Sizes, Blocks, Handle, free_blocks, server_free, with_states, with_groups, with_clients,
  with_config, with_ctx, load_server, server_new, load_server_config, load_group_config,
  load_client_config, zero_config, loaded,
}
use hazelnet.Loading.Stream.{load_each, check_magic_number}
use hazelnet.Platform.{Platform, Io}
use hazelnet.Server.{
  ServerConfig, ClientConfig, GroupConfig, ServerCtx, no_config, no_client, zero_state,
}

-- The blocks of a handle, the last allocated first.
abbrev pub held : Handle → List Block
held none = []
held (some h) =
    owned
      (h.0.group_states ∷ h.0.group_configs ∷ h.0.client_configs ∷ h.0.server_config ∷ h.0.ctx ∷ [])

abbrev block_at : ℕ → ℕ → Block
block_at id size = record { id = id; size = size }

-- The blocks of a context with this configuration, allocated from the call `n` on.
abbrev blocks_at : Sizes → ℕ → ServerConfig → Blocks
blocks_at sizes n config = record {
  ctx = some (block_at n (1 * sizes.of_ctx));
  server_config = some (block_at (n + 1) (1 * sizes.of_config));
  client_configs = some (block_at (n + 2) (config.amount_of_clients * sizes.of_client_config));
  group_configs = some (block_at (n + 3) (config.amount_of_groups * sizes.of_group_config));
  group_states = some (block_at (n + 4) (config.amount_of_groups * sizes.of_group_state));
}

-- The blocks of a handle have the sizes that its configuration asks for.
abbrev pub IsAt : Sizes → ℕ → Handle → Type 0
IsAt sizes n none = Unit
IsAt sizes n (some h) = h.0 ≡ blocks_at sizes n h.1.server_config

-- The file is closed, the heap has the blocks of the handle more than before, every freed block was
-- cleared as a whole, and without an error there is a handle.
pub record Releases (sizes : Sizes) (n : ℕ) (live : List Block) (files : ℕ)
    (result : Err × Handle × Heap) : Type 0 where
  pub same_live : result.2.live ≡ held result.1 ++ live
  pub same_files : result.2.open_files ≡ files
  pub sized : IsAt sizes n result.1
  pub cleared : All IsCleared result.2.freed
  pub has_handle : result.0 ≡ ok → result.1 ≢ none

-- `hzl_ServerInit` leaves the configuration of the Server.
pub server_config-server_init :
    (sizes : Sizes) (p : Platform) (works : ℕ → Bool) (config : ServerConfig)
    (clients : List ClientConfig) (groups : List GroupConfig) (io : Io)
    → (server_init p (loaded sizes p works config clients groups io)).1.server_config ≡ config
server_config-server_init sizes p works config clients groups io =
    (server_init-Keeps p (loaded sizes p works config clients groups io) (
      All-replicate IsWellFormed config.amount_of_groups zero_state
        zero_state-IsWellFormed)).same_server

module _ (sizes : Sizes) (p : Platform) (works : ℕ → Bool) (io : Io) (live : List Block)
    (files n : ℕ) where
  abbrev ctx_block : Block
  ctx_block = block_at n (1 * sizes.of_ctx)

  abbrev config_block : Block
  config_block = block_at (n + 1) (1 * sizes.of_config)

  module _ (config : ServerConfig) (clients : List ClientConfig) where
    abbrev clients_block : Block
    clients_block = block_at (n + 2) (config.amount_of_clients * sizes.of_client_config)

    abbrev groups_block : Block
    groups_block = block_at (n + 3) (config.amount_of_groups * sizes.of_group_config)

    with_states-Releases :
        (groups : List GroupConfig) (freed : List Freed)
        → All IsCleared freed
        → Releases sizes n live files (
            with_states sizes p works io
              (record {
                ctx = some ctx_block;
                server_config = some config_block;
                client_configs = some clients_block;
                group_configs = some groups_block;
                group_states = none;
              })
              config
              clients
              groups
              (calloc works config.amount_of_groups sizes.of_group_state (record {
                calls = n + 4;
                live = groups_block ∷ clients_block ∷ config_block ∷ ctx_block ∷ live;
                freed = freed;
                open_files = files + 1;
              })))
    unfolding with_states calloc free_blocks secure_free release
    with_states-Releases groups freed h =
        ground (arith, h, server_config-server_init sizes p works config clients groups io)

    with_groups-Releases :
        (stream : List ℕ) (freed : List Freed)
        → All IsCleared freed
        → Releases sizes n live files (
            with_groups sizes p works io
              (record {
                ctx = some ctx_block;
                server_config = some config_block;
                client_configs = some clients_block;
                group_configs = none;
                group_states = none;
              })
              config
              clients
              stream
              (calloc works config.amount_of_groups sizes.of_group_config (record {
                calls = n + 3;
                live = clients_block ∷ config_block ∷ ctx_block ∷ live;
                freed = freed;
                open_files = files + 1;
              })))
    unfolding with_groups calloc free_blocks secure_free release
    with_groups-Releases stream freed h = ground (
      arith,
      h,
      is_ok-ok,
      with_states-Releases
          (load_each load_group_config (replicate config.amount_of_groups no_config) stream).1 freed
          h,
    )

  with_clients-Releases :
      (config : ServerConfig) (stream : List ℕ) (freed : List Freed)
      → All IsCleared freed
      → Releases sizes n live files (
          with_clients sizes p works io
            (record {
              ctx = some ctx_block;
              server_config = some config_block;
              client_configs = none;
              group_configs = none;
              group_states = none;
            })
            config
            stream
            (calloc works config.amount_of_clients sizes.of_client_config (record {
              calls = n + 2;
              live = config_block ∷ ctx_block ∷ live;
              freed = freed;
              open_files = files + 1;
            })))
  unfolding with_clients calloc free_blocks secure_free release
  with_clients-Releases config stream freed h =
      let clients =
        load_each load_client_config (replicate config.amount_of_clients no_client) stream in
      ground (arith, h, is_ok-ok, with_groups-Releases config clients.1 clients.2 freed h)

  with_config-Releases :
      (stream : List ℕ) (freed : List Freed)
      → All IsCleared freed
      → Releases sizes n live files (
          with_config sizes p works io
            (record {
              ctx = some ctx_block;
              server_config = none;
              client_configs = none;
              group_configs = none;
              group_states = none;
            })
            stream
            (calloc works 1 sizes.of_config (record {
              calls = n + 1;
              live = ctx_block ∷ live;
              freed = freed;
              open_files = files + 1;
            })))
  unfolding with_config calloc free_blocks secure_free release
  with_config-Releases stream freed h =
      let config = load_server_config (zero_config sizes p works) stream in
      ground (arith, h, is_ok-ok, with_clients-Releases config.1 config.2 freed h)

module _ (sizes : Sizes) (p : Platform) (works : ℕ → Bool) (io : Io) where
  load_server-Releases :
      (stream : List ℕ) (heap : Heap)
      → All IsCleared heap.freed
      → Releases sizes heap.calls heap.live heap.open_files
          (load_server sizes p works io stream (open_file heap))
  unfolding load_server with_ctx calloc
  load_server-Releases stream heap h = ground (
    arith,
    h,
    is_ok-ok,
    with_config-Releases sizes p works io heap.live heap.open_files heap.calls
        (check_magic_number 115 stream).1 heap.freed h,
  )

  -- Whatever the file is and whichever allocations fail, `hzl_ServerNew` closes the file. If it
  -- leaves NULL, it freed every block that it allocated; else the blocks of the context, which it
  -- hands over and whose sizes are those that the configuration asks for, are all that the heap has
  -- more than before. A block that it frees was cleared as a whole before, if those freed earlier
  -- were, and HZL_OK comes with a context.
  pub server_new-Releases :
      (null_out null_name : Bool) (file : Option (List ℕ)) (heap : Heap)
      → All IsCleared heap.freed
      → Releases sizes heap.calls heap.live heap.open_files
          (server_new sizes p works null_out null_name file io heap)
  unfolding server_new
  server_new-Releases null_out null_name none heap h = ground (arith, h)
  server_new-Releases null_out null_name (some stream) heap h =
      ground (arith, h, load_server-Releases stream heap h)

  -- `hzl_ServerFree` takes back what `hzl_ServerNew` handed over, whatever became of the rest of the
  -- context, if its configuration is the one that was loaded: the pointer is NULL, the heap has the
  -- blocks that it had before both, and each of the blocks was cleared as a whole before it was freed,
  -- if those freed earlier were.
  pub server_free-server_new :
      (file : List ℕ) (heap : Heap) (blocks : Blocks) (ctx ctx' : ServerCtx)
      → All IsCleared heap.freed
      → (server_new sizes p works false false (some file) io heap).1 ≡ some (blocks, ctx)
      → ctx'.server_config ≡ ctx.server_config
      → let heap' = (server_new sizes p works false false (some file) io heap).2 in
        let (handle, heap'') = server_free sizes (some (blocks, ctx')) heap' in
        (handle ≡ none) × (heap''.live ≡ heap.live) × All IsCleared heap''.freed
  unfolding server_free free_blocks secure_free release
  server_free-server_new file heap blocks ctx ctx' h e same =
      let r = server_new-Releases false false (some file) heap h in
      let sized : blocks ≡ blocks_at sizes heap.calls ctx.server_config = rw e at r.sized in
      let live : (server_new sizes p works false false (some file) io heap).2.live
          ≡ held (some (blocks, ctx)) ++ heap.live =
        rw e at r.same_live in
      ground (arith, r.cleared, sized, live, same)
