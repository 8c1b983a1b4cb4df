-- ===== src/Loading/Server/Truncated.antt =====
-- Files that hzl_ServerNew does not accept.
use hazelnet.Base.{
  ℕ, ◌+◌, ◌*◌, ◌≤◌, ◌≡◌, Bool, false, arith, List, [], ◌∷◌, length, length-replicate, take,
  replicate, Option, some, none,
}
use hazelnet.Err.{is_ok_iff}
use hazelnet.Loading.Heap.{Block, Heap, calloc, open_file}
use hazelnet.Loading.Stream.{load_each, check_magic_number}
use hazelnet.Loading.Consumed.{
  load_bytes_consumes, load_uint32_le_consumes, load_uint16_le_consumes, load_uint8_consumes,
  Consumes, fields_end, field_first, load_each-Consumes, check_magic_number_consumes,
}
use hazelnet.Loading.Server.{
  Sizes, Blocks, Handle, load_server_config, load_client_config, load_group_config, zero_config,
  with_states, with_groups, with_clients, with_config, with_ctx, load_server, server_new,
}
use hazelnet.Loading.Server.Release.{server_config-server_init}
use hazelnet.Platform.{Platform, Io}
use hazelnet.Server.{ServerConfig, ClientConfig, ServerCtx, no_client, no_config}

load_server_config-Consumes : Consumes load_server_config 3
unfolding load_server_config
load_server_config-Consumes =
    field_first (record { reads = λ c stream h. load_uint8_consumes c.amount_of_groups stream h }) _
      (field_first
        (record { reads = λ c stream h. load_uint8_consumes c.amount_of_clients stream h }) _
        (field_first (record { reads = λ c stream h. load_uint8_consumes c.header_type stream h }) _
          fields_end))

load_client_config-Consumes : Consumes load_client_config 17
unfolding load_client_config
load_client_config-Consumes =
    field_first (record { reads = λ c stream h. load_uint8_consumes c.sid stream h }) _
      (field_first (record { reads = λ c stream h. load_bytes_consumes c.ltk 16 stream h }) _
        fields_end)

load_group_config-Consumes : Consumes load_group_config 24
unfolding load_group_config
load_group_config-Consumes =
    field_first (record { reads = λ c stream h. load_uint32_le_consumes stream h }) _
      (field_first (record { reads = λ c stream h. load_uint32_le_consumes stream h }) _
        (field_first (record { reads = λ c stream h. load_uint32_le_consumes stream h }) _
          (field_first (record { reads = λ c stream h. load_uint32_le_consumes stream h }) _
            (field_first (record { reads = λ c stream h. load_uint32_le_consumes stream h }) _
              (field_first (record { reads = λ c stream h. load_uint16_le_consumes stream h }) _
                (field_first (record { reads = λ c stream h. load_uint8_consumes c.gid stream h }) _
                  (field_first
                    (record { reads = λ c stream h. load_bytes_consumes (0 ∷ []) 1 stream h }) _
                    fields_end)))))))

-- A context is only made from at least `read` bytes and what its Clients and Groups take.
abbrev Needs : ℕ → ℕ → Handle → Type 0
Needs read len none = Unit
Needs read len (some h) =
    read + (17 * h.1.server_config.amount_of_clients + 24 * h.1.server_config.amount_of_groups)
    ≤ len

module _ (sizes : Sizes) (p : Platform) (works : ℕ → Bool) (io : Io) where
  with_groups_reads :
      (blocks : Blocks) (config : ServerConfig) (clients : List ClientConfig) (stream : List ℕ)
      (got : Option Block × Heap)
      → (blocks' : Blocks) (ctx : ServerCtx)
      → (with_groups sizes p works io blocks config clients stream got).1 ≡ some (blocks', ctx)
      → (ctx.server_config ≡ config) × (24 * config.amount_of_groups ≤ length stream)
  unfolding with_groups with_states calloc
  with_groups_reads blocks config clients stream (none, heap) blocks' ctx e =
      absurd (ground (arith, e))
  with_groups_reads blocks config clients stream (some block, heap) blocks' ctx e =
      let groups =
        load_each load_group_config (replicate config.amount_of_groups no_config) stream in
      ground (
        arith,
        e,
        is_ok_iff groups.0,
        server_config-server_init sizes p works config clients groups.1 io,
        load_each-Consumes load_group_config-Consumes (replicate config.amount_of_groups no_config)
            stream,
        length-replicate config.amount_of_groups no_config,
      )

  with_clients_reads :
      (blocks : Blocks) (config : ServerConfig) (stream : List ℕ) (got : Option Block × Heap)
      → (blocks' : Blocks) (ctx : ServerCtx)
      → (with_clients sizes p works io blocks config stream got).1 ≡ some (blocks', ctx)
      → (ctx.server_config ≡ config)
        × (17 * config.amount_of_clients + 24 * config.amount_of_groups ≤ length stream)
  unfolding with_clients
  with_clients_reads blocks config stream (none, heap) blocks' ctx e = absurd (ground (arith, e))
  with_clients_reads blocks config stream (some block, heap) blocks' ctx e =
      let clients =
        load_each load_client_config (replicate config.amount_of_clients no_client) stream in
      ground (
        arith,
        e,
        is_ok_iff clients.0,
        with_groups_reads (record blocks { client_configs = some block }) config clients.1 clients.2
            (calloc works config.amount_of_groups sizes.of_group_config heap) blocks' ctx,
        load_each-Consumes load_client_config-Consumes
            (replicate config.amount_of_clients no_client) stream,
        length-replicate config.amount_of_clients no_client,
      )

  with_config_reads :
      (blocks : Blocks) (stream : List ℕ) (got : Option Block × Heap)
      → (blocks' : Blocks) (ctx : ServerCtx)
      → (with_config sizes p works io blocks stream got).1 ≡ some (blocks', ctx)
      → 3 + (17 * ctx.server_config.amount_of_clients + 24 * ctx.server_config.amount_of_groups)
        ≤ length stream
  unfolding with_config
  with_config_reads blocks stream (none, heap) blocks' ctx e = absurd (ground (arith, e))
  with_config_reads blocks stream (some block, heap) blocks' ctx e =
      let start = zero_config sizes p works in
      let config = load_server_config start stream in
      ground (
        arith,
        e,
        is_ok_iff config.0,
        with_clients_reads (record blocks { server_config = some block }) config.1 config.2
            (calloc works config.1.amount_of_clients sizes.of_client_config heap) blocks' ctx,
        load_server_config-Consumes.reads start stream,
      )

  with_ctx_reads :
      (stream : List ℕ) (got : Option Block × Heap) (blocks : Blocks) (ctx : ServerCtx)
      → (with_ctx sizes p works io stream got).1 ≡ some (blocks, ctx)
      → 3 + (17 * ctx.server_config.amount_of_clients + 24 * ctx.server_config.amount_of_groups)
        ≤ length stream
  unfolding with_ctx
  with_ctx_reads stream (none, heap) blocks ctx e = absurd (ground (arith, e))
  with_ctx_reads stream (some block, heap) blocks ctx e =
      with_config_reads
        (record {
          ctx = some block;
          server_config = none;
          client_configs = none;
          group_configs = none;
          group_states = none;
        })
        stream (calloc works 1 sizes.of_config heap) blocks ctx e

  -- `hzl_ServerNew` gives a context only of a file that starts with "HZLs" and a zero and that is at
  -- least as long as its numbers of Clients and Groups ask for: of a file with another start, or of
  -- one that was cut short, it leaves NULL, whichever allocations fail.
  pub server_new_reads :
      (file : List ℕ) (heap : Heap) (blocks : Blocks) (ctx : ServerCtx)
      → (server_new sizes p works false false (some file) io heap).1 ≡ some (blocks, ctx)
      → (take 5 file ≡ 72 ∷ 90 ∷ 76 ∷ 115 ∷ 0 ∷ [])
        × (8 + (17 * ctx.server_config.amount_of_clients + 24 * ctx.server_config.amount_of_groups)
            ≤ length file)
  unfolding server_new load_server
  server_new_reads file heap blocks ctx e =
      let magic = check_magic_number 115 file in
      ground (
        arith,
        e,
        is_ok_iff magic.0,
        check_magic_number_consumes 115 file,
        with_ctx_reads magic.1 (calloc works 1 sizes.of_ctx (open_file heap)) blocks ctx,
      )
