-- ===== src/Loading/Server.antt =====
-- src/server/hzl_ServerNew.c and src/server/hzl_ServerFree.c
pub mod Release
pub mod RoundTrip
pub mod Truncated
use hazelnet.Base.{
  ℕ, ◌*◌, Bool, true, false, not, List, [], ◌∷◌, Option, some, none, length, replicate,
  if◌then◌else◌,
}
use hazelnet.Err.{Err, ok, is_ok, null_ctx, null_filename, cannot_open_config_file, malloc_failed}
use hazelnet.Loading.Heap.{Block, Heap, calloc, secure_free, open_file, close_file}
use hazelnet.Loading.Stream.{
  load_bytes, check_magic_number, load_uint32_le, load_uint16_le, load_uint8, Loader, load_fields,
  load_each,
}
use hazelnet.Platform.{Platform, Io}
use hazelnet.Server.{
  ServerConfig, ClientConfig, GroupConfig, ServerCtx, no_client, no_config, zero_state,
}
use hazelnet.Server.Init.{server_init}

-- `sizeof` of the structures.
pub record Sizes : Type 0 where
  pub of_ctx : ℕ
  pub of_config : ℕ
  pub of_client_config : ℕ
  pub of_group_config : ℕ
  pub of_group_state : ℕ

-- The pointers of a context to the blocks that the loading allocates; `none` is NULL.
pub record Blocks : Type 0 where
  pub ctx : Option Block
  pub server_config : Option Block
  pub client_configs : Option Block
  pub group_configs : Option Block
  pub group_states : Option Block

unfoldable pub load_server_config : Loader ServerConfig
load_server_config = load_fields (
    (λ c stream.
      let (err, v, rest) = load_uint8 c.amount_of_groups stream in
      (err, record c { amount_of_groups = v }, rest))
    ∷ (λ c stream.
        let (err, v, rest) = load_uint8 c.amount_of_clients stream in
        (err, record c { amount_of_clients = v }, rest))
    ∷ (λ c stream.
        let (err, v, rest) = load_uint8 c.header_type stream in
        (err, record c { header_type = v }, rest))
    ∷ [])

unfoldable pub load_client_config : Loader ClientConfig
load_client_config = load_fields (
    (λ c stream. let (err, v, rest) = load_uint8 c.sid stream in (err, record c { sid = v }, rest))
    ∷ (λ c stream.
        let (err, bytes, rest) = load_bytes c.ltk 16 stream in
        (err, record c { ltk = bytes }, rest))
    ∷ [])

-- The last byte of a Group is the padding of the structure, which the model leaves out.
unfoldable pub load_group_config : Loader GroupConfig
load_group_config = load_fields (
    (λ g stream.
      let (err, v, rest) = load_uint32_le stream in
      (err, record g { max_ctrnonce_delay_msgs = v }, rest))
    ∷ (λ g stream.
        let (err, v, rest) = load_uint32_le stream in
        (err, record g { ctr_nonce_upper_limit = v }, rest))
    ∷ (λ g stream.
        let (err, v, rest) = load_uint32_le stream in
        (err, record g { session_duration_millis = v }, rest))
    ∷ (λ g stream.
        let (err, v, rest) = load_uint32_le stream in
        (err, record g { delay_between_ren_notifications_millis = v }, rest))
    ∷ (λ g stream.
        let (err, v, rest) = load_uint32_le stream in
        (err, record g { client_sids_in_group_bitmap = v }, rest))
    ∷ (λ g stream.
        let (err, v, rest) = load_uint16_le stream in
        (err, record g { max_silence_interval_millis = v }, rest))
    ∷ (λ g stream.
        let (err, v, rest) = load_uint8 g.gid stream in (err, record g { gid = v }, rest))
    ∷ (λ g stream. let (err, padding, rest) = load_bytes (0 ∷ []) 1 stream in (err, g, rest))
    ∷ [])

-- The blocks and the context that `*pCtx` points to, if it is not NULL.
abbrev pub Handle : Type 0
Handle = Option (Blocks × ServerCtx)

module _ (sizes : Sizes) where
  -- The body of `hzl_ServerFree` behind its test for NULL.
  unfoldable pub free_blocks : Blocks → ServerConfig → Heap → Heap
  free_blocks blocks config heap =
      let arrays : Heap =
        secure_free blocks.group_configs (config.amount_of_groups * sizes.of_group_config) (
          secure_free blocks.client_configs (config.amount_of_clients * sizes.of_client_config) (
            secure_free blocks.group_states (config.amount_of_groups * sizes.of_group_state)
              heap)) in
      let rest : Heap = elim blocks.server_config as (λ _. Heap) [
        | none ↦ heap
        | some _ ↦ arrays
      ] in
      secure_free blocks.ctx sizes.of_ctx (secure_free blocks.server_config sizes.of_config rest)

  -- `hzl_ServerFree` of a pointer that is not NULL: what `*pCtx` is then, and the heap.
  unfoldable pub server_free : Handle → Heap → Handle × Heap
  server_free none heap = (none, heap)
  server_free (some h) heap = (none, free_blocks h.0 h.1.server_config heap)

  module _ (p : Platform) (works : ℕ → Bool) where
    -- The label `cleanup` with an error.
    abbrev abandon : Err → Blocks → ServerConfig → Heap → Err × Handle × Heap
    abandon err blocks config heap = (err, none, free_blocks blocks config (close_file heap))

    abbrev pub loaded : ServerConfig → List ClientConfig → List GroupConfig → Io → ServerCtx
    loaded config clients groups io = record {
      nulls = record {
        ctx = false;
        server_config = false;
        client_configs = false;
        group_configs = false;
        group_states = false;
        current_time = false;
        trng = false;
      };
      server_config = config;
      client_configs = clients;
      group_configs = groups;
      group_states = replicate config.amount_of_groups zero_state;
      io = io;
    }

    -- From the states of the Groups on: whatever `hzl_ServerInit` returns, `*pCtx` is set.
    unfoldable pub with_states :
        Io
        → Blocks
        → ServerConfig
        → List ClientConfig
        → List GroupConfig
        → Option Block × Heap
        → Err × Handle × Heap
    with_states io blocks config clients groups (none, heap) =
        abandon malloc_failed blocks config heap
    with_states io blocks config clients groups (some block, heap) =
        let init = server_init p (loaded config clients groups io) in
        (init.0, some (record blocks { group_states = some block }, init.1), close_file heap)

    unfoldable pub with_groups :
        Io
        → Blocks
        → ServerConfig
        → List ClientConfig
        → List ℕ
        → Option Block × Heap
        → Err × Handle × Heap
    with_groups io blocks config clients stream (none, heap) =
        abandon malloc_failed blocks config heap
    with_groups io blocks config clients stream (some block, heap) =
        let blocks : Blocks = record blocks { group_configs = some block } in
        let groups =
          load_each load_group_config (replicate config.amount_of_groups no_config) stream in
        if not (is_ok groups.0)
        then abandon groups.0 blocks config heap
        else with_states io blocks config clients groups.1
            (calloc works config.amount_of_groups sizes.of_group_state heap)

    unfoldable pub with_clients :
        Io → Blocks → ServerConfig → List ℕ → Option Block × Heap → Err × Handle × Heap
    with_clients io blocks config stream (none, heap) = abandon malloc_failed blocks config heap
    with_clients io blocks config stream (some block, heap) =
        let blocks : Blocks = record blocks { client_configs = some block } in
        let clients =
          load_each load_client_config (replicate config.amount_of_clients no_client) stream in
        if not (is_ok clients.0)
        then abandon clients.0 blocks config heap
        else with_groups io blocks config clients.1 clients.2
            (calloc works config.amount_of_groups sizes.of_group_config heap)

    abbrev pub zero_config : ServerConfig
    zero_config = record { amount_of_groups = 0; amount_of_clients = 0; header_type = 0 }

    unfoldable pub with_config : Io → Blocks → List ℕ → Option Block × Heap → Err × Handle × Heap
    with_config io blocks stream (none, heap) = abandon malloc_failed blocks zero_config heap
    with_config io blocks stream (some block, heap) =
        let blocks : Blocks = record blocks { server_config = some block } in
        let config = load_server_config zero_config stream in
        if not (is_ok config.0)
        then abandon config.0 blocks config.1 heap
        else with_clients io blocks config.1 config.2
            (calloc works config.1.amount_of_clients sizes.of_client_config heap)

    unfoldable pub with_ctx : Io → List ℕ → Option Block × Heap → Err × Handle × Heap
    with_ctx io stream (none, heap) = (malloc_failed, none, close_file heap)
    with_ctx io stream (some block, heap) =
        let blocks : Blocks = record {
          ctx = some block;
          server_config = none;
          client_configs = none;
          group_configs = none;
          group_states = none;
        } in
        with_config io blocks stream (calloc works 1 sizes.of_config heap)

    -- What follows a successful `fopen`; `heap` is the heap with the file open.
    unfoldable pub load_server : Io → List ℕ → Heap → Err × Handle × Heap
    load_server io stream heap =
        let magic = check_magic_number 115 stream in
        if not (is_ok magic.0)
        then (magic.0, none, close_file heap)
        else with_ctx io magic.1 (calloc works 1 sizes.of_ctx heap)

    -- `hzl_ServerNew`: the file is `none` if it cannot be opened. The result has the error, the new
    -- value of `*pCtx` and the heap.
    unfoldable pub server_new : Bool → Bool → Option (List ℕ) → Io → Heap → Err × Handle × Heap
    server_new null_out null_name file io heap =
        let opened : Err × Handle × Heap = elim file as (λ _. Err × Handle × Heap) [
          | none ↦ (cannot_open_config_file, none, heap)
          | some stream ↦ load_server io stream (open_file heap)
        ] in
        if null_out
        then (null_ctx, none, heap)
        else if null_name
        then (null_filename, none, heap)
        else opened
