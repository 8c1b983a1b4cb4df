-- ===== src/Loading/Client.antt =====
-- src/client/hzl_ClientNew.c and src/client/hzl_ClientFree.c
pub mod Release
pub mod RoundTrip
use hazelnet.Base.{
  ℕ, ◌*◌, Bool, true, false, not, List, [], ◌∷◌, Option, some, none, length, replicate,
  if◌then◌else◌,
}
use hazelnet.Err.{Err, ok, is_ok, null_ctx, null_filename, cannot_open_config_file, malloc_failed}
use hazelnet.Loading.Heap.{Block, Heap, calloc, secure_free, open_file, close_file}
use hazelnet.Loading.Stream.{
  load_bytes, check_magic_number, load_uint32_le, load_uint16_le, load_uint8, Loader, load_fields,
  load_each,
}
use hazelnet.Platform.{Io}
use hazelnet.Client.{ClientConfig, GroupConfig, ClientCtx, no_config, zero_state}
use hazelnet.Client.Init.{check_ctx}

-- `sizeof` of the structures.
pub record Sizes : Type 0 where
  pub of_ctx : ℕ
  pub of_config : ℕ
  pub of_group_config : ℕ
  pub of_group_state : ℕ

-- The pointers of a context to the blocks that the loading allocates; `none` is NULL.
pub record Blocks : Type 0 where
  pub ctx : Option Block
  pub client_config : Option Block
  pub group_configs : Option Block
  pub group_states : Option Block

-- The last byte is the padding of the structure, which the model leaves out.
unfoldable pub load_client_config : Loader ClientConfig
load_client_config = load_fields (
    (λ c stream.
      let (err, v, rest) = load_uint16_le stream in
      (err, record c { timeout_req_to_res_millis = v }, rest))
    ∷ (λ c stream.
        let (err, bytes, rest) = load_bytes c.ltk 16 stream in
        (err, record c { ltk = bytes }, rest))
    ∷ (λ c stream.
        let (err, v, rest) = load_uint8 c.sid stream in (err, record c { sid = v }, rest))
    ∷ (λ c stream.
        let (err, v, rest) = load_uint8 c.header_type stream in
        (err, record c { header_type = v }, rest))
    ∷ (λ c stream.
        let (err, v, rest) = load_uint8 c.amount_of_groups stream in
        (err, record c { amount_of_groups = v }, rest))
    ∷ (λ c stream. let (err, padding, rest) = load_bytes (0 ∷ []) 1 stream in (err, c, rest))
    ∷ [])

-- The last three bytes are padding.
unfoldable pub load_group_config : Loader GroupConfig
load_group_config = load_fields (
    (λ g stream.
      let (err, v, rest) = load_uint32_le stream in
      (err, record g { max_ctrnonce_delay_msgs = v }, rest))
    ∷ (λ g stream.
        let (err, v, rest) = load_uint16_le stream in
        (err, record g { max_silence_interval_millis = v }, rest))
    ∷ (λ g stream.
        let (err, v, rest) = load_uint16_le stream in
        (err, record g { session_renewal_duration_millis = v }, rest))
    ∷ (λ g stream.
        let (err, v, rest) = load_uint8 g.gid stream in (err, record g { gid = v }, rest))
    ∷ (λ g stream.
        let (err, padding, rest) = load_bytes (0 ∷ 0 ∷ 0 ∷ []) 3 stream in (err, g, rest))
    ∷ [])

-- The blocks and the context that `*pCtx` points to, if it is not NULL.
abbrev pub Handle : Type 0
Handle = Option (Blocks × ClientCtx)

-- A context whose pointers are set, with cleared states of its Groups.
abbrev pub loaded : ClientConfig → List GroupConfig → Io → ClientCtx
loaded config groups io = record {
  nulls = record {
    ctx = false;
    client_config = false;
    group_configs = false;
    group_states = false;
    current_time = false;
    trng = false;
  };
  client_config = config;
  group_configs = groups;
  group_states = replicate config.amount_of_groups zero_state;
  io = io;
}

-- What `calloc` leaves.
abbrev pub zero_config : ClientConfig
zero_config = record {
  timeout_req_to_res_millis = 0;
  ltk = replicate 16 0;
  sid = 0;
  header_type = 0;
  amount_of_groups = 0;
}

module _ (sizes : Sizes) where
  -- The body of `hzl_ClientFree` behind its test for NULL.
  unfoldable pub free_blocks : Blocks → ClientConfig → Heap → Heap
  free_blocks blocks config heap =
      let arrays : Heap =
        secure_free blocks.group_configs (config.amount_of_groups * sizes.of_group_config)
          (secure_free blocks.group_states (config.amount_of_groups * sizes.of_group_state) heap) in
      let rest : Heap = elim blocks.client_config as (λ _. Heap) [
        | none ↦ heap
        | some _ ↦ arrays
      ] in
      secure_free blocks.ctx sizes.of_ctx (secure_free blocks.client_config sizes.of_config rest)

  -- `hzl_ClientFree` of a pointer that is not NULL: what `*pCtx` is then, and the heap.
  unfoldable pub client_free : Handle → Heap → Handle × Heap
  client_free none heap = (none, heap)
  client_free (some h) heap = (none, free_blocks h.0 h.1.client_config heap)

  module _ (works : ℕ → Bool) where
    -- The label `cleanup` with an error.
    abbrev abandon : Err → Blocks → ClientConfig → Heap → Err × Handle × Heap
    abandon err blocks config heap = (err, none, free_blocks blocks config (close_file heap))

    -- From the states of the Groups on: whatever `hzl_ClientCheckCtx` returns, `*pCtx` is set.
    unfoldable pub with_states :
        Io → Blocks → ClientConfig → List GroupConfig → Option Block × Heap → Err × Handle × Heap
    with_states io blocks config groups (none, heap) = abandon malloc_failed blocks config heap
    with_states io blocks config groups (some block, heap) =
        let ctx = loaded config groups io in
        (check_ctx ctx, some (record blocks { group_states = some block }, ctx), close_file heap)

    unfoldable pub with_groups :
        Io → Blocks → ClientConfig → List ℕ → Option Block × Heap → Err × Handle × Heap
    with_groups io blocks config stream (none, heap) = abandon malloc_failed blocks config heap
    with_groups io blocks config stream (some block, heap) =
        let blocks : Blocks = record blocks { group_configs = some block } in
        let groups =
          load_each load_group_config (replicate config.amount_of_groups no_config) stream in
        if not (is_ok groups.0)
        then abandon groups.0 blocks config heap
        else with_states io blocks config groups.1
            (calloc works config.amount_of_groups sizes.of_group_state heap)

    unfoldable pub with_config : Io → Blocks → List ℕ → Option Block × Heap → Err × Handle × Heap
    with_config io blocks stream (none, heap) = abandon malloc_failed blocks zero_config heap
    with_config io blocks stream (some block, heap) =
        let blocks : Blocks = record blocks { client_config = some block } in
        let config = load_client_config zero_config stream in
        if not (is_ok config.0)
        then abandon config.0 blocks config.1 heap
        else with_groups io blocks config.1 config.2
            (calloc works config.1.amount_of_groups sizes.of_group_config heap)

    unfoldable pub with_ctx : Io → List ℕ → Option Block × Heap → Err × Handle × Heap
    with_ctx io stream (none, heap) = (malloc_failed, none, close_file heap)
    with_ctx io stream (some block, heap) =
        let blocks : Blocks = record {
          ctx = some block;
          client_config = none;
          group_configs = none;
          group_states = none;
        } in
        with_config io blocks stream (calloc works 1 sizes.of_config heap)

    -- What follows a successful `fopen`; `heap` is the heap with the file open.
    unfoldable pub load_client : Io → List ℕ → Heap → Err × Handle × Heap
    load_client io stream heap =
        let magic = check_magic_number 99 stream in
        if not (is_ok magic.0)
        then (magic.0, none, close_file heap)
        else with_ctx io magic.1 (calloc works 1 sizes.of_ctx heap)

    -- `hzl_ClientNew`: the file is `none` if it cannot be opened. The result has the error, the new
    -- value of `*pCtx` and the heap.
    unfoldable pub client_new : Bool → Bool → Option (List ℕ) → Io → Heap → Err × Handle × Heap
    client_new null_out null_name file io heap =
        let opened : Err × Handle × Heap = elim file as (λ _. Err × Handle × Heap) [
          | none ↦ (cannot_open_config_file, none, heap)
          | some stream ↦ load_client io stream (open_file heap)
        ] in
        if null_out
        then (null_ctx, none, heap)
        else if null_name
        then (null_filename, none, heap)
        else opened
