-- ===== src/Loading/Server/RoundTrip.antt =====
-- A file in the format that hzl_ServerNew reads.
use hazelnet.Base.{
  ℕ, ◌^◌, ◌<◌, ◌≡◌, refl, sym, ◌∙◌, Bool, true, false, List, [], ◌∷◌, ◌++◌, length, replicate,
  Option, some, none,
}
use hazelnet.Base.All.{All}
use hazelnet.Base.Wire.{append_assoc}
use hazelnet.Endian.{encode_le16, encode_le32}
use hazelnet.Err.{ok, is_ok}
use hazelnet.Loading.Heap.{Heap, calloc}
use hazelnet.Loading.Stream.{
  load_fields, load_each, print_each, load_each-print_each, load_bytes-append, load_uint8-byte,
  load_uint16_le-encode_le16, load_uint32_le-encode_le32, check_magic_number, load_uint8,
  load_bytes,
}
use hazelnet.Loading.Server.{
  Sizes, Handle, load_server_config, load_client_config, load_group_config, loaded, zero_config,
  with_states, with_groups, with_clients, with_config, with_ctx, load_server, server_new,
}
use hazelnet.Platform.{Platform, Io}
use hazelnet.Server.{ServerConfig, ClientConfig, GroupConfig, ServerCtx, no_client, no_config}
use hazelnet.Server.Init.{server_init}
use hazelnet.Server.Invariant.{length-zero_out}

-- The SID and the key.
abbrev client_bytes : ClientConfig → List ℕ
client_bytes c = c.sid ∷ c.ltk

-- The fields of a Group, and a byte of padding.
abbrev group_bytes : GroupConfig → List ℕ
group_bytes g =
    encode_le32 g.max_ctrnonce_delay_msgs
    ++ (encode_le32 g.ctr_nonce_upper_limit
        ++ (encode_le32 g.session_duration_millis
            ++ (encode_le32 g.delay_between_ren_notifications_millis
                ++ (encode_le32 g.client_sids_in_group_bitmap
                    ++ (encode_le16 g.max_silence_interval_millis ++ (g.gid ∷ 0 ∷ []))))))

-- "HZLs" and a zero, the numbers of Groups and Clients, the header type, the Clients and the Groups;
-- what follows is not read.
abbrev pub server_file : ℕ → List ClientConfig → List GroupConfig → List ℕ → List ℕ
server_file header_type clients groups rest =
    72
    ∷ 90
    ∷ 76
    ∷ 115
    ∷ 0
    ∷ length groups
    ∷ length clients
    ∷ header_type
    ∷ print_each client_bytes clients (print_each group_bytes groups rest)

-- Keys of 16 bytes.
abbrev pub HasKey : ClientConfig → Type 0
HasKey c = length c.ltk ≡ 16

-- The numbers fit into the fields of the structure.
pub record FitsFields (g : GroupConfig) : Type 0 where
  pub delay_fits : g.max_ctrnonce_delay_msgs < 2 ^ 32
  pub limit_fits : g.ctr_nonce_upper_limit < 2 ^ 32
  pub duration_fits : g.session_duration_millis < 2 ^ 32
  pub interval_fits : g.delay_between_ren_notifications_millis < 2 ^ 32
  pub bitmap_fits : g.client_sids_in_group_bitmap < 2 ^ 32
  pub silence_fits : g.max_silence_interval_millis < 2 ^ 16

load_client_config-client_bytes :
    (c : ClientConfig) (rest : List ℕ)
    → HasKey c
    → load_client_config no_client (client_bytes c ++ rest) ≡ (ok, c, rest)
unfolding load_client_config load_fields is_ok
load_client_config-client_bytes c rest h =
    rw
      (
        load_uint8-byte 0 c.sid (c.ltk ++ rest),
        load_bytes-append no_client.ltk 16 c.ltk rest (sym h) (length-zero_out 16 ∙ sym h),
      )
      refl

load_group_config-group_bytes :
    (g : GroupConfig) (rest : List ℕ)
    → FitsFields g
    → load_group_config no_config (group_bytes g ++ rest) ≡ (ok, g, rest)
unfolding load_group_config load_fields is_ok
load_group_config-group_bytes g rest f =
    let tail = g.gid ∷ 0 ∷ rest in
    let silence = encode_le16 g.max_silence_interval_millis ++ tail in
    let bitmap = encode_le32 g.client_sids_in_group_bitmap ++ silence in
    let interval = encode_le32 g.delay_between_ren_notifications_millis ++ bitmap in
    let duration = encode_le32 g.session_duration_millis ++ interval in
    let limit = encode_le32 g.ctr_nonce_upper_limit ++ duration in
    simp
      (
        append_assoc,
        load_uint32_le-encode_le32 g.max_ctrnonce_delay_msgs limit f.delay_fits,
        load_uint32_le-encode_le32 g.ctr_nonce_upper_limit duration f.limit_fits,
        load_uint32_le-encode_le32 g.session_duration_millis interval f.duration_fits,
        load_uint32_le-encode_le32 g.delay_between_ren_notifications_millis bitmap f.interval_fits,
        load_uint32_le-encode_le32 g.client_sids_in_group_bitmap silence f.bitmap_fits,
        load_uint16_le-encode_le16 g.max_silence_interval_millis tail f.silence_fits,
        load_uint8-byte 0 g.gid (0 ∷ rest),
        load_bytes-append (0 ∷ []) 1 (0 ∷ []) rest refl refl,
      )
      refl

-- The context that a handle points to.
abbrev pub context_of : Handle → Option ServerCtx
context_of none = none
context_of (some h) = some h.1

module _ (sizes : Sizes) (p : Platform) (works : ℕ → Bool) (memory : (n : ℕ) → works n ≡ true)
    (io : Io) (header_type : ℕ) (clients : List ClientConfig) (keys : All HasKey clients)
    (groups : List GroupConfig) (fit : All FitsFields groups) (rest : List ℕ) where
  abbrev config : ServerConfig
  config = record {
    amount_of_groups = length groups;
    amount_of_clients = length clients;
    header_type = header_type;
  }

  magic : check_magic_number 115 (server_file header_type clients groups rest) ≡ (
    ok,
    length groups
        ∷ length clients
        ∷ header_type
        ∷ print_each client_bytes clients (print_each group_bytes groups rest),
  )
  unfolding check_magic_number load_bytes is_ok
  magic = refl

  config-loaded :
      load_server_config (zero_config sizes p works) (
        length groups
        ∷ length clients
        ∷ header_type
        ∷ print_each client_bytes clients (print_each group_bytes groups rest))
      ≡ (ok, config, print_each client_bytes clients (print_each group_bytes groups rest))
  unfolding load_server_config load_fields load_uint8 load_bytes is_ok
  config-loaded = refl

  clients-loaded :
      load_each load_client_config
        (replicate (length clients) no_client)
        (print_each client_bytes clients (print_each group_bytes groups rest))
      ≡ (ok, clients, print_each group_bytes groups rest)
  clients-loaded =
      load_each-print_each load_client_config client_bytes HasKey no_client
        load_client_config-client_bytes clients (print_each group_bytes groups rest) keys

  groups-loaded :
      load_each load_group_config
        (replicate (length groups) no_config)
        (print_each group_bytes groups rest)
      ≡ (ok, groups, rest)
  groups-loaded =
      load_each-print_each load_group_config group_bytes FitsFields no_config
        load_group_config-group_bytes groups rest fit

  -- If the heap has memory, `hzl_ServerNew` of a file in its format, with keys of 16 bytes and numbers
  -- that fit into their fields, gives what `hzl_ServerInit` gives on a context with exactly the
  -- Clients, Groups and header type that were written, their numbers, all pointers set and the states
  -- of the Groups cleared: the same error, and that context.
  pub server_new-server_file :
      (heap : Heap)
      → let result =
          server_new sizes p works false false
            (some (server_file header_type clients groups rest))
            io
            heap in
        let init = server_init p (loaded sizes p works config clients groups io) in
        (result.0 ≡ init.0) × (context_of result.1 ≡ some init.1)
  unfolding server_new load_server with_ctx with_config with_clients with_groups with_states calloc
      is_ok
  server_new-server_file heap =
      simp (magic, memory, config-loaded, clients-loaded, groups-loaded) (refl, refl)
