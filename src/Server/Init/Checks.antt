-- ===== src/Server/Init/Checks.antt =====
-- What a configuration satisfies that hzl_ServerInit accepts.
use Prim.Native.Nat.{bit_and}
use hazelnet.Base.{ℕ, zero, suc, ◌+◌, ◌-◌, ◌*◌, ◌^◌, ◌≤◌, ◌<◌, ◌≡◌, ◌≢◌, ap, false, arith}
use hazelnet.Err.{ok, is_ok, is_ok_iff, is_ok-ok}
use hazelnet.Header.{header_type_check, header_type_max_gid, header_type_max_sid}
use hazelnet.Utils.{is_all_zeros}
use hazelnet.Utils.Checks.{check_from_ok}
use hazelnet.Server.{GroupConfig, ServerCtx, group_config, check_ctx_pointers}
use hazelnet.Server.Init.{
  all_clients_bitmap, check_server_config, client_config, check_client, check_client_configs,
  is_valid_delay_between_ren, check_group_limits, check_group, check_group_configs, check_ctx,
}

-- The limits of one Group.
pub record IsLimited (cfg : GroupConfig) : Type 0 where
  pub delay_fits : cfg.max_ctrnonce_delay_msgs ≤ 2 ^ 22
  pub limit_fits : cfg.ctr_nonce_upper_limit ≤ 0xff_ff80
  pub notifies : 0 < cfg.delay_between_ren_notifications_millis
  pub six_notifications :
      6 * cfg.delay_between_ren_notifications_millis < cfg.session_duration_millis

pub record IsConfigured (ctx : ServerCtx) : Type 0 where
  pub header_type_known : ctx.server_config.header_type ≤ 6
  pub groups : 0 < ctx.server_config.amount_of_groups
  pub groups_fit :
      ctx.server_config.amount_of_groups ≤ header_type_max_gid ctx.server_config.header_type + 1
  pub clients : 0 < ctx.server_config.amount_of_clients
  pub clients_fit : ctx.server_config.amount_of_clients ≤ 32
  pub clients_named :
      ctx.server_config.amount_of_clients ≤ header_type_max_sid ctx.server_config.header_type
  pub ltk_set :
      (i : ℕ)
      → i < ctx.server_config.amount_of_clients
      → is_all_zeros (client_config ctx.client_configs i).ltk ≡ false
  pub sid_is_consecutive :
      (i : ℕ)
      → i < ctx.server_config.amount_of_clients
      → (client_config ctx.client_configs i).sid ≡ (client_config ctx.client_configs 0).sid + i
  pub first_sid : 0 < (client_config ctx.client_configs 0).sid
  pub gid_is_index : (i : ℕ) → i < ctx.server_config.amount_of_groups → (group_config ctx i).gid ≡ i
  pub is_limited : (i : ℕ) → i < ctx.server_config.amount_of_groups → IsLimited (group_config ctx i)
  pub broadcast_has_all :
      let all = all_clients_bitmap ctx.server_config.amount_of_clients in
      bit_and (group_config ctx 0).client_sids_in_group_bitmap all ≡ all
  pub has_client :
      (i : ℕ)
      → i < ctx.server_config.amount_of_groups
      → 0 < i
      → (group_config ctx i).client_sids_in_group_bitmap ≢ 0
  pub has_known_clients :
      (i : ℕ)
      → i < ctx.server_config.amount_of_groups
      → 0 < i
      → bit_and
          (group_config ctx i).client_sids_in_group_bitmap
          (2 ^ 32 - 1 - all_clients_bitmap ctx.server_config.amount_of_clients)
        ≡ 0

check_group_limits_ok : (cfg : GroupConfig) → check_group_limits cfg ≡ ok → IsLimited cfg
unfolding check_group_limits is_valid_delay_between_ren
check_group_limits_ok cfg h = ground arith

module _ (ctx : ServerCtx) where
  check_group_ok :
      (i : ℕ)
      → check_group ctx i ≡ ok
      → IsLimited (group_config ctx i)
        × (0 < i → (group_config ctx i).gid ≡ (group_config ctx (i - 1)).gid + 1)
        × (0 < i → (group_config ctx i).client_sids_in_group_bitmap ≢ 0)
        × (0 < i
            → bit_and
                (group_config ctx i).client_sids_in_group_bitmap
                (2 ^ 32 - 1 - all_clients_bitmap ctx.server_config.amount_of_clients)
              ≡ 0)
  unfolding check_group
  check_group_ok i h = ground (arith, check_group_limits_ok (group_config ctx i))

  check_client_ok :
      (i : ℕ)
      → check_client ctx.client_configs i ≡ ok
      → (is_all_zeros (client_config ctx.client_configs i).ltk ≡ false)
        × (0 < (client_config ctx.client_configs i).sid)
        × (0 < i
            → (client_config ctx.client_configs i).sid
              ≡ (client_config ctx.client_configs (i - 1)).sid + 1)
  unfolding check_client
  check_client_ok i h = ground arith

  check_server_config_ok :
      check_server_config ctx.server_config ≡ ok
      → (ctx.server_config.header_type ≤ 6)
        × (0 < ctx.server_config.amount_of_groups)
        × (ctx.server_config.amount_of_groups
            ≤ header_type_max_gid ctx.server_config.header_type + 1)
        × (0 < ctx.server_config.amount_of_clients)
        × (ctx.server_config.amount_of_clients ≤ 32)
        × (ctx.server_config.amount_of_clients ≤ header_type_max_sid ctx.server_config.header_type)
  unfolding check_server_config header_type_check is_ok
  check_server_config_ok h = ground (arith, is_ok-ok)

  -- A check of all that passes the first one and steps by one gives the index.
  consecutive :
      (f : ℕ → ℕ) (n : ℕ)
      → ((i : ℕ) → i < n → 0 < i → f i ≡ f (i - 1) + 1)
      → (i : ℕ) → i < n
      → f i ≡ f 0 + i
  consecutive f n h zero lt = omega arith
  consecutive f n h (suc i) lt =
      omega (arith, h (suc i) lt (omega arith), before, consecutive f n h i (omega arith))
    where
      before : f (suc i - 1) ≡ f i
      before = ap f (omega arith)

  check_ctx_parts :
      check_ctx ctx ≡ ok
      → (check_server_config ctx.server_config ≡ ok)
        × (check_client_configs ctx ≡ ok)
        × (check_group_configs ctx ≡ ok)
  unfolding check_ctx
  check_ctx_parts h = ground (
    arith,
    is_ok_iff (check_ctx_pointers ctx.nulls),
    is_ok_iff (check_server_config ctx.server_config),
    is_ok_iff (check_client_configs ctx),
    is_ok-ok,
  )

  client_at :
      check_client_configs ctx ≡ ok
      → (i : ℕ) → i < ctx.server_config.amount_of_clients
      → check_client ctx.client_configs i ≡ ok
  unfolding check_client_configs
  client_at h i lt =
      check_from_ok (check_client ctx.client_configs) ctx.server_config.amount_of_clients 0 h i
        (omega arith) (omega arith)

  group_at :
      check_group_configs ctx ≡ ok
      → ((group_config ctx 0).gid ≡ 0)
        × (let all = all_clients_bitmap ctx.server_config.amount_of_clients in
            bit_and (group_config ctx 0).client_sids_in_group_bitmap all ≡ all)
        × ((i : ℕ) → i < ctx.server_config.amount_of_groups → check_group ctx i ≡ ok)
  unfolding check_group_configs
  group_at h = (
    ground arith,
    ground arith,
    λ i lt.
        check_from_ok (check_group ctx) ctx.server_config.amount_of_groups 0 (ground arith) i
          (omega arith) (omega arith),
  )

  -- A configuration that `hzl_ServerInit` accepts has a known header type, one to 32 Clients and
  -- at least one Group, no more of either than the header can name, Client keys that are not zero
  -- and SIDs counting up from a first one above 0 (any one, not only 1), every Group's GID equal to
  -- its index, the broadcast Group's bitmap with the bits of all Clients, every other Group's bitmap
  -- not zero and with no bit beyond the amount of Clients, and in every Group the limits on the
  -- tolerated delay (2 ^ 22), on the counter (0xffff80) and on the renewal notifications, six of
  -- which are shorter than a Session.
  pub check_ctx_ok : check_ctx ctx ≡ ok → IsConfigured ctx
  check_ctx_ok h = record {
    header_type_known = (check_server_config_ok parts.0).0;
    groups = (check_server_config_ok parts.0).1;
    groups_fit = (check_server_config_ok parts.0).2;
    clients = (check_server_config_ok parts.0).3;
    clients_fit = (check_server_config_ok parts.0).4;
    clients_named = (check_server_config_ok parts.0).5;
    ltk_set = λ i lt. (check_client_ok i (client_at parts.1 i lt)).0;
    sid_is_consecutive =
        consecutive (λ i. (client_config ctx.client_configs i).sid)
          ctx.server_config.amount_of_clients
          (λ i lt pos. (check_client_ok i (client_at parts.1 i lt)).2 pos);
    first_sid = (check_client_ok 0 (client_at parts.1 0 (check_server_config_ok parts.0).3)).1;
    gid_is_index = λ i lt. omega (
      arith,
      (group_at parts.2).0,
      consecutive (λ i. (group_config ctx i).gid) ctx.server_config.amount_of_groups
          (λ i lt pos. (check_group_ok i ((group_at parts.2).2 i lt)).1 pos) i lt,
    );
    is_limited = λ i lt. (check_group_ok i ((group_at parts.2).2 i lt)).0;
    broadcast_has_all = (group_at parts.2).1;
    has_client = λ i lt pos. (check_group_ok i ((group_at parts.2).2 i lt)).2 pos;
    has_known_clients = λ i lt pos. (check_group_ok i ((group_at parts.2).2 i lt)).3 pos;
  }
    where
      parts :
          (check_server_config ctx.server_config ≡ ok)
          × (check_client_configs ctx ≡ ok)
          × (check_group_configs ctx ≡ ok)
      parts = check_ctx_parts h
