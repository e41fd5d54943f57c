-- ===== src/Service/App/Handlers.antt =====
-- internal/broker/service.go: the handlers of App that change its state.
use open_tunnelbroker.Prelude.{
  ℕ, String, Bool, not, List, Option, none, some, str_eq, ltb, if◌then◌else◌, trim_space,
}
use open_tunnelbroker.Prelude.Int.{ℤ, pos, pos_part}
use open_tunnelbroker.Models.{Settings, Upstream, Tunnel, valid_tunnel_v4_mode}
use open_tunnelbroker.Service.Upstreams.{UpstreamInput, apply_input, ConfigError, Outcome, done}
use open_tunnelbroker.Service.Upstreams
use open_tunnelbroker.Service.Validate.{
  prepare_upstream, validate_upstream_against_tunnels, validate_quota, validate_routing_group,
}
use open_tunnelbroker.Service.Groups.{normalize_routing_groups, Choice, resolve_upstream, chosen}
use open_tunnelbroker.Service.Create.{CreateTunnelInput, create_tunnel}
use open_tunnelbroker.Service.Settings.{save_settings, reset_general_settings, set_tunnel_v4_mode}
use open_tunnelbroker.Store.Db.{
  ok, err, add_audit, all_upstreams, all_tunnels, upstream_row, tunnel_row, tunnels_for_upstream,
}
use open_tunnelbroker.Store.Db.Upstreams.{insert_upstream, update_upstream, delete_upstream}
use open_tunnelbroker.Store.Db.Groups.{
  set_tunnel_routing_groups, create_routing_group, rename_routing_group, delete_routing_group,
}
use open_tunnelbroker.Store.Db.Tunnels.{
  insert_tunnel, set_v4_mode, delete_tunnel, set_status, set_tunnel_enabled, set_tunnel_quota,
}
use open_tunnelbroker.Store.Db.Accounts.{store_settings, warp_account}
use open_tunnelbroker.Service.App.{
  answer, broken, Kernel, Call, Act, ◌>>=◌, ◌>>◌, return, fail, check, query, read, transact,
  transact_with, call, refused, invalid, in_kernel, Answer,
}
use open_tunnelbroker.Service.App.Reconcile.{reconcile, zero_upstream}

module _ {K : Type 0} where
  -- A refusal of the checks, as an error.
  abbrev pub accept : Option ConfigError → Act K (Unit {0})
  accept none = return tt
  accept (some e) = fail (invalid e)

  abbrev pub outcome {ℓ} : {A : Type ℓ} → Outcome A → Act K A
  outcome (done a) = return a
  outcome (Upstreams.refused e) = fail (invalid e)

  abbrev pub given {ℓ} : {A : Type ℓ} → Option A → Act K A
  given none = fail refused
  given (some a) = return a

-- The upstream that CreateUpstream applies its input to.
abbrev pub new_upstream : Upstream
new_upstream = record zero_upstream {
  mtu = pos 1420;
  keepalive = pos 25;
  min_prefix = pos 48;
  max_prefix = pos 64;
  default_prefix = pos 56;
  endpoint_port = pos 51820;
}

-- The upstream that resolveUpstream finds for the id of the input.
abbrev pub choice : Choice → Option Upstream
choice (chosen up) = some up
choice _ = none

module _ {K : Type 0} (kernel : Kernel K) (c : Call) where
  unfoldable pub handle_settings : Settings → Act K (Unit {0})
  handle_settings v = do
    db ← read
    settings ← given (save_settings v (warp_account db))
    transact (λ db. store_settings db settings)

  unfoldable pub handle_reset : Act K (Unit {0})
  handle_reset = do
    db ← read
    transact (λ next. store_settings next (reset_general_settings db.settings))
    transact (λ db.
        ok (
          add_audit db c.stamp.admin "settings-reset" none "general defaults restored" c.stamp.now))
    reconcile kernel c.stamp

  unfoldable pub handle_create_upstream : UpstreamInput → Act K Upstream
  handle_create_upstream input = do
    others ← read
    up ← outcome (
        prepare_upstream c.equal_fold (apply_input input new_upstream) (all_upstreams others)
          c.server_key)
    id ← transact_with (λ db. insert_upstream db up c.stamp.admin c.stamp.now)
    reconcile kernel c.stamp
    query (λ db. upstream_row db id)

  -- The interface of an upstream that has been renamed is removed.
  unfoldable pub remove_renamed : Upstream → Upstream → Act K (Unit {0})
  remove_renamed existing updated =
      if str_eq existing.interface_name updated.interface_name then return tt else do
        removed ← call (kernel.remove_upstream existing)
        elim removed [ broken text ↦ fail (in_kernel text) | answer gone ↦ return tt ]

  unfoldable pub handle_update_upstream : UpstreamInput → Act K Upstream
  unfolding remove_renamed
  handle_update_upstream input = do
    existing ← query (λ db. upstream_row db input.id)
    others ← read
    updated ← outcome (
        prepare_upstream c.equal_fold (apply_input input existing) (all_upstreams others)
          c.server_key)
    accept (validate_upstream_against_tunnels updated (tunnels_for_upstream others updated.id))
    transact (λ db. update_upstream db updated c.stamp.admin c.stamp.now)
    remove_renamed existing updated
    reconcile kernel c.stamp
    query (λ db. upstream_row db updated.id)

  unfoldable pub handle_delete_upstream : ℕ → Act K (Unit {0})
  handle_delete_upstream id = do
    up ← query (λ db. upstream_row db id)
    check (not (ltb 0 up.tunnel_count)) refused
    removed ← call (kernel.remove_upstream up)
    elim removed [
      | broken text ↦ fail (in_kernel text)
      | answer gone ↦ do
        transact (λ db. delete_upstream db id c.stamp.admin c.stamp.now)
        reconcile kernel c.stamp
    ]

  unfoldable pub chosen_upstream : ℕ → Act K Upstream
  chosen_upstream id = do db ← read; given (choice (resolve_upstream (all_upstreams db) id))

  unfoldable pub handle_create_tunnel : ℕ → CreateTunnelInput → Act K Tunnel
  unfolding chosen_upstream
  handle_create_tunnel upstream_id input = do
    up ← chosen_upstream upstream_id
    db ← read
    t ← given (
        create_tunnel db.settings (warp_account db) up (tunnels_for_upstream db up.id)
          (all_tunnels db) input c.choose c.tunnel_key c.parses c.shared_key c.stamp.month)
    id ← transact_with (λ db. insert_tunnel db t c.stamp.admin c.stamp.now)
    reconcile kernel c.stamp
    query (λ db. tunnel_row db id)

  unfoldable pub handle_v4_mode : ℕ → String → Act K (Unit {0})
  handle_v4_mode id mode = do
    check (valid_tunnel_v4_mode mode) refused
    t ← query (λ db. tunnel_row db id)
    db ← read
    up ← query (λ db. upstream_row db t.upstream_id)
    stored ← given (set_tunnel_v4_mode db.settings (warp_account db) up t mode)
    transact (λ db. ok (set_v4_mode db id stored c.stamp.admin c.stamp.now))
    reconcile kernel c.stamp

  unfoldable pub handle_quota : ℕ → ℤ → Act K (Unit {0})
  handle_quota id quota = do
    accept (validate_quota quota)
    t ← query (λ db. tunnel_row db id)
    transact (λ db. set_tunnel_quota db id (pos_part quota) c.stamp.admin c.stamp.now)
    reconcile kernel c.stamp

  unfoldable pub handle_tunnel_groups : ℕ → List String → Act K (Unit {0})
  handle_tunnel_groups id groups = do
    names ← outcome (normalize_routing_groups groups)
    t ← query (λ db. tunnel_row db id)
    transact (λ db. set_tunnel_routing_groups db id names c.stamp.admin c.stamp.now)
    reconcile kernel c.stamp

  unfoldable pub handle_create_group : String → Act K (Unit {0})
  handle_create_group name = do
    check (not (str_eq (trim_space name) "")) refused
    accept (validate_routing_group (trim_space name))
    transact (λ db. create_routing_group db (trim_space name) c.stamp.admin c.stamp.now)

  unfoldable pub handle_rename_group : ℕ → String → Act K (Unit {0})
  handle_rename_group id name = do
    check (not (str_eq (trim_space name) "")) refused
    accept (validate_routing_group (trim_space name))
    transact (λ db. rename_routing_group db id (trim_space name) c.stamp.admin c.stamp.now)
    reconcile kernel c.stamp

  unfoldable pub handle_delete_group : ℕ → Act K (Unit {0})
  handle_delete_group id = do
    transact (λ db. delete_routing_group db id c.stamp.admin c.stamp.now)
    reconcile kernel c.stamp

  -- The row of a tunnel goes once the kernel's state of it is removed.
  abbrev pub finish_removal : Tunnel → Answer (Unit {0}) → Act K (Unit {0})
  finish_removal t (broken text) = do
    transact (λ db. ok (set_status db t.id "error" text c.stamp.now))
    fail (in_kernel text)
  finish_removal t (answer gone) =
      transact (λ db. ok (delete_tunnel db t.id c.stamp.admin c.stamp.now))

  unfoldable pub remove_tunnel : Upstream → Tunnel → Act K (Unit {0})
  remove_tunnel up t = do removed ← call (kernel.remove up t); finish_removal t removed

  unfoldable pub handle_delete_tunnel : ℕ → Act K (Unit {0})
  unfolding remove_tunnel
  handle_delete_tunnel id = do
    t ← query (λ db. tunnel_row db id)
    db ← read
    elim (upstream_row db t.upstream_id) [
      | err e ↦ transact (λ db. ok (delete_tunnel db id c.stamp.admin c.stamp.now))
      | ok up ↦ remove_tunnel up t
    ]

  unfoldable pub handle_enabled : ℕ → Bool → Act K (Unit {0})
  handle_enabled id on = do
    transact (λ db. ok (set_tunnel_enabled db id on c.stamp.admin c.stamp.now))
    reconcile kernel c.stamp
