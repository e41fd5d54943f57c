-- ===== src/Service/App/Sound/Handlers.antt =====
-- Every request keeps the tables sound, whether it succeeds or fails at any of its steps.
use open_tunnelbroker.Prelude.{
  ℕ, String, Bool, not, List, none, ltb, str_eq, ◌==◌, trim_space, refl,
}
use open_tunnelbroker.Prelude.Int.{ℤ, pos_part}
use open_tunnelbroker.Models.{Settings, Upstream, Tunnel, valid_tunnel_v4_mode}
use open_tunnelbroker.Service.Upstreams.{UpstreamInput, apply_input}
use open_tunnelbroker.Service.Validate.{
  prepare_upstream, validate_upstream_against_tunnels, validate_quota, validate_routing_group,
}
use open_tunnelbroker.Service.Groups.{normalize_routing_groups}
use open_tunnelbroker.Service.Settings.{save_settings, reset_general_settings, set_tunnel_v4_mode}
use open_tunnelbroker.Store.Db.{
  Db, Tried, ok, err, add_audit, all_upstreams, upstream_row, tunnel_row, tunnels_for_upstream,
  set_pending,
}
use open_tunnelbroker.Store.Db.Upstreams.{insert_upstream, update_upstream, delete_upstream}
use open_tunnelbroker.Store.Db.Groups.{
  set_tunnel_routing_groups, create_routing_group, rename_routing_group, delete_routing_group,
}
use open_tunnelbroker.Store.Db.Tunnels.{
  set_v4_mode, store_v4_mode, update_tunnel, delete_tunnel, set_status, set_tunnel_enabled,
  store_enabled, set_tunnel_quota,
}
use open_tunnelbroker.Store.Db.Accounts.{store_settings, warp_account}
use open_tunnelbroker.Store.Db.Sound.{IsSound}
use open_tunnelbroker.Store.Db.Sound.Gives.{touch-IsSound}
use open_tunnelbroker.Store.Db.Sound.Addresses.{store_settings-Gives}
use open_tunnelbroker.Store.Db.Sound.Upstreams.{
  insert_upstream-Gives, update_upstream-Gives, delete_upstream-Gives,
}
use open_tunnelbroker.Store.Db.Sound.Groups.{
  set_groups-Gives, create_group-Gives, rename_group-Gives, delete_group-Gives,
}
use open_tunnelbroker.Store.Db.Sound.Tunnels.{delete_tunnel-IsSound, set_tunnel_quota-Gives}
use open_tunnelbroker.Service.App.{
  Kernel, Call, ◌>>◌, check, query, transact, transact_with, call, refused, Answer, answer, broken,
}
use open_tunnelbroker.Service.App.Reconcile.{reconcile}
use open_tunnelbroker.Service.App.Handlers.{
  accept, outcome, given, new_upstream, remove_renamed, remove_tunnel, finish_removal,
  handle_settings, handle_reset, handle_create_upstream, handle_update_upstream,
  handle_delete_upstream, handle_v4_mode, handle_quota, handle_tunnel_groups, handle_create_group,
  handle_rename_group, handle_delete_group, handle_delete_tunnel, handle_enabled,
}
use open_tunnelbroker.Service.App.Keeps.{
  Keeps, bind-Keeps, query-Keeps, transact-Keeps, transact_with-Keeps, call-Keeps, check-Keeps,
  accept-Keeps, outcome-Keeps, given-Keeps, answer-Keeps, then-Keeps, read-Keeps, if-Keeps,
}
use open_tunnelbroker.Service.App.Sound.{set_status-IsSound, reconcile-Keeps}

module _ {K : Type 0} (kernel : Kernel K) (c : Call) where
  pub handle_settings-Keeps : (v : Settings) → Keeps IsSound (handle_settings kernel c v)
  unfolding handle_settings
  handle_settings-Keeps v = read-Keeps IsSound _ (λ db.
      bind-Keeps IsSound (given (save_settings v (warp_account db))) _
        (given-Keeps IsSound (save_settings v (warp_account db)))
        (λ settings.
          transact-Keeps IsSound (λ db. store_settings db settings)
            (λ db h. store_settings-Gives db settings h)))

  pub handle_reset-Keeps : Keeps IsSound (handle_reset kernel c)
  unfolding handle_reset add_audit
  handle_reset-Keeps = read-Keeps IsSound _ (λ db.
      then-Keeps IsSound (λ next. store_settings next (reset_general_settings db.settings)) _
        (λ next h. store_settings-Gives next (reset_general_settings db.settings) h)
        (then-Keeps IsSound
          (λ next. ok (
            add_audit next c.stamp.admin "settings-reset" none "general defaults restored"
              c.stamp.now))
          _ (λ next h. h) (reconcile-Keeps kernel c.stamp)))

  pub then_query-Keeps {ℓ} :
      {A : Type ℓ} (q : Db → Tried A) → Keeps IsSound (reconcile kernel c.stamp >> query q)
  then_query-Keeps q =
      bind-Keeps IsSound (reconcile kernel c.stamp) _ (reconcile-Keeps kernel c.stamp)
        (λ done. query-Keeps IsSound q)

  pub handle_create_upstream-Keeps :
      (input : UpstreamInput) → Keeps IsSound (handle_create_upstream kernel c input)
  unfolding handle_create_upstream
  handle_create_upstream-Keeps input = read-Keeps IsSound _ (λ others.
      bind-Keeps IsSound (outcome _) _
        (outcome-Keeps IsSound (
          prepare_upstream c.equal_fold (apply_input input new_upstream) (all_upstreams others)
            c.server_key))
        (λ up.
          bind-Keeps IsSound (transact_with (λ db. insert_upstream db up c.stamp.admin c.stamp.now))
            _
            (transact_with-Keeps IsSound (λ db. insert_upstream db up c.stamp.admin c.stamp.now)
              (λ db h. insert_upstream-Gives db up c.stamp.admin c.stamp.now h))
            (λ id. then_query-Keeps (λ db. upstream_row db id))))

  remove_renamed-Keeps :
      (existing updated : Upstream) → Keeps IsSound (remove_renamed kernel c existing updated)
  unfolding remove_renamed
  remove_renamed-Keeps existing updated =
      if-Keeps IsSound (str_eq existing.interface_name updated.interface_name) _ _ (λ w h. h)
        (bind-Keeps IsSound (call (kernel.remove_upstream existing)) _
          (call-Keeps IsSound (kernel.remove_upstream existing))
          (λ removed. answer-Keeps IsSound removed _ _ (λ text w h. h) (λ gone w h. h)))

  pub handle_update_upstream-Keeps :
      (input : UpstreamInput) → Keeps IsSound (handle_update_upstream kernel c input)
  unfolding handle_update_upstream
  handle_update_upstream-Keeps input =
      bind-Keeps IsSound (query (λ db. upstream_row db input.id)) _
        (query-Keeps IsSound (λ db. upstream_row db input.id))
        (λ existing. read-Keeps IsSound _ (λ others.
          bind-Keeps IsSound (outcome _) _
            (outcome-Keeps IsSound (
              prepare_upstream c.equal_fold (apply_input input existing) (all_upstreams others)
                c.server_key))
            (λ updated.
              bind-Keeps IsSound (accept _) _
                (accept-Keeps IsSound (
                  validate_upstream_against_tunnels updated
                    (tunnels_for_upstream others updated.id)))
                (λ done.
                  then-Keeps IsSound (λ db. update_upstream db updated c.stamp.admin c.stamp.now) _
                    (λ db h. update_upstream-Gives db updated c.stamp.admin c.stamp.now h)
                    (bind-Keeps IsSound (remove_renamed kernel c existing updated) _
                      (remove_renamed-Keeps existing updated)
                      (λ removed. then_query-Keeps (λ db. upstream_row db updated.id)))))))

  pub handle_delete_upstream-Keeps : (id : ℕ) → Keeps IsSound (handle_delete_upstream kernel c id)
  unfolding handle_delete_upstream
  handle_delete_upstream-Keeps id =
      bind-Keeps IsSound (query (λ db. upstream_row db id)) _
        (query-Keeps IsSound (λ db. upstream_row db id))
        (λ up.
          bind-Keeps IsSound (check (not (ltb 0 up.tunnel_count)) refused) _
            (check-Keeps IsSound (not (ltb 0 up.tunnel_count)) refused)
            (λ done.
              bind-Keeps IsSound (call (kernel.remove_upstream up)) _
                (call-Keeps IsSound (kernel.remove_upstream up))
                (λ removed.
                  answer-Keeps IsSound removed _ _ (λ text w h. h)
                    (λ gone.
                      then-Keeps IsSound (λ db. delete_upstream db id c.stamp.admin c.stamp.now) _
                        (λ db h. delete_upstream-Gives db id c.stamp.admin c.stamp.now h)
                        (reconcile-Keeps kernel c.stamp)))))

  pub handle_v4_mode-Keeps :
      (id : ℕ) (mode : String) → Keeps IsSound (handle_v4_mode kernel c id mode)
  unfolding handle_v4_mode set_v4_mode store_v4_mode update_tunnel add_audit set_pending
  handle_v4_mode-Keeps id mode =
      bind-Keeps IsSound (check (valid_tunnel_v4_mode mode) refused) _
        (check-Keeps IsSound (valid_tunnel_v4_mode mode) refused)
        (λ valid.
          bind-Keeps IsSound (query (λ db. tunnel_row db id)) _
            (query-Keeps IsSound (λ db. tunnel_row db id))
            (λ t. read-Keeps IsSound _ (λ db.
              bind-Keeps IsSound (query (λ next. upstream_row next t.upstream_id)) _
                (query-Keeps IsSound (λ next. upstream_row next t.upstream_id))
                (λ up.
                  bind-Keeps IsSound (given _) _
                    (given-Keeps IsSound
                      (set_tunnel_v4_mode db.settings (warp_account db) up t mode))
                    (λ stored.
                      then-Keeps IsSound
                        (λ next. ok (set_v4_mode next id stored c.stamp.admin c.stamp.now)) _
                        (λ next h.
                          touch-IsSound next (λ r. r.id == id) (store_v4_mode stored c.stamp.now)
                            (λ r. refl) h)
                        (reconcile-Keeps kernel c.stamp))))))

  pub handle_quota-Keeps : (id : ℕ) (quota : ℤ) → Keeps IsSound (handle_quota kernel c id quota)
  unfolding handle_quota
  handle_quota-Keeps id quota =
      bind-Keeps IsSound (accept (validate_quota quota)) _
        (accept-Keeps IsSound (validate_quota quota))
        (λ valid.
          bind-Keeps IsSound (query (λ db. tunnel_row db id)) _
            (query-Keeps IsSound (λ db. tunnel_row db id))
            (λ t.
              then-Keeps IsSound
                (λ db. set_tunnel_quota db id (pos_part quota) c.stamp.admin c.stamp.now) _
                (λ db h. set_tunnel_quota-Gives db id (pos_part quota) c.stamp.admin c.stamp.now h)
                (reconcile-Keeps kernel c.stamp)))

  pub handle_tunnel_groups-Keeps :
      (id : ℕ) (groups : List String) → Keeps IsSound (handle_tunnel_groups kernel c id groups)
  unfolding handle_tunnel_groups
  handle_tunnel_groups-Keeps id groups =
      bind-Keeps IsSound (outcome (normalize_routing_groups groups)) _
        (outcome-Keeps IsSound (normalize_routing_groups groups))
        (λ names.
          bind-Keeps IsSound (query (λ db. tunnel_row db id)) _
            (query-Keeps IsSound (λ db. tunnel_row db id))
            (λ t.
              then-Keeps IsSound
                (λ db. set_tunnel_routing_groups db id names c.stamp.admin c.stamp.now) _
                (λ db h. set_groups-Gives db id names c.stamp.admin c.stamp.now h)
                (reconcile-Keeps kernel c.stamp)))

  pub handle_create_group-Keeps :
      (name : String) → Keeps IsSound (handle_create_group kernel c name)
  unfolding handle_create_group
  handle_create_group-Keeps name =
      bind-Keeps IsSound (check (not (str_eq (trim_space name) "")) refused) _
        (check-Keeps IsSound (not (str_eq (trim_space name) "")) refused)
        (λ present.
          bind-Keeps IsSound (accept (validate_routing_group (trim_space name))) _
            (accept-Keeps IsSound (validate_routing_group (trim_space name)))
            (λ valid.
              transact-Keeps IsSound
                (λ db. create_routing_group db (trim_space name) c.stamp.admin c.stamp.now)
                (λ db h. create_group-Gives db (trim_space name) c.stamp.admin c.stamp.now h)))

  pub handle_rename_group-Keeps :
      (id : ℕ) (name : String) → Keeps IsSound (handle_rename_group kernel c id name)
  unfolding handle_rename_group
  handle_rename_group-Keeps id name =
      bind-Keeps IsSound (check (not (str_eq (trim_space name) "")) refused) _
        (check-Keeps IsSound (not (str_eq (trim_space name) "")) refused)
        (λ present.
          bind-Keeps IsSound (accept (validate_routing_group (trim_space name))) _
            (accept-Keeps IsSound (validate_routing_group (trim_space name)))
            (λ valid.
              then-Keeps IsSound
                (λ db. rename_routing_group db id (trim_space name) c.stamp.admin c.stamp.now) _
                (λ db h. rename_group-Gives db id (trim_space name) c.stamp.admin c.stamp.now h)
                (reconcile-Keeps kernel c.stamp)))

  pub handle_delete_group-Keeps : (id : ℕ) → Keeps IsSound (handle_delete_group kernel c id)
  unfolding handle_delete_group
  handle_delete_group-Keeps id =
      then-Keeps IsSound (λ db. delete_routing_group db id c.stamp.admin c.stamp.now) _
        (λ db h. delete_group-Gives db id c.stamp.admin c.stamp.now h)
        (reconcile-Keeps kernel c.stamp)

  pub handle_enabled-Keeps : (id : ℕ) (on : Bool) → Keeps IsSound (handle_enabled kernel c id on)
  unfolding handle_enabled set_tunnel_enabled update_tunnel store_enabled add_audit
  handle_enabled-Keeps id on =
      then-Keeps IsSound (λ db. ok (set_tunnel_enabled db id on c.stamp.admin c.stamp.now)) _
        (λ db h. touch-IsSound db (λ t. t.id == id) (store_enabled on c.stamp.now) (λ t. refl) h)
        (reconcile-Keeps kernel c.stamp)

  finish_removal-Keeps :
      (t : Tunnel) (removed : Answer (Unit {0})) → Keeps IsSound (finish_removal kernel c t removed)
  finish_removal-Keeps t (broken text) =
      then-Keeps IsSound (λ db. ok (set_status db t.id "error" text c.stamp.now)) _
        (λ db h. set_status-IsSound db t.id "error" text c.stamp.now h) (λ w h. h)
  finish_removal-Keeps t (answer gone) =
      transact-Keeps IsSound (λ db. ok (delete_tunnel db t.id c.stamp.admin c.stamp.now))
        (λ db h. delete_tunnel-IsSound db t.id c.stamp.admin c.stamp.now h)

  remove_tunnel-Keeps : (up : Upstream) (t : Tunnel) → Keeps IsSound (remove_tunnel kernel c up t)
  unfolding remove_tunnel
  remove_tunnel-Keeps up t =
      bind-Keeps IsSound (call (kernel.remove up t)) _ (call-Keeps IsSound (kernel.remove up t))
        (finish_removal-Keeps t)

  removal-Keeps :
      (id : ℕ) (t : Tunnel) (r : Tried Upstream)
      → Keeps IsSound (elim r [
        | err e ↦ transact (λ db. ok (delete_tunnel db id c.stamp.admin c.stamp.now))
        | ok up ↦ remove_tunnel kernel c up t
      ])
  removal-Keeps id t (err e) =
      transact-Keeps IsSound (λ db. ok (delete_tunnel db id c.stamp.admin c.stamp.now))
        (λ db h. delete_tunnel-IsSound db id c.stamp.admin c.stamp.now h)
  removal-Keeps id t (ok up) = remove_tunnel-Keeps up t

  pub handle_delete_tunnel-Keeps : (id : ℕ) → Keeps IsSound (handle_delete_tunnel kernel c id)
  unfolding handle_delete_tunnel
  handle_delete_tunnel-Keeps id =
      bind-Keeps IsSound (query (λ db. tunnel_row db id)) _
        (query-Keeps IsSound (λ db. tunnel_row db id))
        (λ t. read-Keeps IsSound _ (λ db. removal-Keeps id t (upstream_row db t.upstream_id)))
