-- ===== src/Store/Db/Writes.antt =====
-- The operations of internal/broker/store.go that write, as values.
use open_tunnelbroker.Prelude.{ℕ, String, Bool, List, [], ◌∷◌, none}
use open_tunnelbroker.Models.{Settings, Upstream, Tunnel, WarpAccount}
use open_tunnelbroker.Store.Db.{Db, Tried, ok, err, ◌>>=◌, add_audit}
use open_tunnelbroker.Store.Db.Upstreams.{insert_upstream, update_upstream, delete_upstream}
use open_tunnelbroker.Store.Db.Groups.{
  set_tunnel_routing_groups, create_routing_group, rename_routing_group, delete_routing_group,
}
use open_tunnelbroker.Store.Db.Tunnels.{
  insert_tunnel, set_v4_mode, delete_tunnel, set_status, set_tunnel_enabled,
  update_tunnel_telemetry, reset_monthly_quotas, set_tunnel_quota,
}
use open_tunnelbroker.Store.Db.Accounts.{
  ensure_allocations, store_settings, save_warp_account, save_warp_test, add_admin,
}

pub data Write : Type 0 where
  settings_saved addresses_ensured : Settings → Write
  upstream_inserted upstream_updated : Upstream → Write
  upstream_deleted tunnel_deleted group_deleted : ℕ → Write
  tunnel_created telemetry_updated : Tunnel → Write
  v4_mode_set group_renamed : ℕ → String → Write
  enabled_set : ℕ → Bool → Write
  status_set : ℕ → String → String → Write
  quotas_reset : Write
  quota_set : ℕ → ℕ → Write
  groups_set : ℕ → List String → Write
  group_created : String → Write
  account_saved : WarpAccount → Write
  test_saved : String → ℕ → Write
  admin_added : String → List ℕ → Write
  audit_added : String → String → Write

-- Who writes, the month, and the time.
pub record Stamp : Type 0 where
  pub admin : String
  pub month : String
  pub now : ℕ

unfoldable pub run_write : Write → Stamp → Db → Tried Db
run_write (settings_saved v) s db = store_settings db v
run_write (addresses_ensured cfg) s db = ensure_allocations db cfg
run_write (upstream_inserted up) s db = do row ← insert_upstream db up s.admin s.now; ok row.1
run_write (upstream_updated up) s db = update_upstream db up s.admin s.now
run_write (upstream_deleted id) s db = delete_upstream db id s.admin s.now
run_write (tunnel_deleted id) s db = ok (delete_tunnel db id s.admin s.now)
run_write (group_deleted id) s db = delete_routing_group db id s.admin s.now
run_write (tunnel_created t) s db = do row ← insert_tunnel db t s.admin s.now; ok row.1
run_write (telemetry_updated t) s db = do row ← update_tunnel_telemetry db t s.month s.now; ok row.1
run_write (v4_mode_set id mode) s db = ok (set_v4_mode db id mode s.admin s.now)
run_write (group_renamed id name) s db = rename_routing_group db id name s.admin s.now
run_write (enabled_set id on) s db = ok (set_tunnel_enabled db id on s.admin s.now)
run_write (status_set id status message) s db = ok (set_status db id status message s.now)
run_write quotas_reset s db = ok (reset_monthly_quotas db s.month s.now)
run_write (quota_set id quota) s db = set_tunnel_quota db id quota s.admin s.now
run_write (groups_set id names) s db = set_tunnel_routing_groups db id names s.admin s.now
run_write (group_created name) s db = create_routing_group db name s.admin s.now
run_write (account_saved account) s db = ok (save_warp_account db account)
run_write (test_saved trace tested) s db = ok (save_warp_test db trace tested)
run_write (admin_added user hash) s db = add_admin db user hash
run_write (audit_added action detail) s db = ok (add_audit db s.admin action none detail s.now)

-- A write that fails is rolled back.
unfoldable pub commit : Db → Tried Db → Db
commit db (err e) = db
commit db (ok new) = new

unfoldable pub run_writes : List (Write × Stamp) → Db → Db
unfolding run_write commit
run_writes [] db = db
run_writes (w ∷ ws) db = run_writes ws (commit db (run_write w.0 w.1 db))
