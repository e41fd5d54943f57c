-- ===== src/Store/Db/Sound/Writes.antt =====
-- Every write keeps the tables sound, whatever the writes before it.
use open_tunnelbroker.Prelude.{List, [], ◌∷◌, not, any, str_eq, ◌==◌, refl, ◌≡◌, true}
use open_tunnelbroker.Store.Db.{Db, Tried, ok, err, ◌>>=◌, add_audit, set_pending}
use open_tunnelbroker.Store.Db.Upstreams.{insert_upstream}
use open_tunnelbroker.Store.Db.Tunnels.{
  insert_tunnel, update_tunnel, store_v4_mode, set_v4_mode, store_status, set_status, store_enabled,
  set_tunnel_enabled, store_reset, reset_monthly_quotas, update_tunnel_telemetry,
}
use open_tunnelbroker.Store.Db.Accounts.{save_warp_account, save_warp_test, add_admin}
use open_tunnelbroker.Store.Db.Writes.{Write, Stamp, run_write, commit, run_writes}
use open_tunnelbroker.Store.Db.Sound.{IsSound}
use open_tunnelbroker.Store.Db.Sound.Gives.{Gives, reject-Gives, touch-IsSound}
use open_tunnelbroker.Store.Db.Sound.Addresses.{ensure_allocations-Gives, store_settings-Gives}
use open_tunnelbroker.Store.Db.Sound.Upstreams.{
  insert_upstream-Gives, update_upstream-Gives, delete_upstream-Gives,
}
use open_tunnelbroker.Store.Db.Sound.Groups.{
  set_groups-Gives, create_group-Gives, rename_group-Gives, delete_group-Gives,
}
use open_tunnelbroker.Store.Db.Sound.Tunnels.{
  insert_tunnel-Gives, delete_tunnel-IsSound, telemetry-Gives, set_tunnel_quota-Gives,
}

-- The result of a write that returns something beside the tables.
second-Gives :
    {A : Type 0} (m : Tried (A × Db))
    → Gives (λ (row : A × Db). IsSound row.1) m
    → Gives IsSound (m >>= λ row. ok row.1)
second-Gives (ok row) h = h
second-Gives (err e) h = tt

-- A tunnel is inserted only into an upstream that is stored. The table has no foreign key for it.
abbrev pub KeepsReference : Write → Db → Type 0
KeepsReference (Write.tunnel_created t) db = any (λ u. u.id == t.upstream_id) db.upstreams ≡ true
KeepsReference _ db = Unit

-- This holds at each write of a sequence, in the tables that the writes before it have left.
abbrev pub KeepReferences : List (Write × Stamp) → Db → Type 0
KeepReferences [] db = Unit
KeepReferences (w ∷ ws) db =
    KeepsReference w.0 db × KeepReferences ws (commit db (run_write w.0 w.1 db))

run_write-Gives :
    (w : Write) (s : Stamp) (db : Db)
    → KeepsReference w db
    → IsSound db
    → Gives IsSound (run_write w s db)
unfolding run_write add_audit set_v4_mode update_tunnel store_v4_mode set_pending set_tunnel_enabled
    store_enabled set_status store_status reset_monthly_quotas store_reset save_warp_account
    save_warp_test add_admin
run_write-Gives (Write.settings_saved v) s db refers sound = store_settings-Gives db v sound
run_write-Gives (Write.addresses_ensured cfg) s db refers sound =
    ensure_allocations-Gives db cfg sound
run_write-Gives (Write.upstream_inserted up) s db refers sound =
    second-Gives (insert_upstream db up s.admin s.now)
      (insert_upstream-Gives db up s.admin s.now sound)
run_write-Gives (Write.upstream_updated up) s db refers sound =
    update_upstream-Gives db up s.admin s.now sound
run_write-Gives (Write.upstream_deleted id) s db refers sound =
    delete_upstream-Gives db id s.admin s.now sound
run_write-Gives (Write.tunnel_deleted id) s db refers sound =
    delete_tunnel-IsSound db id s.admin s.now sound
run_write-Gives (Write.group_deleted id) s db refers sound =
    delete_group-Gives db id s.admin s.now sound
run_write-Gives (Write.tunnel_created t) s db refers sound =
    second-Gives (insert_tunnel db t s.admin s.now)
      (insert_tunnel-Gives db t s.admin s.now sound refers)
run_write-Gives (Write.telemetry_updated t) s db refers sound =
    second-Gives (update_tunnel_telemetry db t s.month s.now)
      (telemetry-Gives db t s.month s.now sound)
run_write-Gives (Write.v4_mode_set id mode) s db refers sound =
    touch-IsSound db (λ t. t.id == id) (store_v4_mode mode s.now) (λ t. refl) sound
run_write-Gives (Write.group_renamed id name) s db refers sound =
    rename_group-Gives db id name s.admin s.now sound
run_write-Gives (Write.enabled_set id on) s db refers sound =
    touch-IsSound db (λ t. t.id == id) (store_enabled on s.now) (λ t. refl) sound
run_write-Gives (Write.status_set id status message) s db refers sound =
    touch-IsSound db (λ t. t.id == id) (store_status status message s.now) (λ t. refl) sound
run_write-Gives Write.quotas_reset s db refers sound =
    touch-IsSound db (λ t. not (str_eq t.quota_period s.month)) (store_reset s.month s.now)
      (λ t. refl) sound
run_write-Gives (Write.quota_set id quota) s db refers sound =
    set_tunnel_quota-Gives db id quota s.admin s.now sound
run_write-Gives (Write.groups_set id names) s db refers sound =
    set_groups-Gives db id names s.admin s.now sound
run_write-Gives (Write.group_created name) s db refers sound =
    create_group-Gives db name s.admin s.now sound
run_write-Gives (Write.account_saved account) s db refers sound = sound
run_write-Gives (Write.test_saved trace tested) s db refers sound = sound
run_write-Gives (Write.admin_added user hash) s db refers sound =
    reject-Gives IsSound (any (λ a. str_eq a.0 user) db.admins) _ _ (λ free. sound)
run_write-Gives (Write.audit_added action detail) s db refers sound = sound

commit-IsSound : (db : Db) (m : Tried Db) → IsSound db → Gives IsSound m → IsSound (commit db m)
unfolding commit
commit-IsSound db (ok new) sound h = h
commit-IsSound db (err e) sound h = sound

-- In tables where every tunnel's upstream and both ends of every membership are stored, and ids, the
-- names and interfaces of upstreams, the keys and prefixes of tunnels and the names of groups do not
-- repeat, the same holds after any sequence of writes that inserts tunnels only into upstreams that are
-- stored at that time, where the writes that fail are rolled back.
pub run_writes-IsSound :
    (ws : List (Write × Stamp)) (db : Db)
    → KeepReferences ws db
    → IsSound db
    → IsSound (run_writes ws db)
unfolding run_writes
run_writes-IsSound [] db refer sound = sound
run_writes-IsSound (w ∷ ws) db refer sound =
    run_writes-IsSound ws (commit db (run_write w.0 w.1 db)) refer.1
      (commit-IsSound db (run_write w.0 w.1 db) sound (run_write-Gives w.0 w.1 db refer.0 sound))
