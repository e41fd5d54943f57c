-- ===== src/Store/Db/Tests.antt =====
-- The theorems on the tables, on a database with one upstream, one tunnel and one routing group.
use open_tunnelbroker.Prelude.{
  ℕ, List, [], ◌∷◌, ◌≡◌, refl, false, none, some, any, map, str_eq, trim_space,
}
use open_tunnelbroker.Models.{Upstream, Settings, has_routing_group}
use open_tunnelbroker.Models.Tests.{on_link, tunnel}
use open_tunnelbroker.Store.Table.{IsUnique, delete_where}
use open_tunnelbroker.Store.Db.{Db, RoutingGroup, ok, load_tunnel}
use open_tunnelbroker.Store.Db.Groups.{
  set_memberships, check_groups, has_group, join_groups, join_named, has_repeat,
}
use open_tunnelbroker.Store.Db.Groups.Read.{set_memberships-has_routing_group}
use open_tunnelbroker.Store.Db.Legacy.{LegacySettings, migrate_legacy_upstream}
use open_tunnelbroker.Store.Db.Writes.{Write, Stamp, run_writes}
use open_tunnelbroker.Store.Db.Sound.{IsSound, UniqueTunnels, UniqueGroups, holding}
use open_tunnelbroker.Store.Db.Sound.Writes.{run_writes-IsSound}
use open_tunnelbroker.Store.Db.Sound.Migration.{
  migrate_legacy_upstream-IsSound, migrate_legacy_upstream-twice,
}

abbrev friends : RoutingGroup
friends = record { id = 1; name = "friends"; tunnel_count = 0; created_at = 0 }

abbrev settings : Settings
settings = record {
  v4_nat = false;
  v4_warp = false;
  v4_pool = "10.99.0.0/16";
  default_dns = "";
  inter_tunnel_policy = "groups";
}

abbrev tables : List Upstream → ℕ → Db
tables ups upstream = record {
  settings = settings;
  upstreams = ups;
  tunnels = record (tunnel 1) { upstream_id = upstream } ∷ [];
  groups = friends ∷ [];
  members = (1, 1) ∷ [];
  warp = none;
  admins = [];
  audit = [];
}

abbrev pub db : Db
db = tables (on_link "" ∷ []) 1

unique_tunnels : (n : ℕ) → UniqueTunnels (map holding (tables [] n).tunnels)
unfolding IsUnique
unique_tunnels n = record { ids = (refl, tt); keys = (refl, tt); prefixes = (refl, tt) }

unique_groups : UniqueGroups (friends ∷ [])
unfolding IsUnique
unique_groups = record { ids = (refl, tt); names = (refl, tt) }

pub db-IsSound : IsSound db
unfolding IsUnique
db-IsSound = record {
  attached = (refl, tt);
  joined = ((refl, refl), tt);
  upstreams = record { ids = (refl, tt); names = (refl, tt); interfaces = (refl, tt) };
  tunnels = unique_tunnels 1;
  groups = unique_groups;
}

abbrev stamp : Stamp
stamp = record { admin = "admin"; month = "2026-02"; now = 7 }

-- A tunnel, a group, and an upstream that cannot be deleted.
abbrev writes : List (Write × Stamp)
writes =
    (
      Write.tunnel_created (record (tunnel 0) {
        upstream_id = 1;
        public_key = "k";
        v6_cidr = "2001:db8::/64";
        routing_groups = "friends" ∷ [];
      }),
      stamp,
    )
    ∷ (Write.group_created "work", stamp)
    ∷ (Write.upstream_deleted 1, stamp)
    ∷ (Write.quotas_reset, stamp)
    ∷ (Write.group_deleted 1, stamp)
    ∷ []

run_writes-IsSound_example : IsSound (run_writes writes db)
run_writes-IsSound_example =
    run_writes-IsSound writes db (refl, (tt, (tt, (tt, (tt, tt))))) db-IsSound

abbrev legacy : LegacySettings
legacy = record { upstream = on_link ""; upstream_mode = none; transport_address = none }

has_prefix : str_eq (trim_space "2001:db8:0:1::/64") "" ≡ false
unfolding trim_space
has_prefix = refl

migrate_legacy_upstream-IsSound_example :
    IsSound (migrate_legacy_upstream (tables [] 0) (some legacy) 7)
migrate_legacy_upstream-IsSound_example =
    migrate_legacy_upstream-IsSound (tables [] 0) legacy 7 refl (refl, tt) has_prefix
      ((refl, refl), tt) (unique_tunnels 0) unique_groups

migrate_legacy_upstream-twice_example :
    migrate_legacy_upstream (migrate_legacy_upstream (tables [] 0) (some legacy) 7) (some legacy) 8
    ≡ migrate_legacy_upstream (tables [] 0) (some legacy) 7
migrate_legacy_upstream-twice_example =
    migrate_legacy_upstream-twice (tables [] 0) (some legacy) 7 8

joins : set_memberships db 1 ("friends" ∷ []) ≡ ok (record db { members = (1, 1) ∷ [] })
unfolding set_memberships join_groups join_named check_groups has_group has_repeat delete_where
joins = refl

set_memberships-has_routing_group_example :
    has_routing_group (load_tunnel (record db { members = (1, 1) ∷ [] }) (tunnel 1)) "friends"
    ≡ any (λ name. str_eq name "friends") ("friends" ∷ [])
set_memberships-has_routing_group_example =
    set_memberships-has_routing_group db (record db { members = (1, 1) ∷ [] }) (tunnel 1)
      ("friends" ∷ []) "friends" unique_groups.ids joins
