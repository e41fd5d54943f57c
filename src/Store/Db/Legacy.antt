-- ===== src/Store/Db/Legacy.antt =====
-- internal/broker/store.go: migrateLegacyUpstream and migrateLegacyRoutingGroups, which convert a
-- database that an older version wrote. The columns that only such a database has are arguments; `none`
-- is a missing column, or NULL in it.
use Prim.Native.String
use Prim.Native.Char.{code}
use open_tunnelbroker.Prelude.{
  ℕ, String, Bool, ◌&&◌, ◌||◌, List, [], ◌∷◌, ◌++◌, Option, none, some, ◌==◌, ltb, str_eq,
  if◌then◌else◌, any, map, length, trim_space,
}
use open_tunnelbroker.Models.{Upstream, Tunnel, valid_upstream_mode, upstream_routed}
use open_tunnelbroker.Store.Table.{update_where}
use open_tunnelbroker.Store.Db.{Db, RoutingGroup, add_audit, next_id}
use open_tunnelbroker.Store.Db.Groups.{has_group, join_named}

-- The old columns of the settings row. Those which the upstreams have too stand in `upstream`.
pub record LegacySettings : Type 0 where
  pub upstream : Upstream
  pub upstream_mode : Option String
  pub transport_address : Option String

unfoldable pub or_text : Option String → String → String
or_text none text = text
or_text (some stored) text = stored

-- The upstream that is stored for them.
unfoldable pub legacy_upstream : LegacySettings → ℕ → ℕ → Upstream
unfolding or_text
legacy_upstream legacy id now =
    let mode = or_text legacy.upstream_mode upstream_routed in
    record legacy.upstream {
      id = id;
      name = "primary";
      mode = if valid_upstream_mode mode then mode else upstream_routed;
      transport_address = or_text legacy.transport_address "";
      interface_name =
          if str_eq legacy.upstream.interface_name ""
          then "wg0"
          else legacy.upstream.interface_name;
      v4_mode = "";
      tunnel_count = 0;
      created_at = now;
      updated_at = now;
    }

unfoldable pub attach_tunnel : ℕ → Tunnel → Tunnel
attach_tunnel id t = record t { upstream_id = id }

unfoldable pub migrated_text : Upstream → String
migrated_text up =
    String.◌++◌ "converted single upstream " (String.◌++◌ up.v6_cidr " to upstream \"primary\"")

unfoldable pub convert_upstream : Db → LegacySettings → ℕ → Db
convert_upstream db legacy now =
    let id = next_id (map (λ u. u.id) db.upstreams) in
    let up = legacy_upstream legacy id now in
    add_audit
      (record db {
        upstreams = db.upstreams ++ (up ∷ []);
        tunnels = update_where (λ t. t.upstream_id == 0) (attach_tunnel id) db.tunnels;
      })
      "system" "upstream-migrate" none (migrated_text up) now

unfoldable pub migrate_legacy_upstream : Db → Option LegacySettings → ℕ → Db
unfolding convert_upstream
migrate_legacy_upstream db none now = db
migrate_legacy_upstream db (some legacy) now =
    if ltb 0 (length db.upstreams) || str_eq (trim_space legacy.upstream.v6_cidr) ""
    then db
    else convert_upstream db legacy now

-- SQLite's TRIM, of spaces.
unfoldable pub trim_front : String → String
trim_front String.[] = String.[]
trim_front (String.◌∷◌ c s) =
    let rest = trim_front s in if code c == 32 then rest else String.◌∷◌ c s

unfoldable pub trim_back : String → String
trim_back String.[] = String.[]
trim_back (String.◌∷◌ c s) = elim (trim_back s) [
  | String.[] ↦ if code c == 32 then String.[] else String.◌∷◌ c String.[]
  | String.◌∷◌ d t ↦ String.◌∷◌ c (String.◌∷◌ d t)
]

unfoldable pub trim_sql : String → String
unfolding trim_front trim_back
trim_sql s = trim_back (trim_front s)

-- INSERT OR IGNORE INTO routing_groups, for the texts of the tunnels' old column.
unfoldable pub legacy_groups : List (ℕ × String) → List RoutingGroup → ℕ → List RoutingGroup
legacy_groups [] groups now = groups
legacy_groups (row ∷ rows) groups now =
    let name = trim_sql row.1 in
    let group : RoutingGroup = record {
      id = next_id (map (λ g. g.id) groups);
      name = name;
      tunnel_count = 0;
      created_at = now;
    } in
    let groups' =
      if str_eq name "" || has_group groups name then groups else groups ++ (group ∷ []) in
    legacy_groups rows groups' now

unfoldable pub same_pair : ℕ × ℕ → ℕ × ℕ → Bool
same_pair a b = a.0 == b.0 && a.1 == b.1

-- INSERT OR IGNORE of pairs.
unfoldable pub add_pairs : List (ℕ × ℕ) → List (ℕ × ℕ) → List (ℕ × ℕ)
add_pairs members [] = members
add_pairs members (m ∷ ms) =
    let rest = add_pairs members ms in if any (same_pair m) rest then rest else m ∷ rest

unfoldable pub legacy_members : List (ℕ × String) → List RoutingGroup → List (ℕ × ℕ)
unfolding join_named
legacy_members [] groups = []
legacy_members (row ∷ rows) groups =
    let rest = legacy_members rows groups in
    let name = trim_sql row.1 in
    if str_eq name "" then rest else join_named groups row.0 name ++ rest

-- migrateLegacyRoutingGroups. `column` pairs the tunnels' ids with their routing_group.
unfoldable pub migrate_legacy_routing_groups : Db → List (ℕ × String) → ℕ → Db
unfolding legacy_groups add_pairs legacy_members
migrate_legacy_routing_groups db column now =
    let groups = legacy_groups column db.groups now in
    record db { groups = groups; members = add_pairs db.members (legacy_members column groups) }
