-- ===== src/Store/Db/Groups.antt =====
-- internal/broker/store.go: routing groups and the memberships of tunnels in them.
pub mod Read
use Prim.Native.String
use open_tunnelbroker.Prelude.{
  ℕ, suc, String, Bool, not, ◌&&◌, ◌||◌, true, false, List, [], ◌∷◌, ◌++◌, Option, none, some, ◌==◌,
  str_eq, if◌then◌else◌, any, map, join,
}
use open_tunnelbroker.Ndp.Proxy.{sort_by}
use open_tunnelbroker.Models.{Tunnel}
use open_tunnelbroker.Store.Table.{update_where, delete_where}
use open_tunnelbroker.Store.Db.{
  Db, RoutingGroup, Tried, ok, err, ◌>>=◌, ◌>>◌, reject_if, next_id, add_audit, no_rows,
  group_exists, group_missing, tunnel_missing, membership_used, group_before, set_pending,
}

unfoldable pub has_group : List RoutingGroup → String → Bool
has_group groups name = any (λ g. str_eq g.name name) groups

-- The first loop of setTunnelRoutingGroupsTx.
unfoldable pub check_groups : List RoutingGroup → List String → Tried (Unit {0})
check_groups groups [] = ok tt
check_groups groups (name ∷ names) = do
  reject_if (not (has_group groups name)) group_missing
  check_groups groups names

-- INSERT INTO tunnel_routing_groups … SELECT ?,id FROM routing_groups WHERE name=?
unfoldable pub join_named : List RoutingGroup → ℕ → String → List (ℕ × ℕ)
join_named [] tunnel name = []
join_named (g ∷ groups) tunnel name =
    let rest = join_named groups tunnel name in
    if str_eq g.name name then (tunnel, g.id) ∷ rest else rest

unfoldable pub join_groups : List RoutingGroup → ℕ → List String → List (ℕ × ℕ)
unfolding join_named
join_groups groups tunnel [] = []
join_groups groups tunnel (name ∷ names) =
    join_named groups tunnel name ++ join_groups groups tunnel names

unfoldable pub has_repeat : List String → Bool
has_repeat [] = false
has_repeat (name ∷ names) = any (str_eq name) names || has_repeat names

-- setTunnelRoutingGroupsTx. The insertions need a stored tunnel, and are pairs without repetition, by the
-- constraints of the table.
unfoldable pub set_memberships : Db → ℕ → List String → Tried Db
unfolding join_groups has_repeat
set_memberships db tunnel names = do
  check_groups db.groups names
  reject_if (any (λ name. true) names && not (any (λ t. t.id == tunnel) db.tunnels)) tunnel_missing
  reject_if (has_repeat names) membership_used
  ok (record db {
    members = delete_where (λ m. m.0 == tunnel) db.members ++ join_groups db.groups tunnel names;
  })

unfoldable pub set_tunnel_routing_groups : Db → ℕ → List String → String → ℕ → Tried Db
unfolding set_memberships
set_tunnel_routing_groups db id names admin now = do
  db' ← set_memberships db id names
  ok (
      add_audit
        (record db' { tunnels = update_where (λ t. t.id == id) (set_pending now) db'.tunnels })
        admin "routing-groups" (some id) (join names ", ") now)

unfoldable pub count_members : List (ℕ × ℕ) → ℕ → ℕ
count_members [] group = 0
count_members (m ∷ members) group =
    let rest = count_members members group in if m.1 == group then suc rest else rest

-- Store.RoutingGroups.
unfoldable pub count_group : List (ℕ × ℕ) → RoutingGroup → RoutingGroup
unfolding count_members
count_group members g = record g { tunnel_count = count_members members g.id }

unfoldable pub routing_groups : Db → List RoutingGroup
unfolding count_group
routing_groups db = sort_by group_before (map (count_group db.members) db.groups)

unfoldable pub create_routing_group : Db → String → String → ℕ → Tried Db
create_routing_group db name admin now =
    let row : RoutingGroup = record {
      id = next_id (map (λ g. g.id) db.groups);
      name = name;
      tunnel_count = 0;
      created_at = now;
    } in
    do
      reject_if (has_group db.groups name) group_exists
      ok (
          add_audit (record db { groups = db.groups ++ (row ∷ []) }) admin "routing-group-create"
            none name now)

unfoldable pub find_group : List RoutingGroup → ℕ → Option RoutingGroup
find_group [] id = none
find_group (g ∷ groups) id = if g.id == id then some g else find_group groups id

unfoldable pub set_name : String → RoutingGroup → RoutingGroup
set_name name group = record group { name = name }

unfoldable pub rename_routing_group : Db → ℕ → String → String → ℕ → Tried Db
rename_routing_group db id name admin now = elim (find_group db.groups id) [
  | none ↦ err no_rows
  | some old ↦ do
    reject_if (any (λ g. not (g.id == id) && str_eq g.name name) db.groups) group_exists
    ok (
        add_audit (record db { groups = update_where (λ g. g.id == id) (set_name name) db.groups })
          admin "routing-group-rename" none (String.◌++◌ old.name (String.◌++◌ " -> " name)) now)
]

-- DeleteRoutingGroup; the foreign key deletes the memberships too.
unfoldable pub delete_routing_group : Db → ℕ → String → ℕ → Tried Db
delete_routing_group db id admin now = elim (find_group db.groups id) [
  | none ↦ err no_rows
  | some group ↦ ok (
      add_audit
        (record db {
          groups = delete_where (λ g. g.id == id) db.groups;
          members = delete_where (λ m. m.1 == id) db.members;
        })
        admin "routing-group-delete" none group.name now)
]
