-- ===== src/Store/Db.antt =====
-- internal/broker/store.go: the database as its tables, and the queries on them. Rows stand in the order
-- of their ids. A transaction either commits a new database or is rolled back, so that an operation
-- gives an error or the new database. SQLite is taken to keep the schema's constraints and not to fail
-- otherwise. Times are numbers; `now` is an argument.
pub mod Upstreams
pub mod Groups
pub mod Tunnels
pub mod Accounts
pub mod Legacy
pub mod Writes
pub mod Sound
pub mod Tests
use open_tunnelbroker.Prelude.{
  ℕ, zero, suc, ◌+◌, String, Bool, true, false, not, ◌&&◌, ◌||◌, List, [], ◌∷◌, ◌++◌, Option, none,
  some, ◌==◌, ltb, str_eq, if◌then◌else◌, any, codes, map,
}
use open_tunnelbroker.Firewall.Keys.{codes_less}
use open_tunnelbroker.Ndp.Proxy.{sort_by}
use open_tunnelbroker.Models.{
  Settings, Upstream, Tunnel, WarpAccount, valid_upstream_mode, upstream_routed,
}

pub record RoutingGroup : Type 0 where
  pub id : ℕ
  pub name : String
  pub tunnel_count : ℕ
  pub created_at : ℕ

-- A row of the audit log.
pub record Audit : Type 0 where
  pub admin : String
  pub action : String
  pub tunnel : Option ℕ
  pub detail : String
  pub created_at : ℕ

-- The tables. A tunnel's row leaves its routing groups to `members`, which holds pairs of a tunnel's id
-- and a group's; an upstream's row leaves its tunnel count, and a group's too, to the queries.
pub record Db : Type 0 where
  pub settings : Settings
  pub upstreams : List Upstream
  pub tunnels : List Tunnel
  pub groups : List RoutingGroup
  pub members : List (ℕ × ℕ)
  pub warp : Option WarpAccount
  pub admins : List (String × List ℕ)
  pub audit : List Audit

pub data StoreError : Type 0 where
  no_rows upstream_name_used upstream_interface_used tunnel_key_used tunnel_prefix_used
        tunnel_address_used group_exists group_missing tunnel_missing membership_used
        upstream_in_use pool_unparsable pool_exhausted admin_exists credentials_invalid
        allocation_unparsable :
      StoreError

-- What a query or a transaction gives.
pub data Tried {ℓ} (A : Type ℓ) : Type ℓ where
  ok : A → Tried A
  err : StoreError → Tried A

infixl 5 ◌>>=◌ ◌>>◌
abbrev pub ◌>>=◌ {ℓ κ} : {A : Type ℓ} {B : Type κ} → Tried A → (A → Tried B) → Tried B
ok a >>= f = f a
err e >>= f = err e

abbrev pub ◌>>◌ {ℓ} : {B : Type ℓ} → Tried (Unit {0}) → Tried B → Tried B
m >> k = m >>= λ _. k

-- A constraint or a test in the code: it holds, or the transaction is rolled back.
abbrev pub reject_if : Bool → StoreError → Tried (Unit {0})
reject_if true e = err e
reject_if false e = ok tt

-- A fresh INTEGER PRIMARY KEY: one more than the largest id.
unfoldable pub next_id : List ℕ → ℕ
next_id [] = 1
next_id (id ∷ ids) = let rest = next_id ids in if ltb id rest then rest else suc id

-- AddAudit, and the INSERT INTO audit_log of the transactions.
unfoldable pub add_audit : Db → String → String → Option ℕ → String → ℕ → Db
add_audit db admin action tunnel detail now = record db {
  audit =
      db.audit
      ++ (record {
        admin = admin;
        action = action;
        tunnel = tunnel;
        detail = detail;
        created_at = now;
      }
          ∷ []);
}

-- SET status='pending', updated_at=?
unfoldable pub set_pending : ℕ → Tunnel → Tunnel
set_pending now t = record t { status = "pending"; updated_at = now }

-- SELECT … WHERE id=? on upstreams and tunnels.
unfoldable pub find_upstream : List Upstream → ℕ → Option Upstream
find_upstream [] id = none
find_upstream (up ∷ ups) id = if up.id == id then some up else find_upstream ups id

unfoldable pub find_tunnel : List Tunnel → ℕ → Option Tunnel
find_tunnel [] id = none
find_tunnel (t ∷ ts) id = if t.id == id then some t else find_tunnel ts id

-- SELECT COUNT(*) FROM tunnels WHERE upstream_id=?
unfoldable pub count_tunnels : List Tunnel → ℕ → ℕ
count_tunnels [] id = 0
count_tunnels (t ∷ ts) id =
    let rest = count_tunnels ts id in if t.upstream_id == id then suc rest else rest

-- scanUpstream, and the tunnel count that Upstreams and Upstream add.
unfoldable pub load_upstream : List Tunnel → Upstream → Upstream
unfolding count_tunnels
load_upstream tunnels up = record up {
  mode = if valid_upstream_mode up.mode then up.mode else upstream_routed;
  tunnel_count = count_tunnels tunnels up.id;
}

unfoldable pub name_before : Upstream → Upstream → Bool
name_before a b = codes_less (codes a.name) (codes b.name)

-- Store.Upstreams: ORDER BY name.
unfoldable pub all_upstreams : Db → List Upstream
unfolding load_upstream
all_upstreams db = sort_by name_before (map (load_upstream db.tunnels) db.upstreams)

-- Store.Upstream; `err no_rows` is sql.ErrNoRows.
unfoldable pub upstream_row : Db → ℕ → Tried Upstream
upstream_row db id = elim (find_upstream db.upstreams id) [
  | none ↦ err no_rows
  | some up ↦ ok (load_upstream db.tunnels up)
]

-- The names of the groups that a tunnel is a member of, from the groups in their order by name.
unfoldable pub group_names_of : List (ℕ × ℕ) → List RoutingGroup → ℕ → List String
group_names_of members [] tunnel = []
group_names_of members (group ∷ groups) tunnel =
    let rest = group_names_of members groups tunnel in
    if any (λ m. m.0 == tunnel && m.1 == group.id) members then group.name ∷ rest else rest

unfoldable pub group_before : RoutingGroup → RoutingGroup → Bool
group_before a b = codes_less (codes a.name) (codes b.name)

-- loadRoutingMemberships on one tunnel.
unfoldable pub load_tunnel : Db → Tunnel → Tunnel
unfolding group_names_of
load_tunnel db t = record t {
  routing_groups = group_names_of db.members (sort_by group_before db.groups) t.id;
}

unfoldable pub tunnel_before : Tunnel → Tunnel → Bool
tunnel_before a b =
    ltb a.upstream_id b.upstream_id
    || (a.upstream_id == b.upstream_id && codes_less (codes a.v6_cidr) (codes b.v6_cidr))

-- Store.Tunnels: ORDER BY upstream_id, allocated_v6_cidr.
unfoldable pub all_tunnels : Db → List Tunnel
unfolding load_tunnel
all_tunnels db = sort_by tunnel_before (map (load_tunnel db) db.tunnels)

unfoldable pub only_upstream : List Tunnel → ℕ → List Tunnel
only_upstream [] id = []
only_upstream (t ∷ ts) id =
    let rest = only_upstream ts id in if t.upstream_id == id then t ∷ rest else rest

-- Store.TunnelsForUpstream.
unfoldable pub tunnels_for_upstream : Db → ℕ → List Tunnel
tunnels_for_upstream db id =
    sort_by tunnel_before (map (load_tunnel db) (only_upstream db.tunnels id))

-- Store.Tunnel.
unfoldable pub tunnel_row : Db → ℕ → Tried Tunnel
tunnel_row db id = elim (find_tunnel db.tunnels id) [
  | none ↦ err no_rows
  | some t ↦ ok (load_tunnel db t)
]
