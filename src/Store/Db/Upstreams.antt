-- ===== src/Store/Db/Upstreams.antt =====
-- internal/broker/store.go: InsertUpstream, UpdateUpstream, translateUpstreamConflict, DeleteUpstream.
use Prim.Native.String
use open_tunnelbroker.Prelude.{
  ℕ, String, not, ◌&&◌, List, [], ◌∷◌, ◌++◌, none, some, ◌==◌, ltb, str_eq, any, map,
}
use open_tunnelbroker.Models.{Upstream}
use open_tunnelbroker.Store.Table.{update_where, delete_where}
use open_tunnelbroker.Store.Db.{
  Db, Tried, ok, err, ◌>>◌, reject_if, next_id, add_audit, find_upstream, count_tunnels, no_rows,
  upstream_name_used, upstream_interface_used, upstream_in_use, set_pending,
}

infixr 60 ◌<>◌
abbrev ◌<>◌ : String → String → String
s <> t = String.◌++◌ s t

-- The UNIQUE constraints of the table, against the rows with another id, with the message of
-- translateUpstreamConflict. SQLite reports the constraint on the name first.
unfoldable pub unique_upstream : List Upstream → Upstream → Tried (Unit {0})
unique_upstream rows up = do
  reject_if (any (λ r. not (r.id == up.id) && str_eq r.name up.name) rows) upstream_name_used
  reject_if (any (λ r. not (r.id == up.id) && str_eq r.interface_name up.interface_name) rows)
      upstream_interface_used

unfoldable pub insert_upstream : Db → Upstream → String → ℕ → Tried (ℕ × Db)
unfolding unique_upstream
insert_upstream db up admin now =
    let id = next_id (map (λ u. u.id) db.upstreams) in
    let row = record up { id = id; tunnel_count = 0; created_at = now; updated_at = now } in
    do
      unique_upstream db.upstreams row
      ok (
        id,
        add_audit (record db { upstreams = db.upstreams ++ (row ∷ []) }) admin "upstream-create"
            none (up.name <> " " <> up.v6_cidr) now,
      )

-- The columns that UPDATE upstreams leaves are the id and the time of creation.
unfoldable pub replace_upstream : Upstream → ℕ → Upstream → Upstream
replace_upstream up now row = record up {
  id = row.id;
  tunnel_count = row.tunnel_count;
  created_at = row.created_at;
  updated_at = now;
}

unfoldable pub update_upstream : Db → Upstream → String → ℕ → Tried Db
unfolding unique_upstream
update_upstream db up admin now = do
  unique_upstream db.upstreams up
  ok (
      add_audit
        (record db {
          upstreams = update_where (λ r. r.id == up.id) (replace_upstream up now) db.upstreams;
          tunnels = update_where (λ t. t.upstream_id == up.id) (set_pending now) db.tunnels;
        })
        admin "upstream-update" none (up.name <> " " <> up.v6_cidr) now)

unfoldable pub delete_upstream : Db → ℕ → String → ℕ → Tried Db
delete_upstream db id admin now = elim (find_upstream db.upstreams id) [
  | none ↦ err no_rows
  | some up ↦ do
    reject_if (ltb 0 (count_tunnels db.tunnels id)) upstream_in_use
    ok (
        add_audit (record db { upstreams = delete_where (λ r. r.id == id) db.upstreams }) admin
          "upstream-delete" none up.name now)
]
