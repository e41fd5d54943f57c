-- ===== src/Store/Db/Tunnels.antt =====
-- internal/broker/store.go: the transactions on tunnels.
use open_tunnelbroker.Prelude.{
  ℕ, String, Bool, false, not, ◌&&◌, List, [], ◌∷◌, ◌++◌, none, some, ◌==◌, str_eq, if◌then◌else◌,
  any, map,
}
use open_tunnelbroker.Prelude.Int.{pos, pos_part, word64, int64}
use open_tunnelbroker.Netip.Print.{itoa}
use open_tunnelbroker.Models.{Tunnel}
use open_tunnelbroker.Store.Table.{update_where, delete_where}
use open_tunnelbroker.Store.Quota.{
  Row, update_telemetry, quota_hit, reset_row, set_quota, set_enabled,
}
use open_tunnelbroker.Store.Db.{
  Db, Tried, ok, err, ◌>>=◌, ◌>>◌, reject_if, next_id, add_audit, find_tunnel, no_rows,
  tunnel_key_used, tunnel_prefix_used, tunnel_address_used, set_pending,
}
use open_tunnelbroker.Store.Db.Groups.{set_memberships}

-- The UNIQUE constraints of the table. `nullable` stores a missing address as NULL, which is in conflict
-- with none.
unfoldable pub unique_tunnel : List Tunnel → Tunnel → Tried (Unit {0})
unique_tunnel rows t = do
  reject_if (any (λ r. str_eq r.public_key t.public_key) rows) tunnel_key_used
  reject_if (any (λ r. str_eq r.v6_cidr t.v6_cidr) rows) tunnel_prefix_used
  reject_if (not (str_eq t.v4_address "") && any (λ r. str_eq r.v4_address t.v4_address) rows)
      tunnel_address_used

-- The row that InsertTunnel stores: the columns that it leaves out have the defaults of the schema.
unfoldable pub new_row : Tunnel → ℕ → ℕ → Tunnel
new_row t id now = record t {
  id = id;
  status = "pending";
  last_error = "";
  quota_used_bytes = pos 0;
  quota_disabled = false;
  routing_groups = [];
  created_at = now;
  updated_at = now;
  last_handshake = 0;
  rx_bytes = pos 0;
  tx_bytes = pos 0;
}

unfoldable pub insert_tunnel : Db → Tunnel → String → ℕ → Tried (ℕ × Db)
unfolding unique_tunnel set_memberships
insert_tunnel db t admin now =
    let id = next_id (map (λ r. r.id) db.tunnels) in
    do
      unique_tunnel db.tunnels t
      db' ←
          set_memberships (record db { tunnels = db.tunnels ++ (new_row t id now ∷ []) }) id
            t.routing_groups
      ok (id, add_audit db' admin "create" (some id) t.v6_cidr now)

-- UPDATE tunnels SET … WHERE id=?
unfoldable pub update_tunnel : Db → ℕ → (Tunnel → Tunnel) → Db
update_tunnel db id f = record db { tunnels = update_where (λ t. t.id == id) f db.tunnels }

unfoldable pub store_v4_mode : String → ℕ → Tunnel → Tunnel
unfolding set_pending
store_v4_mode mode now t = set_pending now (record t { v4_mode = mode })

unfoldable pub set_v4_mode : Db → ℕ → String → String → ℕ → Db
unfolding update_tunnel
set_v4_mode db id mode admin now =
    add_audit (update_tunnel db id (store_v4_mode mode now)) admin "v4-mode" (some id) mode now

-- DeleteTunnel; the foreign key deletes the memberships too.
unfoldable pub delete_tunnel : Db → ℕ → String → ℕ → Db
delete_tunnel db id admin now =
    add_audit
      (record db {
        tunnels = delete_where (λ t. t.id == id) db.tunnels;
        members = delete_where (λ m. m.0 == id) db.members;
      })
      admin "delete" (some id) "" now

unfoldable pub store_status : String → String → ℕ → Tunnel → Tunnel
store_status status message now t = record t {
  status = status;
  last_error = message;
  updated_at = now;
}

unfoldable pub set_status : Db → ℕ → String → String → ℕ → Db
unfolding update_tunnel
set_status db id status message now = update_tunnel db id (store_status status message now)

-- The columns of a row that the quota operations read, and their results put back.
unfoldable pub quota_row : Tunnel → Row
quota_row t = record {
  rx_bytes = pos_part t.rx_bytes;
  tx_bytes = pos_part t.tx_bytes;
  quota_used_bytes = word64 t.quota_used_bytes;
  quota_gib = pos_part t.quota_gib;
  quota_period = t.quota_period;
  quota_disabled = t.quota_disabled;
  enabled = t.enabled;
  status = t.status;
}

unfoldable pub put_row : Row → ℕ → Tunnel → Tunnel
put_row row now t = record t {
  rx_bytes = pos row.rx_bytes;
  tx_bytes = pos row.tx_bytes;
  quota_used_bytes = int64 row.quota_used_bytes;
  quota_gib = pos row.quota_gib;
  quota_period = row.quota_period;
  quota_disabled = row.quota_disabled;
  enabled = row.enabled;
  status = row.status;
  updated_at = now;
}

unfoldable pub store_enabled : Bool → ℕ → Tunnel → Tunnel
unfolding set_enabled quota_row put_row
store_enabled on now t = put_row (set_enabled (quota_row t) on) now t

-- Store.SetEnabled: two statements, not a transaction.
unfoldable pub set_tunnel_enabled : Db → ℕ → Bool → String → ℕ → Db
unfolding update_tunnel
set_tunnel_enabled db id on admin now =
    add_audit (update_tunnel db id (store_enabled on now)) admin "enable" (some id)
      (if on then "true" else "false") now

unfoldable pub store_telemetry : Tunnel → String → ℕ → Tunnel → Tunnel
unfolding update_telemetry quota_row put_row
store_telemetry read month now t =
    record (put_row
      (update_telemetry (quota_row t) (pos_part read.rx_bytes) (pos_part read.tx_bytes) month) now
      t) { last_handshake = read.last_handshake }

-- Store.UpdateTelemetry on what was read from the kernel, in the month of `now`.
unfoldable pub update_tunnel_telemetry : Db → Tunnel → String → ℕ → Tried (Bool × Db)
unfolding update_tunnel
update_tunnel_telemetry db read month now = elim (find_tunnel db.tunnels read.id) [
  | none ↦ err no_rows
  | some t ↦ ok (
    quota_hit (quota_row t) (pos_part read.rx_bytes) (pos_part read.tx_bytes) month,
    update_tunnel db read.id (store_telemetry read month now),
  )
]

unfoldable pub store_reset : String → ℕ → Tunnel → Tunnel
unfolding reset_row quota_row put_row
store_reset month now t = put_row (reset_row month (quota_row t)) now t

unfoldable pub reset_monthly_quotas : Db → String → ℕ → Db
reset_monthly_quotas db month now = record db {
  tunnels =
      update_where (λ t. not (str_eq t.quota_period month)) (store_reset month now) db.tunnels;
}

unfoldable pub store_quota : ℕ → ℕ → Tunnel → Tunnel
unfolding set_quota quota_row put_row
store_quota quota now t = put_row (set_quota (quota_row t) quota) now t

unfoldable pub set_tunnel_quota : Db → ℕ → ℕ → String → ℕ → Tried Db
unfolding update_tunnel
set_tunnel_quota db id quota admin now = elim (find_tunnel db.tunnels id) [
  | none ↦ err no_rows
  | some t ↦ ok (
      add_audit (update_tunnel db id (store_quota quota now)) admin "quota" (some id) (itoa quota)
        now)
]
