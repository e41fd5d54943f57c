-- ===== src/Service/App/Reconcile.antt =====
-- internal/broker/service.go: reconcileLocked.
use open_tunnelbroker.Prelude.{
  ℕ, String, Bool, true, false, not, ◌||◌, List, [], ◌∷◌, none, some, str_eq, if◌then◌else◌, any,
}
use open_tunnelbroker.Prelude.Int.{pos}
use open_tunnelbroker.Netip.{is4}
use open_tunnelbroker.Netip.Text.{parse_prefix}
use open_tunnelbroker.Models.{
  Settings, Upstream, Tunnel, WarpAccount, account_exists, upstream_by_id, tunnel_v4_mode,
  v4_mode_off, v4_mode_warp,
}
use open_tunnelbroker.Store.Db.{Db, Tried, ok, err, all_upstreams, all_tunnels}
use open_tunnelbroker.Store.Db.Tunnels.{set_status, reset_monthly_quotas, update_tunnel_telemetry}
use open_tunnelbroker.Store.Db.Accounts.{ensure_allocations, warp_account}
use open_tunnelbroker.Store.Db.Writes.{Stamp}
use open_tunnelbroker.Service.App.{
  Answer, answer, broken, Kernel, World, Reply, returned, failed, Act, ◌>>=◌, ◌>>◌, return, fail,
  check, read, transact, set_health, set_error, call, refused, in_store, in_kernel,
}

-- Upstream{}, which a map of Go returns for a missing key.
abbrev pub zero_upstream : Upstream
zero_upstream = record {
  id = 0;
  name = "";
  v6_cidr = "";
  mode = "";
  public_v4 = "";
  egress_interface = "";
  interface_name = "";
  endpoint_host = "";
  endpoint_port = pos 0;
  server_address = "";
  server_private_key = "";
  transport_address = "";
  mtu = pos 0;
  keepalive = pos 0;
  min_prefix = pos 0;
  max_prefix = pos 0;
  default_prefix = pos 0;
  v4_mode = "";
  tunnel_count = 0;
  created_at = 0;
  updated_at = 0;
}

-- The mode of a tunnel in the loop that finds out what is needed.
unfoldable pub needed_mode : Settings → List Upstream → Tunnel → String
needed_mode cfg ups t = elim (upstream_by_id ups t.upstream_id) [
  | none ↦ tunnel_v4_mode cfg zero_upstream t
  | some up ↦ tunnel_v4_mode cfg up t
]

unfoldable pub needs_ipv4 : Settings → List Upstream → List Tunnel → Bool
unfolding needed_mode
needs_ipv4 cfg ups ts = any (λ t. not (str_eq (needed_mode cfg ups t) v4_mode_off)) ts

unfoldable pub needs_warp : Settings → List Upstream → List Tunnel → Bool
unfolding needed_mode
needs_warp cfg ups ts = any (λ t. str_eq (needed_mode cfg ups t) v4_mode_warp) ts

unfoldable pub is_ipv4_pool : String → Bool
is_ipv4_pool text = elim (parse_prefix text) [ none ↦ false | some pool ↦ is4 pool.addr ]

-- The text of sql.ErrNoRows, the one error of UpdateTelemetry here.
abbrev pub no_rows_text : String
no_rows_text = "sql: no rows in result set"

module _ {K : Type 0} where
  unfoldable pub ensure_addresses : Settings → Bool → Act K (Unit {0})
  unfolding is_ipv4_pool
  ensure_addresses cfg false = return tt
  ensure_addresses cfg true = do
    check (is_ipv4_pool cfg.v4_pool) refused
    transact (λ db. ensure_allocations db cfg)

  -- The loop that marks the tunnels after a failed Apply.
  unfoldable pub mark_all : List Tunnel → String → ℕ → Act K (Unit {0})
  mark_all [] text now = return tt
  mark_all (t ∷ ts) text now = do
    transact (λ db. ok (set_status db t.id "error" text now))
    mark_all ts text now

  unfoldable pub mark_applied : List Tunnel → ℕ → Act K (Unit {0})
  mark_applied [] now = return tt
  mark_applied (t ∷ ts) now = do
    transact (λ db. if t.quota_disabled then ok db else ok (set_status db t.id "applied" "" now))
    mark_applied ts now

  -- One round of the loop over the live tunnels.
  abbrev pub took : World K → Tried (Bool × Db) → Reply Bool × World K
  took w (ok row) = (returned row.0, record w { db = row.1 })
  took w (err e) =
      (failed (in_store e), record w { health = record w.health { error = no_rows_text } })

  unfoldable pub take_telemetry : Tunnel → Stamp → Act K Bool
  take_telemetry t s w = took w (update_tunnel_telemetry w.db t s.month s.now)

  -- Has some tunnel hit its quota?
  unfoldable pub take_all : List Tunnel → Stamp → Act K Bool
  unfolding take_telemetry
  take_all [] s = return false
  take_all (t ∷ ts) s = do hit ← take_telemetry t s; later ← take_all ts s; return (hit || later)

module _ {K : Type 0} (kernel : Kernel K) (s : Stamp) where
  unfoldable pub reconcile_empty : Db → Act K (Unit {0})
  reconcile_empty db = do
    applied ← call (kernel.apply db.settings (warp_account db) [] [])
    elim applied [
      | broken text ↦ set_error text >> fail (in_kernel text)
      | answer live ↦ set_health (record { drift = []; last_reconcile = s.now; error = "" })
    ]

  -- The second Apply, after a quota has been hit.
  unfoldable pub apply_again :
      Settings → WarpAccount → List Upstream → List Tunnel → Bool → Act K (Unit {0})
  apply_again cfg warp ups ts false = return tt
  apply_again cfg warp ups ts true = do
    applied ← call (kernel.apply cfg warp ups ts)
    elim applied [ broken text ↦ set_error text >> fail (in_kernel text) | answer live ↦ return tt ]

  -- A failed Inspect returns no drift.
  abbrev pub inspected : World K → Answer (List String) → Reply (Unit {0}) × World K
  inspected w (broken text) =
      (failed (in_kernel text), record w { health = record w.health { error = text; drift = [] } })
  inspected w (answer drift) =
      (returned tt, record w { health = record w.health { drift = drift } })

  unfoldable pub inspect_drift :
      Settings → WarpAccount → List Upstream → List Tunnel → Act K (Unit {0})
  inspect_drift cfg warp ups ts w = inspected w (kernel.inspect cfg warp ups ts w.kernel)

  unfoldable pub after_apply :
      Settings → WarpAccount → List Upstream → List Tunnel → Act K (Unit {0})
  unfolding take_all apply_again mark_applied inspect_drift
  after_apply cfg warp ups live = do
    set_error ""
    hit ← take_all live s
    db ← read
    apply_again cfg warp ups (all_tunnels db) hit
    mark_applied (all_tunnels db) s.now
    inspect_drift cfg warp ups (all_tunnels db)

  -- Apply, and what its result is.
  unfoldable pub set_reconciled : Act K (Unit {0})
  set_reconciled w = (returned tt, record w { health = record w.health { last_reconcile = s.now } })

  unfoldable pub apply_all : Settings → WarpAccount → List Upstream → List Tunnel → Act K (Unit {0})
  unfolding after_apply mark_all set_reconciled
  apply_all cfg warp ups ts = do
    applied ← call (kernel.apply cfg warp ups ts)
    set_reconciled
    elim applied [
      | broken text ↦ do set_error text; mark_all ts text s.now; fail (in_kernel text)
      | answer live ↦ after_apply cfg warp ups live
    ]

  unfoldable pub reconcile_upstreams : Settings → List Upstream → Act K (Unit {0})
  unfolding apply_all ensure_addresses needs_warp needs_ipv4
  reconcile_upstreams cfg ups = do
    db ← read
    let ts = all_tunnels db
    check (not (needs_warp cfg ups ts) || account_exists (warp_account db)) refused
    ensure_addresses cfg (needs_ipv4 cfg ups ts)
    ready ← read
    apply_all cfg (warp_account ready) ups (all_tunnels ready)

  -- reconcileLocked.
  unfoldable pub reconcile : Act K (Unit {0})
  unfolding reconcile_upstreams reconcile_empty
  reconcile = do
    transact (λ db. ok (reset_monthly_quotas db s.month s.now))
    db ← read
    elim (all_upstreams db) [
      | [] ↦ reconcile_empty db
      | up ∷ ups ↦ reconcile_upstreams db.settings (up ∷ ups)
    ]
