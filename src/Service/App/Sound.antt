-- ===== src/Service/App/Sound.antt =====
-- The reconciliation keeps the tables sound, also where it fails.
pub mod Handlers
pub mod Created
pub mod Requests
use open_tunnelbroker.Prelude.{
  ℕ, String, Bool, true, false, not, ◌||◌, List, [], ◌∷◌, Option, str_eq, if◌then◌else◌, ◌==◌, refl,
}
use open_tunnelbroker.Models.{Settings, Upstream, Tunnel, WarpAccount, account_exists}
use open_tunnelbroker.Store.Db.{Db, Tried, ok, err, all_upstreams, all_tunnels, add_audit}
use open_tunnelbroker.Store.Db.Tunnels.{
  set_status, update_tunnel, store_status, reset_monthly_quotas, store_reset,
  update_tunnel_telemetry,
}
use open_tunnelbroker.Store.Db.Accounts.{ensure_allocations, warp_account}
use open_tunnelbroker.Store.Db.Writes.{Stamp}
use open_tunnelbroker.Store.Db.Sound.{IsSound}
use open_tunnelbroker.Store.Db.Sound.Gives.{Gives, touch-IsSound}
use open_tunnelbroker.Store.Db.Sound.Addresses.{ensure_allocations-Gives}
use open_tunnelbroker.Store.Db.Sound.Tunnels.{telemetry-Gives}
use open_tunnelbroker.Service.App.{
  Answer, answer, broken, Kernel, World, Reply, returned, failed, Act, ◌>>=◌, ◌>>◌, return, fail,
  check, read, transact, set_error, call, refused, in_kernel,
}
use open_tunnelbroker.Service.App.Reconcile.{
  is_ipv4_pool, needs_warp, needs_ipv4, ensure_addresses, mark_all, mark_applied, took,
  take_telemetry, take_all, reconcile_empty, apply_again, inspected, inspect_drift, after_apply,
  set_reconciled, apply_all, reconcile_upstreams, reconcile,
}
use open_tunnelbroker.Service.App.Keeps.{
  Keeps, bind-Keeps, transact-Keeps, call-Keeps, check-Keeps, answer-Keeps, then-Keeps, read-Keeps,
}

pub set_status-IsSound :
    (db : Db) (id : ℕ) (status message : String) (now : ℕ)
    → IsSound db
    → IsSound (set_status db id status message now)
unfolding set_status update_tunnel store_status
set_status-IsSound db id status message now sound =
    touch-IsSound db (λ t. t.id == id) (store_status status message now) (λ t. refl) sound

choose_ok : (b : Bool) (x y : Db) → IsSound x → IsSound y → Gives IsSound (if b then ok x else ok y)
choose_ok true x y h k = h
choose_ok false x y h k = k

module _ {K : Type 0} where
  ensure_addresses-Keeps :
      (cfg : Settings) (needed : Bool) → Keeps {K = K} IsSound (ensure_addresses cfg needed)
  unfolding ensure_addresses
  ensure_addresses-Keeps cfg false = λ w h. h
  ensure_addresses-Keeps cfg true =
      bind-Keeps IsSound (check (is_ipv4_pool cfg.v4_pool) refused) _
        (check-Keeps IsSound (is_ipv4_pool cfg.v4_pool) refused)
        (λ done.
          transact-Keeps IsSound (λ db. ensure_allocations db cfg)
            (λ db h. ensure_allocations-Gives db cfg h))

  mark_all-Keeps :
      (ts : List Tunnel) (text : String) (now : ℕ) → Keeps {K = K} IsSound (mark_all ts text now)
  unfolding mark_all
  mark_all-Keeps [] text now = λ w h. h
  mark_all-Keeps (t ∷ ts) text now =
      bind-Keeps IsSound (transact (λ db. ok (set_status db t.id "error" text now))) _
        (transact-Keeps IsSound (λ db. ok (set_status db t.id "error" text now))
          (λ db h. set_status-IsSound db t.id "error" text now h))
        (λ done. mark_all-Keeps ts text now)

  mark_applied-Keeps : (ts : List Tunnel) (now : ℕ) → Keeps {K = K} IsSound (mark_applied ts now)
  unfolding mark_applied
  mark_applied-Keeps [] now = λ w h. h
  mark_applied-Keeps (t ∷ ts) now =
      let mark : Db → Tried Db =
        λ db. if t.quota_disabled then ok db else ok (set_status db t.id "applied" "" now) in
      bind-Keeps IsSound (transact mark) _
        (transact-Keeps IsSound mark (λ db h.
          choose_ok t.quota_disabled db (set_status db t.id "applied" "" now) h
            (set_status-IsSound db t.id "applied" "" now h)))
        (λ done. mark_applied-Keeps ts now)

  took-Keeps :
      (w : World K) (r : Tried (Bool × Db))
      → IsSound w.db
      → Gives (λ (row : Bool × Db). IsSound row.1) r
      → IsSound (took w r).1.db
  took-Keeps w (ok row) h g = g
  took-Keeps w (err e) h g = h

  take_all-Keeps : (ts : List Tunnel) (s : Stamp) → Keeps {K = K} IsSound (take_all ts s)
  unfolding take_all take_telemetry
  take_all-Keeps [] s = λ w h. h
  take_all-Keeps (t ∷ ts) s =
      bind-Keeps IsSound (take_telemetry t s) _
        (λ w h.
          took-Keeps w (update_tunnel_telemetry w.db t s.month s.now) h
            (telemetry-Gives w.db t s.month s.now h))
        (λ hit. bind-Keeps IsSound (take_all ts s) _ (take_all-Keeps ts s) (λ later w h. h))

  refuse-Keeps :
      (text : String)
      → Keeps {K = K} IsSound (set_error text >> fail {A = Unit {0}} (in_kernel text))
  refuse-Keeps text = bind-Keeps IsSound (set_error text) _ (λ w h. h) (λ done w h. h)

module _ {K : Type 0} (kernel : Kernel K) (s : Stamp) where
  inspected-Keeps :
      (w : World K) (r : Answer (List String))
      → IsSound w.db
      → IsSound (inspected kernel s w r).1.db
  inspected-Keeps w (answer drift) h = h
  inspected-Keeps w (broken text) h = h

  reconcile_empty-Keeps : (db : Db) → Keeps IsSound (reconcile_empty kernel s db)
  unfolding reconcile_empty
  reconcile_empty-Keeps db =
      bind-Keeps IsSound (call (kernel.apply db.settings (warp_account db) [] [])) _
        (call-Keeps IsSound (kernel.apply db.settings (warp_account db) [] []))
        (λ applied. answer-Keeps IsSound applied _ _ refuse-Keeps (λ live w h. h))

  apply_again-Keeps :
      (cfg : Settings) (warp : WarpAccount) (ups : List Upstream) (ts : List Tunnel) (hit : Bool)
      → Keeps IsSound (apply_again kernel s cfg warp ups ts hit)
  unfolding apply_again
  apply_again-Keeps cfg warp ups ts false = λ w h. h
  apply_again-Keeps cfg warp ups ts true =
      bind-Keeps IsSound (call (kernel.apply cfg warp ups ts)) _
        (call-Keeps IsSound (kernel.apply cfg warp ups ts))
        (λ applied. answer-Keeps IsSound applied _ _ refuse-Keeps (λ live w h. h))

  after_apply-Keeps :
      (cfg : Settings) (warp : WarpAccount) (ups : List Upstream) (live : List Tunnel)
      → Keeps IsSound (after_apply kernel s cfg warp ups live)
  unfolding after_apply inspect_drift
  after_apply-Keeps cfg warp ups live =
      bind-Keeps IsSound (set_error "") _ (λ w h. h)
        (λ done. bind-Keeps IsSound (take_all live s) _ (take_all-Keeps live s) (λ hit.
          bind-Keeps IsSound read _ (λ w h. h)
            (λ db.
              bind-Keeps IsSound (apply_again kernel s cfg warp ups (all_tunnels db) hit) _
                (apply_again-Keeps cfg warp ups (all_tunnels db) hit)
                (λ again.
                  bind-Keeps IsSound (mark_applied (all_tunnels db) s.now) _
                    (mark_applied-Keeps (all_tunnels db) s.now)
                    (λ marked w h.
                      inspected-Keeps w (kernel.inspect cfg warp ups (all_tunnels db) w.kernel)
                        h)))))

  apply_all-Keeps :
      (cfg : Settings) (warp : WarpAccount) (ups : List Upstream) (ts : List Tunnel)
      → Keeps IsSound (apply_all kernel s cfg warp ups ts)
  unfolding apply_all set_reconciled
  apply_all-Keeps cfg warp ups ts =
      bind-Keeps IsSound (call (kernel.apply cfg warp ups ts)) _
        (call-Keeps IsSound (kernel.apply cfg warp ups ts))
        (λ applied.
          bind-Keeps IsSound (set_reconciled kernel s) _ (λ w h. h)
            (λ done.
              answer-Keeps IsSound applied _ _
                (λ text.
                  bind-Keeps IsSound (set_error text) _ (λ w h. h)
                    (λ set.
                      bind-Keeps IsSound (mark_all ts text s.now) _ (mark_all-Keeps ts text s.now)
                        (λ marked w h. h)))
                (λ live. after_apply-Keeps cfg warp ups live)))

  reconcile_upstreams-Keeps :
      (cfg : Settings) (ups : List Upstream) → Keeps IsSound (reconcile_upstreams kernel s cfg ups)
  unfolding reconcile_upstreams
  reconcile_upstreams-Keeps cfg ups =
      bind-Keeps IsSound read _ (λ w h. h)
        (λ db.
          let usable =
            not (needs_warp cfg ups (all_tunnels db)) || account_exists (warp_account db) in
          bind-Keeps IsSound (check usable refused) _ (check-Keeps IsSound usable refused) (λ done.
            bind-Keeps IsSound (ensure_addresses cfg (needs_ipv4 cfg ups (all_tunnels db))) _
              (ensure_addresses-Keeps cfg (needs_ipv4 cfg ups (all_tunnels db)))
              (λ ensured.
                bind-Keeps IsSound read _ (λ w h. h)
                  (λ ready. apply_all-Keeps cfg (warp_account ready) ups (all_tunnels ready)))))

  pub reconcile-Keeps : Keeps IsSound (reconcile kernel s)
  unfolding reconcile reset_monthly_quotas store_reset
  reconcile-Keeps =
      then-Keeps IsSound (λ db. ok (reset_monthly_quotas db s.month s.now)) _
        (λ db h.
          touch-IsSound db (λ t. not (str_eq t.quota_period s.month)) (store_reset s.month s.now)
            (λ t. refl) h)
        (read-Keeps IsSound _ (λ db. by_upstreams db (all_upstreams db)))
    where
      by_upstreams :
          (db : Db) (ups : List Upstream)
          → Keeps IsSound (elim ups [
            | [] ↦ reconcile_empty kernel s db
            | up ∷ rest ↦ reconcile_upstreams kernel s db.settings (up ∷ rest)
          ])
      by_upstreams db [] = reconcile_empty-Keeps db
      by_upstreams db (up ∷ rest) = reconcile_upstreams-Keeps db.settings (up ∷ rest)
