-- ===== src/Service/App/Settled.antt =====
-- reconcileLocked of internal/broker/service.go as a whole: the tunnels after it has succeeded.
use mathlib.Core.Path.{subst}
use open_tunnelbroker.Prelude.{
  ℕ, String, Bool, true, false, not, List, [], ◌∷◌, any, map, All, ◌==◌, str_eq, ◌≡◌, refl, sym, ap,
  ◌∙◌, arith,
}
use open_tunnelbroker.Models.{Settings, Upstream, Tunnel, WarpAccount}
use open_tunnelbroker.Store.Db.{Db, all_tunnels, all_upstreams}
use open_tunnelbroker.Store.Db.Tunnels.{reset_monthly_quotas, store_reset}
use open_tunnelbroker.Store.Db.Accounts.{warp_account}
use open_tunnelbroker.Store.Db.Writes.{Stamp}
use open_tunnelbroker.Store.Db.Sound.{holding, IsSound, IsAttached}
use open_tunnelbroker.Store.Db.Sound.Gives.{touch-IsSound}
use open_tunnelbroker.Service.App.{
  Answer, answer, broken, Kernel, World, returned, Act, ◌>>=◌, ◌>>◌, continue, fail, return, check,
  read, set_error, set_health, call, called, in_kernel,
}
use open_tunnelbroker.Service.App.Reconcile.{
  mark_all, mark_applied, apply_again, inspected, inspect_drift, after_apply, take_all, apply_all,
  set_reconciled, reconcile_upstreams, needs_ipv4, ensure_addresses, reconcile_empty, reconcile,
}
use open_tunnelbroker.Service.App.Sound.Created.{all_upstreams-stored}
use open_tunnelbroker.Service.App.Applied.{
  IsSettled, IsCovered, Post, Triple, Anything, bind-Triple, skip-Triple, mark_applied-Triple,
  all_tunnels-IsCovered,
}

-- Every tunnel of the tables is settled.
abbrev pub AreSettled : Db → Type 0
AreSettled db = All IsSettled db.tunnels

module _ {K : Type 0} (kernel : Kernel K) (s : Stamp) where
  abbrev Settles {ℓ} : {A : Type ℓ} → A → World K → Type 0
  Settles a w = AreSettled w.db

  again_called :
      (db : Db) (w : World K) (r : Answer (List Tunnel) × K)
      → w.db ≡ db
      → Post
          (λ (done : Unit {0}) next. next.db ≡ db)
          (continue (called w r) (λ applied. elim applied [
            | broken text ↦ set_error text >> fail (in_kernel text)
            | answer live ↦ return tt
          ]))
  unfolding ◌>>=◌
  again_called db w (answer live, k) same = same
  again_called db w (broken text, k) same = tt

  apply_again-Triple :
      (cfg : Settings) (warp : WarpAccount) (ups : List Upstream) (ts : List Tunnel) (hit : Bool)
      (db : Db)
      → Triple (λ w. w.db ≡ db) (apply_again kernel s cfg warp ups ts hit) (λ done w. w.db ≡ db)
  unfolding apply_again ◌>>=◌
  apply_again-Triple cfg warp ups ts false db w same = same
  apply_again-Triple cfg warp ups ts true db w same =
      again_called db w (kernel.apply cfg warp ups ts w.kernel) same

  inspected-Post :
      (w : World K) (r : Answer (List String))
      → AreSettled w.db
      → Post Settles (inspected kernel s w r)
  inspected-Post w (answer drift) h = h
  inspected-Post w (broken text) h = tt

  after_apply-Triple :
      (cfg : Settings) (warp : WarpAccount) (ups : List Upstream) (live : List Tunnel)
      → Triple Anything (after_apply kernel s cfg warp ups live) Settles
  unfolding after_apply inspect_drift
  after_apply-Triple cfg warp ups live = skip-Triple Settles (set_error "") _ (λ cleared.
      skip-Triple Settles (take_all live s) _ (λ hit.
        bind-Triple Anything (λ db w. w.db ≡ db) Settles read _ (λ w h. refl)
          (λ db.
            bind-Triple (λ w. w.db ≡ db) (λ done w. w.db ≡ db) Settles
              (apply_again kernel s cfg warp ups (all_tunnels db) hit) _
              (apply_again-Triple cfg warp ups (all_tunnels db) hit db)
              (λ again.
                bind-Triple (λ w. w.db ≡ db) Settles Settles (mark_applied (all_tunnels db) s.now) _
                  (λ w same. mark_applied-Triple (all_tunnels db) s.now w (
                    subst (λ rows. All (IsCovered (all_tunnels db)) rows.tunnels) (sym same)
                      (all_tunnels-IsCovered db)))
                  (λ marked w h.
                    inspected-Post w (kernel.inspect cfg warp ups (all_tunnels db) w.kernel) h)))))

  failing-Triple :
      (ts : List Tunnel) (text : String)
      → Triple Anything
          (set_error text >> (mark_all ts text s.now >> fail {A = Unit {0}} (in_kernel text)))
          Settles
  failing-Triple ts text =
      skip-Triple Settles (set_error text) _
        (λ set. skip-Triple Settles (mark_all ts text s.now) _ (λ marked w h. tt))

  applied-Triple :
      (cfg : Settings) (warp : WarpAccount) (ups : List Upstream) (ts : List Tunnel)
      (applied : Answer (List Tunnel))
      → Triple Anything
          (elim applied [
            | broken text ↦ set_error text >> (mark_all ts text s.now >> fail (in_kernel text))
            | answer live ↦ after_apply kernel s cfg warp ups live
          ])
          Settles
  applied-Triple cfg warp ups ts (answer live) = after_apply-Triple cfg warp ups live
  applied-Triple cfg warp ups ts (broken text) = failing-Triple ts text

  apply_all-Triple :
      (cfg : Settings) (warp : WarpAccount) (ups : List Upstream) (ts : List Tunnel)
      → Triple Anything (apply_all kernel s cfg warp ups ts) Settles
  unfolding apply_all
  apply_all-Triple cfg warp ups ts =
      skip-Triple Settles (call (kernel.apply cfg warp ups ts)) _ (λ applied.
        skip-Triple Settles (set_reconciled kernel s) _
          (λ done. applied-Triple cfg warp ups ts applied))

  reconcile_upstreams-Triple :
      (cfg : Settings) (ups : List Upstream)
      → Triple Anything (reconcile_upstreams kernel s cfg ups) Settles
  unfolding reconcile_upstreams
  reconcile_upstreams-Triple cfg ups = skip-Triple Settles read _ (λ db.
      skip-Triple Settles (check _ _) _ (λ usable.
        skip-Triple Settles (ensure_addresses cfg (needs_ipv4 cfg ups (all_tunnels db))) _
          (λ ensured.
            skip-Triple Settles read _
              (λ ready. apply_all-Triple cfg (warp_account ready) ups (all_tunnels ready)))))

contradiction : (b : Bool) (P : Type 0) → b ≡ true → b ≡ false → P
contradiction b P h k = ground arith

-- Without upstreams, sound tables have no tunnels.
holding-IsSettled :
    (ups : List Upstream) (t : Tunnel)
    → ((id : ℕ) → any (λ u. u.id == id) ups ≡ false)
    → IsAttached ups (holding t)
    → IsSettled t
holding-IsSettled ups t missing h =
    contradiction (any (λ u. u.id == t.upstream_id) ups) (IsSettled t) h (missing t.upstream_id)

map-IsSettled :
    (ups : List Upstream) (ts : List Tunnel)
    → ((id : ℕ) → any (λ u. u.id == id) ups ≡ false)
    → All (IsAttached ups) (map holding ts)
    → All IsSettled ts
map-IsSettled ups [] missing h = tt
map-IsSettled ups (t ∷ ts) missing h =
    (holding-IsSettled ups t missing h.0, map-IsSettled ups ts missing h.1)

module _ {K : Type 0} (kernel : Kernel K) (s : Stamp) where
  empty_called :
      (w : World K) (r : Answer (List Tunnel) × K)
      → AreSettled w.db
      → Post (Settles kernel s) (
          continue (called w r) (λ applied. elim applied [
            | broken text ↦ set_error text >> fail {A = Unit {0}} (in_kernel text)
            | answer live ↦ set_health (record { drift = []; last_reconcile = s.now; error = "" })
          ]))
  unfolding ◌>>=◌
  empty_called w (answer live, k) h = h
  empty_called w (broken text, k) h = tt

  by_upstreams-Post :
      (db : Db) (w : World K) (ups : List Upstream)
      → w.db ≡ db
      → IsSound db
      → all_upstreams db ≡ ups
      → Post (Settles kernel s) (
          (elim ups as (λ x. Act K (Unit {0})) [
            | [] ↦ reconcile_empty kernel s db
            | up ∷ rest ↦ reconcile_upstreams kernel s db.settings (up ∷ rest)
          ])
            w)
  unfolding reconcile_empty ◌>>=◌
  by_upstreams-Post db w [] same sound none_stored =
      empty_called w (kernel.apply db.settings (warp_account db) [] [] w.kernel) (
        subst AreSettled (sym same) (
          map-IsSettled db.upstreams db.tunnels
            (λ id.
              sym (all_upstreams-stored db id)
              ∙ ap (λ ups. any (λ (u : Upstream). u.id == id) ups) none_stored)
            sound.attached))
  by_upstreams-Post db w (up ∷ rest) same sound stored =
      reconcile_upstreams-Triple kernel s db.settings (up ∷ rest) w tt

  reconcile-Post : (w : World K) → IsSound w.db → Post (Settles kernel s) (reconcile kernel s w)
  unfolding reconcile ◌>>=◌ store_reset reset_monthly_quotas
  reconcile-Post w sound =
      let db = reset_monthly_quotas w.db s.month s.now in
      by_upstreams-Post db (record w { db = db }) (all_upstreams db) refl
        (touch-IsSound w.db (λ t. not (str_eq t.quota_period s.month)) (store_reset s.month s.now)
          (λ t. refl) sound)
        refl

-- If the tables are sound and a reconciliation succeeds, every tunnel that its quota has not stopped is
-- marked as applied.
pub reconcile-AreSettled :
    {K : Type 0} (kernel : Kernel K) (s : Stamp) (w w' : World K)
    → IsSound w.db
    → reconcile kernel s w ≡ (returned tt, w')
    → AreSettled w'.db
reconcile-AreSettled kernel s w w' sound done =
    subst (Post (Settles kernel s)) done (reconcile-Post kernel s w sound)
