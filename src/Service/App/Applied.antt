-- ===== src/Service/App/Applied.antt =====
-- What reconcileLocked of internal/broker/service.go leaves when it succeeds.
use open_tunnelbroker.Prelude.{
  ℕ, Bool, true, false, not, ◌&&◌, ◌||◌, List, [], ◌∷◌, any, map, All, ◌==◌, str_eq, ◌≡◌, refl, sym,
  ◌∙◌, ap, ==_comm, Bool-cases, inl, inr, arith, or_true, or_false, ==_refl,
}
use open_tunnelbroker.Models.{Tunnel}
use open_tunnelbroker.Ndp.Proxy.Answers.{any-sort_by}
use open_tunnelbroker.Store.Table.{update_where}
use open_tunnelbroker.Store.Table.Laws.{All-imp}
use open_tunnelbroker.Store.Db.{Db, tunnel_before, load_tunnel, all_tunnels}
use open_tunnelbroker.Store.Db.Tunnels.{set_status, update_tunnel, store_status}
use open_tunnelbroker.Store.Db.Sound.Rows.{any-map}
use open_tunnelbroker.Service.App.{World, Reply, returned, failed, Act, ◌>>=◌, continue}
use open_tunnelbroker.Service.App.Reconcile.{mark_applied}

-- The tunnel is applied, or its quota has stopped it.
abbrev pub IsSettled : Tunnel → Type 0
IsSettled t = (t.quota_disabled || str_eq t.status "applied") ≡ true

module _ {K : Type 0} where
  -- What holds where a handler succeeds.
  abbrev pub Post {ℓ} : {A : Type ℓ} → (A → World K → Type 0) → Reply A × World K → Type 0
  Post Q (returned a, w) = Q a w
  Post Q (failed e, w) = Unit

  abbrev pub Triple {ℓ} :
      {A : Type ℓ} → (World K → Type 0) → Act K A → (A → World K → Type 0) → Type 0
  Triple P m Q = (w : World K) → P w → Post Q (m w)

  pub continue-Post {ℓ κ} :
      {A : Type ℓ} {B : Type κ} (R : A → World K → Type 0) (Q : B → World K → Type 0)
      (r : Reply A × World K) (f : A → Act K B)
      → Post R r
      → ((a : A) → Triple (R a) (f a) Q)
      → Post Q (continue r f)
  continue-Post R Q (returned a, w) f h next = next a w h
  continue-Post R Q (failed e, w) f h next = tt

  pub bind-Triple {ℓ κ} :
      {A : Type ℓ} {B : Type κ} (P : World K → Type 0) (R : A → World K → Type 0)
      (Q : B → World K → Type 0) (m : Act K A) (f : A → Act K B)
      → Triple P m R
      → ((a : A) → Triple (R a) (f a) Q)
      → Triple P (m >>= f) Q
  unfolding ◌>>=◌
  bind-Triple P R Q m f first next w h = continue-Post R Q (m w) f (first w h) next

  abbrev pub Anything : World K → Type 0
  Anything w = Unit

  pub reply-Post {ℓ} : {A : Type ℓ} (r : Reply A × World K) → Post (λ a. Anything) r
  reply-Post (returned a, w) = tt
  reply-Post (failed e, w) = tt

  -- A step of which nothing is asked.
  pub skip-Triple {ℓ κ} :
      {A : Type ℓ} {B : Type κ} (Q : B → World K → Type 0) (m : Act K A) (f : A → Act K B)
      → ((a : A) → Triple Anything (f a) Q)
      → Triple Anything (m >>= f) Q
  skip-Triple Q m f next = bind-Triple Anything (λ a. Anything) Q m f (λ w h. reply-Post (m w)) next

-- A row is settled, or about to be marked.
abbrev pub IsCovered : List Tunnel → Tunnel → Type 0
IsCovered ts r =
    ((r.quota_disabled || str_eq r.status "applied")
      || any (λ t. t.id == r.id && not t.quota_disabled) ts)
    ≡ true

either : (a b : Bool) → (a || (not a || b)) ≡ true
either true b = refl
either false b = refl

add_second : (a b c : Bool) → (a || c) ≡ true → (a || (b || c)) ≡ true
add_second true b c h = refl
add_second false true c h = refl
add_second false false c h = h

drop_first : (a b c d : Bool) → b ≡ false → (a || ((b && c) || d)) ≡ true → (a || d) ≡ true
drop_first a b c d none_here h = ground arith

drop_second : (a b c d : Bool) → c ≡ true → (a || ((b && not c) || d)) ≡ true → (a || d) ≡ true
drop_second true b c d stopped h = refl
drop_second false true c d stopped h = ground arith
drop_second false false c d stopped h = h

weaken : (a b c : Bool) → (a || c) ≡ true → ((a || b) || c) ≡ true
weaken true b c h = refl
weaken false true c h = refl
weaken false false c h = h

self_covered :
    (ts : List Tunnel)
    → All
        (λ (r : Tunnel).
          (r.quota_disabled || any (λ t. t.id == r.id && not t.quota_disabled) ts) ≡ true)
        ts
self_covered [] = tt
self_covered (t ∷ ts) = (
  rw (==_refl t.id) (either t.quota_disabled _),
  All-imp
      (λ (r : Tunnel).
        (r.quota_disabled || any (λ x. x.id == r.id && not x.quota_disabled) ts) ≡ true)
      (λ (r : Tunnel).
        (r.quota_disabled || any (λ x. x.id == r.id && not x.quota_disabled) (t ∷ ts)) ≡ true)
      ts
      (λ r k.
        add_second r.quota_disabled (t.id == r.id && not t.quota_disabled)
          (any (λ x. x.id == r.id && not x.quota_disabled) ts) k)
      (self_covered ts),
)

update_where-IsCovered :
    (t : Tunnel) (ts rows : List Tunnel) (now : ℕ)
    → t.quota_disabled ≡ false
    → All (IsCovered (t ∷ ts)) rows
    → All (IsCovered ts) (update_where (λ r. r.id == t.id) (store_status "applied" "" now) rows)
unfolding update_where store_status
update_where-IsCovered t ts [] now active h = tt
update_where-IsCovered t ts (r ∷ rows) now active h = elim (Bool-cases (r.id == t.id)) [
  | inl e ↦
      rw (e) (rw (or_true r.quota_disabled) refl, update_where-IsCovered t ts rows now active h.1)
  | inr e ↦
      let apart : (t.id == r.id) ≡ false = ==_comm t.id r.id ∙ e in
      rw (e) (
        drop_first (r.quota_disabled || str_eq r.status "applied") (t.id == r.id)
            (not t.quota_disabled) (any (λ x. x.id == r.id && not x.quota_disabled) ts) apart h.0,
        update_where-IsCovered t ts rows now active h.1,
      )
]

stopped-IsCovered :
    (t : Tunnel) (ts rows : List Tunnel)
    → t.quota_disabled ≡ true
    → All (IsCovered (t ∷ ts)) rows
    → All (IsCovered ts) rows
stopped-IsCovered t ts rows stopped h =
    All-imp (IsCovered (t ∷ ts)) (IsCovered ts) rows
      (λ r k.
        drop_second (r.quota_disabled || str_eq r.status "applied") (t.id == r.id) t.quota_disabled
          (any (λ x. x.id == r.id && not x.quota_disabled) ts) stopped k)
      h

module _ {K : Type 0} where
  pub mark_applied-Triple :
      (ts : List Tunnel) (now : ℕ)
      → Triple {K = K}
          (λ w. All (IsCovered ts) w.db.tunnels)
          (mark_applied ts now)
          (λ done w. All IsSettled w.db.tunnels)
  unfolding mark_applied ◌>>=◌ set_status update_tunnel
  mark_applied-Triple [] now w h =
      All-imp (IsCovered []) IsSettled w.db.tunnels
        (λ r k. sym (or_false (r.quota_disabled || str_eq r.status "applied")) ∙ k) h
  mark_applied-Triple (t ∷ ts) now w h = elim (Bool-cases t.quota_disabled) [
    | inl e ↦ rw (e) (mark_applied-Triple ts now w (stopped-IsCovered t ts w.db.tunnels e h))
    | inr e ↦ rw (e) (
        mark_applied-Triple ts now (record w { db = set_status w.db t.id "applied" "" now })
          (update_where-IsCovered t ts w.db.tunnels now e h))
  ]

-- The loop goes over all rows, so that each is covered.
pub all_tunnels-IsCovered : (db : Db) → All (IsCovered (all_tunnels db)) db.tunnels
unfolding all_tunnels load_tunnel
all_tunnels-IsCovered db =
    All-imp
      (λ (r : Tunnel).
        (r.quota_disabled || any (λ t. t.id == r.id && not t.quota_disabled) db.tunnels) ≡ true)
      (IsCovered (all_tunnels db)) db.tunnels
      (λ r k. weaken r.quota_disabled (str_eq r.status "applied") _ (
        ap (λ b. r.quota_disabled || b)
          (any-sort_by (λ t. t.id == r.id && not t.quota_disabled) tunnel_before
              (map (load_tunnel db) db.tunnels)
            ∙ any-map (load_tunnel db) (λ t. t.id == r.id && not t.quota_disabled) db.tunnels)
        ∙ k))
      (self_covered db.tunnels)
