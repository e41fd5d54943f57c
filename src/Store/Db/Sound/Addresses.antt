-- ===== src/Store/Db/Sound/Addresses.antt =====
-- The allocation of internal IPv4 addresses leaves what the tunnels hold.
use mathlib.Core.Path.{subst}
use open_tunnelbroker.Prelude.{
  Bool, true, false, ◌||◌, List, [], ◌∷◌, Option, none, some, map, if◌then◌else◌, ◌≡◌, refl, sym,
  ap,
}
use open_tunnelbroker.Netip.{Addr, Prefix, masked}
use open_tunnelbroker.Models.{Settings, Upstream, Tunnel}
use open_tunnelbroker.Store.Ipv4.{
  needs_address, next_free_ipv4, used_addresses, allocate_loop, ensure_ipv4_allocations,
}
use open_tunnelbroker.Store.Db.{Db, Tried, ok, all_upstreams}
use open_tunnelbroker.Store.Db.Accounts.{
  parse_pool, allocate_addresses, ensure_allocations, store_settings,
}
use open_tunnelbroker.Store.Db.Sound.{holding, Sound, IsSound}
use open_tunnelbroker.Store.Db.Sound.Gives.{Gives, bind-Gives, option-Gives, trivial-Gives}

-- What an optional result satisfies.
abbrev Holds : (List Tunnel → Type 0) → Option (List Tunnel) → Type 0
Holds P none = Unit
Holds P (some ts) = P ts

bind-Holds {ℓ} :
    {A : Type ℓ} (Q : List Tunnel → Type 0) (o : Option A) (f : A → Option (List Tunnel))
    → ((a : A) → o ≡ some a → Holds Q (f a))
    → Holds Q (elim o [ none ↦ none | some a ↦ f a ])
bind-Holds Q none f h = tt
bind-Holds Q (some a) f h = h a refl

choose-Holds :
    (Q : List Tunnel → Type 0) (b : Bool) (x y : Option (List Tunnel))
    → Holds Q x
    → Holds Q y
    → Holds Q (elim b [ false ↦ x | true ↦ y ])
choose-Holds Q true x y h k = k
choose-Holds Q false x y h k = h

-- The tunnels of a result hold what the given ones do.
abbrev Same : List Tunnel → List Tunnel → Type 0
Same ts new = map holding new ≡ map holding ts

allocate_loop-Holds :
    (pool : Prefix) (cfg : Settings) (ups : List Upstream) (used : List Addr) (ts : List Tunnel)
    → Holds (Same ts) (allocate_loop pool cfg ups used ts)
unfolding allocate_loop
allocate_loop-Holds pool cfg ups used [] = refl
allocate_loop-Holds pool cfg ups used (t ∷ ts) =
    choose-Holds (Same (t ∷ ts)) (needs_address cfg ups t) _ _
      (bind-Holds (Same (t ∷ ts)) (allocate_loop pool cfg ups used ts) _ (λ rest e.
        ap (λ hs. holding t ∷ hs)
          (subst (Holds (Same ts)) e (allocate_loop-Holds pool cfg ups used ts))))
      (bind-Holds (Same (t ∷ ts)) (next_free_ipv4 (masked pool) used) _ (λ address found.
        bind-Holds (Same (t ∷ ts)) (allocate_loop pool cfg ups (address ∷ used) ts) _ (λ rest e.
          ap (λ hs. holding t ∷ hs)
            (subst (Holds (Same ts)) e (allocate_loop-Holds pool cfg ups (address ∷ used) ts)))))

allocate_addresses-Gives :
    (db : Db) (pool : Prefix) (cfg : Settings)
    → IsSound db
    → Gives IsSound (allocate_addresses db pool cfg)
unfolding allocate_addresses ensure_ipv4_allocations
allocate_addresses-Gives db pool cfg sound =
    option-Gives IsSound
      (allocate_loop pool cfg (all_upstreams db) (used_addresses db.tunnels) db.tunnels) _ _
      (λ ts e.
        subst (λ hs. Sound db.upstreams hs db.groups db.members)
          (sym (
            subst (Holds (Same db.tunnels)) e (
              allocate_loop-Holds pool cfg (all_upstreams db) (used_addresses db.tunnels)
                db.tunnels)))
          sound)

pub ensure_allocations-Gives :
    (db : Db) (cfg : Settings) → IsSound db → Gives IsSound (ensure_allocations db cfg)
unfolding ensure_allocations
ensure_allocations-Gives db cfg sound =
    bind-Gives (λ pool. Unit {0}) IsSound (parse_pool cfg.v4_pool) _
      (trivial-Gives (parse_pool cfg.v4_pool))
      (λ pool ignored. allocate_addresses-Gives db pool cfg sound)

if-Gives :
    (b : Bool) (x y : Tried Db)
    → Gives IsSound x
    → Gives IsSound y
    → Gives IsSound (if b then x else y)
if-Gives true x y h k = h
if-Gives false x y h k = k

pub store_settings-Gives :
    (db : Db) (v : Settings) → IsSound db → Gives IsSound (store_settings db v)
unfolding store_settings
store_settings-Gives db v sound =
    bind-Gives IsSound IsSound (if v.v4_nat || v.v4_warp then ensure_allocations db v else ok db) _
      (if-Gives (v.v4_nat || v.v4_warp) (ensure_allocations db v) (ok db)
        (ensure_allocations-Gives db v sound) sound)
      (λ db' sound'. sound')
