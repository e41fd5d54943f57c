-- ===== src/Service/App/Sound/Created.antt =====
-- CreateTunnel keeps the tables sound: the upstream that it resolves is stored, and is its tunnel's.
use open_tunnelbroker.Prelude.{
  ℕ, suc, zero, String, Bool, true, false, not, List, [], ◌∷◌, Option, none, some, any, map, ◌==◌,
  if◌then◌else◌, ◌≡◌, refl, sym, ◌∙◌, ==_refl, or_true, str_eq,
}
use open_tunnelbroker.Allocator.{Choice}
use open_tunnelbroker.Models.{
  Settings, Upstream, Tunnel, WarpAccount, upstream_by_id, tunnel_v4_mode, v4_mode_off,
}
use open_tunnelbroker.Ndp.Proxy.Answers.{any-sort_by}
use open_tunnelbroker.Service.Upstreams.{Outcome, done}
use open_tunnelbroker.Service.Upstreams
use open_tunnelbroker.Service.Groups.{normalize_routing_groups, resolve_upstream}
use open_tunnelbroker.Service.Groups
use open_tunnelbroker.Service.Create.{
  CreateTunnelInput, create_tunnel, blank_tunnel, acceptable, allocate_prefix, tunnel_keys,
  address_for,
}
use open_tunnelbroker.Store.Db.{Db, name_before, load_upstream, all_upstreams}
use open_tunnelbroker.Store.Db.Sound.Rows.{any-map}
use open_tunnelbroker.Service.App.Handlers.{choice}

-- What an optional result satisfies.
abbrev pub Holds {ℓ κ} : {A : Type ℓ} → (A → Type κ) → Option A → Type κ
Holds P none = Unit
Holds P (some a) = P a

pub imp-Holds {ℓ κ μ} :
    {A : Type ℓ} (P : A → Type κ) (Q : A → Type μ) (o : Option A)
    → ((a : A) → P a → Q a)
    → Holds P o
    → Holds Q o
imp-Holds P Q none implies h = tt
imp-Holds P Q (some a) implies h = implies a h

-- The upstream is in the list.
abbrev pub IsIn : List Upstream → Upstream → Type 0
IsIn ups up = any (λ u. u.id == up.id) ups ≡ true

later-IsIn :
    (u : Upstream) (ups : List Upstream) (o : Option Upstream) (b : Bool)
    → Holds (IsIn ups) o
    → Holds
        (IsIn (u ∷ ups))
        (elim o [ some later ↦ some later | none ↦ if b then some u else none ])
later-IsIn u ups (some up) b h = rw (h) (or_true (u.id == up.id))
later-IsIn u ups none true h = rw (==_refl u.id) refl
later-IsIn u ups none false h = tt

upstream_by_id-IsIn : (ups : List Upstream) (id : ℕ) → Holds (IsIn ups) (upstream_by_id ups id)
unfolding upstream_by_id
upstream_by_id-IsIn [] id = tt
upstream_by_id-IsIn (u ∷ ups) id =
    later-IsIn u ups (upstream_by_id ups id) (u.id == id) (upstream_by_id-IsIn ups id)

by_choice-IsIn :
    (ups : List Upstream) (o : Option Upstream)
    → Holds (IsIn ups) o
    → Holds
        (IsIn ups)
        (choice (elim o [ none ↦ Groups.does_not_exist | some up ↦ Groups.chosen up ]))
by_choice-IsIn ups none h = tt
by_choice-IsIn ups (some up) h = h

resolved-IsIn : (ups : List Upstream) (id : ℕ) → Holds (IsIn ups) (choice (resolve_upstream ups id))
unfolding resolve_upstream
resolved-IsIn [] zero = tt
resolved-IsIn (u ∷ []) zero = rw (==_refl u.id) refl
resolved-IsIn (u ∷ v ∷ ups) zero = tt
resolved-IsIn ups (suc id) =
    by_choice-IsIn ups (upstream_by_id ups (suc id)) (upstream_by_id-IsIn ups (suc id))

-- The rows that the tunnels of a database refer to are those that the queries return.
pub all_upstreams-stored :
    (db : Db) (id : ℕ)
    → any (λ u. u.id == id) (all_upstreams db) ≡ any (λ u. u.id == id) db.upstreams
unfolding all_upstreams load_upstream
all_upstreams-stored db id =
    any-sort_by (λ u. u.id == id) name_before (map (load_upstream db.tunnels) db.upstreams)
    ∙ any-map (load_upstream db.tunnels) (λ u. u.id == id) db.upstreams

chosen-IsIn :
    (db : Db) (o : Option Upstream)
    → Holds (IsIn (all_upstreams db)) o
    → Holds (IsIn db.upstreams) o
chosen-IsIn db none h = tt
chosen-IsIn db (some up) h = sym (all_upstreams-stored db up.id) ∙ h

pub chosen_upstream-IsIn :
    (db : Db) (id : ℕ) → Holds (IsIn db.upstreams) (choice (resolve_upstream (all_upstreams db) id))
chosen_upstream-IsIn db id =
    chosen-IsIn db (choice (resolve_upstream (all_upstreams db) id))
      (resolved-IsIn (all_upstreams db) id)

bind-Holds {ℓ} :
    {A : Type ℓ} (P : Tunnel → Type 0) (o : Option A) (f : A → Option Tunnel)
    → ((a : A) → Holds P (f a))
    → Holds P (elim o [ none ↦ none | some a ↦ f a ])
bind-Holds P none f h = tt
bind-Holds P (some a) f h = h a

unless-Holds :
    (P : Tunnel → Type 0) (b : Bool) (o : Option Tunnel)
    → Holds P o
    → Holds P (if b then none else o)
unless-Holds P true o h = tt
unless-Holds P false o h = h

outcome-Holds {ℓ} :
    {A : Type ℓ} (P : Tunnel → Type 0) (o : Outcome A) (f : A → Option Tunnel)
    → ((a : A) → Holds P (f a))
    → Holds P (elim o [ Upstreams.refused e ↦ none | done a ↦ f a ])
outcome-Holds P (Upstreams.refused e) f h = tt
outcome-Holds P (done a) f h = h a

module _ (cfg : Settings) (account : WarpAccount) (up : Upstream) (own ts : List Tunnel)
    (input : CreateTunnelInput) (choose : ℕ → Choice) (generated : Option (String × String))
    (parses : String → Bool) (psk : Option String) (month : String) where
  -- The new tunnel belongs to the upstream.
  abbrev pub Belongs : Tunnel → Type 0
  Belongs t = t.upstream_id ≡ up.id

  pub create_tunnel-Holds :
      Holds Belongs (create_tunnel cfg account up own ts input choose generated parses psk month)
  unfolding create_tunnel blank_tunnel
  create_tunnel-Holds =
      outcome-Holds Belongs (normalize_routing_groups input.routing_groups) _ (λ groups.
        let t = blank_tunnel up input groups month in
        let v4 = not (str_eq (tunnel_v4_mode cfg up t) v4_mode_off) in
        unless-Holds Belongs (not (acceptable cfg account up input t)) _ (
          bind-Holds Belongs (allocate_prefix up own input choose) _ (λ prefix.
            bind-Holds Belongs (tunnel_keys input generated parses) _ (λ keys.
              bind-Holds Belongs psk _
                (λ shared. bind-Holds Belongs (address_for cfg v4 ts) _ (λ address. refl))))))
