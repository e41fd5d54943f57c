-- ===== src/Ndp/Proxy.antt =====
-- ndp.go, the addresses to answer for: ndpProxySet and the sets built from upstreams and tunnels.
pub mod Answers
pub mod Inside
use open_tunnelbroker.Prelude.{
  ℕ, String, Bool, true, false, not, ◌&&◌, ◌||◌, List, [], ◌∷◌, ◌++◌, Option, none, some, ◌==◌, ltb,
  leb, str_eq, if◌then◌else◌, any, length,
}
use open_tunnelbroker.Netip.{Addr, Prefix, is6, addr_eq, prefix_eq, addr_less, masked, contains}
use open_tunnelbroker.Netip.Text.{parse_prefix}
use open_tunnelbroker.Models.{
  Upstream, Tunnel, upstream_mode, upstream_on_link, delegated_prefix, tunnels_by_upstream,
}

pub record NdpProxySet : Type 0 where
  pub delegated : List Prefix
  pub local : List Addr

abbrev pub no_proxies : NdpProxySet
no_proxies = record { delegated = []; local = [] }

unfoldable pub is_empty : NdpProxySet → Bool
is_empty s = elim s.delegated [ [] ↦ true | p ∷ ps ↦ false ]

unfoldable pub should_answer : NdpProxySet → Addr → Bool
should_answer s target =
    if not (is6 target)
    then false
    else if any (λ local. addr_eq local target) s.local
    then false
    else any (λ prefix. contains prefix target) s.delegated

lists_eq {ℓ} : {A : Type ℓ} → (A → A → Bool) → List A → List A → Bool
lists_eq eq [] [] = true
lists_eq eq (x ∷ xs) (y ∷ ys) = eq x y && lists_eq eq xs ys
lists_eq eq _ _ = false

-- ndpProxySet.equal: lengths and elements, in order.
unfoldable pub sets_equal : NdpProxySet → NdpProxySet → Bool
unfolding lists_eq
sets_equal s t = lists_eq prefix_eq s.delegated t.delegated && lists_eq addr_eq s.local t.local

-- Insertion sort stands for sort.Slice: the order is total up to equality, so every sort agrees.
unfoldable pub insert_by {ℓ} : {A : Type ℓ} → (A → A → Bool) → A → List A → List A
insert_by less x [] = x ∷ []
insert_by less x (y ∷ ys) = if less y x then y ∷ insert_by less x ys else x ∷ y ∷ ys

unfoldable pub sort_by {ℓ} : {A : Type ℓ} → (A → A → Bool) → List A → List A
unfolding insert_by
sort_by less [] = []
sort_by less (x ∷ xs) = insert_by less x (sort_by less xs)

unfoldable pub prefix_less : Prefix → Prefix → Bool
prefix_less p q = if not (addr_eq p.addr q.addr) then addr_less p.addr q.addr else ltb p.bits q.bits

unfoldable pub sort_set : NdpProxySet → NdpProxySet
unfolding prefix_less
sort_set s = record {
  delegated = sort_by prefix_less s.delegated;
  local = sort_by addr_less s.local;
}

-- The prefixes of the enabled tunnels inside the upstream's prefix.
unfoldable pub proxied_prefixes : Prefix → List Tunnel → List Prefix
proxied_prefixes upstream [] = []
proxied_prefixes upstream (tunnel ∷ tunnels) =
    let rest = proxied_prefixes upstream tunnels in
    if not tunnel.enabled then rest else elim (parse_prefix tunnel.v6_cidr) [
      | none ↦ rest
      | some prefix ↦ if not (contains upstream prefix.addr) then rest else masked prefix ∷ rest
    ]

unfoldable pub proxied_locals : Prefix → List Addr → List Addr
proxied_locals upstream [] = []
proxied_locals upstream (address ∷ local) =
    let rest = proxied_locals upstream local in
    if is6 address && contains upstream address then address ∷ rest else rest

unfoldable pub ndp_proxy_set_for : Upstream → List Tunnel → List Addr → NdpProxySet
ndp_proxy_set_for up tunnels local =
    if not (str_eq (upstream_mode up) upstream_on_link)
    then no_proxies
    else elim (delegated_prefix up) [
      | none ↦ no_proxies
      | some upstream ↦ sort_set (record {
        delegated = proxied_prefixes upstream tunnels;
        local = proxied_locals upstream local;
      })
    ]

unfoldable pub merge : NdpProxySet → NdpProxySet → NdpProxySet
merge s other =
    sort_set (record { delegated = s.delegated ++ other.delegated; local = s.local ++ other.local })

-- A Go map from interface names to sets, as a function. An entry is never empty, so the zero set
-- stands for no entry.
abbrev pub ProxySets : Type 0
ProxySets = String → NdpProxySet

unfoldable pub put : ProxySets → String → NdpProxySet → ProxySets
put sets name s other = if str_eq name other then s else sets other

-- A round of the loop of ndpProxySetsFor. An upstream with nothing to proxy adds no entry.
unfoldable pub add_upstream :
    ProxySets → Upstream → (ℕ → List Tunnel) → (String → List Addr) → ProxySets
add_upstream sets upstream tunnels local =
    let name = upstream.egress_interface in
    let set = ndp_proxy_set_for upstream (tunnels upstream.id) (local name) in
    let skipped =
      not (str_eq (upstream_mode upstream) upstream_on_link) || str_eq name "" || is_empty set in
    if skipped then sets else put sets name (merge (sets name) set)

unfoldable pub proxy_sets_loop :
    ProxySets → List Upstream → (ℕ → List Tunnel) → (String → List Addr) → ProxySets
proxy_sets_loop sets [] tunnels local = sets
proxy_sets_loop sets (upstream ∷ upstreams) tunnels local =
    proxy_sets_loop (add_upstream sets upstream tunnels local) upstreams tunnels local

unfoldable pub ndp_proxy_sets_for :
    List Upstream → (ℕ → List Tunnel) → (String → List Addr) → ProxySets
unfolding proxy_sets_loop
ndp_proxy_sets_for upstreams tunnels local =
    proxy_sets_loop (λ name. no_proxies) upstreams tunnels local
