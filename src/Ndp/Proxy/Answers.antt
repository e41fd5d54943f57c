-- ===== src/Ndp/Proxy/Answers.antt =====
-- Which addresses a proxy set of ndp.go answers for.
use open_tunnelbroker.Prelude.{
  ℕ, String, ◌≡◌, refl, ap, ◌∙◌, inl, inr, Bool, true, false, not, ◌&&◌, ◌||◌, List, [], ◌∷◌, ◌++◌,
  none, some, arith, Bool-cases, Option-cases, str_eq, any, eq_iff,
}
use open_tunnelbroker.Netip.{Addr, Prefix, is6, addr_eq, addr_less, masked, contains}
use open_tunnelbroker.Netip.Text.{parse_prefix}
use open_tunnelbroker.Models.{Upstream, Tunnel, upstream_mode, upstream_on_link, delegated_prefix}
use open_tunnelbroker.Ndp.Proxy.{
  NdpProxySet, no_proxies, should_answer, prefix_less, insert_by, sort_by, sort_set,
  proxied_prefixes, proxied_locals, ndp_proxy_set_for, merge, ProxySets, put, add_upstream,
  proxy_sets_loop, ndp_proxy_sets_for,
}

module _ {ℓ} {A : Type ℓ} (p : A → Bool) (less : A → A → Bool) where
  any-insert_by : (x : A) (xs : List A) → any p (insert_by less x xs) ≡ p x || any p xs
  unfolding insert_by
  any-insert_by x [] = refl
  any-insert_by x (y ∷ ys) = ground (arith, any-insert_by x ys)

  pub any-sort_by : (xs : List A) → any p (sort_by less xs) ≡ any p xs
  unfolding sort_by
  any-sort_by [] = refl
  any-sort_by (x ∷ xs) = any-insert_by x (sort_by less xs) ∙ ap (λ r. p x || r) (any-sort_by xs)

any-append {ℓ} :
    {A : Type ℓ} (p : A → Bool) (xs ys : List A) → any p (xs ++ ys) ≡ any p xs || any p ys
any-append p [] ys = refl
any-append p (x ∷ xs) ys = ground (arith, any-append p xs ys)

-- Sorting a set does not change its answers.
should_answer-sort_set :
    (s : NdpProxySet) (target : Addr) → should_answer (sort_set s) target ≡ should_answer s target
unfolding should_answer sort_set
should_answer-sort_set s target = rw (
  any-sort_by (λ l. addr_eq l target) addr_less s.local,
  any-sort_by (λ q. contains q target) prefix_less s.delegated,
)

-- A merged set answers for what either part delegates, except an address local to either.
pub should_answer-merge :
    (s t : NdpProxySet) (target : Addr)
    → should_answer (merge s t) target ≡ (
        is6 target
        && not (
            any (λ local. addr_eq local target) s.local
            || any (λ local. addr_eq local target) t.local)
        && (any (λ prefix. contains prefix target) s.delegated
            || any (λ prefix. contains prefix target) t.delegated))
unfolding merge
should_answer-merge s t target =
    should_answer-sort_set _ target
    ∙ (unfold should_answer in
        rw
          (
            any-append (λ l. addr_eq l target) s.local t.local,
            any-append (λ q. contains q target) s.delegated t.delegated,
          )
          (ground arith))

-- The address of the tunnel's prefix is in the upstream's prefix, and the tunnel's prefix contains the
-- target. A tunnel's prefix that is shorter than the upstream's reaches out of it.
abbrev pub holds : Prefix → Addr → Tunnel → Bool
holds upstream target tunnel = elim (parse_prefix tunnel.v6_cidr) [
  | none ↦ false
  | some prefix ↦ contains upstream prefix.addr && contains (masked prefix) target
]

-- What ndp_proxy_set_for should answer for, read off the configuration.
abbrev pub delegates : Upstream → List Tunnel → List Addr → Addr → Bool
delegates up tunnels local target = elim (delegated_prefix up) [
  | none ↦ false
  | some upstream ↦
      is6 target
      && not (any (λ a. is6 a && contains upstream a && addr_eq a target) local)
      && any (λ t. t.enabled && holds upstream target t) tunnels
]

-- Does the upstream put the target on the interface?
abbrev pub serves : (ℕ → List Tunnel) → (String → List Addr) → String → Addr → Upstream → Bool
serves tunnels local name target up =
    str_eq up.egress_interface name
    && str_eq (upstream_mode up) upstream_on_link
    && delegates up (tunnels up.id) (local up.egress_interface) target

any-proxied_prefixes :
    (upstream : Prefix) (target : Addr) (tunnels : List Tunnel)
    → any (λ q. contains q target) (proxied_prefixes upstream tunnels)
      ≡ any (λ t. t.enabled && holds upstream target t) tunnels
unfolding proxied_prefixes
any-proxied_prefixes upstream target [] = refl
any-proxied_prefixes upstream target (t ∷ tunnels) =
    ground (arith, any-proxied_prefixes upstream target tunnels)

any-proxied_locals :
    (upstream : Prefix) (target : Addr) (local : List Addr)
    → any (λ a. addr_eq a target) (proxied_locals upstream local)
      ≡ any (λ a. is6 a && contains upstream a && addr_eq a target) local
unfolding proxied_locals
any-proxied_locals upstream target [] = refl
any-proxied_locals upstream target (a ∷ local) =
    ground (arith, any-proxied_locals upstream target local)

should_answer-no_proxies : (target : Addr) → should_answer no_proxies target ≡ false
unfolding should_answer
should_answer-no_proxies target = ground arith

-- Before sorting.
unsorted :
    (upstream : Prefix) (tunnels : List Tunnel) (local : List Addr) (target : Addr)
    → should_answer
        (record {
          delegated = proxied_prefixes upstream tunnels;
          local = proxied_locals upstream local;
        })
        target
      ≡ (is6 target
          && not (any (λ a. is6 a && contains upstream a && addr_eq a target) local)
          && any (λ t. t.enabled && holds upstream target t) tunnels)
unfolding should_answer
unsorted upstream tunnels local target =
    rw (any-proxied_prefixes upstream target tunnels, any-proxied_locals upstream target local)
      (ground arith)

set-routed :
    (up : Upstream) (tunnels : List Tunnel) (local : List Addr)
    → str_eq (upstream_mode up) upstream_on_link ≡ false
    → ndp_proxy_set_for up tunnels local ≡ no_proxies
unfolding ndp_proxy_set_for
set-routed up tunnels local e = rw e

set-none :
    (up : Upstream) (tunnels : List Tunnel) (local : List Addr)
    → delegated_prefix up ≡ none
    → ndp_proxy_set_for up tunnels local ≡ no_proxies
unfolding ndp_proxy_set_for
set-none up tunnels local e = rw e (ground arith)

set-some :
    (up : Upstream) (upstream : Prefix) (tunnels : List Tunnel) (local : List Addr)
    → str_eq (upstream_mode up) upstream_on_link ≡ true
    → delegated_prefix up ≡ some upstream
    → ndp_proxy_set_for up tunnels local
      ≡ sort_set (record {
        delegated = proxied_prefixes upstream tunnels;
        local = proxied_locals upstream local;
      })
unfolding ndp_proxy_set_for
set-some up upstream tunnels local on_link e = rw (on_link, e)

delegates-none :
    (up : Upstream) (tunnels : List Tunnel) (local : List Addr) (target : Addr)
    → delegated_prefix up ≡ none
    → delegates up tunnels local target ≡ false
delegates-none up tunnels local target e = rw (e, delegates)

delegates-some :
    (up : Upstream) (upstream : Prefix) (tunnels : List Tunnel) (local : List Addr) (target : Addr)
    → delegated_prefix up ≡ some upstream
    → delegates up tunnels local target ≡ (
        is6 target
        && not (any (λ a. is6 a && contains upstream a && addr_eq a target) local)
        && any (λ t. t.enabled && holds upstream target t) tunnels)
delegates-some up upstream tunnels local target e = rw (e, delegates)

-- The set for an upstream answers for an address exactly if the upstream is on-link, the address is
-- IPv6 and none of the host's own addresses in the upstream's prefix, and it is contained in the prefix of
-- some enabled tunnel whose address, as it is stored, is in the upstream's prefix.
pub should_answer-ndp_proxy_set_for :
    (up : Upstream) (tunnels : List Tunnel) (local : List Addr) (target : Addr)
    → should_answer (ndp_proxy_set_for up tunnels local) target
      ≡ (str_eq (upstream_mode up) upstream_on_link && delegates up tunnels local target)
should_answer-ndp_proxy_set_for up tunnels local target =
    elim (Bool-cases (str_eq (upstream_mode up) upstream_on_link)) [
      | inr routed ↦
          rw (set-routed up tunnels local routed, routed) (should_answer-no_proxies target)
      | inl on_link ↦ elim (Option-cases (delegated_prefix up)) [
        | inl e ↦
            rw (set-none up tunnels local e, delegates-none up tunnels local target e, on_link)
              (should_answer-no_proxies target)
        | inr (upstream, e) ↦
            rw
              (
                set-some up upstream tunnels local on_link e,
                delegates-some up upstream tunnels local target e,
                on_link,
              )
              (should_answer-sort_set _ target ∙ unsorted upstream tunnels local target)
      ]
    ]

merge-part :
    (s t : NdpProxySet) (target : Addr)
    → should_answer (merge s t) target ≡ true
    → (should_answer s target || should_answer t target) ≡ true
unfolding should_answer
merge-part s t target h = ground (arith, should_answer-merge s t target)

step_sound :
    (sets : ProxySets) (up : Upstream) (tunnels : ℕ → List Tunnel) (local : String → List Addr)
    (name : String) (target : Addr)
    → should_answer (add_upstream sets up tunnels local name) target ≡ true
    → (should_answer (sets name) target || serves tunnels local name target up) ≡ true
unfolding add_upstream put
step_sound sets up tunnels local name target h =
    let at : String = up.egress_interface in
    let set = ndp_proxy_set_for up (tunnels up.id) (local at) in
    ground (
      arith,
      eq_iff at name,
      merge-part (sets at) set target,
      should_answer-ndp_proxy_set_for up (tunnels up.id) (local at) target,
    )

loop_sound :
    (sets : ProxySets) (ups : List Upstream) (tunnels : ℕ → List Tunnel)
    (local : String → List Addr) (name : String) (target : Addr)
    → should_answer (proxy_sets_loop sets ups tunnels local name) target ≡ true
    → (should_answer (sets name) target || any (serves tunnels local name target) ups) ≡ true
unfolding proxy_sets_loop
loop_sound sets [] tunnels local name target h = ground arith
loop_sound sets (up ∷ ups) tunnels local name target h = ground (
  arith,
  loop_sound (add_upstream sets up tunnels local) ups tunnels local name target h,
  step_sound sets up tunnels local name target,
)

-- On an interface the host answers for an address only if some on-link upstream with that egress
-- interface has an enabled tunnel whose prefix contains the address and has its own address, as it is
-- stored, in the upstream's prefix, and the address is none of the interface's own in the upstream's.
pub ndp_proxy_sets_for_sound :
    (ups : List Upstream) (tunnels : ℕ → List Tunnel) (local : String → List Addr) (name : String)
    (target : Addr)
    → should_answer (ndp_proxy_sets_for ups tunnels local name) target ≡ true
    → any (serves tunnels local name target) ups ≡ true
unfolding ndp_proxy_sets_for
ndp_proxy_sets_for_sound ups tunnels local name target h = ground (
  arith,
  loop_sound (λ _. no_proxies) ups tunnels local name target,
  should_answer-no_proxies target,
)
