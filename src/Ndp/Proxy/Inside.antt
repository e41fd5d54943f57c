-- ===== src/Ndp/Proxy/Inside.antt =====
-- ndp.go with tunnels that lie in their upstreams, as validateUpstreamAgainstTunnels in service.go asks for.
use open_tunnelbroker.Prelude.{
  ℕ, String, ◌≤◌, ◌-◌, ◌≡◌, refl, ◌∙◌, inl, inr, Bool, true, false, not, ◌&&◌, List, [], ◌∷◌, All,
  Option, none, some, arith, Bool-cases, str_eq, any, or_true, div-pow_mono,
}
use open_tunnelbroker.Netip.{
  Addr, Prefix, Family, v4, v6, bit_len, host_bits, same_family, is6, addr_eq, masked, contains,
}
use open_tunnelbroker.Netip.Text.{parse_prefix}
use open_tunnelbroker.Models.{Upstream, Tunnel, delegated_prefix}
use open_tunnelbroker.Ndp.Proxy.{should_answer, ndp_proxy_sets_for}
use open_tunnelbroker.Ndp.Proxy.Answers.{holds, delegates, serves, ndp_proxy_sets_for_sound}
use open_tunnelbroker.Service.Validate.Disjoint.{contains-parts, contains-whole, contains-masked}

-- The tunnel's prefix, if it has one, is at least as long as this one.
abbrev pub IsLongEnough : Option Prefix → Option Prefix → Type 0
IsLongEnough (some upstream) (some prefix) = upstream.bits ≤ prefix.bits
IsLongEnough _ _ = Unit

-- No tunnel of the upstream has a shorter prefix than the upstream.
abbrev pub AreLongEnough : Upstream → List Tunnel → Type 0
AreLongEnough up = All (λ t. IsLongEnough (delegated_prefix up) (parse_prefix t.v6_cidr))

-- Is the address in the upstream's prefix?
abbrev pub covers : Option Prefix → Addr → Bool
covers none target = false
covers (some upstream) target = contains upstream target

host_bits-le :
    (p q : Prefix)
    → same_family p.addr.family q.addr.family ≡ true
    → p.bits ≤ q.bits
    → host_bits q ≤ host_bits p
host_bits-le p q f le = same p.addr.family q.addr.family f
  where
    same : (g k : Family) → same_family g k ≡ true → bit_len k - q.bits ≤ bit_len g - p.bits
    same v4 v4 h = omega (arith, le)
    same v6 v6 h = omega (arith, le)
    same v4 v6 h = ground arith
    same v6 v4 h = ground arith

-- What is in a prefix that starts in another and is no shorter is in the other.
contains_through :
    (upstream prefix : Prefix) (target : Addr)
    → upstream.bits ≤ prefix.bits
    → contains upstream prefix.addr ≡ true
    → contains prefix target ≡ true
    → contains upstream target ≡ true
contains_through upstream prefix target le start inside =
    let (fs, es) = contains-parts upstream prefix.addr start in
    let (ft, et) = contains-parts prefix target inside in
    contains-whole upstream target
      (family_chain upstream.addr.family prefix.addr.family target.family fs ft)
      (div-pow_mono target.value prefix.addr.value (host_bits prefix) (host_bits upstream)
          (host_bits-le upstream prefix fs le) et
        ∙ es)
  where
    family_chain :
        (f g k : Family) → same_family f g ≡ true → same_family g k ≡ true → same_family f k ≡ true
    family_chain v4 v4 k a b = b
    family_chain v6 v6 k a b = b
    family_chain v4 v6 k a b = ground arith
    family_chain v6 v4 k a b = ground arith

holds-covers :
    (upstream : Prefix) (target : Addr) (t : Tunnel)
    → IsLongEnough (some upstream) (parse_prefix t.v6_cidr)
    → holds upstream target t ≡ true
    → contains upstream target ≡ true
holds-covers upstream target t = by_prefix (parse_prefix t.v6_cidr)
  where
    by_prefix :
        (o : Option Prefix)
        → IsLongEnough (some upstream) o
        → elim o [
          | none ↦ false
          | some prefix ↦ contains upstream prefix.addr && contains (masked prefix) target
        ]
          ≡ true
        → contains upstream target ≡ true
    by_prefix none long h = ground arith
    by_prefix (some prefix) long h =
        let same = contains-masked prefix target in
        contains_through upstream prefix target long (ground arith) (ground (arith, same))

any-holds :
    (upstream : Prefix) (target : Addr) (ts : List Tunnel)
    → All (λ t. IsLongEnough (some upstream) (parse_prefix t.v6_cidr)) ts
    → any (λ t. t.enabled && holds upstream target t) ts ≡ true
    → contains upstream target ≡ true
any-holds upstream target [] long h = ground arith
any-holds upstream target (t ∷ ts) long h = elim (Bool-cases (holds upstream target t)) [
  | inl e ↦ holds-covers upstream target t long.0 e
  | inr e ↦
      let rest : any (λ t. t.enabled && holds upstream target t) ts ≡ true = ground arith in
      any-holds upstream target ts long.1 rest
]

delegates-covers :
    (up : Upstream) (ts : List Tunnel) (local : List Addr) (target : Addr)
    → AreLongEnough up ts
    → delegates up ts local target ≡ true
    → covers (delegated_prefix up) target ≡ true
delegates-covers up ts local target = by_prefix (delegated_prefix up)
  where
    by_prefix :
        (o : Option Prefix)
        → All (λ t. IsLongEnough o (parse_prefix t.v6_cidr)) ts
        → elim o [
          | none ↦ false
          | some upstream ↦
              is6 target
              && not (any (λ a. is6 a && contains upstream a && addr_eq a target) local)
              && any (λ t. t.enabled && holds upstream target t) ts
        ]
          ≡ true
        → covers o target ≡ true
    by_prefix none long h = ground arith
    by_prefix (some upstream) long h =
        let held : any (λ t. t.enabled && holds upstream target t) ts ≡ true = ground arith in
        any-holds upstream target ts long held

module _ (tunnels : ℕ → List Tunnel) (local : String → List Addr) (name : String)
    (target : Addr) where
  any-covers :
      (ups : List Upstream)
      → All (λ up. AreLongEnough up (tunnels up.id)) ups
      → any (serves tunnels local name target) ups ≡ true
      → any (λ up. str_eq up.egress_interface name && covers (delegated_prefix up) target) ups
        ≡ true
  any-covers [] long h = h
  any-covers (up ∷ ups) long h = elim (Bool-cases (serves tunnels local name target up)) [
    | inl e ↦
        let own = delegates-covers up (tunnels up.id) (local up.egress_interface) target long.0 in
        let inside : (str_eq up.egress_interface name && covers (delegated_prefix up) target)
            ≡ true =
          ground (arith, e, own) in
        rw inside refl
    | inr e ↦
        rw (any-covers ups long.1 (rw e at h))
          (or_true (str_eq up.egress_interface name && covers (delegated_prefix up) target))
  ]

-- Where no tunnel has a shorter prefix than its upstream, the host answers on an interface only for
-- addresses in the delegated prefix of an upstream that egresses there.
pub ndp_proxy_sets_for_inside :
    (ups : List Upstream) (tunnels : ℕ → List Tunnel) (local : String → List Addr) (name : String)
    (target : Addr)
    → All (λ up. AreLongEnough up (tunnels up.id)) ups
    → should_answer (ndp_proxy_sets_for ups tunnels local name) target ≡ true
    → any (λ up. str_eq up.egress_interface name && covers (delegated_prefix up) target) ups ≡ true
ndp_proxy_sets_for_inside ups tunnels local name target long h =
    any-covers tunnels local name target ups long
      (ndp_proxy_sets_for_sound ups tunnels local name target h)
