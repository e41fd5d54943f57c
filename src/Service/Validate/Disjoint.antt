-- ===== src/Service/Validate/Disjoint.antt =====
-- service.go, validateUpstreamUniqueness: its overlap tests tell whether two prefixes share an address.
use native.Mathlib.Nat.{mul-div_cancel}
use open_tunnelbroker.Prelude.{
  ℕ, ◌/◌, ◌^◌, ◌≤◌, true, false, ◌&&◌, Option, none, some, ◌≡◌, ◌⊎◌, ◌↔◌, inl, inr, arith, refl,
  sym, ◌∙◌, div-pow_mono, pow-pos,
}
use open_tunnelbroker.Netip.{Addr, Prefix, Family, v4, v6, same_family, host_bits, contains, masked}
use open_tunnelbroker.Allocator.{overlaps}
use open_tunnelbroker.Models.{Upstream, transport_prefix}
use open_tunnelbroker.Service.Validate.{prefixes_clash, masked_transport}

-- No address is in both prefixes.
abbrev pub AreDisjoint : Option Prefix → Option Prefix → Type 0
AreDisjoint (some p) (some q) = (a : Addr) → (contains p a && contains q a) ≡ false
AreDisjoint _ _ = Unit

quotients_meet :
    (x y z m n : ℕ) → m ≤ n → x / 2 ^ n ≡ y / 2 ^ n → x / 2 ^ m ≡ z / 2 ^ m → z / 2 ^ n ≡ y / 2 ^ n
quotients_meet x y z m n le here there = sym (div-pow_mono x z m n le there) ∙ here

same_family_trans :
    (f g k : Family) → same_family f k ≡ true → same_family g k ≡ true → same_family f g ≡ true
same_family_trans v4 v4 k a b = refl
same_family_trans v6 v6 k a b = refl
same_family_trans v4 v6 v4 a b = b
same_family_trans v4 v6 v6 a b = a
same_family_trans v6 v4 v4 a b = a
same_family_trans v6 v4 v6 a b = b

pub contains-parts :
    (p : Prefix) (a : Addr)
    → contains p a ≡ true
    → (same_family p.addr.family a.family ≡ true)
      × (a.value / 2 ^ host_bits p ≡ p.addr.value / 2 ^ host_bits p)
unfolding contains
contains-parts p a h = ground arith

pub contains-whole :
    (p : Prefix) (a : Addr)
    → same_family p.addr.family a.family ≡ true
    → a.value / 2 ^ host_bits p ≡ p.addr.value / 2 ^ host_bits p
    → contains p a ≡ true
unfolding contains
contains-whole p a f h = ground (arith, f, h)

-- Of two prefixes that share an address, the one with more host bits contains the other's address.
meet-contains :
    (p q : Prefix) (a : Addr)
    → host_bits q ≤ host_bits p
    → contains p a ≡ true
    → contains q a ≡ true
    → contains p q.addr ≡ true
meet-contains p q a le hp hq =
    let (fp, ep) = contains-parts p a hp in
    let (fq, eq) = contains-parts q a hq in
    contains-whole p q.addr (same_family_trans p.addr.family q.addr.family a.family fp fq)
      (quotients_meet a.value p.addr.value q.addr.value (host_bits q) (host_bits p) le ep eq)

contains-own : (p : Prefix) → contains p p.addr ≡ true
contains-own p = contains-whole p p.addr (same p.addr.family) refl
  where
    same : (f : Family) → same_family f f ≡ true
    same v4 = refl
    same v6 = refl

le_cases : (m n : ℕ) → (m ≤ n) ⊎ (n ≤ m)
le_cases m n = grind arith

apart-Disjoint :
    (p q : Prefix) (a : Addr) → overlaps p q ≡ false → (contains p a && contains q a) ≡ false
unfolding overlaps
apart-Disjoint p q a h = elim (le_cases (host_bits q) (host_bits p)) [
  | inl le ↦ let meet = meet-contains p q a le in ground (arith, meet)
  | inr le ↦
      let meet : contains q a ≡ true → contains p a ≡ true → contains q p.addr ≡ true =
        meet-contains q p a le in
      ground (arith, meet)
]

Disjoint-apart :
    (p q : Prefix) → ((a : Addr) → (contains p a && contains q a) ≡ false) → overlaps p q ≡ false
unfolding overlaps
Disjoint-apart p q h = ground (arith, h p.addr, h q.addr, contains-own p, contains-own q)

-- The test of the code says so.
pub prefixes_clash-AreDisjoint :
    (p q : Option Prefix) → (prefixes_clash p q ≡ false) ↔ AreDisjoint p q
unfolding prefixes_clash
prefixes_clash-AreDisjoint (some p) (some q) = (λ h a. apart-Disjoint p q a h, Disjoint-apart p q)
prefixes_clash-AreDisjoint (some p) none = (λ h. tt, λ h. refl)
prefixes_clash-AreDisjoint none (some q) = (λ h. tt, λ h. refl)
prefixes_clash-AreDisjoint none none = (λ h. tt, λ h. refl)

-- Masking changes no prefix's addresses.
pub contains-masked : (p : Prefix) (a : Addr) → contains (masked p) a ≡ contains p a
unfolding contains masked
contains-masked p a =
    rw (mul-div_cancel (p.addr.value / 2 ^ host_bits p) (pow-pos (host_bits p))) refl

pub masked_transport-AreDisjoint :
    (c o : Upstream)
    → AreDisjoint (masked_transport c) (masked_transport o)
      ↔ AreDisjoint (transport_prefix c) (transport_prefix o)
unfolding masked_transport
masked_transport-AreDisjoint c o = both (transport_prefix c) (transport_prefix o)
  where
    both :
        (p q : Option Prefix)
        → AreDisjoint
            (elim p [ none ↦ none | some t ↦ some (masked t) ])
            (elim q [ none ↦ none | some t ↦ some (masked t) ])
          ↔ AreDisjoint p q
    both (some p) (some q) = (
      λ h a. rw (contains-masked p a, contains-masked q a) at (h a),
      λ h a. rw (contains-masked p a, contains-masked q a) (h a),
    )
    both (some p) none = (λ h. tt, λ h. tt)
    both none (some q) = (λ h. tt, λ h. tt)
    both none none = (λ h. tt, λ h. tt)
