-- ===== src/Allocator/Overlap.antt =====
-- Overlap of IPv6 prefixes, as allocator.go tests it: two prefixes overlap exactly if they agree
-- above the longer of their host parts.
use open_tunnelbroker.Prelude.{
  ℕ, ◌-◌, ◌/◌, ◌^◌, ◌≤◌, ◌≡◌, ◌↔◌, ◌⊎◌, sym, ◌∙◌, inl, inr, true, max, arith, ==_iff, Bool-cases,
  div-pow_mono, ◌==◌, ◌||◌,
}
use open_tunnelbroker.Netip.{Prefix, v6, contains, prefix6}
use open_tunnelbroker.Allocator.{overlaps}

-- An IPv6 prefix of a valid length.
pub record IsV6 (p : Prefix) : Type 0 where
  pub family : p.addr.family ≡ v6
  pub short : p.bits ≤ 128

pub IsV6-eq : {p : Prefix} → IsV6 p → p ≡ prefix6 p.addr.value p.bits
IsV6-eq {p} h = ground (arith, h.family)

abbrev host : ℕ → ℕ → ℕ
host a b = max (128 - a) (128 - b)

host_cases : (a b : ℕ) → (host a b ≡ 128 - a) ⊎ (host a b ≡ 128 - b)
host_cases a b = grind arith

pub overlaps_iff :
    (v a w b : ℕ)
    → (overlaps (prefix6 v a) (prefix6 w b) ≡ true) ↔ (v / 2 ^ host a b ≡ w / 2 ^ host a b)
unfolding overlaps contains
overlaps_iff v a w b = (forward, backward)
  where
    at : (k : ℕ) → host a b ≡ k → v / 2 ^ host a b ≡ w / 2 ^ host a b → v / 2 ^ k ≡ w / 2 ^ k
    at k e = rw e (λ h. h)

    forward :
        ((w / 2 ^ (128 - a) == v / 2 ^ (128 - a)) || (v / 2 ^ (128 - b) == w / 2 ^ (128 - b)))
          ≡ true
        → v / 2 ^ host a b ≡ w / 2 ^ host a b
    forward h = elim (Bool-cases (w / 2 ^ (128 - a) == v / 2 ^ (128 - a))) [
      | inl e ↦ div-pow_mono v w (128 - a) (host a b) (omega arith) (sym ((==_iff _ _).0 e))
      | inr e ↦ div-pow_mono v w (128 - b) (host a b) (omega arith) (ground (arith, h, e))
    ]

    backward :
        v / 2 ^ host a b ≡ w / 2 ^ host a b
        → ((w / 2 ^ (128 - a) == v / 2 ^ (128 - a)) || (v / 2 ^ (128 - b) == w / 2 ^ (128 - b)))
          ≡ true
    backward h = elim (host_cases a b) [
      | inl e ↦ ground (arith, at (128 - a) e h)
      | inr e ↦ ground (arith, at (128 - b) e h)
    ]

-- `s` lies in the block of `c`.
pub record Inside (s c : Prefix) : Type 0 where
  pub longer : c.bits ≤ s.bits
  pub agrees : s.addr.value / 2 ^ (128 - c.bits) ≡ c.addr.value / 2 ^ (128 - c.bits)

module _ (v a w b x d : ℕ) (inside : Inside (prefix6 v a) (prefix6 w b)) where
  -- What meets a part meets the whole.
  pub overlaps_widen :
      overlaps (prefix6 v a) (prefix6 x d) ≡ true → overlaps (prefix6 w b) (prefix6 x d) ≡ true
  overlaps_widen h = (overlaps_iff w b x d).1 (
      sym (div-pow_mono v w (128 - b) (host b d) (omega arith) inside.agrees)
      ∙ div-pow_mono v x (host a d) (host b d) (omega arith) ((overlaps_iff v a x d).0 h))

  -- What covers the whole meets every part.
  pub overlaps_covered :
      d ≤ b
      → overlaps (prefix6 w b) (prefix6 x d) ≡ true
      → overlaps (prefix6 v a) (prefix6 x d) ≡ true
  overlaps_covered le h = (overlaps_iff v a x d).1 (
      div-pow_mono v w (128 - b) (host a d) (omega arith) inside.agrees
      ∙ div-pow_mono w x (host b d) (host a d) (omega arith) ((overlaps_iff w b x d).0 h))
