-- ===== src/Allocator/Descend.antt =====
-- overlappingDescendants in allocator.go: what its two results say of the parts of the candidate.
use mathlib.Core.Path.{subst}
use open_tunnelbroker.Prelude.{
  ℕ, ◌≤◌, ◌≡◌, ◌⊎◌, inl, inr, Bool, true, false, not, ◌&&◌, List, [], ◌∷◌, none, some, Bool-cases,
  Option-cases, ap, All, all, leb→le, arith,
}
use open_tunnelbroker.Netip.{Prefix, prefix6}
use open_tunnelbroker.Allocator.{overlaps, overlapping_descendants}
use open_tunnelbroker.Allocator.Overlap.{IsV6, IsV6-eq, Inside, overlaps_widen, overlaps_covered}

-- No allocation overlaps the prefix.
abbrev pub is_free : List Prefix → Prefix → Bool
is_free used p = all (λ u. not (overlaps p u)) used

module _ (v a w b : ℕ) (inside : Inside (prefix6 v a) (prefix6 w b)) (u : Prefix)
    (six : IsV6 u) where
  part_meets : overlaps (prefix6 v a) u ≡ true → overlaps (prefix6 w b) u ≡ true
  part_meets h =
      rw (IsV6-eq six) (overlaps_widen v a w b u.addr.value u.bits inside (rw (← IsV6-eq six) h))

  part_covered : u.bits ≤ b → overlaps (prefix6 w b) u ≡ true → overlaps (prefix6 v a) u ≡ true
  part_covered le h =
      rw (IsV6-eq six)
        (overlaps_covered v a w b u.addr.value u.bits inside le (rw (← IsV6-eq six) h))

-- A blocked candidate has no free part.
pub blocked_parts :
    (v a w b : ℕ) (used : List Prefix)
    → Inside (prefix6 v a) (prefix6 w b)
    → All IsV6 used
    → overlapping_descendants (prefix6 w b) used ≡ none
    → is_free used (prefix6 v a) ≡ false
unfolding overlapping_descendants
blocked_parts v a w b [] inside six h = cc
blocked_parts v a w b (u ∷ used) inside six h = ground (
  arith,
  blocked_parts v a w b used inside six.1,
  part_covered v a w b inside u six.0,
  leb→le u.bits b,
)

descend_cases :
    (p u : Prefix) (used ds : List Prefix)
    → overlapping_descendants p (u ∷ used) ≡ some ds
    → ((overlaps p u ≡ false) × (overlapping_descendants p used ≡ some ds))
      ⊎ ((rest : List Prefix) × (overlapping_descendants p used ≡ some rest) × (u ∷ rest ≡ ds))
unfolding overlapping_descendants
descend_cases p u used ds h = elim (Bool-cases (overlaps p u)) [
  | inr e ↦ inl (e, ground arith)
  | inl e ↦ elim (Option-cases (overlapping_descendants p used)) [
    | inl n ↦ absurd (ground arith)
    | inr (rest, r) ↦ inr (rest, r, ground arith)
  ]
]

-- Otherwise only the descendants matter to the parts.
pub descendant_parts :
    (v a w b : ℕ) (used ds : List Prefix)
    → Inside (prefix6 v a) (prefix6 w b)
    → All IsV6 used
    → overlapping_descendants (prefix6 w b) used ≡ some ds
    → is_free used (prefix6 v a) ≡ is_free ds (prefix6 v a)
descendant_parts v a w b [] ds inside six h = unfold overlapping_descendants in ground arith
descendant_parts v a w b (u ∷ used) ds inside six h =
    elim (descend_cases (prefix6 w b) u used ds h) [
      | inl (miss, e) ↦ ground (
        arith,
        descendant_parts v a w b used ds inside six.1 e,
        part_meets v a w b inside u six.0,
      )
      | inr (rest, e, eq) ↦ rw (← eq) (
          ap (λ r. not (overlaps (prefix6 v a) u) && r)
            (descendant_parts v a w b used rest inside six.1 e))
    ]

pub descendants_six :
    (p : Prefix) (used ds : List Prefix)
    → All IsV6 used
    → overlapping_descendants p used ≡ some ds
    → All IsV6 ds
descendants_six p [] ds six h =
    let e : [] ≡ ds = unfold overlapping_descendants in ground arith in subst (All IsV6) e tt
descendants_six p (u ∷ used) ds six h = elim (descend_cases p u used ds h) [
  | inl (miss, e) ↦ descendants_six p used ds six.1 e
  | inr (rest, e, eq) ↦ subst (All IsV6) eq (six.0, descendants_six p used rest six.1 e)
]

-- Every descendant overlaps the candidate.
pub descendants_meet :
    (p d : Prefix) (used ds : List Prefix)
    → overlapping_descendants p used ≡ some (d ∷ ds)
    → overlaps p d ≡ true
unfolding overlapping_descendants
descendants_meet p d [] ds h = cc
descendants_meet p d (u ∷ used) ds h = ground (arith, descendants_meet p d used ds)
