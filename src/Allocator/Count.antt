-- ===== src/Allocator/Count.antt =====
-- freePrefixCount in allocator.go counts the free subprefixes of the target length.
use native.Mathlib.Nat.{two-pow-succ}
use open_tunnelbroker.Prelude.{
  ℕ, zero, suc, ◌+◌, ◌-◌, ◌*◌, ◌^◌, ◌≤◌, ◌<◌, ◌≡◌, refl, sym, ◌∙◌, ap, inl, inr, ◌⊎◌, Bool, true,
  false, List, [], ◌∷◌, Option, none, some, All, arith, ◌==◌,
}
use open_tunnelbroker.Netip.{Prefix, prefix6}
use open_tunnelbroker.Allocator.{overlaps, overlapping_descendants, free_count}
use open_tunnelbroker.Allocator.Overlap.{IsV6}
use open_tunnelbroker.Allocator.Ranks.{
  count_below, count_below-true, count_below-false, count_below_ext, count_below_add,
}
use open_tunnelbroker.Allocator.Blocks.{
  IsBlock, IsBlock-left, IsBlock-right, size, nth_sub, nth_sub-Inside, nth_sub-right,
  split_left-block, split_right-block,
}
use open_tunnelbroker.Allocator.Descend.{
  is_free, blocked_parts, descendant_parts, descendants_six, descendants_meet,
}

-- Is the subblock number `j` of target length `t` free?
abbrev pub free_sub : List Prefix → ℕ → ℕ → ℕ → Bool
free_sub used v t j = is_free used (nth_sub v t j)

module _ (n v b q t : ℕ) (used : List Prefix) (block : IsBlock v b q) (six : All IsV6 used)
    (depth : b + n ≡ t) (short : t ≤ 128) where
  pub count-blocked :
      overlapping_descendants (prefix6 v b) used ≡ none
      → count_below (2 ^ n) (free_sub used v t) ≡ 0
  count-blocked e = count_below-false (2 ^ n) (free_sub used v t) λ j l.
      blocked_parts (v + j * size t) t v b used (nth_sub-Inside v b q n t j block depth short l) six
        e

  pub clear_parts :
      overlapping_descendants (prefix6 v b) used ≡ some []
      → (j : ℕ) → j < 2 ^ n
      → free_sub used v t j ≡ true
  clear_parts e j l =
      descendant_parts (v + j * size t) t v b used []
        (nth_sub-Inside v b q n t j block depth short l) six e

  pub count-clear :
      overlapping_descendants (prefix6 v b) used ≡ some []
      → count_below (2 ^ n) (free_sub used v t) ≡ 2 ^ n
  count-clear e = count_below-true (2 ^ n) (free_sub used v t) (clear_parts e)

  pub descend_parts :
      (ds : List Prefix)
      → overlapping_descendants (prefix6 v b) used ≡ some ds
      → (j : ℕ) → j < 2 ^ n
      → free_sub used v t j ≡ free_sub ds v t j
  descend_parts ds e j l =
      descendant_parts (v + j * size t) t v b used ds
        (nth_sub-Inside v b q n t j block depth short l) six e

  pub count-descend :
      (ds : List Prefix)
      → overlapping_descendants (prefix6 v b) used ≡ some ds
      → (m : ℕ) → m ≤ 2 ^ n
      → count_below m (free_sub used v t) ≡ count_below m (free_sub ds v t)
  count-descend ds e m l =
      count_below_ext m (free_sub used v t) (free_sub ds v t)
        λ j lt. descend_parts ds e j (omega arith)

-- The subblocks of a block are those of its left half and then those of its right half.
pub count-halves :
    (n v b t : ℕ) (ds : List Prefix)
    → b + 1 + n ≡ t
    → t ≤ 128
    → count_below (2 ^ suc n) (free_sub ds v t)
      ≡ count_below (2 ^ n) (free_sub ds v t)
        + count_below (2 ^ n) (free_sub ds (v + size (b + 1)) t)
count-halves n v b t ds e l =
    let two : 2 ^ suc n ≡ 2 ^ n + 2 ^ n = two-pow-succ n in
    rw two (
      count_below_add (2 ^ n) (2 ^ n) (free_sub ds v t)
      ∙ ap (λ (x : ℕ). count_below (2 ^ n) (free_sub ds v t) + x)
          (count_below_ext (2 ^ n) _ _ λ j lt. ap (is_free ds) (sym (nth_sub-right v b n t j e l))))

pub descend_results :
    (o : Option (List Prefix))
    → (o ≡ none) ⊎ ((o ≡ some []) ⊎ ((d : Prefix) × (ds : List Prefix) × (o ≡ some (d ∷ ds))))
descend_results none = inl refl
descend_results (some []) = inr (inl refl)
descend_results (some (d ∷ ds)) = inr (inr (d, ds, refl))

-- At the target length a block with a descendant is not free.
pub occupied_leaf :
    (v b q : ℕ) (d : Prefix) (used ds : List Prefix)
    → IsBlock v b q
    → All IsV6 used
    → overlapping_descendants (prefix6 v b) used ≡ some (d ∷ ds)
    → count_below (2 ^ 0) (free_sub used v b) ≡ 0
occupied_leaf v b q d used ds block six e = count_below-false 1 (free_sub used v b) occupied
  where
    first : (j : ℕ) → j < 1 → v + j * size b ≡ v
    first j l = let z : j ≡ 0 = omega arith in rw z (omega arith)

    meets : (j : ℕ) → j < 1 → overlaps (nth_sub v b j) d ≡ true
    meets j l = rw (first j l) (descendants_meet (prefix6 v b) d used ds e)

    occupied : (j : ℕ) → j < 1 → free_sub used v b j ≡ false
    occupied j l = ground (
      arith,
      meets j l,
      descendant_parts (v + j * size b) b v b used (d ∷ ds)
          (nth_sub-Inside v b q 0 b j block (omega arith) block.short l) six e,
    )

-- On a block `n` bits above the requested length, `n` units of fuel are enough: the count is the number
-- of its subblocks of that length that no allocation overlaps.
pub free_count-eq :
    (n v b q t : ℕ) (used : List Prefix)
    → IsBlock v b q
    → All IsV6 used
    → b + n ≡ t
    → t ≤ 128
    → free_count n (prefix6 v b) used t ≡ count_below (2 ^ n) (free_sub used v t)
unfolding free_count
free_count-eq zero v b q t used block six e l =
    elim (descend_results (overlapping_descendants (prefix6 v b) used)) [
      | inl r ↦ rw (r, free_count) (sym (count-blocked zero v b q t used block six e l r))
      | inr (inl r) ↦
          rw (r, free_count)
            (let z : t - b ≡ 0 = omega arith in
              rw z (sym (count-clear zero v b q t used block six e l r)))
      | inr (inr (d, ds, r)) ↦
          let z : t ≡ b = omega arith in
          rw (r, free_count) (rw z (sym (occupied_leaf v b q d used ds block six r)))
    ]
free_count-eq (suc n) v b q t used block six e l =
    elim (descend_results (overlapping_descendants (prefix6 v b) used)) [
      | inl r ↦ rw (r, free_count) (sym (count-blocked (suc n) v b q t used block six e l r))
      | inr (inl r) ↦
          rw (r, free_count)
            (let z : t - b ≡ suc n = omega arith in
              rw z (sym (count-clear (suc n) v b q t used block six e l r)))
      | inr (inr (d, ds, r)) ↦
          let six' : All IsV6 (d ∷ ds) = descendants_six (prefix6 v b) used (d ∷ ds) six r in
          let lt : b < 128 = omega arith in
          let deeper : b + 1 + n ≡ t = omega arith in
          let differ : (b == t) ≡ false = ground arith in
          rw (r, free_count)
            (rw
              (
                differ,
                split_left-block v b q block lt,
                split_right-block v b q block lt,
                free_count-eq n v (b + 1) (2 * q) t (d ∷ ds) (IsBlock-left v b q block lt) six'
                    deeper l,
                free_count-eq n (v + size (b + 1)) (b + 1) (2 * q + 1) t (d ∷ ds)
                    (IsBlock-right v b q block lt) six' deeper l,
              )
              (sym (
                count-descend (suc n) v b q t used block six e l (d ∷ ds) r (2 ^ suc n)
                  (omega arith)
                ∙ count-halves n v b t (d ∷ ds) deeper l)))
    ]
