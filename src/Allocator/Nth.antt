-- ===== src/Allocator/Nth.antt =====
-- freePrefixAt in allocator.go returns the free subprefix with the given rank in address order.
use native.Mathlib.Nat.{two-pow-succ}
use mathlib.Core.Path.{subst}
use open_tunnelbroker.Prelude.{
  ℕ, zero, suc, ◌+◌, ◌-◌, ◌*◌, ◌^◌, ◌≤◌, ◌<◌, ◌≡◌, refl, sym, ◌∙◌, ap, inl, inr, true, false, List,
  [], ◌∷◌, some, Bool-cases, All, arith, ltb, ltb→lt,
}
use open_tunnelbroker.Netip.{Prefix, prefix6}
use open_tunnelbroker.Allocator.{
  overlapping_descendants, split_left, split_right, free_prefix_count, free_at, prefix_at_index,
}
use open_tunnelbroker.Allocator.Overlap.{IsV6}
use open_tunnelbroker.Allocator.Ranks.{
  HasRank, count_below, count_below-true, count_below_ext, count_below_add,
}
use open_tunnelbroker.Allocator.Blocks.{
  IsBlock, IsBlock-left, IsBlock-right, size, nth_sub, nth_sub-right, split_left-block,
  split_right-block, prefix_at_index-block,
}
use open_tunnelbroker.Allocator.Descend.{is_free, descendants_six}
use open_tunnelbroker.Allocator.Count.{
  free_sub, clear_parts, count-blocked, count-clear, count-descend, count-halves, occupied_leaf,
  descend_results, free_count-eq, descend_parts,
}

-- `p` is the free subblock of `v` that has this many free ones before it.
abbrev pub IsNth : List Prefix → ℕ → ℕ → ℕ → ℕ → Prefix → Type 0
IsNth used v t n rank p =
    (j : ℕ) × (j < 2 ^ n) × HasRank (free_sub used v t) rank j × (p ≡ nth_sub v t j)

module _ (n v b q t : ℕ) (used : List Prefix) (block : IsBlock v b q) (six : All IsV6 used)
    (depth : b + n ≡ t) (short : t ≤ 128) (i : ℕ) where
  IsNth-clear :
      overlapping_descendants (prefix6 v b) used ≡ some []
      → i < 2 ^ n
      → IsNth used v t n i (prefix_at_index (prefix6 v b) t i)
  IsNth-clear e l = (
    i,
    l,
    record {
      passes = clear_parts n v b q t used block six depth short e i l;
      below =
          count_below-true i (free_sub used v t)
            λ j lt. clear_parts n v b q t used block six depth short e j (omega arith);
    },
    prefix_at_index-block v b q n t i block depth short,
  )

  -- A rank among the descendants is a rank among all allocations.
  IsNth-descend :
      (ds : List Prefix) (p : Prefix)
      → overlapping_descendants (prefix6 v b) used ≡ some ds
      → IsNth ds v t n i p
      → IsNth used v t n i p
  IsNth-descend ds p e (j, l, rank, eq) = (
    j,
    l,
    record {
      passes = descend_parts n v b q t used block six depth short ds e j l ∙ rank.passes;
      below = count-descend n v b q t used block six depth short ds e j (omega arith) ∙ rank.below;
    },
    eq,
  )

IsNth-left :
    (n v t i : ℕ) (ds : List Prefix) (p : Prefix) → IsNth ds v t n i p → IsNth ds v t (suc n) i p
IsNth-left n v t i ds p (j, l, rank, eq) = (j, omega (arith, two-pow-succ n), rank, eq)

IsNth-right :
    (n v b t i : ℕ) (ds : List Prefix) (p : Prefix)
    → b + 1 + n ≡ t
    → t ≤ 128
    → IsNth ds (v + size (b + 1)) t n i p
    → IsNth ds v t (suc n) (count_below (2 ^ n) (free_sub ds v t) + i) p
IsNth-right n v b t i ds p e l (j, lt, rank, eq) = (
  2 ^ n + j,
  omega (arith, two-pow-succ n),
  record {
    passes = ap (is_free ds) (sym (nth_sub-right v b n t j e l)) ∙ rank.passes;
    below =
        count_below_add (2 ^ n) j (free_sub ds v t)
        ∙ ap (λ (x : ℕ). count_below (2 ^ n) (free_sub ds v t) + x)
            (count_below_ext j _ _ (λ k _. ap (is_free ds) (sym (nth_sub-right v b n t k e l)))
              ∙ rank.below);
  },
  eq ∙ nth_sub-right v b n t j e l,
)

pub free_prefix_count-eq :
    (n v b q t : ℕ) (used : List Prefix)
    → IsBlock v b q
    → All IsV6 used
    → b + n ≡ t
    → t ≤ 128
    → free_prefix_count (prefix6 v b) used t ≡ count_below (2 ^ n) (free_sub used v t)
unfolding free_prefix_count
free_prefix_count-eq n v b q t used block six e l =
    let depth : t - b ≡ n = omega arith in rw depth (free_count-eq n v b q t used block six e l)

module _ (n t i : ℕ) (c d : Prefix) (used ds : List Prefix)
    (descends : overlapping_descendants c used ≡ some (d ∷ ds)) where
  free_at-left :
      ltb i (free_prefix_count (split_left c) (d ∷ ds) t) ≡ true
      → free_at (suc n) c used t i ≡ free_at n (split_left c) (d ∷ ds) t i
  unfolding free_at
  free_at-left h = rw (descends, free_at) (rw h)

  free_at-right :
      ltb i (free_prefix_count (split_left c) (d ∷ ds) t) ≡ false
      → free_at (suc n) c used t i
        ≡ free_at n (split_right c) (d ∷ ds) t (i - free_prefix_count (split_left c) (d ∷ ds) t)
  unfolding free_at
  free_at-right h = rw (descends, free_at) (rw h)

-- A candidate with descendants: the search goes on in the half that holds the rank.
module _ (n v b q t i : ℕ) (used : List Prefix) (block : IsBlock v b q) (six : All IsV6 used)
    (depth : b + suc n ≡ t) (short : t ≤ 128) (d : Prefix) (ds : List Prefix)
    (descends : overlapping_descendants (prefix6 v b) used ≡ some (d ∷ ds)) where
  left_count :
      free_prefix_count (split_left (prefix6 v b)) (d ∷ ds) t
      ≡ count_below (2 ^ n) (free_sub (d ∷ ds) v t)
  left_count = rw (split_left-block v b q block (omega arith)) (
      free_prefix_count-eq n v (b + 1) (2 * q) t (d ∷ ds) (IsBlock-left v b q block (omega arith))
        (descendants_six (prefix6 v b) used (d ∷ ds) six descends) (omega arith) short)

  in_left :
      ltb i (count_below (2 ^ n) (free_sub (d ∷ ds) v t)) ≡ true
      → IsNth (d ∷ ds) v t n i (free_at n (prefix6 v (b + 1)) (d ∷ ds) t i)
      → IsNth (d ∷ ds) v t (suc n) i (free_at (suc n) (prefix6 v b) used t i)
  in_left lo h =
      rw
        (
          free_at-left n t i (prefix6 v b) d used ds descends (rw left_count lo),
          split_left-block v b q block (omega arith),
        )
        (IsNth-left n v t i (d ∷ ds) (free_at n (prefix6 v (b + 1)) (d ∷ ds) t i) h)

  in_right :
      (k : ℕ)
      → ltb i (count_below (2 ^ n) (free_sub (d ∷ ds) v t)) ≡ false
      → count_below (2 ^ n) (free_sub (d ∷ ds) v t) + k ≡ i
      → k ≡ i - count_below (2 ^ n) (free_sub (d ∷ ds) v t)
      → IsNth
          (d ∷ ds)
          (v + size (b + 1))
          t
          n
          k
          (free_at n (prefix6 (v + size (b + 1)) (b + 1)) (d ∷ ds) t k)
      → IsNth (d ∷ ds) v t (suc n) i (free_at (suc n) (prefix6 v b) used t i)
  in_right k hi back rest h =
      rw
        (
          free_at-right n t i (prefix6 v b) d used ds descends (rw left_count hi),
          left_count,
          split_right-block v b q block (omega arith),
          ← rest,
        )
        (subst
          (λ x.
            IsNth (d ∷ ds) v t (suc n) x
              (free_at n (prefix6 (v + size (b + 1)) (b + 1)) (d ∷ ds) t k))
          back
          (IsNth-right n v b t k (d ∷ ds)
            (free_at n (prefix6 (v + size (b + 1)) (b + 1)) (d ∷ ds) t k) (omega arith) short h))

pub free_at-IsNth :
    (n v b q t i : ℕ) (used : List Prefix)
    → IsBlock v b q
    → All IsV6 used
    → b + n ≡ t
    → t ≤ 128
    → i < count_below (2 ^ n) (free_sub used v t)
    → IsNth used v t n i (free_at n (prefix6 v b) used t i)
unfolding free_at
free_at-IsNth zero v b q t i used block six e l lt =
    elim (descend_results (overlapping_descendants (prefix6 v b) used)) [
      | inl r ↦ absurd (omega (arith, count-blocked zero v b q t used block six e l r))
      | inr (inl r) ↦
          IsNth-clear zero v b q t used block six e l i r
            (omega (arith, count-clear zero v b q t used block six e l r))
      | inr (inr (d, ds, r)) ↦
          let z : b ≡ t = omega arith in
          absurd (omega (arith, rw z at (occupied_leaf v b q d used ds block six r)))
    ]
free_at-IsNth (suc n) v b q t i used block six e l lt =
    elim (descend_results (overlapping_descendants (prefix6 v b) used)) [
      | inl r ↦ absurd (omega (arith, count-blocked (suc n) v b q t used block six e l r))
      | inr (inl r) ↦
          rw (r, free_at)
            (IsNth-clear (suc n) v b q t used block six e l i r
              (omega (arith, count-clear (suc n) v b q t used block six e l r)))
      | inr (inr (d, ds, r)) ↦
          let six' = descendants_six (prefix6 v b) used (d ∷ ds) six r in
          let deeper : b + 1 + n ≡ t = omega arith in
          let c : ℕ = count_below (2 ^ n) (free_sub (d ∷ ds) v t) in
          let halves = count-halves n v b t (d ∷ ds) deeper l in
          let all_of =
            count-descend (suc n) v b q t used block six e l (d ∷ ds) r (2 ^ suc n) (omega arith) in
          IsNth-descend (suc n) v b q t used block six e l i (d ∷ ds)
            (free_at (suc n) (prefix6 v b) used t i) r
            (elim (Bool-cases (ltb i c)) [
              | inl lo ↦ in_left n v b q t i used block six e l d ds r lo (
                  free_at-IsNth n v (b + 1) (2 * q) t i (d ∷ ds)
                    (IsBlock-left v b q block (omega arith)) six' deeper l (ltb→lt _ _ lo))
              | inr hi ↦
                  in_right n v b q t i used block six e l d ds r (i - c) hi (ground arith) refl (
                    free_at-IsNth n (v + size (b + 1)) (b + 1) (2 * q + 1) t (i - c) (d ∷ ds)
                      (IsBlock-right v b q block (omega arith)) six' deeper l
                      (let back : c + (i - c) ≡ i = ground arith in
                        omega (arith, halves, all_of, back)))
            ])
    ]
