-- ===== src/Allocator/Complete.antt =====
-- The choice of allocator.go is complete and fair, and exhaustion is reported exactly when nothing is
-- free.
use native.Mathlib.Nat.{mul-div_cancel, div-add-mod', mod-lt}
use mathlib.Core.Path.{subst}
use open_tunnelbroker.Prelude.{
  ℕ, ◌+◌, ◌-◌, ◌*◌, ◌/◌, ◌%◌, ◌^◌, ◌≤◌, ◌<◌, ◌≡◌, ◌↔◌, ◌⊎◌, refl, sym, ◌∙◌, ap, inl, inr, true,
  false, List, [], ◌∷◌, map, All, arith, pow-pos, div-pow,
}
use open_tunnelbroker.Prelude.Int.{ℤ, pos}
use open_tunnelbroker.Netip.{Prefix, v6, masked, contains, prefix6}
use open_tunnelbroker.Allocator.{
  ok, err, pool_exhausted, Choice, index, overlaps, free_prefix_count, free_prefix_at, choose_free,
  take_choice, allocate_with_chooser,
}
use open_tunnelbroker.Allocator.Overlap.{IsV6}
use open_tunnelbroker.Allocator.Ranks.{HasRank-unique, count_below, rank_lt}
use open_tunnelbroker.Allocator.Blocks.{size, size-split, nth_sub}
use open_tunnelbroker.Allocator.Descend.{is_free}
use open_tunnelbroker.Allocator.Count.{free_sub}
use open_tunnelbroker.Allocator.Allocate.{
  available, chosen-IsNth, allocate-index, available-eq, is_free-All, nth_sub-contained,
  choose_free-index,
}
use open_tunnelbroker.Allocator.Request.{
  IsRequest, base, All-IsV6, is_free-masked, allocate-choose, masked-six,
}

-- An aligned prefix in the pool is one of the pool's subblocks.
contained-nth_sub :
    (pool q : Prefix)
    → IsV6 pool
    → IsV6 q
    → pool.bits ≤ q.bits
    → masked q ≡ q
    → contains pool q.addr ≡ true
    → (j : ℕ) × (j < 2 ^ (q.bits - pool.bits)) × (nth_sub (base pool) q.bits j ≡ q)
unfolding contains
contained-nth_sub pool q h k le aligned inside = (
  m % 2 ^ n,
  mod-lt m (pow-pos n),
  (ap (λ (x : ℕ). prefix6 x t) whole ∙ sym (masked-six k)) ∙ aligned,
)
  where
    t : ℕ
    t = q.bits

    n : ℕ
    n = q.bits - pool.bits

    m : ℕ
    m = q.addr.value / size t

    high : m / 2 ^ n ≡ pool.addr.value / size pool.bits
    high =
        let k : (128 - q.bits) + n ≡ 128 - pool.bits = omega (arith, k.short) in
        div-pow q.addr.value (128 - t) n ∙ rw k (ground (arith, h.family))

    whole : base pool + m % 2 ^ n * size t ≡ m * size t
    whole = omega (
      arith,
      ap (λ (x : ℕ). x * size t) (div-add-mod' m (2 ^ n)),
      ap (λ (x : ℕ). x * 2 ^ n * size t) high,
      ap (λ (x : ℕ). pool.addr.value / size pool.bits * x)
          (size-split pool.bits n t (omega arith) k.short),
    )

All-is_free :
    (used : List Prefix) (p : Prefix) → All (λ u. overlaps p u ≡ false) used → is_free used p ≡ true
All-is_free [] p h = refl
All-is_free (u ∷ used) p h = ground (arith, h.0, All-is_free used p h.1)

-- The choice is complete: every aligned prefix of the requested length in the pool that overlaps no
-- allocation is what some index below the number of available prefixes stands for.
pub allocate-reaches :
    (pool : Prefix) (used : List Prefix) (q : Prefix)
    → IsRequest pool used q.bits
    → q.addr.family ≡ v6
    → masked q ≡ q
    → contains pool q.addr ≡ true
    → All (λ u. overlaps q u ≡ false) used
    → (i : ℕ) × (i < available pool used q.bits)
      × (allocate_with_chooser pool used (pos q.bits) (λ _. index (pos i)) ≡ ok q)
allocate-reaches pool used q request family aligned inside free =
    let t : ℕ = q.bits in
    let (j, below, eq) =
      contained-nth_sub pool q request.six (record { family = family; short = request.short })
        request.longer aligned inside in
    let f = free_sub (map masked used) (base pool) t in
    let passes : f j ≡ true =
      is_free-masked (base pool + j * size t) t used
        (All-IsV6 (masked pool) used request.allocations)
      ∙ ap (is_free used) eq
      ∙ All-is_free used q free in
    let ranked : count_below j f < available pool used t =
      omega
        (arith, rank_lt (2 ^ (t - pool.bits)) j f below passes, available-eq pool used t request) in
    let (k, _, rank, at) = chosen-IsNth pool used t request (count_below j f) ranked in
    let one =
      HasRank-unique f (count_below j f) k j rank (record { passes = passes; below = refl }) in
    (
      count_below j f,
      ranked,
      allocate-index pool used t request (count_below j f) ranked
          ∙ ap ok (at ∙ ap (nth_sub (base pool) t) one ∙ eq),
    )

granted-below :
    (pool : Prefix) (used : List Prefix) (t i : ℕ) (p : Prefix)
    → IsRequest pool used t
    → allocate_with_chooser pool used (pos t) (λ _. index (pos i)) ≡ ok p
    → (i < available pool used t)
      × (free_prefix_at (prefix6 (base pool) pool.bits) (map masked used) t i ≡ p)
unfolding available
granted-below pool used t i p request h =
    let (k, lt, chose, eq) =
      choose_free-index (prefix6 (base pool) pool.bits) (map masked used) t (λ _. index (pos i)) p
        (rw (← allocate-choose pool used t (λ _. index (pos i)) request) h) in
    let same : k ≡ i = ground (arith, chose) in (rw (← same) lt, rw (← same) eq)

nth_sub-injective : (v t i j : ℕ) → nth_sub v t i ≡ nth_sub v t j → i ≡ j
nth_sub-injective v t i j h =
    let sums : v + i * size t ≡ v + j * size t = ap (λ p. p.addr.value) h in
    let products : i * size t ≡ j * size t = omega (arith, sums) in
    sym (mul-div_cancel i (pow-pos (128 - t)))
    ∙ ap (λ (x : ℕ). x / size t) products
    ∙ mul-div_cancel j (pow-pos (128 - t))

-- The choice is fair: two indices that are granted the same prefix are one index.
pub allocate-injective :
    (pool : Prefix) (used : List Prefix) (t i j : ℕ) (p : Prefix)
    → IsRequest pool used t
    → allocate_with_chooser pool used (pos t) (λ _. index (pos i)) ≡ ok p
    → allocate_with_chooser pool used (pos t) (λ _. index (pos j)) ≡ ok p
    → i ≡ j
allocate-injective pool used t i j p request hi hj =
    let (li, ei) = granted-below pool used t i p request hi in
    let (lj, ej) = granted-below pool used t j p request hj in
    let (a, _, ranki, ati) = chosen-IsNth pool used t request i li in
    let (b, _, rankj, atj) = chosen-IsNth pool used t request j lj in
    let one = nth_sub-injective (base pool) t a b (sym ati ∙ ei ∙ sym ej ∙ atj) in
    sym ranki.below
    ∙ ap (λ x. count_below x (free_sub (map masked used) (base pool) t)) one
    ∙ rankj.below

-- No prefix can be granted.
pub record IsFull (pool : Prefix) (used : List Prefix) (t : ℕ) : Type 0 where
  pub none_free : ¬ (
      (q : Prefix) × (q.bits ≡ t)
      × (q.addr.family ≡ v6)
      × (masked q ≡ q)
      × (contains pool q.addr ≡ true)
      × All (λ u. overlaps q u ≡ false) used)

take_choice-not_exhausted :
    (pool : Prefix) (clean : List Prefix) (t a : ℕ) (c : Choice)
    → take_choice pool clean t a c ≡ err pool_exhausted
    → ⊥
unfolding take_choice
take_choice-not_exhausted pool clean t a Choice.failed h = ground arith
take_choice-not_exhausted pool clean t a Choice.nothing h = ground arith
take_choice-not_exhausted pool clean t a (index (ℤ.negsuc n)) h = ground arith
take_choice-not_exhausted pool clean t a (index (pos i)) h = ground arith

exhausted-available :
    (pool : Prefix) (used : List Prefix) (t : ℕ) (choose : ℕ → Choice)
    → IsRequest pool used t
    → (allocate_with_chooser pool used (pos t) choose ≡ err pool_exhausted)
      ↔ (available pool used t ≡ 0)
unfolding choose_free available
exhausted-available pool used t choose request = rw (allocate-choose pool used t choose request) (
  (λ h. ground (
    arith,
    take_choice-not_exhausted (prefix6 (base pool) pool.bits) (map masked used) t
        (free_prefix_count (prefix6 (base pool) pool.bits) (map masked used) t)
        (choose (free_prefix_count (prefix6 (base pool) pool.bits) (map masked used) t)),
  )),
  (λ e. ground arith),
)

-- A valid request fails with ErrPoolExhausted exactly when no aligned prefix of that length in the
-- pool is clear of all allocations, whatever the chooser does.
pub allocate-exhausted :
    (pool : Prefix) (used : List Prefix) (t : ℕ) (choose : ℕ → Choice)
    → IsRequest pool used t
    → (allocate_with_chooser pool used (pos t) choose ≡ err pool_exhausted) ↔ IsFull pool used t
allocate-exhausted pool used t choose request = (full_of, of_full)
  where
    zero_or_pos : (n : ℕ) → (n ≡ 0) ⊎ (0 < n)
    zero_or_pos n = grind arith

    full_of :
        allocate_with_chooser pool used (pos t) choose ≡ err pool_exhausted → IsFull pool used t
    full_of h = record {
      none_free = λ (q, e, family, aligned, inside, free).
          let (i, l, _) =
            allocate-reaches pool used q (subst (IsRequest pool used) (sym e) request) family
              aligned inside free in
          let none = (exhausted-available pool used t choose request).0 h in
          absurd (omega (arith, l, none, ap (available pool used) e));
    }

    of_full :
        IsFull pool used t → allocate_with_chooser pool used (pos t) choose ≡ err pool_exhausted
    of_full full = elim (zero_or_pos (available pool used t)) [
      | inl e ↦ (exhausted-available pool used t choose request).1 e
      | inr l ↦
          let (j, below, rank, _) = chosen-IsNth pool used t request 0 l in
          let (inside, aligned) =
            nth_sub-contained pool t j request.six request.longer request.short below in
          let clear : is_free used (nth_sub (base pool) t j) ≡ true =
            rw
              (← is_free-masked (base pool + j * size t) t used
                (All-IsV6 (masked pool) used request.allocations))
              rank.passes in
          absurd (
            full.none_free (
              nth_sub (base pool) t j,
              refl,
              refl,
              aligned,
              inside,
              is_free-All used (nth_sub (base pool) t j) clear,
            ))
    ]
