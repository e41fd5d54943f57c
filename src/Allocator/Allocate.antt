-- ===== src/Allocator/Allocate.antt =====
-- What Allocate in allocator.go promises: a free aligned prefix inside the pool, drawn uniformly
-- among all of them, and exhaustion reported only when there is none.
use open_tunnelbroker.Prelude.{
  ℕ, ◌+◌, ◌-◌, ◌*◌, ◌/◌, ◌^◌, ◌≤◌, ◌<◌, ◌≡◌, refl, true, false, List, [], ◌∷◌, map, All, arith,
}
use open_tunnelbroker.Prelude.Int.{ℤ, pos}
use open_tunnelbroker.Netip.{Prefix, v6, masked, contains, prefix6, IsValid}
use open_tunnelbroker.Allocator.{
  ok, Choice, index, overlaps, free_prefix_count, free_prefix_at, choose_free, take_choice,
  allocate_with_chooser,
}
use open_tunnelbroker.Allocator.Overlap.{IsV6}
use open_tunnelbroker.Allocator.Ranks.{count_below}
use open_tunnelbroker.Allocator.Blocks.{
  IsBlock, IsBlock-nth, IsBlock-div, size, nth_sub, nth_sub-Inside, masked-block,
}
use open_tunnelbroker.Allocator.Descend.{is_free}
use open_tunnelbroker.Allocator.Count.{free_sub}
use open_tunnelbroker.Allocator.Nth.{IsNth, free_prefix_count-eq, free_at-IsNth}
use open_tunnelbroker.Allocator.Request.{
  IsRequest, base, base-IsBlock, All-IsV6, All-masked, is_free-masked, allocate-choose,
  accepted-IsRequest,
}

-- The number of free prefixes that a valid request chooses among.
unfoldable pub available : Prefix → List Prefix → ℕ → ℕ
available pool used t = free_prefix_count (prefix6 (base pool) pool.bits) (map masked used) t

module _ (pool : Prefix) (used : List Prefix) (t : ℕ) (request : IsRequest pool used t) where
  six : All IsV6 (map masked used)
  six = All-masked used (All-IsV6 (masked pool) used request.allocations)

  depth : pool.bits + (t - pool.bits) ≡ t
  depth = omega (arith, request.longer)

  pub available-eq :
      available pool used t
      ≡ count_below (2 ^ (t - pool.bits)) (free_sub (map masked used) (base pool) t)
  unfolding available
  available-eq =
      free_prefix_count-eq (t - pool.bits) (base pool) pool.bits (pool.addr.value / size pool.bits)
        t (map masked used) (base-IsBlock request.six) six depth request.short

  -- The prefix that index `i` stands for.
  pub chosen-IsNth :
      (i : ℕ)
      → i < available pool used t
      → IsNth
          (map masked used)
          (base pool)
          t
          (t - pool.bits)
          i
          (free_prefix_at (prefix6 (base pool) pool.bits) (map masked used) t i)
  unfolding free_prefix_at
  chosen-IsNth i l =
      free_at-IsNth (t - pool.bits) (base pool) pool.bits (pool.addr.value / size pool.bits) t i
        (map masked used) (base-IsBlock request.six) six depth request.short
        (omega (arith, available-eq))

  -- An index below the count is granted.
  pub allocate-index :
      (i : ℕ)
      → i < available pool used t
      → allocate_with_chooser pool used (pos t) (λ _. index (pos i))
        ≡ ok (free_prefix_at (prefix6 (base pool) pool.bits) (map masked used) t i)
  unfolding choose_free available
  allocate-index i l = rw (allocate-choose pool used t (λ _. index (pos i)) request) (ground arith)

take_choice-index :
    (pool : Prefix) (clean : List Prefix) (t a : ℕ) (c : Choice) (p : Prefix)
    → take_choice pool clean t a c ≡ ok p
    → (i : ℕ) × (i < a) × (c ≡ index (pos i)) × (free_prefix_at pool clean t i ≡ p)
unfolding take_choice
take_choice-index pool clean t a Choice.failed p h = absurd (ground arith)
take_choice-index pool clean t a Choice.nothing p h = absurd (ground arith)
take_choice-index pool clean t a (index (ℤ.negsuc n)) p h = absurd (ground arith)
take_choice-index pool clean t a (index (pos i)) p h = (i, ground arith, refl, ground arith)

pub choose_free-index :
    (pool : Prefix) (clean : List Prefix) (t : ℕ) (choose : ℕ → Choice) (p : Prefix)
    → choose_free pool clean t choose ≡ ok p
    → (i : ℕ) × (i < free_prefix_count pool clean t)
      × (choose (free_prefix_count pool clean t) ≡ index (pos i))
      × (free_prefix_at pool clean t i ≡ p)
unfolding choose_free
choose_free-index pool clean t choose p h =
    take_choice-index pool clean t (free_prefix_count pool clean t) _ p (ground arith)

-- Such a prefix lies in the pool and starts on its own boundary.
pub nth_sub-contained :
    (pool : Prefix) (t j : ℕ)
    → IsV6 pool
    → pool.bits ≤ t
    → t ≤ 128
    → j < 2 ^ (t - pool.bits)
    → (contains pool (nth_sub (base pool) t j).addr ≡ true)
      × (masked (nth_sub (base pool) t j) ≡ nth_sub (base pool) t j)
unfolding contains
nth_sub-contained pool t j h le l lt = (
  ground (
    arith,
    h.family,
    (nth_sub-Inside (base pool) pool.bits q (t - pool.bits) t j block (omega arith) l lt).agrees,
    IsBlock-div block,
  ),
  masked-block (IsBlock-nth (base pool) pool.bits q (t - pool.bits) t j block (omega arith) l),
)
  where
    q : ℕ
    q = pool.addr.value / size pool.bits

    block : IsBlock (base pool) pool.bits q
    block = base-IsBlock h

pub is_free-All :
    (used : List Prefix) (p : Prefix) → is_free used p ≡ true → All (λ u. overlaps p u ≡ false) used
is_free-All [] p h = tt
is_free-All (u ∷ used) p h = (ground arith, is_free-All used p (ground arith))

-- Allocate grants only what it should: whatever valid pool, allocations and chooser it is called
-- with, a prefix that it returns is an IPv6 prefix of the requested length, starts on its own
-- boundary, lies in the pool, and overlaps no allocation.
pub allocate-IsFree :
    (pool : Prefix) (used : List Prefix) (bits : ℤ) (choose : ℕ → Choice) (p : Prefix)
    → IsValid pool
    → All IsValid used
    → allocate_with_chooser pool used bits choose ≡ ok p
    → (bits ≡ pos p.bits)
      × (p.addr.family ≡ v6)
      × (masked p ≡ p)
      × (contains pool p.addr ≡ true)
      × All (λ u. overlaps p u ≡ false) used
allocate-IsFree pool used bits choose p valid all_valid h =
    let (t, same, request) = accepted-IsRequest pool used bits choose p valid all_valid h in
    let (i, lt, chose, eq) =
      choose_free-index (prefix6 (base pool) pool.bits) (map masked used) t choose p
        (rw (← allocate-choose pool used t choose request) (rw same at h)) in
    let (j, below, rank, at) = chosen-IsNth pool used t request i (unfold available in lt) in
    let (inside, aligned) =
      nth_sub-contained pool t j request.six request.longer request.short below in
    let six = All-IsV6 (masked pool) used request.allocations in
    rw (← eq) (
      rw at (
        same,
        refl,
        aligned,
        inside,
        is_free-All used _ (rw (← is_free-masked (base pool + j * size t) t used six) rank.passes),
      ))
