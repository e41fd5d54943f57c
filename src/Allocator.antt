-- ===== src/Allocator.antt =====
-- internal/broker/allocator.go: the choice of a free, aligned prefix in a pool, and the pool's
-- statistics. Big integers are ℕ; the random source is an argument, as `allocateWithChooser` has it.
-- A call of freePrefixCount or freePrefixAt recurs at most target - candidate levels deep, which is
-- the fuel that the wrappers hand over.
pub mod Overlap
pub mod Ranks
pub mod Blocks
pub mod Descend
pub mod Count
pub mod Nth
pub mod Request
pub mod Allocate
pub mod Complete
mod Tests
use open_tunnelbroker.Prelude.{
  ℕ, zero, suc, ◌+◌, ◌-◌, ◌*◌, ◌/◌, ◌%◌, ◌^◌, Bool, true, false, not, ◌&&◌, ◌||◌, List, [], ◌∷◌,
  Option, none, some, ◌==◌, ltb, leb, if◌then◌else◌,
}
use open_tunnelbroker.Prelude.Int.{ℤ, pos, negsuc, pos_part, ltb_ℤ}
use open_tunnelbroker.Netip.{Prefix, v6, is6, masked, contains}

-- The errors of Allocate, in the order of its returns.
pub data AllocateError : Type 0 where
  pool_not_ipv6 outside_pool allocation_outside pool_exhausted choice_failed choice_out_of_range :
      AllocateError

pub data Result {ℓ} (A : Type ℓ) : Type ℓ where
  ok : A → Result A
  err : AllocateError → Result A

-- a.Contains(b.Addr()) || b.Contains(a.Addr())
unfoldable pub overlaps : Prefix → Prefix → Bool
overlaps a b = contains a b.addr || contains b a.addr

-- `b |= 1 << k`.
unfoldable pub set_bit : ℕ → ℕ → ℕ
set_bit v k = if (v / 2 ^ k % 2) == 1 then v else v + 2 ^ k

-- The two halves of a prefix. `As16` makes both addresses IPv6 numbers; only IPv6 pools get here.
unfoldable pub split_left : Prefix → Prefix
split_left p = masked (record p { bits = p.bits + 1 })

unfoldable pub split_right : Prefix → Prefix
split_right p = masked (record {
  addr = record { family = v6; value = set_bit p.addr.value (128 - (p.bits + 1)) };
  bits = p.bits + 1;
})

-- `none` is the `blocked` result.
unfoldable pub overlapping_descendants : Prefix → List Prefix → Option (List Prefix)
overlapping_descendants candidate [] = some []
overlapping_descendants candidate (prefix ∷ used) =
    let rest = overlapping_descendants candidate used in
    if not (overlaps candidate prefix)
    then rest
    else if leb prefix.bits candidate.bits
    then none
    else elim rest [ none ↦ none | some descendants ↦ some (prefix ∷ descendants) ]

-- freePrefixCount, on fuel. Without fuel a candidate has the target length.
unfoldable pub free_count : ℕ → Prefix → List Prefix → ℕ → ℕ
unfolding overlapping_descendants split_left split_right
free_count zero candidate used target = elim (overlapping_descendants candidate used) [
  | none ↦ 0
  | some [] ↦ 2 ^ (target - candidate.bits)
  | some (d ∷ ds) ↦ 0
]
free_count (suc fuel) candidate used target = elim (overlapping_descendants candidate used) [
  | none ↦ 0
  | some [] ↦ 2 ^ (target - candidate.bits)
  | some (d ∷ ds) ↦ elim (candidate.bits == target) [
    | true ↦ 0
    | false ↦
        free_count fuel (split_left candidate) (d ∷ ds) target
        + free_count fuel (split_right candidate) (d ∷ ds) target
  ]
]

unfoldable pub free_prefix_count : Prefix → List Prefix → ℕ → ℕ
unfolding free_count
free_prefix_count candidate used target = free_count (target - candidate.bits) candidate used target

unfoldable pub prefix_at_index : Prefix → ℕ → ℕ → Prefix
prefix_at_index parent target index = masked (record {
  addr = record { family = v6; value = (masked parent).addr.value + index * 2 ^ (128 - target) };
  bits = target;
})

-- freePrefixAt, on fuel. A blocked candidate has no descendants either.
unfoldable pub free_at : ℕ → Prefix → List Prefix → ℕ → ℕ → Prefix
unfolding free_prefix_count prefix_at_index
free_at zero candidate used target index = prefix_at_index candidate target index
free_at (suc fuel) candidate used target index = elim (overlapping_descendants candidate used) [
  | none ↦ prefix_at_index candidate target index
  | some [] ↦ prefix_at_index candidate target index
  | some (d ∷ ds) ↦
      let left_count = free_prefix_count (split_left candidate) (d ∷ ds) target in
      elim (ltb index left_count) [
        | true ↦ free_at fuel (split_left candidate) (d ∷ ds) target index
        | false ↦ free_at fuel (split_right candidate) (d ∷ ds) target (index - left_count)
      ]
]

unfoldable pub free_prefix_at : Prefix → List Prefix → ℕ → ℕ → Prefix
unfolding free_at
free_prefix_at candidate used target index =
    free_at (target - candidate.bits) candidate used target index

-- What the chooser returns: an error, a nil pointer, or a number.
pub data Choice : Type 0 where
  failed nothing : Choice
  index : ℤ → Choice

-- The loop that masks the allocations and refuses one outside the pool.
unfoldable pub clean_used : Prefix → List Prefix → Result (List Prefix)
clean_used pool [] = ok []
clean_used pool (prefix ∷ used) =
    let p = masked prefix in
    let rest = clean_used pool used in
    if not (is6 p.addr) || ltb p.bits pool.bits || not (contains pool p.addr)
    then err allocation_outside
    else elim rest [ ok clean ↦ ok (p ∷ clean) | err e ↦ err e ]

-- The tests on the number that the chooser returned.
unfoldable pub take_choice : Prefix → List Prefix → ℕ → ℕ → Choice → Result Prefix
unfolding free_prefix_at
take_choice pool clean target available failed = err choice_failed
take_choice pool clean target available nothing = err choice_out_of_range
take_choice pool clean target available (index (negsuc n)) = err choice_out_of_range
take_choice pool clean target available (index (pos i)) =
    if leb available i then err choice_out_of_range else ok (free_prefix_at pool clean target i)

-- What follows the validation, from the count on.
unfoldable pub choose_free : Prefix → List Prefix → ℕ → (ℕ → Choice) → Result Prefix
unfolding free_prefix_count take_choice
choose_free pool clean target choose =
    let available = free_prefix_count pool clean target in
    if available == 0
    then err pool_exhausted
    else take_choice pool clean target available (choose available)

unfoldable pub allocate_with_chooser : Prefix → List Prefix → ℤ → (ℕ → Choice) → Result Prefix
unfolding clean_used choose_free
allocate_with_chooser pool used bits choose =
    let p = masked pool in
    if not (is6 p.addr)
    then err pool_not_ipv6
    else if ltb_ℤ bits (pos p.bits) || ltb_ℤ (pos 128) bits
    then err outside_pool
    else elim (clean_used p used) [
      | err e ↦ err e
      | ok clean ↦ choose_free p clean (pos_part bits) choose
    ]

-- The first loop of PoolStats, over the `rounds` lengths from `bits` on.
unfoldable pub largest_free : ℕ → ℕ → Prefix → List Prefix → Option ℕ
unfolding free_prefix_count
largest_free zero bits pool used = none
largest_free (suc rounds) bits pool used =
    let rest = largest_free rounds (bits + 1) pool used in
    if ltb 0 (free_prefix_count (masked pool) used bits) then some bits else rest

abbrev pub max_u64 : ℕ
max_u64 = 2 ^ 64 - 1

-- The second loop: /64 equivalents in a uint64, saturating.
unfoldable pub allocated_units : ℕ → List Prefix → ℕ
allocated_units allocated [] = allocated
allocated_units allocated (p ∷ used) =
    let shift = 64 - p.bits in
    let full = leb 64 shift || ltb (max_u64 - allocated) (2 ^ shift) in
    let rest =
      allocated_units (if leb p.bits 64 && not full then allocated + 2 ^ shift else allocated)
        used in
    if leb p.bits 64 && full then max_u64 else rest

-- PoolStats; `none` is a largest block of -1.
unfoldable pub pool_stats : Prefix → List Prefix → ℕ → ℕ × Option ℕ
unfolding largest_free allocated_units
pool_stats pool used max_bits =
    (allocated_units 0 used, largest_free (max_bits + 1 - pool.bits) pool.bits pool used)
