-- ===== src/Allocator/Tests.antt =====
-- The theorems on the allocator, on a /32 of the documentation range with its lower half in use.
use open_tunnelbroker.Prelude.{
  ℕ, ◌+◌, ◌^◌, ◌<◌, ◌≡◌, ◌↔◌, refl, List, [], ◌∷◌, true, false, All, arith,
}
use open_tunnelbroker.Prelude.Int.{pos}
use open_tunnelbroker.Netip.{Prefix, prefix6, v6, masked, contains}
use open_tunnelbroker.Allocator.{
  ok, err, pool_exhausted, Choice, index, overlaps, allocate_with_chooser, clean_used, choose_free,
  take_choice, free_prefix_count, free_count, overlapping_descendants, split_left, split_right,
  set_bit, free_prefix_at, free_at, prefix_at_index,
}
use open_tunnelbroker.Allocator.Overlap.{IsV6}
use open_tunnelbroker.Allocator.Request.{IsRequest}
use open_tunnelbroker.Allocator.Ranks.{count_below}
use open_tunnelbroker.Allocator.Count.{free_count-eq, free_sub}
use open_tunnelbroker.Allocator.Allocate.{allocate-IsFree, available}
use open_tunnelbroker.Allocator.Complete.{
  allocate-reaches, allocate-injective, allocate-exhausted, IsFull,
}

abbrev first : ℕ
first = 0x20010db8000000000000000000000000

abbrev pool : Prefix
pool = prefix6 first 32

abbrev used : List Prefix
used = prefix6 first 33 ∷ []

abbrev second : ℕ → Choice
second n = index (pos 1)

-- The upper half of the upper half.
abbrev granted : Prefix
granted = prefix6 (first + 2 ^ 95 + 2 ^ 94) 34

grants : allocate_with_chooser pool used (pos 34) second ≡ ok granted
unfolding allocate_with_chooser clean_used choose_free take_choice free_prefix_count free_count
    overlapping_descendants split_left split_right set_bit free_prefix_at free_at prefix_at_index
    overlaps masked contains
grants = refl

pool_six : IsV6 pool
pool_six = record { family = refl; short = omega arith }

is_request : IsRequest pool used 34
unfolding contains masked
is_request = record {
  six = pool_six;
  longer = omega arith;
  short = omega arith;
  allocations = (
    record {
      six = record { family = refl; short = omega arith };
      longer = omega arith;
      inside = refl;
    },
    tt,
  );
}

allocate-IsFree_example :
    (pos 34 ≡ pos 34)
    × (granted.addr.family ≡ v6)
    × (masked granted ≡ granted)
    × (contains pool granted.addr ≡ true)
    × All (λ u. overlaps granted u ≡ false) used
allocate-IsFree_example =
    allocate-IsFree pool used (pos 34) second granted (omega arith) (omega arith, tt) grants

allocate-reaches_example :
    (i : ℕ) × (i < available pool used 34)
    × (allocate_with_chooser pool used (pos 34) (λ _. index (pos i)) ≡ ok granted)
unfolding masked contains overlaps
allocate-reaches_example = allocate-reaches pool used granted is_request refl refl refl (refl, tt)

allocate-exhausted_example :
    (allocate_with_chooser pool used (pos 34) second ≡ err pool_exhausted) ↔ IsFull pool used 34
allocate-exhausted_example = allocate-exhausted pool used 34 second is_request

grants_first : allocate_with_chooser pool used (pos 34) (λ _. index (pos 1)) ≡ ok granted
grants_first = grants

abbrev chosen : ℕ
chosen = 1

allocate-injective_example : chosen ≡ chosen
allocate-injective_example =
    allocate-injective pool used 34 chosen chosen granted is_request grants_first grants_first

free_count-eq_example :
    free_count 2 (prefix6 first 32) used 34 ≡ count_below (2 ^ 2) (free_sub used first 34)
free_count-eq_example =
    free_count-eq 2 first 32 0x20010db8 34 used (record { aligned = refl; short = omega arith })
      (record { family = refl; short = omega arith }, tt) refl (omega arith)
