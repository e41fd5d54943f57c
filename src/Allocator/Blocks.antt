-- ===== src/Allocator/Blocks.antt =====
-- Aligned blocks of the IPv6 space, their halves and their subblocks of a target length.
use native.Mathlib.Nat.{mul-div_cancel, add-mul-div_right, div-eq_of_lt}
use open_tunnelbroker.Prelude.{
  ℕ, ◌+◌, ◌-◌, ◌*◌, ◌/◌, ◌^◌, ◌≤◌, ◌<◌, ◌≡◌, sym, ◌∙◌, ap, arith, pow-add, pow-pos, pow_double,
}
use open_tunnelbroker.Netip.{Prefix, masked, prefix6}
use open_tunnelbroker.Allocator.{split_left, split_right, set_bit, prefix_at_index}
use open_tunnelbroker.Allocator.Overlap.{Inside}

-- The host part of an address in a block of this length is below this.
abbrev pub size : ℕ → ℕ
size b = 2 ^ (128 - b)

-- The subblock number `j` of target length `t`.
abbrev pub nth_sub : ℕ → ℕ → ℕ → Prefix
nth_sub v t j = prefix6 (v + j * size t) t

-- `v` is the first address of a block of length `b`, the `q`-th.
pub record IsBlock (v b q : ℕ) : Type 0 where
  pub aligned : v ≡ q * size b
  pub short : b ≤ 128

pub size-split : (b n t : ℕ) → b + n ≡ t → t ≤ 128 → size b ≡ 2 ^ n * size t
size-split b n t e l = let k : 128 - b ≡ n + (128 - t) = omega arith in rw k (pow-add n (128 - t))

size_double : (b : ℕ) → b < 128 → size b ≡ 2 * size (b + 1)
size_double b l =
    let k : 128 - b ≡ (128 - (b + 1)) + 1 = omega arith in rw k (pow_double (128 - (b + 1)))

-- A subblock lies in its block.
pub nth_sub-Inside :
    (v b q n t j : ℕ)
    → IsBlock v b q
    → b + n ≡ t
    → t ≤ 128
    → j < 2 ^ n
    → Inside (nth_sub v t j) (prefix6 v b)
nth_sub-Inside v b q n t j block e l below = record {
  longer = omega arith;
  agrees = quotient (v + j * size t) inner ∙ sym (quotient v outer);
}
  where
    small : j * size t < size b
    small = rw (size-split b n t e l) (grind (arith, pow-pos (128 - t)))

    quotient : (x : ℕ) → (r : ℕ) × (r < size b) × (x ≡ r + q * size b) → x / size b ≡ q
    quotient x (r, lt, eq) =
        rw (eq, add-mul-div_right r q (pow-pos (128 - b)), div-eq_of_lt lt) (omega arith)

    inner : (r : ℕ) × (r < size b) × (v + j * size t ≡ r + q * size b)
    inner = (j * size t, small, omega (arith, block.aligned))

    outer : (r : ℕ) × (r < size b) × (v ≡ r + q * size b)
    outer = (0, pow-pos (128 - b), omega (arith, block.aligned))

pub IsBlock-div : {v b q : ℕ} → IsBlock v b q → v / size b ≡ q
IsBlock-div {v} {b} {q} block = rw block.aligned (mul-div_cancel q (pow-pos (128 - b)))

-- Masking a block changes nothing.
pub masked-block : {v b q : ℕ} → IsBlock v b q → masked (prefix6 v b) ≡ prefix6 v b
unfolding masked
masked-block {v} {b} {q} block = ap (λ (x : ℕ). prefix6 x b) floor
  where
    floor : v / size b * size b ≡ v
    floor = rw (IsBlock-div block) (sym block.aligned)

-- The halves of a block and its subblocks are blocks.
pub IsBlock-left : (v b q : ℕ) → IsBlock v b q → b < 128 → IsBlock v (b + 1) (2 * q)
IsBlock-left v b q block l = record {
  aligned = grind (arith, block.aligned, size_double b l);
  short = omega arith;
}

pub IsBlock-right :
    (v b q : ℕ) → IsBlock v b q → b < 128 → IsBlock (v + size (b + 1)) (b + 1) (2 * q + 1)
IsBlock-right v b q block l = record {
  aligned = omega (arith, block.aligned, ap (λ (x : ℕ). q * x) (size_double b l));
  short = omega arith;
}

pub IsBlock-nth :
    (v b q n t j : ℕ)
    → IsBlock v b q
    → b + n ≡ t
    → t ≤ 128
    → IsBlock (v + j * size t) t (q * 2 ^ n + j)
IsBlock-nth v b q n t j block e l = record {
  aligned = omega (arith, block.aligned, ap (λ (x : ℕ). q * x) (size-split b n t e l));
  short = l;
}

pub split_left-block :
    (v b q : ℕ) → IsBlock v b q → b < 128 → split_left (prefix6 v b) ≡ prefix6 v (b + 1)
unfolding split_left
split_left-block v b q block l = masked-block (IsBlock-left v b q block l)

set_bit-block : (v b q : ℕ) → IsBlock v b q → b < 128 → set_bit v (128 - (b + 1)) ≡ v + size (b + 1)
unfolding set_bit
set_bit-block v b q block l = rw (IsBlock-div (IsBlock-left v b q block l)) (ground arith)

pub split_right-block :
    (v b q : ℕ)
    → IsBlock v b q
    → b < 128
    → split_right (prefix6 v b) ≡ prefix6 (v + size (b + 1)) (b + 1)
unfolding split_right
split_right-block v b q block l =
    rw (set_bit-block v b q block l) (masked-block (IsBlock-right v b q block l))

pub prefix_at_index-block :
    (v b q n t j : ℕ)
    → IsBlock v b q
    → b + n ≡ t
    → t ≤ 128
    → prefix_at_index (prefix6 v b) t j ≡ nth_sub v t j
unfolding prefix_at_index
prefix_at_index-block v b q n t j block e l =
    rw (masked-block block) (masked-block (IsBlock-nth v b q n t j block e l))

-- The subblocks of the halves are those of the whole.
pub nth_sub-right :
    (v b n t j : ℕ)
    → b + 1 + n ≡ t
    → t ≤ 128
    → nth_sub (v + size (b + 1)) t j ≡ nth_sub v t (2 ^ n + j)
nth_sub-right v b n t j e l =
    ap (λ (x : ℕ). prefix6 x t) (grind (arith, size-split (b + 1) n t e l))
