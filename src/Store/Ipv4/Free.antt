-- ===== src/Store/Ipv4/Free.antt =====
-- store.go, nextFreeIPv4: what it returns, and that it fails only when nothing is left.
use native.Mathlib.Nat.{div-lt_iff_lt-mul, le-div_iff_mul-le}
use open_tunnelbroker.Prelude.{
  ℕ, zero, suc, ◌+◌, ◌-◌, ◌*◌, ◌/◌, ◌^◌, ◌≤◌, ◌<◌, ◌≡◌, true, false, List, none, some, any, arith,
  ap, pow-pos,
}
use open_tunnelbroker.Netip.{Addr, Prefix, addr_eq, masked, contains, next, host_bits}
use open_tunnelbroker.Store.Ipv4.{free_from, next_free_ipv4}

free_from-some :
    (n : ℕ) (pool : Prefix) (used : List Addr) (from found : Addr)
    → free_from n pool used from ≡ some found
    → (contains pool found ≡ true) × (any (addr_eq found) used ≡ false) × (from.value ≤ found.value)
unfolding free_from next
free_from-some zero pool used from found h = ground arith
free_from-some (suc n) pool used from found h =
    ground (arith, free_from-some n pool used (next from) found)

-- The address `j` places on.
abbrev pub place : Addr → ℕ → Addr
place a j = record a { value = a.value + j }

-- Where a later address is in the pool, so is an earlier one that is not below it.
contains-between :
    (pool : Prefix) (from : Addr) (j : ℕ)
    → pool.addr.value / 2 ^ host_bits pool * 2 ^ host_bits pool ≤ from.value
    → contains pool (place from j) ≡ true
    → contains pool from ≡ true
unfolding contains
contains-between pool from j low h =
    let s : ℕ = 2 ^ host_bits pool in
    let q : ℕ = pool.addr.value / s in
    let top : from.value / s < q + 1 = (div-lt_iff_lt-mul (pow-pos (host_bits pool))).1 (
      let high : from.value + j < (q + 1) * s =
        (div-lt_iff_lt-mul (pow-pos (host_bits pool))).0 (ground arith) in
      omega (arith, high)) in
    let bottom : q ≤ from.value / s = (le-div_iff_mul-le (pow-pos (host_bits pool))).1 low in
    ground (arith, top, bottom)

free_from-none :
    (n j : ℕ) (pool : Prefix) (used : List Addr) (from : Addr)
    → pool.addr.value / 2 ^ host_bits pool * 2 ^ host_bits pool ≤ from.value
    → free_from n pool used from ≡ none
    → j < n
    → contains pool (place from j) ≡ true
    → any (addr_eq (place from j)) used ≡ true
unfolding free_from next
free_from-none zero j pool used from low h l c = ground arith
free_from-none (suc n) zero pool used from low h l c = ground arith
free_from-none (suc n) (suc j) pool used from low h l c =
    let here = contains-between pool from (suc j) low c in
    let e : place (next from) j ≡ place from (suc j) =
      ap (λ (x : ℕ). record from { value = x }) (omega arith) in
    rw (← e) (
      free_from-none n j pool used (next from) (omega (arith, low)) (ground (arith, here))
        (omega (arith, l)) (rw (← e) at c))

-- The network address of a pool.
abbrev pub network : Prefix → ℕ
network pool = pool.addr.value / 2 ^ host_bits pool * 2 ^ host_bits pool

-- An address that is handed out lies in the pool, is not the network address, and is not in use.
pub next_free_ipv4-IsFree :
    (pool : Prefix) (used : List Addr) (found : Addr)
    → next_free_ipv4 pool used ≡ some found
    → (contains pool found ≡ true)
      × (network pool < found.value)
      × (any (addr_eq found) used ≡ false)
unfolding next_free_ipv4 next masked
next_free_ipv4-IsFree pool used found h =
    let (inside, unused, above) =
      free_from-some (2 ^ host_bits pool) pool used (next (masked pool).addr) found h in
    (inside, omega (arith, above), unused)

-- The search fails only if every address of the pool past the network address is in use.
pub next_free_ipv4-exhausted :
    (pool : Prefix) (used : List Addr) (a : Addr)
    → next_free_ipv4 pool used ≡ none
    → contains pool a ≡ true
    → network pool < a.value
    → any (addr_eq a) used ≡ true
unfolding next_free_ipv4 next masked contains
next_free_ipv4-exhausted pool used a h inside above =
    let start = next (masked pool).addr in
    let j : ℕ = a.value - start.value in
    let s : ℕ = 2 ^ host_bits pool in
    let q : ℕ = pool.addr.value / s in
    let high : a.value < (q + 1) * s =
      (div-lt_iff_lt-mul (pow-pos (host_bits pool))).0 (ground (arith, inside)) in
    let sum : start.value + j ≡ a.value = omega (arith, above) in
    let same : place start j ≡ a = ground (arith, sum, inside) in
    rw (← same) (
      free_from-none s j pool used start (omega arith) h (omega (arith, high, above))
        (rw (← same) at inside))
