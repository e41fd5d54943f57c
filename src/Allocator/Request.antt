-- ===== src/Allocator/Request.antt =====
-- Requests that pass the validation of allocateWithChooser, and what they then compute.
use native.Mathlib.Nat.{mul-div_cancel}
use open_tunnelbroker.Prelude.{
  ℕ, ◌-◌, ◌*◌, ◌/◌, ◌^◌, ◌≤◌, ◌≡◌, refl, sym, ◌∙◌, ap, inl, inr, ◌⊎◌, true, not, ◌&&◌, List, [],
  ◌∷◌, map, Bool-ext, All, arith, pow-pos, div-pow_mono, max,
}
use open_tunnelbroker.Prelude.Int.{ℤ, pos, negsuc}
use open_tunnelbroker.Netip.{Prefix, v6, is6, masked, contains, prefix6, IsValid}
use open_tunnelbroker.Allocator.{
  AllocateError, Result, ok, err, Choice, overlaps, clean_used, choose_free, allocate_with_chooser,
}
use open_tunnelbroker.Allocator.Overlap.{IsV6, IsV6-eq, overlaps_iff}
use open_tunnelbroker.Allocator.Blocks.{IsBlock, size}
use open_tunnelbroker.Allocator.Descend.{is_free}

Result-cases {ℓ} :
    {A : Type ℓ} (r : Result A) → ((a : A) × (r ≡ ok a)) ⊎ ((e : AllocateError) × (r ≡ err e))
Result-cases (ok a) = inl (a, refl)
Result-cases (err e) = inr (e, refl)

-- A stored allocation that the validation accepts.
pub record IsAllocation (pool u : Prefix) : Type 0 where
  pub six : IsV6 u
  pub longer : pool.bits ≤ u.bits
  pub inside : contains pool (masked u).addr ≡ true

-- A request for a prefix of length `t` that passes the validation.
pub record IsRequest (pool : Prefix) (used : List Prefix) (t : ℕ) : Type 0 where
  pub six : IsV6 pool
  pub longer : pool.bits ≤ t
  pub short : t ≤ 128
  pub allocations : All (IsAllocation (masked pool)) used

-- The first address of the pool.
abbrev pub base : Prefix → ℕ
base pool = pool.addr.value / size pool.bits * size pool.bits

pub masked-six : {p : Prefix} → IsV6 p → masked p ≡ prefix6 (base p) p.bits
unfolding masked
masked-six {p} h = ground (arith, h.family)

pub base-IsBlock : {p : Prefix} → IsV6 p → IsBlock (base p) p.bits (p.addr.value / size p.bits)
base-IsBlock h = record { aligned = refl; short = h.short }

pub masked-IsV6 : {p : Prefix} → IsV6 p → IsV6 (masked p)
unfolding masked
masked-IsV6 {p} h = record { family = h.family; short = h.short }

-- Masking an allocation does not change what it overlaps.
pub overlaps-masked :
    (v b : ℕ) (u : Prefix) → IsV6 u → overlaps (prefix6 v b) (masked u) ≡ overlaps (prefix6 v b) u
overlaps-masked v b u h = rw (masked-six h) (rw (IsV6-eq h) (Bool-ext _ _ (to, from)))
  where
    x : ℕ
    x = u.addr.value

    d : ℕ
    d = u.bits

    agree : base u / 2 ^ max (128 - b) (128 - d) ≡ x / 2 ^ max (128 - b) (128 - d)
    agree =
        div-pow_mono (base u) x (128 - d) (max (128 - b) (128 - d)) (omega arith)
          (mul-div_cancel (x / size d) (pow-pos (128 - d)))

    to :
        overlaps (prefix6 v b) (prefix6 (base u) d) ≡ true
        → overlaps (prefix6 v b) (prefix6 x d) ≡ true
    to e = (overlaps_iff v b x d).1 ((overlaps_iff v b (base u) d).0 e ∙ agree)

    from :
        overlaps (prefix6 v b) (prefix6 x d) ≡ true
        → overlaps (prefix6 v b) (prefix6 (base u) d) ≡ true
    from e = (overlaps_iff v b (base u) d).1 ((overlaps_iff v b x d).0 e ∙ sym agree)

pub is_free-masked :
    (v b : ℕ) (used : List Prefix)
    → All IsV6 used
    → is_free (map masked used) (prefix6 v b) ≡ is_free used (prefix6 v b)
is_free-masked v b [] h = refl
is_free-masked v b (u ∷ used) h =
    rw (overlaps-masked v b u h.0)
      (ap (λ r. not (overlaps (prefix6 v b) u) && r) (is_free-masked v b used h.1))

pub All-IsV6 : (pool : Prefix) (used : List Prefix) → All (IsAllocation pool) used → All IsV6 used
All-IsV6 pool [] h = tt
All-IsV6 pool (u ∷ used) h = (h.0.six, All-IsV6 pool used h.1)

pub All-masked : (used : List Prefix) → All IsV6 used → All IsV6 (map masked used)
All-masked [] h = tt
All-masked (u ∷ used) h = (masked-IsV6 h.0, All-masked used h.1)

pub clean_used-ok :
    (pool : Prefix) (used : List Prefix)
    → All (IsAllocation pool) used
    → clean_used pool used ≡ ok (map masked used)
unfolding clean_used masked
clean_used-ok pool [] h = refl
clean_used-ok pool (u ∷ used) h =
    ground (arith, clean_used-ok pool used, h.0.six.family, h.0.longer, h.0.inside)

-- A valid request comes down to the choice among the free prefixes.
pub allocate-choose :
    (pool : Prefix) (used : List Prefix) (t : ℕ) (choose : ℕ → Choice)
    → IsRequest pool used t
    → allocate_with_chooser pool used (pos t) choose
      ≡ choose_free (prefix6 (base pool) pool.bits) (map masked used) t choose
unfolding allocate_with_chooser
allocate-choose pool used t choose h =
    rw (clean_used-ok (masked pool) used h.allocations) (rw (masked-six h.six) (ground arith))

-- Conversely, what the validation lets through is such a request.
IsAllocation-of :
    (pool u : Prefix)
    → IsValid u
    → is6 (masked u).addr ≡ true
    → pool.bits ≤ u.bits
    → contains pool (masked u).addr ≡ true
    → IsAllocation pool u
unfolding masked
IsAllocation-of pool u valid six longer inside =
    let family : u.addr.family ≡ v6 = ground arith in
    record {
      six = record { family = family; short = ground arith };
      longer = longer;
      inside = inside;
    }

masked_bits : (p : Prefix) → (masked p).bits ≡ p.bits
unfolding masked
masked_bits p = refl

pub clean_used-IsAllocation :
    (pool : Prefix) (used clean : List Prefix)
    → All IsValid used
    → clean_used pool used ≡ ok clean
    → All (IsAllocation pool) used
unfolding clean_used
clean_used-IsAllocation pool [] clean valid h = tt
clean_used-IsAllocation pool (u ∷ used) clean valid h = (
  IsAllocation-of pool u valid.0 (ground arith) (ground (arith, masked_bits u)) (ground arith),
  elim (Result-cases (clean_used pool used)) [
    | inl (rest, e) ↦ clean_used-IsAllocation pool used rest valid.1 e
    | inr (e, bad) ↦ absurd (ground arith)
  ],
)

pub accepted-IsRequest :
    (pool : Prefix) (used : List Prefix) (bits : ℤ) (choose : ℕ → Choice) (p : Prefix)
    → IsValid pool
    → All IsValid used
    → allocate_with_chooser pool used bits choose ≡ ok p
    → (t : ℕ) × (bits ≡ pos t) × IsRequest pool used t
unfolding allocate_with_chooser masked
accepted-IsRequest pool used (negsuc n) choose p valid all_valid h = absurd (ground arith)
accepted-IsRequest pool used (pos t) choose p valid all_valid h =
    elim (Result-cases (clean_used (masked pool) used)) [
      | inr (e, bad) ↦ absurd (ground arith)
      | inl (clean, e) ↦
          let family : pool.addr.family ≡ v6 = ground arith in
          (
            t,
            refl,
            record {
              six = record { family = family; short = ground arith };
              longer = ground arith;
              short = ground arith;
              allocations = clean_used-IsAllocation (masked pool) used clean all_valid e;
            },
          )
    ]
