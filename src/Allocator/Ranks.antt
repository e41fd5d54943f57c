-- ===== src/Allocator/Ranks.antt =====
-- Counting the numbers below a bound that pass a test, and the number of a given rank.
use open_tunnelbroker.Prelude.{
  ℕ, zero, suc, ◌+◌, ◌≤◌, ◌<◌, ◌≡◌, ◌⊎◌, refl, inl, inr, Bool, true, false, arith, if◌then◌else◌,
}

pub count_below : ℕ → (ℕ → Bool) → ℕ
count_below zero f = 0
count_below (suc n) f = (if f n then 1 else 0) + count_below n f

-- `j` passes, and `rank` smaller numbers do.
pub record HasRank (f : ℕ → Bool) (rank j : ℕ) : Type 0 where
  pub passes : f j ≡ true
  pub below : count_below j f ≡ rank

pub count_below-true : (n : ℕ) (f : ℕ → Bool) → ((j : ℕ) → j < n → f j ≡ true) → count_below n f ≡ n
unfolding count_below
count_below-true zero f h = refl
count_below-true (suc n) f h =
    ground (arith, h n (omega arith), count_below-true n f (λ j l. h j (omega arith)))

pub count_below-false :
    (n : ℕ) (f : ℕ → Bool) → ((j : ℕ) → j < n → f j ≡ false) → count_below n f ≡ 0
unfolding count_below
count_below-false zero f h = refl
count_below-false (suc n) f h =
    ground (arith, h n (omega arith), count_below-false n f (λ j l. h j (omega arith)))

pub count_below_ext :
    (n : ℕ) (f g : ℕ → Bool) → ((j : ℕ) → j < n → f j ≡ g j) → count_below n f ≡ count_below n g
unfolding count_below
count_below_ext zero f g h = refl
count_below_ext (suc n) f g h =
    ground (arith, h n (omega arith), count_below_ext n f g (λ j l. h j (omega arith)))

pub count_below_add :
    (a b : ℕ) (f : ℕ → Bool)
    → count_below (a + b) f ≡ count_below a f + count_below b (λ j. f (a + j))
unfolding count_below
count_below_add a zero f = let e : a + 0 ≡ a = omega arith in rw e (omega arith)
count_below_add a (suc b) f =
    let e : a + suc b ≡ suc (a + b) = omega arith in rw e (ground (arith, count_below_add a b f))

pub count_below_le : (n : ℕ) (f : ℕ → Bool) → count_below n f ≤ n
unfolding count_below
count_below_le zero f = omega arith
count_below_le (suc n) f = ground (arith, count_below_le n f)

-- A passing number below the bound has a rank below the count.
pub rank_lt : (n j : ℕ) (f : ℕ → Bool) → j < n → f j ≡ true → count_below j f < count_below n f
unfolding count_below
rank_lt zero j f l p = elim l [ ]
rank_lt (suc n) j f l p = elim (split (omega arith)) [
  | inl e ↦ ground (arith, e)
  | inr e ↦ ground (arith, rank_lt n j f e p)
]
  where
    split : j ≤ n → (j ≡ n) ⊎ (j < n)
    split h = grind arith

-- A rank names one number.
pub HasRank-unique : (f : ℕ → Bool) (rank i j : ℕ) → HasRank f rank i → HasRank f rank j → i ≡ j
HasRank-unique f rank i j p q = elim (order i j) [
  | inl e ↦ e
  | inr (inl l) ↦ absurd (omega (arith, rank_lt j i f l p.passes, p.below, q.below))
  | inr (inr l) ↦ absurd (omega (arith, rank_lt i j f l q.passes, p.below, q.below))
]
  where
    order : (i j : ℕ) → (i ≡ j) ⊎ ((i < j) ⊎ (j < i))
    order i j = grind arith
