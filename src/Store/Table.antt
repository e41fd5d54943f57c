-- ===== src/Store/Table.antt =====
-- The statements of internal/broker/store.go over the rows of a table, UPDATE … WHERE and DELETE … WHERE,
-- and when a column's values are unique in it.
pub mod Laws
pub mod Unique
use open_tunnelbroker.Prelude.{
  ℕ, String, Bool, true, false, not, ◌&&◌, List, [], ◌∷◌, ◌==◌, str_eq, if◌then◌else◌, any, select,
  ◌≡◌,
}

-- UPDATE … SET f WHERE p
unfoldable pub update_where {ℓ} : {A : Type ℓ} → (A → Bool) → (A → A) → List A → List A
update_where p f [] = []
update_where p f (x ∷ xs) = let rest = update_where p f xs in if p x then f x ∷ rest else x ∷ rest

-- DELETE … WHERE p
unfoldable pub delete_where {ℓ} : {A : Type ℓ} → (A → Bool) → List A → List A
delete_where p xs = select (λ x. not (p x)) xs

-- No two rows are the same.
unfoldable pub IsUnique {ℓ} : {A : Type ℓ} → (A → A → Bool) → List A → Type 0
IsUnique same [] = Unit
IsUnique same (x ∷ xs) = (any (λ y. same y x) xs ≡ false) × IsUnique same xs
