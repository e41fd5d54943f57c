-- ===== src/Store/Db/Sound/Rows.antt =====
-- What the updates of tunnels keep, and the effect of new ids.
use open_tunnelbroker.Prelude.{
  ℕ, ◌≤◌, Bool, false, List, [], ◌∷◌, ◌++◌, ◌==◌, any, map, ◌≡◌, refl, ap, arith, Bool-cases, inl,
  inr,
}
use open_tunnelbroker.Store.Table.{update_where, delete_where}
use open_tunnelbroker.Store.Db.{next_id}

module _ {ℓ κ} {A : Type ℓ} {B : Type κ} (view : A → B) where
  pub map-update_where :
      (p : A → Bool) (f : A → A) (xs : List A)
      → ((x : A) → view (f x) ≡ view x)
      → map view (update_where p f xs) ≡ map view xs
  unfolding update_where
  map-update_where p f [] keeps = refl
  map-update_where p f (x ∷ xs) keeps = elim (Bool-cases (p x)) [
    | inl e ↦ rw (e, keeps x, map-update_where p f xs keeps) refl
    | inr e ↦ rw (e, map-update_where p f xs keeps) refl
  ]

  pub map-delete_where :
      (p : B → Bool) (xs : List A)
      → map view (delete_where (λ x. p (view x)) xs) ≡ delete_where p (map view xs)
  unfolding delete_where
  map-delete_where p [] = refl
  map-delete_where p (x ∷ xs) = elim (Bool-cases (p (view x))) [
    | inl e ↦ rw (e, map-delete_where p xs) refl
    | inr e ↦ rw (e, map-delete_where p xs) refl
  ]

  pub map-append_one :
      (xs : List A) (z : A) → map view (xs ++ (z ∷ [])) ≡ map view xs ++ (view z ∷ [])
  map-append_one [] z = refl
  map-append_one (x ∷ xs) z = ap (λ ys. view x ∷ ys) (map-append_one xs z)

  pub any-map : (p : B → Bool) (xs : List A) → any p (map view xs) ≡ any (λ x. p (view x)) xs
  any-map p [] = refl
  any-map p (x ∷ xs) = rw (any-map p xs) refl

module _ {ℓ} {A : Type ℓ} (id : A → ℕ) where
  below-next_id : (xs : List A) (n : ℕ) → next_id (map id xs) ≤ n → any (λ x. id x == n) xs ≡ false
  unfolding next_id
  below-next_id [] n h = refl
  below-next_id (x ∷ xs) n h =
      let rest : next_id (map id xs) ≤ n → any (λ y. id y == n) xs ≡ false = below-next_id xs n in
      ground arith

  -- A new row's id is no other row's.
  pub next_id-fresh : (xs : List A) → any (λ x. id x == next_id (map id xs)) xs ≡ false
  next_id-fresh xs = below-next_id xs (next_id (map id xs)) (omega arith)
