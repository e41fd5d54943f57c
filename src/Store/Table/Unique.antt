-- ===== src/Store/Table/Unique.antt =====
-- What the statements of a table do to a column without repetition.
use open_tunnelbroker.Prelude.{
  ℕ, String, Bool, false, not, ◌&&◌, ◌||◌, List, [], ◌∷◌, ◌++◌, ◌==◌, str_eq, any, ◌≡◌, refl,
  Bool-cases, inl, inr, ap, ◌∙◌, arith, str_eq-sym,
}
use open_tunnelbroker.Store.Table.{update_where, delete_where, IsUnique}
use open_tunnelbroker.Store.Table.Laws.{
  any-update_where, any-update_where-false, any-append, any-delete_where-false, any-false, any-cong,
  any-or,
}

module _ {ℓ} {A : Type ℓ} (same : A → A → Bool) where
  pub delete_where-IsUnique :
      (p : A → Bool) (xs : List A) → IsUnique same xs → IsUnique same (delete_where p xs)
  unfolding delete_where IsUnique
  delete_where-IsUnique p [] h = tt
  delete_where-IsUnique p (x ∷ xs) h = elim (Bool-cases (p x)) [
    | inl e ↦ rw (e) (delete_where-IsUnique p xs h.1)
    | inr e ↦
        rw (e) (any-delete_where-false (λ y. same y x) p xs h.0, delete_where-IsUnique p xs h.1)
  ]

  -- A new last row.
  pub append-IsUnique :
      (xs : List A) (z : A)
      → ((x : A) → same x z ≡ same z x)
      → any (λ x. same x z) xs ≡ false
      → IsUnique same xs
      → IsUnique same (xs ++ (z ∷ []))
  unfolding IsUnique
  append-IsUnique [] z symmetric fresh h = (refl, tt)
  append-IsUnique (x ∷ xs) z symmetric fresh h =
      let flip : same x z ≡ same z x = symmetric x in
      let apart : same z x ≡ false = ground arith in
      let later : any (λ y. same y z) xs ≡ false = ground arith in
      let before : any (λ y. same y x) xs ≡ false = h.0 in
      let both = any-append (λ y. same y x) xs (z ∷ []) in
      (ground arith, append-IsUnique xs z symmetric later h.1)

  -- An update that leaves the column.
  pub update_where-IsUnique :
      (p : A → Bool) (f : A → A) (xs : List A)
      → ((x y : A) → same (f x) y ≡ same x y)
      → ((x y : A) → same x (f y) ≡ same x y)
      → IsUnique same xs
      → IsUnique same (update_where p f xs)
  unfolding update_where IsUnique
  update_where-IsUnique p f [] left right h = tt
  update_where-IsUnique p f (x ∷ xs) left right h =
      let rest = update_where-IsUnique p f xs left right h.1 in
      elim (Bool-cases (p x)) [
        | inl e ↦ rw (e) (
          any-update_where (λ y. same y (f x)) p f xs (λ y. left y (f x))
              ∙ any-cong (λ y. same y (f x)) (λ y. same y x) xs (λ y. right y x)
              ∙ h.0,
          rest,
        )
        | inr e ↦ rw (e) (any-update_where (λ y. same y x) p f xs (λ y. left y x) ∙ h.0, rest)
      ]

abbrev pub same_id {ℓ} : {A : Type ℓ} → (A → ℕ) → A → A → Bool
same_id id x y = id x == id y

abbrev pub same_key {ℓ} : {A : Type ℓ} → (A → String) → A → A → Bool
same_key key x y = str_eq (key x) (key y)

module _ {ℓ} {A : Type ℓ} (id : A → ℕ) (key : A → String) where
  -- A row with another id that has the key.
  abbrev pub clashes : ℕ → String → A → Bool
  clashes n k x = not (id x == n) && str_eq (key x) k

  pub elsewhere-update_where :
      (n : ℕ) (f : A → A) (xs : List A)
      → any (λ x. id x == n) xs ≡ false
      → update_where (λ x. id x == n) f xs ≡ xs
  unfolding update_where
  elsewhere-update_where n f [] h = refl
  elsewhere-update_where n f (x ∷ xs) h =
      let here : (id x == n) ≡ false = ground arith in
      let later : any (λ y. id y == n) xs ≡ false = ground arith in
      rw (here) (ap (λ ys. x ∷ ys) (elsewhere-update_where n f xs later))

  pub clashes-new :
      (n : ℕ) (k : String) (xs : List A)
      → any (clashes n k) xs ≡ false
      → any (λ x. id x == n) xs ≡ false
      → any (λ x. str_eq (key x) k) xs ≡ false
  clashes-new n k xs free new =
      any-false (λ y. clashes n k y || (id y == n)) (λ y. str_eq (key y) k) xs (λ y g. ground arith)
        (any-or (clashes n k) (λ y. id y == n) xs free new)

  -- The update of the row with an id to a key that no other row has.
  pub replace-IsUnique :
      (n : ℕ) (k : String) (f : A → A) (xs : List A)
      → ((x : A) → key (f x) ≡ k)
      → IsUnique (same_id id) xs
      → any (clashes n k) xs ≡ false
      → IsUnique (same_key key) xs
      → IsUnique (same_key key) (update_where (λ x. id x == n) f xs)
  unfolding update_where IsUnique
  replace-IsUnique n k f [] new ids free h = tt
  replace-IsUnique n k f (x ∷ xs) new ids free h =
      let later : any (clashes n k) xs ≡ false = ground arith in
      elim (Bool-cases (id x == n)) [
        | inl e ↦
            let none_left : any (λ y. id y == n) xs ≡ false =
              any-false (λ y. id y == id x) (λ y. id y == n) xs (λ y g. ground arith) ids.0 in
            rw (e, elsewhere-update_where n f xs none_left, new x)
              (clashes-new n k xs later none_left, h.1)
        | inr e ↦
            let other : str_eq (key x) k ≡ false = ground arith in
            let apart : str_eq k (key x) ≡ false = str_eq-sym k (key x) ∙ other in
            rw (e) (
              any-update_where-false (λ y. str_eq (key y) (key x)) (λ y. id y == n) f xs
                  (λ y. rw (new y) apart) h.0,
              replace-IsUnique n k f xs new ids.1 later h.1,
            )
      ]
