-- ===== src/Store/Table/Laws.antt =====
-- What the updates and the deletions of a table keep.
use open_tunnelbroker.Prelude.{
  Bool, true, false, not, ◌||◌, List, [], ◌∷◌, ◌++◌, any, select, All, ◌≡◌, refl, Bool-cases, inl,
  inr, arith,
}
use open_tunnelbroker.Store.Table.{update_where, delete_where}

module _ {ℓ} {A : Type ℓ} where
  pub any-false :
      (p q : A → Bool) (xs : List A)
      → ((x : A) → q x ≡ true → p x ≡ true)
      → any p xs ≡ false
      → any q xs ≡ false
  any-false p q [] implies h = refl
  any-false p q (x ∷ xs) implies h =
      let rest : any p xs ≡ false → any q xs ≡ false = any-false p q xs implies in
      let here : q x ≡ true → p x ≡ true = implies x in ground arith

  pub any-cong : (p q : A → Bool) (xs : List A) → ((x : A) → p x ≡ q x) → any p xs ≡ any q xs
  any-cong p q [] same = refl
  any-cong p q (x ∷ xs) same = let rest = any-cong p q xs same in let here = same x in ground arith

  pub any-or :
      (p q : A → Bool) (xs : List A)
      → any p xs ≡ false
      → any q xs ≡ false
      → any (λ x. p x || q x) xs ≡ false
  any-or p q [] h k = refl
  any-or p q (x ∷ xs) h k =
      let rest : any p xs ≡ false → any q xs ≡ false → any (λ y. p y || q y) xs ≡ false =
        any-or p q xs in
      ground arith

  pub any-update_where-false :
      (q p : A → Bool) (f : A → A) (xs : List A)
      → ((x : A) → q (f x) ≡ false)
      → any q xs ≡ false
      → any q (update_where p f xs) ≡ false
  unfolding update_where
  any-update_where-false q p f [] new h = refl
  any-update_where-false q p f (x ∷ xs) new h =
      let rest : any q xs ≡ false → any q (update_where p f xs) ≡ false =
        any-update_where-false q p f xs new in
      let here = new x in ground arith

  pub any-update_where :
      (q p : A → Bool) (f : A → A) (xs : List A)
      → ((x : A) → q (f x) ≡ q x)
      → any q (update_where p f xs) ≡ any q xs
  unfolding update_where
  any-update_where q p f [] keeps = refl
  any-update_where q p f (x ∷ xs) keeps =
      let rest = any-update_where q p f xs keeps in
      let here : q (f x) ≡ q x = keeps x in ground arith

  pub any-append : (q : A → Bool) (xs ys : List A) → any q (xs ++ ys) ≡ any q xs || any q ys
  any-append q [] ys = refl
  any-append q (x ∷ xs) ys = let rest = any-append q xs ys in ground arith

  pub any-delete_where :
      (q p : A → Bool) (xs : List A)
      → ((x : A) → q x ≡ true → p x ≡ false)
      → any q (delete_where p xs) ≡ any q xs
  unfolding delete_where
  any-delete_where q p [] kept = refl
  any-delete_where q p (x ∷ xs) kept =
      let rest : any q (select (λ y. not (p y)) xs) ≡ any q xs = any-delete_where q p xs kept in
      let here : q x ≡ true → p x ≡ false = kept x in ground arith

  pub any-delete_where-false :
      (q p : A → Bool) (xs : List A) → any q xs ≡ false → any q (delete_where p xs) ≡ false
  unfolding delete_where
  any-delete_where-false q p [] h = refl
  any-delete_where-false q p (x ∷ xs) h =
      let rest : any q xs ≡ false → any q (select (λ y. not (p y)) xs) ≡ false =
        any-delete_where-false q p xs in
      ground arith

  module _ {κ} (P : A → Type κ) where
    pub All-update_where :
        (p : A → Bool) (f : A → A) (xs : List A)
        → ((x : A) → P x → P (f x))
        → All P xs
        → All P (update_where p f xs)
    unfolding update_where
    All-update_where p f [] keeps h = tt
    All-update_where p f (x ∷ xs) keeps h = elim (Bool-cases (p x)) [
      | inl e ↦ rw (e) (keeps x h.0, All-update_where p f xs keeps h.1)
      | inr e ↦ rw (e) (h.0, All-update_where p f xs keeps h.1)
    ]

    pub All-delete_where : (p : A → Bool) (xs : List A) → All P xs → All P (delete_where p xs)
    unfolding delete_where
    All-delete_where p [] h = tt
    All-delete_where p (x ∷ xs) h = elim (Bool-cases (p x)) [
      | inl e ↦ rw (e) (All-delete_where p xs h.1)
      | inr e ↦ rw (e) (h.0, All-delete_where p xs h.1)
    ]

    pub All-append : (xs ys : List A) → All P xs → All P ys → All P (xs ++ ys)
    All-append [] ys h k = k
    All-append (x ∷ xs) ys h k = (h.0, All-append xs ys h.1 k)

  pub All-imp {κ} : (P Q : A → Type κ) (xs : List A) → ((x : A) → P x → Q x) → All P xs → All Q xs
  All-imp P Q [] implies h = tt
  All-imp P Q (x ∷ xs) implies h = (implies x h.0, All-imp P Q xs implies h.1)

  pub All-zip {κ} :
      (P Q R : A → Type κ) (xs : List A)
      → ((x : A) → P x → Q x → R x)
      → All P xs
      → All Q xs
      → All R xs
  All-zip P Q R [] implies h k = tt
  All-zip P Q R (x ∷ xs) implies h k = (implies x h.0 k.0, All-zip P Q R xs implies h.1 k.1)

  pub All-delete_where_imp {κ} :
      (P Q : A → Type κ) (p : A → Bool) (xs : List A)
      → ((x : A) → p x ≡ false → P x → Q x)
      → All P xs
      → All Q (delete_where p xs)
  unfolding delete_where
  All-delete_where_imp P Q p [] implies h = tt
  All-delete_where_imp P Q p (x ∷ xs) implies h = elim (Bool-cases (p x)) [
    | inl e ↦ rw (e) (All-delete_where_imp P Q p xs implies h.1)
    | inr e ↦ rw (e) (implies x e h.0, All-delete_where_imp P Q p xs implies h.1)
  ]

  pub any-none : (p : A → Bool) (xs : List A) → any p xs ≡ false → All (λ x. p x ≡ false) xs
  any-none p [] h = tt
  any-none p (x ∷ xs) h =
      let rest : any p xs ≡ false = ground arith in (ground arith, any-none p xs rest)

  pub any-All_cong : (p q : A → Bool) (xs : List A) → All (λ x. p x ≡ q x) xs → any p xs ≡ any q xs
  any-All_cong p q [] same = refl
  any-All_cong p q (x ∷ xs) same = rw (same.0, any-All_cong p q xs same.1) refl
