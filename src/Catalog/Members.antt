-- ===== src/Catalog/Members.antt =====
-- Members of a list, through the operations that the queries are made of: filters, orders, the
-- first that passes a test.
use wcs_transfer.Base.{
  ◌≡◌, refl, ◌⊎◌, inl, inr, Bool, Bool-cases, true, some, List, [], ◌∷◌, arith, All, map, filter,
}
use wcs_transfer.ClientKeys.{find, insert_by, sort_by}

-- `x` is one of the list.
abbrev pub In : {A : Type 0} → A → List A → Type 0
In x [] = ⊥
In x (y ∷ ys) = (x ≡ y) ⊎ In x ys

module _ {A : Type 0} (p : A → Bool) where
  pub find-In : (xs : List A) (x : A) → find p xs ≡ some x → In x xs × (p x ≡ true)
  unfolding find
  find-In [] x h = absurd (ground (arith, h))
  find-In (y ∷ ys) x h = elim (Bool-cases (p y)) [
    | inl e ↦ (inl (ground (arith, h, e)), ground (arith, h, e))
    | inr e ↦ let (at, holds) = find-In ys x (ground (arith, h, e)) in (inr at, holds)
  ]

  -- What a filter leaves passes the test.
  pub All-filter :
      (Q : A → Type 0) (xs : List A) → All Q xs → All (λ x. Q x × (p x ≡ true)) (filter p xs)
  All-filter Q [] h = tt
  All-filter Q (x ∷ xs) (q, h) = elim (Bool-cases (p x)) [
    | inl e ↦ rw e ((q, e), All-filter Q xs h)
    | inr e ↦ rw e (All-filter Q xs h)
  ]

module _ {A : Type 0} where
  pub All-mono : (P Q : A → Type 0) (xs : List A) → ((x : A) → P x → Q x) → All P xs → All Q xs
  All-mono P Q [] f h = tt
  All-mono P Q (x ∷ xs) f (p, h) = (f x p, All-mono P Q xs f h)

  pub All-at : (P : A → Type 0) (xs : List A) (x : A) → All P xs → In x xs → P x
  All-at P [] x h at = absurd at
  All-at P (y ∷ ys) x (p, h) (inl e) = rw e p
  All-at P (y ∷ ys) x (p, h) (inr at) = All-at P ys x h at

  pub All-In : (xs : List A) → All (λ x. In x xs) xs
  All-In [] = tt
  All-In (x ∷ xs) =
      (inl refl, All-mono (λ y. In y xs) (λ y. In y (x ∷ xs)) xs (λ y h. inr h) (All-In xs))

  pub All-insert_by :
      (P : A → Type 0) (before : A → A → Bool) (x : A) (xs : List A)
      → P x
      → All P xs
      → All P (insert_by before x xs)
  unfolding insert_by
  All-insert_by P before x [] p h = (p, tt)
  All-insert_by P before x (y ∷ ys) p (q, h) = elim (Bool-cases (before y x)) [
    | inl e ↦ rw e (q, All-insert_by P before x ys p h)
    | inr e ↦ rw e (p, (q, h))
  ]

  pub All-sort_by :
      (P : A → Type 0) (before : A → A → Bool) (xs : List A) → All P xs → All P (sort_by before xs)
  unfolding sort_by
  All-sort_by P before [] h = tt
  All-sort_by P before (x ∷ xs) (p, h) =
      All-insert_by P before x (sort_by before xs) p (All-sort_by P before xs h)

-- Membership through the operations on lists.
module _ {A : Type 0} where
  pub In-filter : (p : A → Bool) (x : A) (xs : List A) → In x xs → p x ≡ true → In x (filter p xs)
  In-filter p x [] h t = h
  In-filter p x (y ∷ xs) (inl e) t = rw (← e) (rw t (inl refl))
  In-filter p x (y ∷ xs) (inr h) t = elim (Bool-cases (p y)) [
    | inl e ↦ rw e (inr (In-filter p x xs h t))
    | inr e ↦ rw e (In-filter p x xs h t)
  ]

  pub filter-In : (p : A → Bool) (x : A) (xs : List A) → In x (filter p xs) → In x xs × (p x ≡ true)
  filter-In p x xs h =
      All-at (λ y. In y xs × (p y ≡ true)) (filter p xs) x
        (All-filter p (λ y. In y xs) xs (All-In xs)) h

  pub In-insert_by :
      (before : A → A → Bool) (x y : A) (xs : List A) → In x (y ∷ xs) → In x (insert_by before y xs)
  unfolding insert_by
  In-insert_by before x y [] h = h
  In-insert_by before x y (z ∷ xs) h = elim (Bool-cases (before z y)) [
    | inr e ↦ rw e h
    | inl e ↦ rw e (elim h [
      | inl same ↦ inr (In-insert_by before x y xs (inl same))
      | inr (inl same) ↦ inl same
      | inr (inr at) ↦ inr (In-insert_by before x y xs (inr at))
    ])
  ]

  pub In-sort_by :
      (before : A → A → Bool) (x : A) (xs : List A) → In x xs → In x (sort_by before xs)
  unfolding sort_by
  In-sort_by before x [] h = h
  In-sort_by before x (y ∷ xs) (inl e) = In-insert_by before x y (sort_by before xs) (inl e)
  In-sort_by before x (y ∷ xs) (inr h) =
      In-insert_by before x y (sort_by before xs) (inr (In-sort_by before x xs h))

  pub sort_by-In :
      (before : A → A → Bool) (x : A) (xs : List A) → In x (sort_by before xs) → In x xs
  sort_by-In before x xs h =
      All-at (λ y. In y xs) (sort_by before xs) x (All-sort_by (λ y. In y xs) before xs (All-In xs))
        h

  pub In-find :
      (p : A → Bool) (x : A) (xs : List A) → In x xs → p x ≡ true → (y : A) × (find p xs ≡ some y)
  unfolding find
  In-find p x [] h t = absurd h
  In-find p x (y ∷ xs) h t = elim (Bool-cases (p y)) [
    | inl e ↦ (y, rw e refl)
    | inr e ↦
        rw e
          (elim h [ inl same ↦ absurd (ground (arith, e, t, same)) | inr at ↦ In-find p x xs at t ])
  ]

module _ {A B : Type 0} (f : A → B) where
  pub In-map : (x : A) (xs : List A) → In x xs → In (f x) (map f xs)
  In-map x [] h = h
  In-map x (y ∷ xs) (inl e) = inl (rw e refl)
  In-map x (y ∷ xs) (inr h) = inr (In-map x xs h)

  pub map-In : (y : B) (xs : List A) → In y (map f xs) → (x : A) × In x xs × (y ≡ f x)
  map-In y [] h = absurd h
  map-In y (x ∷ xs) (inl e) = (x, inl refl, e)
  map-In y (x ∷ xs) (inr h) = let (z, at, e) = map-In y xs h in (z, inr at, e)
