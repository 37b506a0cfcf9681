-- ===== src/Db/Query/Only.antt =====
-- The one row that passes a test, wherever in the table it stands.
use coolproof.Base.{
  ℕ, ◌==◌, ==-refl, Bool, true, false, ◌≡◌, refl, ap, ◌∙◌, some, List, [], ◌∷◌, ◌++◌, keep, head?,
  All, Bool-cases, inl, inr,
}
use coolproof.Db.Query.{insert_by, order_by, descending, scalar, save, All-order_by}
use coolproof.Db.Query.Found.{NoneOf, keep-insert_by}

module _ {ℓ} {A : Type ℓ} (p : A → Bool) where
  keep-NoneOf : (xs : List A) → NoneOf p xs → keep p xs ≡ []
  unfolding keep
  keep-NoneOf [] h = refl
  keep-NoneOf (x ∷ xs) h = rw h.0 (keep-NoneOf xs h.1)

  keep-insert_by-only :
      (before : A → A → Bool) (x : A) (xs : List A)
      → p x ≡ true
      → NoneOf p xs
      → keep p (insert_by before x xs) ≡ x ∷ []
  unfolding insert_by keep
  keep-insert_by-only before x [] hx h = rw hx refl
  keep-insert_by-only before x (y ∷ ys) hx h = elim (Bool-cases (before x y)) [
    | inl first ↦ rw first (rw hx (rw h.0 (ap (λ zs. x ∷ zs) (keep-NoneOf ys h.1))))
    | inr later ↦ rw later (rw h.0 (keep-insert_by-only before x ys hx h.1))
  ]

  keep-order_by-only :
      (before : A → A → Bool) (xs : List A) (x : A) (ys : List A)
      → NoneOf p xs
      → p x ≡ true
      → NoneOf p ys
      → keep p (order_by before (xs ++ (x ∷ ys))) ≡ x ∷ []
  unfolding order_by
  keep-order_by-only before [] x ys h hx g =
      keep-insert_by-only before x (order_by before ys) hx
        (All-order_by (λ y. p y ≡ false) before ys g)
  keep-order_by-only before (z ∷ zs) x ys h hx g =
      keep-insert_by p before z (order_by before (zs ++ (x ∷ ys))) h.0
      ∙ keep-order_by-only before zs x ys h.1 hx g

  -- It is the one that a `select` finds.
  pub scalar-only :
      (column : A → ℕ) (xs : List A) (x : A) (ys : List A)
      → NoneOf p xs
      → p x ≡ true
      → NoneOf p ys
      → scalar p (descending column (xs ++ (x ∷ ys))) ≡ some x
  unfolding scalar descending
  scalar-only column xs x ys h hx g = ap head? (keep-order_by-only _ xs x ys h hx g)

module _ {ℓ} {A : Type ℓ} (key : A → ℕ) where
  save-keyless :
      (row : A) (xs : List A) → All (λ x. (key x == key row) ≡ false) xs → save key row xs ≡ xs
  unfolding save
  save-keyless row [] h = refl
  save-keyless row (x ∷ xs) h = rw h.0 (ap (λ ys. x ∷ ys) (save-keyless row xs h.1))

  -- It is the one that `save` writes over.
  pub save-only :
      (row old : A) (xs ys : List A)
      → key old ≡ key row
      → All (λ x. (key x == key row) ≡ false) xs
      → All (λ x. (key x == key row) ≡ false) ys
      → save key row (xs ++ (old ∷ ys)) ≡ xs ++ (row ∷ ys)
  unfolding save
  save-only row old [] ys same h g =
      rw (same, ==-refl) (ap (λ zs. row ∷ zs) (save-keyless row ys g))
  save-only row old (x ∷ xs) ys same h g =
      rw h.0 (ap (λ zs. x ∷ zs) (save-only row old xs ys same h.1 g))
