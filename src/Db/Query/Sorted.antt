-- ===== src/Db/Query/Sorted.antt =====
-- What `order_by` makes of the rows: all of them again, in ascending order.
use mathlib.Core.List.{Perm}
use mathlib.Core.List.Perm
use coolproof.Base.{
  ℕ, leb, ◌≤◌, Bool, List, [], ◌∷◌, arith, Bool-cases, inl, inr, leb→le, lt_of_leb-false,
}
use coolproof.Db.Query.{insert_by, order_by, IsAscending}

module _ {ℓ} {A : Type ℓ} where
  insert_by_perm :
      (before : A → A → Bool) (x : A) (xs : List A) → Perm (insert_by before x xs) (x ∷ xs)
  unfolding insert_by
  insert_by_perm before x [] = Perm.rfl
  insert_by_perm before x (y ∷ ys) = elim (Bool-cases (before x y)) [
    | inl first ↦ rw first Perm.rfl
    | inr later ↦
        rw later (Perm.trans (Perm.cons y (insert_by_perm before x ys)) (Perm.swap x y ys))
  ]

  pub order_by_perm : (before : A → A → Bool) (xs : List A) → Perm (order_by before xs) xs
  unfolding order_by
  order_by_perm before [] = Perm.rfl
  order_by_perm before (x ∷ xs) =
      Perm.trans (insert_by_perm before x (order_by before xs))
        (Perm.cons x (order_by_perm before xs))

module _ {ℓ} {A : Type ℓ} (column : A → ℕ) where
  abbrev at_most : A → A → Bool
  at_most x y = leb (column x) (column y)

  insert_by_below :
      (y x : A) (xs : List A)
      → column y ≤ column x
      → IsAscending column (y ∷ xs)
      → IsAscending column (y ∷ insert_by at_most x xs)
  unfolding insert_by
  insert_by_below y x [] le h = (le, tt)
  insert_by_below y x (z ∷ zs) le h = elim (Bool-cases (at_most x z)) [
    | inl first ↦ rw first (le, (leb→le _ _ first, h.1))
    | inr later ↦
        rw later (h.0, insert_by_below z x zs (omega (arith, lt_of_leb-false _ _ later)) h.1)
  ]

  insert_by-IsAscending :
      (x : A) (xs : List A) → IsAscending column xs → IsAscending column (insert_by at_most x xs)
  unfolding insert_by
  insert_by-IsAscending x [] h = tt
  insert_by-IsAscending x (z ∷ zs) h = elim (Bool-cases (at_most x z)) [
    | inl first ↦ rw first (leb→le _ _ first, h)
    | inr later ↦ rw later (insert_by_below z x zs (omega (arith, lt_of_leb-false _ _ later)) h)
  ]

  pub order_by-IsAscending :
      (xs : List A) → IsAscending column (order_by (λ x y. leb (column x) (column y)) xs)
  unfolding order_by
  order_by-IsAscending [] = tt
  order_by-IsAscending (x ∷ xs) = insert_by-IsAscending x _ (order_by-IsAscending xs)
