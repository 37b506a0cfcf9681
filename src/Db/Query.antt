-- ===== src/Db/Query.antt =====
-- What a `select` returns: the rows of a table that pass the `where` tests, in the order of
-- insertion, or sorted on a column by `order_by`, which keeps that order among equals.
pub mod Found
pub mod Sorted
pub mod Only
use coolproof.Base.{
  ℕ, zero, suc, ◌≤◌, drop, refl, Bool, List, [], ◌∷◌, Option, if◌then◌else◌, leb, ◌==◌, keep, head?,
  All, All-keep, All-keep_of_All, ◌≡◌, true, some, arith,
}

module _ {ℓ} {A : Type ℓ} where
  pub insert_by : (A → A → Bool) → A → List A → List A
  insert_by before x [] = x ∷ []
  insert_by before x (y ∷ ys) =
      let rest = insert_by before x ys in if before x y then x ∷ y ∷ ys else y ∷ rest

  unfoldable pub order_by : (A → A → Bool) → List A → List A
  unfolding insert_by
  order_by before [] = []
  order_by before (x ∷ xs) = insert_by before x (order_by before xs)

  -- `order_by(column)` and `order_by(column.desc())`
  unfoldable pub ascending : (A → ℕ) → List A → List A
  unfolding order_by
  ascending column = order_by (λ x y. leb (column x) (column y))

  unfoldable pub descending : (A → ℕ) → List A → List A
  unfolding order_by
  descending column = order_by (λ x y. leb (column y) (column x))

  -- `session.scalar(select(...).where(...))`: the first row, or None.
  unfoldable pub scalar : (A → Bool) → List A → Option A
  unfolding keep
  scalar p rows = head? (keep p rows)

  -- An ORM object that changed is written over the row with its key.
  unfoldable pub save : (A → ℕ) → A → List A → List A
  save key row [] = []
  save key row (x ∷ xs) = (if key x == key row then row else x) ∷ save key row xs

module _ {ℓ κ} {A : Type ℓ} (P : A → Type κ) where
  All-insert_by :
      (before : A → A → Bool) (x : A) (xs : List A) → P x → All P xs → All P (insert_by before x xs)
  unfolding insert_by
  All-insert_by before x [] px h = (px, tt)
  All-insert_by before x (y ∷ ys) px h = ground (arith, All-insert_by before x ys px h.1)

  pub All-order_by : (before : A → A → Bool) (xs : List A) → All P xs → All P (order_by before xs)
  unfolding order_by
  All-order_by before [] h = tt
  All-order_by before (x ∷ xs) h =
      All-insert_by before x (order_by before xs) h.0 (All-order_by before xs h.1)

  pub All-ascending : (column : A → ℕ) (xs : List A) → All P xs → All P (ascending column xs)
  unfolding ascending
  All-ascending column xs h = All-order_by _ xs h

  pub All-descending : (column : A → ℕ) (xs : List A) → All P xs → All P (descending column xs)
  unfolding descending
  All-descending column xs h = All-order_by _ xs h

  pub head?-All : (xs : List A) {x : A} → All P xs → head? xs ≡ some x → P x
  head?-All [] h e = cc
  head?-All (y ∷ ys) h e = ground arith

  -- A row that `scalar` returns passes the tests.
  pub scalar_sound :
      (p : A → Bool) (xs : List A) {x : A}
      → ((y : A) → p y ≡ true → P y)
      → scalar p xs ≡ some x
      → P x
  unfolding scalar
  scalar_sound p xs h e = head?-All (keep p xs) (All-keep P p xs h) e

  -- A property of all rows is one of the row that `scalar` returns.
  pub scalar_stored : (p : A → Bool) (xs : List A) {x : A} → All P xs → scalar p xs ≡ some x → P x
  unfolding scalar
  scalar_stored p xs h e = head?-All (keep p xs) (All-keep_of_All P p xs h) e

module _ {ℓ} {A : Type ℓ} (column : A → ℕ) where
  -- Each row is at most its successor.
  abbrev pub IsAscending : List A → Type 0
  IsAscending [] = Unit
  IsAscending (x ∷ []) = Unit
  IsAscending (x ∷ y ∷ ys) = (column x ≤ column y) × IsAscending (y ∷ ys)

  IsAscending-tail : (x : A) (xs : List A) → IsAscending (x ∷ xs) → IsAscending xs
  IsAscending-tail x [] h = tt
  IsAscending-tail x (y ∷ ys) h = h.1

  pub IsAscending-drop : (n : ℕ) (xs : List A) → IsAscending xs → IsAscending (drop n xs)
  IsAscending-drop zero xs h = h
  IsAscending-drop (suc n) [] h = tt
  IsAscending-drop (suc n) (x ∷ xs) h = IsAscending-drop n xs (IsAscending-tail x xs h)

  -- Sorting sorted rows changes nothing.
  pub ascending_sorted : (xs : List A) → IsAscending xs → ascending column xs ≡ xs
  unfolding ascending order_by insert_by
  ascending_sorted [] h = refl
  ascending_sorted (x ∷ []) h = refl
  ascending_sorted (x ∷ y ∷ ys) h = rw (ascending_sorted (y ∷ ys) h.1) (ground arith)
