-- ===== src/Db/Query/Found.antt =====
-- Whether `scalar` finds a row: what no row before means, and what one added row changes.
use coolproof.Base.{
  ℕ, ◌<◌, leb, ◌==◌, ==-refl, Bool, true, false, ◌≡◌, refl, ap, ◌∙◌, none, some, List, [], ◌∷◌,
  ◌++◌, keep, head?, All, arith, if◌then◌else◌, Bool-cases, inl, inr,
}
use coolproof.Db.Query.{insert_by, order_by, descending, scalar, save}

module _ {ℓ} {A : Type ℓ} (p : A → Bool) where
  -- No row passes the test.
  abbrev pub NoneOf : List A → Type 0
  NoneOf = All (λ x. p x ≡ false)

  head?-NoneOf : (xs : List A) → head? (keep p xs) ≡ none → NoneOf xs
  unfolding keep
  head?-NoneOf [] h = tt
  head?-NoneOf (x ∷ xs) h = ground (arith, head?-NoneOf xs)

  NoneOf-insert_by :
      (before : A → A → Bool) (x : A) (xs : List A)
      → NoneOf (insert_by before x xs)
      → (p x ≡ false) × NoneOf xs
  unfolding insert_by
  NoneOf-insert_by before x [] h = h
  NoneOf-insert_by before x (y ∷ ys) h = ground (arith, NoneOf-insert_by before x ys)

  NoneOf-order_by : (before : A → A → Bool) (xs : List A) → NoneOf (order_by before xs) → NoneOf xs
  unfolding order_by
  NoneOf-order_by before [] h = tt
  NoneOf-order_by before (x ∷ xs) h =
      let (hx, hxs) = NoneOf-insert_by before x (order_by before xs) h in
      (hx, NoneOf-order_by before xs hxs)

  -- A `select` that found nothing looked at no row that passes.
  pub NoneOf-of_scalar :
      (column : A → ℕ) (xs : List A) → scalar p (descending column xs) ≡ none → NoneOf xs
  unfolding scalar descending
  NoneOf-of_scalar column xs h = NoneOf-order_by _ xs (head?-NoneOf _ h)

  pub keep-insert_by :
      (before : A → A → Bool) (x : A) (xs : List A)
      → p x ≡ false
      → keep p (insert_by before x xs) ≡ keep p xs
  unfolding insert_by keep
  keep-insert_by before x [] h = ground arith
  keep-insert_by before x (y ∷ ys) h = ground (arith, keep-insert_by before x ys h)

  keep-order_by-append :
      (before : A → A → Bool) (xs : List A) (x : A)
      → NoneOf xs
      → p x ≡ true
      → keep p (order_by before (xs ++ (x ∷ []))) ≡ x ∷ []
  unfolding order_by insert_by keep
  keep-order_by-append before [] x h hx = rw hx refl
  keep-order_by-append before (y ∷ ys) x h hx =
      keep-insert_by before y (order_by before (ys ++ (x ∷ []))) h.0
      ∙ keep-order_by-append before ys x h.1 hx

  -- The only row that passes is the one that a `select` finds.
  pub scalar-append :
      (column : A → ℕ) (xs : List A) (x : A)
      → NoneOf xs
      → p x ≡ true
      → scalar p (descending column (xs ++ (x ∷ []))) ≡ some x
  unfolding scalar descending
  scalar-append column xs x h hx = ap head? (keep-order_by-append _ xs x h hx)

-- A row that was just added is the one that `save` writes over.
pub save-append {ℓ} :
    {A : Type ℓ} (key : A → ℕ) (row old : A) (xs : List A)
    → key old ≡ key row
    → All (λ x. (key x == key row) ≡ false) xs
    → save key row (xs ++ (old ∷ [])) ≡ xs ++ (row ∷ [])
unfolding save
save-append key row old [] same h = rw (same, ==-refl) refl
save-append key row old (x ∷ xs) same h = rw (h.0, save-append key row old xs same h.1) refl

pub scalar-cons {ℓ} :
    {A : Type ℓ} (p : A → Bool) (x : A) (xs : List A)
    → scalar p (x ∷ xs) ≡ (if p x then some x else scalar p xs)
unfolding scalar keep
scalar-cons p x xs = ground arith

pub scalar-nil {ℓ} : {A : Type ℓ} (p : A → Bool) → scalar p [] ≡ none
unfolding scalar keep
scalar-nil p = refl

-- The row that `save` wrote is the one that a `select` on its key finds, if there was one to write over.
pub scalar-save {ℓ} :
    {A : Type ℓ} (key : A → ℕ) (k : ℕ) (old row : A) (rows : List A)
    → key row ≡ k
    → scalar (λ r. key r == k) rows ≡ some old
    → scalar (λ r. key r == k) (save key row rows) ≡ some row
unfolding save
scalar-save key k old row [] is_k h = absurd (cc (h, scalar-nil (λ r. key r == k)))
scalar-save {A} key k old row (x ∷ rows) is_k h = elim (Bool-cases (key x == k)) [
  | inl same ↦
      let written : (key x == key row) ≡ true = ap (λ i. key x == i) is_k ∙ same in
      let found : (key row == k) ≡ true = ap (λ i. i == k) is_k ∙ ==-refl k in
      rw (written, scalar-cons (λ r. key r == k) row, found) refl
  | inr other ↦
      let left : (key x == key row) ≡ false = ap (λ i. key x == i) is_k ∙ other in
      let rest : scalar (λ r. key r == k) rows ≡ some old = rw other at (rw scalar-cons at h) in
      rw (left, scalar-cons (λ r. key r == k) x, other) (scalar-save key k old row rows is_k rest)
]

-- A row that is younger than all others comes first.
descending-insert_by {ℓ} :
    {A : Type ℓ} (column : A → ℕ) (y x : A) (xs : List A)
    → column y < column x
    → insert_by (λ a b. leb (column b) (column a)) y (x ∷ xs)
      ≡ x ∷ insert_by (λ a b. leb (column b) (column a)) y xs
unfolding insert_by
descending-insert_by column y x xs less = ground arith

pub descending-newest {ℓ} :
    {A : Type ℓ} (column : A → ℕ) (xs : List A) (x : A)
    → All (λ y. column y < column x) xs
    → descending column (xs ++ (x ∷ [])) ≡ x ∷ descending column xs
unfolding descending order_by insert_by
descending-newest column [] x h = refl
descending-newest column (y ∷ ys) x h =
    ap (insert_by (λ a b. leb (column b) (column a)) y) (descending-newest column ys x h.1)
    ∙ descending-insert_by column y x _ h.0

module _ {ℓ} {A : Type ℓ} (p : A → Bool) where
  -- No row passes where `scalar` finds none.
  pub scalar-NoneOf : (xs : List A) → scalar p xs ≡ none → NoneOf p xs
  unfolding scalar
  scalar-NoneOf xs h = head?-NoneOf p xs h

  -- A row that is added is found, if it passes and no other does.
  pub scalar-last :
      (xs : List A) (x : A) → NoneOf p xs → p x ≡ true → scalar p (xs ++ (x ∷ [])) ≡ some x
  scalar-last [] x h hx = rw (scalar-cons, hx) refl
  scalar-last (y ∷ ys) x h hx = rw (scalar-cons p y, h.0) (scalar-last ys x h.1 hx)
