-- ===== src/Portfolio/Counting.antt =====
-- A set as large as the list that it is taken from has every member of the list.
use coolproof.Base.{
  ℕ, ◌+◌, ◌≤◌, ◌==◌, true, false, not, ◌≡◌, refl, List, [], ◌∷◌, keep, length, All, All-imp, arith,
  Bool-cases, inl, inr,
}
use coolproof.Agents.Grounding.Rows.{id_in}
use coolproof.Portfolio.Request.{set_size}

abbrev without : ℕ → List ℕ → List ℕ
without i xs = keep (λ j. not (j == i)) xs

without_same : (i : ℕ) (xs : List ℕ) → id_in xs i ≡ false → without i xs ≡ xs
unfolding keep id_in
without_same i [] h = refl
without_same i (x ∷ xs) h = ground (arith, without_same i xs)

id_in-without : (i j : ℕ) (xs : List ℕ) → (j == i) ≡ false → id_in (without i xs) j ≡ id_in xs j
unfolding keep id_in
id_in-without i j [] h = refl
id_in-without i j (x ∷ xs) h = ground (arith, id_in-without i j xs h)

set_size-without : (i : ℕ) (xs : List ℕ) → set_size xs ≤ set_size (without i xs) + 1
unfolding keep id_in set_size
set_size-without i [] = omega arith
set_size-without i (x ∷ xs) =
    ground
      (arith, set_size-without i xs, without_same i xs, id_in-without i x xs, id_in-without x x xs)

abbrev AllIn : List ℕ → List ℕ → Type 0
AllIn all xs = All (λ x. id_in all x ≡ true) xs

AllIn-without : (i : ℕ) (is xs : List ℕ) → AllIn (i ∷ is) xs → AllIn is (without i xs)
unfolding keep id_in
AllIn-without i is [] h = tt
AllIn-without i is (x ∷ xs) h = ground (arith, AllIn-without i is xs h.1)

set_size-le-length : (is xs : List ℕ) → AllIn is xs → set_size xs ≤ length is
unfolding set_size id_in
set_size-le-length [] [] h = omega arith
set_size-le-length [] (x ∷ xs) h = absurd (cc (h.0))
set_size-le-length (i ∷ is) xs h =
    omega
      (arith, set_size-without i xs, set_size-le-length is (without i xs) (AllIn-without i is xs h))

In-of_without : (i : ℕ) (xs : List ℕ) (y : ℕ) → id_in (without i xs) y ≡ true → id_in xs y ≡ true
unfolding keep id_in
In-of_without i [] y h = h
In-of_without i (x ∷ xs) y h = ground (arith, In-of_without i xs y)

-- The members of the list that are found are all, if there are as many.
pub AllIn-of_set_size :
    (is xs : List ℕ)
    → All (λ x. id_in is x ≡ true) xs
    → length is ≤ set_size xs
    → All (λ i. id_in xs i ≡ true) is
AllIn-of_set_size [] xs h le = tt
AllIn-of_set_size (i ∷ is) xs h le = elim (Bool-cases (id_in xs i)) [
  | inl found ↦ (
    found,
    All-imp _ _ is (λ y g. In-of_without i xs y g)
        (AllIn-of_set_size is (without i xs) (AllIn-without i is xs h)
          (omega (arith, set_size-without i xs))),
  )
  | inr missing ↦
      let same = without_same i xs missing in
      let small : set_size xs ≤ length is =
        set_size-le-length is xs (rw same at (AllIn-without i is xs h)) in
      absurd (omega arith)
]
