-- ===== src/Base/Lists.antt =====
-- Lists measured by native numbers, under the library's names, and predicates on all members.
use Prim.Native.Nat.{ℕ, zero, suc, ◌+◌}
use mathlib.Core.Path.{◌≡◌, refl}
use mathlib.Core.Bool.{Bool, true, false, ◌&&◌, ◌||◌}
use mathlib.Core.List.{List, [], ◌∷◌, ◌++◌, map, Memᴰ}
use mathlib.Core.Option.{Option, none, some}
use native.Mathlib.Omega.{arith}
use coolproof.Base.Tests.{if◌then◌else◌}

module _ {ℓ} {A : Type ℓ} where
  abbrev pub length : List A → ℕ
  length [] = 0
  length (x ∷ xs) = suc (length xs)

  abbrev pub take : ℕ → List A → List A
  take zero xs = []
  take (suc n) [] = []
  take (suc n) (x ∷ xs) = x ∷ take n xs

  abbrev pub drop : ℕ → List A → List A
  drop zero xs = xs
  drop (suc n) [] = []
  drop (suc n) (x ∷ xs) = drop n xs

  abbrev pub head? : List A → Option A
  head? [] = none
  head? (x ∷ xs) = some x

  -- The members that pass a Boolean test, in order.
  unfoldable pub keep : (A → Bool) → List A → List A
  keep p [] = []
  keep p (x ∷ xs) = let rest = keep p xs in if p x then x ∷ rest else rest

  -- Some member passes the test.
  unfoldable pub any : (A → Bool) → List A → Bool
  any p [] = false
  any p (x ∷ xs) = p x || any p xs

  abbrev pub All {κ} : (A → Type κ) → List A → Type κ
  All P [] = Unit
  All P (x ∷ xs) = P x × All P xs

  pub length-append : (xs ys : List A) → length (xs ++ ys) ≡ length xs + length ys
  length-append [] ys = omega arith
  length-append (x ∷ xs) ys = omega (arith, length-append xs ys)

module _ {ℓ κ} {A : Type ℓ} (P : A → Type κ) where
  pub All-append : (xs ys : List A) → All P xs → All P ys → All P (xs ++ ys)
  All-append [] ys hx hy = hy
  All-append (x ∷ xs) ys hx hy = (hx.0, All-append xs ys hx.1 hy)

  -- A property that the test implies holds of all that is kept.
  pub All-keep : (p : A → Bool) (xs : List A) → ((x : A) → p x ≡ true → P x) → All P (keep p xs)
  unfolding keep
  All-keep p [] h = tt
  All-keep p (x ∷ xs) h = ground (arith, h x, All-keep p xs h)

  -- A property of all members is one of all that is kept.
  pub All-keep_of_All : (p : A → Bool) (xs : List A) → All P xs → All P (keep p xs)
  unfolding keep
  All-keep_of_All p [] h = tt
  All-keep_of_All p (x ∷ xs) h = ground (arith, All-keep_of_All p xs h.1)

module _ {ℓ} {A : Type ℓ} where
  pub keep-cons :
      (p : A → Bool) (x : A) (xs : List A)
      → keep p (x ∷ xs) ≡ (if p x then x ∷ keep p xs else keep p xs)
  unfolding keep
  keep-cons p x xs = refl

  pub keep-nil : (p : A → Bool) → keep p [] ≡ []
  unfolding keep
  keep-nil p = refl

  pub drop-nil : (n : ℕ) → drop {A = A} n [] ≡ []
  drop-nil zero = refl
  drop-nil (suc n) = refl

  -- Two tests at once are one after the other.
  pub keep-and : (p q : A → Bool) (xs : List A) → keep q (keep p xs) ≡ keep (λ x. p x && q x) xs
  unfolding keep
  keep-and p q [] = refl
  keep-and p q (x ∷ xs) = ground (arith, keep-and p q xs)

  pub keep-one : (p : A → Bool) (x : A) → p x ≡ true → keep p (x ∷ []) ≡ x ∷ []
  unfolding keep
  keep-one p x h = rw h

  pub keep-none : (p : A → Bool) (x : A) → p x ≡ false → keep p (x ∷ []) ≡ []
  unfolding keep
  keep-none p x h = rw h

  pub keep-append : (p : A → Bool) (xs ys : List A) → keep p (xs ++ ys) ≡ keep p xs ++ keep p ys
  unfolding keep
  keep-append p [] ys = refl
  keep-append p (x ∷ xs) ys = ground (arith, keep-append p xs ys)

  -- A second test that the first implies removes nothing more.
  pub keep-keep :
      (p q : A → Bool) (xs : List A)
      → ((x : A) → p x ≡ true → q x ≡ true)
      → keep p (keep q xs) ≡ keep p xs
  unfolding keep
  keep-keep p q [] h = refl
  keep-keep p q (x ∷ xs) h = ground (arith, h x, keep-keep p q xs h)

  pub any-append : (p : A → Bool) (xs ys : List A) → any p xs ≡ true → any p (xs ++ ys) ≡ true
  unfolding any
  any-append p [] ys h = absurd (cc h)
  any-append p (x ∷ xs) ys h = ground (arith, any-append p xs ys)

  -- A member that passes a test that implies the other one.
  pub any_of_keep :
      (p q : A → Bool) (xs : List A) (x : A)
      → head? (keep p xs) ≡ some x
      → q x ≡ true
      → any q xs ≡ true
  unfolding any keep
  any_of_keep p q [] x h hq = absurd (cc h)
  any_of_keep p q (y ∷ ys) x h hq = ground (arith, any_of_keep p q ys x)

module _ {ℓ} {A : Type ℓ} where
  All-In_of : (all xs : List A) → ((x : A) → Memᴰ x xs → Memᴰ x all) → All (λ x. Memᴰ x all) xs
  All-In_of all [] h = tt
  All-In_of all (x ∷ xs) h = (h x (Memᴰ.head refl), All-In_of all xs (λ y e. h y (Memᴰ.tail e)))

  -- Every member is a member.
  pub All-In : (xs : List A) → All (λ x. Memᴰ x xs) xs
  All-In xs = All-In_of xs xs (λ x e. e)

module _ {ℓ κ} {A : Type ℓ} {B : Type κ} where
  pub All-map {ι} :
      (P : B → Type ι) (f : A → B) (xs : List A) → All (λ x. P (f x)) xs → All P (map f xs)
  All-map P f [] h = tt
  All-map P f (x ∷ xs) h = (h.0, All-map P f xs h.1)

module _ {ℓ κ ι} {A : Type ℓ} (P : A → Type κ) (Q : A → Type ι) where
  pub All-imp : (xs : List A) → ((x : A) → P x → Q x) → All P xs → All Q xs
  All-imp [] f h = tt
  All-imp (x ∷ xs) f h = (f x h.0, All-imp xs f h.1)
