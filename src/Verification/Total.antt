-- ===== src/Verification/Total.antt =====
-- The calculation ends in a result exactly if the measurements are finite.
use coolproof.Base.{ℕ, String, true, ◌≡◌, refl, sym, List, [], ◌∷◌, All, Bool-cases, inl, inr}
use coolproof.Json.{Fields}
use coolproof.Floats.{Floats}
use coolproof.Failure.{ok, >>=-eq-ok, err≢ok, ok-injective}
use coolproof.Verification.{
  VerificationInput, values_of, all_finite, result_of, calculate_verification,
}

module _ (f : Floats) where
  abbrev AllFinite : List (String × ℕ) → Type 0
  AllFinite = All (λ v. f.is_finite v.1 ≡ true)

  finite_ok : (vs : List (String × ℕ)) → AllFinite vs → all_finite f vs ≡ ok tt
  unfolding all_finite
  finite_ok [] h = refl
  finite_ok ((name, x) ∷ vs) h = rw h.0 (finite_ok vs h.1)

  ok_finite : (vs : List (String × ℕ)) → all_finite f vs ≡ ok tt → AllFinite vs
  unfolding all_finite
  ok_finite [] h = tt
  ok_finite ((name, x) ∷ vs) h = elim (Bool-cases (f.is_finite x)) [
    | inl fine ↦ (fine, ok_finite vs (rw fine at h))
    | inr bad ↦ absurd (err≢ok (rw bad at h))
  ]

-- The calculation gives a result if all thirteen values are finite, whatever their signs and zeros; and
-- if it gives one, they are, and the result is what the formulas say.
calculate_verification-ok :
    (f : Floats) (i : VerificationInput)
    → (AllFinite f (values_of f i) → calculate_verification f i ≡ ok (result_of f i))
      × ((result : Fields)
          → calculate_verification f i ≡ ok result
          → AllFinite f (values_of f i) × (result ≡ result_of f i))
unfolding calculate_verification
calculate_verification-ok f i = (
  λ h. rw (finite_ok f (values_of f i) h) refl,
  λ result h.
      let (done, finite, built) = >>=-eq-ok (all_finite f (values_of f i)) _ h in
      (ok_finite f (values_of f i) finite, sym (ok-injective built)),
)
