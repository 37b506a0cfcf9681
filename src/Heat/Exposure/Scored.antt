-- ===== src/Heat/Exposure/Scored.antt =====
-- app/services/heat.py: an exposure is calculated exactly of observations that are all usable.
use coolproof.Base.{
  ℕ, Bool, true, false, not, ◌||◌, ◌≡◌, ◌≢◌, refl, sym, ap, subst, Option, List, [], ◌∷◌,
  Bool-cases, inl, inr, arith,
}
use coolproof.Json.{Value, Fields}
use coolproof.Failure.{
  Result, ok, >>=-eq-ok, >>=-cons, ok-injective, err≢ok, Gives, of_Gives, Result-cases,
}
use coolproof.Floats.{Floats}
use coolproof.Heat.Exposure.{
  HeatWeights, temperature_of, hours_of, observation, observed, scored, weights_or,
  calculate_heat_exposure,
}

module _ (f : Floats) (read : Value → Result ℕ) where
  -- The temperature and the hours of an observation are floats, finite, and the hours above 0.
  pub record IsUsable (item : Fields) (o : ℕ × ℕ) : Type 0 where
    pub temperature : read (temperature_of item) ≡ ok o.0
    pub hours : read (hours_of item) ≡ ok o.1
    pub temperature_finite : f.is_finite o.0 ≡ true
    pub hours_finite : f.is_finite o.1 ≡ true
    pub hours_positive : f.le o.1 0 ≡ false

  abbrev pub AreUsable : List Fields → List (ℕ × ℕ) → Type 0
  AreUsable [] [] = Unit
  AreUsable [] (o ∷ os) = ⊥
  AreUsable (item ∷ items) [] = ⊥
  AreUsable (item ∷ items) (o ∷ os) = IsUsable item o × AreUsable items os

  checks : (a b c : Bool) → (not a || not b || c) ≡ false → (a ≡ true) × (b ≡ true) × (c ≡ false)
  checks a b c h = ground arith

  checks_of : (a b c : Bool) → a ≡ true → b ≡ true → c ≡ false → (not a || not b || c) ≡ false
  checks_of a b c ha hb hc = ground arith

  unusable : ℕ → ℕ → Bool
  unusable temp duration = not (f.is_finite temp) || not (f.is_finite duration) || f.le duration 0

  observation-Gives : (item : Fields) → Gives (IsUsable item) (observation f read item)
  unfolding observation unusable
  observation-Gives item = elim (Result-cases (read (temperature_of item))) [
    | inr (e, unread) ↦ rw (unread, observation) tt
    | inl (temp, has_temp) ↦ elim (Result-cases (read (hours_of item))) [
      | inr (e, unread) ↦ rw (has_temp, observation) (rw unread tt)
      | inl (duration, has_hours) ↦ elim (Bool-cases (unusable temp duration)) [
        | inl bad ↦ rw (has_temp, observation) (rw has_hours (rw bad tt))
        | inr good ↦
            let (temp_ok, hours_ok, positive) = checks _ _ _ good in
            rw (has_temp, observation)
              (rw has_hours (
                rw good (record {
                  temperature = has_temp;
                  hours = has_hours;
                  temperature_finite = temp_ok;
                  hours_finite = hours_ok;
                  hours_positive = positive;
                })))
      ]
    ]
  ]

  observation_usable :
      (item : Fields) (o : ℕ × ℕ) → IsUsable item o → observation f read item ≡ ok o
  unfolding observation
  observation_usable item o u =
      rw u.temperature (
        rw u.hours (rw (checks_of _ _ _ u.temperature_finite u.hours_finite u.hours_positive) refl))

  observed_sound :
      (items : List Fields) (os : List (ℕ × ℕ)) → observed f read items ≡ ok os → AreUsable items os
  unfolding observed
  observed_sound [] os h = subst (AreUsable []) (ok-injective h) tt
  observed_sound (item ∷ items) os h =
      let (o, rest, has_o, has_rest, e) =
        >>=-cons (observation f read item) (observed f read items) h in
      subst (AreUsable (item ∷ items)) (sym e) (
        of_Gives (IsUsable item) (observation f read item) o (observation-Gives item) has_o,
        observed_sound items rest has_rest,
      )

  observed_usable :
      (items : List Fields) (os : List (ℕ × ℕ)) → AreUsable items os → observed f read items ≡ ok os
  unfolding observed
  observed_usable [] [] h = refl
  observed_usable [] (o ∷ os) h = absurd h
  observed_usable (item ∷ items) [] h = absurd h
  observed_usable (item ∷ items) (o ∷ os) h =
      rw (observation_usable item o h.0) (rw (observed_usable items os h.1) refl)

  -- What is calculated of observations that were read is the score of them.
  abbrev pub ScoredOf : ℕ → ℕ → ℕ → Option HeatWeights → List Fields → Fields → Type 0
  ScoredOf threshold population criticality weights items result =
      (items ≢ [])
      × (os : List (ℕ × ℕ)) × AreUsable items os
      × (result ≡ scored f read threshold population criticality (weights_or weights) os)

  -- An exposure is calculated exactly if there is an observation and all have a temperature and hours that
  -- are finite floats, the hours above 0: then it is the score of these, and else the call raises.
  pub calculate_heat_exposure-ScoredOf :
      (items : List Fields) (threshold population criticality : ℕ) (weights : Option HeatWeights)
      (result : Fields)
      → ((calculate_heat_exposure f read items threshold population criticality weights ≡ ok result
            → ScoredOf threshold population criticality weights items result)
          × (ScoredOf threshold population criticality weights items result
              → calculate_heat_exposure f read items threshold population criticality weights
                ≡ ok result))
  unfolding calculate_heat_exposure
  calculate_heat_exposure-ScoredOf [] threshold population criticality weights result =
      (λ h. absurd (err≢ok h), λ s. absurd (s.0 refl))
  calculate_heat_exposure-ScoredOf (item ∷ items) threshold population criticality weights result =
      (
        λ h.
            let (os, has_os, e) = >>=-eq-ok (observed f read (item ∷ items)) _ h in
            (λ e. absurd (cc e), os, observed_sound (item ∷ items) os has_os, sym (ok-injective e)),
        λ (full, os, usable, e). rw (observed_usable (item ∷ items) os usable) (ap ok (sym e)),
      )
