-- ===== src/Verification.antt =====
-- app/services/verification.py: the matched-control calculation, on Python's floats.
pub mod Reports
pub mod Api
pub mod ReportApi
pub mod Total
pub mod Again
pub mod Exposure
use coolproof.Base.{
  ℕ, ◌^◌, ◌<>◌, ltb, ℤ, pos, negsuc, String, ◌==◌, not, Bool, true, false, ◌≡◌, Option, none, some,
  List, [], ◌∷◌, All, max, if◌then◌else◌,
}
use coolproof.Json.{Value, null, bool, int, float, str, Fields, dict}
use coolproof.Floats.{Floats, at_least_zero, natural}
use coolproof.Failure.{Result, ok, err, value_error, ◌>>=◌}

pub record VerificationInput : Type 0 where
  pub treated_baseline : ℕ
  pub treated_observed : ℕ
  pub control_baseline : ℕ
  pub control_observed : ℕ
  pub treated_weather_delta : ℕ
  pub control_weather_delta : ℕ
  pub expected_cooling : ℕ
  pub treated_threshold_hours_baseline : ℕ
  pub treated_threshold_hours_observed : ℕ
  pub control_threshold_hours_baseline : ℕ
  pub control_threshold_hours_observed : ℕ
  pub total_cost : ℕ
  pub sample_size : ℤ

-- 1.96 as a float, and the pattern of -0.0.
abbrev quantile : ℕ
quantile = 4_611_505_874_442_293_084

abbrev negative_zero : ℕ
negative_zero = 2 ^ 63

-- `bool(x)` of a float.
abbrev pub is_truthy_float : ℕ → Bool
is_truthy_float x = elim (x == 0) [ true ↦ false | false ↦ not (x == negative_zero) ]

module _ (f : Floats) where
  -- `data.__dict__` with each value as a float, in the order of the class.
  abbrev pub values_of : VerificationInput → List (String × ℕ)
  values_of i =
      ("treated_baseline", i.treated_baseline)
      ∷ ("treated_observed", i.treated_observed)
      ∷ ("control_baseline", i.control_baseline)
      ∷ ("control_observed", i.control_observed)
      ∷ ("treated_weather_delta", i.treated_weather_delta)
      ∷ ("control_weather_delta", i.control_weather_delta)
      ∷ ("expected_cooling", i.expected_cooling)
      ∷ ("treated_threshold_hours_baseline", i.treated_threshold_hours_baseline)
      ∷ ("treated_threshold_hours_observed", i.treated_threshold_hours_observed)
      ∷ ("control_threshold_hours_baseline", i.control_threshold_hours_baseline)
      ∷ ("control_threshold_hours_observed", i.control_threshold_hours_observed)
      ∷ ("total_cost", i.total_cost)
      ∷ ("sample_size", f.of_int i.sample_size)
      ∷ []

  -- `_finite(name, value)` for each value.
  unfoldable pub all_finite : List (String × ℕ) → Result (Unit {0})
  all_finite [] = ok tt
  all_finite ((name, x) ∷ rest) =
      let more = all_finite rest in
      if f.is_finite x then more else err (value_error (name <> " must be finite"))

  abbrev pub attainment : ℕ → ℕ → ℕ
  attainment effect expected = if is_truthy_float expected then f.div effect expected else 0

  abbrev pub standard_error : ℕ → ℕ → ℕ
  standard_error effect n =
      if ltb 1 n then f.div (f.magnitude effect) (f.square_root (f.of_int (pos n))) else 0

  -- `cost / x if x > 0 else None`
  abbrev pub cost_per : ℕ → ℕ → Value
  cost_per cost x = if f.lt 0 x then float (f.div cost x) else null

  -- `max(1, int(values["sample_size"]))`
  abbrev pub sample_count : VerificationInput → ℕ
  sample_count i = max 1 (natural (f.truncate (f.of_int i.sample_size)))

  abbrev pub treated_delta : VerificationInput → ℕ
  treated_delta i = f.sub i.treated_observed i.treated_baseline

  abbrev pub control_delta : VerificationInput → ℕ
  control_delta i = f.sub i.control_observed i.control_baseline

  abbrev pub cooling_effect : VerificationInput → ℕ
  cooling_effect i =
      f.sub (f.sub (control_delta i) i.control_weather_delta)
        (f.sub (treated_delta i) i.treated_weather_delta)

  abbrev pub threshold_treated : VerificationInput → ℕ
  threshold_treated i = f.sub i.treated_threshold_hours_baseline i.treated_threshold_hours_observed

  abbrev pub threshold_control : VerificationInput → ℕ
  threshold_control i = f.sub i.control_threshold_hours_baseline i.control_threshold_hours_observed

  -- The result dict, with what `update` adds to it.
  unfoldable pub result_of : VerificationInput → Fields
  result_of i =
      let effect = cooling_effect i in
      let expected = at_least_zero f i.expected_cooling in
      let reduction = f.sub (threshold_treated i) (threshold_control i) in
      let n = sample_count i in
      let margin = f.mul quantile (standard_error effect n) in
      dict (
        ("method", str "matched_control_weather_adjusted_difference_in_differences")
        ∷ ("treated_delta", float (treated_delta i))
        ∷ ("control_delta", float (control_delta i))
        ∷ (
          "treated_weather_adjusted_delta",
          float (f.sub (treated_delta i) i.treated_weather_delta),
        )
        ∷ (
          "control_weather_adjusted_delta",
          float (f.sub (control_delta i) i.control_weather_delta),
        )
        ∷ ("cooling_effect", float effect)
        ∷ ("expected_cooling", float expected)
        ∷ ("expected_minus_observed", float (f.negate (f.sub effect expected)))
        ∷ ("attainment_ratio", float (attainment effect expected))
        ∷ ("met_expectation", Value.bool (f.le expected effect))
        ∷ ("threshold_hours_reduction", float reduction)
        ∷ ("treated_threshold_hours_reduction", float (threshold_treated i))
        ∷ ("control_threshold_hours_reduction", float (threshold_control i))
        ∷ ("observed_cooling", float effect)
        ∷ ("weather_adjusted_cooling", float effect)
        ∷ ("confidence_interval_95_low", float (f.sub effect margin))
        ∷ ("confidence_interval_95_high", float (f.add effect margin))
        ∷ ("cost_per_degree", cost_per i.total_cost effect)
        ∷ ("cost_per_exposure_hour_avoided", cost_per i.total_cost reduction)
        ∷ ("sample_size", int (pos n))
        ∷ [])

  unfoldable pub calculate_verification : VerificationInput → Result Fields
  unfolding all_finite result_of
  calculate_verification i = all_finite (values_of i) >>= λ done. ok (result_of i)
