-- ===== src/Heat/Exposure.antt =====
-- app/services/heat.py: the exposure score of observations, over a parameter for floats.
pub mod Scored
use coolproof.Base.{
  ℕ, ◌<>◌, String, Bool, true, false, not, ◌||◌, ◌≡◌, ◌≢◌, refl, Option, none, some, List, [], ◌∷◌,
  any, keep, map, length, pos, if◌then◌else◌, All, Bool-cases, inl, inr, arith,
}
use coolproof.Json.{Value, int, float, str, obj, Fields, get, dict}
use coolproof.Failure.{
  Result, ok, err, value_error, ◌>>=◌, Result-cases, ok-injective, err≢ok, >>=-cons, >>=-eq-ok,
}
use coolproof.Floats.{Floats, at_least_zero}

-- The weights, as floats, with the text of their version.
pub record HeatWeights : Type 0 where
  pub mean_temperature : ℕ
  pub persistence_hours : ℕ
  pub threshold_exceedance : ℕ
  pub population : ℕ
  pub criticality : ℕ
  pub version : String

-- The defaults 0.35, 0.25, 0.25, 0.10 and 0.05.
abbrev pub default_weights : HeatWeights
default_weights = record {
  mean_temperature = 0x3fd6666666666666;
  persistence_hours = 0x3fd0000000000000;
  threshold_exceedance = 0x3fd0000000000000;
  population = 0x3fb999999999999a;
  criticality = 0x3fa999999999999a;
  version = "heat-score-v1";
}

abbrev pub values_of : HeatWeights → List ℕ
values_of w =
    w.mean_temperature ∷ w.persistence_hours ∷ w.threshold_exceedance ∷ w.population ∷ w.criticality
    ∷ []

-- `weights or HeatWeights()`
abbrev pub weights_or : Option HeatWeights → HeatWeights
weights_or none = default_weights
weights_or (some w) = w

-- The default of `dict.get`.
abbrev pub value_or : Option Value → Value → Value
value_or none default = default
value_or (some v) default = v

-- An observation that was read: its temperature and its hours.
abbrev pub Observation : Type 0
Observation = ℕ × ℕ

abbrev pub temperature_of : Fields → Value
temperature_of item =
    value_or (get "temperature_c" item) (value_or (get "temperature" item) (int (pos 0)))

abbrev pub hours_of : Fields → Value
hours_of item = value_or (get "hours" item) (int (pos 1))

abbrev pub weights_out : HeatWeights → Value
weights_out w = obj (
    dict (
      ("mean_temperature", float w.mean_temperature)
      ∷ ("persistence_hours", float w.persistence_hours)
      ∷ ("threshold_exceedance", float w.threshold_exceedance)
      ∷ ("population", float w.population)
      ∷ ("criticality", float w.criticality)
      ∷ ("version", str w.version)
      ∷ []))

-- `read` is `float(value)`, which may raise.
module _ (f : Floats) (read : Value → Result ℕ) where
  -- `HeatWeights.__post_init__`
  unfoldable pub checked_weights : HeatWeights → Result HeatWeights
  unfolding any
  checked_weights w =
      if any (λ v. not (f.is_finite v) || f.lt v 0) (values_of w) || f.le (f.total (values_of w)) 0
      then err (value_error "heat weights must be finite and non-negative")
      else ok w

  abbrev pub share : HeatWeights → ℕ → ℕ
  share w v = f.div v (f.total (values_of w))

  -- `HeatWeights.normalized`
  unfoldable pub normalized : HeatWeights → HeatWeights
  normalized w = record w {
    mean_temperature = share w w.mean_temperature;
    persistence_hours = share w w.persistence_hours;
    threshold_exceedance = share w w.threshold_exceedance;
    population = share w w.population;
    criticality = share w w.criticality;
  }

  abbrev pub checked_observation : ℕ → ℕ → Result Observation
  checked_observation temp duration =
      if not (f.is_finite temp) || not (f.is_finite duration) || f.le duration 0
      then err (value_error "observation temperature and hours must be finite; hours > 0")
      else ok (temp, duration)

  unfoldable pub observation : Fields → Result Observation
  unfolding get
  observation item = read (temperature_of item) >>= λ temp.
      read (hours_of item) >>= λ duration. checked_observation temp duration

  unfoldable pub observed : List Fields → Result (List Observation)
  unfolding observation
  observed [] = ok []
  observed (item ∷ items) = observation item >>= λ o. observed items >>= λ os. ok (o ∷ os)

  -- `min(1.0, x)` and `max(0.0, min(1.0, x))`
  abbrev pub at_most_one : ℕ → ℕ
  at_most_one x = let one = f.of_int (pos 1) in if f.lt x one then x else one

  abbrev pub component : ℕ → ℕ
  component x = at_least_zero f (at_most_one x)

  abbrev pub over : ℕ → ℕ → ℕ
  over x n = f.div x (f.of_int (pos n))

  -- The sums over the observations; the sum of none is 0.
  abbrev pub total_hours : List Observation → ℕ
  total_hours os = f.total (map (λ (o : Observation). o.1) os)

  abbrev pub mean_of : List Observation → ℕ
  mean_of os = f.div (f.total (map (λ (o : Observation). f.mul o.0 o.1) os)) (total_hours os)

  abbrev pub exceedance_of : ℕ → List Observation → ℕ
  exceedance_of threshold os =
      f.div
        (f.total (map (λ (o : Observation). f.mul (at_least_zero f (f.sub o.0 threshold)) o.1) os))
        (total_hours os)

  abbrev pub persistence_of : ℕ → List Observation → ℕ
  persistence_of threshold os = total_hours (keep (λ (o : Observation). f.le threshold o.0) os)

  abbrev pub weighted : ℕ → ℕ → ℕ → ℕ → ℕ → HeatWeights → ℕ
  weighted temp persistence exceedance population criticality w =
      f.add
        (f.add
          (f.add (f.add (f.mul temp w.mean_temperature) (f.mul persistence w.persistence_hours))
            (f.mul exceedance w.threshold_exceedance))
          (f.mul population w.population))
        (f.mul criticality w.criticality)

  unfoldable pub score_of : ℕ → ℕ → ℕ → HeatWeights → List Observation → ℕ
  unfolding keep normalized
  score_of threshold population criticality weights os =
      weighted (component (over (f.sub (mean_of os) threshold) 15))
        (at_most_one (over (persistence_of threshold os) 24))
        (component (over (exceedance_of threshold os) 15)) (component (over population 10000))
        (component criticality) (normalized weights)

  unfoldable pub scored : ℕ → ℕ → ℕ → HeatWeights → List Observation → Fields
  unfolding score_of keep normalized
  scored threshold population criticality weights os = dict (
      ("method", str "deterministic_heat_exposure_v1")
      ∷ ("mean_temperature_c", float (mean_of os))
      ∷ ("threshold_c", float threshold)
      ∷ ("persistence_hours", float (persistence_of threshold os))
      ∷ ("exposure_hours", float (persistence_of threshold os))
      ∷ ("threshold_exceedance_c", float (exceedance_of threshold os))
      ∷ ("exposure_score", float (f.round (score_of threshold population criticality weights os) 6))
      ∷ ("population", float population)
      ∷ ("criticality", float criticality)
      ∷ ("weights", weights_out (normalized weights))
      ∷ (
        "provenance",
        obj (
            dict (
              ("observation_count", int (pos (length os)))
              ∷ ("inputs", str "FortyGuard observations")
              ∷ [])),
      )
      ∷ [])

  -- `calculate_heat_exposure`. No divisor is 0: the weights were checked and the hours are above 0. The
  -- weights that are not given are the defaults.
  unfoldable pub calculate_heat_exposure :
      List Fields → ℕ → ℕ → ℕ → Option HeatWeights → Result Fields
  unfolding observed scored
  calculate_heat_exposure [] threshold population criticality weights =
      err (value_error "at least one heat observation is required")
  calculate_heat_exposure (item ∷ items) threshold population criticality weights =
      observed (item ∷ items) >>= λ os.
      ok (scored threshold population criticality (weights_or weights) os)
