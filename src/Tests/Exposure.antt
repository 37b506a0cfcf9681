-- ===== src/Tests/Exposure.antt =====
-- The exposure score of one observation, with floats that are whole numbers.
use coolproof.Base.{ℕ, ◌≡◌, refl, none, some, List, [], ◌∷◌, pos}
use coolproof.Json.{Value, Fields, int, float, get, dict}
use coolproof.Failure.{Result, ok, err, type_error, value_error}
use coolproof.Heat.Exposure.{default_weights, scored, calculate_heat_exposure}
use coolproof.Heat.Exposure.Scored.{ScoredOf, calculate_heat_exposure-ScoredOf}
use coolproof.Tests.Solver.{whole}

abbrev read_number : Value → Result ℕ
read_number (int (pos n)) = ok n
read_number (float x) = ok x
read_number _ = err type_error

-- Forty degrees, for one hour by default.
abbrev hot : List Fields
hot = dict (("temperature_c", float 40) ∷ []) ∷ []

abbrev exposure : Fields
exposure = scored whole read_number 35 0 0 default_weights ((40, 1) ∷ [])

exposure_hours : get "exposure_hours" exposure ≡ some (float 1)
unfolding scored get
exposure_hours = refl

-- An observation of no hours is refused.
no_hours_refused :
    calculate_heat_exposure whole read_number
      (dict (("temperature_c", float 40) ∷ ("hours", float 0) ∷ []) ∷ [])
      35
      0
      0
      none
    ≡ err (value_error "observation temperature and hours must be finite; hours > 0")
unfolding calculate_heat_exposure get
no_hours_refused = refl

calculate_heat_exposure-ScoredOf_example :
    (calculate_heat_exposure whole read_number hot 35 0 0 none ≡ ok exposure
      → ScoredOf whole read_number 35 0 0 none hot exposure)
    × (ScoredOf whole read_number 35 0 0 none hot exposure
        → calculate_heat_exposure whole read_number hot 35 0 0 none ≡ ok exposure)
calculate_heat_exposure-ScoredOf_example =
    calculate_heat_exposure-ScoredOf whole read_number hot 35 0 0 none exposure
