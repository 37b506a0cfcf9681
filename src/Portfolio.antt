-- ===== src/Portfolio.antt =====
-- app/optimization/portfolio.py: the portfolio as an integer program. OR-Tools' solver is a parameter.
pub mod Request
pub mod Counting
pub mod Api
pub mod Optimize
pub mod Feasible
use coolproof.Base.{
  ℕ, suc, ◌+◌, ◌==◌, ℤ, pos, negsuc, String, str_eq, Bool, true, false, ◌&&◌, ◌||◌, not, Option,
  none, some, List, [], ◌∷◌, ◌++◌, keep, any, map, if◌then◌else◌,
}
use coolproof.Json.{Fields, str, dict}
use coolproof.Floats.{Floats, at_least_zero, natural}
use coolproof.Platform.{Platform}
use coolproof.Failure.{Result, ok, err, value_error, stop_iteration, ◌>>=◌}
use coolproof.Interventions.{is_eligible}

-- `InterventionSpec` of app/services/interventions.py.
pub record InterventionSpec : Type 0 where
  pub intervention_id : String
  pub name : String
  pub unit_cost : ℕ
  pub cooling_score : ℕ
  pub eligible_land_uses : List String
  pub uncertainty : ℕ
  pub compatibility_group : Option String

pub record ZoneDemand : Type 0 where
  pub zone_id : String
  pub land_use : String
  pub equity_priority : Bool
  pub is_school : Bool
  pub exposure_score : ℕ
  pub implementation_capacity : ℤ

pub record Allocation : Type 0 where
  pub zone_id : String
  pub intervention_id : String
  pub units : ℤ
  pub cost : ℕ
  pub benefit : ℕ
  pub uncertainty : ℕ

pub record PortfolioResult : Type 0 where
  pub allocations : List Allocation
  pub total_cost : ℕ
  pub total_benefit : ℕ
  pub total_uncertainty : ℕ
  pub remaining_budget : ℕ
  pub rejected : List Fields
  pub binding_constraints : List String

-- What is added to the solver, over the indices of its Boolean variables.
pub data Constraint : Type 0 where
  costs_at_most : List (ℕ × ℕ) → ℕ → Constraint
  at_least : List ℕ → ℤ → Constraint
  at_most : List ℕ → ℕ → Constraint
  fixed : ℕ → Bool → Constraint

pub record Program : Type 0 where
  pub variables : ℕ
  pub constraints : List Constraint
  pub objective : List (ℕ × ℕ)

-- `solve` is `Solve()` and then `solution_value()` of each variable, or none if the status is neither
-- OPTIMAL nor FEASIBLE. `fits` is the comparison of a sum of costs with a bound, up to the solver's
-- tolerance.
pub record Solver : Type 0 where
  pub solve : Program → Option (ℕ → ℕ)
  pub fits : List ℕ → ℕ → Bool

-- An entry of the dict `variables`: its key, and the variable's index.
pub record Variable : Type 0 where
  pub zone_id : String
  pub intervention_id : String
  pub index : ℕ

abbrev pub same_key : String → String → Variable → Bool
same_key zone_id intervention_id v =
    str_eq v.zone_id zone_id && str_eq v.intervention_id intervention_id

-- `variables[key] = variable`
unfoldable pub put_variable : Variable → List Variable → List Variable
put_variable v [] = v ∷ []
put_variable v (w ∷ ws) =
    let rest = put_variable v ws in
    if same_key v.zone_id v.intervention_id w then v ∷ ws else w ∷ rest

-- `d[key]` of a dict comprehension over a list: the last member with the key.
unfoldable pub last_with {ℓ} : {A : Type ℓ} → (A → Bool) → List A → Option A
last_with p [] = none
last_with p (x ∷ xs) = elim (last_with p xs) [
  | some y ↦ some y
  | none ↦ if p x then some x else none
]

-- `next(x for x in xs if ...)`
unfoldable pub first_with {ℓ} : {A : Type ℓ} → (A → Bool) → List A → Option A
first_with p [] = none
first_with p (x ∷ xs) = let rest = first_with p xs in if p x then some x else rest

-- The variables that are declared, and how many the solver has.
abbrev pub Declared : Type 0
Declared = List Variable × ℕ

module _ (p : Platform) where
  abbrev pub eligible_in : ZoneDemand → InterventionSpec → Bool
  eligible_in z i = is_eligible p i.eligible_land_uses z.land_use

  abbrev pub declare : ZoneDemand → InterventionSpec → Declared → Declared
  declare z i (vs, n) =
      if eligible_in z i
      then (
        put_variable
            (record { zone_id = z.zone_id; intervention_id = i.intervention_id; index = n }) vs,
        suc n,
      )
      else (vs, n)

  unfoldable pub declare_zone : ZoneDemand → List InterventionSpec → Declared → Declared
  unfolding put_variable
  declare_zone z [] d = d
  declare_zone z (i ∷ is) d = declare_zone z is (declare z i d)

  unfoldable pub declare_all : List ZoneDemand → List InterventionSpec → Declared → Declared
  unfolding declare_zone
  declare_all [] is d = d
  declare_all (z ∷ zs) is d = declare_all zs is (declare_zone z is d)

abbrev pub indices : List Variable → List ℕ
indices vs = map (λ v. v.index) vs

-- The fields that `costs`, `benefits` and `uncertainties` hold for a key: it is always there, as a
-- variable's key is that of an intervention.
abbrev pub field_or_zero : (InterventionSpec → ℕ) → Option InterventionSpec → ℕ
field_or_zero field none = 0
field_or_zero field (some i) = field i

abbrev pub spec_field : (InterventionSpec → ℕ) → List InterventionSpec → String → ℕ
spec_field field interventions id =
    field_or_zero field (last_with (λ i. str_eq i.intervention_id id) interventions)

abbrev pub flagged : (ZoneDemand → Bool) → Option ZoneDemand → Bool
flagged flag none = false
flagged flag (some z) = flag z

-- `zone_by_id[zone_id].flag`
abbrev pub zone_flag : (ZoneDemand → Bool) → List ZoneDemand → String → Bool
zone_flag flag zones id = flagged flag (last_with (λ z. str_eq z.zone_id id) zones)

-- `key in pairs`
unfoldable pub has_pair : List (String × String) → String → String → Bool
has_pair [] a b = false
has_pair ((c, d) ∷ ps) a b = (str_eq c a && str_eq d b) || has_pair ps a b

abbrev pub when : Bool → Constraint → List Constraint → List Constraint
when true c cs = c ∷ cs
when false c cs = cs

unfoldable pub fixings :
    List (String × String) → List (String × String) → List Variable → List Constraint
unfolding has_pair
fixings required incompatible [] = []
fixings required incompatible (v ∷ vs) =
    when (has_pair required v.zone_id v.intervention_id) (fixed v.index true) (
      when (has_pair incompatible v.zone_id v.intervention_id) (fixed v.index false)
        (fixings required incompatible vs))

abbrev pub capacity : List Variable → ZoneDemand → Constraint
capacity vs z =
    at_most (indices (keep (λ v. str_eq v.zone_id z.zone_id) vs))
      (natural z.implementation_capacity)

abbrev pub is_nonzero : ℤ → Bool
is_nonzero (pos n) = not (n == 0)
is_nonzero (negsuc n) = true

abbrev pub is_negative : ℤ → Bool
is_negative (pos n) = false
is_negative (negsuc n) = true
