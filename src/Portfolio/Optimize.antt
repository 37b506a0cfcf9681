-- ===== src/Portfolio/Optimize.antt =====
-- optimize_portfolio of app/optimization/portfolio.py, and validated_cost of
-- app/services/interventions.py.
use coolproof.Base.{
  ℕ, ℤ, String, str_eq, Bool, ◌&&◌, ◌||◌, not, Option, none, some, List, [], ◌∷◌, ◌++◌, keep, any,
  map, if◌then◌else◌,
}
use coolproof.Json.{Fields, str, dict}
use coolproof.Floats.{Floats, at_least_zero}
use coolproof.Platform.{Platform}
use coolproof.Failure.{Result, ok, err, value_error, stop_iteration, ◌>>=◌}
use coolproof.Portfolio.{
  InterventionSpec, ZoneDemand, Allocation, PortfolioResult, Constraint, costs_at_most, at_least,
  Program, Solver, Variable, first_with, eligible_in, declare_all, indices, spec_field, zone_flag,
  fixings, capacity, is_nonzero, is_negative,
}

-- 0.01 as a float.
abbrev cent : ℕ
cent = 4_576_918_229_304_087_675

abbrev pub is_for : Variable → Allocation → Bool
is_for v a = str_eq a.zone_id v.zone_id && str_eq a.intervention_id v.intervention_id

module _ (f : Floats) (p : Platform) where
  unfoldable pub validated_cost : InterventionSpec → ℤ → Result ℕ
  validated_cost spec units =
      if is_negative units
      then err (value_error "units cannot be negative")
      else if f.le spec.unit_cost 0 || f.lt spec.cooling_score 0
      then err (value_error "intervention costs and scores must be valid")
      else ok (f.round (f.mul spec.unit_cost (f.of_int units)) 2)

  abbrev pub uncertainty_of : List InterventionSpec → String → ℕ
  uncertainty_of = spec_field (λ i. at_least_zero f i.uncertainty)

  abbrev pub objective_of : List InterventionSpec → ℕ → Variable → ℕ × ℕ
  objective_of interventions penalty v = (
    v.index,
    f.sub (spec_field (λ i. i.cooling_score) interventions v.intervention_id)
        (f.mul penalty (uncertainty_of interventions v.intervention_id)),
  )

  abbrev pub weighed : List InterventionSpec → Variable → ℕ × ℕ
  weighed interventions v = (v.index, spec_field (λ i. i.unit_cost) interventions v.intervention_id)

  module _ (zones : List ZoneDemand) (interventions : List InterventionSpec)
      (required incompatible : List (String × String)) where
    abbrev pub counted : (ZoneDemand → Bool) → List Variable → List ℕ
    counted flag vs = indices (keep (λ v. zone_flag flag zones v.zone_id) vs)

    abbrev pub constraints_of : ℕ → ℤ → ℤ → List Variable → List Constraint
    constraints_of budget min_equity min_school vs =
        costs_at_most (map (weighed interventions) vs) budget
        ∷ at_least (counted (λ z. z.equity_priority) vs) min_equity
        ∷ at_least (counted (λ z. z.is_school) vs) min_school
        ∷ (map (capacity vs) zones ++ fixings required incompatible vs)

    abbrev pub program_of : ℕ → ℤ → ℤ → ℕ → List Variable × ℕ → Program
    program_of budget min_equity min_school penalty (vs, n) = record {
      variables = n;
      constraints = constraints_of budget min_equity min_school vs;
      objective = map (objective_of interventions penalty) vs;
    }

    unfoldable pub program : ℕ → ℤ → ℤ → ℕ → Program
    unfolding declare_all keep fixings
    program budget min_equity min_school penalty =
        program_of budget min_equity min_school penalty (declare_all p zones interventions ([], 0))

  abbrev pub spec_of : Option InterventionSpec → Result InterventionSpec
  spec_of none = err stop_iteration
  spec_of (some spec) = ok spec

  abbrev pub allocate : List InterventionSpec → Variable → ℤ → Result Allocation
  allocate interventions v units =
      spec_of (first_with (λ i. str_eq i.intervention_id v.intervention_id) interventions)
      >>= λ spec. validated_cost spec units >>= λ cost. ok (record {
        zone_id = v.zone_id;
        intervention_id = v.intervention_id;
        units = units;
        cost = cost;
        benefit = f.mul spec.cooling_score (f.of_int units);
        uncertainty = f.mul (uncertainty_of interventions v.intervention_id) (f.of_int units);
      })

  -- The loop over the variables; `solution` is `solution_value()` of each.
  unfoldable pub allocations_of :
      List InterventionSpec → (ℕ → ℕ) → List Variable → Result (List Allocation)
  unfolding first_with validated_cost
  allocations_of interventions solution [] = ok []
  allocations_of interventions solution (v ∷ vs) =
      let rest = allocations_of interventions solution vs in
      let units = f.truncate (solution v.index) in
      if is_nonzero units
      then (allocate interventions v units >>= λ a. rest >>= λ as_. ok (a ∷ as_))
      else rest

  abbrev pub rejection : List Allocation → ZoneDemand → InterventionSpec → List Fields → List Fields
  rejection allocations z i rest =
      if eligible_in p z i
        && not (
            any (λ a. str_eq a.zone_id z.zone_id && str_eq a.intervention_id i.intervention_id)
              allocations)
      then dict (("zone_id", str z.zone_id) ∷ ("reason", str "not_selected") ∷ []) ∷ rest
      else rest

  unfoldable pub rejected_in : List Allocation → ZoneDemand → List InterventionSpec → List Fields
  unfolding any
  rejected_in allocations z [] = []
  rejected_in allocations z (i ∷ is) = rejection allocations z i (rejected_in allocations z is)

  unfoldable pub rejected_of :
      List Allocation → List ZoneDemand → List InterventionSpec → List Fields
  unfolding rejected_in
  rejected_of allocations [] is = []
  rejected_of allocations (z ∷ zs) is =
      rejected_in allocations z is ++ rejected_of allocations zs is

  abbrev pub binding_of : Bool → String → List String → List String
  binding_of holds name rest = if holds then name ∷ rest else rest

  abbrev pub result_of :
      List ZoneDemand → List InterventionSpec → ℕ → ℤ → ℤ → List Allocation → PortfolioResult
  result_of zones interventions budget min_equity min_school allocations =
      let cost = f.total (map (λ a. a.cost) allocations) in
      record {
        allocations = allocations;
        total_cost = f.round cost 2;
        total_benefit = f.round (f.total (map (λ a. a.benefit) allocations)) 4;
        total_uncertainty = f.round (f.total (map (λ a. a.uncertainty) allocations)) 4;
        remaining_budget = f.round (f.sub budget cost) 2;
        rejected = rejected_of allocations zones interventions;
        binding_constraints = binding_of (f.lt (f.magnitude (f.sub cost budget)) cent) "budget" (
            binding_of (is_nonzero min_equity) "equity_minimum"
              (binding_of (is_nonzero min_school) "school_minimum" []));
      }

  abbrev pub solved : Option (ℕ → ℕ) → Result (ℕ → ℕ)
  solved none = err (value_error "constraints are infeasible")
  solved (some solution) = ok solution

  -- OR-Tools is installed and has the SCIP solver.
  unfoldable pub optimize_portfolio :
      Solver
      → List ZoneDemand
      → List InterventionSpec
      → ℕ
      → ℤ
      → ℤ
      → ℕ
      → List (String × String)
      → List (String × String)
      → Result PortfolioResult
  unfolding program allocations_of rejected_of declare_all
  optimize_portfolio s zones interventions budget min_equity min_school penalty required
        incompatible =
      if f.lt budget 0 || is_negative min_equity || is_negative min_school
      then err (value_error "budget and minimums cannot be negative")
      else if f.lt penalty 0
      then err (value_error "uncertainty_penalty cannot be negative")
      else (solved (
            s.solve (
              program zones interventions required incompatible budget min_equity min_school
                penalty))
          >>= λ solution.
              allocations_of interventions solution (declare_all p zones interventions ([], 0)).0
              >>= λ allocations.
                  ok (result_of zones interventions budget min_equity min_school allocations))
