-- ===== src/Portfolio/Feasible/Solution.antt =====
-- A portfolio that is given meets every constraint of the request.
use mathlib.Core.List.{Memᴰ}
use coolproof.Base.{
  ℕ, ℤ, pos, String, str_eq, Bool, true, false, ◌||◌, ◌≡◌, refl, sym, ap, some, List, [], ◌∷◌, ◌++◌,
  map, All, All-In, All-imp, none, Option, if◌then◌else◌,
}
use coolproof.Floats.{Floats}
use coolproof.Platform.{Platform}
use coolproof.Failure.{Result, ok, err, value_error, ◌>>=◌, >>=-eq-ok, ok-injective, err≢ok}
use coolproof.Portfolio.{
  InterventionSpec, ZoneDemand, Allocation, PortfolioResult, Program, Solver, Variable, Declared,
  declare_all, spec_field, zone_flag, capacity, is_negative,
}
use coolproof.Portfolio.Optimize.{
  program, constraints_of, solved, allocations_of, result_of, optimize_portfolio,
}
use coolproof.Portfolio.Feasible.{Pair, key, Meets, IsSolver, IsEligible, IsFeasible}
use coolproof.Portfolio.Feasible.Declared.{
  AllDeclared, OfEligible, declare_all-AllDeclared, declare_all_complete,
}
use coolproof.Portfolio.Feasible.Chosen.{
  chosen_pairs, key-allocations_of, units-allocations_of, count_chosen, costs_chosen,
  All-chosen_pairs, permitted_chosen, required_chosen,
}

All-append-inv {ℓ κ} :
    {A : Type ℓ} (P : A → Type κ) (xs ys : List A) → All P (xs ++ ys) → All P xs × All P ys
All-append-inv P [] ys h = (tt, h)
All-append-inv P (x ∷ xs) ys h = let (hx, hy) = All-append-inv P xs ys h.1 in ((h.0, hx), hy)

All-of_map {ℓ κ ι} :
    {A : Type ℓ} {B : Type κ} (P : B → Type ι) (g : A → B) (xs : List A)
    → All P (map g xs)
    → All (λ x. P (g x)) xs
All-of_map P g [] h = tt
All-of_map P g (x ∷ xs) h = (h.0, All-of_map P g xs h.1)

module _ (p : Platform) (zones : List ZoneDemand) (interventions : List InterventionSpec) where
  of_eligible : All (λ z. OfEligible p (IsEligible p zones interventions) z interventions) zones
  of_eligible =
      All-imp (λ z. Memᴰ z zones) _ zones
        (λ z hz.
          All-imp (λ i. Memᴰ i interventions) _ interventions
            (λ i hi e. (z, i, hz, hi, e, refl, refl)) (All-In interventions))
        (All-In zones)

  abbrev declared : Declared
  declared = declare_all p zones interventions ([], 0)

  declared_lem : AllDeclared (IsEligible p zones interventions) declared
  declared_lem =
      declare_all-AllDeclared p (IsEligible p zones interventions) zones interventions ([], 0)
        of_eligible tt

module _ (f : Floats) (p : Platform) (s : Solver) (zones : List ZoneDemand)
    (interventions : List InterventionSpec) (budget : ℕ) (min_equity min_school : ℤ)
    (required incompatible : List Pair) (solution : ℕ → ℕ) where
  -- What the constraints say of the chosen pairs.
  met-IsFeasible :
      All (Meets f s solution) (
        constraints_of f p zones interventions required incompatible budget min_equity min_school
          (declared p zones interventions).0)
      → IsFeasible p s zones interventions budget min_equity min_school required incompatible
          (chosen_pairs f solution (declared p zones interventions).0)
  met-IsFeasible (costs, (equity, (school, more))) =
      let vs : List Variable = (declared p zones interventions).0 in
      let (capacities, fixed_pairs) =
        All-append-inv (Meets f s solution) (map (capacity vs) zones) _ more in
      record {
        eligible =
            All-chosen_pairs f solution (λ k. IsEligible p zones interventions k.0 k.1) vs
              (All-imp _ _ vs (λ v h. h.0) (declared_lem p zones interventions));
        within_budget =
            rw (← costs_chosen f solution (spec_field (λ i. i.unit_cost) interventions) vs) costs;
        equity =
            rw (← count_chosen f solution (λ k. zone_flag (λ z. z.equity_priority) zones k.0) vs)
              equity;
        school =
            rw (← count_chosen f solution (λ k. zone_flag (λ z. z.is_school) zones k.0) vs) school;
        capacity =
            All-imp _ _ zones
              (λ z h. rw (← count_chosen f solution (λ k. str_eq k.0 z.zone_id) vs) h)
              (All-of_map (Meets f s solution) (capacity vs) zones capacities);
        permitted = permitted_chosen f s solution required incompatible vs fixed_pairs;
        required_pairs =
            All-imp _ _ zones
              (λ z hz.
                All-imp _ _ interventions
                  (λ i hi e r.
                    required_chosen f s solution required incompatible z.zone_id i.intervention_id
                      vs fixed_pairs r (hi e))
                  hz)
              (declare_all_complete p zones interventions ([], 0));
      }

guarded {ℓ} :
    {A : Type ℓ} (a b : Bool) (r : Result A) (x : A)
    → (if a
        then err (value_error "budget and minimums cannot be negative")
        else if b
        then err (value_error "uncertainty_penalty cannot be negative")
        else r)
      ≡ ok x
    → r ≡ ok x
guarded true b r x h = absurd (err≢ok h)
guarded false true r x h = absurd (err≢ok h)
guarded false false r x h = h

solved-some :
    (f : Floats) (p : Platform) (o : Option (ℕ → ℕ)) (solution : ℕ → ℕ)
    → solved f p o ≡ ok solution
    → o ≡ some solution
solved-some f p none solution h = absurd (err≢ok h)
solved-some f p (some v) solution h = ap some (ok-injective h)

module _ (f : Floats) (p : Platform) (s : Solver) (zones : List ZoneDemand)
    (interventions : List InterventionSpec) (budget : ℕ) (min_equity min_school : ℤ) (penalty : ℕ)
    (required incompatible : List Pair) where
  abbrev asked : Program
  asked = program f p zones interventions required incompatible budget min_equity min_school penalty

  -- A portfolio that is given comes from a solution of its program.
  solution_of :
      (result : PortfolioResult)
      → optimize_portfolio f p s zones interventions budget min_equity min_school penalty required
          incompatible
        ≡ ok result
      → (solution : ℕ → ℕ) × (as_ : List Allocation) × (s.solve asked ≡ some solution)
        × (allocations_of f p interventions solution (declared p zones interventions).0 ≡ ok as_)
        × (result ≡ result_of f p zones interventions budget min_equity min_school as_)
  unfolding optimize_portfolio
  solution_of result h =
      let vs : List Variable = (declared p zones interventions).0 in
      let finish : List Allocation → Result PortfolioResult =
        λ as_. ok (result_of f p zones interventions budget min_equity min_school as_) in
      let (solution, found, filled) =
        >>=-eq-ok (solved f p (s.solve asked))
          (λ v. allocations_of f p interventions v vs >>= finish)
          (guarded (f.lt budget 0 || is_negative min_equity || is_negative min_school)
            (f.lt penalty 0) _ _ h) in
      let (as_, allocated, built) =
        >>=-eq-ok (allocations_of f p interventions solution vs) finish filled in
      (solution, as_, solved-some f p _ solution found, allocated, sym (ok-injective built))

-- If the solver's solutions meet what was added to it, then a portfolio that is given is feasible on the
-- pairs that it allocates, and allocates one unit of each: the pairs are eligible, their costs fit the
-- budget, the minimums for equity and schools and each zone's capacity are kept, no incompatible pair
-- is among them, and every required pair that is eligible is.
pub optimize_portfolio-IsFeasible :
    (f : Floats) (p : Platform) (s : Solver) (zones : List ZoneDemand)
    (interventions : List InterventionSpec) (budget : ℕ) (min_equity min_school : ℤ) (penalty : ℕ)
    (required incompatible : List Pair) (result : PortfolioResult)
    → IsSolver f s
    → optimize_portfolio f p s zones interventions budget min_equity min_school penalty required
        incompatible
      ≡ ok result
    → IsFeasible p s zones interventions budget min_equity min_school required incompatible
        (map key result.allocations)
      × All (λ a. a.units ≡ pos 1) result.allocations
unfolding program
optimize_portfolio-IsFeasible f p s zones interventions budget min_equity min_school penalty
      required incompatible result law h =
    let vs : List Variable = (declared p zones interventions).0 in
    let (solution, as_, solves, allocated, same) =
      solution_of f p s zones interventions budget min_equity min_school penalty required
        incompatible result h in
    rw same (
      rw (key-allocations_of f p interventions solution vs as_ allocated) (
          met-IsFeasible f p s zones interventions budget min_equity min_school required
            incompatible solution (law.meets _ solution solves)),
      units-allocations_of f p interventions solution vs as_
          (All-imp _ _ vs (λ v g. law.boolean _ solution v.index solves g.1)
            (declared_lem p zones interventions))
          allocated,
    )

-- Whatever holds of the eligible pairs holds of those that are allocated, whatever the solver answers.
pub optimize_portfolio-pairs {κ} :
    (E : String → String → Type κ) (f : Floats) (p : Platform) (s : Solver)
    (zones : List ZoneDemand) (interventions : List InterventionSpec) (budget : ℕ)
    (min_equity min_school : ℤ) (penalty : ℕ) (required incompatible : List Pair)
    (result : PortfolioResult)
    → All (λ z. OfEligible p E z interventions) zones
    → optimize_portfolio f p s zones interventions budget min_equity min_school penalty required
        incompatible
      ≡ ok result
    → All (λ a. E a.zone_id a.intervention_id) result.allocations
optimize_portfolio-pairs E f p s zones interventions budget min_equity min_school penalty required
      incompatible result e h =
    let vs : List Variable = (declared p zones interventions).0 in
    let (solution, as_, solves, allocated, same) =
      solution_of f p s zones interventions budget min_equity min_school penalty required
        incompatible result h in
    let chosen_ok : All (λ (k : Pair). E k.0 k.1) (chosen_pairs f solution vs) =
      All-chosen_pairs f solution (λ (k : Pair). E k.0 k.1) vs
        (All-imp _ _ vs (λ v g. g.0)
          (declare_all-AllDeclared p E zones interventions ([], 0) e tt)) in
    rw same (
      All-of_map (λ (k : Pair). E k.0 k.1) key as_
        (rw (key-allocations_of f p interventions solution vs as_ allocated) chosen_ok))
