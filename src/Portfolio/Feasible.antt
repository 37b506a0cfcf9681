-- ===== src/Portfolio/Feasible.antt =====
-- What a portfolio promises: the constraints of app/optimization/portfolio.py, read on the pairs of
-- zones and interventions that are allocated.
pub mod Declared
pub mod Chosen
pub mod Solution
use mathlib.Core.List.{Memᴰ}
use coolproof.Base.{
  ℕ, ◌≤◌, ◌<◌, ℤ, pos, String, str_eq, Bool, true, false, ◌&&◌, ◌≡◌, some, ◌⊎◌, List, keep, any,
  length, map, All,
}
use coolproof.Floats.{Floats, natural}
use coolproof.Platform.{Platform}
use coolproof.Portfolio.{
  InterventionSpec, ZoneDemand, Allocation, Constraint, costs_at_most, at_least, at_most, fixed,
  Program, Solver, Variable, eligible_in, spec_field, zone_flag, has_pair, is_nonzero,
}

abbrev pub Pair : Type 0
Pair = String × String

abbrev pub key : Allocation → Pair
key a = (a.zone_id, a.intervention_id)

abbrev pub is_pair : String → String → Pair → Bool
is_pair zone_id intervention_id k = str_eq k.0 zone_id && str_eq k.1 intervention_id

-- `if units:`
abbrev pub chosen : Floats → (ℕ → ℕ) → ℕ → Bool
chosen f solution i = is_nonzero (f.truncate (solution i))

module _ (f : Floats) (s : Solver) (solution : ℕ → ℕ) where
  -- What each constraint means of a solution.
  abbrev pub Meets : Constraint → Type 0
  Meets (costs_at_most terms budget) =
      s.fits (map (λ t. t.1) (keep (λ t. chosen f solution t.0) terms)) budget ≡ true
  Meets (at_least is n) = natural n ≤ length (keep (chosen f solution) is)
  Meets (at_most is n) = length (keep (chosen f solution) is) ≤ n
  Meets (fixed i b) = chosen f solution i ≡ b

-- What OR-Tools documents of a solution that is optimal or feasible: the Boolean variables are 0 or 1,
-- and every constraint that was added holds.
pub record IsSolver (f : Floats) (s : Solver) : Type 0 where
  pub boolean :
      (prog : Program) (solution : ℕ → ℕ) (i : ℕ)
      → s.solve prog ≡ some solution
      → i < prog.variables
      → (f.truncate (solution i) ≡ pos 0) ⊎ (f.truncate (solution i) ≡ pos 1)
  pub meets :
      (prog : Program) (solution : ℕ → ℕ)
      → s.solve prog ≡ some solution
      → All (Meets f s solution) prog.constraints

-- The pair is that of a zone and an intervention of the request, and the intervention is eligible there.
abbrev pub IsEligible :
    Platform → List ZoneDemand → List InterventionSpec → String → String → Type 0
IsEligible p zones interventions zone_id intervention_id =
    (z : ZoneDemand) × (i : InterventionSpec) × Memᴰ z zones
    × Memᴰ i interventions
    × (eligible_in p z i ≡ true)
    × (z.zone_id ≡ zone_id)
    × (i.intervention_id ≡ intervention_id)

pub record IsFeasible (p : Platform) (s : Solver) (zones : List ZoneDemand)
    (interventions : List InterventionSpec) (budget : ℕ) (min_equity min_school : ℤ)
    (required incompatible : List Pair) (pairs : List Pair) : Type 0 where
  pub eligible : All (λ k. IsEligible p zones interventions k.0 k.1) pairs
  pub within_budget :
      s.fits (map (λ k. spec_field (λ i. i.unit_cost) interventions k.1) pairs) budget ≡ true
  pub equity :
      natural min_equity ≤ length (keep (λ k. zone_flag (λ z. z.equity_priority) zones k.0) pairs)
  pub school :
      natural min_school ≤ length (keep (λ k. zone_flag (λ z. z.is_school) zones k.0) pairs)
  pub capacity :
      All
        (λ z. length (keep (λ k. str_eq k.0 z.zone_id) pairs) ≤ natural z.implementation_capacity)
        zones
  pub permitted : All (λ k. has_pair incompatible k.0 k.1 ≡ false) pairs
  pub required_pairs :
      All
        (λ z.
          All
            (λ i.
              eligible_in p z i ≡ true
              → has_pair required z.zone_id i.intervention_id ≡ true
              → any (is_pair z.zone_id i.intervention_id) pairs ≡ true)
            interventions)
        zones
