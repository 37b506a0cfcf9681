-- ===== src/Tests/Portfolio.antt =====
-- The theorems on portfolios at two zones and one intervention.
use coolproof.Base.{◌≡◌, refl, true, false, none, List, [], ◌∷◌, pos, map, All, keep, any}
use coolproof.Json.{str, dict, end}
use coolproof.Failure.{ok}
use coolproof.Db.Models.{Project, Zone}
use coolproof.Db.Evidence.{Intervention}
use coolproof.Db.Session.{Session, open_session}
use coolproof.Portfolio.{InterventionSpec, ZoneDemand, PortfolioResult, last_with}
use coolproof.Interventions.{is_eligible}
use coolproof.Portfolio.Optimize.{optimize_portfolio}
use coolproof.Portfolio.Feasible.{Pair, IsFeasible}
use coolproof.Portfolio.Feasible.Solution.{optimize_portfolio-IsFeasible}
use coolproof.Portfolio.Request.{OptimizeRequest}
use coolproof.Portfolio.Api.{optimize}
use coolproof.Portfolio.Api.Placed.{SessionPlaced, optimize-SessionPlaced}
use coolproof.Tests.Data.{plain, plain-IsFaithful, boss, staffed}
use coolproof.Tests.Solver.{whole, exhaustive, exhaustive-IsSolver, solve_all}

abbrev park : ZoneDemand
park = record {
  zone_id = "a";
  land_use = "park";
  equity_priority = true;
  is_school = false;
  exposure_score = 3;
  implementation_capacity = pos 1;
}

abbrev yard : ZoneDemand
yard = record {
  zone_id = "b";
  land_use = "park";
  equity_priority = false;
  is_school = true;
  exposure_score = 2;
  implementation_capacity = pos 1;
}

abbrev planting : InterventionSpec
planting = record {
  intervention_id = "t";
  name = "Trees";
  unit_cost = 10;
  cooling_score = 3;
  eligible_land_uses = "park" ∷ [];
  uncertainty = 0;
  compatibility_group = none;
}

abbrev zones : List ZoneDemand
zones = park ∷ yard ∷ []

abbrev excluded : List Pair
excluded = ("b", "t") ∷ []

-- Money for one planting, which the park needs and the yard must not have.
abbrev planned : PortfolioResult
planned = record {
  allocations =
      record {
        zone_id = "a";
        intervention_id = "t";
        units = pos 1;
        cost = 10;
        benefit = 3;
        uncertainty = 0;
      }
      ∷ [];
  total_cost = 10;
  total_benefit = 3;
  total_uncertainty = 0;
  remaining_budget = 5;
  rejected = dict (("zone_id", str "b") ∷ ("reason", str "not_selected") ∷ []) ∷ [];
  binding_constraints = "budget" ∷ "equity_minimum" ∷ [];
}

planned_lem :
    optimize_portfolio whole plain exhaustive zones (planting ∷ []) 15 (pos 1) (pos 0) 0 [] excluded
    ≡ ok planned
unfolding optimize_portfolio solve_all keep any is_eligible last_with
planned_lem = refl

optimize_portfolio-IsFeasible_example :
    IsFeasible plain exhaustive zones
      (planting ∷ [])
      15
      (pos 1)
      (pos 0)
      []
      excluded
      (("a", "t") ∷ [])
    × All (λ a. a.units ≡ pos 1) planned.allocations
optimize_portfolio-IsFeasible_example =
    optimize_portfolio-IsFeasible whole plain exhaustive zones (planting ∷ []) 15 (pos 1) (pos 0) 0
      [] excluded planned exhaustive-IsSolver planned_lem

abbrev trees : Intervention
trees = record {
  id = 2;
  organization_id = 1;
  name = "Trees";
  category = "green";
  unit_cost = 10;
  cooling_score = 3;
  eligible_land_uses = "park" ∷ [];
  evidence_document_id = none;
  active = true;
}

abbrev project : Project
project = record { id = 1; organization_id = 1; name = "P"; description = none; created_at = 1 }

abbrev square : Zone
square = record { id = 3; organization_id = 1; project_id = 1; name = "Square"; geometry = end }

abbrev planning : Session
planning =
    open_session
      (record staffed { projects = project ∷ []; zones = square ∷ []; interventions = trees ∷ [] })

abbrev wish : OptimizeRequest
wish = record {
  project_id = 1;
  budget = 20;
  zones =
      record {
        zone_id = 3;
        land_use = "park";
        equity_priority = true;
        is_school = false;
        exposure_score = 1;
        implementation_capacity = 1;
      }
      ∷ [];
  interventions = record { intervention_id = 2; uncertainty = 0; compatibility_group = none } ∷ [];
  min_equity_units = 1;
  min_school_units = 0;
  uncertainty_penalty = 0;
  required = [];
  incompatible = [];
}

abbrev portfolio_session : Session
portfolio_session = (optimize whole plain exhaustive 9 50 boss wish planning).1

optimize-SessionPlaced_example : SessionPlaced portfolio_session
optimize-SessionPlaced_example =
    optimize-SessionPlaced whole plain plain-IsFaithful exhaustive 9 50 wish boss planning (tt, tt)

-- One allocation is stored, of the zone and the intervention that were asked for.
stored_allocations : map (λ a. a.zone_id) portfolio_session.durable.portfolio_allocations ≡ 3 ∷ []
unfolding optimize solve_all last_with is_eligible
stored_allocations = refl
