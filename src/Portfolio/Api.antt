-- ===== src/Portfolio/Api.antt =====
-- app/api/optimization.py: portfolios of a project, and the rows that they leave.
mod Named
pub mod Placed
use coolproof.Base.{
  ℕ, zero, suc, ◌==◌, ℤ, pos, String, Bool, true, false, ◌&&◌, not, Option, none, some, List, [],
  ◌∷◌, ◌++◌, keep, length, map, if◌then◌else◌, is_some,
}
use coolproof.Json.{
  Value, null, int, float, str, uuid, arr, obj, Fields, get, dict, put, items_of, optional_text,
}
use coolproof.Floats.{Floats}
use coolproof.Platform.{Platform}
use coolproof.Failure.{Failure, Result, ok, err, api_error, value_error, key_error, ◌>>=◌}
use coolproof.Db.Models.{Project, Zone}
use coolproof.Db.Evidence.{Intervention, PortfolioRun, PortfolioAllocation}
use coolproof.Db.Query.{scalar, ascending}
use coolproof.Db.Session.{Session, Tables, commit, close}
use coolproof.Auth.Tenancy.{TenantContext, require_tenant_roles}
use coolproof.Agents.Api.{Reply, for_tenant, readers, writers}
use coolproof.Agents.Grounding.Rows.{id_in}
use coolproof.Portfolio.{
  InterventionSpec, ZoneDemand, Allocation, PortfolioResult, Solver, last_with,
}
use coolproof.Portfolio.Request.{
  ZoneInput, InterventionInput, OptimizeRequest, intervention_ids, own_interventions,
  optimize_refusal,
}
use coolproof.Portfolio.Optimize.{optimize_portfolio}

-- `UUID(text)`, or its ValueError.
abbrev pub or_value_error : Option ℕ → Result ℕ
or_value_error none = err (value_error "badly formed hexadecimal UUID string")
or_value_error (some u) = ok u

module _ (f : Floats) (p : Platform) where
  abbrev pub show : ℕ → String
  show u = p.to_text (uuid u)

  abbrev pub demand : ZoneInput → ZoneDemand
  demand z = record {
    zone_id = show z.zone_id;
    land_use = z.land_use;
    equity_priority = z.equity_priority;
    is_school = z.is_school;
    exposure_score = z.exposure_score;
    implementation_capacity = pos z.implementation_capacity;
  }

  -- `interventions_by_id[item.intervention_id]`, with a KeyError where it is missing.
  abbrev pub spec_from : InterventionInput → Option Intervention → Result InterventionSpec
  spec_from item none = err key_error
  spec_from item (some row) = ok (record {
    intervention_id = show item.intervention_id;
    name = row.name;
    unit_cost = row.unit_cost;
    cooling_score = row.cooling_score;
    eligible_land_uses = row.eligible_land_uses;
    uncertainty = item.uncertainty;
    compatibility_group = item.compatibility_group;
  })

  unfoldable pub specs_from :
      List InterventionInput → List Intervention → Result (List InterventionSpec)
  unfolding last_with
  specs_from [] rows = ok []
  specs_from (item ∷ items) rows =
      let rest = specs_from items rows in
      spec_from item (last_with (λ i. i.id == item.intervention_id) rows) >>= λ spec.
      rest >>= λ specs. ok (spec ∷ specs)

  -- `str(x[key])`
  abbrev pub text_at : Option Value → Result String
  text_at none = err key_error
  text_at (some v) = ok (p.to_text v)

  unfoldable pub pairs_from : List Fields → Result (List (String × String))
  unfolding get
  pairs_from [] = ok []
  pairs_from (x ∷ xs) =
      let rest = pairs_from xs in
      text_at (get "zone_id" x) >>= λ z.
      text_at (get "intervention_id" x) >>= λ i. rest >>= λ ps. ok ((z, i) ∷ ps)

  -- The call of the optimiser, its arguments in the order of the code.
  unfoldable pub optimized :
      Solver → OptimizeRequest → TenantContext → Tables → Result PortfolioResult
  unfolding specs_from pairs_from optimize_portfolio keep
  optimized s r tenant t =
      specs_from r.interventions (own_interventions (intervention_ids r) tenant t) >>= λ specs.
      pairs_from r.required >>= λ required. pairs_from r.incompatible >>= λ incompatible.
      optimize_portfolio f p s (map demand r.zones) specs r.budget (pos r.min_equity_units)
        (pos r.min_school_units) r.uncertainty_penalty required incompatible

  -- `allocation.__dict__`
  abbrev pub allocation_out : Allocation → Value
  allocation_out a = obj (
      dict (
        ("zone_id", str a.zone_id)
        ∷ ("intervention_id", str a.intervention_id)
        ∷ ("units", int a.units)
        ∷ ("cost", float a.cost)
        ∷ ("benefit", float a.benefit)
        ∷ ("uncertainty", float a.uncertainty)
        ∷ []))

  abbrev pub portfolio_out : PortfolioResult → Fields
  portfolio_out result = dict (
      ("status", str "completed")
      ∷ ("total_cost", float result.total_cost)
      ∷ ("total_benefit", float result.total_benefit)
      ∷ ("total_uncertainty", float result.total_uncertainty)
      ∷ ("remaining_budget", float result.remaining_budget)
      ∷ ("rejected", arr (items_of (map obj result.rejected)))
      ∷ ("binding_constraints", arr (items_of (map str result.binding_constraints)))
      ∷ ("allocations", arr (items_of (map allocation_out result.allocations)))
      ∷ [])

  abbrev pub parsed : String → Result ℕ
  parsed s = or_value_error (p.parse_uuid s)

  abbrev pub allocation_row : ℕ → TenantContext → ℕ → Allocation → ℕ → ℕ → PortfolioAllocation
  allocation_row now tenant run_id a zone_id intervention_id = record {
    organization_id = tenant.organization.id;
    portfolio_run_id = run_id;
    zone_id = zone_id;
    intervention_id = intervention_id;
    quantity = a.units;
    cost = a.cost;
    created_at = now;
  }

  -- The rows that are added for the allocations.
  unfoldable pub allocation_rows :
      ℕ → TenantContext → ℕ → List Allocation → Result (List PortfolioAllocation)
  allocation_rows now tenant run_id [] = ok []
  allocation_rows now tenant run_id (a ∷ as_) =
      let rest = allocation_rows now tenant run_id as_ in
      parsed a.zone_id >>= λ z. parsed a.intervention_id >>= λ i.
      rest >>= λ rows. ok (allocation_row now tenant run_id a z i ∷ rows)

  abbrev pub new_portfolio :
      ℕ → ℕ → TenantContext → OptimizeRequest → PortfolioResult → PortfolioRun
  new_portfolio id now tenant r result = record {
    id = id;
    organization_id = tenant.organization.id;
    project_id = some r.project_id;
    budget = r.budget;
    status = "completed";
    result_json = obj (portfolio_out result);
    created_at = now;
  }

  abbrev pub with_portfolio : PortfolioRun → List PortfolioAllocation → Session → Session
  with_portfolio run rows s =
      let t = s.tables in
      record s {
        tables = record t {
          portfolio_runs = t.portfolio_runs ++ (run ∷ []);
          portfolio_allocations = t.portfolio_allocations ++ rows;
        };
      }

  -- The rows are committed together; an exception loses them all.
  abbrev pub stored :
      OptimizeRequest
      → PortfolioRun
      → PortfolioResult
      → Result (List PortfolioAllocation)
      → Session
      → Reply Fields
  stored r run result (err failure) s = (err failure, close s)
  stored r run result (ok rows) s = (
    ok (
        put "portfolio_run_id" (str (show run.id))
          (put "project_id" (str (show r.project_id)) (portfolio_out result))),
    commit (with_portfolio run rows s),
  )

  abbrev pub saved :
      ℕ → ℕ → OptimizeRequest → TenantContext → Result PortfolioResult → Session → Reply Fields
  saved id now r tenant (err failure) s = (err failure, s)
  saved id now r tenant (ok result) s =
      stored r (new_portfolio id now tenant r result) result
        (allocation_rows now tenant id result.allocations) s

  abbrev pub unless_refused : Option Failure → Session → Reply Fields → Reply Fields
  unless_refused (some failure) s reply = (err failure, s)
  unless_refused none s reply = reply

  -- `id` and `now` are what the database gives the new rows.
  unfoldable pub optimize :
      Solver → ℕ → ℕ → TenantContext → OptimizeRequest → Session → Reply Fields
  unfolding optimize_refusal optimized allocation_rows put require_tenant_roles
  optimize solver id now tenant r = for_tenant writers tenant (λ t s.
      unless_refused (optimize_refusal r t s.tables) s
        (saved id now r t (optimized solver r t s.tables) s))

abbrev pub own_run : ℕ → TenantContext → Session → Option PortfolioRun
own_run run_id tenant s =
    scalar (λ r. r.id == run_id && r.organization_id == tenant.organization.id)
      s.tables.portfolio_runs

abbrev pub own_allocations : PortfolioRun → TenantContext → Session → List PortfolioAllocation
own_allocations run tenant s =
    ascending (λ a. a.created_at)
      (keep (λ a. a.portfolio_run_id == run.id && a.organization_id == tenant.organization.id)
        s.tables.portfolio_allocations)

module _ (p : Platform) where
  abbrev pub row_out : PortfolioAllocation → Value
  row_out a = obj (
      dict (
        ("zone_id", str (p.to_text (uuid a.zone_id)))
        ∷ ("intervention_id", str (p.to_text (uuid a.intervention_id)))
        ∷ ("units", int a.quantity)
        ∷ ("cost", float a.cost)
        ∷ []))

  abbrev pub project_out : Option ℕ → Value
  project_out none = null
  project_out (some id) = str (p.to_text (uuid id))

  abbrev pub run_out : PortfolioRun → List PortfolioAllocation → Fields
  run_out run rows = dict (
      ("portfolio_run_id", str (p.to_text (uuid run.id)))
      ∷ ("project_id", project_out run.project_id)
      ∷ ("budget", float run.budget)
      ∷ ("status", str run.status)
      ∷ ("result", run.result_json)
      ∷ ("allocations", arr (items_of (map row_out rows)))
      ∷ [])

  abbrev pub shown : TenantContext → Session → Option PortfolioRun → Reply Fields
  shown tenant s none =
      (err (api_error 404 "portfolio_run_not_found" "Portfolio run was not found"), s)
  shown tenant s (some run) = (ok (run_out run (own_allocations run tenant s)), s)

  unfoldable pub get_portfolio_run : ℕ → TenantContext → Session → Reply Fields
  unfolding scalar keep ascending require_tenant_roles
  get_portfolio_run run_id tenant =
      for_tenant readers tenant (λ t s. shown t s (own_run run_id t s))
