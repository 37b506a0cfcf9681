-- ===== src/Portfolio/Request.antt =====
-- app/api/optimization.py: the request for a portfolio, and what refuses it.
use coolproof.Base.{
  ℕ, ◌+◌, ◌==◌, String, Bool, ◌&&◌, not, Option, none, some, List, [], ◌∷◌, keep, length, map,
  if◌then◌else◌, is_some,
}
use coolproof.Json.{Fields}
use coolproof.Failure.{Failure, api_error}
use coolproof.Db.Models.{Project, Zone}
use coolproof.Db.Evidence.{Intervention}
use coolproof.Db.Query.{scalar}
use coolproof.Db.Session.{Tables}
use coolproof.Auth.Tenancy.{TenantContext}
use coolproof.Agents.Grounding.Rows.{id_in}

pub record ZoneInput : Type 0 where
  pub zone_id : ℕ
  pub land_use : String
  pub equity_priority : Bool
  pub is_school : Bool
  pub exposure_score : ℕ
  pub implementation_capacity : ℕ

-- The catalogue's values replace the request's name, cost, score and land uses.
pub record InterventionInput : Type 0 where
  pub intervention_id : ℕ
  pub uncertainty : ℕ
  pub compatibility_group : Option String

-- The checks of pydantic have passed: minimums and capacities are natural numbers.
pub record OptimizeRequest : Type 0 where
  pub project_id : ℕ
  pub budget : ℕ
  pub zones : List ZoneInput
  pub interventions : List InterventionInput
  pub min_equity_units : ℕ
  pub min_school_units : ℕ
  pub uncertainty_penalty : ℕ
  pub required : List Fields
  pub incompatible : List Fields

-- `len(set(ids))`, and the length of a dict comprehension with these keys.
unfoldable pub set_size : List ℕ → ℕ
unfolding id_in
set_size [] = 0
set_size (i ∷ ids) = let rest = set_size ids in if id_in ids i then rest else rest + 1

-- `len(set(ids)) == len(ids)`
abbrev pub all_distinct : List ℕ → Bool
all_distinct ids = set_size ids == length ids

abbrev pub zone_ids : OptimizeRequest → List ℕ
zone_ids r = map (λ z. z.zone_id) r.zones

abbrev pub intervention_ids : OptimizeRequest → List ℕ
intervention_ids r = map (λ i. i.intervention_id) r.interventions

abbrev pub own_project : ℕ → TenantContext → Tables → Option Project
own_project project_id tenant t =
    scalar (λ r. r.id == project_id && r.organization_id == tenant.organization.id) t.projects

abbrev pub own_zones : List ℕ → ℕ → TenantContext → Tables → List Zone
own_zones ids project_id tenant t =
    keep
      (λ z.
        id_in ids z.id && z.project_id == project_id && z.organization_id == tenant.organization.id)
      t.zones

abbrev pub own_interventions : List ℕ → TenantContext → Tables → List Intervention
own_interventions ids tenant t =
    keep (λ i. id_in ids i.id && i.organization_id == tenant.organization.id && i.active)
      t.interventions

-- As many rows as ids.
abbrev pub all_found : List ℕ → List ℕ → Bool
all_found ids found = set_size found == length ids

-- The refusals before the solver is called, in the order of the code.
unfoldable pub optimize_refusal : OptimizeRequest → TenantContext → Tables → Option Failure
unfolding scalar keep id_in set_size
optimize_refusal r tenant t =
    if not (is_some (own_project r.project_id tenant t))
    then some (api_error 404 "project_not_found" "Project was not found")
    else if not (all_distinct (zone_ids r))
    then some (api_error 422 "duplicate_zone" "Each zone may appear only once")
    else if not
        (all_found (zone_ids r) (map (λ z. z.id) (own_zones (zone_ids r) r.project_id tenant t)))
    then some (api_error 404 "zone_not_found" "One or more project zones were not found")
    else if not (all_distinct (intervention_ids r))
    then some (api_error 422 "duplicate_intervention" "Each intervention may appear only once")
    else if not (
        all_found (intervention_ids r)
          (map (λ i. i.id) (own_interventions (intervention_ids r) tenant t)))
    then some
        (api_error 404 "intervention_not_found" "One or more active interventions were not found")
    else none
