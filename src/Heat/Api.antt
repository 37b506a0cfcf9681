-- ===== src/Heat/Api.antt =====
-- app/api/heat.py: the two endpoints on heat analyses.
use coolproof.Base.{
  ℕ, ◌==◌, leb, String, Bool, true, false, ◌&&◌, Option, none, some, is_some, [], ◌∷◌,
  if◌then◌else◌,
}
use coolproof.Json.{Value, null, bool, str, obj, uuid, Fields, dict, optional_text}
use coolproof.Platform.{Platform}
use coolproof.Failure.{Failure, Result, ok, err, api_error, forty_guard_error}
use coolproof.Audit.{record_audit_event}
use coolproof.Auth.Claims.{present}
use coolproof.Db.Models.{HeatAnalysis, heat_status_value, Project, Zone}
use coolproof.Db.Query.{scalar}
use coolproof.Db.Session.{Session, commit}
use coolproof.Auth.Tenancy.{TenantContext, require_tenant_roles}
use coolproof.Agents.Api.{Reply, for_tenant, readers, writers}
use coolproof.Heat.Service.{submit}
use coolproof.Heat.Worker.{Queue, enqueue}

abbrev pub is_stale : ℕ → Option ℕ → Bool
is_stale now none = false
is_stale now (some expires_at) = leb expires_at now

abbrev pub result_or_null : Option Fields → Value
result_or_null none = null
result_or_null (some d) = obj d

abbrev pub error_out : Option String → Option String → Value
error_out code message = elim (present code) [
  | none ↦ null
  | some c ↦ obj (dict (("code", str c) ∷ ("message", optional_text message) ∷ []))
]

module _ (p : Platform) where
  unfoldable pub heat_out : ℕ → HeatAnalysis → Bool → Fields
  heat_out now a cached =
      let stale = is_stale now a.expires_at in
      dict (
        ("id", str (p.to_text (uuid a.id)))
        ∷ ("project_id", str (p.to_text (uuid a.project_id)))
        ∷ ("zone_id", str (p.to_text (uuid a.zone_id)))
        ∷ ("status", str (heat_status_value a.status))
        ∷ ("result", result_or_null a.result)
        ∷ ("cached", bool cached)
        ∷ ("stale", bool stale)
        ∷ (
          "stale_warning",
          if stale && is_some a.result
              then str "FortyGuard is unavailable; showing the last successful dataset"
              else null,
        )
        ∷ ("error", error_out a.error_code a.error_message)
        ∷ [])

  abbrev pub tenant_project : ℕ → TenantContext → Session → Option Project
  tenant_project project_id tenant s =
      scalar (λ r. r.id == project_id && r.organization_id == tenant.organization.id)
        s.tables.projects

  abbrev pub tenant_zone : ℕ → ℕ → TenantContext → Session → Option Zone
  tenant_zone project_id zone_id tenant s =
      scalar
        (λ z.
          z.id == zone_id
          && z.project_id == project_id
          && z.organization_id == tenant.organization.id)
        s.tables.zones

  abbrev pub both_found : Option Project → Option Zone → Option Zone
  both_found (some project) (some zone) = some zone
  both_found _ _ = none

  -- `_zone(body, tenant, session)`
  unfoldable pub zone_of : ℕ → ℕ → TenantContext → Session → Option Zone
  unfolding scalar
  zone_of project_id zone_id tenant s =
      both_found (tenant_project project_id tenant s) (tenant_zone project_id zone_id tenant s)

  abbrev pub payload_of : Zone → Fields → Fields
  payload_of zone parameters =
      dict (("geometry", obj zone.geometry) ∷ ("parameters", obj parameters) ∷ [])

  abbrev pub unavailable : Failure → Failure
  unavailable (forty_guard_error code message retryable) = api_error 503 code message
  unavailable failure = failure

  -- The reply with the queue that it leaves.
  abbrev pub Queued : Type 0
  Queued = Result Fields × Session × Queue

  module _ (redis : Bool) (now : ℕ) where
    abbrev pub requested : TenantContext → ℕ → HeatAnalysis → Session → Session
    requested tenant zone_id a s = commit (
        record_audit_event p now tenant.organization.id (some tenant.user.id)
          "heat_analysis.requested" "heat_analysis" a.id
          (dict (("zone_id", str (p.to_text (uuid zone_id))) ∷ [])) s)

    abbrev pub submitted_out :
        TenantContext → ℕ → Queue → Result (HeatAnalysis × Bool) × Session → Queued
    submitted_out tenant zone_id queue (err failure, s) = (err (unavailable failure), s, queue)
    submitted_out tenant zone_id queue (ok (a, true), s) = (ok (heat_out now a true), s, queue)
    submitted_out tenant zone_id queue (ok (a, false), s) = (
      ok (heat_out now a false),
      requested tenant zone_id a s,
      if redis then enqueue p a.id queue else queue,
    )

    module _ (digest : Fields → String) (create : Fields → Result String) (id : ℕ) where
      abbrev pub for_zone : TenantContext → ℕ → ℕ → Fields → Option Zone → Session → Queue → Queued
      for_zone tenant project_id zone_id parameters none s queue =
          (err (api_error 404 "zone_not_found" "Project zone was not found"), s, queue)
      for_zone tenant project_id zone_id parameters (some zone) s queue =
          submitted_out tenant zone_id queue (
            submit digest create id now tenant.organization.id project_id zone_id
              (payload_of zone parameters) s)

      abbrev pub created_for : Result TenantContext → ℕ → ℕ → Fields → Session → Queue → Queued
      created_for (err failure) project_id zone_id parameters s queue = (err failure, s, queue)
      created_for (ok tenant) project_id zone_id parameters s queue =
          for_zone tenant project_id zone_id parameters (zone_of project_id zone_id tenant s) s
            queue

      -- `POST /heat-analyses`; `redis` says that a queue is configured.
      unfoldable pub create_heat_analysis :
          TenantContext → ℕ → ℕ → Fields → Session → Queue → Queued
      unfolding zone_of submit heat_out record_audit_event enqueue require_tenant_roles
      create_heat_analysis tenant = created_for (require_tenant_roles writers tenant)

  abbrev pub shown_analysis : ℕ → Option HeatAnalysis → Session → Reply Fields
  shown_analysis now none s =
      (err (api_error 404 "heat_analysis_not_found" "Heat analysis was not found"), s)
  shown_analysis now (some a) s = (ok (heat_out now a false), s)

  -- `GET /heat-analyses/{analysis_id}`
  unfoldable pub get_heat_analysis : ℕ → ℕ → TenantContext → Session → Reply Fields
  unfolding scalar heat_out require_tenant_roles
  get_heat_analysis now analysis_id tenant = for_tenant readers tenant (λ t s.
      shown_analysis now
        (scalar (λ a. a.id == analysis_id && a.organization_id == t.organization.id)
          s.tables.heat_analyses)
        s)
