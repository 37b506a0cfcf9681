-- ===== src/Projects.antt =====
-- app/api/projects.py: projects and their zones.
pub mod Rooted
pub mod Listing
use coolproof.Base.{ℕ, ◌==◌, String, Bool, ◌&&◌, Option, none, some, List, [], ◌∷◌, ◌++◌, keep, map}
use coolproof.Json.{str, obj, uuid, Fields, end, dict, optional_text}
use coolproof.Platform.{Platform}
use coolproof.Failure.{Result, ok, err, api_error}
use coolproof.Audit.{record_audit_event}
use coolproof.Db.Models.{Project, Zone}
use coolproof.Db.Query.{scalar, descending}
use coolproof.Db.Session.{Session, Tables, commit}
use coolproof.Auth.Tenancy.{TenantContext, require_tenant_roles}
use coolproof.Agents.Api.{Reply, for_tenant, readers, writers}

abbrev pub new_project : ℕ → ℕ → TenantContext → String → Option String → Project
new_project id now tenant name description = record {
  id = id;
  organization_id = tenant.organization.id;
  name = name;
  description = description;
  created_at = now;
}

abbrev pub new_zone : ℕ → ℕ → TenantContext → String → Fields → Zone
new_zone id project_id tenant name geometry = record {
  id = id;
  organization_id = tenant.organization.id;
  project_id = project_id;
  name = name;
  geometry = geometry;
}

abbrev pub add_project : Project → Session → Session
add_project project s =
    let t = s.tables in record s { tables = record t { projects = t.projects ++ (project ∷ []) } }

abbrev pub add_zone : Zone → Session → Session
add_zone zone s =
    let t = s.tables in record s { tables = record t { zones = t.zones ++ (zone ∷ []) } }

-- `_project(project_id, tenant, session)`
unfoldable pub project_of : ℕ → TenantContext → Session → Option Project
unfolding scalar
project_of project_id tenant s =
    scalar (λ r. r.id == project_id && r.organization_id == tenant.organization.id)
      s.tables.projects

-- A handler runs if the project is the tenant's.
abbrev pub with_project : {A : Type 0} → Option Project → Session → Reply A → Reply A
with_project none s reply = (err (api_error 404 "project_not_found" "Project was not found"), s)
with_project (some project) s reply = reply

module _ (p : Platform) where
  unfoldable pub project_out : Project → Fields
  project_out project = dict (
      ("id", str (p.to_text (uuid project.id)))
      ∷ ("name", str project.name)
      ∷ ("description", optional_text project.description)
      ∷ [])

  unfoldable pub zone_out : Zone → Fields
  zone_out zone = dict (
      ("id", str (p.to_text (uuid zone.id)))
      ∷ ("project_id", str (p.to_text (uuid zone.project_id)))
      ∷ ("name", str zone.name)
      ∷ ("geometry", obj zone.geometry)
      ∷ [])

  abbrev pub created_project : ℕ → Project → TenantContext → Session → Reply Fields
  created_project now project tenant s = (
    ok (project_out project),
    commit (
        record_audit_event p now tenant.organization.id (some tenant.user.id) "project.created"
          "project" project.id end (add_project project s)),
  )

  unfoldable pub create_project :
      ℕ → ℕ → TenantContext → String → Option String → Session → Reply Fields
  unfolding project_out record_audit_event require_tenant_roles
  create_project id now tenant name description =
      for_tenant writers tenant (λ t. created_project now (new_project id now t name description) t)

  unfoldable pub list_projects : TenantContext → Session → Reply (List Fields)
  unfolding project_out keep descending require_tenant_roles
  list_projects tenant = for_tenant readers tenant (λ t s. (
    ok (
        map project_out (
          descending (λ r. r.created_at)
            (keep (λ r. r.organization_id == t.organization.id) s.tables.projects))),
    s,
  ))

  abbrev pub created_zone : ℕ → ℕ → Zone → TenantContext → Session → Reply Fields
  created_zone now project_id zone tenant s = (
    ok (zone_out zone),
    commit (
        record_audit_event p now tenant.organization.id (some tenant.user.id) "zone.created" "zone"
          zone.id (dict (("project_id", str (p.to_text (uuid project_id))) ∷ []))
          (add_zone zone s)),
  )

  unfoldable pub create_zone : ℕ → ℕ → ℕ → TenantContext → String → Fields → Session → Reply Fields
  unfolding project_of zone_out record_audit_event require_tenant_roles
  create_zone id now project_id tenant name geometry = for_tenant writers tenant (λ t s.
      with_project (project_of project_id t s) s
        (created_zone now project_id (new_zone id project_id t name geometry) t s))

  unfoldable pub list_zones : ℕ → TenantContext → Session → Reply (List Fields)
  unfolding project_of zone_out keep require_tenant_roles
  list_zones project_id tenant = for_tenant readers tenant (λ t s.
      with_project (project_of project_id t s) s (
        ok (
            map zone_out (
              keep (λ z. z.project_id == project_id && z.organization_id == t.organization.id)
                s.tables.zones)),
        s,
      ))
