-- ===== src/Projects/Listing.antt =====
-- What the listing of projects shows after one was created.
use coolproof.Base.{
  ℕ, ◌==◌, ==-refl, ◌<◌, String, Bool, true, ◌≡◌, refl, ap, ◌∙◌, Option, List, [], ◌∷◌, ◌++◌, map,
  keep, keep-append, keep-one, All, All-keep_of_All,
}
use coolproof.Json.{Fields}
use coolproof.Platform.{Platform}
use coolproof.Failure.{ok}
use coolproof.Audit.{record_audit_event}
use coolproof.Db.Models.{Role, viewer, analyst, manager, admin, Project}
use coolproof.Db.Query.{descending}
use coolproof.Db.Query.Found.{descending-newest}
use coolproof.Db.Session.{Session}
use coolproof.Auth.Tenancy.{TenantContext, require_tenant_roles, role_in}
use coolproof.Agents.Api.{readers, writers}
use coolproof.Projects.{new_project, project_out, create_project, list_projects}

abbrev own_projects : TenantContext → List Project → List Project
own_projects tenant rows =
    descending (λ r. r.created_at) (keep (λ r. r.organization_id == tenant.organization.id) rows)

own_projects-new :
    (id now : ℕ) (tenant : TenantContext) (name : String) (description : Option String)
    (rows : List Project)
    → All (λ (r : Project). r.created_at < now) rows
    → own_projects tenant (rows ++ (new_project id now tenant name description ∷ []))
      ≡ new_project id now tenant name description ∷ own_projects tenant rows
own_projects-new id now tenant name description rows h =
    let own : Project → Bool = λ r. r.organization_id == tenant.organization.id in
    let row = new_project id now tenant name description in
    ap (descending (λ r. r.created_at)) (
      keep-append own rows (row ∷ [])
      ∙ ap (λ (last : List Project). keep own rows ++ last)
          (keep-one own row (==-refl tenant.organization.id)))
    ∙ descending-newest (λ r. r.created_at) (keep own rows) row
        (All-keep_of_All (λ r. r.created_at < now) own rows h)

any_reader : (r : Role) → role_in r readers ≡ true
any_reader viewer = refl
any_reader analyst = refl
any_reader manager = refl
any_reader admin = refl

-- A writer's new project that is younger than the stored ones is the first that the listing shows to
-- the tenant, before what it showed until then.
pub list_projects-create_project :
    (p : Platform) (id now : ℕ) (tenant : TenantContext) (name : String)
    (description : Option String) (s : Session)
    → role_in tenant.membership.role writers ≡ true
    → All (λ (r : Project). r.created_at < now) s.tables.projects
    → (shown : List Fields) × ((list_projects p tenant s).0 ≡ ok shown)
      × ((list_projects p tenant (create_project p id now tenant name description s).1).0
          ≡ ok (project_out p (new_project id now tenant name description) ∷ shown))
unfolding list_projects create_project require_tenant_roles record_audit_event
list_projects-create_project p id now tenant name description s writer newest =
    let reader : role_in tenant.membership.role readers ≡ true =
      any_reader tenant.membership.role in
    rw (reader, writer)
      (
        map (project_out p) (own_projects tenant s.tables.projects),
        refl,
        ap (λ rows. ok (map (project_out p) rows))
            (own_projects-new id now tenant name description s.tables.projects newest),
      )
