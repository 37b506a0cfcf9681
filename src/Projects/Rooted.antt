-- ===== src/Projects/Rooted.antt =====
-- Every zone lies in a project of its own organization.
use coolproof.Base.{
  ℕ, ◌==◌, String, Bool, true, false, ◌&&◌, ◌||◌, ◌≡◌, refl, sym, Option, none, some, List, [], ◌∷◌,
  ◌++◌, All, All-append, arith, keep, Bool-cases, inl, inr,
}
use coolproof.Json.{Fields}
use coolproof.Platform.{Platform}
use coolproof.Audit.{record_audit_event}
use coolproof.Db.Models.{Project, Zone}
use coolproof.Db.Query.{scalar}
use coolproof.Db.Session.{Session, Tables}
use coolproof.Auth.Tenancy.{TenantContext, require_tenant_roles, role_in}
use coolproof.Agents.Api.{writers}
use coolproof.Projects.{
  new_project, new_zone, created_project, created_zone, create_project, create_zone, project_of,
  with_project,
}

-- There is a project with the id, of the organization.
unfoldable pub has_project : ℕ → ℕ → List Project → Bool
has_project project_id organization_id [] = false
has_project project_id organization_id (r ∷ rs) =
    (r.id == project_id && r.organization_id == organization_id)
    || has_project project_id organization_id rs

abbrev pub IsRooted : List Project → Zone → Type 0
IsRooted projects z = has_project z.project_id z.organization_id projects ≡ true

abbrev pub AllRooted : Tables → Type 0
AllRooted t = All (IsRooted t.projects) t.zones

has_project-append :
    (i o : ℕ) (xs ys : List Project) → has_project i o xs ≡ true → has_project i o (xs ++ ys) ≡ true
unfolding has_project
has_project-append i o [] ys h = absurd (cc h)
has_project-append i o (x ∷ xs) ys h = ground (arith, has_project-append i o xs ys)

All-IsRooted :
    (xs ys : List Project) (zs : List Zone) → All (IsRooted xs) zs → All (IsRooted (xs ++ ys)) zs
All-IsRooted xs ys [] h = tt
All-IsRooted xs ys (z ∷ zs) h =
    (has_project-append z.project_id z.organization_id xs ys h.0, All-IsRooted xs ys zs h.1)

has_project_of_scalar :
    (i o : ℕ) (xs : List Project) (x : Project)
    → scalar (λ r. r.id == i && r.organization_id == o) xs ≡ some x
    → has_project i o xs ≡ true
unfolding has_project scalar keep
has_project_of_scalar i o [] x h = absurd (cc h)
has_project_of_scalar i o (y ∷ ys) x h = ground (arith, has_project_of_scalar i o ys x)

-- A handler keeps the zones rooted, whether it refuses the tenant or runs.
created_project-AllRooted :
    (p : Platform) (now : ℕ) (project : Project) (tenant : TenantContext) (s : Session)
    → AllRooted s.tables
    → AllRooted (created_project p now project tenant s).1.tables
unfolding record_audit_event
created_project-AllRooted p now project tenant s h =
    All-IsRooted s.tables.projects (project ∷ []) s.tables.zones h

created_zone-AllRooted :
    (p : Platform) (id now project_id : ℕ) (tenant : TenantContext) (name : String)
    (geometry : Fields) (o : Option Project) (s : Session)
    → o ≡ project_of project_id tenant s
    → AllRooted s.tables
    → AllRooted
        (with_project o s (
          created_zone p now project_id
            (new_zone id project_id tenant name geometry)
            tenant
            s)).1.tables
unfolding record_audit_event project_of
created_zone-AllRooted p id now project_id tenant name geometry none s e h = h
created_zone-AllRooted p id now project_id tenant name geometry (some project) s e h =
    All-append (IsRooted s.tables.projects) s.tables.zones _ h (
      has_project_of_scalar project_id tenant.organization.id s.tables.projects project (sym e),
      tt,
    )

module _ (p : Platform) (id now : ℕ) (tenant : TenantContext) (name : String) where
  -- If every zone lies in a stored project of its own organization, that is so after a request for a
  -- new project, whether it is refused or runs.
  create_project-AllRooted :
      (description : Option String) (s : Session)
      → AllRooted s.tables
      → AllRooted (create_project p id now tenant name description s).1.tables
  unfolding create_project require_tenant_roles
  create_project-AllRooted description s h =
      elim (Bool-cases (role_in tenant.membership.role writers)) [
        | inl allowed ↦ rw allowed (
            created_project-AllRooted p now (new_project id now tenant name description) tenant s h)
        | inr other ↦ rw other h
      ]

  -- If every zone lies in a stored project of its own organization, that is so after a request for a
  -- new zone in whichever project, its own or another organization's.
  pub create_zone-AllRooted :
      (project_id : ℕ) (geometry : Fields) (s : Session)
      → AllRooted s.tables
      → AllRooted (create_zone p id now project_id tenant name geometry s).1.tables
  unfolding create_zone require_tenant_roles
  create_zone-AllRooted project_id geometry s h =
      elim (Bool-cases (role_in tenant.membership.role writers)) [
        | inl allowed ↦ rw allowed (
            created_zone-AllRooted p id now project_id tenant name geometry
              (project_of project_id tenant s) s refl h)
        | inr other ↦ rw other h
      ]
