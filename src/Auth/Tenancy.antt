-- ===== src/Auth/Tenancy.antt =====
-- app/api/deps.py: the principal of a request and the tenant that it may act for.
pub mod Access
use coolproof.Base.{
  ℕ, ◌==◌, String, str_eq, split_on, starts_with, drop_text, Bool, true, false, ◌&&◌, not, Option,
  none, some, List, [], ◌∷◌, ◌++◌, keep, head?, if◌then◌else◌,
}
use coolproof.Json.{Value}
use coolproof.Platform.{Platform}
use coolproof.Failure.{Result, ok, err, api_error, ◌>>=◌}
use coolproof.Db.Models.{
  Role, viewer, analyst, manager, admin, role_eq, Organization, User, Membership,
}
use coolproof.Db.Session.{Tables}
use coolproof.Auth.Claims.{TokenClaims, AuthSettings, is_development, present}

pub record Principal : Type 0 where
  pub subject : String
  pub email : Option Value
  pub roles : List Role

pub record TenantContext : Type 0 where
  pub organization : Organization
  pub user : User
  pub membership : Membership

-- `Role(value)`, and the role map of verified claims, which has the same four entries.
unfoldable pub parse_role : String → Option Role
parse_role s =
    if str_eq s "viewer"
    then some viewer
    else if str_eq s "analyst"
    then some analyst
    else if str_eq s "manager"
    then some manager
    else if str_eq s "admin"
    then some admin
    else none

abbrev pub role_in : Role → List Role → Bool
role_in r [] = false
role_in r (q ∷ roles) = if role_eq q r then true else role_in r roles

-- The dependencies that a request's headers and settings feed.
pub record Headers : Type 0 where
  pub authorization : Option String
  pub x_development_subject : Option String
  pub x_development_role : Option String
  pub x_organization_id : Option ℕ

module _ (p : Platform) where
  abbrev pub cons_role : Option Role → Result (List Role) → Result (List Role)
  cons_role none rest = err (api_error 401 "invalid_development_role" "Development role is invalid")
  cons_role (some r) rest = rest >>= λ roles. ok (r ∷ roles)

  unfoldable pub development_roles : List String → Result (List Role)
  unfolding parse_role
  development_roles [] = ok []
  development_roles (v ∷ vs) =
      let rest = development_roles vs in cons_role (parse_role (p.strip v)) rest

  -- `(item for item in claims.roles if item in role_map)`
  unfoldable pub mapped_roles : List String → List Role
  unfolding parse_role
  mapped_roles [] = []
  mapped_roles (r ∷ rs) =
      let rest = mapped_roles rs in elim (parse_role r) [ some role ↦ role ∷ rest | none ↦ rest ]

  abbrev pub role_text : Option String → String
  role_text o = elim (present o) [ some s ↦ s | none ↦ "viewer" ]

  -- `x_development_subject` where the development identity is enabled.
  abbrev pub development_subject : AuthSettings → Headers → Option String
  development_subject s h =
      if is_development s && s.allow_development_auth then present h.x_development_subject else none

  abbrev pub bearer : Option String → Option String
  bearer none = none
  bearer (some authorization) =
      if starts_with authorization "Bearer " then some (drop_text 7 authorization) else none

  abbrev pub verified : (String → Result TokenClaims) → Option String → Result Principal
  verified verify none = err (api_error 401 "authentication_required" "A bearer token is required")
  verified verify (some token) = verify token >>= λ claims.
      ok (record {
        subject = claims.subject;
        email = claims.email;
        roles = mapped_roles claims.roles;
      })

  -- `verify` is `CognitoJWTVerifier(settings).verify`.
  unfoldable pub get_principal :
      (String → Result TokenClaims) → AuthSettings → Headers → Result Principal
  unfolding development_roles mapped_roles
  get_principal verify s h = elim (development_subject s h) [
    | some subject ↦ development_roles (split_on b',' (role_text h.x_development_role)) >>= λ roles.
        ok (record { subject = subject; email = none; roles = roles })
    | none ↦ verified verify (bearer h.authorization)
  ]

abbrev pub intersects : List Role → List Role → Bool
intersects [] roles = false
intersects (r ∷ rs) roles = if role_in r roles then true else intersects rs roles

-- `bool(principal.roles)`
abbrev pub non_empty : List Role → Bool
non_empty [] = false
non_empty (r ∷ rs) = true

unfoldable pub require_roles : List Role → Principal → Result Principal
require_roles roles principal =
    if non_empty principal.roles && not (intersects principal.roles roles)
    then err (api_error 403 "insufficient_role" "The authenticated role cannot perform this action")
    else ok principal

unfoldable pub require_tenant_roles : List Role → TenantContext → Result TenantContext
require_tenant_roles roles tenant =
    if not (role_in tenant.membership.role roles)
    then err (api_error 403 "insufficient_role" "Your organization role cannot perform this action")
    else ok tenant

module _ (t : Tables) (organization_id : ℕ) (subject : String) where
  abbrev pub contexts : Membership → Organization → List User → List TenantContext
  contexts m o [] = []
  contexts m o (u ∷ us) = record { organization = o; user = u; membership = m } ∷ contexts m o us

  abbrev pub join_users : Membership → List Organization → List TenantContext
  join_users m [] = []
  join_users m (o ∷ os) =
      contexts m o (keep (λ u. u.id == m.user_id && str_eq u.cognito_subject subject) t.users)
      ++ join_users m os

  abbrev pub join_organizations : List Membership → List TenantContext
  join_organizations [] = []
  join_organizations (m ∷ ms) =
      join_users m (keep (λ o. o.id == m.organization_id) t.organizations) ++ join_organizations ms

  -- The select of memberships with their organization and user; `one_or_none` is its first row, as
  -- the unique constraints leave one at most.
  unfoldable pub tenant_row : Option TenantContext
  unfolding keep
  tenant_row =
      head? (join_organizations (keep (λ m. m.organization_id == organization_id) t.memberships))

abbrev pub denied : {A : Type 0} → String → Result A
denied message = err (api_error 403 "organization_access_denied" message)

abbrev pub checked_row : Principal → Option TenantContext → Result TenantContext
checked_row principal none = denied "You are not a member of this organization"
checked_row principal (some row) =
    if non_empty principal.roles && not (role_in row.membership.role principal.roles)
    then denied "The development role does not match membership"
    else ok row

unfoldable pub get_tenant_context : Tables → Principal → Option ℕ → Result TenantContext
unfolding tenant_row
get_tenant_context t principal none =
    err (api_error 400 "organization_required" "X-Organization-ID is required")
get_tenant_context t principal (some organization_id) =
    checked_row principal (tenant_row t organization_id principal.subject)
