-- ===== src/Tests/Auth.antt =====
-- The theorems on principals and tenants at one member of one organization.
use coolproof.Base.{◌≡◌, refl, true, none, some, [], ◌∷◌, String, text_in}
use coolproof.Failure.{Result, ok, ◌>>=◌}
use coolproof.Db.Models.{manager, admin}
use coolproof.Auth.Claims.{AuthSettings, TokenClaims}
use coolproof.Auth.Tenancy.{
  Principal, Headers, role_in, non_empty, get_tenant_context, require_tenant_roles, get_principal,
}
use coolproof.Auth.Tenancy.Access.{
  IsMember, get_tenant_context-IsMember, get_principal-IsVouched, IsVouched,
}
use coolproof.Tests.Data.{plain, staffed, boss}

abbrev ada_principal : Principal
ada_principal = record { subject = "ada"; email = none; roles = manager ∷ [] }

ada_is_boss : get_tenant_context staffed ada_principal (some 1) ≡ ok boss
unfolding get_tenant_context
ada_is_boss = refl

get_tenant_context-IsMember_example :
    IsMember staffed 1 "ada" boss
    × (non_empty (manager ∷ []) ≡ true → role_in manager (manager ∷ []) ≡ true)
get_tenant_context-IsMember_example =
    get_tenant_context-IsMember staffed ada_principal 1 boss ada_is_boss

ada_may_manage :
    (get_tenant_context staffed ada_principal (some 1)
      >>= require_tenant_roles (manager ∷ admin ∷ []))
    ≡ ok boss
unfolding get_tenant_context require_tenant_roles
ada_may_manage = refl

abbrev production : AuthSettings
production = record {
  environment = "production";
  allow_development_auth = true;
  cognito_region = none;
  cognito_user_pool_id = none;
  cognito_app_client_id = none;
  cognito_issuer = none;
  cognito_jwks_url = none;
  cognito_jwt_audience = none;
}

abbrev spoofed : Headers
spoofed = record {
  authorization = some "Bearer t";
  x_development_subject = some "mallory";
  x_development_role = some "admin";
  x_organization_id = some 1;
}

abbrev accept : String → Result TokenClaims
accept token = ok (record { subject = "ada"; email = none; roles = "manager" ∷ [] })

-- The principal is the token's, not the header's.
spoofed_is_ada :
    get_principal plain accept production spoofed
    ≡ ok (record { subject = "ada"; email = none; roles = manager ∷ [] })
unfolding get_principal text_in
spoofed_is_ada = refl

get_principal-IsVouched_example : IsVouched plain accept production spoofed ada_principal
get_principal-IsVouched_example =
    get_principal-IsVouched plain accept production spoofed ada_principal spoofed_is_ada
