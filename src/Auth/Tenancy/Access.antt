-- ===== src/Auth/Tenancy/Access.antt =====
-- Whom a request acts for: what an accepted tenant context guarantees.
use coolproof.Base.{
  Option-cases, inl, inr, ◌⊎◌, ap, if◌then◌else◌, ℕ, ◌==◌, ==→eq, String, str_eq, eq_iff, Bool,
  true, false, ◌&&◌, ◌≡◌, some-injective, refl, sym, ◌∙◌, Option, none, some, List, [], ◌∷◌, keep,
  head?, All, All-append, All-keep, All-keep_of_All, All-In, arith,
}
use mathlib.Core.List.{Memᴰ}
use coolproof.Platform.{Platform}
use coolproof.Failure.{Result, ok, err, err≢ok, ok-injective, ◌>>=◌}
use coolproof.Db.Models.{Role, Organization, User, Membership}
use coolproof.Db.Session.{Tables}
use coolproof.Auth.Claims.{present, TokenClaims, AuthSettings, is_development}
use coolproof.Auth.Tenancy.{
  mapped_roles, development_subject, Principal, TenantContext, Headers, role_in, non_empty,
  contexts, join_users, join_organizations, tenant_row, checked_row, get_tenant_context,
  require_tenant_roles, verified, bearer, get_principal,
}

-- The tenant is the rows of a membership in the organization, with that organization, of the user
-- with the subject.
pub record IsMember (t : Tables) (organization_id : ℕ) (subject : String) (c : TenantContext)
    : Type 0 where
  pub organization : c.organization.id ≡ organization_id
  pub membership_organization : c.membership.organization_id ≡ organization_id
  pub membership_user : c.membership.user_id ≡ c.user.id
  pub subject_of_user : c.user.cognito_subject ≡ subject
  pub stored_membership : Memᴰ c.membership t.memberships
  pub stored_user : Memᴰ c.user t.users
  pub stored_organization : Memᴰ c.organization t.organizations

module _ {ℓ} {A : Type ℓ} where
  All-both {κ ι} :
      (P : A → Type κ) (Q : A → Type ι) (xs : List A)
      → All P xs
      → All Q xs
      → All (λ x. P x × Q x) xs
  All-both P Q [] h g = tt
  All-both P Q (x ∷ xs) h g = ((h.0, g.0), All-both P Q xs h.1 g.1)

  -- What a `where` lets through is stored and passes the test.
  kept_rows {κ} :
      (P : A → Type κ) (p : A → Bool) (xs : List A)
      → ((x : A) → p x ≡ true → P x)
      → All (λ x. P x × Memᴰ x xs) (keep p xs)
  kept_rows P p xs h =
      All-both P (λ x. Memᴰ x xs) (keep p xs) (All-keep P p xs h)
        (All-keep_of_All (λ x. Memᴰ x xs) p xs (All-In xs))

  head?-In {κ} : (P : A → Type κ) (xs : List A) {x : A} → All P xs → head? xs ≡ some x → P x
  head?-In P [] h e = absurd (cc e)
  head?-In P (x ∷ xs) h e = rw (sym (some-injective _ _ e)) h.0

user_matches :
    (u m : ℕ) (s subject : String) → ((u == m) && str_eq s subject) ≡ true → (u ≡ m) × (s ≡ subject)
user_matches u m s subject e = ground (arith, eq_iff s subject)

module _ (t : Tables) (organization_id : ℕ) (subject : String) where
  abbrev Matches : TenantContext → Type 0
  Matches = IsMember t organization_id subject

  contexts-IsMember :
      (m : Membership) (o : Organization) (us : List User)
      → (m.organization_id ≡ organization_id) × Memᴰ m t.memberships
      → (o.id ≡ m.organization_id) × Memᴰ o t.organizations
      → All (λ u. ((u.id ≡ m.user_id) × (u.cognito_subject ≡ subject)) × Memᴰ u t.users) us
      → All Matches (contexts t organization_id subject m o us)
  contexts-IsMember m o [] hm ho h = tt
  contexts-IsMember m o (u ∷ us) hm ho h = (
    record {
      organization = ho.0 ∙ hm.0;
      membership_organization = hm.0;
      membership_user = sym h.0.0.0;
      subject_of_user = h.0.0.1;
      stored_membership = hm.1;
      stored_user = h.0.1;
      stored_organization = ho.1;
    },
    contexts-IsMember m o us hm ho h.1,
  )

  join_users-IsMember :
      (m : Membership) (os : List Organization)
      → (m.organization_id ≡ organization_id) × Memᴰ m t.memberships
      → All (λ o. (o.id ≡ m.organization_id) × Memᴰ o t.organizations) os
      → All Matches (join_users t organization_id subject m os)
  join_users-IsMember m [] hm h = tt
  join_users-IsMember m (o ∷ os) hm h =
      All-append Matches _ _
        (contexts-IsMember m o _ hm h.0
          (kept_rows _ _ t.users (λ u e. user_matches u.id m.user_id u.cognito_subject subject e)))
        (join_users-IsMember m os hm h.1)

  join_organizations-IsMember :
      (ms : List Membership)
      → All (λ m. (m.organization_id ≡ organization_id) × Memᴰ m t.memberships) ms
      → All Matches (join_organizations t organization_id subject ms)
  join_organizations-IsMember [] h = tt
  join_organizations-IsMember (m ∷ ms) h =
      All-append Matches _ _
        (join_users-IsMember m _ h.0
          (kept_rows _ _ t.organizations (λ o e. ==→eq o.id m.organization_id e)))
        (join_organizations-IsMember ms h.1)

  tenant_row-IsMember :
      (c : TenantContext) → tenant_row t organization_id subject ≡ some c → Matches c
  unfolding tenant_row
  tenant_row-IsMember c e =
      head?-In Matches _
        (join_organizations-IsMember _
          (kept_rows _ _ t.memberships (λ m h. ==→eq m.organization_id organization_id h)))
        e

checked_row_ok :
    (principal : Principal) (row : Option TenantContext) (c : TenantContext)
    → checked_row principal row ≡ ok c
    → (row ≡ some c)
      × (non_empty principal.roles ≡ true → role_in c.membership.role principal.roles ≡ true)
checked_row_ok principal none c h = absurd (err≢ok h)
checked_row_ok principal (some row) c h = ground arith

allowed :
    (roles : List Role) (r : Result TenantContext) (c : TenantContext)
    → (r >>= require_tenant_roles roles) ≡ ok c
    → role_in c.membership.role roles ≡ true
unfolding require_tenant_roles
allowed roles (err e) c h = absurd (err≢ok h)
allowed roles (ok row) c h = ground arith

-- A context that is given, for whichever principal, is the rows of a stored membership of the
-- requested organization and of the stored user with the principal's subject; and a principal that
-- carries roles carries the one of that membership.
pub get_tenant_context-IsMember :
    (t : Tables) (principal : Principal) (organization_id : ℕ) (c : TenantContext)
    → get_tenant_context t principal (some organization_id) ≡ ok c
    → IsMember t organization_id principal.subject c
      × (non_empty principal.roles ≡ true → role_in c.membership.role principal.roles ≡ true)
unfolding get_tenant_context
get_tenant_context-IsMember t principal organization_id c h =
    let (row, claimed) = checked_row_ok principal _ c h in
    (tenant_row-IsMember t organization_id principal.subject c row, claimed)

-- The role that authorises a request is the one of the membership: whatever roles a token or a
-- development header names, only a membership whose role is listed passes.
pub require_tenant_roles-membership :
    (roles : List Role) (t : Tables) (principal : Principal) (organization_id : Option ℕ)
    (c : TenantContext)
    → (get_tenant_context t principal organization_id >>= require_tenant_roles roles) ≡ ok c
    → role_in c.membership.role roles ≡ true
require_tenant_roles-membership roles t principal organization_id c h =
    allowed roles (get_tenant_context t principal organization_id) c h

-- Who vouches for a principal: a development header where those are enabled, or the claims of the bearer
-- token.
abbrev pub IsVouched :
    Platform → (String → Result TokenClaims) → AuthSettings → Headers → Principal → Type 0
IsVouched p verify s h principal =
    (((is_development s && s.allow_development_auth) ≡ true)
      × (present h.x_development_subject ≡ some principal.subject)
      × (principal.email ≡ none))
    ⊎ ((token : String) × (claims : TokenClaims) × (bearer p h.authorization ≡ some token)
        × (verify token ≡ ok claims)
        × (principal.subject ≡ claims.subject)
        × (principal.roles ≡ mapped_roles p claims.roles))

claims-IsVouched :
    (p : Platform) (verify : String → Result TokenClaims) (s : AuthSettings) (h : Headers)
    (token : String) (r : Result TokenClaims) (principal : Principal)
    → bearer p h.authorization ≡ some token
    → verify token ≡ r
    → (r >>= λ claims. ok (record {
      subject = claims.subject;
      email = claims.email;
      roles = mapped_roles p claims.roles;
    }))
      ≡ ok principal
    → IsVouched p verify s h principal
claims-IsVouched p verify s h token (err e) principal b v g = absurd (err≢ok g)
claims-IsVouched p verify s h token (ok claims) principal b v g = inr (
  token,
  claims,
  b,
  v,
  sym (ap (λ (c : Principal). c.subject) (ok-injective g)),
  sym (ap (λ (c : Principal). c.roles) (ok-injective g)),
)

verified-IsVouched :
    (p : Platform) (verify : String → Result TokenClaims) (s : AuthSettings) (h : Headers)
    (o : Option String) (principal : Principal)
    → bearer p h.authorization ≡ o
    → verified p verify o ≡ ok principal
    → IsVouched p verify s h principal
verified-IsVouched p verify s h none principal b g = absurd (err≢ok g)
verified-IsVouched p verify s h (some token) principal b g =
    claims-IsVouched p verify s h token (verify token) principal b refl g

development_subject-IsVouched :
    (p : Platform) (verify : String → Result TokenClaims) (s : AuthSettings) (h : Headers)
    (enabled : Bool) (subject : String) (roles : Result (List Role)) (principal : Principal)
    → (is_development s && s.allow_development_auth) ≡ enabled
    → (if enabled then present h.x_development_subject else none) ≡ some subject
    → (roles >>= λ rs. ok (record { subject = subject; email = none; roles = rs })) ≡ ok principal
    → IsVouched p verify s h principal
development_subject-IsVouched p verify s h false subject roles principal d o g = absurd (cc o)
development_subject-IsVouched p verify s h true subject (err e) principal d o g = absurd (err≢ok g)
development_subject-IsVouched p verify s h true subject (ok rs) principal d o g = inl (
  d,
  o ∙ ap (λ (c : Principal). some c.subject) (ok-injective g),
  sym (ap (λ (c : Principal). c.email) (ok-injective g)),
)

-- A principal that is given is vouched for: either development authentication is enabled and its header
-- names the subject, or the verifier accepted the bearer token and the subject and the roles are what
-- its claims say. So the header decides nothing where it is not enabled.
pub get_principal-IsVouched :
    (p : Platform) (verify : String → Result TokenClaims) (s : AuthSettings) (h : Headers)
    (principal : Principal)
    → get_principal p verify s h ≡ ok principal
    → IsVouched p verify s h principal
unfolding get_principal
get_principal-IsVouched p verify s h principal g = elim (Option-cases (development_subject p s h)) [
  | inl no_header ↦
      verified-IsVouched p verify s h (bearer p h.authorization) principal refl
        (rw (no_header, get_principal) at g)
  | inr (subject, named) ↦
      development_subject-IsVouched p verify s h (is_development s && s.allow_development_auth)
        subject _ principal refl named (rw (named, get_principal) at g)
]
