-- ===== src/Verification/ReportApi.antt =====
-- app/api/verification.py: reading a verification run, and writing its report again, by two routes.
use coolproof.Base.{ℕ, ◌==◌, String, str_eq, ◌&&◌, Option, none, some, [], ◌∷◌, if◌then◌else◌}
use coolproof.Json.{str, Fields, dict}
use coolproof.Failure.{Failure, Result, ok, err, api_error, http_exception}
use coolproof.Db.Evidence.{VerificationRun}
use coolproof.Db.Query.{scalar, save}
use coolproof.Db.Session.{Session, Tables, commit}
use coolproof.Auth.Tenancy.{TenantContext, require_tenant_roles}
use coolproof.Agents.Api.{Reply, for_tenant, readers, writers}
use coolproof.Verification.Reports.{write_report}
use coolproof.Verification.Api.{Services, show, save_run, report_of, response}

abbrev pub unavailable : String → Failure
unavailable message = api_error 503 "report_storage_unavailable" message

-- `session.get(VerificationRun, id)`, and the check of its organization.
abbrev pub of_tenant : TenantContext → Option VerificationRun → Option VerificationRun
of_tenant tenant none = none
of_tenant tenant (some run) =
    if run.organization_id == tenant.organization.id then some run else none

abbrev pub stored_run : ℕ → TenantContext → Tables → Option VerificationRun
stored_run id tenant t = of_tenant tenant (scalar (λ r. r.id == id) t.verification_runs)

-- `_get_tenant_verification`
abbrev pub tenant_run : ℕ → TenantContext → Tables → Option VerificationRun
tenant_run id tenant t =
    scalar (λ r. r.id == id && r.organization_id == tenant.organization.id) t.verification_runs

abbrev pub not_found : Failure
not_found = http_exception 404 "Verification not found"

abbrev pub alias_not_found : Failure
alias_not_found = api_error 404 "verification_not_found" "Verification was not found"

module _ (v : Services) where
  abbrev pub shown : ℕ → Failure → Option VerificationRun → Session → Reply Fields
  shown now missing none s = (err missing, s)
  shown now missing (some run) s = (response v now run, s)

  abbrev pub ready : VerificationRun → String → Fields
  ready run key =
      dict (
        ("verification_id", show v run.id) ∷ ("report_key", str key) ∷ ("status", str "ready") ∷ [])

  abbrev pub unconfigured : Session → Reply Fields
  unconfigured s = (err (unavailable "Report storage is not configured"), s)

  -- The key is set and committed if there is one; else the change is lost with the request.
  abbrev pub with_key : VerificationRun → Result (Option String) → Session → Reply Fields
  with_key run (err failure) s = (err (unavailable "Unable to create report artifact"), s)
  with_key run (ok none) s = unconfigured s
  with_key run (ok (some key)) s =
      if str_eq key ""
      then unconfigured s
      else (ok (ready run key), commit (save_run v (record run { report_s3_key = some key }) s))

  -- The body of `create_report`, and `_materialize_report`.
  abbrev pub materialized :
      Failure → ℕ → TenantContext → Option VerificationRun → Session → Reply Fields
  materialized missing now tenant none s = (err missing, s)
  materialized missing now tenant (some run) s = with_key run (report_of v now tenant run) s

  unfoldable pub get_verification : ℕ → ℕ → TenantContext → Session → Reply Fields
  unfolding scalar response require_tenant_roles
  get_verification now id tenant =
      for_tenant readers tenant (λ t s. shown now not_found (stored_run id t s.tables) s)

  unfoldable pub create_report : ℕ → ℕ → TenantContext → Session → Reply Fields
  unfolding scalar save write_report require_tenant_roles
  create_report now id tenant =
      for_tenant writers tenant (λ t s. materialized not_found now t (stored_run id t s.tables) s)

  unfoldable pub create_report_alias : ℕ → ℕ → TenantContext → Session → Reply Fields
  unfolding scalar save write_report require_tenant_roles
  create_report_alias now id tenant =
      for_tenant writers tenant
        (λ t s. materialized alias_not_found now t (tenant_run id t s.tables) s)

  unfoldable pub get_report_alias : ℕ → ℕ → TenantContext → Session → Reply Fields
  unfolding scalar response require_tenant_roles
  get_report_alias now id tenant =
      for_tenant readers tenant (λ t s. shown now alias_not_found (tenant_run id t s.tables) s)
