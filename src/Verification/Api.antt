-- ===== src/Verification/Api.antt =====
-- app/api/verification.py: verification runs and their reports.
use coolproof.Base.{
  ℕ, ◌==◌, String, str_eq, Bool, true, false, ◌&&◌, not, Option, none, some, List, [], ◌∷◌, ◌++◌,
  if◌then◌else◌,
}
use coolproof.Json.{Value, null, int, float, str, obj, uuid, Fields, dict, optional_text}
use coolproof.Floats.{Floats}
use coolproof.Platform.{Platform}
use coolproof.Failure.{Failure, Result, ok, err, api_error, value_error, os_error, runtime_error}
use coolproof.Db.Models.{Project}
use coolproof.Db.Evidence.{PortfolioRun, VerificationRun}
use coolproof.Db.Query.{scalar, save}
use coolproof.Db.Session.{Session, Tables, commit}
use coolproof.Auth.Tenancy.{TenantContext, require_tenant_roles}
use coolproof.Agents.Api.{Reply, for_tenant, writers}
use coolproof.Verification.{VerificationInput, calculate_verification}
use coolproof.Verification.Reports.{ReportSettings, Storage, write_report, report_download_url}

-- The request: the two references, and the measurements that pydantic has bounded.
pub record VerificationRequest : Type 0 where
  pub project_id : Option ℕ
  pub portfolio_run_id : Option ℕ
  pub measurements : VerificationInput

-- The boundary to Python and AWS: `digest` is the SHA-256 of the request's JSON text.
pub record Services : Type 0 where
  pub floats : Floats
  pub platform : Platform
  pub storage : Storage
  pub settings : ReportSettings
  pub digest : Fields → String

-- Some exception of `except (OSError, ValueError, RuntimeError)`.
abbrev pub is_handled : Failure → Bool
is_handled (value_error message) = true
is_handled os_error = true
is_handled runtime_error = true
is_handled _ = false

-- The two guards on the references.
abbrev pub own_project : Option ℕ → TenantContext → List Project → Bool
own_project none tenant projects = true
own_project (some id) tenant projects =
    elim (scalar (λ r. r.id == id && r.organization_id == tenant.organization.id) projects) [
      | some project ↦ true
      | none ↦ false
    ]

abbrev pub same_project : Option ℕ → Option ℕ → Bool
same_project (some a) (some b) = a == b
same_project _ _ = true

abbrev pub portfolio_failure : Option ℕ → Option PortfolioRun → Option Failure
portfolio_failure project_id none =
    some (api_error 404 "portfolio_run_not_found" "Portfolio run was not found")
portfolio_failure project_id (some run) =
    if same_project run.project_id project_id
    then none
    else some (
        api_error 422 "portfolio_project_mismatch"
          "Portfolio run does not belong to the selected project")

abbrev pub portfolio_refusal :
    Option ℕ → Option ℕ → TenantContext → List PortfolioRun → Option Failure
portfolio_refusal project_id none tenant runs = none
portfolio_refusal project_id (some id) tenant runs =
    portfolio_failure project_id
      (scalar (λ r. r.id == id && r.organization_id == tenant.organization.id) runs)

unfoldable pub reference_refusal : VerificationRequest → TenantContext → Tables → Option Failure
unfolding scalar
reference_refusal r tenant t =
    if not (own_project r.project_id tenant t.projects)
    then some (api_error 404 "project_not_found" "Project was not found")
    else portfolio_refusal r.project_id r.portfolio_run_id tenant t.portfolio_runs

module _ (v : Services) where
  abbrev pub show : ℕ → Value
  show id = str (v.platform.to_text (uuid id))

  abbrev pub show_optional : Option ℕ → Value
  show_optional none = null
  show_optional (some id) = show id

  -- `request.model_dump(mode="json")`
  abbrev pub dumped : VerificationRequest → Fields
  dumped r =
      let i = r.measurements in
      dict (
        ("project_id", show_optional r.project_id)
        ∷ ("portfolio_run_id", show_optional r.portfolio_run_id)
        ∷ ("treated_baseline", float i.treated_baseline)
        ∷ ("treated_observed", float i.treated_observed)
        ∷ ("control_baseline", float i.control_baseline)
        ∷ ("control_observed", float i.control_observed)
        ∷ ("treated_weather_delta", float i.treated_weather_delta)
        ∷ ("control_weather_delta", float i.control_weather_delta)
        ∷ ("expected_cooling", float i.expected_cooling)
        ∷ ("treated_threshold_hours_baseline", float i.treated_threshold_hours_baseline)
        ∷ ("treated_threshold_hours_observed", float i.treated_threshold_hours_observed)
        ∷ ("control_threshold_hours_baseline", float i.control_threshold_hours_baseline)
        ∷ ("control_threshold_hours_observed", float i.control_threshold_hours_observed)
        ∷ ("total_cost", float i.total_cost)
        ∷ ("sample_size", int i.sample_size)
        ∷ [])

  unfoldable pub idempotency_key : VerificationRequest → String
  idempotency_key r = v.digest (dumped r)

  -- `report_url`, which the handled exceptions leave at None.
  abbrev pub url_or_null : Result String → Result Value
  url_or_null (ok url) = ok (str url)
  url_or_null (err failure) = if is_handled failure then ok null else err failure

  abbrev pub url_of : ℕ → Option String → Result Value
  url_of now none = ok null
  url_of now (some key) =
      if str_eq key ""
      then ok null
      else url_or_null (report_download_url v.storage v.settings now key)

  abbrev pub with_url : VerificationRun → Result Value → Result Fields
  with_url run (err failure) = err failure
  with_url run (ok url) = ok (
      dict (
        ("verification_id", show run.id)
        ∷ ("status", str run.status)
        ∷ ("result", obj run.result_json)
        ∷ ("report_key", optional_text run.report_s3_key)
        ∷ ("report_url", url)
        ∷ []))

  unfoldable pub response : ℕ → VerificationRun → Result Fields
  unfolding report_download_url
  response now run = with_url run (url_of now run.report_s3_key)

  abbrev pub new_run : ℕ → TenantContext → VerificationRequest → Fields → VerificationRun
  new_run id tenant r result = record {
    id = id;
    organization_id = tenant.organization.id;
    project_id = r.project_id;
    portfolio_run_id = r.portfolio_run_id;
    idempotency_key = idempotency_key r;
    status = "completed";
    result_json = result;
    report_s3_key = none;
  }

  abbrev pub add_run : VerificationRun → Session → Session
  add_run run s =
      let t = s.tables in
      record s { tables = record t { verification_runs = t.verification_runs ++ (run ∷ []) } }

  abbrev pub save_run : VerificationRun → Session → Session
  save_run run s =
      let t = s.tables in
      record s {
        tables = record t { verification_runs = save (λ r. r.id) run t.verification_runs };
      }

  abbrev pub report_of : ℕ → TenantContext → VerificationRun → Result (Option String)
  report_of now tenant run =
      write_report v.platform v.storage v.settings now tenant.organization.id run.id run.result_json

  -- After the run is durable: its report is written and its key saved, unless that raises.
  abbrev pub with_report : ℕ → VerificationRun → Result (Option String) → Session → Reply Fields
  with_report now run (ok key) s =
      let run' = record run { report_s3_key = key } in (response now run', commit (save_run run' s))
  with_report now run (err failure) s =
      if is_handled failure then (response now run, s) else (err failure, s)

  -- `except ValueError`
  abbrev pub invalid : Failure → Failure
  invalid (value_error message) = api_error 422 "invalid_observation" message
  invalid failure = failure

  abbrev pub calculated :
      ℕ → ℕ → TenantContext → VerificationRequest → Result Fields → Session → Reply Fields
  calculated id now tenant r (err failure) s = (err (invalid failure), s)
  calculated id now tenant r (ok result) s =
      let run = new_run id tenant r result in
      with_report now run (report_of now tenant run) (commit (add_run run s))

  abbrev pub existing_run : TenantContext → VerificationRequest → Tables → Option VerificationRun
  existing_run tenant r t =
      scalar
        (λ x.
          x.organization_id == tenant.organization.id
          && str_eq x.idempotency_key (idempotency_key r))
        t.verification_runs

  abbrev pub unless_existing :
      ℕ → ℕ → TenantContext → VerificationRequest → Option VerificationRun → Session → Reply Fields
  unless_existing id now tenant r (some run) s = (response now run, s)
  unless_existing id now tenant r none s =
      calculated id now tenant r (calculate_verification v.floats r.measurements) s

  abbrev pub unless_refused : Option Failure → Reply Fields → Session → Reply Fields
  unless_refused (some failure) reply s = (err failure, s)
  unless_refused none reply s = reply

  abbrev pub created : ℕ → ℕ → VerificationRequest → TenantContext → Session → Reply Fields
  created id now r tenant s =
      unless_refused (reference_refusal r tenant s.tables)
        (unless_existing id now tenant r (existing_run tenant r s.tables) s) s

  -- `id` is the new row's, and `now` the clock of the report and of the URL.
  unfoldable pub create_verification :
      ℕ → ℕ → TenantContext → VerificationRequest → Session → Reply Fields
  unfolding reference_refusal scalar save idempotency_key response write_report
      calculate_verification require_tenant_roles
  create_verification id now tenant r = for_tenant writers tenant (created id now r)
