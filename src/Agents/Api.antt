-- ===== src/Agents/Api.antt =====
-- app/api/agents.py: the four endpoints on agent runs.
pub mod Exposure
use coolproof.Base.{
  ℕ, ◌==◌, String, str_eq, ◌&&◌, Bool, true, Option, none, some, is_some, List, [], ◌∷◌, pos,
  if◌then◌else◌,
}
use coolproof.Json.{int, str, obj, Fields, remove, dict, optional_text, uuid}
use coolproof.Platform.{Platform}
use coolproof.Failure.{Result, ok, err, api_error}
use coolproof.Db.Models.{
  viewer, analyst, manager, admin, Role, AgentRun, AgentEvent, AgentApproval, run_status_value,
}
use coolproof.Db.Query.{scalar}
use coolproof.Db.Session.{Session}
use coolproof.Auth.Tenancy.{TenantContext, require_tenant_roles}
use coolproof.Agents.Providers.{LlmProvider}
use coolproof.Agents.Runtime.Events.{stream_events}
use coolproof.Agents.Runtime.Execution.{create_run, execute_run, finalize_approved_run}
use coolproof.Agents.Runtime.Approval.{decide_run}

-- A handler's answer with the session that it leaves.
abbrev pub Reply : Type 0 → Type 0
Reply A = Result A × Session

-- `_safe_state(run)`
unfoldable pub safe_state : AgentRun → Fields
unfolding remove
safe_state run = remove "input" run.state_json

abbrev pub writers : List Role
writers = analyst ∷ manager ∷ admin ∷ []

abbrev pub readers : List Role
readers = viewer ∷ analyst ∷ manager ∷ admin ∷ []

abbrev pub reviewers : List Role
reviewers = manager ∷ admin ∷ []

abbrev not_found : {A : Type 0} → Result A
not_found = err (api_error 404 "agent_run_not_found" "Agent run was not found")

-- A handler runs if `Depends(require_tenant_roles(...))` gives the tenant.
abbrev pub with_tenant :
    {A : Type 0} → Result TenantContext → (TenantContext → Session → Reply A) → Session → Reply A
with_tenant (ok tenant) body s = body tenant s
with_tenant (err failure) body s = (err failure, s)

abbrev pub for_tenant :
    {A : Type 0}
    → List Role
    → TenantContext
    → (TenantContext → Session → Reply A)
    → Session
    → Reply A
for_tenant roles tenant = with_tenant (require_tenant_roles roles tenant)

module _ (p : Platform) where
  unfoldable pub run_out : AgentRun → Fields
  unfolding safe_state
  run_out run = dict (
      ("run_id", str (p.to_text (uuid run.id)))
      ∷ ("thread_id", str run.thread_id)
      ∷ ("status", str (run_status_value run.status))
      ∷ ("current_agent", optional_text run.current_node)
      ∷ ("revision", int (pos run.revision))
      ∷ ("state", obj (safe_state run))
      ∷ ("error_code", optional_text run.error_code)
      ∷ [])

  abbrev pub answered : Result AgentRun × Session → Reply Fields
  answered (ok run, s) = (ok (run_out run), s)
  answered (err failure, s) = (err failure, s)

  abbrev pub project_known : TenantContext → Option ℕ → Session → Bool
  project_known tenant none s = true
  project_known tenant (some project_id) s = is_some (
      scalar (λ r. r.id == project_id && r.organization_id == tenant.organization.id)
        s.tables.projects)

  -- The body of `start_agent_run` for a tenant that may run it.
  abbrev pub started :
      Result LlmProvider → ℕ → ℕ → ℕ → TenantContext → Option ℕ → Fields → Session → Reply Fields
  started provider now id thread tenant project_id input_data s =
      if project_known tenant project_id s
      then (let (run, s') = create_run p id thread tenant.organization.id project_id input_data s in
          answered (execute_run p provider now run s'))
      else (err (api_error 404 "project_not_found" "Project was not found"), s)

  unfoldable pub start_agent_run :
      Result LlmProvider → ℕ → ℕ → ℕ → TenantContext → Option ℕ → Fields → Session → Reply Fields
  unfolding create_run execute_run run_out scalar require_tenant_roles
  start_agent_run provider now id thread tenant project_id input_data =
      for_tenant writers tenant (λ t. started provider now id thread t project_id input_data)

  abbrev pub tenant_run : ℕ → TenantContext → Session → Option AgentRun
  tenant_run run_id tenant s =
      scalar (λ r. r.id == run_id && r.organization_id == tenant.organization.id)
        s.tables.agent_runs

  abbrev pub shown_run : Option AgentRun → Session → Reply Fields
  shown_run none s = (not_found, s)
  shown_run (some run) s = (ok (run_out run), s)

  unfoldable pub get_agent_run : ℕ → TenantContext → Session → Reply Fields
  unfolding scalar run_out require_tenant_roles
  get_agent_run run_id tenant =
      for_tenant readers tenant (λ t s. shown_run (tenant_run run_id t s) s)

  -- What follows the decision: a new execution, the finalization, or nothing.
  abbrev pub follow_up :
      Result LlmProvider → ℕ → String → AgentRun → Session → Result AgentRun × Session
  follow_up provider now decision run s =
      if str_eq decision "revise"
      then execute_run p provider now run s
      else if str_eq decision "approve"
      then finalize_approved_run run s
      else (ok run, s)

  abbrev pub decision_out : AgentApproval → Result AgentRun × Session → Reply Fields
  decision_out approval (err failure, s) = (err failure, s)
  decision_out approval (ok run, s) = (
    ok (
        dict (
          ("run_id", str (p.to_text (uuid run.id)))
          ∷ ("decision", str approval.decision)
          ∷ ("status", str (run_status_value run.status))
          ∷ ("revision", int (pos approval.revision))
          ∷ [])),
    s,
  )

  abbrev pub decided :
      Result LlmProvider → ℕ → String → Reply (AgentApproval × AgentRun) → Reply Fields
  decided provider now decision (err failure, s) = (err failure, s)
  decided provider now decision (ok (approval, run), s) =
      decision_out approval (follow_up provider now decision run s)

  abbrev pub approved :
      Result LlmProvider
      → ℕ
      → String
      → Option String
      → TenantContext
      → Option AgentRun
      → Session
      → Reply Fields
  approved provider now decision comment tenant none s = (not_found, s)
  approved provider now decision comment tenant (some run) s = decided provider now decision (
      decide_run p now run tenant.organization.id tenant.user.id tenant.membership.role decision
        comment s)

  -- `approve_agent_run`: the run is looked up by its id alone; `decide_run` checks the tenant.
  unfoldable pub approve_agent_run :
      Result LlmProvider → ℕ → ℕ → String → Option String → TenantContext → Session → Reply Fields
  unfolding scalar decide_run execute_run finalize_approved_run require_tenant_roles
  approve_agent_run provider now run_id decision comment tenant =
      for_tenant reviewers tenant (λ t s.
        approved provider now decision comment t (scalar (λ r. r.id == run_id) s.tables.agent_runs)
          s)

  abbrev pub streamed : ℕ → Option AgentRun → Session → Reply (List AgentEvent)
  streamed after none s = (not_found, s)
  streamed after (some run) s = (ok (stream_events run.id after s), s)

  unfoldable pub agent_events : ℕ → ℕ → TenantContext → Session → Reply (List AgentEvent)
  unfolding scalar stream_events require_tenant_roles
  agent_events run_id after tenant =
      for_tenant readers tenant (λ t s. streamed after (tenant_run run_id t s) s)
