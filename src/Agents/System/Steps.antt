-- ===== src/Agents/System/Steps.antt =====
-- Sequences of requests: whatever the tenants, providers and inputs, the invariant holds.
use coolproof.Base.{ℕ, ◌==◌, String, str_eq, Option, none, some, Bool-cases, inl, inr}
use coolproof.Json.{Fields}
use coolproof.Platform.{Platform}
use coolproof.Failure.{Failure, Result, ok, err}
use coolproof.Db.Models.{AgentRun, AgentApproval}
use coolproof.Db.Query.{scalar}
use coolproof.Db.Session.{Session, close}
use coolproof.Auth.Tenancy.{TenantContext, require_tenant_roles}
use coolproof.Agents.Providers.{LlmProvider}
use coolproof.Agents.Runtime.Execution.{create_run}
use coolproof.Agents.Runtime.Approval.{decide_run, unless_refused}
use coolproof.Agents.Api.{
  Reply, writers, reviewers, with_tenant, project_known, answered, started, start_agent_run,
  follow_up, decision_out, decided, approved, approve_agent_run,
}
use coolproof.Agents.System.Governed.{
  Covered, Governed, create_run-Governed, execute_run-Governed, finalize_approved_run-Governed,
}
use coolproof.Agents.System.Decisions.{apply_decision-Governed, apply_decision-Covered}

with_tenant-Governed :
    {A : Type 0} (r : Result TenantContext) (body : TenantContext → Session → Reply A) (s : Session)
    → ((t : TenantContext) → Governed (body t s).1)
    → Governed s
    → Governed (with_tenant r body s).1
with_tenant-Governed (ok t) body s h g = h t
with_tenant-Governed (err failure) body s h g = g

module _ (p : Platform) (provider : Result LlmProvider) (now : ℕ) where
  answered-Governed : (r : Result AgentRun × Session) → Governed r.1 → Governed (answered p r).1
  answered-Governed (ok run, s) g = g
  answered-Governed (err failure, s) g = g

  started-Governed :
      (id thread : ℕ) (tenant : TenantContext) (project_id : Option ℕ) (input_data : Fields)
      (s : Session)
      → Governed s
      → Governed (started p provider now id thread tenant project_id input_data s).1
  started-Governed id thread tenant project_id input_data s g =
      elim (Bool-cases (project_known p tenant project_id s)) [
        | inl known ↦
            let (run, s') = create_run p id thread tenant.organization.id project_id input_data s in
            rw known (
              answered-Governed _ (
                execute_run-Governed p provider now run s' (
                  create_run-Governed p id thread tenant.organization.id project_id input_data s
                    g)))
        | inr unknown ↦ rw unknown g
      ]

  pub start_agent_run-Governed :
      (id thread : ℕ) (tenant : TenantContext) (project_id : Option ℕ) (input_data : Fields)
      (s : Session)
      → Governed s
      → Governed (start_agent_run p provider now id thread tenant project_id input_data s).1
  unfolding start_agent_run
  start_agent_run-Governed id thread tenant project_id input_data s g =
      with_tenant-Governed (require_tenant_roles writers tenant)
        (λ t. started p provider now id thread t project_id input_data) s
        (λ t. started-Governed id thread t project_id input_data s g) g

  follow_up-Governed :
      (decision : String) (run : AgentRun) (s : Session)
      → Covered s.tables.agent_approvals run
      → Governed s
      → Governed (follow_up p provider now decision run s).1
  follow_up-Governed decision run s c g = elim (Bool-cases (str_eq decision "revise")) [
    | inl revise ↦ rw revise (execute_run-Governed p provider now run s g)
    | inr other ↦ rw other (elim (Bool-cases (str_eq decision "approve")) [
      | inl approve ↦ rw approve (finalize_approved_run-Governed run s c g)
      | inr reject ↦ rw reject g
    ])
  ]

  decision_out-Governed :
      (approval : AgentApproval) (r : Result AgentRun × Session)
      → Governed r.1
      → Governed (decision_out p approval r).1
  decision_out-Governed approval (ok run, s) g = g
  decision_out-Governed approval (err failure, s) g = g

  unless_refused-Governed :
      (refusal : Option Failure) (decision : String) (s : Session)
      (d : AgentApproval × AgentRun × Session)
      → Governed s
      → Governed d.2
      → Covered d.2.tables.agent_approvals d.1
      → Governed (decided p provider now decision (unless_refused refusal s d)).1
  unless_refused-Governed (some failure) decision s (approval, run, s') g g' c = g
  unless_refused-Governed none decision s (approval, run, s') g g' c =
      decision_out-Governed approval _ (follow_up-Governed decision run s' c g')

  approved-Governed :
      (decision : String) (comment : Option String) (tenant : TenantContext) (run : Option AgentRun)
      (s : Session)
      → Governed s
      → Governed (approved p provider now decision comment tenant run s).1
  unfolding decide_run
  approved-Governed decision comment tenant none s g = g
  approved-Governed decision comment tenant (some run) s g =
      unless_refused-Governed _ decision s _ g
        (apply_decision-Governed p now run tenant.organization.id tenant.user.id decision comment s
          g)
        (apply_decision-Covered p now run tenant.organization.id tenant.user.id decision comment s)

  pub approve_agent_run-Governed :
      (run_id : ℕ) (decision : String) (comment : Option String) (tenant : TenantContext)
      (s : Session)
      → Governed s
      → Governed (approve_agent_run p provider now run_id decision comment tenant s).1
  unfolding approve_agent_run
  approve_agent_run-Governed run_id decision comment tenant s g =
      with_tenant-Governed (require_tenant_roles reviewers tenant)
        (λ t s'.
          approved p provider now decision comment t
            (scalar (λ r. r.id == run_id) s'.tables.agent_runs) s')
        s (λ t. approved-Governed decision comment t _ s g) g

-- One request on the session, or its end.
pub data Step (p : Platform) (s : Session) : Session → Type 0 where
  start :
      (provider : Result LlmProvider) (now id thread : ℕ) (tenant : TenantContext)
      (project_id : Option ℕ) (input_data : Fields)
      → Step p s (start_agent_run p provider now id thread tenant project_id input_data s).1
  approve :
      (provider : Result LlmProvider) (now run_id : ℕ) (decision : String) (comment : Option String)
      (tenant : TenantContext)
      → Step p s (approve_agent_run p provider now run_id decision comment tenant s).1
  end_request : Step p s (close s)

pub data Reach (p : Platform) (s : Session) : Session → Type 0 where
  here : Reach p s s
  next : {t u : Session} → Reach p s t → Step p t u → Reach p s u

Step-Governed : {p : Platform} {s t : Session} → Step p s t → Governed s → Governed t
Step-Governed {p} {s} (start provider now id thread tenant project_id input_data) g =
    start_agent_run-Governed p provider now id thread tenant project_id input_data s g
Step-Governed {p} {s} (approve provider now run_id decision comment tenant) g =
    approve_agent_run-Governed p provider now run_id decision comment tenant s g
Step-Governed end_request g = record { now = g.stored; stored = g.stored }

-- After any requests, from any governed session: every run that is approved or completed, pending or
-- durable, has an approval row with the decision `approve`, and the events of every run are numbered
-- 1, 2, 3, … in the order in which they were added.
pub Reach-Governed : {p : Platform} {s t : Session} → Reach p s t → Governed s → Governed t
Reach-Governed here g = g
Reach-Governed (next r step) g = Step-Governed step (Reach-Governed r g)
