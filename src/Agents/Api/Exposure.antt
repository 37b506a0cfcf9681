-- ===== src/Agents/Api/Exposure.antt =====
-- What an API answer shows of a run: only the tenant's own, and never the request's input.
use coolproof.Base.{
  ℕ, ◌==◌, String, str_eq, true, ◌&&◌, ◌≡◌, refl, Option, none, some, arith, if◌then◌else◌,
  Bool-cases, inl, inr,
}
use coolproof.Json.{Fields, get}
use coolproof.Json.Laws.{get-remove}
use coolproof.Platform.{Platform}
use coolproof.Failure.{ok}
use coolproof.Db.Models.{AgentRun}
use coolproof.Db.Query.{scalar_sound}
use coolproof.Db.Session.{Session}
use coolproof.Auth.Tenancy.{TenantContext, require_tenant_roles, role_in}
use coolproof.Agents.Api.{safe_state, run_out, tenant_run, shown_run, get_agent_run, readers}

-- The state of a run as an answer shows it is its stored state without the key `input`: that key is
-- missing, and every other key holds what is stored.
get-safe_state :
    (run : AgentRun) (key : String)
    → get key (safe_state run) ≡ (if str_eq "input" key then none else get key run.state_json)
unfolding safe_state
get-safe_state run key = get-remove "input" key run.state_json

both : (a b c d : ℕ) → ((a == b) && (c == d)) ≡ true → (a ≡ b) × (c ≡ d)
both a b c d h = ground arith

-- A run that is shown is the tenant's own and the one that was asked for.
abbrev pub Own : ℕ → TenantContext → AgentRun → Type 0
Own run_id tenant run = (run.id ≡ run_id) × (run.organization_id ≡ tenant.organization.id)

tenant_run-Own :
    (p : Platform) (run_id : ℕ) (tenant : TenantContext) (s : Session) (run : AgentRun)
    → tenant_run p run_id tenant s ≡ some run
    → Own run_id tenant run
tenant_run-Own p run_id tenant s run h =
    scalar_sound (Own run_id tenant)
      (λ r. r.id == run_id && r.organization_id == tenant.organization.id) s.tables.agent_runs
      (λ r e. both r.id run_id r.organization_id tenant.organization.id e) h

shown-Own :
    (p : Platform) (run_id : ℕ) (tenant : TenantContext) (o : Option AgentRun) (s s' : Session)
    (out : Fields)
    → ((run : AgentRun) → o ≡ some run → Own run_id tenant run)
    → shown_run p o s ≡ (ok out, s')
    → (s ≡ s') × ((run : AgentRun) × Own run_id tenant run × (out ≡ run_out p run))
shown-Own p run_id tenant none s s' out own h = absurd (cc h)
shown-Own p run_id tenant (some run) s s' out own h = (cc h, (run, own run refl, cc h))

-- `GET /agent-runs/{run_id}` answers only with a run of the tenant's organization, whatever other
-- runs are stored, and changes nothing.
get_agent_run-tenant :
    (p : Platform) (run_id : ℕ) (tenant : TenantContext) (s s' : Session) (out : Fields)
    → get_agent_run p run_id tenant s ≡ (ok out, s')
    → (s ≡ s') × ((run : AgentRun) × Own run_id tenant run × (out ≡ run_out p run))
unfolding get_agent_run require_tenant_roles
get_agent_run-tenant p run_id tenant s s' out h =
    elim (Bool-cases (role_in tenant.membership.role readers)) [
      | inl allowed ↦
          shown-Own p run_id tenant (tenant_run p run_id tenant s) s s' out
            (tenant_run-Own p run_id tenant s) (rw allowed at h)
      | inr other ↦ absurd (cc (rw other at h))
    ]
