-- ===== src/Agents/Runtime/Approval.antt =====
-- app/agents/runtime.py: the approval gate, `decide_run`.
pub mod Gate
use coolproof.Base.{
  ℕ, ◌==◌, String, str_eq, ◌<>◌, text_in, Bool, true, false, ◌||◌, not, Option, none, some, [], ◌∷◌,
  ◌++◌, pos, if◌then◌else◌,
}
use coolproof.Json.{int, end, dict}
use coolproof.Platform.{Platform}
use coolproof.Failure.{Failure, Result, ok, err, api_error}
use coolproof.Audit.{record_audit_event}
use coolproof.Db.Models.{Role, manager, admin, role_eq, AgentRun, AgentRunStatus, AgentApproval}
use coolproof.Db.Session.{Session, commit}
use coolproof.Agents.Runtime.Events.{add_event, save_run}

abbrev pub is_reviewer : Role → Bool
is_reviewer r = role_eq r manager || role_eq r admin

abbrev pub is_waiting : AgentRunStatus → Bool
is_waiting AgentRunStatus.waiting_approval = true
is_waiting _ = false

-- The status that a decision leads to, for the three valid decisions.
abbrev pub decided_status : String → AgentRunStatus
decided_status decision =
    if str_eq decision "approve"
    then AgentRunStatus.approved
    else if str_eq decision "reject"
    then AgentRunStatus.rejected
    else AgentRunStatus.queued

abbrev pub decision_event : String → String
decision_event decision =
    if str_eq decision "revise" then "run.revision_requested" else "run." <> decision <> "d"

abbrev pub approval_of : AgentRun → ℕ → ℕ → String → Option String → AgentApproval
approval_of run organization_id reviewer decision comment = record {
  run_id = run.id;
  organization_id = organization_id;
  decision = decision;
  reviewer_user_id = reviewer;
  comment = comment;
  revision = run.revision;
}

abbrev pub decided_run : AgentRun → String → AgentRun
decided_run run decision = record run { status = decided_status decision }

-- `session.add(approval)`
abbrev pub add_approval : AgentApproval → Session → Session
add_approval approval s =
    let t = s.tables in
    record s { tables = record t { agent_approvals = t.agent_approvals ++ (approval ∷ []) } }

-- The guards of `decide_run`, in order: the error of the first that fails.
unfoldable pub decision_refusal : AgentRun → ℕ → Role → String → Option Failure
unfolding text_in
decision_refusal run organization_id role decision =
    if not (is_reviewer role)
    then some
        (api_error 403 "approval_role_required" "Only managers or admins may approve agent runs")
    else if not (run.organization_id == organization_id)
    then some (api_error 404 "agent_run_not_found" "Agent run was not found")
    else if not (is_waiting run.status)
    then some (api_error 409 "approval_not_available" "This run is not awaiting approval")
    else if not (text_in decision ("approve" ∷ "reject" ∷ "revise" ∷ []))
    then some
        (api_error 422 "invalid_approval_decision" "Decision must be approve, reject, or revise")
    else none

abbrev pub unless_refused :
    Option Failure
    → Session
    → AgentApproval × AgentRun × Session
    → Result (AgentApproval × AgentRun) × Session
unless_refused (some failure) s (approval, run, s') = (err failure, s)
unless_refused none s (approval, run, s') = (ok (approval, run), s')

module _ (p : Platform) where
  -- The part of `decide_run` after its guards.
  unfoldable pub apply_decision :
      ℕ → AgentRun → ℕ → ℕ → String → Option String → Session → AgentApproval × AgentRun × Session
  unfolding add_event save_run record_audit_event
  apply_decision now run organization_id reviewer decision comment s =
      let approval = approval_of run organization_id reviewer decision comment in
      let run' = decided_run run decision in
      let noted : Session =
        add_event run' (decision_event decision) none end ("Run " <> decision <> "d")
          (save_run run' (add_approval approval s)) in
      (
        approval,
        run',
        commit (
            record_audit_event p now organization_id (some reviewer) ("agent_run." <> decision)
              "agent_run" run.id (dict (("revision", int (pos run.revision)) ∷ [])) noted),
      )

  -- `decide_run(...)`
  unfoldable pub decide_run :
      ℕ
      → AgentRun
      → ℕ
      → ℕ
      → Role
      → String
      → Option String
      → Session
      → Result (AgentApproval × AgentRun) × Session
  unfolding apply_decision decision_refusal
  decide_run now run organization_id reviewer role decision comment s =
      unless_refused (decision_refusal run organization_id role decision) s
        (apply_decision now run organization_id reviewer decision comment s)
