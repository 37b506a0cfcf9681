-- ===== src/Agents/System/Governed.antt =====
-- The invariant of the agent tables, and that every operation of app/agents/runtime.py keeps it.
use coolproof.Base.{
  ℕ, ◌==◌, String, str_eq, ◌≡◌, refl, ap, ◌∙◌, Bool, true, false, ◌&&◌, ◌||◌, Option, none, some,
  List, [], ◌∷◌, All, All-append, arith,
}
use coolproof.Json.{Fields, put}
use coolproof.Agents.Grounding.References.{safe_input_references}
use coolproof.Platform.{Platform}
use coolproof.Failure.{Result, ok, err}
use coolproof.Db.Models.{AgentRun, AgentRunStatus, AgentApproval}
use coolproof.Db.Query.{save}
use coolproof.Db.Session.{Session, Tables, commit}
use coolproof.Agents.Providers.{LlmProvider}
use coolproof.Agents.Runtime.State.{CoolProofState, agent_names, model_dump}
use coolproof.Agents.Runtime.Events.{add_event, save_run, transition}
use coolproof.Agents.Runtime.Events.Numbering.{IsNumbered, add_event-IsNumbered}
use coolproof.Agents.Runtime.Execution.{
  checkpointed, checkpoint, checkpoints, settle, new_run, finalize_from, completed_run, compute,
  run_loaded, create_run, execute_run, finalize_approved_run,
}

-- A run that is past the gate.
abbrev pub is_past_gate : AgentRunStatus → Bool
is_past_gate AgentRunStatus.approved = true
is_past_gate AgentRunStatus.completed = true
is_past_gate _ = false

-- There is an approval row of the run with the decision `approve`.
unfoldable pub has_approval : ℕ → List AgentApproval → Bool
has_approval run_id [] = false
has_approval run_id (a ∷ rest) =
    (a.run_id == run_id && str_eq a.decision "approve") || has_approval run_id rest

abbrev pub Covered : List AgentApproval → AgentRun → Type 0
Covered approvals run = is_past_gate run.status ≡ true → has_approval run.id approvals ≡ true

pub record GovernedTables (t : Tables) : Type 0 where
  pub covered : All (Covered t.agent_approvals) t.agent_runs
  pub numbered : (run_id : ℕ) → IsNumbered run_id t.agent_events

-- What is pending and what is durable are both governed.
pub record Governed (s : Session) : Type 0 where
  pub now : GovernedTables s.tables
  pub stored : GovernedTables s.durable

All-save :
    (P : AgentRun → Type 0) (run : AgentRun) (runs : List AgentRun)
    → P run
    → All P runs
    → All P (save (λ r. r.id) run runs)
unfolding save
All-save P run [] h hs = tt
All-save P run (r ∷ rs) h hs = ground (arith, All-save P run rs h hs.1)

pub save_run-Governed :
    (run : AgentRun) (s : Session)
    → Covered s.tables.agent_approvals run
    → Governed s
    → Governed (save_run run s)
unfolding save_run
save_run-Governed run s c g = record {
  now = record {
    covered = All-save (Covered s.tables.agent_approvals) run s.tables.agent_runs c g.now.covered;
    numbered = g.now.numbered;
  };
  stored = g.stored;
}

module _ (run : AgentRun) (event_type : String) (at : Option String) (payload : Fields)
    (summary : String) where
  pub add_event-Governed :
      (s : Session) → Governed s → Governed (add_event run event_type at payload summary s)
  unfolding add_event
  add_event-Governed s g = record {
    now = record {
      covered = g.now.covered;
      numbered =
          λ id. add_event-IsNumbered id run event_type at payload summary s (g.now.numbered id);
    };
    stored = g.stored;
  }

pub commit-Governed : (s : Session) → Governed s → Governed (commit s)
commit-Governed s g = record { now = g.now; stored = g.now }

transition-Governed :
    (run : AgentRun) (event_type : String) (at : Option String) (summary : String) (s : Session)
    → Covered s.tables.agent_approvals run
    → Governed s
    → Governed (transition run event_type at summary s).1
unfolding transition
transition-Governed run event_type at summary s c g =
    commit-Governed _
      (add_event-Governed run event_type at _ summary _ (save_run-Governed run s c g))

-- A run that is not past the gate is covered by any approvals.
Covered-of_open :
    (approvals : List AgentApproval) (run : AgentRun)
    → is_past_gate run.status ≡ false
    → Covered approvals run
Covered-of_open approvals run h past = cc

module _ (state : CoolProofState) where
  checkpoint-Governed :
      (name : String) (run : AgentRun) (s : Session)
      → is_past_gate run.status ≡ false
      → Governed s
      → Governed (checkpoint state name run s).1
  unfolding checkpoint put model_dump
  checkpoint-Governed name run s h g = commit-Governed _ (
      add_event-Governed (checkpointed state name run) "node.completed" (some name) _ _ _ (
        save_run-Governed (checkpointed state name run) s
          (Covered-of_open s.tables.agent_approvals (checkpointed state name run) h) g))

  status-checkpoint :
      (name : String) (run : AgentRun) (s : Session)
      → (checkpoint state name run s).0.status ≡ run.status
  unfolding checkpoint put model_dump
  status-checkpoint name run s = refl

  status-checkpoints :
      (names : List String) (run : AgentRun) (s : Session)
      → (checkpoints state names run s).0.status ≡ run.status
  unfolding checkpoints
  status-checkpoints [] run s = refl
  status-checkpoints (name ∷ names) run s =
      let (run', s') = checkpoint state name run s in
      status-checkpoints names run' s' ∙ status-checkpoint name run s

  checkpoints-Governed :
      (names : List String) (run : AgentRun) (s : Session)
      → is_past_gate run.status ≡ false
      → Governed s
      → Governed (checkpoints state names run s).1
  unfolding checkpoints
  checkpoints-Governed [] run s h g = g
  checkpoints-Governed (name ∷ names) run s h g =
      let (run', s') = checkpoint state name run s in
      checkpoints-Governed names run' s' (ap is_past_gate (status-checkpoint name run s) ∙ h)
        (checkpoint-Governed name run s h g)

settle-Governed :
    (run : AgentRun) (s : Session) (r : Result CoolProofState)
    → is_past_gate run.status ≡ false
    → Governed s
    → Governed (settle run s r).1
unfolding settle
settle-Governed run s (ok state) h g =
    let (run', s') = checkpoints state agent_names run s in
    transition-Governed (record run' { status = AgentRunStatus.waiting_approval })
      "approval.required" none "Manager approval required" s' (λ past. cc)
      (checkpoints-Governed state agent_names run s h g)
settle-Governed run s (err failure) h g =
    transition-Governed
      (record run {
        status = AgentRunStatus.failed;
        error_code = some "agent_run_failed";
        error_message = some "Agent execution failed";
      })
      "run.failed" run.current_node "Agent execution failed" s (λ past. cc) g

module _ (p : Platform) where
  run_loaded-Governed :
      (provider : LlmProvider) (now : ℕ) (loaded : Result CoolProofState) (run : AgentRun)
      (s : Session)
      → is_past_gate run.status ≡ false
      → Governed s
      → Governed (run_loaded p provider now loaded (run, s)).1
  unfolding compute settle
  run_loaded-Governed provider now (err failure) run s h g = g
  run_loaded-Governed provider now (ok state) run s h g = settle-Governed run s _ h g

  pub execute_run-Governed :
      (provider : Result LlmProvider) (now : ℕ) (run : AgentRun) (s : Session)
      → Governed s
      → Governed (execute_run p provider now run s).1
  unfolding execute_run
  execute_run-Governed (err failure) now run s g = g
  execute_run-Governed (ok provider) now run s g =
      run_loaded-Governed provider now _ (record run { status = AgentRunStatus.running }) _ refl
        (transition-Governed (record run { status = AgentRunStatus.running }) "run.started" none
          "Run started" s (λ past. cc) g)

  pub create_run-Governed :
      (id thread organization_id : ℕ) (project_id : Option ℕ) (input_data : Fields) (s : Session)
      → Governed s
      → Governed (create_run p id thread organization_id project_id input_data s).1
  unfolding create_run
  create_run-Governed id thread organization_id project_id input_data s g = commit-Governed _ (
      add_event-Governed
        (new_run p id thread organization_id project_id (safe_input_references p input_data))
        "run.created" none _ "Run queued" _
        (record {
          now = record {
            covered =
                All-append (Covered s.tables.agent_approvals) s.tables.agent_runs _ g.now.covered
                  ((λ past. cc), tt);
            numbered = g.now.numbered;
          };
          stored = g.stored;
        }))

finalize_from-Governed :
    (status : AgentRunStatus) (run : AgentRun) (s : Session)
    → run.status ≡ status
    → Covered s.tables.agent_approvals run
    → Governed s
    → Governed (finalize_from status run s).1
unfolding finalize_from
finalize_from-Governed AgentRunStatus.approved run s e c g =
    transition-Governed (completed_run run) "run.completed" (some "verification")
      "Approved run finalized" s (λ past. c (ap is_past_gate e)) g
finalize_from-Governed _ run s e c g = g

-- An approved run is covered already, so its completion is.
pub finalize_approved_run-Governed :
    (run : AgentRun) (s : Session)
    → Covered s.tables.agent_approvals run
    → Governed s
    → Governed (finalize_approved_run run s).1
unfolding finalize_approved_run
finalize_approved_run-Governed run s c g = finalize_from-Governed run.status run s refl c g
