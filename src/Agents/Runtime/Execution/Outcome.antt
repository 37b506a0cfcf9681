-- ===== src/Agents/Runtime/Execution/Outcome.antt =====
-- How an execution ends: at the approval gate or failed, always durable, and never stuck on a
-- checkpoint of its own.
use coolproof.Base.{ℕ, ◌+◌, ◌≡◌, refl, ap, ◌∙◌, ◌⊎◌, inl, inr, some, [], ◌∷◌, arith}
use coolproof.Json.{Value, put, obj, dict, Fields}
use coolproof.Platform.{Platform}
use coolproof.Failure.{Failure, Result, ok, err}
use coolproof.Db.Models.{AgentRun, AgentRunStatus}
use coolproof.Db.Session.{Session}
use coolproof.Agents.Providers.{LlmProvider}
use coolproof.Agents.Runtime.State.{CoolProofState, model_dump, load_state}
use coolproof.Agents.Runtime.State.RoundTrip.{load_state-model_dump}
use coolproof.Agents.Runtime.Events.{transition}
use coolproof.Agents.Runtime.Execution.{
  checkpoint, checkpoints, settle, compute, run_loaded, execute_run,
}

-- The two ends of an execution that began at the revision `before`.
pub record AtGate (before : ℕ) (run' : AgentRun) : Type 0 where
  pub status : run'.status ≡ AgentRunStatus.waiting_approval
  pub revision : run'.revision ≡ before + 4
  pub current_node : run'.current_node ≡ some "verification"

pub record HasFailed (before : ℕ) (run' : AgentRun) : Type 0 where
  pub status : run'.status ≡ AgentRunStatus.failed
  pub revision : run'.revision ≡ before
  pub error_code : run'.error_code ≡ some "agent_run_failed"
  pub error_message : run'.error_message ≡ some "Agent execution failed"

settle_ok :
    (run : AgentRun) (s : Session) (state : CoolProofState)
    → AtGate run.revision (settle run s (ok state)).0
unfolding settle checkpoints checkpoint transition
settle_ok run s state = record { status = refl; revision = omega arith; current_node = refl }

settle_err :
    (run : AgentRun) (s : Session) (e : Failure) → HasFailed run.revision (settle run s (err e)).0
unfolding settle transition
settle_err run s e = record {
  status = refl;
  revision = refl;
  error_code = refl;
  error_message = refl;
}

settle_outcome :
    (run : AgentRun) (s : Session) (r : Result CoolProofState)
    → AtGate run.revision (settle run s r).0 ⊎ HasFailed run.revision (settle run s r).0
settle_outcome run s (ok state) = inl (settle_ok run s state)
settle_outcome run s (err e) = inr (settle_err run s e)

settle_durable :
    (run : AgentRun) (s : Session) (r : Result CoolProofState)
    → (settle run s r).1.durable ≡ (settle run s r).1.tables
unfolding settle transition
settle_durable run s (ok state) = refl
settle_durable run s (err e) = refl

abbrev pub started_run : AgentRun → AgentRun
started_run run = record run { status = AgentRunStatus.running }

-- What an execution gives back that got past loading its state.
abbrev pub Settles : AgentRun → Result AgentRun × Session → Type 0
Settles run r =
    (run' : AgentRun) × (r.0 ≡ ok run')
    × (r.1.durable ≡ r.1.tables)
    × (AtGate run.revision run' ⊎ HasFailed run.revision run')

module _ (p : Platform) (provider : LlmProvider) (now : ℕ) where
  run_loaded-Settles :
      (run : AgentRun) (s : Session) (state : CoolProofState) (loaded : Result CoolProofState)
      → loaded ≡ ok state
      → Settles run (run_loaded p provider now loaded (started_run run, s))
  run_loaded-Settles run s state loaded e =
      let r = compute p provider now (started_run run) s.tables state in
      rw (e, run_loaded)
        (
          (settle (started_run run) s r).0,
          refl,
          settle_durable (started_run run) s r,
          settle_outcome (started_run run) s r,
        )

  -- A run whose row holds a checkpoint, of whatever state, executes to an end: it reaches the
  -- approval gate with its revision four higher and the last node as its current one, or it is
  -- failed with the safe error and its revision as it was. Either way all changes are durable.
  pub execute_run_from_checkpoint :
      (run : AgentRun) (s : Session) (state : CoolProofState) (node thread : Value)
      → run.state_json
        ≡ put "checkpoint_thread_id" thread (put "checkpoint_node" node (model_dump state))
      → Settles run (execute_run p (ok provider) now run s)
  unfolding execute_run
  execute_run_from_checkpoint run s state node thread e =
      run_loaded-Settles run _ _ _
        (ap (load_state _ _ _ run.input_json) e ∙ load_state-model_dump state _ _ _ _ node thread)

  -- A run whose row holds the state of a run as it is created executes to an end: it reaches the approval
  -- gate with its revision four higher and the last node as its current one, or it is failed with the safe
  -- error and its revision as it was. Either way all changes are durable.
  pub execute_run_from_creation :
      (run : AgentRun) (s : Session) (input_data : Fields)
      → run.state_json ≡ dict (("input", obj input_data) ∷ [])
      → Settles run (execute_run p (ok provider) now run s)
  unfolding execute_run
  execute_run_from_creation run s input_data e =
      run_loaded-Settles run _ _ _
        (ap (load_state _ _ _ run.input_json) e ∙ unfold load_state in refl)
