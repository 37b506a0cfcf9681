-- ===== src/Agents/Runtime/Execution.antt =====
-- app/agents/runtime.py: the durable run: its creation, execution, checkpoints and finalization.
pub mod Outcome
use coolproof.Base.{ℕ, ◌+◌, String, ◌<>◌, Option, none, some, List, [], ◌∷◌, ◌++◌, pos}
use coolproof.Json.{int, str, uuid, obj, Fields, put, dict}
use coolproof.Platform.{Platform}
use coolproof.Failure.{Result, ok, err, api_error, ◌>>=◌}
use coolproof.Db.Models.{AgentRun, AgentRunStatus}
use coolproof.Db.Session.{Session, Tables, commit}
use coolproof.Agents.Grounding.References.{safe_input_references}
use coolproof.Agents.Grounding.Catalogue.{resolve_grounding}
use coolproof.Agents.Providers.{LlmProvider}
use coolproof.Agents.Runtime.State.{CoolProofState, GraphInput, agent_names, model_dump, load_state}
use coolproof.Agents.Runtime.Nodes.{channels_of, run_graph}
use coolproof.Agents.Runtime.Events.{add_event, save_run, transition}

-- The run's fields at a checkpoint.
abbrev pub checkpointed : CoolProofState → String → AgentRun → AgentRun
checkpointed state name run = record run {
  current_node = some name;
  revision = run.revision + 1;
  state_json =
      put "checkpoint_thread_id" (str run.thread_id)
        (put "checkpoint_node" (str name) (model_dump state));
}

-- One round of the checkpoint loop.
unfoldable pub checkpoint : CoolProofState → String → AgentRun → Session → AgentRun × Session
unfolding add_event save_run put model_dump
checkpoint state name run s =
    let run' = checkpointed state name run in
    (
      run',
      commit (
          add_event run' "node.completed" (some name)
            (dict (("revision", int (pos run'.revision)) ∷ ("thread_id", str run.thread_id) ∷ []))
            (name <> " completed") (save_run run' s)),
    )

unfoldable pub checkpoints : CoolProofState → List String → AgentRun → Session → AgentRun × Session
unfolding checkpoint
checkpoints state [] run s = (run, s)
checkpoints state (name ∷ names) run s =
    let (run', s') = checkpoint state name run s in checkpoints state names run' s'

-- The end of the `try` block, and its `except Exception`.
unfoldable pub settle : AgentRun → Session → Result CoolProofState → AgentRun × Session
unfolding checkpoints transition
settle run s (ok state) =
    let (run', s') = checkpoints state agent_names run s in
    transition (record run' { status = AgentRunStatus.waiting_approval }) "approval.required" none
      "Manager approval required" s'
settle run s (err failure) =
    transition
      (record run {
        status = AgentRunStatus.failed;
        error_code = some "agent_run_failed";
        error_message = some "Agent execution failed";
      })
      "run.failed" run.current_node "Agent execution failed" s

abbrev pub start : AgentRun → Session → AgentRun × Session
start run s =
    transition (record run { status = AgentRunStatus.running }) "run.started" none "Run started" s

abbrev pub completed_run : AgentRun → AgentRun
completed_run run = record run {
  status = AgentRunStatus.completed;
  current_node = some "verification";
}

-- The test `run.status is not APPROVED`, and the rest.
unfoldable pub finalize_from : AgentRunStatus → AgentRun → Session → Result AgentRun × Session
unfolding transition
finalize_from AgentRunStatus.approved run s =
    let (run', s') =
      transition (completed_run run) "run.completed" (some "verification") "Approved run finalized"
        s in
    (ok run', s')
finalize_from _ run s =
    (err (api_error 409 "approval_not_available" "Only an approved run can be finalized"), s)

unfoldable pub finalize_approved_run : AgentRun → Session → Result AgentRun × Session
unfolding finalize_from
finalize_approved_run run s = finalize_from run.status run s

module _ (p : Platform) where
  abbrev pub new_run : ℕ → ℕ → ℕ → Option ℕ → Fields → AgentRun
  new_run id thread organization_id project_id safe_input = record {
    id = id;
    organization_id = organization_id;
    project_id = project_id;
    thread_id = p.to_text (uuid thread);
    status = AgentRunStatus.queued;
    input_json = safe_input;
    state_json = dict (("input", obj safe_input) ∷ []);
    current_node = none;
    revision = 0;
    error_code = none;
    error_message = none;
  }

  -- `create_run(...)`, with the new row's UUID and thread UUID.
  unfoldable pub create_run : ℕ → ℕ → ℕ → Option ℕ → Fields → Session → AgentRun × Session
  unfolding add_event safe_input_references
  create_run id thread organization_id project_id input_data s =
      let run = new_run id thread organization_id project_id (safe_input_references p input_data) in
      let t = s.tables in
      let added : Session = record s {
        tables = record t { agent_runs = t.agent_runs ++ (run ∷ []) };
      } in
      (
        run,
        commit (
            add_event run "run.created" none (dict (("status", str "queued") ∷ [])) "Run queued"
              added),
      )

  abbrev pub optional_show : Option ℕ → Option String
  optional_show none = none
  optional_show (some u) = some (p.to_text (uuid u))

  -- The state that is rebuilt from the graph's result.
  abbrev pub from_channels : AgentRun → GraphInput → CoolProofState
  from_channels run g = record {
    run_id = p.to_text (uuid run.id);
    organization_id = p.to_text (uuid run.organization_id);
    project_id = optional_show run.project_id;
    input = g.input;
    heat_evidence = g.heat_evidence;
    intervention_evidence = g.intervention_evidence;
    portfolio = g.portfolio;
    verification = g.verification;
    grounding = g.grounding;
    citations = g.citations;
    summaries = g.summaries;
    current_agent = none;
  }

  -- The part of the `try` block that may raise: the grounding, then the graph.
  unfoldable pub compute :
      LlmProvider → ℕ → AgentRun → Tables → CoolProofState → Result CoolProofState
  unfolding resolve_grounding run_graph
  compute provider now run t state =
      resolve_grounding p t run.organization_id now run.project_id run.input_json >>= λ grounding.
      run_graph p provider (channels_of (record state { grounding = grounding })) >>= λ result.
      ok (from_channels run result)

  -- From the loaded state on: a checkpoint that does not load raises outside the `try` block.
  abbrev pub run_loaded :
      LlmProvider → ℕ → Result CoolProofState → AgentRun × Session → Result AgentRun × Session
  run_loaded provider now (err failure) (run, s) = (err failure, s)
  run_loaded provider now (ok state) (run, s) =
      let (run', s') = settle run s (compute provider now run s.tables state) in (ok run', s')

  -- `execute_run(session, run, settings)`; the settings give a provider or raise.
  unfoldable pub execute_run :
      Result LlmProvider → ℕ → AgentRun → Session → Result AgentRun × Session
  unfolding compute settle transition load_state
  execute_run (err failure) now run s = (err failure, s)
  execute_run (ok provider) now run s =
      run_loaded provider now
        (load_state (p.to_text (uuid run.id)) (p.to_text (uuid run.organization_id))
          (optional_show run.project_id) run.input_json run.state_json)
        (start run s)
