-- ===== src/Agents/Runtime/Events.antt =====
-- app/agents/runtime.py: the events of a run, numbered from 1, and the run's row.
pub mod Numbering
use coolproof.Base.{
  ℕ, ◌+◌, ◌==◌, ltb, max, String, str_eq, ◌<>◌, text_in, Bool, true, false, ◌&&◌, ◌||◌, not, Option,
  none, some, List, [], ◌∷◌, ◌++◌, keep, pos, if◌then◌else◌,
}
use coolproof.Json.{Value, int, str, uuid, obj, Fields, end, put, dict}
use coolproof.Platform.{Platform}
use coolproof.Failure.{Result, ok, err, api_error, ◌>>=◌}
use coolproof.Audit.{record_audit_event}
use coolproof.Db.Models.{
  Role, manager, admin, role_eq, AgentRun, AgentRunStatus, AgentEvent, AgentApproval,
  run_status_value,
}
use coolproof.Db.Query.{save, ascending}
use coolproof.Db.Session.{Session, Tables, commit}
use coolproof.Agents.Grounding.References.{safe_input_references}
use coolproof.Agents.Grounding.Catalogue.{resolve_grounding}
use coolproof.Agents.Providers.{LlmProvider}
use coolproof.Agents.Runtime.State.{CoolProofState, GraphInput, agent_names, model_dump, load_state}
use coolproof.Agents.Runtime.Nodes.{run_graph}

-- `int(max_sequence or 0)`: the largest sequence number of the run, 0 if it has no event.
unfoldable pub max_sequence : ℕ → List AgentEvent → ℕ
max_sequence run_id [] = 0
max_sequence run_id (e ∷ es) =
    let rest = max_sequence run_id es in if e.run_id == run_id then max e.sequence rest else rest

-- `_event(...)`: the event is added to the session and not committed.
unfoldable pub add_event : AgentRun → String → Option String → Fields → String → Session → Session
unfolding max_sequence
add_event run event_type node payload summary s =
    let t = s.tables in
    record s {
      tables = record t {
        agent_events =
            t.agent_events
            ++ (record {
              run_id = run.id;
              organization_id = run.organization_id;
              sequence = max_sequence run.id t.agent_events + 1;
              event_type = event_type;
              node = node;
              payload_json = payload;
              safe_summary = summary;
            }
                ∷ []);
      };
    }

-- The run is an ORM object of the session: its changes reach the table with the next flush.
unfoldable pub save_run : AgentRun → Session → Session
unfolding save
save_run run s =
    let t = s.tables in
    record s { tables = record t { agent_runs = save (λ r. r.id) run t.agent_runs } }

-- A change of status with its event, committed.
unfoldable pub transition :
    AgentRun → String → Option String → String → Session → AgentRun × Session
unfolding add_event save_run
transition run event_type node summary s =
    (run, commit (add_event run event_type node end summary (save_run run s)))

-- `stream_events(session, run, after)`
unfoldable pub stream_events : ℕ → ℕ → Session → List AgentEvent
unfolding keep ascending
stream_events run_id after s =
    ascending (λ e. e.sequence)
      (keep (λ e. e.run_id == run_id && ltb after e.sequence) s.tables.agent_events)
