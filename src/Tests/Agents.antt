-- ===== src/Tests/Agents.antt =====
-- The runtime's theorems at concrete runs.
use coolproof.Base.{length, String, text_in, ◌≡◌, refl, none, some, [], ◌∷◌, drop, keep, ends_with}
use coolproof.Json.{str, obj, arr, cons, nil, Fields, end, put, dict}
use coolproof.Failure.{Failure, Result, ok, err, api_error}
use coolproof.Db.Models.{manager, analyst, AgentRun, AgentRunStatus, AgentApproval}
use coolproof.Db.Session.{Session, no_tables, open_session}
use coolproof.Agents.Providers.{deterministic_provider, deterministic_complete}
use coolproof.Agents.Grounding.Facts.{safe_provider_facts}
use coolproof.Agents.Runtime.State.{CoolProofState, GraphInput, model_dump, load_state}
use coolproof.Agents.Runtime.State.RoundTrip.{load_state-model_dump}
use coolproof.Agents.Runtime.Nodes.{run_graph}
use coolproof.Agents.Runtime.Nodes.Boundary.{Agree, execute_run_agree}
use coolproof.Agents.Runtime.Nodes.Citations.{AreGrounded, run_graph-AreGrounded}
use coolproof.Agents.Runtime.Events.{add_event, stream_events}
use coolproof.Agents.Runtime.Events.Numbering.{events_of, IsNumbered, stream_events-eq-drop}
use coolproof.Agents.Runtime.Execution.{execute_run}
use coolproof.Agents.Runtime.Execution.Outcome.{
  Settles, execute_run_from_checkpoint, execute_run_from_creation,
}
use coolproof.Agents.Runtime.Approval.{decide_run, decided_run}
use coolproof.Agents.Runtime.Approval.Gate.{
  Permitted, IsRecorded, decide_run-Permitted, decide_run_refused, decide_run_once,
}
use coolproof.Agents.Api.{start_agent_run, approve_agent_run, get_agent_run, run_out}
use coolproof.Agents.System.Governed.{Governed}
use coolproof.Agents.System.Steps.{Step, Reach, Reach-Governed}
use coolproof.Tests.Data.{plain, boss, empty_session, waiting_run, loud_provider}

-- A run is started and then approved.
abbrev started : Session
started = (start_agent_run plain (ok deterministic_provider) 9 7 8 boss none end empty_session).1

abbrev approved_session : Session
approved_session =
    (approve_agent_run plain (ok deterministic_provider) 10 7 "approve" none boss started).1

empty-Governed : Governed empty_session
empty-Governed = record {
  now = record { covered = tt; numbered = λ run_id. unfold keep in refl };
  stored = record { covered = tt; numbered = λ run_id. unfold keep in refl };
}

two_steps : Reach plain empty_session approved_session
two_steps =
    Reach.next (Reach.next Reach.here (Step.start (ok deterministic_provider) 9 7 8 boss none end))
      (Step.approve (ok deterministic_provider) 10 7 "approve" none boss)

Reach-Governed_example : Governed approved_session
Reach-Governed_example = Reach-Governed two_steps empty-Governed

providers-Agree :
    (agent : String) (context : Fields)
    → Agree plain
        (deterministic_provider.complete agent context)
        (loud_provider.complete agent context)
unfolding deterministic_complete safe_provider_facts put ends_with text_in
providers-Agree agent context = refl

execute_run_agree_example :
    execute_run plain (ok deterministic_provider) 9 waiting_run empty_session
    ≡ execute_run plain (ok loud_provider) 9 waiting_run empty_session
execute_run_agree_example =
    execute_run_agree plain deterministic_provider loud_provider providers-Agree 9 waiting_run
      empty_session

may_approve : Permitted waiting_run 1 manager "approve"
may_approve = record {
  reviewer = refl;
  organization = refl;
  waiting = refl;
  known = unfold text_in in refl;
}

-- The run is stored.
abbrev waiting_session : Session
waiting_session = open_session (record no_tables { agent_runs = waiting_run ∷ [] })

decide_run-Permitted_example :
    (approval : AgentApproval) × (decided : AgentRun) × (s' : Session) × (decide_run plain 9
        waiting_run 1 5 manager "approve" none waiting_session
      ≡ (ok (approval, decided), s'))
    × IsRecorded waiting_run 1 5 "approve" none waiting_session approval decided s'
decide_run-Permitted_example =
    decide_run-Permitted plain 9 waiting_run 1 5 manager "approve" none waiting_session may_approve

abbrev role_refused : Failure
role_refused =
    api_error 403 "approval_role_required" "Only managers or admins may approve agent runs"

analyst_refused :
    decide_run plain 9 waiting_run 1 5 analyst "approve" none empty_session
    ≡ (err role_refused, empty_session)
unfolding decide_run
analyst_refused = refl

decide_run_refused_example :
    (empty_session ≡ empty_session) × (Permitted waiting_run 1 analyst "approve" → ⊥)
decide_run_refused_example =
    decide_run_refused plain 9 waiting_run 1 5 analyst "approve" none empty_session role_refused
      empty_session analyst_refused

decide_run_once_example :
    (e : Failure) × (decide_run plain 9
        (decided_run waiting_run "reject")
        1
        5
        manager
        "approve"
        none
        empty_session
      ≡ (err e, empty_session))
decide_run_once_example =
    decide_run_once plain 9 waiting_run 1 5 manager "reject" "approve" none empty_session

-- A state with a grounding of one citation, as a checkpoint holds it.
abbrev cited : Fields
cited = dict (("citations", arr (cons (str "heat:1") nil)) ∷ [])

abbrev some_state : CoolProofState
some_state = record {
  run_id = "r";
  organization_id = "o";
  project_id = none;
  input = end;
  heat_evidence = end;
  intervention_evidence = [];
  portfolio = end;
  verification = end;
  grounding = cited;
  citations = "heat:0" ∷ [];
  summaries = ("portfolio", "done") ∷ [];
  current_agent = some "portfolio";
}

abbrev checkpoint_json : Fields
checkpoint_json =
    put "checkpoint_thread_id" (str "t")
      (put "checkpoint_node" (str "portfolio") (model_dump some_state))

load_state-model_dump_example :
    load_state "r2" "o2" (some "p") end checkpoint_json
    ≡ ok (record some_state {
      run_id = "r2";
      organization_id = "o2";
      project_id = some "p";
      input = end;
    })
load_state-model_dump_example =
    load_state-model_dump some_state "r2" "o2" (some "p") end (str "portfolio") (str "t")

abbrev resumed_run : AgentRun
resumed_run = record waiting_run { status = AgentRunStatus.queued; state_json = checkpoint_json }

execute_run_from_checkpoint_example :
    Settles resumed_run (execute_run plain (ok deterministic_provider) 9 resumed_run empty_session)
execute_run_from_checkpoint_example =
    execute_run_from_checkpoint plain deterministic_provider 9 resumed_run empty_session some_state
      (str "portfolio") (str "t") refl

abbrev fresh_run : AgentRun
fresh_run = record waiting_run {
  status = AgentRunStatus.queued;
  revision = 0;
  state_json = dict (("input", obj end) ∷ []);
}

execute_run_from_creation_example :
    Settles fresh_run (execute_run plain (ok loud_provider) 9 fresh_run empty_session)
execute_run_from_creation_example =
    execute_run_from_creation plain loud_provider 9 fresh_run empty_session end refl

abbrev channels : GraphInput
channels = record {
  input = end;
  heat_evidence = end;
  intervention_evidence = [];
  portfolio = end;
  verification = end;
  citations = "heat:0" ∷ [];
  summaries = [];
  grounding = cited;
}

-- What the four nodes leave, whose provider cites "made-up".
abbrev or_channels : Result GraphInput → GraphInput
or_channels (ok g) = g
or_channels (err e) = channels

loud_graph :
    run_graph plain loud_provider channels
    ≡ ok (or_channels (run_graph plain loud_provider channels))
unfolding run_graph
loud_graph = refl

run_graph-AreGrounded_example :
    AreGrounded
      ("heat:0" ∷ [])
      cited
      (or_channels (run_graph plain loud_provider channels)).citations
run_graph-AreGrounded_example =
    run_graph-AreGrounded plain loud_provider channels
      (or_channels (run_graph plain loud_provider channels)) refl (unfold text_in in (refl, tt))
      loud_graph

abbrev two_events : Session
two_events =
    add_event waiting_run "run.started" none end "Run started"
      (add_event waiting_run "run.created" none end "Run queued" empty_session)

two_events-IsNumbered : IsNumbered 7 two_events.tables.agent_events
unfolding add_event keep
two_events-IsNumbered = refl

stream_events-eq-drop_example :
    stream_events 7 1 two_events ≡ drop 1 (events_of 7 two_events.tables.agent_events)
stream_events-eq-drop_example = stream_events-eq-drop 7 1 two_events two_events-IsNumbered

-- One event is left behind the first.
one_event_left : length (stream_events 7 1 two_events) ≡ 1
unfolding stream_events add_event
one_event_left = refl

abbrev with_run : Session
with_run = open_session (record no_tables { agent_runs = waiting_run ∷ [] })

shown : get_agent_run plain 7 boss with_run ≡ (ok (run_out plain waiting_run), with_run)
unfolding get_agent_run
shown = refl
