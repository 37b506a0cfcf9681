-- ===== src/Agents/Runtime/Nodes.antt =====
-- app/agents/runtime.py: `_run_node`, and the compiled graph that chains the four nodes.
pub mod Boundary
pub mod Citations
use coolproof.Base.{String, str_eq, text_in, none, some, List, [], ◌∷◌, ◌++◌, map, if◌then◌else◌}
use coolproof.Json.{str, arr, obj, Fields, end, merge, dict, items_of, is_truthy}
use coolproof.Platform.{Platform}
use coolproof.Failure.{Result, ok, ◌>>=◌}
use coolproof.Agents.Providers.{AgentOutput, LlmProvider}
use coolproof.Agents.Grounding.Facts.{safe_provider_facts}
use coolproof.Agents.Grounding.Summary.{grounded_citations, summary_for_agent}
use coolproof.Agents.Runtime.State.{CoolProofState, GraphInput, agent_names}

-- `citations.extend(c for c in new if c not in citations)`: the generator is read lazily, so it sees
-- what was appended before.
unfoldable pub extend_new : List String → List String → List String
unfolding text_in
extend_new citations [] = citations
extend_new citations (c ∷ new) =
    extend_new (if text_in c citations then citations else citations ++ (c ∷ [])) new

-- `summaries[name] = text`
unfoldable pub set_summary : String → String → List (String × String) → List (String × String)
set_summary name text [] = (name, text) ∷ []
set_summary name text ((k, s) ∷ d) =
    if str_eq k name then (k, text) ∷ d else (k, s) ∷ set_summary name text d

-- The context that a provider sees: never the request's input.
unfoldable pub provider_context : CoolProofState → Fields
provider_context s = dict (
    ("grounding", obj s.grounding)
    ∷ ("heat_evidence", obj s.heat_evidence)
    ∷ ("intervention_evidence", arr (items_of (map obj s.intervention_evidence)))
    ∷ ("portfolio", obj s.portfolio)
    ∷ ("verification", obj s.verification)
    ∷ [])

-- The last `if` of `_run_node`: where a node's facts go.
unfoldable pub record_facts : String → String → Fields → CoolProofState → CoolProofState
unfolding merge
record_facts name summary facts s =
    if str_eq name "heat_intelligence"
    then record s { heat_evidence = merge s.heat_evidence facts }
    else if str_eq name "intervention_analyst"
    then record s {
      intervention_evidence =
          s.intervention_evidence ++ (merge (dict (("summary", str summary) ∷ [])) facts ∷ []);
    }
    else if str_eq name "portfolio"
    then record s { portfolio = merge s.portfolio facts }
    else record s { verification = merge s.verification facts }

-- The state that a node of the compiled graph starts from: the keys of the run and `current_agent`
-- are no channels, so LangGraph does not carry them.
abbrev pub entry_state : GraphInput → CoolProofState
entry_state raw = record {
  run_id = "langgraph";
  organization_id = "langgraph";
  project_id = none;
  input = raw.input;
  heat_evidence = raw.heat_evidence;
  intervention_evidence = raw.intervention_evidence;
  portfolio = raw.portfolio;
  verification = raw.verification;
  grounding = raw.grounding;
  citations = raw.citations;
  summaries = raw.summaries;
  current_agent = none;
}

abbrev pub channels_of : CoolProofState → GraphInput
channels_of s = record {
  input = s.input;
  heat_evidence = s.heat_evidence;
  intervention_evidence = s.intervention_evidence;
  portfolio = s.portfolio;
  verification = s.verification;
  citations = s.citations;
  summaries = s.summaries;
  grounding = s.grounding;
}

module _ (p : Platform) where
  -- The branch of a grounded state: nothing of the provider's text is kept.
  unfoldable pub absorb_grounded : String → AgentOutput → CoolProofState → CoolProofState
  unfolding set_summary extend_new record_facts grounded_citations summary_for_agent
      safe_provider_facts
  absorb_grounded name output s =
      let summary = summary_for_agent p name s.grounding in
      record_facts name summary (safe_provider_facts p output.facts) (record s {
        current_agent = some name;
        summaries = set_summary name summary s.summaries;
        input = end;
        citations = extend_new s.citations (grounded_citations s.grounding);
      })

  -- The branch of a state without grounding, which callers of `build_graph` use directly.
  unfoldable pub absorb_direct : String → AgentOutput → CoolProofState → CoolProofState
  unfolding set_summary extend_new record_facts
  absorb_direct name output s = record_facts name output.summary output.facts (record s {
    current_agent = some name;
    summaries = set_summary name output.summary s.summaries;
    citations = extend_new s.citations output.citations;
  })

  -- `_run_node(state, name, provider)`
  unfoldable pub run_node : LlmProvider → String → CoolProofState → Result CoolProofState
  unfolding absorb_grounded absorb_direct provider_context
  run_node provider name s = provider.complete name (provider_context s) >>= λ output.
      ok (
        if is_truthy s.grounding
        then absorb_grounded name output s
        else absorb_direct name output s)

  -- `invoke(raw)`: the channels become a state, and the node's result becomes channels.
  unfoldable pub invoke : LlmProvider → String → GraphInput → Result GraphInput
  unfolding run_node
  invoke provider agent raw = run_node provider agent (entry_state raw) >>= λ s. ok (channels_of s)

  -- The edges `START → … → END` of the compiled graph, one node after another.
  unfoldable pub run_chain : LlmProvider → List String → GraphInput → Result GraphInput
  unfolding invoke
  run_chain provider [] raw = ok raw
  run_chain provider (agent ∷ agents) raw =
      invoke provider agent raw >>= λ next. run_chain provider agents next

  -- `compiled.ainvoke(raw_state)`
  unfoldable pub run_graph : LlmProvider → GraphInput → Result GraphInput
  unfolding run_chain
  run_graph provider raw = run_chain provider agent_names raw
