-- ===== src/Agents/Runtime/State.antt =====
-- app/agents/runtime.py: the state of the graph, and its form in the run's checkpoint.
pub mod RoundTrip
use coolproof.Base.{String, str_eq, Option, none, some, List, [], ◌∷◌, map, if◌then◌else◌}
use coolproof.Json.{
  Value, null, str, arr, obj, Fields, end, field, get, dict, items_of, list_of, optional_text,
}
use coolproof.Failure.{Result, ok, err, validation_error, ◌>>=◌}

abbrev pub agent_names : List String
agent_names = "heat_intelligence" ∷ "intervention_analyst" ∷ "portfolio" ∷ "verification" ∷ []

pub record CoolProofState : Type 0 where
  pub run_id : String
  pub organization_id : String
  pub project_id : Option String
  pub input : Fields
  pub heat_evidence : Fields
  pub intervention_evidence : List Fields
  pub portfolio : Fields
  pub verification : Fields
  pub grounding : Fields
  pub citations : List String
  pub summaries : List (String × String)
  pub current_agent : Option String

-- The channels of the graph, `GraphInput`: what LangGraph carries from node to node.
pub record GraphInput : Type 0 where
  pub input : Fields
  pub heat_evidence : Fields
  pub intervention_evidence : List Fields
  pub portfolio : Fields
  pub verification : Fields
  pub citations : List String
  pub summaries : List (String × String)
  pub grounding : Fields

abbrev pub text_dict : List (String × String) → Fields
text_dict [] = end
text_dict ((k, s) ∷ d) = field k (str s) (text_dict d)

-- `state.model_dump(mode="json")`
unfoldable pub model_dump : CoolProofState → Fields
model_dump s = dict (
    ("run_id", str s.run_id)
    ∷ ("organization_id", str s.organization_id)
    ∷ ("project_id", optional_text s.project_id)
    ∷ ("input", obj s.input)
    ∷ ("heat_evidence", obj s.heat_evidence)
    ∷ ("intervention_evidence", arr (items_of (map obj s.intervention_evidence)))
    ∷ ("portfolio", obj s.portfolio)
    ∷ ("verification", obj s.verification)
    ∷ ("grounding", obj s.grounding)
    ∷ ("citations", arr (items_of (map str s.citations)))
    ∷ ("summaries", obj (text_dict s.summaries))
    ∷ ("current_agent", optional_text s.current_agent)
    ∷ [])

abbrev invalid : {A : Type 0} → String → Result A
invalid name = err (validation_error name)

-- The validation of one field: a missing key takes the default.
abbrev pub dict_field : String → Option Value → Result Fields
dict_field name none = ok end
dict_field name (some (obj d)) = ok d
dict_field name _ = invalid name

abbrev pub dicts : String → List Value → Result (List Fields)
dicts name [] = ok []
dicts name (obj d ∷ vs) = dicts name vs >>= λ ds. ok (d ∷ ds)
dicts name (_ ∷ vs) = invalid name

abbrev pub dict_list_field : String → Option Value → Result (List Fields)
dict_list_field name none = ok []
dict_list_field name (some (arr items)) = dicts name (list_of items)
dict_list_field name _ = invalid name

abbrev pub texts : String → List Value → Result (List String)
texts name [] = ok []
texts name (str s ∷ vs) = texts name vs >>= λ ss. ok (s ∷ ss)
texts name (_ ∷ vs) = invalid name

abbrev pub text_list_field : String → Option Value → Result (List String)
text_list_field name none = ok []
text_list_field name (some (arr items)) = texts name (list_of items)
text_list_field name _ = invalid name

abbrev pub text_pairs : String → Fields → Result (List (String × String))
text_pairs name end = ok []
text_pairs name (field k (str s) d) = text_pairs name d >>= λ ps. ok ((k, s) ∷ ps)
text_pairs name (field k _ d) = invalid name

abbrev pub text_dict_field : String → Option Value → Result (List (String × String))
text_dict_field name none = ok []
text_dict_field name (some (obj d)) = text_pairs name d
text_dict_field name _ = invalid name

abbrev pub optional_text_field : String → Option Value → Result (Option String)
optional_text_field name none = ok none
optional_text_field name (some null) = ok none
optional_text_field name (some (str s)) = ok (some s)
optional_text_field name _ = invalid name

-- `CoolProofState(run_id=…, organization_id=…, project_id=…, input=…, **{the keys of _STATE_FIELDS})`
unfoldable pub load_state :
    String → String → Option String → Fields → Fields → Result CoolProofState
unfolding get
load_state run_id organization_id project_id input_data d =
    dict_field "heat_evidence" (get "heat_evidence" d) >>= λ heat.
    dict_list_field "intervention_evidence" (get "intervention_evidence" d) >>= λ interventions.
    dict_field "portfolio" (get "portfolio" d) >>= λ portfolio.
    dict_field "verification" (get "verification" d) >>= λ verification.
    text_list_field "citations" (get "citations" d) >>= λ citations.
    text_dict_field "summaries" (get "summaries" d) >>= λ summaries.
    optional_text_field "current_agent" (get "current_agent" d) >>= λ current_agent.
    dict_field "grounding" (get "grounding" d) >>= λ grounding. ok (record {
      run_id = run_id;
      organization_id = organization_id;
      project_id = project_id;
      input = input_data;
      heat_evidence = heat;
      intervention_evidence = interventions;
      portfolio = portfolio;
      verification = verification;
      grounding = grounding;
      citations = citations;
      summaries = summaries;
      current_agent = current_agent;
    })
