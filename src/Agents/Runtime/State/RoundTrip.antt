-- ===== src/Agents/Runtime/State/RoundTrip.antt =====
-- A state survives its checkpoint.
use coolproof.Base.{String, ◌≡◌, refl, Option, none, some, List, [], ◌∷◌, map}
use coolproof.Json.{Value, str, obj, Fields, put, items_of, list_of, optional_text}
use coolproof.Failure.{ok}
use coolproof.Agents.Runtime.State.{
  CoolProofState, text_dict, model_dump, dicts, texts, text_pairs, optional_text_field, load_state,
}

dicts-map :
    (name : String) (ds : List Fields) → dicts name (list_of (items_of (map obj ds))) ≡ ok ds
dicts-map name [] = refl
dicts-map name (d ∷ ds) = rw (dicts-map name ds)

texts-map :
    (name : String) (ss : List String) → texts name (list_of (items_of (map str ss))) ≡ ok ss
texts-map name [] = refl
texts-map name (s ∷ ss) = rw (texts-map name ss)

text_pairs-text_dict :
    (name : String) (ps : List (String × String)) → text_pairs name (text_dict ps) ≡ ok ps
text_pairs-text_dict name [] = refl
text_pairs-text_dict name ((k, s) ∷ ps) = rw (text_pairs-text_dict name ps)

optional_text_field-optional_text :
    (name : String) (o : Option String) → optional_text_field name (some (optional_text o)) ≡ ok o
optional_text_field-optional_text name none = refl
optional_text_field-optional_text name (some s) = refl

-- A checkpoint, to which the executor adds its two `checkpoint_…` keys, loads as the state that was
-- dumped, with the identity of the run that loads it.
pub load_state-model_dump :
    (s : CoolProofState) (run_id organization_id : String) (project_id : Option String)
    (input_data : Fields) (node thread : Value)
    → load_state run_id organization_id project_id input_data
        (put "checkpoint_thread_id" thread (put "checkpoint_node" node (model_dump s)))
      ≡ ok (record s {
        run_id = run_id;
        organization_id = organization_id;
        project_id = project_id;
        input = input_data;
      })
unfolding load_state model_dump put
load_state-model_dump s run_id organization_id project_id input_data node thread = rw (
  dicts-map "intervention_evidence" s.intervention_evidence,
  texts-map "citations" s.citations,
  text_pairs-text_dict "summaries" s.summaries,
  optional_text_field-optional_text "current_agent" s.current_agent,
)
