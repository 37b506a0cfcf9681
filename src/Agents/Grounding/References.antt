-- ===== src/Agents/Grounding/References.antt =====
-- app/agents/grounding.py: the references that a request names, and the part that is persisted.
pub mod Persisted
use coolproof.Base.{ℕ, String, Option, none, some, List, [], ◌∷◌, map, if◌then◌else◌, ◌<>◌}
use coolproof.Json.{
  Value, null, str, uuid, arr, obj, Fields, end, field, get, items_of, list_of, dict, is_truthy,
}
use coolproof.Platform.{Platform}
use coolproof.Failure.{Failure, Result, ok, err, grounding_error, ◌>>=◌}

module _ (p : Platform) where
  abbrev pub read_uuid : Value → Option ℕ
  read_uuid (uuid u) = some u
  read_uuid v = p.parse_uuid (p.to_text v)

  abbrev pub or_invalid : Option ℕ → String → Result ℕ
  or_invalid (some u) reference = ok u
  or_invalid none reference = err (grounding_error ("invalid_" <> reference <> "_reference"))

  -- `_uuid(value, reference)`
  unfoldable pub to_uuid : Value → String → Result ℕ
  to_uuid value reference = or_invalid (read_uuid value) reference

abbrev pub one_or_many : Value → List Value
one_or_many null = []
one_or_many (arr items) = list_of items
one_or_many value = value ∷ []

abbrev pub pick : List String → Fields → List Value
pick [] source = []
pick (name ∷ names) source = elim (get name source) [
  | some value ↦ one_or_many value
  | none ↦ pick names source
]

pub record References : Type 0 where
  pub heat : List Value
  pub portfolio : List Value
  pub intervention : List Value

abbrev pub reference_source : Option Value → Fields → Fields
reference_source (some (obj nested)) input_data = nested
reference_source _ input_data = input_data

unfoldable pub references : Fields → References
unfolding get
references input_data =
    let source = reference_source (get "references" input_data) input_data in
    record {
      heat = pick ("heat_analysis_id" ∷ "heat_analysis_ids" ∷ "heat_id" ∷ []) source;
      portfolio = pick ("portfolio_run_id" ∷ "portfolio_run_ids" ∷ "portfolio_id" ∷ []) source;
      intervention = pick ("intervention_id" ∷ "intervention_ids" ∷ "interventions" ∷ []) source;
    }

module _ (p : Platform) where
  -- The loop over `values`: what does not parse is dropped.
  unfoldable pub valid_uuids : String → List Value → List ℕ
  valid_uuids kind [] = []
  valid_uuids kind (value ∷ values) =
      let rest = valid_uuids kind values in
      elim (to_uuid p value kind) [ ok u ↦ u ∷ rest | err e ↦ rest ]

  abbrev pub uuid_text : ℕ → Value
  uuid_text u = str (p.to_text (uuid u))

  -- `if valid: safe[names[kind]] = valid`
  abbrev pub keep_valid : String → List ℕ → Fields → Fields
  keep_valid name [] safe = safe
  keep_valid name (u ∷ us) safe = field name (arr (items_of (map uuid_text (u ∷ us)))) safe

  -- `{"references": safe} if safe else {}`
  abbrev pub persisted : List ℕ → List ℕ → List ℕ → Fields
  persisted heat portfolio intervention =
      let safe : Fields = keep_valid "heat_analysis_ids" heat (
        keep_valid "portfolio_run_ids" portfolio
          (keep_valid "intervention_ids" intervention end)) in
      if is_truthy safe then dict (("references", obj safe) ∷ []) else end

  unfoldable pub safe_input_references : Fields → Fields
  unfolding valid_uuids references to_uuid
  safe_input_references input_data =
      let refs = references input_data in
      persisted (valid_uuids "heat" refs.heat) (valid_uuids "portfolio" refs.portfolio)
        (valid_uuids "intervention" refs.intervention)
