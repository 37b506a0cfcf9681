-- ===== src/Agents/Grounding/Summary.antt =====
-- app/agents/grounding.py: what a node takes from the grounding.
use coolproof.Base.{
  String, ◌<>◌, str_eq, Option, none, some, List, [], ◌∷◌, if◌then◌else◌, length, pos,
}
use coolproof.Json.{Value, int, str, arr, obj, Fields, get, list_of}
use coolproof.Platform.{Platform}

abbrev pub texts_of : List Value → List String
texts_of [] = []
texts_of (str s ∷ vs) = s ∷ texts_of vs
texts_of (_ ∷ vs) = texts_of vs

-- `grounded_citations(grounding)`: the set is given by the order of the resolver.
unfoldable pub grounded_citations : Fields → List String
unfolding get
grounded_citations grounding = elim (get "citations" grounding) [
  | some (arr values) ↦ texts_of (list_of values)
  | _ ↦ []
]

module _ (p : Platform) where
  -- `heat.get("status", "unavailable") if isinstance(heat, dict) else "unavailable"`, in an f-string.
  abbrev pub status_text : Option Value → String
  status_text (some (obj heat)) = elim (get "status" heat) [
    | some status ↦ p.to_text status
    | none ↦ "unavailable"
  ]
  status_text _ = "unavailable"

  abbrev pub entry_count : Option Value → String
  entry_count (some (arr interventions)) = p.to_text (int (pos (length (list_of interventions))))
  entry_count _ = p.to_text (int (pos 0))

  abbrev pub allocation_count : Option Value → String
  allocation_count (some (obj portfolio)) = elim (get "allocation_count" portfolio) [
    | some count ↦ p.to_text count
    | none ↦ p.to_text (int (pos 0))
  ]
  allocation_count _ = p.to_text (int (pos 0))

  unfoldable pub summary_for_agent : String → Fields → String
  unfolding get
  summary_for_agent name grounding =
      if str_eq name "heat_intelligence"
      then "Heat Intelligence reviewed persisted heat evidence ("
        <> status_text (get "heat" grounding)
        <> ")."
      else if str_eq name "intervention_analyst"
      then "Intervention Analyst reviewed "
        <> entry_count (get "interventions" grounding)
        <> " tenant-scoped catalogue entries."
      else if str_eq name "portfolio"
      then "Portfolio reviewed the persisted deterministic result ("
        <> allocation_count (get "portfolio" grounding)
        <> " allocations)."
      else "Verification reviewed the persisted governed workflow inputs."
