-- ===== src/Agents/Grounding/Catalogue.antt =====
-- app/agents/grounding.py: the intervention catalogue with its evidence, and the whole grounding.
use coolproof.Base.{
  ℕ, String, take_text, ◌<>◌, str_eq, Bool, true, ◌&&◌, Option, none, some, List, [], ◌∷◌, ◌++◌,
  map, length, if◌then◌else◌, pos,
}
use coolproof.Json.{
  Value, null, bool, int, float, str, uuid, arr, obj, Fields, get, dict, items_of, list_of,
  is_truthy, optional_text,
}
use coolproof.Platform.{Platform}
use coolproof.Failure.{Result, ok, err, grounding_error, ◌>>=◌}
use coolproof.Db.Evidence.{Intervention}
use coolproof.Db.Session.{Tables}
use coolproof.Agents.Grounding.References.{to_uuid, references}
use coolproof.Agents.Grounding.Facts.{safe_filename}
use coolproof.Agents.Grounding.Rows.{intervention_rows, EvidenceRow, evidence_rows, id_in}
use coolproof.Agents.Grounding.Resolve.{resolve_project, resolve_heat, resolve_portfolio}

abbrev pub non_empty : String → Option String
non_empty s = if str_eq s "" then none else some s

abbrev pub text_or_empty : Option String → String
text_or_empty none = ""
text_or_empty (some s) = s

abbrev pub optional_int : Option ℕ → Value
optional_int none = null
optional_int (some n) = int (pos n)

-- `{item.id for item in interventions} != set(ids)`: the rows were selected by `ids`, so the sets
-- differ exactly if an id has no row.
unfoldable pub all_found : List ℕ → List ℕ → Bool
unfolding id_in
all_found [] found = true
all_found (i ∷ ids) found = id_in found i && all_found ids found

module _ (p : Platform) where
  abbrev pub show : ℕ → String
  show u = p.to_text (uuid u)

  unfoldable pub citation_dict : EvidenceRow → Fields
  unfolding safe_filename
  citation_dict (e, d, c) = dict (
      ("evidence_id", str (show e.id))
      ∷ ("document_id", str (show d.id))
      ∷ ("chunk_id", str (show c.id))
      ∷ ("filename", str (safe_filename d.filename))
      ∷ ("page_number", optional_int c.page_number)
      ∷ ("source_label", optional_text (non_empty (take_text 160 (text_or_empty e.source_label))))
      ∷ ("citation", str ("evidence:" <> show e.id))
      ∷ [])

  unfoldable pub to_uuids : List Value → Result (List ℕ)
  unfolding to_uuid
  to_uuids [] = ok []
  to_uuids (r ∷ rs) =
      let rest = to_uuids rs in to_uuid p r "intervention" >>= λ u. rest >>= λ us. ok (u ∷ us)

  -- `citation["citation"]` where it is a text.
  abbrev pub citation_of : Value → List String
  citation_of (obj citation) = elim (get "citation" citation) [ some (str s) ↦ s ∷ [] | _ ↦ [] ]
  citation_of _ = []

  abbrev pub citations_of : List Value → List String
  citations_of [] = []
  citations_of (c ∷ cs) = citation_of c ++ citations_of cs

  abbrev pub intervention_citations : List Fields → List String
  intervention_citations [] = []
  intervention_citations (i ∷ is) =
      elim (get "citations" i) [ some (arr rows) ↦ citations_of (list_of rows) | _ ↦ [] ]
      ++ intervention_citations is

  -- `if fact: citations.append(str(fact["citation"]))`
  abbrev pub own_citation : Option Fields → List String
  own_citation none = []
  own_citation (some d) =
      if is_truthy d
      then (elim (get "citation" d) [ some v ↦ p.to_text v ∷ [] | none ↦ [] ])
      else []

  abbrev pub nullable_dict : Option Fields → Value
  nullable_dict none = null
  nullable_dict (some d) = obj d

  abbrev pub grounding_dict : Option Fields → Option Fields → Option Fields → List Fields → Fields
  grounding_dict project heat portfolio interventions = dict (
      ("resolved", bool true)
      ∷ ("project", nullable_dict project)
      ∷ ("heat", nullable_dict heat)
      ∷ ("interventions", arr (items_of (map obj interventions)))
      ∷ ("portfolio", nullable_dict portfolio)
      ∷ (
        "citations",
        arr (
            items_of (
              map str (
                own_citation heat
                ++ own_citation portfolio
                ++ intervention_citations interventions))),
      )
      ∷ [])

module _ (p : Platform) (t : Tables) (organization_id : ℕ) where
  unfoldable pub intervention_dict : Intervention → Fields
  unfolding evidence_rows citation_dict
  intervention_dict i =
      let citations : List Value =
        map (λ row. obj (citation_dict p row)) (evidence_rows t organization_id i.id) in
      dict (
        ("intervention_id", str (show p i.id))
        ∷ ("name", str (take_text 180 i.name))
        ∷ ("category", str (take_text 80 i.category))
        ∷ ("unit_cost", float i.unit_cost)
        ∷ ("cooling_score", float i.cooling_score)
        ∷ ("evidence_count", int (pos (length citations)))
        ∷ ("citations", arr (items_of citations))
        ∷ [])

  unfoldable pub resolve_interventions : List Value → Result (List Fields)
  unfolding intervention_rows intervention_dict to_uuids all_found
  resolve_interventions references = to_uuids p references >>= λ ids.
      let rows = intervention_rows t organization_id p.collates ids in
      if all_found ids (map (λ i. i.id) rows)
      then ok (map intervention_dict rows)
      else err (grounding_error "intervention_reference_not_found")

  unfoldable pub resolve_grounding : ℕ → Option ℕ → Fields → Result Fields
  unfolding resolve_project resolve_heat resolve_portfolio resolve_interventions references
  resolve_grounding now project_id input_data =
      let refs = references input_data in
      resolve_project p t organization_id project_id >>= λ project.
      resolve_heat p t organization_id now project_id refs.heat >>= λ heat.
      resolve_portfolio p t organization_id project_id refs.portfolio >>= λ portfolio.
      resolve_interventions refs.intervention >>= λ interventions.
      ok (grounding_dict p project heat portfolio interventions)
