-- ===== src/Agents/Grounding/Resolve.antt =====
-- app/agents/grounding.py: `resolve_grounding` and the resolvers that it calls in turn.
use coolproof.Base.{
  ℕ, ◌==◌, String, take_text, ◌<>◌, Bool, true, false, ◌&&◌, Option, none, some, List, [], ◌∷◌,
  head?, length, ltb, if◌then◌else◌, pos,
}
use coolproof.Json.{
  Value, null, bool, int, float, str, uuid, arr, obj, Fields, end, get, put, dict, items_of,
  list_of, is_truthy,
}
use coolproof.Platform.{Platform}
use coolproof.Failure.{Result, ok, err, grounding_error, ◌>>=◌}
use coolproof.Db.Models.{Project, HeatAnalysis, HeatAnalysisStatus, succeeded, heat_status_value}
use coolproof.Db.Evidence.{PortfolioRun}
use coolproof.Db.Query.{scalar}
use coolproof.Db.Session.{Tables}
use coolproof.Agents.Grounding.References.{to_uuid, references}
use coolproof.Agents.Grounding.Facts.{
  safe_numeric_facts, heat_fact_keys, portfolio_fact_keys, is_number,
}
use coolproof.Agents.Grounding.Rows.{heat_rows, portfolio_rows}

abbrev pub nullable_dict : Option Fields → Value
nullable_dict none = null
nullable_dict (some d) = obj d

module _ (p : Platform) where
  abbrev pub show : ℕ → String
  show u = p.to_text (uuid u)

  abbrev pub project_summary : Option Project → Result (Option Fields)
  project_summary none = err (grounding_error "project_reference_not_found")
  project_summary (some project) = ok (
      some (
        dict (
          ("project_id", str (show project.id)) ∷ ("name", str (take_text 200 project.name)) ∷ [])))

  -- `_uuid(references[0], kind) if references else None`
  abbrev pub first_reference : List Value → String → Result (Option ℕ)
  first_reference [] kind = ok none
  first_reference (r ∷ rs) kind = to_uuid p r kind >>= λ u. ok (some u)

  abbrev pub succeeded_result : HeatAnalysisStatus → Option Fields → Option Fields
  succeeded_result succeeded result = result
  succeeded_result _ result = none

  abbrev pub before : Option ℕ → ℕ → Bool
  before none now = false
  before (some expires) now = ltb expires now

  abbrev pub iso_or_null : Option ℕ → Value
  iso_or_null none = null
  iso_or_null (some at) = str (p.isoformat at)

  -- The returned dict; `now` is the clock when `stale` is computed.
  unfoldable pub heat_dict : ℕ → HeatAnalysis → Fields
  unfolding safe_numeric_facts
  heat_dict now a = dict (
      ("analysis_id", str (show a.id))
      ∷ ("project_id", str (show a.project_id))
      ∷ ("zone_id", str (show a.zone_id))
      ∷ ("status", str (heat_status_value a.status))
      ∷ ("stale", bool (before a.expires_at now))
      ∷ ("source_updated_at", iso_or_null a.source_updated_at)
      ∷ ("facts", obj (safe_numeric_facts (succeeded_result a.status a.result) heat_fact_keys))
      ∷ ("citation", str ("heat:" <> show a.id))
      ∷ [])

  -- `project_id is not None and row.project_id != project_id`
  abbrev pub differs : Option ℕ → ℕ → Bool
  differs none row_project = false
  differs (some project_id) row_project = if row_project == project_id then false else true

  abbrev pub found_heat : ℕ → Option ℕ → Option ℕ → Option HeatAnalysis → Result (Option Fields)
  found_heat now project_id none none = ok none
  found_heat now project_id (some heat_id) none =
      err (grounding_error "heat_analysis_reference_not_found")
  found_heat now project_id heat_id (some a) =
      if differs project_id a.project_id
      then err (grounding_error "heat_analysis_project_mismatch")
      else ok (some (heat_dict now a))

  abbrev pub copy_id : String → Option Value → Fields → Fields
  copy_id key (some (str s)) safe = put key (str (take_text 120 (p.to_text (str s)))) safe
  copy_id key (some (int n)) safe = put key (str (take_text 120 (p.to_text (int n)))) safe
  copy_id key (some (bool b)) safe = put key (str (take_text 120 (p.to_text (bool b)))) safe
  copy_id key _ safe = safe

  abbrev pub copy_number : String → Option Value → Fields → Fields
  copy_number key none safe = safe
  copy_number key (some value) safe = if is_number value then put key value safe else safe

  -- The two loops over the keys of one allocation.
  unfoldable pub safe_allocation : Fields → Fields
  unfolding get put
  safe_allocation item = copy_number "uncertainty" (get "uncertainty" item) (
      copy_number "benefit" (get "benefit" item) (
        copy_number "cost" (get "cost" item) (
          copy_number "units" (get "units" item) (
            copy_id "intervention_id" (get "intervention_id" item)
              (copy_id "zone_id" (get "zone_id" item) end)))))

  abbrev pub append_if_truthy : Fields → List Value → List Value
  append_if_truthy safe rest = if is_truthy safe then obj safe ∷ rest else rest

  unfoldable pub safe_allocations : List Value → List Value
  unfolding safe_allocation
  safe_allocations [] = []
  safe_allocations (obj item ∷ items) =
      append_if_truthy (safe_allocation item) (safe_allocations items)
  safe_allocations (_ ∷ items) = safe_allocations items

  abbrev pub list_or_empty : Option Value → List Value
  list_or_empty (some (arr items)) = list_of items
  list_or_empty _ = []

  abbrev pub dict_or_empty : Value → Fields
  dict_or_empty (obj d) = d
  dict_or_empty _ = end

  abbrev pub optional_uuid : Option ℕ → Value
  optional_uuid none = null
  optional_uuid (some u) = str (show u)

  unfoldable pub portfolio_dict : PortfolioRun → Fields
  unfolding get safe_allocations safe_numeric_facts
  portfolio_dict r =
      let result = dict_or_empty r.result_json in
      let allocations = safe_allocations (list_or_empty (get "allocations" result)) in
      dict (
        ("portfolio_run_id", str (show r.id))
        ∷ ("project_id", optional_uuid r.project_id)
        ∷ ("budget", float r.budget)
        ∷ ("facts", obj (safe_numeric_facts (some result) portfolio_fact_keys))
        ∷ ("allocation_count", int (pos (length allocations)))
        ∷ ("allocations", arr (items_of allocations))
        ∷ ("citation", str ("portfolio:" <> show r.id))
        ∷ [])

  -- `portfolio.project_id not in {None, project_id}` where a project is given.
  abbrev pub foreign : Option ℕ → Option ℕ → Bool
  foreign none row_project = false
  foreign (some project_id) none = false
  foreign (some project_id) (some row_project) = differs (some project_id) row_project

  abbrev pub found_portfolio : Option ℕ → Option ℕ → Option PortfolioRun → Result (Option Fields)
  found_portfolio project_id none none = ok none
  found_portfolio project_id (some portfolio_id) none =
      err (grounding_error "portfolio_run_reference_not_found")
  found_portfolio project_id portfolio_id (some r) =
      if foreign project_id r.project_id
      then err (grounding_error "portfolio_run_project_mismatch")
      else ok (some (portfolio_dict r))

module _ (p : Platform) (t : Tables) (organization_id : ℕ) where
  unfoldable pub resolve_project : Option ℕ → Result (Option Fields)
  unfolding scalar
  resolve_project none = ok none
  resolve_project (some project_id) =
      project_summary p
        (scalar (λ r. r.id == project_id && r.organization_id == organization_id) t.projects)

  unfoldable pub resolve_heat : ℕ → Option ℕ → List Value → Result (Option Fields)
  unfolding heat_rows heat_dict
  resolve_heat now project_id references =
      first_reference p references "heat_analysis" >>= λ heat_id.
      found_heat p now project_id heat_id (head? (heat_rows t organization_id heat_id project_id))

  unfoldable pub resolve_portfolio : Option ℕ → List Value → Result (Option Fields)
  unfolding portfolio_rows portfolio_dict
  resolve_portfolio project_id references =
      first_reference p references "portfolio_run" >>= λ portfolio_id.
      found_portfolio p project_id portfolio_id
        (head? (portfolio_rows t organization_id portfolio_id project_id))
