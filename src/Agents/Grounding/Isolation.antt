-- ===== src/Agents/Grounding/Isolation.antt =====
-- A grounding depends on the rows of its own organization alone.
use coolproof.Base.{
  ℕ, ◌==◌, String, ◌≡◌, refl, ap, fun_ext, Bool, Option, none, some, List, [], ◌∷◌, ◌++◌, map, keep,
  keep-keep, arith, head?,
}
use coolproof.Json.{Value, Fields}
use coolproof.Platform.{Platform}
use coolproof.Failure.{◌>>=◌}
use coolproof.Db.Models.{HeatAnalysis}
use coolproof.Db.Evidence.{PortfolioRun, Intervention, InterventionEvidence, Document}
use coolproof.Db.Query.{scalar, descending, ascending, order_by}
use coolproof.Db.Session.{Tables}
use coolproof.Agents.Grounding.Rows.{
  heat_rows, portfolio_rows, intervention_rows, pairs_with_chunks, join_chunks, join_documents,
  evidence_rows,
}
use coolproof.Agents.Grounding.Resolve.{
  project_summary, first_reference, found_heat, found_portfolio, resolve_project, resolve_heat,
  resolve_portfolio,
}
use coolproof.Agents.Grounding.Catalogue.{
  intervention_dict, resolve_interventions, resolve_grounding,
}

-- The tables with the rows of one organization only.
unfoldable pub visible : ℕ → Tables → Tables
visible o t = record t {
  projects = keep (λ r. r.organization_id == o) t.projects;
  heat_analyses = keep (λ r. r.organization_id == o) t.heat_analyses;
  portfolio_runs = keep (λ r. r.organization_id == o) t.portfolio_runs;
  interventions = keep (λ r. r.organization_id == o) t.interventions;
  evidence = keep (λ r. r.organization_id == o) t.evidence;
  documents = keep (λ r. r.organization_id == o) t.documents;
  chunks = keep (λ r. r.organization_id == o) t.chunks;
}

module _ (o : ℕ) (t : Tables) where
  heat_rows-visible :
      (heat_id project_id : Option ℕ)
      → heat_rows (visible o t) o heat_id project_id ≡ heat_rows t o heat_id project_id
  unfolding heat_rows visible
  heat_rows-visible heat_id project_id =
      ap (descending _) (keep-keep _ _ t.heat_analyses (λ a h. ground arith))

  portfolio_rows-visible :
      (portfolio_id project_id : Option ℕ)
      → portfolio_rows (visible o t) o portfolio_id project_id
        ≡ portfolio_rows t o portfolio_id project_id
  unfolding portfolio_rows visible
  portfolio_rows-visible portfolio_id project_id =
      ap (descending _) (keep-keep _ _ t.portfolio_runs (λ r h. ground arith))

  intervention_rows-visible :
      (collates : String → String → Bool) (ids : List ℕ)
      → intervention_rows (visible o t) o collates ids ≡ intervention_rows t o collates ids
  unfolding intervention_rows visible
  intervention_rows-visible collates ids =
      ap (order_by _) (keep-keep _ _ t.interventions (λ i h. ground arith))

  join_chunks-visible :
      (e : InterventionEvidence) (ds : List Document)
      → join_chunks (visible o t) o e ds ≡ join_chunks t o e ds
  unfolding visible
  join_chunks-visible e [] = refl
  join_chunks-visible e (d ∷ ds) = rw (join_chunks-visible e ds) (
      ap (λ cs. pairs_with_chunks e d cs ++ join_chunks t o e ds)
        (keep-keep _ _ t.chunks (λ c h. ground arith)))

  join_documents-visible :
      (es : List InterventionEvidence) → join_documents (visible o t) o es ≡ join_documents t o es
  unfolding visible
  join_documents-visible [] = refl
  join_documents-visible (e ∷ es) =
      rw (join_documents-visible es, join_chunks-visible e)
        (ap (λ ds. join_chunks t o e ds ++ join_documents t o es)
          (keep-keep _ _ t.documents (λ d h. ground arith)))

  evidence_rows-visible :
      (intervention_id : ℕ)
      → evidence_rows (visible o t) o intervention_id ≡ evidence_rows t o intervention_id
  unfolding evidence_rows visible
  evidence_rows-visible intervention_id = rw join_documents-visible (
      ap (λ es. join_documents t o (ascending (λ e. e.created_at) es))
        (keep-keep _ _ t.evidence (λ e h. ground arith)))

module _ (p : Platform) (o : ℕ) (t : Tables) where
  intervention_dict-visible :
      (i : Intervention) → intervention_dict p (visible o t) o i ≡ intervention_dict p t o i
  unfolding intervention_dict
  intervention_dict-visible i = rw (evidence_rows-visible o t i.id)

  map-intervention_dict :
      (is : List Intervention)
      → map (intervention_dict p (visible o t) o) is ≡ map (intervention_dict p t o) is
  map-intervention_dict is = rw (fun_ext intervention_dict-visible)

  resolve_project-visible :
      (project_id : Option ℕ)
      → resolve_project p (visible o t) o project_id ≡ resolve_project p t o project_id
  unfolding resolve_project scalar visible
  resolve_project-visible none = refl
  resolve_project-visible (some project_id) =
      ap (λ rows. project_summary p (head? rows)) (keep-keep _ _ t.projects (λ r h. ground arith))

  resolve_heat-visible :
      (now : ℕ) (project_id : Option ℕ) (refs : List Value)
      → resolve_heat p (visible o t) o now project_id refs ≡ resolve_heat p t o now project_id refs
  unfolding resolve_heat
  resolve_heat-visible now project_id refs =
      ap
        (λ (rows : Option ℕ → List HeatAnalysis).
          first_reference p refs "heat_analysis" >>= λ heat_id.
          found_heat p now project_id heat_id (head? (rows heat_id)))
        (fun_ext (λ heat_id. heat_rows-visible o t heat_id project_id))

  resolve_portfolio-visible :
      (project_id : Option ℕ) (refs : List Value)
      → resolve_portfolio p (visible o t) o project_id refs
        ≡ resolve_portfolio p t o project_id refs
  unfolding resolve_portfolio
  resolve_portfolio-visible project_id refs =
      ap
        (λ (rows : Option ℕ → List PortfolioRun).
          first_reference p refs "portfolio_run" >>= λ portfolio_id.
          found_portfolio p project_id portfolio_id (head? (rows portfolio_id)))
        (fun_ext (λ portfolio_id. portfolio_rows-visible o t portfolio_id project_id))

  resolve_interventions-visible :
      (refs : List Value)
      → resolve_interventions p (visible o t) o refs ≡ resolve_interventions p t o refs
  unfolding resolve_interventions
  resolve_interventions-visible refs = simp (map-intervention_dict, intervention_rows-visible)

  -- Removing every row of the other organizations changes neither the grounding nor the error.
  pub resolve_grounding-visible :
      (now : ℕ) (project_id : Option ℕ) (input_data : Fields)
      → resolve_grounding p (visible o t) o now project_id input_data
        ≡ resolve_grounding p t o now project_id input_data
  unfolding resolve_grounding
  resolve_grounding-visible now project_id input_data = simp (
    resolve_project-visible, resolve_heat-visible, resolve_portfolio-visible,
    resolve_interventions-visible,
  )
