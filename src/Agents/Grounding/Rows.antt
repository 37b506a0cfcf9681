-- ===== src/Agents/Grounding/Rows.antt =====
-- app/agents/grounding.py: the tenant-scoped selects, and what is read off each row.
use coolproof.Base.{
  ℕ, ◌==◌, String, Bool, true, false, ◌&&◌, ◌||◌, Option, none, some, List, [], ◌∷◌, ◌++◌, keep,
}
use coolproof.Db.Models.{HeatAnalysis}
use coolproof.Db.Evidence.{
  PortfolioRun, Intervention, InterventionEvidence, Document, DocumentChunk,
}
use coolproof.Db.Query.{order_by, descending, ascending}
use coolproof.Db.Session.{Tables}

-- The second `where` of a select: on the reference if one is given, else on the project if any.
abbrev pub narrowed : Option ℕ → Option ℕ → ℕ → Option ℕ → Bool
narrowed (some reference) project_id id row_project = id == reference
narrowed none (some project) id (some row_project) = row_project == project
narrowed none (some project) id none = false
narrowed none none id row_project = true

-- `.where(Intervention.id.in_(ids))`, which is added when `ids` is not empty.
unfoldable pub id_in : List ℕ → ℕ → Bool
id_in [] id = false
id_in (i ∷ ids) id = i == id || id_in ids id

abbrev pub id_in_or_any : List ℕ → ℕ → Bool
id_in_or_any [] id = true
id_in_or_any (i ∷ ids) id = id_in (i ∷ ids) id

abbrev pub EvidenceRow : Type 0
EvidenceRow = InterventionEvidence × Document × DocumentChunk

abbrev pub pairs_with_chunks :
    InterventionEvidence → Document → List DocumentChunk → List EvidenceRow
pairs_with_chunks e d [] = []
pairs_with_chunks e d (c ∷ cs) = (e, d, c) ∷ pairs_with_chunks e d cs

module _ (t : Tables) (organization_id : ℕ) where
  unfoldable pub heat_rows : Option ℕ → Option ℕ → List HeatAnalysis
  unfolding keep descending
  heat_rows heat_id project_id =
      descending (λ a. a.created_at)
        (keep
          (λ a.
            a.organization_id == organization_id
            && narrowed heat_id project_id a.id (some a.project_id))
          t.heat_analyses)

  unfoldable pub portfolio_rows : Option ℕ → Option ℕ → List PortfolioRun
  unfolding keep descending
  portfolio_rows portfolio_id project_id =
      descending (λ r. r.created_at)
        (keep
          (λ r.
            r.organization_id == organization_id
            && narrowed portfolio_id project_id r.id r.project_id)
          t.portfolio_runs)

  unfoldable pub intervention_rows : (String → String → Bool) → List ℕ → List Intervention
  unfolding keep order_by id_in
  intervention_rows collates ids =
      order_by (λ a b. collates a.name b.name)
        (keep (λ i. (i.organization_id == organization_id && i.active) && id_in_or_any ids i.id)
          t.interventions)

  abbrev pub join_chunks : InterventionEvidence → List Document → List EvidenceRow
  join_chunks e [] = []
  join_chunks e (d ∷ ds) =
      pairs_with_chunks e d
        (keep (λ c. c.organization_id == organization_id && c.id == e.chunk_id) t.chunks)
      ++ join_chunks e ds

  abbrev pub join_documents : List InterventionEvidence → List EvidenceRow
  join_documents [] = []
  join_documents (e ∷ es) =
      join_chunks e
        (keep (λ d. d.organization_id == organization_id && d.id == e.document_id) t.documents)
      ++ join_documents es

  -- Evidence joined with its document and chunk, all three of the tenant, oldest first.
  unfoldable pub evidence_rows : ℕ → List EvidenceRow
  unfolding keep ascending
  evidence_rows intervention_id = join_documents (
      ascending (λ e. e.created_at)
        (keep (λ e. e.organization_id == organization_id && e.intervention_id == intervention_id)
          t.evidence))
