-- ===== src/Interventions/Listing.antt =====
-- app/api/interventions.py: the eligibility endpoint and the claims of an intervention.
use coolproof.Base.{
  ℕ, ◌==◌, String, Bool, false, ◌&&◌, Option, none, some, List, [], ◌∷◌, keep, map, pos,
  if◌then◌else◌,
}
use coolproof.Json.{Value, null, int, str, Fields, dict, optional_text}
use coolproof.Platform.{Platform}
use coolproof.Failure.{ok}
use coolproof.Db.Evidence.{Document, DocumentChunk, Intervention, InterventionEvidence}
use coolproof.Db.Query.{scalar, ascending}
use coolproof.Db.Session.{Session, Tables}
use coolproof.Auth.Tenancy.{TenantContext, require_tenant_roles}
use coolproof.Agents.Api.{Reply, for_tenant, readers, writers}
use coolproof.Interventions.{
  is_eligible, get_intervention, get_document, get_chunk, not_found, show,
}

pub record EligibilityRequest : Type 0 where
  pub intervention_id : String
  pub name : String
  pub unit_cost : ℕ
  pub cooling_score : ℕ
  pub eligible_land_uses : List String
  pub land_use : String

-- A row of the join: a claim with its document and its chunk.
pub record EvidenceRow : Type 0 where
  pub evidence : InterventionEvidence
  pub document : Document
  pub chunk : DocumentChunk

abbrev pub page_out : Option ℕ → Value
page_out none = null
page_out (some n) = int (pos n)

abbrev pub own_intervention : TenantContext → Option Intervention → Bool
own_intervention tenant none = false
own_intervention tenant (some i) = i.organization_id == tenant.organization.id

-- The inner join on primary keys: a claim without its document or chunk has no row.
abbrev pub joined_row :
    InterventionEvidence
    → Option Document
    → Option DocumentChunk
    → List EvidenceRow
    → List EvidenceRow
joined_row e (some d) (some c) rows = record { evidence = e; document = d; chunk = c } ∷ rows
joined_row e _ _ rows = rows

unfoldable pub evidence_rows : Tables → List InterventionEvidence → List EvidenceRow
unfolding scalar
evidence_rows t [] = []
evidence_rows t (e ∷ es) =
    joined_row e (get_document t e.document_id) (get_chunk t e.chunk_id) (evidence_rows t es)

-- The claims of the tenant on an intervention, from the oldest on.
unfoldable pub claims_on : TenantContext → ℕ → Tables → List InterventionEvidence
unfolding keep ascending
claims_on tenant intervention_id t =
    ascending (λ e. e.created_at)
      (keep
        (λ e. e.intervention_id == intervention_id && e.organization_id == tenant.organization.id)
        t.evidence)

module _ (p : Platform) where
  unfoldable pub eligibility : TenantContext → EligibilityRequest → Session → Reply Fields
  unfolding is_eligible require_tenant_roles
  eligibility tenant r = for_tenant writers tenant (λ t s. (
    ok (dict (("eligible", Value.bool (is_eligible p r.eligible_land_uses r.land_use)) ∷ [])),
    s,
  ))

  abbrev pub evidence_row_out : EvidenceRow → Fields
  evidence_row_out row = dict (
      ("evidence_id", show p row.evidence.id)
      ∷ ("document_id", show p row.document.id)
      ∷ ("chunk_id", show p row.chunk.id)
      ∷ ("filename", str row.document.filename)
      ∷ ("page_number", page_out row.chunk.page_number)
      ∷ ("claim", str row.evidence.claim)
      ∷ ("excerpt", str row.chunk.text)
      ∷ ("source_label", optional_text row.evidence.source_label)
      ∷ [])

  abbrev pub listed_evidence : TenantContext → ℕ → Session → Reply (List Fields)
  listed_evidence tenant intervention_id s =
      if own_intervention tenant (get_intervention s.tables intervention_id)
      then (
        ok (
            map evidence_row_out
              (evidence_rows s.tables (claims_on tenant intervention_id s.tables))),
        s,
      )
      else (not_found "Intervention not found", s)

  unfoldable pub list_evidence : TenantContext → ℕ → Session → Reply (List Fields)
  unfolding scalar evidence_rows claims_on require_tenant_roles
  list_evidence tenant intervention_id =
      for_tenant readers tenant (λ t. listed_evidence t intervention_id)
