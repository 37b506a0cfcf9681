-- ===== src/Interventions.antt =====
-- app/api/interventions.py and app/services/interventions.py: the catalogue and its evidence.
pub mod Listing
pub mod Sourced
pub mod Complete
use coolproof.Base.{
  ℕ, ◌==◌, String, text_in, Bool, true, false, ◌&&◌, ◌||◌, not, Option, none, some, List, [], ◌∷◌,
  ◌++◌, keep, any, map, pos, if◌then◌else◌,
}
use coolproof.Json.{
  Value, null, int, bool, float, str, uuid, arr, Fields, dict, items_of, optional_text,
}
use coolproof.Platform.{Platform}
use coolproof.Failure.{Result, ok, err, http_exception, integrity_error}
use coolproof.Db.Evidence.{Document, DocumentChunk, Intervention, InterventionEvidence}
use coolproof.Db.Query.{scalar, order_by, ascending}
use coolproof.Db.Session.{Session, Tables, commit, close}
use coolproof.Auth.Tenancy.{TenantContext, require_tenant_roles}
use coolproof.Agents.Api.{Reply, for_tenant, readers, writers}

-- `is_eligible(spec, land_use)`, on the spec's land uses.
unfoldable pub is_eligible : Platform → List String → String → Bool
unfolding text_in
is_eligible p eligible_land_uses land_use =
    text_in (p.casefold land_use) (map p.casefold eligible_land_uses)

-- `session.get(Model, id)`
abbrev pub get_intervention : Tables → ℕ → Option Intervention
get_intervention t id = scalar (λ r. r.id == id) t.interventions

abbrev pub get_document : Tables → ℕ → Option Document
get_document t id = scalar (λ r. r.id == id) t.documents

abbrev pub get_chunk : Tables → ℕ → Option DocumentChunk
get_chunk t id = scalar (λ r. r.id == id) t.chunks

abbrev pub get_evidence : Tables → ℕ → Option InterventionEvidence
get_evidence t id = scalar (λ r. r.id == id) t.evidence

pub record InterventionRequest : Type 0 where
  pub name : String
  pub category : String
  pub unit_cost : ℕ
  pub cooling_score : ℕ
  pub eligible_land_uses : List String
  pub evidence_document_id : Option ℕ

pub record EvidenceRequest : Type 0 where
  pub document_id : ℕ
  pub chunk_id : ℕ
  pub claim : String
  pub source_label : Option String
  pub metadata : Fields

abbrev pub new_intervention : ℕ → TenantContext → InterventionRequest → Intervention
new_intervention id tenant r = record {
  id = id;
  organization_id = tenant.organization.id;
  name = r.name;
  category = r.category;
  unit_cost = r.unit_cost;
  cooling_score = r.cooling_score;
  eligible_land_uses = r.eligible_land_uses;
  evidence_document_id = r.evidence_document_id;
  active = true;
}

abbrev pub add_intervention : Intervention → Session → Session
add_intervention item s =
    let t = s.tables in
    record s { tables = record t { interventions = t.interventions ++ (item ∷ []) } }

abbrev pub with_evidence : List InterventionEvidence → Session → Session
with_evidence rows s = let t = s.tables in record s { tables = record t { evidence = rows } }

-- The document of the request is the tenant's, if there is one.
abbrev pub own_document : TenantContext → Option Document → Bool
own_document tenant none = false
own_document tenant (some d) = d.organization_id == tenant.organization.id

abbrev pub document_allowed : TenantContext → Tables → Option ℕ → Bool
document_allowed tenant t none = true
document_allowed tenant t (some id) = own_document tenant (get_document t id)

abbrev pub not_found : {A : Type 0} → String → Result A
not_found detail = err (http_exception 404 detail)

-- The guard of `add_evidence`: the three rows, all of the tenant, and the chunk of the document.
unfoldable pub evidence_source :
    TenantContext → Option Intervention → Option Document → Option DocumentChunk → Bool
evidence_source tenant (some i) (some d) (some c) =
    i.organization_id == tenant.organization.id
    && d.organization_id == tenant.organization.id
    && c.organization_id == tenant.organization.id
    && c.document_id == d.id
evidence_source tenant _ _ _ = false

abbrev pub new_evidence : ℕ → ℕ → TenantContext → ℕ → EvidenceRequest → InterventionEvidence
new_evidence id now tenant intervention_id r = record {
  id = id;
  organization_id = tenant.organization.id;
  intervention_id = intervention_id;
  document_id = r.document_id;
  chunk_id = r.chunk_id;
  claim = r.claim;
  source_label = r.source_label;
  metadata_json = r.metadata;
  created_at = now;
}

-- The unique constraint of the table.
abbrev pub same_link : InterventionEvidence → InterventionEvidence → Bool
same_link a b =
    a.organization_id == b.organization_id
    && a.intervention_id == b.intervention_id
    && a.document_id == b.document_id
    && a.chunk_id == b.chunk_id

module _ (p : Platform) where
  abbrev pub show : ℕ → Value
  show u = str (p.to_text (uuid u))

  abbrev pub show_optional : Option ℕ → Value
  show_optional none = null
  show_optional (some u) = show u

  abbrev pub request_out : Intervention → List (String × Value) → Fields
  request_out i rest = dict (
      ("intervention_id", show i.id)
      ∷ ("name", str i.name)
      ∷ ("category", str i.category)
      ∷ ("unit_cost", float i.unit_cost)
      ∷ ("cooling_score", float i.cooling_score)
      ∷ ("eligible_land_uses", arr (items_of (map str i.eligible_land_uses)))
      ∷ ("evidence_document_id", show_optional i.evidence_document_id)
      ∷ rest)

  unfoldable pub create_intervention :
      ℕ → TenantContext → InterventionRequest → Session → Reply Fields
  unfolding scalar require_tenant_roles
  create_intervention id tenant r = for_tenant writers tenant (λ t s.
      if document_allowed t s.tables r.evidence_document_id
      then (
        ok (request_out (new_intervention id t r) (("active", Value.bool true) ∷ [])),
        commit (add_intervention (new_intervention id t r) s),
      )
      else (not_found "Evidence document not found", s))

  unfoldable pub list_interventions : TenantContext → Session → Reply (List Fields)
  unfolding keep order_by require_tenant_roles
  list_interventions tenant = for_tenant readers tenant (λ t s. (
    ok (
        map (λ i. request_out i [])
          (order_by (λ a b. p.collates a.name b.name)
            (keep (λ i. i.organization_id == t.organization.id && i.active)
              s.tables.interventions))),
    s,
  ))

  abbrev pub evidence_out : InterventionEvidence → Fields
  evidence_out e = dict (
      ("evidence_id", show e.id)
      ∷ ("intervention_id", show e.intervention_id)
      ∷ ("document_id", show e.document_id)
      ∷ ("chunk_id", show e.chunk_id)
      ∷ ("claim", str e.claim)
      ∷ ("source_label", optional_text e.source_label)
      ∷ [])

  -- The insert: a second row with the same link violates the constraint, and the transaction is lost.
  abbrev pub insert_evidence : InterventionEvidence → Session → Reply Fields
  insert_evidence e s =
      if any (same_link e) s.tables.evidence
      then (err integrity_error, close s)
      else (ok (evidence_out e), commit (with_evidence (s.tables.evidence ++ (e ∷ [])) s))

  abbrev pub evidence_for : ℕ → ℕ → TenantContext → ℕ → EvidenceRequest → Session → Reply Fields
  evidence_for id now tenant intervention_id r s =
      if evidence_source tenant (get_intervention s.tables intervention_id)
        (get_document s.tables r.document_id) (get_chunk s.tables r.chunk_id)
      then insert_evidence (new_evidence id now tenant intervention_id r) s
      else (not_found "Intervention evidence source not found", s)

  unfoldable pub add_evidence : ℕ → ℕ → TenantContext → ℕ → EvidenceRequest → Session → Reply Fields
  unfolding evidence_source scalar any require_tenant_roles
  add_evidence id now tenant intervention_id r =
      for_tenant writers tenant (λ t. evidence_for id now t intervention_id r)

abbrev pub own_evidence : TenantContext → ℕ → Option InterventionEvidence → Bool
own_evidence tenant intervention_id none = false
own_evidence tenant intervention_id (some e) =
    e.intervention_id == intervention_id && e.organization_id == tenant.organization.id

abbrev pub removed_evidence : TenantContext → ℕ → ℕ → Session → Reply Unit
removed_evidence tenant intervention_id evidence_id s =
    if own_evidence tenant intervention_id (get_evidence s.tables evidence_id)
    then (ok tt, commit (with_evidence (keep (λ e. not (e.id == evidence_id)) s.tables.evidence) s))
    else (not_found "Intervention evidence not found", s)

unfoldable pub remove_evidence : TenantContext → ℕ → ℕ → Session → Reply Unit
unfolding scalar keep require_tenant_roles
remove_evidence tenant intervention_id evidence_id =
    for_tenant writers tenant (λ t. removed_evidence t intervention_id evidence_id)
