-- ===== src/Interventions/Sourced.antt =====
-- Every claim is backed by a document chunk of its own organization, and a link stands once.
use coolproof.Base.{
  ℕ, ◌==◌, ==→eq, Bool, true, ◌&&◌, not, ◌≡◌, refl, Option, none, some, List, [], ◌∷◌, ◌++◌, any,
  any_of_keep, All, All-append, All-keep_of_All, arith, Bool-cases, inl, inr,
}
use coolproof.Platform.{Platform}
use coolproof.Db.Evidence.{Document, DocumentChunk, Intervention, InterventionEvidence}
use coolproof.Db.Query.{scalar, scalar_sound}
use coolproof.Db.Session.{Session, Tables}
use coolproof.Auth.Tenancy.{TenantContext, require_tenant_roles, role_in}
use coolproof.Agents.Api.{writers}
use coolproof.Interventions.{
  EvidenceRequest, new_evidence, evidence_source, get_intervention, get_document, get_chunk,
  same_link, insert_evidence, evidence_for, add_evidence, removed_evidence, remove_evidence,
  own_evidence, get_evidence,
}

-- The rows that a claim names are stored, belong to its organization, and the chunk is the document's.
pub record IsSourced (interventions : List Intervention) (documents : List Document)
    (chunks : List DocumentChunk) (e : InterventionEvidence) : Type 0 where
  pub intervention :
      any (λ i. i.id == e.intervention_id && i.organization_id == e.organization_id) interventions
      ≡ true
  pub document :
      any (λ d. d.id == e.document_id && d.organization_id == e.organization_id) documents ≡ true
  pub chunk :
      any
        (λ c.
          c.id == e.chunk_id
          && c.organization_id == e.organization_id
          && c.document_id == e.document_id)
        chunks
      ≡ true

abbrev pub AllSourced : Tables → Type 0
AllSourced t = All (IsSourced t.interventions t.documents t.chunks) t.evidence

-- What is pending and what is durable are both sourced.
abbrev pub SessionSourced : Session → Type 0
SessionSourced s = AllSourced s.tables × AllSourced s.durable

found_row {ℓ} :
    {A : Type ℓ} (key : A → ℕ) (k : ℕ) (q : A → Bool) (rows : List A) (x : A)
    → scalar (λ r. key r == k) rows ≡ some x
    → (key x ≡ k → q x ≡ true)
    → any q rows ≡ true
unfolding scalar
found_row key k q rows x h hq =
    any_of_keep (λ r. key r == k) q rows x h
      (hq (scalar_sound (λ r. key r ≡ k) (λ r. key r == k) rows (λ r e. ==→eq (key r) k e) h))

four_and :
    (a b c d : Bool) → (a && b && c && d) ≡ true → (a ≡ true) × (b ≡ true) × (c ≡ true) × (d ≡ true)
four_and a b c d h = ground arith

both_hold : (a b c d : ℕ) → a ≡ b → (c == d) ≡ true → (a == b && c == d) ≡ true
both_hold a b c d h g = ground arith

three_hold :
    (a b c d e f g : ℕ)
    → a ≡ b
    → (c == d) ≡ true
    → (e == g) ≡ true
    → g ≡ f
    → (a == b && c == d && e == f) ≡ true
three_hold a b c d e f g h1 h2 h3 h4 = ground arith

module _ (id now intervention_id : ℕ) (tenant : TenantContext) (r : EvidenceRequest)
    (t : Tables) where
  source_ok :
      (i : Option Intervention) (d : Option Document) (c : Option DocumentChunk)
      → get_intervention t intervention_id ≡ i
      → get_document t r.document_id ≡ d
      → get_chunk t r.chunk_id ≡ c
      → evidence_source tenant i d c ≡ true
      → IsSourced t.interventions t.documents t.chunks
          (new_evidence id now tenant intervention_id r)
  unfolding evidence_source
  source_ok (some i) (some d) (some c) hi hd hc h =
      let (oi, od, oc, link) = four_and _ _ _ _ h in
      let same_document : d.id ≡ r.document_id =
        scalar_sound (λ x. x.id ≡ r.document_id) (λ x. x.id == r.document_id) t.documents
          (λ x e. ==→eq x.id r.document_id e) hd in
      record {
        intervention =
            found_row (λ x. x.id) intervention_id _ t.interventions i hi
              (λ e. both_hold i.id intervention_id i.organization_id tenant.organization.id e oi);
        document =
            found_row (λ x. x.id) r.document_id _ t.documents d hd
              (λ e. both_hold d.id r.document_id d.organization_id tenant.organization.id e od);
        chunk =
            found_row (λ x. x.id) r.chunk_id _ t.chunks c hc
              (λ e.
                three_hold c.id r.chunk_id c.organization_id tenant.organization.id c.document_id
                  r.document_id d.id e oc link same_document);
      }
  source_ok none d c hi hd hc h = absurd (cc h)
  source_ok (some i) none c hi hd hc h = absurd (cc h)
  source_ok (some i) (some d) none hi hd hc h = absurd (cc h)

  source_of :
      evidence_source tenant
          (get_intervention t intervention_id)
          (get_document t r.document_id)
          (get_chunk t r.chunk_id)
        ≡ true
      → IsSourced t.interventions t.documents t.chunks
          (new_evidence id now tenant intervention_id r)
  source_of h = source_ok _ _ _ refl refl refl h

insert_evidence-SessionSourced :
    (p : Platform) (e : InterventionEvidence) (s : Session)
    → IsSourced s.tables.interventions s.tables.documents s.tables.chunks e
    → SessionSourced s
    → SessionSourced (insert_evidence p e s).1
insert_evidence-SessionSourced p e s he h =
    elim (Bool-cases (any (same_link e) s.tables.evidence)) [
      | inl double ↦ rw double (h.1, h.1)
      | inr single ↦
          let grown : All (IsSourced s.tables.interventions s.tables.documents s.tables.chunks)
              (s.tables.evidence ++ (e ∷ [])) =
            All-append (IsSourced s.tables.interventions s.tables.documents s.tables.chunks)
              s.tables.evidence (e ∷ []) h.0 (he, tt) in
          rw single (grown, grown)
    ]

evidence_for-SessionSourced :
    (p : Platform) (id now : ℕ) (tenant : TenantContext) (intervention_id : ℕ) (r : EvidenceRequest)
    (s : Session)
    → SessionSourced s
    → SessionSourced (evidence_for p id now tenant intervention_id r s).1
evidence_for-SessionSourced p id now tenant intervention_id r s h =
    elim (Bool-cases (
      evidence_source tenant (get_intervention s.tables intervention_id)
        (get_document s.tables r.document_id) (get_chunk s.tables r.chunk_id))) [
          | inl own ↦ rw own (
              insert_evidence-SessionSourced p (new_evidence id now tenant intervention_id r) s
                (source_of id now intervention_id tenant r s.tables own) h)
          | inr other ↦ rw other h
        ]

-- If every claim, pending or durable, names a stored intervention, a document and a chunk of it, all of
-- its organization, that is so after a request for a new claim, whatever rows it names, and also if
-- the claim stands already.
pub add_evidence-SessionSourced :
    (p : Platform) (id now : ℕ) (tenant : TenantContext) (intervention_id : ℕ) (r : EvidenceRequest)
    (s : Session)
    → SessionSourced s
    → SessionSourced (add_evidence p id now tenant intervention_id r s).1
unfolding add_evidence require_tenant_roles
add_evidence-SessionSourced p id now tenant intervention_id r s h =
    elim (Bool-cases (role_in tenant.membership.role writers)) [
      | inl allowed ↦ rw allowed (evidence_for-SessionSourced p id now tenant intervention_id r s h)
      | inr other ↦ rw other h
    ]

removed_evidence-SessionSourced :
    (tenant : TenantContext) (intervention_id evidence_id : ℕ) (s : Session)
    → SessionSourced s
    → SessionSourced (removed_evidence tenant intervention_id evidence_id s).1
removed_evidence-SessionSourced tenant intervention_id evidence_id s h =
    elim (Bool-cases (own_evidence tenant intervention_id (get_evidence s.tables evidence_id))) [
      | inl own ↦
          let left =
            All-keep_of_All (IsSourced s.tables.interventions s.tables.documents s.tables.chunks)
              (λ e. not (e.id == evidence_id)) s.tables.evidence h.0 in
          rw own (left, left)
      | inr other ↦ rw other h
    ]

-- If every claim, pending or durable, names a stored intervention, a document and a chunk of it, all of
-- its organization, that is so after a request to remove a claim, whichever it names.
pub remove_evidence-SessionSourced :
    (tenant : TenantContext) (intervention_id evidence_id : ℕ) (s : Session)
    → SessionSourced s
    → SessionSourced (remove_evidence tenant intervention_id evidence_id s).1
unfolding remove_evidence require_tenant_roles
remove_evidence-SessionSourced tenant intervention_id evidence_id s h =
    elim (Bool-cases (role_in tenant.membership.role writers)) [
      | inl allowed ↦
          rw allowed (removed_evidence-SessionSourced tenant intervention_id evidence_id s h)
      | inr other ↦ rw other h
    ]
