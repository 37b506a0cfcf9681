-- ===== src/Interventions/Complete.antt =====
-- app/api/interventions.py: the listing of claims shows all of them, each with its own source.
use coolproof.Base.{
  ℕ, ◌==◌, ==→eq, Bool, true, false, ◌&&◌, ◌≡◌, ◌≢◌, refl, sym, ap, subst, fun_ext, ◌∙◌, some, List,
  [], ◌∷◌, any, keep, map, All, All-keep, All-keep_of_All, arith, Bool-cases, inl, inr,
}
use coolproof.Json.{Fields}
use coolproof.Platform.{Platform}
use coolproof.Failure.{ok, Gives, of_Gives}
use coolproof.Db.Evidence.{InterventionEvidence}
use coolproof.Db.Query.{scalar, All-ascending}
use coolproof.Db.Session.{Session, Tables}
use coolproof.Auth.Tenancy.{TenantContext, require_tenant_roles, role_in}
use coolproof.Agents.Api.{readers}
use coolproof.Interventions.{get_intervention}
use coolproof.Interventions.Sourced.{IsSourced, AllSourced}
use coolproof.Interventions.Listing.{
  EvidenceRow, evidence_rows, claims_on, own_intervention, evidence_row_out, listed_evidence,
  list_evidence,
}

module _ {ℓ} {A : Type ℓ} (key : A → ℕ) where
  -- A primary key: no two rows have it in common.
  abbrev pub IsKeyOf : List A → Type 0
  IsKeyOf [] = Unit
  IsKeyOf (x ∷ xs) = All (λ y. key y ≢ key x) xs × IsKeyOf xs

  any-keyless :
      (k : ℕ) (q : A → Bool) (xs : List A)
      → All (λ y. key y ≢ k) xs
      → any (λ y. key y == k && q y) xs ≡ false
  unfolding any
  any-keyless k q [] h = refl
  any-keyless k q (x ∷ xs) h = ground (arith, any-keyless k q xs h.1)

  any-here :
      (k : ℕ) (q : A → Bool) (x : A) (xs : List A)
      → (key x == k) ≡ true
      → All (λ y. key y ≢ key x) xs
      → any (λ y. key y == k && q y) (x ∷ xs) ≡ true
      → q x ≡ true
  unfolding any
  any-here k q x xs same h found =
      let away : All (λ y. key y ≢ k) xs =
        subst (λ n. All (λ y. key y ≢ n) xs) (==→eq (key x) k same) h in
      let nowhere : any (λ y. key y == k && q y) xs ≡ false = any-keyless k q xs away in
      ground (arith, nowhere, found)

  any-later :
      (k : ℕ) (q : A → Bool) (x : A) (xs : List A)
      → (key x == k) ≡ false
      → any (λ y. key y == k && q y) (x ∷ xs) ≡ true
      → any (λ y. key y == k && q y) xs ≡ true
  unfolding any
  any-later k q x xs other found = ground (arith, other, found)

  -- If some row with a key passes a test, the row that the key finds does.
  keyed_row :
      (k : ℕ) (q : A → Bool) (xs : List A)
      → IsKeyOf xs
      → any (λ y. key y == k && q y) xs ≡ true
      → (x : A) × (scalar (λ y. key y == k) xs ≡ some x) × (key x ≡ k) × (q x ≡ true)
  unfolding scalar keep any
  keyed_row k q [] unique h = absurd (cc h)
  keyed_row k q (x ∷ xs) unique h = elim (Bool-cases (key x == k)) [
    | inl same ↦ (x, rw same refl, ==→eq (key x) k same, any-here k q x xs same unique.0 h)
    | inr other ↦
        let (y, found, at, passes) = keyed_row k q xs unique.1 (any-later k q x xs other h) in
        (y, rw other found, at, passes)
  ]

-- The document and the chunk of a row are of an organization, and belong together.
abbrev pub OwnRow : ℕ → EvidenceRow → Type 0
OwnRow organization_id row =
    (row.document.organization_id ≡ organization_id)
    × (row.chunk.organization_id ≡ organization_id)
    × (row.chunk.document_id ≡ row.document.id)

both_of : (a b c d : ℕ) → (a == b && c == d) ≡ true → (a ≡ b) × (c ≡ d)
both_of a b c d h = ground arith

and_assoc : (a b c : Bool) → (a && b && c) ≡ (a && (b && c))
and_assoc true b c = refl
and_assoc false b c = refl

any-and_assoc {ℓ} :
    {A : Type ℓ} (a b c : A → Bool) (xs : List A)
    → any (λ x. a x && b x && c x) xs ≡ true
    → any (λ x. a x && (b x && c x)) xs ≡ true
any-and_assoc a b c xs h =
    subst (λ p. any p xs ≡ true) (fun_ext (λ x. and_assoc (a x) (b x) (c x))) h

module _ (organization_id : ℕ) (t : Tables) where
  abbrev IsOwnClaim : InterventionEvidence → Type 0
  IsOwnClaim e =
      IsSourced t.interventions t.documents t.chunks e × (e.organization_id ≡ organization_id)

  All-both :
      (es : List InterventionEvidence)
      → All (IsSourced t.interventions t.documents t.chunks) es
      → All (λ e. e.organization_id ≡ organization_id) es
      → All IsOwnClaim es
  All-both [] h g = tt
  All-both (e ∷ es) h g = ((h.0, g.0), All-both es h.1 g.1)

module _ (organization_id : ℕ) (t : Tables) (unique_documents : IsKeyOf (λ d. d.id) t.documents)
    (unique_chunks : IsKeyOf (λ c. c.id) t.chunks) where
  evidence_rows_complete :
      (es : List InterventionEvidence)
      → All (IsOwnClaim organization_id t) es
      → (map (λ row. row.evidence) (evidence_rows t es) ≡ es)
        × All (OwnRow organization_id) (evidence_rows t es)
  unfolding evidence_rows
  evidence_rows_complete [] h = (refl, tt)
  evidence_rows_complete (e ∷ es) h =
      let (rest, own) = evidence_rows_complete es h.1 in
      let (d, has_document, d_id, d_own) =
        keyed_row (λ d. d.id) e.document_id (λ d. d.organization_id == e.organization_id)
          t.documents unique_documents h.0.0.document in
      let (c, has_chunk, c_id, c_own) =
        keyed_row (λ c. c.id) e.chunk_id
          (λ c. c.organization_id == e.organization_id && c.document_id == e.document_id) t.chunks
          unique_chunks
          (any-and_assoc (λ c. c.id == e.chunk_id) (λ c. c.organization_id == e.organization_id)
            (λ c. c.document_id == e.document_id) t.chunks h.0.0.chunk) in
      let (c_organization, c_document) = both_of _ _ _ _ c_own in
      rw has_document (
        rw has_chunk (
          ap (λ es. e ∷ es) rest,
          (
            (
              ==→eq d.organization_id e.organization_id d_own ∙ h.0.1,
              c_organization ∙ h.0.1,
              c_document ∙ sym d_id,
            ),
            own,
          ),
        ))

claims_on-IsOwnClaim :
    (tenant : TenantContext) (intervention_id : ℕ) (t : Tables)
    → AllSourced t
    → All (IsOwnClaim tenant.organization.id t) (claims_on tenant intervention_id t)
unfolding claims_on
claims_on-IsOwnClaim tenant intervention_id t h =
    let mine : InterventionEvidence → Bool =
      λ e. e.intervention_id == intervention_id && e.organization_id == tenant.organization.id in
    All-ascending (IsOwnClaim tenant.organization.id t) (λ e. e.created_at) (keep mine t.evidence)
      (All-both tenant.organization.id t (keep mine t.evidence)
        (All-keep_of_All (IsSourced t.interventions t.documents t.chunks) mine t.evidence h)
        (All-keep (λ e. e.organization_id ≡ tenant.organization.id) mine t.evidence
          (λ e found. (both_of _ _ _ _ found).1)))

-- A listing shows exactly these rows.
abbrev pub ShowsAll : Platform → TenantContext → ℕ → Tables → List Fields → Type 0
ShowsAll p tenant intervention_id t shown =
    (rows : List EvidenceRow) × (shown ≡ map (evidence_row_out p) rows)
    × (map (λ row. row.evidence) rows ≡ claims_on tenant intervention_id t)
    × All (OwnRow tenant.organization.id) rows

module _ (p : Platform) (tenant : TenantContext) (intervention_id : ℕ) (s : Session)
    (unique_documents : IsKeyOf (λ d. d.id) s.tables.documents)
    (unique_chunks : IsKeyOf (λ c. c.id) s.tables.chunks) (sourced : AllSourced s.tables) where
  listed_evidence-ShowsAll :
      Gives
        (ShowsAll p tenant intervention_id s.tables)
        (listed_evidence p tenant intervention_id s).0
  listed_evidence-ShowsAll =
      elim (Bool-cases (own_intervention tenant (get_intervention s.tables intervention_id))) [
        | inl own ↦
            let claims = claims_on tenant intervention_id s.tables in
            let (all, each) =
              evidence_rows_complete tenant.organization.id s.tables unique_documents unique_chunks
                claims (claims_on-IsOwnClaim tenant intervention_id s.tables sourced) in
            rw own (evidence_rows s.tables claims, refl, all, each)
        | inr other ↦ rw other tt
      ]

  list_evidence-Gives :
      Gives
        (ShowsAll p tenant intervention_id s.tables)
        (list_evidence p tenant intervention_id s).0
  unfolding list_evidence require_tenant_roles
  list_evidence-Gives = elim (Bool-cases (role_in tenant.membership.role readers)) [
    | inl allowed ↦ rw allowed listed_evidence-ShowsAll
    | inr other ↦ rw other tt
  ]

  -- If ids are keys of the documents and of the chunks and every claim names a stored document and a chunk
  -- of it, of its organization, then a listing that is given shows every claim of the tenant on the
  -- intervention, from the oldest on, each with a document of the tenant and a chunk of that document.
  pub list_evidence-ShowsAll :
      (shown : List Fields)
      → (list_evidence p tenant intervention_id s).0 ≡ ok shown
      → ShowsAll p tenant intervention_id s.tables shown
  list_evidence-ShowsAll shown h =
      of_Gives (ShowsAll p tenant intervention_id s.tables)
        (list_evidence p tenant intervention_id s).0 shown list_evidence-Gives h
