-- ===== src/Verification/Exposure.antt =====
-- The requests on verifications as steps on a session, and where their reports lie.
use coolproof.Base.{
  ℕ, ◌==◌, String, str_eq, ◌&&◌, ◌≡◌, refl, sym, Option, none, some, List, [], ◌∷◌, All, All-append,
  arith, Bool-cases, Option-cases, inl, inr,
}
use coolproof.Json.{Fields}
use coolproof.Platform.{Platform}
use coolproof.Failure.{Failure, Result, ok, err, ok-injective, >>=-eq-ok}
use coolproof.Db.Evidence.{VerificationRun}
use coolproof.Db.Query.{save, scalar_sound}
use coolproof.Db.Session.{Session, Tables, commit, close}
use coolproof.Auth.Tenancy.{TenantContext, require_tenant_roles, role_in}
use coolproof.Agents.Api.{writers}
use coolproof.Verification.Reports.{Storage, written_to, write_report, report_key, bucket_of}
use coolproof.Verification.Api.{
  VerificationRequest, Services, reference_refusal, existing_run, is_handled, new_run, add_run,
  save_run, report_of, with_report, calculated, unless_existing, create_verification,
}
use coolproof.Verification.ReportApi.{
  with_key, materialized, stored_run, tenant_run, of_tenant, create_report, create_report_alias,
  not_found, alias_not_found,
}

-- The key is that of the run's own report, if there is one.
abbrev pub KeyIs : Platform → ℕ → ℕ → Option String → Type 0
KeyIs p organization_id id none = Unit
KeyIs p organization_id id (some key) = key ≡ report_key p organization_id id

abbrev pub IsKeyed : Platform → VerificationRun → Type 0
IsKeyed p run = KeyIs p run.organization_id run.id run.report_s3_key

-- So it is for all runs, pending and durable.
abbrev pub SessionKeyed : Platform → Session → Type 0
SessionKeyed p s =
    All (IsKeyed p) s.tables.verification_runs × All (IsKeyed p) s.durable.verification_runs

All-save {ℓ κ} :
    {A : Type ℓ} (P : A → Type κ) (key : A → ℕ) (row : A) (xs : List A)
    → P row
    → All P xs
    → All P (save key row xs)
unfolding save
All-save P key row [] h g = tt
All-save P key row (x ∷ xs) h g = elim (Bool-cases (key x == key row)) [
  | inl same ↦ rw same (h, All-save P key row xs h g.1)
  | inr other ↦ rw other (g.0, All-save P key row xs h g.1)
]

module _ (p : Platform) (storage : Storage) (now organization_id id : ℕ) (result : Fields) where
  written_to-KeyIs :
      (bucket key : Option String)
      → written_to p storage now bucket organization_id id result ≡ ok key
      → KeyIs p organization_id id key
  written_to-KeyIs none key h = let same : key ≡ none = sym (ok-injective h) in rw same tt
  written_to-KeyIs (some bucket) key h =
      let (done, put, built) = >>=-eq-ok (storage.put_object bucket _ _) _ h in
      let same : key ≡ some (report_key p organization_id id) = sym (ok-injective built) in
      rw same refl

module _ (v : Services) (tenant : TenantContext) (now : ℕ) where
  abbrev Keyed : Session → Type 0
  Keyed = SessionKeyed v.platform

  report_of-KeyIs :
      (run : VerificationRun) (key : Option String)
      → report_of v now tenant run ≡ ok key
      → KeyIs v.platform tenant.organization.id run.id key
  unfolding write_report
  report_of-KeyIs run key h =
      written_to-KeyIs v.platform v.storage now tenant.organization.id run.id run.result_json
        (bucket_of v.settings) key h

  saved-Keyed :
      (run : VerificationRun) (key : Option String) (s : Session)
      → run.organization_id ≡ tenant.organization.id
      → KeyIs v.platform tenant.organization.id run.id key
      → Keyed s
      → Keyed (commit (save_run v (record run { report_s3_key = key }) s))
  saved-Keyed run key s own h g =
      let row : IsKeyed v.platform (record run { report_s3_key = key }) = rw own h in
      let rows =
        All-save (IsKeyed v.platform) (λ x. x.id) (record run { report_s3_key = key })
          s.tables.verification_runs row g.0 in
      (rows, rows)

  with_report-Keyed :
      (run : VerificationRun) (written : Result (Option String)) (s : Session)
      → run.organization_id ≡ tenant.organization.id
      → report_of v now tenant run ≡ written
      → Keyed s
      → Keyed (with_report v now run written s).1
  with_report-Keyed run (ok key) s own h g = saved-Keyed run key s own (report_of-KeyIs run key h) g
  with_report-Keyed run (err failure) s own h g = elim (Bool-cases (is_handled failure)) [
    | inl handled ↦ rw handled g
    | inr other ↦ rw other g
  ]

  calculated-Keyed :
      (id : ℕ) (r : VerificationRequest) (result : Result Fields) (s : Session)
      → Keyed s
      → Keyed (calculated v id now tenant r result s).1
  calculated-Keyed id r (err failure) s g = g
  calculated-Keyed id r (ok result) s g =
      let run : VerificationRun = new_run v id tenant r result in
      let rows =
        All-append (IsKeyed v.platform) s.tables.verification_runs (run ∷ []) g.0 (tt, tt) in
      with_report-Keyed run _ (commit (add_run v run s)) refl refl (rows, rows)

  unless_existing-Keyed :
      (id : ℕ) (r : VerificationRequest) (o : Option VerificationRun) (s : Session)
      → Keyed s
      → Keyed (unless_existing v id now tenant r o s).1
  unless_existing-Keyed id r none s g = calculated-Keyed id r _ s g
  unless_existing-Keyed id r (some run) s g = g

  create_verification-Keyed :
      (id : ℕ) (r : VerificationRequest) (s : Session)
      → Keyed s
      → Keyed (create_verification v id now tenant r s).1
  unfolding create_verification require_tenant_roles
  create_verification-Keyed id r s g = elim (Bool-cases (role_in tenant.membership.role writers)) [
    | inl allowed ↦ elim (Option-cases (reference_refusal r tenant s.tables)) [
      | inl clear ↦
          rw (allowed, clear) (unless_existing-Keyed id r (existing_run v tenant r s.tables) s g)
      | inr (failure, refused) ↦ rw (allowed, refused) g
    ]
    | inr other ↦ rw other g
  ]

  with_key-Keyed :
      (run : VerificationRun) (written : Result (Option String)) (s : Session)
      → run.organization_id ≡ tenant.organization.id
      → report_of v now tenant run ≡ written
      → Keyed s
      → Keyed (with_key v run written s).1
  with_key-Keyed run (err failure) s own h g = g
  with_key-Keyed run (ok none) s own h g = g
  with_key-Keyed run (ok (some key)) s own h g = elim (Bool-cases (str_eq key "")) [
    | inl empty ↦ rw empty g
    | inr full ↦ rw full (saved-Keyed run (some key) s own (report_of-KeyIs run (some key) h) g)
  ]

  materialized-Keyed :
      (missing : Failure) (o : Option VerificationRun) (s : Session)
      → ((run : VerificationRun) → o ≡ some run → run.organization_id ≡ tenant.organization.id)
      → Keyed s
      → Keyed (materialized v missing now tenant o s).1
  materialized-Keyed missing none s own g = g
  materialized-Keyed missing (some run) s own g = with_key-Keyed run _ s (own run refl) refl g

  of_tenant-own :
      (o : Option VerificationRun) (run : VerificationRun)
      → of_tenant tenant o ≡ some run
      → run.organization_id ≡ tenant.organization.id
  of_tenant-own none run h = absurd (cc h)
  of_tenant-own (some x) run h = ground arith

  tenant_run-own :
      (id : ℕ) (t : Tables) (run : VerificationRun)
      → tenant_run id tenant t ≡ some run
      → run.organization_id ≡ tenant.organization.id
  tenant_run-own id t run h =
      scalar_sound (λ (x : VerificationRun). x.organization_id ≡ tenant.organization.id)
        (λ (x : VerificationRun). x.id == id && x.organization_id == tenant.organization.id)
        t.verification_runs (λ x e. ground arith) h

  create_report-Keyed : (id : ℕ) (s : Session) → Keyed s → Keyed (create_report v now id tenant s).1
  unfolding create_report require_tenant_roles
  create_report-Keyed id s g = elim (Bool-cases (role_in tenant.membership.role writers)) [
    | inl allowed ↦ rw allowed (
        materialized-Keyed not_found (stored_run id tenant s.tables) s
          (λ run h. of_tenant-own _ run h) g)
    | inr other ↦ rw other g
  ]

  create_report_alias-Keyed :
      (id : ℕ) (s : Session) → Keyed s → Keyed (create_report_alias v now id tenant s).1
  unfolding create_report_alias require_tenant_roles
  create_report_alias-Keyed id s g = elim (Bool-cases (role_in tenant.membership.role writers)) [
    | inl allowed ↦ rw allowed (
        materialized-Keyed alias_not_found (tenant_run id tenant s.tables) s
          (tenant_run-own id s.tables) g)
    | inr other ↦ rw other g
  ]

-- The requests that change verification runs, of any tenants, and the end of a request.
pub data Step (v : Services) (s : Session) : Session → Type 0 where
  creates :
      (id now : ℕ) (tenant : TenantContext) (r : VerificationRequest)
      → Step v s (create_verification v id now tenant r s).1
  reports : (now id : ℕ) (tenant : TenantContext) → Step v s (create_report v now id tenant s).1
  reports_again :
      (now id : ℕ) (tenant : TenantContext) → Step v s (create_report_alias v now id tenant s).1
  ends : Step v s (close s)

pub data Reach (v : Services) (s : Session) : Session → Type 0 where
  here : Reach v s s
  next : {t u : Session} → Reach v s t → Step v t u → Reach v s u

Step-Keyed :
    (v : Services) {s t : Session}
    → Step v s t
    → SessionKeyed v.platform s
    → SessionKeyed v.platform t
Step-Keyed v (creates id now tenant r) g = create_verification-Keyed v tenant now id r _ g
Step-Keyed v (reports now id tenant) g = create_report-Keyed v tenant now id _ g
Step-Keyed v (reports_again now id tenant) g = create_report_alias-Keyed v tenant now id _ g
Step-Keyed v ends g = (g.1, g.1)

-- After any requests of any tenants, from a session where it is so, a report key that a run holds,
-- pending or durable, is the key below the run's own organization and with the run's own id.
pub Reach-SessionKeyed :
    (v : Services) {s t : Session}
    → Reach v s t
    → SessionKeyed v.platform s
    → SessionKeyed v.platform t
Reach-SessionKeyed v here g = g
Reach-SessionKeyed v (next r st) g = Step-Keyed v st (Reach-SessionKeyed v r g)
