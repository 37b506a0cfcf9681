-- ===== src/Verification/Again.antt =====
-- A verification is calculated and stored once for each request.
use coolproof.Base.{
  ℕ, ◌==◌, String, str_eq, eq_iff, Bool, true, false, ◌&&◌, ◌≡◌, refl, sym, ap, ◌∙◌, Option, none,
  some, [], ◌∷◌, ◌++◌, All, arith, Bool-cases, Option-cases, inl, inr,
}
use coolproof.Json.{Value, null, str, Fields, remove}
use coolproof.Failure.{Failure, Result, ok, err, err≢ok, err-injective, ok-injective, Gives}
use coolproof.Verification.Reports.{report_download_url}
use coolproof.Db.Evidence.{VerificationRun}
use coolproof.Db.Query.{scalar, save}
use coolproof.Db.Query.Found.{scalar-NoneOf, scalar-last, save-append}
use coolproof.Db.Session.{Session, commit}
use coolproof.Auth.Tenancy.{TenantContext, require_tenant_roles, role_in}
use coolproof.Agents.Api.{Reply, writers}
use coolproof.Verification.Api.{
  VerificationRequest, Services, reference_refusal, existing_run, is_handled, url_or_null, url_of,
  with_url, response, new_run, add_run, save_run, with_report, calculated, unless_existing,
  idempotency_key, created, create_verification,
}

-- A later answer agrees with an earlier one except for the URL, which is signed anew; it raises only what
-- the signing of the new URL raises.
pub record Agrees (v : Services) (later : ℕ) (out : Fields) (answer : Result Fields) : Type 0 where
  pub same : Gives (λ out'. remove "report_url" out' ≡ remove "report_url" out) answer
  pub raised :
      (failure : Failure)
      → answer ≡ err failure
      → (key : String) × (report_download_url v.storage v.settings later key ≡ err failure)

module _ (v : Services) (run : VerificationRun) (later : ℕ) where
  with_url-same :
      (earlier_url later_url : Value) (out : Fields)
      → with_url v run (ok earlier_url) ≡ ok out
      → Agrees v later out (with_url v run (ok later_url))
  unfolding remove
  with_url-same earlier_url later_url out h = record {
    same = ap (remove "report_url") (ok-injective h);
    raised = λ failure e. absurd (cc e);
  }

  signed_again :
      (key : String) (earlier_url : Value) (out : Fields) (signed : Result String)
      → report_download_url v.storage v.settings later key ≡ signed
      → with_url v run (ok earlier_url) ≡ ok out
      → Agrees v later out (with_url v run (url_or_null v signed))
  signed_again key earlier_url out (ok url) e h = with_url-same earlier_url (str url) out h
  signed_again key earlier_url out (err failure) e h = elim (Bool-cases (is_handled failure)) [
    | inl handled ↦ rw handled (with_url-same earlier_url null out h)
    | inr other ↦
        rw other (record { same = tt; raised = λ f g. (key, e ∙ ap err (err-injective g)) })
  ]

  url_again :
      (key : Option String) (earlier_url : Result Value) (out : Fields)
      → with_url v run earlier_url ≡ ok out
      → Agrees v later out (with_url v run (url_of v later key))
  url_again key (err failure) out h = absurd (err≢ok h)
  url_again none (ok url) out h = with_url-same url null out h
  url_again (some key) (ok url) out h = elim (Bool-cases (str_eq key "")) [
    | inl blank ↦ rw blank (with_url-same url null out h)
    | inr text ↦ rw text (signed_again key url out _ refl h)
  ]

  response_again :
      (now : ℕ) (out : Fields)
      → response v now run ≡ ok out
      → Agrees v later out (response v later run)
  unfolding response
  response_again now out h = url_again run.report_s3_key _ out h

module _ (v : Services) (tenant : TenantContext) (r : VerificationRequest) where
  abbrev is_same : VerificationRun → Bool
  is_same x =
      x.organization_id == tenant.organization.id && str_eq x.idempotency_key (idempotency_key v r)

  -- The request at that time is answered in agreement, and changes nothing.
  abbrev IsRepeated : ℕ → ℕ → Session → Fields → Type 0
  IsRepeated id now s out =
      (answer : Result Fields) × (created v id now r tenant s ≡ (answer, s))
      × Agrees v now out answer

  -- The reply to a request whose run is stored is that run's response.
  created_existing :
      (earlier id now : ℕ) (s : Session) (run : VerificationRun) (out : Fields)
      → reference_refusal r tenant s.tables ≡ none
      → existing_run v tenant r s.tables ≡ some run
      → response v earlier run ≡ ok out
      → IsRepeated id now s out
  created_existing earlier id now s run out clear found answered =
      (response v now run, rw (clear, found) refl, response_again v run now earlier out answered)

  is_same-new_run : (id : ℕ) (result : Fields) → is_same (new_run v id tenant r result) ≡ true
  is_same-new_run id result = ground (arith, eq_iff (idempotency_key v r) (idempotency_key v r))

  module _ (id now id' now' : ℕ) (s : Session) (out : Fields) (s' : Session)
      (clear : reference_refusal r tenant s.tables ≡ none)
      (fresh : All (λ (x : VerificationRun). (x.id == id) ≡ false) s.tables.verification_runs)
      (missing : existing_run v tenant r s.tables ≡ none) where
    -- After the run was added, and after its key was saved, the same request finds it.
    with_report_again :
        (result : Fields) (written : Result (Option String))
        → with_report v now
            (new_run v id tenant r result)
            written
            (commit (add_run v (new_run v id tenant r result) s))
          ≡ (ok out, s')
        → IsRepeated id' now' s' out
    unfolding reference_refusal
    with_report_again result (ok key) h =
        let run : VerificationRun = new_run v id tenant r result in
        let run' : VerificationRun = record run { report_s3_key = key } in
        let left : Session = commit (save_run v run' (commit (add_run v run s))) in
        let same : s' ≡ left = ap (λ (x : Reply Fields). x.1) (sym h) in
        let stored : save (λ x. x.id) run' (s.tables.verification_runs ++ (run ∷ []))
            ≡ s.tables.verification_runs ++ (run' ∷ []) =
          save-append (λ x. x.id) run' run s.tables.verification_runs refl fresh in
        rw same (
          created_existing now id' now' left run' out clear
            (ap (scalar is_same) stored
              ∙ scalar-last is_same s.tables.verification_runs run'
                  (scalar-NoneOf is_same s.tables.verification_runs missing)
                  (is_same-new_run id result))
            (ap (λ (x : Reply Fields). x.0) h))
    with_report_again result (err failure) h = elim (Bool-cases (is_handled failure)) [
      | inl handled ↦
          let run : VerificationRun = new_run v id tenant r result in
          let left : Session = commit (add_run v run s) in
          let kept : (response v now run, left) ≡ (ok out, s') = rw handled at h in
          let same : s' ≡ left = ap (λ (x : Reply Fields). x.1) (sym kept) in
          rw same (
            created_existing now id' now' left run out clear
              (scalar-last is_same s.tables.verification_runs run
                (scalar-NoneOf is_same s.tables.verification_runs missing)
                (is_same-new_run id result))
              (ap (λ (x : Reply Fields). x.0) kept))
      | inr other ↦ absurd (err≢ok (ap (λ (x : Reply Fields). x.0) (rw other at h)))
    ]

    calculated_again :
        (result : Result Fields)
        → calculated v id now tenant r result s ≡ (ok out, s')
        → IsRepeated id' now' s' out
    calculated_again (err failure) h = absurd (err≢ok (ap (λ (x : Reply Fields). x.0) h))
    calculated_again (ok result) h = with_report_again result _ h

  unless_existing_again :
      (id now id' now' : ℕ) (s : Session) (out : Fields) (s' : Session) (o : Option VerificationRun)
      → reference_refusal r tenant s.tables ≡ none
      → All (λ (x : VerificationRun). (x.id == id) ≡ false) s.tables.verification_runs
      → existing_run v tenant r s.tables ≡ o
      → unless_existing v id now tenant r o s ≡ (ok out, s')
      → IsRepeated id' now' s' out
  unless_existing_again id now id' now' s out s' none clear fresh missing h =
      calculated_again id now id' now' s out s' clear fresh missing _ h
  unless_existing_again id now id' now' s out s' (some run) clear fresh found h =
      let same : s' ≡ s = ap (λ (x : Reply Fields). x.1) (sym h) in
      rw same
        (created_existing now id' now' s run out clear found (ap (λ (x : Reply Fields). x.0) h))

-- If the new row's id is fresh and a request for a verification is answered, then the same request at any
-- time is answered from the tables and changes nothing, whether the first one calculated the run or found
-- it and whether its report was written or not: the answer is the same but for the URL of the report, which
-- is signed anew, and it raises only what that signing raises.
pub create_verification_again :
    (v : Services) (tenant : TenantContext) (r : VerificationRequest) (id now id' now' : ℕ)
    (s : Session) (out : Fields) (s' : Session)
    → All (λ (x : VerificationRun). (x.id == id) ≡ false) s.tables.verification_runs
    → create_verification v id now tenant r s ≡ (ok out, s')
    → (answer : Result Fields) × (create_verification v id' now' tenant r s' ≡ (answer, s'))
      × Agrees v now' out answer
unfolding create_verification require_tenant_roles
create_verification_again v tenant r id now id' now' s out s' fresh h =
    elim (Bool-cases (role_in tenant.membership.role writers)) [
      | inl allowed ↦ elim (Option-cases (reference_refusal r tenant s.tables)) [
        | inl clear ↦ rw allowed (
            unless_existing_again v tenant r id now id' now' s out s' _ clear fresh refl
              (rw clear at (rw allowed at h)))
        | inr (failure, refused) ↦
            absurd (err≢ok (ap (λ (x : Reply Fields). x.0) (rw refused at (rw allowed at h))))
      ]
      | inr other ↦ absurd (err≢ok (ap (λ (x : Reply Fields). x.0) (rw other at h)))
    ]
