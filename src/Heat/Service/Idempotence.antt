-- ===== src/Heat/Service/Idempotence.antt =====
-- A heat query is paid once: a repeated submission is answered from the tables.
use coolproof.Base.{
  ℕ, ◌==◌, ==-refl, String, str_eq, eq_iff, Bool, true, false, ◌&&◌, ◌≡◌, refl, ap, ◌∙◌, Option,
  none, some, [], ◌∷◌, ◌++◌, All, arith,
}
use coolproof.Json.{Fields}
use coolproof.Failure.{Result, ok}
use coolproof.Db.Models.{HeatAnalysis, FortyGuardActivity}
use coolproof.Db.Query.{scalar, descending}
use coolproof.Db.Query.Found.{NoneOf-of_scalar, scalar-append, save-append}
use coolproof.Db.Session.{Session}
use coolproof.Heat.Request.{analysis_idempotency_key}
use coolproof.Heat.Service.{
  new_analysis, sent, schedule, submitted, submit_existing, existing_analysis, submit,
  save_analysis, save_activity, with_analyses,
}

abbrev pub is_query : ℕ → String → HeatAnalysis → Bool
is_query organization_id key a =
    a.organization_id == organization_id && str_eq a.idempotency_key key

pub analyses-schedule :
    (a : HeatAnalysis) (activity_id : String) (now : ℕ) (o : Option FortyGuardActivity)
    (s : Session)
    → (schedule a activity_id now o s).tables.heat_analyses ≡ s.tables.heat_analyses
unfolding save_activity
analyses-schedule a activity_id now none s = refl
analyses-schedule a activity_id now (some activity) s = refl

module _ (digest : Fields → String) (create : Fields → Result String)
    (id now organization_id project_id zone_id : ℕ) (payload : Fields) (s : Session) where
  abbrev pub key : String
  key = analysis_idempotency_key digest zone_id payload

  abbrev pub stored : HeatAnalysis
  stored = new_analysis id now organization_id project_id zone_id key payload

  abbrev pub sent_analysis : String → HeatAnalysis
  sent_analysis activity_id = sent project_id zone_id payload activity_id stored

  submitted_ok :
      (activity_id : String) (added : Session) (r : Result String)
      → r ≡ ok activity_id
      → (s' : Session) × (submitted now project_id zone_id payload false stored added r
          ≡ (ok (sent_analysis activity_id, false), s'))
        × (s'.tables.heat_analyses
            ≡ (save_analysis (sent_analysis activity_id) added).tables.heat_analyses)
        × (s'.durable ≡ s'.tables)
  unfolding submitted
  submitted_ok activity_id added r h =
      rw h (_, refl, analyses-schedule (sent_analysis activity_id) activity_id now _ _, refl)

  pub existing_none :
      (activity_id : String) (o : Option HeatAnalysis)
      → o ≡ none
      → create payload ≡ ok activity_id
      → All (λ (a : HeatAnalysis). (a.id == id) ≡ false) s.tables.heat_analyses
      → (s' : Session) × (submit_existing digest create id now organization_id project_id zone_id
            payload key o s
          ≡ (ok (sent_analysis activity_id, false), s'))
        × (s'.tables.heat_analyses ≡ s.tables.heat_analyses ++ (sent_analysis activity_id ∷ []))
        × (s'.durable ≡ s'.tables)
  unfolding save_analysis
  existing_none activity_id (some a) h accepted fresh = absurd (cc h)
  existing_none activity_id none h accepted fresh =
      let (s', result, rows, durable) =
        submitted_ok activity_id (with_analyses (λ rows. rows ++ (stored ∷ [])) s) (create payload)
          accepted in
      (
        s',
        result,
        rows
            ∙ save-append (λ r. r.id) (sent_analysis activity_id) stored s.tables.heat_analyses refl
                fresh,
        durable,
      )

pub is_query_refl : (n : ℕ) (key : String) → ((n == n) && str_eq key key) ≡ true
is_query_refl n key = ground (arith, ==-refl n, eq_iff key key)

cached_existing :
    (digest : Fields → String) (create : Fields → Result String)
    (id now organization_id project_id zone_id : ℕ) (payload : Fields) (key : String)
    (o : Option HeatAnalysis) (a : HeatAnalysis) (s : Session)
    → a.expires_at ≡ none
    → o ≡ some a
    → submit_existing digest create id now organization_id project_id zone_id payload key o s
      ≡ (ok (a, true), s)
cached_existing digest create id now organization_id project_id zone_id payload key o a s never e =
    rw (e, never) refl

-- If no analysis of the organization has the query's key, the new row's id is fresh and the provider
-- accepts, a submission stores and sends one analysis, durably; and on the session that it leaves every
-- submission of that organization with the same key gives that analysis back as cached and changes nothing,
-- from whichever project and zone, and whatever the provider would answer.
pub submit_twice :
    (digest : Fields → String) (create later_create : Fields → Result String)
    (id now later_id later organization_id project_id zone_id later_project later_zone : ℕ)
    (payload later_payload : Fields) (s : Session) (activity_id : String)
    → existing_analysis digest create id now organization_id
        (analysis_idempotency_key digest zone_id payload)
        s
      ≡ none
    → create payload ≡ ok activity_id
    → All (λ (a : HeatAnalysis). (a.id == id) ≡ false) s.tables.heat_analyses
    → analysis_idempotency_key digest later_zone later_payload
      ≡ analysis_idempotency_key digest zone_id payload
    → (a : HeatAnalysis) × (s' : Session) × (submit digest create id now organization_id project_id
          zone_id payload s
        ≡ (ok (a, false), s'))
      × (s'.tables.heat_analyses ≡ s.tables.heat_analyses ++ (a ∷ []))
      × (s'.durable ≡ s'.tables)
      × (submit digest later_create later_id later organization_id later_project later_zone
            later_payload s'
          ≡ (ok (a, true), s'))
unfolding submit
submit_twice digest create later_create id now later_id later organization_id project_id zone_id
      later_project later_zone payload later_payload s activity_id no_row accepted fresh same =
    let key_ = analysis_idempotency_key digest zone_id payload in
    let a =
      sent_analysis digest create id now organization_id project_id zone_id payload s activity_id in
    let (s', result, rows, durable) =
      existing_none digest create id now organization_id project_id zone_id payload s activity_id _
        no_row accepted fresh in
    let query : HeatAnalysis → Bool = is_query organization_id key_ in
    let found : existing_analysis digest later_create later_id later organization_id key_ s'
        ≡ some a =
      ap (λ all. scalar query (descending (λ r. r.created_at) all)) rows
      ∙ scalar-append query (λ r. r.created_at) s.tables.heat_analyses a
          (NoneOf-of_scalar query (λ r. r.created_at) s.tables.heat_analyses no_row)
          (is_query_refl organization_id key_) in
    (
      a,
      s',
      result,
      rows,
      durable,
      cached_existing digest later_create later_id later organization_id later_project later_zone
          later_payload _ _ a s' refl
          (ap (λ k. existing_analysis digest later_create later_id later organization_id k s') same
            ∙ found),
    )
