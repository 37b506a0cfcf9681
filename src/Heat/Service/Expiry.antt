-- ===== src/Heat/Service/Expiry.antt =====
-- A stored heat query is answered from the tables until it expires, and then sent again as the same row.
use coolproof.Base.{
  ℕ, ◌≤◌, ◌<◌, List, sym, subst, is_some, ltb_of_lt, ltb-false_of_le, ◌==◌, String, Bool, true,
  false, ◌≡◌, refl, ap, ◌∙◌, Option, none, some, [], ◌∷◌, ◌++◌, All,
}
use coolproof.Json.{Fields}
use coolproof.Failure.{Result, ok}
use coolproof.Db.Models.{queued, HeatAnalysis}
use coolproof.Db.Query.{scalar, descending, save}
use coolproof.Db.Session.{Session}
use coolproof.Heat.Request.{analysis_idempotency_key}
use coolproof.Heat.Service.{
  is_fresh, sent, submitted, existing_analysis, submit, Submitted, save_analysis,
}
use coolproof.Db.Query.Only.{scalar-only, save-only}
use coolproof.Heat.Service.Idempotence.{
  is_query, is_query_refl, analyses-schedule, sent_analysis, existing_none,
}

-- An accepted submission of an analysis that is in the session.
sent_outcome :
    (now project_id zone_id : ℕ) (payload : Fields) (usable : Bool) (a : HeatAnalysis)
    (added : Session) (r : Result String) (activity_id : String)
    → r ≡ ok activity_id
    → (s' : Session) × (submitted now project_id zone_id payload usable a added r
        ≡ (ok (sent project_id zone_id payload activity_id a, false), s'))
      × (s'.tables.heat_analyses
          ≡ (save_analysis
              (sent project_id zone_id payload activity_id a)
              added).tables.heat_analyses)
      × (s'.durable ≡ s'.tables)
unfolding submitted
sent_outcome now project_id zone_id payload usable a added r activity_id h = rw h (
  _,
  refl,
  analyses-schedule (sent project_id zone_id payload activity_id a) activity_id now _ _,
  refl,
)

-- The row of a query after a time: the same row, whatever polls have made of the rest of it.
pub record IsRowOf (id organization_id : ℕ) (key : String) (x : HeatAnalysis) : Type 0 where
  pub same_id : x.id ≡ id
  pub same_organization : x.organization_id ≡ organization_id
  pub same_key : x.idempotency_key ≡ key

-- The row of a query on a later session: no other row there has its id, and none other of the organization
-- has its key. The rows before and after it may be any.
pub record IsOnlyRow (id organization_id : ℕ) (key : String) (before : List HeatAnalysis)
    (x : HeatAnalysis) (after : List HeatAnalysis) (t : Session) : Type 0 where
  pub rows : t.tables.heat_analyses ≡ before ++ (x ∷ after)
  pub row : IsRowOf id organization_id key x
  pub ids_before : All (λ (a : HeatAnalysis). (a.id == id) ≡ false) before
  pub ids_after : All (λ (a : HeatAnalysis). (a.id == id) ≡ false) after
  pub queries_before : All (λ (a : HeatAnalysis). is_query organization_id key a ≡ false) before
  pub queries_after : All (λ (a : HeatAnalysis). is_query organization_id key a ≡ false) after

abbrev pub NotExpired : ℕ → Option ℕ → Type 0
NotExpired later expires_at = (time : ℕ) → expires_at ≡ some time → later < time

abbrev pub Expired : ℕ → Option ℕ → Type 0
Expired later expires_at = (time : ℕ) × (expires_at ≡ some time) × (time ≤ later)

NotExpired-is_fresh : (later : ℕ) (o : Option ℕ) → NotExpired later o → is_fresh later o ≡ true
NotExpired-is_fresh later none h = refl
NotExpired-is_fresh later (some time) h = ltb_of_lt later time (h time refl)

Expired-is_fresh : (later : ℕ) (o : Option ℕ) → Expired later o → is_fresh later o ≡ false
Expired-is_fresh later o (time, e, le) = rw e (ltb-false_of_le later time le)

module _ (digest : Fields → String) (create : Fields → Result String)
    (later_id later organization_id project_id zone_id : ℕ) (payload : Fields) (t : Session) where
  abbrev later_key : String
  later_key = analysis_idempotency_key digest zone_id payload

  abbrev answer : Submitted
  answer = submit digest create later_id later organization_id project_id zone_id payload t

  -- A submission that is answered from the tables, and one that sends the row again without adding one.
  abbrev pub IsCached : HeatAnalysis → Type 0
  IsCached x = answer ≡ (ok (x, true), t)

  abbrev pub IsResent : ℕ → List HeatAnalysis → List HeatAnalysis → String → Type 0
  IsResent id before after activity_id =
      (b : HeatAnalysis) × (t' : Session) × (answer ≡ (ok (b, false), t'))
      × (t'.tables.heat_analyses ≡ before ++ (b ∷ after))
      × IsRowOf id organization_id later_key b
      × (b.provider_activity_id ≡ some activity_id)
      × (b.status ≡ queued)
      × (t'.durable ≡ t'.tables)

  module _ (id : ℕ) (before : List HeatAnalysis) (x : HeatAnalysis) (after : List HeatAnalysis)
      (only : IsOnlyRow id organization_id later_key before x after t) where
    found : existing_analysis digest create later_id later organization_id later_key t ≡ some x
    found =
        let query : HeatAnalysis → Bool = is_query organization_id later_key in
        let is_own : query x ≡ true =
          rw (only.row.same_organization, only.row.same_key)
            (is_query_refl organization_id later_key) in
        ap (λ all. scalar query (descending (λ r. r.created_at) all)) only.rows
        ∙ scalar-only query (λ r. r.created_at) before x after only.queries_before is_own
            only.queries_after

    IsCached-of_IsOnlyRow : NotExpired later x.expires_at → IsCached x
    unfolding submit
    IsCached-of_IsOnlyRow alive = rw found (rw (NotExpired-is_fresh later x.expires_at alive) refl)

    IsResent-of_IsOnlyRow :
        (activity_id : String)
        → Expired later x.expires_at
        → create payload ≡ ok activity_id
        → IsResent id before after activity_id
    unfolding submit save_analysis
    IsResent-of_IsOnlyRow activity_id over accepted =
        let b : HeatAnalysis = sent project_id zone_id payload activity_id x in
        let (t', result, saved, durable) =
          sent_outcome later project_id zone_id payload (is_some x.result) x t (create payload)
            activity_id accepted in
        let others : (xs : List HeatAnalysis)
            → All (λ (a : HeatAnalysis). (a.id == id) ≡ false) xs
            → All (λ (a : HeatAnalysis). (a.id == b.id) ≡ false) xs =
          λ xs h.
            subst (λ n. All (λ (a : HeatAnalysis). (a.id == n) ≡ false) xs) (sym only.row.same_id)
              h in
        rw found (
          rw (Expired-is_fresh later x.expires_at over) (
            b,
            t',
            result,
            saved
                ∙ ap (save (λ (r : HeatAnalysis). r.id) b) only.rows
                ∙ save-only (λ r. r.id) b x before after refl (others before only.ids_before)
                    (others after only.ids_after),
            record {
              same_id = only.row.same_id;
              same_organization = only.row.same_organization;
              same_key = only.row.same_key;
            },
            refl,
            refl,
            durable,
          ))

-- If no analysis of the organization has the query's key, the new row's id is fresh and the provider accepts,
-- a submission stores and sends one analysis, durably, that does not expire yet. On any later session that
-- has that row, with whatever polls made of it, and no other row with its id or its organization and key, a
-- submission with the same key gives the row back as cached and changes nothing as long as it has not
-- expired; once it has and the provider accepts, the same row is sent again, and none is added.
pub submit_until_expiry :
    (digest : Fields → String) (create later_create : Fields → Result String)
    (id now later_id later organization_id project_id zone_id later_project later_zone : ℕ)
    (payload later_payload : Fields) (s : Session) (activity_id : String)
    (before : List HeatAnalysis) (x : HeatAnalysis) (after : List HeatAnalysis) (t : Session)
    → existing_analysis digest create id now organization_id
        (analysis_idempotency_key digest zone_id payload)
        s
      ≡ none
    → create payload ≡ ok activity_id
    → All (λ (a : HeatAnalysis). (a.id == id) ≡ false) s.tables.heat_analyses
    → IsOnlyRow id organization_id
        (analysis_idempotency_key digest zone_id payload)
        before
        x
        after
        t
    → analysis_idempotency_key digest later_zone later_payload
      ≡ analysis_idempotency_key digest zone_id payload
    → ((a : HeatAnalysis) × (s' : Session) × (submit digest create id now organization_id project_id
            zone_id payload s
          ≡ (ok (a, false), s'))
        × (s'.tables.heat_analyses ≡ s.tables.heat_analyses ++ (a ∷ []))
        × IsRowOf id organization_id (analysis_idempotency_key digest zone_id payload) a
        × (a.expires_at ≡ none)
        × (s'.durable ≡ s'.tables))
      × (NotExpired later x.expires_at
          → IsCached digest later_create later_id later organization_id later_project later_zone
              later_payload t x)
      × ((later_activity : String)
          → Expired later x.expires_at
          → later_create later_payload ≡ ok later_activity
          → IsResent digest later_create later_id later organization_id later_project later_zone
              later_payload t id before after later_activity)
unfolding submit
submit_until_expiry digest create later_create id now later_id later organization_id project_id
      zone_id later_project later_zone payload later_payload s activity_id before x after t no_row
      accepted fresh only same =
    let (s', result, added, durable) =
      existing_none digest create id now organization_id project_id zone_id payload s activity_id _
        no_row accepted fresh in
    let later_only = subst (λ k. IsOnlyRow id organization_id k before x after t) (sym same) only in
    (
      (
        sent_analysis digest create id now organization_id project_id zone_id payload s activity_id,
        s',
        result,
        added,
        record { same_id = refl; same_organization = refl; same_key = refl },
        refl,
        durable,
      ),
      IsCached-of_IsOnlyRow digest later_create later_id later organization_id later_project
          later_zone later_payload t id before x after later_only,
      IsResent-of_IsOnlyRow digest later_create later_id later organization_id later_project
          later_zone later_payload t id before x after later_only,
    )
