-- ===== src/Heat/Service.antt =====
-- app/services/heat.py: `HeatService`, with its client's answers as arguments. Times are microseconds.
pub mod Idempotence
pub mod Expiry
use coolproof.Base.{
  ℕ, ◌+◌, ◌*◌, ◌^◌, min, ltb, leb, ◌==◌, String, str_eq, ◌<>◌, Bool, true, false, ◌&&◌, ◌||◌, not,
  Option, none, some, is_some, List, [], ◌∷◌, ◌++◌, if◌then◌else◌,
}
use coolproof.Json.{str, Fields, dict}
use coolproof.Platform.{Platform}
use coolproof.Failure.{Failure, Result, ok, err, forty_guard_error, ◌>>=◌}
use coolproof.Audit.{record_audit_event}
use coolproof.Db.Models.{
  HeatAnalysis, HeatAnalysisStatus, queued, running, succeeded, failed, heat_status_value,
  FortyGuardActivity, ProviderCircuit,
}
use coolproof.Db.Query.{scalar, descending, save}
use coolproof.Db.Session.{Session, Tables, commit}
use coolproof.Heat.Request.{analysis_idempotency_key}
use coolproof.Heat.Activity.{normalize_activity}

abbrev pub second : ℕ
second = 1000000

abbrev pub is_terminal : HeatAnalysisStatus → Bool
is_terminal succeeded = true
is_terminal failed = true
is_terminal _ = false

abbrev pub status_eq : HeatAnalysisStatus → HeatAnalysisStatus → Bool
status_eq queued queued = true
status_eq running running = true
status_eq succeeded succeeded = true
status_eq failed failed = true
status_eq _ _ = false

-- The session with one table changed.
abbrev pub with_analyses : (List HeatAnalysis → List HeatAnalysis) → Session → Session
with_analyses f s =
    let t = s.tables in record s { tables = record t { heat_analyses = f t.heat_analyses } }

abbrev pub with_activities : (List FortyGuardActivity → List FortyGuardActivity) → Session → Session
with_activities f s =
    let t = s.tables in record s { tables = record t { activities = f t.activities } }

abbrev pub with_circuits : (List ProviderCircuit → List ProviderCircuit) → Session → Session
with_circuits f s = let t = s.tables in record s { tables = record t { circuits = f t.circuits } }

unfoldable pub save_analysis : HeatAnalysis → Session → Session
unfolding save
save_analysis a = with_analyses (save (λ r. r.id) a)

unfoldable pub save_activity : FortyGuardActivity → Session → Session
unfolding save
save_activity a = with_activities (save (λ r. r.analysis_id) a)

unfoldable pub activity_of : HeatAnalysis → Session → Option FortyGuardActivity
unfolding scalar
activity_of a s = scalar (λ r. r.analysis_id == a.id) s.tables.activities

-- The analysis of a request that is neither stored nor sent yet.
abbrev pub new_analysis : ℕ → ℕ → ℕ → ℕ → ℕ → String → Fields → HeatAnalysis
new_analysis id now organization_id project_id zone_id key payload = record {
  id = id;
  organization_id = organization_id;
  project_id = project_id;
  zone_id = zone_id;
  idempotency_key = key;
  request_payload = payload;
  provider_activity_id = none;
  status = queued;
  result = none;
  error_code = none;
  error_message = none;
  source_updated_at = none;
  expires_at = none;
  created_at = now;
}

-- `existing.expires_at is None or existing.expires_at > now`
abbrev pub is_fresh : ℕ → Option ℕ → Bool
is_fresh now none = true
is_fresh now (some expires_at) = ltb now expires_at

abbrev pub new_activity : HeatAnalysis → String → ℕ → FortyGuardActivity
new_activity a activity_id now = record {
  analysis_id = a.id;
  provider_activity_id = activity_id;
  status = "queued";
  attempts = 0;
  next_poll_at = some now;
  last_payload = none;
}

abbrev pub requeued : FortyGuardActivity → String → ℕ → FortyGuardActivity
requeued activity activity_id now = record activity {
  provider_activity_id = activity_id;
  status = "queued";
  attempts = 0;
  next_poll_at = some now;
}

-- The activity row of a sent analysis, added or reset.
abbrev pub schedule : HeatAnalysis → String → ℕ → Option FortyGuardActivity → Session → Session
schedule a activity_id now none s =
    with_activities (λ rows. rows ++ (new_activity a activity_id now ∷ [])) s
schedule a activity_id now (some activity) s = save_activity (requeued activity activity_id now) s

abbrev pub sent : ℕ → ℕ → Fields → String → HeatAnalysis → HeatAnalysis
sent project_id zone_id payload activity_id a = record a {
  project_id = project_id;
  zone_id = zone_id;
  request_payload = payload;
  status = queued;
  error_code = none;
  error_message = none;
  provider_activity_id = some activity_id;
}

abbrev pub Submitted : Type 0
Submitted = Result (HeatAnalysis × Bool) × Session

abbrev pub failed_with : String → String → HeatAnalysis → HeatAnalysis
failed_with code message a = record a {
  status = failed;
  error_code = some code;
  error_message = some message;
}

-- The analysis is in the session, and the provider's answer is there; `usable` says that an earlier
-- result is stored.
unfoldable pub submitted :
    ℕ → ℕ → ℕ → Fields → Bool → HeatAnalysis → Session → Result String → Submitted
unfolding save_analysis save_activity activity_of
submitted now project_id zone_id payload usable a s (ok activity_id) =
    let a' = sent project_id zone_id payload activity_id a in
    (ok (a', false), commit (schedule a' activity_id now (activity_of a' s) (save_analysis a' s)))
submitted now project_id zone_id payload usable a s
      (err (forty_guard_error code message retryable)) =
    if usable
    then (let stale = record a { error_code = some code; error_message = some message } in
        (ok (stale, true), commit (save_analysis stale s)))
    else (
      err (forty_guard_error code message retryable),
      commit (save_analysis (failed_with code message a) s),
    )
submitted now project_id zone_id payload usable a s (err failure) = (err failure, s)

module _ (digest : Fields → String) (create : Fields → Result String) (id now : ℕ) where
  abbrev pub submit_existing :
      ℕ → ℕ → ℕ → Fields → String → Option HeatAnalysis → Session → Submitted
  submit_existing organization_id project_id zone_id payload key none s =
      let a = new_analysis id now organization_id project_id zone_id key payload in
      submitted now project_id zone_id payload false a (with_analyses (λ rows. rows ++ (a ∷ [])) s)
        (create payload)
  submit_existing organization_id project_id zone_id payload key (some existing) s =
      if is_fresh now existing.expires_at
      then (ok (existing, true), s)
      else submitted now project_id zone_id payload (is_some existing.result) existing s
          (create payload)

  abbrev pub existing_analysis : ℕ → String → Session → Option HeatAnalysis
  existing_analysis organization_id key s =
      scalar (λ a. a.organization_id == organization_id && str_eq a.idempotency_key key)
        (descending (λ a. a.created_at) s.tables.heat_analyses)

  -- `submit(...)`, with the new row's UUID.
  unfoldable pub submit : ℕ → ℕ → ℕ → Fields → Session → Submitted
  unfolding analysis_idempotency_key scalar descending submitted
  submit organization_id project_id zone_id payload s =
      let key = analysis_idempotency_key digest zone_id payload in
      submit_existing organization_id project_id zone_id payload key
        (existing_analysis organization_id key s) s
