-- ===== src/Heat/Poll/Usable.antt =====
-- A succeeded analysis has its dataset: what `normalize_activity`, `poll` and `submit` keep.
use coolproof.Base.{
  ℕ, String, text_in, Bool, true, false, ◌≡◌, refl, Option, none, some, is_some, List, [], ◌∷◌, All,
  All-append, arith, if◌then◌else◌, Bool-cases, Option-cases, inl, inr,
}
use coolproof.Json.{Fields, Value, obj, get, or_value}
use coolproof.Platform.{Platform}
use coolproof.Failure.{Result, ok, err, forty_guard_error, ◌>>=◌, Gives}
use coolproof.Audit.{record_audit_event}
use coolproof.Auth.Claims.{present}
use coolproof.Db.Models.{
  HeatAnalysis, HeatAnalysisStatus, queued, running, succeeded, failed, FortyGuardActivity,
  ProviderCircuit,
}
use coolproof.Db.Query.{save, scalar_stored, All-descending}
use coolproof.Db.Session.{Session, Tables}
use coolproof.Heat.Activity.{
  normalize_activity, completed_result, activity_state, envelope, invalid_response,
}
use coolproof.Heat.Service.{
  status_eq, save_analysis, save_activity, is_fresh, sent, failed_with, schedule, submitted,
  submit_existing, submit, new_analysis,
}
use coolproof.Heat.Poll.{
  close_circuit, trip_circuit, save_if_there, answered, audited, on_answer, on_error, retry_or_fail,
  read_activity, normalized, poll_unless_blocked, poll, running_with, fortyguard_circuit, blocks,
}

-- What `normalize_activity` gives: a result exactly with the status `succeeded`.
abbrev pub HasResult : HeatAnalysisStatus × Option Fields → Type 0
HasResult (status, result) = is_some result ≡ status_eq status succeeded

completed_result-HasResult : (v : Option Value) → Gives HasResult (completed_result v)
completed_result-HasResult none = tt
completed_result-HasResult (some (obj result)) = refl
completed_result-HasResult (some v) = tt

by_status :
    (queued_ running_ completed_ failed_ : Bool)
    (r last : Result (HeatAnalysisStatus × Option Fields))
    → Gives HasResult r
    → Gives HasResult last
    → Gives HasResult (
        if queued_
        then ok (queued, none)
        else if running_
        then ok (running, none)
        else if completed_
        then r
        else if failed_
        then ok (failed, none)
        else last)
by_status true b c d r last h g = refl
by_status false true c d r last h g = refl
by_status false false true d r last h g = h
by_status false false false true r last h g = refl
by_status false false false false r last h g = g

-- If an activity is understood, it has a result exactly if its status is `succeeded`.
normalize_activity-HasResult :
    (p : Platform) (payload : Fields) → Gives HasResult (normalize_activity p payload)
unfolding normalize_activity text_in
normalize_activity-HasResult p payload =
    let state = activity_state p payload in
    by_status (text_in state ("queued" ∷ "pending" ∷ []))
      (text_in state ("running" ∷ "processing" ∷ []))
      (text_in state ("succeeded" ∷ "completed" ∷ "complete" ∷ []))
      (text_in state ("failed" ∷ "error" ∷ "cancelled" ∷ []))
      (completed_result
        (or_value (get "result" (envelope payload (get "data" payload))) (get "result" payload)))
      (invalid_response "FortyGuard returned an unknown activity status")
      (completed_result-HasResult _) tt

-- A succeeded analysis has a result and a time from which it is stale.
abbrev pub IsUsable : HeatAnalysis → Type 0
IsUsable a =
    status_eq a.status succeeded ≡ true → (is_some a.result ≡ true) × (is_some a.expires_at ≡ true)

abbrev pub AllUsable : Tables → Type 0
AllUsable t = All IsUsable t.heat_analyses

save-All {ℓ} :
    {A : Type ℓ} (P : A → Type 0) (key : A → ℕ) (row : A) (rows : List A)
    → P row
    → All P rows
    → All P (save key row rows)
unfolding save
save-All P key row [] pr h = tt
save-All P key row (x ∷ xs) pr h = ground (arith, save-All P key row xs pr h.1)

analyses-save_if_there :
    (f : FortyGuardActivity → FortyGuardActivity) (o : Option FortyGuardActivity) (s : Session)
    → (save_if_there f o s).tables.heat_analyses ≡ s.tables.heat_analyses
unfolding save_activity
analyses-save_if_there f none s = refl
analyses-save_if_there f (some activity) s = refl

analyses-close_circuit :
    (c : Option ProviderCircuit) (s : Session)
    → (close_circuit c s).tables.heat_analyses ≡ s.tables.heat_analyses
analyses-close_circuit none s = refl
analyses-close_circuit (some c) s = refl

analyses-trip_circuit :
    (now : ℕ) (c : Option ProviderCircuit) (s : Session)
    → (trip_circuit now c s).tables.heat_analyses ≡ s.tables.heat_analyses
analyses-trip_circuit now none s = refl
analyses-trip_circuit now (some c) s = refl

answered-IsUsable :
    (now ttl : ℕ) (status : HeatAnalysisStatus) (result : Option Fields) (a : HeatAnalysis)
    → is_some result ≡ status_eq status succeeded
    → IsUsable (answered now ttl status result a)
answered-IsUsable now ttl succeeded result a h = λ _. (h, refl)
answered-IsUsable now ttl queued result a h = λ e. absurd (cc e)
answered-IsUsable now ttl running result a h = λ e. absurd (cc e)
answered-IsUsable now ttl failed result a h = λ e. absurd (cc e)

save_analysis-AllUsable :
    (a : HeatAnalysis) (s : Session)
    → IsUsable a
    → AllUsable s.tables
    → AllUsable (save_analysis a s).tables
unfolding save_analysis
save_analysis-AllUsable a s ha h = save-All IsUsable (λ r. r.id) a s.tables.heat_analyses ha h

module _ (p : Platform) (max_attempts ttl now : ℕ) where
  analyses-audited :
      (changed : Bool) (event : String) (metadata : Fields) (a : HeatAnalysis) (s : Session)
      → (audited p max_attempts ttl now changed event metadata a s).tables.heat_analyses
        ≡ s.tables.heat_analyses
  unfolding audited record_audit_event
  analyses-audited true event metadata a s = refl
  analyses-audited false event metadata a s = refl

  retry_or_fail-AllUsable :
      (retry : Bool) (a : HeatAnalysis) (code message : String)
      (activity : Option FortyGuardActivity) (s : Session)
      → AllUsable s.tables
      → AllUsable (retry_or_fail p max_attempts ttl now retry a code message activity s).1.tables
  retry_or_fail-AllUsable true a code message activity s h =
      save_analysis-AllUsable (running_with code message a) _ (λ e. absurd (cc e))
        (rw (analyses-save_if_there _ activity s) h)
  retry_or_fail-AllUsable false a code message activity s h =
      rw (analyses-audited _ _ _ (failed_with code message a) _)
        (save_analysis-AllUsable (failed_with code message a) s (λ e. absurd (cc e)) h)

  read_activity-AllUsable :
      (a : HeatAnalysis) (c : Option ProviderCircuit) (s : Session)
      (r : Result (Fields × HeatAnalysisStatus × Option Fields))
      → Gives (λ (x : Fields × HeatAnalysisStatus × Option Fields). HasResult (x.1, x.2)) r
      → AllUsable s.tables
      → AllUsable (read_activity p max_attempts ttl now a c s r).1.tables
  unfolding on_answer on_error
  read_activity-AllUsable a c s (ok (raw, status, result)) g h =
      let a' = answered now ttl status result a in
      rw (analyses-audited _ _ _ a' _, analyses-close_circuit c, analyses-save_if_there)
        (save_analysis-AllUsable a' s (answered-IsUsable now ttl status result a g) h)
  read_activity-AllUsable a c s (err (forty_guard_error code message retryable)) g h =
      retry_or_fail-AllUsable _ a code message _ (trip_circuit now c s)
        (rw (analyses-trip_circuit now c s) h)
  read_activity-AllUsable a c s (err e) g h = h

  with_raw :
      (raw : Fields) (r : Result (HeatAnalysisStatus × Option Fields))
      → Gives HasResult r
      → Gives
          (λ (x : Fields × HeatAnalysisStatus × Option Fields). HasResult (x.1, x.2))
          (r >>= λ x. ok (raw, x.0, x.1))
  with_raw raw (ok (status, result)) h = h
  with_raw raw (err e) h = tt

  normalized-HasResult :
      (answer : Result Fields)
      → Gives
          (λ (x : Fields × HeatAnalysisStatus × Option Fields). HasResult (x.1, x.2))
          (normalized p max_attempts ttl now answer)
  normalized-HasResult (ok raw) =
      with_raw raw (normalize_activity p raw) (normalize_activity-HasResult p raw)
  normalized-HasResult (err e) = tt

  unless_blocked-AllUsable :
      (blocked : Bool) (a : HeatAnalysis) (answer : Result Fields) (s : Session)
      → AllUsable s.tables
      → AllUsable (poll_unless_blocked p max_attempts ttl now blocked a answer s).1.tables
  unless_blocked-AllUsable true a answer s h = h
  unless_blocked-AllUsable false a answer s h =
      read_activity-AllUsable a (fortyguard_circuit s) s _ (normalized-HasResult answer) h

  -- If every succeeded analysis has a result and a time from which it is stale, that is so after a poll,
  -- whatever it meets and is answered.
  pub poll-AllUsable :
      (a : HeatAnalysis) (answer : Result Fields) (s : Session)
      → AllUsable s.tables
      → AllUsable (poll p max_attempts ttl now a answer s).1.tables
  unfolding poll
  poll-AllUsable a answer s h = elim (Option-cases (present a.provider_activity_id)) [
    | inl none_ ↦ rw (none_, poll) h
    | inr (id, e) ↦
        rw (e, poll) (unless_blocked-AllUsable (blocks now (fortyguard_circuit s)) a answer s h)
  ]

analyses-schedule :
    (a : HeatAnalysis) (activity_id : String) (now : ℕ) (o : Option FortyGuardActivity)
    (s : Session)
    → (schedule a activity_id now o s).tables.heat_analyses ≡ s.tables.heat_analyses
unfolding save_activity
analyses-schedule a activity_id now none s = refl
analyses-schedule a activity_id now (some activity) s = refl

submitted-AllUsable :
    (now project_id zone_id : ℕ) (payload : Fields) (usable : Bool) (a : HeatAnalysis) (s : Session)
    (r : Result String)
    → IsUsable a
    → AllUsable s.tables
    → AllUsable (submitted now project_id zone_id payload usable a s r).1.tables
unfolding submitted
submitted-AllUsable now project_id zone_id payload usable a s (ok activity_id) ha h =
    let a' = sent project_id zone_id payload activity_id a in
    rw (analyses-schedule a' activity_id now) (save_analysis-AllUsable a' s (λ e. absurd (cc e)) h)
submitted-AllUsable now project_id zone_id payload true a s (err (forty_guard_error c m r)) ha h =
    save_analysis-AllUsable (record a { error_code = some c; error_message = some m }) s ha h
submitted-AllUsable now project_id zone_id payload false a s (err (forty_guard_error c m r)) ha h =
    save_analysis-AllUsable (failed_with c m a) s (λ e. absurd (cc e)) h
submitted-AllUsable now project_id zone_id payload usable a s (err e) ha h = h

module _ (digest : Fields → String) (create : Fields → Result String) (id now : ℕ) where
  submit_existing-AllUsable :
      (organization_id project_id zone_id : ℕ) (payload : Fields) (key : String)
      (o : Option HeatAnalysis) (s : Session)
      → ((a : HeatAnalysis) → o ≡ some a → IsUsable a)
      → AllUsable s.tables
      → AllUsable
          (submit_existing digest create id now organization_id project_id zone_id payload key o
            s).1.tables
  submit_existing-AllUsable organization_id project_id zone_id payload key none s ho h =
      let a = new_analysis id now organization_id project_id zone_id key payload in
      submitted-AllUsable now project_id zone_id payload false a _ (create payload)
        (λ e. absurd (cc e))
        (All-append IsUsable s.tables.heat_analyses _ h ((λ e. absurd (cc e)), tt))
  submit_existing-AllUsable organization_id project_id zone_id payload key (some a) s ho h =
      elim (Bool-cases (is_fresh now a.expires_at)) [
        | inl fresh ↦ rw fresh h
        | inr stale ↦ rw stale (
            submitted-AllUsable now project_id zone_id payload (is_some a.result) a s
              (create payload) (ho a refl) h)
      ]

  -- If every succeeded analysis has a result and a time from which it is stale, that is so after a
  -- submission, whether it is answered from the tables, sent, or refused.
  pub submit-AllUsable :
      (organization_id project_id zone_id : ℕ) (payload : Fields) (s : Session)
      → AllUsable s.tables
      → AllUsable
          (submit digest create id now organization_id project_id zone_id payload s).1.tables
  unfolding submit
  submit-AllUsable organization_id project_id zone_id payload s h =
      submit_existing-AllUsable organization_id project_id zone_id payload _ _ s
        (λ a e. scalar_stored IsUsable _ _ (All-descending IsUsable _ s.tables.heat_analyses h) e) h
