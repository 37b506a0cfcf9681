-- ===== src/Heat/Poll.antt =====
-- app/services/heat.py: `HeatService.poll`, its retries and the provider's circuit.
pub mod Usable
pub mod Cooldown
pub mod Circuit
use coolproof.Base.{
  ℕ, ◌+◌, ◌*◌, ◌^◌, min, ltb, leb, ◌==◌, String, str_eq, ◌<>◌, Bool, true, false, ◌&&◌, ◌||◌, not,
  Option, none, some, is_some, List, [], ◌∷◌, ◌++◌, if◌then◌else◌,
}
use coolproof.Json.{str, Fields, dict}
use coolproof.Platform.{Platform}
use coolproof.Failure.{Failure, Result, ok, err, forty_guard_error, ◌>>=◌}
use coolproof.Audit.{record_audit_event}
use coolproof.Auth.Claims.{present}
use coolproof.Db.Models.{
  HeatAnalysis, HeatAnalysisStatus, queued, running, succeeded, failed, heat_status_value,
  FortyGuardActivity, ProviderCircuit,
}
use coolproof.Db.Query.{scalar, save}
use coolproof.Db.Session.{Session, Tables, commit}
use coolproof.Heat.Activity.{normalize_activity}
use coolproof.Heat.Service.{
  second, is_terminal, status_eq, with_circuits, save_analysis, save_activity, activity_of,
  failed_with,
}

abbrev pub fortyguard_circuit : Session → Option ProviderCircuit
fortyguard_circuit s = scalar (λ c. str_eq c.provider "fortyguard") s.tables.circuits

abbrev pub is_after : ℕ → Option ℕ → Bool
is_after now none = false
is_after now (some time) = ltb now time

-- `circuit and circuit.is_open and circuit.open_until and circuit.open_until > now`
abbrev pub blocks : ℕ → Option ProviderCircuit → Bool
blocks now none = false
blocks now (some c) = c.is_open && is_after now c.open_until

abbrev pub closed_circuit : ProviderCircuit → ProviderCircuit
closed_circuit c = record c { consecutive_failures = 0; is_open = false; open_until = none }

abbrev pub new_circuit : ProviderCircuit
new_circuit = record {
  provider = "fortyguard";
  consecutive_failures = 0;
  open_until = none;
  is_open = false;
}

-- `consecutive_failures` is counted up, and the third failure in a row opens the circuit.
unfoldable pub tripped_circuit : ℕ → ProviderCircuit → ProviderCircuit
tripped_circuit now c =
    let count = c.consecutive_failures + 1 in
    record c {
      consecutive_failures = count;
      is_open = leb 3 count;
      open_until = if leb 3 count then some (now + 30 * second) else none;
    }

unfoldable pub save_named : ProviderCircuit → List ProviderCircuit → List ProviderCircuit
save_named c [] = []
save_named c (x ∷ xs) = (if str_eq x.provider c.provider then c else x) ∷ save_named c xs

-- `if circuit:` on the answered branch, and the circuit that the other one adds or counts up.
abbrev pub close_circuit : Option ProviderCircuit → Session → Session
close_circuit none s = s
close_circuit (some c) s = with_circuits (save_named (closed_circuit c)) s

abbrev pub trip_circuit : ℕ → Option ProviderCircuit → Session → Session
trip_circuit now none s = with_circuits (λ rows. rows ++ (tripped_circuit now new_circuit ∷ [])) s
trip_circuit now (some c) s = with_circuits (save_named (tripped_circuit now c)) s

-- An answer: its status and result, with the time from which a success is stale.
abbrev pub answered : ℕ → ℕ → HeatAnalysisStatus → Option Fields → HeatAnalysis → HeatAnalysis
answered now ttl succeeded result a = record a {
  status = succeeded;
  result = result;
  source_updated_at = some now;
  expires_at = some (now + ttl * second);
}
answered now ttl status result a = record a { status = status; result = result }

abbrev pub polled_activity :
    ℕ → HeatAnalysisStatus → Fields → FortyGuardActivity → FortyGuardActivity
polled_activity now status raw activity =
    let count = activity.attempts + 1 in
    record activity {
      status = heat_status_value status;
      last_payload = some raw;
      attempts = count;
      next_poll_at =
          if is_terminal status then none else some (now + min 60 (2 ^ min count 5) * second);
    }

abbrev pub save_if_there :
    (FortyGuardActivity → FortyGuardActivity) → Option FortyGuardActivity → Session → Session
save_if_there f none s = s
save_if_there f (some activity) s = save_activity (f activity) s

abbrev pub can_retry : ℕ → Bool → Option FortyGuardActivity → Bool
can_retry max_attempts retryable none = false
can_retry max_attempts retryable (some activity) =
    ltb (activity.attempts + 1) max_attempts && retryable

abbrev pub retrying : ℕ → FortyGuardActivity → FortyGuardActivity
retrying now activity =
    let count = activity.attempts + 1 in
    record activity {
      attempts = count;
      status = "retrying";
      next_poll_at = some (now + min 60 (2 ^ count) * second);
    }

abbrev pub running_with : String → String → HeatAnalysis → HeatAnalysis
running_with code message a = record a {
  status = running;
  error_code = some code;
  error_message = some message;
}

abbrev pub or_empty : Option String → String
or_empty none = ""
or_empty (some s) = s

abbrev pub Polled : Type 0
Polled = Result HeatAnalysis × Session

module _ (p : Platform) (max_attempts ttl now : ℕ) where
  unfoldable pub audited : Bool → String → Fields → HeatAnalysis → Session → Session
  unfolding record_audit_event
  audited changed event metadata a s =
      if changed
      then record_audit_event p now a.organization_id none ("heat_analysis." <> event)
          "heat_analysis" a.id metadata s
      else s

  -- The rest of the `try` block, after an activity was read.
  unfoldable pub on_answer :
      HeatAnalysis
      → Option ProviderCircuit
      → Fields
      → HeatAnalysisStatus
      → Option Fields
      → Session
      → HeatAnalysis × Session
  unfolding save_analysis save_activity activity_of save_named audited
  on_answer a circuit raw status result s =
      let a' = answered now ttl status result a in
      let s1 = save_analysis a' s in
      let s2 = save_if_there (polled_activity now status raw) (activity_of a' s1) s1 in
      let s3 = close_circuit circuit s2 in
      (
        a',
        commit (
            audited (is_terminal status && not (status_eq status a.status))
              (heat_status_value status)
              (dict (
                ("provider", str "fortyguard")
                ∷ ("provider_activity_id", str (or_empty a.provider_activity_id))
                ∷ []))
              a' s3),
      )

  -- The second half of the `except FortyGuardError` clause: another try, or the end.
  abbrev pub retry_or_fail :
      Bool
      → HeatAnalysis
      → String
      → String
      → Option FortyGuardActivity
      → Session
      → HeatAnalysis × Session
  retry_or_fail true a code message activity s =
      let a' = running_with code message a in
      (a', commit (save_analysis a' (save_if_there (retrying now) activity s)))
  retry_or_fail false a code message activity s =
      let a' = failed_with code message a in
      (
        a',
        commit (
            audited (not (status_eq a.status failed)) "failed"
              (dict (("provider", str "fortyguard") ∷ ("error_code", str code) ∷ [])) a'
              (save_analysis a' s)),
      )

  -- The `except FortyGuardError` clause.
  unfoldable pub on_error :
      HeatAnalysis
      → Option ProviderCircuit
      → String
      → String
      → Bool
      → Session
      → HeatAnalysis × Session
  unfolding save_analysis save_activity activity_of save_named tripped_circuit audited
  on_error a circuit code message retryable s =
      let s1 = trip_circuit now circuit s in
      let activity = activity_of a s1 in
      retry_or_fail (can_retry max_attempts retryable activity) a code message activity s1

  abbrev pub done : HeatAnalysis × Session → Polled
  done (a, s) = (ok a, s)

  -- An exception that is no FortyGuardError leaves the session as it was.
  abbrev pub read_activity :
      HeatAnalysis
      → Option ProviderCircuit
      → Session
      → Result (Fields × HeatAnalysisStatus × Option Fields)
      → Polled
  read_activity a circuit s (ok (raw, status, result)) =
      done (on_answer a circuit raw status result s)
  read_activity a circuit s (err (forty_guard_error code message retryable)) =
      done (on_error a circuit code message retryable s)
  read_activity a circuit s (err failure) = (err failure, s)

  abbrev pub normalized : Result Fields → Result (Fields × HeatAnalysisStatus × Option Fields)
  normalized answer = answer >>= λ raw. normalize_activity p raw >>= λ r. ok (raw, r.0, r.1)

  abbrev pub poll_unless_blocked : Bool → HeatAnalysis → Result Fields → Session → Polled
  poll_unless_blocked true a answer s = (ok a, s)
  poll_unless_blocked false a answer s =
      read_activity a (fortyguard_circuit s) s (normalized answer)

  -- `poll(analysis)`; `answer` is what `get_activity` gives if it is called.
  unfoldable pub poll : HeatAnalysis → Result Fields → Session → Polled
  unfolding scalar normalize_activity on_answer on_error
  poll a answer s = elim (present a.provider_activity_id) [
    | none ↦ (ok a, s)
    | some activity_id ↦ poll_unless_blocked (blocks now (fortyguard_circuit s)) a answer s
  ]
