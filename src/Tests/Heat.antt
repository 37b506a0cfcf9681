-- ===== src/Tests/Heat.antt =====
-- The theorems on heat analyses at concrete requests, answers and rows.
use coolproof.Base.{
  ◌==◌, ℕ, zero, suc, ◌+◌, ◌*◌, ◌<◌, String, ◌≡◌, refl, true, false, none, some, List, length, [],
  ◌∷◌, ◌++◌, map, arith, text_in,
}
use coolproof.Json.{str, obj, Fields, end, dict, get}
use coolproof.Failure.{Result, ok, err, forty_guard_error}
use coolproof.Db.Models.{HeatAnalysis, succeeded, FortyGuardActivity, ProviderCircuit}
use coolproof.Db.Query.{scalar, descending}
use coolproof.Db.Session.{Session, no_tables, open_session}
use coolproof.Heat.Request.{analysis_idempotency_key}
use coolproof.Heat.Client.{
  Client, Answer, responded, http_error, attempt, gave, ready, request, failed_client,
}
use coolproof.Heat.Client.Retries.{
  IsTransient, HasRecovered, HasGivenUp, request_recovers, request_gives_up, failed_client_blocks,
}
use coolproof.Heat.Service.{second, submit, existing_analysis, new_analysis}
use coolproof.Heat.Service.Expiry.{
  IsOnlyRow, IsRowOf, NotExpired, Expired, IsCached, IsResent, submit_until_expiry,
}
use coolproof.Heat.Poll.{poll, on_error, fortyguard_circuit}
use coolproof.Heat.Poll.Circuit.{AllConsistent, poll-AllConsistent}
use coolproof.Heat.Poll.Cooldown.{on_error_blocks}
use coolproof.Heat.Poll.Usable.{AllUsable}
use coolproof.Heat.Steps.{HeatReach, here, submits, polls, HeatReach-AllUsable}
use coolproof.Heat.Worker.{due_activities, recover_due_heat_activities, poll_queued_heat_analysis}
use coolproof.Heat.Worker.Recovery.{AreTaken, drain, drain-recover_due_heat_activities}
use coolproof.Heat.Worker.Requeue.{NotLost, poll_queued_heat_analysis-NotLost}
use coolproof.Tests.Data.{plain, plain-IsFaithful}

abbrev configured : Client
configured = record {
  base_url = some "https://fortyguard";
  api_key = some "k";
  max_attempts = 3;
  failures = 2;
  open_until = 0;
}

abbrev completed : Fields
completed = dict (("status", str "completed") ∷ ("result", obj end) ∷ [])

-- Two failures, then an answer.
abbrev flaky : ℕ → Answer
flaky zero = http_error
flaky (suc zero) = responded 503 none
flaky (suc (suc n)) = responded 200 (some (obj completed))

abbrev down : ℕ → Answer
down _ = http_error

abbrev ticking : ℕ → ℕ
ticking n = n

configured-ready : ready configured 5 ≡ none
unfolding ready
configured-ready = refl

flaky-IsTransient : (j : ℕ) → j < 2 → IsTransient (flaky j)
unfolding attempt
flaky-IsTransient zero h = (_, refl)
flaky-IsTransient (suc zero) h = (_, refl)
flaky-IsTransient (suc (suc j)) h = absurd (omega (arith, h))

flaky_gives : attempt (flaky 2) ≡ gave completed
unfolding attempt
flaky_gives = refl

request_recovers_example : HasRecovered configured completed 2 (request flaky ticking 5 configured)
request_recovers_example =
    request_recovers flaky ticking 5 2 configured completed configured-ready (omega arith)
      flaky-IsTransient flaky_gives

down-IsTransient : (j : ℕ) → j < 3 → IsTransient (down j)
unfolding attempt
down-IsTransient j h = (_, refl)

request_gives_up_example : HasGivenUp configured 2 2 (request down ticking 5 configured)
request_gives_up_example =
    request_gives_up down ticking 5 2 configured configured-ready refl down-IsTransient

failed_client_blocks_example : request flaky ticking 6 (failed_client 5 configured) ≡ record {
  result =
      err
        (forty_guard_error "fortyguard_circuit_open" "FortyGuard is temporarily unavailable" true);
  client = failed_client 5 configured;
  sleeps = [];
}
failed_client_blocks_example =
    failed_client_blocks flaky ticking 5 6 configured configured-ready (omega arith) (omega arith)

abbrev analysis : HeatAnalysis
analysis = record (new_analysis 4 0 1 2 3 "key" end) { provider_activity_id = some "act" }

abbrev activity : FortyGuardActivity
activity = record {
  analysis_id = 4;
  provider_activity_id = "act";
  status = "queued";
  attempts = 0;
  next_poll_at = some 10;
  last_payload = none;
}

abbrev circuit : ProviderCircuit
circuit = record {
  provider = "fortyguard";
  consecutive_failures = 2;
  open_until = none;
  is_open = false;
}

abbrev polling : Session
polling = open_session (record no_tables {
  heat_analyses = analysis ∷ [];
  activities = activity ∷ [];
  circuits = circuit ∷ [];
})

abbrev overload : Result Fields
overload = err (forty_guard_error "fortyguard_unavailable" "FortyGuard temporarily failed" true)

circuits-consistent : AllConsistent polling.tables
circuits-consistent = (record { open_from_three = refl; ends_if_open = refl }, tt)

poll-AllConsistent_example :
    AllConsistent (poll plain 5 86400 20 analysis overload polling).1.tables
poll-AllConsistent_example =
    poll-AllConsistent plain 5 86400 20 analysis overload polling circuits-consistent

found : fortyguard_circuit polling ≡ some circuit
unfolding scalar
found = refl

on_error_blocks_example :
    poll plain 5 86400 21 analysis
      (ok completed)
      (on_error plain 5 86400 20 analysis (some circuit) "down" "Down" true polling).1
    ≡ (
      ok analysis,
      (on_error plain 5 86400 20 analysis (some circuit) "down" "Down" true polling).1,
    )
on_error_blocks_example =
    on_error_blocks plain 5 86400 20 21 analysis analysis circuit "down" "Down" true polling
      (ok completed) found (omega arith) (omega arith)

nothing_succeeded : AllUsable polling.tables
nothing_succeeded = ((λ e. absurd (cc e)), tt)

-- The poll that was answered has succeeded, with its result.
succeeded_now :
    (poll plain 5 86400 20 analysis (ok completed) polling).0
    ≡ ok (record analysis {
      status = succeeded;
      result = some end;
      source_updated_at = some 20;
      expires_at = some (20 + 86400 * second);
    })
unfolding poll text_in get
succeeded_now = refl

abbrev constant_digest : Fields → String
constant_digest d = "key2"

abbrev accepting : Fields → Result String
accepting d = ok "act2"

abbrev refusing : Fields → Result String
refusing d = err (forty_guard_error "fortyguard_unavailable" "FortyGuard temporarily failed" true)

no_earlier :
    existing_analysis constant_digest accepting 8 30 1
      (analysis_idempotency_key constant_digest 3 end)
      polling
    ≡ none
unfolding scalar descending analysis_idempotency_key
no_earlier = refl

same_key :
    analysis_idempotency_key constant_digest 7 end ≡ analysis_idempotency_key constant_digest 3 end
unfolding analysis_idempotency_key
same_key = refl

-- The row of the query, sent at 30, and the same row with a result that is stale from 90 on.
abbrev stored_query : HeatAnalysis
stored_query =
    record (new_analysis 8 30 1 2 3 (analysis_idempotency_key constant_digest 3 end) end) {
      provider_activity_id = some "act2";
    }

abbrev expiring_query : HeatAnalysis
expiring_query = record stored_query { status = succeeded; result = some end; expires_at = some 90 }

abbrev later_session : Session
later_session =
    open_session (record no_tables { heat_analyses = analysis ∷ expiring_query ∷ analysis ∷ [] })

is_only :
    IsOnlyRow 8 1
      (analysis_idempotency_key constant_digest 3 end)
      (analysis ∷ [])
      expiring_query
      (analysis ∷ [])
      later_session
unfolding analysis_idempotency_key
is_only = record {
  rows = refl;
  row = record { same_id = refl; same_organization = refl; same_key = refl };
  ids_before = (refl, tt);
  ids_after = (refl, tt);
  queries_before = (refl, tt);
  queries_after = (refl, tt);
}

-- At 99 it has expired, and the provider accepts it again.
submit_until_expiry_example :
    ((a : HeatAnalysis) × (s' : Session) × (submit constant_digest accepting 8 30 1 2 3 end polling
        ≡ (ok (a, false), s'))
      × (s'.tables.heat_analyses ≡ (analysis ∷ []) ++ (a ∷ []))
      × IsRowOf 8 1 (analysis_idempotency_key constant_digest 3 end) a
      × (a.expires_at ≡ none)
      × (s'.durable ≡ s'.tables))
    × (NotExpired 99 expiring_query.expires_at
        → IsCached constant_digest accepting 9 99 1 6 7 end later_session expiring_query)
    × ((later_activity : String)
        → Expired 99 expiring_query.expires_at
        → accepting end ≡ ok later_activity
        → IsResent constant_digest accepting 9 99 1 6 7 end later_session 8
            (analysis ∷ [])
            (analysis ∷ [])
            later_activity)
submit_until_expiry_example =
    submit_until_expiry constant_digest accepting accepting 8 30 9 99 1 2 3 6 7 end end polling
      "act2" (analysis ∷ []) expiring_query (analysis ∷ []) later_session no_earlier refl (refl, tt)
      is_only same_key

drain-recover_due_heat_activities_example :
    (taken left : List FortyGuardActivity) × AreTaken polling.tables 20 100 taken left
    × (drain plain (length taken) (recover_due_heat_activities plain polling.tables 20 100 [])
        ≡ (map (λ a. ok (some a.analysis_id)) taken, []))
drain-recover_due_heat_activities_example =
    drain-recover_due_heat_activities plain polling.tables 20 100 plain-IsFaithful

-- The waiting analysis is the one that the scan finds.
one_due : map (λ a. a.analysis_id) (due_activities polling.tables 20 100) ≡ 4 ∷ []
unfolding due_activities
one_due = refl

analysis_stored :
    scalar (λ (r : HeatAnalysis). r.id == 4) polling.tables.heat_analyses ≡ some analysis
unfolding scalar
analysis_stored = refl

activity_stored :
    scalar (λ (r : FortyGuardActivity). r.analysis_id == 4) polling.tables.activities
    ≡ some activity
unfolding scalar
activity_stored = refl

poll_queued_heat_analysis-NotLost_example :
    NotLost plain 4
      ("other" ∷ [])
      (poll plain 5 86400 20 analysis overload (open_session polling.tables))
      (poll_queued_heat_analysis plain 5 86400 20 (λ a. overload) 4 polling.tables ("other" ∷ []))
poll_queued_heat_analysis-NotLost_example =
    poll_queued_heat_analysis-NotLost plain 5 86400 20 (λ a. overload) polling.tables ("other" ∷ [])
      analysis activity analysis_stored activity_stored refl

-- The overloaded provider is asked again later.
asked_again :
    (poll_queued_heat_analysis plain 5 86400 20 (λ a. overload) 4 polling.tables ("other" ∷ [])).2
    ≡ "other" ∷ "iiii" ∷ []
unfolding poll_queued_heat_analysis
asked_again = refl

-- A poll that is answered, and then a submission of another query.
abbrev polled : Session
polled = (poll plain 5 86400 20 analysis (ok completed) polling).1

abbrev submitted_then : Session
submitted_then = (submit constant_digest accepting 8 30 1 2 3 end polled).1

both_steps : HeatReach plain constant_digest 5 86400 polling submitted_then
both_steps = submits (polls here 20 analysis (ok completed)) accepting 8 30 1 2 3 end

HeatReach-AllUsable_example : AllUsable submitted_then.tables
HeatReach-AllUsable_example =
    HeatReach-AllUsable plain constant_digest 5 86400 polling nothing_succeeded both_steps
