-- ===== src/Tests/Verification.antt =====
-- The theorems on verifications at one request of one tenant.
use coolproof.Base.{◌≡◌, ◌<>◌, refl, none, some, pos}
use coolproof.Json.{Fields, end, get, float, str}
use coolproof.Failure.{ok, err, Result}
use coolproof.Db.Session.{Session, open_session}
use coolproof.Verification.{VerificationInput, result_of}
use coolproof.Verification.Reports.{ReportSettings, Storage, report_key}
use coolproof.Verification.Api.{VerificationRequest, Services, create_verification}
use coolproof.Verification.ReportApi.{create_report}
use coolproof.Verification.Again.{Agrees, create_verification_again}
use coolproof.Verification.Exposure.{SessionKeyed, here, next, creates, reports, Reach-SessionKeyed}
use coolproof.Tests.Data.{plain, unary, boss, staffed}
use coolproof.Tests.Solver.{whole}

-- The treated zone warmed by one degree and its control by three.
abbrev measured : VerificationInput
measured = record {
  treated_baseline = 30;
  treated_observed = 31;
  control_baseline = 30;
  control_observed = 33;
  treated_weather_delta = 0;
  control_weather_delta = 0;
  expected_cooling = 1;
  treated_threshold_hours_baseline = 0;
  treated_threshold_hours_observed = 0;
  control_threshold_hours_baseline = 0;
  control_threshold_hours_observed = 0;
  total_cost = 100;
  sample_size = pos 1;
}

measured_cooling : get "cooling_effect" (result_of whole measured) ≡ some (float 2)
unfolding result_of get
measured_cooling = refl

abbrev ask : VerificationRequest
ask = record { project_id = none; portfolio_run_id = none; measurements = measured }

abbrev bucket : ReportSettings
bucket = record { reports_bucket = some "reports"; documents_bucket = none }

abbrev disk : Storage
disk = record {
  put_object = λ b k body. ok tt;
  presign = λ now b k seconds. ok ("https://reports/" <> unary now);
}

abbrev services : Services
services = record {
  floats = whole;
  platform = plain;
  storage = disk;
  settings = bucket;
  digest = λ d. "digest";
}

abbrev office : Session
office = open_session staffed

-- The run's response, with its report.
abbrev verified_out : Result Fields
verified_out = (create_verification services 8 20 boss ask office).0

abbrev verified_session : Session
verified_session = (create_verification services 8 20 boss ask office).1

abbrev answer : Result Fields → Fields
answer (ok out) = out
answer (err failure) = end

create_verification_again_example :
    (later : Result Fields) × (create_verification services 9 30 boss ask verified_session
      ≡ (later, verified_session))
    × Agrees services 30 (answer verified_out) later
unfolding create_verification
create_verification_again_example =
    create_verification_again services boss ask 8 20 9 30 office (answer verified_out)
      verified_session tt refl

-- The report lies below the organization.
report_key_shown :
    get "report_key" (answer verified_out)
    ≡ some (str "organizations/i/verification-reports/iiiiiiii.json")
unfolding create_verification get report_key
report_key_shown = refl

Reach-SessionKeyed_example :
    SessionKeyed plain (create_report services 40 8 boss verified_session).1
Reach-SessionKeyed_example =
    Reach-SessionKeyed services (next (next here (creates 8 20 boss ask)) (reports 40 8 boss))
      (let none_yet : SessionKeyed plain office = (tt, tt) in none_yet)
