-- ===== src/Tests/Http.antt =====
-- The theorems on the middleware at one client of a guard that lets on two requests a minute.
use coolproof.Base.{ℕ, ◌≤◌, ◌≡◌, refl, true, none, some, [], ◌∷◌, arith}
use coolproof.Json.{str, dict}
use coolproof.Failure.{Result, err, http_exception, request_validation_error}
use coolproof.Http.{Request, Response, Limits, Hits, no_hits, verdict}
use coolproof.Http.Window.{Log, Reach, here, next, count_in, times_of, guard_bounds_every_minute}
use coolproof.Http.Errors.{application}
use coolproof.Http.Traced.{error_id}
use coolproof.Tests.Data.{plain}

abbrev two_a_minute : Limits
two_a_minute = record { max_bytes = 1000; per_minute = 2; platform = plain; is_digit = λ s. true }

abbrev visit : Request
visit = record {
  x_request_id = some "trace/1";
  content_length = none;
  client_host = some "10.0.0.1";
  request_id = none;
}

abbrev after : ℕ → Hits → Hits
after now hits = (verdict two_a_minute now "uuid" visit hits).1

abbrev three_hits : Hits
three_hits = after 59000 (after 2000 (after 1000 no_hits))

-- The third visit of the minute is not let on.
abbrev two_visits : Log
two_visits = ("10.0.0.1", 2000) ∷ ("10.0.0.1", 1000) ∷ []

visits : Reach two_a_minute 59000 three_hits two_visits
unfolding verdict
visits =
    let first = next here 1000 "uuid" visit (omega arith) in
    let second = next first 2000 "uuid" visit (omega arith) in
    next second 59000 "uuid" visit (omega arith)

guard_bounds_every_minute_example : count_in 500 (times_of "10.0.0.1" two_visits) ≤ 2
guard_bounds_every_minute_example = guard_bounds_every_minute two_a_minute visits "10.0.0.1" 500

-- An endpoint that finds nothing.
abbrev finds_nothing : Request → Result Response
finds_nothing request = err (http_exception 404 "Run not found")

abbrev served : Response
served = (application two_a_minute 61000 "uuid" "spare" finds_nothing visit three_hits).0

served_status : (served.status_code ≡ 404) × (error_id served ≡ some (str "uuid"))
unfolding application coolproof.Json.get
served_status = (refl, refl)

-- Input that validation rejects: the answer has the issue without the input.
abbrev rejects_input : Request → Result Response
rejects_input request = err (
    request_validation_error (
      dict (
        ("type", str "missing")
        ∷ ("loc", str "body")
        ∷ ("msg", str "Required")
        ∷ ("input", str "x")
        ∷ [])
      ∷ []))

rejected_status :
    (application two_a_minute 61000 "uuid" "spare" rejects_input visit three_hits).0.status_code
    ≡ 422
unfolding application
rejected_status = refl
