-- ===== src/Heat/Client.antt =====
-- app/integrations/fortyguard/client.py: the request loop with its retries and its circuit.
pub mod Retries
use coolproof.Base.{
  ℕ, suc, zero, ◌+◌, ◌*◌, ◌^◌, min, ltb, leb, ◌==◌, String, str_eq, ◌<>◌, Bool, true, false, ◌||◌,
  not, Option, none, some, List, [], ◌∷◌, if◌then◌else◌,
}
use coolproof.Json.{Value, str, obj, Fields, get, dict_or_empty, or_value}
use coolproof.Platform.{Platform}
use coolproof.Failure.{Result, ok, err, Failure, forty_guard_error, value_error, assertion_error}
use coolproof.Auth.Claims.{present}
use coolproof.Heat.Request.{heatmap_payload}

-- Times of the event loop are milliseconds.
pub record Client : Type 0 where
  pub base_url : Option String
  pub api_key : Option String
  pub max_attempts : ℕ
  pub failures : ℕ
  pub open_until : ℕ

-- What one HTTP exchange gives: a status with the JSON body, `none` where it does not parse, or an
-- `httpx.HTTPError`.
pub data Answer : Type 0 where
  responded : ℕ → Option Value → Answer
  http_error : Answer

-- One round of the loop: a payload, an exception that the `except` clause catches, with its
-- retryability, or one that escapes it.
pub data Attempt : Type 0 where
  gave : Fields → Attempt
  caught : Failure → Bool → Attempt
  escaped : Failure → Attempt

abbrev pub body_of : Option Value → Attempt
body_of none = escaped (value_error "JSONDecodeError")
body_of (some (obj payload)) = gave payload
body_of (some _) =
    caught
      (forty_guard_error "fortyguard_invalid_response" "FortyGuard returned an invalid response"
        false)
      false

unfoldable pub attempt : Answer → Attempt
attempt http_error =
    caught (forty_guard_error "fortyguard_unavailable" "FortyGuard is unavailable" true) true
attempt (responded status body) =
    if status == 429 || leb 500 status
    then caught
        (forty_guard_error
          (if status == 429 then "fortyguard_rate_limited" else "fortyguard_unavailable")
          "FortyGuard temporarily failed" true)
        true
    else if leb 400 status
    then caught
        (forty_guard_error "fortyguard_request_rejected" "FortyGuard rejected the request" false)
        false
    else body_of body

-- `_ready()` at a time: the error that it raises.
unfoldable pub ready : Client → ℕ → Option Failure
ready c time = elim (present c.base_url) [
  | none ↦ some (forty_guard_error "fortyguard_not_configured" "FortyGuard is not configured" false)
  | some url ↦ elim (present c.api_key) [
    | none ↦
        some (forty_guard_error "fortyguard_not_configured" "FortyGuard is not configured" false)
    | some key ↦
        if ltb time c.open_until
        then some (
            forty_guard_error "fortyguard_circuit_open" "FortyGuard is temporarily unavailable"
              true)
        else none
  ]
]

-- `min(8.0, 0.5 * 2**attempt)`; the jitter is added to it.
abbrev pub backoff : ℕ → ℕ
backoff n = min 8000 (500 * 2 ^ n)

abbrev pub succeeded_client : Client → Client
succeeded_client c = record c { failures = 0 }

-- A request that is given up: after the third in a row the circuit opens for thirty seconds.
unfoldable pub failed_client : ℕ → Client → Client
failed_client time c =
    let count = c.failures + 1 in
    record c { failures = count; open_until = if leb 3 count then time + 30000 else c.open_until }

-- What a request leaves: its result, the client, and the delays that it slept.
pub record Exchange : Type 0 where
  pub result : Result Fields
  pub client : Client
  pub sleeps : List ℕ

abbrev pub slept : ℕ → Exchange → Exchange
slept delay e = record e { sleeps = delay ∷ e.sleeps }

-- `answers n` is what the n-th exchange of the request gives, and `clock n` the time when it ended.
module _ (answers : ℕ → Answer) (clock : ℕ → ℕ) where
  abbrev pub after_attempt : ℕ → Client → Attempt → Exchange → Exchange
  after_attempt n c (gave payload) rest = record {
    result = ok payload;
    client = succeeded_client c;
    sleeps = [];
  }
  after_attempt n c (escaped failure) rest = record {
    result = err failure;
    client = c;
    sleeps = [];
  }
  after_attempt n c (caught failure retryable) rest =
      if not retryable || leb c.max_attempts (n + 1)
      then record { result = err failure; client = failed_client (clock n) c; sleeps = [] }
      else slept (backoff n) rest

  -- The rounds from the n-th on, where `left` of `range(max_attempts)` are left.
  unfoldable pub attempts : ℕ → ℕ → Client → Exchange
  unfolding attempt failed_client
  attempts n zero c = record { result = err assertion_error; client = c; sleeps = [] }
  attempts n (suc left) c =
      let rest = attempts (n + 1) left c in after_attempt n c (attempt (answers n)) rest

  abbrev pub unless_raised : Option Failure → Client → Exchange
  unless_raised (some failure) c = record { result = err failure; client = c; sleeps = [] }
  unless_raised none c = attempts 0 c.max_attempts c

  -- `_request(...)`, begun at `time`.
  unfoldable pub request : ℕ → Client → Exchange
  unfolding ready attempts
  request time c = unless_raised (ready c time) c

  -- `get_activity(activity_id)`
  unfoldable pub get_activity : ℕ → Client → Exchange
  unfolding request
  get_activity time c = request time c

  abbrev pub activity_id_of : Option Value → Result String
  activity_id_of (some (str s)) = elim (present (some s)) [
    | some t ↦ ok t
    | none ↦ err (
        forty_guard_error "fortyguard_invalid_response"
          "FortyGuard response omitted activity identifier" false)
  ]
  activity_id_of _ = err (
      forty_guard_error "fortyguard_invalid_response"
        "FortyGuard response omitted activity identifier" false)

  abbrev pub created : Result Fields → Result String
  created (err failure) = err failure
  created (ok response) = activity_id_of (
      or_value (get "activity_id" (dict_or_empty (get "data" response)))
        (or_value (get "activity_id" response) (get "id" response)))

  abbrev pub posted : ℕ → Client → Result Fields → Result String × Client
  posted time c (err failure) = (err failure, c)
  posted time c (ok body) = let e = request time c in (created e.result, e.client)

  -- `create_analysis(payload)`: the body is built first, then it is sent.
  unfoldable pub create_analysis :
      Platform → String × String → ℕ → Fields → Client → Result String × Client
  unfolding request heatmap_payload get
  create_analysis p now time payload c = posted time c (heatmap_payload p now payload)
