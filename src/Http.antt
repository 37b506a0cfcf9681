-- ===== src/Http.antt =====
-- app/core/middleware.py: the request's id, and the guard on its size and rate.
pub mod Window
pub mod Errors
pub mod Unhandled
pub mod Traced
use Prim.Native.Char.{code}
use coolproof.Base.{
  ℕ, ◌==◌, ◌-◌, ltb, leb, String, str_eq, take_text, text_length, Bool, true, false, not, ◌&&◌,
  ◌||◌, Option, none, some, List, [], ◌∷◌, ◌++◌, length, if◌then◌else◌, pos, ℤ, negsuc,
}
use coolproof.Json.{Value, str, obj, bool, Fields, end, field, dict}
use coolproof.Platform.{Platform}
use coolproof.Failure.{Result, ok, err, ◌>>=◌, value_error}
use coolproof.Documents.Key.{is_safe}

-- A request, by what the code below reads of it; `request_id` is `request.state.request_id`.
pub record Request : Type 0 where
  pub x_request_id : Option String
  pub content_length : Option String
  pub client_host : Option String
  pub request_id : Option String

-- A JSON response; `x_request_id` is the header that the middleware sets.
pub record Response : Type 0 where
  pub status_code : ℕ
  pub content : Fields
  pub x_request_id : Option String

abbrev pub json_response : ℕ → Fields → Response
json_response status_code content = record {
  status_code = status_code;
  content = content;
  x_request_id = none;
}

abbrev pub or_text : Option String → String → String
or_text none s = s
or_text (some r) s = r

-- `[A-Za-z0-9._:-]`
unfoldable pub is_id_char : ℕ → Bool
unfolding is_safe
is_id_char c = is_safe c || c == b':'

unfoldable pub all_id_chars : String → Bool
unfolding is_id_char
all_id_chars String.[] = true
all_id_chars (String.◌∷◌ c s) = is_id_char (code c) && all_id_chars s

-- `re.fullmatch(r"[A-Za-z0-9._:-]{1,64}", s)`
unfoldable pub is_request_id : String → Bool
unfolding all_id_chars
is_request_id s = all_id_chars s && leb 1 (text_length s) && leb (text_length s) 64

-- The id of a request; `fresh` is `str(uuid4())`.
unfoldable pub chosen_id : String → Option String → String
unfolding is_request_id
chosen_id fresh header =
    let candidate : String = or_text header "" in
    if is_request_id candidate then take_text 64 candidate else fresh

abbrev pub identified : String → Request → Request
identified fresh request = record request {
  request_id = some (chosen_id fresh request.x_request_id);
}

-- `RequestIDMiddleware.dispatch`, over what the next application changes.
unfoldable pub with_request_id :
    {S : Type 0} → String → (Request → Result Response × S) → Request → Result Response × S
unfolding chosen_id
with_request_id fresh call_next request =
    let id : String = chosen_id fresh request.x_request_id in
    let (result, later) = call_next (identified fresh request) in
    (result >>= λ response. ok (record response { x_request_id = some id }), later)

-- The limits of the guard, and Python's `int` and `str.isdigit`. Times are milliseconds.
pub record Limits : Type 0 where
  pub max_bytes : ℕ
  pub per_minute : ℕ
  pub platform : Platform
  pub is_digit : String → Bool

-- `self._hits`: a key that was never read is an empty queue.
abbrev pub Hits : Type 0
Hits = String → List ℕ

abbrev pub no_hits : Hits
no_hits host = []

abbrev pub with_bucket : String → List ℕ → Hits → Hits
with_bucket key bucket hits host = if str_eq host key then bucket else hits host

-- What the guard decides: to answer or to raise itself, or to call the next application.
pub data Verdict : Type 0 where
  stops : Result Response → Verdict
  passes : Verdict

abbrev pub exceeds : ℕ → ℤ → Bool
exceeds max_bytes (pos n) = ltb max_bytes n
exceeds max_bytes (negsuc n) = false

abbrev pub host_of : Request → String
host_of request = or_text request.client_host "unknown"

abbrev pub guard_error : ℕ → String → String → Bool → String → Request → Response
guard_error status_code code message retryable fresh request = json_response status_code (
    dict (
      (
        "error",
        obj (
            dict (
              ("code", str code)
              ∷ ("message", str message)
              ∷ ("retryable", Value.bool retryable)
              ∷ ("request_id", str (or_text request.request_id fresh))
              ∷ [])),
      )
      ∷ []))

-- The `while` loop: the hits that are a minute old leave the queue from the left.
unfoldable pub without_old : ℕ → List ℕ → List ℕ
without_old now [] = []
without_old now (hit ∷ bucket) =
    let rest = without_old now bucket in if leb 60000 (now - hit) then rest else hit ∷ bucket

abbrev pub too_large : String → Request → Response
too_large = guard_error 413 "request_too_large" "Request body exceeds configured limit" false

abbrev pub rate_limited : String → Request → Response
rate_limited = guard_error 429 "rate_limited" "Too many requests" true

module _ (limits : Limits) where
  -- The first test, on the declared length: none lets the request on.
  abbrev pub over_size : Option ℤ → String → Request → Option (Result Response)
  over_size none fresh request = some (err (value_error "int"))
  over_size (some n) fresh request =
      if exceeds limits.max_bytes n then some (ok (too_large fresh request)) else none

  unfoldable pub size_verdict : String → Request → Option (Result Response)
  size_verdict fresh request =
      let declared : String = or_text request.content_length "" in
      if not (str_eq declared "") && limits.is_digit declared
      then over_size (limits.platform.parse_int declared) fresh request
      else none

  -- The second test, on the queue of the client.
  unfoldable pub rate_verdict : ℕ → String → Request → Hits → Verdict × Hits
  unfolding without_old
  rate_verdict now fresh request hits =
      let bucket : List ℕ = without_old now (hits (host_of request)) in
      if leb limits.per_minute (length bucket)
      then (stops (ok (rate_limited fresh request)), with_bucket (host_of request) bucket hits)
      else (passes, with_bucket (host_of request) (bucket ++ (now ∷ [])) hits)

  unfoldable pub verdict : ℕ → String → Request → Hits → Verdict × Hits
  unfolding size_verdict rate_verdict
  verdict now fresh request hits = elim (size_verdict fresh request) [
    | some result ↦ (stops result, hits)
    | none ↦ rate_verdict now fresh request hits
  ]

  abbrev pub answer : (Request → Result Response) → Request → Verdict → Result Response
  answer call_next request (stops result) = result
  answer call_next request passes = call_next request

  -- `RequestGuardMiddleware.dispatch`
  unfoldable pub guarded :
      ℕ → String → (Request → Result Response) → Request → Hits → Result Response × Hits
  unfolding verdict
  guarded now fresh call_next request hits =
      let (v, later) = verdict now fresh request hits in (answer call_next request v, later)
