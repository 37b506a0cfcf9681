-- ===== src/Http/Errors.antt =====
-- app/core/errors.py and the handlers of app/main.py: the responses to exceptions.
use coolproof.Base.{ℕ, ◌==◌, String, Bool, Option, none, some, List, [], ◌∷◌, map, if◌then◌else◌}
use coolproof.Json.{Value, null, str, obj, arr, Fields, end, field, get, dict, items_of}
use coolproof.Failure.{
  Failure, Result, ok, err, raised_api_error, request_validation_error, http_exception,
  is_retryable,
}
use coolproof.Http.{
  Request, Response, json_response, Limits, Hits, guarded, chosen_id, identified, with_request_id,
}

-- A field of the model that is None is left out.
abbrev pub field_unless_none : String → Option Value → Fields → Fields
field_unless_none key none rest = rest
field_unless_none key (some v) rest = field key v rest

abbrev pub text_value : Option String → Option Value
text_value none = none
text_value (some s) = some (str s)

abbrev pub fields_value : Option Fields → Option Value
fields_value none = none
fields_value (some d) = some (obj d)

-- `ErrorDetail(...).model_dump(exclude_none=True)`
abbrev pub error_detail : String → String → Bool → Option String → Option Fields → Fields
error_detail code message retryable request_id details = field "code" (str code) (
    field "message" (str message) (
      field "retryable" (Value.bool retryable) (
        field_unless_none "request_id" (text_value request_id)
          (field_unless_none "details" (fields_value details) end))))

unfoldable pub error_response :
    Request → ℕ → String → String → Option Fields → Option Bool → Response
unfolding is_retryable
error_response request status_code code message details retryable = json_response status_code (
    field "error"
      (obj
        (error_detail code message (is_retryable retryable status_code) request.request_id details))
      end)

abbrev pub internal_error : Request → Response
internal_error request =
    error_response request 500 "internal_error" "An unexpected error occurred" none none

-- `http_error_handler`
abbrev pub http_error : Request → ℕ → String → Response
http_error request status_code detail =
    error_response request status_code (if status_code == 404 then "not_found" else "http_error")
      detail none none

-- An issue of `exc.errors()`, by the three keys that the handler keeps.
abbrev pub or_null : Option Value → Value
or_null none = null
or_null (some v) = v

abbrev pub public_issue : Fields → Value
public_issue issue = obj (
    dict (
      ("type", or_null (get "type" issue))
      ∷ ("loc", or_null (get "loc" issue))
      ∷ ("msg", or_null (get "msg" issue))
      ∷ []))

unfoldable pub validation_error_handler : Request → List Fields → Response
unfolding error_response get
validation_error_handler request issues =
    error_response request 422 "validation_error" "Request validation failed"
      (some (field "issues" (arr (items_of (map public_issue issues))) end)) none

-- The handlers of `APIError`, `RequestValidationError` and `HTTPException`, next to the endpoints.
unfoldable pub handled : Request → Failure → Option Response
unfolding error_response is_retryable validation_error_handler
handled request (raised_api_error status_code code message details retryable) = some (
    error_response request status_code code message details
      (some (is_retryable retryable status_code)))
handled request (request_validation_error issues) = some (validation_error_handler request issues)
handled request (http_exception status_code detail) = some (http_error request status_code detail)
handled request _ = none

abbrev pub or_raised : Failure → Option Response → Result Response
or_raised e none = err e
or_raised e (some response) = ok response

unfoldable pub with_handlers : (Request → Result Response) → Request → Result Response
unfolding handled
with_handlers endpoint request = elim (endpoint request) [
  | ok response ↦ ok response
  | err e ↦ or_raised e (handled request e)
]

-- `unhandled_error_handler`, which stands outside of all that the application adds.
unfoldable pub or_internal_error : Request → Result Response → Response
unfolding error_response
or_internal_error request (ok response) = response
or_internal_error request (err e) = internal_error request

module _ (limits : Limits) where
  -- What `create_app` puts around an endpoint, from the outside: the last handler, the request's id, the
  -- guard and the other handlers. `fresh` and `spare` are the UUIDs that a request draws. The last
  -- handler reads the same `request.state`, so it sees the id.
  unfoldable pub application :
      ℕ → String → String → (Request → Result Response) → Request → Hits → Response × Hits
  unfolding or_internal_error with_request_id chosen_id guarded with_handlers
  application now fresh spare endpoint request hits =
      let (result, later) =
        with_request_id fresh (λ r. guarded limits now spare (with_handlers endpoint) r hits)
          request in
      (or_internal_error (identified fresh request) result, later)
