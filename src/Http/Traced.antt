-- ===== src/Http/Traced.antt =====
-- app/core/middleware.py and app/core/errors.py: every answer can be traced by the request's id.
use coolproof.Base.{String, ◌≡◌, Option, none, some, ◌⊎◌}
use coolproof.Json.{Value, str, obj, get}
use coolproof.Failure.{Failure, Result, ok, Gives}
use coolproof.Http.{Request, Response, Limits}
use coolproof.Http.Unhandled.{IsLeft}
use coolproof.Http.Errors.{internal_error}

-- `content["error"]["request_id"]`
abbrev pub id_in : Option Value → Option Value
id_in (some (obj detail)) = get "request_id" detail
id_in _ = none

abbrev pub error_id : Response → Option Value
error_id response = id_in (get "error" response.content)

module _ (endpoint : Request → Result Response) (id : String) where
  -- A response is an error with the id, or says what the endpoint says.
  abbrev pub IsTraced : Request → Response → Type 0
  IsTraced request response =
      (error_id response ≡ some (str id))
      ⊎ ((own : Response) × (endpoint request ≡ ok own) × (response.content ≡ own.content))

  -- The same of a result: an exception that is still raised is not answered yet.
  abbrev pub ResultTraced : Request → Result Response → Type 0
  ResultTraced request = Gives (IsTraced request)

module _ (limits : Limits) (endpoint : Request → Result Response) (id : String) where
  abbrev StopTraced : Request → Option (Result Response) → Type 0
  StopTraced request none = Unit
  StopTraced request (some result) = ResultTraced endpoint id request result

-- The answer of the last handler, for an exception that no other handler answers.
pub record IsUnhandled (endpoint : Request → Result Response) (request : Request)
    (response : Response) : Type 0 where
  pub failure : Failure
  pub left : IsLeft endpoint request failure
  pub answer : response ≡ internal_error request
