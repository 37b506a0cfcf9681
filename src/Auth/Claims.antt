-- ===== src/Auth/Claims.antt =====
-- app/core/auth.py: `CognitoJWTVerifier.verify`. `jwt.decode` with the signing key is a parameter.
use coolproof.Base.{
  String, ◌<>◌, str_eq, text_in, split_on, Bool, true, false, Option, none, some, List, [], ◌∷◌,
  map, if◌then◌else◌,
}
use coolproof.Json.{Value, str, arr, obj, nil, Fields, end, field, get, list_of}
use coolproof.Platform.{Platform}
use coolproof.Failure.{Result, ok, err, api_error, type_error, ◌>>=◌}

pub record TokenClaims : Type 0 where
  pub subject : String
  pub email : Option Value
  pub roles : List String

-- The settings of app/core/config.py about authentication.
pub record AuthSettings : Type 0 where
  pub environment : String
  pub allow_development_auth : Bool
  pub cognito_region : Option String
  pub cognito_user_pool_id : Option String
  pub cognito_app_client_id : Option String
  pub cognito_issuer : Option String
  pub cognito_jwks_url : Option String
  pub cognito_jwt_audience : Option String

abbrev pub is_development : AuthSettings → Bool
is_development s = text_in s.environment ("development" ∷ "test" ∷ "local" ∷ [])

-- `value` as a truth value, where it is an optional text: the empty text counts as missing.
abbrev pub present : Option String → Option String
present none = none
present (some s) = if str_eq s "" then none else some s

abbrev pub or_text : Option String → Option String → Option String
or_text none b = b
or_text (some a) b = some a

abbrev pub pool_url : Option String → Option String → Option String
pool_url (some region) (some pool) =
    some ("https://cognito-idp." <> region <> ".amazonaws.com/" <> pool)
pool_url _ _ = none

-- `resolved_cognito_issuer`; `rstrip` is the text's `rstrip("/")`.
abbrev pub resolved_issuer : (String → String) → AuthSettings → Option String
resolved_issuer rstrip s = elim (present s.cognito_issuer) [
  | some issuer ↦ some (rstrip issuer)
  | none ↦ pool_url (present s.cognito_region) (present s.cognito_user_pool_id)
]

abbrev pub resolved_jwks_url : (String → String) → AuthSettings → Option String
resolved_jwks_url rstrip s = elim (present s.cognito_jwks_url) [
  | some url ↦ some url
  | none ↦ elim (present (resolved_issuer rstrip s)) [
    | some issuer ↦ some (issuer <> "/.well-known/jwks.json")
    | none ↦ none
  ]
]

abbrev pub keys : Fields → List Value
keys end = []
keys (field k v d) = str k ∷ keys d

-- `for item in raw_groups`: what is iterated over.
abbrev pub iterated : Value → Result (List Value)
iterated (str s) = ok (map str (split_on b',' s))
iterated (arr items) = ok (list_of items)
iterated (obj d) = ok (keys d)
iterated _ = err type_error

abbrev pub get_or : String → Value → Fields → Value
get_or k v d = elim (get k d) [ some w ↦ w | none ↦ v ]

-- `payload.get("cognito:groups", payload.get("groups", []))`
abbrev pub raw_groups : Fields → Value
raw_groups payload = get_or "cognito:groups" (get_or "groups" (arr nil) payload) payload

module _ (p : Platform) where
  abbrev pub folded_texts : List Value → List String
  folded_texts [] = []
  folded_texts (str s ∷ vs) = p.casefold s ∷ folded_texts vs
  folded_texts (_ ∷ vs) = folded_texts vs

  abbrev pub invalid_token : {A : Type 0} → String → Result A
  invalid_token message = err (api_error 401 "invalid_token" message)

  abbrev pub is_access_or_id : Option Value → Bool
  is_access_or_id (some (str use_)) = text_in use_ ("access" ∷ "id" ∷ [])
  is_access_or_id _ = false

  -- PyJWT refuses a `sub` that is no text.
  abbrev pub subject_of : Option Value → Option String
  subject_of (some (str s)) = present (some s)
  subject_of _ = none

  abbrev pub with_subject : Bool → Option String → Fields → Result TokenClaims
  with_subject true (some subject) payload = iterated (raw_groups payload) >>= λ items.
      ok (record { subject = subject; email = get "email" payload; roles = folded_texts items })
  with_subject _ _ payload = invalid_token "Token claims are incomplete"

  abbrev pub claims_of : Option Fields → Result TokenClaims
  claims_of none = invalid_token "Bearer token validation failed"
  claims_of (some payload) =
      with_subject (is_access_or_id (get "token_use" payload)) (subject_of (get "sub" payload))
        payload

  -- `decode` is given the issuer, the key set's URL, the audience and the token, and fails as
  -- `PyJWTError` does.
  unfoldable pub verify :
      (String → String)
      → (String → String → Option String → String → Option Fields)
      → AuthSettings
      → String
      → Result TokenClaims
  unfolding get text_in
  verify rstrip decode s token = elim (present (resolved_issuer rstrip s)) [
    | none ↦ err (api_error 503 "auth_not_configured" "Cognito authentication is not configured")
    | some issuer ↦ elim (present (resolved_jwks_url rstrip s)) [
      | none ↦ err (api_error 503 "auth_not_configured" "Cognito authentication is not configured")
      | some url ↦ claims_of (
          decode issuer url (or_text (present s.cognito_jwt_audience) s.cognito_app_client_id)
            token)
    ]
  ]
