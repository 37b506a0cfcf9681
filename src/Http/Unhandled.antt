-- ===== src/Http/Unhandled.antt =====
-- app/core/errors.py and app/main.py: which exceptions are left to the last handler.
use coolproof.Base.{
  ℕ, String, str_eq, not, ◌&&◌, leb, length, ◌≡◌, ◌⊎◌, inl, inr, Option, none, some, Bool-cases,
  Option-cases, ℤ, subst, sym, ap, ◌∙◌,
}
use coolproof.Failure.{
  Failure, Result, err, err-injective, Result-cases, raised_api_error, request_validation_error,
  http_exception, grounding_error, provider_error, forty_guard_error, validation_error, value_error,
  attribute_error, type_error, assertion_error, integrity_error, stop_iteration, os_error,
  runtime_error, client_error, key_error,
}
use coolproof.Http.{
  Request, Response, Limits, Hits, or_text, host_of, exceeds, without_old, over_size, size_verdict,
  rate_verdict, verdict, guarded,
}
use coolproof.Http.Errors.{handled, or_raised, with_handlers}

-- All exceptions but APIError, RequestValidationError and HTTPException.
abbrev pub HasNoHandler : Failure → Type 0
HasNoHandler (raised_api_error status_code code message details retryable) = ⊥
HasNoHandler (request_validation_error issues) = ⊥
HasNoHandler (http_exception status_code detail) = ⊥
HasNoHandler _ = Unit

handled-HasNoHandler : (request : Request) (e : Failure) → handled request e ≡ none → HasNoHandler e
unfolding handled
handled-HasNoHandler request (raised_api_error status_code code message details retryable) h =
    absurd (cc h)
handled-HasNoHandler request (request_validation_error issues) h = absurd (cc h)
handled-HasNoHandler request (http_exception status_code detail) h = absurd (cc h)
handled-HasNoHandler request (grounding_error m) h = tt
handled-HasNoHandler request (provider_error m) h = tt
handled-HasNoHandler request (forty_guard_error c m r) h = tt
handled-HasNoHandler request (validation_error m) h = tt
handled-HasNoHandler request (value_error m) h = tt
handled-HasNoHandler request attribute_error h = tt
handled-HasNoHandler request type_error h = tt
handled-HasNoHandler request assertion_error h = tt
handled-HasNoHandler request integrity_error h = tt
handled-HasNoHandler request stop_iteration h = tt
handled-HasNoHandler request os_error h = tt
handled-HasNoHandler request runtime_error h = tt
handled-HasNoHandler request client_error h = tt
handled-HasNoHandler request key_error h = tt

module _ (endpoint : Request → Result Response) (request : Request) where
  -- An exception that no handler answers: of the endpoint, or of `int` in the guard.
  abbrev pub IsLeft : Failure → Type 0
  IsLeft failure =
      HasNoHandler failure × ((endpoint request ≡ err failure) ⊎ (failure ≡ value_error "int"))

  with_handlers-IsLeft :
      (failure : Failure) → with_handlers endpoint request ≡ err failure → IsLeft failure
  unfolding with_handlers
  with_handlers-IsLeft failure h = elim (Result-cases (endpoint request)) [
    | inl (own, e) ↦ absurd (cc (rw (e, with_handlers) at h))
    | inr (raised, e) ↦ elim (Option-cases (handled request raised)) [
      | inl unknown ↦
          let left : or_raised raised (handled request raised) ≡ err failure =
            rw (e, with_handlers) at h in
          let same : raised ≡ failure = err-injective (rw unknown at left) in
          (
            subst HasNoHandler same (handled-HasNoHandler request raised unknown),
            inl (e ∙ ap err same),
          )
      | inr (response, known) ↦
          let left : or_raised raised (handled request raised) ≡ err failure =
            rw (e, with_handlers) at h in
          absurd (cc (rw known at left))
    ]
  ]

  module _ (limits : Limits) where
    over_size_raised :
        (parsed : Option ℤ) (spare : String) (failure : Failure)
        → over_size limits parsed spare request ≡ some (err failure)
        → failure ≡ value_error "int"
    over_size_raised none spare failure h = cc h
    over_size_raised (some n) spare failure h = elim (Bool-cases (exceeds limits.max_bytes n)) [
      | inl large ↦ absurd (cc (rw large at h))
      | inr small ↦ absurd (cc (rw small at h))
    ]

    size_verdict_raised :
        (spare : String) (failure : Failure)
        → size_verdict limits spare request ≡ some (err failure)
        → failure ≡ value_error "int"
    unfolding size_verdict
    size_verdict_raised spare failure h =
        let declared : String = or_text request.content_length "" in
        elim (Bool-cases (not (str_eq declared "") && limits.is_digit declared)) [
          | inl sized ↦
              over_size_raised (limits.platform.parse_int declared) spare failure (rw sized at h)
          | inr unsized ↦ absurd (cc (rw unsized at h))
        ]

    -- What the guard and the handlers within it leave raised.
    pub guarded-IsLeft :
        (now : ℕ) (spare : String) (hits : Hits) (failure : Failure)
        → (guarded limits now spare (with_handlers endpoint) request hits).0 ≡ err failure
        → IsLeft failure
    unfolding guarded verdict rate_verdict
    guarded-IsLeft now spare hits failure h =
        elim (Option-cases (size_verdict limits spare request)) [
          | inr (result, stopped) ↦
              let same : result ≡ err failure = rw (stopped, verdict) at h in
              let number : failure ≡ value_error "int" =
                size_verdict_raised spare failure (stopped ∙ ap some same) in
              (subst HasNoHandler (sym number) tt, inr number)
          | inl passed ↦
              elim (Bool-cases
                (leb limits.per_minute (length (without_old now (hits (host_of request)))))) [
                  | inl full ↦ absurd (cc (rw full at (rw (passed, verdict) at h)))
                  | inr room ↦ with_handlers-IsLeft failure (rw room at (rw (passed, verdict) at h))
                ]
        ]
