-- ===== src/Failure.antt =====
-- The exceptions of the code as values (app/core/errors.py and the classes that raise elsewhere).
use coolproof.Base.{
  List, ◌∷◌, ℕ, String, ◌≡◌, refl, sym, ◌≢◌, Bool, Option, none, some, ◌||◌, leb, ◌==◌, ◌⊎◌, inl,
  inr,
}
use coolproof.Json.{Fields}

-- A constructor for each exception class; the issues are `exc.errors()` of a RequestValidationError.
pub data Failure : Type 0 where
  raised_api_error :
      (status_code : ℕ) (code message : String) (details : Option Fields) (retryable : Option Bool)
      → Failure
  request_validation_error : (issues : List Fields) → Failure
  grounding_error : String → Failure
  provider_error : String → Failure
  forty_guard_error : (code message : String) (retryable : Bool) → Failure
  validation_error : String → Failure
  value_error : String → Failure
  attribute_error : Failure
  type_error : Failure
  assertion_error : Failure
  http_exception : (status_code : ℕ) (detail : String) → Failure
  integrity_error : Failure
  stop_iteration : Failure
  os_error : Failure
  runtime_error : Failure
  client_error : Failure
  key_error : Failure

-- `APIError(status_code, code, message)`
pattern abbrev pub api_error : ℕ → String → String → Failure
api_error status_code code message = raised_api_error status_code code message none none

pub data Result {ℓ} (A : Type ℓ) : Type ℓ where
  ok : A → Result A
  err : Failure → Result A

infixl 5 ◌>>=◌
abbrev pub ◌>>=◌ {ℓ κ} : {A : Type ℓ} {B : Type κ} → Result A → (A → Result B) → Result B
ok a >>= f = f a
err e >>= f = err e

pub ok-injective {ℓ} : {A : Type ℓ} {a b : A} → ok a ≡ ok b → a ≡ b
ok-injective h = cc h

pub err-injective {ℓ} : {A : Type ℓ} {e f : Failure} → ◌≡◌ {A = Result A} (err e) (err f) → e ≡ f
err-injective h = cc h

pub err≢ok {ℓ} : {A : Type ℓ} {e : Failure} {a : A} → err e ≢ ok a
err≢ok h = cc h

pub Result-cases {ℓ} :
    {A : Type ℓ} (r : Result A) → ((a : A) × (r ≡ ok a)) ⊎ ((e : Failure) × (r ≡ err e))
Result-cases (ok a) = inl (a, refl)
Result-cases (err e) = inr (e, refl)

-- Whatever value the result holds has the property.
abbrev pub Gives {ℓ κ} : {A : Type ℓ} → (A → Type κ) → Result A → Type κ
Gives P (ok a) = P a
Gives P (err e) = Unit

pub of_Gives {ℓ κ} :
    {A : Type ℓ} (P : A → Type κ) (r : Result A) (a : A) → Gives P r → r ≡ ok a → P a
of_Gives P (ok b) a h e = rw (sym (ok-injective e)) h
of_Gives P (err f) a h e = absurd (err≢ok e)

-- `retryable if retryable is not None else status_code >= 500 or status_code == 429`
unfoldable pub is_retryable : Option Bool → ℕ → Bool
is_retryable (some retryable) status_code = retryable
is_retryable none status_code = leb 500 status_code || status_code == 429

-- A chain that gives a value had a value at each step.
pub >>=-eq-ok {ℓ κ} :
    {A : Type ℓ} {B : Type κ} (r : Result A) (f : A → Result B) {b : B}
    → (r >>= f) ≡ ok b
    → (a : A) × (r ≡ ok a) × (f a ≡ ok b)
>>=-eq-ok (ok a) f h = (a, refl, h)
>>=-eq-ok (err e) f h = absurd (err≢ok h)

pub >>=-cons {ℓ} :
    {A : Type ℓ} (r : Result A) (rs : Result (List A)) {ys : List A}
    → (r >>= λ x. rs >>= λ xs. ok (x ∷ xs)) ≡ ok ys
    → (x : A) × (xs : List A) × (r ≡ ok x) × (rs ≡ ok xs) × (ys ≡ x ∷ xs)
>>=-cons (ok x) (ok xs) h = (x, xs, refl, refl, sym (ok-injective h))
>>=-cons (ok x) (err e) h = absurd (err≢ok h)
>>=-cons (err e) rs h = absurd (err≢ok h)
