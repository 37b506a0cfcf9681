-- ===== src/Heat/Client/Retries.antt =====
-- The request loop: when it sends, how often, and what opens and closes the circuit.
use coolproof.Base.{
  ℕ, suc, zero, ◌+◌, ◌≤◌, ◌<◌, leb, ltb, Bool, true, false, ◌||◌, not, ◌≡◌, refl, sym, ap, ◌∙◌,
  none, some, [], length, arith, Option-cases, String, inl, inr,
}
use coolproof.Json.{Fields}
use coolproof.Failure.{Failure, ok, err, forty_guard_error}
use coolproof.Auth.Claims.{present}
use coolproof.Heat.Client.{
  Client, Answer, Attempt, gave, caught, escaped, attempt, ready, backoff, failed_client, Exchange,
  slept, after_attempt, attempts, request,
}

-- The answer makes the loop try again.
abbrev pub IsTransient : Answer → Type 0
IsTransient a = (e : Failure) × (attempt a ≡ caught e true)

-- A request that succeeded after `k` tries that failed.
pub record HasRecovered (c : Client) (payload : Fields) (k : ℕ) (e : Exchange) : Type 0 where
  pub result : e.result ≡ ok payload
  pub client : e.client ≡ record c { failures = 0 }
  pub waits : length e.sleeps ≡ k

-- A request that was given up at `time` after `k` waits.
pub record HasGivenUp (c : Client) (time : ℕ) (k : ℕ) (e : Exchange) : Type 0 where
  pub failure : Failure
  pub result : e.result ≡ err failure
  pub client : e.client ≡ failed_client time c
  pub waits : length e.sleeps ≡ k

or_true : (b : Bool) → (b || true) ≡ true
or_true true = refl
or_true false = refl

module _ (answers : ℕ → Answer) (clock : ℕ → ℕ) where
  after_gave :
      (n : ℕ) (c : Client) (t : Attempt) (payload : Fields) (rest : Exchange)
      → t ≡ gave payload
      → HasRecovered c payload 0 (after_attempt answers clock n c t rest)
  after_gave n c (gave p) payload rest h = record { result = cc h; client = refl; waits = refl }
  after_gave n c (caught e r) payload rest h = absurd (cc h)
  after_gave n c (escaped e) payload rest h = absurd (cc h)

  after_transient :
      (n : ℕ) (c : Client) (t : Attempt) (e : Failure) (rest : Exchange)
      → t ≡ caught e true
      → n + 1 < c.max_attempts
      → after_attempt answers clock n c t rest ≡ slept (backoff n) rest
  after_transient n c (caught f false) e rest h less = absurd (cc h)
  after_transient n c (caught f true) e rest h less = ground arith
  after_transient n c (gave p) e rest h less = absurd (cc h)
  after_transient n c (escaped f) e rest h less = absurd (cc h)

  after_last :
      (n : ℕ) (c : Client) (t : Attempt) (e : Failure) (rest : Exchange)
      → t ≡ caught e true
      → n + 1 ≡ c.max_attempts
      → HasGivenUp c (clock n) 0 (after_attempt answers clock n c t rest)
  after_last n c (caught f r) e rest h last =
      let full : leb c.max_attempts (n + 1) ≡ true = ground arith in
      rw (full, or_true (not r))
        (record { failure = f; result = refl; client = refl; waits = refl })
  after_last n c (gave p) e rest h last = absurd (cc h)
  after_last n c (escaped f) e rest h last = absurd (cc h)

  slept_recovered :
      (c : Client) (payload : Fields) (k delay : ℕ) (e : Exchange)
      → HasRecovered c payload k e
      → HasRecovered c payload (suc k) (slept delay e)
  slept_recovered c payload k delay e h = record {
    result = h.result;
    client = h.client;
    waits = ap suc h.waits;
  }

  slept_given_up :
      (c : Client) (time k delay : ℕ) (e : Exchange)
      → HasGivenUp c time k e
      → HasGivenUp c time (suc k) (slept delay e)
  slept_given_up c time k delay e h = record {
    failure = h.failure;
    result = h.result;
    client = h.client;
    waits = ap suc h.waits;
  }

  attempts_recover :
      (before n at m : ℕ) (c : Client) (payload : Fields)
      → n + m ≡ c.max_attempts
      → before < m
      → n + before ≡ at
      → ((k : ℕ) → k < at → IsTransient (answers k))
      → attempt (answers at) ≡ gave payload
      → HasRecovered c payload before (attempts answers clock n m c)
  unfolding attempts
  attempts_recover before n at zero c payload e less here transient h = absurd (omega (arith, less))
  attempts_recover zero n at (suc m) c payload e less here transient h =
      let same : n ≡ at = omega (arith, here) in
      after_gave n c (attempt (answers n)) payload _ (ap (λ i. attempt (answers i)) same ∙ h)
  attempts_recover (suc before) n at (suc m) c payload e less here transient h =
      let (failure, again) = transient n (omega (arith, here)) in
      let rest = attempts answers clock (n + 1) m c in
      rw (after_transient n c (attempt (answers n)) failure rest again (omega (arith, e, less))) (
        slept_recovered c payload before (backoff n) rest (
          attempts_recover before (n + 1) at m c payload (omega (arith, e)) (omega (arith, less))
            (omega (arith, here)) transient h))

  attempts_give_up :
      (k n last m : ℕ) (c : Client)
      → n + m ≡ c.max_attempts
      → suc k ≡ m
      → n + k ≡ last
      → ((j : ℕ) → j < c.max_attempts → IsTransient (answers j))
      → HasGivenUp c (clock last) k (attempts answers clock n m c)
  unfolding attempts
  attempts_give_up k n last zero c e size here transient = absurd (omega (arith, size))
  attempts_give_up zero n last (suc m) c e size here transient =
      let (failure, again) = transient n (omega (arith, e)) in
      let same : n ≡ last = omega (arith, here) in
      rw (sym same) (after_last n c (attempt (answers n)) failure _ again (omega (arith, e, size)))
  attempts_give_up (suc k) n last (suc m) c e size here transient =
      let (failure, again) = transient n (omega (arith, e)) in
      let rest = attempts answers clock (n + 1) m c in
      rw (after_transient n c (attempt (answers n)) failure rest again (omega (arith, e, size))) (
        slept_given_up c (clock last) k (backoff n) rest (
          attempts_give_up k (n + 1) last m c (omega (arith, e)) (omega (arith, size))
            (omega (arith, here)) transient))

-- If the client is ready and the first `k` answers are transient failures, fewer than its number of
-- tries, and the next one is a payload, the request gives that payload after `k` waits, and the client
-- forgets its earlier failures.
pub request_recovers :
    (answers : ℕ → Answer) (clock : ℕ → ℕ) (time k : ℕ) (c : Client) (payload : Fields)
    → ready c time ≡ none
    → k < c.max_attempts
    → ((j : ℕ) → j < k → IsTransient (answers j))
    → attempt (answers k) ≡ gave payload
    → HasRecovered c payload k (request answers clock time c)
unfolding request
request_recovers answers clock time k c payload is_ready less transient h = rw is_ready (
    attempts_recover answers clock k 0 k c.max_attempts c payload (omega arith) less (omega arith)
      transient h)

-- If the client is ready and all its tries fail transiently, the request is given up after one wait
-- fewer than tries: it raises, and counts as failed at the time of the last try.
pub request_gives_up :
    (answers : ℕ → Answer) (clock : ℕ → ℕ) (time last : ℕ) (c : Client)
    → ready c time ≡ none
    → suc last ≡ c.max_attempts
    → ((j : ℕ) → j < c.max_attempts → IsTransient (answers j))
    → HasGivenUp c (clock last) last (request answers clock time c)
unfolding request
request_gives_up answers clock time last c is_ready some_try transient = rw is_ready (
    attempts_give_up answers clock last 0 last c.max_attempts c (omega arith) some_try (omega arith)
      transient)

abbrev circuit_open : Failure
circuit_open =
    forty_guard_error "fortyguard_circuit_open" "FortyGuard is temporarily unavailable" true

-- The client is given the address and the key.
ready_configured :
    (c : Client) (time : ℕ)
    → ready c time ≡ none
    → ((url : String) × (present c.base_url ≡ some url))
      × ((key : String) × (present c.api_key ≡ some key))
unfolding ready
ready_configured c time h = elim (Option-cases (present c.base_url)) [
  | inl no_url ↦ absurd (cc (rw (no_url, ready) at h))
  | inr (url, u) ↦ elim (Option-cases (present c.api_key)) [
    | inl no_key ↦ absurd (cc (rw (u, no_key, ready) at h))
    | inr (key, k) ↦ ((url, u), (key, k))
  ]
]

ready_blocked :
    (last time : ℕ) (c : Client)
    → ready c last ≡ none
    → 2 ≤ c.failures
    → time < last + 30000
    → ready (failed_client last c) time ≡ some circuit_open
unfolding ready failed_client
ready_blocked last time c is_ready twice soon =
    let ((url, u), (key, k)) = ready_configured c last is_ready in
    let third : leb 3 (c.failures + 1) ≡ true = ground arith in
    let early : ltb time (last + 30000) ≡ true = ground arith in rw (u, k, third, early, ready) refl

-- After the third request in a row that was given up, the client answers every request in the next
-- thirty seconds with the same error and without sending, whatever the provider would answer.
pub failed_client_blocks :
    (answers : ℕ → Answer) (clock : ℕ → ℕ) (last time : ℕ) (c : Client)
    → ready c last ≡ none
    → 2 ≤ c.failures
    → time < last + 30000
    → request answers clock time (failed_client last c) ≡ record {
      result = err (
          forty_guard_error "fortyguard_circuit_open" "FortyGuard is temporarily unavailable" true);
      client = failed_client last c;
      sleeps = [];
    }
unfolding request
failed_client_blocks answers clock last time c is_ready twice soon =
    rw (ready_blocked last time c is_ready twice soon) refl
