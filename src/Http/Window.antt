-- ===== src/Http/Window.antt =====
-- app/core/middleware.py: the limit of the guard, over every sequence of requests.
use coolproof.Base.{
  ℕ, ◌+◌, ◌≤◌, ◌<◌, leb, ltb, String, str_eq, Bool, true, false, ◌&&◌, ◌≡◌, refl, List, [], ◌∷◌,
  ◌++◌, length, length-append, if◌then◌else◌, arith, Bool-cases, inl, inr, Option-cases, eq_iff,
  str_eq_refl, lt_of_leb-false,
}
use coolproof.Http.{
  Request, Limits, Hits, no_hits, host_of, Verdict, passes, stops, without_old, size_verdict,
  rate_verdict, verdict,
}

-- The minute that starts at a time.
abbrev pub in_minute : ℕ → ℕ → Bool
in_minute t hit = leb t hit && ltb hit (t + 60000)

abbrev pub count_in : ℕ → List ℕ → ℕ
count_in t [] = 0
count_in t (hit ∷ hits) = (if in_minute t hit then 1 else 0) + count_in t hits

-- The requests that were let on, the last one first: of which client, and when.
abbrev pub Log : Type 0
Log = List (String × ℕ)

abbrev pub times_of : String → Log → List ℕ
times_of host [] = []
times_of host ((h, now) ∷ log) =
    if str_eq host h then now ∷ times_of host log else times_of host log

abbrev pub logged : String → ℕ → Verdict → Log → Log
logged host now passes log = (host, now) ∷ log
logged host now (stops result) log = log

count_in-le : (t : ℕ) (hits : List ℕ) → count_in t hits ≤ length hits
count_in-le t [] = omega arith
count_in-le t (hit ∷ hits) = ground (arith, count_in-le t hits)

count_in-append :
    (t : ℕ) (hits : List ℕ) (now : ℕ)
    → count_in t (hits ++ (now ∷ [])) ≡ (if in_minute t now then 1 else 0) + count_in t hits
count_in-append t [] now = omega arith
count_in-append t (hit ∷ hits) now = omega (arith, count_in-append t hits now)

-- The hits that the loop removes are in no minute that is not over.
count_in-without_old :
    (t now : ℕ) (hits : List ℕ)
    → now < t + 60000
    → count_in t (without_old now hits) ≡ count_in t hits
unfolding without_old
count_in-without_old t now [] h = refl
count_in-without_old t now (hit ∷ hits) h = ground (arith, count_in-without_old t now hits h)

length-without_old : (now : ℕ) (hits : List ℕ) → length (without_old now hits) ≤ length hits
unfolding without_old
length-without_old now [] = omega arith
length-without_old now (hit ∷ hits) = ground (arith, length-without_old now hits)

-- At a time, the queue of a client counts what was let on in every minute that is not over, holds at
-- most the limit, and no minute has let on more than it.
abbrev pub IsBounded : ℕ → ℕ → List ℕ → List ℕ → Type 0
IsBounded per_minute now bucket times =
    (length bucket ≤ per_minute)
    × ((t : ℕ) → now < t + 60000 → count_in t bucket ≡ count_in t times)
    × ((t : ℕ) → count_in t times ≤ per_minute)

IsBounded-later :
    (per_minute now later : ℕ) (bucket times : List ℕ)
    → now ≤ later
    → IsBounded per_minute now bucket times
    → IsBounded per_minute later bucket times
IsBounded-later per_minute now later bucket times le (short, counts, few) =
    (short, λ t h. counts t (omega arith), few)

IsBounded-without_old :
    (per_minute now : ℕ) (bucket times : List ℕ)
    → IsBounded per_minute now bucket times
    → IsBounded per_minute now (without_old now bucket) times
IsBounded-without_old per_minute now bucket times (short, counts, few) = (
  omega (arith, length-without_old now bucket),
  λ t h. omega (arith, count_in-without_old t now bucket h, counts t h),
  few,
)

in_minute-lt : (t now : ℕ) → in_minute t now ≡ true → now < t + 60000
in_minute-lt t now h = ground arith

-- One more request, of now, when the queue is below the limit.
IsBounded-hit :
    (per_minute now : ℕ) (bucket times : List ℕ)
    → length bucket < per_minute
    → IsBounded per_minute now bucket times
    → IsBounded per_minute now (bucket ++ (now ∷ [])) (now ∷ times)
IsBounded-hit per_minute now bucket times room (short, counts, few) = (
  omega (arith, length-append bucket (now ∷ [])),
  λ t h. omega (arith, count_in-append t bucket now, counts t h),
  λ t. elim (Bool-cases (in_minute t now)) [
    | inl within ↦
        rw within (omega (arith, counts t (in_minute-lt t now within), count_in-le t bucket))
    | inr outside ↦ rw outside (omega (arith, few t))
  ],
)

module _ (limits : Limits) where
  abbrev pub HostBounded : ℕ → Hits → Log → String → Type 0
  HostBounded now hits log host = IsBounded limits.per_minute now (hits host) (times_of host log)

  -- Requests that reach the guard one after another, from its start, with the hits and the log that
  -- they leave and the time of the last one.
  pub data Reach : ℕ → Hits → Log → Type 0 where
    here : Reach 0 no_hits []
    next :
        {now : ℕ} {hits : Hits} {log : Log}
        → Reach now hits log
        → (later : ℕ) (fresh : String) (request : Request) → now ≤ later
        → Reach later
            (verdict limits later fresh request hits).1
            (logged (host_of request) later (verdict limits later fresh request hits).0 log)

  -- The queue that the guard reads and writes is the one of the request's client.
  rate_verdict-HostBounded :
      (now : ℕ) (fresh : String) (request : Request) (hits : Hits) (log : Log)
      → HostBounded now hits log (host_of request)
      → IsBounded limits.per_minute now
          ((rate_verdict limits now fresh request hits).1 (host_of request))
          (times_of
            (host_of request)
            (logged (host_of request) now (rate_verdict limits now fresh request hits).0 log))
  unfolding rate_verdict
  rate_verdict-HostBounded now fresh request hits log h =
      let bucket : List ℕ = without_old now (hits (host_of request)) in
      let kept : IsBounded limits.per_minute now bucket (times_of (host_of request) log) =
        IsBounded-without_old limits.per_minute now (hits (host_of request))
          (times_of (host_of request) log) h in
      elim (Bool-cases (leb limits.per_minute (length bucket))) [
        | inl full ↦ rw full (rw (str_eq_refl (host_of request)) kept)
        | inr room ↦ rw room (
            rw (str_eq_refl (host_of request)) (
              IsBounded-hit limits.per_minute now bucket (times_of (host_of request) log)
                (lt_of_leb-false limits.per_minute (length bucket) room) kept))
      ]

  rate_verdict-other :
      (now : ℕ) (fresh : String) (request : Request) (hits : Hits) (log : Log) (host : String)
      → str_eq host (host_of request) ≡ false
      → HostBounded now hits log host
      → HostBounded now
          (rate_verdict limits now fresh request hits).1
          (logged (host_of request) now (rate_verdict limits now fresh request hits).0 log)
          host
  unfolding rate_verdict
  rate_verdict-other now fresh request hits log host other h =
      elim (Bool-cases
        (leb limits.per_minute (length (without_old now (hits (host_of request)))))) [
          | inl full ↦ rw full (rw other h)
          | inr room ↦ rw room (rw other h)
        ]

  verdict-HostBounded :
      (now : ℕ) (fresh : String) (request : Request) (hits : Hits) (log : Log)
      → ((host : String) → HostBounded now hits log host)
      → (host : String)
      → HostBounded now
          (verdict limits now fresh request hits).1
          (logged (host_of request) now (verdict limits now fresh request hits).0 log)
          host
  unfolding verdict
  verdict-HostBounded now fresh request hits log h host =
      elim (Option-cases (size_verdict limits fresh request)) [
        | inr (result, stopped) ↦ rw (stopped, verdict) (h host)
        | inl passed ↦
            rw (passed, verdict)
              (elim (Bool-cases (str_eq host (host_of request))) [
                | inl same ↦
                    rw ((eq_iff host (host_of request)).0 same)
                      (rate_verdict-HostBounded now fresh request hits log (h (host_of request)))
                | inr other ↦ rate_verdict-other now fresh request hits log host other (h host)
              ])
      ]

  Reach-HostBounded :
      {now : ℕ} {hits : Hits} {log : Log}
      → Reach now hits log
      → (host : String) → HostBounded now hits log host
  Reach-HostBounded here host = (omega arith, λ t h. refl, λ t. omega arith)
  Reach-HostBounded (next {now} {hits} {log} r later fresh request le) host =
      verdict-HostBounded later fresh request hits log
        (λ other.
          IsBounded-later limits.per_minute now later (hits other) (times_of other log) le
            (Reach-HostBounded r other))
        host

  -- After any requests one after another, the guard has let on at most its limit of requests of each
  -- client in each span of sixty seconds, wherever that begins.
  pub guard_bounds_every_minute :
      {now : ℕ} {hits : Hits} {log : Log}
      → Reach now hits log
      → (host : String) (t : ℕ) → count_in t (times_of host log) ≤ limits.per_minute
  guard_bounds_every_minute r host t = (Reach-HostBounded r host).2 t
