-- ===== src/Agents/Grounding/Facts/Provider.antt =====
-- What `safe_provider_facts` lets through: a characterisation by lookups, and its consequences.
use coolproof.Base.{
  ℕ, ◌≤◌, String, List, [], ◌∷◌, text_in, ends_with, true, ◌||◌, str_eq, eq_iff, ◌≡◌, refl, ◌∙◌, ap,
  take_text, text_length, text_length-take_text, take_text-take_text, Option, none, some,
  some-injective, arith, if◌then◌else◌, Option-cases, inl, inr,
}
use coolproof.Json.{Value, int, float, str, uuid, Fields, end, field, get, Distinct}
use coolproof.Json.Laws.{get-put, or_else, put-Distinct}
use coolproof.Platform.{Platform, IsFaithful}
use coolproof.Agents.Grounding.Facts.{
  store, id_text, provider_fact, plain_fact, provider_facts_loop, safe_provider_facts,
}

abbrev pub bind_fact : (String → Value → Option Value) → String → Option Value → Option Value
bind_fact f key none = none
bind_fact f key (some v) = f key v

-- The keys of measurements, and those of short texts.
abbrev pub measurement_keys : List String
measurement_keys =
    "exposure_score" ∷ "mean_temperature_c" ∷ "threshold_c" ∷ "persistence_hours"
    ∷ "threshold_exceedance_c" ∷ "total_cost" ∷ "total_benefit" ∷ "total_uncertainty"
    ∷ "remaining_budget" ∷ "confidence" ∷ "allocation_count" ∷ "evidence_count" ∷ []

abbrev pub label_keys : List String
label_keys = "status" ∷ "method" ∷ "agent" ∷ []

-- A fact that may leave the tenant's boundary: a number under the key of a measurement, or a text of at
-- most 120 characters under the key of an identifier or a label.
abbrev pub IsSafe : String → Value → Type 0
IsSafe key (int n) = text_in key measurement_keys ≡ true
IsSafe key (float x) = text_in key measurement_keys ≡ true
IsSafe key (str s) =
    ((ends_with "_id" key || text_in key label_keys) ≡ true) × (text_length s ≤ 120)
IsSafe key _ = ⊥

pub get-store :
    (k j : String) (o : Option Value) (d : Fields)
    → get j (store k o d) ≡ (if str_eq k j then or_else o (get j d) else get j d)
get-store k j none d = ground arith
get-store k j (some v) d = get-put k j v d

module _ (p : Platform) where
  get-provider_facts_loop :
      (j : String) (safe facts : Fields)
      → Distinct facts
      → get j (provider_facts_loop p safe facts)
        ≡ or_else (bind_fact (provider_fact p) j (get j facts)) (get j safe)
  unfolding provider_facts_loop get
  get-provider_facts_loop j safe end h = refl
  get-provider_facts_loop j safe (field k v facts) h = ground (
    arith,
    eq_iff k j,
    get-store k j (provider_fact p k v) safe,
    get-provider_facts_loop j (store k (provider_fact p k v) safe) facts h.1,
  )

  -- Every key of a result holds what `provider_fact` makes of that key's value, and nothing if it
  -- rejects it.
  pub get-safe_provider_facts :
      (j : String) (facts : Fields)
      → Distinct facts
      → get j (safe_provider_facts p facts) ≡ bind_fact (provider_fact p) j (get j facts)
  unfolding safe_provider_facts get
  get-safe_provider_facts j facts h = ground (arith, get-provider_facts_loop j end facts h)

  plain_fact-IsSafe : (k : String) (v w : Value) → plain_fact p k v ≡ some w → IsSafe k w
  unfolding plain_fact
  plain_fact-IsSafe k (str s) w h = ground (arith, text_length-take_text 120 s)
  plain_fact-IsSafe k v w h = ground arith

  provider_fact-IsSafe : (k : String) (v w : Value) → provider_fact p k v ≡ some w → IsSafe k w
  unfolding provider_fact
  provider_fact-IsSafe k (str s) w h =
      ground (arith, text_length-take_text 120 (p.to_text (str s)), plain_fact-IsSafe k (str s) w)
  provider_fact-IsSafe k (uuid u) w h =
      ground (arith, text_length-take_text 120 (p.to_text (uuid u)), plain_fact-IsSafe k (uuid u) w)
  provider_fact-IsSafe k v w h = ground (arith, plain_fact-IsSafe k v w)

  abbrev AllSafe : Fields → Type 0
  AllSafe d = (j : String) (w : Value) → get j d ≡ some w → IsSafe j w

  store-AllSafe :
      (k : String) (v : Value) (d : Fields) → AllSafe d → AllSafe (store k (provider_fact p k v) d)
  store-AllSafe k v d h j w e =
      ground (
        arith,
        eq_iff k j,
        get-store k j (provider_fact p k v) d,
        provider_fact-IsSafe k v w,
        h j w,
      )

  provider_facts_loop-AllSafe :
      (facts safe : Fields) → AllSafe safe → AllSafe (provider_facts_loop p safe facts)
  unfolding provider_facts_loop
  provider_facts_loop-AllSafe end safe h = h
  provider_facts_loop-AllSafe (field k v facts) safe h =
      provider_facts_loop-AllSafe facts _ (store-AllSafe k v safe h)

  -- Whatever a provider returned, a fact that is kept is a number under one of the twelve keys of
  -- measurements, or a text of at most 120 characters under a key that ends in `_id` or is status, method or
  -- agent.
  pub safe_provider_facts-IsSafe :
      (facts : Fields) (j : String) (w : Value)
      → get j (safe_provider_facts p facts) ≡ some w
      → IsSafe j w
  unfolding safe_provider_facts get
  safe_provider_facts-IsSafe facts j w e = provider_facts_loop-AllSafe facts end (λ k v h. cc) j w e

  store-Distinct :
      (k : String) (o : Option Value) (d : Fields) → Distinct d → Distinct (store k o d)
  store-Distinct k none d h = h
  store-Distinct k (some v) d h = put-Distinct k v d h

  provider_facts_loop-Distinct :
      (facts safe : Fields) → Distinct safe → Distinct (provider_facts_loop p safe facts)
  unfolding provider_facts_loop
  provider_facts_loop-Distinct end safe h = h
  provider_facts_loop-Distinct (field k v facts) safe h =
      provider_facts_loop-Distinct facts _ (store-Distinct k _ safe h)

  pub safe_provider_facts-Distinct : (facts : Fields) → Distinct (safe_provider_facts p facts)
  unfolding safe_provider_facts
  safe_provider_facts-Distinct facts = provider_facts_loop-Distinct facts end tt

module _ (p : Platform) (faithful : IsFaithful p) where
  plain_fact_again :
      (k : String) (v w : Value) → plain_fact p k v ≡ some w → plain_fact p k w ≡ some w
  unfolding plain_fact
  plain_fact_again k (str s) w h = ground (arith, take_text-take_text 120 s)
  plain_fact_again k v w h = ground arith

  take_text_again :
      (n : ℕ) (v : Value)
      → take_text n (p.to_text (str (take_text n (p.to_text v)))) ≡ take_text n (p.to_text v)
  take_text_again n v = ap (take_text n) (faithful.text_self _) ∙ take_text-take_text n _

  id_text_again : (v w : Value) → id_text p v ≡ some w → id_text p w ≡ some w
  id_text_again (str s) w h =
      rw (← some-injective _ _ h) (ap (λ t. some (str t)) (take_text_again 120 (str s)))
  id_text_again (uuid u) w h =
      rw (← some-injective _ _ h) (ap (λ t. some (str t)) (take_text_again 120 (uuid u)))
  id_text_again v w h = cc

  provider_fact_again :
      (k : String) (v w : Value) → provider_fact p k v ≡ some w → provider_fact p k w ≡ some w
  unfolding provider_fact
  provider_fact_again k (str s) w h =
      ground (arith, id_text_again (str s) w, plain_fact_again k (str s) w)
  provider_fact_again k (uuid u) w h =
      ground (arith, id_text_again (uuid u) w, plain_fact_again k (uuid u) w)
  provider_fact_again k v w h = ground (arith, plain_fact_again k v w)

  bind_again :
      (j : String) (o : Option Value)
      → bind_fact (provider_fact p) j (bind_fact (provider_fact p) j o)
        ≡ bind_fact (provider_fact p) j o
  bind_again j none = refl
  bind_again j (some v) = elim (Option-cases (provider_fact p j v)) [
    | inl rejected ↦ rw rejected
    | inr (w, kept) ↦ rw kept (provider_fact_again j v w kept)
  ]

  -- Filtering facts that were filtered changes no lookup.
  safe_provider_facts_idem :
      (j : String) (facts : Fields)
      → Distinct facts
      → get j (safe_provider_facts p (safe_provider_facts p facts))
        ≡ get j (safe_provider_facts p facts)
  safe_provider_facts_idem j facts h =
      rw
        (get-safe_provider_facts p j (safe_provider_facts p facts)
          (safe_provider_facts-Distinct p facts))
        (rw (get-safe_provider_facts p j facts h) (bind_again j (get j facts)))
