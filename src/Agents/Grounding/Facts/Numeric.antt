-- ===== src/Agents/Grounding/Facts/Numeric.antt =====
-- What `safe_numeric_facts` copies from a persisted result.
use coolproof.Base.{
  String, eq_iff, ◌≡◌, refl, text_in, none, some, List, [], ◌∷◌, arith, if◌then◌else◌,
}
use coolproof.Json.{Fields, end, get}
use coolproof.Json.Laws.{or_else}
use coolproof.Agents.Grounding.Facts.{store, numeric_fact, numeric_facts_loop, safe_numeric_facts}
use coolproof.Agents.Grounding.Facts.Provider.{bind_fact, get-store}

get-numeric_facts_loop :
    (j : String) (payload : Fields) (keys : List String) (result : Fields)
    → get j (numeric_facts_loop payload keys result) ≡ (
        if text_in j keys
        then or_else (bind_fact numeric_fact j (get j payload)) (get j result)
        else get j result)
unfolding numeric_facts_loop text_in
get-numeric_facts_loop j payload [] result = refl
get-numeric_facts_loop j payload (k ∷ keys) result = ground (
  arith,
  eq_iff k j,
  eq_iff j k,
  get-store k j (bind_fact numeric_fact k (get k payload)) result,
  get-numeric_facts_loop j payload keys (store k (bind_fact numeric_fact k (get k payload)) result),
)

-- A key of the result is a listed key, and holds what `numeric_fact` makes of the payload's value.
get-safe_numeric_facts :
    (j : String) (payload : Fields) (keys : List String)
    → get j (safe_numeric_facts (some payload) keys)
      ≡ (if text_in j keys then bind_fact numeric_fact j (get j payload) else none)
unfolding safe_numeric_facts get
get-safe_numeric_facts j payload keys = ground (arith, get-numeric_facts_loop j payload keys end)
