-- ===== src/Agents/Grounding/Facts.antt =====
-- app/agents/grounding.py: the filters that let only known scalar facts through.
pub mod Provider
pub mod Numeric
use Prim.Native.Char.{code}
use coolproof.Base.{
  ℕ, ◌==◌, String, text_in, take_text, ends_with, Bool, true, false, ◌&&◌, Option, none, some, List,
  [], ◌∷◌, if◌then◌else◌,
}
use coolproof.Json.{
  Value, bool, int, float, str, uuid, arr, null, obj, Fields, end, field, get, put,
}
use coolproof.Platform.{Platform}

abbrev pub heat_fact_keys : List String
heat_fact_keys =
    "mean_temperature_c" ∷ "threshold_c" ∷ "persistence_hours" ∷ "exposure_hours"
    ∷ "threshold_exceedance_c" ∷ "exposure_score" ∷ "population" ∷ "criticality" ∷ "method" ∷ []

abbrev pub portfolio_fact_keys : List String
portfolio_fact_keys =
    "total_cost" ∷ "total_benefit" ∷ "total_uncertainty" ∷ "remaining_budget" ∷ "status" ∷ []

-- `isinstance(value, (bool, int, float))`
abbrev pub is_number_or_bool : Value → Bool
is_number_or_bool (bool b) = true
is_number_or_bool (int n) = true
is_number_or_bool (float x) = true
is_number_or_bool _ = false

-- `isinstance(value, (int, float)) and not isinstance(value, bool)`
abbrev pub is_number : Value → Bool
is_number (int n) = true
is_number (float x) = true
is_number _ = false

-- `value[:120]` where the value is a text.
abbrev pub short_text : Value → Option Value
short_text (str s) = some (str (take_text 120 s))
short_text _ = none

-- What the loop stores under a key, if anything.
unfoldable pub numeric_fact : String → Value → Option Value
numeric_fact key value =
    if is_number_or_bool value
    then some value
    else if text_in key ("method" ∷ "status" ∷ [])
    then short_text value
    else none

abbrev pub store : String → Option Value → Fields → Fields
store key none result = result
store key (some value) result = put key value result

abbrev numeric_fact_of : String → Option Value → Option Value
numeric_fact_of key none = none
numeric_fact_of key (some value) = numeric_fact key value

unfoldable pub numeric_facts_loop : Fields → List String → Fields → Fields
numeric_facts_loop payload [] result = result
numeric_facts_loop payload (key ∷ keys) result =
    numeric_facts_loop payload keys (store key (numeric_fact_of key (get key payload)) result)

-- `_safe_numeric_facts(payload, keys)`; a payload that is no dict gives no facts.
unfoldable pub safe_numeric_facts : Option Fields → List String → Fields
unfolding numeric_facts_loop numeric_fact
safe_numeric_facts none keys = end
safe_numeric_facts (some payload) keys = numeric_facts_loop payload keys end

abbrev provider_number_keys : List String
provider_number_keys =
    "exposure_score" ∷ "mean_temperature_c" ∷ "threshold_c" ∷ "persistence_hours"
    ∷ "threshold_exceedance_c" ∷ "total_cost" ∷ "total_benefit" ∷ "total_uncertainty"
    ∷ "remaining_budget" ∷ "confidence" ∷ "allocation_count" ∷ "evidence_count" ∷ []

module _ (p : Platform) where
  -- `str(value)[:120]` where the value is a text or a UUID.
  abbrev pub id_text : Value → Option Value
  id_text (str s) = some (str (take_text 120 (p.to_text (str s))))
  id_text (uuid u) = some (str (take_text 120 (p.to_text (uuid u))))
  id_text _ = none

  -- The `elif` tests on the key, after the one on identifiers.
  unfoldable pub plain_fact : String → Value → Option Value
  plain_fact key value =
      if text_in key provider_number_keys && is_number value
      then some value
      else if text_in key ("status" ∷ "method" ∷ "agent" ∷ [])
      then short_text value
      else none

  abbrev pub or_plain : Option Value → String → Value → Option Value
  or_plain (some w) key value = some w
  or_plain none key value = plain_fact key value

  unfoldable pub provider_fact : String → Value → Option Value
  unfolding plain_fact
  provider_fact key value = or_plain (if ends_with "_id" key then id_text value else none) key value

  unfoldable pub provider_facts_loop : Fields → Fields → Fields
  provider_facts_loop safe end = safe
  provider_facts_loop safe (field key value facts) =
      provider_facts_loop (store key (provider_fact key value) safe) facts

  unfoldable pub safe_provider_facts : Fields → Fields
  unfolding provider_facts_loop provider_fact
  safe_provider_facts facts = provider_facts_loop end facts

-- `value.rsplit("/", 1)[-1]`
abbrev after_slash : String → String → String
after_slash last String.[] = last
after_slash last (String.◌∷◌ c s) = if code c == b'/' then after_slash s s else after_slash last s

-- `.replace("\n", " ")`
abbrev no_newlines : String → String
no_newlines String.[] = ""
no_newlines (String.◌∷◌ c s) = String.◌∷◌ (if code c == 10 then " " else c) (no_newlines s)

unfoldable pub safe_filename : String → String
safe_filename value = take_text 160 (no_newlines (after_slash value value))
