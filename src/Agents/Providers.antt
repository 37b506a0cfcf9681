-- ===== src/Agents/Providers.antt =====
-- app/agents/providers.py: the output contract, the providers and the choice of one.
pub mod Calls
pub mod Events
use Prim.Native.String.{compare}
use Prim.Native.Char.{code}
use Prim.Native.Nat.{Ordering}
use coolproof.Base.{
  ℕ, ◌==◌, leb, String, str_eq, ◌<>◌, text_in, text_length, Bool, true, false, ◌&&◌, ◌||◌, Option,
  none, some, List, [], ◌∷◌, if◌then◌else◌, length, map, pos,
}
use coolproof.Json.{Value, int, str, arr, obj, cons, Fields, end, field, get, dict, items_of}
use coolproof.Failure.{Result, ok, err, provider_error, attribute_error, ◌>>=◌}
use coolproof.Db.Query.{order_by}

-- `confidence` is a float, by its 64-bit pattern.
pub record AgentOutput : Type 0 where
  pub summary : String
  pub citations : List String
  pub facts : Fields
  pub confidence : ℕ
  pub needs_approval : Bool

-- The patterns of 1.0 and of -0.0.
abbrev one_bits : ℕ
one_bits = 0x3ff0000000000000

abbrev minus_zero_bits : ℕ
minus_zero_bits = 0x8000000000000000

-- The constraints on the model's fields; the patterns of the floats from 0.0 on are ordered.
unfoldable pub is_valid_output : AgentOutput → Bool
is_valid_output o =
    leb 1 (text_length o.summary)
    && leb (text_length o.summary) 4000
    && leb (length o.citations) 50
    && (leb o.confidence one_bits || o.confidence == minus_zero_bits)

-- A provider, through the method that the graph calls.
pub record LlmProvider : Type 0 where
  pub name : String
  pub complete : String → Fields → Result AgentOutput

abbrev keys : Fields → List String
keys end = []
keys (field k v d) = k ∷ keys d

abbrev text_le : String → String → Bool
text_le a b = elim (compare a b) [ Ordering.gt ↦ false | _ ↦ true ]

-- `sorted(context)`
abbrev pub sorted_keys : Fields → List Value
sorted_keys context = map str (order_by text_le (keys context))

unfoldable pub deterministic_complete : String → Fields → Result AgentOutput
unfolding order_by
deterministic_complete agent context = ok (record {
  summary = agent <> " completed using deterministic domain services";
  citations = [];
  facts = dict (("agent", str agent) ∷ ("input_keys", arr (items_of (sorted_keys context))) ∷ []);
  confidence = one_bits;
  needs_approval = false;
})

abbrev pub deterministic_provider : LlmProvider
deterministic_provider = record { name = "deterministic"; complete = deterministic_complete }

-- What the adapters take from other packages: the body of a POST, or nothing if httpx raises or the
-- body is no JSON; `json.loads` and `json.dumps`; and the validation of an output.
pub record Wire : Type 0 where
  pub post : String → Fields → Option Value
  pub loads : String → Option Value
  pub dumps : Value → String
  pub model_validate : Value → Option AgentOutput

module _ (w : Wire) where
  abbrev pub or_failed : {A : Type 0} → String → Option A → Result A
  or_failed name none = err (provider_error (name <> "_provider_failed"))
  or_failed name (some a) = ok a

  -- `body.get("output", body)`: a body that is no dict has no `get`.
  abbrev pub output_or_body : Value → Result Value
  output_or_body (obj body) = elim (get "output" body) [
    | some output ↦ ok output
    | none ↦ ok (obj body)
  ]
  output_or_body _ = err attribute_error

  -- `message.get("content", raw) if isinstance(message, dict) else raw`
  abbrev pub content_or : Fields → Option Value → Value
  content_or raw (some (obj message)) = elim (get "content" message) [
    | some content ↦ content
    | none ↦ obj raw
  ]
  content_or raw none = obj raw
  content_or raw _ = obj raw

  -- `choices[0].get("message", {})`
  abbrev pub unwrap_choices : Fields → Option Value → Result Value
  unwrap_choices raw (some (arr (cons (obj choice) rest))) =
      ok (content_or raw (get "message" choice))
  unwrap_choices raw (some (arr (cons _ rest))) = err attribute_error
  unwrap_choices raw _ = ok (obj raw)

  abbrev pub unwrap : Value → Result Value
  unwrap (obj raw) = unwrap_choices raw (get "choices" raw)
  unwrap raw = ok raw

  abbrev pub parsed : String → Value → Result Value
  parsed name (str text) = or_failed name (w.loads text)
  parsed name raw = ok raw

  -- `HTTPJSONProvider.complete`, over the request payload of the adapter.
  unfoldable pub http_complete : String → String → Fields → Result AgentOutput
  unfolding get
  http_complete name url payload = or_failed name (w.post url payload) >>= λ body.
      output_or_body body >>= λ raw. unwrap raw >>= λ content.
      parsed name content >>= λ value. or_failed name (w.model_validate value)

  abbrev pub text_content : Value → Option String
  text_content (obj body) = elim (get "content" body) [ some (str text) ↦ some text | _ ↦ none ]
  text_content _ = none

  -- `BackboardProvider.complete`
  unfoldable pub backboard_complete : String → String → Fields → Result AgentOutput
  unfolding get
  backboard_complete name url payload = or_failed name (w.post url payload) >>= λ body.
      or_failed name (text_content body) >>= λ text.
      or_failed name (w.loads text) >>= λ value. or_failed name (w.model_validate value)

  abbrev pub instruction : String → String
  instruction agent =
      "You are the CoolProof " <> agent
      <> " agent. Return only a JSON object with keys summary, citations, facts, confidence, needs_approval."

  -- `NIMProvider.request_payload`
  unfoldable pub nim_payload : String → String → Fields → Fields
  nim_payload model agent context = dict (
      ("model", str model)
      ∷ (
        "messages",
        arr (
            items_of (
              obj (dict (("role", str "system") ∷ ("content", str (instruction agent)) ∷ []))
              ∷ obj (dict (("role", str "user") ∷ ("content", str (w.dumps (obj context))) ∷ []))
              ∷ [])),
      )
      ∷ ("temperature", int (pos 0))
      ∷ ("response_format", obj (dict (("type", str "json_object") ∷ [])))
      ∷ [])

  unfoldable pub backboard_payload : String → String → String → Fields → Fields
  backboard_payload llm_provider model agent context = dict (
      ("content", str (w.dumps (obj context)))
      ∷ ("system_prompt", str (instruction agent))
      ∷ ("llm_provider", str llm_provider)
      ∷ ("model_name", str model)
      ∷ ("json_output", Value.bool true)
      ∷ ("memory", str "off")
      ∷ [])

-- The settings of app/core/config.py that choose a provider.
pub record ProviderSettings : Type 0 where
  pub agent_provider : String
  pub nim_base_url : Option String
  pub nim_api_key : Option String
  pub nim_model : String
  pub backboard_base_url : String
  pub backboard_api_key : Option String
  pub backboard_model : String
  pub backboard_llm_provider : String

-- `not value` for an optional text.
abbrev pub is_missing : Option String → Bool
is_missing none = true
is_missing (some s) = str_eq s ""

abbrev pub text_or_empty : Option String → String
text_or_empty none = ""
text_or_empty (some s) = s

-- `base_url.rstrip("/")`
abbrev pub rstrip_slash : String → String
rstrip_slash String.[] = ""
rstrip_slash (String.◌∷◌ c s) =
    let rest = rstrip_slash s in if code c == b'/' && str_eq rest "" then "" else String.◌∷◌ c rest

module _ (w : Wire) where
  abbrev nim_provider : ProviderSettings → Result LlmProvider
  nim_provider s =
      if is_missing s.nim_base_url || is_missing s.nim_api_key
      then err (provider_error "nim_provider_not_configured")
      else ok (record {
        name = "nim";
        complete = λ agent context.
            http_complete w "nim"
              (rstrip_slash (text_or_empty s.nim_base_url) <> "/v1/chat/completions")
              (nim_payload w s.nim_model agent context);
      })

  abbrev backboard_provider : ProviderSettings → Result LlmProvider
  backboard_provider s =
      if is_missing s.backboard_api_key
      then err (provider_error "backboard_provider_not_configured")
      else ok (record {
        name = "backboard";
        complete = λ agent context.
            backboard_complete w "backboard"
              (rstrip_slash s.backboard_base_url <> "/threads/messages")
              (backboard_payload w s.backboard_llm_provider s.backboard_model agent context);
      })

  unfoldable pub provider_from_settings : ProviderSettings → Result LlmProvider
  unfolding http_complete nim_payload backboard_complete backboard_payload text_in
      deterministic_complete
  provider_from_settings s =
      if text_in s.agent_provider ("nim" ∷ "nvidia_nim" ∷ [])
      then nim_provider s
      else if str_eq s.agent_provider "backboard"
      then backboard_provider s
      else ok deterministic_provider
