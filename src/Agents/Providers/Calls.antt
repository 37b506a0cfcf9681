-- ===== src/Agents/Providers/Calls.antt =====
-- app/agents/providers.py: the tool calls and the streams of the providers.
use coolproof.Base.{
  String, str_eq, ◌<>◌, drop_text, starts_with, Bool, true, false, Option, none, some, List, [],
  ◌∷◌, length, not, pos, if◌then◌else◌,
}
use coolproof.Platform.{Platform}
use coolproof.Json.{Value, int, str, arr, obj, cons, Fields, get, put, dict, items_of}
use coolproof.Failure.{Failure, Result, ok, err, provider_error, attribute_error, ◌>>=◌}
use coolproof.Agents.Providers.{AgentOutput, sorted_keys, Wire, backboard_complete}

unfoldable pub deterministic_tool_call : String → Fields → List Fields → Fields
deterministic_tool_call agent context tools = dict (
    ("tool", str "none")
    ∷ ("agent", str agent)
    ∷ ("available_tools", int (pos (length tools)))
    ∷ ("context_keys", arr (items_of (sorted_keys context)))
    ∷ [])

abbrev pub tool_failure : String → Failure
tool_failure name = provider_error (name <> "_tool_call_failed")

abbrev pub or_tool_failure : {A : Type 0} → String → Option A → Result A
or_tool_failure name none = err (tool_failure name)
or_tool_failure name (some a) = ok a

-- `body.get("tool_call", body)` of a body that is a dict; the TypeError for another is caught.
abbrev pub tool_or_body : String → Value → Result Value
tool_or_body name (obj body) = elim (get "tool_call" body) [
  | some call ↦ ok call
  | none ↦ ok (obj body)
]
tool_or_body name _ = err (tool_failure name)

-- `calls[0] if isinstance(calls, list) and calls else message`
abbrev pub first_call : Fields → Option Value → Value
first_call message (some (arr (cons call calls))) = call
first_call message _ = obj message

-- `choices[0].get("message", {})`: a choice that is no dict has no `get`, and a message that is no dict
-- leaves the response as it is.
abbrev pub called_message : Fields → Option Value → Value
called_message raw (some (obj message)) = first_call message (get "tool_calls" message)
called_message raw none = first_call (dict []) none
called_message raw _ = obj raw

abbrev pub unwrap_calls : Fields → Option Value → Result Value
unwrap_calls raw (some (arr (cons (obj choice) rest))) =
    ok (called_message raw (get "message" choice))
unwrap_calls raw (some (arr (cons _ rest))) = err attribute_error
unwrap_calls raw _ = ok (obj raw)

abbrev pub unwrap_tool : Value → Result Value
unwrap_tool (obj raw) = unwrap_calls raw (get "choices" raw)
unwrap_tool raw = ok raw

abbrev pub object_of : String → Value → Result Fields
object_of name (obj raw) = ok raw
object_of name _ = err (tool_failure name)

abbrev pub with_tools : List Fields → Fields → Fields
with_tools tools payload =
    put "tool_choice" (str "auto") (put "tools" (arr (items_of (objects tools))) payload)
  where
    objects : List Fields → List Value
    objects [] = []
    objects (t ∷ ts) = obj t ∷ objects ts

-- One `data:` line of a stream: nothing to yield, a text, or an exception.
pub data Piece : Type 0 where
  silent : Piece
  text : String → Piece
  raises : Failure → Piece

-- `if isinstance(text, str) and text: yield text`
abbrev pub yielded : Option Value → Piece
yielded (some (str s)) = if str_eq s "" then silent else text s
yielded _ = silent

-- `delta.get("content") if isinstance(delta, dict) else None`, where a missing delta is `{}`.
abbrev pub delta_text : Option Value → Piece
delta_text (some (obj delta)) = yielded (get "content" delta)
delta_text _ = silent

-- A `text` that is no string stays so unless there is a choice.
abbrev pub choice_text : Option Value → Piece
choice_text (some (arr (cons (obj choice) rest))) = delta_text (get "delta" choice)
choice_text (some (arr (cons _ rest))) = raises attribute_error
choice_text _ = silent

abbrev pub body_text : Fields → Option Value → Piece
body_text body (some (str s)) = yielded (some (str s))
body_text body _ = choice_text (get "choices" body)

-- `json.loads(data)`: what does not parse is passed over, as is a body that is no dict.
abbrev pub piece_of : Option Value → Piece
piece_of (some (obj body)) = body_text body (get "text" body)
piece_of _ = silent

-- How the loop over the lines ends: with the lines, at the end mark, or by an exception.
pub data Ending : Type 0 where
  exhausted : Ending
  done : Ending
  raised : Failure → Ending

-- What a stream has yielded, and how it ended.
abbrev pub Streamed : Type 0
Streamed = List String × Ending

abbrev pub then_piece : Piece → Streamed → Streamed
then_piece silent rest = rest
then_piece (text s) (texts, ending) = (s ∷ texts, ending)
then_piece (raises failure) rest = ([], raised failure)

-- The streams of the other providers: the summary of one answer.
abbrev pub summary_stream : Result AgentOutput → Result (List String)
summary_stream result = result >>= λ output. ok (output.summary ∷ [])

-- The exception that leaves the stream: `broken` says that httpx raises after the lines.
abbrev pub stream_failure : String → Bool → Ending → Option Failure
stream_failure name true exhausted = some (provider_error (name <> "_stream_failed"))
stream_failure name false exhausted = none
stream_failure name broken done = none
stream_failure name broken (raised failure) = some failure

module _ (w : Wire) (p : Platform) where
  -- `HTTPJSONProvider.tool_call`, over the request payload of the adapter.
  unfoldable pub http_tool_call : String → String → Fields → List Fields → Result Fields
  unfolding get put
  http_tool_call name url payload tools =
      or_tool_failure name (w.post url (with_tools tools payload)) >>= λ body.
      tool_or_body name body >>= λ raw. unwrap_tool raw >>= λ call. object_of name call

  -- `BackboardProvider.tool_call`
  unfoldable pub backboard_tool_call : String → String → Fields → List Fields → Result Fields
  unfolding backboard_complete
  backboard_tool_call name url payload tools = backboard_complete w name url payload >>= λ output.
      ok (dict (("summary", str output.summary) ∷ ("facts", obj output.facts) ∷ []))

  -- `line[5:].strip()`
  abbrev pub data_of : String → String
  data_of line = p.strip (drop_text 5 line)

  -- The loop of `HTTPJSONProvider._stream`
  unfoldable pub read_lines : List String → Streamed
  unfolding get
  read_lines [] = ([], exhausted)
  read_lines (line ∷ lines) =
      let rest = read_lines lines in
      let piece : Piece = piece_of (w.loads (data_of line)) in
      if not (starts_with line "data:")
      then rest
      else if str_eq (data_of line) "[DONE]"
      then ([], done)
      else then_piece piece rest

  -- `HTTPJSONProvider._stream`
  unfoldable pub http_stream : String → List String → Bool → List String × Option Failure
  unfolding read_lines
  http_stream name lines broken =
      let (texts, ending) = read_lines lines in (texts, stream_failure name broken ending)
