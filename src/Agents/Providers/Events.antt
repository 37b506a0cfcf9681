-- ===== src/Agents/Providers/Events.antt =====
-- app/agents/providers.py: what the lines of an event stream say, and where the stream ends.
use coolproof.Base.{
  String, str_eq, starts_with, drop_text, true, false, ◌≡◌, none, some, List, [], ◌∷◌, ◌++◌,
}
use coolproof.Json.{str, arr, obj, cons, Fields, Items, get}
use coolproof.Platform.{Platform}
use coolproof.Agents.Providers.{Wire}

module _ (w : Wire) (p : Platform) where
  -- The line is `data:` and then, between blanks, a content.
  pub record Carries (line content : String) : Type 0 where
    pub prefix : starts_with line "data:" ≡ true
    pub content_is : p.strip (drop_text 5 line) ≡ content

  -- What a line that does not end the stream yields: nothing if it is no data line, if its content is no
  -- JSON, or if that is an object without a text and without choices; and a text that is not empty from
  -- `text` or from the content of the first choice's delta.
  pub data Says : String → List String → Type 0 where
    comment : {line : String} → starts_with line "data:" ≡ false → Says line []
    malformed :
        {line content : String}
        → Carries line content
        → str_eq content "[DONE]" ≡ false
        → w.loads content ≡ none
        → Says line []
    empty :
        {line content : String} {body : Fields}
        → Carries line content
        → str_eq content "[DONE]" ≡ false
        → w.loads content ≡ some (obj body)
        → get "text" body ≡ none
        → get "choices" body ≡ none
        → Says line []
    plain_text :
        {line content s : String} {body : Fields}
        → Carries line content
        → str_eq content "[DONE]" ≡ false
        → w.loads content ≡ some (obj body)
        → get "text" body ≡ some (str s)
        → str_eq s "" ≡ false
        → Says line (s ∷ [])
    delta_text :
        {line content s : String} {body choice delta : Fields} {rest : Items}
        → Carries line content
        → str_eq content "[DONE]" ≡ false
        → w.loads content ≡ some (obj body)
        → get "text" body ≡ none
        → get "choices" body ≡ some (arr (cons (obj choice) rest))
        → get "delta" choice ≡ some (obj delta)
        → get "content" delta ≡ some (str s)
        → str_eq s "" ≡ false
        → Says line (s ∷ [])

  -- Lines one after the other, and all that they yield.
  pub data AllSay : List String → List String → Type 0 where
    no_lines : AllSay [] []
    one_more :
        {line : String} {lines said texts : List String}
        → Says line said
        → AllSay lines texts
        → AllSay (line ∷ lines) (said ++ texts)
