-- ===== src/Documents.antt =====
-- app/retrieval/documents.py: the text of an upload, its chunks and its object key.
pub mod Words
pub mod Key
pub mod Embedding
pub mod Finalize
pub mod Api
pub mod Ready
pub mod Steps
use coolproof.Base.{
  ℕ, zero, suc, ◌+◌, ◌-◌, ◌*◌, ◌==◌, ◌<>◌, ltb, leb, String, str_eq, split_on, starts_with, text_in,
  take_text, Bool, true, false, not, ◌&&◌, ◌||◌, Option, none, some, List, [], ◌∷◌, ◌++◌, any, map,
  take, drop, length, if◌then◌else◌,
}
use Prim.Native.Char.{code}
use coolproof.Json.{uuid}
use coolproof.Platform.{Platform}
use coolproof.Failure.{Result, ok, err, value_error, ◌>>=◌}

-- What the code takes from Python, pypdf and hashlib. A `bytes` is the list of its bytes. `words` is
-- `s.split()`, `pdf_pages` the text of each page or none if pypdf raises, `posix_name` is
-- `PurePosixPath(s).name`.
pub record TextTools : Type 0 where
  pub platform : Platform
  pub decode : List ℕ → Option String
  pub encode : String → List ℕ
  pub words : String → List String
  pub pdf_pages : List ℕ → Option (List String)
  pub sha256 : List ℕ → String
  pub posix_name : String → String

abbrev pub pdf_magic : List ℕ
pdf_magic = b'%' ∷ b'P' ∷ b'D' ∷ b'F' ∷ b'-' ∷ []

-- `content.startswith(prefix)`
unfoldable pub begins_with : List ℕ → List ℕ → Bool
begins_with [] content = true
begins_with (b ∷ bs) [] = false
begins_with (b ∷ bs) (c ∷ cs) = b == c && begins_with bs cs

abbrev pub is_empty : List ℕ → Bool
is_empty [] = true
is_empty (b ∷ bs) = false

abbrev pub starts_with_newline : String → Bool
starts_with_newline String.[] = false
starts_with_newline (String.◌∷◌ c s) = code c == 10

-- `s.replace("\r\n", "\n")`
unfoldable pub unix_lines : String → String
unix_lines String.[] = ""
unix_lines (String.◌∷◌ c s) =
    let rest = unix_lines s in
    if code c == 13 && starts_with_newline s then rest else String.◌∷◌ c rest

-- `" ".join(words)`
unfoldable pub joined : List String → String
joined [] = ""
joined (w ∷ []) = w
joined (w ∷ v ∷ ws) = w <> " " <> joined (v ∷ ws)

-- The slices `words[start : start + n]` for the starts of `range(0, len(words), n)`; the fuel is a
-- bound on their number.
unfoldable pub slices : ℕ → ℕ → List String → List (List String)
slices zero n ws = []
slices (suc fuel) n [] = []
slices (suc fuel) n (w ∷ ws) = take n (w ∷ ws) ∷ slices fuel n (drop n (w ∷ ws))

abbrev pub all_slices : ℕ → List String → List (List String)
all_slices n ws = slices (length ws) n ws

abbrev pub Chunk : Type 0
Chunk = Option ℕ × String

module _ (tools : TextTools) where
  -- `if value: chunks.append(...)`
  abbrev pub cons_chunk : Option ℕ → String → List Chunk → List Chunk
  cons_chunk page value rest = if str_eq value "" then rest else (page, value) ∷ rest

  unfoldable pub page_chunks : Option ℕ → List (List String) → List Chunk
  unfolding joined
  page_chunks page [] = []
  page_chunks page (ws ∷ more) =
      cons_chunk page (tools.platform.strip (joined ws)) (page_chunks page more)

  abbrev pub page_label : Bool → ℕ → Option ℕ
  page_label true index = some index
  page_label false index = none

  -- The pages of a text from `index` on, numbered if there are several.
  unfoldable pub text_chunks : ℕ → Bool → ℕ → List String → List Chunk
  unfolding page_chunks slices
  text_chunks n several index [] = []
  text_chunks n several index (page ∷ pages) =
      page_chunks (page_label several index) (all_slices n (tools.words page))
      ++ text_chunks n several (index + 1) pages

  abbrev pub numbered : ℕ → List (List String) → List Chunk
  numbered index [] = []
  numbered index (ws ∷ more) = (some index, joined ws) ∷ numbered index more

  unfoldable pub pdf_chunks : ℕ → ℕ → List String → List Chunk
  unfolding slices joined
  pdf_chunks n index [] = []
  pdf_chunks n index (page ∷ pages) =
      numbered index (all_slices n (tools.words page)) ++ pdf_chunks n (index + 1) pages

  abbrev pub from_pages : ℕ → Option (List String) → Result (List Chunk)
  from_pages n none = err (value_error "PDF extraction failed")
  from_pages n (some pages) = ok (pdf_chunks n 1 pages)

  abbrev pub pages_of : String → List String
  pages_of text = split_on 12 (unix_lines text)

  abbrev pub from_text : ℕ → Option String → Result (List Chunk)
  from_text n none = err (value_error "document must be valid UTF-8 text")
  from_text n (some text) = ok (text_chunks n (ltb 1 (length (pages_of text))) 1 (pages_of text))

  unfoldable pub extract_text_chunks : ℕ → List ℕ → Result (List Chunk)
  unfolding begins_with any text_chunks pdf_chunks unix_lines split_on
  extract_text_chunks n content =
      if is_empty content
      then ok []
      else if begins_with pdf_magic content
      then from_pages n (tools.pdf_pages content)
      else if any (λ b. b == 0) (take 8192 content)
      then err (value_error "binary document content is not supported")
      else from_text n (tools.decode content)
