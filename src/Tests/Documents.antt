-- ===== src/Tests/Documents.antt =====
-- The theorems on documents and their search at one upload of one tenant.
use Prim.Native.Char.{code, Char}
use Prim.Native.String.append
use coolproof.Base.{
  ◌+◌, ◌==◌, ◌<>◌, ◌≤◌, String, true, false, ◌≡◌, refl, ap, ◌∙◌, none, some, List, [], ◌∷◌, length,
  All, Bool-cases, inl, inr, if◌then◌else◌, text_length,
}
use coolproof.Failure.{ok}
use coolproof.Db.Session.{Session, open_session}
use coolproof.Documents.{TextTools, Chunk, joined, extract_text_chunks, begins_with, pages_of}
use coolproof.Documents.Words.{
  IsSplitting, chunk_words, page_words, concat, extract_text_chunks-words,
}
use coolproof.Documents.Key.{AllSafe, s3_object_key, s3_object_key-AllSafe, safe_name}
use coolproof.Documents.Embedding.{Hashing}
use coolproof.Documents.Finalize.{Ingestion}
use coolproof.Documents.Api.{Bucket, CreateDocumentRequest, create_upload, finalize}
use coolproof.Documents.Ready.{SessionReady}
use coolproof.Documents.Steps.{here, next, uploads, finalizes, DocumentReach-SessionReady}
use coolproof.Retrieval.{Citation, RetrievalQuery, Search, search}
use coolproof.Retrieval.Scoped.{IsSearched, search-IsSearched}
use coolproof.Tests.Data.{plain, boss, staffed}
use coolproof.Tests.Solver.{whole}

-- Every character but the space is a word of its own.
unfoldable letters : String → List String
letters String.[] = []
letters (String.◌∷◌ c s) =
    let rest = letters s in if code c == 32 then rest else String.◌∷◌ c "" ∷ rest

abbrev IsLetter : String → Type 0
IsLetter w = (c : Char) × (w ≡ String.◌∷◌ c "") × ((code c == 32) ≡ false)

letters-IsLetter : (s : String) → All IsLetter (letters s)
unfolding letters
letters-IsLetter String.[] = tt
letters-IsLetter (String.◌∷◌ c s) = elim (Bool-cases (code c == 32)) [
  | inl space ↦ rw space (letters-IsLetter s)
  | inr other ↦ rw other ((c, refl, other), letters-IsLetter s)
]

spaced : (c : Char) (s : String) → String.◌∷◌ c "" <> " " <> s ≡ String.◌∷◌ c (String.◌∷◌ " " s)
spaced c s =
    append.cons c "" (" " <> s)
    ∙ ap (λ (t : String). String.◌∷◌ c t)
        (append.nil (" " <> s)
          ∙ append.cons " " "" s
          ∙ ap (λ (t : String). String.◌∷◌ " " t) (append.nil s))

letters-joined : (ws : List String) → All IsLetter ws → letters (joined ws) ≡ ws
unfolding letters joined
letters-joined [] h = refl
letters-joined (w ∷ []) ((c, single, letter), rest) = rw (single, letter) refl
letters-joined (w ∷ v ∷ ws) ((c, single, letter), rest) =
    rw (single, spaced c (joined (v ∷ ws)), letter, letters-joined (v ∷ ws) rest) refl

abbrev tools : TextTools
tools = record {
  platform = plain;
  decode = λ content. some "ab c";
  encode = λ text. 65 ∷ [];
  words = letters;
  pdf_pages = λ content. none;
  sha256 = λ content. "hash";
  posix_name = λ s. s;
}

tools-IsSplitting : IsSplitting tools
unfolding letters
tools-IsSplitting = record {
  IsWord = IsLetter;
  words-IsWord = letters-IsLetter;
  words-empty = refl;
  words-joined = letters-joined;
}

abbrev two_chunks : List Chunk
two_chunks = (none, "a b") ∷ (none, "c") ∷ []

extracted : extract_text_chunks tools 2 (65 ∷ []) ≡ ok two_chunks
unfolding extract_text_chunks joined letters
extracted = refl

extract_text_chunks-words_example :
    (concat (chunk_words tools tools-IsSplitting two_chunks)
      ≡ page_words tools tools-IsSplitting (pages_of tools "ab c"))
    × All (λ ws. (1 ≤ length ws) × (length ws ≤ 2)) (chunk_words tools tools-IsSplitting two_chunks)
unfolding begins_with
extract_text_chunks-words_example =
    extract_text_chunks-words tools tools-IsSplitting 1 (65 ∷ []) "ab c" two_chunks refl refl refl
      extracted

s3_object_key-AllSafe_example :
    (name : String) × (s3_object_key tools 1 2 "../a b.pdf"
      ≡ "organizations/" <> "i" <> "/documents/" <> "ii" <> "/" <> name)
    × AllSafe name
    × (1 ≤ text_length name)
    × (text_length name ≤ 180)
s3_object_key-AllSafe_example = s3_object_key-AllSafe tools 1 2 "../a b.pdf"

cleaned : safe_name tools "a\\b c.pdf" ≡ "a_b_c.pdf"
unfolding safe_name
cleaned = refl

abbrev hashing : Hashing
hashing = record { tokens = λ s. []; digest = λ s. (0, true); root = λ x. x }

abbrev ingestion : Ingestion
ingestion = record { tools = tools; floats = whole; hashing = hashing; ids = λ n. n + 70 }

abbrev s3 : Bucket
s3 = record {
  documents_bucket = some "documents";
  presign_put = λ b k t. ok "https://upload";
  fetch = λ b k. none;
}

abbrev upload_request : CreateDocumentRequest
upload_request = record { filename = "a.txt"; content_type = "text/plain"; project_id = none }

abbrev archive : Session
archive = open_session staffed

abbrev uploaded_session : Session
uploaded_session = (create_upload ingestion s3 6 10 boss upload_request archive).1

abbrev finalized_session : Session
finalized_session = (finalize ingestion s3 6 boss (some "ab c") uploaded_session).1

DocumentReach-SessionReady_example : SessionReady finalized_session
DocumentReach-SessionReady_example =
    DocumentReach-SessionReady ingestion s3
      (next (next here (uploads 6 10 boss upload_request)) (finalizes 6 boss (some "ab c")))
      (let nothing : SessionReady archive = (tt, tt) in nothing)

abbrev finder : Search
finder = record {
  tools = tools;
  floats = whole;
  hashing = hashing;
  ranked_rows = λ q. [];
  text_lt = λ a b. false;
}

abbrev question : RetrievalQuery
question = record {
  organization_id = 1;
  text = "a";
  embedding = none;
  limit = 3;
  project_id = none;
}

nothing_found : search finder staffed question ≡ ok []
unfolding search
nothing_found = refl

search-IsSearched_example : All (IsSearched staffed question) [] × (length {A = Citation} [] ≤ 3)
search-IsSearched_example = search-IsSearched finder staffed question [] refl nothing_found
