-- ===== src/Retrieval.antt =====
-- app/retrieval/hybrid.py, and the search endpoint of app/api/documents.py.
pub mod Scoped
use coolproof.Base.{
  ℕ, ◌==◌, max, min, String, str_eq, text_in, Bool, true, false, not, ◌&&◌, ◌||◌, Option, none,
  some, List, [], ◌∷◌, ◌++◌, keep, map, take, length, pos, if◌then◌else◌,
}
use coolproof.Json.{Value, null, int, float, str, uuid, Fields, dict}
use coolproof.Floats.{Floats}
use coolproof.Platform.{Platform}
use coolproof.Failure.{Result, ok, err, value_error, ◌>>=◌}
use coolproof.Db.Evidence.{Document, DocumentChunk, DocumentStatus, pending, ready, failed}
use coolproof.Db.Query.{order_by}
use coolproof.Db.Session.{Session, Tables}
use coolproof.Auth.Tenancy.{TenantContext, require_tenant_roles}
use coolproof.Agents.Api.{Reply, for_tenant, readers}
use coolproof.Verification.{is_truthy_float}
use coolproof.Documents.{TextTools}
use coolproof.Documents.Embedding.{Hashing, embed_text, one}

pub record Citation : Type 0 where
  pub document_id : ℕ
  pub chunk_id : ℕ
  pub filename : String
  pub page_number : Option ℕ
  pub excerpt : String
  pub score : ℕ

pub record RetrievalQuery : Type 0 where
  pub organization_id : ℕ
  pub text : String
  pub embedding : Option (List ℕ)
  pub limit : ℕ
  pub project_id : Option ℕ

-- What the search takes from its surroundings. `ranked_rows` is what PostgreSQL answers to the ranking
-- statement, each row with its score; it is empty on other databases and where the statement fails.
-- `text_lt` is `<` on texts.
pub record Search : Type 0 where
  pub tools : TextTools
  pub floats : Floats
  pub hashing : Hashing
  pub ranked_rows : RetrievalQuery → List Citation
  pub text_lt : String → String → Bool

-- 0.4 as a float.
abbrev pub default_weight : ℕ
default_weight = 4_600_877_379_321_698_714

abbrev pub is_ready : DocumentStatus → Bool
is_ready ready = true
is_ready _ = false

abbrev pub in_project : Option ℕ → Option ℕ → Bool
in_project none project_id = true
in_project (some id) none = false
in_project (some id) (some project_id) = project_id == id

-- The `where` tests of the statement on a document.
abbrev pub is_searched : RetrievalQuery → Document → Bool
is_searched q d =
    d.organization_id == q.organization_id
    && is_ready d.status
    && in_project q.project_id d.project_id

abbrev pub pair_with : DocumentChunk → List Document → List (DocumentChunk × Document)
pair_with c [] = []
pair_with c (d ∷ ds) = (c, d) ∷ pair_with c ds

module _ (t : Tables) (q : RetrievalQuery) where
  unfoldable pub joined_rows : List DocumentChunk → List (DocumentChunk × Document)
  unfolding keep
  joined_rows [] = []
  joined_rows (c ∷ cs) =
      pair_with c (keep (λ d. d.id == c.document_id && is_searched q d) t.documents)
      ++ joined_rows cs

  unfoldable pub searched_rows : List (DocumentChunk × Document)
  unfolding joined_rows
  searched_rows = joined_rows (keep (λ c. c.organization_id == q.organization_id) t.chunks)

-- `set(texts)`
unfoldable pub distinct_texts : List String → List String
unfolding text_in
distinct_texts [] = []
distinct_texts (s ∷ ss) = let rest = distinct_texts ss in if text_in s rest then rest else s ∷ rest

abbrev pub is_blank : List ℕ → Bool
is_blank [] = true
is_blank (x ∷ xs) = false

-- `zip(left, right)`, multiplied.
unfoldable pub products : Floats → List ℕ → List ℕ → List ℕ
products f [] ys = []
products f (x ∷ xs) [] = []
products f (x ∷ xs) (y ∷ ys) = f.mul x y ∷ products f xs ys

module _ (s : Search) where
  unfoldable pub hybrid_score : ℕ → ℕ → ℕ → Result ℕ
  hybrid_score lexical_rank vector_similarity lexical_weight =
      let f = s.floats in
      if not (f.le 0 lexical_weight && f.le lexical_weight one)
      then err (value_error "lexical_weight must be between zero and one")
      else ok (
          f.add (f.mul lexical_weight lexical_rank)
            (f.mul (f.sub one lexical_weight) vector_similarity))

  abbrev pub norm : List ℕ → ℕ
  norm xs = s.hashing.root (s.floats.total (products s.floats xs xs))

  abbrev pub angle : List ℕ → List ℕ → ℕ
  angle left right =
      if is_blank left || is_blank right || not (length left == length right)
      then 0
      else if is_truthy_float (norm left) && is_truthy_float (norm right)
      then s.floats.div (s.floats.total (products s.floats left right))
          (s.floats.mul (norm left) (norm right))
      else 0

  unfoldable pub cosine : Option (List ℕ) → Option (List ℕ) → ℕ
  unfolding products
  cosine (some left) (some right) = angle left right
  cosine _ _ = 0

  abbrev pub terms_of : String → List String
  terms_of text = distinct_texts (map s.tools.platform.lower (s.tools.words text))

  abbrev pub words_of : DocumentChunk → List String
  words_of c = s.tools.words (s.tools.platform.casefold c.lexical_text)

  abbrev pub ratio : ℕ → ℕ → ℕ
  ratio a b = s.floats.div (s.floats.of_int (pos a)) (s.floats.of_int (pos b))

  -- `len(terms & words) / len(terms) if terms else 0.0`
  unfoldable pub lexical_rank : List String → DocumentChunk → ℕ
  unfolding keep text_in
  lexical_rank [] c = 0
  lexical_rank (u ∷ us) c =
      ratio (length (keep (λ w. text_in w (words_of c)) (u ∷ us))) (length (u ∷ us))

  abbrev pub score_of : RetrievalQuery → DocumentChunk → Result ℕ
  score_of q c =
      hybrid_score (lexical_rank (terms_of q.text) c) (cosine c.embedding q.embedding)
        default_weight

  abbrev pub citation_of : DocumentChunk → Document → ℕ → Citation
  citation_of c d score = record {
    document_id = d.id;
    chunk_id = c.id;
    filename = d.filename;
    page_number = c.page_number;
    excerpt = c.text;
    score = s.floats.round score 6;
  }

  abbrev pub cons_citation : DocumentChunk → Document → ℕ → List Citation → List Citation
  cons_citation c d score rest = if s.floats.lt 0 score then citation_of c d score ∷ rest else rest

  unfoldable pub ranked : RetrievalQuery → List (DocumentChunk × Document) → Result (List Citation)
  unfolding hybrid_score lexical_rank cosine distinct_texts
  ranked q [] = ok []
  ranked q ((c, d) ∷ rows) =
      let rest = ranked q rows in
      score_of q c >>= λ score. rest >>= λ citations. ok (cons_citation c d score citations)

  abbrev pub show : ℕ → String
  show id = s.tools.platform.to_text (uuid id)

  -- The order of the keys (-score, str(document_id), str(chunk_id)).
  abbrev pub ranks_before : Citation → Citation → Bool
  ranks_before a b =
      let x = s.floats.negate a.score in
      let y = s.floats.negate b.score in
      if s.floats.lt x y
      then true
      else if s.floats.lt y x
      then false
      else if s.text_lt (show a.document_id) (show b.document_id)
      then true
      else if s.text_lt (show b.document_id) (show a.document_id)
      then false
      else not (s.text_lt (show b.chunk_id) (show a.chunk_id))

  abbrev pub rounded : Citation → Citation
  rounded c = record c { score = s.floats.round c.score 6 }

  abbrev pub limited : RetrievalQuery → List Citation → List Citation
  limited q citations = take (max 1 q.limit) (order_by ranks_before citations)

  -- The portable search, where PostgreSQL ranked nothing.
  abbrev pub portable : Tables → RetrievalQuery → Result (List Citation)
  portable t q = ranked q (searched_rows t q) >>= λ citations. ok (limited q citations)

  abbrev pub ranked_or : List Citation → Tables → RetrievalQuery → Result (List Citation)
  ranked_or [] t q = portable t q
  ranked_or (c ∷ cs) t q = ok (map rounded (keep (λ x. s.floats.lt 0 x.score) (c ∷ cs)))

  unfoldable pub search : Tables → RetrievalQuery → Result (List Citation)
  unfolding searched_rows ranked order_by keep
  search t q =
      if str_eq (s.tools.platform.strip q.text) "" then ok [] else ranked_or (s.ranked_rows q) t q

  abbrev pub page_out : Option ℕ → Value
  page_out none = null
  page_out (some n) = int (pos n)

  abbrev pub citation_out : Citation → Fields
  citation_out c = dict (
      ("document_id", str (show c.document_id))
      ∷ ("chunk_id", str (show c.chunk_id))
      ∷ ("filename", str c.filename)
      ∷ ("page_number", page_out c.page_number)
      ∷ ("excerpt", str c.excerpt)
      ∷ ("score", float c.score)
      ∷ [])

  abbrev pub tenant_query : TenantContext → String → Option ℕ → ℕ → List ℕ → RetrievalQuery
  tenant_query tenant text project_id limit embedding = record {
    organization_id = tenant.organization.id;
    text = text;
    embedding = some embedding;
    limit = limit;
    project_id = project_id;
  }

  abbrev pub found : Tables → TenantContext → String → Option ℕ → ℕ → Result (List Fields)
  found t tenant text project_id limit = embed_text s.floats s.hashing 1536 text >>= λ embedding.
      search t (tenant_query tenant text project_id limit embedding) >>= λ citations.
      ok (map citation_out citations)

  unfoldable pub search_documents :
      TenantContext → String → Option ℕ → ℕ → Session → Reply (List Fields)
  unfolding search embed_text require_tenant_roles
  search_documents tenant text project_id limit =
      for_tenant readers tenant (λ t z. (found z.tables t text project_id limit, z))
