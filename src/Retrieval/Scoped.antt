-- ===== src/Retrieval/Scoped.antt =====
-- The portable search shows only what the tenant may see, and not more than asked.
use coolproof.Base.{
  ℕ, zero, suc, ◌≤◌, ◌==◌, max, str_eq, Bool, true, ◌&&◌, ◌≡◌, sym, List, [], ◌∷◌, keep, any, take,
  length, All, All-append, arith, Bool-cases, inl, inr,
}
use coolproof.Failure.{ok, ◌>>=◌, >>=-eq-ok, ok-injective}
use coolproof.Db.Evidence.{Document, DocumentChunk}
use coolproof.Db.Query.{All-order_by}
use coolproof.Db.Session.{Tables}
use coolproof.Retrieval.{
  Citation, RetrievalQuery, Search, is_searched, pair_with, joined_rows, searched_rows, score_of,
  citation_of, cons_citation, ranked, ranks_before, limited, search,
}

-- The citation's chunk and document are stored, belong together, and pass the tests of the query.
abbrev pub IsSearched : Tables → RetrievalQuery → Citation → Type 0
IsSearched t q x =
    any
      (λ c.
        any
          (λ d.
            d.id == x.document_id
            && c.id == x.chunk_id
            && c.document_id == d.id
            && c.organization_id == q.organization_id
            && is_searched q d)
          t.documents)
      t.chunks
    ≡ true

take-All {ℓ κ} : {A : Type ℓ} (P : A → Type κ) (n : ℕ) (xs : List A) → All P xs → All P (take n xs)
take-All P zero xs h = tt
take-All P (suc n) [] h = tt
take-All P (suc n) (x ∷ xs) h = (h.0, take-All P n xs h.1)

take-length {ℓ} : {A : Type ℓ} (n : ℕ) (xs : List A) → length (take n xs) ≤ n
take-length zero xs = omega arith
take-length (suc n) [] = omega arith
take-length (suc n) (x ∷ xs) = omega (arith, take-length n xs)

-- A property of a kept row is one that the whole list shows.
kept-any {ℓ κ} :
    {A : Type ℓ} (P : A → Type κ) (p : A → Bool) (xs : List A)
    → ((x : A) → p x ≡ true → ((q : A → Bool) → q x ≡ true → any q xs ≡ true) → P x)
    → All P (keep p xs)
unfolding keep any
kept-any P p [] h = tt
kept-any P p (x ∷ xs) h =
    let rest : All P (keep p xs) =
      kept-any P p xs (λ y e g. h y e (λ q hq. ground (arith, g q hq))) in
    elim (Bool-cases (p x)) [
      | inl yes_ ↦ rw yes_ (h x yes_ (λ q hq. ground arith), rest)
      | inr no_ ↦ rw no_ rest
    ]

module _ (s : Search) (t : Tables) (q : RetrievalQuery) where
  -- The row is stored, and passes the tests.
  abbrev IsRow : DocumentChunk × Document → Type 0
  IsRow (c, d) = (score : ℕ) → IsSearched t q (citation_of s c d score)

  pair_with-All :
      (P : DocumentChunk × Document → Type 0) (c : DocumentChunk) (ds : List Document)
      → All (λ d. P (c, d)) ds
      → All P (pair_with c ds)
  pair_with-All P c [] h = tt
  pair_with-All P c (d ∷ ds) h = (h.0, pair_with-All P c ds h.1)

  five_hold :
      (d : Document) (c : DocumentChunk)
      → (d.id == c.document_id && is_searched q d) ≡ true
      → (c.organization_id == q.organization_id) ≡ true
      → (d.id == d.id
          && c.id == c.id
          && c.document_id == d.id
          && c.organization_id == q.organization_id
          && is_searched q d)
        ≡ true
  five_hold d c h g = ground arith

  joined_rows-IsRow :
      (cs : List DocumentChunk)
      → All
          (λ c.
            ((c.organization_id == q.organization_id) ≡ true)
            × ((p : DocumentChunk → Bool) → p c ≡ true → any p t.chunks ≡ true))
          cs
      → All IsRow (joined_rows t q cs)
  unfolding joined_rows
  joined_rows-IsRow [] h = tt
  joined_rows-IsRow (c ∷ cs) h =
      All-append IsRow _ _
        (pair_with-All IsRow c _ (
          kept-any (λ d. IsRow (c, d)) _ t.documents
            (λ d e show score. h.0.1 _ (show _ (five_hold d c e h.0.0)))))
        (joined_rows-IsRow cs h.1)

  searched_rows-IsRow : All IsRow (searched_rows t q)
  unfolding searched_rows
  searched_rows-IsRow =
      joined_rows-IsRow _
        (kept-any _ (λ c. c.organization_id == q.organization_id) t.chunks (λ c e show. (e, show)))

  ranked-IsSearched :
      (rows : List (DocumentChunk × Document)) (citations : List Citation)
      → All IsRow rows
      → ranked s q rows ≡ ok citations
      → All (IsSearched t q) citations
  unfolding ranked
  ranked-IsSearched [] citations h e =
      let same : citations ≡ [] = sym (ok-injective e) in rw same tt
  ranked-IsSearched ((c, d) ∷ rows) citations h e =
      let (score, scored, e1) =
        >>=-eq-ok (score_of s q c) (λ x. ranked s q rows >>= λ cs. ok (cons_citation s c d x cs))
          e in
      let (others, rest, e2) =
        >>=-eq-ok (ranked s q rows) (λ cs. ok (cons_citation s c d score cs)) e1 in
      let same : citations ≡ cons_citation s c d score others = sym (ok-injective e2) in
      let more = ranked-IsSearched rows others h.1 rest in
      elim (Bool-cases (s.floats.lt 0 score)) [
        | inl above ↦ rw (same, above) (h.0 score, more)
        | inr below ↦ rw (same, below) more
      ]

-- Where PostgreSQL ranks nothing, a search that returns shows at most the query's limit of citations, or
-- one, and each is of a stored chunk and its document, both of the query's organization, the document
-- ready and in the query's project if it names one.
pub search-IsSearched :
    (s : Search) (t : Tables) (q : RetrievalQuery) (citations : List Citation)
    → s.ranked_rows q ≡ []
    → search s t q ≡ ok citations
    → All (IsSearched t q) citations × (length citations ≤ max 1 q.limit)
unfolding search
search-IsSearched s t q citations plain e =
    elim (Bool-cases (str_eq (s.tools.platform.strip q.text) "")) [
      | inl blank ↦
          let same : citations ≡ [] = sym (ok-injective (rw blank at e)) in
          rw same (tt, omega arith)
      | inr text ↦
          let (rows, made, e1) =
            >>=-eq-ok (ranked s q (searched_rows t q)) (λ cs. ok (limited s q cs))
              (rw plain at (rw text at e)) in
          let same : citations ≡ limited s q rows = sym (ok-injective e1) in
          rw same (
            take-All (IsSearched t q) (max 1 q.limit) _ (
                All-order_by (IsSearched t q) (ranks_before s) rows
                  (ranked-IsSearched s t q _ rows (searched_rows-IsRow s t q) made)),
            take-length (max 1 q.limit) _,
          )
    ]
