-- ===== src/Documents/Ready.antt =====
-- Which documents are ready: those with chunks of their own, after any uploads and finalizations.
use coolproof.Base.{
  ℕ, ◌+◌, ◌==◌, ltb, String, text_in, Bool, true, false, not, ◌&&◌, ◌≡◌, refl, sym, List, [], ◌∷◌,
  ◌++◌, keep, any, any-append, length, All, arith, Bool-cases, inl, inr,
}
use coolproof.Failure.{Result, ok, err, ok-injective, ◌>>=◌, >>=-eq-ok}
use coolproof.Db.Evidence.{Document, DocumentChunk, DocumentStatus, ready}
use coolproof.Db.Query.{save}
use coolproof.Db.Session.{Session, Tables}
use coolproof.Agents.Api.{Reply}
use coolproof.Documents.{Chunk, extract_text_chunks}
use coolproof.Documents.Embedding.{embed_text, normalized, add_tokens, zeros}
use coolproof.Documents.Key.{allowed_types, max_upload_bytes, bad_pdf}
use coolproof.Documents.Finalize.{
  Ingestion, finalized, new_chunk, chunk_rows, other_chunks, replaced, stored_chunks,
  with_extracted, finalize_document, dimensions, chunk_words,
}
use coolproof.Documents.Api.{Bucket, fail_document, marked_failed}

abbrev pub is_ready : DocumentStatus → Bool
is_ready ready = true
is_ready _ = false

abbrev pub is_chunk_of : Document → DocumentChunk → Bool
is_chunk_of d c = c.document_id == d.id && c.organization_id == d.organization_id

-- A ready document has a chunk, of its organization.
abbrev pub HasChunk : List DocumentChunk → Document → Type 0
HasChunk chunks d = is_ready d.status ≡ true → any (is_chunk_of d) chunks ≡ true

abbrev pub TablesReady : Tables → Type 0
TablesReady t = All (HasChunk t.chunks) t.documents

abbrev pub SessionReady : Session → Type 0
SessionReady s = TablesReady s.tables × TablesReady s.durable

fail_document-HasChunk :
    (chunks : List DocumentChunk) (id : ℕ) (ds : List Document)
    → All (HasChunk chunks) ds
    → All (HasChunk chunks) (fail_document id ds)
unfolding fail_document
fail_document-HasChunk chunks id [] h = tt
fail_document-HasChunk chunks id (d ∷ ds) h = elim (Bool-cases (d.id == id)) [
  | inl same ↦ rw same ((λ e. absurd (cc e)), fail_document-HasChunk chunks id ds h.1)
  | inr other ↦ rw other (h.0, fail_document-HasChunk chunks id ds h.1)
]

-- The chunks of other documents stay.
any-other :
    (d : Document) (id : ℕ) (chunks : List DocumentChunk)
    → (d.id == id) ≡ false
    → any (is_chunk_of d) chunks ≡ true
    → any (is_chunk_of d) (keep (λ c. not (c.document_id == id)) chunks) ≡ true
unfolding any keep
any-other d id [] other h = h
any-other d id (c ∷ chunks) other h = ground (arith, any-other d id chunks other)

any-append_right {ℓ} :
    {A : Type ℓ} (q : A → Bool) (xs ys : List A) → any q ys ≡ true → any q (xs ++ ys) ≡ true
unfolding any
any-append_right q [] ys h = h
any-append_right q (x ∷ xs) ys h = ground (arith, any-append_right q xs ys h)

-- Where a row is written over, and the chunks change with it.
save-HasChunk :
    (document : Document) (before after : List DocumentChunk) (ds : List Document)
    → HasChunk after document
    → ((d : Document)
        → (d.id == document.id) ≡ false
        → any (is_chunk_of d) before ≡ true
        → any (is_chunk_of d) after ≡ true)
    → All (HasChunk before) ds
    → All (HasChunk after) (save (λ d. d.id) document ds)
unfolding save
save-HasChunk document before after [] new kept h = tt
save-HasChunk document before after (d ∷ ds) new kept h = elim (Bool-cases (d.id == document.id)) [
  | inl same ↦ rw same (new, save-HasChunk document before after ds new kept h.1)
  | inr other ↦
      rw other ((λ e. kept d other (h.0 e)), save-HasChunk document before after ds new kept h.1)
]

module _ (i : Ingestion) (b : Bucket) where
  -- The first chunk is one of the document.
  chunk_rows-any :
      (document d : Document) (ordinal : ℕ) (c : Chunk) (cs : List Chunk)
      (rows : List DocumentChunk)
      → d.id ≡ document.id
      → d.organization_id ≡ document.organization_id
      → chunk_rows i document ordinal (c ∷ cs) ≡ ok rows
      → any (is_chunk_of d) rows ≡ true
  unfolding chunk_rows any
  chunk_rows-any document d ordinal c cs rows same own h =
      let (embedding, e1, e2) =
        >>=-eq-ok (embed_text i.floats i.hashing dimensions c.1)
          (λ e. chunk_rows i document (ordinal + 1) cs >>= λ rs.
            ok (new_chunk i document ordinal c e ∷ rs))
          h in
      let (others, e3, e4) = >>=-eq-ok (chunk_rows i document (ordinal + 1) cs) _ e2 in
      let whole : rows ≡ new_chunk i document ordinal c embedding ∷ others =
        sym (ok-injective e4) in
      rw (whole, same, own) (ground arith)

  finalized-HasChunk :
      (document : Document) (content : List ℕ) (chunks : List Chunk) (old rows : List DocumentChunk)
      → chunk_rows i document 0 chunks ≡ ok rows
      → HasChunk (old ++ rows) (finalized i.tools document content chunks)
  finalized-HasChunk document content [] old rows h e = absurd (cc e)
  finalized-HasChunk document content (c ∷ cs) old rows h e = any-append_right _ old rows (
      chunk_rows-any document (finalized i.tools document content (c ∷ cs)) 0 c cs rows refl refl h)

  finalized-id :
      (document : Document) (content : List ℕ) (chunks : List Chunk)
      → (finalized i.tools document content chunks).id ≡ document.id
  finalized-id document content [] = refl
  finalized-id document content (c ∷ cs) = refl

  -- What is left of a session where only documents failed or a document was replaced.
  pub marked_failed-SessionReady :
      (id : ℕ) (s : Session) → SessionReady s → SessionReady (marked_failed id s)
  marked_failed-SessionReady id s h =
      let rows = fail_document-HasChunk s.tables.chunks id s.tables.documents h.0 in (rows, rows)

  stored-SessionReady :
      (document : Document) (content : List ℕ) (chunks : List Chunk) (rows : List DocumentChunk)
      (s : Session)
      → chunk_rows i document 0 chunks ≡ ok rows
      → SessionReady s
      → SessionReady
          (stored_chunks i document
            (length chunks)
            (ok rows)
            (replaced i document content chunks s)).1
  stored-SessionReady document content chunks rows s made h =
      let old : List DocumentChunk = other_chunks i document s in
      let row : Document = finalized i.tools document content chunks in
      let same : row.id ≡ document.id = finalized-id document content chunks in
      let ready_rows : All (HasChunk (old ++ rows)) (save (λ d. d.id) row s.tables.documents) =
        save-HasChunk row s.tables.chunks (old ++ rows) s.tables.documents
          (finalized-HasChunk document content chunks old rows made)
          (λ d other g.
            any-append _ old rows (any-other d document.id s.tables.chunks (rw same at other) g))
          h.0 in
      (ready_rows, ready_rows)

  abbrev embedding_of : String → List ℕ
  embedding_of text =
      normalized i.floats i.hashing
        (add_tokens i.floats i.hashing dimensions (i.hashing.tokens text) (zeros dimensions))

  -- The embedding of 1536 dimensions always succeeds, so the rows are always made.
  chunk_rows_total :
      (document : Document) (ordinal : ℕ) (cs : List Chunk)
      → (rows : List DocumentChunk) × (chunk_rows i document ordinal cs ≡ ok rows)
  unfolding chunk_rows
  chunk_rows_total document ordinal [] = ([], refl)
  chunk_rows_total document ordinal (c ∷ cs) =
      let (rows, made) = chunk_rows_total document (ordinal + 1) cs in
      (new_chunk i document ordinal c (embedding_of c.1) ∷ rows, rw made refl)

  -- A finalization that raises changes nothing, and one that returns keeps the invariant.
  abbrev pub Kept : Session → Reply ℕ → Type 0
  Kept s (err failure, s') = s' ≡ s
  Kept s (ok count, s') = SessionReady s'

  with_extracted-Kept :
      (document : Document) (content : List ℕ) (r : Result (List Chunk)) (s : Session)
      → SessionReady s
      → Kept s (with_extracted i document content r s)
  with_extracted-Kept document content (err failure) s h = refl
  with_extracted-Kept document content (ok chunks) s h =
      let (rows, made) = chunk_rows_total document 0 chunks in
      rw made (stored-SessionReady document content chunks rows s made h)

  pub finalize_document-Kept :
      (document : Document) (content : List ℕ) (s : Session)
      → SessionReady s
      → Kept s (finalize_document i document content s)
  unfolding finalize_document
  finalize_document-Kept document content s h =
      elim (Bool-cases (ltb max_upload_bytes (length content))) [
        | inl large ↦ rw large refl
        | inr small ↦ elim (Bool-cases (text_in document.content_type allowed_types)) [
          | inr foreign ↦ rw (small, foreign) refl
          | inl allowed ↦ elim (Bool-cases (bad_pdf document.content_type content)) [
            | inl bad ↦ rw (small, allowed, bad) refl
            | inr good ↦
                rw (small, allowed, good)
                  (with_extracted-Kept document content
                    (extract_text_chunks i.tools chunk_words content) s h)
          ]
        ]
      ]
