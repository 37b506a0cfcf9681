-- ===== src/Documents/Finalize.antt =====
-- finalize_document of app/retrieval/documents.py: the chunks of a document are replaced, and the
-- document is ready if there are any. The optional native vector column of PostgreSQL is left out.
use coolproof.Base.{
  ℕ, ◌+◌, ◌==◌, ltb, text_in, not, some, List, [], ◌∷◌, ◌++◌, keep, length, pos, if◌then◌else◌,
}
use coolproof.Json.{str, int, dict}
use coolproof.Floats.{Floats}
use coolproof.Failure.{Result, ok, err, value_error, ◌>>=◌}
use coolproof.Db.Evidence.{Document, DocumentChunk, DocumentStatus}
use coolproof.Db.Query.{save}
use coolproof.Db.Session.{Session, commit}
use coolproof.Agents.Api.{Reply}
use coolproof.Documents.{TextTools, Chunk, extract_text_chunks}
use coolproof.Documents.Key.{allowed_types, max_upload_bytes, bad_pdf}
use coolproof.Documents.Embedding.{Hashing, embed_text}

-- The boundary of the ingestion: text, floats and hashes. A new chunk's id is `ids` of its ordinal.
pub record Ingestion : Type 0 where
  pub tools : TextTools
  pub floats : Floats
  pub hashing : Hashing
  pub ids : ℕ → ℕ

abbrev pub chunk_words : ℕ
chunk_words = 180

abbrev pub dimensions : ℕ
dimensions = 1536

abbrev pub with_documents : List Document → Session → Session
with_documents rows s = let t = s.tables in record s { tables = record t { documents = rows } }

abbrev pub with_chunks : List DocumentChunk → Session → Session
with_chunks rows s = let t = s.tables in record s { tables = record t { chunks = rows } }

abbrev pub finalized : TextTools → Document → List ℕ → List Chunk → Document
finalized tools document content [] = record document {
  sha256 = tools.sha256 content;
  status = DocumentStatus.failed;
  metadata_json =
      dict (("error", str "no_extractable_text") ∷ ("version", int (pos document.version)) ∷ []);
}
finalized tools document content (c ∷ cs) = record document {
  sha256 = tools.sha256 content;
  status = DocumentStatus.ready;
}

module _ (i : Ingestion) where
  abbrev pub new_chunk : Document → ℕ → Chunk → List ℕ → DocumentChunk
  new_chunk document ordinal c embedding = record {
    id = i.ids ordinal;
    organization_id = document.organization_id;
    document_id = document.id;
    ordinal = ordinal;
    page_number = c.0;
    text = c.1;
    lexical_text = i.tools.platform.casefold c.1;
    embedding = some embedding;
  }

  -- The rows of the chunks from an ordinal on.
  unfoldable pub chunk_rows : Document → ℕ → List Chunk → Result (List DocumentChunk)
  unfolding embed_text
  chunk_rows document ordinal [] = ok []
  chunk_rows document ordinal (c ∷ cs) =
      let rest = chunk_rows document (ordinal + 1) cs in
      embed_text i.floats i.hashing dimensions c.1 >>= λ embedding.
      rest >>= λ rows. ok (new_chunk document ordinal c embedding ∷ rows)

  abbrev pub other_chunks : Document → Session → List DocumentChunk
  other_chunks document s = keep (λ c. not (c.document_id == document.id)) s.tables.chunks

  -- The document as it is changed, its old chunks gone.
  abbrev pub replaced : Document → List ℕ → List Chunk → Session → Session
  replaced document content chunks s = with_chunks (other_chunks document s) (
      with_documents
        (save (λ d. d.id) (finalized i.tools document content chunks) s.tables.documents) s)

  abbrev pub stored_chunks : Document → ℕ → Result (List DocumentChunk) → Session → Reply ℕ
  stored_chunks document count (err failure) s = (err failure, s)
  stored_chunks document count (ok rows) s =
      (ok count, commit (with_chunks (s.tables.chunks ++ rows) s))

  abbrev pub with_extracted : Document → List ℕ → Result (List Chunk) → Session → Reply ℕ
  with_extracted document content (err failure) s = (err failure, s)
  with_extracted document content (ok chunks) s =
      stored_chunks document (length chunks) (chunk_rows document 0 chunks)
        (replaced document content chunks s)

  unfoldable pub finalize_document : Document → List ℕ → Session → Reply ℕ
  unfolding chunk_rows extract_text_chunks keep save text_in
  finalize_document document content s =
      if ltb max_upload_bytes (length content)
      then (err (value_error "document exceeds 25 MiB limit"), s)
      else if not (text_in document.content_type allowed_types)
      then (err (value_error "unsupported document content type"), s)
      else if bad_pdf document.content_type content
      then (err (value_error "PDF magic bytes are invalid"), s)
      else with_extracted document content (extract_text_chunks i.tools chunk_words content) s
