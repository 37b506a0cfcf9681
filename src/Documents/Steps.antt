-- ===== src/Documents/Steps.antt =====
-- The requests on documents as steps on a session.
use coolproof.Base.{
  ℕ, ◌==◌, String, Option, none, some, List, [], ◌∷◌, All-append, Bool-cases, inl, inr,
}
use coolproof.Failure.{Failure, Result, ok, err, value_error}
use coolproof.Db.Evidence.{Document}
use coolproof.Db.Session.{Session, close}
use coolproof.Auth.Tenancy.{TenantContext, require_tenant_roles, role_in}
use coolproof.Agents.Api.{Reply, writers}
use coolproof.Documents.Key.{SafeUpload}
use coolproof.Documents.Finalize.{Ingestion}
use coolproof.Documents.Api.{
  Bucket, CreateDocumentRequest, configured, project_known, new_document, upload_to, uploaded,
  create_upload, invalid, finalized_out, unless_invalid, fetched, from_bucket, with_text,
  for_document, finalize,
}
use coolproof.Documents.Ready.{
  HasChunk, SessionReady, Kept, marked_failed-SessionReady, finalize_document-Kept,
}

module _ (i : Ingestion) (b : Bucket) where
  invalid-SessionReady :
      (id : ℕ) (failure : Failure) (s : Session)
      → SessionReady s
      → SessionReady (invalid i b id failure s).1
  invalid-SessionReady id (value_error message) s h = marked_failed-SessionReady i b id s h
  invalid-SessionReady id _ s h = h

  finalized_out-SessionReady :
      (id : ℕ) (s : Session) (r : Reply ℕ)
      → Kept i b s r
      → SessionReady s
      → SessionReady (finalized_out i b id r).1
  finalized_out-SessionReady id s (err failure, s') k h =
      invalid-SessionReady id failure s' (rw k h)
  finalized_out-SessionReady id s (ok count, s') k h = k

  unless_invalid-SessionReady :
      (document : Document) (content : List ℕ) (r : Result SafeUpload) (s : Session)
      → SessionReady s
      → SessionReady (unless_invalid i b document content r s).1
  unless_invalid-SessionReady document content (err failure) s h =
      invalid-SessionReady document.id failure s h
  unless_invalid-SessionReady document content (ok upload) s h =
      finalized_out-SessionReady document.id s _ (finalize_document-Kept i b document content s h) h

  fetched-SessionReady :
      (tenant : TenantContext) (document : Document) (o : Option (List ℕ)) (s : Session)
      → SessionReady s
      → SessionReady (fetched i b tenant document o s).1
  fetched-SessionReady tenant document none s h = marked_failed-SessionReady i b document.id s h
  fetched-SessionReady tenant document (some content) s h =
      unless_invalid-SessionReady document content _ s h

  from_bucket-SessionReady :
      (tenant : TenantContext) (document : Document) (o : Option String) (s : Session)
      → SessionReady s
      → SessionReady (from_bucket i b tenant document o s).1
  from_bucket-SessionReady tenant document none s h = h
  from_bucket-SessionReady tenant document (some bucket) s h =
      fetched-SessionReady tenant document _ s h

  with_text-SessionReady :
      (tenant : TenantContext) (document : Document) (text : Option String) (s : Session)
      → SessionReady s
      → SessionReady (with_text i b tenant document text s).1
  with_text-SessionReady tenant document none s h = from_bucket-SessionReady tenant document _ s h
  with_text-SessionReady tenant document (some text) s h =
      unless_invalid-SessionReady document (i.tools.encode text) _ s h

  for_document-SessionReady :
      (tenant : TenantContext) (o : Option Document) (text : Option String) (s : Session)
      → SessionReady s
      → SessionReady (for_document i b tenant o text s).1
  for_document-SessionReady tenant none text s h = h
  for_document-SessionReady tenant (some d) text s h =
      elim (Bool-cases (d.organization_id == tenant.organization.id)) [
        | inl own ↦ rw own (with_text-SessionReady tenant d text s h)
        | inr other ↦ rw other h
      ]

  finalize-SessionReady :
      (id : ℕ) (tenant : TenantContext) (text : Option String) (s : Session)
      → SessionReady s
      → SessionReady (finalize i b id tenant text s).1
  unfolding finalize require_tenant_roles
  finalize-SessionReady id tenant text s h =
      elim (Bool-cases (role_in tenant.membership.role writers)) [
        | inl allowed ↦ rw allowed (for_document-SessionReady tenant _ text s h)
        | inr other ↦ rw other h
      ]

  uploaded-SessionReady :
      (bucket : String) (id now : ℕ) (tenant : TenantContext) (r : CreateDocumentRequest)
      (s : Session)
      → SessionReady s
      → SessionReady (uploaded i b bucket (new_document i.tools id now tenant r) s).1
  uploaded-SessionReady bucket id now tenant r s h =
      let rows =
        All-append (HasChunk s.tables.chunks) s.tables.documents
          (new_document i.tools id now tenant r ∷ []) h.0 ((λ e. absurd (cc e)), tt) in
      (rows, rows)

  upload_to-SessionReady :
      (o : Option String) (id now : ℕ) (r : CreateDocumentRequest) (tenant : TenantContext)
      (s : Session)
      → SessionReady s
      → SessionReady (upload_to i b o id now r tenant s).1
  upload_to-SessionReady none id now r tenant s h = h
  upload_to-SessionReady (some bucket) id now r tenant s h =
      elim (Bool-cases (project_known r.project_id tenant s)) [
        | inl known ↦ rw known (uploaded-SessionReady bucket id now tenant r s h)
        | inr unknown ↦ rw unknown h
      ]

  create_upload-SessionReady :
      (id now : ℕ) (tenant : TenantContext) (r : CreateDocumentRequest) (s : Session)
      → SessionReady s
      → SessionReady (create_upload i b id now tenant r s).1
  unfolding create_upload require_tenant_roles
  create_upload-SessionReady id now tenant r s h =
      elim (Bool-cases (role_in tenant.membership.role writers)) [
        | inl allowed ↦
            rw allowed (upload_to-SessionReady (configured b.documents_bucket) id now r tenant s h)
        | inr other ↦ rw other h
      ]

  -- The requests that change documents, of any tenants, and the end of a request.
  pub data DocumentStep (s : Session) : Session → Type 0 where
    uploads :
        (id now : ℕ) (tenant : TenantContext) (r : CreateDocumentRequest)
        → DocumentStep s (create_upload i b id now tenant r s).1
    finalizes :
        (id : ℕ) (tenant : TenantContext) (text : Option String)
        → DocumentStep s (finalize i b id tenant text s).1
    ends : DocumentStep s (close s)

  pub data DocumentReach (s : Session) : Session → Type 0 where
    here : DocumentReach s s
    next : {t u : Session} → DocumentReach s t → DocumentStep t u → DocumentReach s u

  DocumentStep-SessionReady : {s t : Session} → DocumentStep s t → SessionReady s → SessionReady t
  DocumentStep-SessionReady (uploads id now tenant r) h =
      create_upload-SessionReady id now tenant r _ h
  DocumentStep-SessionReady (finalizes id tenant text) h = finalize-SessionReady id tenant text _ h
  DocumentStep-SessionReady ends h = (h.1, h.1)

  -- After any uploads and finalizations of any tenants, from a session where it is so, whatever S3 holds
  -- and whatever raises: every document that is ready, pending or durable, has a chunk of its own in
  -- its organization.
  pub DocumentReach-SessionReady :
      {s t : Session} → DocumentReach s t → SessionReady s → SessionReady t
  DocumentReach-SessionReady here h = h
  DocumentReach-SessionReady (next r st) h =
      DocumentStep-SessionReady st (DocumentReach-SessionReady r h)
