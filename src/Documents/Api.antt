-- ===== src/Documents/Api.antt =====
-- app/api/documents.py: uploads, their finalization and the list of documents.
use coolproof.Base.{
  ℕ, ◌==◌, String, str_eq, Bool, true, ◌&&◌, Option, none, some, is_some, List, [], ◌∷◌, ◌++◌, keep,
  map, pos, if◌then◌else◌,
}
use coolproof.Json.{Value, null, int, str, uuid, end, Fields, dict}
use coolproof.Failure.{Failure, Result, ok, err, api_error, http_exception, value_error}
use coolproof.Db.Evidence.{Document, DocumentStatus, pending, ready, failed}
use coolproof.Db.Query.{scalar, descending}
use coolproof.Db.Session.{Session, commit}
use coolproof.Auth.Tenancy.{TenantContext, require_tenant_roles}
use coolproof.Agents.Api.{Reply, for_tenant, readers, writers}
use coolproof.Documents.{TextTools}
use coolproof.Documents.Key.{SafeUpload, s3_object_key, prepare_upload}
use coolproof.Documents.Finalize.{Ingestion, with_documents, finalize_document}

pub record CreateDocumentRequest : Type 0 where
  pub filename : String
  pub content_type : String
  pub project_id : Option ℕ

-- S3: a presigned URL, which may raise, and an object's content or none if the read raises.
pub record Bucket : Type 0 where
  pub documents_bucket : Option String
  pub presign_put : String → String → String → Result String
  pub fetch : String → String → Option (List ℕ)

abbrev pub status_value : DocumentStatus → String
status_value pending = "pending"
status_value ready = "ready"
status_value failed = "failed"

-- `settings.documents_bucket`, as a truth value.
abbrev pub configured : Option String → Option String
configured none = none
configured (some s) = if str_eq s "" then none else some s

abbrev pub no_storage : {A : Type 0} → Session → Reply A
no_storage s =
    (err (api_error 503 "document_storage_unavailable" "Document storage is not configured"), s)

abbrev pub project_known : Option ℕ → TenantContext → Session → Bool
project_known none tenant s = true
project_known (some id) tenant s =
    is_some
      (scalar (λ r. r.id == id && r.organization_id == tenant.organization.id) s.tables.projects)

abbrev pub new_document : TextTools → ℕ → ℕ → TenantContext → CreateDocumentRequest → Document
new_document tools id now tenant r = record {
  id = id;
  organization_id = tenant.organization.id;
  project_id = r.project_id;
  filename = r.filename;
  content_type = r.content_type;
  s3_key = s3_object_key tools tenant.organization.id id r.filename;
  sha256 = "pending";
  status = DocumentStatus.pending;
  metadata_json = end;
  version = 1;
  created_at = now;
}

-- The status of a document is set to FAILED.
unfoldable pub fail_document : ℕ → List Document → List Document
fail_document id [] = []
fail_document id (d ∷ ds) =
    let rest = fail_document id ds in
    if d.id == id then record d { status = DocumentStatus.failed } ∷ rest else d ∷ rest

abbrev pub marked_failed : ℕ → Session → Session
marked_failed id s = commit (with_documents (fail_document id s.tables.documents) s)

module _ (i : Ingestion) (b : Bucket) where
  abbrev pub show : ℕ → Value
  show u = str (i.tools.platform.to_text (uuid u))

  abbrev pub upload_out : Document → Result String → Result Fields
  upload_out document (err failure) = err failure
  upload_out document (ok url) = ok (
      dict (
        ("document_id", show document.id)
        ∷ ("object_key", str document.s3_key)
        ∷ ("upload_url", str url)
        ∷ ("status", str "pending")
        ∷ []))

  abbrev pub uploaded : String → Document → Session → Reply Fields
  uploaded bucket document s = (
    upload_out document (b.presign_put bucket document.s3_key document.content_type),
    commit (with_documents (s.tables.documents ++ (document ∷ [])) s),
  )

  abbrev pub upload_to :
      Option String → ℕ → ℕ → CreateDocumentRequest → TenantContext → Session → Reply Fields
  upload_to none id now r tenant s = no_storage s
  upload_to (some bucket) id now r tenant s =
      if project_known r.project_id tenant s
      then uploaded bucket (new_document i.tools id now tenant r) s
      else (err (api_error 404 "project_not_found" "Project was not found"), s)

  unfoldable pub create_upload :
      ℕ → ℕ → TenantContext → CreateDocumentRequest → Session → Reply Fields
  unfolding scalar s3_object_key require_tenant_roles
  create_upload id now tenant r =
      for_tenant writers tenant (upload_to (configured b.documents_bucket) id now r)

  -- `except ValueError`, which marks the document.
  abbrev pub invalid : ℕ → Failure → Session → Reply Fields
  invalid id (value_error message) s =
      (err (api_error 422 "document_validation_failed" message), marked_failed id s)
  invalid id failure s = (err failure, s)

  abbrev pub status_of : ℕ → Session → String
  status_of id s = elim (scalar (λ d. d.id == id) s.tables.documents) [
    | some d ↦ status_value d.status
    | none ↦ ""
  ]

  abbrev pub finalized_out : ℕ → Reply ℕ → Reply Fields
  finalized_out id (err failure, s) = invalid id failure s
  finalized_out id (ok count, s) = (
    ok (
        dict (
          ("document_id", show id)
          ∷ ("status", str (status_of id s))
          ∷ ("chunk_count", int (pos count))
          ∷ [])),
    s,
  )

  abbrev pub unless_invalid : Document → List ℕ → Result SafeUpload → Session → Reply Fields
  unless_invalid document content (err failure) s = invalid document.id failure s
  unless_invalid document content (ok upload) s =
      finalized_out document.id (finalize_document i document content s)

  abbrev pub with_content : TenantContext → Document → List ℕ → Session → Reply Fields
  with_content tenant document content s =
      unless_invalid document content
        (prepare_upload i.tools tenant.organization.id document.id document.filename content
          document.content_type)
        s

  abbrev pub fetched : TenantContext → Document → Option (List ℕ) → Session → Reply Fields
  fetched tenant document none s = (
    err (api_error 502 "document_fetch_failed" "Unable to retrieve uploaded document"),
    marked_failed document.id s,
  )
  fetched tenant document (some content) s = with_content tenant document content s

  abbrev pub from_bucket : TenantContext → Document → Option String → Session → Reply Fields
  from_bucket tenant document none s = no_storage s
  from_bucket tenant document (some bucket) s =
      fetched tenant document (b.fetch bucket document.s3_key) s

  abbrev pub with_text : TenantContext → Document → Option String → Session → Reply Fields
  with_text tenant document (some text) s = with_content tenant document (i.tools.encode text) s
  with_text tenant document none s = from_bucket tenant document (configured b.documents_bucket) s

  -- `session.get(Document, id)`, and the check of its organization.
  abbrev pub for_document : TenantContext → Option Document → Option String → Session → Reply Fields
  for_document tenant none text s = (err (http_exception 404 "Document not found"), s)
  for_document tenant (some d) text s =
      if d.organization_id == tenant.organization.id
      then with_text tenant d text s
      else (err (http_exception 404 "Document not found"), s)

  unfoldable pub finalize : ℕ → TenantContext → Option String → Session → Reply Fields
  unfolding scalar prepare_upload finalize_document fail_document require_tenant_roles
  finalize id tenant text =
      for_tenant writers tenant
        (λ t s. for_document t (scalar (λ d. d.id == id) s.tables.documents) text s)

  abbrev pub project_out : Option ℕ → Value
  project_out none = null
  project_out (some id) = show id

  abbrev pub hash_out : DocumentStatus → String → Value
  hash_out ready sha256 = str sha256
  hash_out _ sha256 = null

  abbrev pub document_out : Document → Fields
  document_out d = dict (
      ("document_id", show d.id)
      ∷ ("filename", str d.filename)
      ∷ ("content_type", str d.content_type)
      ∷ ("status", str (status_value d.status))
      ∷ ("project_id", project_out d.project_id)
      ∷ ("sha256", hash_out d.status d.sha256)
      ∷ [])

  unfoldable pub list_documents : TenantContext → Session → Reply (List Fields)
  unfolding keep descending require_tenant_roles
  list_documents tenant = for_tenant readers tenant (λ t s. (
    ok (
        map document_out (
          descending (λ d. d.created_at)
            (keep (λ d. d.organization_id == t.organization.id) s.tables.documents))),
    s,
  ))
