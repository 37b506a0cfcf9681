-- ===== src/Documents/Key.antt =====
-- app/retrieval/documents.py: the object key of an upload, and the checks on its content.
use Prim.Native.Char.{code}
use coolproof.Base.{
  ℕ, zero, suc, ◌*◌, ◌≤◌, ◌==◌, ◌<>◌, ltb, leb, String, str_eq, text_in, take_text, text_length,
  text_length-take_text, Bool, true, false, not, ◌&&◌, ◌||◌, ◌≡◌, refl, [], ◌∷◌, List, length,
  arith, Bool-cases, inl, inr, if◌then◌else◌,
}
use coolproof.Json.{uuid}
use coolproof.Failure.{Result, ok, err, value_error}
use coolproof.Documents.{TextTools, pdf_magic, begins_with, is_empty}

-- `[A-Za-z0-9._-]`
unfoldable pub is_safe : ℕ → Bool
is_safe c =
    leb b'A' c && leb c b'Z'
    || leb b'a' c && leb c b'z'
    || leb b'0' c && leb c b'9'
    || c == b'.'
    || c == b'_'
    || c == b'-'

-- `re.sub(r"[^A-Za-z0-9._-]", "_", s)`
unfoldable pub sanitized : String → String
unfolding is_safe
sanitized String.[] = ""
sanitized (String.◌∷◌ c s) =
    let rest = sanitized s in if is_safe (code c) then String.◌∷◌ c rest else String.◌∷◌ "_" rest

-- `s.replace("\\", "/")`
unfoldable pub slashed : String → String
slashed String.[] = ""
slashed (String.◌∷◌ c s) =
    let rest = slashed s in if code c == b'\\' then String.◌∷◌ "/" rest else String.◌∷◌ c rest

-- `s or "upload"`
abbrev pub or_upload : String → String
or_upload s = if str_eq s "" then "upload" else s

unfoldable pub safe_name : TextTools → String → String
unfolding sanitized slashed
safe_name tools filename =
    or_upload (take_text 180 (sanitized (tools.posix_name (slashed filename))))

unfoldable pub s3_object_key : TextTools → ℕ → ℕ → String → String
unfolding safe_name
s3_object_key tools organization_id document_id filename =
    "organizations/"
    <> tools.platform.to_text (uuid organization_id)
    <> "/documents/"
    <> tools.platform.to_text (uuid document_id)
    <> "/"
    <> safe_name tools filename

abbrev pub allowed_types : List String
allowed_types = "application/pdf" ∷ "text/plain" ∷ "text/markdown" ∷ []

abbrev pub max_upload_bytes : ℕ
max_upload_bytes = 25 * 1024 * 1024

abbrev pub bad_pdf : String → List ℕ → Bool
bad_pdf content_type content =
    str_eq content_type "application/pdf" && not (begins_with pdf_magic content)

pub record SafeUpload : Type 0 where
  pub key : String
  pub sha256 : String
  pub content_type : String

unfoldable pub prepare_upload : TextTools → ℕ → ℕ → String → List ℕ → String → Result SafeUpload
unfolding s3_object_key begins_with text_in
prepare_upload tools organization_id document_id filename content content_type =
    if is_empty content
    then err (value_error "document content cannot be empty")
    else if not (text_in content_type allowed_types)
    then err (value_error "unsupported document content type")
    else if ltb max_upload_bytes (length content)
    then err (value_error "document exceeds 25 MiB limit")
    else if bad_pdf content_type content
    then err (value_error "PDF magic bytes are invalid")
    else ok (record {
      key = s3_object_key tools organization_id document_id filename;
      sha256 = tools.sha256 content;
      content_type = content_type;
    })

-- Every character is one of a file name's, so there is no slash among them.
abbrev pub AllSafe : String → Type 0
AllSafe String.[] = Unit
AllSafe (String.◌∷◌ c s) = (is_safe (code c) ≡ true) × AllSafe s

underscore-safe : is_safe (code "_") ≡ true
unfolding is_safe
underscore-safe = refl

sanitized-AllSafe : (s : String) → AllSafe (sanitized s)
unfolding sanitized
sanitized-AllSafe String.[] = tt
sanitized-AllSafe (String.◌∷◌ c s) = elim (Bool-cases (is_safe (code c))) [
  | inl safe ↦ rw safe (safe, sanitized-AllSafe s)
  | inr other ↦ rw other (underscore-safe, sanitized-AllSafe s)
]

take_text-AllSafe : (n : ℕ) (s : String) → AllSafe s → AllSafe (take_text n s)
take_text-AllSafe zero s h = tt
take_text-AllSafe (suc n) String.[] h = tt
take_text-AllSafe (suc n) (String.◌∷◌ c s) h = (h.0, take_text-AllSafe n s h.1)

upload-AllSafe : AllSafe "upload"
unfolding is_safe
upload-AllSafe = (refl, (refl, (refl, (refl, (refl, (refl, tt))))))

length-not_empty : (s : String) → str_eq s "" ≡ false → 1 ≤ text_length s
length-not_empty String.[] h = absurd (cc h)
length-not_empty (String.◌∷◌ c s) h = omega arith

or_upload-IsName :
    (s : String)
    → AllSafe s
    → text_length s ≤ 180
    → AllSafe (or_upload s) × (1 ≤ text_length (or_upload s)) × (text_length (or_upload s) ≤ 180)
or_upload-IsName s h le = elim (Bool-cases (str_eq s "")) [
  | inl empty ↦ rw empty (upload-AllSafe, omega arith, omega arith)
  | inr full ↦ rw full (h, length-not_empty s full, le)
]

-- Whatever a file is called, its object key is a folder of its organization and document and then a name
-- of 1 to 180 characters that are letters, digits, dots, underscores and dashes: no slash leads out.
pub s3_object_key-AllSafe :
    (tools : TextTools) (organization_id document_id : ℕ) (filename : String)
    → (name : String) × (s3_object_key tools organization_id document_id filename
        ≡ "organizations/"
          <> tools.platform.to_text (uuid organization_id)
          <> "/documents/"
          <> tools.platform.to_text (uuid document_id)
          <> "/"
          <> name)
      × AllSafe name
      × (1 ≤ text_length name)
      × (text_length name ≤ 180)
unfolding s3_object_key safe_name
s3_object_key-AllSafe tools organization_id document_id filename =
    let clean : String = sanitized (tools.posix_name (slashed filename)) in
    let (safe, some_text, short) =
      or_upload-IsName (take_text 180 clean)
        (take_text-AllSafe 180 clean (sanitized-AllSafe (tools.posix_name (slashed filename))))
        (text_length-take_text 180 clean) in
    (or_upload (take_text 180 clean), refl, safe, some_text, short)
