-- ===== src/Verification/Reports.antt =====
-- app/services/reports.py: the report of a verification in S3. The S3 client is a parameter.
use coolproof.Base.{
  ℕ, ◌<>◌, String, str_eq, starts_with, not, Option, none, some, [], ◌∷◌, if◌then◌else◌,
}
use coolproof.Json.{str, obj, uuid, Fields, dict}
use coolproof.Platform.{Platform}
use coolproof.Failure.{Result, ok, err, value_error, ◌>>=◌}

pub record ReportSettings : Type 0 where
  pub reports_bucket : Option String
  pub documents_bucket : Option String

-- `put_object` of a private, encrypted JSON object, and a presigned URL, which is signed at a time and
-- for a number of seconds. Both may raise.
pub record Storage : Type 0 where
  pub put_object : String → String → Fields → Result (Unit {0})
  pub presign : ℕ → String → String → ℕ → Result String

abbrev pub non_blank : Option String → Option String
non_blank none = none
non_blank (some s) = if str_eq s "" then none else some s

abbrev pub or_bucket : Option String → Option String → Option String
or_bucket none b = b
or_bucket (some a) b = some a

-- `settings.reports_bucket or settings.documents_bucket`, as a truth value.
abbrev pub bucket_of : ReportSettings → Option String
bucket_of s = or_bucket (non_blank s.reports_bucket) (non_blank s.documents_bucket)

module _ (p : Platform) where
  unfoldable pub report_key : ℕ → ℕ → String
  report_key organization_id verification_id =
      "organizations/"
      <> p.to_text (uuid organization_id)
      <> "/verification-reports/"
      <> p.to_text (uuid verification_id)
      <> ".json"

  -- The dict that is written as JSON.
  unfoldable pub report_payload : ℕ → ℕ → ℕ → Fields → Fields
  report_payload now organization_id verification_id result = dict (
      ("report_version", str "1")
      ∷ ("verification_id", str (p.to_text (uuid verification_id)))
      ∷ ("organization_id", str (p.to_text (uuid organization_id)))
      ∷ ("generated_at", str (p.isoformat now))
      ∷ ("result", obj result)
      ∷ [])

  abbrev pub written_to : Storage → ℕ → Option String → ℕ → ℕ → Fields → Result (Option String)
  written_to storage now none organization_id verification_id result = ok none
  written_to storage now (some bucket) organization_id verification_id result =
      storage.put_object bucket (report_key organization_id verification_id)
        (report_payload now organization_id verification_id result)
      >>= λ done. ok (some (report_key organization_id verification_id))

  unfoldable pub write_report :
      Storage → ReportSettings → ℕ → ℕ → ℕ → Fields → Result (Option String)
  unfolding report_key report_payload
  write_report storage settings now organization_id verification_id result =
      written_to storage now (bucket_of settings) organization_id verification_id result

abbrev pub unconfigured : {A : Type 0} → Result A
unconfigured = err (value_error "report storage is not configured")

abbrev pub presigned : Storage → ℕ → Option String → String → Result String
presigned storage now none key = unconfigured
presigned storage now (some bucket) key =
    if not (starts_with key "organizations/")
    then unconfigured
    else storage.presign now bucket key 900

unfoldable pub report_download_url : Storage → ReportSettings → ℕ → String → Result String
report_download_url storage settings now key = presigned storage now (bucket_of settings) key
