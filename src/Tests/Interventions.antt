-- ===== src/Tests/Interventions.antt =====
-- The theorems on claims at one document of one tenant.
use coolproof.Base.{◌≡◌, refl, true, none, some, List, [], ◌∷◌, pos}
use coolproof.Json.{Fields, null, str, int, end, dict}
use coolproof.Failure.{ok, err, integrity_error}
use coolproof.Db.Evidence.{Document, DocumentChunk, DocumentStatus, Intervention}
use coolproof.Db.Session.{Session, open_session}
use coolproof.Interventions.{EvidenceRequest, add_evidence, remove_evidence}
use coolproof.Interventions.Listing.{list_evidence}
use coolproof.Interventions.Complete.{IsKeyOf, ShowsAll, list_evidence-ShowsAll}
use coolproof.Interventions.Sourced.{SessionSourced, add_evidence-SessionSourced}
use coolproof.Tests.Data.{plain, boss, staffed}

abbrev trees : Intervention
trees = record {
  id = 2;
  organization_id = 1;
  name = "Trees";
  category = "green";
  unit_cost = 10;
  cooling_score = 3;
  eligible_land_uses = "park" ∷ [];
  evidence_document_id = none;
  active = true;
}

abbrev study : Document
study = record {
  id = 3;
  organization_id = 1;
  project_id = none;
  filename = "study.pdf";
  content_type = "application/pdf";
  s3_key = "k";
  sha256 = "h";
  status = DocumentStatus.ready;
  metadata_json = end;
  version = 1;
  created_at = 1;
}

abbrev page : DocumentChunk
page = record {
  id = 4;
  organization_id = 1;
  document_id = 3;
  ordinal = 0;
  page_number = some 1;
  text = "Trees cool.";
  lexical_text = "trees cool.";
  embedding = none;
}

abbrev library : Session
library =
    open_session
      (record staffed { interventions = trees ∷ []; documents = study ∷ []; chunks = page ∷ [] })

abbrev claim : EvidenceRequest
claim = record {
  document_id = 3;
  chunk_id = 4;
  claim = "Trees cool.";
  source_label = none;
  metadata = end;
}

abbrev claimed : Session
claimed = (add_evidence plain 8 20 boss 2 claim library).1

add_evidence-SessionSourced_example : SessionSourced claimed
add_evidence-SessionSourced_example =
    add_evidence-SessionSourced plain 8 20 boss 2 claim library (tt, tt)

claimed-Sourced : SessionSourced claimed
claimed-Sourced = add_evidence-SessionSourced plain 8 20 boss 2 claim library (tt, tt)

-- The claim stands once: its second request violates the constraint.
claimed_twice : (add_evidence plain 9 21 boss 2 claim claimed).0 ≡ err integrity_error
unfolding add_evidence
claimed_twice = refl

-- The removal takes it away.
removed : (remove_evidence boss 2 8 claimed).1.tables.evidence ≡ []
unfolding add_evidence remove_evidence
removed = refl

-- The one claim, with the name of its document and the text of its chunk.
abbrev shown : List Fields
shown =
    dict (
      ("evidence_id", str "iiiiiiii")
      ∷ ("document_id", str "iii")
      ∷ ("chunk_id", str "iiii")
      ∷ ("filename", str study.filename)
      ∷ ("page_number", int (pos 1))
      ∷ ("claim", str "Trees cool.")
      ∷ ("excerpt", str "Trees cool.")
      ∷ ("source_label", null)
      ∷ [])
    ∷ []

claimed_listing : (list_evidence plain boss 2 claimed).0 ≡ ok shown
unfolding list_evidence add_evidence
claimed_listing = refl

study_keys : IsKeyOf (λ d. d.id) claimed.tables.documents
unfolding add_evidence
study_keys = (tt, tt)

page_keys : IsKeyOf (λ c. c.id) claimed.tables.chunks
unfolding add_evidence
page_keys = (tt, tt)

list_evidence-ShowsAll_example : ShowsAll plain boss 2 claimed.tables shown
list_evidence-ShowsAll_example =
    list_evidence-ShowsAll plain boss 2 claimed study_keys page_keys claimed-Sourced.0 shown
      claimed_listing
