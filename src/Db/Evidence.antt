-- ===== src/Db/Evidence.antt =====
-- app/db/phase3_models.py: documents, interventions and their evidence, portfolio runs and allocations,
-- verification runs.
use coolproof.Base.{ℕ, ℤ, String, Bool, Option, List}
use coolproof.Json.{Fields, Value}

pub data DocumentStatus : Type 0 where
  pending ready failed : DocumentStatus

pub record Document : Type 0 where
  pub id : ℕ
  pub organization_id : ℕ
  pub project_id : Option ℕ
  pub filename : String
  pub content_type : String
  pub s3_key : String
  pub sha256 : String
  pub status : DocumentStatus
  pub metadata_json : Fields
  pub version : ℕ
  pub created_at : ℕ

pub record DocumentChunk : Type 0 where
  pub id : ℕ
  pub organization_id : ℕ
  pub document_id : ℕ
  pub ordinal : ℕ
  pub page_number : Option ℕ
  pub text : String
  pub lexical_text : String
  pub embedding : Option (List ℕ)

-- Costs and scores are floats, which this layer copies.
pub record Intervention : Type 0 where
  pub id : ℕ
  pub organization_id : ℕ
  pub name : String
  pub category : String
  pub unit_cost : ℕ
  pub cooling_score : ℕ
  pub eligible_land_uses : List String
  pub evidence_document_id : Option ℕ
  pub active : Bool

pub record InterventionEvidence : Type 0 where
  pub id : ℕ
  pub organization_id : ℕ
  pub intervention_id : ℕ
  pub document_id : ℕ
  pub chunk_id : ℕ
  pub claim : String
  pub source_label : Option String
  pub metadata_json : Fields
  pub created_at : ℕ

pub record PortfolioRun : Type 0 where
  pub id : ℕ
  pub organization_id : ℕ
  pub project_id : Option ℕ
  pub budget : ℕ
  pub status : String
  pub result_json : Value
  pub created_at : ℕ

pub record PortfolioAllocation : Type 0 where
  pub organization_id : ℕ
  pub portfolio_run_id : ℕ
  pub zone_id : ℕ
  pub intervention_id : ℕ
  pub quantity : ℤ
  pub cost : ℕ
  pub created_at : ℕ

pub record VerificationRun : Type 0 where
  pub id : ℕ
  pub organization_id : ℕ
  pub project_id : Option ℕ
  pub portfolio_run_id : Option ℕ
  pub idempotency_key : String
  pub status : String
  pub result_json : Fields
  pub report_s3_key : Option String
