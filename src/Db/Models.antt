-- ===== src/Db/Models.antt =====
-- app/db/models.py: one record for each table, one field for each column that the code uses.
-- A UUID is a number, and a time is a number of microseconds.
use coolproof.Base.{ℕ, String, Bool, true, false, Option}
use coolproof.Json.{Fields}

pub data Role : Type 0 where
  viewer analyst manager admin : Role

abbrev pub role_eq : Role → Role → Bool
role_eq viewer viewer = true
role_eq analyst analyst = true
role_eq manager manager = true
role_eq admin admin = true
role_eq _ _ = false

pub record Organization : Type 0 where
  pub id : ℕ
  pub name : String
  pub slug : String

pub record User : Type 0 where
  pub id : ℕ
  pub cognito_subject : String
  pub email : Option String

pub record Membership : Type 0 where
  pub id : ℕ
  pub organization_id : ℕ
  pub user_id : ℕ
  pub role : Role

pub record AuditEvent : Type 0 where
  pub organization_id : ℕ
  pub actor_user_id : Option ℕ
  pub event_type : String
  pub resource_type : String
  pub resource_id : String
  pub metadata_json : Fields
  pub occurred_at : ℕ

pub record Project : Type 0 where
  pub id : ℕ
  pub organization_id : ℕ
  pub name : String
  pub description : Option String
  pub created_at : ℕ

pub record Zone : Type 0 where
  pub id : ℕ
  pub organization_id : ℕ
  pub project_id : ℕ
  pub name : String
  pub geometry : Fields

pub data HeatAnalysisStatus : Type 0 where
  queued running succeeded failed : HeatAnalysisStatus

abbrev pub heat_status_value : HeatAnalysisStatus → String
heat_status_value queued = "queued"
heat_status_value running = "running"
heat_status_value succeeded = "succeeded"
heat_status_value failed = "failed"

pub record HeatAnalysis : Type 0 where
  pub id : ℕ
  pub organization_id : ℕ
  pub project_id : ℕ
  pub zone_id : ℕ
  pub idempotency_key : String
  pub request_payload : Fields
  pub provider_activity_id : Option String
  pub status : HeatAnalysisStatus
  pub result : Option Fields
  pub error_code : Option String
  pub error_message : Option String
  pub source_updated_at : Option ℕ
  pub expires_at : Option ℕ
  pub created_at : ℕ

pub record FortyGuardActivity : Type 0 where
  pub analysis_id : ℕ
  pub provider_activity_id : String
  pub status : String
  pub attempts : ℕ
  pub next_poll_at : Option ℕ
  pub last_payload : Option Fields

pub record ProviderCircuit : Type 0 where
  pub provider : String
  pub consecutive_failures : ℕ
  pub open_until : Option ℕ
  pub is_open : Bool

-- The constructors that another enumeration of this file has too are written `AgentRunStatus.queued`.
pub data AgentRunStatus : Type 0 where
  queued running waiting_approval approved rejected completed failed : AgentRunStatus

abbrev pub run_status_value : AgentRunStatus → String
run_status_value AgentRunStatus.queued = "queued"
run_status_value AgentRunStatus.running = "running"
run_status_value AgentRunStatus.waiting_approval = "waiting_approval"
run_status_value AgentRunStatus.approved = "approved"
run_status_value AgentRunStatus.rejected = "rejected"
run_status_value AgentRunStatus.completed = "completed"
run_status_value AgentRunStatus.failed = "failed"

pub record AgentRun : Type 0 where
  pub id : ℕ
  pub organization_id : ℕ
  pub project_id : Option ℕ
  pub thread_id : String
  pub status : AgentRunStatus
  pub input_json : Fields
  pub state_json : Fields
  pub current_node : Option String
  pub revision : ℕ
  pub error_code : Option String
  pub error_message : Option String

pub record AgentEvent : Type 0 where
  pub run_id : ℕ
  pub organization_id : ℕ
  pub sequence : ℕ
  pub event_type : String
  pub node : Option String
  pub payload_json : Fields
  pub safe_summary : String

pub record AgentApproval : Type 0 where
  pub run_id : ℕ
  pub organization_id : ℕ
  pub decision : String
  pub reviewer_user_id : ℕ
  pub comment : Option String
  pub revision : ℕ
