-- ===== src/Db/Session.antt =====
-- The session: what its statements see (autoflush shows pending objects to queries), and what
-- commits have made durable. A session that is closed loses what is not durable.
use coolproof.Base.{List, []}
use coolproof.Db.Models.{
  Organization, User, Membership, AuditEvent, Project, Zone, HeatAnalysis, FortyGuardActivity,
  ProviderCircuit, AgentRun, AgentEvent, AgentApproval,
}
use coolproof.Db.Evidence.{
  Document, DocumentChunk, Intervention, InterventionEvidence, PortfolioRun, PortfolioAllocation,
  VerificationRun,
}

pub record Tables : Type 0 where
  pub organizations : List Organization
  pub users : List User
  pub memberships : List Membership
  pub audit_events : List AuditEvent
  pub projects : List Project
  pub zones : List Zone
  pub heat_analyses : List HeatAnalysis
  pub activities : List FortyGuardActivity
  pub circuits : List ProviderCircuit
  pub agent_runs : List AgentRun
  pub agent_events : List AgentEvent
  pub agent_approvals : List AgentApproval
  pub documents : List Document
  pub chunks : List DocumentChunk
  pub interventions : List Intervention
  pub evidence : List InterventionEvidence
  pub portfolio_runs : List PortfolioRun
  pub portfolio_allocations : List PortfolioAllocation
  pub verification_runs : List VerificationRun

pub record Session : Type 0 where
  pub tables : Tables
  pub durable : Tables

-- `session.commit()`
abbrev pub commit : Session → Session
commit s = record s { durable = s.tables }

-- The end of the request: pending changes are lost.
abbrev pub close : Session → Session
close s = record s { tables = s.durable }

abbrev pub no_tables : Tables
no_tables = record {
  organizations = [];
  users = [];
  memberships = [];
  audit_events = [];
  projects = [];
  zones = [];
  heat_analyses = [];
  activities = [];
  circuits = [];
  agent_runs = [];
  agent_events = [];
  agent_approvals = [];
  documents = [];
  chunks = [];
  interventions = [];
  evidence = [];
  portfolio_runs = [];
  portfolio_allocations = [];
  verification_runs = [];
}

-- A session over stored tables, with nothing pending.
abbrev pub open_session : Tables → Session
open_session t = record { tables = t; durable = t }
