-- ===== src/Tests/Data.antt =====
-- The concrete values of the tests.
use coolproof.Base.{ℕ, zero, suc, String, text_length, ◌≡◌, refl, ap, true, none, some, [], ◌∷◌}
use coolproof.Json.{Value, str, uuid, end, dict}
use coolproof.Platform.{Platform, IsFaithful}
use coolproof.Failure.{ok}
use coolproof.Db.Models.{manager, Organization, User, Membership, AgentRun, AgentRunStatus}
use coolproof.Db.Session.{Session, Tables, no_tables, open_session}
use coolproof.Auth.Tenancy.{TenantContext}
use coolproof.Agents.Providers.{LlmProvider}

-- UUIDs are written in unary.
abbrev pub unary : ℕ → String
unary zero = ""
unary (suc n) = String.◌∷◌ "i" (unary n)

length-unary : (n : ℕ) → text_length (unary n) ≡ n
length-unary zero = refl
length-unary (suc n) = ap suc (length-unary n)

abbrev pub text_of : Value → String
text_of (str s) = s
text_of (uuid u) = unary u
text_of _ = ""

abbrev pub plain : Platform
plain = record {
  to_text = text_of;
  parse_uuid = λ s. some (text_length s);
  isoformat = unary;
  collates = λ a b. true;
  casefold = λ s. s;
  strip = λ s. s;
  lower = λ s. s;
  parse_int = λ s. none;
}

pub plain-IsFaithful : IsFaithful plain
plain-IsFaithful = record { text_self = λ s. refl; parse-show = λ u. ap some (length-unary u) }

abbrev pub city : Organization
city = record { id = 1; name = "City"; slug = "city" }

abbrev pub ada : User
ada = record { id = 5; cognito_subject = "ada"; email = none }

abbrev pub ada_manages : Membership
ada_manages = record { id = 3; organization_id = 1; user_id = 5; role = manager }

abbrev pub boss : TenantContext
boss = record { organization = city; user = ada; membership = ada_manages }

abbrev pub staffed : Tables
staffed = record no_tables {
  organizations = city ∷ [];
  users = ada ∷ [];
  memberships = ada_manages ∷ [];
}

abbrev pub empty_session : Session
empty_session = open_session no_tables

-- A run of the city that waits at the gate.
abbrev pub waiting_run : AgentRun
waiting_run = record {
  id = 7;
  organization_id = 1;
  project_id = none;
  thread_id = "t";
  status = AgentRunStatus.waiting_approval;
  input_json = end;
  state_json = end;
  current_node = some "verification";
  revision = 4;
  error_code = none;
  error_message = none;
}

-- A provider that adds a summary, a citation and a fact of its own.
abbrev pub loud_provider : LlmProvider
loud_provider = record {
  name = "loud";
  complete = λ agent context. ok (record {
    summary = "Buy now";
    citations = "made-up" ∷ [];
    facts = dict (("agent", str agent) ∷ ("note", str "secret") ∷ []);
    confidence = 0;
    needs_approval = true;
  });
}
