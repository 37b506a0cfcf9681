-- ===== src/Audit.antt =====
-- app/services/audit.py: the audit trail.
use coolproof.Base.{ℕ, String, Option, [], ◌∷◌, ◌++◌}
use coolproof.Json.{uuid, Fields}
use coolproof.Platform.{Platform}
use coolproof.Db.Session.{Session}

-- `record_audit_event(...)`, at the clock `now`.
unfoldable pub record_audit_event :
    Platform → ℕ → ℕ → Option ℕ → String → String → ℕ → Fields → Session → Session
record_audit_event p now organization_id actor event_type resource_type resource_id metadata s =
    let t = s.tables in
    record s {
      tables = record t {
        audit_events =
            t.audit_events
            ++ (record {
              organization_id = organization_id;
              actor_user_id = actor;
              event_type = event_type;
              resource_type = resource_type;
              resource_id = p.to_text (uuid resource_id);
              metadata_json = metadata;
              occurred_at = now;
            }
                ∷ []);
      };
    }
