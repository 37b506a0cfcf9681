-- ===== src/Agents/Runtime/Approval/Gate.antt =====
-- What the approval gate lets through, and what it refuses.
use coolproof.Base.{
  ℕ, ◌==◌, ◌<>◌, eq_iff, ==→eq, ==-refl, String, str_eq, text_in, Bool, true, false, not, ◌≡◌, refl,
  Option, none, some, List, [], ◌∷◌, ◌++◌, inl, inr, Bool-cases, Option-cases, arith, if◌then◌else◌,
}
use coolproof.Platform.{Platform}
use coolproof.Failure.{Failure, Result, ok, err}
use coolproof.Db.Models.{Role, AgentRun, AgentRunStatus, AgentApproval, AgentEvent, AuditEvent}
use coolproof.Db.Query.{scalar}
use coolproof.Db.Query.Found.{scalar-save}
use coolproof.Db.Session.{Session}
use coolproof.Audit.{record_audit_event}
use coolproof.Agents.Runtime.Events.{add_event, save_run}
use coolproof.Agents.Runtime.Approval.{
  is_reviewer, is_waiting, decided_status, decision_refusal, unless_refused, decided_run,
  apply_decision, decide_run,
}

abbrev decisions : List String
decisions = "approve" ∷ "reject" ∷ "revise" ∷ []

-- The conditions under which a decision is taken.
pub record Permitted (run : AgentRun) (organization_id : ℕ) (role : Role) (decision : String)
    : Type 0 where
  pub reviewer : is_reviewer role ≡ true
  pub organization : run.organization_id ≡ organization_id
  pub waiting : is_waiting run.status ≡ true
  pub known : text_in decision decisions ≡ true

-- Four guards in a row that all let through.
four_guards :
    (a b c d : Bool) (w x y z : Failure)
    → (if not a
        then some w
        else if not b
        then some x
        else if not c
        then some y
        else if not d
        then some z
        else none)
      ≡ none
    → (a ≡ true) × (b ≡ true) × (c ≡ true) × (d ≡ true)
four_guards a b c d w x y z h = ground arith

module _ (run : AgentRun) (organization_id : ℕ) (role : Role) (decision : String) where
  decision_refusal-Permitted :
      decision_refusal run organization_id role decision ≡ none
      → Permitted run organization_id role decision
  unfolding decision_refusal
  decision_refusal-Permitted h =
      let (reviewer, organization, waiting, known) = four_guards _ _ _ _ _ _ _ _ h in
      record {
        reviewer = reviewer;
        organization = ==→eq run.organization_id organization_id organization;
        waiting = waiting;
        known = known;
      }

  Permitted-decision_refusal :
      Permitted run organization_id role decision
      → decision_refusal run organization_id role decision ≡ none
  unfolding decision_refusal
  Permitted-decision_refusal h =
      rw (h.reviewer, h.organization, ==-refl organization_id, h.waiting, h.known) refl

-- The status that each of the three words stands for.
pub data LeadsTo : String → AgentRunStatus → Type 0 where
  approve_leads : LeadsTo "approve" AgentRunStatus.approved
  reject_leads : LeadsTo "reject" AgentRunStatus.rejected
  revise_leads : LeadsTo "revise" AgentRunStatus.queued

-- What a permitted decision leaves, with the run and the approval row that it answers: the run is as it
-- was but for its status, and so is the stored one; the row says who decided what on which revision, and
-- it is added with one event of the run and one entry of the audit trail; all is durable.
pub record IsRecorded (run : AgentRun) (organization_id reviewer : ℕ) (decision : String)
    (comment : Option String) (before : Session) (approval : AgentApproval) (decided : AgentRun)
    (after : Session) : Type 0 where
  pub status :
      (status : AgentRunStatus) × LeadsTo decision status
      × (decided ≡ record run { status = status })
  pub of_run : approval.run_id ≡ run.id
  pub of_organization : approval.organization_id ≡ organization_id
  pub by_reviewer : approval.reviewer_user_id ≡ reviewer
  pub of_decision : approval.decision ≡ decision
  pub with_comment : approval.comment ≡ comment
  pub revision : approval.revision ≡ run.revision
  pub added : after.tables.agent_approvals ≡ before.tables.agent_approvals ++ (approval ∷ [])
  pub stored :
      (row : AgentRun)
      → scalar (λ r. r.id == run.id) before.tables.agent_runs ≡ some row
      → scalar (λ r. r.id == run.id) after.tables.agent_runs ≡ some decided
  pub noted :
      (event : AgentEvent) × (after.tables.agent_events
        ≡ before.tables.agent_events ++ (event ∷ []))
      × (event.run_id ≡ run.id)
  pub audited :
      (entry : AuditEvent) × (after.tables.audit_events
        ≡ before.tables.audit_events ++ (entry ∷ []))
      × (entry.event_type ≡ "agent_run." <> decision)
      × (entry.actor_user_id ≡ some reviewer)
  pub durable : after.durable ≡ after.tables

decided_status-LeadsTo :
    (decision : String)
    → text_in decision decisions ≡ true
    → LeadsTo decision (decided_status decision)
unfolding text_in
decided_status-LeadsTo decision h = elim (Bool-cases (str_eq decision "approve")) [
  | inl a ↦ rw ((eq_iff decision "approve").0 a) approve_leads
  | inr not_a ↦ elim (Bool-cases (str_eq decision "reject")) [
    | inl r ↦ rw ((eq_iff decision "reject").0 r) reject_leads
    | inr not_r ↦ elim (Bool-cases (str_eq decision "revise")) [
      | inl v ↦ rw ((eq_iff decision "revise").0 v) revise_leads
      | inr not_v ↦ absurd (ground (arith, not_a, not_r, not_v, h))
    ]
  ]
]

module _ (p : Platform) (now : ℕ) (run : AgentRun) (organization_id reviewer : ℕ) (role : Role)
    (decision : String) (comment : Option String) (s : Session) where
  abbrev taken : Result (AgentApproval × AgentRun) × Session
  taken = decide_run p now run organization_id reviewer role decision comment s

  abbrev Recorded : AgentApproval → AgentRun → Session → Type 0
  Recorded = IsRecorded run organization_id reviewer decision comment s

  apply_decision-IsRecorded :
      text_in decision decisions ≡ true
      → let (approval, decided, s') =
          apply_decision p now run organization_id reviewer decision comment s in
        Recorded approval decided s'
  unfolding apply_decision add_event save_run record_audit_event
  apply_decision-IsRecorded known = record {
    status = (decided_status decision, decided_status-LeadsTo decision known, refl);
    of_run = refl;
    of_organization = refl;
    by_reviewer = refl;
    of_decision = refl;
    with_comment = refl;
    revision = refl;
    added = refl;
    stored = λ row found.
        scalar-save (λ (r : AgentRun). r.id) run.id row (decided_run run decision)
          s.tables.agent_runs refl found;
    noted = (_, refl, refl);
    audited = (_, refl, refl, refl);
    durable = refl;
  }

  permitted_outcome :
      (refusal : Option Failure)
      → refusal ≡ none
      → text_in decision decisions ≡ true
      → (approval : AgentApproval) × (decided : AgentRun) × (s' : Session) × (unless_refused refusal
            s
            (apply_decision p now run organization_id reviewer decision comment s)
          ≡ (ok (approval, decided), s'))
        × Recorded approval decided s'
  unfolding apply_decision
  permitted_outcome none h known = (_, _, _, refl, apply_decision-IsRecorded known)
  permitted_outcome (some e) h known = absurd (cc h)

  -- Every decision of a manager or an admin on a run of the reviewer's own organization that is waiting for
  -- approval, with one of the three words, is taken. The run answered, and stored if it was, is the run with
  -- the status approved, rejected or queued for approve, reject or revise. One approval row with the
  -- decision, the reviewer, the comment and the run's revision is added, one event of the run and one entry
  -- of the audit trail, and the session is durable.
  pub decide_run-Permitted :
      Permitted run organization_id role decision
      → (approval : AgentApproval) × (decided : AgentRun) × (s' : Session) × (taken
          ≡ (ok (approval, decided), s'))
        × Recorded approval decided s'
  unfolding decide_run
  decide_run-Permitted h =
      permitted_outcome _ (Permitted-decision_refusal run organization_id role decision h) h.known

  refused_outcome :
      (refusal : Option Failure) (applied : AgentApproval × AgentRun × Session) (e : Failure)
      (s' : Session)
      → unless_refused refusal s applied ≡ (err e, s')
      → (s ≡ s') × (refusal ≡ some e)
  refused_outcome (some f) (approval, run', t) e s' h = (cc h, cc h)
  refused_outcome none (approval, run', t) e s' h = absurd (cc h)

  -- A decision that raises changes nothing, not even in the session, and was not permitted.
  pub decide_run_refused :
      (e : Failure) (s' : Session)
      → taken ≡ (err e, s')
      → (s ≡ s') × (Permitted run organization_id role decision → ⊥)
  unfolding decide_run
  decide_run_refused e s' h =
      let (same, refused) = refused_outcome _ _ e s' h in
      (
        same,
        λ allowed.
            absurd
              (cc (Permitted-decision_refusal run organization_id role decision allowed, refused)),
      )

refusal_outcome :
    (refusal : Option Failure) (s : Session) (applied : AgentApproval × AgentRun × Session)
    (e : Failure)
    → refusal ≡ some e
    → unless_refused refusal s applied ≡ (err e, s)
refusal_outcome (some f) s (approval, run', t) e h = cc h
refusal_outcome none s (approval, run', t) e h = absurd (cc h)

-- The status that a decision leads to is never the one that it waits for.
decided_not_waiting : (decision : String) → is_waiting (decided_status decision) ≡ false
decided_not_waiting decision = elim (Bool-cases (str_eq decision "approve")) [
  | inl h ↦ rw h refl
  | inr h ↦
      rw h (elim (Bool-cases (str_eq decision "reject")) [ inl g ↦ rw g refl | inr g ↦ rw g refl ])
]

-- A decision is taken once: on the run that one decision leaves, no other decision of whatever
-- reviewer is permitted, so it raises and changes nothing.
pub decide_run_once :
    (p : Platform) (now : ℕ) (run : AgentRun) (organization_id reviewer : ℕ) (role : Role)
    (first second : String) (comment : Option String) (s : Session)
    → (e : Failure) × (decide_run p now
          (decided_run run first)
          organization_id
          reviewer
          role
          second
          comment
          s
        ≡ (err e, s))
unfolding decide_run
decide_run_once p now run organization_id reviewer role first second comment s =
    let run' = decided_run run first in
    elim (Option-cases (decision_refusal run' organization_id role second)) [
      | inr (e, h) ↦ (e, refusal_outcome _ s _ e h)
      | inl h ↦ absurd (
          cc (
            Permitted.waiting (decision_refusal-Permitted run' organization_id role second h),
            decided_not_waiting first,
          ))
    ]
