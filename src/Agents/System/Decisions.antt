-- ===== src/Agents/System/Decisions.antt =====
-- The approval gate keeps the invariant: a run becomes approved together with its approval row.
use coolproof.Base.{
  ℕ, ◌<>◌, String, str_eq, ◌≡◌, refl, true, Option, none, List, [], ◌∷◌, ◌++◌, All, arith,
  Bool-cases, inl, inr,
}
use coolproof.Json.{end}
use coolproof.Platform.{Platform}
use coolproof.Audit.{record_audit_event}
use coolproof.Db.Models.{AgentRun, AgentApproval}
use coolproof.Db.Session.{Session}
use coolproof.Agents.Runtime.Events.{add_event, save_run}
use coolproof.Agents.Runtime.Approval.{
  apply_decision, decided_run, approval_of, add_approval, decision_event,
}
use coolproof.Agents.System.Governed.{
  has_approval, Covered, GovernedTables, Governed, add_event-Governed, save_run-Governed,
}

has_approval-append :
    (run_id : ℕ) (approvals more : List AgentApproval)
    → has_approval run_id approvals ≡ true
    → has_approval run_id (approvals ++ more) ≡ true
unfolding has_approval
has_approval-append run_id [] more h = cc
has_approval-append run_id (a ∷ rest) more h = ground (arith, has_approval-append run_id rest more)

has_approval-snoc :
    (run_id : ℕ) (approvals : List AgentApproval) (a : AgentApproval)
    → a.run_id ≡ run_id
    → str_eq a.decision "approve" ≡ true
    → has_approval run_id (approvals ++ a ∷ []) ≡ true
unfolding has_approval
has_approval-snoc run_id [] a e d = ground arith
has_approval-snoc run_id (b ∷ rest) a e d = ground (arith, has_approval-snoc run_id rest a)

All-Covered-append :
    (approvals more : List AgentApproval) (runs : List AgentRun)
    → All (Covered approvals) runs
    → All (Covered (approvals ++ more)) runs
All-Covered-append approvals more [] h = tt
All-Covered-append approvals more (r ∷ rs) h = (
  (λ past. has_approval-append r.id approvals more (h.0 past)),
  All-Covered-append approvals more rs h.1,
)

module _ (p : Platform) (now : ℕ) (run : AgentRun) (organization_id reviewer : ℕ)
    (decision : String) (comment : Option String) where
  decided_run-Covered :
      (approvals : List AgentApproval)
      → Covered
          (approvals ++ approval_of run organization_id reviewer decision comment ∷ [])
          (decided_run run decision)
  decided_run-Covered approvals past = elim (Bool-cases (str_eq decision "approve")) [
    | inl approve ↦ has_approval-snoc run.id approvals _ refl approve
    | inr other ↦ ground arith
  ]

  noted_session : Session → Session
  noted_session s =
      add_event (decided_run run decision) (decision_event decision) none end
        ("Run " <> decision <> "d")
        (save_run (decided_run run decision)
          (add_approval (approval_of run organization_id reviewer decision comment) s))

  noted_session-Governed : (s : Session) → Governed s → Governed (noted_session s)
  unfolding noted_session
  noted_session-Governed s g =
      let approval = approval_of run organization_id reviewer decision comment in
      add_event-Governed (decided_run run decision) (decision_event decision) none end _ _ (
        save_run-Governed (decided_run run decision) (add_approval approval s)
          (decided_run-Covered s.tables.agent_approvals)
          (record {
            now = record {
              covered =
                  All-Covered-append s.tables.agent_approvals (approval ∷ []) s.tables.agent_runs
                    g.now.covered;
              numbered = g.now.numbered;
            };
            stored = g.stored;
          }))

  pub apply_decision-Governed :
      (s : Session)
      → Governed s
      → Governed (apply_decision p now run organization_id reviewer decision comment s).2
  unfolding apply_decision record_audit_event noted_session
  apply_decision-Governed s g =
      let noted = noted_session-Governed s g in
      let tables : GovernedTables _ = record {
        covered = noted.now.covered;
        numbered = noted.now.numbered;
      } in
      record { now = tables; stored = tables }

  -- The run that comes back from a decision is covered by the approvals that are then there.
  pub apply_decision-Covered :
      (s : Session)
      → let (approval, run', s') =
          apply_decision p now run organization_id reviewer decision comment s in
        Covered s'.tables.agent_approvals run'
  unfolding apply_decision record_audit_event add_event save_run
  apply_decision-Covered s = decided_run-Covered s.tables.agent_approvals
