-- ===== src/Heat/Worker/Requeue.antt =====
-- A scheduled analysis is not lost: what a tick of the worker does with the entry that it takes.
use coolproof.Base.{
  ℕ, ◌==◌, ==→eq, String, Bool, true, false, ◌≡◌, refl, ap, ◌∙◌, ◌⊎◌, inl, inr, Option, none, some,
  List, Bool-cases, Option-cases,
}
use coolproof.Json.{Fields}
use coolproof.Platform.{Platform}
use coolproof.Failure.{Result, ok, err, forty_guard_error}
use coolproof.Audit.{record_audit_event}
use coolproof.Auth.Claims.{present}
use coolproof.Db.Models.{
  HeatAnalysis, HeatAnalysisStatus, queued, running, succeeded, failed, FortyGuardActivity,
  ProviderCircuit,
}
use coolproof.Db.Query.{scalar, scalar_sound}
use coolproof.Db.Query.Found.{scalar-save}
use coolproof.Db.Session.{Session, Tables, open_session}
use coolproof.Heat.Service.{is_terminal, save_analysis, save_activity, activity_of}
use coolproof.Heat.Poll.{
  answered, polled_activity, retrying, close_circuit, trip_circuit, save_if_there, audited,
  on_answer, on_error, retry_or_fail, read_activity, poll_unless_blocked, poll, Polled,
  fortyguard_circuit, blocks,
}
use coolproof.Heat.Worker.{
  Queue, enqueue, unscheduled, requeue, after_poll, poll_queued_heat_analysis,
}

abbrev found : ℕ → List FortyGuardActivity → Option FortyGuardActivity
found id rows = scalar (λ r. r.analysis_id == id) rows

-- After a poll of the analysis `id`: it is over, or its activity has a next poll.
abbrev IsKept : ℕ → Polled → Type 0
IsKept id (err e, s) = Unit
IsKept id (ok a, s) =
    (a.id ≡ id)
    × ((is_terminal a.status ≡ true) ⊎ (unscheduled (found id s.tables.activities) ≡ false))

id-answered :
    (now ttl : ℕ) (status : HeatAnalysisStatus) (result : Option Fields) (a : HeatAnalysis)
    → (answered now ttl status result a).id ≡ a.id
id-answered now ttl succeeded result a = refl
id-answered now ttl queued result a = refl
id-answered now ttl running result a = refl
id-answered now ttl failed result a = refl

status-answered :
    (now ttl : ℕ) (status : HeatAnalysisStatus) (result : Option Fields) (a : HeatAnalysis)
    → (answered now ttl status result a).status ≡ status
status-answered now ttl succeeded result a = refl
status-answered now ttl queued result a = refl
status-answered now ttl running result a = refl
status-answered now ttl failed result a = refl

activities-close_circuit :
    (c : Option ProviderCircuit) (s : Session)
    → (close_circuit c s).tables.activities ≡ s.tables.activities
activities-close_circuit none s = refl
activities-close_circuit (some c) s = refl

activities-trip_circuit :
    (now : ℕ) (c : Option ProviderCircuit) (s : Session)
    → (trip_circuit now c s).tables.activities ≡ s.tables.activities
activities-trip_circuit now none s = refl
activities-trip_circuit now (some c) s = refl

-- The activity that is written is the one that is found.
found-save_if_there :
    (f : FortyGuardActivity → FortyGuardActivity) (o : Option FortyGuardActivity)
    (act : FortyGuardActivity) (id : ℕ) (s : Session)
    → ((x : FortyGuardActivity) → (f x).analysis_id ≡ x.analysis_id)
    → o ≡ some act
    → found id s.tables.activities ≡ some act
    → found id (save_if_there f o s).tables.activities ≡ some (f act)
unfolding save_activity
found-save_if_there f none act id s same h stored = absurd (cc h)
found-save_if_there f (some x) act id s same h stored =
    let x_is : x ≡ act = cc h in
    let of_id : act.analysis_id ≡ id =
      scalar_sound (λ r. r.analysis_id ≡ id) (λ r. r.analysis_id == id) s.tables.activities
        (λ r e. ==→eq r.analysis_id id e) stored in
    rw x_is (
      scalar-save (λ r. r.analysis_id) id act (f act) s.tables.activities (same act ∙ of_id) stored)

unscheduled-polled_activity :
    (now : ℕ) (status : HeatAnalysisStatus) (raw : Fields) (act : FortyGuardActivity)
    → (is_terminal status ≡ true)
      ⊎ (unscheduled (some (polled_activity now status raw act)) ≡ false)
unscheduled-polled_activity now succeeded raw act = inl refl
unscheduled-polled_activity now failed raw act = inl refl
unscheduled-polled_activity now queued raw act = inr refl
unscheduled-polled_activity now running raw act = inr refl

module _ (p : Platform) (max_attempts ttl now : ℕ) where
  activities-audited :
      (changed : Bool) (event : String) (metadata : Fields) (a : HeatAnalysis) (s : Session)
      → (audited p max_attempts ttl now changed event metadata a s).tables.activities
        ≡ s.tables.activities
  unfolding audited record_audit_event
  activities-audited true event metadata a s = refl
  activities-audited false event metadata a s = refl

  module _ (a : HeatAnalysis) (act : FortyGuardActivity) where
    on_answer-IsKept :
        (c : Option ProviderCircuit) (raw : Fields) (status : HeatAnalysisStatus)
        (result : Option Fields) (s : Session)
        → found a.id s.tables.activities ≡ some act
        → let r = on_answer p max_attempts ttl now a c raw status result s in
          IsKept a.id (ok r.0, r.1)
    unfolding on_answer save_analysis activity_of
    on_answer-IsKept c raw status result s stored =
        let a' = answered now ttl status result a in
        let same : a'.id ≡ a.id = id-answered now ttl status result a in
        let known : found a'.id s.tables.activities ≡ some act =
          ap (λ i. found i s.tables.activities) same ∙ stored in
        let written : found a.id
              (save_if_there (polled_activity now status raw) (activity_of a' (save_analysis a' s))
                (save_analysis a' s)).tables.activities
            ≡ some (polled_activity now status raw act) =
          found-save_if_there (polled_activity now status raw) _ act a.id (save_analysis a' s)
            (λ x. refl) known stored in
        (
          same,
          elim (unscheduled-polled_activity now status raw act) [
            | inl over ↦ inl (ap is_terminal (status-answered now ttl status result a) ∙ over)
            | inr scheduled ↦ inr (
                ap (λ rows. unscheduled (found a.id rows))
                  (activities-audited _ _ _ a' _ ∙ activities-close_circuit c _)
                ∙ ap unscheduled written
                ∙ scheduled)
          ],
        )

    retry_or_fail-IsKept :
        (retry : Bool) (code message : String) (o : Option FortyGuardActivity) (s : Session)
        → o ≡ some act
        → found a.id s.tables.activities ≡ some act
        → let r = retry_or_fail p max_attempts ttl now retry a code message o s in
          IsKept a.id (ok r.0, r.1)
    unfolding save_analysis
    retry_or_fail-IsKept true code message o s here stored = (
      refl,
      inr (
          ap unscheduled (found-save_if_there (retrying now) o act a.id s (λ x. refl) here stored)),
    )
    retry_or_fail-IsKept false code message o s here stored = (refl, inl refl)

    read_activity-IsKept :
        (c : Option ProviderCircuit) (s : Session)
        (r : Result (Fields × HeatAnalysisStatus × Option Fields))
        → found a.id s.tables.activities ≡ some act
        → IsKept a.id (read_activity p max_attempts ttl now a c s r)
    unfolding on_error activity_of
    read_activity-IsKept c s (ok (raw, status, result)) stored =
        on_answer-IsKept c raw status result s stored
    read_activity-IsKept c s (err (forty_guard_error code message retryable)) stored =
        let tripped : found a.id (trip_circuit now c s).tables.activities ≡ some act =
          ap (found a.id) (activities-trip_circuit now c s) ∙ stored in
        retry_or_fail-IsKept _ code message _ (trip_circuit now c s) tripped tripped
    read_activity-IsKept c s (err e) stored = tt

    unless_blocked-IsKept :
        (blocked : Bool) (answer : Result Fields) (s : Session)
        → found a.id s.tables.activities ≡ some act
        → unscheduled (some act) ≡ false
        → IsKept a.id (poll_unless_blocked p max_attempts ttl now blocked a answer s)
    unless_blocked-IsKept true answer s stored scheduled =
        (refl, inr (ap unscheduled stored ∙ scheduled))
    unless_blocked-IsKept false answer s stored scheduled =
        read_activity-IsKept (fortyguard_circuit s) s _ stored

    poll-IsKept :
        (answer : Result Fields) (s : Session)
        → found a.id s.tables.activities ≡ some act
        → unscheduled (some act) ≡ false
        → IsKept a.id (poll p max_attempts ttl now a answer s)
    unfolding poll
    poll-IsKept answer s stored scheduled = elim (Option-cases (present a.provider_activity_id)) [
      | inl none_ ↦ rw (none_, poll) (refl, inr (ap unscheduled stored ∙ scheduled))
      | inr (id, e) ↦
          rw (e, poll)
            (unless_blocked-IsKept (blocks now (fortyguard_circuit s)) answer s stored scheduled)
    ]

-- How a tick ends whose poll was `r`: both raise, or the analysis is over and its entry gone, or the
-- entry is at the end of the queue again.
abbrev pub NotLost : Platform → ℕ → Queue → Polled → Result Bool × Tables × Queue → Type 0
NotLost p id queue (err e, s) (processed, t, queue') = processed ≡ err e
NotLost p id queue (ok a, s) (processed, t, queue') =
    (processed ≡ ok true)
    × (((is_terminal a.status ≡ true) × (queue' ≡ queue)) ⊎ (queue' ≡ enqueue p id queue))

requeue_over :
    (p : Platform) (a : HeatAnalysis) (o : Option FortyGuardActivity) (queue : Queue)
    → is_terminal a.status ≡ true
    → requeue p a o queue ≡ queue
requeue_over p a o queue over = elim (Bool-cases (unscheduled o)) [
  | inl none_ ↦ rw none_ refl
  | inr some_ ↦ rw (some_, over) refl
]

requeue_scheduled :
    (p : Platform) (a : HeatAnalysis) (o : Option FortyGuardActivity) (queue : Queue)
    → unscheduled o ≡ false
    → ((is_terminal a.status ≡ true) × (requeue p a o queue ≡ queue))
      ⊎ (requeue p a o queue ≡ enqueue p a.id queue)
requeue_scheduled p a o queue scheduled = elim (Bool-cases (is_terminal a.status)) [
  | inl over ↦ inl (over, requeue_over p a o queue over)
  | inr open_ ↦ inr (rw (scheduled, open_) refl)
]

after_poll-NotLost :
    (p : Platform) (id : ℕ) (queue : Queue) (r : Polled)
    → IsKept id r
    → NotLost p id queue r (after_poll p queue r)
unfolding activity_of
after_poll-NotLost p id queue (err e, s) h = refl
after_poll-NotLost p id queue (ok a, s) (same, inl over) =
    (refl, inl (over, requeue_over p a _ queue over))
after_poll-NotLost p id queue (ok a, s) (same, inr scheduled) =
    let known : unscheduled (found a.id s.tables.activities) ≡ false =
      ap (λ i. unscheduled (found i s.tables.activities)) same ∙ scheduled in
    (
      refl,
      elim (requeue_scheduled p a (found a.id s.tables.activities) queue known) [
        | inl over ↦ inl over
        | inr again ↦ inr (again ∙ ap (λ i. enqueue p i queue) same)
      ],
    )

-- A queue entry whose analysis is stored, with an activity that has a next poll, is not lost: its tick
-- raises what the poll raises, or the analysis is over, or the entry is at the end of the queue again.
pub poll_queued_heat_analysis-NotLost :
    (p : Platform) (max_attempts ttl now : ℕ) (answer : HeatAnalysis → Result Fields) (t : Tables)
    (queue : Queue) (a : HeatAnalysis) (act : FortyGuardActivity)
    → scalar (λ (r : HeatAnalysis). r.id == a.id) t.heat_analyses ≡ some a
    → scalar (λ (r : FortyGuardActivity). r.analysis_id == a.id) t.activities ≡ some act
    → unscheduled (some act) ≡ false
    → NotLost p a.id queue
        (poll p max_attempts ttl now a (answer a) (open_session t))
        (poll_queued_heat_analysis p max_attempts ttl now answer a.id t queue)
unfolding poll_queued_heat_analysis
poll_queued_heat_analysis-NotLost p max_attempts ttl now answer t queue a act stored_ active
      scheduled =
    rw stored_ (
      after_poll-NotLost p a.id queue (poll p max_attempts ttl now a (answer a) (open_session t))
        (poll-IsKept p max_attempts ttl now a act (answer a) (open_session t) active scheduled))
