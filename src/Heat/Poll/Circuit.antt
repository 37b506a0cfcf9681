-- ===== src/Heat/Poll/Circuit.antt =====
-- The circuit that `poll` keeps in the database: its shape, and what it stops.
use coolproof.Base.{
  ℕ, leb, String, Bool, true, false, ◌≡◌, refl, ap, ◌∙◌, Option, none, some, is_some, List, [], ◌∷◌,
  All, All-append, arith, Option-cases, inl, inr,
}
use coolproof.Json.{Fields}
use coolproof.Platform.{Platform}
use coolproof.Failure.{Result, ok, err, forty_guard_error}
use coolproof.Audit.{record_audit_event}
use coolproof.Auth.Claims.{present}
use coolproof.Db.Models.{HeatAnalysis, HeatAnalysisStatus, FortyGuardActivity, ProviderCircuit}
use coolproof.Db.Session.{Session, Tables}
use coolproof.Heat.Service.{save_analysis, save_activity}
use coolproof.Heat.Poll.{
  fortyguard_circuit, blocks, closed_circuit, new_circuit, tripped_circuit, save_named,
  close_circuit, trip_circuit, save_if_there, audited, on_answer, on_error, answered, retry_or_fail,
  read_activity, poll_unless_blocked, poll,
}

-- The circuit is open exactly from the third failure in a row on, and has an end exactly if it is open.
pub record IsConsistent (c : ProviderCircuit) : Type 0 where
  pub open_from_three : c.is_open ≡ leb 3 c.consecutive_failures
  pub ends_if_open : is_some c.open_until ≡ c.is_open

tripped-IsConsistent : (now : ℕ) (c : ProviderCircuit) → IsConsistent (tripped_circuit now c)
unfolding tripped_circuit
tripped-IsConsistent now c = record { open_from_three = refl; ends_if_open = ground arith }

closed-IsConsistent : (c : ProviderCircuit) → IsConsistent (closed_circuit c)
closed-IsConsistent c = record { open_from_three = refl; ends_if_open = refl }

save_named-All :
    (P : ProviderCircuit → Type 0) (c : ProviderCircuit) (rows : List ProviderCircuit)
    → P c
    → All P rows
    → All P (save_named c rows)
unfolding save_named
save_named-All P c [] pc h = tt
save_named-All P c (x ∷ xs) pc h = ground (arith, save_named-All P c xs pc h.1)

-- All circuits of the tables are consistent.
abbrev pub AllConsistent : Tables → Type 0
AllConsistent t = All IsConsistent t.circuits

trip-AllConsistent :
    (now : ℕ) (c : Option ProviderCircuit) (s : Session)
    → AllConsistent s.tables
    → AllConsistent (trip_circuit now c s).tables
trip-AllConsistent now none s h =
    All-append IsConsistent s.tables.circuits _ h (tripped-IsConsistent now new_circuit, tt)
trip-AllConsistent now (some c) s h =
    save_named-All IsConsistent _ s.tables.circuits (tripped-IsConsistent now c) h

close-AllConsistent :
    (c : Option ProviderCircuit) (s : Session)
    → AllConsistent s.tables
    → AllConsistent (close_circuit c s).tables
close-AllConsistent none s h = h
close-AllConsistent (some c) s h =
    save_named-All IsConsistent _ s.tables.circuits (closed-IsConsistent c) h

circuits-save_if_there :
    (f : FortyGuardActivity → FortyGuardActivity) (o : Option FortyGuardActivity) (s : Session)
    → (save_if_there f o s).tables.circuits ≡ s.tables.circuits
unfolding save_activity
circuits-save_if_there f none s = refl
circuits-save_if_there f (some activity) s = refl

circuits-audited :
    (p : Platform) (max_attempts ttl now : ℕ) (changed : Bool) (event : String) (metadata : Fields)
    (a : HeatAnalysis) (s : Session)
    → (audited p max_attempts ttl now changed event metadata a s).tables.circuits
      ≡ s.tables.circuits
unfolding audited record_audit_event
circuits-audited p max_attempts ttl now true event metadata a s = refl
circuits-audited p max_attempts ttl now false event metadata a s = refl

module _ (p : Platform) (max_attempts ttl now : ℕ) where
  circuits-retry_or_fail :
      (retry : Bool) (a : HeatAnalysis) (code message : String)
      (activity : Option FortyGuardActivity) (s : Session)
      → (retry_or_fail p max_attempts ttl now retry a code message activity s).1.tables.circuits
        ≡ s.tables.circuits
  unfolding save_analysis
  circuits-retry_or_fail true a code message activity s = circuits-save_if_there _ activity s
  circuits-retry_or_fail false a code message activity s =
      circuits-audited p max_attempts ttl now _ _ _ _ _

  pub circuits-on_error :
      (a : HeatAnalysis) (c : Option ProviderCircuit) (code message : String) (retryable : Bool)
      (s : Session)
      → (on_error p max_attempts ttl now a c code message retryable s).1.tables.circuits
        ≡ (trip_circuit now c s).tables.circuits
  unfolding on_error
  circuits-on_error a c code message retryable s =
      circuits-retry_or_fail _ a code message _ (trip_circuit now c s)

  circuits-close_circuit :
      (c : Option ProviderCircuit) (s t : Session)
      → s.tables.circuits ≡ t.tables.circuits
      → (close_circuit c s).tables.circuits ≡ (close_circuit c t).tables.circuits
  circuits-close_circuit none s t e = e
  circuits-close_circuit (some c) s t e = ap (save_named (closed_circuit c)) e

  circuits-on_answer :
      (a : HeatAnalysis) (c : Option ProviderCircuit) (raw : Fields) (status : HeatAnalysisStatus)
      (result : Option Fields) (s : Session)
      → (on_answer p max_attempts ttl now a c raw status result s).1.tables.circuits
        ≡ (close_circuit c s).tables.circuits
  unfolding on_answer save_analysis
  circuits-on_answer a c raw status result s =
      circuits-audited p max_attempts ttl now _ _ _ (answered now ttl status result a) _
      ∙ circuits-close_circuit c _ s (circuits-save_if_there _ _ _)

  read_activity-AllConsistent :
      (a : HeatAnalysis) (c : Option ProviderCircuit) (s : Session)
      (r : Result (Fields × HeatAnalysisStatus × Option Fields))
      → AllConsistent s.tables
      → AllConsistent (read_activity p max_attempts ttl now a c s r).1.tables
  read_activity-AllConsistent a c s (ok (raw, status, result)) h =
      rw (circuits-on_answer a c raw status result s) (close-AllConsistent c s h)
  read_activity-AllConsistent a c s (err (forty_guard_error code message retryable)) h =
      rw (circuits-on_error a c code message retryable s) (trip-AllConsistent now c s h)
  read_activity-AllConsistent a c s (err e) h = h

  unless_blocked-AllConsistent :
      (blocked : Bool) (a : HeatAnalysis) (answer : Result Fields) (s : Session)
      → AllConsistent s.tables
      → AllConsistent (poll_unless_blocked p max_attempts ttl now blocked a answer s).1.tables
  unless_blocked-AllConsistent true a answer s h = h
  unless_blocked-AllConsistent false a answer s h =
      read_activity-AllConsistent a (fortyguard_circuit s) s _ h

  -- Whatever a poll meets and answers, the circuits stay consistent: open exactly from the third failure
  -- in a row on, and with an end exactly if open.
  pub poll-AllConsistent :
      (a : HeatAnalysis) (answer : Result Fields) (s : Session)
      → AllConsistent s.tables
      → AllConsistent (poll p max_attempts ttl now a answer s).1.tables
  unfolding poll
  poll-AllConsistent a answer s h = elim (Option-cases (present a.provider_activity_id)) [
    | inl none_ ↦ rw (none_, poll) h
    | inr (id, e) ↦
        rw (e, poll) (unless_blocked-AllConsistent (blocks now (fortyguard_circuit s)) a answer s h)
  ]
