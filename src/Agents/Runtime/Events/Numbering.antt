-- ===== src/Agents/Runtime/Events/Numbering.antt =====
-- The events of a run are numbered 1, 2, 3, … in the order in which they were added.
use coolproof.Base.{
  ℕ, zero, suc, ◌+◌, ◌-◌, ◌≤◌, ◌<◌, ◌==◌, ltb, max, String, ◌≡◌, refl, sym, ap, ◌∙◌, Option, List,
  [], ◌∷◌, ◌++◌, keep, keep-append, length, drop, arith, if◌then◌else◌, Bool-cases, inl, inr, ==→eq,
  ltb→lt, le_of_ltb-false, keep-cons, keep-nil, keep-one, keep-none, keep-and, drop-nil, append-nil,
}
use coolproof.Json.{Fields}
use coolproof.Db.Models.{AgentRun, AgentEvent}
use coolproof.Db.Query.{ascending, ascending_sorted, IsAscending, IsAscending-drop}
use coolproof.Db.Session.{Session}
use coolproof.Agents.Runtime.Events.{max_sequence, add_event, stream_events}

-- The events of one run, oldest first.
abbrev pub events_of : ℕ → List AgentEvent → List AgentEvent
events_of run_id es = keep (λ e. e.run_id == run_id) es

abbrev pub sequences : List AgentEvent → List ℕ
sequences [] = []
sequences (e ∷ es) = e.sequence ∷ sequences es

-- k, k + 1, …, n numbers in all.
abbrev pub count_up : ℕ → ℕ → List ℕ
count_up k zero = []
count_up k (suc n) = k ∷ count_up (suc k) n

abbrev pub IsNumbered : ℕ → List AgentEvent → Type 0
IsNumbered run_id es = sequences (events_of run_id es) ≡ count_up 1 (length (events_of run_id es))

sequences-append : (xs ys : List AgentEvent) → sequences (xs ++ ys) ≡ sequences xs ++ sequences ys
sequences-append [] ys = refl
sequences-append (x ∷ xs) ys = ap (x.sequence ∷◌) (sequences-append xs ys)

count_up-snoc : (k n : ℕ) → count_up k n ++ (k + n) ∷ [] ≡ count_up k (suc n)
count_up-snoc k zero = ap (λ (m : ℕ). m ∷ []) (omega arith)
count_up-snoc k (suc n) =
    ap (λ ms. k ∷ ms)
      (ap (λ (m : ℕ). count_up (suc k) n ++ m ∷ []) (omega arith) ∙ count_up-snoc (suc k) n)

abbrev largest : List ℕ → ℕ
largest [] = 0
largest (n ∷ ns) = max n (largest ns)

largest-count_up : (k n : ℕ) → largest (count_up (suc k) n) ≡ (if n == 0 then 0 else k + n)
largest-count_up k zero = refl
largest-count_up k (suc n) = ground (arith, largest-count_up (suc k) n)

max_sequence-eq :
    (run_id : ℕ) (es : List AgentEvent)
    → max_sequence run_id es ≡ largest (sequences (events_of run_id es))
unfolding max_sequence keep
max_sequence-eq run_id [] = refl
max_sequence-eq run_id (e ∷ es) = ground (arith, max_sequence-eq run_id es)

-- On numbered events the largest number is their count.
pub max_sequence-IsNumbered :
    (run_id : ℕ) (es : List AgentEvent)
    → IsNumbered run_id es
    → max_sequence run_id es ≡ length (events_of run_id es)
max_sequence-IsNumbered run_id es h =
    max_sequence-eq run_id es
    ∙ ap largest h
    ∙ largest-count_up 0 (length (events_of run_id es))
    ∙ ground arith

numbered-snoc :
    (k : ℕ) (es : List AgentEvent) (e : AgentEvent)
    → sequences es ≡ count_up k (length es)
    → e.sequence ≡ k + length es
    → sequences (es ++ e ∷ []) ≡ count_up k (length (es ++ e ∷ []))
numbered-snoc k [] e h next = ap (λ (n : ℕ). n ∷ []) (omega (arith, next))
numbered-snoc k (x ∷ es) e h next = ground (arith, numbered-snoc (suc k) es e)

-- An event that is appended is numbered next in its run, and leaves every other run alone.
append-IsNumbered :
    (run_id : ℕ) (es : List AgentEvent) (e : AgentEvent)
    → e.sequence ≡ max_sequence e.run_id es + 1
    → IsNumbered run_id es
    → IsNumbered run_id (es ++ e ∷ [])
append-IsNumbered run_id es e next h = elim (Bool-cases (e.run_id == run_id)) [
  | inl own ↦
      rw (keep-append _ es (e ∷ []), keep-one _ e own)
        (numbered-snoc 1 (events_of run_id es) e h (
          omega (
            arith,
            next,
            ap (λ (i : ℕ). max_sequence i es) (==→eq e.run_id run_id own),
            max_sequence-IsNumbered run_id es h,
          )))
  | inr other ↦ rw (keep-append _ es (e ∷ []), keep-none _ e other, append-nil) h
]

pub add_event-IsNumbered :
    (run_id : ℕ) (run : AgentRun) (event_type : String) (at : Option String) (payload : Fields)
    (summary : String) (s : Session)
    → IsNumbered run_id s.tables.agent_events
    → IsNumbered run_id (add_event run event_type at payload summary s).tables.agent_events
unfolding add_event
add_event-IsNumbered run_id run event_type at payload summary s h =
    append-IsNumbered run_id s.tables.agent_events _ refl h

-- Events numbered from k + 1 on: those after `k + n` are the ones behind the first n.
keep-after :
    (after k : ℕ) (es : List AgentEvent)
    → sequences es ≡ count_up (suc k) (length es)
    → keep (λ e. ltb after e.sequence) es ≡ drop (after - k) es
keep-after after k [] h = rw keep-nil (sym (drop-nil (after - k)))
keep-after after k (e ∷ es) h =
    let first : e.sequence ≡ suc k = ground arith in
    let rest : keep (λ x. ltb after x.sequence) es ≡ drop (after - suc k) es =
      keep-after after (suc k) es (ground arith) in
    elim (Bool-cases (ltb after e.sequence)) [
      | inl later ↦
          let before : after < suc k = omega (arith, first, ltb→lt after e.sequence later) in
          let all : after - k ≡ 0 = omega arith in
          let none_dropped : after - suc k ≡ 0 = omega arith in
          rw (keep-cons, later, rest, all, none_dropped)
      | inr earlier ↦
          let past : suc k ≤ after =
            omega (arith, first, le_of_ltb-false after e.sequence earlier) in
          let one_more : after - k ≡ suc (after - suc k) = omega arith in
          rw (keep-cons, earlier, rest, one_more)
    ]

numbered-IsAscending :
    (k : ℕ) (es : List AgentEvent)
    → sequences es ≡ count_up k (length es)
    → IsAscending (λ e. e.sequence) es
numbered-IsAscending k [] h = tt
numbered-IsAscending k (x ∷ []) h = tt
numbered-IsAscending k (x ∷ y ∷ es) h = ground (arith, numbered-IsAscending (suc k) (y ∷ es))

-- A client that has seen the first `after` events of a run gets exactly the events behind them, in
-- their order.
pub stream_events-eq-drop :
    (run_id after : ℕ) (s : Session)
    → IsNumbered run_id s.tables.agent_events
    → stream_events run_id after s ≡ drop after (events_of run_id s.tables.agent_events)
unfolding stream_events
stream_events-eq-drop run_id after s h =
    let own = events_of run_id s.tables.agent_events in
    ap (ascending (λ e. e.sequence)) (
      sym (keep-and _ _ s.tables.agent_events)
      ∙ keep-after after 0 own h
      ∙ ap (λ (n : ℕ). drop n own) (omega arith))
    ∙ ascending_sorted (λ e. e.sequence) (drop after own)
        (IsAscending-drop _ after own (numbered-IsAscending 1 own h))
