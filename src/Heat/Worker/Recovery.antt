-- ===== src/Heat/Worker/Recovery.antt =====
-- What the recovery scan enqueues, and in which order the queue gives it back.
use mathlib.Core.List.{Perm}
use coolproof.Base.{
  ◌==◌, leb, leb→le, not, ◌⊎◌, inl, inr, Option-cases, none, drop, keep, ℕ, suc, zero, ◌≤◌, Bool,
  true, ◌&&◌, ◌≡◌, refl, sym, ap, ◌∙◌, Option, some, List, [], ◌∷◌, ◌++◌, append-nil, append_assoc,
  take, map, length, All, All-keep, arith,
}
use coolproof.Json.{uuid}
use coolproof.Platform.{Platform, IsFaithful}
use coolproof.Failure.{Result, ok}
use coolproof.Db.Models.{
  FortyGuardActivity, HeatAnalysis, HeatAnalysisStatus, queued, running, succeeded, failed,
}
use coolproof.Heat.Service.{is_terminal}
use coolproof.Db.Query.{scalar, order_by, All-order_by, IsAscending}
use coolproof.Db.Query.Sorted.{order_by_perm, order_by-IsAscending}
use coolproof.Db.Session.{Tables}
use coolproof.Heat.Worker.{
  Queue, time_or_zero, due_at, is_open_analysis, due_activities, enqueue, dequeue, enqueue_all,
  recover_due_heat_activities,
}

-- The activity's next poll is due, and its analysis is stored and neither succeeded nor failed.
pub record IsDue (t : Tables) (now : ℕ) (activity : FortyGuardActivity) : Type 0 where
  pub scheduled : (time : ℕ) × (activity.next_poll_at ≡ some time) × (time ≤ now)
  pub analysis :
      (a : HeatAnalysis) × (scalar (λ a. a.id == activity.analysis_id) t.heat_analyses ≡ some a)
      × ((a.status ≡ queued) ⊎ (a.status ≡ running))

All-take {ℓ} : {A : Type ℓ} (P : A → Type 0) (n : ℕ) (xs : List A) → All P xs → All P (take n xs)
All-take P zero xs h = tt
All-take P (suc n) [] h = tt
All-take P (suc n) (x ∷ xs) h = (h.0, All-take P n xs h.1)

length-take {ℓ} : {A : Type ℓ} (n : ℕ) (xs : List A) → length (take n xs) ≤ n
length-take zero xs = omega arith
length-take (suc n) [] = omega arith
length-take (suc n) (x ∷ xs) = omega (arith, length-take n xs)

both_true : (a b : Bool) → (a && b) ≡ true → (a ≡ true) × (b ≡ true)
both_true a b h = ground arith

due_at_sound :
    (now : ℕ) (o : Option ℕ) → due_at now o ≡ true → (time : ℕ) × (o ≡ some time) × (time ≤ now)
due_at_sound now none h = absurd (cc h)
due_at_sound now (some time) h = (time, refl, leb→le time now h)

not_terminal :
    (status : HeatAnalysisStatus)
    → not (is_terminal status) ≡ true
    → (status ≡ queued) ⊎ (status ≡ running)
not_terminal queued h = inl refl
not_terminal running h = inr refl
not_terminal succeeded h = absurd (cc h)
not_terminal failed h = absurd (cc h)

is_open_analysis_sound :
    (t : Tables) (activity : FortyGuardActivity)
    → is_open_analysis t activity ≡ true
    → (a : HeatAnalysis) × (scalar (λ a. a.id == activity.analysis_id) t.heat_analyses ≡ some a)
      × ((a.status ≡ queued) ⊎ (a.status ≡ running))
unfolding is_open_analysis
is_open_analysis_sound t activity h =
    elim (Option-cases (scalar (λ a. a.id == activity.analysis_id) t.heat_analyses)) [
      | inl missing ↦ absurd (cc (rw (missing, is_open_analysis) at h))
      | inr (a, found) ↦ (a, found, not_terminal a.status (rw (found, is_open_analysis) at h))
    ]

is_due : Tables → ℕ → FortyGuardActivity → Bool
is_due t now a = due_at now a.next_poll_at && is_open_analysis t a

is_due-IsDue :
    (t : Tables) (now : ℕ) (a : FortyGuardActivity) → is_due t now a ≡ true → IsDue t now a
unfolding is_due
is_due-IsDue t now a h =
    let (due, still_open) = both_true _ _ h in
    record {
      scheduled = due_at_sound now a.next_poll_at due;
      analysis = is_open_analysis_sound t a still_open;
    }

take-drop {ℓ} : {A : Type ℓ} (n : ℕ) (xs : List A) → take n xs ++ drop n xs ≡ xs
take-drop zero xs = refl
take-drop (suc n) [] = refl
take-drop (suc n) (x ∷ xs) = ap (λ ys. x ∷ ys) (take-drop n xs)

-- Only a list that is taken in full leaves something.
length-take-drop {ℓ} :
    {A : Type ℓ} (n : ℕ) (xs : List A) → (drop n xs ≡ []) ⊎ (length (take n xs) ≡ n)
length-take-drop zero xs = inr refl
length-take-drop (suc n) [] = inl refl
length-take-drop (suc n) (x ∷ xs) = elim (length-take-drop n xs) [
  | inl empty ↦ inl empty
  | inr full ↦ inr (ap suc full)
]

abbrev pub poll_time : FortyGuardActivity → ℕ
poll_time a = time_or_zero a.next_poll_at

-- The activities that a scan takes, and those that it leaves: all are due, together they are the due
-- activities of the table, ordered by the time of their poll, and only if the limit is reached is any left.
pub record AreTaken (t : Tables) (now limit : ℕ) (taken left : List FortyGuardActivity)
    : Type 0 where
  pub due : All (IsDue t now) taken
  pub bounded : length taken ≤ limit
  pub every_due :
      Perm
        (taken ++ left)
        (keep (λ a. due_at now a.next_poll_at && is_open_analysis t a) t.activities)
  pub ordered : IsAscending poll_time (taken ++ left)
  pub left_at_limit : (left ≡ []) ⊎ (length taken ≡ limit)

due_activities-AreTaken :
    (t : Tables) (now limit : ℕ)
    → (left : List FortyGuardActivity) × AreTaken t now limit (due_activities t now limit) left
unfolding due_activities is_due
due_activities-AreTaken t now limit =
    let rows : List FortyGuardActivity = keep (is_due t now) t.activities in
    let sorted : List FortyGuardActivity = order_by (λ a b. leb (poll_time a) (poll_time b)) rows in
    (
      drop limit sorted,
      record {
        due = All-take (IsDue t now) limit sorted (
            All-order_by (IsDue t now) _ rows
              (All-keep (IsDue t now) (is_due t now) t.activities (is_due-IsDue t now)));
        bounded = length-take limit sorted;
        every_due = rw (take-drop limit sorted) (order_by_perm _ rows);
        ordered = rw (take-drop limit sorted) (order_by-IsAscending poll_time rows);
        left_at_limit = length-take-drop limit sorted;
      },
    )

enqueue_all_append :
    (p : Platform) (as_ : List FortyGuardActivity) (queue : Queue)
    → enqueue_all p as_ queue ≡ queue ++ map (λ a. p.to_text (uuid a.analysis_id)) as_
unfolding enqueue_all enqueue
enqueue_all_append p [] queue = sym (append-nil queue)
enqueue_all_append p (a ∷ rest) queue =
    enqueue_all_append p rest (queue ++ (p.to_text (uuid a.analysis_id) ∷ []))
    ∙ append_assoc queue (p.to_text (uuid a.analysis_id) ∷ []) _

-- What `n` calls of `dequeue` on the queue give, and the queue that they leave.
abbrev pub drain : Platform → ℕ → Queue → List (Result (Option ℕ)) × Queue
drain p zero queue = ([], queue)
drain p (suc n) queue =
    let (item, rest) = dequeue p queue in let (items, left) = drain p n rest in (item ∷ items, left)

drain-shown :
    (p : Platform) (as_ : List FortyGuardActivity)
    → IsFaithful p
    → drain p (length as_) (map (λ a. p.to_text (uuid a.analysis_id)) as_)
      ≡ (map (λ a. ok (some a.analysis_id)) as_, [])
unfolding dequeue
drain-shown p [] faithful = refl
drain-shown p (a ∷ rest) faithful =
    rw (faithful.parse-show a.analysis_id, drain-shown p rest faithful) refl

-- If UUIDs read back from their text, a scan that fills the empty queue takes due activities only, at most
-- its limit of them, the earliest ones, and all if they are no more than the limit; and as many calls of
-- dequeue give exactly their analyses, each once and by the time of the poll, and leave the queue empty.
pub drain-recover_due_heat_activities :
    (p : Platform) (t : Tables) (now limit : ℕ)
    → IsFaithful p
    → (taken left : List FortyGuardActivity) × AreTaken t now limit taken left
      × (drain p (length taken) (recover_due_heat_activities p t now limit [])
          ≡ (map (λ a. ok (some a.analysis_id)) taken, []))
unfolding recover_due_heat_activities
drain-recover_due_heat_activities p t now limit faithful =
    let taken : List FortyGuardActivity = due_activities t now limit in
    let (left, are_taken) = due_activities-AreTaken t now limit in
    (
      taken,
      left,
      are_taken,
      ap (drain p (length taken)) (enqueue_all_append p taken []) ∙ drain-shown p taken faithful,
    )
