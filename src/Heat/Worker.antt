-- ===== src/Heat/Worker.antt =====
-- app/workers/heat_queue.py and app/workers/heat_polling.py: the queue of due polls and its consumer.
pub mod Requeue
pub mod Recovery
use coolproof.Base.{
  ℕ, suc, zero, leb, ltb, ◌==◌, String, Bool, true, false, ◌&&◌, not, Option, none, some, List, [],
  ◌∷◌, ◌++◌, keep, take, map, if◌then◌else◌,
}
use coolproof.Json.{Fields, uuid}
use coolproof.Platform.{Platform}
use coolproof.Failure.{Failure, Result, ok, err, value_error}
use coolproof.Db.Models.{HeatAnalysis, FortyGuardActivity}
use coolproof.Db.Query.{scalar, order_by}
use coolproof.Db.Session.{Session, Tables, open_session}
use coolproof.Heat.Service.{is_terminal, activity_of}
use coolproof.Heat.Poll.{poll}

-- The entries of the Redis list under `coolproof:heat:poll`.
abbrev pub Queue : Type 0
Queue = List String

abbrev pub unscheduled : Option FortyGuardActivity → Bool
unscheduled none = true
unscheduled (some activity) = elim activity.next_poll_at [ none ↦ true | some time ↦ false ]

-- The activity is due and its analysis is stored and not over: one row of the select.
abbrev pub due_at : ℕ → Option ℕ → Bool
due_at now none = false
due_at now (some time) = leb time now

abbrev pub time_or_zero : Option ℕ → ℕ
time_or_zero none = 0
time_or_zero (some time) = time

-- The join with the analysis of the activity, whose key is unique.
unfoldable pub is_open_analysis : Tables → FortyGuardActivity → Bool
unfolding scalar
is_open_analysis t activity = elim (scalar (λ a. a.id == activity.analysis_id) t.heat_analyses) [
  | none ↦ false
  | some a ↦ not (is_terminal a.status)
]

-- The rows that `recover_due_heat_activities` enqueues.
unfoldable pub due_activities : Tables → ℕ → ℕ → List FortyGuardActivity
unfolding is_open_analysis keep order_by
due_activities t now limit = take limit (
    order_by (λ a b. leb (time_or_zero a.next_poll_at) (time_or_zero b.next_poll_at))
      (keep (λ a. due_at now a.next_poll_at && is_open_analysis t a) t.activities))

module _ (p : Platform) where
  unfoldable pub enqueue : ℕ → Queue → Queue
  enqueue analysis_id queue = queue ++ (p.to_text (uuid analysis_id) ∷ [])

  abbrev pub parsed_id : Option ℕ → Result (Option ℕ)
  parsed_id none = err (value_error "badly formed hexadecimal UUID string")
  parsed_id (some analysis_id) = ok (some analysis_id)

  -- `dequeue(...)`: the oldest entry, removed before it is parsed; no entry before the timeout is None.
  unfoldable pub dequeue : Queue → Result (Option ℕ) × Queue
  dequeue [] = (ok none, [])
  dequeue (item ∷ queue) = (parsed_id (p.parse_uuid item), queue)

  unfoldable pub enqueue_all : List FortyGuardActivity → Queue → Queue
  unfolding enqueue
  enqueue_all [] queue = queue
  enqueue_all (a ∷ rest) queue = enqueue_all rest (enqueue a.analysis_id queue)

  unfoldable pub recover_due_heat_activities : Tables → ℕ → ℕ → Queue → Queue
  unfolding due_activities enqueue_all
  recover_due_heat_activities t now limit queue = enqueue_all (due_activities t now limit) queue

  -- After the poll: the analysis is enqueued again unless it is over or has no schedule.
  abbrev pub requeue : HeatAnalysis → Option FortyGuardActivity → Queue → Queue
  requeue a activity queue =
      if unscheduled activity
      then queue
      else if is_terminal a.status
      then queue
      else enqueue a.id queue

  -- What a worker's tick leaves: whether it processed an analysis, the stored tables and the queue.
  abbrev pub Tick : Type 0
  Tick = Result Bool × Tables × Queue

  abbrev pub after_poll : Queue → Result HeatAnalysis × Session → Tick
  after_poll queue (err failure, s) = (err failure, s.durable, queue)
  after_poll queue (ok a, s) = (ok true, s.durable, requeue a (activity_of a s) queue)

  module _ (max_attempts ttl now : ℕ) (answer : HeatAnalysis → Result Fields) where
    abbrev pub poll_found : Option HeatAnalysis → Tables → Queue → Tick
    poll_found none t queue = (ok false, t, queue)
    poll_found (some a) t queue =
        after_poll queue (poll p max_attempts ttl now a (answer a) (open_session t))

    -- `poll_queued_heat_analysis(analysis_id, redis)`, with a session of its own on the stored tables;
    -- `answer` is what the provider answers for the analysis.
    unfoldable pub poll_queued_heat_analysis : ℕ → Tables → Queue → Tick
    unfolding scalar poll activity_of enqueue
    poll_queued_heat_analysis analysis_id t queue =
        poll_found (scalar (λ a. a.id == analysis_id) t.heat_analyses) t queue

    abbrev pub consumed : Result (Option ℕ) × Queue → Tables → Tick
    consumed (err failure, queue) t = (err failure, t, queue)
    consumed (ok none, queue) t = (ok false, t, queue)
    consumed (ok (some analysis_id), queue) t = poll_queued_heat_analysis analysis_id t queue

    -- `consume_heat_queue(redis)`
    unfoldable pub consume_heat_queue : Tables → Queue → Tick
    unfolding dequeue poll_queued_heat_analysis
    consume_heat_queue t queue = consumed (dequeue queue) t
