-- ===== src/Heat/Activity.antt =====
-- app/services/heat.py: `normalize_activity`, the reading of a provider's activity.
use coolproof.Base.{String, text_in, false, Option, none, some, [], ◌∷◌, if◌then◌else◌}
use coolproof.Json.{Value, str, obj, Fields, get, or_value}
use coolproof.Platform.{Platform}
use coolproof.Failure.{Result, ok, err, forty_guard_error}
use coolproof.Db.Models.{HeatAnalysisStatus, queued, running, succeeded, failed}

abbrev pub invalid_response : {A : Type 0} → String → Result A
invalid_response message = err (forty_guard_error "fortyguard_invalid_response" message false)

-- `data`: the envelope where it is a dict, or the payload itself.
abbrev pub envelope : Fields → Option Value → Fields
envelope payload (some (obj data_)) = data_
envelope payload _ = payload

abbrev pub first_of : Option Value → Option Value → Value → Value
first_of (some v) w d = v
first_of none (some w) d = w
first_of none none d = d

abbrev pub completed_result : Option Value → Result (HeatAnalysisStatus × Option Fields)
completed_result (some (obj result)) = ok (succeeded, some result)
completed_result _ = invalid_response "Completed activity omitted result data"

module _ (p : Platform) where
  abbrev pub activity_state : Fields → String
  activity_state payload = p.lower (
      p.to_text (
        first_of (get "status" (envelope payload (get "data" payload))) (get "status" payload)
          (str "")))

  unfoldable pub normalize_activity : Fields → Result (HeatAnalysisStatus × Option Fields)
  unfolding get text_in
  normalize_activity payload =
      let state = activity_state payload in
      if text_in state ("queued" ∷ "pending" ∷ [])
      then ok (queued, none)
      else if text_in state ("running" ∷ "processing" ∷ [])
      then ok (running, none)
      else if text_in state ("succeeded" ∷ "completed" ∷ "complete" ∷ [])
      then completed_result
          (or_value (get "result" (envelope payload (get "data" payload))) (get "result" payload))
      else if text_in state ("failed" ∷ "error" ∷ "cancelled" ∷ [])
      then ok (failed, none)
      else invalid_response "FortyGuard returned an unknown activity status"
