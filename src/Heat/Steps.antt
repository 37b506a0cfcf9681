-- ===== src/Heat/Steps.antt =====
-- app/services/heat.py: submissions and polls in any order, as steps on a session.
use coolproof.Base.{ℕ, String}
use coolproof.Json.{Fields}
use coolproof.Platform.{Platform}
use coolproof.Failure.{Result}
use coolproof.Db.Models.{HeatAnalysis}
use coolproof.Db.Session.{Session}
use coolproof.Heat.Service.{submit}
use coolproof.Heat.Poll.{poll}
use coolproof.Heat.Poll.Usable.{AllUsable, poll-AllUsable, submit-AllUsable}

module _ (p : Platform) (digest : Fields → String) (max_attempts ttl : ℕ) (start : Session) where
  -- The sessions that submissions and polls lead to: each at its own time, a submission with whatever the
  -- provider answers to it, a poll of any analysis with any answer.
  pub data HeatReach : Session → Type 0 where
    here : HeatReach start
    submits :
        {s : Session}
        → HeatReach s
        → (create : Fields → Result String) (id now organization_id project_id zone_id : ℕ)
          (payload : Fields)
        → HeatReach (submit digest create id now organization_id project_id zone_id payload s).1
    polls :
        {s : Session}
        → HeatReach s
        → (now : ℕ) (a : HeatAnalysis) (answer : Result Fields)
        → HeatReach (poll p max_attempts ttl now a answer s).1

  -- After any submissions and polls, from a session where it is so, every succeeded analysis has a result
  -- and a time from which it is stale.
  pub HeatReach-AllUsable :
      {s : Session} → AllUsable start.tables → HeatReach s → AllUsable s.tables
  HeatReach-AllUsable h here = h
  HeatReach-AllUsable h (submits {s} r create id now organization_id project_id zone_id payload) =
      submit-AllUsable digest create id now organization_id project_id zone_id payload s
        (HeatReach-AllUsable h r)
  HeatReach-AllUsable h (polls {s} r now a answer) =
      poll-AllUsable p max_attempts ttl now a answer s (HeatReach-AllUsable h r)
