-- ===== src/Tests/Grounding.antt =====
-- The grounding's theorems at concrete rows and facts.
use coolproof.Base.{text_in, ends_with, ◌≡◌, refl, none, some, [], ◌∷◌, pos}
use coolproof.Json.{int, str, uuid, arr, cons, nil, Fields, end, dict, get, put, Distinct}
use coolproof.Db.Session.{Tables, no_tables}
use coolproof.Agents.Grounding.References.{references, safe_input_references, valid_uuids}
use coolproof.Agents.Grounding.References.Persisted.{safe_input_references-valid_uuids}
use coolproof.Agents.Grounding.Facts.{safe_provider_facts}
use coolproof.Agents.Grounding.Facts.Provider.{IsSafe, safe_provider_facts-IsSafe}
use coolproof.Agents.Grounding.Catalogue.{resolve_grounding}
use coolproof.Agents.Grounding.Isolation.{visible, resolve_grounding-visible}
use coolproof.Tests.Data.{plain, plain-IsFaithful}

abbrev two_projects : Tables
two_projects = record no_tables {
  projects =
      record { id = 1; organization_id = 1; name = "Own"; description = none; created_at = 0 }
      ∷ record { id = 2; organization_id = 9; name = "Foreign"; description = none; created_at = 0 }
      ∷ [];
}

resolve_grounding-visible_example :
    resolve_grounding plain (visible 1 two_projects) 1 5 (some 2) end
    ≡ resolve_grounding plain two_projects 1 5 (some 2) end
resolve_grounding-visible_example = resolve_grounding-visible plain 1 two_projects 5 (some 2) end

abbrev facts : Fields
facts = dict (("status", str "ok") ∷ ("total_cost", int (pos 3)) ∷ ("advice", str "buy now") ∷ [])

facts-Distinct : Distinct facts
unfolding get
facts-Distinct = (refl, (refl, (refl, tt)))

cost_kept : get "total_cost" (safe_provider_facts plain facts) ≡ some (int (pos 3))
unfolding safe_provider_facts get ends_with text_in put
cost_kept = refl

safe_provider_facts-IsSafe_example : IsSafe "total_cost" (int (pos 3))
safe_provider_facts-IsSafe_example =
    safe_provider_facts-IsSafe plain facts "total_cost" (int (pos 3)) cost_kept

abbrev request : Fields
request =
    dict (("heat_id", uuid 3) ∷ ("interventions", arr (cons (uuid 4) (cons (str "x") nil))) ∷ [])

safe_input_references-valid_uuids_example :
    let before = references request in
    let after = references (safe_input_references plain request) in
    (valid_uuids plain "heat" after.heat ≡ valid_uuids plain "heat" before.heat)
    × (valid_uuids plain "portfolio" after.portfolio
        ≡ valid_uuids plain "portfolio" before.portfolio)
    × (valid_uuids plain "intervention" after.intervention
        ≡ valid_uuids plain "intervention" before.intervention)
safe_input_references-valid_uuids_example =
    safe_input_references-valid_uuids plain plain-IsFaithful request
