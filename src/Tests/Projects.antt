-- ===== src/Tests/Projects.antt =====
-- The theorems on projects at one tenant.
use coolproof.Base.{refl, none, [], ◌∷◌}
use coolproof.Json.{end}
use coolproof.Db.Models.{Project, Zone}
use coolproof.Db.Session.{Session, open_session}
use coolproof.Projects.{create_zone}
use coolproof.Projects.Rooted.{AllRooted, has_project, create_zone-AllRooted}
use coolproof.Tests.Data.{plain, boss, staffed}

abbrev park : Project
park = record { id = 2; organization_id = 1; name = "Park"; description = none; created_at = 3 }

abbrev lawn : Zone
lawn = record { id = 6; organization_id = 1; project_id = 2; name = "Lawn"; geometry = end }

abbrev with_park : Session
with_park = open_session (record staffed { projects = park ∷ []; zones = lawn ∷ [] })

lawn_rooted : AllRooted with_park.tables
unfolding has_project
lawn_rooted = (refl, tt)

create_zone-AllRooted_example :
    AllRooted (create_zone plain 9 10 2 boss "Pond" end with_park).1.tables
create_zone-AllRooted_example =
    create_zone-AllRooted plain 9 10 boss "Pond" 2 end with_park lawn_rooted
