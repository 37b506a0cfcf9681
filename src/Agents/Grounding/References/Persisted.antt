-- ===== src/Agents/Grounding/References/Persisted.antt =====
-- The references that a run persists are those of the request that parse.
use coolproof.Base.{ℕ, String, ◌≡◌, refl, List, [], ◌∷◌, map, arith}
use coolproof.Json.{Fields, items_of, list_of}
use coolproof.Platform.{Platform, IsFaithful}
use coolproof.Failure.{ok}
use coolproof.Agents.Grounding.References.{
  to_uuid, references, valid_uuids, uuid_text, persisted, safe_input_references,
}

module _ (p : Platform) (faithful : IsFaithful p) where
  to_uuid-uuid_text : (u : ℕ) (kind : String) → to_uuid p (uuid_text p u) kind ≡ ok u
  unfolding to_uuid
  to_uuid-uuid_text u kind = rw (faithful.text_self, faithful.parse-show)

  valid_uuids-map :
      (kind : String) (us : List ℕ)
      → valid_uuids p kind (list_of (items_of (map (uuid_text p) us))) ≡ us
  unfolding valid_uuids
  valid_uuids-map kind [] = refl
  valid_uuids-map kind (u ∷ us) = ground (arith, to_uuid-uuid_text u kind, valid_uuids-map kind us)

  reread :
      (hs ps is : List ℕ)
      → let refs = references (persisted p hs ps is) in
        (valid_uuids p "heat" refs.heat ≡ hs)
        × (valid_uuids p "portfolio" refs.portfolio ≡ ps)
        × (valid_uuids p "intervention" refs.intervention ≡ is)
  unfolding references valid_uuids
  reread [] [] [] = (refl, refl, refl)
  reread (h ∷ hs) [] [] = (valid_uuids-map _ (h ∷ hs), refl, refl)
  reread [] (r ∷ ps) [] = (refl, valid_uuids-map _ (r ∷ ps), refl)
  reread [] [] (i ∷ is) = (refl, refl, valid_uuids-map _ (i ∷ is))
  reread (h ∷ hs) (r ∷ ps) [] = (valid_uuids-map _ (h ∷ hs), valid_uuids-map _ (r ∷ ps), refl)
  reread (h ∷ hs) [] (i ∷ is) = (valid_uuids-map _ (h ∷ hs), refl, valid_uuids-map _ (i ∷ is))
  reread [] (r ∷ ps) (i ∷ is) = (refl, valid_uuids-map _ (r ∷ ps), valid_uuids-map _ (i ∷ is))
  reread (h ∷ hs) (r ∷ ps) (i ∷ is) =
      (valid_uuids-map _ (h ∷ hs), valid_uuids-map _ (r ∷ ps), valid_uuids-map _ (i ∷ is))

  -- If UUIDs read back from their text, the dict that is persisted gives back, for each kind, the UUIDs
  -- that the request's values parse to, in order, and no others.
  pub safe_input_references-valid_uuids :
      (input_data : Fields)
      → let before = references input_data in
        let after = references (safe_input_references p input_data) in
        (valid_uuids p "heat" after.heat ≡ valid_uuids p "heat" before.heat)
        × (valid_uuids p "portfolio" after.portfolio ≡ valid_uuids p "portfolio" before.portfolio)
        × (valid_uuids p "intervention" after.intervention
            ≡ valid_uuids p "intervention" before.intervention)
  unfolding safe_input_references
  safe_input_references-valid_uuids input_data = reread _ _ _
