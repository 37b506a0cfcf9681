-- ===== src/Portfolio/Feasible/Chosen.antt =====
-- The allocations of a portfolio are the variables that the solution chooses, and what the solver counts
-- on variables is what is counted on the allocated pairs.
use coolproof.Base.{
  ℕ, ℤ, pos, String, eq_iff, Bool, true, false, ◌≡◌, refl, sym, ap, ◌∙◌, ◌⊎◌, List, [], ◌∷◌, keep,
  any, length, map, All, arith, Bool-cases, inl, inr,
}
use coolproof.Floats.{Floats}
use coolproof.Platform.{Platform}
use coolproof.Failure.{ok, >>=-eq-ok, ok-injective}
use coolproof.Portfolio.{
  InterventionSpec, Allocation, Solver, Variable, same_key, indices, has_pair, fixings, is_nonzero,
  first_with,
}
use coolproof.Portfolio.Optimize.{spec_of, validated_cost, allocate, allocations_of}
use coolproof.Portfolio.Feasible.{Pair, key, is_pair, chosen, Meets}

abbrev pub pair_of : Variable → Pair
pair_of v = (v.zone_id, v.intervention_id)

module _ (f : Floats) (solution : ℕ → ℕ) where
  abbrev pub is_chosen : Variable → Bool
  is_chosen v = chosen f solution v.index

  -- The pairs of the variables that the solution chooses.
  abbrev pub chosen_pairs : List Variable → List Pair
  chosen_pairs vs = map pair_of (keep is_chosen vs)

-- An allocation is for its variable's pair and has the solution's units.
allocate_lem :
    (f : Floats) (p : Platform) (interventions : List InterventionSpec) (v : Variable) (units : ℤ)
    (a : Allocation)
    → allocate f p interventions v units ≡ ok a
    → (key a ≡ pair_of v) × (a.units ≡ units)
allocate_lem f p interventions v units a h =
    let (spec, found, costed) = >>=-eq-ok (spec_of f p (first_with _ interventions)) _ h in
    let (cost, valid, built) = >>=-eq-ok (validated_cost f p spec units) _ costed in
    (ap key (sym (ok-injective built)), ap (λ (x : Allocation). x.units) (sym (ok-injective built)))

module _ (f : Floats) (p : Platform) (interventions : List InterventionSpec)
    (solution : ℕ → ℕ) where
  pub key-allocations_of :
      (vs : List Variable) (as_ : List Allocation)
      → allocations_of f p interventions solution vs ≡ ok as_
      → map key as_ ≡ chosen_pairs f solution vs
  unfolding allocations_of keep
  key-allocations_of [] as_ h = ap (map key) (sym (ok-injective h))
  key-allocations_of (v ∷ vs) as_ h = elim (Bool-cases (is_chosen f solution v)) [
    | inl used ↦
        let (a, made, more) =
          >>=-eq-ok (allocate f p interventions v (f.truncate (solution v.index))) _
            (rw used at h) in
        let (bs, others, whole) = >>=-eq-ok (allocations_of f p interventions solution vs) _ more in
        rw
          (
            used,
            sym (ok-injective whole),
            (allocate_lem f p interventions v _ a made).0,
            key-allocations_of vs bs others,
          )
          refl
    | inr unused ↦ rw unused (key-allocations_of vs as_ (rw unused at h))
  ]

module _ (f : Floats) (solution : ℕ → ℕ) where
  -- What the solver counts on the variables of some pairs.
  pub count_chosen :
      (q : Pair → Bool) (vs : List Variable)
      → length (keep (chosen f solution) (indices (keep (λ v. q (pair_of v)) vs)))
        ≡ length (keep q (chosen_pairs f solution vs))
  unfolding keep
  count_chosen q [] = refl
  count_chosen q (v ∷ vs) = ground (arith, count_chosen q vs)

  pub costs_chosen :
      (g : String → ℕ) (vs : List Variable)
      → map
          (λ (t : ℕ × ℕ). t.1)
          (keep
            (λ (t : ℕ × ℕ). chosen f solution t.0)
            (map (λ (v : Variable). (v.index, g v.intervention_id)) vs))
        ≡ map (λ (k : Pair). g k.1) (chosen_pairs f solution vs)
  unfolding keep
  costs_chosen g [] = refl
  costs_chosen g (v ∷ vs) = elim (Bool-cases (is_chosen f solution v)) [
    | inl used ↦ rw (used, costs_chosen g vs) refl
    | inr unused ↦ rw (unused, costs_chosen g vs) refl
  ]

  pub All-chosen_pairs {κ} :
      (P : Pair → Type κ) (vs : List Variable)
      → All (λ v. P (pair_of v)) vs
      → All P (chosen_pairs f solution vs)
  unfolding keep
  All-chosen_pairs P [] h = tt
  All-chosen_pairs P (v ∷ vs) h = ground (arith, All-chosen_pairs P vs h.1)

module _ (f : Floats) (s : Solver) (solution : ℕ → ℕ) (required incompatible : List Pair) where
  fixings-cons :
      (v : Variable) (vs : List Variable)
      → All (Meets f s solution) (fixings required incompatible (v ∷ vs))
      → (has_pair required v.zone_id v.intervention_id ≡ true → chosen f solution v.index ≡ true)
        × (has_pair incompatible v.zone_id v.intervention_id ≡ true
            → chosen f solution v.index ≡ false)
        × All (Meets f s solution) (fixings required incompatible vs)
  unfolding fixings
  fixings-cons v vs h = ground arith

  -- No incompatible pair is chosen.
  pub permitted_chosen :
      (vs : List Variable)
      → All (Meets f s solution) (fixings required incompatible vs)
      → All (λ k. has_pair incompatible k.0 k.1 ≡ false) (chosen_pairs f solution vs)
  unfolding keep
  permitted_chosen [] h = tt
  permitted_chosen (v ∷ vs) h =
      let (req, inc, more) = fixings-cons v vs h in ground (arith, inc, permitted_chosen vs more)

  -- A required pair with a variable is chosen.
  pub required_chosen :
      (a b : String) (vs : List Variable)
      → All (Meets f s solution) (fixings required incompatible vs)
      → has_pair required a b ≡ true
      → any (same_key a b) vs ≡ true
      → any (is_pair a b) (chosen_pairs f solution vs) ≡ true
  unfolding keep any
  required_chosen a b [] h r e = cc
  required_chosen a b (v ∷ vs) h r e =
      let (req, inc, more) = fixings-cons v vs h in
      ground
        (arith, req, eq_iff v.zone_id a, eq_iff v.intervention_id b, required_chosen a b vs more r)

one_of_chosen : (u : ℤ) → (u ≡ pos 0) ⊎ (u ≡ pos 1) → is_nonzero u ≡ true → u ≡ pos 1
one_of_chosen u (inl zero_) h = absurd (cc (rw zero_ at h))
one_of_chosen u (inr one) h = one

module _ (f : Floats) (p : Platform) (interventions : List InterventionSpec)
    (solution : ℕ → ℕ) where
  -- Where the variables are 0 or 1, each allocation is one unit.
  pub units-allocations_of :
      (vs : List Variable) (as_ : List Allocation)
      → All
          (λ v. (f.truncate (solution v.index) ≡ pos 0) ⊎ (f.truncate (solution v.index) ≡ pos 1))
          vs
      → allocations_of f p interventions solution vs ≡ ok as_
      → All (λ a. a.units ≡ pos 1) as_
  unfolding allocations_of
  units-allocations_of [] as_ b h = rw (sym (ok-injective h)) tt
  units-allocations_of (v ∷ vs) as_ b h = elim (Bool-cases (is_chosen f solution v)) [
    | inl used ↦
        let (a, made, more) =
          >>=-eq-ok (allocate f p interventions v (f.truncate (solution v.index))) _
            (rw used at h) in
        let (bs, others, whole) = >>=-eq-ok (allocations_of f p interventions solution vs) _ more in
        rw (sym (ok-injective whole)) (
          (allocate_lem f p interventions v _ a made).1 ∙ one_of_chosen _ b.0 used,
          units-allocations_of vs bs b.1 others,
        )
    | inr unused ↦ units-allocations_of vs as_ b.1 (rw unused at h)
  ]
