-- ===== src/Portfolio/Feasible/Declared.antt =====
-- The variables of a portfolio: exactly the eligible pairs, with indices of the solver.
use coolproof.Base.{
  suc, ◌<◌, String, eq_iff, true, ◌≡◌, List, [], ◌∷◌, any, All, All-imp, arith, Bool-cases, inl,
  inr,
}
use coolproof.Platform.{Platform}
use coolproof.Portfolio.{
  InterventionSpec, ZoneDemand, Variable, Declared, same_key, put_variable, eligible_in, declare,
  declare_zone, declare_all,
}

module _ {κ} (P : Variable → Type κ) where
  All-put_variable :
      (v : Variable) (vs : List Variable) → P v → All P vs → All P (put_variable v vs)
  unfolding put_variable
  All-put_variable v [] pv h = (pv, tt)
  All-put_variable v (w ∷ ws) pv h = elim (Bool-cases (same_key v.zone_id v.intervention_id w)) [
    | inl same ↦ rw same (pv, h.1)
    | inr other ↦ rw other (h.0, All-put_variable v ws pv h.1)
  ]

-- The key of each variable has the property, and its index is one of the solver's.
abbrev pub AllDeclared {κ} : (String → String → Type κ) → Declared → Type κ
AllDeclared E (vs, n) = All (λ v. E v.zone_id v.intervention_id × (v.index < n)) vs

-- The property holds of all eligible pairs.
abbrev pub OfEligible {κ} :
    Platform → (String → String → Type κ) → ZoneDemand → List InterventionSpec → Type κ
OfEligible p E z is = All (λ i. eligible_in p z i ≡ true → E z.zone_id i.intervention_id) is

module _ {κ} (p : Platform) (E : String → String → Type κ) where
  declare-AllDeclared :
      (z : ZoneDemand) (i : InterventionSpec) (d : Declared)
      → (eligible_in p z i ≡ true → E z.zone_id i.intervention_id)
      → AllDeclared E d
      → AllDeclared E (declare p z i d)
  declare-AllDeclared z i (vs, n) e h = elim (Bool-cases (eligible_in p z i)) [
    | inl yes_ ↦ rw yes_ (
        All-put_variable (λ v. E v.zone_id v.intervention_id × (v.index < suc n)) _ vs
          (e yes_, omega arith) (All-imp _ _ vs (λ v g. (g.0, omega (arith, g.1))) h))
    | inr no_ ↦ rw no_ h
  ]

  declare_zone-AllDeclared :
      (z : ZoneDemand) (is : List InterventionSpec) (d : Declared)
      → OfEligible p E z is
      → AllDeclared E d
      → AllDeclared E (declare_zone p z is d)
  unfolding declare_zone
  declare_zone-AllDeclared z [] d e h = h
  declare_zone-AllDeclared z (i ∷ is) d e h =
      declare_zone-AllDeclared z is (declare p z i d) e.1 (declare-AllDeclared z i d e.0 h)

  pub declare_all-AllDeclared :
      (zs : List ZoneDemand) (is : List InterventionSpec) (d : Declared)
      → All (λ z. OfEligible p E z is) zs
      → AllDeclared E d
      → AllDeclared E (declare_all p zs is d)
  unfolding declare_all
  declare_all-AllDeclared [] is d e h = h
  declare_all-AllDeclared (z ∷ zs) is d e h =
      declare_all-AllDeclared zs is (declare_zone p z is d) e.1
        (declare_zone-AllDeclared z is d e.0 h)

-- A variable with the key is there.
abbrev pub HasKey : Declared → String → String → Type 0
HasKey d a b = any (same_key a b) d.0 ≡ true

any-put_variable :
    (a b : String) (v : Variable) (vs : List Variable)
    → any (same_key a b) vs ≡ true
    → any (same_key a b) (put_variable v vs) ≡ true
unfolding any put_variable
any-put_variable a b v [] h = cc
any-put_variable a b v (w ∷ ws) h = ground (
  arith,
  any-put_variable a b v ws,
  eq_iff w.zone_id v.zone_id,
  eq_iff w.intervention_id v.intervention_id,
)

any-put_variable_self :
    (v : Variable) (vs : List Variable)
    → any (same_key v.zone_id v.intervention_id) (put_variable v vs) ≡ true
unfolding any put_variable
any-put_variable_self v [] =
    ground (arith, eq_iff v.zone_id v.zone_id, eq_iff v.intervention_id v.intervention_id)
any-put_variable_self v (w ∷ ws) = ground (
  arith,
  any-put_variable_self v ws,
  eq_iff v.zone_id v.zone_id,
  eq_iff v.intervention_id v.intervention_id,
)

module _ (p : Platform) (a b : String) where
  declare-HasKey :
      (z : ZoneDemand) (i : InterventionSpec) (d : Declared)
      → HasKey d a b
      → HasKey (declare p z i d) a b
  declare-HasKey z i (vs, n) h = elim (Bool-cases (eligible_in p z i)) [
    | inl yes_ ↦ rw yes_ (any-put_variable a b _ vs h)
    | inr no_ ↦ rw no_ h
  ]

  declare_zone-HasKey :
      (z : ZoneDemand) (is : List InterventionSpec) (d : Declared)
      → HasKey d a b
      → HasKey (declare_zone p z is d) a b
  unfolding declare_zone
  declare_zone-HasKey z [] d h = h
  declare_zone-HasKey z (i ∷ is) d h =
      declare_zone-HasKey z is (declare p z i d) (declare-HasKey z i d h)

  declare_all-HasKey :
      (zs : List ZoneDemand) (is : List InterventionSpec) (d : Declared)
      → HasKey d a b
      → HasKey (declare_all p zs is d) a b
  unfolding declare_all
  declare_all-HasKey [] is d h = h
  declare_all-HasKey (z ∷ zs) is d h =
      declare_all-HasKey zs is (declare_zone p z is d) (declare_zone-HasKey z is d h)

module _ (p : Platform) where
  declare-HasKey_self :
      (z : ZoneDemand) (i : InterventionSpec) (d : Declared)
      → eligible_in p z i ≡ true
      → HasKey (declare p z i d) z.zone_id i.intervention_id
  declare-HasKey_self z i (vs, n) h = rw h (any-put_variable_self _ vs)

  declare_zone_complete :
      (z : ZoneDemand) (is : List InterventionSpec) (d : Declared)
      → OfEligible p (HasKey (declare_zone p z is d)) z is
  unfolding declare_zone
  declare_zone_complete z [] d = tt
  declare_zone_complete z (i ∷ is) d = (
    λ e. declare_zone-HasKey p z.zone_id i.intervention_id z is _ (declare-HasKey_self z i d e),
    declare_zone_complete z is (declare p z i d),
  )

  -- Every eligible pair has a variable.
  pub declare_all_complete :
      (zs : List ZoneDemand) (is : List InterventionSpec) (d : Declared)
      → All (λ z. OfEligible p (HasKey (declare_all p zs is d)) z is) zs
  unfolding declare_all
  declare_all_complete [] is d = tt
  declare_all_complete (z ∷ zs) is d = (
    All-imp _ _ is (λ i g e. declare_all-HasKey p z.zone_id i.intervention_id zs is _ (g e))
        (declare_zone_complete z is d),
    declare_all_complete zs is (declare_zone p z is d),
  )
