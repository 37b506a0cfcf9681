-- ===== src/Portfolio/Api/Named.antt =====
-- The texts that a portfolio allocates are those of UUIDs with rows of the organization.
use coolproof.Base.{
  ℕ, ◌≤◌, ◌==◌, pos, String, Bool, true, ◌&&◌, ◌≡◌, refl, sym, ap, ◌∙◌, Option, none, some,
  some-injective, List, [], ◌∷◌, ◌++◌, keep, any, length, map, All, All-imp, arith, Option-cases,
  inl, inr, if◌then◌else◌,
}
use coolproof.Json.{uuid}
use coolproof.Floats.{Floats}
use coolproof.Platform.{Platform, IsFaithful}
use coolproof.Failure.{ok, >>=-eq-ok, >>=-cons, ok-injective, err≢ok}
use coolproof.Db.Models.{Zone}
use coolproof.Db.Evidence.{Intervention, PortfolioRun}
use coolproof.Db.Session.{Tables}
use coolproof.Auth.Tenancy.{TenantContext}
use coolproof.Agents.Grounding.Rows.{id_in}
use coolproof.Portfolio.{InterventionSpec, ZoneDemand, PortfolioResult, Solver, last_with}
use coolproof.Portfolio.Counting.{AllIn-of_set_size}
use coolproof.Portfolio.Request.{
  ZoneInput, InterventionInput, OptimizeRequest, zone_ids, intervention_ids, own_zones,
  own_interventions, optimize_refusal, set_size,
}
use coolproof.Portfolio.Feasible.Declared.{OfEligible}
use coolproof.Portfolio.Feasible.Solution.{optimize_portfolio-pairs}
use coolproof.Portfolio.Api.{demand, spec_from, specs_from, pairs_from, optimized, or_value_error}

abbrev pub has_run : ℕ → ℕ → List PortfolioRun → Bool
has_run id organization_id = any (λ r. r.id == id && r.organization_id == organization_id)

abbrev pub has_zone : ℕ → ℕ → List Zone → Bool
has_zone id organization_id = any (λ z. z.id == id && z.organization_id == organization_id)

abbrev pub has_intervention : ℕ → ℕ → List Intervention → Bool
has_intervention id organization_id = any (λ i. i.id == id && i.organization_id == organization_id)

-- A found id is that of a stored row that passes.
found_any {ℓ} :
    {A : Type ℓ} (id : A → ℕ) (q r : A → Bool) (u : ℕ) (rows : List A)
    → ((x : A) → q x ≡ true → r x ≡ true)
    → id_in (map id (keep q rows)) u ≡ true
    → any (λ x. id x == u && r x) rows ≡ true
unfolding id_in keep any
found_any id q r u [] h g = cc
found_any id q r u (x ∷ rows) h g = ground (arith, h x, found_any id q r u rows h)

kept_in {ℓ} :
    {A : Type ℓ} (id : A → ℕ) (q : A → Bool) (ids : List ℕ) (rows : List A)
    → ((x : A) → q x ≡ true → id_in ids (id x) ≡ true)
    → All (λ i. id_in ids i ≡ true) (map id (keep q rows))
unfolding keep
kept_in id q ids [] h = tt
kept_in id q ids (x ∷ rows) h = ground (arith, h x, kept_in id q ids rows h)

last_with-any {ℓ} :
    {A : Type ℓ} (q r : A → Bool) (rows : List A) (x : A)
    → last_with q rows ≡ some x
    → ((y : A) → q y ≡ true → r y ≡ true)
    → any r rows ≡ true
unfolding last_with any
last_with-any q r [] x e h = absurd (cc e)
last_with-any q r (y ∷ rows) x e h = elim (Option-cases (last_with q rows)) [
  | inl nothing ↦
      let here : (if q y then some y else none) ≡ some x = rw nothing at e in ground (arith, h y)
  | inr (z, found) ↦ let more = last_with-any q r rows z found h in ground arith
]

any-keep {ℓ} :
    {A : Type ℓ} (q r : A → Bool) (rows : List A)
    → any r (keep q rows) ≡ true
    → any (λ x. q x && r x) rows ≡ true
unfolding any keep
any-keep q r [] h = h
any-keep q r (x ∷ rows) h = ground (arith, any-keep q r rows)

any-imp {ℓ} :
    {A : Type ℓ} (q r : A → Bool) (rows : List A)
    → ((x : A) → q x ≡ true → r x ≡ true)
    → any q rows ≡ true
    → any r rows ≡ true
unfolding any
any-imp q r [] h g = absurd (cc g)
any-imp q r (x ∷ rows) h g = ground (arith, h x, any-imp q r rows h)

pub any-last {ℓ} :
    {A : Type ℓ} (q : A → Bool) (rows : List A) (x : A)
    → q x ≡ true
    → any q (rows ++ (x ∷ [])) ≡ true
unfolding any
any-last q [] x h = ground arith
any-last q (y ∷ rows) x h = ground (arith, any-last q rows x h)

-- The text is that of a UUID with a row of the organization.
abbrev pub Names : Platform → (ℕ → Bool) → String → Type 0
Names p row s = (u : ℕ) × (p.to_text (uuid u) ≡ s) × (row u ≡ true)

or_value_error-row :
    (row : ℕ → Bool) (o : Option ℕ) (u v : ℕ)
    → o ≡ some u
    → or_value_error o ≡ ok v
    → row u ≡ true
    → row v ≡ true
or_value_error-row row none u v e h g = absurd (err≢ok h)
or_value_error-row row (some w) u v e h g =
    let same : v ≡ u = sym (ok-injective h) ∙ some-injective _ _ e in rw same g

-- The text of a row's UUID is read back as that of the row.
pub parsed_row :
    (p : Platform)
    → IsFaithful p
    → (row : ℕ → Bool) (s : String) (v : ℕ) → Names p row s
    → or_value_error (p.parse_uuid s) ≡ ok v
    → row v ≡ true
parsed_row p faithful row s v (u, shows, holds) h =
    or_value_error-row row (p.parse_uuid s) u v
      (ap p.parse_uuid (sym shows) ∙ faithful.parse-show u) h holds

module _ (f : Floats) (p : Platform) (t : Tables) (tenant : TenantContext) where
  abbrev pub org : ℕ
  org = tenant.organization.id

  zone_row :
      (ids : List ℕ) (project_id u : ℕ)
      → id_in (map (λ z. z.id) (own_zones ids project_id tenant t)) u ≡ true
      → has_zone u org t.zones ≡ true
  zone_row ids project_id u h =
      found_any (λ z. z.id) _ (λ z. z.organization_id == org) u t.zones (λ z e. ground arith) h

  zones_named :
      (zs : List ZoneInput)
      → All (λ u. has_zone u org t.zones ≡ true) (map (λ z. z.zone_id) zs)
      → All (λ z. Names p (λ u. has_zone u org t.zones) z.zone_id) (map (demand f p) zs)
  zones_named [] h = tt
  zones_named (z ∷ zs) h = ((z.zone_id, refl, h.0), zones_named zs h.1)

  item_named :
      (ids : List ℕ) (item : InterventionInput) (o : Option Intervention) (spec : InterventionSpec)
      → last_with (λ i. i.id == item.intervention_id) (own_interventions ids tenant t) ≡ o
      → spec_from f p item o ≡ ok spec
      → Names p (λ u. has_intervention u org t.interventions) spec.intervention_id
  item_named ids item none spec e h = absurd (err≢ok h)
  item_named ids item (some row) spec e h = (
    item.intervention_id,
    ap (λ (s : InterventionSpec). s.intervention_id) (ok-injective h),
    any-imp _ _ t.interventions (λ i g. ground arith)
        (any-keep _ _ t.interventions (
          last_with-any _ (λ i. i.id == item.intervention_id) (own_interventions ids tenant t) row e
            (λ i g. g))),
  )

  specs_named :
      (ids : List ℕ) (items : List InterventionInput) (specs : List InterventionSpec)
      → specs_from f p items (own_interventions ids tenant t) ≡ ok specs
      → All (λ i. Names p (λ u. has_intervention u org t.interventions) i.intervention_id) specs
  unfolding specs_from
  specs_named ids [] specs h = rw (sym (ok-injective h)) tt
  specs_named ids (item ∷ items) specs h =
      let (spec, others, one, rest, same) =
        >>=-cons
          (spec_from f p item
            (last_with (λ i. i.id == item.intervention_id) (own_interventions ids tenant t)))
          (specs_from f p items (own_interventions ids tenant t)) h in
      rw same (item_named ids item _ spec refl one, specs_named ids items others rest)

of_named :
    (p : Platform) (E F : String → Type 0) (zs : List ZoneDemand) (is : List InterventionSpec)
    → All (λ z. E z.zone_id) zs
    → All (λ i. F i.intervention_id) is
    → All (λ z. OfEligible p (λ a b. E a × F b) z is) zs
of_named p E F zs is h g = All-imp _ _ zs (λ z hz. All-imp _ _ is (λ i hi e. (hz, hi)) g) h

module _ (f : Floats) (p : Platform) (solver : Solver) (r : OptimizeRequest)
    (tenant : TenantContext) (t : Tables) where
  pub pairs_named :
      (result : PortfolioResult)
      → All (λ u. has_zone u tenant.organization.id t.zones ≡ true) (zone_ids r)
      → optimized f p solver r tenant t ≡ ok result
      → All
          (λ a.
            Names p (λ u. has_zone u tenant.organization.id t.zones) a.zone_id
            × Names p
                (λ u. has_intervention u tenant.organization.id t.interventions)
                a.intervention_id)
          result.allocations
  unfolding optimized
  pairs_named result h e =
      let (specs, made, e1) = >>=-eq-ok (specs_from f p r.interventions _) _ e in
      let (required, e2, e3) = >>=-eq-ok (pairs_from f p r.required) _ e1 in
      let (incompatible, e4, e5) = >>=-eq-ok (pairs_from f p r.incompatible) _ e3 in
      optimize_portfolio-pairs
        (λ a b.
          Names p (λ u. has_zone u tenant.organization.id t.zones) a
          × Names p (λ u. has_intervention u tenant.organization.id t.interventions) b)
        f p solver (map (demand f p) r.zones) specs r.budget (pos r.min_equity_units)
        (pos r.min_school_units) r.uncertainty_penalty required incompatible result
        (of_named p _ _ _ specs (zones_named f p t tenant r.zones h)
          (specs_named f p t tenant (intervention_ids r) r.interventions specs made))
        e5

  -- Where nothing refuses the request, every zone of it is stored.
  pub zones_stored :
      optimize_refusal r tenant t ≡ none
      → All (λ u. has_zone u tenant.organization.id t.zones ≡ true) (zone_ids r)
  unfolding optimize_refusal
  zones_stored h =
      let found : length (zone_ids r)
          ≤ set_size (map (λ z. z.id) (own_zones (zone_ids r) r.project_id tenant t)) =
        ground arith in
      All-imp _ _ (zone_ids r) (λ u g. zone_row f p t tenant (zone_ids r) r.project_id u g)
        (AllIn-of_set_size (zone_ids r) _
          (kept_in (λ z. z.id) _ (zone_ids r) t.zones (λ z g. ground arith)) found)
