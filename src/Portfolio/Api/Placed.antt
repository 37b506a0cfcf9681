-- ===== src/Portfolio/Api/Placed.antt =====
-- Every stored allocation names rows of its own organization.
use coolproof.Base.{
  ℕ, ◌==◌, true, ◌&&◌, ◌≡◌, refl, sym, none, List, [], ◌∷◌, ◌++◌, any, any-append, All, All-append,
  All-imp, arith, Bool-cases, Option-cases, inl, inr,
}
use coolproof.Floats.{Floats}
use coolproof.Platform.{Platform, IsFaithful}
use coolproof.Failure.{Result, ok, err, >>=-eq-ok, ok-injective}
use coolproof.Db.Models.{Zone}
use coolproof.Db.Evidence.{Intervention, PortfolioRun, PortfolioAllocation}
use coolproof.Db.Session.{Session, Tables}
use coolproof.Auth.Tenancy.{TenantContext, require_tenant_roles, role_in}
use coolproof.Agents.Api.{writers}
use coolproof.Portfolio.{Allocation, PortfolioResult, Solver}
use coolproof.Portfolio.Request.{OptimizeRequest, optimize_refusal}
use coolproof.Portfolio.Api.Named.{
  has_run, has_zone, has_intervention, Names, any-last, parsed_row, pairs_named, zones_stored,
}
use coolproof.Portfolio.Api.{
  optimized, allocation_row, allocation_rows, parsed, saved, stored, new_portfolio, optimize,
}

-- The portfolio, the zone and the intervention that an allocation names are its organization's.
pub record IsPlaced (runs : List PortfolioRun) (zones : List Zone)
    (interventions : List Intervention) (a : PortfolioAllocation) : Type 0 where
  pub run :
      any (λ r. r.id == a.portfolio_run_id && r.organization_id == a.organization_id) runs ≡ true
  pub zone : any (λ z. z.id == a.zone_id && z.organization_id == a.organization_id) zones ≡ true
  pub intervention :
      any (λ i. i.id == a.intervention_id && i.organization_id == a.organization_id) interventions
      ≡ true

abbrev pub AllPlaced : Tables → Type 0
AllPlaced t = All (IsPlaced t.portfolio_runs t.zones t.interventions) t.portfolio_allocations

-- What is pending and what is durable are both placed.
abbrev pub SessionPlaced : Session → Type 0
SessionPlaced s = AllPlaced s.tables × AllPlaced s.durable

module _ (f : Floats) (p : Platform) (t : Tables) (tenant : TenantContext) where
  allocation_rows-IsPlaced :
      (runs : List PortfolioRun) (faithful : IsFaithful p) (now id : ℕ) (as_ : List Allocation)
      (rows : List PortfolioAllocation)
      → has_run id tenant.organization.id runs ≡ true
      → All
          (λ a.
            Names p (λ u. has_zone u tenant.organization.id t.zones) a.zone_id
            × Names p
                (λ u. has_intervention u tenant.organization.id t.interventions)
                a.intervention_id)
          as_
      → allocation_rows f p now tenant id as_ ≡ ok rows
      → All (IsPlaced runs t.zones t.interventions) rows
  unfolding allocation_rows
  allocation_rows-IsPlaced runs faithful now id [] rows run h e = rw (sym (ok-injective e)) tt
  allocation_rows-IsPlaced runs faithful now id (a ∷ as_) rows run h e =
      let (u, zone_id, e1) = >>=-eq-ok (parsed f p a.zone_id) _ e in
      let (v, item_id, e2) = >>=-eq-ok (parsed f p a.intervention_id) _ e1 in
      let (others, rest, whole) = >>=-eq-ok (allocation_rows f p now tenant id as_) _ e2 in
      let same : rows ≡ allocation_row f p now tenant id a u v ∷ others =
        sym (ok-injective whole) in
      rw same (
        record {
          run = run;
          zone =
              parsed_row p faithful (λ x. has_zone x tenant.organization.id t.zones) a.zone_id u
                h.0.0 zone_id;
          intervention =
              parsed_row p faithful (λ x. has_intervention x tenant.organization.id t.interventions)
                a.intervention_id v h.0.1 item_id;
        },
        allocation_rows-IsPlaced runs faithful now id as_ others run h.1 rest,
      )

IsPlaced-grown :
    (run : PortfolioRun) (runs : List PortfolioRun) (zones : List Zone)
    (interventions : List Intervention) (rows : List PortfolioAllocation)
    → All (IsPlaced runs zones interventions) rows
    → All (IsPlaced (runs ++ (run ∷ [])) zones interventions) rows
IsPlaced-grown run runs zones interventions rows h =
    All-imp _ _ rows
      (λ a g. record {
        run = any-append _ runs (run ∷ []) g.run;
        zone = g.zone;
        intervention = g.intervention;
      })
      h

module _ (f : Floats) (p : Platform) (faithful : IsFaithful p) (solver : Solver) (id now : ℕ)
    (r : OptimizeRequest) where
  stored-SessionPlaced :
      (tenant : TenantContext) (s : Session) (result : PortfolioResult)
      (rows : Result (List PortfolioAllocation))
      → All
          (λ a.
            Names p (λ u. has_zone u tenant.organization.id s.tables.zones) a.zone_id
            × Names p
                (λ u. has_intervention u tenant.organization.id s.tables.interventions)
                a.intervention_id)
          result.allocations
      → allocation_rows f p now tenant id result.allocations ≡ rows
      → SessionPlaced s
      → SessionPlaced (stored f p r (new_portfolio f p id now tenant r result) result rows s).1
  stored-SessionPlaced tenant s result (err e) named made h = (h.1, h.1)
  stored-SessionPlaced tenant s result (ok rows) named made h =
      let run : PortfolioRun = new_portfolio f p id now tenant r result in
      let runs : List PortfolioRun = s.tables.portfolio_runs ++ (run ∷ []) in
      let own : has_run id tenant.organization.id runs ≡ true =
        any-last _ s.tables.portfolio_runs run (ground arith) in
      let all_rows : All (IsPlaced runs s.tables.zones s.tables.interventions)
          (s.tables.portfolio_allocations ++ rows) =
        All-append _ s.tables.portfolio_allocations rows
          (IsPlaced-grown run s.tables.portfolio_runs s.tables.zones s.tables.interventions _ h.0)
          (allocation_rows-IsPlaced f p s.tables tenant runs faithful now id result.allocations rows
            own named made) in
      (all_rows, all_rows)

  saved-SessionPlaced :
      (tenant : TenantContext) (s : Session) (result : Result PortfolioResult)
      → optimize_refusal r tenant s.tables ≡ none
      → optimized f p solver r tenant s.tables ≡ result
      → SessionPlaced s
      → SessionPlaced (saved f p id now r tenant result s).1
  saved-SessionPlaced tenant s (err e) clear made h = h
  saved-SessionPlaced tenant s (ok result) clear made h =
      stored-SessionPlaced tenant s result _
        (pairs_named f p solver r tenant s.tables result
          (zones_stored f p solver r tenant s.tables clear) made)
        refl h

  -- If UUIDs read back from their text, and every allocation, pending or durable, names a portfolio, a
  -- zone and an intervention that are stored and of its organization, that is so after a request for
  -- a new portfolio, whatever it asks for and whatever the solver answers.
  pub optimize-SessionPlaced :
      (tenant : TenantContext) (s : Session)
      → SessionPlaced s
      → SessionPlaced (optimize f p solver id now tenant r s).1
  unfolding optimize require_tenant_roles
  optimize-SessionPlaced tenant s h = elim (Bool-cases (role_in tenant.membership.role writers)) [
    | inl allowed ↦ elim (Option-cases (optimize_refusal r tenant s.tables)) [
      | inl clear ↦ rw (allowed, clear) (saved-SessionPlaced tenant s _ clear refl h)
      | inr (failure, refused) ↦ rw (allowed, refused) h
    ]
    | inr other ↦ rw other h
  ]
