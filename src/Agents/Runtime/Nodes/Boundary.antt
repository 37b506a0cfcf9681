-- ===== src/Agents/Runtime/Nodes/Boundary.antt =====
-- Nothing of a provider's text reaches a grounded run: only its safe facts matter.
use coolproof.Base.{ℕ, String, ◌≡◌, refl, sym, ap, ◌∙◌, true, Option, List, [], ◌∷◌, arith}
use coolproof.Json.{Fields, is_truthy}
use coolproof.Platform.{Platform}
use coolproof.Failure.{Result, ok, err, ok-injective, err≢ok, Gives, of_Gives, ◌>>=◌}
use coolproof.Db.Models.{AgentRun}
use coolproof.Db.Session.{Session, Tables}
use coolproof.Agents.Providers.{AgentOutput, LlmProvider}
use coolproof.Agents.Grounding.Facts.{safe_provider_facts}
use coolproof.Agents.Grounding.References.{references}
use coolproof.Agents.Grounding.Resolve.{resolve_project, resolve_heat, resolve_portfolio}
use coolproof.Agents.Grounding.Catalogue.{grounding_dict, resolve_interventions, resolve_grounding}
use coolproof.Agents.Runtime.State.{CoolProofState, GraphInput, agent_names}
use coolproof.Agents.Runtime.Nodes.{
  record_facts, absorb_grounded, provider_context, run_node, entry_state, channels_of, invoke,
  run_chain, run_graph,
}
use coolproof.Agents.Runtime.Execution.{
  compute, run_loaded, execute_run, start, settle, from_channels,
}

module _ (p : Platform) where
  -- Two answers with the same safe facts, or the same error.
  abbrev pub Agree : Result AgentOutput → Result AgentOutput → Type 0
  Agree (ok a) (ok b) = safe_provider_facts p a.facts ≡ safe_provider_facts p b.facts
  Agree (err e) (err f) = e ≡ f
  Agree _ _ = ⊥

  -- The output of a node, once the provider has answered.
  abbrev pub absorbed : String → CoolProofState → AgentOutput → Result CoolProofState
  absorbed name s output = ok (absorb_grounded p name output s)

  absorbed-Agree :
      (name : String) (s : CoolProofState) (a b : Result AgentOutput)
      → Agree a b
      → (a >>= absorbed name s) ≡ (b >>= absorbed name s)
  unfolding absorb_grounded
  absorbed-Agree name s (ok a) (ok b) h = rw h
  absorbed-Agree name s (err e) (err f) h = ap err h
  absorbed-Agree name s (ok a) (err f) h = absurd h
  absorbed-Agree name s (err e) (ok b) h = absurd h

  run_node_grounded :
      (provider : LlmProvider) (name : String) (s : CoolProofState)
      → is_truthy s.grounding ≡ true
      → run_node p provider name s
        ≡ (provider.complete name (provider_context s) >>= absorbed name s)
  unfolding run_node
  run_node_grounded provider name s h = rw h

  grounding-record_facts :
      (name summary : String) (facts : Fields) (s : CoolProofState)
      → (record_facts name summary facts s).grounding ≡ s.grounding
  unfolding record_facts
  grounding-record_facts name summary facts s = ground arith

  pub grounding-absorb_grounded :
      (name : String) (output : AgentOutput) (s : CoolProofState)
      → (absorb_grounded p name output s).grounding ≡ s.grounding
  unfolding absorb_grounded record_facts
  grounding-absorb_grounded name output s = ground arith

  -- The channels after a node that was given an answer, if the grounding is there.
  pub invoke_grounded :
      (provider : LlmProvider) (name : String) (raw : GraphInput)
      → is_truthy raw.grounding ≡ true
      → invoke p provider name raw ≡ (
          (provider.complete name (provider_context (entry_state raw))
            >>= absorbed name (entry_state raw))
          >>= λ s. ok (channels_of s))
  unfolding invoke
  invoke_grounded provider name raw h =
      ap (λ (r : Result CoolProofState). r >>= λ s. ok (channels_of s))
        (run_node_grounded provider name (entry_state raw) h)

  ok_absorbed_grounding :
      (name : String) (s : CoolProofState) (r : Result AgentOutput) (next : GraphInput)
      → is_truthy s.grounding ≡ true
      → ((r >>= absorbed name s) >>= λ t. ok (channels_of t)) ≡ ok next
      → is_truthy next.grounding ≡ true
  ok_absorbed_grounding name s (ok output) next h e =
      ap is_truthy (sym (ap (λ (c : GraphInput). c.grounding) (ok-injective e)))
      ∙ ap is_truthy (grounding-absorb_grounded name output s)
      ∙ h
  ok_absorbed_grounding name s (err f) next h e = absurd (err≢ok e)

  grounding-invoke :
      (provider : LlmProvider) (name : String) (raw : GraphInput)
      → is_truthy raw.grounding ≡ true
      → (next : GraphInput) → invoke p provider name raw ≡ ok next
      → is_truthy next.grounding ≡ true
  grounding-invoke provider name raw h next e =
      ok_absorbed_grounding name (entry_state raw) _ next h
        (sym (invoke_grounded provider name raw h) ∙ e)

abbrev Truthy : Fields → Type 0
Truthy grounding = is_truthy grounding ≡ true

four-Truthy :
    (p : Platform) (project heat portfolio : Result (Option Fields))
    (interventions : Result (List Fields))
    → Gives Truthy (
        project >>= λ a.
        heat >>= λ b. portfolio >>= λ c. interventions >>= λ d. ok (grounding_dict p a b c d))
four-Truthy p (ok a) (ok b) (ok c) (ok d) = refl
four-Truthy p (ok a) (ok b) (ok c) (err e) = tt
four-Truthy p (ok a) (ok b) (err e) d = tt
four-Truthy p (ok a) (err e) c d = tt
four-Truthy p (err e) b c d = tt

resolve_grounding_truthy :
    (p : Platform) (t : Tables) (organization_id now : ℕ) (project_id : Option ℕ)
    (input_data grounding : Fields)
    → resolve_grounding p t organization_id now project_id input_data ≡ ok grounding
    → is_truthy grounding ≡ true
unfolding resolve_grounding
resolve_grounding_truthy p t organization_id now project_id input_data grounding h =
    let refs = references input_data in
    of_Gives Truthy (resolve_grounding p t organization_id now project_id input_data) grounding
      (four-Truthy p (resolve_project p t organization_id project_id)
        (resolve_heat p t organization_id now project_id refs.heat)
        (resolve_portfolio p t organization_id project_id refs.portfolio)
        (resolve_interventions p t organization_id refs.intervention))
      h

module _ (p : Platform) (one two : LlmProvider)
    (agree : (agent : String) (context : Fields)
      → Agree p (one.complete agent context) (two.complete agent context)) where
  invoke-Agree :
      (name : String) (raw : GraphInput)
      → is_truthy raw.grounding ≡ true
      → invoke p one name raw ≡ invoke p two name raw
  invoke-Agree name raw h =
      invoke_grounded p one name raw h
      ∙ ap (λ (r : Result CoolProofState). r >>= λ s. ok (channels_of s))
          (absorbed-Agree p name (entry_state raw) _ _
            (agree name (provider_context (entry_state raw))))
      ∙ sym (invoke_grounded p two name raw h)

  -- One node keeps the grounding, so the next one is grounded too.
  chain-Agree :
      (names : List String) (r : Result GraphInput)
      → ((next : GraphInput) → r ≡ ok next → is_truthy next.grounding ≡ true)
      → ((next : GraphInput)
          → is_truthy next.grounding ≡ true
          → run_chain p one names next ≡ run_chain p two names next)
      → (r >>= run_chain p one names) ≡ (r >>= run_chain p two names)
  chain-Agree names (ok next) grounded same = same next (grounded next refl)
  chain-Agree names (err e) grounded same = refl

  run_chain-Agree :
      (names : List String) (raw : GraphInput)
      → is_truthy raw.grounding ≡ true
      → run_chain p one names raw ≡ run_chain p two names raw
  unfolding run_chain
  run_chain-Agree [] raw h = refl
  run_chain-Agree (name ∷ names) raw h =
      ap (λ (r : Result GraphInput). r >>= run_chain p one names) (invoke-Agree name raw h)
      ∙ chain-Agree names (invoke p two name raw) (grounding-invoke p two name raw h)
          (run_chain-Agree names)

  graph_agree :
      (grounding : Fields) (run : AgentRun) (state : CoolProofState)
      → is_truthy grounding ≡ true
      → (run_graph p one (channels_of (record state { grounding = grounding })) >>= λ r.
          ok (from_channels p run r))
        ≡ (run_graph p two (channels_of (record state { grounding = grounding })) >>= λ r.
            ok (from_channels p run r))
  unfolding run_graph
  graph_agree grounding run state h =
      ap (λ (r : Result GraphInput). r >>= λ g. ok (from_channels p run g))
        (run_chain-Agree agent_names (channels_of (record state { grounding = grounding })) h)

  grounded_agree :
      (grounding : Result Fields) (run : AgentRun) (state : CoolProofState)
      → ((g : Fields) → grounding ≡ ok g → is_truthy g ≡ true)
      → (grounding >>= λ g. run_graph p one (channels_of (record state { grounding = g })) >>= λ r.
          ok (from_channels p run r))
        ≡ (grounding >>= λ g.
            run_graph p two (channels_of (record state { grounding = g })) >>= λ r.
            ok (from_channels p run r))
  grounded_agree (ok g) run state h = graph_agree g run state (h g refl)
  grounded_agree (err e) run state h = refl

  compute_agree :
      (now : ℕ) (run : AgentRun) (t : Tables) (state : CoolProofState)
      → compute p one now run t state ≡ compute p two now run t state
  unfolding compute
  compute_agree now run t state =
      grounded_agree (resolve_grounding p t run.organization_id now run.project_id run.input_json)
        run state
        (resolve_grounding_truthy p t run.organization_id now run.project_id run.input_json)

  run_loaded_agree :
      (now : ℕ) (state : Result CoolProofState) (begun : AgentRun × Session)
      → run_loaded p one now state begun ≡ run_loaded p two now state begun
  run_loaded_agree now (err e) (run, s) = refl
  run_loaded_agree now (ok state) (run, s) =
      ap (λ r. let (run', s') = settle run s r in (ok run', s'))
        (compute_agree now run s.tables state)

  -- Two providers that fail on the same contexts with the same errors, and otherwise answer with
  -- facts of the same safe part, are interchangeable: whatever summaries, citations, model names and
  -- other facts they send, an execution gives the same run and leaves the same session.
  pub execute_run_agree :
      (now : ℕ) (run : AgentRun) (s : Session)
      → execute_run p (ok one) now run s ≡ execute_run p (ok two) now run s
  unfolding execute_run
  execute_run_agree now run s = run_loaded_agree now _ (start run s)
