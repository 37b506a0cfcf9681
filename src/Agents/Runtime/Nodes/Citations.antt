-- ===== src/Agents/Runtime/Nodes/Citations.antt =====
-- Where the citations of a grounded run come from: never from a provider.
use coolproof.Base.{
  String, eq_iff, text_in, true, false, ◌||◌, ◌≡◌, refl, ap, ◌∙◌, List, [], ◌∷◌, ◌++◌, Bool-cases,
  inl, inr, arith,
}
use coolproof.Json.{Fields, is_truthy}
use coolproof.Platform.{Platform}
use coolproof.Failure.{Result, ok, err, Gives, of_Gives, ◌>>=◌}
use coolproof.Agents.Providers.{AgentOutput, LlmProvider}
use coolproof.Agents.Grounding.Summary.{grounded_citations}
use coolproof.Agents.Runtime.State.{CoolProofState, GraphInput, agent_names}
use coolproof.Agents.Runtime.Nodes.{
  extend_new, record_facts, absorb_grounded, entry_state, channels_of, invoke, run_chain, run_graph,
}
use coolproof.Agents.Runtime.Nodes.Boundary.{absorbed, grounding-absorb_grounded, invoke_grounded}

abbrev pub NoDoubles : List String → Type 0
NoDoubles [] = Unit
NoDoubles (c ∷ cs) = (text_in c cs ≡ false) × NoDoubles cs

text_in-append :
    (c : String) (xs ys : List String) → text_in c (xs ++ ys) ≡ (text_in c xs || text_in c ys)
unfolding text_in
text_in-append c [] ys = refl
text_in-append c (x ∷ xs) ys = ground (arith, text_in-append c xs ys)

snoc-NoDoubles :
    (c : String) (xs : List String)
    → text_in c xs ≡ false
    → NoDoubles xs
    → NoDoubles (xs ++ (c ∷ []))
unfolding text_in
snoc-NoDoubles c [] new h = (refl, tt)
snoc-NoDoubles c (x ∷ xs) new h =
    ground (arith, text_in-append x xs (c ∷ []), eq_iff c x, eq_iff x c, snoc-NoDoubles c xs)

-- What `extend_new` appends are the new citations, each once.
text_in-extend_new :
    (c : String) (citations new : List String)
    → text_in c (extend_new citations new) ≡ (text_in c citations || text_in c new)
unfolding extend_new text_in
text_in-extend_new c citations [] = ground arith
text_in-extend_new c citations (d ∷ new) = elim (Bool-cases (text_in d citations)) [
  | inl known ↦ rw known (ground (arith, text_in-extend_new c citations new, eq_iff c d))
  | inr fresh ↦ rw fresh (
      ground (
        arith,
        text_in-extend_new c (citations ++ (d ∷ [])) new,
        text_in-append c citations (d ∷ []),
      ))
]

extend_new-NoDoubles :
    (citations new : List String) → NoDoubles citations → NoDoubles (extend_new citations new)
unfolding extend_new
extend_new-NoDoubles citations [] h = h
extend_new-NoDoubles citations (d ∷ new) h = elim (Bool-cases (text_in d citations)) [
  | inl known ↦ rw known (extend_new-NoDoubles citations new h)
  | inr fresh ↦
      rw fresh
        (extend_new-NoDoubles (citations ++ (d ∷ [])) new (snoc-NoDoubles d citations fresh h))
]

-- The citations `now`, where `known` were there before and `grounding` is what the rows gave.
pub record AreGrounded (known : List String) (grounding : Fields) (now : List String) : Type 0 where
  pub no_doubles : NoDoubles now
  pub kept : (c : String) → text_in c known ≡ true → text_in c now ≡ true
  pub sourced :
      (c : String)
      → text_in c now ≡ true
      → (text_in c known || text_in c (grounded_citations grounding)) ≡ true

extend_new-AreGrounded :
    (known : List String) (grounding : Fields) (now : List String)
    → AreGrounded known grounding now
    → AreGrounded known grounding (extend_new now (grounded_citations grounding))
extend_new-AreGrounded known grounding now h = record {
  no_doubles = extend_new-NoDoubles now (grounded_citations grounding) h.no_doubles;
  kept = λ c e. ground (arith, text_in-extend_new c now (grounded_citations grounding), h.kept c e);
  sourced =
      λ c e. ground (arith, text_in-extend_new c now (grounded_citations grounding), h.sourced c);
}

-- Channels between two nodes, where the run began with the citations `known` and `grounding`.
abbrev Between : List String → Fields → GraphInput → Type 0
Between known grounding raw =
    (raw.grounding ≡ grounding) × AreGrounded known grounding raw.citations

module _ (p : Platform) (provider : LlmProvider) (known : List String) (grounding : Fields) where
  citations-absorb_grounded :
      (name : String) (output : AgentOutput) (s : CoolProofState)
      → (absorb_grounded p name output s).citations
        ≡ extend_new s.citations (grounded_citations s.grounding)
  unfolding absorb_grounded record_facts
  citations-absorb_grounded name output s = ground arith

  absorbed-Between :
      (name : String) (raw : GraphInput) (r : Result AgentOutput)
      → Between known grounding raw
      → Gives
          (Between known grounding)
          ((r >>= absorbed p name (entry_state raw)) >>= λ s. ok (channels_of s))
  absorbed-Between name raw (ok output) (same, h) = (
    grounding-absorb_grounded p name output (entry_state raw) ∙ same,
    rw (citations-absorb_grounded name output (entry_state raw), same)
        (extend_new-AreGrounded known grounding raw.citations h),
  )
  absorbed-Between name raw (err e) h = tt

  invoke-Between :
      (name : String) (raw : GraphInput)
      → is_truthy grounding ≡ true
      → Between known grounding raw
      → Gives (Between known grounding) (invoke p provider name raw)
  invoke-Between name raw truthy h =
      rw (invoke_grounded p provider name raw (ap is_truthy h.0 ∙ truthy))
        (absorbed-Between name raw _ h)

  bind-Between :
      (r : Result GraphInput) (rest : GraphInput → Result GraphInput)
      → Gives (Between known grounding) r
      → ((next : GraphInput)
          → Between known grounding next
          → Gives (Between known grounding) (rest next))
      → Gives (Between known grounding) (r >>= rest)
  bind-Between (ok next) rest h continue_ = continue_ next h
  bind-Between (err e) rest h continue_ = tt

  run_chain-Between :
      (names : List String) (raw : GraphInput)
      → is_truthy grounding ≡ true
      → Between known grounding raw
      → Gives (Between known grounding) (run_chain p provider names raw)
  unfolding run_chain
  run_chain-Between [] raw truthy h = h
  run_chain-Between (name ∷ names) raw truthy h =
      bind-Between (invoke p provider name raw) (run_chain p provider names)
        (invoke-Between name raw truthy h) (λ next h'. run_chain-Between names next truthy h')

-- If the graph runs to its end on a grounded state, its citations hold none twice, keep those that the
-- state had, and hold besides those only what the grounding resolved from the tenant's rows: no
-- citation is a provider's.
pub run_graph-AreGrounded :
    (p : Platform) (provider : LlmProvider) (raw next : GraphInput)
    → is_truthy raw.grounding ≡ true
    → NoDoubles raw.citations
    → run_graph p provider raw ≡ ok next
    → AreGrounded raw.citations raw.grounding next.citations
unfolding run_graph
run_graph-AreGrounded p provider raw next truthy distinct h =
    (of_Gives (Between raw.citations raw.grounding) (run_graph p provider raw) next
      (run_chain-Between p provider raw.citations raw.grounding agent_names raw truthy
        (refl, record { no_doubles = distinct; kept = λ c e. e; sourced = λ c e. rw e refl }))
      h).1
