-- ===== src/Agents/Evaluation/Passed.antt =====
-- app/agents/evaluation.py: a case passes exactly if the provider's answer has all that it asks for.
use coolproof.Base.{
  ℕ, suc, String, str_eq_refl, eq_iff, Bool, true, false, not, ◌&&◌, ◌||◌, ◌≡◌, ◌≢◌, refl, sym, ap,
  subst, some-injective, Option, none, some, List, [], ◌∷◌, arith,
}
use coolproof.Json.{Value, null, bool, int, float, str, uuid, obj, arr, get}
use coolproof.Failure.{Result, ok, err, ok-injective, err≢ok}
use coolproof.Agents.Providers.{AgentOutput, LlmProvider}
use coolproof.Agents.Evaluation.{
  EvalCase, CaseResult, has_passed, is_cited, is_text, has_tool, is_true, case_result, latency,
  results_of, evaluate_provider,
}
use coolproof.Floats.{Floats}

-- What a case asks of an output: citations, the tool, the note that the budget is preserved, and the
-- request for an approval.
pub record Meets (case : EvalCase) (output : AgentOutput) : Type 0 where
  pub cited : case.requires_citations ≡ true → output.citations ≢ []
  pub tool :
      (expected : String)
      → case.expected_tool ≡ some expected
      → get "tool" output.facts ≡ some (str expected)
  pub budget :
      case.requires_budget_preserved ≡ true
      → get "budget_preserved" output.facts ≡ some (Value.bool true)
  pub approval : case.requires_approval ≡ true → output.needs_approval ≡ true

is_cited_sound : (cs : List String) → is_cited cs ≡ true → cs ≢ []
is_cited_sound [] h e = absurd (cc h)
is_cited_sound (c ∷ cs) h e = absurd (cc e)

is_cited_complete : (cs : List String) → cs ≢ [] → is_cited cs ≡ true
is_cited_complete [] h = absurd (h refl)
is_cited_complete (c ∷ cs) h = refl

is_text_sound : (v : Option Value) (s : String) → is_text v s ≡ true → v ≡ some (str s)
is_text_sound (some (str t)) s h = ap (λ x. some (str x)) ((eq_iff t s).0 h)
is_text_sound none s h = absurd (cc h)
is_text_sound (some null) s h = absurd (cc h)
is_text_sound (some (bool b)) s h = absurd (cc h)
is_text_sound (some (int n)) s h = absurd (cc h)
is_text_sound (some (float x)) s h = absurd (cc h)
is_text_sound (some (uuid u)) s h = absurd (cc h)
is_text_sound (some (obj d)) s h = absurd (cc h)
is_text_sound (some (arr vs)) s h = absurd (cc h)

is_true_sound : (v : Option Value) → is_true v ≡ true → v ≡ some (Value.bool true)
is_true_sound (some (bool b)) h = ap (λ x. some (Value.bool x)) h
is_true_sound none h = absurd (cc h)
is_true_sound (some null) h = absurd (cc h)
is_true_sound (some (int n)) h = absurd (cc h)
is_true_sound (some (float x)) h = absurd (cc h)
is_true_sound (some (str s)) h = absurd (cc h)
is_true_sound (some (uuid u)) h = absurd (cc h)
is_true_sound (some (obj d)) h = absurd (cc h)
is_true_sound (some (arr vs)) h = absurd (cc h)

has_tool_sound :
    (tool : Option String) (output : AgentOutput) (expected : String)
    → has_tool tool output ≡ true
    → tool ≡ some expected
    → get "tool" output.facts ≡ some (str expected)
has_tool_sound none output expected h e = absurd (cc e)
has_tool_sound (some t) output expected h e =
    subst (λ s. get "tool" output.facts ≡ some (str s)) (some-injective _ _ e)
      (is_text_sound (get "tool" output.facts) t h)

has_tool_complete :
    (tool : Option String) (output : AgentOutput)
    → ((expected : String) → tool ≡ some expected → get "tool" output.facts ≡ some (str expected))
    → has_tool tool output ≡ true
has_tool_complete none output h = refl
has_tool_complete (some t) output h = rw (h t refl) (str_eq_refl t)

if_asked : (asked holds : Bool) → (not asked || holds) ≡ true → asked ≡ true → holds ≡ true
if_asked asked holds h a = ground arith

not_or : (asked holds : Bool) → (asked ≡ true → holds ≡ true) → (not asked || holds) ≡ true
not_or true holds h = h refl
not_or false holds h = refl

four_and :
    (a b c d : Bool)
    → (true && a && b && c && d) ≡ true
    → (a ≡ true) × (b ≡ true) × (c ≡ true) × (d ≡ true)
four_and a b c d h = ground arith

and_four :
    (a b c d : Bool) → a ≡ true → b ≡ true → c ≡ true → d ≡ true → (true && a && b && c && d) ≡ true
and_four a b c d ha hb hc hd = ground arith

-- The answer to a case is an output that meets it.
abbrev pub Answers : EvalCase → Result AgentOutput → Type 0
Answers case result = (output : AgentOutput) × (result ≡ ok output) × Meets case output

module _ (case : EvalCase) (latency_ms : ℕ) where
  case_result_sound :
      (result : Result AgentOutput)
      → has_passed (case_result case latency_ms result) ≡ true
      → Answers case result
  unfolding has_passed case_result
  case_result_sound (err failure) h = absurd (cc h)
  case_result_sound (ok output) h =
      let (cited, tool, budget, approval) = four_and _ _ _ _ h in
      (
        output,
        refl,
        record {
          cited = λ a. is_cited_sound output.citations (if_asked _ _ cited a);
          tool = λ expected. has_tool_sound case.expected_tool output expected tool;
          budget = λ a. is_true_sound (get "budget_preserved" output.facts) (if_asked _ _ budget a);
          approval = λ a. if_asked _ _ approval a;
        },
      )

  case_result_complete :
      (result : Result AgentOutput)
      → Answers case result
      → has_passed (case_result case latency_ms result) ≡ true
  unfolding has_passed case_result
  case_result_complete (err failure) (output, e, meets) = absurd (err≢ok e)
  case_result_complete (ok given) (output, e, meets) =
      let met : Meets case given = subst (Meets case) (sym (ok-injective e)) meets in
      and_four _ _ _ _
        (not_or case.requires_citations _ (λ a. is_cited_complete given.citations (met.cited a)))
        (has_tool_complete case.expected_tool given met.tool)
        (not_or case.requires_budget_preserved _ (λ a. rw (met.budget a) refl))
        (not_or case.requires_approval _ met.approval)

-- A result per case, in the order of the cases, that says exactly whether the provider answers it.
abbrev pub AreJudged : LlmProvider → List EvalCase → List CaseResult → Type 0
AreJudged provider [] [] = Unit
AreJudged provider [] (r ∷ rs) = ⊥
AreJudged provider (case ∷ cases) [] = ⊥
AreJudged provider (case ∷ cases) (r ∷ rs) =
    (r.case_id ≡ case.case_id)
    × (has_passed r ≡ true → Answers case (provider.complete case.agent case.context))
    × (Answers case (provider.complete case.agent case.context) → has_passed r ≡ true)
    × AreJudged provider cases rs

module _ (f : Floats) (provider : LlmProvider) (clock : ℕ → ℕ) where
  case_id-case_result :
      (case : EvalCase) (latency_ms : ℕ) (result : Result AgentOutput)
      → (case_result case latency_ms result).case_id ≡ case.case_id
  unfolding case_result
  case_id-case_result case latency_ms (ok output) = refl
  case_id-case_result case latency_ms (err failure) = refl

  results_of-AreJudged :
      (n : ℕ) (cases : List EvalCase)
      → AreJudged provider cases (results_of f provider clock n cases)
  unfolding results_of
  results_of-AreJudged n [] = tt
  results_of-AreJudged n (case ∷ cases) =
      let result : Result AgentOutput = provider.complete case.agent case.context in
      (
        case_id-case_result case (latency f clock n) result,
        case_result_sound case (latency f clock n) result,
        case_result_complete case (latency f clock n) result,
        results_of-AreJudged (suc (suc n)) cases,
      )

  -- The report has one result per case, in their order, and a case has passed exactly if the provider gives
  -- an output with the citations, the tool, the preserved budget and the request for an approval that the
  -- case asks for. A case on which it raises has not passed.
  pub evaluate_provider-AreJudged :
      (cases : List EvalCase)
      → AreJudged provider cases (evaluate_provider f provider clock cases).cases
  unfolding evaluate_provider
  evaluate_provider-AreJudged cases = results_of-AreJudged 0 cases
