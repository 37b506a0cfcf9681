-- ===== src/Agents/Evaluation.antt =====
-- app/agents/evaluation.py: the frozen cases, and the report of a provider on them.
pub mod Passed
use coolproof.Base.{
  ℕ, suc, ◌+◌, ◌*◌, ◌==◌, ◌<>◌, String, str_eq, Bool, true, false, not, ◌&&◌, ◌||◌, Option, none,
  some, List, [], ◌∷◌, ◌++◌, map, keep, length, pos, if◌then◌else◌,
}
use coolproof.Json.{Value, bool, int, float, str, arr, obj, Fields, get, dict, items_of}
use coolproof.Failure.{Result, ok, err}
use coolproof.Floats.{Floats}
use coolproof.Agents.Providers.{AgentOutput, LlmProvider}

pub record EvalCase : Type 0 where
  pub case_id : String
  pub agent : String
  pub context : Fields
  pub requires_citations : Bool
  pub expected_tool : Option String
  pub requires_budget_preserved : Bool
  pub requires_approval : Bool

pub record CaseResult : Type 0 where
  pub case_id : String
  pub schema_valid : Bool
  pub grounded : Bool
  pub tool_correct : Bool
  pub budget_preserved : Bool
  pub approval_requested : Bool
  pub latency_ms : ℕ

-- `CaseResult.passed`
unfoldable pub has_passed : CaseResult → Bool
has_passed r =
    r.schema_valid && r.grounded && r.tool_correct && r.budget_preserved && r.approval_requested

pub record EvaluationReport : Type 0 where
  pub provider : String
  pub cases : List CaseResult

abbrev pub total : EvaluationReport → ℕ
total report = length report.cases

-- `EvaluationReport.passed`
unfoldable pub passed : EvaluationReport → ℕ
unfolding keep has_passed
passed report = length (keep has_passed report.cases)

-- The cases on one index, whose two digits are given: an even index has what its case asks for.
abbrev pub case_of : String → String → Fields → EvalCase
case_of case_id agent context = record {
  case_id = case_id;
  agent = agent;
  context = context;
  requires_citations = false;
  expected_tool = none;
  requires_budget_preserved = false;
  requires_approval = false;
}

abbrev pub cases_of : ℕ → String → Bool → List EvalCase
cases_of index digits is_even =
    record (case_of ("heat-" <> digits) "heat_intelligence"
      (dict (("heat_evidence_present", Value.bool is_even) ∷ []))) { requires_citations = is_even }
    ∷ record (case_of ("intervention-" <> digits) "intervention_analyst"
        (dict (("catalogue_entry_present", Value.bool is_even) ∷ []))) {
          requires_citations = is_even;
        }
    ∷ record (case_of ("portfolio-" <> digits) "portfolio" (
        dict
          (("budget", int (pos (750000 + index))) ∷ ("schools_protected", Value.bool true) ∷ []))) {
            expected_tool = some "optimize_portfolio";
            requires_budget_preserved = true;
          }
    ∷ record (case_of ("verification-" <> digits) "verification"
        (dict (("observed_measurements_present", Value.bool is_even) ∷ []))) {
          requires_citations = is_even;
          requires_approval = true;
        }
    ∷ []

unfoldable pub make_cases : List EvalCase
make_cases =
    cases_of 1 "01" false
    ++ cases_of 2 "02" true
    ++ cases_of 3 "03" false
    ++ cases_of 4 "04" true
    ++ cases_of 5 "05" false
    ++ cases_of 6 "06" true
    ++ cases_of 7 "07" false
    ++ cases_of 8 "08" true

-- `bool(output.citations)`
abbrev pub is_cited : List String → Bool
is_cited [] = false
is_cited (c ∷ cs) = true

-- `facts.get("tool") == expected_tool`
abbrev pub is_text : Option Value → String → Bool
is_text (some (str s)) expected = str_eq s expected
is_text _ expected = false

abbrev pub has_tool : Option String → AgentOutput → Bool
has_tool none output = true
has_tool (some expected) output = is_text (get "tool" output.facts) expected

-- `facts.get("budget_preserved") is True`
abbrev pub is_true : Option Value → Bool
is_true (some (bool b)) = b
is_true _ = false

-- The result of a case on what the provider gives: an exception fails all the tests.
unfoldable pub case_result : EvalCase → ℕ → Result AgentOutput → CaseResult
unfolding get
case_result case latency_ms (ok output) = record {
  case_id = case.case_id;
  schema_valid = true;
  grounded = not case.requires_citations || is_cited output.citations;
  tool_correct = has_tool case.expected_tool output;
  budget_preserved =
      not case.requires_budget_preserved || is_true (get "budget_preserved" output.facts);
  approval_requested = not case.requires_approval || output.needs_approval;
  latency_ms = latency_ms;
}
case_result case latency_ms (err failure) = record {
  case_id = case.case_id;
  schema_valid = false;
  grounded = false;
  tool_correct = false;
  budget_preserved = false;
  approval_requested = false;
  latency_ms = latency_ms;
}

module _ (f : Floats) where
  -- `_rate`
  unfoldable pub rate : (CaseResult → Bool) → List CaseResult → ℕ
  unfolding keep
  rate predicate [] = 0
  rate predicate (r ∷ rs) =
      f.div (f.of_int (pos (length (keep predicate (r ∷ rs))))) (f.of_int (pos (length (r ∷ rs))))

  abbrev pub hallucination_rate : List CaseResult → ℕ
  hallucination_rate cases = f.sub (f.of_int (pos 1)) (rate (λ r. r.grounded) cases)

  unfoldable pub average_latency_ms : List CaseResult → ℕ
  average_latency_ms [] = 0
  average_latency_ms (r ∷ rs) =
      f.div (f.total (map (λ r. r.latency_ms) (r ∷ rs))) (f.of_int (pos (length (r ∷ rs))))

  abbrev pub case_out : CaseResult → Value
  case_out r = obj (
      dict (
        ("case_id", str r.case_id)
        ∷ ("passed", Value.bool (has_passed r))
        ∷ ("latency_ms", float r.latency_ms)
        ∷ []))

  unfoldable pub as_dict : EvaluationReport → Fields
  unfolding passed has_passed rate average_latency_ms
  as_dict report = dict (
      ("provider", str report.provider)
      ∷ ("total", int (pos (total report)))
      ∷ ("passed", int (pos (passed report)))
      ∷ ("schema_validity", float (rate (λ r. r.schema_valid) report.cases))
      ∷ ("groundedness", float (rate (λ r. r.grounded) report.cases))
      ∷ ("tool_selection_accuracy", float (rate (λ r. r.tool_correct) report.cases))
      ∷ ("hallucination_rate", float (hallucination_rate report.cases))
      ∷ ("average_latency_ms", float (average_latency_ms report.cases))
      ∷ ("cases", arr (items_of (map case_out report.cases)))
      ∷ [])

  -- The readings of `monotonic()`: a case takes two, and `n` have been taken before.
  abbrev pub latency : (ℕ → ℕ) → ℕ → ℕ
  latency clock n = f.mul (f.sub (clock (suc n)) (clock n)) (f.of_int (pos 1000))

  unfoldable pub results_of : LlmProvider → (ℕ → ℕ) → ℕ → List EvalCase → List CaseResult
  unfolding case_result
  results_of provider clock n [] = []
  results_of provider clock n (case ∷ cases) =
      case_result case (latency clock n) (provider.complete case.agent case.context)
      ∷ results_of provider clock (suc (suc n)) cases

  unfoldable pub evaluate_provider : LlmProvider → (ℕ → ℕ) → List EvalCase → EvaluationReport
  unfolding results_of
  evaluate_provider provider clock cases = record {
    provider = provider.name;
    cases = results_of provider clock 0 cases;
  }
