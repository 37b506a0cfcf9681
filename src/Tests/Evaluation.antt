-- ===== src/Tests/Evaluation.antt =====
-- The deterministic provider on the frozen cases, and a stream in two parts.
use coolproof.Base.{◌≡◌, ◌++◌, refl, String, false, none, some, List, [], ◌∷◌}
use coolproof.Json.{Value, str, obj, dict}
use coolproof.Agents.Providers.{Wire, deterministic_provider}
use coolproof.Agents.Providers.Calls.{http_stream}
use coolproof.Agents.Evaluation.{EvaluationReport, make_cases, evaluate_provider, passed, total}
use coolproof.Agents.Evaluation.Passed.{AreJudged, evaluate_provider-AreJudged}
use coolproof.Tests.Data.{plain}
use coolproof.Tests.Solver.{whole}

abbrev report : EvaluationReport
report = evaluate_provider whole deterministic_provider (λ n. n) make_cases

-- It cites nothing, calls no tool and asks for no approval, so it passes the odd cases of two agents.
deterministic_score : (total report ≡ 32) × (passed report ≡ 8)
unfolding passed evaluate_provider make_cases coolproof.Agents.Providers.deterministic_complete
    coolproof.Json.get
deterministic_score = (refl, refl)

evaluate_provider-AreJudged_example : AreJudged deterministic_provider make_cases report.cases
evaluate_provider-AreJudged_example =
    evaluate_provider-AreJudged whole deterministic_provider (λ n. n) make_cases

-- Every line of data is a text.
abbrev lines_of_text : Wire
lines_of_text = record {
  post = λ url payload. none;
  loads = λ data_line. some (obj (dict (("text", str data_line) ∷ [])));
  dumps = λ v. "";
  model_validate = λ v. none;
}

abbrev first_part : List String
first_part = "data:Plant" ∷ ": ping" ∷ "data:trees" ∷ []

abbrev second_part : List String
second_part = "data:now" ∷ "data:[DONE]" ∷ "data:later" ∷ []

streamed :
    http_stream lines_of_text plain "nim" (first_part ++ second_part) false
    ≡ ("Plant" ∷ "trees" ∷ "now" ∷ [], none)
unfolding http_stream coolproof.Json.get
streamed = refl
