-- ===== src/Assessment/Tests.antt =====
-- A run of two rules on two claims, and the theorems about app/modules/assessment_run/service.py
-- at it.
use regnova.Prelude.{Option, ◌≡◌, refl, ℕ, String, true, none, some, List, [], ◌∷◌, ◌⊎◌, map}
use regnova.Engine.Value.{Fields, str, end}
use regnova.Engine.Compare.{equals}
use regnova.Engine.Node.{comparison, leaf}
use regnova.Engine.Tests.{thousandths, rule, blurred, program}
use regnova.Finding.Tests.{empty}
use regnova.Assessment.Model.{
  fail_closed, request_input, requirement_result, RuleVersion, AssessmentRun, Db, Services,
  non_compliant, human_review_required,
}
use regnova.Assessment.Step.{run_step, run_rules, run_subjects}
use regnova.Assessment.State.{derive_dimension_state}
use regnova.Assessment.Safety.{has_untrusted, run_subjects-untrusted}
use regnova.Assessment.Attempts.{Attempt, attempts}
use regnova.Assessment.Results.{has_unmet, run_subjects-unmet}

assessment_program : Unit {0}
unfolding program run_step run_rules run_subjects
assessment_program = tt

abbrev services : Services ℕ
services = record {
  uuid4 = λ n. n;
  hash_facts = λ facts. "hash";
  dumps = λ v. "json";
  two_digits = λ c. "0.40";
  rule_issue_type = λ id. "rule";
}

-- A claim is met where its wording or its strength says so; a label must say "safe".
abbrev claim_rule : RuleVersion ℕ
claim_rule = record {
  id = 31;
  requirement_version_id = some 30;
  condition = rule;
  unknown_behavior = request_input;
  output_type = requirement_result;
  source_locations = [];
}

abbrev label_rule : RuleVersion ℕ
label_rule = record {
  id = 32;
  requirement_version_id = some 33;
  condition = leaf (comparison equals) (record {
    path = some "wording";
    expected = some (str "safe");
    min_confidence = none;
    normalize = none;
  });
  unknown_behavior = fail_closed;
  output_type = requirement_result;
  source_locations = [];
}

abbrev pub run : AssessmentRun
run = record { id = 40; organization_id = 7; product_market_state_id = 5 }

abbrev claims : List (Option String × Fields ℕ)
claims = (some "claim-1", blurred) ∷ (some "claim-2", end) ∷ []

abbrev pub start : Db ℕ
start = record {
  review = empty;
  rule_versions = claim_rule ∷ label_rule ∷ [];
  requirement_versions = [];
  steps = [];
  results = [];
  drawn = 100;
}

abbrev after : List (RuleVersion ℕ) → Db ℕ
after rules = run_subjects thousandths services run "CLAIMS" rules claims none start

claim_rule_untrusted : has_untrusted thousandths (claim_rule ∷ []) claims ≡ true
unfolding assessment_program
claim_rule_untrusted = refl

run_subjects-untrusted_example :
    (derive_dimension_state (after (claim_rule ∷ [])) 40 "CLAIMS" 7 5 ≡ non_compliant)
    ⊎ (derive_dimension_state (after (claim_rule ∷ [])) 40 "CLAIMS" 7 5 ≡ human_review_required)
run_subjects-untrusted_example =
    run_subjects-untrusted thousandths services run "CLAIMS" none (claim_rule ∷ []) claims start
      claim_rule_untrusted

label_rule_unmet : has_unmet thousandths (claim_rule ∷ label_rule ∷ []) claims ≡ true
unfolding assessment_program
label_rule_unmet = refl

run_subjects-unmet_example :
    derive_dimension_state (after (claim_rule ∷ label_rule ∷ [])) 40 "CLAIMS" 7 5 ≡ non_compliant
run_subjects-unmet_example =
    run_subjects-unmet thousandths services run "CLAIMS" none (claim_rule ∷ label_rule ∷ []) claims
      start label_rule_unmet

-- Two rules on each of two subjects, the last one first.
attempted :
    map {B = Option ℕ × Option String}
      (λ (a : Attempt ℕ). (a.rule_version_id, a.subject_key))
      (attempts thousandths (claim_rule ∷ label_rule ∷ []) claims)
    ≡ (some 32, some "claim-2")
      ∷ (some 31, some "claim-2")
      ∷ (some 32, some "claim-1")
      ∷ (some 31, some "claim-1")
      ∷ []
attempted = refl
