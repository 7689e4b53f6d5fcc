-- ===== src/Validation/Engine/Laws.antt =====
-- What the result of a validation says of the rules.
use mathlib.Core.List.{append-nil, append_assoc}
use tea_tax_product.Prelude.{
  String, ◌≡◌, refl, ap, ◌∙◌, inl, inr, Bool, not, ◌&&◌, ◌||◌, Option, some, List, [], ◌∷◌, ◌++◌,
  map, is_empty, any, filter, Bool-cases, bool_laws, or_assoc,
}
use tea_tax_product.Prelude.Enum.{◌===◌}
use tea_tax_product.Prelude.Number.{Number}
use tea_tax_product.TaxSituation.{TaxSituation, ValidationIssue}
use tea_tax_product.TaxSituation.Unions.{error, validation_severity_eq, ValidationSeverity-discrete}
use tea_tax_product.Rules.{validation_rules}
use tea_tax_product.Rules.Missing.{
  check_missing_schedule_c, check_missing_schedule_se, check_missing_schedule_d,
  check_missing_schedule_e,
}
use tea_tax_product.Rules.Contradiction.{
  check_contradiction_single_with_dependent_spouse,
  check_contradiction_hoh_without_qualifying_dependent, check_contradiction_mfs_with_eitc,
}
use tea_tax_product.Rules.Implausible.{check_implausible_negative_withholding}
use tea_tax_product.Rules.IncompleteChain.{check_incomplete_chain_schedule_d_without_form_8949}
use tea_tax_product.Rules.Threshold.{check_threshold_eitc_above_qualifying_agi}
use tea_tax_product.Rules.Types.{ValidationRuleDefinition}
use tea_tax_product.Validation.Confidence.{uncertainty_warnings}
use tea_tax_product.Validation.Engine.{
  rule_to_field_path, run_rule, Issues, push_issue, run_rules, validate,
}

-- The issue that a rule raises.
abbrev pub issue_of : ValidationRuleDefinition → ValidationIssue
issue_of rule = record {
  code = rule.id;
  severity = rule.severity;
  field = rule_to_field_path rule.id;
  message = rule.message;
  suggested_action = some rule.suggested_action;
}

abbrev pub is_violated_error : TaxSituation → ValidationRuleDefinition → Bool
is_violated_error s rule = rule.check s && rule.severity === error

abbrev pub is_violated_other : TaxSituation → ValidationRuleDefinition → Bool
is_violated_other s rule = rule.check s && not (rule.severity === error)

module _ (s : TaxSituation) where
  abbrev pub errors_of : List ValidationRuleDefinition → List ValidationIssue
  errors_of rules = map issue_of (filter (is_violated_error s) rules)

  abbrev pub warnings_of : List ValidationRuleDefinition → List ValidationIssue
  warnings_of rules = map issue_of (filter (is_violated_other s) rules)

  -- What one rule adds to each list.
  push_rule :
      (i : Issues) (rule : ValidationRuleDefinition)
      → push_issue i (run_rule rule s) ≡ record {
        errors = i.errors ++ errors_of (rule ∷ []);
        warnings = i.warnings ++ warnings_of (rule ∷ []);
      }
  unfolding push_issue run_rule filter
  push_rule i rule = elim (Bool-cases (rule.check s)) [
    | inl violated ↦ elim (Bool-cases (rule.severity === error)) [
      | inl e ↦ rw (violated, e) (simp append-nil)
      | inr e ↦ rw (violated, e) (simp append-nil)
    ]
    | inr passed ↦ rw passed (simp append-nil)
  ]

  errors_of-cons :
      (rule : ValidationRuleDefinition) (rules : List ValidationRuleDefinition)
      → errors_of (rule ∷ []) ++ errors_of rules ≡ errors_of (rule ∷ rules)
  unfolding filter
  errors_of-cons rule rules = elim (Bool-cases (is_violated_error s rule)) [
    | inl h ↦ rw h
    | inr h ↦ rw h
  ]

  warnings_of-cons :
      (rule : ValidationRuleDefinition) (rules : List ValidationRuleDefinition)
      → warnings_of (rule ∷ []) ++ warnings_of rules ≡ warnings_of (rule ∷ rules)
  unfolding filter
  warnings_of-cons rule rules = elim (Bool-cases (is_violated_other s rule)) [
    | inl h ↦ rw h
    | inr h ↦ rw h
  ]

  run_rules_lem :
      (i : Issues) (rules : List ValidationRuleDefinition)
      → run_rules i rules s ≡ record {
        errors = i.errors ++ errors_of rules;
        warnings = i.warnings ++ warnings_of rules;
      }
  run_rules_lem i [] = unfold run_rules filter in simp append-nil
  run_rules_lem i (rule ∷ rules) =
      run_rules-cons
      ∙ ap (λ j. run_rules j rules s) (push_rule i rule)
      ∙ run_rules_lem
          (record {
            errors = i.errors ++ errors_of (rule ∷ []);
            warnings = i.warnings ++ warnings_of (rule ∷ []);
          })
          rules
      ∙ simp (append_assoc, errors_of-cons rule rules, warnings_of-cons rule rules)
    where
      run_rules-cons :
          run_rules i (rule ∷ rules) s ≡ run_rules (push_issue i (run_rule rule s)) rules s
      run_rules-cons = unfold run_rules in refl

-- The errors of a validation are the issues of the violated rules of severity error, and its warnings
-- those of the other violated rules and then those of the confidence scores, in the order of the rules.
pub validate_issues :
    (birth_year : String → Option Number) (s : TaxSituation)
    → ((validate birth_year s).errors ≡ errors_of s (validation_rules birth_year))
      × ((validate birth_year s).warnings
          ≡ warnings_of s (validation_rules birth_year) ++ uncertainty_warnings s)
unfolding validate
validate_issues birth_year s =
    let e = run_rules_lem s (record { errors = []; warnings = [] }) (validation_rules birth_year) in
    (ap (λ i. i.errors) e, ap (λ i. i.warnings ++ uncertainty_warnings s) e)

is_empty-filter :
    (s : TaxSituation) (rules : List ValidationRuleDefinition)
    → is_empty (errors_of s rules) ≡ not (any (is_violated_error s) rules)
unfolding filter any
is_empty-filter s [] = refl
is_empty-filter s (rule ∷ rules) = elim (Bool-cases (is_violated_error s rule)) [
  | inl h ↦ rw h
  | inr h ↦ rw h (is_empty-filter s rules)
]

-- A situation is valid exactly when it violates no rule of severity error.
pub validate_valid :
    (birth_year : String → Option Number) (s : TaxSituation)
    → (validate birth_year s).valid ≡ not (any (is_violated_error s) (validation_rules birth_year))
unfolding validate
validate_valid birth_year s =
    ap (λ i. is_empty i.errors)
      (run_rules_lem s (record { errors = []; warnings = [] }) (validation_rules birth_year))
    ∙ is_empty-filter s (validation_rules birth_year)

-- A situation is valid exactly when none of these ten checks finds a violation; the other seven rules
-- never make it invalid.
pub validate_valid_checks :
    (birth_year : String → Option Number) (s : TaxSituation)
    → (validate birth_year s).valid
      ≡ not (
          check_missing_schedule_c s
          || check_missing_schedule_se s
          || check_missing_schedule_d s
          || check_missing_schedule_e s
          || check_contradiction_single_with_dependent_spouse s
          || check_contradiction_hoh_without_qualifying_dependent s
          || check_contradiction_mfs_with_eitc s
          || check_implausible_negative_withholding s
          || check_incomplete_chain_schedule_d_without_form_8949 s
          || check_threshold_eitc_above_qualifying_agi s)
unfolding any check_missing_schedule_c validation_rules
    tea_tax_product.Rules.Helpers.has_income_type ValidationSeverity-discrete
    check_missing_schedule_se
validate_valid_checks birth_year s = validate_valid birth_year s ∙ simp (bool_laws, or_assoc)
