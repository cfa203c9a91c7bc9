-- ===== src/Investigations/CodeDiagnosis/Remediation.antt =====
-- investigations/code_diagnosis/remediation.py: the recommendations for the accepted findings. The
-- hash of an identifier is a parameter.
use promptql.Prelude.{ℕ, String, ◌<>◌, Option, none, some, List, [], ◌∷◌, ◌++◌, map, show_nat}
use promptql.Investigations.CodeDiagnosis.{CodeFindingCategory, ValidatedCodeFinding}

pub data DeveloperRecommendationCode : Type 0 where
  inspect_failure_path validate_error_handling : DeveloperRecommendationCode
  validate_input_boundary inspect_resource_lifecycle : DeveloperRecommendationCode
  compare_deployment_configuration add_regression_test : DeveloperRecommendationCode

pub record DeveloperRecommendation : Type 0 where
  pub recommendation_id : String
  pub code : DeveloperRecommendationCode
  pub message : String
  pub finding_id : String
  pub supporting_fact_ids : List String
  pub supporting_evidence_ids : List String

-- `_CATEGORY_RECOMMENDATION`
abbrev pub category_action : CodeFindingCategory → List (DeveloperRecommendationCode × String)
category_action CodeFindingCategory.error_handling_or_null_path =
    (
      DeveloperRecommendationCode.validate_error_handling,
      "Validate the null and error-handling path at the observed failure location.",
    )
    ∷ []
category_action CodeFindingCategory.input_validation =
    (
      DeveloperRecommendationCode.validate_input_boundary,
      "Validate inputs at the boundary that reaches the observed failure location.",
    )
    ∷ []
category_action CodeFindingCategory.state_or_resource_lifecycle =
    (
      DeveloperRecommendationCode.inspect_resource_lifecycle,
      "Inspect resource and state lifecycle around the observed failure location.",
    )
    ∷ []
category_action CodeFindingCategory.configuration_or_deployment =
    (
      DeveloperRecommendationCode.compare_deployment_configuration,
      "Compare deployment configuration before and during the incident.",
    )
    ∷ []
category_action CodeFindingCategory.changed_code_near_failure = []

abbrev location_suffix_of : Option String → Option ℕ → String
location_suffix_of (some name) (some line) = " in " <> name <> " at line " <> show_nat line
location_suffix_of (some name) none = " in " <> name
location_suffix_of none (some line) = " at line " <> show_nat line
location_suffix_of none none = ""

unfoldable pub location_suffix : ValidatedCodeFinding → String
location_suffix finding = location_suffix_of finding.function_name finding.line_number

-- the list `actions`
unfoldable pub actions_for : ValidatedCodeFinding → List (DeveloperRecommendationCode × String)
actions_for finding =
    (
      DeveloperRecommendationCode.inspect_failure_path,
      "Inspect "
          <> finding.file_path
          <> location_suffix finding
          <> " against the supporting Evidence.",
    )
    ∷ (category_action finding.category
        ++ (
          DeveloperRecommendationCode.add_regression_test,
          "Add a regression test that reproduces the validated failure path before applying a fix.",
        )
          ∷ [])

module _ (recommendation_id_of : String → DeveloperRecommendationCode → String) where
  abbrev pub recommendation :
      ValidatedCodeFinding → DeveloperRecommendationCode × String → DeveloperRecommendation
  recommendation finding (code, message) = record {
    recommendation_id = recommendation_id_of finding.finding_id code;
    code = code;
    message = message;
    finding_id = finding.finding_id;
    supporting_fact_ids = finding.supporting_fact_ids;
    supporting_evidence_ids = finding.supporting_evidence_ids;
  }

  unfoldable pub build_developer_recommendations :
      List ValidatedCodeFinding → List DeveloperRecommendation
  build_developer_recommendations [] = []
  build_developer_recommendations (finding ∷ findings) =
      map (recommendation finding) (actions_for finding) ++ build_developer_recommendations findings
