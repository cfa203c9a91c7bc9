-- ===== src/Investigations/Rendering.antt =====
-- investigations/hypotheses/rendering.py: `render_grounded_result`, without the two functions that
-- render a fact and a missing information for the reports.
pub mod Entities
pub mod Renders
pub mod Accepted
use promptql.Prelude.{
  ℕ, String, ◌<>◌, Bool, true, false, not, ◌&&◌, ◌||◌, Option, none, some, List, [], ◌∷◌, ◌++◌, map,
  all, is_empty, is_some, show_nat, ◌==◌, if◌then◌else◌,
}
use promptql.Prelude.Dict.{Dict, text_key, lookup}
use promptql.Prelude.Codes.{same_list}
use promptql.Prelude.Indexed.{index_on}
use promptql.Investigations.Facts.{InvestigationFact}
use promptql.Investigations.Plan.{known}
use promptql.Investigations.Execution.State.{MissingInformation}
use promptql.Investigations.Hypotheses.{HypothesisKind, ValidatedHypothesis, index_by_id}
use promptql.Investigations.CodeDiagnosis.{CodeFindingCategory, ValidatedCodeFinding}
use promptql.Investigations.CodeDiagnosis.Remediation.{DeveloperRecommendation}
use promptql.Investigations.Relationships.Index.{RelationshipIndex, build_relationship_index}
use promptql.Investigations.Rendering.Entities.{connected_fact_chain}

pub data GroundedTerminationReason : Type 0 where
  completed budget_exhausted no_progress planning_limit_reached : GroundedTerminationReason
  planner_failure hypothesis_generation_failure : GroundedTerminationReason
  code_diagnosis_failure provider_failure plan_validation_failure : GroundedTerminationReason

pub record GroundedHypothesis : Type 0 where
  pub hypothesis_id : String
  pub kind : HypothesisKind
  pub subject : String
  pub statement : String
  pub supporting_fact_ids : List String
  pub connected_fact_chain : Option (List String)

pub record GroundedCodeFinding : Type 0 where
  pub finding_id : String
  pub hypothesis_id : String
  pub category : CodeFindingCategory
  pub file_path : String
  pub line_number : Option ℕ
  pub function_name : Option String
  pub hunk_evidence_id : Option String
  pub statement : String
  pub supporting_fact_ids : List String
  pub supporting_evidence_ids : List String

pub record GroundedInvestigationResult : Type 0 where
  pub termination_reason : GroundedTerminationReason
  pub summary : String
  pub supported_hypotheses : List GroundedHypothesis
  pub code_findings : List GroundedCodeFinding
  pub recommendations : List DeveloperRecommendation
  pub key_fact_ids : List String
  pub missing_information : List MissingInformation

abbrev pub render_hypothesis_statement : HypothesisKind → String → String
render_hypothesis_statement HypothesisKind.code_change_may_have_contributed subject =
    "Changes associated with " <> subject <> " may have contributed to the incident."

abbrev pub conclusion : Bool → Bool → String
conclusion true has_evidence = "The investigation found a supported contributing factor."
conclusion false true =
    "The investigation found relevant evidence, but it is not sufficient to support a causal "
    <> "hypothesis."
conclusion false false = "The investigation could not proceed far enough to collect evidence."

abbrev pub prefix : GroundedTerminationReason → String
prefix GroundedTerminationReason.completed = ""
prefix GroundedTerminationReason.budget_exhausted =
    "The investigation stopped because the configured tool-call budget was exhausted. "
prefix GroundedTerminationReason.no_progress =
    "The investigation stopped because a planning round produced no new evidence or Facts. "
prefix GroundedTerminationReason.planning_limit_reached =
    "The investigation stopped after reaching the configured planning-round limit. "
prefix GroundedTerminationReason.planner_failure =
    "Evidence collection stopped because structured planning was unavailable. "
prefix GroundedTerminationReason.hypothesis_generation_failure =
    "Evidence collection completed, but structured hypothesis generation was unavailable. "
prefix GroundedTerminationReason.code_diagnosis_failure =
    "A causal hypothesis was grounded, but structured code diagnosis was unavailable. "
prefix GroundedTerminationReason.provider_failure =
    "The investigation could not complete because a configured model provider was unavailable. "
prefix GroundedTerminationReason.plan_validation_failure =
    "The investigation stopped because its execution plan could not be validated. "

unfoldable pub render_summary : Bool → Bool → GroundedTerminationReason → String
render_summary has_supported_hypothesis has_evidence termination_reason =
    prefix termination_reason <> conclusion has_supported_hypothesis has_evidence

abbrev pub category_label : CodeFindingCategory → String
category_label CodeFindingCategory.changed_code_near_failure =
    "changed code near the observed failure"
category_label CodeFindingCategory.error_handling_or_null_path = "an error-handling or null path"
category_label CodeFindingCategory.input_validation = "an input-validation path"
category_label CodeFindingCategory.state_or_resource_lifecycle =
    "a state or resource-lifecycle path"
category_label CodeFindingCategory.configuration_or_deployment =
    "a configuration or deployment path"

abbrev pub with_function : Option String → String → String
with_function none location = location
with_function (some name) location = location <> " in " <> name

abbrev pub with_line : Option ℕ → String → String
with_line none location = location
with_line (some line) location = location <> " at line " <> show_nat line

unfoldable pub render_code_finding_statement : ValidatedCodeFinding → String
render_code_finding_statement finding =
    "The Evidence identifies "
    <> category_label finding.category
    <> " at "
    <> with_line finding.line_number (with_function finding.function_name finding.file_path)
    <> " as a suspected contributor."

-- `if fact_id not in key_fact_ids: key_fact_ids.append(fact_id)`
unfoldable pub add_key_facts : List String → List String → List String
add_key_facts keys [] = keys
add_key_facts keys (id ∷ ids) = add_key_facts (if known id keys then keys else keys ++ id ∷ []) ids

abbrev pub put_hypothesis :
    ValidatedHypothesis
    → Option (Option (List String))
    → Option (List GroundedHypothesis × List String)
    → Option (List GroundedHypothesis × List String)
put_hypothesis hypothesis (some chain) (some (rendered, keys)) = some (
  record {
    hypothesis_id = hypothesis.hypothesis_id;
    kind = hypothesis.kind;
    subject = hypothesis.subject;
    statement = render_hypothesis_statement hypothesis.kind hypothesis.subject;
    supporting_fact_ids = hypothesis.supporting_fact_ids;
    connected_fact_chain = chain;
  }
      ∷ rendered,
  keys,
)
put_hypothesis hypothesis _ _ = none

-- the loop over the hypotheses, with the identifiers of the key facts so far; `none` where it raises
unfoldable pub render_hypotheses :
    Dict String InvestigationFact
    → RelationshipIndex
    → List String
    → List ValidatedHypothesis
    → Option (List GroundedHypothesis × List String)
render_hypotheses facts_by_id index keys [] = some ([], keys)
render_hypotheses facts_by_id index keys (hypothesis ∷ hypotheses) =
    let ids = hypothesis.supporting_fact_ids in
    let rest = render_hypotheses facts_by_id index (add_key_facts keys ids) hypotheses in
    if all (λ id. is_some (lookup id facts_by_id)) ids
    then put_hypothesis hypothesis (connected_fact_chain hypothesis index) rest
    else none

abbrev pub rendered_finding : ValidatedCodeFinding → GroundedCodeFinding
rendered_finding finding = record {
  finding_id = finding.finding_id;
  hypothesis_id = finding.hypothesis_id;
  category = finding.category;
  file_path = finding.file_path;
  line_number = finding.line_number;
  function_name = finding.function_name;
  hunk_evidence_id = finding.hunk_evidence_id;
  statement = render_code_finding_statement finding;
  supporting_fact_ids = finding.supporting_fact_ids;
  supporting_evidence_ids = finding.supporting_evidence_ids;
}

abbrev pub put_rendered :
    ValidatedCodeFinding → Option (List GroundedCodeFinding) → Option (List GroundedCodeFinding)
put_rendered finding none = none
put_rendered finding (some rendered) = some (rendered_finding finding ∷ rendered)

-- `_render_code_findings`
unfoldable pub render_code_findings :
    List String
    → Dict String InvestigationFact
    → List ValidatedCodeFinding
    → Option (List GroundedCodeFinding)
render_code_findings hypothesis_ids facts_by_id [] = some []
render_code_findings hypothesis_ids facts_by_id (finding ∷ findings) =
    let rest = render_code_findings hypothesis_ids facts_by_id findings in
    if known finding.hypothesis_id hypothesis_ids
      && all (λ id. is_some (lookup id facts_by_id)) finding.supporting_fact_ids
    then put_rendered finding rest
    else none

abbrev pub same_support : DeveloperRecommendation → Option ValidatedCodeFinding → Bool
same_support recommendation none = false
same_support recommendation (some finding) =
    same_list ◌==◌ recommendation.supporting_fact_ids finding.supporting_fact_ids
    && same_list ◌==◌ recommendation.supporting_evidence_ids finding.supporting_evidence_ids

-- `_validate_recommendations`: whether it does not raise
unfoldable pub recommendations_valid :
    List DeveloperRecommendation → List ValidatedCodeFinding → Bool
recommendations_valid recommendations findings =
    let findings_by_id = index_on (λ f. f.finding_id) [] findings in
    all (λ r. same_support r (lookup r.finding_id findings_by_id)) recommendations

abbrev pub grounded_result :
    GroundedTerminationReason
    → List DeveloperRecommendation
    → List MissingInformation
    → Bool
    → Option (List GroundedHypothesis × List String)
    → Option (List GroundedCodeFinding)
    → Bool
    → Option GroundedInvestigationResult
grounded_result reason recommendations missing_information has_evidence (some (hypotheses, keys))
      (some findings) true =
    some (record {
      termination_reason = reason;
      summary = render_summary (not (is_empty hypotheses)) has_evidence reason;
      supported_hypotheses = hypotheses;
      code_findings = findings;
      recommendations = recommendations;
      key_fact_ids = keys;
      missing_information = missing_information;
    })
grounded_result reason recommendations missing_information has_evidence _ _ _ = none

-- `none` where it raises
unfoldable pub render_grounded_result :
    List InvestigationFact
    → List ValidatedHypothesis
    → List MissingInformation
    → GroundedTerminationReason
    → List ValidatedCodeFinding
    → List DeveloperRecommendation
    → List String
    → Option GroundedInvestigationResult
render_grounded_result facts hypotheses missing_information reason findings recommendations
      evidence =
    grounded_result reason recommendations missing_information
      (not (is_empty evidence) || not (is_empty facts))
      (render_hypotheses (index_by_id facts) (build_relationship_index facts) [] hypotheses)
      (render_code_findings (map (λ h. h.hypothesis_id) hypotheses) (index_by_id facts) findings)
      (recommendations_valid recommendations findings)
