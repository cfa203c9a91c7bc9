-- ===== src/Investigations/CodeDiagnosis.antt =====
-- investigations/code_diagnosis/models.py and investigations/code_diagnosis/validator.py. How the
-- content of an evidence is read is a parameter.
pub mod Grounded
pub mod Remediation
use promptql.Prelude.{
  ℕ, String, Bool, true, false, not, ◌&&◌, ◌||◌, Option, none, some, List, [], ◌∷◌, ◌++◌, any, all,
  ◌==◌, if◌then◌else◌,
}
use promptql.Prelude.Dict.{Dict, text_key, lookup}
use promptql.Prelude.Indexed.{index_on, select}
use promptql.Investigations.Facts.{InvestigationFact, base_of}
use promptql.Investigations.Plan.{known, unique}
use promptql.Investigations.Evidence.{Evidence}
use promptql.Investigations.PathNormalization.{paths_match}
use promptql.Investigations.Hypotheses.{ValidatedHypothesis, index_by_id}

pub data CodeFindingCategory : Type 0 where
  changed_code_near_failure error_handling_or_null_path : CodeFindingCategory
  input_validation state_or_resource_lifecycle : CodeFindingCategory
  configuration_or_deployment : CodeFindingCategory

pub record SuspectedCodeFinding : Type 0 where
  pub finding_id : String
  pub hypothesis_id : String
  pub file_path : String
  pub location_evidence_id : String
  pub category : CodeFindingCategory
  pub supporting_fact_ids : List String
  pub supporting_evidence_ids : List String
  pub explanation : String

pub data CodeFindingValidationFailureCode : Type 0 where
  duplicate_finding_id duplicate_reference unknown_hypothesis : CodeFindingValidationFailureCode
  file_mismatch unknown_supporting_fact : CodeFindingValidationFailureCode
  hypothesis_support_mismatch unknown_supporting_evidence : CodeFindingValidationFailureCode
  evidence_relationship_mismatch location_not_observed : CodeFindingValidationFailureCode

pub record RejectedCodeFinding : Type 0 where
  pub candidate : SuspectedCodeFinding
  pub reason : CodeFindingValidationFailureCode

pub record ValidatedCodeFinding : Type 0 where
  pub finding_id : String
  pub hypothesis_id : String
  pub file_path : String
  pub line_number : Option ℕ
  pub function_name : Option String
  pub hunk_evidence_id : Option String
  pub category : CodeFindingCategory
  pub supporting_fact_ids : List String
  pub supporting_evidence_ids : List String

pub record CodeFindingValidationResult : Type 0 where
  pub accepted_findings : List ValidatedCodeFinding
  pub rejected_candidates : List RejectedCodeFinding

-- the classes of content that the validator tells apart
pub data EvidenceContent : Type 0 where
  -- `ChangedFileEvidenceContent` and `CommitChangedFileEvidenceContent`, with the path
  changed_file : String → EvidenceContent
  -- `DiffHunkEvidenceContent` and `CommitDiffHunkEvidenceContent`, with the path
  diff_hunk : String → EvidenceContent
  -- path, line, function
  stack_frame : Option String → Option ℕ → Option String → EvidenceContent
  other : EvidenceContent

-- `set(xs) == set(ys)`
abbrev pub same_set : List String → List String → Bool
same_set xs ys = all (λ x. known x ys) xs && all (λ y. known y xs) ys

-- the elements of `fact_evidence_ids`
unfoldable pub cited : List InvestigationFact → List String
cited [] = []
cited (fact ∷ facts) = (base_of fact).evidence_reference_ids ++ cited facts

abbrev pub observes_change : String → EvidenceContent → Bool
observes_change path (EvidenceContent.changed_file changed) = paths_match changed path
observes_change path _ = false

abbrev pub observes_failure : String → EvidenceContent → Bool
observes_failure path (EvidenceContent.stack_frame (some failed) _ _) = paths_match failed path
observes_failure path _ = false

-- `_location_path`
abbrev pub location_path : EvidenceContent → Option String
location_path (EvidenceContent.changed_file path) = some path
location_path (EvidenceContent.diff_hunk path) = some path
location_path (EvidenceContent.stack_frame path _ _) = path
location_path EvidenceContent.other = none

abbrev pub leads_to : String → Option String → Bool
leads_to path none = false
leads_to path (some location) = paths_match location path

-- `_validated_finding`, for the evidence of the location
abbrev pub validated_finding :
    SuspectedCodeFinding → String → EvidenceContent → ValidatedCodeFinding
validated_finding candidate evidence_id content = record {
  finding_id = candidate.finding_id;
  hypothesis_id = candidate.hypothesis_id;
  file_path = candidate.file_path;
  line_number = elim content [
    | stack_frame _ line _ ↦ line
    | changed_file _ ↦ none
    | diff_hunk _ ↦ none
    | other ↦ none
  ];
  function_name = elim content [
    | stack_frame _ _ name ↦ name
    | changed_file _ ↦ none
    | diff_hunk _ ↦ none
    | other ↦ none
  ];
  hunk_evidence_id = elim content [
    | diff_hunk _ ↦ some evidence_id
    | changed_file _ ↦ none
    | stack_frame _ _ _ ↦ none
    | other ↦ none
  ];
  category = candidate.category;
  supporting_fact_ids = candidate.supporting_fact_ids;
  supporting_evidence_ids = candidate.supporting_evidence_ids;
}

module _ {Value : Type 0} (content_of : Evidence Value → EvidenceContent) where
  abbrev pub locates : String → Option (Evidence Value) → Bool
  locates path none = false
  locates path (some location) = leads_to path (location_path (content_of location))

  -- the part of `_rejection_reason` that follows the selection of the evidence
  unfoldable pub location_failure :
      SuspectedCodeFinding
      → List InvestigationFact
      → List (Evidence Value)
      → Option (Evidence Value)
      → Option CodeFindingValidationFailureCode
  location_failure candidate facts selected location =
      if not (same_set (cited facts) candidate.supporting_evidence_ids)
        || not (
            any (λ e. observes_change candidate.file_path (content_of e)) selected
            && any (λ e. observes_failure candidate.file_path (content_of e)) selected)
      then some CodeFindingValidationFailureCode.evidence_relationship_mismatch
      else if known candidate.location_evidence_id candidate.supporting_evidence_ids
          && locates candidate.file_path location
      then none
      else some CodeFindingValidationFailureCode.location_not_observed

  abbrev pub evidence_failure :
      SuspectedCodeFinding
      → Dict String (Evidence Value)
      → List InvestigationFact
      → Option (List (Evidence Value))
      → Option CodeFindingValidationFailureCode
  evidence_failure candidate evidence_by_id facts none =
      some CodeFindingValidationFailureCode.unknown_supporting_evidence
  evidence_failure candidate evidence_by_id facts (some selected) =
      location_failure candidate facts selected
        (lookup candidate.location_evidence_id evidence_by_id)

  abbrev pub facts_failure :
      SuspectedCodeFinding
      → ValidatedHypothesis
      → Dict String (Evidence Value)
      → Option (List InvestigationFact)
      → Option CodeFindingValidationFailureCode
  facts_failure candidate hypothesis evidence_by_id none =
      some CodeFindingValidationFailureCode.unknown_supporting_fact
  facts_failure candidate hypothesis evidence_by_id (some facts) =
      if same_set hypothesis.supporting_fact_ids candidate.supporting_fact_ids
      then evidence_failure candidate evidence_by_id facts
          (select evidence_by_id candidate.supporting_evidence_ids)
      else some CodeFindingValidationFailureCode.hypothesis_support_mismatch

  abbrev pub hypothesis_failure :
      SuspectedCodeFinding
      → Dict String InvestigationFact
      → Dict String (Evidence Value)
      → Option ValidatedHypothesis
      → Option CodeFindingValidationFailureCode
  hypothesis_failure candidate facts_by_id evidence_by_id none =
      some CodeFindingValidationFailureCode.unknown_hypothesis
  hypothesis_failure candidate facts_by_id evidence_by_id (some hypothesis) =
      if paths_match candidate.file_path hypothesis.subject
      then facts_failure candidate hypothesis evidence_by_id
          (select facts_by_id candidate.supporting_fact_ids)
      else some CodeFindingValidationFailureCode.file_mismatch

  -- `_rejection_reason`
  unfoldable pub finding_failure :
      SuspectedCodeFinding
      → Dict String ValidatedHypothesis
      → Dict String InvestigationFact
      → Dict String (Evidence Value)
      → Option CodeFindingValidationFailureCode
  finding_failure candidate hypotheses_by_id facts_by_id evidence_by_id =
      if unique candidate.supporting_fact_ids && unique candidate.supporting_evidence_ids
      then hypothesis_failure candidate facts_by_id evidence_by_id
          (lookup candidate.hypothesis_id hypotheses_by_id)
      else some CodeFindingValidationFailureCode.duplicate_reference

  -- the evidence of the location is that of `evidence_by_id`; `none` where it raises `KeyError`
  abbrev pub put_finding :
      SuspectedCodeFinding
      → Option CodeFindingValidationFailureCode
      → Option (Evidence Value)
      → Option CodeFindingValidationResult
      → Option CodeFindingValidationResult
  put_finding candidate reason location none = none
  put_finding candidate (some reason) location (some result) = some (record result {
    rejected_candidates =
        record { candidate = candidate; reason = reason } ∷ result.rejected_candidates;
  })
  put_finding candidate none none (some result) = none
  put_finding candidate none (some location) (some result) = some (record result {
    accepted_findings =
        validated_finding candidate location.evidence_id (content_of location)
        ∷ result.accepted_findings;
  })

  module _ (hypotheses_by_id : Dict String ValidatedHypothesis)
      (facts_by_id : Dict String InvestigationFact)
      (evidence_by_id : Dict String (Evidence Value)) where
    -- the loop, with `seen_finding_ids`
    unfoldable pub validate_from :
        List String → List SuspectedCodeFinding → Option CodeFindingValidationResult
    validate_from seen [] = some (record { accepted_findings = []; rejected_candidates = [] })
    validate_from seen (candidate ∷ candidates) =
        put_finding candidate
          (if known candidate.finding_id seen
            then some CodeFindingValidationFailureCode.duplicate_finding_id
            else finding_failure candidate hypotheses_by_id facts_by_id evidence_by_id)
          (lookup candidate.location_evidence_id evidence_by_id)
          (validate_from (candidate.finding_id ∷ seen) candidates)

  -- `DeterministicCodeFindingValidator.validate`
  unfoldable pub validate_findings :
      List SuspectedCodeFinding
      → List ValidatedHypothesis
      → List InvestigationFact
      → List (Evidence Value)
      → Option CodeFindingValidationResult
  validate_findings candidates hypotheses facts evidence =
      validate_from (index_on (λ h. h.hypothesis_id) [] hypotheses) (index_by_id facts)
        (index_on (λ e. e.evidence_id) [] evidence) [] candidates
