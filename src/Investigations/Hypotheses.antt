-- ===== src/Investigations/Hypotheses.antt =====
-- investigations/hypotheses/models.py and investigations/hypotheses/validator.py.
pub mod Supported
use promptql.Prelude.{
  ℕ, String, Bool, true, false, ◌&&◌, ◌||◌, not, Option, none, some, List, [], ◌∷◌, ◌++◌, any,
  is_empty, if◌then◌else◌,
}
use promptql.Prelude.Dict.{Dict}
use promptql.Prelude.Indexed.{index_on, select}
use promptql.Investigations.Facts.{InvestigationFact, id_of}
use promptql.Investigations.Plan.{unique}
use promptql.Investigations.PathNormalization.{paths_match}

pub data HypothesisKind : Type 0 where
  code_change_may_have_contributed : HypothesisKind

pub record CandidateHypothesis : Type 0 where
  pub hypothesis_id : String
  pub kind : HypothesisKind
  pub subject : String
  pub supporting_fact_ids : List String
  pub contradicting_fact_ids : List String
  pub rationale : Option String

pub data HypothesisValidationFailureCode : Type 0 where
  unknown_supporting_fact unsupported_hypothesis_kind : HypothesisValidationFailureCode
  entity_mismatch missing_required_support : HypothesisValidationFailureCode
  duplicate_fact_reference : HypothesisValidationFailureCode

pub record RejectedHypothesis : Type 0 where
  pub candidate : CandidateHypothesis
  pub reason : HypothesisValidationFailureCode

pub record ValidatedHypothesis : Type 0 where
  pub hypothesis_id : String
  pub kind : HypothesisKind
  pub subject : String
  pub supporting_fact_ids : List String

pub record HypothesisValidationResult : Type 0 where
  pub accepted_hypotheses : List ValidatedHypothesis
  pub rejected_candidates : List RejectedHypothesis

-- `{fact.fact_id: fact for fact in facts}`
abbrev pub index_by_id : List InvestigationFact → Dict String InvestigationFact
index_by_id facts = index_on id_of [] facts

abbrev pub supports_change : String → InvestigationFact → Bool
supports_change subject (InvestigationFact.changed_file _ path _ _) = paths_match path subject
supports_change subject _ = false

abbrev pub supports_location : String → InvestigationFact → Bool
supports_location subject (InvestigationFact.changed_file_matches_failure_file _ file_path) =
    paths_match file_path subject
supports_location subject (InvestigationFact.changed_hunk_overlaps_failure_line _ file_path _) =
    paths_match file_path subject
supports_location subject _ = false

-- the attributes `path` and `file_path` of a fact
abbrev pub entities_of : InvestigationFact → List String
entities_of (InvestigationFact.changed_file _ path _ _) = path ∷ []
entities_of (InvestigationFact.stack_frame _ file_path _ _) = file_path ∷ []
entities_of (InvestigationFact.changed_file_matches_failure_file _ file_path) = file_path ∷ []
entities_of (InvestigationFact.changed_hunk_overlaps_failure_line _ file_path _) = file_path ∷ []
entities_of _ = []

unfoldable pub entities : List InvestigationFact → List String
entities [] = []
entities (fact ∷ facts) = entities_of fact ++ entities facts

abbrev pub mismatch : String → List String → Bool
mismatch subject entities =
    not (is_empty entities) && not (any (λ e. paths_match e subject) entities)

-- the part of `_rejection_reason` after the selection of the facts
unfoldable pub support_failure :
    String → List InvestigationFact → Option HypothesisValidationFailureCode
support_failure subject facts =
    if any (supports_change subject) facts && any (supports_location subject) facts
    then none
    else if mismatch subject (entities facts)
    then some HypothesisValidationFailureCode.entity_mismatch
    else some HypothesisValidationFailureCode.missing_required_support

abbrev pub selected_failure :
    String → Option (List InvestigationFact) → Option HypothesisValidationFailureCode
selected_failure subject none = some HypothesisValidationFailureCode.unknown_supporting_fact
selected_failure subject (some facts) = support_failure subject facts

-- there is one kind, so that no candidate is of an unsupported kind
unfoldable pub rejection_reason :
    CandidateHypothesis → Dict String InvestigationFact → Option HypothesisValidationFailureCode
rejection_reason candidate facts_by_id =
    if not (unique candidate.supporting_fact_ids)
    then some HypothesisValidationFailureCode.duplicate_fact_reference
    else selected_failure candidate.subject (select facts_by_id candidate.supporting_fact_ids)

abbrev pub validated : CandidateHypothesis → ValidatedHypothesis
validated candidate = record {
  hypothesis_id = candidate.hypothesis_id;
  kind = candidate.kind;
  subject = candidate.subject;
  supporting_fact_ids = candidate.supporting_fact_ids;
}

abbrev pub put_verdict :
    CandidateHypothesis
    → Option HypothesisValidationFailureCode
    → HypothesisValidationResult
    → HypothesisValidationResult
put_verdict candidate none result = record result {
  accepted_hypotheses = validated candidate ∷ result.accepted_hypotheses;
}
put_verdict candidate (some reason) result = record result {
  rejected_candidates =
      record { candidate = candidate; reason = reason } ∷ result.rejected_candidates;
}

unfoldable pub validate_candidates :
    List CandidateHypothesis → Dict String InvestigationFact → HypothesisValidationResult
validate_candidates [] facts_by_id = record { accepted_hypotheses = []; rejected_candidates = [] }
validate_candidates (candidate ∷ candidates) facts_by_id =
    put_verdict candidate (rejection_reason candidate facts_by_id)
      (validate_candidates candidates facts_by_id)

-- `DeterministicHypothesisValidator.validate`
unfoldable pub validate_hypotheses :
    List CandidateHypothesis → List InvestigationFact → HypothesisValidationResult
validate_hypotheses candidates facts = validate_candidates candidates (index_by_id facts)
