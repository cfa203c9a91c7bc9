-- ===== src/Tests/Grounding.antt =====
-- investigations/path_normalization.py and investigations/hypotheses/validator.py at concrete paths.
use promptql.Prelude.{
  ◌≡◌, ◌↔◌, refl, String, Bool, true, false, not, none, List, [], ◌∷◌, map, filter,
}
use promptql.Prelude.Dict.{lookup, insert}
use promptql.Prelude.Indexed.{index_on, select}
use promptql.Prelude.Codes.{same_list, same_codes}
use promptql.Investigations.Facts.{FileChangeType, InvestigationFact}
use promptql.Investigations.PathNormalization.{
  paths_match, normalized_path, with_slashes, without_dot, split_path, from, ends_with,
  segments_match,
}
use promptql.Investigations.PathNormalization.Matching.{NameOneFile, paths_match_iff}
use promptql.Investigations.Hypotheses.{
  HypothesisKind, CandidateHypothesis, HypothesisValidationFailureCode, entities, support_failure,
  rejection_reason, validated, validate_candidates, validate_hypotheses,
}
use promptql.Investigations.Hypotheses.Supported.{IsSupported, validate_hypotheses-accepts}

tail_test : paths_match "./src\\app/main.py" "repo/src/app/main.py" ≡ true
unfolding paths_match normalized_path with_slashes without_dot split_path from ends_with
    segments_match same_list same_codes
tail_test = refl

name_test : paths_match "main.py" "src/app/main.py" ≡ false
unfolding paths_match normalized_path with_slashes without_dot split_path from ends_with
    segments_match same_list same_codes
name_test = refl

paths_match_iff_example :
    (paths_match "app/main.py" "src/app/main.py" ≡ true)
    ↔ NameOneFile "app/main.py" "src/app/main.py"
paths_match_iff_example = paths_match_iff "app/main.py" "src/app/main.py"

abbrev pub changed : InvestigationFact
changed =
    InvestigationFact.changed_file (record { fact_id = "f1"; evidence_reference_ids = "e1" ∷ [] })
      "src/app/main.py" FileChangeType.modified none

abbrev pub located : InvestigationFact
located =
    InvestigationFact.changed_file_matches_failure_file
      (record { fact_id = "f2"; evidence_reference_ids = "e2" ∷ [] }) "app/main.py"

abbrev pub candidate : String → List String → CandidateHypothesis
candidate subject ids = record {
  hypothesis_id = "h";
  kind = HypothesisKind.code_change_may_have_contributed;
  subject = subject;
  supporting_fact_ids = ids;
  contradicting_fact_ids = [];
  rationale = none;
}

abbrev pub candidates : List CandidateHypothesis
candidates =
    candidate "app/main.py" ("f1" ∷ "f2" ∷ [])
    ∷ candidate "app/main.py" ("f1" ∷ "f3" ∷ [])
    ∷ candidate "src/other.py" ("f1" ∷ "f2" ∷ [])
    ∷ candidate "app/main.py" ("f1" ∷ [])
    ∷ []

validate_test : validate_hypotheses candidates (changed ∷ located ∷ []) ≡ record {
  accepted_hypotheses = validated (candidate "app/main.py" ("f1" ∷ "f2" ∷ [])) ∷ [];
  rejected_candidates =
      record {
        candidate = candidate "app/main.py" ("f1" ∷ "f3" ∷ []);
        reason = HypothesisValidationFailureCode.unknown_supporting_fact;
      }
      ∷ record {
        candidate = candidate "src/other.py" ("f1" ∷ "f2" ∷ []);
        reason = HypothesisValidationFailureCode.entity_mismatch;
      }
      ∷ record {
        candidate = candidate "app/main.py" ("f1" ∷ []);
        reason = HypothesisValidationFailureCode.missing_required_support;
      }
      ∷ [];
}
unfolding validate_hypotheses validate_candidates rejection_reason select support_failure entities
    index_on lookup insert paths_match normalized_path with_slashes without_dot split_path from
    ends_with segments_match same_list same_codes
validate_test = refl

validate_hypotheses-accepts_example :
    (p : CandidateHypothesis → Bool) × ((c : CandidateHypothesis)
      → (p c ≡ true) ↔ IsSupported (changed ∷ located ∷ []) c)
    × ((validate_hypotheses candidates (changed ∷ located ∷ [])).accepted_hypotheses
        ≡ map validated (filter p candidates))
    × (map
          (λ r. r.candidate)
          (validate_hypotheses candidates (changed ∷ located ∷ [])).rejected_candidates
        ≡ filter (λ c. not (p c)) candidates)
validate_hypotheses-accepts_example =
    validate_hypotheses-accepts candidates (changed ∷ located ∷ [])
