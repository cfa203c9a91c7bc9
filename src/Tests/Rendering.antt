-- ===== src/Tests/Rendering.antt =====
-- investigations/code_diagnosis/validator.py and investigations/hypotheses/rendering.py at a
-- hypothesis about one file.
use promptql.Prelude.{
  ◌+◌, ◌≡◌, ◌↔◌, String, Bool, true, some, List, [], ◌∷◌, filter, length, or_else,
}
use promptql.Investigations.Facts.{InvestigationFact}
use promptql.Investigations.Evidence.{Evidence}
use promptql.Investigations.Hypotheses.{ValidatedHypothesis, validated, validate_hypotheses}
use promptql.Investigations.CodeDiagnosis.{
  CodeFindingCategory, SuspectedCodeFinding, CodeFindingValidationResult, EvidenceContent,
  validate_findings,
}
use promptql.Investigations.CodeDiagnosis.Grounded.{
  firsts, IsGrounded, Grounds, validate_findings-accepts,
}
use promptql.Investigations.CodeDiagnosis.Remediation.{
  DeveloperRecommendationCode, build_developer_recommendations,
}
use promptql.Investigations.Rendering.{
  GroundedTerminationReason, GroundedInvestigationResult, render_grounded_result,
}
use promptql.Investigations.Rendering.Renders.{IsRendering}
use promptql.Investigations.Rendering.Accepted.{render_grounded_result-validate_findings}
use promptql.Tests.Grounding.{changed, located, candidate, candidates}

abbrev facts : List InvestigationFact
facts = changed ∷ located ∷ []

abbrev contents : Evidence EvidenceContent → EvidenceContent
contents e = or_else (e.content "content") EvidenceContent.other

abbrev item : String → EvidenceContent → Evidence EvidenceContent
item id content = record { evidence_id = id; content = λ name. some content }

abbrev items : List (Evidence EvidenceContent)
items =
    item "e1" (EvidenceContent.changed_file "src/app/main.py")
    ∷ item "e2" (EvidenceContent.stack_frame (some "app/main.py") (some 7) (some "start"))
    ∷ []

abbrev suspected : String → String → SuspectedCodeFinding
suspected id location = record {
  finding_id = id;
  hypothesis_id = "h";
  file_path = "app/main.py";
  location_evidence_id = location;
  category = CodeFindingCategory.input_validation;
  supporting_fact_ids = "f1" ∷ "f2" ∷ [];
  supporting_evidence_ids = "e1" ∷ "e2" ∷ [];
  explanation = "";
}

abbrev suspects : List SuspectedCodeFinding
suspects = suspected "c1" "e3" ∷ suspected "c2" "e2" ∷ suspected "c2" "e1" ∷ []

abbrev supported : List ValidatedHypothesis
supported = validated (candidate "app/main.py" ("f1" ∷ "f2" ∷ [])) ∷ []

validate_findings-accepts_example :
    (p : SuspectedCodeFinding → Bool) × ((c : SuspectedCodeFinding)
      → (p c ≡ true) ↔ (
          (location : Evidence EvidenceContent) × IsGrounded contents supported facts items c
            location))
    × (result : CodeFindingValidationResult) × (validate_findings contents suspects supported facts
          items
        ≡ some result)
    × Grounds contents supported facts items
        (filter p (firsts [] suspects))
        result.accepted_findings
    × (length result.accepted_findings + length result.rejected_candidates ≡ length suspects)
validate_findings-accepts_example =
    validate_findings-accepts contents supported facts items suspects

abbrev hash : String → DeveloperRecommendationCode → String
hash id code = id

render_grounded_result-validate_findings_example :
    let hypotheses = (validate_hypotheses candidates facts).accepted_hypotheses in
    (findings : CodeFindingValidationResult) × (result : GroundedInvestigationResult)
    × (validate_findings contents suspects hypotheses facts items ≡ some findings)
    × (render_grounded_result facts hypotheses [] GroundedTerminationReason.no_progress
          findings.accepted_findings
          (build_developer_recommendations hash findings.accepted_findings)
          ("e1" ∷ [])
        ≡ some result)
    × IsRendering facts hypotheses GroundedTerminationReason.no_progress findings.accepted_findings
        result
render_grounded_result-validate_findings_example =
    render_grounded_result-validate_findings contents hash facts items candidates suspects []
      GroundedTerminationReason.no_progress ("e1" ∷ [])
