-- ===== src/Policy/Recording.antt =====
-- policy/evaluator.py: the block of `evaluate_merge_readiness` that records the GitHub evidence.
use promptql.Prelude.{ℕ, ◌+◌, String, List, [], ◌∷◌, ◌<>◌, Option, none, some, length, show_nat}
use promptql.Connectors.{
  RequiredCheck, GitHubPullRequest, state_value, mergeability_value, check_value,
}
use promptql.Policy.Models.{EvidenceSource, EvidenceValue}
use promptql.Policy.Evaluation.{Eval, ◌>>=◌, pure, record_evidence}

-- the variables `*_reference` of the block that records the GitHub evidence
pub record GitHubReferences : Type 0 where
  pub state : String
  pub draft : String
  pub mergeability : String
  pub approval : String
  pub approval_requirement : String
  pub reviews_known : String
  pub changes : String
  pub jira_link : String
  pub checks_known : String
  pub checks : List (RequiredCheck × String × String)

abbrev pub optional_text : Option String → EvidenceValue
optional_text none = EvidenceValue.null
optional_text (some t) = EvidenceValue.text t

abbrev pub optional_number : Option ℕ → EvidenceValue
optional_number none = EvidenceValue.null
optional_number (some n) = EvidenceValue.number n

-- the loop over `enumerate(github.required_checks)`; a check keeps the pair that
-- `check_references[check_index]` holds for it
unfoldable pub record_checks :
    ℕ → List RequiredCheck → Eval (List (RequiredCheck × String × String))
record_checks i [] = pure []
record_checks i (check ∷ checks) = do
  name ←
      record_evidence EvidenceSource.github ("required_checks[" <> show_nat i <> "].name")
        (EvidenceValue.text check.name)
  status ←
      record_evidence EvidenceSource.github ("required_checks[" <> show_nat i <> "].status")
        (EvidenceValue.text (check_value check.status))
  rest ← record_checks (i + 1) checks
  pure ((check, name, status) ∷ rest)

unfoldable pub record_github : GitHubPullRequest → Eval GitHubReferences
record_github github = do
  state ←
      record_evidence EvidenceSource.github "state" (EvidenceValue.text (state_value github.state))
  draft ← record_evidence EvidenceSource.github "is_draft" (EvidenceValue.flag github.is_draft)
  mergeability ←
      record_evidence EvidenceSource.github "mergeability"
        (EvidenceValue.text (mergeability_value github.mergeability))
  approval ←
      record_evidence EvidenceSource.github "approvals.count"
        (EvidenceValue.number (length github.approvals))
  requirement ←
      record_evidence EvidenceSource.github "required_approval_count"
        (optional_number github.required_approval_count)
  reviews ←
      record_evidence EvidenceSource.github "reviews_known"
        (EvidenceValue.flag github.reviews_known)
  changes ←
      record_evidence EvidenceSource.github "changes_requested"
        (EvidenceValue.flag github.changes_requested)
  link ←
      record_evidence EvidenceSource.github "linked_jira_key" (optional_text github.linked_jira_key)
  known ←
      record_evidence EvidenceSource.github "required_checks_known"
        (EvidenceValue.flag github.required_checks_known)
  checks ← record_checks 0 github.required_checks
  pure (record {
    state = state;
    draft = draft;
    mergeability = mergeability;
    approval = approval;
    approval_requirement = requirement;
    reviews_known = reviews;
    changes = changes;
    jira_link = link;
    checks_known = known;
    checks = checks;
  })
