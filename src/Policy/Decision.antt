-- ===== src/Policy/Decision.antt =====
-- The decision of `evaluate_merge_readiness` against the table of `Policy.Expected`.
use promptql.Prelude.{◌≡◌, refl, ap, ◌∙◌, List, [], ◌∷◌, Option, arith}
use promptql.Connectors.{GitHubPullRequest, JiraIssue}
use promptql.Policy.Models.{PolicyReasonCode, PolicyFinding}
use promptql.Policy.Evaluation.{Evaluation, no_findings}
use promptql.Policy.Evaluator.{collect, decide_by, decide_from, evaluate_merge_readiness}
use promptql.Policy.Expected.{Gap, expected_blockers, expected_gaps, expected_decision}
use promptql.Policy.Appends.{reasons, messages, gap_messages}
use promptql.Policy.Additions.{Appends-collect}

decide_by-blockers :
    (bs ms : List PolicyFinding) (s : Evaluation) → (decide_by bs ms s).blockers ≡ s.blockers
decide_by-blockers (b ∷ bs) ms s = refl
decide_by-blockers [] (m ∷ ms) s = refl
decide_by-blockers [] [] s = refl

decide_by-missing :
    (bs ms : List PolicyFinding) (s : Evaluation)
    → (decide_by bs ms s).missing_information ≡ s.missing_information
decide_by-missing (b ∷ bs) ms s = refl
decide_by-missing [] (m ∷ ms) s = refl
decide_by-missing [] [] s = refl

module _ (pr : Option GitHubPullRequest) (jira : Option JiraIssue) where
  -- The blockers are exactly those of the table, in its order, and so is the missing information.
  pub evaluate-findings :
      (reasons (evaluate_merge_readiness pr jira).blockers ≡ expected_blockers pr jira)
      × (messages (evaluate_merge_readiness pr jira).missing_information
          ≡ gap_messages (expected_gaps pr jira))
  unfolding evaluate_merge_readiness decide_from
  evaluate-findings = (
    ap reasons (decide_by-blockers _ _ (collect pr jira no_findings).1)
        ∙ (Appends-collect pr jira).blockers no_findings,
    ap messages (decide_by-missing _ _ (collect pr jira no_findings).1)
        ∙ (Appends-collect pr jira).missing no_findings,
  )

decide_by-decision :
    (bs ms : List PolicyFinding) (s : Evaluation) (rs : List PolicyReasonCode) (gs : List Gap)
    → reasons bs ≡ rs
    → messages ms ≡ gap_messages gs
    → ((decide_by bs ms s).decision, (decide_by bs ms s).reason_code) ≡ expected_decision rs gs
decide_by-decision (b ∷ bs) ms s (r ∷ rs) gs p q = ground arith
decide_by-decision (b ∷ bs) ms s [] gs p q = cc
decide_by-decision [] ms s (r ∷ rs) gs p q = cc
decide_by-decision [] (m ∷ ms) s [] (g ∷ gs) p q = refl
decide_by-decision [] (m ∷ ms) s [] [] p q = cc
decide_by-decision [] [] s [] (g ∷ gs) p q = cc
decide_by-decision [] [] s [] [] p q = refl

module _ (pr : Option GitHubPullRequest) (jira : Option JiraIssue) where
  -- The decision and its reason are those that the table gives.
  pub evaluate-decision :
      ((evaluate_merge_readiness pr jira).decision, (evaluate_merge_readiness pr jira).reason_code)
      ≡ expected_decision (expected_blockers pr jira) (expected_gaps pr jira)
  unfolding evaluate_merge_readiness decide_from
  evaluate-decision =
      decide_by-decision _ _ (collect pr jira no_findings).1 _ _
        ((Appends-collect pr jira).blockers no_findings)
        ((Appends-collect pr jira).missing no_findings)
