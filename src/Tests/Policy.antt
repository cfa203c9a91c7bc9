-- ===== src/Tests/Policy.antt =====
-- policy/evaluator.py on a pull request that is ready and on one that is not.
use promptql.Prelude.{◌≡◌, refl, ◌↔◌, some, [], ◌∷◌}
use promptql.Policy.Models.{MergeReadinessDecision, PolicyReasonCode}
use promptql.Policy.Evaluator.{evaluate_merge_readiness}
use promptql.Policy.Expected.{IsReady, expected_blockers, expected_gaps, expected_decision}
use promptql.Policy.Appends.{reasons, messages, gap_messages}
use promptql.Policy.Ready.{evaluate-ready_iff}
use promptql.Policy.Decision.{evaluate-findings, evaluate-decision}
use promptql.Policy.Supported.{IsGrounded, evaluate-IsGrounded}
use promptql.Policy.Remedies.{ArePaired}
use promptql.Policy.Pairing.{evaluate-ArePaired}
use promptql.Tests.Data.{good_pr, bad_pr, done_issue, blocked_issue}

evaluate-ready_iff_example :
    ((evaluate_merge_readiness (some good_pr) (some done_issue)).decision
      ≡ MergeReadinessDecision.ready)
    ↔ IsReady (some good_pr) (some done_issue)
evaluate-ready_iff_example = evaluate-ready_iff (some good_pr) (some done_issue)

evaluate-findings_example :
    (reasons (evaluate_merge_readiness (some bad_pr) (some blocked_issue)).blockers
      ≡ expected_blockers (some bad_pr) (some blocked_issue))
    × (messages (evaluate_merge_readiness (some bad_pr) (some blocked_issue)).missing_information
        ≡ gap_messages (expected_gaps (some bad_pr) (some blocked_issue)))
evaluate-findings_example = evaluate-findings (some bad_pr) (some blocked_issue)

evaluate-decision_example :
    (
      (evaluate_merge_readiness (some bad_pr) (some blocked_issue)).decision,
      (evaluate_merge_readiness (some bad_pr) (some blocked_issue)).reason_code,
    )
    ≡ expected_decision
        (expected_blockers (some bad_pr) (some blocked_issue))
        (expected_gaps (some bad_pr) (some blocked_issue))
evaluate-decision_example = evaluate-decision (some bad_pr) (some blocked_issue)

evaluate-IsGrounded_example :
    IsGrounded (evaluate_merge_readiness (some bad_pr) (some blocked_issue))
evaluate-IsGrounded_example = evaluate-IsGrounded (some bad_pr) (some blocked_issue)

evaluate-ArePaired_example :
    let r = evaluate_merge_readiness (some bad_pr) (some blocked_issue) in
    ArePaired r.blockers r.missing_information r.pending_actions
evaluate-ArePaired_example = evaluate-ArePaired (some bad_pr) (some blocked_issue)

bad_pr_reasons :
    expected_blockers (some bad_pr) (some blocked_issue)
    ≡ PolicyReasonCode.pr_is_draft ∷ PolicyReasonCode.ci_check_failed
      ∷ PolicyReasonCode.ci_check_pending ∷ PolicyReasonCode.approval_missing
      ∷ PolicyReasonCode.jira_not_complete ∷ PolicyReasonCode.jira_blocker_present ∷ []
bad_pr_reasons = refl
