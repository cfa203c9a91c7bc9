-- ===== src/Policy/Evaluator.antt =====
-- policy/evaluator.py: `evaluate_merge_readiness`, cut into one action for each of its blocks.
use promptql.Prelude.{
  ℕ, String, List, [], ◌∷◌, ◌<>◌, Bool, true, false, ◌&&◌, Option, none, some, length, ltb,
  show_nat, ◌==◌, if◌then◌else◌,
}
use promptql.Connectors.{
  PullRequestState, Mergeability, CheckStatus, JiraIssueStatus, BlockerState, RequiredCheck,
  GitHubPullRequest, JiraIssue, check_value, status_value, blocker_value,
}
use promptql.Policy.Models.{
  MergeReadinessDecision, PolicyReasonCode, PendingActionCode, EvidenceSource, EvidenceValue,
  PolicyFinding, MergeReadinessResult,
}
use promptql.Policy.Evaluation.{
  Evaluation, Eval, no_findings, ◌>>=◌, ◌>>◌, pass, when, record_evidence, add_blocker,
  add_missing_information,
}
use promptql.Policy.Recording.{GitHubReferences, record_github}

unfoldable pub check_draft : Bool → GitHubReferences → Eval Unit
check_draft is_draft refs = when is_draft (
    add_blocker PolicyReasonCode.pr_is_draft "The pull request is a draft." (refs.draft ∷ [])
      PendingActionCode.mark_pr_ready "Mark the pull request ready for review.")

unfoldable pub check_state : PullRequestState → GitHubReferences → Eval Unit
check_state PullRequestState.closed refs =
    add_blocker PolicyReasonCode.pr_closed_unmerged
      "The pull request is closed without being merged." (refs.state ∷ [])
      PendingActionCode.reopen_pr "Reopen the pull request before merging."
check_state _ refs = pass

unfoldable pub check_mergeability : Mergeability → GitHubReferences → Eval Unit
check_mergeability Mergeability.conflicting refs =
    add_blocker PolicyReasonCode.merge_conflict "The pull request has a merge conflict."
      (refs.mergeability ∷ []) PendingActionCode.resolve_merge_conflict
      "Resolve the merge conflict."
check_mergeability Mergeability.unknown refs =
    add_missing_information "GitHub has not determined mergeability." (refs.mergeability ∷ [])
check_mergeability Mergeability.mergeable refs = pass

-- `check.status is expected_status`
abbrev pub status_is : CheckStatus → CheckStatus → Bool
status_is CheckStatus.pending CheckStatus.pending = true
status_is CheckStatus.passed CheckStatus.passed = true
status_is CheckStatus.failed CheckStatus.failed = true
status_is _ _ = false

abbrev pub check_action_message : RequiredCheck → String
check_action_message check =
    if status_is check.status CheckStatus.failed
    then "Fix required CI check '" <> check.name <> "'."
    else "Wait for required CI check '" <> check.name <> "' to finish."

-- the inner loop, for one of the two expected statuses
unfoldable pub block_checks :
    CheckStatus
    → PolicyReasonCode
    → PendingActionCode
    → List (RequiredCheck × String × String)
    → Eval Unit
block_checks expected reason action [] = pass
block_checks expected reason action ((check, name, status) ∷ rest) = do
  when (status_is check.status expected) (
      add_blocker reason
        ("Required CI check '" <> check.name <> "' is " <> check_value check.status <> ".")
        (name ∷ status ∷ []) action (check_action_message check))
  block_checks expected reason action rest

unfoldable pub check_ci : Bool → GitHubReferences → Eval Unit
check_ci false refs =
    add_missing_information "GitHub required-check rules are unavailable." (refs.checks_known ∷ [])
check_ci true refs = do
  block_checks CheckStatus.failed PolicyReasonCode.ci_check_failed PendingActionCode.fix_ci_check
      refs.checks
  block_checks CheckStatus.pending PolicyReasonCode.ci_check_pending
      PendingActionCode.wait_for_ci_check refs.checks

unfoldable pub check_approvals : Bool → Option ℕ → ℕ → GitHubReferences → Eval Unit
check_approvals false required approvals refs =
    add_missing_information "GitHub review evidence is unavailable." (refs.reviews_known ∷ [])
check_approvals true none approvals refs =
    add_missing_information "GitHub required-approval rules are unavailable."
      (refs.approval_requirement ∷ [])
check_approvals true (some required) approvals refs = when (ltb approvals required) (
    add_blocker PolicyReasonCode.approval_missing
      "The pull request does not have the required approval count."
      (refs.approval ∷ refs.approval_requirement ∷ []) PendingActionCode.get_required_approval
      "Obtain the remaining approvals required by GitHub rules.")

unfoldable pub check_changes : Bool → Bool → GitHubReferences → Eval Unit
check_changes reviews_known changes_requested refs = when (reviews_known && changes_requested) (
    add_blocker PolicyReasonCode.changes_requested "A reviewer has requested changes."
      (refs.changes ∷ []) PendingActionCode.address_requested_changes
      "Address the requested changes and obtain a new review.")

unfoldable pub check_jira_status : JiraIssueStatus → List String → Eval Unit
check_jira_status JiraIssueStatus.done ids = pass
check_jira_status _ ids =
    add_blocker PolicyReasonCode.jira_not_complete "The linked Jira issue is not complete." ids
      PendingActionCode.complete_jira_issue "Move the linked Jira issue to done."

unfoldable pub check_jira_blocker : BlockerState → List String → Eval Unit
check_jira_blocker BlockerState.blocked ids =
    add_blocker PolicyReasonCode.jira_blocker_present "The linked Jira issue has a blocker." ids
      PendingActionCode.clear_jira_blocker "Clear the blocker on the linked Jira issue."
check_jira_blocker _ ids = pass

unfoldable pub record_status_name : Option String → Eval Unit
record_status_name none = pass
record_status_name (some name) = do
  record_evidence EvidenceSource.jira "status_name" (EvidenceValue.text name)
  pass

unfoldable pub check_linked_issue : JiraIssue → String → Eval Unit
check_linked_issue jira jira_key = do
  status ←
      record_evidence EvidenceSource.jira "status_category"
        (EvidenceValue.text (status_value jira.status))
  record_status_name jira.status_name
  blocker ←
      record_evidence EvidenceSource.jira "blocker_state"
        (EvidenceValue.text (blocker_value jira.blocker_state))
  check_jira_status jira.status (jira_key ∷ status ∷ [])
  check_jira_blocker jira.blocker_state (jira_key ∷ blocker ∷ [])

unfoldable pub check_jira : Option String → Option JiraIssue → GitHubReferences → Eval Unit
check_jira none jira refs =
    add_blocker PolicyReasonCode.jira_link_missing "The pull request has no linked Jira issue."
      (refs.jira_link ∷ []) PendingActionCode.link_jira_issue
      "Link a Jira issue to the pull request."
check_jira (some key) none refs = add_missing_information "Jira issue evidence is unavailable." []
check_jira (some key) (some jira) refs = do
  jira_key ← record_evidence EvidenceSource.jira "issue_key" (EvidenceValue.text jira.issue_key)
  if jira.issue_key == key
      then check_linked_issue jira jira_key
      else add_missing_information "Jira evidence does not match the issue linked by GitHub."
          (refs.jira_link ∷ jira_key ∷ [])

unfoldable pub check_github : GitHubPullRequest → Option JiraIssue → Eval Unit
check_github github jira = do
  refs ← record_github github
  check_draft github.is_draft refs
  check_state github.state refs
  check_mergeability github.mergeability refs
  check_ci github.required_checks_known refs
  check_approvals github.reviews_known github.required_approval_count (length github.approvals) refs
  check_changes github.reviews_known github.changes_requested refs
  check_jira github.linked_jira_key jira refs

abbrev pub missing_jira : Option JiraIssue → Eval Unit
missing_jira none = add_missing_information "Jira issue evidence is unavailable." []
missing_jira (some _) = pass

unfoldable pub collect : Option GitHubPullRequest → Option JiraIssue → Eval Unit
collect none jira = do
  add_missing_information "GitHub pull-request evidence is unavailable." []
  missing_jira jira
collect (some github) jira = check_github github jira

abbrev verdict :
    Evaluation → MergeReadinessDecision → String → PolicyReasonCode → MergeReadinessResult
verdict s decision summary reason = record {
  decision = decision;
  summary = summary;
  reason_code = reason;
  blockers = s.blockers;
  pending_actions = s.pending_actions;
  missing_information = s.missing_information;
  evidence_references = s.evidence_references;
}

-- the decision, from the finished lists
abbrev pub decide_by : List PolicyFinding → List PolicyFinding → Evaluation → MergeReadinessResult
decide_by (b ∷ bs) missing s =
    verdict s MergeReadinessDecision.blocked
      (show_nat (length (b ∷ bs)) <> " verified blocker(s) prevent merge readiness.") b.reason_code
decide_by [] (m ∷ ms) s =
    verdict s MergeReadinessDecision.unknown "Required evidence is unavailable or indeterminate."
      PolicyReasonCode.evidence_unavailable
decide_by [] [] s =
    verdict s MergeReadinessDecision.ready
      "All required V1 merge-readiness conditions are satisfied." PolicyReasonCode.ready

unfoldable pub decide_from : Evaluation → MergeReadinessResult
decide_from s = decide_by s.blockers s.missing_information s

unfoldable pub evaluate_merge_readiness :
    Option GitHubPullRequest → Option JiraIssue → MergeReadinessResult
evaluate_merge_readiness github jira = decide_from (collect github jira no_findings).1
