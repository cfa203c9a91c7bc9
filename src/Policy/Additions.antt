-- ===== src/Policy/Additions.antt =====
-- What each block of `evaluate_merge_readiness` adds, and what the whole body adds.
use promptql.Prelude.{
  ℕ, ◌+◌, ◌≡◌, refl, ap, String, List, [], ◌∷◌, ◌++◌, map, Bool, true, false, Option, none, some,
  length, ltb, ◌==◌, if◌then◌else◌,
}
use promptql.Connectors.{
  PullRequestState, Mergeability, CheckStatus, JiraIssueStatus, BlockerState, RequiredCheck,
  GitHubPullRequest, JiraIssue,
}
use promptql.Policy.Models.{PolicyReasonCode, PendingActionCode}
use promptql.Policy.Evaluation.{Evaluation, Eval, ◌>>=◌, pure, when, add_missing_information}
use promptql.Policy.Recording.{GitHubReferences, record_checks, record_github}
use promptql.Policy.Evaluator.{
  status_is, check_draft, check_state, check_mergeability, block_checks, check_ci, check_approvals,
  check_changes, check_jira_status, check_jira_blocker, record_status_name, check_linked_issue,
  check_jira, check_github, collect,
}
use promptql.Policy.Expected.{
  Gap, failed_reason, pending_reason, closed_reason, conflict_reason, failed_checks, pending_checks,
  check_reasons, approval_reason, change_reason, incomplete_reason, blocker_reason, issue_reasons,
  given, expected_blockers, mergeability_gap, check_gap, review_gap, issue_gap, expected_gaps,
}
use promptql.Policy.Appends.{
  Appends, Appends-pure, Appends-pass, Appends-record_evidence, Appends-add_blocker,
  Appends-add_missing, Appends-bind, Appends-then, Appends-when,
}

Appends-record_checks : (i : ℕ) (cs : List RequiredCheck) → Appends (record_checks i cs) [] []
unfolding record_checks
Appends-record_checks i [] = Appends-pure []
Appends-record_checks i (c ∷ cs) = Appends-bind _ _ (Appends-record_evidence _ _ _) λ s.
    Appends-bind _ _ (Appends-record_evidence _ _ _)
      λ s'. Appends-bind _ _ (Appends-record_checks (i + 1) cs) λ s''. Appends-pure _

-- the references keep the checks in order
record_checks-checks :
    (i : ℕ) (cs : List RequiredCheck) (s : Evaluation)
    → map (λ e. e.0) (record_checks i cs s).0 ≡ cs
unfolding record_checks ◌>>=◌ pure
record_checks-checks i [] s = refl
record_checks-checks i (c ∷ cs) s = ap (◌∷◌ c) (record_checks-checks (i + 1) cs _)

Appends-record_github : (pr : GitHubPullRequest) → Appends (record_github pr) [] []
unfolding record_github
Appends-record_github pr = Appends-bind _ _ (Appends-record_evidence _ _ _) λ _.
    Appends-bind _ _ (Appends-record_evidence _ _ _) λ _.
      Appends-bind _ _ (Appends-record_evidence _ _ _) λ _.
        Appends-bind _ _ (Appends-record_evidence _ _ _) λ _.
          Appends-bind _ _ (Appends-record_evidence _ _ _) λ _.
            Appends-bind _ _ (Appends-record_evidence _ _ _) λ _.
              Appends-bind _ _ (Appends-record_evidence _ _ _) λ _.
                Appends-bind _ _ (Appends-record_evidence _ _ _) λ _.
                  Appends-bind _ _ (Appends-record_evidence _ _ _) λ _.
                    Appends-bind _ _ (Appends-record_checks 0 pr.required_checks)
                      λ _. Appends-pure _

record_github-checks :
    (pr : GitHubPullRequest) (s : Evaluation)
    → map (λ e. e.0) (record_github pr s).0.checks ≡ pr.required_checks
unfolding record_github ◌>>=◌ pure
record_github-checks pr s = record_checks-checks 0 pr.required_checks _

module _ (refs : GitHubReferences) where
  Appends-check_draft :
      (b : Bool) → Appends (check_draft b refs) (given b PolicyReasonCode.pr_is_draft) []
  unfolding check_draft
  Appends-check_draft b = Appends-when b (Appends-add_blocker _ _ _ _ _)

  Appends-check_state :
      (st : PullRequestState) → Appends (check_state st refs) (closed_reason st) []
  unfolding check_state
  Appends-check_state PullRequestState.closed = Appends-add_blocker _ _ _ _ _
  Appends-check_state _ = Appends-pass

  Appends-check_mergeability :
      (m : Mergeability)
      → Appends (check_mergeability m refs) (conflict_reason m) (mergeability_gap m)
  unfolding check_mergeability
  Appends-check_mergeability Mergeability.conflicting = Appends-add_blocker _ _ _ _ _
  Appends-check_mergeability Mergeability.unknown = Appends-add_missing Gap.no_mergeability _
  Appends-check_mergeability Mergeability.mergeable = Appends-pass

  Appends-check_approvals :
      (known : Bool) (required : Option ℕ) (approvals : ℕ)
      → Appends
          (check_approvals known required approvals refs)
          (approval_reason known required approvals)
          (review_gap known required)
  unfolding check_approvals
  Appends-check_approvals false required approvals = Appends-add_missing Gap.no_reviews _
  Appends-check_approvals true none approvals = Appends-add_missing Gap.no_approval_rules _
  Appends-check_approvals true (some r) approvals =
      Appends-when (ltb approvals r) (Appends-add_blocker _ _ _ _ _)

  Appends-check_changes :
      (known changes : Bool)
      → Appends (check_changes known changes refs) (change_reason known changes) []
  unfolding check_changes
  Appends-check_changes true true = Appends-add_blocker _ _ _ _ _
  Appends-check_changes true false = Appends-pass
  Appends-check_changes false changes = Appends-pass

module _ {m : Eval Unit} where
  Appends-when_failed :
      (st : CheckStatus)
      → Appends m (PolicyReasonCode.ci_check_failed ∷ []) []
      → Appends (when (status_is st CheckStatus.failed) m) (failed_reason st) []
  Appends-when_failed CheckStatus.failed h = h
  Appends-when_failed CheckStatus.pending h = Appends-pass
  Appends-when_failed CheckStatus.passed h = Appends-pass

  Appends-when_pending :
      (st : CheckStatus)
      → Appends m (PolicyReasonCode.ci_check_pending ∷ []) []
      → Appends (when (status_is st CheckStatus.pending) m) (pending_reason st) []
  Appends-when_pending CheckStatus.failed h = Appends-pass
  Appends-when_pending CheckStatus.pending h = h
  Appends-when_pending CheckStatus.passed h = Appends-pass

-- the first loop adds the failed checks, the second the pending ones
Appends-block_failed :
    (cs : List (RequiredCheck × String × String))
    → Appends
        (block_checks CheckStatus.failed PolicyReasonCode.ci_check_failed
          PendingActionCode.fix_ci_check cs)
        (failed_checks (map (λ e. e.0) cs))
        []
unfolding block_checks
Appends-block_failed [] = Appends-pass
Appends-block_failed ((c, name, status) ∷ cs) =
    Appends-then _ _ (Appends-when_failed c.status (Appends-add_blocker _ _ _ _ _))
      (Appends-block_failed cs)

Appends-block_pending :
    (cs : List (RequiredCheck × String × String))
    → Appends
        (block_checks CheckStatus.pending PolicyReasonCode.ci_check_pending
          PendingActionCode.wait_for_ci_check cs)
        (pending_checks (map (λ e. e.0) cs))
        []
unfolding block_checks
Appends-block_pending [] = Appends-pass
Appends-block_pending ((c, name, status) ∷ cs) =
    Appends-then _ _ (Appends-when_pending c.status (Appends-add_blocker _ _ _ _ _))
      (Appends-block_pending cs)

Appends-check_ci :
    (known : Bool) (refs : GitHubReferences)
    → Appends
        (check_ci known refs)
        (check_reasons known (map (λ e. e.0) refs.checks))
        (check_gap known)
unfolding check_ci
Appends-check_ci false refs = Appends-add_missing Gap.no_check_rules _
Appends-check_ci true refs =
    Appends-then _ _ (Appends-block_failed refs.checks) (Appends-block_pending refs.checks)

Appends-check_jira_status :
    (st : JiraIssueStatus) (ids : List String)
    → Appends (check_jira_status st ids) (incomplete_reason st) []
unfolding check_jira_status
Appends-check_jira_status JiraIssueStatus.done ids = Appends-pass
Appends-check_jira_status _ ids = Appends-add_blocker _ _ _ _ _

Appends-check_jira_blocker :
    (b : BlockerState) (ids : List String)
    → Appends (check_jira_blocker b ids) (blocker_reason b) []
unfolding check_jira_blocker
Appends-check_jira_blocker BlockerState.blocked ids = Appends-add_blocker _ _ _ _ _
Appends-check_jira_blocker _ ids = Appends-pass

Appends-record_status_name : (name : Option String) → Appends (record_status_name name) [] []
unfolding record_status_name
Appends-record_status_name none = Appends-pass
Appends-record_status_name (some name) =
    Appends-then _ _ (Appends-record_evidence _ _ _) Appends-pass

Appends-check_linked_issue :
    (jira : JiraIssue) (key : String)
    → Appends
        (check_linked_issue jira key)
        (incomplete_reason jira.status ++ blocker_reason jira.blocker_state)
        []
unfolding check_linked_issue
Appends-check_linked_issue jira key = Appends-bind _ _ (Appends-record_evidence _ _ _) λ _.
    Appends-then _ _ (Appends-record_status_name jira.status_name) (
      Appends-bind _ _ (Appends-record_evidence _ _ _) λ _.
        Appends-then _ _ (Appends-check_jira_status jira.status _)
          (Appends-check_jira_blocker jira.blocker_state _))

Appends-same_issue :
    (same : Bool) (jira : JiraIssue) (key : String) (ids : List String)
    → Appends
        (if same
          then check_linked_issue jira key
          else add_missing_information "Jira evidence does not match the issue linked by GitHub."
              ids)
        (if same then incomplete_reason jira.status ++ blocker_reason jira.blocker_state else [])
        (if same then [] else Gap.other_issue ∷ [])
Appends-same_issue true jira key ids = Appends-check_linked_issue jira key
Appends-same_issue false jira key ids = Appends-add_missing Gap.other_issue ids

Appends-check_jira :
    (link : Option String) (jira : Option JiraIssue) (refs : GitHubReferences)
    → Appends (check_jira link jira refs) (issue_reasons link jira) (issue_gap link jira)
unfolding check_jira
Appends-check_jira none jira refs = Appends-add_blocker _ _ _ _ _
Appends-check_jira (some key) none refs = Appends-add_missing Gap.no_jira []
Appends-check_jira (some key) (some jira) refs =
    Appends-bind _ _ (Appends-record_evidence _ _ _)
      λ _. Appends-same_issue (jira.issue_key == key) jira _ _

Appends-check_github :
    (pr : GitHubPullRequest) (jira : Option JiraIssue)
    → Appends
        (check_github pr jira)
        (expected_blockers (some pr) jira)
        (expected_gaps (some pr) jira)
unfolding check_github
Appends-check_github pr jira = Appends-bind _ _ (Appends-record_github pr) λ s.
    let refs = (record_github pr s).0 in
    Appends-then _ _ (Appends-check_draft refs pr.is_draft) (
      Appends-then _ _ (Appends-check_state refs pr.state) (
        Appends-then _ _ (Appends-check_mergeability refs pr.mergeability) (
          Appends-then _ _
            (rw (record_github-checks pr s) at (Appends-check_ci pr.required_checks_known refs))
            (Appends-then _ _
              (Appends-check_approvals refs pr.reviews_known pr.required_approval_count
                (length pr.approvals))
              (Appends-then _ _ (Appends-check_changes refs pr.reviews_known pr.changes_requested)
                (Appends-check_jira pr.linked_jira_key jira refs))))))

-- The whole body adds the blockers and the gaps of the table, in its order.
pub Appends-collect :
    (pr : Option GitHubPullRequest) (jira : Option JiraIssue)
    → Appends (collect pr jira) (expected_blockers pr jira) (expected_gaps pr jira)
unfolding collect
Appends-collect none none =
    Appends-then _ _ (Appends-add_missing Gap.no_github []) (Appends-add_missing Gap.no_jira [])
Appends-collect none (some jira) =
    Appends-then _ _ (Appends-add_missing Gap.no_github []) Appends-pass
Appends-collect (some pr) jira = Appends-check_github pr jira
