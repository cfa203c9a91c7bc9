-- ===== src/Policy/Expected.antt =====
-- The merge-readiness policy written as a table: which conditions block a pull request, in order of
-- precedence, and which of them cannot be told. It shares no code with policy/evaluator.py.
use promptql.Prelude.{
  ℕ, ◌≤◌, ◌≡◌, ◌≢◌, String, List, [], ◌∷◌, ◌++◌, Bool, true, false, Option, none, some, length, ltb,
  All, ◌==◌, if◌then◌else◌,
}
use promptql.Connectors.{
  PullRequestState, Mergeability, CheckStatus, JiraIssueStatus, BlockerState, RequiredCheck,
  GitHubPullRequest, JiraIssue,
}
use promptql.Policy.Models.{PolicyReasonCode, MergeReadinessDecision}

abbrev pub given {ℓ} : {A : Type ℓ} → Bool → A → List A
given true a = a ∷ []
given false a = []

abbrev pub failed_reason : CheckStatus → List PolicyReasonCode
failed_reason CheckStatus.failed = PolicyReasonCode.ci_check_failed ∷ []
failed_reason _ = []

abbrev pub pending_reason : CheckStatus → List PolicyReasonCode
pending_reason CheckStatus.pending = PolicyReasonCode.ci_check_pending ∷ []
pending_reason _ = []

-- one entry for each check that is in the given state
abbrev pub failed_checks : List RequiredCheck → List PolicyReasonCode
failed_checks [] = []
failed_checks (c ∷ cs) = failed_reason c.status ++ failed_checks cs

abbrev pub pending_checks : List RequiredCheck → List PolicyReasonCode
pending_checks [] = []
pending_checks (c ∷ cs) = pending_reason c.status ++ pending_checks cs

abbrev pub closed_reason : PullRequestState → List PolicyReasonCode
closed_reason PullRequestState.closed = PolicyReasonCode.pr_closed_unmerged ∷ []
closed_reason _ = []

abbrev pub conflict_reason : Mergeability → List PolicyReasonCode
conflict_reason Mergeability.conflicting = PolicyReasonCode.merge_conflict ∷ []
conflict_reason _ = []

abbrev pub check_reasons : Bool → List RequiredCheck → List PolicyReasonCode
check_reasons true cs = failed_checks cs ++ pending_checks cs
check_reasons false cs = []

abbrev pub approval_reason : Bool → Option ℕ → ℕ → List PolicyReasonCode
approval_reason true (some required) approvals =
    given (ltb approvals required) PolicyReasonCode.approval_missing
approval_reason _ _ approvals = []

abbrev pub change_reason : Bool → Bool → List PolicyReasonCode
change_reason true true = PolicyReasonCode.changes_requested ∷ []
change_reason _ _ = []

abbrev pub incomplete_reason : JiraIssueStatus → List PolicyReasonCode
incomplete_reason JiraIssueStatus.done = []
incomplete_reason _ = PolicyReasonCode.jira_not_complete ∷ []

abbrev pub blocker_reason : BlockerState → List PolicyReasonCode
blocker_reason BlockerState.blocked = PolicyReasonCode.jira_blocker_present ∷ []
blocker_reason _ = []

abbrev pub issue_reasons : Option String → Option JiraIssue → List PolicyReasonCode
issue_reasons none jira = PolicyReasonCode.jira_link_missing ∷ []
issue_reasons (some key) none = []
issue_reasons (some key) (some jira) =
    if jira.issue_key == key
    then incomplete_reason jira.status ++ blocker_reason jira.blocker_state
    else []

-- The reasons that block, in the order in which the first one names the decision.
abbrev pub expected_blockers : Option GitHubPullRequest → Option JiraIssue → List PolicyReasonCode
expected_blockers none jira = []
expected_blockers (some pr) jira =
    given pr.is_draft PolicyReasonCode.pr_is_draft
    ++ (closed_reason pr.state
        ++ (conflict_reason pr.mergeability
            ++ (check_reasons pr.required_checks_known pr.required_checks
                ++ (approval_reason pr.reviews_known pr.required_approval_count
                      (length pr.approvals)
                    ++ (change_reason pr.reviews_known pr.changes_requested
                        ++ issue_reasons pr.linked_jira_key jira)))))

-- What cannot be told.
pub data Gap : Type 0 where
  no_github no_jira no_mergeability no_check_rules no_reviews no_approval_rules : Gap
  other_issue : Gap

abbrev pub gap_message : Gap → String
gap_message Gap.no_github = "GitHub pull-request evidence is unavailable."
gap_message Gap.no_jira = "Jira issue evidence is unavailable."
gap_message Gap.no_mergeability = "GitHub has not determined mergeability."
gap_message Gap.no_check_rules = "GitHub required-check rules are unavailable."
gap_message Gap.no_reviews = "GitHub review evidence is unavailable."
gap_message Gap.no_approval_rules = "GitHub required-approval rules are unavailable."
gap_message Gap.other_issue = "Jira evidence does not match the issue linked by GitHub."

abbrev pub mergeability_gap : Mergeability → List Gap
mergeability_gap Mergeability.unknown = Gap.no_mergeability ∷ []
mergeability_gap _ = []

abbrev pub check_gap : Bool → List Gap
check_gap true = []
check_gap false = Gap.no_check_rules ∷ []

abbrev pub review_gap : Bool → Option ℕ → List Gap
review_gap false required = Gap.no_reviews ∷ []
review_gap true none = Gap.no_approval_rules ∷ []
review_gap true (some _) = []

abbrev pub issue_gap : Option String → Option JiraIssue → List Gap
issue_gap none jira = []
issue_gap (some key) none = Gap.no_jira ∷ []
issue_gap (some key) (some jira) = if jira.issue_key == key then [] else Gap.other_issue ∷ []

abbrev pub missing_issue : Option JiraIssue → List Gap
missing_issue none = Gap.no_jira ∷ []
missing_issue (some _) = []

abbrev pub expected_gaps : Option GitHubPullRequest → Option JiraIssue → List Gap
expected_gaps none jira = Gap.no_github ∷ missing_issue jira
expected_gaps (some pr) jira =
    mergeability_gap pr.mergeability
    ++ (check_gap pr.required_checks_known
        ++ (review_gap pr.reviews_known pr.required_approval_count
            ++ issue_gap pr.linked_jira_key jira))

-- Everything that must hold of the pull request and of its issue before a merge.
pub record IsMergeable (pr : GitHubPullRequest) (required : ℕ) (jira : JiraIssue) : Type 0 where
  pub no_draft : pr.is_draft ≡ false
  pub not_closed : pr.state ≢ PullRequestState.closed
  pub clean : pr.mergeability ≡ Mergeability.mergeable
  pub checks_known : pr.required_checks_known ≡ true
  pub checks_passed : All (λ c. c.status ≡ CheckStatus.passed) pr.required_checks
  pub reviews_known : pr.reviews_known ≡ true
  pub rule_known : pr.required_approval_count ≡ some required
  pub approved : required ≤ length pr.approvals
  pub no_changes : pr.changes_requested ≡ false
  pub linked : pr.linked_jira_key ≡ some jira.issue_key
  pub issue_done : jira.status ≡ JiraIssueStatus.done
  pub issue_free : jira.blocker_state ≢ BlockerState.blocked

abbrev pub IsReady : Option GitHubPullRequest → Option JiraIssue → Type 0
IsReady (some pr) (some jira) = (required : ℕ) × IsMergeable pr required jira
IsReady _ _ = ⊥

-- Blockers outrank gaps, and the first blocker gives its reason to the decision.
abbrev pub expected_decision :
    List PolicyReasonCode → List Gap → MergeReadinessDecision × PolicyReasonCode
expected_decision (r ∷ rs) gaps = (MergeReadinessDecision.blocked, r)
expected_decision [] (g ∷ gs) =
    (MergeReadinessDecision.unknown, PolicyReasonCode.evidence_unavailable)
expected_decision [] [] = (MergeReadinessDecision.ready, PolicyReasonCode.ready)
