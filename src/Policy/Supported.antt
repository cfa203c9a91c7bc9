-- ===== src/Policy/Supported.antt =====
-- The blocks of `evaluate_merge_readiness` cite only references that are recorded before them.
use promptql.Prelude.{
  ℕ, String, List, [], ◌∷◌, Bool, true, false, ◌&&◌, Option, none, some, length, ltb, All, ◌==◌,
}
use promptql.Connectors.{
  PullRequestState, Mergeability, CheckStatus, JiraIssueStatus, BlockerState, RequiredCheck,
  GitHubPullRequest, JiraIssue,
}
use promptql.Policy.Models.{
  PolicyReasonCode, PendingActionCode, PolicyFinding, MergeReadinessResult,
}
use promptql.Policy.Evaluation.{Evaluation, no_findings}
use promptql.Policy.Recording.{GitHubReferences}
use promptql.Policy.Evaluator.{
  status_is, check_draft, check_state, check_mergeability, block_checks, check_ci, check_approvals,
  check_changes, check_jira_status, check_jira_blocker, record_status_name, check_linked_issue,
  check_jira, check_github, collect, decide_by, decide_from, evaluate_merge_readiness,
}
use promptql.Policy.Support.{
  AllSupported, IsSupported, Recorded, Supports, Supports-record_evidence, Supports-pass,
  Supports-add_blocker, Supports-add_missing, Supports-then, Supports-bind_record, Supports-weaken,
}
use promptql.Policy.Citations.{
  check_ids, ref_ids, recorded, Supports-when, Supports-if, Supports-bind_github,
}

module _ (refs : GitHubReferences) where
  Supports-check_draft : (b : Bool) → Supports (ref_ids refs) (check_draft b refs)
  unfolding check_draft
  Supports-check_draft b =
      Supports-when b _ (Supports-add_blocker _ _ (λ t h. ((recorded refs t h).draft, tt)) _ _ _ _)

  Supports-check_state : (st : PullRequestState) → Supports (ref_ids refs) (check_state st refs)
  unfolding check_state
  Supports-check_state PullRequestState.closed =
      Supports-add_blocker _ _ (λ t h. ((recorded refs t h).state, tt)) _ _ _ _
  Supports-check_state _ = Supports-pass _

  Supports-check_mergeability :
      (m : Mergeability) → Supports (ref_ids refs) (check_mergeability m refs)
  unfolding check_mergeability
  Supports-check_mergeability Mergeability.conflicting =
      Supports-add_blocker _ _ (λ t h. ((recorded refs t h).mergeability, tt)) _ _ _ _
  Supports-check_mergeability Mergeability.unknown =
      Supports-add_missing _ _ (λ t h. ((recorded refs t h).mergeability, tt)) _
  Supports-check_mergeability Mergeability.mergeable = Supports-pass _

  Supports-check_approvals :
      (known : Bool) (required : Option ℕ) (approvals : ℕ)
      → Supports (ref_ids refs) (check_approvals known required approvals refs)
  unfolding check_approvals
  Supports-check_approvals false required approvals =
      Supports-add_missing _ _ (λ t h. ((recorded refs t h).reviews_known, tt)) _
  Supports-check_approvals true none approvals =
      Supports-add_missing _ _ (λ t h. ((recorded refs t h).approval_requirement, tt)) _
  Supports-check_approvals true (some r) approvals = Supports-when (ltb approvals r) _ (
      Supports-add_blocker _ _
        (λ t h. ((recorded refs t h).approval, ((recorded refs t h).approval_requirement, tt))) _ _
        _ _)

  Supports-check_changes :
      (known changes : Bool) → Supports (ref_ids refs) (check_changes known changes refs)
  unfolding check_changes
  Supports-check_changes known changes =
      Supports-when (known && changes) _
        (Supports-add_blocker _ _ (λ t h. ((recorded refs t h).changes, tt)) _ _ _ _)

Supports-block_checks :
    (expected : CheckStatus) (reason : PolicyReasonCode) (action : PendingActionCode)
    (cs : List (RequiredCheck × String × String))
    → Supports (check_ids cs) (block_checks expected reason action cs)
unfolding block_checks
Supports-block_checks expected reason action [] = Supports-pass []
Supports-block_checks expected reason action ((c, name, status) ∷ cs) =
    Supports-then _ _
      (Supports-when (status_is c.status expected) _
        (Supports-add_blocker _ _ (λ t h. (h.0, (h.1.0, tt))) _ _ _ _))
      (Supports-weaken _ (λ t h. h.1.1) (Supports-block_checks expected reason action cs))

Supports-check_ci :
    (known : Bool) (refs : GitHubReferences) → Supports (ref_ids refs) (check_ci known refs)
unfolding check_ci
Supports-check_ci false refs =
    Supports-add_missing _ _ (λ t h. ((recorded refs t h).checks_known, tt)) _
Supports-check_ci true refs =
    Supports-weaken _ (λ t h. (recorded refs t h).checks)
      (Supports-then _ _ (Supports-block_checks _ _ _ refs.checks)
        (Supports-block_checks _ _ _ refs.checks))

module _ (needs : List String) where
  Supports-jira_status :
      (st : JiraIssueStatus) (cited : List String)
      → ((t : Evaluation) → All (Recorded t) needs → All (Recorded t) cited)
      → Supports needs (check_jira_status st cited)
  unfolding check_jira_status
  Supports-jira_status JiraIssueStatus.done cited sub = Supports-pass needs
  Supports-jira_status _ cited sub = Supports-add_blocker needs cited sub _ _ _ _

  Supports-jira_blocker :
      (b : BlockerState) (cited : List String)
      → ((t : Evaluation) → All (Recorded t) needs → All (Recorded t) cited)
      → Supports needs (check_jira_blocker b cited)
  unfolding check_jira_blocker
  Supports-jira_blocker BlockerState.blocked cited sub =
      Supports-add_blocker needs cited sub _ _ _ _
  Supports-jira_blocker _ cited sub = Supports-pass needs

  Supports-record_status_name : (name : Option String) → Supports needs (record_status_name name)
  unfolding record_status_name
  Supports-record_status_name none = Supports-pass needs
  Supports-record_status_name (some name) =
      Supports-then _ _ (Supports-record_evidence needs _ _ _) (Supports-pass needs)

Supports-linked_issue :
    (needs : List String) (jira : JiraIssue) (key : String)
    → ((t : Evaluation) → All (Recorded t) needs → Recorded t key)
    → Supports needs (check_linked_issue jira key)
unfolding check_linked_issue
Supports-linked_issue needs jira key cited = Supports-bind_record _ _ _ _ λ status.
    Supports-then _ _ (Supports-record_status_name _ jira.status_name) (
      Supports-bind_record _ _ _ _ λ blocker.
        Supports-then _ _
          (Supports-jira_status _ jira.status _ (λ t h. (cited t h.1.1, (h.1.0, tt))))
          (Supports-jira_blocker _ jira.blocker_state _ (λ t h. (cited t h.1.1, (h.0, tt)))))

Supports-check_jira :
    (link : Option String) (jira : Option JiraIssue) (refs : GitHubReferences)
    → Supports (ref_ids refs) (check_jira link jira refs)
unfolding check_jira
Supports-check_jira none jira refs =
    Supports-add_blocker _ _ (λ t h. ((recorded refs t h).jira_link, tt)) _ _ _ _
Supports-check_jira (some key) none refs = Supports-add_missing _ _ (λ t h. tt) _
Supports-check_jira (some key) (some jira) refs = Supports-bind_record _ _ _ _ λ jira_key.
    Supports-if (jira.issue_key == key) _ _ (Supports-linked_issue _ jira jira_key (λ t h. h.0))
      (Supports-add_missing _ _ (λ t h. ((recorded refs t h.1).jira_link, (h.0, tt))) _)

Supports-check_github :
    (pr : GitHubPullRequest) (jira : Option JiraIssue) → Supports [] (check_github pr jira)
unfolding check_github
Supports-check_github pr jira = Supports-bind_github pr _ λ refs.
    Supports-then _ _ (Supports-check_draft refs pr.is_draft) (
      Supports-then _ _ (Supports-check_state refs pr.state) (
        Supports-then _ _ (Supports-check_mergeability refs pr.mergeability) (
          Supports-then _ _ (Supports-check_ci pr.required_checks_known refs) (
            Supports-then _ _
              (Supports-check_approvals refs pr.reviews_known pr.required_approval_count
                (length pr.approvals))
              (Supports-then _ _ (Supports-check_changes refs pr.reviews_known pr.changes_requested)
                (Supports-check_jira pr.linked_jira_key jira refs))))))

Supports-collect :
    (pr : Option GitHubPullRequest) (jira : Option JiraIssue) → Supports [] (collect pr jira)
unfolding collect
Supports-collect none none =
    Supports-then _ _ (Supports-add_missing _ _ (λ t h. tt) _)
      (Supports-add_missing _ _ (λ t h. tt) _)
Supports-collect none (some jira) =
    Supports-then _ _ (Supports-add_missing _ _ (λ t h. tt) _) (Supports-pass _)
Supports-collect (some pr) jira = Supports-check_github pr jira

-- every finding of a result cites only references that the result lists
pub record IsGrounded (r : MergeReadinessResult) : Type 0 where
  pub blockers : All (IsSupported r.evidence_references) r.blockers
  pub missing : All (IsSupported r.evidence_references) r.missing_information

decide_by-IsGrounded :
    (bs ms : List PolicyFinding) (s : Evaluation) → AllSupported s → IsGrounded (decide_by bs ms s)
decide_by-IsGrounded (b ∷ bs) ms s h = record { blockers = h.blockers; missing = h.missing }
decide_by-IsGrounded [] (m ∷ ms) s h = record { blockers = h.blockers; missing = h.missing }
decide_by-IsGrounded [] [] s h = record { blockers = h.blockers; missing = h.missing }

-- Whatever the facts, each blocker and each missing-information finding of the result cites only
-- evidence references that the result itself lists.
pub evaluate-IsGrounded :
    (pr : Option GitHubPullRequest) (jira : Option JiraIssue)
    → IsGrounded (evaluate_merge_readiness pr jira)
unfolding evaluate_merge_readiness decide_from
evaluate-IsGrounded pr jira =
    decide_by-IsGrounded _ _ _
      ((Supports-collect pr jira).keeps no_findings tt (record { blockers = tt; missing = tt }))
