-- ===== src/Connectors.antt =====
-- connectors/models.py: the facts that the GitHub and Jira connectors hand to the policy.
-- `NonEmptyString` and `JiraIssueKey` are texts; the model's own validators are `*_valid`.
use promptql.Prelude.{ℕ, String, Bool, not, ◌&&◌, ◌||◌, Option, List, is_empty}

pub data PullRequestState : Type 0 where
  open_state closed merged : PullRequestState

pub data Mergeability : Type 0 where
  mergeable conflicting unknown : Mergeability

pub data CheckStatus : Type 0 where
  pending passed failed : CheckStatus

pub data JiraIssueStatus : Type 0 where
  to_do in_progress done : JiraIssueStatus

pub data BlockerState : Type 0 where
  blocked not_blocked unknown : BlockerState

pub data ConnectorSource : Type 0 where
  fake live : ConnectorSource

pub record ConnectorRequest : Type 0 where
  pub repository_owner : String
  pub repository_name : String
  pub pr_number : ℕ

pub record GitHubUser : Type 0 where
  pub login : String

pub record RequiredCheck : Type 0 where
  pub name : String
  pub status : CheckStatus

pub record GitHubPullRequest : Type 0 where
  pub pr_number : ℕ
  pub title : String
  pub url : String
  pub head_branch : String
  pub base_branch : String
  pub state : PullRequestState
  pub is_draft : Bool
  pub mergeability : Mergeability
  pub required_checks : List RequiredCheck
  pub required_checks_known : Bool
  pub approvals : List GitHubUser
  pub required_approval_count : Option ℕ
  pub reviews_known : Bool
  pub changes_requested : Bool
  pub author : GitHubUser
  pub assignees : List GitHubUser
  pub requested_reviewers : List GitHubUser
  pub linked_jira_key : Option String

-- `validate_evidence_availability`
unfoldable pub pull_request_valid : GitHubPullRequest → Bool
pull_request_valid pr =
    not (not pr.required_checks_known && not (is_empty pr.required_checks))
    && not (not pr.reviews_known && (not (is_empty pr.approvals) || pr.changes_requested))

pub record JiraAssignee : Type 0 where
  pub account_id : String
  pub display_name : String

pub record JiraIssue : Type 0 where
  pub issue_key : String
  pub status : JiraIssueStatus
  pub blocker_state : BlockerState
  pub assignee : Option JiraAssignee
  pub status_id : Option String
  pub status_name : Option String
  pub is_resolved : Option Bool

-- the members' values
unfoldable pub state_value : PullRequestState → String
state_value PullRequestState.open_state = "open"
state_value PullRequestState.closed = "closed"
state_value PullRequestState.merged = "merged"

unfoldable pub mergeability_value : Mergeability → String
mergeability_value Mergeability.mergeable = "mergeable"
mergeability_value Mergeability.conflicting = "conflicting"
mergeability_value Mergeability.unknown = "unknown"

unfoldable pub check_value : CheckStatus → String
check_value CheckStatus.pending = "pending"
check_value CheckStatus.passed = "passed"
check_value CheckStatus.failed = "failed"

unfoldable pub status_value : JiraIssueStatus → String
status_value JiraIssueStatus.to_do = "to_do"
status_value JiraIssueStatus.in_progress = "in_progress"
status_value JiraIssueStatus.done = "done"

unfoldable pub blocker_value : BlockerState → String
blocker_value BlockerState.blocked = "blocked"
blocker_value BlockerState.not_blocked = "not_blocked"
blocker_value BlockerState.unknown = "unknown"
