-- ===== src/Tests/Data.antt =====
-- A pull request of a repository with two required checks, the issue that it links, and runs.
use promptql.Prelude.{ℕ, ◌+◌, String, true, false, Option, none, some, [], ◌∷◌}
use promptql.Connectors.{
  PullRequestState, Mergeability, CheckStatus, JiraIssueStatus, BlockerState, ConnectorSource,
  ConnectorRequest, GitHubUser, GitHubPullRequest, JiraIssue,
}
use promptql.Policy.Evaluator.{evaluate_merge_readiness}
use promptql.Runtime.Models.{
  RunStatus, StepStatus, WorkflowStepName, RuntimeErrorCode, RuntimeErrorInfo, ExplanationSource,
  RunSources, RuntimeStep, MergeReadinessRun,
}
use promptql.Workflow.World.{Fetch, RepositoryError, Service}

abbrev user : String → GitHubUser
user login = record { login = login }

-- ready to merge
abbrev pub good_pr : GitHubPullRequest
good_pr = record {
  pr_number = 7;
  title = "Add retries";
  url = "https://github.example/acme/shop/pull/7";
  head_branch = "retries";
  base_branch = "main";
  state = PullRequestState.open_state;
  is_draft = false;
  mergeability = Mergeability.mergeable;
  required_checks =
      (record { name = "lint"; status = CheckStatus.passed })
      ∷ (record { name = "unit"; status = CheckStatus.passed })
      ∷ [];
  required_checks_known = true;
  approvals = user "ann" ∷ user "bob" ∷ [];
  required_approval_count = some 2;
  reviews_known = true;
  changes_requested = false;
  author = user "eve";
  assignees = [];
  requested_reviewers = [];
  linked_jira_key = some "SHOP-12";
}

-- a draft with a failing check, too few approvals and an unknown mergeability
abbrev pub bad_pr : GitHubPullRequest
bad_pr = record good_pr {
  is_draft = true;
  mergeability = Mergeability.unknown;
  required_checks =
      (record { name = "lint"; status = CheckStatus.pending })
      ∷ (record { name = "unit"; status = CheckStatus.failed })
      ∷ [];
  approvals = user "ann" ∷ [];
}

abbrev pub done_issue : JiraIssue
done_issue = record {
  issue_key = "SHOP-12";
  status = JiraIssueStatus.done;
  blocker_state = BlockerState.not_blocked;
  assignee = none;
  status_id = none;
  status_name = some "Done";
  is_resolved = some true;
}

abbrev pub blocked_issue : JiraIssue
blocked_issue = record done_issue {
  status = JiraIssueStatus.in_progress;
  blocker_state = BlockerState.blocked;
}

abbrev pub request : ConnectorRequest
request = record { repository_owner = "acme"; repository_name = "shop"; pr_number = 7 }

abbrev pub sources : RunSources
sources = record {
  github = some ConnectorSource.fake;
  jira = some ConnectorSource.fake;
  explanation = some ExplanationSource.fake;
}

abbrev pub pending_run : MergeReadinessRun
pending_run = record {
  run_id = 40;
  user_id = some 3;
  workflow_name = "merge_readiness";
  workflow_version = "1";
  sources = some sources;
  status = RunStatus.pending;
  started_at = none;
  completed_at = none;
  steps = [];
  error = none;
  result = none;
  request = request;
  github = none;
  jira = none;
}

abbrev pub running_run : MergeReadinessRun
running_run = record pending_run { status = RunStatus.running; started_at = some 100 }

abbrev pub running_step : RuntimeStep
running_step = record {
  step_id = 41;
  name = WorkflowStepName.fetch_github_facts;
  status = StepStatus.running;
  started_at = some 101;
  completed_at = none;
  duration_ms = none;
  attempt = 1;
  error = none;
}

abbrev pub error_info : RuntimeErrorInfo
error_info = record { code = RuntimeErrorCode.connector_execution_failed; message = "no answer" }

-- both connectors answer; clocks count; the repository raises at the given saves
abbrev pub service_failing : (ℕ → Option RepositoryError) → Service
service_failing save_error = record {
  get_pull_request = λ _. Fetch.facts bad_pr;
  get_issue = λ _. Fetch.facts blocked_issue;
  policy_evaluator = λ github jira. some (evaluate_merge_readiness github jira);
  timestamp_clock = λ n. 1000 + n;
  duration_clock = λ n. 5000000 + n;
  uuid4 = λ n. 40 + n;
  save_error = save_error;
  sources = sources;
}

abbrev pub service : Service
service = service_failing λ _. none
