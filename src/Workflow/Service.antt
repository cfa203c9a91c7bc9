-- ===== src/Workflow/Service.antt =====
-- workflows/merge_readiness.py: the methods of `MergeReadinessWorkflowService`.
use promptql.Prelude.{ℕ, ◌-◌, ◌/◌, String, Bool, true, false, Option, none, some, [], ◌∷◌, ◌++◌}
use promptql.Connectors.{ConnectorRequest, GitHubPullRequest, JiraIssue}
use promptql.Policy.Models.{MergeReadinessResult}
use promptql.Runtime.Models.{
  RunStatus, StepStatus, WorkflowStepName, RuntimeErrorCode, RuntimeErrorInfo, RuntimeStep,
  MergeReadinessRun,
}
use promptql.Runtime.State.{
  replace_run, create_pending_run, create_pending_step, transition_run, transition_step,
}
use promptql.Workflow.World.{
  FailureCategory, StepOutcome, PersistenceCheckpoint, Fetch, Service, Event, Raised, Outcome,
  returned, raised, Exec, ◌>>=◌, ◌>>◌, pure, raise, lift, emit, now, tick, new_id, save,
}
use promptql.Workflow.Recording.{
  with_last_step, persistence_failure_category, record_terminal_step, record_terminal_run,
}

module _ (service : Service) where
  unfoldable pub start_step :
      MergeReadinessRun → WorkflowStepName → Exec (MergeReadinessRun × RuntimeStep × ℕ)
  start_step run name = do
    id ← new_id service
    let pending_step = create_pending_step name id
    with_pending ← lift (replace_run run (λ v. record v { steps = run.steps ++ pending_step ∷ [] }))
    run₁ ← save service with_pending PersistenceCheckpoint.step_started
    t ← now service
    running_step ← lift (transition_step pending_step StepStatus.running t none none)
    with_running ← lift (replace_run run₁ (with_last_step run₁ running_step))
    run₂ ← save service with_running PersistenceCheckpoint.step_started
    started_at_ns ← tick service
    pure (run₂, running_step, started_at_ns)

  -- `max(0, a - b)` is the truncated difference
  unfoldable pub duration_ms : ℕ → Exec ℕ
  duration_ms started_at_ns = do
    ended_at_ns ← tick service
    pure ((ended_at_ns - started_at_ns) / 1000000)

  -- the timestamp is taken before the duration
  unfoldable pub build_completed_step : RuntimeStep → ℕ → Exec RuntimeStep
  build_completed_step step started_at_ns = do
    t ← now service
    duration ← duration_ms started_at_ns
    lift (transition_step step StepStatus.completed t (some duration) none)

  unfoldable pub complete_step :
      MergeReadinessRun
      → RuntimeStep
      → ℕ
      → (MergeReadinessRun → MergeReadinessRun)
      → Exec MergeReadinessRun
  complete_step run step started_at_ns updates = do
    completed_step ← build_completed_step step started_at_ns
    next ← lift (replace_run run (λ v. updates (with_last_step run completed_step v)))
    save service next PersistenceCheckpoint.step_completed

  unfoldable pub fail_step_and_run :
      MergeReadinessRun → RuntimeStep → ℕ → RuntimeErrorInfo → Exec MergeReadinessRun
  fail_step_and_run run step started_at_ns error = do
    t ← now service
    duration ← duration_ms started_at_ns
    failed_step ← lift (transition_step step StepStatus.failed t (some duration) (some error))
    run_with_failed_step ← lift (replace_run run (with_last_step run failed_step))
    t' ← now service
    failed_run ← lift (transition_run run_with_failed_step RunStatus.failed t' (some error) none)
    save service failed_run PersistenceCheckpoint.run_failed

  unfoldable pub persist_failed_step_and_run :
      MergeReadinessRun
      → RuntimeStep
      → ℕ
      → RuntimeErrorInfo
      → FailureCategory
      → Exec MergeReadinessRun
  persist_failed_step_and_run run step started_at_ns error category = do
    emit (Event.step_error step.name category)
    failed_run ← fail_step_and_run run step started_at_ns error
    record_terminal_step failed_run StepOutcome.failed (some category)
    pure failed_run

  -- what `except FixtureNotFoundError` does, up to its `raise`
  unfoldable pub fail_missing : {A : Type 0} → MergeReadinessRun → RuntimeStep → ℕ → String → Exec A
  fail_missing run step started_at_ns message = do
    failed_run ←
        persist_failed_step_and_run run step started_at_ns
          (record { code = RuntimeErrorCode.fixture_not_found; message = message })
          FailureCategory.fixture_not_found
    record_terminal_run failed_run (some FailureCategory.fixture_not_found)
    raise Raised.fixture_not_found

  -- what `except Exception` does around a connector call
  unfoldable pub fail_connector :
      {A : Type 0}
      → MergeReadinessRun
      → RuntimeStep
      → ℕ
      → String
      → Exec (MergeReadinessRun × Option A × Bool)
  fail_connector run step started_at_ns message = do
    failed_run ←
        persist_failed_step_and_run run step started_at_ns
          (record { code = RuntimeErrorCode.connector_execution_failed; message = message })
          FailureCategory.connector_failure
    terminal_run ← record_terminal_run failed_run (some FailureCategory.connector_failure)
    pure (terminal_run, none, true)

  unfoldable pub end_github :
      Fetch GitHubPullRequest
      → MergeReadinessRun
      → RuntimeStep
      → ℕ
      → Exec (MergeReadinessRun × Option GitHubPullRequest × Bool)
  end_github Fetch.fixture_not_found run step ns =
      fail_missing run step ns "GitHub facts were not found for this request."
  end_github Fetch.crash run step ns =
      fail_connector run step ns "The GitHub connector step failed unexpectedly."
  end_github Fetch.unavailable run step ns = do
    run' ← complete_step run step ns (λ v. record v { github = none })
    record_terminal_step run' StepOutcome.unavailable none
    pure (run', none, false)
  end_github (Fetch.facts github) run step ns = do
    run' ← complete_step run step ns (λ v. record v { github = some github })
    record_terminal_step run' StepOutcome.completed none
    pure (run', some github, false)

  unfoldable pub fetch_github_facts :
      MergeReadinessRun
      → ConnectorRequest
      → Exec (MergeReadinessRun × Option GitHubPullRequest × Bool)
  fetch_github_facts run request = do
    (run', step, ns) ← start_step run WorkflowStepName.fetch_github_facts
    end_github (service.get_pull_request request) run' step ns

  -- without a linked key the Jira connector is not called
  unfoldable pub jira_answer : Option GitHubPullRequest → Fetch JiraIssue
  jira_answer none = Fetch.unavailable
  jira_answer (some github) = elim github.linked_jira_key [
    | none ↦ Fetch.unavailable
    | some key ↦ service.get_issue key
  ]

  unfoldable pub end_jira :
      Fetch JiraIssue
      → MergeReadinessRun
      → RuntimeStep
      → ℕ
      → Exec (MergeReadinessRun × Option JiraIssue × Bool)
  end_jira Fetch.fixture_not_found run step ns =
      fail_missing run step ns "Jira facts were not found for this request."
  end_jira Fetch.crash run step ns =
      fail_connector run step ns "The Jira connector step failed unexpectedly."
  end_jira Fetch.unavailable run step ns = do
    run' ← complete_step run step ns (λ v. record v { jira = none })
    record_terminal_step run' StepOutcome.unavailable none
    pure (run', none, false)
  end_jira (Fetch.facts jira) run step ns = do
    run' ← complete_step run step ns (λ v. record v { jira = some jira })
    record_terminal_step run' StepOutcome.completed none
    pure (run', some jira, false)

  unfoldable pub fetch_jira_facts :
      MergeReadinessRun
      → Option GitHubPullRequest
      → Exec (MergeReadinessRun × Option JiraIssue × Bool)
  fetch_jira_facts run github_facts = do
    (run', step, ns) ← start_step run WorkflowStepName.fetch_jira_facts
    end_jira (jira_answer github_facts) run' step ns

  unfoldable pub end_policy :
      Option MergeReadinessResult → MergeReadinessRun → RuntimeStep → ℕ → Exec MergeReadinessRun
  end_policy none run step ns = do
    failed_run ←
        persist_failed_step_and_run run step ns
          (record {
            code = RuntimeErrorCode.policy_execution_failed;
            message = "The merge-readiness policy step failed unexpectedly.";
          })
          FailureCategory.policy_failure
    record_terminal_run failed_run (some FailureCategory.policy_failure)
  end_policy (some policy_result) run step ns = do
    completed_step ← build_completed_step step ns
    run_with_policy ← lift (replace_run run (with_last_step run completed_step))
    t ← now service
    completed_run ←
        lift (transition_run run_with_policy RunStatus.completed t none (some policy_result))
    saved_run ← save service completed_run PersistenceCheckpoint.run_completed
    record_terminal_step saved_run StepOutcome.completed none
    record_terminal_run saved_run none

  unfoldable pub evaluate_policy :
      MergeReadinessRun → Option GitHubPullRequest → Option JiraIssue → Exec MergeReadinessRun
  evaluate_policy run github_facts jira_facts = do
    (run', step, ns) ← start_step run WorkflowStepName.evaluate_merge_readiness
    end_policy (service.policy_evaluator github_facts jira_facts) run' step ns

  unfoldable pub save_unless : Bool → MergeReadinessRun → Exec MergeReadinessRun
  save_unless true run = pure run
  save_unless false run = save service run PersistenceCheckpoint.run_created

  unfoldable pub after_jira :
      Option GitHubPullRequest
      → MergeReadinessRun × Option JiraIssue × Bool
      → Exec MergeReadinessRun
  after_jira github_facts (run, jira_facts, true) = pure run
  after_jira github_facts (run, jira_facts, false) = evaluate_policy run github_facts jira_facts

  unfoldable pub after_github :
      MergeReadinessRun × Option GitHubPullRequest × Bool → Exec MergeReadinessRun
  after_github (run, github_facts, true) = pure run
  after_github (run, github_facts, false) = do
    answer ← fetch_jira_facts run github_facts
    after_jira github_facts answer

  unfoldable pub execute_workflow : MergeReadinessRun → Bool → Exec MergeReadinessRun
  execute_workflow run initial_snapshot_is_saved = do
    run₁ ← save_unless initial_snapshot_is_saved run
    t ← now service
    running ← lift (transition_run run₁ RunStatus.running t none none)
    run₂ ← save service running PersistenceCheckpoint.run_started
    answer ← fetch_github_facts run₂ run₂.request
    after_github answer

  -- the `except` clauses mark the workflow and raise again
  abbrev pub mark_raised : Outcome MergeReadinessRun → Exec MergeReadinessRun
  mark_raised (returned run) = pure run
  mark_raised (raised e) = do emit (Event.workflow_error (persistence_failure_category e)); raise e

  unfoldable pub execute_created_run : MergeReadinessRun → Bool → Exec MergeReadinessRun
  execute_created_run run initial_snapshot_is_saved w =
      let (r, w') = execute_workflow run initial_snapshot_is_saved w in mark_raised r w'

  unfoldable pub execute : ConnectorRequest → Exec MergeReadinessRun
  execute request = do
    id ← new_id service
    execute_created_run (create_pending_run request id (some service.sources)) false

  unfoldable pub create_persisted_run : ConnectorRequest → Exec MergeReadinessRun
  create_persisted_run request = do
    id ← new_id service
    save service (create_pending_run request id (some service.sources))
        PersistenceCheckpoint.run_created

  unfoldable pub continue_persisted_run : MergeReadinessRun → Exec MergeReadinessRun
  continue_persisted_run run = execute_created_run run true
