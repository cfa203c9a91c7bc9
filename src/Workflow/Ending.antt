-- ===== src/Workflow/Ending.antt =====
-- How a run of the workflow ends when every save succeeds.
use promptql.Prelude.{ℕ, refl, sym, Option, none, some, List, [], ◌∷◌}
use promptql.Connectors.{ConnectorRequest, GitHubPullRequest, JiraIssue}
use promptql.Policy.Models.{MergeReadinessResult}
use promptql.Runtime.Models.{
  RunStatus, StepStatus, WorkflowStepName, RunSources, RuntimeStep, MergeReadinessRun,
}
use promptql.Runtime.State.{
  replace_run, replace_step, create_pending_run, create_pending_step, transition_run,
  transition_step,
}
use promptql.Workflow.World.{Fetch, Service, World, Raised, Outcome, returned, raised, ◌>>=◌}
use promptql.Workflow.Recording.{
  record_terminal_step, record_terminal_run, persistence_failure_category,
}
use promptql.Workflow.Service.{
  start_step, duration_ms, build_completed_step, complete_step, fail_step_and_run,
  persist_failed_step_and_run, fail_missing, fail_connector, end_github, fetch_github_facts,
  jira_answer, end_jira, fetch_jira_facts, end_policy, evaluate_policy, save_unless, after_jira,
  after_github, execute_workflow, execute_created_run, mark_raised, execute,
}
use promptql.Workflow.Endings.{
  reliable, Ending, verdict_ending, jira_ending, github_ending, asked, EndsAs, Ends,
}

-- what a run of the workflow computes with
opened : Unit {0}
unfolding persistence_failure_category record_terminal_step record_terminal_run start_step
    duration_ms build_completed_step complete_step fail_step_and_run persist_failed_step_and_run
    fail_missing fail_connector end_github fetch_github_facts jira_answer end_jira fetch_jira_facts
    end_policy evaluate_policy save_unless after_jira after_github execute_workflow
    execute_created_run execute ◌>>=◌ transition_run transition_step replace_run replace_step
    create_pending_run create_pending_step
opened = tt

-- a run between its steps, and a step before and after its end
abbrev running_run :
    ℕ
    → RunSources
    → ℕ
    → List RuntimeStep
    → ConnectorRequest
    → Option GitHubPullRequest
    → Option JiraIssue
    → MergeReadinessRun
running_run id sources t steps request github jira = record {
  run_id = id;
  user_id = none;
  workflow_name = "merge_readiness";
  workflow_version = "1";
  sources = some sources;
  status = RunStatus.running;
  started_at = some t;
  completed_at = none;
  steps = steps;
  error = none;
  result = none;
  request = request;
  github = github;
  jira = jira;
}

abbrev running_step : ℕ → WorkflowStepName → ℕ → RuntimeStep
running_step id name t = record {
  step_id = id;
  name = name;
  status = StepStatus.running;
  started_at = some t;
  completed_at = none;
  duration_ms = none;
  attempt = 1;
  error = none;
}

abbrev done_step : ℕ → WorkflowStepName → ℕ → ℕ → ℕ → RuntimeStep
done_step id name t t' duration = record {
  step_id = id;
  name = name;
  status = StepStatus.completed;
  started_at = some t;
  completed_at = some t';
  duration_ms = some duration;
  attempt = 1;
  error = none;
}

module _ (service : Service) (id : ℕ) (sources : RunSources) (t₀ : ℕ)
    (request : ConnectorRequest) where
  end_policy-Ends :
      (a b : ℕ × ℕ × ℕ × ℕ) (c t ns : ℕ) (github : Option GitHubPullRequest)
      (jira : Option JiraIssue) (verdict : Option MergeReadinessResult) (w : World)
      → let step = running_step c WorkflowStepName.evaluate_merge_readiness t in
        let done = λ (n : WorkflowStepName) (x : ℕ × ℕ × ℕ × ℕ). done_step x.0 n x.1 x.2 x.3 in
        Ends (verdict_ending verdict) (
          end_policy
            (reliable service)
            verdict
            (running_run id sources t₀
              (done WorkflowStepName.fetch_github_facts a
                ∷ done WorkflowStepName.fetch_jira_facts b
                ∷ step
                ∷ [])
              request
              github
              jira)
            step
            ns
            w)
  unfolding opened
  end_policy-Ends a b c t ns github jira none w = (refl, refl, (_, refl), (_, refl))
  end_policy-Ends a b c t ns github jira (some result) w = (refl, refl, refl, refl, (_, refl))

  end_jira-Ends :
      (a : ℕ × ℕ × ℕ × ℕ) (c t ns : ℕ) (github : Option GitHubPullRequest)
      (answer : Fetch JiraIssue) (w : World)
      → let step = running_step c WorkflowStepName.fetch_jira_facts t in
        let done = λ (n : WorkflowStepName) (x : ℕ × ℕ × ℕ × ℕ). done_step x.0 n x.1 x.2 x.3 in
        Ends (jira_ending service github answer) (
          (end_jira
                (reliable service)
                answer
                (running_run id sources t₀
                  (done WorkflowStepName.fetch_github_facts a ∷ step ∷ [])
                  request
                  github
                  none)
                step
                ns
              >>= after_jira (reliable service) github)
            w)
  unfolding opened
  end_jira-Ends a c t ns github Fetch.crash w = (refl, refl, (_, refl), (_, refl))
  end_jira-Ends a c t ns github Fetch.fixture_not_found w = (_, refl, refl, (_, refl))
  end_jira-Ends a c t ns github Fetch.unavailable w =
      end_policy-Ends a _ _ _ _ github none (service.policy_evaluator github none) _
  end_jira-Ends a c t ns github (Fetch.facts jira) w =
      end_policy-Ends a _ _ _ _ github (some jira) (service.policy_evaluator github (some jira)) _

  end_github-Ends :
      (c t ns : ℕ) (answer : Fetch GitHubPullRequest) (w : World)
      → let step = running_step c WorkflowStepName.fetch_github_facts t in
        Ends (github_ending service answer) (
          (end_github
                (reliable service)
                answer
                (running_run id sources t₀ (step ∷ []) request none none)
                step
                ns
              >>= after_github (reliable service))
            w)
  unfolding opened
  end_github-Ends c t ns Fetch.crash w = (refl, refl, (_, refl), (_, refl))
  end_github-Ends c t ns Fetch.fixture_not_found w = (_, refl, refl, (_, refl))
  end_github-Ends c t ns Fetch.unavailable w =
      end_jira-Ends _ _ _ _ none (jira_answer service none) _
  end_github-Ends c t ns (Fetch.facts github) w =
      rw (sym (asked service github))
        (end_jira-Ends _ _ _ _ (some github) (jira_answer service (some github)) _)

mark_raised-Ends :
    (service : Service) (ending : Ending) (r : Outcome MergeReadinessRun) (w : World)
    → EndsAs ending r w
    → Ends ending (mark_raised service r w)
unfolding opened
mark_raised-Ends service (Ending.completed_with _) (returned run) w h = h
mark_raised-Ends service (Ending.completed_with _) (raised e) w h = absurd h
mark_raised-Ends service (Ending.failed_with _) (returned run) w h = h
mark_raised-Ends service (Ending.failed_with _) (raised e) w h = absurd h
mark_raised-Ends service Ending.missing_fixture (returned run) w h = absurd h
mark_raised-Ends service Ending.missing_fixture (raised Raised.fixture_not_found) w h = h
mark_raised-Ends service Ending.missing_fixture (raised (Raised.state e)) w h = absurd h
mark_raised-Ends service Ending.missing_fixture (raised (Raised.repository e)) w h = absurd h
mark_raised-Ends service Ending.missing_fixture (raised Raised.index_error) w h = absurd h

-- Whatever the connectors, the clocks and the policy answer, an execution whose saves succeed ends
-- as they call for: it returns the run that it saved last, completed in three completed steps with
-- the policy's result, or failed with the code of what crashed, or, where a fixture was not found,
-- it saves a failed run and raises.
pub execute-Ends :
    (service : Service) (request : ConnectorRequest) (w : World)
    → Ends
        (github_ending service (service.get_pull_request request))
        (execute (reliable service) request w)
unfolding opened
execute-Ends service request w =
    mark_raised-Ends (reliable service) _ _ _
      (end_github-Ends service _ _ _ _ _ _ _ (service.get_pull_request request) _)
