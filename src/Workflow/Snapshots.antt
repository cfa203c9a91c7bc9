-- ===== src/Workflow/Snapshots.antt =====
-- Every snapshot that the workflow saves is a valid state of its run, and no later one goes back,
-- whichever connector crashes and whichever save raises.
use promptql.Prelude.{ℕ, refl, Bool, true, false, Option, none, some}
use promptql.Connectors.{ConnectorRequest, GitHubPullRequest, JiraIssue}
use promptql.Policy.Models.{MergeReadinessResult}
use promptql.Runtime.Models.{RunStatus, RunSources, RuntimeStep, MergeReadinessRun, run_valid}
use promptql.Runtime.State.{create_pending_run}
use promptql.Workflow.World.{
  Fetch, Service, World, fresh, Outcome, returned, raised, ◌>>=◌, pure, raise, emit, new_id,
}
use promptql.Workflow.Service.{
  end_github, fetch_github_facts, jira_answer, end_jira, fetch_jira_facts, end_policy,
  evaluate_policy, save_unless, after_jira, after_github, execute_workflow, execute_created_run,
  mark_raised, execute, continue_persisted_run,
}
use promptql.Workflow.Hoare.{
  IsOf, Inv, At, After, Triple, Triple-bind, Triple-pure, Still-now, Triple-save, Triple-replace,
  Triple-transition,
}
use promptql.Workflow.Steps.{
  Ready, keeps_steps, Still-record_terminal_step, Triple-record_terminal_run,
  Still-build_completed_step, Triple-start_step, Triple-complete_step, Triple-persist_failed,
  Triple-fail_missing, Triple-fail_connector,
}

module _ (id : ℕ) (request : ConnectorRequest) where
  module _ (service : Service) (run : MergeReadinessRun) where
    Triple-end_github :
        (answer : Fetch GitHubPullRequest) (step : RuntimeStep) (ns : ℕ)
        → Triple id request
            (Ready id request run)
            (end_github service answer run step ns)
            (λ a. Ready id request a.0)
    unfolding end_github
    Triple-end_github Fetch.fixture_not_found step ns =
        Triple-fail_missing id request service run step ns _
    Triple-end_github Fetch.crash step ns = Triple-fail_connector id request service run step ns _
    Triple-end_github Fetch.unavailable step ns =
        Triple-bind id request _ _ _ _
          (Triple-complete_step id request service run step ns _
            (record { status = λ v. refl; identity = λ v. refl; asked = λ v. refl }))
          λ run'.
            Triple-bind id request _ _ _ _ (Still-record_terminal_step id request run' run' _ _)
              λ _. Triple-pure id request _ (λ w h. h)
    Triple-end_github (Fetch.facts github) step ns =
        Triple-bind id request _ _ _ _
          (Triple-complete_step id request service run step ns _
            (record { status = λ v. refl; identity = λ v. refl; asked = λ v. refl }))
          λ run'.
            Triple-bind id request _ _ _ _ (Still-record_terminal_step id request run' run' _ _)
              λ _. Triple-pure id request _ (λ w h. h)

    Triple-end_jira :
        (answer : Fetch JiraIssue) (step : RuntimeStep) (ns : ℕ)
        → Triple id request
            (Ready id request run)
            (end_jira service answer run step ns)
            (λ a. Ready id request a.0)
    unfolding end_jira
    Triple-end_jira Fetch.fixture_not_found step ns =
        Triple-fail_missing id request service run step ns _
    Triple-end_jira Fetch.crash step ns = Triple-fail_connector id request service run step ns _
    Triple-end_jira Fetch.unavailable step ns =
        Triple-bind id request _ _ _ _
          (Triple-complete_step id request service run step ns _
            (record { status = λ v. refl; identity = λ v. refl; asked = λ v. refl }))
          λ run'.
            Triple-bind id request _ _ _ _ (Still-record_terminal_step id request run' run' _ _)
              λ _. Triple-pure id request _ (λ w h. h)
    Triple-end_jira (Fetch.facts jira) step ns =
        Triple-bind id request _ _ _ _
          (Triple-complete_step id request service run step ns _
            (record { status = λ v. refl; identity = λ v. refl; asked = λ v. refl }))
          λ run'.
            Triple-bind id request _ _ _ _ (Still-record_terminal_step id request run' run' _ _)
              λ _. Triple-pure id request _ (λ w h. h)

    Triple-end_policy :
        (verdict : Option MergeReadinessResult) (step : RuntimeStep) (ns : ℕ)
        → Triple id request
            (Ready id request run)
            (end_policy service verdict run step ns)
            (Ready id request)
    unfolding end_policy
    Triple-end_policy none step ns =
        Triple-bind id request _ _ _ _ (Triple-persist_failed id request service run step ns _ _)
          λ failed_run. Triple-record_terminal_run id request failed_run _
    Triple-end_policy (some result) step ns =
        Triple-bind id request _ _ _ _ (Still-build_completed_step id request service run step ns)
          λ done.
            Triple-bind id request _ _ _ _
              (Triple-replace id request run _ (keeps_steps id request run done))
              λ with_policy.
                Triple-bind id request _ _ _ _ (Still-now id request with_policy service) λ t.
                  Triple-bind id request _ _ _ _
                    (Triple-transition id request with_policy RunStatus.completed t none _)
                    λ completed_run.
                      Triple-bind id request _ _ _ _
                        (Triple-save id request completed_run service _)
                        λ saved_run.
                          Triple-bind id request _ _ _ _
                            (Still-record_terminal_step id request saved_run saved_run _ _)
                            λ _. Triple-record_terminal_run id request saved_run none

  module _ (service : Service) where
    Triple-evaluate_policy :
        (run : MergeReadinessRun) (github : Option GitHubPullRequest) (jira : Option JiraIssue)
        → Triple id request
            (Ready id request run)
            (evaluate_policy service run github jira)
            (Ready id request)
    unfolding evaluate_policy
    Triple-evaluate_policy run github jira =
        Triple-bind id request _ _ _ _ (Triple-start_step id request service run _)
          λ a. Triple-end_policy service a.0 (service.policy_evaluator github jira) a.1 a.2

    Triple-after_jira :
        (github : Option GitHubPullRequest) (a : MergeReadinessRun × Option JiraIssue × Bool)
        → Triple id request (Ready id request a.0) (after_jira service github a) (Ready id request)
    unfolding after_jira
    Triple-after_jira github (run, jira, true) = Triple-pure id request run (λ w h. h)
    Triple-after_jira github (run, jira, false) = Triple-evaluate_policy run github jira

    Triple-fetch_jira_facts :
        (run : MergeReadinessRun) (github : Option GitHubPullRequest)
        → Triple id request
            (Ready id request run)
            (fetch_jira_facts service run github)
            (λ a. Ready id request a.0)
    unfolding fetch_jira_facts
    Triple-fetch_jira_facts run github =
        Triple-bind id request _ _ _ _ (Triple-start_step id request service run _)
          λ a. Triple-end_jira service a.0 (jira_answer service github) a.1 a.2

    Triple-after_github :
        (a : MergeReadinessRun × Option GitHubPullRequest × Bool)
        → Triple id request (Ready id request a.0) (after_github service a) (Ready id request)
    unfolding after_github
    Triple-after_github (run, github, true) = Triple-pure id request run (λ w h. h)
    Triple-after_github (run, github, false) =
        Triple-bind id request _ _ _ _ (Triple-fetch_jira_facts run github)
          λ a. Triple-after_jira github a

    Triple-fetch_github_facts :
        (run : MergeReadinessRun) (asked : ConnectorRequest)
        → Triple id request
            (Ready id request run)
            (fetch_github_facts service run asked)
            (λ a. Ready id request a.0)
    unfolding fetch_github_facts
    Triple-fetch_github_facts run asked =
        Triple-bind id request _ _ _ _ (Triple-start_step id request service run _)
          λ a. Triple-end_github service a.0 (service.get_pull_request asked) a.1 a.2

    Triple-save_unless :
        (saved : Bool) (run : MergeReadinessRun)
        → Triple id request
            (Ready id request run)
            (save_unless service saved run)
            (Ready id request)
    unfolding save_unless
    Triple-save_unless true run = Triple-pure id request run (λ w h. h)
    Triple-save_unless false run = Triple-save id request run service _

    -- From a valid run that no snapshot is ahead of, the workflow saves valid snapshots of that run
    -- only, and no snapshot goes back, whichever call raises.
    pub Triple-execute_workflow :
        (run : MergeReadinessRun) (saved : Bool)
        → Triple id request
            (Ready id request run)
            (execute_workflow service run saved)
            (Ready id request)
    unfolding execute_workflow
    Triple-execute_workflow run saved =
        Triple-bind id request _ _ _ _ (Triple-save_unless saved run) λ run₁.
          Triple-bind id request _ _ _ _ (Still-now id request run₁ service) λ t.
            Triple-bind id request _ _ _ _
              (Triple-transition id request run₁ RunStatus.running t none none)
              λ running.
                Triple-bind id request _ _ _ _ (Triple-save id request running service _) λ run₂.
                  Triple-bind id request _ _ _ _ (Triple-fetch_github_facts run₂ run₂.request)
                    λ a. Triple-after_github a

mark_raised-Inv :
    (id : ℕ) (request : ConnectorRequest) (service : Service) (r : Outcome MergeReadinessRun)
    (w : World)
    → After id request (Ready id request) r w
    → Inv id request (mark_raised service r w).1
unfolding pure emit raise ◌>>=◌
mark_raised-Inv id request service (returned run) w h = h.inv
mark_raised-Inv id request service (raised e) w h = record {
  all_valid = h.all_valid;
  never_back = h.never_back;
}

-- Continuing a persisted run keeps the snapshots in order, whichever connector crashes and whichever
-- save raises: if they are valid snapshots of that run that never go back, and none is ahead of it,
-- they are so afterwards.
pub continue_persisted_run-Inv :
    (service : Service) (run : MergeReadinessRun) (w : World)
    → At run.run_id run.request run w
    → Inv run.run_id run.request (continue_persisted_run service run w).1
unfolding continue_persisted_run execute_created_run
continue_persisted_run-Inv service run w h =
    mark_raised-Inv run.run_id run.request service _ _
      ((Triple-execute_workflow run.run_id run.request service run true).at w h)

create_pending_run-IsOf :
    (request : ConnectorRequest) (id : ℕ) (sources : Option RunSources)
    → IsOf id request (create_pending_run request id sources)
unfolding create_pending_run run_valid
create_pending_run-IsOf request id sources = record {
  valid = refl;
  identity = refl;
  request_kept = refl;
}

-- An execution from a fresh world, whichever connector crashes and whichever save raises, saves only
-- valid snapshots of the run that it created for the request, and no snapshot has an earlier status
-- than one before it.
pub execute-Inv :
    (service : Service) (request : ConnectorRequest)
    → Inv (service.uuid4 0) request (execute service request fresh).1
unfolding execute new_id ◌>>=◌ execute_created_run
execute-Inv service request = mark_raised-Inv (service.uuid4 0) request service _ _ (
    (Triple-execute_workflow (service.uuid4 0) request service
        (create_pending_run request (service.uuid4 0) (some service.sources)) false).at
      (record fresh { ids = 1 })
      (record {
        inv = record { all_valid = tt; never_back = tt };
        is_of = create_pending_run-IsOf request (service.uuid4 0) (some service.sources);
        behind = tt;
      }))
