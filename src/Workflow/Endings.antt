-- ===== src/Workflow/Endings.antt =====
-- How a run of the workflow should end, by what the connectors and the policy answer.
use promptql.Prelude.{◌≡◌, arith, String, Option, none, some, List, [], ◌∷◌, ◌++◌, map}
use promptql.Connectors.{GitHubPullRequest, JiraIssue}
use promptql.Policy.Models.{MergeReadinessResult}
use promptql.Runtime.Models.{RunStatus, StepStatus, RuntimeErrorCode, MergeReadinessRun}
use promptql.Workflow.World.{
  PersistenceCheckpoint, Fetch, Service, World, Raised, Outcome, returned, raised,
}
use promptql.Workflow.Service.{jira_answer}

-- a service whose repository never raises
abbrev pub reliable : Service → Service
reliable service = record service { save_error = λ _. none }

pub data Ending : Type 0 where
  completed_with : MergeReadinessResult → Ending
  failed_with : RuntimeErrorCode → Ending
  missing_fixture : Ending

-- The ending that the answers of the connectors and of the policy call for.
abbrev pub verdict_ending : Option MergeReadinessResult → Ending
verdict_ending none = Ending.failed_with RuntimeErrorCode.policy_execution_failed
verdict_ending (some result) = Ending.completed_with result

module _ (service : Service) where
  abbrev pub jira_ending : Option GitHubPullRequest → Fetch JiraIssue → Ending
  jira_ending github Fetch.crash = Ending.failed_with RuntimeErrorCode.connector_execution_failed
  jira_ending github Fetch.fixture_not_found = Ending.missing_fixture
  jira_ending github Fetch.unavailable = verdict_ending (service.policy_evaluator github none)
  jira_ending github (Fetch.facts jira) =
      verdict_ending (service.policy_evaluator github (some jira))

  -- Jira is asked for a linked issue only
  abbrev pub issue_of : Option String → Fetch JiraIssue
  issue_of none = Fetch.unavailable
  issue_of (some key) = service.get_issue key

  abbrev pub github_ending : Fetch GitHubPullRequest → Ending
  github_ending Fetch.crash = Ending.failed_with RuntimeErrorCode.connector_execution_failed
  github_ending Fetch.fixture_not_found = Ending.missing_fixture
  github_ending Fetch.unavailable = jira_ending none Fetch.unavailable
  github_ending (Fetch.facts github) = jira_ending (some github) (issue_of github.linked_jira_key)

  pub asked :
      (github : GitHubPullRequest)
      → jira_answer service (some github) ≡ issue_of github.linked_jira_key
  unfolding jira_answer
  asked github = ground arith

-- the last thing saved
abbrev pub Saved : World → PersistenceCheckpoint → MergeReadinessRun → Type 0
Saved w checkpoint run =
    (earlier : List (PersistenceCheckpoint × MergeReadinessRun)) × (w.snapshots
      ≡ earlier ++ (checkpoint, run) ∷ [])

-- an execution has ended as it should: it returned the run that was saved last, completed with the
-- result or failed with the code, or it raised after it saved a failed run
abbrev pub EndsAs : Ending → Outcome MergeReadinessRun → World → Type 0
EndsAs (Ending.completed_with result) (returned run) w =
    (run.status ≡ RunStatus.completed)
    × (run.result ≡ some result)
    × (run.error ≡ none)
    × (map (λ s. s.status) run.steps
        ≡ StepStatus.completed ∷ StepStatus.completed ∷ StepStatus.completed ∷ [])
    × Saved w PersistenceCheckpoint.run_completed run
EndsAs (Ending.failed_with code) (returned run) w =
    (run.status ≡ RunStatus.failed)
    × (run.result ≡ none)
    × ((message : String) × (run.error ≡ some (record { code = code; message = message })))
    × Saved w PersistenceCheckpoint.run_failed run
EndsAs Ending.missing_fixture (raised Raised.fixture_not_found) w =
    (run : MergeReadinessRun) × (run.status ≡ RunStatus.failed)
    × (run.result ≡ none)
    × Saved w PersistenceCheckpoint.run_failed run
EndsAs _ _ w = ⊥

abbrev pub Ends : Ending → Outcome MergeReadinessRun × World → Type 0
Ends ending (r, w) = EndsAs ending r w
