-- ===== src/Workflow/World.antt =====
-- What a run of the workflow reads and changes: the answers of the connectors, the clocks, the
-- repository behind `save`, and the telemetry events. A method is an action over it that may raise;
-- what was saved before a raise stays saved.
use promptql.Prelude.{ℕ, ◌+◌, String, Option, none, some, List, [], ◌∷◌, ◌++◌}
use promptql.Connectors.{ConnectorRequest, GitHubPullRequest, JiraIssue}
use promptql.Policy.Models.{MergeReadinessResult}
use promptql.Runtime.Models.{RunStatus, WorkflowStepName, RunSources, MergeReadinessRun}
use promptql.Runtime.State.{StateError, Result, ok, err}

pub data FailureCategory : Type 0 where
  connector_failure policy_failure fixture_not_found persistence_unavailable : FailureCategory
  state_conflict record_invalid system_failure : FailureCategory
  telemetry_export_failure llm_provider_failure llm_invalid_output : FailureCategory
  llm_validation_failure : FailureCategory

pub data StepOutcome : Type 0 where
  completed failed unavailable : StepOutcome

pub data PersistenceCheckpoint : Type 0 where
  run_created run_started step_started step_completed step_failed run_completed run_failed :
      PersistenceCheckpoint

-- `RunPersistenceError`, `RunStateConflictError`, `RunRecordInvalidError`
pub data RepositoryError : Type 0 where
  persistence state_conflict record_invalid : RepositoryError

-- how a connector call ends: with facts, by `ConnectorUnavailableError`, by `FixtureNotFoundError`
-- or by any other exception
pub data Fetch (A : Type 0) : Type 0 where
  facts : A → Fetch A
  unavailable fixture_not_found crash : Fetch A

-- the constructor's arguments; a clock and `uuid4` answer their `n`-th call, `save_error` is what
-- the `n`-th save raises, and `policy_evaluator` gives `none` where it raises
pub record Service : Type 0 where
  pub get_pull_request : ConnectorRequest → Fetch GitHubPullRequest
  pub get_issue : String → Fetch JiraIssue
  pub policy_evaluator : Option GitHubPullRequest → Option JiraIssue → Option MergeReadinessResult
  pub timestamp_clock : ℕ → ℕ
  pub duration_clock : ℕ → ℕ
  pub uuid4 : ℕ → ℕ
  pub save_error : ℕ → Option RepositoryError
  pub sources : RunSources

pub data Event : Type 0 where
  terminal_step : WorkflowStepName → ℕ → StepOutcome → Option FailureCategory → Event
  terminal_workflow : RunStatus → Event
  step_error : WorkflowStepName → FailureCategory → Event
  workflow_error : FailureCategory → Event

pub record World : Type 0 where
  pub snapshots : List (PersistenceCheckpoint × MergeReadinessRun)
  pub events : List Event
  pub saves : ℕ
  pub timestamps : ℕ
  pub durations : ℕ
  pub ids : ℕ

abbrev pub fresh : World
fresh = record { snapshots = []; events = []; saves = 0; timestamps = 0; durations = 0; ids = 0 }

pub data Raised : Type 0 where
  state : StateError → Raised
  repository : RepositoryError → Raised
  fixture_not_found index_error : Raised

pub data Outcome (A : Type 0) : Type 0 where
  returned : A → Outcome A
  raised : Raised → Outcome A

abbrev pub Exec : Type 0 → Type 0
Exec A = World → Outcome A × World

module _ {A : Type 0} where
  unfoldable pub pure : A → Exec A
  pure a w = (returned a, w)

  unfoldable pub raise : Raised → Exec A
  raise e w = (raised e, w)

  unfoldable pub lift : Result A → Exec A
  lift (ok a) w = (returned a, w)
  lift (err e) w = (raised (Raised.state e), w)

-- a telemetry call
unfoldable pub emit : Event → Exec Unit
emit e w = (returned tt, record w { events = w.events ++ e ∷ [] })

abbrev pub save_result :
    Option RepositoryError → MergeReadinessRun → PersistenceCheckpoint → Exec MergeReadinessRun
save_result none run checkpoint w = (
  returned run,
  record w { snapshots = w.snapshots ++ (checkpoint, run) ∷ []; saves = w.saves + 1 },
)
save_result (some e) run checkpoint w =
    (raised (Raised.repository e), record w { saves = w.saves + 1 })

module _ (service : Service) where
  unfoldable pub now : Exec ℕ
  now w =
      (returned (service.timestamp_clock w.timestamps), record w { timestamps = w.timestamps + 1 })

  unfoldable pub tick : Exec ℕ
  tick w = (returned (service.duration_clock w.durations), record w { durations = w.durations + 1 })

  unfoldable pub new_id : Exec ℕ
  new_id w = (returned (service.uuid4 w.ids), record w { ids = w.ids + 1 })

  -- `_save`: the repository keeps the snapshot, or raises and keeps nothing
  unfoldable pub save : MergeReadinessRun → PersistenceCheckpoint → Exec MergeReadinessRun
  save run checkpoint w = save_result (service.save_error w.saves) run checkpoint w

abbrev pub continue : {A B : Type 0} → Outcome A → (A → Exec B) → Exec B
continue (returned a) f w = f a w
continue (raised e) f w = (raised e, w)

-- opening this opens the actions above
infixl 5 ◌>>=◌ ◌>>◌
unfoldable pub ◌>>=◌ : {A B : Type 0} → Exec A → (A → Exec B) → Exec B
unfolding pure raise lift emit now tick new_id save
◌>>=◌ m f w = let (r, w') = m w in continue r f w'

abbrev pub ◌>>◌ : {A B : Type 0} → Exec A → Exec B → Exec B
m >> n = m >>= λ _. n
