-- ===== src/Workflow/Recording.antt =====
-- workflows/merge_readiness.py: the last step of a run, and what the workflow tells telemetry.
use promptql.Prelude.{ℕ, Option, none, some, List, [], ◌∷◌, ◌++◌}
use promptql.Runtime.Models.{WorkflowStepName, RuntimeStep, MergeReadinessRun}
use promptql.Workflow.World.{
  FailureCategory, StepOutcome, RepositoryError, Event, Raised, Exec, ◌>>◌, pure, raise, emit,
}

-- `steps[:-1]` and `steps[-1]`
abbrev pub init : List RuntimeStep → List RuntimeStep
init [] = []
init (s ∷ []) = []
init (s ∷ t ∷ ts) = s ∷ init (t ∷ ts)

abbrev pub last? : List RuntimeStep → Option RuntimeStep
last? [] = none
last? (s ∷ []) = some s
last? (s ∷ t ∷ ts) = last? (t ∷ ts)

-- `_replace_run(run, steps=(*run.steps[:-1], step), **updates)`
abbrev pub with_last_step : MergeReadinessRun → RuntimeStep → MergeReadinessRun → MergeReadinessRun
with_last_step run step values = record values { steps = init run.steps ++ step ∷ [] }

unfoldable pub persistence_failure_category : Raised → FailureCategory
persistence_failure_category (Raised.repository RepositoryError.state_conflict) =
    FailureCategory.state_conflict
persistence_failure_category (Raised.repository RepositoryError.record_invalid) =
    FailureCategory.record_invalid
persistence_failure_category (Raised.repository RepositoryError.persistence) =
    FailureCategory.persistence_unavailable
persistence_failure_category Raised.fixture_not_found = FailureCategory.fixture_not_found
persistence_failure_category _ = FailureCategory.system_failure

abbrev pub record_duration :
    Option ℕ → WorkflowStepName → StepOutcome → Option FailureCategory → Exec Unit
record_duration none name outcome category = pure tt
record_duration (some duration) name outcome category =
    emit (Event.terminal_step name duration outcome category)

abbrev pub record_step : Option RuntimeStep → StepOutcome → Option FailureCategory → Exec Unit
record_step none outcome category = raise Raised.index_error
record_step (some step) outcome category =
    record_duration step.duration_ms step.name outcome category

unfoldable pub record_terminal_step :
    MergeReadinessRun → StepOutcome → Option FailureCategory → Exec Unit
record_terminal_step run = record_step (last? run.steps)

abbrev pub mark_workflow : Option FailureCategory → Exec Unit
mark_workflow none = pure tt
mark_workflow (some category) = emit (Event.workflow_error category)

unfoldable pub record_terminal_run :
    MergeReadinessRun → Option FailureCategory → Exec MergeReadinessRun
record_terminal_run run category = do
  mark_workflow category
  emit (Event.terminal_workflow run.status)
  pure run
