-- ===== src/Runtime/State.antt =====
-- runtime/state.py: the two transition tables, and the functions that replace a run or a step.
use promptql.Prelude.{ℕ, Bool, true, false, Option, none, some, [], or_else, if◌then◌else◌}
use promptql.Connectors.{ConnectorRequest}
use promptql.Policy.Models.{MergeReadinessResult}
use promptql.Runtime.Models.{
  RunStatus, StepStatus, WorkflowStepName, RuntimeErrorInfo, RunSources, RuntimeStep,
  MergeReadinessRun, step_valid, run_valid,
}

-- `InvalidStateTransitionError`, and pydantic's `ValidationError`
pub data StateError : Type 0 where
  invalid_transition validation : StateError

pub data Result {ℓ} (A : Type ℓ) : Type ℓ where
  ok : A → Result A
  err : StateError → Result A

infixl 5 ◌>>=◌
abbrev pub ◌>>=◌ {ℓ κ} : {A : Type ℓ} {B : Type κ} → Result A → (A → Result B) → Result B
ok a >>= f = f a
err e >>= f = err e

unfoldable pub allowed_run_transition : RunStatus → RunStatus → Bool
allowed_run_transition RunStatus.pending RunStatus.running = true
allowed_run_transition RunStatus.pending RunStatus.cancelled = true
allowed_run_transition RunStatus.running RunStatus.completed = true
allowed_run_transition RunStatus.running RunStatus.failed = true
allowed_run_transition RunStatus.running RunStatus.cancelled = true
allowed_run_transition _ _ = false

unfoldable pub allowed_step_transition : StepStatus → StepStatus → Bool
allowed_step_transition StepStatus.pending StepStatus.running = true
allowed_step_transition StepStatus.pending StepStatus.cancelled = true
allowed_step_transition StepStatus.running StepStatus.completed = true
allowed_step_transition StepStatus.running StepStatus.failed = true
allowed_step_transition StepStatus.running StepStatus.cancelled = true
allowed_step_transition _ _ = false

-- `model_validate`
abbrev pub validated_run : MergeReadinessRun → Result MergeReadinessRun
validated_run run = if run_valid run then ok run else err StateError.validation

abbrev pub validated_step : RuntimeStep → Result RuntimeStep
validated_step step = if step_valid step then ok step else err StateError.validation

-- `run.model_dump()`: `user_id` is declared with `exclude=True`, so that the copy has its default
abbrev pub dumped : MergeReadinessRun → MergeReadinessRun
dumped run = record run { user_id = none }

-- `_replace_run(run, **updates)`, with the updates as a function
unfoldable pub replace_run :
    MergeReadinessRun → (MergeReadinessRun → MergeReadinessRun) → Result MergeReadinessRun
unfolding run_valid
replace_run run updates = validated_run (updates (dumped run))

unfoldable pub replace_step : RuntimeStep → (RuntimeStep → RuntimeStep) → Result RuntimeStep
unfolding step_valid
replace_step step updates = validated_step (updates step)

unfoldable pub create_pending_run : ConnectorRequest → ℕ → Option RunSources → MergeReadinessRun
create_pending_run request run_id sources = record {
  run_id = run_id;
  user_id = none;
  workflow_name = "merge_readiness";
  workflow_version = "1";
  sources = sources;
  status = RunStatus.pending;
  started_at = none;
  completed_at = none;
  steps = [];
  error = none;
  result = none;
  request = request;
  github = none;
  jira = none;
}

unfoldable pub create_pending_step : WorkflowStepName → ℕ → RuntimeStep
create_pending_step name step_id = record {
  step_id = step_id;
  name = name;
  status = StepStatus.pending;
  started_at = none;
  completed_at = none;
  duration_ms = none;
  attempt = 1;
  error = none;
}

abbrev pub moved_run :
    MergeReadinessRun
    → RunStatus
    → ℕ
    → Option RuntimeErrorInfo
    → Option MergeReadinessResult
    → MergeReadinessRun
    → MergeReadinessRun
moved_run run RunStatus.running changed_at error result values = record values {
  status = RunStatus.running;
  started_at = some changed_at;
}
moved_run run new_status changed_at error result values = record values {
  status = new_status;
  started_at = some (or_else run.started_at changed_at);
  completed_at = some changed_at;
  error = error;
  result = result;
}

unfoldable pub transition_run :
    MergeReadinessRun
    → RunStatus
    → ℕ
    → Option RuntimeErrorInfo
    → Option MergeReadinessResult
    → Result MergeReadinessRun
unfolding allowed_run_transition replace_run
transition_run run new_status changed_at error result =
    if allowed_run_transition run.status new_status
    then replace_run run (moved_run run new_status changed_at error result)
    else err StateError.invalid_transition

abbrev pub moved_step :
    RuntimeStep → StepStatus → ℕ → Option ℕ → Option RuntimeErrorInfo → RuntimeStep
moved_step step StepStatus.running changed_at duration_ms error = record step {
  status = StepStatus.running;
  started_at = some changed_at;
}
moved_step step new_status changed_at duration_ms error = record step {
  status = new_status;
  started_at = some (or_else step.started_at changed_at);
  completed_at = some changed_at;
  duration_ms = duration_ms;
  error = error;
}

unfoldable pub transition_step :
    RuntimeStep → StepStatus → ℕ → Option ℕ → Option RuntimeErrorInfo → Result RuntimeStep
unfolding allowed_step_transition replace_step
transition_step step new_status changed_at duration_ms error =
    if allowed_step_transition step.status new_status
    then replace_step step (λ s. moved_step s new_status changed_at duration_ms error)
    else err StateError.invalid_transition
