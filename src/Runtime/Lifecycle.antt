-- ===== src/Runtime/Lifecycle.antt =====
-- The lifecycle of runs and steps: what `transition_run` and `transition_step` answer on every
-- branch, and how far a run can move.
use promptql.Prelude.{
  ℕ, zero, suc, ◌+◌, ◌≤◌, ◌≡◌, refl, Bool, true, false, ◌&&◌, ◌||◌, not, ltb, nat_eq, Option, none,
  some, is_some, is_none, or_else, arith, if◌then◌else◌,
}
use promptql.Policy.Models.{MergeReadinessResult}
use promptql.Runtime.Models.{
  RunStatus, StepStatus, RuntimeErrorInfo, RuntimeStep, MergeReadinessRun, step_valid, run_valid,
}
use promptql.Runtime.State.{
  StateError, ok, err, dumped, replace_run, transition_run, transition_step,
}

checked_ok :
    (v run' : MergeReadinessRun) (b : Bool)
    → run_valid v ≡ b
    → (if b then ok v else err StateError.validation) ≡ ok run'
    → (run' ≡ v) × (run_valid run' ≡ true)
checked_ok v run' true p h = ground arith
checked_ok v run' false p h = cc

-- what `_replace_run` returns is the updated copy, and valid
pub replace_run_ok :
    (run : MergeReadinessRun) (updates : MergeReadinessRun → MergeReadinessRun)
    (run' : MergeReadinessRun)
    → replace_run run updates ≡ ok run'
    → (run' ≡ updates (dumped run)) × (run_valid run' ≡ true)
unfolding replace_run
replace_run_ok run updates run' h = checked_ok (updates (dumped run)) run' _ refl h

-- what a move to a status asks of the error and the result that come with it
abbrev pub run_arguments_fit :
    RunStatus → Option RuntimeErrorInfo → Option MergeReadinessResult → Bool
run_arguments_fit RunStatus.completed error result = is_none error && is_some result
run_arguments_fit RunStatus.failed error result = is_some error && is_none result
run_arguments_fit RunStatus.cancelled error result = is_none result
run_arguments_fit _ error result = true

-- how far a status lies from the start
abbrev pub progress : RunStatus → ℕ
progress RunStatus.pending = 0
progress RunStatus.running = 1
progress _ = 2

-- only what runs completes or fails; all else may come at any time before the end
abbrev pub needs_running : RunStatus → Bool
needs_running RunStatus.completed = true
needs_running RunStatus.failed = true
needs_running _ = false

abbrev pub may_follow : RunStatus → RunStatus → Bool
may_follow old new =
    ltb (progress old) (progress new) && (not (needs_running new) || nat_eq (progress old) 1)

abbrev pub is_end : RunStatus → Bool
is_end status = nat_eq (progress status) 2

-- a run that has moved: it has begun, has lost its owner, and only an ended one has an end, an
-- error or a result
abbrev pub run_after :
    MergeReadinessRun
    → RunStatus
    → ℕ
    → Option RuntimeErrorInfo
    → Option MergeReadinessResult
    → MergeReadinessRun
run_after run new_status t error result = record {
  run_id = run.run_id;
  user_id = none;
  workflow_name = run.workflow_name;
  workflow_version = run.workflow_version;
  sources = run.sources;
  status = new_status;
  started_at = some (or_else run.started_at t);
  completed_at = if is_end new_status then some t else none;
  steps = run.steps;
  error = if is_end new_status then error else none;
  result = if is_end new_status then result else none;
  request = run.request;
  github = run.github;
  jira = run.jira;
}

-- From a valid run, a move raises `InvalidStateTransitionError` unless the new status is further
-- from the start, and only a running run completes or fails. Otherwise, if its error and result suit
-- the new status, it yields the run with that status, begun at its first move, ended at this one if
-- the status is an end, with the error and the result of an end and with nothing else changed but
-- the owner, which is lost; and if they do not, a validation error.
pub transition_run_cases :
    (run : MergeReadinessRun) (new_status : RunStatus) (t : ℕ) (error : Option RuntimeErrorInfo)
    (result : Option MergeReadinessResult)
    → run_valid run ≡ true
    → transition_run run new_status t error result ≡ (
        if may_follow run.status new_status
        then (if run_arguments_fit new_status error result
            then ok (run_after run new_status t error result)
            else err StateError.validation)
        else err StateError.invalid_transition)
unfolding transition_run run_valid
transition_run_cases run RunStatus.pending t error result v = ground arith
transition_run_cases run _ t error result v = ground arith

abbrev pub step_arguments_fit : StepStatus → Option ℕ → Option RuntimeErrorInfo → Bool
step_arguments_fit StepStatus.running duration error = true
step_arguments_fit StepStatus.failed duration error = is_some duration && is_some error
step_arguments_fit _ duration error = is_some duration && is_none error

abbrev pub step_progress : StepStatus → ℕ
step_progress StepStatus.pending = 0
step_progress StepStatus.running = 1
step_progress _ = 2

abbrev pub step_needs_running : StepStatus → Bool
step_needs_running StepStatus.completed = true
step_needs_running StepStatus.failed = true
step_needs_running _ = false

abbrev pub step_may_follow : StepStatus → StepStatus → Bool
step_may_follow old new =
    ltb (step_progress old) (step_progress new)
    && (not (step_needs_running new) || nat_eq (step_progress old) 1)

abbrev pub is_step_end : StepStatus → Bool
is_step_end status = nat_eq (step_progress status) 2

abbrev pub step_after :
    RuntimeStep → StepStatus → ℕ → Option ℕ → Option RuntimeErrorInfo → RuntimeStep
step_after step new_status t duration error = record {
  step_id = step.step_id;
  name = step.name;
  status = new_status;
  started_at = some (or_else step.started_at t);
  completed_at = if is_step_end new_status then some t else none;
  duration_ms = if is_step_end new_status then duration else none;
  attempt = step.attempt;
  error = if is_step_end new_status then error else none;
}

-- The same for a step: a move raises `InvalidStateTransitionError` unless the new status is further
-- from the start, and only a running step completes or fails. Otherwise it yields the step with that
-- status, begun at its first move, and with the time, the duration and the error of an end, if these
-- suit the status: every end needs a duration, and only a failure has an error. If they do not, it
-- raises a validation error.
pub transition_step_cases :
    (step : RuntimeStep) (new_status : StepStatus) (t : ℕ) (duration : Option ℕ)
    (error : Option RuntimeErrorInfo)
    → step_valid step ≡ true
    → transition_step step new_status t duration error ≡ (
        if step_may_follow step.status new_status
        then (if step_arguments_fit new_status duration error
            then ok (step_after step new_status t duration error)
            else err StateError.validation)
        else err StateError.invalid_transition)
unfolding transition_step step_valid
transition_step_cases step StepStatus.pending t duration error v = ground arith
transition_step_cases step _ t duration error v = ground arith

-- what a transition to `new_status` leaves of `run` in `run'`
pub record IsMoved (run : MergeReadinessRun) (new_status : RunStatus) (t : ℕ)
    (run' : MergeReadinessRun) : Type 0 where
  pub valid : run_valid run' ≡ true
  pub status : run'.status ≡ new_status
  pub identity : run'.run_id ≡ run.run_id
  pub steps : run'.steps ≡ run.steps
  pub began : run'.started_at ≡ some (or_else run.started_at t)
  pub asked : run'.request ≡ run.request
  pub owner : run'.user_id ≡ none

-- A run that a transition returns is valid, has the new status, and keeps its identity, its
-- request, its steps and the time at which it started; its owner is dropped.
pub transition_run-IsMoved :
    (run : MergeReadinessRun) (new_status : RunStatus) (t : ℕ) (error : Option RuntimeErrorInfo)
    (result : Option MergeReadinessResult) (run' : MergeReadinessRun)
    → run_valid run ≡ true
    → transition_run run new_status t error result ≡ ok run'
    → IsMoved run new_status t run'
unfolding transition_run run_valid
transition_run-IsMoved run RunStatus.pending t error result run' v h = ground arith
transition_run-IsMoved run _ t error result run' v h = ground arith

-- `n` transitions lead from `run` to the last run
pub data Moves (run : MergeReadinessRun) : ℕ → MergeReadinessRun → Type 0 where
  stay : Moves run zero run
  move :
      {n : ℕ} {mid run' : MergeReadinessRun} (new_status : RunStatus) (t : ℕ)
      (error : Option RuntimeErrorInfo) (result : Option MergeReadinessResult)
      → Moves run n mid
      → transition_run mid new_status t error result ≡ ok run'
      → Moves run (suc n) run'

pub transition_run-progress :
    (run : MergeReadinessRun) (new_status : RunStatus) (t : ℕ) (error : Option RuntimeErrorInfo)
    (result : Option MergeReadinessResult) (run' : MergeReadinessRun)
    → transition_run run new_status t error result ≡ ok run'
    → progress run.status + 1 ≤ progress run'.status
unfolding transition_run run_valid
transition_run-progress run RunStatus.pending t error result run' h = ground arith
transition_run-progress run _ t error result run' h = ground arith

-- Every transition moves a run on: `n` of them raise its progress by `n` at least, so that no run
-- makes more than two and a terminal run makes none.
pub Moves-progress :
    {run run' : MergeReadinessRun} {n : ℕ}
    → Moves run n run'
    → n + progress run.status ≤ progress run'.status
Moves-progress stay = omega arith
Moves-progress (move {mid = mid} {run' = last} status t error result m h) =
    omega (arith, Moves-progress m, transition_run-progress mid status t error result last h)
