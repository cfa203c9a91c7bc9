-- ===== src/Tests/Runtime.antt =====
-- runtime/: transitions of a run that has an owner, the repositories.
use promptql.Prelude.{ℕ, ◌+◌, ◌≤◌, ◌≡◌, refl, Option, none, some, [], ◌∷◌, ◌⊎◌, if◌then◌else◌}
use promptql.Runtime.Models.{RunStatus, StepStatus, MergeReadinessRun, run_valid, step_valid}
use promptql.Runtime.State.{StateError, ok, err, transition_run, transition_step}
use promptql.Runtime.Lifecycle.{
  run_arguments_fit, step_arguments_fit, may_follow, run_after, step_may_follow, step_after,
  transition_run_cases, transition_step_cases, IsMoved, transition_run-IsMoved, Moves, progress,
  Moves-progress,
}
use promptql.Runtime.Repository.{RunRepository, no_runs}
use promptql.Runtime.Repository
use promptql.Runtime.Recurrence.{FactKey, Observation}
use promptql.Runtime.Recurrence
use promptql.Prelude.Dict
use promptql.Runtime.Recurrence.History.{only, summary, get-observe_all}
use promptql.Tests.Data.{pending_run, running_run, running_step, error_info}

transition_run_cases_example :
    transition_run running_run RunStatus.failed 120 (some error_info) none ≡ (
      if may_follow running_run.status RunStatus.failed
      then (if run_arguments_fit RunStatus.failed (some error_info) none
          then ok (run_after running_run RunStatus.failed 120 (some error_info) none)
          else err StateError.validation)
      else err StateError.invalid_transition)
unfolding run_valid
transition_run_cases_example =
    transition_run_cases running_run RunStatus.failed 120 (some error_info) none refl

transition_step_cases_example :
    transition_step running_step StepStatus.completed 120 (some 19) none ≡ (
      if step_may_follow running_step.status StepStatus.completed
      then (if step_arguments_fit StepStatus.completed (some 19) none
          then ok (step_after running_step StepStatus.completed 120 (some 19) none)
          else err StateError.validation)
      else err StateError.invalid_transition)
unfolding step_valid
transition_step_cases_example =
    transition_step_cases running_step StepStatus.completed 120 (some 19) none refl

abbrev failed_run : MergeReadinessRun
failed_run = record running_run {
  user_id = none;
  status = RunStatus.failed;
  completed_at = some 120;
  error = some error_info;
}

transition_run-IsMoved_example : IsMoved running_run RunStatus.failed 120 failed_run
unfolding transition_run run_valid
transition_run-IsMoved_example =
    transition_run-IsMoved running_run RunStatus.failed 120 (some error_info) none failed_run refl
      refl

abbrev started_run : MergeReadinessRun
started_run = record running_run { user_id = none }

Moves-progress_example : 2 + progress pending_run.status ≤ progress failed_run.status
unfolding transition_run
Moves-progress_example = Moves-progress (
    Moves.move {mid = started_run} RunStatus.failed 120 (some error_info) none
      (Moves.move {mid = pending_run} RunStatus.running 100 none none Moves.stay refl) refl)

get-save_example :
    ((pending_run.run_id ≡ 40)
      × (((Repository.get (Repository.save no_runs pending_run) 40 (some 4) ≡ some pending_run)
            × Repository.IsOpenTo (some 4) pending_run)
          ⊎ ((Repository.get (Repository.save no_runs pending_run) 40 (some 4) ≡ none)
              × Repository.IsClosedTo (some 4) pending_run)))
    ⊎ (¬ (pending_run.run_id ≡ 40)
        × (Repository.get (Repository.save no_runs pending_run) 40 (some 4)
            ≡ Repository.get no_runs 40 (some 4)))
get-save_example = Repository.get-save no_runs pending_run 40 (some 4)

abbrev reader : Option ℕ
reader = some 3

get_owner_example : reader ≡ some 3
unfolding Repository.get Repository.save Dict.lookup Dict.insert
get_owner_example =
    Repository.get_owner (Repository.save no_runs pending_run) 40 3 reader pending_run refl refl

abbrev fact : FactKey
fact = ("acme", "shop", "changed_file")

abbrev seen : ℕ → Observation
seen n = record { fact = fact; run_id = n; at = 100 + n }

abbrev other : Observation
other = record { fact = ("acme", "shop", "deployment"); run_id = 9; at = 9 }

get-observe_all_example :
    Recurrence.get (Recurrence.observe [] (seen 1 ∷ other ∷ seen 2 ∷ seen 3 ∷ seen 4 ∷ [])) fact
    ≡ summary fact (only fact (seen 1 ∷ other ∷ seen 2 ∷ seen 3 ∷ seen 4 ∷ []))
get-observe_all_example = get-observe_all fact (seen 1 ∷ other ∷ seen 2 ∷ seen 3 ∷ seen 4 ∷ [])
