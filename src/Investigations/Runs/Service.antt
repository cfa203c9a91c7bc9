-- ===== src/Investigations/Runs/Service.antt =====
-- workflows/investigation.py: the methods of `InvestigationWorkflowService`, without their telemetry.
use promptql.Prelude.{
  ℕ, String, Bool, true, not, ◌&&◌, Option, none, some, List, [], ◌∷◌, ◌++◌, length, is_some,
  if◌then◌else◌,
}
use promptql.Prelude.Dict.{Key}
use promptql.Investigations.Evidence.{EvidenceStore, put_all}
use promptql.Investigations.Execution.State.{Result, ok, err}
use promptql.Investigations.Execution.Locals.{Outside}
use promptql.Investigations.Replanning.Models.{
  AdaptiveInvestigationState, AdaptiveInvestigationRuntime, Investigation,
}
use promptql.Investigations.Replanning.Rounds.{investigate}
use promptql.Investigations.Runs.Models.{
  InvestigationRuntimeSnapshot, InvestigationRequest, InvestigationRun,
}
use promptql.Investigations.Runs.Snapshots.{saved_of}
use promptql.Investigations.Runs.World.{
  Raised, Call, InvestigationService, World, returned, raised, Exec, pure, raise, need, attempt,
  now, save, ◌>>=◌, ◌>>◌,
}
use promptql.Investigations.Runs.Prior.{
  failed_run, cancelled_run, running_run, pending_run, reopened_run, is_completed, is_running,
  Prior, empty_state, prior_of, latest_saved,
}
use promptql.Investigations.Runs.Completion.{complete_adaptive_run}

module _ {Value : Type 0} (service : InvestigationService Value) where
  unfoldable pub create_persisted_run :
      InvestigationRequest → ℕ → Option ℕ → Exec Value (InvestigationRun Value)
  create_persisted_run request run_id user_id = do
    save service (pending_run request run_id user_id)
    pure (pending_run request run_id user_id)

  unfoldable pub reopen_for_follow_up : InvestigationRun Value → Exec Value (InvestigationRun Value)
  reopen_for_follow_up completed =
      if is_completed completed.status
      then (do
        t ← now service
        save service (reopened_run completed t)
        pure (reopened_run completed t))
      else raise Raised.state_conflict

  -- `_fail`
  unfoldable pub fail : InvestigationRun Value → Exec Value (InvestigationRun Value)
  fail running = do
    t ← now service
    save service (failed_run running t)
    pure (failed_run running t)

  -- `_cancel`, which reads what was saved
  unfoldable pub cancel : InvestigationRun Value → Exec Value (InvestigationRun Value)
  cancel running w =
      let base = latest_saved running.run_id running.user_id running w.saved in
      (now service >>= λ t. save service (cancelled_run base t) >> pure (cancelled_run base t)) w

  -- the `except` clauses
  abbrev pub handle : InvestigationRun Value → Raised → Exec Value (InvestigationRun Value)
  handle running Raised.cancelled = cancel running >> raise Raised.cancelled
  handle running _ = fail running

  module _ (running : InvestigationRun Value) (prior : Prior Value) where
    abbrev pub refused : Option (InvestigationRun Value) → Bool
    refused none = true
    refused (some run) = service.refuses run

    -- a callback raises where its snapshot cannot be made or is refused
    unfoldable pub callback_raises : Call Value → Bool
    callback_raises call = refused (saved_of running prior.rounds prior.actions call)

    abbrev pub keep_saved :
        Option (InvestigationRun Value)
        → List (InvestigationRun Value)
        → List (InvestigationRun Value)
    keep_saved none saved = saved
    keep_saved (some run) saved = if service.refuses run then saved else saved ++ run ∷ []

    -- what the repository has after the calls of the callbacks
    unfoldable pub save_calls :
        List (Call Value) → List (InvestigationRun Value) → List (InvestigationRun Value)
    save_calls [] saved = saved
    save_calls (call ∷ calls) saved =
        save_calls calls (keep_saved (saved_of running prior.rounds prior.actions call) saved)

    abbrev pub runtime_of : World Value → AdaptiveInvestigationRuntime Value
    runtime_of w = record service.runtime {
      investigation_goal = prior.goal;
      prior_result_summary = prior.result_summary;
      request_context = some running.request.context;
      fact_recurrence = some w.records;
      raises = callback_raises;
    }

    -- `EvidenceStore(...)` with the evidence of the prior state
    abbrev pub first_outside : Outside Value
    first_outside = record { store = put_all [] prior.content; calls = 0; slept = [] }

    abbrev pub end_investigation :
        Option (List (Call Value))
        → Result (AdaptiveInvestigationState Value × Investigation Value)
        → Exec Value (AdaptiveInvestigationState Value × EvidenceStore Value)
    end_investigation (some calls) result w =
        (raised Raised.cancelled, record w { saved = save_calls calls w.saved })
    end_investigation none (err e) w =
        (raised Raised.crashed, record w { saved = save_calls service.before_raise w.saved })
    end_investigation none (ok (state, s)) w =
        (returned (state, s.outside.store), record w { saved = save_calls s.notices w.saved })

    unfoldable pub run_investigation :
        ⦃key : Key Value⦄ → Exec Value (AdaptiveInvestigationState Value × EvidenceStore Value)
    run_investigation w =
        end_investigation service.cancelled_after
          (investigate (runtime_of w) prior.available prior.evidence prior.missing_information
            (length prior.rounds) first_outside)
          w

    -- the two `try` statements, which have the same `except` clauses
    unfoldable pub investigate_and_complete :
        ⦃key : Key Value⦄ → Exec Value (InvestigationRun Value)
    investigate_and_complete =
        attempt
          (run_investigation >>= λ (state, store).
            complete_adaptive_run service running state store prior)
          (handle running)

  -- `_continue_persisted_run` from the first `save`
  unfoldable pub start_run :
      ⦃key : Key Value⦄
      → InvestigationRun Value
      → Option String
      → Option (InvestigationRuntimeSnapshot Value)
      → Exec Value (InvestigationRun Value)
  start_run running question state = do
    save service running
    prior ← need (prior_of running question state)
    investigate_and_complete running prior

  -- `_continue_persisted_run`
  unfoldable pub continue_run :
      ⦃key : Key Value⦄
      → InvestigationRun Value
      → Option String
      → Exec Value (InvestigationRun Value)
  continue_run pending question = do
    started_at ← now service
    (if is_some question && not (is_running pending.status)
        then raise Raised.state_conflict
        else start_run
            (running_run pending started_at
              (if is_some question then pending.state else some empty_state))
            question pending.state)
