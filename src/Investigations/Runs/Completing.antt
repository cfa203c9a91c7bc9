-- ===== src/Investigations/Runs/Completing.antt =====
-- workflows/investigation.py: a run completes where nothing outside the workflow stands in its way.
use promptql.Prelude.{ℕ, ◌≡◌, refl, Option, none, some, List, [], arith}
use promptql.Prelude.Dict.{Key}
use promptql.Runtime.Models.{RunStatus}
use promptql.Investigations.Evidence.{put_all}
use promptql.Investigations.Execution.State.{ok}
use promptql.Investigations.Replanning.Models.{AdaptiveInvestigationState, Investigation}
use promptql.Investigations.Replanning.Promise.{investigate-IsReturned}
use promptql.Investigations.Replanning.Runnable.{IsAble, IsQuiet}
use promptql.Investigations.Replanning.Total.{investigate-Returns}
use promptql.Investigations.Runs.Models.{InvestigationRun}
use promptql.Investigations.Runs.Snapshots.{default_tool_call_budget}
use promptql.Investigations.Runs.World.{
  Call, InvestigationService, World, returned, continue, recover, ◌>>=◌,
}
use promptql.Investigations.Runs.Prior.{Prior, running_run, empty_state, first_prior}
use promptql.Investigations.Runs.Completion.{complete_adaptive_run}
use promptql.Investigations.Runs.Service.{
  handle, end_investigation, save_calls, callback_raises, runtime_of, first_outside,
  run_investigation, investigate_and_complete, start_run, continue_run,
}
use promptql.Investigations.Runs.Readable.{saved-Found}
use promptql.Investigations.Runs.Answered.{IsWorking, Gets, reason-Found, complete-Gets}

module _ {Value : Type 0} where
  module _ ⦃key : Key Value⦄ (service : InvestigationService Value) (working : IsWorking service)
      (pending : InvestigationRun Value) where
    abbrev first : ℕ → InvestigationRun Value
    first t = running_run pending t (some empty_state)

    abbrev prior : Prior Value
    prior = first_prior pending.request

    runtime-IsAble : (t : ℕ) (w : World Value) → IsAble (runtime_of service (first t) prior w) []
    runtime-IsAble t w = record {
      tools = working.able.tools;
      takes = working.able.takes;
      cites = working.able.cites;
      some_tool = working.able.some_tool;
    }

    runtime-IsQuiet :
        (t : ℕ) (w : World Value)
        → IsQuiet (runtime_of service (first t) prior w) default_tool_call_budget
    unfolding callback_raises
    runtime-IsQuiet t w notice store readable =
        let (run, e) = saved-Found (first t) prior.rounds prior.actions notice store readable in
        rw e (working.accepts run)

    ran :
        (interrupted : Option (List (Call Value))) (t : ℕ)
        (state : AdaptiveInvestigationState Value) (s : Investigation Value) (w : World Value)
        (run : InvestigationRun Value) (w' : World Value)
        → interrupted ≡ none
        → complete_adaptive_run service
            (first t)
            state
            s.outside.store
            prior
            (record w { saved = save_calls service (first t) prior s.notices w.saved })
          ≡ (returned run, w')
        → let r = end_investigation service (first t) prior interrupted (ok (state, s)) w in
          let c =
            continue r.0
              (λ (state, store). complete_adaptive_run service (first t) state store prior)
              r.1 in
          recover c.0 (handle service (first t)) c.1 ≡ (returned run, w')
    ran none t state s w run w' h c = rw c refl
    ran (some calls) t state s w run w' h c = ground arith

    run-Gets :
        (t : ℕ)
        → Gets
            (λ run. run.status ≡ RunStatus.completed)
            (investigate_and_complete service (first t) prior)
    unfolding investigate_and_complete run_investigation ◌>>=◌ put_all
    run-Gets t = record {
      at = λ w.
          let runtime = runtime_of service (first t) prior w in
          let ((state, s), e, readable) =
            investigate-Returns runtime [] (runtime-IsAble t w) default_tool_call_budget
              (runtime-IsQuiet t w) [] [] 0 (first_outside service (first t) prior) refl tt in
          let is =
            investigate-IsReturned runtime default_tool_call_budget [] [] 0
              (first_outside service (first t) prior) state s e in
          let reason =
            reason-Found state.continuation_reason _ state.remaining_tool_calls state.rounds
              is.reason in
          let (run, w', c, done) =
            (complete-Gets service working (first t) state s.outside.store readable prior reason).at
              (record w { saved = save_calls service (first t) prior s.notices w.saved }) in
          rw e
            (run, w', ran service.cancelled_after t state s w run w' working.uninterrupted c, done);
    }

    -- Where the repository takes every snapshot, the language models answer or fail with their own
    -- errors, the task is not cancelled, there is a tool, validator and executor know the same tools,
    -- and a result cites only evidence that its call has put into the store, continuing a pending run
    -- returns a completed run, whatever plans of literal arguments the planner answers, also those
    -- that are rejected, and whatever the tools answer and the models propose. If the planner also
    -- lets steps take outputs of other steps, the tool of such a step, where the validator accepts
    -- the step, must accept what its arguments resolve to, when the outputs are values of evidence
    -- that a call may put into the store.
    pub continue_run-completes :
        (w : World Value)
        → (run : InvestigationRun Value) × (w' : World Value) × (continue_run service pending none w
            ≡ (returned run, w'))
          × (run.status ≡ RunStatus.completed)
    unfolding continue_run start_run ◌>>=◌
    continue_run-completes w =
        let t = service.clock w.ticks in rw (working.accepts (first t)) ((run-Gets t).at _)
