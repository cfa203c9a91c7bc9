-- ===== src/Workflow/Steps.antt =====
-- The methods that start, complete and fail a step leave the snapshots in order.
use promptql.Prelude.{ℕ, refl, String, Option, none, some}
use promptql.Connectors.{ConnectorRequest}
use promptql.Runtime.Models.{
  RunStatus, WorkflowStepName, RuntimeErrorInfo, RuntimeStep, MergeReadinessRun,
}
use promptql.Workflow.World.{FailureCategory, StepOutcome, Service, World}
use promptql.Workflow.Recording.{
  with_last_step, record_duration, record_step, last?, record_terminal_step, record_terminal_run,
  mark_workflow,
}
use promptql.Workflow.Service.{
  start_step, duration_ms, build_completed_step, complete_step, fail_step_and_run,
  persist_failed_step_and_run, fail_missing, fail_connector,
}
use promptql.Workflow.Hoare.{
  At, Triple, Triple-bind, Still, Triple-pure, Triple-raise, Still-pure, Still-raise, Still-emit,
  Still-lift, Still-now, Still-tick, Still-new_id, Triple-save, KeepsStatus, Triple-replace,
  Triple-transition,
}

module _ (id : ℕ) (request : ConnectorRequest) where
  abbrev pub Ready : MergeReadinessRun → World → Type 0
  Ready = At id request

  pub keeps_steps :
      (run : MergeReadinessRun) (step : RuntimeStep)
      → KeepsStatus id request (with_last_step run step)
  keeps_steps run step = record { status = λ v. refl; identity = λ v. refl; asked = λ v. refl }

  module _ (run : MergeReadinessRun) where
    Still-record_duration :
        (duration : Option ℕ) (name : WorkflowStepName) (outcome : StepOutcome)
        (category : Option FailureCategory)
        → Still id request run (record_duration duration name outcome category)
    Still-record_duration none name outcome category = Still-pure id request run tt
    Still-record_duration (some d) name outcome category = Still-emit id request run _

    Still-record_step :
        (step : Option RuntimeStep) (outcome : StepOutcome) (category : Option FailureCategory)
        → Still id request run (record_step step outcome category)
    Still-record_step none outcome category = Still-raise id request run _
    Still-record_step (some step) outcome category =
        Still-record_duration step.duration_ms step.name outcome category

    pub Still-record_terminal_step :
        (r : MergeReadinessRun) (outcome : StepOutcome) (category : Option FailureCategory)
        → Still id request run (record_terminal_step r outcome category)
    unfolding record_terminal_step
    Still-record_terminal_step r outcome category =
        Still-record_step (last? r.steps) outcome category

    Still-mark_workflow :
        (category : Option FailureCategory) → Still id request run (mark_workflow category)
    Still-mark_workflow none = Still-pure id request run tt
    Still-mark_workflow (some c) = Still-emit id request run _

    pub Triple-record_terminal_run :
        (category : Option FailureCategory)
        → Triple id request (Ready run) (record_terminal_run run category) Ready
    unfolding record_terminal_run
    Triple-record_terminal_run category =
        Triple-bind id request _ _ _ _ (Still-mark_workflow category) λ _.
          Triple-bind id request _ _ _ _ (Still-emit id request run _)
            λ _. Triple-pure id request run (λ w h. h)

  module _ (service : Service) (run : MergeReadinessRun) where
    Still-duration_ms : (ns : ℕ) → Still id request run (duration_ms service ns)
    unfolding duration_ms
    Still-duration_ms ns =
        Triple-bind id request _ _ _ _ (Still-tick id request run service)
          λ _. Still-pure id request run _

    pub Still-build_completed_step :
        (step : RuntimeStep) (ns : ℕ) → Still id request run (build_completed_step service step ns)
    unfolding build_completed_step
    Still-build_completed_step step ns =
        Triple-bind id request _ _ _ _ (Still-now id request run service) λ _.
          Triple-bind id request _ _ _ _ (Still-duration_ms ns) λ _. Still-lift id request run _

    pub Triple-start_step :
        (name : WorkflowStepName)
        → Triple id request (Ready run) (start_step service run name) (λ a. Ready a.0)
    unfolding start_step
    Triple-start_step name =
        Triple-bind id request _ _ _ _ (Still-new_id id request run service) λ _.
          Triple-bind id request _ _ _ _
            (Triple-replace id request run _
              (record { status = λ v. refl; identity = λ v. refl; asked = λ v. refl }))
            λ with_pending.
              Triple-bind id request _ _ _ _ (Triple-save id request with_pending service _) λ run₁.
                Triple-bind id request _ _ _ _ (Still-now id request run₁ service) λ _.
                  Triple-bind id request _ _ _ _ (Still-lift id request run₁ _) λ step.
                    Triple-bind id request _ _ _ _
                      (Triple-replace id request run₁ _ (keeps_steps run₁ step))
                      λ with_running.
                        Triple-bind id request _ _ _ _
                          (Triple-save id request with_running service _)
                          λ run₂.
                            Triple-bind id request _ _ _ _ (Still-tick id request run₂ service)
                              λ _. Triple-pure id request _ (λ w h. h)

    pub Triple-complete_step :
        (step : RuntimeStep) (ns : ℕ) (updates : MergeReadinessRun → MergeReadinessRun)
        → KeepsStatus id request updates
        → Triple id request (Ready run) (complete_step service run step ns updates) Ready
    unfolding complete_step
    Triple-complete_step step ns updates keeps =
        Triple-bind id request _ _ _ _ (Still-build_completed_step step ns) λ done.
          Triple-bind id request _ _ _ _
            (Triple-replace id request run _ (record {
              status = λ v. keeps.status (with_last_step run done v);
              identity = λ v. keeps.identity (with_last_step run done v);
              asked = λ v. keeps.asked (with_last_step run done v);
            }))
            λ next. Triple-save id request next service _

    Triple-fail_step_and_run :
        (step : RuntimeStep) (ns : ℕ) (error : RuntimeErrorInfo)
        → Triple id request (Ready run) (fail_step_and_run service run step ns error) Ready
    unfolding fail_step_and_run
    Triple-fail_step_and_run step ns error =
        Triple-bind id request _ _ _ _ (Still-now id request run service) λ _.
          Triple-bind id request _ _ _ _ (Still-duration_ms ns) λ _.
            Triple-bind id request _ _ _ _ (Still-lift id request run _) λ failed_step.
              Triple-bind id request _ _ _ _
                (Triple-replace id request run _ (keeps_steps run failed_step))
                λ with_failed.
                  Triple-bind id request _ _ _ _ (Still-now id request with_failed service) λ t'.
                    Triple-bind id request _ _ _ _
                      (Triple-transition id request with_failed RunStatus.failed t' _ none)
                      λ failed_run. Triple-save id request failed_run service _

    pub Triple-persist_failed :
        (step : RuntimeStep) (ns : ℕ) (error : RuntimeErrorInfo) (category : FailureCategory)
        → Triple id request
            (Ready run)
            (persist_failed_step_and_run service run step ns error category)
            Ready
    unfolding persist_failed_step_and_run
    Triple-persist_failed step ns error category =
        Triple-bind id request _ _ _ _ (Still-emit id request run _) λ _.
          Triple-bind id request _ _ _ _ (Triple-fail_step_and_run step ns error) λ failed_run.
            Triple-bind id request _ _ _ _ (Still-record_terminal_step failed_run failed_run _ _)
              λ _. Triple-pure id request failed_run (λ w h. h)

    pub Triple-fail_missing :
        {A : Type 0} {Q : A → World → Type 0} (step : RuntimeStep) (ns : ℕ) (message : String)
        → Triple id request (Ready run) (fail_missing service run step ns message) Q
    unfolding fail_missing
    Triple-fail_missing step ns message =
        Triple-bind id request _ _ _ _ (Triple-persist_failed step ns _ _) λ failed_run.
          Triple-bind id request _ _ _ _ (Triple-record_terminal_run failed_run _)
            λ run'. Triple-raise id request run' _

    pub Triple-fail_connector :
        {A : Type 0} (step : RuntimeStep) (ns : ℕ) (message : String)
        → Triple id request
            (Ready run)
            (fail_connector service {A = A} run step ns message)
            (λ a. Ready a.0)
    unfolding fail_connector
    Triple-fail_connector step ns message =
        Triple-bind id request _ _ _ _ (Triple-persist_failed step ns _ _) λ failed_run.
          Triple-bind id request _ _ _ _ (Triple-record_terminal_run failed_run _)
            λ run'. Triple-pure id request _ (λ w h. h)
