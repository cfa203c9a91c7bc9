-- ===== src/Tests/Runs.antt =====
-- workflows/investigation.py: a case with one follow-up question whose planner fails.
use promptql.Prelude.{◌≡◌, refl, String, false, none, some, []}
use promptql.Prelude.Dict.{text_key, lookup}
use promptql.Prelude.Sorting.{sorted_by}
use promptql.Runtime.Models.{RunStatus}
use promptql.Investigations.Evidence.{get_many, put_all}
use promptql.Investigations.Execution.State.{deduplicate_evidence, ◌>>=◌ as ◌>>>◌}
use promptql.Investigations.Execution.Executor.{facts_for}
use promptql.Investigations.CodeDiagnosis.{EvidenceContent}
use promptql.Investigations.CodeDiagnosis.Remediation.{build_developer_recommendations}
use promptql.Investigations.Rendering.{
  render_hypotheses, render_code_findings, recommendations_valid, render_grounded_result,
}
use promptql.Investigations.Replanning.Models.{PlannerAnswer, AdaptiveInvestigationRuntime}
use promptql.Investigations.Replanning.Context.{remembered_patterns, build, planner_input}
use promptql.Investigations.Replanning.Rounds.{run_answer, run_round, run_rounds, investigate}
use promptql.Investigations.Runs.Models.{
  InvestigationRequest, InvestigationRun, investigation_valid,
}
use promptql.Investigations.Runs.Snapshots.{round_snapshots, snapshot_from_adaptive}
use promptql.Investigations.Runs.World.{
  Generated, InvestigationService, World, Outcome, returned, raised, ◌>>=◌,
}
use promptql.Investigations.Runs.Prior.{new_types, pending_run}
use promptql.Investigations.Runs.Completion.{
  record_facts, record_fact_recurrence, find_hypotheses, find_causes, complete_adaptive_run,
}
use promptql.Investigations.Runs.Service.{
  create_persisted_run, reopen_for_follow_up, save_calls, run_investigation,
  investigate_and_complete, start_run, continue_run,
}
use promptql.Investigations.Runs.Continuing.{ContinuesWell, continue_run-Concluded}
use promptql.Investigations.Runs.Cases.{Case, IsWhole, Case-IsWhole}
use promptql.Investigations.Runs.Answered.{IsWorking}
use promptql.Investigations.Runs.Completing.{continue_run-completes}
use promptql.Tests.Replanning.{runtime, runtime-IsAble}

abbrev request : InvestigationRequest
request = record {
  context = record { repository_owner = "o"; repository_name = "r" };
  question = "why";
}

abbrev service_of : AdaptiveInvestigationRuntime String → InvestigationService String
service_of runtime = record {
  runtime = runtime;
  generate_hypotheses = λ request state. Generated.failed;
  diagnose_code = λ request hypotheses facts evidence. Generated.failed;
  content_of = λ e. EvidenceContent.other;
  recommendation_id_of = λ id code. id;
  clock = λ n. n;
  refuses = λ run. false;
  refuses_fact = λ key. false;
  before_raise = [];
  cancelled_after = none;
}

abbrev empty : World String
empty = record { saved = []; records = []; ticks = 0 }

abbrev first : InvestigationRun String
first = pending_run request 1 none

continue_run-Concluded_example : ContinuesWell (service_of runtime) first none empty
unfolding investigation_valid
continue_run-Concluded_example =
    continue_run-Concluded (service_of runtime) first none empty (refl, refl)

service-IsWorking : IsWorking (service_of runtime)
service-IsWorking = record {
  able = runtime-IsAble;
  accepts = λ run. refl;
  uninterrupted = refl;
  generates = λ request state. tt;
  diagnoses = λ request hypotheses facts evidence. tt;
}

continue_run-completes_example :
    (run : InvestigationRun String) × (w : World String) × (continue_run
        (service_of runtime)
        first
        none
        empty
      ≡ (returned run, w))
    × (run.status ≡ RunStatus.completed)
continue_run-completes_example =
    continue_run-completes (service_of runtime) service-IsWorking first empty

abbrev unplanned : InvestigationService String
unplanned = service_of (record runtime { plan = λ input. PlannerAnswer.failed })

-- the run that is returned, or else the one that is given
abbrev or_run :
    Outcome (InvestigationRun String) × World String
    → InvestigationRun String
    → InvestigationRun String
or_run (returned run, w) run' = run
or_run (raised e, w) run' = run'

abbrev completed : InvestigationRun String
completed = or_run (continue_run unplanned first none empty) first

abbrev reopened : InvestigationRun String
reopened = or_run (reopen_for_follow_up unplanned completed empty) first

abbrev answered : InvestigationRun String
answered = or_run (continue_run unplanned reopened (some "and then") empty) first

answered_case : Case answered × (answered.status ≡ RunStatus.completed)
unfolding create_persisted_run reopen_for_follow_up continue_run ◌>>=◌ start_run
    investigate_and_complete run_investigation investigate run_rounds run_round run_answer facts_for
    get_many deduplicate_evidence planner_input build remembered_patterns complete_adaptive_run
    snapshot_from_adaptive round_snapshots find_hypotheses find_causes render_grounded_result
    render_hypotheses render_code_findings recommendations_valid build_developer_recommendations
    record_fact_recurrence record_facts new_types sorted_by save_calls put_all lookup ◌>>>◌
answered_case = (
  Case.asked unplanned completed reopened answered "and then" empty _ empty _
      (Case.continued unplanned first completed empty _
        (Case.created unplanned request 1 none empty _ first refl) refl refl)
      refl refl,
  refl,
)

Case-IsWhole_example : IsWhole answered
Case-IsWhole_example = Case-IsWhole answered answered_case.0 answered_case.1
