-- ===== src/Investigations/Runs/Completion.antt =====
-- workflows/investigation.py: `_complete_adaptive_run` and `_record_fact_recurrence`, without their
-- telemetry. What is done with the answer of a language model are the `end_*` functions.
use promptql.Prelude.{
  ℕ, String, Bool, true, false, none, some, List, [], ◌∷◌, ◌++◌, length, is_empty, if◌then◌else◌,
}
use promptql.Prelude.Sorting.{sorted_by}
use promptql.Runtime.Models.{RunStatus}
use promptql.Runtime.Recurrence.{FactKey, record_occurrence}
use promptql.Investigations.Facts.{InvestigationFact}
use promptql.Investigations.Evidence.{Evidence, EvidenceStore, get_many}
use promptql.Investigations.Hypotheses.{CandidateHypothesis, validate_hypotheses}
use promptql.Investigations.CodeDiagnosis.{SuspectedCodeFinding, validate_findings}
use promptql.Investigations.CodeDiagnosis.Remediation.{build_developer_recommendations}
use promptql.Investigations.Rendering.{GroundedTerminationReason, render_grounded_result}
use promptql.Investigations.Replanning.Models.{AdaptiveInvestigationState}
use promptql.Investigations.Runs.Models.{InvestigationRuntimeSnapshot, InvestigationRun}
use promptql.Investigations.Runs.Snapshots.{reason_value, snapshot_from_adaptive}
use promptql.Investigations.Runs.World.{
  Generated, Raised, InvestigationService, World, returned, Exec, pure, raise, need, now, save,
  ◌>>=◌, ◌>>◌,
}
use promptql.Investigations.Runs.Prior.{grounded_reason, new_types, Prior, Findings}

module _ {Value : Type 0} (service : InvestigationService Value) where
  -- the observation of one fact type; `none` where the repository refuses it
  abbrev pub record_fact : InvestigationRun Value → ℕ → String → World Value → Bool × World Value
  record_fact running t type w =
      let context = running.request.context in
      let key : FactKey = (context.repository_owner, context.repository_name, type) in
      if service.refuses_fact key
      then (false, w)
      else (true, record w { records = (record_occurrence w.records key running.run_id t).1 })

  unfoldable pub record_facts : InvestigationRun Value → ℕ → List String → Exec Value (List String)
  record_facts running t [] w = (returned [], w)
  record_facts running t (type ∷ types) w =
      let (kept, w') = record_fact running t type w in
      (record_facts running t types >>= λ more. pure (if kept then type ∷ more else more)) w'

  unfoldable pub record_fact_recurrence :
      InvestigationRun Value → List InvestigationFact → Exec Value (List String)
  record_fact_recurrence running facts = do
    t ← now service
    newly_recorded ←
        record_facts running t (sorted_by (λ x. x) (new_types running.recorded_fact_types facts))
    pure (running.recorded_fact_types ++ newly_recorded)

  abbrev pub no_hypotheses : GroundedTerminationReason → Findings
  no_hypotheses reason = record {
    hypotheses = [];
    rejected_hypotheses = 0;
    hypothesis_metadata = none;
    findings = [];
    rejected_findings = 0;
    code_metadata = none;
    reason = reason;
  }

  abbrev pub end_generation :
      List InvestigationFact
      → GroundedTerminationReason
      → Generated CandidateHypothesis
      → Exec Value Findings
  end_generation facts reason (Generated.generated candidates metadata) =
      let result = validate_hypotheses candidates facts in
      pure (record (no_hypotheses reason) {
        hypotheses = result.accepted_hypotheses;
        rejected_hypotheses = length result.rejected_candidates;
        hypothesis_metadata = some metadata;
      })
  end_generation facts reason Generated.failed =
      pure (no_hypotheses GroundedTerminationReason.hypothesis_generation_failure)
  end_generation facts reason Generated.crashed = raise Raised.crashed
  end_generation facts reason Generated.cancelled = raise Raised.cancelled

  abbrev pub end_diagnosis :
      List InvestigationFact
      → List (Evidence Value)
      → Findings
      → Generated SuspectedCodeFinding
      → Exec Value Findings
  end_diagnosis facts evidence found (Generated.generated candidates metadata) = do
    result ← need (validate_findings service.content_of candidates found.hypotheses facts evidence)
    pure (record found {
      findings = result.accepted_findings;
      rejected_findings = length result.rejected_candidates;
      code_metadata = some metadata;
    })
  end_diagnosis facts evidence found Generated.failed =
      pure (record found { reason = GroundedTerminationReason.code_diagnosis_failure })
  end_diagnosis facts evidence found Generated.crashed = raise Raised.crashed
  end_diagnosis facts evidence found Generated.cancelled = raise Raised.cancelled

  module _ (running : InvestigationRun Value) (state : AdaptiveInvestigationState Value)
      (store : EvidenceStore Value) where
    unfoldable pub find_hypotheses : GroundedTerminationReason → Exec Value Findings
    find_hypotheses reason =
        if is_empty state.facts
        then pure (no_hypotheses reason)
        else end_generation state.facts reason (service.generate_hypotheses running.request state)

    unfoldable pub find_causes : Findings → Exec Value Findings
    find_causes found =
        if is_empty found.hypotheses
        then pure found
        else (need (get_many store state.evidence) >>= λ evidence.
            end_diagnosis state.facts evidence found
              (service.diagnose_code running.request found.hypotheses state.facts evidence))

    abbrev pub with_findings :
        Findings → InvestigationRuntimeSnapshot Value → InvestigationRuntimeSnapshot Value
    with_findings found snapshot = record snapshot {
      working_memory = record snapshot.working_memory {
        validated_hypotheses = found.hypotheses;
        validated_code_findings = found.findings;
        developer_recommendations =
            build_developer_recommendations service.recommendation_id_of found.findings;
      };
      execution_state = record snapshot.execution_state {
        rejected_hypothesis_count = found.rejected_hypotheses;
        hypothesis_generation_metadata = found.hypothesis_metadata;
        rejected_code_finding_count = found.rejected_findings;
        code_diagnosis_metadata = found.code_metadata;
        termination_reason = some (reason_value state.continuation_reason);
      };
    }

    -- `_complete_adaptive_run`
    unfoldable pub complete_adaptive_run : Prior Value → Exec Value (InvestigationRun Value)
    complete_adaptive_run prior = do
      snapshot ← need (snapshot_from_adaptive state store prior.rounds prior.actions)
      reason ← need (grounded_reason state.continuation_reason)
      hypotheses ← find_hypotheses reason
      found ← find_causes hypotheses
      result ← need (
          render_grounded_result state.facts found.hypotheses state.missing_information found.reason
            found.findings
            (build_developer_recommendations service.recommendation_id_of found.findings)
            state.evidence)
      recorded_fact_types ← record_fact_recurrence running state.facts
      t ← now service
      let completed = record running {
        status = RunStatus.completed;
        completed_at = some t;
        state = some (with_findings found snapshot);
        results = running.results ++ result ∷ [];
        recorded_fact_types = recorded_fact_types;
      }
      save service completed
      pure completed
