-- ===== src/Investigations/Runs/Completed.antt =====
-- workflows/investigation.py: what `_complete_adaptive_run` returns.
use promptql.Prelude.{
  ℕ, ◌≡◌, refl, ◌∙◌, inl, inr, String, some, List, [], ◌∷◌, ◌++◌, is_empty, Bool-cases, arith,
}
use promptql.Prelude.Sorting.{sorted_by}
use promptql.Runtime.Models.{RunStatus}
use promptql.Investigations.Facts.{InvestigationFact}
use promptql.Investigations.Evidence.{Evidence, EvidenceStore, get_many}
use promptql.Investigations.Hypotheses.{CandidateHypothesis}
use promptql.Investigations.CodeDiagnosis.{SuspectedCodeFinding}
use promptql.Investigations.Rendering.{GroundedTerminationReason, GroundedInvestigationResult}
use promptql.Investigations.Replanning.Models.{AdaptiveInvestigationState}
use promptql.Investigations.Runs.Models.{InvestigationRuntimeSnapshot, InvestigationRun}
use promptql.Investigations.Runs.Snapshots.{snapshot_from_adaptive}
use promptql.Investigations.Runs.World.{Generated, InvestigationService, World}
use promptql.Investigations.Runs.Prior.{new_types, Prior, Findings}
use promptql.Investigations.Runs.Completion.{
  record_fact, record_facts, record_fact_recurrence, end_generation, end_diagnosis, find_hypotheses,
  find_causes, with_findings, complete_adaptive_run,
}
use promptql.Investigations.Runs.Effects.{
  Still, Still-bind, Still-pure, Still-raise, Still-need, Still-now, Ends, Ends-bind, Ends-need,
  Ends-save,
}

module _ {Value : Type 0} (service : InvestigationService Value) where
  end_generation-Still :
      (facts : List InvestigationFact) (reason : GroundedTerminationReason)
      (answer : Generated CandidateHypothesis)
      → Still (end_generation service facts reason answer)
  end_generation-Still facts reason (Generated.generated candidates metadata) = Still-pure _
  end_generation-Still facts reason Generated.failed = Still-pure _
  end_generation-Still facts reason Generated.crashed = Still-raise _
  end_generation-Still facts reason Generated.cancelled = Still-raise _

  end_diagnosis-Still :
      (facts : List InvestigationFact) (evidence : List (Evidence Value)) (found : Findings)
      (answer : Generated SuspectedCodeFinding)
      → Still (end_diagnosis service facts evidence found answer)
  end_diagnosis-Still facts evidence found (Generated.generated candidates metadata) =
      Still-bind _ _ (Still-need _) λ result. Still-pure _
  end_diagnosis-Still facts evidence found Generated.failed = Still-pure _
  end_diagnosis-Still facts evidence found Generated.crashed = Still-raise _
  end_diagnosis-Still facts evidence found Generated.cancelled = Still-raise _

  module _ (running : InvestigationRun Value) where
    record_fact-same :
        (t : ℕ) (type : String) (w : World Value)
        → (record_fact service running t type w).1.saved ≡ w.saved
    record_fact-same t type w = ground arith

    record_facts-Still :
        (t : ℕ) (types : List String) → Still (record_facts service running t types)
    unfolding record_facts
    record_facts-Still t [] = record { at = λ w. refl }
    record_facts-Still t (type ∷ types) = record {
      at = λ w.
          (Still-bind (record_facts service running t types) _ (record_facts-Still t types)
              λ more. Still-pure _).at
            (record_fact service running t type w).1
          ∙ record_fact-same t type w;
    }

    recurrence-Still :
        (facts : List InvestigationFact) → Still (record_fact_recurrence service running facts)
    unfolding record_fact_recurrence
    recurrence-Still facts = Still-bind _ _ (Still-now service) λ t.
        Still-bind _ _
          (record_facts-Still t (sorted_by (λ x. x) (new_types running.recorded_fact_types facts)))
          λ more. Still-pure _

    module _ (state : AdaptiveInvestigationState Value) (store : EvidenceStore Value)
        (prior : Prior Value) where
      -- the run with another result, in the state that the investigation left
      abbrev pub IsCompletion : InvestigationRun Value → Type 0
      IsCompletion run =
          (t : ℕ) × (snapshot : InvestigationRuntimeSnapshot Value) × (found : Findings)
          × (result : GroundedInvestigationResult) × (types : List String) × (snapshot_from_adaptive
                state store prior.rounds prior.actions
              ≡ some snapshot)
          × (run ≡ record running {
            status = RunStatus.completed;
            completed_at = some t;
            state = some (with_findings service running state store found snapshot);
            results = running.results ++ result ∷ [];
            recorded_fact_types = types;
          })

      find_hypotheses-Still :
          (reason : GroundedTerminationReason)
          → Still (find_hypotheses service running state store reason)
      unfolding find_hypotheses
      find_hypotheses-Still reason = elim (Bool-cases (is_empty state.facts)) [
        | inl e ↦ rw e (Still-pure _)
        | inr e ↦ rw e (end_generation-Still state.facts reason _)
      ]

      find_causes-Still : (found : Findings) → Still (find_causes service running state store found)
      unfolding find_causes
      find_causes-Still found = elim (Bool-cases (is_empty found.hypotheses)) [
        | inl e ↦ rw e (Still-pure _)
        | inr e ↦ rw e (
            Still-bind _ _ (Still-need (get_many store state.evidence))
              λ evidence. end_diagnosis-Still state.facts evidence found _)
      ]

      pub complete-Ends :
          Ends IsCompletion (complete_adaptive_run service running state store prior)
      unfolding complete_adaptive_run
      complete-Ends = Ends-need _ _ _ λ snapshot e. Ends-need _ _ _ λ reason _.
          Ends-bind _ _ _ (find_hypotheses-Still reason) λ hypotheses.
            Ends-bind _ _ _ (find_causes-Still hypotheses) λ found. Ends-need _ _ _ λ result _.
              Ends-bind _ _ _ (recurrence-Still state.facts) λ types.
                Ends-bind _ _ _ (Still-now service)
                  λ t. Ends-save _ service _ (t, snapshot, found, result, types, e, refl)
