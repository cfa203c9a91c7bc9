-- ===== src/Investigations/Runs/Answered.antt =====
-- workflows/investigation.py: `_complete_adaptive_run` returns a completed run where the
-- language models answer and the repository takes every snapshot.
use promptql.Prelude.{
  ℕ, ◌≡◌, refl, inl, inr, String, false, Option, none, some, List, [], ◌∷◌, is_empty, All,
  Bool-cases,
}
use promptql.Prelude.Indexed.{AreApart}
use promptql.Prelude.Sorting.{sorted_by}
use promptql.Runtime.Models.{RunStatus}
use promptql.Investigations.Facts.{InvestigationFact}
use promptql.Investigations.Evidence.{Evidence, EvidenceStore}
use promptql.Investigations.Execution.Storage.{get_many_found}
use promptql.Investigations.Hypotheses.{CandidateHypothesis, ValidatedHypothesis}
use promptql.Investigations.CodeDiagnosis.{SuspectedCodeFinding}
use promptql.Investigations.Rendering.{GroundedTerminationReason}
use promptql.Investigations.Rendering.Renders.{finding_id_of, AreRenderable, BelongsTo, renders}
use promptql.Investigations.Rendering.Accepted.{accepted-AreRenderable, accepted_findings_lem}
use promptql.Investigations.Replanning.Models.{
  ContinuationReason, PlanningRound, AdaptiveInvestigationState,
}
use promptql.Investigations.Replanning.Chain.{Explains}
use promptql.Investigations.Replanning.Runnable.{IsAble, IsReadableState}
use promptql.Investigations.Runs.Models.{InvestigationRequest, InvestigationRun}
use promptql.Investigations.Runs.Snapshots.{default_tool_call_budget}
use promptql.Investigations.Runs.World.{
  Generated, InvestigationService, World, returned, Exec, pure, need, now, save, ◌>>=◌,
}
use promptql.Investigations.Runs.Prior.{grounded_reason, new_types, Prior, Findings}
use promptql.Investigations.Runs.Completion.{
  record_fact, record_facts, record_fact_recurrence, end_generation, end_diagnosis, find_hypotheses,
  find_causes, complete_adaptive_run,
}
use promptql.Investigations.Runs.Readable.{Found, snapshot-Found}

-- a language model answers, or its service raises its own error
abbrev pub Answers : {A : Type 0} → Generated A → Type 0
Answers (Generated.generated candidates metadata) = Unit
Answers Generated.failed = Unit
Answers Generated.crashed = ⊥
Answers Generated.cancelled = ⊥

module _ {Value : Type 0} where
  -- an action that returns, in every world
  pub record Gets {A : Type 0} (Q : A → Type 0) (m : Exec Value A) : Type 0 where
    pub at : (w : World Value) → (a : A) × (w' : World Value) × (m w ≡ (returned a, w')) × Q a

  module _ {A B : Type 0} (P : A → Type 0) (Q : B → Type 0) where
    Gets-bind :
        (m : Exec Value A) (f : A → Exec Value B)
        → Gets P m
        → ((a : A) → P a → Gets Q (f a))
        → Gets Q (m >>= f)
    unfolding ◌>>=◌
    Gets-bind m f h k = record { at = λ w. let (a, w', e, p) = h.at w in rw e ((k a p).at w') }

  module _ {A : Type 0} (Q : A → Type 0) where
    Gets-pure : (a : A) → Q a → Gets Q (pure a)
    unfolding pure
    Gets-pure a q = record { at = λ w. (a, w, refl, q) }

    Gets-need : (o : Option A) (a : A) → o ≡ some a → Q a → Gets Q (need o)
    unfolding need
    Gets-need o a e q = record { at = λ w. rw e (a, w, refl, q) }

  Gets-now : (service : InvestigationService Value) → Gets (λ t. Unit) (now service)
  unfolding now
  Gets-now service = record { at = λ w. (_, _, refl, tt) }

  Gets-save :
      (service : InvestigationService Value) (run : InvestigationRun Value)
      → service.refuses run ≡ false
      → Gets (λ u. Unit) (save service run)
  unfolding save
  Gets-save service run e = record { at = λ w. rw e (_, _, refl, tt) }

  -- the planner and the tools keep to what an investigation relies on, the repository takes every snapshot, the models answer, and
  -- the task is not cancelled in the investigation
  pub record IsWorking (service : InvestigationService Value) : Type 0 where
    pub able : IsAble service.runtime []
    pub accepts : (run : InvestigationRun Value) → service.refuses run ≡ false
    pub uninterrupted : service.cancelled_after ≡ none
    pub generates :
        (request : InvestigationRequest) (state : AdaptiveInvestigationState Value)
        → Answers (service.generate_hypotheses request state)
    pub diagnoses :
        (request : InvestigationRequest) (hypotheses : List ValidatedHypothesis)
        (facts : List InvestigationFact) (evidence : List (Evidence Value))
        → Answers (service.diagnose_code request hypotheses facts evidence)

  pub reason-Found :
      (reason : ContinuationReason) (limit left : ℕ) (rounds : List (PlanningRound Value))
      → Explains limit reason rounds left
      → Found (grounded_reason reason)
  reason-Found ContinuationReason.tool_call_budget_exhausted limit left rounds h = (_, refl)
  reason-Found ContinuationReason.no_progress limit left rounds h = (_, refl)
  reason-Found ContinuationReason.max_planning_rounds_reached limit left rounds h = (_, refl)
  reason-Found ContinuationReason.planner_failure limit left rounds h = (_, refl)
  reason-Found ContinuationReason.plan_validation_failure limit left rounds h = (_, refl)
  reason-Found ContinuationReason.in_progress limit left rounds h = elim h [ ]
  reason-Found ContinuationReason.complete limit left rounds h = elim h [ ]

  module _ (service : InvestigationService Value) (working : IsWorking service)
      (running : InvestigationRun Value) where
    record_facts-Gets :
        (t : ℕ) (types : List String) → Gets (λ kept. Unit) (record_facts service running t types)
    unfolding record_facts
    record_facts-Gets t [] = record { at = λ w. (_, _, refl, tt) }
    record_facts-Gets t (type ∷ types) = record {
      at = λ w.
          (Gets-bind (λ kept. Unit) (λ kept. Unit) (record_facts service running t types) _
              (record_facts-Gets t types) λ more u. Gets-pure _ _ tt).at
            (record_fact service running t type w).1;
    }

    recurrence-Gets :
        (facts : List InvestigationFact)
        → Gets (λ types. Unit) (record_fact_recurrence service running facts)
    unfolding record_fact_recurrence
    recurrence-Gets facts =
        Gets-bind (λ t. Unit) (λ types. Unit) _ _ (Gets-now service)
          λ t u.
            Gets-bind (λ types. Unit) (λ types. Unit) _ _
              (record_facts-Gets t
                (sorted_by (λ x. x) (new_types running.recorded_fact_types facts)))
              λ more u. Gets-pure _ _ tt

    -- what can be rendered
    abbrev AreFindings : List InvestigationFact → Findings → Type 0
    AreFindings facts found =
        AreRenderable facts found.hypotheses
        × All (BelongsTo facts found.hypotheses) found.findings
        × AreApart finding_id_of found.findings

    end_generation-Gets :
        (facts : List InvestigationFact) (reason : GroundedTerminationReason)
        (answer : Generated CandidateHypothesis)
        → Answers answer
        → Gets (AreFindings facts) (end_generation service facts reason answer)
    end_generation-Gets facts reason (Generated.generated candidates metadata) h =
        Gets-pure _ _ (accepted-AreRenderable candidates facts, tt, tt)
    end_generation-Gets facts reason Generated.failed h = Gets-pure _ _ (tt, tt, tt)
    end_generation-Gets facts reason Generated.crashed h = elim h [ ]
    end_generation-Gets facts reason Generated.cancelled h = elim h [ ]

    end_diagnosis-Gets :
        (facts : List InvestigationFact) (evidence : List (Evidence Value)) (found : Findings)
        (answer : Generated SuspectedCodeFinding)
        → AreFindings facts found
        → Answers answer
        → Gets (AreFindings facts) (end_diagnosis service facts evidence found answer)
    end_diagnosis-Gets facts evidence found (Generated.generated candidates metadata) are h =
        let (result, e, belong, apart) =
          accepted_findings_lem service.content_of found.hypotheses facts evidence candidates in
        Gets-bind
          (λ r.
            All (BelongsTo facts found.hypotheses) r.accepted_findings
            × AreApart finding_id_of r.accepted_findings)
          _ _ _ (Gets-need _ _ result e (belong, apart))
          λ r fine. Gets-pure _ _ (are.0, fine.0, fine.1)
    end_diagnosis-Gets facts evidence found Generated.failed are h = Gets-pure _ _ are
    end_diagnosis-Gets facts evidence found Generated.crashed are h = elim h [ ]
    end_diagnosis-Gets facts evidence found Generated.cancelled are h = elim h [ ]

    module _ (state : AdaptiveInvestigationState Value) (store : EvidenceStore Value)
        (readable : IsReadableState default_tool_call_budget state store) where
      find_hypotheses-Gets :
          (reason : GroundedTerminationReason)
          → Gets (AreFindings state.facts) (find_hypotheses service running state store reason)
      unfolding find_hypotheses
      find_hypotheses-Gets reason = elim (Bool-cases (is_empty state.facts)) [
        | inl e ↦ rw e (Gets-pure _ _ (tt, tt, tt))
        | inr e ↦
            rw e
              (end_generation-Gets state.facts reason _ (working.generates running.request state))
      ]

      find_causes-Gets :
          (found : Findings)
          → AreFindings state.facts found
          → Gets (AreFindings state.facts) (find_causes service running state store found)
      unfolding find_causes
      find_causes-Gets found are = elim (Bool-cases (is_empty found.hypotheses)) [
        | inl e ↦ rw e (Gets-pure _ _ are)
        | inr e ↦
            let (evidence, held) = get_many_found store state.evidence readable.held in
            rw e (
              Gets-bind (λ evidence. Unit) _ _ _ (Gets-need _ _ evidence held tt)
                λ evidence u.
                  end_diagnosis-Gets state.facts evidence found _ are
                    (working.diagnoses running.request found.hypotheses state.facts evidence))
      ]

      pub complete-Gets :
          (prior : Prior Value)
          → Found (grounded_reason state.continuation_reason)
          → Gets
              (λ run. run.status ≡ RunStatus.completed)
              (complete_adaptive_run service running state store prior)
      unfolding complete_adaptive_run
      complete-Gets prior (reason, r) =
          let (snapshot, s) = snapshot-Found state store prior.rounds prior.actions readable in
          Gets-bind (λ s. Unit) _ _ _ (Gets-need _ _ snapshot s tt)
            λ snapshot u.
              Gets-bind (λ r. Unit) _ _ _ (Gets-need _ _ reason r tt)
                λ reason u.
                  Gets-bind (AreFindings state.facts) _ _ _ (find_hypotheses-Gets reason)
                    λ first are.
                      Gets-bind (AreFindings state.facts) _ _ _ (find_causes-Gets first are)
                        λ found (h, belong, apart).
                          let (result, e, is) =
                            renders service.recommendation_id_of state.facts found.hypotheses
                              state.missing_information found.reason found.findings state.evidence h
                              belong apart in
                          Gets-bind (λ result. Unit) _ _ _ (Gets-need _ _ result e tt)
                            λ result u.
                              Gets-bind (λ types. Unit) _ _ _ (recurrence-Gets state.facts)
                                λ types u.
                                  Gets-bind (λ t. Unit) _ _ _ (Gets-now service)
                                    λ t u.
                                      Gets-bind (λ u. Unit) _ _ _
                                        (Gets-save service _ (working.accepts _))
                                        λ u u'. Gets-pure _ _ refl
