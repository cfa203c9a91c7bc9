-- ===== src/Investigations/Replanning/Kept.antt =====
-- investigations/replanning.py: what one round of `investigate` keeps.
use promptql.Prelude.{
  ℕ, ◌+◌, ◌≤◌, ◌≡◌, refl, sym, ◌∙◌, subst, inl, inr, String, ◌&&◌, Option, none, some, List, [],
  ◌∷◌, ◌++◌, map, is_empty, length, length-append, ltb, All, All-append, arith, Bool-cases,
}
use promptql.Prelude.Dict.{Key}
use promptql.Investigations.Plan.{ValidatedPlan}
use promptql.Investigations.Evidence.{EvidenceStore}
use promptql.Investigations.Execution.State.{Result, ok, ◌>>=◌}
use promptql.Investigations.Execution.Locals.{Outside}
use promptql.Investigations.Execution.Safety.{Holds, Holds-bind, Holds-if, need_found}
use promptql.Investigations.Execution.Guarantee.{IsExecuted, execute-IsExecuted}
use promptql.Investigations.Validation.Contracts.{PlanValidationResult}
use promptql.Investigations.Validation.Sound.{IsAccepted}
use promptql.Investigations.Validation.Accepted.{IsJudged, validate-IsJudged}
use promptql.Investigations.Replanning.Models.{
  max_adaptive_plan_steps, default_policy, ContinuationReason, PlannedInvestigation, PlannerAnswer,
  PlanningRound, AdaptiveInvestigationState, Notice, AdaptiveInvestigationRuntime, Investigation,
}
use promptql.Investigations.Replanning.Rounds.{
  state_with, planning_round, notify, end_round, run_plan, run_validated, run_answer, run_round,
}
use promptql.Investigations.Replanning.Chain.{
  IsRound, AreRounds, AreRounds-snoc, MadeProgress, Explains,
}

pub some_inj : {A : Type 0} {a b : A} → some a ≡ some b → a ≡ b
some_inj e = cc

module _ {Value : Type 0} (runtime : AdaptiveInvestigationRuntime Value) where
  abbrev pub allowed_ids : List String
  allowed_ids = map (λ c. c.definition.tool_id) runtime.allowed_tools

  -- the callbacks change nothing but their record
  pub Holds-notify :
      {A : Type 0} (P : A → Type 0) (notice : Notice Value) (s : Investigation Value)
      (f : Investigation Value → Result A)
      → ((ns : List (Notice Value × EvidenceStore Value)) → Holds P (f (record s { notices = ns })))
      → Holds P (notify runtime notice s >>= f)
  unfolding notify Holds ◌>>=◌
  Holds-notify P notice s f h = elim (Bool-cases (runtime.raises (notice, s.outside.store))) [
    | inl e ↦ rw e tt
    | inr e ↦ rw e (h (s.notices ++ (notice, s.outside.store) ∷ []))
  ]

  module _ (budget first limit : ℕ) where
    -- what the loop keeps
    pub record IsKept (s : Investigation Value) : Type 0 where
      pub chain : AreRounds runtime.registry allowed_ids first budget s.rounds s.remaining
      pub progress : All MadeProgress s.rounds
      pub fresh : s.no_progress_rounds ≡ 0

    -- what is returned
    pub record IsReturned (state : AdaptiveInvestigationState Value) : Type 0 where
      pub chain :
          AreRounds runtime.registry allowed_ids first budget state.rounds
            state.remaining_tool_calls
      pub bounded : length state.rounds ≤ limit
      pub reason : Explains limit state.continuation_reason state.rounds state.remaining_tool_calls

    abbrev pub Returned : AdaptiveInvestigationState Value × Investigation Value → Type 0
    Returned (state, s) = IsReturned state

    -- after a round
    abbrev pub Follows : ℕ → Option ContinuationReason × Investigation Value → Type 0
    Follows n (none, s) = IsKept s × (length s.rounds ≡ n + 1)
    Follows n (some reason, s) = IsReturned (state_with reason s)

    end_round-Follows :
        (planned : PlannedInvestigation Value) (round : PlanningRound Value)
        (outside : Outside Value) (s : Investigation Value)
        → IsKept s
        → length s.rounds + 1 ≤ limit
        → IsRound runtime.registry allowed_ids (first + length s.rounds) s.remaining round
        → Holds (Follows (length s.rounds)) (end_round runtime planned round outside s)
    unfolding end_round Holds
    end_round-Follows planned round outside s kept l r = Holds-bind _ _ _ λ actions e.
        Holds-notify _ _ _ _ λ ns.
          let chain =
            AreRounds-snoc runtime.registry allowed_ids first budget s.remaining s.rounds round
              kept.chain r in
          let more = length-append s.rounds (round ∷ []) in
          elim (Bool-cases (is_empty round.evidence_delta_ids && is_empty round.fact_delta_ids)) [
            | inl e ↦
                rw (e, kept.fresh)
                  (record {
                    chain = chain;
                    bounded = omega arith;
                    reason = (s.rounds, round, refl, kept.progress, e);
                  })
            | inr e ↦ rw e (
              record {
                chain = chain;
                progress = All-append MadeProgress s.rounds (round ∷ []) kept.progress (e, tt);
                fresh = refl;
              },
              omega arith,
            )
          ]

    module _ ⦃key : Key Value⦄ where
      run_plan-Follows :
          (planned : PlannedInvestigation Value) (validated_plan : ValidatedPlan Value)
          (s : Investigation Value)
          → IsKept s
          → length s.rounds + 1 ≤ limit
          → 1 ≤ s.remaining
          → length validated_plan.plan.steps ≤ max_adaptive_plan_steps
          → IsAccepted runtime.registry allowed_ids validated_plan.plan.steps
              validated_plan.topological_step_ids
          → Holds
              (Follows (length s.rounds))
              (run_plan runtime (first + length s.rounds) planned validated_plan s)
      unfolding run_plan
      run_plan-Follows planned validated_plan s kept l one small acc = Holds-notify _ _ _ _ λ ns.
          Holds-bind _ _ _ λ (execution, outside) e.
            let done =
              execute-IsExecuted runtime.executor validated_plan s.remaining s.evidence
                default_policy s.outside outside execution (omega arith) acc.2 e in
            let s' = record s { notices = ns } in
            let same = sym done.same_plan in
            let round = planning_round (first + length s.rounds) planned execution s in
            end_round-Follows planned round outside s'
              (record { chain = kept.chain; progress = kept.progress; fresh = kept.fresh }) l
              (record {
                numbered = refl;
                affordable = one;
                small = subst (λ p. length p.plan.steps ≤ max_adaptive_plan_steps) same small;
                accepted =
                    subst
                      (λ p.
                        IsAccepted runtime.registry allowed_ids p.plan.steps p.topological_step_ids)
                      same acc;
                executed = subst (λ p. IsExecuted p s.remaining default_policy execution) same done;
              })

      stopped :
          (s : Investigation Value) (reason : ContinuationReason)
          → IsKept s
          → length s.rounds + 1 ≤ limit
          → Explains limit reason s.rounds s.remaining
          → IsReturned (state_with reason s)
      stopped s reason kept l explained = record {
        chain = kept.chain;
        bounded = omega arith;
        reason = explained;
      }

      run_validated-Follows :
          (planned : PlannedInvestigation Value) (validation : PlanValidationResult Value)
          (s : Investigation Value)
          → IsKept s
          → length s.rounds + 1 ≤ limit
          → 1 ≤ s.remaining
          → length planned.plan.steps ≤ max_adaptive_plan_steps
          → IsJudged runtime.registry allowed_ids planned.plan validation
          → Holds
              (Follows (length s.rounds))
              (run_validated runtime (first + length s.rounds) planned validation s)
      unfolding run_validated Holds ◌>>=◌
      run_validated-Follows planned validation s kept l one small (inl (e, _)) =
          rw e (stopped s ContinuationReason.plan_validation_failure kept l (kept.progress, one, l))
      run_validated-Follows planned validation s kept l one small (inr (order, e, acc)) = rw e (
          run_plan-Follows planned (record { plan = planned.plan; topological_step_ids = order }) s
            kept l one small acc)

      stopped-Holds :
          (s : Investigation Value) (reason : ContinuationReason)
          → IsKept s
          → length s.rounds + 1 ≤ limit
          → Explains limit reason s.rounds s.remaining
          → Holds (Follows (length s.rounds)) (ok (some reason, s))
      unfolding Holds
      stopped-Holds s reason kept l explained = stopped s reason kept l explained

      run_answer-Follows :
          (answer : PlannerAnswer Value) (s : Investigation Value)
          → IsKept s
          → length s.rounds + 1 ≤ limit
          → 1 ≤ s.remaining
          → Holds
              (Follows (length s.rounds))
              (run_answer runtime (first + length s.rounds) answer s)
      unfolding run_answer
      run_answer-Follows PlannerAnswer.failed s kept l one =
          stopped-Holds s ContinuationReason.planner_failure kept l (kept.progress, one, l)
      run_answer-Follows (PlannerAnswer.planned planned) s kept l one =
          Holds-if (Follows (length s.rounds))
            (ltb max_adaptive_plan_steps (length planned.plan.steps)) _ _
            (λ e.
              stopped-Holds s ContinuationReason.plan_validation_failure kept l
                (kept.progress, one, l))
            (λ e. Holds-bind _ _ _ λ validation v.
              let (result, found, judged) =
                validate-IsJudged runtime.registry allowed_ids planned.plan in
              run_validated-Follows planned validation s kept l one (ground (arith, e)) (
                subst (IsJudged runtime.registry allowed_ids planned.plan)
                  (some_inj (sym found ∙ need_found _ _ _ v)) judged))

      pub run_round-Follows :
          (s : Investigation Value)
          → IsKept s
          → length s.rounds + 1 ≤ limit
          → 1 ≤ s.remaining
          → Holds (Follows (length s.rounds)) (run_round runtime (first + length s.rounds) s)
      unfolding run_round
      run_round-Follows s kept l one =
          Holds-bind _ _ _ λ input e. run_answer-Follows (runtime.plan input) s kept l one
