-- ===== src/Investigations/Replanning/Promise.antt =====
-- investigations/replanning.py: what `investigate` promises of the state that it returns.
use promptql.Prelude.{
  ℕ, zero, suc, ◌+◌, ◌-◌, ◌≤◌, ◌≡◌, refl, sym, subst, String, Option, none, some, List, nat_eq,
  length, arith,
}
use promptql.Prelude.Dict.{Key}
use promptql.Investigations.Execution.State.{Result, ok, MissingInformation}
use promptql.Investigations.Execution.Locals.{Outside}
use promptql.Investigations.Execution.Safety.{Holds, Holds-bind, Holds-if}
use promptql.Investigations.Execution.Outcome.{Holds-ok}
use promptql.Investigations.Replanning.Models.{
  max_planning_rounds, ContinuationReason, AdaptiveInvestigationState, AdaptiveInvestigationRuntime,
  Investigation,
}
use promptql.Investigations.Replanning.Rounds.{
  state_with, run_round, go_on, run_rounds, investigate,
}
use promptql.Investigations.Replanning.Chain.{Explains}
use promptql.Investigations.Replanning.Kept.{
  IsKept, IsReturned, Returned, Follows, run_round-Follows,
}

module _ {Value : Type 0} ⦃key : Key Value⦄ (runtime : AdaptiveInvestigationRuntime Value)
    (budget first limit : ℕ) where
  go_on-IsReturned :
      (n : ℕ)
      (more : Investigation Value → Result (AdaptiveInvestigationState Value × Investigation Value))
      (a : Option ContinuationReason × Investigation Value)
      → Follows runtime budget first limit n a
      → ((s : Investigation Value)
          → IsKept runtime budget first limit s
          → length s.rounds ≡ n + 1
          → Holds (Returned runtime budget first limit) (more s))
      → Holds (Returned runtime budget first limit) (go_on runtime more a)
  unfolding Holds
  go_on-IsReturned n more (none, s) h f = f s h.0 h.1
  go_on-IsReturned n more (some reason, s) h f = h

  ended :
      (s : Investigation Value) (reason : ContinuationReason)
      → IsKept runtime budget first limit s
      → length s.rounds ≤ limit
      → Explains limit reason s.rounds s.remaining
      → Holds (Returned runtime budget first limit) (ok (state_with reason s, s))
  unfolding Holds
  ended s reason kept l explained = record { chain = kept.chain; bounded = l; reason = explained }

  run_rounds-IsReturned :
      (rounds number : ℕ) (s : Investigation Value)
      → number ≡ first + length s.rounds
      → rounds + length s.rounds ≡ limit
      → IsKept runtime budget first limit s
      → Holds (Returned runtime budget first limit) (run_rounds runtime rounds number s)
  unfolding run_rounds
  run_rounds-IsReturned zero number s n l kept =
      ended s ContinuationReason.max_planning_rounds_reached kept (omega arith)
        (kept.progress, omega arith)
  run_rounds-IsReturned (suc rounds) number s n l kept =
      Holds-if (Returned runtime budget first limit) (nat_eq s.remaining 0) _ _
        (λ e.
          ended s ContinuationReason.tool_call_budget_exhausted kept (omega arith)
            (kept.progress, ground (arith, e)))
        (λ e. Holds-bind _ _ _ λ a ran.
          go_on-IsReturned (length s.rounds) _ a
            (Holds-ok (Follows runtime budget first limit (length s.rounds)) _ a
              (subst
                (λ k.
                  Holds (Follows runtime budget first limit (length s.rounds))
                    (run_round runtime k s))
                (sym n)
                (run_round-Follows runtime budget first limit s kept (omega arith)
                  (ground (arith, e))))
              ran)
            (λ s' kept' grown.
              run_rounds-IsReturned rounds (number + 1) s' (omega arith) (omega arith) kept'))

module _ {Value : Type 0} ⦃key : Key Value⦄ (runtime : AdaptiveInvestigationRuntime Value) where
  pub investigate-IsReturned :
      (max_tool_calls : ℕ) (evidence : List String) (missing_information : List MissingInformation)
      (initial_rounds : ℕ) (outside : Outside Value) (state : AdaptiveInvestigationState Value)
      (after : Investigation Value)
      → investigate runtime max_tool_calls evidence missing_information initial_rounds outside
        ≡ ok (state, after)
      → IsReturned runtime max_tool_calls
          (initial_rounds + 1)
          (max_planning_rounds - initial_rounds)
          state
  unfolding investigate
  investigate-IsReturned max_tool_calls evidence missing_information initial_rounds outside state
        after e =
      let limit = max_planning_rounds - initial_rounds in
      Holds-ok (Returned runtime max_tool_calls (initial_rounds + 1) limit) _ (state, after)
        (Holds-bind _ _ _ λ facts found.
          run_rounds-IsReturned runtime max_tool_calls (initial_rounds + 1) limit limit
            (initial_rounds + 1) _ (omega arith) (omega arith)
            (record { chain = refl; progress = tt; fresh = refl }))
        e
