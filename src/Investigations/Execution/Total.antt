-- ===== src/Investigations/Execution/Total.antt =====
-- investigations/execution.py: `execute` returns.
use promptql.Prelude.{refl, ◌≡◌, some, arith, String, List, [], All, inl, inr, Bool-cases}
use promptql.Prelude.Dict.{Dict, Key, text_key, lookup}
use promptql.Investigations.Tools.{ToolOutcome, ToolDefinition}
use promptql.Investigations.Evidence.{EvidenceStore}
use promptql.Investigations.Execution.State.{
  ExecutionError, merge_evidence, output_values, outputs_for, runtime_outputs,
}
use promptql.Investigations.Execution.Locals.{
  AgentExecutor, Outside, Invocation, Execution, Next, same_ids, fail_step,
}
use promptql.Investigations.Execution.Executor.{facts_for, refreshed_facts, succeed_step}
use promptql.Investigations.Execution.Storage.{Stored, get_many_found, merge_evidence-All}
use promptql.Investigations.Execution.Drawn.{
  IsContent, IsObtained, AllObtained, AreDrawn, get_many-All, output_values-All, insert-AreDrawn,
}
use promptql.Investigations.Execution.Returns.{
  Returns, Returns-bind, Returns-if, Returns-need, Covers, insert-Covers, block-Covers,
}

module _ {Value Facts : Type 0} (executor : AgentExecutor Value Facts)
    (initial : EvidenceStore Value) where
  -- every step has a state, the evidence is in the store, and the store and the outputs hold only
  -- what they may come to hold
  pub record Ready (order : List String) (s : Execution Value Facts) : Type 0 where
    pub covers : Covers order s.step_states
    pub stored : All (Stored s.outside.store) s.evidence
    pub obtained : AllObtained executor initial s.outside.store
    pub drawn : AreDrawn executor initial s.runtime_outputs

  abbrev pub ReadyNext : List String → Next × Execution Value Facts → Type 0
  ReadyNext order (next, s) = Ready order s

  pub fail_step-Ready :
      (order rest : List String) (id : String) (call : Invocation Value) (s : Execution Value Facts)
      → Ready order s
      → ReadyNext order (fail_step id rest call s)
  unfolding fail_step
  fail_step-Ready order rest id call s h = elim (Bool-cases call.budget_exhausted) [
    | inl e ↦ rw e (record {
      covers = block-Covers order rest _ (insert-Covers order s.step_states id _ h.covers);
      stored = h.stored;
      obtained = h.obtained;
      drawn = h.drawn;
    })
    | inr e ↦ rw e (record {
      covers = insert-Covers order s.step_states id _ h.covers;
      stored = h.stored;
      obtained = h.obtained;
      drawn = h.drawn;
    })
  ]

module _ {Value Facts : Type 0} where
  module _ (executor : AgentExecutor Value Facts) where
    pub facts_for-Returns :
        (evidence : List String) (outside : Outside Value)
        → All (Stored outside.store) evidence
        → Returns (λ _. Unit) (facts_for executor evidence outside)
    unfolding facts_for
    facts_for-Returns evidence outside h =
        let (es, e) = get_many_found outside.store evidence h in
        Returns-bind (λ _. Unit) (λ _. Unit) _ _
          (Returns-need (λ _. Unit) ExecutionError.key_error _ es e tt)
          λ found u. (executor.derive_facts found, refl, tt)

    refreshed_facts-Returns :
        (merged evidence : List String) (facts : Facts) (outside : Outside Value)
        → All (Stored outside.store) merged
        → Returns (λ _. Unit) (refreshed_facts executor merged evidence facts outside)
    unfolding refreshed_facts
    refreshed_facts-Returns merged evidence facts outside h =
        Returns-if (λ _. Unit) (same_ids merged evidence) _ _ (λ e. (facts, refl, tt))
          (λ e. facts_for-Returns merged outside h)

  module _ (executor : AgentExecutor Value Facts) (initial : EvidenceStore Value) where
    module _ ⦃key : Key Value⦄ where
      abbrev IsDrawn : Dict String Value → Type 0
      IsDrawn source =
          (field : String) (value : Value)
          → lookup field source ≡ some value
          → IsContent (IsObtained executor initial) field value

      IsDrawn-nil : IsDrawn []
      unfolding lookup
      IsDrawn-nil field value found = ground (arith, found)

      outputs_for-Returns :
          (outcome : ToolOutcome) (fields ids : List String) (store : EvidenceStore Value)
          → All (Stored store) ids
          → AllObtained executor initial store
          → Returns IsDrawn (outputs_for outcome fields ids store)
      outputs_for-Returns ToolOutcome.observed fields ids store h o =
          let (es, e) = get_many_found store ids h in
          Returns-bind (All (IsObtained executor initial)) IsDrawn _ _
            (Returns-need (All (IsObtained executor initial)) ExecutionError.key_error _ es e
              (get_many-All (IsObtained executor initial) store ids es o e))
            λ found all. (
              output_values fields found,
              refl,
              output_values-All (IsObtained executor initial) fields found all,
            )
      outputs_for-Returns _ fields ids store h o = ([], refl, IsDrawn-nil)

      pub succeed_step-Returns :
          (order : List String) (id : String) (definition : ToolDefinition Value)
          (call : Invocation Value) (s : Execution Value Facts)
          → Ready executor initial order s
          → All (Stored s.outside.store) call.result.evidence_ids
          → Returns (ReadyNext executor initial order) (succeed_step executor id definition call s)
      unfolding succeed_step runtime_outputs
      succeed_step-Returns order id definition call s h c =
          let merged : All (Stored s.outside.store)
              (merge_evidence s.evidence call.result.evidence_ids) =
            merge_evidence-All (Stored s.outside.store) s.evidence call.result.evidence_ids h.stored
              c in
          Returns-bind (λ _. Unit) (ReadyNext executor initial order) _ _
            (refreshed_facts-Returns executor _ s.evidence s.facts s.outside merged)
            λ facts u.
              Returns-bind IsDrawn (ReadyNext executor initial order) _ _
                (outputs_for-Returns call.result.outcome definition.output_fields
                  call.result.evidence_ids s.outside.store c h.obtained)
                λ outputs drawn. (
                  _,
                  refl,
                  record {
                    covers = insert-Covers order s.step_states id _ h.covers;
                    stored = merged;
                    obtained = h.obtained;
                    drawn =
                        insert-AreDrawn executor initial s.runtime_outputs id outputs h.drawn drawn;
                  },
                )
