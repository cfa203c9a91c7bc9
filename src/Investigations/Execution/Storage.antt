-- ===== src/Investigations/Execution/Storage.antt =====
-- investigations/evidence_store.py and investigations/execution.py: evidence that was put stays.
use promptql.Prelude.{
  ℕ, zero, suc, ◌+◌, ◌≡◌, refl, String, Bool, true, false, Option, none, some, List, [], ◌∷◌, ◌++◌,
  map, All, All-imp, All-append, arith, is_some, inl, inr, Bool-cases, nat_eq, ◌==◌, eq_iff, subst,
}
use promptql.Prelude.Dict.{Dict, text_key, lookup, lookup-insert}
use promptql.Investigations.Plan.{known}
use promptql.Investigations.Evidence.{Evidence, EvidenceStore, put, put_all, get_many, cons_found}
use promptql.Investigations.Execution.State.{
  RetryPolicy, BudgetState, Result, ok, err, remaining_tool_calls, delay_after_failure,
  merge_evidence,
}
use promptql.Investigations.Execution.Locals.{
  AgentExecutor, Outside, Invocation, can_retry, called, asleep, invocation,
}
use promptql.Investigations.Execution.Executor.{invoke_from, invoke_with_retries}
use promptql.Investigations.Execution.Drawn.{AllObtained, called-AllObtained}
use promptql.Investigations.Execution.Safety.{Holds, Holds-bind, Holds-if}

module _ {Value : Type 0} where
  abbrev pub Stored : EvidenceStore Value → String → Type 0
  Stored store id = is_some (lookup id store) ≡ true

  put-Stored :
      (store : EvidenceStore Value) (e : Evidence Value) (id : String)
      → Stored store id
      → Stored (put store e) id
  unfolding put
  put-Stored store e id h = ground (arith, lookup-insert e.evidence_id id e store)

  put_here : (store : EvidenceStore Value) (e : Evidence Value) → Stored (put store e) e.evidence_id
  unfolding put
  put_here store e =
      ground (
        arith,
        lookup-insert e.evidence_id e.evidence_id e store,
        eq_iff e.evidence_id e.evidence_id,
      )

  pub put_all-Stored :
      (es : List (Evidence Value)) (store : EvidenceStore Value) (id : String)
      → Stored store id
      → Stored (put_all store es) id
  unfolding put_all
  put_all-Stored [] store id h = h
  put_all-Stored (e ∷ es) store id h = put_all-Stored es (put store e) id (put-Stored store e id h)

  put_all_here :
      (es : List (Evidence Value)) (store : EvidenceStore Value) (id : String)
      → known id (map (λ e. e.evidence_id) es) ≡ true
      → Stored (put_all store es) id
  unfolding put_all
  put_all_here [] store id k = cc
  put_all_here (e ∷ es) store id k = elim (Bool-cases (e.evidence_id == id)) [
    | inl same ↦
        put_all-Stored es (put store e) id
          (subst (Stored (put store e)) ((eq_iff e.evidence_id id).0 same) (put_here store e))
    | inr other ↦ put_all_here es (put store e) id (ground arith)
  ]

  pub get_many_found :
      (store : EvidenceStore Value) (ids : List String)
      → All (Stored store) ids
      → (es : List (Evidence Value)) × (get_many store ids ≡ some es)
  unfolding get_many
  get_many_found store [] h = ([], refl)
  get_many_found store (id ∷ ids) h =
      let (es, e) = get_many_found store ids h.1 in first (lookup id store) h.0 es e
    where
      first :
          (o : Option (Evidence Value))
          → is_some o ≡ true
          → (es : List (Evidence Value)) → get_many store ids ≡ some es
          → (all : List (Evidence Value)) × (cons_found o (get_many store ids) ≡ some all)
      first none k es e = absurd (nothing k)
        where
          nothing : false ≡ true → ⊥
          nothing k = cc
      first (some x) k es e = (x ∷ es, rw e refl)

pub merge_evidence-All :
    (P : String → Type 0) (ids incoming : List String)
    → All P ids
    → All P incoming
    → All P (merge_evidence ids incoming)
unfolding merge_evidence
merge_evidence-All P ids [] h k = h
merge_evidence-All P ids (id ∷ incoming) h k = elim (Bool-cases (known id ids)) [
  | inl old ↦ rw old (merge_evidence-All P ids incoming h k.1)
  | inr new ↦
      rw new (merge_evidence-All P (ids ++ id ∷ []) incoming (All-append P ids _ h (k.0, tt)) k.1)
]

module _ {A : Type 0} {P Q : A → Type 0} (f : (a : A) → P a → Q a) where
  Holds-imp : (m : Result A) → Holds P m → Holds Q m
  unfolding Holds
  Holds-imp (ok a) h = f a h
  Holds-imp (err e) h = tt

module _ {Value Facts : Type 0} (executor : AgentExecutor Value Facts)
    (honest : (n : ℕ) (tool_id : String) (arguments : Dict String Value)
      → let answer = executor.invoke n tool_id arguments in
        All (λ id. known id (map (λ e. e.evidence_id) answer.1) ≡ true) answer.0.evidence_ids) where
  -- the call keeps what was stored, its result cites what is stored, and the store holds only what
  -- it may come to hold
  abbrev pub Stores : Outside Value → Invocation Value → Type 0
  Stores outside call =
      ((id : String) → Stored outside.store id → Stored call.outside.store id)
      × All (Stored call.outside.store) call.result.evidence_ids
      × ((initial : EvidenceStore Value)
          → AllObtained executor initial outside.store
          → AllObtained executor initial call.outside.store)

  invoke_from-Stores :
      (rounds : ℕ) (tool_id : String) (arguments : Dict String Value) (policy : RetryPolicy)
      (tried : ℕ) (budget : BudgetState) (outside : Outside Value)
      → Holds
          (Stores outside)
          (invoke_from executor rounds tool_id arguments policy tried budget outside)
  unfolding invoke_from Holds
  invoke_from-Stores zero tool_id arguments policy tried budget outside = tt
  invoke_from-Stores (suc rounds) tool_id arguments policy tried budget outside =
      Holds-bind (Stores outside) _ _ λ budget' e.
        Holds-if (Stores outside)
          (can_retry (executor.invoke outside.calls tool_id arguments).0 (tried + 1) policy) _ _
          (λ h.
            Holds-if (Stores outside) (nat_eq (remaining_tool_calls budget') 0) _ _
              (λ z. here budget' true)
              (λ z.
                Holds-imp (later (delay_after_failure policy (tried + 1))) _
                  (invoke_from-Stores rounds tool_id arguments policy (tried + 1) budget' _)))
          (λ h. here budget' false)
    where
      here :
          (budget' : BudgetState) (exhausted : Bool)
          → let answer = executor.invoke outside.calls tool_id arguments in
            Stores outside
              (invocation answer.0 (tried + 1) budget' exhausted (called outside answer.1))
      here budget' exhausted =
          let answer = executor.invoke outside.calls tool_id arguments in
          (
            λ id s. put_all-Stored answer.1 outside.store id s,
            All-imp (λ id k. put_all_here answer.1 outside.store id k) answer.0.evidence_ids
                (honest outside.calls tool_id arguments),
            λ initial h.
                called-AllObtained executor initial outside.calls tool_id arguments outside.store h,
          )

      later :
          (delay : ℕ) (call : Invocation Value)
          → Stores
              (asleep (called outside (executor.invoke outside.calls tool_id arguments).1) delay)
              call
          → Stores outside call
      later delay call h = (
        λ id s. h.0 id (put_all-Stored _ outside.store id s),
        h.1,
        λ initial k.
            h.2 initial
              (called-AllObtained executor initial outside.calls tool_id arguments outside.store k),
      )

  pub invoke_with_retries-Stores :
      (tool_id : String) (arguments : Dict String Value) (policy : RetryPolicy)
      (budget : BudgetState) (outside : Outside Value)
      → Holds
          (Stores outside)
          (invoke_with_retries executor tool_id arguments policy budget outside)
  unfolding invoke_with_retries
  invoke_with_retries-Stores tool_id arguments policy budget outside =
      invoke_from-Stores policy.max_attempts tool_id arguments policy 0 budget outside
