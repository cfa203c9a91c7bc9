-- ===== src/Investigations/Execution/Outcome.antt =====
-- investigations/execution.py: the state that `execute` returns.
use promptql.Prelude.{
  ℕ, ◌≤◌, ◌≡◌, refl, sym, ◌∙◌, String, true, false, some, List, [], ◌∷◌, ◌++◌, All, All-imp, arith,
  ◌==◌, eq_iff, append_assoc, append-nil, subst, if◌then◌else◌,
}
use promptql.Prelude.Dict.{Dict, Key, text_key, lookup, insert, lookup-insert}
use promptql.Investigations.Plan.{PlanStep, known, unique}
use promptql.Investigations.Execution.State.{
  ExecutionStepStatus, ExecutionTerminationReason, RetryPolicy, Result, ok, err, ExecutionStepState,
  StepStates, remaining_tool_calls, state_of,
}
use promptql.Investigations.Execution.Locals.{
  AgentExecutor, Execution, Next, pending_states, after_step,
}
use promptql.Investigations.Execution.Executor.{run_steps}
use promptql.Investigations.Execution.Settling.{Waiting}
use promptql.Investigations.Execution.Progress.{Distinct}
use promptql.Investigations.Execution.Safety.{Holds, Holds-bind, Settling, Running, After}
use promptql.Investigations.Execution.Iteration.{run_step-After}

pub Distinct-unique : (ids : List String) → unique ids ≡ true → Distinct ids
Distinct-unique [] h = tt
Distinct-unique (x ∷ ids) h = (apart ids (ground arith), Distinct-unique ids (ground arith))
  where
    apart : (ys : List String) → known x ys ≡ false → All (λ y. (x == y) ≡ false) ys
    apart [] k = tt
    apart (y ∷ ys) k = (ground (arith, eq_iff x y, eq_iff y x), apart ys (ground arith))

pub lookup-pending :
    (ids : List String) (states : StepStates) (j : String)
    → lookup j (pending_states states ids)
      ≡ (if known j ids then some (state_of j ExecutionStepStatus.pending) else lookup j states)
unfolding pending_states
lookup-pending [] states j = refl
lookup-pending (id ∷ ids) states j = ground (
  arith,
  lookup-pending ids (insert id (state_of id ExecutionStepStatus.pending) states) j,
  lookup-insert id j (state_of id ExecutionStepStatus.pending) states,
  eq_iff id j,
)

known_there :
    (x : String) (ids ys : List String)
    → All (λ j. known j ids ≡ true) ys
    → All (λ j. known j (x ∷ ids) ≡ true) ys
known_there x ids = All-imp λ j h. ground arith

pub known_all : (ids : List String) → All (λ j. known j ids ≡ true) ids
known_all [] = tt
known_all (x ∷ ids) = (ground (arith, eq_iff x x), known_there x ids ids (known_all ids))

pub Waiting-pending :
    (ids : List String) (j : String) → known j ids ≡ true → Waiting (pending_states [] ids) j
Waiting-pending ids j h = lookup-pending ids [] j ∙ rw h refl

pub inside-pending :
    (ids : List String) (j : String) (state : ExecutionStepState)
    → lookup j (pending_states [] ids) ≡ some state
    → known j ids ≡ true
unfolding lookup
inside-pending ids j state e = ground (arith, lookup-pending ids [] j)

pub Holds-ok : {A : Type 0} (P : A → Type 0) (m : Result A) (a : A) → Holds P m → m ≡ ok a → P a
unfolding Holds
Holds-ok P (ok b) a h e = subst P (ok_inj e) h
  where
    ok_inj : ok b ≡ ok a → b ≡ a
    ok_inj e = cc
Holds-ok P (err x) a h e = cc

module _ {Value Facts : Type 0} ⦃key : Key Value⦄ (executor : AgentExecutor Value Facts)
    (steps : Dict String (PlanStep Value)) (policy : RetryPolicy) (limit : ℕ) (order : List String)
    (m : 1 ≤ policy.max_attempts) where
  -- the loop has ended
  abbrev pub Final : List String → Execution Value Facts → Type 0
  Final ids s =
      Settling steps policy limit order ids [] s
      × (s.termination_reason ≡ ExecutionTerminationReason.budget_exhausted
          → remaining_tool_calls s.budget ≡ 0)

  after_step-Final :
      (done rest : List String) (id : String)
      (more : Execution Value Facts → Result (Execution Value Facts))
      → ((s : Execution Value Facts)
          → Running steps policy limit order (done ++ id ∷ []) rest s
          → Holds (Final ((done ++ id ∷ []) ++ rest)) (more s))
      → (a : Next × Execution Value Facts) → After steps policy limit order done id rest a
      → Holds (Final (done ++ id ∷ rest)) (after_step more a)
  unfolding Holds
  after_step-Final done rest id more f (Next.go_on, s) h =
      rw (sym (append_assoc done (id ∷ []) rest)) (f s h)
  after_step-Final done rest id more f (Next.stop, s) (p, r, z) = (p, λ _. z)

  pub run_steps-Final :
      (ids done : List String) (s : Execution Value Facts)
      → Distinct ids
      → Running steps policy limit order done ids s
      → Holds (Final (done ++ ids)) (run_steps executor steps policy ids s)
  unfolding run_steps Holds
  run_steps-Final [] done s d (p, r) = (rw append-nil p, λ e. cc)
  run_steps-Final (id ∷ ids) done s d r = Holds-bind _ _ _ λ a e.
      after_step-Final done ids id _ (λ s' r'. run_steps-Final ids (done ++ id ∷ []) s' d.1 r') a
        (Holds-ok _ _ a (run_step-After steps policy limit order done ids id d executor s m r) e)
