-- ===== src/Tests/Execution.antt =====
-- investigations/execution.py: a plan of three steps. The first call is refused once for its rate
-- and then observes a commit, the second step fails, the third is blocked by that.
use promptql.Prelude.{
  ℕ, ◌≡◌, refl, String, true, Option, none, some, List, [], ◌∷◌, map, arith, All, nat_eq,
  Bool-cases, inl, inr, if◌then◌else◌,
}
use promptql.Prelude.Dict.{text_key, lookup, insert}
use promptql.Investigations.Tools.{
  ToolOutcome, ToolFailureCode, ToolFailure, ToolResult, ToolDefinition, get, failure_value,
}
use promptql.Investigations.Plan.{PlanArgumentValue, PlanArgument, PlanStep, ValidatedPlan, known}
use promptql.Investigations.Evidence.{Evidence, put, put_all, get_many}
use promptql.Investigations.Execution.State.{
  ExecutionStepStatus, ExecutionBlockReason, ExecutionTerminationReason, RetryPolicy,
  ExecutionStepState, MissingInformationKind, ok, ◌>>=◌, deduplicate_evidence, merge_evidence,
  any_unfinished, resolve_arguments, resolve_from, block_remaining_steps, consume_attempt,
  delay_after_failure, field_values, missing_source, output_values, runtime_outputs,
}
use promptql.Investigations.Execution.Locals.{
  AgentExecutor, Outside, Invocation, InvestigationExecutionState, can_retry, fail_step, gather,
  pending_states, index_steps,
}
use promptql.Investigations.Execution.Executor.{
  invoke_with_retries, execute, facts_for, run_steps, run_step, start_step, call_tool, end_step,
  invoke_from, refreshed_facts, succeed_step,
}
use promptql.Investigations.Execution.Retries.{IsInvocation, invoke_with_retries-IsInvocation}
use promptql.Investigations.Execution.Guarantee.{IsExecuted, execute-IsExecuted}
use promptql.Investigations.Execution.Returns.{Fits, IsRunnable}
use promptql.Investigations.Execution.Termination.{execute-returns}

abbrev failing : ToolFailureCode → ToolResult × List (Evidence String)
failing code = (
  record {
    tool_id = "get_commit";
    outcome = ToolOutcome.failed;
    evidence_ids = [];
    failure = some (record { code = code; message = "no answer" });
  },
  [],
)

abbrev commit : Evidence String
commit = record { evidence_id = "commit:abc"; content = λ field. some "abc" }

abbrev observing : ToolResult × List (Evidence String)
observing = (
  record {
    tool_id = "get_commit";
    outcome = ToolOutcome.observed;
    evidence_ids = "commit:abc" ∷ [];
    failure = none;
  },
  commit ∷ [],
)

abbrev pub answers : ℕ → ToolResult × List (Evidence String)
answers n =
    if nat_eq n 0
    then failing ToolFailureCode.rate_limited
    else (if nat_eq n 1 then observing else failing ToolFailureCode.not_found)

abbrev pub definition : ToolDefinition String
definition = record {
  tool_id = "get_commit";
  validate_arguments = λ arguments. some arguments;
  output_fields = "commit_sha" ∷ [];
}

abbrev executor : AgentExecutor String (List (Evidence String))
executor = record {
  registry = ("get_commit", definition) ∷ [];
  invoke = λ n tool_id arguments. answers n;
  derive_facts = λ es. es;
}

abbrev step : String → List String → List (PlanArgument String) → PlanStep String
step step_id depends_on arguments = record {
  step_id = step_id;
  tool_id = "get_commit";
  arguments = arguments;
  depends_on = depends_on;
  reason = "find the change";
}

abbrev argument : PlanArgumentValue String → PlanArgument String
argument value = record { name = "commit_sha"; value = value }

abbrev plan : ValidatedPlan String
plan = record {
  plan = record {
    steps =
        step "s1" [] (argument (PlanArgumentValue.literal "abc") ∷ [])
        ∷ step "s2" ("s1" ∷ [])
            (argument (PlanArgumentValue.step_output_ref "s1" "commit_sha") ∷ [])
        ∷ step "s3" ("s2" ∷ []) []
        ∷ [];
  };
  topological_step_ids = "s1" ∷ "s2" ∷ "s3" ∷ [];
}

abbrev policy : RetryPolicy
policy = record { max_attempts = 3; initial_backoff = 1; backoff_multiplier = 2 }

abbrev pub nothing : Outside String
nothing = record { store = []; calls = 0; slept = [] }

invoke_with_retries-IsInvocation_example :
    (call : Invocation String) × (invoke_with_retries executor "get_commit" [] policy
        (record { max_tool_calls = 4; used_tool_calls = 1 })
        nothing
      ≡ ok call)
    × IsInvocation policy 0 (record { max_tool_calls = 4; used_tool_calls = 1 }) nothing call
invoke_with_retries-IsInvocation_example =
    invoke_with_retries-IsInvocation executor "get_commit" [] policy
      (record { max_tool_calls = 4; used_tool_calls = 1 }) nothing (omega arith) (omega arith)

abbrev state :
    String
    → ExecutionStepStatus
    → ℕ
    → Option ToolResult
    → Option ToolFailure
    → Option ExecutionBlockReason
    → ExecutionStepState
state step_id status attempts result failure reason = record {
  step_id = step_id;
  status = status;
  attempts = attempts;
  tool_result = result;
  failure = failure;
  block_reason = reason;
}

abbrev missing : ToolResult
missing = (failing ToolFailureCode.not_found).0

abbrev executed : InvestigationExecutionState String (List (Evidence String))
executed = record {
  validated_plan = plan;
  step_states =
      state "s1" ExecutionStepStatus.succeeded 2 (some (observing.0)) none none
      ∷ state "s2" ExecutionStepStatus.failed 1 (some missing) missing.failure none
      ∷ state "s3" ExecutionStepStatus.blocked 0 none none
          (some ExecutionBlockReason.dependency_failed)
      ∷ [];
  runtime_outputs = ("s1", ("commit_sha", "abc") ∷ []) ∷ [];
  evidence = "commit:abc" ∷ [];
  facts = commit ∷ [];
  missing_information =
      (record {
        missing_information_id = "missing:s2:not_found";
        kind = MissingInformationKind.source_data_unavailable;
        detail = some "A planned tool call did not return usable evidence.";
        related_fact_ids = [];
        related_hypothesis_ids = [];
      })
      ∷ [];
  budget = record { max_tool_calls = 5; used_tool_calls = 3 };
  termination_reason = ExecutionTerminationReason.completed;
}

abbrev after : Outside String
after = record { store = ("commit:abc", commit) ∷ []; calls = 3; slept = 1 ∷ [] }

execute_run : execute executor plan 5 [] policy nothing ≡ ok (executed, after)
unfolding execute ◌>>=◌ facts_for get_many deduplicate_evidence merge_evidence run_steps run_step
    lookup index_steps insert start_step any_unfinished resolve_arguments resolve_from call_tool get
    invoke_with_retries put put_all end_step invoke_from refreshed_facts succeed_step can_retry
    fail_step gather pending_states block_remaining_steps consume_attempt delay_after_failure
    field_values missing_source output_values runtime_outputs failure_value
execute_run = refl

execute-IsExecuted_example : IsExecuted plan 5 policy executed
execute-IsExecuted_example =
    execute-IsExecuted executor plan 5 [] policy nothing after executed (omega arith) refl
      execute_run

fits :
    (id : String) (depends_on : List String) (arguments : List (PlanArgument String))
    → All (λ j. known j ("s1" ∷ "s2" ∷ "s3" ∷ []) ≡ true) depends_on
    → Fits executor [] (step id depends_on arguments) ("s1" ∷ "s2" ∷ "s3" ∷ [])
unfolding get lookup
fits id depends_on arguments h = record {
  depends = h;
  definition = definition;
  registered = refl;
  accepts = λ outputs resolved drawn e. (resolved, refl);
}

pub answers_cite :
    (n : ℕ)
    → All
        (λ id. known id (map (λ e. e.evidence_id) (answers n).1) ≡ true)
        (answers n).0.evidence_ids
answers_cite n = elim (Bool-cases (nat_eq n 0)) [
  | inl z ↦ rw z tt
  | inr z ↦ rw z (elim (Bool-cases (nat_eq n 1)) [ inl o ↦ rw o (refl, tt) | inr o ↦ rw o tt ])
]

plan-IsRunnable : IsRunnable executor plan [] nothing
unfolding index_steps lookup insert
plan-IsRunnable = record {
  steps = (
    (_, refl, fits "s1" [] _ tt),
    (
      (_, refl, fits "s2" ("s1" ∷ []) _ (refl, tt)),
      ((_, refl, fits "s3" ("s2" ∷ []) _ (refl, tt)), tt),
    ),
  );
  cites = λ n tool_id arguments. answers_cite n;
  known_evidence = tt;
}

execute-returns_example :
    (r : InvestigationExecutionState String (List (Evidence String)) × Outside String) × (execute
        executor plan 2 [] policy nothing
      ≡ ok r)
execute-returns_example =
    execute-returns executor plan 2 [] policy nothing (omega arith) plan-IsRunnable
