-- ===== src/Tests/Replanning.antt =====
-- investigations/replanning.py: two rounds of the same plan. The first observes a commit, after a
-- call that was refused for its rate; the second finds nothing new. The tool
-- is strict, and the second step of the plan takes an output of the first.
use promptql.Prelude.{
  ℕ, ◌≡◌, refl, String, true, false, Option, none, some, List, [], ◌∷◌, length, nat_eq, Memᴰ, ◌==◌,
  not, ◌&&◌, subst, All, Bool-cases, inl, inr, arith, ap, sym, ◌∙◌, if◌then◌else◌,
}
use promptql.Prelude.Dict.{Dict, text_key, lookup, insert}
use promptql.Prelude.Codes.{codes_leb, text_leb}
use promptql.Prelude.Sorting.{insert_by, sorted_by}
use promptql.Investigations.Tools.{ToolDefinition, get, failure_value}
use promptql.Investigations.Plan.{PlanStep, PlanArgumentValue, InvestigationPlan}
use promptql.Investigations.Evidence.{Evidence, put, put_all, get_many}
use promptql.Investigations.Execution.State.{
  Result, ok, err, ◌>>=◌, deduplicate_evidence, merge_evidence, any_unfinished, resolve_arguments,
  resolve_from, block_remaining_steps, consume_attempt, delay_after_failure, field_values,
  missing_source, output_values, runtime_outputs,
}
use promptql.Investigations.Execution.Locals.{
  can_retry, fail_step, gather, pending_states, index_steps,
}
use promptql.Investigations.Execution.Executor.{
  invoke_with_retries, execute, facts_for, run_steps, run_step, start_step, call_tool, end_step,
  invoke_from, refreshed_facts, succeed_step,
}
use promptql.Investigations.Validation.Contracts.{
  Annotation, Members, Contract, annotation_is_compatible,
}
use promptql.Investigations.Validation.Order.{
  add_dependents, add_degrees, first_graph, first_degrees, push, sort, push_ready, release,
  order_from, topological_order, steps_by_id, step_position, step_edges, plan_edges,
}
use promptql.Investigations.Validation.Validator.{
  duplicate_failures, plan_dependency_failures, dependency_failures, literal_values, tool_failures,
  definitions_by_step_id,
}
use promptql.Investigations.Validation.Arguments.{
  validate_reference, argument_failures, required_failures, steps_failures, plan_failures, validate,
}
use promptql.Investigations.Replanning.Models.{
  PlannedInvestigation, ContinuationReason, PlannerAnswer, AdaptiveInvestigationState,
  AdaptiveInvestigationRuntime, Investigation,
}
use promptql.Investigations.Replanning.Context.{remembered_patterns, build, planner_input}
use promptql.Investigations.Replanning.Deltas.{
  difference, set_missing, set_missing_defaults, merge_missing_information, tool_of, summaries,
}
use promptql.Investigations.Replanning.Rounds.{
  notify, end_round, run_plan, run_validated, run_answer, run_round, run_rounds, investigate,
}
use promptql.Investigations.Replanning.Runnable.{IsTaken, IsAble, IsQuiet}
use promptql.Investigations.Replanning.Total.{investigate-returns}
use promptql.Investigations.Execution.Drawn.{AreDrawn}
use promptql.Tests.Execution.{answers, answers_cite, nothing}

-- a commit is asked for by its text alone
abbrev strict : Dict String String → Option (Dict String String)
strict [] = none
strict ((name, value) ∷ []) =
    if name == "commit_sha" && not (value == "") then some ((name, value) ∷ []) else none
strict (a ∷ b ∷ arguments) = none

abbrev definition : ToolDefinition String
definition = record {
  tool_id = "get_commit";
  validate_arguments = strict;
  output_fields = "commit_sha" ∷ [];
}

abbrev contract : Contract String
contract = record {
  definition = definition;
  input_fields =
      (
        "commit_sha",
        record {
          is_required = true;
          annotation_of = Annotation.annotation "str" Members.no_member;
          accepts = λ v. not (v == "");
        },
      )
      ∷ [];
  output_fields = ("commit_sha", Annotation.annotation "str" Members.no_member) ∷ [];
}

abbrev find : PlanStep String
find = record {
  step_id = "find";
  tool_id = "get_commit";
  arguments = record { name = "commit_sha"; value = PlanArgumentValue.literal "abc" } ∷ [];
  depends_on = [];
  reason = "find the change";
}

abbrev again : PlanStep String
again = record {
  step_id = "again";
  tool_id = "get_commit";
  arguments =
      record { name = "commit_sha"; value = PlanArgumentValue.step_output_ref "find" "commit_sha" }
      ∷ [];
  depends_on = "find" ∷ [];
  reason = "read what was found";
}

abbrev plan : InvestigationPlan String
plan = record { steps = find ∷ again ∷ [] }

abbrev answer : PlannedInvestigation String
answer = record {
  plan = plan;
  metadata = record {
    task = "planning";
    provider = "p";
    model = "m";
    requested_model = none;
    resolved_model = none;
    prompt_id = "planner";
    prompt_version = "1";
    token_usage = none;
  };
}

abbrev pub runtime : AdaptiveInvestigationRuntime String
runtime = record {
  plan = λ input. PlannerAnswer.planned answer;
  registry = ("get_commit", contract) ∷ [];
  executor = record {
    registry = ("get_commit", definition) ∷ [];
    invoke = λ n tool_id arguments. answers n;
    derive_facts = λ es. [];
  };
  investigation_goal = "why";
  allowed_tools = contract ∷ [];
  prior_result_summary = none;
  request_context = none;
  fact_recurrence = none;
  raises = λ notice. false;
}

-- the reason, the rounds, the calls that are left, and the notices
abbrev report :
    Result (AdaptiveInvestigationState String × Investigation String)
    → Option (ContinuationReason × ℕ × ℕ × ℕ)
report (ok (state, s)) =
    some
      (state.continuation_reason, length state.rounds, state.remaining_tool_calls, length s.notices)
report (err e) = none

investigate_test :
    report (investigate runtime 10 [] [] 0 nothing) ≡ some (ContinuationReason.no_progress, 2, 6, 4)
unfolding investigate run_rounds run_round run_answer run_validated run_plan end_round notify
    planner_input build remembered_patterns difference set_missing set_missing_defaults
    merge_missing_information tool_of summaries sorted_by insert_by text_leb codes_leb execute ◌>>=◌
    facts_for get_many deduplicate_evidence merge_evidence run_steps run_step lookup index_steps
    insert start_step any_unfinished resolve_arguments resolve_from call_tool get
    invoke_with_retries put put_all end_step invoke_from refreshed_facts succeed_step can_retry
    fail_step gather pending_states block_remaining_steps consume_attempt delay_after_failure
    field_values missing_source output_values runtime_outputs failure_value add_dependents
    add_degrees first_graph first_degrees push sort push_ready release order_from topological_order
    steps_by_id step_position step_edges plan_edges annotation_is_compatible duplicate_failures
    plan_dependency_failures dependency_failures literal_values tool_failures definitions_by_step_id
    validate_reference argument_failures required_failures steps_failures plan_failures validate
investigate_test = refl

registered :
    (x : String) (c : Contract String)
    → lookup x runtime.registry ≡ some c
    → (lookup x runtime.executor.registry ≡ some definition) × (contract ≡ c)
unfolding lookup
registered x c h = elim (Bool-cases ("get_commit" == x)) [
  | inl e ↦ (rw e refl, found e)
  | inr e ↦ ground (arith, e)
]
  where
    some_inj : some contract ≡ some c → contract ≡ c
    some_inj e = cc

    found : ("get_commit" == x) ≡ true → contract ≡ c
    found e = some_inj (sym (ap (λ b. if b then some contract else none) e) ∙ h)

planned_inj :
    (a b : PlannedInvestigation String) → PlannerAnswer.planned a ≡ PlannerAnswer.planned b → a ≡ b
planned_inj a b e = cc

-- all that is obtained is the commit
obtained_lem :
    (e : Evidence String) (es : List (Evidence String))
    → Memᴰ e es
    → All (λ x. x.content "commit_sha" ≡ some "abc") es
    → e.content "commit_sha" ≡ some "abc"
obtained_lem e [] m h = elim m [ ]
obtained_lem e (x ∷ es) (Memᴰ.head same) h = rw same h.0
obtained_lem e (x ∷ es) (Memᴰ.tail m) h = obtained_lem e es m h.1

answers_lem : (n : ℕ) → All (λ x. x.content "commit_sha" ≡ some "abc") (answers n).1
answers_lem n = elim (Bool-cases (nat_eq n 0)) [
  | inl z ↦ rw z tt
  | inr z ↦ rw z (elim (Bool-cases (nat_eq n 1)) [ inl o ↦ rw o (refl, tt) | inr o ↦ rw o tt ])
]

nothing_found : (id : String) (e : Evidence String) → lookup id [] ≡ some e → ⊥
unfolding lookup
nothing_found id e h = ground (arith, h)

text_inj : (a b : String) → some a ≡ some b → a ≡ b
text_inj a b h = cc

arguments_inj : (a b : Dict String String) → some a ≡ some b → a ≡ b
arguments_inj a b h = cc

no_arguments : (a : Dict String String) → none ≡ some a → ⊥
no_arguments a h = cc

drawn_lem :
    (outputs : Dict String (Dict String String)) (source : Dict String String) (value : String)
    → AreDrawn runtime.executor [] outputs
    → lookup "find" outputs ≡ some source
    → lookup "commit_sha" source ≡ some value
    → value ≡ "abc"
drawn_lem outputs source value drawn f l =
    let (e, obtained, content) = drawn "find" source f "commit_sha" value l in
    elim obtained [
      | inl (id, found) ↦ absurd (nothing_found id e found)
      | inr (n, tool_id, arguments, m) ↦
          text_inj value "abc" (sym content ∙ obtained_lem e (answers n).1 m (answers_lem n))
    ]

-- what the arguments of `again` resolve to
abbrev named : Option String → Option (Dict String String)
named none = none
named (some value) = some (("commit_sha", value) ∷ [])

abbrev asked : Option (Dict String String) → Option String
asked none = none
asked (some source) = lookup "commit_sha" source

again_names :
    (outputs : Dict String (Dict String String))
    → resolve_arguments again outputs ≡ named (asked (lookup "find" outputs))
unfolding resolve_arguments resolve_from insert
again_names outputs = by_cases (lookup "find" outputs) refl
  where
    by_value :
        (source : Dict String String) (found : Option String)
        → lookup "find" outputs ≡ some source
        → lookup "commit_sha" source ≡ found
        → resolve_arguments again outputs ≡ named found
    by_value source none f l = ground (arith, f, l)
    by_value source (some value) f l = ground (arith, f, l)

    by_cases :
        (source : Option (Dict String String))
        → lookup "find" outputs ≡ source
        → resolve_arguments again outputs ≡ named (asked source)
    by_cases none f = ground (arith, f)
    by_cases (some source) f = by_value source (lookup "commit_sha" source) f refl

resolve_lem :
    (arguments : Dict String String) (found : Option String)
    → ((value : String) → found ≡ some value → value ≡ "abc")
    → named found ≡ some arguments
    → arguments ≡ ("commit_sha", "abc") ∷ []
resolve_lem arguments none h e = absurd (no_arguments arguments e)
resolve_lem arguments (some value) h e =
    sym (arguments_inj _ _ e) ∙ ap (λ v. ("commit_sha", v) ∷ []) (h value refl)

again_lem :
    (outputs : Dict String (Dict String String)) (arguments : Dict String String)
    (source : Option (Dict String String))
    → lookup "find" outputs ≡ source
    → AreDrawn runtime.executor [] outputs
    → named (asked source) ≡ some arguments
    → arguments ≡ ("commit_sha", "abc") ∷ []
again_lem outputs arguments none f drawn e = absurd (no_arguments arguments e)
again_lem outputs arguments (some source) f drawn e =
    resolve_lem arguments (lookup "commit_sha" source)
      (λ value l. drawn_lem outputs source value drawn f l) e

again-IsTaken : IsTaken runtime [] again
again-IsTaken order c sound found r outputs arguments drawn e =
    let (_, same) = registered "get_commit" c found in
    (
      ("commit_sha", "abc") ∷ [],
      ap (λ k. k.definition.validate_arguments arguments) (sym same)
          ∙ ap strict (
              again_lem outputs arguments (lookup "find" outputs) refl drawn
                (sym (again_names outputs) ∙ e)),
    )

pub runtime-IsAble : IsAble runtime []
unfolding get
runtime-IsAble = record {
  tools = λ x c h. let (e, same) = registered x c h in e ∙ ap (λ k. some k.definition) same;
  takes = λ input planned e.
      subst (λ p. All (IsTaken runtime []) p.plan.steps) (planned_inj answer planned e)
        ((λ order c sound found r. ground (arith, r)), (again-IsTaken, tt));
  cites = λ n tool_id arguments. answers_cite n;
  some_tool = refl;
}

runtime-IsQuiet : IsQuiet runtime 10
runtime-IsQuiet notice store readable = refl

investigate-returns_example :
    (r : AdaptiveInvestigationState String × Investigation String) × (investigate runtime 10 [] [] 0
        nothing
      ≡ ok r)
investigate-returns_example =
    investigate-returns runtime nothing runtime-IsAble 10 runtime-IsQuiet [] [] 0 tt
