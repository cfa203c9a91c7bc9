-- ===== src/Lib.antt =====
-- The merge-readiness service: services/api/app.
--
-- A request names a pull request. The workflow (workflows/merge_readiness.py) creates a run, asks a
-- GitHub connector for the facts of the pull request and a Jira connector for the issue that it links,
-- has the policy (policy/evaluator.py) decide, and saves a snapshot of the run at every change through
-- a repository (runtime/repository.py). Runs and their steps obey the lifecycle of runtime/models.py
-- and runtime/state.py.
--
-- Apart from that, the investigation agent (investigations/) has a plan of tool calls checked and
-- put in topological order by `PlanValidator` (investigations/planning/validation.py) and run by
-- `AgentExecutor` (investigations/execution.py), in that order, with retries, under a budget.
-- `AdaptiveInvestigationRuntime` (investigations/replanning.py) asks a planner for such plans, round by
-- round. `InvestigationWorkflowService` (workflows/investigation.py) makes a run of such an
-- investigation, with follow-up questions under the same budget: it saves a snapshot at every callback,
-- has hypotheses and code findings proposed, validated and rendered, and ends the run as completed,
-- failed or cancelled. The facts derived from what the tools observe are indexed by the entities that they relate, and
-- `find_connecting_facts` (investigations/relationship_index.py) searches the index.
--
-- Files and code:
--   Prelude, Prelude/        what the Python code uses of its language: tests, tuples, texts, dicts
--   Connectors               connectors/models.py, the facts
--   Policy/Models            policy/models.py
--   Policy/Evaluation        policy/evaluator.py, `_record_evidence`, `_add_blocker`,
--                            `_add_missing_information`; the four lists as the state of a monad
--   Policy/Recording, Evaluator    policy/evaluator.py, `evaluate_merge_readiness`: `collect` is its
--                            body up to the decision, one action per block (the first records the
--                            GitHub evidence); `decide_by` is the decision
--   Policy/Expected          an independent table of what blocks a merge and of what cannot be told
--   Policy/Appends, Additions, Decision, Ready      the policy against that table
--   Policy/Support, Citations, Supported            citations of evidence
--   Policy/Remedies, Pairing                        actions for findings
--   Runtime/Models, State    runtime/models.py and runtime/state.py; an exception is `err`
--   Runtime/Lifecycle        about the two
--   Runtime/Repository       runtime/repository.py, `InMemoryRunRepository`
--   Runtime/Recurrence       runtime/repository.py, `InMemoryFactRecurrenceRepository`
--   Workflow/World           the answers of the outside, the saved snapshots, the telemetry events
--   Workflow/Recording, Service    workflows/merge_readiness.py, a function for each method; the
--                            branches of a `try` are the `end_*` functions, by what the call answered
--   Workflow/Endings, Ending                        how an execution ends
--   Workflow/Hoare, Steps, Snapshots                what it saves
--   Workflow/Verdict         the workflow with the policy that it has by default
--   Investigations/Tools, Plan, Evidence            tools/models.py, tools/registry.py,
--                            investigations/planning/models.py, investigations/evidence_store.py
--   Investigations/Execution/State, Locals, Executor    investigations/execution.py: the budget and
--                            the helpers, the local variables of `execute`, the methods of
--                            `AgentExecutor`; `run_step` is the body of the loop over the steps
--   Investigations/Execution/Retries                about one tool call with its retries
--   Investigations/Execution/Settling, Progress, Safety, Iteration, Outcome, Listing, Guarantee
--                                                   about what an execution leaves
--   Investigations/Execution/Storage, Drawn, Returns, Total, Termination
--                                                   about why it raises nothing
--   Investigations/Facts, Relationships/Index, Relationships/Search
--                            the facts of investigations/models.py; investigations/relationship_index.py
--   Investigations/Relationships/Paths, Visits, Connectivity, Facts
--                                                   about that search
--   Investigations/Validation/Order     investigations/planning/validation.py: the dependency graph of a
--                            plan and its order; a round of the outer loop for each step
--   Investigations/Validation/Counts, Invariant, Loop, Sorted       about that order
--   Investigations/Validation/Contracts, Validator, Arguments       `PlanValidator.validate`, a function
--                            for each of its loops, which gives the failures that the loop appends
--   Investigations/Validation/Sound, Definitions, Accepted          about the plans that it accepts
--   Investigations/PathNormalization    investigations/path_normalization.py; Matching is about it
--   Investigations/Hypotheses           investigations/hypotheses/models.py and validator.py; Supported is
--                            about them
--   Investigations/CodeDiagnosis        investigations/code_diagnosis/validator.py; Grounded is about it;
--                            Remediation is remediation.py of the same folder
--   Investigations/Rendering            investigations/hypotheses/rendering.py, `render_grounded_result`;
--                            Entities is `_connected_fact_chain`
--   Investigations/Rendering/Renders, Accepted                      about the rendering
--   Investigations/Replanning/Models, Context, Deltas, Rounds       investigations/replanning.py and
--                            `ContextBuilder`; `run_round` is the body of the loop over the rounds, and the
--                            functions that it calls are what follows each early return
--   Investigations/Replanning/Chain, Kept, Promise, Runnable, Total      about the rounds
--   Investigations/Runs/Models          runtime/investigation_models.py
--   Investigations/Runs/World           what the workflow of an investigation is given and changes
--   Investigations/Runs/Snapshots, Prior, Completion, Service       workflows/investigation.py: the
--                            snapshots; what saves nothing; `_complete_adaptive_run`; the other methods.
--                            The callbacks of `_continue_persisted_run` are replayed from the notices
--                            of the investigation
--   Investigations/Runs/Effects, Completed, Budget, Saved, Ending, Continuing, Cases,
--   Investigations/Runs/Readable, Answered, Completing
--                                                   about these runs
--   Tests/                   runs at concrete inputs
--
-- Modelling: a pydantic model is a record or a data type, and its `mode="after"` validator is a
-- Boolean test that every construction through `model_validate` runs; facts and requests are instances
-- that have passed theirs, and texts are any strings. A `datetime` and a `UUID` are numbers. The
-- connectors, the clocks, `uuid4`, the policy that the service was given and the exceptions that
-- `save` raises are the fields of `Service`, and nothing is assumed of them. A `with` of telemetry is
-- the events that it ends with; span attributes are not modelled. An `await` runs to its end: the
-- workflow shares nothing with another task but the repository. Of the investigation agent, the
-- values of arguments and the facts are of any type; the tool invoker, `derive_facts` and what pydantic
-- makes of a tool's arguments are functions that `AgentExecutor` and `ToolDefinition` are given; a
-- delay counts in some unit of time, and the telemetry of an execution is left out. Of an investigation
-- that raises or is cancelled, the callbacks that were called before are a parameter of the workflow,
-- any list: what is proved of such a run holds for all of them.
-- A follow-up continues the numbers of the rounds and makes none after the third, as docs/ARCHITECTURE.md
-- describes; docs/decisions/ADR-033-reopening-completed-investigations-for-follow-up.md lets it begin
-- with a fourth. The model follows the code.
--
-- Bounds: `show_nat n`, which writes a number in an f-string, runs `suc n` rounds of division by ten,
-- and a number has no more digits than that. The `while True` of `_invoke_with_retries` runs
-- `max_attempts` rounds: a call stops at the latest with the attempt of that number, so that an
-- execution whose policy allows one attempt never runs out of them. The search of the
-- relationship index runs one round for each entry of its queue: the start and the two ends of every
-- edge enter it once at most. The outer loop of `_topological_order` runs one round for each key of its
-- graph: a step leaves the heap once at most.
--
-- Not modelled: the HTTP API, authentication, the database, the HTTP clients of the connectors, the
-- language-model services, the evaluations, telemetry export and the web application, which are glue
-- over external systems; and of the investigation agent the planner, the
-- derivation of facts, and the proposal of hypotheses, code findings and fixes.
pub mod Prelude
pub mod Connectors
pub mod Policy
pub mod Runtime
pub mod Workflow
pub mod Investigations
pub mod Tests
