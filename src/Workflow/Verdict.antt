-- ===== src/Workflow/Verdict.antt =====
-- workflows/merge_readiness.py with policy/evaluator.py: which executions end with READY.
use promptql.Prelude.{◌≡◌, sym, ◌∙◌, ap, ◌↔◌, Option, none, some}
use promptql.Connectors.{ConnectorRequest, GitHubPullRequest, JiraIssue}
use promptql.Policy.Models.{MergeReadinessDecision, MergeReadinessResult}
use promptql.Policy.Evaluator.{evaluate_merge_readiness}
use promptql.Policy.Expected.{IsReady}
use promptql.Policy.Ready.{evaluate-ready_iff}
use promptql.Runtime.Models.{RunStatus, MergeReadinessRun}
use promptql.Workflow.World.{Fetch, Service, World, Outcome, returned, raised}
use promptql.Workflow.Service.{execute}
use promptql.Workflow.Endings.{reliable, Ending, EndsAs, jira_ending, github_ending, issue_of}
use promptql.Workflow.Ending.{execute-Ends}

-- the default policy of the constructor
abbrev pub judging : Service → Service
judging service = record service {
  policy_evaluator = λ github jira. some (evaluate_merge_readiness github jira);
}

abbrev pub answered : {A : Type 0} → Fetch A → Option A
answered (Fetch.facts a) = some a
answered _ = none

-- the issue that Jira answers with, for the key that the pull request links
abbrev pub linked_issue : Service → Option GitHubPullRequest → Option JiraIssue
linked_issue service none = none
linked_issue service (some github) = answered (issue_of service github.linked_jira_key)

-- a completed run with the decision READY was returned
abbrev pub EndsReady : Outcome MergeReadinessRun × World → Type 0
EndsReady (returned run, w) =
    (run.status ≡ RunStatus.completed)
    × (result : MergeReadinessResult) × (run.result ≡ some result)
    × (result.decision ≡ MergeReadinessDecision.ready)
EndsReady (raised e, w) = ⊥

abbrev ReadyEnding : Ending → Type 0
ReadyEnding (Ending.completed_with result) = result.decision ≡ MergeReadinessDecision.ready
ReadyEnding _ = ⊥

EndsReady-Ends :
    (ending : Ending) (r : Outcome MergeReadinessRun) (w : World)
    → EndsAs ending r w
    → EndsReady (r, w) ↔ ReadyEnding ending
EndsReady-Ends (Ending.completed_with result) (returned run) w h = (
  λ k. ap (λ x. x.decision) (same_result result k.1 (sym h.1 ∙ k.2)) ∙ k.3,
  λ k. (h.0, result, h.1, k),
)
  where
    same_result : (x y : MergeReadinessResult) → some x ≡ some y → x ≡ y
    same_result x y e = cc
EndsReady-Ends (Ending.completed_with result) (raised e) w h = absurd h
EndsReady-Ends (Ending.failed_with code) (returned run) w h =
    (λ k. not_both (sym h.0 ∙ k.0), λ k. absurd k)
  where
    not_both : RunStatus.failed ≡ RunStatus.completed → ⊥
    not_both e = cc
EndsReady-Ends (Ending.failed_with code) (raised e) w h = absurd h
EndsReady-Ends Ending.missing_fixture (returned run) w h = absurd h
EndsReady-Ends Ending.missing_fixture (raised e) w h = (λ k. k, λ k. k)

module _ (service : Service) where
  ReadyEnding-jira :
      (github : GitHubPullRequest) (answer : Fetch JiraIssue)
      → ReadyEnding (jira_ending (judging service) (some github) answer)
        ↔ IsReady (some github) (answered answer)
  ReadyEnding-jira github Fetch.crash = (λ h. h, λ h. h)
  ReadyEnding-jira github Fetch.fixture_not_found = (λ h. h, λ h. h)
  ReadyEnding-jira github Fetch.unavailable = evaluate-ready_iff (some github) none
  ReadyEnding-jira github (Fetch.facts jira) = evaluate-ready_iff (some github) (some jira)

  ReadyEnding-github :
      (answer : Fetch GitHubPullRequest)
      → ReadyEnding (github_ending (judging service) answer)
        ↔ IsReady (answered answer) (linked_issue service (answered answer))
  ReadyEnding-github Fetch.crash = (λ h. h, λ h. h)
  ReadyEnding-github Fetch.fixture_not_found = (λ h. h, λ h. h)
  ReadyEnding-github Fetch.unavailable = evaluate-ready_iff none none
  ReadyEnding-github (Fetch.facts github) =
      ReadyEnding-jira github (issue_of service github.linked_jira_key)

  -- With the program's own policy and a repository that does not raise, an execution returns a
  -- completed run with the decision READY exactly when GitHub answered with facts, Jira answered
  -- with the linked issue, and the two satisfy every condition of a merge; whatever the clocks do
  -- and however else the connectors answer.
  pub execute-EndsReady :
      (request : ConnectorRequest) (w : World)
      → let github = answered (service.get_pull_request request) in
        EndsReady (execute (reliable (judging service)) request w)
        ↔ IsReady github (linked_issue service github)
  execute-EndsReady request w =
      let answer = service.get_pull_request request in
      let (f, g) =
        EndsReady-Ends (github_ending (judging service) answer) _ _
          (execute-Ends (judging service) request w) in
      let (f', g') = ReadyEnding-github answer in (λ h. f' (f h), λ h. g (g' h))
