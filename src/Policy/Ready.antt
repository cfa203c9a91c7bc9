-- ===== src/Policy/Ready.antt =====
-- When `evaluate_merge_readiness` answers READY.
use promptql.Prelude.{
  ℕ, ◌≤◌, ◌≡◌, ◌≢◌, refl, sym, ap, ap₂, ◌∙◌, ◌↔◌, String, List, [], ◌∷◌, ◌++◌, Bool, true, false,
  Option, none, some, length, All, arith, eq_iff,
}
use promptql.Connectors.{
  CheckStatus, JiraIssueStatus, BlockerState, RequiredCheck, GitHubPullRequest, JiraIssue,
}
use promptql.Policy.Models.{MergeReadinessDecision, PolicyReasonCode}
use promptql.Policy.Evaluator.{evaluate_merge_readiness}
use promptql.Policy.Expected.{
  Gap, given, closed_reason, conflict_reason, check_reasons, approval_reason, change_reason,
  issue_reasons, mergeability_gap, check_gap, review_gap, issue_gap, expected_blockers,
  expected_gaps, expected_decision, IsReady, IsMergeable, failed_checks, pending_checks,
}
use promptql.Policy.Decision.{evaluate-decision}

module _ {ℓ} {A : Type ℓ} where
  split_nil : (xs ys : List A) → xs ++ ys ≡ [] → (xs ≡ []) × (ys ≡ [])
  split_nil [] ys h = (refl, h)
  split_nil (x ∷ xs) ys h = cc

nothing_expected :
    (rs : List PolicyReasonCode) (gs : List Gap)
    → (expected_decision rs gs).0 ≡ MergeReadinessDecision.ready
    → (rs ≡ []) × (gs ≡ [])
nothing_expected (r ∷ rs) gs h = cc
nothing_expected [] (g ∷ gs) h = cc
nothing_expected [] [] h = (refl, refl)

checks_passed :
    (cs : List RequiredCheck)
    → failed_checks cs ≡ []
    → pending_checks cs ≡ []
    → All (λ c. c.status ≡ CheckStatus.passed) cs
checks_passed [] f p = tt
checks_passed (c ∷ cs) f p = ground (arith, checks_passed cs)

checks_clean :
    (cs : List RequiredCheck)
    → All (λ c. c.status ≡ CheckStatus.passed) cs
    → (failed_checks cs ≡ []) × (pending_checks cs ≡ [])
checks_clean [] h = (refl, refl)
checks_clean (c ∷ cs) h = ground (arith, checks_clean cs h.1)

checks_ready :
    (known : Bool) (cs : List RequiredCheck)
    → check_reasons known cs ≡ []
    → check_gap known ≡ []
    → (known ≡ true) × All (λ c. c.status ≡ CheckStatus.passed) cs
checks_ready true cs h g =
    let (f, p) = split_nil (failed_checks cs) (pending_checks cs) h in (refl, checks_passed cs f p)
checks_ready false cs h g = cc

reviews_ready :
    (known : Bool) (rule : Option ℕ) (n : ℕ) (changes : Bool)
    → approval_reason known rule n ≡ []
    → review_gap known rule ≡ []
    → change_reason known changes ≡ []
    → (required : ℕ) × (known ≡ true) × (rule ≡ some required) × (required ≤ n) × (changes ≡ false)
reviews_ready false rule n changes a g c = cc
reviews_ready true none n changes a g c = cc
reviews_ready true (some required) n changes a g c =
    (required, refl, refl, ground arith, ground arith)

issue_ready :
    (link : Option String) (jira : JiraIssue)
    → issue_reasons link (some jira) ≡ []
    → issue_gap link (some jira) ≡ []
    → (link ≡ some jira.issue_key)
      × (jira.status ≡ JiraIssueStatus.done)
      × (jira.blocker_state ≢ BlockerState.blocked)
issue_ready none jira b g = cc
issue_ready (some key) jira b g = ground (arith, eq_iff jira.issue_key key)

module _ (pr : GitHubPullRequest) (jira : JiraIssue) where
  IsMergeable-of_empty :
      expected_blockers (some pr) (some jira) ≡ []
      → expected_gaps (some pr) (some jira) ≡ []
      → (required : ℕ) × IsMergeable pr required jira
  IsMergeable-of_empty b g =
      let (draft, b₁) = split_nil (given pr.is_draft PolicyReasonCode.pr_is_draft) _ b in
      let (closed, b₂) = split_nil (closed_reason pr.state) _ b₁ in
      let (conflict, b₃) = split_nil (conflict_reason pr.mergeability) _ b₂ in
      let (checks, b₄) = split_nil _ _ b₃ in
      let (approvals, b₅) = split_nil _ _ b₄ in
      let (changes, issue) = split_nil _ _ b₅ in
      let (unsure, g₁) = split_nil (mergeability_gap pr.mergeability) _ g in
      let (no_rules, g₂) = split_nil _ _ g₁ in
      let (no_reviews, no_issue) = split_nil _ _ g₂ in
      let (known, passed) = checks_ready _ pr.required_checks checks no_rules in
      let (required, reviewed, rule, enough, unchanged) =
        reviews_ready _ _ (length pr.approvals) _ approvals no_reviews changes in
      let (link, done, free) = issue_ready _ jira issue no_issue in
      (
        required,
        record {
          no_draft = ground arith;
          not_closed = ground arith;
          clean = ground arith;
          checks_known = known;
          checks_passed = passed;
          reviews_known = reviewed;
          rule_known = rule;
          approved = enough;
          no_changes = unchanged;
          linked = link;
          issue_done = done;
          issue_free = free;
        },
      )

  empty_of_mergeable :
      (required : ℕ)
      → IsMergeable pr required jira
      → (expected_blockers (some pr) (some jira) ≡ []) × (expected_gaps (some pr) (some jira) ≡ [])
  empty_of_mergeable required m =
      ground (
        arith,
        checks_clean pr.required_checks m.checks_passed,
        eq_iff jira.issue_key jira.issue_key,
      )

no_issue_given :
    (link : Option String) → issue_reasons link none ≡ [] → issue_gap link none ≡ [] → ⊥
no_issue_given none b g = cc
no_issue_given (some key) b g = cc

needs_issue :
    (pr : GitHubPullRequest)
    → expected_blockers (some pr) none ≡ []
    → expected_gaps (some pr) none ≡ []
    → ⊥
needs_issue pr b g =
    let (_, b₁) = split_nil (given pr.is_draft PolicyReasonCode.pr_is_draft) _ b in
    let (_, b₂) = split_nil (closed_reason pr.state) _ b₁ in
    let (_, b₃) = split_nil (conflict_reason pr.mergeability) _ b₂ in
    let (_, b₄) = split_nil (check_reasons pr.required_checks_known pr.required_checks) _ b₃ in
    let (_, b₅) =
      split_nil (approval_reason pr.reviews_known pr.required_approval_count (length pr.approvals))
        _ b₄ in
    let (_, issue) = split_nil (change_reason pr.reviews_known pr.changes_requested) _ b₅ in
    let (_, g₁) = split_nil (mergeability_gap pr.mergeability) _ g in
    let (_, g₂) = split_nil _ _ g₁ in
    let (_, no_issue) = split_nil _ _ g₂ in no_issue_given pr.linked_jira_key issue no_issue

IsReady-of_empty :
    (pr : Option GitHubPullRequest) (jira : Option JiraIssue)
    → (expected_blockers pr jira ≡ []) × (expected_gaps pr jira ≡ [])
    → IsReady pr jira
IsReady-of_empty none jira h = cc (h.1)
IsReady-of_empty (some pr) none h = needs_issue pr h.0 h.1
IsReady-of_empty (some pr) (some jira) h = IsMergeable-of_empty pr jira h.0 h.1

empty_of_ready :
    (pr : Option GitHubPullRequest) (jira : Option JiraIssue)
    → IsReady pr jira
    → (expected_blockers pr jira ≡ []) × (expected_gaps pr jira ≡ [])
empty_of_ready none jira h = absurd h
empty_of_ready (some pr) none h = absurd h
empty_of_ready (some pr) (some jira) (required, m) = empty_of_mergeable pr jira required m

-- The policy answers READY exactly when both facts are there and every condition of a merge holds:
-- no draft, not closed, no conflict, all required checks known and passed, enough approvals and no
-- changes requested, and the linked issue done and not blocked.
pub evaluate-ready_iff :
    (pr : Option GitHubPullRequest) (jira : Option JiraIssue)
    → ((evaluate_merge_readiness pr jira).decision ≡ MergeReadinessDecision.ready) ↔ IsReady pr jira
evaluate-ready_iff pr jira = (
  λ h. IsReady-of_empty pr jira (
      nothing_expected (expected_blockers pr jira) (expected_gaps pr jira)
        (sym (ap (λ v. v.0) (evaluate-decision pr jira)) ∙ h)),
  λ h.
      let (b, g) = empty_of_ready pr jira h in
      ap (λ v. v.0) (evaluate-decision pr jira) ∙ ap₂ (λ rs gs. (expected_decision rs gs).0) b g,
)
