-- ===== src/Policy/Pairing.antt =====
-- Each blocker and each missing-information finding asks for one action, and no action is without
-- its finding.
use mathlib.Core.List.{Perm, perm_middle, perm_append_singleton}
use mathlib.Core.List.Perm
use promptql.Prelude.{
  ℕ, ◌+◌, ◌≡◌, refl, String, List, [], ◌∷◌, ◌++◌, map-append, Bool, true, false, Option, none, some,
  All-append, append_assoc, if◌then◌else◌,
}
use promptql.Connectors.{
  PullRequestState, Mergeability, CheckStatus, JiraIssueStatus, BlockerState, RequiredCheck,
  GitHubPullRequest, JiraIssue,
}
use promptql.Policy.Models.{
  PolicyReasonCode, PendingActionCode, PolicyFinding, EvidenceSource, EvidenceValue,
}
use promptql.Policy.Evaluation.{
  Evaluation, Eval, no_findings, ◌>>=◌, pure, pass, when, record_evidence, add_blocker,
  add_missing_information,
}
use promptql.Policy.Recording.{GitHubReferences, record_checks, record_github}
use promptql.Policy.Evaluator.{
  check_draft, check_state, check_mergeability, block_checks, check_ci, check_approvals,
  check_changes, check_jira_status, check_jira_blocker, record_status_name, check_linked_issue,
  check_jira, check_github, collect, decide_by, decide_from, evaluate_merge_readiness,
}
use promptql.Policy.Remedies.{remedy, IsRemedy, ArePaired}

module _ {ℓ} {A : Type ℓ} {xs : List A} (bs cs : List A) (x : A) (p : Perm xs (bs ++ cs)) where
  perm_grow_left : Perm (xs ++ x ∷ []) ((bs ++ x ∷ []) ++ cs)
  perm_grow_left = rw append_assoc (
      Perm.trans (perm_append_singleton x xs)
        (Perm.trans (Perm.cons x p) (Perm.symm (perm_middle bs cs))))

  perm_grow_right : Perm (xs ++ x ∷ []) (bs ++ (cs ++ x ∷ []))
  perm_grow_right = rw (← append_assoc) (Perm.append_right (x ∷ []) p)

abbrev IsPaired : Evaluation → Type 0
IsPaired s = ArePaired s.blockers s.missing_information s.pending_actions

record Pairs {A : Type 0} (m : Eval A) : Type 0 where
  at : (s : Evaluation) → IsPaired s → IsPaired (m s).1

Pairs-pass : Pairs pass
unfolding pass
Pairs-pass = record { at = λ s h. h }

Pairs-pure : {A : Type 0} (a : A) → Pairs (pure a)
unfolding pure
Pairs-pure a = record { at = λ s h. h }

Pairs-record_evidence :
    (source : EvidenceSource) (field : String) (value : EvidenceValue)
    → Pairs (record_evidence source field value)
unfolding record_evidence
Pairs-record_evidence source field value = record {
  at = λ s h. record { same = h.same; remedies = h.remedies };
}

Pairs-bind :
    {A B : Type 0} (m : Eval A) (f : A → Eval B)
    → Pairs m
    → ((a : A) → Pairs (f a))
    → Pairs (m >>= f)
unfolding ◌>>=◌
Pairs-bind m f pm pf = record { at = λ s h. (pf (m s).0).at (m s).1 (pm.at s h) }

Pairs-when : (b : Bool) (m : Eval Unit) → Pairs m → Pairs (when b m)
Pairs-when true m h = h
Pairs-when false m h = Pairs-pass

Pairs-if : (b : Bool) (m n : Eval Unit) → Pairs m → Pairs n → Pairs (if b then m else n)
Pairs-if true m n pm pn = pm
Pairs-if false m n pm pn = pn

Pairs-add_blocker :
    (reason : PolicyReasonCode) (text : String) (ids : List String) (action : PendingActionCode)
    (action_text : String)
    → remedy reason ≡ some action
    → Pairs (add_blocker reason text ids action action_text)
unfolding add_blocker
Pairs-add_blocker reason text ids action action_text fits = record {
  at = λ s h. record {
    same = simp map-append (perm_grow_left _ _ reason h.same);
    remedies = All-append IsRemedy s.pending_actions _ h.remedies (fits, tt);
  };
}

Pairs-add_missing : (text : String) (ids : List String) → Pairs (add_missing_information text ids)
unfolding add_missing_information
Pairs-add_missing text ids = record {
  at = λ s h. record {
    same = simp map-append (perm_grow_right _ _ PolicyReasonCode.evidence_unavailable h.same);
    remedies = All-append IsRemedy s.pending_actions _ h.remedies (refl, tt);
  };
}

ruleset pair_rules = (
  Pairs-pass, Pairs-pure, Pairs-record_evidence, Pairs-bind, Pairs-when, Pairs-if,
  Pairs-add_blocker, Pairs-add_missing,
)

Pairs-jira_status : (st : JiraIssueStatus) (ids : List String) → Pairs (check_jira_status st ids)
unfolding check_jira_status
Pairs-jira_status JiraIssueStatus.done ids = Pairs-pass
Pairs-jira_status _ ids = Pairs-add_blocker _ _ _ _ _ refl

Pairs-jira_blocker : (b : BlockerState) (ids : List String) → Pairs (check_jira_blocker b ids)
unfolding check_jira_blocker
Pairs-jira_blocker BlockerState.blocked ids = Pairs-add_blocker _ _ _ _ _ refl
Pairs-jira_blocker _ ids = Pairs-pass

Pairs-record_status_name : (name : Option String) → Pairs (record_status_name name)
unfolding record_status_name
Pairs-record_status_name none = Pairs-pass
Pairs-record_status_name (some name) = search pair_rules

Pairs-record_checks : (i : ℕ) (cs : List RequiredCheck) → Pairs (record_checks i cs)
unfolding record_checks
Pairs-record_checks i [] = search pair_rules
Pairs-record_checks i (c ∷ cs) = let rest = Pairs-record_checks (i + 1) cs in search pair_rules

Pairs-record_github : (pr : GitHubPullRequest) → Pairs (record_github pr)
unfolding record_github
Pairs-record_github pr = search (pair_rules, Pairs-record_checks) depth 14

Pairs-block_checks :
    (expected : CheckStatus) (reason : PolicyReasonCode) (action : PendingActionCode)
    (cs : List (RequiredCheck × String × String))
    → remedy reason ≡ some action
    → Pairs (block_checks expected reason action cs)
unfolding block_checks
Pairs-block_checks expected reason action [] fits = Pairs-pass
Pairs-block_checks expected reason action ((c, name, status) ∷ cs) fits =
    Pairs-bind _ _ (Pairs-when _ _ (Pairs-add_blocker _ _ _ _ _ fits))
      λ _. Pairs-block_checks expected reason action cs fits

module _ (refs : GitHubReferences) where
  Pairs-check_draft : (b : Bool) → Pairs (check_draft b refs)
  unfolding check_draft
  Pairs-check_draft b = Pairs-when _ _ (Pairs-add_blocker _ _ _ _ _ refl)

  Pairs-check_state : (st : PullRequestState) → Pairs (check_state st refs)
  unfolding check_state
  Pairs-check_state PullRequestState.closed = Pairs-add_blocker _ _ _ _ _ refl
  Pairs-check_state _ = Pairs-pass

  Pairs-check_mergeability : (m : Mergeability) → Pairs (check_mergeability m refs)
  unfolding check_mergeability
  Pairs-check_mergeability Mergeability.conflicting = Pairs-add_blocker _ _ _ _ _ refl
  Pairs-check_mergeability Mergeability.unknown = Pairs-add_missing _ _
  Pairs-check_mergeability Mergeability.mergeable = Pairs-pass

  Pairs-check_ci : (known : Bool) → Pairs (check_ci known refs)
  unfolding check_ci
  Pairs-check_ci false = Pairs-add_missing _ _
  Pairs-check_ci true =
      Pairs-bind _ _ (Pairs-block_checks _ _ _ refs.checks refl)
        λ _. Pairs-block_checks _ _ _ refs.checks refl

  Pairs-check_approvals :
      (known : Bool) (required : Option ℕ) (n : ℕ) → Pairs (check_approvals known required n refs)
  unfolding check_approvals
  Pairs-check_approvals false required n = Pairs-add_missing _ _
  Pairs-check_approvals true none n = Pairs-add_missing _ _
  Pairs-check_approvals true (some r) n = Pairs-when _ _ (Pairs-add_blocker _ _ _ _ _ refl)

  Pairs-check_changes : (known changes : Bool) → Pairs (check_changes known changes refs)
  unfolding check_changes
  Pairs-check_changes known changes = Pairs-when _ _ (Pairs-add_blocker _ _ _ _ _ refl)

Pairs-linked_issue : (jira : JiraIssue) (key : String) → Pairs (check_linked_issue jira key)
unfolding check_linked_issue
Pairs-linked_issue jira key =
    search (pair_rules, Pairs-jira_status, Pairs-jira_blocker, Pairs-record_status_name) depth 12

Pairs-check_jira :
    (link : Option String) (jira : Option JiraIssue) (refs : GitHubReferences)
    → Pairs (check_jira link jira refs)
unfolding check_jira
Pairs-check_jira none jira refs = Pairs-add_blocker _ _ _ _ _ refl
Pairs-check_jira (some key) none refs = Pairs-add_missing _ _
Pairs-check_jira (some key) (some jira) refs = search (pair_rules, Pairs-linked_issue)

Pairs-check_github :
    (pr : GitHubPullRequest) (jira : Option JiraIssue) → Pairs (check_github pr jira)
unfolding check_github
Pairs-check_github pr jira =
    search
      (
        pair_rules, Pairs-record_github, Pairs-check_draft, Pairs-check_state,
        Pairs-check_mergeability, Pairs-check_ci, Pairs-check_approvals, Pairs-check_changes,
        Pairs-check_jira,
      )
      depth 12

Pairs-collect : (pr : Option GitHubPullRequest) (jira : Option JiraIssue) → Pairs (collect pr jira)
unfolding collect
Pairs-collect none none = search pair_rules
Pairs-collect none (some jira) = search pair_rules
Pairs-collect (some pr) jira = Pairs-check_github pr jira

decide_by-pairs :
    (bs ms : List PolicyFinding) (s : Evaluation)
    → IsPaired s
    → let r = decide_by bs ms s in ArePaired r.blockers r.missing_information r.pending_actions
decide_by-pairs (b ∷ bs) ms s h = h
decide_by-pairs [] (m ∷ ms) s h = h
decide_by-pairs [] [] s h = h

-- The pending actions of a result answer its findings one for one: their reasons are those of the
-- blockers and of the missing information, in some order, and each action is the one that its reason
-- calls for.
pub evaluate-ArePaired :
    (pr : Option GitHubPullRequest) (jira : Option JiraIssue)
    → let r = evaluate_merge_readiness pr jira in
      ArePaired r.blockers r.missing_information r.pending_actions
unfolding evaluate_merge_readiness decide_from
evaluate-ArePaired pr jira =
    decide_by-pairs _ _ _
      ((Pairs-collect pr jira).at no_findings (record { same = Perm.refl []; remedies = tt }))
