-- ===== src/Policy/Remedies.antt =====
-- The action that each finding of the policy calls for.
use mathlib.Core.List.{Perm}
use promptql.Prelude.{◌≡◌, List, ◌++◌, map, Option, none, some, All}
use promptql.Policy.Models.{PolicyReasonCode, PendingActionCode, PendingAction, PolicyFinding}
use promptql.Policy.Appends.{reasons}

-- the action that a reason calls for
abbrev pub remedy : PolicyReasonCode → Option PendingActionCode
remedy PolicyReasonCode.ready = none
remedy PolicyReasonCode.pr_is_draft = some PendingActionCode.mark_pr_ready
remedy PolicyReasonCode.pr_closed_unmerged = some PendingActionCode.reopen_pr
remedy PolicyReasonCode.merge_conflict = some PendingActionCode.resolve_merge_conflict
remedy PolicyReasonCode.ci_check_failed = some PendingActionCode.fix_ci_check
remedy PolicyReasonCode.ci_check_pending = some PendingActionCode.wait_for_ci_check
remedy PolicyReasonCode.approval_missing = some PendingActionCode.get_required_approval
remedy PolicyReasonCode.changes_requested = some PendingActionCode.address_requested_changes
remedy PolicyReasonCode.jira_link_missing = some PendingActionCode.link_jira_issue
remedy PolicyReasonCode.jira_not_complete = some PendingActionCode.complete_jira_issue
remedy PolicyReasonCode.jira_blocker_present = some PendingActionCode.clear_jira_blocker
remedy PolicyReasonCode.evidence_unavailable = some PendingActionCode.retry_evidence

abbrev pub action_reasons : List PendingAction → List PolicyReasonCode
action_reasons = map (λ a. a.reason_code)

abbrev pub IsRemedy : PendingAction → Type 0
IsRemedy a = remedy a.reason_code ≡ some a.action_code

-- the actions are those of the findings, in some order, and each is its reason's remedy
pub record ArePaired (blockers missing : List PolicyFinding) (actions : List PendingAction)
    : Type 0 where
  pub same : Perm (action_reasons actions) (reasons blockers ++ reasons missing)
  pub remedies : All IsRemedy actions
