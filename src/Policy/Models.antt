-- ===== src/Policy/Models.antt =====
-- policy/models.py: the decision, its findings, the actions that they ask for, the evidence.
use promptql.Prelude.{ℕ, String, Bool, List}

pub data MergeReadinessDecision : Type 0 where
  ready blocked unknown : MergeReadinessDecision

pub data PolicyReasonCode : Type 0 where
  ready pr_is_draft pr_closed_unmerged merge_conflict ci_check_failed : PolicyReasonCode
  ci_check_pending approval_missing changes_requested jira_link_missing : PolicyReasonCode
  jira_not_complete jira_blocker_present evidence_unavailable : PolicyReasonCode

pub data PendingActionCode : Type 0 where
  mark_pr_ready reopen_pr resolve_merge_conflict fix_ci_check : PendingActionCode
  wait_for_ci_check get_required_approval address_requested_changes : PendingActionCode
  link_jira_issue complete_jira_issue clear_jira_blocker retry_evidence : PendingActionCode

pub data EvidenceSource : Type 0 where
  github jira : EvidenceSource

unfoldable pub source_value : EvidenceSource → String
source_value EvidenceSource.github = "github"
source_value EvidenceSource.jira = "jira"

-- `str | bool | int | None`
pub data EvidenceValue : Type 0 where
  text : String → EvidenceValue
  flag : Bool → EvidenceValue
  number : ℕ → EvidenceValue
  null : EvidenceValue

pub record EvidenceReference : Type 0 where
  pub reference_id : String
  pub source : EvidenceSource
  pub field : String
  pub value : EvidenceValue

pub record PolicyFinding : Type 0 where
  pub reason_code : PolicyReasonCode
  pub message : String
  pub evidence_reference_ids : List String

pub record PendingAction : Type 0 where
  pub action_code : PendingActionCode
  pub reason_code : PolicyReasonCode
  pub message : String

pub record MergeReadinessResult : Type 0 where
  pub decision : MergeReadinessDecision
  pub summary : String
  pub reason_code : PolicyReasonCode
  pub blockers : List PolicyFinding
  pub pending_actions : List PendingAction
  pub missing_information : List PolicyFinding
  pub evidence_references : List EvidenceReference
