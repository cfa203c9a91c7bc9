-- ===== src/Investigations/Facts.antt =====
-- investigations/models.py: the facts that are derived from evidence. A commit hash is a text.
use promptql.Prelude.{ℕ, String, Option, List}

pub data FileChangeType : Type 0 where
  added modified deleted renamed : FileChangeType

-- `_EvidenceBackedFact`
pub record FactBase : Type 0 where
  pub fact_id : String
  pub evidence_reference_ids : List String

pub data InvestigationFact : Type 0 where
  -- path, change type, number of the pull request
  changed_file : FactBase → String → FileChangeType → Option ℕ → InvestigationFact
  -- deployment, environment, time, revision
  deployment : FactBase → String → String → ℕ → String → InvestigationFact
  -- file, function, line
  stack_frame : FactBase → String → String → ℕ → InvestigationFact
  -- deployment, incident
  deployment_preceded_incident : FactBase → String → String → InvestigationFact
  -- deployment, commit
  deployment_references_commit : FactBase → String → String → InvestigationFact
  -- commit, number of the pull request
  commit_associated_with_pull_request : FactBase → String → ℕ → InvestigationFact
  -- file
  changed_file_matches_failure_file : FactBase → String → InvestigationFact
  -- file, line
  changed_hunk_overlaps_failure_line : FactBase → String → ℕ → InvestigationFact

abbrev pub base_of : InvestigationFact → FactBase
base_of (InvestigationFact.changed_file base _ _ _) = base
base_of (InvestigationFact.deployment base _ _ _ _) = base
base_of (InvestigationFact.stack_frame base _ _ _) = base
base_of (InvestigationFact.deployment_preceded_incident base _ _) = base
base_of (InvestigationFact.deployment_references_commit base _ _) = base
base_of (InvestigationFact.commit_associated_with_pull_request base _ _) = base
base_of (InvestigationFact.changed_file_matches_failure_file base _) = base
base_of (InvestigationFact.changed_hunk_overlaps_failure_line base _ _) = base

abbrev pub id_of : InvestigationFact → String
id_of fact = (base_of fact).fact_id
