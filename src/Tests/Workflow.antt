-- ===== src/Tests/Workflow.antt =====
-- workflows/merge_readiness.py: executions whose saves succeed, and one whose fourth save raises.
use promptql.Prelude.{none, some, nat_eq, if◌then◌else◌}
use promptql.Workflow.World.{Fetch, RepositoryError, Service, fresh}
use promptql.Workflow.Service.{execute, continue_persisted_run}
use promptql.Workflow.Hoare.{Inv}
use promptql.Workflow.Endings.{Ends, reliable, github_ending}
use promptql.Workflow.Ending.{execute-Ends}
use promptql.Workflow.Verdict.{judging, answered, linked_issue, EndsReady, execute-EndsReady}
use promptql.Policy.Expected.{IsReady}
use promptql.Workflow.Snapshots.{execute-Inv, continue_persisted_run-Inv}
use promptql.Runtime.Models.{run_valid}
use promptql.Prelude.{refl, ◌↔◌}
use promptql.Tests.Data.{good_pr, done_issue, request, pending_run, service, service_failing}

execute-Ends_example :
    Ends
      (github_ending service (service.get_pull_request request))
      (execute (reliable service) request fresh)
execute-Ends_example = execute-Ends service request fresh

abbrev fourth_fails : Service
fourth_fails = service_failing λ n. if nat_eq n 3 then some RepositoryError.state_conflict else none

execute-Inv_example : Inv 40 request (execute fourth_fails request fresh).1
execute-Inv_example = execute-Inv fourth_fails request

continue_persisted_run-Inv_example :
    Inv 40 request (continue_persisted_run fourth_fails pending_run fresh).1
unfolding run_valid
continue_persisted_run-Inv_example =
    continue_persisted_run-Inv fourth_fails pending_run fresh (record {
      inv = record { all_valid = tt; never_back = tt };
      is_of = record { valid = refl; identity = refl; request_kept = refl };
      behind = tt;
    })

-- the same, with facts that are ready to merge
abbrev ready_service : Service
ready_service = record service {
  get_pull_request = λ _. Fetch.facts good_pr;
  get_issue = λ _. Fetch.facts done_issue;
}

execute-EndsReady_example :
    let github = answered (ready_service.get_pull_request request) in
    EndsReady (execute (reliable (judging ready_service)) request fresh)
    ↔ IsReady github (linked_issue ready_service github)
execute-EndsReady_example = execute-EndsReady ready_service request fresh
