-- ===== src/Investigations/Runs/Continuing.antt =====
-- workflows/investigation.py: runs that are continued.
use promptql.Prelude.{
  ℕ, ◌+◌, ◌≡◌, refl, sym, ap, subst, ◌⊎◌, inl, inr, String, true, not, Option, none, some, List, [],
  ◌∷◌, ◌++◌, append-nil, is_none, is_empty, length, length-append, arith,
}
use promptql.Prelude.Dict.{Key}
use promptql.Runtime.Models.{RunStatus}
use promptql.Investigations.Replanning.Kept.{allowed_ids}
use promptql.Investigations.Replanning.Promise.{investigate-IsReturned}
use promptql.Investigations.Runs.Models.{
  InvestigationRuntimeSnapshot, InvestigationRun, investigation_valid,
}
use promptql.Investigations.Runs.Budget.{AreWithin, IsWithin, snapshot-IsWithin}
use promptql.Investigations.Runs.World.{InvestigationService, World, ◌>>=◌}
use promptql.Investigations.Runs.Prior.{
  Prior, empty_state, prior_of, first_prior, follow_up_prior, failed_run, running_run, is_running,
}
use promptql.Investigations.Runs.Saved.{IsOf, Grown, IsReady, IsReady-error}
use promptql.Investigations.Runs.Ending.{Concluded, start_run-Concluded}
use promptql.Investigations.Runs.Service.{runtime_of, first_outside, start_run, continue_run}

nonempty-snoc : {A : Type 0} (xs : List A) (x : A) → not (is_empty (xs ++ x ∷ [])) ≡ true
nonempty-snoc [] x = refl
nonempty-snoc (y ∷ xs) x = refl

module _ {Value : Type 0} where
  -- a completed run is within its budget and has one result more; the other end is a failed run
  abbrev pub HasEnded : InvestigationRun Value → InvestigationRun Value → Type 0
  HasEnded pending run =
      ((run.status ≡ RunStatus.completed)
        × (state : InvestigationRuntimeSnapshot Value) × (run.state ≡ some state)
        × IsWithin state
        × (length run.results ≡ length pending.results + 1))
      ⊎ (run.status ≡ RunStatus.failed)

  abbrev pub IsContinued : InvestigationRun Value → InvestigationRun Value → Type 0
  IsContinued pending run = IsOf pending run × HasEnded pending run

  module _ (service : InvestigationService Value) (pending : InvestigationRun Value)
      (clean : is_none pending.error ≡ true) (started_at : ℕ)
      (first_state : Option (InvestigationRuntimeSnapshot Value)) where
    abbrev start : InvestigationRun Value
    start = running_run pending started_at first_state

    failed-IsContinued : (t : ℕ) → IsContinued pending (failed_run start t)
    unfolding investigation_valid
    failed-IsContinued t = (
      record {
        valid = refl;
        run_id = refl;
        user_id = refl;
        request = refl;
        follow_up_count = refl;
        more = [];
        results = sym (append-nil pending.results);
      },
      inr refl,
    )

    module _ ⦃key : Key Value⦄ (prior : Prior Value)
        (within : AreWithin prior.rounds prior.available) where
      start_run-IsContinued :
          (question : Option String) (w : World Value) (earlier : List (InvestigationRun Value))
          → Grown pending earlier w.saved
          → prior_of start question pending.state ≡ some prior
          → let r = start_run service start question pending.state w in
            Concluded service pending earlier (IsContinued pending) r.0 r.1
      unfolding investigation_valid
      start_run-IsContinued question w earlier all e =
          start_run-Concluded service pending earlier clean started_at first_state prior
            (IsContinued pending) (λ run h. h.0) failed-IsContinued question w all e
            λ w' state s i run completion.
              let (t, snapshot, found, result, types, made, same) = completion in
              let runtime = runtime_of service start prior w' in
              let is =
                investigate-IsReturned runtime prior.available prior.evidence
                  prior.missing_information (length prior.rounds)
                  (first_outside service start prior) state s i in
              let within' =
                snapshot-IsWithin runtime.registry (allowed_ids runtime) state s.outside.store
                  prior.rounds prior.actions prior.available snapshot within is.chain is.bounded
                  made in
              subst (IsContinued pending) (sym same) (
                record {
                  valid = rw (clean, nonempty-snoc pending.results result) refl;
                  run_id = refl;
                  user_id = refl;
                  request = refl;
                  follow_up_count = refl;
                  more = result ∷ [];
                  results = refl;
                },
                inl (
                  refl,
                  _,
                  refl,
                  record { rounds = within'.rounds; counted = within'.counted },
                  omega (arith, length-append pending.results (result ∷ [])),
                ),
              )

  module _ ⦃key : Key Value⦄ (service : InvestigationService Value)
      (pending : InvestigationRun Value) where
    abbrev pub ContinuesWell : Option String → World Value → Type 0
    ContinuesWell question w =
        let r = continue_run service pending question w in
        Concluded service pending w.saved (IsContinued pending) r.0 r.1

    -- Whatever the planner, the tools and the language models answer or raise, and wherever the task
    -- is cancelled, continuing a pending run, or one reopened for a question, comes to an end that
    -- the repository knows: the run that is returned has completed or failed and was saved last, or
    -- the task was cancelled and the last snapshot says so, unless the repository refuses some
    -- snapshot. All snapshots that it saves are valid, of that run, and keep its results. A completed
    -- run has one result more; its rounds are numbered from one and no more than three, and the
    -- attempts of their steps are the calls that it counts as used, within the budget of the case.
    pub continue_run-Concluded :
        (question : Option String) (w : World Value)
        → IsReady pending question
        → ContinuesWell question w
    unfolding continue_run ◌>>=◌
    continue_run-Concluded none w ready =
        start_run-IsContinued service pending (IsReady-error pending none ready)
          (service.clock w.ticks) (some empty_state) (first_prior pending.request)
          (record { numbered = tt; bounded = omega arith; spent = refl }) none _ w.saved
          ([], sym (append-nil w.saved), tt) refl
    continue_run-Concluded (some question) w ready =
        let (valid, status, state, has, within) = ready in
        rw (ap is_running status) (
          start_run-IsContinued service pending (IsReady-error pending (some question) ready)
            (service.clock w.ticks) pending.state
            (follow_up_prior (running_run pending (service.clock w.ticks) pending.state) question
              state)
            within.rounds (some question) _ w.saved ([], sym (append-nil w.saved), tt)
            (rw has refl))
