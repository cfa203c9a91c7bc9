-- ===== src/Investigations/Runs/Ending.antt =====
-- workflows/investigation.py: how continuing a run ends, and what is saved on the way.
use promptql.Prelude.{
  ℕ, ◌≡◌, refl, sym, subst, ◌⊎◌, inl, inr, String, true, Option, none, some, List, [], ◌∷◌, ◌++◌,
  is_none, length, Bool-cases,
}
use promptql.Prelude.Dict.{Key}
use promptql.Runtime.Models.{RunStatus}
use promptql.Investigations.Execution.State.{Result, ok, err}
use promptql.Investigations.Replanning.Models.{AdaptiveInvestigationState, Investigation}
use promptql.Investigations.Replanning.Rounds.{investigate}
use promptql.Investigations.Runs.Models.{
  InvestigationRuntimeSnapshot, InvestigationRun, investigation_valid,
}
use promptql.Investigations.Runs.World.{
  Raised, Call, InvestigationService, World, Outcome, returned, raised, recover, continue, ◌>>=◌,
}
use promptql.Investigations.Runs.Prior.{Prior, failed_run, cancelled_run, prior_of, latest_saved}
use promptql.Investigations.Runs.Completion.{complete_adaptive_run}
use promptql.Investigations.Runs.Completed.{IsCompletion, complete-Ends}
use promptql.Investigations.Runs.Effects.{EndsAt}
use promptql.Investigations.Runs.Service.{
  fail, cancel, handle, save_calls, runtime_of, first_outside, end_investigation, run_investigation,
  investigate_and_complete, start_run,
}
use promptql.Investigations.Runs.Saved.{
  IsOf, IsStarted, Grown, Grown-snoc, Inv, Inv-snoc, running, running-IsStarted, save_calls-Inv,
}

module _ {Value : Type 0} (service : InvestigationService Value) (pending : InvestigationRun Value)
    (earlier : List (InvestigationRun Value)) where
  -- the repository refused a snapshot, or the task was cancelled and the last snapshot says so
  abbrev pub WhyRaised : Raised → List (InvestigationRun Value) → Type 0
  WhyRaised e saved =
      ((e ≡ Raised.persistence) × (run : InvestigationRun Value) × (service.refuses run ≡ true))
      ⊎ ((e ≡ Raised.cancelled)
          × (before : List (InvestigationRun Value)) × (run : InvestigationRun Value) × (saved
              ≡ before ++ run ∷ [])
          × (run.status ≡ RunStatus.cancelled))

  -- what is returned was saved last; all that was saved is of the run
  abbrev pub Concluded :
      (InvestigationRun Value → Type 0) → Outcome (InvestigationRun Value) → World Value → Type 0
  Concluded Q (returned run) w =
      (before : List (InvestigationRun Value)) × (w.saved ≡ before ++ run ∷ [])
      × Grown pending earlier w.saved
      × Q run
  Concluded Q (raised e) w = Grown pending earlier w.saved × WhyRaised e w.saved

  module _ (clean : is_none pending.error ≡ true) (started_at : ℕ)
      (first_state : Option (InvestigationRuntimeSnapshot Value)) (prior : Prior Value)
      (Q : InvestigationRun Value → Type 0)
      (Q-IsOf : (run : InvestigationRun Value) → Q run → IsOf pending run) where
    abbrev start : InvestigationRun Value
    start = running service pending clean started_at first_state

    abbrev InvAt : World Value → Type 0
    InvAt w = Inv pending start earlier w.saved

    concluded :
        (w : World Value) (saved : List (InvestigationRun Value)) (run : InvestigationRun Value)
        → w.saved ≡ saved ++ run ∷ []
        → Grown pending earlier saved
        → Q run
        → Concluded Q (returned run) w
    concluded w saved run e all q = (
      saved,
      e,
      subst (Grown pending earlier) (sym e)
          (Grown-snoc pending run earlier saved all (Q-IsOf run q)),
      q,
    )

    fail-Concluded :
        ((t : ℕ) → Q (failed_run start t))
        → (w : World Value) → InvAt w
        → Concluded Q (fail service start w).0 (fail service start w).1
    unfolding fail ◌>>=◌
    fail-Concluded q w inv =
        let t = service.clock w.ticks in
        elim (Bool-cases (service.refuses (failed_run start t))) [
          | inl e ↦ rw e (inv.all_of, inl (refl, failed_run start t, e))
          | inr e ↦
              rw e (
                w.saved,
                refl,
                Grown-snoc pending _ earlier w.saved inv.all_of (Q-IsOf _ (q t)),
                q t,
              )
        ]

    cancelled-IsOf :
        (run : InvestigationRun Value) (t : ℕ)
        → IsStarted pending run
        → IsOf pending (cancelled_run run t)
    unfolding investigation_valid
    cancelled-IsOf run t (is, started) = record {
      valid = rw started refl;
      run_id = is.run_id;
      user_id = is.user_id;
      request = is.request;
      follow_up_count = is.follow_up_count;
      more = is.more;
      results = is.results;
    }

    abbrev latest_run : World Value → InvestigationRun Value
    latest_run w =
        cancelled_run (latest_saved start.run_id start.user_id start w.saved)
          (service.clock w.ticks)

    handle-Concluded :
        ((t : ℕ) → Q (failed_run start t))
        → (e : Raised) (w : World Value) → InvAt w
        → Concluded Q (handle service start e w).0 (handle service start e w).1
    unfolding cancel ◌>>=◌
    handle-Concluded q Raised.cancelled w inv = elim (Bool-cases (service.refuses (latest_run w))) [
      | inl e ↦ rw e (inv.all_of, inl (refl, latest_run w, e))
      | inr e ↦ rw e (
        Grown-snoc pending _ earlier w.saved inv.all_of (cancelled-IsOf _ _ inv.latest),
        inr (refl, w.saved, latest_run w, refl, refl),
      )
    ]
    handle-Concluded q Raised.state_conflict w inv = fail-Concluded q w inv
    handle-Concluded q Raised.persistence w inv = fail-Concluded q w inv
    handle-Concluded q Raised.crashed w inv = fail-Concluded q w inv

    module _ (failed : (t : ℕ) → Q (failed_run start t)) where
      recovered :
          (P : InvestigationRun Value → Type 0) (w₀ w : World Value)
          (r : Outcome (InvestigationRun Value))
          → InvAt w₀
          → EndsAt P w₀ r w
          → ((run : InvestigationRun Value) → P run → Q run)
          → Concluded Q
              (recover r (handle service start) w).0
              (recover r (handle service start) w).1
      recovered P w₀ w (returned run) inv ends f =
          concluded w w₀.saved run ends.0 inv.all_of (f run ends.1)
      recovered P w₀ w (raised e) inv ends f =
          handle-Concluded failed e w (subst (Inv pending start earlier) (sym ends) inv)

      module _ ⦃key : Key Value⦄ where
        abbrev outcome :
            World Value → Result (AdaptiveInvestigationState Value × Investigation Value)
        outcome w =
            investigate (runtime_of service start prior w) prior.available prior.evidence
              prior.missing_information (length prior.rounds) (first_outside service start prior)

        -- what a completed investigation makes of the run
        abbrev pub Completes : Type 0
        Completes =
            (w : World Value) (state : AdaptiveInvestigationState Value) (s : Investigation Value)
            → outcome w ≡ ok (state, s)
            → (run : InvestigationRun Value)
            → IsCompletion service start state s.outside.store prior run
            → Q run

        investigated :
            (interrupted : Option (List (Call Value)))
            (result : Result (AdaptiveInvestigationState Value × Investigation Value))
            (w : World Value)
            → outcome w ≡ result
            → InvAt w
            → Completes
            → let r = end_investigation service start prior interrupted result w in
              let c =
                continue r.0
                  (λ (state, store). complete_adaptive_run service start state store prior)
                  r.1 in
              Concluded Q
                (recover c.0 (handle service start) c.1).0
                (recover c.0 (handle service start) c.1).1
        investigated (some calls) result w e inv done = handle-Concluded failed Raised.cancelled _ (
            save_calls-Inv service pending clean started_at first_state prior earlier calls w.saved
              inv)
        investigated none (err x) w e inv done = handle-Concluded failed Raised.crashed _ (
            save_calls-Inv service pending clean started_at first_state prior earlier
              service.before_raise w.saved inv)
        investigated none (ok (state, s)) w e inv done =
            let w' : World Value = record w {
              saved = save_calls service start prior s.notices w.saved;
            } in
            recovered _ w' _ _
              (save_calls-Inv service pending clean started_at first_state prior earlier s.notices
                w.saved inv)
              ((complete-Ends service start state s.outside.store prior).at w') (done w state s e)

        completes-Concluded :
            (w : World Value)
            → InvAt w
            → Completes
            → let r = investigate_and_complete service start prior w in Concluded Q r.0 r.1
        unfolding investigate_and_complete run_investigation ◌>>=◌
        completes-Concluded w inv done =
            investigated service.cancelled_after (outcome w) w refl inv done

        pub start_run-Concluded :
            (question : Option String) (w : World Value)
            → Grown pending earlier w.saved
            → prior_of start question pending.state ≡ some prior
            → Completes
            → let r = start_run service start question pending.state w in Concluded Q r.0 r.1
        unfolding start_run ◌>>=◌
        start_run-Concluded question w all e done = elim (Bool-cases (service.refuses start)) [
          | inl r ↦ rw r (all, inl (refl, start, r))
          | inr r ↦
              let w' : World Value = record w { saved = w.saved ++ start ∷ [] } in
              rw (r, e)
                (completes-Concluded w'
                  (Inv-snoc pending start start earlier w.saved refl refl all
                    (running-IsStarted service pending clean started_at first_state first_state))
                  done)
        ]
