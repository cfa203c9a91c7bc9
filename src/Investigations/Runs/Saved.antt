-- ===== src/Investigations/Runs/Saved.antt =====
-- workflows/investigation.py: what the callbacks of an investigation save, and what stays
-- true of the snapshots of a run.
use promptql.Prelude.{
  ℕ, ◌≡◌, refl, sym, ◌∙◌, ap, subst, inl, inr, String, true, ◌||◌, Option, none, some, List, [],
  ◌∷◌, ◌++◌, append-nil, append_assoc, is_none, is_some, nat_eq_iff, All, All-append, arith,
  Bool-cases,
}
use promptql.Runtime.Models.{RunStatus}
use promptql.Runtime.Repository.{same_user}
use promptql.Investigations.Rendering.{GroundedInvestigationResult}
use promptql.Investigations.Replanning.Models.{Notice}
use promptql.Investigations.Runs.Models.{
  InvestigationRuntimeSnapshot, InvestigationRun, investigation_lifecycle, investigation_valid,
}
use promptql.Investigations.Runs.Snapshots.{with_state, saved_of, snapshot_from_adaptive}
use promptql.Investigations.Runs.Budget.{IsWithin}
use promptql.Investigations.Runs.World.{Call, InvestigationService}
use promptql.Investigations.Runs.Prior.{Prior, running_run, latest_saved}
use promptql.Investigations.Runs.Service.{keep_saved, save_calls}

pub some_inj : {A : Type 0} {a b : A} → some a ≡ some b → a ≡ b
some_inj e = cc

same_user_refl : (user_id : Option ℕ) → is_none user_id || same_user user_id user_id ≡ true
same_user_refl none = refl
same_user_refl (some u) = ground (arith, nat_eq_iff u u)

module _ {Value : Type 0} where
  -- a valid snapshot of the same run, with the results so far and maybe more
  pub record IsOf (base run : InvestigationRun Value) : Type 0 where
    pub valid : investigation_valid run ≡ true
    pub run_id : run.run_id ≡ base.run_id
    pub user_id : run.user_id ≡ base.user_id
    pub request : run.request ≡ base.request
    pub follow_up_count : run.follow_up_count ≡ base.follow_up_count
    pub more : List GroundedInvestigationResult
    pub results : run.results ≡ base.results ++ more

  abbrev pub IsStarted : InvestigationRun Value → InvestigationRun Value → Type 0
  IsStarted base run = IsOf base run × (is_some run.started_at ≡ true)

  latest-snoc :
      (run_id : ℕ) (user_id : Option ℕ) (run : InvestigationRun Value)
      (saved : List (InvestigationRun Value)) (found : InvestigationRun Value)
      → run.run_id ≡ run_id
      → run.user_id ≡ user_id
      → latest_saved run_id user_id found (saved ++ run ∷ []) ≡ run
  unfolding latest_saved
  latest-snoc run_id user_id run [] found i u =
      rw (i, u, (nat_eq_iff run_id run_id).1 refl, same_user_refl user_id) refl
  latest-snoc run_id user_id run (first ∷ saved) found i u =
      latest-snoc run_id user_id run saved _ i u

  -- what was saved since is of the run
  abbrev pub Grown :
      InvestigationRun Value
      → List (InvestigationRun Value)
      → List (InvestigationRun Value)
      → Type 0
  Grown base before saved =
      (new : List (InvestigationRun Value)) × (saved ≡ before ++ new) × All (IsOf base) new

  pub Grown-snoc :
      (base run : InvestigationRun Value) (before saved : List (InvestigationRun Value))
      → Grown base before saved
      → IsOf base run
      → Grown base before (saved ++ run ∷ [])
  Grown-snoc base run before saved (new, e, all) is = (
    new ++ run ∷ [],
    ap (λ z. z ++ run ∷ []) e ∙ append_assoc before new (run ∷ []),
    All-append (IsOf base) new (run ∷ []) all (is, tt),
  )

  -- what was saved is of the run, and the repository has a started snapshot of it
  pub record Inv (base running : InvestigationRun Value)
      (before saved : List (InvestigationRun Value)) : Type 0 where
    pub all_of : Grown base before saved
    pub latest : IsStarted base (latest_saved running.run_id running.user_id running saved)

  pub Inv-snoc :
      (base running run : InvestigationRun Value) (before saved : List (InvestigationRun Value))
      → running.run_id ≡ base.run_id
      → running.user_id ≡ base.user_id
      → Grown base before saved
      → IsStarted base run
      → Inv base running before (saved ++ run ∷ [])
  Inv-snoc base running run before saved i u all is = record {
    all_of = Grown-snoc base run before saved all is.0;
    latest =
        subst (IsStarted base)
          (sym (
            latest-snoc running.run_id running.user_id run saved running (is.0.run_id ∙ sym i)
              (is.0.user_id ∙ sym u)))
          is;
  }

  -- a run that can be continued: a pending one, or one reopened for a question, within its budget
  abbrev pub IsReady : InvestigationRun Value → Option String → Type 0
  IsReady run none = (investigation_valid run ≡ true) × (run.status ≡ RunStatus.pending)
  IsReady run (some question) =
      (investigation_valid run ≡ true)
      × (run.status ≡ RunStatus.running)
      × (state : InvestigationRuntimeSnapshot Value) × (run.state ≡ some state)
      × IsWithin state

  pub IsReady-error :
      (run : InvestigationRun Value) (question : Option String)
      → IsReady run question
      → is_none run.error ≡ true
  unfolding investigation_valid
  IsReady-error run none (v, s) =
      let h = subst (λ status. investigation_lifecycle status run ≡ true) s v in ground (arith, h)
  IsReady-error run (some question) (v, s, state, has, within) =
      let h = subst (λ status. investigation_lifecycle status run ≡ true) s v in ground (arith, h)

module _ {Value : Type 0} (service : InvestigationService Value) (pending : InvestigationRun Value)
    (clean : is_none pending.error ≡ true) (started_at : ℕ)
    (first_state : Option (InvestigationRuntimeSnapshot Value)) where
  abbrev pub running : InvestigationRun Value
  running = running_run pending started_at first_state

  pub running-IsStarted :
      (state : Option (InvestigationRuntimeSnapshot Value))
      → IsStarted pending (record running { state = state })
  unfolding investigation_valid
  running-IsStarted state = (
    record {
      valid = rw clean refl;
      run_id = refl;
      user_id = refl;
      request = refl;
      follow_up_count = refl;
      more = [];
      results = sym (append-nil pending.results);
    },
    refl,
  )

  module _ (prior : Prior Value) where
    with_state-IsStarted :
        (change : InvestigationRuntimeSnapshot Value → InvestigationRuntimeSnapshot Value)
        (snapshot : Option (InvestigationRuntimeSnapshot Value)) (run : InvestigationRun Value)
        → with_state running change snapshot ≡ some run
        → IsStarted pending run
    with_state-IsStarted change none run e = ground arith
    with_state-IsStarted change (some snapshot) run e =
        subst (IsStarted pending) (some_inj e) (running-IsStarted (some (change snapshot)))

    saved_of-IsStarted :
        (call : Call Value) (run : InvestigationRun Value)
        → saved_of running prior.rounds prior.actions call ≡ some run
        → IsStarted pending run
    unfolding saved_of
    saved_of-IsStarted (Notice.round_planned state planned, store) run e =
        with_state-IsStarted _ (snapshot_from_adaptive state store prior.rounds prior.actions) run e
    saved_of-IsStarted (Notice.round_completed state, store) run e =
        with_state-IsStarted _ (snapshot_from_adaptive state store prior.rounds prior.actions) run e

    keep_saved-Inv :
        (before : List (InvestigationRun Value)) (made : Option (InvestigationRun Value))
        (saved : List (InvestigationRun Value))
        → ((run : InvestigationRun Value) → made ≡ some run → IsStarted pending run)
        → Inv pending running before saved
        → Inv pending running before (keep_saved service running prior made saved)
    keep_saved-Inv before none saved h inv = inv
    keep_saved-Inv before (some run) saved h inv = elim (Bool-cases (service.refuses run)) [
      | inl e ↦ rw e inv
      | inr e ↦ rw e (Inv-snoc pending running run before saved refl refl inv.all_of (h run refl))
    ]

    pub save_calls-Inv :
        (before : List (InvestigationRun Value)) (calls : List (Call Value))
        (saved : List (InvestigationRun Value))
        → Inv pending running before saved
        → Inv pending running before (save_calls service running prior calls saved)
    unfolding save_calls
    save_calls-Inv before [] saved inv = inv
    save_calls-Inv before (call ∷ calls) saved inv =
        save_calls-Inv before calls _ (keep_saved-Inv before _ saved (saved_of-IsStarted call) inv)
