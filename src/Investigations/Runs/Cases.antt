-- ===== src/Investigations/Runs/Cases.antt =====
-- workflows/investigation.py: the runs of a case, from its creation through its follow-ups, each
-- reached by a call that returned it.
use promptql.Prelude.{
  ℕ, ◌+◌, ◌≡◌, refl, subst, inl, inr, String, true, Option, none, some, length, arith, Bool-cases,
  nat_eq_iff,
}
use promptql.Prelude.Dict.{Key}
use promptql.Runtime.Models.{RunStatus}
use promptql.Investigations.Runs.Models.{
  InvestigationRequest, InvestigationRuntimeSnapshot, InvestigationRun, investigation_lifecycle,
  investigation_valid,
}
use promptql.Investigations.Runs.Budget.{IsWithin}
use promptql.Investigations.Runs.World.{InvestigationService, World, Outcome, returned, ◌>>=◌}
use promptql.Investigations.Runs.Prior.{is_completed, pending_run, reopened_run}
use promptql.Investigations.Runs.Saved.{IsReady}
use promptql.Investigations.Runs.Ending.{Concluded}
use promptql.Investigations.Runs.Continuing.{IsContinued, continue_run-Concluded}
use promptql.Investigations.Runs.Service.{create_persisted_run, reopen_for_follow_up, continue_run}

completed_lem : (status : RunStatus) → is_completed status ≡ true → status ≡ RunStatus.completed
completed_lem RunStatus.completed h = refl
completed_lem RunStatus.pending h = ground arith
completed_lem RunStatus.running h = ground arith
completed_lem RunStatus.failed h = ground arith
completed_lem RunStatus.cancelled h = ground arith

module _ {Value : Type 0} ⦃key : Key Value⦄ where
  -- each call may meet other answers and another world
  pub data Case : InvestigationRun Value → Type 0 where
    created :
        (service : InvestigationService Value) (request : InvestigationRequest) (run_id : ℕ)
        (user_id : Option ℕ) (w w' : World Value) (run : InvestigationRun Value)
        → create_persisted_run service request run_id user_id w ≡ (returned run, w')
        → Case run
    continued :
        (service : InvestigationService Value) (run run' : InvestigationRun Value)
        (w w' : World Value)
        → Case run
        → run.status ≡ RunStatus.pending
        → continue_run service run none w ≡ (returned run', w')
        → Case run'
    asked :
        (service : InvestigationService Value) (run reopened run' : InvestigationRun Value)
        (question : String) (w w₁ w₂ w₃ : World Value)
        → Case run
        → reopen_for_follow_up service run w ≡ (returned reopened, w₁)
        → continue_run service reopened (some question) w₂ ≡ (returned run', w₃)
        → Case run'

  abbrev pub IsWhole : InvestigationRun Value → Type 0
  IsWhole run =
      ((state : InvestigationRuntimeSnapshot Value) × (run.state ≡ some state) × IsWithin state)
      × (length run.results ≡ run.follow_up_count + 1)

  record IsClosed (run : InvestigationRun Value) : Type 0 where
    valid : investigation_valid run ≡ true
    whole : run.status ≡ RunStatus.completed → IsWhole run

  returned_inj :
      (a b : InvestigationRun Value) (w w' : World Value)
      → ◌≡◌ {A = Outcome (InvestigationRun Value) × World Value} (returned a, w) (returned b, w')
      → a ≡ b
  returned_inj a b w w' e = cc

  module _ (service : InvestigationService Value) where
    created_lem :
        (request : InvestigationRequest) (run_id : ℕ) (user_id : Option ℕ) (w w' : World Value)
        (run : InvestigationRun Value)
        → create_persisted_run service request run_id user_id w ≡ (returned run, w')
        → pending_run request run_id user_id ≡ run
    unfolding create_persisted_run ◌>>=◌
    created_lem request run_id user_id w w' run e =
        elim (Bool-cases (service.refuses (pending_run request run_id user_id))) [
          | inl r ↦ ground (arith, e, r)
          | inr r ↦ returned_inj _ _ _ _ (rw r at e)
        ]

    reopened_lem :
        (run reopened : InvestigationRun Value) (w w' : World Value)
        → reopen_for_follow_up service run w ≡ (returned reopened, w')
        → (is_completed run.status ≡ true) × (reopened_run run (service.clock w.ticks) ≡ reopened)
    unfolding reopen_for_follow_up ◌>>=◌
    reopened_lem run reopened w w' e = elim (Bool-cases (is_completed run.status)) [
      | inl c ↦ elim (Bool-cases (service.refuses (reopened_run run (service.clock w.ticks)))) [
        | inl r ↦ ground (arith, e, c, r)
        | inr r ↦ (c, returned_inj _ _ _ _ (rw (c, r) at e))
      ]
      | inr c ↦ ground (arith, e, c)
    ]

    -- a run that was continued is closed, if it had a result for each question before
    continued_lem :
        (run run' : InvestigationRun Value) (question : Option String) (w w' : World Value)
        → IsReady run question
        → length run.results ≡ run.follow_up_count
        → continue_run service run question w ≡ (returned run', w')
        → IsClosed run'
    continued_lem run run' question w w' ready n e =
        let (before, last, grown, (is, ended)) =
          subst (λ z. Concluded service run w.saved (IsContinued run) z.0 z.1) e
            (continue_run-Concluded service run question w ready) in
        record {
          valid = is.valid;
          whole = λ c. elim ended [
            | inl h ↦
                let (done, state, has, within, more) = h in
                ((state, has, within), omega (arith, more, is.follow_up_count, n))
            | inr failed ↦ ground (arith, c, failed)
          ];
        }

  pending_results :
      (run : InvestigationRun Value)
      → investigation_valid run ≡ true
      → run.status ≡ RunStatus.pending
      → length run.results ≡ run.follow_up_count
  unfolding investigation_valid
  pending_results run v p =
      let h = subst (λ status. investigation_lifecycle status run ≡ true) p v in
      ground (arith, h, nat_eq_iff run.follow_up_count 0)

  pending-IsClosed :
      (request : InvestigationRequest) (run_id : ℕ) (user_id : Option ℕ)
      → IsClosed (pending_run request run_id user_id)
  unfolding investigation_valid
  pending-IsClosed request run_id user_id = record { valid = refl; whole = λ c. ground (arith, c) }

  -- a reopened run can be continued
  reopened-IsReady :
      (run : InvestigationRun Value) (t : ℕ) (question : String)
      → IsClosed run
      → is_completed run.status ≡ true
      → IsReady (reopened_run run t) (some question)
        × (length (reopened_run run t).results ≡ (reopened_run run t).follow_up_count)
  unfolding investigation_valid
  reopened-IsReady run t question closed c =
      let completed = completed_lem run.status c in
      let ((state, has, within), n) = closed.whole completed in
      let h = subst (λ status. investigation_lifecycle status run ≡ true) completed closed.valid in
      ((ground (arith, h), refl, state, has, within), n)

  Case-IsClosed : (run : InvestigationRun Value) → Case run → IsClosed run
  Case-IsClosed run (Case.created service request run_id user_id w w' _ e) =
      subst IsClosed (created_lem service request run_id user_id w w' run e)
        (pending-IsClosed request run_id user_id)
  Case-IsClosed run' (Case.continued service run _ w w' before p e) =
      let closed = Case-IsClosed run before in
      continued_lem service run run' none w w' (closed.valid, p)
        (pending_results run closed.valid p) e
  Case-IsClosed run' (Case.asked service run reopened _ question w w₁ w₂ w₃ before r e) =
      let (c, same) = reopened_lem service run reopened w w₁ r in
      let (ready, n) =
        subst (λ z. IsReady z (some question) × (length z.results ≡ z.follow_up_count)) same
          (reopened-IsReady run (service.clock w.ticks) question (Case-IsClosed run before) c) in
      continued_lem service reopened run' (some question) w₂ w₃ ready n e

  -- However often a case is continued with follow-up questions, and whatever happens in each of its
  -- investigations, a completed run of it has one result for its first question and one for each
  -- follow-up; all its rounds together are numbered from one and no more than three; and the attempts
  -- of their steps, which it counts as used calls, and the calls that are left are the one budget of
  -- ten.
  pub Case-IsWhole :
      (run : InvestigationRun Value) → Case run → run.status ≡ RunStatus.completed → IsWhole run
  Case-IsWhole run reached c = (Case-IsClosed run reached).whole c
