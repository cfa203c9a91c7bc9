-- ===== src/Workflow/Hoare.antt =====
-- Invariants of the workflow's snapshots, whatever the repository raises: rules for the actions that
-- the methods are made of.
use native.Mathlib.Nat.{le_of_eq}
use promptql.Prelude.{
  ℕ, ◌≤◌, ◌≡◌, refl, ◌∙◌, ap, sym, true, Option, none, some, List, [], ◌∷◌, ◌++◌, All, All-append,
  All-imp, arith,
}
use promptql.Connectors.{ConnectorRequest}
use promptql.Policy.Models.{MergeReadinessResult}
use promptql.Runtime.Models.{RunStatus, RuntimeErrorInfo, MergeReadinessRun, run_valid}
use promptql.Runtime.State.{Result, ok, err, dumped, replace_run, transition_run}
use promptql.Runtime.Lifecycle.{
  progress, replace_run_ok, transition_run-IsMoved, transition_run-progress,
}
use promptql.Workflow.World.{
  PersistenceCheckpoint, RepositoryError, Service, Event, World, Raised, Outcome, returned, raised,
  Exec, ◌>>=◌, continue, save_result, pure, raise, lift, emit, now, tick, new_id, save,
}

abbrev pub Snapshot : Type 0
Snapshot = PersistenceCheckpoint × MergeReadinessRun

-- a valid snapshot of one run
pub record IsOf (id : ℕ) (request : ConnectorRequest) (run : MergeReadinessRun) : Type 0 where
  pub valid : run_valid run ≡ true
  pub identity : run.run_id ≡ id
  pub request_kept : run.request ≡ request

abbrev pub Behind : MergeReadinessRun → Snapshot → Type 0
Behind run s = progress s.1.status ≤ progress run.status

-- no snapshot is followed by one of an earlier status
abbrev pub NeverBack : List Snapshot → Type 0
NeverBack [] = Unit
NeverBack (s ∷ ss) = All (λ t. progress s.1.status ≤ progress t.1.status) ss × NeverBack ss

NeverBack-snoc :
    (ss : List Snapshot) (checkpoint : PersistenceCheckpoint) (run : MergeReadinessRun)
    → NeverBack ss
    → All (Behind run) ss
    → NeverBack (ss ++ (checkpoint, run) ∷ [])
NeverBack-snoc [] checkpoint run h b = (tt, tt)
NeverBack-snoc (s ∷ ss) checkpoint run h b =
    (All-append _ ss _ h.0 (b.0, tt), NeverBack-snoc ss checkpoint run h.1 b.1)

module _ (id : ℕ) (request : ConnectorRequest) where
  pub record Inv (w : World) : Type 0 where
    pub all_valid : All (λ s. IsOf id request s.1) w.snapshots
    pub never_back : NeverBack w.snapshots

  -- the invariant holds, and `run` may be saved next
  pub record At (run : MergeReadinessRun) (w : World) : Type 0 where
    pub inv : Inv w
    pub is_of : IsOf id request run
    pub behind : All (Behind run) w.snapshots

  abbrev pub After : {A : Type 0} → (A → World → Type 0) → Outcome A → World → Type 0
  After Q (returned a) w = Q a w
  After Q (raised e) w = Inv w

  pub record Triple {A : Type 0} (P : World → Type 0) (m : Exec A) (Q : A → World → Type 0)
      : Type 0 where
    pub at : (w : World) → P w → After Q (m w).0 (m w).1

  module _ {A B : Type 0} (Q : A → World → Type 0) (R : B → World → Type 0) where
    After-continue :
        (r : Outcome A) (f : A → Exec B) (w : World)
        → ((a : A) → Triple (Q a) (f a) R)
        → After Q r w
        → After R (continue r f w).0 (continue r f w).1
    After-continue (returned a) f w tf h = (tf a).at w h
    After-continue (raised e) f w tf h = h

    pub Triple-bind :
        {P : World → Type 0} (m : Exec A) (f : A → Exec B)
        → Triple P m Q
        → ((a : A) → Triple (Q a) (f a) R)
        → Triple P (m >>= f) R
    unfolding ◌>>=◌
    Triple-bind m f tm tf = record { at = λ w h. After-continue (m w).0 f (m w).1 tf (tm.at w h) }

  pub Triple-pure :
      {A : Type 0} {P : World → Type 0} {Q : A → World → Type 0} (a : A)
      → ((w : World) → P w → Q a w)
      → Triple P (pure a) Q
  unfolding pure
  Triple-pure a f = record { at = f }

  pub Triple-raise :
      {A : Type 0} {Q : A → World → Type 0} (run : MergeReadinessRun) (e : Raised)
      → Triple (At run) (raise e) Q
  unfolding raise
  Triple-raise run e = record { at = λ w h. h.inv }

  -- the actions that save nothing
  module _ (run : MergeReadinessRun) where
    abbrev pub Still : {A : Type 0} → Exec A → Type 0
    Still m = Triple (At run) m (λ _. At run)

    pub Still-pure : {A : Type 0} (a : A) → Still (pure a)
    unfolding pure
    Still-pure a = record { at = λ w h. h }

    pub Still-raise : {A : Type 0} (e : Raised) → Still (raise {A = A} e)
    unfolding raise
    Still-raise e = record { at = λ w h. h.inv }

    moved : {w w' : World} → w'.snapshots ≡ w.snapshots → At run w → At run w'
    moved e h = record {
      inv = record { all_valid = rw e h.inv.all_valid; never_back = rw e h.inv.never_back };
      is_of = h.is_of;
      behind = rw e h.behind;
    }

    pub Still-emit : (e : Event) → Still (emit e)
    unfolding emit
    Still-emit e = record { at = λ w h. moved refl h }

    pub Still-lift : {A : Type 0} (r : Result A) → Still (lift r)
    unfolding lift
    Still-lift (ok a) = record { at = λ w h. h }
    Still-lift (err e) = record { at = λ w h. h.inv }

    module _ (service : Service) where
      pub Still-now : Still (now service)
      unfolding now
      Still-now = record { at = λ w h. moved refl h }

      pub Still-tick : Still (tick service)
      unfolding tick
      Still-tick = record { at = λ w h. moved refl h }

      pub Still-new_id : Still (new_id service)
      unfolding new_id
      Still-new_id = record { at = λ w h. moved refl h }

      save_result-At :
          (e : Option RepositoryError) (checkpoint : PersistenceCheckpoint) (w : World)
          → At run w
          → After At (save_result e run checkpoint w).0 (save_result e run checkpoint w).1
      save_result-At none checkpoint w h = record {
        inv = record {
          all_valid = All-append _ w.snapshots _ h.inv.all_valid (h.is_of, tt);
          never_back = NeverBack-snoc w.snapshots checkpoint run h.inv.never_back h.behind;
        };
        is_of = h.is_of;
        behind = All-append (Behind run) w.snapshots _ h.behind (omega arith, tt);
      }
      save_result-At (some e) checkpoint w h = record {
        all_valid = h.inv.all_valid;
        never_back = h.inv.never_back;
      }

      -- what may be saved may be saved again
      pub Triple-save :
          (checkpoint : PersistenceCheckpoint) → Triple (At run) (save service run checkpoint) At
      unfolding save
      Triple-save checkpoint = record {
        at = λ w h. save_result-At (service.save_error w.saves) checkpoint w h;
      }

  -- an update of fields other than the status, the identity and the request
  pub record KeepsStatus (updates : MergeReadinessRun → MergeReadinessRun) : Type 0 where
    pub status : (v : MergeReadinessRun) → (updates v).status ≡ v.status
    pub identity : (v : MergeReadinessRun) → (updates v).run_id ≡ v.run_id
    pub asked : (v : MergeReadinessRun) → (updates v).request ≡ v.request

  module _ (run : MergeReadinessRun) where
    lift-At :
        (r : Result MergeReadinessRun) (w : World)
        → At run w
        → ((run' : MergeReadinessRun)
            → r ≡ ok run'
            → IsOf id request run' × (progress run.status ≤ progress run'.status))
        → After At (lift r w).0 (lift r w).1
    unfolding lift
    lift-At (ok run') w h good =
        let (is, further) = good run' refl in
        record {
          inv = h.inv;
          is_of = is;
          behind = All-imp (λ s b. omega arith) w.snapshots h.behind;
        }
    lift-At (err e) w h good = h.inv

    pub Triple-replace :
        (updates : MergeReadinessRun → MergeReadinessRun)
        → KeepsStatus updates
        → Triple (At run) (lift (replace_run run updates)) At
    Triple-replace updates keeps = record {
      at = λ w h. lift-At (replace_run run updates) w h (λ run' e.
          let (same, valid) = replace_run_ok run updates run' e in
          (
            record {
              valid = valid;
              identity = ap (λ v. v.run_id) same ∙ keeps.identity (dumped run) ∙ h.is_of.identity;
              request_kept =
                  ap (λ v. v.request) same ∙ keeps.asked (dumped run) ∙ h.is_of.request_kept;
            },
            le_of_eq (ap progress (sym (ap (λ v. v.status) same ∙ keeps.status (dumped run)))),
          ));
    }

    pub Triple-transition :
        (status : RunStatus) (t : ℕ) (error : Option RuntimeErrorInfo)
        (result : Option MergeReadinessResult)
        → Triple (At run) (lift (transition_run run status t error result)) At
    Triple-transition status t error result = record {
      at = λ w h. lift-At (transition_run run status t error result) w h (λ run' e.
          let m = transition_run-IsMoved run status t error result run' h.is_of.valid e in
          let further = transition_run-progress run status t error result run' e in
          (
            record {
              valid = m.valid;
              identity = m.identity ∙ h.is_of.identity;
              request_kept = m.asked ∙ h.is_of.request_kept;
            },
            omega arith,
          ));
    }
