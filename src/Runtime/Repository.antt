-- ===== src/Runtime/Repository.antt =====
-- runtime/repository.py: `InMemoryRunRepository`, with the ownership test of `get`.
use promptql.Prelude.{
  ℕ, ◌≡◌, Bool, true, false, ◌||◌, Option, none, some, List, [], ◌∷◌, ◌++◌, arith, nat_eq,
  nat_eq_iff, is_none, refl, sym, ap, ◌⊎◌, inl, inr, Bool-cases, if◌then◌else◌,
}
use promptql.Prelude.Dict.{Dict, lookup, insert, lookup-insert, number_key}
use promptql.Runtime.Models.{MergeReadinessRun}

pub record RunRepository : Type 0 where
  pub runs : Dict ℕ MergeReadinessRun
  pub history : List MergeReadinessRun

abbrev pub no_runs : RunRepository
no_runs = record { runs = []; history = [] }

unfoldable pub save : RunRepository → MergeReadinessRun → RunRepository
save repository run = record {
  runs = insert run.run_id run repository.runs;
  history = repository.history ++ run ∷ [];
}

-- `a == b` for `UUID | None`
abbrev pub same_user : Option ℕ → Option ℕ → Bool
same_user none none = true
same_user (some a) (some b) = nat_eq a b
same_user _ _ = false

abbrev pub visible : Option ℕ → MergeReadinessRun → Option MergeReadinessRun
visible user_id run =
    if is_none run.user_id || same_user run.user_id user_id then some run else none

abbrev pub owned_by : Option ℕ → Option MergeReadinessRun → Option MergeReadinessRun
owned_by user_id none = none
owned_by user_id (some run) = visible user_id run

unfoldable pub get : RunRepository → ℕ → Option ℕ → Option MergeReadinessRun
get repository run_id user_id = owned_by user_id (lookup run_id repository.runs)

-- a run without owner is everybody's, and any other its owner's
abbrev pub IsOpenTo : Option ℕ → MergeReadinessRun → Type 0
IsOpenTo user_id run =
    (run.user_id ≡ none) ⊎ ((owner : ℕ) × (run.user_id ≡ some owner) × (user_id ≡ some owner))

abbrev pub IsClosedTo : Option ℕ → MergeReadinessRun → Type 0
IsClosedTo user_id run = (owner : ℕ) × (run.user_id ≡ some owner) × ¬ (user_id ≡ some owner)

visible_cases :
    (user_id owner : Option ℕ) (run : MergeReadinessRun)
    → run.user_id ≡ owner
    → ((visible user_id run ≡ some run) × IsOpenTo user_id run)
      ⊎ ((visible user_id run ≡ none) × IsClosedTo user_id run)
visible_cases user_id none run o = inl (rw o refl, inl o)
visible_cases none (some owner) run o = inr (rw o refl, (owner, o, λ e. cc))
visible_cases (some user) (some owner) run o = elim (Bool-cases (nat_eq owner user)) [
  | inl e ↦
      let same = (nat_eq_iff owner user).0 e in
      inl (rw (o, e) refl, inr (owner, o, sym (ap some same)))
  | inr e ↦ inr (rw (o, e) refl, (owner, o, λ h. ground (arith, h, e, nat_eq_iff owner user)))
]

-- After a save, a reader of that run sees the saved snapshot, if it has no owner or the reader is its
-- owner, and nothing, if it has another owner; a reader of any other run sees what it saw before.
pub get-save :
    (repository : RunRepository) (run : MergeReadinessRun) (run_id : ℕ) (user_id : Option ℕ)
    → ((run.run_id ≡ run_id)
        × (((get (save repository run) run_id user_id ≡ some run) × IsOpenTo user_id run)
            ⊎ ((get (save repository run) run_id user_id ≡ none) × IsClosedTo user_id run)))
      ⊎ (¬ (run.run_id ≡ run_id)
          × (get (save repository run) run_id user_id ≡ get repository run_id user_id))
unfolding get save
get-save repository run run_id user_id =
    let found = lookup-insert run.run_id run_id run repository.runs in
    elim (Bool-cases (nat_eq run.run_id run_id)) [
      | inl e ↦ inl (
        (nat_eq_iff run.run_id run_id).0 e,
        rw (found, e) (visible_cases user_id run.user_id run refl),
      )
      | inr e ↦ inr ((λ h. ground (arith, h, e, nat_eq_iff run.run_id run_id)), rw (found, e) refl)
    ]

-- A run that has an owner is shown to nobody else, whatever was saved before.
pub get_owner :
    (repository : RunRepository) (run_id owner : ℕ) (user_id : Option ℕ) (run : MergeReadinessRun)
    → get repository run_id user_id ≡ some run
    → run.user_id ≡ some owner
    → user_id ≡ some owner
unfolding get
get_owner repository run_id owner none run h o = ground arith
get_owner repository run_id owner (some u) run h o = ground (arith, nat_eq_iff owner u)
