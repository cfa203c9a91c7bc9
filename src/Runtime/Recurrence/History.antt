-- ===== src/Runtime/Recurrence/History.antt =====
-- The recurrence repository against the plain history of what it was told.
use promptql.Prelude.{
  ℕ, suc, ◌+◌, ◌≡◌, refl, ap, ◌∙◌, Option, none, some, List, [], ◌∷◌, arith, length, inl, inr,
  Bool-cases, if◌then◌else◌,
}
use promptql.Prelude.Dict.{lookup, insert, lookup-insert}
use promptql.Runtime.Recurrence.{
  FactRecurrenceRecord, FactKey, fact_key, Records, next_record, record_occurrence, get,
  Observation, observe,
}

-- the observations of one fact, in order
abbrev pub only : FactKey → List Observation → List Observation
only k [] = []
only k (o ∷ os) = if fact_key.same o.fact k then o ∷ only k os else only k os

abbrev last_of : Observation → List Observation → Observation
last_of o [] = o
last_of o (p ∷ os) = last_of p os

-- the time of the third observation
abbrev third : List Observation → Option ℕ
third (a ∷ b ∷ c ∷ os) = some c.at
third _ = none

abbrev pub summary : FactKey → List Observation → Option FactRecurrenceRecord
summary k [] = none
summary k (o ∷ os) = some (record {
  repository_owner = k.0;
  repository_name = k.1;
  fact_type = k.2;
  occurrence_count = suc (length os);
  first_observed_run_id = o.run_id;
  last_observed_run_id = (last_of o os).run_id;
  last_observed_at = (last_of o os).at;
  promoted_at = third (o ∷ os);
})

-- The record of a fact after `observe` is that of its own observations alone.
follow : FactKey → Option FactRecurrenceRecord → List Observation → Option FactRecurrenceRecord
follow k r [] = r
follow k r (o ∷ os) = follow k (some (next_record r k o.run_id o.at)) os

get-observe :
    (k : FactKey) (os : List Observation) (records : Records)
    → get (observe records os) k ≡ follow k (get records k) (only k os)
unfolding get observe record_occurrence follow
get-observe k [] records = refl
get-observe k (o ∷ os) records =
    get-observe k os (insert o.fact now records)
    ∙ (rw (lookup-insert o.fact k now records) (elim (Bool-cases (fact_key.same o.fact k)) [
      | inl same ↦
          let e : o.fact ≡ k = (fact_key.same_iff o.fact k).0 same in
          rw same (
            ap
              (λ (j : FactKey).
                follow k (some (next_record (lookup j records) j o.run_id o.at)) (only k os))
              e)
      | inr other ↦ rw other refl
    ]))
  where
    now : FactRecurrenceRecord
    now = next_record (lookup o.fact records) o.fact o.run_id o.at

-- what more observations make of a record that has been promoted
abbrev continued : FactRecurrenceRecord → List Observation → FactRecurrenceRecord
continued r [] = r
continued r (o ∷ os) = record r {
  occurrence_count = r.occurrence_count + suc (length os);
  last_observed_run_id = (last_of o os).run_id;
  last_observed_at = (last_of o os).at;
}

continued-next :
    (k : FactKey) (r : FactRecurrenceRecord) (t : ℕ) (o : Observation) (os : List Observation)
    → r.promoted_at ≡ some t
    → continued (next_record (some r) k o.run_id o.at) os ≡ continued r (o ∷ os)
continued-next k r t o [] e = ground arith
continued-next k r t o (p ∷ os) e = ground arith

follow_promoted :
    (k : FactKey) (r : FactRecurrenceRecord) (t : ℕ) (os : List Observation)
    → r.promoted_at ≡ some t
    → follow k (some r) os ≡ some (continued r os)
unfolding follow
follow_promoted k r t [] e = refl
follow_promoted k r t (o ∷ os) e =
    follow_promoted k (next_record (some r) k o.run_id o.at) t os (ground arith)
    ∙ ap some (continued-next k r t o os e)

follow-eq-summary : (k : FactKey) (os : List Observation) → follow k none os ≡ summary k os
unfolding follow
follow-eq-summary k [] = refl
follow-eq-summary k (a ∷ []) = refl
follow-eq-summary k (a ∷ b ∷ []) = refl
follow-eq-summary k (a ∷ b ∷ c ∷ []) = refl
follow-eq-summary k (a ∷ b ∷ c ∷ d ∷ os) =
    follow_promoted k third_record c.at (d ∷ os) refl ∙ ground arith
  where
    third_record : FactRecurrenceRecord
    third_record =
        next_record (some (next_record (some (next_record none k a.run_id a.at)) k b.run_id b.at)) k
          c.run_id c.at

-- Whatever was observed, in whatever interleaving, the record of a fact type is the summary of its
-- own observations: their number, the first run, the last run and time, and as promotion time that
-- of the third.
pub get-observe_all :
    (k : FactKey) (os : List Observation) → get (observe [] os) k ≡ summary k (only k os)
unfolding get lookup
get-observe_all k os = get-observe k os [] ∙ follow-eq-summary k (only k os)
