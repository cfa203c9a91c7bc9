-- ===== src/Runtime/Recurrence.antt =====
-- runtime/repository.py: `InMemoryFactRecurrenceRepository`, which counts how often a fact type was
-- observed in a repository and promotes it at the third time.
pub mod History
use Prim.Native.Nat.{Ordering}
use Prim.Native.String.{compare as compare_text}
use promptql.Prelude.{
  ℕ, zero, suc, ◌+◌, ◌≡◌, ◌↔◌, refl, String, Bool, true, false, ◌&&◌, Option, none, some, List, [],
  ◌∷◌, ◌++◌, arith, leb, length, map, filter, is_some, is_none, eq_iff, ◌==◌, if◌then◌else◌,
}
use promptql.Prelude.Sorting.{sorted_by}
use promptql.Prelude.Dict.{Dict, Key, lookup, insert, lookup-insert}

abbrev pub promotion_threshold : ℕ
promotion_threshold = 3

pub record FactRecurrenceRecord : Type 0 where
  pub repository_owner : String
  pub repository_name : String
  pub fact_type : String
  pub occurrence_count : ℕ
  pub first_observed_run_id : ℕ
  pub last_observed_run_id : ℕ
  pub last_observed_at : ℕ
  pub promoted_at : Option ℕ

-- the tuple that keys `_records`
abbrev pub FactKey : Type 0
FactKey = String × String × String

abbrev pub same_fact : FactKey → FactKey → Bool
same_fact (a, b, c) (a', b', c') = a == a' && (b == b' && c == c')

pub same_fact_iff : (k j : FactKey) → (same_fact k j ≡ true) ↔ (k ≡ j)
same_fact_iff (a, b, c) (a', b', c') = ground (arith, eq_iff a a', eq_iff b b', eq_iff c c')

instance abbrev pub fact_key : Key FactKey
fact_key = record { same = same_fact; same_iff = same_fact_iff }

abbrev pub Records : Type 0
Records = Dict FactKey FactRecurrenceRecord

abbrev pub first_record : FactKey → ℕ → ℕ → FactRecurrenceRecord
first_record (owner, name, fact) run_id observed_at = record {
  repository_owner = owner;
  repository_name = name;
  fact_type = fact;
  occurrence_count = 1;
  first_observed_run_id = run_id;
  last_observed_run_id = run_id;
  last_observed_at = observed_at;
  promoted_at = none;
}

abbrev pub promotion : FactRecurrenceRecord → ℕ → Option ℕ
promotion existing observed_at =
    if is_none existing.promoted_at && leb promotion_threshold (existing.occurrence_count + 1)
    then some observed_at
    else existing.promoted_at

abbrev pub next_record : Option FactRecurrenceRecord → FactKey → ℕ → ℕ → FactRecurrenceRecord
next_record none k run_id observed_at = first_record k run_id observed_at
next_record (some existing) k run_id observed_at = record existing {
  occurrence_count = existing.occurrence_count + 1;
  last_observed_run_id = run_id;
  last_observed_at = observed_at;
  promoted_at = promotion existing observed_at;
}

-- returns the record and the changed `_records`
unfoldable pub record_occurrence : Records → FactKey → ℕ → ℕ → FactRecurrenceRecord × Records
record_occurrence records k run_id observed_at =
    let r = next_record (lookup k records) k run_id observed_at in (r, insert k r records)

unfoldable pub get : Records → FactKey → Option FactRecurrenceRecord
get records k = lookup k records

abbrev pub is_promoted : String → String → FactKey × FactRecurrenceRecord → Bool
is_promoted repository_owner repository_name ((owner, name, fact), record_of) =
    owner == repository_owner && (name == repository_name && is_some record_of.promoted_at)

unfoldable pub list_promoted : Records → String → String → List FactRecurrenceRecord
list_promoted records repository_owner repository_name =
    sorted_by (λ r. r.fact_type)
      (map (λ item. item.1) (filter (is_promoted repository_owner repository_name) records))

-- what one call of `record_occurrence` was told
pub record Observation : Type 0 where
  pub fact : FactKey
  pub run_id : ℕ
  pub at : ℕ

unfoldable pub observe : Records → List Observation → Records
observe records [] = records
observe records (o ∷ os) = observe (record_occurrence records o.fact o.run_id o.at).1 os
