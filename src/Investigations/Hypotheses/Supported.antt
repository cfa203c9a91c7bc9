-- ===== src/Investigations/Hypotheses/Supported.antt =====
-- investigations/hypotheses/validator.py: which hypotheses are accepted.
use promptql.Prelude.{
  ◌≡◌, refl, ap, ◌↔◌, inl, inr, String, Bool, true, not, Option, none, some, List, [], ◌∷◌, map,
  filter, any, is_none, arith, Option-cases,
}
use promptql.Prelude.Indexed.{select, Selects, select_sound, select_complete}
use promptql.Investigations.Facts.{InvestigationFact, id_of}
use promptql.Investigations.Plan.{unique}
use promptql.Investigations.Hypotheses.{
  CandidateHypothesis, index_by_id, selected_failure, supports_change, supports_location,
  support_failure, rejection_reason, validated, validate_candidates, validate_hypotheses,
}

-- The candidate names different facts; one is a changed file and one a location of the failure, and
-- both are about its subject.
abbrev pub IsSupported : List InvestigationFact → CandidateHypothesis → Type 0
IsSupported facts candidate =
    (unique candidate.supporting_fact_ids ≡ true)
    × (selected : List InvestigationFact) × Selects id_of facts candidate.supporting_fact_ids
        selected
    × (any (supports_change candidate.subject) selected ≡ true)
    × (any (supports_location candidate.subject) selected ≡ true)

supported_lem :
    (subject : String) (facts : List InvestigationFact)
    → support_failure subject facts ≡ none
    → (any (supports_change subject) facts ≡ true) × (any (supports_location subject) facts ≡ true)
unfolding support_failure
supported_lem subject facts h = ground arith

support_lem :
    (subject : String) (facts : List InvestigationFact)
    → any (supports_change subject) facts ≡ true
    → any (supports_location subject) facts ≡ true
    → support_failure subject facts ≡ none
unfolding support_failure
support_lem subject facts h k = ground arith

selected_sound :
    (facts : List InvestigationFact) (candidate : CandidateHypothesis)
    (found : Option (List InvestigationFact))
    → select (index_by_id facts) candidate.supporting_fact_ids ≡ found
    → selected_failure candidate.subject found ≡ none
    → unique candidate.supporting_fact_ids ≡ true
    → IsSupported facts candidate
selected_sound facts candidate none e h u = ground arith
selected_sound facts candidate (some selected) e h u =
    let (change, location) = supported_lem candidate.subject selected h in
    (
      u,
      selected,
      select_sound id_of facts candidate.supporting_fact_ids selected e,
      change,
      location,
    )

abbrev passes : List InvestigationFact → CandidateHypothesis → Bool
passes facts candidate = is_none (rejection_reason candidate (index_by_id facts))

passes_iff :
    (facts : List InvestigationFact) (candidate : CandidateHypothesis)
    → (passes facts candidate ≡ true) ↔ IsSupported facts candidate
unfolding rejection_reason
passes_iff facts candidate = (
  (λ h.
      selected_sound facts candidate (select (index_by_id facts) candidate.supporting_fact_ids) refl
        (ground arith) (ground arith)),
  (λ s.
      let (u, selected, picked, change, location) = s in
      rw
        (
          u,
          select_complete id_of facts candidate.supporting_fact_ids selected picked,
          support_lem candidate.subject selected change location,
        )
        refl),
)

accepted_lem :
    (candidates : List CandidateHypothesis) (facts : List InvestigationFact)
    → let result = validate_candidates candidates (index_by_id facts) in
      (result.accepted_hypotheses ≡ map validated (filter (passes facts) candidates))
      × (map (λ r. r.candidate) result.rejected_candidates
          ≡ filter (λ c. not (passes facts c)) candidates)
unfolding validate_candidates
accepted_lem [] facts = (refl, refl)
accepted_lem (candidate ∷ candidates) facts =
    let (a, r) = accepted_lem candidates facts in
    elim (Option-cases (rejection_reason candidate (index_by_id facts))) [
      | inl e ↦ rw e (ap (λ z. validated candidate ∷ z) a, r)
      | inr (reason, e) ↦ rw e (a, ap (λ z. candidate ∷ z) r)
    ]

-- Of any candidates, those that the facts support are accepted, and all others are rejected, both
-- in their order. A candidate is supported when it names different facts, all of which exist, one
-- of them a changed file and one a location of the failure that are about its subject.
pub validate_hypotheses-accepts :
    (candidates : List CandidateHypothesis) (facts : List InvestigationFact)
    → (p : CandidateHypothesis → Bool) × ((c : CandidateHypothesis)
        → (p c ≡ true) ↔ IsSupported facts c)
      × ((validate_hypotheses candidates facts).accepted_hypotheses
          ≡ map validated (filter p candidates))
      × (map (λ r. r.candidate) (validate_hypotheses candidates facts).rejected_candidates
          ≡ filter (λ c. not (p c)) candidates)
unfolding validate_hypotheses
validate_hypotheses-accepts candidates facts =
    let (a, r) = accepted_lem candidates facts in (passes facts, passes_iff facts, a, r)
