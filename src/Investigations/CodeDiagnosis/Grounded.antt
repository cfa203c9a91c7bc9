-- ===== src/Investigations/CodeDiagnosis/Grounded.antt =====
-- investigations/code_diagnosis/validator.py: which code findings are accepted.
use promptql.Prelude.{
  ◌≡◌, refl, sym, ◌∙◌, ◌↔◌, inl, inr, String, Bool, true, ◌&&◌, Option, none, some, List, [], ◌∷◌,
  ◌+◌, length, filter, any, is_none, arith, Option-cases, Bool-cases, if◌then◌else◌,
}
use promptql.Prelude.Dict.{Dict, text_key, lookup}
use promptql.Prelude.Indexed.{
  index_on, select, latest, lookup-index_on, Selects, select_sound, select_complete,
}
use promptql.Investigations.Facts.{InvestigationFact, id_of}
use promptql.Investigations.Plan.{known, unique}
use promptql.Investigations.Evidence.{Evidence}
use promptql.Investigations.PathNormalization.{paths_match}
use promptql.Investigations.Hypotheses.{ValidatedHypothesis, index_by_id}
use promptql.Investigations.CodeDiagnosis.{
  SuspectedCodeFinding, CodeFindingValidationFailureCode, ValidatedCodeFinding,
  CodeFindingValidationResult, EvidenceContent, same_set, cited, observes_change, observes_failure,
  location_path, leads_to, validated_finding, location_failure, evidence_failure, facts_failure,
  hypothesis_failure, finding_failure, validate_from, validate_findings,
}

abbrev pub hypothesis_id_of : ValidatedHypothesis → String
hypothesis_id_of h = h.hypothesis_id

-- the candidates whose identifiers no earlier candidate has, given those seen before
abbrev pub firsts : List String → List SuspectedCodeFinding → List SuspectedCodeFinding
firsts seen [] = []
firsts seen (c ∷ cs) =
    if known c.finding_id seen
    then firsts (c.finding_id ∷ seen) cs
    else c ∷ firsts (c.finding_id ∷ seen) cs

module _ {Value : Type 0} (content_of : Evidence Value → EvidenceContent)
    (hypotheses : List ValidatedHypothesis) (facts : List InvestigationFact)
    (evidence : List (Evidence Value)) where
  abbrev pub evidence_id_of : Evidence Value → String
  evidence_id_of e = e.evidence_id

  -- A candidate has the file and the facts of its hypothesis; its facts exist and cite just its
  -- evidence, which exists and shows that the file was changed and that it failed; and its location
  -- is one of the evidence, in that file.
  pub record IsGrounded (candidate : SuspectedCodeFinding) (location : Evidence Value)
      : Type 0 where
    pub hypothesis : ValidatedHypothesis
    pub chosen : List InvestigationFact
    pub seen : List (Evidence Value)
    pub distinct :
        unique candidate.supporting_fact_ids && unique candidate.supporting_evidence_ids ≡ true
    pub of_hypothesis : latest hypothesis_id_of candidate.hypothesis_id hypotheses ≡ some hypothesis
    pub same_file : paths_match candidate.file_path hypothesis.subject ≡ true
    pub chosen_facts : Selects id_of facts candidate.supporting_fact_ids chosen
    pub same_support : same_set hypothesis.supporting_fact_ids candidate.supporting_fact_ids ≡ true
    pub seen_evidence : Selects evidence_id_of evidence candidate.supporting_evidence_ids seen
    pub cites_all : same_set (cited chosen) candidate.supporting_evidence_ids ≡ true
    pub changed : any (λ e. observes_change candidate.file_path (content_of e)) seen ≡ true
    pub failed : any (λ e. observes_failure candidate.file_path (content_of e)) seen ≡ true
    pub cites_location :
        known candidate.location_evidence_id candidate.supporting_evidence_ids ≡ true
    pub located : latest evidence_id_of candidate.location_evidence_id evidence ≡ some location
    pub in_file : leads_to candidate.file_path (location_path (content_of location)) ≡ true

  abbrev hypotheses_by_id : Dict String ValidatedHypothesis
  hypotheses_by_id = index_on hypothesis_id_of [] hypotheses

  abbrev evidence_by_id : Dict String (Evidence Value)
  evidence_by_id = index_on evidence_id_of [] evidence

  located_sound :
      (c : SuspectedCodeFinding) (chosen : List InvestigationFact) (seen : List (Evidence Value))
      (found : Option (Evidence Value))
      → location_failure content_of c chosen seen found ≡ none
      → (location : Evidence Value) × (found ≡ some location)
        × (same_set (cited chosen) c.supporting_evidence_ids ≡ true)
        × (any (λ e. observes_change c.file_path (content_of e)) seen ≡ true)
        × (any (λ e. observes_failure c.file_path (content_of e)) seen ≡ true)
        × (known c.location_evidence_id c.supporting_evidence_ids ≡ true)
        × (leads_to c.file_path (location_path (content_of location)) ≡ true)
  unfolding location_failure
  located_sound c chosen seen none h = ground arith
  located_sound c chosen seen (some location) h =
      (location, refl, ground arith, ground arith, ground arith, ground arith, ground arith)

  evidence_sound :
      (c : SuspectedCodeFinding) (chosen : List InvestigationFact)
      (found : Option (List (Evidence Value)))
      → evidence_failure content_of c evidence_by_id chosen found ≡ none
      → (seen : List (Evidence Value)) × (found ≡ some seen)
        × (location_failure content_of c chosen seen (lookup c.location_evidence_id evidence_by_id)
            ≡ none)
  evidence_sound c chosen none h = ground arith
  evidence_sound c chosen (some seen) h = (seen, refl, h)

  facts_sound :
      (c : SuspectedCodeFinding) (hypothesis : ValidatedHypothesis)
      (found : Option (List InvestigationFact))
      → facts_failure content_of c hypothesis evidence_by_id found ≡ none
      → (chosen : List InvestigationFact) × (found ≡ some chosen)
        × (same_set hypothesis.supporting_fact_ids c.supporting_fact_ids ≡ true)
        × (evidence_failure content_of c evidence_by_id chosen
              (select evidence_by_id c.supporting_evidence_ids)
            ≡ none)
  facts_sound c hypothesis none h = ground arith
  facts_sound c hypothesis (some chosen) h = (chosen, refl, ground arith, ground arith)

  hypothesis_sound :
      (c : SuspectedCodeFinding) (found : Option ValidatedHypothesis)
      → hypothesis_failure content_of c (index_by_id facts) evidence_by_id found ≡ none
      → (hypothesis : ValidatedHypothesis) × (found ≡ some hypothesis)
        × (paths_match c.file_path hypothesis.subject ≡ true)
        × (facts_failure content_of c hypothesis evidence_by_id
              (select (index_by_id facts) c.supporting_fact_ids)
            ≡ none)
  hypothesis_sound c none h = ground arith
  hypothesis_sound c (some hypothesis) h = (hypothesis, refl, ground arith, ground arith)

  abbrev failure : SuspectedCodeFinding → Option CodeFindingValidationFailureCode
  failure c = finding_failure content_of c hypotheses_by_id (index_by_id facts) evidence_by_id

  failure_sound :
      (c : SuspectedCodeFinding)
      → failure c ≡ none
      → (location : Evidence Value) × IsGrounded c location
  unfolding finding_failure
  failure_sound c h =
      let (hypothesis, e₁, file, h₁) =
        hypothesis_sound c (lookup c.hypothesis_id hypotheses_by_id) (ground arith) in
      let (chosen, e₂, support, h₂) = facts_sound c hypothesis _ h₁ in
      let (seen, e₃, h₃) = evidence_sound c chosen _ h₂ in
      let (location, e₄, cites, change, fail, loc, path) = located_sound c chosen seen _ h₃ in
      (
        location,
        record {
          hypothesis = hypothesis;
          chosen = chosen;
          seen = seen;
          distinct = ground arith;
          of_hypothesis = sym (lookup-index_on hypothesis_id_of c.hypothesis_id hypotheses) ∙ e₁;
          same_file = file;
          chosen_facts = select_sound id_of facts c.supporting_fact_ids chosen e₂;
          same_support = support;
          seen_evidence = select_sound evidence_id_of evidence c.supporting_evidence_ids seen e₃;
          cites_all = cites;
          changed = change;
          failed = fail;
          cites_location = loc;
          located = sym (lookup-index_on evidence_id_of c.location_evidence_id evidence) ∙ e₄;
          in_file = path;
        },
      )

  found_location :
      (c : SuspectedCodeFinding) (location : Evidence Value)
      → IsGrounded c location
      → lookup c.location_evidence_id evidence_by_id ≡ some location
  found_location c location g =
      lookup-index_on evidence_id_of c.location_evidence_id evidence ∙ g.located

  failure_complete :
      (c : SuspectedCodeFinding) (location : Evidence Value)
      → IsGrounded c location
      → failure c ≡ none
  unfolding finding_failure location_failure
  failure_complete c location g =
      rw
        (
          g.distinct,
          lookup-index_on hypothesis_id_of c.hypothesis_id hypotheses ∙ g.of_hypothesis,
          g.same_file,
          select_complete id_of facts c.supporting_fact_ids g.chosen g.chosen_facts,
          g.same_support,
          select_complete evidence_id_of evidence c.supporting_evidence_ids g.seen g.seen_evidence,
          g.cites_all,
          g.changed,
          g.failed,
          g.cites_location,
          found_location c location g,
          g.in_file,
        )
        refl

  -- the findings are those of the candidates, one for one, each of which is grounded
  abbrev pub Grounds : List SuspectedCodeFinding → List ValidatedCodeFinding → Type 0
  Grounds [] [] = Unit
  Grounds (c ∷ cs) (f ∷ fs) =
      ((location : Evidence Value) × IsGrounded c location
        × (f ≡ validated_finding c location.evidence_id (content_of location)))
      × Grounds cs fs
  Grounds _ _ = ⊥

  abbrev passes : SuspectedCodeFinding → Bool
  passes c = is_none (failure c)

  passes_iff :
      (c : SuspectedCodeFinding)
      → (passes c ≡ true) ↔ ((location : Evidence Value) × IsGrounded c location)
  passes_iff c = (
    (λ h. failure_sound c (ground arith)),
    (λ g. let (location, grounded) = g in rw (failure_complete c location grounded) refl),
  )

  accepted_lem :
      (seen : List String) (candidates : List SuspectedCodeFinding)
      → (result : CodeFindingValidationResult) × (validate_from content_of hypotheses_by_id
            (index_by_id facts)
            evidence_by_id
            seen
            candidates
          ≡ some result)
        × Grounds (filter passes (firsts seen candidates)) result.accepted_findings
        × (length result.accepted_findings + length result.rejected_candidates ≡ length candidates)
  unfolding validate_from
  accepted_lem seen [] = (_, refl, tt, refl)
  accepted_lem seen (c ∷ candidates) =
      let (result, e, accepted, n) = accepted_lem (c.finding_id ∷ seen) candidates in
      elim (Bool-cases (known c.finding_id seen)) [
        | inl k ↦ rw (k, e) (_, refl, accepted, omega arith)
        | inr k ↦ elim (Option-cases (failure c)) [
          | inl f ↦
              let (location, grounded) = failure_sound c f in
              rw (k, e, f, found_location c location grounded)
                (_, refl, ((location, grounded, refl), accepted), omega arith)
          | inr (reason, f) ↦ rw (k, e, f) (_, refl, accepted, omega arith)
        ]
      ]

  -- Validating code findings returns, and accepts just the grounded candidates among those whose
  -- identifiers no earlier candidate has, in their order, with their locations; each candidate is
  -- accepted or rejected. A candidate is grounded when it has the file and the facts of an accepted
  -- hypothesis, these facts cite just the evidence of the candidate, the evidence shows that the
  -- file was changed and that it failed, and the location is one of the evidence, in that file.
  pub validate_findings-accepts :
      (candidates : List SuspectedCodeFinding)
      → (p : SuspectedCodeFinding → Bool) × ((c : SuspectedCodeFinding)
          → (p c ≡ true) ↔ ((location : Evidence Value) × IsGrounded c location))
        × (result : CodeFindingValidationResult) × (validate_findings content_of candidates
              hypotheses facts evidence
            ≡ some result)
        × Grounds (filter p (firsts [] candidates)) result.accepted_findings
        × (length result.accepted_findings + length result.rejected_candidates ≡ length candidates)
  unfolding validate_findings
  validate_findings-accepts candidates =
      let (result, e, accepted, n) = accepted_lem [] candidates in
      (passes, passes_iff, result, e, accepted, n)
