-- ===== src/Investigations/Rendering/Accepted.antt =====
-- investigations/hypotheses/rendering.py: what the validators of hypotheses and of code findings
-- accept is rendered without an exception.
use promptql.Prelude.{
  ◌≡◌, refl, sym, ap, subst, inl, inr, String, Bool, true, false, some, List, [], ◌∷◌, map, filter,
  any, All, arith, Bool-cases, ◌==◌, eq_iff, if◌then◌else◌,
}
use promptql.Prelude.Dict.{text_key}
use promptql.Prelude.Indexed.{latest, Selects-found, AreApart}
use promptql.Investigations.Facts.{InvestigationFact, id_of}
use promptql.Investigations.Plan.{known}
use promptql.Investigations.Evidence.{Evidence}
use promptql.Investigations.Execution.State.{MissingInformation}
use promptql.Investigations.Hypotheses.{
  CandidateHypothesis, ValidatedHypothesis, validated, validate_hypotheses,
}
use promptql.Investigations.Hypotheses.Supported.{validate_hypotheses-accepts}
use promptql.Investigations.CodeDiagnosis.{
  SuspectedCodeFinding, ValidatedCodeFinding, CodeFindingValidationResult, EvidenceContent,
  validate_findings,
}
use promptql.Investigations.CodeDiagnosis.Grounded.{
  hypothesis_id_of, firsts, Grounds, validate_findings-accepts,
}
use promptql.Investigations.CodeDiagnosis.Remediation.{
  DeveloperRecommendationCode, build_developer_recommendations,
}
use promptql.Investigations.Rendering.{
  GroundedTerminationReason, GroundedInvestigationResult, render_grounded_result,
}
use promptql.Investigations.Rendering.Renders.{
  finding_id_of, AreRenderable, BelongsTo, IsRendering, renders,
}

All-map_filter :
    {A B : Type 0} (f : A → B) (p : A → Bool) (P : B → Type 0) (xs : List A)
    → ((x : A) → p x ≡ true → P (f x))
    → All P (map f (filter p xs))
All-map_filter f p P [] h = tt
All-map_filter f p P (x ∷ xs) h = elim (Bool-cases (p x)) [
  | inl e ↦ rw e (h x e, All-map_filter f p P xs h)
  | inr e ↦ rw e (All-map_filter f p P xs h)
]

pub accepted-AreRenderable :
    (candidates : List CandidateHypothesis) (facts : List InvestigationFact)
    → AreRenderable facts (validate_hypotheses candidates facts).accepted_hypotheses
accepted-AreRenderable candidates facts =
    let (p, iff, accepted, rejected) = validate_hypotheses-accepts candidates facts in
    subst (AreRenderable facts) (sym accepted) (
      All-map_filter validated p _ candidates (λ c e.
        let (u, selected, picked, change, location) = (iff c).0 e in
        Selects-found id_of facts c.supporting_fact_ids selected picked))

latest-known :
    (id : String) (hypotheses : List ValidatedHypothesis) (h : ValidatedHypothesis)
    → latest hypothesis_id_of id hypotheses ≡ some h
    → known id (map hypothesis_id_of hypotheses) ≡ true
latest-known id [] h e = ground arith
latest-known id (x ∷ hypotheses) h e =
    ground (arith, latest-known id hypotheses h, eq_iff x.hypothesis_id id)

module _ {Value : Type 0} (content_of : Evidence Value → EvidenceContent)
    (hypotheses : List ValidatedHypothesis) (facts : List InvestigationFact)
    (evidence : List (Evidence Value)) where
  Grounds-BelongsTo :
      (candidates : List SuspectedCodeFinding) (findings : List ValidatedCodeFinding)
      → Grounds content_of hypotheses facts evidence candidates findings
      → All (BelongsTo facts hypotheses) findings
  Grounds-BelongsTo [] [] h = tt
  Grounds-BelongsTo [] (f ∷ findings) h = elim h [ ]
  Grounds-BelongsTo (c ∷ candidates) [] h = elim h [ ]
  Grounds-BelongsTo (c ∷ candidates) (f ∷ findings) h =
      let (location, g, e) = h.0 in
      (
        subst (BelongsTo facts hypotheses) (sym e) (
          latest-known c.hypothesis_id hypotheses g.hypothesis g.of_hypothesis,
          Selects-found id_of facts c.supporting_fact_ids g.chosen g.chosen_facts,
        ),
        Grounds-BelongsTo candidates findings h.1,
      )

  abbrev Unseen : List String → List ValidatedCodeFinding → Type 0
  Unseen seen findings = All (λ f. known f.finding_id seen ≡ false) findings

  Unseen-apart :
      (id : String) (seen : List String) (findings : List ValidatedCodeFinding)
      → Unseen (id ∷ seen) findings
      → Unseen seen findings × (any (λ f. f.finding_id == id) findings ≡ false)
  Unseen-apart id seen [] h = (tt, refl)
  Unseen-apart id seen (f ∷ findings) h =
      let (u, a) = Unseen-apart id seen findings h.1 in
      (
        (ground (arith, h.0), u),
        ground (arith, h.0, a, eq_iff id f.finding_id, eq_iff f.finding_id id),
      )

  -- what is known of the findings for the candidates that follow one with that identifier
  abbrev Later : String → List String → List ValidatedCodeFinding → Type 0
  Later id seen findings =
      (Unseen seen findings × (any (λ f. f.finding_id == id) findings ≡ false))
      × AreApart finding_id_of findings

  kept :
      (seen : List String) (c : SuspectedCodeFinding) (candidates : List SuspectedCodeFinding)
      (findings : List ValidatedCodeFinding)
      → Grounds content_of hypotheses facts evidence (c ∷ candidates) findings
      → known c.finding_id seen ≡ false
      → ((fs : List ValidatedCodeFinding)
          → Grounds content_of hypotheses facts evidence candidates fs
          → Later c.finding_id seen fs)
      → Unseen seen findings × AreApart finding_id_of findings
  kept seen c candidates [] h k later = elim h [ ]
  kept seen c candidates (f ∷ findings) h k later =
      let (location, g, e) = h.0 in
      let ((u, a), apart) = later findings h.1 in
      let same : f.finding_id ≡ c.finding_id = ap finding_id_of e in rw same ((k, u), (a, apart))

  Grounds-AreApart :
      (p : SuspectedCodeFinding → Bool) (seen : List String)
      (candidates : List SuspectedCodeFinding) (findings : List ValidatedCodeFinding)
      → Grounds content_of hypotheses facts evidence (filter p (firsts seen candidates)) findings
      → Unseen seen findings × AreApart finding_id_of findings
  Grounds-AreApart p seen [] [] h = (tt, tt)
  Grounds-AreApart p seen [] (f ∷ findings) h = elim h [ ]
  Grounds-AreApart p seen (c ∷ candidates) findings h =
      let more = firsts (c.finding_id ∷ seen) candidates in
      let later : (fs : List ValidatedCodeFinding)
          → Grounds content_of hypotheses facts evidence (filter p more) fs
          → Later c.finding_id seen fs =
        λ fs k.
          let (u, a) = Grounds-AreApart p (c.finding_id ∷ seen) candidates fs k in
          (Unseen-apart c.finding_id seen fs u, a) in
      let dropped : Grounds content_of hypotheses facts evidence (filter p more) findings
          → Unseen seen findings × AreApart finding_id_of findings =
        λ k. let ((u, a), apart) = later findings k in (u, apart) in
      let After : Bool → Type 0 = λ b.
        Grounds content_of hypotheses facts evidence (filter p (if b then more else c ∷ more))
          findings in
      let Passed : Bool → Type 0 = λ b.
        Grounds content_of hypotheses facts evidence
          (if b then c ∷ filter p more else filter p more) findings in
      elim (Bool-cases (known c.finding_id seen)) [
        | inl k ↦ dropped (subst After k h)
        | inr k ↦ elim (Bool-cases (p c)) [
          | inl q ↦ kept seen c (filter p more) findings (subst Passed q (subst After k h)) k later
          | inr q ↦ dropped (subst Passed q (subst After k h))
        ]
      ]

  -- validating findings returns some that can be rendered
  pub accepted_findings_lem :
      (candidates : List SuspectedCodeFinding)
      → (result : CodeFindingValidationResult) × (validate_findings content_of candidates hypotheses
            facts evidence
          ≡ some result)
        × All (BelongsTo facts hypotheses) result.accepted_findings
        × AreApart finding_id_of result.accepted_findings
  accepted_findings_lem candidates =
      let (p, iff, result, e, accepted, n) =
        validate_findings-accepts content_of hypotheses facts evidence candidates in
      let (unseen, apart) = Grounds-AreApart p [] candidates result.accepted_findings accepted in
      (
        result,
        e,
        Grounds-BelongsTo (filter p (firsts [] candidates)) result.accepted_findings accepted,
        apart,
      )

module _ {Value : Type 0} (content_of : Evidence Value → EvidenceContent)
    (recommendation_id_of : String → DeveloperRecommendationCode → String)
    (facts : List InvestigationFact) (evidence : List (Evidence Value)) where
  -- Whatever hypotheses and code findings are proposed, those that the two validators accept and the
  -- recommendations for these findings are rendered: the validators and the rendering raise nothing.
  -- The result has the given reason, just the accepted hypotheses and findings in their order, and
  -- key facts that exist.
  pub render_grounded_result-validate_findings :
      (suggested : List CandidateHypothesis) (suspected : List SuspectedCodeFinding)
      (missing_information : List MissingInformation) (reason : GroundedTerminationReason)
      (ids : List String)
      → let hypotheses = (validate_hypotheses suggested facts).accepted_hypotheses in
        (findings : CodeFindingValidationResult) × (result : GroundedInvestigationResult)
        × (validate_findings content_of suspected hypotheses facts evidence ≡ some findings)
        × (render_grounded_result facts hypotheses missing_information reason
              findings.accepted_findings
              (build_developer_recommendations recommendation_id_of findings.accepted_findings)
              ids
            ≡ some result)
        × IsRendering facts hypotheses reason findings.accepted_findings result
  render_grounded_result-validate_findings suggested suspected missing_information reason ids =
      let hypotheses = (validate_hypotheses suggested facts).accepted_hypotheses in
      let (findings, e, belong, apart) =
        accepted_findings_lem content_of hypotheses facts evidence suspected in
      let (result, r, is) =
        renders recommendation_id_of facts hypotheses missing_information reason
          findings.accepted_findings ids (accepted-AreRenderable suggested facts) belong apart in
      (findings, result, e, r, is)
