-- ===== src/Investigations/Rendering/Renders.antt =====
-- investigations/hypotheses/rendering.py: hypotheses of facts that exist, and their findings,
-- are rendered without an exception.
use promptql.Prelude.{
  ◌≡◌, refl, ◌∙◌, ap, inl, inr, String, Bool, true, some, List, [], ◌∷◌, ◌++◌, map, all, is_some,
  All, All-append, arith, Bool-cases, ◌==◌, eq_iff, if◌then◌else◌,
}
use promptql.Prelude.Dict.{text_key, lookup}
use promptql.Prelude.Codes.{same_list, same_list_iff}
use promptql.Prelude.Indexed.{index_on, latest, lookup-index_on, AreApart, latest_apart}
use promptql.Investigations.Facts.{InvestigationFact}
use promptql.Investigations.Plan.{known}
use promptql.Investigations.Execution.State.{MissingInformation}
use promptql.Investigations.Hypotheses.{ValidatedHypothesis, index_by_id}
use promptql.Investigations.CodeDiagnosis.{ValidatedCodeFinding}
use promptql.Investigations.CodeDiagnosis.Grounded.{hypothesis_id_of}
use promptql.Investigations.CodeDiagnosis.Remediation.{
  DeveloperRecommendationCode, DeveloperRecommendation, actions_for, recommendation,
  build_developer_recommendations,
}
use promptql.Investigations.Relationships.Index.{build_relationship_index}
use promptql.Investigations.Rendering.{
  GroundedTerminationReason, GroundedHypothesis, GroundedInvestigationResult, add_key_facts,
  render_hypotheses, rendered_finding, render_code_findings, same_support, recommendations_valid,
  render_grounded_result,
}
use promptql.Investigations.Rendering.Entities.{connected_fact_chain-returns}

abbrev pub finding_id_of : ValidatedCodeFinding → String
finding_id_of f = f.finding_id

all-true : {A : Type 0} (p : A → Bool) (xs : List A) → All (λ x. p x ≡ true) xs → all p xs ≡ true
all-true p [] h = refl
all-true p (x ∷ xs) h = ground (arith, h.0, all-true p xs h.1)

module _ (facts : List InvestigationFact) where
  -- the identifiers of facts
  abbrev pub Exist : List String → Type 0
  Exist ids = All (λ id. is_some (lookup id (index_by_id facts)) ≡ true) ids

  abbrev pub AreRenderable : List ValidatedHypothesis → Type 0
  AreRenderable hypotheses = All (λ h. Exist h.supporting_fact_ids) hypotheses

  Exist-add_key_facts :
      (keys ids : List String) → Exist keys → Exist ids → Exist (add_key_facts keys ids)
  unfolding add_key_facts
  Exist-add_key_facts keys [] k h = k
  Exist-add_key_facts keys (id ∷ ids) k h =
      Exist-add_key_facts (if known id keys then keys else keys ++ id ∷ []) ids
        (elim (Bool-cases (known id keys)) [
          | inl e ↦ rw e k
          | inr e ↦ rw e (All-append _ keys (id ∷ []) k (h.0, tt))
        ])
        h.1

  render_hypotheses-returns :
      (keys : List String) (hypotheses : List ValidatedHypothesis)
      → Exist keys
      → AreRenderable hypotheses
      → (rendered : List GroundedHypothesis) × (keys' : List String) × (render_hypotheses
            (index_by_id facts)
            (build_relationship_index facts)
            keys
            hypotheses
          ≡ some (rendered, keys'))
        × (map (λ h. h.hypothesis_id) rendered ≡ map hypothesis_id_of hypotheses)
        × Exist keys'
  unfolding render_hypotheses
  render_hypotheses-returns keys [] k h = ([], keys, refl, refl, k)
  render_hypotheses-returns keys (hypothesis ∷ hypotheses) k h =
      let ids = hypothesis.supporting_fact_ids in
      let (rendered, keys', e, same, k') =
        render_hypotheses-returns (add_key_facts keys ids) hypotheses
          (Exist-add_key_facts keys ids k h.0) h.1 in
      let (chain, c) = connected_fact_chain-returns hypothesis facts in
      rw (all-true _ ids h.0, e, c)
        (_, keys', refl, ap (λ z. hypothesis.hypothesis_id ∷ z) same, k')

  -- a finding of one of the hypotheses, with facts that exist
  abbrev pub BelongsTo : List ValidatedHypothesis → ValidatedCodeFinding → Type 0
  BelongsTo hypotheses f =
      (known f.hypothesis_id (map hypothesis_id_of hypotheses) ≡ true) × Exist f.supporting_fact_ids

  render_code_findings-returns :
      (hypotheses : List ValidatedHypothesis) (findings : List ValidatedCodeFinding)
      → All (BelongsTo hypotheses) findings
      → render_code_findings (map hypothesis_id_of hypotheses) (index_by_id facts) findings
        ≡ some (map rendered_finding findings)
  unfolding render_code_findings
  render_code_findings-returns hypotheses [] h = refl
  render_code_findings-returns hypotheses (f ∷ findings) h =
      rw
        (
          h.0.0,
          all-true (λ id. is_some (lookup id (index_by_id facts))) f.supporting_fact_ids h.0.1,
          render_code_findings-returns hypotheses findings h.1,
        )
        refl

same_ids_refl : (xs : List String) → same_list ◌==◌ xs xs ≡ true
same_ids_refl xs = ground (arith, same_list_iff ◌==◌ eq_iff xs xs)

module _ (recommendation_id_of : String → DeveloperRecommendationCode → String)
    (findings : List ValidatedCodeFinding) where
  abbrev Matches : DeveloperRecommendation → Type 0
  Matches r = same_support r (lookup r.finding_id (index_on finding_id_of [] findings)) ≡ true

  actions-Matches :
      (f : ValidatedCodeFinding) (actions : List (DeveloperRecommendationCode × String))
      → latest finding_id_of f.finding_id findings ≡ some f
      → All Matches (map (recommendation recommendation_id_of f) actions)
  actions-Matches f [] h = tt
  actions-Matches f ((code, message) ∷ actions) h = (
    rw
        (
          lookup-index_on finding_id_of f.finding_id findings ∙ h,
          same_ids_refl f.supporting_fact_ids,
          same_ids_refl f.supporting_evidence_ids,
        )
        refl,
    actions-Matches f actions h,
  )

  build-Matches :
      (fs : List ValidatedCodeFinding)
      → All (λ f. latest finding_id_of f.finding_id findings ≡ some f) fs
      → All Matches (build_developer_recommendations recommendation_id_of fs)
  unfolding build_developer_recommendations
  build-Matches [] h = tt
  build-Matches (f ∷ fs) h =
      All-append Matches _ _ (actions-Matches f (actions_for f) h.0) (build-Matches fs h.1)

  recommendations_valid_lem :
      AreApart finding_id_of findings
      → recommendations_valid
          (build_developer_recommendations recommendation_id_of findings)
          findings
        ≡ true
  unfolding recommendations_valid
  recommendations_valid_lem apart =
      all-true _ _ (build-Matches findings (latest_apart finding_id_of findings apart))

-- What is rendered: the hypotheses, the findings and their recommendations, and key facts that
-- exist.
pub record IsRendering (facts : List InvestigationFact) (hypotheses : List ValidatedHypothesis)
    (reason : GroundedTerminationReason) (findings : List ValidatedCodeFinding)
    (result : GroundedInvestigationResult) : Type 0 where
  pub same_reason : result.termination_reason ≡ reason
  pub same_hypotheses :
      map (λ h. h.hypothesis_id) result.supported_hypotheses ≡ map hypothesis_id_of hypotheses
  pub same_findings : result.code_findings ≡ map rendered_finding findings
  pub key_facts : Exist facts result.key_fact_ids

module _ (recommendation_id_of : String → DeveloperRecommendationCode → String)
    (facts : List InvestigationFact) where
  pub renders :
      (hypotheses : List ValidatedHypothesis) (missing_information : List MissingInformation)
      (reason : GroundedTerminationReason) (findings : List ValidatedCodeFinding)
      (evidence : List String)
      → AreRenderable facts hypotheses
      → All (BelongsTo facts hypotheses) findings
      → AreApart finding_id_of findings
      → (result : GroundedInvestigationResult) × (render_grounded_result facts hypotheses
            missing_information reason findings
            (build_developer_recommendations recommendation_id_of findings)
            evidence
          ≡ some result)
        × IsRendering facts hypotheses reason findings result
  unfolding render_grounded_result
  renders hypotheses missing_information reason findings evidence h f apart =
      let (rendered, keys, e, same, exist) = render_hypotheses-returns facts [] hypotheses tt h in
      rw
        (
          e,
          render_code_findings-returns facts hypotheses findings f,
          recommendations_valid_lem recommendation_id_of findings apart,
        )
        (
          _,
          refl,
          record {
            same_reason = refl;
            same_hypotheses = same;
            same_findings = refl;
            key_facts = exist;
          },
        )
