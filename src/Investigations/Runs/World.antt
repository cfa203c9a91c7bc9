-- ===== src/Investigations/Runs/World.antt =====
-- What the investigation workflow is given and what it changes: the answers of the language models,
-- the clock, the snapshots that the repository took and the recurrence records. A method is an action
-- that may raise; what was saved before a raise stays saved.
use promptql.Prelude.{ℕ, ◌+◌, String, Bool, Option, none, some, List, [], ◌∷◌, ◌++◌, if◌then◌else◌}
use promptql.Runtime.Recurrence.{Records, FactKey}
use promptql.Investigations.Facts.{InvestigationFact}
use promptql.Investigations.Evidence.{Evidence, EvidenceStore}
use promptql.Investigations.Hypotheses.{CandidateHypothesis, ValidatedHypothesis}
use promptql.Investigations.CodeDiagnosis.{SuspectedCodeFinding, EvidenceContent}
use promptql.Investigations.CodeDiagnosis.Remediation.{DeveloperRecommendationCode}
use promptql.Investigations.Replanning.Models.{
  PlannerMetadata, AdaptiveInvestigationState, Notice, AdaptiveInvestigationRuntime,
}
use promptql.Investigations.Runs.Models.{InvestigationRequest, InvestigationRun}

-- how a call of a language-model service ends: with candidates and metadata, by its own error, by any
-- other exception, or by `CancelledError`
pub data Generated (A : Type 0) : Type 0 where
  generated : List A → PlannerMetadata → Generated A
  failed crashed cancelled : Generated A

-- `RunStateConflictError`, `RunPersistenceError`, `CancelledError`, any other exception
pub data Raised : Type 0 where
  state_conflict persistence cancelled crashed : Raised

-- A call of a callback, with the store that it reads.
abbrev pub Call : Type 0 → Type 0
Call Value = Notice Value × EvidenceStore Value

-- the constructor's arguments and the services that it builds; which snapshots and facts the
-- repositories refuse; the callbacks that were called before the investigation raised; and, where the
-- task is cancelled in the investigation, those called before that
pub record InvestigationService (Value : Type 0) : Type 0 where
  pub runtime : AdaptiveInvestigationRuntime Value
  pub generate_hypotheses :
      InvestigationRequest → AdaptiveInvestigationState Value → Generated CandidateHypothesis
  pub diagnose_code :
      InvestigationRequest
      → List ValidatedHypothesis
      → List InvestigationFact
      → List (Evidence Value)
      → Generated SuspectedCodeFinding
  pub content_of : Evidence Value → EvidenceContent
  pub recommendation_id_of : String → DeveloperRecommendationCode → String
  pub clock : ℕ → ℕ
  pub refuses : InvestigationRun Value → Bool
  pub refuses_fact : FactKey → Bool
  pub before_raise : List (Call Value)
  pub cancelled_after : Option (List (Call Value))

pub record World (Value : Type 0) : Type 0 where
  pub saved : List (InvestigationRun Value)
  pub records : Records
  pub ticks : ℕ

pub data Outcome (A : Type 0) : Type 0 where
  returned : A → Outcome A
  raised : Raised → Outcome A

abbrev pub Exec : Type 0 → Type 0 → Type 0
Exec Value A = World Value → Outcome A × World Value

module _ {Value : Type 0} where
  unfoldable pub pure : {A : Type 0} → A → Exec Value A
  pure a w = (returned a, w)

  unfoldable pub raise : {A : Type 0} → Raised → Exec Value A
  raise e w = (raised e, w)

  -- an exception where there is none
  unfoldable pub need : {A : Type 0} → Option A → Exec Value A
  need none w = (raised Raised.crashed, w)
  need (some a) w = (returned a, w)

  abbrev pub continue : {A B : Type 0} → Outcome A → (A → Exec Value B) → Exec Value B
  continue (returned a) f w = f a w
  continue (raised e) f w = (raised e, w)

  -- `except`
  abbrev pub recover : {A : Type 0} → Outcome A → (Raised → Exec Value A) → Exec Value A
  recover (returned a) handler w = (returned a, w)
  recover (raised e) handler w = handler e w

  unfoldable pub attempt : {A : Type 0} → Exec Value A → (Raised → Exec Value A) → Exec Value A
  attempt m handler w = let (r, w') = m w in recover r handler w'

  module _ (service : InvestigationService Value) where
    unfoldable pub now : Exec Value ℕ
    now w = (returned (service.clock w.ticks), record w { ticks = w.ticks + 1 })

    -- `self._repository.save`
    unfoldable pub save : InvestigationRun Value → Exec Value Unit
    save run w =
        if service.refuses run
        then (raised Raised.persistence, w)
        else (returned tt, record w { saved = w.saved ++ run ∷ [] })

-- opening this opens the actions above
infixl 5 ◌>>=◌ ◌>>◌
unfoldable pub ◌>>=◌ : {Value A B : Type 0} → Exec Value A → (A → Exec Value B) → Exec Value B
unfolding pure raise need attempt now save
◌>>=◌ m f w = let (r, w') = m w in continue r f w'

abbrev pub ◌>>◌ : {Value A B : Type 0} → Exec Value A → Exec Value B → Exec Value B
m >> n = m >>= λ _. n
