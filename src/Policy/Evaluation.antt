-- ===== src/Policy/Evaluation.antt =====
-- policy/evaluator.py: the four lists that `evaluate_merge_readiness` appends to, as the state of a
-- small monad, and the three helpers that append to them.
use promptql.Prelude.{◌≡◌, refl, String, List, [], ◌∷◌, ◌++◌, ◌<>◌, Bool, if◌then◌else◌}
use promptql.Policy.Models.{
  EvidenceSource, EvidenceValue, EvidenceReference, PolicyReasonCode, PolicyFinding,
  PendingActionCode, PendingAction, source_value,
}

pub record Evaluation : Type 0 where
  pub blockers : List PolicyFinding
  pub pending_actions : List PendingAction
  pub missing_information : List PolicyFinding
  pub evidence_references : List EvidenceReference

abbrev pub no_findings : Evaluation
no_findings = record {
  blockers = [];
  pending_actions = [];
  missing_information = [];
  evidence_references = [];
}

abbrev pub Eval : Type 0 → Type 0
Eval A = Evaluation → A × Evaluation

infixl 5 ◌>>=◌ ◌>>◌
unfoldable pub ◌>>=◌ : {A B : Type 0} → Eval A → (A → Eval B) → Eval B
◌>>=◌ m f s = let (a, s') = m s in f a s'

abbrev pub ◌>>◌ : {A B : Type 0} → Eval A → Eval B → Eval B
m >> n = m >>= λ _. n

unfoldable pub pure : {A : Type 0} → A → Eval A
pure a s = (a, s)

unfoldable pub pass : Eval Unit
pass s = (tt, s)

-- `if b: m`
abbrev pub when : Bool → Eval Unit → Eval Unit
when b m = if b then m else pass

unfoldable pub reference_of : EvidenceSource → String → EvidenceValue → EvidenceReference
reference_of source field value = record {
  reference_id = source_value source <> "." <> field;
  source = source;
  field = field;
  value = value;
}

unfoldable pub record_evidence : EvidenceSource → String → EvidenceValue → Eval String
unfolding reference_of
record_evidence source field value s = (
  (reference_of source field value).reference_id,
  record s { evidence_references = s.evidence_references ++ reference_of source field value ∷ [] },
)

unfoldable pub add_blocker :
    PolicyReasonCode → String → List String → PendingActionCode → String → Eval Unit
add_blocker reason blocker_message ids action action_message s = (
  tt,
  record s {
    blockers =
        s.blockers
        ++ (record {
          reason_code = reason;
          message = blocker_message;
          evidence_reference_ids = ids;
        })
          ∷ [];
    pending_actions =
        s.pending_actions
        ++ (record { action_code = action; reason_code = reason; message = action_message }) ∷ [];
  },
)

unfoldable pub add_missing_information : String → List String → Eval Unit
add_missing_information message ids s = (
  tt,
  record s {
    missing_information =
        s.missing_information
        ++ (record {
          reason_code = PolicyReasonCode.evidence_unavailable;
          message = message;
          evidence_reference_ids = ids;
        })
          ∷ [];
    pending_actions =
        s.pending_actions
        ++ (record {
          action_code = PendingActionCode.retry_evidence;
          reason_code = PolicyReasonCode.evidence_unavailable;
          message = "Retrieve the required evidence and evaluate the policy again.";
        })
          ∷ [];
  },
)

module _ {A B C : Type 0} where
  pub bind_assoc :
      (m : Eval A) (f : A → Eval B) (g : B → Eval C) → (m >>= f >>= g) ≡ (m >>= λ a. f a >>= g)
  unfolding ◌>>=◌
  bind_assoc m f g = refl

module _ {A B : Type 0} where
  pub pure-bind : (a : A) (f : A → Eval B) → (pure a >>= f) ≡ f a
  unfolding ◌>>=◌ pure
  pure-bind a f = refl
