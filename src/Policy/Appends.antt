-- ===== src/Policy/Appends.antt =====
-- What each action of the evaluator adds to the blockers and to the missing information, with the
-- rules by which the additions of a `do` block are those of its lines.
use promptql.Prelude.{
  ◌≡◌, sym, ap, ◌∙◌, String, List, [], ◌∷◌, ◌++◌, map, map-append, append-nil, append_assoc, Bool,
  true, false,
}
use promptql.Policy.Models.{
  PolicyReasonCode, PendingActionCode, PolicyFinding, EvidenceSource, EvidenceValue,
}
use promptql.Policy.Evaluation.{
  Evaluation, Eval, ◌>>=◌, ◌>>◌, pure, pass, when, record_evidence, add_blocker,
  add_missing_information,
}
use promptql.Policy.Expected.{given, Gap, gap_message}

abbrev pub reasons : List PolicyFinding → List PolicyReasonCode
reasons = map (λ f. f.reason_code)

abbrev pub messages : List PolicyFinding → List String
messages = map (λ f. f.message)

abbrev pub gap_messages : List Gap → List String
gap_messages = map gap_message

pub record Appends {A : Type 0} (m : Eval A) (bs : List PolicyReasonCode) (gs : List Gap)
    : Type 0 where
  pub blockers : (s : Evaluation) → reasons (m s).1.blockers ≡ reasons s.blockers ++ bs
  pub missing :
      (s : Evaluation)
      → messages (m s).1.missing_information ≡ messages s.missing_information ++ gap_messages gs

module _ {A : Type 0} where
  pub Appends-pure : (a : A) → Appends (pure a) [] []
  unfolding pure
  Appends-pure a = record {
    blockers = λ s. sym (append-nil (reasons s.blockers));
    missing = λ s. sym (append-nil (messages s.missing_information));
  }

pub Appends-pass : Appends pass [] []
unfolding pass
Appends-pass = record {
  blockers = λ s. sym (append-nil (reasons s.blockers));
  missing = λ s. sym (append-nil (messages s.missing_information));
}

pub Appends-record_evidence :
    (source : EvidenceSource) (field : String) (value : EvidenceValue)
    → Appends (record_evidence source field value) [] []
unfolding record_evidence
Appends-record_evidence source field value = record {
  blockers = λ s. sym (append-nil (reasons s.blockers));
  missing = λ s. sym (append-nil (messages s.missing_information));
}

pub Appends-add_blocker :
    (reason : PolicyReasonCode) (text : String) (ids : List String) (action : PendingActionCode)
    (action_text : String)
    → Appends (add_blocker reason text ids action action_text) (reason ∷ []) []
unfolding add_blocker
Appends-add_blocker reason text ids action action_text = record {
  blockers = λ s. map-append _ s.blockers _;
  missing = λ s. sym (append-nil (messages s.missing_information));
}

pub Appends-add_missing :
    (gap : Gap) (ids : List String)
    → Appends (add_missing_information (gap_message gap) ids) [] (gap ∷ [])
unfolding add_missing_information
Appends-add_missing gap ids = record {
  blockers = λ s. sym (append-nil (reasons s.blockers));
  missing = λ s. map-append _ s.missing_information _;
}

module _ {A B : Type 0} {bs bs' : List PolicyReasonCode} {gs gs' : List Gap} where
  pub Appends-bind :
      (m : Eval A) (f : A → Eval B)
      → Appends m bs gs
      → ((s : Evaluation) → Appends (f (m s).0) bs' gs')
      → Appends (m >>= f) (bs ++ bs') (gs ++ gs')
  unfolding ◌>>=◌
  Appends-bind m f am af = record {
    blockers = λ s.
        (af s).blockers (m s).1
        ∙ ap (λ l. l ++ bs') (am.blockers s)
        ∙ append_assoc (reasons s.blockers) bs bs';
    missing = λ s.
        (af s).missing (m s).1
        ∙ ap (λ l. l ++ gap_messages gs') (am.missing s)
        ∙ append_assoc (messages s.missing_information) (gap_messages gs) (gap_messages gs')
        ∙ ap (λ l. messages s.missing_information ++ l) (sym (map-append gap_message gs gs'));
  }

  pub Appends-then :
      (m : Eval A) (n : Eval B)
      → Appends m bs gs
      → Appends n bs' gs'
      → Appends (m >> n) (bs ++ bs') (gs ++ gs')
  Appends-then m n am an = Appends-bind m (λ _. n) am (λ s. an)

pub Appends-when :
    (b : Bool) {m : Eval Unit} {r : PolicyReasonCode}
    → Appends m (r ∷ []) []
    → Appends (when b m) (given b r) []
Appends-when true h = h
Appends-when false h = Appends-pass

pub ruleset appends_rules = (
  Appends-pure, Appends-pass, Appends-record_evidence, Appends-add_blocker, Appends-add_missing,
  Appends-bind, Appends-then, Appends-when,
)
