-- ===== src/Policy/Support.antt =====
-- Every finding is supported: the evidence references that it names were recorded.
use mathlib.Core.List.Memᴰ
use promptql.Prelude.{refl, String, List, ◌∷◌, map, map-append, All, All-append, All-imp, Memᴰ}
use promptql.Policy.Models.{
  PolicyReasonCode, PendingActionCode, PolicyFinding, EvidenceSource, EvidenceValue,
  EvidenceReference,
}
use promptql.Policy.Evaluation.{
  Evaluation, Eval, ◌>>=◌, ◌>>◌, pass, record_evidence, add_blocker, add_missing_information,
}

abbrev pub ids : List EvidenceReference → List String
ids = map (λ e. e.reference_id)

-- the finding names only recorded references
abbrev pub IsSupported : List EvidenceReference → PolicyFinding → Type 0
IsSupported refs f = All (λ i. Memᴰ i (ids refs)) f.evidence_reference_ids

pub record AllSupported (s : Evaluation) : Type 0 where
  pub blockers : All (IsSupported s.evidence_references) s.blockers
  pub missing : All (IsSupported s.evidence_references) s.missing_information

-- `t` has every reference of `s`
pub record Extends (s t : Evaluation) : Type 0 where
  pub kept : (i : String) → Memᴰ i (ids s.evidence_references) → Memᴰ i (ids t.evidence_references)

pub Extends-refl : (s : Evaluation) → Extends s s
Extends-refl s = record { kept = λ i m. m }

pub Extends-trans : {s t u : Evaluation} → Extends s t → Extends t u → Extends s u
Extends-trans e f = record { kept = λ i m. f.kept i (e.kept i m) }

abbrev pub Recorded : Evaluation → String → Type 0
Recorded s i = Memᴰ i (ids s.evidence_references)

-- `m` only adds references, and keeps the findings supported if the references in `needs` are there
pub record Supports {A : Type 0} (needs : List String) (m : Eval A) : Type 0 where
  pub extends : (s : Evaluation) → Extends s (m s).1
  pub keeps : (s : Evaluation) → All (Recorded s) needs → AllSupported s → AllSupported (m s).1

module _ {s t : Evaluation} (e : Extends s t) where
  pub All-Recorded : (needs : List String) → All (Recorded s) needs → All (Recorded t) needs
  All-Recorded needs = All-imp e.kept needs

  pub All-IsSupported :
      (fs : List PolicyFinding)
      → All (IsSupported s.evidence_references) fs
      → All (IsSupported t.evidence_references) fs
  All-IsSupported fs = All-imp (λ f. All-imp e.kept f.evidence_reference_ids) fs

Extends-record_evidence :
    (source : EvidenceSource) (field : String) (value : EvidenceValue) (s : Evaluation)
    → Extends s (record_evidence source field value s).1
unfolding record_evidence
Extends-record_evidence source field value s = record {
  kept = λ i m. rw map-append (Memᴰ.append_left _ m);
}

-- what `record_evidence` returns is recorded
pub record_evidence-Recorded :
    (source : EvidenceSource) (field : String) (value : EvidenceValue) (s : Evaluation)
    → Recorded (record_evidence source field value s).1 (record_evidence source field value s).0
unfolding record_evidence
record_evidence-Recorded source field value s =
    rw map-append (Memᴰ.append_right (ids s.evidence_references) (Memᴰ.head refl))

module _ (needs : List String) where
  pub Supports-record_evidence :
      (source : EvidenceSource) (field : String) (value : EvidenceValue)
      → Supports needs (record_evidence source field value)
  unfolding record_evidence
  Supports-record_evidence source field value = record {
    extends = Extends-record_evidence source field value;
    keeps = λ s n h. record {
      blockers =
          All-IsSupported (Extends-record_evidence source field value s) s.blockers h.blockers;
      missing =
          All-IsSupported (Extends-record_evidence source field value s) s.missing_information
            h.missing;
    };
  }

  pub Supports-pass : Supports needs pass
  unfolding pass
  Supports-pass = record { extends = Extends-refl; keeps = λ s n h. h }

  module _ (ids' : List String)
      (sub : (t : Evaluation) → All (Recorded t) needs → All (Recorded t) ids') where
    pub Supports-add_blocker :
        (reason : PolicyReasonCode) (text : String) (action : PendingActionCode)
        (action_text : String)
        → Supports needs (add_blocker reason text ids' action action_text)
    unfolding add_blocker
    Supports-add_blocker reason text action action_text = record {
      extends = λ s. record { kept = λ i m. m };
      keeps = λ s n h. record {
        blockers =
            All-append (IsSupported s.evidence_references) s.blockers _ h.blockers (sub s n, tt);
        missing = h.missing;
      };
    }

    pub Supports-add_missing : (text : String) → Supports needs (add_missing_information text ids')
    unfolding add_missing_information
    Supports-add_missing text = record {
      extends = λ s. record { kept = λ i m. m };
      keeps = λ s n h. record {
        blockers = h.blockers;
        missing =
            All-append (IsSupported s.evidence_references) s.missing_information _ h.missing
              (sub s n, tt);
      };
    }

module _ {A B : Type 0} {needs : List String} where
  pub Supports-then :
      (m : Eval A) (n : Eval B) → Supports needs m → Supports needs n → Supports needs (m >> n)
  unfolding ◌>>=◌
  Supports-then m n sm sn = record {
    extends = λ s. Extends-trans (sm.extends s) (sn.extends (m s).1);
    keeps = λ s h a. sn.keeps (m s).1 (All-Recorded (sm.extends s) needs h) (sm.keeps s h a);
  }

module _ {B : Type 0} {needs : List String} where
  -- the rest of the block may cite the reference that the line returns
  pub Supports-bind_record :
      (source : EvidenceSource) (field : String) (value : EvidenceValue) (f : String → Eval B)
      → ((i : String) → Supports (i ∷ needs) (f i))
      → Supports needs (record_evidence source field value >>= f)
  unfolding ◌>>=◌
  Supports-bind_record source field value f sf =
      let first = Supports-record_evidence needs source field value in
      let r = λ (s : Evaluation). record_evidence source field value s in
      record {
        extends = λ s. Extends-trans (first.extends s) ((sf (r s).0).extends (r s).1);
        keeps = λ s h a.
            (sf (r s).0).keeps (r s).1
              (
                record_evidence-Recorded source field value s,
                All-Recorded (first.extends s) needs h,
              )
              (first.keeps s h a);
      }

  pub Supports-weaken :
      {m : Eval B} (more : List String)
      → ((t : Evaluation) → All (Recorded t) more → All (Recorded t) needs)
      → Supports needs m
      → Supports more m
  Supports-weaken more sub h = record {
    extends = h.extends;
    keeps = λ s n a. h.keeps s (sub s n) a;
  }
