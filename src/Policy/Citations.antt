-- ===== src/Policy/Citations.antt =====
-- The references that the recording part of `evaluate_merge_readiness` hands to its checks.
use promptql.Prelude.{
  ℕ, ◌+◌, String, List, [], ◌∷◌, ◌++◌, Bool, true, false, All, All-append, All-split, if◌then◌else◌,
}
use promptql.Connectors.{RequiredCheck, GitHubPullRequest}
use promptql.Policy.Evaluation.{Evaluation, Eval, ◌>>=◌, bind_assoc, pure-bind, when}
use promptql.Policy.Recording.{GitHubReferences, record_checks, record_github}
use promptql.Policy.Support.{
  Recorded, Supports, Supports-pass, Supports-bind_record, Supports-weaken,
}

abbrev pub check_ids : List (RequiredCheck × String × String) → List String
check_ids [] = []
check_ids ((check, name, status) ∷ rest) = name ∷ status ∷ check_ids rest

abbrev pub ref_ids : GitHubReferences → List String
ref_ids refs =
    check_ids refs.checks
    ++ refs.checks_known ∷ refs.jira_link ∷ refs.changes ∷ refs.reviews_known
      ∷ refs.approval_requirement ∷ refs.approval ∷ refs.mergeability ∷ refs.draft ∷ refs.state ∷ []

-- the same, by name
pub record GitHubRecorded (t : Evaluation) (refs : GitHubReferences) : Type 0 where
  pub checks : All (Recorded t) (check_ids refs.checks)
  pub checks_known : Recorded t refs.checks_known
  pub jira_link : Recorded t refs.jira_link
  pub changes : Recorded t refs.changes
  pub reviews_known : Recorded t refs.reviews_known
  pub approval_requirement : Recorded t refs.approval_requirement
  pub approval : Recorded t refs.approval
  pub mergeability : Recorded t refs.mergeability
  pub draft : Recorded t refs.draft
  pub state : Recorded t refs.state

pub recorded :
    (refs : GitHubReferences) (t : Evaluation)
    → All (Recorded t) (ref_ids refs)
    → GitHubRecorded t refs
recorded refs t h =
    let (cs, r) = All-split (Recorded t) (check_ids refs.checks) _ h in
    record {
      checks = cs;
      checks_known = r.0;
      jira_link = r.1.0;
      changes = r.1.1.0;
      reviews_known = r.1.1.1.0;
      approval_requirement = r.1.1.1.1.0;
      approval = r.1.1.1.1.1.0;
      mergeability = r.1.1.1.1.1.1.0;
      draft = r.1.1.1.1.1.1.1.0;
      state = r.1.1.1.1.1.1.1.1.0;
    }

pub Supports-when :
    {needs : List String} (b : Bool) (m : Eval Unit) → Supports needs m → Supports needs (when b m)
Supports-when {needs} true m h = h
Supports-when {needs} false m h = Supports-pass needs

pub Supports-if :
    {needs : List String} (b : Bool) (m n : Eval Unit)
    → Supports needs m
    → Supports needs n
    → Supports needs (if b then m else n)
Supports-if true m n sm sn = sm
Supports-if false m n sm sn = sn

pub Supports-bind_checks :
    {B : Type 0} (needs : List String) (i : ℕ) (cs : List RequiredCheck)
    (f : List (RequiredCheck × String × String) → Eval B)
    → ((es : List (RequiredCheck × String × String)) → Supports (check_ids es ++ needs) (f es))
    → Supports needs (record_checks i cs >>= f)
unfolding record_checks
Supports-bind_checks needs i [] f sf = rw pure-bind (sf [])
Supports-bind_checks needs i (c ∷ cs) f sf =
    simp (bind_assoc, pure-bind)
      (Supports-bind_record _ _ _ _ λ name. Supports-bind_record _ _ _ _ λ status.
        Supports-bind_checks (status ∷ name ∷ needs) (i + 1) cs
          (λ rest. f ((c, name, status) ∷ rest))
          λ rest.
            Supports-weaken _
              (λ t h.
                let (known, h') =
                  All-split (Recorded t) (check_ids rest) (status ∷ name ∷ needs) h in
                (h'.1.0, (h'.0, All-append (Recorded t) (check_ids rest) needs known h'.1.1)))
              (sf ((c, name, status) ∷ rest)))

-- the rest of the body may cite every reference that `record_github` returns
pub Supports-bind_github :
    {B : Type 0} (pr : GitHubPullRequest) (f : GitHubReferences → Eval B)
    → ((refs : GitHubReferences) → Supports (ref_ids refs) (f refs))
    → Supports [] (record_github pr >>= f)
unfolding record_github
Supports-bind_github pr f sf =
    simp (bind_assoc, pure-bind)
      (Supports-bind_record _ _ _ _ λ state. Supports-bind_record _ _ _ _ λ draft.
        Supports-bind_record _ _ _ _ λ mergeability. Supports-bind_record _ _ _ _ λ approval.
          Supports-bind_record _ _ _ _ λ requirement. Supports-bind_record _ _ _ _ λ reviews.
            Supports-bind_record _ _ _ _ λ changes. Supports-bind_record _ _ _ _ λ link.
              Supports-bind_record _ _ _ _
                λ known. Supports-bind_checks _ 0 pr.required_checks _ λ es. sf _)
