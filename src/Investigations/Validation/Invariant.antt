-- ===== src/Investigations/Validation/Invariant.antt =====
-- investigations/planning/validation.py: what holds at each round of `_topological_order`.
use promptql.Prelude.{
  ℕ, ◌+◌, ◌-◌, ◌≤◌, ◌≡◌, refl, String, true, ◌&&◌, List, [], ◌∷◌, nat_eq, eq_iff, arith, Bool-cases,
  inl, inr, if◌then◌else◌,
}
use promptql.Prelude.Dict.{Dict, text_key, insert, lookup-insert}
use promptql.Investigations.Plan.{known, unique}
use promptql.Investigations.Validation.Order.{Edge, degree, push, push_ready, release}
use promptql.Investigations.Validation.Counts.{
  occurrences, occurrences-push, occurrences-known, unmet,
}

-- 1 for a step of the plan that waits for none, and 0 for any other identifier
abbrev pub free : List String → Dict String ℕ → String → ℕ
free ids in_degree x = if known x ids && nat_eq (degree x in_degree) 0 then 1 else 0

-- a degree counts the dependencies that are not ordered, and those of the round that `left` lists;
-- the steps that are ready or ordered are the free ones, each once
abbrev pub Counts :
    List String → List Edge → List String → Dict String ℕ → List String → List String → Type 0
Counts ids edges left in_degree ready ordered =
    (x : String)
    → (degree x in_degree ≡ unmet x edges ordered + occurrences x left)
      × (occurrences x ordered + occurrences x ready ≡ free ids in_degree x)

pub occurrences-unique :
    (x : String) (ids : List String)
    → unique ids ≡ true
    → occurrences x ids ≡ (if known x ids then 1 else 0)
occurrences-unique x [] h = refl
occurrences-unique x (y ∷ ids) h =
    ground (arith, occurrences-unique x ids, occurrences-known y ids, eq_iff y x)

pub occurrences-push_ready :
    (position : String → ℕ) (x : String) (ids : List String) (in_degree : Dict String ℕ)
    (ready : List String)
    → occurrences x (push_ready position ids in_degree ready)
      ≡ occurrences x ready + (if nat_eq (degree x in_degree) 0 then occurrences x ids else 0)
unfolding push_ready
occurrences-push_ready position x [] in_degree ready = ground arith
occurrences-push_ready position x (id ∷ ids) in_degree ready =
    elim (Bool-cases (nat_eq (degree id in_degree) 0)) [
      | inl h ↦ rw h (
          ground (
            arith,
            occurrences-push_ready position x ids in_degree (push position id ready),
            occurrences-push position x id ready,
            eq_iff id x,
          ))
      | inr h ↦
          rw h (ground (arith, occurrences-push_ready position x ids in_degree ready, eq_iff id x))
    ]

-- one dependent more
release_step :
    (position : String → ℕ) (ids : List String) (edges : List Edge) (y : String)
    (left : List String) (in_degree : Dict String ℕ) (ready ordered : List String)
    → known y ids ≡ true
    → Counts ids edges (y ∷ left) in_degree ready ordered
    → Counts ids edges left
        (insert y (degree y in_degree - 1) in_degree)
        (if nat_eq (degree y in_degree - 1) 0 then push position y ready else ready)
        ordered
release_step position ids edges y left in_degree ready ordered hy h x =
    let (dx, cx) = h x in
    let (dy, cy) = h y in
    elim (Bool-cases (nat_eq (degree y in_degree - 1) 0)) [
      | inl e ↦ rw e (
        ground (
          arith,
          eq_iff y x,
          lookup-insert y x (degree y in_degree - 1) in_degree,
          occurrences-push position x y ready,
        ),
        ground (
          arith,
          eq_iff y x,
          lookup-insert y x (degree y in_degree - 1) in_degree,
          occurrences-push position x y ready,
        ),
      )
      | inr e ↦ rw e (
        ground (arith, eq_iff y x, lookup-insert y x (degree y in_degree - 1) in_degree),
        ground (arith, eq_iff y x, lookup-insert y x (degree y in_degree - 1) in_degree),
      )
    ]

pub release-Counts :
    (position : String → ℕ) (ids : List String) (edges : List Edge) (left : List String)
    (in_degree : Dict String ℕ) (ready ordered : List String)
    → ((y : String) → 1 ≤ occurrences y left → known y ids ≡ true)
    → Counts ids edges left in_degree ready ordered
    → let (in_degree', ready') = release position left in_degree ready in
      Counts ids edges [] in_degree' ready' ordered
unfolding release
release-Counts position ids edges [] in_degree ready ordered hl h = h
release-Counts position ids edges (y ∷ left) in_degree ready ordered hl h =
    release-Counts position ids edges left _ _ ordered (λ z hz. hl z (ground arith))
      (release_step position ids edges y left in_degree ready ordered
        (hl y (ground (arith, eq_iff y y))) h)
