-- ===== src/Investigations/Execution/Drawn.antt =====
-- investigations/execution.py: the evidence that a store can come to hold, and the outputs that
-- steps can have by it.
use promptql.Prelude.{
  ℕ, ◌≡◌, refl, sym, ◌∙◌, String, Bool, true, false, Option, none, some, List, [], ◌∷◌, All,
  All-imp, arith, ◌⊎◌, inl, inr, Bool-cases, is_some, ◌==◌, eq_iff, if◌then◌else◌, any, Memᴰ, subst,
}
use promptql.Prelude.Dict.{Dict, Key, text_key, lookup, insert, lookup-insert}
use promptql.Investigations.Evidence.{Evidence, EvidenceStore, put, put_all, get_many, cons_found}
use promptql.Investigations.Execution.State.{add_value, field_values, add_output, output_values}
use promptql.Investigations.Execution.Locals.{AgentExecutor}

module _ {A : Type 0} where
  some_inj : (a b : A) → some a ≡ some b → a ≡ b
  some_inj a b e = cc

  if_found :
      (b : Bool) (v w : A) (o : Option A)
      → (if b then some v else o) ≡ some w
      → ((b ≡ true) × (v ≡ w)) ⊎ (o ≡ some w)
  if_found true v w o h = inl (refl, some_inj v w h)
  if_found false v w o h = inr h

  insert_found :
      (k j : String) (v w : A) (d : Dict String A)
      → lookup j (insert k v d) ≡ some w
      → ((k == j ≡ true) × (v ≡ w)) ⊎ (lookup j d ≡ some w)
  insert_found k j v w d h = if_found (k == j) v w (lookup j d) (sym (lookup-insert k j v d) ∙ h)

  All-Mem : (xs : List A) → All (λ x. Memᴰ x xs) xs
  All-Mem [] = tt
  All-Mem (x ∷ xs) = (Memᴰ.head refl, All-imp (λ y m. Memᴰ.tail m) xs (All-Mem xs))

module _ {Value : Type 0} (P : Evidence Value → Type 0) where
  abbrev pub AllStored : EvidenceStore Value → Type 0
  AllStored store = (id : String) (e : Evidence Value) → lookup id store ≡ some e → P e

  put-AllStored :
      (store : EvidenceStore Value) (e : Evidence Value)
      → AllStored store
      → P e
      → AllStored (put store e)
  unfolding put
  put-AllStored store e h p id x f = elim (Bool-cases (is_some (lookup e.evidence_id store))) [
    | inl old ↦ h id x (rw old at f)
    | inr new ↦ elim (insert_found e.evidence_id id e x store (rw new at f)) [
      | inl here ↦ subst P here.1 p
      | inr there ↦ h id x there
    ]
  ]

  put_all-AllStored :
      (es : List (Evidence Value)) (store : EvidenceStore Value)
      → AllStored store
      → All P es
      → AllStored (put_all store es)
  unfolding put_all
  put_all-AllStored [] store h p = h
  put_all-AllStored (e ∷ es) store h p =
      put_all-AllStored es (put store e) (put-AllStored store e h p.0) p.1

  cons_found-All :
      (o : Option (Evidence Value)) (rest : Option (List (Evidence Value)))
      (es : List (Evidence Value))
      → ((e : Evidence Value) → o ≡ some e → P e)
      → ((es : List (Evidence Value)) → rest ≡ some es → All P es)
      → cons_found o rest ≡ some es
      → All P es
  cons_found-All none rest es h k c = ground arith
  cons_found-All (some e) none es h k c = ground arith
  cons_found-All (some e) (some more) es h k c =
      subst (All P) {x = e ∷ more} (some_inj (e ∷ more) es c) (h e refl, k more refl)

  pub get_many-All :
      (store : EvidenceStore Value) (ids : List String) (es : List (Evidence Value))
      → AllStored store
      → get_many store ids ≡ some es
      → All P es
  unfolding get_many
  get_many-All store [] es h g = subst (All P) {x = []} (some_inj [] es g) tt
  get_many-All store (id ∷ ids) es h g =
      cons_found-All (lookup id store) (get_many store ids) es (h id)
        (λ more. get_many-All store ids more h) g

  -- a value of a field of such an evidence
  abbrev pub IsContent : String → Value → Type 0
  IsContent field value = (e : Evidence Value) × P e × (e.content field ≡ some value)

  module _ ⦃key : Key Value⦄ where
    add_value-All :
        (Q : Value → Type 0) (o : Option Value) (values : List Value)
        → ((v : Value) → o ≡ some v → Q v)
        → All Q values
        → All Q (add_value o values)
    add_value-All Q none values h k = k
    add_value-All Q (some v) values h k = elim (Bool-cases (any (λ u. key.same u v) values)) [
      | inl e ↦ rw e k
      | inr e ↦ rw e (h v refl, k)
    ]

    field_values-All :
        (field : String) (es : List (Evidence Value))
        → All P es
        → All (IsContent field) (field_values field es)
    unfolding field_values
    field_values-All field [] h = tt
    field_values-All field (e ∷ es) h =
        add_value-All (IsContent field) (e.content field) (field_values field es)
          (λ v c. (e, h.0, c)) (field_values-All field es h.1)

    add_output-All :
        (field : String) (values : List Value) (outputs : Dict String Value)
        → All (IsContent field) values
        → ((f : String) (v : Value) → lookup f outputs ≡ some v → IsContent f v)
        → (f : String) (v : Value) → lookup f (add_output field values outputs) ≡ some v
        → IsContent f v
    unfolding lookup
    add_output-All field [] outputs h k f v found = k f v found
    add_output-All field (x ∷ []) outputs h k f v found =
        elim (if_found (field == f) x v (lookup f outputs) found) [
          | inl here ↦
              subst (λ g. IsContent g v) ((eq_iff field f).0 here.0)
                (subst (IsContent field) here.1 h.0)
          | inr there ↦ k f v there
        ]
    add_output-All field (x ∷ y ∷ more) outputs h k f v found = k f v found

    pub output_values-All :
        (fields : List String) (es : List (Evidence Value))
        → All P es
        → (f : String) (v : Value) → lookup f (output_values fields es) ≡ some v
        → IsContent f v
    unfolding output_values lookup
    output_values-All [] es h f v found = ground arith
    output_values-All (field ∷ fields) es h f v found =
        add_output-All field (field_values field es) (output_values fields es)
          (field_values-All field es h) (output_values-All fields es h) f v found

module _ {Value Facts : Type 0} (executor : AgentExecutor Value Facts)
    (initial : EvidenceStore Value) where
  -- an evidence that was in the store, or that a call may put into it
  abbrev pub IsObtained : Evidence Value → Type 0
  IsObtained e =
      ((id : String) × (lookup id initial ≡ some e))
      ⊎ ((n : ℕ) × (tool_id : String) × (arguments : Dict String Value) × Memᴰ e
            (executor.invoke n tool_id arguments).1)

  abbrev pub AllObtained : EvidenceStore Value → Type 0
  AllObtained = AllStored IsObtained

  -- outputs with values of such evidence in their fields
  abbrev pub AreDrawn : Dict String (Dict String Value) → Type 0
  AreDrawn outputs =
      (step_id : String) (source : Dict String Value)
      → lookup step_id outputs ≡ some source
      → (field : String) (value : Value) → lookup field source ≡ some value
      → IsContent IsObtained field value

  invoke-IsObtained :
      (n : ℕ) (tool_id : String) (arguments : Dict String Value)
      → All IsObtained (executor.invoke n tool_id arguments).1
  invoke-IsObtained n tool_id arguments =
      All-imp (λ e m. inr (n, tool_id, arguments, m)) _ (All-Mem _)

  pub insert-AreDrawn :
      (outputs : Dict String (Dict String Value)) (id : String) (source : Dict String Value)
      → AreDrawn outputs
      → ((field : String) (value : Value)
          → lookup field source ≡ some value
          → IsContent IsObtained field value)
      → AreDrawn (insert id source outputs)
  insert-AreDrawn outputs id source h k step_id src found =
      elim (insert_found id step_id source src outputs found) [
        | inl here ↦
            subst
              (λ s.
                (field : String) (value : Value)
                → lookup field s ≡ some value
                → IsContent IsObtained field value)
              here.1 k
        | inr there ↦ h step_id src there
      ]

  -- what a call may do to a store
  pub called-AllObtained :
      (n : ℕ) (tool_id : String) (arguments : Dict String Value) (store : EvidenceStore Value)
      → AllObtained store
      → AllObtained (put_all store (executor.invoke n tool_id arguments).1)
  called-AllObtained n tool_id arguments store h =
      put_all-AllStored IsObtained _ store h (invoke-IsObtained n tool_id arguments)

module _ {Value Facts : Type 0} (executor : AgentExecutor Value Facts)
    (first second : EvidenceStore Value) (h : AllObtained executor first second) where
  IsObtained-trans :
      (e : Evidence Value) → IsObtained executor second e → IsObtained executor first e
  IsObtained-trans e (inl (id, found)) = h id e found
  IsObtained-trans e (inr called) = inr called

  pub AllObtained-trans :
      (third : EvidenceStore Value)
      → AllObtained executor second third
      → AllObtained executor first third
  AllObtained-trans third k id e found = IsObtained-trans e (k id e found)

  pub AreDrawn-trans :
      (outputs : Dict String (Dict String Value))
      → AreDrawn executor second outputs
      → AreDrawn executor first outputs
  AreDrawn-trans outputs k step_id source found field value there =
      let (e, obtained, content) = k step_id source found field value there in
      (e, IsObtained-trans e obtained, content)

module _ {Value Facts : Type 0} (executor : AgentExecutor Value Facts)
    (store : EvidenceStore Value) where
  pub AllObtained-self : AllObtained executor store store
  AllObtained-self id e found = inl (id, found)

  pub AreDrawn-nil : AreDrawn executor store []
  unfolding lookup
  AreDrawn-nil step_id source found = ground (arith, found)
