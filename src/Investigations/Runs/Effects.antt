-- ===== src/Investigations/Runs/Effects.antt =====
-- Rules for the actions of the investigation workflow: those that save nothing, and those that end by
-- saving the run that they return.
use promptql.Prelude.{◌≡◌, refl, ◌∙◌, ap, inl, inr, Option, none, some, [], ◌∷◌, ◌++◌, Bool-cases}
use promptql.Investigations.Runs.Models.{InvestigationRun}
use promptql.Investigations.Runs.World.{
  Raised, InvestigationService, World, Outcome, returned, raised, Exec, pure, raise, need, continue,
  now, save, ◌>>=◌, ◌>>◌,
}

module _ {Value : Type 0} where
  pub record Still {A : Type 0} (m : Exec Value A) : Type 0 where
    pub at : (w : World Value) → (m w).1.saved ≡ w.saved

  module _ {A B : Type 0} where
    Still-continue :
        (r : Outcome A) (f : A → Exec Value B) (w w₀ : World Value)
        → w.saved ≡ w₀.saved
        → ((a : A) → Still (f a))
        → (continue r f w).1.saved ≡ w₀.saved
    Still-continue (returned a) f w w₀ e h = (h a).at w ∙ e
    Still-continue (raised x) f w w₀ e h = e

    pub Still-bind :
        (m : Exec Value A) (f : A → Exec Value B)
        → Still m
        → ((a : A) → Still (f a))
        → Still (m >>= f)
    unfolding ◌>>=◌
    Still-bind m f s h = record { at = λ w. Still-continue (m w).0 f (m w).1 w (s.at w) h }

  module _ {A : Type 0} where
    pub Still-pure : (a : A) → Still (pure {Value = Value} a)
    unfolding pure
    Still-pure a = record { at = λ w. refl }

    pub Still-raise : (e : Raised) → Still (raise {Value = Value} {A = A} e)
    unfolding raise
    Still-raise e = record { at = λ w. refl }

    pub Still-need : (o : Option A) → Still (need {Value = Value} o)
    unfolding need
    Still-need none = record { at = λ w. refl }
    Still-need (some a) = record { at = λ w. refl }

  pub Still-now : (service : InvestigationService Value) → Still (now service)
  unfolding now
  Still-now service = record { at = λ w. refl }

  module _ (Q : InvestigationRun Value → Type 0) where
    -- what is returned was saved last and is as described; what raises has saved nothing
    abbrev pub EndsAt : World Value → Outcome (InvestigationRun Value) → World Value → Type 0
    EndsAt w (returned run) w' = (w'.saved ≡ w.saved ++ run ∷ []) × Q run
    EndsAt w (raised e) w' = w'.saved ≡ w.saved

    pub record Ends (m : Exec Value (InvestigationRun Value)) : Type 0 where
      pub at : (w : World Value) → EndsAt w (m w).0 (m w).1

    moved :
        (w₀ w w' : World Value) (r : Outcome (InvestigationRun Value))
        → w.saved ≡ w₀.saved
        → EndsAt w r w'
        → EndsAt w₀ r w'
    moved w₀ w w' (returned run) e h = (h.0 ∙ ap (λ saved. saved ++ run ∷ []) e, h.1)
    moved w₀ w w' (raised x) e h = h ∙ e

    module _ {A : Type 0} where
      Ends-continue :
          (r : Outcome A) (f : A → Exec Value (InvestigationRun Value)) (w w₀ : World Value)
          → w.saved ≡ w₀.saved
          → ((a : A) → Ends (f a))
          → EndsAt w₀ (continue r f w).0 (continue r f w).1
      Ends-continue (returned a) f w w₀ e h = moved w₀ w (f a w).1 (f a w).0 e ((h a).at w)
      Ends-continue (raised x) f w w₀ e h = e

      pub Ends-bind :
          (m : Exec Value A) (f : A → Exec Value (InvestigationRun Value))
          → Still m
          → ((a : A) → Ends (f a))
          → Ends (m >>= f)
      unfolding ◌>>=◌
      Ends-bind m f s h = record { at = λ w. Ends-continue (m w).0 f (m w).1 w (s.at w) h }

      pub Ends-need :
          (o : Option A) (f : A → Exec Value (InvestigationRun Value))
          → ((a : A) → o ≡ some a → Ends (f a))
          → Ends (need o >>= f)
      unfolding ◌>>=◌
      Ends-need none f h = record { at = λ w. refl }
      Ends-need (some a) f h = record { at = λ w. (h a refl).at w }

    pub Ends-save :
        (service : InvestigationService Value) (run : InvestigationRun Value)
        → Q run
        → Ends (save service run >> pure run)
    unfolding ◌>>=◌
    Ends-save service run q = record {
      at = λ w. elim (Bool-cases (service.refuses run)) [
        | inl e ↦ rw e refl
        | inr e ↦ rw e (refl, q)
      ];
    }
