-- ===== src/Stamp/Run.antt =====
-- What holds of every step holds of the loop over the steps.
use umans_gate.Base.{
  Bool, true, false, ◌||◌, ◌≡◌, refl, ◌∙◌, List, [], ◌∷◌, Bool-cases, inl, inr, if◌then◌else◌,
}
use umans_gate.Stamp.Context.{StampContext, Body}
use umans_gate.Stamp.Pipeline.{StampStep, run_step, run_steps}

-- A fact about bodies that each step keeps where it applies.
module _ (ctx : StampContext) (Fact : Body → Type 0) where
  abbrev pub StepKeeps : StampStep → Type 0
  StepKeeps step =
      (body : Body) → step.applies ctx ≡ true → Fact body → Fact (step.apply ctx body).0

  abbrev pub AllKeep : List StampStep → Type 0
  AllKeep [] = true ≡ true
  AllKeep (step ∷ steps) = StepKeeps step × AllKeep steps

  run_step-keeps :
      (step : StampStep) (body : Body)
      → StepKeeps step
      → Fact body
      → Fact (run_step step ctx body).0
  run_step-keeps step body h fact = elim (Bool-cases (step.applies ctx)) [
    | inl e ↦ rw e (h body e fact)
    | inr e ↦ rw e fact
  ]

  pub run_steps-keeps :
      (steps : List StampStep) (body : Body)
      → AllKeep steps
      → Fact body
      → Fact (run_steps steps ctx body).0
  run_steps-keeps [] body h fact = fact
  run_steps-keeps (step ∷ steps) body h fact =
      run_steps-keeps steps (run_step step ctx body).0 h.1 (run_step-keeps step body h.0 fact)

-- A part of a step tells when it leaves what it is given as it is.
abbrev pub Honest : {A : Type 0} → A → A × Bool → Type 0
Honest a r = r.1 ≡ false → r.0 ≡ a

pub Honest-same : {A : Type 0} (a : A) → Honest a (a, false)
Honest-same a h = refl

pub Honest-if : {A : Type 0} (b : Bool) (a a' : A) → Honest a (if b then (a', true) else (a, false))
Honest-if true a a' h = cc
Honest-if false a a' h = refl

or-false : (a b : Bool) → (a || b) ≡ false → (a ≡ false) × (b ≡ false)
or-false true b h = cc
or-false false b h = (refl, h)

-- One part after another.
pub Honest-then :
    {A : Type 0} (a : A) (r r' : A × Bool)
    → Honest a r
    → Honest r.0 r'
    → Honest a (r'.0, r.1 || r'.1)
Honest-then a r r' h k e = let (e₁, e₂) = or-false r.1 r'.1 e in k e₂ ∙ h e₁

module _ (ctx : StampContext) where
  abbrev pub AllHonest : List StampStep → Type 0
  AllHonest [] = true ≡ true
  AllHonest (step ∷ steps) = ((body : Body) → Honest body (step.apply ctx body)) × AllHonest steps

  run_step-Honest :
      (step : StampStep) (body : Body)
      → Honest body (step.apply ctx body)
      → Honest body (run_step step ctx body)
  run_step-Honest step body h = elim (Bool-cases (step.applies ctx)) [
    | inl e ↦ rw e h
    | inr e ↦ rw e (Honest-same body)
  ]

  pub run_steps-Honest :
      (steps : List StampStep) (body : Body)
      → AllHonest steps
      → Honest body (run_steps steps ctx body)
  run_steps-Honest [] body h = Honest-same body
  run_steps-Honest (step ∷ steps) body h =
      let r = run_step step ctx body in
      Honest-then body r (run_steps steps ctx r.0) (run_step-Honest step body (h.0 body))
        (run_steps-Honest steps r.0 h.1)
