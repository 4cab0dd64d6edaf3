-- ===== src/Usage/Latest.antt =====
-- What a loop over a stream (src/usage/extract.ts) keeps of it: the last value that an event brings.
use umans_gate.Base.{◌≡◌, refl, ◌∙◌, List, [], ◌∷◌, Option, none, some, Option-cases, inl, inr}
use umans_gate.Sse.{Received}
use umans_gate.Sse.Values.{values}
use umans_gate.Usage.{scan}

-- The last value that `f` finds.
abbrev pub last_of : {E B : Type 0} → (E → Option B) → List E → Option B
last_of f [] = none
last_of f (e ∷ es) = elim (last_of f es) [ none ↦ f e | some b ↦ some b ]

-- The first one.
abbrev pub first_of : {E B : Type 0} → (E → Option B) → List E → Option B
first_of f [] = none
first_of f (e ∷ es) = elim (f e) [ none ↦ first_of f es | some b ↦ some b ]

-- `found` as a value of the variable, or what the variable was.
abbrev pub settle : {A B : Type 0} → (B → A) → Option B → A → A
settle inject none a = a
settle inject (some b) a = inject b

-- A variable that each step sets to what `f` finds ends as the last value found.
module _ {E S A B : Type 0} (step : Received E → S → S) (variable : S → A) (inject : B → A)
    (f : E → Option B)
    (sets : (e : Received E) (s : S)
      → variable (step e s) ≡ settle inject (f e.value) (variable s)) where
  pub scan-last :
      (es : List (Received E)) (s : S)
      → variable (scan step es s) ≡ settle inject (last_of f (values es)) (variable s)
  scan-last [] s = refl
  scan-last (e ∷ es) s = scan-last es (step e s) ∙ (elim (Option-cases (last_of f (values es))) [
    | inl h ↦ rw h (sets e s)
    | inr (b, h) ↦ rw h refl
  ])

-- A variable that a step sets only where it is none ends as the first value found.
module _ {E S A : Type 0} (step : Received E → S → S) (variable : S → Option A)
    (f : Received E → Option A)
    (keeps : (e : Received E) (s : S) (a : A) → variable s ≡ some a → variable (step e s) ≡ some a)
    (fills : (e : Received E) (s : S) → variable s ≡ none → variable (step e s) ≡ f e) where
  scan-keeps :
      (es : List (Received E)) (s : S) (a : A)
      → variable s ≡ some a
      → variable (scan step es s) ≡ some a
  scan-keeps [] s a h = h
  scan-keeps (e ∷ es) s a h = scan-keeps es (step e s) a (keeps e s a h)

  pub scan-first :
      (es : List (Received E)) (s : S)
      → variable s ≡ none
      → variable (scan step es s) ≡ first_of f es
  scan-first [] s h = h
  scan-first (e ∷ es) s h = elim (Option-cases (f e)) [
    | inl k ↦ rw (k, first_of) (scan-first es (step e s) (fills e s h ∙ k))
    | inr (a, k) ↦ rw (k, first_of) (scan-keeps es (step e s) a (fills e s h ∙ k))
  ]
