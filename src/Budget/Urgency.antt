-- ===== src/Budget/Urgency.antt =====
-- The budget that src/usage/budget.ts selects is the most urgent one.
use umans_gate.Base.{
  ◌≡◌, refl, sym, ◌∙◌, subst, ◌⊎◌, inl, inr, true, false, List, [], ◌∷◌, Option, none, some,
  Bool-cases, Option-cases, if◌then◌else◌, arith, ap, ◌<◌, ◌↔◌, All,
}
use mathlib.Core.Bool.{true≢false}
use umans_gate.Budget.{
  PriorityBudgetEntry, before, place, sorted, every_unused, first, select_most_urgent_budget,
}

-- One of the entries, before which none of them comes.
abbrev pub Leads : PriorityBudgetEntry → List PriorityBudgetEntry → Type 0
Leads t [] = true ≡ true
Leads t (e ∷ es) = (before e t ≡ false) × Leads t es

abbrev pub IsOneOf : PriorityBudgetEntry → List PriorityBudgetEntry → Type 0
IsOneOf t [] = true ≡ false
IsOneOf t (e ∷ es) = (t ≡ e) ⊎ IsOneOf t es

before-asymmetric : (a b : PriorityBudgetEntry) → before a b ≡ true → before b a ≡ false
before-asymmetric a b h = ground (arith, h)

before_trans :
    (a b c : PriorityBudgetEntry) → before b c ≡ false → before a b ≡ false → before a c ≡ false
before_trans a b c h k = ground (arith, h, k)

before-irreflexive : (a : PriorityBudgetEntry) → before a a ≡ false
before-irreflexive a = ground arith

some_inj : (a b : PriorityBudgetEntry) → some a ≡ some b → a ≡ b
some_inj a b h = cc

Leads-trans :
    (x y : PriorityBudgetEntry) (es : List PriorityBudgetEntry)
    → before y x ≡ false
    → Leads y es
    → Leads x es
Leads-trans x y [] h k = refl
Leads-trans x y (e ∷ es) h (k, more) = (before_trans e y x h k, Leads-trans x y es h more)

-- The first after `x` is put in its place.
abbrev ahead : PriorityBudgetEntry → Option PriorityBudgetEntry → Option PriorityBudgetEntry
ahead x none = some x
ahead x (some y) = if before y x then some y else some x

first-place :
    (x : PriorityBudgetEntry) (l : List PriorityBudgetEntry) → first (place x l) ≡ ahead x (first l)
first-place x [] = refl
first-place x (y ∷ ys) = elim (Bool-cases (before y x)) [ inl e ↦ rw e refl | inr e ↦ rw e refl ]

-- Of `x` and entries that `y` leads, the first one leads all.
ahead-Leads :
    (x : PriorityBudgetEntry) (xs : List PriorityBudgetEntry) (o : Option PriorityBudgetEntry)
    (t : PriorityBudgetEntry)
    → (o ≡ none → xs ≡ [])
    → ((y : PriorityBudgetEntry) → o ≡ some y → IsOneOf y xs × Leads y xs)
    → ahead x o ≡ some t
    → IsOneOf t (x ∷ xs) × Leads t (x ∷ xs)
ahead-Leads x xs none t empty led h = rw (empty refl) (
  inl (some_inj t x (sym h)),
  (subst (λ z. before x z ≡ false) (some_inj x t h) (before-irreflexive x), refl),
)
ahead-Leads x xs (some y) t empty led h =
    let (one, leads) = led y refl in
    elim (Bool-cases (before y x)) [
      | inl e ↦
          let same : y ≡ t =
            some_inj y t (subst (λ b. (if b then some y else some x) ≡ some t) e h) in
          subst (λ z. IsOneOf z (x ∷ xs) × Leads z (x ∷ xs)) same
            (inr one, (before-asymmetric y x e, leads))
      | inr e ↦
          let same : x ≡ t =
            some_inj x t (subst (λ b. (if b then some y else some x) ≡ some t) e h) in
          subst (λ z. IsOneOf z (x ∷ xs) × Leads z (x ∷ xs)) same
            (inl refl, (before-irreflexive x, Leads-trans x y xs e leads))
    ]

ahead-some :
    (x : PriorityBudgetEntry) (o : Option PriorityBudgetEntry) → ahead x o ≡ none → true ≡ false
ahead-some x none h = cc
ahead-some x (some y) h = elim (Bool-cases (before y x)) [
  | inl e ↦ ground (arith, h, e)
  | inr e ↦ ground (arith, h, e)
]

sorted-none : (xs : List PriorityBudgetEntry) → first (sorted xs) ≡ none → xs ≡ []
unfolding sorted
sorted-none [] h = refl
sorted-none (x ∷ xs) h =
    absurd (true≢false (ahead-some x (first (sorted xs)) (sym (first-place x (sorted xs)) ∙ h)))

sorted-Leads :
    (xs : List PriorityBudgetEntry) (t : PriorityBudgetEntry)
    → first (sorted xs) ≡ some t
    → IsOneOf t xs × Leads t xs
unfolding sorted
sorted-Leads [] t h = cc
sorted-Leads (x ∷ xs) t h =
    ahead-Leads x xs (first (sorted xs)) t (sorted-none xs) (sorted-Leads xs)
      (sym (first-place x (sorted xs)) ∙ h)

-- The order that is meant: a budget over its share today before one that is not, and then the greater share.
abbrev pub MoreUrgent : PriorityBudgetEntry → PriorityBudgetEntry → Type 0
MoreUrgent a b =
    ((a.over_budget_today ≡ true) × (b.over_budget_today ≡ false))
    ⊎ ((a.over_budget_today ≡ b.over_budget_today) × (b.used_pct < a.used_pct))

abbrev pub NoneMoreUrgent : PriorityBudgetEntry → List PriorityBudgetEntry → Type 0
NoneMoreUrgent t es = All (λ e. ¬ (MoreUrgent e t)) es

before-MoreUrgent : (e t : PriorityBudgetEntry) → before e t ≡ false → ¬ (MoreUrgent e t)
before-MoreUrgent e t h (inl (o, n)) = ground (arith, h, o, n)
before-MoreUrgent e t h (inr (s, l)) = ground (arith, h, s, l)

Leads-NoneMoreUrgent :
    (t : PriorityBudgetEntry) (es : List PriorityBudgetEntry) → Leads t es → NoneMoreUrgent t es
Leads-NoneMoreUrgent t [] h = tt
Leads-NoneMoreUrgent t (e ∷ es) (h, more) =
    (before-MoreUrgent e t h, Leads-NoneMoreUrgent t es more)

-- Nothing is used of any of the entries.
abbrev pub AllUnused : List PriorityBudgetEntry → Type 0
AllUnused es = All (λ e. e.used_pct ≡ 0) es

every_unused_iff : (es : List PriorityBudgetEntry) → (every_unused es ≡ true) ↔ AllUnused es
every_unused_iff [] = ((λ h. tt), (λ h. refl))
every_unused_iff (e ∷ es) =
    let ih = every_unused_iff es in
    ((λ h. (ground (arith, h), ih.0 (ground (arith, h)))), (λ p. ground (arith, p.0, ih.1 p.1)))

-- Nothing is selected where nothing is used of any budget. Else one of the entries is, and none is more urgent: over
-- budget today before the others, then by the share that is used.
pub select_most_urgent_budget-cases :
    (entries : List PriorityBudgetEntry)
    → (AllUnused entries × (select_most_urgent_budget entries ≡ none))
      ⊎ (¬ (AllUnused entries)
          × ((t : PriorityBudgetEntry) × (select_most_urgent_budget entries ≡ some t)
              × IsOneOf t entries
              × NoneMoreUrgent t entries))
unfolding select_most_urgent_budget
select_most_urgent_budget-cases entries = elim (Bool-cases (every_unused entries)) [
  | inl e ↦ inl ((every_unused_iff entries).0 e, rw e refl)
  | inr e ↦ elim (Option-cases (first (sorted entries))) [
    | inl none_left ↦
        absurd (true≢false (sym (ap every_unused (sorted-none entries none_left)) ∙ e))
    | inr (t, found) ↦
        let (one, leads) = sorted-Leads entries t found in
        inr (
          (λ u. true≢false (sym ((every_unused_iff entries).1 u) ∙ e)),
          (t, rw e found, one, Leads-NoneMoreUrgent t entries leads),
        )
  ]
]
