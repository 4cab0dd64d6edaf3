-- ===== src/Budget/Tests.antt =====
-- Budgets at concrete entries.
use umans_gate.Base.{ℕ, ◌≡◌, refl, Bool, true, false, List, [], ◌∷◌, none, some, ◌⊎◌}
use umans_gate.Budget.{
  PriorityBudgetEntry, sorted, select_most_urgent_budget, unknown, derive_wallet_tier,
}
use umans_gate.Budget.Urgency.{AllUnused, IsOneOf, NoneMoreUrgent, select_most_urgent_budget-cases}

abbrev budget : ℕ → Bool → PriorityBudgetEntry
budget used over = record {
  category = "model";
  label = "Model";
  models = [];
  used_pct = used;
  over_budget_today = over;
  mode = "normal";
  resets_at = none;
}

abbrev budgets : List PriorityBudgetEntry
budgets = budget 90 false ∷ budget 20 true ∷ budget 40 true ∷ []

-- Over budget comes before a greater share.
selected : select_most_urgent_budget budgets ≡ some (budget 40 true)
unfolding select_most_urgent_budget sorted
selected = refl

-- A budget that is over today but of which nothing is used is not shown.
unused_is_hidden : select_most_urgent_budget (budget 0 true ∷ []) ≡ none
unfolding select_most_urgent_budget
unused_is_hidden = refl

no_nearest_tier : derive_wallet_tier (some 1500) ≡ unknown
unfolding derive_wallet_tier
no_nearest_tier = refl

select_most_urgent_budget-cases_example :
    (AllUnused budgets × (select_most_urgent_budget budgets ≡ none))
    ⊎ (¬ (AllUnused budgets)
        × ((t : PriorityBudgetEntry) × (select_most_urgent_budget budgets ≡ some t)
            × IsOneOf t budgets
            × NoneMoreUrgent t budgets))
select_most_urgent_budget-cases_example = select_most_urgent_budget-cases budgets
