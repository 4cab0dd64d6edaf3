-- ===== src/Budget.antt =====
-- The budget that is shown, and the tier of a wallet (src/usage/budget.ts, src/usage/pricing-tier.ts).
-- Percentages and limits are natural numbers. `sort` is the stable sort of an array.
pub mod Urgency
mod Tests
use umans_gate.Base.{
  ℕ, Bool, true, false, ◌&&◌, List, [], ◌∷◌, Option, none, some, if◌then◌else◌, String, ltb,
  nat_beq,
}

pub record PriorityBudgetEntry : Type 0 where
  pub category : String
  pub label : String
  pub models : List String
  pub used_pct : ℕ
  pub over_budget_today : Bool
  pub mode : String
  pub resets_at : Option ℕ

-- Whether the comparison of the two is negative: `a` is the more urgent one.
abbrev pub before : PriorityBudgetEntry → PriorityBudgetEntry → Bool
before a b =
    if a.over_budget_today
    then (if b.over_budget_today then ltb b.used_pct a.used_pct else true)
    else if b.over_budget_today
    then false
    else ltb b.used_pct a.used_pct

-- An entry stays before those after it that are not more urgent.
abbrev pub place : PriorityBudgetEntry → List PriorityBudgetEntry → List PriorityBudgetEntry
place x [] = x ∷ []
place x (y ∷ ys) = let rest = place x ys in if before y x then y ∷ rest else x ∷ y ∷ ys

unfoldable pub sorted : List PriorityBudgetEntry → List PriorityBudgetEntry
sorted [] = []
sorted (x ∷ xs) = place x (sorted xs)

-- `entries.every((e) => e.usedPct === 0)`
abbrev pub every_unused : List PriorityBudgetEntry → Bool
every_unused [] = true
every_unused (e ∷ es) = nat_beq e.used_pct 0 && every_unused es

abbrev pub first : List PriorityBudgetEntry → Option PriorityBudgetEntry
first [] = none
first (e ∷ es) = some e

-- The summary has the fields of the entry.
unfoldable pub select_most_urgent_budget : List PriorityBudgetEntry → Option PriorityBudgetEntry
select_most_urgent_budget entries = if every_unused entries then none else first (sorted entries)

pub data WalletTier : Type 0 where
  tier : ℕ → WalletTier
  unknown : WalletTier

pub record WalletTierRow : Type 0 where
  pub tier : ℕ
  pub requests_limit : ℕ
  pub window_seconds : ℕ
  pub concurrency_limit : ℕ

abbrev pub tier_row : ℕ → ℕ → ℕ → WalletTierRow
tier_row index requests concurrency = record {
  tier = index;
  requests_limit = requests;
  window_seconds = 18000;
  concurrency_limit = concurrency;
}

abbrev pub wallet_tiers : List WalletTierRow
wallet_tiers = tier_row 0 500 4 ∷ tier_row 1 1000 8 ∷ tier_row 2 2000 12 ∷ tier_row 3 4000 16 ∷ []

abbrev pub find_tier : ℕ → List WalletTierRow → WalletTier
find_tier limit [] = unknown
find_tier limit (r ∷ rs) =
    let rest = find_tier limit rs in if nat_beq r.requests_limit limit then tier r.tier else rest

-- The limit of requests alone decides.
unfoldable pub derive_wallet_tier : Option ℕ → WalletTier
derive_wallet_tier none = unknown
derive_wallet_tier (some limit) = find_tier limit wallet_tiers
