-- ===== src/Rate.antt =====
-- The local sliding-window rate limiter (src/rate.ts, class SlidingWindowRateLimiter).
-- Times are whole milliseconds; weights and the limit are counted in one unit in which they are
-- whole, so that sums are exact. `Date.now()` is an argument. `now - windowMs` may be negative in
-- the source: `t < now - w` is written `t + w < now`.
pub mod Prune
pub mod Admission
pub mod History
mod Tests
use umans_gate.Base.{
  ℕ, zero, suc, ◌+◌, ◌-◌, ◌*◌, ◌/◌, ◌%◌, ◌^◌, max, Bool, true, false, List, [], ◌∷◌, ◌++◌, Option,
  none, some, ltb, if◌then◌else◌, length, drop, take, sum_by, get_elem?,
}

pub record Entry : Type 0 where
  pub time : ℕ
  pub weight : ℕ

pub record Limiter : Type 0 where
  pub entries : List Entry
  pub running_sum : ℕ
  pub limit : ℕ
  pub window_ms : ℕ

pub record CheckResult : Type 0 where
  pub allowed : Bool
  pub remaining : ℕ
  pub retry_after_seconds : Option ℕ

unfoldable pub new : ℕ → ℕ → Limiter
new limit window_seconds = record {
  entries = [];
  running_sum = 0;
  limit = limit;
  window_ms = window_seconds * 1000;
}

-- `(lo + hi) >>> 1`, on 32 bits.
unfoldable pub midpoint : ℕ → ℕ → ℕ
midpoint lo hi = (lo + hi) % 2 ^ 32 / 2

-- `entries[mid].time < cutoff`; an index out of range would throw.
abbrev pub is_stale_at : List Entry → ℕ → ℕ → ℕ → Bool
is_stale_at entries window now mid = elim (get_elem? entries mid) [
  | some e ↦ ltb (e.time + window) now
  | none ↦ false
]

-- The loop of `prune`. Fuel: the width of the range is enough (Rate.Prune.find_cut-fuel).
unfoldable pub find_cut : ℕ → List Entry → ℕ → ℕ → ℕ → ℕ → ℕ
find_cut zero entries window now lo hi = lo
find_cut (suc fuel) entries window now lo hi =
    let mid = midpoint lo hi in
    let above = find_cut fuel entries window now (mid + 1) hi in
    let below = find_cut fuel entries window now lo mid in
    if ltb lo hi then (if is_stale_at entries window now mid then above else below) else lo

abbrev pub weights : List Entry → ℕ
weights = sum_by (λ e. e.weight)

-- Subtract the dropped weights one by one. A sum kept by the class never goes below zero.
abbrev pub subtract_weights : ℕ → List Entry → ℕ
subtract_weights sum [] = sum
subtract_weights sum (e ∷ es) = subtract_weights (sum - e.weight) es

unfoldable pub prune : Limiter → ℕ → Limiter
prune l now =
    let lo = find_cut (length l.entries) l.entries l.window_ms now 0 (length l.entries) in
    if ltb 0 lo
    then record l {
      running_sum = subtract_weights l.running_sum (take lo l.entries);
      entries = drop lo l.entries;
    }
    else l

-- `Math.ceil((oldest.time + windowMs - now) / 1000)`, at least 1; 1 where there is no entry.
unfoldable pub retry_after : Limiter → ℕ → ℕ
retry_after l now = elim l.entries [
  | [] ↦ 1
  | oldest ∷ rest ↦ max 1 ((oldest.time + l.window_ms - now + 999) / 1000)
]

refused : Limiter → ℕ → CheckResult
unfolding retry_after
refused l now = record {
  allowed = false;
  remaining = l.limit - l.running_sum;
  retry_after_seconds = some (retry_after l now);
}

admitted : Limiter → ℕ → CheckResult
admitted l weight = record {
  allowed = true;
  remaining = l.limit - l.running_sum - weight;
  retry_after_seconds = none;
}

push : Limiter → ℕ → ℕ → Limiter
push l weight now = record l {
  entries = l.entries ++ record { time = now; weight = weight } ∷ [];
  running_sum = l.running_sum + weight;
}

-- `check`, after the entries have been pruned.
unfoldable pub check_pruned : Limiter → ℕ → ℕ → Limiter × CheckResult
unfolding refused admitted push
check_pruned l weight now =
    if ltb l.limit (l.running_sum + weight)
    then (l, refused l now)
    else (push l weight now, admitted l weight)

unfoldable pub check : Limiter → ℕ → ℕ → Limiter × CheckResult
unfolding check_pruned
check l weight now = check_pruned (prune l now) weight now

unfoldable pub peek_pruned : Limiter → ℕ → ℕ → Limiter × CheckResult
unfolding refused admitted
peek_pruned l weight now =
    if ltb l.limit (l.running_sum + weight) then (l, refused l now) else (l, admitted l weight)

unfoldable pub peek : Limiter → ℕ → ℕ → Limiter × CheckResult
unfolding peek_pruned
peek l weight now = peek_pruned (prune l now) weight now

unfoldable pub count : Limiter → ℕ → Limiter × ℕ
count l now = let l' = prune l now in (l', l'.running_sum)
