-- ===== src/Rate/Prune.antt =====
-- `prune` against its specification: binary search finds the stale prefix of a sorted window.
use umans_gate.Base.{
  ℕ, zero, suc, ◌+◌, ◌-◌, ◌/◌, ◌^◌, ◌≤◌, ◌<◌, ◌≡◌, refl, Bool, not, List, [], ◌∷◌, ltb, length,
  drop, take, keep, All, arith, length-keep-le,
}
use umans_gate.Rate.{
  Entry, Limiter, midpoint, is_stale_at, find_cut, weights, subtract_weights, prune,
}

-- Entries stand in the order of their times.
abbrev pub IsSorted : List Entry → Type 0
IsSorted [] = Unit
IsSorted (e ∷ es) = All (λ (f : Entry). e.time ≤ f.time) es × IsSorted es

abbrev pub is_stale : ℕ → ℕ → Entry → Bool
is_stale window now e = ltb (e.time + window) now

-- The entries that `prune` is to drop, and those that it is to keep.
abbrev pub stale : ℕ → ℕ → List Entry → List Entry
stale window now = keep (is_stale window now)

abbrev pub live : ℕ → ℕ → List Entry → List Entry
live window now = keep (λ e. not (is_stale window now e))

module _ (window now : ℕ) where
  stale-nil :
      (t : ℕ) (es : List Entry)
      → now ≤ t + window
      → All (λ (f : Entry). t ≤ f.time) es
      → (stale window now es ≡ []) × (live window now es ≡ es)
  stale-nil t [] h a = (refl, refl)
  stale-nil t (e ∷ es) h a = ground (arith, stale-nil t es h a.1, a.0)

  -- In a sorted window the stale entries come first.
  is_stale_at-lem :
      (es : List Entry) (i : ℕ)
      → IsSorted es
      → i < length es
      → is_stale_at es window now i ≡ ltb i (length (stale window now es))
  is_stale_at-lem [] i s h = elim h [ ]
  is_stale_at-lem (e ∷ es) zero s h = ground (arith, stale-nil e.time es)
  is_stale_at-lem (e ∷ es) (suc i) s h =
      ground (arith, is_stale_at-lem es i s.1 (omega arith), stale-nil e.time es)

  take-stale :
      (es : List Entry)
      → IsSorted es
      → (take (length (stale window now es)) es ≡ stale window now es)
        × (drop (length (stale window now es)) es ≡ live window now es)
  take-stale [] s = (refl, refl)
  take-stale (e ∷ es) s = ground (arith, take-stale es s.1, stale-nil e.time es)

midpoint_exact : (lo hi : ℕ) → lo < hi → hi < 2 ^ 31 → midpoint lo hi ≡ (lo + hi) / 2
unfolding midpoint
midpoint_exact lo hi h k = omega arith

-- The loop ends within the width of its range, at the first entry that is not stale.
find_cut-fuel :
    (fuel : ℕ) (es : List Entry) (window now lo hi : ℕ)
    → IsSorted es
    → length es < 2 ^ 31
    → lo ≤ length (stale window now es)
    → length (stale window now es) ≤ hi
    → hi ≤ length es
    → hi ≤ lo + fuel
    → find_cut fuel es window now lo hi ≡ length (stale window now es)
unfolding find_cut
find_cut-fuel zero es window now lo hi s b p q r f = omega arith
find_cut-fuel (suc fuel) es window now lo hi s b p q r f = ground (
  arith,
  midpoint_exact lo hi,
  is_stale_at-lem window now es (midpoint lo hi) s,
  find_cut-fuel fuel es window now (midpoint lo hi + 1) hi s b,
  find_cut-fuel fuel es window now lo (midpoint lo hi) s b,
)

subtract-lem : (sum : ℕ) (es : List Entry) → subtract_weights sum es ≡ sum - weights es
subtract-lem sum [] = omega arith
subtract-lem sum (e ∷ es) = omega (arith, subtract-lem (sum - e.weight) es)

weights-stale-live :
    (window now : ℕ) (es : List Entry)
    → weights (stale window now es) + weights (live window now es) ≡ weights es
weights-stale-live window now [] = omega arith
weights-stale-live window now (e ∷ es) = ground (arith, weights-stale-live window now es)

-- What a limiter keeps to between calls, the last of them at `now`.
pub record Inv (l : Limiter) (now : ℕ) : Type 0 where
  pub counted : l.running_sum ≡ weights l.entries
  pub within : l.running_sum ≤ l.limit
  pub sorted : IsSorted l.entries
  pub past : All (λ (e : Entry). e.time ≤ now) l.entries
  pub heavy : All (λ (e : Entry). 0 < e.weight) l.entries
  pub small : l.limit < 2 ^ 31

length-le-weights :
    (es : List Entry) → All (λ (e : Entry). 0 < e.weight) es → length es ≤ weights es
length-le-weights [] h = omega arith
length-le-weights (e ∷ es) h = omega (arith, length-le-weights es h.1, h.0)

stale-empty :
    (window now : ℕ) (es : List Entry) → length (stale window now es) ≤ 0 → live window now es ≡ es
stale-empty window now [] h = refl
stale-empty window now (e ∷ es) h = ground (arith, stale-empty window now es)

-- `prune` drops exactly the entries older than the window, and the sum follows.
pub prune_lem :
    (l : Limiter) (now before : ℕ)
    → Inv l before
    → prune l now ≡ record l {
      entries = live l.window_ms now l.entries;
      running_sum = weights (live l.window_ms now l.entries);
    }
unfolding prune
prune_lem l now before v = ground (
  arith,
  v.counted,
  length-le-weights l.entries v.heavy,
  length-keep-le (is_stale l.window_ms now) l.entries,
  find_cut-fuel (length l.entries) l.entries l.window_ms now 0 (length l.entries) v.sorted,
  take-stale l.window_ms now l.entries v.sorted,
  stale-empty l.window_ms now l.entries,
  subtract-lem l.running_sum (stale l.window_ms now l.entries),
  weights-stale-live l.window_ms now l.entries,
)
