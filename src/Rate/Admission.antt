-- ===== src/Rate/Admission.antt =====
-- `check` and `peek` against the contents of the window.
use umans_gate.Base.{
  ℕ, ◌+◌, ◌*◌, ◌≤◌, ◌<◌, ◌≡◌, ◌↔◌, refl, true, List, [], ◌∷◌, ◌++◌, some, if◌then◌else◌, All,
  All-append, arith, sum_by-append,
}
use umans_gate.Rate.{Entry, Limiter, weights, prune, retry_after, check_pruned, check, peek, count}
use umans_gate.Rate.Prune.{IsSorted, is_stale, live, Inv, prune_lem}

-- The weight that the requests of the window ending at `now` add up to.
abbrev pub in_window : Limiter → ℕ → ℕ
in_window l now = weights (live l.window_ms now l.entries)

-- `check` admits a request exactly when it fits in the limit beside the weight of the window.
pub check-allowed :
    (l : Limiter) (weight now before : ℕ)
    → Inv l before
    → ((check l weight now).1.allowed ≡ true) ↔ (in_window l now + weight ≤ l.limit)
unfolding check
check-allowed l weight now before v =
    rw (prune_lem l now before v) ((λ h. ground arith), (λ h. ground arith))

-- An admitted request joins the window at its end; a refused one leaves the window as it is, less
-- what is stale.
pub check-entries :
    (l : Limiter) (weight now before : ℕ)
    → Inv l before
    → (check l weight now).0.entries ≡ (
        if (check l weight now).1.allowed
        then live l.window_ms now l.entries ++ record { time = now; weight = weight } ∷ []
        else live l.window_ms now l.entries)
unfolding check
check-entries l weight now before v = rw (prune_lem l now before v) (ground arith)

-- `peek` gives the answer of `check`, and `count` the weight of the window, and neither records
-- a request.
pub peek-check :
    (l : Limiter) (weight now before : ℕ)
    → Inv l before
    → ((peek l weight now).1 ≡ (check l weight now).1)
      × ((peek l weight now).0.entries ≡ live l.window_ms now l.entries)
      × ((count l now).0.entries ≡ live l.window_ms now l.entries)
      × ((count l now).1 ≡ in_window l now)
unfolding check peek count
peek-check l weight now before v =
    rw (prune_lem l now before v) (ground arith, ground arith, refl, refl)

All-live :
    (P : Entry → Type 0) (window now : ℕ) (es : List Entry) → All P es → All P (live window now es)
All-live P window now [] h = tt
All-live P window now (e ∷ es) h = ground (arith, All-live P window now es h.1, h.0)

IsSorted-live : (window now : ℕ) (es : List Entry) → IsSorted es → IsSorted (live window now es)
IsSorted-live window now [] s = tt
IsSorted-live window now (e ∷ es) s =
    ground (arith, IsSorted-live window now es s.1, All-live _ window now es s.0)

IsSorted-push :
    (es : List Entry) (x : Entry)
    → IsSorted es
    → All (λ (e : Entry). e.time ≤ x.time) es
    → IsSorted (es ++ x ∷ [])
IsSorted-push [] x s h = (tt, tt)
IsSorted-push (e ∷ es) x s h = (All-append _ es (x ∷ []) s.0 (h.0, tt), IsSorted-push es x s.1 h.1)

All-later :
    (es : List Entry) (before now : ℕ)
    → before ≤ now
    → All (λ (e : Entry). e.time ≤ before) es
    → All (λ (e : Entry). e.time ≤ now) es
All-later [] before now h a = tt
All-later (e ∷ es) before now h a = (omega (arith, a.0), All-later es before now h a.1)

weights-live-le : (window now : ℕ) (es : List Entry) → weights (live window now es) ≤ weights es
weights-live-le window now [] = omega arith
weights-live-le window now (e ∷ es) = ground (arith, weights-live-le window now es)

-- The limiter once it has been pruned.
pub prune-Inv : (l : Limiter) (now before : ℕ) → before ≤ now → Inv l before → Inv (prune l now) now
prune-Inv l now before h v = rw (prune_lem l now before v) (record {
  counted = refl;
  within = omega (arith, weights-live-le l.window_ms now l.entries, v.counted, v.within);
  sorted = IsSorted-live l.window_ms now l.entries v.sorted;
  past = All-live _ l.window_ms now l.entries (All-later l.entries before now h v.past);
  heavy = All-live _ l.window_ms now l.entries v.heavy;
  small = v.small;
})

check_pruned-Inv :
    (l : Limiter) (weight now : ℕ) → 0 < weight → Inv l now → Inv (check_pruned l weight now).0 now
unfolding check_pruned
check_pruned-Inv l weight now h v =
    let e : Entry = record { time = now; weight = weight } in
    ground (
      arith,
      sum_by-append (λ (x : Entry). x.weight) l.entries (e ∷ []),
      IsSorted-push l.entries e v.sorted v.past,
      All-append (λ (x : Entry). x.time ≤ now) l.entries (e ∷ []) v.past (omega arith, tt),
      All-append (λ (x : Entry). 0 < x.weight) l.entries (e ∷ []) v.heavy (h, tt),
    )

-- `check` keeps the sum equal to the weight of the window and within the limit.
pub check-Inv :
    (l : Limiter) (weight now before : ℕ)
    → before ≤ now
    → 0 < weight
    → Inv l before
    → Inv (check l weight now).0 now
unfolding check
check-Inv l weight now before h p v =
    check_pruned-Inv (prune l now) weight now p (prune-Inv l now before h v)

-- After a refusal the oldest entry is stale as soon as more than `retryAfterSeconds` have passed.
pub check-retry :
    (l : Limiter) (weight now before : ℕ) {seconds : ℕ} {oldest : Entry} {rest : List Entry}
    → Inv l before
    → (check l weight now).1.retry_after_seconds ≡ some seconds
    → live l.window_ms now l.entries ≡ oldest ∷ rest
    → (1 ≤ seconds) × (is_stale l.window_ms (now + seconds * 1000 + 1) oldest ≡ true)
unfolding check retry_after
check-retry l weight now before v h e =
    let g = rw (prune_lem l now before v) at h in ground (arith, g, e)
