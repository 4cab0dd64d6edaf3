-- ===== src/Rate/History.antt =====
-- What the limiter guarantees over every history of requests.
use umans_gate.Base.{
  ℕ, ◌+◌, ◌*◌, ◌^◌, ◌≤◌, ◌<◌, ◌≡◌, refl, sym, ap, ◌∙◌, not, ◌&&◌, List, [], ◌∷◌, ◌++◌, leb,
  if◌then◌else◌, arith, keep, keep-append, sum_by-append,
}
use umans_gate.Rate.{Entry, Limiter, weights, new, check, check_pruned, prune}
use umans_gate.Rate.Prune.{is_stale, live, Inv}
use umans_gate.Rate.Admission.{check-allowed, check-entries, check-Inv}

-- The requests of a history that `check` admits, appended to those before.
abbrev pub admissions : Limiter → List Entry → List Entry → List Entry
admissions l log [] = log
admissions l log (r ∷ rs) =
    let (l', result) = check l r.weight r.time in
    admissions l' (if result.allowed then log ++ r ∷ [] else log) rs

-- Requests come in the order of their times, from `before` on, and each weighs something.
abbrev pub Arrives : ℕ → List Entry → Type 0
Arrives before [] = Unit
Arrives before (r ∷ rs) = (before ≤ r.time) × (0 < r.weight) × Arrives r.time rs

-- The requests with a time from `start` to `start + window`.
abbrev pub between : ℕ → ℕ → List Entry → List Entry
between window start = keep (λ e. leb start e.time && leb e.time (start + window))

live-live :
    (window now before : ℕ) (es : List Entry)
    → before ≤ now
    → live window now (live window before es) ≡ live window now es
live-live window now before [] h = refl
live-live window now before (e ∷ es) h = ground (arith, live-live window now before es h)

between-le-live :
    (window start now : ℕ) (es : List Entry)
    → now ≤ start + window
    → weights (between window start es) ≤ weights (live window now es)
between-le-live window start now [] h = omega arith
between-le-live window start now (e ∷ es) h = ground (arith, between-le-live window start now es h)

-- The limiter's window is that of the whole log, and the log keeps to the limit.
record Logged (window limit start : ℕ) (l : Limiter) (log : List Entry) (now : ℕ) : Type 0 where
  inv : Inv l now
  same_window : l.window_ms ≡ window
  same_limit : l.limit ≡ limit
  windowed : live window now l.entries ≡ live window now log
  bounded : weights (between window start log) ≤ limit

check_keeps :
    (l : Limiter) (weight now : ℕ)
    → ((check l weight now).0.limit ≡ l.limit) × ((check l weight now).0.window_ms ≡ l.window_ms)
unfolding check prune check_pruned
check_keeps l weight now = ground arith

module _ (window limit start : ℕ) (l : Limiter) (log : List Entry) (before : ℕ) (r : Entry) where
  abbrev log' : List Entry
  log' = if (check l r.weight r.time).1.allowed then log ++ r ∷ [] else log

  live_now :
      Logged window limit start l log before
      → before ≤ r.time
      → live window r.time l.entries ≡ live window r.time log
  live_now g h =
      sym (live-live window r.time before l.entries h)
      ∙ ap (live window r.time) g.windowed
      ∙ live-live window r.time before log h

  windowed' :
      Logged window limit start l log before
      → before ≤ r.time
      → live window r.time (check l r.weight r.time).0.entries ≡ live window r.time log'
  windowed' g h = ground (
    arith,
    live_now g h,
    g.same_window,
    check-entries l r.weight r.time before g.inv,
    live-live window r.time r.time l.entries,
    keep-append (λ e. not (is_stale window r.time e)) (live window r.time l.entries) (r ∷ []),
    keep-append (λ e. not (is_stale window r.time e)) log (r ∷ []),
  )

  bounded' :
      Logged window limit start l log before
      → before ≤ r.time
      → weights (between window start log') ≤ limit
  bounded' g h = ground (
    arith,
    live_now g h,
    g.same_window,
    g.same_limit,
    g.bounded,
    check-allowed l r.weight r.time before g.inv,
    between-le-live window start r.time log,
    keep-append (λ e. leb start e.time && leb e.time (start + window)) log (r ∷ []),
    sum_by-append (λ (e : Entry). e.weight) (between window start log) (r ∷ []),
    sum_by-append (λ (e : Entry). e.weight) (between window start log) [],
  )

  Logged-check :
      Logged window limit start l log before
      → before ≤ r.time
      → 0 < r.weight
      → Logged window limit start (check l r.weight r.time).0 log' r.time
  Logged-check g h p = record {
    inv = check-Inv l r.weight r.time before h p g.inv;
    same_window = (check_keeps l r.weight r.time).1 ∙ g.same_window;
    same_limit = (check_keeps l r.weight r.time).0 ∙ g.same_limit;
    windowed = windowed' g h;
    bounded = bounded' g h;
  }

bounded_run :
    (window limit start : ℕ) (l : Limiter) (log rs : List Entry) (before : ℕ)
    → Logged window limit start l log before
    → Arrives before rs
    → weights (between window start (admissions l log rs)) ≤ limit
bounded_run window limit start l log [] before g a = g.bounded
bounded_run window limit start l log (r ∷ rs) before g a =
    bounded_run window limit start (check l r.weight r.time).0 _ rs r.time
      (Logged-check window limit start l log before r g a.0 a.1) a.2

-- Over any history of requests in the order of time, the requests admitted in any stretch of
-- `windowSeconds` weigh no more than the limit.
pub admissions-within-limit :
    (limit seconds start : ℕ) (rs : List Entry)
    → limit < 2 ^ 31
    → Arrives 0 rs
    → weights (between (seconds * 1000) start (admissions (new limit seconds) [] rs)) ≤ limit
unfolding new
admissions-within-limit limit seconds start rs h a =
    bounded_run (seconds * 1000) limit start (new limit seconds) [] rs 0
      (record {
        inv = record {
          counted = refl;
          within = omega arith;
          sorted = tt;
          past = tt;
          heavy = tt;
          small = h;
        };
        same_window = refl;
        same_limit = refl;
        windowed = refl;
        bounded = omega arith;
      })
      a
