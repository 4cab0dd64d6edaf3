-- ===== src/Auth/Lockout.antt =====
-- The lockout against the failures of its window, and the comparison of tokens.
use umans_gate.Base.{
  ℕ, ◌+◌, ◌*◌, ◌≤◌, ◌≡◌, ◌↔◌, refl, sym, ap, ◌∙◌, true, List, [], ◌∷◌, ◌++◌, Option, none, some,
  arith, leb, length, drop, keep, keep-append, append-nil, append_assoc, subst, All, All-append,
}
use umans_gate.Auth.{
  AuthFailureLimiter, new, find_index, prune, record_failure, is_locked_out, bytes_equal,
  tokens_equal,
}

abbrev pub Ascending : List ℕ → Type 0
Ascending [] = Unit
Ascending (t ∷ ts) = All (λ u. t ≤ u) ts × Ascending ts

-- The failures of the window that ends at `now`.
abbrev pub recent : ℕ → ℕ → List ℕ → List ℕ
recent window now = keep (λ t. leb now (t + window))

abbrev cut : List ℕ → Option ℕ → List ℕ
cut ts none = []
cut ts (some i) = drop i ts

live_recent :
    (window now t : ℕ) (ts : List ℕ)
    → now ≤ t + window
    → All (λ u. t ≤ u) ts
    → recent window now ts ≡ ts
live_recent window now t [] h a = refl
live_recent window now t (u ∷ us) h a = ground (arith, live_recent window now t us h a.1, a.0)

cut-recent :
    (window now : ℕ) (ts : List ℕ)
    → Ascending ts
    → cut ts (find_index window now ts) ≡ recent window now ts
cut-recent window now [] s = refl
cut-recent window now (t ∷ ts) s =
    ground (arith, live_recent window now t ts, s.0, cut-recent window now ts s.1)

-- `prune` keeps exactly the failures of the window.
prune-recent :
    (l : AuthFailureLimiter) (now : ℕ)
    → Ascending l.failures
    → prune l now ≡ record l { failures = recent l.window_ms now l.failures }
unfolding prune
prune-recent l now s = ground (arith, cut-recent l.window_ms now l.failures s)

recent-recent :
    (window now before : ℕ) (ts : List ℕ)
    → before ≤ now
    → recent window now (recent window before ts) ≡ recent window now ts
recent-recent window now before [] h = refl
recent-recent window now before (t ∷ ts) h = ground (arith, recent-recent window now before ts h)

All-recent :
    (P : ℕ → Type 0) (window now : ℕ) (ts : List ℕ) → All P ts → All P (recent window now ts)
All-recent P window now [] a = tt
All-recent P window now (t ∷ ts) a = ground (arith, a.0, All-recent P window now ts a.1)

Ascending-recent : (window now : ℕ) (ts : List ℕ) → Ascending ts → Ascending (recent window now ts)
Ascending-recent window now [] s = tt
Ascending-recent window now (t ∷ ts) s =
    ground (arith, All-recent (λ u. t ≤ u) window now ts s.0, Ascending-recent window now ts s.1)

Ascending-push :
    (ts : List ℕ) (now : ℕ) → Ascending ts → All (λ t. t ≤ now) ts → Ascending (ts ++ now ∷ [])
Ascending-push [] now s a = (tt, tt)
Ascending-push (t ∷ ts) now s a =
    (All-append (λ u. t ≤ u) ts (now ∷ []) s.0 (a.0, tt), Ascending-push ts now s.1 a.1)

All-later :
    (before now : ℕ) (ts : List ℕ) → before ≤ now → All (λ t. t ≤ before) ts → All (λ t. t ≤ now) ts
All-later before now [] h a = tt
All-later before now (t ∷ ts) h a = (omega (arith, a.0), All-later before now ts h a.1)

-- The limiter holds the window of the whole log.
record Logged (max window : ℕ) (l : AuthFailureLimiter) (log : List ℕ) (now : ℕ) : Type 0 where
  same_max : l.max_failures ≡ max
  same_window : l.window_ms ≡ window
  ordered : Ascending l.failures
  past : All (λ t. t ≤ now) l.failures
  windowed : recent window now l.failures ≡ recent window now log

module _ (max window : ℕ) (l : AuthFailureLimiter) (log : List ℕ) (before : ℕ) where
  recent_now :
      (now : ℕ)
      → Logged max window l log before
      → before ≤ now
      → recent window now l.failures ≡ recent window now log
  recent_now now g h =
      sym (recent-recent window now before l.failures h)
      ∙ ap (recent window now) g.windowed
      ∙ recent-recent window now before log h

  Logged-failure :
      (now : ℕ)
      → Logged max window l log before
      → before ≤ now
      → Logged max window (record_failure l now) (log ++ now ∷ []) now
  unfolding record_failure
  Logged-failure now g h = rw (prune-recent l now g.ordered) (record {
    same_max = g.same_max;
    same_window = g.same_window;
    ordered =
        Ascending-push (recent l.window_ms now l.failures) now
          (Ascending-recent l.window_ms now l.failures g.ordered)
          (All-recent _ l.window_ms now l.failures (All-later before now l.failures h g.past));
    past =
        All-append _ (recent l.window_ms now l.failures) (now ∷ [])
          (All-recent _ l.window_ms now l.failures (All-later before now l.failures h g.past))
          (omega arith, tt);
    windowed = ground (
      arith,
      g.same_window,
      recent_now now g h,
      recent-recent window now now l.failures,
      keep-append (λ t. leb now (t + window)) (recent window now l.failures) (now ∷ []),
      keep-append (λ t. leb now (t + window)) log (now ∷ []),
    );
  })

-- The attempts of a client fail at these times.
abbrev pub fail_at : AuthFailureLimiter → List ℕ → AuthFailureLimiter
fail_at l [] = l
fail_at l (t ∷ ts) = fail_at (record_failure l t) ts

-- Times in order, from `before` on and up to `now`.
abbrev pub Spans : ℕ → ℕ → List ℕ → Type 0
Spans before now [] = before ≤ now
Spans before now (t ∷ ts) = (before ≤ t) × Spans t now ts

locked_out_after :
    (max window : ℕ) (l : AuthFailureLimiter) (log ts : List ℕ) (before now : ℕ)
    → Logged max window l log before
    → Spans before now ts
    → ((is_locked_out (fail_at l ts) now).1 ≡ true) ↔ (max ≤ length (recent window now (log ++ ts)))
unfolding is_locked_out
locked_out_after max window l log [] before now g s =
    rw (append-nil log, prune-recent l now g.ordered)
      (let e = recent_now max window l log before now g s in
        (
          (λ h. ground (arith, e, g.same_window, g.same_max)),
          (λ h. ground (arith, e, g.same_window, g.same_max)),
        ))
locked_out_after max window l log (t ∷ ts) before now g s =
    subst
      (λ xs.
        ((is_locked_out (fail_at (record_failure l t) ts) now).1 ≡ true)
        ↔ (max ≤ length (recent window now xs)))
      (append_assoc log (t ∷ []) ts)
      (locked_out_after max window (record_failure l t) (log ++ t ∷ []) ts t now
        (Logged-failure max window l log before t g s.0) s.1)

-- After failed attempts in the order of time, a client is locked out exactly when at least
-- `maxFailures` of all of them lie in the window that ends now.
pub locked_out_iff :
    (max seconds now : ℕ) (ts : List ℕ)
    → Spans 0 now ts
    → ((is_locked_out (fail_at (new max seconds) ts) now).1 ≡ true)
      ↔ (max ≤ length (recent (seconds * 1000) now ts))
unfolding new
locked_out_iff max seconds now ts s =
    locked_out_after max (seconds * 1000) (new max seconds) [] ts 0 now
      (record { same_max = refl; same_window = refl; ordered = tt; past = tt; windowed = refl }) s

bytes_equal_iff : (a b : List ℕ) → (bytes_equal a b ≡ true) ↔ (a ≡ b)
unfolding bytes_equal
bytes_equal_iff [] [] = ((λ h. refl), (λ h. refl))
bytes_equal_iff [] (y ∷ ys) = ((λ h. cc), (λ h. cc))
bytes_equal_iff (x ∷ xs) [] = ((λ h. cc), (λ h. cc))
bytes_equal_iff (x ∷ xs) (y ∷ ys) =
    let ih = bytes_equal_iff xs ys in ((λ h. ground (arith, ih.0)), (λ h. ground (arith, ih.1)))

-- Two tokens are accepted as equal exactly when they hold the same bytes.
pub tokens_equal_iff : (a b : List ℕ) → (tokens_equal a b ≡ true) ↔ (a ≡ b)
unfolding tokens_equal
tokens_equal_iff a b =
    let ih = bytes_equal_iff a b in
    ((λ h. ground (arith, ih.0)), (λ h. ground (arith, ih.1, ap length h)))
