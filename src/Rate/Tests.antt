-- ===== src/Rate/Tests.antt =====
-- The sliding-window limiter at concrete inputs.
use umans_gate.Base.{ℕ, ◌*◌, ◌≤◌, ◌≡◌, refl, ap, true, List, [], ◌∷◌, some, arith}
use umans_gate.Rate.{Entry, Limiter, weights, prune, find_cut, midpoint, retry_after, check, new}
use umans_gate.Rate.Prune.{Inv, prune_lem}
use umans_gate.Rate.Admission.{check-allowed}
use umans_gate.Rate.History.{between, admissions, admissions-within-limit}

abbrev entry : ℕ → ℕ → Entry
entry time weight = record { time = time; weight = weight }

-- Three requests in a window of one second, the first two stale at 2000.
abbrev busy : Limiter
busy = record {
  entries = entry 100 2 ∷ entry 900 1 ∷ entry 1500 3 ∷ [];
  running_sum = 6;
  limit = 8;
  window_ms = 1000;
}

busy-Inv : Inv busy 1500
busy-Inv = omega arith

busy_pruned : (prune busy 2000).entries ≡ entry 1500 3 ∷ []
unfolding prune find_cut midpoint
busy_pruned = refl

prune_lem_example : (prune busy 2000).entries ≡ entry 1500 3 ∷ []
prune_lem_example = ap (λ (l : Limiter). l.entries) (prune_lem busy 2000 1500 busy-Inv)

check-allowed_example : (check busy 5 2000).1.allowed ≡ true
check-allowed_example = (check-allowed busy 5 2000 1500 busy-Inv).1 (omega arith)

refused_after : (check busy 6 2000).1.retry_after_seconds ≡ some 1
unfolding check prune find_cut midpoint retry_after
refused_after = refl

abbrev requests : List Entry
requests = entry 0 3 ∷ entry 400 3 ∷ entry 500 3 ∷ entry 1200 3 ∷ []

admissions_example : admissions (new 6 1) [] requests ≡ entry 0 3 ∷ entry 400 3 ∷ entry 1200 3 ∷ []
unfolding new check prune find_cut midpoint
admissions_example = refl

admissions-within-limit_example :
    weights (between (1 * 1000) 300 (admissions (new 6 1) [] requests)) ≤ 6
admissions-within-limit_example =
    admissions-within-limit 6 1 300 requests (omega arith) (omega arith)
