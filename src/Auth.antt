-- ===== src/Auth.antt =====
-- Dashboard token checks (src/auth.ts).
pub mod Lockout
mod Tests
use Prim.Native.Char.{Char, code}
use umans_gate.Base.{
  ℕ, suc, ◌+◌, ◌*◌, ◌≤◌, ◌≡◌, refl, Bool, true, false, List, [], ◌∷◌, ◌++◌, Option, none, some,
  String, arith, ltb, leb, nat_beq, if◌then◌else◌, length, drop, ◌&&◌,
}

-- The failed attempts, oldest first. Times are arguments.
pub record AuthFailureLimiter : Type 0 where
  pub failures : List ℕ
  pub max_failures : ℕ
  pub window_ms : ℕ

unfoldable pub new : ℕ → ℕ → AuthFailureLimiter
new max_failures window_seconds = record {
  failures = [];
  max_failures = max_failures;
  window_ms = window_seconds * 1000;
}

-- `findIndex((t) => t >= cutoff)`, with `t >= now - w` written `now <= t + w`.
abbrev pub find_index : ℕ → ℕ → List ℕ → Option ℕ
find_index window now [] = none
find_index window now (t ∷ ts) =
    let rest : Option ℕ = elim (find_index window now ts) [ none ↦ none | some i ↦ some (suc i) ] in
    if leb now (t + window) then some 0 else rest

unfoldable pub prune : AuthFailureLimiter → ℕ → AuthFailureLimiter
prune l now = elim (find_index l.window_ms now l.failures) [
  | none ↦ record l { failures = [] }
  | some idx ↦ if ltb 0 idx then record l { failures = drop idx l.failures } else l
]

unfoldable pub record_failure : AuthFailureLimiter → ℕ → AuthFailureLimiter
record_failure l now = let l' = prune l now in record l' { failures = l'.failures ++ now ∷ [] }

unfoldable pub is_locked_out : AuthFailureLimiter → ℕ → AuthFailureLimiter × Bool
is_locked_out l now = let l' = prune l now in (l', leb l'.max_failures (length l'.failures))

unfoldable pub reset : AuthFailureLimiter → AuthFailureLimiter
reset l = record l { failures = [] }

-- The buffers of two tokens are compared byte by byte, where their lengths agree.
-- `timingSafeEqual` looks at every byte: the answer is computed with no early exit.
unfoldable pub bytes_equal : List ℕ → List ℕ → Bool
bytes_equal [] [] = true
bytes_equal (x ∷ xs) (y ∷ ys) = bytes_equal xs ys && nat_beq x y
bytes_equal _ _ = false

unfoldable pub tokens_equal : List ℕ → List ℕ → Bool
unfolding bytes_equal
tokens_equal a b = if nat_beq (length a) (length b) then bytes_equal a b else false
