-- ===== src/Auth/Tests.antt =====
-- The dashboard checks at concrete inputs.
use umans_gate.Base.{ℕ, ◌≡◌, true, List, [], ◌∷◌, arith}
use umans_gate.Auth.{new, is_locked_out}
use umans_gate.Auth.Lockout.{fail_at, Spans, locked_out_iff}

-- Three failures, the first too old to count.
abbrev failed_at : List ℕ
failed_at = 1000 ∷ 70000 ∷ 80000 ∷ []

failed_at-Spans : Spans 0 90000 failed_at
failed_at-Spans = omega arith

locked_out_iff_example : (is_locked_out (fail_at (new 2 60) failed_at) 90000).1 ≡ true
locked_out_iff_example = (locked_out_iff 2 60 90000 failed_at failed_at-Spans).1 (omega arith)
