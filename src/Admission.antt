-- ===== src/Admission.antt =====
-- The gate on upstream request counts (src/request-gate.ts).
pub mod Decision
mod Tests
use umans_gate.Base.{
  ℕ, zero, suc, ◌+◌, ◌-◌, ◌/◌, ◌≤◌, ◌<◌, ◌≡◌, ◌↔◌, refl, Bool, true, false, Option, none, some,
  arith, Option-cases, inl, inr, leb, if◌then◌else◌, ℤ, pos, negsuc, Double, non_finite, ratio,
}

pub record RequestGateStats : Type 0 where
  pub requests_in_window : ℕ
  pub requests_hard_cap : Option ℕ
  pub requests_limit : Option ℕ

pub record RequestGateDecision : Type 0 where
  pub block : Bool
  pub cap : Option ℕ
  pub threshold : Option ℕ

-- `Number.isFinite(margin) ? Math.max(0, Math.floor(margin)) : 0`
unfoldable pub sanitized_margin : Double → ℕ
sanitized_margin non_finite = 0
sanitized_margin (ratio (pos n) d) = n / suc d
sanitized_margin (ratio (negsuc n) d) = 0

-- `a ?? b`
abbrev pub or_else : Option ℕ → Option ℕ → Option ℕ
or_else none b = b
or_else (some a) b = some a

abbrev pub chosen_cap : RequestGateStats → Bool → Option ℕ
chosen_cap stats use_hard_cap =
    if use_hard_cap
    then or_else stats.requests_hard_cap stats.requests_limit
    else or_else stats.requests_limit stats.requests_hard_cap

-- The decision at a known cap.
abbrev pub decide_at : ℕ → ℕ → ℕ → RequestGateDecision
decide_at requests margin cap =
    let effective = if leb cap margin then 0 else margin in
    record {
      block = leb (cap - effective) requests;
      cap = some cap;
      threshold = some (cap - effective);
    }

unfoldable pub compute_request_gate_decision :
    RequestGateStats → Double → Bool → RequestGateDecision
compute_request_gate_decision stats margin use_hard_cap = elim (chosen_cap stats use_hard_cap) [
  | none ↦ record { block = false; cap = none; threshold = none }
  | some cap ↦ decide_at stats.requests_in_window (sanitized_margin margin) cap
]
