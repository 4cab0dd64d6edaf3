-- ===== src/Admission/Tests.antt =====
-- The request gate at concrete inputs.
use umans_gate.Base.{◌≡◌, refl, true, some, none, pos, ratio, inr, arith}
use umans_gate.Admission.{RequestGateStats, sanitized_margin, compute_request_gate_decision}
use umans_gate.Admission.Decision.{compute_request_gate_decision-block}

abbrev stats : RequestGateStats
stats = record { requests_in_window = 195; requests_hard_cap = none; requests_limit = some 200 }

-- 195 and a margin of 5.5, rounded down, reach the limit of 200, which stands in for the cap.
blocked :
    compute_request_gate_decision stats (ratio (pos 11) 1) true
    ≡ record { block = true; cap = some 200; threshold = some 195 }
unfolding compute_request_gate_decision sanitized_margin
blocked = refl

compute_request_gate_decision-block_example :
    (compute_request_gate_decision stats (ratio (pos 11) 1) true).block ≡ true
compute_request_gate_decision-block_example =
    (compute_request_gate_decision-block stats (ratio (pos 11) 1) true).1
      (200, inr (refl, refl), inr ((λ h. omega (arith, h)), omega arith))
