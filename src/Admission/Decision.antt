-- ===== src/Admission/Decision.antt =====
-- When src/request-gate.ts blocks, said of the margin before it is rounded.
use umans_gate.Base.{
  ℕ, suc, ◌-◌, ◌*◌, ◌≤◌, ◌≡◌, ◌↔◌, ◌⊎◌, inl, inr, refl, sym, ◌∙◌, subst, Bool, true, false, Option,
  none, some, arith, leb, pos, negsuc, Double, non_finite, ratio, Bool-cases, Option-cases,
}
use native.Mathlib.Nat
use umans_gate.Admission.{
  RequestGateStats, sanitized_margin, or_else, chosen_cap, decide_at, compute_request_gate_decision,
}

-- The margin is at least `k`; one that is negative or not finite counts as 0.
abbrev pub Reaches : Double → ℕ → Type 0
Reaches non_finite k = k ≡ 0
Reaches (ratio (pos n) d) k = k * suc d ≤ n
Reaches (ratio (negsuc n) d) k = k ≡ 0

-- The cap that is preferred where it is known, else the other one.
abbrev pub CapIs : Bool → RequestGateStats → ℕ → Type 0
CapIs true s cap =
    (s.requests_hard_cap ≡ some cap)
    ⊎ ((s.requests_hard_cap ≡ none) × (s.requests_limit ≡ some cap))
CapIs false s cap =
    (s.requests_limit ≡ some cap) ⊎ ((s.requests_limit ≡ none) × (s.requests_hard_cap ≡ some cap))

sanitized_margin-Reaches :
    (margin : Double) (k : ℕ) → (k ≤ sanitized_margin margin) ↔ Reaches margin k
unfolding sanitized_margin
sanitized_margin-Reaches non_finite k = ((λ h. omega (arith, h)), (λ h. omega (arith, h)))
sanitized_margin-Reaches (ratio (pos n) d) k = Nat.le-div_iff_mul-le (omega arith)
sanitized_margin-Reaches (ratio (negsuc n) d) k = ((λ h. omega (arith, h)), (λ h. omega (arith, h)))

or_else-is :
    (a b : Option ℕ) (cap : ℕ)
    → (or_else a b ≡ some cap) ↔ ((a ≡ some cap) ⊎ ((a ≡ none) × (b ≡ some cap)))
or_else-is none b cap = ((λ h. inr (refl, h)), (λ p. elim p [ inl e ↦ cc | inr (e, h) ↦ h ]))
or_else-is (some a) b cap = ((λ h. inl h), (λ p. elim p [ inl e ↦ e | inr (e, h) ↦ cc ]))

chosen_cap-CapIs :
    (s : RequestGateStats) (use_hard_cap : Bool) (cap : ℕ)
    → (chosen_cap s use_hard_cap ≡ some cap) ↔ CapIs use_hard_cap s cap
chosen_cap-CapIs s true cap = or_else-is s.requests_hard_cap s.requests_limit cap
chosen_cap-CapIs s false cap = or_else-is s.requests_limit s.requests_hard_cap cap

some-none : (a : ℕ) → ¬ (some a ≡ none)
some-none a h = cc

some_inj : (a b : ℕ) → some a ≡ some b → a ≡ b
some_inj a b h = cc

-- At a known cap, the requests reach it by themselves or with a margin that does not reach it by itself.
abbrev pub Full : ℕ → Double → ℕ → Type 0
Full requests margin cap =
    (cap ≤ requests) ⊎ (¬ (Reaches margin cap) × Reaches margin (cap - requests))

decide_at-Full :
    (requests cap : ℕ) (margin : Double)
    → ((decide_at requests (sanitized_margin margin) cap).block ≡ true) ↔ Full requests margin cap
decide_at-Full requests cap margin =
    let whole = sanitized_margin-Reaches margin cap in
    let part = sanitized_margin-Reaches margin (cap - requests) in
    elim (Bool-cases (leb cap (sanitized_margin margin))) [
      | inl l ↦ (
        (λ h. inl (ground (arith, h, l))),
        (λ p. elim p [
          | inl c ↦ ground (arith, c, l)
          | inr (n, r) ↦ absurd (n (whole.0 (ground (arith, l))))
        ]),
      )
      | inr l ↦ (
        (λ h. inr ((λ w. ground (arith, whole.1 w, l)), part.0 (ground (arith, h, l)))),
        (λ p. elim p [ inl c ↦ ground (arith, c, l) | inr (n, r) ↦ ground (arith, part.1 r, l) ]),
      )
    ]

-- A request is blocked exactly when there is a cap, the preferred one where it is known and else the other, and the
-- requests of the window reach it by themselves, or with the margin, as it was given before it is rounded, where
-- that does not reach the cap by itself. A margin that is negative or not finite counts as 0.
pub compute_request_gate_decision-block :
    (stats : RequestGateStats) (margin : Double) (use_hard_cap : Bool)
    → ((compute_request_gate_decision stats margin use_hard_cap).block ≡ true)
      ↔ ((cap : ℕ) × CapIs use_hard_cap stats cap × Full stats.requests_in_window margin cap)
unfolding compute_request_gate_decision
compute_request_gate_decision-block stats margin use_hard_cap =
    elim (Option-cases (chosen_cap stats use_hard_cap)) [
      | inl unknown ↦
          rw (unknown, compute_request_gate_decision)
            (
              (λ h. cc),
              (λ p. absurd (
                  some-none p.0 (sym ((chosen_cap-CapIs stats use_hard_cap p.0).1 p.1) ∙ unknown))),
            )
      | inr (cap, known) ↦
          rw (known, compute_request_gate_decision)
            (
              (λ h. (
                cap,
                (chosen_cap-CapIs stats use_hard_cap cap).0 known,
                (decide_at-Full stats.requests_in_window cap margin).0 h,
              )),
              (λ p.
                  let same =
                    some_inj p.0 cap
                      (sym ((chosen_cap-CapIs stats use_hard_cap p.0).1 p.1) ∙ known) in
                  (decide_at-Full stats.requests_in_window cap margin).1
                    (subst (Full stats.requests_in_window margin) same p.2)),
            )
    ]
