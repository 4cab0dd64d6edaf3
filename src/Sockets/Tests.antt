-- ===== src/Sockets/Tests.antt =====
-- A broadcast to concrete sockets.
use umans_gate.Base.{ℕ, ◌≡◌, refl, [], ◌∷◌, if◌then◌else◌, nat_beq}
use umans_gate.Sockets.{Sent, accepted, dropped, throws, broadcast}
use umans_gate.Sockets.Broadcast.{those, is_accepted, broadcast-those}

-- Socket 2 has a full backlog, socket 3 is gone.
abbrev send : ℕ → Sent
send w = if nat_beq w 2 then dropped else if nat_beq w 3 then throws else accepted

two_are_left : broadcast send (1 ∷ 2 ∷ 3 ∷ 4 ∷ []) ≡ (1 ∷ 4 ∷ [], 2 ∷ [])
unfolding broadcast
two_are_left = refl

broadcast-those_example :
    (broadcast send (1 ∷ 2 ∷ 3 ∷ 4 ∷ [])).0 ≡ those (λ c. is_accepted (send c)) (1 ∷ 2 ∷ 3 ∷ 4 ∷ [])
broadcast-those_example = broadcast-those send (1 ∷ 2 ∷ 3 ∷ 4 ∷ [])
