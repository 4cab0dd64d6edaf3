-- ===== src/Gate/Borrow.antt =====
-- Reservations: what a borrower must leave.
use umans_gate.Base.{
  ℕ, ◌+◌, ◌-◌, ◌≤◌, ◌<◌, ◌≡◌, ◌≢◌, true, false, List, [], ◌∷◌, String, arith, string_key,
  get_or_zero, get_or_zero-insert, keys,
}
use mathlib.Core.List.{Memᴰ}
use umans_gate.Gate.State.{Semaphore}
use umans_gate.Gate.Capacity.{effective, held_back, over_subscribed, can_grant}
use umans_gate.Gate.Semaphore.{grant}

-- Each intention with permits or waiters has its unfilled reservation held back from the others.
held_back-ge :
    (intention k : String) (eff active queued : List (String × ℕ)) (ks : List String)
    → k ≢ intention
    → 0 < get_or_zero k active + get_or_zero k queued
    → Memᴰ k ks
    → get_or_zero k eff - get_or_zero k active ≤ held_back intention eff active queued ks
held_back-ge intention k eff active queued [] n d m = elim m [ ]
held_back-ge intention k eff active queued (j ∷ ks) n d (Memᴰ.head e) =
    ground (arith, e, string_key.agree_iff j intention)
held_back-ge intention k eff active queued (j ∷ ks) n d (Memᴰ.tail m) =
    ground (arith, held_back-ge intention k eff active queued ks n d m)

-- While the reservations are not over-subscribed, a permit granted beyond the caller's own
-- reservation leaves the unfilled reservation of every other intention that has a reservation and
-- has permits or waiters: a request within that reservation still fits.
pub borrow-leaves-reserve :
    (share : ℕ → ℕ → ℕ → ℕ) (s : Semaphore) (intention k : String) (id weight wanted : ℕ)
    → can_grant share s intention weight ≡ true
    → get_or_zero intention (effective share s)
      < get_or_zero intention s.active_by_intention + weight
    → over_subscribed s.reservations (effective share s) ≡ false
    → k ≢ intention
    → Memᴰ k (keys (effective share s))
    → 0 < get_or_zero k s.active_by_intention + get_or_zero k s.queued_by_intention
    → get_or_zero k s.active_by_intention + wanted ≤ get_or_zero k (effective share s)
    → can_grant share (grant s id weight intention) k wanted ≡ true
unfolding can_grant grant
borrow-leaves-reserve share s intention k id weight wanted h beyond exact n m d w =
    let eff = effective share s in
    ground (
      arith,
      held_back-ge intention k eff s.active_by_intention s.queued_by_intention (keys eff) n d m,
      string_key.agree_iff intention k,
      get_or_zero-insert intention k (get_or_zero intention s.active_by_intention + weight)
          s.active_by_intention,
    )
