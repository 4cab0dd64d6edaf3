-- ===== src/Gate/Accounts.antt =====
-- The books of the semaphore: what its counters stand for (src/limiter/gate.ts).
pub mod Loops
pub mod History
use umans_gate.Base.{
  ℕ, suc, ◌+◌, ◌-◌, ◌≤◌, ◌≡◌, refl, Bool, true, false, List, [], ◌∷◌, ◌++◌, Option, none, some,
  String, arith, if◌then◌else◌, ◌==◌, string_key, get_or_zero, get_or_zero-add, get_or_zero-sub,
  insert, lookup, map, Option-cases, inl, inr, Bool-cases, keys, length,
}
use umans_gate.Gate.State.{Semaphore, Waiter, Permit, Release, Options}
use umans_gate.Gate.Capacity.{can_grant}
use umans_gate.Gate.Semaphore.{
  init, grant, enqueue, admit, one_less, drain_loop, drain_waiters, release, release_timer_fires,
  remove_waiter, find_waiter, without, find_permit, mark_released, apply_release, apply_releases,
  ensure_keys, reject_all, reject_one, shutdown, resize, set_hard_cap, set_soft_limit, reconfigure,
}

abbrev pub one_if : Bool → ℕ → ℕ
one_if true w = w
one_if false w = 0

-- The weight of the permits of the chosen intentions that their holders have not released.
abbrev pub held : (String → Bool) → List Permit → ℕ
held sel [] = 0
held sel (p ∷ ps) = (if p.released then 0 else one_if (sel p.intention) p.weight) + held sel ps

-- The weight that is released and waits for the cooldown.
abbrev pub cooling : (String → Bool) → List Release → ℕ
cooling sel [] = 0
cooling sel (r ∷ rs) = one_if (sel r.intention) r.weight + cooling sel rs

-- How many waiters an intention has.
abbrev pub waiting : String → List Waiter → ℕ
waiting k [] = 0
waiting k (w ∷ ws) = one_if (w.intention == k) 1 + waiting k ws

abbrev pub every_intention : String → Bool
every_intention i = true

abbrev pub is_intention : String → String → Bool
is_intention k i = i == k

-- Until shutdown the active weight is what is held and what cools down, in all and for each
-- intention. The queue's counters are its waiters, and a release that is pending has its timer.
pub record Booked (s : Semaphore) : Type 0 where
  pub active :
      s.shutdown_requested ≡ false
      → s.active ≡ held every_intention s.permits + cooling every_intention s.pending_releases
  pub by_intention :
      s.shutdown_requested ≡ false
      → (k : String)
      → get_or_zero k s.active_by_intention
        ≡ held (is_intention k) s.permits + cooling (is_intention k) s.pending_releases
  pub queued : (k : String) → get_or_zero k s.queued_by_intention ≡ waiting k s.waiters
  pub timed : s.release_timer ≡ false → s.pending_releases ≡ []

pub waiting-append :
    (k : String) (xs ys : List Waiter) → waiting k (xs ++ ys) ≡ waiting k xs + waiting k ys
waiting-append k [] ys = omega arith
waiting-append k (x ∷ xs) ys = omega (arith, waiting-append k xs ys)

pub cooling-append :
    (sel : String → Bool) (xs ys : List Release)
    → cooling sel (xs ++ ys) ≡ cooling sel xs + cooling sel ys
cooling-append sel [] ys = omega arith
cooling-append sel (x ∷ xs) ys = omega (arith, cooling-append sel xs ys)

-- One permit released: its weight moves from what is held.
held-mark_released :
    (sel : String → Bool) (id : ℕ) (ps : List Permit) (p : Permit)
    → find_permit id ps ≡ some p
    → p.released ≡ false
    → held sel (mark_released id ps) + one_if (sel p.intention) p.weight ≡ held sel ps
held-mark_released sel id [] p f r = cc
held-mark_released sel id (x ∷ ps) p f r = ground (arith, held-mark_released sel id ps p)

waiting-without :
    (k : String) (id : ℕ) (ws : List Waiter) (w : Waiter)
    → find_waiter id ws ≡ some w
    → waiting k (without id ws) + one_if (w.intention == k) 1 ≡ waiting k ws
waiting-without k id [] w f = cc
waiting-without k id (x ∷ ws) w f = ground (arith, waiting-without k id ws w)

pub grant-Booked :
    (s : Semaphore) (id weight : ℕ) (intention : String)
    → Booked s
    → Booked (grant s id weight intention)
unfolding grant
grant-Booked s id weight intention v = record {
  active = λ h. omega (arith, v.active h);
  by_intention = λ h k.
      ground (arith, v.by_intention h k, get_or_zero-add intention k weight s.active_by_intention);
  queued = v.queued;
  timed = v.timed;
}

pub Booked-if :
    (b : Bool) (x y : Semaphore × Bool) → Booked x.0 → Booked y.0 → Booked (if b then x else y).0
Booked-if true x y v w = v
Booked-if false x y v w = w

pub Booked-choice : (b : Bool) (x y : Semaphore) → Booked x → Booked y → Booked (if b then x else y)
Booked-choice true x y v w = v
Booked-choice false x y v w = w

pub enqueue-Booked : (s : Semaphore) (w : Waiter) → Booked s → Booked (enqueue s w).0
unfolding enqueue
enqueue-Booked s w v = Booked-if _ _ _ v (record {
  active = v.active;
  by_intention = v.by_intention;
  queued = λ k. ground (
    arith,
    v.queued k,
    get_or_zero-add w.intention k 1 s.queued_by_intention,
    waiting-append k s.waiters (w ∷ []),
  );
  timed = v.timed;
})

removed-Booked :
    (s : Semaphore) (id : ℕ) (o : Option Waiter)
    → find_waiter id s.waiters ≡ o
    → Booked s
    → Booked (remove_waiter s id).0
unfolding remove_waiter
removed-Booked s id none e v = rw (e, remove_waiter) v
removed-Booked s id (some w) e v =
    rw (e, remove_waiter)
      (record {
        active = v.active;
        by_intention = v.by_intention;
        queued = λ k. ground (
          arith,
          v.queued k,
          get_or_zero-sub w.intention k 1 s.queued_by_intention,
          waiting-without k id s.waiters w e,
        );
        timed = v.timed;
      })

pub remove_waiter-Booked : (s : Semaphore) (id : ℕ) → Booked s → Booked (remove_waiter s id).0
remove_waiter-Booked s id v = removed-Booked s id (find_waiter id s.waiters) refl v

release_found-Booked :
    (s : Semaphore) (id : ℕ) (o : Option Permit)
    → find_permit id s.permits ≡ o
    → Booked s
    → Booked (release s id)
unfolding release
release_found-Booked s id none e v = rw (e, release) v
release_found-Booked s id (some p) e v = elim (Bool-cases p.released) [
  | inl old ↦ rw (e, release) (rw old v)
  | inr new ↦
      rw (e, release)
        (rw new (elim (Bool-cases s.shutdown_requested) [
          | inl down ↦ rw down (record {
            active = λ h. cc;
            by_intention = λ h. cc;
            queued = v.queued;
            timed = v.timed;
          })
          | inr up ↦ rw up (record {
            active = λ h. moved every_intention new (v.active up);
            by_intention = λ h k. moved (is_intention k) new (v.by_intention up k);
            queued = v.queued;
            timed = λ h. cc;
          })
        ]))
]
  where
    moved :
        (sel : String → Bool) {n : ℕ}
        → p.released ≡ false
        → n ≡ held sel s.permits + cooling sel s.pending_releases
        → n
          ≡ held sel (mark_released id s.permits)
            + cooling sel
                (s.pending_releases ++ record { weight = p.weight; intention = p.intention } ∷ [])
    moved sel new h = omega (
      arith,
      held-mark_released sel id s.permits p e new,
      cooling-append sel s.pending_releases
          (record { weight = p.weight; intention = p.intention } ∷ []),
    )

pub release-Booked : (s : Semaphore) (id : ℕ) → Booked s → Booked (release s id)
release-Booked s id v = release_found-Booked s id (find_permit id s.permits) refl v
