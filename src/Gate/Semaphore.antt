-- ===== src/Gate/Semaphore.antt =====
-- The operations of the semaphore (src/limiter/gate.ts, class Semaphore).
use umans_gate.Base.{
  ℕ, suc, ◌+◌, ◌-◌, ◌*◌, ◌/◌, min, max, Bool, true, false, List, [], ◌∷◌, ◌++◌, Option, none, some,
  String, ltb, leb, nat_beq, if◌then◌else◌, length, keys, lookup, insert, get_or_zero, ℤ,
  clamp_zero, pos, negsuc, Double, non_finite, ratio, string_key, map,
}
use umans_gate.Gate.State.{
  scale, granted, rejected, shut_down, Waiter, Permit, Release, Semaphore, Options, settle,
}
use umans_gate.Gate.Capacity.{can_grant}

-- `if (m[key] === undefined) m[key] = 0` for each key.
abbrev pub ensure_keys : List String → List (String × ℕ) → List (String × ℕ)
ensure_keys [] m = m
ensure_keys (k ∷ ks) m = ensure_keys ks (elim (lookup k m) [ none ↦ insert k 0 m | some v ↦ m ])

-- The constructor. Limits and reservations are whole numbers of permits.
unfoldable pub init : Options → Semaphore
init o = record {
  active = 0;
  limit = max scale (min (max 1 o.soft_limit * scale) (max 1 o.hard_cap * scale));
  hard_cap = max 1 o.hard_cap * scale;
  soft_limit = max 1 o.soft_limit * scale;
  release_cooldown_ms = o.release_cooldown_ms;
  max_queue_depth = o.max_queue_depth;
  queue_timeout_ms = o.queue_timeout_ms;
  waiters = [];
  reservations = map (λ (k, n). (k, n * scale)) o.intentions;
  active_by_intention = map (λ (k, n). (k, 0)) o.intentions;
  queued_by_intention = map (λ (k, n). (k, 0)) o.intentions;
  pending_releases = [];
  release_timer = false;
  shutdown_requested = false;
  permits = [];
  outcomes = [];
}

unfoldable pub grant : Semaphore → ℕ → ℕ → String → Semaphore
grant s id weight intention = record s {
  active = s.active + weight;
  active_by_intention =
      insert intention (get_or_zero intention s.active_by_intention + weight) s.active_by_intention;
  permits =
      record { id = id; weight = weight; intention = intention; released = false } ∷ s.permits;
  outcomes = settle id granted s.outcomes;
}

unfoldable pub enqueue : Semaphore → Waiter → Semaphore × Bool
enqueue s w = if leb s.max_queue_depth (length s.waiters) then (s, false) else (
  record s {
    waiters = s.waiters ++ w ∷ [];
    queued_by_intention =
        insert w.intention (get_or_zero w.intention s.queued_by_intention + 1)
          s.queued_by_intention;
  },
  true,
)

-- One waiter less of an intention, and never below zero.
abbrev pub one_less : String → List (String × ℕ) → List (String × ℕ)
one_less intention queued = insert intention (get_or_zero intention queued - 1) queued

-- The waiter of a promise, and the queue without it (`indexOf` and `splice`).
abbrev pub find_waiter : ℕ → List Waiter → Option Waiter
find_waiter id [] = none
find_waiter id (w ∷ ws) = if nat_beq w.id id then some w else find_waiter id ws

abbrev pub without : ℕ → List Waiter → List Waiter
without id [] = []
without id (w ∷ ws) = if nat_beq w.id id then ws else w ∷ without id ws

-- The second result is the waiter that was removed, if it was there.
unfoldable pub remove_waiter : Semaphore → ℕ → Semaphore × Option Waiter
remove_waiter s id = elim (find_waiter id s.waiters) [
  | none ↦ (s, none)
  | some w ↦ (
    record s {
      waiters = without id s.waiters;
      queued_by_intention = one_less w.intention s.queued_by_intention;
    },
    some w,
  )
]

-- A waiter leaves the queue for a permit.
unfoldable pub admit : Semaphore → Waiter → Semaphore
unfolding grant
admit s w =
    grant (record s { queued_by_intention = one_less w.intention s.queued_by_intention }) w.id
      w.weight w.intention

-- The closure `release` of a permit.
abbrev pub find_permit : ℕ → List Permit → Option Permit
find_permit id [] = none
find_permit id (p ∷ ps) = if nat_beq p.id id then some p else find_permit id ps

abbrev pub mark_released : ℕ → List Permit → List Permit
mark_released id [] = []
mark_released id (p ∷ ps) =
    if nat_beq p.id id then record p { released = true } ∷ ps else p ∷ mark_released id ps

release_permit : Semaphore → ℕ → String → Semaphore
release_permit s weight intention = if s.shutdown_requested then s else record s {
  pending_releases = s.pending_releases ++ record { weight = weight; intention = intention } ∷ [];
  release_timer = true;
}

unfoldable pub release : Semaphore → ℕ → Semaphore
unfolding release_permit
release s id = elim (find_permit id s.permits) [
  | none ↦ s
  | some p ↦
      if p.released
      then s
      else release_permit (record s { permits = mark_released id s.permits }) p.weight p.intention
]

abbrev pub apply_release : Semaphore → Release → Semaphore
apply_release s r = record s {
  active = s.active - r.weight;
  active_by_intention =
      insert r.intention (get_or_zero r.intention s.active_by_intention - r.weight)
        s.active_by_intention;
}

abbrev pub apply_releases : Semaphore → List Release → Semaphore
apply_releases s [] = s
apply_releases s (r ∷ rs) = apply_releases (apply_release s r) rs

-- The waiters are rejected in turn.
abbrev pub reject_one : Semaphore → Waiter → Semaphore
reject_one s w = record s {
  queued_by_intention = one_less w.intention s.queued_by_intention;
  outcomes = settle w.id (rejected shut_down) s.outcomes;
}

unfoldable pub reject_all : Semaphore → List Waiter → Semaphore
reject_all s [] = s
reject_all s (w ∷ ws) = reject_all (reject_one s w) ws

unfoldable pub shutdown : Semaphore → Semaphore
unfolding reject_all
shutdown s =
    let s' =
      reject_all
        (record s { shutdown_requested = true; release_timer = false; pending_releases = [] })
        s.waiters in
    record s' {
      waiters = [];
      active = 0;
      active_by_intention = map (λ (k, n). (k, 0)) s'.active_by_intention;
    }

-- `Math.max(1, Math.floor(x))`, where a number that is not finite counts as 1.
unfoldable pub floor_at_least_one : Double → ℕ
floor_at_least_one non_finite = 1
floor_at_least_one (ratio (pos n) d) = max 1 (n / suc d)
floor_at_least_one (ratio (negsuc n) d) = 1

unfoldable pub set_soft_limit : Semaphore → Double → Semaphore × Bool
unfolding floor_at_least_one
set_soft_limit s x =
    let v = floor_at_least_one x * scale in
    if nat_beq v s.soft_limit then (s, false) else (record s { soft_limit = v }, true)

unfoldable pub reconfigure :
    Semaphore → Option ℕ → Option ℕ → Option ℕ → Option (List (String × ℕ)) → Semaphore
reconfigure s cooldown depth queue_timeout intentions =
    let s' = record s {
      release_cooldown_ms = elim cooldown [ none ↦ s.release_cooldown_ms | some v ↦ v ];
      max_queue_depth = elim depth [ none ↦ s.max_queue_depth | some v ↦ v ];
      queue_timeout_ms = elim queue_timeout [ none ↦ s.queue_timeout_ms | some v ↦ v ];
    } in
    elim intentions [
      | none ↦ s'
      | some m ↦ record s' {
        reservations = m;
        active_by_intention = ensure_keys (keys m) s.active_by_intention;
        queued_by_intention = ensure_keys (keys m) s.queued_by_intention;
      }
    ]

module _ (share : ℕ → ℕ → ℕ → ℕ) where
  -- The loop of `drainWaiters`: who fits is admitted, the others stay in order.
  unfoldable pub drain_loop : Semaphore → List Waiter → List Waiter → Semaphore
  drain_loop s remaining [] = record s { waiters = remaining }
  drain_loop s remaining (w ∷ ws) =
      let fits = can_grant share s w.intention w.weight in
      drain_loop (if fits then admit s w else s) (if fits then remaining else remaining ++ w ∷ [])
        ws

  unfoldable pub drain_waiters : Semaphore → Semaphore
  unfolding drain_loop
  drain_waiters s = drain_loop s [] s.waiters

  -- The callback of the cooldown timer, which fires only while it is set.
  unfoldable pub release_timer_fires : Semaphore → Semaphore
  release_timer_fires s =
      if s.release_timer
      then drain_waiters (
          apply_releases (record s { release_timer = false; pending_releases = [] })
            s.pending_releases)
      else s

  -- `scaled` is `Math.round(newLimit * SCALE)`.
  unfoldable pub resize : Semaphore → ℤ → Semaphore × Bool
  resize s scaled =
      let clamped = max scale (min (clamp_zero scaled) s.hard_cap) in
      if nat_beq clamped s.limit
      then (s, false)
      else (drain_waiters (record s { limit = clamped }), true)

  unfoldable pub set_hard_cap : Semaphore → Double → Semaphore × Bool
  unfolding floor_at_least_one
  set_hard_cap s x =
      let cap = floor_at_least_one x * scale in
      if nat_beq cap s.hard_cap
      then (s, false)
      else (let s' = record s { hard_cap = cap; soft_limit = min s.soft_limit cap } in
          if ltb cap s.limit then (drain_waiters (record s' { limit = cap }), true) else (s', true))
