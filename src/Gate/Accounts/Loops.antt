-- ===== src/Gate/Accounts/Loops.antt =====
-- The books through the loops of the semaphore: draining, releasing in batches, shutting down.
use umans_gate.Base.{
  ℕ, ◌≡◌, refl, sym, ◌∙◌, true, false, List, [], ◌∷◌, ◌++◌, Option, none, some, String, arith,
  string_key, get_or_zero, get_or_zero-add, get_or_zero-sub, get_or_zero-insert, get_or_zero-absent,
  insert, lookup, map, Option-cases, inl, inr, Bool-cases, append-nil, append_assoc, ℤ, Double,
  keys, subst,
}
use umans_gate.Gate.State.{Semaphore, Waiter, Release, Options}
use umans_gate.Gate.Capacity.{can_grant}
use umans_gate.Gate.Semaphore.{
  init, grant, admit, drain_loop, drain_waiters, release_timer_fires, apply_release, apply_releases,
  ensure_keys, reject_all, reject_one, shutdown, resize, set_hard_cap, set_soft_limit, reconfigure,
}
use umans_gate.Gate.Accounts.{Booked, waiting-append, Booked-if}

-- The waiter `w` is out of the queue that the other fields count.
pub admit-Booked :
    (s : Semaphore) (w : Waiter) (before after : List Waiter)
    → Booked (record s { waiters = before ++ w ∷ after })
    → Booked (record (admit s w) { waiters = before ++ after })
unfolding admit grant
admit-Booked s w before after v = record {
  active = λ h. omega (arith, v.active h);
  by_intention = λ h k.
      ground
        (arith, v.by_intention h k, get_or_zero-add w.intention k w.weight s.active_by_intention);
  queued = λ k. ground (
    arith,
    v.queued k,
    get_or_zero-sub w.intention k 1 s.queued_by_intention,
    waiting-append k before (w ∷ after),
    waiting-append k before after,
  );
  timed = v.timed;
}

apply_release-Booked :
    (s : Semaphore) (r : Release) (rs : List Release)
    → s.release_timer ≡ true
    → Booked (record s { pending_releases = r ∷ rs })
    → Booked (record (apply_release s r) { pending_releases = rs })
apply_release-Booked s r rs t v = record {
  active = λ h. omega (arith, v.active h);
  by_intention = λ h k.
      ground
        (arith, v.by_intention h k, get_or_zero-sub r.intention k r.weight s.active_by_intention);
  queued = v.queued;
  timed = λ h. cc;
}

apply_releases-Booked :
    (s : Semaphore) (rs : List Release)
    → s.release_timer ≡ true
    → Booked (record s { pending_releases = rs })
    → Booked (record (apply_releases s rs) { pending_releases = []; release_timer = false })
apply_releases-Booked s [] t v = record {
  active = v.active;
  by_intention = v.by_intention;
  queued = v.queued;
  timed = λ h. refl;
}
apply_releases-Booked s (r ∷ rs) t v =
    apply_releases-Booked (apply_release s r) rs t (apply_release-Booked s r rs t v)

drain_loop-Booked :
    (share : ℕ → ℕ → ℕ → ℕ) (s : Semaphore) (remaining ws : List Waiter)
    → Booked (record s { waiters = remaining ++ ws })
    → Booked (drain_loop share s remaining ws)
unfolding drain_loop
drain_loop-Booked share s remaining [] v =
    subst (λ l. Booked (record s { waiters = l })) (append-nil remaining) v
drain_loop-Booked share s remaining (w ∷ ws) v =
    elim (Bool-cases (can_grant share s w.intention w.weight)) [
      | inl fits ↦
          rw (fits, drain_loop)
            (drain_loop-Booked share (admit s w) remaining ws (admit-Booked s w remaining ws v))
      | inr full ↦
          rw (full, drain_loop)
            (drain_loop-Booked share s (remaining ++ w ∷ []) ws (
              subst (λ l. Booked (record s { waiters = l }))
                (sym (append_assoc remaining (w ∷ []) ws)) v))
    ]

pub drain-Booked :
    (share : ℕ → ℕ → ℕ → ℕ) (s : Semaphore) → Booked s → Booked (drain_waiters share s)
unfolding drain_waiters
drain-Booked share s v = drain_loop-Booked share s [] s.waiters v

apply_releases-set :
    (s : Semaphore) (rs : List Release)
    → apply_releases (record s { release_timer = false; pending_releases = [] }) rs
      ≡ record (apply_releases s rs) { release_timer = false; pending_releases = [] }
apply_releases-set s [] = refl
apply_releases-set s (r ∷ rs) = apply_releases-set (apply_release s r) rs

pub timer-Booked :
    (share : ℕ → ℕ → ℕ → ℕ) (s : Semaphore) → Booked s → Booked (release_timer_fires share s)
unfolding release_timer_fires
timer-Booked share s v = elim (Bool-cases s.release_timer) [
  | inl set ↦ rw set (
      drain-Booked share _ (
        rw (apply_releases-set s s.pending_releases)
          (apply_releases-Booked s s.pending_releases set v)))
  | inr clear ↦ simp clear v
]

reject_all-Booked :
    (s : Semaphore) (ws : List Waiter)
    → Booked (record s { waiters = ws })
    → Booked (record (reject_all s ws) { waiters = [] })
unfolding reject_all
reject_all-Booked s [] v = v
reject_all-Booked s (w ∷ ws) v = reject_all-Booked (reject_one s w) ws (record {
  active = v.active;
  by_intention = v.by_intention;
  queued = λ k. ground (arith, v.queued k, get_or_zero-sub w.intention k 1 s.queued_by_intention);
  timed = v.timed;
})

pub reject_all-flags :
    (s : Semaphore) (ws : List Waiter)
    → ((reject_all s ws).shutdown_requested ≡ s.shutdown_requested)
      × ((reject_all s ws).pending_releases ≡ s.pending_releases)
unfolding reject_all
reject_all-flags s [] = (refl, refl)
reject_all-flags s (w ∷ ws) = reject_all-flags (reject_one s w) ws

pub shutdown-Booked : (s : Semaphore) → Booked s → Booked (shutdown s)
unfolding shutdown
shutdown-Booked s v =
    let s₀ = record s { shutdown_requested = true; release_timer = false; pending_releases = [] } in
    let flags = reject_all-flags s₀ s.waiters in
    record {
      active = λ h. cc (flags.0);
      by_intention = λ h. cc (flags.0);
      queued =
          (reject_all-Booked s₀ s.waiters (record {
            active = λ h. cc;
            by_intention = λ h. cc;
            queued = v.queued;
            timed = λ h. refl;
          })).queued;
      timed = λ h. flags.1;
    }

ensure-same :
    (k : String) (ks : List String) (m : List (String × ℕ))
    → get_or_zero k (ensure_keys ks m) ≡ get_or_zero k m
ensure-same k [] m = refl
ensure-same k (j ∷ ks) m = elim (Option-cases (lookup j m)) [
  | inl absent ↦ rw (absent, ensure_keys) (ensure-same k ks (insert j 0 m) ∙ written absent)
  | inr (v, there) ↦ rw (there, ensure_keys) (ensure-same k ks m)
]
  where
    written : lookup j m ≡ none → get_or_zero k (insert j 0 m) ≡ get_or_zero k m
    written absent =
        ground (
          arith,
          string_key.agree_iff j k,
          get_or_zero-insert j k 0 m,
          get_or_zero-absent j m absent,
        )

module _ (share : ℕ → ℕ → ℕ → ℕ) (s : Semaphore) (v : Booked s) where
  pub resize-Booked : (scaled : ℤ) → Booked (resize share s scaled).0
  unfolding resize
  resize-Booked scaled = Booked-if _ _ _ v (
      drain-Booked share _ (record {
        active = v.active;
        by_intention = v.by_intention;
        queued = v.queued;
        timed = v.timed;
      }))

  pub set_hard_cap-Booked : (x : Double) → Booked (set_hard_cap share s x).0
  unfolding set_hard_cap
  set_hard_cap-Booked x = Booked-if _ _ _ v (
      Booked-if _ _ _
        (drain-Booked share _ (record {
          active = v.active;
          by_intention = v.by_intention;
          queued = v.queued;
          timed = v.timed;
        }))
        (record {
          active = v.active;
          by_intention = v.by_intention;
          queued = v.queued;
          timed = v.timed;
        }))

  pub set_soft_limit-Booked : (x : Double) → Booked (set_soft_limit s x).0
  unfolding set_soft_limit
  set_soft_limit-Booked x = Booked-if _ _ _ v (record {
    active = v.active;
    by_intention = v.by_intention;
    queued = v.queued;
    timed = v.timed;
  })

  pub reconfigure-Booked :
      (cooldown depth queue_timeout : Option ℕ) (intentions : Option (List (String × ℕ)))
      → Booked (reconfigure s cooldown depth queue_timeout intentions)
  unfolding reconfigure
  reconfigure-Booked cooldown depth queue_timeout none = record {
    active = v.active;
    by_intention = v.by_intention;
    queued = v.queued;
    timed = v.timed;
  }
  reconfigure-Booked cooldown depth queue_timeout (some m) = record {
    active = v.active;
    by_intention = λ h k. ensure-same k (keys m) s.active_by_intention ∙ v.by_intention h k;
    queued = λ k. ensure-same k (keys m) s.queued_by_intention ∙ v.queued k;
    timed = v.timed;
  }

zeros : (k : String) (m : List (String × ℕ)) → get_or_zero k (map (λ (j, n). (j, 0)) m) ≡ 0
zeros k [] = refl
zeros k ((j, n) ∷ m) = ground (arith, zeros k m)

pub init-Booked : (o : Options) → Booked (init o)
unfolding init
init-Booked o = record {
  active = λ h. refl;
  by_intention = λ h k. zeros k o.intentions;
  queued = λ k. zeros k o.intentions;
  timed = λ h. refl;
}
