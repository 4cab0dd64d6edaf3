-- ===== src/Gate/Numbers.antt =====
-- Promises are numbered in turn: what the semaphore does with the numbers in use.
pub mod History
use umans_gate.Base.{
  ℕ, suc, ◌≤◌, ◌<◌, ◌*◌, ◌≡◌, ◌⊎◌, inl, inr, Bool-cases, ltb, min, Double, refl, sym, ap, ◌∙◌,
  subst, Bool, true, false, List, [], ◌∷◌, ◌++◌, Option, none, some, String, arith, ℤ, pos, negsuc,
  lookup, nat_key, nat_beq, nat_beq_iff, lookup-insert, All, All-append, if◌then◌else◌, leb, length,
  insert, get_or_zero, string_key, ◌+◌,
}
use umans_gate.Breaker
use umans_gate.Breaker.{BreakerState, closed, opened, half_open}
use umans_gate.Gate.State.{Semaphore, Waiter, Release, Options, Outcome, settle, scale}
use umans_gate.Gate.Capacity.{can_grant}
use umans_gate.Gate.Semaphore.{
  grant, enqueue, admit, reject_all, reject_one, drain_loop, drain_waiters, apply_releases,
  apply_release, release_timer_fires, remove_waiter, find_waiter, without, release, find_permit,
  resize, set_hard_cap, set_soft_limit, one_less, floor_at_least_one,
}
use umans_gate.Gate.Semaphore as Sem
use umans_gate.Gate.Calls.{
  Gate, Call, acquires, releases, cools_down, times_out_at, aborts_at, resizes, sets_hard_cap,
  sets_soft_limit, fails, succeeds, shuts_down, reconfigures, enter, enter_or_reject, acquire,
  times_out, aborts, step, run, init, if_made,
}
use umans_gate.Gate.Calls as Calls
use umans_gate.Gate.Answers.{IsFresh, Answered, acquire-Answered}

abbrev pub Free : ℕ → List (ℕ × Outcome) → Type 0
Free n m = (id : ℕ) → n ≤ id → lookup id m ≡ none

abbrev pub Below : ℕ → List Waiter → Type 0
Below n = All (λ (w : Waiter). w.id < n)

-- Neither a settled promise nor a waiter has a number of `n` or more.
pub record Numbered (n : ℕ) (s : Semaphore) : Type 0 where
  pub free : Free n s.outcomes
  pub below : Below n s.waiters

pub Free-settle :
    (n id : ℕ) (o : Outcome) (m : List (ℕ × Outcome)) → id < n → Free n m → Free n (settle id o m)
Free-settle n id o m h f =
    λ j le. ground (arith, h, f j le, lookup-insert id j o m, nat_beq_iff id j)

Below-without : (n id : ℕ) (ws : List Waiter) → Below n ws → Below n (without id ws)
Below-without n id [] b = tt
Below-without n id (w ∷ ws) b = ground (arith, b.0, b.1, Below-without n id ws b.1)

Below-suc : (n : ℕ) (ws : List Waiter) → Below n ws → Below (suc n) ws
Below-suc n [] b = tt
Below-suc n (w ∷ ws) b = (omega (arith, b.0), Below-suc n ws b.1)

pub Numbered-suc : (n : ℕ) (s : Semaphore) → Numbered n s → Numbered (suc n) s
Numbered-suc n s v = record {
  free = λ id le. v.free id (omega (arith, le));
  below = Below-suc n s.waiters v.below;
}

pub Numbered-choice :
    (n : ℕ) (b : Bool) (s t : Semaphore)
    → Numbered n s
    → Numbered n t
    → Numbered n (if b then s else t)
Numbered-choice n true s t v w = v
Numbered-choice n false s t v w = w

pub reject_all-Free :
    (n : ℕ) (s : Semaphore) (ws : List Waiter)
    → Below n ws
    → Free n s.outcomes
    → Free n (reject_all s ws).outcomes
unfolding reject_all
reject_all-Free n s [] b f = f
reject_all-Free n s (w ∷ ws) b f =
    reject_all-Free n (reject_one s w) ws b.1 (Free-settle n w.id _ s.outcomes b.0 f)

Free-choice :
    (n : ℕ) (b : Bool) (s t : Semaphore)
    → Free n s.outcomes
    → Free n t.outcomes
    → Free n (if b then s else t).outcomes
Free-choice n true s t v w = v
Free-choice n false s t v w = w

Below-choice :
    (n : ℕ) (b : Bool) (s t : List Waiter) → Below n s → Below n t → Below n (if b then s else t)
Below-choice n true s t v w = v
Below-choice n false s t v w = w

Numbered-same :
    (n : ℕ) (s t : Semaphore)
    → t.outcomes ≡ s.outcomes
    → t.waiters ≡ s.waiters
    → Numbered n s
    → Numbered n t
Numbered-same n s t e w v = record {
  free = λ id le. ap (lookup id) e ∙ v.free id le;
  below = subst (Below n) (sym w) v.below;
}

pub remove_waiter-Numbered :
    (n : ℕ) (s : Semaphore) (id : ℕ) → Numbered n s → Numbered n (remove_waiter s id).0
unfolding remove_waiter
remove_waiter-Numbered n s id v =
    elim (find_waiter id s.waiters)
      as (λ o.
        Numbered n
          (elim o as (λ x. Semaphore × Option Waiter) [
            | none ↦ (s, none)
            | some w ↦ (
              record s {
                waiters = without id s.waiters;
                queued_by_intention = one_less w.intention s.queued_by_intention;
              },
              some w,
            )
          ]).0) [
            | none ↦ v
            | some w ↦ record { free = v.free; below = Below-without n id s.waiters v.below }
          ]

release-same :
    (s : Semaphore) (id : ℕ)
    → ((release s id).outcomes ≡ s.outcomes) × ((release s id).waiters ≡ s.waiters)
unfolding release
release-same s id = ground arith

pub release-Numbered : (n : ℕ) (s : Semaphore) (id : ℕ) → Numbered n s → Numbered n (release s id)
release-Numbered n s id v =
    Numbered-same n s (release s id) (release-same s id).0 (release-same s id).1 v

admit-Free :
    (n : ℕ) (s : Semaphore) (w : Waiter)
    → w.id < n
    → Free n s.outcomes
    → Free n (admit s w).outcomes
unfolding admit grant
admit-Free n s w h f = Free-settle n w.id _ s.outcomes h f

apply_releases-same :
    (s : Semaphore) (rs : List Release)
    → ((apply_releases s rs).outcomes ≡ s.outcomes) × ((apply_releases s rs).waiters ≡ s.waiters)
apply_releases-same s [] = (refl, refl)
apply_releases-same s (r ∷ rs) = apply_releases-same (apply_release s r) rs

module _ (share : ℕ → ℕ → ℕ → ℕ) where
  drain_loop-Numbered :
      (n : ℕ) (s : Semaphore) (remaining ws : List Waiter)
      → Free n s.outcomes
      → Below n remaining
      → Below n ws
      → Numbered n (drain_loop share s remaining ws)
  unfolding drain_loop
  drain_loop-Numbered n s remaining [] f b c = record { free = f; below = b }
  drain_loop-Numbered n s remaining (w ∷ ws) f b c =
      let fits = can_grant share s w.intention w.weight in
      drain_loop-Numbered n (if fits then admit s w else s)
        (if fits then remaining else remaining ++ w ∷ []) ws
        (Free-choice n fits (admit s w) s (admit-Free n s w c.0 f) f)
        (Below-choice n fits remaining (remaining ++ w ∷ []) b
          (All-append _ remaining (w ∷ []) b (c.0, tt)))
        c.1

  pub drain-Numbered : (n : ℕ) (s : Semaphore) → Numbered n s → Numbered n (drain_waiters share s)
  unfolding drain_waiters
  drain-Numbered n s v = drain_loop-Numbered n s [] s.waiters v.free tt v.below

  pub timer-Numbered :
      (n : ℕ) (s : Semaphore) → Numbered n s → Numbered n (release_timer_fires share s)
  unfolding release_timer_fires
  timer-Numbered n s v =
      let s' = record s { release_timer = false; pending_releases = [] } in
      let e = apply_releases-same s' s.pending_releases in
      Numbered-choice n s.release_timer _ s (drain-Numbered n _ (Numbered-same n s _ e.0 e.1 v)) v
