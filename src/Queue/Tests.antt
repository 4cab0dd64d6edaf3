-- ===== src/Queue/Tests.antt =====
-- The write-behind queue at concrete inputs: updates are numbers.
use umans_gate.Base.{ℕ, ◌≡◌, refl, true, false, List, [], ◌∷◌, arith, ◌⊎◌}
use umans_gate.Queue.{
  WriteQueue, Event, updates, retry_timer_ends, answers, new, queue_update, guarded_flush,
  flush_begin, flush_over, batch_written, batch_failed, answer, answer_first, drop_oldest,
  retry_timer_fires, retry_delay, step, run,
}
use umans_gate.Queue.Conservation.{accounted, run-accounted}
use umans_gate.Queue.Limits.{DropsOldest, DropsNone, queue_update-drops, Attended, run-new-Attended}
use umans_gate.Queue.Order.{in_order, run-in_order}

-- Two updates flush at once, a third waits; the store fails, then recovers.
abbrev events : List (Event ℕ)
events =
    updates 1
    ∷ updates 2
    ∷ updates 3
    ∷ answers false
    ∷ retry_timer_ends
    ∷ answers true
    ∷ updates 4
    ∷ []

run-accounted_example : accounted (λ n. 1) (run (new 50 500) events) ≡ 4
run-accounted_example = run-accounted (λ n. 1) 50 500 events

stored_after : (run (new 50 500) events).written ≡ 1 ∷ 2 ∷ 3 ∷ []
unfolding run step new queue_update guarded_flush flush_begin answer answer_first flush_over
    batch_failed batch_written retry_delay retry_timer_fires drop_oldest
stored_after = refl

run-new-Attended_example : Attended (run (new 50 500) events)
run-new-Attended_example =
    run-new-Attended 50 500 events (tt, (tt, (tt, (tt, (tt, (tt, (tt, tt)))))))

run-in_order_example : in_order (run (new 50 500) events) ≡ 1 ∷ 2 ∷ 3 ∷ 4 ∷ []
run-in_order_example =
    run-in_order 50 500 events (tt, (tt, (tt, (tt, (tt, (tt, (tt, tt))))))) (omega arith)
      (omega arith)

-- A queue of depth two that waits for its store.
abbrev full : WriteQueue ℕ
full = record (new 50 2) { queue = 7 ∷ []; flushing = true }

queue_update-drops_example :
    DropsOldest 8 full (queue_update 8 full) ⊎ DropsNone 8 full (queue_update 8 full)
unfolding new
queue_update-drops_example = queue_update-drops 8 full (omega arith)

-- The older of the two is handed on.
seven_dropped : (queue_update 8 full).dropped ≡ 7 ∷ []
unfolding queue_update guarded_flush drop_oldest new
seven_dropped = refl
