-- ===== src/Queue/Conservation.antt =====
-- No update vanishes: each is waiting, on its way, written, handed to `onDrop`, or counted as lost.
use umans_gate.Base.{
  ℕ, suc, ◌+◌, ◌≡◌, refl, ap, Bool, true, false, List, [], ◌∷◌, ◌++◌, none, arith, sum_by,
  sum_by-append, if◌then◌else◌,
}
use umans_gate.Queue.{
  Batch, WriteQueue, Event, updates, flushes, flush_timer_ends, retry_timer_ends, drains, answers,
  new, flush_begin, guarded_flush, flush_over, batch_written, batch_failed, answer_first, answer,
  drop_oldest, queue_update, flush_timer_fires, retry_timer_fires, drop_all, drain_for_shutdown,
  step, run,
}

module _ {U : Type 0} (f : U → ℕ) where
  -- A number read off each update of the batches on their way.
  abbrev pub on_the_way : List (Batch U) → ℕ
  on_the_way [] = 0
  on_the_way (b ∷ bs) = sum_by f b.items + on_the_way bs

  on_the_way-append :
      (xs ys : List (Batch U)) → on_the_way (xs ++ ys) ≡ on_the_way xs + on_the_way ys
  on_the_way-append [] ys = omega arith
  on_the_way-append (x ∷ xs) ys = omega (arith, on_the_way-append xs ys)

  -- The sum of a number over every update that the queue accounts for.
  abbrev pub accounted : WriteQueue U → ℕ
  accounted q =
      sum_by f q.queue
      + on_the_way q.in_flight
      + sum_by f q.written
      + sum_by f q.dropped
      + sum_by f q.lost

  flush_begin-accounted :
      (guarded : Bool) (q : WriteQueue U) → accounted (flush_begin guarded q) ≡ accounted q
  unfolding flush_begin
  flush_begin-accounted guarded q =
      ground
        (arith, on_the_way-append q.in_flight (record { items = q.queue; guarded = guarded } ∷ []))

  guarded_flush-accounted : (q : WriteQueue U) → accounted (guarded_flush q) ≡ accounted q
  unfolding guarded_flush
  guarded_flush-accounted q = ground (
    arith,
    flush_begin-accounted true q,
    flush_begin-accounted true (record q { flushing = true }),
  )

  flush_over-accounted :
      (guarded : Bool) (q : WriteQueue U) → accounted (flush_over guarded q) ≡ accounted q
  unfolding flush_over
  flush_over-accounted false q = refl
  flush_over-accounted true q =
      ground (arith, guarded_flush-accounted (record q { flushing = false; then_flush = false }))

  answered-accounted :
      (ok : Bool) (items : List U) (q : WriteQueue U)
      → accounted (if ok then batch_written items q else batch_failed items q)
        ≡ accounted q + sum_by f items
  unfolding batch_written batch_failed
  answered-accounted ok items q = ground (
    arith,
    sum_by-append f q.written items,
    sum_by-append f items q.queue,
    sum_by-append f q.lost (items ++ q.queue),
  )

  answer_first-accounted :
      (ok : Bool) (bs : List (Batch U)) (q : WriteQueue U)
      → q.in_flight ≡ bs
      → accounted (answer_first ok bs q) ≡ accounted q
  unfolding answer_first
  answer_first-accounted ok [] q e = refl
  answer_first-accounted ok (b ∷ bs) q e =
      let q' = record q { in_flight = bs } in
      omega (
        arith,
        flush_over-accounted b.guarded
            (if ok then batch_written b.items q' else batch_failed b.items q'),
        answered-accounted ok b.items q',
        ap on_the_way e,
      )

  enforce-accounted :
      (q : WriteQueue U) (us : List U) → q.queue ≡ us → accounted (drop_oldest us q) ≡ accounted q
  unfolding drop_oldest
  enforce-accounted q [] e = refl
  enforce-accounted q (u ∷ us) e =
      omega (arith, ap (sum_by f) e, sum_by-append f q.dropped (u ∷ []))

  update-accounted : (u : U) (q : WriteQueue U) → accounted (queue_update u q) ≡ accounted q + f u
  unfolding queue_update
  update-accounted u q =
      let q' = record q { queue = q.queue ++ u ∷ []; flush_timer = false } in
      let g = guarded_flush q' in
      ground (
        arith,
        sum_by-append f q.queue (u ∷ []),
        guarded_flush-accounted q',
        enforce-accounted g g.queue refl,
      )

  drop_all-accounted :
      (us : List U) (q : WriteQueue U)
      → accounted (drop_all us q) + sum_by f q.queue ≡ accounted q + sum_by f us
  unfolding drop_all
  drop_all-accounted [] q = omega arith
  drop_all-accounted (u ∷ us) q = omega (
    arith,
    drop_all-accounted us
        (record q { dropped_count = suc q.dropped_count; dropped = q.dropped ++ u ∷ [] }),
    sum_by-append f q.dropped (u ∷ []),
  )

  -- What an event brings in.
  abbrev pub brought : List (Event U) → ℕ
  brought [] = 0
  brought (updates u ∷ es) = f u + brought es
  brought (_ ∷ es) = brought es

  step-accounted :
      (q : WriteQueue U) (e : Event U) (es : List (Event U))
      → accounted (step q e) + brought es ≡ accounted q + brought (e ∷ es)
  unfolding step
  step-accounted q (updates u) es = omega (arith, update-accounted u q)
  step-accounted q flushes es = omega (arith, flush_begin-accounted false q)
  step-accounted q flush_timer_ends es =
      unfold flush_timer_fires in
      ground (arith, guarded_flush-accounted (record q { flush_timer = false }))
  step-accounted q retry_timer_ends es =
      unfold retry_timer_fires in
      ground (arith, guarded_flush-accounted (record q { retry_timer = none }))
  step-accounted q drains es =
      unfold drain_for_shutdown in
      omega
        (arith, drop_all-accounted q.queue (record q { flush_timer = false; retry_timer = none }))
  step-accounted q (answers ok) es =
      unfold answer in omega (arith, answer_first-accounted ok q.in_flight q refl)

  accounted-run :
      (q : WriteQueue U) (es : List (Event U)) → accounted (run q es) ≡ accounted q + brought es
  unfolding run
  accounted-run q [] = omega arith
  accounted-run q (e ∷ es) = omega (arith, accounted-run (step q e) es, step-accounted q e es)

-- Whatever the store answers, and for every number `f` read off updates (a count of one update, say),
-- the sum over the updates queued so far is the sum over those that wait, are on their way, are
-- written, were handed to `onDrop`, or were lost with the retries.
pub run-accounted :
    {U : Type 0} (f : U → ℕ) (flush_batch depth : ℕ) (es : List (Event U))
    → accounted f (run (new flush_batch depth) es) ≡ brought f es
unfolding new
run-accounted f flush_batch depth es = omega (arith, accounted-run f (new flush_batch depth) es)
