-- ===== src/Queue/Order.antt =====
-- Updates are stored in the order they were queued, failures of the store included.
use umans_gate.Base.{
  ℕ, suc, ◌+◌, ◌≤◌, ◌<◌, ◌≡◌, refl, sym, ap, ◌∙◌, Bool, true, false, List, [], ◌∷◌, ◌++◌, none,
  arith, if◌then◌else◌, length, length-append, append-nil, append_assoc, All,
}
use umans_gate.Queue.{
  Batch, WriteQueue, Event, updates, flushes, flush_timer_ends, retry_timer_ends, drains, answers,
  new, flush_begin, guarded_flush, flush_over, batch_written, batch_failed, answer_first, answer,
  drop_oldest, queue_update, flush_timer_fires, retry_timer_fires, max_flush_retries, step, run,
}
use umans_gate.Queue.Limits.{Attended, fits_flushing, step-Attended, IsGuarded}

module _ {U : Type 0} where
  abbrev pub flat : List (Batch U) → List U
  flat [] = []
  flat (b ∷ bs) = b.items ++ flat bs

  -- What is stored, on its way or waiting, in this order.
  abbrev pub in_order : WriteQueue U → List U
  in_order q = q.written ++ (flat q.in_flight ++ q.queue)

  -- How often the store fails, and how many updates come.
  abbrev pub failures : List (Event U) → ℕ
  failures [] = 0
  failures (answers false ∷ es) = suc (failures es)
  failures (_ ∷ es) = failures es

  abbrev pub queued : List (Event U) → List U
  queued [] = []
  queued (updates u ∷ es) = u ∷ queued es
  queued (_ ∷ es) = queued es

  flat-append : (xs : List (Batch U)) (b : Batch U) → flat (xs ++ b ∷ []) ≡ flat xs ++ b.items
  flat-append [] b = append-nil b.items
  flat-append (x ∷ xs) b =
      ap (λ ys. x.items ++ ys) (flat-append xs b) ∙ sym (append_assoc x.items (flat xs) b.items)

  flush_begin-in_order : (g : Bool) (q : WriteQueue U) → in_order (flush_begin g q) ≡ in_order q
  unfolding flush_begin
  flush_begin-in_order g q =
      let b : Batch U = record { items = q.queue; guarded = g } in
      ground (arith, flat-append q.in_flight b, append-nil (flat (q.in_flight ++ b ∷ [])))

  guarded_flush-in_order : (q : WriteQueue U) → in_order (guarded_flush q) ≡ in_order q
  unfolding guarded_flush
  guarded_flush-in_order q =
      ground (
        arith,
        flush_begin-in_order true q,
        flush_begin-in_order true (record q { flushing = true }),
      )

  flush_over-in_order : (g : Bool) (q : WriteQueue U) → in_order (flush_over g q) ≡ in_order q
  unfolding flush_over
  flush_over-in_order false q = refl
  flush_over-in_order true q =
      ground (arith, guarded_flush-in_order (record q { flushing = false; then_flush = false }))

  answered-in_order :
      (ok : Bool) (items : List U) (q : WriteQueue U)
      → q.in_flight ≡ []
      → q.flush_retry_count + failures (answers ok ∷ []) < max_flush_retries
      → in_order (if ok then batch_written items q else batch_failed items q)
        ≡ q.written ++ (items ++ q.queue)
  unfolding batch_written batch_failed
  answered-in_order true items q e h = ground (arith, e, append_assoc q.written items q.queue)
  answered-in_order false items q e h = ground (arith, e, h)

  answer_first-in_order :
      (ok : Bool) (q : WriteQueue U) (bs : List (Batch U))
      → q.in_flight ≡ bs
      → fits_flushing q.flushing bs ≡ true
      → q.flush_retry_count + failures (answers ok ∷ []) < max_flush_retries
      → in_order (answer_first ok bs q) ≡ in_order q
  unfolding answer_first
  answer_first-in_order ok q [] e f h = refl
  answer_first-in_order ok q (b ∷ []) e f h =
      flush_over-in_order b.guarded _
      ∙ answered-in_order ok b.items (record q { in_flight = [] }) refl h
      ∙ ground (arith, e, append-nil b.items)
  answer_first-in_order ok q (b ∷ c ∷ bs) e f h = absurd (ground (arith, f))

  length-guarded_flush : (q : WriteQueue U) → length (guarded_flush q).queue ≤ length q.queue
  unfolding guarded_flush flush_begin
  length-guarded_flush q = ground arith

  -- What neither a flush nor a drop touches.
  abbrev Kept : (q r : WriteQueue U) → Type 0
  Kept q r = (r.queue_max_depth ≡ q.queue_max_depth) × (r.flush_retry_count ≡ q.flush_retry_count)

  guarded_flush-Kept : (q : WriteQueue U) → Kept q (guarded_flush q)
  unfolding guarded_flush flush_begin
  guarded_flush-Kept q = ground arith

  drop_oldest-Kept : (us : List U) (q : WriteQueue U) → Kept q (drop_oldest us q)
  unfolding drop_oldest
  drop_oldest-Kept [] q = (refl, refl)
  drop_oldest-Kept (u ∷ us) q = (refl, refl)

  flush_over-Kept : (g : Bool) (q : WriteQueue U) → Kept q (flush_over g q)
  unfolding flush_over
  flush_over-Kept false q = (refl, refl)
  flush_over-Kept true q =
      ground (arith, guarded_flush-Kept (record q { flushing = false; then_flush = false }))

  update-Kept : (u : U) (q : WriteQueue U) → Kept q (queue_update u q)
  unfolding queue_update
  update-Kept u q =
      let q' = record q { queue = q.queue ++ u ∷ []; flush_timer = false } in
      let g = guarded_flush q' in ground (arith, guarded_flush-Kept q', drop_oldest-Kept g.queue g)

  answer_first-failed :
      (ok : Bool) (q : WriteQueue U) (bs : List (Batch U))
      → ((answer_first ok bs q).queue_max_depth ≡ q.queue_max_depth)
        × ((answer_first ok bs q).flush_retry_count
            ≤ q.flush_retry_count + failures (answers ok ∷ []))
  unfolding answer_first batch_written batch_failed
  answer_first-failed ok q [] = (refl, omega arith)
  answer_first-failed true q (b ∷ bs) =
      ground
        (arith, flush_over-Kept b.guarded (batch_written b.items (record q { in_flight = bs })))
  answer_first-failed false q (b ∷ bs) =
      ground (arith, flush_over-Kept b.guarded (batch_failed b.items (record q { in_flight = bs })))

  update-in_order :
      (u : U) (q : WriteQueue U)
      → suc (length q.queue) < q.queue_max_depth
      → in_order (queue_update u q) ≡ in_order q ++ u ∷ []
  unfolding queue_update
  update-in_order u q h =
      let q' = record q { queue = q.queue ++ u ∷ []; flush_timer = false } in
      ground (
        arith,
        h,
        length-append q.queue (u ∷ []),
        guarded_flush-in_order q',
        length-guarded_flush q',
        guarded_flush-Kept q',
        append_assoc q.written (flat q.in_flight ++ q.queue) (u ∷ []),
        append_assoc (flat q.in_flight) q.queue (u ∷ []),
      )

  -- No shutdown, and every flush goes through `guardedFlush`.
  abbrev pub IsServing : Event U → Type 0
  IsServing flushes = ⊥
  IsServing drains = ⊥
  IsServing _ = Unit

  length-in_order : (q : WriteQueue U) → length q.queue ≤ length (in_order q)
  length-in_order q = omega (
    arith,
    length-append q.written (flat q.in_flight ++ q.queue),
    length-append (flat q.in_flight) q.queue,
  )

  -- An event that is no shutdown adds what it brings, and no failure beyond its own.
  record Serves (q : WriteQueue U) (e : Event U) : Type 0 where
    ordered : in_order (step q e) ≡ in_order q ++ queued (e ∷ [])
    failed : (step q e).flush_retry_count ≤ q.flush_retry_count + failures (e ∷ [])
    same_depth : (step q e).queue_max_depth ≡ q.queue_max_depth

  step-Serves :
      (q : WriteQueue U) (e : Event U)
      → IsServing e
      → Attended q
      → q.flush_retry_count + failures (e ∷ []) < max_flush_retries
      → length q.queue + length (queued (e ∷ [])) < q.queue_max_depth
      → Serves q e
  unfolding step
  step-Serves q (updates u) i v f d = record {
    ordered = update-in_order u q (omega (arith, d));
    failed = omega (arith, (update-Kept u q).1);
    same_depth = (update-Kept u q).0;
  }
  step-Serves q flushes i v f d = absurd i
  step-Serves q flush_timer_ends i v f d =
      unfold flush_timer_fires in
      let g = record q { flush_timer = false } in
      ground (arith, guarded_flush-Kept g, guarded_flush-in_order g, append-nil (in_order q))
  step-Serves q retry_timer_ends i v f d =
      unfold retry_timer_fires in
      let g = record q { retry_timer = none } in
      ground (arith, guarded_flush-Kept g, guarded_flush-in_order g, append-nil (in_order q))
  step-Serves q drains i v f d = absurd i
  step-Serves q (answers ok) i v f d =
      unfold answer in
      record {
        ordered =
            answer_first-in_order ok q q.in_flight refl v.on_the_way f
            ∙ sym (append-nil (in_order q));
        failed = (answer_first-failed ok q q.in_flight).1;
        same_depth = (answer_first-failed ok q q.in_flight).0;
      }

  failures-cons :
      (e : Event U) (es : List (Event U)) → failures (e ∷ es) ≡ failures (e ∷ []) + failures es
  failures-cons (answers false) es = omega arith
  failures-cons (answers true) es = omega arith
  failures-cons (updates u) es = omega arith
  failures-cons flushes es = omega arith
  failures-cons flush_timer_ends es = omega arith
  failures-cons retry_timer_ends es = omega arith
  failures-cons drains es = omega arith

  queued-cons : (e : Event U) (es : List (Event U)) → queued (e ∷ es) ≡ queued (e ∷ []) ++ queued es
  queued-cons (updates u) es = refl
  queued-cons (answers ok) es = refl
  queued-cons flushes es = refl
  queued-cons flush_timer_ends es = refl
  queued-cons retry_timer_ends es = refl
  queued-cons drains es = refl

  serving-IsGuarded : (e : Event U) → IsServing e → IsGuarded e
  serving-IsGuarded (updates u) i = tt
  serving-IsGuarded (answers ok) i = tt
  serving-IsGuarded flushes i = absurd i
  serving-IsGuarded flush_timer_ends i = tt
  serving-IsGuarded retry_timer_ends i = tt
  serving-IsGuarded drains i = absurd i

  served_depth :
      (q : WriteQueue U) (e : Event U) (es : List (Event U))
      → length (in_order q) + length (queued (e ∷ es)) < q.queue_max_depth
      → length q.queue + length (queued (e ∷ [])) < q.queue_max_depth
  served_depth q e es d = omega (
    arith,
    d,
    length-in_order q,
    ap length (queued-cons e es),
    length-append (queued (e ∷ [])) (queued es),
  )

  served :
      (q : WriteQueue U) (es : List (Event U))
      → All IsServing es
      → Attended q
      → q.flush_retry_count + failures es < max_flush_retries
      → length (in_order q) + length (queued es) < q.queue_max_depth
      → in_order (run q es) ≡ in_order q ++ queued es
  unfolding run
  served q [] a v f d = sym (append-nil (in_order q))
  served q (e ∷ es) a v f d =
      let w =
        step-Serves q e a.0 v (omega (arith, f, failures-cons e es)) (served_depth q e es d) in
      let e1 = w.ordered in
      let ih =
        served (step q e) es a.1 (step-Attended q e (serving-IsGuarded e a.0) v)
          (omega (arith, f, failures-cons e es, w.failed))
          (omega (
            arith,
            d,
            w.same_depth,
            ap length e1,
            ap length (queued-cons e es),
            length-append (in_order q) (queued (e ∷ [])),
            length-append (queued (e ∷ [])) (queued es),
          )) in
      ih
      ∙ ap (λ xs. xs ++ queued es) e1
      ∙ append_assoc (in_order q) (queued (e ∷ [])) (queued es)
      ∙ ap (λ xs. in_order q ++ xs) (sym (queued-cons e es))

-- While fewer than ten answers of the store are failures, fewer updates come than the queue may hold,
-- no shutdown comes and every flush goes through `guardedFlush`, then what is written, followed by
-- what is on its way and by what waits, is all updates in the order they came: none is lost,
-- dropped, written twice or out of order.
pub run-in_order :
    {U : Type 0} (flush_batch depth : ℕ) (es : List (Event U))
    → All IsServing es
    → failures es < max_flush_retries
    → length (queued es) < depth
    → in_order (run (new flush_batch depth) es) ≡ queued es
unfolding new
run-in_order flush_batch depth es a f d =
    served (new flush_batch depth) es a (record { seen_to = refl; on_the_way = refl })
      (omega (arith, f)) (omega (arith, d))
