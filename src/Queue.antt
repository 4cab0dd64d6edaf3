-- ===== src/Queue.antt =====
-- The write-behind queue (src/queue.ts, class WriteQueue).
-- An update is a value of any type. `flushNow` runs up to its `await` at once and goes on when the
-- store has answered: a batch on its way stands in `in_flight`, with whether `guardedFlush` waits
-- for it. `then_flush` tells that `guardedFlush` has chained a flush to the one under way. The
-- lists `written`, `dropped` and `lost` record what became of updates: stored, handed to `onDrop`,
-- or thrown away when the retries are used up. The store answers in order. Messages of `onFlush` and logging are left out.
pub mod Conservation
pub mod Limits
pub mod Order
mod Tests
use umans_gate.Base.{
  ℕ, zero, suc, ◌+◌, ◌-◌, ◌*◌, ◌^◌, min, Bool, true, false, List, [], ◌∷◌, ◌++◌, Option, none, some,
  ltb, leb, if◌then◌else◌, length, ◌||◌, not,
}

abbrev pub max_flush_retries : ℕ
max_flush_retries = 10

abbrev pub retry_base_ms : ℕ
retry_base_ms = 1000

abbrev pub retry_max_ms : ℕ
retry_max_ms = 30000

pub record Batch (U : Type 0) : Type 0 where
  pub items : List U
  pub guarded : Bool

pub record WriteQueue (U : Type 0) : Type 0 where
  pub queue : List U
  pub flush_timer : Bool
  pub retry_timer : Option ℕ
  pub flush_retry_count : ℕ
  pub flushing : Bool
  pub then_flush : Bool
  pub in_flight : List (Batch U)
  pub flush_batch : ℕ
  pub queue_max_depth : ℕ
  pub dropped_count : ℕ
  pub written : List U
  pub dropped : List U
  pub lost : List U

-- `Math.min(RETRY_BASE_MS * 2 ** (n - 1), RETRY_MAX_MS)`
unfoldable pub retry_delay : ℕ → ℕ
retry_delay n = min (retry_base_ms * 2 ^ (n - 1)) retry_max_ms

module _ {U : Type 0} where
  unfoldable pub new : ℕ → ℕ → WriteQueue U
  new flush_batch queue_max_depth = record {
    queue = [];
    flush_timer = false;
    retry_timer = none;
    flush_retry_count = 0;
    flushing = false;
    then_flush = false;
    in_flight = [];
    flush_batch = flush_batch;
    queue_max_depth = queue_max_depth;
    dropped_count = 0;
    written = [];
    dropped = [];
    lost = [];
  }

  abbrev pub is_empty : List U → Bool
  is_empty [] = true
  is_empty (u ∷ us) = false

  -- `flushNow` up to the call of the store.
  unfoldable pub flush_begin : Bool → WriteQueue U → WriteQueue U
  flush_begin guarded q = if is_empty q.queue then record q { flush_timer = false } else record q {
    flush_timer = false;
    queue = [];
    in_flight = q.in_flight ++ record { items = q.queue; guarded = guarded } ∷ [];
  }

  -- A flush of an empty queue is over before anything else runs.
  unfoldable pub guarded_flush : WriteQueue U → WriteQueue U
  guarded_flush q =
      if q.flushing
      then record q { then_flush = true }
      else if is_empty q.queue
      then flush_begin true q
      else flush_begin true (record q { flushing = true })

  -- `finally` and what is chained to it.
  unfoldable pub flush_over : Bool → WriteQueue U → WriteQueue U
  flush_over false q = q
  flush_over true q =
      let q' = record q { flushing = false; then_flush = false } in
      if q.then_flush then (if is_empty q.queue then q' else guarded_flush q') else q'

  -- The store has written the batch.
  unfoldable pub batch_written : List U → WriteQueue U → WriteQueue U
  batch_written items q = record q {
    retry_timer = none;
    flush_retry_count = 0;
    written = q.written ++ items;
  }

  -- The store has failed: the batch goes back to the front; the tenth failure in a row empties the
  -- queue.
  unfoldable pub batch_failed : List U → WriteQueue U → WriteQueue U
  batch_failed items q =
      let count = suc q.flush_retry_count in
      if leb max_flush_retries count
      then record q {
        queue = [];
        flush_retry_count = 0;
        retry_timer = none;
        lost = q.lost ++ (items ++ q.queue);
      }
      else record q {
        queue = items ++ q.queue;
        flush_retry_count = count;
        retry_timer = some (retry_delay count);
      }

  -- The first batch on its way is answered.
  pub answer_first : Bool → List (Batch U) → WriteQueue U → WriteQueue U
  answer_first ok [] q = q
  answer_first ok (b ∷ bs) q =
      let q' = record q { in_flight = bs } in
      flush_over b.guarded (if ok then batch_written b.items q' else batch_failed b.items q')

  unfoldable pub answer : Bool → WriteQueue U → WriteQueue U
  unfolding answer_first
  answer ok q = answer_first ok q.in_flight q

  -- `queue.shift()`, counted and handed to `onDrop`.
  pub drop_oldest : List U → WriteQueue U → WriteQueue U
  drop_oldest [] q = q
  drop_oldest (u ∷ us) q = record q {
    queue = us;
    dropped_count = suc q.dropped_count;
    dropped = q.dropped ++ u ∷ [];
  }

  abbrev pub enforce_depth : WriteQueue U → WriteQueue U
  enforce_depth q = if leb q.queue_max_depth (length q.queue) then drop_oldest q.queue q else q

  unfoldable pub queue_update : U → WriteQueue U → WriteQueue U
  unfolding drop_oldest
  queue_update u q =
      let q' = record q { queue = q.queue ++ u ∷ [] } in
      let should_flush =
        leb q.flush_batch (length q'.queue) || leb q.queue_max_depth (length q'.queue) in
      if should_flush || q.flush_timer
      then enforce_depth (guarded_flush (record q' { flush_timer = false }))
      else record q' { flush_timer = true }

  -- The callback of a flush timer. `flushNow` forgets the timer without clearing it, so it may come
  -- when the field is null.
  unfoldable pub flush_timer_fires : WriteQueue U → WriteQueue U
  flush_timer_fires q = guarded_flush (record q { flush_timer = false })

  -- The callback of the retry timer, which comes only while that is set.
  unfoldable pub retry_timer_fires : WriteQueue U → WriteQueue U
  retry_timer_fires q = elim q.retry_timer [
    | none ↦ q
    | some delay ↦ guarded_flush (record q { retry_timer = none })
  ]

  -- Each update that is left is dropped in turn.
  unfoldable pub drop_all : List U → WriteQueue U → WriteQueue U
  drop_all [] q = record q { queue = [] }
  drop_all (u ∷ us) q =
      drop_all us (record q { dropped_count = suc q.dropped_count; dropped = q.dropped ++ u ∷ [] })

  unfoldable pub drain_for_shutdown : WriteQueue U → WriteQueue U
  drain_for_shutdown q = drop_all q.queue (record q { flush_timer = false; retry_timer = none })

-- What happens to the queue: calls of its methods, timers, answers of the store.
pub data Event (U : Type 0) : Type 0 where
  updates : U → Event U
  flushes flush_timer_ends retry_timer_ends drains : Event U
  answers : Bool → Event U

module _ {U : Type 0} where
  unfoldable pub step : WriteQueue U → Event U → WriteQueue U
  step q (updates u) = queue_update u q
  step q flushes = flush_begin false q
  step q flush_timer_ends = flush_timer_fires q
  step q retry_timer_ends = retry_timer_fires q
  step q drains = drain_for_shutdown q
  step q (answers ok) = answer ok q

  unfoldable pub run : WriteQueue U → List (Event U) → WriteQueue U
  run q [] = q
  run q (e ∷ es) = run (step q e) es
