-- ===== src/Queue/Limits.antt =====
-- How long the queue grows, what it drops, and that nothing waits in it for ever.
use umans_gate.Base.{
  ℕ, suc, ◌-◌, ◌≤◌, ◌<◌, ◌≡◌, refl, max, Bool, true, false, List, [], ◌∷◌, ◌++◌, Option, none, some,
  arith, if◌then◌else◌, length, length-append, All, ◌||◌, ◌⊎◌, inl, inr, ap, sym, subst, leb,
  Bool-cases,
}
use umans_gate.Queue.{
  Batch, WriteQueue, Event, updates, flushes, flush_timer_ends, retry_timer_ends, drains, answers,
  new, is_empty, flush_begin, guarded_flush, flush_over, batch_written, batch_failed, answer_first,
  answer, drop_oldest, queue_update, flush_timer_fires, retry_timer_fires, drop_all,
  drain_for_shutdown, step, run,
}

module _ {U : Type 0} where
  -- An update never makes the queue longer than it was, but up to one less than its maximal depth.
  pub length-queue_update :
      (u : U) (q : WriteQueue U)
      → 0 < q.queue_max_depth
      → length (queue_update u q).queue ≤ max (length q.queue) (q.queue_max_depth - 1)
  unfolding queue_update guarded_flush flush_begin
  length-queue_update u q h = ground (arith, length-append q.queue (u ∷ []))

  -- An update that finds no room: the oldest entry of the queue, the update counted, is taken out and dropped.
  abbrev pub DropsOldest : U → WriteQueue U → WriteQueue U → Type 0
  DropsOldest u q q' =
      (q.flushing ≡ true)
      × (q.queue_max_depth ≤ suc (length q.queue))
      × ((oldest : U) × (others : List U) × (q.queue ++ u ∷ [] ≡ oldest ∷ others)
          × (q'.queue ≡ others)
          × (q'.dropped ≡ q.dropped ++ oldest ∷ [])
          × (q'.dropped_count ≡ suc q.dropped_count))

  -- An update that finds room waits at the end of the queue, or goes with the whole queue to the store.
  abbrev pub DropsNone : U → WriteQueue U → WriteQueue U → Type 0
  DropsNone u q q' =
      ((q.flushing ≡ false) ⊎ (suc (length q.queue) < q.queue_max_depth))
      × (q'.dropped ≡ q.dropped)
      × (q'.dropped_count ≡ q.dropped_count)
      × (((q'.queue ≡ q.queue ++ u ∷ []) × (q'.in_flight ≡ q.in_flight))
          ⊎ ((q'.queue ≡ [])
              × (q'.in_flight
                  ≡ q.in_flight ++ record { items = q.queue ++ u ∷ []; guarded = true } ∷ [])))

  first_of : (us : List U) (u : U) → (a : U) × (rest : List U) × (us ++ u ∷ [] ≡ a ∷ rest)
  first_of [] u = (u, [], refl)
  first_of (a ∷ rest) u = (a, rest ++ u ∷ [], refl)

  drop_oldest_lem :
      (us : List U) (a : U) (rest : List U) (q : WriteQueue U)
      → us ≡ a ∷ rest
      → drop_oldest us q ≡ drop_oldest (a ∷ rest) q
  drop_oldest_lem us a rest q e = ap (λ z. drop_oldest z q) e

  update_full :
      (u : U) (q : WriteQueue U)
      → q.flushing ≡ true
      → leb q.queue_max_depth (length (q.queue ++ u ∷ [])) ≡ true
      → queue_update u q
        ≡ drop_oldest
            (q.queue ++ u ∷ [])
            (record q { queue = q.queue ++ u ∷ []; flush_timer = false; then_flush = true })
  unfolding queue_update guarded_flush
  update_full u q f l = ground (arith, f, l)

  -- Where a queue may hold anything at all, an update that finds a flush under way and the queue, with the update, at
  -- its maximal depth takes out the oldest entry, counts it and hands it on; in all other cases nothing is dropped, and
  -- the update waits at the end of the queue or goes with the whole queue to the store.
  pub queue_update-drops :
      (u : U) (q : WriteQueue U)
      → 0 < q.queue_max_depth
      → DropsOldest u q (queue_update u q) ⊎ DropsNone u q (queue_update u q)
  unfolding queue_update guarded_flush flush_begin drop_oldest
  queue_update-drops u q h =
      let (a, rest, e) = first_of q.queue u in
      let n = length-append q.queue (u ∷ []) in
      let filled : is_empty (q.queue ++ u ∷ []) ≡ false = ap is_empty e in
      elim (Bool-cases q.flushing) [
        | inl f ↦ elim (Bool-cases (leb q.queue_max_depth (length (q.queue ++ u ∷ [])))) [
          | inl l ↦
              let r = record q {
                queue = q.queue ++ u ∷ [];
                flush_timer = false;
                then_flush = true;
              } in
              let after : drop_oldest (q.queue ++ u ∷ []) r ≡ drop_oldest (a ∷ rest) r =
                drop_oldest_lem (q.queue ++ u ∷ []) a rest r e in
              subst (λ r. DropsOldest u q r ⊎ DropsNone u q r) (sym (update_full u q f l))
                (inl (
                  f,
                  ground (arith, l, n),
                  (
                    a,
                    rest,
                    e,
                    ap (λ z. z.queue) after,
                    ap (λ z. z.dropped) after,
                    ap (λ z. z.dropped_count) after,
                  ),
                ))
          | inr l ↦ inr (
            inr (ground (arith, l, n)),
            ground (arith, f, l),
            ground (arith, f, l),
            inl (ground (arith, f, l), ground (arith, f, l)),
          )
        ]
        | inr f ↦ inr (
          inl f,
          ground (arith, f, h, filled),
          ground (arith, f, h, filled),
          elim (Bool-cases (
              (leb q.flush_batch (length (q.queue ++ u ∷ []))
                || leb q.queue_max_depth (length (q.queue ++ u ∷ [])))
              || q.flush_timer)) [
                | inl t ↦ inr (ground (arith, f, h, filled, t), ground (arith, f, h, filled, t))
                | inr t ↦ inl (ground (arith, t), ground (arith, t))
              ],
        )
      ]

abbrev pub is_some : Option ℕ → Bool
is_some none = false
is_some (some v) = true

-- While `guarded_flush` waits, one batch of its own is on its way, else none is.
abbrev pub fits_flushing : {U : Type 0} → Bool → List (Batch U) → Bool
fits_flushing false [] = true
fits_flushing true (b ∷ []) = b.guarded
fits_flushing _ _ = false

-- Where an update waits, a timer or the end of the flush under way will see to it.
pub record Attended {U : Type 0} (q : WriteQueue U) : Type 0 where
  pub seen_to :
      (is_empty q.queue
        || (q.flush_timer || (if q.flushing then q.then_flush else is_some q.retry_timer)))
      ≡ true
  pub on_the_way : fits_flushing q.flushing q.in_flight ≡ true

module _ {U : Type 0} where
  guarded_flush-Attended :
      (q : WriteQueue U) → fits_flushing q.flushing q.in_flight ≡ true → Attended (guarded_flush q)
  unfolding guarded_flush flush_begin
  guarded_flush-Attended q h = ground arith

  drop_oldest-Attended :
      (q : WriteQueue U) (us : List U) → q.queue ≡ us → Attended q → Attended (drop_oldest us q)
  unfolding drop_oldest
  drop_oldest-Attended q [] e v = v
  drop_oldest-Attended q (u ∷ us) e v = ground (arith, v.seen_to, v.on_the_way, e)

  Attended-choice :
      (b : Bool) (q r : WriteQueue U) → Attended q → Attended r → Attended (if b then q else r)
  Attended-choice true q r v w = v
  Attended-choice false q r v w = w

  waiting-Attended :
      (u : U) (q : WriteQueue U)
      → Attended q
      → Attended (record q { queue = q.queue ++ u ∷ []; flush_timer = true })
  waiting-Attended u q v = ground (arith, v.on_the_way)

  update-Attended : (u : U) (q : WriteQueue U) → Attended q → Attended (queue_update u q)
  unfolding queue_update
  update-Attended u q v =
      let q' = record q { queue = q.queue ++ u ∷ []; flush_timer = false } in
      let g = guarded_flush q' in
      let w = guarded_flush-Attended q' v.on_the_way in
      Attended-choice _ _ _ (Attended-choice _ _ _ (drop_oldest-Attended g g.queue refl w) w)
        (waiting-Attended u q v)

  flush_over-Attended :
      (q : WriteQueue U)
      → q.in_flight ≡ []
      → (is_empty q.queue || (q.flush_timer || (q.then_flush || is_some q.retry_timer))) ≡ true
      → Attended (flush_over true q)
  unfolding flush_over guarded_flush flush_begin
  flush_over-Attended q e h = ground (arith, e, h)

  answer_first-Attended :
      (ok : Bool) (q : WriteQueue U) (bs : List (Batch U))
      → q.in_flight ≡ bs
      → Attended q
      → Attended (answer_first ok bs q)
  unfolding answer_first batch_written batch_failed
  answer_first-Attended ok q [] e v = v
  answer_first-Attended true q (b ∷ []) e v =
      let g : b.guarded ≡ true = ground (arith, e, v.on_the_way) in
      let f : q.flushing ≡ true = ground (arith, e, v.on_the_way) in
      rw g (flush_over-Attended _ refl (ground (arith, f, v.seen_to)))
  answer_first-Attended false q (b ∷ []) e v =
      let g : b.guarded ≡ true = ground (arith, e, v.on_the_way) in
      let f : q.flushing ≡ true = ground (arith, e, v.on_the_way) in
      rw g (
        flush_over-Attended (batch_failed b.items (record q { in_flight = [] })) (ground arith)
          (ground arith))
  answer_first-Attended ok q (b ∷ c ∷ bs) e v = absurd (ground (arith, e, v.on_the_way))

  drop_all-Attended :
      (us : List U) (q : WriteQueue U)
      → fits_flushing q.flushing q.in_flight ≡ true
      → Attended (drop_all us q)
  unfolding drop_all
  drop_all-Attended [] q h = record { seen_to = refl; on_the_way = h }
  drop_all-Attended (u ∷ us) q h =
      drop_all-Attended us
        (record q { dropped_count = suc q.dropped_count; dropped = q.dropped ++ u ∷ [] }) h

  -- Every flush goes through `guarded_flush`.
  abbrev pub IsGuarded : Event U → Type 0
  IsGuarded flushes = ⊥
  IsGuarded _ = Unit

  pub step-Attended :
      (q : WriteQueue U) (e : Event U) → IsGuarded e → Attended q → Attended (step q e)
  unfolding step
  step-Attended q (updates u) i v = update-Attended u q v
  step-Attended q flushes i v = absurd i
  step-Attended q flush_timer_ends i v =
      unfold flush_timer_fires in
      guarded_flush-Attended (record q { flush_timer = false }) v.on_the_way
  step-Attended q retry_timer_ends i v =
      unfold retry_timer_fires in
      elim q.retry_timer
        as (λ t.
          Attended
            (elim t [ none ↦ q | some delay ↦ guarded_flush (record q { retry_timer = none }) ])) [
              | none ↦ v
              | some delay ↦ guarded_flush-Attended (record q { retry_timer = none }) v.on_the_way
            ]
  step-Attended q drains i v =
      unfold drain_for_shutdown in
      drop_all-Attended q.queue (record q { flush_timer = false; retry_timer = none }) v.on_the_way
  step-Attended q (answers ok) i v = unfold answer in answer_first-Attended ok q q.in_flight refl v

  Attended-run :
      (q : WriteQueue U) (es : List (Event U)) → All IsGuarded es → Attended q → Attended (run q es)
  unfolding run
  Attended-run q [] a v = v
  Attended-run q (e ∷ es) a v = Attended-run (step q e) es a.1 (step-Attended q e a.0 v)

-- As long as every flush goes through `guardedFlush`, an update that waits always has something that
-- sees to it: the flush timer, or the retry timer, or a flush chained to the one that is under way.
pub run-new-Attended :
    {U : Type 0} (flush_batch depth : ℕ) (es : List (Event U))
    → All IsGuarded es
    → Attended (run (new flush_batch depth) es)
unfolding new
run-new-Attended flush_batch depth es a =
    Attended-run (new flush_batch depth) es a (record { seen_to = refl; on_the_way = refl })
