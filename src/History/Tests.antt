-- ===== src/History/Tests.antt =====
-- The detector at concrete snapshots.
use umans_gate.Base.{ℕ, ◌≡◌, refl, Bool, true, false, not, List, [], ◌∷◌, none, some}
use umans_gate.History.{
  PriorityTuple, ServiceModeTuple, UsageSnapshot, Input, RecordEventAccessor, onset, morph,
  resolved, new, handle_all, handle_snapshot, is_default_priority, is_default_service_mode,
  same_priority, same_service_mode,
}
use umans_gate.History.Story.{Story, told, degraded, seen, handle_all-Story}

-- A store that keeps what it is given, whose open event is the first.
abbrev store : RecordEventAccessor (List Input)
store = record { record_event = λ i s. i ∷ s; get_open_event_for_tuple = λ k s. some 1 }

abbrev calm : PriorityTuple
calm = record {
  priority_low = false;
  boxed_until = none;
  boxed_reason = none;
  units_demoted = false;
  demoted_until = none;
}

abbrev boxed : ℕ → PriorityTuple
boxed until = record calm { boxed_until = some until }

abbrev normal : ServiceModeTuple
normal = record { current = "normal"; resets_at = none }

abbrev snapshot : Bool → PriorityTuple → UsageSnapshot
snapshot ok tuple = record { ok = ok; priority = tuple; service_mode = normal; fetched_at = 5 }

-- The snapshot that failed tells nothing.
abbrev snapshots : List UsageSnapshot
snapshots =
    snapshot true (boxed 9)
    ∷ snapshot false calm
    ∷ snapshot true (boxed 12)
    ∷ snapshot true calm
    ∷ []

told_of_snapshots :
    told (λ e. e.priority) (handle_all store snapshots (seen store calm normal) []).1.1
    ≡ onset ∷ morph ∷ resolved ∷ []
unfolding handle_all handle_snapshot is_default_priority same_priority same_service_mode
told_of_snapshots = refl

-- The first snapshot is silent.
first_is_silent : (handle_all store (snapshot true (boxed 9) ∷ []) new []).1.0 ≡ []
unfolding handle_all handle_snapshot
first_is_silent = refl

handle_all-Story_example :
    Story
      (not (is_default_priority calm))
      (told (λ e. e.priority) (handle_all store snapshots (seen store calm normal) []).1.1)
      (degraded is_default_priority
        (handle_all store snapshots (seen store calm normal) []).0.last_priority)
    × Story
        (not (is_default_service_mode normal))
        (told (λ e. e.service_mode) (handle_all store snapshots (seen store calm normal) []).1.1)
        (degraded is_default_service_mode
          (handle_all store snapshots (seen store calm normal) []).0.last_service_mode)
handle_all-Story_example = handle_all-Story store snapshots calm normal []
