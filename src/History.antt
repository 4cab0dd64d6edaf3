-- ===== src/History.antt =====
-- The detector of changes of the account's standing (src/usage-history/events.ts).
-- A text of the source is a String; a time is a natural number. Logging is left out.
pub mod Story
mod Tests
use umans_gate.Base.{
  ℕ, Bool, true, false, not, ◌&&◌, List, [], ◌∷◌, Option, none, some, if◌then◌else◌, String, ◌==◌,
  string_key, nat_beq, nat_key, Key,
}

pub record PriorityTuple : Type 0 where
  pub priority_low : Bool
  pub boxed_until : Option ℕ
  pub boxed_reason : Option String
  pub units_demoted : Bool
  pub demoted_until : Option ℕ

pub record ServiceModeTuple : Type 0 where
  pub current : String
  pub resets_at : Option ℕ

-- What the detector reads of a snapshot.
pub record UsageSnapshot : Type 0 where
  pub ok : Bool
  pub priority : PriorityTuple
  pub service_mode : ServiceModeTuple
  pub fetched_at : ℕ

-- `===` on a value that may be null.
abbrev pub same_option {κ} : {K : Type κ} ⦃e : Key K⦄ → Option K → Option K → Bool
same_option none none = true
same_option (some a) (some b) = a == b
same_option _ _ = false

abbrev pub same_bool : Bool → Bool → Bool
same_bool true b = b
same_bool false b = not b

abbrev pub is_null {κ} : {K : Type κ} → Option K → Bool
is_null none = true
is_null (some a) = false

unfoldable pub is_default_priority : PriorityTuple → Bool
is_default_priority t =
    not t.priority_low
    && is_null t.boxed_until
    && is_null t.boxed_reason
    && not t.units_demoted
    && is_null t.demoted_until

unfoldable pub is_default_service_mode : ServiceModeTuple → Bool
is_default_service_mode t = (t.current == "normal") && is_null t.resets_at

unfoldable pub same_priority : PriorityTuple → PriorityTuple → Bool
same_priority a b =
    same_bool a.priority_low b.priority_low
    && same_option a.boxed_until b.boxed_until
    && same_option a.boxed_reason b.boxed_reason
    && same_bool a.units_demoted b.units_demoted
    && same_option a.demoted_until b.demoted_until

unfoldable pub same_service_mode : ServiceModeTuple → ServiceModeTuple → Bool
same_service_mode a b = (a.current == b.current) && same_option a.resets_at b.resets_at

pub data EventTransition : Type 0 where
  onset : EventTransition
  morph : EventTransition
  resolved : EventTransition

pub data TupleKind : Type 0 where
  priority : TupleKind
  service_mode : TupleKind

pub record Input : Type 0 where
  pub snap : UsageSnapshot
  pub transition : EventTransition
  pub tuple_kind : TupleKind
  pub previous_event_id : Option ℕ

-- The two operations of the store that the detector calls.
pub record RecordEventAccessor (S : Type 0) : Type 0 where
  pub record_event : Input → S → S
  pub get_open_event_for_tuple : TupleKind → S → Option ℕ

pub record Emissions : Type 0 where
  pub priority : Option EventTransition
  pub service_mode : Option EventTransition

pub record Detector : Type 0 where
  pub last_priority : Option PriorityTuple
  pub last_service_mode : Option ServiceModeTuple

abbrev pub new : Detector
new = record { last_priority = none; last_service_mode = none }

-- By whether the tuple was, and is, the default.
abbrev pub transition_of : Bool → Bool → EventTransition
transition_of prev_default current_default =
    if prev_default && not current_default
    then onset
    else if not prev_default && current_default
    then resolved
    else morph

module _ {S : Type 0} (store : RecordEventAccessor S) where
  abbrev pub previous_id : EventTransition → TupleKind → S → Option ℕ
  previous_id onset kind s = none
  previous_id morph kind s = store.get_open_event_for_tuple kind s
  previous_id resolved kind s = store.get_open_event_for_tuple kind s

  -- The end of both emitters.
  abbrev pub emit : TupleKind → UsageSnapshot → EventTransition → S → S
  emit kind snap transition s =
      store.record_event
        (record {
          snap = snap;
          transition = transition;
          tuple_kind = kind;
          previous_event_id = previous_id transition kind s;
        })
        s

  abbrev pub priority_transition : PriorityTuple → PriorityTuple → EventTransition
  priority_transition current prev =
      transition_of (is_default_priority prev) (is_default_priority current)

  abbrev pub service_mode_transition : ServiceModeTuple → ServiceModeTuple → EventTransition
  service_mode_transition current prev =
      transition_of (is_default_service_mode prev) (is_default_service_mode current)

  -- The two comparisons, each with what it emits and the store after it.
  abbrev pub compare_priority : UsageSnapshot → PriorityTuple → S → Option EventTransition × S
  compare_priority snap prev s = if same_priority snap.priority prev then (none, s) else (
    some (priority_transition snap.priority prev),
    emit priority snap (priority_transition snap.priority prev) s,
  )

  abbrev pub compare_service_mode :
      UsageSnapshot → ServiceModeTuple → S → Option EventTransition × S
  compare_service_mode snap prev s =
      if same_service_mode snap.service_mode prev then (none, s) else (
        some (service_mode_transition snap.service_mode prev),
        emit service_mode snap (service_mode_transition snap.service_mode prev) s,
      )

  -- A tuple that did not change stays the last one.
  abbrev pub seen_priority : UsageSnapshot → PriorityTuple → PriorityTuple
  seen_priority snap prev = if same_priority snap.priority prev then prev else snap.priority

  abbrev pub seen_service_mode : UsageSnapshot → ServiceModeTuple → ServiceModeTuple
  seen_service_mode snap prev =
      if same_service_mode snap.service_mode prev then prev else snap.service_mode

  abbrev pub seed : UsageSnapshot → Detector
  seed snap = record {
    last_priority = some snap.priority;
    last_service_mode = some snap.service_mode;
  }

  abbrev pub silent : Emissions
  silent = record { priority = none; service_mode = none }

  abbrev pub compare :
      UsageSnapshot
      → Option PriorityTuple
      → Option ServiceModeTuple
      → S
      → Detector × (S × Emissions)
  compare snap (some p) (some m) s =
      let (e, s₁) = compare_priority snap p s in
      let (f, s₂) = compare_service_mode snap m s₁ in
      (
        record {
          last_priority = some (seen_priority snap p);
          last_service_mode = some (seen_service_mode snap m);
        },
        (s₂, record { priority = e; service_mode = f }),
      )
  compare snap _ _ s = (seed snap, (s, silent))

  unfoldable pub handle_snapshot : UsageSnapshot → Detector → S → Detector × (S × Emissions)
  handle_snapshot snap d s =
      if snap.ok then compare snap d.last_priority d.last_service_mode s else (d, (s, silent))

  -- Snapshots one after another, with what each emits.
  unfoldable pub handle_all : List UsageSnapshot → Detector → S → Detector × (S × List Emissions)
  unfolding handle_snapshot
  handle_all [] d s = (d, (s, []))
  handle_all (snap ∷ snaps) d s =
      let (d₁, (s₁, e)) = handle_snapshot snap d s in
      let (d₂, (s₂, es)) = handle_all snaps d₁ s₁ in (d₂, (s₂, e ∷ es))
