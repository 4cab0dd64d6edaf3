-- ===== src/History/Story.antt =====
-- The events of one tuple tell a story: onset, changes, resolution, and again (src/usage-history/events.ts).
use umans_gate.Base.{
  Bool, true, false, not, ◌&&◌, ◌≡◌, refl, sym, ◌∙◌, List, [], ◌∷◌, Option, none, some, Bool-cases,
  inl, inr, string_key, nat_key, Key,
}
use mathlib.Core.Bool.{true≢false}
use umans_gate.History.{
  PriorityTuple, ServiceModeTuple, UsageSnapshot, same_option, same_bool, is_null,
  is_default_priority, is_default_service_mode, same_priority, same_service_mode, EventTransition,
  onset, morph, resolved, RecordEventAccessor, Emissions, Detector, transition_of, handle_snapshot,
  handle_all,
}

-- The events that may follow, from a tuple that is degraded or not to one that is or is not.
pub data Story : Bool → List EventTransition → Bool → Type 0 where
  over : {degraded : Bool} → Story degraded [] degraded
  begins :
      {end : Bool} {events : List EventTransition}
      → Story true events end
      → Story false (onset ∷ events) end
  changes :
      {end : Bool} {events : List EventTransition}
      → Story true events end
      → Story true (morph ∷ events) end
  resolves :
      {end : Bool} {events : List EventTransition}
      → Story false events end
      → Story true (resolved ∷ events) end

abbrev pub told : (Emissions → Option EventTransition) → List Emissions → List EventTransition
told of [] = []
told of (e ∷ es) = elim (of e) [ none ↦ told of es | some t ↦ t ∷ told of es ]

-- Degraded is a tuple that is there and is not the default.
abbrev pub degraded : {T : Type 0} → (T → Bool) → Option T → Bool
degraded is_default none = false
degraded is_default (some t) = not (is_default t)

and-true : (a b : Bool) → (a && b) ≡ true → (a ≡ true) × (b ≡ true)
and-true true b h = (refl, h)
and-true false b h = cc

both_null :
    {K : Type 0} ⦃e : Key K⦄ (a b : Option K)
    → is_null a ≡ true
    → is_null b ≡ true
    → same_option a b ≡ true
both_null none none h k = refl
both_null none (some b) h k = cc
both_null (some a) b h k = cc

both_false : (a b : Bool) → not a ≡ true → not b ≡ true → same_bool a b ≡ true
both_false false false h k = refl
both_false false true h k = cc
both_false true b h k = cc

-- There is one default.
same-default_priority :
    (a b : PriorityTuple)
    → is_default_priority a ≡ true
    → is_default_priority b ≡ true
    → same_priority a b ≡ true
unfolding is_default_priority same_priority
same-default_priority a b h k =
    let (a₄, a₅) = and-true _ _ h in
    let (a₃, a₆) = and-true _ _ a₄ in
    let (a₂, a₇) = and-true _ _ a₃ in
    let (a₁, a₈) = and-true _ _ a₂ in
    let (b₄, b₅) = and-true _ _ k in
    let (b₃, b₆) = and-true _ _ b₄ in
    let (b₂, b₇) = and-true _ _ b₃ in
    let (b₁, b₈) = and-true _ _ b₂ in
    rw
      (
        both_false a.priority_low b.priority_low a₁ b₁,
        both_null a.boxed_until b.boxed_until a₈ b₈,
        both_null a.boxed_reason b.boxed_reason a₇ b₇,
        both_false a.units_demoted b.units_demoted a₆ b₆,
        both_null a.demoted_until b.demoted_until a₅ b₅,
      )
      refl

same-default_service_mode :
    (a b : ServiceModeTuple)
    → is_default_service_mode a ≡ true
    → is_default_service_mode b ≡ true
    → same_service_mode a b ≡ true
unfolding is_default_service_mode same_service_mode
same-default_service_mode a b h k =
    let (a₁, a₂) = and-true _ _ h in
    let (b₁, b₂) = and-true _ _ k in
    rw
      (
        (string_key.agree_iff a.current b.current).1 (
            (string_key.agree_iff a.current "normal").0 a₁
            ∙ sym ((string_key.agree_iff b.current "normal").0 b₁)),
        both_null a.resets_at b.resets_at a₂ b₂,
      )
      refl

-- A change from the default to the default is none.
Story-cons :
    (prev current end : Bool) (events : List EventTransition)
    → (prev ≡ true → current ≡ true → true ≡ false)
    → Story (not current) events end
    → Story (not prev) (transition_of prev current ∷ events) end
Story-cons true true end events h story = absurd (true≢false (h refl refl))
Story-cons true false end events h story = begins story
Story-cons false true end events h story = resolves story
Story-cons false false end events h story = changes story

module _ {S : Type 0} (store : RecordEventAccessor S) where
  abbrev pub seen : PriorityTuple → ServiceModeTuple → Detector
  seen p m = record { last_priority = some p; last_service_mode = some m }

  priority-Story :
      (snaps : List UsageSnapshot) (p : PriorityTuple) (m : ServiceModeTuple) (s : S)
      → let r = handle_all store snaps (seen p m) s in
        Story
          (not (is_default_priority p))
          (told (λ e. e.priority) r.1.1)
          (degraded is_default_priority r.0.last_priority)
  unfolding handle_all handle_snapshot
  priority-Story [] p m s = over
  priority-Story (snap ∷ snaps) p m s = elim (Bool-cases snap.ok) [
    | inr e ↦ rw e (priority-Story snaps p m s)
    | inl e ↦ elim (Bool-cases (same_priority snap.priority p)) [
      | inl f ↦ rw (e, f) (priority-Story snaps p _ _)
      | inr f ↦
          rw (e, f)
            (Story-cons (is_default_priority p) (is_default_priority snap.priority) _ _
              (λ h k. sym (same-default_priority snap.priority p k h) ∙ f)
              (priority-Story snaps snap.priority _ _))
    ]
  ]

  service_mode-Story :
      (snaps : List UsageSnapshot) (p : PriorityTuple) (m : ServiceModeTuple) (s : S)
      → let r = handle_all store snaps (seen p m) s in
        Story
          (not (is_default_service_mode m))
          (told (λ e. e.service_mode) r.1.1)
          (degraded is_default_service_mode r.0.last_service_mode)
  unfolding handle_all handle_snapshot
  service_mode-Story [] p m s = over
  service_mode-Story (snap ∷ snaps) p m s = elim (Bool-cases snap.ok) [
    | inr e ↦ rw e (service_mode-Story snaps p m s)
    | inl e ↦ elim (Bool-cases (same_service_mode snap.service_mode m)) [
      | inl f ↦ rw (e, f) (service_mode-Story snaps _ m _)
      | inr f ↦
          rw (e, f)
            (Story-cons (is_default_service_mode m) (is_default_service_mode snap.service_mode) _ _
              (λ h k. sym (same-default_service_mode snap.service_mode m k h) ∙ f)
              (service_mode-Story snaps _ snap.service_mode _))
    ]
  ]

  -- From a detector that has seen a snapshot, whatever snapshots come, the transitions emitted of the priority, and those
  -- of the service mode, tell a story: an onset only of what was not degraded, changes and a resolution only of what
  -- was, up to the tuple that is seen last.
  pub handle_all-Story :
      (snaps : List UsageSnapshot) (p : PriorityTuple) (m : ServiceModeTuple) (s : S)
      → let r = handle_all store snaps (seen p m) s in
        Story
          (not (is_default_priority p))
          (told (λ e. e.priority) r.1.1)
          (degraded is_default_priority r.0.last_priority)
        × Story
            (not (is_default_service_mode m))
            (told (λ e. e.service_mode) r.1.1)
            (degraded is_default_service_mode r.0.last_service_mode)
  handle_all-Story snaps p m s = (priority-Story snaps p m s, service_mode-Story snaps p m s)
