-- ===== src/Breakpoints/System.antt =====
-- The system prompt, and the whole body.
use umans_gate.Base.{
  ℕ, ◌≤◌, ◌≡◌, refl, ap, ◌∙◌, false, List, [], ◌∷◌, Option, none, some, arith, ◌||◌, any,
  if◌then◌else◌,
}
use umans_gate.Breakpoints.{
  ContentBlock, Content, absent, text, blocks, Message, AnthropicBody, can_hold, last_user,
  restamp_messages, strip_breakpoint, with_breakpoint, strip_all, restamp_first, restamp_system,
  restamp_breakpoints,
}
use umans_gate.Breakpoints.Layout.{
  marks, content_marks, message_marks, last_user-restamp, restamp_messages_again, target-marks,
  restamp_messages-same,
}

module _ {R : Type 0} where
  strip_all-steady : (bs : List (ContentBlock R)) → marks bs ≡ 0 → strip_all bs ≡ (bs, false)
  unfolding strip_all
  strip_all-steady [] h = refl
  strip_all-steady (b ∷ bs) h = ground (arith, h, strip_all-steady bs)

  marks-strip_all : (bs : List (ContentBlock R)) → marks (strip_all bs).0 ≡ 0
  unfolding strip_all strip_breakpoint
  marks-strip_all [] = refl
  marks-strip_all (b ∷ bs) = ground (arith, marks-strip_all bs)

  strip_all-same : (bs : List (ContentBlock R)) → (strip_all bs).1 ≡ false → (strip_all bs).0 ≡ bs
  unfolding strip_all
  strip_all-same [] h = refl
  strip_all-same (b ∷ bs) h = ground (arith, h, strip_all-same bs)

  restamp_first_again :
      (b : ContentBlock R) → restamp_first (restamp_first b).0 ≡ ((restamp_first b).0, false)
  unfolding restamp_first with_breakpoint
  restamp_first_again b = ground arith

  restamp_system_again :
      (c : Content R) → restamp_system (restamp_system c).0 ≡ ((restamp_system c).0, false)
  unfolding restamp_system
  restamp_system_again absent = refl
  restamp_system_again (text t) = refl
  restamp_system_again (blocks []) = refl
  restamp_system_again (blocks (b ∷ bs)) =
      ground (arith, restamp_first_again b, strip_all-steady (strip_all bs).0 (marks-strip_all bs))

  system-marks : (c : Content R) → content_marks (restamp_system c).0 ≤ 1
  unfolding restamp_system
  system-marks absent = omega arith
  system-marks (text t) = omega arith
  system-marks (blocks []) = omega arith
  system-marks (blocks (b ∷ bs)) = ground (arith, marks-strip_all bs, strip_all-same bs)

  system-same : (c : Content R) → (restamp_system c).1 ≡ false → (restamp_system c).0 ≡ c
  unfolding restamp_system
  system-same absent h = refl
  system-same (text t) h = refl
  system-same (blocks []) h = refl
  system-same (blocks (b ∷ bs)) h = ground (arith, h)

  -- The messages and the system prompt, restamped.
  abbrev stamped : AnthropicBody R → Message R → List (Message R) → AnthropicBody R
  stamped body m ms = record body {
    messages = some (restamp_messages (last_user 0 (m ∷ ms)) 0 (m ∷ ms)).0;
    system = (restamp_system body.system).0;
  }

  -- An unchanged body is the restamped one as well.
  restamp_breakpoints_lem :
      (body : AnthropicBody R) (m : Message R) (ms : List (Message R))
      → body.messages ≡ some (m ∷ ms)
      → restamp_breakpoints body ≡ (
        stamped body m ms,
        (restamp_messages (last_user 0 (m ∷ ms)) 0 (m ∷ ms)).1 || (restamp_system body.system).1,
      )
  unfolding restamp_breakpoints
  restamp_breakpoints_lem body m ms e =
      ground
        (arith, e, restamp_messages-same (last_user 0 (m ∷ ms)) 0 (m ∷ ms), system-same body.system)

  restamp_none :
      (body : AnthropicBody R) → body.messages ≡ none → restamp_breakpoints body ≡ (body, false)
  unfolding restamp_breakpoints
  restamp_none body e = ground (arith, e)

  restamp_empty :
      (body : AnthropicBody R) → body.messages ≡ some [] → restamp_breakpoints body ≡ (body, false)
  unfolding restamp_breakpoints
  restamp_empty body e = ground (arith, e)

  steady :
      (body : AnthropicBody R) (m : Message R) (ms : List (Message R))
      → body.messages ≡ some (m ∷ ms)
      → restamp_messages (last_user 0 (m ∷ ms)) 0 (m ∷ ms) ≡ (m ∷ ms, false)
      → restamp_system body.system ≡ (body.system, false)
      → restamp_breakpoints body ≡ (body, false)
  unfolding restamp_breakpoints
  steady body m ms e f g = ground (arith, e, f, g)

  stamped_again :
      (body : AnthropicBody R) (m : Message R) (ms : List (Message R))
      → restamp_breakpoints (stamped body m ms) ≡ (stamped body m ms, false)
  unfolding restamp_messages
  stamped_again body m ms =
      let t = last_user 0 (m ∷ ms) in
      let again = (restamp_messages t 0 (m ∷ ms)).0 in
      steady (stamped body m ms) _ (restamp_messages t 1 ms).0 refl
        (ap (λ u. restamp_messages u 0 again) (last_user-restamp t 0 0 (m ∷ ms))
          ∙ restamp_messages_again t 0 (m ∷ ms))
        (restamp_system_again body.system)

  idem_at :
      (body : AnthropicBody R) (o : Option (List (Message R)))
      → body.messages ≡ o
      → restamp_breakpoints (restamp_breakpoints body).0 ≡ ((restamp_breakpoints body).0, false)
  idem_at body none e = rw (restamp_none body e) (restamp_none body e)
  idem_at body (some []) e = rw (restamp_empty body e) (restamp_empty body e)
  idem_at body (some (m ∷ ms)) e =
      rw (restamp_breakpoints_lem body m ms e) (stamped_again body m ms)

  same_at :
      (body : AnthropicBody R) (o : Option (List (Message R)))
      → body.messages ≡ o
      → (restamp_breakpoints body).1 ≡ false
      → (restamp_breakpoints body).0 ≡ body
  unfolding restamp_breakpoints
  same_at body none e h = ground (arith, e)
  same_at body (some []) e h = ground (arith, e)
  same_at body (some (m ∷ ms)) e h = ground (arith, e, h)

  -- A body that is not said to change is the body that came.
  pub restamp_breakpoints-same :
      (body : AnthropicBody R)
      → (restamp_breakpoints body).1 ≡ false
      → (restamp_breakpoints body).0 ≡ body
  restamp_breakpoints-same body h = same_at body body.messages refl h

  rest_at :
      (body : AnthropicBody R) (o : Option (List (Message R)))
      → body.messages ≡ o
      → (restamp_breakpoints body).0.rest ≡ body.rest
  rest_at body none e = rw (restamp_none body e) refl
  rest_at body (some []) e = rw (restamp_empty body e) refl
  rest_at body (some (m ∷ ms)) e = rw (restamp_breakpoints_lem body m ms e) refl

  -- What else a body holds stays.
  pub restamp_breakpoints-rest :
      (body : AnthropicBody R) → (restamp_breakpoints body).0.rest ≡ body.rest
  restamp_breakpoints-rest body = rest_at body body.messages refl

  -- Restamping a restamped body leaves it as it is and says so.
  pub restamp_breakpoints_idem :
      (body : AnthropicBody R)
      → restamp_breakpoints (restamp_breakpoints body).0 ≡ ((restamp_breakpoints body).0, false)
  restamp_breakpoints_idem body = idem_at body body.messages refl

  abbrev pub body_marks : AnthropicBody R → ℕ
  body_marks body = elim body.messages [ none ↦ 0 | some ms ↦ message_marks ms ]

  -- The messages of a restamped body have one breakpoint if some user message has blocks, else none,
  -- and its system prompt has at most one.
  pub restamp_breakpoints-marks :
      (body : AnthropicBody R) (m : Message R) (ms : List (Message R))
      → body.messages ≡ some (m ∷ ms)
      → (body_marks (restamp_breakpoints body).0 ≡ (if any can_hold (m ∷ ms) then 1 else 0))
        × (content_marks (restamp_breakpoints body).0.system ≤ 1)
  restamp_breakpoints-marks body m ms e =
      rw (restamp_breakpoints_lem body m ms e)
        (target-marks 0 (m ∷ ms) (last_user 0 (m ∷ ms)) refl, system-marks body.system)
