-- ===== src/Breakpoints/Layout.antt =====
-- Where the breakpoints are after a body is restamped, and that a second time changes nothing.
use umans_gate.Base.{
  ℕ, suc, ◌+◌, ◌≤◌, ◌<◌, ◌≡◌, refl, Bool, true, false, List, [], ◌∷◌, Option, none, some, arith,
  Bool-cases, Option-cases, inl, inr, ◌&&◌, any, if◌then◌else◌,
}
use umans_gate.Breakpoints.{
  ContentBlock, Content, absent, text, blocks, Message, has_breakpoint, has_blocks, can_hold,
  last_user, restamp_block, is_last, restamp_blocks, restamp_content, is_target, restamp_messages,
  strip_breakpoint, with_breakpoint,
}

module _ {R : Type 0} where
  restamp_block-has :
      (should : Bool) (b : ContentBlock R) → has_breakpoint (restamp_block should b).0 ≡ should
  unfolding restamp_block with_breakpoint strip_breakpoint
  restamp_block-has should b = ground arith

  restamp_block-steady :
      (should : Bool) (b : ContentBlock R)
      → has_breakpoint b ≡ should
      → restamp_block should b ≡ (b, false)
  unfolding restamp_block
  restamp_block-steady should b h = ground (arith, h)

  is_last-restamp :
      (last : Bool) (bs : List (ContentBlock R)) → is_last (restamp_blocks last bs).0 ≡ is_last bs
  unfolding restamp_blocks
  is_last-restamp last [] = refl
  is_last-restamp last (b ∷ bs) = refl

  restamp_blocks_again :
      (last : Bool) (bs : List (ContentBlock R))
      → restamp_blocks last (restamp_blocks last bs).0 ≡ ((restamp_blocks last bs).0, false)
  unfolding restamp_blocks
  restamp_blocks_again last [] = refl
  restamp_blocks_again last (b ∷ bs) =
      rw
        (
          is_last-restamp last bs,
          restamp_block-steady (last && is_last bs) (restamp_block (last && is_last bs) b).0
              (restamp_block-has (last && is_last bs) b),
          restamp_blocks_again last bs,
        )
        refl

  -- How many blocks carry a breakpoint.
  abbrev pub marks : List (ContentBlock R) → ℕ
  marks [] = 0
  marks (b ∷ bs) = (if has_breakpoint b then 1 else 0) + marks bs

  abbrev pub content_marks : Content R → ℕ
  content_marks (blocks bs) = marks bs
  content_marks _ = 0

  abbrev pub message_marks : List (Message R) → ℕ
  message_marks [] = 0
  message_marks (m ∷ ms) = content_marks m.content + message_marks ms

  marks-restamp :
      (last : Bool) (bs : List (ContentBlock R))
      → marks (restamp_blocks last bs).0 ≡ (if last && has_blocks (blocks bs) then 1 else 0)
  unfolding restamp_blocks
  marks-restamp last [] = ground arith
  marks-restamp last (b ∷ []) = ground (arith, restamp_block-has (last && true) b)
  marks-restamp last (b ∷ c ∷ bs) =
      ground (arith, restamp_block-has (last && false) b, marks-restamp last (c ∷ bs))

  restamp_content_again :
      (last : Bool) (c : Content R)
      → restamp_content last (restamp_content last c).0 ≡ ((restamp_content last c).0, false)
  unfolding restamp_content
  restamp_content_again last absent = refl
  restamp_content_again last (text t) = refl
  restamp_content_again last (blocks bs) = ground (arith, restamp_blocks_again last bs)

  restamp_blocks-same :
      (last : Bool) (bs : List (ContentBlock R))
      → (restamp_blocks last bs).1 ≡ false
      → (restamp_blocks last bs).0 ≡ bs
  unfolding restamp_blocks restamp_block
  restamp_blocks-same last [] h = refl
  restamp_blocks-same last (b ∷ bs) h = ground (arith, h, restamp_blocks-same last bs)

  content_marks-restamp :
      (last : Bool) (c : Content R)
      → content_marks (restamp_content last c).0 ≡ (if last && has_blocks c then 1 else 0)
  unfolding restamp_content
  content_marks-restamp last absent = ground arith
  content_marks-restamp last (text t) = ground arith
  content_marks-restamp last (blocks bs) =
      ground (arith, marks-restamp last bs, restamp_blocks-same last bs)

  has_blocks-restamp :
      (last : Bool) (c : Content R) → has_blocks (restamp_content last c).0 ≡ has_blocks c
  unfolding restamp_content restamp_blocks
  has_blocks-restamp last absent = refl
  has_blocks-restamp last (text t) = refl
  has_blocks-restamp last (blocks []) = refl
  has_blocks-restamp last (blocks (b ∷ bs)) = ground arith

  pub last_user-restamp :
      (target : Option ℕ) (i j : ℕ) (ms : List (Message R))
      → last_user j (restamp_messages target i ms).0 ≡ last_user j ms
  unfolding last_user restamp_messages
  last_user-restamp target i j [] = refl
  last_user-restamp target i j (m ∷ ms) = ground (
    arith,
    last_user-restamp target (suc i) (suc j) ms,
    has_blocks-restamp (is_target target i) m.content,
  )

  pub restamp_messages_again :
      (target : Option ℕ) (i : ℕ) (ms : List (Message R))
      → restamp_messages target i (restamp_messages target i ms).0
        ≡ ((restamp_messages target i ms).0, false)
  unfolding restamp_messages
  restamp_messages_again target i [] = refl
  restamp_messages_again target i (m ∷ ms) =
      rw
        (
          restamp_messages_again target (suc i) ms,
          restamp_content_again (is_target target i) m.content,
        )
        refl

  restamp_content-same :
      (last : Bool) (c : Content R)
      → (restamp_content last c).1 ≡ false
      → (restamp_content last c).0 ≡ c
  unfolding restamp_content
  restamp_content-same last absent h = refl
  restamp_content-same last (text t) h = refl
  restamp_content-same last (blocks bs) h = ground (arith, h)

  pub restamp_messages-same :
      (target : Option ℕ) (i : ℕ) (ms : List (Message R))
      → (restamp_messages target i ms).1 ≡ false
      → (restamp_messages target i ms).0 ≡ ms
  unfolding restamp_messages
  restamp_messages-same target i [] h = refl
  restamp_messages-same target i (m ∷ ms) h = ground (
    arith,
    h,
    restamp_messages-same target (suc i) ms,
    restamp_content-same (is_target target i) m.content,
  )

  -- No mark where the target lies before the messages.
  marks_before :
      (j i : ℕ) (ms : List (Message R))
      → j < i
      → message_marks (restamp_messages (some j) i ms).0 ≡ 0
  unfolding restamp_messages
  marks_before j i [] h = refl
  marks_before j i (m ∷ ms) h = ground (
    arith,
    h,
    marks_before j (suc i) ms (omega (arith, h)),
    content_marks-restamp (is_target (some j) i) m.content,
  )

  last_user-ge : (i j : ℕ) (ms : List (Message R)) → last_user i ms ≡ some j → i ≤ j
  unfolding last_user
  last_user-ge i j [] h = cc
  last_user-ge i j (m ∷ ms) h = ground (arith, h, last_user-ge (suc i) j ms)

  any-last_user :
      (i j : ℕ) (ms : List (Message R)) → last_user i ms ≡ some j → any can_hold ms ≡ true
  unfolding last_user
  any-last_user i j [] h = cc
  any-last_user i j (m ∷ ms) h = ground (arith, h, any-last_user (suc i) j ms)

  pub target-marks :
      (i : ℕ) (ms : List (Message R)) (o : Option ℕ)
      → last_user i ms ≡ o
      → message_marks (restamp_messages o i ms).0 ≡ (if any can_hold ms then 1 else 0)
  unfolding last_user restamp_messages
  target-marks i [] o h = refl
  target-marks i (m ∷ ms) o h =
      let head = content_marks-restamp (is_target o i) m.content in
      elim (Option-cases (last_user (suc i) ms)) [
        | inl e ↦ elim (Bool-cases (can_hold m)) [
          | inl y ↦
              let f : some i ≡ o = ground (arith, h, e, y) in
              ground (arith, f, y, head, marks_before i (suc i) ms (omega arith))
          | inr n ↦
              let f : none ≡ o = ground (arith, h, e, n) in
              ground (arith, f, e, n, head, target-marks (suc i) ms none e)
        ]
        | inr (j, e) ↦
            let f : some j ≡ o = ground (arith, h, e) in
            ground (
              arith,
              f,
              e,
              head,
              last_user-ge (suc i) j ms e,
              target-marks (suc i) ms (some j) e,
              any-last_user (suc i) j ms e,
            )
      ]
