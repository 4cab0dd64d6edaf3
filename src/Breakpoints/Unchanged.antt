-- ===== src/Breakpoints/Unchanged.antt =====
-- Restamping touches nothing but breakpoints.
use umans_gate.Base.{ℕ, suc, ◌≡◌, refl, Bool, List, [], ◌∷◌, Option, none, some, arith, map, ◌&&◌}
use umans_gate.Breakpoints.{
  ContentBlock, Content, absent, text, blocks, Message, AnthropicBody, last_user, restamp_block,
  is_last, restamp_blocks, restamp_content, is_target, restamp_messages, strip_breakpoint,
  with_breakpoint, strip_all, restamp_first, restamp_system, restamp_breakpoints,
}

module _ {R : Type 0} where
  -- What is left of a body when all cache controls are taken off.
  abbrev pub bare_block : ContentBlock R → ContentBlock R
  bare_block b = record b { cache_control = none }

  abbrev pub bare_content : Content R → Content R
  bare_content (blocks bs) = blocks (map bare_block bs)
  bare_content c = c

  abbrev pub bare_message : Message R → Message R
  bare_message m = record m { content = bare_content m.content }

  abbrev pub bare_messages : Option (List (Message R)) → Option (List (Message R))
  bare_messages none = none
  bare_messages (some ms) = some (map bare_message ms)

  abbrev pub bare : AnthropicBody R → AnthropicBody R
  bare body = record body {
    messages = bare_messages body.messages;
    system = bare_content body.system;
  }

  bare-restamp_block :
      (should : Bool) (b : ContentBlock R) → bare_block (restamp_block should b).0 ≡ bare_block b
  unfolding restamp_block with_breakpoint strip_breakpoint
  bare-restamp_block should b = ground arith

  bare-restamp_blocks :
      (last : Bool) (bs : List (ContentBlock R))
      → map bare_block (restamp_blocks last bs).0 ≡ map bare_block bs
  unfolding restamp_blocks
  bare-restamp_blocks last [] = refl
  bare-restamp_blocks last (b ∷ bs) =
      rw (bare-restamp_block (last && is_last bs) b, bare-restamp_blocks last bs) refl

  bare-restamp_content :
      (last : Bool) (c : Content R) → bare_content (restamp_content last c).0 ≡ bare_content c
  unfolding restamp_content
  bare-restamp_content last absent = refl
  bare-restamp_content last (text t) = refl
  bare-restamp_content last (blocks bs) = ground (arith, bare-restamp_blocks last bs)

  bare-restamp_messages :
      (target : Option ℕ) (i : ℕ) (ms : List (Message R))
      → map bare_message (restamp_messages target i ms).0 ≡ map bare_message ms
  unfolding restamp_messages
  bare-restamp_messages target i [] = refl
  bare-restamp_messages target i (m ∷ ms) =
      rw
        (
          bare-restamp_content (is_target target i) m.content,
          bare-restamp_messages target (suc i) ms,
        )
        refl

  bare-strip_all :
      (bs : List (ContentBlock R)) → map bare_block (strip_all bs).0 ≡ map bare_block bs
  unfolding strip_all strip_breakpoint
  bare-strip_all [] = refl
  bare-strip_all (b ∷ bs) = ground (arith, bare-strip_all bs)

  bare-restamp_system : (c : Content R) → bare_content (restamp_system c).0 ≡ bare_content c
  unfolding restamp_system restamp_first with_breakpoint
  bare-restamp_system absent = refl
  bare-restamp_system (text t) = refl
  bare-restamp_system (blocks []) = refl
  bare-restamp_system (blocks (b ∷ bs)) = ground (arith, bare-strip_all bs)

  bare_at :
      (body : AnthropicBody R) (o : Option (List (Message R)))
      → body.messages ≡ o
      → bare (restamp_breakpoints body).0 ≡ bare body
  unfolding restamp_breakpoints
  bare_at body none e = ground (arith, e)
  bare_at body (some []) e = ground (arith, e)
  bare_at body (some (m ∷ ms)) e = ground (
    arith,
    e,
    bare-restamp_messages (last_user 0 (m ∷ ms)) 0 (m ∷ ms),
    bare-restamp_system body.system,
  )

  -- A restamped body differs from the body it was made of in nothing but cache controls.
  pub bare-restamp_breakpoints :
      (body : AnthropicBody R) → bare (restamp_breakpoints body).0 ≡ bare body
  bare-restamp_breakpoints body = bare_at body body.messages refl
