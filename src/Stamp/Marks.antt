-- ===== src/Stamp/Marks.antt =====
-- What the steps on the blocks of a body leave (src/stamp.ts, src/experiments/strip-omo-reminder.ts).
use umans_gate.Base.{
  false, ◌≡◌, refl, ap, List, [], ◌∷◌, Option, none, some, Bool-cases, inl, inr, String, string_key,
  ◌==◌, arith,
}
use umans_gate.Breakpoints.{
  CacheControl, ContentBlock, Content, absent, text, blocks, Message, AnthropicBody,
}
use umans_gate.Stamp.{Fields}
use umans_gate.Stamp.Blocks.{
  lacks_ttl, set_ttl, ttl_block, ttl_blocks, ttl_content, ttl_messages, ttl_all, stamp_cache_ttl,
  is_omo_reminder_block, drop_reminders, drop_from_content, drop_from_first, strip_omo_reminder,
}
use umans_gate.Stamp.Run.{Honest, Honest-same}

-- A stamped breakpoint lacks nothing.
set_ttl-lacks :
    (ttl : String)
    → (ttl == "") ≡ false
    → (c : Option CacheControl) → lacks_ttl (set_ttl ttl c) ≡ false
set_ttl-lacks ttl set none = refl
set_ttl-lacks ttl set (some c) =
    rw set (elim (Bool-cases (c.kind == "ephemeral")) [ inl e ↦ rw e refl | inr e ↦ rw e refl ])

module _ {R : Type 0} (ttl : String) where
  ttl_block-zero : (b : ContentBlock R) → (ttl_block ttl b).1 ≡ 0 → (ttl_block ttl b).0 ≡ b
  ttl_block-zero b h = ground (arith, h)

  ttl_blocks-zero :
      (bs : List (ContentBlock R)) → (ttl_blocks ttl bs).1 ≡ 0 → (ttl_blocks ttl bs).0 ≡ bs
  ttl_blocks-zero [] h = refl
  ttl_blocks-zero (b ∷ bs) h =
      rw (ttl_block-zero b (omega (arith, h)), ttl_blocks-zero bs (omega (arith, h))) refl

  ttl_content-zero : (c : Content R) → (ttl_content ttl c).1 ≡ 0 → (ttl_content ttl c).0 ≡ c
  ttl_content-zero absent h = refl
  ttl_content-zero (text t) h = refl
  ttl_content-zero (blocks bs) h = ap blocks (ttl_blocks-zero bs h)

  ttl_messages-zero :
      (ms : List (Message R)) → (ttl_messages ttl ms).1 ≡ 0 → (ttl_messages ttl ms).0 ≡ ms
  ttl_messages-zero [] h = refl
  ttl_messages-zero (m ∷ ms) h =
      rw (ttl_content-zero m.content (omega (arith, h)), ttl_messages-zero ms (omega (arith, h)))
        refl

  ttl_all-zero : (o : Option (List (Message R))) → (ttl_all ttl o).1 ≡ 0 → (ttl_all ttl o).0 ≡ o
  ttl_all-zero none h = refl
  ttl_all-zero (some ms) h = ap some (ttl_messages-zero ms h)

  -- Where nothing is counted nothing was stamped.
  pub stamp_cache_ttl-zero :
      (body : AnthropicBody R)
      → (stamp_cache_ttl ttl body).1 ≡ 0
      → (stamp_cache_ttl ttl body).0 ≡ body
  unfolding stamp_cache_ttl
  stamp_cache_ttl-zero body h =
      rw
        (
          ttl_content-zero body.system (omega (arith, h)),
          ttl_all-zero body.messages (omega (arith, h)),
        )
        refl

module _ {R : Type 0} (ttl : String) (set : (ttl == "") ≡ false) where
  ttl_block_again :
      (b : ContentBlock R) → ttl_block ttl (ttl_block ttl b).0 ≡ ((ttl_block ttl b).0, 0)
  ttl_block_again b = elim (Bool-cases (lacks_ttl b.cache_control)) [
    | inl e ↦ rw (e, set_ttl-lacks ttl set b.cache_control) refl
    | inr e ↦ rw (e, e) refl
  ]

  ttl_blocks_again :
      (bs : List (ContentBlock R))
      → ttl_blocks ttl (ttl_blocks ttl bs).0 ≡ ((ttl_blocks ttl bs).0, 0)
  ttl_blocks_again [] = refl
  ttl_blocks_again (b ∷ bs) = rw (ttl_block_again b, ttl_blocks_again bs) refl

  ttl_content_again :
      (c : Content R) → ttl_content ttl (ttl_content ttl c).0 ≡ ((ttl_content ttl c).0, 0)
  ttl_content_again absent = refl
  ttl_content_again (text t) = refl
  ttl_content_again (blocks bs) = rw (ttl_blocks_again bs) refl

  ttl_messages_again :
      (ms : List (Message R))
      → ttl_messages ttl (ttl_messages ttl ms).0 ≡ ((ttl_messages ttl ms).0, 0)
  ttl_messages_again [] = refl
  ttl_messages_again (m ∷ ms) = rw (ttl_content_again m.content, ttl_messages_again ms) refl

  ttl_all_again :
      (o : Option (List (Message R))) → ttl_all ttl (ttl_all ttl o).0 ≡ ((ttl_all ttl o).0, 0)
  ttl_all_again none = refl
  ttl_all_again (some ms) = rw (ttl_messages_again ms) refl

  -- After the time to live is stamped no ephemeral breakpoint of a block lacks one: stamping again counts nothing
  -- and leaves the body as it is.
  pub stamp_cache_ttl_idem :
      (body : AnthropicBody R)
      → stamp_cache_ttl ttl (stamp_cache_ttl ttl body).0 ≡ ((stamp_cache_ttl ttl body).0, 0)
  unfolding stamp_cache_ttl
  stamp_cache_ttl_idem body = rw (ttl_content_again body.system, ttl_all_again body.messages) refl

drop_reminders-Honest : (bs : List (ContentBlock Fields)) → Honest bs (drop_reminders bs)
drop_reminders-Honest [] = Honest-same []
drop_reminders-Honest (b ∷ bs) = elim (Bool-cases (is_omo_reminder_block b)) [
  | inl e ↦ rw e (λ h. cc)
  | inr e ↦ rw e (λ h. ap (λ z. b ∷ z) (drop_reminders-Honest bs h))
]

drop_reminders_again :
    (bs : List (ContentBlock Fields))
    → drop_reminders (drop_reminders bs).0 ≡ ((drop_reminders bs).0, false)
drop_reminders_again [] = refl
drop_reminders_again (b ∷ bs) = elim (Bool-cases (is_omo_reminder_block b)) [
  | inl e ↦ rw e (drop_reminders_again bs)
  | inr e ↦ rw (e, e, drop_reminders_again bs) refl
]

drop_from_content_lem :
    (bs : List (ContentBlock Fields))
    → drop_from_content (blocks bs) ≡ (blocks (drop_reminders bs).0, (drop_reminders bs).1)
drop_from_content_lem bs = elim (Bool-cases (drop_reminders bs).1) [
  | inl e ↦ rw e refl
  | inr e ↦ rw (e, drop_reminders-Honest bs e) refl
]

drop_from_content_again :
    (c : Content Fields)
    → drop_from_content (drop_from_content c).0 ≡ ((drop_from_content c).0, false)
drop_from_content_again absent = refl
drop_from_content_again (text t) = refl
drop_from_content_again (blocks bs) =
    rw
      (
        drop_from_content_lem bs,
        drop_from_content_lem (drop_reminders bs).0,
        drop_reminders_again bs,
      )
      refl

drop_from_content-Honest : (c : Content Fields) → Honest c (drop_from_content c)
drop_from_content-Honest absent = Honest-same absent
drop_from_content-Honest (text t) = Honest-same (text t)
drop_from_content-Honest (blocks bs) =
    rw (drop_from_content_lem bs) (λ h. ap blocks (drop_reminders-Honest bs h))

drop_from_first-Honest : (o : Option (List (Message Fields))) → Honest o (drop_from_first o)
drop_from_first-Honest none h = refl
drop_from_first-Honest (some []) h = refl
drop_from_first-Honest (some (m ∷ ms)) h = rw (drop_from_content-Honest m.content h) refl

pub drop_from_first_again :
    (o : Option (List (Message Fields)))
    → drop_from_first (drop_from_first o).0 ≡ ((drop_from_first o).0, false)
drop_from_first_again none = refl
drop_from_first_again (some []) = refl
drop_from_first_again (some (m ∷ ms)) = rw (drop_from_content_again m.content) refl

-- A body in which no reminder was found is the body that came.
pub strip_omo_reminder-Honest :
    (body : AnthropicBody Fields) → Honest body (strip_omo_reminder body)
unfolding strip_omo_reminder
strip_omo_reminder-Honest body h = rw (drop_from_first-Honest body.messages h) refl

-- Stripping the reminder from a body it was stripped from finds none and leaves the body as it is.
pub strip_omo_reminder_idem :
    (body : AnthropicBody Fields)
    → strip_omo_reminder (strip_omo_reminder body).0 ≡ ((strip_omo_reminder body).0, false)
unfolding strip_omo_reminder
strip_omo_reminder_idem body = rw (drop_from_first_again body.messages) refl
