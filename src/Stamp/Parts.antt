-- ===== src/Stamp/Parts.antt =====
-- What the pipeline leaves of the system and the messages of a body (src/stamp-pipeline.ts).
use umans_gate.Base.{
  ◌≡◌, refl, sym, ap, ◌∙◌, List, [], ◌∷◌, Option, none, some, String, arith, map, Bool-cases, inl,
  inr,
}
use umans_gate.Breakpoints.{
  ContentBlock, Content, absent, text, blocks, Message, restamp_breakpoints,
}
use umans_gate.Breakpoints.Unchanged.{
  bare_block, bare_content, bare_message, bare_messages, bare-restamp_breakpoints,
}
use umans_gate.Stamp.{Fields}
use umans_gate.Stamp.Blocks.{
  ttl_block, ttl_blocks, ttl_content, ttl_messages, ttl_all, stamp_cache_ttl, is_omo_reminder_block,
  drop_reminders, drop_from_content, drop_from_first, strip_omo_reminder,
}
use umans_gate.Stamp.Context.{StampContext, Body}
use umans_gate.Stamp.Pipeline.{stamp}
use umans_gate.Stamp.Pipeline
use umans_gate.Stamp.Run.{AllKeep, run_steps-keeps}
use umans_gate.Stamp.Marks.{drop_from_first_again}

-- Cache controls aside the system is the same, and so are the messages but for the reminders in the first of them.
abbrev pub SameParts : Body → Body → Type 0
SameParts before after =
    (bare_content after.system ≡ bare_content before.system)
    × ((drop_from_first (bare_messages after.messages)).0
        ≡ (drop_from_first (bare_messages before.messages)).0)

module _ (ttl : String) where
  bare-ttl_block : (b : ContentBlock Fields) → bare_block (ttl_block ttl b).0 ≡ bare_block b
  bare-ttl_block b = ground arith

  bare-ttl_blocks :
      (bs : List (ContentBlock Fields)) → map bare_block (ttl_blocks ttl bs).0 ≡ map bare_block bs
  bare-ttl_blocks [] = refl
  bare-ttl_blocks (b ∷ bs) = rw (bare-ttl_block b, bare-ttl_blocks bs) refl

  bare-ttl_content : (c : Content Fields) → bare_content (ttl_content ttl c).0 ≡ bare_content c
  bare-ttl_content absent = refl
  bare-ttl_content (text t) = refl
  bare-ttl_content (blocks bs) = ap blocks (bare-ttl_blocks bs)

  bare-ttl_messages :
      (ms : List (Message Fields)) → map bare_message (ttl_messages ttl ms).0 ≡ map bare_message ms
  bare-ttl_messages [] = refl
  bare-ttl_messages (m ∷ ms) = rw (bare-ttl_content m.content, bare-ttl_messages ms) refl

  bare-ttl_all :
      (o : Option (List (Message Fields))) → bare_messages (ttl_all ttl o).0 ≡ bare_messages o
  bare-ttl_all none = refl
  bare-ttl_all (some ms) = ap some (bare-ttl_messages ms)

drop_reminders-bare :
    (bs : List (ContentBlock Fields))
    → drop_reminders (map bare_block bs)
      ≡ (map bare_block (drop_reminders bs).0, (drop_reminders bs).1)
drop_reminders-bare [] = refl
drop_reminders-bare (b ∷ bs) = elim (Bool-cases (is_omo_reminder_block b)) [
  | inl e ↦ rw (drop_reminders-bare bs, e) refl
  | inr e ↦ rw (drop_reminders-bare bs, e) refl
]

drop_from_content-bare :
    (c : Content Fields)
    → drop_from_content (bare_content c)
      ≡ (bare_content (drop_from_content c).0, (drop_from_content c).1)
drop_from_content-bare absent = refl
drop_from_content-bare (text t) = refl
drop_from_content-bare (blocks bs) = elim (Bool-cases (drop_reminders bs).1) [
  | inl e ↦ rw (drop_reminders-bare bs, e) refl
  | inr e ↦ rw (drop_reminders-bare bs, e) refl
]

drop_from_first-bare :
    (o : Option (List (Message Fields)))
    → (drop_from_first (bare_messages o)).0 ≡ bare_messages (drop_from_first o).0
drop_from_first-bare none = refl
drop_from_first-bare (some []) = refl
drop_from_first-bare (some (m ∷ ms)) = rw (drop_from_content-bare m.content) refl

dropped_again :
    (o : Option (List (Message Fields)))
    → (drop_from_first (bare_messages (drop_from_first o).0)).0
      ≡ (drop_from_first (bare_messages o)).0
dropped_again o =
    drop_from_first-bare (drop_from_first o).0
    ∙ (ap (λ r. bare_messages r.0) (drop_from_first_again o) ∙ sym (drop_from_first-bare o))

-- Every step keeps the parts.
module _ (ctx : StampContext) (body : Body) where
  restamp-SameParts : (b : Body) → SameParts body b → SameParts body (restamp_breakpoints b).0
  restamp-SameParts b (s, m) =
      let same = bare-restamp_breakpoints b in
      (ap (λ x. x.system) same ∙ s, ap (λ x. (drop_from_first x.messages).0) same ∙ m)

  ttl-SameParts : (b : Body) → SameParts body b → SameParts body (Pipeline.apply_cache_ttl b).0
  unfolding stamp_cache_ttl
  ttl-SameParts b (s, m) =
      let value = Pipeline.stamp_cache_ttl_value in
      (
        bare-ttl_content value b.system ∙ s,
        ap (λ x. (drop_from_first x).0) (bare-ttl_all value b.messages) ∙ m,
      )

  strip-SameParts : (b : Body) → SameParts body b → SameParts body (strip_omo_reminder b).0
  unfolding strip_omo_reminder
  strip-SameParts b (s, m) = (s, dropped_again b.messages ∙ m)

  steps-SameParts : AllKeep ctx (SameParts body) Pipeline.stamp_pipeline
  steps-SameParts = (
    (λ b on h. restamp-SameParts b h),
    (
      (λ b on h. ttl-SameParts b h),
      (
        (λ b on h. h),
        (
          (λ b on h. h),
          (
            (λ b on h. h),
            (
              (λ b on h. h),
              (
                (λ b on h. h),
                ((λ b on h. h), ((λ b on h. h), ((λ b on h. strip-SameParts b h), refl))),
              ),
            ),
          ),
        ),
      ),
    ),
  )

-- The pipeline changes no block of the system or of the messages but its cache control, and leaves out none but
-- reminders in the first message, where the extra body of the rule names neither.
pub stamp-SameParts : (ctx : StampContext) (body : Body) → SameParts body (stamp ctx body).0
unfolding stamp
stamp-SameParts ctx body =
    run_steps-keeps ctx (SameParts body) Pipeline.stamp_pipeline body (steps-SameParts ctx body)
      (refl, refl)
