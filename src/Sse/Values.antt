-- ===== src/Sse/Values.antt =====
-- The values that the two parsers of src/usage/sse-parse.ts read do not depend on how the stream was cut.
use umans_gate.Base.{
  ℕ, suc, ◌≡◌, refl, sym, ap, ◌∙◌, List, [], ◌∷◌, ◌++◌, map, Option, none, some, Option-cases, inl,
  inr, length, Text, codes, after_prefix, split_lines, trim, is_nil, Bool-cases, if◌then◌else◌,
}
use mathlib.Core.List.{map-append}
use umans_gate.Sse.{
  TimedChunk, feed_all, drain, find_break, last_time, Received, push_received, parse_data_line,
  openai_lines, openai_block, parse_openai_sse, Parsed, AnthropicSseEvent, last_name,
  AnthropicState, parse_event_block, anthropic_block, parse_anthropic_sse,
}
use umans_gate.Sse.Chunks.{all_text, Same, feed_all-Same}

-- What was read, without the times.
abbrev pub values : {J : Type 0} → List (Received J) → List J
values out = map (λ r. r.value) out

push_received-values :
    {J : Type 0} (o : Option J) (t u : Option ℕ) (out out' : List (Received J))
    → values out ≡ values out'
    → values (push_received o t out) ≡ values (push_received o u out')
push_received-values none t u out out' h = h
push_received-values (some j) t u out out' h =
    map-append (λ r. r.value) out (record { value = j; received_at = t } ∷ [])
    ∙ (ap (λ z. z ++ j ∷ []) h
        ∙ sym (map-append (λ r. r.value) out' (record { value = j; received_at = u } ∷ [])))

module _ {S S₀ : Type 0} (handle : ℕ → Text → S → S) (erase : S → S₀)
    (agree : (t u : ℕ) (block : Text) (s r : S)
      → erase s ≡ erase r
      → erase (handle t block s) ≡ erase (handle u block r)) where
  -- Two ways to cut one text into chunks leave the same text and read the same.
  feed_all-cut :
      (cs ds : List TimedChunk) (s : S)
      → all_text cs ≡ all_text ds
      → Same handle erase agree (feed_all handle cs [] s) (feed_all handle ds [] s)
  unfolding find_break
  feed_all-cut cs ds s h =
      let whole = λ (t : Text). drain handle (suc (length t)) 0 t s in
      let first = feed_all-Same handle erase agree cs 0 [] s refl in
      let second = feed_all-Same handle erase agree ds 0 [] s refl in
      let same : whole (all_text cs) ≡ whole (all_text ds) = ap whole h in
      (
        first.0 ∙ (ap (λ p. p.0) same ∙ sym second.0),
        first.1 ∙ (ap (λ p. erase p.1) same ∙ sym second.1),
      )

module _ {J : Type 0} (parse : Text → Option J) where
  openai_lines-values :
      (lines : List Text) (t u : Option ℕ) (out out' : List (Received J))
      → values out ≡ values out'
      → values (openai_lines parse t lines out) ≡ values (openai_lines parse u lines out')
  openai_lines-values [] t u out out' h = h
  openai_lines-values (line ∷ lines) t u out out' h =
      elim (Option-cases (after_prefix (codes "data: ") line)) [
        | inl e ↦ rw e (openai_lines-values lines t u out out' h)
        | inr (text, e) ↦ rw e (
            openai_lines-values lines t u (push_received (parse_data_line parse text) t out)
              (push_received (parse_data_line parse text) u out')
              (push_received-values (parse_data_line parse text) t u out out' h))
      ]

  openai_rest-values :
      (buf buf' : Text) (t u : Option ℕ) (out out' : List (Received J))
      → buf ≡ buf'
      → values out ≡ values out'
      → values (if is_nil (trim buf) then out else openai_lines parse t (split_lines buf) out)
        ≡ values (if is_nil (trim buf') then out' else openai_lines parse u (split_lines buf') out')
  openai_rest-values buf buf' t u out out' h k = rw h (elim (Bool-cases (is_nil (trim buf'))) [
    | inl e ↦ rw e k
    | inr e ↦ rw e (openai_lines-values (split_lines buf') t u out out' k)
  ])

  -- The OpenAI parser reads the same values however the stream's text was cut into chunks.
  pub parse_openai_sse-cut :
      (cs ds : List TimedChunk)
      → all_text cs ≡ all_text ds
      → values (parse_openai_sse parse cs) ≡ values (parse_openai_sse parse ds)
  unfolding parse_openai_sse
  parse_openai_sse-cut cs ds h =
      let same =
        feed_all-cut (openai_block parse) values
          (λ t u block s r. openai_lines-values (split_lines block) (some t) (some u) s r) cs ds []
          h in
      openai_rest-values (feed_all (openai_block parse) cs [] []).0
        (feed_all (openai_block parse) ds [] []).0 (last_time cs) (last_time ds)
        (feed_all (openai_block parse) cs [] []).1 (feed_all (openai_block parse) ds [] []).1 same.0
        same.1

module _ {J : Type 0} (parse : Text → Option (Parsed J)) where
  -- The remembered event type and the events, without the times.
  abbrev anthropic_values : AnthropicState J → Text × List (AnthropicSseEvent J)
  anthropic_values s = (s.ev_type, values s.events)

  anthropic_block-values :
      (t u : ℕ) (block : Text) (s r : AnthropicState J)
      → anthropic_values s ≡ anthropic_values r
      → anthropic_values (anthropic_block parse t block s)
        ≡ anthropic_values (anthropic_block parse u block r)
  anthropic_block-values t u block s r h =
      let kind = ap (λ z. last_name (split_lines block) z.0) h in
      rw kind (
        ap (λ z. (last_name (split_lines block) r.ev_type, z))
          (push_received-values
            (parse_event_block parse block (last_name (split_lines block) r.ev_type)) (some t)
            (some u) s.events r.events (ap (λ z. z.1) h)))

  anthropic_rest-values :
      (buf buf' : Text) (t u : Option ℕ) (s r : AnthropicState J)
      → buf ≡ buf'
      → anthropic_values s ≡ anthropic_values r
      → values (
          if is_nil (trim buf)
          then s.events
          else push_received (parse_event_block parse buf s.ev_type) t s.events)
        ≡ values (
            if is_nil (trim buf')
            then r.events
            else push_received (parse_event_block parse buf' r.ev_type) u r.events)
  anthropic_rest-values buf buf' t u s r h k =
      rw (h, ap (λ z. z.0) k)
        (elim (Bool-cases (is_nil (trim buf'))) [
          | inl e ↦ rw e (ap (λ z. z.1) k)
          | inr e ↦ rw e (
              push_received-values (parse_event_block parse buf' r.ev_type) t u s.events r.events
                (ap (λ z. z.1) k))
        ])

  -- The Anthropic parser reads the same events however the stream's text was cut into chunks.
  pub parse_anthropic_sse-cut :
      (cs ds : List TimedChunk)
      → all_text cs ≡ all_text ds
      → values (parse_anthropic_sse parse cs) ≡ values (parse_anthropic_sse parse ds)
  unfolding parse_anthropic_sse
  parse_anthropic_sse-cut cs ds h =
      let start : AnthropicState J = record { ev_type = []; events = [] } in
      let same =
        feed_all-cut (anthropic_block parse) anthropic_values anthropic_block-values cs ds start
          h in
      anthropic_rest-values (feed_all (anthropic_block parse) cs [] start).0
        (feed_all (anthropic_block parse) ds [] start).0 (last_time cs) (last_time ds)
        (feed_all (anthropic_block parse) cs [] start).1
        (feed_all (anthropic_block parse) ds [] start).1 same.0 same.1
