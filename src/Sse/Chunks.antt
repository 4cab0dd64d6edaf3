-- ===== src/Sse/Chunks.antt =====
-- How the text is cut into chunks does not matter.
use umans_gate.Base.{
  ℕ, suc, zero, ◌+◌, ◌≤◌, ◌<◌, ◌≡◌, refl, ◌∙◌, subst, List, [], ◌∷◌, ◌++◌, none, some, arith,
  length, length-append, append-nil, append_assoc, Text, Option-cases, inl, inr,
}
use umans_gate.Sse.{TimedChunk, find_break, drain, feed, feed_all}

-- The text of all chunks.
abbrev pub all_text : List TimedChunk → Text
all_text [] = []
all_text (c ∷ cs) = c.text ++ all_text cs

find_break-shorter :
    (xs : Text) {block rest : Text} → find_break xs ≡ some (block, rest) → length rest < length xs
unfolding find_break
find_break-shorter [] h = cc
find_break-shorter (c ∷ []) h = cc
find_break-shorter (c ∷ d ∷ xs) {block} {rest} h = elim (Option-cases (find_break (d ∷ xs))) [
  | inl e ↦ ground (arith, h, e)
  | inr ((b, r), e) ↦ ground (arith, h, e, find_break-shorter (d ∷ xs) e)
]

-- A break that is found stays where it is when more text comes.
find_break-append :
    (xs ys : Text) {block rest : Text}
    → find_break xs ≡ some (block, rest)
    → find_break (xs ++ ys) ≡ some (block, rest ++ ys)
unfolding find_break
find_break-append [] ys h = cc
find_break-append (c ∷ []) ys h = cc
find_break-append (c ∷ d ∷ xs) ys {block} {rest} h = elim (Option-cases (find_break (d ∷ xs))) [
  | inl e ↦ ground (arith, h, e)
  | inr ((b, r), e) ↦ ground (arith, h, e, find_break-append (d ∷ xs) ys e)
]

module _ {S : Type 0} (handle : ℕ → Text → S → S) where
  -- One more unit of fuel than the buffer is long is enough.
  pub drain-fuel :
      (f g time : ℕ) (xs : Text) (s : S)
      → length xs < f
      → length xs < g
      → drain handle f time xs s ≡ drain handle g time xs s
  unfolding drain
  drain-fuel zero g time xs s h k = absurd (omega arith)
  drain-fuel (suc f) zero time xs s h k = absurd (omega arith)
  drain-fuel (suc f) (suc g) time xs s h k = elim (Option-cases (find_break xs)) [
    | inl e ↦ rw (e, drain) refl
    | inr ((block, rest), e) ↦
        let shorter = find_break-shorter xs e in
        rw (e, drain)
          (drain-fuel f g time rest (handle time block s) (omega (arith, shorter, h))
            (omega (arith, shorter, k)))
  ]

  drain-shorter : (f time : ℕ) (xs : Text) (s : S) → length (drain handle f time xs s).0 ≤ length xs
  unfolding drain
  drain-shorter zero time xs s = omega arith
  drain-shorter (suc f) time xs s = elim (Option-cases (find_break xs)) [
    | inl e ↦ rw (e, drain) (omega arith)
    | inr ((block, rest), e) ↦
        rw (e, drain)
          (omega (arith, find_break-shorter xs e, drain-shorter f time rest (handle time block s)))
  ]

  -- After the loop no complete block is left.
  drain_done :
      (f time : ℕ) (xs : Text) (s : S)
      → length xs < f
      → find_break (drain handle f time xs s).0 ≡ none
  unfolding drain
  drain_done zero time xs s h = absurd (omega arith)
  drain_done (suc f) time xs s h = elim (Option-cases (find_break xs)) [
    | inl e ↦ rw (e, drain) e
    | inr ((block, rest), e) ↦
        rw (e, drain)
          (drain_done f time rest (handle time block s) (omega (arith, find_break-shorter xs e, h)))
  ]

  drain_over :
      (f time : ℕ) (xs : Text) (s : S) → find_break xs ≡ none → drain handle f time xs s ≡ (xs, s)
  unfolding drain
  drain_over zero time xs s e = refl
  drain_over (suc f) time xs s e = rw (e, drain) refl

  drain_next :
      (f time : ℕ) (xs : Text) (s : S) {block rest : Text}
      → find_break xs ≡ some (block, rest)
      → drain handle (suc f) time xs s ≡ drain handle f time rest (handle time block s)
  unfolding drain
  drain_next f time xs s e = rw (e, drain) refl

  -- To read a text and then more is to read both at once.
  drain-append :
      (f g time : ℕ) (xs ys : Text) (s : S)
      → length xs < f
      → length xs + length ys < g
      → drain handle g time (xs ++ ys) s
        ≡ drain handle g time ((drain handle f time xs s).0 ++ ys) (drain handle f time xs s).1
  drain-append zero g time xs ys s h k = absurd (omega arith)
  drain-append (suc f) zero time xs ys s h k = absurd (omega arith)
  drain-append (suc f) (suc g) time xs ys s h k = elim (Option-cases (find_break xs)) [
    | inl e ↦ rw (drain_over (suc f) time xs s e) refl
    | inr ((block, rest), e) ↦
        let shorter = find_break-shorter xs e in
        let s' = handle time block s in
        let d = drain handle f time rest s' in
        rw
          (
            drain_next f time xs s e,
            drain_next g time (xs ++ ys) s (find_break-append xs ys e),
            drain-append f g time rest ys s' (omega (arith, shorter, h))
                (omega (arith, shorter, k)),
          )
          (drain-fuel g (suc g) time (d.0 ++ ys) d.1
            (omega (arith, length-append d.0 ys, drain-shorter f time rest s', shorter, k))
            (omega (arith, length-append d.0 ys, drain-shorter f time rest s', shorter, k)))
  ]

-- What is left of a parser's state when the times are forgotten.
module _ {S S₀ : Type 0} (handle : ℕ → Text → S → S) (erase : S → S₀)
    (agree : (t u : ℕ) (block : Text) (s r : S)
      → erase s ≡ erase r
      → erase (handle t block s) ≡ erase (handle u block r)) where
  -- The same text is left, and the same was read.
  abbrev pub Same : Text × S → Text × S → Type 0
  Same p q = (p.0 ≡ q.0) × (erase p.1 ≡ erase q.1)

  drain-Same :
      (f t u : ℕ) (xs : Text) (s r : S)
      → erase s ≡ erase r
      → Same (drain handle f t xs s) (drain handle f u xs r)
  unfolding drain
  drain-Same zero t u xs s r h = (refl, h)
  drain-Same (suc f) t u xs s r h = elim (Option-cases (find_break xs)) [
    | inl e ↦ rw (e, drain) (refl, h)
    | inr ((block, rest), e) ↦
        rw (e, drain)
          (drain-Same f t u rest (handle t block s) (handle u block r) (agree t u block s r h))
  ]

  Same-trans : {p q r : Text × S} → Same p q → Same q r → Same p r
  Same-trans h k = (h.0 ∙ k.0, h.1 ∙ k.1)

  -- States that are the same stay so when one more text is read.
  Same-more :
      (f t : ℕ) (ys : Text) (d e : Text × S)
      → Same d e
      → Same (drain handle f t (d.0 ++ ys) d.1) (drain handle f t (e.0 ++ ys) e.1)
  Same-more f t ys d e h =
      subst (λ z. Same (drain handle f t (d.0 ++ ys) d.1) (drain handle f t (z ++ ys) e.1)) h.0
        (drain-Same f t t (d.0 ++ ys) d.1 e.1 h.1)

  -- To read a chunk and then the text `ys` is to read both at once.
  drain-Same-append :
      (t u : ℕ) (xs ys : Text) (s : S)
      → let d = drain handle (suc (length xs)) t xs s in
        Same
          (drain handle (suc (length (d.0 ++ ys))) u (d.0 ++ ys) d.1)
          (drain handle (suc (length (xs ++ ys))) u (xs ++ ys) s)
  drain-Same-append t u xs ys s =
      let f = suc (length xs) in
      let g = suc (length (xs ++ ys)) in
      let d = drain handle f t xs s in
      let k = length-append xs ys in
      rw
        (
          drain-fuel handle (suc (length (d.0 ++ ys))) g u (d.0 ++ ys) d.1 (omega arith)
              (omega (arith, length-append d.0 ys, k, drain-shorter handle f t xs s)),
          drain-append handle f g u xs ys s (omega arith) (omega (arith, k)),
        )
        (Same-more g u ys d (drain handle f u xs s) (drain-Same f t u xs s s refl))

  -- All chunks one by one are as good as their whole text at once.
  pub feed_all-Same :
      (chunks : List TimedChunk) (u : ℕ) (buf : Text) (s : S)
      → find_break buf ≡ none
      → Same
          (feed_all handle chunks buf s)
          (drain handle (suc (length (buf ++ all_text chunks))) u (buf ++ all_text chunks) s)
  unfolding feed_all feed
  feed_all-Same [] u buf s h =
      rw (append-nil buf, drain_over handle (suc (length buf)) u buf s h) (refl, refl)
  feed_all-Same (c ∷ cs) u buf s h =
      let xs = buf ++ c.text in
      let ys = all_text cs in
      let f = suc (length xs) in
      let d = drain handle f c.time xs s in
      Same-trans (feed_all-Same cs u d.0 d.1 (drain_done handle f c.time xs s (omega arith))) (
        subst
          (λ z.
            Same (drain handle (suc (length (d.0 ++ ys))) u (d.0 ++ ys) d.1)
              (drain handle (suc (length z)) u z s))
          (append_assoc buf c.text ys) (drain-Same-append c.time u xs ys s))
