-- ===== src/Sockets/Broadcast.antt =====
-- Who is told of the next capture after a broadcast (src/ws.ts).
use umans_gate.Base.{
  ℕ, ◌≡◌, refl, sym, ap, ◌∙◌, Bool, true, false, not, ◌&&◌, ◌||◌, List, [], ◌∷◌, if◌then◌else◌,
  nat_beq, nat_beq_iff, arith, Bool-cases, inl, inr,
}
use umans_gate.Sockets.{
  Sent, accepted, dropped, throws, has, remove, dead_of, remove_all, broadcast,
}

-- The elements that satisfy a test.
abbrev pub those : (ℕ → Bool) → List ℕ → List ℕ
those f [] = []
those f (w ∷ ws) = let rest = those f ws in if f w then w ∷ rest else rest

abbrev pub is_accepted : Sent → Bool
is_accepted accepted = true
is_accepted dropped = false
is_accepted throws = false

those-remove :
    (w : ℕ) (ds l : List ℕ)
    → those (λ c. not (has c ds)) (remove w l) ≡ those (λ c. not (nat_beq w c || has c ds)) l
those-remove w ds [] = refl
those-remove w ds (v ∷ vs) = ground (arith, those-remove w ds vs, nat_beq_iff v w, nat_beq_iff w v)

those-all : (l : List ℕ) → those (λ c. true) l ≡ l
those-all [] = refl
those-all (w ∷ ws) = ap (λ z. w ∷ z) (those-all ws)

and-false : (a : Bool) → (a && false) ≡ false
and-false true = refl
and-false false = refl

has-those : (f : ℕ → Bool) (c : ℕ) (l : List ℕ) → has c (those f l) ≡ (has c l && f c)
has-those f c [] = refl
has-those f c (w ∷ ws) =
    let same : nat_beq w c ≡ true → f w ≡ f c = λ h. ap f ((nat_beq_iff w c).0 h) in
    elim (Bool-cases (f w)) [
      | inl e ↦ elim (Bool-cases (nat_beq w c)) [
        | inl k ↦ rw (e, k) (sym (sym (same k) ∙ e))
        | inr k ↦ rw (e, k) (has-those f c ws)
      ]
      | inr e ↦ elim (Bool-cases (nat_beq w c)) [
        | inl k ↦ rw (e, k) (has-those f c ws ∙ rw (sym (same k) ∙ e) (and-false (has c ws)))
        | inr k ↦ rw (e, k) (has-those f c ws)
      ]
    ]

-- Those that are not among those of `all` that satisfy `f`.
those-those :
    (f : ℕ → Bool) (all l : List ℕ)
    → ((c : ℕ) → has c l ≡ true → has c all ≡ true)
    → those (λ c. not (has c (those f all))) l ≡ those (λ c. not (f c)) l
those-those f all [] h = refl
those-those f all (w ∷ ws) h =
    let here : has w (w ∷ ws) ≡ true = rw ((nat_beq_iff w w).1 refl) refl in
    let head : has w (those f all) ≡ f w = has-those f w all ∙ rw (h w here) refl in
    let rest =
      those-those f all ws
        (λ c k. h c (elim (Bool-cases (nat_beq w c)) [ inl e ↦ rw e refl | inr e ↦ rw e k ])) in
    rw (head, rest) refl

those-double : (f : ℕ → Bool) (l : List ℕ) → those (λ c. not (not (f c))) l ≡ those f l
those-double f [] = refl
those-double f (w ∷ ws) = elim (Bool-cases (f w)) [
  | inl e ↦ rw (e, those-double f ws) refl
  | inr e ↦ rw (e, those-double f ws) refl
]

dead_step :
    (r : Sent) (w : ℕ) (ds l : List ℕ)
    → ds ≡ l
    → (elim r as (λ x. List ℕ) [ accepted ↦ ds | dropped ↦ w ∷ ds | throws ↦ w ∷ ds ])
      ≡ (if not (is_accepted r) then w ∷ l else l)
dead_step accepted w ds l h = h
dead_step dropped w ds l h = ap (λ z. w ∷ z) h
dead_step throws w ds l h = ap (λ z. w ∷ z) h

module _ (send : ℕ → Sent) where
  remove_all-those : (ds l : List ℕ) → remove_all send ds l ≡ those (λ c. not (has c ds)) l
  remove_all-those [] l = sym (those-all l)
  remove_all-those (w ∷ ds) l = remove_all-those ds (remove w l) ∙ those-remove w ds l

  dead_of-those : (l : List ℕ) → dead_of send l ≡ those (λ c. not (is_accepted (send c))) l
  dead_of-those [] = refl
  dead_of-those (w ∷ ws) =
      dead_step (send w) w (dead_of send ws) (those (λ c. not (is_accepted (send c))) ws)
        (dead_of-those ws)

  -- Exactly the clients whose send gave a result other than 0 are told of the next message, in their order.
  pub broadcast-those :
      (clients : List ℕ) → (broadcast send clients).0 ≡ those (λ c. is_accepted (send c)) clients
  unfolding broadcast
  broadcast-those clients =
      rw (remove_all-those (dead_of send clients) clients, dead_of-those clients)
        (those-those (λ c. not (is_accepted (send c))) clients clients (λ c h. h)
          ∙ those-double (λ c. is_accepted (send c)) clients)
