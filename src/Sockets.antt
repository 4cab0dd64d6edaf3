-- ===== src/Sockets.antt =====
-- The sockets that are told of captures (src/ws.ts).
-- A socket is a number. What its `send` does is a function of it: a result other than 0, the result 0, or a throw.
pub mod Broadcast
mod Tests
use umans_gate.Base.{ℕ, Bool, true, false, ◌||◌, List, [], ◌∷◌, ◌++◌, if◌then◌else◌, nat_beq}

pub data Sent : Type 0 where
  accepted : Sent
  dropped : Sent
  throws : Sent

abbrev pub has : ℕ → List ℕ → Bool
has w [] = false
has w (v ∷ vs) = nat_beq v w || has w vs

-- The set, in insertion order.
abbrev pub add : ℕ → List ℕ → List ℕ
add w clients = if has w clients then clients else clients ++ w ∷ []

abbrev pub remove : ℕ → List ℕ → List ℕ
remove w [] = []
remove w (v ∷ vs) = let rest = remove w vs in if nat_beq v w then rest else v ∷ rest

module _ (send : ℕ → Sent) where
  -- The loop over the clients.
  abbrev pub dead_of : List ℕ → List ℕ
  dead_of [] = []
  dead_of (w ∷ ws) = elim (send w) [
    | accepted ↦ dead_of ws
    | dropped ↦ w ∷ dead_of ws
    | throws ↦ w ∷ dead_of ws
  ]

  -- Those that are closed, since their backlog is full.
  abbrev pub closed_of : List ℕ → List ℕ
  closed_of [] = []
  closed_of (w ∷ ws) = elim (send w) [
    | accepted ↦ closed_of ws
    | dropped ↦ w ∷ closed_of ws
    | throws ↦ closed_of ws
  ]

  -- `for (const ws of dead) this.clients.delete(ws)`
  abbrev pub remove_all : List ℕ → List ℕ → List ℕ
  remove_all [] clients = clients
  remove_all (w ∷ ws) clients = remove_all ws (remove w clients)

  -- The clients after the broadcast, and the sockets it closed.
  unfoldable pub broadcast : List ℕ → List ℕ × List ℕ
  broadcast clients = (remove_all (dead_of clients) clients, closed_of clients)

-- Every client is closed.
unfoldable pub close_all : List ℕ → List ℕ × List ℕ
close_all clients = ([], clients)
