-- ===== src/Base/Assoc.antt =====
-- Objects and `Map`s as association lists in insertion order, over any key type with `===`.
use Prim.Native.Nat.{ℕ, ◌+◌, ◌-◌, ◌≤◌}
use mathlib.Core.Path.{◌≡◌, refl}
use mathlib.Core.List.{List, [], ◌∷◌}
use mathlib.Core.Option.{Option, none, some}
use native.Mathlib.Omega.{arith}
use umans_gate.Base.Tests.{if◌then◌else◌, Key, ◌==◌}

module _ {ℓ κ} {K : Type ℓ} {V : Type κ} ⦃e : Key K⦄ where
  abbrev pub lookup : K → List (K × V) → Option V
  lookup k [] = none
  lookup k ((j, v) ∷ m) = if j == k then some v else lookup k m

  -- A write to a key that is there keeps its place; a new key goes to the end.
  abbrev pub insert : K → V → List (K × V) → List (K × V)
  insert k v [] = (k, v) ∷ []
  insert k v ((j, w) ∷ m) = if j == k then (j, v) ∷ m else (j, w) ∷ insert k v m

  abbrev pub erase : K → List (K × V) → List (K × V)
  erase k [] = []
  erase k ((j, w) ∷ m) = if j == k then erase k m else (j, w) ∷ erase k m

  pub lookup-insert :
      (k j : K) (v : V) (m : List (K × V))
      → lookup j (insert k v m) ≡ (if k == j then some v else lookup j m)
  lookup-insert k j v [] = refl
  lookup-insert k j v ((i, w) ∷ m) =
      ground (arith, e.agree_iff k j, e.agree_iff i k, e.agree_iff i j, lookup-insert k j v m)

  pub lookup-erase :
      (k j : K) (m : List (K × V)) → lookup j (erase k m) ≡ (if k == j then none else lookup j m)
  lookup-erase k j [] = ground arith
  lookup-erase k j ((i, w) ∷ m) =
      ground (arith, e.agree_iff k j, e.agree_iff i k, e.agree_iff i j, lookup-erase k j m)

-- The keys of an object, in order.
abbrev pub keys {ℓ κ} : {K : Type ℓ} {V : Type κ} → List (K × V) → List K
keys [] = []
keys ((k, v) ∷ m) = k ∷ keys m

-- The sum of an object of numbers.
abbrev pub total {ℓ} : {K : Type ℓ} → List (K × ℕ) → ℕ
total [] = 0
total ((k, v) ∷ m) = v + total m

module _ {ℓ} {K : Type ℓ} ⦃e : Key K⦄ where
  -- `m[k] ?? 0`
  abbrev pub get_or_zero : K → List (K × ℕ) → ℕ
  get_or_zero k [] = 0
  get_or_zero k ((j, v) ∷ m) = if j == k then v else get_or_zero k m

  pub get_or_zero-insert :
      (k j : K) (v : ℕ) (m : List (K × ℕ))
      → get_or_zero j (insert k v m) ≡ (if k == j then v else get_or_zero j m)
  get_or_zero-insert k j v [] = refl
  get_or_zero-insert k j v ((i, w) ∷ m) =
      ground (arith, e.agree_iff k j, e.agree_iff i k, e.agree_iff i j, get_or_zero-insert k j v m)

  pub total-insert :
      (k : K) (v : ℕ) (m : List (K × ℕ)) → total (insert k v m) + get_or_zero k m ≡ total m + v
  total-insert k v [] = omega arith
  total-insert k v ((i, w) ∷ m) = ground (arith, total-insert k v m)

  pub get_or_zero-le-total : (k : K) (m : List (K × ℕ)) → get_or_zero k m ≤ total m
  get_or_zero-le-total k [] = omega arith
  get_or_zero-le-total k ((i, w) ∷ m) = ground (arith, get_or_zero-le-total k m)

  -- A number added to, or taken off, the one of a key.
  pub get_or_zero-add :
      (k j : K) (w : ℕ) (m : List (K × ℕ))
      → get_or_zero j (insert k (get_or_zero k m + w) m)
        ≡ get_or_zero j m + (if k == j then w else 0)
  get_or_zero-add k j w m =
      ground (arith, e.agree_iff k j, get_or_zero-insert k j (get_or_zero k m + w) m)

  pub get_or_zero-sub :
      (k j : K) (w : ℕ) (m : List (K × ℕ))
      → get_or_zero j (insert k (get_or_zero k m - w) m)
        ≡ get_or_zero j m - (if k == j then w else 0)
  get_or_zero-sub k j w m =
      ground (arith, e.agree_iff k j, get_or_zero-insert k j (get_or_zero k m - w) m)

  pub get_or_zero-absent : (k : K) (m : List (K × ℕ)) → lookup k m ≡ none → get_or_zero k m ≡ 0
  get_or_zero-absent k [] h = refl
  get_or_zero-absent k ((i, w) ∷ m) h = ground (arith, get_or_zero-absent k m)
