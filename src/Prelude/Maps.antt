-- ===== src/Prelude/Maps.antt =====
-- `std::map` with an unsigned integer for its key: the list of its pairs in the order of the keys,
-- as iterators walk it.
pub mod Laws
use Prim.Native.Nat.{ℕ}
use mathlib.Core.Option.{Option, none, some}
use mathlib.Core.List.{List, [], ◌∷◌}
use sponge.Prelude.Tests.{ltb, ◌==◌, if◌then◌else◌}

module _ {ℓ} {V : Type ℓ} where
  -- `insert` keeps the pair that is there under an equal key.
  unfoldable pub insert : ℕ → V → List (ℕ × V) → List (ℕ × V)
  insert k v [] = (k, v) ∷ []
  insert k v ((i, w) ∷ m) =
      if ltb k i then (k, v) ∷ (i, w) ∷ m else if k == i then (i, w) ∷ m else (i, w) ∷ insert k v m

  -- `m[k] = v`
  unfoldable pub assign : ℕ → V → List (ℕ × V) → List (ℕ × V)
  assign k v [] = (k, v) ∷ []
  assign k v ((i, w) ∷ m) =
      if ltb k i then (k, v) ∷ (i, w) ∷ m else if k == i then (k, v) ∷ m else (i, w) ∷ assign k v m

  unfoldable pub erase : ℕ → List (ℕ × V) → List (ℕ × V)
  erase k [] = []
  erase k ((i, w) ∷ m) = if k == i then m else (i, w) ∷ erase k m

  unfoldable pub find : ℕ → List (ℕ × V) → Option V
  find k [] = none
  find k ((i, w) ∷ m) = if k == i then some w else find k m
