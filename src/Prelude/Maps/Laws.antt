-- ===== src/Prelude/Maps/Laws.antt =====
-- What a lookup finds after each operation on a `std::map`.
use Prim.Native.Nat.{ℕ, ◌<◌}
use mathlib.Core.Path.{◌≡◌, refl, ap}
use mathlib.Core.Logic.{inl, inr}
use mathlib.Core.Option.{none, some}
use mathlib.Core.List.{List, [], ◌∷◌}
use native.Mathlib.Omega.{arith}
use sponge.Prelude.Tests.{Bool-cases, tests, ◌==◌, if◌then◌else◌}
use sponge.Prelude.Maps.{assign, erase, find}

module _ {ℓ} {V : Type ℓ} where
  -- The keys are above `lo`, and grow.
  abbrev pub IsAbove : ℕ → List (ℕ × V) → Type 0
  IsAbove lo [] = Unit {0}
  IsAbove lo ((i, w) ∷ m) = (lo < i) × IsAbove i m

  abbrev pub IsSorted : List (ℕ × V) → Type 0
  IsSorted [] = Unit {0}
  IsSorted ((i, w) ∷ m) = IsAbove i m

  pub IsAbove-lt : (lo lo' : ℕ) (m : List (ℕ × V)) → lo' < lo → IsAbove lo m → IsAbove lo' m
  IsAbove-lt lo lo' [] h s = tt
  IsAbove-lt lo lo' ((i, w) ∷ m) h s = (omega arith, s.1)

  pub find-assign :
      (j k : ℕ) (v : V) (m : List (ℕ × V))
      → find j (assign k v m) ≡ (if j == k then some v else find j m)
  unfolding find assign
  find-assign j k v [] = refl
  find-assign j k v ((i, w) ∷ m) = ground (arith, find-assign j k v m)

  pub assign-IsAbove :
      (lo k : ℕ) (v : V) (m : List (ℕ × V)) → lo < k → IsAbove lo m → IsAbove lo (assign k v m)
  unfolding assign
  assign-IsAbove lo k v [] h s = (h, tt)
  assign-IsAbove lo k v ((i, w) ∷ m) h s = ground (arith, assign-IsAbove i k v m)

  pub assign-IsSorted : (k : ℕ) (v : V) (m : List (ℕ × V)) → IsSorted m → IsSorted (assign k v m)
  unfolding assign
  assign-IsSorted k v [] s = tt
  assign-IsSorted k v ((i, w) ∷ m) s = ground (arith, assign-IsAbove i k v m)

  pub find-IsAbove : (lo j : ℕ) (m : List (ℕ × V)) → IsAbove lo m → ¬ (lo < j) → find j m ≡ none
  unfolding find
  find-IsAbove lo j [] s h = refl
  find-IsAbove lo j ((i, w) ∷ m) s h = ground (arith, find-IsAbove i j m s.1)

  pub erase-IsAbove : (lo k : ℕ) (m : List (ℕ × V)) → IsAbove lo m → IsAbove lo (erase k m)
  unfolding erase
  erase-IsAbove lo k [] s = tt
  erase-IsAbove lo k ((i, w) ∷ m) s =
      ground (arith, IsAbove-lt i lo m s.0 s.1, erase-IsAbove i k m s.1)

  pub erase-IsSorted : (k : ℕ) (m : List (ℕ × V)) → IsSorted m → IsSorted (erase k m)
  unfolding erase
  erase-IsSorted k [] s = tt
  erase-IsSorted k ((i, w) ∷ []) s = ground arith
  erase-IsSorted k ((i, w) ∷ (i', w') ∷ m) s = ground (arith, erase-IsAbove i k ((i', w') ∷ m) s)

  pub IsAbove-IsSorted : (lo : ℕ) (m : List (ℕ × V)) → IsAbove lo m → IsSorted m
  IsAbove-IsSorted lo [] s = tt
  IsAbove-IsSorted lo ((i, w) ∷ m) s = s.1

  pub find-erase :
      (j k : ℕ) (m : List (ℕ × V))
      → IsSorted m
      → find j (erase k m) ≡ (if j == k then none else find j m)
  unfolding find erase
  find-erase j k [] s = ground arith
  find-erase j k ((i, w) ∷ m) s =
      ground (arith, find-IsAbove i j m s, find-erase j k m (IsAbove-IsSorted i m s))

  erase-absent : (lo k : ℕ) (m : List (ℕ × V)) → IsAbove lo m → ¬ (lo < k) → erase k m ≡ m
  unfolding erase
  erase-absent lo k [] s h = refl
  erase-absent lo k ((i, w) ∷ m) s h = ground (arith, erase-absent i k m (s.1))

  -- A second `erase` finds nothing.
  pub erase-erase : (k : ℕ) (m : List (ℕ × V)) → IsSorted m → erase k (erase k m) ≡ erase k m
  unfolding erase
  erase-erase k [] s = refl
  erase-erase k ((i, w) ∷ m) s = elim (Bool-cases (k == i)) [
    | inl h ↦ rw (erase, h) (erase-absent i k m s (omega tests))
    | inr h ↦ rw (erase, h, h) (ap (◌∷◌ (i, w)) (erase-erase k m (IsAbove-IsSorted i m s)))
  ]
