-- ===== src/Reassembler/Stored.antt =====
-- What libsponge/stream_reassembler.cc keeps in `_unassemble_strs`: pairs that are in order, apart
-- from one another, not empty, and that hold bytes of one logical stream `S`.
use sponge.Prelude.{
  ℕ, zero, suc, ◌+◌, ◌≤◌, ◌<◌, ◌≡◌, ◌⊎◌, List, [], ◌∷◌, ◌++◌, length, take, drop, arith,
}
use sponge.Reassembler.{Entries}

module _ (S : ℕ → ℕ) where
  -- The bytes are those of the stream from index `i` on.
  abbrev pub Agrees : ℕ → List ℕ → Type 0
  Agrees i [] = Unit {0}
  Agrees i (b ∷ bs) = (b ≡ S i) × Agrees (suc i) bs

  -- The pairs lie between `lo` and `top`, each after the one before it.
  abbrev pub Stored : ℕ → ℕ → Entries → Type 0
  Stored top lo [] = lo ≤ top
  Stored top lo ((i, d) ∷ m) = (lo ≤ i) × (0 < length d) × Agrees i d × Stored top (i + length d) m

  pub Agrees-take : (n i : ℕ) (bs : List ℕ) → Agrees i bs → Agrees i (take n bs)
  Agrees-take zero i bs h = tt
  Agrees-take (suc n) i [] h = tt
  Agrees-take (suc n) i (b ∷ bs) h = (h.0, Agrees-take n (suc i) bs h.1)

  pub Agrees-drop : (n i j : ℕ) (bs : List ℕ) → i + n ≡ j → Agrees i bs → Agrees j (drop n bs)
  Agrees-drop zero i j bs e h = let e' : i ≡ j = omega arith in rw (← e') h
  Agrees-drop (suc n) i j [] e h = tt
  Agrees-drop (suc n) i j (b ∷ bs) e h = Agrees-drop n (suc i) j bs (omega arith) h.1

  pub Agrees-append :
      (i j : ℕ) (bs cs : List ℕ)
      → i + length bs ≡ j
      → Agrees i bs
      → Agrees j cs
      → Agrees i (bs ++ cs)
  Agrees-append i j [] cs e h k = let e' : i ≡ j = omega arith in rw e' k
  Agrees-append i j (b ∷ bs) cs e h k = (h.0, Agrees-append (suc i) j bs cs (omega arith) h.1 k)

  pub Stored-le : (top lo : ℕ) (m : Entries) → Stored top lo m → lo ≤ top
  Stored-le top lo [] h = h
  Stored-le top lo ((i, d) ∷ m) h = omega (arith, Stored-le top (i + length d) m h.3)

  pub Stored-mono : (top lo lo' : ℕ) (m : Entries) → lo' ≤ lo → Stored top lo m → Stored top lo' m
  Stored-mono top lo lo' [] e h = omega arith
  Stored-mono top lo lo' ((i, d) ∷ m) e h = (omega arith, h.1, h.2, h.3)

-- Some pair holds the byte of index `x`.
abbrev pub Covered : ℕ → Entries → Type 0
Covered x [] = ⊥
Covered x ((i, d) ∷ m) = ((i ≤ x) × (x < i + length d)) ⊎ Covered x m

-- No pair goes across `n`.
abbrev pub Clear : ℕ → Entries → Type 0
Clear n [] = Unit {0}
Clear n ((i, d) ∷ m) = ((i + length d ≤ n) ⊎ (n ≤ i)) × Clear n m

pub total_length : Entries → ℕ
total_length [] = 0
total_length ((i, d) ∷ m) = length d + total_length m
