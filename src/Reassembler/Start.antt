-- ===== src/Reassembler/Start.antt =====
-- `new_idx` of libsponge/stream_reassembler.cc: what lies before it is known already.
use sponge.Prelude.{
  ℕ, ◌+◌, ◌^◌, ◌≤◌, ◌<◌, ◌≡◌, ◌⊎◌, inl, inr, List, [], ◌∷◌, length, arith, Bool-cases, ltb, tests,
  Option-cases, if◌then◌else◌,
}
use sponge.Reassembler.{Entries, floor_entry, new_start}
use sponge.Reassembler.Stored.{Stored, Stored-le, Covered, Clear}

pub new_start_step :
    (next i index : ℕ) (d : List ℕ) (m : Entries)
    → i + length d < 2 ^ 64
    → new_start next ((i, d) ∷ m) index ≡ (
        if ltb index i
        then (if ltb index next then next else index)
        else new_start (i + length d) m index)
unfolding new_start
new_start_step next i index d m h = elim (Option-cases (floor_entry index m)) [
  | inl e ↦ ground arith
  | inr (a, e) ↦ ground arith
]

module _ (S : ℕ → ℕ) (top index : ℕ) (small : top < 2 ^ 62) (within : index ≤ top) where
  Clear-above : (n lo : ℕ) (m : Entries) → n ≤ lo → Stored S top lo m → Clear n m
  Clear-above n lo [] h v = tt
  Clear-above n lo ((i, d) ∷ m) h v =
      (inr (omega arith), Clear-above n (i + length d) m (omega arith) v.3)

  -- What the rest of `push_substring` needs of `new_idx`, for pairs from `lo` on.
  pub record IsStart (lo : ℕ) (m : Entries) (n : ℕ) : Type 0 where
    pub from_index : index ≤ n
    pub from_lo : lo ≤ n
    pub within_top : n ≤ top
    pub clear : Clear n m
    pub known : (x : ℕ) → index ≤ x → x < n → (x < lo) ⊎ Covered x m

  first_start :
      (lo : ℕ) (m : Entries)
      → Stored S top lo m
      → Clear (if ltb index lo then lo else index) m
      → IsStart lo m (if ltb index lo then lo else index)
  first_start lo m v c = elim (Bool-cases (ltb index lo)) [
    | inl b ↦ rw b (record {
      from_index = omega tests;
      from_lo = omega arith;
      within_top = Stored-le S top lo m v;
      clear = rw b at c;
      known = λ x h k. inl k;
    })
    | inr b ↦ rw b (record {
      from_index = omega arith;
      from_lo = omega tests;
      within_top = within;
      clear = rw b at c;
      known = λ x h k. absurd (omega arith);
    })
  ]

  pub new_start-IsStart :
      (lo : ℕ) (m : Entries) → Stored S top lo m → IsStart lo m (new_start lo m index)
  new_start-IsStart lo [] v = unfold new_start in first_start lo [] v tt
  new_start-IsStart lo ((i, d) ∷ m) v =
      let fits = Stored-le S top (i + length d) m v.3 in
      let rest = new_start-IsStart (i + length d) m v.3 in
      rw (new_start_step lo i index d m (omega arith)) (elim (Bool-cases (ltb index i)) [
        | inl b ↦ rw b (
            first_start lo ((i, d) ∷ m) v
              (Clear-above _ i ((i, d) ∷ m) (ground arith) (omega arith, v.1, v.2, v.3)))
        | inr b ↦ rw b (record {
          from_index = rest.from_index;
          from_lo = omega (arith, rest.from_lo);
          within_top = rest.within_top;
          clear = (inl rest.from_lo, rest.clear);
          known = λ x h k. elim (rest.known x h k) [
            | inl p ↦ inr (inl (omega tests, p))
            | inr c ↦ inr (inr c)
          ];
        })
      ])
