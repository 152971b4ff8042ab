-- ===== src/Reassembler/Bare.antt =====
-- `push_substring` of libsponge/stream_reassembler.cc with no byte and no end, at any index.
use sponge.Prelude.{
  ℕ, ◌+◌, ◌-◌, ◌^◌, ◌≤◌, ◌<◌, ◌≡◌, ◌⊎◌, inl, inr, [], ◌∷◌, length, arith, Bool-cases, ltb, leb,
  refl, tests, add64, sub64, IsU64, false, sym, ◌∙◌, if◌then◌else◌,
}
use sponge.Reassembler.{
  Reassembler, Entries, new_start, accept, finish, positive, push_substring, first_unacceptable_idx,
}
use sponge.Reassembler.Stored.{Stored, Stored-le}
use sponge.Reassembler.Start.{new_start_step}
use sponge.Reassembler.Accept.{Accepted, trim_nothing, accept_nothing}
use sponge.Reassembler.Finish.{IsValid, finish-Frame, finish-IsValid_at}

module _ (S : ℕ → ℕ) (top : ℕ) (small : top < 2 ^ 62) where
  first_bound :
      (index lo : ℕ) (m : Entries)
      → Stored S top lo m
      → let n = if ltb index lo then lo else index in (index ≤ n) × ((n ≡ index) ⊎ (n ≤ top))
  first_bound index lo m v = elim (Bool-cases (ltb index lo)) [
    | inl b ↦ rw b (omega tests, inr (Stored-le S top lo m v))
    | inr b ↦ rw b (omega arith, inl refl)
  ]

  -- The substring begins where it did, or within the stream.
  start_bound :
      (index lo : ℕ) (m : Entries)
      → Stored S top lo m
      → let n = new_start lo m index in (index ≤ n) × ((n ≡ index) ⊎ (n ≤ top))
  start_bound index lo [] v = unfold new_start in first_bound index lo [] v
  start_bound index lo ((i, d) ∷ m) v =
      let fits = Stored-le S top (i + length d) m v.3 in
      rw (new_start_step lo i index d m (omega arith)) (elim (Bool-cases (ltb index i)) [
        | inl b ↦ rw b (first_bound index lo ((i, d) ∷ m) v)
        | inr b ↦ rw b (start_bound index (i + length d) m v.3)
      ])

  -- The state stays valid, and nothing is taken out of the stream.
  pub record Untouched (r r' : Reassembler) : Type 0 where
    pub valid : IsValid S top small r'
    pub capacity : r'.capacity ≡ r.capacity
    pub reader : r'.output.bytes_read ≡ r.output.bytes_read

  finish-Untouched :
      (r r' : Reassembler) (n end : ℕ)
      → IsValid S top small r
      → Accepted S top small n n r r'
      → Untouched r (finish r' end false)
  finish-Untouched r r' n end v a =
      let frame = finish-Frame r' end false in
      let below = Stored-le S top r'.next_assembled_idx r'.unassemble_strs a.core.stored in
      record {
        valid = finish-IsValid_at S top small end false r' a.core (rw a.eof v.eof) (λ h.
            let was = v.ended (sym a.ended ∙ h) in (a.eof ∙ was.0, omega (arith, was.1, a.grows)));
        capacity = frame.capacity ∙ a.capacity;
        reader = frame.reader ∙ a.reader;
      }

  pub push_nothing-Untouched :
      (r : Reassembler) (index : ℕ)
      → IsValid S top small r
      → IsU64 index
      → Untouched r (push_substring r [] index false)
  unfolding push_substring
  push_nothing-Untouched r index v u =
      let n = new_start r.next_assembled_idx r.unassemble_strs index in
      let sz = sub64 0 (sub64 n index) in
      let (low, high) = start_bound index r.next_assembled_idx r.unassemble_strs v.core.stored in
      let skip : sub64 n index ≡ n - index = ground (arith, low, high, u) in
      let same =
        trim_nothing n sz r.unassembled_bytes_num r.unassemble_strs
          (ground (arith, skip, low, high, u)) in
      let none : positive sz ≡ false = ground (arith, skip, low, high, u) in
      rw same (elim (Bool-cases (leb (first_unacceptable_idx r) n)) [
        | inl b ↦ rw b (record { valid = v; capacity = refl; reader = refl })
        | inr b ↦ rw b (
            finish-Untouched r (accept r n (sub64 n index) sz []) n (add64 index 0) v
              (accept_nothing S top small n n (sub64 n index) sz [] r v.core none (omega arith)))
      ])
