-- ===== src/Reassembler/Delivery.antt =====
-- What `push_substring` of libsponge/stream_reassembler.cc keeps of what it is given, and when the
-- stream is complete.
use sponge.Prelude.{
  ltb, Bool-cases, tests, ℕ, ◌+◌, ◌^◌, ◌≤◌, ◌<◌, ◌≡◌, ◌⊎◌, inl, inr, List, [], ◌∷◌, length, arith,
  Bool, true,
}
use sponge.Reassembler.{Reassembler, Entries, push_substring, new_start}
use sponge.Reassembler.Stored.{Stored, Stored-le, Covered}
use sponge.Reassembler.Start.{new_start-IsStart}
use sponge.Reassembler.Assemble.{Known, HeadAbove}
use sponge.Reassembler.Finish.{IsValid, IsPart}
use sponge.Reassembler.Push.{push-Pushed}

module _ (S : ℕ → ℕ) (top : ℕ) (small : top < 2 ^ 62) where
  -- One call on a valid state with a part of the stream: the state stays valid, the assembled prefix
  -- does not shrink, the reader's place stays, and every byte inside the window that was assembled or
  -- waiting, or that the part brings, is assembled or waiting afterwards.
  pub push_keeps :
      (r : Reassembler) (bytes : List ℕ) (index : ℕ) (eof : Bool)
      → IsValid S top small r
      → IsPart S top small bytes index eof
      → let r' = push_substring r bytes index eof in
        IsValid S top small r'
        × (r.next_assembled_idx ≤ r'.next_assembled_idx)
        × (r'.output.bytes_read ≡ r.output.bytes_read)
        × ((x : ℕ)
            → x < r.output.bytes_read + r.capacity
            → Known x r ⊎ ((index ≤ x) × (x < index + length bytes))
            → Known x r')
  push_keeps r bytes index eof v p =
      let pushed = push-Pushed S top small r bytes index eof v p in
      (pushed.valid', pushed.grows, pushed.reader, pushed.keeps)

  Covered-above : (x lo : ℕ) (m : Entries) → Stored S top lo m → Covered x m → lo ≤ x
  Covered-above x lo ((i, d) ∷ m) v (inl c) = omega arith
  Covered-above x lo ((i, d) ∷ m) v (inr c) = omega (arith, Covered-above x (i + length d) m v.3 c)
  Covered-above x lo [] v c = absurd c

  -- A pair above `n` leaves `n` itself out.
  Covered-head : (n lo : ℕ) (m : Entries) → HeadAbove n m → Stored S top lo m → ¬ Covered n m
  Covered-head n lo [] h v c = c
  Covered-head n lo ((i, d) ∷ m) h v (inl c) = absurd (omega arith)
  Covered-head n lo ((i, d) ∷ m) h v (inr c) =
      absurd (omega (arith, Covered-above n (i + length d) m v.3 c))

  -- Where the window reaches past the end of the stream, and each byte is assembled, waits or is in
  -- the pushed part, the call completes the stream; where the last byte's flag comes or has come, it ends the stream as well.
  pub push_completes :
      (r : Reassembler) (bytes : List ℕ) (index : ℕ) (eof : Bool)
      → IsValid S top small r
      → IsPart S top small bytes index eof
      → top < r.output.bytes_read + r.capacity
      → ((x : ℕ) → x < top → Known x r ⊎ ((index ≤ x) × (x < index + length bytes)))
      → (eof ≡ true) ⊎ (r.eof_idx ≡ top)
      → let r' = push_substring r bytes index eof in
        (r'.next_assembled_idx ≡ top) × (r'.output.input_ended ≡ true)
  push_completes r bytes index eof v p wide all e =
      let r' = push_substring r bytes index eof in
      let next' = r'.next_assembled_idx in
      let pushed = push-Pushed S top small r bytes index eof v p in
      let start =
        new_start-IsStart S top index small (omega (arith, p.within)) r.next_assembled_idx
          r.unassemble_strs v.core.stored in
      let inside : new_start r.next_assembled_idx r.unassemble_strs index
          < r.output.bytes_read + r.capacity =
        omega (arith, start.within_top) in
      let out = pushed.valid'.core.output in
      let stored = pushed.valid'.core.stored in
      let below = Stored-le S top next' r'.unassemble_strs stored in
      let reached : next' ≡ top = elim (Bool-cases (ltb next' top)) [
        | inr b ↦ omega tests
        | inl b ↦ elim (pushed.keeps next' (omega tests) (all next' (omega tests))) [
          | inl k ↦ absurd (omega arith)
          | inr c ↦ elim (pushed.flushed inside) [
            | inl full ↦ absurd (omega (tests, out.position, pushed.reader, pushed.capacity))
            | inr head ↦ absurd (Covered-head next' next' r'.unassemble_strs head stored c)
          ]
        ]
      ] in
      (
        reached,
        elim e [
          | inl last ↦ pushed.valid'.ends (pushed.eof_known inside last) reached
          | inr was ↦ pushed.valid'.ends (pushed.eof_kept was) reached
        ],
      )
