-- ===== src/Reassembler/Finish.antt =====
-- The invariant of libsponge/stream_reassembler.cc, and the end of `push_substring` that keeps it.
use sponge.Prelude.{
  ℕ, ◌+◌, ◌-◌, ◌^◌, ◌≤◌, ◌<◌, ◌≡◌, ◌⊎◌, inl, inr, List, length, arith, Bool-cases, leb, refl, tests,
  Bool, true, if◌then◌else◌,
}
use sponge.ByteStream
use sponge.ByteStream.{ByteStream}
use sponge.Reassembler.{Reassembler, finish}
use sponge.Reassembler.Stored.{Agrees, Stored-le}
use sponge.Reassembler.Output.{Output}
use sponge.Reassembler.Assemble.{Core}

-- What `finish` leaves alone.
pub record Frame (r r' : Reassembler) (eof_idx : ℕ) : Type 0 where
  pub next : r'.next_assembled_idx ≡ r.next_assembled_idx
  pub strs : r'.unassemble_strs ≡ r.unassemble_strs
  pub capacity : r'.capacity ≡ r.capacity
  pub reader : r'.output.bytes_read ≡ r.output.bytes_read
  pub buffer : r'.output.buffer ≡ r.output.buffer
  pub eof : r'.eof_idx ≡ eof_idx

pub finish-Frame :
    (r : Reassembler) (end : ℕ) (fin : Bool)
    → Frame r (finish r end fin) (if fin then end else r.eof_idx)
unfolding finish ByteStream.end_input
finish-Frame r end fin = ground arith

module _ (S : ℕ → ℕ) (top : ℕ) (small : top < 2 ^ 62) where
  -- The representation invariant.
  pub record IsValid (r : Reassembler) : Type 0 where
    pub core : Core S top small r
    pub eof : (r.eof_idx ≡ top) ⊎ (r.eof_idx ≡ 2 ^ 64 - 1)
    pub ended : r.output.input_ended ≡ true → (r.eof_idx ≡ top) × (r.next_assembled_idx ≡ top)
    pub ends : r.eof_idx ≡ top → r.next_assembled_idx ≡ top → r.output.input_ended ≡ true

  -- A substring of the stream. `eof` marks its last byte.
  pub record IsPart (bytes : List ℕ) (index : ℕ) (eof : Bool) : Type 0 where
    pub agrees : Agrees S index bytes
    pub within : index + length bytes ≤ top
    pub last : eof ≡ true → index + length bytes ≡ top

  ended-Output :
      (next cap : ℕ) (s : ByteStream)
      → Output S next cap s
      → Output S next cap (ByteStream.end_input s)
  unfolding ByteStream.end_input
  ended-Output next cap s o = record {
    small = o.small;
    room = o.room;
    bounded = o.bounded;
    position = o.position;
    written = o.written;
    bytes = o.bytes;
  }

  pub finish-IsValid_at :
      (end : ℕ) (fin : Bool) (r : Reassembler)
      → Core S top small r
      → let e = if fin then end else r.eof_idx in
        (e ≡ top) ⊎ (e ≡ 2 ^ 64 - 1)
        → (r.output.input_ended ≡ true → (e ≡ top) × (r.next_assembled_idx ≡ top))
        → IsValid (finish r end fin)
  unfolding finish ByteStream.end_input
  finish-IsValid_at end fin r c known ended =
      let e = if fin then end else r.eof_idx in
      let below = Stored-le S top r.next_assembled_idx r.unassemble_strs c.stored in
      elim (Bool-cases (leb e r.next_assembled_idx)) [
        | inl b ↦
            let at_top : (e ≡ top) × (r.next_assembled_idx ≡ top) = elim known [
              | inl k ↦ (k, omega tests)
              | inr k ↦ absurd (omega tests)
            ] in
            rw b (record {
              core = record {
                output = ended-Output r.next_assembled_idx r.capacity r.output c.output;
                stored = c.stored;
              };
              eof = known;
              ended = λ h. at_top;
              ends = λ h k. refl;
            })
        | inr b ↦ rw b (record {
          core = record { output = c.output; stored = c.stored };
          eof = known;
          ended = ended;
          ends = λ h k. absurd (omega tests);
        })
      ]
