-- ===== src/Reassembler/Output.antt =====
-- The output stream of libsponge/stream_reassembler.cc: it holds the bytes of the logical stream up
-- to `_next_assembled_idx` that have not been read.
use sponge.Prelude.{
  ℕ, ◌+◌, ◌-◌, ◌^◌, ◌≤◌, ◌<◌, ◌≡◌, List, [], ◌∷◌, length, take, min, arith, refl, length-append,
  length-take,
}
use sponge.ByteStream
use sponge.ByteStream.{ByteStream}
use sponge.Prelude.Maps.{insert}
use sponge.Reassembler.{Entries}
use sponge.Reassembler.Stored.{Agrees, Stored, Agrees-take, Agrees-append}

module _ (S : ℕ → ℕ) where
  pub record Output (next capacity : ℕ) (s : ByteStream) : Type 0 where
    pub small : capacity < 2 ^ 62
    pub room : s.capacity ≡ capacity
    pub bounded : length s.buffer ≤ capacity
    pub position : s.bytes_read + length s.buffer ≡ next
    pub written : s.bytes_written ≡ next
    pub bytes : Agrees S s.bytes_read s.buffer

  -- One write of bytes that come next.
  pub record Wrote (next capacity : ℕ) (d : List ℕ) (s : ByteStream) (r : ℕ × ByteStream)
      : Type 0 where
    pub output : Output (next + r.0) capacity r.1
    pub count : r.0 ≡ min (length d) (capacity - length s.buffer)
    pub size : length r.1.buffer ≡ length s.buffer + r.0
    pub reader : r.1.bytes_read ≡ s.bytes_read
    pub ended : r.1.input_ended ≡ s.input_ended

  pub write-Wrote :
      (next capacity : ℕ) (d : List ℕ) (s : ByteStream)
      → Output next capacity s
      → Agrees S next d
      → next + length d < 2 ^ 62
      → Wrote next capacity d s (ByteStream.write s d)
  unfolding ByteStream.write
  write-Wrote next capacity d s o a h =
      let k = min (length d) (ByteStream.remaining_capacity s) in
      let lengths = length-append s.buffer (take k d) in
      let taken = length-take k d in
      record {
        output = record {
          small = o.small;
          room = o.room;
          bounded = omega arith;
          position = omega arith;
          written = omega arith;
          bytes =
              Agrees-append S s.bytes_read next s.buffer (take k d) o.position o.bytes
                (Agrees-take S k next d a);
        };
        count = omega arith;
        size = omega arith;
        reader = refl;
        ended = refl;
      }

pub insert_front :
    (S : ℕ → ℕ) (top lo k : ℕ) (d : List ℕ) (m : Entries)
    → lo ≤ k
    → 0 < length d
    → Agrees S k d
    → Stored S top (k + length d) m
    → insert k d m ≡ (k, d) ∷ m
unfolding insert
insert_front S top lo k d [] h p a v = refl
insert_front S top lo k d ((i, e) ∷ m) h p a v = ground arith

pub insert_front-Stored :
    (S : ℕ → ℕ) (top lo k : ℕ) (d : List ℕ) (m : Entries)
    → lo ≤ k
    → 0 < length d
    → Agrees S k d
    → Stored S top (k + length d) m
    → Stored S top lo (insert k d m)
insert_front-Stored S top lo k d m h p a v = rw (insert_front S top lo k d m h p a v) (h, p, a, v)
