-- ===== src/StreamCopy/Conserves.antt =====
-- No byte is lost, repeated or reordered by apps/bidirectional_stream_copy.cc, and its event loop
-- does not take it for busy.
use mathlib.Core.Option.{some-injective}
use sponge.Prelude.{
  ℕ, ◌+◌, ◌%◌, ◌^◌, ◌≤◌, ◌≡◌, ◌≢◌, Bool, true, false, some, List, ◌++◌, min, length, take, drop,
  bind-some, Bool-cases, inl, inr, arith, sym, ap, ◌∙◌, subst, append_assoc, take_all, take-take,
  take-append-drop,
}
use sponge.ByteStream
use sponge.ByteStream.{ByteStream, remaining_capacity, buffer_size}
use sponge.ByteStream.Invariant.{
  IsValid, write-IsValid, pop_output-IsValid, end_input-IsValid, length-peek_output,
}
use sponge.FileDescriptor
use sponge.FileDescriptor.{FileDescriptor, Kernel, How, max_read}
use sponge.FileDescriptor.Calls.{
  read-Reads, write-Writes, close-SameBytes, shutdown-SameBytes, shutdown-write_count,
}
use sponge.StreamCopy.{
  Copy, take_in, put_out, read_input, write_socket, read_socket, write_output, buffer_bytes,
  max_copy_length,
}

-- What a stream of 1 MiB holds is the rest of what came in.
pub record Holds (taken written : List ℕ) (stream : ByteStream) : Type 0 where
  pub order : written ++ stream.buffer ≡ taken
  pub valid : IsValid stream
  pub room : stream.capacity ≡ buffer_bytes

pub end_input-Holds :
    (taken written : List ℕ) (s : ByteStream)
    → Holds taken written s
    → Holds taken written (ByteStream.end_input s)
unfolding ByteStream.end_input
end_input-Holds taken written s h = record {
  order = h.order;
  valid = unfold ByteStream.end_input in end_input-IsValid s h.valid;
  room = h.room;
}

ended :
    (at_end : Bool) (taken written : List ℕ) (s : ByteStream)
    → Holds taken written s
    → Holds taken written
        (elim at_end as (λ _. ByteStream) [ true ↦ ByteStream.end_input s | false ↦ s ])
ended true taken written s h = end_input-Holds taken written s h
ended false taken written s h = h

-- What a write took leaves the stream.
pop_written :
    (s : ByteStream) (len n : ℕ) (written taken : List ℕ)
    → Holds taken written s
    → n ≤ length (ByteStream.peek_output s len)
    → Holds taken (written ++ take n (ByteStream.peek_output s len)) (ByteStream.pop_output s n)
pop_written s len n written taken h within =
    let k = min len (length s.buffer) in
    let most : n ≤ k = omega (arith, length-peek_output s len) in
    let popped : min n (length s.buffer) ≡ n = omega arith in
    let front : take n (ByteStream.peek_output s len) ≡ take n s.buffer =
      unfold ByteStream.peek_output in take-take n k s.buffer most in
    let back : (ByteStream.pop_output s n).buffer ≡ drop n s.buffer =
      unfold ByteStream.pop_output in ap (λ m. drop m s.buffer) popped in
    record {
      order = rw (front, back, append_assoc, take-append-drop) h.order;
      valid = pop_output-IsValid s n h.valid;
      room = unfold ByteStream.pop_output in h.room;
    }

write_room :
    (s : ByteStream) (bytes written taken : List ℕ)
    → Holds taken written s
    → length bytes ≤ remaining_capacity s
    → Holds (taken ++ bytes) written (ByteStream.write s bytes).1
write_room s bytes written taken h fits =
    let all : (ByteStream.write s bytes).1.buffer ≡ s.buffer ++ bytes =
      unfold ByteStream.write in
      ap (λ x. s.buffer ++ x)
        (take_all (min (length bytes) (remaining_capacity s)) bytes (omega arith)) in
    record {
      order =
          ap (λ x. written ++ x) all
          ∙ sym (append_assoc written s.buffer bytes)
          ∙ ap (λ x. x ++ bytes) h.order;
      valid = write-IsValid s bytes h.valid;
      room = unfold ByteStream.write in h.room;
    }

-- `d'` and `s'` after the callback that reads.
record TakesIn (d : FileDescriptor) (written : List ℕ) (d' : FileDescriptor) (s' : ByteStream)
    : Type 0 where
  holds : Holds d'.kernel.taken written s'
  other : d'.kernel.written ≡ d.kernel.written
  counted : d'.read_count ≡ (d.read_count + 1) % 2 ^ 32

take_in-TakesIn :
    (d d' : FileDescriptor) (s s' : ByteStream) (written : List ℕ)
    → Holds d.kernel.taken written s
    → take_in d s ≡ some (d', s')
    → TakesIn d written d' s'
unfolding take_in
take_in-TakesIn d d' s s' written h e =
    let ((bytes, t), is_read, rest) =
      bind-some (FileDescriptor.read d (remaining_capacity s)) _ (d', s') e in
    let reads = read-Reads d t (remaining_capacity s) bytes is_read in
    let held : Holds t.kernel.taken written (ByteStream.write s bytes).1 =
      subst (λ x. Holds x written (ByteStream.write s bytes).1) (sym reads.taken)
        (write_room s bytes written d.kernel.taken h (omega arith)) in
    subst (λ (p : FileDescriptor × ByteStream). TakesIn d written (p.0) (p.1))
      (some-injective _ (d', s') rest)
      (record {
        holds = ended t.eof t.kernel.taken written (ByteStream.write s bytes).1 held;
        other = reads.written;
        counted = reads.counted;
      })

record PutsOut (d : FileDescriptor) (taken : List ℕ) (d' : FileDescriptor) (s' : ByteStream)
    : Type 0 where
  holds : Holds taken d'.kernel.written s'
  other : d'.kernel.taken ≡ d.kernel.taken
  counted : d'.write_count ≡ (d.write_count + 1) % 2 ^ 32

put_out-PutsOut :
    (d d' : FileDescriptor) (s s' : ByteStream) (taken : List ℕ)
    → Holds taken d.kernel.written s
    → put_out d s ≡ some (d', s')
    → PutsOut d taken d' s'
unfolding put_out
put_out-PutsOut d d' s s' taken h e =
    let m = min max_copy_length (buffer_size s) in
    let ((n, t), is_written, rest) =
      bind-some (FileDescriptor.write d (ByteStream.peek_output s m) false) _ (d', s') e in
    let writes =
      write-Writes d t (ByteStream.peek_output s m) n (omega (arith, length-peek_output s m))
        is_written in
    let held : Holds taken t.kernel.written (ByteStream.pop_output s n) =
      subst (λ x. Holds taken x (ByteStream.pop_output s n)) (sym writes.written)
        (pop_written s m n d.kernel.written taken h writes.within) in
    subst (λ (p : FileDescriptor × ByteStream). PutsOut d taken (p.0) (p.1))
      (some-injective _ (d', s') rest)
      (record { holds = held; other = writes.taken; counted = writes.counted })

-- Both directions.
pub record Conserves (s : Copy) : Type 0 where
  pub outward : Holds s.input.kernel.taken s.socket.kernel.written s.outbound
  pub inward : Holds s.socket.kernel.taken s.output.kernel.written s.inbound

-- A step of a rule: both directions are kept, and a count of the rule's descriptor has moved.
abbrev pub Steps : (Copy → ℕ) → Copy → Copy → Type 0
Steps count s s' = Conserves s' × (count s ≢ count s')

pub read_input-Steps :
    (s s' : Copy) → Conserves s → read_input s ≡ some s' → Steps (λ x. x.input.read_count) s s'
unfolding read_input
read_input-Steps s s' c e =
    let ((d, t), is_in, rest) = bind-some (take_in s.input s.outbound) _ s' e in
    let takes = take_in-TakesIn s.input d s.outbound t s.socket.kernel.written c.outward is_in in
    subst (Steps (λ x. x.input.read_count) s) (some-injective _ s' rest)
      (record { outward = takes.holds; inward = c.inward }, λ q. omega (arith, takes.counted))

pub read_socket-Steps :
    (s s' : Copy) → Conserves s → read_socket s ≡ some s' → Steps (λ x. x.socket.read_count) s s'
unfolding read_socket
read_socket-Steps s s' c e =
    let ((d, t), is_in, rest) = bind-some (take_in s.socket s.inbound) _ s' e in
    let takes = take_in-TakesIn s.socket d s.inbound t s.output.kernel.written c.inward is_in in
    subst (Steps (λ x. x.socket.read_count) s) (some-injective _ s' rest) (
      record {
        outward = subst (λ x. Holds s.input.kernel.taken x s.outbound) (sym takes.other) c.outward;
        inward = takes.holds;
      },
      λ q. omega (arith, takes.counted),
    )

pub write_socket-Steps :
    (s s' : Copy) → Conserves s → write_socket s ≡ some s' → Steps (λ x. x.socket.write_count) s s'
unfolding write_socket
write_socket-Steps s s' c e =
    let ((d, t), is_out, rest) = bind-some (put_out s.socket s.outbound) _ s' e in
    let puts = put_out-PutsOut s.socket d s.outbound t s.input.kernel.taken c.outward is_out in
    let inward : Holds d.kernel.taken s.output.kernel.written s.inbound =
      subst (λ x. Holds x s.output.kernel.written s.inbound) (sym puts.other) c.inward in
    elim (Bool-cases (ByteStream.eof t)) [
      | inl over ↦
          let (d', is_shut, done) =
            bind-some (FileDescriptor.shutdown d How.shut_wr) _ s' (rw over at rest) in
          let same = shutdown-SameBytes d d' How.shut_wr is_shut in
          subst (Steps (λ x. x.socket.write_count) s) (some-injective _ s' done) (
            record {
              outward = subst (λ x. Holds s.input.kernel.taken x t) (sym same.written) puts.holds;
              inward =
                  subst (λ x. Holds x s.output.kernel.written s.inbound) (sym same.taken) inward;
            },
            λ q. omega (arith, puts.counted, (shutdown-write_count d d' is_shut).1),
          )
      | inr more ↦
          subst (Steps (λ x. x.socket.write_count) s) (some-injective _ s' (rw more at rest))
            (record { outward = puts.holds; inward = inward }, λ q. omega (arith, puts.counted))
    ]

pub write_output-Steps :
    (s s' : Copy) → Conserves s → write_output s ≡ some s' → Steps (λ x. x.output.write_count) s s'
unfolding write_output
write_output-Steps s s' c e =
    let ((d, t), is_out, rest) = bind-some (put_out s.output s.inbound) _ s' e in
    let puts = put_out-PutsOut s.output d s.inbound t s.socket.kernel.taken c.inward is_out in
    elim (Bool-cases (ByteStream.eof t)) [
      | inl over ↦
          let (d', is_closed, done) = bind-some (FileDescriptor.close d) _ s' (rw over at rest) in
          let (same, reads, writes) = close-SameBytes d d' is_closed in
          subst (Steps (λ x. x.output.write_count) s) (some-injective _ s' done) (
            record {
              outward = c.outward;
              inward = subst (λ x. Holds s.socket.kernel.taken x t) (sym same.written) puts.holds;
            },
            λ q. omega (arith, puts.counted, writes),
          )
      | inr more ↦
          subst (Steps (λ x. x.output.write_count) s) (some-injective _ s' (rw more at rest))
            (record { outward = c.outward; inward = puts.holds }, λ q. omega (arith, puts.counted))
    ]
