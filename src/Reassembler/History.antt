-- ===== src/Reassembler/History.antt =====
-- Histories of libsponge/stream_reassembler.cc: substrings arrive in any order, and a reader takes
-- bytes out of the stream between them.
use sponge.Prelude.{
  ℕ, ◌^◌, ◌<◌, ◌≡◌, ◌∙◌, sym, inr, List, [], ◌∷◌, ◌++◌, length, take, min, arith, refl,
  length-append, length-take, length-drop, Bool,
}
use sponge.ByteStream
use sponge.ByteStream.{ByteStream}
use sponge.Reassembler.{Reassembler, init, push_substring}
use sponge.Reassembler.Stored.{Agrees, Agrees-append, Agrees-take, Agrees-drop, Stored-le}
use sponge.Reassembler.Output.{Output}
use sponge.Reassembler.Finish.{IsValid, IsPart}
use sponge.Reassembler.Push.{push-Pushed}

pub data Event : Type 0 where
  pushes : List ℕ → ℕ → Bool → Event
  reads : ℕ → Event

-- The state, and what the reader has taken, oldest first.
pub record Trace : Type 0 where
  pub state : Reassembler
  pub delivered : List ℕ

unfoldable pub step : Trace → Event → Trace
step t (pushes bytes index eof) = record t { state = push_substring t.state bytes index eof }
step t (reads len) =
    let (out, s) = ByteStream.read t.state.output len in
    record { state = record (t.state) { output = s }; delivered = t.delivered ++ out }

unfoldable pub run : Trace → List Event → Trace
run t [] = t
run t (e ∷ es) = run (step t e) es

abbrev pub begin : ℕ → Trace
begin capacity = record { state = init capacity; delivered = [] }

module _ (S : ℕ → ℕ) (top : ℕ) (small : top < 2 ^ 62) where
  pub init-IsValid : (capacity : ℕ) → capacity < 2 ^ 62 → IsValid S top small (init capacity)
  unfolding init ByteStream.init
  init-IsValid capacity h = record {
    core = record {
      output = record {
        small = h;
        room = refl;
        bounded = omega arith;
        position = omega arith;
        written = refl;
        bytes = tt;
      };
      stored = omega arith;
    };
    eof = inr refl;
    ended = λ e. cc;
    ends = λ e. absurd (omega arith);
  }

  read-Output :
      (next capacity len : ℕ) (s : ByteStream)
      → Output S next capacity s
      → next < 2 ^ 62
      → Output S next capacity (ByteStream.pop_output s len)
  unfolding ByteStream.pop_output
  read-Output next capacity len s o h =
      let k = min len (length s.buffer) in
      let lengths = length-drop k s.buffer in
      record {
        small = o.small;
        room = o.room;
        bounded = omega arith;
        position = omega arith;
        written = o.written;
        bytes = Agrees-drop S k s.bytes_read _ s.buffer (omega arith) o.bytes;
      }

  -- Each substring is a part of the stream.
  abbrev pub IsParts : List Event → Type 0
  IsParts [] = Unit {0}
  IsParts (pushes bytes index eof ∷ es) = IsPart S top small bytes index eof × IsParts es
  IsParts (reads len ∷ es) = IsParts es

  pub record IsTrace (t : Trace) : Type 0 where
    pub valid : IsValid S top small t.state
    pub count : length t.delivered ≡ t.state.output.bytes_read
    pub order : Agrees S 0 t.delivered

  pub read-IsTrace : (t : Trace) (len : ℕ) → IsTrace t → IsTrace (step t (reads len))
  unfolding step ByteStream.read ByteStream.pop_output ByteStream.peek_output
  read-IsTrace t len i =
      let s = t.state.output in
      let out = i.valid.core.output in
      let k = min len (length s.buffer) in
      let next = t.state.next_assembled_idx in
      let below = Stored-le S top next t.state.unassemble_strs i.valid.core.stored in
      let taken = length-take k s.buffer in
      record {
        valid = record {
          core = record {
            output = read-Output next t.state.capacity len s out (omega arith);
            stored = i.valid.core.stored;
          };
          eof = i.valid.eof;
          ended = i.valid.ended;
          ends = i.valid.ends;
        };
        count = omega (arith, length-append t.delivered (take k s.buffer), i.count, out.position);
        order =
            Agrees-append S 0 s.bytes_read t.delivered (take k s.buffer) (omega (arith, i.count))
              i.order (Agrees-take S k s.bytes_read s.buffer out.bytes);
      }

  pub step-IsTrace : (t : Trace) (e : Event) → IsParts (e ∷ []) → IsTrace t → IsTrace (step t e)
  step-IsTrace t (pushes bytes index eof) p i =
      let pushed = push-Pushed S top small t.state bytes index eof i.valid p.0 in
      unfold step in
      record { valid = pushed.valid'; count = i.count ∙ sym pushed.reader; order = i.order }
  step-IsTrace t (reads len) p i = read-IsTrace t len i

  run-IsTrace : (t : Trace) (es : List Event) → IsParts es → IsTrace t → IsTrace (run t es)
  unfolding run
  run-IsTrace t [] p i = i
  run-IsTrace t (pushes bytes index eof ∷ es) p i =
      run-IsTrace (step t (pushes bytes index eof)) es p.1
        (step-IsTrace t (pushes bytes index eof) (p.0, tt) i)
  run-IsTrace t (reads len ∷ es) p i =
      run-IsTrace (step t (reads len)) es p (step-IsTrace t (reads len) tt i)

  -- Whatever parts of a stream are pushed, in whatever order, with overlaps and repetitions, and
  -- however the reader takes bytes between them: what was read and then what is buffered are the
  -- first bytes of that stream, `_next_assembled_idx` of them, and the state is valid.
  pub run_prefix :
      (capacity : ℕ) (es : List Event)
      → capacity < 2 ^ 62
      → IsParts es
      → let t = run (begin capacity) es in
        Agrees S 0 (t.delivered ++ t.state.output.buffer)
        × (length (t.delivered ++ t.state.output.buffer) ≡ t.state.next_assembled_idx)
        × IsValid S top small t.state
  run_prefix capacity es h p =
      let t = run (begin capacity) es in
      let start : IsTrace (begin capacity) = record {
        valid = init-IsValid capacity h;
        count = unfold init ByteStream.init in refl;
        order = tt;
      } in
      let i = run-IsTrace (begin capacity) es p start in
      let out = i.valid.core.output in
      (
        Agrees-append S 0 t.state.output.bytes_read t.delivered t.state.output.buffer
            (omega (arith, i.count)) i.order out.bytes,
        omega (arith, length-append t.delivered t.state.output.buffer, i.count, out.position),
        i.valid,
      )
