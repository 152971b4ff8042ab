-- ===== src/ByteStream/Fifo.antt =====
-- A history of libsponge/byte_stream.cc as a FIFO: what was read, then what is buffered, is what was
-- accepted.
use sponge.Prelude.{
  ℕ, ◌≡◌, refl, List, [], ◌∷◌, ◌++◌, min, length, take, take-append-drop, append_assoc, IsU64,
}
use sponge.ByteStream.{ByteStream, init, write, peek_output, pop_output, read, end_input, set_error}
use sponge.ByteStream.Invariant.{
  IsValid, init-IsValid, write-IsValid, pop_output-IsValid, end_input-IsValid, set_error-IsValid,
}

-- A call of the writer or of the reader.
pub data Call : Type 0 where
  writes : List ℕ → Call
  reads pops : ℕ → Call
  ends fails : Call

-- The stream with the bytes that `write` accepted and those that left through `read` or
-- `pop_output`, oldest first.
pub record History : Type 0 where
  pub stream : ByteStream
  pub accepted : List ℕ
  pub delivered : List ℕ

unfoldable pub step : History → Call → History
step h (writes bytes) =
    let (n, s) = write h.stream bytes in
    record h { stream = s; accepted = h.accepted ++ take n bytes }
step h (reads len) =
    let (out, s) = read h.stream len in record h { stream = s; delivered = h.delivered ++ out }
step h (pops len) = record h {
  stream = pop_output h.stream len;
  delivered = h.delivered ++ peek_output h.stream len;
}
step h ends = record h { stream = end_input h.stream }
step h fails = record h { stream = set_error h.stream }

unfoldable pub run : History → List Call → History
run h [] = h
run h (c ∷ cs) = run (step h c) cs

abbrev pub start : ℕ → History
start capacity = record { stream = init capacity; accepted = []; delivered = [] }

record IsFifo (h : History) : Type 0 where
  valid : IsValid h.stream
  order : h.delivered ++ h.stream.buffer ≡ h.accepted

peek-pop : (s : ByteStream) (len : ℕ) → peek_output s len ++ (pop_output s len).buffer ≡ s.buffer
unfolding peek_output pop_output
peek-pop s len = take-append-drop (min len (length s.buffer)) s.buffer

shift_order :
    (d a : List ℕ) (s : ByteStream) (len : ℕ)
    → d ++ s.buffer ≡ a
    → (d ++ peek_output s len) ++ (pop_output s len).buffer ≡ a
shift_order d a s len h = rw (append_assoc, peek-pop s len) h

step-IsFifo : (h : History) (c : Call) → IsFifo h → IsFifo (step h c)
unfolding step write read end_input set_error
step-IsFifo h (writes bytes) v = record {
  valid = unfold write in write-IsValid h.stream bytes v.valid;
  order = rw (← append_assoc, v.order);
}
step-IsFifo h (reads len) v = record {
  valid = pop_output-IsValid h.stream len v.valid;
  order = shift_order h.delivered h.accepted h.stream len v.order;
}
step-IsFifo h (pops len) v = record {
  valid = pop_output-IsValid h.stream len v.valid;
  order = shift_order h.delivered h.accepted h.stream len v.order;
}
step-IsFifo h ends v = record { valid = end_input-IsValid h.stream v.valid; order = v.order }
step-IsFifo h fails v = record { valid = set_error-IsValid h.stream v.valid; order = v.order }

run-IsFifo : (h : History) (cs : List Call) → IsFifo h → IsFifo (run h cs)
unfolding run
run-IsFifo h [] v = v
run-IsFifo h (c ∷ cs) v = run-IsFifo (step h c) cs (step-IsFifo h c v)

-- After any history of a new stream, the bytes that left it followed by those in its buffer are the
-- bytes that it accepted, in order, and the buffer is within the capacity.
pub run_fifo :
    (capacity : ℕ) (cs : List Call)
    → IsU64 capacity
    → let h = run (start capacity) cs in
      (h.delivered ++ h.stream.buffer ≡ h.accepted) × IsValid h.stream
unfolding init
run_fifo capacity cs small =
    let v =
      run-IsFifo (start capacity) cs
        (record { valid = init-IsValid capacity small; order = refl }) in
    (v.order, v.valid)
