-- ===== src/TcpSender/Segments.antt =====
-- One round of `fill_window` of libsponge/tcp_sender.cc, and the loop as a relation with a rule for
-- each way through its body.
use sponge.Prelude.{
  ℕ, zero, suc, ◌+◌, ◌-◌, ◌^◌, ◌≤◌, ◌<◌, ◌≡◌, ap, refl, Bool, false, true, not, ◌||◌, List, [], ◌∷◌,
  ◌++◌, length, min, add64, sub64, ltb, ◌==◌, arith, Bool-cases, tests, inl, inr, length-take,
  length-drop, take-append-drop,
}
use sponge.Wrapping.{wrap}
use sponge.ByteStream
use sponge.ByteStream.{ByteStream}
use sponge.ByteStream.Invariant.{IsValid, pop_output-IsValid}
use sponge.TcpSegment.{TcpSegment, length_in_sequence_space, bit}
use sponge.TcpSender.{TcpSender, max_payload_size, make_segment, send, fill_loop}

abbrev pub segment : ℕ → TcpSender → TcpSegment
segment w s = (make_segment w s).0

-- The state after the round's segment is queued.
abbrev pub sent : ℕ → TcpSender → TcpSender
sent w s = send (make_segment w s).0 (make_segment w s).1

-- The ways through the loop.
pub data Fill (w : ℕ) : TcpSender → TcpSender → Type 0 where
  full : (s : TcpSender) → w ≤ s.outgoing_bytes → Fill w s s
  idle :
      (s : TcpSender)
      → s.outgoing_bytes < w
      → length_in_sequence_space (segment w s) ≡ 0
      → Fill w s (make_segment w s).1
  last :
      (s : TcpSender)
      → s.outgoing_bytes < w
      → 0 < length_in_sequence_space (segment w s)
      → (segment w s).header.fin ≡ true
      → Fill w s (sent w s)
  more :
      (s : TcpSender) {t : TcpSender}
      → s.outgoing_bytes < w
      → 0 < length_in_sequence_space (segment w s)
      → (segment w s).header.fin ≡ false
      → Fill w (sent w s) t
      → Fill w s t

-- What a round takes out of the stream and puts in flight.
pub record Round (w : ℕ) (s : TcpSender) (seg : TcpSegment) (s' : TcpSender) : Type 0 where
  pub payload : seg.payload ++ s'.stream.buffer ≡ s.stream.buffer
  pub read : s'.stream.bytes_read ≡ add64 s.stream.bytes_read (length seg.payload)
  pub valid : IsValid s.stream → IsValid s'.stream
  pub short : length seg.payload ≤ max_payload_size
  pub fits : length seg.payload + bit seg.header.syn + s.outgoing_bytes ≤ w
  pub seqno : seg.header.seqno ≡ wrap s.next_seqno s.isn
  pub first : seg.header.syn ≡ not s.syn_flag
  -- The segment fits the window, but where it has both flags: then it may be one over.
  pub window : s.syn_flag ≡ true → length_in_sequence_space seg + s.outgoing_bytes ≤ w
  pub wide : length_in_sequence_space seg + s.outgoing_bytes ≤ w + bit seg.header.fin
  pub fin' : s'.fin_flag ≡ s.fin_flag || seg.header.fin
  pub ends : seg.header.fin ≡ true → (s.fin_flag ≡ false) × (ByteStream.eof s'.stream ≡ true)
  pub queue : s'.segments_out ≡ s.segments_out
  pub syn' : s'.syn_flag ≡ true
  pub kept :
      (s'.outgoing_map ≡ s.outgoing_map)
      × (s'.outgoing_bytes ≡ s.outgoing_bytes)
      × (s'.next_seqno ≡ s.next_seqno)
      × (s'.isn ≡ s.isn)
  -- A round with nothing to send leaves nothing to send.
  pub dry :
      length_in_sequence_space seg ≡ 0
      → (s'.stream.buffer ≡ []) × (ByteStream.eof s'.stream ≡ true → s'.fin_flag ≡ true)

pub nil_of_length : (xs : List ℕ) → length xs ≡ 0 → xs ≡ []
nil_of_length [] h = refl
nil_of_length (x ∷ xs) h = absurd (omega arith)

pub make_segment-Round :
    (w : ℕ) (s : TcpSender)
    → w < 2 ^ 62
    → s.outgoing_bytes < w
    → Round w s (make_segment w s).0 (make_segment w s).1
unfolding make_segment ByteStream.read ByteStream.peek_output ByteStream.pop_output
make_segment-Round w s small less =
    let n =
      min (min max_payload_size (sub64 (sub64 w s.outgoing_bytes) (bit (not s.syn_flag))))
        (length s.stream.buffer) in
    let taken = length-take n s.stream.buffer in
    record {
      payload = take-append-drop n s.stream.buffer;
      read = omega (arith, taken);
      valid = λ v.
          pop_output-IsValid s.stream
            (min max_payload_size (sub64 (sub64 w s.outgoing_bytes) (bit (not s.syn_flag)))) v;
      short = omega arith;
      fits = ground arith;
      seqno = refl;
      first = refl;
      window = λ h. rw h (ground arith);
      wide = ground arith;
      fin' = ground arith;
      ends = ground arith;
      syn' = refl;
      queue = refl;
      kept = (refl, refl, refl, refl);
      dry = λ e. (nil_of_length _ (ground (arith, length-drop n s.stream.buffer)), ground arith);
    }

pub bit_le : (b : Bool) → bit b ≤ 1
bit_le b = ground arith

pub sent_flight :
    (w : ℕ) (s : TcpSender)
    → w < 2 ^ 62
    → s.outgoing_bytes < w
    → (sent w s).outgoing_bytes ≡ s.outgoing_bytes + length_in_sequence_space (segment w s)
unfolding send
sent_flight w s small less =
    let round = make_segment-Round w s small less in
    omega (arith, round.wide, round.kept.1, bit_le (segment w s).header.fin)

pub sent_next :
    (w : ℕ) (s : TcpSender)
    → w < 2 ^ 62
    → s.outgoing_bytes < w
    → s.next_seqno + w < 2 ^ 63
    → (sent w s).next_seqno ≡ s.next_seqno + length_in_sequence_space (segment w s)
unfolding send
sent_next w s small less big =
    let round = make_segment-Round w s small less in
    omega (arith, round.wide, round.kept.2, bit_le (segment w s).header.fin)

-- A segment with no FIN keeps within the window.
pub sent_within :
    (w : ℕ) (s : TcpSender)
    → w < 2 ^ 62
    → s.outgoing_bytes < w
    → (segment w s).header.fin ≡ false
    → (sent w s).outgoing_bytes ≤ w
sent_within w s small less d =
    omega (arith, sent_flight w s small less, (make_segment-Round w s small less).wide, ap bit d)

-- With more fuel than there is room in the window, the loop ends by one of its exits.
pub fill_loop-Fill :
    (fuel w : ℕ) (s : TcpSender)
    → w < 2 ^ 62
    → w - s.outgoing_bytes < fuel
    → Fill w s (fill_loop fuel w s)
unfolding fill_loop
fill_loop-Fill zero w s small enough = absurd (omega arith)
fill_loop-Fill (suc fuel) w s small enough = elim (Bool-cases (ltb s.outgoing_bytes w)) [
  | inr b ↦ rw b (full s (omega tests))
  | inl b ↦
      let round = make_segment-Round w s small (omega tests) in
      elim (Bool-cases (length_in_sequence_space (segment w s) == 0)) [
        | inl c ↦ rw (b, c) (idle s (omega tests) (omega tests))
        | inr c ↦ elim (Bool-cases (segment w s).header.fin) [
          | inl d ↦ rw (b, c, d) (last s (omega tests) (omega tests) d)
          | inr d ↦
              rw (b, c, d)
                (more s (omega tests) (omega tests) d (
                  fill_loop-Fill fuel w (sent w s) small
                    (omega (tests, sent_flight w s small (omega tests)))))
        ]
      ]
]
