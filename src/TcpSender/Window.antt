-- ===== src/TcpSender/Window.antt =====
-- What `fill_window` of libsponge/tcp_sender.cc sends, and when it stops.
use sponge.Prelude.{
  ℕ, zero, suc, ◌+◌, ◌-◌, ◌^◌, ◌≤◌, ◌<◌, ◌≡◌, refl, Bool, false, true, ◌&&◌, List, [], ◌∷◌, ◌++◌,
  arith, Bool-cases, tests, ◌⊎◌, inl, inr, ltb, ◌*◌, if◌then◌else◌, ◌==◌, append_assoc, append-nil,
  sym, ap, ◌∙◌,
}
use sponge.ByteStream
use sponge.ByteStream.{ByteStream}
use sponge.TcpSegment.{TcpSegment, length_in_sequence_space}
use sponge.TcpSender.{
  TcpSender, is_empty, send, fill_loop, fill_window, current_window, make_segment,
}
use sponge.TcpSender.Segments.{
  Fill, full, idle, last, more, make_segment-Round, segment, sent, sent_flight, nil_of_length,
  fill_loop-Fill,
}
use sponge.TcpSender.Invariant.{IsValid, Fill-IsValid}

nil_of_eof : (s : ByteStream) → ByteStream.eof s ≡ true → s.buffer ≡ []
nil_of_eof s e = go s.buffer s.input_ended e
  where
    go : (xs : List ℕ) (b : Bool) → (b && (elim xs [ [] ↦ true | _ ↦ false ])) ≡ true → xs ≡ []
    go [] b e = refl
    go (x ∷ xs) b e = ground arith

pub not_empty :
    (front : List TcpSegment) (seg : TcpSegment) (back : List TcpSegment)
    → is_empty (front ++ seg ∷ back) ≡ false
not_empty [] seg back = refl
not_empty (x ∷ front) seg back = refl

nil_of_size : (seg : TcpSegment) → length_in_sequence_space seg ≡ 0 → seg.payload ≡ []
nil_of_size seg e = nil_of_length seg.payload (omega arith)

-- The bytes that segments carry, in order.
unfoldable pub payloads : List TcpSegment → List ℕ
payloads [] = []
payloads (seg ∷ segs) = seg.payload ++ payloads segs

-- `t` has queued segments that carry the first bytes of what `s` had to send.
pub record Queued (s t : TcpSender) : Type 0 where
  pub new : List TcpSegment
  pub queue : t.segments_out ≡ s.segments_out ++ new
  pub bytes : payloads new ++ t.stream.buffer ≡ s.stream.buffer

module _ (w : ℕ) (small : w < 2 ^ 62) where
  -- The bytes in flight do not pass the window, once the SYN is out.
  Fill-window :
      {s t : TcpSender}
      → Fill w s t
      → s.syn_flag ≡ true
      → s.outgoing_bytes ≤ w
      → t.outgoing_bytes ≤ w
  unfolding send
  Fill-window (full s h) y b = b
  Fill-window (idle s h e) y b =
      let round = make_segment-Round w s small h in omega (arith, round.kept)
  Fill-window (last s h p d) y b =
      let round = make_segment-Round w s small h in
      omega (arith, sent_flight w s small h, round.window y)
  Fill-window (more s h p d r) y b =
      let round = make_segment-Round w s small h in
      Fill-window r (round.syn') (omega (arith, sent_flight w s small h, round.window y))

  -- When the loop ends, the window is full or there is nothing left to send.
  Fill-spent :
      {s t : TcpSender}
      → Fill w s t
      → (w ≤ t.outgoing_bytes)
        ⊎ ((t.stream.buffer ≡ []) × (ByteStream.eof t.stream ≡ true → t.fin_flag ≡ true))
  unfolding send
  Fill-spent (full s h) = inl h
  Fill-spent (idle s h e) = inr ((make_segment-Round w s small h).dry e)
  Fill-spent (last s h p d) =
      let round = make_segment-Round w s small h in
      inr (nil_of_eof (make_segment w s).1.stream (round.ends d).1, λ e. round.fin' ∙ ground arith)
  Fill-spent (more s h p d r) = Fill-spent r

  -- What the loop queues is cut from the front of the stream.
  Fill-Queued : {s t : TcpSender} → Fill w s t → Queued s t
  unfolding payloads send
  Fill-Queued (full s h) = record { new = []; queue = sym (append-nil _); bytes = refl }
  Fill-Queued (idle s h e) =
      let round = make_segment-Round w s small h in
      record {
        new = [];
        queue = round.queue ∙ sym (append-nil _);
        bytes = rw (nil_of_size (segment w s) e) at round.payload;
      }
  Fill-Queued (last s h p d) =
      let round = make_segment-Round w s small h in
      record {
        new = segment w s ∷ [];
        queue = ap (λ q. q ++ segment w s ∷ []) round.queue;
        bytes = rw append-nil round.payload;
      }
  Fill-Queued (more s {t = t} h p d r) =
      let round = make_segment-Round w s small h in
      let rest = Fill-Queued r in
      record {
        new = segment w s ∷ rest.new;
        queue =
            rest.queue
            ∙ ap (λ q. q ++ rest.new) (ap (λ q. q ++ segment w s ∷ []) round.queue)
            ∙ append_assoc s.segments_out (segment w s ∷ []) rest.new;
        bytes =
            append_assoc (segment w s).payload (payloads rest.new) t.stream.buffer
            ∙ ap (◌++◌ (segment w s).payload) rest.bytes
            ∙ (round.payload);
      }

  -- The first round of a sender that has not sent its SYN queues a segment.
  Fill-opens :
      {s t : TcpSender}
      → Fill w s t
      → s.syn_flag ≡ false
      → s.outgoing_bytes < w
      → is_empty t.segments_out ≡ false
  unfolding send
  Fill-opens (full s h) y less = absurd (omega arith)
  Fill-opens (idle s h e) y less =
      let round = make_segment-Round w s small h in absurd (ground (arith, round.first, e, y))
  Fill-opens (last s h p d) y less = not_empty (make_segment w s).1.segments_out (segment w s) []
  Fill-opens (more s {t = t} h p d r) y less =
      let rest = Fill-Queued r in
      rw (rest.queue, append_assoc)
        (not_empty (make_segment w s).1.segments_out (segment w s) rest.new)

-- `fill_window` of a sender that has not sent its SYN leaves something in the queue.
pub fill_window-opens :
    (s : TcpSender)
    → s.syn_flag ≡ false
    → s.outgoing_bytes ≡ 0
    → current_window s < 2 ^ 62
    → is_empty (fill_window s).segments_out ≡ false
unfolding fill_window
fill_window-opens s y none_out small =
    let w = current_window s in
    let fill = fill_loop-Fill (suc w) w s small (omega arith) in
    Fill-opens w small fill y (ground (arith, none_out))

-- More fuel than there is room in the window makes no difference: `fill_window` is given enough.
pub fill_loop_fuel :
    (f g w : ℕ) (s : TcpSender)
    → w < 2 ^ 62
    → w - s.outgoing_bytes < f
    → w - s.outgoing_bytes < g
    → fill_loop f w s ≡ fill_loop g w s
unfolding fill_loop
fill_loop_fuel zero g w s small p q = absurd (omega arith)
fill_loop_fuel (suc f) zero w s small p q = absurd (omega arith)
fill_loop_fuel (suc f) (suc g) w s small p q = elim (Bool-cases (ltb s.outgoing_bytes w)) [
  | inr b ↦ rw b
  | inl b ↦ elim (Bool-cases (length_in_sequence_space (segment w s) == 0)) [
    | inl c ↦ rw (b, c)
    | inr c ↦
        rw (b, c)
          (ap (λ r. if (segment w s).header.fin then sent w s else r)
            (fill_loop_fuel f g w (sent w s) small
              (omega (tests, sent_flight w s small (omega tests)))
              (omega (tests, sent_flight w s small (omega tests)))))
  ]
]

-- Once the SYN is out, `fill_window` does not bring the bytes in flight past the window.
pub fill_window-window :
    (s : TcpSender)
    → s.syn_flag ≡ true
    → s.outgoing_bytes ≤ current_window s
    → current_window s < 2 ^ 62
    → (fill_window s).outgoing_bytes ≤ current_window s
unfolding fill_window
fill_window-window s sent less small =
    let w = current_window s in
    Fill-window w small (fill_loop-Fill (suc w) w s small (omega arith)) sent less

-- `fill_window` on a valid sender whose sequence numbers have room: the sender stays valid; what it
-- queues carries the first bytes of the outgoing stream, and the rest stay in it; and it stops only
-- with the window full or with nothing left to send: no byte waits, and a stream that is at its end
-- has had its FIN sent.
pub fill_window_lem :
    (s : TcpSender)
    → let w = current_window s in
      let t = fill_window s in
      IsValid s
      → s.next_seqno + 2 * w < 2 ^ 62
      → IsValid t
        × Queued s t
        × ((w ≤ t.outgoing_bytes)
            ⊎ ((t.stream.buffer ≡ []) × (ByteStream.eof t.stream ≡ true → t.fin_flag ≡ true)))
unfolding fill_window
fill_window_lem s v big =
    let w = current_window s in
    let small : w < 2 ^ 62 = omega arith in
    let fill = fill_loop-Fill (suc w) w s small (omega arith) in
    (Fill-IsValid w small fill v (omega arith), Fill-Queued w small fill, Fill-spent w small fill)
