-- ===== src/TcpSender/Acks.antt =====
-- `ack_received` of libsponge/tcp_sender.cc.
use sponge.Prelude.{
  ℕ, suc, ◌+◌, ◌-◌, ◌^◌, ◌≤◌, ◌<◌, ◌≡◌, refl, [], ◌∷◌, arith, Bool-cases, tests, ◌⊎◌, inl, inr, leb,
  ltb, add64, sub64, ◌∙◌, ◌==◌,
}
use sponge.Prelude.Maps.{insert}
use sponge.Wrapping.{unwrap}
use sponge.TcpSegment.{TcpSegment, length_in_sequence_space}
use sponge.TcpSender.{
  TcpSender, drop_acked, ack_received, fill_window, current_window, make_segment, send, fill_loop,
}
use sponge.TcpSender.Segments.{
  Fill, full, idle, last, more, make_segment-Round, segment, sent, sent_flight, sent_next,
  sent_within, fill_loop-Fill,
}
use sponge.TcpSender.Flight.{Flights, Unacked, Dropped, drop_acked-Dropped, Chain-le}
use sponge.TcpSender.Invariant.{IsValid, Fill-IsValid}

-- What dropping segments leaves alone.
pub record Frame (s s' : TcpSender) : Type 0 where
  pub stream : s'.stream ≡ s.stream
  next : s'.next_seqno ≡ s.next_seqno
  isn : s'.isn ≡ s.isn
  syn : s'.syn_flag ≡ s.syn_flag
  fin : s'.fin_flag ≡ s.fin_flag
  queue : s'.segments_out ≡ s.segments_out

pub drop_acked-Frame : (abs : ℕ) (m : Flights) (s : TcpSender) → Frame s (drop_acked abs m s)
unfolding drop_acked
drop_acked-Frame abs [] s = record {
  stream = refl;
  next = refl;
  isn = refl;
  syn = refl;
  fin = refl;
  queue = refl;
}
drop_acked-Frame abs ((k, seg) ∷ m) s =
    elim (Bool-cases (leb (add64 k (length_in_sequence_space seg)) abs)) [
      | inl b ↦ rw b (
          let rest = drop_acked-Frame abs m (record s {
            outgoing_bytes = sub64 s.outgoing_bytes (length_in_sequence_space seg);
            timeout = s.initial_retransmission_timeout;
            timecount = 0;
          }) in
          record {
            stream = rest.stream;
            next = rest.next;
            isn = rest.isn;
            syn = rest.syn;
            fin = rest.fin;
            queue = rest.queue;
          })
      | inr b ↦
          rw b (record {
            stream = refl;
            next = refl;
            isn = refl;
            syn = refl;
            fin = refl;
            queue = refl;
          })
    ]

insert-Unacked :
    (abs n : ℕ) (seg : TcpSegment) (m : Flights)
    → abs < n + length_in_sequence_space seg
    → Unacked abs m
    → Unacked abs (insert n seg m)
unfolding insert
insert-Unacked abs n seg [] h u = (h, tt)
insert-Unacked abs n seg ((k, s) ∷ m) h u = elim (Bool-cases (ltb n k)) [
  | inl b ↦ rw b (h, u)
  | inr b ↦ elim (Bool-cases (n == k)) [
    | inl c ↦ rw (b, c) u
    | inr c ↦ rw (b, c) (u.0, insert-Unacked abs n seg m h u.1)
  ]
]

module _ (w : ℕ) (small : w < 2 ^ 62) where
  -- The oldest sequence number in flight stays.
  pub Fill-low :
      {s t : TcpSender}
      → Fill w s t
      → s.next_seqno + (w - s.outgoing_bytes) + w < 2 ^ 63
      → (t.next_seqno + s.outgoing_bytes ≡ s.next_seqno + t.outgoing_bytes)
        × (t.last_window_size ≡ s.last_window_size)
        × (t.consecutive_retransmissions_count ≡ s.consecutive_retransmissions_count)
        × (t.isn ≡ s.isn)
  Fill-low (full s h) b = (refl, refl, refl, refl)
  Fill-low (idle s h e) b =
      let k = (make_segment-Round w s small h).kept in
      (omega (arith, k), unfold make_segment in refl, unfold make_segment in refl, k.3)
  Fill-low (last s h p d) b =
      let k = (make_segment-Round w s small h).kept in
      (
        omega (arith, sent_flight w s small h, sent_next w s small h (omega arith)),
        unfold make_segment send in refl,
        unfold make_segment send in refl,
        unfold make_segment send in refl,
      )
  Fill-low (more s {t = t} h p d r) b =
      let next = sent_next w s small h (omega arith) in
      let flight = sent_flight w s small h in
      let within = sent_within w s small h d in
      let rest = Fill-low r (omega arith) in
      (
        omega (arith, rest.0),
        rest.1 ∙ (unfold make_segment send in refl),
        rest.2 ∙ (unfold make_segment send in refl),
        rest.3 ∙ (unfold make_segment send in refl),
      )

  sent-Unacked :
      (abs : ℕ) (s : TcpSender)
      → s.outgoing_bytes < w
      → 0 < length_in_sequence_space (segment w s)
      → abs ≤ s.next_seqno
      → Unacked abs s.outgoing_map
      → Unacked abs (sent w s).outgoing_map
  unfolding send
  sent-Unacked abs s h p a u =
      let k = (make_segment-Round w s small h).kept in
      rw (k.0, k.2) (insert-Unacked abs s.next_seqno (segment w s) s.outgoing_map (omega arith) u)

  Fill-Unacked :
      (abs : ℕ) {s t : TcpSender}
      → Fill w s t
      → abs ≤ s.next_seqno
      → s.next_seqno + (w - s.outgoing_bytes) + w < 2 ^ 63
      → Unacked abs s.outgoing_map
      → Unacked abs t.outgoing_map
  Fill-Unacked abs (full s h) a b u = u
  Fill-Unacked abs (idle s h e) a b u = rw ((make_segment-Round w s small h).kept.0) u
  Fill-Unacked abs (last s h p d) a b u = sent-Unacked abs s h p a u
  Fill-Unacked abs (more s h p d r) a b u =
      let next = sent_next w s small h (omega arith) in
      let flight = sent_flight w s small h in
      let within = sent_within w s small h d in
      Fill-Unacked abs r (omega arith) (omega arith) (sent-Unacked abs s h p a u)

abbrev oldest : TcpSender → ℕ
oldest s = s.next_seqno - s.outgoing_bytes

-- The sender once the acknowledged segments are dropped, before the window is filled again.
abbrev pub after_drop : TcpSender → ℕ → ℕ → TcpSender
after_drop s abs window = record (drop_acked abs s.outgoing_map s) {
  consecutive_retransmissions_count = 0;
  last_window_size = window;
}

-- What an acknowledgment of `abs` leaves.
pub record Acked (abs window : ℕ) (s t : TcpSender) : Type 0 where
  pub valid : IsValid t
  pub advances : s.next_seqno - s.outgoing_bytes ≤ t.next_seqno - t.outgoing_bytes
  pub acked :
      (t.next_seqno - t.outgoing_bytes ≤ abs)
      ⊎ (t.next_seqno - t.outgoing_bytes ≡ s.next_seqno - s.outgoing_bytes)
  pub unacked : Unacked abs t.outgoing_map
  pub retransmissions : t.consecutive_retransmissions_count ≡ 0
  pub window_size : t.last_window_size ≡ window

module _ (s : TcpSender) (abs window : ℕ) (valid : IsValid s) (small : s.next_seqno < 2 ^ 61) where
  dropped : Dropped abs s.isn (oldest s) s.next_seqno s (drop_acked abs s.outgoing_map s)
  dropped =
      drop_acked-Dropped abs s.isn (oldest s) s.next_seqno s.outgoing_map s (omega arith)
        (omega (arith, valid.flight)) valid.chain

  frame : Frame s (drop_acked abs s.outgoing_map s)
  frame = drop_acked-Frame abs s.outgoing_map s

  low_is : oldest (after_drop s abs window) ≡ dropped.low
  low_is = omega (
    arith,
    frame.next,
    dropped.flight,
    valid.flight,
    Chain-le s.isn dropped.low s.next_seqno (drop_acked abs s.outgoing_map s).outgoing_map
        dropped.chain,
  )

  pub after_drop-IsValid : IsValid (after_drop s abs window)
  after_drop-IsValid = record {
    stream = rw frame.stream valid.stream;
    flight = omega (arith, frame.next, dropped.flight, dropped.grows, valid.flight);
    chain = rw (low_is, frame.next, frame.isn) dropped.chain;
    position = rw (frame.next, frame.stream, frame.syn, frame.fin) valid.position;
    fresh = rw (frame.stream, frame.syn, frame.fin) valid.fresh;
  }

  refilled :
      abs ≤ s.next_seqno
      → window < 2 ^ 16
      → Acked abs window s (fill_window (after_drop s abs window))
  unfolding fill_window
  refilled sent w16 =
      let base = after_drop s abs window in
      let w = current_window base in
      let w_small : w < 2 ^ 17 = ground arith in
      let next = frame.next in
      let fill = fill_loop-Fill (suc w) w base (omega arith) (omega arith) in
      let moved = Fill-low w (omega arith) fill (omega arith) in
      let valid' = Fill-IsValid w (omega arith) fill after_drop-IsValid (omega arith) in
      let same : oldest (fill_loop (suc w) w base) ≡ dropped.low =
        omega (arith, moved.0, low_is, valid'.flight, after_drop-IsValid.flight) in
      record {
        valid = valid';
        advances = omega (arith, same, dropped.grows);
        acked = elim dropped.acked [
          | inl a ↦ inl (omega (arith, same, a))
          | inr a ↦ inr (same ∙ a)
        ];
        unacked = Fill-Unacked w (omega arith) abs fill (omega arith) (omega arith) dropped.unacked;
        retransmissions = moved.2;
        window_size = moved.1;
      }

-- An acknowledgment of something not yet sent changes nothing. Any other one keeps the sender valid;
-- the oldest sequence number in flight moves forward, not past the acknowledged one; every segment
-- left in flight ends above that one; the count of retransmissions starts again, and the
-- advertised window is taken over.
pub ack_received_lem :
    (s : TcpSender) (ackno window : ℕ)
    → IsValid s
    → s.next_seqno < 2 ^ 61
    → window < 2 ^ 16
    → let abs = unwrap ackno s.isn s.next_seqno in
      let t = ack_received s ackno window in
      ((s.next_seqno < abs) × (t ≡ s)) ⊎ ((abs ≤ s.next_seqno) × Acked abs window s t)
unfolding ack_received
ack_received_lem s ackno window v small w16 =
    elim (Bool-cases (ltb s.next_seqno (unwrap ackno s.isn s.next_seqno))) [
      | inl b ↦ rw b (inl (omega tests, refl))
      | inr b ↦ rw b (inr (omega tests, refilled s _ window v small (omega tests) w16))
    ]
