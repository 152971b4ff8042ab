-- ===== src/TcpSender/Progress.antt =====
-- What every method of libsponge/tcp_sender.cc keeps, for an outgoing stream that stays short.
use sponge.Prelude.{
  ℕ, suc, ltb, ◌+◌, ◌^◌, ◌≤◌, ◌<◌, ◌≡◌, refl, List, length, length-append, length-take, min, take,
  arith, if_elim, sym, ap, ◌∙◌,
}
use sponge.ByteStream
use sponge.ByteStream.{ByteStream, remaining_capacity}
use sponge.ByteStream.Invariant
use sponge.ByteStream.Invariant.{write-IsValid, end_input-IsValid, set_error-IsValid}
use sponge.Wrapping.{unwrap}
use sponge.TcpSegment.{TcpSegment}
use sponge.TcpSender
use sponge.TcpSender.{TcpSender, current_window, fill_window, ack_received, make_segment, send}
use sponge.TcpSender.Segments.{
  Fill, full, idle, last, more, make_segment-Round, segment, bit_le, fill_loop-Fill,
}
use sponge.TcpSender.Invariant.{IsValid, init-IsValid}
use sponge.TcpSender.Window.{fill_window_lem}
use sponge.TcpSender.Acks.{Fill-low, after_drop, after_drop-IsValid, drop_acked-Frame}

-- The bytes that the stream has taken in since the start.
abbrev pub taken : TcpSender → ℕ
taken s = s.stream.bytes_read + length s.stream.buffer

-- The sender is valid, has been given at most `total` bytes, and its window is of 16 bits.
pub record Progress (total : ℕ) (s : TcpSender) : Type 0 where
  pub valid : IsValid s
  pub bytes : taken s ≤ total
  pub window : s.last_window_size < 2 ^ 16

pub more-Progress :
    {total total' : ℕ} (s : TcpSender) → total ≤ total' → Progress total s → Progress total' s
more-Progress s le p = record { valid = p.valid; bytes = omega (arith, p.bytes); window = p.window }

-- Each byte takes a sequence number, and the flags two at most.
pub Progress-next : {total : ℕ} (s : TcpSender) → Progress total s → s.next_seqno ≤ total + 2
Progress-next s p = omega (arith, p.valid.position, p.bytes, bit_le s.syn_flag, bit_le s.fin_flag)

pub window_le : (s : TcpSender) → s.last_window_size < 2 ^ 16 → current_window s ≤ 2 ^ 16
window_le s h = ground (arith, h)

module _ (w : ℕ) (small : w < 2 ^ 62) where
  round_taken :
      (s : TcpSender)
      → s.outgoing_bytes < w
      → taken s < 2 ^ 62
      → taken (make_segment w s).1 ≡ taken s
  round_taken s h b =
      let round = make_segment-Round w s small h in
      omega (
        arith,
        round.read,
        sym (ap length round.payload)
            ∙ length-append (segment w s).payload (make_segment w s).1.stream.buffer,
      )

  Fill-taken : {s t : TcpSender} → Fill w s t → taken s < 2 ^ 62 → taken t ≡ taken s
  unfolding send
  Fill-taken (full s h) b = refl
  Fill-taken (idle s h e) b = round_taken s h b
  Fill-taken (last s h p d) b = round_taken s h b
  Fill-taken (more s h p d r) b =
      let first = round_taken s h b in Fill-taken r (omega (arith, first)) ∙ first

module _ (total : ℕ) (short : total < 2 ^ 60) where
  pub fill_window-Progress : (s : TcpSender) → Progress total s → Progress total (fill_window s)
  unfolding fill_window
  fill_window-Progress s p =
      let w = current_window s in
      let next = Progress-next s p in
      let narrow = window_le s p.window in
      let fill = fill_loop-Fill (suc w) w s (omega arith) (omega arith) in
      let low = Fill-low w (omega arith) fill (omega arith) in
      record {
        valid = (fill_window_lem s p.valid (omega arith)).0;
        bytes = omega (arith, p.bytes, Fill-taken w (omega arith) fill (omega (arith, p.bytes)));
        window = omega (arith, p.window, low.1);
      }

  after_drop-Progress :
      (s : TcpSender) (abs window : ℕ)
      → window < 2 ^ 16
      → Progress total s
      → Progress total (after_drop s abs window)
  after_drop-Progress s abs window w16 p = record {
    valid = after_drop-IsValid s abs window p.valid (omega (arith, Progress-next s p));
    bytes = rw ((drop_acked-Frame abs s.outgoing_map s).stream) p.bytes;
    window = w16;
  }

  pub ack_received-Progress :
      (s : TcpSender) (ackno window : ℕ)
      → window < 2 ^ 16
      → Progress total s
      → Progress total (ack_received s ackno window)
  unfolding ack_received
  ack_received-Progress s ackno window w16 p =
      let abs = unwrap ackno s.isn s.next_seqno in
      if_elim (Progress total) (ltb s.next_seqno abs) s (fill_window (after_drop s abs window))
        (λ h. p) (λ h. fill_window-Progress _ (after_drop-Progress s abs window w16 p))

-- The sequence numbers, the stream and what is in flight are the same.
pub record Same (s t : TcpSender) : Type 0 where
  pub stream : t.stream ≡ s.stream
  pub flight : t.outgoing_bytes ≡ s.outgoing_bytes
  pub next : t.next_seqno ≡ s.next_seqno
  pub chain : t.outgoing_map ≡ s.outgoing_map
  pub isn : t.isn ≡ s.isn
  pub syn : t.syn_flag ≡ s.syn_flag
  pub fin : t.fin_flag ≡ s.fin_flag
  pub window : t.last_window_size ≡ s.last_window_size

pub Same-Progress : {total : ℕ} (s t : TcpSender) → Same s t → Progress total s → Progress total t
Same-Progress s t e p = record {
  valid = record {
    stream = rw e.stream p.valid.stream;
    flight = rw (e.flight, e.next) p.valid.flight;
    chain = rw (e.isn, e.next, e.flight, e.chain) p.valid.chain;
    position = rw (e.next, e.syn, e.stream, e.fin) p.valid.position;
    fresh = rw (e.syn, e.stream, e.fin) p.valid.fresh;
  };
  bytes = rw e.stream p.bytes;
  window = rw e.window p.window;
}

pub queue-Same :
    (s : TcpSender) (segs : List TcpSegment) → Same s (record s { segments_out = segs })
queue-Same s segs = record {
  stream = refl;
  flight = refl;
  next = refl;
  chain = refl;
  isn = refl;
  syn = refl;
  fin = refl;
  window = refl;
}

pub tick-Same : (s : TcpSender) (ms : ℕ) → Same s (TcpSender.tick s ms)
unfolding TcpSender.tick
tick-Same s ms = ground arith

pub send_empty_segment-Same : (s : TcpSender) → Same s (TcpSender.send_empty_segment s)
unfolding TcpSender.send_empty_segment
send_empty_segment-Same s = queue-Same s _

-- Another stream, from which as much has been read.
stream-Progress :
    {total total' : ℕ} (s : TcpSender) (stream : ByteStream)
    → Invariant.IsValid stream
    → stream.bytes_read ≡ s.stream.bytes_read
    → stream.bytes_read + length stream.buffer ≤ total'
    → Progress total s
    → Progress total' (record s { stream = stream })
stream-Progress s stream v e short p = record {
  valid = record {
    stream = v;
    flight = p.valid.flight;
    chain = p.valid.chain;
    position = rw e p.valid.position;
    fresh = rw e p.valid.fresh;
  };
  bytes = short;
  window = p.window;
}

pub write-Progress :
    {total : ℕ} (s : TcpSender) (bytes : List ℕ)
    → Progress total s
    → Progress (total + length bytes) (record s { stream = (ByteStream.write s.stream bytes).1 })
unfolding ByteStream.write
write-Progress s bytes p =
    let n = min (length bytes) (remaining_capacity s.stream) in
    stream-Progress s _ (write-IsValid s.stream bytes p.valid.stream) refl
      (omega (arith, p.bytes, length-append s.stream.buffer (take n bytes), length-take n bytes)) p

pub end_input-Progress :
    {total : ℕ} (s : TcpSender)
    → Progress total s
    → Progress total (record s { stream = ByteStream.end_input s.stream })
unfolding ByteStream.end_input
end_input-Progress s p =
    stream-Progress s _ (end_input-IsValid s.stream p.valid.stream) refl p.bytes p

pub set_error-Progress :
    {total : ℕ} (s : TcpSender)
    → Progress total s
    → Progress total (record s { stream = ByteStream.set_error s.stream })
unfolding ByteStream.set_error
set_error-Progress s p =
    stream-Progress s _ (set_error-IsValid s.stream p.valid.stream) refl p.bytes p

pub init-Progress :
    (capacity retx_timeout isn : ℕ)
    → capacity < 2 ^ 64
    → Progress 0 (TcpSender.init capacity retx_timeout isn)
unfolding TcpSender.init ByteStream.init
init-Progress capacity retx_timeout isn h = record {
  valid = init-IsValid capacity retx_timeout isn h;
  bytes = omega arith;
  window = omega arith;
}
