-- ===== src/TcpSender/Invariant.antt =====
-- The invariant of libsponge/tcp_sender.cc, and what `fill_window` puts in flight.
use sponge.Prelude.{ℕ, ◌+◌, ◌-◌, ◌^◌, ◌≤◌, ◌<◌, ◌≡◌, refl, false, arith, add64, sym, ap, ◌∙◌}
use mathlib.Core.Bool.{false≢true}
use sponge.ByteStream
use sponge.ByteStream.{ByteStream}
use sponge.ByteStream.Invariant
use sponge.TcpSegment.{length_in_sequence_space, bit}
use sponge.TcpSender.{TcpSender, init, make_segment, send}
use sponge.TcpSender.Segments.{
  Fill, full, idle, last, more, make_segment-Round, segment, sent, sent_flight, bit_le,
}
use sponge.TcpSender.Flight.{Chain, insert-Chain}

-- `_next_seqno` counts the flags and bytes sent, and the bytes in flight end there.
pub record IsValid (s : TcpSender) : Type 0 where
  pub stream : Invariant.IsValid s.stream
  pub flight : s.outgoing_bytes ≤ s.next_seqno
  pub chain : Chain s.isn (s.next_seqno - s.outgoing_bytes) s.next_seqno s.outgoing_map
  pub position : s.next_seqno ≡ bit s.syn_flag + s.stream.bytes_read + bit s.fin_flag
  pub fresh : s.syn_flag ≡ false → (s.stream.bytes_read ≡ 0) × (s.fin_flag ≡ false)

pub init-IsValid :
    (capacity retx_timeout isn : ℕ) → capacity < 2 ^ 64 → IsValid (init capacity retx_timeout isn)
unfolding init ByteStream.init
init-IsValid capacity retx_timeout isn h = record {
  stream = Invariant.init-IsValid capacity h;
  flight = omega arith;
  chain = omega arith;
  position = omega arith;
  fresh = λ e. (refl, refl);
}

module _ (w : ℕ) (small : w < 2 ^ 62) where
  -- A round keeps the invariant.
  sent-IsValid :
      (s : TcpSender)
      → IsValid s
      → s.next_seqno + w < 2 ^ 63
      → s.outgoing_bytes < w
      → 0 < length_in_sequence_space (segment w s)
      → IsValid (sent w s)
        × ((sent w s).next_seqno ≡ s.next_seqno + length_in_sequence_space (segment w s))
  unfolding send
  sent-IsValid s v big less some =
      let round = make_segment-Round w s small less in
      let seg = segment w s in
      let size = length_in_sequence_space seg in
      let s' = (make_segment w s).1 in
      let one = bit_le seg.header.fin in
      let next : add64 s'.next_seqno size ≡ s.next_seqno + size =
        omega (arith, round.wide, round.kept) in
      let out : add64 s'.outgoing_bytes size ≡ s.outgoing_bytes + size =
        omega (arith, round.wide, round.kept) in
      let low : s.next_seqno - s.outgoing_bytes ≡ s.next_seqno + size - (s.outgoing_bytes + size) =
        omega arith in
      let chain =
        insert-Chain s.isn (s.next_seqno - s.outgoing_bytes) s.next_seqno seg s.outgoing_map v.chain
          some round.seqno in
      (
        record {
          stream = round.valid v.stream;
          flight = omega (arith, v.flight);
          chain = rw (next, out, ← low, round.kept.0, round.kept.2, round.kept.3) chain;
          position =
              rw (round.fin', round.syn')
                (ground (
                  arith, round.first, round.ends, round.read, v.position, v.fresh, next,
                  v.stream.taken,
                ));
          fresh = λ e. absurd (false≢true (sym e ∙ round.syn'));
        },
        next,
      )

  idle-IsValid :
      (s : TcpSender)
      → IsValid s
      → s.outgoing_bytes < w
      → length_in_sequence_space (segment w s) ≡ 0
      → IsValid (make_segment w s).1
  idle-IsValid s v less e =
      let round = make_segment-Round w s small less in
      record {
        stream = round.valid v.stream;
        flight = omega (arith, v.flight, round.kept);
        chain = rw (round.kept.0, round.kept.1, round.kept.2, round.kept.3) v.chain;
        position =
            rw (round.fin', round.syn', round.kept.2)
              (ground (arith, round.first, round.ends, round.read, v.position, v.stream.taken, e));
        fresh = λ e. absurd (false≢true (sym e ∙ round.syn'));
      }

  pub Fill-IsValid :
      {s t : TcpSender}
      → Fill w s t
      → IsValid s
      → s.next_seqno + (w - s.outgoing_bytes) + w < 2 ^ 63
      → IsValid t
  Fill-IsValid (full s h) v b = v
  Fill-IsValid (idle s h e) v b = idle-IsValid s v h e
  Fill-IsValid (last s h p d) v b = (sent-IsValid s v (omega arith) h p).0
  Fill-IsValid (more s h p d r) v b =
      let (v', n) = sent-IsValid s v (omega arith) h p in
      let round = make_segment-Round w s small h in
      Fill-IsValid r v' (omega (arith, n, sent_flight w s small h, round.wide, ap bit d))
