-- ===== src/TcpConnection/Runs.antt =====
-- Any history of calls on a connection of libsponge/tcp_connection.cc.
use sponge.Prelude.{
  ℕ, ◌+◌, ◌-◌, ◌*◌, ◌^◌, ◌<◌, ◌≡◌, refl, Bool, true, false, not, ◌&&◌, List, [], ◌∷◌, ◌++◌, min,
  take, length, arith, if◌then◌else◌, if_elim, ltb, leb, add64,
}
use mathlib.Core.Bool.{false≢true}
use sponge.ByteStream
use sponge.TcpSegment.{TcpSegment, length_in_sequence_space}
use sponge.TcpReceiver
use sponge.TcpSender
use sponge.TcpSender.{TcpSender, current_window, is_empty}
use sponge.TcpSender.Progress.{
  Progress, more-Progress, Progress-next, window_le, fill_window-Progress, ack_received-Progress,
  queue-Same, tick-Same, send_empty_segment-Same, Same-Progress, write-Progress, end_input-Progress,
  set_error-Progress, init-Progress,
}
use sponge.TcpState.{ReceiverSummary, SenderSummary}
use sponge.TcpConnection
use sponge.TcpConnection.{
  TcpConfig, TcpConnection, stands, respond, connect, flush_segments_with_ack, segment_received,
  set_rst_state, tick, write, end_input_stream, pop, max_retx_attempts,
}
use sponge.TcpConnection.Flush.{Sends, write_lem}
use sponge.TcpConnection.Answers.{
  IsAcknowledged, IsAnswered-IsAcknowledged, segment_received-IsAnswered,
}

-- What the owner does: it also takes segments off the queue, and reads the inbound stream.
pub data Call : Type 0 where
  connects ends pops : Call
  writes : List ℕ → Call
  hears : TcpSegment → Call
  ticks reads : ℕ → Call

unfoldable pub after : TcpConnection → Call → TcpConnection
after c connects = connect c
after c ends = end_input_stream c
after c pops = record c { segments_out = pop c.segments_out }
after c (writes bytes) = (write c bytes).1
after c (hears seg) = segment_received c seg
after c (ticks ms) = tick c ms
after c (reads len) = record c {
  receiver = record (c.receiver) {
    reassembler = record (c.receiver.reassembler) {
      output = (ByteStream.read c.receiver.reassembler.output len).1;
    };
  };
}

unfoldable pub run : TcpConnection → List Call → TcpConnection
run c [] = c
run c (call ∷ calls) = run (after c call) calls

-- How many bytes are written.
abbrev pub size : Call → ℕ
size (writes bytes) = length bytes
size _ = 0

abbrev pub total_size : List Call → ℕ
total_size [] = 0
total_size (call ∷ calls) = size call + total_size calls

-- The windows of the segments are of 16 bits.
abbrev pub Narrow : Call → Type 0
Narrow (hears seg) = seg.header.win < 2 ^ 16
Narrow _ = Unit {0}

abbrev pub AllNarrow : List Call → Type 0
AllNarrow [] = Unit {0}
AllNarrow (call ∷ calls) = Narrow call × AllNarrow calls

-- The sender holds its invariant, and while the connection is active nothing waits in its queue.
pub record IsSound (total : ℕ) (c : TcpConnection) : Type 0 where
  pub progress : Progress total c.sender
  pub flushed : c.is_active ≡ true → c.sender.segments_out ≡ []

flush-IsSound :
    {total : ℕ} (c : TcpConnection)
    → Progress total c.sender
    → IsSound total (flush_segments_with_ack c)
unfolding flush_segments_with_ack
flush-IsSound c p = record {
  progress = Same-Progress c.sender _ (queue-Same c.sender []) p;
  flushed = λ on. refl;
}

set_rst_state-IsSound :
    {total : ℕ} (c : TcpConnection) (send_rst : Bool)
    → Progress total c.sender
    → IsSound total (set_rst_state c send_rst)
unfolding set_rst_state
set_rst_state-IsSound c send_rst p = record {
  progress = set_error-Progress c.sender p;
  flushed = λ on. absurd (false≢true on);
}

module _ (total : ℕ) (short : total < 2 ^ 60) where
  connect-IsSound : (c : TcpConnection) → Progress total c.sender → IsSound total (connect c)
  unfolding connect
  connect-IsSound c p =
      flush-IsSound (record c { sender = TcpSender.fill_window c.sender })
        (fill_window-Progress total short c.sender p)

  respond-IsSound :
      (c : TcpConnection) (need_send_ack : Bool)
      → Progress total c.sender
      → IsSound total (respond c need_send_ack)
  unfolding respond
  respond-IsSound c need p =
      let linger =
        if stands c ReceiverSummary.fin_recv SenderSummary.syn_acked
        then false
        else c.linger_after_streams_finish in
      let closing = record c { linger_after_streams_finish = linger } in
      let sender = if need then TcpSender.send_empty_segment c.sender else c.sender in
      let acked = record closing { sender = sender } in
      let opened = connect-IsSound c p in
      if_elim (IsSound total) (stands c ReceiverSummary.syn_recv SenderSummary.closed)
        (record (connect c) { is_active = true }) _
        (λ h. record {
          progress = opened.progress;
          flushed = λ on. unfold connect flush_segments_with_ack in refl;
        })
        (λ h.
          if_elim (IsSound total)
            (stands closing ReceiverSummary.fin_recv SenderSummary.fin_acked && not linger)
            (record closing { is_active = false }) (flush_segments_with_ack acked)
            (λ over. record { progress = p; flushed = λ on. absurd (false≢true on) })
            (λ on. flush-IsSound acked (
              if_elim (Progress total) need (TcpSender.send_empty_segment c.sender) c.sender
                (λ e. Same-Progress c.sender _ (send_empty_segment-Same c.sender) p) (λ e. p))))

  segment_received-IsSound :
      (c : TcpConnection) (seg : TcpSegment)
      → seg.header.win < 2 ^ 16
      → Progress total c.sender
      → IsSound total (segment_received c seg)
  unfolding segment_received
  segment_received-IsSound c seg narrow p =
      let received = record c {
        time_since_last_segment_received_ms = 0;
        receiver = TcpReceiver.segment_received c.receiver seg;
      } in
      let acked = record received {
        sender = TcpSender.ack_received c.sender seg.header.ackno seg.header.win;
      } in
      if_elim (IsSound total) seg.header.rst _ _ (λ e. set_rst_state-IsSound received false p)
        (λ e.
          if_elim (IsSound total) seg.header.ack _ _
            (λ a.
              respond-IsSound acked _ (
                ack_received-Progress total short c.sender seg.header.ackno seg.header.win narrow
                  p))
            (λ a. respond-IsSound received _ p))

  tick-IsSound : (c : TcpConnection) (ms : ℕ) → Progress total c.sender → IsSound total (tick c ms)
  unfolding tick
  tick-IsSound c ms p =
      let ticked = record c { sender = TcpSender.tick c.sender ms } in
      let p' = Same-Progress c.sender ticked.sender (tick-Same c.sender ms) p in
      let segs = pop ticked.sender.segments_out in
      let cleared = record ticked { sender = record (ticked.sender) { segments_out = segs } } in
      let flushed = flush_segments_with_ack ticked in
      let later = record flushed {
        time_since_last_segment_received_ms = add64 flushed.time_since_last_segment_received_ms ms;
      } in
      let sound = flush-IsSound ticked p' in
      if_elim (IsSound total)
        (ltb max_retx_attempts (TcpSender.consecutive_retransmissions ticked.sender))
        (set_rst_state cleared true) _
        (λ many.
          set_rst_state-IsSound cleared true
            (Same-Progress ticked.sender cleared.sender (queue-Same ticked.sender segs) p'))
        (λ few.
          if_elim (IsSound total)
            (stands later ReceiverSummary.fin_recv SenderSummary.fin_acked
              && later.linger_after_streams_finish
              && leb (10 * c.cfg.rt_timeout) later.time_since_last_segment_received_ms)
            (record later { is_active = false; linger_after_streams_finish = false }) later
            (λ over. record { progress = sound.progress; flushed = λ on. absurd (false≢true on) })
            (λ going. record { progress = sound.progress; flushed = sound.flushed }))

grown : {total : ℕ} (c : TcpConnection) → IsSound total c → Progress (total + 0) c.sender
grown c v = more-Progress c.sender (omega arith) v.progress

after-IsSound :
    (total : ℕ) (c : TcpConnection) (call : Call)
    → Narrow call
    → total + size call < 2 ^ 60
    → IsSound total c
    → IsSound (total + size call) (after c call)
unfolding after end_input_stream write
after-IsSound total c connects n short v = connect-IsSound (total + 0) short c (grown c v)
after-IsSound total c ends n short v =
    connect-IsSound (total + 0) short
      (record c { sender = record (c.sender) { stream = ByteStream.end_input c.sender.stream } })
      (end_input-Progress c.sender (grown c v))
after-IsSound total c pops n short v = record { progress = grown c v; flushed = v.flushed }
after-IsSound total c (writes bytes) n short v =
    connect-IsSound (total + length bytes) short
      (record c {
        sender = record (c.sender) { stream = (ByteStream.write c.sender.stream bytes).1 };
      })
      (write-Progress c.sender bytes v.progress)
after-IsSound total c (hears seg) n short v =
    segment_received-IsSound (total + 0) short c seg n (grown c v)
after-IsSound total c (ticks ms) n short v = tick-IsSound (total + 0) short c ms (grown c v)
after-IsSound total c (reads len) n short v = record { progress = grown c v; flushed = v.flushed }

run-IsSound :
    (calls : List Call) (total : ℕ) (c : TcpConnection)
    → AllNarrow calls
    → total + total_size calls < 2 ^ 60
    → IsSound total c
    → IsSound (total + total_size calls) (run c calls)
unfolding run
run-IsSound [] total c n short v = record { progress = grown c v; flushed = v.flushed }
run-IsSound (call ∷ calls) total c n short v =
    let first = after-IsSound total c call n.0 (omega arith) v in
    let rest = run-IsSound calls (total + size call) (after c call) n.1 (omega arith) first in
    record { progress = more-Progress _ (omega arith) rest.progress; flushed = rest.flushed }

module _ (cfg : TcpConfig) (room : cfg.send_capacity < 2 ^ 64) (calls : List Call)
    (narrow : AllNarrow calls) (short : total_size calls < 2 ^ 60) where
  sound : IsSound (0 + total_size calls) (run (TcpConnection.init cfg) calls)
  unfolding TcpConnection.init
  sound = run-IsSound calls 0 (TcpConnection.init cfg) narrow (omega arith) (record {
    progress = init-Progress cfg.send_capacity cfg.rt_timeout cfg.isn room;
    flushed = λ on. unfold TcpSender.init in refl;
  })

  -- After any calls on a new connection that write less than 2 ^ 60 bytes in all, with 16-bit windows
  -- in the segments received and an outgoing capacity below 2 ^ 64, a segment without RST that takes a
  -- sequence number is acknowledged, if the SYN of the peer has come, with it or before, and it leaves
  -- the connection active: one segment at least is queued behind what is queued, nothing else changes
  -- in the queue, and all that is queued carries the acknowledgment and window that the receiver has
  -- after the segment.
  pub run-IsAcknowledged :
      (seg : TcpSegment)
      → let c = run (TcpConnection.init cfg) calls in
        let r = TcpReceiver.segment_received c.receiver seg in
        seg.header.win < 2 ^ 16
        → seg.header.rst ≡ false
        → 0 < length_in_sequence_space seg
        → r.syn_flag ≡ true
        → (segment_received c seg).is_active ≡ true
        → IsAcknowledged r c.segments_out (segment_received c seg).segments_out
  run-IsAcknowledged seg win16 plain long opened on =
      let c = run (TcpConnection.init cfg) calls in
      let p = sound.progress in
      IsAnswered-IsAcknowledged (TcpReceiver.segment_received c.receiver seg) _ _ opened (
        segment_received-IsAnswered c seg p.valid (omega (arith, Progress-next c.sender p)) p.window
          win16 plain long on)

  -- After any calls on a new connection that write less than 2 ^ 60 bytes in all, with 16-bit windows
  -- in the segments received and an outgoing capacity below 2 ^ 64, if it is active: `write` accepts the bytes there is room for; the
  -- segments it queues carry, in order, the first of the bytes that waited and then of those it
  -- accepted, each with the acknowledgment and window of the receiver if there is one; the rest stay
  -- in the outgoing stream, and only while the window is full.
  pub run-Sends :
      (bytes : List ℕ)
      → let c = run (TcpConnection.init cfg) calls in
        let n = (write c bytes).0 in
        c.is_active ≡ true
        → (n ≡ min (length bytes) (c.sender.stream.capacity - length c.sender.stream.buffer))
          × Sends (c.sender.stream.buffer ++ take n bytes) c (write c bytes).1
  run-Sends bytes on =
      let c = run (TcpConnection.init cfg) calls in
      let p = sound.progress in
      write_lem c bytes p.valid (sound.flushed on)
        (omega (arith, Progress-next c.sender p, window_le c.sender p.window))
