-- ===== src/Examples/Endpoints.antt =====
-- Runs of libsponge/tcp_receiver.cc and tcp_sender.cc.
use sponge.Prelude.{
  false, ℕ, ◌+◌, ◌*◌, ◌^◌, ◌≤◌, ◌<◌, ◌≡◌, ◌⊎◌, refl, true, some, [], ◌∷◌, ◌++◌, replicate, arith,
}
use sponge.Wrapping.{wrap, unwrap}
use sponge.ByteStream
use sponge.TcpSegment.{TcpSegment, default_header, bit}
use sponge.Reassembler
use sponge.Reassembler.{push_substring}
use sponge.TcpReceiver
use sponge.TcpReceiver.{TcpReceiver, segment_received, ackno, window_size}
use sponge.TcpReceiver.Stream
use sponge.TcpReceiver.Stream.{IsHonest, IsOpen, segment_received_lem, ackno_window}
use sponge.TcpSender
use sponge.TcpSender.{TcpSender, fill_loop, fill_window, current_window, ack_received}
use sponge.TcpSender.Invariant
use sponge.TcpSender.Window.{fill_window-window, Queued, fill_loop_fuel, fill_window_lem}
use sponge.TcpSender.Acks.{Acked, ack_received_lem}
use sponge.TcpSender.Timer.{expire, expire_backoff}

-- A peer whose stream is the four bytes 0 1 2 3, from the ISN 100.
abbrev byte : ℕ → ℕ
byte x = x

abbrev four : 4 < 2 ^ 62
four = omega arith

abbrev narrow : 100 < 2 ^ 32
narrow = omega arith

abbrev opening : TcpSegment
opening = record {
  header = record default_header { seqno = 100; syn = true };
  payload = 0 ∷ 1 ∷ [];
}

abbrev fresh : TcpReceiver
fresh = TcpReceiver.init 8

fresh-IsValid : Stream.IsValid byte 4 four 100 narrow fresh
fresh-IsValid = Stream.init-IsValid byte 4 four 100 narrow 8 (omega arith)

opening-IsHonest : IsHonest byte 4 four 100 narrow fresh opening 0
unfolding TcpReceiver.init Reassembler.init ByteStream.init wrap
opening-IsHonest = record {
  part = record { agrees = (refl, (refl, tt)); within = omega arith; last = λ e. cc };
  seqno = refl;
  opens = λ e. refl;
  near = omega arith;
}

segment_received_lem_example :
    let r' = segment_received fresh opening in
    Stream.IsValid byte 4 four 100 narrow r'
    × ((IsOpen byte 4 four 100 narrow fresh opening
          × (r' ≡ record fresh {
            isn = 100;
            syn_flag = true;
            reassembler = push_substring fresh.reassembler opening.payload 0 opening.header.fin;
          }))
        ⊎ (¬ IsOpen byte 4 four 100 narrow fresh opening × (r' ≡ fresh)))
segment_received_lem_example =
    segment_received_lem byte 4 four 100 narrow fresh opening 0 fresh-IsValid opening-IsHonest

abbrev opened : TcpReceiver
opened = segment_received fresh opening

opened_syn : opened.syn_flag ≡ true
unfolding segment_received TcpReceiver.init
opened_syn = refl

ackno_window_example :
    let next = opened.reassembler.next_assembled_idx in
    (ackno opened ≡ some (wrap (1 + next + bit (TcpReceiver.stream_out opened).input_ended) 100))
    × (window_size opened + next ≡ Reassembler.first_unacceptable_idx opened.reassembler)
    × (((TcpReceiver.stream_out opened).input_ended ≡ false) ⊎ (next ≡ 4))
ackno_window_example =
    ackno_window byte 4 four 100 narrow opened segment_received_lem_example.0 opened_syn

-- A sender with three bytes to send, before and after its SYN.
abbrev loaded : TcpSender
loaded =
    let s = TcpSender.init 8 1000 100 in
    record s { stream = (ByteStream.write s.stream (7 ∷ 8 ∷ 9 ∷ [])).1 }

loaded-IsValid : Invariant.IsValid loaded
unfolding TcpSender.init ByteStream.init ByteStream.write
loaded-IsValid = record {
  stream = record {
    small = omega arith;
    bounded = omega arith;
    written = omega arith;
    taken = omega arith;
    balance = refl;
  };
  flight = omega arith;
  chain = omega arith;
  position = refl;
  fresh = λ e. (refl, refl);
}

loaded_room : loaded.next_seqno + 2 * current_window loaded < 2 ^ 62
unfolding TcpSender.init
loaded_room = omega arith

fill_window_lem_example :
    let w = current_window loaded in
    let t = fill_window loaded in
    Invariant.IsValid t
    × Queued loaded t
    × ((w ≤ t.outgoing_bytes)
        ⊎ ((t.stream.buffer ≡ []) × (ByteStream.eof t.stream ≡ true → t.fin_flag ≡ true)))
fill_window_lem_example = fill_window_lem loaded loaded-IsValid loaded_room

fill_loop_fuel_example : fill_loop 5 3 loaded ≡ fill_loop 9 3 loaded
fill_loop_fuel_example = fill_loop_fuel 5 9 3 loaded (omega arith) (omega arith) (omega arith)

abbrev syn_out : TcpSender
syn_out = fill_window loaded

syn_out_small : syn_out.next_seqno < 2 ^ 61
unfolding fill_window fill_loop TcpSender.make_segment TcpSender.send TcpSender.init ByteStream.init
    ByteStream.write ByteStream.read ByteStream.peek_output ByteStream.pop_output
syn_out_small = omega arith

ack_received_lem_example :
    let abs = unwrap 101 syn_out.isn syn_out.next_seqno in
    let t = ack_received syn_out 101 4 in
    ((syn_out.next_seqno < abs) × (t ≡ syn_out))
    ⊎ ((abs ≤ syn_out.next_seqno) × Acked abs 4 syn_out t)
ack_received_lem_example =
    ack_received_lem syn_out 101 4 fill_window_lem_example.0 syn_out_small (omega arith)

syn_out_flight : syn_out.outgoing_bytes ≤ current_window syn_out
unfolding fill_window fill_loop TcpSender.make_segment TcpSender.send TcpSender.init ByteStream.init
    ByteStream.write ByteStream.read ByteStream.peek_output ByteStream.pop_output
syn_out_flight = omega arith

syn_out_flag : syn_out.syn_flag ≡ true
unfolding fill_window fill_loop TcpSender.make_segment TcpSender.send TcpSender.init ByteStream.init
    ByteStream.write ByteStream.read ByteStream.peek_output ByteStream.pop_output
syn_out_flag = refl

syn_out_window : current_window syn_out < 2 ^ 62
unfolding fill_window fill_loop TcpSender.make_segment TcpSender.send TcpSender.init ByteStream.init
    ByteStream.write ByteStream.read ByteStream.peek_output ByteStream.pop_output
syn_out_window = omega arith

fill_window-window_example : (fill_window syn_out).outgoing_bytes ≤ current_window syn_out
fill_window-window_example = fill_window-window syn_out syn_out_flag syn_out_flight syn_out_window

-- A sender with the opening segment in flight.
abbrev in_flight : TcpSender
in_flight =
    let s = TcpSender.init 8 1000 100 in
    record s { outgoing_map = (0, opening) ∷ []; timeout = 1000 }

expire_backoff_example :
    let t = expire 3 in_flight in
    (t.timeout ≡ 2 ^ 3 * in_flight.timeout)
    × (t.segments_out ≡ in_flight.segments_out ++ replicate 3 opening)
    × (t.consecutive_retransmissions_count ≡ in_flight.consecutive_retransmissions_count + 3)
    × (t.outgoing_map ≡ in_flight.outgoing_map)
unfolding TcpSender.init
expire_backoff_example =
    expire_backoff 3 in_flight 0 opening [] refl refl (omega arith) (omega arith) (omega arith)
