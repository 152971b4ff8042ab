-- ===== src/Examples/Connections.antt =====
-- Runs of libsponge/tcp_connection.cc.
use sponge.Prelude.{
  ℕ, ◌-◌, ◌≤◌, ◌≡◌, ◌⊎◌, refl, true, false, List, [], ◌∷◌, ◌++◌, arith, min, length, take, add64,
}
use sponge.Wrapping.{wrap, unwrap}
use sponge.ByteStream
use sponge.TcpSegment.{TcpSegment, default_header}
use sponge.Reassembler
use sponge.TcpReceiver
use sponge.TcpSender
use sponge.TcpSender.{current_window}
use sponge.TcpState.{State, of_state, sender_summary, receiver_summary}
use sponge.TcpConnection
use sponge.TcpConnection.{
  TcpConfig, TcpConnection, state, write, segment_received, tick, destroy, max_retx_attempts,
  respond, set_rst_state, connect, flush_segments_with_ack, flush_loop, stamp,
}
use sponge.TcpConnection.Reset.{segment_received-closed}
use sponge.TcpConnection.Answers.{IsAcknowledged}
use sponge.TcpConnection.Runs.{Call, hears, pops, writes, after, run, run-IsAcknowledged, run-Sends}
use sponge.TcpConnection.Linger.{IsExpired, after_tick, tick_linger}
use sponge.TcpConnection.Flush.{Sends}

abbrev cfg : TcpConfig
cfg = record { rt_timeout = 1000; recv_capacity = 8; send_capacity = 8; isn = 100 }

abbrev fresh : TcpConnection
fresh = TcpConnection.init cfg

-- The SYN is out, and nobody answers.
abbrev dialling : TcpConnection
dialling = connect fresh

abbrev first_segment : TcpSegment
first_segment = record { header = record default_header { seqno = 100; syn = true }; payload = [] }

fresh_active : TcpConnection.active fresh ≡ true
unfolding TcpConnection.init
fresh_active = refl

-- LAST_ACK: both FINs have been sent, and the peer has yet to acknowledge ours.
abbrev last_ack : TcpConnection
last_ack = record fresh {
  linger_after_streams_finish = false;
  receiver = record (fresh.receiver) {
    syn_flag = true;
    reassembler = record (fresh.receiver.reassembler) {
      output = record (fresh.receiver.reassembler.output) { input_ended = true };
    };
  };
  sender = record (fresh.sender) {
    syn_flag = true;
    fin_flag = true;
    next_seqno = 2;
    outgoing_bytes = 1;
    outgoing_map =
        (1, record { header = record default_header { seqno = 101; fin = true }; payload = [] })
        ∷ [];
    stream = record (fresh.sender.stream) { input_ended = true };
  };
}

abbrev final_ack : TcpSegment
final_ack = record {
  header = record default_header { seqno = 2; ack = true; ackno = 102; win = 8 };
  payload = [];
}

last_ack_active : last_ack.is_active ≡ true
unfolding TcpConnection.init
last_ack_active = refl

last_ack_over : (segment_received last_ack final_ack).is_active ≡ false
unfolding segment_received respond flush_segments_with_ack flush_loop TcpConnection.init
    TcpReceiver.segment_received TcpReceiver.init TcpReceiver.ackno unwrap wrap Reassembler.init
    Reassembler.push_substring Reassembler.floor_entry Reassembler.new_start Reassembler.trim
    Reassembler.store Reassembler.place Reassembler.assemble Reassembler.finish Reassembler.accept
    TcpSender.ack_received TcpSender.drop_acked TcpSender.fill_window TcpSender.fill_loop
    TcpSender.make_segment TcpSender.send TcpSender.init ByteStream.init ByteStream.write
    ByteStream.end_input ByteStream.read ByteStream.peek_output ByteStream.pop_output sender_summary
    receiver_summary connect stamp
last_ack_over = refl

segment_received-closed_example :
    let c' = segment_received last_ack final_ack in
    (state c' ≡ of_state State.closed) × (c'.linger_after_streams_finish ≡ false)
segment_received-closed_example =
    segment_received-closed last_ack final_ack refl last_ack_active last_ack_over

fresh_count :
    TcpSender.consecutive_retransmissions (TcpSender.tick fresh.sender 10000) ≤ max_retx_attempts
unfolding TcpConnection.init TcpSender.init TcpSender.tick
fresh_count = omega arith

tick_linger_example :
    let later = after_tick fresh 10000 in
    let c' = tick fresh 10000 in
    (IsExpired later × (state c' ≡ of_state State.closed))
    ⊎ (¬ IsExpired later
        × (c'.is_active ≡ fresh.is_active)
        × (c'.linger_after_streams_finish ≡ fresh.linger_after_streams_finish)
        × (c'.time_since_last_segment_received_ms
            ≡ add64 fresh.time_since_last_segment_received_ms 10000))
tick_linger_example = tick_linger fresh 10000 fresh_count

abbrev message : List ℕ
message = 7 ∷ 8 ∷ 9 ∷ []

abbrev syn : TcpSegment
syn = record { header = record default_header { syn = true; seqno = 7; win = 5 }; payload = [] }

abbrev greeting : TcpSegment
greeting = record { header = record default_header { seqno = 8; win = 5 }; payload = 65 ∷ [] }

-- The peer opens, its answer leaves, and the owner writes.
abbrev calls : List Call
calls = hears syn ∷ pops ∷ writes (72 ∷ 105 ∷ []) ∷ []

calls_active : (run fresh calls).is_active ≡ true
unfolding run after write segment_received connect TcpConnection.init TcpReceiver.init
    TcpSender.init Reassembler.init ByteStream.init sender_summary receiver_summary
    TcpReceiver.segment_received TcpReceiver.ackno Reassembler.push_substring unwrap
calls_active = refl

run-Sends_example :
    let c = run fresh calls in
    let n = (write c message).0 in
    (n ≡ min (length message) (c.sender.stream.capacity - length c.sender.stream.buffer))
    × Sends (c.sender.stream.buffer ++ take n message) c (write c message).1
run-Sends_example =
    run-Sends cfg (omega arith) calls (omega arith, (tt, (tt, tt))) (omega arith) message
      calls_active

greeting_active : (segment_received (run fresh calls) greeting).is_active ≡ true
unfolding run after write segment_received connect TcpConnection.init TcpReceiver.init
    TcpSender.init Reassembler.init ByteStream.init sender_summary receiver_summary
    TcpReceiver.segment_received TcpReceiver.ackno Reassembler.push_substring unwrap
    ByteStream.write TcpSender.fill_window TcpSender.fill_loop TcpSender.make_segment
    ByteStream.read ByteStream.peek_output ByteStream.pop_output TcpSender.send
greeting_active = refl

greeting_opened : (TcpReceiver.segment_received (run fresh calls).receiver greeting).syn_flag ≡ true
unfolding run after write segment_received connect TcpConnection.init TcpReceiver.init
    TcpSender.init Reassembler.init ByteStream.init sender_summary receiver_summary
    TcpReceiver.segment_received TcpReceiver.ackno Reassembler.push_substring unwrap
greeting_opened = refl

run-IsAcknowledged_example :
    let c = run fresh calls in
    IsAcknowledged
      (TcpReceiver.segment_received c.receiver greeting)
      c.segments_out
      (segment_received c greeting).segments_out
run-IsAcknowledged_example =
    run-IsAcknowledged cfg (omega arith) calls (omega arith, (tt, (tt, tt))) (omega arith) greeting
      (omega arith) refl (omega arith) greeting_opened greeting_active

-- Before the SYN of the peer a byte is dropped, but a segment goes out: it has no ACK.
listening_answers :
    (ack : TcpSegment) × ((segment_received fresh greeting).segments_out ≡ ack ∷ [])
    × (ack.header.ack ≡ false)
unfolding segment_received respond TcpConnection.init TcpReceiver.init TcpSender.init
    Reassembler.init ByteStream.init sender_summary receiver_summary TcpReceiver.segment_received
    TcpReceiver.ackno TcpSender.send_empty_segment flush_segments_with_ack flush_loop stamp
listening_answers = (_, refl, refl)
