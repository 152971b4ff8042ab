-- ===== src/TcpConnection.antt =====
-- libsponge/tcp_connection.hh and tcp_connection.cc. The times of the source that wrap at 2 ^ 64 wrap
-- here.
pub mod Reset
pub mod Flush
pub mod Linger
pub mod Silence
pub mod Inbound
pub mod Handshake
pub mod Established
pub mod Answers
pub mod Runs
use sponge.Prelude.{
  ℕ, ◌*◌, ◌%◌, ◌^◌, Bool, true, false, not, ◌&&◌, none, some, List, [], ◌∷◌, ◌++◌, add64, ltb, leb,
  ◌==◌, if◌then◌else◌,
}
use sponge.ByteStream
use sponge.TcpSegment.{TcpSegment, default_header, length_in_sequence_space}
use sponge.TcpReceiver
use sponge.TcpReceiver.{TcpReceiver}
use sponge.TcpSender
use sponge.TcpSender.{TcpSender, is_empty}
use sponge.TcpState.{
  TcpState, ReceiverSummary, SenderSummary, receiver_summary, sender_summary, of_parts,
  same_receiver, same_sender,
}

-- `TCPConfig`; `isn` is the fixed one, or what the random device gave.
pub record TcpConfig : Type 0 where
  pub rt_timeout : ℕ
  pub recv_capacity : ℕ
  pub send_capacity : ℕ
  pub isn : ℕ

-- `TCPConfig::MAX_RETX_ATTEMPTS`
abbrev pub max_retx_attempts : ℕ
max_retx_attempts = 8

pub record TcpConnection : Type 0 where
  pub cfg : TcpConfig
  pub receiver : TcpReceiver
  pub sender : TcpSender
  pub segments_out : List TcpSegment
  pub linger_after_streams_finish : Bool
  pub is_active : Bool
  pub time_since_last_segment_received_ms : ℕ

unfoldable pub init : TcpConfig → TcpConnection
init cfg = record {
  cfg = cfg;
  receiver = TcpReceiver.init cfg.recv_capacity;
  sender = TcpSender.init cfg.send_capacity cfg.rt_timeout cfg.isn;
  segments_out = [];
  linger_after_streams_finish = true;
  is_active = true;
  time_since_last_segment_received_ms = 0;
}

abbrev pub state : TcpConnection → TcpState
state c = of_parts c.sender c.receiver c.is_active c.linger_after_streams_finish

abbrev pub active : TcpConnection → Bool
active c = c.is_active

-- `segment.header()` with what the receiver has to say. The window is narrowed to `uint16_t`.
unfoldable pub stamp : TcpReceiver → TcpSegment → TcpSegment
stamp r seg = elim (TcpReceiver.ackno r) [
  | none ↦ seg
  | some a ↦ record seg {
    header = record (seg.header) {
      ack = true;
      ackno = a;
      win = TcpReceiver.window_size r % 2 ^ 16;
    };
  }
]

-- The loop of `flush_segments_with_ack` over the sender's queue.
unfoldable pub flush_loop : TcpReceiver → List TcpSegment → List TcpSegment → List TcpSegment
flush_loop r [] out = out
flush_loop r (seg ∷ segs) out = flush_loop r segs (out ++ (stamp r seg ∷ []))

unfoldable pub flush_segments_with_ack : TcpConnection → TcpConnection
unfolding flush_loop
flush_segments_with_ack c = record c {
  segments_out = flush_loop c.receiver c.sender.segments_out c.segments_out;
  sender = record (c.sender) { segments_out = [] };
}

abbrev pub rst_segment : TcpSegment
rst_segment = record { header = record default_header { rst = true }; payload = [] }

abbrev pub set_receiver_error : TcpReceiver → TcpReceiver
set_receiver_error r = record r {
  reassembler = record (r.reassembler) { output = ByteStream.set_error r.reassembler.output };
}

unfoldable pub set_rst_state : TcpConnection → Bool → TcpConnection
set_rst_state c send_rst = record c {
  segments_out = if send_rst then c.segments_out ++ (rst_segment ∷ []) else c.segments_out;
  receiver = set_receiver_error c.receiver;
  sender = record (c.sender) { stream = ByteStream.set_error c.sender.stream };
  linger_after_streams_finish = false;
  is_active = false;
}

unfoldable pub connect : TcpConnection → TcpConnection
unfolding flush_segments_with_ack
connect c = flush_segments_with_ack (record c { sender = TcpSender.fill_window c.sender })

unfoldable pub write : TcpConnection → List ℕ → ℕ × TcpConnection
unfolding connect
write c bytes =
    let (bytes_written, stream) = ByteStream.write c.sender.stream bytes in
    (bytes_written, connect (record c { sender = record (c.sender) { stream = stream } }))

unfoldable pub end_input_stream : TcpConnection → TcpConnection
unfolding connect
end_input_stream c =
    connect
      (record c { sender = record (c.sender) { stream = ByteStream.end_input c.sender.stream } })

-- Both summaries at once.
abbrev pub stands : TcpConnection → ReceiverSummary → SenderSummary → Bool
stands c r s =
    same_receiver (receiver_summary c.receiver) r && same_sender (sender_summary c.sender) s

-- `segment_received` from the test for a SYN that opens the connection on.
unfoldable pub respond : TcpConnection → Bool → TcpConnection
unfolding connect flush_segments_with_ack
respond c need_send_ack =
    let closing = record c {
      linger_after_streams_finish =
          if stands c ReceiverSummary.fin_recv SenderSummary.syn_acked
          then false
          else c.linger_after_streams_finish;
    } in
    let acked = record closing {
      sender =
          if need_send_ack then TcpSender.send_empty_segment closing.sender else closing.sender;
    } in
    if stands c ReceiverSummary.syn_recv SenderSummary.closed
    then record (connect c) { is_active = true }
    else if stands closing ReceiverSummary.fin_recv SenderSummary.fin_acked
        && not closing.linger_after_streams_finish
    then record closing { is_active = false }
    else flush_segments_with_ack acked

unfoldable pub segment_received : TcpConnection → TcpSegment → TcpConnection
unfolding respond set_rst_state
segment_received c seg =
    let received = record c {
      time_since_last_segment_received_ms = 0;
      receiver = TcpReceiver.segment_received c.receiver seg;
    } in
    let need_send_ack = not (length_in_sequence_space seg == 0) in
    let acked = record received {
      sender = TcpSender.ack_received received.sender seg.header.ackno seg.header.win;
    } in
    if seg.header.rst
    then set_rst_state received false
    else if seg.header.ack
    then respond acked (need_send_ack && is_empty acked.sender.segments_out)
    else respond received need_send_ack

abbrev pub pop {ℓ} : {A : Type ℓ} → List A → List A
pop [] = []
pop (x ∷ xs) = xs

unfoldable pub tick : TcpConnection → ℕ → TcpConnection
unfolding set_rst_state flush_segments_with_ack
tick c ms =
    let ticked = record c { sender = TcpSender.tick c.sender ms } in
    let cleared = record ticked {
      sender = record (ticked.sender) { segments_out = pop ticked.sender.segments_out };
    } in
    let flushed = flush_segments_with_ack ticked in
    let later = record flushed {
      time_since_last_segment_received_ms = add64 flushed.time_since_last_segment_received_ms ms;
    } in
    let time_wait_expired = leb (10 * c.cfg.rt_timeout) later.time_since_last_segment_received_ms in
    if ltb max_retx_attempts (TcpSender.consecutive_retransmissions ticked.sender)
    then set_rst_state cleared true
    else if stands later ReceiverSummary.fin_recv SenderSummary.fin_acked
        && later.linger_after_streams_finish
        && time_wait_expired
    then record later { is_active = false; linger_after_streams_finish = false }
    else later

-- `~TCPConnection()`, as what it does to the state before that is gone.
unfoldable pub destroy : TcpConnection → TcpConnection
unfolding set_rst_state
destroy c = if active c then set_rst_state c false else c

abbrev pub remaining_outbound_capacity : TcpConnection → ℕ
remaining_outbound_capacity c = ByteStream.remaining_capacity c.sender.stream

abbrev pub bytes_in_flight : TcpConnection → ℕ
bytes_in_flight c = TcpSender.bytes_in_flight c.sender

abbrev pub unassembled_bytes : TcpConnection → ℕ
unassembled_bytes c = TcpReceiver.unassembled_bytes c.receiver

abbrev pub time_since_last_segment_received : TcpConnection → ℕ
time_since_last_segment_received c = c.time_since_last_segment_received_ms
