-- ===== src/TcpConnection/Handshake.antt =====
-- Two connections of libsponge/tcp_connection.cc that open to one another.
use sponge.Prelude.{
  ℕ, ◌≡◌, refl, true, false, arith, ◌^◌, ◌<◌, List, [], ◌∷◌, if◌then◌else◌, ◌==◌, IsU32, suc, min,
  not, ap, ltb, Bool, ◌∙◌, if_false,
}
use sponge.Wrapping.Closest.{unwrap-wrap}
use sponge.Wrapping.{wrap, unwrap}
use sponge.Prelude.Maps.{insert}
use sponge.ByteStream
use sponge.TcpReceiver
use sponge.TcpReceiver.{TcpReceiver}
use sponge.Reassembler
use sponge.TcpSegment.{TcpHeader, TcpSegment, default_header}
use sponge.TcpSender
use sponge.TcpSender.{TcpSender}
use sponge.TcpState.{receiver_summary, sender_summary}
use sponge.TcpConnection.{TcpConfig, TcpConnection, init, connect, segment_received, stamp}

abbrev pub syn_segment : ℕ → TcpSegment
syn_segment isn = record {
  header = record default_header { seqno = isn; syn = true };
  payload = [];
}

-- The sender when its SYN is in flight, which has the sequence number `seqno`.
abbrev pub syn_sender_at : TcpConfig → ℕ → TcpSender
syn_sender_at cfg seqno = record (TcpSender.init cfg.send_capacity cfg.rt_timeout cfg.isn) {
  timeout = cfg.rt_timeout;
  timecount = 0;
  outgoing_map = (0, syn_segment seqno) ∷ [];
  outgoing_bytes = 1;
  syn_flag = true;
  next_seqno = 1;
}

abbrev pub syn_sender : TcpConfig → TcpSender
syn_sender cfg = syn_sender_at cfg cfg.isn

wrap_zero : (isn : ℕ) → IsU32 isn → wrap 0 isn ≡ isn
unfolding wrap
wrap_zero isn h = omega arith

-- A connection that has sent its SYN.
abbrev pub opening : TcpConfig → ℕ → TcpConnection
opening cfg seqno = record (init cfg) {
  sender = syn_sender_at cfg seqno;
  segments_out = syn_segment seqno ∷ [];
}

pub connect_lem : (cfg : TcpConfig) → IsU32 cfg.isn → connect (init cfg) ≡ opening cfg cfg.isn
unfolding connect init TcpSender.init TcpSender.fill_window TcpReceiver.init ByteStream.init
    ByteStream.read ByteStream.peek_output TcpSender.fill_loop TcpSender.make_segment
    ByteStream.pop_output TcpSender.send stamp insert TcpReceiver.ackno
connect_lem cfg h =
    let sent : connect (init cfg) ≡ opening cfg (wrap 0 cfg.isn) = refl in
    sent ∙ ap (opening cfg) (wrap_zero cfg.isn h)

push_nothing :
    (capacity : ℕ)
    → capacity < 2 ^ 62
    → Reassembler.push_substring (Reassembler.init capacity) [] 0 false ≡ Reassembler.init capacity
unfolding Reassembler.push_substring Reassembler.init ByteStream.init
push_nothing capacity h = ground arith

-- A receiver that has seen the SYN of the peer, and no byte.
abbrev pub heard : ℕ → ℕ → TcpReceiver
heard capacity isn = record (TcpReceiver.init capacity) { isn = isn; syn_flag = true }

syn_index :
    (capacity : ℕ) (header : TcpHeader)
    → IsU32 header.seqno
    → header.syn ≡ true
    → TcpReceiver.stream_index (heard capacity header.seqno) header ≡ 0
unfolding TcpReceiver.init Reassembler.init ByteStream.init unwrap
syn_index capacity header u syn = ground arith

ack_index :
    (capacity isn : ℕ) (header : TcpHeader)
    → IsU32 isn
    → header.seqno ≡ wrap 1 isn
    → header.syn ≡ false
    → TcpReceiver.stream_index (heard capacity isn) header ≡ 0
unfolding TcpReceiver.init Reassembler.init ByteStream.init unwrap wrap
ack_index capacity isn header u seqno syn = ground arith

-- No byte, and no FIN.
pub record IsBare (seg : TcpSegment) : Type 0 where
  pub payload : seg.payload ≡ []
  pub fin : seg.header.fin ≡ false

hear_syn :
    (capacity : ℕ) (seg : TcpSegment)
    → capacity < 2 ^ 62
    → IsU32 seg.header.seqno
    → seg.header.syn ≡ true
    → IsBare seg
    → TcpReceiver.segment_received (TcpReceiver.init capacity) seg ≡ heard capacity seg.header.seqno
unfolding TcpReceiver.segment_received TcpReceiver.init
hear_syn capacity seg h u syn bare =
    let index : TcpReceiver.stream_index (heard capacity seg.header.seqno) seg.header ≡ 0 =
      syn_index capacity seg.header u syn in
    let pushed : Reassembler.push_substring (Reassembler.init capacity) seg.payload
          (TcpReceiver.stream_index (heard capacity seg.header.seqno) seg.header) seg.header.fin
        ≡ Reassembler.init capacity =
      rw (index, bare.payload, bare.fin) (push_nothing capacity h) in
    if_false (not seg.header.syn) _ _ (ap not syn)
    ∙ ap (λ x. record (heard capacity seg.header.seqno) { reassembler = x }) pushed

hear_ack :
    (capacity isn : ℕ) (seg : TcpSegment)
    → capacity < 2 ^ 62
    → IsU32 isn
    → seg.header.seqno ≡ wrap 1 isn
    → seg.header.syn ≡ false
    → IsBare seg
    → TcpReceiver.segment_received (heard capacity isn) seg ≡ heard capacity isn
unfolding TcpReceiver.segment_received TcpReceiver.init
hear_ack capacity isn seg h u seqno syn bare =
    let index : TcpReceiver.stream_index (heard capacity isn) seg.header ≡ 0 =
      ack_index capacity isn seg.header u seqno syn in
    let pushed : Reassembler.push_substring (Reassembler.init capacity) seg.payload
          (TcpReceiver.stream_index (heard capacity isn) seg.header) seg.header.fin
        ≡ Reassembler.init capacity =
      rw (index, bare.payload, bare.fin) (push_nothing capacity h) in
    ap (λ x. record (heard capacity isn) { reassembler = x }) pushed

-- The sender when its SYN is acknowledged.
abbrev pub open_sender : TcpConfig → ℕ → TcpSender
open_sender cfg win = record (syn_sender cfg) {
  outgoing_map = [];
  outgoing_bytes = 0;
  last_window_size = win;
}

read_nothing :
    (capacity len : ℕ)
    → ByteStream.read (ByteStream.init capacity) len ≡ ([], ByteStream.init capacity)
unfolding ByteStream.init ByteStream.read ByteStream.peek_output ByteStream.pop_output
read_nothing capacity len = let none_left : min len 0 ≡ 0 = omega arith in rw none_left refl

if_same : (b : Bool) (s : TcpSender) → (if b then s else s) ≡ s
if_same true s = refl
if_same false s = refl

fill_nothing :
    (cfg : TcpConfig) (win fuel w : ℕ)
    → TcpSender.fill_loop (suc fuel) w (open_sender cfg win) ≡ open_sender cfg win
unfolding TcpSender.fill_loop TcpSender.make_segment TcpSender.init
fill_nothing cfg win fuel w =
    rw (read_nothing cfg.send_capacity)
      (unfold ByteStream.init in if_same (ltb 0 w) (open_sender cfg win))

ack_syn :
    (cfg : TcpConfig) (win : ℕ)
    → IsU32 cfg.isn
    → TcpSender.ack_received (syn_sender cfg) (wrap 1 cfg.isn) win ≡ open_sender cfg win
unfolding TcpSender.ack_received TcpSender.drop_acked TcpSender.fill_window TcpSender.init
ack_syn cfg win h =
    let back : unwrap (wrap 1 cfg.isn) cfg.isn 1 ≡ 1 =
      unwrap-wrap 1 cfg.isn 1 h (omega arith) (omega arith) in
    rw (TcpSender.ack_received, back)
      (fill_nothing cfg win (if win == 0 then 1 else win) (if win == 0 then 1 else win))

-- The answer to a SYN.
abbrev pub answering : TcpConfig → ℕ → ℕ → TcpConnection
answering cfg isn seqno = record (init cfg) {
  receiver = heard cfg.recv_capacity isn;
  sender = syn_sender_at cfg seqno;
  segments_out = stamp (heard cfg.recv_capacity isn) (syn_segment seqno) ∷ [];
}

pub answer_lem :
    (cfg : TcpConfig) (isn : ℕ)
    → IsU32 cfg.isn
    → IsU32 isn
    → cfg.recv_capacity < 2 ^ 62
    → segment_received (init cfg) (syn_segment isn) ≡ answering cfg isn cfg.isn
unfolding segment_received connect init TcpSender.init TcpSender.fill_window ByteStream.init
    ByteStream.read ByteStream.peek_output TcpSender.fill_loop TcpSender.make_segment
    ByteStream.pop_output TcpSender.send stamp insert TcpReceiver.ackno receiver_summary
    sender_summary TcpReceiver.init Reassembler.init TcpReceiver.segment_received
answer_lem cfg isn h u room =
    let heard_lem =
      hear_syn cfg.recv_capacity (syn_segment isn) room u refl
        (record { payload = refl; fin = refl }) in
    let sent : segment_received (init cfg) (syn_segment isn) ≡ answering cfg isn (wrap 0 cfg.isn) =
      rw (segment_received, heard_lem) refl in
    sent ∙ ap (answering cfg isn) (wrap_zero cfg.isn h)

-- The acknowledgment that a SYN and ACK asks for.
abbrev pub empty_segment : ℕ → TcpSegment
empty_segment seqno = record { header = record default_header { seqno = seqno }; payload = [] }

-- A connection that has seen the peer's SYN and the acknowledgment of its own.
abbrev pub open_to : TcpConfig → ℕ → ℕ → List TcpSegment → TcpConnection
open_to cfg isn win out = record (init cfg) {
  receiver = heard cfg.recv_capacity isn;
  sender = open_sender cfg win;
  segments_out = out;
}

abbrev pub sent_all : TcpConnection → TcpConnection
sent_all c = record c { segments_out = [] }

abbrev pub syn_ack : ℕ → ℕ → ℕ → TcpSegment
syn_ack seqno ackno win = record {
  header = record default_header {
    seqno = seqno;
    syn = true;
    ack = true;
    ackno = ackno;
    win = win;
  };
  payload = [];
}

pub complete_lem :
    (cfg : TcpConfig) (isn win : ℕ)
    → IsU32 cfg.isn
    → IsU32 isn
    → cfg.recv_capacity < 2 ^ 62
    → segment_received (sent_all (opening cfg cfg.isn)) (syn_ack isn (wrap 1 cfg.isn) win)
      ≡ open_to cfg isn win
          (stamp (heard cfg.recv_capacity isn) (empty_segment (wrap 1 cfg.isn)) ∷ [])
unfolding segment_received TcpSender.init ByteStream.init TcpSender.send_empty_segment stamp
    TcpReceiver.ackno receiver_summary sender_summary TcpReceiver.init Reassembler.init
    TcpReceiver.segment_received init TcpSender.ack_received
complete_lem cfg isn win h u room =
    let seg = syn_ack isn (wrap 1 cfg.isn) win in
    let heard_lem =
      hear_syn cfg.recv_capacity seg room u refl (record { payload = refl; fin = refl }) in
    rw (segment_received, heard_lem, ack_syn cfg win h) refl

abbrev pub bare_ack : ℕ → ℕ → ℕ → TcpSegment
bare_ack seqno ackno win = record {
  header = record default_header { seqno = seqno; ack = true; ackno = ackno; win = win };
  payload = [];
}

pub accept_lem :
    (cfg : TcpConfig) (isn win : ℕ)
    → IsU32 cfg.isn
    → IsU32 isn
    → cfg.recv_capacity < 2 ^ 62
    → segment_received
        (sent_all (answering cfg isn cfg.isn))
        (bare_ack (wrap 1 isn) (wrap 1 cfg.isn) win)
      ≡ open_to cfg isn win []
unfolding segment_received TcpSender.init ByteStream.init stamp TcpReceiver.ackno receiver_summary
    sender_summary TcpReceiver.init Reassembler.init TcpReceiver.segment_received init
    TcpSender.ack_received
accept_lem cfg isn win h u room =
    let seg = bare_ack (wrap 1 isn) (wrap 1 cfg.isn) win in
    let heard_lem =
      hear_ack cfg.recv_capacity isn seg room u refl refl (record { payload = refl; fin = refl }) in
    rw (segment_received, heard_lem, ack_syn cfg win h) refl
