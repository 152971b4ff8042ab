-- ===== src/TcpConnection/Answers.antt =====
-- When `TCPConnection::segment_received` of libsponge/tcp_connection.cc sends something back.
use sponge.Prelude.{
  ℕ, ◌%◌, ◌^◌, ◌<◌, ◌≡◌, refl, Bool, Bool-cases, true, false, not, ◌&&◌, List, [], ◌++◌, arith,
  if◌then◌else◌, if_elim, if_true, none, some, ◌==◌, and_true, ◌⊎◌, inl, inr, sym, ◌∙◌,
}
use mathlib.Core.Bool.{false≢true}
use sponge.TcpSegment.{TcpSegment, length_in_sequence_space}
use sponge.TcpReceiver
use sponge.TcpReceiver.{TcpReceiver}
use sponge.TcpSender
use sponge.TcpSender.{TcpSender, is_empty, fill_window, current_window}
use sponge.TcpSender.Invariant.{IsValid}
use sponge.TcpSender.Acks.{ack_received_lem}
use sponge.TcpSender.Window.{not_empty, fill_window-opens}
use sponge.TcpState.{ReceiverSummary, SenderSummary, sender_summary, same_sender}
use sponge.TcpConnection.{
  TcpConnection, stands, respond, connect, flush_segments_with_ack, segment_received,
}
use sponge.TcpConnection.Flush.{
  AllAck, IsStamped, IsStamped-AllAck, stamps, flush_loop-stamps, stamps-IsStamped, stamps-is_empty,
}

-- One segment at least has been queued behind `out`, with the acknowledgment and window of `r`.
pub record IsAnswered (r : TcpReceiver) (out out' : List TcpSegment) : Type 0 where
  pub new : List TcpSegment
  pub queue : out' ≡ out ++ new
  pub nonempty : is_empty new ≡ false
  pub stamped : IsStamped r new

-- One segment at least has been queued behind `out`, and all of these acknowledge what `r` has.
pub record IsAcknowledged (r : TcpReceiver) (out out' : List TcpSegment) : Type 0 where
  pub ackno : ℕ
  pub current : TcpReceiver.ackno r ≡ some ackno
  pub new : List TcpSegment
  pub queue : out' ≡ out ++ new
  pub nonempty : is_empty new ≡ false
  pub acks : AllAck ackno (TcpReceiver.window_size r % 2 ^ 16) new

-- A receiver that has seen the SYN of the peer has an acknowledgment.
opened-ackno : (r : TcpReceiver) → r.syn_flag ≡ true → (a : ℕ) × (TcpReceiver.ackno r ≡ some a)
unfolding TcpReceiver.ackno
opened-ackno r e = (_, if_true r.syn_flag _ none e)

pub IsAnswered-IsAcknowledged :
    (r : TcpReceiver) (out out' : List TcpSegment)
    → r.syn_flag ≡ true
    → IsAnswered r out out'
    → IsAcknowledged r out out'
IsAnswered-IsAcknowledged r out out' e h =
    let (a, current) = opened-ackno r e in
    record {
      ackno = a;
      current = current;
      new = h.new;
      queue = h.queue;
      nonempty = h.nonempty;
      acks = IsStamped-AllAck r a h.new current h.stamped;
    }

flush-IsAnswered :
    (c : TcpConnection)
    → is_empty c.sender.segments_out ≡ false
    → IsAnswered c.receiver c.segments_out (flush_segments_with_ack c).segments_out
unfolding flush_segments_with_ack
flush-IsAnswered c filled =
    let segs = c.sender.segments_out in
    record {
      new = stamps c.receiver segs;
      queue = flush_loop-stamps c.receiver segs c.segments_out;
      nonempty = stamps-is_empty c.receiver segs ∙ filled;
      stamped = stamps-IsStamped c.receiver segs;
    }

-- A sender whose summary is CLOSED has sent nothing.
closed-fresh :
    (s : TcpSender)
    → IsValid s
    → same_sender (sender_summary s) SenderSummary.closed ≡ true
    → (s.syn_flag ≡ false) × (s.outgoing_bytes ≡ 0)
unfolding sender_summary
closed-fresh s v e =
    let unsent : s.next_seqno ≡ 0 = ground arith in
    (ground (arith, unsent, v.position), omega (arith, unsent, v.flight))

connect-IsAnswered :
    (c : TcpConnection)
    → IsValid c.sender
    → current_window c.sender < 2 ^ 62
    → same_sender (sender_summary c.sender) SenderSummary.closed ≡ true
    → IsAnswered c.receiver c.segments_out (connect c).segments_out
unfolding connect
connect-IsAnswered c v small closed =
    let fresh = closed-fresh c.sender v closed in
    flush-IsAnswered (record c { sender = fill_window c.sender })
      (fill_window-opens c.sender fresh.0 fresh.1 small)

send_empty-some : (s : TcpSender) → is_empty (TcpSender.send_empty_segment s).segments_out ≡ false
unfolding TcpSender.send_empty_segment
send_empty-some s = not_empty s.segments_out _ []

-- The sender stays valid, and its window narrow.
ack_received-kept :
    (s : TcpSender) (ackno window : ℕ)
    → IsValid s
    → s.next_seqno < 2 ^ 61
    → s.last_window_size < 2 ^ 16
    → window < 2 ^ 16
    → let t = TcpSender.ack_received s ackno window in IsValid t × (current_window t < 2 ^ 62)
ack_received-kept s ackno window v small w16 win16 =
    elim (ack_received_lem s ackno window v small win16) [
      | inl (far, same) ↦ rw same (v, ground (arith, w16))
      | inr (near, acked) ↦ (acked.valid, rw acked.window_size (ground (arith, win16)))
    ]

-- The connection goes on, so it has answered.
abbrev Answers : TcpReceiver → List TcpSegment → TcpConnection → Type 0
Answers r out c = c.is_active ≡ true → IsAnswered r out c.segments_out

respond-Answers :
    (c : TcpConnection) (need_send_ack : Bool)
    → IsValid c.sender
    → current_window c.sender < 2 ^ 62
    → (need_send_ack ≡ true) ⊎ (is_empty c.sender.segments_out ≡ false)
    → Answers c.receiver c.segments_out (respond c need_send_ack)
unfolding respond
respond-Answers c need v small filled =
    let linger =
      if stands c ReceiverSummary.fin_recv SenderSummary.syn_acked
      then false
      else c.linger_after_streams_finish in
    let closing = record c { linger_after_streams_finish = linger } in
    let sender = if need then TcpSender.send_empty_segment c.sender else c.sender in
    let acked = record closing { sender = sender } in
    let queued : is_empty sender.segments_out ≡ false = elim (Bool-cases need) [
      | inl e ↦ rw e (send_empty-some c.sender)
      | inr e ↦ rw e (ground (arith, filled, e))
    ] in
    if_elim (Answers c.receiver c.segments_out)
      (stands c ReceiverSummary.syn_recv SenderSummary.closed)
      (record (connect c) { is_active = true }) _
      (λ h on. connect-IsAnswered c v small (and_true _ _ h).1)
      (λ h.
        if_elim (Answers c.receiver c.segments_out)
          (stands closing ReceiverSummary.fin_recv SenderSummary.fin_acked && not linger)
          (record closing { is_active = false }) (flush_segments_with_ack acked)
          (λ over on. absurd (false≢true on)) (λ h' on. flush-IsAnswered acked queued))

-- A segment without RST that takes a sequence number is answered, if it leaves the connection active:
-- `segment_received` queues one segment at least, and nothing else changes in the queue; what it queues
-- has the acknowledgment and window of the receiver after the segment, if it has them. The sender is
-- valid, has sent less than 2 ^ 61, and the windows are of 16 bits.
pub segment_received-IsAnswered :
    (c : TcpConnection) (seg : TcpSegment)
    → IsValid c.sender
    → c.sender.next_seqno < 2 ^ 61
    → c.sender.last_window_size < 2 ^ 16
    → seg.header.win < 2 ^ 16
    → seg.header.rst ≡ false
    → 0 < length_in_sequence_space seg
    → (segment_received c seg).is_active ≡ true
    → IsAnswered
        (TcpReceiver.segment_received c.receiver seg)
        c.segments_out
        (segment_received c seg).segments_out
unfolding segment_received
segment_received-IsAnswered c seg v small w16 win16 plain long =
    let r = TcpReceiver.segment_received c.receiver seg in
    let received = record c { time_since_last_segment_received_ms = 0; receiver = r } in
    let t = TcpSender.ack_received c.sender seg.header.ackno seg.header.win in
    let acked = record received { sender = t } in
    let need : not (length_in_sequence_space seg == 0) ≡ true = ground (arith, long) in
    if_elim (Answers r c.segments_out) seg.header.rst _ _ (λ e. absurd (false≢true (sym plain ∙ e)))
      (λ e.
        if_elim (Answers r c.segments_out) seg.header.ack
          (respond acked (not (length_in_sequence_space seg == 0) && is_empty t.segments_out))
          (respond received (not (length_in_sequence_space seg == 0)))
          (λ a.
            let kept =
              ack_received-kept c.sender seg.header.ackno seg.header.win v small w16 win16 in
            respond-Answers acked _ kept.0 kept.1 (elim (Bool-cases (is_empty t.segments_out)) [
              | inl b ↦ inl (rw (need, b) refl)
              | inr b ↦ inr b
            ]))
          (λ a. respond-Answers received _ v (ground (arith, w16)) (inl need)))
