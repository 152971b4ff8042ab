-- ===== src/TcpConnection/Reset.antt =====
-- How libsponge/tcp_connection.cc ends in the states RESET and CLOSED.
use sponge.Prelude.{
  ℕ, ◌<◌, ◌≡◌, refl, Bool, true, false, not, ◌&&◌, [], ◌∷◌, ◌++◌, arith, if◌then◌else◌, if_true,
  if_elim, and_true, lt→ltb, not-true,
}
use sponge.ByteStream
use sponge.TcpSegment.{TcpSegment}
use sponge.TcpReceiver
use sponge.TcpSender
use sponge.TcpSender.{is_empty}
use sponge.TcpState.{
  same_receiver, same_sender, State, ReceiverSummary, SenderSummary, of_state, of_parts,
  sender_summary, receiver_summary,
}
use sponge.TcpConnection.{
  pop, TcpConnection, max_retx_attempts, state, active, stands, segment_received, tick, destroy,
  set_rst_state, respond, connect, flush_segments_with_ack, rst_segment,
}

-- After the reset both streams have failed and the state is RESET.
set_rst_state-reset :
    (c : TcpConnection) (send_rst : Bool)
    → let c' = set_rst_state c send_rst in
      (state c' ≡ of_state State.reset)
      × (c'.sender.stream.error ≡ true)
      × ((TcpReceiver.stream_out c'.receiver).error ≡ true)
unfolding set_rst_state of_state of_parts sender_summary receiver_summary ByteStream.set_error
set_rst_state-reset c send_rst = (refl, refl, refl)

-- The segment reaches the receiver, and nothing else.
received_with_rst :
    (c : TcpConnection) (seg : TcpSegment)
    → seg.header.rst ≡ true
    → segment_received c seg
      ≡ set_rst_state
          (record c {
            time_since_last_segment_received_ms = 0;
            receiver = TcpReceiver.segment_received c.receiver seg;
          })
          false
unfolding segment_received
received_with_rst c seg h = if_true _ _ _ h

-- A segment with RST puts the connection in the state RESET, with both streams failed, and sends
-- nothing.
segment_received-reset :
    (c : TcpConnection) (seg : TcpSegment)
    → seg.header.rst ≡ true
    → let c' = segment_received c seg in
      (state c' ≡ of_state State.reset)
      × (c'.sender.stream.error ≡ true)
      × ((TcpReceiver.stream_out c'.receiver).error ≡ true)
      × (c'.segments_out ≡ c.segments_out)
segment_received-reset c seg h =
    let received = record c {
      time_since_last_segment_received_ms = 0;
      receiver = TcpReceiver.segment_received c.receiver seg;
    } in
    let reset = set_rst_state-reset received false in
    rw (received_with_rst c seg h) (reset.0, reset.1, reset.2, unfold set_rst_state in refl)

-- The queue of the sender after `_sender.segments_out().pop()`.
abbrev popped : TcpConnection → ℕ → TcpConnection
popped c ms =
    let s = TcpSender.tick c.sender ms in
    record c { sender = record s { segments_out = pop s.segments_out } }

tick_too_many :
    (c : TcpConnection) (ms : ℕ)
    → max_retx_attempts < TcpSender.consecutive_retransmissions (TcpSender.tick c.sender ms)
    → tick c ms ≡ set_rst_state (popped c ms) true
unfolding tick
tick_too_many c ms h = if_true _ _ _ (lt→ltb _ _ h)

-- The tick of the sender that passes the limit of retransmissions queues one RST, the only thing that
-- the tick sends, and leaves the state RESET with both streams failed.
pub tick-reset :
    (c : TcpConnection) (ms : ℕ)
    → max_retx_attempts < TcpSender.consecutive_retransmissions (TcpSender.tick c.sender ms)
    → let c' = tick c ms in
      (state c' ≡ of_state State.reset)
      × (c'.sender.stream.error ≡ true)
      × ((TcpReceiver.stream_out c'.receiver).error ≡ true)
      × (c'.segments_out ≡ c.segments_out ++ rst_segment ∷ [])
tick-reset c ms h =
    let reset = set_rst_state-reset (popped c ms) true in
    rw (tick_too_many c ms h) (reset.0, reset.1, reset.2, unfold set_rst_state in refl)

-- The destructor of an active connection fails both streams, but queues no RST.
pub destroy_silent :
    (c : TcpConnection)
    → active c ≡ true
    → (state (destroy c) ≡ of_state State.reset) × ((destroy c).segments_out ≡ c.segments_out)
unfolding destroy
destroy_silent c h =
    rw (if_true (active c) (set_rst_state c false) c h)
      ((set_rst_state-reset c false).0, unfold set_rst_state in refl)

is_receiver_eq : (a b : ReceiverSummary) → same_receiver a b ≡ true → a ≡ b
is_receiver_eq ReceiverSummary.error b h = ground arith
is_receiver_eq ReceiverSummary.listen b h = ground arith
is_receiver_eq ReceiverSummary.syn_recv b h = ground arith
is_receiver_eq ReceiverSummary.fin_recv b h = ground arith

is_sender_eq : (a b : SenderSummary) → same_sender a b ≡ true → a ≡ b
is_sender_eq SenderSummary.error b h = ground arith
is_sender_eq SenderSummary.closed b h = ground arith
is_sender_eq SenderSummary.syn_sent b h = ground arith
is_sender_eq SenderSummary.syn_acked b h = ground arith
is_sender_eq SenderSummary.fin_sent b h = ground arith
is_sender_eq SenderSummary.fin_acked b h = ground arith

-- Where the sender and the receiver are both through with both streams.
pub stands-closed :
    (c : TcpConnection)
    → stands c ReceiverSummary.fin_recv SenderSummary.fin_acked ≡ true
    → c.is_active ≡ false
    → state c ≡ of_state State.closed
unfolding of_state of_parts
stands-closed c h e =
    let both = and_true _ _ h in
    let r = is_receiver_eq (receiver_summary c.receiver) ReceiverSummary.fin_recv both.0 in
    let s = is_sender_eq (sender_summary c.sender) SenderSummary.fin_acked both.1 in
    rw (r, s, e) refl

abbrev IsOver : TcpConnection → Type 0
IsOver c = (state c ≡ of_state State.closed) × (c.linger_after_streams_finish ≡ false)

abbrev ClosesWell : TcpConnection → Type 0
ClosesWell c = c.is_active ≡ false → IsOver c

-- `respond` leaves the connection active, or ends it in the state CLOSED.
respond-closed :
    (c : TcpConnection) (need_send_ack : Bool)
    → c.is_active ≡ true
    → ClosesWell (respond c need_send_ack)
unfolding respond
respond-closed c need a =
    let linger =
      if stands c ReceiverSummary.fin_recv SenderSummary.syn_acked
      then false
      else c.linger_after_streams_finish in
    let closing = record c { linger_after_streams_finish = linger } in
    let sender = if need then TcpSender.send_empty_segment c.sender else c.sender in
    let flushed = flush_segments_with_ack (record closing { sender = sender }) in
    if_elim ClosesWell (stands c ReceiverSummary.syn_recv SenderSummary.closed)
      (record (connect c) { is_active = true }) _ (λ h e. cc)
      (λ h.
        if_elim ClosesWell
          (stands closing ReceiverSummary.fin_recv SenderSummary.fin_acked && not linger)
          (record closing { is_active = false }) flushed
          (λ over e.
            let both = and_true _ _ over in
            (stands-closed (record closing { is_active = false }) both.0 refl, not-true _ both.1))
          (λ on. unfold flush_segments_with_ack in λ e. cc))

-- A segment without RST ends an active connection only in the state CLOSED: both streams have come
-- through, and it need not linger.
pub segment_received-closed :
    (c : TcpConnection) (seg : TcpSegment)
    → seg.header.rst ≡ false
    → c.is_active ≡ true
    → (segment_received c seg).is_active ≡ false
    → let c' = segment_received c seg in
      (state c' ≡ of_state State.closed) × (c'.linger_after_streams_finish ≡ false)
unfolding segment_received
segment_received-closed c seg h a =
    let received = record c {
      time_since_last_segment_received_ms = 0;
      receiver = TcpReceiver.segment_received c.receiver seg;
    } in
    if_elim ClosesWell seg.header.rst _ _ (λ e. cc)
      (λ e.
        if_elim ClosesWell seg.header.ack _ _
          (λ e'.
            respond-closed
              (record received {
                sender = TcpSender.ack_received received.sender seg.header.ackno seg.header.win;
              })
              _ a)
          (λ e'. respond-closed received _ a))
