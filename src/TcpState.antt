-- ===== src/TcpState.antt =====
-- libsponge/tcp_helpers/tcp_state.hh and tcp_state.cc. The texts that summarise a sender or a receiver
-- are constants that differ from one another, and become constructors.
use sponge.Prelude.{Bool, true, false, ◌&&◌, none, some, ◌==◌, ltb, not, if◌then◌else◌, add64}
use sponge.ByteStream
use sponge.TcpReceiver
use sponge.TcpReceiver.{TcpReceiver}
use sponge.TcpSender.{TcpSender}

-- `TCPReceiverStateSummary`
pub data ReceiverSummary : Type 0 where
  error listen syn_recv fin_recv : ReceiverSummary

-- `TCPSenderStateSummary`
pub data SenderSummary : Type 0 where
  error closed syn_sent syn_acked fin_sent fin_acked : SenderSummary

pub record TcpState : Type 0 where
  pub sender : SenderSummary
  pub receiver : ReceiverSummary
  pub active : Bool
  pub linger_after_streams_finish : Bool

-- `TCPState::State`
pub data State : Type 0 where
  listen syn_rcvd syn_sent established close_wait last_ack : State
  fin_wait_1 fin_wait_2 closing time_wait closed reset : State

abbrev going : SenderSummary → ReceiverSummary → Bool → TcpState
going s r linger = record {
  sender = s;
  receiver = r;
  active = true;
  linger_after_streams_finish = linger;
}

abbrev over : SenderSummary → ReceiverSummary → TcpState
over s r = record { sender = s; receiver = r; active = false; linger_after_streams_finish = false }

-- `TCPState(State)`
unfoldable pub of_state : State → TcpState
of_state State.listen = going SenderSummary.closed ReceiverSummary.listen true
of_state State.syn_rcvd = going SenderSummary.syn_sent ReceiverSummary.syn_recv true
of_state State.syn_sent = going SenderSummary.syn_sent ReceiverSummary.listen true
of_state State.established = going SenderSummary.syn_acked ReceiverSummary.syn_recv true
of_state State.close_wait = going SenderSummary.syn_acked ReceiverSummary.fin_recv false
of_state State.last_ack = going SenderSummary.fin_sent ReceiverSummary.fin_recv false
of_state State.closing = going SenderSummary.fin_sent ReceiverSummary.fin_recv true
of_state State.fin_wait_1 = going SenderSummary.fin_sent ReceiverSummary.syn_recv true
of_state State.fin_wait_2 = going SenderSummary.fin_acked ReceiverSummary.syn_recv true
of_state State.time_wait = going SenderSummary.fin_acked ReceiverSummary.fin_recv true
of_state State.reset = over SenderSummary.error ReceiverSummary.error
of_state State.closed = over SenderSummary.fin_acked ReceiverSummary.fin_recv

-- `state_summary(const TCPReceiver &)`
unfoldable pub receiver_summary : TcpReceiver → ReceiverSummary
unfolding TcpReceiver.ackno
receiver_summary r =
    if (TcpReceiver.stream_out r).error
    then ReceiverSummary.error
    else (elim (TcpReceiver.ackno r) [
      | none ↦ ReceiverSummary.listen
      | some a ↦
          if (TcpReceiver.stream_out r).input_ended
          then ReceiverSummary.fin_recv
          else ReceiverSummary.syn_recv
    ])

-- `state_summary(const TCPSender &)`
unfoldable pub sender_summary : TcpSender → SenderSummary
sender_summary s =
    if s.stream.error
    then SenderSummary.error
    else if s.next_seqno == 0
    then SenderSummary.closed
    else if s.next_seqno == s.outgoing_bytes
    then SenderSummary.syn_sent
    else if not (ByteStream.eof s.stream)
    then SenderSummary.syn_acked
    else if ltb s.next_seqno (add64 s.stream.bytes_written 2)
    then SenderSummary.syn_acked
    else if s.outgoing_bytes == 0
    then SenderSummary.fin_acked
    else SenderSummary.fin_sent

-- `TCPState(sender, receiver, active, linger)`
unfoldable pub of_parts : TcpSender → TcpReceiver → Bool → Bool → TcpState
unfolding receiver_summary sender_summary
of_parts s r active linger = record {
  sender = sender_summary s;
  receiver = receiver_summary r;
  active = active;
  linger_after_streams_finish = if active then linger else false;
}

abbrev pub same_bool : Bool → Bool → Bool
same_bool true b = b
same_bool false b = not b

-- The texts of two summaries are the same.
abbrev pub same_sender : SenderSummary → SenderSummary → Bool
same_sender SenderSummary.error SenderSummary.error = true
same_sender SenderSummary.closed SenderSummary.closed = true
same_sender SenderSummary.syn_sent SenderSummary.syn_sent = true
same_sender SenderSummary.syn_acked SenderSummary.syn_acked = true
same_sender SenderSummary.fin_sent SenderSummary.fin_sent = true
same_sender SenderSummary.fin_acked SenderSummary.fin_acked = true
same_sender _ _ = false

abbrev pub same_receiver : ReceiverSummary → ReceiverSummary → Bool
same_receiver ReceiverSummary.error ReceiverSummary.error = true
same_receiver ReceiverSummary.listen ReceiverSummary.listen = true
same_receiver ReceiverSummary.syn_recv ReceiverSummary.syn_recv = true
same_receiver ReceiverSummary.fin_recv ReceiverSummary.fin_recv = true
same_receiver _ _ = false

-- `operator==`
abbrev pub same_state : TcpState → TcpState → Bool
same_state a b =
    same_bool a.active b.active
    && same_bool a.linger_after_streams_finish b.linger_after_streams_finish
    && same_sender a.sender b.sender
    && same_receiver a.receiver b.receiver
