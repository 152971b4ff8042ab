-- ===== src/TcpConnection/Established.antt =====
-- The three segments by which two connections of libsponge/tcp_connection.cc open to one another.
use sponge.Prelude.{ℕ, ◌≡◌, refl, ◌^◌, ◌<◌, ◌%◌, List, [], ◌∷◌, IsU32, ap, ◌∙◌}
use sponge.Wrapping.{wrap}
use sponge.ByteStream
use sponge.TcpReceiver
use sponge.Reassembler
use sponge.TcpSegment.{TcpSegment}
use sponge.TcpSender
use sponge.TcpState.{State, of_state, of_parts}
use sponge.TcpConnection.{TcpConfig, TcpConnection, init, connect, segment_received, state, stamp}
use sponge.TcpConnection.Handshake.{
  opening, answering, open_to, heard, syn_segment, syn_ack, bare_ack, empty_segment, sent_all,
  connect_lem, answer_lem, complete_lem, accept_lem,
}

opening-state : (cfg : TcpConfig) → state (opening cfg cfg.isn) ≡ of_state State.syn_sent
unfolding of_parts of_state init TcpSender.init TcpReceiver.init Reassembler.init ByteStream.init
opening-state cfg = refl

answering-state :
    (cfg : TcpConfig) (isn : ℕ) → state (answering cfg isn cfg.isn) ≡ of_state State.syn_rcvd
unfolding of_parts of_state init TcpSender.init TcpReceiver.init Reassembler.init ByteStream.init
answering-state cfg isn = refl

open_to-state :
    (cfg : TcpConfig) (isn win : ℕ) (out : List TcpSegment)
    → state (open_to cfg isn win out) ≡ of_state State.established
unfolding of_parts of_state init TcpSender.init TcpReceiver.init Reassembler.init ByteStream.init
open_to-state cfg isn win out = refl

-- The window that a connection advertises while it has taken no byte.
abbrev first_window : TcpConfig → ℕ → ℕ
first_window cfg isn = TcpReceiver.window_size (heard cfg.recv_capacity isn) % 2 ^ 16

stamp-syn :
    (cfg : TcpConfig) (isn seqno : ℕ)
    → stamp (heard cfg.recv_capacity isn) (syn_segment seqno)
      ≡ syn_ack seqno (wrap 1 isn) (first_window cfg isn)
unfolding stamp TcpReceiver.ackno TcpReceiver.init Reassembler.init ByteStream.init
stamp-syn cfg isn seqno = refl

stamp-empty :
    (cfg : TcpConfig) (isn seqno : ℕ)
    → stamp (heard cfg.recv_capacity isn) (empty_segment seqno)
      ≡ bare_ack seqno (wrap 1 isn) (first_window cfg isn)
unfolding stamp TcpReceiver.ackno TcpReceiver.init Reassembler.init ByteStream.init
stamp-empty cfg isn seqno = refl

-- `client` and `server` in turn take what the other one has queued, one segment each time.
pub record Handshake (client server : TcpConfig) : Type 0 where
  pub syn : TcpSegment
  pub syn_and_ack : TcpSegment
  pub ack : TcpSegment
  pub sends_syn : (connect (init client)).segments_out ≡ syn ∷ []
  pub syn_sent : state (connect (init client)) ≡ of_state State.syn_sent
  pub answers : (segment_received (init server) syn).segments_out ≡ syn_and_ack ∷ []
  pub syn_rcvd : state (segment_received (init server) syn) ≡ of_state State.syn_rcvd
  pub acknowledges :
      (segment_received (sent_all (connect (init client))) syn_and_ack).segments_out ≡ ack ∷ []
  pub client_open :
      state (segment_received (sent_all (connect (init client))) syn_and_ack)
      ≡ of_state State.established
  pub quiet :
      (segment_received (sent_all (segment_received (init server) syn)) ack).segments_out ≡ []
  pub server_open :
      state (segment_received (sent_all (segment_received (init server) syn)) ack)
      ≡ of_state State.established

-- A new connection that connects and a new one that listens open to one another, if nothing is lost:
-- the first queues one segment, its SYN, and is in SYN_SENT; the second answers it with one, its SYN
-- and acknowledgment, and is in SYN_RCVD; the first answers this with one, an acknowledgment, and is
-- ESTABLISHED; the second takes this, is ESTABLISHED and queues nothing more. Both ISNs have 32 bits
-- and the capacities are below 2 ^ 62.
pub handshake :
    (client server : TcpConfig)
    → IsU32 client.isn
    → IsU32 server.isn
    → client.recv_capacity < 2 ^ 62
    → server.recv_capacity < 2 ^ 62
    → Handshake client server
handshake client server hc hs rc rs =
    let ack = bare_ack (wrap 1 client.isn) (wrap 1 server.isn) (first_window client server.isn) in
    let reply = syn_ack server.isn (wrap 1 client.isn) (first_window server client.isn) in
    let first = connect_lem client hc in
    let second = answer_lem server client.isn hs hc rs in
    let third : segment_received (sent_all (connect (init client))) reply
        ≡ open_to client server.isn (first_window server client.isn) (ack ∷ []) =
      ap (λ c. segment_received (sent_all c) reply) first
      ∙ complete_lem client server.isn (first_window server client.isn) hc hs rc
      ∙ ap (λ s. open_to client server.isn (first_window server client.isn) (s ∷ []))
          (stamp-empty client server.isn (wrap 1 client.isn)) in
    let fourth : segment_received
          (sent_all (segment_received (init server) (syn_segment client.isn))) ack
        ≡ open_to server client.isn (first_window client server.isn) [] =
      ap (λ c. segment_received (sent_all c) ack) second
      ∙ accept_lem server client.isn (first_window client server.isn) hs hc rs in
    record {
      syn = syn_segment client.isn;
      syn_and_ack = reply;
      ack = ack;
      sends_syn = ap (λ (c : TcpConnection). c.segments_out) first;
      syn_sent = ap state first ∙ opening-state client;
      answers =
          ap (λ (c : TcpConnection). c.segments_out) second
          ∙ ap (λ s. s ∷ []) (stamp-syn server client.isn server.isn);
      syn_rcvd = ap state second ∙ answering-state server client.isn;
      acknowledges = ap (λ (c : TcpConnection). c.segments_out) third;
      client_open =
          ap state third
          ∙ open_to-state client server.isn (first_window server client.isn) (ack ∷ []);
      quiet = ap (λ (c : TcpConnection). c.segments_out) fourth;
      server_open =
          ap state fourth ∙ open_to-state server client.isn (first_window client server.isn) [];
    }
