-- ===== src/SpongeSocket.antt =====
-- libsponge/tcp_helpers/tcp_sponge_socket.hh and tcp_sponge_socket.cc: TCPSpongeSocket over any
-- adapter, with the rules of its event loop. What poll(2) and the clock give, and when the owner's
-- thread raises the flag, are arguments, and the messages to the user are left out.
pub mod Loop
pub mod Delivered
pub mod Delivers
pub mod Keeps
pub mod Runs
pub mod Outbound
use sponge.Prelude.{
  ℕ, Bool, true, false, not, ◌&&◌, ◌||◌, Option, none, some, List, [], ◌∷◌, min, length, sub64, ltb,
  ◌==◌, if◌then◌else◌,
}
use sponge.ByteStream
use sponge.ByteStream.{ByteStream, buffer_size, buffer_empty}
use sponge.FileDescriptor
use sponge.FileDescriptor.{FileDescriptor, How}
use sponge.EventLoop.{Rule, Direction, Polled, Result, add_rule, wait_next_event}
use sponge.Adapter.{FdAdapterConfig}
use sponge.TcpSegment.{TcpSegment}
use sponge.TcpReceiver
use sponge.TcpReceiver.{TcpReceiver, stream_out}
use sponge.TcpState.{TcpState, State, SenderSummary, ReceiverSummary, of_state}
use sponge.TcpConnection
use sponge.TcpConnection.{
  TcpConfig, TcpConnection, state, active, remaining_outbound_capacity, bytes_in_flight,
}

-- What the template relies on in its argument `AdaptT`; a read of the adapter is one of its descriptor.
pub record Adapter {ℓ} (A : Type ℓ) : Type ℓ where
  pub descriptor : A → FileDescriptor
  pub read : A → Option (A × Option TcpSegment)
  pub write : A → TcpSegment → Option A
  pub tick : A → ℕ → Option A
  pub set_config : A → FdAdapterConfig → A
  pub set_listening : A → Bool → A

-- `tcp` is what `_tcp` holds, if `has_tcp`. The owner's end of the pair of sockets is the base class.
pub record SpongeSocket {ℓ} (A : Type ℓ) : Type ℓ where
  pub owner : FileDescriptor
  pub thread_data : FileDescriptor
  pub datagram_adapter : A
  pub has_tcp : Bool
  pub tcp : TcpConnection
  pub inbound_shutdown : Bool
  pub outbound_shutdown : Bool
  pub fully_acked : Bool

-- A round of the loop: how poll(2) ends, whether `_abort` is then set, and the time.
pub record Round : Type 0 where
  pub poll : Polled
  pub abort : Bool
  pub now : ℕ

abbrev pub pop_inbound : TcpConnection → ℕ → TcpConnection
pop_inbound c n = record c {
  receiver = record (c.receiver) {
    reassembler = record (c.receiver.reassembler) {
      output = ByteStream.pop_output (stream_out c.receiver) n;
    };
  };
}

abbrev pub is_exit : Result → Bool
is_exit Result.exit = true
is_exit _ = false

module _ {ℓ} {A : Type ℓ} (adapter : Adapter A) where
  abbrev pub received : SpongeSocket A → Option TcpSegment → SpongeSocket A
  received s none = s
  received s (some seg) = record s { tcp = TcpConnection.segment_received s.tcp seg }

  -- The callback of rule 1.
  unfoldable pub receive : SpongeSocket A → Option (SpongeSocket A)
  receive s = elim (adapter.read s.datagram_adapter) [
    | none ↦ none
    | some (a, seg) ↦
        let s' = received (record s { datagram_adapter = a }) seg in
        some (record s' {
          fully_acked =
              if s'.thread_data.eof && bytes_in_flight s'.tcp == 0 then true else s'.fully_acked;
        })
  ]

  abbrev pub end_outbound : SpongeSocket A → SpongeSocket A
  end_outbound s = record s { tcp = TcpConnection.end_input_stream s.tcp; outbound_shutdown = true }

  -- The callback of rule 2.
  unfoldable pub read_outbound : SpongeSocket A → Option (SpongeSocket A)
  unfolding FileDescriptor.read
  read_outbound s = elim (FileDescriptor.read s.thread_data (remaining_outbound_capacity s.tcp)) [
    | none ↦ none
    | some (bytes, d) ↦
        let (amount_written, tcp) = TcpConnection.write s.tcp bytes in
        let s' = record s { thread_data = d; tcp = tcp } in
        elim (amount_written == length bytes) [
          | false ↦ none
          | true ↦ some (elim d.eof [ true ↦ end_outbound s' | false ↦ s' ])
        ]
  ]

  -- The callback of rule 3.
  unfoldable pub write_inbound : SpongeSocket A → Option (SpongeSocket A)
  unfolding FileDescriptor.write FileDescriptor.shutdown
  write_inbound s =
      let inbound = stream_out s.tcp.receiver in
      let amount_to_write = min 65536 (buffer_size inbound) in
      elim (FileDescriptor.write s.thread_data (ByteStream.peek_output inbound amount_to_write)
        false) [
          | none ↦ none
          | some (bytes_written, d) ↦
              let tcp = pop_inbound s.tcp bytes_written in
              let left = stream_out tcp.receiver in
              elim (ByteStream.eof left || left.error) [
                | false ↦ some (record s { thread_data = d; tcp = tcp })
                | true ↦ elim (FileDescriptor.shutdown d How.shut_wr) [
                  | none ↦ none
                  | some d' ↦
                      some (record s { thread_data = d'; tcp = tcp; inbound_shutdown = true })
                ]
              ]
        ]

  unfoldable pub write_segments : A → List TcpSegment → Option A
  write_segments a [] = some a
  write_segments a (seg ∷ segs) = elim (adapter.write a seg) [
    | none ↦ none
    | some a' ↦ write_segments a' segs
  ]

  -- The callback of rule 4.
  unfoldable pub send : SpongeSocket A → Option (SpongeSocket A)
  unfolding write_segments
  send s = elim (write_segments s.datagram_adapter s.tcp.segments_out) [
    | none ↦ none
    | some a ↦ some (record s { datagram_adapter = a; tcp = record (s.tcp) { segments_out = [] } })
  ]

  abbrev pub rule_on :
      (SpongeSocket A → FileDescriptor)
      → Direction
      → (SpongeSocket A → Option (SpongeSocket A))
      → (SpongeSocket A → Bool)
      → (SpongeSocket A → SpongeSocket A)
      → Rule (SpongeSocket A)
  rule_on fd direction callback interest cancel = record {
    direction = direction;
    eof = λ s. (fd s).eof;
    closed = λ s. (fd s).closed;
    read_count = λ s. (fd s).read_count;
    write_count = λ s. (fd s).write_count;
    callback = callback;
    interest = interest;
    cancel = λ s. some (cancel s);
  }

  abbrev pub rule_receive : Rule (SpongeSocket A)
  rule_receive =
      rule_on (λ s. adapter.descriptor s.datagram_adapter) Direction.input receive
        (λ s. active s.tcp) (λ s. s)

  abbrev pub rule_outbound : Rule (SpongeSocket A)
  rule_outbound =
      rule_on (λ s. s.thread_data) Direction.input read_outbound
        (λ s. active s.tcp && not s.outbound_shutdown && ltb 0 (remaining_outbound_capacity s.tcp))
        end_outbound

  abbrev pub rule_inbound : Rule (SpongeSocket A)
  rule_inbound =
      rule_on (λ s. s.thread_data) Direction.output write_inbound
        (λ s.
          let inbound = stream_out s.tcp.receiver in
          not (buffer_empty inbound)
          || ((ByteStream.eof inbound || inbound.error) && not s.inbound_shutdown))
        (λ s. s)

  abbrev pub has_segments : TcpConnection → Bool
  has_segments c = elim c.segments_out [ [] ↦ false | _ ↦ true ]

  abbrev pub rule_send : Rule (SpongeSocket A)
  rule_send =
      rule_on (λ s. adapter.descriptor s.datagram_adapter) Direction.output send
        (λ s. has_segments s.tcp) (λ s. s)

  abbrev pub rules : List (Rule (SpongeSocket A))
  rules =
      add_rule (add_rule (add_rule (add_rule [] rule_receive) rule_outbound) rule_inbound) rule_send
