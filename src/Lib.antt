-- ===== src/Lib.antt =====
-- sponge: a user-space TCP/IP stack.
--
-- A TCP connection (libsponge/tcp_connection.cc) owns a receiver (libsponge/tcp_receiver.cc), which
-- turns segments into the bytes of the peer's stream through a reassembler
-- (libsponge/stream_reassembler.cc), and a sender (libsponge/tcp_sender.cc), which cuts its own
-- outgoing stream into segments and retransmits them. Streams are bounded byte queues
-- (libsponge/byte_stream.cc); sequence numbers wrap at 32 bits (libsponge/wrapping_integers.cc). Each
-- part is a record of the fields of its class, and each method a function from the state, with what it
-- returns beside the next state.
--
--   Wrapping       wrap, unwrap and the operators of WrappingInt32, which is its raw value
--   ByteStream     ByteStream; Invariant is its representation, Fifo its histories
--   Reassembler    StreamReassembler, with push_substring in the steps that it takes: new_start, trim,
--                  accept (place, assemble) and finish. Its children prove the invariant step by step
--                  up to Push, and Bare for a push with no byte; History and Delivery hold what a
--                  user of the class relies on
--   TcpSegment     the fields of TCPHeader and TCPSegment, and length_in_sequence_space
--   TcpReceiver    TCPReceiver; Stream relates it to the stream of the peer
--   TcpSender      TCPSender; Segments describes the loop of fill_window as a relation, Flight the
--                  segments in flight, Invariant what fill_window keeps, Window, Acks and Timer the
--                  operations, Progress what every operation keeps
--   TcpState       TCPState, the official states and the summaries
--   TcpConnection  TCPConnection; Flush is about what is sent, Reset about errors and the end of a
--                  connection, Linger about the clock, Inbound about its receiver, Answers about what a
--                  segment is answered with, Silence about a peer that does not answer, Runs about any
--                  history of calls, Handshake and Established about two connections that open to one
--                  another
--   Buffers        Buffer, BufferList and BufferViewList (libsponge/util/buffer.cc); Bytes is about the
--                  bytes that they hold, which is all that the other parts see of them
--   Parser         NetParser and NetUnparser over lists of bytes
--   Checksum       InternetChecksum; Verify is about bytes that hold their own checksum
--   Ethernet, Arp, Ipv4
--                  EthernetHeader and EthernetFrame, ARPMessage, IPv4Header and IPv4Datagram, and their
--                  bytes; TcpSegment.Header and TcpSegment.Bytes have those of a TCPSegment. The
--                  modules named RoundTrip and Checked read what was written
--   NetworkInterface
--                  NetworkInterface (libsponge/network_interface.cc); Resend is about the loop of tick,
--                  Learning about the loop over waiting datagrams, Invariant, Keeps and Runs about what
--                  holds in every state, Answers about one call, Exchange and Resolve about two
--                  interfaces, Lifetime about the age of an entry
--   Router         Router (libsponge/router.cc), its table with the choice of a route; Interfaces has its
--                  interfaces and route(), which Delivered and Route relate to the datagrams alone
--   Adapter        FdAdapterBase, TCPOverIPv4Adapter, TCPOverUDPSocketAdapter and LossyFdAdapter
--                  (libsponge/tcp_helpers); Filter and Peers are about segments in datagrams. Tap
--                  has the TUN and Ethernet adapters, Delivery a segment through a frame
--   EventLoop      EventLoop (libsponge/util/eventloop.cc) over the state that its callbacks act on;
--                  Prepared and Served are about one call, Keeps about what every rule keeps
--   FileDescriptor FileDescriptor and Socket::shutdown (libsponge/util), with the kernel's answers; Calls
--                  says what a call has done
--   StreamCopy     apps/bidirectional_stream_copy.cc; Conserves is about one callback, Runs about a run
--   SpongeSocket   TCPSpongeSocket (libsponge/tcp_helpers/tcp_sponge_socket.cc) over any adapter; Loop
--                  has the methods that run its event loop, Delivered and Delivers are about what comes
--                  from the peer, Outbound about what the owner sends, Runs about its whole life.
--                  Adapter.Udp has one such adapter, with UDPSocket (libsponge/util/socket.cc)
--   Prelude        tests, lists, words, bits and maps that the modules share
--   Examples       runs at concrete inputs
--
-- Machine integers are natural numbers with the wrap-around of the source written out: size_t and
-- uint64_t modulo 2 ^ 64, uint32_t and int modulo 2 ^ 32, an int as its bit pattern. A std::map is the
-- list of its pairs in the order of their keys; a std::queue or a std::string is the list of its
-- entries. The loop of fill_window runs on fuel: each round but the last puts a byte at least in
-- flight, so one more than the window is enough, which is a theorem; that of the checksum runs two
-- rounds. That of NetworkInterface::tick looks at most twice at each request that is pending, if it is
-- called at least every 5 seconds, which is one as well. All other loops recur on a list; those that
-- wait for events, on the list of the rounds that they are given.
--
-- The random initial sequence number is a parameter. Exceptions for lack of memory, the debug output,
-- the resolver and the other system calls, the threads, and the other programs under apps are not
-- modelled.
pub mod Prelude
pub mod Wrapping
pub mod ByteStream
pub mod Reassembler
pub mod Buffers
pub mod FileDescriptor
pub mod EventLoop
pub mod StreamCopy
pub mod SpongeSocket
pub mod Parser
pub mod Ethernet
pub mod Arp
pub mod Checksum
pub mod Ipv4
pub mod NetworkInterface
pub mod Router
pub mod Adapter
pub mod TcpSegment
pub mod TcpReceiver
pub mod TcpSender
pub mod TcpState
pub mod TcpConnection
pub mod Examples
