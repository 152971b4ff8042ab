-- ===== src/Examples/Sockets.antt =====
-- Runs of the TCPSpongeSocket and of two connections that open.
use sponge.Prelude.{
  ℕ, ◌≡◌, ◌++◌, refl, Bool, true, false, Option, none, some, List, [], ◌∷◌, arith, inl, inr, subst,
  ◌==◌, if◌then◌else◌,
}
use mathlib.Core.Option.{some-injective}
use sponge.Wrapping.{wrap, unwrap}
use sponge.Reassembler.Stored.{Agrees}
use sponge.ByteStream
use sponge.FileDescriptor
use sponge.FileDescriptor.{FileDescriptor, Kernel, register_read, register_write}
use sponge.EventLoop.{process, serve, set_up, wait_next_event, Polled, Rule, no_revents}
use sponge.TcpSegment.{TcpSegment, default_header}
use sponge.TcpReceiver
use sponge.TcpReceiver.{stream_out, ackno}
use sponge.TcpSender
use sponge.TcpSender.{fill_window, fill_loop, make_segment}
use sponge.TcpState.{of_parts, of_state}
use sponge.Prelude.Maps.{insert, erase}
use sponge.Reassembler
use sponge.Reassembler.{
  accept, assemble, finish, floor_entry, new_start, place, push_substring, store, trim,
}
use sponge.TcpSender.Invariant.{init-IsValid}
use sponge.TcpConnection
use sponge.TcpConnection.{TcpConfig}
use sponge.TcpConnection.Flush.{Sends}
use sponge.TcpConnection.Established.{Handshake, handshake}
use sponge.Adapter.{FdAdapterConfig}
use sponge.Adapter.Udp.{UdpAdapter, udp_adapter, udp_adapter-CountsReads}
use sponge.SpongeSocket
use sponge.SpongeSocket.{
  rule_receive, rule_outbound, rule_inbound, rule_send, receive, read_outbound, write_inbound,
  write_segments, Adapter, SpongeSocket, Round,
}
use sponge.SpongeSocket.Loop.{tcp_loop, initialize_tcp, listen_and_accept, tcp_main}
use sponge.SpongeSocket.Delivered.{IsSent}
use sponge.SpongeSocket.Delivers.{MaybeSent, Hears}
use sponge.SpongeSocket.Runs.{tcp_main-prefix}
use sponge.SpongeSocket.Outbound.{read_outbound_lem, serve_callbacks}

abbrev config : TcpConfig
config = record { rt_timeout = 1000; recv_capacity = 64000; send_capacity = 64000; isn = 77 }

handshake_example : Handshake config (record config { isn = 5000 })
handshake_example =
    handshake config (record config { isn = 5000 }) (omega arith) (omega arith) (omega arith)
      (omega arith)

-- The stream of the peer.
abbrev hi : ℕ → ℕ
hi i = if i == 0 then 104 else 105

abbrev OfPeer : TcpSegment → Type 0
OfPeer = IsSent hi 2 (omega arith) (omega arith) 5000 (omega arith)

-- A SYN with all of it.
abbrev peer_syn : TcpSegment
peer_syn = record {
  header = record default_header { seqno = 5000; syn = true };
  payload = 104 ∷ 105 ∷ [];
}

peer_syn-OfPeer : OfPeer peer_syn
unfolding wrap
peer_syn-OfPeer = inl (record {
  index = 0;
  part = record { agrees = (refl, (refl, tt)); within = omega arith; last = λ e. cc };
  seqno = refl;
  opens = λ e. refl;
})

-- An acknowledgment that stands past the end of the stream.
abbrev peer_ack : TcpSegment
peer_ack = record { header = record default_header { seqno = 5004 }; payload = [] }

peer_ack-OfPeer : OfPeer peer_ack
peer_ack-OfPeer = inr (record { payload = refl; syn = refl; fin = refl })

-- An adapter that reads what it was given, and keeps what it is to write.
record Script : Type 0 where
  descriptor : FileDescriptor
  incoming : List TcpSegment
  outgoing : List TcpSegment

abbrev next_of : Script → List TcpSegment → Option (Script × Option TcpSegment)
next_of a [] = some (record a { descriptor = register_read a.descriptor }, none)
next_of a (seg ∷ rest) =
    some (record a { descriptor = register_read a.descriptor; incoming = rest }, some seg)

abbrev script : Adapter Script
script = record {
  descriptor = λ a. a.descriptor;
  read = λ a. next_of a a.incoming;
  write = λ a seg.
      some
        (record a { descriptor = register_write a.descriptor; outgoing = a.outgoing ++ seg ∷ [] });
  tick = λ a ms. some a;
  set_config = λ a cfg. a;
  set_listening = λ a l. a;
}

abbrev AllSent : List TcpSegment → Type 0
AllSent [] = Unit
AllSent (seg ∷ segs) = OfPeer seg × AllSent segs

hears_read :
    (a a' : Script) (seg : Option TcpSegment) (incoming : List TcpSegment)
    → AllSent a.incoming
    → AllSent incoming
    → next_of a incoming ≡ some (a', seg)
    → AllSent a'.incoming × MaybeSent hi 2 (omega arith) (omega arith) 5000 (omega arith) seg
hears_read a a' seg [] q all e =
    subst
      (λ (p : Script × Option TcpSegment).
        AllSent p.0.incoming × MaybeSent hi 2 (omega arith) (omega arith) 5000 (omega arith) p.1)
      (some-injective _ (a', seg) e) (q, tt)
hears_read a a' seg (x ∷ rest) q all e =
    subst
      (λ (p : Script × Option TcpSegment).
        AllSent p.0.incoming × MaybeSent hi 2 (omega arith) (omega arith) 5000 (omega arith) p.1)
      (some-injective _ (a', seg) e) (all.1, all.0)

script-Hears :
    Hears hi 2 (omega arith) (omega arith) 5000 (omega arith) script (λ a. AllSent a.incoming)
script-Hears = record {
  read = λ a a' seg q e. hears_read a a' seg a.incoming q q e;
  write = λ a a' seg q e. subst (λ (x : Script). AllSent x.incoming) (some-injective _ a' e) q;
  tick = λ a a' ms q e. subst (λ (x : Script). AllSent x.incoming) (some-injective a a' e) q;
}

abbrev kernel : Kernel
kernel = record {
  reads = some (7 ∷ []) ∷ some (8 ∷ []) ∷ some (9 ∷ []) ∷ [];
  writes = some 1 ∷ [];
  others = true ∷ true ∷ [];
  taken = [];
  written = [];
  shut_read = false;
  shut_write = false;
  blocking = false;
}

abbrev nowhere : FdAdapterConfig
nowhere = record {
  source = record { ip = 1; port = 2 };
  destination = record { ip = 3; port = 4 };
  loss_rate_dn = 0;
  loss_rate_up = 0;
}

abbrev socket : SpongeSocket Script
socket = record {
  owner = FileDescriptor.wrap kernel;
  thread_data = FileDescriptor.wrap kernel;
  datagram_adapter = record {
    descriptor = FileDescriptor.wrap kernel;
    incoming = peer_syn ∷ peer_ack ∷ [];
    outgoing = [];
  };
  has_tcp = false;
  tcp = TcpConnection.init config;
  inbound_shutdown = false;
  outbound_shutdown = false;
  fully_acked = false;
}

-- A round in which one rule is ready.
abbrev round : ℕ → Round
round k = record {
  poll =
      Polled.ready
        (λ i. if i == k then record no_revents { pollin = true; pollout = true } else no_revents);
  abort = false;
  now = 10;
}

-- A signal arrives.
abbrev signal : Round
signal = record { poll = Polled.interrupted; abort = false; now = 10 }

abbrev Ending : Type 0
Ending = Bool × SpongeSocket Script × List (Rule (SpongeSocket Script))

abbrev listened : Ending
unfolding listen_and_accept
listened = elim (listen_and_accept script config nowhere (signal ∷ []) 0 socket) [
  | none ↦ (false, socket, [])
  | some end ↦ end
]

abbrev served : Ending
unfolding tcp_main listen_and_accept
served = elim (tcp_main script (round 0 ∷ round 2 ∷ round 0 ∷ []) 10 listened.2 listened.1) [
  | none ↦ (false, socket, [])
  | some end ↦ end
]

tcp_main-prefix_example :
    Agrees hi 0 (served.1.thread_data.kernel.written ++ (stream_out served.1.tcp.receiver).buffer)
unfolding tcp_main listen_and_accept of_parts TcpConnection.connect initialize_tcp of_state
    fill_window fill_loop TcpSender.init make_segment ByteStream.read ByteStream.peek_output
    ByteStream.init ByteStream.pop_output TcpSender.send TcpReceiver.init Reassembler.init receive
    ByteStream.end_input ByteStream.set_error ByteStream.write process serve set_up wait_next_event
    FileDescriptor.read FileDescriptor.shutdown FileDescriptor.write FileDescriptor.write_loop erase
    insert accept assemble finish floor_entry new_start place push_substring store trim tcp_loop
    read_outbound SpongeSocket.send write_inbound write_segments TcpConnection.destroy
    TcpConnection.end_input_stream TcpConnection.flush_loop TcpConnection.flush_segments_with_ack
    TcpConnection.init TcpConnection.respond TcpConnection.segment_received
    TcpConnection.set_rst_state TcpConnection.stamp TcpConnection.tick TcpConnection.write ackno
    TcpReceiver.segment_received unwrap TcpSender.ack_received TcpSender.drop_acked
    TcpSender.send_empty_segment TcpSender.tick wrap
tcp_main-prefix_example =
    tcp_main-prefix hi 2 (omega arith) (omega arith) 5000 (omega arith) script
      (λ a. AllSent a.incoming) script-Hears config nowhere (signal ∷ [])
      (round 0 ∷ round 2 ∷ round 0 ∷ []) 0 10 socket listened.1 served.1 listened.2 served.2
      served.0 (omega arith) refl (peer_syn-OfPeer, (peer_ack-OfPeer, tt))
      (peer_syn-OfPeer, (peer_ack-OfPeer, tt)) (inr refl) refl

read_outbound_lem_example :
    (d : FileDescriptor) × (read_outbound script socket
      ≡ some (record socket { thread_data = d; tcp = (TcpConnection.write socket.tcp (7 ∷ [])).1 }))
    × Sends (7 ∷ []) socket.tcp (TcpConnection.write socket.tcp (7 ∷ [])).1
unfolding FileDescriptor.read TcpConnection.init TcpSender.init ByteStream.init
read_outbound_lem_example =
    let d = register_read (record (socket.thread_data) {
      kernel = record (kernel) { reads = some (8 ∷ []) ∷ some (9 ∷ []) ∷ []; taken = 7 ∷ [] };
    }) in
    let both =
      read_outbound_lem script socket (7 ∷ []) d (init-IsValid 64000 1000 77 (omega arith)) refl
        (omega arith) refl in
    (d, both.0, both.1)

abbrev over_udp : SpongeSocket UdpAdapter
over_udp = record {
  owner = FileDescriptor.wrap kernel;
  thread_data = FileDescriptor.wrap kernel;
  datagram_adapter = record {
    base = record { cfg = nowhere; listen = true };
    sock = record {
      descriptor = FileDescriptor.wrap kernel;
      datagrams = [];
      sends = [];
      sent = [];
    };
  };
  has_tcp = true;
  tcp = TcpConnection.init config;
  inbound_shutdown = false;
  outbound_shutdown = false;
  fully_acked = false;
}

serve_callbacks_example :
    (serve (rule_receive udp_adapter) over_udp ≡ receive udp_adapter over_udp)
    × (serve (rule_outbound udp_adapter) over_udp ≡ read_outbound udp_adapter over_udp)
    × (serve (rule_inbound udp_adapter) over_udp ≡ write_inbound udp_adapter over_udp)
    × (serve (rule_send udp_adapter) over_udp ≡ SpongeSocket.send udp_adapter over_udp)
serve_callbacks_example = serve_callbacks udp_adapter over_udp udp_adapter-CountsReads
