-- ===== src/SpongeSocket/Delivers.antt =====
-- The application at the end of a TCPSpongeSocket (libsponge/tcp_helpers/tcp_sponge_socket.cc) and
-- the stream of the peer.
use mathlib.Core.Option.{none-ne-some, some-injective}
use sponge.Prelude.{
  ℕ, ◌^◌, ◌<◌, ◌≡◌, ◌||◌, Bool, true, false, Option, none, some, List, [], ◌∷◌, min, length, arith,
  inl, inr, sym, subst, IsU32, bind-some, Bool-cases, ◌==◌,
}
use sponge.ByteStream
use sponge.ByteStream.{buffer_size}
use sponge.FileDescriptor
use sponge.FileDescriptor.{FileDescriptor, How}
use sponge.FileDescriptor.Calls.{read-Reads, write-Writes, shutdown-SameBytes}
use sponge.EventLoop.Keeps.{AllKeep}
use sponge.TcpSegment.{TcpSegment}
use sponge.ByteStream.Invariant.{length-peek_output}
use sponge.TcpReceiver
use sponge.TcpReceiver.{TcpReceiver, stream_out}
use sponge.TcpConnection
use sponge.TcpConnection.{TcpConnection, remaining_outbound_capacity, active}
use sponge.TcpConnection.Inbound.{
  IsAfter, write-receiver, end_input_stream-receiver, segment_received-IsAfter, tick-IsAfter,
}
use sponge.SpongeSocket.{
  Adapter, SpongeSocket, pop_inbound, received, receive, read_outbound, end_outbound, write_inbound,
  write_segments, send, rules,
}
use sponge.SpongeSocket.Delivered.{
  IsSent, Delivered, segment_received-Delivered, set_receiver_error-Delivered, pop-Delivered,
}

module _ (S : ℕ → ℕ) (top : ℕ) (small : top < 2 ^ 62) (short : top < 2 ^ 30) (isn : ℕ)
    (narrow : IsU32 isn) where
  abbrev pub MaybeSent : Option TcpSegment → Type 0
  MaybeSent none = Unit
  MaybeSent (some seg) = IsSent S top small short isn narrow seg

  -- An adapter that reads segments of the peer only: `Q` holds of it whatever is done with it.
  pub record Hears {ℓ} {A : Type ℓ} (adapter : Adapter A) (Q : A → Type ℓ) : Type ℓ where
    pub read :
        (a a' : A) (seg : Option TcpSegment)
        → Q a
        → adapter.read a ≡ some (a', seg)
        → Q a' × MaybeSent seg
    pub write : (a a' : A) (seg : TcpSegment) → Q a → adapter.write a seg ≡ some a' → Q a'
    pub tick : (a a' : A) (ms : ℕ) → Q a → adapter.tick a ms ≡ some a' → Q a'

  module _ {ℓ} {A : Type ℓ} (adapter : Adapter A) (Q : A → Type ℓ) (hears : Hears adapter Q) where
    abbrev pub At : TcpReceiver → List ℕ → Type 0
    At = Delivered S top small short isn narrow

    pub record Delivers (s : SpongeSocket A) : Type ℓ where
      pub delivered :
          Delivered S top small short isn narrow s.tcp.receiver s.thread_data.kernel.written
      pub peer : Q s.datagram_adapter

    pub after :
        (r : TcpReceiver) (c : TcpConnection) (written : List ℕ)
        → IsAfter r c
        → At r written
        → At c.receiver written
    after r c written h d = elim h.receiver [
      | inl e ↦ subst (λ x. At x written) (sym e) d
      | inr e ↦
          subst (λ x. At x written) (sym e)
            (set_receiver_error-Delivered S top small short isn narrow r written d)
    ]

    received-Delivers :
        (s : SpongeSocket A) (seg : Option TcpSegment)
        → Delivers s
        → MaybeSent seg
        → Delivers (received adapter s seg)
    received-Delivers s none d sent = d
    received-Delivers s (some seg) d sent = record {
      delivered =
          let r = s.tcp.receiver in
          after (TcpReceiver.segment_received r seg) (TcpConnection.segment_received s.tcp seg)
            s.thread_data.kernel.written (segment_received-IsAfter s.tcp seg)
            (segment_received-Delivered S top small short isn narrow r seg
              s.thread_data.kernel.written d.delivered sent);
      peer = d.peer;
    }

    receive-Delivers :
        (s s' : SpongeSocket A) → Delivers s → receive adapter s ≡ some s' → Delivers s'
    unfolding receive
    receive-Delivers s s' d e =
        let ((a, seg), is_read, rest) = bind-some (adapter.read s.datagram_adapter) _ s' e in
        let (q, sent) = hears.read s.datagram_adapter a seg d.peer is_read in
        let got =
          received-Delivers (record s { datagram_adapter = a }) seg
            (record { delivered = d.delivered; peer = q }) sent in
        subst Delivers (some-injective _ s' rest)
          (record { delivered = got.delivered; peer = got.peer })

    end_outbound-Delivers : (s : SpongeSocket A) → Delivers s → Delivers (end_outbound adapter s)
    end_outbound-Delivers s d = record {
      delivered =
          subst (λ x. At x s.thread_data.kernel.written) (sym (end_input_stream-receiver s.tcp))
            d.delivered;
      peer = d.peer;
    }

    at_eof :
        (eof : Bool) (s : SpongeSocket A)
        → Delivers s
        → Delivers (elim eof as (λ _. SpongeSocket A) [ true ↦ end_outbound adapter s | false ↦ s ])
    at_eof true s d = end_outbound-Delivers s d
    at_eof false s d = d

    read_outbound-Delivers :
        (s s' : SpongeSocket A) → Delivers s → read_outbound adapter s ≡ some s' → Delivers s'
    unfolding read_outbound
    read_outbound-Delivers s s' d e =
        let ((bytes, t), is_read, rest) =
          bind-some (FileDescriptor.read s.thread_data (remaining_outbound_capacity s.tcp)) _ s'
            e in
        let (n, tcp) = TcpConnection.write s.tcp bytes in
        let reads = read-Reads s.thread_data t (remaining_outbound_capacity s.tcp) bytes is_read in
        let middle : Delivers (record s { thread_data = t; tcp = tcp }) = record {
          delivered =
              subst (λ x. At x t.kernel.written) (sym (write-receiver s.tcp bytes))
                (subst (At s.tcp.receiver) (sym reads.written) d.delivered);
          peer = d.peer;
        } in
        elim (Bool-cases (n == length bytes)) [
          | inr short_ ↦ absurd (none-ne-some s' (rw short_ at rest))
          | inl all ↦
              subst Delivers (some-injective _ s' (rw all at rest))
                (at_eof t.eof (record s { thread_data = t; tcp = tcp }) middle)
        ]

    write_inbound-Delivers :
        (s s' : SpongeSocket A) → Delivers s → write_inbound adapter s ≡ some s' → Delivers s'
    unfolding write_inbound
    write_inbound-Delivers s s' d e =
        let inbound = stream_out s.tcp.receiver in
        let m = min 65536 (buffer_size inbound) in
        let ((n, t), is_written, rest) =
          bind-some (FileDescriptor.write s.thread_data (ByteStream.peek_output inbound m) false) _
            s' e in
        let writes =
          write-Writes s.thread_data t (ByteStream.peek_output inbound m) n
            (omega (arith, length-peek_output inbound m)) is_written in
        let popped : At (pop_inbound s.tcp n).receiver t.kernel.written =
          subst (At (pop_inbound s.tcp n).receiver) (sym writes.written) (
            pop-Delivered S top small short isn narrow s.tcp.receiver s.thread_data.kernel.written m
              n d.delivered writes.within) in
        let left = stream_out (pop_inbound s.tcp n).receiver in
        elim (Bool-cases (ByteStream.eof left || left.error)) [
          | inr more ↦
              subst Delivers (some-injective _ s' (rw more at rest))
                (record { delivered = popped; peer = d.peer })
          | inl over ↦
              let (t', is_shut, done) =
                bind-some (FileDescriptor.shutdown t How.shut_wr) _ s' (rw over at rest) in
              subst Delivers (some-injective _ s' done) (record {
                delivered =
                    subst (At (pop_inbound s.tcp n).receiver)
                      (sym (shutdown-SameBytes t t' How.shut_wr is_shut).written) popped;
                peer = d.peer;
              })
        ]

    write_segments-Q :
        (a a' : A) (segs : List TcpSegment) → Q a → write_segments adapter a segs ≡ some a' → Q a'
    unfolding write_segments
    write_segments-Q a a' [] q e = subst Q (some-injective a a' e) q
    write_segments-Q a a' (seg ∷ segs) q e =
        let (b, is_written, rest) = bind-some (adapter.write a seg) _ a' e in
        write_segments-Q b a' segs (hears.write a b seg q is_written) rest

    send-Delivers : (s s' : SpongeSocket A) → Delivers s → send adapter s ≡ some s' → Delivers s'
    unfolding send
    send-Delivers s s' d e =
        let (a, is_sent, rest) =
          bind-some (write_segments adapter s.datagram_adapter s.tcp.segments_out) _ s' e in
        subst Delivers (some-injective _ s' rest) (record {
          delivered = d.delivered;
          peer = write_segments-Q s.datagram_adapter a s.tcp.segments_out d.peer is_sent;
        })

    pub rules-Keeps : AllKeep Delivers (rules adapter)
    rules-Keeps = (
      record {
        callback = receive-Delivers;
        cancel = λ s s' d e. subst Delivers (some-injective s s' e) d;
      },
      (
        record {
          callback = read_outbound-Delivers;
          cancel = λ s s' d e. subst Delivers (some-injective _ s' e) (end_outbound-Delivers s d);
        },
        (
          record {
            callback = write_inbound-Delivers;
            cancel = λ s s' d e. subst Delivers (some-injective s s' e) d;
          },
          (
            record {
              callback = send-Delivers;
              cancel = λ s s' d e. subst Delivers (some-injective s s' e) d;
            },
            tt,
          ),
        ),
      ),
    )

    pub tick-Delivers :
        (s : SpongeSocket A) (a : A) (ms : ℕ)
        → Delivers s
        → adapter.tick s.datagram_adapter ms ≡ some a
        → Delivers (record s { tcp = TcpConnection.tick s.tcp ms; datagram_adapter = a })
    tick-Delivers s a ms d e = record {
      delivered =
          after s.tcp.receiver (TcpConnection.tick s.tcp ms) s.thread_data.kernel.written
            (tick-IsAfter s.tcp ms) d.delivered;
      peer = hears.tick s.datagram_adapter a ms d.peer e;
    }
