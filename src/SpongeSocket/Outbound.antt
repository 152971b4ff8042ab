-- ===== src/SpongeSocket/Outbound.antt =====
-- What the owner of a TCPSpongeSocket (libsponge/tcp_helpers/tcp_sponge_socket.cc) sends, on its way
-- to the adapter, and how the event loop takes the rules.
use mathlib.Core.Option.{none-ne-some, some-injective}
use sponge.Prelude.{
  ℕ, ◌+◌, ◌*◌, ◌%◌, ◌^◌, ◌<◌, ◌≡◌, ◌≢◌, ◌||◌, refl, Bool, true, false, Option, none, some, List, [],
  ◌++◌, take, min, length, arith, inl, inr, sym, ap, ◌∙◌, subst, bind-some, Bool-cases, ◌==◌,
  take_all,
}
use sponge.ByteStream
use sponge.ByteStream.{buffer_size}
use sponge.ByteStream.Invariant.{length-peek_output}
use sponge.TcpReceiver.{stream_out}
use sponge.FileDescriptor
use sponge.FileDescriptor.{FileDescriptor, How}
use sponge.FileDescriptor.Calls.{read-Reads, write-Writes, shutdown-write_count}
use sponge.EventLoop.{serve}
use sponge.EventLoop.Keeps.{serve-callback}
use sponge.TcpSegment.{TcpSegment}
use sponge.TcpSender.{current_window}
use sponge.TcpSender.Invariant.{IsValid}
use sponge.TcpConnection
use sponge.TcpConnection.{TcpConnection, TcpConfig, remaining_outbound_capacity}
use sponge.TcpConnection.Flush.{Sends, write_lem}
use sponge.SpongeSocket.{
  Adapter, SpongeSocket, read_outbound, end_outbound, write_segments, send, received, pop_inbound,
  receive, write_inbound, rule_receive, rule_outbound, rule_inbound, rule_send,
}

abbrev has_queue : List TcpSegment → Bool
has_queue segs = elim segs [ [] ↦ false | _ ↦ true ]

module _ {ℓ} {A : Type ℓ} (adapter : Adapter A) where
  received_adapter :
      (s : SpongeSocket A) (seg : Option TcpSegment)
      → (received adapter s seg).datagram_adapter ≡ s.datagram_adapter
  received_adapter s none = refl
  received_adapter s (some seg) = refl

  -- Where the sender of the connection is valid and flushed and its sequence numbers have room, the
  -- callback of rule 2 does not throw once its read has returned: the connection accepts every byte
  -- that was read, with segments that carry, in order, the first of the bytes that waited and of
  -- these; and at the end of the owner's bytes its outgoing stream ends.
  pub read_outbound_lem :
      (s : SpongeSocket A) (bytes : List ℕ) (d : FileDescriptor)
      → IsValid s.tcp.sender
      → s.tcp.sender.segments_out ≡ []
      → s.tcp.sender.next_seqno + 2 * current_window s.tcp.sender < 2 ^ 62
      → FileDescriptor.read s.thread_data (remaining_outbound_capacity s.tcp) ≡ some (bytes, d)
      → let tcp = (TcpConnection.write s.tcp bytes).1 in
        let s' = record s { thread_data = d; tcp = tcp } in
        (read_outbound adapter s
          ≡ some
              (elim d.eof as (λ _. SpongeSocket A) [ true ↦ end_outbound adapter s' | false ↦ s' ]))
        × Sends (s.tcp.sender.stream.buffer ++ bytes) s.tcp tcp
  unfolding read_outbound
  read_outbound_lem s bytes d v flushed room is_read =
      let stream = s.tcp.sender.stream in
      let reads = read-Reads s.thread_data d (remaining_outbound_capacity s.tcp) bytes is_read in
      let (count, sends) = write_lem s.tcp bytes v flushed room in
      let n = (TcpConnection.write s.tcp bytes).0 in
      let all : n ≡ length bytes =
        omega (arith, count, reads.within, v.stream.bounded, v.stream.small) in
      let accepted : (n == length bytes) ≡ true = ground (arith, all) in
      let same : take n bytes ≡ bytes = take_all n bytes (omega (arith, all)) in
      (
        rw (read_outbound, is_read, accepted) refl,
        subst (λ x. Sends (stream.buffer ++ x) s.tcp (TcpConnection.write s.tcp bytes).1) same
            sends,
      )

  -- Every read of the adapter moves the count of its descriptor.
  abbrev pub CountsReads : Type ℓ
  CountsReads =
      (a a' : A) (seg : Option TcpSegment)
      → adapter.read a ≡ some (a', seg)
      → (adapter.descriptor a).read_count ≢ (adapter.descriptor a').read_count

  receive_counted :
      (s s' : SpongeSocket A)
      → CountsReads
      → receive adapter s ≡ some s'
      → (adapter.descriptor s.datagram_adapter).read_count
        ≢ (adapter.descriptor s'.datagram_adapter).read_count
  unfolding receive
  receive_counted s s' counts e =
      let ((a, seg), is_read, rest) = bind-some (adapter.read s.datagram_adapter) _ s' e in
      let same : (received adapter (record s { datagram_adapter = a }) seg).datagram_adapter ≡ a =
        received_adapter (record s { datagram_adapter = a }) seg in
      let there : a ≡ s'.datagram_adapter =
        sym same ∙ ap (λ (x : SpongeSocket A). x.datagram_adapter) (some-injective _ s' rest) in
      subst
        (λ x.
          (adapter.descriptor s.datagram_adapter).read_count ≢ (adapter.descriptor x).read_count)
        there (counts s.datagram_adapter a seg is_read)

  at_eof_data :
      (eof : Bool) (s : SpongeSocket A)
      → (elim eof as (λ _. SpongeSocket A) [
        | true ↦ end_outbound adapter s
        | false ↦ s
      ]).thread_data
        ≡ s.thread_data
  at_eof_data true s = refl
  at_eof_data false s = refl

  read_outbound_counted :
      (s s' : SpongeSocket A)
      → read_outbound adapter s ≡ some s'
      → s'.thread_data.read_count ≡ (s.thread_data.read_count + 1) % 2 ^ 32
  unfolding read_outbound
  read_outbound_counted s s' e =
      let ((bytes, d), is_read, rest) =
        bind-some (FileDescriptor.read s.thread_data (remaining_outbound_capacity s.tcp)) _ s' e in
      let reads = read-Reads s.thread_data d (remaining_outbound_capacity s.tcp) bytes is_read in
      let (n, tcp) = TcpConnection.write s.tcp bytes in
      let s1 = record s { thread_data = d; tcp = tcp } in
      elim (Bool-cases (n == length bytes)) [
        | inr short ↦ absurd (none-ne-some s' (rw short at rest))
        | inl all ↦
            let there : d ≡ s'.thread_data =
              sym (at_eof_data d.eof s1)
              ∙ ap (λ (x : SpongeSocket A). x.thread_data) (some-injective _ s' (rw all at rest)) in
            subst (λ (x : FileDescriptor). x.read_count ≡ (s.thread_data.read_count + 1) % 2 ^ 32)
              there reads.counted
      ]

  write_inbound_counted :
      (s s' : SpongeSocket A)
      → write_inbound adapter s ≡ some s'
      → s.thread_data.write_count ≢ s'.thread_data.write_count
  unfolding write_inbound
  write_inbound_counted s s' e =
      let inbound = stream_out s.tcp.receiver in
      let m = min 65536 (buffer_size inbound) in
      let ((n, d), is_written, rest) =
        bind-some (FileDescriptor.write s.thread_data (ByteStream.peek_output inbound m) false) _ s'
          e in
      let writes =
        write-Writes s.thread_data d (ByteStream.peek_output inbound m) n
          (omega (arith, length-peek_output inbound m)) is_written in
      let left = stream_out (pop_inbound s.tcp n).receiver in
      let count = λ (x : SpongeSocket A). s.thread_data.write_count ≢ x.thread_data.write_count in
      elim (Bool-cases (ByteStream.eof left || left.error)) [
        | inr more ↦
            subst count (some-injective _ s' (rw more at rest)) (λ q. omega (arith, writes.counted))
        | inl over ↦
            let (d', is_shut, done) =
              bind-some (FileDescriptor.shutdown d How.shut_wr) _ s' (rw over at rest) in
            subst count (some-injective _ s' done)
              (λ q. omega (arith, writes.counted, (shutdown-write_count d d' is_shut).1))
      ]

  send_done : (s s' : SpongeSocket A) → send adapter s ≡ some s' → s'.tcp.segments_out ≡ []
  unfolding send
  send_done s s' e =
      let (a, is_sent, rest) =
        bind-some (write_segments adapter s.datagram_adapter s.tcp.segments_out) _ s' e in
      ap (λ (x : SpongeSocket A). x.tcp.segments_out) (sym (some-injective _ s' rest))

  -- Over an adapter that counts its reads, none of the four callbacks is taken for a busy wait: to
  -- serve a rule is to call its callback.
  pub serve_callbacks :
      (s : SpongeSocket A)
      → CountsReads
      → (serve (rule_receive adapter) s ≡ receive adapter s)
        × (serve (rule_outbound adapter) s ≡ read_outbound adapter s)
        × (serve (rule_inbound adapter) s ≡ write_inbound adapter s)
        × (serve (rule_send adapter) s ≡ send adapter s)
  serve_callbacks s counts = (
    serve-callback (rule_receive adapter) s (λ s' e. inl (receive_counted s s' counts e)),
    serve-callback (rule_outbound adapter) s
        (λ s' e. inl (λ q. omega (arith, read_outbound_counted s s' e))),
    serve-callback (rule_inbound adapter) s (λ s' e. inl (write_inbound_counted s s' e)),
    serve-callback (rule_send adapter) s (λ s' e. inr (ap has_queue (send_done s s' e))),
  )
