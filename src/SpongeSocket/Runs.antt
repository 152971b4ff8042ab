-- ===== src/SpongeSocket/Runs.antt =====
-- The whole life of a TCPSpongeSocket (libsponge/tcp_helpers/tcp_sponge_socket.cc): connect or
-- listen_and_accept, and then _tcp_main.
use mathlib.Core.Option.{none-ne-some, some-injective}
use sponge.Prelude.{
  ℕ, ◌^◌, ◌<◌, ◌≡◌, ◌⊎◌, refl, Bool, true, some, List, [], ◌++◌, inl, inr, sym, subst, bind-some,
  Bool-cases, IsU32,
}
use sponge.ByteStream
use sponge.Reassembler
use sponge.Reassembler.Stored.{Agrees}
use sponge.FileDescriptor
use sponge.FileDescriptor.{How}
use sponge.EventLoop.{Rule}
use sponge.EventLoop.Keeps.{AllKeep}
use sponge.Adapter.{FdAdapterConfig}
use sponge.TcpReceiver
use sponge.TcpReceiver.{TcpReceiver, stream_out}
use sponge.TcpReceiver.Stream
use sponge.TcpConnection
use sponge.TcpConnection.{TcpConfig, TcpConnection, set_receiver_error}
use sponge.TcpConnection.Inbound.{destroy-IsAfter, connect-receiver}
use sponge.SpongeSocket.{Adapter, SpongeSocket, Round, rules}
use sponge.SpongeSocket.Loop.{
  tcp_loop, connecting, listening, is_syn_sent, is_opening, connect, listen_and_accept, tcp_main,
  initialize_tcp,
}
use sponge.SpongeSocket.Delivered.{Delivered, Delivered-prefix}
use sponge.SpongeSocket.Delivers.{Hears, Delivers, rules-Keeps, after, tick-Delivers}
use sponge.SpongeSocket.Keeps.{tcp_loop-Keeps}

module _ (S : ℕ → ℕ) (top : ℕ) (small : top < 2 ^ 62) (short : top < 2 ^ 30) (isn : ℕ)
    (narrow : IsU32 isn) where
  module _ {ℓ} {A : Type ℓ} (adapter : Adapter A) (Q : A → Type ℓ)
      (hears : Hears S top small short isn narrow adapter Q) where
    abbrev P : SpongeSocket A → Type ℓ
    P = Delivers S top small short isn narrow adapter Q hears

    abbrev At' : TcpReceiver → List ℕ → Type 0
    At' = Delivered S top small short isn narrow

    -- A new connection has delivered nothing.
    fresh-Delivered :
        (cfg : TcpConfig)
        → cfg.recv_capacity < 2 ^ 62
        → Delivered S top small short isn narrow (TcpReceiver.init cfg.recv_capacity) []
    fresh-Delivered cfg h =
        let v = Stream.init-IsValid S top small isn narrow cfg.recv_capacity h in
        record {
          valid = v;
          trace = record {
            valid = v.reassembler;
            count = unfold TcpReceiver.init Reassembler.init ByteStream.init in refl;
            order = tt;
          };
        }

    opened :
        (cfg : TcpConfig) (written : List ℕ)
        → cfg.recv_capacity < 2 ^ 62
        → written ≡ []
        → At' (TcpConnection.init cfg).receiver written
    unfolding TcpConnection.init
    opened cfg written h none_written =
        subst (At' (TcpReceiver.init cfg.recv_capacity)) (sym none_written) (fresh-Delivered cfg h)

    -- How the owner starts the connection.
    abbrev pub Starts :
        TcpConfig
        → FdAdapterConfig
        → List Round
        → ℕ
        → SpongeSocket A
        → SpongeSocket A
        → List (Rule (SpongeSocket A))
        → Type ℓ
    Starts c_tcp c_ad rounds now s s' live =
        (connect adapter c_tcp c_ad rounds now s ≡ some (true, s', live))
        ⊎ (listen_and_accept adapter c_tcp c_ad rounds now s ≡ some (true, s', live))

    ticks :
        (s : SpongeSocket A) (a : A) (ms : ℕ)
        → P s
        → adapter.tick s.datagram_adapter ms ≡ some a
        → P (record s { tcp = TcpConnection.tick s.tcp ms; datagram_adapter = a })
    ticks = tick-Delivers S top small short isn narrow adapter Q hears

    Starts-Delivers :
        (c_tcp : TcpConfig) (c_ad : FdAdapterConfig) (rounds : List Round) (now : ℕ)
        (s s' : SpongeSocket A) (live : List (Rule (SpongeSocket A)))
        → c_tcp.recv_capacity < 2 ^ 62
        → s.thread_data.kernel.written ≡ []
        → Q (adapter.set_config s.datagram_adapter c_ad)
        → Q (adapter.set_listening (adapter.set_config s.datagram_adapter c_ad) true)
        → Starts c_tcp c_ad rounds now s s' live
        → P s' × AllKeep P live
    unfolding connect listen_and_accept initialize_tcp
    Starts-Delivers c_tcp c_ad rounds now s s' live room none_written q q' (inl e) =
        let s0 = connecting adapter c_tcp c_ad s in
        elim (Bool-cases s.has_tcp) [
          | inl has ↦ absurd (none-ne-some (true, s', live) (rw (has, connect) at e))
          | inr fresh ↦ elim (Bool-cases (is_syn_sent adapter s0)) [
            | inr wrong ↦
                absurd (none-ne-some (true, s', live) (rw wrong at (rw (fresh, connect) at e)))
            | inl right ↦
                tcp_loop-Keeps adapter P (is_syn_sent adapter) rounds now (rules adapter) live s0 s'
                  true ticks (rules-Keeps S top small short isn narrow adapter Q hears)
                  (record {
                    delivered =
                        subst (λ x. At' x s.thread_data.kernel.written)
                          (sym (connect-receiver (TcpConnection.init c_tcp)))
                          (opened c_tcp s.thread_data.kernel.written room none_written);
                    peer = q;
                  })
                  (rw right at (rw (fresh, connect) at e))
          ]
        ]
    Starts-Delivers c_tcp c_ad rounds now s s' live room none_written q q' (inr e) =
        let s0 = listening adapter c_tcp c_ad s in
        elim (Bool-cases s.has_tcp) [
          | inl has ↦ absurd (none-ne-some (true, s', live) (rw (has, listen_and_accept) at e))
          | inr fresh ↦
              tcp_loop-Keeps adapter P (is_opening adapter) rounds now (rules adapter) live s0 s'
                true ticks (rules-Keeps S top small short isn narrow adapter Q hears)
                (record {
                  delivered = opened c_tcp s.thread_data.kernel.written room none_written;
                  peer = q';
                })
                (rw (fresh, listen_and_accept) at e)
        ]

    tcp_main-Delivered :
        (rounds : List Round) (now : ℕ) (live kept : List (Rule (SpongeSocket A)))
        (s s' : SpongeSocket A) (ended : Bool)
        → AllKeep P live
        → P s
        → tcp_main adapter rounds now live s ≡ some (ended, s', kept)
        → Delivered S top small short isn narrow s'.tcp.receiver s'.thread_data.kernel.written
    unfolding tcp_main
    tcp_main-Delivered rounds now live kept s s' ended keep p e =
        let end : Bool × SpongeSocket A × List (Rule (SpongeSocket A)) = (ended, s', kept) in
        elim (Bool-cases s.has_tcp) [
          | inr no_tcp ↦ absurd (none-ne-some end (rw (no_tcp, tcp_main) at e))
          | inl has ↦
              let ((over, t, left), looped, rest) =
                bind-some (tcp_loop adapter (λ _. true) rounds now live s) _ end
                  (rw (has, tcp_main) at e) in
              let after_loop =
                tcp_loop-Keeps adapter P (λ _. true) rounds now live left s t over ticks keep p
                  looped in
              elim (Bool-cases over) [
                | inr going ↦
                    subst
                      (λ (p : Bool × SpongeSocket A × List (Rule (SpongeSocket A))).
                        At' (p.1.tcp.receiver) (p.1.thread_data.kernel.written))
                      (some-injective _ end (rw going at rest)) after_loop.0.delivered
                | inl gone ↦
                    let (d, is_shut, done) =
                      bind-some (FileDescriptor.shutdown t.owner How.shut_rdwr) _ end
                        (rw gone at rest) in
                    subst
                      (λ (p : Bool × SpongeSocket A × List (Rule (SpongeSocket A))).
                        At' (p.1.tcp.receiver) (p.1.thread_data.kernel.written))
                      (some-injective _ end done)
                      (after S top small short isn narrow adapter Q hears t.tcp.receiver
                        (TcpConnection.destroy t.tcp) t.thread_data.kernel.written
                        (destroy-IsAfter t.tcp) after_loop.0.delivered)
              ]
        ]

    -- Over an adapter that reads segments of the peer only, each of which carries bytes of its stream,
    -- which is shorter than 2 ^ 30 bytes, at their place and under its ISN, or has no byte, no SYN and
    -- no FIN, whatever its sequence number and its other flags, and however poll(2), the clock and the
    -- kernel answer, as long as nothing throws: what a socket that was started by connect or
    -- listen_and_accept, and has run _tcp_main for some rounds, has written to its owner, followed by
    -- what waits in its inbound stream, is the beginning of the stream of the peer. Nothing was
    -- written to the owner before, and the receiver's capacity is below 2 ^ 62.
    pub tcp_main-prefix :
        (c_tcp : TcpConfig) (c_ad : FdAdapterConfig) (opening rounds : List Round) (opened now : ℕ)
        (s s' s'' : SpongeSocket A) (live kept : List (Rule (SpongeSocket A))) (ended : Bool)
        → c_tcp.recv_capacity < 2 ^ 62
        → s.thread_data.kernel.written ≡ []
        → Q (adapter.set_config s.datagram_adapter c_ad)
        → Q (adapter.set_listening (adapter.set_config s.datagram_adapter c_ad) true)
        → Starts c_tcp c_ad opening opened s s' live
        → tcp_main adapter rounds now live s' ≡ some (ended, s'', kept)
        → Agrees S 0 (s''.thread_data.kernel.written ++ (stream_out s''.tcp.receiver).buffer)
    tcp_main-prefix c_tcp c_ad opening rounds opened now s s' s'' live kept ended room none_written
          q q' start e =
        let first =
          Starts-Delivers c_tcp c_ad opening opened s s' live room none_written q q' start in
        Delivered-prefix S top small short isn narrow s''.tcp.receiver
          s''.thread_data.kernel.written
          (tcp_main-Delivered rounds now live kept s' s'' ended first.1 first.0 e)
