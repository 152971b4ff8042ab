-- ===== src/SpongeSocket/Loop.antt =====
-- The methods of TCPSpongeSocket (libsponge/tcp_helpers/tcp_sponge_socket.cc) that run its event
-- loop. `true` beside the state says that the loop has ended; the rounds that are given may be too
-- few for that.
use sponge.Prelude.{ℕ, Bool, true, false, ◌||◌, Option, none, some, List, [], ◌∷◌, sub64}
use sponge.FileDescriptor
use sponge.FileDescriptor.{FileDescriptor, How}
use sponge.EventLoop.{Rule, wait_next_event}
use sponge.Adapter.{FdAdapterConfig}
use sponge.TcpState.{State, same_state, of_state}
use sponge.TcpConnection
use sponge.TcpConnection.{TcpConfig, state, active}
use sponge.SpongeSocket.{Adapter, SpongeSocket, Round, is_exit, rules}

module _ {ℓ} {A : Type ℓ} (adapter : Adapter A) where
  -- `_tcp_loop`; `base_time` is the time of the last tick.
  unfoldable pub tcp_loop :
      (SpongeSocket A → Bool)
      → List Round
      → ℕ
      → List (Rule (SpongeSocket A))
      → SpongeSocket A
      → Option (Bool × SpongeSocket A × List (Rule (SpongeSocket A)))
  unfolding wait_next_event
  tcp_loop condition [] base_time live s = some (false, s, live)
  tcp_loop condition (round ∷ rounds) base_time live s = elim (condition s) [
    | false ↦ some (true, s, live)
    | true ↦ elim (wait_next_event live s round.poll) [
      | none ↦ none
      | some (result, s', kept) ↦ elim (is_exit result || round.abort) [
        | true ↦ some (true, s', kept)
        | false ↦ elim (active s'.tcp) [
          | false ↦ tcp_loop condition rounds base_time kept s'
          | true ↦
              let ms = sub64 round.now base_time in
              elim (adapter.tick s'.datagram_adapter ms) [
                | none ↦ none
                | some a ↦
                    tcp_loop condition rounds round.now kept
                      (record s' { tcp = TcpConnection.tick s'.tcp ms; datagram_adapter = a })
              ]
        ]
      ]
    ]
  ]

  -- `_initialize_TCP`; the rules of the new loop are `rules adapter`.
  unfoldable pub initialize_tcp : TcpConfig → SpongeSocket A → SpongeSocket A
  unfolding TcpConnection.init
  initialize_tcp cfg s = record s { has_tcp = true; tcp = TcpConnection.init cfg }

  abbrev pub is_syn_sent : SpongeSocket A → Bool
  is_syn_sent s = same_state (state s.tcp) (of_state State.syn_sent)

  abbrev pub is_opening : SpongeSocket A → Bool
  is_opening s =
      same_state (state s.tcp) (of_state State.listen)
      || same_state (state s.tcp) (of_state State.syn_rcvd)
      || same_state (state s.tcp) (of_state State.syn_sent)

  -- The socket when `connect` comes to its loop.
  abbrev pub connecting : TcpConfig → FdAdapterConfig → SpongeSocket A → SpongeSocket A
  connecting c_tcp c_ad s =
      let s' = initialize_tcp c_tcp s in
      record s' {
        datagram_adapter = adapter.set_config s'.datagram_adapter c_ad;
        tcp = TcpConnection.connect s'.tcp;
      }

  unfoldable pub connect :
      TcpConfig
      → FdAdapterConfig
      → List Round
      → ℕ
      → SpongeSocket A
      → Option (Bool × SpongeSocket A × List (Rule (SpongeSocket A)))
  unfolding tcp_loop
  connect c_tcp c_ad rounds now s =
      let s' = connecting c_tcp c_ad s in
      elim s.has_tcp [
        | true ↦ none
        | false ↦ elim (is_syn_sent s') [
          | false ↦ none
          | true ↦ tcp_loop is_syn_sent rounds now (rules adapter) s'
        ]
      ]

  -- The socket when `listen_and_accept` comes to its loop.
  abbrev pub listening : TcpConfig → FdAdapterConfig → SpongeSocket A → SpongeSocket A
  listening c_tcp c_ad s =
      let s' = initialize_tcp c_tcp s in
      record s' {
        datagram_adapter = adapter.set_listening (adapter.set_config s'.datagram_adapter c_ad) true;
      }

  unfoldable pub listen_and_accept :
      TcpConfig
      → FdAdapterConfig
      → List Round
      → ℕ
      → SpongeSocket A
      → Option (Bool × SpongeSocket A × List (Rule (SpongeSocket A)))
  unfolding tcp_loop
  listen_and_accept c_tcp c_ad rounds now s = elim s.has_tcp [
    | true ↦ none
    | false ↦ tcp_loop is_opening rounds now (rules adapter) (listening c_tcp c_ad s)
  ]

  -- `_tcp_main`, with the rules that the loop before has left. Its `_tcp.reset()` destroys the
  -- connection.
  unfoldable pub tcp_main :
      List Round
      → ℕ
      → List (Rule (SpongeSocket A))
      → SpongeSocket A
      → Option (Bool × SpongeSocket A × List (Rule (SpongeSocket A)))
  unfolding tcp_loop FileDescriptor.shutdown TcpConnection.destroy
  tcp_main rounds now live s = elim s.has_tcp [
    | false ↦ none
    | true ↦ elim (tcp_loop (λ _. true) rounds now live s) [
      | none ↦ none
      | some (ended, s', kept) ↦ elim ended [
        | false ↦ some (false, s', kept)
        | true ↦ elim (FileDescriptor.shutdown s'.owner How.shut_rdwr) [
          | none ↦ none
          | some d ↦ some (
            true,
            record s' { owner = d; has_tcp = false; tcp = TcpConnection.destroy s'.tcp },
            kept,
          )
        ]
      ]
    ]
  ]

  -- The constructor over a pair of connected sockets.
  unfoldable pub init : FileDescriptor → FileDescriptor → A → TcpConfig → Option (SpongeSocket A)
  unfolding FileDescriptor.set_blocking TcpConnection.init
  init first second a cfg = elim (FileDescriptor.set_blocking second false) [
    | none ↦ none
    | some d ↦ some (record {
      owner = first;
      thread_data = d;
      datagram_adapter = a;
      has_tcp = false;
      tcp = TcpConnection.init cfg;
      inbound_shutdown = false;
      outbound_shutdown = false;
      fully_acked = false;
    })
  ]
