-- ===== src/Adapter/Udp.antt =====
-- UDPSocket of libsponge/util/socket.cc, and TCPOverUDPSocketAdapter
-- (libsponge/tcp_helpers/fd_adapter.cc) over it, as the adapter of a TCPSpongeSocket.
use mathlib.Core.Option.{some-injective}
use sponge.Prelude.{
  ℕ, ◌≡◌, ◌≢◌, Option, none, some, List, [], ◌∷◌, ◌++◌, length, ltb, ◌==◌, if◌then◌else◌, arith, ap,
  subst, bind-some,
}
use sponge.FileDescriptor.{FileDescriptor, register_read, register_write}
use sponge.TcpSegment.{TcpSegment}
use sponge.Adapter.{Address, FdAdapter, set_listening, udp_read, udp_write}
use sponge.SpongeSocket.{Adapter}
use sponge.SpongeSocket.Outbound.{CountsReads}

-- What recvfrom(2) and sendmsg(2) are going to answer, and what was sent.
pub record UdpSocket : Type 0 where
  pub descriptor : FileDescriptor
  pub datagrams : List (Option (Address × List ℕ))
  pub sends : List (Option ℕ)
  pub sent : List (Address × List ℕ)

abbrev recv_answered :
    UdpSocket → ℕ → List (Option (Address × List ℕ)) → Option ((Address × List ℕ) × UdpSocket)
recv_answered s mtu [] = none
recv_answered s mtu (none ∷ rest) = none
recv_answered s mtu (some (source, payload) ∷ rest) =
    if ltb mtu (length payload)
    then none
    else some
        ((source, payload), record s { descriptor = register_read s.descriptor; datagrams = rest })

unfoldable pub recv : UdpSocket → ℕ → Option ((Address × List ℕ) × UdpSocket)
recv s mtu = recv_answered s mtu s.datagrams

abbrev sendmsg_helper : UdpSocket → Address → List ℕ → List (Option ℕ) → Option UdpSocket
sendmsg_helper s destination payload [] = none
sendmsg_helper s destination payload (none ∷ rest) = none
sendmsg_helper s destination payload (some n ∷ rest) =
    if n == length payload
    then some (record s { sends = rest; sent = s.sent ++ (destination, payload) ∷ [] })
    else none

unfoldable pub sendto : UdpSocket → Address → List ℕ → Option UdpSocket
sendto s destination payload = elim (sendmsg_helper s destination payload s.sends) [
  | none ↦ none
  | some s' ↦ some (record s' { descriptor = register_write s'.descriptor })
]

-- `TCPOverUDPSocketAdapter`
pub record UdpAdapter : Type 0 where
  pub base : FdAdapter
  pub sock : UdpSocket

-- The default of `recv`.
abbrev pub default_mtu : ℕ
default_mtu = 65536

unfoldable pub adapter_read : UdpAdapter → Option (UdpAdapter × Option TcpSegment)
unfolding recv
adapter_read a = elim (recv a.sock default_mtu) [
  | none ↦ none
  | some ((source, payload), sock) ↦
      let (base, seg) = udp_read a.base source payload in
      some (record { base = base; sock = sock }, seg)
]

unfoldable pub adapter_write : UdpAdapter → TcpSegment → Option UdpAdapter
unfolding sendto
adapter_write a seg = elim (udp_write a.base seg) [
  | none ↦ none
  | some ((destination, bytes), seg') ↦ elim (sendto a.sock destination bytes) [
    | none ↦ none
    | some sock ↦ some (record a { sock = sock })
  ]
]

abbrev pub udp_adapter : Adapter UdpAdapter
udp_adapter = record {
  descriptor = λ a. a.sock.descriptor;
  read = adapter_read;
  write = adapter_write;
  tick = λ a ms. some a;
  set_config = λ a cfg. record a { base = record (a.base) { cfg = cfg } };
  set_listening = λ a l. record a { base = set_listening a.base l };
}

recv-count :
    (s s' : UdpSocket) (mtu : ℕ) (d : Address × List ℕ)
    → recv s mtu ≡ some (d, s')
    → s.descriptor.read_count ≢ s'.descriptor.read_count
unfolding recv
recv-count s s' mtu d e = answered s.datagrams e
  where
    answered :
        (datagrams : List (Option (Address × List ℕ)))
        → recv_answered s mtu datagrams ≡ some (d, s')
        → s.descriptor.read_count ≢ s'.descriptor.read_count
    answered [] e = ground arith
    answered (none ∷ rest) e = ground arith
    answered (some b ∷ rest) e = ground arith

pub udp_adapter-CountsReads : CountsReads udp_adapter
unfolding adapter_read
udp_adapter-CountsReads a a' seg e =
    let ((d, sock), is_in, rest) = bind-some (recv a.sock default_mtu) _ (a', seg) e in
    let there : sock ≡ a'.sock =
      ap (λ (p : UdpAdapter × Option TcpSegment). p.0.sock) (some-injective _ (a', seg) rest) in
    subst (λ (x : UdpSocket). a.sock.descriptor.read_count ≢ x.descriptor.read_count) there
      (recv-count a.sock sock default_mtu d is_in)
