-- ===== src/Adapter.antt =====
-- libsponge/tcp_helpers/fd_adapter.hh, fd_adapter.cc, tcp_over_ip.cc and lossy_fd_adapter.hh, with
-- FdAdapterConfig of tcp_config.hh. An `Address` is its number with its port. What a socket receives is
-- an argument, what it sends a result, and an exception is `none`.
pub mod Filter
pub mod Peers
pub mod Tap
pub mod Delivery
pub mod Udp
use sponge.Prelude.{
  ℕ, ◌+◌, ◌*◌, ◌%◌, ◌^◌, Bool, true, false, not, ◌&&◌, ◌||◌, Option, none, some, List, length, ltb,
  ◌==◌, if◌then◌else◌,
}
use sponge.Parser.{ParseResult}
use sponge.TcpSegment.{TcpHeader, TcpSegment, default_segment}
use sponge.TcpSegment.Bytes
use sponge.Ipv4.{Ipv4Header, Ipv4Datagram, default_header}
use sponge.Ipv4.Bytes.{pseudo_cksum}

pub record Address : Type 0 where
  pub ip : ℕ
  pub port : ℕ

pub record FdAdapterConfig : Type 0 where
  pub source : Address
  pub destination : Address
  pub loss_rate_dn : ℕ
  pub loss_rate_up : ℕ

-- `FdAdapterBase`
pub record FdAdapter : Type 0 where
  pub cfg : FdAdapterConfig
  pub listen : Bool

abbrev pub set_listening : FdAdapter → Bool → FdAdapter
set_listening a l = record a { listen = l }

-- `PROTO_TCP`
abbrev pub proto_tcp : ℕ
proto_tcp = 6

abbrev pub no_error : ParseResult → Bool
no_error ParseResult.no_error = true
no_error _ = false

-- A listening adapter takes the addresses of the segment for its own, and listens no more.
abbrev pub target : FdAdapter → Ipv4Datagram → TcpSegment → FdAdapter
target a dgram seg =
    let source : Address = record { ip = dgram.header.dst; port = a.cfg.source.port } in
    let destination : Address = record { ip = dgram.header.src; port = seg.header.sport } in
    record { cfg = record (a.cfg) { source = source; destination = destination }; listen = false }

-- The adapter, and the segment if it is for the connection.
unfoldable pub unwrap_tcp_in_ip : FdAdapter → Ipv4Datagram → FdAdapter × Option TcpSegment
unwrap_tcp_in_ip a dgram =
    let h = dgram.header in
    let (result, seg) = Bytes.parse default_segment dgram.payload (pseudo_cksum h) in
    let a' = if a.listen then target a dgram seg else a in
    if not a.listen && not (h.dst == a.cfg.source.ip)
    then (a, none)
    else if not a.listen && not (h.src == a.cfg.destination.ip)
    then (a, none)
    else if not (h.proto == proto_tcp)
    then (a, none)
    else if not (no_error result)
    then (a, none)
    else if not (seg.header.dport == a.cfg.source.port)
    then (a, none)
    else if a.listen && not (seg.header.syn && not seg.header.rst)
    then (a, none)
    else if not (seg.header.sport == a'.cfg.destination.port)
    then (a', none)
    else (a', some seg)

-- The segment with the ports of the connection.
abbrev pub with_ports : FdAdapter → TcpSegment → TcpSegment
with_ports a seg = record seg {
  header = record (seg.header) { sport = a.cfg.source.port; dport = a.cfg.destination.port };
}

-- The header that carries a segment.
abbrev pub carrier : FdAdapter → TcpSegment → Ipv4Header
carrier a seg = record default_header {
  src = a.cfg.source.ip;
  dst = a.cfg.destination.ip;
  len = (5 * 4 + seg.header.doff * 4 + length seg.payload) % 2 ^ 16;
}

-- The datagram, and the segment that the caller is left with.
unfoldable pub wrap_tcp_in_ip : FdAdapter → TcpSegment → Option (Ipv4Datagram × TcpSegment)
wrap_tcp_in_ip a seg =
    let seg' = with_ports a seg in
    let header = carrier a seg' in
    elim (Bytes.serialize seg' (pseudo_cksum header)) [
      | none ↦ none
      | some bytes ↦ some (record { header = header; payload = bytes }, seg')
    ]

abbrev pub same_endpoint : Address → Address → Bool
same_endpoint a b = a.ip == b.ip && a.port == b.port

-- `TCPOverUDPSocketAdapter::read`, given the datagram that the socket receives.
unfoldable pub udp_read : FdAdapter → Address → List ℕ → FdAdapter × Option TcpSegment
udp_read a source_address payload =
    let (result, seg) = Bytes.parse default_segment payload 0 in
    let targeted : FdAdapter = record {
      cfg = record (a.cfg) { destination = source_address };
      listen = false;
    } in
    if not a.listen && not (same_endpoint source_address a.cfg.destination)
    then (a, none)
    else if not (no_error result)
    then (a, none)
    else if a.listen
    then (if seg.header.syn && not seg.header.rst then (targeted, some seg) else (a, none))
    else (a, some seg)

-- `TCPOverUDPSocketAdapter::write`: the address and the bytes of `sendto`, and the segment.
unfoldable pub udp_write : FdAdapter → TcpSegment → Option ((Address × List ℕ) × TcpSegment)
udp_write a seg =
    let seg' = with_ports a seg in
    elim (Bytes.serialize seg' 0) [
      | none ↦ none
      | some bytes ↦ some ((a.cfg.destination, bytes), seg')
    ]

-- `LossyFdAdapter::_should_drop`, given what `_rand` draws.
abbrev pub should_drop : FdAdapterConfig → ℕ → Bool → Bool
should_drop cfg draw uplink =
    let loss = if uplink then cfg.loss_rate_up else cfg.loss_rate_dn in
    not (loss == 0) && ltb (draw % 2 ^ 16) loss

-- `LossyFdAdapter::read`: the adapter below has read already.
abbrev pub lossy_read : FdAdapter × Option TcpSegment → ℕ → FdAdapter × Option TcpSegment
lossy_read (a, seg) draw = (a, if should_drop a.cfg draw false then none else seg)

-- `LossyFdAdapter::write` over the `write` of the adapter below: what it writes, if it does, and the
-- segment.
abbrev pub lossy_write {ℓ} :
    {W : Type ℓ}
    → FdAdapter
    → ℕ
    → (TcpSegment → Option (W × TcpSegment))
    → TcpSegment
    → Option (Option W × TcpSegment)
lossy_write a draw write seg =
    if should_drop a.cfg draw true
    then some (none, seg)
    else (elim (write seg) [ none ↦ none | some (written, seg') ↦ some (some written, seg') ])
