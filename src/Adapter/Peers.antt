-- ===== src/Adapter/Peers.antt =====
-- A segment from one adapter of libsponge/tcp_helpers/tcp_over_ip.cc to another, through the bytes of
-- the datagram.
use sponge.Prelude.{
  ℕ, ◌+◌, ◌*◌, ◌^◌, ◌<◌, ◌≡◌, refl, false, some, List, length, arith, IsU32, eq_refl,
}
use sponge.Parser.{ParseResult}
use sponge.TcpSegment.{TcpSegment, default_segment}
use sponge.TcpSegment.RoundTrip as TcpRoundTrip
use sponge.TcpSegment.Checked.{checked, parse-serialize_segment}
use sponge.Ipv4.{Ipv4Header, Ipv4Datagram}
use sponge.Ipv4.Bytes.{pseudo_cksum, parse_datagram, serialize_datagram}
use sponge.Ipv4.RoundTrip as Ipv4RoundTrip
use sponge.Ipv4.Checked as Ipv4Checked
use sponge.Ipv4.Checked.{parse_datagram-serialize_datagram}
use sponge.Adapter.{FdAdapter, Address, with_ports, carrier, wrap_tcp_in_ip, unwrap_tcp_in_ip}

-- An address of 32 bits and a port of 16.
pub record IsAddress (a : Address) : Type 0 where
  pub ip : IsU32 a.ip
  pub port : a.port < 2 ^ 16

pseudo_cksum_small :
    (h : Ipv4Header) → IsU32 h.src → IsU32 h.dst → h.proto < 2 ^ 8 → pseudo_cksum h < 2 ^ 20
pseudo_cksum_small h s d p = omega arith

with_ports-IsHeader :
    (a : FdAdapter) (seg : TcpSegment)
    → IsAddress a.cfg.source
    → IsAddress a.cfg.destination
    → TcpRoundTrip.IsHeader seg.header
    → TcpRoundTrip.IsHeader (with_ports a seg).header
with_ports-IsHeader a seg s d v = record {
  sport = s.port;
  dport = d.port;
  seqno = v.seqno;
  ackno = v.ackno;
  least = v.least;
  most = v.most;
  win = v.win;
  cksum = v.cksum;
  uptr = v.uptr;
}

carrier-IsHeader :
    (a : FdAdapter) (seg : TcpSegment)
    → IsAddress a.cfg.source
    → IsAddress a.cfg.destination
    → Ipv4RoundTrip.IsHeader (carrier a seg)
carrier-IsHeader a seg s d = record {
  ver = refl;
  least = omega arith;
  most = omega arith;
  tos = omega arith;
  len = omega arith;
  id = omega arith;
  offset = omega arith;
  ttl = omega arith;
  proto = omega arith;
  cksum = omega arith;
  src = s.ip;
  dst = d.ip;
}

-- What the other end gets: the segment with its ports and its checksum.
abbrev pub delivered : FdAdapter → TcpSegment → TcpSegment
delivered a seg =
    let seg' = with_ports a seg in
    record seg { header = checked seg' (pseudo_cksum (carrier a seg')) }

-- A datagram that one end has wrapped for the other: it is in order, and unwraps once its checksum is
-- filled in.
pub record Wrapped (a b : FdAdapter) (seg : TcpSegment) (dgram : Ipv4Datagram) : Type 0 where
  pub wraps : wrap_tcp_in_ip a seg ≡ some (dgram, with_ports a seg)
  pub header : Ipv4RoundTrip.IsHeader dgram.header
  pub fits : dgram.header.len ≡ 4 * dgram.header.hlen + length dgram.payload
  pub unwraps :
      unwrap_tcp_in_ip b (record dgram { header = Ipv4Checked.checked dgram.header })
      ≡ (b, some (delivered a seg))

pub wrap_tcp_in_ip-Wrapped :
    (a b : FdAdapter) (seg : TcpSegment)
    → IsAddress a.cfg.source
    → IsAddress a.cfg.destination
    → b.cfg.source ≡ a.cfg.destination
    → b.cfg.destination ≡ a.cfg.source
    → b.listen ≡ false
    → TcpRoundTrip.IsHeader seg.header
    → 20 + 4 * seg.header.doff + length seg.payload < 2 ^ 16
    → (dgram : Ipv4Datagram) × Wrapped a b seg dgram
unfolding wrap_tcp_in_ip unwrap_tcp_in_ip
wrap_tcp_in_ip-Wrapped a b seg s d own other idle v room =
    let seg' = with_ports a seg in
    let h = carrier a seg' in
    let below = pseudo_cksum h in
    let small = pseudo_cksum_small h (s.ip) (d.ip) (omega arith) in
    let fits = with_ports-IsHeader a seg s d v in
    let (payload, written, read, size) =
      parse-serialize_segment default_segment seg' below fits small (omega arith) in
    let out = a.cfg.destination in
    let back = a.cfg.source in
    (
      record { header = h; payload = payload },
      record {
        wraps = rw (wrap_tcp_in_ip, written) refl;
        header = carrier-IsHeader a seg' s d;
        fits = omega arith;
        unwraps =
            rw
              (
                unwrap_tcp_in_ip,
                own,
                other,
                idle,
                eq_refl out.ip,
                eq_refl back.ip,
                read,
                eq_refl out.port,
                eq_refl back.port,
              )
              refl;
      },
    )

-- Between two adapters that do not listen, each of which has the other's 16-bit port and 32-bit
-- address for its destination: a segment with its fields in range that fits an IP datagram is
-- wrapped, the datagram serializes, its bytes parse, and unwrapping gives the other end the
-- segment, with the ports of the connection and its checksum filled in, and leaves that end as
-- it was.
pub unwrap_tcp_in_ip-wrap_tcp_in_ip :
    (old : Ipv4Header) (a b : FdAdapter) (seg : TcpSegment)
    → IsAddress a.cfg.source
    → IsAddress a.cfg.destination
    → b.cfg.source ≡ a.cfg.destination
    → b.cfg.destination ≡ a.cfg.source
    → b.listen ≡ false
    → TcpRoundTrip.IsHeader seg.header
    → 20 + 4 * seg.header.doff + length seg.payload < 2 ^ 16
    → (dgram : Ipv4Datagram) × (bytes : List ℕ) × (received : Ipv4Datagram) × (wrap_tcp_in_ip a seg
        ≡ some (dgram, with_ports a seg))
      × (serialize_datagram dgram ≡ some bytes)
      × (parse_datagram old bytes ≡ (ParseResult.no_error, received))
      × (unwrap_tcp_in_ip b received ≡ (b, some (delivered a seg)))
unwrap_tcp_in_ip-wrap_tcp_in_ip old a b seg s d own other idle v room =
    let (dgram, w) = wrap_tcp_in_ip-Wrapped a b seg s d own other idle v room in
    let (bytes, sent, got) = parse_datagram-serialize_datagram old dgram (w.header) (w.fits) in
    (
      dgram,
      bytes,
      record dgram { header = Ipv4Checked.checked dgram.header },
      w.wraps,
      sent,
      got,
      w.unwraps,
    )
