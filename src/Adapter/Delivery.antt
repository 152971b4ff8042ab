-- ===== src/Adapter/Delivery.antt =====
-- A segment from one adapter of libsponge/tcp_helpers/tuntap_adapter.cc to another, as a frame.
use sponge.Prelude.{
  ℕ, ◌+◌, ◌*◌, ◌^◌, ◌<◌, ◌≡◌, refl, false, some, List, [], ◌∷◌, length, arith, eq_refl, ◌∙◌,
}
use sponge.Prelude.Maps.{find}
use sponge.TcpSegment.{TcpSegment}
use sponge.TcpSegment.RoundTrip as TcpRoundTrip
use sponge.Ethernet.{serialize_frame, type_ipv4}
use sponge.Ethernet.RoundTrip as EthernetRoundTrip
use sponge.Ethernet.RoundTrip.{parse_frame-serialize_frame}
use sponge.Ipv4.{default_header}
use sponge.Ipv4.Checked.{parse_datagram-serialize_datagram}
use sponge.NetworkInterface.{ArpEntry, frame_to, push_frame, send_datagram}
use sponge.NetworkInterface.Learning.{send-known}
use sponge.NetworkInterface.Exchange.{recv_frame-datagram}
use sponge.Adapter.{with_ports}
use sponge.Adapter.Peers.{IsAddress, wrap_tcp_in_ip-Wrapped, delivered}
use sponge.Adapter.Tap.{TapAdapter, blank_header, tap_read, tap_write}

-- Between two Ethernet adapters with nothing left to send and 48-bit Ethernet addresses, where
-- neither IP end listens, each has the other's 16-bit port and 32-bit address for its
-- destination, and the first knows the Ethernet address of the second for its next hop: a
-- segment with its fields in range that fits an IP datagram is written as one frame, and the
-- second reads from that frame the segment, with the ports of the connection and its checksum
-- filled in; both are left as they were.
pub tap_read-tap_write :
    (a b : TapAdapter) (entry : ArpEntry) (seg : TcpSegment)
    → IsAddress a.base.cfg.source
    → IsAddress a.base.cfg.destination
    → b.base.cfg.source ≡ a.base.cfg.destination
    → b.base.cfg.destination ≡ a.base.cfg.source
    → b.base.listen ≡ false
    → EthernetRoundTrip.IsAddress a.interface.ethernet_address
    → EthernetRoundTrip.IsAddress b.interface.ethernet_address
    → find a.next_hop a.interface.arp_table ≡ some entry
    → entry.ethernet_address ≡ b.interface.ethernet_address
    → a.interface.frames_out ≡ []
    → b.interface.frames_out ≡ []
    → TcpRoundTrip.IsHeader seg.header
    → 20 + 4 * seg.header.doff + length seg.payload < 2 ^ 16
    → (bytes : List ℕ) × (tap_write a seg ≡ some (a, bytes ∷ [], with_ports a.base seg))
      × (tap_read b bytes ≡ some (b, [], some (delivered a.base seg)))
unfolding tap_read tap_write
tap_read-tap_write a b entry seg s d own other idle ma mb known there quiet quiet' v room =
    let (dgram, w) = wrap_tcp_in_ip-Wrapped a.base b.base seg s d own other idle v room in
    let (bytes, sent, _) =
      parse_datagram-serialize_datagram default_header dgram (w.header) (w.fits) in
    let frame = frame_to a.interface b.interface.ethernet_address type_ipv4 bytes in
    let goes : send_datagram a.interface dgram a.next_hop ≡ some (push_frame a.interface frame) =
      send-known a.interface dgram a.next_hop a.next_hop entry (eq_refl a.next_hop) known
      ∙ rw (sent, there) refl in
    let comes =
      recv_frame-datagram b.interface a.interface.ethernet_address dgram bytes (w.header) (w.fits)
        sent in
    (
      serialize_frame frame,
      rw (tap_write, w.wraps, goes, quiet) refl,
      rw
          (
            tap_read,
            parse_frame-serialize_frame blank_header frame mb ma (omega arith),
            comes,
            w.unwraps,
            quiet',
          )
          refl,
    )
