-- ===== src/Adapter/Tap.antt =====
-- libsponge/tcp_helpers/tuntap_adapter.hh and tuntap_adapter.cc. What a device reads is an argument, and
-- what is written to it a result; an exception is `none`.
use sponge.Prelude.{ℕ, not, Option, none, some, List, [], ◌∷◌, if◌then◌else◌, replicate}
use sponge.TcpSegment.{TcpSegment}
use sponge.Ethernet.{EthernetHeader, EthernetFrame, parse_frame, serialize_frame}
use sponge.Ipv4.{default_header}
use sponge.Ipv4.Bytes.{parse_datagram, serialize_datagram}
use sponge.NetworkInterface.{NetworkInterface, init, send_datagram, recv_frame, tick}
use sponge.Adapter.{FdAdapter, no_error, wrap_tcp_in_ip, unwrap_tcp_in_ip}

-- `TCPOverIPv4OverTunFdAdapter::read`
unfoldable pub tun_read : FdAdapter → List ℕ → FdAdapter × Option TcpSegment
tun_read a bytes =
    let (result, dgram) = parse_datagram default_header bytes in
    if not (no_error result) then (a, none) else unwrap_tcp_in_ip a dgram

-- `TCPOverIPv4OverTunFdAdapter::write`
unfoldable pub tun_write : FdAdapter → TcpSegment → Option (List ℕ × TcpSegment)
tun_write a seg = elim (wrap_tcp_in_ip a seg) [
  | none ↦ none
  | some (dgram, seg') ↦ elim (serialize_datagram dgram) [
    | none ↦ none
    | some bytes ↦ some (bytes, seg')
  ]
]

-- `TCPOverIPv4OverEthernetAdapter`
pub record TapAdapter : Type 0 where
  pub base : FdAdapter
  pub interface : NetworkInterface
  pub next_hop : ℕ

abbrev pub blank_header : EthernetHeader
blank_header = record { dst = replicate 6 0; src = replicate 6 0; type = 0 }

-- The adapter, and the frame that its constructor writes.
unfoldable pub tap_init : FdAdapter → List ℕ → ℕ → ℕ → TapAdapter × List ℕ
tap_init base eth_address ip_address next_hop = (
  record { base = base; interface = init eth_address ip_address; next_hop = next_hop },
  serialize_frame (record { header = blank_header; payload = [] }),
)

abbrev pub all_serialized : List EthernetFrame → List (List ℕ)
all_serialized [] = []
all_serialized (frame ∷ frames) = serialize_frame frame ∷ all_serialized frames

-- The adapter, and the frames that it writes.
abbrev pub send_pending : TapAdapter → TapAdapter × List (List ℕ)
send_pending t = (
  record t { interface = record (t.interface) { frames_out = [] } },
  all_serialized t.interface.frames_out,
)

-- The adapter, the frames that it writes, and the segment, if there is one.
unfoldable pub tap_read :
    TapAdapter → List ℕ → Option (TapAdapter × List (List ℕ) × Option TcpSegment)
tap_read t bytes =
    let (result, frame) = parse_frame blank_header bytes in
    if not (no_error result) then some (t, [], none) else (elim (recv_frame t.interface frame) [
      | none ↦ none
      | some (interface, none) ↦
          let (t', written) = send_pending (record t { interface = interface }) in
          some (t', written, none)
      | some (interface, some dgram) ↦
          let (t', written) = send_pending (record t { interface = interface }) in
          let (base, seg) = unwrap_tcp_in_ip t'.base dgram in
          some (record t' { base = base }, written, seg)
    ])

-- On fuel, as `tick` of the interface.
unfoldable pub tap_tick : ℕ → TapAdapter → ℕ → Option (TapAdapter × List (List ℕ))
tap_tick fuel t ms = elim (tick fuel t.interface ms) [
  | none ↦ none
  | some interface ↦ some (send_pending (record t { interface = interface }))
]

-- The adapter, the frames that it writes, and the segment that the caller is left with.
unfoldable pub tap_write :
    TapAdapter → TcpSegment → Option (TapAdapter × List (List ℕ) × TcpSegment)
tap_write t seg = elim (wrap_tcp_in_ip t.base seg) [
  | none ↦ none
  | some (dgram, seg') ↦ elim (send_datagram t.interface dgram t.next_hop) [
    | none ↦ none
    | some interface ↦
        let (t', written) = send_pending (record t { interface = interface }) in
        some (t', written, seg')
  ]
]
