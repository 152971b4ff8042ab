-- ===== src/NetworkInterface/Runs.antt =====
-- Whatever is done with an interface of libsponge/network_interface.cc.
use sponge.Prelude.{
  ℕ, ◌*◌, ◌≤◌, ◌<◌, ◌≡◌, Option, none, some, List, length, Bool-cases, inl, inr, not, ◌&&◌,
  Option-cases, ◌==◌, subst,
}
use sponge.Arp
use sponge.Arp.{ArpMessage, default_message}
use sponge.Ethernet.{EthernetFrame, ethernet_broadcast, type_arp, type_ipv4}
use sponge.Ipv4.{Ipv4Datagram}
use sponge.NetworkInterface.{
  NetworkInterface, arp_cleanup_interval_ms, init, same_address, send_datagram, recv_arp,
  recv_frame, tick,
}
use sponge.NetworkInterface.Invariant.{IsValid, init-IsValid}
use sponge.NetworkInterface.Keeps.{send_datagram-IsValid, recv_arp-IsValid, tick-IsValid}

-- The interfaces that calls on a new one lead to, with ticks below 5 seconds.
pub data Reachable (mac : List ℕ) (ip : ℕ) : NetworkInterface → Type 0 where
  start : Reachable mac ip (init mac ip)
  send :
      (n n' : NetworkInterface) (dgram : Ipv4Datagram) (hop : ℕ)
      → Reachable mac ip n
      → send_datagram n dgram hop ≡ some n'
      → Reachable mac ip n'
  receive :
      (n n' : NetworkInterface) (frame : EthernetFrame) (dgram : Option Ipv4Datagram)
      → Reachable mac ip n
      → recv_frame n frame ≡ some (n', dgram)
      → Reachable mac ip n'
  wait :
      (n n' : NetworkInterface) (fuel ms : ℕ)
      → Reachable mac ip n
      → ms < arp_cleanup_interval_ms
      → 2 * length n.waiting_arp_response ≤ fuel
      → tick fuel n ms ≡ some n'
      → Reachable mac ip n'

abbrev AllValid : Option (NetworkInterface × Option Ipv4Datagram) → Type 0
AllValid none = Unit {0}
AllValid (some (n, dgram)) = IsValid n

learned-AllValid :
    (n : NetworkInterface) (m : ArpMessage)
    → IsValid n
    → AllValid (elim (recv_arp n m) [ none ↦ none | some n' ↦ some (n', none) ])
learned-AllValid n m v = elim (Option-cases (recv_arp n m)) [
  | inl e ↦ rw e tt
  | inr (n', e) ↦ rw e (recv_arp-IsValid n n' m v e)
]

recv_frame-IsValid :
    (n n' : NetworkInterface) (frame : EthernetFrame) (dgram : Option Ipv4Datagram)
    → IsValid n
    → recv_frame n frame ≡ some (n', dgram)
    → IsValid n'
unfolding recv_frame
recv_frame-IsValid n n' frame dgram v e =
    let message = (Arp.parse default_message frame.payload).1 in
    let elsewhere =
      not (same_address frame.header.dst n.ethernet_address)
      && not (same_address frame.header.dst ethernet_broadcast) in
    let all : AllValid (recv_frame n frame) = elim (Bool-cases elsewhere) [
      | inl h ↦ rw (recv_frame, h) v
      | inr h ↦ elim (Bool-cases (frame.header.type == type_arp)) [
        | inl arp ↦ rw (recv_frame, h, arp) (learned-AllValid n message v)
        | inr other ↦ elim (Bool-cases (frame.header.type == type_ipv4)) [
          | inl ip ↦ rw (recv_frame, h, other, ip) v
          | inr none_of_them ↦ rw (recv_frame, h, other, none_of_them) v
        ]
      ]
    ] in
    subst AllValid e all

-- In every state that calls of send_datagram and recv_frame and ticks below 5000 ms lead to from a
-- new interface, a datagram waits for an address exactly if a request for it is pending, the table
-- does not hold an address that a datagram waits for, both maps are in order, and no request is
-- older than 5 seconds.
pub Reachable-IsValid :
    (mac : List ℕ) (ip : ℕ) (n : NetworkInterface) → Reachable mac ip n → IsValid n
Reachable-IsValid mac ip _ Reachable.start = init-IsValid mac ip
Reachable-IsValid mac ip _ (Reachable.send n n' dgram hop r e) =
    send_datagram-IsValid n n' dgram hop (Reachable-IsValid mac ip n r) e
Reachable-IsValid mac ip _ (Reachable.receive n n' frame dgram r e) =
    recv_frame-IsValid n n' frame dgram (Reachable-IsValid mac ip n r) e
Reachable-IsValid mac ip _ (Reachable.wait n n' fuel ms r p enough e) =
    tick-IsValid fuel ms n n' p enough (Reachable-IsValid mac ip n r) e
