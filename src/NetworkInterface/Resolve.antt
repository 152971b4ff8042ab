-- ===== src/NetworkInterface/Resolve.antt =====
-- An exchange of a request and its reply between two interfaces of libsponge/network_interface.cc.
use mathlib.Core.Option.{none-ne-some}
use sponge.Prelude.{
  ◌+◌, ◌*◌, length, eq_refl, ℕ, ◌≡◌, refl, false, none, some, List, [], ◌∷◌, ◌++◌, inl, inr, sym,
  ◌∙◌, IsU32,
}
use sponge.Prelude.Maps.{find}
use sponge.Ethernet.{EthernetFrame, type_ipv4}
use sponge.Ethernet.RoundTrip.{IsAddress}
use sponge.Ipv4.{Ipv4Datagram}
use sponge.Ipv4.Bytes.{serialize_datagram}
use sponge.Ipv4.RoundTrip.{IsHeader}
use sponge.Ipv4.Checked.{checked}
use sponge.NetworkInterface.{
  NetworkInterface, send_datagram, recv_frame, arp_request, arp_reply, request_frame, frame_to,
}
use sponge.NetworkInterface.Learning.{released}
use sponge.NetworkInterface.Invariant.{IsValid, waits}
use sponge.NetworkInterface.Answers.{queued, learned, send_datagram_lem}
use sponge.NetworkInterface.Keeps.{queued-IsValid}
use sponge.NetworkInterface.Exchange.{
  arp_frame, same_address_refl, released-append, request-IsMessage, reply-IsMessage,
  recv_frame-request, recv_frame-reply, recv_frame-datagram,
}

abbrev pub reply_frame : NetworkInterface → NetworkInterface → EthernetFrame
reply_frame a b =
    arp_frame a.ethernet_address b.ethernet_address (arp_reply b (arp_request a b.ip_address))

send_first :
    (a : NetworkInterface) (dgram : Ipv4Datagram) (hop : ℕ)
    → IsValid a
    → find hop a.arp_table ≡ none
    → send_datagram a dgram hop ≡ some (queued a dgram hop)
send_first a dgram hop v unknown = elim (send_datagram_lem a dgram hop v) [
  | inl (entry, known, _) ↦ absurd (none-ne-some entry (sym unknown ∙ known))
  | inr (_, sent) ↦ sent
]

-- Two valid interfaces with 48-bit and 32-bit addresses, and a datagram of version 4 with its
-- fields and lengths in range: the first, which does not know the second and for which nothing
-- waits, brings out one request when it is to send it there; the second answers it, ahead of
-- what waits there for the first and serializes; that answer makes the first send the datagram
-- to the second's Ethernet address; and the second takes it out of that frame with its checksum
-- filled in.
pub resolve :
    (a b : NetworkInterface) (dgram : Ipv4Datagram) (bytes : List ℕ) (frames : List EthernetFrame)
    → IsValid a
    → IsValid b
    → IsAddress a.ethernet_address
    → IsAddress b.ethernet_address
    → IsU32 a.ip_address
    → IsU32 b.ip_address
    → find b.ip_address a.arp_table ≡ none
    → waits b.ip_address a.waiting_ip_response ≡ false
    → IsHeader dgram.header
    → dgram.header.len ≡ 4 * dgram.header.hlen + length dgram.payload
    → serialize_datagram dgram ≡ some bytes
    → released b a.ethernet_address a.ip_address b.waiting_ip_response ≡ some frames
    → (a1 : NetworkInterface) × (b1 : NetworkInterface) × (a2 : NetworkInterface) × (send_datagram a
          dgram b.ip_address
        ≡ some a1)
      × (a1.frames_out ≡ a.frames_out ++ (request_frame a b.ip_address ∷ []))
      × (recv_frame b (request_frame a b.ip_address) ≡ some (b1, none))
      × (b1.frames_out ≡ b.frames_out ++ (reply_frame a b ∷ frames))
      × (recv_frame a1 (reply_frame a b) ≡ some (a2, none))
      × (a2.frames_out ≡ a1.frames_out ++ (frame_to a b.ethernet_address type_ipv4 bytes ∷ []))
      × (recv_frame b1 (frame_to a b.ethernet_address type_ipv4 bytes)
          ≡ some (b1, some (record dgram { header = checked dgram.header })))
resolve a b dgram bytes frames va vb ma mb ia ib unknown idle w fits e r =
    let request = arp_request a b.ip_address in
    let asked = request-IsMessage a b.ip_address ma ia ib in
    let a1 = queued a dgram b.ip_address in
    let b1 = learned b request (reply_frame a b ∷ frames) in
    let a1_valid = queued-IsValid a dgram b.ip_address va unknown in
    (
      a1,
      b1,
      learned a1 (arp_reply b request) (frame_to a b.ethernet_address type_ipv4 bytes ∷ []),
      send_first a dgram b.ip_address va unknown,
      rw idle refl,
      recv_frame-request b a.ethernet_address request frames vb asked refl
          (rw (eq_refl b.ip_address) refl) r,
      refl,
      recv_frame-reply a1 b.ethernet_address (arp_reply b request) _ a1_valid
          (reply-IsMessage b request mb ib asked) refl (rw (eq_refl a.ip_address) refl)
          (rw (same_address_refl a.ethernet_address) refl)
          (released-append a1 b.ethernet_address b.ip_address dgram bytes a.waiting_ip_response idle
            e),
      refl,
      recv_frame-datagram b1 a.ethernet_address dgram bytes w fits e,
    )
