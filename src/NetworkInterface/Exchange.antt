-- ===== src/NetworkInterface/Exchange.antt =====
-- Two interfaces of libsponge/network_interface.cc on one network.
use mathlib.Core.Option
use mathlib.Core.Option.{some-injective}
use sponge.Prelude.{
  length, ◌+◌, ◌*◌, eq_refl, ℕ, ◌≡◌, ◌<◌, refl, Bool, true, false, ◌||◌, none, some, List, [], ◌∷◌,
  ◌++◌, ◌==◌, Bool-cases, and_true, Option-cases, inl, inr, ap, sym, ◌∙◌, subst, arith, IsU32,
}
use sponge.Ethernet.{EthernetFrame, ethernet_broadcast, type_arp, type_ipv4}
use sponge.Ethernet.RoundTrip.{IsAddress}
use sponge.Parser.{ParseResult}
use sponge.Arp
use sponge.Arp.{ArpMessage, supported, default_message, opcode_reply}
use sponge.Arp.RoundTrip.{IsMessage, parse-serialize_message}
use sponge.Ipv4.{Ipv4Header, Ipv4Datagram, default_header}
use sponge.Ipv4.Bytes.{parse_datagram, serialize_datagram}
use sponge.Ipv4.RoundTrip.{IsHeader}
use sponge.Ipv4.Checked.{checked, parse_datagram-serialize_datagram}
use sponge.NetworkInterface.{
  NetworkInterface, same_address, recv_arp, recv_frame, arp_bytes, arp_request, arp_reply, frame_to,
  valid_request, valid_response,
}
use sponge.NetworkInterface.Learning.{released}
use sponge.NetworkInterface.Invariant.{IsValid, waits}
use sponge.NetworkInterface.Answers.{learned, recv_arp_lem}

pub same_address_refl : (a : List ℕ) → same_address a a ≡ true
same_address_refl [] = refl
same_address_refl (x ∷ a) = ground (arith, same_address_refl a)

-- For the interface, or for all.
abbrev pub for_us : NetworkInterface → List ℕ → Bool
for_us n dst = same_address dst n.ethernet_address || same_address dst ethernet_broadcast

arp_bytes_lem :
    (old m : ArpMessage)
    → IsMessage m
    → supported m ≡ true
    → (Arp.serialize m ≡ some (arp_bytes m))
      × (Arp.parse old (arp_bytes m) ≡ (ParseResult.no_error, m))
arp_bytes_lem old m v s =
    let (bytes, written, read) = parse-serialize_message old m v s in
    let same : arp_bytes m ≡ bytes = ap (λ o. elim o [ none ↦ [] | some b ↦ b ]) written in
    (
      written ∙ ap some (sym same),
      subst (λ b. Arp.parse old b ≡ (ParseResult.no_error, m)) (sym same) read,
    )

abbrev pub arp_frame : List ℕ → List ℕ → ArpMessage → EthernetFrame
arp_frame dst src m = record {
  header = record { dst = dst; src = src; type = type_arp };
  payload = arp_bytes m;
}

-- A frame with the bytes of a message is that message to an interface that it is for.
pub recv_frame-message :
    (n : NetworkInterface) (dst src : List ℕ) (m : ArpMessage)
    → IsMessage m
    → supported m ≡ true
    → for_us n dst ≡ true
    → recv_frame n (arp_frame dst src m) ≡ Option.map (λ n'. (n', none)) (recv_arp n m)
unfolding recv_frame
recv_frame-message n dst src m v s h =
    let read = ap (λ r. r.1) ((arp_bytes_lem default_message m v s).1) in
    elim (Bool-cases (same_address dst n.ethernet_address)) [
      | inl own ↦ elim (Option-cases (recv_arp n m)) [
        | inl e ↦ rw (recv_frame, own, read, e) refl
        | inr (n', e) ↦ rw (recv_frame, own, read, e) refl
      ]
      | inr other ↦
          let all : same_address dst ethernet_broadcast ≡ true = rw other at h in
          elim (Option-cases (recv_arp n m)) [
            | inl e ↦ rw (recv_frame, other, all, read, e) refl
            | inr (n', e) ↦ rw (recv_frame, other, all, read, e) refl
          ]
    ]

-- The only datagram for an address is the one behind those for others.
pub released-append :
    (n : NetworkInterface) (mac : List ℕ) (hop : ℕ) (dgram : Ipv4Datagram) (bytes : List ℕ)
    (waiting : List (ℕ × Ipv4Datagram))
    → waits hop waiting ≡ false
    → serialize_datagram dgram ≡ some bytes
    → released n mac hop (waiting ++ ((hop, dgram) ∷ []))
      ≡ some (frame_to n mac type_ipv4 bytes ∷ [])
released-append n mac hop dgram bytes [] h e = rw (eq_refl hop, e) refl
released-append n mac hop dgram bytes ((hop', dgram') ∷ waiting) h e =
    let differs : (hop' == hop) ≡ false = ground arith in
    rw differs (released-append n mac hop dgram bytes waiting (ground arith) e)

pub request-IsMessage :
    (n : NetworkInterface) (target : ℕ)
    → IsAddress n.ethernet_address
    → IsU32 n.ip_address
    → IsU32 target
    → IsMessage (arp_request n target)
request-IsMessage n target mac ip h =
    let z : 0 < 256 = omega arith in
    record {
      opcode = omega arith;
      sender = mac;
      sender_ip = ip;
      target = (refl, (z, (z, (z, (z, (z, (z, tt)))))));
      target_ip = h;
    }

pub reply-IsMessage :
    (n : NetworkInterface) (m : ArpMessage)
    → IsAddress n.ethernet_address
    → IsU32 n.ip_address
    → IsMessage m
    → IsMessage (arp_reply n m)
reply-IsMessage n m mac ip v = record {
  opcode = omega arith;
  sender = mac;
  sender_ip = ip;
  target = v.sender;
  target_ip = v.sender_ip;
}

-- The request brings the reply, and whatever waits for the sender of the request.
pub recv_frame-request :
    (b : NetworkInterface) (src : List ℕ) (m : ArpMessage) (frames : List EthernetFrame)
    → IsValid b
    → IsMessage m
    → supported m ≡ true
    → valid_request b m ≡ true
    → released b m.sender_ethernet_address m.sender_ip_address b.waiting_ip_response ≡ some frames
    → recv_frame b (arp_frame ethernet_broadcast src m)
      ≡ some (
        learned b m
            (arp_frame m.sender_ethernet_address b.ethernet_address (arp_reply b m) ∷ frames),
        none,
      )
recv_frame-request b src m frames v w s h r =
    recv_frame-message b ethernet_broadcast src m w s (ground arith)
    ∙ rw (recv_arp_lem b m v, h, r) refl

-- The reply brings the datagrams that wait for its sender.
pub recv_frame-reply :
    (a : NetworkInterface) (src : List ℕ) (m : ArpMessage) (frames : List EthernetFrame)
    → IsValid a
    → IsMessage m
    → supported m ≡ true
    → valid_request a m ≡ false
    → valid_response a m ≡ true
    → released a m.sender_ethernet_address m.sender_ip_address a.waiting_ip_response ≡ some frames
    → recv_frame a (arp_frame m.target_ethernet_address src m) ≡ some (learned a m frames, none)
recv_frame-reply a src m frames v w s h h' r =
    recv_frame-message a m.target_ethernet_address src m w s (
      rw
        ((and_true (same_address m.target_ethernet_address a.ethernet_address)
          (m.opcode == opcode_reply) h').0)
        refl)
    ∙ rw (recv_arp_lem a m v, h, h', r) refl

-- Whatever header it is read into.
read_datagram :
    (old : Ipv4Header) (d : Ipv4Datagram) (bytes : List ℕ)
    → IsHeader d.header
    → d.header.len ≡ 4 * d.header.hlen + length d.payload
    → serialize_datagram d ≡ some bytes
    → parse_datagram old bytes ≡ (ParseResult.no_error, record d { header = checked d.header })
read_datagram old d bytes v fits e =
    let (bytes', e', read) = parse_datagram-serialize_datagram old d v fits in
    subst
      (λ b. parse_datagram old b ≡ (ParseResult.no_error, record d { header = checked d.header }))
      (some-injective bytes' bytes (sym e' ∙ e)) read

-- A frame with the bytes of a datagram brings the datagram.
pub recv_frame-datagram :
    (n : NetworkInterface) (src : List ℕ) (d : Ipv4Datagram) (bytes : List ℕ)
    → IsHeader d.header
    → d.header.len ≡ 4 * d.header.hlen + length d.payload
    → serialize_datagram d ≡ some bytes
    → recv_frame n (record {
      header = record { dst = n.ethernet_address; src = src; type = type_ipv4 };
      payload = bytes;
    })
      ≡ some (n, some (record d { header = checked d.header }))
unfolding recv_frame
recv_frame-datagram n src d bytes v fits e =
    rw
      (
        recv_frame,
        same_address_refl n.ethernet_address,
        read_datagram default_header d bytes v fits e,
        read_datagram (checked d.header) d bytes v fits e,
      )
      refl
