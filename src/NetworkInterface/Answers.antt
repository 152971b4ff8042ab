-- ===== src/NetworkInterface/Answers.antt =====
-- What send_datagram and recv_frame of libsponge/network_interface.cc do with the datagrams that wait.
use mathlib.Core.Option
use sponge.Prelude.{
  ℕ, ◌≡◌, ◌⊎◌, refl, true, false, ◌||◌, none, some, List, [], ◌∷◌, ◌++◌, if◌then◌else◌, Bool-cases,
  Option-cases, inl, inr, sym, ◌∙◌, arith, is_some, append_assoc, append-nil,
}
use sponge.Prelude.Maps.{assign, erase, find}
use sponge.Prelude.Maps.Laws.{find-assign}
use sponge.Ethernet.{EthernetFrame, type_arp, type_ipv4}
use sponge.Arp.{ArpMessage}
use sponge.Ipv4.{Ipv4Datagram}
use sponge.Ipv4.Bytes.{serialize_datagram}
use sponge.NetworkInterface.{
  NetworkInterface, ArpEntry, send_datagram, recv_arp, valid_request, valid_response, arp_bytes,
  arp_reply, frame_to, push_frame, request_frame, send_waiting,
}
use sponge.NetworkInterface.Learning.{others, answered, released, released_lem, send_waiting_lem}
use sponge.NetworkInterface.Invariant.{IsValid, waits}

-- The interface with one more datagram that waits for an address.
abbrev pub queued : NetworkInterface → Ipv4Datagram → ℕ → NetworkInterface
queued n dgram hop =
    let busy = waits hop n.waiting_ip_response in
    record n {
      waiting_ip_response = n.waiting_ip_response ++ ((hop, dgram) ∷ []);
      waiting_arp_response =
          if busy then n.waiting_arp_response else assign hop 0 n.waiting_arp_response;
      frames_out = n.frames_out ++ (if busy then [] else request_frame n hop ∷ []);
    }

-- On a valid interface a datagram goes out at once to the address that the table holds for its next
-- hop, or throws if it does not serialize; if the table holds none it waits behind those that do,
-- and a request is broadcast only if no other datagram waits for that hop.
pub send_datagram_lem :
    (n : NetworkInterface) (dgram : Ipv4Datagram) (hop : ℕ)
    → IsValid n
    → ((entry : ArpEntry) × (find hop n.arp_table ≡ some entry)
        × (send_datagram n dgram hop
            ≡ Option.map
                (λ bytes. push_frame n (frame_to n entry.ethernet_address type_ipv4 bytes))
                (serialize_datagram dgram)))
      ⊎ ((find hop n.arp_table ≡ none) × (send_datagram n dgram hop ≡ some (queued n dgram hop)))
unfolding send_datagram
send_datagram_lem n dgram hop v = elim (Option-cases (find hop n.arp_table)) [
  | inr (entry, known) ↦ inl (
    entry,
    known,
    elim (Option-cases (serialize_datagram dgram)) [
      | inl e ↦ rw (send_datagram, known, e) refl
      | inr (bytes, e) ↦ rw (send_datagram, known, e) refl
    ],
  )
  | inl unknown ↦ inr (
    unknown,
    elim (Option-cases (find hop n.waiting_arp_response)) [
      | inl idle ↦
          let none_waits : waits hop n.waiting_ip_response ≡ false =
            sym (v.asked hop) ∙ rw idle refl in
          rw (send_datagram, unknown, idle, none_waits) refl
      | inr (since, busy) ↦
          let one_waits : waits hop n.waiting_ip_response ≡ true =
            sym (v.asked hop) ∙ rw busy refl in
          rw (send_datagram, unknown, busy, one_waits, append-nil (n.frames_out)) refl
    ],
  )
]

answered-erase :
    (src_ip : ℕ) (waiting : List (ℕ × Ipv4Datagram)) (asked : List (ℕ × ℕ))
    → ((ip : ℕ) → is_some (find ip asked) ≡ waits ip waiting)
    → answered src_ip waiting asked ≡ erase src_ip asked
unfolding erase find
answered-erase src_ip [] [] h = refl
answered-erase src_ip [] ((ip, since) ∷ asked) h = ground (arith, h ip)
answered-erase src_ip (d ∷ waiting) asked h = refl

-- The interface with the address in its table, and without the datagrams that waited for it.
abbrev pub learned : NetworkInterface → ArpMessage → List EthernetFrame → NetworkInterface
learned n m frames = record n {
  arp_table =
      assign m.sender_ip_address
        (record { ethernet_address = m.sender_ethernet_address; last_seen = 0 }) n.arp_table;
  waiting_arp_response = erase m.sender_ip_address n.waiting_arp_response;
  waiting_ip_response = others m.sender_ip_address n.waiting_ip_response;
  frames_out = n.frames_out ++ frames;
}

-- The frame that answers a request for the address of the interface.
abbrev pub replies : NetworkInterface → ArpMessage → List EthernetFrame
replies n m =
    if valid_request n m
    then frame_to n m.sender_ethernet_address type_arp (arp_bytes (arp_reply n m)) ∷ []
    else []

learn_lem :
    (n : NetworkInterface) (m : ArpMessage) (reply : List EthernetFrame)
    → IsValid n
    → send_waiting m.sender_ip_address [] n.waiting_ip_response (record n {
      frames_out = n.frames_out ++ reply;
      arp_table =
          assign m.sender_ip_address
            (record { ethernet_address = m.sender_ethernet_address; last_seen = 0 })
            n.arp_table;
    })
      ≡ Option.map
          (λ frames. learned n m (reply ++ frames))
          (released n m.sender_ethernet_address m.sender_ip_address n.waiting_ip_response)
learn_lem n m reply v =
    let entry : ArpEntry = record { ethernet_address = m.sender_ethernet_address; last_seen = 0 } in
    let table = assign m.sender_ip_address entry n.arp_table in
    let start = record n { arp_table = table; frames_out = n.frames_out ++ reply } in
    let known : find m.sender_ip_address table ≡ some entry =
      rw (find-assign m.sender_ip_address m.sender_ip_address entry n.arp_table) (ground arith) in
    send_waiting_lem start m.sender_ip_address entry [] n.waiting_ip_response (v.sorted) known
    ∙ rw
        (released_lem n table n.waiting_arp_response start.frames_out m.sender_ethernet_address
          m.sender_ip_address n.waiting_ip_response)
        (elim (Option-cases
          (released n m.sender_ethernet_address m.sender_ip_address n.waiting_ip_response)) [
            | inl r ↦ rw r refl
            | inr (frames, r) ↦
                rw
                  (
                    r,
                    answered-erase m.sender_ip_address n.waiting_ip_response n.waiting_arp_response
                        (v.asked),
                    append_assoc (n.frames_out) reply frames,
                  )
                  refl
          ])

-- A valid interface that gets a request for its address or a reply to its own learns the sender's
-- address, forgets the request for it, replies to a request, and then sends the datagrams that wait
-- for that sender, in their order, and keeps the others; if one of them does not serialize it
-- throws; any other message, also a request for another host, changes nothing.
pub recv_arp_lem :
    (n : NetworkInterface) (m : ArpMessage)
    → IsValid n
    → recv_arp n m ≡ (
        if valid_request n m || valid_response n m
        then Option.map
            (λ frames. learned n m (replies n m ++ frames))
            (released n m.sender_ethernet_address m.sender_ip_address n.waiting_ip_response)
        else some n)
unfolding recv_arp
recv_arp_lem n m v = elim (Bool-cases (valid_request n m)) [
  | inl request ↦
      rw (recv_arp, request)
        (learn_lem n m
          (frame_to n m.sender_ethernet_address type_arp (arp_bytes (arp_reply n m)) ∷ []) v)
  | inr idle ↦ elim (Bool-cases (valid_response n m)) [
    | inl response ↦
        rw (recv_arp, idle, response) (rw (append-nil (n.frames_out)) at (learn_lem n m [] v))
    | inr other ↦ rw (recv_arp, idle, other) refl
  ]
]
