-- ===== src/NetworkInterface/Learning.antt =====
-- What `recv_frame` of libsponge/network_interface.cc sends when it learns an address.
use mathlib.Core.Option
use sponge.Prelude.{
  ℕ, ◌≡◌, refl, true, false, Option, none, some, List, [], ◌∷◌, ◌++◌, append-nil, append_assoc,
  ◌==◌, if◌then◌else◌, Bool-cases, Option-cases, ==→eq, inl, inr, ap, ◌∙◌,
}
use sponge.Prelude.Maps.{erase, find}
use sponge.Prelude.Maps.Laws.{IsSorted, erase-IsSorted, erase-erase}
use sponge.Ethernet.{EthernetFrame, type_ipv4}
use sponge.Ipv4.{Ipv4Datagram}
use sponge.Ipv4.Bytes.{serialize_datagram}
use sponge.NetworkInterface.{
  NetworkInterface, ArpEntry, frame_to, push_frame, send_datagram, send_waiting,
}

-- The frames for the datagrams that wait for an address, in the order of the list. One that does not
-- serialize is an exception.
abbrev pub released :
    NetworkInterface → List ℕ → ℕ → List (ℕ × Ipv4Datagram) → Option (List EthernetFrame)
released n mac src_ip [] = some []
released n mac src_ip ((hop, dgram) ∷ waiting) =
    let frames = released n mac src_ip waiting in
    if hop == src_ip
    then (elim (serialize_datagram dgram) [
      | none ↦ none
      | some bytes ↦ Option.map (◌∷◌ (frame_to n mac type_ipv4 bytes)) frames
    ])
    else frames

-- The datagrams that wait for other addresses.
abbrev pub others : ℕ → List (ℕ × Ipv4Datagram) → List (ℕ × Ipv4Datagram)
others src_ip [] = []
others src_ip ((hop, dgram) ∷ waiting) =
    let rest = others src_ip waiting in if hop == src_ip then rest else (hop, dgram) ∷ rest

-- Any turn of the loop drops the request.
abbrev pub answered : ℕ → List (ℕ × Ipv4Datagram) → List (ℕ × ℕ) → List (ℕ × ℕ)
answered src_ip [] asked = asked
answered src_ip (d ∷ waiting) asked = erase src_ip asked

-- The interface after the loop.
abbrev pub after :
    NetworkInterface
    → ℕ
    → List (ℕ × Ipv4Datagram)
    → List (ℕ × Ipv4Datagram)
    → List EthernetFrame
    → NetworkInterface
after n src_ip kept waiting frames = record n {
  waiting_arp_response = answered src_ip waiting n.waiting_arp_response;
  waiting_ip_response = kept ++ others src_ip waiting;
  frames_out = n.frames_out ++ frames;
}

pub send-known :
    (n : NetworkInterface) (dgram : Ipv4Datagram) (hop src_ip : ℕ) (entry : ArpEntry)
    → (hop == src_ip) ≡ true
    → find src_ip n.arp_table ≡ some entry
    → send_datagram n dgram hop
      ≡ Option.map
          (λ bytes. push_frame n (frame_to n entry.ethernet_address type_ipv4 bytes))
          (serialize_datagram dgram)
unfolding send_datagram
send-known n dgram hop src_ip entry same known =
    let found : find hop n.arp_table ≡ some entry = rw (==→eq hop src_ip same) known in
    elim (Option-cases (serialize_datagram dgram)) [
      | inl h ↦ rw (send_datagram, found, h) refl
      | inr (bytes, h) ↦ rw (send_datagram, found, h) refl
    ]

-- The frames are those of an interface with the same addresses.
pub released_lem :
    (n : NetworkInterface) (table : List (ℕ × ArpEntry)) (asked : List (ℕ × ℕ))
    (sent : List EthernetFrame) (mac : List ℕ) (src_ip : ℕ) (waiting : List (ℕ × Ipv4Datagram))
    → released
        (record n { arp_table = table; waiting_arp_response = asked; frames_out = sent })
        mac
        src_ip
        waiting
      ≡ released n mac src_ip waiting
released_lem n table asked sent mac src_ip [] = refl
released_lem n table asked sent mac src_ip ((hop, dgram) ∷ waiting) =
    rw (released_lem n table asked sent mac src_ip waiting) refl

answered-erase :
    (src_ip : ℕ) (waiting : List (ℕ × Ipv4Datagram)) (asked : List (ℕ × ℕ))
    → IsSorted asked
    → answered src_ip waiting (erase src_ip asked) ≡ erase src_ip asked
answered-erase src_ip [] asked s = refl
answered-erase src_ip (d ∷ waiting) asked s = erase-erase src_ip asked s

-- One turn of the loop, for another address and for this one.
send_waiting-keep :
    (n : NetworkInterface) (src_ip hop : ℕ) (dgram : Ipv4Datagram)
    (kept waiting : List (ℕ × Ipv4Datagram))
    → (hop == src_ip) ≡ false
    → send_waiting src_ip kept ((hop, dgram) ∷ waiting) n
      ≡ send_waiting src_ip
          (kept ++ ((hop, dgram) ∷ []))
          waiting
          (record n { waiting_arp_response = erase src_ip n.waiting_arp_response })
unfolding send_waiting
send_waiting-keep n src_ip hop dgram kept waiting h = rw (send_waiting, h, h) refl

send_waiting-send :
    (n n' : NetworkInterface) (src_ip hop : ℕ) (dgram : Ipv4Datagram)
    (kept waiting : List (ℕ × Ipv4Datagram))
    → (hop == src_ip) ≡ true
    → send_datagram n dgram hop ≡ some n'
    → send_waiting src_ip kept ((hop, dgram) ∷ waiting) n
      ≡ send_waiting src_ip kept waiting
          (record n' { waiting_arp_response = erase src_ip n'.waiting_arp_response })
unfolding send_waiting
send_waiting-send n n' src_ip hop dgram kept waiting h sent = rw (send_waiting, h, sent, h) refl

after-keep :
    (n : NetworkInterface) (src_ip hop : ℕ) (dgram : Ipv4Datagram)
    (kept waiting : List (ℕ × Ipv4Datagram)) (frames : List EthernetFrame)
    → (hop == src_ip) ≡ false
    → IsSorted n.waiting_arp_response
    → after
        (record n { waiting_arp_response = erase src_ip n.waiting_arp_response })
        src_ip
        (kept ++ ((hop, dgram) ∷ []))
        waiting
        frames
      ≡ after n src_ip kept ((hop, dgram) ∷ waiting) frames
after-keep n src_ip hop dgram kept waiting frames h s =
    rw
      (
        h,
        answered-erase src_ip waiting (n.waiting_arp_response) s,
        append_assoc kept ((hop, dgram) ∷ []) (others src_ip waiting),
      )
      refl

after-send :
    (n : NetworkInterface) (src_ip hop : ℕ) (dgram : Ipv4Datagram)
    (kept waiting : List (ℕ × Ipv4Datagram)) (frame : EthernetFrame) (frames : List EthernetFrame)
    → (hop == src_ip) ≡ true
    → IsSorted n.waiting_arp_response
    → after
        (record n {
          waiting_arp_response = erase src_ip n.waiting_arp_response;
          frames_out = n.frames_out ++ (frame ∷ []);
        })
        src_ip
        kept
        waiting
        frames
      ≡ after n src_ip kept ((hop, dgram) ∷ waiting) (frame ∷ frames)
after-send n src_ip hop dgram kept waiting frame frames h s =
    rw
      (
        h,
        answered-erase src_ip waiting (n.waiting_arp_response) s,
        append_assoc (n.frames_out) (frame ∷ []) frames,
      )
      refl

pub send_waiting_lem :
    (n : NetworkInterface) (src_ip : ℕ) (entry : ArpEntry) (kept waiting : List (ℕ × Ipv4Datagram))
    → IsSorted n.waiting_arp_response
    → find src_ip n.arp_table ≡ some entry
    → send_waiting src_ip kept waiting n
      ≡ Option.map (after n src_ip kept waiting) (released n entry.ethernet_address src_ip waiting)
unfolding send_waiting
send_waiting_lem n src_ip entry kept [] s known =
    rw (append-nil kept, append-nil (n.frames_out)) refl
send_waiting_lem n src_ip entry kept ((hop, dgram) ∷ waiting) s known =
    let asked = erase src_ip n.waiting_arp_response in
    let s' = erase-IsSorted src_ip n.waiting_arp_response s in
    elim (Bool-cases (hop == src_ip)) [
      | inl h ↦ elim (Option-cases (serialize_datagram dgram)) [
        | inl e ↦
            let sent : send_datagram n dgram hop ≡ none =
              rw (send-known n dgram hop src_ip entry h known, e) refl in
            rw (send_waiting, h, sent, e) refl
        | inr (bytes, e) ↦
            let frame = frame_to n entry.ethernet_address type_ipv4 bytes in
            let sent : send_datagram n dgram hop ≡ some (push_frame n frame) =
              rw (send-known n dgram hop src_ip entry h known, e) refl in
            let n' = record n {
              waiting_arp_response = asked;
              frames_out = n.frames_out ++ (frame ∷ []);
            } in
            send_waiting-send n (push_frame n frame) src_ip hop dgram kept waiting h sent
            ∙ send_waiting_lem n' src_ip entry kept waiting s' known
            ∙ (elim (Option-cases (released n entry.ethernet_address src_ip waiting)) [
              | inl r ↦
                  rw
                    (
                      released_lem n (n.arp_table) asked (n'.frames_out) entry.ethernet_address
                          src_ip waiting,
                      h,
                      e,
                      r,
                    )
                    refl
              | inr (frames, r) ↦
                  rw
                    (
                      released_lem n (n.arp_table) asked (n'.frames_out) entry.ethernet_address
                          src_ip waiting,
                      h,
                      e,
                      r,
                    )
                    (ap some (after-send n src_ip hop dgram kept waiting frame frames h s))
            ])
      ]
      | inr h ↦
          let n' = record n { waiting_arp_response = asked } in
          send_waiting-keep n src_ip hop dgram kept waiting h
          ∙ send_waiting_lem n' src_ip entry (kept ++ ((hop, dgram) ∷ [])) waiting s' known
          ∙ (elim (Option-cases (released n entry.ethernet_address src_ip waiting)) [
            | inl r ↦
                rw
                  (
                    released_lem n (n.arp_table) asked (n.frames_out) entry.ethernet_address src_ip
                        waiting,
                    h,
                    r,
                  )
                  refl
            | inr (frames, r) ↦
                rw
                  (
                    released_lem n (n.arp_table) asked (n.frames_out) entry.ethernet_address src_ip
                        waiting,
                    h,
                    r,
                  )
                  (ap some (after-keep n src_ip hop dgram kept waiting frames h s))
          ])
    ]
