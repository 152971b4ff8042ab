-- ===== src/NetworkInterface/Keeps.antt =====
-- The operations of libsponge/network_interface.cc keep the invariant.

use sponge.Prelude.{
  ℕ, ◌*◌, ◌≤◌, ◌<◌, ◌≡◌, refl, true, false, ◌||◌, none, some, List, [], ◌∷◌, ◌++◌, length, ◌==◌,
  Bool-cases, ==→eq, inl, inr, sym, ◌∙◌, arith, some_elim, map-some_elim,
}
use sponge.Prelude.Maps.{find}
use sponge.Prelude.Maps.Laws.{find-assign, find-erase, assign-IsSorted, erase-IsSorted}
use sponge.Ethernet.{EthernetFrame, type_ipv4}
use sponge.Arp.{ArpMessage}
use sponge.Ipv4.{Ipv4Datagram}
use sponge.Ipv4.Bytes.{serialize_datagram}
use sponge.NetworkInterface.{
  NetworkInterface, push_frame, frame_to, send_datagram, recv_arp, tick, valid_request,
  valid_response, arp_cleanup_interval_ms,
}
use sponge.NetworkInterface.Resend.{tick_lem}
use sponge.NetworkInterface.Learning.{released}
use sponge.NetworkInterface.Invariant.{
  IsValid, waits, waits-append, waits-others, assign-AllFresh, erase-AllFresh, aged_all-AllFresh,
  find-aged_all, aged_all-IsSorted, find-expire_entries, expire_entries-IsSorted,
}
use sponge.NetworkInterface.Answers.{queued, learned, replies, send_datagram_lem, recv_arp_lem}

-- Frames do not matter.
frames_out-IsValid :
    (n : NetworkInterface) (frames : List EthernetFrame)
    → IsValid n
    → IsValid (record n { frames_out = frames })
frames_out-IsValid n frames v = record {
  table = v.table;
  sorted = v.sorted;
  fresh = v.fresh;
  asked = v.asked;
  unknown = v.unknown;
}

queued-unknown :
    (n : NetworkInterface) (dgram : Ipv4Datagram) (hop ip : ℕ)
    → IsValid n
    → find hop n.arp_table ≡ none
    → waits ip (n.waiting_ip_response ++ ((hop, dgram) ∷ [])) ≡ true
    → find ip n.arp_table ≡ none
queued-unknown n dgram hop ip v h e =
    let e' : (ip == hop || waits ip n.waiting_ip_response) ≡ true =
      sym (waits-append ip hop dgram n.waiting_ip_response) ∙ e in
    elim (Bool-cases (ip == hop)) [
      | inl same ↦ rw (==→eq ip hop same) h
      | inr other ↦ v.unknown ip (rw other at e')
    ]

pub queued-IsValid :
    (n : NetworkInterface) (dgram : Ipv4Datagram) (hop : ℕ)
    → IsValid n
    → find hop n.arp_table ≡ none
    → IsValid (queued n dgram hop)
queued-IsValid n dgram hop v h = elim (Bool-cases (waits hop n.waiting_ip_response)) [
  | inl busy ↦ record {
    table = v.table;
    sorted = rw busy (v.sorted);
    fresh = rw busy (v.fresh);
    asked = λ ip.
        rw (busy, waits-append ip hop dgram n.waiting_ip_response, v.asked ip)
          (elim (Bool-cases (ip == hop)) [
            | inl same ↦ rw (same, ==→eq ip hop same) busy
            | inr other ↦ rw other refl
          ]);
    unknown = λ ip. queued-unknown n dgram hop ip v h;
  }
  | inr idle ↦ record {
    table = v.table;
    sorted = rw idle (assign-IsSorted hop 0 n.waiting_arp_response (v.sorted));
    fresh = rw idle (assign-AllFresh hop n.waiting_arp_response (v.fresh));
    asked = λ ip.
        rw
          (
            idle,
            waits-append ip hop dgram n.waiting_ip_response,
            find-assign ip hop 0 n.waiting_arp_response,
          )
          (elim (Bool-cases (ip == hop)) [
            | inl same ↦ rw same refl
            | inr other ↦ rw other (v.asked ip)
          ]);
    unknown = λ ip. queued-unknown n dgram hop ip v h;
  }
]

pub send_datagram-IsValid :
    (n n' : NetworkInterface) (dgram : Ipv4Datagram) (hop : ℕ)
    → IsValid n
    → send_datagram n dgram hop ≡ some n'
    → IsValid n'
send_datagram-IsValid n n' dgram hop v e = elim (send_datagram_lem n dgram hop v) [
  | inl (entry, known, sent) ↦
      map-some_elim IsValid
        (λ bytes. push_frame n (frame_to n entry.ethernet_address type_ipv4 bytes))
        (serialize_datagram dgram) n' (λ bytes. frames_out-IsValid n _ v) (sym sent ∙ e)
  | inr (unknown, sent) ↦ some_elim IsValid _ _ n' sent (queued-IsValid n dgram hop v unknown) e
]

learned-IsValid :
    (n : NetworkInterface) (m : ArpMessage) (frames : List EthernetFrame)
    → IsValid n
    → IsValid (learned n m frames)
learned-IsValid n m frames v =
    let src_ip = m.sender_ip_address in
    record {
      table =
          assign-IsSorted src_ip
            (record { ethernet_address = m.sender_ethernet_address; last_seen = 0 }) n.arp_table
            (v.table);
      sorted = erase-IsSorted src_ip n.waiting_arp_response (v.sorted);
      fresh = erase-AllFresh src_ip n.waiting_arp_response (v.fresh);
      asked = λ ip.
          rw
            (
              find-erase ip src_ip n.waiting_arp_response (v.sorted),
              waits-others ip src_ip n.waiting_ip_response,
            )
            (elim (Bool-cases (ip == src_ip)) [
              | inl same ↦ rw same refl
              | inr other ↦ rw other (v.asked ip)
            ]);
      unknown = λ ip e.
          rw
            (find-assign ip src_ip
              (record { ethernet_address = m.sender_ethernet_address; last_seen = 0 }) n.arp_table)
            (elim (Bool-cases (ip == src_ip)) [
              | inl same ↦
                  let no : false ≡ true =
                    rw (waits-others ip src_ip n.waiting_ip_response, same) at e in
                  ground arith
              | inr other ↦
                  rw other
                    (v.unknown ip (rw (waits-others ip src_ip n.waiting_ip_response, other) at e))
            ]);
    }

pub recv_arp-IsValid :
    (n n' : NetworkInterface) (m : ArpMessage) → IsValid n → recv_arp n m ≡ some n' → IsValid n'
recv_arp-IsValid n n' m v e = elim (Bool-cases (valid_request n m || valid_response n m)) [
  | inl known ↦
      map-some_elim IsValid (λ frames. learned n m (replies n m ++ frames))
        (released n m.sender_ethernet_address m.sender_ip_address n.waiting_ip_response) n'
        (λ frames. learned-IsValid n m (replies n m ++ frames) v)
        (sym (rw known at (recv_arp_lem n m v)) ∙ e)
  | inr other ↦ some_elim IsValid _ n n' (rw other at (recv_arp_lem n m v)) v e
]

pub tick-IsValid :
    (fuel ms : ℕ) (n n' : NetworkInterface)
    → ms < arp_cleanup_interval_ms
    → 2 * length (n.waiting_arp_response) ≤ fuel
    → IsValid n
    → tick fuel n ms ≡ some n'
    → IsValid n'
tick-IsValid fuel ms n n' p enough v e =
    some_elim IsValid _ _ n' (tick_lem fuel ms n p (v.fresh) enough)
      (record {
        table = expire_entries-IsSorted ms n.arp_table (v.table);
        sorted = aged_all-IsSorted ms n.waiting_arp_response (v.sorted);
        fresh = aged_all-AllFresh ms n.waiting_arp_response p (v.fresh);
        asked = λ ip. find-aged_all ip ms n.waiting_arp_response ∙ v.asked ip;
        unknown = λ ip w. find-expire_entries ip ms n.arp_table (v.unknown ip w);
      })
      e
