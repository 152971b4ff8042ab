-- ===== src/Examples/Interfaces.antt =====
-- Runs of libsponge/network_interface.cc.
use mathlib.Core.Option
use sponge.Prelude.{ℕ, ◌≡◌, ◌⊎◌, refl, ◌||◌, none, some, List, [], ◌∷◌, ◌++◌, arith, if◌then◌else◌}
use sponge.Prelude.Maps.{assign, find}
use sponge.Ethernet.{EthernetFrame, type_ipv4}
use sponge.Ethernet.RoundTrip.{IsAddress}
use sponge.Arp.{ArpMessage}
use sponge.Ipv4.{Ipv4Datagram, default_header}
use sponge.Ipv4.Bytes.{serialize, serialize_datagram}
use sponge.Ipv4.RoundTrip.{IsHeader}
use sponge.Ipv4.Checked.{checked}
use sponge.NetworkInterface.{
  NetworkInterface, ArpEntry, init, send_datagram, recv_arp, recv_frame, tick, expire_entries,
  request_frame, frame_to, push_frame, arp_reply, arp_request, valid_request, valid_response,
}
use sponge.NetworkInterface.Resend.{aged_all, due_requests, tick_lem, tick-stuck}
use sponge.NetworkInterface.Learning.{released}
use sponge.NetworkInterface.Invariant.{IsValid, init-IsValid}
use sponge.NetworkInterface.Answers.{queued, learned, replies, send_datagram_lem, recv_arp_lem}
use sponge.NetworkInterface.Keeps.{queued-IsValid}
use sponge.NetworkInterface.Runs.{Reachable, Reachable-IsValid}
use sponge.NetworkInterface.Resolve.{reply_frame, resolve}
use sponge.Router.{route_one_datagram}
use sponge.Router.Interfaces.{AsyncNetworkInterface, Router, route}
use sponge.Router.Delivered.{bases, queues, deliver_all}
use sponge.Router.Route.{route_lem}
use sponge.NetworkInterface.Lifetime.{entry_after, tick_all, tick_all_lem}

abbrev mac_a : List ℕ
mac_a = 2 ∷ 0 ∷ 0 ∷ 0 ∷ 0 ∷ 1 ∷ []

abbrev mac_b : List ℕ
mac_b = 2 ∷ 0 ∷ 0 ∷ 0 ∷ 0 ∷ 2 ∷ []

abbrev host_a : NetworkInterface
host_a = init mac_a 10

abbrev host_b : NetworkInterface
host_b = init mac_b 20

abbrev dgram : Ipv4Datagram
dgram = record { header = record default_header { len = 21; src = 10; dst = 20 }; payload = 7 ∷ [] }

-- A host that has asked for another, with a datagram behind the request.
abbrev waiting_a : NetworkInterface
waiting_a = queued host_a dgram 20

waiting_a-IsValid : IsValid waiting_a
unfolding init find
waiting_a-IsValid = queued-IsValid host_a dgram 20 (init-IsValid mac_a 10) refl

tick_lem_example :
    tick 2 waiting_a 4000
    ≡ some (record waiting_a {
      arp_table = expire_entries 4000 waiting_a.arp_table;
      waiting_arp_response = aged_all 4000 waiting_a.waiting_arp_response;
      frames_out =
          waiting_a.frames_out ++ due_requests waiting_a 4000 waiting_a.waiting_arp_response;
    })
unfolding init assign
tick_lem_example = tick_lem 2 4000 waiting_a (omega arith) (waiting_a-IsValid.fresh) (omega arith)

tick-stuck_example : tick 100 waiting_a 5000 ≡ none
unfolding init assign
tick-stuck_example = tick-stuck 100 5000 20 0 [] waiting_a refl (omega arith) (omega arith)

Reachable-IsValid_example : IsValid waiting_a
unfolding init send_datagram find assign
Reachable-IsValid_example =
    Reachable-IsValid mac_a 10 waiting_a
      (Reachable.send host_a waiting_a dgram 20 Reachable.start refl)

send_datagram_lem_example :
    ((entry : ArpEntry) × (find 20 waiting_a.arp_table ≡ some entry)
      × (send_datagram waiting_a dgram 20
          ≡ Option.map
              (λ bytes.
                push_frame waiting_a (frame_to waiting_a entry.ethernet_address type_ipv4 bytes))
              (serialize_datagram dgram)))
    ⊎ ((find 20 waiting_a.arp_table ≡ none)
        × (send_datagram waiting_a dgram 20 ≡ some (queued waiting_a dgram 20)))
send_datagram_lem_example = send_datagram_lem waiting_a dgram 20 waiting_a-IsValid

abbrev reply : ArpMessage
reply = arp_reply host_b (arp_request host_a 20)

recv_arp_lem_example : recv_arp waiting_a reply ≡ (
    if valid_request waiting_a reply || valid_response waiting_a reply
    then Option.map
        (λ frames. learned waiting_a reply (replies waiting_a reply ++ frames))
        (released waiting_a reply.sender_ethernet_address reply.sender_ip_address
          waiting_a.waiting_ip_response)
    else some waiting_a)
recv_arp_lem_example = recv_arp_lem waiting_a reply waiting_a-IsValid

abbrev dgram_bytes : List ℕ
dgram_bytes = elim (serialize_datagram dgram) [ none ↦ [] | some bytes ↦ bytes ]

dgram-serialize : serialize_datagram dgram ≡ some dgram_bytes
unfolding serialize_datagram serialize
dgram-serialize = refl

-- An interface that has known another for 20 seconds.
abbrev known_entry : ArpEntry
known_entry = record { ethernet_address = mac_b; last_seen = 20000 }

abbrev knowing_a : NetworkInterface
knowing_a = record host_a { arp_table = (20, known_entry) ∷ [] }

knowing_a-IsValid : IsValid knowing_a
unfolding init find
knowing_a-IsValid = record {
  table = tt;
  sorted = tt;
  fresh = tt;
  asked = λ ip. refl;
  unknown = λ ip h. ground arith;
}

tick_all_lem_example :
    (n' : NetworkInterface) × (tick_all 0 (4000 ∷ 4999 ∷ 2000 ∷ []) knowing_a ≡ some n')
    × (find 20 n'.arp_table ≡ entry_after known_entry 10999)
unfolding init find
tick_all_lem_example =
    tick_all_lem 0 (4000 ∷ 4999 ∷ 2000 ∷ []) knowing_a 20 known_entry knowing_a-IsValid
      (omega arith, (omega arith, (omega arith, tt))) (omega arith) refl (omega arith)

dgram-IsHeader : IsHeader dgram.header
dgram-IsHeader = record {
  ver = refl;
  least = omega arith;
  most = omega arith;
  tos = omega arith;
  len = omega arith;
  id = omega arith;
  offset = omega arith;
  ttl = omega arith;
  proto = omega arith;
  cksum = omega arith;
  src = omega arith;
  dst = omega arith;
}

resolve_example :
    (a1 : NetworkInterface) × (b1 : NetworkInterface) × (a2 : NetworkInterface) × (send_datagram
        host_a dgram 20
      ≡ some a1)
    × (a1.frames_out ≡ request_frame host_a 20 ∷ [])
    × (recv_frame host_b (request_frame host_a 20) ≡ some (b1, none))
    × (b1.frames_out ≡ reply_frame host_a host_b ∷ [])
    × (recv_frame a1 (reply_frame host_a host_b) ≡ some (a2, none))
    × (a2.frames_out ≡ a1.frames_out ++ (frame_to host_a mac_b type_ipv4 dgram_bytes ∷ []))
    × (recv_frame b1 (frame_to host_a mac_b type_ipv4 dgram_bytes)
        ≡ some (b1, some (record dgram { header = checked dgram.header })))
unfolding init find
resolve_example =
    let address_a : IsAddress mac_a = omega arith in
    let address_b : IsAddress mac_b = omega arith in
    resolve host_a host_b dgram dgram_bytes [] (init-IsValid mac_a 10) (init-IsValid mac_b 20)
      address_a address_b (omega arith) (omega arith) refl refl dgram-IsHeader refl dgram-serialize
      refl

-- A router between two networks, with a datagram for the second on its first interface.
abbrev router : Router
router = record {
  interfaces =
      record { base = host_a; datagrams_out = dgram ∷ [] }
      ∷ record { base = host_b; datagrams_out = [] }
      ∷ [];
  router_table =
      record { route_prefix = 20; prefix_length = 32; next_hop = none; interface_num = 1 } ∷ [];
}

route_lem_example :
    ((route router ≡ none)
      × (deliver_all router.router_table (dgram ∷ []) (host_a ∷ host_b ∷ []) ≡ none))
    ⊎ ((r' : Router) × (route router ≡ some r')
        × (deliver_all router.router_table (dgram ∷ []) (host_a ∷ host_b ∷ [])
            ≡ some (bases r'.interfaces))
        × (r'.router_table ≡ router.router_table)
        × (queues r'.interfaces ≡ [] ∷ [] ∷ []))
route_lem_example = route_lem router

abbrev frames_of : List AsyncNetworkInterface → List (List EthernetFrame)
frames_of [] = []
frames_of (a ∷ rest) = a.base.frames_out ∷ frames_of rest

-- The datagram leaves the second interface with a request for its destination.
route_runs :
    elim (route router) [ none ↦ [] | some r ↦ frames_of r.interfaces ]
    ≡ [] ∷ (request_frame host_b 20 ∷ []) ∷ []
unfolding route init route_one_datagram send_datagram find
route_runs = refl
