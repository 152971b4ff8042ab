-- ===== src/Examples/Network.antt =====
-- Runs of libsponge/router.cc and of the packet formats.
use sponge.Prelude.{ℕ, ◌<◌, ◌≤◌, ◌≡◌, ◌⊎◌, refl, true, false, none, some, List, [], ◌∷◌, arith}
use sponge.Ipv4.{Ipv4Datagram}
use sponge.Router.{RouterEntry, route_one_datagram}
use sponge.Router.Match.{IsBest, route_one_datagram_lem}
use sponge.Parser.{ParseResult}
use sponge.Ethernet.{EthernetHeader, EthernetFrame, ethernet_broadcast, type_arp}
use sponge.Ethernet.RoundTrip.{IsAddress}
use sponge.Arp
use sponge.Arp.{ArpMessage, default_message}
use sponge.Arp.RoundTrip.{IsMessage, parse-serialize_message}

-- 10.0.0.0/8 by way of a gateway, and 10.1.0.0/16 directly.
abbrev table : List RouterEntry
table =
    record { route_prefix = 167772160; prefix_length = 8; next_hop = some 1; interface_num = 0 }
    ∷ record { route_prefix = 167837696; prefix_length = 16; next_hop = none; interface_num = 1 }
    ∷ []

abbrev dgram : Ipv4Datagram
dgram = record {
  header = record {
    ver = 4;
    hlen = 5;
    tos = 0;
    len = 20;
    id = 0;
    df = true;
    mf = false;
    offset = 0;
    ttl = 64;
    proto = 6;
    cksum = 0;
    src = 1;
    dst = 167837697;
  };
  payload = [];
}

route_one_datagram_lem_example :
    let r = route_one_datagram table dgram in
    ((64 ≤ 1) × (r ≡ none))
    ⊎ (((1 < 64) × IsBest 167837697 table none × (r ≡ none))
        ⊎ ((1 < 64)
            × ((e : RouterEntry) × IsBest 167837697 table (some e)
                × (r
                    ≡ some (record {
                      interface_num = e.interface_num;
                      next_hop = elim e.next_hop [ none ↦ 167837697 | some hop ↦ hop ];
                      dgram = record dgram { header = record (dgram.header) { ttl = 63 } };
                    })))))
route_one_datagram_lem_example =
    route_one_datagram_lem table dgram (omega arith) (omega arith, (omega arith, tt))

abbrev address : List ℕ
address = 2 ∷ 0 ∷ 0 ∷ 0 ∷ 0 ∷ 7 ∷ []

address-IsAddress : IsAddress address
address-IsAddress = omega arith

broadcast-IsAddress : IsAddress ethernet_broadcast
broadcast-IsAddress = omega arith

abbrev frame : EthernetFrame
frame = record {
  header = record { dst = ethernet_broadcast; src = address; type = type_arp };
  payload = 1 ∷ 2 ∷ 3 ∷ [];
}

abbrev old : EthernetHeader
old = record { dst = address; src = address; type = 0 }

abbrev request : ArpMessage
request = record default_message {
  opcode = 1;
  sender_ethernet_address = address;
  sender_ip_address = 167837697;
  target_ip_address = 167837698;
}

request-IsMessage : IsMessage request
request-IsMessage = record {
  opcode = omega arith;
  sender = address-IsAddress;
  sender_ip = omega arith;
  target = omega arith;
  target_ip = omega arith;
}

parse-serialize_message_example :
    (bytes : List ℕ) × (Arp.serialize request ≡ some bytes)
    × (Arp.parse default_message bytes ≡ (ParseResult.no_error, request))
parse-serialize_message_example =
    parse-serialize_message default_message request request-IsMessage refl
