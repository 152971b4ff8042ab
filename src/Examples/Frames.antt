-- ===== src/Examples/Frames.antt =====
-- Runs of the Ethernet adapters.
use sponge.Prelude.{ℕ, ◌≡◌, refl, true, false, some, List, [], ◌∷◌, arith}
use sponge.TcpSegment.{TcpSegment, default_header}
use sponge.TcpSegment.RoundTrip as TcpRoundTrip
use sponge.Prelude.Maps.{find}
use sponge.Adapter.{Address, with_ports}
use sponge.Adapter.Peers.{delivered}
use sponge.Adapter.Tap.{TapAdapter, tap_read, tap_write}
use sponge.Adapter.Delivery.{tap_read-tap_write}

abbrev near : Address
near = record { ip = 167772161; port = 4000 }

abbrev far : Address
far = record { ip = 167772162; port = 80 }

abbrev mac_near : List ℕ
mac_near = 2 ∷ 0 ∷ 0 ∷ 0 ∷ 0 ∷ 1 ∷ []

abbrev mac_far : List ℕ
mac_far = 2 ∷ 0 ∷ 0 ∷ 0 ∷ 0 ∷ 2 ∷ []

-- An end of a connection, on a network where it knows the other one.
abbrev end_of : Address → Address → List ℕ → List ℕ → TapAdapter
end_of own other mac mac_other = record {
  base = record {
    cfg = record { source = own; destination = other; loss_rate_dn = 0; loss_rate_up = 0 };
    listen = false;
  };
  interface = record {
    arp_table = (other.ip, record { ethernet_address = mac_other; last_seen = 10 }) ∷ [];
    waiting_arp_response = [];
    waiting_ip_response = [];
    ethernet_address = mac;
    ip_address = own.ip;
    frames_out = [];
  };
  next_hop = other.ip;
}

abbrev client : TapAdapter
client = end_of near far mac_near mac_far

abbrev server : TapAdapter
server = end_of far near mac_far mac_near

abbrev segment : TcpSegment
segment = record {
  header = record default_header { seqno = 1000; syn = true; win = 64000 };
  payload = 104 ∷ 105 ∷ [];
}

segment-IsHeader : TcpRoundTrip.IsHeader segment.header
segment-IsHeader = record {
  sport = omega arith;
  dport = omega arith;
  seqno = omega arith;
  ackno = omega arith;
  least = omega arith;
  most = omega arith;
  win = omega arith;
  cksum = omega arith;
  uptr = omega arith;
}

tap_read-tap_write_example :
    (bytes : List ℕ) × (tap_write client segment
      ≡ some (client, bytes ∷ [], with_ports client.base segment))
    × (tap_read server bytes ≡ some (server, [], some (delivered client.base segment)))
unfolding find
tap_read-tap_write_example =
    tap_read-tap_write client server (record { ethernet_address = mac_far; last_seen = 10 }) segment
      (record { ip = omega arith; port = omega arith })
      (record { ip = omega arith; port = omega arith }) refl refl refl (omega arith) (omega arith)
      refl refl refl refl segment-IsHeader (omega arith)
