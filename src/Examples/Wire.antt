-- ===== src/Examples/Wire.antt =====
-- Runs of the checksum, the packet formats that hold one, and the adapters.
use sponge.Prelude.{
  ◌⊎◌, ℕ, ◌^◌, ◌<◌, ◌≡◌, refl, true, false, none, some, List, [], ◌∷◌, ◌++◌, length, arith,
}
use sponge.Parser.{ParseResult, unparse_int}
use sponge.Checksum.{checksum, add, value}
use sponge.Checksum.Verify.{verify}
use sponge.TcpSegment.{TcpHeader, TcpSegment, default_segment}
use sponge.TcpSegment
use sponge.TcpSegment.Bytes
use sponge.TcpSegment.RoundTrip as TcpRoundTrip
use sponge.TcpSegment.Checked.{parse-serialize_segment}
use sponge.TcpSegment.Checked as TcpChecked
use sponge.Ipv4.{Ipv4Datagram, default_header}
use sponge.Ipv4.Bytes.{parse_datagram, serialize_datagram}
use sponge.Ipv4.RoundTrip as Ipv4RoundTrip
use sponge.Ipv4.Checked as Ipv4Checked
use sponge.Ipv4.Checked.{parse_datagram-serialize_datagram}
use sponge.Buffers.{Buffer, buffer, concatenate, views, list_remove_prefix, view_remove_prefix}
use sponge.Buffers.Bytes.{AllBuffers, Removed, list_remove_prefix_lem}
use sponge.Adapter.{FdAdapter, Address, wrap_tcp_in_ip, unwrap_tcp_in_ip}
use sponge.Adapter.Filter.{IsForUs, unwrap_tcp_in_ip-IsForUs}
use sponge.Adapter.Peers.{IsAddress, delivered}

verify_example :
    let c = value (add (checksum 6) ((1 ∷ 2 ∷ []) ++ (unparse_int 2 0 ++ (3 ∷ [])))) in
    (c < 2 ^ 16) × (value (add (checksum 6) ((1 ∷ 2 ∷ []) ++ (unparse_int 2 c ++ (3 ∷ [])))) ≡ 0)
verify_example = verify 6 (1 ∷ 2 ∷ []) (3 ∷ []) (omega arith) refl (omega arith)

-- The first segment of a connection, with two bytes.
abbrev segment : TcpSegment
segment = record {
  header = record (TcpSegment.default_header) { seqno = 1000; syn = true; win = 64000 };
  payload = 104 ∷ 105 ∷ [];
}

segment-IsHeader : TcpRoundTrip.IsHeader segment.header
segment-IsHeader = record {
  sport = omega arith;
  dport = omega arith;
  seqno = omega arith;
  ackno = omega arith;
  least = omega arith;
  most = omega arith;
  win = omega arith;
  cksum = omega arith;
  uptr = omega arith;
}

parse-serialize_segment_example :
    (bytes : List ℕ) × (Bytes.serialize segment 7 ≡ some bytes)
    × (Bytes.parse default_segment bytes 7
        ≡ (ParseResult.no_error, record segment { header = TcpChecked.checked segment 7 }))
    × (length bytes ≡ 22)
parse-serialize_segment_example =
    parse-serialize_segment default_segment segment 7 segment-IsHeader (omega arith) (omega arith)

abbrev dgram : Ipv4Datagram
dgram = record {
  header = record default_header { len = 23; src = 10; dst = 20 };
  payload = 7 ∷ 8 ∷ 9 ∷ [];
}

dgram-IsHeader : Ipv4RoundTrip.IsHeader dgram.header
dgram-IsHeader = record {
  ver = refl;
  least = omega arith;
  most = omega arith;
  tos = omega arith;
  len = omega arith;
  id = omega arith;
  offset = omega arith;
  ttl = omega arith;
  proto = omega arith;
  cksum = omega arith;
  src = omega arith;
  dst = omega arith;
}

parse_datagram-serialize_datagram_example :
    (bytes : List ℕ) × (serialize_datagram dgram ≡ some bytes)
    × (parse_datagram default_header bytes
        ≡ (ParseResult.no_error, record dgram { header = Ipv4Checked.checked dgram.header }))
parse_datagram-serialize_datagram_example =
    parse_datagram-serialize_datagram default_header dgram dgram-IsHeader refl

abbrev near : Address
near = record { ip = 167772161; port = 4000 }

abbrev far : Address
far = record { ip = 167772162; port = 80 }

abbrev client : FdAdapter
client = record {
  cfg = record { source = near; destination = far; loss_rate_dn = 0; loss_rate_up = 0 };
  listen = false;
}

abbrev server : FdAdapter
server = record {
  cfg = record { source = far; destination = near; loss_rate_dn = 0; loss_rate_up = 0 };
  listen = false;
}

near-IsAddress : IsAddress near
near-IsAddress = record { ip = omega arith; port = omega arith }

far-IsAddress : IsAddress far
far-IsAddress = record { ip = omega arith; port = omega arith }

-- A server that waits for its first segment.
abbrev listener : FdAdapter
listener = record {
  cfg = record {
    source = record { ip = 0; port = 80 };
    destination = record { ip = 0; port = 0 };
    loss_rate_dn = 0;
    loss_rate_up = 0;
  };
  listen = true;
}

abbrev wrapped : Ipv4Datagram
wrapped = elim (wrap_tcp_in_ip client segment) [ none ↦ dgram | some (d, seg) ↦ d ]

unwrap_tcp_in_ip-IsForUs_example : IsForUs listener server wrapped (delivered client segment)
unfolding wrap_tcp_in_ip unwrap_tcp_in_ip Bytes.serialize sponge.TcpSegment.Header.serialize
    Bytes.parse value add sponge.TcpSegment.Header.serialize_fields unparse_int
    sponge.TcpSegment.Header.parse sponge.TcpSegment.Header.parse_fields sponge.Parser.parse_int
    sponge.Parser.remove_prefix
unwrap_tcp_in_ip-IsForUs_example =
    unwrap_tcp_in_ip-IsForUs listener server wrapped (delivered client segment) refl

-- Three buffers, the second of them empty.
abbrev parts : List Buffer
parts =
    buffer (1 ∷ 2 ∷ 3 ∷ [])
    ∷ buffer []
    ∷ record { storage = some (4 ∷ 5 ∷ 6 ∷ []); starting_offset = 1 }
    ∷ []

parts-AllBuffers : AllBuffers parts
parts-AllBuffers =
    ((omega arith, omega arith), ((omega arith, omega arith), ((omega arith, omega arith), tt)))

list_remove_prefix_lem_example :
    ((length (concatenate parts) < 4)
      × (list_remove_prefix parts 4 ≡ none)
      × (view_remove_prefix (views parts) 4 ≡ none))
    ⊎ ((bs' : List Buffer) × Removed parts 4 bs')
list_remove_prefix_lem_example = list_remove_prefix_lem parts 4 parts-AllBuffers
