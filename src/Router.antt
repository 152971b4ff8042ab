-- ===== src/Router.antt =====
-- The routing of libsponge/router.hh and router.cc: the table, and where a datagram goes. What the
-- outgoing interface does with it is in Interfaces.
pub mod Mask
pub mod Match
pub mod Interfaces
pub mod Delivered
pub mod Route
use Prim.Native.Nat.{bit_and}
use sponge.Prelude.{
  ℕ, ◌-◌, ◌*◌, ◌%◌, ◌^◌, Bool, true, false, ◌&&◌, ◌||◌, Option, none, some, List, [], ◌∷◌, ◌++◌,
  ltb, leb, ◌==◌, sub64, if◌then◌else◌,
}
use sponge.Ipv4.{Ipv4Datagram}

pub record RouterEntry : Type 0 where
  pub route_prefix : ℕ
  pub prefix_length : ℕ
  pub next_hop : Option ℕ
  pub interface_num : ℕ

abbrev pub add_route : List RouterEntry → ℕ → ℕ → Option ℕ → ℕ → List RouterEntry
add_route table route_prefix prefix_length next_hop interface_num =
    table
    ++ (record {
      route_prefix = route_prefix;
      prefix_length = prefix_length;
      next_hop = next_hop;
      interface_num = interface_num;
    }
        ∷ [])

unfoldable pub mask : ℕ → ℕ
mask prefix_length =
    if prefix_length == 0 then 0 else (0xFFFFFFFF * 2 ^ (32 - prefix_length) % 2 ^ 32)

-- Whether the loop considers an entry at all, and whether it fits the destination.
unfoldable pub fits : ℕ → RouterEntry → Bool
unfolding mask
fits dest e =
    leb e.prefix_length 32
    && (bit_and dest (mask e.prefix_length) == bit_and e.route_prefix (mask e.prefix_length))

abbrev pub longer : RouterEntry → Option RouterEntry → Bool
longer e none = true
longer e (some best) = ltb best.prefix_length e.prefix_length

-- The loop over the table, with `max_matched_entry`.
unfoldable pub scan : ℕ → Option RouterEntry → List RouterEntry → Option RouterEntry
unfolding fits
scan dest best [] = best
scan dest best (e ∷ table) =
    scan dest (if fits dest e then (if longer e best then some e else best) else best) table

-- A call of `send_datagram` on the interface with that number.
pub record Forward : Type 0 where
  pub interface_num : ℕ
  pub next_hop : ℕ
  pub dgram : Ipv4Datagram

abbrev forward : Ipv4Datagram → RouterEntry → Forward
forward dgram e = record {
  interface_num = e.interface_num;
  next_hop = elim e.next_hop [ none ↦ dgram.header.dst | some hop ↦ hop ];
  dgram = dgram;
}

-- `route_one_datagram`: the datagram is dropped, or sent on.
unfoldable pub route_one_datagram : List RouterEntry → Ipv4Datagram → Option Forward
unfolding scan
route_one_datagram table dgram =
    let aged = record dgram { header = record (dgram.header) { ttl = dgram.header.ttl - 1 } } in
    if dgram.header.ttl == 0 || aged.header.ttl == 0
    then none
    else (elim (scan dgram.header.dst none table) [ none ↦ none | some e ↦ some (forward aged e) ])
