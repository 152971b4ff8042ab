-- ===== src/Router/Interfaces.antt =====
-- libsponge/router.hh and router.cc: the interfaces of a router, and the datagrams that they receive.
-- An exception is `none`.
use mathlib.Core.Option
use sponge.Prelude.{ℕ, zero, suc, ◌-◌, Option, none, some, List, [], ◌∷◌, ◌++◌, length, get_elem?}
use sponge.Ethernet.{EthernetFrame}
use sponge.Ipv4.{Ipv4Datagram}
use sponge.NetworkInterface.{NetworkInterface, send_datagram, recv_frame}
use sponge.Router.{RouterEntry, Forward, route_one_datagram}

-- `AsyncNetworkInterface`
pub record AsyncNetworkInterface : Type 0 where
  pub base : NetworkInterface
  pub datagrams_out : List Ipv4Datagram

-- Its `recv_frame` keeps the datagram for its owner.
unfoldable pub async_recv_frame :
    AsyncNetworkInterface → EthernetFrame → Option AsyncNetworkInterface
async_recv_frame a frame = elim (recv_frame a.base frame) [
  | none ↦ none
  | some (base, none) ↦ some (record a { base = base })
  | some (base, some dgram) ↦
      some (record { base = base; datagrams_out = a.datagrams_out ++ (dgram ∷ []) })
]

pub record Router : Type 0 where
  pub interfaces : List AsyncNetworkInterface
  pub router_table : List RouterEntry

-- The router, and the index of the new interface.
abbrev pub add_interface : Router → AsyncNetworkInterface → Router × ℕ
add_interface r a =
    let interfaces = r.interfaces ++ (a ∷ []) in
    (record r { interfaces = interfaces }, length interfaces - 1)

-- A call that changes the interface with a number; `at` throws if there is none.
unfoldable pub at_interface {ℓ} : {A : Type ℓ} → ℕ → (A → Option A) → List A → Option (List A)
at_interface i f [] = none
at_interface zero f (a ∷ rest) = Option.map (λ a'. a' ∷ rest) (f a)
at_interface (suc i) f (a ∷ rest) = Option.map (◌∷◌ a) (at_interface i f rest)

abbrev pub send_on : Forward → AsyncNetworkInterface → Option AsyncNetworkInterface
send_on f a =
    Option.map (λ base. record a { base = base }) (send_datagram a.base f.dgram f.next_hop)

-- The whole of `route_one_datagram`.
unfoldable pub route_one :
    List RouterEntry
    → Ipv4Datagram
    → List AsyncNetworkInterface
    → Option (List AsyncNetworkInterface)
unfolding at_interface
route_one table dgram interfaces = elim (route_one_datagram table dgram) [
  | none ↦ some interfaces
  | some f ↦ at_interface f.interface_num (send_on f) interfaces
]

abbrev pub pop_datagram : AsyncNetworkInterface → Option AsyncNetworkInterface
pop_datagram a = elim (a.datagrams_out) [
  | [] ↦ none
  | dgram ∷ rest ↦ some (record a { datagrams_out = rest })
]

-- The loop over the queue of one interface, which no call in it adds to.
unfoldable pub route_queue :
    List RouterEntry
    → ℕ
    → List Ipv4Datagram
    → List AsyncNetworkInterface
    → Option (List AsyncNetworkInterface)
unfolding route_one at_interface
route_queue table i [] interfaces = some interfaces
route_queue table i (dgram ∷ queue) interfaces = elim (route_one table dgram interfaces) [
  | none ↦ none
  | some sent ↦ elim (at_interface i pop_datagram sent) [
    | none ↦ none
    | some popped ↦ route_queue table i queue popped
  ]
]

-- The loop over the interfaces from a number on.
unfoldable pub route_interfaces :
    List RouterEntry → ℕ → ℕ → List AsyncNetworkInterface → Option (List AsyncNetworkInterface)
unfolding route_queue
route_interfaces table i zero interfaces = some interfaces
route_interfaces table i (suc left) interfaces = elim (get_elem? interfaces i) [
  | none ↦ none
  | some a ↦ elim (route_queue table i a.datagrams_out interfaces) [
    | none ↦ none
    | some routed ↦ route_interfaces table (suc i) left routed
  ]
]

unfoldable pub route : Router → Option Router
unfolding route_interfaces
route r =
    Option.map (λ interfaces. record r { interfaces = interfaces })
      (route_interfaces r.router_table 0 (length r.interfaces) r.interfaces)
