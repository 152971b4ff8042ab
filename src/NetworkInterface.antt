-- ===== src/NetworkInterface.antt =====
-- libsponge/network_interface.hh and network_interface.cc. An `Address` is the number that
-- `ipv4_numeric()` gives. An exception is `none`.
pub mod Resend
pub mod Learning
pub mod Invariant
pub mod Answers
pub mod Keeps
pub mod Exchange
pub mod Resolve
pub mod Runs
pub mod Lifetime
use sponge.Prelude.{
  ℕ, zero, suc, Bool, true, false, not, ◌&&◌, ◌||◌, Option, none, some, List, [], ◌∷◌, ◌++◌, add64,
  leb, ◌==◌, if◌then◌else◌, replicate,
}
use sponge.Prelude.Maps.{assign, erase, find}
use sponge.Parser.{ParseResult}
use sponge.Ethernet.{EthernetFrame, ethernet_broadcast, type_ipv4, type_arp}
use sponge.Arp
use sponge.Arp.{ArpMessage, default_message, opcode_request, opcode_reply}
use sponge.Ipv4.{Ipv4Datagram, default_header}
use sponge.Ipv4.Bytes.{parse_datagram, serialize_datagram}

-- `ARPEntry`
pub record ArpEntry : Type 0 where
  pub ethernet_address : List ℕ
  pub last_seen : ℕ

-- `ARP_TIMEOUT_MS`
abbrev pub arp_timeout_ms : ℕ
arp_timeout_ms = 30000

-- `ARP_CLEANUP_INTERVAL_MS`
abbrev pub arp_cleanup_interval_ms : ℕ
arp_cleanup_interval_ms = 5000

pub record NetworkInterface : Type 0 where
  pub arp_table : List (ℕ × ArpEntry)
  pub waiting_arp_response : List (ℕ × ℕ)
  pub waiting_ip_response : List (ℕ × Ipv4Datagram)
  pub ethernet_address : List ℕ
  pub ip_address : ℕ
  pub frames_out : List EthernetFrame

unfoldable pub init : List ℕ → ℕ → NetworkInterface
init ethernet_address ip_address = record {
  arp_table = [];
  waiting_arp_response = [];
  waiting_ip_response = [];
  ethernet_address = ethernet_address;
  ip_address = ip_address;
  frames_out = [];
}

-- `==` on two Ethernet addresses.
abbrev pub same_address : List ℕ → List ℕ → Bool
same_address [] [] = true
same_address (a ∷ as') (b ∷ bs) = a == b && same_address as' bs
same_address _ _ = false

abbrev pub push_frame : NetworkInterface → EthernetFrame → NetworkInterface
push_frame n frame = record n { frames_out = n.frames_out ++ (frame ∷ []) }

-- A frame from this interface.
abbrev pub frame_to : NetworkInterface → List ℕ → ℕ → List ℕ → EthernetFrame
frame_to n dst type payload = record {
  header = record { dst = dst; src = n.ethernet_address; type = type };
  payload = payload;
}

-- The bytes of a message that is supported.
abbrev pub arp_bytes : ArpMessage → List ℕ
arp_bytes m = elim (Arp.serialize m) [ none ↦ [] | some bytes ↦ bytes ]

abbrev pub arp_request : NetworkInterface → ℕ → ArpMessage
arp_request n target = record default_message {
  opcode = opcode_request;
  sender_ethernet_address = n.ethernet_address;
  sender_ip_address = n.ip_address;
  target_ethernet_address = replicate 6 0;
  target_ip_address = target;
}

-- The broadcast of a request.
abbrev pub request_frame : NetworkInterface → ℕ → EthernetFrame
request_frame n target = frame_to n ethernet_broadcast type_arp (arp_bytes (arp_request n target))

unfoldable pub send_datagram : NetworkInterface → Ipv4Datagram → ℕ → Option NetworkInterface
send_datagram n dgram next_hop =
    let waiting = n.waiting_ip_response ++ ((next_hop, dgram) ∷ []) in
    elim (find next_hop n.arp_table) [
      | some entry ↦ elim (serialize_datagram dgram) [
        | none ↦ none
        | some bytes ↦ some (push_frame n (frame_to n entry.ethernet_address type_ipv4 bytes))
      ]
      | none ↦ elim (find next_hop n.waiting_arp_response) [
        | none ↦ some (record n {
          frames_out = n.frames_out ++ (request_frame n next_hop ∷ []);
          waiting_arp_response = assign next_hop 0 n.waiting_arp_response;
          waiting_ip_response = waiting;
        })
        | some since ↦ some (record n { waiting_ip_response = waiting })
      ]
    ]

-- The loop over `_waiting_ip_response`, with those that stay so far. The address is in the table here,
-- so that `send_datagram` leaves the list alone.
unfoldable pub send_waiting :
    ℕ
    → List (ℕ × Ipv4Datagram)
    → List (ℕ × Ipv4Datagram)
    → NetworkInterface
    → Option NetworkInterface
send_waiting src_ip kept [] n = some (record n { waiting_ip_response = kept })
send_waiting src_ip kept ((hop, dgram) ∷ rest) n =
    let sent = if hop == src_ip then send_datagram n dgram hop else some n in
    elim sent [
      | none ↦ none
      | some n' ↦
          send_waiting src_ip (if hop == src_ip then kept else kept ++ ((hop, dgram) ∷ [])) rest
            (record n' { waiting_arp_response = erase src_ip n'.waiting_arp_response })
    ]

abbrev pub valid_request : NetworkInterface → ArpMessage → Bool
valid_request n m = m.target_ip_address == n.ip_address && m.opcode == opcode_request

abbrev pub valid_response : NetworkInterface → ArpMessage → Bool
valid_response n m =
    same_address m.target_ethernet_address n.ethernet_address && m.opcode == opcode_reply

abbrev pub arp_reply : NetworkInterface → ArpMessage → ArpMessage
arp_reply n m = record default_message {
  opcode = opcode_reply;
  sender_ethernet_address = n.ethernet_address;
  sender_ip_address = n.ip_address;
  target_ethernet_address = m.sender_ethernet_address;
  target_ip_address = m.sender_ip_address;
}

-- `recv_frame` on an ARP message, whose parse is not asked for its result.
unfoldable pub recv_arp : NetworkInterface → ArpMessage → Option NetworkInterface
unfolding send_waiting
recv_arp n m =
    let reply = frame_to n m.sender_ethernet_address type_arp (arp_bytes (arp_reply n m)) in
    let replied = if valid_request n m then push_frame n reply else n in
    let learned = record replied {
      arp_table =
          assign m.sender_ip_address
            (record { ethernet_address = m.sender_ethernet_address; last_seen = 0 })
            replied.arp_table;
    } in
    if valid_request n m || valid_response n m
    then send_waiting m.sender_ip_address [] learned.waiting_ip_response learned
    else some replied

-- The datagram for the caller, if its parse found no error.
abbrev pub received : ParseResult → Ipv4Datagram → Option Ipv4Datagram
received ParseResult.no_error dgram = some dgram
received _ dgram = none

-- The interface afterwards, and the datagram for the caller, if there is one.
unfoldable pub recv_frame :
    NetworkInterface → EthernetFrame → Option (NetworkInterface × Option Ipv4Datagram)
recv_frame n frame =
    let (_, message) = Arp.parse default_message frame.payload in
    let (result, dgram) = parse_datagram default_header frame.payload in
    let (_, again) = parse_datagram dgram.header frame.payload in
    if not (same_address frame.header.dst n.ethernet_address)
      && not (same_address frame.header.dst ethernet_broadcast)
    then some (n, none)
    else if frame.header.type == type_arp
    then (elim (recv_arp n message) [ none ↦ none | some n' ↦ some (n', none) ])
    else if frame.header.type == type_ipv4
    then some (n, received result again)
    else some (n, none)

-- The loop over `_arp_table`.
unfoldable pub expire_entries : ℕ → List (ℕ × ArpEntry) → List (ℕ × ArpEntry)
expire_entries ms [] = []
expire_entries ms ((ip, entry) ∷ table) =
    let last_seen = add64 entry.last_seen ms in
    let rest = expire_entries ms table in
    if leb arp_timeout_ms last_seen
    then rest
    else (ip, record entry { last_seen = last_seen }) ∷ rest

-- The loop over `_waiting_arp_response`, on fuel, with the pairs that the iterator has passed. A pair
-- that is sent again is not passed, but looked at once more.
unfoldable pub resend :
    ℕ → ℕ → List (ℕ × ℕ) → List (ℕ × ℕ) → NetworkInterface → Option NetworkInterface
resend fuel ms passed [] n = some (record n { waiting_arp_response = passed })
resend zero ms passed ((ip, since) ∷ rest) n = none
resend (suc fuel) ms passed ((ip, since) ∷ rest) n =
    let since' = add64 since ms in
    elim (leb arp_cleanup_interval_ms since') [
      | true ↦ resend fuel ms passed ((ip, 0) ∷ rest) (push_frame n (request_frame n ip))
      | false ↦ resend fuel ms (passed ++ ((ip, since') ∷ [])) rest n
    ]

-- `none` is a loop that has not ended on its fuel.
unfoldable pub tick : ℕ → NetworkInterface → ℕ → Option NetworkInterface
unfolding expire_entries resend
tick fuel n ms =
    resend fuel ms [] n.waiting_arp_response
      (record n { arp_table = expire_entries ms n.arp_table })
