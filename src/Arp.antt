-- ===== src/Arp.antt =====
-- libsponge/tcp_helpers/arp_message.hh and arp_message.cc.
pub mod RoundTrip
use sponge.Prelude.{
  ℕ, ◌==◌, Bool, true, false, not, ◌&&◌, ◌||◌, Option, none, some, List, [], ◌∷◌, ◌++◌, length, ltb,
  if◌then◌else◌, replicate,
}
use sponge.Parser.{
  ParseResult, NetParser, parser, u8, u16, u32, read_bytes, unparse_int, write_bytes,
}
use sponge.Ethernet.{type_ipv4}

pub record ArpMessage : Type 0 where
  pub hardware_type : ℕ
  pub protocol_type : ℕ
  pub hardware_address_size : ℕ
  pub protocol_address_size : ℕ
  pub opcode : ℕ
  pub sender_ethernet_address : List ℕ
  pub sender_ip_address : ℕ
  pub target_ethernet_address : List ℕ
  pub target_ip_address : ℕ

abbrev pub opcode_request : ℕ
opcode_request = 1

abbrev pub opcode_reply : ℕ
opcode_reply = 2

-- `ARPMessage` with the initializers of its class.
abbrev pub default_message : ArpMessage
default_message = record {
  hardware_type = 1;
  protocol_type = type_ipv4;
  hardware_address_size = 6;
  protocol_address_size = 4;
  opcode = 0;
  sender_ethernet_address = replicate 6 0;
  sender_ip_address = 0;
  target_ethernet_address = replicate 6 0;
  target_ip_address = 0;
}

abbrev pub supported : ArpMessage → Bool
supported m =
    m.hardware_type == 1
    && m.protocol_type == type_ipv4
    && m.hardware_address_size == 6
    && m.protocol_address_size == 4
    && (m.opcode == opcode_request || m.opcode == opcode_reply)

-- The fields before the test whether they are supported.
unfoldable pub parse_types : ArpMessage → NetParser → ArpMessage × NetParser
parse_types old p0 =
    let (hardware_type, p1) = u16 p0 in
    let (protocol_type, p2) = u16 p1 in
    let (hardware_address_size, p3) = u8 p2 in
    let (protocol_address_size, p4) = u8 p3 in
    let (opcode, p5) = u16 p4 in
    (
      record old {
        hardware_type = hardware_type;
        protocol_type = protocol_type;
        hardware_address_size = hardware_address_size;
        protocol_address_size = protocol_address_size;
        opcode = opcode;
      },
      p5,
    )

-- The fields after it.
unfoldable pub parse_addresses : ArpMessage → NetParser → ArpMessage × NetParser
parse_addresses old p0 =
    let (sender_ethernet_address, p1) = read_bytes 6 p0 in
    let (sender_ip_address, p2) = u32 p1 in
    let (target_ethernet_address, p3) = read_bytes 6 p2 in
    let (target_ip_address, p4) = u32 p3 in
    (
      record old {
        sender_ethernet_address = sender_ethernet_address;
        sender_ip_address = sender_ip_address;
        target_ethernet_address = target_ethernet_address;
        target_ip_address = target_ip_address;
      },
      p4,
    )

-- The result and the message, in which the fields that were not read are still those of `old`.
unfoldable pub parse : ArpMessage → List ℕ → ParseResult × ArpMessage
parse old buffer =
    let (typed, p) = parse_types old (parser buffer) in
    let (message, p') = parse_addresses typed p in
    if ltb (length buffer) 28
    then (ParseResult.packet_too_short, old)
    else if not (supported typed)
    then (ParseResult.unsupported, typed)
    else (p'.result, message)

unfoldable pub serialize_types : ArpMessage → List ℕ
serialize_types m =
    unparse_int 2 m.hardware_type
    ++ (unparse_int 2 m.protocol_type
        ++ (unparse_int 1 m.hardware_address_size
            ++ (unparse_int 1 m.protocol_address_size ++ unparse_int 2 m.opcode)))

unfoldable pub serialize_addresses : ArpMessage → List ℕ
serialize_addresses m =
    write_bytes m.sender_ethernet_address
    ++ (unparse_int 4 m.sender_ip_address
        ++ (write_bytes m.target_ethernet_address ++ unparse_int 4 m.target_ip_address))

-- An unsupported message is an exception, `none`.
unfoldable pub serialize : ArpMessage → Option (List ℕ)
serialize m = if supported m then some (serialize_types m ++ serialize_addresses m) else none
