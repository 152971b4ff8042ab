-- ===== src/Arp/RoundTrip.antt =====
-- A message of libsponge/tcp_helpers/arp_message.cc through its bytes and back.
use sponge.Prelude.{
  ℕ, ◌^◌, ◌<◌, ◌≡◌, refl, List, [], ◌++◌, length, arith, length-append, append-nil, le→ltb, if_true,
  IsU32, some, true,
}
use sponge.Parser.{ParseResult, parser, unparse_int, write_bytes}
use sponge.Parser.RoundTrip.{u8-unparse_int, u16-unparse_int, u32-unparse_int}
use sponge.Ethernet.RoundTrip.{IsAddress, read_address, length-write_bytes}
use sponge.Arp.{
  ArpMessage, supported, parse_types, parse_addresses, parse, serialize_types, serialize_addresses,
  serialize,
}

-- The fields are within their types.
pub record IsMessage (m : ArpMessage) : Type 0 where
  pub opcode : m.opcode < 2 ^ 16
  pub sender : IsAddress m.sender_ethernet_address
  pub sender_ip : IsU32 m.sender_ip_address
  pub target : IsAddress m.target_ethernet_address
  pub target_ip : IsU32 m.target_ip_address

-- What `supported` leaves of the first four fields.
record IsTyped (m : ArpMessage) : Type 0 where
  hardware_type : m.hardware_type < 2 ^ 16
  protocol_type : m.protocol_type < 2 ^ 16
  hardware_address_size : m.hardware_address_size < 2 ^ 8
  protocol_address_size : m.protocol_address_size < 2 ^ 8

supported-IsTyped : (m : ArpMessage) → supported m ≡ true → IsTyped m
supported-IsTyped m h = ground arith

-- The first fields of one message, and the others of another.
abbrev with_types : ArpMessage → ArpMessage → ArpMessage
with_types m old = record old {
  hardware_type = m.hardware_type;
  protocol_type = m.protocol_type;
  hardware_address_size = m.hardware_address_size;
  protocol_address_size = m.protocol_address_size;
  opcode = m.opcode;
}

parse_types-serialize_types :
    (old m : ArpMessage) (rest : List ℕ)
    → IsTyped m
    → m.opcode < 2 ^ 16
    → parse_types old (parser (serialize_types m ++ rest)) ≡ (with_types m old, parser rest)
unfolding parse_types serialize_types unparse_int
parse_types-serialize_types old m rest t o =
    let a4 = unparse_int 2 m.opcode ++ rest in
    let a3 = unparse_int 1 m.protocol_address_size ++ a4 in
    let a2 = unparse_int 1 m.hardware_address_size ++ a3 in
    let a1 = unparse_int 2 m.protocol_type ++ a2 in
    rw
      (
        u16-unparse_int m.hardware_type a1 t.hardware_type,
        u16-unparse_int m.protocol_type a2 t.protocol_type,
        u8-unparse_int m.hardware_address_size a3 t.hardware_address_size,
        u8-unparse_int m.protocol_address_size a4 t.protocol_address_size,
        u16-unparse_int m.opcode rest o,
      )
      refl

parse_addresses-serialize_addresses :
    (old m : ArpMessage)
    → IsMessage m
    → parse_addresses old (parser (serialize_addresses m)) ≡ (with_types old m, parser [])
unfolding parse_addresses serialize_addresses
parse_addresses-serialize_addresses old m v =
    let a3 = unparse_int 4 m.target_ip_address in
    let a2 = write_bytes m.target_ethernet_address ++ a3 in
    let a1 = unparse_int 4 m.sender_ip_address ++ a2 in
    rw
      (
        read_address m.sender_ethernet_address a1 v.sender,
        u32-unparse_int m.sender_ip_address a2 v.sender_ip,
        read_address m.target_ethernet_address a3 v.target,
        ← append-nil a3,
        u32-unparse_int m.target_ip_address [] v.target_ip,
      )
      refl

length-serialized :
    (m : ArpMessage) → IsMessage m → length (serialize_types m ++ serialize_addresses m) ≡ 28
unfolding serialize_types serialize_addresses unparse_int
length-serialized m v =
    let a3 = unparse_int 4 m.target_ip_address in
    let a2 = write_bytes m.target_ethernet_address ++ a3 in
    let a1 = unparse_int 4 m.sender_ip_address ++ a2 in
    omega (
      arith,
      length-append (write_bytes m.sender_ethernet_address) a1,
      length-append (write_bytes m.target_ethernet_address) a3,
      length-write_bytes m.sender_ethernet_address,
      length-write_bytes m.target_ethernet_address,
      v.sender.0,
      v.target.0,
    )

-- A supported message whose fields are within their types comes back from its bytes, whatever the
-- message that it is read into.
pub parse-serialize_message :
    (old m : ArpMessage)
    → IsMessage m
    → supported m ≡ true
    → (bytes : List ℕ) × (serialize m ≡ some bytes) × (parse old bytes ≡ (ParseResult.no_error, m))
unfolding parse serialize
parse-serialize_message old m v s =
    let typed = supported-IsTyped m s in
    let bytes = serialize_types m ++ serialize_addresses m in
    let first = parse_types-serialize_types old m (serialize_addresses m) typed v.opcode in
    let second = parse_addresses-serialize_addresses (with_types m old) m v in
    (
      bytes,
      if_true (supported m) _ _ s,
      rw (le→ltb (length bytes) 28 (omega (arith, length-serialized m v)), first, s, second) refl,
    )
